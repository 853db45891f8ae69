-- ===== src/UserRoles/Validate/Unique.antt =====
-- What a passed `ValidateRoleInputs` of core/user_roles.go means for the resolution of roles.
use cc2wechat.Prelude.{
  String, ◌≡◌, ◌⊎◌, refl, Bool, true, false, Option, none, some, List, [], ◌∷◌, inl, inr, arith,
  ◌==◌, eq_iff, if◌then◌else◌, Bool-cases, Option-cases,
}
use cc2wechat.Prelude.Lists.{contains}
use cc2wechat.Prelude.GoMap.{get, put, get-put}
use cc2wechat.Commands.{Candidate}
use cc2wechat.UserRoles.{RoleInput, plain_ids, configure, resolve_role, UserRole}
use cc2wechat.UserRoles.Resolve.{any, lists, called, any-called}
use cc2wechat.UserRoles.Order.{
  Resolution, explicit, by_default, by_wildcard, unresolved, resolve_role-Resolution,
}
use cc2wechat.UserRoles.Validate.{
  Checked, ok, err, ◌>>=◌, Seen, check_id, check_ids, check_role, check_roles, validate_role_inputs,
}

bind-ok {ℓ κ} :
    {A : Type ℓ} {B : Type κ} (r : Checked A) (f : A → Checked B) {b : B}
    → (r >>= f) ≡ ok b
    → (a : A) × (r ≡ ok a) × (f a ≡ ok b)
bind-ok (ok a) f h = (a, refl, h)
bind-ok (err e) f h = cc

module _ (to_lower : String → String) (builtins : List Candidate) where
  abbrev holds : String → List String → Bool
  holds low uids = contains low (plain_ids to_lower builtins uids)

  -- One round: a wildcard, or an id that had no owner and now has one.
  check_id_lem :
      (name uid : String) (s t : Seen)
      → check_id to_lower name uid s ≡ ok t
      → (((uid == "*") ≡ true) × (t.owners ≡ s.owners))
        ⊎ (((uid == "*") ≡ false)
            × (get (to_lower uid) s.owners ≡ none)
            × (t.owners ≡ put (to_lower uid) name s.owners))
  check_id_lem name uid s t h = elim (Bool-cases (uid == "*")) [
    | inl e ↦ inl (e, unfold check_id in ground arith)
    | inr e ↦ elim (Option-cases (get (to_lower uid) s.owners)) [
      | inl n ↦ inr (e, n, unfold check_id in ground arith)
      | inr (prev, n) ↦ absurd (unfold check_id in ground arith)
    ]
  ]

  check_ids_lem :
      (name low : String) (uids : List String) (s t : Seen)
      → check_ids to_lower name uids s ≡ ok t
      → (get low t.owners ≡ (if holds low uids then some name else get low s.owners))
        × (holds low uids ≡ true → get low s.owners ≡ none)
  unfolding check_ids plain_ids contains
  check_ids_lem name low [] s t h = (ground arith, λ q. cc)
  check_ids_lem name low (uid ∷ uids) s t h =
      let (s', first, rest) =
        bind-ok (check_id to_lower name uid s) (check_ids to_lower name uids) h in
      let (a, b) = check_ids_lem name low uids s' t rest in
      elim (check_id_lem name uid s s' first) [
        | inl (e, q) ↦ (ground arith, ground arith)
        | inr (e, n, q) ↦ (
          ground (arith, eq_iff (to_lower uid) low, get-put (to_lower uid) low name s.owners),
          ground (arith, eq_iff (to_lower uid) low, get-put (to_lower uid) low name s.owners),
        )
      ]

  check_role_lem :
      (ri : RoleInput) (s t : Seen)
      → check_role to_lower ri s ≡ ok t
      → check_ids to_lower ri.name ri.user_ids s ≡ ok t
  check_role_lem ri s t h = go ri.user_ids refl
    where
      go :
          (uids : List String)
          → ri.user_ids ≡ uids
          → check_ids to_lower ri.name ri.user_ids s ≡ ok t
      go [] e = absurd (unfold check_role in ground arith)
      go (uid ∷ uids) e = unfold check_role in ground arith

  abbrev pub owned : String → String → RoleInput → Bool
  owned low owner = called owner (λ ri. holds low ri.user_ids)

  check_roles_lem :
      (low : String) (rs : List RoleInput) (s t : Seen)
      → check_roles to_lower rs s ≡ ok t
      → ((owner : String)
          → any (owned low owner) rs ≡ true
          → (get low t.owners ≡ some owner) × (get low s.owners ≡ none))
        × ((prev : String) → get low s.owners ≡ some prev → get low t.owners ≡ some prev)
  unfolding check_roles any
  check_roles_lem low [] s t h = (λ owner q. cc, λ prev q. ground arith)
  check_roles_lem low (ri ∷ rs) s t h =
      let (s', first, rest) = bind-ok (check_role to_lower ri s) (check_roles to_lower rs) h in
      let (now, before) =
        check_ids_lem ri.name low ri.user_ids s s' (check_role_lem ri s s' first) in
      let (later, keeps) = check_roles_lem low rs s' t rest in
      (
        λ owner q. elim (Bool-cases (holds low ri.user_ids)) [
          | inl e ↦ elim (Bool-cases (ri.name == owner)) [
            | inl n ↦ (ground (arith, keeps owner, eq_iff ri.name owner), before e)
            | inr n ↦ absurd (ground (arith, later owner))
          ]
          | inr e ↦ ground (arith, later owner)
        ],
        λ prev q. elim (Bool-cases (holds low ri.user_ids)) [
          | inl e ↦ absurd (ground (arith, before e))
          | inr e ↦ ground (arith, keeps prev)
        ],
      )

  validated :
      (default : String) (rs : List RoleInput)
      → validate_role_inputs to_lower default rs ≡ ok tt
      → (t : Seen) × (check_roles to_lower rs (record { wildcards = 0; owners = [] }) ≡ ok t)
  unfolding validate_role_inputs
  validated default [] h = cc
  validated default (ri ∷ rs) h =
      let (t, passed, _) = bind-ok (check_roles to_lower (ri ∷ rs) _) _ h in (t, passed)

  any-lists :
      (uid owner : String) (rs : List RoleInput)
      → any (called owner (lists to_lower builtins uid)) rs ≡ true
      → any (owned (to_lower uid) owner) rs ≡ true
  unfolding any lists
  any-lists uid owner [] h = cc
  any-lists uid owner (ri ∷ rs) h = ground (arith, any-lists uid owner rs)

  -- Once the inputs are validated, all roles that list one id (in lower case) have one name, and
  -- a user whom a role without a wildcard lists by id gets the role of that name, whatever the
  -- default role and the wildcard are.
  pub resolve_role-validated :
      (default uid owner : String) (rs : List RoleInput)
      → validate_role_inputs to_lower default rs ≡ ok tt
      → any (called owner (lists to_lower builtins uid)) rs ≡ true
      → ((other : String) → any (owned (to_lower uid) other) rs ≡ true → other ≡ owner)
        × (role : UserRole) × (resolve_role to_lower builtins uid
              (configure to_lower builtins default rs)
            ≡ some role)
        × (role.name ≡ owner)
  resolve_role-validated default uid owner rs v q =
      let (t, passed) = validated default rs v in
      let (one, _) = check_roles_lem (to_lower uid) rs _ t passed in
      let unique : (other : String) → any (owned (to_lower uid) other) rs ≡ true → other ≡ owner =
        λ other o. ground (arith, one other o, one owner (any-lists uid owner rs q)) in
      let listed = (any-called owner (lists to_lower builtins uid) rs q).0 in
      let (role, here, named) =
        found unique listed (resolve_role-Resolution to_lower builtins default rs uid) in
      (unique, role, here, named)
    where
      found :
          ((other : String) → any (owned (to_lower uid) other) rs ≡ true → other ≡ owner)
          → any (lists to_lower builtins uid) rs ≡ true
          → {r : Option UserRole} → Resolution (lists to_lower builtins uid) default rs r
          → (role : UserRole) × (r ≡ some role) × (role.name ≡ owner)
      found unique listed (explicit role here h) =
          (role, here, unique role.name (any-lists uid role.name rs h))
      found unique listed (by_default role no_list set here named y) = absurd (ground arith)
      found unique listed (by_wildcard role no_list unset here h) = absurd (ground arith)
      found unique listed (unresolved no_list unset none_wild here) = absurd (ground arith)
