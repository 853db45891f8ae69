-- ===== src/UserRoles/Order.antt =====
-- The order of resolution in `ResolveRole` of core/user_roles.go: explicit, default, wildcard, nil.
use cc2wechat.Prelude.{
  String, ◌≡◌, ◌⊎◌, refl, Bool, true, false, not, ◌||◌, Option, none, some, List, map, inl, inr,
  arith, ◌==◌, Bool-cases,
}
use cc2wechat.Commands.{Candidate}
use cc2wechat.UserRoles.{
  UserRole, RoleInput, RoleEntry, UserRoleManager, sort_by_name, entry_of, configure,
  explicit_entry, wildcard_entry, default_of, resolve_role,
}
use cc2wechat.UserRoles.Resolve.{
  any, any-sort, lists, has_wildcard, called, roles-add, default-add, any-called, explicit_lem,
  wildcard_lem, role_named, no_role,
}

-- The four cases, for the role `r` that is found and the inputs `rs`.
pub data Resolution (listed : RoleInput → Bool) (default : String) (rs : List RoleInput)
    (r : Option UserRole) : Type 0 where
  explicit :
      (role : UserRole)
      → r ≡ some role
      → any (called role.name listed) rs ≡ true
      → Resolution listed default rs r
  by_default :
      (role : UserRole)
      → any listed rs ≡ false
      → (default == "") ≡ false
      → r ≡ some role
      → role.name ≡ default
      → any (λ ri. ri.name == default) rs ≡ true
      → Resolution listed default rs r
  by_wildcard :
      (role : UserRole)
      → any listed rs ≡ false
      → ((default == "") || not (any (λ ri. ri.name == default) rs)) ≡ true
      → r ≡ some role
      → any (called role.name has_wildcard) rs ≡ true
      → Resolution listed default rs r
  unresolved :
      any listed rs ≡ false
      → ((default == "") || not (any (λ ri. ri.name == default) rs)) ≡ true
      → any has_wildcard rs ≡ false
      → r ≡ none
      → Resolution listed default rs r

module _ (to_lower : String → String) (builtins : List Candidate) (default : String)
    (rs : List RoleInput) where
  abbrev m : UserRoleManager
  m = configure to_lower builtins default rs

  roles-m : m.roles ≡ map (entry_of to_lower builtins) (sort_by_name rs)
  unfolding configure
  roles-m = roles-add to_lower builtins (sort_by_name rs) _

  default-m : m.default_role ≡ default
  unfolding configure
  default-m = default-add to_lower builtins (sort_by_name rs) _

  explicit_m :
      (uid : String)
      → ((explicit_entry to_lower builtins (to_lower uid) m.roles ≡ none)
          × (any (lists to_lower builtins uid) rs ≡ false))
        ⊎ ((e : RoleEntry) × (explicit_entry to_lower builtins (to_lower uid) m.roles ≡ some e)
            × (any (called e.role_name (lists to_lower builtins uid)) rs ≡ true))
  explicit_m uid = elim (explicit_lem to_lower builtins uid (sort_by_name rs)) [
    | inl (a, b) ↦ inl (rw roles-m a, rw any-sort at b)
    | inr (e, a, b) ↦ inr (e, rw roles-m a, rw any-sort at b)
  ]

  wildcard_m :
      ((wildcard_entry to_lower builtins m.roles ≡ none) × (any has_wildcard rs ≡ false))
      ⊎ ((e : RoleEntry) × (wildcard_entry to_lower builtins m.roles ≡ some e)
          × (any (called e.role_name has_wildcard) rs ≡ true))
  wildcard_m = elim (wildcard_lem to_lower builtins (sort_by_name rs)) [
    | inl (a, b) ↦ inl (rw roles-m a, rw any-sort at b)
    | inr (e, a, b) ↦ inr (e, rw roles-m a, rw any-sort at b)
  ]

  -- What the default role is found to be.
  default_m :
      ((default_of to_lower builtins m ≡ none)
        × (((default == "") || not (any (λ ri. ri.name == default) rs)) ≡ true))
      ⊎ ((role : UserRole) × (default_of to_lower builtins m ≡ some role)
          × ((default == "") ≡ false)
          × (role.name ≡ default)
          × (any (λ ri. ri.name == default) rs ≡ true))
  unfolding default_of
  default_m = elim (Bool-cases (default == "")) [
    | inl e ↦ inl (ground (arith, default-m), ground arith)
    | inr e ↦ elim (Bool-cases (any (λ ri. ri.name == default) rs)) [
      | inl y ↦
          let (role, here, named) = role_named to_lower builtins default default rs y in
          inr (role, ground (arith, default-m), e, named, y)
      | inr n ↦ inl (unnamed e n, ground arith)
    ]
  ]
    where
      unnamed :
          (default == "") ≡ false
          → any (λ ri. ri.name == default) rs ≡ false
          → default_of to_lower builtins m ≡ none
      unnamed e n =
          rw (default-m, default_of) (rw e (no_role to_lower builtins default default rs n))

  -- After a configuration, a user gets a role that lists the user by id and has no wildcard, if
  -- there is one; else the default role, if it is set and configured; else a role with the
  -- wildcard, if there is one; else none.
  pub resolve_role-Resolution :
      (uid : String)
      → Resolution
          (lists to_lower builtins uid)
          default
          rs
          (resolve_role to_lower builtins uid (configure to_lower builtins default rs))
  unfolding resolve_role
  resolve_role-Resolution uid = elim (explicit_m uid) [
    | inr (e, a, b) ↦
        let (role, here, named) =
          role_named to_lower builtins e.role_name default rs (any-called e.role_name _ rs b).1 in
        rw (a, resolve_role) (explicit role here (rw named b))
    | inl (a, b) ↦ elim default_m [
      | inr (role, here, set, named, y) ↦
          rw (a, resolve_role) (rw here (by_default role b set refl named y))
      | inl (d, unset) ↦ elim wildcard_m [
        | inr (e, w, q) ↦
            let (role, here, named) =
              role_named to_lower builtins e.role_name default rs
                (any-called e.role_name _ rs q).1 in
            rw (a, resolve_role) (rw d (rw w (by_wildcard role b unset here (rw named q))))
        | inl (w, q) ↦ rw (a, resolve_role) (rw d (rw w (unresolved b unset q refl)))
      ]
    ]
  ]
