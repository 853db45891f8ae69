-- ===== src/UserRoles/Resolve.antt =====
-- Which role a user gets, `ResolveRole` of core/user_roles.go, in terms of the configured inputs.
use cc2wechat.Prelude.{
  String, ◌≡◌, ◌⊎◌, refl, sym, ◌∙◌, Bool, true, false, not, ◌&&◌, ◌||◌, Option, none, some, List,
  [], ◌∷◌, ◌++◌, map, inl, inr, arith, ◌==◌, eq_iff, if◌then◌else◌, Bool-cases,
}
use cc2wechat.Prelude.Lists.{contains}
use cc2wechat.Prelude.GoMap.{GoMap, get, get-put, map_option}
use mathlib.Core.List.{append-nil, append_assoc}
use cc2wechat.Commands.{Candidate}
use cc2wechat.UserRoles.{
  UserRole, RoleInput, RoleEntry, UserRoleManager, insert_by_name, sort_by_name, plain_ids,
  entry_of, role_of, add_roles, configure, explicit_entry, wildcard_entry,
}

-- Some input of the list passes.
unfoldable pub any : (RoleInput → Bool) → List RoleInput → Bool
any p [] = false
any p (r ∷ rs) = p r || any p rs

any-insert :
    (p : RoleInput → Bool) (r : RoleInput) (rs : List RoleInput)
    → any p (insert_by_name r rs) ≡ (p r || any p rs)
unfolding any insert_by_name
any-insert p r [] = refl
any-insert p r (s ∷ rs) = ground (arith, any-insert p r rs)

pub any-sort : (p : RoleInput → Bool) (rs : List RoleInput) → any p (sort_by_name rs) ≡ any p rs
unfolding any sort_by_name
any-sort p [] = refl
any-sort p (r ∷ rs) = ground (arith, any-insert p r (sort_by_name rs), any-sort p rs)

abbrev pub has_wildcard : RoleInput → Bool
has_wildcard ri = contains "*" ri.user_ids

abbrev pub called : String → (RoleInput → Bool) → RoleInput → Bool
called name p ri = (ri.name == name) && p ri

abbrev pub name_at : String → GoMap UserRole → Option String
name_at name m = map_option (λ role. role.name) (get name m)

pub any-called :
    (name : String) (p : RoleInput → Bool) (rs : List RoleInput)
    → any (called name p) rs ≡ true
    → (any p rs ≡ true) × (any (λ ri. ri.name == name) rs ≡ true)
unfolding any
any-called name p [] h = cc
any-called name p (r ∷ rs) h = ground (arith, any-called name p rs)

module _ (to_lower : String → String) (builtins : List Candidate) where
  -- The role lists the user by id, and has no wildcard.
  unfoldable pub lists : String → RoleInput → Bool
  lists uid ri =
      not (contains "*" ri.user_ids)
      && contains (to_lower uid) (plain_ids to_lower builtins ri.user_ids)

  pub roles-add :
      (rs : List RoleInput) (m : UserRoleManager)
      → (add_roles to_lower builtins rs m).roles ≡ m.roles ++ map (entry_of to_lower builtins) rs
  unfolding add_roles
  roles-add [] m = sym (append-nil m.roles)
  roles-add (r ∷ rs) m =
      roles-add rs _
      ∙ append_assoc m.roles (entry_of to_lower builtins r ∷ [])
          (map (entry_of to_lower builtins) rs)

  pub default-add :
      (rs : List RoleInput) (m : UserRoleManager)
      → (add_roles to_lower builtins rs m).default_role ≡ m.default_role
  unfolding add_roles
  default-add [] m = refl
  default-add (r ∷ rs) m = default-add rs _

  -- The role map has a role of its own name for each input, beside those it had.
  pub name_at-add :
      (name : String) (rs : List RoleInput) (m : UserRoleManager)
      → name_at name (add_roles to_lower builtins rs m).role_map
        ≡ (if any (λ ri. ri.name == name) rs then some name else name_at name m.role_map)
  unfolding add_roles any role_of
  name_at-add name [] m = refl
  name_at-add name (r ∷ rs) m =
      name_at-add name rs _
      ∙ ground
          (arith, eq_iff r.name name, get-put r.name name (role_of to_lower builtins r) m.role_map)

  pub explicit_lem :
      (uid : String) (rs : List RoleInput)
      → ((explicit_entry to_lower builtins (to_lower uid) (map (entry_of to_lower builtins) rs)
            ≡ none)
          × (any (lists uid) rs ≡ false))
        ⊎ ((e : RoleEntry) × (explicit_entry to_lower builtins
                (to_lower uid)
                (map (entry_of to_lower builtins) rs)
              ≡ some e)
            × (any (called e.role_name (lists uid)) rs ≡ true))
  unfolding explicit_entry any entry_of lists
  explicit_lem uid [] = inl (refl, refl)
  explicit_lem uid (r ∷ rs) = elim (Bool-cases (lists uid r)) [
    | inl e ↦ inr (entry_of to_lower builtins r, ground arith, ground (arith, eq_iff r.name r.name))
    | inr e ↦ elim (explicit_lem uid rs) [
      | inl (n, q) ↦ inl (ground arith, ground arith)
      | inr (f, n, q) ↦ inr (f, ground arith, ground arith)
    ]
  ]

  pub wildcard_lem :
      (rs : List RoleInput)
      → ((wildcard_entry to_lower builtins (map (entry_of to_lower builtins) rs) ≡ none)
          × (any has_wildcard rs ≡ false))
        ⊎ ((e : RoleEntry) × (wildcard_entry to_lower builtins (map (entry_of to_lower builtins) rs)
              ≡ some e)
            × (any (called e.role_name has_wildcard) rs ≡ true))
  unfolding wildcard_entry any entry_of
  wildcard_lem [] = inl (refl, refl)
  wildcard_lem (r ∷ rs) = elim (Bool-cases (has_wildcard r)) [
    | inl e ↦ inr (entry_of to_lower builtins r, ground arith, ground (arith, eq_iff r.name r.name))
    | inr e ↦ elim (wildcard_lem rs) [
      | inl (n, q) ↦ inl (ground arith, ground arith)
      | inr (f, n, q) ↦ inr (f, ground arith, ground arith)
    ]
  ]

  -- Where an input has the name, the configured map has a role of that name.
  pub role_named :
      (name default : String) (rs : List RoleInput)
      → any (λ ri. ri.name == name) rs ≡ true
      → (role : UserRole) × (get name (configure to_lower builtins default rs).role_map ≡ some role)
        × (role.name ≡ name)
  unfolding configure get
  role_named name default rs h = go (get name _) refl
    where
      go :
          (o : Option UserRole)
          → get name (configure to_lower builtins default rs).role_map ≡ o
          → (role : UserRole) × (get name (configure to_lower builtins default rs).role_map
              ≡ some role)
            × (role.name ≡ name)
      go none e = absurd (
          ground (
            arith,
            name_at-add name (sort_by_name rs)
                (record { roles = []; default_role = default; role_map = []; limiters = [] }),
            any-sort (λ ri. ri.name == name) rs,
          ))
      go (some role) e = (
        role,
        e,
        ground (
          arith,
          name_at-add name (sort_by_name rs)
              (record { roles = []; default_role = default; role_map = []; limiters = [] }),
          any-sort (λ ri. ri.name == name) rs,
        ),
      )

  pub no_role :
      (name default : String) (rs : List RoleInput)
      → any (λ ri. ri.name == name) rs ≡ false
      → get name (configure to_lower builtins default rs).role_map ≡ none
  unfolding configure get
  no_role name default rs h = ground (
    arith,
    name_at-add name (sort_by_name rs)
        (record { roles = []; default_role = default; role_map = []; limiters = [] }),
    any-sort (λ ri. ri.name == name) rs,
  )
