-- ===== src/UserRoles.antt =====
-- `UserRoleManager` of core/user_roles.go. `strings.ToLower` and the table of built-in commands, by
-- which Commands.antt resolves the disabled ones, are parameters; a nil manager is the engine's case.
pub mod Resolve
pub mod Order
pub mod Validate
use Prim.Native.String.{compare}
use Prim.Native.Nat.{Ordering}
use cc2wechat.Prelude.{
  ℕ, ◌+◌, zero, suc, String, Bool, true, false, not, ◌&&◌, ◌||◌, Option, none, some, List, [], ◌∷◌,
  ◌++◌, ltb, ◌==◌, if◌then◌else◌,
}
use cc2wechat.Prelude.Lists.{contains}
use cc2wechat.Prelude.GoMap.{GoMap, get, put, has}
use cc2wechat.Commands.{Candidate, resolve_disabled_cmds}
use cc2wechat.RateLimit.{RateLimiter, new_rate_limiter, allow}

pub record RateLimitCfg : Type 0 where
  pub max_messages : ℕ
  pub window_ms : ℕ

pub record UserRole : Type 0 where
  pub name : String
  pub disabled_cmds : GoMap (Unit {0})
  pub rate_limit_cfg : Option RateLimitCfg

pub record RoleInput : Type 0 where
  pub name : String
  pub user_ids : List String
  pub disabled_commands : List String
  pub rate_limit : Option RateLimitCfg

pub record RoleEntry : Type 0 where
  pub role_name : String
  pub user_ids : List String
  pub wildcard : Bool

pub record UserRoleManager : Type 0 where
  pub roles : List RoleEntry
  pub default_role : String
  pub role_map : GoMap UserRole
  pub limiters : GoMap RateLimiter

abbrev pub text_lt : String → String → Bool
text_lt s t = elim (compare s t) [ Ordering.lt ↦ true | _ ↦ false ]

-- `sort.Slice` by name. Go leaves the order of equal names open; here it is the given one.
insert_by_name : RoleInput → List RoleInput → List RoleInput
insert_by_name r [] = r ∷ []
insert_by_name r (s ∷ rest) =
    if text_lt s.name r.name then s ∷ insert_by_name r rest else r ∷ s ∷ rest

unfoldable pub sort_by_name : List RoleInput → List RoleInput
unfolding insert_by_name
sort_by_name [] = []
sort_by_name (r ∷ rest) = insert_by_name r (sort_by_name rest)

module _ (to_lower : String → String) (builtin_commands : List Candidate) where
  -- The ids of an entry, in lower case, without the wildcards.
  unfoldable pub plain_ids : List String → List String
  plain_ids [] = []
  plain_ids (uid ∷ uids) =
      let rest = plain_ids uids in if uid == "*" then rest else to_lower uid ∷ rest

  unfoldable pub entry_of : RoleInput → RoleEntry
  entry_of ri = record {
    role_name = ri.name;
    user_ids = plain_ids ri.user_ids;
    wildcard = contains "*" ri.user_ids;
  }

  unfoldable pub role_of : RoleInput → UserRole
  role_of ri = record {
    name = ri.name;
    disabled_cmds = resolve_disabled_cmds to_lower builtin_commands ri.disabled_commands;
    rate_limit_cfg = ri.rate_limit;
  }

  unfoldable pub add_limiter : String → Option RateLimitCfg → GoMap RateLimiter → GoMap RateLimiter
  add_limiter name none limiters = limiters
  add_limiter name (some cfg) limiters =
      if ltb 0 cfg.max_messages
      then put name (new_rate_limiter cfg.max_messages cfg.window_ms) limiters
      else limiters

  -- The loop over the sorted inputs.
  unfoldable pub add_roles : List RoleInput → UserRoleManager → UserRoleManager
  add_roles [] m = m
  add_roles (ri ∷ rest) m = add_roles rest (record m {
    role_map = put ri.name (role_of ri) m.role_map;
    roles = m.roles ++ entry_of ri ∷ [];
    limiters = add_limiter ri.name ri.rate_limit m.limiters;
  })

  -- The old limiters are stopped and dropped.
  unfoldable pub configure : String → List RoleInput → UserRoleManager
  configure default_role roles =
      add_roles (sort_by_name roles)
        (record { roles = []; default_role = default_role; role_map = []; limiters = [] })

  -- The first entry without a wildcard that lists the lower-case id.
  unfoldable pub explicit_entry : String → List RoleEntry → Option RoleEntry
  explicit_entry uid [] = none
  explicit_entry uid (e ∷ es) =
      if not e.wildcard && contains uid e.user_ids then some e else explicit_entry uid es

  unfoldable pub wildcard_entry : List RoleEntry → Option RoleEntry
  wildcard_entry [] = none
  wildcard_entry (e ∷ es) = if e.wildcard then some e else wildcard_entry es

  unfoldable pub default_of : UserRoleManager → Option UserRole
  default_of m = if m.default_role == "" then none else get m.default_role m.role_map

  unfoldable pub resolve_role : String → UserRoleManager → Option UserRole
  resolve_role user_id m = elim (explicit_entry (to_lower user_id) m.roles) [
    | some e ↦ get e.role_name m.role_map
    | none ↦ elim (default_of m) [
      | some role ↦ some role
      | none ↦ elim (wildcard_entry m.roles) [ some e ↦ get e.role_name m.role_map | none ↦ none ]
    ]
  ]

  -- The limiter that the user's role has, with the role's name.
  unfoldable pub limiter_for : String → UserRoleManager → Option (String × RateLimiter)
  limiter_for user_id m = elim (resolve_role user_id m) [
    | none ↦ none
    | some role ↦ elim role.rate_limit_cfg [
      | none ↦ none
      | some cfg ↦ elim (get role.name m.limiters) [ none ↦ none | some rl ↦ some (role.name, rl) ]
    ]
  ]

  -- The two results of the source: `none` is handled=false.
  unfoldable pub allow_rate : String → ℕ → UserRoleManager → UserRoleManager × Option Bool
  allow_rate user_id now m = elim (limiter_for user_id m) [
    | none ↦ (m, none)
    | some (name, rl) ↦
        let (rl', allowed) = allow user_id now rl in
        (record m { limiters = put name rl' m.limiters }, some allowed)
  ]
