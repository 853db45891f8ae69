-- ===== src/Gate.antt =====
-- `checkRateLimit` of core/engine.go, the limiters of the roles before the global one, and
-- its setters. Times are in milliseconds.
pub mod Limits
pub mod Isolated
use cc2wechat.Prelude.{
  ℕ, String, Bool, true, false, not, ◌&&◌, Option, none, some, List, ◌==◌, if◌then◌else◌,
}
use cc2wechat.Commands.{Candidate}
use cc2wechat.RateLimit.{RateLimiter, new_rate_limiter, allow}
use cc2wechat.UserRoles.{RateLimitCfg, UserRoleManager, allow_rate}

-- A nil manager of roles is `none`, as is a nil limiter.
pub record Engine : Type 0 where
  pub user_roles : Option UserRoleManager
  pub rate_limiter : Option RateLimiter

pub record Message : Type 0 where
  pub session_key : String
  pub user_id : String

-- The old limiter is stopped and dropped.
unfoldable pub set_rate_limit_cfg : RateLimitCfg → Engine → Engine
set_rate_limit_cfg cfg e = record e {
  rate_limiter = some (new_rate_limiter cfg.max_messages cfg.window_ms);
}

-- The old manager is stopped and dropped.
unfoldable pub set_user_roles : Option UserRoleManager → Engine → Engine
set_user_roles urm e = record e { user_roles = urm }

unfoldable pub rate_key : Message → String
rate_key msg = if msg.user_id == "" then msg.session_key else msg.user_id

abbrev pub is_some {ℓ} : {A : Type ℓ} → Option A → Bool
is_some none = false
is_some (some a) = true

-- `urm != nil`
abbrev pub has_roles : Engine → Bool
has_roles e = is_some e.user_roles

unfoldable pub global_key : Bool → Message → String
global_key roles msg = if roles && not (msg.user_id == "") then msg.user_id else msg.session_key

-- The last part: the global limiter.
unfoldable pub check_global : Message → ℕ → Engine → Engine × Bool
check_global msg now e = elim e.rate_limiter [
  | none ↦ (e, true)
  | some rl ↦
      let (rl', allowed) = allow (global_key (has_roles e) msg) now rl in
      (record e { rate_limiter = some rl' }, allowed)
]

module _ (to_lower : String → String) (builtin_commands : List Candidate) where
  unfoldable pub check_rate_limit : Message → ℕ → Engine → Engine × Bool
  check_rate_limit msg now e = elim e.user_roles [
    | none ↦ check_global msg now e
    | some urm ↦
        let (urm', handled) = allow_rate to_lower builtin_commands (rate_key msg) now urm in
        elim handled [
          | none ↦ check_global msg now (record e { user_roles = some urm' })
          | some allowed ↦ (record e { user_roles = some urm' }, allowed)
        ]
  ]
