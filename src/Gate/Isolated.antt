-- ===== src/Gate/Isolated.antt =====
-- The limits of core/engine.go for messages under different keys.
use mathlib.Core.Path.{subst}
use cc2wechat.Prelude.{
  ℕ, String, ◌≡◌, ◌≢◌, ◌⊎◌, refl, sym, ap, ◌∙◌, Bool, true, Option, none, some, List, [], ◌∷◌, inl,
  inr, Option-cases, arith,
}
use cc2wechat.Commands.{Candidate}
use cc2wechat.RateLimit.{RateLimiter, allow}
use cc2wechat.UserRoles.{UserRoleManager, allow_rate}
use cc2wechat.Gate.{
  Engine, Message, rate_key, global_key, is_some, has_roles, check_global, check_rate_limit,
}
use cc2wechat.Gate.Limits.{allow-isolated, allow_rate-isolated}

-- The global limiter's answer, and the limiter after it.
abbrev global_answer : String → ℕ → Option RateLimiter → Bool
global_answer key now none = true
global_answer key now (some rl) = (allow key now rl).1

abbrev global_after : String → ℕ → Option RateLimiter → Option RateLimiter
global_after key now none = none
global_after key now (some rl) = some (allow key now rl).0

abbrev verdict : Option Bool → Bool → Bool
verdict none b = b
verdict (some allowed) b = allowed

global-roles :
    (msg : Message) (now : ℕ) (e : Engine) → (check_global msg now e).0.user_roles ≡ e.user_roles
unfolding check_global
global-roles msg now e = ground arith

global-limiter :
    (msg : Message) (now : ℕ) (e : Engine)
    → (check_global msg now e).0.rate_limiter
      ≡ global_after (global_key (has_roles e) msg) now e.rate_limiter
unfolding check_global
global-limiter msg now e = ground arith

global-isolated :
    (k j : String) (now later : ℕ) (limiter : Option RateLimiter)
    → k ≢ j
    → global_answer j later (global_after k now limiter) ≡ global_answer j later limiter
global-isolated k j now later none h = refl
global-isolated k j now later (some rl) h = allow-isolated k j now later rl h

global_key-roles : (msg : Message) → global_key true msg ≡ rate_key msg
unfolding global_key rate_key
global_key-roles msg = ground arith

module _ (to_lower : String → String) (builtins : List Candidate) where
  -- The answer of the roles, and the manager after it.
  abbrev roles_answer : Message → ℕ → Option UserRoleManager → Option Bool
  roles_answer msg now none = none
  roles_answer msg now (some urm) = (allow_rate to_lower builtins (rate_key msg) now urm).1

  abbrev roles_after : Message → ℕ → Option UserRoleManager → Option UserRoleManager
  roles_after msg now none = none
  roles_after msg now (some urm) = some (allow_rate to_lower builtins (rate_key msg) now urm).0

  check-answer :
      (msg : Message) (now : ℕ) (e : Engine)
      → (check_rate_limit to_lower builtins msg now e).1
        ≡ verdict
            (roles_answer msg now e.user_roles)
            (global_answer (global_key (has_roles e) msg) now e.rate_limiter)
  unfolding check_rate_limit check_global
  check-answer msg now e = elim (Option-cases e.user_roles) [
    | inl h ↦ rw (h, check_rate_limit) ground arith
    | inr (urm, h) ↦ rw (h, check_rate_limit) ground arith
  ]

  check-roles :
      (msg : Message) (now : ℕ) (e : Engine)
      → (check_rate_limit to_lower builtins msg now e).0.user_roles
        ≡ roles_after msg now e.user_roles
  unfolding check_rate_limit check_global
  check-roles msg now e = elim (Option-cases e.user_roles) [
    | inl h ↦ rw (h, check_rate_limit) (global-roles msg now e ∙ h)
    | inr (urm, h) ↦ elim (Option-cases (allow_rate to_lower builtins (rate_key msg) now urm).1) [
      | inl n ↦ rw (h, check_rate_limit) (rw (n, check_rate_limit) (global-roles msg now _))
      | inr (b, n) ↦ rw (h, check_rate_limit) (rw (n, check_rate_limit) refl)
    ]
  ]

  check-limiter :
      (msg : Message) (now : ℕ) (e : Engine)
      → let after = (check_rate_limit to_lower builtins msg now e).0.rate_limiter in
        (after ≡ e.rate_limiter)
        ⊎ (after ≡ global_after (global_key (has_roles e) msg) now e.rate_limiter)
  unfolding check_rate_limit
  check-limiter msg now e = elim (Option-cases e.user_roles) [
    | inl h ↦ rw (h, check_rate_limit) (inr (global-limiter msg now e ∙ rw h refl))
    | inr (urm, h) ↦ elim (Option-cases (allow_rate to_lower builtins (rate_key msg) now urm).1) [
      | inl n ↦ rw (h, check_rate_limit) (rw (n, check_rate_limit) (inr (global-limiter msg now _)))
      | inr (b, n) ↦ rw (h, check_rate_limit) (rw (n, check_rate_limit) (inl refl))
    ]
  ]

  roles-isolated :
      (a b : Message) (now later : ℕ) (roles : Option UserRoleManager)
      → global_key (is_some roles) a ≢ global_key (is_some roles) b
      → roles_answer b later (roles_after a now roles) ≡ roles_answer b later roles
  roles-isolated a b now later none h = refl
  roles-isolated a b now later (some urm) h =
      allow_rate-isolated to_lower builtins (rate_key a) (rate_key b) now later urm
        (λ q. h (global_key-roles a ∙ q ∙ sym (global_key-roles b)))

  has_roles-check :
      (msg : Message) (now : ℕ) (e : Engine)
      → has_roles (check_rate_limit to_lower builtins msg now e).0 ≡ has_roles e
  has_roles-check msg now e = ap is_some (check-roles msg now e) ∙ has_roles-after e.user_roles
    where
      has_roles-after :
          (roles : Option UserRoleManager) → is_some (roles_after msg now roles) ≡ is_some roles
      has_roles-after none = refl
      has_roles-after (some urm) = refl

  limiter-isolated :
      (a b : Message) (now later : ℕ) (e : Engine)
      → global_key (has_roles e) a ≢ global_key (has_roles e) b
      → global_answer
          (global_key (has_roles e) b)
          later
          (check_rate_limit to_lower builtins a now e).0.rate_limiter
        ≡ global_answer (global_key (has_roles e) b) later e.rate_limiter
  limiter-isolated a b now later e h = elim (check-limiter a now e) [
    | inl q ↦ ap (global_answer (global_key (has_roles e) b) later) q
    | inr q ↦
        ap (global_answer (global_key (has_roles e) b) later) q
        ∙ global-isolated _ _ now later e.rate_limiter h
  ]

  check-isolated :
      (a b : Message) (now later : ℕ) (e : Engine)
      → global_key (has_roles e) a ≢ global_key (has_roles e) b
      → (check_rate_limit to_lower builtins b later
          (check_rate_limit to_lower builtins a now e).0).1
        ≡ (check_rate_limit to_lower builtins b later e).1
  check-isolated a b now later e h =
      check-answer b later _
      ∙ rw
          (
            has_roles-check a now e,
            check-roles a now e,
            roles-isolated a b now later e.user_roles h,
          )
          (ap (verdict (roles_answer b later e.user_roles)) (limiter-isolated a b now later e h))
      ∙ sym (check-answer b later e)

  -- The messages of a session of the program, each with its time.
  unfoldable pub check_all : List (Message × ℕ) → Engine → Engine
  check_all [] e = e
  check_all ((msg, now) ∷ msgs) e = check_all msgs (check_rate_limit to_lower builtins msg now e).0

  -- No message of the list stands under the key.
  abbrev pub AreOthers : Bool → String → List (Message × ℕ) → Type 0
  AreOthers roles key [] = Unit {0}
  AreOthers roles key ((msg, now) ∷ msgs) = (global_key roles msg ≢ key) × AreOthers roles key msgs

  -- Where messages come in, none of them under the limit key of one more message (the user's id
  -- where roles are configured and the id is known, else the session's key), that message is let
  -- through after them exactly where it is let through without them, by the limit of the user's
  -- role or by the global one.
  pub check_all-others :
      (msgs : List (Message × ℕ)) (msg : Message) (now : ℕ) (e : Engine)
      → AreOthers (has_roles e) (global_key (has_roles e) msg) msgs
      → (check_rate_limit to_lower builtins msg now (check_all msgs e)).1
        ≡ (check_rate_limit to_lower builtins msg now e).1
  unfolding check_all
  check_all-others [] msg now e h = refl
  check_all-others ((a, t) ∷ msgs) msg now e h =
      check_all-others msgs msg now _ (
        subst (λ (r : Bool). AreOthers r (global_key r msg) msgs) (sym (has_roles-check a t e)) h.1)
      ∙ check-isolated a msg t now e h.0
