-- ===== src/Gate/Limits.antt =====
-- The limiters of core/ratelimit.go and the roles' limits of core/user_roles.go, for two keys.
use cc2wechat.Prelude.{
  ℕ, String, ◌≡◌, ◌≢◌, refl, sym, ap, ◌∙◌, Bool, true, Option, none, some, List, inl, inr,
  Bool-cases, Option-cases, String-cases, arith, eq_iff, if◌then◌else◌, leb,
}
use cc2wechat.Prelude.Lists.{keep}
use cc2wechat.Prelude.GoMap.{GoMap, get, put, get-put}
use cc2wechat.Commands.{Candidate}
use cc2wechat.RateLimit.{RateLimiter, RateBucket, stamps, admit, in_window, allow}
use cc2wechat.UserRoles.{
  UserRole, UserRoleManager, resolve_role, default_of, limiter_for, allow_rate,
}

-- Two limiters answer alike for the key.
record Alike (key : String) (rl rl' : RateLimiter) : Type 0 where
  maximum : rl'.max_messages ≡ rl.max_messages
  window : rl'.window_ms ≡ rl.window_ms
  stamped : stamps key rl' ≡ stamps key rl

-- The answer as a function of the stamps.
abbrev answer : ℕ → ℕ → ℕ → List ℕ → Bool
answer max_messages w now ts =
    if leb max_messages 0 then true else (admit max_messages now (keep (in_window w now) ts)).1

allow-answer :
    (key : String) (now : ℕ) (rl : RateLimiter)
    → (allow key now rl).1 ≡ answer rl.max_messages rl.window_ms now (stamps key rl)
unfolding allow
allow-answer key now rl = ground arith

allow_same :
    (key : String) (now : ℕ) (rl rl' : RateLimiter)
    → Alike key rl rl'
    → (allow key now rl').1 ≡ (allow key now rl).1
allow_same key now rl rl' a =
    allow-answer key now rl'
    ∙ rw (a.stamped, a.maximum, a.window) refl
    ∙ sym (allow-answer key now rl)

stamps-put :
    (k j : String) (b : RateBucket) (rl : RateLimiter)
    → k ≢ j
    → stamps j (record rl { buckets = put k b rl.buckets }) ≡ stamps j rl
unfolding stamps
stamps-put k j b rl h = ground (arith, eq_iff k j, get-put k j b rl.buckets)

allow-Alike : (k j : String) (now : ℕ) (rl : RateLimiter) → k ≢ j → Alike j rl (allow k now rl).0
unfolding allow
allow-Alike k j now rl h = elim (Bool-cases (leb rl.max_messages 0)) [
  | inl e ↦ rw (e, allow) (record { maximum = refl; window = refl; stamped = refl })
  | inr e ↦
      rw (e, allow) (record { maximum = refl; window = refl; stamped = stamps-put k j _ rl h })
]

-- A call under one key and the answer under another.
pub allow-isolated :
    (k j : String) (now later : ℕ) (rl : RateLimiter)
    → k ≢ j
    → (allow j later (allow k now rl).0).1 ≡ (allow j later rl).1
allow-isolated k j now later rl h = allow_same j later rl _ (allow-Alike k j now rl h)

-- The answer of a role's limiter, where there is one.
abbrev limiter_answer : String → ℕ → Option (String × RateLimiter) → Option Bool
limiter_answer key now none = none
limiter_answer key now (some (name, rl)) = some (allow key now rl).1

abbrev named : String → Option RateLimiter → Option (String × RateLimiter)
named name none = none
named name (some rl) = some (name, rl)

abbrev by_role : Option UserRole → GoMap RateLimiter → Option (String × RateLimiter)
by_role none limiters = none
by_role (some role) limiters = elim role.rate_limit_cfg [
  | none ↦ none
  | some cfg ↦ named role.name (get role.name limiters)
]

-- A written limiter that answers alike.
named-put :
    (key name n : String) (now : ℕ) (old rl : RateLimiter) (limiters : GoMap RateLimiter)
    → get name limiters ≡ some old
    → Alike key old rl
    → limiter_answer key now (named n (get n (put name rl limiters)))
      ≡ limiter_answer key now (named n (get n limiters))
named-put key name n now old rl limiters h a = elim (String-cases name n) [
  | inl (q, e) ↦
      rw (get-put name n rl limiters, e, sym q, h) (ap some (allow_same key now old rl a))
  | inr (q, e) ↦ rw (get-put name n rl limiters, e) refl
]

by_role-put :
    (key name : String) (now : ℕ) (old rl : RateLimiter) (limiters : GoMap RateLimiter)
    (role : Option UserRole)
    → get name limiters ≡ some old
    → Alike key old rl
    → limiter_answer key now (by_role role (put name rl limiters))
      ≡ limiter_answer key now (by_role role limiters)
by_role-put key name now old rl limiters none h a = refl
by_role-put key name now old rl limiters (some role) h a = elim (Option-cases role.rate_limit_cfg) [
  | inl e ↦ rw e refl
  | inr (cfg, e) ↦ rw e (named-put key name role.name now old rl limiters h a)
]

by_role-get :
    {name : String} {rl : RateLimiter} (role : Option UserRole) (limiters : GoMap RateLimiter)
    → by_role role limiters ≡ some (name, rl)
    → get name limiters ≡ some rl
by_role-get none limiters h = cc
by_role-get (some role) limiters h = ground arith

module _ (to_lower : String → String) (builtins : List Candidate) where
  allow_rate-answer :
      (key : String) (now : ℕ) (m : UserRoleManager)
      → (allow_rate to_lower builtins key now m).1
        ≡ limiter_answer key now (limiter_for to_lower builtins key m)
  unfolding allow_rate
  allow_rate-answer key now m = ground arith

  limiter_for-by_role :
      (key : String) (m : UserRoleManager)
      → limiter_for to_lower builtins key m
        ≡ by_role (resolve_role to_lower builtins key m) m.limiters
  unfolding limiter_for
  limiter_for-by_role key m = ground arith

  limiter_for-put :
      (key name : String) (now : ℕ) (old rl : RateLimiter) (m : UserRoleManager)
      → get name m.limiters ≡ some old
      → Alike key old rl
      → limiter_answer key now
          (limiter_for to_lower builtins key (record m { limiters = put name rl m.limiters }))
        ≡ limiter_answer key now (limiter_for to_lower builtins key m)
  unfolding resolve_role default_of
  limiter_for-put key name now old rl m h a =
      ap (limiter_answer key now)
        (limiter_for-by_role key (record m { limiters = put name rl m.limiters }))
      ∙ by_role-put key name now old rl m.limiters (resolve_role to_lower builtins key m) h a
      ∙ sym (ap (limiter_answer key now) (limiter_for-by_role key m))

  limiter_for-get :
      (key name : String) (rl : RateLimiter) (m : UserRoleManager)
      → limiter_for to_lower builtins key m ≡ some (name, rl)
      → get name m.limiters ≡ some rl
  limiter_for-get key name rl m h =
      by_role-get (resolve_role to_lower builtins key m) m.limiters
        (sym (limiter_for-by_role key m) ∙ h)

  allow_rate-none :
      (key : String) (now : ℕ) (m : UserRoleManager)
      → limiter_for to_lower builtins key m ≡ none
      → (allow_rate to_lower builtins key now m).0 ≡ m
  unfolding allow_rate
  allow_rate-none key now m h = rw (h, allow_rate) refl

  allow_rate-some :
      (key name : String) (rl : RateLimiter) (now : ℕ) (m : UserRoleManager)
      → limiter_for to_lower builtins key m ≡ some (name, rl)
      → (allow_rate to_lower builtins key now m).0
        ≡ record m { limiters = put name (allow key now rl).0 m.limiters }
  unfolding allow_rate
  allow_rate-some key name rl now m h = rw (h, allow_rate) refl

  pub allow_rate-isolated :
      (k j : String) (now later : ℕ) (m : UserRoleManager)
      → k ≢ j
      → (allow_rate to_lower builtins j later (allow_rate to_lower builtins k now m).0).1
        ≡ (allow_rate to_lower builtins j later m).1
  allow_rate-isolated k j now later m h =
      let answers : UserRoleManager → Option Bool =
        λ x. (allow_rate to_lower builtins j later x).1 in
      elim (Option-cases (limiter_for to_lower builtins k m)) [
        | inl e ↦ ap answers (allow_rate-none k now m e)
        | inr ((name, rl), e) ↦
            ap answers (allow_rate-some k name rl now m e)
            ∙ allow_rate-answer j later _
            ∙ limiter_for-put j name later rl (allow k now rl).0 m (limiter_for-get k name rl m e)
                (allow-Alike k j now rl h)
            ∙ sym (allow_rate-answer j later m)
      ]
