-- ===== src/RateLimit.antt =====
-- `RateLimiter` of core/ratelimit.go: a sliding window for each key. Times are in milliseconds. A
-- negative maximum does what 0 does, so the maximum is a number. The clean-up goroutine runs
-- `clean` every five minutes; as it takes the limiter's mutex, it is one more step.
pub mod Log
pub mod Ideal
pub mod Runs
use cc2wechat.Prelude.{
  ℕ, ◌+◌, ◌-◌, ◌*◌, String, Bool, true, false, not, Option, none, some, List, [], ◌∷◌, ◌++◌, ltb,
  leb, if◌then◌else◌, zero, suc,
}
use cc2wechat.Prelude.Lists.{length, keep}
use cc2wechat.Prelude.GoMap.{GoMap, get, put, delete_if}

pub record RateBucket : Type 0 where
  pub timestamps : List ℕ
  pub last_access : ℕ

pub record RateLimiter : Type 0 where
  pub buckets : GoMap RateBucket
  pub max_messages : ℕ
  pub window_ms : ℕ
  pub stopped : Bool

unfoldable pub new_rate_limiter : ℕ → ℕ → RateLimiter
new_rate_limiter max_messages window_ms = record {
  buckets = [];
  max_messages = max_messages;
  window_ms = window_ms;
  stopped = false;
}

unfoldable pub stop : RateLimiter → RateLimiter
stop rl = record rl { stopped = true }

-- `ts > now - windowMs`, where the difference may be negative.
unfoldable pub in_window : ℕ → ℕ → ℕ → Bool
in_window window_ms now ts = ltb now (ts + window_ms)

-- `rl.buckets[key]`, or a fresh bucket.
abbrev pub or_fresh : Option RateBucket → List ℕ
or_fresh none = []
or_fresh (some b) = b.timestamps

unfoldable pub stamps : String → RateLimiter → List ℕ
stamps key rl = or_fresh (get key rl.buckets)

-- The end of `Allow`: the stamps that the bucket keeps, and the answer.
unfoldable pub admit : ℕ → ℕ → List ℕ → List ℕ × Bool
admit max_messages now filtered =
    if leb max_messages (length filtered) then (filtered, false) else (filtered ++ now ∷ [], true)

unfoldable pub allow : String → ℕ → RateLimiter → RateLimiter × Bool
allow key now rl =
    let (timestamps, allowed) =
      admit rl.max_messages now (keep (in_window rl.window_ms now) (stamps key rl)) in
    if leb rl.max_messages 0 then (rl, true) else (
      record rl {
        buckets = put key (record { timestamps = timestamps; last_access = now }) rl.buckets;
      },
      allowed,
    )

-- One tick of `cleanupLoop`.
unfoldable pub clean : ℕ → RateLimiter → RateLimiter
clean now rl = record rl {
  buckets = delete_if (λ _ b. ltb (rl.window_ms * 2) (now - b.last_access)) rl.buckets;
}
