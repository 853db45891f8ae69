-- ===== src/RateLimit/Runs.antt =====
-- Any run of the limiter of core/ratelimit.go against the ideal one.
use cc2wechat.Prelude.{ℕ, ◌≤◌, ◌<◌, String, ◌≡◌, refl, List, [], ◌∷◌, arith, eq_iff}
use cc2wechat.Prelude.GoMap.{get}
use cc2wechat.RateLimit.{RateLimiter, new_rate_limiter, stamps, allow, in_window}
use cc2wechat.RateLimit.Log.{count_in, grants}
use cc2wechat.RateLimit.Ideal.{
  Log, Event, asks, ticks, ideal, step, run, Agrees, allow-ideal, allow-Agrees, clean-Agrees,
}

-- The times do not run backwards from `last` on.
abbrev pub Ordered : ℕ → List (Event × ℕ) → Type 0
Ordered last [] = Unit {0}
Ordered last ((e, now) ∷ es) = (last ≤ now) × Ordered now es

abbrev pub end_of : ℕ → List (Event × ℕ) → ℕ
end_of last [] = last
end_of last ((e, now) ∷ es) = end_of now es

step-Agrees :
    (max_messages w last now : ℕ) (e : Event) (rl : RateLimiter) (log : Log)
    → last ≤ now
    → Agrees max_messages w last rl log
    → Agrees max_messages w now (step e now (rl, log)).0 (step e now (rl, log)).1
unfolding step
step-Agrees max_messages w last now (asks key) rl log h a =
    allow-Agrees max_messages w last now rl log h a key
step-Agrees max_messages w last now ticks rl log h a =
    clean-Agrees max_messages w last now rl log h a

run-Agrees :
    (max_messages w last : ℕ) (es : List (Event × ℕ)) (s : RateLimiter × Log)
    → Ordered last es
    → Agrees max_messages w last s.0 s.1
    → Agrees max_messages w (end_of last es) (run es s).0 (run es s).1
unfolding run
run-Agrees max_messages w last [] s o a = a
run-Agrees max_messages w last ((e, now) ∷ es) (rl, log) o a =
    run-Agrees max_messages w now es (step e now (rl, log)) o.1
      (step-Agrees max_messages w last now e rl log o.0 a)

new-Agrees :
    (max_messages w : ℕ)
    → 0 < max_messages
    → Agrees max_messages w 0 (new_rate_limiter max_messages w) []
unfolding new_rate_limiter stamps grants get count_in
new-Agrees max_messages w h = record {
  enabled = h;
  limit = refl;
  window = refl;
  alike = λ k n l. refl;
  used = λ k b e. cc;
  idle = λ k b n e l. cc;
}

-- After any calls and clean-ups at times that do not run backwards, a limiter that started new,
-- with a maximum above 0, answers the next call as the ideal limiter does: true exactly where
-- fewer than the maximum of the calls that it let through for the key are less than a window
-- old.
pub allow-run :
    (max_messages w : ℕ) (es : List (Event × ℕ)) (key : String) (now : ℕ)
    → 0 < max_messages
    → Ordered 0 es
    → end_of 0 es ≤ now
    → let (rl, log) = run es (new_rate_limiter max_messages w, []) in
      (allow key now rl).1 ≡ ideal max_messages w key now log
allow-run max_messages w es key now h o l =
    allow-ideal max_messages w (end_of 0 es) now _ _ l
      (run-Agrees max_messages w 0 es (new_rate_limiter max_messages w, []) o
        (new-Agrees max_messages w h))
      key

-- The log holds at most `max_messages` entries of a key that are less than a window old.
abbrev IsBounded : ℕ → ℕ → ℕ → Log → Type 0
IsBounded max_messages w last log =
    (key : String) (n : ℕ) → last ≤ n → count_in w n (grants key log) ≤ max_messages

count_in_falls :
    (w now later : ℕ) (ts : List ℕ) → now ≤ later → count_in w later ts ≤ count_in w now ts
unfolding count_in in_window
count_in_falls w now later [] h = omega arith
count_in_falls w now later (t ∷ ts) h = ground (arith, count_in_falls w now later ts h)

step-IsBounded :
    (max_messages w last now : ℕ) (e : Event) (rl : RateLimiter) (log : Log)
    → last ≤ now
    → Agrees max_messages w last rl log
    → IsBounded max_messages w last log
    → IsBounded max_messages w now (step e now (rl, log)).1
unfolding step grants count_in ideal
step-IsBounded max_messages w last now (asks key) rl log h a b k n l = ground (
  arith,
  allow-ideal max_messages w last now rl log h a key,
  a.enabled,
  b k n,
  eq_iff key k,
  count_in_falls w now n (grants key log) l,
)
step-IsBounded max_messages w last now ticks rl log h a b k n l = b k n (omega arith)

run-IsBounded :
    (max_messages w last : ℕ) (es : List (Event × ℕ)) (s : RateLimiter × Log)
    → Ordered last es
    → Agrees max_messages w last s.0 s.1
    → IsBounded max_messages w last s.1
    → IsBounded max_messages w (end_of last es) (run es s).1
unfolding run
run-IsBounded max_messages w last [] s o a b = b
run-IsBounded max_messages w last ((e, now) ∷ es) (rl, log) o a b =
    run-IsBounded max_messages w now es (step e now (rl, log)) o.1
      (step-Agrees max_messages w last now e rl log o.0 a)
      (step-IsBounded max_messages w last now e rl log o.0 a b)

-- After any calls and clean-ups at times that do not run backwards, a limiter that started new,
-- with a maximum above 0, has let through at most the maximum of calls of any one key that are
-- less than a window old, seen from the last of those times on.
pub run-bounded :
    (max_messages w : ℕ) (es : List (Event × ℕ)) (key : String) (now : ℕ)
    → 0 < max_messages
    → Ordered 0 es
    → end_of 0 es ≤ now
    → count_in w now (grants key (run es (new_rate_limiter max_messages w, [])).1) ≤ max_messages
unfolding grants count_in
run-bounded max_messages w es key now h o l =
    run-IsBounded max_messages w 0 es (new_rate_limiter max_messages w, []) o
      (new-Agrees max_messages w h) (λ k n q. omega arith) key now l
