-- ===== src/RateLimit/Ideal.antt =====
-- The limiter of core/ratelimit.go against the ideal one, which keeps a log of all that it let
-- through and counts those of the key in the window.
use cc2wechat.Prelude.{
  ℕ, ◌+◌, ◌*◌, ◌-◌, ◌≤◌, ◌<◌, String, ◌≡◌, refl, ap, Bool, false, ◌||◌, Option, none, some, List,
  [], ◌∷◌, arith, ltb, leb, if◌then◌else◌, ◌==◌, eq_iff, inl, inr, Option-cases,
}
use cc2wechat.Prelude.Lists.{keep}
use cc2wechat.Prelude.GoMap.{get, put, get-put, get-delete_if, keep_unless}
use cc2wechat.RateLimit.{RateBucket, RateLimiter, in_window, stamps, admit, allow, clean}
use cc2wechat.RateLimit.Log.{count_in, count_in-keep, count_in-admit, admit-ltb, grants}

abbrev pub Log : Type 0
Log = List (String × ℕ)

-- A call of `Allow`, or a tick of the clean-up goroutine.
pub data Event : Type 0 where
  asks : String → Event
  ticks : Event

-- The ideal limiter's answer.
unfoldable pub ideal : ℕ → ℕ → String → ℕ → Log → Bool
ideal max_messages w key now log =
    leb max_messages 0 || ltb (count_in w now (grants key log)) max_messages

-- Both run side by side: the limiter decides, and what it lets through is logged.
unfoldable pub step : Event → ℕ → RateLimiter × Log → RateLimiter × Log
step (asks key) now (rl, log) =
    let (rl', allowed) = allow key now rl in (rl', if allowed then (key, now) ∷ log else log)
step ticks now (rl, log) = (clean now rl, log)

unfoldable pub run : List (Event × ℕ) → RateLimiter × Log → RateLimiter × Log
run [] s = s
run ((e, now) ∷ rest) s = run rest (step e now s)

-- From time `last` on, the stamps of each bucket and the log count alike, and a bucket that was last
-- used a window ago counts nothing.
pub record Agrees (max_messages w last : ℕ) (rl : RateLimiter) (log : Log) : Type 0 where
  pub enabled : 0 < max_messages
  pub limit : rl.max_messages ≡ max_messages
  pub window : rl.window_ms ≡ w
  pub alike :
      (key : String) (now : ℕ)
      → last ≤ now
      → count_in w now (stamps key rl) ≡ count_in w now (grants key log)
  pub used : (key : String) (b : RateBucket) → get key rl.buckets ≡ some b → b.last_access ≤ last
  pub idle :
      (key : String) (b : RateBucket) (now : ℕ)
      → get key rl.buckets ≡ some b
      → b.last_access + w ≤ now
      → count_in w now b.timestamps ≡ 0

module _ (max_messages w last now : ℕ) (rl : RateLimiter) (log : Log) (h : last ≤ now)
    (a : Agrees max_messages w last rl log) where
  -- The answer is the ideal one.
  pub allow-ideal : (key : String) → (allow key now rl).1 ≡ ideal max_messages w key now log
  unfolding allow ideal
  allow-ideal key = ground (
    arith,
    a.alike key now h,
    admit-ltb rl.window_ms rl.max_messages now (stamps key rl),
    a.limit,
    a.window,
  )

  abbrev kept : String → List ℕ × Bool
  kept key = admit rl.max_messages now (keep (in_window rl.window_ms now) (stamps key rl))

  allow_enabled :
      (key : String)
      → allow key now rl ≡ (
        record rl {
          buckets = put key (record { timestamps = (kept key).0; last_access = now }) rl.buckets;
        },
        (kept key).1,
      )
  unfolding allow
  allow_enabled key =
      let on : leb rl.max_messages 0 ≡ false = ground (arith, a.enabled, a.limit) in rw (on, allow)

  stamps-allow :
      (key k : String)
      → stamps k (allow key now rl).0 ≡ (if key == k then (kept key).0 else stamps k rl)
  unfolding stamps
  stamps-allow key k = rw allow_enabled (
      ground
        (arith, get-put key k (record { timestamps = (kept key).0; last_access = now }) rl.buckets))

  -- The logged answer adds to the key's own count what it adds to the key's stamps.
  allow-alike :
      (key k : String) (later : ℕ)
      → now ≤ later
      → count_in w later (stamps k (allow key now rl).0)
        ≡ count_in w later (grants k (if (allow key now rl).1 then (key, now) ∷ log else log))
  unfolding grants count_in
  allow-alike key k later l = ground (
    arith,
    stamps-allow key k,
    ap (λ (r : RateLimiter × Bool). r.1) (allow_enabled key),
    eq_iff key k,
    a.alike k later,
    a.window,
    count_in-keep rl.window_ms now later (stamps key rl) l,
    count_in-admit rl.window_ms rl.max_messages now later
        (keep (in_window rl.window_ms now) (stamps key rl)),
  )

  count_in-idle : (key : String) (n : ℕ) → last + w ≤ n → count_in w n (stamps key rl) ≡ 0
  unfolding stamps count_in
  count_in-idle key n l = elim (Option-cases (get key rl.buckets)) [
    | inl e ↦ ground arith
    | inr (b, e) ↦ ground (arith, a.idle key b n, a.used key b)
  ]

  kept-idle : (key : String) (n : ℕ) → now + w ≤ n → count_in w n (kept key).0 ≡ 0
  unfolding count_in
  kept-idle key n l = ground (
    arith,
    a.window,
    count_in-idle key n (omega arith),
    count_in-keep rl.window_ms now n (stamps key rl) (omega arith),
    count_in-admit rl.window_ms rl.max_messages now n
        (keep (in_window rl.window_ms now) (stamps key rl)),
  )

  get-allow :
      (key k : String)
      → get k (allow key now rl).0.buckets ≡ (
          if key == k
          then some (record { timestamps = (kept key).0; last_access = now })
          else get k rl.buckets)
  get-allow key k =
      rw allow_enabled
        (get-put key k (record { timestamps = (kept key).0; last_access = now }) rl.buckets)

  pub allow-Agrees :
      (key : String)
      → Agrees max_messages w now
          (allow key now rl).0
          (if (allow key now rl).1 then (key, now) ∷ log else log)
  allow-Agrees key = record {
    enabled = a.enabled;
    limit = rw allow_enabled a.limit;
    window = rw allow_enabled a.window;
    alike = λ k later l. allow-alike key k later l;
    used = λ k b e. ground (arith, get-allow key k, a.used k b);
    idle = λ k b n e l. ground (arith, get-allow key k, kept-idle key n, a.idle k b n);
  }

  get-clean :
      (k : String)
      → get k (clean now rl).buckets
        ≡ keep_unless (λ _ b. ltb (rl.window_ms * 2) (now - b.last_access)) k (get k rl.buckets)
  unfolding clean
  get-clean k = get-delete_if _ k rl.buckets

  clean-alike :
      (k : String) (later : ℕ)
      → now ≤ later
      → count_in w later (stamps k (clean now rl)) ≡ count_in w later (grants k log)
  unfolding stamps count_in
  clean-alike k later l = elim (Option-cases (get k rl.buckets)) [
    | inl e ↦ ground (arith, get-clean k, a.alike k later)
    | inr (b, e) ↦ ground (arith, get-clean k, a.alike k later, a.idle k b later, a.window)
  ]

  pub clean-Agrees : Agrees max_messages w now (clean now rl) log
  clean-Agrees = record {
    enabled = a.enabled;
    limit = unfold clean in a.limit;
    window = unfold clean in a.window;
    alike = clean-alike;
    used = λ k b e. clean_used k b (get k rl.buckets) refl e;
    idle = λ k b n e l. clean_idle k b n (get k rl.buckets) refl e l;
  }
    where
      clean_used :
          (k : String) (b : RateBucket) (o : Option RateBucket)
          → get k rl.buckets ≡ o
          → get k (clean now rl).buckets ≡ some b
          → b.last_access ≤ now
      clean_used k b none e g = ground (arith, get-clean k)
      clean_used k b (some b') e g = ground (arith, get-clean k, a.used k b')

      clean_idle :
          (k : String) (b : RateBucket) (n : ℕ) (o : Option RateBucket)
          → get k rl.buckets ≡ o
          → get k (clean now rl).buckets ≡ some b
          → b.last_access + w ≤ n
          → count_in w n b.timestamps ≡ 0
      clean_idle k b n none e g l = ground (arith, get-clean k)
      clean_idle k b n (some b') e g l = ground (arith, get-clean k, a.idle k b' n)
