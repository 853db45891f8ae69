-- ===== src/RateLimit/Log.antt =====
-- Counting stamps in a window, core/ratelimit.go.
use cc2wechat.Prelude.{
  ℕ, ◌+◌, ◌≤◌, String, ◌≡◌, refl, List, [], ◌∷◌, ◌++◌, arith, ltb, if◌then◌else◌, ◌==◌, suc,
}
use cc2wechat.Prelude.Lists.{length, keep}
use cc2wechat.RateLimit.{in_window, admit}

-- How many stamps lie in the window that ends at `now`.
unfoldable pub count_in : ℕ → ℕ → List ℕ → ℕ
unfolding in_window
count_in w now [] = 0
count_in w now (t ∷ ts) = let n = count_in w now ts in if in_window w now t then suc n else n

pub length-keep : (w now : ℕ) (ts : List ℕ) → length (keep (in_window w now) ts) ≡ count_in w now ts
unfolding keep count_in
length-keep w now [] = refl
length-keep w now (t ∷ ts) = ground (arith, length-keep w now ts)

-- What has left the window stays out of it.
pub count_in-keep :
    (w now later : ℕ) (ts : List ℕ)
    → now ≤ later
    → count_in w later (keep (in_window w now) ts) ≡ count_in w later ts
unfolding keep count_in
count_in-keep w now later [] h = refl
count_in-keep w now later (t ∷ ts) h = ground (arith, count_in-keep w now later ts h)

pub count_in-append :
    (w now : ℕ) (xs ys : List ℕ) → count_in w now (xs ++ ys) ≡ count_in w now xs + count_in w now ys
unfolding count_in
count_in-append w now [] ys = omega arith
count_in-append w now (x ∷ xs) ys = ground (arith, count_in-append w now xs ys)

-- The times at which `key` was let through, in a log with the newest entry first.
unfoldable pub grants : String → List (String × ℕ) → List ℕ
grants key [] = []
grants key ((k, t) ∷ log) = let rest = grants key log in if k == key then t ∷ rest else rest

-- The stamps of a bucket after the call, counted at a later time.
pub count_in-admit :
    (w max_messages now later : ℕ) (filtered : List ℕ)
    → count_in w later (admit max_messages now filtered).0
      ≡ count_in w later filtered
        + (if (admit max_messages now filtered).1 then count_in w later (now ∷ []) else 0)
unfolding admit
count_in-admit w max_messages now later filtered =
    ground (arith, count_in-append w later filtered (now ∷ []))

pub admit-ltb :
    (w max_messages now : ℕ) (ts : List ℕ)
    → (admit max_messages now (keep (in_window w now) ts)).1 ≡ ltb (count_in w now ts) max_messages
unfolding admit
admit-ltb w max_messages now ts = ground (arith, length-keep w now ts)
