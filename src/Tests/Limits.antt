-- ===== src/Tests/Limits.antt =====
-- Runs of core/ratelimit.go and core/dedup.go.
use cc2wechat.Prelude.{ℕ, ◌+◌, ◌≤◌, String, ◌≡◌, refl, false, List, [], ◌∷◌, arith, leb}
use cc2wechat.RateLimit.{new_rate_limiter, allow}
use cc2wechat.RateLimit.Log.{count_in, grants}
use cc2wechat.RateLimit.Ideal.{Event, asks, ticks, ideal, run}
use cc2wechat.RateLimit.Runs.{allow-run, run-bounded}
use cc2wechat.Prelude.GoMap.{get, delete_if}
use cc2wechat.Dedup.{empty, dedup_ttl, is_duplicate}
use cc2wechat.Dedup.Window.{calls, is_duplicate_window}

abbrev events : List (Event × ℕ)
events = (asks "ann", 10) ∷ (asks "bob", 12) ∷ (ticks, 15) ∷ (asks "ann", 20) ∷ []

allow-run_example :
    let (rl, log) = run events (new_rate_limiter 2 100, []) in
    (allow "ann" 25 rl).1 ≡ ideal 2 100 "ann" 25 log
allow-run_example =
    allow-run 2 100 events "ann" 25 (omega arith)
      (omega arith, (omega arith, (omega arith, (omega arith, tt)))) (omega arith)

run-bounded_example : count_in 100 25 (grants "ann" (run events (new_rate_limiter 2 100, [])).1) ≤ 2
run-bounded_example =
    run-bounded 2 100 events "ann" 25 (omega arith)
      (omega arith, (omega arith, (omega arith, (omega arith, tt)))) (omega arith)

accepted : (is_duplicate "m1" 5 empty).1 ≡ false
unfolding is_duplicate get delete_if
accepted = refl

abbrev messages : List (String × ℕ)
messages = ("m2", 6) ∷ ("m1", 7) ∷ []

is_duplicate_window_example :
    (is_duplicate "m1" 8 (calls messages (is_duplicate "m1" 5 empty).0)).1 ≡ leb 8 (5 + dedup_ttl)
is_duplicate_window_example =
    is_duplicate_window "m1" 5 8 empty messages refl accepted (omega arith, (omega arith, tt))
