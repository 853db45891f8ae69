-- ===== src/Tests/Gates.antt =====
-- Runs of `checkRateLimit` of core/engine.go.
use cc2wechat.Prelude.{
  String-cases, inl, inr, ℕ, String, ◌≡◌, ◌≢◌, refl, true, false, none, some, List, [], ◌∷◌, arith,
}
use cc2wechat.Prelude.GoMap.{get, put}
use cc2wechat.Prelude.Lists.{keep}
use cc2wechat.RateLimit.{new_rate_limiter, stamps, allow, admit, in_window}
use cc2wechat.UserRoles.{RoleInput, configure}
use cc2wechat.Gate.{Engine, Message, global_key, check_rate_limit, check_global}
use cc2wechat.Gate.Isolated.{check_all, check_all-others}

abbrev same : String → String
same s = s

abbrev message : String → Message
message id = record { session_key = "wechat:room"; user_id = id }

abbrev no_roles : Engine
no_roles = record { user_roles = none; rate_limiter = some (new_rate_limiter 1 100) }

abbrev roles : List RoleInput
roles =
    record {
      name = "guest";
      user_ids = "*" ∷ [];
      disabled_commands = [];
      rate_limit = some (record { max_messages = 1; window_ms = 100 });
    }
    ∷ []

abbrev engine : Engine
engine = record { user_roles = some (configure same [] "" roles); rate_limiter = none }

abbrev sent : List (Message × ℕ)
sent = (message "bob", 5) ∷ (message "bob", 6) ∷ []

others : global_key true (message "bob") ≢ global_key true (message "ann")
unfolding global_key
others h = elim (String-cases "bob" "ann") [
  | inl (q, e) ↦ absurd (ground (arith, e))
  | inr (n, e) ↦ n h
]

-- Without roles each session has its own window.
second_refused :
    (check_rate_limit same [] (message "ann") 7 (check_all same [] sent no_roles)).1 ≡ false
unfolding check_all check_rate_limit check_global allow new_rate_limiter admit keep stamps get put
    global_key in_window
second_refused = refl

check_all-others_example :
    (check_rate_limit same [] (message "ann") 7 (check_all same [] sent engine)).1
    ≡ (check_rate_limit same [] (message "ann") 7 engine).1
check_all-others_example =
    check_all-others same [] sent (message "ann") 7 engine (others, (others, tt))
