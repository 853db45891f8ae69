-- ===== src/Session/Updates.antt =====
-- The methods of core/session.go that change a session, as one type of updates.
use cc2wechat.Prelude.{ℕ, String, List, [], ◌∷◌}
use cc2wechat.Session.{
  Session, try_lock, unlock, unlock_without_update, add_history, set_agent_info,
  set_agent_session_id, compare_and_set_agent_session_id, strip_continue_session_sentinel,
  clear_history, invalidate,
}

pub data Update : Type 0 where
  locks : Update
  unlocks : ℕ → Update
  unlocks_without_update : ℕ → Update
  adds_history : String → String → ℕ → Update
  sets_info : String → String → String → Update
  sets_id : String → String → Update
  compares_and_sets : String → String → Update
  strips : Update
  clears_history : Update
  invalidates : String → Update

unfoldable pub update : Update → Session → Session
update locks s = (try_lock s).0
update (unlocks now) s = unlock now s
update (unlocks_without_update now) s = unlock_without_update now s
update (adds_history role content now) s = add_history role content now s
update (sets_info id agent_type name) s = set_agent_info id agent_type name s
update (sets_id id agent_type) s = set_agent_session_id id agent_type s
update (compares_and_sets id agent_type) s = (compare_and_set_agent_session_id id agent_type s).0
update strips s = strip_continue_session_sentinel s
update clears_history s = clear_history s
update (invalidates agent_type) s = invalidate agent_type s

unfoldable pub updates : List Update → Session → Session
updates [] s = s
updates (u ∷ us) s = updates us (update u s)
