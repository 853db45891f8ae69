-- ===== src/Manager/Requests.antt =====
-- The methods of `SessionManager`, core/session.go, that change it, as one type of requests. Each
-- runs under the manager's lock, so any use of the manager is a sequence of them. `updates` stands
-- for a change made through a `*Session`, and `disk_turns` for the disk's failing or recovering.
use cc2wechat.Prelude.{ℕ, String, Bool, List, [], ◌∷◌}
use cc2wechat.Session.Updates.{Update, update}
use cc2wechat.Manager.State.{Manager}
use cc2wechat.Manager.Persist.{save_locked}
use cc2wechat.Manager.Create.{
  new_session, new_side_session, get_or_create_active, switch_session, switch_to_agent_session,
  modify,
}
use cc2wechat.Manager.Delete.{delete_by_id, delete_by_agent_session_id, invalidate_for_agent}
use cc2wechat.Manager.Query.{set_session_name, update_user_meta}

pub data Request : Type 0 where
  creates : String → String → ℕ → Request
  creates_side : String → String → ℕ → Request
  gets_active : String → ℕ → Request
  switches : String → String → Request
  switches_to_agent : String → String → String → String → ℕ → Request
  names : String → String → Request
  describes : String → String → String → Request
  deletes : String → Request
  deletes_agent : String → Request
  invalidates : String → Request
  changes : String → Update → Request
  saves : Request
  disk_turns : Bool → Request

unfoldable pub perform : Request → Manager → Manager
perform (creates user_key name now) m = (new_session user_key name now m).0
perform (creates_side user_key name now) m = (new_side_session user_key name now m).0
perform (gets_active user_key now) m = (get_or_create_active user_key now m).0
perform (switches user_key target) m = (switch_session user_key target m).0
perform (switches_to_agent user_key agent_sid agent_name summary now) m =
    (switch_to_agent_session user_key agent_sid agent_name summary now m).0
perform (names agent_session_id name) m = set_session_name agent_session_id name m
perform (describes session_key user_name chat_name) m =
    update_user_meta session_key user_name chat_name m
perform (deletes id) m = (delete_by_id id m).0
perform (deletes_agent agent_session_id) m = (delete_by_agent_session_id agent_session_id m).0
perform (invalidates agent_type) m = invalidate_for_agent agent_type m
perform (changes sid u) m = modify sid (update u) m
perform saves m = save_locked m
perform (disk_turns writable) m = record m { disk = record m.disk { writable = writable } }

unfoldable pub run : List Request → Manager → Manager
run [] m = m
run (r ∷ rs) m = run rs (perform r m)
