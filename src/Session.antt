-- ===== src/Session.antt =====
-- One conversation: `Session` of core/session.go and its methods. Each method runs under the
-- session's mutex, so it is one function from the old session to the new one; `time.Now()` is an
-- argument `now`, in nanoseconds, and 0 is the zero time.
pub mod Updates
pub mod Tracking
pub mod Clean
pub mod Lock
pub mod History
use cc2wechat.Prelude.{
  ℕ, ◌-◌, zero, suc, String, Bool, true, false, ◌||◌, ◌&&◌, not, List, [], ◌∷◌, ◌++◌, ◌==◌, ltb,
  if◌then◌else◌,
}
use cc2wechat.Prelude.Lists.{length, drop, contains}

pub record HistoryEntry : Type 0 where
  pub role : String
  pub content : String
  pub timestamp : ℕ

pub record Session : Type 0 where
  pub id : String
  pub name : String
  pub agent_session_id : String
  pub agent_type : String
  pub past_agent_session_ids : List String
  pub history : List HistoryEntry
  pub created_at : ℕ
  pub updated_at : ℕ
  pub busy : Bool

abbrev pub continue_session : String
continue_session = "__continue__"

-- `&Session{ID: id, Name: name, CreatedAt: now, UpdatedAt: now}`
unfoldable pub blank : String → String → ℕ → Session
blank id name now = record {
  id = id;
  name = name;
  agent_session_id = "";
  agent_type = "";
  past_agent_session_ids = [];
  history = [];
  created_at = now;
  updated_at = now;
  busy = false;
}

unfoldable pub try_lock : Session → Session × Bool
try_lock s = if s.busy then (s, false) else (record s { busy = true }, true)

unlock_with : Bool → ℕ → Session → Session
unlock_with update now s =
    if update then record s { busy = false; updated_at = now } else record s { busy = false }

unfoldable pub unlock : ℕ → Session → Session
unfolding unlock_with
unlock now s = unlock_with true now s

unfoldable pub unlock_without_update : ℕ → Session → Session
unfolding unlock_with
unlock_without_update now s = unlock_with false now s

unfoldable pub add_history : String → String → ℕ → Session → Session
add_history role content now s = record s {
  history = s.history ++ record { role = role; content = content; timestamp = now } ∷ [];
}

unfoldable pub record_past_agent_session_id : Session → Session
record_past_agent_session_id s =
    if s.agent_session_id == "" || s.agent_session_id == continue_session
    then s
    else if contains s.agent_session_id s.past_agent_session_ids
    then s
    else record s { past_agent_session_ids = s.past_agent_session_ids ++ s.agent_session_id ∷ [] }

-- `if s.AgentSessionID != id { s.recordPastAgentSessionID() }`
record_if_replaced : String → Session → Session
record_if_replaced id s = if s.agent_session_id == id then s else record_past_agent_session_id s

unfoldable pub set_agent_info : String → String → String → Session → Session
unfolding record_if_replaced
set_agent_info agent_session_id agent_type name s =
    let id = if agent_session_id == continue_session then "" else agent_session_id in
    record (record_if_replaced id s) { agent_session_id = id; agent_type = agent_type; name = name }

unfoldable pub set_agent_session_id : String → String → Session → Session
unfolding record_if_replaced
set_agent_session_id id agent_type s =
    if id == continue_session
    then s
    else record (record_if_replaced id s) { agent_session_id = id; agent_type = agent_type }

unfoldable pub compare_and_set_agent_session_id : String → String → Session → Session × Bool
compare_and_set_agent_session_id id agent_type s =
    if id == "" || id == continue_session
    then (s, false)
    else if not (s.agent_session_id == "") && not (s.agent_session_id == continue_session)
    then (s, false)
    else (record s { agent_session_id = id; agent_type = agent_type }, true)

unfoldable pub strip_continue_session_sentinel : Session → Session
strip_continue_session_sentinel s =
    if s.agent_session_id == continue_session then record s { agent_session_id = "" } else s

unfoldable pub clear_history : Session → Session
clear_history s = record s { history = [] }

-- Go's `int` argument `n`, of which only the sign and the size matter.
pub data Count : Type 0 where
  negative : Count
  count : ℕ → Count

last_entries : ℕ → List HistoryEntry → List HistoryEntry
last_entries n h = if ltb (length h) n then h else drop (length h - n) h

unfoldable pub get_history : Count → Session → List HistoryEntry
unfolding last_entries
get_history negative s = s.history
get_history (count zero) s = s.history
get_history (count (suc n)) s = last_entries (suc n) s.history

-- The test of `InvalidateForAgent`, and what it does to one session.
unfoldable pub is_stale : String → Session → Bool
is_stale agent_type s =
    not (s.agent_session_id == "") && not (s.agent_type == "") && not (s.agent_type == agent_type)

unfoldable pub invalidate : String → Session → Session
invalidate agent_type s =
    if is_stale agent_type s
    then record (record_past_agent_session_id s) { agent_session_id = ""; agent_type = agent_type }
    else s
