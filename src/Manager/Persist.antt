-- ===== src/Manager/Persist.antt =====
-- Saving and loading, `saveLocked`, `load` and `NewSessionManager` of core/session.go.
use cc2wechat.Prelude.{
  String, Bool, true, false, not, ◌&&◌, ◌||◌, Option, none, some, [], ◌∷◌, leb, ◌==◌, if◌then◌else◌,
}
use cc2wechat.Prelude.GoMap.{GoMap, map_values}
use cc2wechat.Session.{Session, strip_continue_session_sentinel}
use cc2wechat.Manager.State.{Manager, Snapshot, snapshot_version, File, malformed, snapshot, Disk}

-- `s.AgentSessionID == "" && len(s.PastAgentSessionIDs) == 0`
unfoldable pub is_untracked : Session → Bool
is_untracked s =
    s.agent_session_id == "" && elim s.past_agent_session_ids [ [] ↦ true | a ∷ past ↦ false ]

unfoldable pub any_untracked : GoMap Session → Bool
any_untracked [] = false
any_untracked ((k, s) ∷ m) = is_untracked s || any_untracked m

-- The copy of a session that the snapshot holds: `busy` is not persisted.
unfoldable pub persisted : Session → Session
persisted s = record s { busy = false }

unfoldable pub snapshot_of : Manager → Snapshot
snapshot_of m = record {
  sessions = map_values (λ _. persisted) m.sessions;
  active_session = m.active_session;
  user_sessions = m.user_sessions;
  counter = m.counter;
  session_names = m.session_names;
  user_meta = m.user_meta;
  past_id_tracking = true;
  legacy_data = m.legacy_data;
  version = snapshot_version;
}

write : Snapshot → Disk → Disk
write snap disk = if disk.writable then record disk { file = some (snapshot snap) } else disk

-- What saving does to the manager in memory: the continue sentinel is taken out of every session,
-- and the legacy mark is cleared once every session has a tracked id.
unfoldable pub settle : Manager → Manager
settle m =
    let stripped = map_values (λ _. strip_continue_session_sentinel) m.sessions in
    record m { sessions = stripped; legacy_data = m.legacy_data && any_untracked stripped }

unfoldable pub save_locked : Manager → Manager
unfolding write
save_locked m =
    if m.store_path == ""
    then m
    else record (settle m) { disk = write (snapshot_of (settle m)) m.disk }

legacy_of : Snapshot → Bool
legacy_of snap =
    if leb snapshot_version snap.version
    then snap.legacy_data
    else if not snap.past_id_tracking
    then true
    else any_untracked snap.sessions

restore : Snapshot → Manager → Manager
unfolding legacy_of
restore snap m = record m {
  sessions = map_values (λ _. strip_continue_session_sentinel) snap.sessions;
  active_session = snap.active_session;
  user_sessions = snap.user_sessions;
  session_names = snap.session_names;
  user_meta = snap.user_meta;
  counter = snap.counter;
  legacy_data = legacy_of snap;
}

load_file : Option File → Manager → Manager
load_file none m = m
load_file (some malformed) m = m
load_file (some (snapshot snap)) m = restore snap m

unfoldable pub load : Manager → Manager
unfolding load_file restore
load m = load_file m.disk.file m

unfoldable pub new_session_manager : String → Disk → Manager
new_session_manager store_path disk =
    let m : Manager = record {
      sessions = [];
      active_session = [];
      user_sessions = [];
      session_names = [];
      user_meta = [];
      counter = 0;
      store_path = store_path;
      legacy_data = false;
      disk = disk;
    } in
    if store_path == "" then m else load m
