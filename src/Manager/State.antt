-- ===== src/Manager/State.antt =====
-- The data of `SessionManager` and `sessionSnapshot`, core/session.go. A `*Session` is the key under
-- which `sessions` holds it. The counter is an int64 that does not come near its bound.
use cc2wechat.Prelude.{ℕ, String, Bool, Option, none, some, List, []}
use cc2wechat.Prelude.GoMap.{GoMap, get}
use cc2wechat.Session.{Session}

pub record UserMeta : Type 0 where
  pub user_name : String
  pub chat_name : String

-- The constant that the source calls `snapshotVersion`.
abbrev pub snapshot_version : ℕ
snapshot_version = 1

pub record Snapshot : Type 0 where
  pub sessions : GoMap Session
  pub active_session : GoMap String
  pub user_sessions : GoMap (List String)
  pub counter : ℕ
  pub session_names : GoMap String
  pub user_meta : GoMap UserMeta
  pub past_id_tracking : Bool
  pub legacy_data : Bool
  pub version : ℕ

-- What `json.Unmarshal` makes of the bytes at the store path.
pub data File : Type 0 where
  malformed : File
  snapshot : Snapshot → File

-- `file` is `none` where `os.ReadFile` fails. While the disk is not writable, `os.MkdirAll` or
-- `AtomicWriteFile` fails, and the file stays as it was.
pub record Disk : Type 0 where
  pub file : Option File
  pub writable : Bool

pub record Manager : Type 0 where
  pub sessions : GoMap Session
  pub active_session : GoMap String
  pub user_sessions : GoMap (List String)
  pub session_names : GoMap String
  pub user_meta : GoMap UserMeta
  pub counter : ℕ
  pub store_path : String
  pub legacy_data : Bool
  pub disk : Disk

abbrev pub or_empty {ℓ} : {A : Type ℓ} → Option (List A) → List A
or_empty none = []
or_empty (some xs) = xs

-- `sm.userSessions[userKey]`, with nil for a missing key.
unfoldable pub ids_of : String → Manager → List String
ids_of user_key m = or_empty (get user_key m.user_sessions)
