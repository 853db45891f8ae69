-- ===== src/Relay.antt =====
-- `RelayManager` of core/relay.go: which projects' bots may write to each other in a chat, and the
-- relay of a message. The engines are known by their projects' names: what `HandleRelay` of an engine
-- answers is the parameter `ask`, `none` for an error, and a message to the group is an output.
pub mod Sending
pub mod Bound
use cc2wechat.Prelude.{
  ℕ, suc, String, Bool, true, false, Option, none, some, List, [], ◌∷◌, leb, ◌==◌, not, ◌++◌,
  if◌then◌else◌,
}
use cc2wechat.Prelude.GoMap.{GoMap, get, put, delete, delete_if, has}
use cc2wechat.Prelude.Disk.{Disk, File, malformed, mistyped, content, write}
use cc2wechat.Prelude.Text.{after_colon, before_colon, append, colon, count_chars, first_chars}

-- In seconds.
abbrev pub relay_timeout : ℕ
relay_timeout = 120

pub record RelayBinding : Type 0 where
  pub platform : String
  pub chat_id : String
  pub bots : GoMap String

-- Of an engine only its name is kept.
pub record RelayManager : Type 0 where
  pub engines : GoMap (Unit {0})
  pub bindings : GoMap RelayBinding
  pub store_path : String
  pub timeout : ℕ
  pub disk : Disk (GoMap RelayBinding)

unfoldable pub save_locked : RelayManager → RelayManager
save_locked rm = if rm.store_path == "" then rm else record rm { disk = write rm.bindings rm.disk }

-- A JSON null leaves the bindings too, as a malformed file does.
load_file : Option (File (GoMap RelayBinding)) → RelayManager → RelayManager
load_file none rm = rm
load_file (some malformed) rm = rm
load_file (some (mistyped a)) rm = rm
load_file (some (content bindings)) rm = record rm { bindings = bindings }

-- The argument is the path in the data directory, or the empty text without one.
unfoldable pub new_relay_manager : String → Disk (GoMap RelayBinding) → RelayManager
unfolding load_file
new_relay_manager store_path disk =
    let rm : RelayManager = record {
      engines = [];
      bindings = [];
      store_path = store_path;
      timeout = relay_timeout;
      disk = disk;
    } in
    if store_path == "" then rm else load_file disk.file rm

unfoldable pub register_engine : String → RelayManager → RelayManager
register_engine name rm = record rm { engines = put name tt rm.engines }

-- A negative duration does what 0 does.
unfoldable pub set_timeout : ℕ → RelayManager → RelayManager
set_timeout d rm = record rm { timeout = d }

unfoldable pub bind : String → String → GoMap String → RelayManager → RelayManager
bind platform chat_id bots rm = save_locked (record rm {
  bindings =
      put chat_id (record { platform = platform; chat_id = chat_id; bots = bots }) rm.bindings;
})

abbrev pub or_new : String → String → Option RelayBinding → RelayBinding
or_new platform chat_id none = record { platform = platform; chat_id = chat_id; bots = [] }
or_new platform chat_id (some b) = b

unfoldable pub add_to_bind : String → String → String → RelayManager → RelayManager
add_to_bind platform chat_id project_name rm =
    let b = or_new platform chat_id (get chat_id rm.bindings) in
    save_locked (record rm {
      bindings = put chat_id (record b { bots = put project_name project_name b.bots }) rm.bindings;
    })

-- A binding without bots is deleted.
unfoldable pub put_or_delete : RelayBinding → String → GoMap String → RelayManager → RelayManager
put_or_delete b chat_id [] rm = record rm { bindings = delete chat_id rm.bindings }
put_or_delete b chat_id (e ∷ bots) rm = record rm {
  bindings = put chat_id (record b { bots = e ∷ bots }) rm.bindings;
}

unfoldable pub remove_from_bind : String → String → RelayManager → RelayManager × Bool
remove_from_bind chat_id project_name rm = elim (get chat_id rm.bindings) [
  | none ↦ (rm, false)
  | some b ↦
      if has project_name b.bots
      then (save_locked (put_or_delete b chat_id (delete project_name b.bots) rm), true)
      else (rm, false)
]

unfoldable pub get_binding : String → RelayManager → Option RelayBinding
get_binding chat_id rm = get chat_id rm.bindings

unfoldable pub unbind : String → RelayManager → RelayManager
unbind chat_id rm = save_locked (record rm { bindings = delete chat_id rm.bindings })

unfoldable pub has_engine : String → RelayManager → Bool
has_engine name rm = has name rm.engines

-- `none` is the nil map.
unfoldable pub list_bound_bots : String → String → RelayManager → Option (GoMap String)
list_bound_bots chat_id self_project rm = elim (get chat_id rm.bindings) [
  | none ↦ none
  | some b ↦ some (delete_if (λ proj _. proj == self_project) b.bots)
]

-- "platform:chatID:userID", or "relay:sourceProject:chatID" for a relay's own session.
unfoldable pub parse_session_key_parts : String → Option (String × String)
parse_session_key_parts session_key = elim (after_colon session_key) [
  | none ↦ none
  | some rest ↦ elim (after_colon rest) [
    | none ↦ some (before_colon session_key, rest)
    | some last ↦
        if before_colon session_key == "relay"
        then some (before_colon session_key, last)
        else some (before_colon session_key, before_colon rest)
  ]
]

unfoldable pub truncate_relay : String → ℕ → String
truncate_relay s max_len =
    if leb (count_chars s) max_len then s else append (first_chars max_len s) "…"

pub record RelayRequest : Type 0 where
  pub from : String
  pub to : String
  pub session_key : String
  pub message : String

pub data SendError : Type 0 where
  invalid_session_key : SendError
  no_binding : SendError
  not_bound : SendError
  no_engine : SendError
  failed : SendError

pub data SendResult : Type 0 where
  response : String → SendResult
  error : SendError → SendResult

-- A message posted to the group: the engine that posts it, the session key and the text.
pub record Post : Type 0 where
  pub engine : String
  pub group_session_key : String
  pub label : String

-- The display name of a bot, where it is not empty.
abbrev pub display : String → Option String → String
display project none = project
display project (some name) = if name == "" then project else name

module _ (ask : String → String → String → String → Option String) where
  -- After the checks: the message to the group, the question, the response to the group.
  unfoldable pub relay :
      String → String → RelayBinding → RelayRequest → RelayManager → SendResult × List Post
  relay platform chat_id b req rm =
      let from_name = display req.from (get req.from b.bots) in
      let to_name = display req.to (get req.to b.bots) in
      let group = colon platform (colon chat_id "relay") in
      let forwarded =
        append "[" (append from_name (append " → " (append to_name (append "] " req.message)))) in
      let asked =
        if has req.from rm.engines
        then record { engine = req.from; group_session_key = group; label = forwarded } ∷ []
        else [] in
      elim (ask req.to req.from chat_id req.message) [
        | none ↦ (error failed, asked)
        | some answer ↦ (
          response answer,
          asked
              ++ record {
                engine = req.to;
                group_session_key = group;
                label = append "[" (append to_name (append "] " (truncate_relay answer 2000)));
              }
                ∷ [],
        )
      ]

  unfoldable pub send : RelayRequest → RelayManager → SendResult × List Post
  send req rm = elim (parse_session_key_parts req.session_key) [
    | none ↦ (error invalid_session_key, [])
    | some (platform, chat_id) ↦ elim (get chat_id rm.bindings) [
      | none ↦ (error no_binding, [])
      | some b ↦
          if not (has req.to b.bots)
          then (error not_bound, [])
          else if not (has req.to rm.engines)
          then (error no_engine, [])
          else relay platform chat_id b req rm
    ]
  ]
