-- ===== src/Queue/Cancel.antt =====
-- The recall of a message in core/engine.go, `handleMessageRecall` with its two searches, and the stop of a
-- session.
use cc2wechat.Prelude.{
  String, Bool, true, false, not, ◌||◌, Option, none, some, List, [], ◌∷◌, ◌==◌, if◌then◌else◌,
}
use cc2wechat.Prelude.Lists.{keep}
use cc2wechat.Prelude.GoMap.{GoMap, get, delete}
use cc2wechat.Queue.{QueuedMessage, InteractiveState, Engine, notify_dropped_queued_messages}

unfoldable pub find_current : String → GoMap InteractiveState → Option String
find_current message_id [] = none
find_current message_id ((k, s) ∷ states) =
    if s.current_message_id == message_id then some k else find_current message_id states

unfoldable pub find_current_message_session : String → Engine → Option String
find_current_message_session message_id e = find_current message_id e.interactive_states

-- Whether the filtering loop removes a message.
unfoldable pub is_queued : String → List QueuedMessage → Bool
is_queued message_id [] = false
is_queued message_id (q ∷ pending) = q.message_id == message_id || is_queued message_id pending

unfoldable pub without : String → List QueuedMessage → List QueuedMessage
without message_id pending = keep (λ (q : QueuedMessage). not (q.message_id == message_id)) pending

unfoldable pub remove_queued :
    String → GoMap InteractiveState → GoMap InteractiveState × Option String
remove_queued message_id [] = ([], none)
remove_queued message_id ((k, s) ∷ states) =
    let rest = remove_queued message_id states in
    if is_queued message_id s.pending_messages
    then (
      (k, record s { pending_messages = without message_id s.pending_messages }) ∷ states,
      some k,
    )
    else ((k, s) ∷ rest.0, rest.1)

unfoldable pub remove_queued_message_by_id : String → Engine → Engine × Option String
remove_queued_message_by_id message_id e =
    let (states, found) = remove_queued message_id e.interactive_states in
    (record e { interactive_states = states }, found)

-- What a stop leaves of the state, which the map no longer has but goroutines may hold; the request that is
-- resolved; and the messages whose senders are told.
pub record Stopped : Type 0 where
  pub state : InteractiveState
  pub resolved : Option String
  pub told : List QueuedMessage

abbrev pub stop_state : Bool → InteractiveState → Stopped
stop_state notify_queued s = record {
  state = record s { pending = none; stopped = true; pending_messages = [] };
  resolved = s.pending;
  told = if notify_queued then (notify_dropped_queued_messages s).1 else [];
}

-- `none` is that there was no session to stop.
unfoldable pub stop_interactive_session_with_options :
    String → Bool → Engine → Engine × Option Stopped
stop_interactive_session_with_options session_key notify_queued e =
    elim (get session_key e.interactive_states) [
      | none ↦ (e, none)
      | some s ↦ (
        record e { interactive_states = delete session_key e.interactive_states },
        some (stop_state notify_queued s),
      )
    ]

unfoldable pub stop_interactive_session_silently : String → Engine → Engine × Option Stopped
stop_interactive_session_silently session_key e =
    stop_interactive_session_with_options session_key false e

unfoldable pub remove_or_ignore : String → Engine → Engine
remove_or_ignore message_id e = (remove_queued_message_by_id message_id e).0

-- The argument is trimmed.
unfoldable pub handle_message_recall : (String → String) → String → Engine → Engine
unfolding remove_or_ignore
handle_message_recall trim_space id e =
    let message_id = trim_space id in
    if message_id == "" then e else elim (find_current_message_session message_id e) [
      | none ↦ remove_or_ignore message_id e
      | some session_key ↦
          let (e', stopped) = stop_interactive_session_silently session_key e in
          elim stopped [ none ↦ remove_or_ignore message_id e | some s ↦ e' ]
    ]
