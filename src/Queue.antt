-- ===== src/Queue.antt =====
-- Messages that wait for a busy session, in core/engine.go: their queue, its draining, and their recall.
-- What a platform or an agent does is given: whether an agent lives, and what a turn does with the queue.
pub mod Cancel
pub mod Recall
pub mod Drain
pub mod Heap
pub mod Steps
pub mod Fair
pub mod Waiting
pub mod Stranded
use cc2wechat.Prelude.{
  ℕ, suc, String, ◌≡◌, refl, ap, Bool, true, false, not, Option, none, some, List, [], ◌∷◌, ◌++◌,
  leb, ltb, ◌==◌, if◌then◌else◌,
}
use cc2wechat.Prelude.Lists.{length, keep}
use cc2wechat.Prelude.GoMap.{GoMap, get, put, delete}

-- A platform and a reply context are known by a text each, and so are the images and files.
pub record QueuedMessage : Type 0 where
  pub message_id : String
  pub platform : String
  pub reply_ctx : String
  pub text : String
  pub images : List String
  pub files : List String
  pub from_voice : Bool
  pub user_id : String
  pub user_name : String
  pub msg_platform : String
  pub msg_session_key : String
  pub channel_key : String

-- `agentSession`: nil, or a session that is alive or not.
pub data AgentSession : Type 0 where
  absent : AgentSession
  alive : AgentSession
  ended : AgentSession

-- `pending` is the id of the permission request that waits for an answer.
pub record InteractiveState : Type 0 where
  pub agent_session : AgentSession
  pub platform : String
  pub reply_ctx : String
  pub current_message_id : String
  pub stopped : Bool
  pub pending_messages : List QueuedMessage
  pub from_voice : Bool
  pub events_need_resync : Bool
  pub pending : Option String

pub record Engine : Type 0 where
  pub max_queued_messages : ℕ
  pub interactive_states : GoMap InteractiveState

-- A value that is not positive is ignored.
unfoldable pub set_max_queued_messages : ℕ → Engine → Engine
set_max_queued_messages n e = if ltb 0 n then record e { max_queued_messages = n } else e

-- `agentSession != nil && !agentSession.Alive()`
abbrev pub has_died : AgentSession → Bool
has_died absent = false
has_died alive = false
has_died ended = true

-- `agentSession == nil || !agentSession.Alive()`
abbrev pub is_gone : AgentSession → Bool
is_gone absent = true
is_gone alive = false
is_gone ended = true

-- The answer to a message that met a busy session; without one it was not handled.
pub data Reply : Type 0 where
  queue_full : ℕ → Reply
  message_queued : Reply

-- The part of `queueMessageForBusySession` under the mutex of the state.
unfoldable pub append_in : ℕ → QueuedMessage → InteractiveState → InteractiveState × Reply
append_in limit m s =
    if leb limit (length s.pending_messages)
    then (s, queue_full (length s.pending_messages))
    else (record s { pending_messages = s.pending_messages ++ m ∷ [] }, message_queued)

unfoldable pub queue_message_for_busy_session :
    QueuedMessage → String → Engine → Engine × Option Reply
queue_message_for_busy_session m interactive_key e =
    elim (get interactive_key e.interactive_states) [
      | none ↦ (e, none)
      | some s ↦
          let (s', reply) = append_in e.max_queued_messages m s in
          if has_died s.agent_session then (e, none) else (
            record e { interactive_states = put interactive_key s' e.interactive_states },
            some reply,
          )
    ]

abbrev pub placeholder : String → String → InteractiveState
placeholder platform reply_ctx = record {
  agent_session = absent;
  platform = platform;
  reply_ctx = reply_ctx;
  current_message_id = "";
  stopped = false;
  pending_messages = [];
  from_voice = false;
  events_need_resync = true;
  pending = none;
}

unfoldable pub ensure_in : String → String → Option InteractiveState → InteractiveState
ensure_in platform reply_ctx none = placeholder platform reply_ctx
ensure_in platform reply_ctx (some s) = s

unfoldable pub ensure_interactive_state_for_queueing : String → String → String → Engine → Engine
ensure_interactive_state_for_queueing key platform reply_ctx e =
    elim (get key e.interactive_states) [
      | none ↦ record e {
        interactive_states = put key (placeholder platform reply_ctx) e.interactive_states;
      }
      | some s ↦ e
    ]

-- The new state and the emptied old one.
unfoldable pub adopt_pending_from_placeholder :
    InteractiveState → InteractiveState → InteractiveState × InteractiveState
adopt_pending_from_placeholder existing new = elim existing.pending_messages [
  | [] ↦ (new, existing)
  | m ∷ ms ↦ (record new { pending_messages = m ∷ ms }, record existing { pending_messages = [] })
]

-- The state, and the messages whose senders are told that they were dropped.
unfoldable pub notify_dropped_queued_messages :
    InteractiveState → InteractiveState × List QueuedMessage
notify_dropped_queued_messages s = (record s { pending_messages = [] }, s.pending_messages)

-- The state of the turn of a message that was taken from the queue.
abbrev pub turn_state : QueuedMessage → List QueuedMessage → InteractiveState → InteractiveState
turn_state q rest s = record s {
  pending_messages = rest;
  platform = q.platform;
  reply_ctx = q.reply_ctx;
  current_message_id = q.message_id;
  from_voice = q.from_voice;
}

take_from : InteractiveState → List QueuedMessage → Option (QueuedMessage × InteractiveState)
take_from s [] = none
take_from s (q ∷ rest) = some (q, turn_state q rest s)

-- The first message is taken from the queue, in the drain loop and at the end of a turn.
unfoldable pub take_pending : InteractiveState → Option (QueuedMessage × InteractiveState)
unfolding take_from
take_pending s = take_from s s.pending_messages

pub take_pending-nil : (s : InteractiveState) → s.pending_messages ≡ [] → take_pending s ≡ none
unfolding take_pending
take_pending-nil s h = rw h refl

pub take_pending-cons :
    (s : InteractiveState) (q : QueuedMessage) (rest : List QueuedMessage)
    → s.pending_messages ≡ q ∷ rest
    → take_pending s ≡ some (q, turn_state q rest s)
unfolding take_pending
take_pending-cons s q rest h = ap (take_from s) h
