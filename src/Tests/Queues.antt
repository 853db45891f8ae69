-- ===== src/Tests/Queues.antt =====
-- Runs of the queue of core/engine.go.
use cc2wechat.Prelude.{String, ◌≡◌, ◌⊎◌, refl, false, Option, none, some, List, [], ◌∷◌, arith}
use cc2wechat.Prelude.Lists.{length}
use cc2wechat.Prelude.GoMap.{get, put, delete, Unique}
use cc2wechat.Queue.{
  QueuedMessage, InteractiveState, alive, Engine, queue_full, message_queued, placeholder,
  append_in, queue_message_for_busy_session, ensure_interactive_state_for_queueing,
  adopt_pending_from_placeholder, set_max_queued_messages,
}
use cc2wechat.Queue.Cancel.{handle_message_recall}
use cc2wechat.Queue.Recall.{handle_message_recall_lem, NoneCurrent, Removed}
use cc2wechat.Queue.Drain.{Settles, drain_pending_messages-Settles}
use cc2wechat.Queue.Steps.{unlocked, Conversation, state_of, pending_of, Run}
use cc2wechat.Queue.Stranded.{Run-strands}

abbrev message : String → QueuedMessage
message id = record {
  message_id = id;
  platform = "slack";
  reply_ctx = "r";
  text = "hello";
  images = [];
  files = [];
  from_voice = false;
  user_id = "ann";
  user_name = "Ann";
  msg_platform = "slack";
  msg_session_key = "slack:c:ann";
  channel_key = "c";
}

abbrev running : List QueuedMessage → InteractiveState
running ms = record (placeholder "slack" "r") {
  agent_session = alive;
  current_message_id = "m1";
  pending_messages = ms;
}

abbrev engine : Engine
engine = record {
  max_queued_messages = 2;
  interactive_states = ("k", running (message "m2" ∷ [])) ∷ [];
}

-- The second message fits, the third does not.
filled :
    let (e, r) = queue_message_for_busy_session (message "m3") "k" engine in
    let (f, q) = queue_message_for_busy_session (message "m4") "k" e in
    (r ≡ some message_queued) × (q ≡ some (queue_full 2))
unfolding queue_message_for_busy_session append_in get put
filled = (refl, refl)

-- A session that starts has a state at once, and keeps it.
ensured :
    (queue_message_for_busy_session (message "m5") "j" engine).1 ≡ none
    × ((queue_message_for_busy_session
          (message "m5")
          "j"
          (ensure_interactive_state_for_queueing "j" "slack" "r" engine)).1
        ≡ some message_queued)
unfolding queue_message_for_busy_session append_in ensure_interactive_state_for_queueing get put
ensured = (refl, refl)

-- The started session takes over what waits.
adopted :
    let (new, old) = adopt_pending_from_placeholder (running (message "m2" ∷ [])) (running []) in
    (length new.pending_messages ≡ 1) × (old.pending_messages ≡ [])
unfolding adopt_pending_from_placeholder
adopted = (refl, refl)

limits : (set_max_queued_messages 0 engine).max_queued_messages ≡ 2
unfolding set_max_queued_messages
limits = refl

abbrev keep_text : String → String
keep_text s = s

unique : Unique engine.interactive_states
unfolding get
unique = (refl, tt)

handle_message_recall_lem_example :
    let after = (handle_message_recall keep_text "m2" engine).interactive_states in
    ((k : String) × (s : InteractiveState) × (get k engine.interactive_states ≡ some s)
      × (s.current_message_id ≡ "m2")
      × (after ≡ delete k engine.interactive_states))
    ⊎ (NoneCurrent "m2" engine.interactive_states
        × ((o : Option String) × Removed "m2" engine.interactive_states after o))
handle_message_recall_lem_example = handle_message_recall_lem keep_text "m2" engine refl unique

-- A turn that takes nothing more from the queue.
abbrev answer : QueuedMessage → InteractiveState → InteractiveState × List QueuedMessage
answer q s = (s, [])

drain_pending_messages-Settles_example :
    Settles answer 3 (running (message "m2" ∷ message "m3" ∷ []))
drain_pending_messages-Settles_example =
    drain_pending_messages-Settles answer 3 (running (message "m2" ∷ message "m3" ∷ []))
      (λ q s. refl) (omega arith)

Run-strands_example :
    (c : Conversation) × Run 1 c
    × (c.holder ≡ unlocked)
    × (c.busy ≡ [])
    × (c.passed ≡ [])
    × (c.retrying ≡ 0)
    × (c.accepted ≡ message "m2" ∷ [])
    × (pending_of (state_of c.entry c.heap) ≡ message "m2" ∷ [])
Run-strands_example = Run-strands 1 (message "m1") (message "m2") (omega arith)
