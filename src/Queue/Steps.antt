-- ===== src/Queue/Steps.antt =====
-- The goroutines of core/engine.go at one session: the handlers of messages, the one that holds the session's
-- lock, and those that stop or clean up the session. A step is a section under a mutex, and the steps of all
-- goroutines interleave. The reader of unsolicited events is left out, and the commands that make another
-- session active under the same key.
use cc2wechat.Prelude.{ℕ, suc, ◌≡◌, ◌≢◌, Bool, true, false, Option, none, some, List, [], ◌∷◌, ◌++◌}
use cc2wechat.Prelude.Lists.{length}
use cc2wechat.Queue.{
  QueuedMessage, InteractiveState, AgentSession, absent, alive, Reply, is_gone, has_died, append_in,
  ensure_in, take_pending, notify_dropped_queued_messages, adopt_pending_from_placeholder,
}
use cc2wechat.Queue.Heap.{Heap, at, set}

-- Where the goroutine stands that holds the session's lock: before `ensureInteractiveStateForQueueing`, before
-- `getOrCreateInteractiveStateWith`, in a turn with a state, at the head of the drain loop of a state, at the
-- start of `drainOrphanedQueue`, before the deferred unlock.
pub data Holder : Type 0 where
  unlocked : Holder
  entering : QueuedMessage → Holder
  starting : Holder
  in_turn : ℕ → Holder
  draining : ℕ → Holder
  orphaned : Holder
  leaving : Holder

-- `entry` is what the map of the engine has for the session. `busy` are the messages whose handler found the
-- session locked, `passed` those whose handler also took a state from the map, with that state, `retrying` is the
-- number of handlers that have an answer from the queue and try the lock once more. `accepted` and `settled`
-- record which messages were told to be queued and which left a queue, `abandoned` whether a deferred
-- unlock took place.
pub record Conversation : Type 0 where
  pub holder : Holder
  pub entry : Option ℕ
  pub heap : Heap
  pub busy : List QueuedMessage
  pub passed : List (QueuedMessage × ℕ)
  pub retrying : ℕ
  pub accepted : List QueuedMessage
  pub settled : List QueuedMessage
  pub abandoned : Bool

abbrev pub empty_conversation : Conversation
empty_conversation = record {
  holder = unlocked;
  entry = none;
  heap = [];
  busy = [];
  passed = [];
  retrying = 0;
  accepted = [];
  settled = [];
  abandoned = false;
}

-- The state that the map has.
abbrev pub state_of : Option ℕ → Heap → Option InteractiveState
state_of none h = none
state_of (some r) h = at r h

abbrev pub pending_of : Option InteractiveState → List QueuedMessage
pending_of none = []
pending_of (some s) = s.pending_messages

-- A handler at the queue of the state that it took, which may be replaced by now.
abbrev pub answered : QueuedMessage → ℕ → Conversation → InteractiveState × Reply → Conversation
answered m r c (s, Reply.queue_full n) = record c { retrying = suc c.retrying }
answered m r c (s, Reply.message_queued) = record c {
  heap = set r s c.heap;
  retrying = suc c.retrying;
  accepted = c.accepted ++ m ∷ [];
}

-- `!hasState`, or a session that was established and died.
abbrev pub is_rejected : Option InteractiveState → Bool
is_rejected none = true
is_rejected (some s) = has_died s.agent_session

-- The second try of the lock.
abbrev pub retried : Holder → Holder
retried unlocked = orphaned
retried (entering m) = entering m
retried starting = starting
retried (in_turn r) = in_turn r
retried (draining r) = draining r
retried orphaned = orphaned
retried leaving = leaving

-- A message has left the queue of the state at `r`, for its turn.
abbrev pub taken : Conversation → ℕ → QueuedMessage → InteractiveState → Conversation
taken c r q t = record c { heap = set r t c.heap; settled = c.settled ++ q ∷ [] }

-- All messages leave the queue at `r`: their senders are told, or the session is stopped without a note.
abbrev pub dropped : Conversation → ℕ → InteractiveState → Conversation
dropped c r s =
    let (s', told) = notify_dropped_queued_messages s in
    record c { heap = set r s' c.heap; settled = c.settled ++ told }

-- A new state replaces the one at `r`, whose messages it adopts.
abbrev pub replaced : Conversation → ℕ → InteractiveState → InteractiveState → Conversation
replaced c r s t =
    let (new, old) = adopt_pending_from_placeholder s t in
    record c { entry = some (length c.heap); heap = set r old c.heap ++ new ∷ [] }

-- A new state, where the map has none.
abbrev pub entered : Conversation → InteractiveState → Conversation
entered c t = record c { entry = some (length c.heap); heap = c.heap ++ t ∷ [] }

pub data Step (limit : ℕ) : Conversation → Conversation → Type 0 where
  locks :
      (c : Conversation) (m : QueuedMessage)
      → c.holder ≡ unlocked
      → Step limit c (record c { holder = entering m })
  finds_busy :
      (c : Conversation) (m : QueuedMessage)
      → c.holder ≢ unlocked
      → Step limit c (record c { busy = m ∷ c.busy })
  is_refused :
      (c : Conversation) (before after : List QueuedMessage) (m : QueuedMessage)
      → c.busy ≡ before ++ m ∷ after
      → is_rejected (state_of c.entry c.heap) ≡ true
      → Step limit c (record c { busy = before ++ after })
  passes :
      (c : Conversation) (before after : List QueuedMessage) (m : QueuedMessage) (r : ℕ)
      → c.busy ≡ before ++ m ∷ after
      → c.entry ≡ some r
      → is_rejected (at r c.heap) ≡ false
      → Step limit c (record c { busy = before ++ after; passed = (m, r) ∷ c.passed })
  queues :
      (c : Conversation) (s : InteractiveState) (before after : List (QueuedMessage × ℕ))
      (m : QueuedMessage) (r : ℕ)
      → c.passed ≡ before ++ (m, r) ∷ after
      → at r c.heap ≡ some s
      → Step limit c (answered m r (record c { passed = before ++ after }) (append_in limit m s))
  retries :
      (c : Conversation) (n : ℕ)
      → c.retrying ≡ suc n
      → Step limit c (record c { retrying = n; holder = retried c.holder })
  ensures :
      (c : Conversation) (m : QueuedMessage)
      → c.holder ≡ entering m
      → c.entry ≡ none
      → Step limit c
          (entered (record c { holder = starting }) (ensure_in m.platform m.reply_ctx none))
  has_state :
      (c : Conversation) (m : QueuedMessage) (r : ℕ)
      → c.holder ≡ entering m
      → c.entry ≡ some r
      → Step limit c (record c { holder = starting })
  reuses :
      (c : Conversation) (r : ℕ) (s : InteractiveState)
      → c.holder ≡ starting
      → c.entry ≡ some r
      → at r c.heap ≡ some s
      → s.agent_session ≡ alive
      → Step limit c (record c { holder = in_turn r })
  starts :
      (c : Conversation) (r : ℕ) (s t : InteractiveState)
      → c.holder ≡ starting
      → c.entry ≡ some r
      → at r c.heap ≡ some s
      → t.pending_messages ≡ []
      → t.agent_session ≡ alive
      → Step limit c (replaced (record c { holder = in_turn (length c.heap) }) r s t)
  start_fails :
      (c : Conversation) (r : ℕ) (s t : InteractiveState)
      → c.holder ≡ starting
      → c.entry ≡ some r
      → at r c.heap ≡ some s
      → t.pending_messages ≡ []
      → t.agent_session ≡ absent
      → Step limit c (replaced (record c { holder = leaving }) r s t)
  starts_alone :
      (c : Conversation) (t : InteractiveState)
      → c.holder ≡ starting
      → c.entry ≡ none
      → t.pending_messages ≡ []
      → t.agent_session ≡ alive
      → Step limit c (entered (record c { holder = in_turn (length c.heap) }) t)
  fails_alone :
      (c : Conversation) (t : InteractiveState)
      → c.holder ≡ starting
      → c.entry ≡ none
      → t.pending_messages ≡ []
      → t.agent_session ≡ absent
      → Step limit c (entered (record c { holder = leaving }) t)
  next_turn :
      (c : Conversation) (r : ℕ) (s t : InteractiveState) (q : QueuedMessage)
      → c.holder ≡ in_turn r
      → at r c.heap ≡ some s
      → take_pending s ≡ some (q, t)
      → Step limit c (taken c r q t)
  turn_ends :
      (c : Conversation) (r : ℕ)
      → c.holder ≡ in_turn r
      → Step limit c (record c { holder = draining r })
  unlocks :
      (c : Conversation) (r : ℕ) (s : InteractiveState)
      → c.holder ≡ draining r
      → at r c.heap ≡ some s
      → take_pending s ≡ none
      → Step limit c (record c { holder = unlocked })
  drains :
      (c : Conversation) (r : ℕ) (s t : InteractiveState) (q : QueuedMessage)
      → c.holder ≡ draining r
      → at r c.heap ≡ some s
      → take_pending s ≡ some (q, t)
      → is_gone s.agent_session ≡ false
      → Step limit c (taken (record c { holder = in_turn r }) r q t)
  drain_refuses :
      (c : Conversation) (r : ℕ) (s t : InteractiveState) (q : QueuedMessage)
      → c.holder ≡ draining r
      → at r c.heap ≡ some s
      → take_pending s ≡ some (q, t)
      → is_gone s.agent_session ≡ true
      → Step limit c (dropped (record c { holder = leaving; settled = c.settled ++ q ∷ [] }) r t)
  orphan_drains :
      (c : Conversation) (r : ℕ) (s : InteractiveState)
      → c.holder ≡ orphaned
      → c.entry ≡ some r
      → at r c.heap ≡ some s
      → is_gone s.agent_session ≡ false
      → Step limit c (record c { holder = draining r })
  orphan_drops :
      (c : Conversation) (r : ℕ) (s : InteractiveState)
      → c.holder ≡ orphaned
      → c.entry ≡ some r
      → at r c.heap ≡ some s
      → is_gone s.agent_session ≡ true
      → Step limit c (dropped (record c { holder = leaving }) r s)
  orphan_leaves :
      (c : Conversation)
      → c.holder ≡ orphaned
      → c.entry ≡ none
      → Step limit c (record c { holder = leaving })
  leaves :
      (c : Conversation)
      → c.holder ≡ leaving
      → Step limit c (record c { holder = unlocked; abandoned = true })
  -- Of a turn that fails, a stop or a clean-up: the agent is marked or ends, the queue is emptied, the state
  -- leaves the map.
  agent_changes :
      (c : Conversation) (r : ℕ) (s : InteractiveState) (a : AgentSession) (stopped : Bool)
      → at r c.heap ≡ some s
      → Step limit c
          (record c { heap = set r (record s { agent_session = a; stopped = stopped }) c.heap })
  drops :
      (c : Conversation) (r : ℕ) (s : InteractiveState)
      → at r c.heap ≡ some s
      → Step limit c (dropped c r s)
  forgets : (c : Conversation) → Step limit c (record c { entry = none })

pub data Run (limit : ℕ) : Conversation → Type 0 where
  begins : Run limit empty_conversation
  steps : {c d : Conversation} → Run limit c → Step limit c d → Run limit d
