-- ===== src/Queue/Stranded.antt =====
-- A start of the agent that fails, in core/engine.go, while a message waits.
use mathlib.Core.Path.{subst}
use cc2wechat.Prelude.{ℕ, ◌<◌, ◌≡◌, refl, some, [], ◌∷◌, arith}
use cc2wechat.Queue.{
  QueuedMessage, InteractiveState, placeholder, append_in, ensure_in, message_queued, alive,
  take_pending-nil, adopt_pending_from_placeholder,
}
use cc2wechat.Queue.Steps.{
  Holder, unlocked, Conversation, empty_conversation, state_of, pending_of, answered, locks,
  finds_busy, passes, queues, retries, ensures, start_fails, starts, turn_ends, unlocks, leaves,
  Run, begins, steps,
}

module _ (limit : ℕ) (m n : QueuedMessage) where
  abbrev pub first : InteractiveState
  first = placeholder m.platform m.reply_ctx

  -- The first message has the lock and starts the agent; the second waits.
  started : Conversation
  started = record empty_conversation {
    holder = Holder.starting;
    entry = some 0;
    heap = first ∷ [];
  }

  waiting : Conversation
  waiting = record started {
    heap = record first { pending_messages = n ∷ [] } ∷ [];
    retrying = 1;
    accepted = n ∷ [];
  }

  Run-started : Run limit started
  unfolding started ensure_in
  Run-started = steps (steps begins (locks empty_conversation m refl)) (ensures _ m refl refl)

  append_in-placeholder :
      0 < limit
      → append_in limit n first ≡ (record first { pending_messages = n ∷ [] }, message_queued)
  unfolding append_in
  append_in-placeholder h = ground arith

  Run-waiting : 0 < limit → Run limit waiting
  unfolding waiting started
  Run-waiting h =
      let c = record started { passed = (n, 0) ∷ [] } in
      let r : Run limit c =
        steps (steps Run-started (finds_busy started n (λ e. cc)))
          (passes _ [] [] n 0 refl refl refl) in
      subst (λ x. Run limit (answered n 0 started x)) (append_in-placeholder h)
        (steps r (queues c _ [] [] n 0 refl refl))

  -- With a maximum above 0, and for any two messages, some run ends at an unlocked session with
  -- no handler on its way, where the second message was accepted and still waits: the agent's
  -- start failed.
  pub Run-strands :
      0 < limit
      → (c : Conversation) × Run limit c
        × (c.holder ≡ unlocked)
        × (c.busy ≡ [])
        × (c.passed ≡ [])
        × (c.retrying ≡ 0)
        × (c.accepted ≡ n ∷ [])
        × (pending_of (state_of c.entry c.heap) ≡ n ∷ [])
  unfolding waiting started adopt_pending_from_placeholder
  Run-strands h = (
    _,
    steps
        (steps (steps (Run-waiting h) (retries _ 0 refl))
          (start_fails _ 0 _ first refl refl refl refl refl))
        (leaves _ refl),
    refl,
    refl,
    refl,
    refl,
    refl,
    refl,
  )

  -- The state of the first message once the agent has started.
  abbrev pub running : InteractiveState
  running = record first { agent_session = alive }

  -- The end of a run where the second handler took the state, the agent started and replaced it, and then the
  -- message was queued at the state that the handler had.
  abbrev pub lost : Conversation
  lost = record empty_conversation {
    entry = some 1;
    heap = record first { pending_messages = n ∷ [] } ∷ running ∷ [];
    accepted = n ∷ [];
  }

  -- The second message was accepted, and waits at a state that the map does not have; the session is unlocked, no
  -- handler is on its way, and no deferred unlock took place.
  pub Run-loses : 0 < limit → Run limit lost
  unfolding started adopt_pending_from_placeholder
  Run-loses h =
      let c = record started { passed = (n, 0) ∷ [] } in
      let r : Run limit c =
        steps (steps Run-started (finds_busy started n (λ e. cc)))
          (passes _ [] [] n 0 refl refl refl) in
      let d = record c { holder = Holder.in_turn 1; entry = some 1; heap = first ∷ running ∷ [] } in
      let e : Run limit d = steps r (starts c 0 first running refl refl refl refl refl) in
      let f : Run limit (record lost { holder = Holder.in_turn 1; retrying = 1 }) =
        subst (λ x. Run limit (answered n 0 (record d { passed = [] }) x)) (append_in-placeholder h)
          (steps e (queues d first [] [] n 0 refl refl)) in
      steps (steps (steps f (retries _ 0 refl)) (turn_ends _ 1 refl))
        (unlocks _ 1 running refl refl (take_pending-nil running refl))
