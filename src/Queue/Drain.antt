-- ===== src/Queue/Drain.antt =====
-- `drainPendingMessages` and `drainOrphanedQueue` of core/engine.go, with no other goroutine at the queue. What
-- a turn does, `processInteractiveEvents` after the send, is the parameter `turn`: the state after it, and the
-- messages that the turn has taken from the queue, which it answers or whose senders it tells.
use cc2wechat.Prelude.{
  ℕ, zero, suc, ◌<◌, ◌≡◌, sym, ap, ◌∙◌, refl, Bool, true, false, Option, none, some, List, [], ◌∷◌,
  ◌++◌, arith, if◌then◌else◌, Bool-cases, inl, inr,
}
use cc2wechat.Prelude.Lists.{length, length-append}
use cc2wechat.Queue.{
  QueuedMessage, InteractiveState, is_gone, take_pending, take_pending-nil, take_pending-cons,
  turn_state, notify_dropped_queued_messages,
}

-- `settled` are the messages that left the queue, in this order: they had their turn, or their sender was
-- told that they were dropped.
pub record Drained : Type 0 where
  pub state : InteractiveState
  pub unlocked : Bool
  pub settled : List QueuedMessage

module _ (turn : QueuedMessage → InteractiveState → InteractiveState × List QueuedMessage) where
  prepend : List QueuedMessage → Option Drained → Option Drained
  prepend ms none = none
  prepend ms (some d) = some (record d { settled = ms ++ d.settled })

  -- The loop; `none` is that the fuel has run out.
  unfoldable pub drain_pending_messages : ℕ → InteractiveState → Option Drained
  unfolding prepend
  drain_pending_messages zero s = none
  drain_pending_messages (suc fuel) s = elim (take_pending s) [
    | none ↦ some (record { state = s; unlocked = true; settled = [] })
    | some (q, s') ↦
        let (after, taken) = turn q s' in
        let rest = prepend (q ∷ taken) (drain_pending_messages fuel after) in
        let (dropped, told) = notify_dropped_queued_messages s' in
        if is_gone s'.agent_session
        then some (record { state = dropped; unlocked = false; settled = q ∷ told })
        else rest
  ]

  unfoldable pub drain_orphaned_queue : ℕ → Option InteractiveState → Option (Option Drained)
  drain_orphaned_queue fuel none = some none
  drain_orphaned_queue fuel (some s) =
      let (dropped, told) = notify_dropped_queued_messages s in
      let rest = drain_pending_messages fuel s in
      if is_gone s.agent_session
      then some (some (record { state = dropped; unlocked = false; settled = told }))
      else elim rest [ none ↦ none | some d ↦ some (some d) ]

  -- A turn takes messages from the front of the queue only.
  abbrev pub TakesFront : Type 0
  TakesFront =
      (q : QueuedMessage) (s : InteractiveState)
      → s.pending_messages ≡ (turn q s).1 ++ (turn q s).0.pending_messages

  -- Of the loop at a queue: it ends, and settles the queue's messages, in order.
  abbrev pub Settles : ℕ → InteractiveState → Type 0
  Settles fuel s =
      (d : Drained) × (drain_pending_messages fuel s ≡ some d)
      × (d.settled ≡ s.pending_messages)
      × (d.state.pending_messages ≡ [])

  queue-Settles :
      (fuel : ℕ) (s : InteractiveState) (ms : List QueuedMessage)
      → s.pending_messages ≡ ms
      → TakesFront
      → length ms < fuel
      → Settles fuel s
  unfolding drain_pending_messages notify_dropped_queued_messages prepend
  queue-Settles zero s ms e t h = elim h [ ]
  queue-Settles (suc fuel) s [] e t h = (
    record { state = s; unlocked = true; settled = [] },
    rw (take_pending-nil s e, drain_pending_messages) refl,
    sym e,
    e,
  )
  queue-Settles (suc fuel) s (q ∷ rest) e t h =
      let s' = turn_state q rest s in
      let after = (turn q s').0 in
      elim (Bool-cases (is_gone s.agent_session)) [
        | inl g ↦ (
          record {
            state = (notify_dropped_queued_messages s').0;
            unlocked = false;
            settled = q ∷ rest;
          },
          rw (take_pending-cons s q rest e, drain_pending_messages) (ground arith),
          sym e,
          refl,
        )
        | inr g ↦
            let (d, p, f, n) = queue-Settles fuel after after.pending_messages refl t (
              omega
                (arith, ap length (t q s'), length-append (turn q s').1 after.pending_messages)) in
            (
              record d { settled = (q ∷ (turn q s').1) ++ d.settled },
              rw (take_pending-cons s q rest e, drain_pending_messages) (ground (arith, p)),
              rw f (ap (λ (ms : List QueuedMessage). q ∷ ms) (sym (t q s')) ∙ sym e),
              n,
            )
      ]

  -- Where a turn takes messages from the front of the queue only, and with more fuel than
  -- messages wait, the drain loop ends, the queue is empty, and every message that waited was
  -- settled, in its order: it had its turn, or its sender was told.
  pub drain_pending_messages-Settles :
      (fuel : ℕ) (s : InteractiveState)
      → TakesFront
      → length s.pending_messages < fuel
      → Settles fuel s
  drain_pending_messages-Settles fuel s t h = queue-Settles fuel s s.pending_messages refl t h
