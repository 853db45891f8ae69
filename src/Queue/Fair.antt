-- ===== src/Queue/Fair.antt =====
-- An invariant of the queues of a session of core/engine.go, and what keeps it.
use mathlib.Core.Path.{subst}
use mathlib.Core.List.{append-nil}
use cc2wechat.Prelude.{
  ℕ, ◌+◌, ◌≤◌, ◌≡◌, ◌≢◌, ◌⊎◌, sym, ap, ◌∙◌, refl, Bool, false, Option, none, some, List, [], ◌∷◌,
  ◌++◌, arith, leb, Bool-cases, inl, inr,
}
use cc2wechat.Prelude.Lists.{length, length-append}
use cc2wechat.Queue.{
  QueuedMessage, InteractiveState, append_in, take_pending-nil, take_pending-cons, take_pending,
  notify_dropped_queued_messages, adopt_pending_from_placeholder,
}
use cc2wechat.Queue.Heap.{
  at, set, count, total, AreBounded, queue_at, count-append, total-set, total-append,
  set-AreBounded, append-AreBounded, AreBounded-at, queue_at-set, queue_at-at,
}
use cc2wechat.Queue.Steps.{
  Holder, unlocked, Conversation, answered, retried, dropped, replaced, entered,
}

-- The state that the holder of the lock works on.
abbrev pub held_by : Holder → Option ℕ
held_by (Holder.in_turn r) = some r
held_by (Holder.draining r) = some r
held_by _ = none

-- Every queue is bounded; of the messages that pass any test, as many were accepted as have left a queue and
-- stand in the queue of some state together; the map has no state but the one that the holder works on; and
-- at an unlocked session with no handler that will lock it, nothing waits at the state that the map has, unless
-- a deferred unlock took place.
pub record IsFair (limit : ℕ) (c : Conversation) : Type 0 where
  pub bounded : AreBounded limit c.heap
  pub conserved :
      (f : QueuedMessage → Bool) → count f c.accepted ≡ count f c.settled + total f c.heap
  pub placed : (r j : ℕ) → held_by c.holder ≡ some r → c.entry ≡ some j → j ≡ r
  pub watched :
      c.abandoned ≡ false
      → c.holder ≡ unlocked
      → c.retrying ≡ 0
      → (r : ℕ) → c.entry ≡ some r
      → queue_at r c.heap ≡ []

-- A taken message is the queue's first.
pub taken_at :
    (s t : InteractiveState) (q : QueuedMessage) (ms : List QueuedMessage)
    → s.pending_messages ≡ ms
    → take_pending s ≡ some (q, t)
    → s.pending_messages ≡ q ∷ t.pending_messages
taken_at s t q [] e h = cc (take_pending-nil s e, h)
taken_at s t q (m ∷ ms) e h = ground (arith, take_pending-cons s m ms e)

pub none_at :
    (s : InteractiveState) (ms : List QueuedMessage)
    → s.pending_messages ≡ ms
    → take_pending s ≡ none
    → s.pending_messages ≡ []
none_at s [] e h = e
none_at s (m ∷ ms) e h = cc (take_pending-cons s m ms e, h)

-- The holder moves on, and the session stays locked.
pub moves-IsFair :
    (limit : ℕ) (c : Conversation) (h : Holder)
    → h ≢ unlocked
    → ((r j : ℕ) → held_by h ≡ some r → c.entry ≡ some j → j ≡ r)
    → IsFair limit c
    → IsFair limit (record c { holder = h })
moves-IsFair limit c h n p v = record {
  bounded = v.bounded;
  conserved = v.conserved;
  placed = p;
  watched = λ a u r. absurd (n u);
}

-- The front of a queue leaves it, or all of it does; where the session may be unlocked, all of it.
pub settles-IsFair :
    (limit : ℕ) (c : Conversation) (h : Holder) (r : ℕ) (s t : InteractiveState)
    (out : List QueuedMessage)
    → ((h ≢ unlocked) ⊎ ((h ≡ c.holder) × (t.pending_messages ≡ [])))
    → ((k j : ℕ) → held_by h ≡ some k → c.entry ≡ some j → j ≡ k)
    → at r c.heap ≡ some s
    → s.pending_messages ≡ out ++ t.pending_messages
    → IsFair limit c
    → IsFair limit (record c { holder = h; heap = set r t c.heap; settled = c.settled ++ out })
settles-IsFair limit c h r s t out n k e p v = record {
  bounded =
      set-AreBounded limit r t c.heap
        (omega (
          arith,
          AreBounded-at limit r s c.heap e v.bounded,
          ap length p,
          length-append out t.pending_messages,
        ))
        v.bounded;
  conserved = λ f. omega (
    arith,
    v.conserved f,
    total-set f r s t c.heap e,
    count-append f c.settled out,
    count-append f out t.pending_messages,
    ap (count f) p,
  );
  placed = k;
  watched = λ a u z j m. elim n [
    | inl b ↦ absurd (b u)
    | inr (b, d) ↦ elim (queue_at-set r j t c.heap) [
      | inl q ↦ q ∙ v.watched a (sym b ∙ u) z j m
      | inr (_, q) ↦ q ∙ d
    ]
  ];
}

adopts :
    (s t : InteractiveState) (ms : List QueuedMessage)
    → s.pending_messages ≡ ms
    → t.pending_messages ≡ []
    → ((adopt_pending_from_placeholder s t).0.pending_messages ≡ s.pending_messages)
      × ((adopt_pending_from_placeholder s t).1.pending_messages ≡ [])
unfolding adopt_pending_from_placeholder
adopts s t [] e p = rw (e, adopt_pending_from_placeholder) (p, e)
adopts s t (m ∷ ms) e p = rw (e, adopt_pending_from_placeholder) (refl, refl)

-- A state comes to the heap, with the queue of the state that it replaces.
pub replaced-IsFair :
    (limit : ℕ) (c : Conversation) (h : Holder) (r : ℕ) (s t : InteractiveState)
    → h ≢ unlocked
    → ((k : ℕ) → held_by h ≡ some k → length c.heap ≡ k)
    → at r c.heap ≡ some s
    → t.pending_messages ≡ []
    → IsFair limit c
    → IsFair limit (replaced (record c { holder = h }) r s t)
replaced-IsFair limit c h r s t n k e p v =
    let (new, old) = adopt_pending_from_placeholder s t in
    let (full, empty) = adopts s t s.pending_messages refl p in
    record {
      bounded =
          append-AreBounded limit (set r old c.heap) new
            (omega (arith, ap length full, AreBounded-at limit r s c.heap e v.bounded))
            (set-AreBounded limit r old c.heap (omega (arith, ap length empty)) v.bounded);
      conserved = λ f. omega (
        arith,
        v.conserved f,
        total-append f (set r old c.heap) new,
        total-set f r s old c.heap e,
        ap (count f) full,
        ap (count f) empty,
      );
      placed = λ i j a b. sym (ground (arith, b)) ∙ k i a;
      watched = λ a u. absurd (n u);
    }

pub entered-IsFair :
    (limit : ℕ) (c : Conversation) (h : Holder) (t : InteractiveState)
    → h ≢ unlocked
    → ((k : ℕ) → held_by h ≡ some k → length c.heap ≡ k)
    → t.pending_messages ≡ []
    → IsFair limit c
    → IsFair limit (entered (record c { holder = h }) t)
entered-IsFair limit c h t n k p v = record {
  bounded =
      append-AreBounded limit c.heap t
        (subst (λ (ms : List QueuedMessage). length ms ≤ limit) (sym p) (omega arith)) v.bounded;
  conserved = λ f. omega (arith, v.conserved f, total-append f c.heap t, ap (count f) p);
  placed = λ i j a b. sym (ground (arith, b)) ∙ k i a;
  watched = λ a u. absurd (n u);
}

pub append_in-IsFair :
    (limit : ℕ) (c : Conversation) (m : QueuedMessage) (r : ℕ) (s : InteractiveState)
    → at r c.heap ≡ some s
    → IsFair limit c
    → IsFair limit (answered m r c (append_in limit m s))
unfolding append_in
append_in-IsFair limit c m r s e v = elim (Bool-cases (leb limit (length s.pending_messages))) [
  | inl p ↦
      rw (p, append_in)
        (record {
          bounded = v.bounded;
          conserved = v.conserved;
          placed = v.placed;
          watched = λ a h z. absurd (omega (arith, z));
        })
  | inr p ↦
      rw (p, append_in)
        (record {
          bounded =
              set-AreBounded limit r _ c.heap
                (ground (arith, p, length-append s.pending_messages (m ∷ []))) v.bounded;
          conserved = λ f. omega (
            arith,
            v.conserved f,
            total-set f r s (record s { pending_messages = s.pending_messages ++ m ∷ [] }) c.heap e,
            count-append f c.accepted (m ∷ []),
            count-append f s.pending_messages (m ∷ []),
          );
          placed = v.placed;
          watched = λ a h z. absurd (omega (arith, z));
        })
]

pub retried-locked : (h : Holder) → retried h ≢ unlocked
retried-locked unlocked e = cc
retried-locked (Holder.entering m) e = cc
retried-locked Holder.starting e = cc
retried-locked (Holder.in_turn r) e = cc
retried-locked (Holder.draining r) e = cc
retried-locked Holder.orphaned e = cc
retried-locked Holder.leaving e = cc

pub retried-held : (h : Holder) → held_by (retried h) ≡ held_by h
retried-held unlocked = refl
retried-held (Holder.entering m) = refl
retried-held Holder.starting = refl
retried-held (Holder.in_turn r) = refl
retried-held (Holder.draining r) = refl
retried-held Holder.orphaned = refl
retried-held Holder.leaving = refl

-- The holder that works on `r` works on it still.
pub same_place :
    (limit : ℕ) (c : Conversation) (r : ℕ)
    → held_by c.holder ≡ some r
    → IsFair limit c
    → (k j : ℕ) → some r ≡ some k
    → c.entry ≡ some j
    → j ≡ k
same_place limit c r h v k j e m = v.placed k j (h ∙ e) m

pub drops-IsFair :
    (limit : ℕ) (c : Conversation) (h : Holder) (r : ℕ) (s : InteractiveState)
    → ((h ≢ unlocked) ⊎ (h ≡ c.holder))
    → ((k j : ℕ) → held_by h ≡ some k → c.entry ≡ some j → j ≡ k)
    → at r c.heap ≡ some s
    → IsFair limit c
    → IsFair limit (dropped (record c { holder = h }) r s)
unfolding notify_dropped_queued_messages
drops-IsFair limit c h r s n k e v =
    settles-IsFair limit c h r s (record s { pending_messages = [] }) s.pending_messages
      (elim n [ inl b ↦ inl b | inr b ↦ inr (b, refl) ]) k e (sym (append-nil s.pending_messages)) v

pub agent-IsFair :
    (limit : ℕ) (c : Conversation) (r : ℕ) (s t : InteractiveState)
    → at r c.heap ≡ some s
    → t.pending_messages ≡ s.pending_messages
    → IsFair limit c
    → IsFair limit (record c { heap = set r t c.heap })
agent-IsFair limit c r s t e p v = record {
  bounded =
      set-AreBounded limit r t c.heap
        (omega (arith, ap length p, AreBounded-at limit r s c.heap e v.bounded)) v.bounded;
  conserved = λ f. omega (arith, v.conserved f, total-set f r s t c.heap e, ap (count f) p);
  placed = v.placed;
  watched = λ a u z j m. elim (queue_at-set r j t c.heap) [
    | inl q ↦ q ∙ v.watched a u z j m
    | inr (i, q) ↦
        q
        ∙ p
        ∙ sym (queue_at-at r s c.heap e)
        ∙ sym (ap (λ (x : ℕ). queue_at x c.heap) i)
        ∙ v.watched a u z j m
  ];
}
