-- ===== src/Queue/Heap.antt =====
-- The states of a session of core/engine.go on a heap: a `*interactiveState` is a place, and goroutines may hold
-- one that the map no longer has.
use mathlib.Core.Path.{subst}
use cc2wechat.Prelude.{
  ℕ, zero, suc, ◌+◌, ◌≤◌, ◌≡◌, ◌⊎◌, inl, inr, ap, refl, Bool, Option, none, some, List, [], ◌∷◌,
  ◌++◌, arith, if◌then◌else◌,
}
use cc2wechat.Prelude.Lists.{length}
use cc2wechat.Queue.{QueuedMessage, InteractiveState}

abbrev pub Heap : Type 0
Heap = List InteractiveState

-- The state at a place.
abbrev pub at : ℕ → Heap → Option InteractiveState
at r [] = none
at zero (s ∷ h) = some s
at (suc r) (s ∷ h) = at r h

-- A state is changed through a pointer to it.
abbrev pub set : ℕ → InteractiveState → Heap → Heap
set r t [] = []
set zero t (s ∷ h) = t ∷ h
set (suc r) t (s ∷ h) = s ∷ set r t h

-- The number of messages that pass a test, in a list and in all queues of the heap.
abbrev pub count : (QueuedMessage → Bool) → List QueuedMessage → ℕ
count f [] = 0
count f (m ∷ ms) = (if f m then 1 else 0) + count f ms

abbrev pub total : (QueuedMessage → Bool) → Heap → ℕ
total f [] = 0
total f (s ∷ h) = count f s.pending_messages + total f h

-- No queue is longer than the maximum.
abbrev pub AreBounded : ℕ → Heap → Type 0
AreBounded limit [] = Unit {0}
AreBounded limit (s ∷ h) = (length s.pending_messages ≤ limit) × AreBounded limit h

pub count-append :
    (f : QueuedMessage → Bool) (xs ys : List QueuedMessage)
    → count f (xs ++ ys) ≡ count f xs + count f ys
count-append f [] ys = omega arith
count-append f (x ∷ xs) ys = omega (arith, count-append f xs ys)

same_queue : {s t : InteractiveState} → some s ≡ some t → s.pending_messages ≡ t.pending_messages
same_queue e = cc e

pub total-set :
    (f : QueuedMessage → Bool) (r : ℕ) (s t : InteractiveState) (h : Heap)
    → at r h ≡ some s
    → total f (set r t h) + count f s.pending_messages ≡ total f h + count f t.pending_messages
total-set f r s t [] e = cc
total-set f zero s t (u ∷ h) e = omega (arith, ap (count f) (same_queue e))
total-set f (suc r) s t (u ∷ h) e = omega (arith, total-set f r s t h e)

pub total-append :
    (f : QueuedMessage → Bool) (h : Heap) (s : InteractiveState)
    → total f (h ++ s ∷ []) ≡ total f h + count f s.pending_messages
total-append f [] s = omega arith
total-append f (u ∷ h) s = omega (arith, total-append f h s)

pub set-AreBounded :
    (limit r : ℕ) (t : InteractiveState) (h : Heap)
    → length t.pending_messages ≤ limit
    → AreBounded limit h
    → AreBounded limit (set r t h)
set-AreBounded limit r t [] l b = tt
set-AreBounded limit zero t (u ∷ h) l b = (l, b.1)
set-AreBounded limit (suc r) t (u ∷ h) l b = (b.0, set-AreBounded limit r t h l b.1)

pub append-AreBounded :
    (limit : ℕ) (h : Heap) (s : InteractiveState)
    → length s.pending_messages ≤ limit
    → AreBounded limit h
    → AreBounded limit (h ++ s ∷ [])
append-AreBounded limit [] s l b = (l, tt)
append-AreBounded limit (u ∷ h) s l b = (b.0, append-AreBounded limit h s l b.1)

pub AreBounded-at :
    (limit r : ℕ) (s : InteractiveState) (h : Heap)
    → at r h ≡ some s
    → AreBounded limit h
    → length s.pending_messages ≤ limit
AreBounded-at limit r s [] e b = cc
AreBounded-at limit zero s (u ∷ h) e b =
    subst (λ (ms : List QueuedMessage). length ms ≤ limit) (same_queue e) b.0
AreBounded-at limit (suc r) s (u ∷ h) e b = AreBounded-at limit r s h e b.1

-- The queue at a place after a change somewhere.
abbrev pub queue_at : ℕ → Heap → List QueuedMessage
queue_at r [] = []
queue_at zero (s ∷ h) = s.pending_messages
queue_at (suc r) (s ∷ h) = queue_at r h

pub queue_at-set :
    (r j : ℕ) (t : InteractiveState) (h : Heap)
    → (queue_at j (set r t h) ≡ queue_at j h)
      ⊎ ((j ≡ r) × (queue_at j (set r t h) ≡ t.pending_messages))
queue_at-set r j t [] = inl refl
queue_at-set zero zero t (u ∷ h) = inr (refl, refl)
queue_at-set zero (suc j) t (u ∷ h) = inl refl
queue_at-set (suc r) zero t (u ∷ h) = inl refl
queue_at-set (suc r) (suc j) t (u ∷ h) = elim (queue_at-set r j t h) [
  | inl e ↦ inl e
  | inr (e, q) ↦ inr (ap suc e, q)
]

pub queue_at-at :
    (r : ℕ) (s : InteractiveState) (h : Heap) → at r h ≡ some s → queue_at r h ≡ s.pending_messages
queue_at-at r s [] e = cc
queue_at-at zero s (u ∷ h) e = cc e
queue_at-at (suc r) s (u ∷ h) e = queue_at-at r s h e
