-- ===== src/Queue/Recall.antt =====
-- What a recall of a message does, `handleMessageRecall` of core/engine.go.
use mathlib.Core.Path.{subst}
use cc2wechat.Prelude.{
  String, ◌≡◌, ◌≢◌, ◌↔◌, ap, ◌⊎◌, inl, inr, refl, true, false, Option, none, some, List, [], ◌∷◌,
  arith, ◌==◌, eq_iff, eq_refl, Bool-cases, String-cases,
}
use cc2wechat.Prelude.Lists.{keep}
use cc2wechat.Prelude.GoMap.{GoMap, get, delete, Unique}
use cc2wechat.Queue.{QueuedMessage, InteractiveState, Engine}
use cc2wechat.Queue.Cancel.{
  Stopped, find_current, find_current_message_session, is_queued, without, remove_queued,
  remove_queued_message_by_id, stop_state, stop_interactive_session_with_options,
  stop_interactive_session_silently, handle_message_recall,
}

-- The second queue is the first one without the messages that have the id.
abbrev pub Drops : String → List QueuedMessage → List QueuedMessage → Type 0
Drops id [] left = left ≡ []
Drops id (q ∷ pending) left =
    ((q.message_id ≡ id) × Drops id pending left)
    ⊎ ((q.message_id ≢ id)
        × ((rest : List QueuedMessage) × (left ≡ q ∷ rest) × Drops id pending rest))

-- Some message of the queue has the id.
abbrev pub Holds : String → List QueuedMessage → Type 0
Holds id [] = ⊥
Holds id (q ∷ pending) = (q.message_id ≡ id) ⊎ Holds id pending

-- A session whose queue held the message, before and after the removal: only its queue has changed.
abbrev pub Filtered : String → Option InteractiveState → Option InteractiveState → Type 0
Filtered id none o = ⊥
Filtered id (some s) o =
    Holds id s.pending_messages
    × ((left : List QueuedMessage) × Drops id s.pending_messages left
        × (o ≡ some (record s { pending_messages = left })))

Drops-without : (id : String) (pending : List QueuedMessage) → Drops id pending (without id pending)
unfolding without keep
Drops-without id [] = refl
Drops-without id (q ∷ pending) = elim (String-cases q.message_id id) [
  | inl (e, b) ↦ inl (e, rw b (Drops-without id pending))
  | inr (e, b) ↦ inr (e, (without id pending, rw b refl, Drops-without id pending))
]

Holds-is_queued :
    (id : String) (pending : List QueuedMessage) → (is_queued id pending ≡ true) ↔ Holds id pending
unfolding is_queued
Holds-is_queued id [] = (λ h. cc, λ h. absurd h)
Holds-is_queued id (q ∷ pending) =
    let (to, from) = Holds-is_queued id pending in
    (
      λ h. elim (String-cases q.message_id id) [
        | inl (e, b) ↦ inl e
        | inr (e, b) ↦ inr (to (ground (arith, h, b)))
      ],
      λ h. elim h [
        | inl e ↦ ground (arith, eq_iff q.message_id id, e)
        | inr r ↦ ground (arith, from r)
      ],
    )

-- No session processes the message; no session's queue holds it.
abbrev pub NoneCurrent : String → GoMap InteractiveState → Type 0
NoneCurrent id m =
    (k : String) (s : InteractiveState) → get k m ≡ some s → s.current_message_id ≢ id

abbrev pub NoneQueued : String → GoMap InteractiveState → Type 0
NoneQueued id m =
    (k : String) (s : InteractiveState) → get k m ≡ some s → ¬ Holds id s.pending_messages

-- One session's queue has lost the message, and nothing else has changed; or no queue held it.
abbrev pub Removed :
    String → GoMap InteractiveState → GoMap InteractiveState → Option String → Type 0
Removed id m m' none = NoneQueued id m × (m' ≡ m)
Removed id m m' (some k) =
    Filtered id (get k m) (get k m') × ((j : String) → (k == j) ≡ false → get j m' ≡ get j m)

-- The same in terms of the tests.
abbrev FilteredTest : String → Option InteractiveState → Option InteractiveState → Type 0
FilteredTest id none o = ⊥
FilteredTest id (some s) o =
    (is_queued id s.pending_messages ≡ true)
    × (o ≡ some (record s { pending_messages = without id s.pending_messages }))

abbrev NoneCurrentTest : String → GoMap InteractiveState → Type 0
NoneCurrentTest id m =
    (k : String) (s : InteractiveState) → get k m ≡ some s → (s.current_message_id == id) ≡ false

abbrev NoneQueuedTest : String → GoMap InteractiveState → Type 0
NoneQueuedTest id m =
    (k : String) (s : InteractiveState) → get k m ≡ some s → is_queued id s.pending_messages ≡ false

abbrev RemovedTest :
    String → GoMap InteractiveState → GoMap InteractiveState → Option String → Type 0
RemovedTest id m m' none = NoneQueuedTest id m × (m' ≡ m)
RemovedTest id m m' (some k) =
    FilteredTest id (get k m) (get k m') × ((j : String) → (k == j) ≡ false → get j m' ≡ get j m)

NoneCurrent-test :
    (id : String) (m : GoMap InteractiveState) → NoneCurrentTest id m → NoneCurrent id m
NoneCurrent-test id m h k s g e = ground (arith, h k s g, eq_iff s.current_message_id id, e)

Filtered-test :
    (id : String) (o p : Option InteractiveState) → FilteredTest id o p → Filtered id o p
Filtered-test id none p h = h
Filtered-test id (some s) p h = (
  (Holds-is_queued id s.pending_messages).0 h.0,
  (without id s.pending_messages, Drops-without id s.pending_messages, h.1),
)

Removed-test :
    (id : String) (m m' : GoMap InteractiveState) (o : Option String)
    → RemovedTest id m m' o
    → Removed id m m' o
Removed-test id m m' none h =
    (λ k s g r. ground (arith, h.0 k s g, (Holds-is_queued id s.pending_messages).1 r), h.1)
Removed-test id m m' (some k) h = (Filtered-test id (get k m) (get k m') h.0, h.1)

find_current_lem :
    (id : String) (m : GoMap InteractiveState)
    → Unique m
    → ((k : String) × (s : InteractiveState) × (find_current id m ≡ some k)
        × (get k m ≡ some s)
        × (s.current_message_id ≡ id))
      ⊎ ((find_current id m ≡ none) × NoneCurrentTest id m)
unfolding find_current get
find_current_lem id [] u = inr (refl, λ k s h. cc)
find_current_lem id ((j, t) ∷ m) u = elim (Bool-cases (t.current_message_id == id)) [
  | inl p ↦
      inl (j, t, ground arith, ground (arith, eq_iff j j), (eq_iff t.current_message_id id).0 p)
  | inr p ↦ elim (find_current_lem id m u.1) [
    | inl (k, s, f, g, c) ↦ inl (k, s, ground arith, ground (arith, eq_iff j k), c)
    | inr (f, n) ↦ inr (ground arith, λ k s h. ground (arith, n k s))
  ]
]

remove_queued_cons :
    (id j : String) (t : InteractiveState) (m : GoMap InteractiveState)
    (r : GoMap InteractiveState × Option String)
    → is_queued id t.pending_messages ≡ false
    → get j m ≡ none
    → RemovedTest id m r.0 r.1
    → RemovedTest id ((j, t) ∷ m) ((j, t) ∷ r.0) r.1
unfolding get
remove_queued_cons id j t m (m', none) p u h =
    (λ k s g. ground (arith, h.0 k s), ap (λ (x : GoMap InteractiveState). (j, t) ∷ x) h.1)
remove_queued_cons id j t m (m', some k) p u h = elim (String-cases j k) [
  | inl e ↦ absurd (rw (subst (λ (i : String). get i m ≡ none) e.0 u) at (h.0))
  | inr e ↦ (rw e.1 h.0, λ i q. ground (arith, h.1 i))
]

remove_queued_lem :
    (id : String) (m : GoMap InteractiveState)
    → Unique m
    → RemovedTest id m (remove_queued id m).0 (remove_queued id m).1
unfolding remove_queued get
remove_queued_lem id [] u = (λ k s h. cc, refl)
remove_queued_lem id ((j, t) ∷ m) u = elim (Bool-cases (is_queued id t.pending_messages)) [
  | inl p ↦ rw (p, remove_queued) (rw (eq_refl j) (p, refl), λ i q. rw q refl)
  | inr p ↦
      rw (p, remove_queued)
        (remove_queued_cons id j t m (remove_queued id m) p u.0 (remove_queued_lem id m u.1))
]

stop-found :
    (k : String) (s : InteractiveState) (e : Engine)
    → get k e.interactive_states ≡ some s
    → stop_interactive_session_silently k e
      ≡ (record e { interactive_states = delete k e.interactive_states }, some (stop_state false s))
unfolding stop_interactive_session_silently stop_interactive_session_with_options
stop-found k s e g = rw (g, stop_interactive_session_with_options) refl

-- For an id that is not empty when trimmed, and a map that holds each session once: a recall
-- takes a session whose current message has the id out of the map, or, where no session
-- processes the message, filters it from the queue of one session that holds it and changes
-- nothing else, or changes nothing where no queue holds it.
pub handle_message_recall_lem :
    (trim_space : String → String) (raw : String) (e : Engine)
    → (trim_space raw == "") ≡ false
    → Unique e.interactive_states
    → let id = trim_space raw in
      let before = e.interactive_states in
      let after = (handle_message_recall trim_space raw e).interactive_states in
      ((k : String) × (s : InteractiveState) × (get k before ≡ some s)
        × (s.current_message_id ≡ id)
        × (after ≡ delete k before))
      ⊎ (NoneCurrent id before × ((o : Option String) × Removed id before after o))
unfolding handle_message_recall find_current_message_session remove_queued_message_by_id
handle_message_recall_lem trim_space raw e h u =
    let id = trim_space raw in
    let m = e.interactive_states in
    elim (find_current_lem id m u) [
      | inl (k, s, f, g, c) ↦ inl (
        k,
        s,
        g,
        c,
        rw (h, f, handle_message_recall, stop-found k s e g)
            (ap (λ (r : Engine × Option Stopped). r.0.interactive_states) (stop-found k s e g)),
      )
      | inr (f, n) ↦ inr (
        NoneCurrent-test id m n,
        (
          (remove_queued id m).1,
          rw (h, f, handle_message_recall)
              (Removed-test id m _ (remove_queued id m).1 (remove_queued_lem id m u)),
        ),
      )
    ]
