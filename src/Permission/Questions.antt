-- ===== src/Permission/Questions.antt =====
-- The questions of an agent in core/engine.go, answered one after the other.
use mathlib.Core.Path.{subst, subst₂}
use mathlib.Core.List.{append_assoc}
use cc2wechat.Prelude.{
  ℕ, zero, suc, ◌≢◌, inl, inr, ◌+◌, String, ◌≡◌, ap, sym, ◌∙◌, refl, Bool, true, Option, none, some,
  List, [], ◌∷◌, ◌++◌, arith, ltb, if◌then◌else◌,
}
use cc2wechat.Prelude.Lists.{length, length-append}
use cc2wechat.Prelude.GoMap.{GoMap, get}
use cc2wechat.Permission.{
  UserQuestion, PendingPermission, PermissionState, PermissionResult, allow, with_answers, Handled,
  unhandled, Note, answer_taken, asks, failed, waits, resolves, panics, get_elem?, put_at,
  build_answers, build_ask_question_response, resolve_ask_question_answer, respond, take_answer,
  answer_pending, handle_pending_permission,
}
use cc2wechat.Permission.Answers.{
  AreBelow, AreBelow-append, AreDistinct, IsEntry, Visits, build_answers-get, build_answers-none,
  get_elem?-append, put_at-append,
}

begins_with :
    (before after : List UserQuestion) (q : UserQuestion)
    → (x : UserQuestion) × (xs : List UserQuestion) × ((before ++ q ∷ after) ≡ x ∷ xs)
begins_with [] after q = (q, after, refl)
begins_with (x ∷ before) after q = (x, before ++ q ∷ after, refl)

module _ (trim_space to_lower : String → String) (atoi : String → Option ℕ)
    (responds : String → Bool) (range : List (ℕ × String) → List (ℕ × String)) where
  -- The messages of a user, up to the one that resolves the request.
  unfoldable pub answer_all : List String → PermissionState → Handled
  answer_all [] s = unhandled
  answer_all (c ∷ contents) s =
      elim (handle_pending_permission trim_space to_lower atoi responds range c s) [
        | unhandled ↦ unhandled
        | waits s' notes ↦ answer_all contents s'
        | resolves s' id result note ↦ resolves s' id result note
        | panics ↦ panics
      ]

  -- The answers that the messages give to the questions, from a number on.
  abbrev pub numbered : ℕ → List UserQuestion → List String → List (ℕ × String)
  numbered n [] contents = []
  numbered n (q ∷ questions) [] = []
  numbered n (q ∷ questions) (c ∷ contents) =
      (n, resolve_ask_question_answer trim_space to_lower atoi responds range q c)
      ∷ numbered (n + 1) questions contents

  -- The request is resolved, allowed with the collected answers.
  abbrev Resolves : PermissionState → PendingPermission → List (ℕ × String) → Handled → Type 0
  Resolves s p l (resolves s' id result note) =
      (s' ≡ record s { pending = none })
      × (id ≡ p.request_id)
      × (result ≡ allow (with_answers p.tool_input (build_answers p.questions (range l) [])))
  Resolves s p l unhandled = ⊥
  Resolves s p l (waits s' notes) = ⊥
  Resolves s p l panics = ⊥

  -- The request is resolved, allowed with the answer of each message to the question of its place, and with no other.
  abbrev pub IsAnswered : PermissionState → PendingPermission → List String → Handled → Type 0
  IsAnswered s p contents (resolves s' id result note) =
      (s' ≡ record s { pending = none })
      × (id ≡ p.request_id)
      × ((m : GoMap String) × (result ≡ allow (with_answers p.tool_input m))
          × ((i : ℕ) (q : UserQuestion) (c : String)
              → get_elem? p.questions i ≡ some q
              → get_elem? contents i ≡ some c
              → get q.question m
                ≡ some (resolve_ask_question_answer trim_space to_lower atoi responds range q c))
          × ((k : String)
              → ((i : ℕ) (q : UserQuestion) → get_elem? p.questions i ≡ some q → q.question ≢ k)
              → get k m ≡ none))
  IsAnswered s p contents unhandled = ⊥
  IsAnswered s p contents (waits s' notes) = ⊥
  IsAnswered s p contents panics = ⊥

  at_questions :
      (c : String) (s : PermissionState) (p : PendingPermission) (q x : UserQuestion)
      (xs questions : List UserQuestion)
      → questions ≡ x ∷ xs
      → get_elem? p.questions p.current_question ≡ some q
      → answer_pending trim_space to_lower atoi responds range s p questions c
        ≡ take_answer trim_space to_lower atoi responds range s p q
            (resolve_ask_question_answer trim_space to_lower atoi responds range q c)
  unfolding answer_pending
  at_questions c s p q x xs questions e g = rw (e, answer_pending) (rw g refl)

  -- A message at a question.
  at_question :
      (c : String) (s : PermissionState) (p : PendingPermission) (q x : UserQuestion)
      (xs : List UserQuestion)
      → s.pending ≡ some p
      → p.questions ≡ x ∷ xs
      → get_elem? p.questions p.current_question ≡ some q
      → handle_pending_permission trim_space to_lower atoi responds range c s
        ≡ take_answer trim_space to_lower atoi responds range s p q
            (resolve_ask_question_answer trim_space to_lower atoi responds range q c)
  unfolding handle_pending_permission answer_pending take_answer respond
  at_question c s p q x xs h e g =
      rw (h, handle_pending_permission) (at_questions c s p q x xs p.questions e g)

  answer_all-waits :
      (c : String) (contents : List String) (s s' : PermissionState) {notes : List Note}
      → handle_pending_permission trim_space to_lower atoi responds range c s ≡ waits s' notes
      → answer_all (c ∷ contents) s ≡ answer_all contents s'
  unfolding answer_all
  answer_all-waits c contents s s' h = rw (h, answer_all) refl

  answer_all-resolves :
      (c : String) (contents : List String) (s s' : PermissionState) {id : String}
      {result : PermissionResult} {note : Note}
      → handle_pending_permission trim_space to_lower atoi responds range c s
        ≡ resolves s' id result note
      → answer_all (c ∷ contents) s ≡ resolves s' id result note
  unfolding answer_all
  answer_all-resolves c contents s s' h = rw (h, answer_all) refl

  -- The user stands at a question, and the questions before it are answered.
  record IsAt (s : PermissionState) (p : PendingPermission) (before : List UserQuestion)
      (q : UserQuestion) (after : List UserQuestion) : Type 0 where
    here : s.pending ≡ some p
    asked : p.questions ≡ before ++ q ∷ after
    place : p.current_question ≡ length before
    below : AreBelow (length before) p.answers

  module _ {s : PermissionState} {p : PendingPermission} {before after : List UserQuestion}
      {q : UserQuestion} (v : IsAt s p before q after) where
    at_place : get_elem? p.questions p.current_question ≡ some q
    at_place = rw (v.asked, v.place) (get_elem?-append before after q)

    more_answers :
        (a : String)
        → put_at p.current_question a p.answers ≡ p.answers ++ (p.current_question, a) ∷ []
    more_answers a =
        put_at-append p.current_question a p.answers
          (subst (λ (n : ℕ). AreBelow n p.answers) (sym v.place) v.below)

    last : ltb (p.current_question + 1) (length p.questions) ≡ ltb 0 (length after)
    last = ground (arith, ap length v.asked, length-append before (q ∷ after), v.place)

    handled_at :
        (c : String)
        → handle_pending_permission trim_space to_lower atoi responds range c s
          ≡ take_answer trim_space to_lower atoi responds range s p q
              (resolve_ask_question_answer trim_space to_lower atoi responds range q c)
    handled_at c =
        let (x, xs, e) = begins_with before after q in
        at_question c s p q x xs v.here (v.asked ∙ e) at_place

    resolves_last :
        (c : String)
        → after ≡ []
        → let a = resolve_ask_question_answer trim_space to_lower atoi responds range q c in
          handle_pending_permission trim_space to_lower atoi responds range c s
          ≡ resolves
              (record s { pending = none })
              p.request_id
              (allow (
                with_answers p.tool_input
                  (build_answers p.questions (range (put_at p.current_question a p.answers)) [])))
              (if responds p.request_id then answer_taken q.question a else failed)
    unfolding take_answer respond build_ask_question_response
    resolves_last c e =
        handled_at c
        ∙ rw (last ∙ ap (λ (l : List UserQuestion). ltb 0 (length l)) e, take_answer) refl

    -- The request once the question is answered.
    next : String → PendingPermission
    next a = record p {
      answers = put_at p.current_question a p.answers;
      current_question = p.current_question + 1;
    }

    waits_next :
        (c : String) (y : UserQuestion) (ys : List UserQuestion)
        → after ≡ y ∷ ys
        → let a = resolve_ask_question_answer trim_space to_lower atoi responds range q c in
          handle_pending_permission trim_space to_lower atoi responds range c s
          ≡ waits
              (record s { pending = some (next a) })
              (answer_taken q.question a ∷ asks (p.current_question + 1) ∷ [])
    unfolding take_answer next
    waits_next c y ys e =
        let more : ltb 0 (length after) ≡ true = ground (arith, ap length e) in
        handled_at c ∙ rw (last ∙ more, take_answer) refl

    next-IsAt :
        (a : String) (y : UserQuestion) (ys : List UserQuestion)
        → after ≡ y ∷ ys
        → IsAt (record s { pending = some (next a) }) (next a) (before ++ q ∷ []) y ys
    unfolding next
    next-IsAt a y ys e = record {
      here = refl;
      asked =
          v.asked
          ∙ ap (λ (l : List UserQuestion). before ++ q ∷ l) e
          ∙ sym (append_assoc before (q ∷ []) (y ∷ ys));
      place = omega (arith, v.place, length-append before (q ∷ []));
      below =
          let b : AreBelow p.current_question p.answers =
            subst (λ (n : ℕ). AreBelow n p.answers) (sym v.place) v.below in
          subst₂ AreBelow (omega (arith, v.place, length-append before (q ∷ [])))
            (sym (put_at-append p.current_question a p.answers b))
            (AreBelow-append p.current_question a p.answers b);
    }

  Resolves-from :
      (contents : List String) (s : PermissionState) (p : PendingPermission)
      (before : List UserQuestion) (q : UserQuestion) (after : List UserQuestion)
      → IsAt s p before q after
      → length contents ≡ suc (length after)
      → Resolves s p
          (p.answers ++ numbered p.current_question (q ∷ after) contents)
          (answer_all contents s)
  unfolding next
  Resolves-from [] s p before q after v h = absurd (omega (arith, h))
  Resolves-from (c ∷ contents) s p before q [] v h =
      rw (answer_all-resolves c contents s _ (resolves_last v c refl)) (
        refl,
        refl,
        ap
            (λ (l : List (ℕ × String)).
              allow (with_answers p.tool_input (build_answers p.questions (range l) [])))
            (more_answers v _),
      )
  Resolves-from (c ∷ contents) s p before q (y ∷ after) v h =
      let a = resolve_ask_question_answer trim_space to_lower atoi responds range q c in
      let rest = numbered (p.current_question + 1) (y ∷ after) contents in
      let s' = record s { pending = some (next v a) } in
      rw (answer_all-waits c contents s _ (waits_next v c y after refl)) (
        subst (λ (l : List (ℕ × String)). Resolves s p l (answer_all contents s'))
          (ap (λ (l : List (ℕ × String)). l ++ rest) (more_answers v a)
            ∙ append_assoc p.answers ((p.current_question, a) ∷ []) rest)
          (Resolves-from contents s' (next v a) (before ++ q ∷ []) y after
            (next-IsAt v _ y after refl) (omega (arith, h))))

  entry_of :
      (n i : ℕ) (questions : List UserQuestion) (contents : List String) (q : UserQuestion)
      (c : String)
      → get_elem? questions i ≡ some q
      → get_elem? contents i ≡ some c
      → IsEntry
          (n + i)
          (resolve_ask_question_answer trim_space to_lower atoi responds range q c)
          (numbered n questions contents)
  entry_of n i [] contents q c g h = cc
  entry_of n i (x ∷ questions) [] q c g h = cc
  entry_of n zero (x ∷ questions) (y ∷ contents) q c g h = inl (omega arith, cc (g, h))
  entry_of n (suc i) (x ∷ questions) (y ∷ contents) q c g h = inr (
      subst
        (λ (k : ℕ).
          IsEntry k (resolve_ask_question_answer trim_space to_lower atoi responds range q c)
            (numbered (n + 1) questions contents))
        (omega arith) (entry_of (n + 1) i questions contents q c g h))

  of_entry :
      (n j : ℕ) (b : String) (questions : List UserQuestion) (contents : List String)
      → IsEntry j b (numbered n questions contents)
      → (i : ℕ) × (q : UserQuestion) × (c : String) × (j ≡ n + i)
        × (get_elem? questions i ≡ some q)
        × (get_elem? contents i ≡ some c)
        × (b ≡ resolve_ask_question_answer trim_space to_lower atoi responds range q c)
  of_entry n j b [] contents e = absurd e
  of_entry n j b (x ∷ questions) [] e = absurd e
  of_entry n j b (x ∷ questions) (y ∷ contents) (inl (e, f)) =
      (0, x, y, omega (arith, e), refl, refl, sym f)
  of_entry n j b (x ∷ questions) (y ∷ contents) (inr e) =
      let (i, q, c, f, g, h, k) = of_entry (n + 1) j b questions contents e in
      (suc i, q, c, omega (arith, f), g, h, k)

  same_answer :
      {q r : UserQuestion} {c d : String}
      → some q ≡ some r
      → some c ≡ some d
      → resolve_ask_question_answer trim_space to_lower atoi responds range q c
        ≡ resolve_ask_question_answer trim_space to_lower atoi responds range r d
  same_answer e f = cc (e, f)

  IsAnswered-from :
      (s : PermissionState) (p : PendingPermission) (contents : List String) (handled : Handled)
      → Visits range
      → AreDistinct p.questions
      → Resolves s p (numbered 0 p.questions contents) handled
      → IsAnswered s p contents handled
  unfolding get
  IsAnswered-from s p contents unhandled v d r = r
  IsAnswered-from s p contents (waits s' notes) v d r = r
  IsAnswered-from s p contents panics v d r = r
  IsAnswered-from s p contents (resolves s' id result note) v d r =
      let l = numbered 0 p.questions contents in
      (
        r.0,
        r.1,
        (
          build_answers p.questions (range l) [],
          r.2,
          (λ i q c g h.
              build_answers-get p.questions q.question _ (range l) []
                (λ j b x e f t.
                  let (i', q', c', o, g', h', k') =
                    of_entry 0 j b p.questions contents ((v j b l).0 e) in
                  let same : i' ≡ i = omega (arith, o, d j i x q f g t) in
                  k'
                  ∙ same_answer (sym g' ∙ ap (get_elem? p.questions) same ∙ g)
                      (sym h' ∙ ap (get_elem? contents) same ∙ h))
                (inl (
                  i,
                  _,
                  q,
                  (v i _ l).1 (
                      subst
                        (λ (k : ℕ).
                          IsEntry k
                            (resolve_ask_question_answer trim_space to_lower atoi responds range q
                              c)
                            l)
                        (omega arith) (entry_of 0 i p.questions contents q c g h)),
                  g,
                  refl,
                ))),
          (λ k h. build_answers-none p.questions k (range l) [] h refl),
        ),
      )

  -- Where a request has questions, no two with one text and none answered yet, and the user
  -- sends as many messages as there are questions: in whatever order the range visits the
  -- answers, the messages resolve the request, under its id, with its input allowed together
  -- with exactly the answer that each message gives to the question of its place; nothing of the
  -- request is pending then.
  pub answer_all-IsAnswered :
      (contents : List String) (s : PermissionState) (p : PendingPermission) (q : UserQuestion)
      (questions : List UserQuestion)
      → Visits range
      → AreDistinct p.questions
      → s.pending ≡ some p
      → p.questions ≡ q ∷ questions
      → p.current_question ≡ 0
      → p.answers ≡ []
      → length contents ≡ length p.questions
      → IsAnswered s p contents (answer_all contents s)
  answer_all-IsAnswered contents s p q questions v d h e k n l =
      IsAnswered-from s p contents (answer_all contents s) v d (
        subst (λ (x : List (ℕ × String)). Resolves s p x (answer_all contents s))
          (ap (λ (x : List (ℕ × String)). x ++ numbered p.current_question (q ∷ questions) contents)
              n
            ∙ ap (λ (i : ℕ). numbered i (q ∷ questions) contents) k
            ∙ ap (λ (qs : List UserQuestion). numbered 0 qs contents) (sym e))
          (Resolves-from contents s p [] q questions
            (record { here = h; asked = e; place = k; below = subst (AreBelow 0) (sym n) tt })
            (l ∙ ap length e)))
