-- ===== src/Permission/Answers.antt =====
-- The collected answers of `buildAskQuestionResponse` in core/engine.go.
use cc2wechat.Prelude.{
  ℕ, ◌≢◌, ◌⊎◌, ◌↔◌, inl, inr, Option-cases, String-cases, eq_iff, ◌+◌, ◌<◌, String, ◌≡◌, ap, ◌∙◌,
  refl, none, some, List, [], ◌∷◌, ◌++◌, arith,
}
use cc2wechat.Prelude.Lists.{length}
use cc2wechat.Prelude.GoMap.{GoMap, get, get-put}
use cc2wechat.Permission.{UserQuestion, get_elem?, put_at, build_answers}

-- All keys stand below a number.
abbrev pub AreBelow : ℕ → List (ℕ × String) → Type 0
AreBelow n [] = Unit {0}
AreBelow n ((i, a) ∷ m) = (i < n) × AreBelow n m

pub put_at-append :
    (n : ℕ) (a : String) (m : List (ℕ × String)) → AreBelow n m → put_at n a m ≡ m ++ (n, a) ∷ []
unfolding put_at
put_at-append n a [] b = refl
put_at-append n a ((i, x) ∷ m) b = ground (arith, put_at-append n a m b.1)

pub AreBelow-append :
    (n : ℕ) (a : String) (m : List (ℕ × String))
    → AreBelow n m
    → AreBelow (n + 1) (m ++ (n, a) ∷ [])
AreBelow-append n a [] b = (omega arith, tt)
AreBelow-append n a ((i, x) ∷ m) b = (omega (arith, b.0), AreBelow-append n a m b.1)

pub get_elem?-append :
    (before after : List UserQuestion) (q : UserQuestion)
    → get_elem? (before ++ q ∷ after) (length before) ≡ some q
get_elem?-append [] after q = refl
get_elem?-append (x ∷ before) after q = get_elem?-append before after q

-- An entry of the collected answers.
abbrev pub IsEntry : ℕ → String → List (ℕ × String) → Type 0
IsEntry i a [] = ⊥
IsEntry i a ((j, b) ∷ l) = ((j ≡ i) × (b ≡ a)) ⊎ IsEntry i a l

-- A range visits the entries, and nothing else.
abbrev pub Visits : (List (ℕ × String) → List (ℕ × String)) → Type 0
Visits range = (i : ℕ) (a : String) (l : List (ℕ × String)) → IsEntry i a (range l) ↔ IsEntry i a l

-- No two questions have one text.
abbrev pub AreDistinct : List UserQuestion → Type 0
AreDistinct questions =
    (i j : ℕ) (q r : UserQuestion)
    → get_elem? questions i ≡ some q
    → get_elem? questions j ≡ some r
    → q.question ≡ r.question
    → i ≡ j

-- Some entry is of a question with the text.
abbrev IsAbout : List UserQuestion → String → List (ℕ × String) → Type 0
IsAbout questions k l =
    (j : ℕ) × (b : String) × (r : UserQuestion) × IsEntry j b l
    × (get_elem? questions j ≡ some r)
    × (r.question ≡ k)

-- All entries of questions with the text hold one answer.
abbrev Agree : List UserQuestion → String → String → List (ℕ × String) → Type 0
Agree questions k a l =
    (j : ℕ) (b : String) (r : UserQuestion)
    → IsEntry j b l
    → get_elem? questions j ≡ some r
    → r.question ≡ k
    → b ≡ a

pub build_answers-get :
    (questions : List UserQuestion) (k a : String) (l : List (ℕ × String)) (m : GoMap String)
    → Agree questions k a l
    → IsAbout questions k l ⊎ (get k m ≡ some a)
    → get k (build_answers questions l m) ≡ some a
unfolding build_answers
build_answers-get questions k a [] m h (inl (j, b, r, e, g, f)) = absurd e
build_answers-get questions k a [] m h (inr g) = g
build_answers-get questions k a ((i, x) ∷ l) m h o =
    build_answers-get questions k a l _ (λ j b r e. h j b r (inr e))
      (elim (Option-cases (get_elem? questions i)) [
        | inl n ↦ rw n (elim o [
          | inl (j, b, r, inl (e, f), g, t) ↦
              absurd (ground (arith, ap (get_elem? questions) e, n, g))
          | inl (j, b, r, inr e, g, t) ↦ inl (j, b, r, e, g, t)
          | inr g ↦ inr g
        ])
        | inr (q, n) ↦ rw n (elim (String-cases q.question k) [
          | inl (e, c) ↦
              inr (get-put q.question k x m ∙ rw c (ap some (h i x q (inl (refl, refl)) n e)))
          | inr (e, c) ↦ elim o [
            | inl (j, b, r, inl (f, f'), g, t) ↦
                absurd (e (ground (arith, ap (get_elem? questions) f, n, g, t)))
            | inl (j, b, r, inr f, g, t) ↦ inl (j, b, r, f, g, t)
            | inr g ↦ inr (get-put q.question k x m ∙ rw c g)
          ]
        ])
      ])

pub build_answers-none :
    (questions : List UserQuestion) (k : String) (l : List (ℕ × String)) (m : GoMap String)
    → ((i : ℕ) (q : UserQuestion) → get_elem? questions i ≡ some q → q.question ≢ k)
    → get k m ≡ none
    → get k (build_answers questions l m) ≡ none
unfolding build_answers
build_answers-none questions k [] m h e = e
build_answers-none questions k ((i, x) ∷ l) m h e =
    build_answers-none questions k l _ h (elim (Option-cases (get_elem? questions i)) [
      | inl n ↦ rw n e
      | inr (q, n) ↦
          rw n (ground (arith, get-put q.question k x m, eq_iff q.question k, h i q n, e))
    ])
