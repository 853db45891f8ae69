-- ===== src/Tests/Permissions.antt =====
-- Runs of the answers to an agent in core/engine.go.
use cc2wechat.Prelude.{
  ℕ, zero, suc, List, arith, ◌⊎◌, inl, inr, ◌≢◌, sym, ◌∙◌, String-cases, String, ◌≡◌, refl, Bool,
  true, false, Option, none, some, [], ◌∷◌, ◌==◌, if◌then◌else◌,
}
use cc2wechat.Prelude.Lists.{contains}
use cc2wechat.Prelude.Text.{after_colon, before_colon, append}
use cc2wechat.Permission.{
  UserQuestion, PendingPermission, PermissionState, unchanged, allow, deny, waits, resolves, hint,
  approved_all, denied, fields, join_labels, numbered_option, numbered_options, button_option,
  typed_options, resolve_ask_question_answer, respond, decide, answer_pending,
  handle_pending_permission, is_approve_all_response, is_allow_response, is_deny_response,
}
use cc2wechat.Permission.Answers.{AreDistinct, Visits}
use cc2wechat.Permission.Questions.{answer_all, IsAnswered, answer_all-IsAnswered}

abbrev same : String → String
same s = s

abbrev small : String → Option ℕ
small s = if s == "1" then some 1 else if s == "2" then some 2 else none

abbrev takes : String → Bool
takes id = true

-- A range that visits the second answer first.
abbrev visit : List (ℕ × String) → List (ℕ × String)
visit [] = []
visit (x ∷ []) = x ∷ []
visit (x ∷ y ∷ l) = y ∷ x ∷ l

abbrev color : UserQuestion
color = record { question = "Color?"; options = "red" ∷ "blue" ∷ []; multi_select = true }

abbrev size : UserQuestion
size = record { question = "Size?"; options = "big" ∷ []; multi_select = false }

abbrev request : PendingPermission
request = record {
  request_id = "r1";
  tool_input = [];
  questions = color ∷ size ∷ [];
  answers = [];
  current_question = 0;
}

abbrev asking : PermissionState
asking = record { pending = some request; approve_all = false }

text-some : {q r : UserQuestion} → some q ≡ some r → q.question ≡ r.question
text-some g = cc g

different :
    {q r : UserQuestion} → some color ≡ some q → some size ≡ some r → q.question ≢ r.question
different {q} {r} g h e = elim (String-cases color.question size.question) [
  | inl (f, b) ↦ absurd (ground (arith, b))
  | inr (f, b) ↦ f (text-some g ∙ e ∙ sym (text-some h))
]

distinct : AreDistinct request.questions
distinct zero zero q r g h e = refl
distinct zero (suc zero) q r g h e = absurd (different g h e)
distinct (suc zero) zero q r g h e = absurd (different h g (sym e))
distinct (suc zero) (suc zero) q r g h e = refl
distinct zero (suc (suc j)) q r g h e = cc
distinct (suc zero) (suc (suc j)) q r g h e = cc
distinct (suc (suc i)) j q r g h e = cc

swap : {A B C : Type 0} → A ⊎ (B ⊎ C) → B ⊎ (A ⊎ C)
swap (inl a) = inr (inl a)
swap (inr (inl b)) = inl b
swap (inr (inr c)) = inr (inr c)

visits : Visits visit
visits i a [] = (λ e. e, λ e. e)
visits i a (x ∷ []) = (λ e. e, λ e. e)
visits i a (x ∷ y ∷ l) = (λ e. swap e, λ e. swap e)

answer_all-IsAnswered_example :
    IsAnswered same same small takes visit asking request
      ("1, 2" ∷ "askq:0:1" ∷ [])
      (answer_all same same small takes visit ("1, 2" ∷ "askq:0:1" ∷ []) asking)
answer_all-IsAnswered_example =
    answer_all-IsAnswered same same small takes visit ("1, 2" ∷ "askq:0:1" ∷ []) asking request
      color (size ∷ []) visits distinct refl refl refl refl refl

-- Numbers and buttons choose options; all else is the answer itself.
answers :
    (resolve_ask_question_answer same same small takes visit color "2,1" ≡ "blue, red")
    × (resolve_ask_question_answer same same small takes visit size "askq:0:1" ≡ "big")
    × (resolve_ask_question_answer same same small takes visit size "2" ≡ "2")
unfolding resolve_ask_question_answer button_option numbered_option numbered_options typed_options
    fields join_labels before_colon after_colon append
answers = (refl, refl, refl)

abbrev tool : PendingPermission
tool = record request { questions = [] }

-- A decision resolves the request, and anything else leaves it.
decisions :
    let s : PermissionState = record { pending = some tool; approve_all = false } in
    (handle_pending_permission same same small takes visit "allow all" s
      ≡ resolves
          (record { pending = none; approve_all = true })
          "r1"
          (allow (unchanged []))
          approved_all)
    × (handle_pending_permission same same small takes visit "no" s
        ≡ resolves (record { pending = none; approve_all = false }) "r1" deny denied)
    × (handle_pending_permission same same small takes visit "perhaps" s ≡ waits s (hint ∷ []))
unfolding handle_pending_permission answer_pending decide respond is_approve_all_response
    is_allow_response is_deny_response contains
decisions = (refl, refl, refl)
