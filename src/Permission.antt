-- ===== src/Permission.antt =====
-- Answers to permission requests and questions of an agent, in core/engine.go: `handlePendingPermission` and
-- what it calls. `strings.TrimSpace`, `strings.ToLower` and `strconv.Atoi` are parameters, and whether the
-- agent takes the response, and the order in which a `range` visits the answers. A JSON value is known by a text.
pub mod Answers
pub mod Questions
use Prim.Native.Char.{Char, code}
use cc2wechat.Prelude.{
  ℕ, zero, suc, ◌+◌, ◌-◌, String, Bool, true, false, not, ◌&&◌, ◌||◌, Option, none, some, List, [],
  ◌∷◌, ltb, leb, eqb, ◌==◌, if◌then◌else◌,
}
use cc2wechat.Prelude.Lists.{length, contains}
use cc2wechat.Prelude.GoMap.{GoMap, put}
use cc2wechat.Prelude.Text.{append, after_colon, before_colon}

-- The options are known by their labels.
pub record UserQuestion : Type 0 where
  pub question : String
  pub options : List String
  pub multi_select : Bool

pub record PendingPermission : Type 0 where
  pub request_id : String
  pub tool_input : GoMap String
  pub questions : List UserQuestion
  pub answers : List (ℕ × String)
  pub current_question : ℕ

pub record PermissionState : Type 0 where
  pub pending : Option PendingPermission
  pub approve_all : Bool

-- The input of the tool, as it was or with the answers under "answers".
pub data UpdatedInput : Type 0 where
  unchanged : GoMap String → UpdatedInput
  with_answers : GoMap String → GoMap String → UpdatedInput

pub data PermissionResult : Type 0 where
  allow : UpdatedInput → PermissionResult
  deny : PermissionResult

-- The replies to the user.
pub data Note : Type 0 where
  answer_taken : String → String → Note
  asks : ℕ → Note
  failed : Note
  approved_all : Note
  allowed : Note
  denied : Note
  hint : Note

-- A message is no answer; the request waits on; it is resolved, by a response under its id; or the program
-- panics, out of the range of the questions.
pub data Handled : Type 0 where
  unhandled : Handled
  waits : PermissionState → List Note → Handled
  resolves : PermissionState → String → PermissionResult → Note → Handled
  panics : Handled

abbrev pub get_elem? {ℓ} : {A : Type ℓ} → List A → ℕ → Option A
get_elem? [] i = none
get_elem? (x ∷ xs) zero = some x
get_elem? (x ∷ xs) (suc i) = get_elem? xs i

-- `answers[i] = a`
unfoldable pub put_at : ℕ → String → List (ℕ × String) → List (ℕ × String)
put_at i a [] = (i, a) ∷ []
put_at i a ((j, b) ∷ m) = if eqb j i then (i, a) ∷ m else (j, b) ∷ put_at i a m

-- `isApproveAllResponse`, `isAllowResponse` and `isDenyResponse`.
unfoldable pub is_approve_all_response : String → Bool
is_approve_all_response s = contains s (
    "allow all" ∷ "allowall" ∷ "approve all" ∷ "yes all" ∷ "允许所有" ∷ "允许全部" ∷ "全部允许" ∷ "所有允许" ∷ "都允许"
    ∷ "全部同意" ∷ [])

unfoldable pub is_allow_response : String → Bool
is_allow_response s =
    contains s
      ("allow" ∷ "yes" ∷ "y" ∷ "ok" ∷ "允许" ∷ "同意" ∷ "可以" ∷ "好" ∷ "好的" ∷ "是" ∷ "确认" ∷ "approve" ∷ [])

unfoldable pub is_deny_response : String → Bool
is_deny_response s =
    contains s
      ("deny" ∷ "no" ∷ "n" ∷ "reject" ∷ "拒绝" ∷ "不允许" ∷ "不行" ∷ "不" ∷ "否" ∷ "取消" ∷ "cancel" ∷ [])

-- A comma, a wide comma or a space.
abbrev pub separates : Char → Bool
separates c = eqb (code c) 44 || eqb (code c) 65292 || eqb (code c) 32

abbrev pub ends_field : String → Bool
ends_field String.[] = true
ends_field (String.◌∷◌ c s) = separates c

abbrev pub onto_first : Char → List String → List String
onto_first c [] = String.◌∷◌ c String.[] ∷ []
onto_first c (f ∷ fields) = String.◌∷◌ c f ∷ fields

-- `strings.FieldsFunc`
unfoldable pub fields : String → List String
fields String.[] = []
fields (String.◌∷◌ c s) =
    let rest = fields s in
    if separates c
    then rest
    else if ends_field s
    then String.◌∷◌ c String.[] ∷ rest
    else onto_first c rest

-- `strings.Join(labels, ", ")`
unfoldable pub join_labels : List String → String
join_labels [] = ""
join_labels (a ∷ []) = a
join_labels (a ∷ b ∷ labels) = append a (append ", " (join_labels (b ∷ labels)))

-- The loop over the collected answers, in the order in which the range visits them.
unfoldable pub build_answers : List UserQuestion → List (ℕ × String) → GoMap String → GoMap String
build_answers questions [] m = m
build_answers questions ((i, a) ∷ collected) m =
    build_answers questions collected
      (elim (get_elem? questions i) [ none ↦ m | some q ↦ put q.question a m ])

abbrev pub or_else : Option String → String → String
or_else none d = d
or_else (some s) d = s

module _ (trim_space to_lower : String → String) (atoi : String → Option ℕ)
    (responds : String → Bool) (range : List (ℕ × String) → List (ℕ × String)) where
  unfoldable pub build_ask_question_response :
      GoMap String → List UserQuestion → List (ℕ × String) → UpdatedInput
  build_ask_question_response input questions collected =
      with_answers input (build_answers questions (range collected) [])

  -- The option with a number from 1 on. A negative number is as good as 0.
  unfoldable pub numbered_option : List String → String → Option String
  numbered_option options s = elim (atoi s) [
    | none ↦ none
    | some n ↦ if leb 1 n then get_elem? options (n - 1) else none
  ]

  unfoldable pub numbered_options : List String → List String → Option (List String)
  numbered_options options [] = some []
  numbered_options options (p ∷ parts) = elim (numbered_option options (trim_space p)) [
    | none ↦ none
    | some label ↦ elim (numbered_options options parts) [
      | none ↦ none
      | some labels ↦ some (label ∷ labels)
    ]
  ]

  -- A button's text: "askq:question:option", or "askq:option".
  unfoldable pub button_option : List String → String → Option String
  button_option options input =
      if before_colon input == "askq"
      then elim (after_colon input) [
        | none ↦ none
        | some rest ↦ numbered_option options (or_else (after_colon rest) rest)
      ]
      else none

  unfoldable pub typed_options : Option (List String) → Option String
  typed_options none = none
  typed_options (some []) = none
  typed_options (some (l ∷ labels)) = some (join_labels (l ∷ labels))

  unfoldable pub resolve_ask_question_answer : UserQuestion → String → String
  resolve_ask_question_answer q raw =
      let input = trim_space raw in
      elim (button_option q.options input) [
        | some label ↦ label
        | none ↦
            or_else
              (if q.multi_select
                then typed_options (numbered_options q.options (fields input))
                else numbered_option q.options input)
              input
      ]

  -- The response, and the end of the request.
  unfoldable pub respond : PermissionState → String → PermissionResult → Note → Handled
  respond s id result note =
      resolves (record s { pending = none }) id result (if responds id then note else failed)

  unfoldable pub take_answer : PermissionState → PendingPermission → UserQuestion → String → Handled
  take_answer s p q a =
      let answers = put_at p.current_question a p.answers in
      if ltb (p.current_question + 1) (length p.questions)
      then waits
          (record s {
            pending =
                some (record p { answers = answers; current_question = p.current_question + 1 });
          })
          (answer_taken q.question a ∷ asks (p.current_question + 1) ∷ [])
      else respond s p.request_id
          (allow (build_ask_question_response p.tool_input p.questions answers))
          (answer_taken q.question a)

  unfoldable pub decide : PermissionState → PendingPermission → String → Handled
  decide s p lower =
      if is_approve_all_response lower
      then respond (record s { approve_all = true }) p.request_id (allow (unchanged p.tool_input))
          approved_all
      else if is_allow_response lower
      then respond s p.request_id (allow (unchanged p.tool_input)) allowed
      else if is_deny_response lower
      then resolves (record s { pending = none }) p.request_id deny denied
      else waits s (hint ∷ [])

  unfoldable pub answer_pending :
      PermissionState → PendingPermission → List UserQuestion → String → Handled
  answer_pending s p [] content = decide s p (to_lower (trim_space content))
  answer_pending s p (q ∷ questions) content = elim (get_elem? p.questions p.current_question) [
    | none ↦ panics
    | some current ↦ take_answer s p current (resolve_ask_question_answer current content)
  ]

  unfoldable pub handle_pending_permission : String → PermissionState → Handled
  handle_pending_permission content s = elim s.pending [
    | none ↦ unhandled
    | some p ↦ answer_pending s p p.questions content
  ]
