-- ===== src/Tests/Prompts.antt =====
-- Runs of core/command.go.
use cc2wechat.Prelude.{String, ◌≡◌, refl, none, some, List, [], ◌∷◌, ltb, if◌then◌else◌, arith}
use cc2wechat.Prelude.Lists.{length}
use cc2wechat.Prelude.GoMap.{get, put, delete}
use cc2wechat.Prelude.Text.{append}
use cc2wechat.Prompt.{
  CustomCommand, new_command_registry, add, remove, resolve, find_normal, normalize_command_name,
  hyphens_to_underscores, after_prefix, span_digits, span_default, scan_number, numbered, match_key,
  match_default, match_placeholder, join, replacement, has_placeholder, replace_all, expand_prompt,
}
use cc2wechat.Prompt.Matching.{one, rest_from}
use cc2wechat.Prompt.Expansion.{
  Piece, literal, hole, write_template, ArePieces, has_hole, meaning, expand_prompt-template,
}

abbrev pieces : List Piece
pieces =
    literal "Review "
    ∷ hole (one "1") none
    ∷ literal " with "
    ∷ hole (rest_from "2") (some "care")
    ∷ []

written : write_template pieces ≡ "Review {{1}} with {{2*:care}}"
unfolding append
written = refl

abbrev files : List String
files = "main.go" ∷ []

pieces-ArePieces : ArePieces pieces
pieces-ArePieces = ground arith

expand_prompt-template_example : expand_prompt (write_template pieces) files ≡ (
    if has_hole pieces
    then meaning files pieces
    else if ltb 0 (length files)
    then append (write_template pieces) (append "\n\n" (join files))
    else write_template pieces)
expand_prompt-template_example = expand_prompt-template files pieces pieces-ArePieces

-- A brace that opens no placeholder stays.
expanded : expand_prompt "a {{x}} {{1}}{{args:none}}" ("b" ∷ "c" ∷ []) ≡ "a {{x}} bb c"
unfolding expand_prompt has_placeholder replace_all match_placeholder match_key match_default
    after_prefix span_digits span_default numbered scan_number replacement join append
expanded = refl

appended : expand_prompt "a {x}" ("b" ∷ "c" ∷ []) ≡ "a {x}\n\nb c"
unfolding expand_prompt has_placeholder match_placeholder match_key after_prefix join append
appended = refl

abbrev same : String → String
same s = s

abbrev command : CustomCommand
command = record {
  name = "go";
  description = "";
  prompt = "x";
  exec = "";
  work_dir = "";
  source = "config";
}

resolved :
    let r = add same command new_command_registry in
    (resolve same (λ d n. none) "go" r ≡ some command)
    × (resolve same (λ d n. none) "go" (remove same "go" r).0 ≡ none)
unfolding add remove resolve find_normal normalize_command_name hyphens_to_underscores get put
    delete
resolved = (refl, refl)
