-- ===== src/Commands.antt =====
-- Names of commands in core/engine.go: `matchPrefix`, `matchSubCommand` and `resolveDisabledCmds`. The
-- table of built-in commands and `strings.ToLower` are parameters.
pub mod Matching
pub mod Disabled
use Prim.Native.Char.{code}
use cc2wechat.Prelude.{
  String, Bool, true, false, not, ◌&&◌, ◌||◌, Option, none, some, List, [], ◌∷◌, eqb, ◌==◌,
  if◌then◌else◌,
}
use cc2wechat.Prelude.Lists.{contains}
use cc2wechat.Prelude.GoMap.{GoMap, put}

-- An entry of `builtinCommands`.
pub record Candidate : Type 0 where
  pub names : List String
  pub id : String

-- `strings.HasPrefix(n, prefix)`
unfoldable pub has_prefix : String → String → Bool
has_prefix n String.[] = true
has_prefix String.[] (String.◌∷◌ c prefix) = false
has_prefix (String.◌∷◌ d n) (String.◌∷◌ c prefix) = eqb (code d) (code c) && has_prefix n prefix

-- The loop over exact matches.
unfoldable pub exact_match : String → List Candidate → Option String
exact_match prefix [] = none
exact_match prefix (c ∷ cs) = if contains prefix c.names then some c.id else exact_match prefix cs

-- The loop over the names of one candidate, up to the break.
unfoldable pub any_has_prefix : String → List String → Bool
any_has_prefix prefix [] = false
any_has_prefix prefix (n ∷ names) = has_prefix n prefix || any_has_prefix prefix names

-- The loop over prefix matches, with what is matched so far.
unfoldable pub prefix_match : String → String → List Candidate → String
prefix_match prefix matched [] = matched
prefix_match prefix matched (c ∷ cs) =
    let skip = prefix_match prefix matched cs in
    let take_it = prefix_match prefix c.id cs in
    if any_has_prefix prefix c.names
    then (if not (matched == "") && not (matched == c.id) then "" else take_it)
    else skip

unfoldable pub match_prefix : String → List Candidate → String
match_prefix prefix candidates = elim (exact_match prefix candidates) [
  | some id ↦ id
  | none ↦ prefix_match prefix "" candidates
]

unfoldable pub sub_match : String → String → List String → String
sub_match input matched [] = if matched == "" then input else matched
sub_match input matched (c ∷ cs) =
    let skip = sub_match input matched cs in
    let take_it = sub_match input c cs in
    if has_prefix c input then (if matched == "" then take_it else input) else skip

unfoldable pub match_sub_command : String → List String → String
match_sub_command input candidates =
    if contains input candidates then input else sub_match input "" candidates

-- `strings.TrimPrefix(c, "/")`
unfoldable pub trim_slash : String → String
trim_slash String.[] = String.[]
trim_slash (String.◌∷◌ c s) = if eqb (code c) 47 then s else String.◌∷◌ c s

unfoldable pub put_ids : List Candidate → GoMap (Unit {0}) → GoMap (Unit {0})
put_ids [] m = m
put_ids (c ∷ cs) m = put_ids cs (put c.id tt m)

module _ (to_lower : String → String) (builtin_commands : List Candidate) where
  unfoldable pub normal_name : String → String
  normal_name c = to_lower (trim_slash c)

  -- The id under which a normal name is disabled.
  unfoldable pub disabled_id : String → String
  disabled_id c = let id = match_prefix c builtin_commands in if id == "" then c else id

  unfoldable pub resolve_from : List String → GoMap (Unit {0}) → GoMap (Unit {0})
  resolve_from [] m = m
  resolve_from (c ∷ cmds) m =
      let rest = resolve_from cmds (put (disabled_id (normal_name c)) tt m) in
      if normal_name c == "*" then put_ids builtin_commands m else rest

  unfoldable pub resolve_disabled_cmds : List String → GoMap (Unit {0})
  resolve_disabled_cmds cmds = resolve_from cmds []
