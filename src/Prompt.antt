-- ===== src/Prompt.antt =====
-- The registry of custom commands and the expansion of their prompts, core/command.go. The expression of
-- `placeholderRe` matches in one way only at a place, and its parts are functions here. The agents'
-- directories, read by `Resolve` where the registry has no match, and `strings.ToLower` are parameters.
pub mod Matching
pub mod Expansion
use Prim.Native.Char.{Char, code}
use cc2wechat.Prelude.{
  ℕ, zero, suc, ◌+◌, ◌-◌, ◌*◌, String, Bool, true, false, not, ◌&&◌, Option, none, some, List, [],
  ◌∷◌, ltb, leb, eqb, ◌==◌, if◌then◌else◌,
}
use cc2wechat.Prelude.Lists.{length, drop}
use cc2wechat.Prelude.GoMap.{GoMap, get, put, delete, delete_if, has}
use cc2wechat.Prelude.Text.{append, count_chars}

pub record CustomCommand : Type 0 where
  pub name : String
  pub description : String
  pub prompt : String
  pub exec : String
  pub work_dir : String
  pub source : String

pub record CommandRegistry : Type 0 where
  pub commands : GoMap CustomCommand
  pub agent_dirs : List String

abbrev pub new_command_registry : CommandRegistry
new_command_registry = record { commands = []; agent_dirs = [] }

unfoldable pub clear_source : String → CommandRegistry → CommandRegistry
clear_source source r = record r {
  commands = delete_if (λ _ (c : CustomCommand). c.source == source) r.commands;
}

unfoldable pub set_agent_dirs : List String → CommandRegistry → CommandRegistry
set_agent_dirs dirs r = record r { agent_dirs = dirs }

-- `strings.ReplaceAll(s, "-", "_")`
unfoldable pub hyphens_to_underscores : String → String
hyphens_to_underscores String.[] = String.[]
hyphens_to_underscores (String.◌∷◌ c s) =
    String.◌∷◌ (if eqb (code c) 45 then "_" else c) (hyphens_to_underscores s)

module _ (to_lower : String → String) where
  -- The command has the name that it is given, and stands under its lower case.
  unfoldable pub add : CustomCommand → CommandRegistry → CommandRegistry
  add c r = record r { commands = put (to_lower c.name) c r.commands }

  unfoldable pub remove : String → CommandRegistry → CommandRegistry × Bool
  remove name r =
      if has (to_lower name) r.commands
      then (record r { commands = delete (to_lower name) r.commands }, true)
      else (r, false)

  unfoldable pub normalize_command_name : String → String
  normalize_command_name s = to_lower (hyphens_to_underscores s)

  unfoldable pub find_normal : String → GoMap CustomCommand → Option CustomCommand
  find_normal norm [] = none
  find_normal norm ((key, c) ∷ commands) =
      if normalize_command_name key == norm then some c else find_normal norm commands

  -- The commands of the registry come before those of the agents' directories.
  unfoldable pub resolve :
      (List String → String → Option CustomCommand)
      → String
      → CommandRegistry
      → Option CustomCommand
  resolve scan name r = elim (get (to_lower name) r.commands) [
    | some c ↦ some c
    | none ↦ elim (find_normal (normalize_command_name name) r.commands) [
      | some c ↦ some c
      | none ↦ scan r.agent_dirs name
    ]
  ]

-- What a placeholder asks for: all arguments, one, or one and those after it.
pub data Key : Type 0 where
  all_args : Key
  at : ℕ → Key
  from : ℕ → Key

-- The rest of a text behind a prefix.
unfoldable pub after_prefix : String → String → Option String
after_prefix String.[] s = some s
after_prefix (String.◌∷◌ p prefix) String.[] = none
after_prefix (String.◌∷◌ p prefix) (String.◌∷◌ c s) =
    if eqb (code p) (code c) then after_prefix prefix s else none

abbrev pub is_digit : Char → Bool
is_digit c = leb 48 (code c) && leb (code c) 57

-- `\d*`, and the rest.
unfoldable pub span_digits : String → String × String
span_digits String.[] = (String.[], String.[])
span_digits (String.◌∷◌ c s) =
    let (digits, rest) = span_digits s in
    if is_digit c then (String.◌∷◌ c digits, rest) else (String.[], String.◌∷◌ c s)

-- `[^}]*`, and the rest.
unfoldable pub span_default : String → String × String
span_default String.[] = (String.[], String.[])
span_default (String.◌∷◌ c s) =
    let (text, rest) = span_default s in
    if eqb (code c) 125 then (String.[], String.◌∷◌ c s) else (String.◌∷◌ c text, rest)

-- `fmt.Sscanf(key, "%d", &idx)`. A number too large for an int is past all arguments, as 0 is.
unfoldable pub scan_number : ℕ → String → ℕ
scan_number n String.[] = n
scan_number n (String.◌∷◌ c s) = scan_number (n * 10 + (code c - 48)) s

unfoldable pub numbered : String → String → Key × String
numbered digits rest = elim (after_prefix "*" rest) [
  | some rest' ↦ (from (scan_number 0 digits), rest')
  | none ↦ (at (scan_number 0 digits), rest)
]

-- `\d+\*?|args`
unfoldable pub match_key : String → Option (Key × String)
match_key s = elim (after_prefix "args" s) [
  | some rest ↦ some (all_args, rest)
  | none ↦
      let (digits, rest) = span_digits s in
      if digits == "" then none else some (numbered digits rest)
]

-- `(:[^}]*)?`
unfoldable pub match_default : String → Option String × String
match_default s = elim (after_prefix ":" s) [
  | none ↦ (none, s)
  | some s' ↦ let (text, rest) = span_default s' in (some text, rest)
]

match_end : Key → Option String × String → Option (Key × Option String × String)
match_end key (default, s) = elim (after_prefix "}}" s) [
  | none ↦ none
  | some rest ↦ some (key, default, rest)
]

match_inner : Option (Key × String) → Option (Key × Option String × String)
match_inner none = none
match_inner (some (key, s)) = match_end key (match_default s)

match_open : Option String → Option (Key × Option String × String)
match_open none = none
match_open (some s) = match_inner (match_key s)

-- A placeholder at the start of the text, and the rest.
unfoldable pub match_placeholder : String → Option (Key × Option String × String)
unfolding match_open match_inner match_end
match_placeholder s = match_open (after_prefix "{{" s)

-- `strings.Join(args, " ")`
unfoldable pub join : List String → String
join [] = ""
join (a ∷ []) = a
join (a ∷ b ∷ args) = append a (String.◌∷◌ " " (join (b ∷ args)))

abbrev pub or_blank : Option String → String
or_blank none = ""
or_blank (some s) = s

abbrev pub nth_or : String → ℕ → List String → String
nth_or d n [] = d
nth_or d zero (a ∷ args) = a
nth_or d (suc n) (a ∷ args) = nth_or d n args

-- What stands in the place of a placeholder.
unfoldable pub replacement : List String → Key → Option String → String
replacement args all_args default = if ltb 0 (length args) then join args else or_blank default
replacement args (from n) default =
    if ltb 0 n && ltb (n - 1) (length args) then join (drop (n - 1) args) else or_blank default
replacement args (at n) default =
    if ltb 0 n && ltb (n - 1) (length args) then nth_or "" (n - 1) args else or_blank default

-- `placeholderRe.MatchString`
unfoldable pub has_placeholder : String → Bool
has_placeholder String.[] = false
has_placeholder (String.◌∷◌ c s) = elim (match_placeholder (String.◌∷◌ c s)) [
  | none ↦ has_placeholder s
  | some m ↦ true
]

-- `placeholderRe.ReplaceAllStringFunc`, with the number of characters to pass over as parts of a match.
unfoldable pub replace_all : List String → ℕ → String → String
replace_all args n String.[] = String.[]
replace_all args (suc n) (String.◌∷◌ c s) = replace_all args n s
replace_all args zero (String.◌∷◌ c s) = elim (match_placeholder (String.◌∷◌ c s)) [
  | none ↦ String.◌∷◌ c (replace_all args zero s)
  | some (key, default, rest) ↦
      append (replacement args key default) (replace_all args (count_chars s - count_chars rest) s)
]

unfoldable pub expand_prompt : String → List String → String
expand_prompt template args =
    if has_placeholder template
    then replace_all args zero template
    else if ltb 0 (length args)
    then append template (append "\n\n" (join args))
    else template
