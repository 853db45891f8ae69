-- ===== src/Prompt/Expansion.antt =====
-- The expansion of a template of core/command.go, seen as its pieces: texts and placeholders.
use Prim.Native.Char.{Char}
use cc2wechat.Prelude.{
  ℕ, zero, suc, ◌-◌, ◌≤◌, String, ◌≡◌, ap, ◌∙◌, refl, Bool, true, false, Option, none, some, List,
  [], ◌∷◌, arith, ltb, if◌then◌else◌,
}
use cc2wechat.Prelude.Lists.{length}
use cc2wechat.Prelude.Text.{append, count_chars}
use cc2wechat.Prompt.{replacement, has_placeholder, replace_all, expand_prompt, join}
use cc2wechat.Prompt.Matching.{
  Spelling, args, one, rest_from, key_of, IsSpelling, IsFreeOf, IsDefault, default_then, key_then,
  hole_then, match_placeholder-hole, match_placeholder-none,
}

pub data Piece : Type 0 where
  literal : String → Piece
  hole : Spelling → Option String → Piece

-- The template that is written so.
abbrev pub write_template : List Piece → String
write_template [] = ""
write_template (literal text ∷ pieces) = append text (write_template pieces)
write_template (hole key default ∷ pieces) = hole_then key default (write_template pieces)

-- A literal text has no opening brace, a default no closing one, and a number has digits.
abbrev pub ArePieces : List Piece → Type 0
ArePieces [] = Unit {0}
ArePieces (literal text ∷ pieces) = IsFreeOf 123 text × ArePieces pieces
ArePieces (hole key default ∷ pieces) = IsSpelling key × IsDefault default × ArePieces pieces

abbrev pub has_hole : List Piece → Bool
has_hole [] = false
has_hole (literal text ∷ pieces) = has_hole pieces
has_hole (hole key default ∷ pieces) = true

-- Each placeholder stands for its replacement.
abbrev pub meaning : List String → List Piece → String
meaning a [] = ""
meaning a (literal text ∷ pieces) = append text (meaning a pieces)
meaning a (hole key default ∷ pieces) =
    append (replacement a (key_of key) default) (meaning a pieces)

-- A text and an end of it.
data IsEnd (t : String) : String → Type 0 where
  whole : IsEnd t t
  longer : {s : String} (c : Char) → IsEnd t s → IsEnd t (String.◌∷◌ c s)

append-IsEnd : (a : String) {t s : String} → IsEnd t s → IsEnd t (append a s)
unfolding append
append-IsEnd String.[] e = e
append-IsEnd (String.◌∷◌ c a) e = longer c (append-IsEnd a e)

default_then-IsEnd : (default : Option String) (t : String) → IsEnd t (default_then default t)
default_then-IsEnd none t = longer _ (longer _ whole)
default_then-IsEnd (some text) t = longer _ (append-IsEnd text (longer _ (longer _ whole)))

key_then-IsEnd : (key : Spelling) {t s : String} → IsEnd t s → IsEnd t (key_then key s)
key_then-IsEnd args e = append-IsEnd "args" e
key_then-IsEnd (one digits) e = append-IsEnd digits e
key_then-IsEnd (rest_from digits) e = append-IsEnd digits (longer _ e)

IsEnd-le : {t s : String} → IsEnd t s → count_chars t ≤ count_chars s
IsEnd-le whole = omega arith
IsEnd-le (longer c e) = omega (arith, IsEnd-le e)

-- The characters of a match are passed over.
replace_all-skip :
    (a : List String) {t s : String}
    → IsEnd t s
    → replace_all a (count_chars s - count_chars t) s ≡ replace_all a zero t
unfolding replace_all
replace_all-skip a {t} whole =
    let z : count_chars t - count_chars t ≡ 0 = omega arith in ap (λ (n : ℕ). replace_all a n t) z
replace_all-skip a {t} (longer {s} c e) =
    let z : suc (count_chars s) - count_chars t ≡ suc (count_chars s - count_chars t) =
      omega (arith, IsEnd-le e) in
    ap (λ (n : ℕ). replace_all a n (String.◌∷◌ c s)) z ∙ replace_all-skip a e

replace_all-append :
    (a : List String) (text t : String)
    → IsFreeOf 123 text
    → replace_all a zero (append text t) ≡ append text (replace_all a zero t)
unfolding replace_all append
replace_all-append a String.[] t f = refl
replace_all-append a (String.◌∷◌ c text) t f =
    rw (match_placeholder-none c (append text t) f.0, replace_all)
      (ap (λ (s : String). String.◌∷◌ c s) (replace_all-append a text t f.1))

replace_all-template :
    (a : List String) (pieces : List Piece)
    → ArePieces pieces
    → replace_all a zero (write_template pieces) ≡ meaning a pieces
unfolding replace_all
replace_all-template a [] p = refl
replace_all-template a (literal text ∷ pieces) p =
    replace_all-append a text (write_template pieces) p.0
    ∙ ap (append text) (replace_all-template a pieces p.1)
replace_all-template a (hole key default ∷ pieces) p =
    rw (match_placeholder-hole key default (write_template pieces) p.0 p.1, replace_all)
      (ap (append (replacement a (key_of key) default)) (
        replace_all-skip a (longer _ (key_then-IsEnd key (default_then-IsEnd default _)))
        ∙ replace_all-template a pieces p.2))

has_placeholder-append :
    (text t : String) → IsFreeOf 123 text → has_placeholder (append text t) ≡ has_placeholder t
unfolding has_placeholder append
has_placeholder-append String.[] t f = refl
has_placeholder-append (String.◌∷◌ c text) t f =
    rw (match_placeholder-none c (append text t) f.0, has_placeholder)
      (has_placeholder-append text t f.1)

has_placeholder-template :
    (pieces : List Piece)
    → ArePieces pieces
    → has_placeholder (write_template pieces) ≡ has_hole pieces
unfolding has_placeholder
has_placeholder-template [] p = refl
has_placeholder-template (literal text ∷ pieces) p =
    has_placeholder-append text (write_template pieces) p.0 ∙ has_placeholder-template pieces p.1
has_placeholder-template (hole key default ∷ pieces) p =
    rw (match_placeholder-hole key default (write_template pieces) p.0 p.1, has_placeholder) refl

-- For a template written from texts without an opening brace and placeholders, whose numbers
-- have digits and whose defaults have no closing brace: with a placeholder, the expansion is the
-- texts and the replacements one after the other; without one, the arguments, if any, follow the
-- template.
pub expand_prompt-template :
    (a : List String) (pieces : List Piece)
    → ArePieces pieces
    → expand_prompt (write_template pieces) a ≡ (
        if has_hole pieces
        then meaning a pieces
        else if ltb 0 (length a)
        then append (write_template pieces) (append "\n\n" (join a))
        else write_template pieces)
unfolding expand_prompt
expand_prompt-template a pieces p =
    rw (has_placeholder-template pieces p, replace_all-template a pieces p) refl
