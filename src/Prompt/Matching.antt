-- ===== src/Prompt/Matching.antt =====
-- The placeholders of core/command.go as they are written, and the match of one.
use Prim.Native.Char.{Char, code}
use cc2wechat.Prelude.{ℕ, String, ◌≡◌, refl, true, false, Option, none, some, arith, eqb, ◌==◌}
use cc2wechat.Prelude.Text.{append}
use cc2wechat.Prompt.{
  Key, all_args, at, from, after_prefix, is_digit, span_digits, span_default, scan_number, numbered,
  match_key, match_default, match_placeholder,
}

-- A key as it is written; a number by its digits.
pub data Spelling : Type 0 where
  args : Spelling
  one : String → Spelling
  rest_from : String → Spelling

abbrev pub key_of : Spelling → Key
key_of args = all_args
key_of (one digits) = at (scan_number 0 digits)
key_of (rest_from digits) = from (scan_number 0 digits)

-- All characters are digits.
abbrev pub AreDigits : String → Type 0
AreDigits String.[] = Unit {0}
AreDigits (String.◌∷◌ c s) = (is_digit c ≡ true) × AreDigits s

abbrev pub IsSpelling : Spelling → Type 0
IsSpelling args = Unit {0}
IsSpelling (one digits) = ((digits == "") ≡ false) × AreDigits digits
IsSpelling (rest_from digits) = ((digits == "") ≡ false) × AreDigits digits

-- No character has the number.
abbrev pub IsFreeOf : ℕ → String → Type 0
IsFreeOf n String.[] = Unit {0}
IsFreeOf n (String.◌∷◌ c s) = (eqb (code c) n ≡ false) × IsFreeOf n s

abbrev pub IsDefault : Option String → Type 0
IsDefault none = Unit {0}
IsDefault (some text) = IsFreeOf 125 text

-- The end of a placeholder, before a text: what stands behind the key.
abbrev pub default_then : Option String → String → String
default_then none t = String.◌∷◌ "}" (String.◌∷◌ "}" t)
default_then (some text) t = String.◌∷◌ ":" (append text (String.◌∷◌ "}" (String.◌∷◌ "}" t)))

abbrev pub key_then : Spelling → String → String
key_then args t = append "args" t
key_then (one digits) t = append digits t
key_then (rest_from digits) t = append digits (String.◌∷◌ "*" t)

abbrev pub hole_then : Spelling → Option String → String → String
hole_then key default t = String.◌∷◌ "{" (String.◌∷◌ "{" (key_then key (default_then default t)))

-- A text that does not begin with a digit.
abbrev StartsOther : String → Type 0
StartsOther String.[] = Unit {0}
StartsOther (String.◌∷◌ c s) = is_digit c ≡ false

span_digits-append :
    (digits t : String)
    → AreDigits digits
    → StartsOther t
    → span_digits (append digits t) ≡ (digits, t)
unfolding span_digits append
span_digits-append String.[] String.[] d o = refl
span_digits-append String.[] (String.◌∷◌ c t) d o = ground arith
span_digits-append (String.◌∷◌ c digits) t d o =
    rw (span_digits-append digits t d.1 o, span_digits) (rw d.0 refl)

span_default-append :
    (text t : String)
    → IsFreeOf 125 text
    → span_default (append text (String.◌∷◌ "}" t)) ≡ (text, String.◌∷◌ "}" t)
unfolding span_default append
span_default-append String.[] t f = refl
span_default-append (String.◌∷◌ c text) t f =
    rw (span_default-append text t f.1, span_default) (rw f.0 refl)

default-StartsOther : (default : Option String) (t : String) → StartsOther (default_then default t)
default-StartsOther none t = refl
default-StartsOther (some text) t = refl

match_default-then :
    (default : Option String) (t : String)
    → IsDefault default
    → match_default (default_then default t) ≡ (default, String.◌∷◌ "}" (String.◌∷◌ "}" t))
unfolding match_default after_prefix
match_default-then none t d = refl
match_default-then (some text) t d = rw (span_default-append text (String.◌∷◌ "}" t) d) refl

-- Digits are not the word args.
digits_not_args :
    (digits t : String)
    → (digits == "") ≡ false
    → AreDigits digits
    → after_prefix "args" (append digits t) ≡ none
unfolding after_prefix append
digits_not_args String.[] t n d = cc n
digits_not_args (String.◌∷◌ c digits) t n d = ground (arith, d.0)

not_star : (default : Option String) (t : String) → after_prefix "*" (default_then default t) ≡ none
unfolding after_prefix
not_star none t = refl
not_star (some text) t = refl

match_key-then :
    (key : Spelling) (default : Option String) (t : String)
    → IsSpelling key
    → match_key (key_then key (default_then default t)) ≡ some (key_of key, default_then default t)
unfolding match_key numbered after_prefix append
match_key-then args default t k = refl
match_key-then (one digits) default t k =
    rw (digits_not_args digits (default_then default t) k.0 k.1, match_key)
      (rw (span_digits-append digits (default_then default t) k.1 (default-StartsOther default t))
        (rw k.0 (rw (not_star default t, numbered) refl)))
match_key-then (rest_from digits) default t k =
    rw (digits_not_args digits (String.◌∷◌ "*" (default_then default t)) k.0 k.1, match_key)
      (rw (span_digits-append digits (String.◌∷◌ "*" (default_then default t)) k.1 refl)
        (rw k.0 refl))

-- A written placeholder is matched.
pub match_placeholder-hole :
    (key : Spelling) (default : Option String) (t : String)
    → IsSpelling key
    → IsDefault default
    → match_placeholder (hole_then key default t) ≡ some (key_of key, default, t)
unfolding match_placeholder after_prefix
match_placeholder-hole key default t k d =
    rw (match_key-then key default t k) (rw (match_default-then default t d) refl)

-- Only an opening brace starts a placeholder.
pub match_placeholder-none :
    (c : Char) (s : String) → eqb (code c) 123 ≡ false → match_placeholder (String.◌∷◌ c s) ≡ none
unfolding match_placeholder after_prefix
match_placeholder-none c s h = ground arith
