-- ===== src/Prelude/Text.antt =====
-- Texts as sequences of characters, cut at colons.
use Prim.Native.Nat.{ℕ, zero, suc}
use Prim.Native.Char.{Char, code}
use Prim.Native.String.{String}
use mathlib.Core.Path.{◌≡◌, refl}
use mathlib.Core.Bool.{Bool, false, ◌||◌}
use mathlib.Core.Option.{Option, none, some}
use native.Mathlib.Omega.{arith}
use cc2wechat.Prelude.Tests.{eqb, if◌then◌else◌}

abbrev pub is_colon : Char → Bool
is_colon c = eqb (code c) 58

-- The text behind the first colon, if there is one.
unfoldable pub after_colon : String → Option String
after_colon String.[] = none
after_colon (String.◌∷◌ c s) = let rest = after_colon s in if is_colon c then some s else rest

-- The text before the first colon, or all of it.
unfoldable pub before_colon : String → String
before_colon String.[] = String.[]
before_colon (String.◌∷◌ c s) =
    let rest = before_colon s in if is_colon c then String.[] else String.◌∷◌ c rest

unfoldable pub has_colon : String → Bool
has_colon String.[] = false
has_colon (String.◌∷◌ c s) = is_colon c || has_colon s

unfoldable pub append : String → String → String
append String.[] t = t
append (String.◌∷◌ c s) t = String.◌∷◌ c (append s t)

-- `s + ":" + t`
unfoldable pub colon : String → String → String
unfolding append
colon s t = append s (String.◌∷◌ ":" t)

pub after_colon-colon : (s t : String) → has_colon s ≡ false → after_colon (colon s t) ≡ some t
unfolding after_colon colon has_colon append
after_colon-colon String.[] t h = refl
after_colon-colon (String.◌∷◌ c s) t h = ground (arith, after_colon-colon s t)

pub before_colon-colon : (s t : String) → has_colon s ≡ false → before_colon (colon s t) ≡ s
unfolding before_colon colon has_colon append
before_colon-colon String.[] t h = refl
before_colon-colon (String.◌∷◌ c s) t h = ground (arith, before_colon-colon s t)

-- The number of characters, and the first of them.
abbrev pub count_chars : String → ℕ
count_chars String.[] = 0
count_chars (String.◌∷◌ c s) = suc (count_chars s)

abbrev pub first_chars : ℕ → String → String
first_chars zero s = String.[]
first_chars (suc n) String.[] = String.[]
first_chars (suc n) (String.◌∷◌ c s) = String.◌∷◌ c (first_chars n s)
