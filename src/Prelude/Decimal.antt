-- ===== src/Prelude/Decimal.antt =====
-- The decimal digits that `fmt.Sprintf("%d", n)` prints of a number that is not negative.
use Prim.Native.Nat.{ℕ, zero, suc, ◌+◌, ◌-◌, ◌*◌, ◌/◌, ◌%◌, ◌<◌}
use Prim.Native.Char.{Char, code}
use Prim.Native.String.{String}
use mathlib.Core.Path.{◌≡◌, refl, sym, ap, ◌∙◌}
use native.Mathlib.Omega.{arith}
use mathlib.Core.Logic.{inl, inr}
use cc2wechat.Prelude.Tests.{ltb, if◌then◌else◌, ltb→lt, Bool-cases}

digit : ℕ → Char
digit zero = "0"
digit (suc zero) = "1"
digit (suc (suc zero)) = "2"
digit (suc (suc (suc zero))) = "3"
digit (suc (suc (suc (suc zero)))) = "4"
digit (suc (suc (suc (suc (suc zero))))) = "5"
digit (suc (suc (suc (suc (suc (suc zero)))))) = "6"
digit (suc (suc (suc (suc (suc (suc (suc zero))))))) = "7"
digit (suc (suc (suc (suc (suc (suc (suc (suc zero)))))))) = "8"
digit (suc (suc (suc (suc (suc (suc (suc (suc (suc n))))))))) = "9"

code-digit : (d : ℕ) → d < 10 → code (digit d) ≡ 48 + d
unfolding digit
code-digit zero h = refl
code-digit (suc zero) h = refl
code-digit (suc (suc zero)) h = refl
code-digit (suc (suc (suc zero))) h = refl
code-digit (suc (suc (suc (suc zero)))) h = refl
code-digit (suc (suc (suc (suc (suc zero))))) h = refl
code-digit (suc (suc (suc (suc (suc (suc zero)))))) h = refl
code-digit (suc (suc (suc (suc (suc (suc (suc zero))))))) h = refl
code-digit (suc (suc (suc (suc (suc (suc (suc (suc zero)))))))) h = refl
code-digit (suc (suc (suc (suc (suc (suc (suc (suc (suc n))))))))) h = omega arith

-- Digits from the lowest up, in front of those already printed. The fuel `n + 1` is enough.
emit : ℕ → ℕ → String → String
emit zero n out = out
emit (suc fuel) n out =
    let rest = emit fuel (n / 10) (String.◌∷◌ (digit (n % 10)) out) in
    if ltb n 10 then String.◌∷◌ (digit n) out else rest

unfoldable pub decimal : ℕ → String
unfolding emit digit
decimal n = emit (suc n) n ""

-- The number that a run of digits spells.
read : ℕ → String → ℕ
read n String.[] = n
read n (String.◌∷◌ c s) = read (n * 10 + (code c - 48)) s

last_digit : (n : ℕ) → n < 10 → 0 * 10 + (code (digit n) - 48) ≡ n
last_digit n h = omega (arith, code-digit n h)

next_digit : (n : ℕ) → n / 10 * 10 + (code (digit (n % 10)) - 48) ≡ n
next_digit n = omega (arith, code-digit (n % 10))

read-emit : (fuel n : ℕ) (out : String) → n < fuel → read 0 (emit fuel n out) ≡ read n out
unfolding emit read
read-emit zero n out h = absurd (omega arith)
read-emit (suc fuel) n out h = elim (Bool-cases (ltb n 10)) [
  | inl small ↦ rw small (ap (λ (k : ℕ). read k out) (last_digit n (ltb→lt n 10 small)))
  | inr large ↦ rw large (
      read-emit fuel (n / 10) (String.◌∷◌ (digit (n % 10)) out) (ground arith)
      ∙ ap (λ (k : ℕ). read k out) (next_digit n))
]

read-decimal : (n : ℕ) → read 0 (decimal n) ≡ n
unfolding read
read-decimal n = unfold decimal in read-emit (suc n) n "" (omega arith)

pub decimal_injective : (m n : ℕ) → decimal m ≡ decimal n → m ≡ n
decimal_injective m n e = sym (read-decimal m) ∙ ap (read 0) e ∙ read-decimal n

-- A letter in front keeps the texts apart.
tail : String → String
tail String.[] = String.[]
tail (String.◌∷◌ c s) = s

pub prefixed_injective :
    (c : Char) (m n : ℕ) → String.◌∷◌ c (decimal m) ≡ String.◌∷◌ c (decimal n) → m ≡ n
unfolding tail
prefixed_injective c m n e = decimal_injective m n (ap tail e)

decimal_120 : decimal 120 ≡ "120"
unfolding decimal
decimal_120 = refl
