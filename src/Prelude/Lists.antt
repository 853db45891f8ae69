-- ===== src/Prelude/Lists.antt =====
-- Lists measured and searched by native numbers and Boolean tests.
use Prim.Native.Nat.{ℕ, zero, suc, ◌+◌, ◌-◌, ◌≤◌, min}
use Prim.Native.String.{String}
use mathlib.Core.Path.{◌≡◌, refl, ap}
use mathlib.Core.Bool.{Bool, false, ◌||◌}
use mathlib.Core.List.{List, [], ◌∷◌, ◌++◌}
use native.Mathlib.Omega.{arith}
use text.Mathlib.Text.{◌==◌}
use text.Mathlib.TextEquality.{eq_iff}
use cc2wechat.Prelude.Tests.{if◌then◌else◌}

module _ {ℓ} {A : Type ℓ} where
  abbrev pub length : List A → ℕ
  length [] = 0
  length (x ∷ xs) = suc (length xs)

  abbrev pub take : ℕ → List A → List A
  take zero xs = []
  take (suc n) [] = []
  take (suc n) (x ∷ xs) = x ∷ take n xs

  abbrev pub drop : ℕ → List A → List A
  drop zero xs = xs
  drop (suc n) [] = []
  drop (suc n) (x ∷ xs) = drop n xs

  pub length-append : (xs ys : List A) → length (xs ++ ys) ≡ length xs + length ys
  length-append [] ys = omega arith
  length-append (x ∷ xs) ys = omega (arith, length-append xs ys)

  pub take-append-drop : (n : ℕ) (xs : List A) → take n xs ++ drop n xs ≡ xs
  take-append-drop zero xs = refl
  take-append-drop (suc n) [] = refl
  take-append-drop (suc n) (x ∷ xs) = ap (λ (ys : List A). x ∷ ys) (take-append-drop n xs)

  pub length-take : (n : ℕ) (xs : List A) → length (take n xs) ≡ min n (length xs)
  length-take zero xs = omega arith
  length-take (suc n) [] = omega arith
  length-take (suc n) (x ∷ xs) = omega (arith, length-take n xs)

  pub length-drop : (n : ℕ) (xs : List A) → length (drop n xs) ≡ length xs - n
  length-drop zero xs = omega arith
  length-drop (suc n) [] = omega arith
  length-drop (suc n) (x ∷ xs) = omega (arith, length-drop n xs)

  -- `for … { if keep(x) { out = append(out, x) } }`
  unfoldable pub keep : (A → Bool) → List A → List A
  keep p [] = []
  keep p (x ∷ xs) = let rest = keep p xs in if p x then x ∷ rest else rest

  pub length-keep-le : (p : A → Bool) (xs : List A) → length (keep p xs) ≤ length xs
  unfolding keep
  length-keep-le p [] = omega arith
  length-keep-le p (x ∷ xs) = ground (arith, length-keep-le p xs)

-- `for _, y := range xs { if y == x { … } }`
unfoldable pub contains : String → List String → Bool
contains x [] = false
contains x (y ∷ ys) = y == x || contains x ys

-- `append(xs[:i], xs[i+1:]...)` at the first `i` that holds `x`, if any.
unfoldable pub remove_first : String → List String → List String
remove_first x [] = []
remove_first x (y ∷ ys) = if y == x then ys else y ∷ remove_first x ys

-- No text stands twice in the list.
abbrev pub Distinct : List String → Type 0
Distinct [] = Unit {0}
Distinct (x ∷ xs) = (contains x xs ≡ false) × Distinct xs

pub contains-append :
    (x : String) (xs ys : List String) → contains x (xs ++ ys) ≡ (contains x xs || contains x ys)
unfolding contains
contains-append x [] ys = refl
contains-append x (y ∷ xs) ys = ground (arith, contains-append x xs ys)

pub contains-remove_first_ne :
    (x y : String) (xs : List String)
    → (x == y) ≡ false
    → contains x (remove_first y xs) ≡ contains x xs
unfolding contains remove_first
contains-remove_first_ne x y [] h = refl
contains-remove_first_ne x y (z ∷ xs) h =
    ground (arith, eq_iff z y, eq_iff z x, eq_iff x y, contains-remove_first_ne x y xs h)

pub contains-remove_first_self :
    (x : String) (xs : List String) → Distinct xs → contains x (remove_first x xs) ≡ false
unfolding contains remove_first
contains-remove_first_self x [] d = refl
contains-remove_first_self x (y ∷ xs) d =
    ground (arith, eq_iff y x, contains-remove_first_self x xs d.1)

-- Removal makes nothing appear.
pub contains-remove_first_le :
    (x y : String) (xs : List String)
    → contains x xs ≡ false
    → contains x (remove_first y xs) ≡ false
unfolding contains remove_first
contains-remove_first_le x y [] h = refl
contains-remove_first_le x y (z ∷ xs) h = ground (arith, contains-remove_first_le x y xs)

pub remove_first-Distinct :
    (x : String) (xs : List String) → Distinct xs → Distinct (remove_first x xs)
unfolding remove_first
remove_first-Distinct x [] d = tt
remove_first-Distinct x (y ∷ xs) d =
    ground (arith, contains-remove_first_le y x xs, remove_first-Distinct x xs d.1)

pub append-Distinct :
    (x : String) (xs : List String) → contains x xs ≡ false → Distinct xs → Distinct (xs ++ x ∷ [])
unfolding contains
append-Distinct x [] h d = (refl, tt)
append-Distinct x (y ∷ xs) h d =
    ground (arith, eq_iff x y, eq_iff y x, contains-append y xs (x ∷ []), append-Distinct x xs)
