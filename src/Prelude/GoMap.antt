-- ===== src/Prelude/GoMap.antt =====
-- Go's `map[string]V` as an association list. A `range` over a map visits the entries in an order
-- that Go leaves open; here it is the list's order. A write replaces the entry of its key where it
-- stands, so a map built by these operations holds each key once (`Unique`).
use Prim.Native.Nat.{ℕ, suc, ◌+◌, ◌≤◌}
use Prim.Native.String.{String}
use mathlib.Core.Path.{◌≡◌, refl}
use mathlib.Core.Bool.{Bool, true, false}
use mathlib.Core.Option.{Option, none, some}
use mathlib.Core.List.{List, [], ◌∷◌}
use native.Mathlib.Omega.{arith}
use text.Mathlib.Text.{◌==◌}
use text.Mathlib.TextEquality.{eq_iff}
use cc2wechat.Prelude.Tests.{if◌then◌else◌}

abbrev pub GoMap {ℓ} : Type ℓ → Type ℓ
GoMap V = List (String × V)

module _ {ℓ} {V : Type ℓ} where
  -- `v, ok := m[k]`
  unfoldable pub get : String → GoMap V → Option V
  get k [] = none
  get k ((j, v) ∷ m) = if j == k then some v else get k m

  -- `m[k] = v`
  unfoldable pub put : String → V → GoMap V → GoMap V
  put k v [] = (k, v) ∷ []
  put k v ((j, w) ∷ m) = if j == k then (k, v) ∷ m else (j, w) ∷ put k v m

  -- `delete(m, k)`
  unfoldable pub delete : String → GoMap V → GoMap V
  delete k [] = []
  delete k ((j, w) ∷ m) = let rest = delete k m in if j == k then rest else (j, w) ∷ rest

  -- `for k, v := range m { if drop(k, v) { delete(m, k) } }`
  unfoldable pub delete_if : (String → V → Bool) → GoMap V → GoMap V
  unfolding delete
  delete_if drop [] = []
  delete_if drop ((j, w) ∷ m) =
      let rest = delete_if drop m in if drop j w then delete j rest else (j, w) ∷ rest

  -- `_, ok := m[k]`
  abbrev pub has : String → GoMap V → Bool
  has k m = elim (get k m) [ none ↦ false | some v ↦ true ]

  -- Each key stands once.
  abbrev pub Unique : GoMap V → Type ℓ
  Unique [] = Unit
  Unique ((j, w) ∷ m) = (get j m ≡ none) × Unique m

  pub get-put :
      (k j : String) (v : V) (m : GoMap V)
      → get j (put k v m) ≡ (if k == j then some v else get j m)
  unfolding get put
  get-put k j v [] = refl
  get-put k j v ((i, w) ∷ m) = ground (arith, eq_iff k j, eq_iff i k, eq_iff i j, get-put k j v m)

  pub get-delete :
      (k j : String) (m : GoMap V) → get j (delete k m) ≡ (if k == j then none else get j m)
  unfolding get delete
  get-delete k j [] = ground arith
  get-delete k j ((i, w) ∷ m) = ground (arith, get-delete k j m, eq_iff i k, eq_iff i j, eq_iff k j)

  abbrev pub keep_unless : (String → V → Bool) → String → Option V → Option V
  keep_unless drop k none = none
  keep_unless drop k (some v) = if drop k v then none else some v

  -- `get-delete` at the head's key, with the tail's answer already known.
  delete_if_step :
      (drop : String → V → Bool) (k j : String) (w : V) (m : GoMap V) (o : Option V)
      → get k m ≡ keep_unless drop k o
      → get k (if drop j w then delete j m else (j, w) ∷ m)
        ≡ keep_unless drop k (if j == k then some w else o)
  unfolding get
  delete_if_step drop k j w m none h = ground (arith, get-delete j k m, eq_iff j k)
  delete_if_step drop k j w m (some v) h = ground (arith, get-delete j k m, eq_iff j k)

  pub get-delete_if :
      (drop : String → V → Bool) (k : String) (m : GoMap V)
      → get k (delete_if drop m) ≡ keep_unless drop k (get k m)
  unfolding get delete_if
  get-delete_if drop k [] = refl
  get-delete_if drop k ((j, w) ∷ m) =
      delete_if_step drop k j w (delete_if drop m) (get k m) (get-delete_if drop k m)

  pub put-Unique : (k : String) (v : V) (m : GoMap V) → Unique m → Unique (put k v m)
  unfolding get put
  put-Unique k v [] u = (refl, tt)
  put-Unique k v ((j, w) ∷ m) u =
      ground (arith, eq_iff j k, eq_iff k j, get-put k j v m, put-Unique k v m u.1)

  pub delete-Unique : (k : String) (m : GoMap V) → Unique m → Unique (delete k m)
  unfolding get delete
  delete-Unique k [] u = tt
  delete-Unique k ((j, w) ∷ m) u = ground (arith, get-delete k j m, delete-Unique k m u.1)

  pub delete_if-Unique :
      (drop : String → V → Bool) (m : GoMap V) → Unique m → Unique (delete_if drop m)
  unfolding get delete_if
  delete_if-Unique drop [] u = tt
  delete_if-Unique drop ((j, w) ∷ m) u = ground (
    arith,
    get-delete_if drop j m,
    delete_if-Unique drop m u.1,
    delete-Unique j (delete_if drop m),
  )

  -- A write adds at most one entry.
  abbrev pub size : GoMap V → ℕ
  size [] = 0
  size (e ∷ m) = suc (size m)

  pub size-put-le : (k : String) (v : V) (m : GoMap V) → size (put k v m) ≤ size m + 1
  unfolding put
  size-put-le k v [] = omega arith
  size-put-le k v ((j, w) ∷ m) = ground (arith, size-put-le k v m)

module _ {ℓ κ} {V : Type ℓ} {W : Type κ} where
  -- `for k, v := range m { m[k] = f(k, v) }`
  unfoldable pub map_values : (String → V → W) → GoMap V → GoMap W
  map_values f [] = []
  map_values f ((j, v) ∷ m) = (j, f j v) ∷ map_values f m

  abbrev pub map_option : (V → W) → Option V → Option W
  map_option f none = none
  map_option f (some v) = some (f v)

  pub get-map_values :
      (f : String → V → W) (k : String) (m : GoMap V)
      → get k (map_values f m) ≡ map_option (f k) (get k m)
  unfolding get map_values
  get-map_values f k [] = refl
  get-map_values f k ((j, v) ∷ m) = ground (arith, eq_iff j k, get-map_values f k m)

  pub map_values-Unique : (f : String → V → W) (m : GoMap V) → Unique m → Unique (map_values f m)
  unfolding get map_values
  map_values-Unique f [] u = tt
  map_values-Unique f ((j, v) ∷ m) u =
      ground (arith, get-map_values f j m, map_values-Unique f m u.1)
