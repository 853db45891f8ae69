-- ===== src/DirHistory/Recent.antt =====
-- The history of core/dir_history.go against a reference: the directories in the order of their
-- latest additions, cut off at the maximum.
use cc2wechat.Prelude.{
  ℕ, zero, suc, String, ◌≡◌, refl, Bool, false, not, List, [], ◌∷◌, arith, ◌==◌, eq_iff,
  if◌then◌else◌, ap, Bool-cases, inl, inr, ◌≤◌, ◌∙◌, ◌&&◌, ◌-◌, sym,
}
use cc2wechat.Prelude.Lists.{length, take, keep, contains, remove_first, Distinct}
use cc2wechat.Prelude.GoMap.{get-put}
use cc2wechat.DirHistory.{DirHistory, list, save_locked, to_front, trim, add, get_dir, previous}

unfoldable pub other_than : String → String → Bool
other_than x y = not (y == x)

-- Of a list with the newest first, the newest standing of each text.
unfoldable pub newest : List String → List String
newest [] = []
newest (x ∷ xs) = x ∷ keep (other_than x) (newest xs)

contains-keep :
    (x y : String) (xs : List String)
    → contains y xs ≡ false
    → contains y (keep (other_than x) xs) ≡ false
unfolding contains keep
contains-keep x y [] h = refl
contains-keep x y (z ∷ xs) h = ground (arith, contains-keep x y xs)

contains-keep_self : (x : String) (xs : List String) → contains x (keep (other_than x) xs) ≡ false
unfolding contains keep other_than
contains-keep_self x [] = refl
contains-keep_self x (z ∷ xs) = ground (arith, contains-keep_self x xs)

keep-Distinct : (x : String) (xs : List String) → Distinct xs → Distinct (keep (other_than x) xs)
unfolding keep
keep-Distinct x [] d = tt
keep-Distinct x (y ∷ xs) d = ground (arith, contains-keep x y xs, keep-Distinct x xs d.1)

pub newest-Distinct : (xs : List String) → Distinct (newest xs)
unfolding newest
newest-Distinct [] = tt
newest-Distinct (x ∷ xs) =
    (contains-keep_self x (newest xs), keep-Distinct x (newest xs) (newest-Distinct xs))

keep-all : (x : String) (xs : List String) → contains x xs ≡ false → keep (other_than x) xs ≡ xs
unfolding contains keep other_than
keep-all x [] h = refl
keep-all x (y ∷ xs) h = ground (arith, keep-all x xs)

remove_first-keep :
    (x : String) (xs : List String) → Distinct xs → remove_first x xs ≡ keep (other_than x) xs
unfolding remove_first keep other_than
remove_first-keep x [] d = refl
remove_first-keep x (y ∷ xs) d =
    ground (arith, eq_iff y x, remove_first-keep x xs d.1, keep-all x xs)

take-take : (n : ℕ) (xs : List String) → take n (take n xs) ≡ take n xs
take-take zero xs = refl
take-take (suc n) [] = refl
take-take (suc n) (x ∷ xs) = ap (λ (ys : List String). x ∷ ys) (take-take n xs)

take_less : (n : ℕ) (xs : List String) → take n (take (suc n) xs) ≡ take n xs
take_less zero xs = refl
take_less (suc n) [] = refl
take_less (suc n) (x ∷ xs) = ap (λ (ys : List String). x ∷ ys) (take_less n xs)

-- Cutting off at `n + 1` before a removal does not show in the first `n`.
take-remove_first :
    (n : ℕ) (x : String) (xs : List String)
    → take n (remove_first x (take (suc n) xs)) ≡ take n (remove_first x xs)
unfolding remove_first
take-remove_first zero x xs = refl
take-remove_first (suc n) x [] = refl
take-remove_first (suc n) x (y ∷ xs) = elim (Bool-cases (y == x)) [
  | inl e ↦ rw e (take-take (suc n) xs)
  | inr e ↦ rw e (ap (λ (ys : List String). y ∷ ys) (take-remove_first n x xs))
]

take-long : (n : ℕ) (xs : List String) → length xs ≤ n → take n xs ≡ xs
take-long zero [] h = refl
take-long zero (x ∷ xs) h = absurd (omega (arith, h))
take-long (suc n) [] h = refl
take-long (suc n) (x ∷ xs) h = ap (λ (ys : List String). x ∷ ys) (take-long n xs (omega (arith, h)))

trim-take : (n : ℕ) (xs : List String) → trim n xs ≡ take n xs
unfolding trim
trim-take n xs = ground (arith, take-long n xs)

-- One addition, against the reference.
trim-to_front :
    (n : ℕ) (x : String) (xs : List String)
    → trim (suc n) (to_front x (take (suc n) (newest xs))) ≡ take (suc n) (newest (x ∷ xs))
unfolding to_front newest
trim-to_front n x xs = cc (
  trim-take (suc n) (to_front x (take (suc n) (newest xs))),
  take-remove_first n x (newest xs),
  remove_first-keep x (newest xs) (newest-Distinct xs),
)

entries-save_locked : (dh : DirHistory) → (save_locked dh).entries ≡ dh.entries
unfolding save_locked
entries-save_locked dh = ground arith

max_size-add : (q d : String) (dh : DirHistory) → (add q d dh).max_size ≡ dh.max_size
unfolding add save_locked
max_size-add q d dh = ground arith

list-add :
    (p q d : String) (dh : DirHistory)
    → list p (add q d dh)
      ≡ (if q == p && not (d == "") then trim dh.max_size (to_front d (list p dh)) else list p dh)
unfolding add list save_locked
list-add p q d dh =
    ground (arith, eq_iff q p, get-put q p (trim dh.max_size (to_front d (list q dh))) dh.entries)

-- Additions, each a project and a directory.
unfoldable pub adds : List (String × String) → DirHistory → DirHistory
adds [] dh = dh
adds ((q, d) ∷ es) dh = adds es (add q d dh)

-- The directories added for a project, the newest first, before those of `acc`.
unfoldable pub visits : String → List (String × String) → List String → List String
visits p [] acc = acc
visits p ((q, d) ∷ es) acc = visits p es (if q == p && not (d == "") then d ∷ acc else acc)

add-newest :
    (n : ℕ) (p q d : String) (dh : DirHistory) (acc : List String)
    → dh.max_size ≡ suc n
    → list p dh ≡ take (suc n) (newest acc)
    → list p (add q d dh) ≡ take (suc n) (newest (if q == p && not (d == "") then d ∷ acc else acc))
add-newest n p q d dh acc m h = ground (arith, list-add p q d dh, trim-to_front n d acc)

adds-newest :
    (n : ℕ) (p : String) (es : List (String × String)) (dh : DirHistory) (acc : List String)
    → dh.max_size ≡ suc n
    → list p dh ≡ take (suc n) (newest acc)
    → list p (adds es dh) ≡ take (suc n) (newest (visits p es acc))
unfolding adds visits
adds-newest n p [] dh acc m h = h
adds-newest n p ((q, d) ∷ es) dh acc m h =
    adds-newest n p es (add q d dh) _ (max_size-add q d dh ∙ m) (add-newest n p q d dh acc m h)

-- Where a project has no history yet and the maximum is not 0, the history after any additions, of
-- any projects, is the project's added directories in the order of their latest additions, the newest
-- first, cut off at the maximum.
pub list-adds :
    (p : String) (es : List (String × String)) (dh : DirHistory)
    → 1 ≤ dh.max_size
    → list p dh ≡ []
    → list p (adds es dh) ≡ take dh.max_size (newest (visits p es []))
unfolding newest
list-adds p es dh h e =
    let m : dh.max_size ≡ suc (dh.max_size - 1) = omega (arith, h) in
    adds-newest (dh.max_size - 1) p es dh [] m e
    ∙ ap (λ (n : ℕ). take n (newest (visits p es []))) (sym m)

-- The two entries in front after a directory that is not in front is added.
list-add_other :
    (p d e : String) (rest : List String) (dh : DirHistory)
    → 2 ≤ dh.max_size
    → (d == "") ≡ false
    → (e == d) ≡ false
    → list p dh ≡ e ∷ rest
    → (more : List String) × (list p (add p d dh) ≡ d ∷ e ∷ more)
unfolding to_front remove_first
list-add_other p d e rest dh m hd hn h =
    let n = dh.max_size - 2 in
    let m' : dh.max_size ≡ suc (suc n) = omega (arith, m) in
    (
      take n (remove_first d rest),
      ground
          (arith, list-add p p d dh, eq_iff p p, trim-take (suc (suc n)) (to_front d (e ∷ rest))),
    )

-- Where at least two entries are kept, switching to a directory other than the current one makes
-- the current one the previous one, and switching back to that makes the other one previous
-- again. Neither directory is empty.
pub previous-add :
    (p d e : String) (rest : List String) (dh : DirHistory)
    → 2 ≤ dh.max_size
    → (d == "") ≡ false
    → (e == "") ≡ false
    → (e == d) ≡ false
    → list p dh ≡ e ∷ rest
    → (previous p (add p d dh) ≡ e) × (previous p (add p e (add p d dh)) ≡ d)
unfolding previous get_dir
previous-add p d e rest dh m hd he hn h =
    let (more, first) = list-add_other p d e rest dh m hd hn h in
    let (_, second) =
      list-add_other p e d (e ∷ more) (add p d dh) (rw (max_size-add p d dh) m) he
        (ground (arith, eq_iff d e, eq_iff e d)) first in
    (rw first refl, rw second refl)
