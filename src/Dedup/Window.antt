-- ===== src/Dedup/Window.antt =====
-- The window of core/dedup.go: an accepted message is a duplicate for 60 seconds, and then not.
use cc2wechat.Prelude.{
  ℕ, ◌+◌, ◌≤◌, ◌<◌, String, ◌≡◌, refl, Bool, true, false, Option, none, some, List, [], ◌∷◌, arith,
  ◌==◌, eq_iff, if◌then◌else◌, leb, not, ◌&&◌,
}
use cc2wechat.Prelude.GoMap.{get, delete_if, get-put, get-delete_if}
use cc2wechat.Dedup.{MessageDedup, dedup_ttl, is_expired, is_duplicate}

-- What one call answers and remembers, by the time at which the id was last accepted.
abbrev pub last : String → MessageDedup → Option ℕ
last k d = get k d.seen

-- An entry counts until it is older than the window.
unfoldable pub live : ℕ → Option ℕ → Option ℕ
live now none = none
live now (some t) = if is_expired now t then none else some t

get-kept :
    (k : String) (now : ℕ) (d : MessageDedup)
    → get k (delete_if (λ _. is_expired now) d.seen) ≡ live now (get k d.seen)
unfolding live
get-kept k now d = ground (arith, get-delete_if (λ _. is_expired now) k d.seen)

abbrev is_some : Option ℕ → Bool
is_some none = false
is_some (some t) = true

abbrev or_now : ℕ → Option ℕ → Option ℕ
or_now now none = some now
or_now now (some t) = some t

answer-is_duplicate :
    (msg_id : String) (now : ℕ) (d : MessageDedup)
    → (is_duplicate msg_id now d).1 ≡ (not (msg_id == "") && is_some (live now (last msg_id d)))
unfolding is_duplicate
answer-is_duplicate msg_id now d = ground (arith, get-kept msg_id now d)

last-is_duplicate :
    (msg_id k : String) (now : ℕ) (d : MessageDedup)
    → last k (is_duplicate msg_id now d).0 ≡ (
        if msg_id == ""
        then last k d
        else if msg_id == k
        then or_now now (live now (last k d))
        else live now (last k d))
unfolding is_duplicate
last-is_duplicate msg_id k now d = ground (
  arith,
  eq_iff msg_id k,
  get-kept msg_id now d,
  get-kept k now d,
  get-put msg_id k now (delete_if (λ _. is_expired now) d.seen),
)

unfoldable pub calls : List (String × ℕ) → MessageDedup → MessageDedup
calls [] d = d
calls ((msg_id, now) ∷ rest) d = calls rest (is_duplicate msg_id now d).0

-- Every call comes at most `n` nanoseconds into time.
abbrev pub Until : ℕ → List (String × ℕ) → Type 0
Until n [] = Unit {0}
Until n ((msg_id, now) ∷ rest) = (now ≤ n) × Until n rest

live_young : (now t : ℕ) → now ≤ t + dedup_ttl → live now (some t) ≡ some t
unfolding live is_expired
live_young now t h = ground arith

-- A call within the window keeps the entry.
last-call :
    (k msg_id : String) (now t : ℕ) (d : MessageDedup)
    → now ≤ t + dedup_ttl
    → last k d ≡ some t
    → last k (is_duplicate msg_id now d).0 ≡ some t
last-call k msg_id now t d h e =
    ground (arith, last-is_duplicate msg_id k now d, live_young now t h)

last-calls :
    (k : String) (t : ℕ) (cs : List (String × ℕ)) (d : MessageDedup)
    → Until (t + dedup_ttl) cs
    → last k d ≡ some t
    → last k (calls cs d) ≡ some t
unfolding calls
last-calls k t [] d u e = e
last-calls k t ((msg_id, now) ∷ cs) d u e =
    last-calls k t cs (is_duplicate msg_id now d).0 u.1 (last-call k msg_id now t d u.0 e)

live_old : (now t : ℕ) → t + dedup_ttl < now → live now (some t) ≡ none
unfolding live is_expired
live_old now t h = ground arith

-- Once a call at time `t` has accepted an id that is not empty, the id is a duplicate at every
-- time up to 60 seconds later, whatever calls came in between by then, those for the same id
-- included; and after more than 60 seconds it is accepted again.
pub is_duplicate_window :
    (k : String) (t now : ℕ) (d : MessageDedup) (cs : List (String × ℕ))
    → (k == "") ≡ false
    → (is_duplicate k t d).1 ≡ false
    → Until (t + dedup_ttl) cs
    → (is_duplicate k now (calls cs (is_duplicate k t d).0)).1 ≡ leb now (t + dedup_ttl)
is_duplicate_window k t now d cs h accepted u =
    let d' : MessageDedup = (is_duplicate k t d).0 in
    let e : last k d' ≡ some t =
      ground (arith, last-is_duplicate k k t d, answer-is_duplicate k t d, eq_iff k k) in
    ground (
      arith,
      answer-is_duplicate k now (calls cs d'),
      last-calls k t cs d' u e,
      live_young now t,
      live_old now t,
    )

-- An empty id is never a duplicate, and a call with it changes nothing.
pub is_duplicate-blank : (now : ℕ) (d : MessageDedup) → is_duplicate "" now d ≡ (d, false)
unfolding is_duplicate
is_duplicate-blank now d = refl
