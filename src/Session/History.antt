-- ===== src/Session/History.antt =====
-- `GetHistory` of core/session.go.
use cc2wechat.Prelude.{ℕ, suc, ◌-◌, ◌≡◌, refl, List, ◌++◌, arith, inl, inr, ltb, ltb→lt, Bool-cases}
use Prim.Native.Nat.{min}
use cc2wechat.Prelude.Lists.{length, take, take-append-drop, length-drop}
use cc2wechat.Session.{Session, HistoryEntry, negative, count, get_history, last_entries}

last_entries_lem :
    (n : ℕ) (h : List HistoryEntry)
    → (length (last_entries n h) ≡ min n (length h))
      × (take (length h - n) h ++ last_entries n h ≡ h)
unfolding last_entries
last_entries_lem n h = elim (Bool-cases (ltb (length h) n)) [
  | inl short ↦
      let none_before : length h - n ≡ 0 = omega (arith, ltb→lt (length h) n short) in
      rw short (omega (arith, ltb→lt (length h) n short), rw none_before refl)
  | inr long ↦
      rw long (ground (arith, length-drop (length h - n) h), take-append-drop (length h - n) h)
]

-- For `n > 0` the result is the last `min n total` entries of the history: what comes before
-- them is the rest. For `n ≤ 0` it is the whole history.
pub get_history_lem :
    (n : ℕ) (s : Session)
    → (length (get_history (count (suc n)) s) ≡ min (suc n) (length s.history))
      × (take (length s.history - suc n) s.history ++ get_history (count (suc n)) s ≡ s.history)
      × (get_history (count 0) s ≡ s.history)
      × (get_history negative s ≡ s.history)
unfolding get_history
get_history_lem n s = let (a, b) = last_entries_lem (suc n) s.history in (a, b, refl, refl)
