-- ===== src/Session/Lock.antt =====
-- `TryLock` and `Unlock` of core/session.go: a busy flag that at most one turn holds.
use cc2wechat.Prelude.{ℕ, ◌≡◌, true, false, List, [], ◌∷◌, arith}
use cc2wechat.Session.{
  Session, try_lock, unlock, unlock_without_update, add_history, set_agent_info,
  set_agent_session_id, compare_and_set_agent_session_id, strip_continue_session_sentinel,
  clear_history, invalidate, record_past_agent_session_id,
}
use cc2wechat.Session.Updates.{
  Update, locks, unlocks, unlocks_without_update, adds_history, sets_info, sets_id,
  compares_and_sets, strips, clears_history, invalidates, update, updates,
}

busy-record : (s : Session) → (record_past_agent_session_id s).busy ≡ s.busy
unfolding record_past_agent_session_id
busy-record s = ground arith

-- No unlock among the updates.
abbrev pub Holds : List Update → Type 0
Holds [] = Unit {0}
Holds (unlocks now ∷ us) = ⊥
Holds (unlocks_without_update now ∷ us) = ⊥
Holds (_ ∷ us) = Holds us

still_busy :
    (u : Update) (us : List Update) (s : Session)
    → Holds (u ∷ us)
    → s.busy ≡ true
    → ((update u s).busy ≡ true) × Holds us
unfolding update
still_busy locks us s h b = (unfold try_lock in ground arith, h)
still_busy (unlocks now) us s h b = absurd h
still_busy (unlocks_without_update now) us s h b = absurd h
still_busy (adds_history role content now) us s h b = (unfold add_history in b, h)
still_busy (sets_info id agent_type name) us s h b =
    (unfold set_agent_info in ground (arith, busy-record s), h)
still_busy (sets_id id agent_type) us s h b =
    (unfold set_agent_session_id in ground (arith, busy-record s), h)
still_busy (compares_and_sets id agent_type) us s h b =
    (unfold compare_and_set_agent_session_id in ground arith, h)
still_busy strips us s h b = (unfold strip_continue_session_sentinel in ground arith, h)
still_busy clears_history us s h b = (unfold clear_history in b, h)
still_busy (invalidates agent_type) us s h b =
    (unfold invalidate in ground (arith, busy-record s), h)

busy-updates :
    (us : List Update) (s : Session) → Holds us → s.busy ≡ true → (updates us s).busy ≡ true
unfolding updates
busy-updates [] s h b = b
busy-updates (u ∷ us) s h b =
    let (b', h') = still_busy u us s h b in busy-updates us (update u s) h' b'

-- Between a successful `TryLock` and the next unlock every further `TryLock` fails and changes
-- nothing, whatever other updates come in between.
try_lock_excludes :
    (s : Session) (us : List Update)
    → (try_lock s).1 ≡ true
    → Holds us
    → try_lock (updates us (try_lock s).0) ≡ (updates us (try_lock s).0, false)
unfolding try_lock
try_lock_excludes s us taken h = ground (arith, busy-updates us (try_lock s).0 h)

-- A released session can be locked again, on either way of unlocking; only `Unlock` stamps the time.
pub try_lock-unlock :
    (s : Session) (now : ℕ)
    → ((try_lock (unlock now s)).1 ≡ true)
      × ((unlock now s).updated_at ≡ now)
      × ((try_lock (unlock_without_update now s)).1 ≡ true)
      × ((unlock_without_update now s).updated_at ≡ s.updated_at)
unfolding try_lock unlock unlock_without_update
try_lock-unlock s now = ground arith
