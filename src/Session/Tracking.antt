-- ===== src/Session/Tracking.antt =====
-- Which agent session ids a session of core/session.go remembers, and which it never holds.
use cc2wechat.Prelude.{
  String, ◌≡◌, Bool, true, false, ◌||◌, List, [], ◌∷◌, ◌++◌, arith, ◌==◌, eq_iff,
}
use cc2wechat.Prelude.Lists.{contains, contains-append}
use cc2wechat.Session.{
  Session, continue_session, try_lock, unlock, unlock_without_update, add_history, set_agent_info,
  set_agent_session_id, compare_and_set_agent_session_id, strip_continue_session_sentinel,
  clear_history, invalidate, record_past_agent_session_id,
}
use cc2wechat.Session.Updates.{
  Update, locks, unlocks, unlocks_without_update, adds_history, sets_info, sets_id,
  compares_and_sets, strips, clears_history, invalidates, update, updates,
}

-- The ids that `KnownAgentSessionIDs` collects of one session.
unfoldable pub tracks : String → Session → Bool
tracks a s = s.agent_session_id == a || contains a s.past_agent_session_ids

-- A name that a real agent session can have.
pub record IsProper (a : String) : Type 0 where
  pub named : (a == "") ≡ false
  pub real : (a == continue_session) ≡ false

contains-snoc : (a : String) (xs : List String) → contains a (xs ++ a ∷ []) ≡ true
unfolding contains
contains-snoc a xs = ground (arith, contains-append a xs (a ∷ []), eq_iff a a)

contains-grows :
    (a b : String) (xs : List String) → contains a xs ≡ true → contains a (xs ++ b ∷ []) ≡ true
contains-grows a b xs h = ground (arith, contains-append a xs (b ∷ []))

-- After the record the current id stands among the past ones.
record-tracks :
    (a : String) (s : Session)
    → IsProper a
    → tracks a s ≡ true
    → contains a (record_past_agent_session_id s).past_agent_session_ids ≡ true
unfolding tracks record_past_agent_session_id
record-tracks a s p h = ground (
  arith,
  eq_iff s.agent_session_id a,
  eq_iff s.agent_session_id "",
  eq_iff s.agent_session_id continue_session,
  eq_iff a "",
  eq_iff a continue_session,
  contains-snoc a s.past_agent_session_ids,
  contains-grows a s.agent_session_id s.past_agent_session_ids,
)

pub update-tracks :
    (a : String) (u : Update) (s : Session)
    → IsProper a
    → tracks a s ≡ true
    → tracks a (update u s) ≡ true
unfolding update tracks
update-tracks a locks s p h = unfold try_lock in ground arith
update-tracks a (unlocks now) s p h = unfold unlock in ground arith
update-tracks a (unlocks_without_update now) s p h = unfold unlock_without_update in ground arith
update-tracks a (adds_history role content now) s p h = unfold add_history in ground arith
update-tracks a (sets_info id agent_type name) s p h =
    unfold set_agent_info in
    ground (
      arith,
      record-tracks a s p h,
      eq_iff s.agent_session_id a,
      eq_iff s.agent_session_id "",
      eq_iff s.agent_session_id id,
      eq_iff id continue_session,
    )
update-tracks a (sets_id id agent_type) s p h =
    unfold set_agent_session_id in
    ground (arith, record-tracks a s p h, eq_iff s.agent_session_id a, eq_iff s.agent_session_id id)
update-tracks a (compares_and_sets id agent_type) s p h =
    unfold compare_and_set_agent_session_id in
    ground (
      arith,
      eq_iff s.agent_session_id a,
      eq_iff s.agent_session_id "",
      eq_iff s.agent_session_id continue_session,
      eq_iff a "",
      eq_iff a continue_session,
    )
update-tracks a strips s p h =
    unfold strip_continue_session_sentinel in
    ground (
      arith,
      eq_iff s.agent_session_id a,
      eq_iff s.agent_session_id continue_session,
      eq_iff a continue_session,
    )
update-tracks a clears_history s p h = unfold clear_history in ground arith
update-tracks a (invalidates agent_type) s p h =
    unfold invalidate in ground (arith, record-tracks a s p h)

-- Whatever updates follow, an agent session id that a session tracks stays tracked, unless the
-- id is empty or the continue sentinel.
pub updates-tracks :
    (a : String) (us : List Update) (s : Session)
    → IsProper a
    → tracks a s ≡ true
    → tracks a (updates us s) ≡ true
unfolding updates
updates-tracks a [] s p h = h
updates-tracks a (u ∷ us) s p h = updates-tracks a us (update u s) p (update-tracks a u s p h)
