-- ===== src/Session/Clean.antt =====
-- The continue sentinel and the list of past ids, for the updates of core/session.go.
use cc2wechat.Prelude.{
  String, ◌≡◌, refl, inl, inr, false, ◌||◌, List, [], ◌∷◌, ◌++◌, arith, ◌==◌, Bool-cases,
  if◌then◌else◌,
}
use cc2wechat.Prelude.Lists.{contains, contains-append, Distinct, append-Distinct}
use cc2wechat.Session.{
  Session, continue_session, try_lock, unlock, unlock_without_update, add_history, set_agent_info,
  set_agent_session_id, compare_and_set_agent_session_id, strip_continue_session_sentinel,
  clear_history, invalidate, is_stale, record_past_agent_session_id,
}
use cc2wechat.Session.Tracking.{IsProper}
use cc2wechat.Session.Updates.{
  Update, locks, unlocks, unlocks_without_update, adds_history, sets_info, sets_id,
  compares_and_sets, strips, clears_history, invalidates, update, updates,
}

-- What the list of past ids never holds, and that it repeats nothing.
pub record IsClean (s : Session) : Type 0 where
  pub unsent : (s.agent_session_id == continue_session) ≡ false
  pub distinct : Distinct s.past_agent_session_ids
  pub named : contains "" s.past_agent_session_ids ≡ false
  pub real : contains continue_session s.past_agent_session_ids ≡ false

-- The last three, which `recordPastAgentSessionID` keeps.
record PastIsClean (past : List String) : Type 0 where
  distinct : Distinct past
  named : contains "" past ≡ false
  real : contains continue_session past ≡ false

append-PastIsClean :
    (a : String) (past : List String)
    → IsProper a
    → contains a past ≡ false
    → PastIsClean past
    → PastIsClean (past ++ a ∷ [])
unfolding contains
append-PastIsClean a past p h c = record {
  distinct = append-Distinct a past h c.distinct;
  named = ground (arith, contains-append "" past (a ∷ []), c.named, p.named);
  real = ground (arith, contains-append continue_session past (a ∷ []), c.real, p.real);
}

record-PastIsClean :
    (s : Session)
    → PastIsClean s.past_agent_session_ids
    → PastIsClean (record_past_agent_session_id s).past_agent_session_ids
unfolding record_past_agent_session_id
record-PastIsClean s c =
    elim (Bool-cases (s.agent_session_id == "" || s.agent_session_id == continue_session)) [
      | inl e ↦ rw e c
      | inr e ↦ elim (Bool-cases (contains s.agent_session_id s.past_agent_session_ids)) [
        | inl old ↦ rw (e, old) c
        | inr new ↦
            rw (e, new)
              (append-PastIsClean s.agent_session_id s.past_agent_session_ids
                (record { named = ground arith; real = ground arith }) new c)
      ]
    ]

empty-real : ("" == continue_session) ≡ false
empty-real = refl

strip-real :
    (id : String) → ((if id == continue_session then "" else id) == continue_session) ≡ false
strip-real id = elim (Bool-cases (id == continue_session)) [ inl e ↦ rw e | inr e ↦ rw e e ]

past_of : (s : Session) → IsClean s → PastIsClean s.past_agent_session_ids
past_of s c = record { distinct = c.distinct; named = c.named; real = c.real }

invalidate-IsClean :
    (agent_type : String) (s : Session) → IsClean s → IsClean (invalidate agent_type s)
unfolding invalidate
invalidate-IsClean agent_type s c =
    let past = record-PastIsClean s (past_of s c) in
    elim (Bool-cases (is_stale agent_type s)) [
      | inl stale ↦
          rw stale (record {
            unsent = refl;
            distinct = past.distinct;
            named = past.named;
            real = past.real;
          })
      | inr fresh ↦ rw fresh c
    ]

pub update-IsClean : (u : Update) (s : Session) → IsClean s → IsClean (update u s)
unfolding update
update-IsClean locks s c = unfold try_lock in ground arith
update-IsClean (unlocks now) s c = unfold unlock in ground arith
update-IsClean (unlocks_without_update now) s c = unfold unlock_without_update in ground arith
update-IsClean (adds_history role content now) s c = unfold add_history in ground arith
update-IsClean (sets_info id agent_type name) s c =
    unfold set_agent_info in ground (arith, strip-real id, record-PastIsClean s (past_of s c))
update-IsClean (sets_id id agent_type) s c =
    unfold set_agent_session_id in ground (arith, record-PastIsClean s (past_of s c))
update-IsClean (compares_and_sets id agent_type) s c =
    unfold compare_and_set_agent_session_id in ground arith
update-IsClean strips s c = unfold strip_continue_session_sentinel in ground (arith, empty-real)
update-IsClean clears_history s c = unfold clear_history in ground arith
update-IsClean (invalidates agent_type) s c = invalidate-IsClean agent_type s c

-- Whatever updates a clean session goes through, it stays clean: its current id is not the
-- continue sentinel, and its past ids repeat nothing and hold neither the empty id nor the
-- sentinel.
pub updates-IsClean : (us : List Update) (s : Session) → IsClean s → IsClean (updates us s)
unfolding updates
updates-IsClean [] s c = c
updates-IsClean (u ∷ us) s c = updates-IsClean us (update u s) (update-IsClean u s c)
