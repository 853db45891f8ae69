-- ===== src/Manager/Modify.antt =====
-- A change made through a `*Session`, core/session.go, keeps the manager's invariant.
use cc2wechat.Prelude.{String, ◌≡◌, refl, inl, inr, arith, Option-cases}
use cc2wechat.Prelude.GoMap.{get}
use cc2wechat.Session.{
  Session, strip_continue_session_sentinel, try_lock, unlock, unlock_without_update, add_history,
  set_agent_info, set_agent_session_id, compare_and_set_agent_session_id, clear_history, invalidate,
  record_past_agent_session_id,
}
use cc2wechat.Session.Updates
use cc2wechat.Session.Updates.{Update, update}
use cc2wechat.Manager.State.{Manager, ids_of}
use cc2wechat.Manager.Create.{modify}
use cc2wechat.Manager.Views.{get-modify}
use cc2wechat.Manager.Consistent.{IsConsistent}
use cc2wechat.Manager.Steps.{id_at, remap-IsConsistent}

id-record : (s : Session) → (record_past_agent_session_id s).id ≡ s.id
unfolding record_past_agent_session_id
id-record s = ground arith

pub id-set_agent_info : (a t n : String) (s : Session) → (set_agent_info a t n s).id ≡ s.id
unfolding set_agent_info
id-set_agent_info a t n s = ground (arith, id-record s)

pub id-invalidate : (t : String) (s : Session) → (invalidate t s).id ≡ s.id
unfolding invalidate
id-invalidate t s = ground (arith, id-record s)

pub id-update : (u : Update) (s : Session) → (update u s).id ≡ s.id
unfolding update try_lock unlock unlock_without_update add_history set_agent_session_id
    compare_and_set_agent_session_id strip_continue_session_sentinel clear_history
id-update Updates.locks s = ground arith
id-update (Updates.unlocks now) s = refl
id-update (Updates.unlocks_without_update now) s = refl
id-update (Updates.adds_history role content now) s = refl
id-update (Updates.sets_info a t n) s = id-set_agent_info a t n s
id-update (Updates.sets_id a t) s = ground (arith, id-record s)
id-update (Updates.compares_and_sets a t) s = ground arith
id-update Updates.strips s = ground arith
id-update Updates.clears_history s = refl
id-update (Updates.invalidates t) s = id-invalidate t s

id_at-modify :
    (sid : String) (f : Session → Session) (m : Manager)
    → ((s : Session) → (f s).id ≡ s.id)
    → (k : String) → id_at k (modify sid f m) ≡ id_at k m
id_at-modify sid f m same k = elim (Option-cases (get k m.sessions)) [
  | inl e ↦ ground (arith, get-modify sid f m k)
  | inr (s, e) ↦ ground (arith, get-modify sid f m k, same s)
]

module _ (sid : String) (f : Session → Session) (m : Manager) where
  ids_of-modify : (u : String) → ids_of u (modify sid f m) ≡ ids_of u m
  unfolding modify ids_of
  ids_of-modify u = ground arith

  active-modify : (modify sid f m).active_session ≡ m.active_session
  unfolding modify
  active-modify = ground arith

  counter-modify : (modify sid f m).counter ≡ m.counter
  unfolding modify
  counter-modify = ground arith

-- A change through a `*Session` that keeps the id.
pub modify-IsConsistent :
    (sid : String) (f : Session → Session) (m : Manager)
    → ((s : Session) → (f s).id ≡ s.id)
    → IsConsistent m
    → IsConsistent (modify sid f m)
modify-IsConsistent sid f m same c =
    remap-IsConsistent m (modify sid f m) (id_at-modify sid f m same) c (ids_of-modify sid f m)
      (active-modify sid f m) (counter-modify sid f m)
