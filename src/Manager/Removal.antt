-- ===== src/Manager/Removal.antt =====
-- Deleting and invalidating, core/session.go, keep the manager's invariant.
use cc2wechat.Prelude.{
  ℕ, zero, suc, String, ◌≡◌, refl, Option, none, some, [], ◌∷◌, inl, inr, arith, ◌==◌, Bool-cases,
}
use cc2wechat.Prelude.GoMap.{GoMap, get, has, get-map_values, map_values, map_option}
use cc2wechat.Session.{Session, invalidate}
use cc2wechat.Manager.State.{Manager, ids_of}
use cc2wechat.Manager.Delete.{
  delete_by_id, delete_matching, delete_by_agent_session_id, invalidate_for_agent, save_if_removed,
  delete_if_matched, any_stale,
}
use cc2wechat.Manager.Consistent.{IsConsistent}
use cc2wechat.Manager.Steps.{
  remap-IsConsistent, save_locked-IsConsistent, delete_by_id_locked-IsConsistent,
}
use cc2wechat.Manager.Modify.{id-invalidate}

pub delete_by_id-IsConsistent :
    (id : String) (m : Manager) → IsConsistent m → IsConsistent (delete_by_id id m).0
unfolding delete_by_id
delete_by_id-IsConsistent id m c = elim (Bool-cases (has id m.sessions)) [
  | inl e ↦ rw e (save_locked-IsConsistent _ (delete_by_id_locked-IsConsistent id m c))
  | inr e ↦ rw e c
]

delete_if_matched-IsConsistent :
    (a id : String) (s : Session) (r : Manager × ℕ)
    → IsConsistent r.0
    → IsConsistent (delete_if_matched a id s r).0
unfolding delete_if_matched
delete_if_matched-IsConsistent a id s r c = elim (Bool-cases (s.agent_session_id == a)) [
  | inl e ↦ rw e (delete_by_id_locked-IsConsistent id r.0 c)
  | inr e ↦ rw e c
]

pub delete_matching-IsConsistent :
    (a : String) (sessions : GoMap Session) (r : Manager × ℕ)
    → IsConsistent r.0
    → IsConsistent (delete_matching a sessions r).0
unfolding delete_matching
delete_matching-IsConsistent a [] r c = c
delete_matching-IsConsistent a ((id, s) ∷ rest) r c =
    delete_matching-IsConsistent a rest (delete_if_matched a id s r)
      (delete_if_matched-IsConsistent a id s r c)

save_if_removed-IsConsistent :
    (r : Manager × ℕ) → IsConsistent r.0 → IsConsistent (save_if_removed r).0
unfolding save_if_removed
save_if_removed-IsConsistent (m, zero) c = c
save_if_removed-IsConsistent (m, suc n) c = save_locked-IsConsistent m c

pub delete_by_agent_session_id-IsConsistent :
    (a : String) (m : Manager) → IsConsistent m → IsConsistent (delete_by_agent_session_id a m).0
unfolding delete_by_agent_session_id
delete_by_agent_session_id-IsConsistent a m c = elim (Bool-cases (a == "")) [
  | inl e ↦ rw e c
  | inr e ↦ rw e (
      save_if_removed-IsConsistent (delete_matching a m.sessions (m, 0))
        (delete_matching-IsConsistent a m.sessions (m, 0) c))
]

map-IsConsistent :
    (t : String) (m : Manager)
    → IsConsistent m
    → IsConsistent (record m { sessions = map_values (λ _. invalidate t) m.sessions })
unfolding ids_of
map-IsConsistent t m c =
    remap-IsConsistent m (record m { sessions = map_values (λ _. invalidate t) m.sessions })
      (λ k. same k (get k m.sessions) refl) c (λ u. refl) refl refl
  where
    same :
        (k : String) (o : Option Session)
        → get k m.sessions ≡ o
        → map_option (λ s. s.id) (get k (map_values (λ _. invalidate t) m.sessions))
          ≡ map_option (λ s. s.id) (get k m.sessions)
    same k none e = ground (arith, get-map_values (λ _. invalidate t) k m.sessions)
    same k (some s) e =
        ground (arith, get-map_values (λ _. invalidate t) k m.sessions, id-invalidate t s)

pub invalidate_for_agent-IsConsistent :
    (t : String) (m : Manager) → IsConsistent m → IsConsistent (invalidate_for_agent t m)
unfolding invalidate_for_agent
invalidate_for_agent-IsConsistent t m c = elim (Bool-cases (any_stale t m.sessions)) [
  | inl e ↦ rw e (save_locked-IsConsistent _ (map-IsConsistent t m c))
  | inr e ↦ rw e (map-IsConsistent t m c)
]
