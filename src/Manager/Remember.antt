-- ===== src/Manager/Remember.antt =====
-- What `SessionManager`, core/session.go, knows of an agent session stays known until a deletion.
use cc2wechat.Prelude.{
  ℕ, ◌+◌, String, ◌≡◌, refl, Bool, true, false, none, some, List, [], ◌∷◌, inl, inr, arith, ◌==◌,
  eq_iff, Bool-cases, Option-cases,
}
use cc2wechat.Prelude.GoMap.{get, put, get-map_values, map_values}
use cc2wechat.Session.{Session, strip_continue_session_sentinel, set_agent_info, invalidate}
use cc2wechat.Session.Tracking.{tracks, IsProper, update-tracks}
use cc2wechat.Session.Updates
use cc2wechat.Session.Updates.{Update, update}
use cc2wechat.Manager.State.{Manager, ids_of}
use cc2wechat.Manager.Persist.{save_locked}
use cc2wechat.Manager.Create.{
  session_id, register, create_locked, modify, new_session, new_side_session, live_active,
  get_or_create_active, first_such, switch_session, switch_to_agent_session,
}
use cc2wechat.Manager.Delete.{invalidate_for_agent, any_stale}
use cc2wechat.Manager.Query.{set_session_name, update_user_meta}
use cc2wechat.Manager.Consistent.{IsConsistent}
use cc2wechat.Manager.Invariant.{perform-IsConsistent}
use cc2wechat.Manager.Switching.{named}
use cc2wechat.Manager.Views.{get-register, get-modify, get-save_locked}
use cc2wechat.Manager.Requests.{
  Request, creates, creates_side, gets_active, switches, switches_to_agent, names, describes,
  deletes, deletes_agent, invalidates, changes, saves, disk_turns, perform, run,
}

-- The session under key `k` tracks the agent session `a`.
unfoldable pub remembers : String → String → Manager → Bool
remembers a k m = elim (get k m.sessions) [ none ↦ false | some s ↦ tracks a s ]

abbrev pub KeepsSessions : Request → Type 0
KeepsSessions (deletes id) = ⊥
KeepsSessions (deletes_agent a) = ⊥
KeepsSessions _ = Unit {0}

module _ (a k : String) (p : IsProper a) where
  tracks-strip :
      (s : Session) → tracks a s ≡ true → tracks a (strip_continue_session_sentinel s) ≡ true
  tracks-strip s h = unfold update in update-tracks a Updates.strips s p h

  tracks-set_agent_info :
      (b t n : String) (s : Session) → tracks a s ≡ true → tracks a (set_agent_info b t n s) ≡ true
  tracks-set_agent_info b t n s h = unfold update in update-tracks a (Updates.sets_info b t n) s p h

  tracks-invalidate :
      (t : String) (s : Session) → tracks a s ≡ true → tracks a (invalidate t s) ≡ true
  tracks-invalidate t s h = unfold update in update-tracks a (Updates.invalidates t) s p h

  remembers-save_locked :
      (m : Manager) → remembers a k m ≡ true → remembers a k (save_locked m) ≡ true
  unfolding remembers
  remembers-save_locked m h = elim (Option-cases (get k m.sessions)) [
    | inl e ↦ ground arith
    | inr (s, e) ↦ ground (arith, get-save_locked m k, tracks-strip s)
  ]

  remembers-modify :
      (sid : String) (f : Session → Session) (m : Manager)
      → ((s : Session) → tracks a s ≡ true → tracks a (f s) ≡ true)
      → remembers a k m ≡ true
      → remembers a k (modify sid f m) ≡ true
  unfolding remembers
  remembers-modify sid f m keep h = elim (Option-cases (get k m.sessions)) [
    | inl e ↦ ground arith
    | inr (s, e) ↦ ground (arith, get-modify sid f m k, keep s)
  ]

  remembers-register :
      (u name : String) (now : ℕ) (m : Manager)
      → IsConsistent m
      → remembers a k m ≡ true
      → remembers a k (register u name now m) ≡ true
  unfolding remembers
  remembers-register u name now m c h = ground (
    arith,
    get-register u name now m k,
    c.fresh (m.counter + 1) (omega arith),
    eq_iff (session_id (m.counter + 1)) k,
  )

  remembers-create_locked :
      (u name : String) (now : ℕ) (m : Manager)
      → IsConsistent m
      → remembers a k m ≡ true
      → remembers a k (create_locked u name now m).0 ≡ true
  unfolding create_locked
  remembers-create_locked u name now m c h = unfold remembers in remembers-register u name now m c h

  remembers-found :
      (u t : String) (m : Manager)
      → remembers a k m ≡ true
      → remembers a k (save_locked (record m { active_session = put u t m.active_session })) ≡ true
  remembers-found u t m h =
      remembers-save_locked (record m { active_session = put u t m.active_session })
        (unfold remembers in h)

  remembers-get_or_create :
      (u : String) (now : ℕ) (m : Manager)
      → IsConsistent m
      → remembers a k m ≡ true
      → remembers a k (get_or_create_active u now m).0 ≡ true
  unfolding get_or_create_active new_session
  remembers-get_or_create u now m c h = elim (Option-cases (live_active u m)) [
    | inl e ↦
        rw (e, get_or_create_active)
          (remembers-save_locked _ (remembers-create_locked u "default" now m c h))
    | inr (sid, e) ↦ rw (e, get_or_create_active) h
  ]

  remembers-switch_session :
      (u target : String) (m : Manager)
      → remembers a k m ≡ true
      → remembers a k (switch_session u target m).0 ≡ true
  unfolding switch_session
  remembers-switch_session u target m h =
      elim (Option-cases (first_such (named target) m.sessions (ids_of u m))) [
        | inl e ↦ rw (e, switch_session) h
        | inr ((sid, s), e) ↦ rw (e, switch_session) (remembers-found u s.id m h)
      ]

  remembers-switch_to_agent :
      (u b t summary : String) (now : ℕ) (m : Manager)
      → IsConsistent m
      → remembers a k m ≡ true
      → remembers a k (switch_to_agent_session u b t summary now m).0 ≡ true
  unfolding switch_to_agent_session
  remembers-switch_to_agent u b t summary now m c h =
      elim (Option-cases (first_such (λ s. s.agent_session_id == b) m.sessions (ids_of u m))) [
        | inl e ↦
            rw (e, switch_to_agent_session)
              (remembers-save_locked _ (
                remembers-modify _ _ _ (tracks-set_agent_info b t summary)
                  (remembers-create_locked u summary now m c h)))
        | inr ((sid, s), e) ↦ rw (e, switch_to_agent_session) (remembers-found u s.id m h)
      ]

  remembers-map :
      (t : String) (m : Manager)
      → remembers a k m ≡ true
      → remembers a k (record m { sessions = map_values (λ _. invalidate t) m.sessions }) ≡ true
  unfolding remembers
  remembers-map t m h = elim (Option-cases (get k m.sessions)) [
    | inl e ↦ ground arith
    | inr (s, e) ↦
        ground (arith, get-map_values (λ _. invalidate t) k m.sessions, tracks-invalidate t s)
  ]

  remembers-invalidate_for_agent :
      (t : String) (m : Manager)
      → remembers a k m ≡ true
      → remembers a k (invalidate_for_agent t m) ≡ true
  unfolding invalidate_for_agent
  remembers-invalidate_for_agent t m h = elim (Bool-cases (any_stale t m.sessions)) [
    | inl e ↦ rw e (remembers-save_locked _ (remembers-map t m h))
    | inr e ↦ rw e (remembers-map t m h)
  ]

  remembers_same :
      (m n : Manager) → n.sessions ≡ m.sessions → remembers a k m ≡ true → remembers a k n ≡ true
  unfolding remembers
  remembers_same m n e h = rw e h

  perform-remembers :
      (r : Request) (m : Manager)
      → KeepsSessions r
      → IsConsistent m
      → remembers a k m ≡ true
      → remembers a k (perform r m) ≡ true
  unfolding perform new_session new_side_session set_session_name update_user_meta
  perform-remembers (creates u name now) m q c h =
      remembers-save_locked _ (remembers-create_locked u name now m c h)
  perform-remembers (creates_side u name now) m q c h =
      remembers-save_locked _ (remembers-register u name now m c h)
  perform-remembers (gets_active u now) m q c h = remembers-get_or_create u now m c h
  perform-remembers (switches u target) m q c h = remembers-switch_session u target m h
  perform-remembers (switches_to_agent u b t summary now) m q c h =
      remembers-switch_to_agent u b t summary now m c h
  perform-remembers (names b name) m q c h =
      remembers-save_locked _ (remembers_same m _ (ground arith) h)
  perform-remembers (describes b user_name chat_name) m q c h = remembers_same m _ (ground arith) h
  perform-remembers (deletes id) m q c h = absurd q
  perform-remembers (deletes_agent b) m q c h = absurd q
  perform-remembers (invalidates t) m q c h = remembers-invalidate_for_agent t m h
  perform-remembers (changes sid u) m q c h =
      remembers-modify sid (update u) m (λ s t. update-tracks a u s p t) h
  perform-remembers saves m q c h = remembers-save_locked m h
  perform-remembers (disk_turns writable) m q c h = remembers_same m _ refl h

-- None of the requests deletes a session.
abbrev pub NoDeletion : List Request → Type 0
NoDeletion [] = Unit {0}
NoDeletion (r ∷ rs) = KeepsSessions r × NoDeletion rs

-- An agent session id that some session of a consistent manager tracks, and that is neither
-- empty nor the continue sentinel, is still tracked by the session under the same key after any
-- requests that delete no session.
pub run-remembers :
    (a k : String) (rs : List Request) (m : Manager)
    → IsProper a
    → NoDeletion rs
    → IsConsistent m
    → remembers a k m ≡ true
    → remembers a k (run rs m) ≡ true
unfolding run
run-remembers a k [] m p q c h = h
run-remembers a k (r ∷ rs) m p q c h =
    run-remembers a k rs (perform r m) p q.1 (perform-IsConsistent r m c)
      (perform-remembers a k p r m q.0 c h)
