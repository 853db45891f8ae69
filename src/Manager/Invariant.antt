-- ===== src/Manager/Invariant.antt =====
-- Every use of `SessionManager`, core/session.go, keeps its invariant.
use cc2wechat.Prelude.{
  ℕ, ◌+◌, String, ◌≡◌, refl, Bool, true, ◌||◌, none, some, List, [], ◌∷◌, inl, inr, arith, ◌==◌,
  eq_iff, Option-cases,
}
use cc2wechat.Prelude.Lists.{contains, contains-append}
use cc2wechat.Prelude.GoMap.{GoMap, get, put}
use cc2wechat.Session.{Session}
use cc2wechat.Session.Updates.{update}
use cc2wechat.Manager.State.{Manager, ids_of}
use cc2wechat.Manager.Persist.{save_locked, new_session_manager, load}
use cc2wechat.Manager.Create.{
  session_id, register, create_locked, new_session, new_side_session, live_active,
  get_or_create_active, first_such, switch_session, switch_to_agent_session,
}
use cc2wechat.Manager.Query.{set_session_name, update_user_meta}
use cc2wechat.Manager.Views.{ids_of-register}
use cc2wechat.Manager.Consistent.{IsConsistent, register-IsConsistent}
use cc2wechat.Manager.Steps.{remap-IsConsistent, save_locked-IsConsistent, activate-IsConsistent}
use cc2wechat.Manager.Modify.{modify-IsConsistent, id-set_agent_info, id-update}
use cc2wechat.Manager.Removal.{
  delete_by_id-IsConsistent, delete_by_agent_session_id-IsConsistent,
  invalidate_for_agent-IsConsistent,
}
use cc2wechat.Manager.Requests.{
  Request, creates, creates_side, gets_active, switches, switches_to_agent, names, describes,
  deletes, deletes_agent, invalidates, changes, saves, disk_turns, perform, run,
}

own_new :
    (user_key name : String) (now : ℕ) (m : Manager)
    → contains (session_id (m.counter + 1)) (ids_of user_key (register user_key name now m)) ≡ true
unfolding contains
own_new user_key name now m = rw ids_of-register (
    ground (
      arith,
      eq_iff user_key user_key,
      eq_iff (session_id (m.counter + 1)) (session_id (m.counter + 1)),
      contains-append (session_id (m.counter + 1)) (ids_of user_key m)
          (session_id (m.counter + 1) ∷ []),
    ))

create_locked-IsConsistent :
    (user_key name : String) (now : ℕ) (m : Manager)
    → IsConsistent m
    → IsConsistent (create_locked user_key name now m).0
unfolding create_locked register
create_locked-IsConsistent user_key name now m c =
    activate-IsConsistent user_key (session_id (m.counter + 1)) (register user_key name now m)
      (own_new user_key name now m) (register-IsConsistent user_key name now m c)

-- What the loop over a user's ids finds.
pub first_such_lem :
    (test : Session → Bool) (sessions : GoMap Session) (ids : List String) (sid : String)
    (s : Session)
    → first_such test sessions ids ≡ some (sid, s)
    → (contains sid ids ≡ true) × (get sid sessions ≡ some s) × (test s ≡ true)
unfolding first_such contains
first_such_lem test sessions [] sid s h = cc
first_such_lem test sessions (a ∷ ids) sid s h =
    ground (arith, eq_iff a sid, first_such_lem test sessions ids sid s)

-- The loop finds an id of the user's own list, so making its session active keeps the invariant.
found-IsConsistent :
    (test : Session → Bool) (u sid : String) (s : Session) (m : Manager)
    → first_such test m.sessions (ids_of u m) ≡ some (sid, s)
    → IsConsistent m
    → IsConsistent (save_locked (record m { active_session = put u s.id m.active_session }))
found-IsConsistent test u sid s m h c =
    let (own, here, passed) = first_such_lem test m.sessions (ids_of u m) sid s h in
    save_locked-IsConsistent (record m { active_session = put u s.id m.active_session })
      (rw (c.keyed sid s here) (activate-IsConsistent u sid m own c))

switch_session-IsConsistent :
    (u target : String) (m : Manager) → IsConsistent m → IsConsistent (switch_session u target m).0
unfolding switch_session
switch_session-IsConsistent u target m c =
    elim (Option-cases
      (first_such (λ s. s.id == target || s.name == target) m.sessions (ids_of u m))) [
        | inl e ↦ rw (e, switch_session) c
        | inr ((sid, s), e) ↦ rw (e, switch_session) (found-IsConsistent _ u sid s m e c)
      ]

switch_to_agent_session-IsConsistent :
    (u a t summary : String) (now : ℕ) (m : Manager)
    → IsConsistent m
    → IsConsistent (switch_to_agent_session u a t summary now m).0
unfolding switch_to_agent_session
switch_to_agent_session-IsConsistent u a t summary now m c =
    elim (Option-cases (first_such (λ s. s.agent_session_id == a) m.sessions (ids_of u m))) [
      | inl e ↦
          rw (e, switch_to_agent_session)
            (save_locked-IsConsistent _ (
              modify-IsConsistent _ _ _ (id-set_agent_info a t summary)
                (create_locked-IsConsistent u summary now m c)))
      | inr ((sid, s), e) ↦ rw (e, switch_to_agent_session) (found-IsConsistent _ u sid s m e c)
    ]

get_or_create_active-IsConsistent :
    (u : String) (now : ℕ) (m : Manager)
    → IsConsistent m
    → IsConsistent (get_or_create_active u now m).0
unfolding new_session get_or_create_active
get_or_create_active-IsConsistent u now m c = elim (Option-cases (live_active u m)) [
  | inl e ↦
      rw (e, get_or_create_active)
        (save_locked-IsConsistent _ (create_locked-IsConsistent u "default" now m c))
  | inr (sid, e) ↦ rw (e, get_or_create_active) c
]

-- The invariant speaks of four parts of the manager only.
same_parts-IsConsistent :
    (m n : Manager)
    → n.sessions ≡ m.sessions
    → n.user_sessions ≡ m.user_sessions
    → n.active_session ≡ m.active_session
    → n.counter ≡ m.counter
    → IsConsistent m
    → IsConsistent n
unfolding ids_of
same_parts-IsConsistent m n s u a k c = remap-IsConsistent m n (λ i. rw s) c (λ i. rw u) a k

pub perform-IsConsistent : (r : Request) (m : Manager) → IsConsistent m → IsConsistent (perform r m)
unfolding perform new_session new_side_session update_user_meta set_session_name
perform-IsConsistent (creates user_key name now) m c =
    save_locked-IsConsistent _ (create_locked-IsConsistent user_key name now m c)
perform-IsConsistent (creates_side user_key name now) m c =
    save_locked-IsConsistent _ (register-IsConsistent user_key name now m c)
perform-IsConsistent (gets_active user_key now) m c =
    get_or_create_active-IsConsistent user_key now m c
perform-IsConsistent (switches user_key target) m c =
    switch_session-IsConsistent user_key target m c
perform-IsConsistent (switches_to_agent user_key a t summary now) m c =
    switch_to_agent_session-IsConsistent user_key a t summary now m c
perform-IsConsistent (names a name) m c =
    save_locked-IsConsistent _
      (same_parts-IsConsistent m _ (ground arith) (ground arith) (ground arith) (ground arith) c)
perform-IsConsistent (describes session_key user_name chat_name) m c =
    same_parts-IsConsistent m _ (ground arith) (ground arith) (ground arith) (ground arith) c
perform-IsConsistent (deletes id) m c = delete_by_id-IsConsistent id m c
perform-IsConsistent (deletes_agent a) m c = delete_by_agent_session_id-IsConsistent a m c
perform-IsConsistent (invalidates t) m c = invalidate_for_agent-IsConsistent t m c
perform-IsConsistent (changes sid u) m c = modify-IsConsistent sid (update u) m (id-update u) c
perform-IsConsistent saves m c = save_locked-IsConsistent m c
perform-IsConsistent (disk_turns writable) m c = same_parts-IsConsistent m _ refl refl refl refl c

-- Whatever is asked of it, in any order, a consistent manager stays consistent.
pub run-IsConsistent : (rs : List Request) (m : Manager) → IsConsistent m → IsConsistent (run rs m)
unfolding run
run-IsConsistent [] m c = c
run-IsConsistent (r ∷ rs) m c = run-IsConsistent rs (perform r m) (perform-IsConsistent r m c)

empty-IsConsistent :
    (m : Manager) → m.sessions ≡ [] → m.user_sessions ≡ [] → m.active_session ≡ [] → IsConsistent m
unfolding ids_of contains get
empty-IsConsistent m s u a = record {
  keyed = λ k t h. ground arith;
  fresh = λ n h. ground arith;
  listed = λ v b h. ground arith;
  distinct = λ v. rw u tt;
  owner = λ v w b h k. ground arith;
  active = λ v b h. ground arith;
}

-- A manager that starts with no readable file is consistent after any requests: creating,
-- choosing, naming, deleting and invalidating sessions, updates of a session, and saves that may
-- fail.
pub run_new-IsConsistent :
    (store_path : String) (writable : Bool) (rs : List Request)
    → IsConsistent
        (run rs (new_session_manager store_path (record { file = none; writable = writable })))
unfolding new_session_manager load
run_new-IsConsistent store_path writable rs =
    run-IsConsistent rs _ (empty-IsConsistent _ (ground arith) (ground arith) (ground arith))
