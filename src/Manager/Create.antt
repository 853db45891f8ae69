-- ===== src/Manager/Create.antt =====
-- Making and choosing sessions, core/session.go. Where the source returns a `*Session`, the model
-- returns the key that holds it.
use cc2wechat.Prelude.{
  ℕ, ◌+◌, String, Bool, ◌||◌, Option, none, some, List, [], ◌∷◌, ◌++◌, ◌==◌, if◌then◌else◌,
}
use cc2wechat.Prelude.GoMap.{GoMap, get, put}
use cc2wechat.Prelude.Decimal.{decimal}
use cc2wechat.Session.{Session, blank, set_agent_info}
use cc2wechat.Manager.State.{Manager, ids_of}
use cc2wechat.Manager.Persist.{save_locked}

-- `fmt.Sprintf("s%d", n)`
unfoldable pub session_id : ℕ → String
session_id n = String.◌∷◌ "s" (decimal n)

-- A session under the next id, entered in `sessions` and at the end of the user's list.
unfoldable pub register : String → String → ℕ → Manager → Manager
register user_key name now m =
    let id = session_id (m.counter + 1) in
    record m {
      counter = m.counter + 1;
      sessions = put id (blank id name now) m.sessions;
      user_sessions = put user_key (ids_of user_key m ++ id ∷ []) m.user_sessions;
    }

unfoldable pub create_locked : String → String → ℕ → Manager → Manager × String
create_locked user_key name now m =
    let id = session_id (m.counter + 1) in
    (
      record (register user_key name now m) { active_session = put user_key id m.active_session },
      id,
    )

unfoldable pub new_session : String → String → ℕ → Manager → Manager × String
new_session user_key name now m =
    let (m', id) = create_locked user_key name now m in (save_locked m', id)

unfoldable pub new_side_session : String → String → ℕ → Manager → Manager × String
new_side_session user_key name now m =
    (save_locked (register user_key name now m), session_id (m.counter + 1))

-- The active id of the user, if `sessions` still holds it.
unfoldable pub live_active : String → Manager → Option String
live_active user_key m = elim (get user_key m.active_session) [
  | none ↦ none
  | some sid ↦ elim (get sid m.sessions) [ none ↦ none | some s ↦ some sid ]
]

unfoldable pub get_or_create_active : String → ℕ → Manager → Manager × String
get_or_create_active user_key now m = elim (live_active user_key m) [
  | some sid ↦ (m, sid)
  | none ↦ new_session user_key "default" now m
]

-- `for _, sid := range ids { s := sm.sessions[sid]; if s != nil && test(s) { … } }`
unfoldable pub first_such :
    (Session → Bool) → GoMap Session → List String → Option (String × Session)
first_such test sessions [] = none
first_such test sessions (sid ∷ ids) =
    let rest = first_such test sessions ids in
    elim (get sid sessions) [ none ↦ rest | some s ↦ if test s then some (sid, s) else rest ]

activate : String → Session → Manager → Manager
activate user_key s m =
    save_locked (record m { active_session = put user_key s.id m.active_session })

unfoldable pub switch_session : String → String → Manager → Manager × Option String
unfolding activate
switch_session user_key target m =
    elim (first_such (λ s. s.id == target || s.name == target) m.sessions (ids_of user_key m)) [
      | none ↦ (m, none)
      | some (sid, s) ↦ (activate user_key s m, some sid)
    ]

-- A change made through the `*Session` that key `sid` holds.
unfoldable pub modify : String → (Session → Session) → Manager → Manager
modify sid f m = elim (get sid m.sessions) [
  | none ↦ m
  | some s ↦ record m { sessions = put sid (f s) m.sessions }
]

create_for_agent : String → String → String → String → ℕ → Manager → Manager × String
create_for_agent user_key agent_sid agent_name summary now m =
    let (m', id) = create_locked user_key summary now m in
    (save_locked (modify id (set_agent_info agent_sid agent_name summary) m'), id)

unfoldable pub switch_to_agent_session :
    String → String → String → String → ℕ → Manager → Manager × String
unfolding activate create_for_agent
switch_to_agent_session user_key agent_sid agent_name summary now m =
    elim (first_such (λ s. s.agent_session_id == agent_sid) m.sessions (ids_of user_key m)) [
      | none ↦ create_for_agent user_key agent_sid agent_name summary now m
      | some (sid, s) ↦ (activate user_key s m, sid)
    ]
