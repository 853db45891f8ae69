-- ===== src/Manager/Switching.antt =====
-- Choosing the active session, `SwitchSession` of core/session.go.
use cc2wechat.Prelude.{
  String, ◌≡◌, ◌⊎◌, refl, Bool, true, false, ◌||◌, none, some, List, [], ◌∷◌, inl, inr, arith, ◌==◌,
  eq_iff, if◌then◌else◌, Option-cases,
}
use cc2wechat.Prelude.Lists.{contains}
use cc2wechat.Prelude.GoMap.{GoMap, get, put, get-put}
use cc2wechat.Session.{Session}
use cc2wechat.Manager.State.{Manager, ids_of}
use cc2wechat.Manager.Create.{first_such, switch_session}
use cc2wechat.Manager.Consistent.{IsConsistent}
use cc2wechat.Manager.Invariant.{first_such_lem}
use cc2wechat.Manager.Steps.{id_at, id_at-save_locked}
use cc2wechat.Manager.Views.{ids_of-save_locked, active-save_locked}

-- The target names the session by its id or by its name.
abbrev pub named : String → Session → Bool
named target s = s.id == target || s.name == target

-- Where the loop finds nothing, nothing of the list passes.
first_such-none :
    (test : Session → Bool) (sessions : GoMap Session) (ids : List String) (a : String)
    (s : Session)
    → first_such test sessions ids ≡ none
    → contains a ids ≡ true
    → get a sessions ≡ some s
    → test s ≡ false
unfolding first_such contains
first_such-none test sessions [] a s h k e = cc
first_such-none test sessions (b ∷ ids) a s h k e =
    ground (arith, eq_iff b a, first_such-none test sessions ids a s)

-- For a consistent manager `SwitchSession` fails and changes nothing exactly where none of the
-- user's own sessions has the target as its id or name. Else the session that it returns is one
-- of the user's own, has the target as its id or name, and becomes the user's active one; all
-- other active entries, the lists and the ids stay.
pub switch_session_lem :
    (u target : String) (m : Manager)
    → IsConsistent m
    → let (n, found) = switch_session u target m in
      ((found ≡ none)
        × (n ≡ m)
        × ((a : String) (s : Session)
            → contains a (ids_of u m) ≡ true
            → get a m.sessions ≡ some s
            → named target s ≡ false))
      ⊎ ((sid : String) × (s : Session) × (found ≡ some sid)
          × (contains sid (ids_of u m) ≡ true)
          × (get sid m.sessions ≡ some s)
          × (named target s ≡ true)
          × ((v : String)
              → get v n.active_session ≡ (if u == v then some sid else get v m.active_session))
          × ((v : String) → ids_of v n ≡ ids_of v m)
          × ((k : String) → id_at k n ≡ id_at k m))
unfolding switch_session ids_of
switch_session_lem u target m c =
    elim (Option-cases (first_such (named target) m.sessions (ids_of u m))) [
      | inl e ↦
          rw (e, switch_session)
            (inl (refl, refl, λ a s. first_such-none (named target) m.sessions (ids_of u m) a s e))
      | inr ((sid, s), e) ↦
          let (own, here, passed) = first_such_lem (named target) m.sessions (ids_of u m) sid s e in
          rw (e, switch_session)
            (inr (
              sid,
              s,
              refl,
              own,
              here,
              passed,
              λ v. rw (active-save_locked, c.keyed sid s here) (get-put u v sid m.active_session),
              ids_of-save_locked (record m { active_session = put u s.id m.active_session }),
              id_at-save_locked (record m { active_session = put u s.id m.active_session }),
            ))
    ]
