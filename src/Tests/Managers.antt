-- ===== src/Tests/Managers.antt =====
-- Runs of the session manager, core/session.go.
use cc2wechat.Prelude.{
  String, ◌≡◌, ◌⊎◌, ◌↔◌, refl, true, false, none, some, List, [], ◌∷◌, ◌==◌, if◌then◌else◌,
}
use cc2wechat.Prelude.GoMap.{get, has, put, map_values, Unique}
use cc2wechat.Prelude.Lists.{contains}
use cc2wechat.Prelude.Decimal.{decimal}
use cc2wechat.Session.{Session, blank, set_agent_info, strip_continue_session_sentinel}
use cc2wechat.Session.Tracking.{IsProper, tracks}
use cc2wechat.Manager.State.{Manager, ids_of}
use cc2wechat.Manager.Query.{StringSet, known_agent_session_ids}
use cc2wechat.Manager.Known.{known_agent_session_ids_lem}
use cc2wechat.Manager.Steps.{id_at}
use cc2wechat.Manager.Switching.{named, switch_session_lem}
use cc2wechat.Manager.Persist.{new_session_manager, load, settle, save_locked}
use cc2wechat.Manager.Create.{
  get_or_create_active, live_active, new_session, switch_session, switch_to_agent_session,
  first_such, modify, create_locked, register, session_id,
}
use cc2wechat.Manager.Delete.{delete_by_id}
use cc2wechat.Manager.Consistent.{IsConsistent}
use cc2wechat.Manager.Invariant.{run_new-IsConsistent}
use cc2wechat.Manager.Fresh.{IsNew, new_session-IsNew, get_or_create_active_lem}
use cc2wechat.Manager.Gone.{IsGone, delete_by_id_lem}
use cc2wechat.Manager.Remember.{remembers, run-remembers}
use cc2wechat.Manager.RoundTrip.{IsRestored, new_session_manager-save_locked}
use cc2wechat.Manager.Requests.{
  Request, creates, gets_active, switches_to_agent, names, invalidates, saves, perform, run,
}

abbrev started : Manager
started = new_session_manager "/data/s.json" (record { file = none; writable = true })

abbrev opening : List Request
opening = creates "ann" "work" 7 ∷ gets_active "bob" 8 ∷ []

abbrev manager : Manager
manager = run opening started

manager-IsConsistent : IsConsistent manager
manager-IsConsistent = run_new-IsConsistent "/data/s.json" true opening

run_new-IsConsistent_example : IsConsistent (run opening started)
run_new-IsConsistent_example = run_new-IsConsistent "/data/s.json" true opening

get_or_create_active_lem_example :
    let (n, id) = get_or_create_active "ann" 9 manager in
    (((live_active "ann" manager ≡ some id) × (n ≡ manager))
      ⊎ ((live_active "ann" manager ≡ none) × IsNew "ann" "default" 9 id manager n))
    × (get_or_create_active "ann" 10 n ≡ (n, id))
get_or_create_active_lem_example = get_or_create_active_lem "ann" 9 10 manager manager-IsConsistent

new_session-IsNew_example :
    let (n, id) = new_session "ann" "play" 9 manager in
    IsNew "ann" "play" 9 id manager n
    × ((v : String)
        → get v n.active_session ≡ (if "ann" == v then some id else get v manager.active_session))
new_session-IsNew_example = new_session-IsNew "ann" "play" 9 manager manager-IsConsistent

delete_by_id_lem_example :
    let (n, found) = delete_by_id "s1" manager in
    ((found ≡ true) × (has "s1" manager.sessions ≡ true) × IsGone "s1" manager n)
    ⊎ ((found ≡ false) × (has "s1" manager.sessions ≡ false) × (n ≡ manager))
delete_by_id_lem_example = delete_by_id_lem "s1" manager manager-IsConsistent

switch_session_lem_example :
    let (n, found) = switch_session "ann" "work" manager in
    ((found ≡ none)
      × (n ≡ manager)
      × ((a : String) (s : Session)
          → contains a (ids_of "ann" manager) ≡ true
          → get a manager.sessions ≡ some s
          → named "work" s ≡ false))
    ⊎ ((sid : String) × (s : Session) × (found ≡ some sid)
        × (contains sid (ids_of "ann" manager) ≡ true)
        × (get sid manager.sessions ≡ some s)
        × (named "work" s ≡ true)
        × ((v : String)
            → get v n.active_session
              ≡ (if "ann" == v then some sid else get v manager.active_session))
        × ((v : String) → ids_of v n ≡ ids_of v manager)
        × ((k : String) → id_at k n ≡ id_at k manager))
switch_session_lem_example = switch_session_lem "ann" "work" manager manager-IsConsistent

abbrev linking : List Request
linking = switches_to_agent "ann" "agent-1" "claude" "fix" 7 ∷ []

abbrev later : List Request
later = gets_active "bob" 8 ∷ invalidates "codex" ∷ names "agent-1" "n" ∷ saves ∷ []

linked-IsConsistent : IsConsistent (run linking started)
linked-IsConsistent = run_new-IsConsistent "/data/s.json" true linking

agent-IsProper : IsProper "agent-1"
agent-IsProper = record { named = refl; real = refl }

linked : remembers "agent-1" "s1" (run linking started) ≡ true
unfolding remembers run perform new_session_manager load get switch_to_agent_session first_such
    ids_of save_locked modify create_locked register put session_id decimal settle map_values tracks
    strip_continue_session_sentinel set_agent_info blank contains
linked = refl

run-remembers_example : remembers "agent-1" "s1" (run later (run linking started)) ≡ true
run-remembers_example =
    run-remembers "agent-1" "s1" later (run linking started) agent-IsProper
      (tt, (tt, (tt, (tt, tt)))) linked-IsConsistent linked

linked-Unique : Unique (run linking started).sessions
unfolding run perform new_session_manager load get switch_to_agent_session first_such ids_of
    save_locked modify create_locked register put session_id decimal settle map_values
linked-Unique = (refl, tt)

known_agent_session_ids_lem_example :
    ((((run linking started).legacy_data ≡ true)
        × (known_agent_session_ids (run linking started) ≡ none))
      ⊎ (((run linking started).legacy_data ≡ false)
          × (ids : StringSet) × (known_agent_session_ids (run linking started) ≡ some ids)
          × ((a : String)
              → (a == "") ≡ false
              → (has a ids ≡ true) ↔ (
                  (k : String) × (s : Session) × (get k (run linking started).sessions ≡ some s)
                  × (tracks a s ≡ true)))))
known_agent_session_ids_lem_example =
    known_agent_session_ids_lem (run linking started) linked-Unique

has_path : (manager.store_path == "") ≡ false
unfolding run perform new_session_manager get_or_create_active live_active get new_session
    save_locked create_locked register load settle put
has_path = refl

may_write : manager.disk.writable ≡ true
unfolding run perform new_session_manager get_or_create_active live_active get new_session
    save_locked create_locked register load settle put
may_write = refl

new_session_manager-save_locked_example :
    IsRestored manager (new_session_manager manager.store_path (save_locked manager).disk)
new_session_manager-save_locked_example = new_session_manager-save_locked manager has_path may_write
