-- ===== src/Manager/RoundTrip.antt =====
-- Saving and loading, core/session.go: what a restarted program finds.
use mathlib.Core.Path.{subst}
use cc2wechat.Prelude.{
  String, ◌≡◌, sym, ap, ◌∙◌, Option, none, if◌then◌else◌, refl, true, false, some, [], ◌∷◌, inl,
  inr, arith, ◌==◌, Bool-cases, Option-cases,
}
use cc2wechat.Prelude.GoMap.{GoMap, get, map_values, get-map_values, map_option}
use cc2wechat.Session.{Session, continue_session, strip_continue_session_sentinel}
use cc2wechat.Manager.State.{Manager}
use cc2wechat.Manager.Views.{get-save_locked}
use cc2wechat.Manager.Persist.{
  persisted, snapshot_of, settle, save_locked, load, new_session_manager,
}

strip-persisted-strip :
    (s : Session)
    → strip_continue_session_sentinel (persisted (strip_continue_session_sentinel s))
      ≡ persisted (strip_continue_session_sentinel s)
unfolding strip_continue_session_sentinel persisted
strip-persisted-strip s = elim (Bool-cases (s.agent_session_id == continue_session)) [
  | inl e ↦ rw e refl
  | inr e ↦ rw (e, e) refl
]

reload-sessions :
    (m : GoMap Session)
    → map_values
        (λ _. strip_continue_session_sentinel)
        (map_values (λ _. persisted) (map_values (λ _. strip_continue_session_sentinel) m))
      ≡ map_values (λ _. persisted) (map_values (λ _. strip_continue_session_sentinel) m)
unfolding map_values
reload-sessions [] = refl
reload-sessions ((k, s) ∷ m) = cc (strip-persisted-strip s, reload-sessions m)

-- What a started manager has after the save, in the code's words.
reload-save_locked :
    (m : Manager)
    → (m.store_path == "") ≡ false
    → m.disk.writable ≡ true
    → new_session_manager m.store_path (save_locked m).disk
      ≡ record (save_locked m) { sessions = map_values (λ _. persisted) (save_locked m).sessions }
unfolding new_session_manager save_locked settle load snapshot_of
reload-save_locked m h w = simp (h, w, reload-sessions m.sessions)

-- A session as a restarted program has it: idle, and without the continue sentinel.
abbrev pub restarted : Session → Session
restarted s = record {
  id = s.id;
  name = s.name;
  agent_session_id = if s.agent_session_id == "__continue__" then "" else s.agent_session_id;
  agent_type = s.agent_type;
  past_agent_session_ids = s.past_agent_session_ids;
  history = s.history;
  created_at = s.created_at;
  updated_at = s.updated_at;
  busy = false;
}

-- The manager `r` has all that `m` had.
pub record IsRestored (m r : Manager) : Type 0 where
  pub sessions : (k : String) → get k r.sessions ≡ map_option restarted (get k m.sessions)
  pub active : r.active_session ≡ m.active_session
  pub lists : r.user_sessions ≡ m.user_sessions
  pub names : r.session_names ≡ m.session_names
  pub meta : r.user_meta ≡ m.user_meta
  pub counted : r.counter ≡ m.counter
  pub path : r.store_path ≡ m.store_path
  pub legacy : r.legacy_data ≡ true → m.legacy_data ≡ true

persisted-strip : (s : Session) → persisted (strip_continue_session_sentinel s) ≡ restarted s
unfolding strip_continue_session_sentinel persisted
persisted-strip s = elim (Bool-cases (s.agent_session_id == continue_session)) [
  | inl e ↦ rw e refl
  | inr e ↦ rw e refl
]

saved-IsRestored :
    (m : Manager)
    → (m.store_path == "") ≡ false
    → IsRestored m
        (record (save_locked m) { sessions = map_values (λ _. persisted) (save_locked m).sessions })
unfolding save_locked settle
saved-IsRestored m h = record {
  sessions = λ k.
      get-map_values (λ _. persisted) k (save_locked m).sessions
      ∙ ap (map_option persisted) (get-save_locked m k ∙ rw h refl)
      ∙ persisted-map (get k m.sessions);
  active = rw h refl;
  lists = rw h refl;
  names = rw h refl;
  meta = rw h refl;
  counted = rw h refl;
  path = rw h refl;
  legacy = λ e. ground (arith, e, h);
}
  where
    persisted-map :
        (o : Option Session)
        → map_option persisted (map_option strip_continue_session_sentinel o)
          ≡ map_option restarted o
    persisted-map none = refl
    persisted-map (some s) = ap some (persisted-strip s)

-- After a save to a path that reaches the disk, a program started on the same path has under
-- each key the session that was saved there, with its name, history, ids and times, idle and
-- without the continue sentinel, and has the saved active entries, lists, names, metadata and
-- counter; its legacy mark is not set where it was not set before the save.
pub new_session_manager-save_locked :
    (m : Manager)
    → (m.store_path == "") ≡ false
    → m.disk.writable ≡ true
    → IsRestored m (new_session_manager m.store_path (save_locked m).disk)
new_session_manager-save_locked m h w =
    subst (IsRestored m) (sym (reload-save_locked m h w)) (saved-IsRestored m h)

-- A save that does not reach the disk leaves the file as it was; a later save that does makes up
-- for it.
pub save_locked-failed : (m : Manager) → m.disk.writable ≡ false → (save_locked m).disk ≡ m.disk
unfolding save_locked settle
save_locked-failed m w = ground arith

unsent-strip :
    (s : Session)
    → ((strip_continue_session_sentinel s).agent_session_id == continue_session) ≡ false
unfolding strip_continue_session_sentinel
unsent-strip s = elim (Bool-cases (s.agent_session_id == continue_session)) [
  | inl e ↦ rw e refl
  | inr e ↦ rw e e
]

-- After a save to a path, no session in memory holds the continue sentinel as its agent session id.
pub save_locked-unsent :
    (m : Manager) (k : String) (s : Session)
    → (m.store_path == "") ≡ false
    → get k (save_locked m).sessions ≡ some s
    → (s.agent_session_id == continue_session) ≡ false
save_locked-unsent m k s h e = elim (Option-cases (get k m.sessions)) [
  | inl o ↦ ground (arith, get-save_locked m k)
  | inr (t, o) ↦ ground (arith, get-save_locked m k, unsent-strip t)
]
