-- ===== src/Manager/Delete.antt =====
-- Deleting and invalidating sessions, core/session.go.
use cc2wechat.Prelude.{
  ℕ, ◌+◌, zero, suc, String, Bool, true, false, ◌&&◌, ◌||◌, [], ◌∷◌, ◌==◌, if◌then◌else◌,
}
use cc2wechat.Prelude.Lists.{remove_first}
use cc2wechat.Prelude.GoMap.{GoMap, has, delete, delete_if, map_values}
use cc2wechat.Session.{Session, is_stale, invalidate}
use cc2wechat.Manager.State.{Manager}
use cc2wechat.Manager.Persist.{save_locked}

-- The loop runs over the keys of `userSessions`, and takes the id out of each list once; an active
-- entry is deleted where its key is among those and its value is the id.
unfoldable pub delete_by_id_locked : String → Manager → Manager
delete_by_id_locked id m = record m {
  sessions = delete id m.sessions;
  user_sessions = map_values (λ _ ids. remove_first id ids) m.user_sessions;
  active_session =
      delete_if (λ user_key sid. has user_key m.user_sessions && sid == id) m.active_session;
}

unfoldable pub delete_by_id : String → Manager → Manager × Bool
delete_by_id id m =
    if has id m.sessions then (save_locked (delete_by_id_locked id m), true) else (m, false)

-- One round of the loop over the entries of `sessions`, with the count of those removed.
unfoldable pub delete_if_matched : String → String → Session → Manager × ℕ → Manager × ℕ
delete_if_matched agent_session_id id s r =
    if s.agent_session_id == agent_session_id then (delete_by_id_locked id r.0, r.1 + 1) else r

unfoldable pub delete_matching : String → GoMap Session → Manager × ℕ → Manager × ℕ
delete_matching agent_session_id [] r = r
delete_matching agent_session_id ((id, s) ∷ rest) r =
    delete_matching agent_session_id rest (delete_if_matched agent_session_id id s r)

unfoldable pub save_if_removed : Manager × ℕ → Manager × ℕ
save_if_removed (m, zero) = (m, zero)
save_if_removed (m, suc n) = (save_locked m, suc n)

unfoldable pub delete_by_agent_session_id : String → Manager → Manager × ℕ
delete_by_agent_session_id agent_session_id m =
    if agent_session_id == ""
    then (m, 0)
    else save_if_removed (delete_matching agent_session_id m.sessions (m, 0))

unfoldable pub any_stale : String → GoMap Session → Bool
any_stale agent_type [] = false
any_stale agent_type ((k, s) ∷ m) = is_stale agent_type s || any_stale agent_type m

unfoldable pub invalidate_for_agent : String → Manager → Manager
invalidate_for_agent agent_type m =
    let m' = record m { sessions = map_values (λ _. invalidate agent_type) m.sessions } in
    if any_stale agent_type m.sessions then save_locked m' else m'
