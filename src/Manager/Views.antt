-- ===== src/Manager/Views.antt =====
-- What each step of the manager's operations does to the map of sessions, to the lists of ids and
-- to the active entries: one equation for each, at any key.
use mathlib.Core.Path.{subst}
use cc2wechat.Prelude.{
  ◌⊎◌, refl, sym, ap, ◌∙◌, Option, Bool-cases, String-cases, ℕ, ◌+◌, ◌<◌, String, ◌≡◌, false, ◌&&◌,
  none, some, [], ◌∷◌, ◌++◌, arith, ◌==◌, eq_iff, eq_false, Option-cases, inl, inr, if◌then◌else◌,
}
use cc2wechat.Prelude.Decimal.{prefixed_injective}
use cc2wechat.Prelude.Lists.{remove_first}
use cc2wechat.Prelude.GoMap.{
  get, has, get-put, get-delete, get-delete_if, get-map_values, map_option, keep_unless,
}
use cc2wechat.Session.{Session, blank, strip_continue_session_sentinel}
use cc2wechat.Manager.State.{Manager, ids_of}
use cc2wechat.Manager.Persist.{settle, save_locked}
use cc2wechat.Manager.Create.{session_id, register, modify}
use cc2wechat.Manager.Delete.{delete_by_id_locked}

pub session_id_injective : (i j : ℕ) → session_id i ≡ session_id j → i ≡ j
unfolding session_id
session_id_injective i j e = prefixed_injective "s" i j e

pub session_id_ne : (i j : ℕ) → i < j → (session_id i == session_id j) ≡ false
session_id_ne i j h =
    eq_false (session_id i) (session_id j) (λ e. omega (arith, session_id_injective i j e))

module _ (user_key name : String) (now : ℕ) (m : Manager) where
  pub get-register :
      (k : String)
      → get k (register user_key name now m).sessions ≡ (
          if session_id (m.counter + 1) == k
          then some (blank (session_id (m.counter + 1)) name now)
          else get k m.sessions)
  unfolding register
  get-register k = get-put (session_id (m.counter + 1)) k _ m.sessions

  pub ids_of-register :
      (u : String)
      → ids_of u (register user_key name now m) ≡ (
          if user_key == u
          then ids_of user_key m ++ session_id (m.counter + 1) ∷ []
          else ids_of u m)
  unfolding register ids_of
  ids_of-register u = ground (
    arith,
    get-put user_key u (ids_of user_key m ++ session_id (m.counter + 1) ∷ []) m.user_sessions,
  )

module _ (id : String) (m : Manager) where
  pub get-delete_by_id_locked :
      (k : String)
      → get k (delete_by_id_locked id m).sessions ≡ (if id == k then none else get k m.sessions)
  unfolding delete_by_id_locked
  get-delete_by_id_locked k = get-delete id k m.sessions

  pub ids_of-delete_by_id_locked :
      (u : String) → ids_of u (delete_by_id_locked id m) ≡ remove_first id (ids_of u m)
  unfolding delete_by_id_locked ids_of remove_first
  ids_of-delete_by_id_locked u =
      ground (arith, get-map_values (λ _ ids. remove_first id ids) u m.user_sessions)

  pub active-delete_by_id_locked :
      (u : String)
      → get u (delete_by_id_locked id m).active_session
        ≡ keep_unless
            (λ user_key sid. has user_key m.user_sessions && sid == id)
            u
            (get u m.active_session)
  unfolding delete_by_id_locked
  active-delete_by_id_locked u = get-delete_if _ u m.active_session

pub get-modify :
    (sid : String) (f : Session → Session) (m : Manager) (k : String)
    → get k (modify sid f m).sessions
      ≡ (if sid == k then map_option f (get k m.sessions) else get k m.sessions)
unfolding modify
get-modify sid f m k = elim (Option-cases (get sid m.sessions)) [
  | inl e ↦ rw (e, modify) (ground (arith, eq_iff sid k))
  | inr (s, e) ↦ rw (e, modify) (ground (arith, eq_iff sid k, get-put sid k (f s) m.sessions))
]

-- Saving touches the sessions only by taking the sentinel out.
module _ (m : Manager) where
  pub get-save_locked :
      (k : String)
      → get k (save_locked m).sessions ≡ (
          if m.store_path == ""
          then get k m.sessions
          else map_option strip_continue_session_sentinel (get k m.sessions))
  unfolding save_locked settle
  get-save_locked k =
      ground (arith, get-map_values (λ _. strip_continue_session_sentinel) k m.sessions)

  pub ids_of-save_locked : (u : String) → ids_of u (save_locked m) ≡ ids_of u m
  unfolding save_locked settle ids_of
  ids_of-save_locked u = ground arith

  pub active-save_locked : (save_locked m).active_session ≡ m.active_session
  unfolding save_locked settle
  active-save_locked = ground arith

  pub counter-save_locked : (save_locked m).counter ≡ m.counter
  unfolding save_locked settle
  counter-save_locked = ground arith

-- A session that is there before is there after, with the same fields; but the continue sentinel may have
-- been taken out. And none comes up.
abbrev pub Stays : Option Session → Option Session → Type 0
Stays none o = o ≡ none
Stays (some s) o =
    (o ≡ some s)
    ⊎ ((s.agent_session_id ≡ "__continue__") × (o ≡ some (record s { agent_session_id = "" })))

Stays-strip : (o : Option Session) → Stays o (map_option strip_continue_session_sentinel o)
unfolding strip_continue_session_sentinel
Stays-strip none = refl
Stays-strip (some s) = elim (String-cases s.agent_session_id "__continue__") [
  | inl (e, b) ↦ inr (e, rw b refl)
  | inr (e, b) ↦ inl (rw b refl)
]

Stays-refl : (o : Option Session) → Stays o o
Stays-refl none = refl
Stays-refl (some s) = inl refl

-- What a save leaves of a session that the manager `n` before the save has from `m`.
pub save_locked-Stays :
    (k : String) (m n : Manager)
    → get k n.sessions ≡ get k m.sessions
    → Stays (get k m.sessions) (get k (save_locked n).sessions)
save_locked-Stays k m n e = elim (Bool-cases (n.store_path == "")) [
  | inl b ↦ subst (Stays (get k m.sessions)) (sym (get-save_locked n k ∙ rw b e)) (Stays-refl _)
  | inr b ↦
      subst (Stays (get k m.sessions))
        (sym (get-save_locked n k ∙ rw b (ap (map_option strip_continue_session_sentinel) e)))
        (Stays-strip _)
]

-- The names and the metadata of a saved manager.
pub names-save_locked : (m : Manager) → (save_locked m).session_names ≡ m.session_names
unfolding save_locked settle
names-save_locked m = ground arith

pub meta-save_locked : (m : Manager) → (save_locked m).user_meta ≡ m.user_meta
unfolding save_locked settle
meta-save_locked m = ground arith
