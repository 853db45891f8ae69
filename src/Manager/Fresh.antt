-- ===== src/Manager/Fresh.antt =====
-- What making a session does, `NewSession` and `NewSideSession` of core/session.go.
use cc2wechat.Prelude.{
  ◌⊎◌, ℕ, ◌+◌, String, ◌≡◌, ◌≢◌, ap, ◌∙◌, refl, false, none, some, [], ◌∷◌, ◌++◌, inl, inr, arith,
  ◌==◌, eq_iff, if◌then◌else◌, Option-cases,
}
use cc2wechat.Prelude.GoMap.{get, has, get-put}
use cc2wechat.Session.{blank, strip_continue_session_sentinel}
use cc2wechat.Manager.State.{Manager, ids_of}
use cc2wechat.Manager.Persist.{save_locked}
use cc2wechat.Manager.Create.{
  session_id, register, create_locked, new_session, new_side_session, live_active,
  get_or_create_active,
}
use cc2wechat.Manager.Consistent.{IsConsistent}
use cc2wechat.Manager.Views.{
  get-register, ids_of-register, get-save_locked, ids_of-save_locked, active-save_locked, Stays,
  save_locked-Stays, names-save_locked, meta-save_locked,
}

-- What holds of the manager `n` after a session `id` has been made for `user_key`.
pub record IsNew (user_key name : String) (now : ℕ) (id : String) (m n : Manager) : Type 0 where
  pub unused : has id m.sessions ≡ false
  pub made : get id n.sessions ≡ some (blank id name now)
  pub listed : ids_of user_key n ≡ ids_of user_key m ++ id ∷ []
  pub others : (v : String) → user_key ≢ v → ids_of v n ≡ ids_of v m
  pub kept : (k : String) → k ≢ id → Stays (get k m.sessions) (get k n.sessions)
  pub names : n.session_names ≡ m.session_names
  pub meta : n.user_meta ≡ m.user_meta

strip-blank :
    (id name : String) (now : ℕ)
    → strip_continue_session_sentinel (blank id name now) ≡ blank id name now
unfolding strip_continue_session_sentinel blank
strip-blank id name now = refl

module _ (user_key name : String) (now : ℕ) (m : Manager) (c : IsConsistent m) where
  abbrev registered : Manager
  registered = register user_key name now m

  -- A manager that differs from the registration in the active entries only, and is then saved.
  saved-IsNew :
      (n : Manager)
      → n.sessions ≡ registered.sessions
      → ((u : String) → ids_of u n ≡ ids_of u registered)
      → n.session_names ≡ m.session_names
      → n.user_meta ≡ m.user_meta
      → IsNew user_key name now (session_id (m.counter + 1)) m (save_locked n)
  saved-IsNew n s u a b = record {
    unused = c.fresh (m.counter + 1) (omega arith);
    made = ground (
      arith,
      get-save_locked n (session_id (m.counter + 1)),
      get-register user_key name now m (session_id (m.counter + 1)),
      eq_iff (session_id (m.counter + 1)) (session_id (m.counter + 1)),
      strip-blank (session_id (m.counter + 1)) name now,
    );
    listed = ground (
      arith,
      ids_of-save_locked n user_key,
      u user_key,
      ids_of-register user_key name now m user_key,
      eq_iff user_key user_key,
    );
    others = λ v h. ground (
      arith,
      ids_of-save_locked n v,
      u v,
      ids_of-register user_key name now m v,
      eq_iff user_key v,
    );
    kept = λ k h. save_locked-Stays k m n (
        ap (get k) s
        ∙ get-register user_key name now m k
        ∙ ground (arith, eq_iff (session_id (m.counter + 1)) k, h));
    names = names-save_locked n ∙ a;
    meta = meta-save_locked n ∙ b;
  }

  -- For a consistent manager `NewSession` makes a session under an unused id, at the end of the
  -- user's list, and keeps every field of all other sessions, but that the save takes the
  -- continue sentinel out, all other lists, the names and the metadata. It becomes the user's
  -- active one; other users keep theirs.
  pub new_session-IsNew :
      let (n, id) = new_session user_key name now m in
      IsNew user_key name now id m n
      × ((v : String)
          → get v n.active_session ≡ (if user_key == v then some id else get v m.active_session))
  unfolding new_session create_locked register ids_of
  new_session-IsNew = (
    saved-IsNew (create_locked user_key name now m).0 refl (λ u. refl) refl refl,
    λ v. rw active-save_locked (get-put user_key v (session_id (m.counter + 1)) m.active_session),
  )

  -- For a consistent manager `NewSideSession` makes a session under an unused id, at the end of
  -- the user's list, and keeps all other sessions and lists. All active entries stay.
  pub new_side_session-IsNew :
      let (n, id) = new_side_session user_key name now m in
      IsNew user_key name now id m n × (n.active_session ≡ m.active_session)
  unfolding new_side_session register
  new_side_session-IsNew =
      (saved-IsNew registered refl (λ u. refl) refl refl, active-save_locked registered)

  -- After `NewSession` the user's active session is the new one.
  live-new_session :
      live_active user_key (new_session user_key name now m).0
      ≡ some (new_session user_key name now m).1
  unfolding live_active
  live-new_session =
      let (new, active) = new_session-IsNew in
      ground (arith, active user_key, eq_iff user_key user_key, new.made)

get_or_create-live :
    (user_key sid : String) (now : ℕ) (m : Manager)
    → live_active user_key m ≡ some sid
    → get_or_create_active user_key now m ≡ (m, sid)
unfolding get_or_create_active
get_or_create-live user_key sid now m e = rw (e, get_or_create_active)

get_or_create-none :
    (user_key : String) (now : ℕ) (m : Manager)
    → live_active user_key m ≡ none
    → get_or_create_active user_key now m ≡ new_session user_key "default" now m
unfolding get_or_create_active
get_or_create-none user_key now m e = rw (e, get_or_create_active)

-- For a consistent manager `GetOrCreateActive` returns the user's live active session and
-- changes nothing, or, where there is none, makes a session named default as `NewSession` does.
-- Asked again, at any later time, it returns the same session and changes nothing.
pub get_or_create_active_lem :
    (user_key : String) (now later : ℕ) (m : Manager)
    → IsConsistent m
    → let (n, id) = get_or_create_active user_key now m in
      (((live_active user_key m ≡ some id) × (n ≡ m))
        ⊎ ((live_active user_key m ≡ none) × IsNew user_key "default" now id m n))
      × (get_or_create_active user_key later n ≡ (n, id))
get_or_create_active_lem user_key now later m c = elim (Option-cases (live_active user_key m)) [
  | inl e ↦ rw (get_or_create-none user_key now m e) (
    inr (e, (new_session-IsNew user_key "default" now m c).0),
    get_or_create-live user_key (new_session user_key "default" now m).1 later
        (new_session user_key "default" now m).0 (live-new_session user_key "default" now m c),
  )
  | inr (sid, e) ↦
      rw (get_or_create-live user_key sid now m e)
        (inl (e, refl), get_or_create-live user_key sid later m e)
]
