-- ===== src/Manager/Consistent.antt =====
-- The invariant of `SessionManager`, core/session.go, and that each step keeps it.
use cc2wechat.Prelude.{
  ℕ, ◌+◌, ◌<◌, String, ◌≡◌, refl, true, false, ◌&&◌, ◌||◌, some, [], ◌∷◌, inl, inr, arith, ◌==◌,
  eq_iff, Bool-cases,
}
use cc2wechat.Prelude.Lists.{contains, contains-append, Distinct, append-Distinct}
use cc2wechat.Prelude.GoMap.{get, has}
use cc2wechat.Session.{Session, blank}
use cc2wechat.Manager.State.{Manager, ids_of}
use cc2wechat.Manager.Create.{session_id, register}
use cc2wechat.Manager.Views.{session_id_ne, get-register, ids_of-register}

-- `keyed`: a session stands under its own id. `fresh`: the ids yet to come are unused. `listed`: the
-- users' lists hold ids of sessions that exist. `distinct`: no list repeats an id. `owner`: no id is
-- in two users' lists. `active`: the active id of a user is in the user's own list.
pub record IsConsistent (m : Manager) : Type 0 where
  pub keyed : (k : String) (s : Session) → get k m.sessions ≡ some s → s.id ≡ k
  pub fresh : (n : ℕ) → m.counter < n → has (session_id n) m.sessions ≡ false
  pub listed : (u a : String) → contains a (ids_of u m) ≡ true → has a m.sessions ≡ true
  pub distinct : (u : String) → Distinct (ids_of u m)
  pub owner :
      (u v a : String) → contains a (ids_of u m) ≡ true → contains a (ids_of v m) ≡ true → u ≡ v
  pub active : (u a : String) → get u m.active_session ≡ some a → contains a (ids_of u m) ≡ true

-- An id still to come is in no list.
unlisted :
    (m : Manager) (c : IsConsistent m) (n : ℕ) (u : String)
    → m.counter < n
    → contains (session_id n) (ids_of u m) ≡ false
unlisted m c n u h = elim (Bool-cases (contains (session_id n) (ids_of u m))) [
  | inl e ↦ cc (c.fresh n h, c.listed u (session_id n) e)
  | inr e ↦ e
]

module _ (user_key name : String) (now : ℕ) (m : Manager) (c : IsConsistent m) where
  abbrev new_id : String
  new_id = session_id (m.counter + 1)

  contains_new :
      (u a : String)
      → contains a (ids_of u (register user_key name now m))
        ≡ (contains a (ids_of u m) || ((user_key == u) && (new_id == a)))
  unfolding contains
  contains_new u a =
      rw ids_of-register
        (ground (arith, eq_iff user_key u, contains-append a (ids_of user_key m) (new_id ∷ [])))

  register-keyed :
      (k : String) (s : Session) → get k (register user_key name now m).sessions ≡ some s → s.id ≡ k
  unfolding blank
  register-keyed k s h =
      ground (arith, get-register user_key name now m k, eq_iff new_id k, c.keyed k s)

  register-has :
      (a : String)
      → has a (register user_key name now m).sessions ≡ ((new_id == a) || has a m.sessions)
  register-has a = ground (arith, get-register user_key name now m a)

  register-counter : (register user_key name now m).counter ≡ m.counter + 1
  unfolding register
  register-counter = refl

  register-active : (register user_key name now m).active_session ≡ m.active_session
  unfolding register
  register-active = refl

  register-fresh :
      (n : ℕ)
      → m.counter + 1 < n
      → has (session_id n) (register user_key name now m).sessions ≡ false
  register-fresh n h = ground (
    arith,
    register-has (session_id n),
    session_id_ne (m.counter + 1) n h,
    c.fresh n (omega arith),
  )

  register-Distinct : (u : String) → Distinct (ids_of u (register user_key name now m))
  register-Distinct u = rw ids_of-register (
      ground (
        arith,
        c.distinct u,
        append-Distinct new_id (ids_of user_key m)
            (unlisted m c (m.counter + 1) user_key (omega arith)) (c.distinct user_key),
      ))

  register-owner :
      (u v a : String)
      → contains a (ids_of u (register user_key name now m)) ≡ true
      → contains a (ids_of v (register user_key name now m)) ≡ true
      → u ≡ v
  register-owner u v a h k = ground (
    arith,
    contains_new u a,
    contains_new v a,
    eq_iff user_key u,
    eq_iff user_key v,
    eq_iff new_id a,
    c.owner u v a,
    unlisted m c (m.counter + 1) u (omega arith),
    unlisted m c (m.counter + 1) v (omega arith),
  )

  pub register-IsConsistent : IsConsistent (register user_key name now m)
  register-IsConsistent = record {
    keyed = register-keyed;
    fresh = λ n h. register-fresh n (omega (arith, register-counter));
    listed = λ u a h. ground (arith, contains_new u a, register-has a, c.listed u a);
    distinct = register-Distinct;
    owner = register-owner;
    active = λ u a h. ground (arith, contains_new u a, c.active u a (rw register-active at h));
  }
