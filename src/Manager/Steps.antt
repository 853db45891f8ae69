-- ===== src/Manager/Steps.antt =====
-- Each step of the operations of `SessionManager`, core/session.go, keeps its invariant.
use cc2wechat.Prelude.{
  String, ◌≡◌, true, false, Option, some, inl, inr, arith, ◌==◌, eq_iff, Option-cases,
  if◌then◌else◌,
}
use cc2wechat.Prelude.Lists.{
  contains, remove_first-Distinct, contains-remove_first_ne, contains-remove_first_self,
}
use cc2wechat.Prelude.GoMap.{get, put, has, get-put, map_option}
use cc2wechat.Session.{Session, strip_continue_session_sentinel}
use cc2wechat.Manager.State.{Manager, ids_of}
use cc2wechat.Manager.Persist.{save_locked}
use cc2wechat.Manager.Create.{session_id}
use cc2wechat.Manager.Delete.{delete_by_id_locked}
use cc2wechat.Manager.Consistent.{IsConsistent}
use cc2wechat.Manager.Views.{
  get-delete_by_id_locked, ids_of-delete_by_id_locked, active-delete_by_id_locked, get-save_locked,
  ids_of-save_locked, active-save_locked, counter-save_locked,
}

-- The id of the session under a key.
abbrev pub id_at : String → Manager → Option String
id_at k m = map_option (λ s. s.id) (get k m.sessions)

module _ (m n : Manager) (ids : (k : String) → id_at k n ≡ id_at k m) (c : IsConsistent m) where
  remap-keyed : (k : String) (s : Session) → get k n.sessions ≡ some s → s.id ≡ k
  remap-keyed k s h = elim (Option-cases (get k m.sessions)) [
    | inl e ↦ ground (arith, ids k)
    | inr (t, e) ↦ ground (arith, ids k, c.keyed k t e)
  ]

  remap-has : (k : String) → has k n.sessions ≡ has k m.sessions
  remap-has k = ground (arith, ids k)

  -- A change of the sessions that keeps the keys and the ids keeps the invariant.
  pub remap-IsConsistent :
      ((u : String) → ids_of u n ≡ ids_of u m)
      → n.active_session ≡ m.active_session
      → n.counter ≡ m.counter
      → IsConsistent n
  remap-IsConsistent lists active counter = record {
    keyed = remap-keyed;
    fresh = λ i h. rw remap-has (c.fresh i (omega (arith, counter)));
    listed = λ u a h. rw remap-has (c.listed u a (rw (lists u) at h));
    distinct = λ u. rw (lists u) (c.distinct u);
    owner = λ u v a h k. c.owner u v a (rw (lists u) at h) (rw (lists v) at k);
    active = λ u a h. rw (lists u) (c.active u a (rw active at h));
  }

id-strip : (s : Session) → (strip_continue_session_sentinel s).id ≡ s.id
unfolding strip_continue_session_sentinel
id-strip s = ground arith

pub id_at-save_locked : (m : Manager) (k : String) → id_at k (save_locked m) ≡ id_at k m
id_at-save_locked m k = elim (Option-cases (get k m.sessions)) [
  | inl e ↦ ground (arith, get-save_locked m k)
  | inr (s, e) ↦ ground (arith, get-save_locked m k, id-strip s)
]

pub save_locked-IsConsistent : (m : Manager) → IsConsistent m → IsConsistent (save_locked m)
save_locked-IsConsistent m c =
    remap-IsConsistent m (save_locked m) (id_at-save_locked m) c (ids_of-save_locked m)
      (active-save_locked m) (counter-save_locked m)

-- Making an id of the user's own list the active one.
pub activate-IsConsistent :
    (u a : String) (m : Manager)
    → contains a (ids_of u m) ≡ true
    → IsConsistent m
    → IsConsistent (record m { active_session = put u a m.active_session })
unfolding ids_of
activate-IsConsistent u a m own c = record {
  keyed = c.keyed;
  fresh = c.fresh;
  listed = c.listed;
  distinct = c.distinct;
  owner = c.owner;
  active = λ v b h. ground (arith, get-put u v a m.active_session, eq_iff u v, c.active v b);
}

module _ (id : String) (m : Manager) (c : IsConsistent m) where
  -- After the deletion the id is in no list; other ids stay where they were.
  pub contains-deleted :
      (u a : String)
      → contains a (ids_of u (delete_by_id_locked id m))
        ≡ (if a == id then false else contains a (ids_of u m))
  contains-deleted u a = rw ids_of-delete_by_id_locked (
      ground (
        arith,
        eq_iff a id,
        contains-remove_first_ne a id (ids_of u m),
        contains-remove_first_self id (ids_of u m) (c.distinct u),
      ))

  delete-keyed :
      (k : String) (s : Session) → get k (delete_by_id_locked id m).sessions ≡ some s → s.id ≡ k
  delete-keyed k s h = ground (arith, get-delete_by_id_locked id m k, c.keyed k s)

  delete-listed :
      (u a : String)
      → contains a (ids_of u (delete_by_id_locked id m)) ≡ true
      → has a (delete_by_id_locked id m).sessions ≡ true
  delete-listed u a h = ground (
    arith,
    contains-deleted u a,
    get-delete_by_id_locked id m a,
    c.listed u a,
    eq_iff a id,
    eq_iff id a,
  )

  has_list : (u a : String) → contains a (ids_of u m) ≡ true → has u m.user_sessions ≡ true
  unfolding ids_of contains
  has_list u a h = ground arith

  delete-active :
      (u a : String)
      → get u (delete_by_id_locked id m).active_session ≡ some a
      → contains a (ids_of u (delete_by_id_locked id m)) ≡ true
  delete-active u a h =
      ground
        (arith, active-delete_by_id_locked id m u, contains-deleted u a, c.active u a, has_list u a)

  pub delete_by_id_locked-IsConsistent : IsConsistent (delete_by_id_locked id m)
  unfolding delete_by_id_locked
  delete_by_id_locked-IsConsistent = record {
    keyed = delete-keyed;
    fresh = λ n h. ground (arith, get-delete_by_id_locked id m (session_id n), c.fresh n h);
    listed = delete-listed;
    distinct =
        λ u. rw ids_of-delete_by_id_locked (remove_first-Distinct id (ids_of u m) (c.distinct u));
    owner = λ u v a h k.
        c.owner u v a (ground (arith, contains-deleted u a)) (ground (arith, contains-deleted v a));
    active = delete-active;
  }
