-- ===== src/Manager/Gone.antt =====
-- What deleting does, `DeleteByID` and `DeleteByAgentSessionID` of core/session.go.
use mathlib.Core.Path.{subst}
use cc2wechat.Prelude.{
  ◌⊎◌, String, ◌≡◌, ◌≢◌, sym, ap, ◌∙◌, not, List, [], ◌∷◌, Option, none, Option-cases, String-cases,
  refl, true, false, some, inl, inr, arith, ◌==◌, eq_iff, if◌then◌else◌, Bool-cases,
}
use cc2wechat.Prelude.Lists.{contains, keep, remove_first, Distinct}
use cc2wechat.Prelude.GoMap.{get, has}
use cc2wechat.Manager.State.{Manager, ids_of}
use cc2wechat.Manager.Persist.{save_locked}
use cc2wechat.Manager.Delete.{delete_by_id_locked, delete_by_id}
use cc2wechat.Manager.Consistent.{IsConsistent}
use cc2wechat.Manager.Views.{
  get-delete_by_id_locked, active-delete_by_id_locked, get-save_locked, ids_of-save_locked,
  active-save_locked, Stays, save_locked-Stays, names-save_locked, meta-save_locked,
  counter-save_locked, ids_of-delete_by_id_locked,
}

-- What is left of an active entry.
abbrev pub active_without : String → Option String → Option String
active_without id none = none
active_without id (some a) = if a == id then none else some a

-- The session `id` is nowhere in `n`, and all else is as in `m`: the other sessions, the lists but for the id,
-- the active entries but for those of the id, the names, the metadata and the counter.
pub record IsGone (id : String) (m n : Manager) : Type 0 where
  pub absent : has id n.sessions ≡ false
  pub kept : (k : String) → k ≢ id → Stays (get k m.sessions) (get k n.sessions)
  pub listed : (u : String) → ids_of u n ≡ keep (λ a. not (a == id)) (ids_of u m)
  pub active : (u : String) → get u n.active_session ≡ active_without id (get u m.active_session)
  pub names : n.session_names ≡ m.session_names
  pub meta : n.user_meta ≡ m.user_meta
  pub counted : n.counter ≡ m.counter

keep-none :
    (id : String) (xs : List String) → contains id xs ≡ false → keep (λ a. not (a == id)) xs ≡ xs
unfolding contains keep
keep-none id [] h = refl
keep-none id (x ∷ xs) h = ground (arith, keep-none id xs)

remove_first-keep :
    (id : String) (xs : List String)
    → Distinct xs
    → remove_first id xs ≡ keep (λ a. not (a == id)) xs
unfolding remove_first keep
remove_first-keep id [] d = refl
remove_first-keep id (x ∷ xs) d = elim (String-cases x id) [
  | inl (e, b) ↦ rw b (sym (keep-none id xs (subst (λ y. contains y xs ≡ false) e d.0)))
  | inr (e, b) ↦ rw b (ap (λ (ys : List String). x ∷ ys) (remove_first-keep id xs d.1))
]

module _ (id : String) (m : Manager) (c : IsConsistent m) where
  abbrev deleted : Manager
  deleted = save_locked (delete_by_id_locked id m)

  -- An active session is in its user's list, so the user has one.
  has_list : (u a : String) → get u m.active_session ≡ some a → has u m.user_sessions ≡ true
  unfolding ids_of contains
  has_list u a h = ground (arith, c.active u a)

  deleted-active :
      (u : String) → get u deleted.active_session ≡ active_without id (get u m.active_session)
  deleted-active u = elim (Option-cases (get u m.active_session)) [
    | inl e ↦
        ground
          (arith, active-save_locked (delete_by_id_locked id m), active-delete_by_id_locked id m u)
    | inr (a, e) ↦ ground (
      arith,
      active-save_locked (delete_by_id_locked id m),
      active-delete_by_id_locked id m u,
      has_list u a e,
    )
  ]

  deleted-IsGone : IsGone id m deleted
  unfolding delete_by_id_locked
  deleted-IsGone = record {
    absent = ground (
      arith,
      get-save_locked (delete_by_id_locked id m) id,
      get-delete_by_id_locked id m id,
      eq_iff id id,
    );
    kept = λ k h.
        save_locked-Stays k m (delete_by_id_locked id m)
          (get-delete_by_id_locked id m k ∙ ground (arith, eq_iff id k, h));
    listed = λ u.
        ids_of-save_locked (delete_by_id_locked id m) u
        ∙ ids_of-delete_by_id_locked id m u
        ∙ remove_first-keep id (ids_of u m) (c.distinct u);
    active = deleted-active;
    names = names-save_locked (delete_by_id_locked id m);
    meta = meta-save_locked (delete_by_id_locked id m);
    counted = counter-save_locked (delete_by_id_locked id m);
  }

  -- For a consistent manager `DeleteByID` returns true exactly when the session exists; then it
  -- takes the session out of the sessions, the lists and the active entries, and keeps every
  -- field of all other sessions, but that the save takes the continue sentinel out, the rest of
  -- the lists in their order, the other active entries, the names, the metadata and the counter.
  -- Else it changes nothing.
  pub delete_by_id_lem :
      let (n, found) = delete_by_id id m in
      ((found ≡ true) × (has id m.sessions ≡ true) × IsGone id m n)
      ⊎ ((found ≡ false) × (has id m.sessions ≡ false) × (n ≡ m))
  unfolding delete_by_id
  delete_by_id_lem = elim (Bool-cases (has id m.sessions)) [
    | inl e ↦ rw e (inl (refl, refl, deleted-IsGone))
    | inr e ↦ rw e (inr (refl, refl, refl))
  ]
