-- ===== src/WorkspacePool/Paths.antt =====
-- One state for each directory, core/workspace_state.go: names of one directory lead to one state.
use cc2wechat.Prelude.{
  ℕ, ◌<◌, String, ◌≡◌, refl, sym, ap, ◌∙◌, Option, none, some, inl, inr, arith, ◌==◌, eq_iff, leb,
  Option-cases, Bool-cases,
}
use cc2wechat.Prelude.GoMap.{
  get, delete_if, get-put, get-delete_if, Unique, put-Unique, delete_if-Unique,
}
use cc2wechat.WorkspacePool.{
  WorkspacePool, new_workspace_state, allocate, normalize_workspace_path, get_state, get_or_create,
  reap_idle, is_idle,
}

-- What the two library functions do: `filepath.Clean` changes nothing that is clean, and a resolved
-- path is clean and resolves to itself.
pub record AreResolving (clean : String → String) (eval_symlinks : String → Option String)
    : Type 0 where
  pub cleaned : (path : String) → clean (clean path) ≡ clean path
  pub clean_result : (path r : String) → eval_symlinks path ≡ some r → clean r ≡ r
  pub resolved : (path r : String) → eval_symlinks path ≡ some r → eval_symlinks r ≡ some r

module _ (clean : String → String) (eval_symlinks : String → Option String)
    (res : AreResolving clean eval_symlinks) where
  abbrev norm : String → String
  norm path = normalize_workspace_path clean eval_symlinks path

  norm-none : (path : String) → eval_symlinks (clean path) ≡ none → norm path ≡ clean path
  unfolding normalize_workspace_path
  norm-none path e = rw (e, normalize_workspace_path) refl

  norm-some : (path r : String) → eval_symlinks (clean path) ≡ some r → norm path ≡ r
  unfolding normalize_workspace_path
  norm-some path r e = rw (e, normalize_workspace_path) refl

  norm_idem : (path : String) → norm (norm path) ≡ norm path
  norm_idem path = elim (Option-cases (eval_symlinks (clean path))) [
    | inl e ↦
        ap norm (norm-none path e)
        ∙ norm-none (clean path) (ap eval_symlinks (res.cleaned path) ∙ e)
        ∙ res.cleaned path
        ∙ sym (norm-none path e)
    | inr (r, e) ↦
        ap norm (norm-some path r e)
        ∙ norm-some r r
            (ap eval_symlinks (res.clean_result (clean path) r e) ∙ res.resolved (clean path) r e)
        ∙ sym (norm-some path r e)
  ]

  -- Every path of the pool is in normal form and stands once; every state of it is allocated, and is
  -- that of its path only.
  pub record IsPool (p : WorkspacePool) : Type 0 where
    pub normal : (k : String) (r : ℕ) → get k p.states ≡ some r → norm k ≡ k
    pub unique : Unique p.states
    pub allocated : (k : String) (r : ℕ) → get k p.states ≡ some r → r < p.next
    pub named : (k : String) (r : ℕ) → get k p.states ≡ some r → (p.heap r).workspace ≡ k

  -- Under the invariant the two operations go by the normal form alone.
  get_state_normal :
      (w : String) (p : WorkspacePool)
      → IsPool p
      → get_state clean eval_symlinks w p ≡ get (norm w) p.states
  unfolding get_state
  get_state_normal w p i = elim (Option-cases (get w p.states)) [
    | inr (r, e) ↦ rw (e, get_state) (rw (i.normal w r e) (sym e))
    | inl e ↦ rw (e, get_state) (ground (arith, eq_iff (norm w) w))
  ]

  abbrev by_normal : String → ℕ → WorkspacePool → Option ℕ → WorkspacePool × ℕ
  by_normal w now p none = allocate (norm w) now p
  by_normal w now p (some r) = (p, r)

  get_or_create_normal :
      (w : String) (now : ℕ) (p : WorkspacePool)
      → IsPool p
      → get_or_create clean eval_symlinks w now p ≡ by_normal w now p (get (norm w) p.states)
  unfolding get_or_create
  get_or_create_normal w now p i = elim (Option-cases (get w p.states)) [
    | inr (r, e) ↦ rw (e, get_or_create) (rw (i.normal w r e) (rw e refl))
    | inl e ↦ elim (Bool-cases (norm w == w)) [
      | inl n ↦
          let e' : get (norm w) p.states ≡ none =
            ap (λ (k : String). get k p.states) ((eq_iff (norm w) w).0 n) ∙ e in
          rw (e, get_or_create) (rw n (rw e' refl))
      | inr n ↦ elim (Option-cases (get (norm w) p.states)) [
        | inl o ↦ rw (e, get_or_create) (rw n (rw o refl))
        | inr (r, o) ↦ rw (e, get_or_create) (rw n (rw o refl))
      ]
    ]
  ]

  allocate-IsPool :
      (k : String) (now : ℕ) (p : WorkspacePool)
      → norm k ≡ k
      → IsPool p
      → IsPool (allocate k now p).0
  unfolding allocate new_workspace_state
  allocate-IsPool k now p n i = record {
    normal = λ j r h. ground (arith, get-put k j p.next p.states, eq_iff k j, i.normal j r);
    unique = put-Unique k p.next p.states i.unique;
    allocated = λ j r h. ground (arith, get-put k j p.next p.states, i.allocated j r);
    named = λ j r h.
        ground (arith, get-put k j p.next p.states, eq_iff k j, i.named j r, i.allocated j r);
  }

  -- A directory whose state is there is found under all its names.
  found_lem :
      (w v : String) (later ref : ℕ) (q : WorkspacePool)
      → IsPool q
      → norm v ≡ norm w
      → get (norm w) q.states ≡ some ref
      → (get_or_create clean eval_symlinks v later q ≡ (q, ref))
        × (get_state clean eval_symlinks v q ≡ some ref)
  found_lem w v later ref q i e h =
      let h' : get (norm v) q.states ≡ some ref = ap (λ (k : String). get k q.states) e ∙ h in
      (
        get_or_create_normal v later q i ∙ ap (λ (o : Option ℕ). by_normal v later q o) h',
        get_state_normal v q i ∙ h',
      )

  -- For a pool under its invariant, and paths that the file system resolves, `GetOrCreate`
  -- returns one state for all names of a directory: the next call with any of them, at any time,
  -- returns it again and changes nothing, and `Get` finds it too. No path loses its state, and
  -- the invariant is kept.
  pub get_or_create_lem :
      (w v : String) (now later : ℕ) (p : WorkspacePool)
      → IsPool p
      → norm v ≡ norm w
      → let (q, ref) = get_or_create clean eval_symlinks w now p in
        IsPool q
        × (get_or_create clean eval_symlinks v later q ≡ (q, ref))
        × (get_state clean eval_symlinks v q ≡ some ref)
        × ((k : String) (r : ℕ) → get k p.states ≡ some r → get k q.states ≡ some r)
  unfolding allocate
  get_or_create_lem w v now later p i e = elim (Option-cases (get (norm w) p.states)) [
    | inl o ↦
        let made : IsPool (allocate (norm w) now p).0 =
          allocate-IsPool (norm w) now p (norm_idem w) i in
        let put_eq = λ (k : String). get-put (norm w) k p.next p.states in
        let (again, there) =
          found_lem w v later p.next (allocate (norm w) now p).0 made e
            (ground (arith, put_eq (norm w), eq_iff (norm w) (norm w))) in
        rw (get_or_create_normal w now p i ∙ ap (λ (x : Option ℕ). by_normal w now p x) o)
          (made, again, there, λ k r h. ground (arith, put_eq k, eq_iff (norm w) k))
    | inr (ref, o) ↦
        let (again, there) = found_lem w v later ref p i e o in
        rw (get_or_create_normal w now p i ∙ ap (λ (x : Option ℕ). by_normal w now p x) o)
          (i, again, there, λ k r h. h)
  ]

  -- A reap keeps the invariant: paths in normal form, each once, with an allocated state that is
  -- named as the path.
  pub reap_idle-IsPool : (now : ℕ) (p : WorkspacePool) → IsPool p → IsPool (reap_idle now p).0
  unfolding reap_idle
  reap_idle-IsPool now p i = elim (Bool-cases (leb p.idle_timeout 0)) [
    | inl off ↦ rw off i
    | inr on ↦
        let kept = λ (k : String). get-delete_if (λ _. is_idle now p) k p.states in
        let old : (k : String) (r : ℕ)
            → get k (delete_if (λ _. is_idle now p) p.states) ≡ some r
            → get k p.states ≡ some r =
          λ k r h. elim (Option-cases (get k p.states)) [
            | inl o ↦ ground (arith, kept k)
            | inr (s, o) ↦ ground (arith, kept k)
          ] in
        rw on (record {
          normal = λ k r h. i.normal k r (old k r h);
          unique = delete_if-Unique (λ _. is_idle now p) p.states i.unique;
          allocated = λ k r h. i.allocated k r (old k r h);
          named = λ k r h. i.named k r (old k r h);
        })
  ]
