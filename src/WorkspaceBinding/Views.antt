-- ===== src/WorkspaceBinding/Views.antt =====
-- What `Bind` and `Unbind` of core/workspace_binding.go do to the bindings, at any project and key.
use cc2wechat.Prelude.{
  String, ◌≡◌, refl, false, ◌&&◌, Option, none, some, List, [], ◌∷◌, arith, ◌==◌, eq_iff,
  if◌then◌else◌, Option-cases, inl, inr,
}
use cc2wechat.Prelude.Lists.{contains}
use cc2wechat.Prelude.GoMap.{GoMap, get, put, delete, get-put, get-delete}
use cc2wechat.WorkspaceBinding.{
  WorkspaceBinding, Bindings, or_new, legacy_workspace_channel_key,
  workspace_channel_key_candidates, first_of, lookup_locked, bind_in, delete_all, put_or_delete,
  unbind_in, effective_in, shared_workspace_bindings_key,
}

abbrev pub find_in : String → Option (GoMap WorkspaceBinding) → Option WorkspaceBinding
find_in key none = none
find_in key (some proj) = get key proj

-- The binding that stands under a project and a key.
unfoldable pub find : String → String → Bindings → Option WorkspaceBinding
find project_key key bindings = find_in key (get project_key bindings)

pub find-bind_in :
    (p c q k : String) (b : WorkspaceBinding) (bs : Bindings)
    → find q k (bind_in p c b bs) ≡ (if p == q && c == k then some b else find q k bs)
unfolding find bind_in get
find-bind_in p c q k b bs = elim (Option-cases (get p bs)) [
  | inl e ↦
      ground (arith, eq_iff p q, get-put p q (put c b (or_new (get p bs))) bs, get-put c k b [])
  | inr (proj, e) ↦
      ground (arith, eq_iff p q, get-put p q (put c b (or_new (get p bs))) bs, get-put c k b proj)
]

get-delete_all :
    (k : String) (ks : List String) (proj : GoMap WorkspaceBinding)
    → get k (delete_all ks proj) ≡ (if contains k ks then none else get k proj)
unfolding delete_all contains
get-delete_all k [] proj = refl
get-delete_all k (c ∷ ks) proj =
    ground (arith, get-delete_all k ks (delete c proj), get-delete c k proj, eq_iff c k)

find-put_or_delete :
    (p q k : String) (proj : GoMap WorkspaceBinding) (bs : Bindings)
    → find q k (put_or_delete p proj bs) ≡ (if p == q then get k proj else find q k bs)
unfolding find put_or_delete get
find-put_or_delete p q k [] bs = ground (arith, get-delete p q bs)
find-put_or_delete p q k (e ∷ proj) bs = ground (arith, get-put p q (e ∷ proj) bs)

pub find-unbind_in :
    (p c q k : String) (bs : Bindings)
    → find q k (unbind_in p c bs)
      ≡ (if p == q && contains k (workspace_channel_key_candidates c) then none else find q k bs)
unfolding find unbind_in
find-unbind_in p c q k bs = elim (Option-cases (get p bs)) [
  | inl e ↦ rw (e, unbind_in) (ground (arith, eq_iff p q))
  | inr (proj, e) ↦
      rw (e, unbind_in)
        (unfold find in
          ground (
            arith,
            eq_iff p q,
            find-put_or_delete p q k (delete_all (workspace_channel_key_candidates c) proj) bs,
            get-delete_all k (workspace_channel_key_candidates c) proj,
          ))
]

-- The first of the keys under which the project has a binding.
first_found : String → List String → Bindings → Option WorkspaceBinding
first_found p [] bs = none
first_found p (c ∷ ks) bs =
    let later = first_found p ks bs in elim (find p c bs) [ none ↦ later | some b ↦ some b ]

no-first_found :
    (p : String) (bs : Bindings) (ks : List String) → get p bs ≡ none → none ≡ first_found p ks bs
unfolding first_found find
no-first_found p bs [] e = refl
no-first_found p bs (k ∷ ks) e = ground (arith, no-first_found p bs ks e)

first_of-first_found :
    (p : String) (bs : Bindings) (proj : GoMap WorkspaceBinding) (ks : List String)
    → get p bs ≡ some proj
    → first_of ks proj ≡ first_found p ks bs
unfolding first_found find first_of
first_of-first_found p bs proj [] e = refl
first_of-first_found p bs proj (k ∷ ks) e = ground (arith, first_of-first_found p bs proj ks e)

lookup-first_found :
    (p c : String) (bs : Bindings)
    → lookup_locked p c bs ≡ first_found p (workspace_channel_key_candidates c) bs
unfolding lookup_locked
lookup-first_found p c bs = elim (Option-cases (get p bs)) [
  | inl e ↦ rw (e, lookup_locked) (no-first_found p bs (workspace_channel_key_candidates c) e)
  | inr (proj, e) ↦
      rw (e, lookup_locked) (first_of-first_found p bs proj (workspace_channel_key_candidates c) e)
]

-- A lookup takes the binding under the key itself, and else, for a key that is not empty, the one
-- under the legacy key.
pub lookup_locked_lem :
    (p c : String) (bs : Bindings)
    → lookup_locked p c bs ≡ (
        if c == "" then none else elim (find p c bs) [
          | some b ↦ some b
          | none ↦ find p (legacy_workspace_channel_key c) bs
        ])
unfolding first_found workspace_channel_key_candidates
lookup_locked_lem p c bs =
    ground (arith, lookup-first_found p c bs, eq_iff (legacy_workspace_channel_key c) c)

-- After `Bind` the channel's lookup finds the new binding.
pub lookup-bind_in :
    (p c : String) (b : WorkspaceBinding) (bs : Bindings)
    → (c == "") ≡ false
    → lookup_locked p c (bind_in p c b bs) ≡ some b
lookup-bind_in p c b bs h = ground (
  arith,
  lookup_locked_lem p c (bind_in p c b bs),
  find-bind_in p c p c b bs,
  eq_iff p p,
  eq_iff c c,
)

-- After `Unbind` the channel's lookup finds nothing.
pub lookup-unbind_in : (p c : String) (bs : Bindings) → lookup_locked p c (unbind_in p c bs) ≡ none
unfolding workspace_channel_key_candidates contains
lookup-unbind_in p c bs = ground (
  arith,
  lookup_locked_lem p c (unbind_in p c bs),
  find-unbind_in p c p c bs,
  find-unbind_in p c p (legacy_workspace_channel_key c) bs,
  eq_iff p p,
  eq_iff c c,
  eq_iff (legacy_workspace_channel_key c) (legacy_workspace_channel_key c),
  eq_iff (legacy_workspace_channel_key c) c,
)

lookup-other :
    (p q c : String) (bs : Bindings)
    → (p == q) ≡ false
    → lookup_locked q c (unbind_in p c bs) ≡ lookup_locked q c bs
lookup-other p q c bs h = ground (
  arith,
  lookup_locked_lem q c (unbind_in p c bs),
  lookup_locked_lem q c bs,
  find-unbind_in p c q c bs,
  find-unbind_in p c q (legacy_workspace_channel_key c) bs,
)

-- After `Unbind` in a project other than the shared one the channel has the shared binding, if
-- there is one, with the shared key; else none.
pub effective-unbind_in :
    (p c : String) (bs : Bindings)
    → (p == shared_workspace_bindings_key) ≡ false
    → effective_in p c (unbind_in p c bs)
      ≡ (elim (lookup_locked shared_workspace_bindings_key c bs) [
        | some b ↦ (some b, shared_workspace_bindings_key)
        | none ↦ (none, "")
      ])
unfolding effective_in
effective-unbind_in p c bs h =
    ground (arith, lookup-unbind_in p c bs, lookup-other p shared_workspace_bindings_key c bs h)
