-- ===== src/WorkspacePool/Reap.antt =====
-- What `ReapIdle` of core/workspace_state.go takes out of the pool.
use cc2wechat.Prelude.{
  ℕ, ◌<◌, String, ◌≡◌, ◌⊎◌, inl, inr, ◌↔◌, ◌+◌, true, sym, ◌∙◌, Option-cases, leb, Bool-cases, refl,
  Bool, false, Option, none, some, [], ◌∷◌, arith, eq_iff, if◌then◌else◌,
}
use cc2wechat.Prelude.Lists.{contains}
use cc2wechat.Prelude.GoMap.{GoMap, get, get-delete_if, Unique}
use cc2wechat.WorkspacePool.{WorkspacePool, has_active_turn, is_idle, idle_paths, reap_idle}

abbrev idle_at : (ℕ → Bool) → Option ℕ → Bool
idle_at idle none = false
idle_at idle (some ref) = idle ref

idle_paths-absent :
    (idle : ℕ → Bool) (path : String) (m : GoMap ℕ)
    → get path m ≡ none
    → contains path (idle_paths idle m) ≡ false
unfolding contains idle_paths get
idle_paths-absent idle path [] h = refl
idle_paths-absent idle path ((k, r) ∷ m) h = ground (arith, idle_paths-absent idle path m)

contains-idle_paths :
    (idle : ℕ → Bool) (path : String) (m : GoMap ℕ)
    → Unique m
    → contains path (idle_paths idle m) ≡ idle_at idle (get path m)
unfolding contains idle_paths get
contains-idle_paths idle path [] u = refl
contains-idle_paths idle path ((k, r) ∷ m) u =
    ground
      (arith, eq_iff k path, contains-idle_paths idle path m u.1, idle_paths-absent idle path m)

-- The path is of a state that is in no turn and was last active more than the timeout ago.
abbrev pub IsAbandoned : ℕ → WorkspacePool → String → Type 0
IsAbandoned now p path =
    (ref : ℕ) × (get path p.states ≡ some ref)
    × ((p.heap ref).active_turns ≡ 0)
    × ((p.heap ref).last_activity + p.idle_timeout < now)

idle_at-IsAbandoned :
    (now : ℕ) (p : WorkspacePool) (path : String)
    → (idle_at (is_idle now p) (get path p.states) ≡ true) ↔ IsAbandoned now p path
unfolding is_idle has_active_turn
idle_at-IsAbandoned now p path = elim (Option-cases (get path p.states)) [
  | inl e ↦ (λ h. absurd (ground (arith, h, e)), λ (ref, g, a, l). ground (arith, e, g))
  | inr (ref, e) ↦ (
    λ h. (ref, e, ground (arith, h, e), ground (arith, h, e)),
    λ (ref', g, a, l). ground (arith, e, g, a, l),
  )
]

-- Where the pool holds each path once: with a timeout, `ReapIdle` takes exactly the paths out
-- whose state is in no turn and was last active more than the timeout ago, and returns exactly
-- these; every other path keeps its state, and no state changes. Without a timeout it does
-- nothing.
pub reap_idle_lem :
    (now : ℕ) (p : WorkspacePool) (path : String)
    → Unique p.states
    → let (q, reaped) = reap_idle now p in
      ((p.idle_timeout ≡ 0) × (q ≡ p) × (reaped ≡ []))
      ⊎ ((0 < p.idle_timeout)
          × (q.heap ≡ p.heap)
          × ((contains path reaped ≡ true) ↔ IsAbandoned now p path)
          × (get path q.states ≡ (if contains path reaped then none else get path p.states)))
unfolding reap_idle
reap_idle_lem now p path u = elim (Bool-cases (leb p.idle_timeout 0)) [
  | inl off ↦ rw off (inl (ground (arith, off), refl, refl))
  | inr on ↦ rw on (
      inr (
        ground (arith, on),
        refl,
        (let c = contains-idle_paths (is_idle now p) path p.states u in
            let (to, from) = idle_at-IsAbandoned now p path in
            (λ h. to (sym c ∙ h), λ a. c ∙ from a)),
        ground (
          arith,
          contains-idle_paths (is_idle now p) path p.states u,
          get-delete_if (λ _. is_idle now p) path p.states,
        ),
      ))
]
