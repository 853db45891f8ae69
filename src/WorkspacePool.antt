-- ===== src/WorkspacePool.antt =====
-- `workspacePool` and `workspaceState` of core/workspace_state.go. A `*workspaceState` is a number, at
-- which `heap` has the state; so a state that was reaped can still be in use. `filepath.Clean` and
-- `filepath.EvalSymlinks` are parameters. The agent and the session manager of a state are not
-- modelled.
pub mod Paths
pub mod Reap
use cc2wechat.Prelude.{
  ℕ, zero, suc, ◌+◌, ◌-◌, String, Bool, true, false, not, ◌&&◌, Option, none, some, List, [], ◌∷◌,
  eqb, ltb, leb, ◌==◌, if◌then◌else◌,
}
use cc2wechat.Prelude.GoMap.{GoMap, get, put, delete_if}

pub record WorkspaceState : Type 0 where
  pub workspace : String
  pub last_activity : ℕ
  pub active_turns : ℕ

unfoldable pub new_workspace_state : String → ℕ → WorkspaceState
new_workspace_state workspace now = record {
  workspace = workspace;
  last_activity = now;
  active_turns = 0;
}

unfoldable pub touch : ℕ → WorkspaceState → WorkspaceState
touch now ws = record ws { last_activity = now }

unfoldable pub begin_turn : ℕ → WorkspaceState → WorkspaceState
begin_turn now ws = record ws { active_turns = ws.active_turns + 1; last_activity = now }

unfoldable pub end_turn : ℕ → WorkspaceState → WorkspaceState
end_turn now ws = record ws {
  active_turns = if ltb 0 ws.active_turns then ws.active_turns - 1 else ws.active_turns;
  last_activity = now;
}

unfoldable pub has_active_turn : WorkspaceState → Bool
has_active_turn ws = ltb 0 ws.active_turns

pub record WorkspacePool : Type 0 where
  pub states : GoMap ℕ
  pub idle_timeout : ℕ
  pub heap : ℕ → WorkspaceState
  pub next : ℕ

-- A change made through the `*workspaceState` at `ref`.
unfoldable pub modify : ℕ → (WorkspaceState → WorkspaceState) → WorkspacePool → WorkspacePool
modify ref f p = record p { heap = λ r. if eqb ref r then f (p.heap r) else p.heap r }

-- A state is allocated at the next number, and entered under its workspace.
unfoldable pub allocate : String → ℕ → WorkspacePool → WorkspacePool × ℕ
allocate workspace now p = (
  record p {
    heap = λ r. if eqb p.next r then new_workspace_state workspace now else p.heap r;
    next = p.next + 1;
    states = put workspace p.next p.states;
  },
  p.next,
)

module _ (clean : String → String) (eval_symlinks : String → Option String) where
  unfoldable pub normalize_workspace_path : String → String
  normalize_workspace_path path = elim (eval_symlinks (clean path)) [
    | none ↦ clean path
    | some resolved ↦ resolved
  ]

  unfoldable pub get_state : String → WorkspacePool → Option ℕ
  get_state workspace p = elim (get workspace p.states) [
    | some ref ↦ some ref
    | none ↦
        let normalized = normalize_workspace_path workspace in
        if normalized == workspace then none else get normalized p.states
  ]

  -- With nothing between the two times that the lock is held.
  unfoldable pub get_or_create : String → ℕ → WorkspacePool → WorkspacePool × ℕ
  get_or_create workspace now p = elim (get workspace p.states) [
    | some ref ↦ (p, ref)
    | none ↦
        let normalized = normalize_workspace_path workspace in
        let made = allocate normalized now p in
        if normalized == workspace
        then made
        else elim (get normalized p.states) [ some ref ↦ (p, ref) | none ↦ made ]
  ]

-- Idle since before `now - idle_timeout`, and in no turn.
unfoldable pub is_idle : ℕ → WorkspacePool → ℕ → Bool
is_idle now p ref =
    not (has_active_turn (p.heap ref)) && ltb ((p.heap ref).last_activity + p.idle_timeout) now

-- The paths that the loop collects.
unfoldable pub idle_paths : (ℕ → Bool) → GoMap ℕ → List String
idle_paths idle [] = []
idle_paths idle ((path, ref) ∷ rest) =
    let later = idle_paths idle rest in if idle ref then path ∷ later else later

unfoldable pub reap_idle : ℕ → WorkspacePool → WorkspacePool × List String
reap_idle now p = if leb p.idle_timeout 0 then (p, []) else (
  record p { states = delete_if (λ _. is_idle now p) p.states },
  idle_paths (is_idle now p) p.states,
)
