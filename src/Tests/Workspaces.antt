-- ===== src/Tests/Workspaces.antt =====
-- Runs of core/dir_history.go, core/workspace_binding.go and core/workspace_state.go.
use cc2wechat.Prelude.{
  ◌↔◌, ℕ, ◌<◌, String, ◌≡◌, ◌⊎◌, refl, true, Option, none, some, List, [], ◌∷◌, arith, ◌==◌, eq_iff,
  Bool-cases, inl, inr, if◌then◌else◌,
}
use cc2wechat.Prelude.Lists.{take, contains}
use cc2wechat.Prelude.GoMap.{get, Unique}
use cc2wechat.DirHistory.{DirHistory, list, add, previous, new_dir_history}
use cc2wechat.DirHistory.Recent.{adds, visits, newest, list-adds, previous-add}
use cc2wechat.DirHistory.Reload.{new_dir_history-add}
use cc2wechat.WorkspaceBinding.{
  WorkspaceBinding, Bindings, lookup, lookup_effective, lookup_locked, effective_in, missing,
}
use cc2wechat.WorkspaceBinding.Shared.{
  Processes, Command, binds, unbinds, looks_up, run, ideal_run, lookup-run,
}
use cc2wechat.WorkspacePool.{
  WorkspacePool, new_workspace_state, get_or_create, get_state, reap_idle, normalize_workspace_path,
}
use cc2wechat.WorkspacePool.Paths.{AreResolving, IsPool, get_or_create_lem}
use cc2wechat.WorkspacePool.Reap.{IsAbandoned, reap_idle_lem}

abbrev history : DirHistory
history = record {
  store_path = "/data/dir_history.json";
  entries = [];
  max_size = 3;
  disk = record { file = none; writable = true };
}

abbrev switches : List (String × String)
switches =
    ("bot", "/a")
    ∷ ("bot", "/b")
    ∷ ("web", "/w")
    ∷ ("bot", "/c")
    ∷ ("bot", "/a")
    ∷ ("bot", "/d")
    ∷ []

history-empty : list "bot" history ≡ []
unfolding list get
history-empty = refl

list-adds_example : list "bot" (adds switches history) ≡ take 3 (newest (visits "bot" switches []))
list-adds_example = list-adds "bot" switches history (omega arith) history-empty

abbrev in_a : DirHistory
in_a = record history { entries = ("bot", "/a" ∷ []) ∷ [] }

front_a : list "bot" in_a ≡ "/a" ∷ []
unfolding list get
front_a = refl

previous-add_example :
    (previous "bot" (add "bot" "/b" in_a) ≡ "/a")
    × (previous "bot" (add "bot" "/a" (add "bot" "/b" in_a)) ≡ "/b")
previous-add_example = previous-add "bot" "/b" "/a" [] in_a (omega arith) refl refl refl front_a

new_dir_history-add_example :
    (new_dir_history history.store_path (add "bot" "/a" history).disk).entries
    ≡ (add "bot" "/a" history).entries
new_dir_history-add_example = new_dir_history-add "bot" "/a" history refl refl refl

abbrev binding : WorkspaceBinding
binding = record { channel_name = "general"; workspace = "/w"; bound_at = 5 }

abbrev processes : Processes
processes = record {
  managers = λ i. record {
    bindings = [];
    store_path = "/data/bindings.json";
    last_loaded_mod_time = 0;
    last_loaded_size = 0;
  };
  store = record { entry = missing; writable = true };
}

abbrev commands : List (ℕ × (Command × ℕ))
commands =
    (0, (binds "project:a" "slack:C1" binding, 5))
    ∷ (1, (looks_up "project:a" "slack:C1", 6))
    ∷ (1, (unbinds "project:b" "C1", 7))
    ∷ []

abbrev two_bytes : Bindings → ℕ
two_bytes bs = 2

lookup-run_example :
    let ps' = run two_bytes commands processes in
    ((lookup "project:a" "slack:C1" ps'.store (ps'.managers 2)).1
      ≡ lookup_locked "project:a" "slack:C1" (ideal_run commands []))
    × ((lookup_effective "project:a" "slack:C1" ps'.store (ps'.managers 2)).1
        ≡ effective_in "project:a" "slack:C1" (ideal_run commands []))
lookup-run_example =
    lookup-run two_bytes commands processes 2 "project:a" "slack:C1" refl refl (λ j. refl)
      (λ j. refl) (omega arith, (omega arith, (omega arith, tt)))

abbrev clean : String → String
clean path = if path == "/w/" then "/w" else path

abbrev resolve : String → Option String
resolve path = if path == "/link" then some "/w" else if path == "/w" then some "/w" else none

-- What resolves, resolves to the one directory.
resolve-w : (path r : String) → resolve path ≡ some r → r ≡ "/w"
resolve-w path r h = ground arith

clean_idem : (path : String) → clean (clean path) ≡ clean path
clean_idem path = elim (Bool-cases (path == "/w/")) [ inl e ↦ rw e refl | inr e ↦ rw e (rw e refl) ]

clean-AreResolving : AreResolving clean resolve
clean-AreResolving = record {
  cleaned = clean_idem;
  clean_result = λ path r h. rw (resolve-w path r h) refl;
  resolved = λ path r h. rw (resolve-w path r h) refl;
}

abbrev pool : WorkspacePool
pool = record {
  states = ("/w", 0) ∷ [];
  idle_timeout = 10;
  heap = λ r. new_workspace_state "/w" 3;
  next = 1;
}

is_w : (k : String) (r : ℕ) → get k pool.states ≡ some r → "/w" ≡ k
unfolding get
is_w k r h = ground (arith, eq_iff "/w" k)

pool-IsPool : IsPool clean resolve clean-AreResolving pool
unfolding get normalize_workspace_path new_workspace_state
pool-IsPool = record {
  normal = λ k r h. rw⁻¹ (is_w k r h) refl;
  unique = (refl, tt);
  allocated = λ k r h. ground arith;
  named = λ k r h. is_w k r h;
}

same_directory :
    normalize_workspace_path clean resolve "/w/" ≡ normalize_workspace_path clean resolve "/link"
unfolding normalize_workspace_path
same_directory = refl

get_or_create_lem_example :
    let (q, ref) = get_or_create clean resolve "/link" 7 pool in
    IsPool clean resolve clean-AreResolving q
    × (get_or_create clean resolve "/w/" 8 q ≡ (q, ref))
    × (get_state clean resolve "/w/" q ≡ some ref)
    × ((k : String) (r : ℕ) → get k pool.states ≡ some r → get k q.states ≡ some r)
get_or_create_lem_example =
    get_or_create_lem clean resolve clean-AreResolving "/link" "/w/" 7 8 pool pool-IsPool
      same_directory

pool-Unique : Unique pool.states
unfolding get
pool-Unique = (refl, tt)

reap_idle_lem_example :
    let (q, reaped) = reap_idle 20 pool in
    ((pool.idle_timeout ≡ 0) × (q ≡ pool) × (reaped ≡ []))
    ⊎ ((0 < pool.idle_timeout)
        × (q.heap ≡ pool.heap)
        × ((contains "/w" reaped ≡ true) ↔ IsAbandoned 20 pool "/w")
        × (get "/w" q.states ≡ (if contains "/w" reaped then none else get "/w" pool.states)))
reap_idle_lem_example = reap_idle_lem 20 pool "/w" pool-Unique

abbrev bound : Bindings
bound = ("project:a", ("slack:C1", binding) ∷ []) ∷ ("shared", ("C1", binding) ∷ []) ∷ []
