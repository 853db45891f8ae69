-- ===== src/WorkspaceBinding/Shared.antt =====
-- Managers of several processes over one file, core/workspace_binding.go: reading the file again by
-- its time keeps them alike.
use cc2wechat.Prelude.{
  ℕ, ◌<◌, String, ◌≡◌, refl, true, false, List, [], ◌∷◌, arith, ◌==◌, eqb, if◌then◌else◌,
  Bool-cases, inl, inr, ap,
}
use cc2wechat.WorkspaceBinding.Follows.{
  Holds, no_file, Follows, Moves, refresh-Follows, save-Holds, later-Follows, later-Holds,
  transport_Moves,
}
use cc2wechat.WorkspaceBinding.{
  WorkspaceBinding, Bindings, WorkspaceBindingManager, missing, Store, bind_in, unbind_in,
  refresh_locked, lookup_locked, lookup, effective_in, lookup_effective, bind, unbind,
}

-- The managers by number, and the file.
pub record Processes : Type 0 where
  pub managers : ℕ → WorkspaceBindingManager
  pub store : Store

pub data Command : Type 0 where
  binds : String → String → WorkspaceBinding → Command
  unbinds : String → String → Command
  looks_up : String → String → Command

abbrev replace : ℕ → WorkspaceBindingManager × Store → Processes → Processes
replace i (m, store) ps = record {
  managers = λ j. if eqb i j then m else ps.managers j;
  store = store;
}

module _ (size_of : Bindings → ℕ) where
  -- What a command makes of the manager that runs it and of the file.
  unfoldable pub obey :
      Command → ℕ → WorkspaceBindingManager × Store → WorkspaceBindingManager × Store
  obey (binds p c b) mtime s = bind size_of p c b mtime s
  obey (unbinds p c) mtime s = unbind size_of p c mtime s
  obey (looks_up p c) mtime s = ((lookup p c s.1 s.0).0, s.1)

  -- Process `i` runs the command at time `mtime`.
  unfoldable pub step : ℕ → Command → ℕ → Processes → Processes
  step i command mtime ps = replace i (obey command mtime (ps.managers i, ps.store)) ps

  unfoldable pub run : List (ℕ × (Command × ℕ)) → Processes → Processes
  run [] ps = ps
  run ((i, (command, mtime)) ∷ rest) ps = run rest (step i command mtime ps)

-- One map of bindings that all commands go to.
unfoldable pub ideal : Command → Bindings → Bindings
ideal (binds p c b) bs = bind_in p c b bs
ideal (unbinds p c) bs = unbind_in p c bs
ideal (looks_up p c) bs = bs

unfoldable pub ideal_run : List (ℕ × (Command × ℕ)) → Bindings → Bindings
ideal_run [] bs = bs
ideal_run ((i, (command, mtime)) ∷ rest) bs = ideal_run rest (ideal command bs)

-- The times of the commands rise, from after `last`.
abbrev pub Rising : ℕ → List (ℕ × (Command × ℕ)) → Type 0
Rising last [] = Unit {0}
Rising last ((i, (command, mtime)) ∷ rest) = (last < mtime) × Rising mtime rest

record Agree (last : ℕ) (bs : Bindings) (ps : Processes) : Type 0 where
  writable : ps.store.writable ≡ true
  holds : Holds last bs ps.store.entry
  follows : (i : ℕ) → Follows last bs ps.store.entry (ps.managers i)

-- Each command moves the file and the manager that runs it on to the bindings of the ideal map.
obey-Moves :
    (size_of : Bindings → ℕ) (last mtime : ℕ) (bs : Bindings) (command : Command)
    (m : WorkspaceBindingManager) (store : Store)
    → store.writable ≡ true
    → Holds last bs store.entry
    → Follows last bs store.entry m
    → last < mtime
    → Moves last mtime bs (ideal command bs) store (obey size_of command mtime (m, store))
unfolding obey ideal bind unbind lookup
obey-Moves size_of last mtime bs (binds p c b) m store w d f h =
    let (e, f') = refresh-Follows last bs store m d f in
    let m' : WorkspaceBindingManager = refresh_locked store m in
    transport_Moves (ap (λ (bs' : Bindings). bind_in p c b bs') e) (
      save-Holds size_of last mtime bs (record m' { bindings = bind_in p c b m'.bindings }) store
        f'.path w h)
obey-Moves size_of last mtime bs (unbinds p c) m store w d f h =
    let (e, f') = refresh-Follows last bs store m d f in
    let m' : WorkspaceBindingManager = refresh_locked store m in
    transport_Moves (ap (λ (bs' : Bindings). unbind_in p c bs') e) (
      save-Holds size_of last mtime bs (record m' { bindings = unbind_in p c m'.bindings }) store
        f'.path w h)
obey-Moves size_of last mtime bs (looks_up p c) m store w d f h = record {
  writable = w;
  holds = later-Holds last mtime bs store.entry h d;
  own = later-Follows last mtime bs store.entry _ h (refresh-Follows last bs store m d f).1;
  others = λ o g. later-Follows last mtime bs store.entry o h g;
}

step-Agree :
    (size_of : Bindings → ℕ) (last mtime i : ℕ) (bs : Bindings) (command : Command) (ps : Processes)
    → Agree last bs ps
    → last < mtime
    → Agree mtime (ideal command bs) (step size_of i command mtime ps)
unfolding step
step-Agree size_of last mtime i bs command ps a h =
    let moves =
      obey-Moves size_of last mtime bs command (ps.managers i) ps.store a.writable a.holds
        (a.follows i) h in
    record {
      writable = moves.writable;
      holds = moves.holds;
      follows = λ j. elim (Bool-cases (eqb i j)) [
        | inl e ↦ rw e moves.own
        | inr e ↦ rw e (moves.others (ps.managers j) (a.follows j))
      ];
    }

abbrev pub end_of : ℕ → List (ℕ × (Command × ℕ)) → ℕ
end_of last [] = last
end_of last ((i, (command, mtime)) ∷ rest) = end_of mtime rest

run-Agree :
    (size_of : Bindings → ℕ) (last : ℕ) (cs : List (ℕ × (Command × ℕ))) (bs : Bindings)
    (ps : Processes)
    → Agree last bs ps
    → Rising last cs
    → Agree (end_of last cs) (ideal_run cs bs) (run size_of cs ps)
unfolding run ideal_run
run-Agree size_of last [] bs ps a r = a
run-Agree size_of last ((i, (command, mtime)) ∷ cs) bs ps a r =
    run-Agree size_of mtime cs (ideal command bs) (step size_of i command mtime ps)
      (step-Agree size_of last mtime i bs command ps a r.0) r.1

-- Any number of managers that have loaded nothing share a path where there is no file yet and that
-- can be written. After any commands, each run by any of them, with times of writing that rise, every
-- manager answers a lookup and an effective lookup as one map to which all commands went.
pub lookup-run :
    (size_of : Bindings → ℕ) (cs : List (ℕ × (Command × ℕ))) (ps : Processes) (i : ℕ) (p c : String)
    → ps.store.entry ≡ missing
    → ps.store.writable ≡ true
    → ((j : ℕ) → ((ps.managers j).store_path == "") ≡ false)
    → ((j : ℕ) → (ps.managers j).last_loaded_mod_time ≡ 0)
    → Rising 0 cs
    → let ps' = run size_of cs ps in
      ((lookup p c ps'.store (ps'.managers i)).1 ≡ lookup_locked p c (ideal_run cs []))
      × ((lookup_effective p c ps'.store (ps'.managers i)).1 ≡ effective_in p c (ideal_run cs []))
unfolding lookup lookup_effective
lookup-run size_of cs ps i p c e w paths unread r =
    let start : Agree 0 [] ps = record {
      writable = w;
      holds = no_file e refl;
      follows = λ j. record { path = paths j; old = omega (arith, unread j); same = λ info h. cc };
    } in
    let a = run-Agree size_of 0 cs [] ps start r in
    let ps' = run size_of cs ps in
    let (same, _) =
      refresh-Follows (end_of 0 cs) (ideal_run cs []) ps'.store (ps'.managers i) a.holds
        (a.follows i) in
    (
      ap (λ (bs : Bindings). lookup_locked p c bs) same,
      ap (λ (bs : Bindings). effective_in p c bs) same,
    )
