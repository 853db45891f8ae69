-- ===== src/ProjectState/Restart.antt =====
-- What a restarted program finds of core/projectstate.go, after any changes and a save.
use cc2wechat.Prelude.{
  String, ◌≡◌, refl, sym, ap, ◌∙◌, true, false, List, [], ◌∷◌, arith, ◌==◌, if◌then◌else◌,
}
use cc2wechat.Prelude.GoMap.{get, get-put, get-delete}
use cc2wechat.ProjectState.{
  ProjectStateStore, ProjectStateData, or_blank, new_project_state_store, load, work_dir_override,
  set_work_dir_override, workspace_dir_override, set_workspace_dir_override,
  clear_workspace_dir_override, clear_work_dir_override, save,
}

pub data Change : Type 0 where
  sets_work_dir : String → Change
  clears_work_dir : Change
  sets : String → String → Change
  clears : String → Change

unfoldable pub change : Change → ProjectStateStore → ProjectStateStore
change (sets_work_dir dir) ps = set_work_dir_override dir ps
change clears_work_dir ps = clear_work_dir_override ps
change (sets w dir) ps = set_workspace_dir_override w dir ps
change (clears w) ps = clear_workspace_dir_override w ps

unfoldable pub changes : List Change → ProjectStateStore → ProjectStateStore
changes [] ps = ps
changes (x ∷ xs) ps = changes xs (change x ps)

-- The last change of the work directory counts, and for each workspace the last change of its own.
unfoldable pub last_work_dir : List Change → String → String
last_work_dir [] old = old
last_work_dir (sets_work_dir dir ∷ xs) old = last_work_dir xs dir
last_work_dir (clears_work_dir ∷ xs) old = last_work_dir xs ""
last_work_dir (sets w dir ∷ xs) old = last_work_dir xs old
last_work_dir (clears w ∷ xs) old = last_work_dir xs old

unfoldable pub last_override : String → List Change → String → String
last_override v [] old = old
last_override v (sets_work_dir dir ∷ xs) old = last_override v xs old
last_override v (clears_work_dir ∷ xs) old = last_override v xs old
last_override v (sets w dir ∷ xs) old = last_override v xs (if w == v then dir else old)
last_override v (clears w ∷ xs) old = last_override v xs (if w == v then "" else old)

work_dir-changes :
    (xs : List Change) (ps : ProjectStateStore)
    → work_dir_override (changes xs ps) ≡ last_work_dir xs (work_dir_override ps)
unfolding changes change last_work_dir work_dir_override set_work_dir_override
    clear_work_dir_override set_workspace_dir_override clear_workspace_dir_override
work_dir-changes [] ps = refl
work_dir-changes (sets_work_dir dir ∷ xs) ps = work_dir-changes xs (set_work_dir_override dir ps)
work_dir-changes (clears_work_dir ∷ xs) ps = work_dir-changes xs (clear_work_dir_override ps)
work_dir-changes (sets w dir ∷ xs) ps = work_dir-changes xs (set_workspace_dir_override w dir ps)
work_dir-changes (clears w ∷ xs) ps = work_dir-changes xs (clear_workspace_dir_override w ps)

override-set :
    (v w dir : String) (ps : ProjectStateStore)
    → workspace_dir_override v (set_workspace_dir_override w dir ps)
      ≡ (if w == v then dir else workspace_dir_override v ps)
unfolding workspace_dir_override set_workspace_dir_override
override-set v w dir ps = ground (arith, get-put w v dir ps.state.workspace_dir_overrides)

override-clear :
    (v w : String) (ps : ProjectStateStore)
    → workspace_dir_override v (clear_workspace_dir_override w ps)
      ≡ (if w == v then "" else workspace_dir_override v ps)
unfolding workspace_dir_override clear_workspace_dir_override
override-clear v w ps = ground (arith, get-delete w v ps.state.workspace_dir_overrides)

override-changes :
    (v : String) (xs : List Change) (ps : ProjectStateStore)
    → workspace_dir_override v (changes xs ps) ≡ last_override v xs (workspace_dir_override v ps)
unfolding changes change last_override set_work_dir_override clear_work_dir_override
    workspace_dir_override
override-changes v [] ps = refl
override-changes v (sets_work_dir dir ∷ xs) ps =
    override-changes v xs (set_work_dir_override dir ps)
override-changes v (clears_work_dir ∷ xs) ps = override-changes v xs (clear_work_dir_override ps)
override-changes v (sets w dir ∷ xs) ps =
    override-changes v xs (set_workspace_dir_override w dir ps)
    ∙ ap (λ (old : String). last_override v xs old) (override-set v w dir ps)
override-changes v (clears w ∷ xs) ps =
    override-changes v xs (clear_workspace_dir_override w ps)
    ∙ ap (λ (old : String). last_override v xs old) (override-clear v w ps)

path-changes :
    (xs : List Change) (ps : ProjectStateStore)
    → ((changes xs ps).store_path ≡ ps.store_path) × ((changes xs ps).disk ≡ ps.disk)
unfolding changes change set_work_dir_override clear_work_dir_override set_workspace_dir_override
    clear_workspace_dir_override
path-changes [] ps = (refl, refl)
path-changes (sets_work_dir dir ∷ xs) ps = path-changes xs (set_work_dir_override dir ps)
path-changes (clears_work_dir ∷ xs) ps = path-changes xs (clear_work_dir_override ps)
path-changes (sets w dir ∷ xs) ps = path-changes xs (set_workspace_dir_override w dir ps)
path-changes (clears w ∷ xs) ps = path-changes xs (clear_workspace_dir_override w ps)

state-save :
    (ps : ProjectStateStore)
    → (ps.store_path == "") ≡ false
    → ps.disk.writable ≡ true
    → (new_project_state_store ps.store_path (save ps).disk).state ≡ ps.state
unfolding new_project_state_store load save
state-save ps p w = simp (p, w)

-- After any changes and a save that reaches the disk, a program started on the same path finds the last
-- work directory that was set (none where it was cleared later), and the same for each workspace.
pub restart_lem :
    (xs : List Change) (ps : ProjectStateStore) (v : String)
    → (ps.store_path == "") ≡ false
    → ps.disk.writable ≡ true
    → let ps' = new_project_state_store ps.store_path (save (changes xs ps)).disk in
      (work_dir_override ps' ≡ last_work_dir xs (work_dir_override ps))
      × (workspace_dir_override v ps' ≡ last_override v xs (workspace_dir_override v ps))
unfolding work_dir_override workspace_dir_override
restart_lem xs ps v p w =
    let (path, disk) = path-changes xs ps in
    let same =
      ap (λ (k : String). (new_project_state_store k (save (changes xs ps)).disk).state) (sym path)
      ∙ state-save (changes xs ps) (rw path p) (rw disk w) in
    (
      ap (λ (s : ProjectStateData). s.work_dir_override) same ∙ work_dir-changes xs ps,
      ap (λ (s : ProjectStateData). or_blank (get v s.workspace_dir_overrides)) same
          ∙ override-changes v xs ps,
    )
