-- ===== src/Tests/Commands.antt =====
-- Runs of core/projectstate.go and of the command names of core/engine.go.
use cc2wechat.Prelude.{String, ◌≡◌, ◌↔◌, ◌⊎◌, refl, true, ◌&&◌, none, List, [], ◌∷◌, ◌==◌}
use cc2wechat.Prelude.Lists.{contains}
use cc2wechat.Prelude.GoMap.{has}
use cc2wechat.Commands.{Candidate, exact_match, match_prefix, resolve_disabled_cmds}
use cc2wechat.Commands.Matching.{any_hit, only_hits, match_prefix_lem}
use cc2wechat.Commands.Disabled.{HasWildcard, is_builtin, Lists, resolve_disabled_cmds_lem}
use cc2wechat.ProjectState.{
  ProjectStateStore, new_project_state_store, work_dir_override, workspace_dir_override, save,
}
use cc2wechat.ProjectState.Restart.{
  Change, sets_work_dir, sets, clears, changes, last_work_dir, last_override, restart_lem,
}

abbrev table : List Candidate
table =
    record { names = "new" ∷ []; id = "new" }
    ∷ record { names = "list" ∷ "sessions" ∷ []; id = "list" }
    ∷ record { names = "lang" ∷ []; id = "lang" }
    ∷ []

not_exact : exact_match "li" table ≡ none
unfolding exact_match contains
not_exact = refl

match_prefix_lem_example :
    (match_prefix "li" table == "list") ≡ (any_hit "li" table && only_hits "li" "list" table)
match_prefix_lem_example =
    match_prefix_lem "li" "list" table (refl, (refl, (refl, tt))) refl not_exact

abbrev as_is : String → String
as_is s = s

abbrev disabled : List String
disabled = "/li" ∷ "shell" ∷ "*" ∷ []

resolve_disabled_cmds_lem_example :
    (has "lang" (resolve_disabled_cmds as_is table disabled) ≡ true) ↔ (
      (HasWildcard as_is table disabled × (is_builtin "lang" table ≡ true))
      ⊎ Lists as_is table "lang" disabled)
resolve_disabled_cmds_lem_example = resolve_disabled_cmds_lem as_is table "lang" disabled

abbrev store : ProjectStateStore
store = record {
  store_path = "/data/state.json";
  state = record { work_dir_override = "/old"; workspace_dir_overrides = [] };
  disk = record { file = none; writable = true };
}

abbrev moves : List Change
moves = sets_work_dir "/a" ∷ sets "/w" "/w/sub" ∷ sets_work_dir "/b" ∷ clears "/v" ∷ []

restart_lem_example :
    let ps' = new_project_state_store store.store_path (save (changes moves store)).disk in
    (work_dir_override ps' ≡ last_work_dir moves (work_dir_override store))
    × (workspace_dir_override "/w" ps'
        ≡ last_override "/w" moves (workspace_dir_override "/w" store))
restart_lem_example = restart_lem moves store "/w" refl refl
