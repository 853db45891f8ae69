-- ===== src/ProjectState.antt =====
-- `ProjectStateStore` of core/projectstate.go: the directories that a project was switched to. A nil map
-- and an empty one are the same; JSON omits both.
pub mod Restart
use cc2wechat.Prelude.{String, Bool, Option, none, some, List, [], ◌∷◌, ◌==◌, if◌then◌else◌}
use cc2wechat.Prelude.GoMap.{GoMap, get, put, delete}
use cc2wechat.Prelude.Disk.{Disk, File, malformed, mistyped, content, write}

pub record ProjectStateData : Type 0 where
  pub work_dir_override : String
  pub workspace_dir_overrides : GoMap String

pub record ProjectStateStore : Type 0 where
  pub store_path : String
  pub state : ProjectStateData
  pub disk : Disk ProjectStateData

load_file : Option (File ProjectStateData) → ProjectStateStore → ProjectStateStore
load_file none ps = ps
load_file (some malformed) ps = ps
load_file (some (mistyped a)) ps = ps
load_file (some (content state)) ps = record ps { state = state }

unfoldable pub load : ProjectStateStore → ProjectStateStore
unfolding load_file
load ps = load_file ps.disk.file ps

unfoldable pub new_project_state_store : String → Disk ProjectStateData → ProjectStateStore
new_project_state_store path disk =
    let ps : ProjectStateStore = record {
      store_path = path;
      state = record { work_dir_override = ""; workspace_dir_overrides = [] };
      disk = disk;
    } in
    if path == "" then ps else load ps

unfoldable pub work_dir_override : ProjectStateStore → String
work_dir_override ps = ps.state.work_dir_override

unfoldable pub set_work_dir_override : String → ProjectStateStore → ProjectStateStore
set_work_dir_override dir ps = record ps { state = record ps.state { work_dir_override = dir } }

abbrev pub or_blank : Option String → String
or_blank none = ""
or_blank (some dir) = dir

unfoldable pub workspace_dir_override : String → ProjectStateStore → String
workspace_dir_override workspace ps = or_blank (get workspace ps.state.workspace_dir_overrides)

unfoldable pub set_workspace_dir_override : String → String → ProjectStateStore → ProjectStateStore
set_workspace_dir_override workspace dir ps = record ps {
  state = record ps.state {
    workspace_dir_overrides = put workspace dir ps.state.workspace_dir_overrides;
  };
}

unfoldable pub clear_workspace_dir_override : String → ProjectStateStore → ProjectStateStore
clear_workspace_dir_override workspace ps = record ps {
  state = record ps.state {
    workspace_dir_overrides = delete workspace ps.state.workspace_dir_overrides;
  };
}

unfoldable pub clear_work_dir_override : ProjectStateStore → ProjectStateStore
clear_work_dir_override ps = set_work_dir_override "" ps

unfoldable pub save : ProjectStateStore → ProjectStateStore
save ps = if ps.store_path == "" then ps else record ps { disk = write ps.state ps.disk }
