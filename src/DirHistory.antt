-- ===== src/DirHistory.antt =====
-- `DirHistory` of core/dir_history.go: for each project the directories last switched to, the most
-- recent first. A nil slice and an empty one are the same list.
pub mod Recent
pub mod Reload
use cc2wechat.Prelude.{
  ℕ, ◌-◌, zero, suc, String, Option, none, some, List, [], ◌∷◌, ltb, ◌==◌, if◌then◌else◌, Bool,
}
use cc2wechat.Prelude.Lists.{length, take, contains, remove_first}
use cc2wechat.Prelude.GoMap.{GoMap, get, put}
use cc2wechat.Prelude.Disk.{Disk, File, malformed, mistyped, content, write}

abbrev pub default_dir_history_size : ℕ
default_dir_history_size = 10

pub record DirHistory : Type 0 where
  pub store_path : String
  pub entries : GoMap (List String)
  pub max_size : ℕ
  pub disk : Disk (GoMap (List String))

abbrev pub or_nil : Option (List String) → List String
or_nil none = []
or_nil (some dirs) = dirs

-- `List`, a copy of `dh.entries[project]`.
unfoldable pub list : String → DirHistory → List String
list project dh = or_nil (get project dh.entries)

unfoldable pub save_locked : DirHistory → DirHistory
save_locked dh = if dh.store_path == "" then dh else record dh { disk = write dh.entries dh.disk }

-- A JSON null leaves the entries too, as a malformed file does.
load_file : Option (File (GoMap (List String))) → DirHistory → DirHistory
load_file none dh = dh
load_file (some malformed) dh = dh
load_file (some (mistyped a)) dh = dh
load_file (some (content entries)) dh = record dh { entries = entries }

unfoldable pub load : DirHistory → DirHistory
unfolding load_file
load dh = if dh.store_path == "" then dh else load_file dh.disk.file dh

-- The argument is the path that `filepath.Join` makes of the data directory.
unfoldable pub new_dir_history : String → Disk (GoMap (List String)) → DirHistory
new_dir_history store_path disk = load (record {
  store_path = store_path;
  entries = [];
  max_size = default_dir_history_size;
  disk = disk;
})

-- Moved or added to the front.
unfoldable pub to_front : String → List String → List String
to_front dir dirs = dir ∷ remove_first dir dirs

unfoldable pub trim : ℕ → List String → List String
trim max_size dirs = if ltb max_size (length dirs) then take max_size dirs else dirs

unfoldable pub add : String → String → DirHistory → DirHistory
add project dir dh =
    if dir == ""
    then dh
    else save_locked (record dh {
      entries = put project (trim dh.max_size (to_front dir (list project dh))) dh.entries;
    })

-- The entry at an index from 1 on; a negative index does what 0 does.
abbrev pub entry_at : ℕ → List String → String
entry_at zero dirs = ""
entry_at (suc i) [] = ""
entry_at (suc zero) (d ∷ dirs) = d
entry_at (suc (suc i)) (d ∷ dirs) = entry_at (suc i) dirs

unfoldable pub get_dir : String → ℕ → DirHistory → String
get_dir project index dh = entry_at index (list project dh)

unfoldable pub previous : String → DirHistory → String
previous project dh = get_dir project 2 dh

unfoldable pub contains_dir : String → String → DirHistory → Bool
contains_dir project dir dh = contains dir (list project dh)

-- A size below 1 counts as 1.
unfoldable pub set_max_size : ℕ → DirHistory → DirHistory
set_max_size size dh = record dh { max_size = if ltb size 1 then 1 else size }
