-- ===== src/DirHistory/Reload.antt =====
-- What a restarted program reads of the history of core/dir_history.go.
use cc2wechat.Prelude.{String, ◌≡◌, true, false, ◌==◌}
use cc2wechat.DirHistory.{DirHistory, save_locked, load, add, new_dir_history}

-- After an addition, of a directory that is not empty, that reaches the disk, a program started
-- on the same path has the same entries for all projects.
pub new_dir_history-add :
    (project dir : String) (dh : DirHistory)
    → (dh.store_path == "") ≡ false
    → (dir == "") ≡ false
    → dh.disk.writable ≡ true
    → (new_dir_history dh.store_path (add project dir dh).disk).entries
      ≡ (add project dir dh).entries
unfolding new_dir_history load add save_locked
new_dir_history-add project dir dh p d w = simp (p, d, w)
