-- ===== src/WorkspaceBinding/Follows.antt =====
-- A manager and the file that it loads, core/workspace_binding.go: what a refresh and a save keep.
use cc2wechat.Prelude.{
  ℕ, ◌≤◌, ◌<◌, ◌≡◌, refl, sym, true, false, arith, ◌==◌, Bool-cases, inl, inr, [],
}
use cc2wechat.WorkspaceBinding.{
  Bindings, WorkspaceBindingManager, FileInfo, content, Entry, missing, present, Store, is_current,
  read_into, refresh_from, refresh_locked, save_locked,
}

-- The file holds `bs` and was written by `last`.
pub data Holds (last : ℕ) (bs : Bindings) (entry : Entry) : Type 0 where
  no_file : entry ≡ missing → bs ≡ [] → Holds last bs entry
  in_file :
      (t n : ℕ)
      → 0 < t
      → t ≤ last
      → entry ≡ present (record { mod_time = t; size = n; data_of = content bs })
      → Holds last bs entry

-- A manager that has loaded nothing later than `last`, and that has the bindings `bs` where it takes
-- the file for the one that it loaded.
pub record Follows (last : ℕ) (bs : Bindings) (entry : Entry) (m : WorkspaceBindingManager)
    : Type 0 where
  pub path : (m.store_path == "") ≡ false
  pub old : m.last_loaded_mod_time ≤ last
  pub same : (info : FileInfo) → entry ≡ present info → is_current info m ≡ true → m.bindings ≡ bs

loaded-Follows :
    (last : ℕ) (bs : Bindings) (info : FileInfo) (entry : Entry) (m : WorkspaceBindingManager)
    → info.mod_time ≤ last
    → info.data_of ≡ content bs
    → entry ≡ present info
    → Follows last bs entry m
    → ((refresh_from (present info) m).bindings ≡ bs)
      × Follows last bs entry (refresh_from (present info) m)
unfolding refresh_from read_into
loaded-Follows last bs info entry m le d e f = elim (Bool-cases (is_current info m)) [
  | inl c ↦ rw c (f.same info e c, f)
  | inr c ↦ rw (c, d) (refl, record { path = f.path; old = le; same = λ i h q. refl })
]

-- After a refresh the manager has the bindings of the file, and still follows it.
pub refresh-Follows :
    (last : ℕ) (bs : Bindings) (store : Store) (m : WorkspaceBindingManager)
    → Holds last bs store.entry
    → Follows last bs store.entry m
    → ((refresh_locked store m).bindings ≡ bs)
      × Follows last bs store.entry (refresh_locked store m)
unfolding refresh_locked refresh_from
refresh-Follows last bs store m (no_file e b) f =
    rw (f.path, e) (sym b, record { path = f.path; old = omega arith; same = λ info h. cc })
refresh-Follows last bs store m (in_file t n pos le e) f =
    rw (f.path, e)
      (loaded-Follows last bs (record { mod_time = t; size = n; data_of = content bs })
        (present (record { mod_time = t; size = n; data_of = content bs })) m le refl refl
        (rw e at f))

mod_time-present : {i j : FileInfo} → present i ≡ present j → j.mod_time ≡ i.mod_time
mod_time-present e = cc

stale :
    (info : FileInfo) (o : WorkspaceBindingManager) (last mtime : ℕ)
    → info.mod_time ≡ mtime
    → o.last_loaded_mod_time ≤ last
    → last < mtime
    → is_current info o ≡ true
    → ⊥
unfolding is_current
stale info o last mtime e le lt c = ground arith

-- From the bindings `bs` to `bs'`: the file holds the new ones, the manager that ran the command follows
-- it, and so do all managers that followed the file before.
pub record Moves (last mtime : ℕ) (bs bs' : Bindings) (store : Store)
    (r : WorkspaceBindingManager × Store) : Type 0 where
  pub writable : r.1.writable ≡ true
  pub holds : Holds mtime bs' r.1.entry
  pub own : Follows mtime bs' r.1.entry r.0
  pub others :
      (o : WorkspaceBindingManager) → Follows last bs store.entry o → Follows mtime bs' r.1.entry o

pub transport_Moves :
    {last mtime : ℕ} {bs bs' bs'' : Bindings} {store : Store} {r : WorkspaceBindingManager × Store}
    → bs' ≡ bs''
    → Moves last mtime bs bs' store r
    → Moves last mtime bs bs'' store r
transport_Moves e mv = rw e at mv

-- A save at a later time leaves the file with the bindings of the manager that saves; that one follows
-- the file, and so do all that followed the file before.
pub save-Holds :
    (size_of : Bindings → ℕ) (last mtime : ℕ) (bs : Bindings) (m : WorkspaceBindingManager)
    (store : Store)
    → (m.store_path == "") ≡ false
    → store.writable ≡ true
    → last < mtime
    → Moves last mtime bs m.bindings store (save_locked size_of mtime (m, store))
unfolding save_locked
save-Holds size_of last mtime bs m store p w h =
    rw (p, w)
      (record {
        writable = refl;
        holds = in_file mtime (size_of m.bindings) (omega arith) (omega arith) refl;
        own = record { path = p; old = omega arith; same = λ info e c. refl };
        others = λ o f. record {
          path = f.path;
          old = omega (arith, f.old);
          same = λ info e c. absurd (stale info o last mtime (mod_time-present e) f.old h c);
        };
      })

pub later-Follows :
    (last mtime : ℕ) (bs : Bindings) (entry : Entry) (m : WorkspaceBindingManager)
    → last < mtime
    → Follows last bs entry m
    → Follows mtime bs entry m
later-Follows last mtime bs entry m h f = record {
  path = f.path;
  old = omega (arith, f.old);
  same = f.same;
}

pub later-Holds :
    (last mtime : ℕ) (bs : Bindings) (entry : Entry)
    → last < mtime
    → Holds last bs entry
    → Holds mtime bs entry
later-Holds last mtime bs entry h (no_file e b) = no_file e b
later-Holds last mtime bs entry h (in_file t n pos le e) = in_file t n pos (omega arith) e
