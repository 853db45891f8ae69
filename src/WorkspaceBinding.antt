-- ===== src/WorkspaceBinding.antt =====
-- `WorkspaceBindingManager` of core/workspace_binding.go: which directory a channel works in, in a
-- file that managers of several processes may share. Each operation first reads the file again, where
-- its time or size is not the one last loaded. The JSON is not modelled (nor a JSON null in it); the
-- number of bytes that it has is the parameter `size_of`. The zero time is 0.
pub mod Views
pub mod Follows
pub mod Shared
use cc2wechat.Prelude.{
  ℕ, String, Bool, true, false, not, ◌&&◌, Option, none, some, List, [], ◌∷◌, eqb, ◌==◌,
  if◌then◌else◌,
}
use cc2wechat.Prelude.GoMap.{GoMap, get, put, delete}
use cc2wechat.Prelude.Text.{after_colon}

abbrev pub shared_workspace_bindings_key : String
shared_workspace_bindings_key = "shared"

pub record WorkspaceBinding : Type 0 where
  pub channel_name : String
  pub workspace : String
  pub bound_at : ℕ

abbrev pub Bindings : Type 0
Bindings = GoMap (GoMap WorkspaceBinding)

pub record WorkspaceBindingManager : Type 0 where
  pub bindings : Bindings
  pub store_path : String
  pub last_loaded_mod_time : ℕ
  pub last_loaded_size : ℕ

-- What reading a file gives: an error, bytes that are no JSON of this shape, or bindings. An empty
-- file gives no bindings.
pub data Data : Type 0 where
  unreadable : Data
  malformed : Data
  content : Bindings → Data

pub record FileInfo : Type 0 where
  pub mod_time : ℕ
  pub size : ℕ
  pub data_of : Data

-- What `os.Stat` finds at the path: nothing, another error, or a file.
pub data Entry : Type 0 where
  missing : Entry
  stat_error : Entry
  present : FileInfo → Entry

pub record Store : Type 0 where
  pub entry : Entry
  pub writable : Bool

-- The text behind the first colon, if there is one.
unfoldable pub legacy_workspace_channel_key : String → String
legacy_workspace_channel_key channel_key = elim (after_colon channel_key) [
  | none ↦ channel_key
  | some key ↦ key
]

unfoldable pub workspace_channel_key_candidates : String → List String
workspace_channel_key_candidates channel_key =
    if channel_key == ""
    then []
    else (let legacy_key = legacy_workspace_channel_key channel_key in
        if legacy_key == channel_key then channel_key ∷ [] else channel_key ∷ legacy_key ∷ [])

-- The loop of `lookupLocked`.
unfoldable pub first_of : List String → GoMap WorkspaceBinding → Option WorkspaceBinding
first_of [] proj = none
first_of (candidate ∷ rest) proj =
    let later = first_of rest proj in elim (get candidate proj) [ none ↦ later | some b ↦ some b ]

unfoldable pub lookup_locked : String → String → Bindings → Option WorkspaceBinding
lookup_locked project_key channel_key bindings = elim (get project_key bindings) [
  | none ↦ none
  | some proj ↦ first_of (workspace_channel_key_candidates channel_key) proj
]

abbrev pub or_new : Option (GoMap WorkspaceBinding) → GoMap WorkspaceBinding
or_new none = []
or_new (some proj) = proj

-- What `Bind` does to the bindings.
unfoldable pub bind_in : String → String → WorkspaceBinding → Bindings → Bindings
bind_in project_key channel_key b bindings =
    put project_key (put channel_key b (or_new (get project_key bindings))) bindings

unfoldable pub delete_all : List String → GoMap WorkspaceBinding → GoMap WorkspaceBinding
delete_all [] proj = proj
delete_all (candidate ∷ rest) proj = delete_all rest (delete candidate proj)

-- A project without bindings is deleted.
unfoldable pub put_or_delete : String → GoMap WorkspaceBinding → Bindings → Bindings
put_or_delete project_key [] bindings = delete project_key bindings
put_or_delete project_key (e ∷ proj) bindings = put project_key (e ∷ proj) bindings

-- What `Unbind` does to the bindings.
unfoldable pub unbind_in : String → String → Bindings → Bindings
unbind_in project_key channel_key bindings = elim (get project_key bindings) [
  | none ↦ bindings
  | some proj ↦
      put_or_delete project_key (delete_all (workspace_channel_key_candidates channel_key) proj)
        bindings
]

unfoldable pub is_current : FileInfo → WorkspaceBindingManager → Bool
is_current info m =
    not (eqb m.last_loaded_mod_time 0)
    && eqb info.mod_time m.last_loaded_mod_time
    && eqb info.size m.last_loaded_size

unfoldable pub read_into : FileInfo → Data → WorkspaceBindingManager → WorkspaceBindingManager
read_into info unreadable m = m
read_into info malformed m = m
read_into info (content loaded) m = record m {
  bindings = loaded;
  last_loaded_mod_time = info.mod_time;
  last_loaded_size = info.size;
}

unfoldable pub refresh_from : Entry → WorkspaceBindingManager → WorkspaceBindingManager
refresh_from missing m = record m { bindings = []; last_loaded_mod_time = 0; last_loaded_size = 0 }
refresh_from stat_error m = m
refresh_from (present info) m = if is_current info m then m else read_into info info.data_of m

unfoldable pub refresh_locked : Store → WorkspaceBindingManager → WorkspaceBindingManager
refresh_locked store m = if m.store_path == "" then m else refresh_from store.entry m

unfoldable pub new_workspace_binding_manager : String → Store → WorkspaceBindingManager
new_workspace_binding_manager store_path store = refresh_locked store (record {
  bindings = [];
  store_path = store_path;
  last_loaded_mod_time = 0;
  last_loaded_size = 0;
})

unfoldable pub lookup :
    String
    → String
    → Store
    → WorkspaceBindingManager
    → WorkspaceBindingManager × Option WorkspaceBinding
lookup project_key channel_key store m =
    let m' = refresh_locked store m in (m', lookup_locked project_key channel_key m'.bindings)

-- `LookupEffective` on the bindings: the project's own, then the shared ones.
unfoldable pub effective_in : String → String → Bindings → Option WorkspaceBinding × String
effective_in project_key channel_key bindings =
    elim (lookup_locked project_key channel_key bindings) [
      | some b ↦ (some b, project_key)
      | none ↦ elim (lookup_locked shared_workspace_bindings_key channel_key bindings) [
        | some b ↦ (some b, shared_workspace_bindings_key)
        | none ↦ (none, "")
      ]
    ]

unfoldable pub lookup_effective :
    String
    → String
    → Store
    → WorkspaceBindingManager
    → WorkspaceBindingManager × (Option WorkspaceBinding × String)
lookup_effective project_key channel_key store m =
    let m' = refresh_locked store m in (m', effective_in project_key channel_key m'.bindings)

unfoldable pub list_by_project :
    String → Store → WorkspaceBindingManager → WorkspaceBindingManager × GoMap WorkspaceBinding
list_by_project project_key store m =
    let m' = refresh_locked store m in (m', or_new (get project_key m'.bindings))

module _ (size_of : Bindings → ℕ) where
  -- A save at time `mtime`: after the write `os.Stat` finds the file just written.
  unfoldable pub save_locked : ℕ → WorkspaceBindingManager × Store → WorkspaceBindingManager × Store
  save_locked mtime (m, store) =
      if m.store_path == ""
      then (m, store)
      else if store.writable
      then (
        record m { last_loaded_mod_time = mtime; last_loaded_size = size_of m.bindings },
        record store {
          entry = present (record {
            mod_time = mtime;
            size = size_of m.bindings;
            data_of = content m.bindings;
          });
        },
      )
      else (m, store)

  unfoldable pub bind :
      String
      → String
      → WorkspaceBinding
      → ℕ
      → WorkspaceBindingManager × Store
      → WorkspaceBindingManager × Store
  bind project_key channel_key b mtime (m, store) =
      let m' = refresh_locked store m in
      save_locked mtime
        (record m' { bindings = bind_in project_key channel_key b m'.bindings }, store)

  unfoldable pub unbind :
      String → String → ℕ → WorkspaceBindingManager × Store → WorkspaceBindingManager × Store
  unbind project_key channel_key mtime (m, store) =
      let m' = refresh_locked store m in
      save_locked mtime
        (record m' { bindings = unbind_in project_key channel_key m'.bindings }, store)
