-- ===== src/Prelude/Disk.antt =====
-- A file that a component saves its state to. JSON is not modelled: the file holds the value.
use mathlib.Core.Bool.{Bool}
use mathlib.Core.Option.{Option, some}
use cc2wechat.Prelude.Tests.{if◌then◌else◌}

-- What `json.Unmarshal` makes of the bytes: an error and nothing, an error and what it decodes of the value all
-- the same, or a value.
pub data File {ℓ} (A : Type ℓ) : Type ℓ where
  malformed : File A
  mistyped : A → File A
  content : A → File A

-- `file` is `none` where `os.ReadFile` fails. While the disk is not writable, `os.MkdirAll` or
-- `AtomicWriteFile` fails, and the file stays as it was.
pub record Disk {ℓ} (A : Type ℓ) : Type ℓ where
  pub file : Option (File A)
  pub writable : Bool

abbrev pub write {ℓ} : {A : Type ℓ} → A → Disk A → Disk A
write a d = if d.writable then record d { file = some (content a) } else d
