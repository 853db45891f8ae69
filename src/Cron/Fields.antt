-- ===== src/Cron/Fields.antt =====
-- `updateJobField` of core/cron.go: a field of a job is set by its name in JSON, or by its name in Go.
use Prim.Native.Char.{Char, code}
use cc2wechat.Prelude.{
  ℕ, zero, suc, ◌-◌, String, Bool, true, false, ◌&&◌, Option, none, some, leb, eqb, ◌==◌,
  if◌then◌else◌,
}
use cc2wechat.Cron.Job.{ℤ, CronJob}

-- What a JSON value or a caller's argument holds; a float64 stands as what `int` makes of it.
pub data Value : Type 0 where
  text : String → Value
  flag : Bool → Value
  float : ℤ → Value
  int : ℤ → Value
  other : Value

abbrev letters : String
letters = "ABCDEFGHIJKLMNOPQRSTUVWXYZ"

char_or : Char → ℕ → String → Char
char_or d n String.[] = d
char_or d zero (String.◌∷◌ c s) = c
char_or d (suc n) (String.◌∷◌ c s) = char_or d n s

-- `if c >= 'a' && c <= 'z' { c -= 32 }`
upper : Char → Char
unfolding char_or
upper c = if leb 97 (code c) && leb (code c) 122 then char_or c (code c - 97) letters else c

-- The loop of `toExportedFieldName`. Bytes above 127 pass unchanged, so it runs over the characters.
exported_from : Bool → String → String
exported_from upper_next String.[] = String.[]
exported_from upper_next (String.◌∷◌ c s) =
    let skip = exported_from true s in
    let rest = exported_from false s in
    if eqb (code c) 95 then skip else String.◌∷◌ (if upper_next then upper c else c) rest

unfoldable pub to_exported_field_name : String → String
unfolding exported_from upper
to_exported_field_name s = exported_from true s

-- The fields of kind string, by their names in Go.
unfoldable pub set_by_name : CronJob → String → String → Option CronJob
set_by_name job name v =
    if name == "ID"
    then some (record job { id = v })
    else if name == "Project"
    then some (record job { project = v })
    else if name == "SessionKey"
    then some (record job { session_key = v })
    else if name == "CronExpr"
    then some (record job { cron_expr = v })
    else if name == "Prompt"
    then some (record job { prompt = v })
    else if name == "Exec"
    then some (record job { exec = v })
    else if name == "WorkDir"
    then some (record job { work_dir = v })
    else if name == "Description"
    then some (record job { description = v })
    else if name == "SessionMode"
    then some (record job { session_mode = v })
    else if name == "Mode"
    then some (record job { mode = v })
    else if name == "LastError"
    then some (record job { last_error = v })
    else none

unfoldable pub fallback : CronJob → String → Value → Option CronJob
fallback job field (text v) = set_by_name job (to_exported_field_name field) v
fallback job field (flag b) = none
fallback job field (float n) = none
fallback job field (int n) = none
fallback job field other = none

-- `if v, ok := value.(string); ok { … }`, and what follows the switch otherwise.
abbrev pub on_text : Value → (String → CronJob) → Option CronJob → Option CronJob
on_text (text v) f rest = some (f v)
on_text (flag b) f rest = rest
on_text (float n) f rest = rest
on_text (int n) f rest = rest
on_text other f rest = rest

abbrev pub on_flag : Value → (Bool → CronJob) → Option CronJob → Option CronJob
on_flag (text v) f rest = rest
on_flag (flag b) f rest = some (f b)
on_flag (float n) f rest = rest
on_flag (int n) f rest = rest
on_flag other f rest = rest

abbrev pub on_number : Value → (ℤ → CronJob) → Option CronJob → Option CronJob
on_number (text v) f rest = rest
on_number (flag b) f rest = rest
on_number (float n) f rest = some (f n)
on_number (int n) f rest = some (f n)
on_number other f rest = rest

-- `none` is an error.
unfoldable pub update_job_field : CronJob → String → Value → Option CronJob
update_job_field job field value =
    let rest = fallback job field value in
    if field == "project"
    then on_text value (λ v. record job { project = v }) rest
    else if field == "session_key"
    then on_text value (λ v. record job { session_key = v }) rest
    else if field == "cron_expr"
    then on_text value (λ v. record job { cron_expr = v }) rest
    else if field == "prompt"
    then on_text value (λ v. record job { prompt = v }) rest
    else if field == "exec"
    then on_text value (λ v. record job { exec = v }) rest
    else if field == "work_dir"
    then on_text value (λ v. record job { work_dir = v }) rest
    else if field == "description"
    then on_text value (λ v. record job { description = v }) rest
    else if field == "enabled"
    then on_flag value (λ b. record job { enabled = b }) rest
    else if field == "silent"
    then on_flag value (λ b. record job { silent = some b }) rest
    else if field == "mute"
    then on_flag value (λ b. record job { mute = b }) rest
    else if field == "session_mode"
    then on_text value (λ v. record job { session_mode = v }) rest
    else if field == "mode"
    then on_text value (λ v. record job { mode = v }) rest
    else if field == "timeout_mins"
    then on_number value (λ n. record job { timeout_mins = some n }) rest
    else rest
