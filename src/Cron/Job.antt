-- ===== src/Cron/Job.antt =====
-- The jobs of core/cron.go: `CronJob`, its timeout, its session mode, and `validateCronJob`. Times are
-- numbers.
use cc2wechat.Prelude.{
  ℕ, ◌*◌, ◌-◌, ◌%◌, String, Bool, true, false, not, ◌&&◌, ◌||◌, Option, none, some, ltb, ◌==◌,
  if◌then◌else◌,
}

-- Go's int.
pub data ℤ : Type 0 where
  pos : ℕ → ℤ
  negsuc : ℕ → ℤ

pub record CronJob : Type 0 where
  pub id : String
  pub project : String
  pub session_key : String
  pub cron_expr : String
  pub prompt : String
  pub exec : String
  pub work_dir : String
  pub description : String
  pub enabled : Bool
  pub silent : Option Bool
  pub mute : Bool
  pub session_mode : String
  pub mode : String
  pub timeout_mins : Option ℤ
  pub created_at : ℕ
  pub last_run : ℕ
  pub last_error : String

-- The errors of this file; nil is `none` of an `Option CronError`.
pub data CronError : Type 0 where
  invalid_session_mode : CronError
  invalid_mode : CronError
  negative_timeout : CronError
  invalid_cron_expr : CronError
  not_saved : CronError
  not_found : CronError
  not_a_text : CronError
  failed_update : CronError
  failed_schedule : CronError

unfoldable pub is_shell_job : CronJob → Bool
is_shell_job j = not (j.exec == "")

-- In nanoseconds, as a Duration.
abbrev pub minute : ℕ
minute = 60000000000

abbrev pub default_cron_job_timeout : ℤ
default_cron_job_timeout = pos 1800000000000

-- A product of an int64 wraps around.
unfoldable pub to_int64 : ℕ → ℤ
to_int64 n =
    let w = n % 18446744073709551616 in
    if ltb w 9223372036854775808 then pos w else negsuc (18446744073709551615 - w)

unfoldable pub timeout_of : Option ℤ → ℤ
timeout_of none = default_cron_job_timeout
timeout_of (some (pos n)) = to_int64 (n * minute)
timeout_of (some (negsuc n)) = pos 0

unfoldable pub execution_timeout : CronJob → ℤ
unfolding timeout_of
execution_timeout j = timeout_of j.timeout_mins

unfoldable pub known_mode : String → Bool
known_mode mode =
    mode == "default"
    || mode == "bypassPermissions"
    || mode == "acceptEdits"
    || mode == "plan"
    || mode == "auto"
    || mode == "dontAsk"

abbrev pub is_negative : Option ℤ → Bool
is_negative none = false
is_negative (some (pos n)) = false
is_negative (some (negsuc n)) = true

module _ (trim_space to_lower : String → String) where
  unfoldable pub normalize_cron_session_mode : String → String
  normalize_cron_session_mode s =
      let s' = trim_space s in
      let low = to_lower s' in
      if low == "" || low == "reuse"
      then ""
      else if low == "new_per_run" || low == "new-per-run"
      then "new_per_run"
      else s'

  unfoldable pub uses_new_session_per_run : CronJob → Bool
  uses_new_session_per_run j = normalize_cron_session_mode j.session_mode == "new_per_run"

  -- The test that `validateCronJob` and `UpdateJob` make.
  unfoldable pub known_session_mode : String → Bool
  known_session_mode s =
      let mode = normalize_cron_session_mode s in mode == "" || mode == "new_per_run"

  unfoldable pub validate_cron_job : CronJob → Option CronError
  validate_cron_job j =
      if not (known_session_mode j.session_mode)
      then some invalid_session_mode
      else if not (j.mode == "") && not (known_mode j.mode)
      then some invalid_mode
      else if is_negative j.timeout_mins
      then some negative_timeout
      else none
