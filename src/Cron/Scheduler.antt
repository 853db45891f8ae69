-- ===== src/Cron/Scheduler.antt =====
-- `CronScheduler` of core/cron.go. A request runs without others between its steps; the engine's part of a
-- run of a job is in `Execute`.
use cc2wechat.Prelude.{
  ℕ, String, Bool, true, false, not, ◌&&◌, ◌||◌, Option, none, some, List, [], ◌∷◌, ◌==◌,
  if◌then◌else◌,
}
use cc2wechat.Prelude.GoMap
use cc2wechat.Prelude.GoMap.{GoMap, put, delete, has}
use cc2wechat.Cron.Job.{
  CronJob, CronError, invalid_cron_expr, not_saved, not_found, not_a_text, invalid_mode,
  invalid_session_mode, failed_update, failed_schedule, normalize_cron_session_mode,
  known_session_mode, known_mode, validate_cron_job, uses_new_session_per_run,
}
use cc2wechat.Cron.Fields.{Value, text, flag, float, int, other}
use cc2wechat.Cron.Store
use cc2wechat.Cron.Store.{CronStore}

-- What the scheduler calls of robfig/cron, with the state `C` of a `cron.Cron`. The function that an entry
-- runs is known by the id of the job that it executes; an entry gives its expression and this id.
pub record CronLib (C : Type 0) : Type 0 where
  pub new : C
  pub parse_standard : String → Bool
  pub add_func : String → String → C → Option (C × ℕ)
  pub remove : ℕ → C → C
  pub entry : ℕ → C → Option (String × String)

-- Of an engine only its project's name is kept.
pub record CronScheduler (C : Type 0) : Type 0 where
  pub store : CronStore
  pub cron : C
  pub engines : GoMap (Unit {0})
  pub entries : GoMap ℕ
  pub default_silent : Bool
  pub default_session_mode : String

unfoldable pub needs_reschedule : String → Bool
needs_reschedule field = field == "cron_expr" || field == "enabled"

-- The job as it is after the update, if it is to run.
abbrev pub enabled_only : Option CronJob → Option CronJob
enabled_only none = none
enabled_only (some job) = if job.enabled then some job else none

unfoldable pub check_mode : Value → Option CronError
check_mode (text v) = if not (v == "") && not (known_mode v) then some invalid_mode else none
check_mode (flag b) = none
check_mode (float n) = none
check_mode (int n) = none
check_mode other = none

unfoldable pub register_engine : {C : Type 0} → String → CronScheduler C → CronScheduler C
register_engine name s = record s { engines = put name tt s.engines }

unfoldable pub set_default_silent : {C : Type 0} → Bool → CronScheduler C → CronScheduler C
set_default_silent silent s = record s { default_silent = silent }

unfoldable pub is_silent : {C : Type 0} → CronJob → CronScheduler C → Bool
is_silent job s = elim job.silent [ none ↦ s.default_silent | some b ↦ b ]

module _ {C : Type 0} (lib : CronLib C) where
  unfoldable pub new_cron_scheduler : CronStore → CronScheduler C
  new_cron_scheduler store = record {
    store = store;
    cron = lib.new;
    engines = [];
    entries = [];
    default_silent = false;
    default_session_mode = "";
  }

  -- The removal of an old entry, if any.
  unfoldable pub remove_old : Option ℕ → C → C
  remove_old none c = c
  remove_old (some n) c = lib.remove n c

  set_entry : String → CronScheduler C → Option (C × ℕ) → CronScheduler C × Bool
  set_entry id s none = (s, false)
  set_entry id s (some (c, n)) = (record s { cron = c; entries = put id n s.entries }, true)

  -- The result is whether the job was scheduled.
  unfoldable pub schedule_job : CronJob → CronScheduler C → CronScheduler C × Bool
  unfolding set_entry
  schedule_job job s =
      let c = remove_old (GoMap.get job.id s.entries) s.cron in
      set_entry job.id (record s { cron = c }) (lib.add_func job.cron_expr job.id c)

  unfoldable pub unschedule : String → CronScheduler C → CronScheduler C
  unschedule id s = elim (GoMap.get id s.entries) [
    | none ↦ s
    | some n ↦ record s { cron = lib.remove n s.cron; entries = delete id s.entries }
  ]

  unfoldable pub schedule_enabled : List CronJob → CronScheduler C → CronScheduler C
  schedule_enabled [] s = s
  schedule_enabled (job ∷ jobs) s =
      schedule_enabled jobs (if job.enabled then (schedule_job job s).0 else s)

  unfoldable pub start : CronScheduler C → CronScheduler C
  start s = schedule_enabled (Store.list s.store) s

  unfoldable pub remove_job : String → CronScheduler C → CronScheduler C × Bool
  remove_job id s =
      let s' = unschedule id s in
      let (store, found) = Store.remove id s'.store in (record s' { store = store }, found)

  unfoldable pub schedule_found :
      Option CronJob → CronScheduler C → CronScheduler C × Option CronError
  schedule_found none s = (s, none)
  schedule_found (some job) s =
      let (s', done) = schedule_job job s in (s', if done then none else some failed_schedule)

  unfoldable pub enable_job : String → CronScheduler C → CronScheduler C × Option CronError
  enable_job id s =
      let (store, found) = Store.set_enabled id true s.store in
      if found
      then schedule_found (Store.get id store) (record s { store = store })
      else (s, some not_found)

  unfoldable pub disable_job : String → CronScheduler C → CronScheduler C × Option CronError
  disable_job id s =
      let (store, found) = Store.set_enabled id false s.store in
      if found then (unschedule id (record s { store = store }), none) else (s, some not_found)

  -- The checks of `UpdateJob` that stand before its first write.
  unfoldable pub check_cron_expr : Value → Option CronError
  check_cron_expr (text v) = if lib.parse_standard v then none else some invalid_cron_expr
  check_cron_expr (flag b) = some not_a_text
  check_cron_expr (float n) = some not_a_text
  check_cron_expr (int n) = some not_a_text
  check_cron_expr other = some not_a_text

  unfoldable pub write_update :
      String → String → Value → CronScheduler C → CronScheduler C × Option CronError
  write_update id field value s =
      let (store, done) = Store.update id field value s.store in
      if not done
      then (s, some failed_update)
      else if needs_reschedule field
      then schedule_found (enabled_only (Store.get id store)) (record s { store = store })
      else (record s { store = store }, none)

  module _ (trim_space to_lower : String → String) where
    unfoldable pub set_default_session_mode : String → CronScheduler C → CronScheduler C
    set_default_session_mode mode s = record s {
      default_session_mode = normalize_cron_session_mode trim_space to_lower mode;
    }

    unfoldable pub uses_new_session : CronJob → CronScheduler C → Bool
    uses_new_session job s =
        if not (job.session_mode == "")
        then uses_new_session_per_run trim_space to_lower job
        else s.default_session_mode == "new_per_run"

    schedule_added :
        CronJob → CronScheduler C → CronStore × Bool → CronScheduler C × Option CronError
    schedule_added job s (store, saved) =
        let s' : CronScheduler C = record s { store = store } in
        if not saved
        then (s', some not_saved)
        else if job.enabled
        then schedule_found (some job) s'
        else (s', none)

    unfoldable pub add_job : CronJob → CronScheduler C → CronScheduler C × Option CronError
    unfolding schedule_added
    add_job job s = elim (validate_cron_job trim_space to_lower job) [
      | some e ↦ (s, some e)
      | none ↦
          let mode = normalize_cron_session_mode trim_space to_lower job.session_mode in
          let job' : CronJob = record job { session_mode = mode } in
          if not (lib.parse_standard job.cron_expr)
          then (s, some invalid_cron_expr)
          else schedule_added job' s (Store.add job' s.store)
    ]

    unfoldable pub check_session_mode : Value → Option CronError
    check_session_mode (text v) =
        if not (v == "") && not (known_session_mode trim_space to_lower v)
        then some invalid_session_mode
        else none
    check_session_mode (flag b) = none
    check_session_mode (float n) = none
    check_session_mode (int n) = none
    check_session_mode other = none

    unfoldable pub check_value : String → Value → Option CronError
    check_value field value =
        if field == "cron_expr"
        then check_cron_expr value
        else if field == "mode"
        then check_mode value
        else if field == "session_mode"
        then check_session_mode value
        else none

    unfoldable pub update_job :
        String → String → Value → CronScheduler C → CronScheduler C × Option CronError
    update_job id field value s = elim (Store.get id s.store) [
      | none ↦ (s, some not_found)
      | some job ↦ elim (check_value field value) [
        | some e ↦ (s, some e)
        | none ↦ write_update id field value (if needs_reschedule field then unschedule id s else s)
      ]
    ]

  -- Whether `NextRun` finds a time.
  unfoldable pub is_scheduled : String → CronScheduler C → Bool
  is_scheduled id s = elim (GoMap.get id s.entries) [
    | none ↦ false
    | some n ↦ elim (lib.entry n s.cron) [ none ↦ false | some e ↦ true ]
  ]
