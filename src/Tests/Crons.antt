-- ===== src/Tests/Crons.antt =====
-- Runs of core/cron.go, with a cron that keeps its entries in a list and refuses the expression "bad".
use cc2wechat.Prelude.{
  inl, ℕ, zero, suc, String, ◌≡◌, ◌⊎◌, ◌↔◌, refl, true, false, not, Option, none, some, List, [],
  ◌∷◌, ◌++◌, eqb, arith, ◌==◌, if◌then◌else◌,
}
use cc2wechat.Prelude.Lists.{length}
use cc2wechat.Prelude.GoMap
use cc2wechat.Cron.Job.{CronJob, not_found, failed_update, failed_schedule, pos, execution_timeout}
use cc2wechat.Cron.Fields.{text}
use cc2wechat.Cron.Store
use cc2wechat.Cron.Store.{error_text}
use cc2wechat.Cron.Store.{CronStore, find_job, Distinct}
use cc2wechat.Cron.Scheduler.{
  CronLib, CronScheduler, new_cron_scheduler, schedule_job, schedule_enabled, remove_old, start,
  enable_job, schedule_found, update_job, unschedule, needs_reschedule,
}
use cc2wechat.Cron.Laws.{CronLaws}
use cc2wechat.Cron.Schedule.{IsDue, IsUnscheduled}
use cc2wechat.Cron.Runs.{
  starts, enables, serve, serve_all, serve_all-IsNoted, serve_all-at_most_once,
}
use cc2wechat.Cron.Sound.{here, after, Reaches-IsDue}
use cc2wechat.Cron.Boot.{start-schedules}
use cc2wechat.Cron.Execute.{
  Outcome, Hangs, IsRun, Marks, is_positive, execute_job, execute_job-none, execute_job-returns,
}
use cc2wechat.Cron.Errors.{update_job-error, update_job-unschedules}

-- A slot is empty once its entry is removed; an entry's number is its place.
abbrev Slots : Type 0
Slots = List (Option (String × String))

at : ℕ → Slots → Option (String × String)
at n [] = none
at zero (x ∷ c) = x
at (suc n) (x ∷ c) = at n c

clear : ℕ → Slots → Slots
clear n [] = []
clear zero (x ∷ c) = none ∷ c
clear (suc n) (x ∷ c) = x ∷ clear n c

add_slot : String → String → Slots → Option (Slots × ℕ)
add_slot e j c = if e == "bad" then none else some (c ++ some (e, j) ∷ [], length c)

slots : CronLib Slots
slots = record {
  new = [];
  parse_standard = λ e. not (e == "bad");
  add_func = add_slot;
  remove = clear;
  entry = at;
}

at-length : (c : Slots) → at (length c) c ≡ none
unfolding at
at-length [] = refl
at-length (x ∷ c) = at-length c

at-append :
    (x : String × String) (m : ℕ) (c : Slots)
    → at m (c ++ some x ∷ []) ≡ (if eqb (length c) m then some x else at m c)
unfolding at
at-append x zero [] = refl
at-append x (suc m) [] = ground arith
at-append x zero (y ∷ c) = ground arith
at-append x (suc m) (y ∷ c) = ground (arith, at-append x m c)

at-clear : (n m : ℕ) (c : Slots) → at m (clear n c) ≡ (if eqb n m then none else at m c)
unfolding at clear
at-clear n m [] = ground arith
at-clear zero zero (x ∷ c) = refl
at-clear zero (suc m) (x ∷ c) = ground arith
at-clear (suc n) zero (x ∷ c) = ground arith
at-clear (suc n) (suc m) (x ∷ c) = ground (arith, at-clear n m c)

slots-CronLaws : CronLaws slots
unfolding slots add_slot at
slots-CronLaws = record {
  new_entry = λ n. refl;
  refused = λ e j c h. ground arith;
  accepted = λ e j c h. (c ++ some (e, j) ∷ [], length c, ground arith);
  fresh = λ e j c c' n h. ground (arith, at-length c);
  added = λ e j c c' n m h. ground (arith, at-append (e, j) m c);
  removed = at-clear;
}

abbrev daily : CronJob
daily = record {
  id = "j1";
  project = "web";
  session_key = "k";
  cron_expr = "0 6 * * *";
  prompt = "hi";
  exec = "";
  work_dir = "";
  description = "";
  enabled = true;
  silent = none;
  mute = false;
  session_mode = "";
  mode = "";
  timeout_mins = none;
  created_at = 0;
  last_run = 0;
  last_error = "";
}

abbrev jobs : CronStore
jobs = record { jobs = daily ∷ []; disk = record { file = none; writable = true } }

abbrev quiet : String → String
quiet s = s

abbrev booted : CronScheduler Slots
booted =
    serve_all slots quiet quiet quiet (starts ∷ enables "j1" ∷ []) (new_cron_scheduler slots jobs)

booted_entry : slots.entry 1 booted.cron ≡ some ("0 6 * * *", "j1")
unfolding slots at add_slot clear serve_all serve new_cron_scheduler start schedule_enabled
    schedule_job remove_old GoMap.get GoMap.put enable_job schedule_found Store.list
    Store.set_enabled Store.write_job Store.replace Store.get find_job Store.save
booted_entry = refl

serve_all-at_most_once_example : ◌≡◌ {A = ℕ} 1 1
serve_all-at_most_once_example =
    serve_all-at_most_once slots quiet quiet quiet slots-CronLaws jobs (starts ∷ enables "j1" ∷ [])
      1 1 "0 6 * * *" "0 6 * * *" "j1" booted_entry booted_entry

jobs-Distinct : Distinct jobs.jobs
unfolding find_job
jobs-Distinct = (refl, tt)

abbrev reached : CronScheduler Slots
reached =
    serve slots quiet quiet quiet (enables "j1")
      (serve slots quiet quiet quiet starts (new_cron_scheduler slots jobs))

reached_entry : slots.entry 1 reached.cron ≡ some ("0 6 * * *", "j1")
unfolding slots at add_slot clear serve_all serve new_cron_scheduler start schedule_enabled
    schedule_job remove_old GoMap.get GoMap.put enable_job schedule_found Store.list
    Store.set_enabled Store.write_job Store.replace Store.get find_job Store.save
reached_entry = refl

Reaches-IsDue_example : IsDue "0 6 * * *" (Store.get "j1" reached.store)
Reaches-IsDue_example =
    Reaches-IsDue slots quiet quiet quiet slots-CronLaws jobs reached 1 "0 6 * * *" "j1"
      jobs-Distinct (after (enables "j1") (after starts here tt) tt) reached_entry

found : Store.get "j1" jobs ≡ some daily
unfolding Store.get find_job
found = refl

accepted : slots.parse_standard "0 6 * * *" ≡ true
unfolding slots
accepted = refl

start-schedules_example :
    (n : ℕ) × (slots.entry n (start slots (new_cron_scheduler slots jobs)).cron
      ≡ some ("0 6 * * *", "j1"))
start-schedules_example =
    start-schedules slots slots-CronLaws jobs "j1" daily jobs-Distinct found refl accepted

unknown : (update_job slots quiet quiet "j2" "prompt" (text "x") booted).1 ≡ some not_found
unfolding slots at add_slot clear serve_all serve new_cron_scheduler start schedule_enabled
    schedule_job remove_old GoMap.get GoMap.put enable_job schedule_found Store.list
    Store.set_enabled Store.write_job Store.replace Store.get find_job Store.save update_job
unknown = refl

update_job-error_example :
    (not_found ≡ failed_schedule)
    ⊎ ((not_found ≡ failed_update)
        × ((update_job slots quiet quiet "j2" "prompt" (text "x") booted).0
            ≡ (if needs_reschedule "prompt" then unschedule slots "j2" booted else booted)))
    ⊎ ((update_job slots quiet quiet "j2" "prompt" (text "x") booted).0 ≡ booted)
update_job-error_example =
    update_job-error slots slots-CronLaws quiet quiet "j2" "prompt" (text "x") booted not_found
      unknown

found_booted : Store.get "j1" booted.store ≡ some daily
unfolding slots at add_slot clear serve_all serve new_cron_scheduler start schedule_enabled
    schedule_job remove_old GoMap.get GoMap.put enable_job schedule_found Store.list
    Store.set_enabled Store.write_job Store.replace Store.get find_job Store.save
found_booted = refl

update_job-unschedules_example :
    let s : CronScheduler Slots =
      (update_job slots quiet quiet "j1" "enabled" (text "yes") booted).0 in
    ((update_job slots quiet quiet "j1" "enabled" (text "yes") booted).1 ≡ some failed_update)
    × (s.store ≡ booted.store)
    × IsUnscheduled slots "j1" s
unfolding new_cron_scheduler slots at
update_job-unschedules_example =
    update_job-unschedules slots slots-CronLaws quiet quiet "j1" (text "yes") daily booted
      (λ b. ground arith) found_booted
      (serve_all-IsNoted slots quiet quiet quiet slots-CronLaws (starts ∷ enables "j1" ∷ [])
        (new_cron_scheduler slots jobs) (λ n e j h. cc h))

abbrev served : CronScheduler Slots
served = record (new_cron_scheduler slots jobs) { engines = ("web", tt) ∷ [] }

-- The engine never returns.
abbrev stuck : CronJob → Outcome
stuck j = record { took = none; error = none; wins = true }

-- A job without a time limit.
abbrev unlimited : CronScheduler Slots
unlimited = record served {
  store = record jobs { jobs = record daily { timeout_mins = some (pos 0) } ∷ [] };
}

execute_job-none_example :
    (execute_job quiet (λ t. "late") "j1" stuck 5 unlimited ≡ none) ↔ Hangs "j1" stuck unlimited
execute_job-none_example = execute_job-none quiet (λ t. "late") "j1" stuck 5 unlimited

limited : is_positive (execution_timeout daily) ≡ true
unfolding execution_timeout
limited = refl

registered : IsRun served daily
unfolding GoMap.get
registered = (refl, refl)

execute_job-returns_example :
    (s : CronScheduler Slots) × (err : Option String) × (execute_job quiet
        (λ t. "late")
        "j1"
        stuck
        5
        served
      ≡ some s)
    × Marks quiet (λ t. "late") (execution_timeout daily) (stuck daily) err
    × (Store.get "j1" s.store ≡ some (record daily { last_run = 5; last_error = error_text err }))
unfolding new_cron_scheduler
execute_job-returns_example =
    execute_job-returns quiet (λ t. "late") "j1" stuck 5 served daily found registered (inl limited)
