-- ===== src/Cron/Errors.antt =====
-- The errors of `UpdateJob` of core/cron.go.
use cc2wechat.Prelude.{
  String, ◌≡◌, ◌≢◌, ◌⊎◌, inl, inr, refl, Bool, false, Option, none, some, arith, if◌then◌else◌,
  Option-cases, Bool-cases,
}
use cc2wechat.Cron.Job.{CronJob, CronError, failed_update, failed_schedule}
use cc2wechat.Cron.Fields.{
  Value, text, flag, float, int, other, update_job_field, fallback, set_by_name,
  to_exported_field_name,
}
use cc2wechat.Cron.Store
use cc2wechat.Cron.Store.{CronStore, find_job}
use cc2wechat.Cron.Scheduler.{
  CronLib, CronScheduler, unschedule, update_job, write_update, schedule_found, check_value,
  needs_reschedule,
}
use cc2wechat.Cron.Laws.{CronLaws, IsNoted, unschedule-entry}
use cc2wechat.Cron.Schedule.{IsUnscheduled, unschedule-store}

module _ {C : Type 0} (lib : CronLib C) (laws : CronLaws lib)
    (trim_space to_lower : String → String) where
  schedule_found-error :
      (o : Option CronJob) (s : CronScheduler C) (e : CronError)
      → (schedule_found lib o s).1 ≡ some e
      → e ≡ failed_schedule
  unfolding schedule_found
  schedule_found-error none s e h = cc
  schedule_found-error (some job) s e h = ground arith

  write_update-error :
      (id field : String) (value : Value) (s : CronScheduler C) (e : CronError)
      → (write_update lib id field value s).1 ≡ some e
      → (e ≡ failed_schedule) ⊎ ((e ≡ failed_update) × ((write_update lib id field value s).0 ≡ s))
  unfolding write_update schedule_found
  write_update-error id field value s e h =
      elim (Bool-cases (Store.update id field value s.store).1) [
        | inl p ↦ inl (elim (Bool-cases (needs_reschedule field)) [
          | inl t ↦ schedule_found-error _ _ e (rw (p, t) at h)
          | inr t ↦ ground arith
        ])
        | inr p ↦ inr (ground arith, ground arith)
      ]

  -- Where `UpdateJob` returns an error, it is the failed reschedule; or the refused write of the
  -- field, and then at most the schedule of the job is taken away; or an error found before, and
  -- then nothing has changed.
  pub update_job-error :
      (id field : String) (value : Value) (s : CronScheduler C) (e : CronError)
      → (update_job lib trim_space to_lower id field value s).1 ≡ some e
      → (e ≡ failed_schedule)
        ⊎ ((e ≡ failed_update)
            × ((update_job lib trim_space to_lower id field value s).0
                ≡ (if needs_reschedule field then unschedule lib id s else s)))
        ⊎ ((update_job lib trim_space to_lower id field value s).0 ≡ s)
  unfolding update_job
  update_job-error id field value s e h = elim (Option-cases (Store.get id s.store)) [
    | inl p ↦ inr (inr (ground arith))
    | inr (job, p) ↦ elim (Option-cases (check_value lib trim_space to_lower field value)) [
      | inl q ↦
          let s' = if needs_reschedule field then unschedule lib id s else s in
          elim (write_update-error id field value s' e (ground arith)) [
            | inl r ↦ inl r
            | inr r ↦ inr (inl (r.0, ground arith))
          ]
      | inr (k, q) ↦ inr (inr (ground arith))
    ]
  ]

  -- A value that is no Boolean for the field enabled.
  enabled_field :
      (job : CronJob) (value : Value)
      → ((b : Bool) → value ≢ flag b)
      → update_job_field job "enabled" value ≡ none
  unfolding update_job_field fallback set_by_name to_exported_field_name
  enabled_field job (text v) h = refl
  enabled_field job (flag b) h = absurd (h b refl)
  enabled_field job (float k) h = refl
  enabled_field job (int k) h = refl
  enabled_field job other h = refl

  update-refused :
      (id : String) (value : Value) (job : CronJob) (store : CronStore)
      → ((b : Bool) → value ≢ flag b)
      → find_job id store.jobs ≡ some job
      → Store.update id "enabled" value store ≡ (store, false)
  unfolding Store.update Store.read_only
  update-refused id value job store h p = rw (p, Store.update) (rw (enabled_field job value h) refl)

  refused :
      (id : String) (value : Value) (job : CronJob) (s : CronScheduler C)
      → ((b : Bool) → value ≢ flag b)
      → find_job id s.store.jobs ≡ some job
      → update_job lib trim_space to_lower id "enabled" value s
        ≡ (unschedule lib id s, some failed_update)
  unfolding update_job write_update Store.get check_value needs_reschedule
  refused id value job s h p =
      rw (p, update_job)
        (rw
          (update-refused id value job (unschedule lib id s).store h
            (rw (unschedule-store lib laws id s) p))
          refl)

  -- For a cron that obeys the laws, a state whose entries are all noted, and a job of the store:
  -- an update of the field enabled by a value that is no Boolean reports the failed update and
  -- leaves the store as it was, yet no entry of the cron runs the job after it.
  pub update_job-unschedules :
      (id : String) (value : Value) (job : CronJob) (s : CronScheduler C)
      → ((b : Bool) → value ≢ flag b)
      → Store.get id s.store ≡ some job
      → IsNoted lib s
      → let s' : CronScheduler C = (update_job lib trim_space to_lower id "enabled" value s).0 in
        ((update_job lib trim_space to_lower id "enabled" value s).1 ≡ some failed_update)
        × (s'.store ≡ s.store)
        × IsUnscheduled lib id s'
  unfolding Store.get
  update_job-unschedules id value job s h p v = rw (refused id value job s h p) (
    refl,
    unschedule-store lib laws id s,
    λ n e j q. (unschedule-entry lib laws s id n e j v q).0,
  )
