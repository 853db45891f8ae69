-- ===== src/Cron/Updates.antt =====
-- `UpdateJob` of core/cron.go keeps the state sound.
use mathlib.Core.Path.{subst}
use cc2wechat.Prelude.{
  String, ◌≡◌, sym, ◌⊎◌, inl, inr, refl, ◌∙◌, Bool, true, false, none, some, arith, ◌==◌, eq_iff,
  if◌then◌else◌, Option-cases, Bool-cases,
}
use cc2wechat.Cron.Job.{CronJob}
use cc2wechat.Cron.Kept.{IsPlain, Kept, KeptIn, update_job_field-Kept}
use cc2wechat.Cron.Fields.{Value, update_job_field}
use cc2wechat.Cron.Store
use cc2wechat.Cron.Store.{
  CronStore, find_job, Distinct, find_job-id, find_job-append, find_job-remove_ne, append-Distinct,
  remove-Distinct,
}
use cc2wechat.Cron.Scheduler.{
  CronLib, CronScheduler, unschedule, enabled_only, update_job, schedule_found, write_update,
  check_value, needs_reschedule,
}
use cc2wechat.Cron.Laws.{CronLaws}
use cc2wechat.Cron.Schedule.{
  IsUnscheduled, IsSound, unschedule-store, schedule_job-IsSound, unschedule-IsSound,
  write_job-IsCurrentBut, write_job-IsSound, write_job-unscheduled,
}

needs_none :
    (field : String)
    → needs_reschedule field ≡ false
    → ((field == "cron_expr") ≡ false) × ((field == "enabled") ≡ false)
unfolding needs_reschedule
needs_none field h = ground arith

module _ {C : Type 0} (lib : CronLib C) (laws : CronLaws lib) where
  -- The results of a write of an update: the store refuses it, the job is written, or also scheduled.
  write_update-cases :
      (id field : String) (value : Value) (s : CronScheduler C) (old : CronJob)
      → find_job id s.store.jobs ≡ some old
      → ((write_update lib id field value s).0 ≡ s)
        ⊎ ((new : CronJob) × (update_job_field old field value ≡ some new)
            × (let s' : CronScheduler C = record s { store = Store.write_job id new s.store } in
                ((write_update lib id field value s).0 ≡ s')
                ⊎ ((needs_reschedule field ≡ true)
                    × ((write_update lib id field value s).0
                        ≡ (schedule_found lib (enabled_only (find_job id s'.store.jobs)) s').0))))
  unfolding write_update Store.update Store.get
  write_update-cases id field value s old q =
      elim (Option-cases (update_job_field old field value)) [
        | inl p ↦ inl (ground arith)
        | inr (new, p) ↦ elim (Bool-cases (Store.read_only field)) [
          | inl r ↦ inl (ground arith)
          | inr r ↦ inr (new, p, ground arith)
        ]
      ]

  schedule_enabled_only :
      (s : CronScheduler C) (job : CronJob) (b : Bool)
      → job.enabled ≡ b
      → find_job job.id s.store.jobs ≡ some job
      → IsSound lib s
      → IsSound lib (schedule_found lib (if b then some job else none) s).0
  unfolding schedule_found
  schedule_enabled_only s job true e f v =
      schedule_job-IsSound lib laws job s v.noted (λ n x j h _. v.current n x j h) v.distinct f e
  schedule_enabled_only s job false e f v = v

  -- A written job stands under its id.
  written_at_id :
      (id : String) (old new : CronJob) (s : CronScheduler C)
      → find_job id s.store.jobs ≡ some old
      → new.id ≡ old.id
      → IsSound lib s
      → find_job new.id (Store.write_job id new s.store).jobs ≡ some new
  written_at_id id old new s f e v =
      let p : new.id ≡ id = e ∙ (eq_iff old.id id).0 (find_job-id id s.store.jobs old f) in
      subst (λ (i : String). find_job i (Store.write_job id new s.store).jobs ≡ some new) (sym p)
        (write_job-IsCurrentBut lib laws id old new s f e v).3

  -- An update of a job, once it is unscheduled where the field asks for it.
  write_update-IsSound :
      (id field : String) (value : Value) (s : CronScheduler C) (old : CronJob)
      → find_job id s.store.jobs ≡ some old
      → IsPlain field
      → (needs_reschedule field ≡ true → IsUnscheduled lib id s)
      → IsSound lib s
      → IsSound lib (write_update lib id field value s).0
  write_update-IsSound id field value s old q f u v =
      elim (write_update-cases id field value s old q) [
        | inl p ↦ rw p v
        | inr (new, p, r) ↦
            let k : Kept old field new =
              subst (KeptIn old field) p (update_job_field-Kept old field value f).kept in
            let w = write_job-IsCurrentBut lib laws id old new s q k.0 v in
            elim r [
              | inl r ↦ rw r (elim (Bool-cases (needs_reschedule field)) [
                | inl t ↦ write_job-unscheduled lib laws id old new s q k.0 (u t) v
                | inr t ↦
                    write_job-IsSound lib laws id old new s q k.0 (k.1 (needs_none field t).1)
                      (k.2 (needs_none field t).0) v
              ])
              | inr (t, r) ↦
                  rw (r, w.3)
                    (schedule_enabled_only _ new new.enabled refl
                      (written_at_id id old new s q k.0 v)
                      (write_job-unscheduled lib laws id old new s q k.0 (u t) v))
            ]
      ]

  pub update_job-cases :
      (trim_space to_lower : String → String) (id field : String) (value : Value)
      (s : CronScheduler C)
      → ((update_job lib trim_space to_lower id field value s).0 ≡ s)
        ⊎ ((old : CronJob) × (find_job id s.store.jobs ≡ some old)
            × ((update_job lib trim_space to_lower id field value s).0
                ≡ (write_update lib id field value
                    (if needs_reschedule field then unschedule lib id s else s)).0))
  unfolding update_job Store.get
  update_job-cases trim_space to_lower id field value s =
      elim (Option-cases (find_job id s.store.jobs)) [
        | inl p ↦ inl (ground arith)
        | inr (old, p) ↦ elim (Option-cases (check_value lib trim_space to_lower field value)) [
          | inl q ↦ inr (old, p, ground arith)
          | inr (e, q) ↦ inl (ground arith)
        ]
      ]

  pub update_job-IsSound :
      (trim_space to_lower : String → String) (id field : String) (value : Value)
      (s : CronScheduler C)
      → IsPlain field
      → IsSound lib s
      → IsSound lib (update_job lib trim_space to_lower id field value s).0
  update_job-IsSound trim_space to_lower id field value s f v =
      elim (update_job-cases trim_space to_lower id field value s) [
        | inl p ↦ rw p v
        | inr (old, q, p) ↦ elim (Bool-cases (needs_reschedule field)) [
          | inl t ↦
              let (v', u) =
                unschedule-IsSound lib laws id s v.noted (λ n e j h _. v.current n e j h)
                  v.distinct in
              rw (p, t)
                (write_update-IsSound id field value (unschedule lib id s) old
                  (rw (unschedule-store lib laws id s) q) f (λ _. u) v')
          | inr t ↦ rw (p, t) (write_update-IsSound id field value s old q f (λ t'. cc (t, t')) v)
        ]
      ]
