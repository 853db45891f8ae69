-- ===== src/Cron/Starting.antt =====
-- `Start` of core/cron.go keeps the state sound.
use mathlib.Core.Path.{subst}
use cc2wechat.Prelude.{
  ◌≡◌, sym, refl, Bool, true, false, none, some, List, [], ◌∷◌, arith, eq_iff, if◌then◌else◌,
}
use cc2wechat.Prelude.Disk.{Disk}
use cc2wechat.Cron.Job.{CronJob}
use cc2wechat.Cron.Store
use cc2wechat.Cron.Store.{
  CronStore, find_job, Distinct, find_job-id, find_job-append, find_job-remove_ne, append-Distinct,
  remove-Distinct,
}
use cc2wechat.Cron.Scheduler.{CronLib, CronScheduler, schedule_job, schedule_enabled, start}
use cc2wechat.Cron.Laws.{CronLaws}
use cc2wechat.Cron.Schedule.{IsSound, schedule_job-store, schedule_job-IsSound}

module _ {C : Type 0} (lib : CronLib C) (laws : CronLaws lib) where
  -- The jobs of a list stand in the store.
  abbrev IsStored : List CronJob → CronStore → Type 0
  IsStored [] store = Unit {0}
  IsStored (job ∷ jobs) store = (find_job job.id store.jobs ≡ some job) × IsStored jobs store

  schedule_if-IsSound :
      (s : CronScheduler C) (job : CronJob) (b : Bool)
      → job.enabled ≡ b
      → find_job job.id s.store.jobs ≡ some job
      → IsSound lib s
      → let s' = if b then (schedule_job lib job s).0 else s in
        IsSound lib s' × (s'.store ≡ s.store)
  schedule_if-IsSound s job true e f v = (
    schedule_job-IsSound lib laws job s v.noted (λ n x j h _. v.current n x j h) v.distinct f e,
    schedule_job-store lib laws job s,
  )
  schedule_if-IsSound s job false e f v = (v, refl)

  schedule_enabled-IsSound :
      (jobs : List CronJob) (s : CronScheduler C)
      → IsStored jobs s.store
      → IsSound lib s
      → IsSound lib (schedule_enabled lib jobs s)
  unfolding schedule_enabled
  schedule_enabled-IsSound [] s p v = v
  schedule_enabled-IsSound (job ∷ jobs) s p v =
      let (v', e) = schedule_if-IsSound s job job.enabled refl p.0 v in
      schedule_enabled-IsSound jobs _ (subst (IsStored jobs) (sym e) p.1) v'

  cons-IsStored :
      (job : CronJob) (jobs rest : List CronJob) (d : Disk (List CronJob))
      → find_job job.id rest ≡ none
      → IsStored jobs (record { jobs = rest; disk = d })
      → IsStored jobs (record { jobs = job ∷ rest; disk = d })
  unfolding find_job
  cons-IsStored job [] rest d h p = tt
  cons-IsStored job (x ∷ jobs) rest d h p =
      (ground (arith, eq_iff job.id x.id), cons-IsStored job jobs rest d h p.1)

  Distinct-IsStored :
      (jobs : List CronJob) (d : Disk (List CronJob))
      → Distinct jobs
      → IsStored jobs (record { jobs = jobs; disk = d })
  unfolding find_job
  Distinct-IsStored [] d p = tt
  Distinct-IsStored (job ∷ jobs) d p = (
    ground (arith, eq_iff job.id job.id),
    cons-IsStored job jobs jobs d p.0 (Distinct-IsStored jobs d p.1),
  )

  pub start-IsSound : (s : CronScheduler C) → IsSound lib s → IsSound lib (start lib s)
  unfolding start Store.list
  start-IsSound s v =
      schedule_enabled-IsSound s.store.jobs s
        (Distinct-IsStored s.store.jobs s.store.disk v.distinct) v
