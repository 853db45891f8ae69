-- ===== src/Cron/Keeps.antt =====
-- Each request to the scheduler of core/cron.go keeps the state sound: the entries of the cron are those noted,
-- and run stored jobs that are enabled.
use mathlib.Core.Path.{subst}
use cc2wechat.Prelude.{
  String, ◌≡◌, sym, ◌⊎◌, inl, inr, refl, ◌∙◌, true, false, none, some, arith, eq_iff, Option-cases,
}
use cc2wechat.Cron.Job.{CronJob, normalize_cron_session_mode}
use cc2wechat.Cron.Store
use cc2wechat.Cron.Store.{
  CronStore, find_job, Distinct, find_job-id, find_job-append, find_job-remove_ne, append-Distinct,
  remove-Distinct,
}
use cc2wechat.Cron.Scheduler.{
  CronLib, CronScheduler, schedule_job, unschedule, remove_job, enable_job, disable_job, add_job,
  schedule_found,
}
use cc2wechat.Cron.Laws.{CronLaws}
use cc2wechat.Cron.Schedule.{
  IsCurrentBut, IsSound, schedule_job-IsSound, unschedule-IsSound, write_job-IsCurrentBut,
}

module _ {C : Type 0} (lib : CronLib C) (laws : CronLaws lib) where
  pub remove_job-IsSound :
      (id : String) (s : CronScheduler C) → IsSound lib s → IsSound lib (remove_job lib id s).0
  unfolding remove_job Store.remove Store.save
  remove_job-IsSound id s v =
      let (v', u) =
        unschedule-IsSound lib laws id s v.noted (λ n e j h _. v.current n e j h) v.distinct in
      let s' = unschedule lib id s in
      elim (Option-cases (find_job id s'.store.jobs)) [
        | inl q ↦ rw (q, remove_job, Store.remove) v'
        | inr (old, q) ↦
            rw (q, remove_job, Store.remove)
              (record {
                noted = v'.noted;
                current = λ n e j h.
                    rw (find_job-remove_ne id j s'.store.jobs (u n e j h)) (v'.current n e j h);
                distinct = remove-Distinct id s'.store.jobs v'.distinct;
              })
      ]

  schedule_found-store_write :
      (id : String) (old new : CronJob) (s : CronScheduler C)
      → find_job id s.store.jobs ≡ some old
      → new.id ≡ old.id
      → new.enabled ≡ true
      → IsSound lib s
      → IsSound lib (schedule_job lib new (record s { store = Store.write_job id new s.store })).0
  schedule_found-store_write id old new s f e t v =
      let w = write_job-IsCurrentBut lib laws id old new s f e v in
      let p : new.id ≡ id = e ∙ (eq_iff old.id id).0 (find_job-id id s.store.jobs old f) in
      let s' : CronScheduler C = record s { store = Store.write_job id new s.store } in
      schedule_job-IsSound lib laws new s' w.0
        (subst (λ (i : String). IsCurrentBut lib i s') (sym p) w.1) w.2
        (subst (λ (i : String). find_job i s'.store.jobs ≡ some new) (sym p) w.3) t

  pub enable_job-IsSound :
      (id : String) (s : CronScheduler C) → IsSound lib s → IsSound lib (enable_job lib id s).0
  unfolding enable_job Store.set_enabled schedule_found Store.get
  enable_job-IsSound id s v = elim (Option-cases (find_job id s.store.jobs)) [
    | inl q ↦ rw (q, enable_job, Store.set_enabled) v
    | inr (old, q) ↦
        let new : CronJob = record old { enabled = true } in
        let w = write_job-IsCurrentBut lib laws id old new s q refl v in
        rw (q, enable_job, Store.set_enabled, w.3, Store.get)
          (schedule_found-store_write id old new s q refl refl v)
  ]

  pub disable_job-IsSound :
      (id : String) (s : CronScheduler C) → IsSound lib s → IsSound lib (disable_job lib id s).0
  unfolding disable_job Store.set_enabled
  disable_job-IsSound id s v = elim (Option-cases (find_job id s.store.jobs)) [
    | inl q ↦ rw (q, disable_job, Store.set_enabled) v
    | inr (old, q) ↦
        let new : CronJob = record old { enabled = false } in
        let w = write_job-IsCurrentBut lib laws id old new s q refl v in
        rw (q, disable_job, Store.set_enabled)
          (unschedule-IsSound lib laws id (record s { store = Store.write_job id new s.store }) w.0
            w.1 w.2).0
  ]

  -- The results of `AddJob`: nothing is changed, the job is stored, or it is stored and scheduled.
  pub add_job-cases :
      (trim_space to_lower : String → String) (job : CronJob) (s : CronScheduler C)
      → let job' : CronJob = record job {
        session_mode = normalize_cron_session_mode trim_space to_lower job.session_mode;
      } in
        let s' : CronScheduler C = record s { store = (Store.add job' s.store).0 } in
        ((add_job lib trim_space to_lower job s).0 ≡ s)
        ⊎ ((add_job lib trim_space to_lower job s).0 ≡ s')
        ⊎ ((job.enabled ≡ true)
            × ((add_job lib trim_space to_lower job s).0 ≡ (schedule_job lib job' s').0))
  unfolding add_job schedule_found Store.add Store.save
  add_job-cases trim_space to_lower job s = ground arith

  stored-IsSound :
      (job : CronJob) (s : CronScheduler C)
      → find_job job.id s.store.jobs ≡ none
      → IsSound lib s
      → IsSound lib (record s { store = (Store.add job s.store).0 })
  unfolding Store.add Store.save
  stored-IsSound job s f v = record {
    noted = v.noted;
    current = λ n e j h.
        ground (arith, v.current n e j h, find_job-append j s.store.jobs job, eq_iff job.id j);
    distinct = append-Distinct job s.store.jobs f v.distinct;
  }

  stored-find :
      (job : CronJob) (s : CronScheduler C)
      → find_job job.id s.store.jobs ≡ none
      → find_job job.id (Store.add job s.store).0.jobs ≡ some job
  unfolding Store.add Store.save
  stored-find job s f =
      ground (arith, find_job-append job.id s.store.jobs job f, eq_iff job.id job.id)

  pub add_job-IsSound :
      (trim_space to_lower : String → String) (job : CronJob) (s : CronScheduler C)
      → find_job job.id s.store.jobs ≡ none
      → IsSound lib s
      → IsSound lib (add_job lib trim_space to_lower job s).0
  add_job-IsSound trim_space to_lower job s f v =
      let job' : CronJob = record job {
        session_mode = normalize_cron_session_mode trim_space to_lower job.session_mode;
      } in
      let v' = stored-IsSound job' s f v in
      elim (add_job-cases trim_space to_lower job s) [
        | inl p ↦ rw p v
        | inr (inl p) ↦ rw p v'
        | inr (inr (e, p)) ↦ rw p (
            schedule_job-IsSound lib laws job' _ v'.noted (λ n x j h _. v'.current n x j h)
              v'.distinct (stored-find job' s f) e)
      ]
