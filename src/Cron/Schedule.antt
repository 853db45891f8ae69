-- ===== src/Cron/Schedule.antt =====
-- What the requests to the scheduler of core/cron.go keep: the cron runs what the store says.
use mathlib.Core.Path.{subst}
use cc2wechat.Prelude.{
  ℕ, String, ◌≡◌, sym, inl, inr, ◌∙◌, true, false, Option, none, some, arith, ◌==◌, eq_iff,
  Option-cases, String-cases,
}
use cc2wechat.Prelude.GoMap
use cc2wechat.Cron.Job.{CronJob}
use cc2wechat.Cron.Store
use cc2wechat.Cron.Store.{
  CronStore, find_job, Distinct, find_job-id, find_job-append, find_job-replace, find_job-remove_ne,
  append-Distinct, replace-Distinct, remove-Distinct, replace,
}
use cc2wechat.Cron.Scheduler.{CronLib, CronScheduler, remove_old, schedule_job, unschedule}
use cc2wechat.Cron.Laws.{CronLaws, IsNoted, schedule_job-Origin, unschedule-entry}

-- A job that is due to run by the expression.
abbrev pub IsDue : String → Option CronJob → Type 0
IsDue e none = ⊥
IsDue e (some job) = (job.enabled ≡ true) × (job.cron_expr ≡ e)

module _ {C : Type 0} (lib : CronLib C) where
  -- The entries of other jobs run stored jobs that are enabled, by their expressions.
  abbrev pub IsCurrentBut : String → CronScheduler C → Type 0
  IsCurrentBut id s =
      (n : ℕ) (e j : String)
      → lib.entry n s.cron ≡ some (e, j)
      → (id == j) ≡ false
      → IsDue e (find_job j s.store.jobs)

  -- No entry runs the job.
  abbrev pub IsUnscheduled : String → CronScheduler C → Type 0
  IsUnscheduled id s = (n : ℕ) (e j : String) → lib.entry n s.cron ≡ some (e, j) → (id == j) ≡ false

  pub record IsSound (s : CronScheduler C) : Type 0 where
    pub noted : IsNoted lib s
    pub current :
        (n : ℕ) (e j : String)
        → lib.entry n s.cron ≡ some (e, j)
        → IsDue e (find_job j s.store.jobs)
    pub distinct : Distinct s.store.jobs

module _ {C : Type 0} (lib : CronLib C) (laws : CronLaws lib) where
  pub schedule_job-IsNoted :
      (job : CronJob) (s : CronScheduler C) → IsNoted lib s → IsNoted lib (schedule_job lib job s).0
  schedule_job-IsNoted job s v n e j h = elim (schedule_job-Origin lib laws s job n e j v h) [
    | inl p ↦ p.2
    | inr p ↦ p.2 ∙ v n e j p.1
  ]

  pub unschedule-IsNoted :
      (id : String) (s : CronScheduler C) → IsNoted lib s → IsNoted lib (unschedule lib id s)
  unschedule-IsNoted id s v n e j h =
      let p = unschedule-entry lib laws s id n e j v h in p.2 ∙ v n e j p.1

  pub schedule_job-store :
      (job : CronJob) (s : CronScheduler C) → (schedule_job lib job s).0.store ≡ s.store
  unfolding schedule_job
  schedule_job-store job s =
      elim (Option-cases
        (lib.add_func job.cron_expr job.id (remove_old lib (GoMap.get job.id s.entries) s.cron))) [
          | inl q ↦ rw q
          | inr (r, q) ↦ rw q
        ]

  pub unschedule-store : (id : String) (s : CronScheduler C) → (unschedule lib id s).store ≡ s.store
  unfolding unschedule
  unschedule-store id s = elim (Option-cases (GoMap.get id s.entries)) [
    | inl q ↦ rw (q, unschedule)
    | inr (n, q) ↦ rw (q, unschedule)
  ]

  pub schedule_job-IsSound :
      (job : CronJob) (s : CronScheduler C)
      → IsNoted lib s
      → IsCurrentBut lib job.id s
      → Distinct s.store.jobs
      → find_job job.id s.store.jobs ≡ some job
      → job.enabled ≡ true
      → IsSound lib (schedule_job lib job s).0
  schedule_job-IsSound job s v c d f e = record {
    noted = schedule_job-IsNoted job s v;
    current = λ n x j h.
        rw (schedule_job-store job s) (elim (schedule_job-Origin lib laws s job n x j v h) [
          | inl p ↦ rw (← p.1, f) (e, sym p.0)
          | inr p ↦ c n x j p.1 p.0
        ]);
    distinct = rw (schedule_job-store job s) d;
  }

  pub unschedule-IsSound :
      (id : String) (s : CronScheduler C)
      → IsNoted lib s
      → IsCurrentBut lib id s
      → Distinct s.store.jobs
      → IsSound lib (unschedule lib id s) × IsUnscheduled lib id (unschedule lib id s)
  unschedule-IsSound id s v c d = (
    record {
      noted = unschedule-IsNoted id s v;
      current = λ n x j h.
          let p = unschedule-entry lib laws s id n x j v h in
          rw (unschedule-store id s) (c n x j p.1 p.0);
      distinct = rw (unschedule-store id s) d;
    },
    λ n x j h. (unschedule-entry lib laws s id n x j v h).0,
  )

  -- A write of a job leaves the others as they are.
  pub write_job-IsCurrentBut :
      (id : String) (old new : CronJob) (s : CronScheduler C)
      → find_job id s.store.jobs ≡ some old
      → new.id ≡ old.id
      → IsSound lib s
      → IsNoted lib (record s { store = Store.write_job id new s.store })
        × IsCurrentBut lib id (record s { store = Store.write_job id new s.store })
        × Distinct (Store.write_job id new s.store).jobs
        × (find_job id (Store.write_job id new s.store).jobs ≡ some new)
  unfolding Store.write_job
  write_job-IsCurrentBut id old new s f e v = (
    v.noted,
    λ n x j h k. rw (find_job-replace id j new old s.store.jobs f e, k) (v.current n x j h),
    replace-Distinct id new old s.store.jobs f e v.distinct,
    rw (find_job-replace id id new old s.store.jobs f e) (ground (arith, eq_iff id id)),
  )

  -- A write that changes neither whether the job is enabled nor its expression keeps all sound.
  pub write_job-IsSound :
      (id : String) (old new : CronJob) (s : CronScheduler C)
      → find_job id s.store.jobs ≡ some old
      → new.id ≡ old.id
      → new.enabled ≡ old.enabled
      → new.cron_expr ≡ old.cron_expr
      → IsSound lib s
      → IsSound lib (record s { store = Store.write_job id new s.store })
  write_job-IsSound id old new s f e p q v =
      let w = write_job-IsCurrentBut id old new s f e v in
      record {
        noted = w.0;
        current = λ n x j h. elim (String-cases id j) [
          | inl k ↦
              let due =
                subst (IsDue x) (subst (λ (i : String). find_job i s.store.jobs ≡ some old) k.0 f)
                  (v.current n x j h) in
              subst (IsDue x)
                (sym (
                  subst
                    (λ (i : String). find_job i (Store.write_job id new s.store).jobs ≡ some new)
                    k.0 w.3))
                (p ∙ due.0, q ∙ due.1)
          | inr k ↦ w.1 n x j h k.1
        ];
        distinct = w.2;
      }

  -- So does a write of a job that is not scheduled.
  pub write_job-unscheduled :
      (id : String) (old new : CronJob) (s : CronScheduler C)
      → find_job id s.store.jobs ≡ some old
      → new.id ≡ old.id
      → IsUnscheduled lib id s
      → IsSound lib s
      → IsSound lib (record s { store = Store.write_job id new s.store })
  write_job-unscheduled id old new s f e u v =
      let w = write_job-IsCurrentBut id old new s f e v in
      record { noted = w.0; current = λ n x j h. w.1 n x j h (u n x j h); distinct = w.2 }
