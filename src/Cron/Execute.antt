-- ===== src/Cron/Execute.antt =====
-- `executeJob` of core/cron.go: a run of a job, from the tick of the cron to the mark in the store. How long
-- the engine takes, and with what result, is given.
use cc2wechat.Prelude.{
  ℕ, zero, suc, String, ◌≡◌, ◌↔◌, ◌⊎◌, ◌≤◌, ◌<◌, refl, Bool, true, false, not, Option, none, some,
  arith, ltb, if◌then◌else◌, Option-cases, Bool-cases, inl, inr, eq_iff,
}
use cc2wechat.Prelude.GoMap.{has}
use cc2wechat.Cron.Job.{ℤ, pos, negsuc, CronJob, execution_timeout}
use cc2wechat.Cron.Store
use cc2wechat.Cron.Store.{CronStore, find_job, find_job-replace, error_text}
use cc2wechat.Cron.Scheduler.{CronScheduler}

-- What `ExecuteCronJob` does in the goroutine: `took` is `none` where it never returns, and `wins` is which
-- of the two a select takes that finds both ready.
pub record Outcome : Type 0 where
  pub took : Option ℕ
  pub error : Option String
  pub wins : Bool

abbrev pub is_positive : ℤ → Bool
is_positive (pos zero) = false
is_positive (pos (suc n)) = true
is_positive (negsuc n) = false

-- The select on the engine's result and the timer.
unfoldable pub in_time : ℕ → Outcome → Bool
in_time limit o = elim o.took [
  | none ↦ false
  | some t ↦ if ltb t limit then true else if ltb limit t then false else o.wins
]

in_time-le : (n u : ℕ) (o : Outcome) → o.took ≡ some u → in_time n o ≡ true → u ≤ n
unfolding in_time
in_time-le n u o e b = ground (arith, e, b)

never-late : (n : ℕ) (o : Outcome) → o.took ≡ none → in_time n o ≡ false
unfolding in_time
never-late n o e = ground (arith, e)

late-le : (n u : ℕ) (o : Outcome) → o.took ≡ some u → in_time n o ≡ false → n ≤ u
unfolding in_time
late-le n u o e b = ground (arith, e, b)

finish :
    {C : Type 0} → String → ℕ → CronScheduler C → Option (Option String) → Option (CronScheduler C)
finish id now s none = none
finish id now s (some err) = some (record s { store = Store.mark_run id err now s.store })

-- The engine runs the job, without a time limit and without end.
abbrev pub Hangs : {C : Type 0} → String → (CronJob → Outcome) → CronScheduler C → Type 0
Hangs id engine s =
    (job : CronJob) × (Store.get id s.store ≡ some job)
    × (job.enabled ≡ true)
    × (has job.project s.engines ≡ true)
    × (is_positive (execution_timeout job) ≡ false)
    × ((engine job).took ≡ none)

-- Of a found job: whether the engine runs it.
abbrev pub IsRun : {C : Type 0} → CronScheduler C → CronJob → Type 0
IsRun s job = (job.enabled ≡ true) × (has job.project s.engines ≡ true)

-- The mark of a run.
marked :
    (id : String) (err : Option String) (now : ℕ) (store : CronStore) (job : CronJob)
    → Store.get id store ≡ some job
    → Store.get id (Store.mark_run id err now store)
      ≡ some (record job { last_run = now; last_error = error_text err })
unfolding Store.get Store.mark_run Store.write_job Store.save
marked id err now store job p =
    rw (p, Store.mark_run)
      (ground (
        arith,
        eq_iff id id,
        find_job-replace id id (record job { last_run = now; last_error = error_text err }) job
            store.jobs,
      ))

-- `no_project`, and `timed_out` below, are the texts of the errors that `fmt.Errorf` makes.
module _ (no_project : String → String) where
  begin_found :
      {C : Type 0}
      → String
      → ℕ
      → CronScheduler C
      → Option CronJob
      → CronScheduler C × Option CronJob
  begin_found id now s none = (s, none)
  begin_found id now s (some job) =
      if not job.enabled then (s, none) else if has job.project s.engines then (s, some job) else (
        record s { store = Store.mark_run id (some (no_project job.project)) now s.store },
        none,
      )

  -- The job, if the engine is to run it.
  unfoldable pub begin_run :
      {C : Type 0} → String → ℕ → CronScheduler C → CronScheduler C × Option CronJob
  unfolding begin_found
  begin_run id now s = begin_found id now s (Store.get id s.store)

  begin_found-keeps :
      {C : Type 0} (id : String) (now : ℕ) (s : CronScheduler C) (o : Option CronJob)
      → let s' : CronScheduler C = (begin_found id now s o).0 in
        (s' ≡ s)
        ⊎ ((e : Option String) × (s' ≡ record s { store = Store.mark_run id e now s.store }))
  unfolding begin_found
  begin_found-keeps id now s none = inl refl
  begin_found-keeps id now s (some job) = elim (Bool-cases job.enabled) [
    | inr e ↦ inl (ground arith)
    | inl e ↦ elim (Bool-cases (has job.project s.engines)) [
      | inl x ↦ inl (ground arith)
      | inr x ↦ inr (some (no_project job.project), ground arith)
    ]
  ]

  pub begin_run-keeps :
      {C : Type 0} (id : String) (now : ℕ) (s : CronScheduler C)
      → let s' : CronScheduler C = (begin_run id now s).0 in
        (s' ≡ s)
        ⊎ ((e : Option String) × (s' ≡ record s { store = Store.mark_run id e now s.store }))
  unfolding begin_run
  begin_run-keeps id now s = begin_found-keeps id now s (Store.get id s.store)

module _ (timed_out : ℤ → String) where
  -- `none` is a wait without end.
  unfoldable pub wait : ℤ → Outcome → Option (Option String)
  wait (pos (suc n)) o =
      some (if in_time (suc n) o then o.error else some (timed_out (pos (suc n))))
  wait (pos zero) o = elim o.took [ none ↦ none | some t ↦ some o.error ]
  wait (negsuc n) o = elim o.took [ none ↦ none | some t ↦ some o.error ]

  wait-none :
      (t : ℤ) (o : Outcome) → (wait t o ≡ none) ↔ ((is_positive t ≡ false) × (o.took ≡ none))
  unfolding wait
  wait-none (pos zero) o = elim (Option-cases o.took) [
    | inl p ↦ rw p (λ h. (refl, refl), λ h. refl)
    | inr (t, p) ↦ rw p (λ h. cc, λ h. cc)
  ]
  wait-none (pos (suc n)) o = (λ h. cc, λ h. cc)
  wait-none (negsuc n) o = elim (Option-cases o.took) [
    | inl p ↦ rw p (λ h. (refl, refl), λ h. refl)
    | inr (t, p) ↦ rw p (λ h. cc, λ h. cc)
  ]

module _ (no_project : String → String) (timed_out : ℤ → String) where
  run_job :
      {C : Type 0}
      → String
      → (CronJob → Outcome)
      → ℕ
      → CronScheduler C × Option CronJob
      → Option (CronScheduler C)
  unfolding finish
  run_job id engine now (s, none) = some s
  run_job id engine now (s, some job) =
      finish id now s (wait timed_out (execution_timeout job) (engine job))

  unfoldable pub execute_job :
      {C : Type 0} → String → (CronJob → Outcome) → ℕ → CronScheduler C → Option (CronScheduler C)
  unfolding run_job
  execute_job id engine now s = run_job id engine now (begin_run no_project id now s)

  module _ {C : Type 0} (id : String) (engine : CronJob → Outcome) (now : ℕ)
      (s : CronScheduler C) where
    run-wait :
        (job : CronJob) (r : Option (Option String))
        → IsRun s job
        → wait timed_out (execution_timeout job) (engine job) ≡ r
        → run_job id engine now (begin_found no_project id now s (some job)) ≡ finish id now s r
    unfolding run_job begin_found
    run-wait job r h w = ground arith

    hangs-none :
        (o : Option CronJob)
        → run_job id engine now (begin_found no_project id now s o) ≡ none
        → (job : CronJob) × (o ≡ some job)
          × (job.enabled ≡ true)
          × (has job.project s.engines ≡ true)
          × (is_positive (execution_timeout job) ≡ false)
          × ((engine job).took ≡ none)
    unfolding run_job begin_found finish
    hangs-none none h = cc
    hangs-none (some job) h =
        let w = wait-none timed_out (execution_timeout job) (engine job) in
        (job, refl, ground arith, ground arith, ground (arith, w), ground (arith, w))

  -- A run of a job never returns exactly where the job is in the store and enabled, its engine
  -- is registered, its timeout is not positive, and the engine never returns. So a positive
  -- timeout makes every run return.
  pub execute_job-none :
      {C : Type 0} (id : String) (engine : CronJob → Outcome) (now : ℕ) (s : CronScheduler C)
      → (execute_job id engine now s ≡ none) ↔ Hangs id engine s
  unfolding execute_job begin_run finish
  execute_job-none id engine now s = (
    hangs-none id engine now s (Store.get id s.store),
    λ (job, p, e, x, t, n). rw p (
        run-wait id engine now s job none (e, x)
          ((wait-none timed_out (execution_timeout job) (engine job)).1 (t, n))),
  )

  -- The result that a run marks, by the timeout and what the engine does: the engine's error, where
  -- it returned, in time if the timeout is positive; the text of a timeout that is positive, where it did not
  -- return before.
  abbrev pub Marks : ℤ → Outcome → Option String → Type 0
  Marks t o err =
      ((u : ℕ) × (o.took ≡ some u)
        × ((is_positive t ≡ false) ⊎ ((n : ℕ) × (t ≡ pos n) × (u ≤ n)))
        × (err ≡ o.error))
      ⊎ ((n : ℕ) × (t ≡ pos n)
          × (0 < n)
          × ((o.took ≡ none) ⊎ ((u : ℕ) × (o.took ≡ some u) × (n ≤ u)))
          × (err ≡ some (timed_out t)))

  wait-Marks :
      (t : ℤ) (o : Outcome)
      → (is_positive t ≡ true) ⊎ ((u : ℕ) × (o.took ≡ some u))
      → (err : Option String) × (wait timed_out t o ≡ some err) × Marks t o err
  unfolding wait
  wait-Marks (pos zero) o (inl h) = cc
  wait-Marks (negsuc n) o (inl h) = cc
  wait-Marks (pos zero) o (inr (u, h)) = (o.error, rw h refl, inl (u, h, inl refl, refl))
  wait-Marks (negsuc n) o (inr (u, h)) = (o.error, rw h refl, inl (u, h, inl refl, refl))
  wait-Marks (pos (suc n)) o h = elim (Option-cases o.took) [
    | inl e ↦ (
      some (timed_out (pos (suc n))),
      rw (never-late (suc n) o e) refl,
      inr (suc n, refl, omega arith, inl e, refl),
    )
    | inr (u, e) ↦ elim (Bool-cases (in_time (suc n) o)) [
      | inl b ↦
          (o.error, rw b refl, inl (u, e, inr (suc n, refl, in_time-le (suc n) u o e b), refl))
      | inr b ↦ (
        some (timed_out (pos (suc n))),
        rw b refl,
        inr (suc n, refl, omega arith, inr (u, e, late-le (suc n) u o e b), refl),
      )
    ]
  ]

  -- Where the job is in the store and enabled, its engine is registered, and its timeout is
  -- positive or the engine returns: the run returns, and the store's job has the time of the run
  -- and a text: of the engine's error or its absence, where the engine returned before the
  -- timeout or there is none, and of the timeout, where it did not; either, where both came at
  -- the same time.
  pub execute_job-returns :
      {C : Type 0} (id : String) (engine : CronJob → Outcome) (now : ℕ) (s : CronScheduler C)
      (job : CronJob)
      → Store.get id s.store ≡ some job
      → IsRun s job
      → (is_positive (execution_timeout job) ≡ true) ⊎ ((u : ℕ) × ((engine job).took ≡ some u))
      → (s' : CronScheduler C) × (err : Option String) × (execute_job id engine now s ≡ some s')
        × Marks (execution_timeout job) (engine job) err
        × (Store.get id s'.store
            ≡ some (record job { last_run = now; last_error = error_text err }))
  unfolding execute_job begin_run finish
  execute_job-returns id engine now s job p r h =
      let (err, w, e) = wait-Marks (execution_timeout job) (engine job) h in
      (
        record s { store = Store.mark_run id err now s.store },
        err,
        rw p (run-wait id engine now s job (some err) r w),
        e,
        marked id err now s.store job p,
      )
