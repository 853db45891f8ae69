-- ===== src/Cron/Boot.antt =====
-- `Start` of core/cron.go on the jobs of the file.
use mathlib.Core.Path.{subst₂}
use cc2wechat.Prelude.{
  ℕ, String, ◌≡◌, ap, ◌∙◌, inl, inr, refl, Bool, true, false, none, some, List, [], ◌∷◌, arith,
  ◌==◌, eq_iff, if◌then◌else◌, Bool-cases,
}
use cc2wechat.Prelude.GoMap
use cc2wechat.Prelude.GoMap.{GoMap, put, get-put}
use cc2wechat.Cron.Job.{CronJob}
use cc2wechat.Cron.Store
use cc2wechat.Cron.Store.{CronStore, find_job, Distinct}
use cc2wechat.Cron.Scheduler.{
  CronLib, CronScheduler, new_cron_scheduler, schedule_job, schedule_enabled, remove_old, start,
}
use cc2wechat.Cron.Laws.{CronLaws}

-- No entry is noted for a job of the list.
abbrev IsAbsent : List CronJob → GoMap ℕ → Type 0
IsAbsent [] entries = Unit {0}
IsAbsent (job ∷ jobs) entries = (GoMap.get job.id entries ≡ none) × IsAbsent jobs entries

put-IsAbsent :
    (id : String) (n : ℕ) (jobs : List CronJob) (entries : GoMap ℕ)
    → find_job id jobs ≡ none
    → IsAbsent jobs entries
    → IsAbsent jobs (put id n entries)
unfolding find_job
put-IsAbsent id n [] entries f a = tt
put-IsAbsent id n (job ∷ jobs) entries f a = (
  ground (arith, get-put id job.id n entries, eq_iff id job.id, eq_iff job.id id),
  put-IsAbsent id n jobs entries (ground arith) a.1,
)

empty-IsAbsent : (jobs : List CronJob) → IsAbsent jobs []
unfolding GoMap.get
empty-IsAbsent [] = tt
empty-IsAbsent (job ∷ jobs) = (refl, empty-IsAbsent jobs)

head_found :
    (id : String) (x job : CronJob) (jobs : List CronJob)
    → find_job id (x ∷ jobs) ≡ some job
    → (x.id == id) ≡ true
    → (x ≡ job) × (x.id ≡ id)
unfolding find_job
head_found id x job jobs f q = (ground arith, (eq_iff x.id id).0 q)

module _ {C : Type 0} (lib : CronLib C) (laws : CronLaws lib) where
  -- What scheduling a job for the first time does, where its expression is accepted, and where not.
  schedule_job-accepted :
      (job : CronJob) (s : CronScheduler C) (c : C) (n : ℕ)
      → GoMap.get job.id s.entries ≡ none
      → lib.add_func job.cron_expr job.id s.cron ≡ some (c, n)
      → (schedule_job lib job s).0 ≡ record s { cron = c; entries = put job.id n s.entries }
  unfolding schedule_job remove_old
  schedule_job-accepted job s c n a p = rw (a, schedule_job) (rw p refl)

  schedule_job-refused :
      (job : CronJob) (s : CronScheduler C)
      → GoMap.get job.id s.entries ≡ none
      → lib.parse_standard job.cron_expr ≡ false
      → (schedule_job lib job s).0 ≡ s
  unfolding schedule_job remove_old
  schedule_job-refused job s a p =
      rw (a, schedule_job) (rw (laws.refused job.cron_expr job.id s.cron p) refl)

  -- Of a step of the loop: no entry is lost, the job is scheduled, the other jobs still are not.
  step_lem :
      (b : Bool) (job : CronJob) (jobs : List CronJob) (s : CronScheduler C)
      → job.enabled ≡ b
      → Distinct (job ∷ jobs)
      → IsAbsent (job ∷ jobs) s.entries
      → let s' = if b then (schedule_job lib job s).0 else s in
        IsAbsent jobs s'.entries
        × ((m : ℕ) (e j : String)
            → lib.entry m s.cron ≡ some (e, j)
            → lib.entry m s'.cron ≡ some (e, j))
        × (b ≡ true
            → lib.parse_standard job.cron_expr ≡ true
            → (n : ℕ) × (lib.entry n s'.cron ≡ some (job.cron_expr, job.id)))
  step_lem false job jobs s t d a = (a.1, λ m e j h. h, λ h p. cc)
  step_lem true job jobs s t d a = elim (Bool-cases (lib.parse_standard job.cron_expr)) [
    | inr q ↦ rw (schedule_job-refused job s a.0 q) (a.1, λ m e j h. h, λ h p. cc)
    | inl q ↦
        let (c, n, r) = laws.accepted job.cron_expr job.id s.cron q in
        let new = λ (m : ℕ). laws.added job.cron_expr job.id s.cron c n m r in
        rw (schedule_job-accepted job s c n a.0 r) (
          put-IsAbsent job.id n jobs s.entries d.0 a.1,
          λ m e j h. ground (arith, new m, laws.fresh job.cron_expr job.id s.cron c n r),
          λ h p. (n, ground (arith, new n)),
        )
  ]

  schedule_enabled-keeps :
      (jobs : List CronJob) (s : CronScheduler C) (m : ℕ) (e j : String)
      → Distinct jobs
      → IsAbsent jobs s.entries
      → lib.entry m s.cron ≡ some (e, j)
      → lib.entry m (schedule_enabled lib jobs s).cron ≡ some (e, j)
  unfolding schedule_enabled
  schedule_enabled-keeps [] s m e j d a h = h
  schedule_enabled-keeps (job ∷ jobs) s m e j d a h =
      let t = step_lem job.enabled job jobs s refl d a in
      schedule_enabled-keeps jobs _ m e j d.1 t.0 (t.1 m e j h)

  schedule_enabled-schedules :
      (jobs : List CronJob) (s : CronScheduler C) (id : String) (job : CronJob)
      → Distinct jobs
      → IsAbsent jobs s.entries
      → find_job id jobs ≡ some job
      → job.enabled ≡ true
      → lib.parse_standard job.cron_expr ≡ true
      → (n : ℕ) × (lib.entry n (schedule_enabled lib jobs s).cron ≡ some (job.cron_expr, id))
  unfolding schedule_enabled find_job
  schedule_enabled-schedules [] s id job d a f e p = cc
  schedule_enabled-schedules (x ∷ jobs) s id job d a f e p =
      let t = step_lem x.enabled x jobs s refl d a in
      elim (Bool-cases (x.id == id)) [
        | inr q ↦ schedule_enabled-schedules jobs _ id job d.1 t.0 (ground arith) e p
        | inl q ↦
            let w = head_found id x job jobs f q in
            let (n, h) =
              t.2 (ap (λ (y : CronJob). y.enabled) w.0 ∙ e)
                (ap (λ (y : CronJob). lib.parse_standard y.cron_expr) w.0 ∙ p) in
            (
              n,
              subst₂
                  (λ (y : CronJob) (i : String).
                    lib.entry n (schedule_enabled lib (x ∷ jobs) s).cron ≡ some (y.cron_expr, i))
                  w.0 w.1 (schedule_enabled-keeps jobs _ n x.cron_expr x.id d.1 t.0 h),
            )
      ]

  -- For a cron that obeys the laws and jobs of a file with distinct ids: after `Start` on a new
  -- scheduler every enabled job whose expression the cron accepts has an entry that runs it by
  -- this expression.
  pub start-schedules :
      (store : CronStore) (id : String) (job : CronJob)
      → Distinct store.jobs
      → Store.get id store ≡ some job
      → job.enabled ≡ true
      → lib.parse_standard job.cron_expr ≡ true
      → (n : ℕ) × (lib.entry n (start lib (new_cron_scheduler lib store)).cron
          ≡ some (job.cron_expr, id))
  unfolding start new_cron_scheduler Store.list Store.get
  start-schedules store id job d f e p =
      schedule_enabled-schedules store.jobs (new_cron_scheduler lib store) id job d
        (empty-IsAbsent store.jobs) f e p
