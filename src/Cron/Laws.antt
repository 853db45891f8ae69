-- ===== src/Cron/Laws.antt =====
-- What core/cron.go relies on of robfig/cron, and the entries of the cron after the scheduler's two writes.
use cc2wechat.Prelude.{
  ℕ, String, ◌≡◌, ◌⊎◌, Bool-cases, refl, true, false, Option, none, some, eqb, arith, ◌==◌, eq_iff,
  if◌then◌else◌, Option-cases, inl, inr,
}
use cc2wechat.Prelude.GoMap
use cc2wechat.Prelude.GoMap.{put, delete, get-put, get-delete}
use cc2wechat.Cron.Job.{CronJob}
use cc2wechat.Cron.Scheduler.{CronLib, CronScheduler, schedule_job, unschedule, remove_old}

-- An expression is refused by both calls or by none. An added entry stands under the number that is given
-- for it, which no other entry has, and a removed one is gone.
pub record CronLaws {C : Type 0} (lib : CronLib C) : Type 0 where
  pub new_entry : (n : ℕ) → lib.entry n lib.new ≡ none
  pub refused : (e j : String) (c : C) → lib.parse_standard e ≡ false → lib.add_func e j c ≡ none
  pub accepted :
      (e j : String) (c : C)
      → lib.parse_standard e ≡ true
      → (c' : C) × (n : ℕ) × (lib.add_func e j c ≡ some (c', n))
  pub fresh :
      (e j : String) (c c' : C) (n : ℕ) → lib.add_func e j c ≡ some (c', n) → lib.entry n c ≡ none
  pub added :
      (e j : String) (c c' : C) (n m : ℕ)
      → lib.add_func e j c ≡ some (c', n)
      → lib.entry m c' ≡ (if eqb n m then some (e, j) else lib.entry m c)
  pub removed :
      (n m : ℕ) (c : C) → lib.entry m (lib.remove n c) ≡ (if eqb n m then none else lib.entry m c)

module _ {C : Type 0} (lib : CronLib C) where
  -- Each entry of the cron is the one noted for its job, so a job is scheduled at most once.
  abbrev pub IsNoted : CronScheduler C → Type 0
  IsNoted s =
      (n : ℕ) (e j : String) → lib.entry n s.cron ≡ some (e, j) → GoMap.get j s.entries ≡ some n

module _ {C : Type 0} (lib : CronLib C) (laws : CronLaws lib) (s : CronScheduler C) where
  remove_old-entry :
      (o : Option ℕ) (m : ℕ)
      → lib.entry m (remove_old lib o s.cron) ≡ elim o [
        | none ↦ lib.entry m s.cron
        | some n ↦ (if eqb n m then none else lib.entry m s.cron)
      ]
  unfolding remove_old
  remove_old-entry none m = refl
  remove_old-entry (some n) m = laws.removed n m s.cron

  -- An entry that survives the removal of a job's old one is of another job.
  survivor :
      (id : String) (o : Option ℕ) (m : ℕ) (e j : String)
      → GoMap.get id s.entries ≡ o
      → IsNoted lib s
      → lib.entry m (remove_old lib o s.cron) ≡ some (e, j)
      → ((id == j) ≡ false) × (lib.entry m s.cron ≡ some (e, j))
  survivor id none m e j p v h = ground (arith, remove_old-entry none m, v m e j, eq_iff id j)
  survivor id (some n) m e j p v h =
      ground (arith, remove_old-entry (some n) m, v m e j, eq_iff id j)

  -- Where an entry comes from after a job was scheduled: it is the job's, or an older one of another job.
  abbrev pub Origin : CronJob → CronScheduler C → ℕ → String → String → Type 0
  Origin job s' m e j =
      ((e ≡ job.cron_expr) × (job.id ≡ j) × (GoMap.get j s'.entries ≡ some m))
      ⊎ (((job.id == j) ≡ false)
          × (lib.entry m s.cron ≡ some (e, j))
          × (GoMap.get j s'.entries ≡ GoMap.get j s.entries))

  set_entry-Origin :
      (job : CronJob) (c c' : C) (n m : ℕ) (e j : String)
      → lib.add_func job.cron_expr job.id c ≡ some (c', n)
      → (lib.entry m c ≡ some (e, j) → ((job.id == j) ≡ false) × (lib.entry m s.cron ≡ some (e, j)))
      → lib.entry m c' ≡ some (e, j)
      → Origin job (record s { cron = c'; entries = put job.id n s.entries }) m e j
  set_entry-Origin job c c' n m e j a old h = elim (Bool-cases (eqb n m)) [
    | inl q ↦ inl (
      ground (arith, laws.added job.cron_expr job.id c c' n m),
      ground (arith, laws.added job.cron_expr job.id c c' n m),
      ground (
        arith,
        laws.added job.cron_expr job.id c c' n m,
        get-put job.id j n s.entries,
        eq_iff job.id j,
      ),
    )
    | inr q ↦
        let p = old (ground (arith, laws.added job.cron_expr job.id c c' n m)) in
        inr (p.0, p.1, ground (arith, get-put job.id j n s.entries))
  ]

  pub schedule_job-Origin :
      (job : CronJob) (m : ℕ) (e j : String)
      → IsNoted lib s
      → lib.entry m (schedule_job lib job s).0.cron ≡ some (e, j)
      → Origin job (schedule_job lib job s).0 m e j
  unfolding schedule_job
  schedule_job-Origin job m e j v h =
      let o = GoMap.get job.id s.entries in
      let c = remove_old lib o s.cron in
      let old = λ (m : ℕ) (e j : String). survivor job.id o m e j refl v in
      elim (Option-cases (lib.add_func job.cron_expr job.id c)) [
        | inl q ↦ let p = old m e j (rw q at h) in rw q (inr (p.0, p.1, refl))
        | inr ((c', n), q) ↦ rw q (set_entry-Origin job c c' n m e j q (old m e j) (rw q at h))
      ]

  pub unschedule-entry :
      (id : String) (m : ℕ) (e j : String)
      → IsNoted lib s
      → lib.entry m (unschedule lib id s).cron ≡ some (e, j)
      → ((id == j) ≡ false)
        × (lib.entry m s.cron ≡ some (e, j))
        × (GoMap.get j (unschedule lib id s).entries ≡ GoMap.get j s.entries)
  unfolding unschedule
  unschedule-entry id m e j v h = elim (Option-cases (GoMap.get id s.entries)) [
    | inl q ↦ ground (arith, v m e j, eq_iff id j)
    | inr (n, q) ↦
        ground (arith, v m e j, eq_iff id j, laws.removed n m s.cron, get-delete id j s.entries)
  ]
