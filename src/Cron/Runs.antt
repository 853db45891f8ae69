-- ===== src/Cron/Runs.antt =====
-- Runs of the scheduler of core/cron.go: any requests, one after the other, among them the starts and ends of
-- runs of jobs, so that other requests come while a job runs.
use cc2wechat.Prelude.{
  ℕ, String, ◌≡◌, inl, inr, Bool, true, false, Option, none, some, List, [], ◌∷◌, if◌then◌else◌,
  Bool-cases,
}
use cc2wechat.Cron.Job.{CronJob}
use cc2wechat.Cron.Fields.{Value}
use cc2wechat.Cron.Store
use cc2wechat.Cron.Store.{CronStore, find_job, Distinct, error_text}
use cc2wechat.Cron.Scheduler.{
  CronLib, CronScheduler, new_cron_scheduler, schedule_job, unschedule, schedule_enabled, start,
  register_engine, remove_job, enable_job, disable_job, add_job, update_job, schedule_found,
  write_update, needs_reschedule,
}
use cc2wechat.Cron.Laws.{CronLaws, IsNoted}
use cc2wechat.Cron.Schedule.{schedule_job-IsNoted, unschedule-IsNoted}
use cc2wechat.Cron.Keeps.{add_job-cases}
use cc2wechat.Cron.Updates.{update_job-cases}
use cc2wechat.Cron.Execute.{begin_run, begin_run-keeps}

pub data Request : Type 0 where
  starts : Request
  adds : CronJob → Request
  removes : String → Request
  enables : String → Request
  disables : String → Request
  updates : String → String → Value → Request
  mutes : String → Bool → Request
  toggles : String → Request
  begins : String → ℕ → Request
  ends : String → Option String → ℕ → Request
  registers : String → Request

module _ {C : Type 0} (lib : CronLib C) (trim_space to_lower : String → String)
    (no_project : String → String) where
  unfoldable pub serve : Request → CronScheduler C → CronScheduler C
  serve starts s = start lib s
  serve (adds job) s = (add_job lib trim_space to_lower job s).0
  serve (removes id) s = (remove_job lib id s).0
  serve (enables id) s = (enable_job lib id s).0
  serve (disables id) s = (disable_job lib id s).0
  serve (updates id field value) s = (update_job lib trim_space to_lower id field value s).0
  serve (mutes id mute) s = record s { store = (Store.set_mute id mute s.store).0 }
  serve (toggles id) s = record s { store = (Store.toggle_mute id s.store).0 }
  serve (begins id now) s = (begin_run no_project id now s).0
  serve (ends id err now) s = record s { store = Store.mark_run id err now s.store }
  serve (registers name) s = register_engine name s

  unfoldable pub serve_all : List Request → CronScheduler C → CronScheduler C
  serve_all [] s = s
  serve_all (r ∷ rs) s = serve_all rs (serve r s)

  module _ (laws : CronLaws lib) where
    schedule_found-IsNoted :
        (o : Option CronJob) (s : CronScheduler C)
        → IsNoted lib s
        → IsNoted lib (schedule_found lib o s).0
    unfolding schedule_found
    schedule_found-IsNoted none s v = v
    schedule_found-IsNoted (some job) s v = schedule_job-IsNoted lib laws job s v

    enable_job-IsNoted :
        (id : String) (s : CronScheduler C) → IsNoted lib s → IsNoted lib (enable_job lib id s).0
    unfolding enable_job
    enable_job-IsNoted id s v = elim (Bool-cases (Store.set_enabled id true s.store).1) [
      | inl e ↦ rw (e, enable_job) (schedule_found-IsNoted _ _ v)
      | inr e ↦ rw (e, enable_job) v
    ]

    disable_job-IsNoted :
        (id : String) (s : CronScheduler C) → IsNoted lib s → IsNoted lib (disable_job lib id s).0
    unfolding disable_job
    disable_job-IsNoted id s v = elim (Bool-cases (Store.set_enabled id false s.store).1) [
      | inl e ↦ rw (e, disable_job) (unschedule-IsNoted lib laws id _ v)
      | inr e ↦ rw (e, disable_job) v
    ]

    write_update-IsNoted :
        (id field : String) (value : Value) (s : CronScheduler C)
        → IsNoted lib s
        → IsNoted lib (write_update lib id field value s).0
    unfolding write_update
    write_update-IsNoted id field value s v =
        elim (Bool-cases (Store.update id field value s.store).1) [
          | inl e ↦ elim (Bool-cases (needs_reschedule field)) [
            | inl t ↦ rw (e, write_update, t) (schedule_found-IsNoted _ _ v)
            | inr t ↦ rw (e, write_update, t) v
          ]
          | inr e ↦ rw (e, write_update) v
        ]

    unschedule_if-IsNoted :
        (b : Bool) (id : String) (s : CronScheduler C)
        → IsNoted lib s
        → IsNoted lib (if b then unschedule lib id s else s)
    unschedule_if-IsNoted true id s v = unschedule-IsNoted lib laws id s v
    unschedule_if-IsNoted false id s v = v

    schedule_if-IsNoted :
        (b : Bool) (job : CronJob) (s : CronScheduler C)
        → IsNoted lib s
        → IsNoted lib (if b then (schedule_job lib job s).0 else s)
    schedule_if-IsNoted true job s v = schedule_job-IsNoted lib laws job s v
    schedule_if-IsNoted false job s v = v

    schedule_enabled-IsNoted :
        (jobs : List CronJob) (s : CronScheduler C)
        → IsNoted lib s
        → IsNoted lib (schedule_enabled lib jobs s)
    unfolding schedule_enabled
    schedule_enabled-IsNoted [] s v = v
    schedule_enabled-IsNoted (job ∷ jobs) s v =
        schedule_enabled-IsNoted jobs _ (schedule_if-IsNoted job.enabled job s v)

    serve-IsNoted : (r : Request) (s : CronScheduler C) → IsNoted lib s → IsNoted lib (serve r s)
    unfolding serve start remove_job register_engine
    serve-IsNoted starts s v = schedule_enabled-IsNoted (Store.list s.store) s v
    serve-IsNoted (adds job) s v = elim (add_job-cases lib laws trim_space to_lower job s) [
      | inl p ↦ rw p v
      | inr (inl p) ↦ rw p v
      | inr (inr (e, p)) ↦ rw p (schedule_job-IsNoted lib laws _ _ v)
    ]
    serve-IsNoted (removes id) s v = unschedule-IsNoted lib laws id s v
    serve-IsNoted (enables id) s v = enable_job-IsNoted id s v
    serve-IsNoted (disables id) s v = disable_job-IsNoted id s v
    serve-IsNoted (updates id field value) s v =
        elim (update_job-cases lib laws trim_space to_lower id field value s) [
          | inl p ↦ rw p v
          | inr (old, q, p) ↦ rw p (
              write_update-IsNoted id field value _
                (unschedule_if-IsNoted (needs_reschedule field) id s v))
        ]
    serve-IsNoted (mutes id mute) s v = v
    serve-IsNoted (toggles id) s v = v
    serve-IsNoted (begins id now) s v = elim (begin_run-keeps no_project id now s) [
      | inl p ↦ rw p v
      | inr (e, p) ↦ rw p v
    ]
    serve-IsNoted (ends id err now) s v = v
    serve-IsNoted (registers name) s v = v

    pub serve_all-IsNoted :
        (rs : List Request) (s : CronScheduler C) → IsNoted lib s → IsNoted lib (serve_all rs s)
    unfolding serve_all
    serve_all-IsNoted [] s v = v
    serve_all-IsNoted (r ∷ rs) s v = serve_all-IsNoted rs (serve r s) (serve-IsNoted r s v)

    -- For a cron that obeys the laws, and any requests to a new scheduler, updates of any field,
    -- duplicate ids, starts and ends of runs included: two entries of the cron that run the same
    -- job are one, so a job is scheduled at most once.
    pub serve_all-at_most_once :
        (store : CronStore) (rs : List Request) (n m : ℕ) (e f j : String)
        → let s = serve_all rs (new_cron_scheduler lib store) in
          lib.entry n s.cron ≡ some (e, j) → lib.entry m s.cron ≡ some (f, j) → n ≡ m
    unfolding new_cron_scheduler
    serve_all-at_most_once store rs n m e f j p q =
        let v =
          serve_all-IsNoted rs (new_cron_scheduler lib store)
            (λ k x i h. cc (laws.new_entry k, h)) in
        cc (v n e j p, v m f j q)
