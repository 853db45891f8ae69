-- ===== src/Cron/Sound.antt =====
-- Runs of the scheduler of core/cron.go whose requests add jobs under new ids and update fields by their names
-- in JSON: what the cron runs is what the store says.
use cc2wechat.Prelude.{ℕ, String, ◌≡◌, inl, inr, refl, Bool, not, Option, none, some, Option-cases}
use cc2wechat.Cron.Kept.{IsPlain}
use cc2wechat.Cron.Store
use cc2wechat.Cron.Store.{CronStore, find_job, Distinct, error_text}
use cc2wechat.Cron.Scheduler.{CronLib, CronScheduler, new_cron_scheduler, register_engine}
use cc2wechat.Cron.Laws.{CronLaws}
use cc2wechat.Cron.Schedule.{IsDue, IsSound, write_job-IsSound}
use cc2wechat.Cron.Keeps.{
  remove_job-IsSound, enable_job-IsSound, disable_job-IsSound, add_job-IsSound,
}
use cc2wechat.Cron.Updates.{update_job-IsSound}
use cc2wechat.Cron.Starting.{start-IsSound}
use cc2wechat.Cron.Execute.{begin_run-keeps}
use cc2wechat.Cron.Runs.{
  Request, starts, adds, removes, enables, disables, updates, mutes, toggles, begins, ends,
  registers, serve,
}

-- A new job has a new id, and an update names a field as JSON does.
abbrev pub IsAllowed : {C : Type 0} → Request → CronScheduler C → Type 0
IsAllowed starts s = Unit {0}
IsAllowed (adds job) s = find_job job.id s.store.jobs ≡ none
IsAllowed (removes id) s = Unit {0}
IsAllowed (enables id) s = Unit {0}
IsAllowed (disables id) s = Unit {0}
IsAllowed (updates id field value) s = IsPlain field
IsAllowed (mutes id mute) s = Unit {0}
IsAllowed (toggles id) s = Unit {0}
IsAllowed (begins id now) s = Unit {0}
IsAllowed (ends id err now) s = Unit {0}
IsAllowed (registers name) s = Unit {0}

module _ {C : Type 0} (lib : CronLib C) (trim_space to_lower : String → String)
    (no_project : String → String) where
  pub data Reaches (s : CronScheduler C) : CronScheduler C → Type 0 where
    here : Reaches s s
    after :
        {t : CronScheduler C} (r : Request)
        → Reaches s t
        → IsAllowed r t
        → Reaches s (serve lib trim_space to_lower no_project r t)

  module _ (laws : CronLaws lib) where
    mark_run-IsSound :
        (id : String) (err : Option String) (now : ℕ) (s : CronScheduler C)
        → IsSound lib s
        → IsSound lib (record s { store = Store.mark_run id err now s.store })
    unfolding Store.mark_run
    mark_run-IsSound id err now s v = elim (Option-cases (find_job id s.store.jobs)) [
      | inl p ↦ rw (p, Store.mark_run) v
      | inr (old, p) ↦
          rw (p, Store.mark_run)
            (write_job-IsSound lib laws id old
              (record old { last_run = now; last_error = error_text err }) s p refl refl refl v)
    ]

    set_mute-IsSound :
        (id : String) (mute : Bool) (s : CronScheduler C)
        → IsSound lib s
        → IsSound lib (record s { store = (Store.set_mute id mute s.store).0 })
    unfolding Store.set_mute
    set_mute-IsSound id mute s v = elim (Option-cases (find_job id s.store.jobs)) [
      | inl p ↦ rw (p, Store.set_mute) v
      | inr (old, p) ↦
          rw (p, Store.set_mute)
            (write_job-IsSound lib laws id old (record old { mute = mute }) s p refl refl refl v)
    ]

    toggle_mute-IsSound :
        (id : String) (s : CronScheduler C)
        → IsSound lib s
        → IsSound lib (record s { store = (Store.toggle_mute id s.store).0 })
    unfolding Store.toggle_mute
    toggle_mute-IsSound id s v = elim (Option-cases (find_job id s.store.jobs)) [
      | inl p ↦ rw (p, Store.toggle_mute) v
      | inr (old, p) ↦
          rw (p, Store.toggle_mute)
            (write_job-IsSound lib laws id old (record old { mute = not old.mute }) s p refl refl
              refl v)
    ]

    serve-IsSound :
        (r : Request) (s : CronScheduler C)
        → IsAllowed r s
        → IsSound lib s
        → IsSound lib (serve lib trim_space to_lower no_project r s)
    unfolding serve register_engine
    serve-IsSound starts s a v = start-IsSound lib laws s v
    serve-IsSound (adds job) s a v = add_job-IsSound lib laws trim_space to_lower job s a v
    serve-IsSound (removes id) s a v = remove_job-IsSound lib laws id s v
    serve-IsSound (enables id) s a v = enable_job-IsSound lib laws id s v
    serve-IsSound (disables id) s a v = disable_job-IsSound lib laws id s v
    serve-IsSound (updates id field value) s a v =
        update_job-IsSound lib laws trim_space to_lower id field value s a v
    serve-IsSound (mutes id mute) s a v = set_mute-IsSound id mute s v
    serve-IsSound (toggles id) s a v = toggle_mute-IsSound id s v
    serve-IsSound (begins id now) s a v = elim (begin_run-keeps no_project id now s) [
      | inl p ↦ rw p v
      | inr (e, p) ↦ rw p (mark_run-IsSound id e now s v)
    ]
    serve-IsSound (ends id err now) s a v = mark_run-IsSound id err now s v
    serve-IsSound (registers name) s a v = record {
      noted = v.noted;
      current = v.current;
      distinct = v.distinct;
    }

    Reaches-IsSound : {s t : CronScheduler C} → Reaches s t → IsSound lib s → IsSound lib t
    Reaches-IsSound here v = v
    Reaches-IsSound (after r w a) v = serve-IsSound r _ a (Reaches-IsSound w v)

    -- For a cron that obeys the laws, jobs of a file with distinct ids, and requests to a new
    -- scheduler that add jobs under new ids and update fields by their names in JSON: every
    -- entry of the cron is of a job that the store holds, enabled, and runs it by the expression
    -- that the store has for it.
    pub Reaches-IsDue :
        (store : CronStore) (s : CronScheduler C) (n : ℕ) (e id : String)
        → Distinct store.jobs
        → Reaches (new_cron_scheduler lib store) s
        → lib.entry n s.cron ≡ some (e, id)
        → IsDue e (Store.get id s.store)
    unfolding new_cron_scheduler Store.get
    Reaches-IsDue store s n e id d w h =
        (Reaches-IsSound w (record {
          noted = λ k x i p. cc (laws.new_entry k, p);
          current = λ k x i p. cc (laws.new_entry k, p);
          distinct = d;
        })).current
          n e id h
