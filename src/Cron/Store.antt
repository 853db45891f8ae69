-- ===== src/Cron/Store.antt =====
-- `CronStore` of core/cron.go: the jobs in the order in which they were added, and their file.
use cc2wechat.Prelude.{
  ℕ, String, ◌≡◌, refl, Bool, true, false, not, ◌||◌, Option, none, some, List, [], ◌∷◌, ◌++◌,
  arith, ◌==◌, eq_iff, if◌then◌else◌,
}
use cc2wechat.Prelude.Lists.{keep}
use cc2wechat.Prelude.Disk.{Disk, File, malformed, mistyped, content, write}
use cc2wechat.Cron.Job.{CronJob}
use cc2wechat.Cron.Fields.{Value, update_job_field}

pub record CronStore : Type 0 where
  pub jobs : List CronJob
  pub disk : Disk (List CronJob)

-- The source decodes into the jobs, and only logs an error.
load : Option (File (List CronJob)) → List CronJob
load none = []
load (some malformed) = []
load (some (mistyped jobs)) = jobs
load (some (content jobs)) = jobs

-- Where the directory cannot be made there is no store.
unfoldable pub new_cron_store : Disk (List CronJob) → Option CronStore
unfolding load
new_cron_store d = if d.writable then some (record { jobs = load d.file; disk = d }) else none

-- The result is whether the jobs were saved.
unfoldable pub save : CronStore → CronStore × Bool
save s = (record s { disk = write s.jobs s.disk }, s.disk.writable)

-- The loops that look for the first job with an id.
unfoldable pub find_job : String → List CronJob → Option CronJob
find_job id [] = none
find_job id (j ∷ jobs) = if j.id == id then some j else find_job id jobs

unfoldable pub replace : String → CronJob → List CronJob → List CronJob
replace id new [] = []
replace id new (j ∷ jobs) = if j.id == id then new ∷ jobs else j ∷ replace id new jobs

unfoldable pub remove_job : String → List CronJob → List CronJob
remove_job id [] = []
remove_job id (j ∷ jobs) = if j.id == id then jobs else j ∷ remove_job id jobs

unfoldable pub add : CronJob → CronStore → CronStore × Bool
add job s = save (record s { jobs = s.jobs ++ job ∷ [] })

unfoldable pub get : String → CronStore → Option CronJob
get id s = find_job id s.jobs

-- The job with the id is written anew, and the jobs are saved.
unfoldable pub write_job : String → CronJob → CronStore → CronStore
unfolding save
write_job id job s = (save (record s { jobs = replace id job s.jobs })).0

unfoldable pub remove : String → CronStore → CronStore × Bool
remove id s = elim (find_job id s.jobs) [
  | none ↦ (s, false)
  | some j ↦ ((save (record s { jobs = remove_job id s.jobs })).0, true)
]

unfoldable pub set_enabled : String → Bool → CronStore → CronStore × Bool
set_enabled id enabled s = elim (find_job id s.jobs) [
  | none ↦ (s, false)
  | some j ↦ (write_job id (record j { enabled = enabled }) s, true)
]

unfoldable pub set_mute : String → Bool → CronStore → CronStore × Bool
set_mute id mute s = elim (find_job id s.jobs) [
  | none ↦ (s, false)
  | some j ↦ (write_job id (record j { mute = mute }) s, true)
]

-- The new state, and whether there is such a job.
unfoldable pub toggle_mute : String → CronStore → CronStore × Bool × Bool
toggle_mute id s = elim (find_job id s.jobs) [
  | none ↦ (s, false, false)
  | some j ↦ (write_job id (record j { mute = not j.mute }) s, not j.mute, true)
]

abbrev pub error_text : Option String → String
error_text none = ""
error_text (some e) = e

unfoldable pub mark_run : String → Option String → ℕ → CronStore → CronStore
mark_run id err now s = elim (find_job id s.jobs) [
  | none ↦ s
  | some j ↦ write_job id (record j { last_run = now; last_error = error_text err }) s
]

unfoldable pub list : CronStore → List CronJob
list s = s.jobs

unfoldable pub list_by_project : String → CronStore → List CronJob
list_by_project project s = keep (λ (j : CronJob). j.project == project) s.jobs

unfoldable pub list_by_session_key : String → CronStore → List CronJob
list_by_session_key session_key s = keep (λ (j : CronJob). j.session_key == session_key) s.jobs

unfoldable pub read_only : String → Bool
read_only field =
    field == "id" || field == "created_at" || field == "last_run" || field == "last_error"

write_updated : String → Option CronJob → CronStore → CronStore × Bool
write_updated id none s = (s, false)
write_updated id (some j) s = (write_job id j s, true)

unfoldable pub update : String → String → Value → CronStore → CronStore × Bool
unfolding write_updated
update id field value s = if read_only field then (s, false) else elim (find_job id s.jobs) [
  | none ↦ (s, false)
  | some j ↦ write_updated id (update_job_field j field value) s
]

-- Lookups after the writes.
pub find_job-id :
    (id : String) (jobs : List CronJob) (j : CronJob)
    → find_job id jobs ≡ some j
    → (j.id == id) ≡ true
unfolding find_job
find_job-id id [] j h = ground arith
find_job-id id (x ∷ jobs) j h = ground (arith, find_job-id id jobs j)

pub find_job-append :
    (id : String) (jobs : List CronJob) (new : CronJob)
    → find_job new.id jobs ≡ none
    → find_job id (jobs ++ new ∷ []) ≡ (if new.id == id then some new else find_job id jobs)
unfolding find_job
find_job-append id [] new h = refl
find_job-append id (j ∷ jobs) new h =
    ground
      (arith, find_job-append id jobs new, eq_iff j.id id, eq_iff new.id id, eq_iff j.id new.id)

pub find_job-replace :
    (id k : String) (new old : CronJob) (jobs : List CronJob)
    → find_job id jobs ≡ some old
    → new.id ≡ old.id
    → find_job k (replace id new jobs) ≡ (if id == k then some new else find_job k jobs)
unfolding find_job replace
find_job-replace id k new old [] h e = ground arith
find_job-replace id k new old (j ∷ jobs) h e =
    ground (arith, find_job-replace id k new old jobs, eq_iff j.id id, eq_iff j.id k, eq_iff id k)

pub find_job-remove_ne :
    (id k : String) (jobs : List CronJob)
    → (id == k) ≡ false
    → find_job k (remove_job id jobs) ≡ find_job k jobs
unfolding find_job remove_job
find_job-remove_ne id k [] h = refl
find_job-remove_ne id k (j ∷ jobs) h =
    ground (arith, find_job-remove_ne id k jobs, eq_iff j.id id, eq_iff j.id k, eq_iff id k)

-- No id stands twice.
abbrev pub Distinct : List CronJob → Type 0
Distinct [] = Unit {0}
Distinct (j ∷ jobs) = (find_job j.id jobs ≡ none) × Distinct jobs

pub append-Distinct :
    (new : CronJob) (jobs : List CronJob)
    → find_job new.id jobs ≡ none
    → Distinct jobs
    → Distinct (jobs ++ new ∷ [])
unfolding find_job
append-Distinct new [] h d = (refl, tt)
append-Distinct new (j ∷ jobs) h d = ground (
  arith,
  find_job-append j.id jobs new,
  append-Distinct new jobs,
  eq_iff j.id new.id,
  eq_iff new.id j.id,
)

pub replace-Distinct :
    (id : String) (new old : CronJob) (jobs : List CronJob)
    → find_job id jobs ≡ some old
    → new.id ≡ old.id
    → Distinct jobs
    → Distinct (replace id new jobs)
unfolding find_job replace
replace-Distinct id new old [] h e d = tt
replace-Distinct id new old (j ∷ jobs) h e d = ground (
  arith,
  find_job-replace id j.id new old jobs,
  replace-Distinct id new old jobs,
  eq_iff j.id id,
  eq_iff id j.id,
)

pub remove-Distinct :
    (id : String) (jobs : List CronJob) → Distinct jobs → Distinct (remove_job id jobs)
unfolding find_job remove_job
remove-Distinct id [] d = tt
remove-Distinct id (j ∷ jobs) d = ground (
  arith,
  find_job-remove_ne id j.id jobs,
  remove-Distinct id jobs d.1,
  eq_iff j.id id,
  eq_iff id j.id,
)
