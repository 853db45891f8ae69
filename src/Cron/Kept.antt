-- ===== src/Cron/Kept.antt =====
-- What `updateJobField` of core/cron.go leaves alone: the id, and what the schedule depends on.
use cc2wechat.Prelude.{
  String, ◌≡◌, ◌⊎◌, inl, inr, refl, Bool, true, false, Option, none, some, ◌==◌, if◌then◌else◌,
}
use cc2wechat.Cron.Job.{ℤ, CronJob}
use cc2wechat.Cron.Fields.{
  Value, text, flag, float, int, other, to_exported_field_name, set_by_name, fallback, on_text,
  on_flag, on_number, update_job_field,
}

-- A name that does not reach the job's id or, but for the JSON name, its cron expression.
abbrev pub IsPlain : String → Type 0
IsPlain field =
    ((to_exported_field_name field == "ID") ≡ false)
    × (((to_exported_field_name field == "CronExpr") ≡ false) ⊎ ((field == "cron_expr") ≡ true))

-- What an update of a plain field leaves alone.
abbrev pub Kept : CronJob → String → CronJob → Type 0
Kept job field j =
    (j.id ≡ job.id)
    × ((field == "enabled") ≡ false → j.enabled ≡ job.enabled)
    × ((field == "cron_expr") ≡ false → j.cron_expr ≡ job.cron_expr)

abbrev pub KeptIn : CronJob → String → Option CronJob → Type 0
KeptIn job field none = Unit {0}
KeptIn job field (some j) = Kept job field j

pub record AllKept (job : CronJob) (field : String) (r : Option CronJob) : Type 0 where
  pub kept : KeptIn job field r

-- A property of both results of a test.
choose_by :
    (P : Option CronJob → Type 0) (t : Bool) (a b : Option CronJob)
    → (t ≡ true → P a)
    → (t ≡ false → P b)
    → P (if t then a else b)
choose_by P true a b f g = f refl
choose_by P false a b f g = g refl

-- What a write by a name in Go leaves alone.
abbrev ByNameIn : CronJob → String → Option CronJob → Type 0
ByNameIn job name none = Unit {0}
ByNameIn job name (some j) =
    ((name == "ID") ≡ false → j.id ≡ job.id)
    × (j.enabled ≡ job.enabled)
    × ((name == "CronExpr") ≡ false → j.cron_expr ≡ job.cron_expr)

record ByName (job : CronJob) (name : String) (r : Option CronJob) : Type 0 where
  by_name : ByNameIn job name r

set_by_name-ByName : (job : CronJob) (name v : String) → ByName job name (set_by_name job name v)
unfolding set_by_name
set_by_name-ByName job name v =
    choose_by (ByName job name) (name == "ID") _ _
      (λ e. record { by_name = (λ k. cc (e, k), refl, λ k. refl) })
      (λ _.
        choose_by (ByName job name) (name == "Project") _ _
          (λ e. record { by_name = (λ k. refl, refl, λ k. refl) })
          (λ _.
            choose_by (ByName job name) (name == "SessionKey") _ _
              (λ e. record { by_name = (λ k. refl, refl, λ k. refl) })
              (λ _.
                choose_by (ByName job name) (name == "CronExpr") _ _
                  (λ e. record { by_name = (λ k. refl, refl, λ k. cc (e, k)) })
                  (λ _.
                    choose_by (ByName job name) (name == "Prompt") _ _
                      (λ e. record { by_name = (λ k. refl, refl, λ k. refl) })
                      (λ _.
                        choose_by (ByName job name) (name == "Exec") _ _
                          (λ e. record { by_name = (λ k. refl, refl, λ k. refl) })
                          (λ _.
                            choose_by (ByName job name) (name == "WorkDir") _ _
                              (λ e. record { by_name = (λ k. refl, refl, λ k. refl) })
                              (λ _.
                                choose_by (ByName job name) (name == "Description") _ _
                                  (λ e. record { by_name = (λ k. refl, refl, λ k. refl) })
                                  (λ _.
                                    choose_by (ByName job name) (name == "SessionMode") _ _
                                      (λ e. record { by_name = (λ k. refl, refl, λ k. refl) })
                                      (λ _.
                                        choose_by (ByName job name) (name == "Mode") _ _
                                          (λ e. record { by_name = (λ k. refl, refl, λ k. refl) })
                                          (λ _.
                                            choose_by (ByName job name) (name == "LastError") _ _
                                              (λ e. record {
                                                by_name = (λ k. refl, refl, λ k. refl);
                                              })
                                              (λ _. record { by_name = tt })))))))))))

module _ (job : CronJob) (field : String) where
  on_text-Kept :
      (value : Value) (f : String → CronJob) (rest : Option CronJob)
      → AllKept job field rest
      → ((v : String) → Kept job field (f v))
      → AllKept job field (on_text value f rest)
  on_text-Kept (text v) f rest h g = record { kept = g v }
  on_text-Kept (flag b) f rest h g = h
  on_text-Kept (float k) f rest h g = h
  on_text-Kept (int k) f rest h g = h
  on_text-Kept other f rest h g = h

  on_flag-Kept :
      (value : Value) (f : Bool → CronJob) (rest : Option CronJob)
      → AllKept job field rest
      → ((b : Bool) → Kept job field (f b))
      → AllKept job field (on_flag value f rest)
  on_flag-Kept (text v) f rest h g = h
  on_flag-Kept (flag b) f rest h g = record { kept = g b }
  on_flag-Kept (float k) f rest h g = h
  on_flag-Kept (int k) f rest h g = h
  on_flag-Kept other f rest h g = h

  on_number-Kept :
      (value : Value) (f : ℤ → CronJob) (rest : Option CronJob)
      → AllKept job field rest
      → ((k : ℤ) → Kept job field (f k))
      → AllKept job field (on_number value f rest)
  on_number-Kept (text v) f rest h g = h
  on_number-Kept (flag b) f rest h g = h
  on_number-Kept (float k) f rest h g = record { kept = g k }
  on_number-Kept (int k) f rest h g = record { kept = g k }
  on_number-Kept other f rest h g = h

  named-Kept :
      (o : Option CronJob)
      → ByNameIn job (to_exported_field_name field) o
      → IsPlain field
      → AllKept job field o
  named-Kept none k h = record { kept = tt }
  named-Kept (some j) k h = record {
    kept = (k.0 h.0, λ n. k.1, λ n. elim h.1 [ inl p ↦ k.2 p | inr q ↦ cc (q, n) ]);
  }

  fallback-Kept : (value : Value) → IsPlain field → AllKept job field (fallback job field value)
  unfolding fallback
  fallback-Kept (text v) h =
      named-Kept _ (set_by_name-ByName job (to_exported_field_name field) v).by_name h
  fallback-Kept (flag b) h = record { kept = tt }
  fallback-Kept (float k) h = record { kept = tt }
  fallback-Kept (int k) h = record { kept = tt }
  fallback-Kept other h = record { kept = tt }

  pub update_job_field-Kept :
      (value : Value) → IsPlain field → AllKept job field (update_job_field job field value)
  unfolding update_job_field
  update_job_field-Kept value h =
      let r = fallback-Kept value h in
      choose_by (AllKept job field) (field == "project") _ _
        (λ _. on_text-Kept value _ _ r (λ v. (refl, λ n. refl, λ n. refl)))
        (λ _.
          choose_by (AllKept job field) (field == "session_key") _ _
            (λ _. on_text-Kept value _ _ r (λ v. (refl, λ n. refl, λ n. refl)))
            (λ _.
              choose_by (AllKept job field) (field == "cron_expr") _ _
                (λ e.
                  on_text-Kept value (λ v. record job { cron_expr = v }) _ r
                    (λ v. (refl, λ n. refl, λ n. cc (e, n))))
                (λ _.
                  choose_by (AllKept job field) (field == "prompt") _ _
                    (λ _. on_text-Kept value _ _ r (λ v. (refl, λ n. refl, λ n. refl)))
                    (λ _.
                      choose_by (AllKept job field) (field == "exec") _ _
                        (λ _. on_text-Kept value _ _ r (λ v. (refl, λ n. refl, λ n. refl)))
                        (λ _.
                          choose_by (AllKept job field) (field == "work_dir") _ _
                            (λ _. on_text-Kept value _ _ r (λ v. (refl, λ n. refl, λ n. refl)))
                            (λ _.
                              choose_by (AllKept job field) (field == "description") _ _
                                (λ _. on_text-Kept value _ _ r (λ v. (refl, λ n. refl, λ n. refl)))
                                (λ _.
                                  choose_by (AllKept job field) (field == "enabled") _ _
                                    (λ e.
                                      on_flag-Kept value (λ b. record job { enabled = b }) _ r
                                        (λ b. (refl, λ n. cc (e, n), λ n. refl)))
                                    (λ _.
                                      choose_by (AllKept job field) (field == "silent") _ _
                                        (λ _.
                                          on_flag-Kept value _ _ r
                                            (λ b. (refl, λ n. refl, λ n. refl)))
                                        (λ _.
                                          choose_by (AllKept job field) (field == "mute") _ _
                                            (λ _.
                                              on_flag-Kept value _ _ r
                                                (λ b. (refl, λ n. refl, λ n. refl)))
                                            (λ _.
                                              choose_by (AllKept job field)
                                                (field == "session_mode") _ _
                                                (λ _.
                                                  on_text-Kept value _ _ r
                                                    (λ v. (refl, λ n. refl, λ n. refl)))
                                                (λ _.
                                                  choose_by (AllKept job field) (field == "mode") _
                                                    _
                                                    (λ _.
                                                      on_text-Kept value _ _ r
                                                        (λ v. (refl, λ n. refl, λ n. refl)))
                                                    (λ _.
                                                      choose_by (AllKept job field)
                                                        (field == "timeout_mins") _ _
                                                        (λ _.
                                                          on_number-Kept value _ _ r
                                                            (λ k. (refl, λ n. refl, λ n. refl)))
                                                        (λ _. r)))))))))))))
