-- ===== src/Schedules/Pausing.antt =====
-- schedule.service.ts: pausing and resuming a schedule, and what a tick executes.
use cleveremote_box.Base.{
  All, ◌≡◌, Bool, true, false, some, List, [], ◌∷◌, map, arith, if◌then◌else◌, Bool-cases, ap, inl,
  inr, none, or_else, is_some, sym, ◌∙◌, Option, false≢true, same_bool,
}
use cleveremote_box.Schedules.Defs.{
  Service, JobKey, set_running, CronJob, driver, Cron, run_job, ScheduleModel, has_key, does_exist,
}
use cleveremote_box.Schedules.Service.{
  set_paused, apply_paused_state, clear_all_schedules, live_schedule, save_paused, rearm,
  execution_methode,
}

-- Every job under this key runs, or none does.
abbrev pub AllRunning : JobKey → Bool → List CronJob → Type 0
AllRunning k b = All (λ j. has_key k j ≡ true → j.is_running ≡ b)

AllRunning-set_running :
    (k : JobKey) (b : Bool) (js : List CronJob) → AllRunning k b (map (set_running k b) js)
unfolding set_running
AllRunning-set_running k b [] = tt
AllRunning-set_running k b (j ∷ js) = (λ h. ground arith, AllRunning-set_running k b js)

same_bool-false : (b : Bool) → b ≡ false → same_bool b true ≡ false
same_bool-false b h = ap (λ b. same_bool b true) h

-- The driver of a schedule that was not paused is stopped by `setPaused(schedule, true)`, whatever
-- else is registered; and nothing new is registered.
pub set_paused-stops :
    (cron : Cron) (sch : ScheduleModel) (s : Service)
    → sch.is_paused ≡ false
    → does_exist (driver sch.id) s ≡ true
    → AllRunning (driver sch.id) false (set_paused cron sch true s).jobs
unfolding set_paused save_paused rearm apply_paused_state run_job
set_paused-stops cron sch s p x =
    rw (same_bool-false sch.is_paused p, x) (AllRunning-set_running (driver sch.id) false s.jobs)

abbrev executed : Bool → ScheduleModel → Option ScheduleModel
executed b x = if b then none else some x

executed-live :
    (x live : ScheduleModel)
    → (if x.is_paused then none else some x) ≡ some live
    → (live.is_paused ≡ false) × (live ≡ x)
executed-live x live h = elim (Bool-cases x.is_paused) [
  | inl e ↦ absurd (false≢true (ap is_some (ap (λ b. executed b x) (sym e) ∙ h)))
  | inr e ↦
      let same : x ≡ live = ap (or_else x) (ap (λ b. executed b x) (sym e) ∙ h) in
      (ap (λ (y : ScheduleModel). y.is_paused) (sym same) ∙ e, sym same)
]

-- What a tick executes is not paused, and is the tracked schedule of that identifier if there is one
-- once the jobs that are over are cleared; a paused one is not executed.
pub execution_methode-live :
    (cron : Cron) (sch live : ScheduleModel) (s : Service)
    → (execution_methode cron sch s).1 ≡ some live
    → (live.is_paused ≡ false) × (live ≡ live_schedule sch (clear_all_schedules cron s))
unfolding execution_methode
execution_methode-live cron sch live s h =
    executed-live (live_schedule sch (clear_all_schedules cron s)) live h
