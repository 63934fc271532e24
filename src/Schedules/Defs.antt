-- ===== src/Schedules/Defs.antt =====
-- schedule.service.ts: the schedules that the service tracks, the jobs of the registry, and what it asks
-- of libraries.
use cleveremote_box.Base.{
  any, filter, if◌then◌else◌, ◌==◌, ℕ, Bool, false, not, Option, List, [], ◌∷◌, map,
}
use cleveremote_box.Engine.Quiet.Defs.{running}

-- The key of a job: the identifier of the schedule, or `${id}::instant`
pub data JobKey : Type 0 where
  driver instant : ℕ → JobKey

abbrev pub same_key : JobKey → JobKey → Bool
same_key (driver i) (driver j) = i == j
same_key (instant i) (instant j) = i == j
same_key _ _ = false

-- `ScheduleModel`; `cron` is its pattern or date, and whether it has a `sunBehavior`.
pub record ScheduleModel : Type 0 where
  pub id : ℕ
  pub cycle_id : ℕ
  pub cron_time : Option ℕ
  pub sun_behavior : Bool
  pub is_paused : Bool
  pub should_confirmation : Bool
  pub duration : Option ℕ

pub record CronJob : Type 0 where
  pub key : JobKey
  pub is_running : Bool

-- `new CronJob(time)` throws at a time that it does not accept. For a schedule with a `sunBehavior` the
-- driver's pattern is accepted or not; `sun_event_passed` is the test of `_armSunInstant`.
-- `next_date_throws` is that of `job.nextDate()`.
pub record Cron : Type 0 where
  pub accepts : ScheduleModel → Bool
  pub sun_event_passed : ScheduleModel → Bool
  pub next_date_throws : JobKey → Bool

pub record Service : Type 0 where
  pub schedules : List ScheduleModel
  pub jobs : List CronJob
  pub saved : List ScheduleModel  -- by `scheduleRepository.save`, latest first
  pub deleted : List ℕ  -- by `scheduleRepository.delete`, latest first

abbrev pub has_key : JobKey → CronJob → Bool
has_key k j = same_key j.key k

-- `schedulerRegistry.doesExist('cron', key)`
unfoldable pub does_exist : JobKey → Service → Bool
unfolding any
does_exist k s = any (has_key k) s.jobs

-- `job.stop(); schedulerRegistry.deleteCronJob(key)`, where the job exists
unfoldable pub remove_job : JobKey → Service → Service
unfolding filter
remove_job k s = record s { jobs = filter (λ j. not (has_key k j)) s.jobs }

-- `schedulerRegistry.addCronJob(key, job)`, then `job.start()` or `job.stop()`
unfoldable pub add_job : JobKey → Bool → Service → Service
add_job k running s = record s { jobs = record { key = k; is_running = running } ∷ s.jobs }

unfoldable pub set_running : JobKey → Bool → CronJob → CronJob
set_running k running j = if has_key k j then record j { is_running = running } else j

-- `getCronJob(key).start()` and `.stop()`
unfoldable pub run_job : JobKey → Bool → Service → Service
unfolding set_running
run_job k running s = record s { jobs = map (set_running k running) s.jobs }

abbrev pub tracks : ℕ → ScheduleModel → Bool
tracks id x = x.id == id

-- `schedules[index] = saved`, at the first entry of this identifier
unfoldable pub replace : ℕ → ScheduleModel → List ScheduleModel → List ScheduleModel
replace id sch [] = []
replace id sch (x ∷ xs) = if x.id == id then sch ∷ xs else x ∷ replace id sch xs

-- `schedules.splice(findIndex(id), 1)`: an index of -1 removes the last entry.
unfoldable pub drop_last : List ScheduleModel → List ScheduleModel
drop_last [] = []
drop_last (x ∷ []) = []
drop_last (x ∷ y ∷ ys) = x ∷ drop_last (y ∷ ys)

unfoldable pub drop_first : ℕ → List ScheduleModel → List ScheduleModel
drop_first id [] = []
drop_first id (x ∷ xs) = if x.id == id then xs else x ∷ drop_first id xs

unfoldable pub splice_schedule : ℕ → List ScheduleModel → List ScheduleModel
unfolding any drop_last drop_first
splice_schedule id xs = if any (tracks id) xs then drop_first id xs else drop_last xs
