-- ===== src/Schedules/Service.antt =====
-- schedule.service.ts: the operations of the service.
use cleveremote_box.Base.{
  find, any, if◌then◌else◌, or_else, Bool, true, false, ◌&&◌, not, Option, none, some, List, [],
  ◌∷◌, ◌++◌, same_bool,
}
use cleveremote_box.Schedules.Defs.{
  Service, remove_job, run_job, tracks, CronJob, ScheduleModel, add_job, instant, JobKey,
  splice_schedule, does_exist, replace, Cron, driver,
}

-- `_armSunInstant`
unfoldable pub arm_sun_instant : Cron → ScheduleModel → Service → Service
unfolding remove_job add_job
arm_sun_instant cron sch s =
    if cron.sun_event_passed sch
    then s
    else add_job (instant sch.id) true (remove_job (instant sch.id) s)

-- `createSchedule`, and `_createSunDrivenSchedule`: a time that is not accepted is logged.
unfoldable pub create_schedule : Cron → ScheduleModel → Service → Service
unfolding remove_job add_job arm_sun_instant
create_schedule cron sch s =
    let cleared = remove_job (instant sch.id) (remove_job (driver sch.id) s) in
    if cron.accepts sch
    then (let added = add_job (driver sch.id) (not sch.is_paused) cleared in
        if sch.sun_behavior && not sch.is_paused then arm_sun_instant cron sch added else added)
    else cleared

-- `deleteCronJob`: a schedule that is still tracked is deleted from the database too. The key of an
-- instant job comes from `clearAllSchedules`.
unfoldable pub delete_cron_job : JobKey → Service → Service
unfolding does_exist remove_job any
delete_cron_job (instant id) s = remove_job (instant id) s
delete_cron_job (driver id) s =
    let gone = remove_job (instant id) (remove_job (driver id) s) in
    if does_exist (driver id) s && any (tracks id) s.schedules
    then record gone { deleted = id ∷ gone.deleted }
    else gone

-- `initSchedule`
unfoldable pub init_schedule : Cron → ScheduleModel → Bool → Service → Service
unfolding splice_schedule delete_cron_job create_schedule any
init_schedule cron sch is_deleted s =
    if is_deleted
    then delete_cron_job (driver sch.id)
        (record s { schedules = splice_schedule sch.id s.schedules })
    else create_schedule cron sch (
        if any (tracks sch.id) s.schedules
        then s
        else record s { schedules = s.schedules ++ sch ∷ [] })

-- `_isMissingWhileActive`
unfoldable pub is_missing_while_active : ScheduleModel → Bool → Service → Bool
unfolding does_exist
is_missing_while_active sch paused s = not paused && not (does_exist (driver sch.id) s)

-- `_applyPausedState`
unfoldable pub apply_paused_state : Cron → ScheduleModel → Bool → Service → Service
unfolding run_job arm_sun_instant
apply_paused_state cron saved paused s =
    let ran = run_job (driver saved.id) (not paused) s in
    if not paused && saved.sun_behavior then arm_sun_instant cron saved ran else ran

-- `setPaused`: `{ ...schedule, isPaused }` is saved and put in the place of the tracked one.
unfoldable pub save_paused : ScheduleModel → Service → Service
unfolding replace
save_paused saved s = record s {
  schedules = replace saved.id saved s.schedules;
  saved = saved ∷ s.saved;
}

unfoldable pub rearm : Cron → ScheduleModel → Bool → Service → Service
unfolding does_exist apply_paused_state init_schedule
rearm cron saved paused s =
    if does_exist (driver saved.id) s
    then apply_paused_state cron saved paused s
    else if paused
    then s
    else init_schedule cron saved false s

unfoldable pub set_paused : Cron → ScheduleModel → Bool → Service → Service
unfolding is_missing_while_active save_paused rearm
set_paused cron sch paused s =
    if same_bool sch.is_paused paused
    then (if is_missing_while_active sch paused s then rearm cron sch paused s else s)
    else (let saved = record sch { is_paused = paused } in
        rearm cron saved paused (save_paused saved s))

-- `restartAllSchedules`
unfoldable pub restart_all : Cron → List ScheduleModel → Service → Service
unfolding create_schedule
restart_all cron [] s = s
restart_all cron (x ∷ xs) s = restart_all cron xs (create_schedule cron x s)

unfoldable pub restart_all_schedules : Cron → Service → Service
unfolding restart_all
restart_all_schedules cron s = restart_all cron s.schedules s

-- `clearAllSchedules`
unfoldable pub clear_jobs : Cron → List CronJob → Service → Service
unfolding delete_cron_job
clear_jobs cron [] s = s
clear_jobs cron (j ∷ js) s =
    clear_jobs cron js (if cron.next_date_throws j.key then delete_cron_job j.key s else s)

unfoldable pub clear_all_schedules : Cron → Service → Service
unfolding clear_jobs
clear_all_schedules cron s = clear_jobs cron s.jobs s

-- The callback of `_buildExecutionMethode`: the schedule that `execute` gets, if it is called
unfoldable pub live_schedule : ScheduleModel → Service → ScheduleModel
unfolding find
live_schedule sch s = or_else sch (find (tracks sch.id) s.schedules)

unfoldable pub execution_methode : Cron → ScheduleModel → Service → Service × Option ScheduleModel
unfolding clear_all_schedules live_schedule
execution_methode cron sch s =
    let cleared = clear_all_schedules cron s in
    let live = live_schedule sch cleared in (cleared, if live.is_paused then none else some live)
