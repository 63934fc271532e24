-- ===== src/Schedules/Registry.antt =====
-- schedule.service.ts: the keys of the jobs in the registry, over sequences of operations.
use cleveremote_box.Base.{
  any, filter, ◌≡◌, refl, Bool, false, not, List, [], ◌∷◌, map, arith, if-elim, ℕ, ◌&&◌, same_bool,
}
use cleveremote_box.Schedules.Defs.{
  set_running, CronJob, has_key, JobKey, Service, Cron, instant, driver, does_exist, tracks,
  run_job, remove_job, ScheduleModel, add_job,
}
use cleveremote_box.Schedules.Service.{
  apply_paused_state, restart_all, rearm, save_paused, clear_all_schedules, clear_jobs,
  arm_sun_instant, delete_cron_job, is_missing_while_active, init_schedule, restart_all_schedules,
  create_schedule, set_paused,
}

pub data Operation : Type 0 where
  initialize pause : ScheduleModel → Bool → Operation
  delete : ℕ → Operation
  clear restart : Operation

abbrev pub Distinct : List CronJob → Type 0
Distinct [] = Unit
Distinct (j ∷ js) = (any (has_key j.key) js ≡ false) × Distinct js

abbrev HasDistinct : Service → Type 0
HasDistinct s = Distinct s.jobs

any-filter :
    (k l : JobKey) (js : List CronJob)
    → any (has_key k) js ≡ false
    → any (has_key k) (filter (λ j. not (has_key l j)) js) ≡ false
unfolding any filter
any-filter k l [] h = refl
any-filter k l (j ∷ js) h = ground (arith, any-filter k l js)

any-filter_self :
    (k : JobKey) (js : List CronJob) → any (has_key k) (filter (λ j. not (has_key k j)) js) ≡ false
unfolding any filter
any-filter_self k [] = refl
any-filter_self k (j ∷ js) = ground (arith, any-filter_self k js)

Distinct-filter :
    (k : JobKey) (js : List CronJob) → Distinct js → Distinct (filter (λ j. not (has_key k j)) js)
unfolding filter
Distinct-filter k [] h = tt
Distinct-filter k (j ∷ js) h = ground (arith, Distinct-filter k js h.1, any-filter j.key k js)

any-set_running :
    (k l : JobKey) (b : Bool) (js : List CronJob)
    → any (has_key k) (map (set_running l b) js) ≡ any (has_key k) js
unfolding any set_running
any-set_running k l b [] = refl
any-set_running k l b (j ∷ js) = ground (arith, any-set_running k l b js)

Distinct-set_running :
    (k : JobKey) (b : Bool) (js : List CronJob) → Distinct js → Distinct (map (set_running k b) js)
unfolding set_running
Distinct-set_running k b [] h = tt
Distinct-set_running k b (j ∷ js) h =
    ground (arith, Distinct-set_running k b js h.1, any-set_running j.key k b js)

module _ (cron : Cron) where
  arm_sun_instant-Distinct :
      (sch : ScheduleModel) (s : Service)
      → Distinct s.jobs
      → Distinct (arm_sun_instant cron sch s).jobs
  unfolding arm_sun_instant remove_job add_job
  arm_sun_instant-Distinct sch s d =
      ground
        (arith, any-filter_self (instant sch.id) s.jobs, Distinct-filter (instant sch.id) s.jobs d)

  create_schedule-Distinct :
      (sch : ScheduleModel) (s : Service)
      → Distinct s.jobs
      → Distinct (create_schedule cron sch s).jobs
  unfolding create_schedule
  create_schedule-Distinct sch s d =
      let k = driver sch.id in
      let once = remove_job k s in
      let cleared = remove_job (instant sch.id) once in
      let d1 : Distinct cleared.jobs =
        unfold remove_job in Distinct-filter (instant sch.id) _ (Distinct-filter k s.jobs d) in
      let fresh : any (has_key k) cleared.jobs ≡ false =
        unfold remove_job in any-filter k (instant sch.id) _ (any-filter_self k s.jobs) in
      let added = add_job k (not sch.is_paused) cleared in
      let d2 : Distinct added.jobs = unfold add_job in (fresh, d1) in
      if-elim HasDistinct (cron.accepts sch) _ _
        (λ _.
          if-elim HasDistinct (sch.sun_behavior && not sch.is_paused) _ _
            (λ _. arm_sun_instant-Distinct sch added d2) (λ _. d2))
        (λ _. d1)

  delete_cron_job-Distinct :
      (k : JobKey) (s : Service) → Distinct s.jobs → Distinct (delete_cron_job k s).jobs
  unfolding delete_cron_job remove_job
  delete_cron_job-Distinct (instant id) s d = Distinct-filter (instant id) s.jobs d
  delete_cron_job-Distinct (driver id) s d =
      let twice = Distinct-filter (instant id) _ (Distinct-filter (driver id) s.jobs d) in
      if-elim HasDistinct _ _ _ (λ _. twice) (λ _. twice)

  init_schedule-Distinct :
      (sch : ScheduleModel) (b : Bool) (s : Service)
      → Distinct s.jobs
      → Distinct (init_schedule cron sch b s).jobs
  unfolding init_schedule
  init_schedule-Distinct sch b s d =
      if-elim HasDistinct b _ _ (λ _. delete_cron_job-Distinct (driver sch.id) _ d)
        (λ _.
          create_schedule-Distinct sch _
            (if-elim HasDistinct (any (tracks sch.id) s.schedules) s _ (λ _. d) (λ _. d)))

  rearm-Distinct :
      (sch : ScheduleModel) (b : Bool) (s : Service)
      → Distinct s.jobs
      → Distinct (rearm cron sch b s).jobs
  unfolding rearm apply_paused_state run_job
  rearm-Distinct sch b s d =
      let ran = Distinct-set_running (driver sch.id) (not b) s.jobs d in
      if-elim HasDistinct (does_exist (driver sch.id) s) _ _
        (λ _.
          if-elim HasDistinct (not b && sch.sun_behavior) _ _
            (λ _. arm_sun_instant-Distinct sch _ ran) (λ _. ran))
        (λ _. if-elim HasDistinct b _ _ (λ _. d) (λ _. init_schedule-Distinct sch false s d))

  set_paused-Distinct :
      (sch : ScheduleModel) (b : Bool) (s : Service)
      → Distinct s.jobs
      → Distinct (set_paused cron sch b s).jobs
  unfolding set_paused save_paused
  set_paused-Distinct sch b s d =
      if-elim HasDistinct (same_bool sch.is_paused b) _ _
        (λ _.
          if-elim HasDistinct (is_missing_while_active sch b s) _ _ (λ _. rearm-Distinct sch b s d)
            (λ _. d))
        (λ _. rearm-Distinct _ b _ d)

  clear_jobs-Distinct :
      (js : List CronJob) (s : Service) → Distinct s.jobs → Distinct (clear_jobs cron js s).jobs
  unfolding clear_jobs
  clear_jobs-Distinct [] s d = d
  clear_jobs-Distinct (j ∷ js) s d = clear_jobs-Distinct js _ (
      if-elim HasDistinct (cron.next_date_throws j.key) _ s
        (λ _. delete_cron_job-Distinct j.key s d) (λ _. d))

  restart_all-Distinct :
      (xs : List ScheduleModel) (s : Service)
      → Distinct s.jobs
      → Distinct (restart_all cron xs s).jobs
  unfolding restart_all
  restart_all-Distinct [] s d = d
  restart_all-Distinct (x ∷ xs) s d = restart_all-Distinct xs _ (create_schedule-Distinct x s d)

  -- The public operations
  pub operate : Operation → Service → Service
  operate (initialize sch b) s = init_schedule cron sch b s
  operate (pause sch b) s = set_paused cron sch b s
  operate (delete id) s = delete_cron_job (driver id) s
  operate clear s = clear_all_schedules cron s
  operate restart s = restart_all_schedules cron s

  pub operate_all : List Operation → Service → Service
  unfolding operate
  operate_all [] s = s
  operate_all (o ∷ os) s = operate_all os (operate o s)

  -- However the operations of the service follow one another, no two jobs are ever registered under
  -- one key, so `addCronJob` never meets a key that exists.
  pub operate_all-Distinct :
      (os : List Operation) (s : Service) → Distinct s.jobs → Distinct (operate_all os s).jobs
  unfolding operate_all operate clear_all_schedules restart_all_schedules
  operate_all-Distinct [] s d = d
  operate_all-Distinct (initialize sch b ∷ os) s d =
      operate_all-Distinct os _ (init_schedule-Distinct sch b s d)
  operate_all-Distinct (pause sch b ∷ os) s d =
      operate_all-Distinct os _ (set_paused-Distinct sch b s d)
  operate_all-Distinct (delete id ∷ os) s d =
      operate_all-Distinct os _ (delete_cron_job-Distinct (driver id) s d)
  operate_all-Distinct (clear ∷ os) s d = operate_all-Distinct os _ (clear_jobs-Distinct s.jobs s d)
  operate_all-Distinct (restart ∷ os) s d =
      operate_all-Distinct os _ (restart_all-Distinct s.schedules s d)
