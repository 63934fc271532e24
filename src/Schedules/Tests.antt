-- ===== src/Schedules/Tests.antt =====
-- The theorems on the schedules at a concrete service.
use cleveremote_box.Base.{any, ◌≡◌, refl, true, false, none, some, [], ◌∷◌}
use cleveremote_box.Schedules.Defs.{Service, tracks, driver, ScheduleModel, Cron}
use cleveremote_box.Schedules.Registry.{
  operate_all-Distinct, restart, pause, operate_all, Distinct, clear, initialize, delete,
}
use cleveremote_box.Schedules.Service.{init_schedule}
use cleveremote_box.Schedules.Tracking.{DistinctIds, init_schedule-forgets, init_schedule-tracks}

abbrev clock : Cron
clock = record { accepts = λ _. true; sun_event_passed = λ _. false; next_date_throws = λ _. false }

abbrev dawn : ScheduleModel
dawn = record {
  id = 1;
  cycle_id = 4;
  cron_time = some 6;
  sun_behavior = true;
  is_paused = false;
  should_confirmation = false;
  duration = none;
}

abbrev noon : ScheduleModel
noon = record dawn { id = 2; sun_behavior = false; cron_time = some 12 }

abbrev service : Service
service = record {
  schedules = noon ∷ dawn ∷ [];
  jobs = record { key = driver 1; is_running = true } ∷ [];
  saved = [];
  deleted = [];
}

operate_all-Distinct_example :
    Distinct
      (operate_all clock
        (initialize noon false ∷ pause dawn true ∷ clear ∷ restart ∷ delete 2 ∷ [])
        service).jobs
unfolding any
operate_all-Distinct_example =
    operate_all-Distinct clock
      (initialize noon false ∷ pause dawn true ∷ clear ∷ restart ∷ delete 2 ∷ []) service (refl, tt)

init_schedule-tracks_example :
    DistinctIds (init_schedule clock dawn false service).schedules
    × (any (tracks 1) (init_schedule clock dawn false service).schedules ≡ true)
unfolding any
init_schedule-tracks_example = init_schedule-tracks clock dawn service (refl, (refl, tt))

init_schedule-forgets_example :
    (init_schedule clock (record dawn { id = 3 }) true service).schedules ≡ noon ∷ []
unfolding any
init_schedule-forgets_example =
    init_schedule-forgets clock (record dawn { id = 3 }) dawn (noon ∷ []) service refl refl
