-- ===== src/Sensors/Tests.antt =====
-- sensor.service.ts: a sensor that has a job.
use cleveremote_box.Base.{count, ◌≡◌, true, false, none, [], ◌∷◌}
use cleveremote_box.Sensors.Jobs.{init_scheduled_sensor-jobs}
use cleveremote_box.Sensors.Service.{Service, SensorModel, init_scheduled_sensor, is_key}

abbrev probe : SensorModel
probe = record {
  id = 4;
  parent_id = none;
  is_enabled = true;
  is_forcast = false;
  cron_pattern = 1;
  value = none;
  date = none;
}

abbrev running_probe : Service
running_probe = record {
  sensors = probe ∷ [];
  jobs = record { key = 4; sensor = probe } ∷ [];
  sent = [];
  changed = [];
}

init_scheduled_sensor-jobs_example :
    count
      (is_key 4)
      (init_scheduled_sensor
        (λ p. true)
        (record probe { is_enabled = false })
        false
        running_probe).jobs
    ≡ 0
unfolding count
init_scheduled_sensor-jobs_example =
    init_scheduled_sensor-jobs (λ p. true) (record probe { is_enabled = false }) false running_probe
      4
