-- ===== src/Sensors/Service.antt =====
-- sensor.service.ts: the sensors of the structure, their jobs, and the values that they emit; and
-- value.repository.ts, which reads a value back.
use cleveremote_box.Base.{
  filter, find, if◌then◌else◌, ◌==◌, is_some, ℕ, Bool, true, false, not, Option, none, some, List,
  [], ◌∷◌,
}

-- `SensorModel`; a FORCAST sensor reads the value of the next day.
pub record SensorModel : Type 0 where
  pub id : ℕ
  pub parent_id : Option ℕ
  pub is_enabled : Bool
  pub is_forcast : Bool
  pub cron_pattern : ℕ
  pub value : Option ℕ
  pub date : Option ℕ

pub record SensorValueModel : Type 0 where
  pub id : ℕ
  pub value : ℕ
  pub date : Option ℕ

-- A job holds the sensor that it reads, as it was when the job was made.
pub record Job : Type 0 where
  pub key : ℕ
  pub sensor : SensorModel

pub record Service : Type 0 where
  pub sensors : List SensorModel  -- of the structure
  pub jobs : List Job  -- of the registry
  pub sent : List (SensorValueModel × Bool)  -- by `wsService.sendMessage`, and whether locally; latest first
  pub changed : List SensorValueModel  -- by `onElementValueChanged.next`, latest first

abbrev pub is_key : ℕ → Job → Bool
is_key k j = j.key == k

abbrev pub is_sensor : ℕ → SensorModel → Bool
is_sensor i x = x.id == i

-- `_deleteCronJob`, which does nothing where there is no job
unfoldable pub delete_cron_job : ℕ → Service → Service
unfolding filter
delete_cron_job i s = record s { jobs = filter (λ j. not (is_key i j)) s.jobs }

-- `_scheduleCronJob`: whether `CronJob.from` accepts the pattern; otherwise it throws, which is logged.
unfoldable pub schedule_cron_job : (ℕ → Bool) → SensorModel → Service → Service
schedule_cron_job accepts x s =
    if accepts x.cron_pattern
    then record s { jobs = record { key = x.id; sensor = x } ∷ s.jobs }
    else s

-- `_createScheduledSensorEvent`
unfoldable pub create_scheduled_sensor_event : (ℕ → Bool) → SensorModel → Service → Service
unfolding delete_cron_job schedule_cron_job
create_scheduled_sensor_event accepts x s =
    if is_some x.parent_id
    then s
    else if x.is_enabled
    then schedule_cron_job accepts x (delete_cron_job x.id s)
    else delete_cron_job x.id s

-- `structure.sensors.splice(index, 1)` and `structure.sensors[index] = sensor`, at the first of this
-- identifier, or `push`
unfoldable pub splice_sensor : ℕ → List SensorModel → List SensorModel
splice_sensor i [] = []
splice_sensor i (x ∷ xs) = if is_sensor i x then xs else x ∷ splice_sensor i xs

unfoldable pub put_sensor : SensorModel → List SensorModel → List SensorModel
put_sensor x [] = x ∷ []
put_sensor x (y ∷ ys) = if is_sensor x.id y then x ∷ ys else y ∷ put_sensor x ys

-- `initScheduledSensor`
unfoldable pub init_scheduled_sensor : (ℕ → Bool) → SensorModel → Bool → Service → Service
unfolding splice_sensor delete_cron_job put_sensor create_scheduled_sensor_event
init_scheduled_sensor accepts x is_deleted s =
    if is_deleted
    then delete_cron_job x.id (record s { sensors = splice_sensor x.id s.sensors })
    else create_scheduled_sensor_event accepts x (record s { sensors = put_sensor x s.sensors })

-- `restartAllScheduledSensors`, over the sensors of the database
unfoldable pub restart_all_scheduled_sensors : (ℕ → Bool) → List SensorModel → Service → Service
unfolding create_scheduled_sensor_event
restart_all_scheduled_sensors accepts [] s = s
restart_all_scheduled_sensors accepts (x ∷ xs) s =
    restart_all_scheduled_sensors accepts xs (create_scheduled_sensor_event accepts x s)

-- `_updateStructureSensorValue`
unfoldable pub with_value : SensorValueModel → SensorModel → SensorModel
with_value v x = record x { value = some v.value; date = v.date }

unfoldable pub update_structure_sensor_value :
    SensorValueModel → List SensorModel → List SensorModel
unfolding with_value
update_structure_sensor_value v [] = []
update_structure_sensor_value v (x ∷ xs) =
    if is_sensor v.id x then with_value v x ∷ xs else x ∷ update_structure_sensor_value v xs

-- `emitReceivedData`; `tomorrow` is the date of the next day.
unfoldable pub sensor_value_of : ℕ → SensorModel → ℕ → SensorValueModel
sensor_value_of tomorrow x v = record {
  id = x.id;
  value = v;
  date = if x.is_forcast then some tomorrow else none;
}

unfoldable pub emit_received_data : ℕ → SensorModel → ℕ → Service → Service
unfolding sensor_value_of update_structure_sensor_value
emit_received_data tomorrow x v s =
    let value = sensor_value_of tomorrow x v in
    record s {
      sensors = update_structure_sensor_value value s.sensors;
      sent = (value, false) ∷ (value, true) ∷ s.sent;
      changed = value ∷ s.changed;
    }

-- `_readAndEmit`, with the values that are read, one for each child of the sensor or one for itself
unfoldable pub emit_each : ℕ → List (SensorModel × ℕ) → Service → Service
unfolding emit_received_data
emit_each tomorrow [] s = s
emit_each tomorrow ((x, v) ∷ xs) s = emit_each tomorrow xs (emit_received_data tomorrow x v s)

-- `ValueRepository.getDeviceValue`, for an identifier of no cycle or sequence
unfoldable pub to_sensor_value : Option SensorModel → Option SensorValueModel
to_sensor_value none = none
to_sensor_value (some x) = elim x.value [
  | none ↦ none
  | some v ↦ some (record { id = x.id; value = v; date = x.date })
]

unfoldable pub get_device_value : ℕ → Service → Option SensorValueModel
unfolding find to_sensor_value
get_device_value i s = to_sensor_value (find (is_sensor i) s.sensors)
