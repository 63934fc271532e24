-- ===== src/Structure/Service.antt =====
-- configuration.service.ts: the structure in memory, loaded from the database and the last events, and the
-- values that it reports.
use cleveremote_box.Base.{
  filter, or_else, if◌then◌else◌, ℕ, Bool, true, false, not, Option, none, some, List, [], ◌∷◌,
  ◌++◌, map,
}
use cleveremote_box.Domain.{CycleModel, is_in_proccess, ExecutableStatus, SequenceModel}
use cleveremote_box.Engine.State.{EventModel}
use cleveremote_box.Sensors.Service.{SensorValueModel, SensorModel, to_sensor_value}

-- `ProcessEventData`: what an event of a cycle or sequence holds. The event that
-- trigger.service.ts saves has no `status`, `startedAt` and `duration`.
pub record ProcessEventData : Type 0 where
  pub value : ExecutableStatus
  pub status : Option ExecutableStatus
  pub duration : Option ℕ

-- `SensorEventData`, with the date of its event
pub record SensorEventData : Type 0 where
  pub value : ℕ
  pub date : Option ℕ

-- The collections as they are read, and `eventRepository.getLast` for a cycle or sequence and for a sensor
pub record Stored : Type 0 where
  pub cycles : List CycleModel
  pub sensors : List SensorModel
  pub last_process : ℕ → Option ProcessEventData
  pub last_reading : ℕ → Option SensorEventData

pub record StructureModel : Type 0 where
  pub cycles : List CycleModel
  pub sensors : List SensorModel

-- The events that execution.service.ts and trigger.service.ts save
abbrev pub data_of_event : EventModel → ProcessEventData
data_of_event e = record { value = e.status; status = some e.status; duration = e.duration }

abbrev pub data_of_change : ExecutableStatus → ProcessEventData
data_of_change status = record { value = status; status = none; duration = none }

unfoldable pub status_of : ProcessEventData → ExecutableStatus
status_of d = or_else d.value d.status

unfoldable pub progression_of : ProcessEventData → Option ℕ
unfolding status_of
progression_of d = if is_in_proccess (status_of d) then d.duration else none

-- `_rehydrateProcessStatus`, of a sequence and of a cycle
unfoldable pub rehydrate_sequence : Option ProcessEventData → SequenceModel → SequenceModel
unfolding status_of progression_of
rehydrate_sequence none q = q
rehydrate_sequence (some d) q = record q { status = status_of d; progression = progression_of d }

unfoldable pub rehydrate_process_status : Option ProcessEventData → CycleModel → CycleModel
unfolding status_of progression_of
rehydrate_process_status none c = c
rehydrate_process_status (some d) c = record c {
  status = status_of d;
  progression = progression_of d;
}

unfoldable pub rehydrate_cycle : Stored → CycleModel → CycleModel
unfolding rehydrate_process_status rehydrate_sequence
rehydrate_cycle db c =
    rehydrate_process_status (db.last_process c.id)
      (record c { sequences = map (λ q. rehydrate_sequence (db.last_process q.id) q) c.sequences })

-- The last reading of a sensor
unfoldable pub rehydrate_sensor : Option SensorEventData → SensorModel → SensorModel
rehydrate_sensor none x = x
rehydrate_sensor (some e) x = record x { value = some e.value; date = e.date }

-- `getStructure`
unfoldable pub get_structure : Stored → StructureModel
unfolding rehydrate_cycle rehydrate_sensor
get_structure db = record {
  cycles = map (rehydrate_cycle db) db.cycles;
  sensors = map (λ x. rehydrate_sensor (db.last_reading x.id) x) db.sensors;
}

pub data ExecutableType : Type 0 where
  sequence_type cycle_type : ExecutableType

pub record ProcessValueModel : Type 0 where
  pub id : ℕ
  pub type : ExecutableType
  pub status : ExecutableStatus
  pub duration : Option ℕ

abbrev pub is_cycle_type : ExecutableType → Bool
is_cycle_type cycle_type = true
is_cycle_type sequence_type = false

-- `_toProcessValue`, of a cycle and of a sequence
unfoldable pub cycle_value : CycleModel → ProcessValueModel
cycle_value c = record { id = c.id; type = cycle_type; status = c.status; duration = c.progression }

unfoldable pub sequence_value : SequenceModel → ProcessValueModel
sequence_value q = record {
  id = q.id;
  type = sequence_type;
  status = q.status;
  duration = q.progression;
}

-- `StructureModel.getSequences`
unfoldable pub get_sequences : List CycleModel → List SequenceModel
get_sequences [] = []
get_sequences (c ∷ cs) = c.sequences ++ get_sequences cs

-- `_buildProcessValues` and `_buildSensorValues`
unfoldable pub build_process_values : StructureModel → List ProcessValueModel
unfolding cycle_value sequence_value get_sequences
build_process_values s = map cycle_value s.cycles ++ map sequence_value (get_sequences s.cycles)

unfoldable pub build_sensor_values : List SensorModel → List SensorValueModel
unfolding to_sensor_value
build_sensor_values [] = []
build_sensor_values (x ∷ xs) = elim (to_sensor_value (some x)) [
  | none ↦ build_sensor_values xs
  | some v ↦ v ∷ build_sensor_values xs
]

-- `getStatus`: the processes and the sensors that are reported for a type
pub data StatusType : Type 0 where
  sensor_status sequence_status cycle_status every_status : StatusType

unfoldable pub get_status :
    StatusType → StructureModel → List ProcessValueModel × List SensorValueModel
unfolding build_process_values build_sensor_values filter
get_status sensor_status s = ([], build_sensor_values s.sensors)
get_status sequence_status s =
    (filter (λ v. not (is_cycle_type v.type)) (build_process_values s), [])
get_status cycle_status s = (filter (λ v. is_cycle_type v.type) (build_process_values s), [])
get_status every_status s = (build_process_values s, build_sensor_values s.sensors)
