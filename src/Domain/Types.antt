-- ===== src/Domain/Types.antt =====
-- The enumerations of domain/interfaces/*.ts and the classes of domain/models/*.ts, with the fields
-- that the services read. Identifiers, names and texts of the database are numbers: the services
-- only compare them.
use cleveremote_box.Base.{ℕ, Bool, true, false, Option, List, map, ◌==◌}

-- interfaces/executable.interface.ts
pub data ExecutableStatus : Type 0 where
  in_proccess stopped waitting_confirmation : ExecutableStatus

pub data ExecutableAction : Type 0 where
  on off : ExecutableAction

pub data ProcessMode : Type 0 where
  scheduled manual trigger auto system : ProcessMode

pub data CycleType : Type 0 where
  group_cycle plain_cycle module_cycle : CycleType

pub data ProcessType : Type 0 where
  init force queued confirmation ignore skip : ProcessType

-- interfaces/actuator-module.interface.ts; `com_port` is COM
pub data ActuatorType : Type 0 where
  rpi com_port ctrl : ActuatorType

-- Two values of an enumeration are compared with `===`.
abbrev pub is_in_proccess : ExecutableStatus → Bool
is_in_proccess in_proccess = true
is_in_proccess _ = false

abbrev pub is_stopped : ExecutableStatus → Bool
is_stopped stopped = true
is_stopped _ = false

abbrev pub is_on : ExecutableAction → Bool
is_on on = true
is_on off = false

abbrev pub is_group : CycleType → Bool
is_group group_cycle = true
is_group _ = false

abbrev pub is_plain : CycleType → Bool
is_plain plain_cycle = true
is_plain _ = false

abbrev pub is_module : CycleType → Bool
is_module module_cycle = true
is_module _ = false

abbrev pub is_com_or_rpi : ActuatorType → Bool
is_com_or_rpi ctrl = false
is_com_or_rpi _ = true

abbrev pub is_com : ActuatorType → Bool
is_com com_port = true
is_com _ = false

abbrev pub is_confirmation : ProcessType → Bool
is_confirmation confirmation = true
is_confirmation _ = false

abbrev pub is_force : ProcessType → Bool
is_force force = true
is_force _ = false

-- The position of a mode in its enumeration, by which two modes are compared.
abbrev pub mode_rank : ProcessMode → ℕ
mode_rank scheduled = 0
mode_rank manual = 1
mode_rank trigger = 2
mode_rank auto = 3
mode_rank system = 4

abbrev pub same_mode : ProcessMode → ProcessMode → Bool
same_mode m n = mode_rank m == mode_rank n

-- models/actuator.model.ts: `ActuatorActionConfig`, and the first action of a COM actuator.
pub record ActuatorActionConfig : Type 0 where
  pub com_request_id : ℕ
  pub port_number : ℕ

pub record ActuatorModel : Type 0 where
  pub id : ℕ
  pub name : ℕ
  pub type : ActuatorType
  pub device_id : ℕ
  pub actions : List ActuatorActionConfig

-- models/sequence.model.ts
pub record ModuleTimingConfig : Type 0 where
  pub wait_before_exec : ℕ
  pub wait_after_exec : ℕ
  pub wait_before_exec_off : ℕ
  pub wait_after_exec_off : ℕ

pub record SequenceModuleRef : Type 0 where
  pub module_id : ℕ
  pub config_timing : ModuleTimingConfig

pub record SequenceModel : Type 0 where
  pub id : ℕ
  pub status : ExecutableStatus
  pub order : Option ℕ
  pub max_duration : ℕ
  pub progression : Option ℕ  -- its duration
  pub custom_stacks : List ℕ  -- the `comRequestId` of each
  pub module_configs : List SequenceModuleRef

-- models/cycle.model.ts
pub record ChildCycleConfig : Type 0 where
  pub order : ℕ
  pub wait_for_completion : Bool
  pub delay_before : ℕ
  pub delay_after : ℕ
  pub is_skipped : Bool

pub record ChildCycleRef : Type 0 where
  pub cycle_id : ℕ
  pub config : Option ChildCycleConfig

pub record ModePriority : Type 0 where
  pub mode : ProcessMode
  pub priority : ℕ

pub record CycleModel : Type 0 where
  pub id : ℕ
  pub name : ℕ
  pub type : CycleType
  pub status : ExecutableStatus
  pub mode_priority : List ModePriority
  pub progression : Option ℕ  -- its duration
  pub sequences : List SequenceModel
  pub parent_cycle_id : Option ℕ
  pub child_cycles : List ChildCycleRef

-- interfaces/executable.interface.ts: `SequenceExecutionEntry`
pub record SequenceExecutionEntry : Type 0 where
  pub sequence_id : ℕ
  pub names : List ℕ
  pub max_duration : ℕ

-- `SequenceModel.getActuatorIds`
unfoldable pub get_actuator_ids : SequenceModel → List ℕ
get_actuator_ids s = map (λ ref. ref.module_id) s.module_configs
