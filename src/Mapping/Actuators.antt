-- ===== src/Mapping/Actuators.antt =====
-- `ActuatorSynchronizeDTO` and `ValveSynchronizeDTO` of infrastructure/dto/synchronize.dto.ts. A configuration is an object with the properties of any of
-- its classes: the casts of the source are not checked.
use cleveremote_box.Base.{ℕ, Bool, true, false, List}
use cleveremote_box.Domain.{ActuatorType, rpi, ctrl}
use cleveremote_box.Mapping.Json.{
  Field, undefined, null, given, field_or, Synchronized, Dates, no_dates,
}
use cleveremote_box.Mapping.Types.{ModuleStatus, status_off, GpioDirection, GpioEdge}

-- An entry of `actions`. `ComActuatorActionConfigDTO` names its port `digitalPort`, `ActuatorActionConfig`
-- `portNumber`; the validation keeps properties that it does not know.
pub record ActuatorAction : Type 0 where
  pub com_request_id : ℕ
  pub digital_port : Field ℕ
  pub port_number : Field ℕ

-- `ActuatorConfigDTO` and `ValveConfigDTO`, the three classes of configurations of actuator.model.ts, and those
-- of actuator.schema.ts
pub record ActuatorConfig : Type 0 where
  pub rpi_pin : Field ℕ
  pub direction : Field GpioDirection
  pub edge : Field GpioEdge
  pub active_low : Field Bool
  pub reconfigure_direction : Field Bool
  pub debounce_timeout : Field ℕ
  pub device_id : Field ℕ
  pub actions : Field (List ActuatorAction)
  pub channel : Field ℕ
  pub flow_meter_id : Field ℕ
  pub max_flow_rate : Field ℕ
  pub k_p : Field ℕ
  pub min_opening : Field ℕ
  pub max_opening : Field ℕ
  pub opening_percent : Field ℕ
  pub tolerance : Field ℕ
  pub max_iterations : Field ℕ
  pub iteration_delay_ms : Field ℕ
  pub full_stroke_ms : Field ℕ
  pub valve_type : Field ℕ

pub record ActuatorDto : Type 0 where
  pub id : ℕ
  pub type : ActuatorType
  pub name : ℕ
  pub config : Field ActuatorConfig
  pub delete : Field Bool

pub record ValveDto : Type 0 where
  pub id : Field ℕ
  pub name : ℕ
  pub description : ℕ
  pub type : ℕ
  pub config : Field ActuatorConfig
  pub delete : Field Bool

pub record ActuatorModel : Type 0 where
  pub id : Field ℕ
  pub status : ModuleStatus
  pub name : ℕ
  pub description : Field ℕ
  pub type : ActuatorType
  pub config : ActuatorConfig
  pub dates : Dates

abbrev pub empty_config : ActuatorConfig
empty_config = record {
  rpi_pin = undefined;
  direction = undefined;
  edge = undefined;
  active_low = undefined;
  reconfigure_direction = undefined;
  debounce_timeout = undefined;
  device_id = undefined;
  actions = undefined;
  channel = undefined;
  flow_meter_id = undefined;
  max_flow_rate = undefined;
  k_p = undefined;
  min_opening = undefined;
  max_opening = undefined;
  opening_percent = undefined;
  tolerance = undefined;
  max_iterations = undefined;
  iteration_delay_ms = undefined;
  full_stroke_ms = undefined;
  valve_type = undefined;
}

-- `new RpiActuatorConfigModel()`
abbrev pub new_rpi : ActuatorConfig
new_rpi = record empty_config { active_low = given false; reconfigure_direction = given true }

-- `new CtrlActuatorConfigModel()`; 'PROPORTIONAL' is a parameter
abbrev pub new_ctrl : ℕ → ActuatorConfig
new_ctrl proportional = record empty_config {
  max_flow_rate = given 100;
  k_p = given 5;
  min_opening = given 0;
  max_opening = given 100;
  opening_percent = given 0;
  tolerance = given 1;
  max_iterations = given 20;
  iteration_delay_ms = given 500;
  full_stroke_ms = given 7000;
  valve_type = given proportional;
}

-- One property of `Object.assign`: a missing one leaves the target as it is.
abbrev pub over {ℓ} : {A : Type ℓ} → Field A → Field A → Field A
over d undefined = d
over d null = null
over d (given a) = given a

-- `Object.assign(target, source)`
unfoldable pub assign : ActuatorConfig → ActuatorConfig → ActuatorConfig
assign d c = record {
  rpi_pin = over d.rpi_pin c.rpi_pin;
  direction = over d.direction c.direction;
  edge = over d.edge c.edge;
  active_low = over d.active_low c.active_low;
  reconfigure_direction = over d.reconfigure_direction c.reconfigure_direction;
  debounce_timeout = over d.debounce_timeout c.debounce_timeout;
  device_id = over d.device_id c.device_id;
  actions = over d.actions c.actions;
  channel = over d.channel c.channel;
  flow_meter_id = over d.flow_meter_id c.flow_meter_id;
  max_flow_rate = over d.max_flow_rate c.max_flow_rate;
  k_p = over d.k_p c.k_p;
  min_opening = over d.min_opening c.min_opening;
  max_opening = over d.max_opening c.max_opening;
  opening_percent = over d.opening_percent c.opening_percent;
  tolerance = over d.tolerance c.tolerance;
  max_iterations = over d.max_iterations c.max_iterations;
  iteration_delay_ms = over d.iteration_delay_ms c.iteration_delay_ms;
  full_stroke_ms = over d.full_stroke_ms c.full_stroke_ms;
  valve_type = over d.valve_type c.valve_type;
}

abbrev pub new_config : ActuatorType → ActuatorConfig
new_config rpi = new_rpi
new_config _ = empty_config

-- `ActuatorSynchronizeDTO.mapToActuatorModel`: what is not RPI gets a COM configuration.
unfoldable pub map_to_actuator_model : ActuatorDto → Synchronized ActuatorModel
unfolding assign
map_to_actuator_model a = record {
  model = record {
    id = given a.id;
    status = status_off;
    name = a.name;
    description = undefined;
    type = a.type;
    config = assign (new_config a.type) (field_or empty_config a.config);
    dates = no_dates;
  };
  delete = field_or false a.delete;
}

-- `ValveSynchronizeDTO.mapToValveModel`; the validation of `type` wants a text.
unfoldable pub map_to_valve_model : ℕ → ValveDto → Synchronized ActuatorModel
unfolding assign
map_to_valve_model proportional v = record {
  model = record {
    id = v.id;
    status = status_off;
    name = v.name;
    description = given v.description;
    type = ctrl;
    config = record (assign (new_ctrl proportional) (field_or empty_config v.config)) {
      valve_type = given v.type;
    };
    dates = no_dates;
  };
  delete = field_or false v.delete;
}
