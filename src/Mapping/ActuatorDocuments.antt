-- ===== src/Mapping/ActuatorDocuments.antt =====
-- infrastructure/schemas/actuator.schema.ts and infrastructure/schemas/mappers/actuator.mapper.ts.
use cleveremote_box.Base.{ℕ, List, [], map}
use cleveremote_box.Domain.{ActuatorType, rpi, com_port, ctrl}
use cleveremote_box.Mapping.Json.{Field, undefined, given, field_or, Document}
use cleveremote_box.Mapping.Types.{ModuleStatus}
use cleveremote_box.Mapping.Actuators.{
  ActuatorAction, ActuatorConfig, ActuatorModel, empty_config, new_rpi,
}

-- `ActuatorSchemaInput` and `Actuator` of the schema
pub record Actuator : Type 0 where
  pub name : ℕ
  pub description : Field ℕ
  pub status : ModuleStatus
  pub type : ActuatorType
  pub config : ActuatorConfig

-- The properties that `mapToSchema` takes for each type; `actions` is the list of the model.
unfoldable pub config_to_schema : ActuatorType → ActuatorConfig → ActuatorConfig
config_to_schema rpi c = record empty_config {
  rpi_pin = c.rpi_pin;
  direction = c.direction;
  edge = c.edge;
  active_low = c.active_low;
  reconfigure_direction = c.reconfigure_direction;
  debounce_timeout = c.debounce_timeout;
}
config_to_schema com_port c = record empty_config { device_id = c.device_id; actions = c.actions }
config_to_schema ctrl c = record empty_config {
  device_id = c.device_id;
  channel = c.channel;
  actions = c.actions;
  flow_meter_id = c.flow_meter_id;
  max_flow_rate = c.max_flow_rate;
  k_p = c.k_p;
  min_opening = c.min_opening;
  max_opening = c.max_opening;
  opening_percent = c.opening_percent;
  tolerance = c.tolerance;
  max_iterations = c.max_iterations;
  iteration_delay_ms = c.iteration_delay_ms;
  full_stroke_ms = c.full_stroke_ms;
  valve_type = c.valve_type;
}

unfoldable pub actuator_to_schema : ActuatorModel → Actuator
unfolding config_to_schema
actuator_to_schema a = record {
  name = a.name;
  description = a.description;
  status = a.status;
  type = a.type;
  config = config_to_schema a.type a.config;
}

-- An entry of `actions` as `mapToModel` copies it
abbrev pub copied_action : ActuatorAction → ActuatorAction
copied_action a = record {
  com_request_id = a.com_request_id;
  digital_port = undefined;
  port_number = a.port_number;
}

unfoldable pub copied_actions : Field (List ActuatorAction) → Field (List ActuatorAction)
copied_actions as' = given (map copied_action (field_or [] as'))

-- The properties that `mapToModel` takes for each type
unfoldable pub config_to_model : ActuatorType → ActuatorConfig → ActuatorConfig
unfolding copied_actions
config_to_model rpi c = record new_rpi {
  rpi_pin = c.rpi_pin;
  direction = c.direction;
  edge = c.edge;
  active_low = c.active_low;
  reconfigure_direction = c.reconfigure_direction;
  debounce_timeout = c.debounce_timeout;
}
config_to_model com_port c = record empty_config {
  device_id = c.device_id;
  actions = copied_actions c.actions;
}
config_to_model ctrl c = record empty_config {
  device_id = c.device_id;
  channel = c.channel;
  actions = copied_actions c.actions;
  flow_meter_id = c.flow_meter_id;
  max_flow_rate = c.max_flow_rate;
  k_p = c.k_p;
  min_opening = c.min_opening;
  max_opening = c.max_opening;
  opening_percent = c.opening_percent;
  tolerance = c.tolerance;
  max_iterations = c.max_iterations;
  iteration_delay_ms = c.iteration_delay_ms;
  full_stroke_ms = c.full_stroke_ms;
  valve_type = c.valve_type;
}

unfoldable pub actuator_to_model : Document Actuator → ActuatorModel
unfolding config_to_model
actuator_to_model d = record {
  id = given d.id;
  status = d.fields.status;
  name = d.fields.name;
  description = d.fields.description;
  type = d.fields.type;
  config = config_to_model d.fields.type d.fields.config;
  dates = d.dates;
}
