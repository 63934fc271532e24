-- ===== src/Mapping/Samples.antt =====
-- A cycle with one sequence, a schedule and a COM actuator, as payloads, models and documents.
use cleveremote_box.Base.{true, false, none, some, [], ◌∷◌}
use cleveremote_box.Domain.{stopped, plain_cycle, com_port}
use cleveremote_box.Mapping.Json.{undefined, null, given, Document, Dates, no_dates, Synchronized}
use cleveremote_box.Mapping.Types.{parallel, number, sensor_element, status_off}
use cleveremote_box.Mapping.Conditions.{ConditionSync, ConditionModel, Condition}
use cleveremote_box.Mapping.Requests.{ComRequestConfigDto, ComRequestConfigModel, ComRequestConfig}
use cleveremote_box.Mapping.Sequences.{SequenceSync, SequenceModel, no_waits}
use cleveremote_box.Mapping.SequenceDocuments.{Sequence}
use cleveremote_box.Mapping.Cycles.{CycleDto, CycleModel, Cycle, default_priorities}
use cleveremote_box.Mapping.Schedules.{ScheduleDto}
use cleveremote_box.Mapping.Actuators.{ActuatorDto, empty_config}
use cleveremote_box.Mapping.ActuatorDocuments.{Actuator}
use cleveremote_box.Modbus.Requests.{write_single_register}

abbrev pub humid : ConditionSync
humid = record {
  name = 1;
  value = number 40;
  operator = 2;
  element_id = 3;
  element_type = sensor_element;
  order = 0;
  symbol_start = undefined;
  symbol_end = undefined;
}

abbrev pub setting : ComRequestConfigDto
setting = record {
  function = write_single_register ∷ [];
  address = 12;
  disabled = undefined;
  done = undefined;
  type = undefined;
  params = given (record {
    length = 1;
    scale = undefined;
    unit = undefined;
    value = undefined;
    formula = null;
    persistence = given (record { persist = true; address = 40 });
  });
}

abbrev pub watering : SequenceSync
watering = record {
  id = given 7;
  name = 8;
  description = 9;
  order = 0;
  security_config = given (record {
    max_duration = 60000;
    conditions = given (given humid ∷ []);
    custom_stacks = given (
        given (record { com_request_id = 4; params = given setting; default_params = undefined })
        ∷ []);
  });
  module_configs = given (
      given (record {
        module_id = 5;
        config_timing = undefined;
        custom_value = given 3;
        delete = undefined;
      })
      ∷ given (record {
        module_id = 6;
        config_timing = undefined;
        custom_value = undefined;
        delete = given true;
      })
      ∷ []);
  delete = undefined;
}

abbrev pub garden : CycleDto
garden = record {
  id = given 1;
  type = undefined;
  name = 2;
  description = undefined;
  display = undefined;
  style = undefined;
  mode_priority = undefined;
  sequences = given (given watering ∷ []);
  triggers = undefined;
  schedules = undefined;
  execution_mode = given parallel;
  conditions = given (given humid ∷ []);
  parent_cycle_id = null;
  child_cycles = undefined;
  delete = undefined;
}

abbrev pub condition : ConditionModel
condition = record {
  name = 1;
  element_id = 3;
  element_type = sensor_element;
  operator = 2;
  value = number 40;
  order = 0;
  symbol_start = undefined;
  symbol_end = undefined;
}

abbrev pub setting_model : ComRequestConfigModel
setting_model = record {
  function = write_single_register ∷ [];
  address = 12;
  disabled = undefined;
  done = given false;
  type = undefined;
  params = some (record {
    length = 1;
    scale = undefined;
    unit = undefined;
    value = undefined;
    formula = null;
    persistence = given (record { persist = true; address = 40 });
  });
}

abbrev pub watering_model : Synchronized SequenceModel
watering_model = record {
  model = record {
    id = given 7;
    cycle_id = none;
    name = 8;
    description = 9;
    progression = none;
    status = stopped;
    order = 0;
    security_config = record {
      max_duration = 60000;
      conditions = some (condition ∷ []);
      custom_stacks =
          some (
            record { com_request_id = 4; params = some setting_model; default_params = none } ∷ []);
    };
    module_configs =
        record { module_id = 5; config_timing = no_waits; custom_value = given 3 } ∷ [];
    dates = no_dates;
  };
  delete = false;
}

abbrev pub saved_at : Dates
saved_at = record { created_at = some 100; updated_at = some 100; deleted_at = none }

abbrev pub saved_condition : Condition
saved_condition = record {
  name = 1;
  element_id = 3;
  element_type = sensor_element;
  operator = 2;
  value = number 40;
  order = 0;
  symbol_start = undefined;
  symbol_end = undefined;
}

abbrev pub saved_setting : ComRequestConfig
saved_setting = record {
  function = write_single_register ∷ [];
  address = 12;
  disabled = undefined;
  done = false;
  type = undefined;
  params = some (record {
    length = 1;
    scale = undefined;
    unit = undefined;
    value = undefined;
    formula = null;
    persistence = some (record { persist = true; address = 40 });
  });
}

abbrev pub saved_watering : Document Sequence
saved_watering = record {
  id = 7;
  fields = record {
    cycle_id = some 1;
    name = 8;
    description = 9;
    status = stopped;
    order = 0;
    security_config = record {
      max_duration = 60000;
      conditions = some (saved_condition ∷ []);
      custom_stacks =
          some (
            record { com_request_id = 4; params = some saved_setting; default_params = none } ∷ []);
    };
    module_configs =
        record {
          module_id = 5;
          config_timing = record {
            wait_before_exec = 0;
            wait_after_exec = 0;
            wait_before_exec_off = 0;
            wait_after_exec_off = 0;
          };
          custom_value = given 3;
        }
        ∷ [];
  };
  dates = saved_at;
}

-- A cycle of a group
abbrev pub plot : CycleModel
plot = record {
  id = given 1;
  name = 2;
  type = plain_cycle;
  style = undefined;
  description = undefined;
  display = true;
  status = stopped;
  mode_priority = default_priorities;
  progression = none;
  sequences = watering_model ∷ [];
  schedules = [];
  triggers = [];
  execution_mode = parallel;
  conditions = condition ∷ [];
  parent_cycle_id = some 11;
  child_cycles = [];
  dates = no_dates;
}

abbrev pub saved_plot : Document Cycle
saved_plot = record {
  id = 1;
  fields = record {
    name = 2;
    type = plain_cycle;
    description = undefined;
    display = true;
    status = stopped;
    style = undefined;
    execution_mode = parallel;
    conditions = saved_condition ∷ [];
    mode_priority = default_priorities;
    parent_cycle_id = some 11;
    child_cycles = [];
  };
  dates = saved_at;
}

abbrev pub evening : ScheduleDto
evening = record {
  id = given 1;
  name = 2;
  description = 3;
  cycle_id = 1;
  cron =
      given (record {
        date = undefined;
        pattern = given 4;
        sun_behavior = undefined;
        after = given 30;
      });
  is_paused = false;
  should_confirmation = false;
  duration = undefined;
  delete = undefined;
}

-- A COM actuator whose action names its port as the payload's class does
abbrev pub pump : ActuatorDto
pump = record {
  id = 1;
  type = com_port;
  name = 2;
  config = given (record empty_config {
    device_id = given 3;
    actions =
        given (record { com_request_id = 4; digital_port = given 5; port_number = undefined } ∷ []);
  });
  delete = undefined;
}

abbrev pub saved_pump : Document Actuator
saved_pump = record {
  id = 1;
  fields = record {
    name = 2;
    description = undefined;
    status = status_off;
    type = com_port;
    config = record empty_config {
      device_id = given 3;
      actions =
          given
            (record { com_request_id = 4; digital_port = given 5; port_number = undefined } ∷ []);
    };
  };
  dates = saved_at;
}
