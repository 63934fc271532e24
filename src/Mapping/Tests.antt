-- ===== src/Mapping/Tests.antt =====
-- infrastructure/dto/synchronize.dto.ts: the mappings of the samples.
use cleveremote_box.Base.{◌≡◌, refl, true, false, none, some, [], ◌∷◌, is_some, all, map, ◌>>=◌}
use cleveremote_box.Mapping.Json.{map_each, undefined, null, given, object}
use cleveremote_box.Mapping.Conditions.{to_models}
use cleveremote_box.Mapping.Sequences.{sequence_to_model, for_cycle}
use cleveremote_box.Mapping.SequenceDocuments.{sequence_to_schema, sequence_of_schema}
use cleveremote_box.Mapping.Cycles.{map_to_cycle_model, cycle_to_schema, cycle_to_model}
use cleveremote_box.Mapping.Schedules.{map_to_schedule_model, schedule_of_cycle}
use cleveremote_box.Mapping.Actuators.{map_to_actuator_model}
use cleveremote_box.Mapping.ActuatorDocuments.{actuator_to_schema, actuator_to_model}
use cleveremote_box.Mapping.Saved.{sequence_kept, cycle_kept}
use cleveremote_box.Mapping.Refused.{map_to_cycle_model-plain, is_plain}
use cleveremote_box.Mapping.Copies.{map_to_schedule_model-of_cycle}
use cleveremote_box.Mapping.Configs.{actuator_to_model-ports, ports}
use cleveremote_box.Mapping.Kept.{with_waits}
use cleveremote_box.Mapping.Samples.{
  watering, garden, watering_model, saved_at, saved_watering, plot, saved_plot, evening, pump,
  saved_pump,
}

garden_plain : is_plain garden ≡ true
unfolding all
garden_plain = refl

-- `customStacks: null`
garden_refused :
    is_plain (record garden {
      sequences = given (
          given (record watering {
            security_config =
                given (record { max_duration = 1; conditions = undefined; custom_stacks = null });
          })
          ∷ []);
    })
    ≡ false
unfolding all
garden_refused = refl

-- `conditions: [null]`
null_refused : map_to_cycle_model (record garden { conditions = given (null ∷ []) }) ≡ none
unfolding map_to_cycle_model to_models map_each
null_refused = refl

map_to_cycle_model-plain_example : is_some (map_to_cycle_model garden) ≡ is_plain garden
map_to_cycle_model-plain_example = map_to_cycle_model-plain garden

watering_mapped : sequence_to_model watering ≡ some watering_model
unfolding sequence_to_model
watering_mapped = refl

watering_saved : sequence_to_schema (for_cycle 1 watering_model.model) ≡ some saved_watering.fields
unfolding sequence_to_schema for_cycle
watering_saved = refl

sequence_kept_example : sequence_of_schema saved_watering ≡ record watering_model.model {
  id = given 7;
  cycle_id = some 1;
  progression = none;
  module_configs = map with_waits watering_model.model.module_configs;
  dates = saved_at;
}
sequence_kept_example =
    sequence_kept 1 watering watering_model saved_watering watering_mapped watering_saved

plot_saved : cycle_to_schema plot ≡ saved_plot.fields
unfolding cycle_to_schema
plot_saved = refl

cycle_kept_example : cycle_to_model saved_plot ≡ record plot {
  id = given 1;
  progression = none;
  sequences = [];
  schedules = [];
  triggers = [];
  dates = saved_at;
}
cycle_kept_example = cycle_kept plot saved_plot plot_saved

map_to_schedule_model-of_cycle_example :
    map_to_schedule_model evening ≡ (object evening.cron >>= λ c. some (schedule_of_cycle evening))
map_to_schedule_model-of_cycle_example = map_to_schedule_model-of_cycle evening

pump_saved : actuator_to_schema (map_to_actuator_model pump).model ≡ saved_pump.fields
unfolding actuator_to_schema map_to_actuator_model
pump_saved = refl

actuator_to_model-ports_example :
    ports (actuator_to_model saved_pump).config.actions ≡ undefined ∷ []
actuator_to_model-ports_example = actuator_to_model-ports pump saved_pump refl pump_saved
