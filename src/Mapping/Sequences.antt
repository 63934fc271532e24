-- ===== src/Mapping/Sequences.antt =====
-- `SequenceSync` and its parts, of infrastructure/dto/synchronize.dto.ts.
use cleveremote_box.Base.{ℕ, Bool, false, not, Option, none, some, List, [], map, filter, ◌>>=◌}
use cleveremote_box.Domain.{ExecutableStatus, stopped}
use cleveremote_box.Mapping.Conditions.{ConditionSync, ConditionModel, to_models}
use cleveremote_box.Mapping.Json.{
  Field, given, field_or, object, entry, spread, map_each, Synchronized, Dates, no_dates,
}
use cleveremote_box.Mapping.Requests.{ComRequestConfigDto, ComRequestConfigModel, config_to_model}

pub record CustomStackSync : Type 0 where
  pub com_request_id : ℕ
  pub params : Field ComRequestConfigDto
  pub default_params : Field ComRequestConfigDto

pub record SecurityConfigSync : Type 0 where
  pub max_duration : ℕ
  pub conditions : Field (List (Field ConditionSync))
  pub custom_stacks : Field (List (Field CustomStackSync))

pub record ModuleTimingConfigSync : Type 0 where
  pub wait_before_exec : Field ℕ
  pub wait_after_exec : Field ℕ
  pub wait_before_exec_off : Field ℕ
  pub wait_after_exec_off : Field ℕ

pub record ModuleConfigsSync : Type 0 where
  pub module_id : ℕ
  pub config_timing : Field ModuleTimingConfigSync
  pub custom_value : Field ℕ
  pub delete : Field Bool

pub record SequenceSync : Type 0 where
  pub id : Field ℕ
  pub name : ℕ
  pub description : ℕ
  pub order : ℕ
  pub security_config : Field SecurityConfigSync
  pub module_configs : Field (List (Field ModuleConfigsSync))
  pub delete : Field Bool

-- models/sequence.model.ts: `SequenceModuleRef`, `SecurityConfig` and the class
pub record SequenceModuleRef : Type 0 where
  pub module_id : ℕ
  pub config_timing : ModuleTimingConfigSync
  pub custom_value : Field ℕ

pub record CustomStackModel : Type 0 where
  pub com_request_id : ℕ
  pub params : Option ComRequestConfigModel
  pub default_params : Option ComRequestConfigModel

pub record SecurityConfigModel : Type 0 where
  pub max_duration : ℕ
  pub conditions : Option (List ConditionModel)
  pub custom_stacks : Option (List CustomStackModel)

pub record SequenceModel : Type 0 where
  pub id : Field ℕ
  pub cycle_id : Option ℕ
  pub name : ℕ
  pub description : ℕ
  pub progression : Option ℕ  -- its duration
  pub status : ExecutableStatus
  pub order : ℕ
  pub security_config : SecurityConfigModel
  pub module_configs : List SequenceModuleRef
  pub dates : Dates

-- `model.cycleId = cycleId` of `replaceForCycle`, in infrastructure/repositories/sequence.repository.ts, before
-- the save
unfoldable pub for_cycle : ℕ → SequenceModel → SequenceModel
for_cycle cycle_id m = record m { cycle_id = some cycle_id }

-- The parts of `mapToCycleModel` that map the sequences of a cycle
unfoldable pub stack_to_model : CustomStackSync → Option CustomStackModel
unfolding config_to_model
stack_to_model c = spread (λ (p : ComRequestConfigDto). some (config_to_model p)) c.params >>= λ p.
    spread (λ (q : ComRequestConfigDto). some (config_to_model q)) c.default_params >>= λ q.
    some (record { com_request_id = c.com_request_id; params = p; default_params = q })

unfoldable pub security_to_model : SecurityConfigSync → Option SecurityConfigModel
unfolding stack_to_model map_each to_models
security_to_model c = spread (map_each (entry stack_to_model)) c.custom_stacks >>= λ stacks.
    spread to_models c.conditions >>= λ conditions.
    some (record { max_duration = c.max_duration; conditions = conditions; custom_stacks = stacks })

abbrev pub no_waits : ModuleTimingConfigSync
no_waits = record {
  wait_before_exec = given 0;
  wait_after_exec = given 0;
  wait_before_exec_off = given 0;
  wait_after_exec_off = given 0;
}

abbrev pub is_kept : ModuleConfigsSync → Bool
is_kept m = not (field_or false m.delete)

unfoldable pub module_to_model : ModuleConfigsSync → SequenceModuleRef
module_to_model m = record {
  module_id = m.module_id;
  config_timing = field_or no_waits m.config_timing;
  custom_value = m.custom_value;
}

unfoldable pub modules_to_model : List (Field ModuleConfigsSync) → Option (List SequenceModuleRef)
unfolding module_to_model filter map_each
modules_to_model ms =
    map_each object ms >>= λ given_ones. some (map module_to_model (filter is_kept given_ones))

unfoldable pub sequence_to_model : SequenceSync → Option (Synchronized SequenceModel)
unfolding security_to_model modules_to_model
sequence_to_model s = object s.security_config >>= λ c. security_to_model c >>= λ security.
    modules_to_model (field_or [] s.module_configs) >>= λ modules. some (record {
      model = record {
        id = s.id;
        cycle_id = none;
        name = s.name;
        description = s.description;
        progression = none;
        status = stopped;
        order = s.order;
        security_config = security;
        module_configs = modules;
        dates = no_dates;
      };
      delete = field_or false s.delete;
    })
