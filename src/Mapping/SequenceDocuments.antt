-- ===== src/Mapping/SequenceDocuments.antt =====
-- infrastructure/schemas/sequence.schema.ts, and infrastructure/schemas/mappers/sequence.mapper.ts and
-- custom-stack.mapper.ts.
use cleveremote_box.Base.{ℕ, Option, none, some, List, map, ◌>>=◌}
use cleveremote_box.Domain.{ExecutableStatus}
use cleveremote_box.Mapping.Conditions.{Condition, condition_to_schema, condition_to_model}
use cleveremote_box.Mapping.Json.{Field, given, field_or, map_each, Document}
use cleveremote_box.Mapping.Requests.{
  ComRequestConfig, map_com_request_config_to_schema, map_com_request_config_to_model,
}
use cleveremote_box.Mapping.Sequences.{
  SequenceModuleRef, CustomStackModel, SecurityConfigModel, SequenceModel,
}

-- infrastructure/schemas/sequence.schema.ts
pub record CustomStack : Type 0 where
  pub com_request_id : ℕ
  pub params : Option ComRequestConfig
  pub default_params : Option ComRequestConfig

pub record SecurityConfig : Type 0 where
  pub max_duration : ℕ
  pub conditions : Option (List Condition)
  pub custom_stacks : Option (List CustomStack)

pub record ModuleTimingConfig : Type 0 where
  pub wait_before_exec : ℕ
  pub wait_after_exec : ℕ
  pub wait_before_exec_off : ℕ
  pub wait_after_exec_off : ℕ

pub record SequenceModuleConfig : Type 0 where
  pub module_id : ℕ
  pub config_timing : ModuleTimingConfig
  pub custom_value : Field ℕ

pub record Sequence : Type 0 where
  pub cycle_id : Option ℕ
  pub name : ℕ
  pub description : ℕ
  pub status : ExecutableStatus
  pub order : ℕ
  pub security_config : SecurityConfig
  pub module_configs : List SequenceModuleConfig

-- A property that is mapped when it is there; `none` inside is a TypeError of its mapping.
unfoldable pub map_present {ℓ κ} :
    {A : Type ℓ} {B : Type κ} → (A → Option B) → Option A → Option (Option B)
map_present f none = some none
map_present f (some a) = elim (f a) [ none ↦ none | some b ↦ some (some b) ]

-- `CustomStackMapper`
unfoldable pub stack_to_schema : CustomStackModel → Option CustomStack
unfolding map_present map_com_request_config_to_schema
stack_to_schema c = map_present map_com_request_config_to_schema c.params >>= λ p.
    map_present map_com_request_config_to_schema c.default_params >>= λ q.
    some (record { com_request_id = c.com_request_id; params = p; default_params = q })

unfoldable pub stack_of_schema : CustomStack → CustomStackModel
unfolding map_com_request_config_to_model
stack_of_schema c = record {
  com_request_id = c.com_request_id;
  params = c.params >>= λ p. some (map_com_request_config_to_model p);
  default_params = c.default_params >>= λ p. some (map_com_request_config_to_model p);
}

-- `SequenceMapper.mapToSchema`
unfoldable pub security_to_schema : SecurityConfigModel → Option SecurityConfig
unfolding map_present map_each stack_to_schema condition_to_schema
security_to_schema c = map_present (map_each stack_to_schema) c.custom_stacks >>= λ stacks.
    some (record {
      max_duration = c.max_duration;
      conditions = c.conditions >>= λ cs. some (map condition_to_schema cs);
      custom_stacks = stacks;
    })

unfoldable pub module_to_schema : SequenceModuleRef → SequenceModuleConfig
module_to_schema m = record {
  module_id = m.module_id;
  config_timing = record {
    wait_before_exec = field_or 0 m.config_timing.wait_before_exec;
    wait_after_exec = field_or 0 m.config_timing.wait_after_exec;
    wait_before_exec_off = field_or 0 m.config_timing.wait_before_exec_off;
    wait_after_exec_off = field_or 0 m.config_timing.wait_after_exec_off;
  };
  custom_value = m.custom_value;
}

unfoldable pub sequence_to_schema : SequenceModel → Option Sequence
unfolding security_to_schema module_to_schema
sequence_to_schema s = security_to_schema s.security_config >>= λ security. some (record {
  cycle_id = s.cycle_id;
  name = s.name;
  description = s.description;
  status = s.status;
  order = s.order;
  security_config = security;
  module_configs = map module_to_schema s.module_configs;
})

-- `SequenceMapper.mapToModel`
unfoldable pub security_of_schema : SecurityConfig → SecurityConfigModel
unfolding stack_of_schema condition_to_model
security_of_schema c = record {
  max_duration = c.max_duration;
  conditions = c.conditions >>= λ cs. some (map condition_to_model cs);
  custom_stacks = c.custom_stacks >>= λ cs. some (map stack_of_schema cs);
}

unfoldable pub module_of_schema : SequenceModuleConfig → SequenceModuleRef
module_of_schema m = record {
  module_id = m.module_id;
  config_timing = record {
    wait_before_exec = given m.config_timing.wait_before_exec;
    wait_after_exec = given m.config_timing.wait_after_exec;
    wait_before_exec_off = given m.config_timing.wait_before_exec_off;
    wait_after_exec_off = given m.config_timing.wait_after_exec_off;
  };
  custom_value = m.custom_value;
}

unfoldable pub sequence_of_schema : Document Sequence → SequenceModel
unfolding security_of_schema module_of_schema
sequence_of_schema d = record {
  id = given d.id;
  cycle_id = d.fields.cycle_id;
  name = d.fields.name;
  description = d.fields.description;
  progression = none;
  status = d.fields.status;
  order = d.fields.order;
  security_config = security_of_schema d.fields.security_config;
  module_configs = map module_of_schema d.fields.module_configs;
  dates = d.dates;
}
