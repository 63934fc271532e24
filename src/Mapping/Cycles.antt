-- ===== src/Mapping/Cycles.antt =====
-- `CycleSynchronizeDTO` of infrastructure/dto/synchronize.dto.ts, and infrastructure/schemas/mappers/
-- cycle.mapper.ts and child-cycle.mapper.ts.
use cleveremote_box.Base.{ℕ, Bool, true, false, Option, none, some, List, [], ◌∷◌, map, ◌>>=◌}
use cleveremote_box.Domain.{
  ExecutableStatus, stopped, CycleType, plain_cycle, manual, scheduled, trigger, ChildCycleConfig,
}
use cleveremote_box.Mapping.Conditions.{
  ConditionSync, ConditionModel, Condition, to_models, condition_to_schema, condition_to_model,
}
use cleveremote_box.Mapping.Json.{
  Field, given, field_or, or_null, object, entry, map_each, Synchronized, Dates, no_dates, Document,
}
use cleveremote_box.Mapping.Schedules.{
  ScheduleDto, TriggerDto, ScheduleModel, TriggerModel, schedule_of_cycle, trigger_of_cycle,
}
use cleveremote_box.Mapping.Sequences.{SequenceSync, SequenceModel, sequence_to_model}
use cleveremote_box.Mapping.Types.{ExecutionMode, sequential, Style, ModePriority}

pub record ChildCycleConfigSync : Type 0 where
  pub order : ℕ
  pub wait_for_completion : Bool
  pub delay_before : ℕ
  pub delay_after : ℕ
  pub is_skipped : Bool

pub record ChildCycleSync : Type 0 where
  pub cycle_id : ℕ
  pub config : Field ChildCycleConfigSync

pub record CycleDto : Type 0 where
  pub id : Field ℕ
  pub type : Field CycleType
  pub name : ℕ
  pub description : Field ℕ
  pub display : Field Bool
  pub style : Field Style
  pub mode_priority : Field (List (Field ModePriority))
  pub sequences : Field (List (Field SequenceSync))
  pub triggers : Field (List (Field TriggerDto))
  pub schedules : Field (List (Field ScheduleDto))
  pub execution_mode : Field ExecutionMode
  pub conditions : Field (List (Field ConditionSync))
  pub parent_cycle_id : Field ℕ
  pub child_cycles : Field (List (Field ChildCycleSync))
  pub delete : Field Bool

-- models/cycle.model.ts
pub record ChildCycleRef : Type 0 where
  pub cycle_id : ℕ
  pub config : ChildCycleConfig

pub record CycleModel : Type 0 where
  pub id : Field ℕ
  pub name : ℕ
  pub type : CycleType
  pub style : Field Style
  pub description : Field ℕ
  pub display : Bool
  pub status : ExecutableStatus
  pub mode_priority : List ModePriority
  pub progression : Option ℕ  -- its duration
  pub sequences : List (Synchronized SequenceModel)
  pub schedules : List (Synchronized ScheduleModel)
  pub triggers : List (Synchronized TriggerModel)
  pub execution_mode : ExecutionMode
  pub conditions : List ConditionModel
  pub parent_cycle_id : Option ℕ
  pub child_cycles : List ChildCycleRef
  pub dates : Dates

-- A child without `config` is a TypeError.
unfoldable pub child_to_model : ChildCycleSync → Option ChildCycleRef
child_to_model c = object c.config >>= λ x. some (record {
  cycle_id = c.cycle_id;
  config = record {
    order = x.order;
    wait_for_completion = x.wait_for_completion;
    delay_before = x.delay_before;
    delay_after = x.delay_after;
    is_skipped = x.is_skipped;
  };
})

abbrev pub default_priorities : List ModePriority
default_priorities =
    record { mode = manual; priority = 0 }
    ∷ record { mode = scheduled; priority = 1 }
    ∷ record { mode = trigger; priority = 2 }
    ∷ []

abbrev pub copied_priority : ModePriority → ModePriority
copied_priority p = record { mode = p.mode; priority = p.priority }

-- `if (modePriority) … else …`
unfoldable pub priorities_of : Field (List (Field ModePriority)) → Option (List ModePriority)
unfolding map_each
priorities_of (given ps) = map_each (entry (λ p. some (copied_priority p))) ps
priorities_of _ = some default_priorities

-- `CycleSynchronizeDTO.mapToCycleModel`
unfoldable pub map_to_cycle_model : CycleDto → Option (Synchronized CycleModel)
unfolding map_each child_to_model sequence_to_model priorities_of schedule_of_cycle trigger_of_cycle
    to_models
map_to_cycle_model c = to_models (field_or [] c.conditions) >>= λ conditions.
    map_each (entry child_to_model) (field_or [] c.child_cycles) >>= λ children.
    priorities_of c.mode_priority >>= λ priorities.
    map_each (entry sequence_to_model) (field_or [] c.sequences) >>= λ sequences.
    map_each (entry trigger_of_cycle) (field_or [] c.triggers) >>= λ triggers.
    map_each (entry (λ s. some (schedule_of_cycle s))) (field_or [] c.schedules) >>= λ schedules.
    some (record {
      model = record {
        id = c.id;
        name = c.name;
        type = field_or plain_cycle c.type;
        style = c.style;
        description = c.description;
        display = field_or true c.display;
        status = stopped;
        mode_priority = priorities;
        progression = none;
        sequences = sequences;
        schedules = schedules;
        triggers = triggers;
        execution_mode = field_or sequential c.execution_mode;
        conditions = conditions;
        parent_cycle_id = or_null c.parent_cycle_id;
        child_cycles = children;
        dates = no_dates;
      };
      delete = field_or false c.delete;
    })

-- `Cycle` of the schema
pub record Cycle : Type 0 where
  pub name : ℕ
  pub type : CycleType
  pub description : Field ℕ
  pub display : Bool
  pub status : ExecutableStatus
  pub style : Field Style
  pub execution_mode : ExecutionMode
  pub conditions : List Condition
  pub mode_priority : List ModePriority
  pub parent_cycle_id : Option ℕ
  pub child_cycles : List ChildCycleRef

-- `ChildCycleMapper`
unfoldable pub child_to_schema : ChildCycleRef → ChildCycleRef
child_to_schema c = record { cycle_id = c.cycle_id; config = c.config }

unfoldable pub child_of_schema : ChildCycleRef → ChildCycleRef
child_of_schema c = record {
  cycle_id = c.cycle_id;
  config = record {
    order = c.config.order;
    wait_for_completion = c.config.wait_for_completion;
    delay_before = c.config.delay_before;
    delay_after = c.config.delay_after;
    is_skipped = c.config.is_skipped;
  };
}

-- `CycleMapper`
unfoldable pub cycle_to_schema : CycleModel → Cycle
unfolding condition_to_schema child_to_schema
cycle_to_schema c = record {
  name = c.name;
  type = c.type;
  description = c.description;
  display = c.display;
  status = c.status;
  style = c.style;
  execution_mode = c.execution_mode;
  conditions = map condition_to_schema c.conditions;
  mode_priority = c.mode_priority;
  parent_cycle_id = c.parent_cycle_id;
  child_cycles = map child_to_schema c.child_cycles;
}

unfoldable pub cycle_to_model : Document Cycle → CycleModel
unfolding condition_to_model child_of_schema
cycle_to_model d = record {
  id = given d.id;
  name = d.fields.name;
  type = d.fields.type;
  style = d.fields.style;
  description = d.fields.description;
  display = d.fields.display;
  status = d.fields.status;
  mode_priority = map copied_priority d.fields.mode_priority;
  progression = none;
  sequences = [];
  schedules = [];
  triggers = [];
  execution_mode = d.fields.execution_mode;
  conditions = map condition_to_model d.fields.conditions;
  parent_cycle_id = d.fields.parent_cycle_id;
  child_cycles = map child_of_schema d.fields.child_cycles;
  dates = d.dates;
}
