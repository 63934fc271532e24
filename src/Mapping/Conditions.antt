-- ===== src/Mapping/Conditions.antt =====
-- `ConditionSync` of infrastructure/dto/synchronize.dto.ts and infrastructure/schemas/mappers/
-- condition.mapper.ts.
use cleveremote_box.Base.{ℕ, Option, some, List}
use cleveremote_box.Mapping.Json.{Field, entry, map_each}
use cleveremote_box.Mapping.Types.{
  ElementType, ConditionSymbolStart, ConditionSymbolEnd, ConditionValue,
}

pub record ConditionSync : Type 0 where
  pub name : ℕ
  pub value : ConditionValue
  pub operator : ℕ
  pub element_id : ℕ
  pub element_type : ElementType
  pub order : ℕ
  pub symbol_start : Field ConditionSymbolStart
  pub symbol_end : Field ConditionSymbolEnd

-- `ConditionModel`, and `SynchronizeConditionModel` which adds nothing
pub record ConditionModel : Type 0 where
  pub name : ℕ
  pub element_id : ℕ
  pub element_type : ElementType
  pub operator : ℕ
  pub value : ConditionValue
  pub order : ℕ
  pub symbol_start : Field ConditionSymbolStart
  pub symbol_end : Field ConditionSymbolEnd

-- `Condition` of the schema
pub record Condition : Type 0 where
  pub name : ℕ
  pub element_id : ℕ
  pub element_type : ElementType
  pub operator : ℕ
  pub value : ConditionValue
  pub order : ℕ
  pub symbol_start : Field ConditionSymbolStart
  pub symbol_end : Field ConditionSymbolEnd

unfoldable pub to_model : ConditionSync → ConditionModel
to_model c = record {
  name = c.name;
  element_id = c.element_id;
  element_type = c.element_type;
  operator = c.operator;
  value = c.value;
  order = c.order;
  symbol_start = c.symbol_start;
  symbol_end = c.symbol_end;
}

-- `conditions.map(ConditionSync.toModel)`
unfoldable pub to_models : List (Field ConditionSync) → Option (List ConditionModel)
unfolding map_each to_model
to_models cs = map_each (entry (λ c. some (to_model c))) cs

unfoldable pub condition_to_schema : ConditionModel → Condition
condition_to_schema c = record {
  name = c.name;
  element_id = c.element_id;
  element_type = c.element_type;
  operator = c.operator;
  value = c.value;
  order = c.order;
  symbol_start = c.symbol_start;
  symbol_end = c.symbol_end;
}

unfoldable pub condition_to_model : Condition → ConditionModel
condition_to_model c = record {
  name = c.name;
  element_id = c.element_id;
  element_type = c.element_type;
  operator = c.operator;
  value = c.value;
  order = c.order;
  symbol_start = c.symbol_start;
  symbol_end = c.symbol_end;
}
