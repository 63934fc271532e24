-- ===== src/Mapping/Saved.antt =====
-- infrastructure/dto/synchronize.dto.ts and infrastructure/schemas/mappers: what a payload sets, once it is
-- saved and read again.
use cleveremote_box.Base.{◌≡◌, ap, ◌∙◌, sym, some, [], map, arith, bind-some, none, ℕ}
use cleveremote_box.Mapping.Cycles.{CycleModel, Cycle, cycle_to_schema, cycle_to_model}
use cleveremote_box.Mapping.Json.{given, Document, Synchronized, object, field_or}
use cleveremote_box.Mapping.Kept.{
  config_kept, security_kept, modules_kept, children_kept, conditions_kept, with_waits,
  priorities_kept,
}
use cleveremote_box.Mapping.Requests.{
  ComRequestDto, ComRequestModel, ComRequest, map_to_com_request_model, request_to_schema,
  request_to_model, config_to_model, map_com_request_config_to_schema,
}
use cleveremote_box.Mapping.Sequences.{
  SequenceSync, SequenceModel, sequence_to_model, security_to_model, modules_to_model, for_cycle,
}
use cleveremote_box.Mapping.SequenceDocuments.{
  Sequence, sequence_to_schema, sequence_of_schema, security_to_schema,
}

-- A request of a payload is read as the model that was synchronized, with its identifier and dates.
pub request_kept :
    (dto : ComRequestDto) (m : Synchronized ComRequestModel) (d : Document ComRequest)
    → map_to_com_request_model dto ≡ some m
    → request_to_schema m.model ≡ some d.fields
    → request_to_model d ≡ record m.model { id = given d.id; dates = d.dates }
unfolding map_to_com_request_model request_to_schema request_to_model
request_kept dto m d p q =
    let (c, (e, k)) = bind-some (object dto.config) _ p in
    let (saved, (e', k')) = bind-some (map_com_request_config_to_schema m.model.config) _ q in
    let of_payload : config_to_model c ≡ m.model.config = ground (arith, k) in
    let kept =
      config_kept c saved (ap map_com_request_config_to_schema of_payload ∙ e') ∙ of_payload in
    ground (arith, kept)

-- A sequence of a payload that is saved for a cycle, with its conditions, custom stacks and modules, is read as
-- the model it was mapped to, with that cycle, the identifier and the dates of its document, no progression, and
-- 0 for the waits that were not given.
pub sequence_kept :
    (cycle_id : ℕ) (s : SequenceSync) (m : Synchronized SequenceModel) (d : Document Sequence)
    → sequence_to_model s ≡ some m
    → sequence_to_schema (for_cycle cycle_id m.model) ≡ some d.fields
    → sequence_of_schema d ≡ record m.model {
      id = given d.id;
      cycle_id = some cycle_id;
      progression = none;
      module_configs = map with_waits m.model.module_configs;
      dates = d.dates;
    }
unfolding sequence_to_model sequence_to_schema sequence_of_schema for_cycle
sequence_kept cycle_id s m d p q =
    let (c, (e, k)) = bind-some (object s.security_config) _ p in
    let (security, (f, k')) = bind-some (security_to_model c) _ k in
    let (modules, (j, l)) = bind-some (modules_to_model (field_or [] s.module_configs)) _ k' in
    let (saved, (g, k'')) = bind-some (security_to_schema m.model.security_config) _ q in
    let of_payload : security ≡ m.model.security_config = ground (arith, l) in
    let kept = security_kept c m.model.security_config saved (f ∙ ap some of_payload) g in
    ground (arith, kept, modules_kept m.model.module_configs)

-- A cycle whose fields are saved is read as it was, but for its identifier and dates, which are those of its
-- document, its sequences, schedules and triggers, which are documents of their own, and its progression, which
-- is not saved.
pub cycle_kept :
    (m : CycleModel) (d : Document Cycle)
    → cycle_to_schema m ≡ d.fields
    → cycle_to_model d ≡ record m {
      id = given d.id;
      progression = none;
      sequences = [];
      schedules = [];
      triggers = [];
      dates = d.dates;
    }
unfolding cycle_to_schema cycle_to_model
cycle_kept m d h =
    ap (λ f. cycle_to_model (record d { fields = f })) (sym h)
    ∙ rw (
      conditions_kept m.conditions,
      children_kept m.child_cycles,
      priorities_kept m.mode_priority,
    )
