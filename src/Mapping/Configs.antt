-- ===== src/Mapping/Configs.antt =====
-- infrastructure/schemas/mappers/actuator.mapper.ts, sensor.mapper.ts and device.mapper.ts: the
-- ports of the actions of a configuration that is saved and read.
use cleveremote_box.Base.{◌≡◌, refl, ap, ◌∙◌, Bool, true, false, List, [], ◌∷◌, map, ℕ, subst}
use cleveremote_box.Domain.{ActuatorType, rpi, com_port, ctrl}
use cleveremote_box.Mapping.Actuators.{
  ActuatorConfig, ActuatorAction, ActuatorDto, map_to_actuator_model, empty_config, new_config,
  assign, over,
}
use cleveremote_box.Mapping.ActuatorDocuments.{
  Actuator, config_to_schema, config_to_model, copied_action, copied_actions, actuator_to_schema,
  actuator_to_model,
}
use cleveremote_box.Mapping.Json.{Field, undefined, null, given, field_or, Document}

abbrev pub is_com_or_ctrl : ActuatorType → Bool
is_com_or_ctrl rpi = false
is_com_or_ctrl _ = true

-- The ports of the actions, by the name that the models use
abbrev pub ports : Field (List ActuatorAction) → List (Field ℕ)
ports as' = map (λ a. a.port_number) (field_or [] as')

ports-copied :
    (as' : List ActuatorAction)
    → map (λ a. a.port_number) (map copied_action as') ≡ map (λ a. a.port_number) as'
ports-copied [] = refl
ports-copied (a ∷ as') = ap (λ ps. a.port_number ∷ ps) (ports-copied as')

config-ports :
    (t : ActuatorType) (c : ActuatorConfig)
    → is_com_or_ctrl t ≡ true
    → ports (config_to_model t (config_to_schema t c)).actions ≡ ports c.actions
unfolding config_to_model config_to_schema copied_actions
config-ports rpi c h = absurd (cc)
config-ports com_port c h = ports-copied (field_or [] c.actions)
config-ports ctrl c h = ports-copied (field_or [] c.actions)

over_undefined : {A : Type 0} (x : Field A) → over undefined x ≡ x
over_undefined undefined = refl
over_undefined null = refl
over_undefined (given a) = refl

over-actions :
    (t : ActuatorType) (c : ActuatorConfig) → (assign (new_config t) c).actions ≡ c.actions
unfolding assign
over-actions rpi c = over_undefined c.actions
over-actions com_port c = over_undefined c.actions
over-actions ctrl c = over_undefined c.actions

-- The ports of the actions of a synchronized actuator that is not RPI are read, once it is saved, as the
-- `portNumber`s of the payload, whatever it gives as `digitalPort`.
pub actuator_to_model-ports :
    (dto : ActuatorDto) (d : Document Actuator)
    → is_com_or_ctrl dto.type ≡ true
    → actuator_to_schema (map_to_actuator_model dto).model ≡ d.fields
    → ports (actuator_to_model d).config.actions ≡ ports (field_or empty_config dto.config).actions
unfolding actuator_to_schema actuator_to_model map_to_actuator_model
actuator_to_model-ports dto d t h =
    subst
      (λ f.
        ports (actuator_to_model (record d { fields = f })).config.actions
        ≡ ports (field_or empty_config dto.config).actions)
      h
      (config-ports dto.type (assign (new_config dto.type) (field_or empty_config dto.config)) t
        ∙ ap ports (over-actions dto.type (field_or empty_config dto.config)))
