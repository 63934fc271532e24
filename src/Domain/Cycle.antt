-- ===== src/Domain/Cycle.antt =====
-- models/cycle.model.ts: the actuators of a cycle and the order in which its sequences run.
-- The registry is the `Map` that `ActuatorService.resolve` builds: the actuators by identifier.
use cleveremote_box.Base.{
  ℕ, Bool, Option, none, some, List, [], ◌∷◌, ◌++◌, map, or_else, ◌==◌, leb, if◌then◌else◌, find,
  any,
}
use cleveremote_box.Domain.Types.{
  ActuatorModel, SequenceModel, CycleModel, SequenceExecutionEntry, get_actuator_ids,
  ModuleTimingConfig, SequenceModuleRef,
}

abbrev pub Registry : Type 0
Registry = List ActuatorModel

-- `registry.get(id)`
unfoldable pub get : Registry → ℕ → Option ActuatorModel
unfolding find
get registry id = find (λ a. a.id == id) registry

-- `.map(registry.get).filter(Boolean)`
unfoldable pub resolved : Registry → List ℕ → List ActuatorModel
unfolding get
resolved registry [] = []
resolved registry (id ∷ ids) = elim (get registry id) [
  | none ↦ resolved registry ids
  | some a ↦ a ∷ resolved registry ids
]

-- Membership in a `Set` of actuators: the objects of the registry are told apart by identifier.
unfoldable pub has_actuator : ActuatorModel → List ActuatorModel → Bool
unfolding any
has_actuator a = any (λ b. b.id == a.id)

-- `[...new Set([...modules, ...more])]`: the first occurrence of each stays, in order.
unfoldable pub union : List ActuatorModel → List ActuatorModel → List ActuatorModel
unfolding has_actuator
union modules [] = modules
union modules (a ∷ more) =
    union (if has_actuator a modules then modules else modules ++ a ∷ []) more

-- `CycleModel.getModules`, one sequence after the other
unfoldable pub modules_from :
    Registry → List ActuatorModel → List SequenceModel → List ActuatorModel
unfolding resolved union get_actuator_ids
modules_from registry modules [] = modules
modules_from registry modules (s ∷ rest) =
    modules_from registry (union modules (resolved registry (get_actuator_ids s))) rest

unfoldable pub get_modules : Registry → CycleModel → List ActuatorModel
unfolding modules_from
get_modules registry c = modules_from registry [] c.sequences

-- `CycleModel.exists`: by name
unfoldable pub exists : Registry → CycleModel → ActuatorModel → Bool
unfolding get_modules any
exists registry c module' = any (λ a. a.name == module'.name) (get_modules registry c)

-- `CycleModel.getModuleTimings`: `Map.set` keeps the last entry for a name.
unfoldable pub set_timing :
    ℕ → ModuleTimingConfig → List (ℕ × ModuleTimingConfig) → List (ℕ × ModuleTimingConfig)
set_timing n t [] = (n, t) ∷ []
set_timing n t ((m, u) ∷ rest) = if m == n then (n, t) ∷ rest else (m, u) ∷ set_timing n t rest

unfoldable pub timings_of_refs :
    Registry
    → List SequenceModuleRef
    → List (ℕ × ModuleTimingConfig)
    → List (ℕ × ModuleTimingConfig)
unfolding get set_timing
timings_of_refs registry [] timings = timings
timings_of_refs registry (ref ∷ refs) timings =
    timings_of_refs registry refs (elim (get registry ref.module_id) [
      | none ↦ timings
      | some a ↦ set_timing a.name ref.config_timing timings
    ])

unfoldable pub timings_from :
    Registry → List SequenceModel → List (ℕ × ModuleTimingConfig) → List (ℕ × ModuleTimingConfig)
unfolding timings_of_refs
timings_from registry [] timings = timings
timings_from registry (s ∷ rest) timings =
    timings_from registry rest (timings_of_refs registry s.module_configs timings)

unfoldable pub get_module_timings : Registry → CycleModel → List (ℕ × ModuleTimingConfig)
unfolding timings_from
get_module_timings registry c = timings_from registry c.sequences []

-- `.sort((a, b) => (a.order ?? 0) - (b.order ?? 0))`: `Array.sort` is stable.
abbrev pub order_of : SequenceModel → ℕ
order_of s = or_else 0 s.order

unfoldable pub insert_by_order : SequenceModel → List SequenceModel → List SequenceModel
insert_by_order s [] = s ∷ []
insert_by_order s (t ∷ ts) =
    if leb (order_of s) (order_of t) then s ∷ t ∷ ts else t ∷ insert_by_order s ts

unfoldable pub sort_by_order : List SequenceModel → List SequenceModel
unfolding insert_by_order
sort_by_order [] = []
sort_by_order (s ∷ ss) = insert_by_order s (sort_by_order ss)

-- `overrideDuration || sequence.securityConfig.maxDuration`: 0 is falsy.
unfoldable pub effective_duration : Option ℕ → ℕ → ℕ
effective_duration none d = d
effective_duration (some o) d = if o == 0 then d else o

unfoldable pub execution_entry : Registry → Option ℕ → SequenceModel → SequenceExecutionEntry
unfolding resolved effective_duration get_actuator_ids
execution_entry registry duration s = record {
  sequence_id = s.id;
  names = map (λ a. a.name) (resolved registry (get_actuator_ids s));
  max_duration = effective_duration duration s.max_duration;
}

-- `CycleModel.getExecutionStructure`: what it returns
unfoldable pub get_execution_structure :
    Registry → Option ℕ → CycleModel → List SequenceExecutionEntry
unfolding execution_entry sort_by_order
get_execution_structure registry duration c =
    map (execution_entry registry duration) (sort_by_order c.sequences)

-- and what it writes: the override stays in `securityConfig.maxDuration` of each sequence.
unfoldable pub with_duration : Option ℕ → SequenceModel → SequenceModel
unfolding effective_duration
with_duration duration s = record s { max_duration = effective_duration duration s.max_duration }

unfoldable pub write_durations : Option ℕ → CycleModel → CycleModel
unfolding with_duration
write_durations duration c = record c { sequences = map (with_duration duration) c.sequences }
