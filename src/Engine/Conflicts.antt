-- ===== src/Engine/Conflicts.antt =====
-- execution.service.ts: which processes share an actuator, and which children a group has.
-- `_isActuatorStillInUse`, the filters of `_releaseAutoStartedModules`,
-- `_cascadeStopConflictingCycles` and `_cascadeStopOwningModules`, `_getConflictedExecutables`,
-- `_getOrderedChildRefs`; and actuator.service.ts: `resolve` and `reset`.
use cleveremote_box.Base.{
  ℕ, Bool, true, false, none, some, List, [], ◌∷◌, ◌++◌, ◌==◌, ◌&&◌, ◌||◌, not, leb, if◌then◌else◌,
  filter, any, all, is_id,
}
use cleveremote_box.Domain.{
  ProcessMode, auto, is_on, is_in_proccess, is_stopped, is_module, is_plain, is_confirmation,
  is_com_or_rpi, same_mode, ActuatorModel, CycleModel, ChildCycleRef, system, get_actuator_ids,
  SequenceModel,
}
use cleveremote_box.Domain.Cycle.{Registry, get_modules, exists}
use cleveremote_box.Engine.State.{State, ProcessModel, actuated, log, find_cycle, cycle_is}

-- What the service reads of the database and of the other services: the actuators
-- (`actuatorRepository`), whether `evaluateConditions` accepts the conditions of a cycle,
-- whether the strategy of an actuator throws at a value, and whether the calls of the database that a stop awaits
-- succeed: `_resolveActuators`, `eventRepository.save`, and `comRequestRepository.get` of a request.
pub record Env : Type 0 where
  pub actuators : List ActuatorModel
  pub conditions_verified : ℕ → Bool
  pub actuator_fails : ActuatorModel → ℕ → Bool
  pub digital_output : ℕ → Bool
  pub resolves : State → Bool
  pub saves : State → Bool
  pub fetches : ℕ → State → Bool

unfoldable pub sequences_module_ids : List SequenceModel → List ℕ
unfolding get_actuator_ids
sequences_module_ids [] = []
sequences_module_ids (q ∷ qs) = get_actuator_ids q ++ sequences_module_ids qs

-- `StructureModel.getModuleIds`
unfoldable pub get_module_ids : List CycleModel → List ℕ
get_module_ids [] = []
get_module_ids (c ∷ cs) = sequences_module_ids c.sequences ++ get_module_ids cs

-- `ActuatorService.resolve`
unfoldable pub resolve : Env → List ℕ → Registry
unfolding filter any
resolve env ids = filter (λ a. any (λ i. i == a.id) ids) env.actuators

-- `_resolveActuators`
unfoldable pub resolve_actuators : Env → State → Registry
resolve_actuators env s = resolve env (get_module_ids s.cycles)

-- `ActuatorService.reset`: an error of one actuator does not keep the next from being switched.
unfoldable pub reset_actuators : List ActuatorModel → State → State
unfolding log
reset_actuators [] s = s
reset_actuators (a ∷ rest) s = reset_actuators rest (log (actuated a.id 0) s)

abbrev pub is_running : CycleModel → Bool
is_running c = is_in_proccess c.status

-- `_isActuatorStillInUse`
unfoldable pub still_in_use : Registry → State → ℕ → ActuatorModel → Bool
unfolding any
still_in_use registry s excluded a =
    any
      (λ proc.
        not (proc.cycle_id == excluded)
        && cycle_is (λ c. is_running c && exists registry c a) s proc.cycle_id)
      s.process_list

-- The actuators that `reset` switches off.
unfoldable pub modules_to_stop :
    Registry → State → ProcessMode → ℕ → List ActuatorModel → List ActuatorModel
unfolding filter
modules_to_stop registry s mode id =
    filter (λ a. same_mode mode system || not (still_in_use registry s id a))

-- `process.cycle.getModules(actuators)`
unfoldable pub modules_of : Registry → State → ℕ → List ActuatorModel
modules_of registry s id = elim (find_cycle s id) [ none ↦ [] | some c ↦ get_modules registry c ]

-- The module cycles that run only because this cycle started them.
unfoldable pub auto_started : State → ℕ → List ProcessModel
unfolding filter
auto_started s source =
    filter
      (λ proc.
        cycle_is (λ c. is_module c.type && is_running c) s proc.cycle_id
        && (same_mode proc.mode auto && is_id proc.source_cycle_id source))
      s.process_list

-- One entry of the process list conflicts over one actuator.
unfoldable pub is_conflicting :
    Registry → State → ProcessModel → ActuatorModel → ProcessModel → Bool
is_conflicting registry s p a proc =
    not (proc.cycle_id == p.cycle_id)
    && (not (is_confirmation p.type)
        && (not (is_confirmation proc.type)
            && (cycle_is (λ c. not (is_module c.type) && exists registry c a) s proc.cycle_id
                && is_on p.action)))

-- The inner loop of `_getConflictedExecutables`, over the process list
unfoldable pub conflicts_over :
    Registry
    → State
    → ProcessModel
    → ActuatorModel
    → List ProcessModel
    → List ProcessModel
    → List ProcessModel
unfolding any
conflicts_over registry s p a [] found = found
conflicts_over registry s p a (proc ∷ rest) found = conflicts_over registry s p a rest (
    if is_conflicting registry s p a proc && not (any (λ x. x.cycle_id == proc.cycle_id) found)
    then found ++ proc ∷ []
    else found)

-- and the outer one, over the actuators of the cycle
unfoldable pub conflicts_from :
    Registry → State → ProcessModel → List ActuatorModel → List ProcessModel → List ProcessModel
conflicts_from registry s p [] found = found
conflicts_from registry s p (a ∷ rest) found =
    conflicts_from registry s p rest (conflicts_over registry s p a s.process_list found)

-- `_getConflictedExecutables`
unfoldable pub conflicted : Env → State → ProcessModel → List ProcessModel
conflicted env s p =
    let registry = resolve_actuators env s in
    conflicts_from registry s p (modules_of registry s p.cycle_id) []

-- The COM and RPI actuators of a cycle
unfoldable pub switched_modules : Registry → State → ℕ → List ActuatorModel
unfolding filter
switched_modules registry s id = filter (λ a. is_com_or_rpi a.type) (modules_of registry s id)

abbrev pub shares : Registry → List ActuatorModel → CycleModel → Bool
shares registry actuators c = any (λ a. exists registry c a) actuators

-- The processes that `_cascadeStopConflictingCycles` stops: none without a COM or RPI actuator.
unfoldable pub conflicting_cycles : Env → State → ProcessModel → List ProcessModel
unfolding filter any
conflicting_cycles env s p =
    let registry = resolve_actuators env s in
    let actuators = switched_modules registry s p.cycle_id in
    filter
      (λ proc.
        cycle_is (λ c. is_plain c.type && shares registry actuators c) s proc.cycle_id
        && not (is_id p.source_cycle_id proc.cycle_id))
      s.process_list

-- The processes that `_cascadeStopOwningModules` stops.
unfoldable pub owning_modules : Env → State → ProcessModel → List ProcessModel
unfolding filter any
owning_modules env s p =
    let registry = resolve_actuators env s in
    let actuators = switched_modules registry s p.cycle_id in
    filter (λ proc. cycle_is (λ c. is_module c.type && shares registry actuators c) s proc.cycle_id)
      s.process_list

-- `_getOrderedChildRefs`: a stable sort by `config?.order ?? 0`
unfoldable pub ref_order : ChildCycleRef → ℕ
ref_order ref = elim ref.config [ none ↦ 0 | some c ↦ c.order ]

unfoldable pub is_skipped : ChildCycleRef → Bool
is_skipped ref = elim ref.config [ none ↦ false | some c ↦ c.is_skipped ]

unfoldable pub insert_ref : ChildCycleRef → List ChildCycleRef → List ChildCycleRef
unfolding ref_order
insert_ref r [] = r ∷ []
insert_ref r (t ∷ ts) = if leb (ref_order r) (ref_order t) then r ∷ t ∷ ts else t ∷ insert_ref r ts

unfoldable pub ordered_child_refs : List ChildCycleRef → List ChildCycleRef
ordered_child_refs [] = []
ordered_child_refs (r ∷ rs) = insert_ref r (ordered_child_refs rs)

unfoldable pub children_of : State → ℕ → List ChildCycleRef
children_of s id = elim (find_cycle s id) [ none ↦ [] | some c ↦ ordered_child_refs c.child_cycles ]

-- A child that no longer exists counts as stopped.
unfoldable pub child_stopped : State → ChildCycleRef → Bool
child_stopped s ref =
    is_skipped ref
    || elim (find_cycle s ref.cycle_id) [ none ↦ true | some c ↦ is_stopped c.status ]

unfoldable pub every_child_stopped : State → ℕ → Bool
unfolding all
every_child_stopped s id = all (child_stopped s) (children_of s id)
