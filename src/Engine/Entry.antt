-- ===== src/Engine/Entry.antt =====
-- execution.service.ts: `resetAllModules`, `testAllModules` and
-- `executeModuleCycleForDigitalOutput`. The cycles of `cycleRepository.get` are those of the
-- structure.
use cleveremote_box.Base.{
  find, filter, any, if◌then◌else◌, ◌==◌, ℕ, Bool, true, false, ◌&&◌, ◌||◌, not, Option, none, some,
  List, [], ◌∷◌,
}
use cleveremote_box.Domain.{
  off, is_com, force, manual, system, SequenceModel, CycleModel, trigger, ActuatorActionConfig,
  is_stopped, is_module, ActuatorModel, on,
}
use cleveremote_box.Domain.Cycle.{get_modules, exists}
use cleveremote_box.Engine.Calls.{execute, Caller}
use cleveremote_box.Engine.Conflicts.{resolve_actuators, is_running, reset_actuators, Env}
use cleveremote_box.Engine.Outcome.{Outcome, for_each, done}
use cleveremote_box.Engine.Progress.{process_progress}
use cleveremote_box.Engine.State.{State, new_process}

-- `_initialReset`
unfoldable pub progress_off_all : List SequenceModel → State → State
progress_off_all [] s = s
progress_off_all (q ∷ qs) s = progress_off_all qs (process_progress q.id off system [] none s)

unfoldable pub initial_reset : Env → CycleModel → State → State
initial_reset env c s =
    process_progress c.id off system [] none
      (progress_off_all c.sequences (reset_actuators (get_modules (resolve_actuators env s) c) s))

unfoldable pub initial_resets : Env → List CycleModel → State → State
initial_resets env [] s = s
initial_resets env (c ∷ cs) s = initial_resets env cs (initial_reset env c s)

unfoldable pub reset_all_modules : Env → State → State
reset_all_modules env s = initial_resets env s.cycles s

unfoldable pub test_all_modules : Caller → State → Outcome
test_all_modules call s =
    for_each (λ c. call (execute (new_process c.id on force manual))) s.cycles s

-- The COM actuators at this port of this device
unfoldable pub first_action : ActuatorModel → Option ActuatorActionConfig
first_action a = elim a.actions [ [] ↦ none | x ∷ _ ↦ some x ]

unfoldable pub at_port : ℕ → ℕ → ActuatorModel → Bool
at_port device channel a =
    is_com a.type
    && (a.device_id == device
        && elim (first_action a) [ none ↦ false | some x ↦ x.port_number == channel ])

unfoldable pub drives_output : Env → ActuatorModel → Bool
drives_output env a = elim (first_action a) [
  | none ↦ false
  | some x ↦ env.digital_output x.com_request_id
]

unfoldable pub owning_module_of : Env → State → List ActuatorModel → Option CycleModel
owning_module_of env s candidates =
    let registry = resolve_actuators env s in
    find (λ c. is_module c.type && any (λ a. exists registry c a) candidates) s.cycles

abbrev pub in_requested_state : Bool → CycleModel → Bool
in_requested_state true c = is_running c
in_requested_state false c = is_stopped c.status

unfoldable pub execute_module_cycle_for_digital_output :
    Env → Caller → ℕ → ℕ → Bool → State → Outcome
execute_module_cycle_for_digital_output env call device channel is_on' s =
    let candidates = filter (at_port device channel) env.actuators in
    elim (owning_module_of env s candidates) [
      | none ↦ done s
      | some c ↦
          if in_requested_state is_on' c || not (any (drives_output env) candidates)
          then done s
          else call (execute (new_process c.id (if is_on' then on else off) force trigger)) s
    ]
