-- ===== src/Engine/Tests.antt =====
-- A concrete system, at which the theorems on the engine are applied: a plain cycle with one
-- sequence of one actuator, the module cycle of that actuator, and a group with one child that has
-- a schedule of its own.
use cleveremote_box.Base.{
  Bool, ℕ, ◌+◌, ◌≡◌, refl, true, false, none, some, List, [], ◌∷◌, any, find, filter, all, ◌&&◌,
}
use cleveremote_box.Domain.{
  ExecutableStatus, in_proccess, auto, com_port, SequenceModel, stopped, plain_cycle, CycleType,
  ModuleTimingConfig, module_cycle, ActuatorModel, manual, force, on, off, group_cycle, CycleModel,
  init, get_actuator_ids,
}
use cleveremote_box.Engine.Awaits.{await_progress, await_cycle_progress}
use cleveremote_box.Engine.Calls.{reset}
use cleveremote_box.Engine.Conflicts.{
  Env, modules_of, get_module_ids, conflicts_over, resolve, resolve_actuators, sequences_module_ids,
  is_conflicting, conflicts_from, conflicted,
}
use cleveremote_box.Engine.Execute.{call_within}
use cleveremote_box.Engine.Outcome.{Outcome, thrown, database_error}
use cleveremote_box.Engine.Quiet.Defs.{Quiet}
use cleveremote_box.Engine.State.{
  find_cycle, ProcessModel, State, cycle_is, name_of, index_of, conflicted_with_cycle, GroupStart,
  at_child,
}
use cleveremote_box.Engine.Stopping.{stop_is_Quiet}
use cleveremote_box.Domain.Cycle.{
  union, get_modules, has_actuator, resolved, modules_from, get, exists,
}
use cleveremote_box.Engine.Conflicting.{conflicted-any, is_for}
use cleveremote_box.Engine.Modes.{
  priority_of, winning_type, confirms_schedule, decide, asks_confirmation, first_verdict,
  conditions_gate, arbitrate, Verdict,
}
use cleveremote_box.Engine.Precedence.{decide-force, outranks}

abbrev valve : ActuatorModel
valve = record {
  id = 7;
  name = 70;
  type = com_port;
  device_id = 3;
  actions = record { com_request_id = 8; port_number = 2 } ∷ [];
}

abbrev no_wait : ModuleTimingConfig
no_wait = record {
  wait_before_exec = 0;
  wait_after_exec = 0;
  wait_before_exec_off = 0;
  wait_after_exec_off = 0;
}

abbrev watering : ℕ → SequenceModel
watering id = record {
  id = id;
  status = stopped;
  order = none;
  max_duration = 60;
  progression = none;
  custom_stacks = [];
  module_configs = record { module_id = 7; config_timing = no_wait } ∷ [];
}

abbrev cycle : ℕ → CycleType → ExecutableStatus → List SequenceModel → CycleModel
cycle id type status sequences = record {
  id = id;
  name = 100 + id;
  type = type;
  status = status;
  mode_priority =
      record { mode = manual; priority = 0 } ∷ record { mode = auto; priority = 1 } ∷ [];
  progression = none;
  sequences = sequences;
  parent_cycle_id = none;
  child_cycles = [];
}

abbrev garden : CycleModel
garden = cycle 1 plain_cycle in_proccess (watering 11 ∷ [])

abbrev valve_module : CycleModel
valve_module = cycle 2 module_cycle in_proccess (watering 12 ∷ [])

abbrev group : CycleModel
group = record (cycle 5 group_cycle stopped []) {
  child_cycles = record { cycle_id = 6; config = none } ∷ [];
}

abbrev child : CycleModel
child = record (cycle 6 plain_cycle stopped (watering 16 ∷ [])) { parent_cycle_id = some 5 }

abbrev garden_process : ProcessModel
garden_process = record {
  id = none;
  cycle_id = 1;
  action = on;
  type = force;
  mode = manual;
  instance = some 0;
  duration = none;
  schedule = none;
  source_cycle_id = none;
}

abbrev module_process : ProcessModel
module_process = record garden_process {
  cycle_id = 2;
  mode = auto;
  instance = some 1;
  source_cycle_id = some 1;
}

abbrev child_process : ProcessModel
child_process = record garden_process { cycle_id = 6; instance = none }

abbrev system : State
system = record {
  cycles = garden ∷ valve_module ∷ group ∷ child ∷ [];
  triggers = [];
  schedules = record { timer_id = 20; cycle_id = 6; is_paused = true } ∷ [];
  process_list = garden_process ∷ module_process ∷ [];
  queued_sequences = record { sequence_id = 11; run_id = 0 } ∷ [];
  group_run_tokens = [];
  group_starts_in_progress = [];
  runs = [];
  group_starts = [];
  next_id = 2;
  effects = [];
}

abbrev environment : Env
environment = record {
  actuators = valve ∷ [];
  conditions_verified = λ _. true;
  actuator_fails = λ _ _. false;
  digital_output = λ _. true;
  resolves = λ _. true;
  saves = λ _. true;
  fetches = λ _ _. true;
}

stop_is_Quiet_example : Quiet system (call_within environment 9 (reset garden_process []) system)
stop_is_Quiet_example = stop_is_Quiet environment 9 (reset garden_process []) system tt

abbrev is_rejected : Outcome → Bool
is_rejected (thrown database_error s) = true
is_rejected _ = false

abbrev unsaved : Env
unsaved = record environment { saves = λ _. false }

-- An event that is not saved makes the progression reject.
unsaved_rejects : is_rejected (await_progress unsaved 1 off manual [] none system) ≡ true
unfolding await_progress await_cycle_progress find_cycle find
unsaved_rejects = refl

saved_ends : is_rejected (await_progress environment 1 off manual [] none system) ≡ false
unfolding await_progress await_cycle_progress find_cycle find
saved_ends = refl

-- The child asks for the valve while the garden cycle runs in the mode with the lower priority.
abbrev contended : State
contended = record system { process_list = record garden_process { mode = auto } ∷ [] }

abbrev request_child : ProcessModel
request_child = record child_process { type = init }

abbrev verdict : Verdict
verdict = record {
  type = force;
  causes = record { id = none; type = force; cause = conflicted_with_cycle 101 } ∷ [];
  pushed = false;
}

conflicted-any_example :
    any (is_for 1) (conflicted environment contended request_child)
    ≡ any
        (λ q.
          is_for 1 q
          && any
              (λ a.
                is_conflicting
                  (resolve_actuators environment contended)
                  contended
                  request_child
                  a
                  q)
              (modules_of (resolve_actuators environment contended) contended 6))
        contended.process_list
conflicted-any_example = conflicted-any environment contended request_child 1

decide-force_example :
    (all (outranks contended request_child) (conflicted environment contended request_child) ≡ true)
    × ((environment.conditions_verified 6 ≡ true) × (confirms_schedule request_child ≡ false))
unfolding decide conflicted conflicts_from conflicts_over is_conflicting any modules_of find_cycle
    find get_modules modules_from union has_actuator resolved get get_actuator_ids exists
    resolve_actuators resolve filter get_module_ids sequences_module_ids cycle_is arbitrate
    priority_of winning_type first_verdict conditions_gate asks_confirmation name_of index_of
decide-force_example = decide-force environment contended request_child verdict refl refl refl

-- The group was stopped while its start waited to start the child.
abbrev late_start : GroupStart
late_start = record {
  group_id = 5;
  token = 1;
  phase = at_child;
  refs = record { cycle_id = 6; config = none } ∷ [];
}
