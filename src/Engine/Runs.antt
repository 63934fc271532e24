-- ===== src/Engine/Runs.antt =====
-- execution.service.ts: a cycle that runs. `_executeWithActuators`, `_createExecObs`,
-- `_switchProcess`, `_switchModule` and `_triggerOwningModuleCycle`. Each function is what happens at
-- one event of a run: its actuators are resolved, its condition is known, it is resumed, its flag is
-- raised by the timer or by a skip.
use cleveremote_box.Base.{
  ℕ, Bool, Option, none, some, List, [], ◌∷◌, ◌++◌, ◌==◌, ◌&&◌, not, if◌then◌else◌, filter, find,
}
use cleveremote_box.Domain.{
  ExecutableAction, on, off, is_on, auto, force, is_group, is_module, CycleModel, ActuatorModel,
  is_com_or_rpi, SequenceExecutionEntry,
}
use cleveremote_box.Domain.Cycle.{
  exists, Registry, get_execution_structure, write_durations, get_modules,
}
use cleveremote_box.Engine.State.{
  State, ProcessModel, Run, QueuedSequence, modify, find_cycle, update_cycle, cycle_is, name_of,
  push, new_process, Phase, log, timed, actuated, awaiting, checking, abnormal_stop, end_lifecycle,
}
use cleveremote_box.Engine.Progress.{process_progress, need_sequence_confirmation, unqueue}
use cleveremote_box.Engine.Conflicts.{Env, resolve_actuators, is_running}
use cleveremote_box.Engine.Outcome.{Outcome, done, ◌>>=◌, for_each, caught}
use cleveremote_box.Engine.Calls.{reset, execute, Caller, report}
use cleveremote_box.Engine.Force.{manual_push_report}

unfoldable pub find_run : State → ℕ → Option Run
find_run s r = find (λ x. x.run_id == r) s.runs

unfoldable pub update_run : ℕ → (Run → Run) → State → State
update_run r f s = record s { runs = modify (λ x. x.run_id == r) f s.runs }

unfoldable pub remove_run : ℕ → State → State
remove_run r s = record s { runs = filter (λ x. not (x.run_id == r)) s.runs }

unfoldable pub in_phase : Phase → Run → Run
in_phase ph run = record run { phase = ph }

-- `_triggerOwningModuleCycle`
unfoldable pub owning_cycle : Registry → State → ActuatorModel → Option CycleModel
owning_cycle registry s a = find (λ c. is_module c.type && exists registry c a) s.cycles

unfoldable pub action_of : ℕ → ExecutableAction
action_of n = if n == 1 then on else off

unfoldable pub trigger_owning_module : Env → Caller → ActuatorModel → ℕ → Option ℕ → State → Outcome
trigger_owning_module env call a action source s = elim source [
  | none ↦ done s
  | some src ↦
      if is_com_or_rpi a.type
      then (elim (owning_cycle (resolve_actuators env s) s a) [
        | none ↦ done s
        | some c ↦
            call
              (execute (record (new_process c.id (action_of action) force auto) {
                source_cycle_id = some src;
              }))
              s
      ])
      else done s
]

-- `sourceCycleId` of `_executeWithActuators`
unfoldable pub source_of : State → ℕ → Option ℕ
source_of s id = if cycle_is (λ c. not (is_group c.type)) s id then some id else none

-- `_switchModule`, one name: an error of the actuator or of the module cycle is logged.
unfoldable pub switch_name : Env → Caller → List ActuatorModel → ℕ → Option ℕ → ℕ → State → Outcome
switch_name env call modules action source name s = elim (find (λ a. a.name == name) modules) [
  | none ↦ done s
  | some a ↦ caught (trigger_owning_module env call a action source (log (actuated a.id action) s))
]

unfoldable pub switch_module :
    Env → Caller → List ActuatorModel → ℕ → Option ℕ → List ℕ → State → Outcome
switch_module env call modules action source names =
    for_each (switch_name env call modules action source) names

-- `_switchProcess`: the sequence before is switched off, then this one on.
unfoldable pub switch_entry :
    Env → Caller → Run → ExecutableAction → Option SequenceExecutionEntry → State → Outcome
switch_entry env call run action none s = done s
switch_entry env call run action (some e) s =
    switch_module env call run.modules (if is_on action then 1 else 0)
      (source_of s run.process.cycle_id) e.names s
    >>= λ s'. done (
        process_progress e.sequence_id action run.process.mode []
          (if is_on action then some e.max_duration else none) s')

-- `ref.resume`: nothing once the cycle is stopped.
unfoldable pub resume_run : Env → Caller → Run → State → Outcome
resume_run env call run s =
    if cycle_is is_running s run.process.cycle_id
    then (switch_entry env call run off run.previous s
        >>= (λ s'. switch_entry env call run on run.current s')
        >>= λ s'. done (update_run run.run_id (in_phase timed) s'))
    else done s

unfoldable pub resume : Env → Caller → ℕ → State → Outcome
resume env call r s = elim (find_run s r) [ none ↦ done s | some run ↦ resume_run env call run s ]

-- `_checkSequenceCondition(...).then(...)`: also for a run that is no longer subscribed
unfoldable pub checked_run : Env → Caller → Bool → Run → State → Outcome
checked_run env call verified run s =
    if cycle_is is_running s run.process.cycle_id
    then (if verified
        then resume_run env call run s
        else done (
            update_run run.run_id (in_phase awaiting) (elim run.current [
              | none ↦ s
              | some e ↦ need_sequence_confirmation e.sequence_id run.process.mode s
            ])))
    else done (update_run run.run_id (in_phase awaiting) s)

-- A sequence is entered: its entry replaces that of the sequence before in `queuedSequences`.
unfoldable pub entered :
    Option SequenceExecutionEntry → SequenceExecutionEntry → List SequenceExecutionEntry → Run → Run
entered previous e rest run = record run {
  phase = checking;
  previous = previous;
  current = some e;
  remaining = rest;
}

unfoldable pub unqueue_entry :
    Option SequenceExecutionEntry → List QueuedSequence → List QueuedSequence
unqueue_entry none queue = queue
unqueue_entry (some e) queue = unqueue e.sequence_id queue

unfoldable pub enter_sequence :
    ℕ
    → Option SequenceExecutionEntry
    → SequenceExecutionEntry
    → List SequenceExecutionEntry
    → State
    → State
enter_sequence r previous e rest s = update_run r (entered previous e rest) (record s {
  queued_sequences =
      unqueue_entry previous s.queued_sequences
      ++ record { sequence_id = e.sequence_id; run_id = r } ∷ [];
})

-- The run begins, once the actuators are resolved.
unfoldable pub with_modules : List ActuatorModel → Run → Run
with_modules modules run = record run { modules = modules }

unfoldable pub announce : ProcessModel → State → State
announce p s =
    if cycle_is is_running s p.cycle_id
    then process_progress p.cycle_id on p.mode (manual_push_report p s) none (push p s)
    else s

unfoldable pub begin_entries : Caller → Run → List SequenceExecutionEntry → State → Outcome
begin_entries call run [] s =
    call
      (reset run.process
        (report run.process run.process.type (abnormal_stop (name_of s run.process.cycle_id))))
      (remove_run run.run_id s)
begin_entries call run (e ∷ rest) s = done (enter_sequence run.run_id none e rest s)

unfoldable pub begin_run : Env → Caller → Run → State → Outcome
begin_run env call run s = elim (find_cycle s run.process.cycle_id) [
  | none ↦ done (remove_run run.run_id s)
  | some c ↦
      let registry = resolve_actuators env s in
      begin_entries call run (get_execution_structure registry run.process.duration c) (
        announce run.process (
          update_run run.run_id (with_modules (get_modules registry c))
            (update_cycle c.id (write_durations run.process.duration) s)))
]

-- The last `tap`: an actuator that throws ends the loop.
unfoldable pub final_names : Env → Caller → List ActuatorModel → Option ℕ → List ℕ → State → Outcome
final_names env call modules source [] s = done s
final_names env call modules source (name ∷ names) s = elim (find (λ a. a.name == name) modules) [
  | none ↦ done s
  | some a ↦
      let s' = log (actuated a.id 0) s in
      let rest =
        caught (trigger_owning_module env call a 0 source s')
        >>= final_names env call modules source names in
      if env.actuator_fails a 0 then done s' else rest
]

-- The end of the last sequence, and `next` of the subscription
unfoldable pub finish_run : Env → Caller → Run → SequenceExecutionEntry → State → Outcome
finish_run env call run e s =
    final_names env call run.modules (source_of s run.process.cycle_id) e.names s >>= λ s'.
    let ended =
      process_progress e.sequence_id off run.process.mode [] none
        (record s' { queued_sequences = unqueue e.sequence_id s'.queued_sequences }) in
    call
      (reset run.process
        (report run.process run.process.type (end_lifecycle (name_of ended run.process.cycle_id))))
      (remove_run run.run_id ended)

-- `flag.next`: the sequence is over. A run that is not subscribed does not see it.
unfoldable pub advance_run : Env → Caller → Run → State → Outcome
advance_run env call run s =
    if run.subscribed
    then (elim run.current [
      | none ↦ done s
      | some e ↦ elim run.remaining [
        | [] ↦ finish_run env call run e s
        | e' ∷ rest ↦ done (enter_sequence run.run_id (some e) e' rest s)
      ]
    ])
    else done s

unfoldable pub next : Env → Caller → ℕ → State → Outcome
next env call r s = elim (find_run s r) [ none ↦ done s | some run ↦ advance_run env call run s ]
