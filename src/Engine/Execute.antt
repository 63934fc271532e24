-- ===== src/Engine/Execute.antt =====
-- execution.service.ts: `execute`, and the knot between `reset`, `execute` and the steps of a run.
use cleveremote_box.Base.{
  ℕ, zero, suc, true, Option, none, some, ◌==◌, if◌then◌else◌, any, find, Bool,
}
use cleveremote_box.Domain.{init, force, queued, confirmation, ignore, skip, is_on, ProcessType}
use cleveremote_box.Engine.State.{State, ProcessModel, cycle_is, QueuedSequence}
use cleveremote_box.Engine.Conflicts.{Env, conflicted}
use cleveremote_box.Engine.Progress.{need_confirmation, remove_ignored}
use cleveremote_box.Engine.Outcome.{
  Outcome, done, thrown, out_of_fuel, ◌>>=◌, structure_invalid, not_implemented, type_error,
}
use cleveremote_box.Engine.Calls.{reset, execute, Caller, reset_body}
use cleveremote_box.Engine.Force.{rule_one, force_on, force_off}
use cleveremote_box.Engine.Runs.{resume, next}
use cleveremote_box.Engine.Modes.{decide, asks_confirmation, listed, first_verdict}

-- `_initializeProcess`; none is the `StructureInvalidError`.
abbrev pub known : State → ℕ → Bool
known s id = cycle_is (λ c. true) s id

unfoldable pub initialize_at : ProcessType → ProcessModel → State → Option ProcessModel
initialize_at skip p s = some (if known s p.cycle_id then p else record p { id = some p.cycle_id })
initialize_at force p s =
    if known s p.cycle_id
    then some p
    else if any (λ q. q.sequence_id == p.cycle_id) s.queued_sequences
    then some (record p { id = some p.cycle_id })
    else none
initialize_at _ p s = if known s p.cycle_id then some p else none

unfoldable pub initialize_process : ProcessModel → State → Option ProcessModel
initialize_process p s = initialize_at p.type p s

-- The run that waits at a sequence, `queuedSequences.find(x => x.sequenceId === process.id)`
unfoldable pub queued_run : State → Option ℕ → Option ℕ
queued_run s none = none
queued_run s (some id) =
    elim (find (λ (q : QueuedSequence). q.sequence_id == id) s.queued_sequences) [
      | none ↦ none
      | some q ↦ some q.run_id
    ]

-- `_manageProcessType` at `FORCE`
unfoldable pub execute_force : Env → Caller → ProcessModel → State → Outcome
execute_force env call p s = elim (queued_run s p.id) [
  | some r ↦ resume env call r s
  | none ↦ rule_one env call p s >>= λ s'.
      if is_on p.action then force_on env call p s' else force_off call p s'
]

-- `_manageProcessMode`: without a confirmation, `_manageProcessType` again at the type decided on
unfoldable pub manage_process_mode : Env → Caller → ProcessModel → State → Outcome
manage_process_mode env call p s = elim (decide env s p) [
  | none ↦ thrown type_error (
      listed (record p { type = confirmation })
        (record (first_verdict s p (conflicted env s p)) { type = confirmation }) s)
  | some v ↦
      if asks_confirmation v
      then done (
          need_confirmation (record p { type = confirmation }) v.causes
            (listed (record p { type = confirmation }) (record v { type = confirmation }) s))
      else (elim v.type [
        | force ↦ execute_force env call (record p { type = force }) (listed p v s)
        | _ ↦ done (listed p v s)
      ])
]

-- `_manageProcessType`
unfoldable pub manage_at : ProcessType → Env → Caller → ProcessModel → State → Outcome
manage_at skip env call p s = elim (queued_run s p.id) [
  | none ↦ thrown type_error s
  | some r ↦ next env call r s
]
manage_at force env call p s = execute_force env call p s
manage_at queued env call p s = thrown not_implemented s
manage_at ignore env call p s = done (remove_ignored p s)
manage_at confirmation env call p s = done s
manage_at init env call p s = manage_process_mode env call p s

unfoldable pub manage_process_type : Env → Caller → ProcessModel → State → Outcome
manage_process_type env call p s = manage_at p.type env call p s

-- `execute`
unfoldable pub execute_body : Env → Caller → ProcessModel → State → Outcome
execute_body env call p s = elim (initialize_process p s) [
  | none ↦ thrown structure_invalid s
  | some p' ↦ manage_process_type env call p' s
]

unfoldable pub call_body : Env → Caller → Caller
call_body env call (reset p causes) s = reset_body env call p causes s
call_body env call (execute p) s = execute_body env call p s

-- The depth of the calls is bounded by the fuel.
unfoldable pub call_within : Env → ℕ → Caller
call_within env zero c s = out_of_fuel
call_within env (suc fuel) c s = call_body env (call_within env fuel) c s
