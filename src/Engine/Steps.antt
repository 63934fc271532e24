-- ===== src/Engine/Steps.antt =====
-- Everything that can happen to `ProcessService`: a request, an event of a run, a step of the start
-- of a group. A run of the program is a list of events, in any order.
use cleveremote_box.Base.{find, ◌==◌, if◌then◌else◌, ℕ, Bool, true, false, ◌&&◌, Option, none, some}
use cleveremote_box.Engine.Calls.{Caller, execute}
use cleveremote_box.Engine.Conflicts.{Env}
use cleveremote_box.Engine.Entry.{execute_module_cycle_for_digital_output}
use cleveremote_box.Engine.GroupStarts.{group_step}
use cleveremote_box.Engine.Outcome.{done, Outcome}
use cleveremote_box.Engine.Runs.{checked_run, begin_run, advance_run, find_run}
use cleveremote_box.Engine.State.{
  checking, GroupStart, timed, State, ProcessModel, Run, Phase, awaiting, starting,
}

pub data Event : Type 0 where
  request : ProcessModel → Event
  begun : ℕ → Event
  checked : ℕ → Bool → Event
  elapsed : ℕ → Event
  group_advanced : ℕ → Event
  output_changed : ℕ → ℕ → Bool → Event

abbrev pub is_phase : Phase → Phase → Bool
is_phase starting starting = true
is_phase checking checking = true
is_phase awaiting awaiting = true
is_phase timed timed = true
is_phase _ _ = false

-- An event of a run that is in the phase for it; any other is no event of the program.
unfoldable pub at_run : (Run → Bool) → (Run → State → Outcome) → ℕ → State → Outcome
at_run p f r s = elim (find_run s r) [
  | none ↦ done s
  | some run ↦ if p run then f run s else done s
]

unfoldable pub find_start : State → ℕ → Option GroupStart
find_start s t = find (λ x. x.token == t) s.group_starts

unfoldable pub handle : Env → Caller → Event → State → Outcome
handle env call (request p) s = call (execute p) s
handle env call (begun r) s =
    at_run (λ run. run.subscribed && is_phase run.phase starting) (begin_run env call) r s
handle env call (checked r verified) s =
    at_run (λ run. is_phase run.phase checking) (checked_run env call verified) r s
handle env call (elapsed r) s = at_run (λ run. is_phase run.phase timed) (advance_run env call) r s
handle env call (group_advanced t) s = elim (find_start s t) [
  | none ↦ done s
  | some g ↦ group_step call g s
]
handle env call (output_changed device channel value) s =
    execute_module_cycle_for_digital_output env call device channel value s
