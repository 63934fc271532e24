-- ===== src/Engine/Awaits.antt =====
-- execution.service.ts: `_processProgress` and `_publishStatusEvent` where the database may reject. What was
-- assigned before the rejection stays; an event that is not saved is not sent either.
use cleveremote_box.Base.{ℕ, Bool, true, false, Option, none, some, List, [], ◌∷◌}
use cleveremote_box.Domain.{ExecutableAction, ProcessMode, SequenceModel, CycleModel}
use cleveremote_box.Engine.Conflicts.{Env}
use cleveremote_box.Engine.Outcome.{Outcome, done, thrown, database_error, ◌>>=◌}
use cleveremote_box.Engine.Progress.{
  publish, status_of_action, total_duration, progressed_cycle, progressed_sequence,
}
use cleveremote_box.Engine.State.{
  State, ProcessReport, cycle_element, sequence_element, com_executed, value_changed, log,
  find_cycle, update_cycle, find_sequence, update_sequence,
}

-- An awaited call that succeeds or rejects
abbrev pub awaited : Bool → State → (State → Outcome) → Outcome
awaited true s k = k s
awaited false s k = thrown database_error s

-- `await this.comRequestRepository.get(customStack.comRequestId)`, then the request, for each custom stack
unfoldable pub await_stacks : Env → ExecutableAction → List ℕ → State → Outcome
unfolding log
await_stacks env action [] s = done s
await_stacks env action (i ∷ is) s =
    awaited (env.fetches i s) s (λ t. await_stacks env action is (log (com_executed i action) t))

unfoldable pub await_cycle_progress :
    Env → CycleModel → ExecutableAction → ProcessMode → ProcessReport → State → Outcome
unfolding log publish
await_cycle_progress env c action mode causes s =
    let changed =
      log (value_changed c.id (status_of_action action))
        (update_cycle c.id (progressed_cycle action) s) in
    awaited (env.saves changed) changed (λ t. done (
      publish cycle_element c.id mode (status_of_action action) (some (total_duration c.sequences))
        causes t))

unfoldable pub await_sequence_progress :
    Env
    → SequenceModel
    → ExecutableAction
    → ProcessMode
    → ProcessReport
    → Option ℕ
    → State
    → Outcome
unfolding publish await_stacks
await_sequence_progress env q action mode causes duration s =
    await_stacks env action q.custom_stacks s >>= λ t.
    let changed = update_sequence q.id (progressed_sequence action duration) t in
    awaited (env.saves changed) changed
      (λ u. done (publish sequence_element q.id mode (status_of_action action) duration causes u))

-- `_processProgress`
unfoldable pub await_progress :
    Env → ℕ → ExecutableAction → ProcessMode → ProcessReport → Option ℕ → State → Outcome
await_progress env id action mode causes duration s = elim (find_cycle s id) [
  | some c ↦ await_cycle_progress env c action mode causes s
  | none ↦ elim (find_sequence s id) [
    | none ↦ done s
    | some q ↦ await_sequence_progress env q action mode causes duration s
  ]
]
