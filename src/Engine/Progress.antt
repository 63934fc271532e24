-- ===== src/Engine/Progress.antt =====
-- execution.service.ts: `_publishStatusEvent`, `_processProgress`, `_needConfirmation`,
-- `_needSequenceConfirmation`, `_removeIgnoredProcess` and `_clearQueuedSequences`.
use cleveremote_box.Base.{ℕ, ◌+◌, Option, none, some, List, [], ◌∷◌, ◌==◌, if◌then◌else◌}
use cleveremote_box.Domain.{
  ExecutableStatus, in_proccess, stopped, waitting_confirmation, ExecutableAction, on, off, is_on,
  ProcessMode, confirmation, SequenceModel, CycleModel,
}
use cleveremote_box.Engine.State.{
  State, ProcessModel, ProcessReport, cycle_element, sequence_element, ElementType, com_executed,
  published, value_changed, security_condition, QueuedSequence, log, find_cycle, update_cycle,
  find_sequence, update_sequence, sequences_of, set_status, index_of, splice,
}

unfoldable pub status_of_action : ExecutableAction → ExecutableStatus
status_of_action on = in_proccess
status_of_action off = stopped

-- `Number(maxDuration)` summed over the sequences
unfoldable pub total_duration : List SequenceModel → ℕ
total_duration [] = 0
total_duration (q ∷ qs) = q.max_duration + total_duration qs

-- What `_processProgress` sets on a cycle; `startedAt` of the progression is left out.
unfoldable pub progressed_cycle : ExecutableAction → CycleModel → CycleModel
progressed_cycle action c = record c {
  status = status_of_action action;
  progression = if is_on action then some (total_duration c.sequences) else none;
}

unfoldable pub progressed_sequence : ExecutableAction → Option ℕ → SequenceModel → SequenceModel
progressed_sequence action duration q = record q {
  status = status_of_action action;
  progression = if is_on action then duration else none;
}

-- `modBusService.execute` for each custom stack of a sequence
unfoldable pub run_stacks : ExecutableAction → List ℕ → State → State
unfolding log
run_stacks action [] s = s
run_stacks action (i ∷ is) s = run_stacks action is (log (com_executed i action) s)

unfoldable pub publish :
    ElementType → ℕ → ProcessMode → ExecutableStatus → Option ℕ → ProcessReport → State → State
unfolding log
publish type id mode status duration causes = log (
    published (record {
      element_id = id;
      element_type = type;
      mode = mode;
      status = status;
      duration = duration;
      causes = causes;
    }))

unfoldable pub cycle_progress :
    CycleModel → ExecutableAction → ProcessMode → ProcessReport → State → State
unfolding log publish
cycle_progress c action mode causes s =
    publish cycle_element c.id mode (status_of_action action) (some (total_duration c.sequences))
      causes
      (log (value_changed c.id (status_of_action action))
        (update_cycle c.id (progressed_cycle action) s))

unfoldable pub sequence_progress :
    SequenceModel → ExecutableAction → ProcessMode → ProcessReport → Option ℕ → State → State
unfolding publish
sequence_progress q action mode causes duration s =
    publish sequence_element q.id mode (status_of_action action) duration causes (
      update_sequence q.id (progressed_sequence action duration)
        (run_stacks action q.custom_stacks s))

-- `_processProgress`: a cycle is preferred to a sequence of the same identifier.
unfoldable pub process_progress :
    ℕ → ExecutableAction → ProcessMode → ProcessReport → Option ℕ → State → State
process_progress id action mode causes duration s = elim (find_cycle s id) [
  | some c ↦ cycle_progress c action mode causes s
  | none ↦ elim (find_sequence s id) [
    | none ↦ s
    | some q ↦ sequence_progress q action mode causes duration s
  ]
]

-- `_needConfirmation`
unfoldable pub need_confirmation : ProcessModel → ProcessReport → State → State
unfolding publish
need_confirmation p causes s =
    publish cycle_element p.cycle_id p.mode waitting_confirmation none causes
      (update_cycle p.cycle_id (set_status waitting_confirmation) s)

unfoldable pub awaiting_sequence : SequenceModel → SequenceModel
awaiting_sequence q = record q { status = waitting_confirmation }

-- `_needSequenceConfirmation`
unfoldable pub need_sequence_confirmation : ℕ → ProcessMode → State → State
unfolding publish
need_sequence_confirmation id mode s =
    publish sequence_element id mode waitting_confirmation none
      (record { id = some id; type = confirmation; cause = security_condition id } ∷ [])
      (update_sequence id awaiting_sequence s)

-- `_removeIgnoredProcess`
unfoldable pub remove_ignored : ProcessModel → State → State
unfolding publish
remove_ignored p s =
    publish cycle_element p.cycle_id p.mode stopped none [] (splice (index_of s p.cycle_id) s)

-- `queuedSequences.splice(findIndex(sequenceId === id), 1)`
unfoldable pub unqueue : ℕ → List QueuedSequence → List QueuedSequence
unqueue id [] = []
unqueue id (e ∷ es) = if e.sequence_id == id then es else e ∷ unqueue id es

unfoldable pub unqueue_all : List SequenceModel → List QueuedSequence → List QueuedSequence
unfolding unqueue
unqueue_all [] queue = queue
unqueue_all (q ∷ qs) queue = unqueue_all qs (unqueue q.id queue)

-- `_clearQueuedSequences`
unfoldable pub clear_queued_sequences : ℕ → State → State
unfolding unqueue_all
clear_queued_sequences id s = record s {
  queued_sequences = unqueue_all (sequences_of s id) s.queued_sequences;
}
