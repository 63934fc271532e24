-- ===== src/Engine/State.antt =====
-- What `ProcessService` (services/execution.service.ts) keeps and what it calls: its fields, the
-- structure it shares with `StructureService`, and the log of its calls of other services.
use cleveremote_box.Base.{
  ℕ, Bool, false, Option, none, some, List, [], ◌∷◌, ◌++◌, ◌==◌, if◌then◌else◌, find, find_index,
  any, remove_at,
}
use cleveremote_box.Domain.{
  ExecutableStatus, ExecutableAction, ProcessMode, ProcessType, SequenceModel, CycleModel,
  SequenceExecutionEntry, ChildCycleRef, ActuatorModel,
}

-- `ProcessModel`. `cycle` is the shared object of the structure: here its identifier. `schedule`
-- keeps `shouldConfirmation`, `instance` the run that the subscription belongs to.
pub record ProcessModel : Type 0 where
  pub id : Option ℕ
  pub cycle_id : ℕ
  pub action : ExecutableAction
  pub type : ProcessType
  pub mode : ProcessMode
  pub instance : Option ℕ
  pub duration : Option ℕ
  pub schedule : Option Bool
  pub source_cycle_id : Option ℕ

-- `new ProcessModel()` with the fields that every caller gives
unfoldable pub new_process : ℕ → ExecutableAction → ProcessType → ProcessMode → ProcessModel
new_process cycle_id action type mode = record {
  id = none;
  cycle_id = cycle_id;
  action = action;
  type = type;
  mode = mode;
  instance = none;
  duration = none;
  schedule = none;
  source_cycle_id = none;
}

-- The text of a cause, with what it is built from.
pub data CauseText : Type 0 where
  manual_push_button owning_cycle_stopped schedule_triggered conflicted_with_cycle : ℕ → CauseText
  condition_not_verified end_lifecycle abnormal_stop stopped_by_conflicted : ℕ → CauseText
  single_module_stop parent_cycle_stop security_condition : ℕ → CauseText
  stopped_by_parent : Option ℕ → CauseText

pub record Cause : Type 0 where
  pub id : Option ℕ
  pub type : ProcessType
  pub cause : CauseText

-- `ProcessReport`
abbrev pub ProcessReport : Type 0
ProcessReport = List Cause

pub data ElementType : Type 0 where
  cycle_element sequence_element : ElementType

-- The event of `_publishStatusEvent`
pub record EventModel : Type 0 where
  pub element_id : ℕ
  pub element_type : ElementType
  pub mode : ProcessMode
  pub status : ExecutableStatus
  pub duration : Option ℕ
  pub causes : ProcessReport

-- Calls of other services: `actuatorService.execute`, `modBusService.execute`,
-- `_publishStatusEvent` and `triggerService.onElementValueChanged.next`
pub data Effect : Type 0 where
  actuated : ℕ → ℕ → Effect
  com_executed : ℕ → ExecutableAction → Effect
  published : EventModel → Effect
  value_changed : ℕ → ExecutableStatus → Effect

-- An execution under way, the observable of `_executeWithActuators`: before the actuators are
-- resolved, then at its sequence: while the condition is checked, while a confirmation is awaited,
-- with the timer armed.
pub data Phase : Type 0 where
  starting checking awaiting timed : Phase

pub record Run : Type 0 where
  pub run_id : ℕ
  pub process : ProcessModel
  pub subscribed : Bool
  pub phase : Phase
  pub previous : Option SequenceExecutionEntry
  pub current : Option SequenceExecutionEntry
  pub remaining : List SequenceExecutionEntry
  pub modules : List ActuatorModel

-- The start of a group's children under way, `_runGroupChildrenSequence`
pub data GroupPhase : Type 0 where
  at_child after_delay_before waiting_child after_child : GroupPhase

pub record GroupStart : Type 0 where
  pub group_id : ℕ
  pub token : ℕ
  pub phase : GroupPhase
  pub refs : List ChildCycleRef

-- An entry of `queuedSequences`: `flag`, `resume` and `timeoutHandle` are those of its run.
pub record QueuedSequence : Type 0 where
  pub sequence_id : ℕ
  pub run_id : ℕ

-- A trigger or a schedule of a cycle, of which the group orchestration sets `isPaused`
pub record ChildTimer : Type 0 where
  pub timer_id : ℕ
  pub cycle_id : ℕ
  pub is_paused : Bool

pub record State : Type 0 where
  pub cycles : List CycleModel
  pub triggers : List ChildTimer
  pub schedules : List ChildTimer
  pub process_list : List ProcessModel
  pub queued_sequences : List QueuedSequence
  pub group_run_tokens : List (ℕ × ℕ)
  pub group_starts_in_progress : List ℕ
  pub runs : List Run
  pub group_starts : List GroupStart
  pub next_id : ℕ  -- of a run, or a token (`Symbol()`)
  pub effects : List Effect  -- latest first

unfoldable pub log : Effect → State → State
log e s = record s { effects = e ∷ s.effects }

-- The first entry that passes a test is changed: `find`, then an assignment to a field.
unfoldable pub modify {ℓ} : {A : Type ℓ} → (A → Bool) → (A → A) → List A → List A
modify p f [] = []
modify p f (x ∷ xs) = if p x then f x ∷ xs else x ∷ modify p f xs

abbrev pub has_id : ℕ → CycleModel → Bool
has_id id c = c.id == id

-- `structure.cycles.find(x => x._id === id)`
unfoldable pub find_cycle : State → ℕ → Option CycleModel
unfolding find
find_cycle s id = find (has_id id) s.cycles

unfoldable pub update_cycle : ℕ → (CycleModel → CycleModel) → State → State
unfolding modify
update_cycle id f s = record s { cycles = modify (has_id id) f s.cycles }

-- A test of the cycle with this identifier; false when there is none.
unfoldable pub cycle_is : (CycleModel → Bool) → State → ℕ → Bool
unfolding find_cycle
cycle_is p s id = elim (find_cycle s id) [ none ↦ false | some c ↦ p c ]

abbrev pub seq_has_id : ℕ → SequenceModel → Bool
seq_has_id id q = q.id == id

-- `configurationService.sequences.find(...)`: the sequences of all cycles, in order
unfoldable pub find_in_cycles : ℕ → List CycleModel → Option SequenceModel
unfolding find
find_in_cycles id [] = none
find_in_cycles id (c ∷ cs) = elim (find (seq_has_id id) c.sequences) [
  | none ↦ find_in_cycles id cs
  | some q ↦ some q
]

unfoldable pub find_sequence : State → ℕ → Option SequenceModel
unfolding find_in_cycles
find_sequence s id = find_in_cycles id s.cycles

unfoldable pub modify_sequence :
    ℕ → (SequenceModel → SequenceModel) → List CycleModel → List CycleModel
unfolding any modify
modify_sequence id f [] = []
modify_sequence id f (c ∷ cs) =
    if any (seq_has_id id) c.sequences
    then record c { sequences = modify (seq_has_id id) f c.sequences } ∷ cs
    else c ∷ modify_sequence id f cs

unfoldable pub update_sequence : ℕ → (SequenceModel → SequenceModel) → State → State
unfolding modify_sequence
update_sequence id f s = record s { cycles = modify_sequence id f s.cycles }

unfoldable pub set_status : ExecutableStatus → CycleModel → CycleModel
set_status st c = record c { status = st }

-- `process.cycle.sequences`
unfoldable pub sequences_of : State → ℕ → List SequenceModel
unfolding find_cycle
sequences_of s id = elim (find_cycle s id) [ none ↦ [] | some c ↦ c.sequences ]

unfoldable pub name_of : State → ℕ → ℕ
unfolding find_cycle
name_of s id = elim (find_cycle s id) [ none ↦ 0 | some c ↦ c.name ]

abbrev pub runs_cycle : ℕ → ProcessModel → Bool
runs_cycle id proc = proc.cycle_id == id

-- `processList.findIndex(x => x.cycle._id === id)`
unfoldable pub index_of : State → ℕ → Option ℕ
unfolding find_index
index_of s id = find_index (runs_cycle id) s.process_list

-- `processList.splice(index, 1)` guarded by `index > -1`
unfoldable pub splice : Option ℕ → State → State
unfolding remove_at
splice none s = s
splice (some i) s = record s { process_list = remove_at i s.process_list }

unfoldable pub push : ProcessModel → State → State
push p s = record s { process_list = s.process_list ++ p ∷ [] }

-- `Subscription.unsubscribe`: the run no longer advances.
unfoldable pub unsubscribed : Run → Run
unsubscribed r = record r { subscribed = false }

unfoldable pub unsubscribe_run : Option ℕ → State → State
unfolding modify unsubscribed
unsubscribe_run none s = s
unsubscribe_run (some i) s = record s { runs = modify (λ r. r.run_id == i) unsubscribed s.runs }
