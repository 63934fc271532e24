-- ===== src/Engine/Calls.antt =====
-- execution.service.ts: `reset` and `execute`, which call one another: a stop releases the modules
-- that the cycle started and may stop the group above, a group stops its children. `Call` names the
-- two, and the bodies take `call` for the calls that they make. Each body runs to its end: no other
-- handler runs at its `await`s.
use cleveremote_box.Base.{
  ℕ, Option, none, some, List, [], ◌∷◌, ◌==◌, ◌&&◌, ◌||◌, not, if◌then◌else◌, any, is_some, Bool,
}
use cleveremote_box.Domain.{
  off, ProcessMode, system, ProcessType, force, is_stopped, is_group, stopped, SequenceModel,
  CycleModel,
}
use cleveremote_box.Engine.State.{
  State, ProcessModel, ProcessReport, CauseText, owning_cycle_stopped, find_cycle, update_cycle,
  cycle_is, set_status, sequences_of, index_of, splice, unsubscribe_run, new_process,
}
use cleveremote_box.Engine.Awaits.{awaited, await_progress}
use cleveremote_box.Engine.Progress.{clear_queued_sequences}
use cleveremote_box.Engine.Conflicts.{
  Env, resolve_actuators, reset_actuators, modules_of, modules_to_stop, auto_started,
  every_child_stopped, is_running,
}
use cleveremote_box.Engine.Outcome.{Outcome, done, ◌>>=◌, for_each}

pub data Call : Type 0 where
  reset : ProcessModel → ProcessReport → Call
  execute : ProcessModel → Call

abbrev pub Caller : Type 0
Caller = Call → State → Outcome

abbrev pub report : ProcessModel → ProcessType → CauseText → ProcessReport
report proc type cause = record { id = proc.id; type = type; cause = cause } ∷ []

-- `_releaseAutoStartedModules`
unfoldable pub release_auto_started : Caller → ℕ → State → Outcome
release_auto_started call source s =
    for_each (λ proc. call (reset proc (report proc force (owning_cycle_stopped source))))
      (auto_started s source) s

-- The sequences of a stopped cycle that are not stopped yet
unfoldable pub stop_sequences :
    Env → ProcessMode → ProcessReport → List SequenceModel → State → Outcome
stop_sequences env mode causes [] s = done s
stop_sequences env mode causes (q ∷ qs) s =
    (if is_stopped q.status then done s else await_progress env q.id off mode causes none s)
    >>= λ t. stop_sequences env mode causes qs t

abbrev pub is_running_group : CycleModel → Bool
is_running_group c = is_group c.type && is_running c

-- `_syncParentGroupOffIfAllChildrenStopped`: the group that it stops, if any
unfoldable pub group_to_stop : State → ℕ → Option ℕ
group_to_stop s id = elim (find_cycle s id) [
  | none ↦ none
  | some c ↦ elim c.parent_cycle_id [
    | none ↦ none
    | some g ↦
        if cycle_is is_running_group s g
          && (not (any (λ i. i == g) s.group_starts_in_progress) && every_child_stopped s g)
        then some g
        else none
  ]
]

unfoldable pub sync_parent_group : Caller → ℕ → State → Outcome
sync_parent_group call id s = elim (group_to_stop s id) [
  | none ↦ done s
  | some g ↦ call (execute (new_process g off force system)) s
]

-- `processList[index]?.instance?.unsubscribe()`
unfoldable pub instance_of : List ProcessModel → ℕ → Option ℕ
instance_of [] id = none
instance_of (proc ∷ rest) id = if proc.cycle_id == id then proc.instance else instance_of rest id

-- The stop of `reset`, before and after the modules of the cycle are released. `index` is where
-- the process list had the cycle when `reset` began.
unfoldable pub stop_marked : ℕ → State → State
stop_marked id s =
    update_cycle id (set_status stopped) (unsubscribe_run (instance_of s.process_list id) s)

-- The modules that no other cycle uses are switched off, and the cycle leaves the process list.
unfoldable pub stop_modules : Env → ProcessModel → Option ℕ → State → State
stop_modules env p index s =
    let registry = resolve_actuators env s in
    let off_now = modules_to_stop registry s p.mode p.cycle_id (modules_of registry s p.cycle_id) in
    splice index (reset_actuators off_now s)

unfoldable pub stop_rest : Env → ProcessModel → ProcessReport → Option ℕ → State → Outcome
stop_rest env p causes index s = awaited (env.resolves s) s (λ t.
    await_progress env p.cycle_id off p.mode causes none (stop_modules env p index t) >>= λ u.
    stop_sequences env p.mode causes (sequences_of u p.cycle_id) u)

-- `reset`
unfoldable pub reset_body : Env → Caller → ProcessModel → ProcessReport → State → Outcome
reset_body env call p causes s =
    let index = index_of s p.cycle_id in
    let cleared = clear_queued_sequences p.cycle_id s in
    if is_some index || cycle_is is_running cleared p.cycle_id
    then (release_auto_started call p.cycle_id (stop_marked p.cycle_id cleared) >>= λ s'.
        stop_rest env p causes index s' >>= λ s''. sync_parent_group call p.cycle_id s'')
    else done cleared
