-- ===== src/Engine/Force.antt =====
-- execution.service.ts: `_manageProcessType` at `FORCE`, the cascades between cycles, their modules
-- and their group, and `_resetConflictedProcesses`.
use cleveremote_box.Base.{
  ℕ, suc, Bool, true, false, Option, none, some, List, [], ◌∷◌, map, ◌==◌, ◌&&◌, ◌||◌, not,
  if◌then◌else◌, filter, any, find_index, is_some,
}
use cleveremote_box.Domain.{
  on, off, is_on, manual, trigger, auto, system, ProcessType, force, is_group, is_plain, is_module,
  is_force, is_confirmation, same_mode, in_proccess, ChildCycleRef,
}
use cleveremote_box.Engine.State.{
  State, ProcessModel, ProcessReport, CauseText, manual_push_button, stopped_by_parent,
  stopped_by_conflicted, single_module_stop, parent_cycle_stop, ChildTimer, starting, at_child,
  modify, find_cycle, update_cycle, cycle_is, set_status, name_of, runs_cycle, splice, push,
  new_process,
}
use cleveremote_box.Engine.Progress.{process_progress}
use cleveremote_box.Engine.Conflicts.{
  Env, conflicted, conflicting_cycles, owning_modules, children_of, is_skipped, is_running,
}
use cleveremote_box.Engine.Outcome.{Outcome, done, ◌>>=◌, for_each}
use cleveremote_box.Engine.Calls.{reset, execute, Caller, report, sync_parent_group}

-- `_buildManualPushButtonReport`
unfoldable pub manual_push_report : ProcessModel → State → ProcessReport
manual_push_report p s =
    if same_mode p.mode trigger
      && (cycle_is (λ c. is_module c.type) s p.cycle_id && is_force p.type)
    then report p p.type (manual_push_button (name_of s p.cycle_id))
    else []

unfoldable pub off_report : ProcessModel → State → ProcessReport
off_report p s = elim p.source_cycle_id [
  | none ↦ manual_push_report p s
  | some i ↦
      report p p.type
        (stopped_by_parent (elim (find_cycle s i) [ none ↦ none | some c ↦ some c.name ]))
]

-- `_cascadeStopConflictingCycles` and `_cascadeStopOwningModules`
unfoldable pub cascade : Caller → ProcessType → CauseText → List ProcessModel → State → Outcome
cascade call type cause procs = for_each (λ proc. call (reset proc (report proc type cause))) procs

unfoldable pub rule_one : Env → Caller → ProcessModel → State → Outcome
rule_one env call p s =
    (if cycle_is (λ c. is_module c.type) s p.cycle_id && not (same_mode p.mode auto)
      then cascade call p.type (single_module_stop (name_of s p.cycle_id))
          (conflicting_cycles env s p) s
      else done s)
    >>= λ s'.
        if cycle_is (λ c. is_plain c.type) s' p.cycle_id
          && (not (same_mode p.mode auto) && not (is_on p.action))
        then cascade call p.type (parent_cycle_stop (name_of s' p.cycle_id))
            (owning_modules env s' p) s'
        else done s'

-- `_setChildTriggersAndSchedulesPaused`, and whether there are any
unfoldable pub pause_timer : ℕ → Bool → ChildTimer → ChildTimer
pause_timer id paused t = if t.cycle_id == id then record t { is_paused = paused } else t

unfoldable pub set_child_timers_paused : ℕ → Bool → State → State
set_child_timers_paused id paused s = record s {
  triggers = map (pause_timer id paused) s.triggers;
  schedules = map (pause_timer id paused) s.schedules;
}

unfoldable pub has_timers : State → ℕ → Bool
has_timers s id = any (λ t. t.cycle_id == id) s.triggers || any (λ t. t.cycle_id == id) s.schedules

-- The tokens of `groupRunTokens`
unfoldable pub delete_token : ℕ → List (ℕ × ℕ) → List (ℕ × ℕ)
delete_token g [] = []
delete_token g ((h, t) ∷ rest) = if h == g then rest else (h, t) ∷ delete_token g rest

unfoldable pub token_of : ℕ → List (ℕ × ℕ) → Option ℕ
token_of g [] = none
token_of g ((h, t) ∷ rest) = if h == g then some t else token_of g rest

-- `_stopGroupChildren`, one child
unfoldable pub stop_child : Caller → ℕ → ChildCycleRef → State → Outcome
stop_child call g ref s =
    if not (is_skipped ref) && cycle_is (λ c. true) s ref.cycle_id
    then ((if cycle_is is_running s ref.cycle_id
          then call
              (execute
                (record (new_process ref.cycle_id off force system) { source_cycle_id = some g }))
              s
          else done s)
        >>= λ s'. done (set_child_timers_paused ref.cycle_id true s'))
    else done s

unfoldable pub stop_group_children : Caller → ℕ → State → Outcome
stop_group_children call g s =
    for_each (stop_child call g) (children_of s g)
      (record s { group_run_tokens = delete_token g s.group_run_tokens })

-- `FORCE` with `OFF`
unfoldable pub force_off : Caller → ProcessModel → State → Outcome
force_off call p s =
    let causes = off_report p s in
    (if cycle_is (λ c. is_group c.type) s p.cycle_id
      then stop_group_children call p.cycle_id s
      else done s)
    >>= (λ s'. call (reset p causes) s')
    >>= λ s'.
        if same_mode p.mode manual && cycle_is (λ c. is_some c.parent_cycle_id) s' p.cycle_id
        then sync_parent_group call p.cycle_id (set_child_timers_paused p.cycle_id true s')
        else done s'

-- The reclaim of rule 2: the first entry of the list for this cycle gets another owner.
unfoldable pub reclaimed : ℕ → ProcessModel → ProcessModel
reclaimed source proc =
    if same_mode proc.mode auto then record proc { source_cycle_id = some source } else proc

unfoldable pub reclaim : ProcessModel → State → State
reclaim p s = elim p.source_cycle_id [
  | none ↦ s
  | some source ↦
      if cycle_is (λ c. is_module c.type) s p.cycle_id
        && (same_mode p.mode auto && not (source == p.cycle_id))
      then record s {
        process_list = modify (runs_cycle p.cycle_id) (reclaimed source) s.process_list;
      }
      else s
]

-- `_resetConflictedProcesses`
unfoldable pub drop_confirmation : ProcessModel → State → State
drop_confirmation p s =
    if is_force p.type
    then splice
        (find_index (λ x. x.cycle_id == p.cycle_id && is_confirmation x.type) s.process_list) s
    else s

unfoldable pub reset_conflicted : Env → Caller → ProcessModel → State → Outcome
reset_conflicted env call p s =
    for_each
      (λ proc. call (
        reset (record proc { mode = system })
          (report proc p.type (stopped_by_conflicted (name_of s p.cycle_id)))))
      (conflicted env s p) s
    >>= λ s'. done (drop_confirmation p s')

-- `_executeProcess`: the subscription starts a run, which waits for the actuators.
unfoldable pub execute_process : ProcessModel → State → State
execute_process p s = record s {
  runs =
      record {
        run_id = s.next_id;
        process = record p { instance = some s.next_id };
        subscribed = true;
        phase = starting;
        previous = none;
        current = none;
        remaining = [];
        modules = [];
      }
      ∷ s.runs;
  next_id = suc s.next_id;
}

-- A `Set` of identifiers: `delete`
unfoldable pub without : ℕ → List ℕ → List ℕ
without id = filter (λ i. not (i == id))

-- `_executeGroupOn` up to the first child
unfoldable pub execute_group_on : ProcessModel → State → State
execute_group_on p s =
    let s' = process_progress p.cycle_id on p.mode [] none (push p s) in
    record s' {
      group_run_tokens = (p.cycle_id, s'.next_id) ∷ delete_token p.cycle_id s'.group_run_tokens;
      group_starts_in_progress = p.cycle_id ∷ without p.cycle_id s'.group_starts_in_progress;
      group_starts =
          record {
            group_id = p.cycle_id;
            token = s'.next_id;
            phase = at_child;
            refs = children_of s' p.cycle_id;
          }
          ∷ s'.group_starts;
      next_id = suc s'.next_id;
    }

-- `FORCE` with `ON`
unfoldable pub force_on : Env → Caller → ProcessModel → State → Outcome
force_on env call p s =
    if cycle_is is_running s p.cycle_id
    then done (reclaim p s)
    else if same_mode p.mode manual
        && (cycle_is (λ c. is_some c.parent_cycle_id) s p.cycle_id && has_timers s p.cycle_id)
    then done (set_child_timers_paused p.cycle_id false s)
    else (let reserved = update_cycle p.cycle_id (set_status in_proccess) s in
        (if cycle_is (λ c. is_module c.type) s p.cycle_id
          then done reserved
          else reset_conflicted env call p reserved)
        >>= λ s'. done (
            if cycle_is (λ c. is_group c.type) s p.cycle_id
            then execute_group_on p s'
            else execute_process p s'))
