-- ===== src/Engine/GroupStarts.antt =====
-- execution.service.ts: `_runGroupChildrenSequence`, one step at a time. The steps stand between the
-- waits of the loop: a delay, or the poll of `_waitForCycleStopped`.
use cleveremote_box.Domain.{force, on, ChildCycleRef, auto}
use cleveremote_box.Base.{
  filter, ◌==◌, if◌then◌else◌, is_id, ltb, ℕ, Bool, true, false, ◌||◌, not, none, some, List, [],
  ◌∷◌,
}
use cleveremote_box.Engine.Calls.{Caller, execute}
use cleveremote_box.Engine.Conflicts.{is_running, is_skipped}
use cleveremote_box.Engine.Force.{without, set_child_timers_paused, token_of, has_timers}
use cleveremote_box.Engine.Outcome.{thrown, ◌>>=◌, Outcome, done, out_of_fuel}
use cleveremote_box.Engine.State.{
  GroupStart, State, modify, after_delay_before, cycle_is, at_child, new_process, GroupPhase,
  waiting_child, after_child,
}

unfoldable pub ends : GroupStart → State → State
ends g s = record s {
  group_starts = filter (λ x. not (x.token == g.token)) s.group_starts;
  group_starts_in_progress = without g.group_id s.group_starts_in_progress;
}

unfoldable pub update_start : GroupStart → GroupPhase → List ChildCycleRef → State → State
update_start g ph refs s = record s {
  group_starts =
      modify (λ x. x.token == g.token) (λ x. record x { phase = ph; refs = refs }) s.group_starts;
}

-- `groupRunTokens.get(id) === token`
unfoldable pub holds_token : GroupStart → State → Bool
holds_token g s = is_id (token_of g.group_id s.group_run_tokens) g.token

unfoldable pub delay_before_of : ChildCycleRef → ℕ
delay_before_of ref = elim ref.config [ none ↦ 0 | some c ↦ c.delay_before ]

unfoldable pub waits_for_completion : ChildCycleRef → Bool
waits_for_completion ref = elim ref.config [ none ↦ false | some c ↦ c.wait_for_completion ]

-- `_startChildCycle`
unfoldable pub start_child_cycle : Caller → ℕ → ℕ → State → Outcome
start_child_cycle call child group s =
    if cycle_is is_running s child
    then done s
    else call (execute (record (new_process child on force auto) { source_cycle_id = some group }))
        s

-- A child is started: its timers are released, or else the cycle itself runs.
unfoldable pub start_child :
    Caller → GroupStart → ChildCycleRef → List ChildCycleRef → State → Outcome
start_child call g ref rest s =
    if has_timers s ref.cycle_id
    then done
        (update_start g after_child (ref ∷ rest) (set_child_timers_paused ref.cycle_id false s))
    else (start_child_cycle call ref.cycle_id g.group_id s >>= λ s'. done (
        update_start g (if waits_for_completion ref then waiting_child else after_child)
          (ref ∷ rest) s'))

-- The head of the loop
unfoldable pub at_child_step :
    Caller → GroupStart → ChildCycleRef → List ChildCycleRef → State → Outcome
at_child_step call g ref rest s =
    if not (holds_token g s)
    then done (ends g s)
    else if is_skipped ref || not (cycle_is (λ c. true) s ref.cycle_id)
    then done (update_start g at_child rest s)
    else if ltb 0 (delay_before_of ref)
    then done (update_start g after_delay_before (ref ∷ rest) s)
    else start_child call g ref rest s

-- After `delayBefore`
unfoldable pub after_delay_step :
    Caller → GroupStart → ChildCycleRef → List ChildCycleRef → State → Outcome
after_delay_step call g ref rest s =
    if holds_token g s then start_child call g ref rest s else done (ends g s)

-- A poll of `_waitForCycleStopped`
unfoldable pub waiting_step : GroupStart → ChildCycleRef → List ChildCycleRef → State → Outcome
waiting_step g ref rest s =
    if cycle_is is_running s ref.cycle_id
    then done s
    else done (if holds_token g s then update_start g after_child (ref ∷ rest) s else ends g s)

-- One step. An exception ends the loop too (`finally`).
unfoldable pub step_phase : Caller → GroupStart → GroupPhase → List ChildCycleRef → State → Outcome
step_phase call g ph [] s = done (ends g s)
step_phase call g at_child (ref ∷ rest) s = at_child_step call g ref rest s
step_phase call g after_delay_before (ref ∷ rest) s = after_delay_step call g ref rest s
step_phase call g waiting_child (ref ∷ rest) s = waiting_step g ref rest s
step_phase call g after_child (ref ∷ rest) s = done (update_start g at_child rest s)

unfoldable pub finally : GroupStart → Outcome → Outcome
finally g (done s) = done s
finally g (thrown e s) = done (ends g s)
finally g out_of_fuel = out_of_fuel

unfoldable pub group_step : Caller → GroupStart → State → Outcome
group_step call g s = finally g (step_phase call g g.phase g.refs s)
