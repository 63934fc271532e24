-- ===== src/Engine/Superseded.antt =====
-- The start of a group's children in execution.service.ts, once a later start or stop of the group
-- took its token.
use cleveremote_box.Base.{Bool-cases, ◌≡◌, refl, inl, inr, false, List, [], ◌∷◌}
use cleveremote_box.Domain.{ChildCycleRef}
use cleveremote_box.Engine.Calls.{Caller}
use cleveremote_box.Engine.Conflicts.{is_running}
use cleveremote_box.Engine.GroupStarts.{
  update_start, ends, finally, after_delay_step, waiting_step, at_child_step, holds_token,
  group_step, step_phase,
}
use cleveremote_box.Engine.Outcome.{done, Outcome}
use cleveremote_box.Engine.State.{
  at_child, waiting_child, State, GroupPhase, GroupStart, after_child, cycle_is, after_delay_before,
}

-- Nothing but the start itself advances or ends.
abbrev pub Untouched : State → Outcome → Type 0
Untouched s o =
    (t : State) × ((o ≡ done t)
      × ((t.cycles ≡ s.cycles)
          × ((t.process_list ≡ s.process_list)
              × ((t.schedules ≡ s.schedules)
                  × ((t.triggers ≡ s.triggers) × (t.effects ≡ s.effects))))))

step_phase-Untouched :
    (call : Caller) (g : GroupStart) (ph : GroupPhase) (refs : List ChildCycleRef) (s : State)
    → holds_token g s ≡ false
    → Untouched s (finally g (step_phase call g ph refs s))
unfolding step_phase finally ends update_start
step_phase-Untouched call g ph [] s h = (ends g s, (refl, (refl, (refl, (refl, (refl, refl))))))
step_phase-Untouched call g at_child (ref ∷ rest) s h =
    (ends g s, (unfold at_child_step in rw h refl, (refl, (refl, (refl, (refl, refl))))))
step_phase-Untouched call g after_delay_before (ref ∷ rest) s h =
    (ends g s, (unfold after_delay_step in rw h refl, (refl, (refl, (refl, (refl, refl))))))
step_phase-Untouched call g waiting_child (ref ∷ rest) s h =
    elim (Bool-cases (cycle_is is_running s ref.cycle_id)) [
      | inl e ↦ (s, (unfold waiting_step in rw e refl, (refl, (refl, (refl, (refl, refl))))))
      | inr e ↦
          (ends g s, (unfold waiting_step in rw (e, h) refl, (refl, (refl, (refl, (refl, refl))))))
    ]
step_phase-Untouched call g after_child (ref ∷ rest) s h =
    (update_start g at_child rest s, (refl, (refl, (refl, (refl, (refl, refl))))))

-- The start of a group's children whose token is no longer that of the group starts no child: a
-- step of it ends without an exception and changes no cycle, process, trigger or schedule, and calls
-- no other service.
pub group_step-superseded :
    (call : Caller) (g : GroupStart) (s : State)
    → holds_token g s ≡ false
    → Untouched s (group_step call g s)
unfolding group_step
group_step-superseded call g s h = step_phase-Untouched call g g.phase g.refs s h
