-- ===== src/Engine/Stopping.antt =====
-- The state after a stop in execution.service.ts: `reset`, and `execute` at `FORCE` with `OFF`.
use cleveremote_box.Base.{
  ◌⊎◌, find, Bool-cases, if◌then◌else◌, is_some, ℕ, zero, suc, ◌≡◌, refl, sym, ◌∙◌, subst, inl, inr,
  Bool, true, false, ◌||◌, List, [], ◌∷◌, arith, false≢true,
}
use cleveremote_box.Domain.{CycleModel, stopped}
use cleveremote_box.Engine.Calls.{Caller, Call, reset, reset_body, stop_marked}
use cleveremote_box.Engine.Conflicts.{Env}
use cleveremote_box.Engine.Execute.{call_body, call_within}
use cleveremote_box.Engine.Outcome.{Error, Outcome, done, thrown, out_of_fuel}
use cleveremote_box.Engine.Progress.{clear_queued_sequences}
use cleveremote_box.Engine.Quiet.Calls.{IsStop, stop_from-Quiet, call_within-Quiet, Quietly}
use cleveremote_box.Engine.Quiet.Defs.{running, Quiet}
use cleveremote_box.Engine.Quiet.Updates.{running_in}
use cleveremote_box.Engine.State.{
  update_cycle, ProcessModel, index_of, cycle_is, State, set_status, modify, has_id, ProcessReport,
}

-- A marked cycle does not run.
running_in-modify_stopped :
    (id : ℕ) (cs : List CycleModel)
    → running_in (modify (has_id id) (set_status stopped) cs) id ≡ false
unfolding find modify set_status
running_in-modify_stopped id [] = refl
running_in-modify_stopped id (c ∷ cs) = ground (arith, running_in-modify_stopped id cs)

pub running-stop_marked : (id : ℕ) (s : State) → running (stop_marked id s) id ≡ false
unfolding stop_marked update_cycle cycle_is
running-stop_marked id s = running_in-modify_stopped id _

-- Neither does it when the stop is over.
abbrev Stopped : ℕ → Outcome → Type 0
Stopped id (done s) = running s id ≡ false
Stopped id (thrown e s) = running s id ≡ false
Stopped id out_of_fuel = Unit

Stopped-Quiet : (id : ℕ) (s : State) (o : Outcome) → running s id ≡ false → Quiet s o → Stopped id o
unfolding Quiet
Stopped-Quiet id s (done t) h q = elim (Bool-cases (running t id)) [
  | inl e ↦ absurd (false≢true (sym h ∙ q.still id e))
  | inr e ↦ e
]
Stopped-Quiet id s (thrown e' t) h q = elim (Bool-cases (running t id)) [
  | inl e ↦ absurd (false≢true (sym h ∙ q.still id e))
  | inr e ↦ e
]
Stopped-Quiet id s out_of_fuel h q = tt

Stopped-if :
    (id : ℕ) (b : Bool) (o o' : Outcome)
    → (b ≡ true → Stopped id o)
    → (b ≡ false → Stopped id o')
    → Stopped id (if b then o else o')
Stopped-if id true o o' p q = p refl
Stopped-if id false o o' p q = q refl

reset_body-Stopped :
    (call : Caller) (quietly : Quietly call) (env : Env) (p : ProcessModel) (causes : ProcessReport)
    (s : State)
    → Stopped p.cycle_id (reset_body env call p causes s)
unfolding reset_body
reset_body-Stopped call quietly env p causes s =
    Stopped-if p.cycle_id
      (is_some (index_of s p.cycle_id) || running (clear_queued_sequences p.cycle_id s) p.cycle_id)
      _ _
      (λ _.
        Stopped-Quiet p.cycle_id (stop_marked p.cycle_id (clear_queued_sequences p.cycle_id s)) _
          (running-stop_marked p.cycle_id _)
          (stop_from-Quiet call quietly env p causes (index_of s p.cycle_id) _))
      (λ e. ground arith)

-- A stop, whatever it is of and whatever it causes in turn (of the modules that a cycle started, of
-- the group above, of a group's children), starts no cycle, creates no run, and switches nothing on:
-- every cycle that runs at its end ran before, and each actuator is commanded to 0 only.
pub stop_is_Quiet :
    (env : Env) (fuel : ℕ) (c : Call) (s : State) → IsStop c s → Quiet s (call_within env fuel c s)
stop_is_Quiet env fuel c s h = call_within-Quiet env fuel c s h

-- When `reset` is over, by an exception or without, the cycle it was called for does not run.
pub reset-not_running :
    (env : Env) (fuel : ℕ) (p : ProcessModel) (causes : ProcessReport) (s s' : State)
    → (call_within env fuel (reset p causes) s ≡ done s')
      ⊎ ((e : Error) × (call_within env fuel (reset p causes) s ≡ thrown e s'))
    → running s' p.cycle_id ≡ false
unfolding call_within call_body
reset-not_running env zero p causes s s' (inl e) = absurd (cc)
reset-not_running env zero p causes s s' (inr (x, e)) = absurd (cc)
reset-not_running env (suc fuel) p causes s s' (inl e) =
    subst (Stopped p.cycle_id) e
      (reset_body-Stopped (call_within env fuel) (call_within-Quiet env fuel) env p causes s)
reset-not_running env (suc fuel) p causes s s' (inr (x, e)) =
    subst (Stopped p.cycle_id) e
      (reset_body-Stopped (call_within env fuel) (call_within-Quiet env fuel) env p causes s)
