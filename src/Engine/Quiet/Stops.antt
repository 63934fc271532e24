-- ===== src/Engine/Quiet/Stops.antt =====
-- The parts of a stop of execution.service.ts that make no further call, whether the database works or not.
use cleveremote_box.Base.{
  Option-cases, ℕ, ◌≡◌, refl, sym, subst, inl, inr, Bool, true, false, Option, none, some, List, [],
  ◌∷◌,
}
use cleveremote_box.Domain.{
  stopped, off, SequenceModel, ActuatorModel, waitting_confirmation, ExecutableStatus,
  is_in_proccess, ProcessMode, CycleModel, is_stopped,
}
use cleveremote_box.Engine.Calls.{stop_rest, stop_modules, stop_sequences, stop_marked}
use cleveremote_box.Engine.Conflicts.{
  Env, reset_actuators, modules_to_stop, resolve_actuators, modules_of,
}
use cleveremote_box.Engine.Force.{set_child_timers_paused}
use cleveremote_box.Engine.Awaits.{
  await_stacks, await_cycle_progress, await_sequence_progress, await_progress,
}
use cleveremote_box.Engine.Progress.{
  progressed_cycle, progressed_sequence, clear_queued_sequences, publish, status_of_action,
}
use cleveremote_box.Engine.Quiet.Defs.{same, Quieter-trans, Extends, Quieter-refl, Quieter}
use cleveremote_box.Engine.Settling.{
  Settled, Settled-done, Settled-trans, Settled->>=, Settled-if, Settled-awaited,
}
use cleveremote_box.Engine.Quiet.Updates.{
  update_cycle-Quieter, update_sequence-Quieter, running_in, Calms, log-Quieter,
}
use cleveremote_box.Engine.State.{
  find_sequence, ElementType, splice, ProcessModel, com_executed, cycle_element, ProcessReport,
  set_status, value_changed, update_cycle, update_sequence, log, cycle_is, find_cycle, actuated,
  sequence_element, State, unsubscribe_run, sequences_of,
}

pub alike-Quieter :
    (s s' : State)
    → s'.cycles ≡ s.cycles
    → s'.effects ≡ s.effects
    → s'.next_id ≡ s.next_id
    → Quieter s s'
unfolding cycle_is
alike-Quieter s s' c e n = record {
  still = λ id h. subst (λ cs. running_in cs id ≡ true) c h;
  switched = subst (Extends s.effects) (sym e) same;
  created = n;
}

pub publish-Quieter :
    (type : ElementType) (id : ℕ) (mode : ProcessMode) (status : ExecutableStatus) (d : Option ℕ)
    (causes : ProcessReport) (s : State)
    → is_in_proccess status ≡ false
    → Quieter s (publish type id mode status d causes s)
unfolding publish
publish-Quieter type id mode status d causes s h = log-Quieter _ s h

progressed_cycle-Calms : Calms (progressed_cycle off)
unfolding progressed_cycle status_of_action
progressed_cycle-Calms c = (refl, λ h. cc)

set_status-Calms : Calms (set_status stopped)
unfolding set_status
set_status-Calms c = (refl, λ h. cc)

waiting-Calms : Calms (set_status waitting_confirmation)
unfolding set_status
waiting-Calms c = (refl, λ h. cc)

pub reset_actuators-Quieter :
    (off_now : List ActuatorModel) (s : State) → Quieter s (reset_actuators off_now s)
unfolding reset_actuators
reset_actuators-Quieter [] s = Quieter-refl s
reset_actuators-Quieter (a ∷ rest) s =
    Quieter-trans (log-Quieter (actuated a.id 0) s refl) (reset_actuators-Quieter rest _)

pub splice-Quieter : (i : Option ℕ) (s : State) → Quieter s (splice i s)
unfolding splice
splice-Quieter none s = Quieter-refl s
splice-Quieter (some i) s = alike-Quieter _ _ refl refl refl

pub clear_queued_sequences-Quieter : (id : ℕ) (s : State) → Quieter s (clear_queued_sequences id s)
unfolding clear_queued_sequences
clear_queued_sequences-Quieter id s = alike-Quieter _ _ refl refl refl

pub set_child_timers_paused-Quieter :
    (id : ℕ) (b : Bool) (s : State) → Quieter s (set_child_timers_paused id b s)
unfolding set_child_timers_paused
set_child_timers_paused-Quieter id b s = alike-Quieter _ _ refl refl refl

unsubscribe_run-Quieter : (i : Option ℕ) (s : State) → Quieter s (unsubscribe_run i s)
unfolding unsubscribe_run
unsubscribe_run-Quieter none s = Quieter-refl s
unsubscribe_run-Quieter (some i) s = alike-Quieter _ _ refl refl refl

pub stop_marked-Quieter : (id : ℕ) (s : State) → Quieter s (stop_marked id s)
unfolding stop_marked
stop_marked-Quieter id s =
    Quieter-trans (unsubscribe_run-Quieter _ s)
      (update_cycle-Quieter (set_status stopped) id _ set_status-Calms)

stop_modules-Quieter :
    (env : Env) (p : ProcessModel) (i : Option ℕ) (s : State) → Quieter s (stop_modules env p i s)
unfolding stop_modules
stop_modules-Quieter env p i s =
    let registry = resolve_actuators env s in
    let off_now = modules_to_stop registry s p.mode p.cycle_id (modules_of registry s p.cycle_id) in
    Quieter-trans (reset_actuators-Quieter off_now s) (splice-Quieter i _)

await_stacks-Settled :
    (env : Env) (is : List ℕ) (s : State) → Settled env s (await_stacks env off is s)
unfolding await_stacks
await_stacks-Settled env [] s = Settled-done env (Quieter-refl s)
await_stacks-Settled env (i ∷ is) s =
    Settled-awaited env (env.fetches i s) s _ (λ w. inr (inr (i, (s, w))))
      (Settled-trans env _ (log-Quieter (com_executed i off) s refl)
        (await_stacks-Settled env is _))

await_cycle_progress-Settled :
    (env : Env) (c : CycleModel) (mode : ProcessMode) (causes : ProcessReport) (s : State)
    → Settled env s (await_cycle_progress env c off mode causes s)
unfolding await_cycle_progress status_of_action
await_cycle_progress-Settled env c mode causes s =
    let updated = update_cycle c.id (progressed_cycle off) s in
    let changed = log (value_changed c.id stopped) updated in
    Settled-trans env _
      (Quieter-trans (update_cycle-Quieter (progressed_cycle off) c.id s progressed_cycle-Calms)
        (log-Quieter (value_changed c.id stopped) updated refl))
      (Settled-awaited env (env.saves changed) changed _ (λ w. inr (inl (changed, w)))
        (Settled-done env (publish-Quieter cycle_element c.id mode stopped _ causes _ refl)))

await_sequence_progress-Settled :
    (env : Env) (q : SequenceModel) (mode : ProcessMode) (causes : ProcessReport) (d : Option ℕ)
    (s : State)
    → Settled env s (await_sequence_progress env q off mode causes d s)
unfolding await_sequence_progress status_of_action
await_sequence_progress-Settled env q mode causes d s =
    Settled->>= env _ _ (await_stacks-Settled env q.custom_stacks s) (λ t _.
      let changed = update_sequence q.id (progressed_sequence off d) t in
      Settled-trans env _ (update_sequence-Quieter (progressed_sequence off d) q.id t) (
        Settled-awaited env (env.saves changed) changed _ (λ w. inr (inl (changed, w)))
          (Settled-done env (publish-Quieter sequence_element q.id mode stopped d causes _ refl))))

await_progress-Settled :
    (env : Env) (id : ℕ) (mode : ProcessMode) (causes : ProcessReport) (d : Option ℕ) (s : State)
    → Settled env s (await_progress env id off mode causes d s)
unfolding await_progress
await_progress-Settled env id mode causes d s = elim (Option-cases (find_cycle s id)) [
  | inr (c, e) ↦ rw (e, await_progress) (await_cycle_progress-Settled env c mode causes s)
  | inl e ↦ elim (Option-cases (find_sequence s id)) [
    | inr (q, e') ↦
        rw (e, e', await_progress) (await_sequence_progress-Settled env q mode causes d s)
    | inl e' ↦ rw (e, e', await_progress) (Settled-done env (Quieter-refl s))
  ]
]

stop_sequences-Settled :
    (env : Env) (mode : ProcessMode) (causes : ProcessReport) (qs : List SequenceModel) (s : State)
    → Settled env s (stop_sequences env mode causes qs s)
unfolding stop_sequences
stop_sequences-Settled env mode causes [] s = Settled-done env (Quieter-refl s)
stop_sequences-Settled env mode causes (q ∷ qs) s =
    Settled->>= env _ _
      (Settled-if env (is_stopped q.status) s _ _ (Settled-done env (Quieter-refl s))
        (await_progress-Settled env q.id mode causes none s))
      (λ t _. stop_sequences-Settled env mode causes qs t)

pub stop_rest-Settled :
    (env : Env) (p : ProcessModel) (causes : ProcessReport) (i : Option ℕ) (s : State)
    → Settled env s (stop_rest env p causes i s)
unfolding stop_rest
stop_rest-Settled env p causes i s =
    Settled-awaited env (env.resolves s) s _ (λ w. inl (s, w))
      (Settled->>= env _ _
        (Settled-trans env _ (stop_modules-Quieter env p i s)
          (await_progress-Settled env p.cycle_id p.mode causes none _))
        (λ t _. stop_sequences-Settled env p.mode causes (sequences_of t p.cycle_id) t))
