-- ===== src/Engine/Quiet/Calls.antt =====
-- The stops of execution.service.ts with all the stops that they cause: of the modules that the cycle
-- started, of the group above, of a group's children.
use cleveremote_box.Base.{
  Option-cases, ℕ, zero, suc, ◌≡◌, refl, ap, ◌∙◌, inl, inr, Bool, true, false, none, some, List,
  arith, Option,
}
use cleveremote_box.Domain.{CycleModel, ChildCycleRef, ProcessType, is_on, force}
use cleveremote_box.Engine.Calls.{
  execute, Caller, reset_body, release_auto_started, reset, Call, group_to_stop, sync_parent_group,
  is_running_group, stop_rest,
}
use cleveremote_box.Engine.Conflicts.{is_running, Env}
use cleveremote_box.Engine.Execute.{
  manage_at, initialize_process, known, queued_run, execute_force, manage_process_type, call_within,
  call_body, execute_body, initialize_at,
}
use cleveremote_box.Engine.Force.{
  stop_child, cascade, rule_one, force_off, stop_group_children, delete_token, force_on,
}
use cleveremote_box.Engine.Quiet.Defs.{
  Quiet->>=, Quieter-trans, Quieter-refl, Quiet-trans, Quiet-when, Quiet-for_each, Quiet, Quiet-if,
  Quiet-done,
}
use cleveremote_box.Engine.Quiet.Stops.{
  stop_rest-Settled, set_child_timers_paused-Quieter, clear_queued_sequences-Quieter,
  stop_marked-Quieter, alike-Quieter,
}
use cleveremote_box.Engine.Settling.{Settled-Quiet}
use cleveremote_box.Engine.State.{
  ProcessReport, new_process, index_of, CauseText, State, ProcessModel, cycle_is,
}
use cleveremote_box.Engine.Outcome.{◌>>=◌}

-- The calls that stop: `reset`, and `execute` at `FORCE` with `OFF` of a cycle of the structure
abbrev pub IsStop : Call → State → Type 0
IsStop (reset p causes) s = Unit {0}
IsStop (execute p) s =
    (p.type ≡ force) × (is_on p.action ≡ false) × (p.id ≡ none) × (known s p.cycle_id ≡ true)

abbrev pub Quietly : Caller → Type 0
Quietly call = (c : Call) (s : State) → IsStop c s → Quiet s (call c s)

known_of_cycle_is :
    (P : CycleModel → Bool) (s : State) (id : ℕ) → cycle_is P s id ≡ true → known s id ≡ true
unfolding cycle_is
known_of_cycle_is P s id h = ground arith

group_to_stop-known : (s : State) (id g : ℕ) → group_to_stop s id ≡ some g → known s g ≡ true
unfolding group_to_stop
group_to_stop-known s id g h = ground (arith, known_of_cycle_is is_running_group s g)

module _ (call : Caller) (quietly : Quietly call) where
  release_auto_started-Quiet : (id : ℕ) (s : State) → Quiet s (release_auto_started call id s)
  unfolding release_auto_started
  release_auto_started-Quiet id s = Quiet-for_each _ _ s (λ proc t. quietly _ t tt)

  sync_parent_group-Quiet : (id : ℕ) (s : State) → Quiet s (sync_parent_group call id s)
  unfolding sync_parent_group new_process
  sync_parent_group-Quiet id s = elim (Option-cases (group_to_stop s id)) [
    | inl e ↦ rw (e, sync_parent_group) (Quiet-done (Quieter-refl s))
    | inr (g, e) ↦
        rw (e, sync_parent_group) (quietly _ s (refl, refl, refl, group_to_stop-known s id g e))
  ]

  -- A stop from the moment when the cycle is marked as stopped
  pub stop_from-Quiet :
      (env : Env) (p : ProcessModel) (causes : ProcessReport) (i : Option ℕ) (s : State)
      → Quiet s (
          release_auto_started call p.cycle_id s >>= λ s'.
          stop_rest env p causes i s' >>= λ s''. sync_parent_group call p.cycle_id s'')
  stop_from-Quiet env p causes i s = Quiet->>= s _ _ (release_auto_started-Quiet p.cycle_id s) (λ t.
      Quiet->>= t _ _ (Settled-Quiet env t _ (stop_rest-Settled env p causes i t))
        (λ u. sync_parent_group-Quiet p.cycle_id u))

  reset_body-Quiet :
      (env : Env) (p : ProcessModel) (causes : ProcessReport) (s : State)
      → Quiet s (reset_body env call p causes s)
  unfolding reset_body
  reset_body-Quiet env p causes s =
      let first = clear_queued_sequences-Quieter p.cycle_id s in
      Quiet-if _ _ _ _
        (Quiet-trans (Quieter-trans first (stop_marked-Quieter p.cycle_id _)) _
          (stop_from-Quiet env p causes (index_of s p.cycle_id) _))
        (Quiet-done first)

  cascade-Quiet :
      (type : ProcessType) (cause : CauseText) (procs : List ProcessModel) (s : State)
      → Quiet s (cascade call type cause procs s)
  unfolding cascade
  cascade-Quiet type cause procs s = Quiet-for_each _ procs s (λ proc t. quietly _ t tt)

  rule_one-Quiet : (env : Env) (p : ProcessModel) (s : State) → Quiet s (rule_one env call p s)
  unfolding rule_one
  rule_one-Quiet env p s =
      Quiet->>= s _ _ (Quiet-if _ _ _ _ (cascade-Quiet _ _ _ s) (Quiet-done (Quieter-refl s)))
        (λ t. Quiet-if _ _ _ _ (cascade-Quiet _ _ _ t) (Quiet-done (Quieter-refl t)))

  stop_child-Quiet : (g : ℕ) (ref : ChildCycleRef) (s : State) → Quiet s (stop_child call g ref s)
  unfolding stop_child new_process
  stop_child-Quiet g ref s =
      Quiet-if _ _ _ _
        (Quiet->>= s _ _
          (Quiet-when (cycle_is is_running s ref.cycle_id) s _ _
            (λ e. quietly _ s (refl, refl, refl, known_of_cycle_is is_running s ref.cycle_id e))
            (λ _. Quiet-done (Quieter-refl s)))
          (λ t. Quiet-done (set_child_timers_paused-Quieter ref.cycle_id true t)))
        (Quiet-done (Quieter-refl s))

  stop_group_children-Quiet : (g : ℕ) (s : State) → Quiet s (stop_group_children call g s)
  unfolding stop_group_children
  stop_group_children-Quiet g s =
      Quiet-trans
        (alike-Quieter s (record s { group_run_tokens = delete_token g s.group_run_tokens }) refl
          refl refl)
        _ (Quiet-for_each _ _ _ (λ ref t. stop_child-Quiet g ref t))

  force_off-Quiet : (p : ProcessModel) (s : State) → Quiet s (force_off call p s)
  unfolding force_off
  force_off-Quiet p s =
      Quiet->>= s _ _
        (Quiet->>= s _ _
          (Quiet-if _ _ _ _ (stop_group_children-Quiet p.cycle_id s) (Quiet-done (Quieter-refl s)))
          (λ t. quietly _ t tt))
        (λ t.
          Quiet-if _ _ _ _
            (Quiet-trans (set_child_timers_paused-Quieter p.cycle_id true t) _
              (sync_parent_group-Quiet p.cycle_id _))
            (Quiet-done (Quieter-refl t)))

  execute_force-Quiet :
      (env : Env) (p : ProcessModel) (s : State)
      → is_on p.action ≡ false
      → p.id ≡ none
      → Quiet s (execute_force env call p s)
  unfolding execute_force queued_run
  execute_force-Quiet env p s a i =
      let e : queued_run s p.id ≡ none = ap (queued_run s) i in
      rw (e, execute_force)
        (Quiet->>= s _ _ (rule_one-Quiet env p s) (λ t.
          Quiet-when (is_on p.action) t (force_on env call p t) (force_off call p t) (λ b. cc)
            (λ _. force_off-Quiet p t)))

  execute_body-Quiet :
      (env : Env) (p : ProcessModel) (s : State)
      → IsStop (execute p) s
      → Quiet s (execute_body env call p s)
  unfolding execute_body initialize_process initialize_at manage_process_type manage_at
  execute_body-Quiet env p s (f, a, i, k) =
      let e : initialize_process p s ≡ some p = ap (λ t. initialize_at t p s) f ∙ rw k refl in
      let e' : manage_process_type env call p s ≡ execute_force env call p s =
        ap (λ t. manage_at t env call p s) f in
      rw (e, execute_body) (rw e' (execute_force-Quiet env p s a i))

pub call_within-Quiet : (env : Env) (fuel : ℕ) → Quietly (call_within env fuel)
unfolding call_within call_body Quiet
call_within-Quiet env zero c s h = tt
call_within-Quiet env (suc fuel) (reset p causes) s h =
    reset_body-Quiet (call_within env fuel) (call_within-Quiet env fuel) env p causes s
call_within-Quiet env (suc fuel) (execute p) s h =
    execute_body-Quiet (call_within env fuel) (call_within-Quiet env fuel) env p s h
