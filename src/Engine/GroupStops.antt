-- ===== src/Engine/GroupStops.antt =====
-- The stop of a running group whose children are all stopped, in execution.service.ts.
use cleveremote_box.Base.{
  All-all, All-mono, if-elim, ℕ, ◌≡◌, refl, sym, ◌∙◌, Bool, true, false, ◌&&◌, not, some, arith,
  false≢true,
}
use cleveremote_box.Domain.{ChildCycleRef, off, is_group, is_plain, force, is_module, system}
use cleveremote_box.Engine.Calls.{is_running_group, reset, Caller}
use cleveremote_box.Engine.Conflicts.{
  Env, every_child_stopped, is_skipped, children_of, child_stopped,
}
use cleveremote_box.Engine.Execute.{
  execute_force, initialize_process, execute_body, manage_process_type, queued_run, initialize_at,
  known, manage_at,
}
use cleveremote_box.Engine.Force.{
  stop_group_children, stop_child, delete_token, rule_one, force_off,
}
use cleveremote_box.Engine.Outcome.{◌>>=◌}
use cleveremote_box.Engine.Quiet.Defs.{Quieter, Quieter-refl, running}
use cleveremote_box.Engine.Quiet.Stops.{set_child_timers_paused-Quieter, alike-Quieter}
use cleveremote_box.Engine.Settling.{
  Settled, Settled-trans, Settled-done, Settled->>=, Settled-for_each,
}
use cleveremote_box.Engine.State.{State, new_process, cycle_is, ProcessReport}

-- A child that counts as stopped does not run.
child_stopped-running :
    (s : State) (ref : ChildCycleRef)
    → child_stopped s ref ≡ true
    → is_skipped ref ≡ false
    → running s ref.cycle_id ≡ false
unfolding child_stopped cycle_is
child_stopped-running s ref h k = ground arith

-- So stopping it calls nothing.
stop_child-Settled :
    (env : Env) (call : Caller) (g : ℕ) (ref : ChildCycleRef) (s t : State)
    → child_stopped s ref ≡ true
    → Quieter s t
    → Settled env t (stop_child call g ref t)
unfolding stop_child
stop_child-Settled env call g ref s t h q =
    if-elim (Settled env t) (not (is_skipped ref) && known t ref.cycle_id) _ _
      (λ b.
        Settled->>= env _ _
          (if-elim (Settled env t) (running t ref.cycle_id) _ _
            (λ e. absurd (
              false≢true (
                sym (
                  child_stopped-running s ref h
                    (not_skipped (is_skipped ref) (known t ref.cycle_id) b))
                ∙ q.still ref.cycle_id e)))
            (λ _. Settled-done env (Quieter-refl t)))
          (λ u r. Settled-done env (set_child_timers_paused-Quieter ref.cycle_id true u)))
      (λ _. Settled-done env (Quieter-refl t))
  where
    not_skipped : (b c : Bool) → (not b && c) ≡ true → b ≡ false
    not_skipped b c h = ground arith

stop_group_children-Settled :
    (env : Env) (call : Caller) (g : ℕ) (s : State)
    → every_child_stopped s g ≡ true
    → Settled env s (stop_group_children call g s)
unfolding stop_group_children every_child_stopped
stop_group_children-Settled env call g s h =
    let freed = record s { group_run_tokens = delete_token g s.group_run_tokens } in
    let q = alike-Quieter s freed refl refl refl in
    Settled-trans env _ q (
      Settled-for_each env s _ (children_of s g) freed q (
        All-mono {P = λ ref. child_stopped s ref ≡ true} (children_of s g)
          (λ ref x t r. stop_child-Settled env call g ref s t x r)
          (All-all (child_stopped s) (children_of s g) h)))

running_group-facts :
    (s : State) (g : ℕ)
    → cycle_is is_running_group s g ≡ true
    → (known s g ≡ true)
      × ((cycle_is (λ c. is_module c.type) s g ≡ false)
          × (cycle_is (λ c. is_plain c.type) s g ≡ false))
unfolding cycle_is
running_group-facts s g h = ground arith

-- `execute` of a stop of a running group is the stop of its children and its own.
pub execute_body-group :
    (env : Env) (call : Caller) (g : ℕ) (s : State)
    → cycle_is is_running_group s g ≡ true
    → execute_body env call (new_process g off force system) s
      ≡ force_off call (new_process g off force system) s
unfolding execute_body initialize_process initialize_at manage_process_type manage_at execute_force
    queued_run rule_one new_process ◌>>=◌
execute_body-group env call g s h =
    let facts = running_group-facts s g h in
    let p = new_process g off force system in
    let known_group : initialize_process p s ≡ some p = rw facts.0 refl in
    let forced : execute_force env call p s ≡ force_off call p s =
      rw (facts.1.0, facts.1.1, rule_one, execute_force) refl in
    rw (known_group, execute_body) forced

pub force_off-group :
    (env : Env) (call : Caller) (g : ℕ) (s : State)
    → cycle_is is_running_group s g ≡ true
    → every_child_stopped s g ≡ true
    → ((causes : ProcessReport) (t : State)
        → Quieter s t
        → Settled env t (call (reset (new_process g off force system) causes) t))
    → Settled env s (force_off call (new_process g off force system) s)
unfolding force_off new_process
force_off-group env call g s h all_stopped resets =
    Settled->>= env _ _
      (Settled->>= env _ _
        (if-elim (Settled env s) (cycle_is (λ c. is_group c.type) s g) _ _
          (λ _. stop_group_children-Settled env call g s all_stopped)
          (λ _. Settled-done env (Quieter-refl s)))
        (λ t q. resets _ t q))
      (λ t _. Settled-done env (Quieter-refl t))
