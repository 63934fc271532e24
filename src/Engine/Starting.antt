-- ===== src/Engine/Starting.antt =====
-- When a start does something else: the `ON` branch of `FORCE` in execution.service.ts.
use cleveremote_box.Base.{is_some, ◌≡◌, ap, true, false}
use cleveremote_box.Domain.{same_mode, manual}
use cleveremote_box.Engine.Calls.{Caller}
use cleveremote_box.Engine.Conflicts.{Env}
use cleveremote_box.Engine.Force.{force_on, reclaim, has_timers, set_child_timers_paused}
use cleveremote_box.Engine.Outcome.{done}
use cleveremote_box.Engine.Quiet.Defs.{running}
use cleveremote_box.Engine.State.{cycle_is, State, ProcessModel}

-- Rule 3: `ON` at `FORCE` for a cycle that runs only updates the owner of a module. Nothing else of
-- the state changes, whatever the fuel of the calls.
force_on-running :
    (env : Env) (call : Caller) (p : ProcessModel) (s : State)
    → running s p.cycle_id ≡ true
    → force_on env call p s ≡ done (reclaim p s)
unfolding force_on
force_on-running env call p s h = rw h

module _ (env : Env) (call : Caller) (p : ProcessModel) (s : State) where
  -- A manual `ON` of a group's child that has a trigger or a schedule of its own only releases
  -- these: no process starts and the group above is left alone.
  pub manual_child-on :
      running s p.cycle_id ≡ false
      → p.mode ≡ manual
      → cycle_is (λ c. is_some c.parent_cycle_id) s p.cycle_id ≡ true
      → has_timers s p.cycle_id ≡ true
      → force_on env call p s ≡ done (set_child_timers_paused p.cycle_id false s)
  unfolding force_on
  manual_child-on idle m child timers =
      let e : same_mode p.mode manual ≡ true = ap (λ x. same_mode x manual) m in
      rw (idle, e, child, timers)
