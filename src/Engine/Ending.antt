-- ===== src/Engine/Ending.antt =====
-- The depth of the calls of `reset` in execution.service.ts.
use cleveremote_box.Base.{ℕ, ◌+◌, ◌*◌, ◌≤◌, ◌≡◌, true, List}
use cleveremote_box.Domain.{system, force, off}
use cleveremote_box.Engine.Calls.{is_running_group, reset, execute}
use cleveremote_box.Engine.Conflicts.{Env, every_child_stopped}
use cleveremote_box.Engine.Execute.{call_within}
use cleveremote_box.Engine.Settling.{Settled, others, Covers}
use cleveremote_box.Engine.State.{new_process, ProcessModel, cycle_is, State, ProcessReport}

-- A stop of a cycle needs two calls for every other cycle that runs, and its own.
Resets : Env → List ℕ → ℕ → Type 0
Resets env ids fuel =
    (p : ProcessModel) (causes : ProcessReport) (s : State)
    → Covers ids s
    → 2 * others ids s p.cycle_id + 1 ≤ fuel
    → Settled env s (call_within env fuel (reset p causes) s)

-- The stop of a group whose children are all stopped needs one more.
StopsGroups : Env → List ℕ → ℕ → Type 0
StopsGroups env ids fuel =
    (g : ℕ) (s : State)
    → Covers ids s
    → cycle_is is_running_group s g ≡ true
    → every_child_stopped s g ≡ true
    → 2 * others ids s g + 2 ≤ fuel
    → Settled env s (call_within env fuel (execute (new_process g off force system)) s)
