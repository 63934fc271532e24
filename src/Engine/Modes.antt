-- ===== src/Engine/Modes.antt =====
-- execution.service.ts: `_manageProcessMode` and `_applyCycleConditionsGate`, which decide between
-- a start and a request for confirmation.
use cleveremote_box.Base.{
  ℕ, Bool, true, false, Option, none, some, List, [], ◌∷◌, ◌++◌, ltb, ◌||◌, not, if◌then◌else◌, any,
  find, is_some,
}
use cleveremote_box.Domain.{
  ProcessMode, scheduled, trigger, ProcessType, force, confirmation, same_mode, ModePriority,
  is_confirmation,
}
use cleveremote_box.Engine.State.{
  State, ProcessModel, ProcessReport, Cause, schedule_triggered, conflicted_with_cycle,
  condition_not_verified, find_cycle, name_of, push, index_of,
}
use cleveremote_box.Engine.Conflicts.{Env, conflicted}
use cleveremote_box.Engine.Calls.{report}

-- `cycle.modePriority.find(x => x.mode === mode)`; none stands for `undefined`.
unfoldable pub priority_of : State → ℕ → ProcessMode → Option ℕ
priority_of s id mode = elim (find_cycle s id) [
  | none ↦ none
  | some c ↦ elim (find (λ (x : ModePriority). same_mode x.mode mode) c.mode_priority) [
    | none ↦ none
    | some x ↦ some x.priority
  ]
]

-- What the decision has come to: the type of the process, the report, and whether the process was
-- put on the process list. The entry is the process itself: it has the type it ends with.
pub record Verdict : Type 0 where
  pub type : ProcessType
  pub causes : ProcessReport
  pub pushed : Bool

-- The type when this process takes precedence; none is the `TypeError` of `process.schedule`.
unfoldable pub winning_type : ProcessModel → Option ProcessType
winning_type p =
    if same_mode p.mode scheduled || same_mode p.mode trigger
    then (elim p.schedule [ none ↦ none | some b ↦ some (if b then confirmation else force) ])
    else some force

-- The loop over the conflicting processes. none is a `TypeError`, of a mode with no priority or of
-- a process with no schedule.
unfoldable pub arbitrate : State → ProcessModel → List ProcessModel → Verdict → Option Verdict
arbitrate s p [] v = some v
arbitrate s p (proc ∷ rest) v = elim (priority_of s p.cycle_id p.mode) [
  | none ↦ none
  | some mine ↦ elim (priority_of s proc.cycle_id proc.mode) [
    | none ↦ none
    | some other ↦ elim (ltb mine other) [
      | true ↦ elim (winning_type p) [
        | none ↦ none
        | some type ↦ arbitrate s p rest (record v {
          type = type;
          causes = v.causes ++ report proc type (conflicted_with_cycle (name_of s proc.cycle_id));
        })
      ]
      | false ↦ some (
          if is_some (index_of s p.cycle_id) || v.pushed
          then record v { type = confirmation }
          else record {
            type = confirmation;
            causes =
                v.causes
                ++ report proc confirmation (conflicted_with_cycle (name_of s proc.cycle_id));
            pushed = true;
          })
    ]
  ]
]

abbrev pub confirms_schedule : ProcessModel → Bool
confirms_schedule p = elim p.schedule [ none ↦ false | some b ↦ b ]

-- The verdict before the loop
unfoldable pub first_verdict : State → ProcessModel → List ProcessModel → Verdict
first_verdict s p conflicts =
    if confirms_schedule p
    then record {
      type = confirmation;
      causes = report p confirmation (schedule_triggered (name_of s p.cycle_id));
      pushed = true;
    }
    else record {
      type = elim conflicts [ [] ↦ force | _ ∷ _ ↦ p.type ];
      causes = [];
      pushed = false;
    }

-- `_applyCycleConditionsGate`
unfoldable pub conditions_gate : Env → State → ProcessModel → Verdict → Verdict
conditions_gate env s p v = if env.conditions_verified p.cycle_id then v else record {
  type = confirmation;
  causes =
      v.causes
      ++ record {
        id = some p.cycle_id;
        type = confirmation;
        cause = condition_not_verified (name_of s p.cycle_id);
      }
        ∷ [];
  pushed = not (is_some (index_of s p.cycle_id)) || v.pushed;
}

unfoldable pub decide : Env → State → ProcessModel → Option Verdict
decide env s p =
    let conflicts = conflicted env s p in
    elim (arbitrate s p conflicts (first_verdict s p conflicts)) [
      | none ↦ none
      | some v ↦ some (conditions_gate env s p v)
    ]

-- Whether a confirmation is asked for
unfoldable pub asks_confirmation : Verdict → Bool
asks_confirmation v = any (λ (x : Cause). is_confirmation x.type) v.causes

-- The process list after the decision
unfoldable pub listed : ProcessModel → Verdict → State → State
listed p v s = if v.pushed then push (record p { type = v.type }) s else s
