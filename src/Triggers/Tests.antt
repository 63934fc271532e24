-- ===== src/Triggers/Tests.antt =====
-- trigger.service.ts: runs of small services.
use cleveremote_box.Base.{
  get_elem?, count, remove_at, filter, any, ◌≡◌, refl, true, false, none, some, List, [], ◌∷◌, ◌++◌,
  arith,
}
use cleveremote_box.Conditions.Defs.{ConditionModel, sensor}
use cleveremote_box.Domain.{on}
use cleveremote_box.Triggers.Defs.{
  put, Service, TriggerModel, mark, in_progress, wait, Element, evaluating, Check, planned, saving,
}
use cleveremote_box.Triggers.Exclusive.{run-Exclusive}
use cleveremote_box.Triggers.Checks.{Exclusive, checks}
use cleveremote_box.Triggers.Firing.{on_saved-debounced, release-queued}
use cleveremote_box.Triggers.Service.{
  value_changed, on_saved, check_each, get_trigger_by_element_id, check_trigger_conditions, release,
  enqueue_check_trigger, begin_check, is_allow_check_trigger, fired, Sun,
}
use cleveremote_box.Triggers.Spent.{run-verified}
use cleveremote_box.Triggers.Objects.{Spent}
use cleveremote_box.Triggers.Steps.{
  step, run, Step, answered, listen_at, event_saved, element_changed,
}

abbrev hot : ConditionModel
hot = record {
  element_id = 3;
  element_type = sensor;
  operator = 0;
  value = 25;
  order = none;
  symbol_start = none;
  symbol_end = none;
}

-- Fires when element 3 changes, at most every 10 units of time, and waits for 5.
abbrev fan : TriggerModel
fan = record {
  id = 7;
  cycle_id = 1;
  name = 0;
  description = 0;
  conditions = hot ∷ [];
  time_after = some 5;
  sun_behavior = none;
  delay = some 10;
  should_confirmation = false;
  duration = none;
  last_triggered_at = none;
  is_paused = false;
  action = on;
  is_check_in_progress = false;
}

abbrev noon : Sun
noon = record { compute = λ b now. now }

abbrev heat : Element
heat = record { id = 3; value = 30 }

-- One trigger, whose object is 0
abbrev fresh : Service
fresh = record {
  heap = λ r. fan;
  next = 1;
  triggers = 0 ∷ [];
  trigger_check_queue = [];
  listening = [];
  pending = [];
  schedules = [];
}

-- The element changes twice during a check that is then not verified.
abbrev changes : List Step
changes =
    element_changed heat
    ∷ event_saved 0 true 100
    ∷ element_changed heat
    ∷ event_saved 0 true 101
    ∷ []

run-Exclusive_example : Exclusive 0 (run noon (changes ++ answered 0 (some false) 102 ∷ []) fresh)
unfolding run step value_changed listen_at get_trigger_by_element_id filter any count check_each
    check_trigger_conditions is_allow_check_trigger enqueue_check_trigger begin_check mark put
    in_progress wait remove_at
run-Exclusive_example =
    run-Exclusive noon 0 (changes ++ answered 0 (some false) 102 ∷ []) fresh (omega arith) refl
      (tt, (tt, (tt, (tt, (waits, tt)))))
  where
    waits :
        (c : Check)
        → get_elem? (run noon changes fresh).pending 0 ≡ some c
        → c.phase ≡ planned
        → count (checks c.trigger) (run noon changes fresh).pending ≡ 0
    waits c e p = absurd (cc)

-- The conditions are verified at 102: the copy is being saved.
abbrev saving_fan : Check
saving_fan = record { trigger = 0; element = heat; phase = saving (fired 102 fan) }

abbrev verified : Service
verified = record fresh { heap = λ r. in_progress true fan; pending = saving_fan ∷ [] }

run-verified_example : Spent 0 (run noon changes (step noon (answered 0 (some true) 103) verified))
unfolding in_progress count
run-verified_example =
    run-verified noon 0 0 saving_fan (fired 102 fan) true 103 changes verified refl refl refl refl
      (omega arith) refl

on_saved-debounced_example :
    check_trigger_conditions 1 heat 111 (on_saved noon saving_fan (fired 102 fan) 103 verified)
    ≡ on_saved noon saving_fan (fired 102 fan) 103 verified
on_saved-debounced_example =
    on_saved-debounced noon saving_fan fan 102 10 103 111 heat verified refl (omega arith)

abbrev checking : Service
checking = record fresh {
  heap = λ r. in_progress true fan;
  pending = record { trigger = 0; element = heat; phase = evaluating 100 } ∷ [];
}

release-queued_example :
    release 0 102 (check_trigger_conditions 0 heat 101 checking)
    ≡ begin_check 0 heat 102 (mark 0 false checking)
unfolding in_progress is_allow_check_trigger any
release-queued_example = release-queued 0 heat 101 102 checking refl refl refl refl refl
