-- ===== src/Triggers/Service.antt =====
-- trigger.service.ts: the operations, cut at each `await`.
use cleveremote_box.Base.{
  filter, find, any, leb, if◌then◌else◌, ◌==◌, ℕ, ◌+◌, Bool, true, false, not, Option, none, some,
  List, [], ◌∷◌, ◌++◌, same_bool,
}
use cleveremote_box.Conditions.Defs.{ConditionModel}
use cleveremote_box.Triggers.Defs.{
  Service, Ref, Element, Check, wait, pausing, planning, saved_model, evaluating, Planned,
  TriggerModel, saving, mark, planned, alloc, SunBehavior,
}

-- The dates of the sun events are computed by a library, from the date and the place.
pub record Sun : Type 0 where
  pub compute : SunBehavior → ℕ → ℕ

abbrev pub has_id : Service → ℕ → Ref → Bool
has_id s i r = (s.heap r).id == i

abbrev pub queued : Service → ℕ → Ref × Element → Bool
queued s i e = has_id s i e.0

-- `this.triggers[findIndex(x => x.id === id)] = r`; an index of -1 leaves the entries.
unfoldable pub replace_first : (Ref → Bool) → Ref → List Ref → List Ref
replace_first p r [] = []
replace_first p r (x ∷ xs) = if p x then r ∷ xs else x ∷ replace_first p r xs

unfoldable pub drop_first : {A : Type 0} → (A → Bool) → List A → List A
drop_first p [] = []
drop_first p (x ∷ xs) = if p x then xs else x ∷ drop_first p xs

-- `initTrigger`
unfoldable pub init_trigger : TriggerModel → Bool → Service → Service
unfolding alloc drop_first replace_first any
init_trigger t is_deleted s =
    let made = alloc t s in
    if is_deleted
    then record made { triggers = drop_first (has_id s t.id) s.triggers }
    else if any (has_id s t.id) s.triggers
    then record made { triggers = replace_first (has_id s t.id) s.next s.triggers }
    else record made { triggers = s.triggers ++ s.next ∷ [] }

-- `currentDate.getTime() >= (lastTriggeredAt.getTime() + delay || 0)`, without a date or a delay true
unfoldable pub is_allow_check_trigger : Option ℕ → Option ℕ → ℕ → Bool
is_allow_check_trigger (some last) (some delay) now = leb (last + delay) now
is_allow_check_trigger _ _ now = true

-- `_enqueueCheckTrigger`, of a trigger whose check is in progress
unfoldable pub enqueue_check_trigger : Ref → Element → Service → Service
unfolding any
enqueue_check_trigger r element s =
    if any (queued s (s.heap r).id) s.trigger_check_queue
    then s
    else record s { trigger_check_queue = s.trigger_check_queue ++ (r, element) ∷ [] }

-- `_checkTriggerConditions`, up to the evaluation of the conditions
unfoldable pub begin_check : Ref → Element → ℕ → Service → Service
unfolding mark wait
begin_check r element now s =
    wait (record { trigger = r; element = element; phase = evaluating now }) (mark r true s)

unfoldable pub check_trigger_conditions : Ref → Element → ℕ → Service → Service
unfolding is_allow_check_trigger enqueue_check_trigger begin_check
check_trigger_conditions r element now s =
    let t = s.heap r in
    if not (is_allow_check_trigger t.last_triggered_at t.delay now)
    then s
    else if t.is_check_in_progress
    then enqueue_check_trigger r element s
    else if t.is_paused
    then s
    else begin_check r element now s

-- The subscriber of `_processQueueCheckInProgress`, for the trigger's identifier
unfoldable pub dequeue_at : Option (Ref × Element) → ℕ → ℕ → Service → Service
unfolding drop_first check_trigger_conditions
dequeue_at none i now s = s
dequeue_at (some (r, element)) i now s =
    check_trigger_conditions r element now
      (record s { trigger_check_queue = drop_first (queued s i) s.trigger_check_queue })

unfoldable pub process_queue_check_in_progress : ℕ → ℕ → Service → Service
unfolding dequeue_at find
process_queue_check_in_progress i now s =
    dequeue_at (find (queued s i) s.trigger_check_queue) i now s

-- The end of the evaluation: not verified, the trigger is released, and the entry of the queue that
-- waits for it is checked.
unfoldable pub release : Ref → ℕ → Service → Service
unfolding mark process_queue_check_in_progress
release r now s =
    let freed = mark r false s in process_queue_check_in_progress (freed.heap r).id now freed

-- Verified: `{ ...trigger, lastTriggeredAt: currentDate }` is saved. An evaluation that throws (none)
-- leaves the trigger as it is.
unfoldable pub fired : ℕ → TriggerModel → TriggerModel
fired date t = record t { last_triggered_at = some date }

unfoldable pub on_evaluated : Check → ℕ → Option Bool → ℕ → Service → Service
unfolding release fired wait
on_evaluated c date none now s = s
on_evaluated c date (some true) now s =
    wait (record c { phase = saving (fired date (s.heap c.trigger)) }) s
on_evaluated c date (some false) now s = release c.trigger now s

-- The date of `_planifyExecution`
unfoldable pub execution_date : Sun → TriggerModel → ℕ → Option ℕ
execution_date sun t now = elim t.sun_behavior [
  | none ↦ elim t.time_after [ none ↦ none | some d ↦ some (now + d) ]
  | some b ↦ some (sun.compute b now)
]

unfoldable pub schedule_of : Sun → TriggerModel → ℕ → Planned
unfolding execution_date
schedule_of sun t now = record {
  cycle_id = t.cycle_id;
  trigger_id = t.id;
  date = execution_date sun t now;
  should_confirmation = t.should_confirmation;
  duration = t.duration;
  action = t.action;
}

-- `triggers[findIndex(x => x.id === trigger.id)]` becomes what `save` returns for the copy.
unfoldable pub put_saved : Ref → TriggerModel → Service → Service
unfolding saved_model alloc replace_first
put_saved r copy s =
    let made = alloc (saved_model copy) s in
    record made { triggers = replace_first (has_id s (s.heap r).id) s.next s.triggers }

-- The saved trigger takes its place in the list, and its schedule is saved.
unfoldable pub on_saved : Sun → Check → TriggerModel → ℕ → Service → Service
unfolding put_saved saved_model schedule_of wait
on_saved sun c copy now s =
    let schedule = schedule_of sun (saved_model copy) now in
    wait (record { trigger = s.next; element = c.element; phase = planning schedule })
      (put_saved c.trigger copy s)

-- The schedule is saved, and its job is made.
unfoldable pub on_planned : Check → Planned → Service → Service
unfolding wait
on_planned c p s = wait (record c { phase = planned }) (record s { schedules = p ∷ s.schedules })

-- `setPaused`: the copy is saved, then takes the place of the tracked one.
unfoldable pub paused_as : Bool → TriggerModel → TriggerModel
paused_as b t = record t { is_paused = b }

unfoldable pub set_paused : Ref → Bool → Service → Service
unfolding paused_as wait
set_paused r b s =
    if same_bool (s.heap r).is_paused b
    then s
    else wait
        (record {
          trigger = r;
          element = record { id = 0; value = 0 };
          phase = pausing (paused_as b (s.heap r));
        })
        s

unfoldable pub on_paused : Check → TriggerModel → Service → Service
unfolding put_saved
on_paused c copy s = put_saved c.trigger copy s

-- `_getTriggerByElementId`
abbrev pub watches : ℕ → TriggerModel → Bool
watches e t = any (λ (c : ConditionModel). c.element_id == e) t.conditions

unfoldable pub get_trigger_by_element_id : ℕ → Service → List Ref
unfolding filter any
get_trigger_by_element_id e s = filter (λ r. watches e (s.heap r)) s.triggers

-- `_listenValueChanged`, up to the save of the event, and after it
unfoldable pub value_changed : Element → Service → Service
unfolding get_trigger_by_element_id
value_changed element s = record s {
  listening = s.listening ++ (get_trigger_by_element_id element.id s, element) ∷ [];
}

unfoldable pub check_each : List Ref → Element → ℕ → Service → Service
unfolding check_trigger_conditions
check_each [] element now s = s
check_each (r ∷ rs) element now s =
    check_each rs element now (check_trigger_conditions r element now s)
