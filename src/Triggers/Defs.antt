-- ===== src/Triggers/Defs.antt =====
-- trigger.model.ts, trigger.schema.ts, trigger.mapper.ts and the state of trigger.service.ts.
use cleveremote_box.Base.{◌==◌, if◌then◌else◌, ℕ, suc, Bool, false, Option, List, [], ◌∷◌, ◌++◌}
use cleveremote_box.Conditions.Defs.{ConditionModel}
use cleveremote_box.Domain.{ExecutableAction}

-- `SunBehavior`: the event, the direction and the offset
pub record SunBehavior : Type 0 where
  pub is_sunrise : Bool
  pub is_after : Bool
  pub time : ℕ

-- `TriggerModel`; `undefined` and `false` of `isCheckInProgress` are one value.
pub record TriggerModel : Type 0 where
  pub id : ℕ
  pub cycle_id : ℕ
  pub name : ℕ
  pub description : ℕ
  pub conditions : List ConditionModel
  pub time_after : Option ℕ
  pub sun_behavior : Option SunBehavior
  pub delay : Option ℕ
  pub should_confirmation : Bool
  pub duration : Option ℕ
  pub last_triggered_at : Option ℕ
  pub is_paused : Bool
  pub action : ExecutableAction
  pub is_check_in_progress : Bool

-- `Trigger` of the schema
pub record Trigger : Type 0 where
  pub cycle_id : ℕ
  pub name : ℕ
  pub description : ℕ
  pub conditions : List ConditionModel
  pub time_after : Option ℕ
  pub sun_behavior : Option SunBehavior
  pub delay : Option ℕ
  pub should_confirmation : Bool
  pub duration : Option ℕ
  pub last_triggered_at : Option ℕ
  pub is_paused : Bool
  pub action : ExecutableAction

-- `TriggerMapper.mapToSchema`
unfoldable pub map_to_schema : TriggerModel → Trigger
map_to_schema t = record {
  cycle_id = t.cycle_id;
  name = t.name;
  description = t.description;
  conditions = t.conditions;
  time_after = t.time_after;
  sun_behavior = t.sun_behavior;
  delay = t.delay;
  should_confirmation = t.should_confirmation;
  duration = t.duration;
  last_triggered_at = t.last_triggered_at;
  is_paused = t.is_paused;
  action = t.action;
}

-- `TriggerMapper.mapToModel`, of the document with this `_id`
unfoldable pub map_to_model : ℕ → Trigger → TriggerModel
map_to_model id t = record {
  id = id;
  cycle_id = t.cycle_id;
  name = t.name;
  description = t.description;
  conditions = t.conditions;
  time_after = t.time_after;
  sun_behavior = t.sun_behavior;
  delay = t.delay;
  should_confirmation = t.should_confirmation;
  duration = t.duration;
  last_triggered_at = t.last_triggered_at;
  is_paused = t.is_paused;
  action = t.action;
  is_check_in_progress = false;
}

-- What `triggerRepository.save` returns when the database stores the document
unfoldable pub saved_model : TriggerModel → TriggerModel
unfolding map_to_schema map_to_model
saved_model t = map_to_model t.id (map_to_schema t)

-- A `SensorValueModel` or a `ProcessValueModel`; the number stands for its value or status.
pub record Element : Type 0 where
  pub id : ℕ
  pub value : ℕ

-- A reference to a `TriggerModel` object: objects are shared by the list, the queue and the checks.
abbrev pub Ref : Type 0
Ref = ℕ

-- The schedule that `_planifyExecution` saves; a date of none is an invalid one.
pub record Planned : Type 0 where
  pub cycle_id : ℕ
  pub trigger_id : ℕ
  pub date : Option ℕ
  pub should_confirmation : Bool
  pub duration : Option ℕ
  pub action : ExecutableAction

-- What an asynchronous call waits for: `evaluateConditions` with its `currentDate`; the save of the
-- copy; the save of the schedule; the end of the planned execution; the save of `setPaused`.
pub data Phase : Type 0 where
  evaluating : ℕ → Phase
  saving : TriggerModel → Phase
  planning : Planned → Phase
  planned : Phase
  pausing : TriggerModel → Phase

pub record Check : Type 0 where
  pub trigger : Ref
  pub element : Element
  pub phase : Phase

-- `heap` holds the objects and `next` is the reference of the next one; `listening` holds the calls of
-- `_listenValueChanged` that wait for `eventRepository.save`.
pub record Service : Type 0 where
  pub heap : Ref → TriggerModel
  pub next : Ref
  pub triggers : List Ref
  pub trigger_check_queue : List (Ref × Element)
  pub listening : List (List Ref × Element)
  pub pending : List Check
  pub schedules : List Planned  -- given to `initSchedule`, latest first

unfoldable pub put : {A : Type 0} → (ℕ → A) → ℕ → A → ℕ → A
put f i a j = if j == i then a else f j

unfoldable pub in_progress : Bool → TriggerModel → TriggerModel
in_progress b t = record t { is_check_in_progress = b }

-- `trigger.isCheckInProgress = b`
unfoldable pub mark : Ref → Bool → Service → Service
unfolding put in_progress
mark r b s = record s { heap = put s.heap r (in_progress b (s.heap r)) }

-- A new object
unfoldable pub alloc : TriggerModel → Service → Service
unfolding put
alloc t s = record s { heap = put s.heap s.next t; next = suc s.next }

unfoldable pub wait : Check → Service → Service
wait c s = record s { pending = s.pending ++ c ∷ [] }
