-- ===== src/Mapping/Schedules.antt =====
-- `ScheduleSynchronizeDTO` and `TriggerSynchronizeDTO` of infrastructure/dto/synchronize.dto.ts, alone and in a
-- cycle.
use cleveremote_box.Base.{ℕ, Bool, false, Option, none, some, List, [], ◌>>=◌}
use cleveremote_box.Domain.{ExecutableAction}
use cleveremote_box.Mapping.Conditions.{ConditionSync, ConditionModel, to_models}
use cleveremote_box.Mapping.Json.{
  Field, undefined, given, field_or, object, Synchronized, Dates, no_dates,
}
use cleveremote_box.Mapping.Types.{SunState, TimeDirection}

pub record SunBehavior : Type 0 where
  pub sun_state : SunState
  pub time_direction : TimeDirection
  pub time : ℕ

pub record CronSync : Type 0 where
  pub date : Field ℕ
  pub pattern : Field ℕ
  pub sun_behavior : Field SunBehavior
  pub after : Field ℕ

pub record TriggerSync : Type 0 where
  pub time_after : ℕ
  pub sun_behavior : Field SunBehavior

pub record ScheduleDto : Type 0 where
  pub id : Field ℕ
  pub name : ℕ
  pub description : ℕ
  pub cycle_id : ℕ
  pub cron : Field CronSync
  pub is_paused : Bool
  pub should_confirmation : Bool
  pub duration : Field ℕ
  pub delete : Field Bool

pub record TriggerDto : Type 0 where
  pub id : Field ℕ
  pub name : ℕ
  pub description : ℕ
  pub cycle_id : ℕ
  pub action : ExecutableAction
  pub trigger : Field TriggerSync
  pub is_paused : Bool
  pub delay : ℕ
  pub should_confirmation : Bool
  pub duration : Field ℕ
  pub conditions : Field (List (Field ConditionSync))
  pub delete : Field Bool

-- models/schedule.model.ts
pub record Cron : Type 0 where
  pub date : Field ℕ
  pub pattern : Field ℕ
  pub sun_behavior : Field SunBehavior
  pub after : Field ℕ

pub record ScheduleModel : Type 0 where
  pub id : Field ℕ
  pub cycle_id : ℕ
  pub name : ℕ
  pub description : ℕ
  pub cron : Cron
  pub is_paused : Bool
  pub should_confirmation : Bool
  pub duration : Field ℕ
  pub dates : Dates

-- models/trigger.model.ts, as a payload gives it
pub record TriggerModel : Type 0 where
  pub id : Field ℕ
  pub cycle_id : ℕ
  pub name : ℕ
  pub description : ℕ
  pub conditions : List ConditionModel
  pub trigger : Field TriggerSync
  pub delay : ℕ
  pub should_confirmation : Bool
  pub duration : Field ℕ
  pub last_triggered_at : Option ℕ
  pub is_paused : Bool
  pub action : ExecutableAction
  pub is_check_in_progress : Option Bool
  pub dates : Dates

-- The copy of a behavior that is there, by its three properties
unfoldable pub copied_behavior : Field SunBehavior → Field SunBehavior
copied_behavior (given b) =
    given (record { sun_state = b.sun_state; time_direction = b.time_direction; time = b.time })
copied_behavior _ = undefined

-- The `cron` of a model, from a payload that has one; `after` is not copied.
unfoldable pub copied_cron : CronSync → Cron
unfolding copied_behavior
copied_cron c = record {
  date = c.date;
  pattern = c.pattern;
  sun_behavior = copied_behavior c.sun_behavior;
  after = undefined;
}

abbrev empty_cron : Cron
empty_cron = record {
  date = undefined;
  pattern = undefined;
  sun_behavior = undefined;
  after = undefined;
}

-- `scheduleSync.cron?.date`, and so on
unfoldable pub cron_of : Field CronSync → Cron
unfolding copied_cron
cron_of (given c) = copied_cron c
cron_of _ = empty_cron

-- `ScheduleSynchronizeDTO.mapToScheduleModel`: a TypeError without `cron`
unfoldable pub map_to_schedule_model : ScheduleDto → Option (Synchronized ScheduleModel)
unfolding copied_cron
map_to_schedule_model s = object s.cron >>= λ c. some (record {
  model = record {
    id = s.id;
    cycle_id = s.cycle_id;
    name = s.name;
    description = s.description;
    cron = copied_cron c;
    is_paused = s.is_paused;
    should_confirmation = s.should_confirmation;
    duration = s.duration;
    dates = no_dates;
  };
  delete = field_or false s.delete;
})

-- The schedules of `mapToCycleModel`
unfoldable pub schedule_of_cycle : ScheduleDto → Synchronized ScheduleModel
unfolding cron_of
schedule_of_cycle s = record {
  model = record {
    id = s.id;
    cycle_id = s.cycle_id;
    name = s.name;
    description = s.description;
    cron = cron_of s.cron;
    is_paused = s.is_paused;
    should_confirmation = s.should_confirmation;
    duration = s.duration;
    dates = no_dates;
  };
  delete = field_or false s.delete;
}

unfoldable pub copied_trigger : TriggerSync → TriggerSync
unfolding copied_behavior
copied_trigger t = record {
  time_after = t.time_after;
  sun_behavior = copied_behavior t.sun_behavior;
}

-- `TriggerSynchronizeDTO.mapToTriggerModel`: a TypeError without `trigger`
unfoldable pub map_to_trigger_model : TriggerDto → Option (Synchronized TriggerModel)
unfolding copied_trigger to_models
map_to_trigger_model t = object t.trigger >>= λ x.
    to_models (field_or [] t.conditions) >>= λ conditions. some (record {
      model = record {
        id = t.id;
        cycle_id = t.cycle_id;
        name = t.name;
        description = t.description;
        conditions = conditions;
        trigger = given (copied_trigger x);
        delay = t.delay;
        should_confirmation = t.should_confirmation;
        duration = t.duration;
        last_triggered_at = none;
        is_paused = t.is_paused;
        action = t.action;
        is_check_in_progress = none;
        dates = no_dates;
      };
      delete = field_or false t.delete;
    })

-- The triggers of `mapToCycleModel`, which have the object of the payload
unfoldable pub trigger_of_cycle : TriggerDto → Option (Synchronized TriggerModel)
unfolding to_models
trigger_of_cycle t = to_models (field_or [] t.conditions) >>= λ conditions. some (record {
  model = record {
    id = t.id;
    cycle_id = t.cycle_id;
    name = t.name;
    description = t.description;
    conditions = conditions;
    trigger = t.trigger;
    delay = t.delay;
    should_confirmation = t.should_confirmation;
    duration = t.duration;
    last_triggered_at = none;
    is_paused = t.is_paused;
    action = t.action;
    is_check_in_progress = none;
    dates = no_dates;
  };
  delete = field_or false t.delete;
})
