-- ===== src/Mapping/Copies.antt =====
-- infrastructure/dto/synchronize.dto.ts: the schedules and triggers that are synchronized alone and those that
-- are synchronized in a cycle.
use cleveremote_box.Base.{◌≡◌, some, ◌>>=◌, arith}
use cleveremote_box.Mapping.Json.{given, object, Synchronized}
use cleveremote_box.Mapping.Schedules.{
  ScheduleDto, TriggerDto, TriggerSync, TriggerModel, copied_trigger, map_to_schedule_model,
  map_to_trigger_model, schedule_of_cycle, trigger_of_cycle,
}

-- A trigger model with its `trigger` copied
abbrev pub with_copy : TriggerSync → Synchronized TriggerModel → Synchronized TriggerModel
with_copy x m = record m { model = record m.model { trigger = given (copied_trigger x) } }

-- A schedule that is synchronized alone is mapped as one that is synchronized in a cycle, when it has a `cron`;
-- without one it is a TypeError alone only.
pub map_to_schedule_model-of_cycle :
    (s : ScheduleDto)
    → map_to_schedule_model s ≡ (object s.cron >>= λ c. some (schedule_of_cycle s))
unfolding map_to_schedule_model schedule_of_cycle
map_to_schedule_model-of_cycle s = ground arith

-- Alone, a trigger is mapped as in a cycle, but for a copy of its `trigger`, and a TypeError where it has none.
pub map_to_trigger_model-of_cycle :
    (t : TriggerDto)
    → map_to_trigger_model t
      ≡ (object t.trigger >>= λ x. trigger_of_cycle t >>= λ m. some (with_copy x m))
unfolding map_to_trigger_model trigger_of_cycle
map_to_trigger_model-of_cycle t = ground arith
