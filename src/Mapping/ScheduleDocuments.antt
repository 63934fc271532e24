-- ===== src/Mapping/ScheduleDocuments.antt =====
-- infrastructure/schemas/schedule.schema.ts and infrastructure/schemas/mappers/schedule.mapper.ts.
use cleveremote_box.Base.{ℕ, Bool}
use cleveremote_box.Mapping.Json.{Field, given, Document}
use cleveremote_box.Mapping.Schedules.{Cron, ScheduleModel}

-- `Schedule` of the schema
pub record Schedule : Type 0 where
  pub cycle_id : ℕ
  pub name : ℕ
  pub description : ℕ
  pub cron : Cron
  pub is_paused : Bool
  pub should_confirmation : Bool
  pub duration : Field ℕ

-- `ScheduleMapper`
unfoldable pub schedule_to_schema : ScheduleModel → Schedule
schedule_to_schema s = record {
  cycle_id = s.cycle_id;
  name = s.name;
  description = s.description;
  cron = s.cron;
  is_paused = s.is_paused;
  should_confirmation = s.should_confirmation;
  duration = s.duration;
}

unfoldable pub schedule_to_model : Document Schedule → ScheduleModel
schedule_to_model d = record {
  id = given d.id;
  cycle_id = d.fields.cycle_id;
  name = d.fields.name;
  description = d.fields.description;
  cron = d.fields.cron;
  is_paused = d.fields.is_paused;
  should_confirmation = d.fields.should_confirmation;
  duration = d.fields.duration;
  dates = d.dates;
}
