-- ===== src/Mapping/Sensors.antt =====
-- `SensorSynchronizeDTO` of infrastructure/dto/synchronize.dto.ts, and infrastructure/schemas/mappers/
-- sensor.mapper.ts. A configuration is an object with the properties of any of its classes: the casts of the
-- source are not checked.
use cleveremote_box.Base.{ℕ, Bool, true, false, not, Option, none, some, ◌==◌, if◌then◌else◌}
use cleveremote_box.Mapping.Json.{
  Field, undefined, given, field_or, or_null, Synchronized, Dates, no_dates, Document,
}
use cleveremote_box.Mapping.Types.{SensorType, forcast, ForcastDataName, Style}

-- `SensorConfigDTO`, `ForcastSensorConfigModel`, `ComSensorConfigModel` and `SensorConfig`
pub record SensorConfig : Type 0 where
  pub cron_pattern : Field ℕ
  pub forcast_data : Field ForcastDataName
  pub com_request_id : Field ℕ
  pub code : Field ℕ
  pub scale : Field ℕ
  pub unit : Field ℕ

pub record SensorDto : Type 0 where
  pub id : Field ℕ
  pub name : ℕ
  pub description : ℕ
  pub style : Field Style
  pub type : SensorType
  pub parent_id : Field ℕ
  pub config : Field SensorConfig
  pub is_enabled : Field Bool
  pub display : Field Bool
  pub delete : Field Bool

pub record SensorModel : Type 0 where
  pub id : Field ℕ
  pub name : ℕ
  pub description : ℕ
  pub style : Field Style
  pub type : SensorType
  pub parent_id : Option ℕ
  pub is_enabled : Bool
  pub display : Bool
  pub config : SensorConfig
  pub value : Option ℕ
  pub date : Option ℕ
  pub dates : Dates

-- `Sensor` of the schema
pub record Sensor : Type 0 where
  pub name : ℕ
  pub description : ℕ
  pub style : Field Style
  pub type : SensorType
  pub parent_id : Option ℕ
  pub is_enabled : Bool
  pub display : Bool
  pub config : SensorConfig

abbrev pub empty_config : SensorConfig
empty_config = record {
  cron_pattern = undefined;
  forcast_data = undefined;
  com_request_id = undefined;
  code = undefined;
  scale = undefined;
  unit = undefined;
}

-- `SensorSynchronizeDTO.mapToSensorModel`: both classes of a configuration have no defaults, so that
-- `Object.assign` gives the properties of the payload.
unfoldable pub map_to_sensor_model : SensorDto → Synchronized SensorModel
map_to_sensor_model s = record {
  model = record {
    id = s.id;
    name = s.name;
    description = s.description;
    style = s.style;
    type = s.type;
    parent_id = or_null s.parent_id;
    is_enabled = field_or true s.is_enabled;
    display = field_or true s.display;
    config = field_or empty_config s.config;
    value = none;
    date = none;
    dates = no_dates;
  };
  delete = field_or false s.delete;
}

-- `if (sensor.parentId)`; the empty text is 0
abbrev pub has_parent : Option ℕ → Bool
has_parent none = false
has_parent (some p) = not (p == 0)

abbrev pub is_forcast : SensorType → Bool
is_forcast forcast = true
is_forcast _ = false

-- The branches of `mapToSchema` and of `_mapConfigToModel`, which take the same properties
unfoldable pub sensor_config : SensorType → Option ℕ → SensorConfig → SensorConfig
sensor_config t p c =
    if is_forcast t
    then record empty_config { cron_pattern = c.cron_pattern; forcast_data = c.forcast_data }
    else if has_parent p
    then record empty_config { code = c.code; scale = c.scale; unit = c.unit }
    else record empty_config { cron_pattern = c.cron_pattern; com_request_id = c.com_request_id }

-- `SensorMapper.mapToSchema`
unfoldable pub sensor_to_schema : SensorModel → Sensor
unfolding sensor_config
sensor_to_schema s = record {
  name = s.name;
  description = s.description;
  style = s.style;
  type = s.type;
  parent_id = s.parent_id;
  is_enabled = s.is_enabled;
  display = s.display;
  config = sensor_config s.type s.parent_id s.config;
}

-- `SensorMapper.mapToModel`
unfoldable pub sensor_to_model : Document Sensor → SensorModel
unfolding sensor_config
sensor_to_model d = record {
  id = given d.id;
  name = d.fields.name;
  description = d.fields.description;
  style = d.fields.style;
  type = d.fields.type;
  parent_id = d.fields.parent_id;
  is_enabled = d.fields.is_enabled;
  display = d.fields.display;
  config = sensor_config d.fields.type d.fields.parent_id d.fields.config;
  value = none;
  date = none;
  dates = d.dates;
}
