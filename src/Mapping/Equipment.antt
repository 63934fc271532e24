-- ===== src/Mapping/Equipment.antt =====
-- infrastructure/schemas/mappers/sensor.mapper.ts, device.mapper.ts and schedule.mapper.ts: what is saved and
-- read again.
use cleveremote_box.Base.{◌≡◌, refl, ap, ◌∙◌, sym, Option, none, arith, ℕ}
use cleveremote_box.Mapping.Devices.{
  DeviceConfig, DeviceModel, Device, device_config, device_to_schema, device_to_model,
}
use cleveremote_box.Mapping.Json.{given, Document}
use cleveremote_box.Mapping.ScheduleDocuments.{Schedule, schedule_to_schema, schedule_to_model}
use cleveremote_box.Mapping.Schedules.{ScheduleModel}
use cleveremote_box.Mapping.Sensors.{
  SensorConfig, SensorModel, Sensor, sensor_config, sensor_to_schema, sensor_to_model,
}
use cleveremote_box.Mapping.Types.{SensorType, DeviceType, master, slave}

pub schedule_kept :
    (m : ScheduleModel) (d : Document Schedule)
    → schedule_to_schema m ≡ d.fields
    → schedule_to_model d ≡ record m { id = given d.id; dates = d.dates }
unfolding schedule_to_schema schedule_to_model
schedule_kept m d h = ap (λ f. schedule_to_model (record d { fields = f })) (sym h)

sensor_config-twice :
    (t : SensorType) (p : Option ℕ) (c : SensorConfig)
    → sensor_config t p (sensor_config t p c) ≡ sensor_config t p c
unfolding sensor_config
sensor_config-twice t p c = ground arith

-- Of a sensor's configuration, what is saved is what is read: the properties of its type and, where it is no
-- forecast, of its place under a parent or not.
pub sensor_kept :
    (m : SensorModel) (d : Document Sensor)
    → sensor_to_schema m ≡ d.fields
    → sensor_to_model d ≡ record m {
      id = given d.id;
      config = sensor_config m.type m.parent_id m.config;
      value = none;
      date = none;
      dates = d.dates;
    }
unfolding sensor_to_schema sensor_to_model
sensor_kept m d h =
    ap (λ f. sensor_to_model (record d { fields = f })) (sym h)
    ∙ ap (λ c. record m { id = given d.id; config = c; value = none; date = none; dates = d.dates })
        (sensor_config-twice m.type m.parent_id m.config)

device_config-twice :
    (t : DeviceType) (c : DeviceConfig) → device_config t (device_config t c) ≡ device_config t c
unfolding device_config
device_config-twice master c = refl
device_config-twice slave c = refl

pub device_kept :
    (m : DeviceModel) (d : Document Device)
    → device_to_schema m ≡ d.fields
    → device_to_model d
      ≡ record m { id = given d.id; config = device_config m.type m.config; dates = d.dates }
unfolding device_to_schema device_to_model
device_kept m d h =
    ap (λ f. device_to_model (record d { fields = f })) (sym h)
    ∙ ap (λ c. record m { id = given d.id; config = c; dates = d.dates })
        (device_config-twice m.type m.config)
