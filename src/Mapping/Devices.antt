-- ===== src/Mapping/Devices.antt =====
-- `DeviceSynchronizeDTO` of infrastructure/dto/synchronize.dto.ts, and infrastructure/schemas/mappers/
-- device.mapper.ts. A configuration is an object with the properties of both of its classes.
use cleveremote_box.Base.{ℕ, Bool, false, Option, none, some, List, ◌>>=◌}
use cleveremote_box.Mapping.Json.{
  Field, undefined, given, field_or, map_each, Synchronized, Dates, no_dates, Document,
}
use cleveremote_box.Mapping.Requests.{ComRequestDto, ComRequestModel, map_to_com_request_model}
use cleveremote_box.Mapping.Types.{DeviceType, master, slave, DeviceKind, MasterProtocol}

-- `DeviceConfigDTO`, `MasterConfigModel` and `SlaveConfigModel`, and the configuration of the schema.
-- `DeviceConfigDTO` has no `discoveryRegisters`; the validation keeps properties that it does not know.
pub record DeviceConfig : Type 0 where
  pub protocol : Field MasterProtocol
  pub ip_address : Field ℕ
  pub port : Field ℕ
  pub baud_rate : Field ℕ
  pub path : Field ℕ
  pub timeout : Field ℕ
  pub discovery_registers : Field (List ℕ)
  pub slave_id : Field ℕ
  pub master_device_id : Field ℕ

-- What a payload says of a device, but for the devices below it
pub record DeviceInfo : Type 0 where
  pub id : Field ℕ
  pub name : ℕ
  pub description : ℕ
  pub type : DeviceType
  pub kind : Field DeviceKind
  pub config : Field DeviceConfig
  pub delete : Field Bool
  pub com_requests : Option (List ComRequestDto)

-- `DeviceSynchronizeDTO`, with its `slaveDevices`; `dto.slaveDevices?.map` takes `null` for `undefined`.
mutual
  pub data DeviceDto : Type 0 where
    device : DeviceInfo → SlaveDevices → DeviceDto

  pub data SlaveDevices : Type 0 where
    not_given : SlaveDevices
    these : DeviceDtos → SlaveDevices

  pub data DeviceDtos : Type 0 where
    no_device : DeviceDtos
    next_device : DeviceDto → DeviceDtos → DeviceDtos

-- models/device.model.ts
pub record DeviceModel : Type 0 where
  pub id : Field ℕ
  pub name : ℕ
  pub type : DeviceType
  pub kind : Field DeviceKind
  pub description : ℕ
  pub config : DeviceConfig
  pub dates : Dates

-- `SynchronizeDeviceModel`, with its `devices` and `comrequests`
mutual
  pub data DeviceTree : Type 0 where
    tree :
        Synchronized DeviceModel
        → Devices
        → Option (List (Synchronized ComRequestModel))
        → DeviceTree

  pub data Devices : Type 0 where
    untouched : Devices
    replaced : DeviceTrees → Devices

  pub data DeviceTrees : Type 0 where
    no_tree : DeviceTrees
    next_tree : DeviceTree → DeviceTrees → DeviceTrees

abbrev pub empty_config : DeviceConfig
empty_config = record {
  protocol = undefined;
  ip_address = undefined;
  port = undefined;
  baud_rate = undefined;
  path = undefined;
  timeout = undefined;
  discovery_registers = undefined;
  slave_id = undefined;
  master_device_id = undefined;
}

-- Both classes of a configuration have no defaults, so that `Object.assign` gives the properties of the payload.
unfoldable pub info_to_model : DeviceInfo → Synchronized DeviceModel
info_to_model i = record {
  model = record {
    id = i.id;
    name = i.name;
    type = i.type;
    kind = i.kind;
    description = i.description;
    config = field_or empty_config i.config;
    dates = no_dates;
  };
  delete = field_or false i.delete;
}

unfoldable pub requests_to_model :
    Option (List ComRequestDto) → Option (Option (List (Synchronized ComRequestModel)))
unfolding map_each map_to_com_request_model
requests_to_model none = some none
requests_to_model (some rs) = elim (map_each map_to_com_request_model rs) [
  | none ↦ none
  | some ms ↦ some (some ms)
]

-- `DeviceSynchronizeDTO.mapToDeviceModel`
unfoldable mutual
  unfolding info_to_model requests_to_model

  pub map_to_device_model : DeviceDto → Option DeviceTree
  map_to_device_model (device i ss) = map_slaves ss >>= λ slaves.
      requests_to_model i.com_requests >>= λ requests. some (tree (info_to_model i) slaves requests)

  pub map_slaves : SlaveDevices → Option Devices
  map_slaves not_given = some untouched
  map_slaves (these ds) = map_devices ds >>= λ ts. some (replaced ts)

  pub map_devices : DeviceDtos → Option DeviceTrees
  map_devices no_device = some no_tree
  map_devices (next_device d ds) =
      map_to_device_model d >>= λ t. map_devices ds >>= λ ts. some (next_tree t ts)

-- `Device` of the schema
pub record Device : Type 0 where
  pub name : ℕ
  pub type : DeviceType
  pub kind : Field DeviceKind
  pub description : ℕ
  pub config : DeviceConfig

-- The branches of `mapToSchema` and of `_mapConfig`, which take the same properties
unfoldable pub device_config : DeviceType → DeviceConfig → DeviceConfig
device_config master c = record c { slave_id = undefined; master_device_id = undefined }
device_config slave c = record empty_config {
  slave_id = c.slave_id;
  master_device_id = c.master_device_id;
}

-- `DeviceMapper`
unfoldable pub device_to_schema : DeviceModel → Device
unfolding device_config
device_to_schema m = record {
  name = m.name;
  type = m.type;
  kind = m.kind;
  description = m.description;
  config = device_config m.type m.config;
}

unfoldable pub device_to_model : Document Device → DeviceModel
unfolding device_config
device_to_model d = record {
  id = given d.id;
  name = d.fields.name;
  type = d.fields.type;
  kind = d.fields.kind;
  description = d.fields.description;
  config = device_config d.fields.type d.fields.config;
  dates = d.dates;
}
