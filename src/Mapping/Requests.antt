-- ===== src/Mapping/Requests.antt =====
-- `ComRequestDTO` with its configuration, of infrastructure/dto/synchronize.dto.ts, and
-- infrastructure/schemas/mappers/com-request-config.mapper.ts and modbus-task.mapper.ts.
use cleveremote_box.Base.{ℕ, Bool, false, Option, none, some, List, ◌>>=◌}
use cleveremote_box.Mapping.Json.{
  Field, given, given_or_undefined, Synchronized, Dates, no_dates, Document, field_or, or_undefined,
  object, spread,
}
use cleveremote_box.Mapping.Types.{ComRequestType}
use cleveremote_box.Modbus.Registers.{ModbusValueType}
use cleveremote_box.Modbus.Requests.{ModbusFunctionName}

pub record PersistenceDto : Type 0 where
  pub persist : Bool
  pub address : ℕ

-- A number or an array of numbers
pub data Numbers : Type 0 where
  single : ℕ → Numbers
  several : List ℕ → Numbers

pub record ModbusTaskParams : Type 0 where
  pub length : ℕ
  pub scale : Field ℕ
  pub unit : Field ℕ
  pub value : Field Numbers
  pub formula : Field ℕ
  pub persistence : Field PersistenceDto

pub record ComRequestConfigDto : Type 0 where
  pub function : List ModbusFunctionName
  pub address : ℕ
  pub disabled : Field Bool
  pub done : Field Bool
  pub type : Field ModbusValueType
  pub params : Field ModbusTaskParams

pub record ComRequestDto : Type 0 where
  pub id : Field ℕ
  pub device_id : ℕ
  pub name : ℕ
  pub description : Field ℕ
  pub type : List ComRequestType
  pub config : Field ComRequestConfigDto
  pub delete : Field Bool

-- `ComRequestConfigModel`; `params` is the object of the payload.
pub record ComRequestConfigModel : Type 0 where
  pub function : List ModbusFunctionName
  pub address : ℕ
  pub disabled : Field Bool
  pub done : Field Bool
  pub type : Field ModbusValueType
  pub params : Option ModbusTaskParams

pub record ComRequestModel : Type 0 where
  pub id : Field ℕ
  pub device_id : ℕ
  pub name : ℕ
  pub description : Field ℕ
  pub type : List ComRequestType
  pub config : ComRequestConfigModel
  pub dates : Dates

-- The object that `mapToComRequestModel` and `mapToCycleModel` build of a configuration
unfoldable pub config_to_model : ComRequestConfigDto → ComRequestConfigModel
config_to_model c = record {
  function = c.function;
  address = c.address;
  disabled = c.disabled;
  done = given (field_or false c.done);
  type = c.type;
  params = or_undefined c.params;
}

-- A request without `config` is a TypeError.
unfoldable pub map_to_com_request_model : ComRequestDto → Option (Synchronized ComRequestModel)
unfolding config_to_model
map_to_com_request_model dto = object dto.config >>= λ c. some (record {
  model = record {
    id = dto.id;
    device_id = dto.device_id;
    name = dto.name;
    description = dto.description;
    type = dto.type;
    config = config_to_model c;
    dates = no_dates;
  };
  delete = field_or false dto.delete;
})

-- The subdocuments of `ComRequestConfig` in comrequest.schema.ts
pub record Persistence : Type 0 where
  pub persist : Bool
  pub address : ℕ

pub record Params : Type 0 where
  pub length : ℕ
  pub scale : Field ℕ
  pub unit : Field ℕ
  pub value : Field Numbers
  pub formula : Field ℕ
  pub persistence : Option Persistence

pub record ComRequestConfig : Type 0 where
  pub function : List ModbusFunctionName
  pub address : ℕ
  pub disabled : Field Bool
  pub done : Bool
  pub type : Field ModbusValueType
  pub params : Option Params

-- A `persistence` of `null` is a TypeError.
unfoldable pub params_to_schema : ModbusTaskParams → Option Params
params_to_schema p =
    spread
      (λ (q : PersistenceDto).
        some (let r : Persistence = record { persist = q.persist; address = q.address } in r))
      p.persistence
    >>= λ q. some (record {
      length = p.length;
      scale = p.scale;
      unit = p.unit;
      value = p.value;
      formula = p.formula;
      persistence = q;
    })

unfoldable pub map_com_request_config_to_schema : ComRequestConfigModel → Option ComRequestConfig
unfolding params_to_schema
map_com_request_config_to_schema c = elim c.params [
  | none ↦ some (record {
    function = c.function;
    address = c.address;
    disabled = c.disabled;
    done = field_or false c.done;
    type = c.type;
    params = none;
  })
  | some p ↦ params_to_schema p >>= λ q. some (record {
    function = c.function;
    address = c.address;
    disabled = c.disabled;
    done = field_or false c.done;
    type = c.type;
    params = some q;
  })
]

unfoldable pub params_to_model : Params → ModbusTaskParams
params_to_model p = record {
  length = p.length;
  scale = p.scale;
  unit = p.unit;
  value = p.value;
  formula = p.formula;
  persistence =
      given_or_undefined
        (p.persistence >>= λ q. some (record { persist = q.persist; address = q.address }));
}

unfoldable pub map_com_request_config_to_model : ComRequestConfig → ComRequestConfigModel
unfolding params_to_model
map_com_request_config_to_model c = record {
  function = c.function;
  address = c.address;
  disabled = c.disabled;
  done = given c.done;
  type = c.type;
  params = c.params >>= λ p. some (params_to_model p);
}

-- `ComRequest` of the schema
pub record ComRequest : Type 0 where
  pub device_id : ℕ
  pub name : ℕ
  pub description : Field ℕ
  pub type : List ComRequestType
  pub config : ComRequestConfig

-- `ModbusTaskMapper`
unfoldable pub request_to_schema : ComRequestModel → Option ComRequest
unfolding map_com_request_config_to_schema
request_to_schema m = map_com_request_config_to_schema m.config >>= λ c. some (record {
  device_id = m.device_id;
  name = m.name;
  description = m.description;
  type = m.type;
  config = c;
})

unfoldable pub request_to_model : Document ComRequest → ComRequestModel
unfolding map_com_request_config_to_model
request_to_model d = record {
  id = given d.id;
  device_id = d.fields.device_id;
  name = d.fields.name;
  description = d.fields.description;
  type = d.fields.type;
  config = map_com_request_config_to_model d.fields.config;
  dates = d.dates;
}
