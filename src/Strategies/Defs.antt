-- ===== src/Strategies/Defs.antt =====
-- device-strategies/inverter-device.strategy.ts and modbus-slave.strategy.ts: the writes that prepare a
-- device, by `_runComRequest` of modbus.service.ts.
use cleveremote_box.Actuators.Override.{
  value_override, ComRequestConfigModel, Persistence, build_override_params,
}
use cleveremote_box.Base.{
  if◌then◌else◌, ◌>>=◌, or_else, ℕ, Bool, true, false, none, some, List, [], ◌∷◌,
}
use cleveremote_box.Modbus.Requests.{
  run_com_request, Client, ComRequestConfig, Response, WriteParam, rejected,
}

-- A request in the database, with `config.done`
pub record ComRequestModel : Type 0 where
  pub id : ℕ
  pub config : ComRequestConfigModel
  pub done : Bool

-- The bus of the device, whether the device is resolved, and whether the database saves a request
pub record World : Type 0 where
  pub client : Client
  pub is_resolved : Bool
  pub saves : ℕ → Bool

-- What `_runComRequest` reads of a configuration
abbrev pub config_of : ComRequestConfigModel → ComRequestConfig
config_of c = record {
  functions = or_else [] c.functions;
  address = or_else 0 c.address;
  type = c.type;
  params = c.params >>= λ p. some p.length;
}

abbrev pub persistence_pair : Persistence → Bool × ℕ
persistence_pair p = (or_else false p.persist, or_else 0 p.address)

-- What it reads of its second argument
abbrev pub write_param_of : ComRequestConfigModel → WriteParam
write_param_of c = record {
  address = or_else 0 c.address;
  params = c.params >>= λ p.
      some (record {
        value = p.value;
        persistence = p.persistence >>= λ q. some (persistence_pair q);
      });
}

-- `modbusService.execute(comRequest, param)`
unfoldable pub execute : World → ComRequestModel → ComRequestConfigModel → Response
unfolding run_com_request
execute w r param =
    run_com_request w.client w.is_resolved (config_of r.config) (some (write_param_of param))

abbrev pub is_rejected : Response → Bool
is_rejected rejected = true
is_rejected _ = false

-- The `try` of the loops: `config.done = true` is saved after the execution, unless one of the two throws.
unfoldable pub attempt :
    World → (ComRequestModel → ComRequestConfigModel) → ComRequestModel → ComRequestModel
unfolding execute
attempt w param r =
    if is_rejected (execute w r (param r))
    then r
    else if w.saves r.id
    then record r { done = true }
    else r

-- The loop over the requests that pass a test: the requests afterwards, and those executed, in order
unfoldable pub each_request :
    World
    → (ComRequestModel → Bool)
    → (ComRequestModel → ComRequestConfigModel)
    → List ComRequestModel
    → List ComRequestModel × List ℕ
unfolding attempt
each_request w skips param [] = ([], [])
each_request w skips param (r ∷ rs) =
    let (kept, ids) = each_request w skips param rs in
    if skips r then (r ∷ kept, ids) else (attempt w param r ∷ kept, r.id ∷ ids)

-- `buildOverrideParams(comRequest.config, { params: { value: 0 } })`
abbrev pub zero_of : ComRequestModel → ComRequestConfigModel
zero_of r = build_override_params r.config (value_override none 0)

abbrev pub own_config : ComRequestModel → ComRequestConfigModel
own_config r = r.config

abbrev pub is_done : ComRequestModel → Bool
is_done r = r.done

abbrev pub never : ComRequestModel → Bool
never r = false

-- `InverterDeviceStrategy.init` and `reset`, and `ModbusSlaveStrategy.init`
unfoldable pub inverter_init : World → List ComRequestModel → List ComRequestModel × List ℕ
unfolding each_request
inverter_init w rs = each_request w is_done zero_of rs

unfoldable pub inverter_reset : World → List ComRequestModel → List ComRequestModel × List ℕ
unfolding each_request
inverter_reset w rs = each_request w never zero_of rs

unfoldable pub slave_init : World → List ComRequestModel → List ComRequestModel × List ℕ
unfolding each_request
slave_init w rs = each_request w is_done own_config rs
