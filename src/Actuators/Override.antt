-- ===== src/Actuators/Override.antt =====
-- build-override-params.util.ts: a configuration of a request, field by field the override's or its own.
use cleveremote_box.Base.{coalesce, or_else, ℕ, Bool, false, Option, none, some, List}
use cleveremote_box.Modbus.Registers.{ModbusValueType}
use cleveremote_box.Modbus.Requests.{ModbusFunctionName, WriteValue, single}

pub record Persistence : Type 0 where
  pub persist : Option Bool
  pub address : Option ℕ

-- `params` of `ComRequestConfigModel`; a unit and a formula are texts.
pub record Params : Type 0 where
  pub length : Option ℕ
  pub scale : Option ℕ
  pub unit : Option ℕ
  pub value : Option WriteValue
  pub formula : Option ℕ
  pub persistence : Option Persistence

-- `ComRequestConfigModel`
pub record ComRequestConfigModel : Type 0 where
  pub address : Option ℕ
  pub functions : Option (List ModbusFunctionName)
  pub disabled : Option Bool
  pub type : Option ModbusValueType
  pub params : Option Params

-- `o?.f`
unfoldable pub chain : {A B : Type 0} → Option A → (A → Option B) → Option B
chain none f = none
chain (some a) f = f a

-- `over.params?.f ?? params.params?.f`
unfoldable pub param_of :
    {B : Type 0} → (Params → Option B) → ComRequestConfigModel → ComRequestConfigModel → Option B
unfolding chain
param_of f params over = coalesce (chain over.params f) (chain params.params f)

-- `over.params?.persistence?.f ?? params.params?.persistence?.f ?? d`
unfoldable pub persistence_of :
    {B : Type 0} → (Persistence → Option B) → B → ComRequestConfigModel → ComRequestConfigModel → B
unfolding chain
persistence_of f d params over = or_else d (
    coalesce (chain (chain over.params (λ p. p.persistence)) f)
      (chain (chain params.params (λ p. p.persistence)) f))

-- `buildOverrideParams`
unfoldable pub build_override_params :
    ComRequestConfigModel → ComRequestConfigModel → ComRequestConfigModel
unfolding param_of persistence_of
build_override_params params over = record {
  address = coalesce over.address params.address;
  functions = coalesce over.functions params.functions;
  disabled = coalesce over.disabled params.disabled;
  type = coalesce over.type params.type;
  params = some (record {
    length = param_of (λ p. p.length) params over;
    scale = param_of (λ p. p.scale) params over;
    unit = param_of (λ p. p.unit) params over;
    value = param_of (λ p. p.value) params over;
    formula = param_of (λ p. p.formula) params over;
    persistence = some (record {
      persist = some (persistence_of (λ p. p.persist) false params over);
      address = some (persistence_of (λ p. p.address) 0 params over);
    });
  });
}

-- What is written: with `{ address, params: { value } }` as the override
abbrev pub value_override : Option ℕ → ℕ → ComRequestConfigModel
value_override address v = record {
  address = address;
  functions = none;
  disabled = none;
  type = none;
  params = some (record {
    length = none;
    scale = none;
    unit = none;
    value = some (single v);
    formula = none;
    persistence = none;
  });
}
