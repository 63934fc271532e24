-- ===== src/Sensors/Com.antt =====
-- com-sensor.strategy.ts: `read`. What modbusService.execute gives back is a parameter.
use cleveremote_box.Actuators.Switches.{execute}
use cleveremote_box.Base.{ℕ, ◌+◌, Bool, true, false, Option, none, some, List, [], ◌∷◌, map}
use cleveremote_box.Modbus.Requests.{
  ModbusFunctionName, read_coils, read_input_registers, read_discrete_inputs,
  read_holding_registers,
}

-- `ModbusExecuteResult`: the function, the value that was decoded if there is a type, and the data
pub record ExecuteResult : Type 0 where
  pub function : ModbusFunctionName
  pub evaluated : Option ℕ
  pub data' : List ℕ

-- `_extractValues`; a write or no result throws, which is none.
unfoldable pub values_of : ModbusFunctionName → Option ℕ → List ℕ → Option (List ℕ)
values_of read_holding_registers (some v) xs = some (v ∷ [])
values_of read_input_registers (some v) xs = some (v ∷ [])
values_of read_holding_registers none xs = some xs
values_of read_input_registers none xs = some xs
values_of read_coils e xs = some xs
values_of read_discrete_inputs e xs = some xs
values_of _ e xs = none

unfoldable pub extract_values : Option ExecuteResult → Option (List ℕ)
unfolding values_of
extract_values none = none
extract_values (some r) = values_of r.function r.evaluated r.data'

pub record ReadResult : Type 0 where
  pub value : ℕ
  pub is_formated : Bool

-- `read`: a sensor with a code and no parent reads one register at the address of the code.
unfoldable pub results_of : Bool → Option (List ℕ) → Option (List ReadResult)
results_of formated none = none
results_of formated (some vs) = some (map (λ v. record { value = v; is_formated = formated }) vs)

unfoldable pub read :
    (Option (ℕ × ℕ) → Option ExecuteResult) → ℕ → Option ℕ → Bool → Option (List ReadResult)
unfolding results_of extract_values
read execute address (some code) false =
    results_of true (extract_values (execute (some (address + code, 1))))
read execute address _ has_parent = results_of false (extract_values (execute none))
