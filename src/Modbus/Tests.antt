-- ===== src/Modbus/Tests.antt =====
-- The theorems on the Modbus service at concrete inputs.
use cleveremote_box.Base.{
  none, find, get_elem?, ◌==◌, ◌+◌, ◌*◌, ◌≡◌, refl, true, false, some, [], ◌∷◌, if◌then◌else◌, ℕ,
}
use cleveremote_box.Modbus.Monitors.{poll_all, released, poll_outputs}
use cleveremote_box.Modbus.Monitors.Inputs.{held_polls, press_reported_once, first_reach}
use cleveremote_box.Modbus.Monitors.Outputs.{poll_outputs-reports, expected}
use cleveremote_box.Modbus.Params.{
  upper, parse_int, resolve_param_address-name, resolve_param_address, inverter_address,
  span_digits, match_item, match_group,
}
use cleveremote_box.Modbus.Queue.{submit, submitted, Inv, finish, idle, run}
use cleveremote_box.Modbus.Queue.Order.{run-idle-Inv}
use cleveremote_box.Modbus.Requests.{
  undefined, failed, answered, on_failure, Reply, network_failure, Client, ComRequestConfig,
  run_com_request, choose_function, read_holding_registers, write_single_register, other_failure,
  result,
}
use cleveremote_box.Modbus.Requests.Laws.{Ends, first_failure, read_replies, run_com_request-Ends}
use cleveremote_box.Modbus.Inverter.{
  InverterConfigParam, named, write_at, write_params, write_params-prefix, Prefix, write_param,
}

resolve_param_address-name_example :
    resolve_param_address (b'f' ∷ b'1' ∷ b'.' ∷ b'0' ∷ b'9' ∷ [])
    ≡ some (parse_int 0 (b'1' ∷ []) * 256 + parse_int 0 (b'0' ∷ b'9' ∷ []))
unfolding upper
resolve_param_address-name_example =
    resolve_param_address-name b'f' b'1' [] b'0' (b'9' ∷ []) refl (refl, tt) (refl, (refl, tt))

press_reported_once_example :
    (poll_all 5000 ((1000, true) ∷ held_polls (4000 ∷ 6000 ∷ 7000 ∷ [])) released).1
    ≡ first_reach 5000 1000 (4000 ∷ 6000 ∷ 7000 ∷ [])
press_reported_once_example = press_reported_once 5000 1000 (4000 ∷ 6000 ∷ 7000 ∷ [])

poll_outputs-reports_example :
    ((poll_outputs (some (false ∷ true ∷ [])) (true ∷ true ∷ false ∷ [])).0
      ≡ some (true ∷ true ∷ false ∷ []))
    × (find
          (λ x. x.channel == 0)
          (poll_outputs (some (false ∷ true ∷ [])) (true ∷ true ∷ false ∷ [])).1
        ≡ expected 0 (get_elem? (false ∷ true ∷ []) 0) (get_elem? (true ∷ true ∷ false ∷ []) 0))
poll_outputs-reports_example = poll_outputs-reports (false ∷ true ∷ []) (true ∷ true ∷ false ∷ []) 0

run-idle-Inv_example :
    Inv
      (submitted (submit 1 ∷ submit 2 ∷ finish false ∷ []))
      (run (submit 1 ∷ submit 2 ∷ finish false ∷ []) idle)
run-idle-Inv_example = run-idle-Inv (submit 1 ∷ submit 2 ∷ finish false ∷ [])

-- The registers of this device are read, but have no value.
abbrev undecodable : Client
undecodable = record {
  connect = answered;
  read = λ _ _ _. answered;
  write = λ _ _ _. answered;
  decodes = λ _ _. failed other_failure;
}

abbrev registers : ComRequestConfig
registers = record {
  functions = write_single_register ∷ read_holding_registers ∷ [];
  address = 0;
  type = none;
  params = some (some 2);
}

run_com_request-Ends_example :
    Ends
      (result read_holding_registers)
      (first_failure (read_replies undecodable registers read_holding_registers (some 2)))
      (run_com_request undecodable true registers none)
unfolding choose_function find
run_com_request-Ends_example =
    run_com_request-Ends undecodable registers read_holding_registers (some 2) refl refl

abbrev speed : InverterConfigParam
speed = record { param = b'F' ∷ b'1' ∷ b'.' ∷ b'2' ∷ []; value = 50; persist = true }

abbrev volatile : InverterConfigParam
volatile = record { param = b'F' ∷ b'1' ∷ b'.' ∷ b'2' ∷ []; value = 50; persist = false }

abbrev misspelt : InverterConfigParam
misspelt = record { param = b'X' ∷ []; value = 50; persist = false }

-- A bus that answers at the address of the speed in the EEPROM only
abbrev worn : ℕ → ℕ → Reply
worn a v = if a == 4354 then answered else failed network_failure

write_params-prefix_example :
    Prefix worn
      (named (misspelt ∷ speed ∷ volatile ∷ speed ∷ []))
      (write_params worn (misspelt ∷ speed ∷ volatile ∷ speed ∷ []))
write_params-prefix_example = write_params-prefix worn (misspelt ∷ speed ∷ volatile ∷ speed ∷ [])

run_at_worn :
    write_params worn (misspelt ∷ speed ∷ volatile ∷ speed ∷ []) ≡ ((4354, 50) ∷ [], undefined)
unfolding resolve_param_address match_group match_item span_digits parse_int upper inverter_address
    write_params write_at write_param on_failure
run_at_worn = refl
