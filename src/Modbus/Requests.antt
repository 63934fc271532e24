-- ===== src/Modbus/Requests.antt =====
-- modbus.service.ts: `_runComRequest`. The client of modbus-serial, and how the decoding of a
-- reading ends, which may read a register more, are parameters; the device and its master are resolved or not.
use cleveremote_box.Base.{
  find-sat, find, ◌==◌, if◌then◌else◌, is_some, coalesce, or_else, ℕ, ◌+◌, ◌≡◌, ◌≢◌, Bool, true,
  false, ◌||◌, not, Option, none, some, List, arith,
}
use cleveremote_box.Domain.Cycle.{resolved}
use cleveremote_box.Modbus.Registers.{default_length_by_type, ModbusValueType}
use cleveremote_box.Mapping.Json.{given}
pub mod Laws

pub data ModbusFunctionName : Type 0 where
  read_coils read_discrete_inputs read_holding_registers read_input_registers : ModbusFunctionName
  write_single_coil write_single_register write_multiple_coils : ModbusFunctionName
  write_multiple_registers : ModbusFunctionName

-- `f.startsWith('write')`; every other name starts with `read`.
abbrev pub is_write : ModbusFunctionName → Bool
is_write write_single_coil = true
is_write write_single_register = true
is_write write_multiple_coils = true
is_write write_multiple_registers = true
is_write _ = false

abbrev pub is_multiple : ModbusFunctionName → Bool
is_multiple write_multiple_coils = true
is_multiple write_multiple_registers = true
is_multiple _ = false

abbrev pub reads_states : ModbusFunctionName → Bool
reads_states read_coils = true
reads_states read_discrete_inputs = true
reads_states _ = false

-- `params.value`: one value or an array
pub data WriteValue : Type 0 where
  single : ℕ → WriteValue
  several : List ℕ → WriteValue

abbrev pub is_array : Option WriteValue → Bool
is_array none = false
is_array (some (single n)) = false
is_array (some (several ns)) = true

pub record WriteParams : Type 0 where
  pub value : Option WriteValue
  pub persistence : Option (Bool × ℕ)

-- The second argument of a write
pub record WriteParam : Type 0 where
  pub address : ℕ
  pub params : Option WriteParams

-- `comRequest.config`; `params` keeps its `length`.
pub record ComRequestConfig : Type 0 where
  pub functions : List ModbusFunctionName
  pub address : ℕ
  pub type : Option ModbusValueType
  pub params : Option (Option ℕ)

-- `code` of an error, where the system gives one
pub data ErrorCode : Type 0 where
  ehostunreach econnrefused etimedout enetunreach econnreset : ErrorCode
  other_code : ℕ → ErrorCode

-- An error of the client: its `modbusCode` and its `code`, which it may have or not
pub record Failure : Type 0 where
  pub modbus_code : Option ℕ
  pub code : Option ErrorCode

abbrev pub modbus_failure : Failure
modbus_failure = record { modbus_code = some 2; code = none }

abbrev pub network_failure : Failure
network_failure = record { modbus_code = none; code = some ehostunreach }

abbrev pub other_failure : Failure
other_failure = record { modbus_code = none; code = none }

-- `networkCodes.includes(err.code)`
unfoldable pub is_network : Option ErrorCode → Bool
is_network (some (other_code n)) = false
is_network (some _) = true
is_network none = false

pub data Reply : Type 0 where
  answered : Reply
  failed : Failure → Reply

pub record Client : Type 0 where
  pub connect : Reply
  pub read : ModbusFunctionName → ℕ → ℕ → Reply
  pub write : ModbusFunctionName → ℕ → WriteValue → Reply
  pub decodes : Option ModbusValueType → ℕ → Reply

-- How the promise ends: with a result, with `undefined`, or rejected
pub data Response : Type 0 where
  result : ModbusFunctionName → Response
  undefined : Response
  rejected : Response

unfoldable pub value_of : WriteParam → Option WriteValue
value_of param = elim param.params [ none ↦ none | some p ↦ p.value ]

unfoldable pub choose_function :
    List ModbusFunctionName → Option WriteParam → Option ModbusFunctionName
unfolding find value_of
choose_function functions none = find (λ f. not (is_write f)) functions
choose_function functions (some param) =
    if is_array (value_of param)
    then coalesce (find is_multiple functions) (find is_write functions)
    else find is_write functions

-- `catch`
unfoldable pub on_failure : Failure → Response
unfolding is_network
on_failure e = if is_some e.modbus_code || is_network e.code then undefined else rejected

unfoldable pub on_reply : Reply → Response → Response
unfolding on_failure
on_reply answered r = r
on_reply (failed e) r = on_failure e

-- `params.length || (type ? DEFAULT_LENGTH_BY_TYPE[type] : 1)`
unfoldable pub read_length : Option ℕ → Option ModbusValueType → ℕ
unfolding default_length_by_type
read_length length' type =
    let given = or_else 0 length' in
    if given == 0 then (elim type [ none ↦ 1 | some t ↦ default_length_by_type t ]) else given

-- `persist ? param.address + persistence.address : param.address`
unfoldable pub write_address : WriteParam → WriteParams → ℕ
write_address param params = elim params.persistence [
  | none ↦ param.address
  | some (persist, offset) ↦ if persist then param.address + offset else param.address
]

-- A read with no `params` is a `TypeError`, and so is a write with none.
unfoldable pub run_read : Client → ComRequestConfig → ModbusFunctionName → Response
unfolding read_length on_reply
run_read client config f = elim config.params [
  | none ↦ rejected
  | some length' ↦
      let n = read_length length' config.type in
      on_reply (client.read f config.address n)
        (if reads_states f then result f else on_reply (client.decodes config.type n) (result f))
]

unfoldable pub run_write : Client → ModbusFunctionName → WriteParam → Response
unfolding write_address on_reply
run_write client f param = elim param.params [
  | none ↦ rejected
  | some params ↦ elim params.value [
    | none ↦ rejected
    | some v ↦ on_reply (client.write f (write_address param params) v) (result f)
  ]
]

unfoldable pub run_function :
    Client → ComRequestConfig → Option WriteParam → Option ModbusFunctionName → Response
unfolding run_read run_write
run_function client config param none = rejected
run_function client config none (some f) = run_read client config f
run_function client config (some p) (some f) = run_write client f p

-- `_runComRequest`; `resolved` is whether the device and its master were found.
unfoldable pub run_com_request : Client → Bool → ComRequestConfig → Option WriteParam → Response
unfolding on_reply run_function choose_function
run_com_request client resolved config param =
    if resolved
    then on_reply client.connect
        (run_function client config param (choose_function config.functions param))
    else undefined
