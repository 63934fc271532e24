-- ===== src/Modbus/Readings.antt =====
-- modbus.service.ts: `_evaluateReading` and the position of the decimal point that it keeps for each device.
use cleveremote_box.Base.{
  ℤ, filter, any, ◌==◌, is_some, if◌then◌else◌, or_else, ℕ, ◌≡◌, Bool, true, false, ◌&&◌, not,
  Option, none, some, List, [], ◌∷◌, ap, arith,
}
use cleveremote_box.Modbus.Registers.{
  float_6_bytes, int, ModbusValueType, cumulative, to_int16, uint32, float,
}

-- The names of a formula's scope
pub data Variable : Type 0 where
  raw integer_part fraction decimals : Variable  -- `raw`, `N`, `Nf` and `n`
  unknown : ℕ → Variable

-- mathjs: the variables of a formula. `raw_formula` is 'raw'.
pub record Formulas : Type 0 where
  pub raw_formula : ℕ
  pub variables : ℕ → List Variable

-- The device at its registers: whether the read of REG1439 answers, and its word
pub record Meter : Type 0 where
  pub position : Option ℕ

-- `_decimalPositionByDevice`
abbrev pub Cache : Type 0
Cache = ℕ → Option ℤ

unfoldable pub remember : ℕ → ℤ → Cache → Cache
remember device n cache i = if i == device then some n else cache i

-- `_getDecimalPosition`: the position, if it is known or the device answers, and the cache afterwards
unfoldable pub get_decimal_position : Meter → ℕ → Cache → Option ℤ × Cache
unfolding remember to_int16
get_decimal_position meter device cache = elim (cache device) [
  | some n ↦ (some n, cache)
  | none ↦ elim meter.position [
    | none ↦ (none, cache)
    | some w ↦ (some (to_int16 w), remember device (to_int16 w) cache)
  ]
]

-- The names that `_evaluateReading` puts into the scope
abbrev pub scope_of : ModbusValueType → List Variable
scope_of cumulative = integer_part ∷ fraction ∷ decimals ∷ []
scope_of _ = raw ∷ []

abbrev pub same_variable : Variable → Variable → Bool
same_variable raw raw = true
same_variable integer_part integer_part = true
same_variable fraction fraction = true
same_variable decimals decimals = true
same_variable (unknown a) (unknown b) = a == b
same_variable _ _ = false

-- `missing`
unfoldable pub missing : List Variable → List Variable → List Variable
unfolding filter any
missing scope vs = filter (λ v. not (any (same_variable v) scope)) vs

abbrev is_nil : List Variable → Bool
is_nil [] = true
is_nil (v ∷ vs) = false

-- `config.type ?? INT` and `formula ?? 'raw'`
abbrev pub type_of : Option ModbusValueType → ModbusValueType
type_of o = or_else int o

-- `_evaluateReading`: whether it has a value, or throws at the device or at a missing variable; and the cache
unfoldable pub evaluate_scope : Formulas → ModbusValueType → ℕ → Bool
unfolding missing
evaluate_scope f type formula = is_nil (missing (scope_of type) (f.variables formula))

unfoldable pub evaluate_reading :
    Formulas → Meter → ℕ → Option ModbusValueType → Option ℕ → Cache → Bool × Cache
unfolding get_decimal_position evaluate_scope
evaluate_reading f meter device type formula cache =
    let value = evaluate_scope f (type_of type) (or_else f.raw_formula formula) in
    elim (type_of type) [
      | cumulative ↦
          let (position, kept) = get_decimal_position meter device cache in
          (is_some position && value, kept)
      | float ↦ (value, cache)
      | int ↦ (value, cache)
      | uint32 ↦ (value, cache)
      | float_6_bytes ↦ (value, cache)
    ]

-- A cumulative reading with no formula of its own never has a value: its scope has no `raw`.
cumulative-raw :
    (f : Formulas) (meter : Meter) (device : ℕ) (cache : Cache)
    → f.variables f.raw_formula ≡ raw ∷ []
    → (evaluate_reading f meter device (some cumulative) none cache).0 ≡ false
unfolding evaluate_reading evaluate_scope missing filter any
cumulative-raw f meter device cache h =
    let none_left : evaluate_scope f cumulative f.raw_formula ≡ false = ap named h in ground arith
  where
    named : List Variable → Bool
    named vs = is_nil (missing (scope_of cumulative) vs)
