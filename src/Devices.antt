-- ===== src/Devices.antt =====
-- services/device.service.ts: `discoverDevice` and `addSlaveDevice`, with `probeMasterForNewSlave` and
-- `setSlaveAdress` of services/modbus.service.ts. A new module answers at the unconfigured unit id
-- until its address is written.
use cleveremote_box.Base.{
  ltb, if◌then◌else◌, ◌==◌, ℕ, ◌+◌, max, Bool, true, false, ◌||◌, Option, none, some, List, [], ◌∷◌,
  ◌++◌,
}
pub mod Provisioning
mod Tests

pub data Answer : Type 0 where
  answers fails : Answer

abbrev pub does_answer : Answer → Bool
does_answer answers = true
does_answer fails = false

-- modbus-registers.util.ts: `DEFAULT_UNCONFIGURED_UNIT_ID`
abbrev pub default_unconfigured_unit_id : ℕ
default_unconfigured_unit_id = 1

-- What the bus does at one attempt to give an address, and what the database does
pub record Bus : Type 0 where
  pub connect : Answer
  pub write : ℕ → Answer  -- by the new address
  pub read : ℕ → Answer  -- by the register
  pub save : Answer

-- The address at which the new module answers, and the identifiers of the saved slaves of the
-- master
pub record World : Type 0 where
  pub unit : ℕ
  pub slaves : List ℕ

pub data Provisioned : Type 0 where
  provisioned : ℕ → Provisioned
  nothing : Provisioned

-- `for (const register of registersToProbe)`: the first register that answers
unfoldable pub probe_registers : Bus → List ℕ → Option ℕ
probe_registers bus [] = none
probe_registers bus (r ∷ rs) = elim (bus.read r) [
  | answers ↦ some r
  | fails ↦ probe_registers bus rs
]

-- `probeMasterForNewSlave`
unfoldable pub probe_master_for_new_slave : Bus → List ℕ → Option ℕ
unfolding probe_registers
probe_master_for_new_slave bus [] = none
probe_master_for_new_slave bus (r ∷ rs) = elim bus.connect [
  | fails ↦ none
  | answers ↦ probe_registers bus (r ∷ rs)
]

-- `setSlaveAdress`: whether it rejects, and the address of the module afterwards. The `return true`
-- of its `finally` replaces an exception of the write.
unfoldable pub set_slave_adress : Bus → ℕ → ℕ → ℕ → Bool × ℕ
set_slave_adress bus current new unit =
    if ltb new 1 || ltb 255 new then (false, unit) else (elim bus.connect [
      | fails ↦ (false, unit)
      | answers ↦ (
        true,
        elim (bus.write new) [ fails ↦ unit | answers ↦ if unit == current then new else unit ],
      )
    ])

-- `Math.max(DEFAULT_UNCONFIGURED_UNIT_ID, ...siblingIds)`
unfoldable pub max_id : List ℕ → ℕ
max_id [] = default_unconfigured_unit_id
max_id (i ∷ is) = max i (max_id is)

unfoldable pub new_slave_id : List ℕ → ℕ
unfolding max_id
new_slave_id siblings = max_id siblings + 1

-- `addSlaveDevice`
unfoldable pub save_slave : Bus → ℕ → World → World × Provisioned
unfolding set_slave_adress
save_slave bus id w = elim bus.save [
  | answers ↦ (record w { slaves = w.slaves ++ id ∷ [] }, provisioned id)
  | fails ↦
      (record w { unit = (set_slave_adress bus id default_unconfigured_unit_id w.unit).1 }, nothing)
]

unfoldable pub add_slave_device : Bus → World → World × Provisioned
unfolding set_slave_adress new_slave_id save_slave
add_slave_device bus w =
    let id = new_slave_id w.slaves in
    let (ok, unit) = set_slave_adress bus default_unconfigured_unit_id id w.unit in
    if ok then save_slave bus id (record w { unit = unit }) else (w, nothing)

-- `discoverDevice`: a detected register 0 is falsy.
unfoldable pub discover_device : Bus → List ℕ → World → World
unfolding probe_master_for_new_slave add_slave_device
discover_device bus registers w = elim (probe_master_for_new_slave bus registers) [
  | none ↦ w
  | some r ↦ if r == 0 then w else (add_slave_device bus w).0
]
