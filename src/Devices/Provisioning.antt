-- ===== src/Devices/Provisioning.antt =====
-- What the discovery of device.service.ts does to the address of a new module and to the saved slaves.
use cleveremote_box.Base.{All, ℕ, ◌≤◌, ◌≡◌, List, [], ◌∷◌, ◌++◌, arith, All-mono, ◌+◌, ◌<◌, max}
use cleveremote_box.Devices.{
  Bus, new_slave_id, max_id, add_slave_device, provisioned, World, fails, answers,
  default_unconfigured_unit_id,
}

-- A saved identifier is below the next one.
max_id-le : (siblings : List ℕ) → All (λ i. i ≤ max_id siblings) siblings × (1 ≤ max_id siblings)
unfolding max_id
max_id-le [] = (tt, omega arith)
max_id-le (i ∷ is) =
    let ih = max_id-le is in
    (
      (
        omega arith,
        All-mono {P = λ x. x ≤ max_id is} {Q = λ x. x ≤ max i (max_id is)} is (λ x h. omega arith)
            ih.0,
      ),
      omega (arith, ih.1),
    )

-- The identifier of a new slave is above those of all the slaves of its master, and above the
-- unconfigured one.
new_slave_id-fresh :
    (siblings : List ℕ)
    → All (λ i. i < new_slave_id siblings) siblings
      × (default_unconfigured_unit_id < new_slave_id siblings)
unfolding new_slave_id
new_slave_id-fresh siblings =
    let below = max_id-le siblings in
    (
      All-mono {P = λ x. x ≤ max_id siblings} {Q = λ x. x < max_id siblings + 1} siblings
          (λ x h. omega arith) below.0,
      omega (arith, below.1),
    )

-- When the address of a new module cannot be written though the master was reached, and the database
-- works, a slave is saved at an address at which no module answers: the module stays unconfigured.
pub add_slave_device-unwritten :
    (bus : Bus) (w : World)
    → bus.connect ≡ answers
    → bus.save ≡ answers
    → bus.write (new_slave_id w.slaves) ≡ fails
    → new_slave_id w.slaves ≤ 255
    → add_slave_device bus w ≡ (
      record w { slaves = w.slaves ++ new_slave_id w.slaves ∷ [] },
      provisioned (new_slave_id w.slaves),
    )
unfolding add_slave_device
add_slave_device-unwritten bus w c s f h = ground arith
