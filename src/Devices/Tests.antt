-- ===== src/Devices/Tests.antt =====
-- The theorems on discovery at a concrete bus.
use cleveremote_box.Base.{if◌then◌else◌, ◌==◌, [], ◌∷◌}
use cleveremote_box.Devices.{World, fails, Bus, answers}

abbrev deaf : Bus
deaf = record {
  connect = answers;
  write = λ _. fails;
  read = λ r. if r == 62 then answers else fails;
  save = answers;
}

abbrev full_disk : Bus
full_disk = record { connect = answers; write = λ _. answers; read = λ _. answers; save = fails }

abbrev world : World
world = record { unit = 1; slaves = 2 ∷ 5 ∷ 3 ∷ [] }
