-- ===== src/Modbus/Monitors.antt =====
-- modbus.service.ts: the polls of `monitorDigitalOutputs` and `monitorDigitalInputs`. The states
-- that a poll reads, and the time, are its arguments; a poll that fails changes nothing.
use cleveremote_box.Base.{
  set, if◌then◌else◌, leb, ℕ, suc, ◌-◌, Bool, true, false, ◌&&◌, not, Option, none, some, List, [],
  ◌∷◌, same_bool,
}
use cleveremote_box.Engine.Execute.{known}
pub mod Inputs
pub mod Outputs

pub record DigitalOutputChange : Type 0 where
  pub channel : ℕ
  pub previous : Option Bool
  pub current : Bool

-- `current !== previousStates[channel]`; a channel that was not read before is `undefined`.
unfoldable pub differs : Bool → Option Bool → Bool
differs b none = true
differs b (some c) = not (same_bool b c)

-- `states.forEach((current, channel) => …)`, from a channel on
unfoldable pub changes_from : ℕ → List Bool → List Bool → List DigitalOutputChange
changes_from n previous [] = []
changes_from n [] (b ∷ bs) =
    record { channel = n; previous = none; current = b } ∷ changes_from (suc n) [] bs
changes_from n (p ∷ ps) (b ∷ bs) =
    let rest = changes_from (suc n) ps bs in
    if differs b (some p)
    then record { channel = n; previous = some p; current = b } ∷ rest
    else rest

-- A poll of the outputs: the states to remember, and what `onChange` gets. The first poll reports
-- nothing.
unfoldable pub poll_outputs :
    Option (List Bool) → List Bool → Option (List Bool) × List DigitalOutputChange
poll_outputs none states = (some states, [])
poll_outputs (some previous) states = (some states, changes_from 0 previous states)

-- A channel of the inputs: when the press under way began, and whether it was reported
pub record Channel : Type 0 where
  pub press_started_at : Option ℕ
  pub long_press_fired : Bool

-- `heldMs` of a reported press
unfoldable pub poll_channel : ℕ → ℕ → Bool → Channel → Channel × Option ℕ
poll_channel long_press_ms now false c =
    (record { press_started_at = none; long_press_fired = false }, none)
poll_channel long_press_ms now true c = elim c.press_started_at [
  | none ↦ (record c { press_started_at = some now }, none)
  | some t ↦
      if not c.long_press_fired && leb long_press_ms (now - t)
      then (record c { long_press_fired = true }, some (now - t))
      else (c, none)
]

-- The polls of one channel, each with its time; the reports in order
unfoldable pub poll_all : ℕ → List (ℕ × Bool) → Channel → Channel × List ℕ
poll_all long [] c = (c, [])
poll_all long ((now, b) ∷ polls) c =
    let (c', event) = poll_channel long now b c in
    let (c'', events) = poll_all long polls c' in
    (c'', elim event [ none ↦ events | some held ↦ held ∷ events ])

abbrev pub released : Channel
released = record { press_started_at = none; long_press_fired = false }
