-- ===== src/Actuators/Switches.antt =====
-- rpi-actuator.strategy.ts and com-actuator.strategy.ts. The pins are those of the library onoff.
use cleveremote_box.Actuators.Override.{
  value_override, build_override_params, ComRequestConfigModel,
}
use cleveremote_box.Base.{
  if◌then◌else◌, ◌==◌, ℕ, ◌≡◌, Bool, true, false, ◌&&◌, Option, none, some, List, ◌∷◌, if-elim,
  refl, ap, ◌∙◌,
}

pub data GpioDirection : Type 0 where
  direction_in direction_out : GpioDirection

-- The instance of a pin: onoff's, or that of `_getFakeInstance`, which keeps nothing
pub data Instance : Type 0 where
  gpio fake : GpioDirection → Instance

-- An actuator: the direction of its configuration, its instance and its `status`
pub record RpiActuator : Type 0 where
  pub direction : GpioDirection
  pub instance' : Option Instance
  pub is_on : Bool
  pub written : List ℕ  -- to the pin, latest first

-- `Gpio.accessible`, and whether `new Gpio` succeeds
pub record Board : Type 0 where
  pub accessible : Bool
  pub opens : Bool

-- `configure`
unfoldable pub configure : Board → RpiActuator → RpiActuator
configure b x = record x {
  instance' = some (if b.accessible && b.opens then gpio x.direction else fake x.direction);
}

abbrev direction_of : Instance → GpioDirection
direction_of (gpio d) = d
direction_of (fake d) = d

abbrev is_out : GpioDirection → Bool
is_out direction_out = true
is_out direction_in = false

-- `writeSync`, which is empty for a fake
unfoldable pub write_sync : Instance → ℕ → RpiActuator → RpiActuator
write_sync (gpio d) v x = record x { written = v ∷ x.written }
write_sync (fake d) v x = x

-- `execute`; an input throws `NotSwitchError`, which is none.
unfoldable pub execute_instance : Option Instance → ℕ → RpiActuator → Option RpiActuator
unfolding write_sync
execute_instance none action x = none
execute_instance (some i) action x =
    if is_out (direction_of i)
    then some (record (write_sync i action x) { is_on = action == 1 })
    else none

unfoldable pub configured : Board → Option Instance → RpiActuator → RpiActuator
unfolding configure
configured b none x = configure b x
configured b (some i) x = x

unfoldable pub execute : Board → ℕ → RpiActuator → Option RpiActuator
unfolding execute_instance configured
execute b action x = let y = configured b x.instance' x in execute_instance y.instance' action y

-- `read` of a fake: the status
unfoldable pub read_fake : RpiActuator → ℕ
read_fake x = if x.is_on then 1 else 0

output-status :
    (i : Instance) (action : ℕ) (z : RpiActuator)
    → direction_of i ≡ direction_out
    → (y : RpiActuator) × ((execute_instance (some i) action z ≡ some y)
        × (y.is_on ≡ (action == 1)))
unfolding execute_instance write_sync
output-status (gpio direction_in) action z d = absurd (cc)
output-status (fake direction_in) action z d = absurd (cc)
output-status (gpio direction_out) action z d =
    (record (write_sync (gpio direction_out) action z) { is_on = action == 1 }, (refl, refl))
output-status (fake direction_out) action z d =
    (record (write_sync (fake direction_out) action z) { is_on = action == 1 }, (refl, refl))

-- An output whose instance was never made is switched, whatever the board: its status is on exactly for 1.
execute-status :
    (b : Board) (action : ℕ) (x : RpiActuator)
    → x.direction ≡ direction_out
    → x.instance' ≡ none
    → (y : RpiActuator) × ((execute b action x ≡ some y) × (y.is_on ≡ (action == 1)))
unfolding execute configured configure
execute-status b action x d n =
    let i = if b.accessible && b.opens then gpio x.direction else fake x.direction in
    let out : direction_of i ≡ direction_out =
      if-elim (λ j. direction_of j ≡ direction_out) (b.accessible && b.opens) (gpio x.direction)
        (fake x.direction) (λ _. d) (λ _. d) in
    let (y, (e, o)) = output-status i action (configure b x) out in (y, (ap begun n ∙ e, o))
  where
    begun : Option Instance → Option RpiActuator
    begun o = let z = configured b o x in execute_instance z.instance' action z

-- `ComActuatorStrategy.execute`: what `modbusService.execute` is given; a request that is not found throws.
unfoldable pub com_execute :
    Option ComRequestConfigModel → Option ℕ → ℕ → Option ComRequestConfigModel
unfolding build_override_params
com_execute none port action = none
com_execute (some config) port action =
    some (build_override_params config (value_override port action))
