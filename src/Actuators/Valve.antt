-- ===== src/Actuators/Valve.antt =====
-- ctrl-actuator.strategy.ts: the regulation of a proportional valve. Openings are in tenths of a percent,
-- so that `error * (kP / 10)` percent is a whole number of units for a whole kP, and one unit is 16 µA.
use cleveremote_box.Actuators.Override.{
  ComRequestConfigModel, value_override, build_override_params,
}
use cleveremote_box.Base.{
  leb, if◌then◌else◌, ◌==◌, ℕ, zero, suc, ◌+◌, ◌-◌, ◌*◌, ◌/◌, max, min, Bool, true, false, Option,
  none, some, List, ◌∷◌, ◌>>=◌,
}

-- `CtrlActuatorConfigModel`; `comRequestId` and `portNumber` are those of `actions[0]`.
pub record CtrlActuatorConfigModel : Type 0 where
  pub k_p : ℕ
  pub min_opening : ℕ
  pub max_opening : ℕ
  pub opening_percent : ℕ
  pub tolerance : ℕ
  pub max_iterations : ℕ
  pub iteration_delay_ms : ℕ
  pub full_stroke_ms : ℕ
  pub com_request_id : ℕ
  pub port_number : Option ℕ

-- The valve, what `modbusService.execute` was given, latest first, and the time that was waited for.
-- `find_request` is `comRequestRepository.get`: a request that is not found is none.
pub record State : Type 0 where
  pub config : CtrlActuatorConfigModel
  pub executed : List (ℕ × ComRequestConfigModel)
  pub waited : ℕ

pub record ValveAdjustmentResult : Type 0 where
  pub target_flow_rate : ℕ
  pub measured_flow_rate : ℕ
  pub opening_percent : ℕ
  pub output_current : ℕ
  pub is_stabilized : Bool
  pub iterations : ℕ

abbrev pub min_output_ua : ℕ
min_output_ua = 4000

abbrev pub max_output_ua : ℕ
max_output_ua = 20000

-- `_openingToMilliAmps`, in µA
unfoldable pub opening_to_milli_amps : ℕ → ℕ
opening_to_milli_amps opening = min_output_ua + opening * 16

-- `_toClampedMicroAmps`
unfoldable pub to_clamped_micro_amps : ℕ → ℕ
to_clamped_micro_amps ua =
    min (max (min (max ua min_output_ua) max_output_ua) min_output_ua) max_output_ua

-- `|a - b|`
unfoldable pub distance : ℕ → ℕ → ℕ
distance a b = (a - b) + (b - a)

-- `_positioningDelayMs`, which `setTimeout` cuts to whole milliseconds
unfoldable pub positioning_delay_ms : CtrlActuatorConfigModel → ℕ → ℕ
positioning_delay_ms config delta =
    let full_range = config.max_opening - config.min_opening in
    if full_range == 0 then 0 else delta * config.full_stroke_ms / full_range

-- `_readFlowMeterTest`
unfoldable pub read_flow_meter_test : ℕ → ℕ
read_flow_meter_test iteration = iteration * 10

-- `Math.min(maxOpening, Math.max(minOpening, openingPercent + error * (kP / 10)))`. Below 0, where the
-- subtraction on ℕ stops, the `max` with minOpening is minOpening too.
unfoldable pub corrected : CtrlActuatorConfigModel → ℕ → ℕ → ℕ
corrected config target measured = min config.max_opening (
    max config.min_opening (
      config.opening_percent + (target - measured) * config.k_p - (measured - target) * config.k_p))

unfoldable pub set_opening : ℕ → State → State
set_opening o s = record s { config = record (s.config) { opening_percent = o } }

-- `_writeOpeningViaComRequest`; a request that is not found throws.
unfoldable pub write_at : Option ComRequestConfigModel → ℕ → State → Option State
unfolding build_override_params
write_at none ua s = none
write_at (some config) ua s = some (record s {
  executed =
      (
        s.config.com_request_id,
        build_override_params config (value_override s.config.port_number ua),
      )
      ∷ s.executed;
})

-- The part of `_adjustOnce` for a flow that is not stabilized
unfoldable pub correct : (ℕ → Option ComRequestConfigModel) → ℕ → ℕ → State → Option State
unfolding set_opening corrected write_at to_clamped_micro_amps opening_to_milli_amps
correct find_request target measured s =
    let moved = set_opening (corrected s.config target measured) s in
    write_at (find_request s.config.com_request_id)
      (to_clamped_micro_amps (opening_to_milli_amps moved.config.opening_percent)) moved

unfoldable pub is_stabilized_at : CtrlActuatorConfigModel → ℕ → ℕ → Bool
unfolding distance read_flow_meter_test
is_stabilized_at config target iteration =
    leb (distance target (read_flow_meter_test iteration)) config.tolerance

unfoldable pub result_of : ℕ → ℕ → Bool → State → ValveAdjustmentResult
unfolding opening_to_milli_amps read_flow_meter_test
result_of target iteration stable s = record {
  target_flow_rate = target;
  measured_flow_rate = read_flow_meter_test iteration;
  opening_percent = s.config.opening_percent;
  output_current = opening_to_milli_amps s.config.opening_percent;
  is_stabilized = stable;
  iterations = iteration;
}

-- `_adjustOnce`
unfoldable pub adjust_once :
    (ℕ → Option ComRequestConfigModel) → ℕ → ℕ → State → Option (State × ValveAdjustmentResult)
unfolding is_stabilized_at correct result_of
adjust_once find_request target iteration s =
    if is_stabilized_at s.config target iteration
    then some (s, result_of target iteration true s)
    else correct find_request target (read_flow_meter_test iteration) s >>= λ s'.
        some (s', result_of target iteration false s')

-- The wait after an adjustment
unfoldable pub delay : CtrlActuatorConfigModel → State → State
unfolding positioning_delay_ms distance
delay before s = record s {
  waited =
      s.waited
      + (s.config.iteration_delay_ms
          + positioning_delay_ms s.config
              (distance s.config.opening_percent before.opening_percent));
}

-- The loop of `setFlowRate`, with the iterations that are left; `undefined` is none, and so is the
-- outcome of an exception.
unfoldable pub regulate :
    (ℕ → Option ComRequestConfigModel)
    → ℕ
    → ℕ
    → ℕ
    → Option ValveAdjustmentResult
    → State
    → Option (State × Option ValveAdjustmentResult)
unfolding adjust_once delay
regulate find_request target zero iteration last s = some (s, last)
regulate find_request target (suc left) iteration last s =
    adjust_once find_request target iteration s >>= λ x.
    if x.1.is_stabilized
    then some (x.0, some x.1)
    else regulate find_request target left (suc iteration) (some x.1) (delay s.config x.0)

-- `setFlowRate`
unfoldable pub set_flow_rate :
    (ℕ → Option ComRequestConfigModel) → ℕ → State → Option (State × Option ValveAdjustmentResult)
unfolding regulate
set_flow_rate find_request target s = regulate find_request target s.config.max_iterations 1 none s
