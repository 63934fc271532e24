-- ===== src/Actuators/Tests.antt =====
-- ctrl-actuator.strategy.ts: a valve that is opened for a flow of 30.
use cleveremote_box.Actuators.Bounds.{Bounded, set_flow_rate-Bounded}
use cleveremote_box.Actuators.Meter.{set_flow_rate-first_close, ending}
use cleveremote_box.Actuators.Override.{ComRequestConfigModel}
use cleveremote_box.Actuators.Valve.{
  is_stabilized_at, write_at, State, distance, correct, adjust_once, corrected, regulate, result_of,
  set_opening, read_flow_meter_test, ValveAdjustmentResult, set_flow_rate, delay,
}
use cleveremote_box.Base.{or_else, ◌≡◌, refl, true, Option, none, some, [], arith}

abbrev valve : State
valve = record {
  config = record {
    k_p = 5;
    min_opening = 0;
    max_opening = 1000;
    opening_percent = 200;
    tolerance = 1;
    max_iterations = 20;
    iteration_delay_ms = 500;
    full_stroke_ms = 7000;
    com_request_id = 1;
    port_number = some 2;
  };
  executed = [];
  waited = 0;
}

abbrev write_valve : ComRequestConfigModel
write_valve = record {
  address = some 0;
  functions = none;
  disabled = none;
  type = none;
  params = none;
}

set_flow_rate-Bounded_example :
    (s' : State) × ((o : Option ValveAdjustmentResult) × ((set_flow_rate
            (λ i. some write_valve)
            30
            valve
          ≡ some (s', o))
        × Bounded 20 valve s'))
set_flow_rate-Bounded_example =
    set_flow_rate-Bounded (λ i. some write_valve) write_valve 30 valve refl (omega arith)
      (omega arith, omega arith) tt

abbrev outcome_of :
    Option (State × Option ValveAdjustmentResult) → State × Option ValveAdjustmentResult
outcome_of o = or_else (valve, none) o

set_flow_rate-first_close_example :
    ending (outcome_of (set_flow_rate (λ i. some write_valve) 30 valve)).1 ≡ some (true, 3)
unfolding set_flow_rate regulate adjust_once is_stabilized_at distance read_flow_meter_test correct
    set_opening corrected write_at delay result_of
set_flow_rate-first_close_example =
    set_flow_rate-first_close (λ i. some write_valve) write_valve 30
      (outcome_of (set_flow_rate (λ i. some write_valve) 30 valve)).1 valve
      (outcome_of (set_flow_rate (λ i. some write_valve) 30 valve)).0 refl refl
