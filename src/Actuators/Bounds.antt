-- ===== src/Actuators/Bounds.antt =====
-- ctrl-actuator.strategy.ts: what a regulation commands, where the valve ends and how long it takes.
use native.Mathlib.Nat.{div-le_of_le-mul, mul-le-mul_right}
use cleveremote_box.Actuators.Override.{
  param_of, chain, build_override_params, ComRequestConfigModel, value_override,
}
use cleveremote_box.Actuators.Valve.{
  CtrlActuatorConfigModel, correct, write_at, set_opening, opening_to_milli_amps, max_output_ua,
  distance, State, min_output_ua, corrected, to_clamped_micro_amps, positioning_delay_ms, regulate,
  delay, ValveAdjustmentResult, result_of, is_stabilized_at, adjust_once, set_flow_rate,
  read_flow_meter_test,
}
use cleveremote_box.Base.{
  All, if-elim, ◌==◌, ℕ, ◌+◌, ◌-◌, ◌*◌, ◌/◌, ◌≤◌, ◌≡◌, refl, Option, some, ◌∷◌, arith, zero, suc,
  Bool-cases, inl, inr, true, false, none,
}
use cleveremote_box.Modbus.Requests.{single}

abbrev pub InRange : CtrlActuatorConfigModel → ℕ → Type 0
InRange config o = (config.min_opening ≤ o) × (o ≤ config.max_opening)

-- What is executed writes one value, a current of the loop: 4 to 20 mA, in µA.
abbrev pub Current : ℕ × ComRequestConfigModel → Type 0
Current x =
    (v : ℕ) × ((chain x.1.params (λ p. p.value) ≡ some (single v))
      × ((min_output_ua ≤ v) × (v ≤ max_output_ua)))

-- After at most n iterations: the opening is in range, the currents are in bounds, and each iteration waited
-- for at most its delay and one stroke.
abbrev pub Bounded : ℕ → State → State → Type 0
Bounded n s s' =
    InRange s.config s'.config.opening_percent
    × (All Current s'.executed
        × (s'.waited ≤ s.waited + n * (s.config.iteration_delay_ms + s.config.full_stroke_ms)))

to_clamped-bounds :
    (ua : ℕ)
    → (min_output_ua ≤ to_clamped_micro_amps ua) × (to_clamped_micro_amps ua ≤ max_output_ua)
unfolding to_clamped_micro_amps
to_clamped-bounds ua = (omega arith, omega arith)

corrected-InRange :
    (config : CtrlActuatorConfigModel) (target measured : ℕ)
    → config.min_opening ≤ config.max_opening
    → InRange config (corrected config target measured)
unfolding corrected
corrected-InRange config target measured h = (omega arith, omega arith)

positioning-bound :
    (config : CtrlActuatorConfigModel) (a b : ℕ)
    → InRange config a
    → InRange config b
    → positioning_delay_ms config (distance a b) ≤ config.full_stroke_ms
unfolding positioning_delay_ms distance
positioning-bound config a b h k =
    let range = config.max_opening - config.min_opening in
    let delta = (a - b) + (b - a) in
    let short : delta ≤ range = (let (x, y) = h in let (z, w) = k in omega arith) in
    if-elim (λ n. n ≤ config.full_stroke_ms) (range == 0) 0 (delta * config.full_stroke_ms / range)
      (λ _. omega arith)
      (λ _. div-le_of_le-mul range (mul-le-mul_right config.full_stroke_ms short))

-- The state after a correction that is written
abbrev pub corrected_to : ComRequestConfigModel → ℕ → ℕ → State → State
corrected_to q target measured s =
    let moved = set_opening (corrected s.config target measured) s in
    record moved {
      executed =
          (
            s.config.com_request_id,
            build_override_params q (
                value_override s.config.port_number
                  (to_clamped_micro_amps (opening_to_milli_amps moved.config.opening_percent))),
          )
          ∷ s.executed;
    }

correct_lem :
    (find_request : ℕ → Option ComRequestConfigModel) (q : ComRequestConfigModel)
    (target measured : ℕ) (s : State)
    → find_request s.config.com_request_id ≡ some q
    → correct find_request target measured s ≡ some (corrected_to q target measured s)
unfolding correct write_at set_opening
correct_lem find_request q target measured s e = rw (e) refl

override-Current :
    (id : ℕ) (q : ComRequestConfigModel) (address : Option ℕ) (ua : ℕ)
    → Current (id, build_override_params q (value_override address (to_clamped_micro_amps ua)))
unfolding build_override_params param_of chain
override-Current id q address ua = (to_clamped_micro_amps ua, (refl, to_clamped-bounds ua))

-- One iteration that is not stabilized
corrected-Bounded :
    (q : ComRequestConfigModel) (target measured : ℕ) (s : State)
    → s.config.min_opening ≤ s.config.max_opening
    → InRange s.config s.config.opening_percent
    → All Current s.executed
    → Bounded 1 s (delay s.config (corrected_to q target measured s))
unfolding delay set_opening
corrected-Bounded q target measured s m r a =
    let next = corrected s.config target measured in
    let reached = corrected-InRange s.config target measured m in
    let ua = opening_to_milli_amps next in
    let moving = positioning-bound s.config next s.config.opening_percent reached r in
    (
      reached,
      ((override-Current s.config.com_request_id q s.config.port_number ua, a), longer _ moving),
    )
  where
    longer :
        (p : ℕ)
        → p ≤ s.config.full_stroke_ms
        → s.waited + (s.config.iteration_delay_ms + p)
          ≤ s.waited + 1 * (s.config.iteration_delay_ms + s.config.full_stroke_ms)
    longer p h = omega arith

pub adjust-stable :
    (find_request : ℕ → Option ComRequestConfigModel) (target iteration : ℕ) (s : State)
    → is_stabilized_at s.config target iteration ≡ true
    → adjust_once find_request target iteration s ≡ some (s, result_of target iteration true s)
unfolding adjust_once
adjust-stable find_request target iteration s e = rw (e) refl

pub adjust-moves :
    (find_request : ℕ → Option ComRequestConfigModel) (q : ComRequestConfigModel)
    (target iteration : ℕ) (s : State)
    → find_request s.config.com_request_id ≡ some q
    → is_stabilized_at s.config target iteration ≡ false
    → (let s' = corrected_to q target (read_flow_meter_test iteration) s in
        adjust_once find_request target iteration s
        ≡ some (s', result_of target iteration false s'))
unfolding adjust_once
adjust-moves find_request q target iteration s f e =
    rw (e, correct_lem find_request q target (read_flow_meter_test iteration) s f) refl

later : (n k w w' w'' : ℕ) → w' ≤ w + 1 * k → w'' ≤ w' + n * k → w'' ≤ w + suc n * k
later n k w w' w'' h g = omega arith

regulate-Bounded :
    (find_request : ℕ → Option ComRequestConfigModel) (q : ComRequestConfigModel)
    (target left iteration : ℕ) (last : Option ValveAdjustmentResult) (s : State)
    → find_request s.config.com_request_id ≡ some q
    → s.config.min_opening ≤ s.config.max_opening
    → InRange s.config s.config.opening_percent
    → All Current s.executed
    → (s' : State) × ((o : Option ValveAdjustmentResult) × ((regulate find_request target left
              iteration last s
            ≡ some (s', o))
          × Bounded left s s'))
unfolding regulate result_of delay set_opening
regulate-Bounded find_request q target zero iteration last s e m r a =
    (s, (last, (refl, (r, (a, omega arith)))))
regulate-Bounded find_request q target (suc left) iteration last s e m r a =
    elim (Bool-cases (is_stabilized_at s.config target iteration)) [
      | inl t ↦
          let done = adjust-stable find_request target iteration s t in
          (s, (some (result_of target iteration true s), (rw (done) refl, (r, (a, omega arith)))))
      | inr f ↦
          let measured = read_flow_meter_test iteration in
          let s1 = corrected_to q target measured s in
          let moved = adjust-moves find_request q target iteration s e f in
          let (r1, (a1, w1)) = corrected-Bounded q target measured s m r a in
          let (s', (o, (g, (r', (a', w'))))) =
            regulate-Bounded find_request q target left (suc iteration)
              (some (result_of target iteration false s1)) (delay s.config s1) e m r1 a1 in
          (s', (o, (rw (moved) g, (r', (a', later left _ s.waited _ s'.waited w1 w')))))
    ]

-- A regulation whose request is in the database, of a valve that is in its range, ends: every current that it
-- commands is of the loop, 4 to 20 mA; the valve ends in its range; and it waits no longer than, for each of
-- its iterations, the iteration's delay and one full stroke.
pub set_flow_rate-Bounded :
    (find_request : ℕ → Option ComRequestConfigModel) (q : ComRequestConfigModel) (target : ℕ)
    (s : State)
    → find_request s.config.com_request_id ≡ some q
    → s.config.min_opening ≤ s.config.max_opening
    → InRange s.config s.config.opening_percent
    → All Current s.executed
    → (s' : State) × ((o : Option ValveAdjustmentResult) × ((set_flow_rate find_request target s
            ≡ some (s', o))
          × Bounded s.config.max_iterations s s'))
unfolding set_flow_rate
set_flow_rate-Bounded find_request q target s e m r a =
    regulate-Bounded find_request q target s.config.max_iterations 1 none s e m r a
