-- ===== src/Actuators/Meter.antt =====
-- ctrl-actuator.strategy.ts: how a regulation ends, given the flow meter that it reads.
use cleveremote_box.Actuators.Bounds.{corrected_to, adjust-moves, adjust-stable}
use cleveremote_box.Actuators.Override.{ComRequestConfigModel}
use cleveremote_box.Actuators.Valve.{
  ValveAdjustmentResult, delay, State, set_flow_rate, is_stabilized_at, regulate, set_opening,
  read_flow_meter_test, result_of, distance,
}
use cleveremote_box.Base.{
  if◌then◌else◌, ◌>>=◌, leb, Bool-cases, ℕ, zero, suc, ◌*◌, ◌≡◌, sym, ap, ◌∙◌, inl, inr, Bool, true,
  false, Option, none, some,
}

-- Whether it is stabilized, and after how many iterations: the first of at most `left` iterations from
-- this one on at which ten times the iteration is close enough to the target
abbrev pub first_close : ℕ → ℕ → ℕ → ℕ → Option (Bool × ℕ) → Option (Bool × ℕ)
first_close tolerance target zero iteration last = last
first_close tolerance target (suc left) iteration last =
    if leb (distance target (iteration * 10)) tolerance
    then some (true, iteration)
    else first_close tolerance target left (suc iteration) (some (false, iteration))

abbrev pub ending : Option ValveAdjustmentResult → Option (Bool × ℕ)
ending none = none
ending (some r) = some (r.is_stabilized, r.iterations)

abbrev second : {A B : Type 0} → B → Option (A × B) → B
second d none = d
second d (some x) = x.1

regulate-first_close :
    (find_request : ℕ → Option ComRequestConfigModel) (q : ComRequestConfigModel)
    (target left iteration : ℕ) (last o : Option ValveAdjustmentResult) (s s' : State)
    → find_request s.config.com_request_id ≡ some q
    → regulate find_request target left iteration last s ≡ some (s', o)
    → ending o ≡ first_close s.config.tolerance target left iteration (ending last)
unfolding regulate result_of delay set_opening is_stabilized_at read_flow_meter_test
regulate-first_close find_request q target zero iteration last o s s' e h =
    ap ending (sym (ap (second last) h))
regulate-first_close find_request q target (suc left) iteration last o s s' e h =
    elim (Bool-cases (leb (distance target (iteration * 10)) s.config.tolerance)) [
      | inl t ↦
          let r = result_of target iteration true s in
          let done = adjust-stable find_request target iteration s t in
          rw (t) (ap ending (sym (ap (second none) (sym (ap after done) ∙ h))))
      | inr f ↦
          let s1 = corrected_to q target (iteration * 10) s in
          let moved = adjust-moves find_request q target iteration s e f in
          rw (f) (
            regulate-first_close find_request q target left (suc iteration)
              (some (result_of target iteration false s1)) o (delay s.config s1) s' e
              (sym (ap after moved) ∙ h))
    ]
  where
    after : Option (State × ValveAdjustmentResult) → Option (State × Option ValveAdjustmentResult)
    after p = p >>= λ x.
        if x.1.is_stabilized
        then some (x.0, some x.1)
        else regulate find_request target left (suc iteration) (some x.1) (delay s.config x.0)

-- Whether a regulation ends stabilized, and after how many iterations, is determined by the target, the
-- tolerance and the number of iterations alone, and not by the valve: it ends at the first iteration whose
-- tenfold is within the tolerance of the target, if there is one.
pub set_flow_rate-first_close :
    (find_request : ℕ → Option ComRequestConfigModel) (q : ComRequestConfigModel) (target : ℕ)
    (o : Option ValveAdjustmentResult) (s s' : State)
    → find_request s.config.com_request_id ≡ some q
    → set_flow_rate find_request target s ≡ some (s', o)
    → ending o ≡ first_close s.config.tolerance target s.config.max_iterations 1 none
unfolding set_flow_rate
set_flow_rate-first_close find_request q target o s s' e h =
    regulate-first_close find_request q target s.config.max_iterations 1 none o s s' e h
