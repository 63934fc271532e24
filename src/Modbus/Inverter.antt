-- ===== src/Modbus/Inverter.antt =====
-- modbus.service.ts: `_applyInverterConfig`.
use cleveremote_box.Base.{
  if◌then◌else◌, ℕ, ◌≡◌, refl, ap, Bool, true, false, not, Option, none, some, List, [], ◌∷◌, All,
  ◌+◌, ◌⊎◌, inl, inr, ◌++◌, arith,
}
use cleveremote_box.Modbus.Params.{resolve_param_address, inverter_address}
use cleveremote_box.Modbus.Requests.{
  failed, Reply, answered, Response, undefined, on_failure, Failure,
}

-- `InverterConfigParam`; a name is the list of its character codes.
pub record InverterConfigParam : Type 0 where
  pub param : List ℕ
  pub value : ℕ
  pub persist : Bool

abbrev is_answered : Reply → Bool
is_answered answered = true
is_answered (failed e) = false

abbrev failure_of : Reply → Response
failure_of answered = undefined
failure_of (failed e) = on_failure e

-- The loop: what is written, in order, and how the call ends. `write` is `client.writeRegister`.
unfoldable pub write_param :
    (ℕ → ℕ → Reply) → ℕ → ℕ → List (ℕ × ℕ) × Response → List (ℕ × ℕ) × Response
unfolding on_failure
write_param write address value rest =
    if is_answered (write address value)
    then ((address, value) ∷ rest.0, rest.1)
    else ([], failure_of (write address value))

unfoldable pub write_at :
    (ℕ → ℕ → Reply)
    → Option ℕ
    → InverterConfigParam
    → List (ℕ × ℕ) × Response
    → List (ℕ × ℕ) × Response
unfolding write_param inverter_address
write_at write none p rest = rest
write_at write (some base) p rest = write_param write (inverter_address p.persist base) p.value rest

unfoldable pub write_params : (ℕ → ℕ → Reply) → List InverterConfigParam → List (ℕ × ℕ) × Response
unfolding resolve_param_address write_at
write_params write [] = ([], undefined)
write_params write (p ∷ ps) =
    write_at write (resolve_param_address p.param) p (write_params write ps)

-- `_applyInverterConfig`
unfoldable pub apply_inverter_config :
    Bool → Reply → (ℕ → ℕ → Reply) → List InverterConfigParam → List (ℕ × ℕ) × Response
unfolding write_params on_failure
apply_inverter_config is_resolved connect write ps =
    if not is_resolved
    then ([], undefined)
    else if is_answered connect
    then write_params write ps
    else ([], failure_of connect)

-- What a parameter asks for: nothing when its name is none, else its value at the address of the name, which is
-- 4096 higher in the EEPROM
abbrev asked : Option ℕ → InverterConfigParam → List (ℕ × ℕ)
asked none p = []
asked (some base) p = (base + (if p.persist then 4096 else 0), p.value) ∷ []

abbrev pub named : List InverterConfigParam → List (ℕ × ℕ)
named [] = []
named (p ∷ ps) = asked (resolve_param_address p.param) p ++ named ps

-- How a call ends that has this left to write
abbrev pub Ends : (ℕ → ℕ → Reply) → List (ℕ × ℕ) → Response → Type 0
Ends write [] r = r ≡ undefined
Ends write ((a, v) ∷ _) r = (e : Failure) × ((write a v ≡ failed e) × (r ≡ on_failure e))

-- The first writes of a list were answered, and the next, if any, failed and ended the call.
abbrev pub Prefix : (ℕ → ℕ → Reply) → List (ℕ × ℕ) → List (ℕ × ℕ) × Response → Type 0
Prefix write wanted outcome =
    (left : List (ℕ × ℕ)) × ((outcome.0 ++ left ≡ wanted)
      × (All (λ (w : ℕ × ℕ). write w.0 w.1 ≡ answered) outcome.0 × Ends write left outcome.1))

inverter_address-sum :
    (persist : Bool) (base : ℕ)
    → inverter_address persist base ≡ base + (if persist then 4096 else 0)
unfolding inverter_address
inverter_address-sum true base = refl
inverter_address-sum false base = omega arith

write_param-Prefix :
    (write : ℕ → ℕ → Reply) (a v : ℕ) (wanted : List (ℕ × ℕ)) (rest : List (ℕ × ℕ) × Response)
    → Prefix write wanted rest
    → Prefix write ((a, v) ∷ wanted) (write_param write a v rest)
unfolding write_param
write_param-Prefix write a v wanted rest (left, (e, (replies, last))) = elim (replied (write a v)) [
  | inl fine ↦ rw (fine) (left, (ap (λ l. (a, v) ∷ l) e, ((fine, replies), last)))
  | inr (f, bad) ↦ rw (bad) ((a, v) ∷ wanted, (refl, (tt, (f, (bad, refl)))))
]
  where
    replied : (r : Reply) → (r ≡ answered) ⊎ ((e : Failure) × (r ≡ failed e))
    replied answered = inl refl
    replied (failed e) = inr (e, refl)

write_at-Prefix :
    (write : ℕ → ℕ → Reply) (o : Option ℕ) (p : InverterConfigParam) (wanted : List (ℕ × ℕ))
    (rest : List (ℕ × ℕ) × Response)
    → Prefix write wanted rest
    → Prefix write (asked o p ++ wanted) (write_at write o p rest)
unfolding write_at
write_at-Prefix write none p wanted rest h = h
write_at-Prefix write (some base) p wanted rest h =
    rw (← inverter_address-sum p.persist base)
      (write_param-Prefix write (inverter_address p.persist base) p.value wanted rest h)

-- Over any bus, the configuration of an inverter writes a prefix of what the parameters name, in order: each
-- value at group * 256 + item of its name, 4096 higher where it persists, and nothing for a text that is no name.
-- Every write of the prefix was answered. The call ends with `undefined` when nothing is left, and else as the
-- failure of the next write makes it end.
pub write_params-prefix :
    (write : ℕ → ℕ → Reply) (ps : List InverterConfigParam)
    → Prefix write (named ps) (write_params write ps)
unfolding write_params
write_params-prefix write [] = ([], (refl, (tt, refl)))
write_params-prefix write (p ∷ ps) =
    write_at-Prefix write (resolve_param_address p.param) p (named ps) (write_params write ps)
      (write_params-prefix write ps)
