-- ===== src/Engine/Outcome.antt =====
-- How a handler of `ProcessService` ends. An exception keeps what was assigned before it.
use cleveremote_box.Base.{List, [], ◌∷◌}
use cleveremote_box.Engine.State.{State}

-- `StructureInvalidError`, `new Error('Method not implemented.')`, and the `TypeError` of reading a
-- property of `undefined`; and the rejection of a call of the database
pub data Error : Type 0 where
  structure_invalid not_implemented type_error database_error : Error

pub data Outcome : Type 0 where
  done : State → Outcome
  thrown : Error → State → Outcome
  out_of_fuel : Outcome

infixl 5 ◌>>=◌
unfoldable pub ◌>>=◌ : Outcome → (State → Outcome) → Outcome
done s >>= f = f s
thrown e s >>= f = thrown e s
out_of_fuel >>= f = out_of_fuel

-- `for (const x of xs) { await f(x); }`
unfoldable pub for_each {ℓ} : {A : Type ℓ} → (A → State → Outcome) → List A → State → Outcome
for_each f [] s = done s
for_each f (x ∷ xs) s = f x s >>= for_each f xs

-- `try { … } catch { log }`
unfoldable pub caught : Outcome → Outcome
caught (done s) = done s
caught (thrown e s) = done s
caught out_of_fuel = out_of_fuel
