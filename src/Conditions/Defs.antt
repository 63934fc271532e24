-- ===== src/Conditions/Defs.antt =====
-- condition.model.ts and evaluate-conditions.util.ts: the conditions of a trigger or of a cycle. The
-- expressions are evaluated by mathjs, which is a parameter.
use cleveremote_box.Base.{
  ◌>>=◌, if◌then◌else◌, leb, or_else, ℕ, suc, Bool, true, false, Option, none, some, List, [], ◌∷◌,
  map,
}

pub data ElementType : Type 0 where
  sensor cycle sequence : ElementType

pub data ConditionSymbolStart : Type 0 where
  open_paren not_symbol : ConditionSymbolStart

pub data ConditionSymbolEnd : Type 0 where
  close_paren and_symbol or_symbol : ConditionSymbolEnd

-- `ConditionModel`; an operator is its text, and a value is what `Number` makes of it.
pub record ConditionModel : Type 0 where
  pub element_id : ℕ
  pub element_type : ElementType
  pub operator : ℕ
  pub value : ℕ
  pub order : Option ℕ
  pub symbol_start : Option ConditionSymbolStart
  pub symbol_end : Option ConditionSymbolEnd

-- What `getDeviceValue` finds: `SensorValueModel` has a value, `ProcessValueModel` a status, which is
-- stopped or not.
pub record DeviceValue : Type 0 where
  pub sensor_value : Option ℕ
  pub is_stopped : Option Bool

-- One of the `parts`: symbolStart, result, symbolEnd
pub record Part : Type 0 where
  pub symbol_start : Option ConditionSymbolStart
  pub result : Bool
  pub symbol_end : Option ConditionSymbolEnd

-- mathjs: `parser.evaluate` of a comparison, and `evaluate` of the parts joined; none when it throws.
pub record MathJs : Type 0 where
  pub compares : ℕ → ℕ → ℕ → Option Bool
  pub evaluate : List Part → Option Bool

-- `value === ExecutableStatus.STOPPED ? 0 : 1`
unfoldable pub compared_status : Option Bool → Option ℕ
compared_status none = none
compared_status (some b) = some (if b then 0 else 1)

-- `value` and `comparedValue`; none is `undefined` or `null`.
unfoldable pub compared_value : ElementType → DeviceValue → Option ℕ
unfolding compared_status
compared_value sensor v = v.sensor_value
compared_value cycle v = compared_status v.is_stopped
compared_value sequence v = compared_status v.is_stopped

unfoldable pub compare_at : MathJs → ConditionModel → Option ℕ → Option Bool
compare_at m c none = some false
compare_at m c (some v) = m.compares v c.operator c.value

-- `evaluateCondition`
unfoldable pub evaluate_at : MathJs → ConditionModel → Option DeviceValue → Option Bool
unfolding compared_value compare_at
evaluate_at m c none = some false
evaluate_at m c (some v) = compare_at m c (compared_value c.element_type v)

unfoldable pub evaluate_condition : MathJs → (ℕ → Option DeviceValue) → ConditionModel → Option Bool
unfolding evaluate_at
evaluate_condition m device c = evaluate_at m c (device c.element_id)

-- `map((condition, index) => ({ condition, index }))`
unfoldable pub indexed : ℕ → List ConditionModel → List (ℕ × ConditionModel)
indexed i [] = []
indexed i (c ∷ cs) = (i, c) ∷ indexed (suc i) cs

-- `condition.order ?? index`
abbrev pub rank : ℕ × ConditionModel → ℕ
rank (i, c) = or_else i c.order

-- The stable `sort` by rank
unfoldable pub insert : ℕ × ConditionModel → List (ℕ × ConditionModel) → List (ℕ × ConditionModel)
insert x [] = x ∷ []
insert x (y ∷ ys) = if leb (rank x) (rank y) then x ∷ y ∷ ys else y ∷ insert x ys

unfoldable pub sort : List (ℕ × ConditionModel) → List (ℕ × ConditionModel)
unfolding insert
sort [] = []
sort (x ∷ xs) = insert x (sort xs)

unfoldable pub ordered : List ConditionModel → List ConditionModel
unfolding indexed sort
ordered cs = map (λ (x : ℕ × ConditionModel). x.1) (sort (indexed 0 cs))

unfoldable pub part_of : ConditionModel → Bool → Part
part_of c b = record { symbol_start = c.symbol_start; result = b; symbol_end = c.symbol_end }

-- The loop over `ordered`: an exception ends it.
unfoldable pub parts_of :
    MathJs → (ℕ → Option DeviceValue) → List ConditionModel → Option (List Part)
unfolding evaluate_condition part_of
parts_of m device [] = some []
parts_of m device (c ∷ cs) = do
  b ← evaluate_condition m device c
  rest ← parts_of m device cs
  some (part_of c b ∷ rest)

-- `evaluateConditions`
unfoldable pub evaluate_conditions :
    MathJs → (ℕ → Option DeviceValue) → List ConditionModel → Option Bool
unfolding parts_of ordered
evaluate_conditions m device [] = some true
evaluate_conditions m device (c ∷ cs) = do
  parts ← parts_of m device (ordered (c ∷ cs))
  m.evaluate parts
