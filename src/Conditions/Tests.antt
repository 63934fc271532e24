-- ===== src/Conditions/Tests.antt =====
-- evaluate-conditions.util.ts: conditions with and without an order.
use cleveremote_box.Base.{◌==◌, ℕ, Bool, Option, none, some, List, [], ◌∷◌}
use cleveremote_box.Conditions.Defs.{sensor, ConditionModel}

abbrev at_order : Option ℕ → ConditionModel
at_order o = record {
  element_id = 3;
  element_type = sensor;
  operator = 0;
  value = 25;
  order = o;
  symbol_start = none;
  symbol_end = none;
}

abbrev unordered : List ConditionModel
unordered = at_order (some 5) ∷ at_order none ∷ at_order (some 0) ∷ []

abbrev is_first : ℕ × ConditionModel → Bool
is_first x = x.0 == 0
