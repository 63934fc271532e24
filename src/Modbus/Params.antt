-- ===== src/Modbus/Params.antt =====
-- modbus.service.ts: `_resolveParamAddress`. A text is the list of its character codes.
use cleveremote_box.Base.{
  All, ◌==◌, leb, if◌then◌else◌, ℕ, ◌+◌, ◌-◌, ◌*◌, ◌≡◌, Bool, true, ◌&&◌, Option, none, some, List,
  [], ◌∷◌, ◌++◌, refl,
}

-- `toUpperCase` at the one letter that the pattern names
unfoldable pub upper : ℕ → ℕ
upper c = if c == b'f' then b'F' else c

abbrev pub is_digit : ℕ → Bool
is_digit c = leb b'0' c && leb c b'9'

-- The longest prefix of digits, and the rest: `\d+` is greedy.
unfoldable pub span_digits : List ℕ → List ℕ × List ℕ
span_digits [] = ([], [])
span_digits (c ∷ cs) =
    let (ds, rest) = span_digits cs in if is_digit c then (c ∷ ds, rest) else ([], c ∷ cs)

-- `parseInt(digits, 10)`
unfoldable pub parse_int : ℕ → List ℕ → ℕ
parse_int acc [] = acc
parse_int acc (c ∷ cs) = parse_int (acc * 10 + (c - b'0')) cs

-- `(\d+)$`: the digits, then the end of the text
unfoldable pub match_item : List ℕ → List ℕ × List ℕ → Option ℕ
match_item group (d ∷ ds, []) = some (parse_int 0 group * 256 + parse_int 0 (d ∷ ds))
match_item group (_, _) = none

-- `(\d+)\.(\d+)$`: the digits of the group, then a dot
unfoldable pub match_group : List ℕ × List ℕ → Option ℕ
match_group (g ∷ gs, c ∷ cs) = if c == b'.' then match_item (g ∷ gs) (span_digits cs) else none
match_group (_, _) = none

-- `_resolveParamAddress`; none is `null`.
unfoldable pub resolve_param_address : List ℕ → Option ℕ
resolve_param_address [] = none
resolve_param_address (c ∷ cs) = if upper c == b'F' then match_group (span_digits cs) else none

-- `persist ? baseAddress + 0x1000 : baseAddress`: EEPROM instead of RAM
unfoldable pub inverter_address : Bool → ℕ → ℕ
inverter_address persist base = if persist then base + 0x1000 else base

abbrev pub Digits : List ℕ → Type 0
Digits = All (λ c. is_digit c ≡ true)

-- Digits in front of something that is no digit
span_digits-append :
    (ds rest : List ℕ)
    → Digits ds
    → span_digits rest ≡ ([], rest)
    → span_digits (ds ++ rest) ≡ (ds, rest)
unfolding span_digits
span_digits-append [] rest h stop = stop
span_digits-append (d ∷ ds) rest h stop = rw (span_digits-append ds rest h.1 stop, h.0)

-- Digits alone
span_digits-all : (ds : List ℕ) → Digits ds → span_digits ds ≡ (ds, [])
unfolding span_digits
span_digits-all [] h = refl
span_digits-all (d ∷ ds) h = rw (span_digits-all ds h.1, h.0)

-- The name of a parameter, `F<group>.<item>` in either case, has the address group * 256 + item,
-- for all non-empty sequences of digits.
pub resolve_param_address-name :
    (f g : ℕ) (gs : List ℕ) (i : ℕ) (is : List ℕ)
    → upper f ≡ b'F'
    → Digits (g ∷ gs)
    → Digits (i ∷ is)
    → resolve_param_address (f ∷ g ∷ gs ++ b'.' ∷ i ∷ is)
      ≡ some (parse_int 0 (g ∷ gs) * 256 + parse_int 0 (i ∷ is))
unfolding resolve_param_address match_group match_item
resolve_param_address-name f g gs i is hf hg hi =
    let outer : span_digits (g ∷ gs ++ b'.' ∷ i ∷ is) ≡ (g ∷ gs, b'.' ∷ i ∷ is) =
      span_digits-append (g ∷ gs) (b'.' ∷ i ∷ is) hg (unfold span_digits in refl) in
    rw (hf, outer, span_digits-all (i ∷ is) hi)
