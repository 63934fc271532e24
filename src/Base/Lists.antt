-- ===== src/Base/Lists.antt =====
-- The array methods that the program calls, over Boolean tests and native indices.
use Prim.Native.Nat.{ℕ, zero, suc, ◌+◌, ◌≤◌, ◌<◌}
use mathlib.Core.Path.{◌≡◌, ap, ◌∙◌}
use mathlib.Core.Bool.{Bool, true, false, ◌&&◌, ◌||◌}
use mathlib.Core.List.{List, [], ◌∷◌, ◌++◌}
use mathlib.Core.Option.{Option, none, some}
use native.Mathlib.Omega.{arith}
use mathlib.Core.Logic.{inl, inr}
use cleveremote_box.Base.Tests.{if◌then◌else◌, ◌==◌, ==_iff, Bool-cases}

module _ {ℓ} {A : Type ℓ} where
  abbrev pub length : List A → ℕ
  length [] = 0
  length (x ∷ xs) = suc (length xs)

  -- `Array.find`
  unfoldable pub find : (A → Bool) → List A → Option A
  find p [] = none
  find p (x ∷ xs) = if p x then some x else find p xs

  -- `Array.findIndex`; `none` stands for -1.
  unfoldable pub find_index : (A → Bool) → List A → Option ℕ
  find_index p [] = none
  find_index p (x ∷ xs) =
      let rest = find_index p xs in
      if p x then some 0 else elim rest [ none ↦ none | some i ↦ some (suc i) ]

  -- `Array.filter`
  unfoldable pub filter : (A → Bool) → List A → List A
  filter p [] = []
  filter p (x ∷ xs) = if p x then x ∷ filter p xs else filter p xs

  -- `Array.some` and `Array.every`
  unfoldable pub any : (A → Bool) → List A → Bool
  any p [] = false
  any p (x ∷ xs) = p x || any p xs

  unfoldable pub all : (A → Bool) → List A → Bool
  all p [] = true
  all p (x ∷ xs) = p x && all p xs

  -- `array.splice(index, 1)`
  unfoldable pub remove_at : ℕ → List A → List A
  remove_at i [] = []
  remove_at zero (x ∷ xs) = xs
  remove_at (suc i) (x ∷ xs) = x ∷ remove_at i xs

  -- `array[index] = value`, at an index in range
  unfoldable pub set : List A → ℕ → A → List A
  set [] i v = []
  set (x ∷ xs) zero v = v ∷ xs
  set (x ∷ xs) (suc i) v = x ∷ set xs i v

  abbrev pub get_elem? : List A → ℕ → Option A
  get_elem? [] i = none
  get_elem? (x ∷ xs) zero = some x
  get_elem? (x ∷ xs) (suc i) = get_elem? xs i

  -- How many entries pass a test.
  unfoldable pub count : (A → Bool) → List A → ℕ
  count p [] = 0
  count p (x ∷ xs) = if p x then suc (count p xs) else count p xs

  -- What holds of every entry.
  abbrev pub All {κ} : (A → Type κ) → List A → Type κ
  All P [] = Unit
  All P (x ∷ xs) = P x × All P xs

  pub length-append : (xs ys : List A) → length (xs ++ ys) ≡ length xs + length ys
  length-append [] ys = omega arith
  length-append (x ∷ xs) ys = omega (arith, length-append xs ys)

  pub count-append : (p : A → Bool) (xs ys : List A) → count p (xs ++ ys) ≡ count p xs + count p ys
  unfolding count
  count-append p [] ys = omega arith
  count-append p (x ∷ xs) ys = ground (arith, count-append p xs ys)

  pub find-sat : (p : A → Bool) (xs : List A) {a : A} → find p xs ≡ some a → p a ≡ true
  unfolding find
  find-sat p [] h = absurd (cc)
  find-sat p (x ∷ xs) {a} h = ground (arith, find-sat p xs {a = a})

  pub All-mono {κ μ} :
      {P : A → Type κ} {Q : A → Type μ} (xs : List A) → ((x : A) → P x → Q x) → All P xs → All Q xs
  All-mono [] f h = tt
  All-mono (x ∷ xs) f h = (f x h.0, All-mono xs f h.1)

  -- Every entry that a filter keeps passes its test.
  pub All-filter : (p : A → Bool) (xs : List A) → All (λ x. p x ≡ true) (filter p xs)
  unfolding filter
  All-filter p [] = tt
  All-filter p (x ∷ xs) = ground (arith, All-filter p xs)

  pub All-all : (p : A → Bool) (xs : List A) → all p xs ≡ true → All (λ x. p x ≡ true) xs
  unfolding all
  All-all p [] h = tt
  All-all p (x ∷ xs) h = ground (arith, All-all p xs)

  pub count_mono :
      (p q : A → Bool) (xs : List A) → ((x : A) → p x ≡ true → q x ≡ true) → count p xs ≤ count q xs
  unfolding count
  count_mono p q [] h = omega arith
  count_mono p q (x ∷ xs) h = ground (arith, count_mono p q xs h, h x)

  pub count-le-length : (p : A → Bool) (xs : List A) → count p xs ≤ length xs
  unfolding count
  count-le-length p [] = omega arith
  count-le-length p (x ∷ xs) = ground (arith, count-le-length p xs)

pub count-strict :
    (p q : ℕ → Bool) (i : ℕ) (xs : List ℕ)
    → ((x : ℕ) → p x ≡ true → q x ≡ true)
    → p i ≡ false
    → q i ≡ true
    → any (λ x. x == i) xs ≡ true
    → count p xs < count q xs
unfolding count any
count-strict p q i [] h n y e = absurd (cc)
count-strict p q i (x ∷ xs) h n y e = elim (Bool-cases (x == i)) [
  | inl m ↦
      let here : x ≡ i = (==_iff x i).0 m in
      let px : p x ≡ false = ap p here ∙ n in
      let qx : q x ≡ true = ap q here ∙ y in ground (arith, count_mono p q xs h, px, qx)
  | inr m ↦
      let later : any (λ x. x == i) xs ≡ true = unfold any in ground arith in
      ground (arith, h x, count-strict p q i xs h n y later)
]
