-- ===== src/Conditions/Order.antt =====
-- evaluate-conditions.util.ts: the order of the parts, and the values that are missing.
use cleveremote_box.Base.{
  All, count, All-mono, if◌then◌else◌, leb, ℕ, suc, ◌≤◌, ◌≡◌, refl, ap, ◌∙◌, Bool, List, [], ◌∷◌,
  arith, if-elim,
}
use cleveremote_box.Conditions.Defs.{sort, insert, ConditionModel, rank, indexed}

-- Each entry comes no later than all that follow it.
abbrev pub SortedBy : List (ℕ × ConditionModel) → Type 0
SortedBy [] = Unit
SortedBy (x ∷ xs) = All (λ y. rank x ≤ rank y) xs × SortedBy xs

insert-All :
    (P : ℕ × ConditionModel → Type 0) (x : ℕ × ConditionModel) (xs : List (ℕ × ConditionModel))
    → P x
    → All P xs
    → All P (insert x xs)
unfolding insert
insert-All P x [] h a = (h, tt)
insert-All P x (y ∷ ys) h a =
    if-elim (All P) (leb (rank x) (rank y)) (x ∷ y ∷ ys) (y ∷ insert x ys) (λ _. (h, a))
      (λ _. (a.0, insert-All P x ys h a.1))

insert-SortedBy :
    (x : ℕ × ConditionModel) (xs : List (ℕ × ConditionModel)) → SortedBy xs → SortedBy (insert x xs)
unfolding insert
insert-SortedBy x [] s = (tt, tt)
insert-SortedBy x (y ∷ ys) s =
    if-elim SortedBy (leb (rank x) (rank y)) (x ∷ y ∷ ys) (y ∷ insert x ys)
      (λ e.
        let below : rank x ≤ rank y = ground arith in
        ((below, All-mono ys (λ z h. (let q : rank y ≤ rank z = h in omega arith)) s.0), s))
      (λ e.
        let above : rank y ≤ rank x = ground arith in
        (insert-All (λ z. rank y ≤ rank z) x ys above s.0, insert-SortedBy x ys s.1))

sort_sorted : (xs : List (ℕ × ConditionModel)) → SortedBy (sort xs)
unfolding sort
sort_sorted [] = tt
sort_sorted (x ∷ xs) = insert-SortedBy x (sort xs) (sort_sorted xs)

count-insert :
    (p : ℕ × ConditionModel → Bool) (x : ℕ × ConditionModel) (xs : List (ℕ × ConditionModel))
    → count p (insert x xs) ≡ count p (x ∷ xs)
unfolding insert count
count-insert p x [] = refl
count-insert p x (y ∷ ys) = ground (arith, count-insert p x ys)

count-sort :
    (p : ℕ × ConditionModel → Bool) (xs : List (ℕ × ConditionModel))
    → count p (sort xs) ≡ count p xs
unfolding sort count
count-sort p [] = refl
count-sort p (x ∷ xs) =
    let rest : count p (sort xs) ≡ count p xs = count-sort p xs in
    let first : count p (insert x (sort xs))
        ≡ (if p x then suc (count p (sort xs)) else count p (sort xs)) =
      count-insert p x (sort xs) in
    first ∙ ap (λ (n : ℕ). if p x then suc n else n) rest

-- The parts are evaluated by increasing `order ?? index`, and each condition is evaluated as often as
-- it is given.
pub sort_rank :
    (cs : List ConditionModel) (p : ℕ × ConditionModel → Bool)
    → SortedBy (sort (indexed 0 cs)) × (count p (sort (indexed 0 cs)) ≡ count p (indexed 0 cs))
sort_rank cs p = (sort_sorted (indexed 0 cs), count-sort p (indexed 0 cs))
