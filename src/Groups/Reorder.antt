-- ===== src/Groups/Reorder.antt =====
-- `reorderChildren` of cycle-group.service.ts.
use cleveremote_box.Base.{
  any, find-sat, find, Option-cases, is_some, or_else, ◌==◌, ℕ, suc, ◌≡◌, sym, ap, ◌∙◌, inl, inr,
  true, Option, none, some, List, [], ◌∷◌, arith, false≢true,
}
use cleveremote_box.Groups.{
  ChildRef, Document, update_by_id, element_not_found, failed, Collection, Saved, find_by_id,
}
use cleveremote_box.Strategies.Once.{ids}

-- One child at its new place: an identifier that is not listed throws.
unfoldable pub place : Option ChildRef → ℕ → Option (List ChildRef) → Option (List ChildRef)
place none order rest = none
place (some ref) order none = none
place (some ref) order (some refs) = some (record ref { order = order } ∷ refs)

-- `orderedChildCycleIds.map(...)`
unfoldable pub reorder : List ChildRef → ℕ → List ℕ → Option (List ChildRef)
unfolding place find
reorder refs order [] = some []
reorder refs order (i ∷ is') =
    place (find (λ ref. ref.cycle_id == i) refs) order (reorder refs (suc order) is')

unfoldable pub with_children : List ChildRef → Document → Document
with_children refs d = record d { child_cycles = refs }

unfoldable pub reorder_at : Option Document → ℕ → List ℕ → Collection → Saved
unfolding reorder update_by_id with_children
reorder_at none parent ids db = failed element_not_found db
reorder_at (some d) parent ids db = elim (reorder d.child_cycles 0 ids) [
  | none ↦ failed element_not_found db
  | some refs ↦ update_by_id parent (with_children refs) db
]

unfoldable pub reorder_children : ℕ → List ℕ → Collection → Saved
unfolding reorder_at find_by_id
reorder_children parent ids db = reorder_at (find_by_id db parent) parent ids db

-- When the identifiers are all of children, the new list has exactly these: a child that is not among them
-- is dropped.
reorder-any :
    (refs : List ChildRef) (c order : ℕ) (ids : List ℕ) {out : List ChildRef}
    → reorder refs order ids ≡ some out
    → any (λ (ref : ChildRef). ref.cycle_id == c) out ≡ any (λ i. i == c) ids
unfolding reorder place any
reorder-any refs c order [] h =
    ap (λ o. any (λ (ref : ChildRef). ref.cycle_id == c) (or_else [] o)) (sym h)
reorder-any refs c order (i ∷ is') h = elim (Option-cases (find (λ ref. ref.cycle_id == i) refs)) [
  | inl e ↦ absurd (false≢true (ap is_some (sym (ap (placed order) e) ∙ h)))
  | inr (ref, e) ↦ elim (Option-cases (reorder refs (suc order) is')) [
    | inl f ↦ absurd (
        false≢true
          (ap is_some (sym (ap (place (some ref) order) f) ∙ sym (ap (placed order) e) ∙ h)))
    | inr (rest, f) ↦
        let found : (ref.cycle_id == i) ≡ true = find-sat (λ ref. ref.cycle_id == i) refs e in
        let later = reorder-any refs c (suc order) is' f in
        let made = sym (ap (place (some ref) order) f) ∙ sym (ap (placed order) e) ∙ h in
        ap (λ o. any (λ (ref : ChildRef). ref.cycle_id == c) (or_else [] o)) (sym made)
        ∙ ground arith
  ]
]
  where
    placed : ℕ → Option ChildRef → Option (List ChildRef)
    placed order o = place o order (reorder refs (suc order) is')
