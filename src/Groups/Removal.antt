-- ===== src/Groups/Removal.antt =====
-- `removeChild` of cycle-group.service.ts.
use cleveremote_box.Base.{
  filter, any, is_id, ==_iff, Bool-cases, ◌==◌, ℕ, ◌≡◌, refl, ap, ◌∙◌, inl, inr, true, false, ◌&&◌,
  not, Option, none, some, List, [], ◌∷◌, arith, false≢true,
}
use cleveremote_box.Groups.{
  put, Collection, Linked, lists, remove_child, ChildRef, find_by_id, belongs, Document,
  remove_found, collection_of, pulled, listed_in,
}
use cleveremote_box.Groups.Links.{
  belongs-put, put-other, lists-put, belongs-at, update_by_id-found, put-same, lists-at, found,
}

pub any-pull :
    (c d : ℕ) (refs : List ChildRef)
    → any (λ ref. ref.cycle_id == c) (filter (λ ref. not (ref.cycle_id == d)) refs)
      ≡ (any (λ ref. ref.cycle_id == c) refs && not (c == d))
unfolding any filter
any-pull c d [] = refl
any-pull c d (x ∷ refs) = ground (arith, any-pull c d refs)

unlinked_pair :
    (db : Collection) (p c p' c' : ℕ) (parent child : Document)
    → lists db p' c' ≡ belongs db p' c'
    → db p ≡ some parent
    → db c ≡ some child
    → parent.is_deleted ≡ false
    → child.is_deleted ≡ false
    → is_id child.parent_cycle_id p ≡ true
    → (p == c) ≡ false
    → lists (put p (pulled c parent) (put c (record child { parent_cycle_id = none }) db)) p' c'
      ≡ belongs (put p (pulled c parent) (put c (record child { parent_cycle_id = none }) db)) p' c'
unfolding pulled
unlinked_pair db p c p' c' parent child h ep ec dp dc n apart =
    rw (lists-put, belongs-put)
      (rw (lists-put, belongs-put)
        (ground (
          arith,
          any-pull c' c parent.child_cycles,
          lists-at db p c' parent ep,
          belongs-at db p' p parent ep,
          lists-at db c c' child ec,
          belongs-at db p' c child ec,
        )))

unlinked_self :
    (db : Collection) (p c p' c' : ℕ) (child : Document)
    → lists db p' c' ≡ belongs db p' c'
    → db c ≡ some child
    → child.is_deleted ≡ false
    → is_id child.parent_cycle_id p ≡ true
    → p ≡ c
    → lists
        (put p
          (pulled c (record child { parent_cycle_id = none }))
          (put c (record child { parent_cycle_id = none }) db))
        p'
        c'
      ≡ belongs
          (put p
            (pulled c (record child { parent_cycle_id = none }))
            (put c (record child { parent_cycle_id = none }) db))
          p'
          c'
unfolding pulled
unlinked_self db p c p' c' child h ec dc n itself =
    rw (lists-put, belongs-put)
      (rw (lists-put, belongs-put)
        (ground (
          arith,
          any-pull c' c child.child_cycles,
          lists-at db c c' child ec,
          belongs-at db p' c child ec,
        )))

pub lists-found :
    (o : Option Document) (c : ℕ)
    → listed_in o c ≡ true
    → (d : Document) × ((o ≡ some d) × (d.is_deleted ≡ false))
lists-found none c h = absurd (false≢true h)
lists-found (some d) c h = (d, (refl, ground arith))

belongs-named :
    (db : Collection) (p c : ℕ) (d : Document)
    → db c ≡ some d
    → belongs db p c ≡ true
    → is_id d.parent_cycle_id p ≡ true
belongs-named db p c d e h = ground (arith, belongs-at db p c d e)

remove_found-Linked :
    (db : Collection) (o : Option Document) (p c : ℕ)
    → Linked db
    → belongs db p c ≡ true
    → find_by_id db c ≡ o
    → Linked (collection_of (remove_found o p c db))
unfolding remove_found lists
remove_found-Linked db none p c h b ec p' c' = h p' c'
remove_found-Linked db (some child) p c h b ec p' c' =
    let child' = record child { parent_cycle_id = none } in
    let (fc, dc) = found db c child ec in
    let (parent, (fp, dp)) = lists-found (db p) c (h p c ∙ b) in
    let n = belongs-named db p c child fc b in
    elim (Bool-cases (p == c)) [
      | inl e ↦
          rw (update_by_id-found (put c child' db) p (pulled c) child' (put-same db c p child' e))
            (unlinked_self db p c p' c' child (h p' c') fc dc n ((==_iff p c).0 e))
      | inr e ↦
          rw
            (update_by_id-found (put c child' db) p (pulled c) parent
              (put-other db c p child' e ∙ fp))
            (unlinked_pair db p c p' c' parent child (h p' c') fp fc dp dc n e)
    ]

-- Removing a cycle from the group that it belongs to keeps both sides of all links in step.
pub remove_child-Linked :
    (db : Collection) (p c : ℕ)
    → Linked db
    → belongs db p c ≡ true
    → Linked (collection_of (remove_child p c db))
unfolding remove_child
remove_child-Linked db p c h b = remove_found-Linked db (find_by_id db c) p c h b refl

-- Removing a cycle through a group other than its own takes its parent from it, while its own group
-- goes on listing it: no check refuses the call.
pub remove_child-other :
    (db : Collection) (p q c : ℕ) (parent child : Document)
    → find_by_id db c ≡ some child
    → db p ≡ some parent
    → lists db q c ≡ true
    → (q == p) ≡ false
    → (q == c) ≡ false
    → (p == c) ≡ false
    → (lists (collection_of (remove_child p c db)) q c ≡ true)
      × (belongs (collection_of (remove_child p c db)) q c ≡ false)
unfolding remove_child
remove_child-other db p q c parent child ec fp l a b e =
    let child' = record child { parent_cycle_id = none } in
    let start : collection_of (remove_found (find_by_id db c) p c db)
        ≡ put p (pulled c parent) (put c child' db) =
      ap (λ o. collection_of (remove_found o p c db)) ec
      ∙ (unfold remove_found in
          update_by_id-found (put c child' db) p (pulled c) parent
            (put-other db c p child' e ∙ fp)) in
    rw start
      (rw lists-put (rw lists-put (ground arith)), rw belongs-put (rw belongs-put (ground arith)))
