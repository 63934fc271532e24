-- ===== src/Groups/Deletion.antt =====
-- `delete` of cycle-group.service.ts.
use cleveremote_box.Base.{
  any, ◌==◌, ℕ, ◌≡◌, ap, false, none, some, List, [], arith, ==_iff, ==_refl, Bool-cases, refl, sym,
  ◌∙◌, subst, inl, inr, true, false≢true, Option, ◌∷◌,
}
use cleveremote_box.Groups.{
  find_by_id, soft_deleted, Document, belongs, after, ChildRef, update_by_id, lists, Collection,
  remove_child, Linked, collection_of, put, listed, remove_found, pulled, ok, named, update_at,
  delete, delete_at, leave, delete_found,
}
use cleveremote_box.Groups.Links.{
  belongs-put, belongs-at, lists-put, lists-at, found, update_by_id-found, put-same, put-other,
}
use cleveremote_box.Groups.Removal.{remove_child-Linked, lists-found}

deleted-linked :
    (db : Collection) (id p' c' : ℕ) (d : Document)
    → lists db p' c' ≡ belongs db p' c'
    → lists db id c' ≡ belongs db id c'
    → lists db p' id ≡ belongs db p' id
    → db id ≡ some d
    → d.parent_cycle_id ≡ none
    → any (λ ref. ref.cycle_id == c') d.child_cycles ≡ false
    → lists (put id (soft_deleted d) db) p' c' ≡ belongs (put id (soft_deleted d) db) p' c'
unfolding soft_deleted
deleted-linked db id p' c' d h h' h'' e n x =
    rw (lists-put, belongs-put) (ground (arith, lists-at db id c' d e, belongs-at db p' id d e))

no_refs : (refs : List ChildRef) (c : ℕ) → refs ≡ [] → any (λ ref. ref.cycle_id == c) refs ≡ false
unfolding any
no_refs refs c e = ap (any (λ ref. ref.cycle_id == c)) e

named-own :
    (d : Document) (q : ℕ) → d.is_deleted ≡ false → d.parent_cycle_id ≡ some q → named d q ≡ true
named-own d q e n = ground (arith, ==_refl q)

update_by_id-ok :
    (db : Collection) (id : ℕ) (f : Document → Document) (d : Document)
    → db id ≡ some d
    → update_by_id id f db ≡ ok (put id (f d) db)
unfolding update_by_id update_at
update_by_id-ok db id f d e = ap (λ o. update_at o id f db) e

different_sym : (a b : ℕ) → (a == b) ≡ false → (b == a) ≡ false
different_sym a b h = ground arith

childless_listed :
    (d : Document) (c : ℕ)
    → any (λ ref. ref.cycle_id == c) d.child_cycles ≡ false
    → listed d c ≡ false
childless_listed d c h = ground arith

-- What is left of the cycle once it left its group
module _ (db : Collection) (h : Linked db) (q id : ℕ) (cycle : Document)
    (found_cycle : find_by_id db id ≡ some cycle) (childless : cycle.child_cycles ≡ []) where
  delete_child-Linked :
      cycle.parent_cycle_id ≡ some q
      → Linked (collection_of (after (remove_child q id db) (update_by_id id soft_deleted)))
  unfolding lists remove_found remove_child after
  delete_child-Linked n p' c' =
      let cycle' = record cycle { parent_cycle_id = none } in
      let (fc, dc) = found db id cycle found_cycle in
      let b : belongs db q id ≡ true = belongs-at db q id cycle fc ∙ named-own cycle q dc n in
      let (group, (fq, dq)) = lists-found (db q) id (h q id ∙ b) in
      let apart : (q == id) ≡ false = distinct (h q id ∙ b) fc in
      let db2 = put q (pulled id group) (put id cycle' db) in
      let left : remove_child q id db ≡ ok db2 =
        ap (λ o. remove_found o q id db) found_cycle
        ∙ update_by_id-ok (put id cycle' db) q (pulled id) group
            (put-other db id q cycle' apart ∙ fq) in
      let linked : Linked db2 =
        subst (λ x. Linked (collection_of x)) left (remove_child-Linked db q id h b) in
      let there : db2 id ≡ some cycle' =
        put-other (put id cycle' db) q id (pulled id group) (different_sym q id apart)
        ∙ put-same db id id cycle' (==_refl id) in
      let emptied : any (λ ref. ref.cycle_id == c') cycle.child_cycles ≡ false =
        no_refs cycle.child_cycles c' childless in
      rw (left, update_by_id-found db2 id soft_deleted cycle' there)
        (deleted-linked db2 id p' c' cycle' (linked p' c') (linked id c') (linked p' id) there refl
          emptied)
    where
      distinct : lists db q id ≡ true → db id ≡ some cycle → (q == id) ≡ false
      distinct l fc = elim (Bool-cases (q == id)) [
        | inl e ↦
            let itself : lists db id id ≡ true =
              ap (λ x. lists db x id) (sym ((==_iff q id).0 e)) ∙ l in
            absurd (
              false≢true (
                sym (
                  lists-at db id id cycle fc
                  ∙ childless_listed cycle id (no_refs cycle.child_cycles id childless))
                ∙ itself))
        | inr e ↦ e
      ]

delete_at-Linked :
    (db : Collection) (refs : List ChildRef) (parent : Option ℕ) (id : ℕ) (cycle : Document)
    → Linked db
    → find_by_id db id ≡ some cycle
    → cycle.child_cycles ≡ refs
    → cycle.parent_cycle_id ≡ parent
    → Linked (collection_of (delete_at refs parent id db))
unfolding delete_at leave after
delete_at-Linked db (_ ∷ _) parent id cycle h fc childless n = h
delete_at-Linked db [] (some q) id cycle h fc childless n =
    delete_child-Linked db h q id cycle fc childless n
delete_at-Linked db [] none id cycle h fc childless n = λ p' c'.
    let there = (found db id cycle fc).0 in
    rw (update_by_id-found db id soft_deleted cycle there) (
      deleted-linked db id p' c' cycle (h p' c') (h id c') (h p' id) there n
        (no_refs cycle.child_cycles c' childless))

delete_found-Linked :
    (db : Collection) (o : Option Document) (id : ℕ)
    → Linked db
    → find_by_id db id ≡ o
    → Linked (collection_of (delete_found o id db))
unfolding delete_found
delete_found-Linked db none id h e = h
delete_found-Linked db (some cycle) id h e =
    delete_at-Linked db cycle.child_cycles cycle.parent_cycle_id id cycle h e refl refl

-- Deleting a cycle keeps both sides of all links in step: a group with children is refused, and a
-- child leaves its group first.
pub delete-Linked : (db : Collection) (id : ℕ) → Linked db → Linked (collection_of (delete id db))
unfolding delete
delete-Linked db id h = delete_found-Linked db (find_by_id db id) id h refl
