-- ===== src/Groups/Links.antt =====
-- `addChild` of cycle-group.service.ts, and lemmas on the collection.
use cleveremote_box.Base.{
  any, ◌==◌, ℕ, ◌≡◌, refl, ◌||◌, List, [], ◌∷◌, ◌++◌, arith, false, none, some, if◌then◌else◌, Bool,
  ap, true, Bool-cases, ==_iff, ◌∙◌, inl, inr, Option,
}
use cleveremote_box.Groups.{
  Collection, ChildRef, put, pushed, lists, belongs, Document, listed, listed_in, named_in, named,
  add_child, update_at, link, update_by_id, find_by_id, collection_of, add_found, Linked,
}

pub any-push :
    (c : ℕ) (refs : List ChildRef) (r : ChildRef)
    → any (λ ref. ref.cycle_id == c) (refs ++ r ∷ [])
      ≡ (any (λ ref. ref.cycle_id == c) refs || r.cycle_id == c)
unfolding any
any-push c [] r = ground arith
any-push c (x ∷ refs) r = ground (arith, any-push c refs r)

pub lists-put :
    (db : Collection) (id : ℕ) (d : Document) (p c : ℕ)
    → lists (put id d db) p c ≡ (if p == id then listed d c else lists db p c)
unfolding lists put
lists-put db id d p c = either (p == id)
  where
    either :
        (b : Bool)
        → listed_in (if b then some d else db p) c ≡ (if b then listed d c else listed_in (db p) c)
    either true = refl
    either false = refl

pub belongs-put :
    (db : Collection) (id : ℕ) (d : Document) (p c : ℕ)
    → belongs (put id d db) p c ≡ (if c == id then named d p else belongs db p c)
unfolding belongs put
belongs-put db id d p c = either (c == id)
  where
    either :
        (b : Bool)
        → named_in (if b then some d else db c) p ≡ (if b then named d p else named_in (db c) p)
    either true = refl
    either false = refl

pub lists-at :
    (db : Collection) (p c : ℕ) (d : Document) → db p ≡ some d → lists db p c ≡ listed d c
unfolding lists
lists-at db p c d e = ap (λ o. listed_in o c) e

pub belongs-at :
    (db : Collection) (p c : ℕ) (d : Document) → db c ≡ some d → belongs db p c ≡ named d p
unfolding belongs
belongs-at db p c d e = ap (λ o. named_in o p) e

-- The parent gets the child, and the child the parent: at any two cycles.
linked_pair :
    (db : Collection) (p c p' c' : ℕ) (r : ChildRef) (parent child : Document)
    → lists db p' c' ≡ belongs db p' c'
    → db p ≡ some parent
    → db c ≡ some child
    → parent.is_deleted ≡ false
    → child.is_deleted ≡ false
    → child.parent_cycle_id ≡ none
    → r.cycle_id ≡ c
    → (p == c) ≡ false
    → lists (put p (pushed r parent) (put c (record child { parent_cycle_id = some p }) db)) p' c'
      ≡ belongs
          (put p (pushed r parent) (put c (record child { parent_cycle_id = some p }) db))
          p'
          c'
unfolding pushed
linked_pair db p c p' c' r parent child h ep ec dp dc n rc apart =
    rw (lists-put, belongs-put)
      (rw (lists-put, belongs-put)
        (ground (
          arith,
          any-push c' parent.child_cycles r,
          lists-at db p c' parent ep,
          belongs-at db p' p parent ep,
          lists-at db c c' child ec,
          belongs-at db p' c child ec,
        )))

-- A cycle that becomes its own group
linked_self :
    (db : Collection) (p c p' c' : ℕ) (r : ChildRef) (child : Document)
    → lists db p' c' ≡ belongs db p' c'
    → db c ≡ some child
    → child.is_deleted ≡ false
    → child.parent_cycle_id ≡ none
    → r.cycle_id ≡ c
    → p ≡ c
    → lists
        (put p
          (pushed r (record child { parent_cycle_id = some p }))
          (put c (record child { parent_cycle_id = some p }) db))
        p'
        c'
      ≡ belongs
          (put p
            (pushed r (record child { parent_cycle_id = some p }))
            (put c (record child { parent_cycle_id = some p }) db))
          p'
          c'
unfolding pushed
linked_self db p c p' c' r child h ec dc n rc itself =
    rw (lists-put, belongs-put)
      (rw (lists-put, belongs-put)
        (ground (
          arith,
          any-push c' child.child_cycles r,
          lists-at db c c' child ec,
          belongs-at db p' c child ec,
        )))

pub found :
    (db : Collection) (id : ℕ) (d : Document)
    → find_by_id db id ≡ some d
    → (db id ≡ some d) × (d.is_deleted ≡ false)
unfolding find_by_id
found db id d h = ground arith

pub update_by_id-found :
    (db : Collection) (id : ℕ) (f : Document → Document) (d : Document)
    → db id ≡ some d
    → collection_of (update_by_id id f db) ≡ put id (f d) db
unfolding update_by_id update_at
update_by_id-found db id f d e = ap (λ o. collection_of (update_at o id f db)) e

pub put-same :
    (db : Collection) (id i : ℕ) (d : Document) → (i == id) ≡ true → put id d db i ≡ some d
unfolding put
put-same db id i d e = ap (λ b. if b then some d else db i) e

pub put-other :
    (db : Collection) (id i : ℕ) (d : Document) → (i == id) ≡ false → put id d db i ≡ db i
unfolding put
put-other db id i d e = ap (λ b. if b then some d else db i) e

link-Linked :
    (db : Collection) (o : Option ℕ) (parent child : Document) (p c : ℕ) (order : Option ℕ)
    → Linked db
    → find_by_id db p ≡ some parent
    → find_by_id db c ≡ some child
    → child.parent_cycle_id ≡ o
    → Linked (collection_of (link o parent child p c order db))
unfolding link
link-Linked db (some q) parent child p c order h ep ec n p' c' = h p' c'
link-Linked db none parent child p c order h ep ec n p' c' =
    let child' = record child { parent_cycle_id = some p } in
    let (fc, dc) = found db c child ec in
    elim (Bool-cases (p == c)) [
      | inl e ↦
          rw (update_by_id-found (put c child' db) p _ child' (put-same db c p child' e))
            (linked_self db p c p' c' _ child (h p' c') fc dc n refl ((==_iff p c).0 e))
      | inr e ↦
          let (fp, dp) = found db p parent ep in
          rw (update_by_id-found (put c child' db) p _ parent (put-other db c p child' e ∙ fp))
            (linked_pair db p c p' c' _ parent child (h p' c') fp fc dp dc n refl e)
    ]

add_found-Linked :
    (db : Collection) (op oc : Option Document) (p c : ℕ) (order : Option ℕ)
    → Linked db
    → find_by_id db p ≡ op
    → find_by_id db c ≡ oc
    → Linked (collection_of (add_found op oc p c order db))
unfolding add_found
add_found-Linked db none oc p c order h ep ec = h
add_found-Linked db (some parent) none p c order h ep ec = h
add_found-Linked db (some parent) (some child) p c order h ep ec =
    link-Linked db child.parent_cycle_id parent child p c order h ep ec refl

-- Whatever the two cycles, and whether it succeeds or fails, `addChild` keeps both sides of the
-- links of all cycles in step.
pub add_child-Linked :
    (db : Collection) (p c : ℕ) (order : Option ℕ)
    → Linked db
    → Linked (collection_of (add_child p c order db))
unfolding add_child
add_child-Linked db p c order h =
    add_found-Linked db (find_by_id db p) (find_by_id db c) p c order h refl refl
