-- ===== src/Groups/Parent.antt =====
-- infrastructure/repositories/cycle.repository.ts: `save`, and the two sides of the links.
use cleveremote_box.Base.{
  Option-cases, ◌==◌, ==_iff, Bool-cases, ℕ, ◌≡◌, ap, ◌∙◌, inl, inr, true, false, ◌&&◌, ◌||◌, not,
  none, some, arith, if◌then◌else◌, is_id, refl, Option, sym, subst, false≢true, Bool, List,
}
use cleveremote_box.Groups.{
  Collection, belongs, put, lists, Document, find_by_id, pulled, ChildRef, Linked,
}
use cleveremote_box.Groups.Links.{belongs-at, found, put-other, put-same}
use cleveremote_box.Groups.Sync.{
  remove_child_safe, write, upsert_at, remove_opt, ensure_opt, same_parent, reconcile_parent, save,
  parent_of,
}
use cleveremote_box.Groups.Entries.{
  removed-none, removed-some, lists-removed, belongs-removed, lists-ensured, belongs-ensured,
  lists-upserted, belongs-upserted,
}

abbrev visible : Option Document → Bool
visible none = false
visible (some d) = not d.is_deleted

-- A group that is not deleted, if there is one
abbrev pub Findable : Option ℕ → Collection → Type 0
Findable none db = Unit
Findable (some q) db = visible (db q) ≡ true

Findable-put :
    (db : Collection) (o : Option ℕ) (i : ℕ) (d : Document)
    → d.is_deleted ≡ false
    → Findable o db
    → Findable o (put i d db)
Findable-put db none i d v h = tt
Findable-put db (some q) i d v h = elim (Bool-cases (q == i)) [
  | inl e ↦ ap visible (put-same db i q d e) ∙ ap not v
  | inr e ↦ ap visible (put-other db i q d e) ∙ h
]

Findable-removed :
    (db : Collection) (o : Option ℕ) (p c : ℕ)
    → Findable o db
    → Findable o (remove_child_safe p c db)
Findable-removed db none p c h = tt
Findable-removed db (some q) p c h = elim (Option-cases (db p)) [
  | inl e ↦ subst (Findable (some q)) (sym (removed-none db p c e)) h
  | inr (d, e) ↦ elim (Bool-cases (q == p)) [
    | inl x ↦
        let at_q : db q ≡ some d = ap db ((==_iff q p).0 x) ∙ e in
        let live : not d.is_deleted ≡ true = sym (ap visible at_q) ∙ h in
        subst (Findable (some q)) (sym (removed-some db p c d e))
          (ap visible (put-same db p q (pulled c d) x) ∙ (unfold pulled in live))
    | inr x ↦
        subst (Findable (some q)) (sym (removed-some db p c d e))
          (ap visible (put-other db p q (pulled c d) x) ∙ h)
  ]
]

find-at :
    (db : Collection) (q : ℕ) (d : Document)
    → db q ≡ some d
    → d.is_deleted ≡ false
    → find_by_id db q ≡ some d
unfolding find_by_id
find-at db q d e v = ap look e ∙ ap (λ b. if b then none else some d) v
  where
    look : Option Document → Option Document
    look o = elim o [ none ↦ none | some d ↦ if d.is_deleted then none else some d ]

-- What is found for it
find-visible :
    (db : Collection) (q : ℕ) → visible (db q) ≡ true → (d : Document) × (find_by_id db q ≡ some d)
find-visible db q h = elim (Option-cases (db q)) [
  | inl e ↦ absurd (false≢true (sym (ap visible e) ∙ h))
  | inr (d, e) ↦
      let live : not d.is_deleted ≡ true = sym (ap visible e) ∙ h in
      let kept : d.is_deleted ≡ false = ground arith in (d, find-at db q d e kept)
]

lists-ensure_opt :
    (db : Collection) (n : Option ℕ) (c p' c' : ℕ)
    → Findable n db
    → lists (ensure_opt n c db) p' c' ≡ (lists db p' c' || is_id n p' && c' == c)
unfolding ensure_opt
lists-ensure_opt db none c p' c' h = ground arith
lists-ensure_opt db (some q) c p' c' h =
    let (d, e) = find-visible db q h in let step = lists-ensured db q c p' c' d e in ground arith

belongs-ensure_opt :
    (db : Collection) (n : Option ℕ) (c p' c' : ℕ)
    → Findable n db
    → belongs (ensure_opt n c db) p' c' ≡ belongs db p' c'
unfolding ensure_opt
belongs-ensure_opt db none c p' c' h = refl
belongs-ensure_opt db (some q) c p' c' h =
    let (d, e) = find-visible db q h in belongs-ensured db q c p' c' d e

lists-remove_opt :
    (db : Collection) (o : Option ℕ) (c p' c' : ℕ)
    → lists (remove_opt o c db) p' c' ≡ (lists db p' c' && not (is_id o p' && c' == c))
unfolding remove_opt
lists-remove_opt db none c p' c' = ground arith
lists-remove_opt db (some p) c p' c' = (let step = lists-removed db p c p' c' in ground arith)

belongs-remove_opt :
    (db : Collection) (o : Option ℕ) (c p' c' : ℕ)
    → belongs (remove_opt o c db) p' c' ≡ belongs db p' c'
unfolding remove_opt
belongs-remove_opt db none c p' c' = refl
belongs-remove_opt db (some p) c p' c' = belongs-removed db p c p' c'

Findable-remove_opt :
    (db : Collection) (n o : Option ℕ) (c : ℕ) → Findable n db → Findable n (remove_opt o c db)
unfolding remove_opt
Findable-remove_opt db n none c h = h
Findable-remove_opt db n (some p) c h = Findable-removed db n p c h

Findable-upserted :
    (db : Collection) (n parent : Option ℕ) (c : ℕ) (d : Document) (children : List ChildRef)
    → d.is_deleted ≡ false
    → Findable n db
    → Findable n (upsert_at (some d) c parent children db)
unfolding upsert_at write
Findable-upserted db n parent c d children v h = Findable-put db n c _ v h

same_parent_iff : (a b : Option ℕ) (p : ℕ) → same_parent a b ≡ true → is_id a p ≡ is_id b p
same_parent_iff none none p h = refl
same_parent_iff none (some y) p h = absurd (cc)
same_parent_iff (some x) none p h = absurd (cc)
same_parent_iff (some x) (some y) p h = ground arith

-- After the parents are reconciled, a group lists the cycle exactly when the cycle names it.
reconciled :
    (db : Collection) (o n : Option ℕ) (c p' c' : ℕ)
    → Findable n db
    → (c' == c ≡ true → lists db p' c' ≡ is_id o p')
    → (lists (reconcile_parent o n c db) p' c' ≡ (if c' == c then is_id n p' else lists db p' c'))
      × (belongs (reconcile_parent o n c db) p' c' ≡ belongs db p' c')
unfolding reconcile_parent
reconciled db o n c p' c' h l = elim (Bool-cases (same_parent o n)) [
  | inl e ↦
      let kept = same_parent_iff o n p' e in
      let put_in = lists-ensure_opt db n c p' c' h in
      (rw (e) (ground (arith, l)), rw (e) (belongs-ensure_opt db n c p' c' h))
  | inr e ↦
      let out = remove_opt o c db in
      let h' = Findable-remove_opt db n o c h in
      let put_in = lists-ensure_opt out n c p' c' h' in
      let put_out = lists-remove_opt db o c p' c' in
      (
        rw (e) (ground (arith, l)),
        rw (e) (belongs-ensure_opt out n c p' c' h' ∙ belongs-remove_opt db o c p' c'),
      )
]

-- When every group lists exactly the cycles that name it, `save` of a cycle that is found, with the children
-- that it has and any parent that is found or none, keeps that so.
pub save-Linked :
    (db : Collection) (c : ℕ) (n : Option ℕ) (d : Document)
    → Linked db
    → find_by_id db c ≡ some d
    → Findable n db
    → Linked (save c n d.child_cycles db)
unfolding save
save-Linked db c n d h e f p' c' =
    let (at, v) = found db c d e in
    let db1 = upsert_at (some d) c n d.child_cycles db in
    let start : save c n d.child_cycles db ≡ reconcile_parent d.parent_cycle_id n c db1 =
      ap (λ o. reconcile_parent (parent_of o) n c (upsert_at (db c) c n d.child_cycles db)) e
      ∙ ap (λ o. reconcile_parent d.parent_cycle_id n c (upsert_at o c n d.child_cycles db)) at in
    let same_lists = lists-upserted db c p' c' n d at in
    let (l, b) =
      reconciled db1 d.parent_cycle_id n c p' c' (Findable-upserted db n n c d d.child_cycles v f)
        (λ x. same_lists ∙ h p' c' ∙ own at v x) in
    ap (λ x. lists x p' c') start
    ∙ l
    ∙ (let named = belongs-upserted db c p' c' n d v in let both = h p' c' in ground arith)
    ∙ sym b
    ∙ sym (ap (λ x. belongs x p' c') start)
  where
    own :
        db c ≡ some d
        → d.is_deleted ≡ false
        → (c' == c) ≡ true
        → belongs db p' c' ≡ is_id d.parent_cycle_id p'
    own at v x =
        ap (λ (i : ℕ). belongs db p' i) ((==_iff c' c).0 x) ∙ belongs-at db p' c d at ∙ ground arith
