-- ===== src/Groups/Entries.antt =====
-- infrastructure/repositories/cycle.repository.ts: the entries of the groups after each write of
-- `reconcileParent` and after the write of the cycle itself.
use cleveremote_box.Base.{
  any, Option-cases, ◌==◌, ==_iff, Bool-cases, ℕ, ◌≡◌, ap, ◌∙◌, inl, inr, true, false, ◌&&◌, ◌||◌,
  not, none, some, arith, length, if◌then◌else◌, is_id, refl, Option,
}
use cleveremote_box.Groups.{
  Collection, belongs, update_by_id, put, collection_of, lists, Document, find_by_id, update_at,
  listed_in, pulled, ChildRef, pushed,
}
use cleveremote_box.Groups.Links.{
  lists-put, update_by_id-found, lists-at, belongs-at, belongs-put, found, any-push,
}
use cleveremote_box.Groups.Removal.{any-pull}
use cleveremote_box.Groups.Sync.{remove_child_safe, ensure_child_ref, ensure_at, write, upsert_at}

lists-none : (db : Collection) (p c : ℕ) → db p ≡ none → lists db p c ≡ false
unfolding lists
lists-none db p c e = ap (λ o. listed_in o c) e

pub removed-none : (db : Collection) (p c : ℕ) → db p ≡ none → remove_child_safe p c db ≡ db
unfolding remove_child_safe update_by_id update_at
removed-none db p c e = ap (λ o. collection_of (update_at o p (pulled c) db)) e

pub removed-some :
    (db : Collection) (p c : ℕ) (d : Document)
    → db p ≡ some d
    → remove_child_safe p c db ≡ put p (pulled c d) db
unfolding remove_child_safe
removed-some db p c d e = update_by_id-found db p (pulled c) d e

-- Taking a cycle out of a group changes this one entry.
pub lists-removed :
    (db : Collection) (p c p' c' : ℕ)
    → lists (remove_child_safe p c db) p' c' ≡ (lists db p' c' && not (p' == p && c' == c))
lists-removed db p c p' c' = elim (Option-cases (db p)) [
  | inl e ↦ rw (removed-none db p c e) (ground (arith, absent e))
  | inr (d, e) ↦
      rw (removed-some db p c d e, lists-put)
        (unfold pulled in ground (arith, any-pull c' c d.child_cycles, lists-at db p c' d e))
]
  where
    absent : db p ≡ none → (p' == p) ≡ true → lists db p' c' ≡ false
    absent e x = lists-none db p' c' (ap db ((==_iff p' p).0 x) ∙ e)

pub belongs-removed :
    (db : Collection) (p c p' c' : ℕ) → belongs (remove_child_safe p c db) p' c' ≡ belongs db p' c'
belongs-removed db p c p' c' = elim (Option-cases (db p)) [
  | inl e ↦ ap (λ x. belongs x p' c') (removed-none db p c e)
  | inr (d, e) ↦
      rw (removed-some db p c d e, belongs-put)
        (unfold pulled in ground (arith, belongs-at db p' p d e))
]

-- Putting a cycle into a group that is found, if the group does not list it yet
ensured :
    (db : Collection) (p c : ℕ) (d : Document)
    → find_by_id db p ≡ some d
    → ensure_child_ref p c db ≡ ensure_at (some d) p c db
unfolding ensure_child_ref
ensured db p c d e = ap (λ o. ensure_at o p c db) e

ref_to : ℕ → Document → ChildRef
ref_to c d = record { cycle_id = c; order = length d.child_cycles }

ensure-listed :
    (db : Collection) (p c : ℕ) (d : Document)
    → any (λ ref. ref.cycle_id == c) d.child_cycles ≡ true
    → ensure_at (some d) p c db ≡ db
unfolding ensure_at
ensure-listed db p c d t = rw (t) refl

ensure-unlisted :
    (db : Collection) (p c : ℕ) (d : Document)
    → any (λ ref. ref.cycle_id == c) d.child_cycles ≡ false
    → ensure_at (some d) p c db ≡ put p (pushed (ref_to c d) d) db
unfolding ensure_at ref_to
ensure-unlisted db p c d t = rw (t) refl

pub lists-ensured :
    (db : Collection) (p c p' c' : ℕ) (d : Document)
    → find_by_id db p ≡ some d
    → lists (ensure_child_ref p c db) p' c' ≡ (lists db p' c' || p' == p && c' == c)
unfolding ref_to
lists-ensured db p c p' c' d e =
    let (f, v) = found db p d e in
    ap (λ x. lists x p' c') (ensured db p c d e)
    ∙ elim (Bool-cases (any (λ ref. ref.cycle_id == c) d.child_cycles)) [
      | inl t ↦
          ap (λ x. lists x p' c') (ensure-listed db p c d t)
          ∙ (let there = here f v t in ground arith)
      | inr t ↦
          ap (λ x. lists x p' c') (ensure-unlisted db p c d t)
          ∙ rw (lists-put) (
              unfold pushed in
              ground (arith, any-push c' d.child_cycles (ref_to c d), lists-at db p c' d f))
    ]
  where
    here :
        db p ≡ some d
        → d.is_deleted ≡ false
        → any (λ ref. ref.cycle_id == c) d.child_cycles ≡ true
        → (p' == p) ≡ true
        → (c' == c) ≡ true
        → lists db p' c' ≡ true
    here f v t x y =
        ap (λ (i : ℕ). lists db i c') ((==_iff p' p).0 x)
        ∙ ap (λ (j : ℕ). lists db p j) ((==_iff c' c).0 y)
        ∙ lists-at db p c d f
        ∙ (ground arith)

pub belongs-ensured :
    (db : Collection) (p c p' c' : ℕ) (d : Document)
    → find_by_id db p ≡ some d
    → belongs (ensure_child_ref p c db) p' c' ≡ belongs db p' c'
belongs-ensured db p c p' c' d e =
    let (f, v) = found db p d e in
    ap (λ x. belongs x p' c') (ensured db p c d e)
    ∙ elim (Bool-cases (any (λ ref. ref.cycle_id == c) d.child_cycles)) [
      | inl t ↦ ap (λ x. belongs x p' c') (ensure-listed db p c d t)
      | inr t ↦
          ap (λ x. belongs x p' c') (ensure-unlisted db p c d t)
          ∙ rw (belongs-put) (unfold pushed in ground (arith, belongs-at db p' p d f))
    ]

-- The write of the cycle itself, with the children that it had
pub lists-upserted :
    (db : Collection) (c p' c' : ℕ) (parent : Option ℕ) (d : Document)
    → db c ≡ some d
    → lists (upsert_at (some d) c parent d.child_cycles db) p' c' ≡ lists db p' c'
unfolding upsert_at write
lists-upserted db c p' c' parent d e = rw (lists-put) (ground (arith, lists-at db c c' d e))

pub belongs-upserted :
    (db : Collection) (c p' c' : ℕ) (parent : Option ℕ) (d : Document)
    → d.is_deleted ≡ false
    → belongs (upsert_at (some d) c parent d.child_cycles db) p' c'
      ≡ (if c' == c then is_id parent p' else belongs db p' c')
unfolding upsert_at write
belongs-upserted db c p' c' parent d v = rw (belongs-put) (ground arith)
