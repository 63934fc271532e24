-- ===== src/Repositories/Replace.antt =====
-- infrastructure/repositories/*.repository.ts: the replacement and the deletion of an owner's documents.
use cleveremote_box.Base.{
  any, filter, or_else, Bool-cases, bind-some, ◌≡◌, refl, sym, ap, ◌∙◌, subst, inl, inr, Bool, true,
  false, ◌&&◌, ◌||◌, not, some, List, [], ◌∷◌, arith, false≢true,
}
use cleveremote_box.Repositories.Collection.{
  Document, delete, same_text, find_by_owner, is_owned, Text,
}
use cleveremote_box.Repositories.Sync.{delete_cycle, Database, delete_each, delete_for}
use cleveremote_box.Repositories.Within.{same_text_refl, delete-Within, Within, Within-mono}

-- Some document of the list has this identifier.
abbrev pub listed : List Document → Text → Bool
listed ds x = any (λ (d : Document). same_text x d.id) ds

pub delete_each-Within :
    (o : Text) (p : Text → Bool) (ds db db' : List Document)
    → delete_each ds db ≡ some db'
    → Within o p db
    → Within o (λ x. p x && not (listed ds x)) db'
unfolding delete_each any
delete_each-Within o p [] db db' h w =
    Within-mono o p (λ x. p x && true) db' (λ x e. ground arith)
      (subst (Within o p) (ap (or_else db) h) w)
delete_each-Within o p (d ∷ ds) db db' h w =
    let (db1, (e, g)) = bind-some (delete d.id db) (λ db'. delete_each ds db') h in
    Within-mono o (λ x. (p x && not (same_text x d.id)) && not (listed ds x))
      (λ x. p x && not (same_text x d.id || listed ds x)) db' (λ x e. ground arith)
      (delete_each-Within o (λ x. p x && not (same_text x d.id)) ds db1 db' g
        (delete-Within o d.id p db db1 e w))

-- Every visible document of an owner is among those that are found for it.
All-listed :
    (o : Text) (q : Text → Bool) (db : List Document)
    → ((x : Text) → listed (find_by_owner o db) x ≡ true → q x ≡ true)
    → Within o q db
unfolding find_by_owner filter any
All-listed o q [] h = tt
All-listed o q (d ∷ ds) h = elim (Bool-cases (is_owned o d)) [
  | inl e ↦
      let itself : same_text d.id d.id ≡ true = same_text_refl d.id in
      (
        (λ _. h d.id (rw (e) (ground arith))),
        All-listed o q ds (λ x g. h x (rw (e) (ground arith))),
      )
  | inr e ↦ ((λ f. absurd (false≢true (sym e ∙ f))), All-listed o q ds (λ x g. h x (rw (e) g)))
]

pub find_by_owner-Within :
    (o : Text) (db : List Document) → Within o (listed (find_by_owner o db)) db
find_by_owner-Within o db = All-listed o (listed (find_by_owner o db)) db (λ x h. h)

none-left : (o : Text) (db : List Document) → Within o (λ _. false) db → find_by_owner o db ≡ []
unfolding find_by_owner filter
none-left o [] w = refl
none-left o (d ∷ ds) w = elim (Bool-cases (is_owned o d)) [
  | inl e ↦ absurd (false≢true (w.0 e))
  | inr e ↦ rw (e) (none-left o ds w.1)
]

delete_for-none :
    (o : Text) (db db' : List Document) → delete_for o db ≡ some db' → find_by_owner o db' ≡ []
unfolding delete_for
delete_for-none o db db' h =
    let found = listed (find_by_owner o db) in
    none-left o db' (
      Within-mono o (λ x. found x && not (found x)) (λ _. false) db' (λ x e. ground arith)
        (delete_each-Within o found (find_by_owner o db) db db' h (find_by_owner-Within o db)))

-- When the deletion of a cycle succeeds, no sequence, schedule or trigger of it is found any more.
pub delete_cycle-none :
    (id : Text) (db db' : Database)
    → delete_cycle id db ≡ some db'
    → (find_by_owner id db'.sequences ≡ [])
      × ((find_by_owner id db'.schedules ≡ []) × (find_by_owner id db'.triggers ≡ []))
unfolding delete_cycle
delete_cycle-none id db db' h =
    let (sequences, (e1, h1)) = bind-some (delete_for id db.sequences) _ h in
    let (schedules, (e2, h2)) = bind-some (delete_for id db.schedules) _ h1 in
    let (triggers, (e3, h3)) = bind-some (delete_for id db.triggers) _ h2 in
    let (cycles, (e4, h4)) = bind-some (delete id db.cycles) _ h3 in
    let is_it = ap (or_else db) h4 in
    (
      ap (λ (d : Database). find_by_owner id d.sequences) (sym is_it)
          ∙ delete_for-none id db.sequences sequences e1,
      (
        ap (λ (d : Database). find_by_owner id d.schedules) (sym is_it)
            ∙ delete_for-none id db.schedules schedules e2,
        ap (λ (d : Database). find_by_owner id d.triggers) (sym is_it)
            ∙ delete_for-none id db.triggers triggers e3,
      ),
    )
