-- ===== src/Repositories/Strict.antt =====
-- infrastructure/repositories/com-request.repository.ts: `replaceForDevice`; and the save of a document that
-- is deleted.
use cleveremote_box.Base.{
  any, All, filter, Option-cases, is_some, if◌then◌else◌, or_else, Bool-cases, bind-some, ℕ, ◌≡◌,
  sym, ap, ◌∙◌, subst, inl, inr, Bool, true, false, ◌&&◌, ◌||◌, not, Option, none, some, List, [],
  ◌∷◌, arith, false≢true, refl, find,
}
use cleveremote_box.Repositories.Replace.{listed, find_by_owner-Within, delete_each-Within}
use cleveremote_box.Repositories.Collection.{
  delete_at, Document, names, is_valid_uuid, same_text, save_at, Text, Model, upsert, is_owned,
  find_by_owner, has_id, find_by_id, update_by_id, is_visible, write, save_given, hex_digits,
  given_id,
}
use cleveremote_box.Repositories.Sync.{is_incoming, apply_model, save_for, replace_for, delete_each}
use cleveremote_box.Repositories.Within.{
  Within-mono, upsert-Within, Within, delete-Within, same_text_sym, same_text_sound,
}

given_id-eq : (o : Option Text) (id : Text) → given_id o ≡ some id → o ≡ some id
given_id-eq none id e = e
given_id-eq (some []) id e = absurd (cc)
given_id-eq (some (c ∷ cs)) id e = e

-- A model with this identifier that is not marked as deleted
abbrev pub is_kept : List Model → Text → Bool
is_kept ms id = any (λ (m : Model). not m.delete && names id m.id) ms

abbrev pub IsGiven : Model → Type 0
IsGiven m = is_some (given_id m.id) ≡ true

save-Within :
    (random_uuid : List Document → Text) (o id : Text) (owner : Option Text) (body : ℕ)
    (p : Text → Bool) (db db' : List Document)
    → save_given random_uuid (some id) owner body db ≡ some db'
    → Within o p db
    → Within o (λ x. p x || same_text x id) db'
unfolding save_given
save-Within random_uuid o id owner body p db db' h w = elim (Bool-cases (is_valid_uuid id)) [
  | inl e ↦
      subst (Within o (λ x. p x || same_text x id)) (ap (or_else db) (sym (ap saves e) ∙ h))
        (upsert-Within o id owner body p db w)
  | inr e ↦ absurd (false≢true (ap is_some (sym (ap saves e) ∙ h)))
]
  where
    saves : Bool → Option (List Document)
    saves b = if b then some (upsert id owner body db) else none

-- One model with this identifier
apply-Within :
    (random_uuid : List Document → Text) (o id : Text) (owner : Option Text) (m : Model)
    (p : Text → Bool) (db db' : List Document)
    → given_id m.id ≡ some id
    → apply_model random_uuid owner m db ≡ some db'
    → Within o p db
    → Within o (λ x. if m.delete then p x && not (same_text x id) else p x || same_text x id) db'
unfolding apply_model delete_at save_at
apply-Within random_uuid o id owner m p db db' e h w = elim (Bool-cases m.delete) [
  | inl t ↦ rw (t) (
      delete-Within o id p db db'
        (ap (λ i. delete_at i db) (sym (given_id-eq m.id id e)) ∙ sym (ap applied t) ∙ h) w)
  | inr f ↦ rw (f) (
      save-Within random_uuid o id owner m.body p db db'
        (ap (λ i. save_given random_uuid i owner m.body db) (sym e) ∙ sym (ap applied f) ∙ h) w)
]
  where
    applied : Bool → Option (List Document)
    applied b = if b then delete_at m.id db else save_at random_uuid m.id owner m.body db

-- What a model does to an identifier that was kept, or is given from here on
still :
    (k : Bool) (x id : Text) (m : Model) (ms : List Model)
    → given_id m.id ≡ some id
    → (if m.delete
        then (k || is_incoming (m ∷ ms) x) && not (same_text x id)
        else (k || is_incoming (m ∷ ms) x) || same_text x id)
      ≡ true
    → ((k || not m.delete && names x m.id) || is_incoming ms x) ≡ true
unfolding any
still k x id m ms e h =
    let incoming : names x (given_id m.id) ≡ same_text x id = ap (names x) e ∙ same_text_sym id x in
    let named : names x m.id ≡ same_text x id =
      ap (names x) (given_id-eq m.id id e) ∙ same_text_sym id x in
    ground arith

pub save_for-Within :
    (random_uuid : List Document → Text) (o : Text) (ms : List Model) (k : Text → Bool)
    (db db' : List Document)
    → All IsGiven ms
    → save_for random_uuid o ms db ≡ some db'
    → Within o (λ x. k x || is_incoming ms x) db
    → Within o (λ x. k x || is_kept ms x) db'
unfolding save_for any
save_for-Within random_uuid o [] k db db' g h w =
    subst (Within o (λ x. k x || false)) (ap (or_else db) h) w
save_for-Within random_uuid o (m ∷ ms) k db db' g h w = elim (Option-cases (given_id m.id)) [
  | inl e ↦ absurd (false≢true (sym (ap is_some e) ∙ g.0))
  | inr (id, e) ↦
      let (db1, (a, rest)) = bind-some (apply_model random_uuid (some o) m db) _ h in
      let p : Text → Bool = λ x. k x || is_incoming (m ∷ ms) x in
      let k' : Text → Bool = λ x. k x || not m.delete && names x m.id in
      let next =
        Within-mono o (λ x. if m.delete then p x && not (same_text x id) else p x || same_text x id)
          (λ x. k' x || is_incoming ms x) db1 (λ x t. still (k x) x id m ms e t)
          (apply-Within random_uuid o id (some o) m p db db1 e a w) in
      Within-mono o (λ x. k' x || is_kept ms x) (λ x. k x || is_kept (m ∷ ms) x) db'
        (λ x t. ground arith) (save_for-Within random_uuid o ms k' db1 db' g.1 rest next)
]

-- What is found and not given is deleted.
pub found-or-incoming :
    (ms : List Model) (ds : List Document) (x : Text)
    → (listed ds x && not (listed (filter (λ d. not (is_incoming ms d.id)) ds) x)) ≡ true
    → is_incoming ms x ≡ true
unfolding filter any
found-or-incoming ms [] x h = absurd (cc)
found-or-incoming ms (d ∷ ds) x h = elim (Bool-cases (same_text x d.id)) [
  | inl e ↦
      let here : x ≡ d.id = same_text_sound x d.id e in
      elim (Bool-cases (is_incoming ms d.id)) [
        | inl t ↦ ap (is_incoming ms) here ∙ t
        | inr f ↦ absurd (false≢true (sym (gone f e) ∙ h))
      ]
  | inr e ↦ found-or-incoming ms ds x (elim (Bool-cases (is_incoming ms d.id)) [
    | inl t ↦ sym (left t e) ∙ h
    | inr f ↦ sym (passed f e) ∙ h
  ])
]
  where
    rest : List Document
    rest = filter (λ d. not (is_incoming ms d.id)) ds

    gone :
        is_incoming ms d.id ≡ false
        → same_text x d.id ≡ true
        → (listed (d ∷ ds) x && not (listed (filter (λ d. not (is_incoming ms d.id)) (d ∷ ds)) x))
          ≡ false
    gone f e = rw (f, e) refl

    left :
        is_incoming ms d.id ≡ true
        → same_text x d.id ≡ false
        → (listed (d ∷ ds) x && not (listed (filter (λ d. not (is_incoming ms d.id)) (d ∷ ds)) x))
          ≡ (listed ds x && not (listed rest x))
    left t e = rw (t, e) refl

    passed :
        is_incoming ms d.id ≡ false
        → same_text x d.id ≡ false
        → (listed (d ∷ ds) x && not (listed (filter (λ d. not (is_incoming ms d.id)) (d ∷ ds)) x))
          ≡ (listed ds x && not (listed rest x))
    passed f e = rw (f, e) refl

-- A strict replacement: when `replaceForDevice` succeeds with models that all have an identifier, every
-- request that is then found for the device has the identifier of a model that is not marked as deleted.
pub replace_for-kept :
    (random_uuid : List Document → Text) (o : Text) (ms : List Model) (db db' : List Document)
    → All IsGiven ms
    → replace_for random_uuid o ms db ≡ some db'
    → All (λ (d : Document). is_owned o d ≡ true → is_kept ms d.id ≡ true) db'
unfolding replace_for
replace_for-kept random_uuid o ms db db' g h =
    let found = find_by_owner o db in
    let removed = filter (λ d. not (is_incoming ms d.id)) found in
    let (db1, (e, rest)) = bind-some (delete_each removed db) _ h in
    let first =
      Within-mono o (λ x. listed found x && not (listed removed x)) (λ x. false || is_incoming ms x)
        db1 (λ x t. found-or-incoming ms found x t)
        (delete_each-Within o (listed found) removed db db1 e (find_by_owner-Within o db)) in
    save_for-Within random_uuid o ms (λ x. false) db1 db' g rest first

find-updated :
    (id : Text) (owner : Option Text) (body : ℕ) (db : List Document)
    → find_by_id id db ≡ none
    → find_by_id id (update_by_id id (write owner body) db) ≡ none
unfolding find_by_id find update_by_id write
find-updated id owner body [] h = refl
find-updated id owner body (d ∷ ds) h = elim (Bool-cases (is_visible d && has_id id d)) [
  | inl e ↦ absurd (false≢true (sym (ap is_some (sym (ap (found d ds) e) ∙ h))))
  | inr e ↦ elim (Bool-cases (has_id id d)) [
    | inl t ↦ rw (t, e) (find-updated id owner body ds (sym (ap (found d ds) e) ∙ h))
    | inr f ↦ rw (f, e) (find-updated id owner body ds (sym (ap (found d ds) e) ∙ h))
  ]
]
  where
    found : Document → List Document → Bool → Option Document
    found d ds b = if b then some d else find (λ d. is_visible d && has_id id d) ds

-- A document that was deleted is not found after it is saved again, though the save succeeds.
pub save_at-hidden :
    (random_uuid : List Document → Text) (id : Text) (owner : Option Text) (body : ℕ)
    (db : List Document)
    → is_valid_uuid id ≡ true
    → any (has_id id) db ≡ true
    → find_by_id id db ≡ none
    → (db' : List Document) × ((save_at random_uuid (some id) owner body db ≡ some db')
        × (find_by_id id db' ≡ none))
unfolding save_at save_given upsert is_valid_uuid hex_digits
save_at-hidden random_uuid [] owner body db v e h = absurd (false≢true v)
save_at-hidden random_uuid (c ∷ cs) owner body db v e h = (
  update_by_id (c ∷ cs) (write owner body) db,
  (rw (v, e) refl, find-updated (c ∷ cs) owner body db h),
)
