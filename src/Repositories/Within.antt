-- ===== src/Repositories/Within.antt =====
-- infrastructure/repositories/*.repository.ts: which documents of an owner are left.
use cleveremote_box.Base.{
  any, All-mono, All, or_else, if-elim, Bool-cases, if◌then◌else◌, is_some, ℕ, ◌≡◌, refl, sym, ap,
  ◌∙◌, subst, inl, inr, Bool, true, ◌&&◌, ◌||◌, not, Option, none, some, List, [], ◌∷◌, ◌++◌, arith,
  false≢true,
}
use cleveremote_box.Repositories.Collection.{
  has_id, Document, update_by_id, delete, soft_deleted, is_owned, Text, same_text, upsert, created,
  write,
}

pub same_text_refl : (a : Text) → same_text a a ≡ true
unfolding same_text
same_text_refl [] = refl
same_text_refl (x ∷ xs) = ground (arith, same_text_refl xs)

pub same_text_sym : (a b : Text) → same_text a b ≡ same_text b a
unfolding same_text
same_text_sym [] [] = refl
same_text_sym [] (y ∷ ys) = refl
same_text_sym (x ∷ xs) [] = refl
same_text_sym (x ∷ xs) (y ∷ ys) = ground (arith, same_text_sym xs ys)

pub same_text_sound : (a b : Text) → same_text a b ≡ true → a ≡ b
unfolding same_text
same_text_sound [] [] h = refl
same_text_sound [] (y ∷ ys) h = absurd (cc)
same_text_sound (x ∷ xs) [] h = absurd (cc)
same_text_sound (x ∷ xs) (y ∷ ys) h =
    let first : x ≡ y = ground arith in
    let rest : xs ≡ ys = same_text_sound xs ys (ground arith) in
    ap (λ (c : ℕ). c ∷ xs) first ∙ ap (λ (l : Text). y ∷ l) rest

-- The visible documents of an owner have identifiers that pass a test.
abbrev pub Within : Text → (Text → Bool) → List Document → Type 0
Within o p = All (λ (d : Document). is_owned o d ≡ true → p d.id ≡ true)

pub Within-mono :
    (o : Text) (p q : Text → Bool) (db : List Document)
    → ((x : Text) → p x ≡ true → q x ≡ true)
    → Within o p db
    → Within o q db
Within-mono o p q db h = All-mono db (λ d w e. h d.id (w e))

update-deleted :
    (o id : Text) (p : Text → Bool) (db : List Document)
    → Within o p db
    → Within o (λ x. p x && not (same_text x id)) (update_by_id id soft_deleted db)
unfolding update_by_id
update-deleted o id p [] w = tt
update-deleted o id p (d ∷ ds) w = (
  if-elim (λ (d : Document). is_owned o d ≡ true → (p d.id && not (same_text d.id id)) ≡ true)
      (has_id id d) (soft_deleted d) d (λ e. unfold soft_deleted in λ h. absurd (cc))
      (λ e h. (let kept = w.0 h in ground arith)),
  update-deleted o id p ds w.1,
)

pub delete-Within :
    (o id : Text) (p : Text → Bool) (db db' : List Document)
    → delete id db ≡ some db'
    → Within o p db
    → Within o (λ x. p x && not (same_text x id)) db'
unfolding delete
delete-Within o id p db db' h w = elim (Bool-cases (any (has_id id) db)) [
  | inl e ↦
      subst (Within o (λ x. p x && not (same_text x id)))
        (ap (or_else db) (sym (ap (deletes id db) e) ∙ h)) (update-deleted o id p db w)
  | inr e ↦ absurd (false≢true (ap is_some (sym (ap (deletes id db) e) ∙ h)))
]
  where
    deletes : Text → List Document → Bool → Option (List Document)
    deletes id db b = if b then some (update_by_id id soft_deleted db) else none

update-written :
    (o id : Text) (owner : Option Text) (body : ℕ) (p : Text → Bool) (db : List Document)
    → Within o p db
    → Within o (λ x. p x || same_text x id) (update_by_id id (write owner body) db)
unfolding update_by_id
update-written o id owner body p [] w = tt
update-written o id owner body p (d ∷ ds) w = (
  if-elim (λ (d : Document). is_owned o d ≡ true → (p d.id || same_text d.id id) ≡ true)
      (has_id id d) (write owner body d) d (λ e. unfold write in λ h. ground arith)
      (λ e h. (let kept = w.0 h in ground arith)),
  update-written o id owner body p ds w.1,
)

Within-append :
    (o : Text) (p : Text → Bool) (xs : List Document) (d : Document)
    → Within o p xs
    → p d.id ≡ true
    → Within o p (xs ++ d ∷ [])
Within-append o p [] d w h = ((λ _. h), tt)
Within-append o p (x ∷ xs) d w h = (w.0, Within-append o p xs d w.1 h)

pub upsert-Within :
    (o id : Text) (owner : Option Text) (body : ℕ) (p : Text → Bool) (db : List Document)
    → Within o p db
    → Within o (λ x. p x || same_text x id) (upsert id owner body db)
unfolding upsert
upsert-Within o id owner body p db w =
    if-elim (Within o (λ x. p x || same_text x id)) (any (has_id id) db)
      (update_by_id id (write owner body) db) (db ++ created id owner body ∷ [])
      (λ _. update-written o id owner body p db w)
      (λ _.
        Within-append o (λ x. p x || same_text x id) db (created id owner body)
          (Within-mono o p (λ x. p x || same_text x id) db (λ x h. ground arith) w)
          (let itself = same_text_refl id in ground arith))
