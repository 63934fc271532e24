-- ===== src/Repositories/Refines.antt =====
-- infrastructure/repositories/*-mongoose.repository.ts: whole runs of saves and deletions against a map of slots.
use cleveremote_box.Base.{
  any, if◌then◌else◌, Bool-cases, Option-cases, ◌>>=◌, ℕ, ◌≡◌, ◌≤◌, refl, sym, ap, ◌∙◌, subst, inl,
  inr, false, Option, none, some, List, [], ◌∷◌, arith, count, count-append, find, if-elim, All,
  Bool, true, false≢true,
}
use cleveremote_box.Repositories.Collection.{
  Text, same_text, Document, has_id, update_by_id, write, upsert, soft_deleted, delete, created,
  save_at, is_valid_uuid, find_by_id, save_given,
}
use cleveremote_box.Repositories.Slots.{
  Slot, free, live, slot_of, is_free, written, gone, Slots, changed, slot-upsert, slot-deleted,
  any-has_id, same_text-eq, deleted-id, write-id,
}
use mathlib.Core.Path.{fun_ext}

-- A document is saved under its identifier, or deleted.
pub data Operation : Type 0 where
  save : Text → Option Text → ℕ → Operation
  remove : Text → Operation

-- The identifier of a save is not the empty text.
abbrev pub has_identifier : Operation → Bool
has_identifier (save [] owner body) = false
has_identifier _ = true

unfoldable pub operate : Operation → List Document → Option (List Document)
unfolding save_at delete
operate (save id owner body) db = save_at (λ _. []) (some id) owner body db
operate (remove id) db = delete id db

unfoldable pub operate_all : List Operation → List Document → Option (List Document)
unfolding operate
operate_all [] db = some db
operate_all (o ∷ os) db = operate o db >>= λ db'. operate_all os db'

-- What is found for an identifier: the owner and the other fields
abbrev pub read : Text → List Document → Option (Option Text × ℕ)
read x db = find_by_id x db >>= λ d. some (d.owner, d.body)

-- The same on slots
abbrev pub specified : Operation → Slots → Option Slots
specified (save id owner body) s =
    if is_valid_uuid id then some (changed id (written owner body) s) else none
specified (remove id) s = if is_free (s id) then none else some (changed id gone s)

unfoldable pub specified_all : List Operation → Slots → Option Slots
specified_all [] s = some s
specified_all (o ∷ os) s = specified o s >>= λ s'. specified_all os s'

abbrev pub found : Slot → Option (Option Text × ℕ)
found (live owner body) = some (owner, body)
found _ = none

abbrev view : List Document → Slots
view db x = slot_of x db

delete-specified :
    (id : Text) (db : List Document)
    → (delete id db >>= λ db'. some (view db')) ≡ specified (remove id) (view db)
unfolding delete
delete-specified id db =
    let there = any-has_id id db in
    elim (Bool-cases (is_free (slot_of id db))) [
      | inl e ↦ rw (there, e) refl
      | inr e ↦ rw (there, e) (ap some (fun_ext (λ x. slot-deleted id x db)))
    ]

operate-specified :
    (o : Operation) (db : List Document)
    → has_identifier o ≡ true
    → (operate o db >>= λ db'. some (view db')) ≡ specified o (view db)
unfolding operate save_given
operate-specified (save [] owner body) db h = absurd (false≢true h)
operate-specified (save (c ∷ cs) owner body) db h = elim (Bool-cases (is_valid_uuid (c ∷ cs))) [
  | inl e ↦ rw (e) (ap some (fun_ext (λ x. slot-upsert (c ∷ cs) x owner body db)))
  | inr e ↦ rw (e) refl
]
operate-specified (remove id) db h = delete-specified id db

Unique : List Document → Type 0
Unique db = (x : Text) → count (has_id x) db ≤ 1

count-update :
    (x id : Text) (f : Document → Document) (db : List Document)
    → ((d : Document) → (f d).id ≡ d.id)
    → count (has_id x) (update_by_id id f db) ≡ count (has_id x) db
unfolding count update_by_id
count-update x id f [] keep = refl
count-update x id f (d ∷ ds) keep =
    ground (arith, ap (λ i. same_text i x) (keep d), count-update x id f ds keep)

count-none : (x : Text) (db : List Document) → any (has_id x) db ≡ false → count (has_id x) db ≡ 0
unfolding any count
count-none x [] e = refl
count-none x (d ∷ ds) e = ground (arith, count-none x ds)

count-upsert :
    (x id : Text) (owner : Option Text) (body : ℕ) (db : List Document)
    → count (has_id x) db ≤ 1
    → count (has_id x) (upsert id owner body db) ≤ 1
unfolding upsert count
count-upsert x id owner body db u = elim (Bool-cases (any (has_id id) db)) [
  | inl e ↦ rw (e, count-update x id (write owner body) db (write-id owner body)) u
  | inr e ↦
      rw (e, count-append (has_id x) db (created id owner body ∷ []))
        (elim (Bool-cases (same_text id x)) [
          | inl it ↦
              (let none_yet =
                  subst (λ y. count (has_id y) db ≡ 0) (same_text-eq id x it)
                    (count-none id db e) in
                ground arith)
          | inr no_match ↦ ground arith
        ])
]

operate-Unique :
    (o : Operation) (db db' : List Document)
    → has_identifier o ≡ true
    → operate o db ≡ some db'
    → Unique db
    → Unique db'
unfolding operate save_given Unique
operate-Unique (save [] owner body) db db' i e u x = absurd (false≢true i)
operate-Unique (save (c ∷ cs) owner body) db db' i e u x =
    if-elim (λ r. r ≡ some db' → count (has_id x) db' ≤ 1) (is_valid_uuid (c ∷ cs))
      (some (upsert (c ∷ cs) owner body db)) none
      (λ _ h. ground (arith, count-upsert x (c ∷ cs) owner body db (u x), h)) (λ _ h. absurd (cc)) e
operate-Unique (remove id) db db' i e u x =
    if-elim (λ r. r ≡ some db' → count (has_id x) db' ≤ 1) (any (has_id id) db)
      (some (update_by_id id soft_deleted db)) none
      (λ _ h. ground (arith, count-update x id soft_deleted db deleted-id, u x, h))
      (λ _ h. absurd (cc)) e

read-absent : (x : Text) (db : List Document) → count (has_id x) db ≡ 0 → read x db ≡ none
unfolding find_by_id find count
read-absent x [] u = refl
read-absent x (d ∷ ds) u = ground (arith, read-absent x ds)

read-found :
    (x : Text) (db : List Document) → count (has_id x) db ≤ 1 → read x db ≡ found (slot_of x db)
unfolding find_by_id find slot_of count
read-found x [] u = refl
read-found x (d ∷ ds) u = ground (arith, read-absent x ds, read-found x ds)

refines_from :
    (os : List Operation) (db : List Document) (x : Text)
    → All (λ o. has_identifier o ≡ true) os
    → Unique db
    → (operate_all os db >>= λ db'. some (read x db'))
      ≡ (specified_all os (view db) >>= λ s. some (found (s x)))
unfolding operate_all specified_all Unique
refines_from [] db x i u = ap some (read-found x db (u x))
refines_from (o ∷ os) db x i u = elim (Option-cases (operate o db)) [
  | inl e ↦ rw (e, sym (operate-specified o db i.0)) (rw (e) refl)
  | inr (db', e) ↦
      let next : specified o (view db) ≡ some (view db') =
        sym (operate-specified o db i.0) ∙ ap (λ r. r >>= λ d. some (view d)) e in
      rw (e, next) (refines_from os db' x i.1 (operate-Unique o db db' i.0 e u))
]

-- From an empty collection, a run of saves under given identifiers, none of them the empty text, and of deletions
-- fails exactly when the same run on slots fails (a save under an identifier that is no UUID, a deletion of a free
-- slot), and else what is found for every identifier is what its slot has, nothing where it is free or deleted; a
-- save does not revive a deleted slot.
pub operate_all-refines :
    (os : List Operation) (x : Text)
    → All (λ o. has_identifier o ≡ true) os
    → (operate_all os [] >>= λ db. some (read x db))
      ≡ (specified_all os (λ _. free) >>= λ s. some (found (s x)))
unfolding Unique count slot_of
operate_all-refines os x i = refines_from os [] x i (λ y. omega arith)
