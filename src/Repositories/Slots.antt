-- ===== src/Repositories/Slots.antt =====
-- infrastructure/repositories/*-mongoose.repository.ts: a collection as a map from identifiers to slots.
use cleveremote_box.Base.{
  any, if◌then◌else◌, Bool-cases, ℕ, ◌≡◌, refl, sym, ap, subst, inl, inr, Bool, true, false, not,
  Option, List, [], ◌∷◌, ◌++◌, arith,
}
use cleveremote_box.Repositories.Collection.{
  Text, same_text, Document, has_id, update_by_id, write, upsert, soft_deleted, created,
}
use cleveremote_box.Repositories.Within.{same_text_refl}

-- What a collection holds for an identifier: nothing, a document, or one that was deleted
pub data Slot : Type 0 where
  free : Slot
  live : Option Text → ℕ → Slot
  removed : Option Text → ℕ → Slot

abbrev slot : Document → Slot
slot d = if d.deleted then removed d.owner d.body else live d.owner d.body

unfoldable pub slot_of : Text → List Document → Slot
slot_of x [] = free
slot_of x (d ∷ ds) = if has_id x d then slot d else slot_of x ds

abbrev pub is_free : Slot → Bool
is_free free = true
is_free _ = false

-- Saving keeps a deleted slot deleted; deleting keeps what a slot holds.
abbrev pub written : Option Text → ℕ → Slot → Slot
written owner body (removed o b) = removed owner body
written owner body _ = live owner body

abbrev pub gone : Slot → Slot
gone (live o b) = removed o b
gone s = s

abbrev pub Slots : Type 0
Slots = Text → Slot

abbrev pub changed : Text → (Slot → Slot) → Slots → Slots
changed id f s x = if same_text id x then f (s x) else s x

pub same_text-eq : (a b : Text) → same_text a b ≡ true → a ≡ b
unfolding same_text
same_text-eq [] [] h = refl
same_text-eq [] (y ∷ b) h = absurd (cc)
same_text-eq (x ∷ a) [] h = absurd (cc)
same_text-eq (x ∷ a) (y ∷ b) h = ground (arith, same_text-eq a b)

pub any-has_id : (x : Text) (db : List Document) → any (has_id x) db ≡ not (is_free (slot_of x db))
unfolding any slot_of
any-has_id x [] = refl
any-has_id x (d ∷ ds) = ground (arith, any-has_id x ds)

-- A text that is the identifier's, and one that is not
slot-same :
    (id : Text) (f : Document → Document) (g : Slot → Slot) (db : List Document)
    → ((d : Document) → (f d).id ≡ d.id)
    → ((d : Document) → slot (f d) ≡ g (slot d))
    → g free ≡ free
    → slot_of id (update_by_id id f db) ≡ g (slot_of id db)
unfolding slot_of update_by_id
slot-same id f g [] keep h e = sym e
slot-same id f g (d ∷ ds) keep h e =
    ground (arith, keep d, h d, slot-same id f g ds keep h e, ap (λ i. same_text i id) (keep d))

slot-other :
    (id x : Text) (f : Document → Document) (db : List Document)
    → ((d : Document) → (f d).id ≡ d.id)
    → same_text id x ≡ false
    → slot_of x (update_by_id id f db) ≡ slot_of x db
unfolding slot_of update_by_id
slot-other id x f [] keep n = refl
slot-other id x f (d ∷ ds) keep n = elim (Bool-cases (has_id id d)) [
  | inl e ↦
      (let same = ap (λ i. same_text i x) (same_text-eq d.id id e) in
        ground (arith, same, ap (λ i. same_text i x) (keep d), slot-other id x f ds keep n))
  | inr e ↦ ground (arith, e, slot-other id x f ds keep n)
]

slot-append :
    (x : Text) (d : Document) (db : List Document)
    → slot_of x (db ++ d ∷ [])
      ≡ (if is_free (slot_of x db) then (if has_id x d then slot d else free) else slot_of x db)
unfolding slot_of
slot-append x d [] = refl
slot-append x d (y ∷ ys) = ground (arith, slot-append x d ys)

pub write-id : (owner : Option Text) (body : ℕ) (d : Document) → (write owner body d).id ≡ d.id
unfolding write
write-id owner body d = refl

pub deleted-id : (d : Document) → (soft_deleted d).id ≡ d.id
unfolding soft_deleted
deleted-id d = refl

deleted-slot : (d : Document) → slot (soft_deleted d) ≡ gone (slot d)
unfolding soft_deleted
deleted-slot d = ground arith

-- What a write does to a slot that is not free
abbrev rewritten : Option Text → ℕ → Slot → Slot
rewritten owner body free = free
rewritten owner body s = written owner body s

slot-write :
    (owner : Option Text) (body : ℕ) (d : Document)
    → slot (write owner body d) ≡ rewritten owner body (slot d)
unfolding write
slot-write owner body d = ground arith

upsert-same :
    (id : Text) (owner : Option Text) (body : ℕ) (db : List Document)
    → slot_of id (upsert id owner body db) ≡ written owner body (slot_of id db)
unfolding upsert
upsert-same id owner body db = elim (Bool-cases (any (has_id id) db)) [
  | inl e ↦ rw (e) (
      let there = any-has_id id db in
      ground (
        arith,
        e,
        slot-same id (write owner body) (rewritten owner body) db (write-id owner body)
            (slot-write owner body) refl,
      ))
  | inr e ↦ rw (e) (
      let absent = any-has_id id db in
      ground (arith, e, slot-append id (created id owner body) db, same_text_refl id))
]

upsert-other :
    (id x : Text) (owner : Option Text) (body : ℕ) (db : List Document)
    → same_text id x ≡ false
    → slot_of x (upsert id owner body db) ≡ slot_of x db
unfolding upsert
upsert-other id x owner body db n = elim (Bool-cases (any (has_id id) db)) [
  | inl e ↦ rw (e) (slot-other id x (write owner body) db (write-id owner body) n)
  | inr e ↦ rw (e) (ground (arith, slot-append x (created id owner body) db))
]

-- A fact of the changed slot and one of the others
at_each :
    (id x : Text) (g : Slot → Slot) (db db' : List Document)
    → slot_of id db' ≡ g (slot_of id db)
    → (same_text id x ≡ false → slot_of x db' ≡ slot_of x db)
    → slot_of x db' ≡ changed id g (λ y. slot_of y db) x
at_each id x g db db' same other = elim (Bool-cases (same_text id x)) [
  | inl e ↦ rw (e) (subst (λ y. slot_of y db' ≡ g (slot_of y db)) (same_text-eq id x e) same)
  | inr e ↦ rw (e) (other e)
]

-- `upsert` and `delete` change one slot.
pub slot-upsert :
    (id x : Text) (owner : Option Text) (body : ℕ) (db : List Document)
    → slot_of x (upsert id owner body db) ≡ changed id (written owner body) (λ y. slot_of y db) x
slot-upsert id x owner body db =
    at_each id x (written owner body) db (upsert id owner body db) (upsert-same id owner body db)
      (upsert-other id x owner body db)

pub slot-deleted :
    (id x : Text) (db : List Document)
    → slot_of x (update_by_id id soft_deleted db) ≡ changed id gone (λ y. slot_of y db) x
slot-deleted id x db =
    at_each id x gone db (update_by_id id soft_deleted db)
      (slot-same id soft_deleted gone db deleted-id deleted-slot refl)
      (slot-other id x soft_deleted db deleted-id)
