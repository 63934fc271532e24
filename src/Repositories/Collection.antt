-- ===== src/Repositories/Collection.antt =====
-- infrastructure/repositories/*-mongoose.repository.ts: one collection of documents. The repositories of
-- devices, requests, sequences, schedules, triggers, sensors and actuators share these operations.
use cleveremote_box.Base.{
  filter, any, find, if◌then◌else◌, leb, ◌>>=◌, ◌==◌, ℕ, zero, suc, Bool, true, false, ◌&&◌, ◌||◌,
  not, Option, none, some, List, [], ◌∷◌, ◌++◌,
}

-- An identifier is a text: the list of its character codes.
abbrev pub Text : Type 0
Text = List ℕ

unfoldable pub same_text : Text → Text → Bool
same_text [] [] = true
same_text (a ∷ as') (b ∷ bs) = a == b && same_text as' bs
same_text _ _ = false

abbrev is_hex : ℕ → Bool
is_hex c = leb b'0' c && leb c b'9' || leb b'a' c && leb c b'f' || leb b'A' c && leb c b'F'

-- The rest after n hexadecimal digits
unfoldable pub hex_digits : ℕ → Text → Option Text
hex_digits zero cs = some cs
hex_digits (suc n) [] = none
hex_digits (suc n) (c ∷ cs) = (let rest = hex_digits n cs in if is_hex c then rest else none)

unfoldable pub dash : Text → Option Text
dash [] = none
dash (c ∷ cs) = if c == b'-' then some cs else none

abbrev is_empty : Option Text → Bool
is_empty (some []) = true
is_empty _ = false

-- `isValidUuid`: groups of 8, 4, 4, 4 and 12 digits
unfoldable pub is_valid_uuid : Text → Bool
unfolding hex_digits dash
is_valid_uuid id = is_empty (
    hex_digits 8 id
    >>= dash
    >>= hex_digits 4
    >>= dash
    >>= hex_digits 4
    >>= dash
    >>= hex_digits 4
    >>= dash
    >>= hex_digits 12)

-- A document: its `_id`; the cycle, device, master or parent that it names; the other fields; and whether
-- its `deletedAt` is set
pub record Document : Type 0 where
  pub id : Text
  pub owner : Option Text
  pub body : ℕ
  pub deleted : Bool

-- A model that a repository is given, with the `delete` of its synchronization
pub record Model : Type 0 where
  pub id : Option Text
  pub owner : Option Text
  pub body : ℕ
  pub delete : Bool

abbrev pub has_id : Text → Document → Bool
has_id id d = same_text d.id id

abbrev pub names : Text → Option Text → Bool
names o none = false
names o (some p) = same_text p o

-- `NOT_DELETED_FILTER`
abbrev pub is_visible : Document → Bool
is_visible d = not d.deleted

abbrev pub is_owned : Text → Document → Bool
is_owned o d = is_visible d && names o d.owner

-- `findAll`, `findById`, and `findByCycleId`, `findByDeviceId` or `findSlavesByMasterId`
unfoldable pub find_all : List Document → List Document
unfolding filter
find_all db = filter is_visible db

unfoldable pub find_by_id : Text → List Document → Option Document
unfolding find
find_by_id id db = find (λ d. is_visible d && has_id id d) db

unfoldable pub find_by_owner : Text → List Document → List Document
unfolding filter
find_by_owner o db = filter (is_owned o) db

-- `findByIdAndUpdate`; an `_id` is unique.
unfoldable pub update_by_id : Text → (Document → Document) → List Document → List Document
update_by_id id f [] = []
update_by_id id f (d ∷ ds) = (if has_id id d then f d else d) ∷ update_by_id id f ds

-- The fields that `mapToSchema` sets: neither `_id` nor `deletedAt`
unfoldable pub write : Option Text → ℕ → Document → Document
write owner body d = record d { owner = owner; body = body }

abbrev pub created : Text → Option Text → ℕ → Document
created id owner body = record { id = id; owner = owner; body = body; deleted = false }

-- `upsert`
unfoldable pub upsert : Text → Option Text → ℕ → List Document → List Document
unfolding update_by_id write any
upsert id owner body db =
    if any (has_id id) db
    then update_by_id id (write owner body) db
    else db ++ created id owner body ∷ []

unfoldable pub soft_deleted : Document → Document
soft_deleted d = record d { deleted = true }

-- `delete`: an identifier that is not found throws.
unfoldable pub delete : Text → List Document → Option (List Document)
unfolding update_by_id soft_deleted any
delete id db = if any (has_id id) db then some (update_by_id id soft_deleted db) else none

-- `delete(model._id)`, where `undefined` is not found
unfoldable pub delete_at : Option Text → List Document → Option (List Document)
unfolding delete
delete_at none db = none
delete_at (some id) db = delete id db

-- `if (model._id)`: the empty text is falsy, so a model with it has no identifier.
abbrev pub given_id : Option Text → Option Text
given_id none = none
given_id (some []) = none
given_id (some (c ∷ cs)) = some (c ∷ cs)

-- `save`: `random_uuid` gives the identifier of a document that has none.
unfoldable pub save_given :
    (List Document → Text) → Option Text → Option Text → ℕ → List Document → Option (List Document)
unfolding upsert is_valid_uuid
save_given random_uuid none owner body db = some (db ++ created (random_uuid db) owner body ∷ [])
save_given random_uuid (some id) owner body db =
    if is_valid_uuid id then some (upsert id owner body db) else none

unfoldable pub save_at :
    (List Document → Text) → Option Text → Option Text → ℕ → List Document → Option (List Document)
unfolding save_given
save_at random_uuid id owner body db = save_given random_uuid (given_id id) owner body db
