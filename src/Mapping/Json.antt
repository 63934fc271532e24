-- ===== src/Mapping/Json.antt =====
-- The values of a JSON payload that may be absent, and the operators of the mappings on them.
use cleveremote_box.Base.{ℕ, Bool, Option, none, some, List, [], ◌∷◌}

-- A property that is missing or `undefined`, one that is `null`, or one with a value. The validators let
-- all three pass under `@IsOptional()` or `@ValidateNested()`.
pub data Field {ℓ} (A : Type ℓ) : Type ℓ where
  undefined null : Field A
  given : A → Field A

-- `a ?? b`
abbrev pub field_or {ℓ} : {A : Type ℓ} → A → Field A → A
field_or d (given a) = a
field_or d _ = d

-- `a ?? null`
abbrev pub or_null {ℓ} : {A : Type ℓ} → Field A → Option A
or_null (given a) = some a
or_null _ = none

-- `a || undefined`, for an object
abbrev pub or_undefined {ℓ} : {A : Type ℓ} → Field A → Option A
or_undefined (given a) = some a
or_undefined _ = none

-- A property of an object that may be absent is read; `none` is a TypeError.
abbrev pub object {ℓ} : {A : Type ℓ} → Field A → Option A
object (given a) = some a
object _ = none

-- `...(a !== undefined && { key: f(a) })`, where `f` reads a property of `a`: nothing for `undefined`, a
-- TypeError for `null`
abbrev pub spread {ℓ κ} : {A : Type ℓ} {B : Type κ} → (A → Option B) → Field A → Option (Option B)
spread f undefined = some none
spread f null = none
spread f (given a) = elim (f a) [ none ↦ none | some b ↦ some (some b) ]

-- `list.map(f)`, where `f` may throw
unfoldable pub map_each {ℓ κ} :
    {A : Type ℓ} {B : Type κ} → (A → Option B) → List A → Option (List B)
map_each f [] = some []
map_each f (x ∷ xs) = elim (f x) [
  | none ↦ none
  | some b ↦ elim (map_each f xs) [ none ↦ none | some bs ↦ some (b ∷ bs) ]
]

-- The entry of a list of a payload may be `null`, which the validators let pass; a property of it is then a
-- TypeError.
abbrev pub entry {ℓ κ} : {A : Type ℓ} {B : Type κ} → (A → Option B) → Field A → Option B
entry f (given a) = f a
entry f _ = none

-- What a model of synchronize.model.ts adds to the model that it extends
pub record Synchronized {ℓ} (M : Type ℓ) : Type ℓ where
  pub model : M
  pub delete : Bool

-- The dates that the database keeps; `deletedAt` of a new model is `null`.
pub record Dates : Type 0 where
  pub created_at : Option ℕ
  pub updated_at : Option ℕ
  pub deleted_at : Option ℕ

abbrev pub no_dates : Dates
no_dates = record { created_at = none; updated_at = none; deleted_at = none }

-- A document of a collection: its `_id`, the fields of its schema, and its dates
pub record Document {ℓ} (F : Type ℓ) : Type ℓ where
  pub id : ℕ
  pub fields : F
  pub dates : Dates

-- An optional property of a model that is read again
abbrev pub given_or_undefined {ℓ} : {A : Type ℓ} → Option A → Field A
given_or_undefined none = undefined
given_or_undefined (some a) = given a
