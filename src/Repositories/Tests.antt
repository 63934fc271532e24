-- ===== src/Repositories/Tests.antt =====
-- infrastructure/repositories/*.ts: two requests of a device, and the children of a cycle.
use cleveremote_box.Base.{
  any, All, filter, ℕ, ◌≡◌, refl, Bool, true, false, none, some, List, [], ◌∷◌, ◌>>=◌,
}
use cleveremote_box.Repositories.Collection.{
  Document, delete, soft_deleted, update_by_id, write, dash, is_valid_uuid, upsert, is_owned, Model,
  find_by_owner, save_at, Text, same_text, hex_digits, find_by_id, save_given,
}
use cleveremote_box.Repositories.Replace.{delete_cycle-none}
use cleveremote_box.Repositories.Strict.{replace_for-kept, is_kept}
use cleveremote_box.Repositories.Sync.{
  delete_cycle, replace_for, save_for, delete_each, delete_for, apply_model, Database,
}
use cleveremote_box.Repositories.Refines.{
  found, save, specified_all, remove, operate_all-refines, operate_all, Operation, read,
}
use cleveremote_box.Repositories.Slots.{free}

-- "aaaaaaaa-0000-0000-0000-00000000000" and a last digit
abbrev uuid : ℕ → Text
uuid last =
    b'a' ∷ b'a' ∷ b'a' ∷ b'a' ∷ b'a' ∷ b'a' ∷ b'a' ∷ b'a' ∷ b'-' ∷ b'0' ∷ b'0' ∷ b'0' ∷ b'0' ∷ b'-'
    ∷ b'0' ∷ b'0' ∷ b'0' ∷ b'0' ∷ b'-' ∷ b'0' ∷ b'0' ∷ b'0' ∷ b'0' ∷ b'-' ∷ b'0' ∷ b'0' ∷ b'0'
    ∷ b'0' ∷ b'0' ∷ b'0' ∷ b'0' ∷ b'0' ∷ b'0' ∷ b'0' ∷ b'0' ∷ last ∷ []

abbrev pump : Text
pump = b'p' ∷ []

abbrev request : ℕ → Bool → Document
request last b = record { id = uuid last; owner = some pump; body = 0; deleted = b }

abbrev model : ℕ → Model
model last = record { id = some (uuid last); owner = none; body = 1; delete = false }

abbrev fixed_uuid : List Document → Text
fixed_uuid db = uuid b'f'

abbrev requests : List Document
requests = request b'1' false ∷ request b'2' false ∷ []

-- The second request is not given any more, and a third is.
abbrev given : List Model
given = model b'1' ∷ model b'3' ∷ []

abbrev replaced : List Document
replaced =
    record { id = uuid b'1'; owner = some pump; body = 1; deleted = false }
    ∷ request b'2' true
    ∷ record { id = uuid b'3'; owner = some pump; body = 1; deleted = false }
    ∷ []

replace_for-kept_example :
    All (λ (d : Document). is_owned pump d ≡ true → is_kept given d.id ≡ true) replaced
unfolding replace_for save_for apply_model save_at save_given is_valid_uuid hex_digits dash upsert
    update_by_id write delete_each delete find_by_owner filter any same_text soft_deleted
replace_for-kept_example =
    replace_for-kept fixed_uuid pump given requests replaced (refl, (refl, tt)) refl

abbrev cycle_database : Bool → Database
cycle_database b = record {
  cycles = record { id = pump; owner = none; body = 0; deleted = b } ∷ [];
  sequences = request b'1' b ∷ [];
  schedules = [];
  triggers = request b'2' b ∷ [];
}

delete_cycle-none_example :
    (find_by_owner pump (cycle_database true).sequences ≡ [])
    × ((find_by_owner pump (cycle_database true).schedules ≡ [])
        × (find_by_owner pump (cycle_database true).triggers ≡ []))
unfolding delete_cycle delete_for delete_each find_by_owner filter delete any same_text update_by_id
    soft_deleted
delete_cycle-none_example = delete_cycle-none pump (cycle_database false) (cycle_database true) refl

-- A request that is saved, deleted and saved again is not found.
abbrev deleted_once : List Operation
deleted_once = save (uuid b'1') none 1 ∷ remove (uuid b'1') ∷ save (uuid b'1') none 2 ∷ []

operate_all-refines_example :
    (operate_all deleted_once [] >>= λ db. some (read (uuid b'1') db))
    ≡ (specified_all deleted_once (λ _. free) >>= λ s. some (found (s (uuid b'1'))))
operate_all-refines_example =
    operate_all-refines deleted_once (uuid b'1') (refl, (refl, (refl, tt)))

-- An empty identifier makes a new document.
empty_creates :
    save_at fixed_uuid (some []) none 3 []
    ≡ some (record { id = uuid b'f'; owner = none; body = 3; deleted = false } ∷ [])
unfolding save_at save_given
empty_creates = refl

not_revived : (operate_all deleted_once [] >>= λ db. some (read (uuid b'1') db)) ≡ some none
unfolding operate_all find_by_id same_text
not_revived = refl
