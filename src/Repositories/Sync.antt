-- ===== src/Repositories/Sync.antt =====
-- infrastructure/repositories/*.repository.ts: the replacement of several documents.
use cleveremote_box.Base.{filter, any, ◌>>=◌, if◌then◌else◌, Bool, not, Option, some, List, [], ◌∷◌}
use cleveremote_box.Repositories.Collection.{
  delete, Document, delete_at, Text, save_at, Model, names, find_by_owner, given_id,
}

-- One entry of `saveMany` or `replaceAll`
unfoldable pub apply_model :
    (List Document → Text) → Option Text → Model → List Document → Option (List Document)
unfolding delete_at save_at
apply_model random_uuid owner m db =
    if m.delete then delete_at m.id db else save_at random_uuid m.id owner m.body db

-- `saveMany` and `replaceAll`: a model that is marked is deleted, every other is saved as it is.
unfoldable pub save_many :
    (List Document → Text) → List Model → List Document → Option (List Document)
unfolding apply_model
save_many random_uuid [] db = some db
save_many random_uuid (m ∷ ms) db =
    apply_model random_uuid m.owner m db >>= λ db'. save_many random_uuid ms db'

-- `replaceForCycle`: every saved model is of this owner.
unfoldable pub save_for :
    (List Document → Text) → Text → List Model → List Document → Option (List Document)
unfolding apply_model
save_for random_uuid owner [] db = some db
save_for random_uuid owner (m ∷ ms) db =
    apply_model random_uuid (some owner) m db >>= λ db'. save_for random_uuid owner ms db'

-- `deleteForCycle`: the loop over the documents that were found
unfoldable pub delete_each : List Document → List Document → Option (List Document)
unfolding delete
delete_each [] db = some db
delete_each (d ∷ ds) db = delete d.id db >>= λ db'. delete_each ds db'

unfoldable pub delete_for : Text → List Document → Option (List Document)
unfolding delete_each find_by_owner
delete_for owner db = delete_each (find_by_owner owner db) db

-- `incomingIds.has(id)`, of the models that have an identifier
abbrev pub is_incoming : List Model → Text → Bool
is_incoming ms id = any (λ (m : Model). names id (given_id m.id)) ms

-- `replaceForDevice`: what is of the device and not given is deleted first.
unfoldable pub replace_for :
    (List Document → Text) → Text → List Model → List Document → Option (List Document)
unfolding delete_each find_by_owner save_for filter any
replace_for random_uuid owner ms db =
    delete_each (filter (λ d. not (is_incoming ms d.id)) (find_by_owner owner db)) db >>= λ db'.
    save_for random_uuid owner ms db'

-- The collections that `CycleRepository` uses
pub record Database : Type 0 where
  pub cycles : List Document
  pub sequences : List Document
  pub schedules : List Document
  pub triggers : List Document

-- `CycleRepository.delete`: the children of the cycle, then the cycle; its place in a group apart
unfoldable pub delete_cycle : Text → Database → Option Database
unfolding delete_for delete
delete_cycle id db = delete_for id db.sequences >>= λ sequences.
    delete_for id db.schedules >>= λ schedules. delete_for id db.triggers >>= λ triggers.
    delete id db.cycles >>= λ cycles.
    some (record {
      cycles = cycles;
      sequences = sequences;
      schedules = schedules;
      triggers = triggers;
    })
