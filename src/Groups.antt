-- ===== src/Groups.antt =====
-- services/cycle-group.service.ts over infrastructure/repositories/cycle-mongoose.repository.ts: the
-- links between a group and its children, which stand in the documents of both. The collection is a
-- function from identifiers to documents; a document that is deleted stays in it.
use cleveremote_box.Base.{
  filter, any, length, ◌==◌, if◌then◌else◌, is_id, or_else, ℕ, ◌≡◌, Bool, true, false, ◌&&◌, not,
  Option, none, some, List, [], ◌∷◌, ◌++◌,
}
pub mod Links
pub mod Removal
pub mod Deletion
pub mod Reorder
pub mod Sync
pub mod Entries
pub mod Parent
mod Tests

pub record ChildRef : Type 0 where
  pub cycle_id : ℕ
  pub order : ℕ

pub record Document : Type 0 where
  pub parent_cycle_id : Option ℕ
  pub child_cycles : List ChildRef
  pub is_deleted : Bool

abbrev pub Collection : Type 0
Collection = ℕ → Option Document

pub data GroupError : Type 0 where
  element_not_found already_belongs still_has_children : GroupError

-- An exception keeps what was saved before it.
pub data Saved : Type 0 where
  ok : Collection → Saved
  failed : GroupError → Collection → Saved

abbrev pub collection_of : Saved → Collection
collection_of (ok db) = db
collection_of (failed e db) = db

unfoldable pub put : ℕ → Document → Collection → Collection
put id d db = λ i. if i == id then some d else db i

-- `findById`, with the filter on deleted documents
unfoldable pub find_by_id : Collection → ℕ → Option Document
find_by_id db id = elim (db id) [ none ↦ none | some d ↦ if d.is_deleted then none else some d ]

-- `findByIdAndUpdate`, and the exception when there is no document: `update`, `addChild`,
-- `removeChild` and `delete` of the repository
unfoldable pub update_at : Option Document → ℕ → (Document → Document) → Collection → Saved
update_at none id f db = failed element_not_found db
update_at (some d) id f db = ok (put id (f d) db)

unfoldable pub update_by_id : ℕ → (Document → Document) → Collection → Saved
update_by_id id f db = update_at (db id) id f db

unfoldable pub pushed : ChildRef → Document → Document
pushed ref d = record d { child_cycles = d.child_cycles ++ ref ∷ [] }

unfoldable pub pulled : ℕ → Document → Document
unfolding filter
pulled child d = record d {
  child_cycles = filter (λ ref. not (ref.cycle_id == child)) d.child_cycles;
}

unfoldable pub soft_deleted : Document → Document
soft_deleted d = record d { is_deleted = true }

-- `addChild`; the document of the child was found, so its `update` finds it.
unfoldable pub link : Option ℕ → Document → Document → ℕ → ℕ → Option ℕ → Collection → Saved
link (some _) parent child parent_id child_id order db = failed already_belongs db
link none parent child parent_id child_id order db =
    update_by_id parent_id
      (pushed (record { cycle_id = child_id; order = or_else (length parent.child_cycles) order }))
      (put child_id (record child { parent_cycle_id = some parent_id }) db)

unfoldable pub add_found : Option Document → Option Document → ℕ → ℕ → Option ℕ → Collection → Saved
add_found none child parent_id child_id order db = failed element_not_found db
add_found (some parent) none parent_id child_id order db = failed element_not_found db
add_found (some parent) (some child) parent_id child_id order db =
    link child.parent_cycle_id parent child parent_id child_id order db

unfoldable pub add_child : ℕ → ℕ → Option ℕ → Collection → Saved
add_child parent_id child_id order db =
    add_found (find_by_id db parent_id) (find_by_id db child_id) parent_id child_id order db

-- `removeChild`
unfoldable pub remove_found : Option Document → ℕ → ℕ → Collection → Saved
remove_found none parent_id child_id db = failed element_not_found db
remove_found (some child) parent_id child_id db =
    update_by_id parent_id (pulled child_id)
      (put child_id (record child { parent_cycle_id = none }) db)

unfoldable pub remove_child : ℕ → ℕ → Collection → Saved
remove_child parent_id child_id db = remove_found (find_by_id db child_id) parent_id child_id db

unfoldable pub after : Saved → (Collection → Saved) → Saved
after (ok db) f = f db
after (failed e db) f = failed e db

-- `delete`
unfoldable pub leave : Option ℕ → ℕ → Collection → Saved
leave none id db = ok db
leave (some parent) id db = remove_child parent id db

unfoldable pub delete_at : List ChildRef → Option ℕ → ℕ → Collection → Saved
delete_at (_ ∷ _) parent id db = failed still_has_children db
delete_at [] parent id db = after (leave parent id db) (update_by_id id soft_deleted)

unfoldable pub delete_found : Option Document → ℕ → Collection → Saved
delete_found none id db = failed element_not_found db
delete_found (some cycle) id db = delete_at cycle.child_cycles cycle.parent_cycle_id id db

unfoldable pub delete : ℕ → Collection → Saved
delete id db = delete_found (find_by_id db id) id db

-- Whether the document of a group lists a cycle, and whether that of a cycle names a group
abbrev pub listed : Document → ℕ → Bool
listed d c = not d.is_deleted && any (λ ref. ref.cycle_id == c) d.child_cycles

abbrev pub named : Document → ℕ → Bool
named d p = not d.is_deleted && is_id d.parent_cycle_id p

abbrev pub listed_in : Option Document → ℕ → Bool
listed_in none c = false
listed_in (some d) c = listed d c

abbrev pub named_in : Option Document → ℕ → Bool
named_in none p = false
named_in (some d) p = named d p

unfoldable pub lists : Collection → ℕ → ℕ → Bool
lists db p c = listed_in (db p) c

unfoldable pub belongs : Collection → ℕ → ℕ → Bool
belongs db p c = named_in (db c) p

-- The two sides say the same.
abbrev pub Linked : Collection → Type 0
Linked db = (p c : ℕ) → lists db p c ≡ belongs db p c
