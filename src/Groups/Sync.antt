-- ===== src/Groups/Sync.antt =====
-- infrastructure/repositories/cycle.repository.ts: `save`, which puts a cycle into its group and takes it out
-- of the group that it had.
use cleveremote_box.Base.{
  length, any, if◌then◌else◌, ◌==◌, ℕ, Bool, true, false, Option, none, some, List,
}
use cleveremote_box.Groups.{
  put, update_by_id, pushed, Document, find_by_id, Collection, collection_of, pulled, ChildRef,
}

-- The fields that `mapToSchema` sets
unfoldable pub write : Option ℕ → List ChildRef → Document → Document
write parent children d = record d { parent_cycle_id = parent; child_cycles = children }

-- `upsert`
unfoldable pub upsert_at : Option Document → ℕ → Option ℕ → List ChildRef → Collection → Collection
unfolding put write
upsert_at none id parent children db =
    put id (record { parent_cycle_id = parent; child_cycles = children; is_deleted = false }) db
upsert_at (some d) id parent children db = put id (write parent children d) db

-- `_removeChildSafe`: a group that is not found is passed over.
unfoldable pub remove_child_safe : ℕ → ℕ → Collection → Collection
unfolding update_by_id pulled
remove_child_safe parent id db = collection_of (update_by_id parent (pulled id) db)

-- `_ensureChildRef`
unfoldable pub ensure_at : Option Document → ℕ → ℕ → Collection → Collection
unfolding put pushed any
ensure_at none parent id db = db
ensure_at (some d) parent id db =
    if any (λ ref. ref.cycle_id == id) d.child_cycles
    then db
    else put parent (pushed (record { cycle_id = id; order = length d.child_cycles }) d) db

unfoldable pub ensure_child_ref : ℕ → ℕ → Collection → Collection
unfolding ensure_at find_by_id
ensure_child_ref parent id db = ensure_at (find_by_id db parent) parent id db

abbrev pub same_parent : Option ℕ → Option ℕ → Bool
same_parent none none = true
same_parent (some a) (some b) = a == b
same_parent _ _ = false

unfoldable pub ensure_opt : Option ℕ → ℕ → Collection → Collection
unfolding ensure_child_ref
ensure_opt none id db = db
ensure_opt (some p) id db = ensure_child_ref p id db

unfoldable pub remove_opt : Option ℕ → ℕ → Collection → Collection
unfolding remove_child_safe
remove_opt none id db = db
remove_opt (some p) id db = remove_child_safe p id db

-- `_reconcileParent`
unfoldable pub reconcile_parent : Option ℕ → Option ℕ → ℕ → Collection → Collection
unfolding ensure_opt remove_opt
reconcile_parent previous parent id db =
    if same_parent previous parent
    then ensure_opt parent id db
    else ensure_opt parent id (remove_opt previous id db)

abbrev pub parent_of : Option Document → Option ℕ
parent_of none = none
parent_of (some d) = d.parent_cycle_id

-- `save`, of a cycle with an identifier
unfoldable pub save : ℕ → Option ℕ → List ChildRef → Collection → Collection
unfolding upsert_at find_by_id reconcile_parent
save id parent children db =
    reconcile_parent (parent_of (find_by_id db id)) parent id
      (upsert_at (db id) id parent children db)
