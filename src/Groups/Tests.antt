-- ===== src/Groups/Tests.antt =====
-- The theorems on groups at a concrete collection: three cycles, of which the first becomes the
-- group of the second.
use cleveremote_box.Base.{any, ◌≡◌, refl, true, false, none, some, [], arith}
use cleveremote_box.Groups.{
  delete, remove_child, update_at, pushed, put, update_by_id, lists, collection_of, find_by_id,
  add_child, link, Document, Collection, belongs, Linked, add_found,
}
use cleveremote_box.Groups.Deletion.{delete-Linked}
use cleveremote_box.Groups.Links.{add_child-Linked, belongs-put, lists-put}
use cleveremote_box.Groups.Removal.{remove_child-Linked, remove_child-other}
use cleveremote_box.Groups.Parent.{save-Linked}
use cleveremote_box.Groups.Sync.{save}

abbrev blank : Document
blank = record { parent_cycle_id = none; child_cycles = []; is_deleted = false }

abbrev single : Collection
single = put 3 blank (put 2 blank (put 1 blank (λ _. none)))

single-Linked : Linked single
unfolding lists belongs any
single-Linked p c =
    rw (lists-put, belongs-put)
      (rw (lists-put, belongs-put) (rw (lists-put, belongs-put) (ground arith)))

abbrev grouped : Collection
grouped = collection_of (add_child 1 2 none single)

add_child-Linked_example : Linked (collection_of (add_child 1 2 none single))
add_child-Linked_example = add_child-Linked single 1 2 none single-Linked

remove_child-Linked_example : Linked (collection_of (remove_child 1 2 grouped))
unfolding belongs add_child add_found link update_by_id update_at put find_by_id pushed
remove_child-Linked_example =
    remove_child-Linked grouped 1 2 (add_child-Linked single 1 2 none single-Linked) refl

delete-Linked_example : Linked (collection_of (delete 2 grouped))
delete-Linked_example = delete-Linked grouped 2 (add_child-Linked single 1 2 none single-Linked)

remove_child-other_example :
    (lists (collection_of (remove_child 3 2 grouped)) 1 2 ≡ true)
    × (belongs (collection_of (remove_child 3 2 grouped)) 1 2 ≡ false)
unfolding lists any add_child add_found link update_by_id update_at put find_by_id pushed
remove_child-other_example =
    remove_child-other grouped 3 1 2 blank (record blank { parent_cycle_id = some 1 }) refl refl
      refl refl refl refl

save-Linked_example : Linked (save 2 (some 3) [] grouped)
unfolding add_child add_found link update_by_id update_at put find_by_id pushed
save-Linked_example =
    save-Linked grouped 2 (some 3) (record blank { parent_cycle_id = some 1 })
      (add_child-Linked single 1 2 none single-Linked) refl refl
