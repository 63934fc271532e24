-- ===== src/Synchronize/Slaves.antt =====
-- synchronize.service.ts: the slaves of a master after a synchronization.
use cleveremote_box.Synchronize.Devices.{
  also, device, not_given, no_more, SynchronizeDevices, sync_tree, sync_children, delete_absent,
}
use cleveremote_box.Base.{
  All, Bool-cases, if◌then◌else◌, bind-some, or_else, ◌>>=◌, ◌≡◌, refl, sym, ap, ◌∙◌, inl, inr,
  Bool, false, Option, none, some, List, filter, coalesce, subst, true, ◌&&◌, not,
}
use cleveremote_box.Repositories.Collection.{
  Document, delete_at, Text, Model, save_at, is_owned, find_by_owner, given_id,
}
use cleveremote_box.Repositories.Strict.{IsGiven, save_for-Within, found-or-incoming, is_kept}
use cleveremote_box.Repositories.Sync.{replace_for, save_for, apply_model, delete_each, is_incoming}
use cleveremote_box.Synchronize.Devices.{
  children_of, save_device, sync_children, are_given, delete_absent_of, Store, replace_requests,
  SynchronizeDevices, delete_device, sync_tree,
}
use cleveremote_box.Repositories.Replace.{listed}
use cleveremote_box.Repositories.Replace.{find_by_owner-Within, delete_each-Within}
use cleveremote_box.Repositories.Within.{Within, Within-mono}

-- Slaves that have no slaves of their own
abbrev pub Leaves : SynchronizeDevices → Type 0
Leaves not_given = Unit
Leaves no_more = Unit
Leaves (also (device m requests kids) ds) = (are_given kids ≡ false) × Leaves ds

replace_requests-devices :
    (random_uuid : List Document → Text) (id : Text) (o : Option (List Model)) (db db' : Store)
    → replace_requests random_uuid id o db ≡ some db'
    → db.devices ≡ db'.devices
unfolding replace_requests
replace_requests-devices random_uuid id none db db' h =
    ap (λ (o : Option Store). (or_else db o).devices) h
replace_requests-devices random_uuid id (some ms) db db' h =
    let (requests, (e, g)) = bind-some (replace_for random_uuid id ms db.requests) _ h in
    ap (λ (o : Option Store). (or_else db o).devices) g

absent-none :
    (master : Text) (kids : SynchronizeDevices) (db : Store)
    → are_given kids ≡ false
    → delete_absent_of master kids db ≡ some db
unfolding delete_absent_of
absent-none master kids db h = rw (h) refl

children-none :
    (random_uuid : List Document → Text) (master : Text) (kids : SynchronizeDevices) (db : Store)
    → are_given kids ≡ false
    → sync_children random_uuid master kids db ≡ some db
unfolding sync_children
children-none random_uuid master not_given db h = refl
children-none random_uuid master no_more db h = absurd (cc)
children-none random_uuid master (also d ds) db h = absurd (cc)

-- A slave with no slaves changes the devices as one model of `replaceForDevice` changes its documents.
leaf-apply :
    (random_uuid : List Document → Text) (master : Text) (m : Model)
    (requests : Option (List Model)) (kids : SynchronizeDevices) (db db' : Store)
    → are_given kids ≡ false
    → sync_tree random_uuid (some master) (device m requests kids) db ≡ some db'
    → apply_model random_uuid (some master) m db.devices ≡ some db'.devices
unfolding sync_tree apply_model delete_device save_device
leaf-apply random_uuid master m requests kids db db' l h = elim (Bool-cases m.delete) [
  | inl e ↦
      let (devices, (x, g)) = bind-some (delete_at m.id db.devices) _ (sym (ap whole e) ∙ h) in
      rw (e) (x ∙ ap (λ (o : Option Store). some ((or_else db o).devices)) g)
  | inr e ↦
      let (db1, (x, h1)) =
        bind-some (save_device random_uuid (some master) m db) _ (sym (ap whole e) ∙ h) in
      let (devices, (y, g)) =
        bind-some (save_at random_uuid m.id (some master) m.body db.devices) _ x in
      let (db2, (z, h2)) = bind-some (replace_requests random_uuid id requests db1) _ h1 in
      let (db3, (w, h3)) = bind-some (delete_absent_of id kids db2) _ h2 in
      let same23 = sym (absent-none id kids db2 l) ∙ w in
      let same34 = sym (children-none random_uuid id kids db3 l) ∙ h3 in
      rw (e) (
        y
        ∙ ap (λ (o : Option Store). some ((or_else db o).devices)) g
        ∙ ap some (replace_requests-devices random_uuid id requests db1 db2 z)
        ∙ ap (λ (o : Option Store). some ((or_else db o).devices)) same23
        ∙ ap (λ (o : Option Store). some ((or_else db o).devices)) same34)
]
  where
    id : Text
    id = or_else (random_uuid db.devices) (given_id m.id)

    whole : Bool → Option Store
    whole b =
        if b
        then delete_device m.id db
        else save_device random_uuid (some master) m db >>= λ db1.
            replace_requests random_uuid id requests db1 >>= λ db2.
            delete_absent_of id kids db2 >>= λ db3. sync_children random_uuid id kids db3

children-save_for :
    (random_uuid : List Document → Text) (master : Text) (kids : SynchronizeDevices)
    (db db' : Store)
    → Leaves kids
    → sync_children random_uuid master kids db ≡ some db'
    → save_for random_uuid master (children_of kids) db.devices ≡ some db'.devices
unfolding sync_children save_for children_of
children-save_for random_uuid master not_given db db' l h =
    ap (λ (o : Option Store). some ((or_else db o).devices)) h
children-save_for random_uuid master no_more db db' l h =
    ap (λ (o : Option Store). some ((or_else db o).devices)) h
children-save_for random_uuid master (also (device m requests kids) ds) db db' l h =
    let (db1, (e, g)) =
      bind-some (sync_tree random_uuid (some master) (device m requests kids) db) _ h in
    ap (λ o. o >>= λ devices. save_for random_uuid master (children_of ds) devices)
      (leaf-apply random_uuid master m requests kids db db1 l.0 e)
    ∙ children-save_for random_uuid master ds db1 db' l.1 g

-- What is found of the master and not given is deleted.
absent-Within :
    (master : Text) (kids : SynchronizeDevices) (db db' : Store)
    → are_given kids ≡ true
    → delete_absent_of master kids db ≡ some db'
    → Within master (is_incoming (children_of kids)) db'.devices
unfolding delete_absent_of delete_absent
absent-Within master kids db db' g h =
    let ms = children_of kids in
    let found = find_by_owner master db.devices in
    let removed = filter (λ d. not (is_incoming ms d.id)) found in
    let (devices, (e, k)) = bind-some (delete_each removed db.devices) _ (sym (ap whole g) ∙ h) in
    subst (Within master (is_incoming ms)) (ap (λ (o : Option Store). (or_else db o).devices) k) (
      Within-mono master (λ x. listed found x && not (listed removed x)) (is_incoming ms) devices
        (λ x t. found-or-incoming ms found x t)
        (delete_each-Within master (listed found) removed db.devices devices e
          (find_by_owner-Within master db.devices)))
  where
    whole : Bool → Option Store
    whole b = if b then delete_absent master (children_of kids) db else some db

-- When the synchronization of a master that has an identifier succeeds with slaves that are given, that all have an identifier and that
-- have no slaves of their own, every slave that is then found for the master has the identifier of a given
-- slave that is not marked as deleted.
pub sync_tree-kept :
    (random_uuid : List Document → Text) (owner : Option Text) (m : Model) (id : Text)
    (requests : Option (List Model)) (kids : SynchronizeDevices) (db db' : Store)
    → m.delete ≡ false
    → given_id m.id ≡ some id
    → are_given kids ≡ true
    → Leaves kids
    → All IsGiven (children_of kids)
    → sync_tree random_uuid owner (device m requests kids) db ≡ some db'
    → All
        (λ (d : Document). is_owned id d ≡ true → is_kept (children_of kids) d.id ≡ true)
        db'.devices
unfolding sync_tree
sync_tree-kept random_uuid owner m id requests kids db db' e i g l a h =
    let (db1, (x, h1)) =
      bind-some (save_device random_uuid (coalesce owner m.owner) m db) _ (sym (ap whole e) ∙ h) in
    let (db2, (z, h2)) = bind-some (replace_requests random_uuid master requests db1) _ h1 in
    let (db3, (w, h3)) = bind-some (delete_absent_of master kids db2) _ h2 in
    let saved = children-save_for random_uuid master kids db3 db' l h3 in
    subst (λ (o : Text). Within o (is_kept (children_of kids)) db'.devices)
      (ap (or_else (random_uuid db.devices)) i)
      (save_for-Within random_uuid master (children_of kids) (λ x. false) db3.devices db'.devices a
        saved (absent-Within master kids db2 db3 g w))
  where
    master : Text
    master = or_else (random_uuid db.devices) (given_id m.id)

    whole : Bool → Option Store
    whole b =
        if b
        then delete_device m.id db
        else save_device random_uuid (coalesce owner m.owner) m db >>= λ db1.
            replace_requests random_uuid master requests db1 >>= λ db2.
            delete_absent_of master kids db2 >>= λ db3. sync_children random_uuid master kids db3
