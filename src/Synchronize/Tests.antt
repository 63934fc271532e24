-- ===== src/Synchronize/Tests.antt =====
-- synchronize.service.ts: a master that loses one of its two slaves.
use cleveremote_box.Synchronize.Devices.{
  also, device, not_given, no_more, SynchronizeDevices, sync_tree, sync_children,
}
use cleveremote_box.Base.{any, filter, All, ℕ, ◌≡◌, refl, Bool, true, false, none, some, [], ◌∷◌}
use cleveremote_box.Repositories.Collection.{
  update_by_id, Document, delete, soft_deleted, write, same_text, upsert, dash, hex_digits,
  is_valid_uuid, Model, is_owned, save_at, save_given, Text, find_by_owner,
}
use cleveremote_box.Repositories.Strict.{is_kept}
use cleveremote_box.Repositories.Sync.{delete_each}
use cleveremote_box.Synchronize.Devices.{
  children_of, SynchronizeDevices, Store, replace_requests, delete_absent, sync_tree, sync_children,
  delete_absent_of, save_device,
}
use cleveremote_box.Synchronize.Slaves.{sync_tree-kept}

-- "aaaaaaaa-0000-0000-0000-00000000000" and a last digit
abbrev uuid : ℕ → Text
uuid last =
    b'a' ∷ b'a' ∷ b'a' ∷ b'a' ∷ b'a' ∷ b'a' ∷ b'a' ∷ b'a' ∷ b'-' ∷ b'0' ∷ b'0' ∷ b'0' ∷ b'0' ∷ b'-'
    ∷ b'0' ∷ b'0' ∷ b'0' ∷ b'0' ∷ b'-' ∷ b'0' ∷ b'0' ∷ b'0' ∷ b'0' ∷ b'-' ∷ b'0' ∷ b'0' ∷ b'0'
    ∷ b'0' ∷ b'0' ∷ b'0' ∷ b'0' ∷ b'0' ∷ b'0' ∷ b'0' ∷ b'0' ∷ last ∷ []

abbrev model : ℕ → Model
model last = record { id = some (uuid last); owner = none; body = 1; delete = false }

abbrev slave : ℕ → ℕ → Bool → Document
slave last body b = record { id = uuid last; owner = some (uuid b'a'); body = body; deleted = b }

abbrev gateway : Document
gateway = record { id = uuid b'a'; owner = none; body = 1; deleted = false }

abbrev one_slave : SynchronizeDevices
one_slave = also (device (model b'1') none not_given) no_more

abbrev stored : Store
stored = record { devices = gateway ∷ slave b'1' 0 false ∷ slave b'2' 0 false ∷ []; requests = [] }

abbrev synchronized : Store
synchronized = record {
  devices = gateway ∷ slave b'1' 1 false ∷ slave b'2' 0 true ∷ [];
  requests = [];
}

sync_tree-kept_example :
    All
      (λ (d : Document).
        is_owned (uuid b'a') d ≡ true → is_kept (children_of one_slave) d.id ≡ true)
      synchronized.devices
unfolding sync_tree sync_children replace_requests delete_absent_of delete_absent children_of
    save_device save_at save_given is_valid_uuid hex_digits dash upsert update_by_id write
    delete_each delete find_by_owner filter any same_text soft_deleted
sync_tree-kept_example =
    sync_tree-kept (λ db. uuid b'f') none (model b'a') (uuid b'a') none one_slave stored
      synchronized refl refl refl (refl, tt) (refl, tt) refl
