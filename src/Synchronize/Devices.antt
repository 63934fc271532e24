-- ===== src/Synchronize/Devices.antt =====
-- synchronize.service.ts: the devices, with the requests and the slaves of each.
use cleveremote_box.Base.{
  any, filter, coalesce, ◌>>=◌, if◌then◌else◌, or_else, Bool, true, false, not, Option, none, some,
  List, [], ◌∷◌,
}
use cleveremote_box.Repositories.Collection.{
  delete_at, Document, Model, save_at, find_by_owner, Text, given_id,
}
use cleveremote_box.Repositories.Sync.{delete_each, is_incoming, replace_for}

-- `SynchronizeDeviceModel`: its fields, its `comrequests` if they are given, and its `devices`
mutual
  pub data SynchronizeDeviceModel : Type 0 where
    device : Model → Option (List Model) → SynchronizeDevices → SynchronizeDeviceModel

  pub data SynchronizeDevices : Type 0 where
    not_given no_more : SynchronizeDevices
    also : SynchronizeDeviceModel → SynchronizeDevices → SynchronizeDevices

-- The collections that the tree is written to
pub record Store : Type 0 where
  pub devices : List Document
  pub requests : List Document

abbrev pub model_of : SynchronizeDeviceModel → Model
model_of (device m requests kids) = m

-- `childModels`
unfoldable pub children_of : SynchronizeDevices → List Model
children_of not_given = []
children_of no_more = []
children_of (also d ds) = model_of d ∷ children_of ds

-- `replaceForDevice` of the requests, where they are given
unfoldable pub replace_requests :
    (List Document → Text) → Text → Option (List Model) → Store → Option Store
unfolding replace_for
replace_requests random_uuid id none db = some db
replace_requests random_uuid id (some ms) db =
    replace_for random_uuid id ms db.requests >>= λ requests.
    some (record db { requests = requests })

-- The slaves of a master that are not given any more are deleted.
unfoldable pub delete_absent : Text → List Model → Store → Option Store
unfolding delete_each find_by_owner filter any
delete_absent master ms db =
    delete_each (filter (λ d. not (is_incoming ms d.id)) (find_by_owner master db.devices))
      db.devices
    >>= λ devices. some (record db { devices = devices })

unfoldable pub delete_device : Option Text → Store → Option Store
unfolding delete_at
delete_device id db = delete_at id db.devices >>= λ devices. some (record db { devices = devices })

unfoldable pub save_device : (List Document → Text) → Option Text → Model → Store → Option Store
unfolding save_at
save_device random_uuid owner m db = save_at random_uuid m.id owner m.body db.devices >>= λ devices.
    some (record db { devices = devices })

abbrev pub are_given : SynchronizeDevices → Bool
are_given not_given = false
are_given _ = true

-- `_replaceChildDevices` before its loop, where the slaves are given
unfoldable pub delete_absent_of : Text → SynchronizeDevices → Store → Option Store
unfolding delete_absent children_of
delete_absent_of master kids db =
    if are_given kids then delete_absent master (children_of kids) db else some db

-- `_synchronizeDeviceTree`, of a slave with the master that is forced on it; and the loop over the slaves
unfoldable mutual
  unfolding replace_requests delete_absent_of delete_device save_device

  pub sync_tree :
      (List Document → Text) → Option Text → SynchronizeDeviceModel → Store → Option Store
  sync_tree random_uuid master (device m requests kids) db =
      let id = or_else (random_uuid db.devices) (given_id m.id) in
      if m.delete
      then delete_device m.id db
      else save_device random_uuid (coalesce master m.owner) m db >>= λ db1.
          replace_requests random_uuid id requests db1 >>= λ db2.
          delete_absent_of id kids db2 >>= λ db3. sync_children random_uuid id kids db3

  pub sync_children : (List Document → Text) → Text → SynchronizeDevices → Store → Option Store
  sync_children random_uuid master not_given db = some db
  sync_children random_uuid master no_more db = some db
  sync_children random_uuid master (also d ds) db =
      sync_tree random_uuid (some master) d db >>= λ db'. sync_children random_uuid master ds db'
