-- ===== src/Bluetooth/Defs.antt =====
-- services/ble.service.ts: the handlers of the two characteristics, over node-network-manager and the services
-- of authentication and settings. The set-up of the host (ble-host, hci-socket) is not modelled.
use cleveremote_box.Base.{
  if◌then◌else◌, ◌==◌, filter, map, ℕ, Bool, true, false, Option, none, some, List, [], ◌∷◌,
}

-- A JavaScript `Map`, in the order of its insertions. The name of an entry is its key.
abbrev pub Entries : Type 0 → Type 0
Entries V = List (ℕ × V)

unfoldable pub get {ℓ} : {V : Type ℓ} → ℕ → List (ℕ × V) → Option V
get k [] = none
get k ((j, v) ∷ m) = if j == k then some v else get k m

-- `set`: in place, or at the end
unfoldable pub put {ℓ} : {V : Type ℓ} → ℕ → V → List (ℕ × V) → List (ℕ × V)
put k v [] = (k, v) ∷ []
put k v ((j, w) ∷ m) = (let rest = put k v m in if j == k then (j, v) ∷ m else (j, w) ∷ rest)

-- An entry of `getWifiList`, and one of `getConnectionProfilesList`
pub record Network : Type 0 where
  pub ssid : ℕ
  pub in_use_boolean : Bool

pub record Profile : Type 0 where
  pub name : ℕ
  pub is_wifi : Bool

-- An entry of the answer, but for its name: `isConfigured`, where missing is false, and `in-use`
pub record Wifi : Type 0 where
  pub is_configured : Bool
  pub in_use : Option Bool

unfoldable pub add_network : Network → Entries Bool → Entries Bool
unfolding get put
add_network n m = elim (get n.ssid m) [
  | none ↦ put n.ssid n.in_use_boolean m
  | some used ↦ if n.in_use_boolean then put n.ssid true m else m
]

unfoldable pub add_networks : List Network → Entries Bool → Entries Bool
unfolding add_network
add_networks [] m = m
add_networks (n ∷ ns) m = add_networks ns (add_network n m)

-- `getUniqueSSIDs`
unfoldable pub get_unique_ssids : List Network → Entries Bool
unfolding add_networks
get_unique_ssids ns = add_networks ns []

-- `getConfiguredWifiNetworks`
unfoldable pub get_configured_wifi_networks : List Profile → List ℕ
unfolding filter
get_configured_wifi_networks ps = map (λ p. p.name) (filter (λ p. p.is_wifi) ps)

unfoldable pub add_configured : List ℕ → Entries Wifi → Entries Wifi
unfolding put
add_configured [] m = m
add_configured (n ∷ ns) m =
    add_configured ns (put n (record { is_configured = true; in_use = none }) m)

-- `{ ...mergedMap.get(item.name), ...item }`, or `{ 'in-use': false, ...item }`
unfoldable pub merge_network : ℕ → Bool → Entries Wifi → Entries Wifi
unfolding get put
merge_network n used m = elim (get n m) [
  | none ↦ put n (record { is_configured = false; in_use = some used }) m
  | some w ↦ put n (record w { in_use = some used }) m
]

unfoldable pub merge_networks : Entries Bool → Entries Wifi → Entries Wifi
unfolding merge_network
merge_networks [] m = m
merge_networks ((n, used) ∷ ns) m = merge_networks ns (merge_network n used m)

-- `getWifiNetworks`
unfoldable pub get_wifi_networks : List Profile → List Network → Entries Wifi
unfolding get_configured_wifi_networks get_unique_ssids add_configured merge_networks
get_wifi_networks ps ns =
    merge_networks (get_unique_ssids ns) (add_configured (get_configured_wifi_networks ps) [])

-- `AttErrors`
pub data AttError : Type 0 where
  success unlikely_error write_not_permitted : AttError

-- What the written value parses to
pub record WifiConfig : Type 0 where
  pub ssid : ℕ
  pub psk : ℕ
  pub password : ℕ
  pub local_coordinates : Option ℕ

-- The calls of `buildContenteConfigFile`
pub data Call : Type 0 where
  update_settings : ℕ → Call
  wifi_connect : ℕ → ℕ → Call

-- Whether the password is right, and whether each call goes through; `none` is an exception.
pub record Host : Type 0 where
  pub check_password : ℕ → ℕ → Option Bool
  pub updates : Bool
  pub connects : Bool

abbrev connect : Host → WifiConfig → List Call × Option AttError
connect h c = (wifi_connect c.ssid c.psk ∷ [], if h.connects then some success else none)

abbrev after : Call → List Call × Option AttError → List Call × Option AttError
after c (cs, r) = (c ∷ cs, r)

-- `buildContenteConfigFile`: the calls that it makes, and its result
unfoldable pub build_contente_config_file : Host → WifiConfig → List Call × Option AttError
build_contente_config_file h c = elim (h.check_password c.ssid c.password) [
  | none ↦ ([], none)
  | some false ↦ ([], some write_not_permitted)
  | some true ↦ elim c.local_coordinates [
    | none ↦ connect h c
    | some l ↦
        if h.updates
        then after (update_settings l) (connect h c)
        else (update_settings l ∷ [], none)
  ]
]

abbrev answered : List Call × Option AttError → List Call × AttError
answered (cs, some r) = (cs, r)
answered (cs, none) = (cs, unlikely_error)

-- `onWrite`; `none` is a value that is no JSON.
unfoldable pub on_write : Host → Option WifiConfig → List Call × AttError
unfolding build_contente_config_file
on_write h none = ([], unlikely_error)
on_write h (some c) = answered (build_contente_config_file h c)
