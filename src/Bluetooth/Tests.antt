-- ===== src/Bluetooth/Tests.antt =====
-- services/ble.service.ts: a network that is configured, seen twice and in use, and another that is seen.
use cleveremote_box.Base.{ℕ, ◌≡◌, ◌≤◌, refl, true, false, some, List, [], ◌∷◌, count, ◌==◌, ◌≢◌}
use cleveremote_box.Bluetooth.Defs.{
  Network, Profile, get, get_wifi_networks, Host, WifiConfig, on_write, update_settings,
  wifi_connect, success,
}
use cleveremote_box.Bluetooth.Entries.{is_key}
use cleveremote_box.Bluetooth.Networks.{expected, get_wifi_networks-expected}
use cleveremote_box.Bluetooth.Writes.{on_write_guarded}

abbrev profiles : List Profile
profiles = record { name = 1; is_wifi = true } ∷ record { name = 9; is_wifi = false } ∷ []

abbrev networks : List Network
networks =
    record { ssid = 1; in_use_boolean = false }
    ∷ record { ssid = 2; in_use_boolean = false }
    ∷ record { ssid = 1; in_use_boolean = true }
    ∷ []

networks_merged :
    get_wifi_networks profiles networks
    ≡ (1, record { is_configured = true; in_use = some true })
      ∷ (2, record { is_configured = false; in_use = some false })
      ∷ []
unfolding get_wifi_networks
networks_merged = refl

get_wifi_networks-expected_example :
    (get 1 (get_wifi_networks profiles networks) ≡ expected 1 profiles networks)
    × (count (is_key 1) (get_wifi_networks profiles networks) ≤ 1)
get_wifi_networks-expected_example = get_wifi_networks-expected 1 profiles networks

abbrev host : Host
host = record { check_password = λ id p. some (p == 5); updates = true; connects = true }

abbrev wifi : ℕ → WifiConfig
wifi p = record { ssid = 1; psk = 2; password = p; local_coordinates = some 3 }

right_password :
    on_write host (some (wifi 5)) ≡ (update_settings 3 ∷ wifi_connect 1 2 ∷ [], success)
unfolding on_write
right_password = refl

on_write_guarded_example :
    (host.check_password 1 6 ≡ some true
      → (on_write host (some (wifi 6))).1 ≡ success
      → (on_write host (some (wifi 6))).0 ≡ update_settings 3 ∷ wifi_connect 1 2 ∷ [])
    × (host.check_password 1 6 ≢ some true
        → ((on_write host (some (wifi 6))).0 ≡ []) × ((on_write host (some (wifi 6))).1 ≢ success))
on_write_guarded_example = on_write_guarded host (wifi 6)
