-- ===== src/Bluetooth/Writes.antt =====
-- services/ble.service.ts: what a write over Bluetooth may do.
use cleveremote_box.Base.{◌≡◌, ◌≢◌, true, none, some, [], ◌∷◌, arith}
use cleveremote_box.Bluetooth.Defs.{
  Host, WifiConfig, success, on_write, wifi_connect, update_settings,
}

-- A write without the right password calls nothing and does not succeed; one with it that succeeds has saved the
-- coordinates that it names, if any, and then joined the network, and nothing else.
pub on_write_guarded :
    (h : Host) (c : WifiConfig)
    → (h.check_password c.ssid c.password ≡ some true
        → (on_write h (some c)).1 ≡ success
        → (on_write h (some c)).0 ≡ elim c.local_coordinates [
          | none ↦ wifi_connect c.ssid c.psk ∷ []
          | some l ↦ update_settings l ∷ wifi_connect c.ssid c.psk ∷ []
        ])
      × (h.check_password c.ssid c.password ≢ some true
          → ((on_write h (some c)).0 ≡ []) × ((on_write h (some c)).1 ≢ success))
unfolding on_write
on_write_guarded h c = (λ p q. ground arith, λ n. (ground (arith, n), λ q. n (ground arith)))
