-- ===== src/Bluetooth/Entries.antt =====
-- services/ble.service.ts: the maps by which it merges the networks.
use cleveremote_box.Base.{
  if◌then◌else◌, ◌==◌, ℕ, ◌≡◌, refl, Bool, some, List, [], ◌∷◌, arith, count, max,
}
use cleveremote_box.Bluetooth.Defs.{get, put}

module _ {V : Type 0} where
  pub get-put :
      (k j : ℕ) (v : V) (m : List (ℕ × V))
      → get j (put k v m) ≡ (if k == j then some v else get j m)
  unfolding get put
  get-put k j v [] = refl
  get-put k j v ((i, w) ∷ m) = ground (arith, get-put k j v m)

  abbrev pub is_key : ℕ → ℕ × V → Bool
  is_key k e = e.0 == k

  pub count-put :
      (k j : ℕ) (v : V) (m : List (ℕ × V))
      → count (is_key j) (put k v m)
        ≡ (if k == j then max 1 (count (is_key j) m) else count (is_key j) m)
  unfolding put count
  count-put k j v [] = ground arith
  count-put k j v ((i, w) ∷ m) = ground (arith, count-put k j v m)
