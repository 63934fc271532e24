-- ===== src/Bluetooth/Networks.antt =====
-- services/ble.service.ts: `getWifiNetworks` against the lists of the host.
use cleveremote_box.Base.{
  if◌then◌else◌, ◌==◌, ℕ, ◌≡◌, ◌≤◌, refl, inl, inr, Bool, true, false, ◌&&◌, ◌||◌, Option, none,
  some, List, [], ◌∷◌, arith, count, any, Option-cases, or_else, filter,
}
use cleveremote_box.Bluetooth.Defs.{
  get, put, Entries, Network, Profile, Wifi, add_network, add_networks, get_unique_ssids,
  get_configured_wifi_networks, add_configured, merge_network, merge_networks, get_wifi_networks,
}
use cleveremote_box.Bluetooth.Entries.{get-put, count-put, is_key}

-- What the lists of the host say of a name: whether it is seen, seen in use, and configured
abbrev pub is_seen : ℕ → List Network → Bool
is_seen j ns = any (λ n. n.ssid == j) ns

abbrev pub is_used : ℕ → List Network → Bool
is_used j ns = any (λ n. n.ssid == j && n.in_use_boolean) ns

abbrev pub is_saved : ℕ → List Profile → Bool
is_saved j ps = any (λ p. p.is_wifi && p.name == j) ps

-- The entry that a name is to have
abbrev pub expected : ℕ → List Profile → List Network → Option Wifi
expected j ps ns =
    if is_saved j ps || is_seen j ns
    then some (record {
      is_configured = is_saved j ps;
      in_use = if is_seen j ns then some (is_used j ns) else none;
    })
    else none

abbrev joined : Option Bool → Bool → Bool → Option Bool
joined none seen used = if seen then some used else none
joined (some b) seen used = some (b || used)

get-add_network :
    (j : ℕ) (n : Network) (m : Entries Bool)
    → get j (add_network n m)
      ≡ (if n.ssid == j then some (or_else false (get j m) || n.in_use_boolean) else get j m)
unfolding add_network
get-add_network j n m = ground (arith, get-put n.ssid j n.in_use_boolean m, get-put n.ssid j true m)

get-add_networks :
    (j : ℕ) (ns : List Network) (m : Entries Bool)
    → get j (add_networks ns m) ≡ joined (get j m) (is_seen j ns) (is_used j ns)
unfolding add_networks any
get-add_networks j [] m = ground arith
get-add_networks j (n ∷ ns) m =
    ground (arith, get-add_networks j ns (add_network n m), get-add_network j n m)

count-add_network :
    (j : ℕ) (n : Network) (m : Entries Bool)
    → count (is_key j) m ≤ 1
    → count (is_key j) (add_network n m) ≤ 1
unfolding add_network
count-add_network j n m h =
    ground (arith, count-put n.ssid j n.in_use_boolean m, count-put n.ssid j true m)

count-add_networks :
    (j : ℕ) (ns : List Network) (m : Entries Bool)
    → count (is_key j) m ≤ 1
    → count (is_key j) (add_networks ns m) ≤ 1
unfolding add_networks
count-add_networks j [] m h = h
count-add_networks j (n ∷ ns) m h =
    count-add_networks j ns (add_network n m) (count-add_network j n m h)

abbrev merged : Option Wifi → Option Bool → Option Wifi
merged w none = w
merged none (some u) = some (record { is_configured = false; in_use = some u })
merged (some w) (some u) = some (record w { in_use = some u })

get-merge_network :
    (j k : ℕ) (u : Bool) (m : Entries Wifi)
    → get j (merge_network k u m) ≡ (if k == j then merged (get j m) (some u) else get j m)
unfolding merge_network
get-merge_network j k u m = elim (Option-cases (get k m)) [
  | inl e ↦ ground (arith, e, get-put k j (record { is_configured = false; in_use = some u }) m)
  | inr (w, e) ↦ ground (arith, e, get-put k j (record w { in_use = some u }) m)
]

get-absent : {V : Type 0} (j : ℕ) (m : List (ℕ × V)) → count (is_key j) m ≡ 0 → get j m ≡ none
unfolding get count
get-absent j [] h = refl
get-absent j ((i, v) ∷ m) h = ground (arith, get-absent j m)

get-merge_networks :
    (j : ℕ) (us : Entries Bool) (m : Entries Wifi)
    → count (is_key j) us ≤ 1
    → get j (merge_networks us m) ≡ merged (get j m) (get j us)
unfolding merge_networks get count
get-merge_networks j [] m h = refl
get-merge_networks j ((k, u) ∷ us) m h = ground (
  arith,
  get-merge_networks j us (merge_network k u m),
  get-merge_network j k u m,
  get-absent j us,
)

count-merge_network :
    (j k : ℕ) (u : Bool) (m : Entries Wifi)
    → count (is_key j) m ≤ 1
    → count (is_key j) (merge_network k u m) ≤ 1
unfolding merge_network
count-merge_network j k u m h = elim (Option-cases (get k m)) [
  | inl e ↦ ground (arith, e, count-put k j (record { is_configured = false; in_use = some u }) m)
  | inr (w, e) ↦ ground (arith, e, count-put k j (record w { in_use = some u }) m)
]

count-merge_networks :
    (j : ℕ) (us : Entries Bool) (m : Entries Wifi)
    → count (is_key j) m ≤ 1
    → count (is_key j) (merge_networks us m) ≤ 1
unfolding merge_networks
count-merge_networks j [] m h = h
count-merge_networks j ((k, u) ∷ us) m h =
    count-merge_networks j us (merge_network k u m) (count-merge_network j k u m h)

abbrev configured : Wifi
configured = record { is_configured = true; in_use = none }

get-add_configured :
    (j : ℕ) (ns : List ℕ) (m : Entries Wifi)
    → get j (add_configured ns m) ≡ (if any (λ n. n == j) ns then some configured else get j m)
unfolding add_configured any
get-add_configured j [] m = refl
get-add_configured j (n ∷ ns) m =
    ground (arith, get-add_configured j ns (put n configured m), get-put n j configured m)

count-add_configured :
    (j : ℕ) (ns : List ℕ) (m : Entries Wifi)
    → count (is_key j) m ≤ 1
    → count (is_key j) (add_configured ns m) ≤ 1
unfolding add_configured
count-add_configured j [] m h = h
count-add_configured j (n ∷ ns) m h =
    count-add_configured j ns (put n configured m) (ground (arith, count-put n j configured m))

any-configured :
    (j : ℕ) (ps : List Profile)
    → any (λ n. n == j) (get_configured_wifi_networks ps) ≡ is_saved j ps
unfolding get_configured_wifi_networks any filter
any-configured j [] = refl
any-configured j (p ∷ ps) = ground (arith, any-configured j ps)

-- Each name stands in the answer once at most, exactly when it is a configured wifi profile or seen by the
-- scan, configured exactly when it is such a profile, and, when it is seen, in use exactly when some scanned
-- network of that name is.
pub get_wifi_networks-expected :
    (j : ℕ) (ps : List Profile) (ns : List Network)
    → (get j (get_wifi_networks ps ns) ≡ expected j ps ns)
      × (count (is_key j) (get_wifi_networks ps ns) ≤ 1)
unfolding get_wifi_networks get_unique_ssids count
get_wifi_networks-expected j ps ns =
    let names = get_configured_wifi_networks ps in
    let once : count (is_key j) (get_unique_ssids ns) ≤ 1 =
      count-add_networks j ns [] (omega arith) in
    (
      ground (
        arith,
        get-merge_networks j (get_unique_ssids ns) (add_configured names []) once,
        get-add_networks j ns [],
        get-add_configured j names [],
        any-configured j ps,
      ),
      count-merge_networks j (get_unique_ssids ns) (add_configured names [])
          (count-add_configured j names [] (omega arith)),
    )
