-- ===== src/Modbus/Monitors/Outputs.antt =====
-- The polls of `monitorDigitalOutputs` in modbus.service.ts, channel by channel.
use native.Mathlib.Nat.{zero-add}
-- Exactly the channels that changed are reported.
-- Channels are numbered upwards.
use cleveremote_box.Base.{
  find, get_elem?, ◌==◌, if◌then◌else◌, ℕ, zero, suc, ◌+◌, ◌<◌, ◌≡◌, refl, Bool, Option, none, some,
  List, [], ◌∷◌, arith, subst,
}
use cleveremote_box.Modbus.Monitors.{DigitalOutputChange, changes_from, poll_outputs, differs}

find_below :
    (i n : ℕ) (previous states : List Bool)
    → i < n
    → find (λ x. x.channel == i) (changes_from n previous states) ≡ none
unfolding find changes_from
find_below i n previous [] h = refl
find_below i n [] (b ∷ bs) h = ground (arith, find_below i (suc n) [] bs)
find_below i n (p ∷ ps) (b ∷ bs) h = ground (arith, find_below i (suc n) ps bs)

-- What a poll should report of one channel
abbrev pub expected : ℕ → Option Bool → Option Bool → Option DigitalOutputChange
expected n previous none = none
expected n previous (some b) =
    if differs b previous
    then some (record { channel = n; previous = previous; current = b })
    else none

find-changes_from :
    (i n : ℕ) (previous states : List Bool)
    → find (λ x. x.channel == n + i) (changes_from n previous states)
      ≡ expected (n + i) (get_elem? previous i) (get_elem? states i)
unfolding find changes_from differs
find-changes_from i n previous [] = refl
find-changes_from zero n [] (b ∷ bs) = ground arith
find-changes_from zero n (p ∷ ps) (b ∷ bs) = ground (arith, find_below (n + 0) (suc n) ps bs)
find-changes_from (suc i) n [] (b ∷ bs) = ground (arith, find-changes_from i (suc n) [] bs)
find-changes_from (suc i) n (p ∷ ps) (b ∷ bs) = ground (arith, find-changes_from i (suc n) ps bs)

-- A poll after the first reports a channel exactly when its state differs from the one that was
-- remembered (or when none was), with both states, and remembers all the states that it read.
pub poll_outputs-reports :
    (previous states : List Bool) (i : ℕ)
    → ((poll_outputs (some previous) states).0 ≡ some states)
      × (find (λ x. x.channel == i) (poll_outputs (some previous) states).1
          ≡ expected i (get_elem? previous i) (get_elem? states i))
unfolding poll_outputs
poll_outputs-reports previous states i = (
  refl,
  subst
      (λ k.
        find (λ x. x.channel == k) (changes_from 0 previous states)
        ≡ expected k (get_elem? previous i) (get_elem? states i))
      (zero-add i) (find-changes_from i 0 previous states),
)
