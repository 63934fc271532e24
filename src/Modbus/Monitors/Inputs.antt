-- ===== src/Modbus/Monitors/Inputs.antt =====
-- The polls of `monitorDigitalInputs` in modbus.service.ts while a button is held.
use cleveremote_box.Base.{
  any, leb, if◌then◌else◌, ℕ, ◌-◌, ◌≡◌, refl, ap, Bool, true, false, some, List, [], ◌∷◌, map,
  arith,
}
use cleveremote_box.Modbus.Monitors.{poll_all, poll_channel, released, Channel}

-- While the button stays down: the times of the polls
abbrev pub held_polls : List ℕ → List (ℕ × Bool)
held_polls = map (λ now. (now, true))

-- Whether a poll comes late enough after the start of the press
abbrev pub reaches : ℕ → ℕ → List ℕ → Bool
reaches long start times = any (λ now. leb long (now - start)) times

-- After the report there is no other.
fired_silent :
    (long start : ℕ) (times : List ℕ)
    → poll_all long
        (held_polls times)
        (record { press_started_at = some start; long_press_fired = true })
      ≡ (record { press_started_at = some start; long_press_fired = true }, [])
unfolding poll_all poll_channel
fired_silent long start [] = refl
fired_silent long start (now ∷ times) = rw (fired_silent long start times)

-- Before it there is one, of the first poll that comes late enough.
unfoldable pub first_reach : ℕ → ℕ → List ℕ → List ℕ
first_reach long start [] = []
first_reach long start (now ∷ times) =
    if leb long (now - start) then (now - start) ∷ [] else first_reach long start times

armed_once :
    (long start : ℕ) (times : List ℕ)
    → (poll_all long
        (held_polls times)
        (record { press_started_at = some start; long_press_fired = false })).1
      ≡ first_reach long start times
unfolding poll_all poll_channel first_reach
armed_once long start [] = refl
armed_once long start (now ∷ times) = ground (
  arith,
  ap (λ (x : Channel × List ℕ). x.1) (fired_silent long start times),
  armed_once long start times,
)

-- However long a button stays down after it was released, and however often it is polled, a press
-- is reported at most once: at the first poll that comes `longPressMs` or more after the poll which
-- saw the press begin, with the time between the two. Without such a poll there is no report.
pub press_reported_once :
    (long start : ℕ) (times : List ℕ)
    → (poll_all long ((start, true) ∷ held_polls times) released).1 ≡ first_reach long start times
unfolding poll_all poll_channel
press_reported_once long start times = armed_once long start times
