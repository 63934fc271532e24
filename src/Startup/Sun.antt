-- ===== src/Startup/Sun.antt =====
-- sun-event.util.ts, global-settings.service.ts and `_normalizeSunDriverPattern` of schedule.service.ts.
use cleveremote_box.Base.{
  or_else, if◌then◌else◌, ℕ, ◌+◌, ◌-◌, ◌≡◌, refl, ap, Option, none, some, List, [], ◌∷◌, ◌++◌,
}
use cleveremote_box.Groups.Reorder.{place}
use cleveremote_box.Triggers.Defs.{SunBehavior}

-- A place, as a number; `LocalCoordinatesModel` or `DEFAULT_COORD`
abbrev pub default_coord : ℕ
default_coord = 0

-- `ResolveCoordinates`
unfoldable pub resolve_coordinates : Option ℕ → ℕ
resolve_coordinates local = or_else default_coord local

-- sunrise-sunset-js: the time of a sunrise or sunset at a place on a day
pub record SunTimes : Type 0 where
  pub sunrise : ℕ → ℕ → ℕ
  pub sunset : ℕ → ℕ → ℕ

-- `ComputeSunEventDate`; an offset before the event is within the time since the epoch.
unfoldable pub compute_sun_event_date : SunTimes → SunBehavior → ℕ → ℕ → ℕ
compute_sun_event_date sun b day place =
    let base = if b.is_sunrise then sun.sunrise place day else sun.sunset place day in
    if b.is_after then base + b.time else base - b.time

-- `GlobalSettingsModel`, and the service with its cache of `localCoordinates`
pub record GlobalSettingsModel : Type 0 where
  pub local_coordinates : Option ℕ
  pub version : Option ℕ

pub record Settings : Type 0 where
  pub stored : GlobalSettingsModel
  pub local_coordinates : Option ℕ

-- `get` and `update`, with `APP_VERSION`
unfoldable pub get_settings : ℕ → Settings → GlobalSettingsModel × Settings
get_settings app_version s = (
  record (s.stored) { version = some app_version },
  record s { local_coordinates = s.stored.local_coordinates },
)

unfoldable pub update_settings : ℕ → GlobalSettingsModel → Settings → GlobalSettingsModel × Settings
update_settings app_version entity s = (
  record entity { version = some app_version },
  record s { stored = entity; local_coordinates = entity.local_coordinates },
)

-- `slice(-3)` of the fields of a pattern
unfoldable pub last_three : List (List ℕ) → List (List ℕ)
last_three (a ∷ b ∷ c ∷ d ∷ rest) = last_three (b ∷ c ∷ d ∷ rest)
last_three fields = fields

abbrev star : List ℕ
star = b'*' ∷ []

abbrev pub midnight : List ℕ
midnight = b'0' ∷ []

-- `[dayOfMonth = '*', month = '*', dayOfWeek = '*']`
unfoldable pub with_defaults : List (List ℕ) → List (List ℕ)
with_defaults [] = midnight ∷ midnight ∷ star ∷ star ∷ star ∷ []
with_defaults (a ∷ []) = midnight ∷ midnight ∷ a ∷ star ∷ star ∷ []
with_defaults (a ∷ b ∷ []) = midnight ∷ midnight ∷ a ∷ b ∷ star ∷ []
with_defaults (a ∷ b ∷ c ∷ rest) = midnight ∷ midnight ∷ a ∷ b ∷ c ∷ []

-- `_normalizeSunDriverPattern`, of the fields between the spaces; none is no pattern.
unfoldable pub normalize_sun_driver_pattern : Option (List (List ℕ)) → List (List ℕ)
unfolding last_three with_defaults
normalize_sun_driver_pattern none = with_defaults []
normalize_sun_driver_pattern (some fields) = with_defaults (last_three fields)

last_three-append :
    (xs : List (List ℕ)) (a b c : List ℕ) → last_three (xs ++ a ∷ b ∷ c ∷ []) ≡ a ∷ b ∷ c ∷ []
unfolding last_three
last_three-append [] a b c = refl
last_three-append (x ∷ []) a b c = refl
last_three-append (x ∷ y ∷ []) a b c = refl
last_three-append (x ∷ y ∷ z ∷ []) a b c = refl
last_three-append (x ∷ y ∷ z ∷ w ∷ xs) a b c = last_three-append (y ∷ z ∷ w ∷ xs) a b c

-- The driver of a pattern with at least three fields ticks at midnight on the days of its last three fields.
normalize_sun_driver_pattern-days :
    (xs : List (List ℕ)) (a b c : List ℕ)
    → normalize_sun_driver_pattern (some (xs ++ a ∷ b ∷ c ∷ []))
      ≡ midnight ∷ midnight ∷ a ∷ b ∷ c ∷ []
unfolding normalize_sun_driver_pattern with_defaults
normalize_sun_driver_pattern-days xs a b c = ap with_defaults (last_three-append xs a b c)
