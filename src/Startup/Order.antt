-- ===== src/Startup/Order.antt =====
-- init.service.ts: the initialization, and authentication.service.ts.
use cleveremote_box.Base.{
  is_some, if-elim, if◌then◌else◌, ℕ, ◌≡◌, refl, Bool, true, false, ◌||◌, Option, List, [], ◌∷◌,
}

pub data Stage : Type 0 where
  structure settings ble authentication triggers sensors : Stage
  reset_modules schedules scheduled_sensors ready_signal devices : Stage

-- `initialize`: the stages, in order
abbrev pub stages : List Stage
stages =
    structure ∷ settings ∷ ble ∷ authentication ∷ triggers ∷ sensors ∷ reset_modules ∷ schedules
    ∷ scheduled_sensors ∷ ready_signal ∷ devices ∷ []

-- The stages that are begun: the first that fails ends the chain, and its error is logged.
unfoldable pub initialize_from : (Stage → Bool) → List Stage → List Stage
initialize_from does_fail [] = []
initialize_from does_fail (x ∷ xs) =
    (let rest = initialize_from does_fail xs in x ∷ (if does_fail x then [] else rest))

unfoldable pub initialize : (Stage → Bool) → List Stage
unfolding initialize_from
initialize does_fail = initialize_from does_fail stages

-- Where Bluetooth fails, no actuator is reset and no schedule starts.
initialize-ble :
    (does_fail : Stage → Bool)
    → does_fail structure ≡ false
    → does_fail settings ≡ false
    → does_fail ble ≡ true
    → initialize does_fail ≡ structure ∷ settings ∷ ble ∷ []
unfolding initialize initialize_from
initialize-ble does_fail a b c = rw (a, b, c) refl

-- `AuthenticationModel`
pub record AuthenticationModel : Type 0 where
  pub login : Option ℕ
  pub password : Option ℕ

-- `initAuthentication`: `initial` is what `_managePassword` makes of the serial and the initial password.
unfoldable pub init_authentication : AuthenticationModel → AuthenticationModel → AuthenticationModel
init_authentication initial found =
    if is_some found.login || is_some found.password then found else initial

-- `checkPassword`, by `bcrypt.compare`
unfoldable pub check_password :
    (Option ℕ → Option ℕ → Bool) → AuthenticationModel → AuthenticationModel → Bool
check_password compares given found = compares given.password found.password

-- A second initialization changes nothing.
init_authentication-again :
    (initial other found : AuthenticationModel)
    → is_some initial.login ≡ true
    → init_authentication other (init_authentication initial found)
      ≡ init_authentication initial found
unfolding init_authentication
init_authentication-again initial other found h =
    if-elim (λ x. init_authentication other x ≡ x) (is_some found.login || is_some found.password)
      found initial (λ e. rw (e) refl) (λ _. rw (h) refl)
