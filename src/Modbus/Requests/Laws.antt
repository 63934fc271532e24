-- ===== src/Modbus/Requests/Laws.antt =====
-- modbus.service.ts: the choice of the function of a request, and its failures.
use cleveremote_box.Base.{
  find-sat, find, is_some, ℕ, ◌≡◌, ◌≢◌, refl, ◌⊎◌, inl, inr, Bool, true, false, not, Option, none,
  some, List, [], ◌∷◌, arith, All, Option-cases, Bool-cases, if◌then◌else◌,
}
use cleveremote_box.Modbus.Requests.{
  on_reply, is_write, Reply, choose_function, Client, is_array, Response, undefined, rejected,
  result, run_function, run_com_request, value_of, read_coils, read_length, answered, run_read,
  is_multiple, failed, Failure, ModbusFunctionName, WriteParam, on_failure, ComRequestConfig,
  is_network, ErrorCode, ehostunreach, econnrefused, etimedout, enetunreach, econnreset, other_code,
  reads_states,
}

multiple_writes : (f : ModbusFunctionName) → is_multiple f ≡ true → is_write f ≡ true
multiple_writes read_coils h = cc
multiple_writes f h = ground arith

-- The function that is chosen writes exactly when there is something to write.
choose_function-kind :
    (functions : List ModbusFunctionName) (param : Option WriteParam) (f : ModbusFunctionName)
    → choose_function functions param ≡ some f
    → is_write f ≡ is_some param
unfolding choose_function
choose_function-kind functions none f c =
    ground (arith, find-sat (λ (x : ModbusFunctionName). not (is_write x)) functions {a = f})
choose_function-kind functions (some param) f c = ground (
  arith,
  find-sat is_multiple functions {a = f},
  find-sat is_write functions {a = f},
  multiple_writes f,
)

-- Several values are written by a function for several whenever one is configured.
choose_function-several :
    (functions : List ModbusFunctionName) (param : WriteParam) (f g : ModbusFunctionName)
    → is_array (value_of param) ≡ true
    → find is_multiple functions ≡ some g
    → choose_function functions (some param) ≡ some f
    → is_multiple f ≡ true
unfolding choose_function
choose_function-several functions param f g h e c =
    ground (arith, find-sat is_multiple functions {a = g})

-- The codes of `networkCodes`
abbrev pub network_codes : List ErrorCode
network_codes = ehostunreach ∷ econnrefused ∷ etimedout ∷ enetunreach ∷ econnreset ∷ []

-- An error with no `modbusCode` and none of these codes
abbrev pub Rejecting : Failure → Type 0
Rejecting e = (e.modbus_code ≡ none) × All (λ (c : ErrorCode). e.code ≢ some c) network_codes

-- What the bus answers to a read: to the connection, to the read, and, for registers, to the decoding
abbrev pub read_replies : Client → ComRequestConfig → ModbusFunctionName → Option ℕ → List Reply
read_replies client config f n =
    let k = read_length n config.type in
    client.connect
    ∷ client.read f config.address k
    ∷ (if reads_states f then [] else client.decodes config.type k ∷ [])

abbrev pub first_failure : List Reply → Option Failure
first_failure [] = none
first_failure (answered ∷ rs) = first_failure rs
first_failure (failed e ∷ rs) = some e

-- With the result when nothing failed, with a rejection when the first failure rejects, else with `undefined`
abbrev pub Ends : Response → Option Failure → Response → Type 0
Ends r none x = x ≡ r
Ends r (some e) x = (Rejecting e × (x ≡ rejected)) ⊎ (¬ Rejecting e × (x ≡ undefined))

no_code : (o : Option ErrorCode) → is_network o ≡ false → All (λ c. o ≢ some c) network_codes
unfolding is_network
no_code none h = (λ e. cc, (λ e. cc, (λ e. cc, (λ e. cc, (λ e. cc, tt)))))
no_code (some (other_code n)) h = (λ e. cc, (λ e. cc, (λ e. cc, (λ e. cc, (λ e. cc, tt)))))
no_code (some c) h = absurd (cc)

some_code : (o : Option ErrorCode) → is_network o ≡ true → ¬ All (λ c. o ≢ some c) network_codes
unfolding is_network
some_code none h a = cc
some_code (some (other_code n)) h a = cc
some_code (some ehostunreach) h a = a.0 refl
some_code (some econnrefused) h a = a.1.0 refl
some_code (some etimedout) h a = a.1.1.0 refl
some_code (some enetunreach) h a = a.1.1.1.0 refl
some_code (some econnreset) h a = a.1.1.1.1.0 refl

on_failure-Ends : (r : Response) (e : Failure) → Ends r (some e) (on_failure e)
unfolding on_failure
on_failure-Ends r e = elim (Option-cases e.modbus_code) [
  | inr (n, m) ↦ inr (λ w. cc (w.0, m), rw (m) refl)
  | inl m ↦ elim (Bool-cases (is_network e.code)) [
    | inl c ↦ inr (λ w. some_code e.code c w.1, rw (m, c) refl)
    | inr c ↦ inl ((m, no_code e.code c), rw (m, c) refl)
  ]
]

replies-Ends :
    (a b d : Reply) (states : Bool) (r : Response)
    → Ends r
        (first_failure (a ∷ b ∷ (if states then [] else d ∷ [])))
        (on_reply a (on_reply b (if states then r else on_reply d r)))
unfolding on_reply
replies-Ends (failed e) b d states r = on_failure-Ends r e
replies-Ends answered (failed e) d states r = on_failure-Ends r e
replies-Ends answered answered d true r = refl
replies-Ends answered answered answered false r = refl
replies-Ends answered answered (failed e) false r = on_failure-Ends r e

-- A request with parameters that has a function to read with, on a device that is found, ends with its result when
-- the connection, the read and, for registers, the decoding are answered. Else the first of them that failed
-- decides: an error that has no `modbusCode` and whose code is none of EHOSTUNREACH, ECONNREFUSED, ETIMEDOUT,
-- ENETUNREACH and ECONNRESET rejects the promise, and every other ends the request with `undefined`.
pub run_com_request-Ends :
    (client : Client) (config : ComRequestConfig) (f : ModbusFunctionName) (n : Option ℕ)
    → choose_function config.functions none ≡ some f
    → config.params ≡ some n
    → Ends
        (result f)
        (first_failure (read_replies client config f n))
        (run_com_request client true config none)
unfolding run_com_request run_function run_read
run_com_request-Ends client config f n c p =
    rw (c, p)
      (let k = read_length n config.type in
        replies-Ends client.connect (client.read f config.address k) (client.decodes config.type k)
          (reads_states f) (result f))
