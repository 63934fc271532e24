-- ===== src/Strategies/Tests.antt =====
-- device-strategies/*.ts: an inverter with two requests, one of them done.
use cleveremote_box.Base.{filter, ℕ, ◌≡◌, Bool, true, false, none, some, [], ◌∷◌}
use cleveremote_box.Modbus.Requests.{
  failed, other_failure, network_failure, on_failure, write_single_register, on_reply,
  run_com_request, answered,
}
use cleveremote_box.Strategies.Defs.{World, execute, ComRequestModel, inverter_init, zero_of}
use cleveremote_box.Strategies.Once.{each_request-again}

abbrev request_of : ℕ → Bool → ComRequestModel
request_of i b = record {
  id = i;
  config = record {
    address = some 4;
    functions = some (write_single_register ∷ []);
    disabled = none;
    type = none;
    params = none;
  };
  done = b;
}

-- The inverter cannot be reached.
abbrev unplugged : World
unplugged = record {
  client = record {
    connect = failed network_failure;
    read = λ _ _ _. failed network_failure;
    write = λ _ _ _. failed network_failure;
    decodes = λ _ _. answered;
  };
  is_resolved = true;
  saves = λ i. true;
}

-- The bus answers with an error that is no network error.
abbrev broken : World
broken = record {
  client = record {
    connect = failed other_failure;
    read = λ _ _ _. failed other_failure;
    write = λ _ _ _. failed other_failure;
    decodes = λ _ _. answered;
  };
  is_resolved = true;
  saves = λ i. true;
}

each_request-again_example :
    (inverter_init broken (inverter_init broken (request_of 1 true ∷ request_of 2 false ∷ [])).0).1
    ≡ 2 ∷ []
unfolding inverter_init filter execute run_com_request on_reply on_failure
each_request-again_example =
    each_request-again broken broken zero_of zero_of (request_of 1 true ∷ request_of 2 false ∷ [])
