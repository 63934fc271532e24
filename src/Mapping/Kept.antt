-- ===== src/Mapping/Kept.antt =====
-- infrastructure/schemas/mappers: a model that is saved and read again.
use cleveremote_box.Base.{
  ◌≡◌, refl, ap, ◌∙◌, sym, inl, inr, Option-cases, Option, none, some, List, [], ◌∷◌, map, arith,
  ◌>>=◌, bind-some,
}
use cleveremote_box.Mapping.Conditions.{
  to_models, ConditionModel, condition_to_schema, condition_to_model,
}
use cleveremote_box.Mapping.Cycles.{
  ChildCycleRef, child_to_schema, child_of_schema, copied_priority,
}
use cleveremote_box.Mapping.Json.{Field, undefined, null, given, field_or, map_each, entry, spread}
use cleveremote_box.Mapping.Requests.{
  ComRequestConfig, ComRequestConfigDto, ModbusTaskParams, Params, config_to_model,
  params_to_schema, params_to_model, map_com_request_config_to_schema,
  map_com_request_config_to_model,
}
use cleveremote_box.Mapping.Sequences.{
  CustomStackSync, CustomStackModel, stack_to_model, SecurityConfigSync, SecurityConfigModel,
  security_to_model, SequenceModuleRef,
}
use cleveremote_box.Mapping.SequenceDocuments.{
  CustomStack, stack_to_schema, stack_of_schema, map_present, SecurityConfig, security_to_schema,
  security_of_schema, module_to_schema, module_of_schema,
}
use cleveremote_box.Mapping.Types.{ModePriority}

pub conditions_kept :
    (cs : List ConditionModel) → map condition_to_model (map condition_to_schema cs) ≡ cs
unfolding condition_to_model condition_to_schema
conditions_kept [] = refl
conditions_kept (c ∷ cs) = ap (λ xs. c ∷ xs) (conditions_kept cs)

pub children_kept : (cs : List ChildCycleRef) → map child_of_schema (map child_to_schema cs) ≡ cs
unfolding child_of_schema child_to_schema
children_kept [] = refl
children_kept (c ∷ cs) = ap (λ xs. c ∷ xs) (children_kept cs)

pub priorities_kept : (ps : List ModePriority) → map copied_priority ps ≡ ps
priorities_kept [] = refl
priorities_kept (p ∷ ps) = ap (λ xs. p ∷ xs) (priorities_kept ps)

params_kept :
    (p : ModbusTaskParams) (q : Params) → params_to_schema p ≡ some q → params_to_model q ≡ p
unfolding params_to_schema params_to_model
params_kept p q h = ground arith

pub config_kept :
    (c : ComRequestConfigDto) (s : ComRequestConfig)
    → map_com_request_config_to_schema (config_to_model c) ≡ some s
    → map_com_request_config_to_model s ≡ config_to_model c
unfolding map_com_request_config_to_schema map_com_request_config_to_model config_to_model
config_kept c s h = ground arith

pub map_each-cons :
    {A B : Type 0} (f : A → Option B) (a : A) (as' : List A) (bs : List B)
    → map_each f (a ∷ as') ≡ some bs
    → (b : B) × (bs' : List B) × (f a ≡ some b) × (map_each f as' ≡ some bs') × (bs ≡ b ∷ bs')
unfolding map_each
map_each-cons f a as' bs h = elim (Option-cases (f a)) [
  | inl e ↦ absurd (cc)
  | inr (b, e) ↦ elim (Option-cases (map_each f as')) [
    | inl e' ↦ absurd (cc)
    | inr (bs', e') ↦ (b, bs', e, e', ground arith)
  ]
]

-- Mapping each entry and back
pub each_kept :
    {A B C : Type 0} (f : A → Option B) (g : B → Option C) (back : C → B)
    → ((a : A) (b : B) (c : C) → f a ≡ some b → g b ≡ some c → back c ≡ b)
    → (as' : List A) (bs : List B) (cs : List C) → map_each f as' ≡ some bs
    → map_each g bs ≡ some cs
    → map back cs ≡ bs
unfolding map_each
each_kept f g back keep [] bs cs p q =
    let none_given : bs ≡ [] = cc in
    let none_saved : cs ≡ [] = ground (arith, none_given) in rw (none_saved, none_given) refl
each_kept f g back keep (a ∷ as') bs cs p q =
    let (b, bs', e, p', l) = map_each-cons f a as' bs p in
    let q' : map_each g (b ∷ bs') ≡ some cs = ap (map_each g) (sym l) ∙ q in
    let (c, cs', e', q'', l') = map_each-cons g b bs' cs q' in
    rw (l, l') (cc (keep a b c e e', each_kept f g back keep as' bs' cs' p' q''))

stack_kept :
    (s : CustomStackSync) (m : CustomStackModel) (c : CustomStack)
    → stack_to_model s ≡ some m
    → stack_to_schema m ≡ some c
    → stack_of_schema c ≡ m
unfolding stack_to_model stack_to_schema stack_of_schema
stack_kept s m c p q = ground arith

-- The same for a property that may be absent
spread_kept :
    {A B C : Type 0} (f : A → Option B) (g : B → Option C) (back : C → B)
    → ((a : A) (b : B) (c : C) → f a ≡ some b → g b ≡ some c → back c ≡ b)
    → (x : Field A) (y : Option B) (z : Option C) → spread f x ≡ some y
    → map_present g y ≡ some z
    → (z >>= λ c. some (back c)) ≡ y
unfolding map_present
spread_kept f g back keep undefined y z p q = ground arith
spread_kept f g back keep null y z p q = absurd (cc)
spread_kept f g back keep (given a) y z p q = elim (Option-cases (f a)) [
  | inl e ↦ absurd (cc)
  | inr (b, e) ↦
      (let e' : y ≡ some b = cc in
        elim (Option-cases (g b)) [
          | inl n ↦ absurd (ground (arith, n, e'))
          | inr (c, n) ↦
              (let e'' : z ≡ some c = ground (arith, n, e') in
                rw (e', e'') (ap (λ x. some x) (keep a b c e n)))
        ])
]

entry_kept :
    (s : Field CustomStackSync) (m : CustomStackModel) (c : CustomStack)
    → entry stack_to_model s ≡ some m
    → stack_to_schema m ≡ some c
    → stack_of_schema c ≡ m
entry_kept undefined m c p q = absurd (cc)
entry_kept null m c p q = absurd (cc)
entry_kept (given s) m c p q = stack_kept s m c p q

stacks_kept :
    (x : Field (List (Field CustomStackSync))) (y : Option (List CustomStackModel))
    (z : Option (List CustomStack))
    → spread (map_each (entry stack_to_model)) x ≡ some y
    → map_present (map_each stack_to_schema) y ≡ some z
    → (z >>= λ c. some (map stack_of_schema c)) ≡ y
stacks_kept =
    spread_kept (map_each (entry stack_to_model)) (map_each stack_to_schema) (map stack_of_schema)
      (each_kept (entry stack_to_model) stack_to_schema stack_of_schema entry_kept)

listed_conditions_kept :
    (o : Option (List ConditionModel))
    → ((o >>= λ cs. some (map condition_to_schema cs)) >>= λ cs. some (map condition_to_model cs))
      ≡ o
listed_conditions_kept none = refl
listed_conditions_kept (some cs) = ap (λ x. some x) (conditions_kept cs)

pub security_kept :
    (s : SecurityConfigSync) (m : SecurityConfigModel) (c : SecurityConfig)
    → security_to_model s ≡ some m
    → security_to_schema m ≡ some c
    → security_of_schema c ≡ m
unfolding security_to_model security_to_schema security_of_schema
security_kept s m c p q =
    let (stacks, (e, k)) =
      bind-some (spread (map_each (entry stack_to_model)) s.custom_stacks) _ p in
    let (conditions, (f, l)) = bind-some (spread to_models s.conditions) _ k in
    let (saved, (e', k')) =
      bind-some (map_present (map_each stack_to_schema) m.custom_stacks) _ q in
    ground (
      arith,
      stacks_kept s.custom_stacks m.custom_stacks saved,
      listed_conditions_kept m.conditions,
    )

-- The waits that are not given are 0.
abbrev pub with_waits : SequenceModuleRef → SequenceModuleRef
with_waits m = record m {
  config_timing = record {
    wait_before_exec = given (field_or 0 m.config_timing.wait_before_exec);
    wait_after_exec = given (field_or 0 m.config_timing.wait_after_exec);
    wait_before_exec_off = given (field_or 0 m.config_timing.wait_before_exec_off);
    wait_after_exec_off = given (field_or 0 m.config_timing.wait_after_exec_off);
  };
}

pub modules_kept :
    (ms : List SequenceModuleRef)
    → map module_of_schema (map module_to_schema ms) ≡ map with_waits ms
unfolding module_of_schema module_to_schema
modules_kept [] = refl
modules_kept (m ∷ ms) = ap (λ xs. with_waits m ∷ xs) (modules_kept ms)
