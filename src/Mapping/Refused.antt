-- ===== src/Mapping/Refused.antt =====
-- infrastructure/dto/synchronize.dto.ts: the payloads at which the mappings throw a TypeError, though the
-- validation lets them pass.
use cleveremote_box.Base.{
  ◌≡◌, refl, Bool, true, false, ◌&&◌, ◌⊎◌, inl, inr, List, [], ◌∷◌, Option, none, some, is_some,
  all, arith, ◌>>=◌,
}
use cleveremote_box.Mapping.Conditions.{ConditionSync, to_model, to_models}
use cleveremote_box.Mapping.Cycles.{
  ChildCycleSync, child_to_model, CycleDto, map_to_cycle_model, priorities_of, copied_priority,
}
use cleveremote_box.Mapping.Json.{
  Field, undefined, null, given, field_or, map_each, spread, object, entry,
}
use cleveremote_box.Mapping.Schedules.{TriggerDto, schedule_of_cycle, trigger_of_cycle}
use cleveremote_box.Mapping.Sequences.{
  CustomStackSync, SecurityConfigSync, SequenceSync, ModuleConfigsSync, stack_to_model,
  security_to_model, modules_to_model, sequence_to_model,
}
use cleveremote_box.Mapping.Types.{ModePriority}

abbrev pub is_given {ℓ} : {A : Type ℓ} → Field A → Bool
is_given (given a) = true
is_given _ = false

abbrev pub is_not_null {ℓ} : {A : Type ℓ} → Field A → Bool
is_not_null null = false
is_not_null _ = true

abbrev pub is_entry {ℓ} : {A : Type ℓ} → (A → Bool) → Field A → Bool
is_entry p (given a) = p a
is_entry p _ = false

-- Every entry of a list is there, and has this.
abbrev pub entries {ℓ} : {A : Type ℓ} → (A → Bool) → List (Field A) → Bool
entries p xs = all (is_entry p) xs

-- What a payload needs so that each property that is read has an object
abbrev pub is_there {ℓ} : {A : Type ℓ} → A → Bool
is_there a = true

abbrev pub has_config : ChildCycleSync → Bool
has_config c = is_given c.config

abbrev pub is_plain_stack : CustomStackSync → Bool
is_plain_stack s = is_not_null s.params && is_not_null s.default_params

-- A list that may be missing, but is not `null`
abbrev pub are_plain {ℓ} : {A : Type ℓ} → (A → Bool) → Field (List (Field A)) → Bool
are_plain p undefined = true
are_plain p null = false
are_plain p (given xs) = entries p xs

abbrev pub is_plain_security : Field SecurityConfigSync → Bool
is_plain_security (given c) =
    are_plain is_plain_stack c.custom_stacks && are_plain is_there c.conditions
is_plain_security _ = false

abbrev pub is_plain_sequence : SequenceSync → Bool
is_plain_sequence s =
    is_plain_security s.security_config && entries is_there (field_or [] s.module_configs)

abbrev pub has_plain_conditions : TriggerDto → Bool
has_plain_conditions t = entries is_there (field_or [] t.conditions)

abbrev pub is_plain : CycleDto → Bool
is_plain c =
    entries is_there (field_or [] c.conditions)
    && (entries has_config (field_or [] c.child_cycles)
        && (entries is_there (field_or [] c.mode_priority)
            && (entries is_plain_sequence (field_or [] c.sequences)
                && (entries has_plain_conditions (field_or [] c.triggers)
                    && entries is_there (field_or [] c.schedules)))))

entries_lem :
    {A B : Type 0} (f : A → Option B) (p : A → Bool)
    → ((a : A) → is_some (f a) ≡ p a)
    → (xs : List (Field A)) → is_some (map_each (entry f) xs) ≡ entries p xs
unfolding map_each all
entries_lem f p h [] = refl
entries_lem f p h (undefined ∷ xs) = refl
entries_lem f p h (null ∷ xs) = refl
entries_lem f p h (given a ∷ xs) = ground (arith, h a, entries_lem f p h xs)

-- A list whose entries are only read
read_lem :
    {A B : Type 0} (f : A → B) (xs : List (Field A))
    → is_some (map_each (entry (λ a. some (f a))) xs) ≡ entries is_there xs
read_lem f xs = entries_lem (λ a. some (f a)) is_there (λ a. refl) xs

-- A chain has a result when both of its parts have one.
bind-is_some :
    {A B : Type 0} (o : Option A) (k : A → Option B) (p b : Bool)
    → is_some o ≡ p
    → ((a : A) → is_some (k a) ≡ b)
    → is_some (o >>= k) ≡ (p && b)
bind-is_some none k p b e h = ground arith
bind-is_some (some a) k p b e h = ground (arith, h a)

-- The last part of a chain
last-is_some :
    {A B : Type 0} (o : Option A) (k : A → B) (p : Bool)
    → is_some o ≡ p
    → is_some (o >>= λ a. some (k a)) ≡ p
last-is_some none k p e = e
last-is_some (some a) k p e = e

child_lem : (c : ChildCycleSync) → is_some (child_to_model c) ≡ has_config c
unfolding child_to_model
child_lem c = ground arith

stack_lem : (s : CustomStackSync) → is_some (stack_to_model s) ≡ is_plain_stack s
unfolding stack_to_model
stack_lem s = ground arith

spread_lem :
    {A B : Type 0} (f : List (Field A) → Option B) (p : A → Bool)
    → ((xs : List (Field A)) → is_some (f xs) ≡ entries p xs)
    → (x : Field (List (Field A))) → is_some (spread f x) ≡ are_plain p x
spread_lem f p h undefined = refl
spread_lem f p h null = refl
spread_lem f p h (given xs) = ground (arith, h xs)

conditions_lem : (cs : List (Field ConditionSync)) → is_some (to_models cs) ≡ entries is_there cs
unfolding to_models
conditions_lem cs = read_lem to_model cs

security_lem :
    (c : SecurityConfigSync) → is_some (security_to_model c) ≡ is_plain_security (given c)
unfolding security_to_model
security_lem c =
    bind-is_some (spread (map_each (entry stack_to_model)) c.custom_stacks) _ _ _
      (spread_lem (map_each (entry stack_to_model)) is_plain_stack
        (entries_lem stack_to_model is_plain_stack stack_lem) c.custom_stacks)
      (λ stacks.
        last-is_some (spread to_models c.conditions) _ _
          (spread_lem to_models is_there conditions_lem c.conditions))

objects_lem :
    {A : Type 0} (xs : List (Field A)) → is_some (map_each object xs) ≡ entries is_there xs
unfolding map_each all
objects_lem [] = refl
objects_lem (undefined ∷ xs) = refl
objects_lem (null ∷ xs) = refl
objects_lem (given a ∷ xs) = ground (arith, objects_lem xs)

modules_lem :
    (ms : List (Field ModuleConfigsSync)) → is_some (modules_to_model ms) ≡ entries is_there ms
unfolding modules_to_model
modules_lem ms = last-is_some (map_each object ms) _ _ (objects_lem ms)

sequence_lem : (s : SequenceSync) → is_some (sequence_to_model s) ≡ is_plain_sequence s
unfolding sequence_to_model
sequence_lem s = elim (Field-cases s.security_config) [
  | inl e ↦ rw (e) refl
  | inr (inl e) ↦ rw (e) refl
  | inr (inr (c, e)) ↦ rw (e) (
      bind-is_some (security_to_model c) _ _ _ (security_lem c) (λ security.
        last-is_some (modules_to_model (field_or [] s.module_configs)) _ _
          (modules_lem (field_or [] s.module_configs))))
]
  where
    Field-cases :
        {A : Type 0} (x : Field A) → (x ≡ undefined) ⊎ ((x ≡ null) ⊎ ((a : A) × (x ≡ given a)))
    Field-cases undefined = inl refl
    Field-cases null = inr (inl refl)
    Field-cases (given a) = inr (inr (a, refl))

trigger_lem : (t : TriggerDto) → is_some (trigger_of_cycle t) ≡ has_plain_conditions t
unfolding trigger_of_cycle
trigger_lem t =
    last-is_some (to_models (field_or [] t.conditions)) _ _
      (conditions_lem (field_or [] t.conditions))

priorities_lem :
    (x : Field (List (Field ModePriority)))
    → is_some (priorities_of x) ≡ entries is_there (field_or [] x)
unfolding priorities_of all
priorities_lem undefined = refl
priorities_lem null = refl
priorities_lem (given ps) = read_lem copied_priority ps

-- The mapping of a cycle has a result exactly when no list of objects in it has a `null` entry, every child has its
-- `config` and every sequence its `securityConfig`, whose `conditions` and `customStacks` are not `null` and no
-- stack of which has `null` for `params` or `defaultParams`; else it is a TypeError.
pub map_to_cycle_model-plain : (c : CycleDto) → is_some (map_to_cycle_model c) ≡ is_plain c
unfolding map_to_cycle_model
map_to_cycle_model-plain c =
    bind-is_some (to_models (field_or [] c.conditions)) _ _ _
      (conditions_lem (field_or [] c.conditions))
      (λ conditions.
        bind-is_some (map_each (entry child_to_model) (field_or [] c.child_cycles)) _ _ _
          (entries_lem child_to_model has_config child_lem (field_or [] c.child_cycles))
          (λ children.
            bind-is_some (priorities_of c.mode_priority) _ _ _ (priorities_lem c.mode_priority)
              (λ priorities.
                bind-is_some (map_each (entry sequence_to_model) (field_or [] c.sequences)) _ _ _
                  (entries_lem sequence_to_model is_plain_sequence sequence_lem
                    (field_or [] c.sequences))
                  (λ sequences.
                    bind-is_some (map_each (entry trigger_of_cycle) (field_or [] c.triggers)) _ _ _
                      (entries_lem trigger_of_cycle has_plain_conditions trigger_lem
                        (field_or [] c.triggers))
                      (λ triggers.
                        last-is_some
                          (map_each (entry (λ s. some (schedule_of_cycle s)))
                            (field_or [] c.schedules))
                          _ _ (read_lem schedule_of_cycle (field_or [] c.schedules)))))))
