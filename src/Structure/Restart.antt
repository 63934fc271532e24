-- ===== src/Structure/Restart.antt =====
-- configuration.service.ts: a reload of the structure, and the statuses that it reports.
use cleveremote_box.Base.{
  filter, Bool-cases, ◌≡◌, refl, ap, inl, inr, Bool, some, List, [], ◌∷◌, ◌++◌, if◌then◌else◌, ◌∙◌,
  true, false, not, Option, none, map,
}
use cleveremote_box.Domain.{on, ExecutableAction, off, ProcessMode, CycleModel}
use cleveremote_box.Engine.Progress.{progressed_cycle, status_of_action, publish, cycle_progress}
use cleveremote_box.Engine.State.{ProcessReport, State, log, Effect, published}
use cleveremote_box.Structure.Service.{
  data_of_event, progression_of, rehydrate_process_status, status_of, StructureModel, get_sequences,
  ProcessValueModel, build_process_values, get_status, sequence_status, sequence_value,
  is_cycle_type, ProcessEventData, cycle_status, cycle_value, data_of_change,
}

-- What the database holds of an effect: the data of the event that is published
abbrev pub data_of : List Effect → Option ProcessEventData
data_of (published e ∷ es) = some (data_of_event e)
data_of _ = none

-- A cycle that is reloaded with the event that its last start or stop published has the status and the
-- duration that the start or stop gave it in memory. The instant of the start is left out on both sides.
rehydrate-progressed :
    (c : CycleModel) (action : ExecutableAction) (mode : ProcessMode) (causes : ProcessReport)
    (s : State)
    → rehydrate_process_status (data_of (cycle_progress c action mode causes s).effects) c
      ≡ progressed_cycle action c
unfolding rehydrate_process_status status_of progression_of progressed_cycle status_of_action
    cycle_progress publish log
rehydrate-progressed c on mode causes s = refl
rehydrate-progressed c off mode causes s = refl

-- Reloaded with the event that a change of its value saves instead, it has that status and no progression.
rehydrate-changed :
    (c : CycleModel) (action : ExecutableAction)
    → rehydrate_process_status (some (data_of_change (status_of_action action))) c
      ≡ record (progressed_cycle action c) { progression = none }
unfolding rehydrate_process_status status_of progression_of progressed_cycle status_of_action
rehydrate-changed c on = refl
rehydrate-changed c off = refl

filter-append :
    {A : Type 0} (p : A → Bool) (xs ys : List A) → filter p (xs ++ ys) ≡ filter p xs ++ filter p ys
unfolding filter
filter-append p [] ys = refl
filter-append p (x ∷ xs) ys = elim (Bool-cases (p x)) [
  | inl e ↦ rw (e) (ap (λ l. x ∷ l) (filter-append p xs ys))
  | inr e ↦ rw (e) (filter-append p xs ys)
]

filter-map :
    {A : Type 0} (p : ProcessValueModel → Bool) (f : A → ProcessValueModel) (b : Bool) (xs : List A)
    → ((x : A) → p (f x) ≡ b)
    → filter p (map f xs) ≡ (if b then map f xs else [])
unfolding filter
filter-map p f true [] h = refl
filter-map p f false [] h = refl
filter-map p f true (x ∷ xs) h = rw (h x) (ap (λ l. f x ∷ l) (filter-map p f true xs h))
filter-map p f false (x ∷ xs) h = rw (h x) (filter-map p f false xs h)

append-nil-right : {A : Type 0} (xs : List A) → xs ++ [] ≡ xs
append-nil-right [] = refl
append-nil-right (x ∷ xs) = ap (λ l. x ∷ l) (append-nil-right xs)

-- The status of the cycles reports every cycle, in order, and nothing else, and the status of the sequences
-- every sequence of every cycle, in order, and nothing else.
get_status-processes :
    (s : StructureModel)
    → ((get_status cycle_status s).0 ≡ map cycle_value s.cycles)
      × ((get_status sequence_status s).0 ≡ map sequence_value (get_sequences s.cycles))
unfolding get_status build_process_values cycle_value sequence_value
get_status-processes s =
    let qs = get_sequences s.cycles in
    let is_cycle : ProcessValueModel → Bool = λ v. is_cycle_type v.type in
    let is_sequence : ProcessValueModel → Bool = λ v. not (is_cycle_type v.type) in
    let cycles = map cycle_value s.cycles in
    let sequences = map sequence_value qs in
    (
      filter-append is_cycle cycles sequences
          ∙ ap (λ l. l ++ filter is_cycle sequences)
              (filter-map is_cycle cycle_value true s.cycles (λ x. refl))
          ∙ ap (λ l. cycles ++ l) (filter-map is_cycle sequence_value false qs (λ x. refl))
          ∙ append-nil-right cycles,
      filter-append is_sequence cycles sequences
          ∙ ap (λ l. l ++ filter is_sequence sequences)
              (filter-map is_sequence cycle_value false s.cycles (λ x. refl))
          ∙ filter-map is_sequence sequence_value true qs (λ x. refl),
    )
