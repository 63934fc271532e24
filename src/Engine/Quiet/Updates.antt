-- ===== src/Engine/Quiet/Updates.antt =====
-- The updates of the state that a stop of execution.service.ts is made of.
use cleveremote_box.Base.{find, ℕ, ◌≡◌, refl, Bool, true, false, none, some, List, [], ◌∷◌, arith}
use cleveremote_box.Domain.{SequenceModel, CycleModel}
use cleveremote_box.Engine.Conflicts.{is_running}
use cleveremote_box.Engine.Quiet.Defs.{IsOff, same, Quieter, more}
use cleveremote_box.Engine.State.{
  State, log, cycle_is, modify, modify_sequence, update_sequence, update_cycle, Effect, has_id,
}

-- A change of one cycle that keeps its identifier and does not start it
abbrev pub Calms : (CycleModel → CycleModel) → Type 0
Calms f = (c : CycleModel) → ((f c).id ≡ c.id) × (is_running (f c) ≡ true → is_running c ≡ true)

abbrev pub running_in : List CycleModel → ℕ → Bool
running_in cs id = elim (find (has_id id) cs) [ none ↦ false | some c ↦ is_running c ]

running_in-modify :
    (f : CycleModel → CycleModel) (calm : Calms f) (i id : ℕ) (cs : List CycleModel)
    → running_in (modify (has_id i) f cs) id ≡ true
    → running_in cs id ≡ true
unfolding find modify
running_in-modify f calm i id [] h = h
running_in-modify f calm i id (c ∷ cs) h =
    ground (arith, (calm c).0, (calm c).1, running_in-modify f calm i id cs)

running_in-modify_sequence :
    (f : SequenceModel → SequenceModel) (i id : ℕ) (cs : List CycleModel)
    → running_in (modify_sequence i f cs) id ≡ running_in cs id
unfolding find modify_sequence
running_in-modify_sequence f i id [] = refl
running_in-modify_sequence f i id (c ∷ cs) = ground (arith, running_in-modify_sequence f i id cs)

pub update_cycle-Quieter :
    (f : CycleModel → CycleModel) (i : ℕ) (s : State) → Calms f → Quieter s (update_cycle i f s)
unfolding update_cycle cycle_is
update_cycle-Quieter f i s calm = record {
  still = λ id h. running_in-modify f calm i id s.cycles h;
  switched = same;
  created = refl;
}

pub update_sequence-Quieter :
    (f : SequenceModel → SequenceModel) (i : ℕ) (s : State) → Quieter s (update_sequence i f s)
unfolding update_sequence cycle_is
update_sequence-Quieter f i s = record {
  still = λ id h. rw (← running_in-modify_sequence f i id s.cycles) h;
  switched = same;
  created = refl;
}

pub log-Quieter : (e : Effect) (s : State) → IsOff e → Quieter s (log e s)
unfolding log cycle_is
log-Quieter e s o = record { still = λ id h. h; switched = more e o same; created = refl }
