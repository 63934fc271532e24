-- ===== src/Engine/Precedence.antt =====
-- The decision of `_manageProcessMode` in execution.service.ts to start without a confirmation.
use cleveremote_box.Base.{
  any, ltb, ℕ, ◌≡◌, Bool, true, false, Option, none, some, List, [], ◌∷◌, ◌++◌, arith, false≢true,
  all, refl, Bool-cases, sym, ap, ◌∙◌, inl, inr, or_else,
}
use cleveremote_box.Domain.{is_confirmation, is_force, confirmation, force, ProcessType}
use cleveremote_box.Engine.Modes.{
  priority_of, arbitrate, Verdict, winning_type, asks_confirmation, confirms_schedule,
  conditions_gate, first_verdict, decide,
}
use cleveremote_box.Engine.State.{State, Cause, ProcessModel, conflicted_with_cycle, name_of}
use cleveremote_box.Engine.Calls.{report}
use cleveremote_box.Engine.Conflicts.{Env, conflicted}

-- Its priority is the smaller number.
abbrev before : Option ℕ → Option ℕ → Bool
before none other = false
before (some mine) none = false
before (some mine) (some other) = ltb mine other

abbrev pub outranks : State → ProcessModel → ProcessModel → Bool
outranks s p proc = before (priority_of s p.cycle_id p.mode) (priority_of s proc.cycle_id proc.mode)

any-append_left :
    (xs ys : List Cause)
    → any (λ x. is_confirmation x.type) xs ≡ true
    → any (λ x. is_confirmation x.type) (xs ++ ys) ≡ true
unfolding any
any-append_left [] ys h = absurd (false≢true h)
any-append_left (x ∷ xs) ys h = ground (arith, any-append_left xs ys)

-- The verdict after a process that is outranked
abbrev won : State → ProcessModel → Verdict → ProcessType → Verdict
won s proc v type = record v {
  type = type;
  causes = v.causes ++ report proc type (conflicted_with_cycle (name_of s proc.cycle_id));
}

arbitrate-outranks :
    (s : State) (p : ProcessModel) (procs : List ProcessModel) (v v' : Verdict)
    → arbitrate s p procs v ≡ some v'
    → is_force v'.type ≡ true
    → all (outranks s p) procs ≡ true
unfolding arbitrate all winning_type
arbitrate-outranks s p [] v v' e f = refl
arbitrate-outranks s p (proc ∷ procs) v v' e f = ground (
  arith,
  arbitrate-outranks s p procs (won s proc v force) v',
  arbitrate-outranks s p procs (won s proc v confirmation) v',
)

-- A confirmation that was asked for stays asked for.
arbitrate-asks :
    (s : State) (p : ProcessModel) (procs : List ProcessModel) (v v' : Verdict)
    → arbitrate s p procs v ≡ some v'
    → any (λ x. is_confirmation x.type) v.causes ≡ true
    → any (λ x. is_confirmation x.type) v'.causes ≡ true
unfolding arbitrate winning_type
arbitrate-asks s p [] v v' e h = ground arith
arbitrate-asks s p (proc ∷ procs) v v' e h =
    let asked : (more : List Cause) → any (λ x. is_confirmation x.type) (v.causes ++ more) ≡ true =
      λ more. any-append_left v.causes more h in
    ground (
      arith,
      arbitrate-asks s p procs (won s proc v force) v',
      arbitrate-asks s p procs (won s proc v confirmation) v',
      asked (report proc force (conflicted_with_cycle (name_of s proc.cycle_id))),
      asked (report proc confirmation (conflicted_with_cycle (name_of s proc.cycle_id))),
    )

gate-verified :
    (env : Env) (s : State) (p : ProcessModel) (w : Verdict)
    → is_force (conditions_gate env s p w).type ≡ true
    → env.conditions_verified p.cycle_id ≡ true
unfolding conditions_gate
gate-verified env s p w f = ground arith

gate-same :
    (env : Env) (s : State) (p : ProcessModel) (w : Verdict)
    → env.conditions_verified p.cycle_id ≡ true
    → conditions_gate env s p w ≡ w
unfolding conditions_gate
gate-same env s p w h = rw h refl

first_verdict-asks :
    (s : State) (p : ProcessModel) (procs : List ProcessModel)
    → confirms_schedule p ≡ true
    → any (λ x. is_confirmation x.type) (first_verdict s p procs).causes ≡ true
unfolding first_verdict any
first_verdict-asks s p procs h = ground arith

decided : Env → State → ProcessModel → Option Verdict → Option Verdict
decided env s p o = elim o [ none ↦ none | some v ↦ some (conditions_gate env s p v) ]

decided-force :
    (env : Env) (s : State) (p : ProcessModel) (procs : List ProcessModel) (o : Option Verdict)
    (v : Verdict)
    → arbitrate s p procs (first_verdict s p procs) ≡ o
    → decided env s p o ≡ some v
    → is_force v.type ≡ true
    → asks_confirmation v ≡ false
    → (all (outranks s p) procs ≡ true)
      × ((env.conditions_verified p.cycle_id ≡ true) × (confirms_schedule p ≡ false))
unfolding decided asks_confirmation
decided-force env s p procs none v a e f n = absurd (cc)
decided-force env s p procs (some w) v a e f n =
    let gated : conditions_gate env s p w ≡ v = ap (or_else w) e in
    let verified = gate-verified env s p w (ap (λ (x : Verdict). is_force x.type) gated ∙ f) in
    let a' : arbitrate s p procs (first_verdict s p procs) ≡ some v =
      a ∙ ap some (sym (gate-same env s p w verified) ∙ gated) in
    (
      arbitrate-outranks s p procs (first_verdict s p procs) v a' f,
      (
        verified,
        elim (Bool-cases (confirms_schedule p)) [
          | inl c ↦ absurd (
              false≢true (
                sym n
                ∙ arbitrate-asks s p procs (first_verdict s p procs) v a'
                    (first_verdict-asks s p procs c)))
          | inr c ↦ c
        ],
      ),
    )

-- A process that is decided on `FORCE` without a confirmation outranks every process that it
-- conflicts with, the conditions of its cycle are verified, and its schedule asks for no
-- confirmation.
pub decide-force :
    (env : Env) (s : State) (p : ProcessModel) (v : Verdict)
    → decide env s p ≡ some v
    → is_force v.type ≡ true
    → asks_confirmation v ≡ false
    → (all (outranks s p) (conflicted env s p) ≡ true)
      × ((env.conditions_verified p.cycle_id ≡ true) × (confirms_schedule p ≡ false))
unfolding decide decided
decide-force env s p v e f n =
    decided-force env s p (conflicted env s p)
      (arbitrate s p (conflicted env s p) (first_verdict s p (conflicted env s p))) v refl e f n
