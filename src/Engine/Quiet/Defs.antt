-- ===== src/Engine/Quiet/Defs.antt =====
-- The relation between the states before and after a stop of execution.service.ts, and its composition.
use cleveremote_box.Base.{ℕ, ◌≡◌, refl, ◌∙◌, Bool, true, false, List, [], ◌∷◌, if◌then◌else◌}
use cleveremote_box.Domain.{is_in_proccess, off}
use cleveremote_box.Engine.Conflicts.{is_running}
use cleveremote_box.Engine.Outcome.{thrown, Outcome, done, ◌>>=◌, out_of_fuel, for_each}
use cleveremote_box.Engine.State.{
  Effect, cycle_is, value_changed, com_executed, published, actuated, State,
}

-- An effect that switches nothing on
abbrev pub IsOff : Effect → Type 0
IsOff (actuated a n) = n ≡ 0
IsOff (com_executed i action) = action ≡ off
IsOff (published e) = is_in_proccess e.status ≡ false
IsOff (value_changed i status) = is_in_proccess status ≡ false

abbrev pub running : State → ℕ → Bool
running s id = cycle_is is_running s id

-- The effects of the second state are those of the first, after some that switch nothing on.
pub data Extends (old : List Effect) : List Effect → Type 0 where
  same : Extends old old
  more : {new : List Effect} (e : Effect) → IsOff e → Extends old new → Extends old (e ∷ new)

pub record Quieter (s s' : State) : Type 0 where
  pub still : (id : ℕ) → running s' id ≡ true → running s id ≡ true
  pub switched : Extends s.effects s'.effects
  pub created : s'.next_id ≡ s.next_id

-- Of an outcome: also when an exception ends the handler
unfoldable pub Quiet : State → Outcome → Type 0
Quiet s (done s') = Quieter s s'
Quiet s (thrown e s') = Quieter s s'
Quiet s out_of_fuel = Unit {0}

pub Extends-trans : {a b c : List Effect} → Extends a b → Extends b c → Extends a c
Extends-trans p same = p
Extends-trans p (more e o q) = more e o (Extends-trans p q)

pub Quieter-refl : (s : State) → Quieter s s
Quieter-refl s = record { still = λ id h. h; switched = same; created = refl }

pub Quieter-trans : {s t u : State} → Quieter s t → Quieter t u → Quieter s u
Quieter-trans p q = record {
  still = λ id h. p.still id (q.still id h);
  switched = Extends-trans p.switched q.switched;
  created = q.created ∙ p.created;
}

pub Quiet-done : {s t : State} → Quieter s t → Quiet s (done t)
unfolding Quiet
Quiet-done q = q

pub Quiet-if :
    (b : Bool) (s : State) (o o' : Outcome) → Quiet s o → Quiet s o' → Quiet s (if b then o else o')
Quiet-if true s o o' p q = p
Quiet-if false s o o' p q = q

-- A branch may use its test.
pub Quiet-when :
    (b : Bool) (s : State) (o o' : Outcome)
    → (b ≡ true → Quiet s o)
    → (b ≡ false → Quiet s o')
    → Quiet s (if b then o else o')
Quiet-when true s o o' p q = p refl
Quiet-when false s o o' p q = q refl

pub Quiet-trans : {s t : State} → Quieter s t → (o : Outcome) → Quiet t o → Quiet s o
unfolding Quiet
Quiet-trans p (done u) q = Quieter-trans p q
Quiet-trans p (thrown e u) q = Quieter-trans p q
Quiet-trans p out_of_fuel q = tt

pub Quiet->>= :
    (s : State) (o : Outcome) (f : State → Outcome)
    → Quiet s o
    → ((t : State) → Quiet t (f t))
    → Quiet s (o >>= f)
unfolding Quiet ◌>>=◌
Quiet->>= s (done t) f p q = Quiet-trans p (f t) (q t)
Quiet->>= s (thrown e t) f p q = p
Quiet->>= s out_of_fuel f p q = tt

pub Quiet-for_each {ℓ} :
    {A : Type ℓ} (f : A → State → Outcome) (xs : List A) (s : State)
    → ((x : A) (t : State) → Quiet t (f x t))
    → Quiet s (for_each f xs s)
unfolding for_each
Quiet-for_each f [] s q = Quiet-done (Quieter-refl s)
Quiet-for_each f (x ∷ xs) s q =
    Quiet->>= s (f x s) (for_each f xs) (q x s) (λ t. Quiet-for_each f xs t q)
