-- ===== src/Engine/Settling.antt =====
-- How a stop of execution.service.ts ends, and the number of cycles that run.
use cleveremote_box.Base.{
  ◌⊎◌, subst, if◌then◌else◌, Bool, count, All, count_mono, any, count-strict, ◌==◌, ==_refl, ==_iff,
  Bool-cases, ℕ, ◌≤◌, ◌<◌, ◌≡◌, refl, sym, ap, ◌∙◌, inl, inr, true, false, ◌&&◌, not, List, [], ◌∷◌,
  arith, false≢true,
}
use cleveremote_box.Engine.Awaits.{awaited}
use cleveremote_box.Engine.Conflicts.{Env}
use cleveremote_box.Engine.Outcome.{done, thrown, database_error, for_each, Outcome, ◌>>=◌}
use cleveremote_box.Engine.Quiet.Defs.{Quiet, running, Quieter-refl, Quieter, Quieter-trans}
use cleveremote_box.Engine.State.{State}

-- A call of the database that a stop awaits fails, at some state.
abbrev pub Fails : Env → Type 0
Fails env =
    ((s : State) × (env.resolves s ≡ false))
    ⊎ (((s : State) × (env.saves s ≡ false))
        ⊎ ((i : ℕ) × ((s : State) × (env.fetches i s ≡ false))))

-- How a handler ends at a state: done, or by the rejection of a call that can fail
abbrev pub EndsAt : Env → Outcome → State → Type 0
EndsAt env o t = (o ≡ done t) ⊎ ((o ≡ thrown database_error t) × Fails env)

-- An outcome with a state at its end, of which the stop was quiet
unfoldable pub Settled : Env → State → Outcome → Type 0
Settled env s o = (t : State) × (EndsAt env o t × Quieter s t)

pub Settled-done : (env : Env) {s t : State} → Quieter s t → Settled env s (done t)
unfolding Settled
Settled-done env {s} {t} q = (t, (inl refl, q))

pub Settled-trans :
    (env : Env) {s t : State} (o : Outcome) → Quieter s t → Settled env t o → Settled env s o
unfolding Settled
Settled-trans env o q (u, (e, r)) = (u, (e, Quieter-trans q r))

pub Settled->>= :
    (env : Env) {s : State} (o : Outcome) (f : State → Outcome)
    → Settled env s o
    → ((t : State) → Quieter s t → Settled env t (f t))
    → Settled env s (o >>= f)
unfolding Settled ◌>>=◌
Settled->>= env o f (t, (inl e, q)) k =
    let (u, (e', r)) = k t q in
    (
      u,
      (
        elim e' [
          | inl d ↦ inl (ap (λ o. o >>= f) e ∙ d)
          | inr (x, w) ↦ inr (ap (λ o. o >>= f) e ∙ x, w)
        ],
        Quieter-trans q r,
      ),
    )
Settled->>= env o f (t, (inr (e, w), q)) k = (t, (inr (ap (λ o. o >>= f) e, w), q))

pub Settled-if :
    (env : Env) (b : Bool) (s : State) (o o' : Outcome)
    → Settled env s o
    → Settled env s o'
    → Settled env s (if b then o else o')
Settled-if env true s o o' p q = p
Settled-if env false s o o' p q = q

pub Settled-awaited :
    (env : Env) (b : Bool) (s : State) (k : State → Outcome)
    → (b ≡ false → Fails env)
    → Settled env s (k s)
    → Settled env s (awaited b s k)
unfolding Settled
Settled-awaited env true s k w q = q
Settled-awaited env false s k w q = (s, (inr (refl, w refl), Quieter-refl s))

-- A stop that settles was quiet.
pub Settled-Quiet : (env : Env) (s : State) (o : Outcome) → Settled env s o → Quiet s o
unfolding Settled Quiet
Settled-Quiet env s o (t, (inl e, q)) = subst (Quiet s) (sym e) q
Settled-Quiet env s o (t, (inr (e, w), q)) = subst (Quiet s) (sym e) q

-- A loop whose every call settles at any quieter state
pub Settled-for_each {ℓ} :
    {A : Type ℓ} (env : Env) (s : State) (f : A → State → Outcome) (xs : List A) (t : State)
    → Quieter s t
    → All (λ x. (u : State) → Quieter s u → Settled env u (f x u)) xs
    → Settled env t (for_each f xs t)
unfolding for_each
Settled-for_each env s f [] t q h = Settled-done env (Quieter-refl t)
Settled-for_each env s f (x ∷ xs) t q h =
    Settled->>= env (f x t) (for_each f xs) (h.0 t q)
      (λ u r. Settled-for_each env s f xs u (Quieter-trans q r) h.1)

-- Among the identifiers of a list: how many cycles run, and how many run beside one of them
abbrev pub runners : List ℕ → State → ℕ
runners ids s = count (running s) ids

abbrev pub others : List ℕ → State → ℕ → ℕ
others ids s id = count (λ i. running s i && not (i == id)) ids

abbrev pub Covers : List ℕ → State → Type 0
Covers ids s = (id : ℕ) → running s id ≡ true → any (λ i. i == id) ids ≡ true

pub Covers-Quieter : (ids : List ℕ) {s t : State} → Quieter s t → Covers ids s → Covers ids t
Covers-Quieter ids q c id h = c id (q.still id h)

pub runners-marked :
    (ids : List ℕ) (s m : State) (id : ℕ)
    → Quieter s m
    → running m id ≡ false
    → runners ids m ≤ others ids s id
runners-marked ids s m id q h =
    count_mono (running m) (λ i. running s i && not (i == id)) ids beside
  where
    beside : (i : ℕ) → running m i ≡ true → (running s i && not (i == id)) ≡ true
    beside i r = elim (Bool-cases (i == id)) [
      | inl e ↦ absurd (false≢true (sym h ∙ ap (running m) (sym ((==_iff i id).0 e)) ∙ r))
      | inr e ↦ rw (q.still i r, e) refl
    ]

pub others-runners :
    (ids : List ℕ) (m t : State) (id : ℕ)
    → Quieter m t
    → running m id ≡ true
    → Covers ids m
    → others ids t id < runners ids m
others-runners ids m t id q h c =
    count-strict (λ i. running t i && not (i == id)) (running m) id ids fewer itself h (c id h)
  where
    fewer : (i : ℕ) → (running t i && not (i == id)) ≡ true → running m i ≡ true
    fewer i r = q.still i (ground arith)

    itself : (running t id && not (id == id)) ≡ false
    itself = rw (==_refl id) (ground arith)

pub others-Quieter :
    (ids : List ℕ) (s t : State) (id : ℕ) → Quieter s t → others ids t id ≤ others ids s id
others-Quieter ids s t id q =
    count_mono (λ i. running t i && not (i == id)) (λ i. running s i && not (i == id)) ids
      (λ i r. ground (arith, q.still i))
