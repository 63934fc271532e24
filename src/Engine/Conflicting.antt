-- ===== src/Engine/Conflicting.antt =====
-- The search of `_getConflictedExecutables` in execution.service.ts.
use cleveremote_box.Base.{
  any, ◌==◌, if◌then◌else◌, ℕ, ◌≡◌, refl, Bool, false, ◌&&◌, ◌||◌, not, List, [], ◌∷◌, ◌++◌, arith,
}
use cleveremote_box.Domain.{ActuatorModel}
use cleveremote_box.Domain.Cycle.{Registry}
use cleveremote_box.Engine.Conflicts.{
  conflicted, Env, is_conflicting, conflicts_from, resolve_actuators, modules_of, conflicts_over,
}
use cleveremote_box.Engine.State.{ProcessModel, State}
use cleveremote_box.Groups.Links.{found}

-- An entry of the process list for this cycle
abbrev pub is_for : ℕ → ProcessModel → Bool
is_for id proc = proc.cycle_id == id

any-snoc :
    (id : ℕ) (found : List ProcessModel) (proc : ProcessModel)
    → any (is_for id) (found ++ proc ∷ []) ≡ (any (is_for id) found || is_for id proc)
unfolding any
any-snoc id [] proc = ground arith
any-snoc id (x ∷ found) proc = ground (arith, any-snoc id found proc)

any-or :
    (c x y : ProcessModel → Bool) (procs : List ProcessModel)
    → any (λ q. c q && (x q || y q)) procs
      ≡ (any (λ q. c q && x q) procs || any (λ q. c q && y q) procs)
unfolding any
any-or c x y [] = refl
any-or c x y (q ∷ procs) = ground (arith, any-or c x y procs)

any-none :
    (c : ProcessModel → Bool) (procs : List ProcessModel) → any (λ q. c q && false) procs ≡ false
unfolding any
any-none c [] = refl
any-none c (q ∷ procs) = ground (arith, any-none c procs)

-- One process is added at most once.
added :
    (id : ℕ) (b : Bool) (found : List ProcessModel) (proc : ProcessModel)
    → any
        (is_for id)
        (if b && not (any (is_for proc.cycle_id) found) then found ++ proc ∷ [] else found)
      ≡ (any (is_for id) found || (is_for id proc && b))
added id b found proc = ground (arith, any-snoc id found proc, any-snoc proc.cycle_id found proc)

module _ (registry : Registry) (s : State) (p : ProcessModel) where
  conflicts_over-any :
      (id : ℕ) (a : ActuatorModel) (procs found : List ProcessModel)
      → any (is_for id) (conflicts_over registry s p a procs found)
        ≡ (any (is_for id) found || any (λ q. is_for id q && is_conflicting registry s p a q) procs)
  unfolding conflicts_over any
  conflicts_over-any id a [] found = ground arith
  conflicts_over-any id a (q ∷ procs) found = ground (
    arith,
    conflicts_over-any id a procs (
        if is_conflicting registry s p a q && not (any (is_for q.cycle_id) found)
        then found ++ q ∷ []
        else found),
    added id (is_conflicting registry s p a q) found q,
  )

  conflicts_from-any :
      (id : ℕ) (actuators : List ActuatorModel) (found : List ProcessModel)
      → any (is_for id) (conflicts_from registry s p actuators found) ≡ (
          any (is_for id) found
          || any
              (λ q. is_for id q && any (λ a. is_conflicting registry s p a q) actuators)
              s.process_list)
  unfolding conflicts_from any
  conflicts_from-any id [] found = ground (arith, any-none (is_for id) s.process_list)
  conflicts_from-any id (a ∷ actuators) found = ground (
    arith,
    conflicts_from-any id actuators (conflicts_over registry s p a s.process_list found),
    conflicts_over-any id a s.process_list found,
    any-or (is_for id) (is_conflicting registry s p a)
        (λ q. any (λ a. is_conflicting registry s p a q) actuators) s.process_list,
  )

-- The conflicting processes are of exactly those cycles that have an entry of the process list
-- which conflicts over some actuator of the cycle that is to start.
pub conflicted-any :
    (env : Env) (s : State) (p : ProcessModel) (id : ℕ)
    → any (is_for id) (conflicted env s p)
      ≡ any
          (λ q.
            is_for id q
            && any
                (λ a. is_conflicting (resolve_actuators env s) s p a q)
                (modules_of (resolve_actuators env s) s p.cycle_id))
          s.process_list
unfolding conflicted any
conflicted-any env s p id =
    conflicts_from-any (resolve_actuators env s) s p id
      (modules_of (resolve_actuators env s) s p.cycle_id) []
