-- ===== src/Triggers/Spent.antt =====
-- trigger.service.ts: the object of a trigger after a check of it was verified.
use cleveremote_box.Base.{
  count, ◌==◌, if◌then◌else◌, ℕ, ◌<◌, ◌≡◌, refl, ap, ◌∙◌, Bool, true, false, [], ◌∷◌, arith,
  remove_at, get_elem?, or_else, if-elim, zero, suc, Option, none, some, List, any, ◌++◌, same_bool,
}
use cleveremote_box.Triggers.Defs.{
  Phase, Service, TriggerModel, Check, alloc, Ref, pausing, wait, Element, evaluating, planning,
  planned, saving,
}
use cleveremote_box.Triggers.Service.{
  Sun, check_each, value_changed, set_paused, on_evaluated, fired, replace_first, on_planned,
  on_paused, paused_as, init_trigger, has_id,
}
use cleveremote_box.Triggers.Steps.{
  resume, step, Step, run, answered, resume_at, listen_at, event_saved, init_call, pause_call,
  element_changed,
}
use cleveremote_box.Triggers.Objects.{
  is_pausing, holds, Spent, wait-Spent, alloc-Spent, release-Spent, check_each-Spent,
  put_saved-Spent, saved-Spent,
}

-- Removing a pending call of another object
pub count-remove_at :
    {A : Type 0} (p : A → Bool) (i : ℕ) (xs : List A) {x : A}
    → get_elem? xs i ≡ some x
    → count p xs ≡ (if p x then suc (count p (remove_at i xs)) else count p (remove_at i xs))
unfolding count remove_at
count-remove_at p i [] e = absurd (cc)
count-remove_at p zero (y ∷ ys) {x} e =
    (let same_entry : y ≡ x = ap (or_else x) e in
      ap (λ a. if p a then suc (count p ys) else count p ys) same_entry)
count-remove_at p (suc i) (y ∷ ys) {x} e = ground (arith, count-remove_at p i ys {x = x} e)

-- A call that is none of `setPaused` is one of another object.
free_of :
    (r : Ref) (c : Check) {f : Phase}
    → c.phase ≡ f
    → is_pausing f ≡ false
    → holds r c ≡ false
    → (r == c.trigger) ≡ false
free_of r c p q e = let runs : is_pausing c.phase ≡ false = ap is_pausing p ∙ q in ground arith

-- The call that goes on is one of another object, or of `setPaused`.
resume-Spent :
    (sun : Sun) (r : Ref) (c : Check) (f : Phase) (answer : Option Bool) (now : ℕ) (s : Service)
    → c.phase ≡ f
    → holds r c ≡ false
    → Spent r s
    → Spent r (resume sun c f answer now s)
unfolding resume on_evaluated on_planned on_paused
resume-Spent sun r c (evaluating date) none now s p e h = h
resume-Spent sun r c (evaluating date) (some true) now s p e h =
    let c' : Check = record c { phase = saving (fired date (s.heap c.trigger)) } in
    wait-Spent r c' s (let q = free_of r c p refl e in ground arith) h
resume-Spent sun r c (evaluating date) (some false) now s p e h =
    release-Spent r c.trigger now s (free_of r c p refl e) h
resume-Spent sun r c (saving copy) none now s p e h = h
resume-Spent sun r c (planning x) none now s p e h = h
resume-Spent sun r c planned none now s p e h = h
resume-Spent sun r c (pausing copy) none now s p e h = h
resume-Spent sun r c (saving copy) (some b) now s p e h = saved-Spent sun r c copy now s h
resume-Spent sun r c (planning x) (some b) now s p e h =
    wait-Spent r (record c { phase = planned }) (record s { schedules = x ∷ s.schedules })
      (let q = free_of r c p refl e in ground arith) h
resume-Spent sun r c planned (some b) now s p e h =
    release-Spent r c.trigger now s (free_of r c p refl e) h
resume-Spent sun r c (pausing copy) (some b) now s p e h = put_saved-Spent r c.trigger copy s h

remaining :
    (r : Ref) (i : ℕ) (c : Check) (s : Service)
    → get_elem? s.pending i ≡ some c
    → count (holds r) s.pending ≡ 0
    → (holds r c ≡ false) × (count (holds r) (remove_at i s.pending) ≡ 0)
remaining r i c s e z =
    (let split = count-remove_at (holds r) i s.pending e in (ground arith, ground arith))

resume_at-Spent :
    (sun : Sun) (r : Ref) (i : ℕ) (o : Option Check) (answer : Option Bool) (now : ℕ) (s : Service)
    → get_elem? s.pending i ≡ o
    → Spent r s
    → Spent r (resume_at sun i o answer now s)
unfolding resume_at
resume_at-Spent sun r i none answer now s e h = h
resume_at-Spent sun r i (some c) answer now s e (f, n, z) =
    let (out, rest) = remaining r i c s e z in
    resume-Spent sun r c c.phase answer now (record s { pending = remove_at i s.pending }) refl out
      (f, n, rest)

listen_at-Spent :
    (r : Ref) (i : ℕ) (o : Option (List Ref × Element)) (good : Bool) (now : ℕ) (s : Service)
    → Spent r s
    → Spent r (listen_at i o good now s)
unfolding listen_at
listen_at-Spent r i none good now s h = h
listen_at-Spent r i (some (rs, element)) good now s h =
    let rest = record s { listening = remove_at i s.listening } in
    if-elim (Spent r) good (check_each rs element now rest) rest
      (λ _. check_each-Spent r rs element now rest h) (λ _. h)

init-Spent :
    (r : Ref) (t : TriggerModel) (b : Bool) (s : Service) → Spent r s → Spent r (init_trigger t b s)
unfolding init_trigger
init-Spent r t true s h = alloc-Spent r t s h
init-Spent r t false s h =
    let made = alloc t s in
    if-elim (Spent r) (any (has_id s t.id) s.triggers)
      (record made { triggers = replace_first (has_id s t.id) s.next s.triggers })
      (record made { triggers = s.triggers ++ s.next ∷ [] }) (λ _. alloc-Spent r t s h)
      (λ _. alloc-Spent r t s h)

set_paused-Spent : (r r' : Ref) (b : Bool) (s : Service) → Spent r s → Spent r (set_paused r' b s)
unfolding set_paused
set_paused-Spent r r' b s h =
    let c : Check = record {
      trigger = r';
      element = record { id = 0; value = 0 };
      phase = pausing (paused_as b (s.heap r'));
    } in
    if-elim (Spent r) (same_bool (s.heap r').is_paused b) s (wait c s) (λ _. h)
      (λ _. wait-Spent r c s (ground arith) h)

step-Spent : (sun : Sun) (r : Ref) (x : Step) (s : Service) → Spent r s → Spent r (step sun x s)
unfolding step value_changed
step-Spent sun r (init_call t b) s h = init-Spent r t b s h
step-Spent sun r (pause_call r' b) s h = set_paused-Spent r r' b s h
step-Spent sun r (element_changed element) s h = h
step-Spent sun r (event_saved i good now) s h =
    listen_at-Spent r i (get_elem? s.listening i) good now s h
step-Spent sun r (answered i answer now) s h =
    resume_at-Spent sun r i (get_elem? s.pending i) answer now s refl h

run-Spent :
    (sun : Sun) (r : Ref) (xs : List Step) (s : Service) → Spent r s → Spent r (run sun xs s)
unfolding run
run-Spent sun r [] s h = h
run-Spent sun r (x ∷ xs) s h = run-Spent sun r xs (step sun x s) (step-Spent sun r x s h)

-- When the only pending call of an object in progress is the save of its verified copy, and the save
-- succeeds, the object stays in progress whatever happens afterwards, and is never evaluated again.
pub run-verified :
    (sun : Sun) (r : Ref) (i : ℕ) (c : Check) (copy : TriggerModel) (b : Bool) (now : ℕ)
    (xs : List Step) (s : Service)
    → get_elem? s.pending i ≡ some c
    → c.trigger ≡ r
    → c.phase ≡ saving copy
    → (s.heap r).is_check_in_progress ≡ true
    → r < s.next
    → count (holds r) s.pending ≡ 1
    → Spent r (run sun xs (step sun (answered i (some b) now) s))
unfolding step resume_at resume
run-verified sun r i c copy b now xs s e t p f n z =
    run-Spent sun r xs (step sun (answered i (some b) now) s)
      (rw (e, p) (saved-Spent sun r c copy now rest (f, n, alone)))
  where
    rest : Service
    rest = record s { pending = remove_at i s.pending }

    mine : holds r c ≡ true
    mine = ground arith

    alone : count (holds r) (remove_at i s.pending) ≡ 0
    alone = let split = count-remove_at (holds r) i s.pending e in ground arith
