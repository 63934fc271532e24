-- ===== src/Triggers/Exclusive.antt =====
-- trigger.service.ts: the checks of one trigger object that are pending at the same time.
use cleveremote_box.Base.{
  get_elem?, count, count-append, ==_iff, Bool-cases, ◌==◌, ℕ, ◌<◌, ◌≡◌, refl, ap, ◌∙◌, inl, inr,
  Bool, true, false, Option, none, some, List, [], ◌∷◌, arith, remove_at, any, if-elim, same_bool,
  ◌++◌,
}
use cleveremote_box.Triggers.Defs.{
  Phase, Service, saved_model, TriggerModel, Check, alloc, evaluating, wait, saving, Element,
  planned, Ref, planning, pausing,
}
use cleveremote_box.Triggers.Service.{
  check_each, put_saved, Sun, schedule_of, on_evaluated, fired, on_planned, on_saved, on_paused,
  value_changed, has_id, set_paused, paused_as, init_trigger, replace_first,
}
use cleveremote_box.Triggers.Spent.{count-remove_at}
use cleveremote_box.Triggers.Objects.{is_pausing}
use cleveremote_box.Triggers.Steps.{
  step, Step, answered, resume, run, element_changed, resume_at, listen_at, pause_call, init_call,
  event_saved,
}
use cleveremote_box.Triggers.Checks.{
  is_check, is_planning, checks, Exclusive, Ends, Timely, wait-Exclusive, alloc-Exclusive,
  put_saved-Exclusive, check_each-Exclusive, release-Exclusive,
}

-- A second entry of the same check, where there is none
again-Exclusive :
    (r : Ref) (c : Check) (s : Service)
    → ((r == c.trigger) ≡ true → count (checks r) s.pending ≡ 0)
    → ((r == c.trigger) ≡ true → (s.heap r).is_check_in_progress ≡ true)
    → Exclusive r s
    → Exclusive r (wait c s)
unfolding wait count
again-Exclusive r c s z g (n, h) = (
  n,
  (let apart = count-append (checks r) s.pending (c ∷ []) in
      elim (Bool-cases (r == c.trigger)) [
        | inl e ↦ (let none_yet = z e in let busy = g e in ground arith)
        | inr e ↦ ground arith
      ]),
)

saved-Exclusive :
    (sun : Sun) (r : Ref) (c : Check) (copy : TriggerModel) (now : ℕ) (s : Service)
    → Exclusive r s
    → Exclusive r (on_saved sun c copy now s)
unfolding on_saved
saved-Exclusive sun r c copy now s h =
    let p = planning (schedule_of sun (saved_model copy) now) in
    let c' : Check = record { trigger = s.next; element = c.element; phase = p } in
    wait-Exclusive r c' (put_saved c.trigger copy s) (let (n, e) = h in ground arith)
      (put_saved-Exclusive r c.trigger copy s h)

-- The call that goes on is the only check of its object, when it is one and once it is taken out, or
-- there is none.
resume-Exclusive :
    (sun : Sun) (r : Ref) (c : Check) (f : Phase) (answer : Option Bool) (now : ℕ) (s : Service)
    → c.phase ≡ f
    → ((r == c.trigger) ≡ true
        → is_pausing f ≡ false
        → is_planning f ≡ false
        → count (checks r) s.pending ≡ 0)
    → ((r == c.trigger) ≡ true → is_check f ≡ true → (s.heap r).is_check_in_progress ≡ true)
    → Exclusive r s
    → Exclusive r (resume sun c f answer now s)
unfolding resume on_evaluated on_planned on_paused
resume-Exclusive sun r c (evaluating date) none now s p z g h = h
resume-Exclusive sun r c (evaluating date) (some true) now s p z g h =
    let c' : Check = record c { phase = saving (fired date (s.heap c.trigger)) } in
    again-Exclusive r c' s (λ e. z e refl refl) (λ e. g e refl) h
resume-Exclusive sun r c (evaluating date) (some false) now s p z g h =
    release-Exclusive r c.trigger now s (λ e. z e refl refl) h
resume-Exclusive sun r c (saving copy) none now s p z g h = h
resume-Exclusive sun r c (planning x) none now s p z g h = h
resume-Exclusive sun r c planned none now s p z g h = h
resume-Exclusive sun r c (pausing copy) none now s p z g h = h
resume-Exclusive sun r c (saving copy) (some b) now s p z g h = saved-Exclusive sun r c copy now s h
resume-Exclusive sun r c (planning x) (some b) now s p z g h =
    wait-Exclusive r (record c { phase = planned }) (record s { schedules = x ∷ s.schedules })
      (ground arith) h
resume-Exclusive sun r c planned (some b) now s p z g h =
    release-Exclusive r c.trigger now s (λ e. z e refl refl) h
resume-Exclusive sun r c (pausing copy) (some b) now s p z g h =
    put_saved-Exclusive r c.trigger copy s h

-- What is left when the i-th call goes on
rest_of :
    (r : Ref) (i : ℕ) (c : Check) (s : Service)
    → get_elem? s.pending i ≡ some c
    → Exclusive r s
    → Exclusive r (record s { pending = remove_at i s.pending })
      × (((r == c.trigger) ≡ true
            → is_check c.phase ≡ true
            → count (checks r) (remove_at i s.pending) ≡ 0)
          × ((r == c.trigger) ≡ true
              → is_check c.phase ≡ true
              → (s.heap r).is_check_in_progress ≡ true))
rest_of r i c s e (n, h) =
    let split = count-remove_at (checks r) i s.pending e in
    ((n, ground arith), ((λ x y. ground arith), (λ x y. ground arith)))

resume_at-Exclusive :
    (sun : Sun) (r : Ref) (i : ℕ) (o : Option Check) (answer : Option Bool) (now : ℕ) (s : Service)
    → get_elem? s.pending i ≡ o
    → ((c : Check) → o ≡ some c → c.phase ≡ planned → count (checks c.trigger) s.pending ≡ 0)
    → Exclusive r s
    → Exclusive r (resume_at sun i o answer now s)
unfolding resume_at
resume_at-Exclusive sun r i none answer now s e t h = h
resume_at-Exclusive sun r i (some c) answer now s e t h =
    let (kept, (taken, busy)) = rest_of r i c s e h in
    resume-Exclusive sun r c c.phase answer now (record s { pending = remove_at i s.pending }) refl
      (alone c.phase refl taken) busy kept
  where
    fewer :
        (r == c.trigger) ≡ true
        → count (checks c.trigger) s.pending ≡ 0
        → count (checks r) (remove_at i s.pending) ≡ 0
    fewer x z =
        let here : r ≡ c.trigger = (==_iff r c.trigger).0 x in
        let z' : count (checks r) s.pending ≡ 0 =
          ap (λ (x : Ref). count (checks x) s.pending) here ∙ z in
        let split = count-remove_at (checks r) i s.pending e in ground arith

    alone :
        (f : Phase)
        → c.phase ≡ f
        → ((r == c.trigger) ≡ true
            → is_check f ≡ true
            → count (checks r) (remove_at i s.pending) ≡ 0)
        → (r == c.trigger) ≡ true
        → is_pausing f ≡ false
        → is_planning f ≡ false
        → count (checks r) (remove_at i s.pending) ≡ 0
    alone (evaluating date) p k x y z = k x refl
    alone (saving copy) p k x y z = k x refl
    alone (planning q) p k x y z = absurd (cc)
    alone planned p k x y z = fewer x (t c refl p)
    alone (pausing copy) p k x y z = absurd (cc)

listen_at-Exclusive :
    (r : Ref) (i : ℕ) (o : Option (List Ref × Element)) (good : Bool) (now : ℕ) (s : Service)
    → Exclusive r s
    → Exclusive r (listen_at i o good now s)
unfolding listen_at
listen_at-Exclusive r i none good now s h = h
listen_at-Exclusive r i (some (rs, element)) good now s h =
    let rest = record s { listening = remove_at i s.listening } in
    if-elim (Exclusive r) good (check_each rs element now rest) rest
      (λ _. check_each-Exclusive r rs element now rest h) (λ _. h)

init-Exclusive :
    (r : Ref) (t : TriggerModel) (b : Bool) (s : Service)
    → Exclusive r s
    → Exclusive r (init_trigger t b s)
unfolding init_trigger
init-Exclusive r t true s h = alloc-Exclusive r t s h
init-Exclusive r t false s h =
    let made = alloc t s in
    if-elim (Exclusive r) (any (has_id s t.id) s.triggers)
      (record made { triggers = replace_first (has_id s t.id) s.next s.triggers })
      (record made { triggers = s.triggers ++ s.next ∷ [] }) (λ _. alloc-Exclusive r t s h)
      (λ _. alloc-Exclusive r t s h)

set_paused-Exclusive :
    (r r' : Ref) (b : Bool) (s : Service) → Exclusive r s → Exclusive r (set_paused r' b s)
unfolding set_paused
set_paused-Exclusive r r' b s h =
    let c : Check = record {
      trigger = r';
      element = record { id = 0; value = 0 };
      phase = pausing (paused_as b (s.heap r'));
    } in
    if-elim (Exclusive r) (same_bool (s.heap r').is_paused b) s (wait c s) (λ _. h)
      (λ _. wait-Exclusive r c s (ground arith) h)

step-Exclusive :
    (sun : Sun) (r : Ref) (x : Step) (s : Service)
    → Ends s x
    → Exclusive r s
    → Exclusive r (step sun x s)
unfolding step value_changed
step-Exclusive sun r (init_call t b) s t' h = init-Exclusive r t b s h
step-Exclusive sun r (pause_call r' b) s t' h = set_paused-Exclusive r r' b s h
step-Exclusive sun r (element_changed element) s t' h = h
step-Exclusive sun r (event_saved i good now) s t' h =
    listen_at-Exclusive r i (get_elem? s.listening i) good now s h
step-Exclusive sun r (answered i answer now) s t' h =
    resume_at-Exclusive sun r i (get_elem? s.pending i) answer now s refl t' h

steps-Exclusive :
    (sun : Sun) (r : Ref) (xs : List Step) (s : Service)
    → Timely sun xs s
    → Exclusive r s
    → Exclusive r (run sun xs s)
unfolding run
steps-Exclusive sun r [] s t h = h
steps-Exclusive sun r (x ∷ xs) s (e, t) h =
    steps-Exclusive sun r xs (step sun x s) t (step-Exclusive sun r x s e h)

-- Whatever is called, whatever changes and in whichever order the awaited calls end: when no check of
-- an object is pending at first, and each planned execution ends at a moment when no check of its
-- trigger's object is pending, then at most one check of the object is pending, and only while it is
-- in progress.
pub run-Exclusive :
    (sun : Sun) (r : Ref) (xs : List Step) (s : Service)
    → r < s.next
    → count (checks r) s.pending ≡ 0
    → Timely sun xs s
    → Exclusive r (run sun xs s)
run-Exclusive sun r xs s n z t = steps-Exclusive sun r xs s t (n, ground arith)
