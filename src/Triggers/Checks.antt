-- ===== src/Triggers/Checks.antt =====
-- trigger.service.ts: the pending checks of one trigger object over each operation of the service.
use cleveremote_box.Base.{
  get_elem?, find, count, count-append, ==_iff, Bool-cases, if◌then◌else◌, ◌==◌, ℕ, ◌≤◌, ◌<◌, ◌≡◌,
  refl, sym, ap, ◌∙◌, subst, inl, inr, Bool, true, false, ◌&&◌, Option, none, some, List, [], ◌∷◌,
  arith,
}
use cleveremote_box.Triggers.Defs.{
  Phase, put, Service, saved_model, TriggerModel, Check, alloc, in_progress, evaluating, wait,
  saving, Element, planned, Ref, mark, planning,
}
use cleveremote_box.Triggers.Service.{
  queued, drop_first, check_trigger_conditions, check_each, release, put_saved, Sun, begin_check,
  process_queue_check_in_progress, dequeue_at,
}
use cleveremote_box.Triggers.Objects.{mark_at, check-elim, enqueue-elim, put_at}
use cleveremote_box.Triggers.Steps.{step, Step, answered}

abbrev pub is_check : Phase → Bool
is_check (evaluating date) = true
is_check (saving copy) = true
is_check _ = false

abbrev pub is_planning : Phase → Bool
is_planning (planning p) = true
is_planning _ = false

-- A check of this object, from the evaluation to the end of the save
abbrev pub checks : Ref → Check → Bool
checks r c = c.trigger == r && is_check c.phase

abbrev pub Exclusive : Ref → Service → Type 0
Exclusive r s =
    (r < s.next) × (count (checks r) s.pending ≤ (if (s.heap r).is_check_in_progress then 1 else 0))

-- A planned execution ends when no check of its trigger object is pending.
abbrev pub Ends : Service → Step → Type 0
Ends s (answered i answer now) =
    (c : Check)
    → get_elem? s.pending i ≡ some c
    → c.phase ≡ planned
    → count (checks c.trigger) s.pending ≡ 0
Ends s _ = Unit

abbrev pub Timely : Sun → List Step → Service → Type 0
Timely sun [] s = Unit
Timely sun (x ∷ xs) s = Ends s x × Timely sun xs (step sun x s)

pub wait-Exclusive :
    (r : Ref) (c : Check) (s : Service)
    → checks r c ≡ false
    → Exclusive r s
    → Exclusive r (wait c s)
unfolding wait count
wait-Exclusive r c s h (n, p) =
    (n, (let apart = count-append (checks r) s.pending (c ∷ []) in ground arith))

pub alloc-Exclusive :
    (r : Ref) (t : TriggerModel) (s : Service) → Exclusive r s → Exclusive r (alloc t s)
unfolding alloc
alloc-Exclusive r t s (n, p) =
    let kept = ap (λ (t : TriggerModel). t.is_check_in_progress) (put_at s.heap s.next r t n) in
    (
      omega arith,
      subst (λ (b : Bool). count (checks r) s.pending ≤ (if b then 1 else 0)) (sym kept) p,
    )

pub put_saved-Exclusive :
    (r r' : Ref) (copy : TriggerModel) (s : Service)
    → Exclusive r s
    → Exclusive r (put_saved r' copy s)
unfolding put_saved
put_saved-Exclusive r r' copy s h = alloc-Exclusive r (saved_model copy) s h

mark-Exclusive :
    (r r' : Ref) (b : Bool) (s : Service)
    → ((r == r') ≡ true → b ≡ false → count (checks r) s.pending ≡ 0)
    → Exclusive r s
    → Exclusive r (mark r' b s)
mark-Exclusive r r' b s h (n, p) = (unfold mark in n, bound (unfold mark in refl))
  where
    below :
        (b : Bool)
        → ((r == r') ≡ true → b ≡ false → count (checks r) s.pending ≡ 0)
        → count (checks r) s.pending
          ≤ (if if r == r' then b else (s.heap r).is_check_in_progress then 1 else 0)
    below b h = ground (arith, h)

    bound :
        (mark r' b s).pending ≡ s.pending
        → count (checks r) (mark r' b s).pending
          ≤ (if ((mark r' b s).heap r).is_check_in_progress then 1 else 0)
    bound e = let at = mark_at r r' b s in rw (e, at) (below b h)

begin-Exclusive :
    (r r' : Ref) (element : Element) (now : ℕ) (s : Service)
    → (s.heap r').is_check_in_progress ≡ false
    → Exclusive r s
    → Exclusive r (begin_check r' element now s)
unfolding begin_check wait mark put in_progress count
begin-Exclusive r r' element now s g (n, p) =
    let c : Check = record { trigger = r'; element = element; phase = evaluating now } in
    (
      n,
      (let apart = count-append (checks r) s.pending (c ∷ []) in
          elim (Bool-cases (r == r')) [
            | inl e ↦
                let here : r ≡ r' = (==_iff r r').0 e in
                let idle : (s.heap r).is_check_in_progress ≡ false =
                  ap (λ (x : Ref). (s.heap x).is_check_in_progress) here ∙ g in
                ground arith
            | inr e ↦ ground arith
          ]),
    )

check-Exclusive :
    (r r' : Ref) (element : Element) (now : ℕ) (s : Service)
    → Exclusive r s
    → Exclusive r (check_trigger_conditions r' element now s)
check-Exclusive r r' element now s h =
    check-elim (Exclusive r) r' element now s h (enqueue-elim (Exclusive r) r' element s h h)
      (λ g. begin-Exclusive r r' element now s g h)

pub check_each-Exclusive :
    (r : Ref) (rs : List Ref) (element : Element) (now : ℕ) (s : Service)
    → Exclusive r s
    → Exclusive r (check_each rs element now s)
unfolding check_each
check_each-Exclusive r [] element now s h = h
check_each-Exclusive r (r' ∷ rs) element now s h =
    check_each-Exclusive r rs element now (check_trigger_conditions r' element now s)
      (check-Exclusive r r' element now s h)

dequeue-Exclusive :
    (r : Ref) (o : Option (Ref × Element)) (i now : ℕ) (s : Service)
    → Exclusive r s
    → Exclusive r (dequeue_at o i now s)
unfolding dequeue_at
dequeue-Exclusive r none i now s h = h
dequeue-Exclusive r (some (r', element)) i now s h =
    check-Exclusive r r' element now
      (record s { trigger_check_queue = drop_first (queued s i) s.trigger_check_queue }) h

pub release-Exclusive :
    (r r' : Ref) (now : ℕ) (s : Service)
    → ((r == r') ≡ true → count (checks r) s.pending ≡ 0)
    → Exclusive r s
    → Exclusive r (release r' now s)
unfolding release process_queue_check_in_progress
release-Exclusive r r' now s z h =
    let freed = mark r' false s in
    let i = (freed.heap r').id in
    dequeue-Exclusive r (find (queued freed i) freed.trigger_check_queue) i now freed
      (mark-Exclusive r r' false s (λ e _. z e) h)
