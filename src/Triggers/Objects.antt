-- ===== src/Triggers/Objects.antt =====
-- trigger.service.ts: a trigger object over each operation of the service, after a check of it was
-- verified.
use cleveremote_box.Base.{
  count, count-append, ◌==◌, Bool-cases, if◌then◌else◌, ℕ, ◌<◌, ◌≡◌, refl, ap, ◌∙◌, inl, inr, Bool,
  true, false, ◌&&◌, not, [], ◌∷◌, arith, find, if-elim, ==_iff, sym, Option, none, some, List,
  false≢true, any, ◌++◌,
}
use cleveremote_box.Triggers.Defs.{
  Phase, put, Service, TriggerModel, Check, alloc, Ref, pausing, in_progress, mark, wait, Element,
  saved_model, evaluating, planning,
}
use cleveremote_box.Triggers.Service.{
  queued, drop_first, release, process_queue_check_in_progress, check_trigger_conditions, on_saved,
  dequeue_at, Sun, check_each, enqueue_check_trigger, begin_check, is_allow_check_trigger,
  put_saved, schedule_of,
}

abbrev pub is_pausing : Phase → Bool
is_pausing (pausing copy) = true
is_pausing _ = false

-- The pending calls that end with a change of this object
abbrev pub holds : Ref → Check → Bool
holds r c = c.trigger == r && not (is_pausing c.phase)

-- An object that stays in progress: no call that is pending releases it.
abbrev pub Spent : Ref → Service → Type 0
Spent r s =
    ((s.heap r).is_check_in_progress ≡ true) × (r < s.next) × (count (holds r) s.pending ≡ 0)

pub mark_at :
    (r r' : Ref) (b : Bool) (s : Service)
    → ((mark r' b s).heap r).is_check_in_progress
      ≡ (if r == r' then b else (s.heap r).is_check_in_progress)
unfolding mark put in_progress
mark_at r r' b s = elim (Bool-cases (r == r')) [ inl e ↦ rw (e) refl | inr e ↦ rw (e) refl ]

pub put_at : {A : Type 0} (f : ℕ → A) (i j : ℕ) (a : A) → j < i → put f i a j ≡ f j
unfolding put
put_at f i j a h = (let e : (j == i) ≡ false = ground arith in rw (e) refl)

mark-Spent :
    (r r' : Ref) (b : Bool) (s : Service)
    → ((r == r') ≡ true → b ≡ true)
    → Spent r s
    → Spent r (mark r' b s)
mark-Spent r r' b s h (f, n, p) =
    (let at = mark_at r r' b s in ground (arith, h), unfold mark in n, unfold mark in p)

pub wait-Spent :
    (r : Ref) (c : Check) (s : Service) → holds r c ≡ false → Spent r s → Spent r (wait c s)
unfolding wait count
wait-Spent r c s h (f, n, p) =
    (f, n, (let apart = count-append (holds r) s.pending (c ∷ []) in ground arith))

pub alloc-Spent : (r : Ref) (t : TriggerModel) (s : Service) → Spent r s → Spent r (alloc t s)
unfolding alloc
alloc-Spent r t s (f, n, p) = (
  ap (λ (t : TriggerModel). t.is_check_in_progress) (put_at s.heap s.next r t n) ∙ f,
  omega arith,
  p,
)

-- Another trigger that is not in progress is another object.
other :
    (r r' : Ref) (s : Service)
    → (s.heap r).is_check_in_progress ≡ true
    → (s.heap r').is_check_in_progress ≡ false
    → (r == r') ≡ false
other r r' s f g = elim (Bool-cases (r == r')) [
  | inl e ↦
      let here : r ≡ r' = (==_iff r r').0 e in
      absurd (false≢true (sym g ∙ ap (λ (x : Ref). (s.heap x).is_check_in_progress) (sym here) ∙ f))
  | inr e ↦ e
]

begin-Spent :
    (r r' : Ref) (element : Element) (now : ℕ) (s : Service)
    → (r == r') ≡ false
    → Spent r s
    → Spent r (begin_check r' element now s)
unfolding begin_check
begin-Spent r r' element now s e h =
    let c : Check = record { trigger = r'; element = element; phase = evaluating now } in
    wait-Spent r c (mark r' true s) (ground arith) (mark-Spent r r' true s (λ _. refl) h)

-- What a check may do: nothing, put the trigger into the queue, or begin with one that is not in
-- progress.
pub check-elim :
    (P : Service → Type 0) (r : Ref) (element : Element) (now : ℕ) (s : Service)
    → P s
    → P (enqueue_check_trigger r element s)
    → ((s.heap r).is_check_in_progress ≡ false → P (begin_check r element now s))
    → P (check_trigger_conditions r element now s)
unfolding check_trigger_conditions
check-elim P r element now s p q b =
    let t = s.heap r in
    let idle = if t.is_paused then s else begin_check r element now s in
    let allowed = if t.is_check_in_progress then enqueue_check_trigger r element s else idle in
    if-elim P (not (is_allow_check_trigger t.last_triggered_at t.delay now)) s allowed (λ _. p)
      (λ _.
        if-elim P t.is_check_in_progress (enqueue_check_trigger r element s) idle (λ _. q)
          (λ f. if-elim P t.is_paused s (begin_check r element now s) (λ _. p) (λ _. b f)))

pub enqueue-elim :
    (P : Service → Type 0) (r : Ref) (element : Element) (s : Service)
    → P s
    → P (record s { trigger_check_queue = s.trigger_check_queue ++ (r, element) ∷ [] })
    → P (enqueue_check_trigger r element s)
unfolding enqueue_check_trigger
enqueue-elim P r element s p q =
    if-elim P (any (queued s (s.heap r).id) s.trigger_check_queue) s
      (record s { trigger_check_queue = s.trigger_check_queue ++ (r, element) ∷ [] }) (λ _. p)
      (λ _. q)

check-Spent :
    (r r' : Ref) (element : Element) (now : ℕ) (s : Service)
    → Spent r s
    → Spent r (check_trigger_conditions r' element now s)
check-Spent r r' element now s h =
    check-elim (Spent r) r' element now s h (enqueue-elim (Spent r) r' element s h h)
      (λ g. begin-Spent r r' element now s (other r r' s h.0 g) h)

dequeue-Spent :
    (r : Ref) (o : Option (Ref × Element)) (i now : ℕ) (s : Service)
    → Spent r s
    → Spent r (dequeue_at o i now s)
unfolding dequeue_at
dequeue-Spent r none i now s h = h
dequeue-Spent r (some (r', element)) i now s h =
    check-Spent r r' element now
      (record s { trigger_check_queue = drop_first (queued s i) s.trigger_check_queue }) h

pub release-Spent :
    (r r' : Ref) (now : ℕ) (s : Service)
    → (r == r') ≡ false
    → Spent r s
    → Spent r (release r' now s)
unfolding release process_queue_check_in_progress
release-Spent r r' now s e h =
    let freed = mark r' false s in
    let i = (freed.heap r').id in
    dequeue-Spent r (find (queued freed i) freed.trigger_check_queue) i now freed
      (mark-Spent r r' false s (λ g. absurd (false≢true (sym e ∙ g))) h)

pub check_each-Spent :
    (r : Ref) (rs : List Ref) (element : Element) (now : ℕ) (s : Service)
    → Spent r s
    → Spent r (check_each rs element now s)
unfolding check_each
check_each-Spent r [] element now s h = h
check_each-Spent r (r' ∷ rs) element now s h =
    check_each-Spent r rs element now (check_trigger_conditions r' element now s)
      (check-Spent r r' element now s h)

pub put_saved-Spent :
    (r r' : Ref) (copy : TriggerModel) (s : Service) → Spent r s → Spent r (put_saved r' copy s)
unfolding put_saved
put_saved-Spent r r' copy s h = alloc-Spent r (saved_model copy) s h

pub saved-Spent :
    (sun : Sun) (r : Ref) (c : Check) (copy : TriggerModel) (now : ℕ) (s : Service)
    → Spent r s
    → Spent r (on_saved sun c copy now s)
unfolding on_saved
saved-Spent sun r c copy now s h =
    let p = planning (schedule_of sun (saved_model copy) now) in
    let c' : Check = record { trigger = s.next; element = c.element; phase = p } in
    wait-Spent r c' (put_saved c.trigger copy s) (let (f, n, e) = h in ground arith)
      (put_saved-Spent r c.trigger copy s h)
