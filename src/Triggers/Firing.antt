-- ===== src/Triggers/Firing.antt =====
-- trigger.service.ts: a trigger after it fired, and a value that changes during a check.
use cleveremote_box.Base.{
  ==_refl, leb, ◌==◌, ℕ, ◌+◌, ◌<◌, ◌≡◌, refl, ap, ◌∙◌, true, false, some, arith, any, find,
  Bool-cases, ==_iff, sym, inl, inr, Bool, List, [], ◌∷◌, ◌++◌, Option,
}
use cleveremote_box.Triggers.Defs.{
  put, Service, Element, saved_model, wait, map_to_model, Ref, alloc, map_to_schema, Check,
  TriggerModel, mark, in_progress,
}
use cleveremote_box.Triggers.Service.{
  check_trigger_conditions, Sun, put_saved, fired, on_saved, is_allow_check_trigger, drop_first,
  queued, release, dequeue_at, process_queue_check_in_progress, enqueue_check_trigger, begin_check,
}

-- The object that stands for a saved trigger
put_saved-heap :
    (r : Ref) (copy : TriggerModel) (s : Service)
    → (put_saved r copy s).heap s.next ≡ saved_model copy
unfolding put_saved alloc put
put_saved-heap r copy s = (let e : (s.next == s.next) ≡ true = ==_refl s.next in rw (e) refl)

on_saved-heap :
    (sun : Sun) (c : Check) (copy : TriggerModel) (now : ℕ) (s : Service)
    → (on_saved sun c copy now s).heap s.next ≡ saved_model copy
unfolding on_saved wait
on_saved-heap sun c copy now s = put_saved-heap c.trigger copy s

check-early :
    (r : Ref) (element : Element) (now last delay : ℕ) (s : Service)
    → (s.heap r).last_triggered_at ≡ some last
    → (s.heap r).delay ≡ some delay
    → now < last + delay
    → check_trigger_conditions r element now s ≡ s
unfolding check_trigger_conditions is_allow_check_trigger
check-early r element now last delay s l d h =
    (let early : leb (last + delay) now ≡ false = ground arith in rw (l, d, early) refl)

-- The object that a verified trigger is saved as records the moment of its check: until the trigger's
-- delay after it is over, a check of that object changes nothing, whatever element has changed.
pub on_saved-debounced :
    (sun : Sun) (c : Check) (t : TriggerModel) (date delay now later : ℕ) (element : Element)
    (s : Service)
    → t.delay ≡ some delay
    → later < date + delay
    → check_trigger_conditions s.next element later (on_saved sun c (fired date t) now s)
      ≡ on_saved sun c (fired date t) now s
unfolding saved_model map_to_model map_to_schema fired
on_saved-debounced sun c t date delay now later element s d h =
    let held = on_saved-heap sun c (fired date t) now s in
    check-early s.next element later date delay (on_saved sun c (fired date t) now s)
      (ap (λ (t : TriggerModel). t.last_triggered_at) held)
      (ap (λ (t : TriggerModel). t.delay) held ∙ d) h

-- Searching a list that ends with the only entry that passes the test
find-last :
    {A : Type 0} (p q : A → Bool) (xs : List A) (a : A)
    → ((x : A) → q x ≡ p x)
    → any p xs ≡ false
    → p a ≡ true
    → (find q (xs ++ a ∷ []) ≡ some a) × (drop_first q (xs ++ a ∷ []) ≡ xs)
unfolding find drop_first any
find-last p q [] a same_test n y =
    (let e = same_test a in rw (e, y) refl, let e = same_test a in rw (e, y) refl)
find-last p q (x ∷ xs) a same_test n y =
    let e : q x ≡ false = same_test x ∙ ground arith in
    let (f, d) = find-last p q xs a same_test (ground arith) y in
    (rw (e) f, rw (e) (ap (λ l. x ∷ l) d))

mark-id : (r x : Ref) (b : Bool) (s : Service) → ((mark r b s).heap x).id ≡ (s.heap x).id
unfolding mark put in_progress
mark-id r x b s = elim (Bool-cases (x == r)) [
  | inl e ↦
      let here : x ≡ r = (==_iff x r).0 e in rw (e) (ap (λ (y : Ref). (s.heap y).id) (sym here))
  | inr e ↦ rw (e) refl
]

mark-heap : (r : Ref) (b : Bool) (s : Service) → (mark r b s).heap r ≡ in_progress b (s.heap r)
unfolding mark put
mark-heap r b s = (let e : (r == r) ≡ true = ==_refl r in rw (e) refl)

-- A check that begins
check-begins :
    (r : Ref) (element : Element) (now : ℕ) (s : Service)
    → is_allow_check_trigger (s.heap r).last_triggered_at (s.heap r).delay now ≡ true
    → (s.heap r).is_check_in_progress ≡ false
    → (s.heap r).is_paused ≡ false
    → check_trigger_conditions r element now s ≡ begin_check r element now s
unfolding check_trigger_conditions
check-begins r element now s a f p = rw (a, f, p) refl

check-waits :
    (r : Ref) (element : Element) (now : ℕ) (s : Service)
    → is_allow_check_trigger (s.heap r).last_triggered_at (s.heap r).delay now ≡ true
    → (s.heap r).is_check_in_progress ≡ true
    → any (queued s (s.heap r).id) s.trigger_check_queue ≡ false
    → check_trigger_conditions r element now s
      ≡ record s { trigger_check_queue = s.trigger_check_queue ++ (r, element) ∷ [] }
unfolding check_trigger_conditions enqueue_check_trigger
check-waits r element now s a f n = rw (a, f, n) refl

dequeue-last :
    (r : Ref) (element : Element) (now : ℕ) (s : Service)
    → any (queued s (s.heap r).id) s.trigger_check_queue ≡ false
    → release r now (record s { trigger_check_queue = s.trigger_check_queue ++ (r, element) ∷ [] })
      ≡ check_trigger_conditions r element now (mark r false s)
unfolding release process_queue_check_in_progress dequeue_at mark
dequeue-last r element now s n =
    let i = (s.heap r).id in
    let freed = mark r false s in
    let e : (freed.heap r).id ≡ i = mark-id r r false s in
    let (f, d) =
      find-last (queued s i) (queued freed i) s.trigger_check_queue (r, element)
        (λ x. ap (λ (y : ℕ). y == i) (mark-id r x.0 false s)) n (==_refl i) in
    let grown = s.trigger_check_queue ++ (r, element) ∷ [] in
    ap
      (λ (j : ℕ).
        dequeue_at (find (queued freed j) grown) j now
          (record freed { trigger_check_queue = grown }))
      e
    ∙ ap
        (λ (o : Option (Ref × Element)).
          dequeue_at o i now (record freed { trigger_check_queue = grown }))
        f
    ∙ ap
        (λ (l : List (Ref × Element)).
          check_trigger_conditions r element now (record freed { trigger_check_queue = l }))
        d

-- When an element changes during a check of a trigger that is not paused and has no entry in the queue,
-- and that check is then not verified, another check of the trigger begins, for this change, as soon
-- as the first one ends, and the queue is as before; the trigger's delay being over at both moments.
pub release-queued :
    (r : Ref) (element : Element) (changed now : ℕ) (s : Service)
    → (s.heap r).is_check_in_progress ≡ true
    → (s.heap r).is_paused ≡ false
    → any (queued s (s.heap r).id) s.trigger_check_queue ≡ false
    → is_allow_check_trigger (s.heap r).last_triggered_at (s.heap r).delay changed ≡ true
    → is_allow_check_trigger (s.heap r).last_triggered_at (s.heap r).delay now ≡ true
    → release r now (check_trigger_conditions r element changed s)
      ≡ begin_check r element now (mark r false s)
release-queued r element changed now s f p n a b =
    let held : (mark r false s).heap r ≡ in_progress false (s.heap r) = mark-heap r false s in
    ap (λ (t : Service). release r now t) (check-waits r element changed s a f n)
    ∙ dequeue-last r element now s n
    ∙ check-begins r element now (mark r false s)
        (ap (λ (t : TriggerModel). is_allow_check_trigger t.last_triggered_at t.delay now) held
          ∙ unfold in_progress in b)
        (ap (λ (t : TriggerModel). t.is_check_in_progress) held ∙ unfold in_progress in refl)
        (ap (λ (t : TriggerModel). t.is_paused) held ∙ unfold in_progress in p)
