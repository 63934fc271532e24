-- ===== src/Modbus/Queue/Order.antt =====
-- Runs of the queue of modbus.service.ts, as sequences of submissions and completions.
use mathlib.Core.List.{append-nil, append_assoc, map-append}
-- One entry runs at a time, in the order of submission, and each is settled once.
-- The loop takes the next entry when none runs.
use cleveremote_box.Base.{
  ℕ, ◌≡◌, refl, sym, ap, ◌∙◌, Bool, List, [], ◌∷◌, ◌++◌, map, none_of_is_some, if-elim, Option,
  none, some, false≢true,
}
use cleveremote_box.Modbus.Queue.{
  Inv, shift_at, shift, ended, Service, enqueue, process_queue, idle, submitted, ended_at,
  in_flight, run, finish, Step, step, submit,
}

shift_at-Inv :
    (asked queue : List ℕ) (s : Service)
    → s.started ≡ map (λ x. x.0) s.settled
    → s.queue ≡ queue
    → s.started ++ queue ≡ asked
    → Inv asked (shift_at queue s)
unfolding shift_at
shift_at-Inv asked [] s a q f = record {
  busy = refl;
  drained = λ _. q;
  accounted = a ∙ sym (append-nil _);
  fifo = rw q f;
}
shift_at-Inv asked (e ∷ rest) s a q f = record {
  busy = refl;
  drained = λ h. absurd (cc);
  accounted = ap (λ (l : List ℕ). l ++ e ∷ []) a;
  fifo = append_assoc s.started (e ∷ []) rest ∙ f;
}

shift-Inv :
    (asked : List ℕ) (s : Service)
    → s.started ≡ map (λ x. x.0) s.settled
    → s.started ++ s.queue ≡ asked
    → Inv asked (shift s)
unfolding shift
shift-Inv asked s a f = shift_at-Inv asked s.queue s a refl f

enqueue-Inv :
    (asked : List ℕ) (e : ℕ) (s : Service) → Inv asked s → Inv (asked ++ e ∷ []) (enqueue e s)
unfolding enqueue process_queue
enqueue-Inv asked e s v =
    let grown = record s { queue = s.queue ++ e ∷ [] } in
    let longer : s.started ++ (s.queue ++ e ∷ []) ≡ asked ++ e ∷ [] =
      sym (append_assoc s.started s.queue (e ∷ [])) ∙ ap (λ (l : List ℕ). l ++ e ∷ []) v.fifo in
    if-elim (Inv (asked ++ e ∷ [])) s.is_processing grown (shift grown)
      (λ b. record {
        busy = v.busy;
        drained = λ h. absurd (false≢true (sym h ∙ b));
        accounted = v.accounted;
        fifo = longer;
      })
      (λ b.
        shift-Inv (asked ++ e ∷ []) grown
          (settled_all s v (none_of_is_some s.current (sym v.busy ∙ b))) longer)
  where
    settled_all :
        (t : Service) → Inv asked t → t.current ≡ none → t.started ≡ map (λ x. x.0) t.settled
    settled_all t w h =
        w.accounted
        ∙ ap (λ (o : Option ℕ). map (λ (x : ℕ × Bool). x.0) t.settled ++ in_flight o) h
        ∙ append-nil _

ended_at-Inv :
    (asked : List ℕ) (o : Option ℕ) (ok : Bool) (s : Service)
    → s.current ≡ o
    → Inv asked s
    → Inv asked (ended_at o ok s)
unfolding ended_at
ended_at-Inv asked none ok s c v = v
ended_at-Inv asked (some e) ok s c v =
    shift-Inv asked (record s { settled = s.settled ++ (e, ok) ∷ [] })
      (v.accounted
        ∙ ap (λ (o : Option ℕ). map (λ (x : ℕ × Bool). x.0) s.settled ++ in_flight o) c
        ∙ sym (map-append (λ (x : ℕ × Bool). x.0) s.settled ((e, ok) ∷ [])))
      v.fifo

run-Inv :
    (asked : List ℕ) (xs : List Step) (s : Service)
    → Inv asked s
    → Inv (asked ++ submitted xs) (run xs s)
unfolding run step ended
run-Inv asked [] s v = rw append-nil v
run-Inv asked (submit e ∷ xs) s v =
    rw (← append_assoc asked (e ∷ []) (submitted xs))
      (run-Inv (asked ++ e ∷ []) xs (enqueue e s) (enqueue-Inv asked e s v))
run-Inv asked (finish ok ∷ xs) s v =
    run-Inv asked xs (ended ok s) (ended_at-Inv asked s.current ok s refl v)

-- After any calls and completions, in any order: the bus is busy exactly while one entry runs, no
-- entry waits while it is idle, and entries start in the order in which they were submitted, each
-- of them settled once before the next one starts.
pub run-idle-Inv : (xs : List Step) → Inv (submitted xs) (run xs idle)
unfolding idle
run-idle-Inv xs =
    run-Inv [] xs idle (record { busy = refl; drained = λ _. refl; accounted = refl; fifo = refl })
