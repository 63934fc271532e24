-- ===== src/Modbus/Queue.antt =====
-- modbus.service.ts: `_queue`, `_isProcessing`, `execute`, `applyInverterConfig`, `_enqueue` and
-- `_processQueue`. An entry stands for its identifier: what it runs is modelled elsewhere. A step is
-- what happens between two waits: an entry is put in the queue, or the entry that runs ends.
use cleveremote_box.Base.{
  if◌then◌else◌, is_some, ℕ, ◌≡◌, Bool, true, false, Option, none, some, List, [], ◌∷◌, ◌++◌, map,
  all,
}
pub mod Order

pub record Service : Type 0 where
  pub queue : List ℕ
  pub is_processing : Bool
  pub current : Option ℕ
  pub started : List ℕ  -- in order
  pub settled : List (ℕ × Bool)  -- resolved or rejected, in order

unfoldable pub idle : Service
idle = record { queue = []; is_processing = false; current = none; started = []; settled = [] }

-- The head of the `while` loop: the next entry is shifted and runs, or the loop ends.
unfoldable pub shift_at : List ℕ → Service → Service
shift_at [] s = record s { is_processing = false; current = none }
shift_at (e ∷ rest) s = record s {
  queue = rest;
  is_processing = true;
  current = some e;
  started = s.started ++ e ∷ [];
}

unfoldable pub shift : Service → Service
unfolding shift_at
shift s = shift_at s.queue s

-- `_processQueue`
unfoldable pub process_queue : Service → Service
unfolding shift
process_queue s = if s.is_processing then s else shift s

-- `this._queue.push(…); if (!this._isProcessing) this._processQueue();`
unfoldable pub enqueue : ℕ → Service → Service
unfolding process_queue
enqueue e s = process_queue (record s { queue = s.queue ++ e ∷ [] })

-- The entry that runs ends: it is resolved or rejected, and the loop goes on.
unfoldable pub ended_at : Option ℕ → Bool → Service → Service
unfolding shift
ended_at none ok s = s
ended_at (some e) ok s = shift (record s { settled = s.settled ++ (e, ok) ∷ [] })

unfoldable pub ended : Bool → Service → Service
unfolding ended_at
ended ok s = ended_at s.current ok s

pub data Step : Type 0 where
  submit : ℕ → Step
  finish : Bool → Step

unfoldable pub step : Step → Service → Service
unfolding enqueue ended
step (submit e) s = enqueue e s
step (finish ok) s = ended ok s

unfoldable pub run : List Step → Service → Service
unfolding step
run [] s = s
run (x ∷ xs) s = run xs (step x s)

-- The entries that were submitted, in order
abbrev pub submitted : List Step → List ℕ
submitted [] = []
submitted (submit e ∷ xs) = e ∷ submitted xs
submitted (finish ok ∷ xs) = submitted xs

abbrev pub in_flight : Option ℕ → List ℕ
in_flight none = []
in_flight (some e) = e ∷ []

-- Between two steps, of entries submitted so far: one entry runs exactly while the queue is being
-- processed, nothing waits otherwise, what was started is what is settled and what runs, and what
-- was started and what waits are what was submitted, in order.
pub record Inv (asked : List ℕ) (s : Service) : Type 0 where
  pub busy : s.is_processing ≡ is_some s.current
  pub drained : s.is_processing ≡ false → s.queue ≡ []
  pub accounted : s.started ≡ map (λ x. x.0) s.settled ++ in_flight s.current
  pub fifo : s.started ++ s.queue ≡ asked
