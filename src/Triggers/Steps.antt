-- ===== src/Triggers/Steps.antt =====
-- trigger.service.ts: the runs of the service, one step for each call or end of an awaited call.
use cleveremote_box.Base.{
  get_elem?, remove_at, if◌then◌else◌, ℕ, Bool, Option, none, some, List, [], ◌∷◌,
}
use cleveremote_box.Triggers.Defs.{
  Phase, Service, TriggerModel, pausing, planning, planned, Check, Ref, evaluating, Element, saving,
}
use cleveremote_box.Triggers.Service.{
  value_changed, set_paused, on_paused, Sun, on_saved, on_evaluated, release, init_trigger,
  check_each, on_planned,
}

-- The outside: a call of a public operation, a value that changes, the end of the call that a `listening`
-- or `pending` entry of this index waits for. `answered` has the verdict of the conditions or, as `some`,
-- that the save or the execution succeeded.
pub data Step : Type 0 where
  init_call : TriggerModel → Bool → Step
  pause_call : Ref → Bool → Step
  element_changed : Element → Step
  event_saved : ℕ → Bool → ℕ → Step
  answered : ℕ → Option Bool → ℕ → Step

-- A failed save or execution ends the call.
unfoldable pub resume : Sun → Check → Phase → Option Bool → ℕ → Service → Service
unfolding on_evaluated on_saved on_planned release on_paused
resume sun c (evaluating date) verdict now s = on_evaluated c date verdict now s
resume sun c phase none now s = s
resume sun c (saving copy) (some _) now s = on_saved sun c copy now s
resume sun c (planning p) (some _) now s = on_planned c p s
resume sun c planned (some _) now s = release c.trigger now s
resume sun c (pausing copy) (some _) now s = on_paused c copy s

unfoldable pub resume_at : Sun → ℕ → Option Check → Option Bool → ℕ → Service → Service
unfolding resume remove_at
resume_at sun i none answer now s = s
resume_at sun i (some c) answer now s =
    resume sun c c.phase answer now (record s { pending = remove_at i s.pending })

unfoldable pub listen_at : ℕ → Option (List Ref × Element) → Bool → ℕ → Service → Service
unfolding check_each remove_at
listen_at i none good now s = s
listen_at i (some (rs, element)) good now s =
    let rest = record s { listening = remove_at i s.listening } in
    if good then check_each rs element now rest else rest

unfoldable pub step : Sun → Step → Service → Service
unfolding init_trigger set_paused value_changed listen_at resume_at
step sun (init_call t is_deleted) s = init_trigger t is_deleted s
step sun (pause_call r b) s = set_paused r b s
step sun (element_changed element) s = value_changed element s
step sun (event_saved i good now) s = listen_at i (get_elem? s.listening i) good now s
step sun (answered i answer now) s = resume_at sun i (get_elem? s.pending i) answer now s

unfoldable pub run : Sun → List Step → Service → Service
unfolding step
run sun [] s = s
run sun (x ∷ xs) s = run sun xs (step sun x s)
