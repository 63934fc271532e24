-- ===== src/Schedules/Tracking.antt =====
-- schedule.service.ts: the list of tracked schedules.
use cleveremote_box.Base.{
  any, Bool-cases, ℕ, ◌≡◌, refl, ap, inl, inr, true, false, ◌||◌, List, [], ◌∷◌, ◌++◌, arith, ◌∙◌,
}
use cleveremote_box.Schedules.Defs.{
  Service, splice_schedule, add_job, remove_job, Cron, drop_last, tracks, ScheduleModel, driver,
  JobKey, instant,
}
use cleveremote_box.Schedules.Service.{
  delete_cron_job, create_schedule, arm_sun_instant, init_schedule,
}

any-append_self :
    (id : ℕ) (xs : List ScheduleModel) (x : ScheduleModel)
    → x.id ≡ id
    → any (tracks id) (xs ++ x ∷ []) ≡ true
unfolding any
any-append_self id [] x h = ground arith
any-append_self id (y ∷ ys) x h = ground (arith, any-append_self id ys x h)

-- No two tracked schedules have one identifier.
abbrev pub DistinctIds : List ScheduleModel → Type 0
DistinctIds [] = Unit
DistinctIds (x ∷ xs) = (any (tracks x.id) xs ≡ false) × DistinctIds xs

any-append :
    (id : ℕ) (xs : List ScheduleModel) (x : ScheduleModel)
    → any (tracks id) (xs ++ x ∷ []) ≡ (any (tracks id) xs || tracks id x)
unfolding any
any-append id [] x = ground arith
any-append id (y ∷ ys) x = ground (arith, any-append id ys x)

DistinctIds-append :
    (xs : List ScheduleModel) (x : ScheduleModel)
    → DistinctIds xs
    → any (tracks x.id) xs ≡ false
    → DistinctIds (xs ++ x ∷ [])
unfolding any
DistinctIds-append [] x d h = (refl, tt)
DistinctIds-append (y ∷ ys) x d h =
    ground (arith, DistinctIds-append ys x d.1, any-append y.id ys x)

create_schedule-schedules :
    (cron : Cron) (sch : ScheduleModel) (s : Service)
    → (create_schedule cron sch s).schedules ≡ s.schedules
unfolding create_schedule arm_sun_instant remove_job add_job
create_schedule-schedules cron sch s = ground arith

-- Re-arming a schedule that is tracked does not track it twice: the identifiers stay distinct, and
-- the schedule is tracked afterwards.
pub init_schedule-tracks :
    (cron : Cron) (sch : ScheduleModel) (s : Service)
    → DistinctIds s.schedules
    → DistinctIds (init_schedule cron sch false s).schedules
      × (any (tracks sch.id) (init_schedule cron sch false s).schedules ≡ true)
unfolding init_schedule
init_schedule-tracks cron sch s d = elim (Bool-cases (any (tracks sch.id) s.schedules)) [
  | inl e ↦ rw (e, create_schedule-schedules cron sch s) (d, e)
  | inr e ↦
      rw (e, create_schedule-schedules cron sch (record s { schedules = s.schedules ++ sch ∷ [] }))
        (DistinctIds-append s.schedules sch d e, any-append_self sch.id s.schedules sch refl)
]

drop_last-append : (xs : List ScheduleModel) (y : ScheduleModel) → drop_last (xs ++ y ∷ []) ≡ xs
unfolding drop_last
drop_last-append [] y = refl
drop_last-append (x ∷ []) y = refl
drop_last-append (x ∷ x' ∷ xs) y =
    ap (λ (l : List ScheduleModel). x ∷ l) (drop_last-append (x' ∷ xs) y)

delete_cron_job-schedules :
    (k : JobKey) (s : Service) → (delete_cron_job k s).schedules ≡ s.schedules
unfolding delete_cron_job remove_job
delete_cron_job-schedules (instant id) s = refl
delete_cron_job-schedules (driver id) s = ground arith

splice_schedule-unknown :
    (id : ℕ) (xs : List ScheduleModel)
    → any (tracks id) xs ≡ false
    → splice_schedule id xs ≡ drop_last xs
unfolding splice_schedule
splice_schedule-unknown id xs h = rw h

-- Deleting a schedule that is not tracked makes the service forget another one: the last that it
-- tracks (`findIndex` gives -1, and `splice(-1, 1)` removes the last entry).
pub init_schedule-forgets :
    (cron : Cron) (sch other : ScheduleModel) (xs : List ScheduleModel) (s : Service)
    → s.schedules ≡ xs ++ other ∷ []
    → any (tracks sch.id) s.schedules ≡ false
    → (init_schedule cron sch true s).schedules ≡ xs
unfolding init_schedule
init_schedule-forgets cron sch other xs s e h =
    delete_cron_job-schedules (driver sch.id)
      (record s { schedules = splice_schedule sch.id s.schedules })
    ∙ splice_schedule-unknown sch.id s.schedules h
    ∙ ap drop_last e
    ∙ drop_last-append xs other
