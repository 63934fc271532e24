-- ===== src/Sensors/Jobs.antt =====
-- sensor.service.ts: the jobs of the registry, and the values that are read back.
use cleveremote_box.Base.{
  filter, count, if◌then◌else◌, ◌==◌, ℕ, ◌≡◌, not, List, [], ◌∷◌, arith, any, find, is_some,
  Bool-cases, suc, inl, inr, Bool, true, false, ◌&&◌, ◌||◌, some, ==_iff, ap, ◌∙◌, Option,
}
use cleveremote_box.Sensors.Service.{
  Service, Job, is_key, delete_cron_job, schedule_cron_job, init_scheduled_sensor, with_value,
  SensorValueModel, is_sensor, to_sensor_value, create_scheduled_sensor_event, SensorModel,
  update_structure_sensor_value, put_sensor, splice_sensor, emit_received_data, sensor_value_of,
  get_device_value,
}

count-removed :
    (k i : ℕ) (js : List Job)
    → count (is_key k) (filter (λ j. not (is_key i j)) js)
      ≡ (if k == i then 0 else count (is_key k) js)
unfolding count filter
count-removed k i [] = ground arith
count-removed k i (j ∷ js) = ground (arith, count-removed k i js)

count-deleted :
    (k i : ℕ) (s : Service)
    → count (is_key k) (delete_cron_job i s).jobs ≡ (if k == i then 0 else count (is_key k) s.jobs)
unfolding delete_cron_job
count-deleted k i s = count-removed k i s.jobs

count-scheduled :
    (accepts : ℕ → Bool) (k : ℕ) (x : SensorModel) (s : Service)
    → count (is_key k) (schedule_cron_job accepts x s).jobs ≡ (
        if k == x.id && accepts x.cron_pattern
        then suc (count (is_key k) s.jobs)
        else count (is_key k) s.jobs)
unfolding schedule_cron_job count
count-scheduled accepts k x s = elim (Bool-cases (accepts x.cron_pattern)) [
  | inl e ↦ rw (e) (ground arith)
  | inr e ↦ rw (e) (ground arith)
]

count-created :
    (accepts : ℕ → Bool) (k : ℕ) (x : SensorModel) (s : Service)
    → count (is_key k) (create_scheduled_sensor_event accepts x s).jobs ≡ (
        if k == x.id && not (is_some x.parent_id)
        then (if x.is_enabled && accepts x.cron_pattern then 1 else 0)
        else count (is_key k) s.jobs)
unfolding create_scheduled_sensor_event
count-created accepts k x s =
    let cleared = count-deleted k x.id s in
    let made = count-scheduled accepts k x (delete_cron_job x.id s) in
    elim (Bool-cases (is_some x.parent_id)) [
      | inl e ↦ rw (e) (ground arith)
      | inr e ↦ elim (Bool-cases x.is_enabled) [
        | inl f ↦ rw (e, f) (ground arith)
        | inr f ↦ rw (e, f) (ground arith)
      ]
    ]

-- After `initScheduledSensor`, whatever was registered: a sensor that has no parent has one job if it is
-- enabled and its pattern is accepted, and none otherwise; a deleted sensor has none; the job of every other
-- sensor is as before, and so is that of a sensor that has a parent.
pub init_scheduled_sensor-jobs :
    (accepts : ℕ → Bool) (x : SensorModel) (is_deleted : Bool) (s : Service) (k : ℕ)
    → count (is_key k) (init_scheduled_sensor accepts x is_deleted s).jobs ≡ (
        if k == x.id && (is_deleted || not (is_some x.parent_id))
        then (if not is_deleted && x.is_enabled && accepts x.cron_pattern then 1 else 0)
        else count (is_key k) s.jobs)
unfolding init_scheduled_sensor
init_scheduled_sensor-jobs accepts x true s k =
    let gone = count-deleted k x.id (record s { sensors = splice_sensor x.id s.sensors }) in
    ground arith
init_scheduled_sensor-jobs accepts x false s k =
    let made = count-created accepts k x (record s { sensors = put_sensor x s.sensors }) in
    ground arith

read-written :
    (v : SensorValueModel) (x : SensorModel)
    → x.id ≡ v.id
    → to_sensor_value (some (with_value v x)) ≡ some v
unfolding to_sensor_value with_value
read-written v x e = ap (λ (i : ℕ). some (record { id = i; value = v.value; date = v.date })) e

find-updated :
    (v : SensorValueModel) (xs : List SensorModel)
    → any (is_sensor v.id) xs ≡ true
    → to_sensor_value (find (is_sensor v.id) (update_structure_sensor_value v xs)) ≡ some v
unfolding find any update_structure_sensor_value with_value
find-updated v [] h = absurd (cc)
find-updated v (x ∷ xs) h =
    let rest = update_structure_sensor_value v xs in
    let put : Bool → List SensorModel = λ b. if b then with_value v x ∷ xs else x ∷ rest in
    let read : List SensorModel → Option SensorValueModel =
      λ l. to_sensor_value (find (is_sensor v.id) l) in
    elim (Bool-cases (is_sensor v.id x)) [
      | inl e ↦
          ap (λ b. read (put b)) e
          ∙ ap
              (λ b. to_sensor_value (if b then some (with_value v x) else find (is_sensor v.id) xs))
              e
          ∙ read-written v x ((==_iff x.id v.id).0 e)
      | inr e ↦
          ap (λ b. read (put b)) e
          ∙ ap (λ b. to_sensor_value (if b then some x else find (is_sensor v.id) rest)) e
          ∙ find-updated v xs (ground arith)
    ]

-- The value that a sensor of the structure emits is the one that is read for its identifier afterwards, with
-- the date of the next day for a forecast and no date otherwise.
pub emit_received_data-read :
    (tomorrow : ℕ) (x : SensorModel) (v : ℕ) (s : Service)
    → any (is_sensor x.id) s.sensors ≡ true
    → get_device_value x.id (emit_received_data tomorrow x v s)
      ≡ some (sensor_value_of tomorrow x v)
unfolding get_device_value emit_received_data sensor_value_of
emit_received_data-read tomorrow x v s h = find-updated (sensor_value_of tomorrow x v) s.sensors h
