-- ===== src/Strategies/Once.antt =====
-- device-strategies/*.ts: which requests an initialization executes.
use cleveremote_box.Actuators.Override.{ComRequestConfigModel}
use cleveremote_box.Base.{
  if◌then◌else◌, if-elim, ℕ, ◌≡◌, refl, Bool, true, false, ◌&&◌, ◌||◌, not, List, map, arith,
  filter, Bool-cases, ap, inl, inr, [], ◌∷◌, All, sym, ◌∙◌, subst,
}
use cleveremote_box.Strategies.Defs.{
  World, execute, attempt, is_rejected, ComRequestModel, is_done, each_request,
}
use cleveremote_box.Modbus.Requests.{failed}
use cleveremote_box.Modbus.Requests.{run_com_request, on_failure, on_reply, network_failure}

attempt-id :
    (w : World) (param : ComRequestModel → ComRequestConfigModel) (r : ComRequestModel)
    → (attempt w param r).id ≡ r.id
unfolding attempt
attempt-id w param r =
    let saved : ComRequestModel = if w.saves r.id then record r { done = true } else r in
    if-elim (λ (x : ComRequestModel). x.id ≡ r.id) (is_rejected (execute w r (param r))) r saved
      (λ _. refl)
      (λ _.
        if-elim (λ (x : ComRequestModel). x.id ≡ r.id) (w.saves r.id) (record r { done = true }) r
          (λ _. refl) (λ _. refl))

-- The requests that are not done, and whose execution or whose save fails
abbrev pub is_left : World → (ComRequestModel → ComRequestConfigModel) → ComRequestModel → Bool
is_left w param r = not r.done && (is_rejected (execute w r (param r)) || not (w.saves r.id))

attempt-done :
    (w : World) (param : ComRequestModel → ComRequestConfigModel) (r : ComRequestModel)
    → r.done ≡ false
    → (attempt w param r).done ≡ not (is_left w param r)
unfolding attempt
attempt-done w param r h = ground arith

abbrev pub ids : List ComRequestModel → List ℕ
ids rs = map (λ (r : ComRequestModel). r.id) rs

abbrev undone : ComRequestModel → Bool
undone r = not r.done

-- An initialization executes the requests that are not done, in order.
each_request-executed :
    (w : World) (param : ComRequestModel → ComRequestConfigModel) (rs : List ComRequestModel)
    → (each_request w is_done param rs).1 ≡ ids (filter (undone) rs)
unfolding each_request filter
each_request-executed w param [] = refl
each_request-executed w param (r ∷ rs) =
    let rest = each_request-executed w param rs in
    elim (Bool-cases r.done) [ inl e ↦ rw (e) rest | inr e ↦ rw (e) (ap (λ l. r.id ∷ l) rest) ]

each_request-skip :
    (w : World) (param : ComRequestModel → ComRequestConfigModel) (r : ComRequestModel)
    (rs : List ComRequestModel)
    → r.done ≡ true
    → (each_request w is_done param (r ∷ rs)).0 ≡ r ∷ (each_request w is_done param rs).0
unfolding each_request
each_request-skip w param r rs e = rw (e) refl

each_request-try :
    (w : World) (param : ComRequestModel → ComRequestConfigModel) (r : ComRequestModel)
    (rs : List ComRequestModel)
    → r.done ≡ false
    → (each_request w is_done param (r ∷ rs)).0
      ≡ attempt w param r ∷ (each_request w is_done param rs).0
unfolding each_request
each_request-try w param r rs e = rw (e) refl

-- The identifiers that a filter keeps, one entry more
ids-filter :
    (p : ComRequestModel → Bool) (x : ComRequestModel) (xs : List ComRequestModel)
    → ids (filter p (x ∷ xs)) ≡ (if p x then x.id ∷ ids (filter p xs) else ids (filter p xs))
unfolding filter
ids-filter p x xs = elim (Bool-cases (p x)) [ inl e ↦ rw (e) refl | inr e ↦ rw (e) refl ]

filter-done :
    (w : World) (param : ComRequestModel → ComRequestConfigModel) (rs : List ComRequestModel)
    → ids (filter undone (each_request w is_done param rs).0) ≡ ids (filter (is_left w param) rs)
unfolding each_request filter
filter-done w param [] = refl
filter-done w param (r ∷ rs) =
    let rest = filter-done w param rs in
    let kept = (each_request w is_done param rs).0 in
    let right = ids-filter (is_left w param) r rs in
    elim (Bool-cases r.done) [
      | inl e ↦
          let out : is_left w param r ≡ false = ground arith in
          ap (λ l. ids (filter undone l)) (each_request-skip w param r rs e)
          ∙ ids-filter undone r kept
          ∙ ap (λ b. if b then r.id ∷ ids (filter undone kept) else ids (filter undone kept))
              (ap not e)
          ∙ rest
          ∙ sym (ap (choose r rs) out)
          ∙ sym right
      | inr e ↦
          let x = attempt w param r in
          let same_test : undone x ≡ is_left w param r =
            (let d = attempt-done w param r e in ground arith) in
          ap (λ l. ids (filter undone l)) (each_request-try w param r rs e)
          ∙ ids-filter undone x kept
          ∙ ap (λ b. if b then x.id ∷ ids (filter undone kept) else ids (filter undone kept))
              same_test
          ∙ ap
              (λ i.
                if is_left w param r
                then i ∷ ids (filter undone kept)
                else ids (filter undone kept))
              (attempt-id w param r)
          ∙ ap (λ l. if is_left w param r then r.id ∷ l else l) rest
          ∙ sym right
    ]
  where
    choose : ComRequestModel → List ComRequestModel → Bool → List ℕ
    choose r rs b =
        if b then r.id ∷ ids (filter (is_left w param) rs) else ids (filter (is_left w param) rs)

-- A second initialization, whatever the bus does then, executes exactly the requests that the first left
-- undone, in order: those that were not done and whose execution was rejected or could not be saved.
pub each_request-again :
    (w w' : World) (param param' : ComRequestModel → ComRequestConfigModel)
    (rs : List ComRequestModel)
    → (each_request w' is_done param' (each_request w is_done param rs).0).1
      ≡ ids (filter (is_left w param) rs)
each_request-again w w' param param' rs =
    each_request-executed w' param' (each_request w is_done param rs).0 ∙ filter-done w param rs

attempt-unreached :
    (w : World) (param : ComRequestModel → ComRequestConfigModel) (r : ComRequestModel)
    → w.client.connect ≡ failed network_failure
    → w.saves r.id ≡ true
    → (attempt w param r).done ≡ true
unfolding attempt execute run_com_request on_reply on_failure
attempt-unreached w param r c s = elim (Bool-cases w.is_resolved) [
  | inl e ↦ rw (e, c, s) refl
  | inr e ↦ rw (e, s) refl
]

-- When the connection to the bus fails because its host is unreachable and the database works, an initialization
-- leaves every request done.
pub each_request-unreached :
    (w : World) (param : ComRequestModel → ComRequestConfigModel) (rs : List ComRequestModel)
    → w.client.connect ≡ failed network_failure
    → ((i : ℕ) → w.saves i ≡ true)
    → All (λ r. r.done ≡ true) (each_request w is_done param rs).0
unfolding each_request
each_request-unreached w param [] c s = tt
each_request-unreached w param (r ∷ rs) c s =
    let rest = each_request-unreached w param rs c s in
    elim (Bool-cases r.done) [
      | inl e ↦ subst (All (λ x. x.done ≡ true)) (sym (each_request-skip w param r rs e)) (e, rest)
      | inr e ↦
          subst (All (λ x. x.done ≡ true)) (sym (each_request-try w param r rs e))
            (attempt-unreached w param r c (s r.id), rest)
    ]
