-- ===== src/Chain/Hollow.antt =====
-- Events of a creation that come without their offer, as the mock events do, in the pipeline of
-- realtime-etl/event_processors.go.
use margin_offer_system.Base.{
  ℕ, suc, ◌+◌, ◌≡◌, refl, ◌∙◌, true, false, Bool-cases, inl, inr, none, some, List, [], ◌∷◌, ◌++◌,
  arith, subst, Option-cases, ◌==◌,
}
use margin_offer_system.Base.Run.{done}
use margin_offer_system.Base.Int.{pos, ltb_ℤ}
use margin_offer_system.Types.Time.{Time}
use margin_offer_system.Types.Error.{error_text, invalid_event_data}
use margin_offer_system.Etl.Events.{
  MarginOfferEvent, ProcessingResult, validate_event, is_retryable,
}
use margin_offer_system.Etl.Handlers.{
  OfferStore, handle_margin_offer_created_or_updated, handle_kind, process_margin_offer_event,
}
use margin_offer_system.Etl.Drained.{Empties, emptied}
use margin_offer_system.Etl.Retries.{
  Pipeline, retried, after_result, retries_left, retries_left_lem, Step, process, wake, Steps, here,
  next,
}
use margin_offer_system.Chain.{mock_margin_offer_event}

-- An event of a creation that comes without its offer.
abbrev pub IsHollow : MarginOfferEvent → Type 0
IsHollow e = (e.event_type ≡ "margin_offer_created") × (e.offer_data ≡ none)

abbrev pub AllHollow : List MarginOfferEvent → Type 0
AllHollow [] = Unit
AllHollow (e ∷ es) = IsHollow e × AllHollow es

-- The attempts that the events have left.
abbrev pub attempts : List MarginOfferEvent → ℕ
attempts [] = 0
attempts (e ∷ es) = suc (retries_left e.retry_count) + attempts es

attempts-append : (xs ys : List MarginOfferEvent) → attempts (xs ++ ys) ≡ attempts xs + attempts ys
attempts-append [] ys = omega arith
attempts-append (x ∷ xs) ys = omega (arith, attempts-append xs ys)

AllHollow-append :
    (xs ys : List MarginOfferEvent) → AllHollow xs → AllHollow ys → AllHollow (xs ++ ys)
AllHollow-append [] ys h k = k
AllHollow-append (x ∷ xs) ys h k = (h.0, AllHollow-append xs ys h.1 k)

AllHollow-split :
    (xs ys : List MarginOfferEvent) → AllHollow (xs ++ ys) → AllHollow xs × AllHollow ys
AllHollow-split [] ys h = (tt, h)
AllHollow-split (x ∷ xs) ys h = let (l, r) = AllHollow-split xs ys h.1 in ((h.0, l), r)

pub mock-IsHollow : (now : Time) → IsHollow (mock_margin_offer_event now)
unfolding mock_margin_offer_event
mock-IsHollow now = (refl, refl)

-- An event that fails uses up one attempt.
attempts-retried :
    (event : MarginOfferEvent)
    → suc (attempts (retried event)) ≡ suc (retries_left event.retry_count)
unfolding retried is_retryable
attempts-retried event = elim (Bool-cases (ltb_ℤ event.retry_count (pos 3))) [
  | inl h ↦ rw h (omega (arith, retries_left_lem event.retry_count h))
  | inr h ↦ ground (arith, h)
]

retried-AllHollow : (event : MarginOfferEvent) → IsHollow event → AllHollow (retried event)
unfolding retried
retried-AllHollow event h = ground arith

-- The errors so far and those to come.
abbrev pub errors_due : {S : Type 0} → Pipeline S → ℕ
errors_due p = p.error_count + attempts p.queue + attempts p.sleeping

abbrev pub OnlyHollow : {S : Type 0} → Pipeline S → Type 0
OnlyHollow p = AllHollow p.queue × AllHollow p.sleeping

module _ (store : OfferStore) where
  open store use {State}

  kind-hollow :
      (event : MarginOfferEvent) (s : State)
      → IsHollow event
      → handle_kind store event s ≡ done (s, event, some (error_text invalid_event_data))
  unfolding handle_kind handle_margin_offer_created_or_updated
  kind-hollow event s (kind, bare) =
      let created : (event.event_type == "margin_offer_created") ≡ true = rw kind refl in
      ground (arith, created, bare)

  process-hollow :
      (event : MarginOfferEvent) (s : State) (out : State × MarginOfferEvent × ProcessingResult)
      → IsHollow event
      → process_margin_offer_event store event s ≡ done out
      → (out.0 ≡ s) × (out.1 ≡ event) × (out.2.success ≡ false)
  unfolding process_margin_offer_event
  process-hollow event s out hollow ran = elim (Option-cases (validate_event event)) [
    | inr (e, bad) ↦ ground (arith, ran, bad)
    | inl fine ↦ ground (arith, ran, fine, kind-hollow event s hollow)
  ]

  after_result-failed :
      (p : Pipeline State) (rest : List MarginOfferEvent)
      (out : State × MarginOfferEvent × ProcessingResult)
      → out.2.success ≡ false
      → after_result p rest out ≡ record p {
        store = out.0;
        queue = rest;
        sleeping = p.sleeping ++ retried out.1;
        error_count = suc p.error_count;
      }
  unfolding after_result
  after_result-failed p rest (s, event, result) h = rw h refl

  Step-hollow :
      {p q : Pipeline State}
      → Step store p q
      → OnlyHollow p
      → OnlyHollow q × (q.store ≡ p.store) × (errors_due q ≡ errors_due p)
  unfolding after_result
  Step-hollow {p} (process event rest out at ran) (queued, asleep) =
      let hollow : AllHollow (event ∷ rest) = subst AllHollow at queued in
      let (kept, same, failed) = process-hollow event p.store out hollow.0 ran in
      rw (after_result-failed p rest out failed) (
        (
          hollow.1,
          AllHollow-append p.sleeping _ asleep (rw same (retried-AllHollow event hollow.0)),
        ),
        kept,
        rw (at, attempts-append p.sleeping (retried out.1), same)
            (omega (arith, attempts-retried event)),
      )
  Step-hollow {p} (wake before after event at room) (queued, asleep) =
      let split = AllHollow-split before (event ∷ after) (subst AllHollow at asleep) in
      (
        (
          AllHollow-append p.queue (event ∷ []) queued (split.1.0, tt),
          AllHollow-append before after split.0 split.1.1,
        ),
        refl,
        rw
            (
              at,
              attempts-append p.queue (event ∷ []),
              attempts-append before after,
              attempts-append before (event ∷ after),
            )
            (omega arith),
      )

  hollow-ends :
      (event : MarginOfferEvent) (s : State)
      → IsHollow event
      → (out : State × MarginOfferEvent × ProcessingResult) × (process_margin_offer_event store
            event s
          ≡ done out)
  unfolding process_margin_offer_event
  hollow-ends event s hollow = elim (Option-cases (validate_event event)) [
    | inr (e, bad) ↦ rw (process_margin_offer_event, bad) (_, refl)
    | inl fine ↦ rw (process_margin_offer_event, fine, kind-hollow event s hollow) (_, refl)
  ]

  -- Whatever the store is, a pipeline with such events alone comes to their end.
  pub hollow-emptied : (p : Pipeline State) → OnlyHollow p → Empties store OnlyHollow p
  hollow-emptied =
      emptied store OnlyHollow (λ p q step h. (Step-hollow step h).0)
        λ p event rest h at. hollow-ends event p.store (subst AllHollow at h.0).0

  -- From a pipeline whose events are all of a creation and come without an offer, as the mock
  -- events do, every run leaves the store as it was, and the errors counted so far and the attempts
  -- left of all events have the same sum at its end as at its start.
  pub Steps-hollow :
      {p : Pipeline State} {n : ℕ} {q : Pipeline State}
      → Steps store p n q
      → OnlyHollow p
      → OnlyHollow q × (q.store ≡ p.store) × (errors_due q ≡ errors_due p)
  Steps-hollow here h = (h, refl, refl)
  Steps-hollow (next run step) h =
      let (k, kept, due) = Steps-hollow run h in
      let (l, kept', due') = Step-hollow step k in (l, kept' ∙ kept, due' ∙ due)
