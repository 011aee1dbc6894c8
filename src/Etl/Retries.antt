-- ===== src/Etl/Retries.antt =====
-- realtime-etl/event_processors.go: the loop over the margin offer events, with the events that
-- failed and wait to be queued again. The steps come in any order that the code allows.
use margin_offer_system.Base.{
  ℕ, suc, ◌+◌, ◌-◌, ◌*◌, ◌≤◌, ◌<◌, ◌≡◌, true, List, [], ◌∷◌, ◌++◌, ap, arith, length, if◌then◌else◌,
  Bool-cases, inl, inr,
}
use margin_offer_system.Base.Int.{ℤ, pos, negsuc, ltb_ℤ, ◌+ℤ◌}
use margin_offer_system.Base.Run.{done}
use margin_offer_system.Etl.Events.{MarginOfferEvent, ProcessingResult, is_retryable}
use margin_offer_system.Etl.Counted.{process-KeepsCount}
use margin_offer_system.Etl.Handlers.{OfferStore, process_margin_offer_event}

-- The part of the processor that the loop uses: the store, the channel, the goroutines that sleep
-- before they queue their event again, and the count of the errors.
pub record Pipeline (S : Type 0) : Type 0 where
  pub store : S
  pub queue : List MarginOfferEvent
  pub sleeping : List MarginOfferEvent
  pub error_count : ℕ

-- The retry of `handleProcessingError`.
unfoldable pub retried : MarginOfferEvent → List MarginOfferEvent
unfolding is_retryable ◌+ℤ◌
retried event =
    if is_retryable event
    then record event { retry_count = event.retry_count +ℤ pos 1 } ∷ []
    else []

-- What the loop makes of a result: `handleProcessingError` where it is a failure.
unfoldable pub after_result :
    {S : Type 0}
    → Pipeline S
    → List MarginOfferEvent
    → S × MarginOfferEvent × ProcessingResult
    → Pipeline S
unfolding retried
after_result p rest (s, event, result) =
    if result.success then record p { store = s; queue = rest } else record p {
      store = s;
      queue = rest;
      sleeping = p.sleeping ++ retried event;
      error_count = suc p.error_count;
    }

-- The attempts that an event has left after the next one.
abbrev pub retries_left : ℤ → ℕ
retries_left (pos n) = 3 - n
retries_left (negsuc n) = 4 + n

abbrev pub queued_weight : List MarginOfferEvent → ℕ
queued_weight [] = 0
queued_weight (e ∷ es) = 2 * retries_left e.retry_count + 1 + queued_weight es

abbrev pub sleeping_weight : List MarginOfferEvent → ℕ
sleeping_weight [] = 0
sleeping_weight (e ∷ es) = 2 * retries_left e.retry_count + 2 + sleeping_weight es

-- A bound on the steps that are left where no event arrives.
abbrev pub weight : {S : Type 0} → Pipeline S → ℕ
weight p = queued_weight p.queue + sleeping_weight p.sleeping

queued_weight-append :
    (xs ys : List MarginOfferEvent) → queued_weight (xs ++ ys) ≡ queued_weight xs + queued_weight ys
queued_weight-append [] ys = omega arith
queued_weight-append (x ∷ xs) ys = omega (arith, queued_weight-append xs ys)

sleeping_weight-append :
    (xs ys : List MarginOfferEvent)
    → sleeping_weight (xs ++ ys) ≡ sleeping_weight xs + sleeping_weight ys
sleeping_weight-append [] ys = omega arith
sleeping_weight-append (x ∷ xs) ys = omega (arith, sleeping_weight-append xs ys)

pub retries_left_lem :
    (r : ℤ) → ltb_ℤ r (pos 3) ≡ true → suc (retries_left (r +ℤ pos 1)) ≡ retries_left r
unfolding ◌+ℤ◌
retries_left_lem (pos n) h = ground arith
retries_left_lem (negsuc n) h = ground arith

-- A retry weighs less than the event that failed.
retried_lem :
    (event : MarginOfferEvent)
    → sleeping_weight (retried event) < 2 * retries_left event.retry_count + 1
unfolding retried is_retryable
retried_lem event = elim (Bool-cases (ltb_ℤ event.retry_count (pos 3))) [
  | inl h ↦ rw h (omega (arith, retries_left_lem event.retry_count h))
  | inr h ↦ rw h (omega arith)
]

module _ (store : OfferStore) where
  open store use {State}

  -- A step of the loop or of a sleeper. A sleeper blocks while the channel is full.
  pub data Step : Pipeline State → Pipeline State → Type 0 where
    process :
        {p : Pipeline State} (event : MarginOfferEvent) (rest : List MarginOfferEvent)
        (out : State × MarginOfferEvent × ProcessingResult)
        → p.queue ≡ event ∷ rest
        → process_margin_offer_event store event p.store ≡ done out
        → Step p (after_result p rest out)
    wake :
        {p : Pipeline State} (before after : List MarginOfferEvent) (event : MarginOfferEvent)
        → p.sleeping ≡ before ++ event ∷ after
        → length p.queue < 1000
        → Step p (record p { queue = p.queue ++ event ∷ []; sleeping = before ++ after })

  -- A run of `n` steps.
  pub data Steps (p : Pipeline State) : ℕ → Pipeline State → Type 0 where
    here : Steps p 0 p
    next : {n : ℕ} {q r : Pipeline State} → Steps p n q → Step q r → Steps p (suc n) r

  after_result-lighter :
      (p : Pipeline State) (event : MarginOfferEvent) (rest : List MarginOfferEvent)
      (out : State × MarginOfferEvent × ProcessingResult)
      → p.queue ≡ event ∷ rest
      → (out.1).retry_count ≡ event.retry_count
      → weight (after_result p rest out) < weight p
  unfolding after_result
  after_result-lighter p event rest (s, left, result) q same = elim (Bool-cases result.success) [
    | inl h ↦ rw (h, q) (omega arith)
    | inr h ↦
        rw (h, q, sleeping_weight-append p.sleeping (retried left))
          (omega (arith, retried_lem left, ap retries_left same))
  ]

  pub Step-lighter : {p q : Pipeline State} → Step p q → weight q < weight p
  Step-lighter {p} (process event rest out at ran) =
      after_result-lighter p event rest out at (process-KeepsCount store event p.store out ran)
  Step-lighter {p} (wake before after event at room) =
      rw
        (
          at,
          queued_weight-append p.queue (event ∷ []),
          sleeping_weight-append before after,
          sleeping_weight-append before (event ∷ after),
        )
        (omega arith)

  -- Where no event arrives, each step of the loop over margin offer events, which processes an
  -- event or queues a failed one again, takes at least one from a weight of the pipeline: twice
  -- the attempts that are left of each event and one for a queued event or two for a sleeping
  -- one. So the steps of every run are at most the weight at its start.
  pub Steps-bounded :
      {p : Pipeline State} {n : ℕ} {q : Pipeline State} → Steps p n q → n + weight q ≤ weight p
  Steps-bounded here = omega arith
  Steps-bounded (next run step) = omega (arith, Steps-bounded run, Step-lighter step)
