-- ===== src/Etl/Lifecycle.antt =====
-- realtime-etl/processor.go: the life of the processor, and the channel that fills while it runs.
use Prim.Native.String
use margin_offer_system.Base.{
  ℕ, suc, ◌≤◌, ◌≡◌, refl, ◌↔◌, Bool, true, false, not, ◌&&◌, Option, none, some, List, [], ◌∷◌,
  ◌++◌, arith, length, ltb, if◌then◌else◌, subst, sym, ◌∙◌, String, Bool-cases, inl, inr,
}
use margin_offer_system.Base.Run.{Run, done, panic, ◌>>=◌}
use margin_offer_system.Types.Time.{Time, zero_time}
use margin_offer_system.Etl.Events.{MarginOfferEvent, LiquidityEvent, ProcessingResult}

-- The state of the pipeline. The stop channel is made once, by `NewProcessor`.
pub record Processor : Type 0 where
  pub is_running : Bool
  pub start_time : Time
  pub last_event_time : Option Time
  pub stop_closed : Bool
  pub error_count : ℕ
  pub margin_offer_events : List MarginOfferEvent
  pub liquidity_events : List LiquidityEvent

-- `NewProcessor`
abbrev pub new_processor : Processor
new_processor = record {
  is_running = false;
  start_time = zero_time;
  last_event_time = none;
  stop_closed = false;
  error_count = 0;
  margin_offer_events = [];
  liquidity_events = [];
}

-- `Start`, where the connection to the chain gives an error or none.
unfoldable pub start : Option String → Time → Processor → Processor × Option String
start connected now p =
    if p.is_running then (p, some "processor is already running") else elim connected [
      | some e ↦ (
        record p { start_time = now; is_running = false },
        some (String.◌++◌ "failed to connect to chain: " e),
      )
      | none ↦ (record p { start_time = now; is_running = true }, none)
    ]

-- `Stop`: to close a channel that is closed panics.
unfoldable pub stop : Processor → Run (Processor × Option String)
stop p =
    if not p.is_running
    then done (p, some "processor is not running")
    else if p.stop_closed
    then panic
    else done (record p { is_running = false; stop_closed = true }, none)

-- `handleMarginOfferEvent`. Of two channels that are ready, `select` takes one at random: `quits` is
-- its choice between the stop channel and the events.
unfoldable pub handle_margin_offer_event : Bool → MarginOfferEvent → Processor → Processor
handle_margin_offer_event quits event p =
    let room = ltb (length p.margin_offer_events) 1000 in
    if room && not (p.stop_closed && quits)
    then record p {
      margin_offer_events = p.margin_offer_events ++ event ∷ [];
      last_event_time = some event.timestamp;
    }
    else p

-- `handleLiquidityEvent`
unfoldable pub handle_liquidity_event : Bool → LiquidityEvent → Processor → Processor
handle_liquidity_event quits event p =
    let room = ltb (length p.liquidity_events) 1000 in
    if room && not (p.stop_closed && quits)
    then record p {
      liquidity_events = p.liquidity_events ++ event ∷ [];
      last_event_time = some event.timestamp;
    }
    else p

-- What the loops over liquidity events and interest rate events do with a result: an error is
-- counted, and the event is not tried again.
unfoldable pub count_failure : ProcessingResult → Processor → Processor
count_failure result p = if result.success then p else record p { error_count = suc p.error_count }

-- `ETLStatus`
pub record EtlStatus : Type 0 where
  pub is_running : Bool
  pub start_time : Time
  pub last_event_time : Option Time
  pub connection_status : String
  pub subscriptions : List String
  pub error_count : ℕ
  pub restart_count : ℕ

-- `GetStatus`, where `connected` is what the chain client says.
unfoldable pub get_status : Bool → Processor → EtlStatus
get_status connected p = record {
  is_running = p.is_running;
  start_time = p.start_time;
  last_event_time = p.last_event_time;
  connection_status = if connected then "connected" else "disconnected";
  subscriptions = "margin_offers" ∷ "liquidity" ∷ "interest_rates" ∷ [];
  error_count = p.error_count;
  restart_count = 0;  -- a field that nothing raises
}

-- A call of the processor's owner.
pub data OwnerCall : Type 0 where
  start_call : Option String → Time → OwnerCall
  stop_call : OwnerCall

unfoldable pub run_calls : List OwnerCall → Processor → Run Processor
unfolding start stop
run_calls [] p = done p
run_calls (start_call connected now ∷ calls) p = run_calls calls (start connected now p).0
run_calls (stop_call ∷ calls) p = do stopped ← stop p; run_calls calls stopped.0

-- The stops that come while the processor runs, by the calls alone.
unfoldable pub effective_stops : Bool → List OwnerCall → ℕ
effective_stops running [] = 0
effective_stops running (start_call (some _) _ ∷ calls) = effective_stops running calls
effective_stops running (start_call none _ ∷ calls) = effective_stops true calls
effective_stops true (stop_call ∷ calls) = suc (effective_stops false calls)
effective_stops false (stop_call ∷ calls) = effective_stops false calls

-- The stop that panics.
abbrev fatal_stop : Bool → ℕ
fatal_stop stop_closed = if stop_closed then 1 else 2

start_lem :
    (connected : Option String) (now : Time) (p : Processor) (calls : List OwnerCall)
    → ((start connected now p).0.stop_closed ≡ p.stop_closed)
      × (effective_stops p.is_running (start_call connected now ∷ calls)
          ≡ effective_stops (start connected now p).0.is_running calls)
unfolding effective_stops start
start_lem none now p calls = (ground arith, ground arith)
start_lem (some e) now p calls = (ground arith, ground arith)

stop_idle :
    (p : Processor) (calls : List OwnerCall)
    → p.is_running ≡ false
    → (run_calls (stop_call ∷ calls) p ≡ run_calls calls p)
      × (effective_stops p.is_running (stop_call ∷ calls) ≡ effective_stops p.is_running calls)
unfolding run_calls stop effective_stops
stop_idle p calls idle = (rw (stop, idle) refl, rw (effective_stops, idle) refl)

stop_running :
    (p : Processor) (calls : List OwnerCall)
    → p.is_running ≡ true
    → p.stop_closed ≡ false
    → run_calls (stop_call ∷ calls) p
      ≡ run_calls calls (record p { is_running = false; stop_closed = true })
unfolding run_calls stop
stop_running p calls running open_yet = rw (stop, running, open_yet) refl

stop_again :
    (p : Processor) (calls : List OwnerCall)
    → p.is_running ≡ true
    → p.stop_closed ≡ true
    → run_calls (stop_call ∷ calls) p ≡ panic
unfolding run_calls stop
stop_again p calls running closed = rw (stop, running, closed) refl

counted_stop :
    (p : Processor) (calls : List OwnerCall)
    → p.is_running ≡ true
    → effective_stops p.is_running (stop_call ∷ calls) ≡ suc (effective_stops false calls)
unfolding effective_stops
counted_stop p calls running = rw (effective_stops, running) refl

run_calls_lem :
    (calls : List OwnerCall) (p : Processor)
    → (run_calls calls p ≡ panic) ↔ (fatal_stop p.stop_closed ≤ effective_stops p.is_running calls)
unfolding run_calls
run_calls_lem [] p = (unfold effective_stops in (λ h. ground arith, λ h. ground arith))
run_calls_lem (start_call connected now ∷ calls) p =
    let q = (start connected now p).0 in
    let (closed, stops) = start_lem connected now p calls in
    let ih = run_calls_lem calls q in
    (
      (λ h.
          rw stops
            (subst (λ b. fatal_stop b ≤ effective_stops q.is_running calls) closed (ih.0 h))),
      (λ h. ih.1 (rw closed (subst (λ n. fatal_stop p.stop_closed ≤ n) stops h))),
    )
run_calls_lem (stop_call ∷ calls) p = elim (Bool-cases p.is_running) [
  | inr idle ↦
      let (ran, stops) = stop_idle p calls idle in
      let ih = run_calls_lem calls p in
      (
        (λ h. subst (λ n. fatal_stop p.stop_closed ≤ n) (sym stops) (ih.0 (sym ran ∙ h))),
        (λ h. ran ∙ ih.1 (subst (λ n. fatal_stop p.stop_closed ≤ n) stops h)),
      )
  | inl running ↦ elim (Bool-cases p.stop_closed) [
    | inl closed ↦ (
      (λ h. rw (closed, counted_stop p calls running) (omega arith)),
      (λ h. stop_again p calls running closed),
    )
    | inr open_yet ↦
        let ran = stop_running p calls running open_yet in
        let ih = run_calls_lem calls (record p { is_running = false; stop_closed = true }) in
        (
          (λ h. rw (open_yet, counted_stop p calls running) (omega (arith, ih.0 (sym ran ∙ h)))),
          (λ h.
              ran
              ∙ ih.1 (
                  omega (
                    arith,
                    counted_stop p calls running,
                    subst (λ b. fatal_stop b ≤ effective_stops p.is_running (stop_call ∷ calls))
                        open_yet h,
                  ))),
        )
  ]
]

-- A history of Start and Stop calls on a new processor, where Start may fail to connect, panics
-- exactly when at least two of its Stop calls come while the processor runs.
pub run_calls-panic :
    (calls : List OwnerCall)
    → (run_calls calls new_processor ≡ panic) ↔ (2 ≤ effective_stops false calls)
run_calls-panic calls = run_calls_lem calls new_processor
