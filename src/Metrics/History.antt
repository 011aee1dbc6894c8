-- ===== src/Metrics/History.antt =====
-- pkg/metrics/metrics.go: what the collector holds after any history of calls.
use Prim.Native.String
use margin_offer_system.Base.{
  ◌≡◌, refl, ◌∙◌, ap, String, true, false, Option, none, some, List, [], ◌∷◌, ◌==◌, arith, eq_iff,
  if◌then◌else◌,
}
use margin_offer_system.Base.GoMap.{
  Assoc, made, get, put, entries, lookup, insert, IsDistinct, insert-IsDistinct, lookup-insert,
  lookup-copy,
}
use margin_offer_system.Base.Run.{Run, done, ◌>>=◌}
use margin_offer_system.Types.Time.{Time}
use margin_offer_system.Metrics.{
  HealthStatus, MetricsCollector, new_metrics_collector, build_key, value_or, add_counter,
  set_gauge, record_duration, record_value, set_healthy, set_unhealthy, get_counters, get_gauges,
  get_health,
}

-- A call of the collector; `IncCounter` adds one.
pub data Call (V : Type 0) : Type 0 where
  adds : String → V → Assoc String → Call V
  sets durations values : String → V → Assoc String → Call V
  healthy : Time → String → Call V
  unhealthy : Time → String → String → Call V

-- The key and the value of a call that sets a gauge, and the key of one that adds to a counter.
abbrev pub gauge_of : {V : Type 0} → Call V → Option (String × V)
gauge_of (adds name v tags) = none
gauge_of (sets name v tags) = some (build_key name tags, v)
gauge_of (durations name v tags) = some (build_key (String.◌++◌ name "_duration_ms") tags, v)
gauge_of (values name v tags) = some (build_key name tags, v)
gauge_of (healthy now service) = none
gauge_of (unhealthy now service reason) = none

abbrev pub counter_of : {V : Type 0} → Call V → Option (String × V)
counter_of (adds name v tags) = some (build_key name tags, v)
counter_of (sets name v tags) = none
counter_of (durations name v tags) = none
counter_of (values name v tags) = none
counter_of (healthy now service) = none
counter_of (unhealthy now service reason) = none

abbrev pub health_of : {V : Type 0} → Call V → Option (String × HealthStatus)
health_of (adds name v tags) = none
health_of (sets name v tags) = none
health_of (durations name v tags) = none
health_of (values name v tags) = none
health_of (healthy now service) =
    some (service, record { healthy = true; reason = ""; updated = now })
health_of (unhealthy now service reason) =
    some (service, record { healthy = false; reason = reason; updated = now })

-- What the calls of a history carry under a key, oldest first.
abbrev pub under : {V W : Type 0} → (Call V → Option (String × W)) → String → List (Call V) → List W
under part key [] = []
under part key (call ∷ calls) =
    let rest = under part key calls in
    elim (part call) [ none ↦ rest | some (k, w) ↦ if k == key then w ∷ rest else rest ]

-- The last value of a list, or the one before it.
abbrev pub last_of : {W : Type 0} → Option W → List W → Option W
last_of before [] = before
last_of before (w ∷ ws) = last_of (some w) ws

last_step :
    {W : Type 0} (key asked : String) (w : W) (m : Assoc W) (rest : List W)
    → last_of (lookup asked (insert key w m)) rest
      ≡ last_of (lookup asked m) (if key == asked then w ∷ rest else rest)
last_step key asked w m rest = rw (lookup-insert key asked w m) (ground arith)

module _ {V : Type 0} (zero : V) (add : V → V → V) where
  -- The sum from the left, over what was there before.
  abbrev pub sum_of : Option V → List V → Option V
  sum_of before [] = before
  sum_of before (v ∷ vs) = sum_of (some (add (value_or zero before) v)) vs

  unfoldable pub perform : Call V → MetricsCollector V → Run (MetricsCollector V)
  unfolding add_counter set_gauge record_duration record_value set_healthy set_unhealthy
  perform (adds name v tags) m = add_counter zero add name v tags m
  perform (sets name v tags) m = set_gauge name v tags m
  perform (durations name v tags) m = record_duration name v tags m
  perform (values name v tags) m = record_value name v tags m
  perform (healthy now service) m = set_healthy now service m
  perform (unhealthy now service reason) m = set_unhealthy now service reason m

  unfoldable pub perform_all : List (Call V) → MetricsCollector V → Run (MetricsCollector V)
  unfolding perform
  perform_all [] m = done m
  perform_all (call ∷ calls) m = do next ← perform call m; perform_all calls next

  -- The three maps of a collector.
  abbrev collector : Assoc V → Assoc V → Assoc HealthStatus → MetricsCollector V
  collector counters gauges health = record {
    counters = made counters;
    gauges = made gauges;
    health = made health;
  }

  sum_step :
      (key asked : String) (v : V) (m : Assoc V) (rest : List V)
      → sum_of (lookup asked (insert key (add (value_or zero (lookup key m)) v) m)) rest
        ≡ sum_of (lookup asked m) (if key == asked then v ∷ rest else rest)
  sum_step key asked v m rest =
      rw (lookup-insert key asked (add (value_or zero (lookup key m)) v) m)
        (ground (arith, eq_iff key asked, ap (λ k. lookup k m)))

  history_lem :
      (calls : List (Call V)) (cs gs : Assoc V) (hs : Assoc HealthStatus)
      → IsDistinct cs
      → IsDistinct gs
      → IsDistinct hs
      → (cs' : Assoc V) × (gs' : Assoc V) × (hs' : Assoc HealthStatus) × (perform_all calls
            (collector cs gs hs)
          ≡ done (collector cs' gs' hs'))
        × (IsDistinct cs' × IsDistinct gs' × IsDistinct hs')
        × ((key : String) → lookup key cs' ≡ sum_of (lookup key cs) (under counter_of key calls))
        × ((key : String) → lookup key gs' ≡ last_of (lookup key gs) (under gauge_of key calls))
        × ((key : String) → lookup key hs' ≡ last_of (lookup key hs) (under health_of key calls))
  unfolding perform_all perform add_counter set_gauge record_duration record_value set_healthy
      set_unhealthy put get
  history_lem [] cs gs hs c g h =
      (cs, gs, hs, refl, (c, g, h), λ key. refl, λ key. refl, λ key. refl)
  history_lem (adds name v tags ∷ calls) cs gs hs c g h =
      let key = build_key name tags in
      let value = add (value_or zero (lookup key cs)) v in
      let (cs', gs', hs', ran, d, kc, kg, kh) =
        history_lem calls (insert key value cs) gs hs (insert-IsDistinct key value cs c) g h in
      (cs', gs', hs', ran, d, λ k. kc k ∙ sum_step key k v cs _, kg, kh)
  history_lem (sets name v tags ∷ calls) cs gs hs c g h =
      let key = build_key (name) tags in
      let (cs', gs', hs', ran, d, kc, kg, kh) =
        history_lem calls cs (insert key v gs) hs c (insert-IsDistinct key v gs g) h in
      (cs', gs', hs', ran, d, kc, λ k. kg k ∙ last_step key k v gs _, kh)
  history_lem (durations name v tags ∷ calls) cs gs hs c g h =
      let key = build_key (String.◌++◌ name "_duration_ms") tags in
      let (cs', gs', hs', ran, d, kc, kg, kh) =
        history_lem calls cs (insert key v gs) hs c (insert-IsDistinct key v gs g) h in
      (cs', gs', hs', ran, d, kc, λ k. kg k ∙ last_step key k v gs _, kh)
  history_lem (values name v tags ∷ calls) cs gs hs c g h =
      let key = build_key (name) tags in
      let (cs', gs', hs', ran, d, kc, kg, kh) =
        history_lem calls cs (insert key v gs) hs c (insert-IsDistinct key v gs g) h in
      (cs', gs', hs', ran, d, kc, λ k. kg k ∙ last_step key k v gs _, kh)
  history_lem (healthy now service ∷ calls) cs gs hs c g h =
      let status : HealthStatus = record { healthy = true; reason = ""; updated = now } in
      let (cs', gs', hs', ran, d, kc, kg, kh) =
        history_lem calls cs gs (insert service status hs) c g
          (insert-IsDistinct service status hs h) in
      (cs', gs', hs', ran, d, kc, kg, λ k. kh k ∙ last_step service k status hs _)
  history_lem (unhealthy now service reason ∷ calls) cs gs hs c g h =
      let status : HealthStatus = record { healthy = false; reason = reason; updated = now } in
      let (cs', gs', hs', ran, d, kc, kg, kh) =
        history_lem calls cs gs (insert service status hs) c g
          (insert-IsDistinct service status hs h) in
      (cs', gs', hs', ran, d, kc, kg, λ k. kh k ∙ last_step service k status hs _)

  -- Any history of calls on a new collector goes through without a panic. Afterwards GetCounters
  -- has under a key the sum, from the left and from zero, of the values that were added under it,
  -- and GetGauges and GetHealth have what was last set; none has an entry where there was no such
  -- call.
  pub perform_all-reads :
      (calls : List (Call V))
      → (m : MetricsCollector V) × (perform_all calls new_metrics_collector ≡ done m)
        × ((key : String) → get key (get_counters m) ≡ sum_of none (under counter_of key calls))
        × ((key : String) → get key (get_gauges m) ≡ last_of none (under gauge_of key calls))
        × ((key : String) → get key (get_health m) ≡ last_of none (under health_of key calls))
  unfolding get_counters get_gauges get_health get entries lookup
  perform_all-reads calls =
      let (cs, gs, hs, ran, (c, g, h), kc, kg, kh) = history_lem calls [] [] [] tt tt tt in
      (
        collector cs gs hs,
        ran,
        λ key. lookup-copy key cs c ∙ kc key,
        λ key. lookup-copy key gs g ∙ kg key,
        λ key. lookup-copy key hs h ∙ kh key,
      )
