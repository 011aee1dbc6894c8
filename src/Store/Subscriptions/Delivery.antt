-- ===== src/Store/Subscriptions/Delivery.antt =====
-- What the delivery of events and the end of subscriptions do to one another.
use margin_offer_system.Base.{
  ℕ, suc, ◌≤◌, String, ◌≡◌, refl, true, false, none, some, List, [], ◌∷◌, ◌++◌, arith, ◌==◌, eq_iff,
  eq_refl, if◌then◌else◌, length, length-append, ltb, Bool-cases, leb, ◌⊎◌, inl, inr, ◌∙◌, ap,
}
use margin_offer_system.Base.GoMap.{Assoc, lookup, insert, lookup-insert}
use margin_offer_system.Base.Run.{Run, done}
use margin_offer_system.Types.Time.{Time}
use margin_offer_system.Store.Notification.{ChangeEvent}
use margin_offer_system.Store.Subscriptions.{
  Subscription, Subscriptions, SubscribeRequest, Message, change, heartbeat, contains, without,
  subscribe, close_channel, at_pointer, on_object, drop_subscription, unsubscribe,
  matches_subscription, send, deliver, for_each, deliver_to, process_change_event, send_heartbeats,
  channel_capacity, max_subscriptions,
}

-- A subscription in force: its channel is open and not over its capacity.
pub record IsOpen (s : Subscription) : Type 0 where
  pub not_closed : s.closed ≡ false
  pub fits : length s.channel ≤ channel_capacity

-- Each key of the map points to a subscription whose channel is open and not over its capacity.
abbrev pub IsSound : Subscriptions → Type 0
IsSound ns =
    (id : String)
    → contains id ns.live ≡ true
    → (s : Subscription) × (lookup id ns.heap ≡ some s) × IsOpen s

-- What a step does to the object that it is called on.
abbrev pub KeepsOpen : (Subscription → Run Subscription) → Type 0
KeepsOpen act = (s : Subscription) → IsOpen s → (s' : Subscription) × (act s ≡ done s') × IsOpen s'

send-KeepsOpen : (now : Time) (m : Subscription → Message) → KeepsOpen (λ s. send now (m s) s)
unfolding send
send-KeepsOpen now m s o = elim (Bool-cases (ltb (length s.channel) channel_capacity)) [
  | inl e ↦ (
    record s { channel = s.channel ++ m s ∷ []; last_activity = now },
    rw (o.not_closed, e) refl,
    record {
      not_closed = o.not_closed;
      fits = ground (arith, length-append s.channel (m s ∷ []), e);
    },
  )
  | inr e ↦ (s, rw (o.not_closed, e) refl, o)
]

pub deliver-KeepsOpen : (now : Time) (event : ChangeEvent) → KeepsOpen (deliver now event)
unfolding deliver
deliver-KeepsOpen now event s o = elim (Bool-cases (matches_subscription event s.filters)) [
  | inl e ↦ rw e (send-KeepsOpen now (λ s. change event) s o)
  | inr e ↦ (s, rw e refl, o)
]

pub at_pointer_lem :
    (act : Subscription → Run Subscription) (id : String) (heap : Assoc Subscription)
    {s s' : Subscription}
    → lookup id heap ≡ some s
    → act s ≡ done s'
    → at_pointer act id heap ≡ done (insert id s' heap)
unfolding at_pointer on_object
at_pointer_lem act id heap found ran = ap (on_object act id heap) found ∙ (rw ran refl)

at_pointer-IsSound :
    (act : Subscription → Run Subscription) (id : String) (ns : Subscriptions)
    → KeepsOpen act
    → IsSound ns
    → contains id ns.live ≡ true
    → (heap : Assoc Subscription) × (at_pointer act id ns.heap ≡ done heap)
      × IsSound (record ns { heap = heap })
at_pointer-IsSound act id ns keeps sound here =
    let (s, found, o) = sound id here in
    let (s', ran, o') = keeps s o in
    (
      insert id s' ns.heap,
      at_pointer_lem act id ns.heap found ran,
      λ x inside.
          let (t, held, p) = sound x inside in
          elim (Bool-cases (id == x)) [
            | inl e ↦ (s', lookup-insert id x s' ns.heap ∙ (rw e refl), o')
            | inr e ↦ (t, lookup-insert id x s' ns.heap ∙ (rw e held), p)
          ],
    )

for_each-IsSound :
    (act : ℕ → Subscription → Run Subscription) (i : ℕ) (ids : List String) (ns : Subscriptions)
    → ((k : ℕ) → KeepsOpen (act k))
    → IsSound ns
    → ((id : String) → contains id ids ≡ true → contains id ns.live ≡ true)
    → (heap : Assoc Subscription) × (for_each act i ids ns.heap ≡ done heap)
      × IsSound (record ns { heap = heap })
unfolding for_each contains
for_each-IsSound act i [] ns keeps sound inside = (ns.heap, refl, sound)
for_each-IsSound act i (id ∷ ids) ns keeps sound inside =
    let here : contains id ns.live ≡ true = inside id (rw (eq_refl id) refl) in
    let (heap, ran, sound') = at_pointer-IsSound (act i) id ns (keeps i) sound here in
    let (heap', ran', sound'') =
      for_each-IsSound act (suc i) ids (record ns { heap = heap }) keeps sound'
        (λ x h. inside x (ground (arith, h))) in
    (heap', rw ran ran', sound'')

-- If every subscription of the map has an open channel that is not over its capacity,
-- processChangeEvent, if nothing comes between its halves, ends without a panic, keeps this, and
-- leaves the keys of the map.
pub process_change_event-IsSound :
    (now : ℕ → Time) (event : ChangeEvent) (ns : Subscriptions)
    → IsSound ns
    → (ns' : Subscriptions) × (process_change_event now event ns ≡ done ns')
      × IsSound ns'
      × (ns'.live ≡ ns.live)
unfolding process_change_event deliver_to
process_change_event-IsSound now event ns sound =
    let (heap, ran, sound') =
      for_each-IsSound (λ i. deliver (now i) event) 0 ns.live ns
        (λ i. deliver-KeepsOpen (now i) event) sound (λ id h. h) in
    (record ns { heap = heap }, rw ran refl, sound', refl)

-- If every subscription of the map has an open channel that is not over its capacity,
-- sendHeartbeats, if nothing comes between its halves, ends without a panic, keeps this, and
-- leaves the keys of the map.
pub send_heartbeats-IsSound :
    (now : Time) (ns : Subscriptions)
    → IsSound ns
    → (ns' : Subscriptions) × (send_heartbeats now ns ≡ done ns')
      × IsSound ns'
      × (ns'.live ≡ ns.live)
unfolding send_heartbeats
send_heartbeats-IsSound now ns sound =
    let (heap, ran, sound') =
      for_each-IsSound (λ i s. send now (heartbeat now s.client_id s.session_id) s) 0 ns.live ns
        (λ i. send-KeepsOpen now (λ s. heartbeat now s.client_id s.session_id)) sound (λ id h. h) in
    (record ns { heap = heap }, rw ran refl, sound', refl)

pub contains-without :
    (x id : String) (keys : List String)
    → contains x (without id keys) ≡ (if id == x then false else contains x keys)
unfolding contains without
contains-without x id [] = ground arith
contains-without x id (key ∷ keys) =
    ground (arith, contains-without x id keys, eq_iff key id, eq_iff key x, eq_iff id x)

-- If every subscription of the map has an open channel that is not over its capacity, Unsubscribe
-- of one of them ends without a panic, keeps this, and takes its key and no other out of the map.
pub unsubscribe-IsSound :
    (id : String) (ns : Subscriptions)
    → IsSound ns
    → contains id ns.live ≡ true
    → (ns' : Subscriptions) × (unsubscribe id ns ≡ done (some ns'))
      × IsSound ns'
      × ((x : String) → contains x ns'.live ≡ (if id == x then false else contains x ns.live))
unfolding unsubscribe drop_subscription close_channel
unsubscribe-IsSound id ns sound here =
    let (s, found, o) = sound id here in
    let s' : Subscription = record s { closed = true } in
    let ran : close_channel s ≡ done s' = rw o.not_closed refl in
    let dropped = at_pointer_lem close_channel id ns.heap found ran in
    let ns' : Subscriptions = record { heap = insert id s' ns.heap; live = without id ns.live } in
    (
      ns',
      rw (here, dropped) refl,
      λ x inside.
          let other : (id == x) ≡ false = ground (arith, contains-without x id ns.live, inside) in
          let (t, held, p) = sound x (ground (arith, contains-without x id ns.live, inside)) in
          (t, lookup-insert id x s' ns.heap ∙ (rw other held), p),
      λ x. contains-without x id ns.live,
    )

-- If every subscription of the map has an open channel that is not over its capacity, and the map
-- is not over its limit, then either the map is at its limit and Subscribe refuses, or Subscribe
-- adds a subscription with the given filters and an empty channel under the fresh ID, keeps the
-- channels open, and the map stays within its limit.
pub subscribe-IsSound :
    (fresh : String) (now now' : Time) (req : SubscribeRequest) (ns : Subscriptions)
    → IsSound ns
    → length ns.live ≤ max_subscriptions
    → ((length ns.live ≡ max_subscriptions) × (subscribe fresh now now' req ns ≡ none))
      ⊎ ((s : Subscription) × (ns' : Subscriptions) × (subscribe fresh now now' req ns
            ≡ some (s, ns'))
          × IsSound ns'
          × (length ns'.live ≤ max_subscriptions)
          × (contains fresh ns'.live ≡ true)
          × (lookup fresh ns'.heap ≡ some s)
          × (s.filters ≡ req)
          × (s.channel ≡ []))
unfolding subscribe contains
subscribe-IsSound fresh now now' req ns sound bound =
    elim (Bool-cases (leb max_subscriptions (length ns.live))) [
      | inl full ↦ inl (ground (arith, full, bound), rw full refl)
      | inr room ↦
          let s : Subscription = record {
            id = fresh;
            client_id = req.client_id;
            session_id = req.session_id;
            filters = req;
            channel = [];
            closed = false;
            created_at = now;
            last_activity = now';
          } in
          let held : (x : String)
              → lookup x (insert fresh s ns.heap)
                ≡ (if fresh == x then some s else lookup x ns.heap) =
            λ x. lookup-insert fresh x s ns.heap in
          inr (
            s,
            record { heap = insert fresh s ns.heap; live = fresh ∷ ns.live },
            rw room refl,
            λ x inside. elim (Bool-cases (fresh == x)) [
              | inl e ↦ (s, held x ∙ (rw e refl), record { not_closed = refl; fits = omega arith })
              | inr e ↦
                  let (t, there, o) = sound x (ground (arith, inside, e)) in
                  (t, held x ∙ (rw e there), o)
            ],
            ground (arith, room, bound),
            (rw (eq_refl fresh) refl),
            held fresh ∙ (rw (eq_refl fresh) refl),
            refl,
            refl,
          )
    ]
