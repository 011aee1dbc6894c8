-- ===== src/Store/Subscriptions/Histories.antt =====
-- store/notification_service.go: all that happens to the subscriptions, in any order. Of
-- store/grpc_server.go the receive of a handler.
use margin_offer_system.Base.{
  ℕ, ◌≤◌, String, ◌≡◌, refl, ◌∙◌, ap, true, false, Option, none, some, List, [], ◌∷◌, arith, ◌==◌,
  eq_iff, eq_refl, length, leb, Bool-cases, inl, inr, Option-cases, subst, sym,
}
use margin_offer_system.Base.GoMap.{lookup, insert, lookup-insert}
use margin_offer_system.Base.Run.{Run, done, ◌>>=◌}
use margin_offer_system.Types.Time.{Time}
use margin_offer_system.Store.Notification.{ChangeEvent}
use margin_offer_system.Store.Subscriptions.{
  Subscription, Subscriptions, SubscribeRequest, Message, contains, subscribe, unsubscribe,
  cleanup_inactive, process_change_event, send_heartbeats, max_subscriptions,
}
use margin_offer_system.Store.Subscriptions.Delivery.{
  IsSound, IsOpen, process_change_event-IsSound, send_heartbeats-IsSound, subscribe-IsSound,
}
use margin_offer_system.Store.Subscriptions.Account.{AreDistinct, apart}
use margin_offer_system.Store.Subscriptions.Cleanup.{
  IsReduced, cleanup_inactive-IsReduced, unsubscribe-IsReduced,
}

-- A call of Subscribe with its UUID and its clock, a call of Unsubscribe, a round of the event
-- processor for an event as the round sees it, a round of the heartbeats or of the cleanup, and a
-- receive by the handler of a subscription.
pub data Occurrence : Type 0 where
  subscription : String → Time → Time → SubscribeRequest → Occurrence
  unsubscription : String → Occurrence
  announcement : (ℕ → Time) → ChangeEvent → Occurrence
  heartbeats : Time → Occurrence
  cleaning : Time → Occurrence
  receipt : String → Occurrence

-- The service after a call of Subscribe or of Unsubscribe: an error changes nothing.
abbrev after_subscribe : Subscriptions → Option (Subscription × Subscriptions) → Subscriptions
after_subscribe ns none = ns
after_subscribe ns (some (_, ns')) = ns'

abbrev after_unsubscribe : Subscriptions → Option Subscriptions → Subscriptions
after_unsubscribe ns none = ns
after_unsubscribe ns (some ns') = ns'

abbrev rest_of : List Message → List Message
rest_of [] = []
rest_of (_ ∷ ms) = ms

-- `event := <-subscription.Channel`, which waits where the channel is empty.
abbrev receive_message : Subscription → Subscription
receive_message s = record s { channel = rest_of s.channel }

-- Who has no subscription receives nothing.
abbrev received : String → Subscriptions → Option Subscription → Subscriptions
received id ns none = ns
received id ns (some s) = record ns { heap = insert id (receive_message s) ns.heap }

unfoldable pub occur : Occurrence → Subscriptions → Run Subscriptions
unfolding subscribe unsubscribe process_change_event send_heartbeats cleanup_inactive
occur (subscription fresh now now' req) ns =
    done (after_subscribe ns (subscribe fresh now now' req ns))
occur (unsubscription id) ns = do answer ← unsubscribe id ns; done (after_unsubscribe ns answer)
occur (announcement now event) ns = process_change_event now event ns
occur (heartbeats now) ns = send_heartbeats now ns
occur (cleaning now) ns = cleanup_inactive now ns
occur (receipt id) ns = done (received id ns (lookup id ns.heap))

unfoldable pub occur_all : List Occurrence → Subscriptions → Run Subscriptions
unfolding occur
occur_all [] ns = done ns
occur_all (h ∷ hs) ns = do next ← occur h ns; occur_all hs next

-- The UUIDs that the calls of Subscribe draw, in order.
abbrev pub drawn : List Occurrence → List String
drawn [] = []
drawn (subscription fresh _ _ _ ∷ hs) = fresh ∷ drawn hs
drawn (_ ∷ hs) = drawn hs

-- The subscriptions in force: their channels are open and not over their capacity, no key of the
-- map stands twice, and the map is not over its limit.
pub record IsInForce (ns : Subscriptions) : Type 0 where
  pub sound : IsSound ns
  pub distinct : AreDistinct ns.live
  pub bound : length ns.live ≤ max_subscriptions

-- What an occurrence comes to, where `fresh` are the keys that it may add.
record IsKept (fresh : List String) (ns ns' : Subscriptions) : Type 0 where
  in_force : IsInForce ns'
  added :
      (id : String)
      → contains id fresh ≡ false
      → contains id ns.live ≡ false
      → contains id ns'.live ≡ false

-- That it ends without a panic, and so.
Ends : List String → Subscriptions → Run Subscriptions → Type 0
Ends fresh ns run = (ns' : Subscriptions) × (run ≡ done ns') × IsKept fresh ns ns'

length-rest_of : (ms : List Message) → length (rest_of ms) ≤ length ms
length-rest_of [] = omega arith
length-rest_of (_ ∷ ms) = omega arith

receive_message-IsOpen : (s : Subscription) → IsOpen s → IsOpen (receive_message s)
receive_message-IsOpen s o = record {
  not_closed = o.not_closed;
  fits = omega (arith, length-rest_of s.channel, o.fits);
}

module _ (ns : Subscriptions) (h : IsInForce ns) where
  unchanged : (fresh : List String) → IsKept fresh ns ns
  unchanged fresh = record { in_force = h; added = λ id _ absent. absent }

  reduced : (ns' : Subscriptions) → IsReduced ns ns' → IsKept [] ns ns'
  reduced ns' r = record {
    in_force = record {
      sound = r.sound;
      distinct = r.distinct;
      bound = omega (arith, r.shorter, h.bound);
    };
    added = λ id _ absent. r.added id absent;
  }

  same_keys : (ns' : Subscriptions) → IsSound ns' → ns'.live ≡ ns.live → IsKept [] ns ns'
  same_keys ns' sound same = record {
    in_force = record {
      sound = sound;
      distinct = subst AreDistinct (sym same) h.distinct;
      bound = rw same h.bound;
    };
    added = λ id _ absent. rw same absent;
  }

  subscribe-live :
      (fresh : String) (now now' : Time) (req : SubscribeRequest)
      → leb max_subscriptions (length ns.live) ≡ false
      → (after_subscribe ns (subscribe fresh now now' req ns)).live ≡ fresh ∷ ns.live
  unfolding subscribe
  subscribe-live fresh now now' req room = rw room refl

  -- Subscribe refuses, or adds its key, which is in the map of no other subscription.
  subscription-Ends :
      (fresh : String) (now now' : Time) (req : SubscribeRequest)
      → contains fresh ns.live ≡ false
      → Ends (fresh ∷ []) ns (occur (subscription fresh now now' req) ns)
  unfolding Ends occur contains
  subscription-Ends fresh now now' req unused =
      elim (subscribe-IsSound fresh now now' req ns h.sound h.bound) [
        | inl (_, e) ↦ (ns, rw e refl, unchanged (fresh ∷ []))
        | inr (s, ns', e, sound, bound, _, _, _, _) ↦
            elim (Bool-cases (leb max_subscriptions (length ns.live))) [
              | inl full ↦ absurd (unfold subscribe in ground (arith, full, e))
              | inr room ↦
                  let live : ns'.live ≡ fresh ∷ ns.live =
                    subst (λ o. (after_subscribe ns o).live ≡ fresh ∷ ns.live) e
                      (subscribe-live fresh now now' req room) in
                  (
                    ns',
                    rw e refl,
                    record {
                      in_force = record {
                        sound = sound;
                        distinct = rw live (unused, h.distinct);
                        bound = bound;
                      };
                      added = λ id other absent. rw live (ground (arith, other, absent));
                    },
                  )
            ]
      ]

  unsubscription-Ends : (id : String) → Ends [] ns (occur (unsubscription id) ns)
  unfolding Ends occur
  unsubscription-Ends id = elim (unsubscribe-IsReduced id ns h.sound h.distinct) [
    | inl e ↦ (ns, rw e refl, unchanged [])
    | inr (ns', e, r) ↦ (ns', rw e refl, reduced ns' r)
  ]

  announcement-Ends :
      (now : ℕ → Time) (event : ChangeEvent) → Ends [] ns (occur (announcement now event) ns)
  unfolding Ends occur
  announcement-Ends now event =
      let (ns', ran, sound, same) = process_change_event-IsSound now event ns h.sound in
      (ns', ran, same_keys ns' sound same)

  heartbeats-Ends : (now : Time) → Ends [] ns (occur (heartbeats now) ns)
  unfolding Ends occur
  heartbeats-Ends now =
      let (ns', ran, sound, same) = send_heartbeats-IsSound now ns h.sound in
      (ns', ran, same_keys ns' sound same)

  cleaning-Ends : (now : Time) → Ends [] ns (occur (cleaning now) ns)
  unfolding Ends occur
  cleaning-Ends now =
      let (ns', ran, r) = cleanup_inactive-IsReduced now ns h.sound h.distinct in
      (ns', ran, reduced ns' r)

  -- A receive leaves the other objects, and a channel of the map open.
  received-IsKept :
      (id : String) (s : Subscription)
      → (contains id ns.live ≡ true → IsOpen s)
      → IsKept [] ns (received id ns (some s))
  received-IsKept id s opened =
      same_keys _
        (λ x inside.
          let (t, held, o) = h.sound x inside in
          let looks = lookup-insert id x (receive_message s) ns.heap in
          elim (Bool-cases (id == x)) [
            | inr e ↦ (t, looks ∙ (rw e held), o)
            | inl e ↦ (
              receive_message s,
              looks ∙ (rw e refl),
              receive_message-IsOpen s
                  (opened (ap (λ k. contains k ns.live) ((eq_iff id x).0 e) ∙ inside)),
            )
          ])
        refl

  receipt-Ends : (id : String) → Ends [] ns (occur (receipt id) ns)
  unfolding Ends occur
  receipt-Ends id = elim (Bool-cases (contains id ns.live)) [
    | inl here ↦
        let (s, held, o) = h.sound id here in (_, rw held refl, received-IsKept id s (λ _. o))
    | inr away ↦ elim (Option-cases (lookup id ns.heap)) [
      | inl e ↦ (ns, rw e refl, unchanged [])
      | inr (s, e) ↦
          (_, rw e refl, received-IsKept id s (λ here. absurd (ground (arith, here, away))))
    ]
  ]

-- What becomes of a history that `run` begins.
Continues : Run Subscriptions → List Occurrence → Type 0
Continues run hs = (ns' : Subscriptions) × ((run >>= occur_all hs) ≡ done ns') × IsInForce ns'

-- No UUID that is still to come is a key of the map.
IsUnused : List Occurrence → Subscriptions → Type 0
IsUnused hs ns = (id : String) → contains id (drawn hs) ≡ true → contains id ns.live ≡ false

continued :
    (fresh : List String) (ns : Subscriptions) (run : Run Subscriptions) (hs : List Occurrence)
    → Ends fresh ns run
    → ((id : String) → contains id (drawn hs) ≡ true → contains id fresh ≡ false)
    → IsUnused hs ns
    → ((next : Subscriptions) → IsInForce next → IsUnused hs next → Continues (done next) hs)
    → Continues run hs
unfolding Ends Continues IsUnused
continued fresh ns run hs (next, e, k) other unused rest =
    let (ns', ran, h') =
      rest next k.in_force (λ id later. k.added id (other id later) (unused id later)) in
    (ns', rw e ran, h')

history :
    (hs : List Occurrence) (ns : Subscriptions)
    → IsInForce ns
    → AreDistinct (drawn hs)
    → IsUnused hs ns
    → Continues (done ns) hs
unfolding Continues IsUnused occur_all contains
history [] ns h distinct unused = (ns, refl, h)
history (subscription fresh now now' req ∷ hs) ns h distinct unused =
    continued (fresh ∷ []) ns _ hs
      (subscription-Ends ns h fresh now now' req (unused fresh (rw (eq_refl fresh) refl)))
      (λ id later. rw (apart fresh id (drawn hs) distinct.0 later) refl)
      (λ id later. unused id (ground (arith, later)))
      (λ next h' unused'. history hs next h' distinct.1 unused')
history (unsubscription id ∷ hs) ns h distinct unused =
    continued [] ns _ hs (unsubscription-Ends ns h id) (λ _ _. refl) unused
      (λ next h' unused'. history hs next h' distinct unused')
history (announcement now event ∷ hs) ns h distinct unused =
    continued [] ns _ hs (announcement-Ends ns h now event) (λ _ _. refl) unused
      (λ next h' unused'. history hs next h' distinct unused')
history (heartbeats now ∷ hs) ns h distinct unused =
    continued [] ns _ hs (heartbeats-Ends ns h now) (λ _ _. refl) unused
      (λ next h' unused'. history hs next h' distinct unused')
history (cleaning now ∷ hs) ns h distinct unused =
    continued [] ns _ hs (cleaning-Ends ns h now) (λ _ _. refl) unused
      (λ next h' unused'. history hs next h' distinct unused')
history (receipt id ∷ hs) ns h distinct unused =
    continued [] ns _ hs (receipt-Ends ns h id) (λ _ _. refl) unused
      (λ next h' unused'. history hs next h' distinct unused')

-- Whatever calls of Subscribe and Unsubscribe, rounds of the event processor, of the heartbeats
-- and of the cleanup, and receives of handlers come to the subscriptions in force, one after
-- another, where the UUIDs that Subscribe draws differ from one another and from the keys of the
-- map, they end without a panic; then each subscription of the map has an open channel that is
-- not over its capacity, no key of the map stands twice, and there are at most 1000.
pub occur_all-IsInForce :
    (hs : List Occurrence) (ns : Subscriptions)
    → IsInForce ns
    → AreDistinct (drawn hs)
    → ((id : String) → contains id (drawn hs) ≡ true → contains id ns.live ≡ false)
    → (ns' : Subscriptions) × (occur_all hs ns ≡ done ns') × IsInForce ns'
unfolding Continues IsUnused
occur_all-IsInForce hs ns h distinct unused = history hs ns h distinct unused
