-- ===== src/Store/Subscriptions/Cleanup.antt =====
-- store/notification_service.go: `cleanupInactiveSubscriptions` and the map of subscriptions.
use margin_offer_system.Base.{
  ◌≤◌, String, ◌≡◌, refl, ◌∙◌, true, false, none, some, List, [], ◌∷◌, arith, ◌==◌, eq_iff, eq_refl,
  if◌then◌else◌, length, Bool-cases, ◌⊎◌, inl, inr,
}
use margin_offer_system.Base.GoMap.{lookup}
use margin_offer_system.Base.Run.{done, Run-cases}
use margin_offer_system.Types.Time.{Time, before}
use margin_offer_system.Store.Subscriptions.{
  Subscription, Subscriptions, contains, without, drop_subscription, unsubscribe, cleanup,
  cleanup_inactive, at_pointer, close_channel,
}
use margin_offer_system.Store.Subscriptions.Delivery.{
  IsSound, unsubscribe-IsSound, contains-without,
}
use margin_offer_system.Store.Subscriptions.Account.{AreDistinct}

-- What the end of subscriptions keeps: open channels, and keys that differ and are no more.
pub record IsReduced (ns ns' : Subscriptions) : Type 0 where
  pub sound : IsSound ns'
  pub distinct : AreDistinct ns'.live
  pub shorter : length ns'.live ≤ length ns.live
  pub added : (id : String) → contains id ns.live ≡ false → contains id ns'.live ≡ false

length-without : (id : String) (keys : List String) → length (without id keys) ≤ length keys
unfolding without
length-without id [] = omega arith
length-without id (key ∷ keys) = ground (arith, length-without id keys)

AreDistinct-without :
    (id : String) (keys : List String) → AreDistinct keys → AreDistinct (without id keys)
unfolding without
AreDistinct-without id [] h = tt
AreDistinct-without id (key ∷ keys) h = elim (Bool-cases (key == id)) [
  | inl e ↦ rw e (AreDistinct-without id keys h.1)
  | inr e ↦
      rw e (contains-without key id keys ∙ ground (arith, h.0), AreDistinct-without id keys h.1)
]

unsubscribed :
    (id : String) (ns ns' : Subscriptions)
    → contains id ns.live ≡ true
    → unsubscribe id ns ≡ done (some ns')
    → (drop_subscription id ns ≡ done ns') × (ns'.live ≡ without id ns.live)
unfolding unsubscribe drop_subscription
unsubscribed id ns ns' here ran = elim (Run-cases (at_pointer close_channel id ns.heap)) [
  | inl (heap, e) ↦ ground (arith, ran, e, here)
  | inr e ↦ absurd (ground (arith, ran, e, here))
]

-- One subscription of the map is dropped.
drop_subscription-IsReduced :
    (id : String) (ns : Subscriptions)
    → IsSound ns
    → AreDistinct ns.live
    → contains id ns.live ≡ true
    → (ns' : Subscriptions) × (drop_subscription id ns ≡ done ns')
      × IsReduced ns ns'
      × ((x : String) → contains x ns'.live ≡ (if id == x then false else contains x ns.live))
drop_subscription-IsReduced id ns sound distinct here =
    let (ns', ran, sound', keys) = unsubscribe-IsSound id ns sound here in
    let (dropped, live) = unsubscribed id ns ns' here ran in
    (
      ns',
      dropped,
      record {
        sound = sound';
        distinct = rw live (AreDistinct-without id ns.live distinct);
        shorter = rw live (length-without id ns.live);
        added = λ x absent. ground (arith, keys x, absent);
      },
      keys,
    )

-- A round of the loop: the key stays, or its subscription is dropped.
cleanup-kept :
    (cutoff : Time) (id : String) (ids : List String) (ns : Subscriptions) (s : Subscription)
    → lookup id ns.heap ≡ some s
    → before s.last_activity cutoff ≡ false
    → cleanup cutoff (id ∷ ids) ns ≡ cleanup cutoff ids ns
unfolding cleanup
cleanup-kept cutoff id ids ns s held e = rw (cleanup, held, e) refl

cleanup-dropped :
    (cutoff : Time) (id : String) (ids : List String) (ns ns' : Subscriptions) (s : Subscription)
    → lookup id ns.heap ≡ some s
    → before s.last_activity cutoff ≡ true
    → drop_subscription id ns ≡ done ns'
    → cleanup cutoff (id ∷ ids) ns ≡ cleanup cutoff ids ns'
unfolding cleanup
cleanup-dropped cutoff id ids ns ns' s held e dropped = rw (cleanup, held, e, dropped) refl

-- The loop of the cleanup over keys of the map, none of which stands twice.
cleanup-IsReduced :
    (cutoff : Time) (ids : List String) (ns : Subscriptions)
    → IsSound ns
    → AreDistinct ns.live
    → AreDistinct ids
    → ((id : String) → contains id ids ≡ true → contains id ns.live ≡ true)
    → (ns' : Subscriptions) × (cleanup cutoff ids ns ≡ done ns') × IsReduced ns ns'
unfolding cleanup contains
cleanup-IsReduced cutoff [] ns sound distinct apart inside = (
  ns,
  refl,
  record { sound = sound; distinct = distinct; shorter = omega arith; added = λ x absent. absent },
)
cleanup-IsReduced cutoff (id ∷ ids) ns sound distinct apart inside =
    let here : contains id ns.live ≡ true = inside id (rw (eq_refl id) refl) in
    let (s, held, _) = sound id here in
    let later : (x : String) → contains x ids ≡ true → contains x ns.live ≡ true =
      λ x h. inside x (ground (arith, h)) in
    elim (Bool-cases (before s.last_activity cutoff)) [
      | inr e ↦
          let (ns', ran, reduced) = cleanup-IsReduced cutoff ids ns sound distinct apart.1 later in
          (ns', cleanup-kept cutoff id ids ns s held e ∙ ran, reduced)
      | inl e ↦
          let (ns1, dropped, one, keys) = drop_subscription-IsReduced id ns sound distinct here in
          let (ns', ran, rest) =
            cleanup-IsReduced cutoff ids ns1 one.sound one.distinct apart.1
              (λ x h. keys x ∙ ground (arith, later x h, apart.0, h, eq_iff id x)) in
          (
            ns',
            cleanup-dropped cutoff id ids ns ns1 s held e dropped ∙ ran,
            record {
              sound = rest.sound;
              distinct = rest.distinct;
              shorter = omega (arith, rest.shorter, one.shorter);
              added = λ x absent. rest.added x (one.added x absent);
            },
          )
    ]

-- If every subscription of the map has an open channel that is not over its capacity, and no key
-- stands twice, cleanupInactiveSubscriptions ends without a panic, keeps both, and adds no key.
pub cleanup_inactive-IsReduced :
    (now : Time) (ns : Subscriptions)
    → IsSound ns
    → AreDistinct ns.live
    → (ns' : Subscriptions) × (cleanup_inactive now ns ≡ done ns') × IsReduced ns ns'
unfolding cleanup_inactive
cleanup_inactive-IsReduced now ns sound distinct =
    cleanup-IsReduced _ ns.live ns sound distinct distinct (λ id h. h)

-- Likewise for Unsubscribe, of a subscription that is there or not.
pub unsubscribe-IsReduced :
    (id : String) (ns : Subscriptions)
    → IsSound ns
    → AreDistinct ns.live
    → (unsubscribe id ns ≡ done none)
      ⊎ ((ns' : Subscriptions) × (unsubscribe id ns ≡ done (some ns')) × IsReduced ns ns')
unfolding unsubscribe
unsubscribe-IsReduced id ns sound distinct = elim (Bool-cases (contains id ns.live)) [
  | inr e ↦ inl (rw e refl)
  | inl e ↦
      let (ns', ran, reduced, _) = drop_subscription-IsReduced id ns sound distinct e in
      inr (ns', rw (e, ran) refl, reduced)
]
