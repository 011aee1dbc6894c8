-- ===== src/Store/Subscriptions/Race.antt =====
-- `processChangeEvent` reads the map under the lock and sends without it, so that a subscription can
-- end between its halves.
use margin_offer_system.Base.{
  ℕ, suc, String, ◌≡◌, refl, true, false, some, List, [], ◌∷◌, arith, ◌==◌, eq_iff, eq_refl,
  Bool-cases, Option-cases, ◌⊎◌, inl, inr, ◌∙◌, ap, sym,
}
use margin_offer_system.Base.GoMap.{Assoc, lookup, insert, lookup-insert}
use margin_offer_system.Base.Run.{Run, done, panic, Run-cases}
use margin_offer_system.Types.Time.{Time}
use margin_offer_system.Store.Notification.{ChangeEvent}
use margin_offer_system.Store.Subscriptions.{
  Subscription, Subscriptions, contains, without, close_channel, at_pointer, on_object,
  drop_subscription, unsubscribe, matches_subscription, send, deliver, for_each, deliver_to,
}
use margin_offer_system.Store.Subscriptions.Delivery.{IsSound, at_pointer_lem}

-- A step on another object leaves an object as it is, or panics.
at_pointer_other :
    (act : Subscription → Run Subscription) (k id : String) (heap : Assoc Subscription)
    → (k == id) ≡ false
    → (at_pointer act k heap ≡ panic)
      ⊎ ((heap' : Assoc Subscription) × (at_pointer act k heap ≡ done heap')
          × (lookup id heap' ≡ lookup id heap))
at_pointer_other act k id heap other = elim (Option-cases (lookup k heap)) [
  | inl none_there ↦ inl (unfold at_pointer in (ap (on_object act k heap) none_there))
  | inr (s, found) ↦ elim (Run-cases (act s)) [
    | inl (s', ran) ↦ inr (
      insert k s' heap,
      at_pointer_lem act k heap found ran,
      lookup-insert k id s' heap ∙ (rw other refl),
    )
    | inr ran ↦
        inl (unfold at_pointer on_object in (ap (on_object act k heap) found ∙ (rw ran refl)))
  ]
]

-- An object whose channel is closed ends a loop that is to deliver to it.
for_each-closed :
    (now : ℕ → Time) (event : ChangeEvent) (i : ℕ) (ids : List String) (heap : Assoc Subscription)
    (id : String) {s : Subscription}
    → lookup id heap ≡ some s
    → s.closed ≡ true
    → matches_subscription event s.filters ≡ true
    → contains id ids ≡ true
    → for_each (λ k. deliver (now k) event) i ids heap ≡ panic
unfolding for_each contains
for_each-closed now event i [] heap id found closed wants here = ground arith
for_each-closed now event i (k ∷ ids) heap id {s} found closed wants here =
    let stops : deliver (now i) event s ≡ panic =
      unfold deliver send in (rw (wants, closed) refl) in
    elim (Bool-cases (k == id)) [
      | inl same ↦
          let is_id : id ≡ k = ground (arith, eq_iff k id) in
          let at_id : lookup k heap ≡ some s =
            ap (λ (x : String). lookup x heap) (sym is_id) ∙ found in
          let stop : at_pointer (deliver (now i) event) k heap ≡ panic =
            unfold at_pointer on_object in
            (ap (on_object (deliver (now i) event) k heap) at_id ∙ (rw stops refl)) in
          rw stop refl
      | inr other ↦ elim (at_pointer_other (deliver (now i) event) k id heap other) [
        | inl stop ↦ rw stop refl
        | inr (heap', ran, kept) ↦ rw ran (
            for_each-closed now event (suc i) ids heap' id (kept ∙ found) closed wants
              (ground (arith, here, other)))
      ]
    ]

-- If every subscription of the map has an open channel, and one of them whose filters match an
-- event is unsubscribed after processChangeEvent has read the map and before it sends, then
-- processChangeEvent panics.
pub deliver_to-closed :
    (now : ℕ → Time) (event : ChangeEvent) (id : String) (ns : Subscriptions) (s : Subscription)
    → IsSound ns
    → contains id ns.live ≡ true
    → lookup id ns.heap ≡ some s
    → matches_subscription event s.filters ≡ true
    → (ns' : Subscriptions) × (unsubscribe id ns ≡ done (some ns'))
      × (deliver_to now event ns.live ns' ≡ panic)
unfolding deliver_to unsubscribe drop_subscription
deliver_to-closed now event id ns s sound here found wants =
    let (t, found', o) = sound id here in
    let same : t ≡ s = ground (arith, found, found') in
    let s' : Subscription = record s { closed = true } in
    let opened : s.closed ≡ false = ap (λ (r : Subscription). r.closed) (sym same) ∙ o.not_closed in
    let ran : close_channel s ≡ done s' = unfold close_channel in (rw opened refl) in
    let dropped = at_pointer_lem close_channel id ns.heap found ran in
    let held : lookup id (insert id s' ns.heap) ≡ some s' =
      lookup-insert id id s' ns.heap ∙ (rw (eq_refl id) refl) in
    let stop = for_each-closed now event 0 ns.live (insert id s' ns.heap) id held refl wants here in
    (
      record { heap = insert id s' ns.heap; live = without id ns.live },
      rw (here, dropped) refl,
      rw stop refl,
    )
