-- ===== src/Store/Subscriptions/Account.antt =====
-- store/notification_service.go: which channels an event goes to.
use margin_offer_system.Base.{
  ℕ, suc, String, ◌≡◌, refl, ◌∙◌, Bool, true, false, ◌&&◌, some, List, [], ◌∷◌, ◌++◌, arith, ◌==◌,
  eq_iff, eq_refl, if◌then◌else◌, length, ltb, Bool-cases, inl, inr, sym, ap, subst,
}
use margin_offer_system.Base.GoMap.{Assoc, lookup, insert, lookup-insert}
use margin_offer_system.Base.Run.{done}
use margin_offer_system.Types.Time.{Time}
use margin_offer_system.Store.Notification.{ChangeEvent}
use margin_offer_system.Store.Subscriptions.{
  Subscription, Subscriptions, change, contains, matches_subscription, send, deliver, for_each,
  deliver_to, process_change_event, channel_capacity,
}
use margin_offer_system.Store.Subscriptions.Delivery.{IsSound, at_pointer_lem}

-- No key stands twice, as in every Go map.
abbrev pub AreDistinct : List String → Type 0
AreDistinct [] = Unit
AreDistinct (key ∷ keys) = (contains key keys ≡ false) × AreDistinct keys

-- Whether a subscription that is `reached` takes the event.
abbrev pub takes : Bool → ChangeEvent → Subscription → Bool
takes reached event s =
    reached && matches_subscription event s.filters && ltb (length s.channel) channel_capacity

-- A subscription before and after an event: it goes to the end of the channel, or the channel stays.
pub record IsAfter (reached : Bool) (event : ChangeEvent) (s s' : Subscription) : Type 0 where
  pub channel :
      s'.channel ≡ (if takes reached event s then s.channel ++ change event ∷ [] else s.channel)
  pub filters : s'.filters ≡ s.filters
  pub closed : s'.closed ≡ s.closed

unreached : (event : ChangeEvent) (s : Subscription) → IsAfter false event s s
unreached event s = record { channel = refl; filters = refl; closed = refl }

IsAfter-unreached :
    (reached : Bool) (event : ChangeEvent) (s s1 s2 : Subscription)
    → IsAfter reached event s s1
    → IsAfter false event s1 s2
    → IsAfter reached event s s2
IsAfter-unreached reached event s s1 s2 h k = record {
  channel = k.channel ∙ h.channel;
  filters = k.filters ∙ h.filters;
  closed = k.closed ∙ h.closed;
}

deliver-IsAfter :
    (now : Time) (event : ChangeEvent) (s : Subscription)
    → s.closed ≡ false
    → (s' : Subscription) × (deliver now event s ≡ done s') × IsAfter true event s s'
unfolding deliver send
deliver-IsAfter now event s open_yet = elim (Bool-cases (matches_subscription event s.filters)) [
  | inr e ↦ (s, rw e refl, record { channel = rw e refl; filters = refl; closed = refl })
  | inl e ↦ elim (Bool-cases (ltb (length s.channel) channel_capacity)) [
    | inl room ↦ (
      record s { channel = s.channel ++ change event ∷ []; last_activity = now },
      rw (e, open_yet, room) refl,
      record { channel = rw (e, room) refl; filters = refl; closed = refl },
    )
    | inr full ↦ (
      s,
      rw (e, open_yet, full) refl,
      record { channel = rw (e, full) refl; filters = refl; closed = refl },
    )
  ]
]

-- What the loop over the pointers does to every object of the heap.
Accounts : (ℕ → Time) → ChangeEvent → ℕ → List String → Assoc Subscription → Type 0
Accounts now event i ids heap =
    (heap' : Assoc Subscription) × (for_each (λ k. deliver (now k) event) i ids heap ≡ done heap')
    × ((id : String) (s : Subscription)
        → lookup id heap ≡ some s
        → (s' : Subscription) × (lookup id heap' ≡ some s') × IsAfter (contains id ids) event s s')

pub apart :
    (key asked : String) (keys : List String)
    → contains key keys ≡ false
    → contains asked keys ≡ true
    → (key == asked) ≡ false
apart key asked keys absent inside = elim (Bool-cases (key == asked)) [
  | inr e ↦ e
  | inl e ↦
      absurd (ground (arith, absent, inside, ap (λ k. contains k keys) ((eq_iff key asked).0 e)))
]

for_each-Accounts :
    (now : ℕ → Time) (event : ChangeEvent) (i : ℕ) (ids : List String) (heap : Assoc Subscription)
    → AreDistinct ids
    → ((id : String)
        → contains id ids ≡ true
        → (s : Subscription) × (lookup id heap ≡ some s) × (s.closed ≡ false))
    → Accounts now event i ids heap
unfolding Accounts for_each contains
for_each-Accounts now event i [] heap distinct there =
    (heap, refl, λ id s held. (s, held, unreached event s))
for_each-Accounts now event i (id ∷ ids) heap distinct there =
    let (s, found, open_yet) = there id (rw (eq_refl id) refl) in
    let (s1, ran, after) = deliver-IsAfter (now i) event s open_yet in
    let held : (x : String)
        → lookup x (insert id s1 heap) ≡ (if id == x then some s1 else lookup x heap) =
      λ x. lookup-insert id x s1 heap in
    let other : (x : String) → contains x ids ≡ true → (id == x) ≡ false =
      λ x inside. apart id x ids distinct.0 inside in
    let (heap', rest, looks) =
      for_each-Accounts now event (suc i) ids (insert id s1 heap) distinct.1 (λ x inside.
        let (t, is_t, fresh) = there x (ground (arith, inside)) in
        (t, held x ∙ (rw (other x inside) is_t), fresh)) in
    (
      heap',
      rw (at_pointer_lem (deliver (now i) event) id heap found ran) rest,
      λ x t is_t. elim (Bool-cases (id == x)) [
        | inr e ↦ let (t', is_t', k) = looks x t (held x ∙ (rw e is_t)) in (t', is_t', rw e k)
        | inl e ↦
            let (t', is_t', k) = looks x s1 (held x ∙ (rw e refl)) in
            let same : id ≡ x = (eq_iff id x).0 e in
            let first : s ≡ t = ground (arith, found, is_t, ap (λ k. lookup k heap) same) in
            let absent : contains x ids ≡ false =
              sym (ap (λ k. contains k ids) same) ∙ distinct.0 in
            (
              t',
              is_t',
              rw e (
                  subst (λ o. IsAfter true event o t') first
                    (IsAfter-unreached true event s s1 t' after
                      (subst (λ r. IsAfter r event s1 t') absent k))),
            )
      ],
    )

-- Where no key of the map stands twice and every subscription of the map has an open channel that
-- is not over its capacity, processChangeEvent, if nothing comes between its halves, ends; and for
-- every subscription object, the event goes to the end of its channel if it is in the map, the event matches
-- its filters and its channel has room, and its channel stays as it was otherwise; its filters stay
-- and no channel is closed or opened.
pub process_change_event-delivers :
    (now : ℕ → Time) (event : ChangeEvent) (ns : Subscriptions)
    → AreDistinct ns.live
    → IsSound ns
    → (ns' : Subscriptions) × (process_change_event now event ns ≡ done ns')
      × ((id : String) (s : Subscription)
          → lookup id ns.heap ≡ some s
          → (s' : Subscription) × (lookup id ns'.heap ≡ some s')
            × IsAfter (contains id ns.live) event s s')
unfolding process_change_event deliver_to Accounts
process_change_event-delivers now event ns distinct sound =
    let (heap, ran, looks) =
      for_each-Accounts now event 0 ns.live ns.heap distinct
        (λ id inside. let (s, found, o) = sound id inside in (s, found, o.not_closed)) in
    (record ns { heap = heap }, rw ran refl, looks)
