-- ===== src/Grpc/Converters/Laws.antt =====
-- What survives the conversions.
use mathlib.Core.Option
use margin_offer_system.Base.{
  ℕ, ltb, Bool-cases, ◌<◌, ◌≤◌, ◌↔◌, String, ◌≡◌, refl, Option, none, some, arith, eq_iff,
  str-cases, ◌⊎◌, inl, inr, ap, ◌∙◌,
}
use margin_offer_system.Base.Int.{ℤ, pos, negsuc}
use margin_offer_system.Types.Time.{Time}
use margin_offer_system.Types.Offer.{MarginOffer}
use margin_offer_system.Types.Filter.{ListRequest}
use margin_offer_system.Types.Pool.Bytes.{ok, Decoded-cases}
use margin_offer_system.Grpc.Messages.{Timestamps, KeepsTimes, OfferMessage, ListMessage}
use margin_offer_system.Grpc.Converters.{
  offer_type_of, interest_model_of, proto_to_margin_offer, margin_offer_to_proto, optional_time,
  proto_to_list_request, page_limit, optional,
}

-- The offers that the service can carry.
pub record IsCarried (o : MarginOffer) : Type 0 where
  pub type_known : (o.offer_type ≡ "V1") ⊎ (o.offer_type ≡ "BP") ⊎ (o.offer_type ≡ "LV")
  pub model_known : (o.interest_model ≡ "fixed") ⊎ (o.interest_model ≡ "floating")

offer_type_of-known : (t : String) → (t ≡ "V1") ⊎ (t ≡ "BP") ⊎ (t ≡ "LV") → offer_type_of t ≡ ok t
unfolding offer_type_of
offer_type_of-known t known = ground (arith, eq_iff t "V1", eq_iff t "BP", eq_iff t "LV")

interest_model_of-known :
    (t : String) → (t ≡ "fixed") ⊎ (t ≡ "floating") → interest_model_of t ≡ ok t
unfolding interest_model_of
interest_model_of-known t known = ground (arith, eq_iff t "fixed", eq_iff t "floating")

-- Where a switch accepts, its text is known and kept.
offer_type_of-ok :
    (t : String) {u : String}
    → offer_type_of t ≡ ok u
    → (u ≡ t) × ((t ≡ "V1") ⊎ (t ≡ "BP") ⊎ (t ≡ "LV"))
unfolding offer_type_of
offer_type_of-ok t {u} h = elim (str-cases t "V1") [
  | inl (p, e) ↦ (ground (arith, h, e, p), inl p)
  | inr (_, e1) ↦ elim (str-cases t "BP") [
    | inl (p, e) ↦ (ground (arith, h, e1, e, p), inr (inl p))
    | inr (_, e2) ↦ elim (str-cases t "LV") [
      | inl (p, e) ↦ (ground (arith, h, e1, e2, e, p), inr (inr p))
      | inr (_, e3) ↦ ground (arith, h, e1, e2, e3)
    ]
  ]
]

interest_model_of-ok :
    (t : String) {u : String}
    → interest_model_of t ≡ ok u
    → (u ≡ t) × ((t ≡ "fixed") ⊎ (t ≡ "floating"))
unfolding interest_model_of
interest_model_of-ok t {u} h = elim (str-cases t "fixed") [
  | inl (p, e) ↦ (ground (arith, h, e, p), inl p)
  | inr (_, e1) ↦ elim (str-cases t "floating") [
    | inl (p, e) ↦ (ground (arith, h, e1, e, p), inr p)
    | inr (_, e2) ↦ ground (arith, h, e1, e2)
  ]
]

page_limit_bounds : (limit : ℤ) → (n : ℕ) × (page_limit limit ≡ pos n) × (0 < n) × (n ≤ 1000)
unfolding page_limit
page_limit_bounds (negsuc k) = (100, ground arith, omega arith, omega arith)
page_limit_bounds (pos n) = elim (Bool-cases (ltb 0 n)) [
  | inr zero_given ↦ (100, ground arith, omega arith, omega arith)
  | inl given ↦ elim (Bool-cases (ltb 1000 n)) [
    | inl large ↦ (1000, ground arith, omega arith, omega arith)
    | inr small ↦ (n, ground arith, ground arith, ground arith)
  ]
]

module _ (ts : Timestamps) where
  open ts use {Stamp, stamp, as_time}

  times_kept : KeepsTimes ts → (t : Option Time) → optional_time ts (Option.map stamp t) ≡ t
  times_kept keeps none = refl
  times_kept keeps (some t) = ap some (keeps t)

  -- The message of an offer.
  abbrev pub message_of : MarginOffer → OfferMessage Stamp
  message_of o = record {
    id = o.id;
    offer_type = o.offer_type;
    collateral_token = o.collateral_token;
    borrow_token = o.borrow_token;
    available_borrow_amount = o.available_borrow_amount;
    max_open_ltv = o.max_open_ltv;
    liquidation_ltv = o.liquidation_ltv;
    interest_rate = o.interest_rate;
    interest_model = o.interest_model;
    term_days = o.term_days;
    liquidity_source = o.liquidity_source;
    lender_address = o.lender_address;
    last_borrowed_timestamp = Option.map stamp o.last_borrowed_timestamp;
    created_timestamp = some (stamp o.created_timestamp);
    updated_timestamp = some (stamp o.updated_timestamp);
    source = o.source;
  }

  pub message_of-received :
      (o : MarginOffer)
      → KeepsTimes ts
      → IsCarried o
      → proto_to_margin_offer ts (some (message_of o)) ≡ ok o
  unfolding proto_to_margin_offer
  message_of-received o keeps carried =
      rw
        (
          offer_type_of-known o.offer_type carried.type_known,
          interest_model_of-known o.interest_model carried.model_known,
          times_kept keeps o.last_borrowed_timestamp,
          keeps o.created_timestamp,
          keeps o.updated_timestamp,
        )
        refl

  pub received-IsCarried :
      (m : OfferMessage Stamp) {o : MarginOffer}
      → proto_to_margin_offer ts (some m) ≡ ok o
      → IsCarried o × (o.id ≡ m.id)
  unfolding proto_to_margin_offer
  received-IsCarried m {o} h = elim (Decoded-cases (offer_type_of m.offer_type)) [
    | inr (e, bad) ↦ ground (arith, h, bad)
    | inl (t, typed) ↦ elim (Decoded-cases (interest_model_of m.interest_model)) [
      | inr (e, bad) ↦ ground (arith, h, typed, bad)
      | inl (k, modelled) ↦
          let (same_t, known_t) = offer_type_of-ok m.offer_type typed in
          let (same_k, known_k) = interest_model_of-ok m.interest_model modelled in
          let at_t : o.offer_type ≡ m.offer_type = ground (arith, h, typed, modelled, same_t) in
          let at_k : o.interest_model ≡ m.interest_model =
            ground (arith, h, typed, modelled, same_k) in
          (
            record { type_known = rw at_t known_t; model_known = rw at_k known_k },
            ground (arith, h, typed, modelled),
          )
    ]
  ]

  -- If times arrive as they were sent, then the message of an offer is converted back to the
  -- offer exactly when the offer's type is V1, BP or LV and its interest model is fixed or
  -- floating.
  pub margin_offer_to_proto-proto_to_margin_offer :
      (o : MarginOffer)
      → KeepsTimes ts
      → (m : OfferMessage Stamp) × (margin_offer_to_proto ts (some o) ≡ ok m)
        × ((proto_to_margin_offer ts (some m) ≡ ok o) ↔ IsCarried o)
  unfolding margin_offer_to_proto
  margin_offer_to_proto-proto_to_margin_offer o keeps = (
    message_of o,
    refl,
    (λ h. (received-IsCarried (message_of o) h).0, message_of-received o keeps),
  )

  -- A request that is accepted asks for 1 to 1000 offers, from the offset that was sent.
  pub proto_to_list_request_bounds :
      (m : ListMessage Stamp) {req : ListRequest}
      → proto_to_list_request ts (some m) ≡ ok req
      → (n : ℕ) × (req.limit ≡ pos n) × (0 < n) × (n ≤ 1000) × (req.offset ≡ m.offset)
  unfolding proto_to_list_request
  proto_to_list_request_bounds m {req} h =
      elim (Decoded-cases (optional offer_type_of m.offer_type)) [
        | inr (e, bad) ↦ ground (arith, h, bad)
        | inl (t, typed) ↦ elim (Decoded-cases (optional interest_model_of m.interest_model)) [
          | inr (e, bad) ↦ ground (arith, h, typed, bad)
          | inl (k, modelled) ↦
              let (n, limited, low, high) = page_limit_bounds m.limit in
              let at : req.limit ≡ page_limit m.limit = ground (arith, h, typed, modelled) in
              (n, at ∙ limited, low, high, ground (arith, h, typed, modelled))
        ]
      ]
