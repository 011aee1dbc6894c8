-- ===== src/Types/Pool/Offer.antt =====
-- types/pool.go, `ToMarginOffer`: the offer that is made from a pool.
use margin_offer_system.Base.{ℕ, ◌+◌, ◌-◌, ◌%◌, ◌^◌, none, ◌≡◌, ◌≢◌, refl, arith, true}
use margin_offer_system.Types.Float.{lt, one_float, whole, word_over}
use margin_offer_system.Types.Time.{Time}
use margin_offer_system.Types.Offer.{MarginOffer, validate}
use margin_offer_system.Types.Offer.Laws.{open_ltv_of_validate}
use margin_offer_system.Types.Pool.{Solana, Pool}

-- `p.MaxBorrow - p.CurrentExposure`, which wraps at 64 bits.
unfoldable pub free_funds : ℕ → ℕ → ℕ
free_funds max_borrow current_exposure = (max_borrow + 2 ^ 64 - current_exposure) % 2 ^ 64

module _ (lib : Solana) where
  open lib use {PublicKey, to_string}

  -- `ToMarginOffer`, with the two readings of the clock.
  unfoldable pub to_margin_offer : Time → Time → Pool PublicKey → MarginOffer
  unfolding free_funds
  to_margin_offer created updated p = record {
    id = to_string p.node_wallet;
    offer_type = "LV";
    collateral_token = to_string p.collateral_type;
    borrow_token = to_string p.qt_type;
    available_borrow_amount = word_over (free_funds p.max_borrow p.current_exposure) (10 ^ 9);
    max_open_ltv = whole 80;
    liquidation_ltv = whole 90;
    interest_rate = word_over p.interest_rate 100;
    interest_model = "floating";
    term_days = none;
    liquidity_source = "leverage";
    lender_address = none;
    last_borrowed_timestamp = none;
    created_timestamp = created;
    updated_timestamp = updated;
    source = none;
  }

  eighty : lt one_float (whole 80) ≡ true
  unfolding one_float whole
  eighty = refl

  -- No offer that ToMarginOffer makes from a pool passes Validate.
  pub to_margin_offer-refused :
      (created updated : Time) (p : Pool PublicKey)
      → validate (to_margin_offer created updated p) ≢ none
  unfolding to_margin_offer
  to_margin_offer-refused created updated p h =
      let low = open_ltv_of_validate (to_margin_offer created updated p) h in
      let high = eighty in ground arith
