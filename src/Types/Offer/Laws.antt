-- ===== src/Types/Offer/Laws.antt =====
-- What `validate` accepts.
use margin_offer_system.Base.{
  String, ◌≡◌, ◌≢◌, ◌↔◌, Bool, true, false, ◌||◌, Option, none, some, arith, ◌==◌, eq_iff,
  if◌then◌else◌,
}
use margin_offer_system.Types.Error.{Error}
use margin_offer_system.Types.Float.{Float64, lt, le, zero_float, one_float, IsNumber, nan}
use margin_offer_system.Types.Offer.{MarginOffer, validate}

-- An offer as the lending rules want it.
pub record IsOfferable (mo : MarginOffer) : Type 0 where
  pub has_id : mo.id ≢ ""
  pub has_collateral : mo.collateral_token ≢ ""
  pub has_borrow : mo.borrow_token ≢ ""
  pub has_source : mo.liquidity_source ≢ ""
  pub amount_nonneg : le zero_float mo.available_borrow_amount ≡ true
  pub open_nonneg : le zero_float mo.max_open_ltv ≡ true
  pub open_lt_liquidation : lt mo.max_open_ltv mo.liquidation_ltv ≡ true
  pub liquidation_le_one : le mo.liquidation_ltv one_float ≡ true
  pub rate_nonneg : le zero_float mo.interest_rate ≡ true

pub record HasNumbers (mo : MarginOffer) : Type 0 where
  pub amount : IsNumber mo.available_borrow_amount
  pub open_ltv : IsNumber mo.max_open_ltv
  pub liquidation : IsNumber mo.liquidation_ltv
  pub rate : IsNumber mo.interest_rate

-- A check that failed to refuse, and the checks after it.
check-none :
    (b : Bool) (e : Error) (rest : Option Error)
    → (if b then some e else rest) ≡ none
    → (b ≡ false) × (rest ≡ none)
check-none b e rest h = ground arith

le_of_not-lt : (x y : Float64) → IsNumber x → IsNumber y → lt x y ≡ false → le y x ≡ true
le_of_not-lt x y hx hy h = ground arith

lt_of_not-le : (x y : Float64) → IsNumber x → IsNumber y → le x y ≡ false → lt y x ≡ true
lt_of_not-le x y hx hy h = ground arith

or-false : (a b : Bool) → (a || b) ≡ false → (a ≡ false) × (b ≡ false)
or-false a b h = ground arith

ne_of_eqb : (s t : String) → (s == t) ≡ false → s ≢ t
ne_of_eqb s t h p = ground (arith, eq_iff s t)

one-IsNumber : IsNumber one_float
unfolding one_float
one-IsNumber = tt

-- A valid offer's maximal LTV is not above 1.
pub open_ltv_of_validate :
    (mo : MarginOffer) → validate mo ≡ none → lt one_float mo.max_open_ltv ≡ false
unfolding validate
open_ltv_of_validate mo h = ground arith

pub validate_sound : (mo : MarginOffer) → HasNumbers mo → validate mo ≡ none → IsOfferable mo
unfolding validate
validate_sound mo n h =
    let (c1, r1) = check-none _ _ _ h in
    let (c2, r2) = check-none _ _ _ r1 in
    let (c3, r3) = check-none _ _ _ r2 in
    let (c4, r4) = check-none _ _ _ r3 in
    let (c5, r5) = check-none _ _ _ r4 in
    let (c6, r6) = check-none _ _ _ r5 in
    let (c7, r7) = check-none _ _ _ r6 in
    let (c8, r8) = check-none _ _ _ r7 in
    let (c9, r9) = check-none _ _ _ r8 in
    record {
      has_id = ne_of_eqb _ _ c1;
      has_collateral = ne_of_eqb _ _ c2;
      has_borrow = ne_of_eqb _ _ c3;
      has_source = ne_of_eqb _ _ c9;
      amount_nonneg = le_of_not-lt _ _ n.amount tt c4;
      open_nonneg = le_of_not-lt _ _ n.open_ltv tt (or-false _ _ c5).0;
      open_lt_liquidation = lt_of_not-le _ _ n.liquidation n.open_ltv c7;
      liquidation_le_one = le_of_not-lt _ _ one-IsNumber n.liquidation (or-false _ _ c6).1;
      rate_nonneg = le_of_not-lt _ _ n.rate tt c8;
    }

not-lt_of_le : (x y : Float64) → le y x ≡ true → lt x y ≡ false
not-lt_of_le x y h = ground arith

not-le_of_lt : (x y : Float64) → lt y x ≡ true → le x y ≡ false
not-le_of_lt x y h = ground arith

le_of_le-lt : (x y z : Float64) → le x y ≡ true → lt y z ≡ true → le x z ≡ true
le_of_le-lt x y z h k = ground arith

le_of_lt-le : (x y z : Float64) → lt x y ≡ true → le y z ≡ true → le x z ≡ true
le_of_lt-le x y z h k = ground arith

eqb_of_ne : (s t : String) → s ≢ t → (s == t) ≡ false
eqb_of_ne s t h = ground (arith, eq_iff s t)

pub validate_complete : (mo : MarginOffer) → IsOfferable mo → validate mo ≡ none
unfolding validate
validate_complete mo h = rw (
  eqb_of_ne _ _ h.has_id,
  eqb_of_ne _ _ h.has_collateral,
  eqb_of_ne _ _ h.has_borrow,
  not-lt_of_le mo.available_borrow_amount zero_float h.amount_nonneg,
  not-lt_of_le mo.max_open_ltv zero_float h.open_nonneg,
  not-lt_of_le one_float mo.max_open_ltv (
      le_of_lt-le mo.max_open_ltv mo.liquidation_ltv one_float h.open_lt_liquidation
        h.liquidation_le_one),
  not-lt_of_le mo.liquidation_ltv zero_float (
      le_of_le-lt zero_float mo.max_open_ltv mo.liquidation_ltv h.open_nonneg
        h.open_lt_liquidation),
  not-lt_of_le one_float mo.liquidation_ltv h.liquidation_le_one,
  not-le_of_lt mo.liquidation_ltv mo.max_open_ltv h.open_lt_liquidation,
  not-lt_of_le mo.interest_rate zero_float h.rate_nonneg,
  eqb_of_ne _ _ h.has_source,
)

-- For an offer whose four numbers are not NaN, Validate gives no error exactly when no required
-- text is empty, the amount and the rate are not negative, and 0 <= maximal open LTV <
-- liquidation LTV <= 1.
pub validate_iff : (mo : MarginOffer) → HasNumbers mo → (validate mo ≡ none) ↔ IsOfferable mo
validate_iff mo n = (validate_sound mo n, validate_complete mo)

-- An accepted offer has an ID, numbers or not.
pub id_of_validate : (mo : MarginOffer) → validate mo ≡ none → (mo.id == "") ≡ false
unfolding validate
id_of_validate mo h = (check-none _ _ _ h).0

-- Validate gives no error for an offer whose ID, tokens and liquidity source are not empty and
-- whose four numbers are NaN.
pub validate-nan :
    (mo : MarginOffer)
    → mo.id ≢ ""
    → mo.collateral_token ≢ ""
    → mo.borrow_token ≢ ""
    → mo.liquidity_source ≢ ""
    → mo.available_borrow_amount ≡ nan
    → mo.max_open_ltv ≡ nan
    → mo.liquidation_ltv ≡ nan
    → mo.interest_rate ≡ nan
    → validate mo ≡ none
unfolding validate one_float
validate-nan mo hi hc hb hs ha ho hl hr =
    rw (eqb_of_ne _ _ hi, eqb_of_ne _ _ hc, eqb_of_ne _ _ hb, ha, ho, hl, hr, eqb_of_ne _ _ hs)
