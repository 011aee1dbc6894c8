-- ===== src/Types/Pool.antt =====
-- types/pool.go: the accounts of the leverage program, read from raw bytes, and the offer that is
-- made from a pool. Public keys are solana-go's, which is a parameter.
pub mod Bytes
pub mod Layout
pub mod Offer
pub mod Bounds
use margin_offer_system.Base.{ℕ, String, List, [], ◌∷◌, if◌then◌else◌, ◌+◌, eqb}
use margin_offer_system.Base.Int.{ℤ}
use Bytes.{Decoded, ok, err, ◌>>=◌, read, le_value, signed64, check_discriminator}

-- solana.PublicKey with `PublicKeyFromBytes` and `String`.
pub record Solana : Type 1 where
  pub PublicKey : Type 0
  pub public_key_from_bytes : List ℕ → PublicKey
  pub to_string : PublicKey → String

pub record Pool (PublicKey : Type 0) : Type 0 where
  pub interest_rate : ℕ  -- uint8
  pub collateral_type : PublicKey
  pub max_borrow : ℕ  -- uint64
  pub node_wallet : PublicKey
  pub max_exposure : ℕ  -- uint64
  pub current_exposure : ℕ  -- uint64
  pub qt_type : PublicKey

pub record NodeWallet (PublicKey : Type 0) : Type 0 where
  pub total_funds : ℕ  -- uint64
  pub total_borrowed : ℕ  -- uint64
  pub maintenance_ltv : ℕ  -- uint8
  pub liquidation_ltv : ℕ  -- uint16
  pub node_operator : PublicKey
  pub mint : PublicKey

pub record Position (PublicKey : Type 0) : Type 0 where
  pub pool : PublicKey
  pub close_status_recall_timestamp : ℕ  -- uint64
  pub amount : ℕ  -- uint64
  pub user_paid : ℕ  -- uint64
  pub collateral_amount : ℕ  -- uint64
  pub timestamp : ℤ  -- int64
  pub trader : PublicKey
  pub seed : PublicKey
  pub close_timestamp : ℤ  -- int64
  pub closing_position_size : ℕ  -- uint64
  pub interest_rate : ℕ  -- uint8
  pub last_interest_collect : ℤ  -- int64

-- `PositionCloseType.String`
unfoldable pub position_close_type_string : ℕ → String
position_close_type_string pct =
    if eqb pct 0 then "closed_by_user" else if eqb pct 1 then "liquidated" else "unknown"

-- `LendingErrors.String`
unfoldable pub lending_errors_string : ℕ → String
lending_errors_string le =
    if eqb le 0
    then "address_mismatch"
    else if eqb le 1
    then "program_mismatch"
    else if eqb le 2
    then "missing_repay"
    else if eqb le 3
    then "incorrect_owner"
    else if eqb le 4
    then "incorrect_program_authority"
    else if eqb le 5
    then "cannot_borrow_before_repay"
    else if eqb le 6
    then "unknown_instruction"
    else if eqb le 7
    then "expected_collateral_not_enough"
    else "unknown"

-- `ErrorCode.String`
unfoldable pub error_code_string : ℕ → String
error_code_string ec =
    if eqb ec 0
    then "invalid_signature"
    else if eqb ec 1
    then "invalid_oracle"
    else if eqb ec 2
    then "invalid_split_ratio"
    else if eqb ec 3
    then "positions_not_mergeable"
    else if eqb ec 4
    then "only_delegate_operator"
    else if eqb ec 5
    then "address_mismatch"
    else if eqb ec 6
    then "invalid_delegate_type"
    else "unknown"

abbrev pub pool_discriminator : List ℕ
pool_discriminator = 0x8a ∷ 0x8b ∷ 0x8c ∷ 0x8d ∷ 0x8e ∷ 0x8f ∷ 0x90 ∷ 0x91 ∷ []

abbrev pub node_wallet_discriminator : List ℕ
node_wallet_discriminator = 0x8a ∷ 0x8b ∷ 0x8c ∷ 0x8d ∷ 0x8e ∷ 0x8f ∷ 0x90 ∷ 0x92 ∷ []

abbrev pub position_discriminator : List ℕ
position_discriminator = 0x8a ∷ 0x8b ∷ 0x8c ∷ 0x8d ∷ 0x8e ∷ 0x8f ∷ 0x90 ∷ 0x93 ∷ []

module _ (lib : Solana) where
  open lib use {PublicKey, public_key_from_bytes}

  -- `DeserializePool`
  unfoldable pub deserialize_pool : List ℕ → Decoded (Pool PublicKey)
  deserialize_pool bytes = do
    _ ←
        check_discriminator "data too short for pool account" "invalid pool account discriminator"
          pool_discriminator bytes
    (interest_rate, o1) ← read 1 "data too short for interest rate" bytes 8
    (collateral_type, o2) ← read 32 "data too short for collateral type" bytes o1
    (max_borrow, o3) ← read 8 "data too short for max borrow" bytes o2
    (node_wallet, o4) ← read 32 "data too short for node wallet" bytes o3
    (max_exposure, o5) ← read 8 "data too short for max exposure" bytes o4
    (current_exposure, o6) ← read 8 "data too short for current exposure" bytes o5
    (qt_type, o7) ← read 32 "data too short for qt type" bytes o6
    ok (record {
      interest_rate = le_value interest_rate;
      collateral_type = public_key_from_bytes collateral_type;
      max_borrow = le_value max_borrow;
      node_wallet = public_key_from_bytes node_wallet;
      max_exposure = le_value max_exposure;
      current_exposure = le_value current_exposure;
      qt_type = public_key_from_bytes qt_type;
    })

  -- `DeserializeNodeWallet`
  unfoldable pub deserialize_node_wallet : List ℕ → Decoded (NodeWallet PublicKey)
  deserialize_node_wallet bytes = do
    _ ←
        check_discriminator "data too short for node wallet account"
          "invalid node wallet account discriminator" node_wallet_discriminator bytes
    (total_funds, o1) ← read 8 "data too short for total funds" bytes 8
    (total_borrowed, o2) ← read 8 "data too short for total borrowed" bytes o1
    (maintenance_ltv, o3) ← read 1 "data too short for maintenance ltv" bytes o2
    (liquidation_ltv, o4) ← read 2 "data too short for liquidation ltv" bytes o3
    (node_operator, o5) ← read 32 "data too short for node operator" bytes o4
    (mint, o6) ← read 32 "data too short for mint" bytes o5
    ok (record {
      total_funds = le_value total_funds;
      total_borrowed = le_value total_borrowed;
      maintenance_ltv = le_value maintenance_ltv;
      liquidation_ltv = le_value liquidation_ltv;
      node_operator = public_key_from_bytes node_operator;
      mint = public_key_from_bytes mint;
    })

  -- `DeserializePosition`
  unfoldable pub deserialize_position : List ℕ → Decoded (Position PublicKey)
  deserialize_position bytes = do
    _ ←
        check_discriminator "data too short for position account"
          "invalid position account discriminator" position_discriminator bytes
    (pool, o1) ← read 32 "data too short for pool" bytes 8
    (recall, o2) ← read 8 "data too short for close status recall timestamp" bytes o1
    (amount, o3) ← read 8 "data too short for amount" bytes o2
    (user_paid, o4) ← read 8 "data too short for user paid" bytes o3
    (collateral_amount, o5) ← read 8 "data too short for collateral amount" bytes o4
    (timestamp, o6) ← read 8 "data too short for timestamp" bytes o5
    (trader, o7) ← read 32 "data too short for trader" bytes o6
    (seed, o8) ← read 32 "data too short for seed" bytes o7
    (close_timestamp, o9) ← read 8 "data too short for close timestamp" bytes o8
    (closing_size, o10) ← read 8 "data too short for closing position size" bytes o9
    (interest_rate, o11) ← read 1 "data too short for interest rate" bytes o10
    (last_collect, o12) ← read 8 "data too short for last interest collect" bytes o11
    ok (record {
      pool = public_key_from_bytes pool;
      close_status_recall_timestamp = le_value recall;
      amount = le_value amount;
      user_paid = le_value user_paid;
      collateral_amount = le_value collateral_amount;
      timestamp = signed64 (le_value timestamp);
      trader = public_key_from_bytes trader;
      seed = public_key_from_bytes seed;
      close_timestamp = signed64 (le_value close_timestamp);
      closing_position_size = le_value closing_size;
      interest_rate = le_value interest_rate;
      last_interest_collect = signed64 (le_value last_collect);
    })
