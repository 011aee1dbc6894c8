-- ===== src/Tests/Accounts.antt =====
-- Runs of the validation and of the reader of accounts.
use margin_offer_system.Base.{
  ℕ, ◌≤◌, zero, suc, false, ◌==◌, ◌≡◌, ◌≢◌, ◌↔◌, refl, String, none, List, [], ◌∷◌, ◌++◌, arith,
  length, eq_iff,
}
use margin_offer_system.Types.Offer.{validate}
use margin_offer_system.Types.Offer.Laws.{IsOfferable, validate_iff}
use margin_offer_system.Types.Pool.{Solana, Pool, deserialize_pool}
use margin_offer_system.Types.Pool.Bytes.{ok, le_bytes}
use margin_offer_system.Types.Pool.Bounds.{AreBytes, IsBounded, deserialize_pool-IsBounded}
use margin_offer_system.Types.Pool.Layout.{pool_bytes, deserialize_pool-pool_bytes}
use margin_offer_system.Tests.Data.{first_offer}

validate_iff_example : (validate first_offer ≡ none) ↔ IsOfferable first_offer
validate_iff_example =
    validate_iff first_offer (record { amount = tt; open_ltv = tt; liquidation = tt; rate = tt })

-- A text that the test tells from the empty one.
not_empty : (s : String) → (s == "") ≡ false → s ≢ ""
not_empty s h e = ground (arith, eq_iff s "")

-- Keys as their bytes, printed as one word.
abbrev pub solana : Solana
solana = record {
  PublicKey = List ℕ;
  public_key_from_bytes = λ bytes. bytes;
  to_string = λ key. "key";
}

pub repeated : ℕ → ℕ → List ℕ
repeated zero x = []
repeated (suc n) x = x ∷ repeated n x

abbrev pub key_of : ℕ → List ℕ
key_of x = repeated 32 x

key_of-length : (x : ℕ) → length (key_of x) ≡ 32
unfolding repeated
key_of-length x = refl

abbrev pub a_pool_account : List ℕ
a_pool_account = pool_bytes 7 (key_of 1) 1000000 (key_of 2) 500 300 (key_of 3 ++ 9 ∷ [])

abbrev pub a_pool_read : Pool (List ℕ)
a_pool_read = record {
  interest_rate = 7;
  collateral_type = key_of 1;
  max_borrow = 1000000;
  node_wallet = key_of 2;
  max_exposure = 500;
  current_exposure = 300;
  qt_type = key_of 3;
}

pub a_pool_account_lem : deserialize_pool solana a_pool_account ≡ ok a_pool_read
a_pool_account_lem =
    deserialize_pool-pool_bytes solana 7 1000000 500 300 (key_of 1) (key_of 2) (omega arith)
      (omega arith) (omega arith) (omega arith) (key_of-length 1) (key_of-length 2) (key_of 3)
      (9 ∷ []) (key_of-length 3)

deserialize_pool-pool_bytes_example :
    deserialize_pool solana
      (pool_bytes 7 (key_of 1) 1000000 (key_of 2) 500 300 (key_of 3 ++ 9 ∷ []))
    ≡ ok (record {
      interest_rate = 7;
      collateral_type = key_of 1;
      max_borrow = 1000000;
      node_wallet = key_of 2;
      max_exposure = 500;
      current_exposure = 300;
      qt_type = key_of 3;
    })
deserialize_pool-pool_bytes_example =
    deserialize_pool-pool_bytes solana 7 1000000 500 300 (key_of 1) (key_of 2) (omega arith)
      (omega arith) (omega arith) (omega arith) (key_of-length 1) (key_of-length 2) (key_of 3)
      (9 ∷ []) (key_of-length 3)

abbrev a_pool : Pool (List ℕ)
a_pool = record {
  interest_rate = 7;
  collateral_type = [];
  max_borrow = 1000000;
  node_wallet = [];
  max_exposure = 500;
  current_exposure = 300;
  qt_type = [];
}

a_pool_account-AreBytes : AreBytes a_pool_account
unfolding repeated le_bytes
a_pool_account-AreBytes = ground arith

deserialize_pool-IsBounded_example : (129 ≤ length a_pool_account) × IsBounded a_pool_read
deserialize_pool-IsBounded_example =
    deserialize_pool-IsBounded solana a_pool_account a_pool_read a_pool_account-AreBytes
      a_pool_account_lem
