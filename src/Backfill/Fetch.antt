-- ===== src/Backfill/Fetch.antt =====
-- backfillers/backfiller.go: what is fetched from the leverage program, and its offers.
use Prim.Native.String
use margin_offer_system.Base.{
  ℕ, suc, ◌+◌, String, Bool, Option, none, some, List, [], ◌∷◌, if◌then◌else◌,
}
use margin_offer_system.Base.Run.{Run, done, panic, ◌>>=◌}
use margin_offer_system.Types.Time.{Time}
use margin_offer_system.Types.Offer.{MarginOffer}
use margin_offer_system.Types.Pool.{
  Solana, Pool, NodeWallet, Position, deserialize_pool, deserialize_node_wallet,
  deserialize_position,
}
use margin_offer_system.Types.Pool.Bytes.{Decoded, ok, err}
use margin_offer_system.Types.Pool.Offer.{to_margin_offer}

-- `types.ChainClient`: the answers of the calls that the backfiller makes. `connect` is the error of
-- `Connect`, `program_accounts` takes the data size of its filter and gives each account's data.
pub record ChainClient : Type 0 where
  pub is_connected : Bool
  pub connect : Option String
  pub program_accounts : ℕ → Decoded (List (List String))
  pub decode_base64 : String → Decoded (List ℕ)
  pub margin_offers_by_block : ℕ → Decoded (List MarginOffer)

-- The connection that the fetches begin with: its error.
unfoldable pub ensure_connected : ChainClient → Option String
ensure_connected chain = if chain.is_connected then none else elim chain.connect [
  | none ↦ none
  | some e ↦ some (String.◌++◌ "failed to connect to chain: " e)
]

-- The loop over the accounts: those that do not decode are left out. An account without data is
-- indexed out of range.
unfoldable pub decode_accounts {ℓ} :
    {A : Type ℓ} → ChainClient → (List ℕ → Decoded A) → List (List String) → Run (List A)
decode_accounts chain deserialize [] = done []
decode_accounts chain deserialize ([] ∷ accounts) = panic
decode_accounts chain deserialize ((text ∷ _) ∷ accounts) = do
  rest ← decode_accounts chain deserialize accounts
  elim (chain.decode_base64 text) [
    | err _ ↦ done rest
    | ok data_bytes ↦ elim (deserialize data_bytes) [ err _ ↦ done rest | ok a ↦ done (a ∷ rest) ]
  ]

-- A fetch of the accounts of a size.
unfoldable pub fetch_all {ℓ} :
    {A : Type ℓ} → ChainClient → ℕ → (List ℕ → Decoded A) → Run (Decoded (List A))
unfolding ensure_connected decode_accounts
fetch_all chain size deserialize = elim (ensure_connected chain) [
  | some e ↦ done (err e)
  | none ↦ elim (chain.program_accounts size) [
    | err e ↦ done (err (String.◌++◌ "failed to get program accounts: " e))
    | ok accounts ↦ do found ← decode_accounts chain deserialize accounts; done (ok found)
  ]
]

module _ (lib : Solana) (chain : ChainClient) where
  open lib use {PublicKey, to_string}

  -- `FetchAllPools`
  unfoldable pub fetch_all_pools : Run (Decoded (List (Pool PublicKey)))
  unfolding fetch_all
  fetch_all_pools = fetch_all chain 105 (deserialize_pool lib)

  -- `FetchAllNodeWallets`
  unfoldable pub fetch_all_node_wallets : Run (Decoded (List (NodeWallet PublicKey)))
  unfolding fetch_all
  fetch_all_node_wallets = fetch_all chain 83 (deserialize_node_wallet lib)

  -- `FetchAllPositions`
  unfoldable pub fetch_all_positions : Run (Decoded (List (Position PublicKey)))
  unfolding fetch_all
  fetch_all_positions = fetch_all chain 137 (deserialize_position lib)

  -- The loop that makes offers from pools, from the reading `i` of the clock.
  unfoldable pub offers_of : (ℕ → Time) → ℕ → List (Pool PublicKey) → List MarginOffer
  offers_of now i [] = []
  offers_of now i (p ∷ pools) =
      to_margin_offer lib (now i) (now (suc i)) p ∷ offers_of now (i + 2) pools

  -- `MapPoolsToMarginOffers`
  unfoldable pub map_pools_to_margin_offers : (ℕ → Time) → Run (Decoded (List MarginOffer))
  unfolding fetch_all_pools offers_of
  map_pools_to_margin_offers now = do
    fetched ← fetch_all_pools
    done (elim fetched [
      | err e ↦ err (String.◌++◌ "failed to fetch pools: " e)
      | ok pools ↦ ok (offers_of now 0 pools)
    ])
