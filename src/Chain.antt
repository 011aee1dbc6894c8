-- ===== src/Chain.antt =====
-- pkg/chain/solana.go: the client of the Solana node, which answers without one. The logger and the
-- waiting are left out.
pub mod Sync
mod Hollow
pub mod Events
pub mod Jobs
use margin_offer_system.Base.{
  ℕ, String, Bool, true, false, Option, none, some, List, [], if◌then◌else◌,
}
use margin_offer_system.Base.Int.{pos}
use margin_offer_system.Types.Time.{Time}
use margin_offer_system.Types.Float.{Float64}
use margin_offer_system.Types.Offer.{MarginOffer}
use margin_offer_system.Types.Pool.Bytes.{Decoded, ok, err}
use margin_offer_system.Etl.Events.{MarginOfferEvent, LiquidityEvent}
use margin_offer_system.Etl.Health.{ChainLink}
use margin_offer_system.Backfill.Fetch.{ChainClient}

pub record SolanaClient : Type 0 where
  pub endpoint : String
  pub connected : Bool

-- `NewSolanaClient`
abbrev pub new_solana_client : SolanaClient
new_solana_client = record { endpoint = ""; connected = false }

-- `Connect`, which does not fail.
unfoldable pub connect : String → SolanaClient → SolanaClient × Option String
connect endpoint s = (record s { endpoint = endpoint; connected = true }, none)

-- `Disconnect`
unfoldable pub disconnect : SolanaClient → SolanaClient × Option String
disconnect s = (record s { connected = false }, none)

-- `SubscribeToMarginOfferEvents` and `SubscribeToLiquidityEvents`: the error. Where there is none,
-- a goroutine gives the callback a mock event now and then.
unfoldable pub subscribe_to_margin_offer_events : SolanaClient → Option String
subscribe_to_margin_offer_events s = if s.connected then none else some "not connected to chain"

unfoldable pub subscribe_to_liquidity_events : SolanaClient → Option String
subscribe_to_liquidity_events s = if s.connected then none else some "not connected to chain"

-- The mock event about an offer, which carries no offer.
unfoldable pub mock_margin_offer_event : Time → MarginOfferEvent
mock_margin_offer_event now = record {
  event_type = "margin_offer_created";
  offer_id = "mock-offer-id";
  transaction_hash = "mock-tx-hash";
  timestamp = now;
  lender_address = "mock-lender-address";
  offer_data = none;
  retry_count = pos 0;
}

-- The mock event about liquidity; the two literals are 1000.0 and 5000.0.
unfoldable pub mock_liquidity_event : Float64 → Float64 → Time → LiquidityEvent
mock_liquidity_event thousand five_thousand now = record {
  event_type = "liquidity_added";
  offer_id = "mock-offer-id";
  transaction_hash = "mock-liquidity-tx";
  timestamp = now;
  lender_address = "mock-lender-address";
  amount = thousand;
  token = "USDC";
  new_total_amount = five_thousand;
}

-- `GetMarginOffersByBlock`
unfoldable pub get_margin_offers_by_block : ℕ → SolanaClient → Decoded (List MarginOffer)
get_margin_offers_by_block block s = if s.connected then ok [] else err "not connected to chain"

-- `GetLatestBlock`
unfoldable pub get_latest_block : SolanaClient → Decoded ℕ
get_latest_block s = if s.connected then ok 250000000 else err "not connected to chain"

-- `GetBlockTimestamp`, which reads the clock.
unfoldable pub get_block_timestamp : Time → ℕ → SolanaClient → Decoded Time
get_block_timestamp now block s = if s.connected then ok now else err "not connected to chain"

-- `GetProgramAccounts`, whose filters go unread: an account is given by its data.
unfoldable pub get_program_accounts : SolanaClient → Decoded (List (List String))
get_program_accounts s = if s.connected then ok [] else err "not connected to chain"

-- `DecodeBase64`
unfoldable pub decode_base64 : String → Decoded (List ℕ)
decode_base64 text = ok []

-- The client as a fetch finds it behind its check of the connection, which connects to `endpoint`
-- where it has to.
unfoldable pub connected_to : String → SolanaClient → SolanaClient
unfolding connect
connected_to endpoint s = if s.connected then s else (connect endpoint s).0

-- The client behind the interface, as one fetch uses it: the queries come after the check.
unfoldable pub chain_client : String → SolanaClient → ChainClient
unfolding connect connected_to get_program_accounts decode_base64 get_margin_offers_by_block
chain_client endpoint s = record {
  is_connected = s.connected;
  connect = (connect endpoint s).1;
  program_accounts = λ size. get_program_accounts (connected_to endpoint s);
  decode_base64 = decode_base64;
  margin_offers_by_block = λ block. get_margin_offers_by_block block (connected_to endpoint s);
}

-- The client behind the interface, as the processor uses it.
abbrev pub chain_link : ChainLink
chain_link = record {
  State = SolanaClient;
  is_connected = λ s. s.connected;
  connect = connect;
  disconnect = disconnect;
  subscribe_to_margin_offer_events = subscribe_to_margin_offer_events;
  subscribe_to_liquidity_events = subscribe_to_liquidity_events;
}
