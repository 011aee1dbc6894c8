-- ===== src/Tests/Backfill.antt =====
-- Runs of the backfiller.
use margin_offer_system.Base.{suc, ◌≡◌, refl, false, none, some, [], ◌∷◌, arith}
use margin_offer_system.Base.Int.{pos}
use margin_offer_system.Base.Run.{done}
use margin_offer_system.Types.Pool.Bytes.{ok}
use margin_offer_system.Backfill.Requests.{BackfillRequest, latest, on_mainnet}
use margin_offer_system.Backfill.Fetch.{
  ChainClient, ensure_connected, fetch_all_pools, fetch_all, decode_accounts,
}
use margin_offer_system.Backfill.Blocks.{
  blocks_to, every_hundredth, fetch_from_chain, fetch_from_chain-every_hundredth,
}
use margin_offer_system.Backfill.Jobs.{Backfiller, Progress, process_job}
use margin_offer_system.Backfill.Jobs.Refused.{memory_overwrite}
use margin_offer_system.Backfill.Jobs.Chain.{process_job-chain}
use margin_offer_system.Backfill.Service.{new_backfiller}
use margin_offer_system.Tests.Data.{first_offer, two_stored, env}
use margin_offer_system.Tests.Accounts.{solana, a_pool_account, a_pool_read, a_pool_account_lem}

-- A chain with one pool, and an offer in the blocks up to 200.
abbrev one_pool : ChainClient
one_pool = record {
  is_connected = false;
  connect = none;
  program_accounts = λ size. ok (("pool" ∷ "base64" ∷ []) ∷ []);
  decode_base64 = λ text. ok a_pool_account;
  margin_offers_by_block = λ block. ok (first_offer ∷ []);
}

one_pool_lem : fetch_all_pools solana one_pool ≡ done (ok (a_pool_read ∷ []))
unfolding fetch_all_pools fetch_all ensure_connected decode_accounts
one_pool_lem = rw a_pool_account_lem refl

abbrev chain_request : BackfillRequest
chain_request = record (latest "chain" (pos 1) (pos 2) (pos 1000)) {
  chain_params = some (on_mainnet []);
}

process_job-chain_example :
    (left : Backfiller) × (p : Progress) × (process_job
        (memory_overwrite env)
        (λ i. none)
        solana
        one_pool
        env.now
        "job"
        (pos 3)
        chain_request
        new_backfiller
        two_stored
      ≡ done (two_stored, left, p, none))
    × (left.completed_jobs ≡ 1)
    × (left.failed_jobs ≡ 0)
    × (p.status ≡ "completed")
    × (p.failed_records ≡ 1)
    × (p.success_records ≡ 0)
process_job-chain_example =
    process_job-chain solana one_pool env.now env (λ i. none) "job" (pos 3) chain_request
      (on_mainnet []) 999 (a_pool_read ∷ []) new_backfiller [] two_stored refl refl refl refl
      one_pool_lem refl

connected_lem : ensure_connected one_pool ≡ none
unfolding ensure_connected
connected_lem = refl

fetch_from_chain-every_hundredth_example :
    fetch_from_chain one_pool (λ i. none) (suc (blocks_to 7 250)) 7 250
    ≡ some (every_hundredth one_pool (blocks_to 7 250) 7, none)
fetch_from_chain-every_hundredth_example =
    fetch_from_chain-every_hundredth one_pool (λ i. none) 7 250 connected_lem (λ j. refl)
      (omega arith)
