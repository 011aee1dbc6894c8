-- ===== src/Backfill/Sync.antt =====
-- backfillers/backfiller.go: the pools of the leverage program as offers of the store, over
-- `BulkOverwriteByFilter` of the store's interface.
use Prim.Native.String
use margin_offer_system.Base.{ℕ, String, Option, none, some, List, [], ◌∷◌, map}
use margin_offer_system.Base.Run.{Run, done, ◌>>=◌}
use margin_offer_system.Types.Time.{Time}
use margin_offer_system.Types.Offer.{MarginOffer}
use margin_offer_system.Types.Filter.{OverwriteFilter, no_criteria}
use margin_offer_system.Types.Pool.{Solana}
use margin_offer_system.Types.Pool.Bytes.{ok, err}
use margin_offer_system.Backfill.Fetch.{
  ChainClient, fetch_all_pools, fetch_all_positions, offers_of, map_pools_to_margin_offers,
}

abbrev pub overwrite_error : Option String → Option String
overwrite_error none = none
overwrite_error (some e) = some (String.◌++◌ "failed to bulk overwrite margin offers: " e)

-- The overwrite of all offers of the source leverage.
unfoldable pub overwrite_leverage :
    {S : Type 0}
    → (List (Option MarginOffer) → Option OverwriteFilter → S → Run (S × Option String))
    → List MarginOffer
    → S
    → Run (S × Option String)
overwrite_leverage overwrite offers s = do
  written ←
      overwrite (map some offers) (some (record no_criteria { liquidity_source = some "leverage" }))
        s
  done (written.0, overwrite_error written.1)

-- `SyncPoolsToStore`
unfoldable pub sync_pools_to_store :
    {S : Type 0}
    → Solana
    → ChainClient
    → (ℕ → Time)
    → (List (Option MarginOffer) → Option OverwriteFilter → S → Run (S × Option String))
    → S
    → Run (S × Option String)
unfolding map_pools_to_margin_offers overwrite_leverage
sync_pools_to_store lib chain now overwrite s = do
  mapped ← map_pools_to_margin_offers lib chain now
  elim mapped [
    | err e ↦ done (s, some (String.◌++◌ "failed to map pools to margin offers: " e))
    | ok [] ↦ done (s, none)
    | ok (o ∷ offers) ↦ overwrite_leverage overwrite (o ∷ offers) s
  ]

-- `SyncPoolsWithPositions`: the positions are only counted for the log, but must be fetched.
unfoldable pub sync_pools_with_positions :
    {S : Type 0}
    → Solana
    → ChainClient
    → (ℕ → Time)
    → (List (Option MarginOffer) → Option OverwriteFilter → S → Run (S × Option String))
    → S
    → Run (S × Option String)
unfolding fetch_all_pools fetch_all_positions offers_of overwrite_leverage
sync_pools_with_positions lib chain now overwrite s = do
  pools ← fetch_all_pools lib chain
  elim pools [
    | err e ↦ done (s, some (String.◌++◌ "failed to fetch pools: " e))
    | ok found ↦ do
      positions ← fetch_all_positions lib chain
      elim positions [
        | err e ↦ done (s, some (String.◌++◌ "failed to fetch positions: " e))
        | ok _ ↦ overwrite_leverage overwrite (offers_of lib chain now 0 found) s
      ]
  ]
