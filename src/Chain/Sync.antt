-- ===== src/Chain/Sync.antt =====
-- The client of pkg/chain/solana.go under the backfiller's syncs of backfillers/backfiller.go, over
-- the memory store.
use margin_offer_system.Base.{
  ℕ, ◌≡◌, refl, ◌∙◌, String, Option, none, some, List, [], ◌==◌, arith, eq_iff, if◌then◌else◌,
}
use margin_offer_system.Base.Decimal.{decimal}
use margin_offer_system.Base.Run.{Run, done, ◌>>=◌}
use margin_offer_system.Types.Error.{text_of}
use margin_offer_system.Types.Time.{Time}
use margin_offer_system.Types.Offer.{MarginOffer}
use margin_offer_system.Types.Filter.{OverwriteFilter, no_criteria}
use margin_offer_system.Types.Pool.{Solana}
use margin_offer_system.Types.Pool.Bytes.{ok, Decoded}
use margin_offer_system.Store.Memory.{MemoryStore, Env}
use margin_offer_system.Store.Memory.Invariant.{table, IsConsistent}
use margin_offer_system.Store.Upsert.{validate_all}
use margin_offer_system.Store.Upsert.Batch.{find_id}
use margin_offer_system.Store.Overwrite.{
  bulk_overwrite_by_filter, is_selected, matches_overwrite_filter,
}
use margin_offer_system.Store.Overwrite.Selected.{kept}
use margin_offer_system.Store.Overwrite.Refine.{bulk_overwrite_by_filter-Refines}
use margin_offer_system.Backfill.Fetch.{
  fetch_all, decode_accounts, ensure_connected, fetch_all_pools, fetch_all_positions,
  map_pools_to_margin_offers,
}
use margin_offer_system.Backfill.Sync.{
  overwrite_leverage, sync_pools_to_store, sync_pools_with_positions,
}
use margin_offer_system.Chain.{
  SolanaClient, chain_client, connect, connected_to, get_program_accounts,
}

-- The memory store's `BulkOverwriteByFilter` behind the interface.
abbrev pub memory_overwrite_by_filter :
    Env
    → List (Option MarginOffer)
    → Option OverwriteFilter
    → MemoryStore
    → Run (MemoryStore × Option String)
memory_overwrite_by_filter env offers filter ms = do
  r ← bulk_overwrite_by_filter decimal env offers filter ms
  done (r.store, text_of r.error)

-- An offer that is not of the source leverage.
abbrev pub unless_leverage : Option MarginOffer → Option MarginOffer
unless_leverage none = none
unless_leverage (some o) = if o.liquidity_source == "leverage" then none else some o

abbrev by_leverage : OverwriteFilter
by_leverage = record no_criteria { liquidity_source = some "leverage" }

accounts-empty :
    (endpoint : String) (s : SolanaClient)
    → (size : ℕ) → (chain_client endpoint s).program_accounts size ≡ ok []
unfolding chain_client connect connected_to get_program_accounts
accounts-empty endpoint s size = ground arith

ensure_connected-client :
    (endpoint : String) (s : SolanaClient) → ensure_connected (chain_client endpoint s) ≡ none
unfolding ensure_connected chain_client connect
ensure_connected-client endpoint s = ground arith

pub fetch_all-empty :
    {A : Type 0} (endpoint : String) (s : SolanaClient) (size : ℕ)
    → (deserialize : List ℕ → Decoded A)
    → fetch_all (chain_client endpoint s) size deserialize ≡ done (ok [])
unfolding fetch_all decode_accounts
fetch_all-empty endpoint s size deserialize =
    rw (fetch_all, ensure_connected-client endpoint s, accounts-empty endpoint s size) refl

kept-leverage : (o : Option MarginOffer) → kept (some by_leverage) o ≡ unless_leverage o
unfolding is_selected matches_overwrite_filter
kept-leverage none = refl
kept-leverage (some o) = ground (arith, eq_iff o.liquidity_source "leverage")

overwritten_by_nothing :
    (env : Env) (ms : MemoryStore)
    → IsConsistent ms
    → (left : MemoryStore) × (memory_overwrite_by_filter env [] (some by_leverage) ms
        ≡ done (left, none))
      × IsConsistent left
      × ((x : String) → table left x ≡ unless_leverage (table ms x))
overwritten_by_nothing env ms c =
    let (r, ran, k, fine, w) =
      bulk_overwrite_by_filter-Refines decimal env [] (some by_leverage) ms c tt
        (λ x o h. unfold find_id in cc) in
    (
      r.store,
      rw (ran, fine) (unfold validate_all in refl),
      k,
      λ x. w x ∙ unfold validate_all find_id in kept-leverage (table ms x),
    )

-- Over the chain client of the program, whatever its endpoint and its connection, and a
-- consistent memory store, SyncPoolsToStore gives no error and leaves the store as it was, while
-- SyncPoolsWithPositions gives no error and takes exactly the offers of the source leverage out
-- of the store, which stays consistent.
pub sync_pools_with_positions-empties :
    (lib : Solana) (endpoint : String) (s : SolanaClient) (now : ℕ → Time) (env : Env)
    (ms : MemoryStore)
    → IsConsistent ms
    → (sync_pools_to_store lib (chain_client endpoint s) now (memory_overwrite_by_filter env) ms
        ≡ done (ms, none))
      × ((left : MemoryStore) × (sync_pools_with_positions lib
              (chain_client endpoint s)
              now
              (memory_overwrite_by_filter env)
              ms
            ≡ done (left, none))
          × IsConsistent left
          × ((x : String) → table left x ≡ unless_leverage (table ms x)))
unfolding sync_pools_to_store sync_pools_with_positions overwrite_leverage
    map_pools_to_margin_offers fetch_all_pools fetch_all_positions
sync_pools_with_positions-empties lib endpoint s now env ms c =
    let (left, ran, k, w) = overwritten_by_nothing env ms c in
    let spared : sync_pools_to_store lib (chain_client endpoint s) now
          (memory_overwrite_by_filter env) ms
        ≡ done (ms, none) =
      rw
        (
          sync_pools_to_store,
          map_pools_to_margin_offers,
          fetch_all_pools,
          fetch_all-empty endpoint s 105,
        )
        refl in
    let emptied : sync_pools_with_positions lib (chain_client endpoint s) now
          (memory_overwrite_by_filter env) ms
        ≡ done (left, none) =
      rw
        (
          sync_pools_with_positions,
          fetch_all_pools,
          fetch_all_positions,
          fetch_all-empty endpoint s 105,
          fetch_all-empty endpoint s 137,
        )
        (rw (overwrite_leverage, ran) refl) in
    (spared, (left, emptied, k, w))
