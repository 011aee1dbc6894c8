-- ===== src/Backfill/Positions.antt =====
-- backfillers/backfiller.go, `SyncPoolsWithPositions`: the positions by pool, and what is logged of
-- the positions of a pool.
pub mod Counted
use margin_offer_system.Base.{
  ℕ, suc, ◌+◌, ◌%◌, ◌^◌, String, Bool, true, false, Option, none, some, List, [], ◌∷◌, ◌++◌, eqb,
  if◌then◌else◌,
}
use margin_offer_system.Base.Int.{ℤ, pos, negsuc}
use margin_offer_system.Base.GoMap.{GoMap, made, get, put}
use margin_offer_system.Base.Run.{Run, done, ◌>>=◌}
use margin_offer_system.Types.Pool.{Solana, Pool, Position}

-- `poolPositions[poolKey]`, which is empty where the key is missing.
abbrev pub values_of : {A : Type 0} → Option (List A) → List A
values_of none = []
values_of (some values) = values

-- What the log says of a pool.
pub record PositionStats : Type 0 where
  pub active_positions : ℕ
  pub total_borrowed : ℕ  -- uint64

-- `pos.CloseTimestamp == 0`
abbrev pub is_zero_timestamp : ℤ → Bool
is_zero_timestamp (pos n) = eqb n 0
is_zero_timestamp (negsuc n) = false

module _ (lib : Solana) where
  open lib use {PublicKey, to_string}

  -- The loop that fills `poolPositions`.
  unfoldable pub group_positions :
      List (Position PublicKey)
      → GoMap (List (Position PublicKey))
      → Run (GoMap (List (Position PublicKey)))
  group_positions [] m = done m
  group_positions (position ∷ positions) m =
      let pool_key = to_string position.pool in
      do
        m' ← put pool_key (values_of (get pool_key m) ++ position ∷ []) m
        group_positions positions m'

  -- The loop over the positions of a pool; the sum wraps at 64 bits.
  unfoldable pub count_positions : List (Position PublicKey) → PositionStats → PositionStats
  count_positions [] stats = stats
  count_positions (position ∷ positions) stats = count_positions positions (
      if is_zero_timestamp position.close_timestamp
      then record {
        active_positions = suc stats.active_positions;
        total_borrowed = (stats.total_borrowed + position.amount) % 2 ^ 64;
      }
      else stats)

  -- The statistics of a pool, if there are positions under its node wallet.
  unfoldable pub position_stats :
      GoMap (List (Position PublicKey)) → Pool PublicKey → Option PositionStats
  unfolding count_positions
  position_stats m pool = elim (get (to_string pool.node_wallet) m) [
    | none ↦ none
    | some positions ↦
        some (count_positions positions (record { active_positions = 0; total_borrowed = 0 }))
  ]
