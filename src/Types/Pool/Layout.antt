-- ===== src/Types/Pool/Layout.antt =====
-- The layout that `DeserializePool` of types/pool.go expects: the account's discriminator, then the
-- fields one behind the other.
use margin_offer_system.Base.{ℕ, ◌≡◌, refl, ◌^◌, ◌<◌, List, ◌++◌, arith, length, drop, ◌∙◌}
use margin_offer_system.Types.Pool.{Solana, Pool, deserialize_pool, pool_discriminator}
use margin_offer_system.Types.Pool.Bytes.{
  Decoded, ok, err, ◌>>=◌, read, le_bytes, length-le_bytes, le_value-le_bytes, read_lem, read-short,
  bind_ok, check_discriminator-accepts,
}

-- A pool account, of which the last field and what follows it are given as bytes.
abbrev pub pool_bytes : ℕ → List ℕ → ℕ → List ℕ → ℕ → ℕ → List ℕ → List ℕ
pool_bytes rate collateral borrow wallet exposure current last =
    pool_discriminator
    ++ (le_bytes 1 rate
        ++ (collateral
            ++ (le_bytes 8 borrow
                ++ (wallet ++ (le_bytes 8 exposure ++ (le_bytes 8 current ++ last))))))

module _ (lib : Solana) (rate borrow exposure current : ℕ) (collateral wallet : List ℕ)
    (hr : rate < 256) (hb : borrow < 256 ^ 8) (he : exposure < 256 ^ 8) (hc : current < 256 ^ 8)
    (lc : length collateral ≡ 32) (lw : length wallet ≡ 32) where
  open lib use {PublicKey, public_key_from_bytes}

  with_qt_type : List ℕ × ℕ → Decoded (Pool PublicKey)
  with_qt_type (qt, o7) = ok (record {
    interest_rate = rate;
    collateral_type = public_key_from_bytes collateral;
    max_borrow = borrow;
    node_wallet = public_key_from_bytes wallet;
    max_exposure = exposure;
    current_exposure = current;
    qt_type = public_key_from_bytes qt;
  })

  -- The reader gets to the last field.
  deserialize_pool-last :
      (last : List ℕ)
      → let bytes = pool_bytes rate collateral borrow wallet exposure current last in
        (deserialize_pool lib bytes
          ≡ (read 32 "data too short for qt type" bytes 97 >>= with_qt_type))
        × (drop 97 bytes ≡ last)
  unfolding deserialize_pool with_qt_type
  deserialize_pool-last last =
      let bytes = pool_bytes rate collateral borrow wallet exposure current last in
      let p1 : 0 < 1 = omega arith in
      let p8 : 0 < 8 = omega arith in
      let p32 : 0 < 32 = omega arith in
      let (e0, a0) = check_discriminator-accepts _ _ pool_discriminator _ refl in
      let (e1, a1) = read_lem 1 _ bytes 8 (le_bytes 1 rate) _ p1 a0 (length-le_bytes 1 rate) in
      let (e2, a2) = read_lem 32 _ bytes 9 collateral _ p32 a1 lc in
      let (e3, a3) = read_lem 8 _ bytes 41 (le_bytes 8 borrow) _ p8 a2 (length-le_bytes 8 borrow) in
      let (e4, a4) = read_lem 32 _ bytes 49 wallet _ p32 a3 lw in
      let (e5, a5) =
        read_lem 8 _ bytes 81 (le_bytes 8 exposure) _ p8 a4 (length-le_bytes 8 exposure) in
      let (e6, a6) =
        read_lem 8 _ bytes 89 (le_bytes 8 current) last p8 a5 (length-le_bytes 8 current) in
      (
        bind_ok _ e0
            ∙ bind_ok _ e1
            ∙ bind_ok _ e2
            ∙ bind_ok _ e3
            ∙ bind_ok _ e4
            ∙ bind_ok _ e5
            ∙ bind_ok _ e6
            ∙ (rw
                (
                  le_value-le_bytes 1 rate hr,
                  le_value-le_bytes 8 borrow hb,
                  le_value-le_bytes 8 exposure he,
                  le_value-le_bytes 8 current hc,
                )
                refl),
        a6,
      )

  -- The bytes of a pool account are read back into the fields they were written from, whatever
  -- follows them, if the rate fits a byte, the amounts fit 64 bits and the keys have 32 bytes.
  pub deserialize_pool-pool_bytes :
      (qt rest : List ℕ)
      → length qt ≡ 32
      → deserialize_pool lib
          (pool_bytes rate collateral borrow wallet exposure current (qt ++ rest))
        ≡ ok (record {
          interest_rate = rate;
          collateral_type = public_key_from_bytes collateral;
          max_borrow = borrow;
          node_wallet = public_key_from_bytes wallet;
          max_exposure = exposure;
          current_exposure = current;
          qt_type = public_key_from_bytes qt;
        })
  unfolding with_qt_type
  deserialize_pool-pool_bytes qt rest lq =
      let (all, at) = deserialize_pool-last (qt ++ rest) in
      let p32 : 0 < 32 = omega arith in
      let (e7, a7) = read_lem 32 "data too short for qt type" _ 97 qt rest p32 at lq in
      all ∙ bind_ok with_qt_type e7

  -- A pool account that ends before its last key does is refused with the error text for that
  -- key, if its rate fits a byte, its amounts fit 64 bits and its other keys have 32 bytes.
  pub deserialize_pool-cut :
      (qt : List ℕ)
      → length qt < 32
      → deserialize_pool lib (pool_bytes rate collateral borrow wallet exposure current qt)
        ≡ err "data too short for qt type"
  deserialize_pool-cut qt short =
      let (all, at) = deserialize_pool-last qt in
      all ∙ (rw (read-short 32 "data too short for qt type" _ 97 qt at short) refl)
