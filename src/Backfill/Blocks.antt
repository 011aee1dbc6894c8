-- ===== src/Backfill/Blocks.antt =====
-- backfillers/backfiller.go: `FetchFromChain`. The context is known by the error that it has after
-- each block.
use mathlib.Core.Option
use margin_offer_system.Base.{
  ℕ, zero, suc, ◌+◌, ◌-◌, ◌*◌, ◌/◌, ◌%◌, ◌^◌, ◌≤◌, ◌<◌, ◌≡◌, refl, sym, ap, ◌∙◌, true, false,
  String, Option, none, some, List, [], ◌++◌, arith, leb, if◌then◌else◌, Bool-cases, inl, inr,
}
use margin_offer_system.Types.Offer.{MarginOffer}
use margin_offer_system.Types.Pool.Bytes.{ok, err, Decoded-cases}
use margin_offer_system.Backfill.Fetch.{ChainClient, ensure_connected}

-- `block += batchSize`, a uint64.
unfoldable pub next_block : ℕ → ℕ
next_block block = (block + 100) % 2 ^ 64

-- The number of the blocks up to the end, each 100 after the one before.
abbrev pub blocks_to : ℕ → ℕ → ℕ
blocks_to block end = (end + 100 - block) / 100

module _ (chain : ChainClient) where
  -- The offers of a block, where it can be fetched.
  abbrev pub offers_at : ℕ → List MarginOffer
  offers_at block = elim (chain.margin_offers_by_block block) [ err _ ↦ [] | ok offers ↦ offers ]

  -- The offers of `n` blocks, each 100 after the one before.
  unfoldable pub every_hundredth : ℕ → ℕ → List MarginOffer
  every_hundredth zero block = []
  every_hundredth (suc n) block = offers_at block ++ every_hundredth n (block + 100)

module _ (chain : ChainClient) (cancelled : ℕ → Option String) where
  -- The loop, with fuel: a block that cannot be fetched is left out.
  unfoldable pub fetch_blocks : ℕ → ℕ → ℕ → ℕ → Option (List MarginOffer × Option String)
  unfolding next_block
  fetch_blocks zero i block end = none
  fetch_blocks (suc fuel) i block end =
      let rest = fetch_blocks fuel (suc i) (next_block block) end in
      if leb block end
      then elim (chain.margin_offers_by_block block) [
        | err _ ↦ rest
        | ok offers ↦ elim (cancelled i) [
          | some e ↦ some (offers, some e)
          | none ↦ Option.map (λ r. (offers ++ r.0, r.1)) rest
        ]
      ]
      else some ([], none)

  -- `FetchFromChain`
  unfoldable pub fetch_from_chain : ℕ → ℕ → ℕ → Option (List MarginOffer × Option String)
  unfolding fetch_blocks ensure_connected
  fetch_from_chain fuel start end = elim (ensure_connected chain) [
    | some e ↦ some ([], some e)
    | none ↦ fetch_blocks fuel 0 start end
  ]

  taken :
      (block : ℕ) (offers : List MarginOffer)
      → chain.margin_offers_by_block block ≡ ok offers
      → offers_at chain block ≡ offers
  taken block offers good = rw (offers_at, good) refl

  missed :
      (block : ℕ) (e : String)
      → chain.margin_offers_by_block block ≡ err e
      → offers_at chain block ≡ []
  missed block e bad = rw (offers_at, bad) refl

  fetch_step :
      (fuel i block end : ℕ) (rest : List MarginOffer)
      → leb block end ≡ true
      → cancelled i ≡ none
      → fetch_blocks fuel (suc i) (next_block block) end ≡ some (rest, none)
      → fetch_blocks (suc fuel) i block end ≡ some (offers_at chain block ++ rest, none)
  unfolding fetch_blocks
  fetch_step fuel i block end rest within runs later =
      elim (Decoded-cases (chain.margin_offers_by_block block)) [
        | inr (e, bad) ↦
            rw (fetch_blocks, within, bad, later)
              (ap (λ xs. some (xs ++ rest, none)) (sym (missed block e bad)))
        | inl (offers, good) ↦
            rw (fetch_blocks, within, good, runs, later)
              (ap (λ xs. some (xs ++ rest, none)) (sym (taken block offers good)))
      ]

  next_block-small :
      (block end : ℕ)
      → block ≤ end
      → end + 100 < 18446744073709551616
      → next_block block ≡ block + 100
  unfolding next_block
  next_block-small block end within small = omega arith

  fetch_end :
      (fuel i block end : ℕ)
      → leb block end ≡ false
      → fetch_blocks (suc fuel) i block end ≡ some ([], none)
  unfolding fetch_blocks
  fetch_end fuel i block end over = rw (fetch_blocks, over) refl

  fetch_blocks_lem :
      (fuel i block end : ℕ)
      → ((j : ℕ) → cancelled j ≡ none)
      → end + 100 < 18446744073709551616
      → end + 100 < block + 100 * fuel
      → 0 < fuel
      → fetch_blocks fuel i block end
        ≡ some (every_hundredth chain (blocks_to block end) block, none)
  fetch_blocks_lem zero i block end runs small enough some_fuel = absurd (omega arith)
  fetch_blocks_lem (suc fuel) i block end runs small enough some_fuel =
      elim (Bool-cases (leb block end)) [
        | inr over ↦
            let past : end < block = ground arith in
            let none_left : blocks_to block end ≡ 0 = omega arith in
            fetch_end fuel i block end over ∙ rw none_left (unfold every_hundredth in refl)
        | inl within ↦
            let before : block ≤ end = ground arith in
            let more : blocks_to block end ≡ suc (blocks_to (block + 100) end) = omega arith in
            let moved = next_block-small block end before small in
            let some_left : 0 < fuel = omega arith in
            fetch_step fuel i block end
              (every_hundredth chain (blocks_to (block + 100) end) (block + 100)) within (runs i)
              (rw moved (
                fetch_blocks_lem fuel (suc i) (block + 100) end runs small (omega arith) some_left))
            ∙ rw more (unfold every_hundredth in refl)
      ]

  -- If the chain is connected, nothing is cancelled and the end is more than 100 below 2^64,
  -- FetchFromChain comes to its end within as many rounds as it asks for blocks and one more, and
  -- returns the offers of the first block and of each hundredth after it up to the end, less the
  -- blocks that cannot be fetched.
  pub fetch_from_chain-every_hundredth :
      (start end : ℕ)
      → ensure_connected chain ≡ none
      → ((j : ℕ) → cancelled j ≡ none)
      → end + 100 < 18446744073709551616
      → fetch_from_chain (suc (blocks_to start end)) start end
        ≡ some (every_hundredth chain (blocks_to start end) start, none)
  unfolding fetch_from_chain
  fetch_from_chain-every_hundredth start end connected runs small =
      rw (fetch_from_chain, connected)
        (fetch_blocks_lem (suc (blocks_to start end)) 0 start end runs small (omega arith)
          (omega arith))

  next_block-word : (block : ℕ) → next_block block < 18446744073709551616
  unfolding next_block
  next_block-word block = omega arith

  -- Up to the largest block number there is no end, whatever the fuel.
  fetch_blocks-endless :
      (fuel i block : ℕ)
      → ((j : ℕ) → cancelled j ≡ none)
      → block < 18446744073709551616
      → fetch_blocks fuel i block 18446744073709551615 ≡ none
  unfolding fetch_blocks
  fetch_blocks-endless zero i block runs small = refl
  fetch_blocks-endless (suc fuel) i block runs small =
      let later =
        fetch_blocks-endless fuel (suc i) (next_block block) runs (next_block-word block) in
      let within : leb block 18446744073709551615 ≡ true = ground arith in
      elim (Decoded-cases (chain.margin_offers_by_block block)) [
        | inr (e, bad) ↦ rw (fetch_blocks, within, bad, later) refl
        | inl (offers, good) ↦ rw (fetch_blocks, within, good, runs i, later) refl
      ]
