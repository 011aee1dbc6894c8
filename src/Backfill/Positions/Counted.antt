-- ===== src/Backfill/Positions/Counted.antt =====
-- backfillers/backfiller.go: what is logged of the positions of a pool, from the positions at large.
use margin_offer_system.Base.{
  ℕ, suc, ◌+◌, ◌%◌, ◌^◌, ◌≡◌, refl, ◌∙◌, ap, String, Option, none, some, List, [], ◌∷◌, ◌++◌, ◌==◌,
  if◌then◌else◌, arith, Bool-cases, inl, inr, eq_iff,
}
use mathlib.Core.List.{append_assoc}
use margin_offer_system.Base.GoMap.{GoMap, Assoc, made, get, put, lookup, insert, lookup-insert}
use margin_offer_system.Base.Run.{done}
use margin_offer_system.Types.Pool.{Solana, Pool, Position}
use margin_offer_system.Backfill.Positions.{
  values_of, is_zero_timestamp, PositionStats, group_positions, count_positions, position_stats,
}

module _ (lib : Solana) where
  open lib use {PublicKey, to_string}

  -- The positions whose pool prints as a key, in their order.
  abbrev pub positions_of : String → List (Position PublicKey) → List (Position PublicKey)
  positions_of key [] = []
  positions_of key (p ∷ ps) =
      let rest = positions_of key ps in if to_string p.pool == key then p ∷ rest else rest

  -- The active ones, and the sum of their amounts.
  abbrev pub active : List (Position PublicKey) → ℕ
  active [] = 0
  active (p ∷ ps) =
      let rest = active ps in if is_zero_timestamp p.close_timestamp then suc rest else rest

  abbrev pub borrowed : List (Position PublicKey) → ℕ
  borrowed [] = 0
  borrowed (p ∷ ps) =
      let rest = borrowed ps in
      if is_zero_timestamp p.close_timestamp then p.amount + rest else rest

  -- What is logged of positions: nothing where there are none.
  abbrev pub logged : List (Position PublicKey) → Option PositionStats
  logged [] = none
  logged (p ∷ ps) =
      some
        (record { active_positions = active (p ∷ ps); total_borrowed = borrowed (p ∷ ps) % 2 ^ 64 })

  abbrev pub stats : ℕ → ℕ → PositionStats
  stats n t = record { active_positions = n; total_borrowed = t }

  stats_eq : {a a' b b' : ℕ} → a ≡ a' → b ≡ b' → stats a b ≡ stats a' b'
  stats_eq {a' = a'} {b = b} h k = ap (λ x. stats x b) h ∙ ap (stats a') k

  count_positions_lem :
      (ps : List (Position PublicKey)) (n t : ℕ)
      → count_positions lib ps (record { active_positions = n; total_borrowed = t % 2 ^ 64 })
        ≡ record { active_positions = n + active ps; total_borrowed = (t + borrowed ps) % 2 ^ 64 }
  unfolding count_positions
  count_positions_lem [] n t = stats_eq (omega arith) (omega arith)
  count_positions_lem (p ∷ ps) n t = elim (Bool-cases (is_zero_timestamp p.close_timestamp)) [
    | inl e ↦
        let wraps : (t % 2 ^ 64 + p.amount) % 2 ^ 64 ≡ (t + p.amount) % 2 ^ 64 = omega arith in
        rw (e, wraps)
          (count_positions_lem ps (suc n) (t + p.amount) ∙ stats_eq (omega arith) (omega arith))
    | inr e ↦ rw e (count_positions_lem ps n t)
  ]

  -- Positions behind those that stand under a key.
  abbrev extended :
      Option (List (Position PublicKey))
      → List (Position PublicKey)
      → Option (List (Position PublicKey))
  extended before [] = before
  extended before (p ∷ ps) = some (values_of before ++ p ∷ ps)

  extended-one :
      (before : Option (List (Position PublicKey))) (p : Position PublicKey)
      (ps : List (Position PublicKey))
      → extended (some (values_of before ++ p ∷ [])) ps ≡ extended before (p ∷ ps)
  extended-one before p [] = refl
  extended-one before p (q ∷ ps) = ap some (append_assoc (values_of before) (p ∷ []) (q ∷ ps))

  group_positions_lem :
      (ps : List (Position PublicKey)) (m : Assoc (List (Position PublicKey)))
      → (m' : Assoc (List (Position PublicKey))) × (group_positions lib ps (made m)
          ≡ done (made m'))
        × ((key : String) → lookup key m' ≡ extended (lookup key m) (positions_of key ps))
  unfolding group_positions put get
  group_positions_lem [] m = (m, refl, λ key. refl)
  group_positions_lem (p ∷ ps) m =
      let k = to_string p.pool in
      let one = values_of (lookup k m) ++ p ∷ [] in
      let (m', ran, looks) = group_positions_lem ps (insert k one m) in
      (
        m',
        ran,
        λ key. elim (Bool-cases (k == key)) [
          | inr e ↦ looks key ∙ rw (lookup-insert k key one m, e) refl
          | inl e ↦
              let same : k ≡ key = (eq_iff k key).0 e in
              looks key
              ∙ rw (lookup-insert k key one m, e)
                  (extended-one (lookup k m) p (positions_of key ps)
                    ∙ ap (λ x. extended (lookup x m) (p ∷ positions_of key ps)) same)
        ],
      )

  logged_lem :
      (ps : List (Position PublicKey)) (m : GoMap (List (Position PublicKey)))
      (pool : Pool PublicKey)
      → get (to_string pool.node_wallet) m ≡ extended none ps
      → position_stats lib m pool ≡ logged ps
  unfolding position_stats
  logged_lem [] m pool h = rw (position_stats, h) refl
  logged_lem (p ∷ ps) m pool h =
      rw (position_stats, h)
        (ap some (count_positions_lem (p ∷ ps) 0 0 ∙ stats_eq (omega arith) (omega arith)))

  -- The statistics.
  pub position_stats-logged :
      (positions : List (Position PublicKey))
      → (m : GoMap (List (Position PublicKey))) × (group_positions lib positions (made []) ≡ done m)
        × ((pool : Pool PublicKey)
            → position_stats lib m pool
              ≡ logged (positions_of (to_string pool.node_wallet) positions))
  unfolding get lookup
  position_stats-logged positions =
      let (m, ran, looks) = group_positions_lem positions [] in
      (
        made m,
        ran,
        λ pool.
            logged_lem (positions_of (to_string pool.node_wallet) positions) (made m) pool
              (looks (to_string pool.node_wallet)),
      )
