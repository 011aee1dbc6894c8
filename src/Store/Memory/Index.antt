-- ===== src/Store/Memory/Index.antt =====
-- One index of the store: a map from a key to the IDs of the offers that have it. The helpers of
-- store/memory_store.go, for one index.
pub mod Tracks
pub mod Absent
use margin_offer_system.Base.{
  ℕ, ◌+◌, ◌<◌, String, ◌≡◌, ◌≢◌, refl, Option, none, some, List, [], ◌∷◌, ◌++◌, Bool, true, false,
  arith, ◌==◌, eq_iff, if◌then◌else◌,
}
use margin_offer_system.Base.GoMap.{
  GoMap, nil_map, made, Assoc, get, put, delete, lookup, insert, erase, lookup-insert, lookup-erase,
}
use margin_offer_system.Base.Run.{Run, done, panic, ◌>>=◌}
use margin_offer_system.Types.Offer.{MarginOffer}

abbrev pub IdIndex : Type 0
IdIndex = GoMap (List String)

-- `index[key]`: nil where the key is missing.
unfoldable pub ids_at : String → IdIndex → List String
ids_at k ix = elim (get k ix) [ none ↦ [] | some ids ↦ ids ]

-- `index[key] = append(index[key], id)`
unfoldable pub append_id : String → String → IdIndex → Run IdIndex
unfolding ids_at
append_id k id ix = put k (ids_at k ix ++ id ∷ []) ix

-- `removeFromSlice`: without the first occurrence.
unfoldable pub remove_from_slice : List String → String → List String
remove_from_slice [] item = []
remove_from_slice (v ∷ slice) item = if v == item then slice else v ∷ remove_from_slice slice item

unfoldable pub delete_if_empty : String → List String → IdIndex → IdIndex
delete_if_empty k [] ix = delete k ix
delete_if_empty k (_ ∷ _) ix = ix

-- The ID is taken out of the slice of its key, and a key with an empty slice is deleted.
unfoldable pub drop_id : String → String → IdIndex → Run IdIndex
unfolding ids_at remove_from_slice delete_if_empty
drop_id k id ix = do
  ix' ← put k (remove_from_slice (ids_at k ix) id) ix
  done (delete_if_empty k (ids_at k ix') ix')

-- An offer without the key stays out of the index.
unfoldable pub append_opt : Option String → String → IdIndex → Run IdIndex
append_opt none id ix = done ix
append_opt (some k) id ix = append_id k id ix

unfoldable pub drop_opt : Option String → String → IdIndex → Run IdIndex
drop_opt none id ix = done ix
drop_opt (some k) id ix = drop_id k id ix

unfoldable pub count : String → List String → ℕ
count x [] = 0
count x (y ∷ ys) = (if y == x then 1 else 0) + count x ys

pub count-append : (x : String) (xs ys : List String) → count x (xs ++ ys) ≡ count x xs + count x ys
unfolding count
count-append x [] ys = omega arith
count-append x (y ∷ xs) ys = omega (arith, count-append x xs ys)

-- With at least one occurrence, exactly one is removed, and nothing else.
pub count-remove_from_slice :
    (x item : String) (slice : List String)
    → 0 < count item slice
    → count x (remove_from_slice slice item) + (if item == x then 1 else 0) ≡ count x slice
unfolding count remove_from_slice
count-remove_from_slice x item [] h = absurd (omega arith)
count-remove_from_slice x item (v ∷ slice) h =
    ground (arith, eq_iff v item, eq_iff v x, eq_iff item x, count-remove_from_slice x item slice)
