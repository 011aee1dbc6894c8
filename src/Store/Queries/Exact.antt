-- ===== src/Store/Queries/Exact.antt =====
-- A read through an index returns the stored offers with the key, each once, and no other.
use text.Mathlib.TextLemmas.{append_assoc}
use margin_offer_system.Base.{
  ℕ, suc, ◌+◌, ◌<◌, String, ◌≡◌, refl, Option, none, some, List, [], ◌∷◌, arith, ◌==◌, eq_iff,
  if◌then◌else◌, ◌∙◌, ap, All, length, Option-cases, inl, inr, ◌⊎◌,
}
use margin_offer_system.Base.GoMap.{GoMap, nil_map, made, Assoc, get, lookup, entries, IsDistinct}
use margin_offer_system.Types.Offer.{MarginOffer, clone-id}
use margin_offer_system.Store.Memory.{MemoryStore, token_key}
use margin_offer_system.Store.Memory.Index.{
  IdIndex, ids_at, count, remove_from_slice, count-remove_from_slice,
}
use margin_offer_system.Store.Memory.Index.Tracks.{Key, here, expected, Tracks}
use margin_offer_system.Store.Memory.Invariant.{
  Table, table, IsConsistent, IsTable, lender_of, pair_of, type_of,
}
use margin_offer_system.Store.Bulk.{count_by_offer_type}
use margin_offer_system.Store.Queries.{
  fetch, get_offers_by_lender_from_index, get_offers_by_token_from_index,
  get_offers_by_type_from_index,
}

-- How many offers of a list have the ID.
abbrev pub occurrences : String → List MarginOffer → ℕ
occurrences x [] = 0
occurrences x (o ∷ offers) = (if o.id == x then 1 else 0) + occurrences x offers

-- Each offer of the list is the one that is stored under its ID.
abbrev pub AllStored : Table → List MarginOffer → Type 0
AllStored t = All (λ o. t o.id ≡ some o)

-- The answer to a query for the offers with a key.
pub record IsAnswer (key : Key) (k : String) (ms : MemoryStore) (offers : List MarginOffer)
    : Type 0 where
  pub stored : AllStored (table ms) offers
  pub once : (id : String) → occurrences id offers ≡ expected key (table ms id) k

module _ (m : GoMap MarginOffer)
    (own : (x : String) (o : MarginOffer) → get x m ≡ some o → o.id ≡ x) where
  fetch-AllStored : (ids : List String) → AllStored (λ x. get x m) (fetch ids m)
  unfolding fetch
  fetch-AllStored [] = tt
  fetch-AllStored (id ∷ ids) = elim (Option-cases (get id m)) [
    | inl e ↦ rw e (fetch-AllStored ids)
    | inr (o, e) ↦
        rw (e, clone-id o) (ap (λ (x : String). get x m) (own id o e) ∙ e, fetch-AllStored ids)
  ]

  stored_count : Option MarginOffer → ℕ → ℕ
  stored_count none n = 0
  stored_count (some o) n = n

  occurrences-fetch :
      (x : String) (ids : List String)
      → occurrences x (fetch ids m) ≡ stored_count (get x m) (count x ids)
  unfolding fetch count stored_count
  occurrences-fetch x [] = ground arith
  occurrences-fetch x (id ∷ ids) = elim (Option-cases (get id m)) [
    | inl e ↦ rw (e) (ground (arith, occurrences-fetch x ids, eq_iff id x))
    | inr (o, e) ↦
        rw (e, clone-id o)
          (ground (arith, occurrences-fetch x ids, eq_iff id x, eq_iff o.id x, own id o e))
  ]

answer :
    (key : Key) (k : String) (ms : MemoryStore) (ix : IdIndex)
    → IsConsistent ms
    → Tracks key (table ms) ix
    → IsAnswer key k ms (fetch (ids_at k ix) ms.offers)
answer key k ms ix c t = record {
  stored = fetch-AllStored ms.offers c.own_id (ids_at k ix);
  once = λ id.
      unfold stored_count in
      ground (arith, occurrences-fetch ms.offers c.own_id id (ids_at k ix), t.counted k id);
}

-- On a consistent store, the read through the lender index returns the stored offers of the
-- lender, each once, and no other.
pub get_offers_by_lender_from_index-IsAnswer :
    (lender : String) (ms : MemoryStore)
    → IsConsistent ms
    → IsAnswer lender_of lender ms (get_offers_by_lender_from_index lender ms)
unfolding get_offers_by_lender_from_index
get_offers_by_lender_from_index-IsAnswer lender ms c =
    answer lender_of lender ms ms.lender_index c c.indexed.lenders

-- On a consistent store, the read through the token index returns the stored offers whose joined
-- pair of tokens is the joined pair asked for, each once, and no other.
pub get_offers_by_token_from_index-IsAnswer :
    (collateral borrow : String) (ms : MemoryStore)
    → IsConsistent ms
    → IsAnswer pair_of
        (token_key collateral borrow)
        ms
        (get_offers_by_token_from_index collateral borrow ms)
unfolding get_offers_by_token_from_index
get_offers_by_token_from_index-IsAnswer collateral borrow ms c =
    answer pair_of _ ms ms.token_index c c.indexed.tokens

-- On a consistent store, the read through the type index returns the stored offers of the type,
-- each once, and no other.
pub get_offers_by_type_from_index-IsAnswer :
    (offer_type : String) (ms : MemoryStore)
    → IsConsistent ms
    → IsAnswer type_of offer_type ms (get_offers_by_type_from_index offer_type ms)
unfolding get_offers_by_type_from_index
get_offers_by_type_from_index-IsAnswer offer_type ms c =
    answer type_of offer_type ms ms.offer_type_index c c.indexed.types

-- Two pairs of tokens that are one key of the index.
pub token_key-collision :
    (a b c : String) → token_key (token_key a b) c ≡ token_key a (token_key b c)
unfolding token_key
token_key-collision a b c = simp append_assoc

-- The reads through the token index for the pairs (a|b, c) and (a, b|c) return the same offers,
-- on every store.
pub get_offers_by_token_from_index-collision :
    (a b c : String) (ms : MemoryStore)
    → get_offers_by_token_from_index (token_key a b) c ms
      ≡ get_offers_by_token_from_index a (token_key b c) ms
unfolding get_offers_by_token_from_index
get_offers_by_token_from_index-collision a b c ms =
    ap (λ (k : String). fetch (ids_at k ms.token_index) ms.offers) (token_key-collision a b c)

-- The number of entries with the key.
abbrev pub number : Key → String → Assoc MarginOffer → ℕ
number key k [] = 0
number key k ((_, o) ∷ m) = here (key o) k + number key k m

count_zero-nil : (ids : List String) → ((x : String) → count x ids ≡ 0) → ids ≡ []
unfolding count
count_zero-nil [] h = refl
count_zero-nil (id ∷ ids) h = ground (arith, h id, eq_iff id id)

length-remove_from_slice :
    (item : String) (ids : List String)
    → 0 < count item ids
    → suc (length (remove_from_slice ids item)) ≡ length ids
unfolding count remove_from_slice
length-remove_from_slice item [] h = absurd (omega arith)
length-remove_from_slice item (v ∷ ids) h = ground (arith, length-remove_from_slice item ids)

here_cases : (key : Option String) (k : String) → (here key k ≡ 0) ⊎ (here key k ≡ 1)
here_cases none k = inl refl
here_cases (some j) k = ground arith

length-eq-number :
    (key : Key) (k : String) (m : Assoc MarginOffer) (ids : List String)
    → IsDistinct m
    → ((x : String) → count x ids ≡ expected key (lookup x m) k)
    → length ids ≡ number key k m
unfolding lookup
length-eq-number key k [] ids d h = ap length (count_zero-nil ids h)
length-eq-number key k ((j, o) ∷ m) ids d h = elim (here_cases (key o) k) [
  | inl z ↦
      ground
        (arith, z, length-eq-number key k m ids d.1 (λ x. ground (arith, h x, eq_iff j x, d.0, z)))
  | inr u ↦
      let listed : 0 < count j ids = ground (arith, h j, eq_iff j j, u) in
      ground (
        arith,
        u,
        length-remove_from_slice j ids listed,
        length-eq-number key k m (remove_from_slice ids j) d.1
            (λ x. ground (arith, h x, eq_iff j x, d.0, u, count-remove_from_slice x j ids listed)),
      )
]

-- On a consistent store, CountByOfferType, which reads the index, returns the number of entries
-- of the table that have the type.
pub count_by_offer_type-eq-number :
    (offer_type : String) (ms : MemoryStore)
    → IsConsistent ms
    → count_by_offer_type offer_type ms ≡ number type_of offer_type (entries ms.offers)
unfolding count_by_offer_type get entries
count_by_offer_type-eq-number offer_type ms c =
    by_map ms.offers c.is_table (λ x. c.indexed.types.counted offer_type x)
  where
    by_map :
        (m : GoMap MarginOffer)
        → IsTable m
        → ((x : String)
            → count x (ids_at offer_type ms.offer_type_index)
              ≡ expected type_of (get x m) offer_type)
        → length (ids_at offer_type ms.offer_type_index) ≡ number type_of offer_type (entries m)
    by_map nil_map d h = elim d [ ]
    by_map (made m) d h =
        length-eq-number type_of offer_type m (ids_at offer_type ms.offer_type_index) d h
