-- ===== src/Store/Memory/Index/Tracks.antt =====
-- An index that lists exactly the offers of a table, each once, under the key that it has.
use margin_offer_system.Base.{
  ℕ, ◌+◌, ◌<◌, String, ◌≡◌, ◌≢◌, refl, Option, none, some, List, [], ◌∷◌, ◌++◌, arith, ◌==◌, eq_iff,
  if◌then◌else◌, inl, inr, Option-cases, eq_refl, ap, ◌∙◌,
}
use margin_offer_system.Base.GoMap.{
  nil_map, made, Assoc, get, put, delete, insert, erase, lookup-insert, lookup-erase,
}
use margin_offer_system.Base.Run.{done}
use margin_offer_system.Types.Offer.{MarginOffer}
use margin_offer_system.Store.Memory.Index.{
  IdIndex, ids_at, append_id, drop_id, append_opt, drop_opt, count, count-append, remove_from_slice,
  count-remove_from_slice, delete_if_empty,
}

abbrev pub Key : Type 0
Key = MarginOffer → Option String

-- How often an offer with the key `j` stands under `k`.
abbrev pub here : Option String → String → ℕ
here none k = 0
here (some j) k = if j == k then 1 else 0

abbrev pub expected : Key → Option MarginOffer → String → ℕ
expected key none k = 0
expected key (some o) k = here (key o) k

abbrev pub IsMade : IdIndex → Type 0
IsMade nil_map = ⊥
IsMade (made m) = Unit

pub record Tracks (key : Key) (table : String → Option MarginOffer) (ix : IdIndex) : Type 0 where
  pub allocated : IsMade ix
  pub counted : (k id : String) → count id (ids_at k ix) ≡ expected key (table id) k
  pub no_empty : (k : String) → get k ix ≢ some []

ids_at-insert :
    (k j : String) (ids : List String) (m : Assoc (List String))
    → ids_at j (made (insert k ids m)) ≡ (if k == j then ids else ids_at j (made m))
unfolding ids_at get
ids_at-insert k j ids m = ground (arith, lookup-insert k j ids m)

ids_at-erase :
    (k j : String) (m : Assoc (List String))
    → ids_at j (made (erase k m)) ≡ (if k == j then [] else ids_at j (made m))
unfolding ids_at get
ids_at-erase k j m = ground (arith, lookup-erase k j m)

append-ne-nil : (xs : List String) (x : String) → xs ++ x ∷ [] ≢ []
append-ne-nil [] x h = cc
append-ne-nil (y ∷ xs) x h = cc

-- One more occurrence of `id` under its key, and nothing else.
pub record Adds (key : Option String) (id : String) (ix ix' : IdIndex) : Type 0 where
  pub allocated : IsMade ix'
  pub counts :
      (j x : String)
      → count x (ids_at j ix') ≡ count x (ids_at j ix) + (if id == x then here key j else 0)
  pub no_empty : (j : String) → get j ix ≢ some [] → get j ix' ≢ some []

-- One occurrence of `id` fewer under its key, and nothing else.
pub record Removes (key : Option String) (id : String) (ix ix' : IdIndex) : Type 0 where
  pub allocated : IsMade ix'
  pub counts :
      (j x : String)
      → count x (ids_at j ix') + (if id == x then here key j else 0) ≡ count x (ids_at j ix)
  pub no_empty : (j : String) → get j ix ≢ some [] → get j ix' ≢ some []

append_id-Adds :
    (k id : String) (ix : IdIndex)
    → IsMade ix
    → (ix' : IdIndex) × (append_id k id ix ≡ done ix') × Adds (some k) id ix ix'
unfolding append_id put get count
append_id-Adds k id nil_map h = elim h [ ]
append_id-Adds k id (made m) h = (
  made (insert k (ids_at k (made m) ++ id ∷ []) m),
  refl,
  record {
    allocated = tt;
    counts = λ j x. ground (
      arith,
      ids_at-insert k j (ids_at k (made m) ++ id ∷ []) m,
      count-append x (ids_at k (made m)) (id ∷ []),
      eq_iff k j,
    );
    no_empty = λ j n e. ground (
      arith,
      lookup-insert k j (ids_at k (made m) ++ id ∷ []) m,
      append-ne-nil (ids_at k (made m)) id,
    );
  },
)

pub delete_if_empty_removed :
    (k : String) (rest : List String) (m : Assoc (List String))
    → (m' : Assoc (List String)) × (delete_if_empty k rest (made (insert k rest m)) ≡ made m')
      × ((j : String) → ids_at j (made m') ≡ (if k == j then rest else ids_at j (made m)))
      × ((j : String) → get j (made m) ≢ some [] → get j (made m') ≢ some [])
unfolding delete_if_empty delete get
delete_if_empty_removed k [] m = (
  erase k (insert k [] m),
  refl,
  λ j. ground (arith, ids_at-erase k j (insert k [] m), ids_at-insert k j [] m),
  λ j n e. ground (arith, lookup-erase k j (insert k [] m), lookup-insert k j [] m),
)
delete_if_empty_removed k (v ∷ rest) m = (
  insert k (v ∷ rest) m,
  refl,
  λ j. ids_at-insert k j (v ∷ rest) m,
  λ j n e. ground (arith, lookup-insert k j (v ∷ rest) m),
)

pub drop_id_lem :
    (k id : String) (m : Assoc (List String))
    → let rest = remove_from_slice (ids_at k (made m)) id in
      drop_id k id (made m) ≡ done (delete_if_empty k rest (made (insert k rest m)))
unfolding drop_id put
drop_id_lem k id m = rw (ids_at-insert k k (remove_from_slice (ids_at k (made m)) id) m, eq_refl)

drop_id-Removes :
    (k id : String) (ix : IdIndex)
    → IsMade ix
    → 0 < count id (ids_at k ix)
    → (ix' : IdIndex) × (drop_id k id ix ≡ done ix') × Removes (some k) id ix ix'
drop_id-Removes k id nil_map h c = elim h [ ]
drop_id-Removes k id (made m) h c =
    let rest = remove_from_slice (ids_at k (made m)) id in
    let (m', e, at, keeps) = delete_if_empty_removed k rest m in
    (
      made m',
      drop_id_lem k id m ∙ ap done e,
      record {
        allocated = tt;
        counts = λ j x.
            ground (arith, at j, count-remove_from_slice x id (ids_at k (made m)), eq_iff k j);
        no_empty = keeps;
      },
    )

pub append_opt-Adds :
    (key : Option String) (id : String) (ix : IdIndex)
    → IsMade ix
    → (ix' : IdIndex) × (append_opt key id ix ≡ done ix') × Adds key id ix ix'
unfolding append_opt
append_opt-Adds none id ix h =
    (ix, refl, record { allocated = h; counts = λ j x. ground arith; no_empty = λ j n. n })
append_opt-Adds (some k) id ix h = append_id-Adds k id ix h

-- Whether an ID stands under its own key, if it has one.
abbrev pub IsListed : Option String → String → IdIndex → Type 0
IsListed none id ix = Unit
IsListed (some k) id ix = 0 < count id (ids_at k ix)

pub drop_opt-Removes :
    (key : Option String) (id : String) (ix : IdIndex)
    → IsMade ix
    → IsListed key id ix
    → (ix' : IdIndex) × (drop_opt key id ix ≡ done ix') × Removes key id ix ix'
unfolding drop_opt
drop_opt-Removes none id ix h c =
    (ix, refl, record { allocated = h; counts = λ j x. ground arith; no_empty = λ j n. n })
drop_opt-Removes (some k) id ix h c = drop_id-Removes k id ix h c

-- The table with one entry replaced.
abbrev pub updated :
    String → Option MarginOffer → (String → Option MarginOffer) → String → Option MarginOffer
updated id o table x = if id == x then o else table x

module _ (key : Key) (o : MarginOffer) (table : String → Option MarginOffer) {ix : IdIndex} where
  -- A new offer is appended under its key.
  pub Tracks-append :
      Tracks key table ix
      → table o.id ≡ none
      → (ix' : IdIndex) × (append_opt (key o) o.id ix ≡ done ix')
        × Tracks key (updated o.id (some o) table) ix'
  Tracks-append t h =
      let (ix', e, a) = append_opt-Adds (key o) o.id ix t.allocated in
      (
        ix',
        e,
        record {
          allocated = a.allocated;
          counted = λ k x. ground (arith, a.counts k x, t.counted k x, eq_iff o.id x);
          no_empty = λ k. a.no_empty k (t.no_empty k);
        },
      )

  listed : Tracks key table ix → table o.id ≡ some o → IsListed (key o) o.id ix
  listed t h = elim (Option-cases (key o)) [
    | inl e ↦ rw e tt
    | inr (k, e) ↦ rw e (ground (arith, t.counted k o.id, eq_refl k))
  ]

  -- A stored offer is dropped from under its key.
  pub Tracks-drop :
      Tracks key table ix
      → table o.id ≡ some o
      → (ix' : IdIndex) × (drop_opt (key o) o.id ix ≡ done ix')
        × Tracks key (updated o.id none table) ix'
  Tracks-drop t h =
      let (ix', e, r) = drop_opt-Removes (key o) o.id ix t.allocated (listed t h) in
      (
        ix',
        e,
        record {
          allocated = r.allocated;
          counted = λ k x. ground (arith, r.counts k x, t.counted k x, eq_iff o.id x);
          no_empty = λ k. r.no_empty k (t.no_empty k);
        },
      )

-- Only what the table holds matters.
pub Tracks-ext :
    (key : Key) {table table' : String → Option MarginOffer} {ix : IdIndex}
    → ((x : String) → table x ≡ table' x)
    → Tracks key table ix
    → Tracks key table' ix
Tracks-ext key e t = record {
  allocated = t.allocated;
  counted = λ k x. rw (← e x) (t.counted k x);
  no_empty = t.no_empty;
}
