-- ===== src/Backfill/Jobs/Refused.antt =====
-- backfillers/workers.go: the loop over batches that the memory store refuses.
use margin_offer_system.Base.{
  ℕ, zero, suc, ◌+◌, ◌≤◌, ◌≡◌, ◌≢◌, refl, ap, ◌∙◌, String, false, Option, none, some, List, [], ◌∷◌,
  map, length, drop, All, All-drop, arith, length-drop, length-take-drop,
}
use margin_offer_system.Base.Decimal.{decimal}
use margin_offer_system.Base.Run.{Run, done, ◌>>=◌}
use margin_offer_system.Types.Error.{error_text, text_of}
use margin_offer_system.Types.Offer.{MarginOffer, validate}
use margin_offer_system.Store.Memory.{MemoryStore, Env}
use margin_offer_system.Store.Upsert.{validate_all, after_batch_validation}
use margin_offer_system.Store.Overwrite.{bulk_overwrite, bulk_overwrite_by_filter}
use margin_offer_system.Backfill.Jobs.{
  Progress, Overwrite, batches, write_unless_dry, process_batches, batch_failed,
}

-- The memory store's `BulkOverwrite` behind the interface.
abbrev pub memory_overwrite : Env → Overwrite MemoryStore
memory_overwrite env offers ms = do
  r ← bulk_overwrite decimal env offers ms
  done (r.store, text_of r.error)

-- A batch that the store refuses: its first offer is not valid.
abbrev pub IsRefused : List MarginOffer → Type 0
IsRefused [] = ⊥
IsRefused (o ∷ _) = validate o ≢ none

some_of : {A : Type 0} (o : Option A) → o ≢ none → (a : A) × (o ≡ some a)
some_of none h = absurd (h refl)
some_of (some a) h = (a, refl)

overwrite-refused :
    (env : Env) (batch : List MarginOffer) (ms : MemoryStore)
    → IsRefused batch
    → (text : String) × (memory_overwrite env (map some batch) ms ≡ done (ms, some text))
unfolding bulk_overwrite bulk_overwrite_by_filter after_batch_validation validate_all
overwrite-refused env [] ms h = absurd h
overwrite-refused env (o ∷ rest) ms h =
    let (e, bad) = some_of (validate o) h in
    (error_text e, rw (bulk_overwrite, bulk_overwrite_by_filter, validate_all, bad) refl)

abbrev pub total : List (List MarginOffer) → ℕ
total [] = 0
total (b ∷ bs) = length b + total bs

-- The end of a loop in which `n` records failed.
abbrev pub ended : MemoryStore → Progress → ℕ → Run (MemoryStore × Progress × Option String)
ended ms p n = done (ms, record p { failed_records = n }, none)

pub process_batches-refused :
    (env : Env) (cancelled : ℕ → Option String) (i : ℕ) (bs : List (List MarginOffer))
    (p : Progress) (ms : MemoryStore)
    → All IsRefused bs
    → process_batches (memory_overwrite env) cancelled false i bs p ms
      ≡ done (ms, batch_failed (total bs) p, none)
unfolding process_batches write_unless_dry
process_batches-refused env cancelled i [] p ms h = ap (ended ms p) (omega arith)
process_batches-refused env cancelled i (b ∷ bs) p ms (h, rest) =
    let (text, refused) = overwrite-refused env b ms h in
    rw refused (
      process_batches-refused env cancelled (suc i) bs (batch_failed (length b) p) ms rest
      ∙ ap (ended ms p) (omega arith))

pub batches-IsRefused :
    (fuel size : ℕ) (xs : List MarginOffer)
    → All (λ o. validate o ≢ none) xs
    → All IsRefused (batches fuel (suc size) xs)
unfolding batches
batches-IsRefused zero size xs h = tt
batches-IsRefused (suc fuel) size [] h = tt
batches-IsRefused (suc fuel) size (x ∷ xs) h =
    (h.0, batches-IsRefused fuel size (drop size xs) (All-drop _ size xs h.1))

pub total-batches :
    (fuel size : ℕ) (xs : List MarginOffer)
    → length xs ≤ fuel
    → total (batches fuel (suc size) xs) ≡ length xs
unfolding batches
total-batches zero size [] h = refl
total-batches zero size (x ∷ xs) h = absurd (omega arith)
total-batches (suc fuel) size [] h = refl
total-batches (suc fuel) size (x ∷ xs) h = omega (
  arith,
  total-batches fuel size (drop size xs) (omega (arith, length-drop size xs)),
  length-take-drop size xs,
)
