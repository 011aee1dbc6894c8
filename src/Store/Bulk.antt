-- ===== src/Store/Bulk.antt =====
-- store/memory_store_bulk.go: the batch operations and the counts.
pub mod Refine
pub mod Delete
use margin_offer_system.Base.{
  ℕ, ◌+◌, String, Bool, true, false, Option, none, some, List, [], ◌∷◌, length, if◌then◌else◌, ◌==◌,
  ◌||◌,
}
use margin_offer_system.Base.GoMap.{Assoc, get, delete, entries}
use margin_offer_system.Base.Run.{Run, done, panic, ◌>>=◌}
use margin_offer_system.Types.Time.{Time}
use margin_offer_system.Types.Float.{Float64, zero_float}
use margin_offer_system.Types.Error.{
  Error, missing_id, offer_not_found, offer_already_exists, invalid_event_data,
}
use margin_offer_system.Types.Offer.{MarginOffer, validate}
use margin_offer_system.Store.Memory.{MemoryStore, Env, Reply, remove_from_indexes, store_offer}
use margin_offer_system.Store.Memory.Index.{ids_at}
use margin_offer_system.Store.Upsert.{BatchReply, after_batch_validation, insert_all, validate_all}

-- The inner loop: whether a later offer of the batch has the ID.
unfoldable pub has_duplicate : String → List (Option MarginOffer) → Bool
has_duplicate id [] = false
has_duplicate id (none ∷ offers) = has_duplicate id offers
has_duplicate id (some offer ∷ offers) = id == offer.id || has_duplicate id offers

check_one : Option Error → Bool → Option Error → Option Error
check_one (some e) duplicate rest = some e
check_one none true rest = some offer_already_exists
check_one none false rest = rest

-- The validation loop of `BulkCreate`: each offer is valid, and none shares its ID with a later one.
unfoldable pub validate_new : List (Option MarginOffer) → Option Error
unfolding check_one has_duplicate
validate_new [] = none
validate_new (none ∷ offers) = some invalid_event_data
validate_new (some offer ∷ offers) =
    check_one (validate offer) (has_duplicate offer.id offers) (validate_new offers)

none_of : Option MarginOffer → Run (Option Error) → Run (Option Error)
none_of (some _) rest = done (some offer_already_exists)
none_of none rest = rest

-- The loop over the batch that refuses an ID that is stored.
unfoldable pub check_absent : List (Option MarginOffer) → MemoryStore → Run (Option Error)
unfolding none_of
check_absent [] ms = done none
check_absent (none ∷ offers) ms = panic
check_absent (some offer ∷ offers) ms = none_of (get offer.id ms.offers) (check_absent offers ms)

unfoldable pub stamp_new : Time → MarginOffer → MarginOffer
stamp_new now offer = record offer { created_timestamp = now; updated_timestamp = now }

-- `BulkCreate`, which sends no notification.
unfoldable pub bulk_create : Env → List (Option MarginOffer) → MemoryStore → Run BatchReply
unfolding after_batch_validation
bulk_create env [] ms = done (record { store = ms; offers = []; error = none })
bulk_create env (first ∷ rest) ms =
    let offers = first ∷ rest in
    after_batch_validation (validate_new offers) offers ms (do
      conflict ← check_absent offers ms
      after_batch_validation conflict offers ms (do
        (stamped, stored) ← insert_all (stamp_new (env.now 0)) offers ms
        done (record {
          store = record stored { last_update = env.now 0 };
          offers = stamped;
          error = none;
        })))

-- The offers that stand under the IDs of a batch, or the error.
pub data Collected : Type 0 where
  collected : List MarginOffer → Collected
  missing : Error → Collected

with_old : MarginOffer → Collected → Collected
with_old old (missing e) = missing e
with_old old (collected olds) = collected (old ∷ olds)

collect_one : Option MarginOffer → Run Collected → Run Collected
collect_one none rest = done (missing offer_not_found)
collect_one (some old) rest = do olds ← rest; done (with_old old olds)

-- The loop of `BulkUpdate` that collects the stored offers.
unfoldable pub collect_old : List (Option MarginOffer) → MemoryStore → Run Collected
unfolding collect_one with_old
collect_old [] ms = done (collected [])
collect_old (none ∷ offers) ms = panic
collect_old (some offer ∷ offers) ms = collect_one (get offer.id ms.offers) (collect_old offers ms)

-- The loop of `BulkUpdate` that writes: the creation time of the stored offer is kept.
unfoldable pub update_all :
    Time
    → List (Option MarginOffer)
    → List MarginOffer
    → MemoryStore
    → Run (List (Option MarginOffer) × MemoryStore)
update_all now [] olds ms = done ([], ms)
update_all now (none ∷ offers) olds ms = panic
update_all now (some offer ∷ offers) [] ms = panic
update_all now (some offer ∷ offers) (old ∷ olds) ms =
    let stamped = record offer {
      created_timestamp = old.created_timestamp;
      updated_timestamp = now;
    } in
    do
      removed ← remove_from_indexes old ms
      stored ← store_offer stamped removed
      (others, final) ← update_all now offers olds stored
      done (some stamped ∷ others, final)

update_collected : Env → List (Option MarginOffer) → MemoryStore → Collected → Run BatchReply
update_collected env offers ms (missing e) =
    done (record { store = ms; offers = offers; error = some e })
update_collected env offers ms (collected olds) = do
  (stamped, stored) ← update_all (env.now 0) offers olds ms
  done
      (record { store = record stored { last_update = env.now 0 }; offers = stamped; error = none })

-- `BulkUpdate`
unfoldable pub bulk_update : Env → List (Option MarginOffer) → MemoryStore → Run BatchReply
unfolding after_batch_validation update_collected
bulk_update env [] ms = done (record { store = ms; offers = []; error = none })
bulk_update env (first ∷ rest) ms =
    let offers = first ∷ rest in
    after_batch_validation (validate_all offers) offers ms
      (collect_old offers ms >>= update_collected env offers ms)

-- The loop of `BulkDelete` that collects the stored offers: the first bad ID gives the error.
collect_id : Bool → Option MarginOffer → Collected → Collected
unfolding with_old
collect_id true stored rest = missing missing_id
collect_id false none rest = missing offer_not_found
collect_id false (some old) rest = with_old old rest

unfoldable pub collect_ids : List String → MemoryStore → Collected
unfolding collect_id
collect_ids [] ms = collected []
collect_ids (id ∷ ids) ms = collect_id (id == "") (get id ms.offers) (collect_ids ids ms)

-- The loop of `BulkDelete` that deletes.
unfoldable pub delete_ids : List String → List MarginOffer → MemoryStore → Run MemoryStore
delete_ids [] olds ms = done ms
delete_ids (id ∷ ids) [] ms = panic
delete_ids (id ∷ ids) (old ∷ olds) ms = do
  removed ← remove_from_indexes old ms
  delete_ids ids olds (record removed { offers = delete id removed.offers })

delete_collected : Env → List String → MemoryStore → Collected → Run Reply
delete_collected env ids ms (missing e) = done (record { store = ms; offer = none; error = some e })
delete_collected env ids ms (collected olds) = do
  removed ← delete_ids ids olds ms
  done (record { store = record removed { last_update = env.now 0 }; offer = none; error = none })

-- `BulkDelete`
unfoldable pub bulk_delete : Env → List String → MemoryStore → Run Reply
unfolding delete_collected
bulk_delete env [] ms = done (record { store = ms; offer = none; error = none })
bulk_delete env (id ∷ ids) ms = delete_collected env (id ∷ ids) ms (collect_ids (id ∷ ids) ms)

-- `Count`
unfoldable pub count_offers : MemoryStore → ℕ
count_offers ms = length (entries ms.offers)

-- `CountByOfferType`
unfoldable pub count_by_offer_type : String → MemoryStore → ℕ
unfolding ids_at
count_by_offer_type offer_type ms = length (ids_at offer_type ms.offer_type_index)

-- `GetTotalLiquidity`: `add` is the addition of float64.
total_from : (Float64 → Float64 → Float64) → String → Float64 → Assoc MarginOffer → Float64
total_from add borrow_token total [] = total
total_from add borrow_token total ((_, offer) ∷ m) =
    total_from add borrow_token
      (if offer.borrow_token == borrow_token
        then add total offer.available_borrow_amount
        else total)
      m

unfoldable pub get_total_liquidity : (Float64 → Float64 → Float64) → String → MemoryStore → Float64
unfolding total_from
get_total_liquidity add borrow_token ms = total_from add borrow_token zero_float (entries ms.offers)
