-- ===== src/Store/Histories.antt =====
-- Histories of the store: operations that clients call one after another, each at its own readings
-- of the clock.
use mathlib.Core.Path.{fun_ext}
use margin_offer_system.Base.{
  String, ◌≡◌, refl, Option, none, List, [], ◌∷◌, ◌∙◌, ap, if◌then◌else◌,
}
use margin_offer_system.Base.Run.{Run, done, ◌>>=◌}
use margin_offer_system.Types.Offer.{MarginOffer}
use margin_offer_system.Store.Memory.{MemoryStore, Env, Reply, create, update, delete_offer}
use margin_offer_system.Store.Memory.Invariant.{Table, table, IsConsistent}
use margin_offer_system.Store.Memory.Spec.{
  Outcome, spec_create, spec_update, spec_delete, spec_checked, spec_after,
}
use margin_offer_system.Store.Memory.Refine.{
  Refines, create-Refines, update-Refines, delete_offer-Refines,
}
use margin_offer_system.Store.Upsert.{
  BatchReply, create_or_update, bulk_create_or_update, validate_all,
}
use margin_offer_system.Store.Upsert.Batch.{find_id, placed}
use margin_offer_system.Store.Upsert.Refine.{
  RefinesBatch, spec_upsert, spec_upsert_all, create_or_update-Refines,
  bulk_create_or_update-Refines,
}
use margin_offer_system.Store.Bulk.{bulk_create, bulk_delete, validate_new, stamp_new}
use margin_offer_system.Store.Bulk.Refine.{conflict, bulk_create-Refines}
use margin_offer_system.Store.Bulk.Delete.{bad_id, is_listed, bulk_delete-Refines}

-- The calls that need nothing of their arguments.
pub data Call : Type 0 where
  creation modification upsertion : Option MarginOffer → Call
  deletion : String → Call
  bulk_creation bulk_upsertion : List (Option MarginOffer) → Call
  bulk_deletion : List String → Call

abbrev pub kept_store : Run Reply → Run MemoryStore
kept_store run = do r ← run; done r.store

abbrev pub kept_batch_store : Run BatchReply → Run MemoryStore
kept_batch_store run = do r ← run; done r.store

-- A call, of which the store is kept. An error is the caller's, and ends no history.
abbrev pub perform : Env → Call → MemoryStore → Run MemoryStore
perform env (creation o) ms = kept_store (create env o ms)
perform env (modification o) ms = kept_store (update env o ms)
perform env (upsertion o) ms = kept_store (create_or_update env o ms)
perform env (deletion id) ms = kept_store (delete_offer env id ms)
perform env (bulk_creation os) ms = kept_batch_store (bulk_create env os ms)
perform env (bulk_upsertion os) ms = kept_batch_store (bulk_create_or_update env os ms)
perform env (bulk_deletion ids) ms = kept_store (bulk_delete env ids ms)

-- The contract of a call.
abbrev pub contract : Env → Call → Table → Outcome
contract env (creation o) t = spec_create (env.now 0) o t
contract env (modification o) t = spec_update (env.now 0) o t
contract env (upsertion o) t = spec_checked (λ x s. (none, spec_upsert (env.now 0) x s)) o t
contract env (deletion id) t = spec_delete id t
contract env (bulk_creation os) t =
    spec_after (validate_new os) t (
      spec_after (conflict os t) t (none, λ x. placed (stamp_new (env.now 0)) (find_id x os) (t x)))
contract env (bulk_upsertion os) t =
    spec_after (validate_all os) t (none, spec_upsert_all env 0 os t)
contract env (bulk_deletion ids) t =
    spec_after (bad_id ids t) t (none, λ x. if is_listed x ids then none else t x)

-- A history, and what the contracts make of the table.
unfoldable pub perform_all : List (Env × Call) → MemoryStore → Run MemoryStore
perform_all [] ms = done ms
perform_all ((env, call) ∷ calls) ms = do ms' ← perform env call ms; perform_all calls ms'

unfoldable pub contract_all : List (Env × Call) → Table → Table
contract_all [] t = t
contract_all ((env, call) ∷ calls) t = let (_, t') = contract env call t in contract_all calls t'

-- The store that a call leaves is consistent and holds the table of the contract.
abbrev pub Reaches : Run MemoryStore → Table → Type 0
Reaches run t = (ms : MemoryStore) × (run ≡ done ms) × IsConsistent ms × (table ms ≡ t)

reaches : (run : Run Reply) (spec : Outcome) → Refines run spec → Reaches (kept_store run) (spec.1)
reaches run spec (r, ran, c, e, t) = (r.store, rw ran refl, c, fun_ext t)

Reaches-batch :
    (run : Run BatchReply) (spec : Outcome)
    → RefinesBatch run spec
    → Reaches (kept_batch_store run) (spec.1)
Reaches-batch run spec (r, ran, c, e, t) = (r.store, rw ran refl, c, fun_ext t)

pub perform_lem :
    (env : Env) (call : Call) (ms : MemoryStore)
    → IsConsistent ms
    → Reaches (perform env call ms) ((contract env call (table ms)).1)
perform_lem env (creation o) ms c = reaches _ _ (create-Refines env o ms c)
perform_lem env (modification o) ms c = reaches _ _ (update-Refines env o ms c)
perform_lem env (upsertion o) ms c = reaches _ _ (create_or_update-Refines env o ms c)
perform_lem env (deletion id) ms c = reaches _ _ (delete_offer-Refines env id ms c)
perform_lem env (bulk_creation os) ms c = Reaches-batch _ _ (bulk_create-Refines env os ms c)
perform_lem env (bulk_upsertion os) ms c =
    Reaches-batch _ _ (bulk_create_or_update-Refines env os ms c)
perform_lem env (bulk_deletion ids) ms c = reaches _ _ (bulk_delete-Refines env ids ms c)

-- Any history of Create, Update, CreateOrUpdate, Delete, BulkCreate, BulkCreateOrUpdate and
-- BulkDelete, with any arguments, from a consistent store ends without a panic in a consistent
-- store, whose table is what the contracts of the calls make, one after another, of the table at
-- the start.
pub perform_all_lem :
    (calls : List (Env × Call)) (ms : MemoryStore)
    → IsConsistent ms
    → (ms' : MemoryStore) × (perform_all calls ms ≡ done ms')
      × IsConsistent ms'
      × (table ms' ≡ contract_all calls (table ms))
unfolding perform_all contract_all
perform_all_lem [] ms c = (ms, refl, c, refl)
perform_all_lem ((env, call) ∷ calls) ms c =
    let (next, ran, c', here) = perform_lem env call ms c in
    let (final, ran', c'', there) = perform_all_lem calls next c' in
    (final, rw ran ran', c'', there ∙ ap (contract_all calls) here)
