-- ===== src/Store/Start/Calls.antt =====
-- Histories of calls on the store as `NewMemoryStore` makes it.
use margin_offer_system.Base.{
  ◌≡◌, refl, Bool, true, false, ◌||◌, Option, none, some, List, [], ◌∷◌, Option-cases, Bool-cases,
  inl, inr, arith, ◌==◌, String, subst,
}
use margin_offer_system.Base.GoMap.{made, nil_map, get, lookup}
use margin_offer_system.Base.Run.{Run, done, panic, ◌>>=◌}
use margin_offer_system.Types.Error.{Error}
use margin_offer_system.Types.Offer.{MarginOffer, validate}
use margin_offer_system.Store.Memory.{
  MemoryStore, Env, new_memory_store, create, update, delete_offer,
}
use margin_offer_system.Store.Memory.Invariant.{table}
use margin_offer_system.Store.Memory.Spec.{stamp_created}
use margin_offer_system.Store.Upsert.{
  create_or_update, bulk_create_or_update, validate_all, upsert_all, create_or_update_internal,
  after_batch_validation, insert_all,
}
use margin_offer_system.Store.Upsert.Refine.{stamp_upserted}
use margin_offer_system.Store.Bulk.{bulk_create, bulk_delete, validate_new, collect_ids, stamp_new}
use margin_offer_system.Store.Bulk.Refine.{conflict, check_absent_lem, validate_new-IsBatch}
use margin_offer_system.Store.Histories.{
  Call, creation, modification, upsertion, deletion, bulk_creation, bulk_upsertion, bulk_deletion,
  perform, perform_all,
}
use margin_offer_system.Store.Start.{store_offer-panic}

-- A store without offers, whose token index is nil.
record IsBare (ms : MemoryStore) : Type 0 where
  offers : ms.offers ≡ made []
  tokens : ms.token_index ≡ nil_map

abbrev accepts : Option Error → Bool
accepts none = true
accepts (some _) = false

-- Whether a call comes to write an offer, if there are none: it brings offers and they are valid.
abbrev pub writes : Call → Bool
writes (creation (some o)) = accepts (validate o)
writes (upsertion (some o)) = accepts (validate o)
writes (bulk_creation (o ∷ os)) = accepts (validate_new (o ∷ os))
writes (bulk_upsertion (o ∷ os)) = accepts (validate_all (o ∷ os))
writes _ = false

unfoldable pub some_writes : List (Env × Call) → Bool
some_writes [] = false
some_writes ((_, call) ∷ calls) = writes call || some_writes calls

-- What becomes of a call, by whether it writes.
Comes : Bool → Run MemoryStore → Type 0
Comes true run = run ≡ panic
Comes false run = (ms : MemoryStore) × (run ≡ done ms) × IsBare ms

nothing : (ms : MemoryStore) → IsBare ms → (id : String) → table ms id ≡ none
unfolding get lookup
nothing ms b id = rw b.offers refl

module _ (env : Env) (ms : MemoryStore) (b : IsBare ms) where
  creation-Comes :
      (o : Option MarginOffer) → Comes (writes (creation o)) (perform env (creation o) ms)
  unfolding create Comes
  creation-Comes none = (ms, refl, b)
  creation-Comes (some o) = elim (Option-cases (validate o)) [
    | inr (x, e) ↦ rw e (ms, refl, b)
    | inl e ↦
        rw (e, nothing ms b o.id, store_offer-panic (stamp_created (env.now 0) o) ms b.tokens) refl
  ]

  modification-Comes : (o : Option MarginOffer) → Comes false (perform env (modification o) ms)
  unfolding update Comes
  modification-Comes none = (ms, refl, b)
  modification-Comes (some o) = elim (Option-cases (validate o)) [
    | inr (x, e) ↦ rw e (ms, refl, b)
    | inl e ↦ rw (e, nothing ms b o.id) (ms, refl, b)
  ]

  upsertion-Comes :
      (o : Option MarginOffer) → Comes (writes (upsertion o)) (perform env (upsertion o) ms)
  unfolding create_or_update Comes
  upsertion-Comes none = (ms, refl, b)
  upsertion-Comes (some o) = elim (Option-cases (validate o)) [
    | inr (x, e) ↦ rw e (ms, refl, b)
    | inl e ↦
        rw (e, nothing ms b o.id, store_offer-panic (stamp_upserted (env.now 0) none o) ms b.tokens)
          refl
  ]

  deletion-Comes : (id : String) → Comes false (perform env (deletion id) ms)
  unfolding delete_offer Comes
  deletion-Comes id = elim (Bool-cases (id == "")) [
    | inl e ↦ rw e (ms, refl, b)
    | inr e ↦ rw (e, nothing ms b id) (ms, refl, b)
  ]

  nothing_conflicts : (os : List (Option MarginOffer)) → conflict os (table ms) ≡ none
  nothing_conflicts [] = refl
  nothing_conflicts (none ∷ os) = nothing_conflicts os
  nothing_conflicts (some o ∷ os) = ground (arith, nothing ms b o.id, nothing_conflicts os)

  bulk_creation-Comes :
      (os : List (Option MarginOffer))
      → Comes (writes (bulk_creation os)) (perform env (bulk_creation os) ms)
  unfolding bulk_create after_batch_validation insert_all Comes
  bulk_creation-Comes [] = (ms, refl, b)
  bulk_creation-Comes (none ∷ os) = unfold validate_new in (ms, refl, b)
  bulk_creation-Comes (some o ∷ os) = elim (Option-cases (validate_new (some o ∷ os))) [
    | inr (x, e) ↦ rw e (ms, refl, b)
    | inl e ↦
        rw
          (
            e,
            check_absent_lem (some o ∷ os) ms (validate_new-IsBatch (some o ∷ os) e),
            nothing_conflicts (some o ∷ os),
            store_offer-panic (stamp_new (env.now 0) o) ms b.tokens,
          )
          refl
  ]

  bulk_upsertion-Comes :
      (os : List (Option MarginOffer))
      → Comes (writes (bulk_upsertion os)) (perform env (bulk_upsertion os) ms)
  unfolding bulk_create_or_update after_batch_validation upsert_all create_or_update_internal Comes
  bulk_upsertion-Comes [] = (ms, refl, b)
  bulk_upsertion-Comes (none ∷ os) = unfold validate_all in (ms, refl, b)
  bulk_upsertion-Comes (some o ∷ os) = elim (Option-cases (validate_all (some o ∷ os))) [
    | inr (x, e) ↦ rw e (ms, refl, b)
    | inl e ↦
        rw (e, nothing ms b o.id, store_offer-panic (stamp_upserted (env.now 0) none o) ms b.tokens)
          refl
  ]

  bulk_deletion-Comes : (ids : List String) → Comes false (perform env (bulk_deletion ids) ms)
  unfolding bulk_delete collect_ids Comes
  bulk_deletion-Comes [] = (ms, refl, b)
  bulk_deletion-Comes (id ∷ ids) = elim (Bool-cases (id == "")) [
    | inl e ↦ rw e (ms, refl, b)
    | inr e ↦ rw (e, nothing ms b id) (ms, refl, b)
  ]

  perform-Comes : (call : Call) → Comes (writes call) (perform env call ms)
  perform-Comes (creation o) = creation-Comes o
  perform-Comes (modification o) = modification-Comes o
  perform-Comes (upsertion o) = upsertion-Comes o
  perform-Comes (deletion id) = deletion-Comes id
  perform-Comes (bulk_creation os) = bulk_creation-Comes os
  perform-Comes (bulk_upsertion os) = bulk_upsertion-Comes os
  perform-Comes (bulk_deletion ids) = bulk_deletion-Comes ids

after-Comes :
    (written : Bool) (later : Bool) (run : Run MemoryStore) (rest : MemoryStore → Run MemoryStore)
    → Comes written run
    → ((ms : MemoryStore) → IsBare ms → Comes later (rest ms))
    → Comes (written || later) (run >>= rest)
unfolding Comes
after-Comes true later run rest h k = rw h refl
after-Comes false later run rest (ms, e, b) k = rw e (k ms b)

perform_all-Comes :
    (calls : List (Env × Call)) (ms : MemoryStore)
    → IsBare ms
    → Comes (some_writes calls) (perform_all calls ms)
unfolding perform_all some_writes
perform_all-Comes [] ms b = unfold Comes in (ms, refl, b)
perform_all-Comes ((env, call) ∷ calls) ms b =
    after-Comes (writes call) (some_writes calls) _ _ (perform-Comes env ms b call)
      (perform_all-Comes calls)

-- A history of Create, Update, CreateOrUpdate, Delete, BulkCreate, BulkCreateOrUpdate and
-- BulkDelete on the store that NewMemoryStore makes panics if one of its calls is a Create, a
-- CreateOrUpdate, a BulkCreate or a BulkCreateOrUpdate that brings offers and whose validation
-- gives no error; if none is, it ends, and no offer is stored.
pub perform_all-bare :
    (calls : List (Env × Call))
    → (some_writes calls ≡ true → perform_all calls new_memory_store ≡ panic)
      × (some_writes calls ≡ false
          → (ms : MemoryStore) × (perform_all calls new_memory_store ≡ done ms)
            × ((id : String) → table ms id ≡ none))
unfolding new_memory_store Comes
perform_all-bare calls =
    let comes =
      perform_all-Comes calls new_memory_store (record { offers = refl; tokens = refl }) in
    (
      λ e. subst (λ w. Comes w (perform_all calls new_memory_store)) e comes,
      λ e.
          let (ms, ran, b) = subst (λ w. Comes w (perform_all calls new_memory_store)) e comes in
          (ms, ran, λ id. nothing ms b id),
    )
