-- ===== src/Tests/Writes.antt =====
-- Runs of the operations that write.
use margin_offer_system.Base.{
  ℕ, String, ◌≡◌, refl, Option, none, some, List, [], ◌∷◌, arith, subst, eq_iff, if◌then◌else◌,
}
use margin_offer_system.Base.Int.{pos}
use margin_offer_system.Base.GoMap.{lookup, get}
use margin_offer_system.Types.Float.{one_float}
use margin_offer_system.Types.Offer.{MarginOffer, validate}
use margin_offer_system.Types.Filter.{OverwriteFilter, no_criteria}
use margin_offer_system.Store.Memory.{create, update, delete_offer}
use margin_offer_system.Store.Memory.Invariant.{table}
use margin_offer_system.Store.Memory.Spec.{spec_create, spec_update, spec_delete, spec_after}
use margin_offer_system.Store.Memory.Refine.{
  Refines, create-Refines, update-Refines, delete_offer-Refines,
}
use margin_offer_system.Store.Upsert.{bulk_create_or_update, validate_all}
use margin_offer_system.Store.Upsert.Batch.{find_id, placed}
use margin_offer_system.Store.Upsert.Refine.{
  RefinesBatch, spec_upsert_all, bulk_create_or_update-Refines,
}
use margin_offer_system.Store.Bulk.{stamp_new, bulk_create, bulk_update, bulk_delete, validate_new}
use margin_offer_system.Store.Bulk.Refine.{
  conflict, absence, rewritten, bulk_create-Refines, bulk_update-Refines,
}
use margin_offer_system.Store.Bulk.Delete.{bad_id, is_listed, bulk_delete-Refines}
use margin_offer_system.Store.Overwrite.{bulk_overwrite_by_filter}
use margin_offer_system.Store.Criteria.{is_meant}
use margin_offer_system.Store.Overwrite.Meant.{
  left_by, spec_replace, bulk_overwrite_by_filter-Replaces,
}
use margin_offer_system.Tests.Data.{
  first_offer, second_offer, third_offer, env, one_stored, two_stored, one_stored-IsConsistent,
  two_stored-IsConsistent,
}

create-Refines_example :
    Refines
      (create env (some second_offer) one_stored)
      (spec_create (pos 0) (some second_offer) (table one_stored))
create-Refines_example = create-Refines env (some second_offer) one_stored one_stored-IsConsistent

update-Refines_example :
    Refines
      (update env (some second_offer) two_stored)
      (spec_update (pos 0) (some second_offer) (table two_stored))
update-Refines_example = update-Refines env (some second_offer) two_stored two_stored-IsConsistent

delete_offer-Refines_example :
    Refines (delete_offer env "a" two_stored) (spec_delete "a" (table two_stored))
delete_offer-Refines_example = delete_offer-Refines env "a" two_stored two_stored-IsConsistent

-- An offer that is there and one that is not.
abbrev mixed : List (Option MarginOffer)
mixed = some first_offer ∷ some third_offer ∷ []

bulk_create_or_update-Refines_example : RefinesBatch (bulk_create_or_update env mixed two_stored) (
    spec_after
      (validate_all mixed)
      (table two_stored)
      (none, spec_upsert_all env 0 mixed (table two_stored)))
bulk_create_or_update-Refines_example =
    bulk_create_or_update-Refines env mixed two_stored two_stored-IsConsistent

abbrev fresh : List (Option MarginOffer)
fresh = some second_offer ∷ some third_offer ∷ []

bulk_create-Refines_example : RefinesBatch (bulk_create env fresh one_stored) (
    spec_after (validate_new fresh) (table one_stored) (
      spec_after
        (conflict fresh (table one_stored))
        (table one_stored)
        (none, λ x. placed (stamp_new (pos 0)) (find_id x fresh) (table one_stored x))))
bulk_create-Refines_example = bulk_create-Refines env fresh one_stored one_stored-IsConsistent

abbrev both : List (Option MarginOffer)
both = some second_offer ∷ some first_offer ∷ []

bulk_update-Refines_example : RefinesBatch (bulk_update env both two_stored) (
    spec_after (validate_all both) (table two_stored) (
      spec_after
        (absence both (table two_stored))
        (table two_stored)
        (none, λ x. rewritten (pos 0) (find_id x both) (table two_stored x))))
bulk_update-Refines_example =
    bulk_update-Refines env both two_stored two_stored-IsConsistent
      (unfold find_id in (refl, (refl, tt)))

bulk_delete-Refines_example : Refines (bulk_delete env ("b" ∷ "b" ∷ []) two_stored) (
    spec_after
      (bad_id ("b" ∷ "b" ∷ []) (table two_stored))
      (table two_stored)
      (none, λ x. if is_listed x ("b" ∷ "b" ∷ []) then none else table two_stored x))
bulk_delete-Refines_example =
    bulk_delete-Refines env ("b" ∷ "b" ∷ []) two_stored two_stored-IsConsistent

abbrev print : ℕ → String
print n = "2"

-- The offers of one type.
abbrev of_type_v1 : OverwriteFilter
of_type_v1 = record no_criteria { offer_type = some "V1" }

abbrev replacement : List (Option MarginOffer)
replacement = some third_offer ∷ []

replacement-free :
    (x : String) (o : MarginOffer)
    → find_id x replacement ≡ some o
    → left_by (some of_type_v1) (table two_stored x) ≡ none
unfolding find_id
replacement-free x o h =
    let is_c : "c" ≡ x = ground (arith, eq_iff "c" x) in
    subst (λ (y : String). left_by (some of_type_v1) (table two_stored y) ≡ none) is_c
      (unfold get lookup is_meant in refl)

bulk_overwrite_by_filter-Replaces_example :
    RefinesBatch (bulk_overwrite_by_filter print env replacement (some of_type_v1) two_stored) (
      spec_after
        (validate_all replacement)
        (table two_stored)
        (none, spec_replace (pos 0) replacement (some of_type_v1) (table two_stored)))
bulk_overwrite_by_filter-Replaces_example =
    bulk_overwrite_by_filter-Replaces print env replacement (some of_type_v1) two_stored
      two_stored-IsConsistent (unfold find_id in (refl, tt)) refl replacement-free

first_offer-valid : validate first_offer ≡ none
unfolding validate one_float
first_offer-valid = refl
