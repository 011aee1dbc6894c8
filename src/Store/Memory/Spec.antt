-- ===== src/Store/Memory/Spec.antt =====
-- The contract of the single-offer operations: a partial function from IDs to offers. It knows
-- nothing of maps, indexes, clocks or notifications; the caller gives the time.
use margin_offer_system.Base.{String, Option, none, some, if◌then◌else◌, ◌==◌}
use margin_offer_system.Types.Time.{Time}
use margin_offer_system.Types.Error.{
  Error, missing_id, offer_not_found, offer_already_exists, invalid_event_data,
}
use margin_offer_system.Types.Offer.{MarginOffer, validate}
use margin_offer_system.Store.Memory.Index.Tracks.{updated}
use margin_offer_system.Store.Memory.Invariant.{Table}

abbrev pub Outcome : Type 0
Outcome = Option Error × Table

abbrev pub refuse : Error → Table → Outcome
refuse e t = (some e, t)

abbrev pub spec_after : Option Error → Table → Outcome → Outcome
spec_after (some e) t rest = refuse e t
spec_after none t rest = rest

-- An operation on a valid offer, behind the checks on the argument.
abbrev pub spec_checked : (MarginOffer → Table → Outcome) → Option MarginOffer → Table → Outcome
spec_checked body none t = refuse invalid_event_data t
spec_checked body (some o) t = spec_after (validate o) t (body o t)

-- An offer as it is stored for the first time.
abbrev pub stamp_created : Time → MarginOffer → MarginOffer
stamp_created now o = record o { created_timestamp = now; updated_timestamp = now }

abbrev pub stamp_updated : Time → MarginOffer → MarginOffer
stamp_updated now o = record o { updated_timestamp = now }

-- The outcome where the ID must be new, and where it must be there.
abbrev pub if_absent : Option MarginOffer → Table → Table → Outcome
if_absent (some _) t t' = refuse offer_already_exists t
if_absent none t t' = (none, t')

abbrev pub if_present : Option MarginOffer → Table → Table → Outcome
if_present none t t' = refuse offer_not_found t
if_present (some _) t t' = (none, t')

abbrev pub spec_create : Time → Option MarginOffer → Table → Outcome
spec_create now =
    spec_checked λ o t. if_absent (t o.id) t (updated o.id (some (stamp_created now o)) t)

abbrev pub spec_update : Time → Option MarginOffer → Table → Outcome
spec_update now =
    spec_checked λ o t. if_present (t o.id) t (updated o.id (some (stamp_updated now o)) t)

abbrev pub spec_delete : String → Table → Outcome
spec_delete id t = if id == "" then refuse missing_id t else if_present (t id) t (updated id none t)
