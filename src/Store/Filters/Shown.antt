-- ===== src/Store/Filters/Shown.antt =====
-- `List` of store/memory_store.go and store/memory_store_filters.go against what the criteria of its
-- request mean.
use margin_offer_system.Base.{ℕ, ◌+◌, List, [], ◌∷◌, if◌then◌else◌}
use margin_offer_system.Base.GoMap.{Assoc}
use margin_offer_system.Types.Time.{Time}
use margin_offer_system.Types.Offer.{MarginOffer, clone}
use margin_offer_system.Types.Filter.{ListRequest}
use margin_offer_system.Store.Criteria.{is_listed}

-- The copies of the offers that the request means, each at its own two readings of the clock.
abbrev pub listed : (ℕ → Time) → ℕ → ListRequest → Assoc MarginOffer → List MarginOffer
listed now i req [] = []
listed now i req ((_, o) ∷ m) =
    let rest = listed now (i + 2) req m in
    if is_listed (now i) (now (i + 1)) req o then clone o ∷ rest else rest
