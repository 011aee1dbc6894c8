-- ===== src/Store/Announced/Followed.antt =====
-- The change events of a history as changes of a table.
use margin_offer_system.Base.{
  ◌≤◌, ◌≡◌, refl, ◌∙◌, ap, sym, none, some, List, [], ◌∷◌, ◌++◌, length, length-append,
  Option-cases, inl, inr, arith,
}
use margin_offer_system.Types.Offer.{MarginOffer, validate}
use margin_offer_system.Store.Notification.{ChangeEvent, deleted}
use margin_offer_system.Store.Memory.{Env}
use margin_offer_system.Store.Memory.Index.Tracks.{updated}
use margin_offer_system.Store.Memory.Invariant.{Table}
use margin_offer_system.Store.Histories.{Call, creation, modification, contract, contract_all}
use margin_offer_system.Store.Announced.{announced_all, announced}

-- A change that a reader of the events makes to its copy of the table.
abbrev pub follow : ChangeEvent → Table → Table
follow event t = elim event.change_type [
  | deleted ↦ updated event.offer.id none t
  | _ ↦ updated event.offer.id (some event.offer) t
]

unfoldable pub follow_all : List ChangeEvent → Table → Table
follow_all [] t = t
follow_all (event ∷ events) t = follow_all events (follow event t)

follow_all-append :
    (xs ys : List ChangeEvent) (t : Table)
    → follow_all (xs ++ ys) t ≡ follow_all ys (follow_all xs t)
unfolding follow_all
follow_all-append [] ys t = refl
follow_all-append (x ∷ xs) ys t = follow_all-append xs ys (follow x t)

-- The calls that announce what they do.
abbrev pub IsAnnounced : Call → Type 0
IsAnnounced (creation o) = Unit
IsAnnounced (modification o) = Unit
IsAnnounced _ = ⊥

abbrev pub AreAnnounced : List (Env × Call) → Type 0
AreAnnounced [] = Unit
AreAnnounced ((_, call) ∷ calls) = IsAnnounced call × AreAnnounced calls

module _ (env : Env) (o : MarginOffer) (t : Table) where
  creation-followed :
      (contract env (creation (some o)) t).1 ≡ follow_all (announced env (creation (some o)) t) t
  unfolding follow_all
  creation-followed = elim (Option-cases (validate o)) [
    | inr (x, e) ↦ ground arith
    | inl e ↦ elim (Option-cases (t o.id)) [ inl a ↦ ground arith | inr (old, p) ↦ ground arith ]
  ]

  modification-followed :
      (contract env (modification (some o)) t).1
      ≡ follow_all (announced env (modification (some o)) t) t
  unfolding follow_all
  modification-followed = elim (Option-cases (validate o)) [
    | inr (x, e) ↦ ground arith
    | inl e ↦ elim (Option-cases (t o.id)) [ inl a ↦ ground arith | inr (old, p) ↦ ground arith ]
  ]

contract-followed :
    (env : Env) (call : Call) (t : Table)
    → IsAnnounced call
    → (contract env call t).1 ≡ follow_all (announced env call t) t
contract-followed env (creation none) t h = unfold follow_all in refl
contract-followed env (modification none) t h = unfold follow_all in refl
contract-followed env (creation (some o)) t h = creation-followed env o t
contract-followed env (modification (some o)) t h = modification-followed env o t
contract-followed env _ t h = elim h [ ]

-- The contracts make of the table what the announced events make of it.
pub contract_all-followed :
    (calls : List (Env × Call)) (t : Table)
    → AreAnnounced calls
    → contract_all calls t ≡ follow_all (announced_all calls t) t
unfolding contract_all announced_all follow_all
contract_all-followed [] t h = refl
contract_all-followed ((env, call) ∷ calls) t (h, hs) =
    contract_all-followed calls ((contract env call t).1) hs
    ∙ ap (follow_all (announced_all calls ((contract env call t).1)))
        (contract-followed env call t h)
    ∙ sym (follow_all-append (announced env call t) _ t)

length-announced : (env : Env) (call : Call) (t : Table) → length (announced env call t) ≤ 1
length-announced env (creation (some o)) t = ground arith
length-announced env (modification (some o)) t = ground arith
length-announced env _ t = omega arith

-- Each call announces at most one change.
pub length-announced_all :
    (calls : List (Env × Call)) (t : Table) → length (announced_all calls t) ≤ length calls
unfolding announced_all
length-announced_all [] t = omega arith
length-announced_all ((env, call) ∷ calls) t = omega (
  arith,
  length-append (announced env call t) (announced_all calls ((contract env call t).1)),
  length-announced env call t,
  length-announced_all calls ((contract env call t).1),
)
