-- ===== src/Grpc/Stream/Closed.antt =====
-- store/grpc_server.go: the handler of a subscription whose channel was closed.
use margin_offer_system.Base.{
  ℕ, zero, suc, ◌+◌, ◌≡◌, refl, ◌∙◌, ap, true, Option, none, some, List, [], ◌∷◌, ◌++◌, arith,
  length, map,
}
use mathlib.Core.List.{append_assoc, append-nil}
use margin_offer_system.Base.Run.{done}
use margin_offer_system.Store.Subscriptions.{Message, Subscription}
use margin_offer_system.Grpc.Stream.{Happening, receive, Streaming, take_next, happen, happen_all}

-- Rounds of the handler with nothing in between.
abbrev pub rounds : ℕ → List Happening
rounds zero = []
rounds (suc n) = receive ∷ rounds n

abbrev pub nils : ℕ → List (Option Message)
nils zero = []
nils (suc n) = none ∷ nils n

spins :
    (k : ℕ) (p : Streaming)
    → p.subscription.closed ≡ true
    → p.subscription.channel ≡ []
    → (q : Streaming) × (happen_all (rounds k) p ≡ done q) × (q.taken ≡ p.taken ++ nils k)
unfolding happen_all happen take_next
spins zero p closed empty = (p, refl, simp append-nil)
spins (suc k) p closed empty =
    let next : Streaming = record p { taken = p.taken ++ none ∷ [] } in
    let took : take_next p.subscription.channel p ≡ next =
      ap (λ ch. take_next ch p) empty ∙ ground (arith, closed) in
    let (q, ran, t) = spins k next closed empty in
    (q, ap (happen_all (rounds k)) took ∙ ran, t ∙ simp append_assoc)

drains :
    (waiting : List Message) (k : ℕ) (p : Streaming)
    → p.subscription.closed ≡ true
    → p.subscription.channel ≡ waiting
    → (q : Streaming) × (happen_all (rounds (length waiting + k)) p ≡ done q)
      × (q.taken ≡ p.taken ++ (map some waiting ++ nils k))
unfolding happen_all happen take_next
drains [] k p closed at = let same : 0 + k ≡ k = omega arith in rw same (spins k p closed at)
drains (m ∷ waiting) k p closed at =
    let more : suc (length waiting) + k ≡ suc (length waiting + k) = omega arith in
    let next : Streaming = record {
      subscription = record p.subscription { channel = waiting };
      taken = p.taken ++ some m ∷ [];
    } in
    let (q, ran, t) = drains waiting k next closed refl in
    (
      q,
      rw more (ap (λ ch. happen_all (rounds (length waiting + k)) (take_next ch p)) at ∙ ran),
      t ∙ simp append_assoc,
    )

-- The handler of a subscription whose channel was closed takes what waits in the channel, in
-- order, and then nil in each of any number of further rounds: the closed channel does not end
-- its loop.
pub closed_stream :
    (s : Subscription) (k : ℕ)
    → s.closed ≡ true
    → (q : Streaming) × (happen_all
          (rounds (length s.channel + k))
          (record { subscription = s; taken = [] })
        ≡ done q)
      × (q.taken ≡ map some s.channel ++ nils k)
closed_stream s k closed = drains s.channel k (record { subscription = s; taken = [] }) closed refl
