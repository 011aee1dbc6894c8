-- ===== src/Grpc/Stream/Asked.antt =====
-- store/grpc_server.go and store/notification_service.go: what a subscriber is sent against what the
-- criteria of its subscription mean.
use margin_offer_system.Base.{
  ℕ, ◌-◌, String, false, none, some, List, [], ◌∷◌, ◌++◌, ◌≡◌, refl, ◌∙◌, if◌then◌else◌, map,
}
use margin_offer_system.Base.Run.{done}
use margin_offer_system.Types.Time.{Time}
use margin_offer_system.Grpc.Messages.{Timestamps}
use margin_offer_system.Store.Subscriptions.{
  Message, change, heartbeat, Subscription, SubscribeRequest,
}
use margin_offer_system.Store.Subscriptions.Asked.{is_asked, matches_subscription_lem}
use margin_offer_system.Grpc.Stream.{
  Happening, event, beat, close, receive, Streaming, happen_all, response_of, initial_response,
  sent,
}
use margin_offer_system.Grpc.Stream.Steps.{StaysOpen, offered, after_offer, taken_in}
use margin_offer_system.Grpc.Stream.Ordered.{happen_all-sent}

-- The messages of a history that are for the subscriber: heartbeats, and the events that it asks
-- for, without those that come when 100 wait.
module _ (filters : SubscribeRequest) (client_id session_id : String) where
  abbrev pub asked_in : ℕ → List Happening → List Message
  asked_in waiting [] = []
  asked_in waiting (event now e ∷ hs) =
      if is_asked filters e
      then offered waiting (change e) (asked_in (after_offer waiting) hs)
      else asked_in waiting hs
  asked_in waiting (beat now ∷ hs) =
      offered waiting (heartbeat now client_id session_id) (asked_in (after_offer waiting) hs)
  asked_in waiting (close ∷ hs) = asked_in waiting hs
  asked_in waiting (receive ∷ hs) = asked_in (waiting - 1) hs

  taken_in-asked :
      (waiting : ℕ) (hs : List Happening)
      → filters.source ≡ none
      → taken_in filters client_id session_id waiting hs ≡ asked_in waiting hs
  taken_in-asked waiting [] any = refl
  taken_in-asked waiting (event now e ∷ hs) any =
      rw
        (
          matches_subscription_lem e filters any,
          taken_in-asked (after_offer waiting) hs any,
          taken_in-asked waiting hs any,
        )
        refl
  taken_in-asked waiting (beat now ∷ hs) any = rw (taken_in-asked (after_offer waiting) hs any) refl
  taken_in-asked waiting (close ∷ hs) any = taken_in-asked waiting hs any
  taken_in-asked waiting (receive ∷ hs) any = taken_in-asked (waiting - 1) hs any

-- For a subscription whose channel is open and empty and which was made without a source,
-- whatever change events, heartbeats and rounds of the handler come, in any order, if no close is
-- among them then nothing panics; the handler has sent the confirmation and then messages which,
-- followed by those that wait in the channel, are in order exactly the heartbeats and the events
-- whose kind, type, tokens, liquidity source and lender it asks for, without those that came when
-- 100 messages were waiting.
pub happen_all-asked :
    (ts : Timestamps) (hs : List Happening) (s : Subscription) (now : Time)
    → StaysOpen hs
    → s.closed ≡ false
    → s.channel ≡ []
    → s.filters.source ≡ none
    → (q : Streaming) × (got : List Message) × (happen_all hs
          (record { subscription = s; taken = [] })
        ≡ done q)
      × (sent ts now q ≡ some (initial_response ts now s) ∷ map (λ m. some (response_of ts m)) got)
      × (got ++ q.subscription.channel ≡ asked_in s.filters s.client_id s.session_id 0 hs)
happen_all-asked ts hs s now stays fresh empty any =
    let (q, got, ran, shown, same) = happen_all-sent ts hs s now stays fresh empty in
    (q, got, ran, shown, same ∙ taken_in-asked s.filters s.client_id s.session_id 0 hs any)
