-- ===== src/Grpc/Stream/Steps.antt =====
-- store/grpc_server.go and store/notification_service.go: the steps of a subscription, and what its
-- channel takes in.
use margin_offer_system.Base.{
  ℕ, suc, ◌-◌, ◌≡◌, refl, ◌∙◌, ap, sym, String, true, false, some, List, [], ◌∷◌, ◌++◌, arith,
  if◌then◌else◌, length, length-append, ltb, Bool-cases, inl, inr, map,
}
use mathlib.Core.List.{append_assoc}
use margin_offer_system.Base.Run.{Run, done}
use margin_offer_system.Types.Time.{Time}
use margin_offer_system.Store.Notification.{ChangeEvent}
use margin_offer_system.Store.Subscriptions.{
  Message, change, heartbeat, Subscription, SubscribeRequest, deliver, send, matches_subscription,
  channel_capacity,
}
use margin_offer_system.Grpc.Stream.{
  Happening, event, beat, close, receive, Streaming, take_next, happen, happen_all,
}

-- The subscriber as its filters, client and session; the messages that its channel takes in, told by
-- a count of those that wait in it.
abbrev pub offered : ℕ → Message → List Message → List Message
offered waiting m rest = if ltb waiting channel_capacity then m ∷ rest else rest

abbrev pub after_offer : ℕ → ℕ
after_offer waiting = if ltb waiting channel_capacity then suc waiting else waiting

module _ (filters : SubscribeRequest) (client_id session_id : String) where
  abbrev pub taken_in : ℕ → List Happening → List Message
  taken_in waiting [] = []
  taken_in waiting (event now e ∷ hs) =
      if matches_subscription e filters
      then offered waiting (change e) (taken_in (after_offer waiting) hs)
      else taken_in waiting hs
  taken_in waiting (beat now ∷ hs) =
      offered waiting (heartbeat now client_id session_id) (taken_in (after_offer waiting) hs)
  taken_in waiting (close ∷ hs) = taken_in waiting hs
  taken_in waiting (receive ∷ hs) = taken_in (waiting - 1) hs

-- No close among what happens.
abbrev pub StaysOpen : List Happening → Type 0
StaysOpen [] = Unit
StaysOpen (event now e ∷ hs) = StaysOpen hs
StaysOpen (beat now ∷ hs) = StaysOpen hs
StaysOpen (close ∷ hs) = ⊥
StaysOpen (receive ∷ hs) = StaysOpen hs

-- The messages that a state's subscription takes in.
abbrev pub taken_from : Streaming → ℕ → List Happening → List Message
taken_from p = taken_in p.subscription.filters p.subscription.client_id p.subscription.session_id

-- What the confirmation shows of a subscription.
abbrev pub shown_of : Subscription → String × String
shown_of s = (s.id, s.client_id)

abbrev pub initial_of : Streaming → String × String
initial_of p = shown_of p.subscription

-- A run to a state whose taken messages and channel are the ones before and then `more`.
unfoldable pub Continues : Run Streaming → Streaming → List Message → List Message → Type 0
Continues run p got more =
    (q : Streaming) × (got' : List Message) × (run ≡ done q)
    × (q.taken ≡ map some got')
    × (got' ++ q.subscription.channel ≡ (got ++ p.subscription.channel) ++ more)
    × (initial_of q ≡ initial_of p)

-- Nothing is received yet, or a prefix.
abbrev pub Goes : List Happening → Streaming → List Message → Type 0
Goes hs p got =
    p.subscription.closed ≡ false
    → p.taken ≡ map some got
    → Continues (happen_all hs p) p got (taken_from p (length p.subscription.channel) hs)

pub widened :
    (got ch rest : List Message) (m : Message)
    → (got ++ (ch ++ m ∷ [])) ++ rest ≡ (got ++ ch) ++ m ∷ rest
widened got ch rest m = simp append_assoc

pub with_message : Time → Message → Streaming → Streaming
with_message now m p = record p {
  subscription = record p.subscription {
    channel = p.subscription.channel ++ m ∷ [];
    last_activity = now;
  };
}

pub sends :
    (now : Time) (m : Message) (p : Streaming)
    → p.subscription.closed ≡ false
    → ltb (length p.subscription.channel) channel_capacity ≡ true
    → send now m p.subscription ≡ done (with_message now m p).subscription
unfolding send with_message
sends now m p fresh room = rw (send, fresh, room) refl

pub drops :
    (now : Time) (m : Message) (s : Subscription)
    → s.closed ≡ false
    → ltb (length s.channel) channel_capacity ≡ false
    → send now m s ≡ done s
unfolding send
drops now m s fresh full = ground (arith, fresh, full)

-- A message that is sent.
unfoldable pub Sends : Time → Message → List Happening → Streaming → List Message → Type 0
Sends now m hs p got =
    (s : Subscription) × (send now m p.subscription ≡ done s)
    × Continues (happen_all hs (record p { subscription = s })) p got (
        offered (length p.subscription.channel) m
          (taken_from p (after_offer (length p.subscription.channel)) hs))

pub room_lem :
    (p : Streaming) (m : Message) (hs : List Happening)
    → ltb (length p.subscription.channel) channel_capacity ≡ true
    → offered
        (length p.subscription.channel)
        m
        (taken_from p (after_offer (length p.subscription.channel)) hs)
      ≡ m ∷ taken_from p (length (p.subscription.channel ++ m ∷ [])) hs
room_lem p m hs room =
    rw (room, length-append p.subscription.channel (m ∷ []))
      (ap (λ n. m ∷ taken_from p n hs) (omega arith))

pub full_lem :
    (p : Streaming) (m : Message) (hs : List Happening)
    → ltb (length p.subscription.channel) channel_capacity ≡ false
    → offered
        (length p.subscription.channel)
        m
        (taken_from p (after_offer (length p.subscription.channel)) hs)
      ≡ taken_from p (length p.subscription.channel) hs
full_lem p m hs full = rw full refl

pub event_run :
    (now : Time) (e : ChangeEvent) (hs : List Happening) (p : Streaming) (s : Subscription)
    → deliver now e p.subscription ≡ done s
    → happen_all (event now e ∷ hs) p ≡ happen_all hs (record p { subscription = s })
unfolding happen_all happen
event_run now e hs p s ran = rw ran refl

pub beat_run :
    (now : Time) (hs : List Happening) (p : Streaming) (s : Subscription)
    → send now (heartbeat now p.subscription.client_id p.subscription.session_id) p.subscription
      ≡ done s
    → happen_all (beat now ∷ hs) p ≡ happen_all hs (record p { subscription = s })
unfolding happen_all happen
beat_run now hs p s ran = rw ran refl

pub send-Continues :
    (now : Time) (m : Message) (hs : List Happening) (p : Streaming) (got : List Message)
    → ((q : Streaming) → Goes hs q got)
    → p.subscription.closed ≡ false
    → p.taken ≡ map some got
    → Sends now m hs p got
unfolding Continues with_message Sends
send-Continues now m hs p got goes fresh held =
    elim (Bool-cases (ltb (length p.subscription.channel) channel_capacity)) [
      | inr full ↦
          let (q, got', ran, t, same, known) = goes p fresh held in
          (
            p.subscription,
            drops now m p.subscription fresh full,
            (
              q,
              got',
              ran,
              t,
              same ∙ ap (λ ms. (got ++ p.subscription.channel) ++ ms) (sym (full_lem p m hs full)),
              known,
            ),
          )
      | inl room ↦
          let (q, got', ran, t, same, known) = goes (with_message now m p) fresh held in
          (
            (with_message now m p).subscription,
            sends now m p fresh room,
            (
              q,
              got',
              ran,
              t,
              same
                  ∙ widened got p.subscription.channel _ m
                  ∙ ap (λ ms. (got ++ p.subscription.channel) ++ ms) (sym (room_lem p m hs room)),
              known,
            ),
          )
    ]

unfoldable pub without_first : Message → List Message → Streaming → Streaming
without_first m rest p = record {
  subscription = record p.subscription { channel = rest };
  taken = p.taken ++ some m ∷ [];
}

pub waits :
    (hs : List Happening) (p : Streaming)
    → p.subscription.channel ≡ []
    → p.subscription.closed ≡ false
    → happen_all (receive ∷ hs) p ≡ happen_all hs p
unfolding happen_all happen take_next
waits hs p empty fresh =
    let stays : take_next p.subscription.channel p ≡ p =
      ap (λ ch. take_next ch p) empty ∙ ground (arith, fresh) in
    ap (happen_all hs) stays

pub receives :
    (hs : List Happening) (p : Streaming) (m : Message) (rest : List Message)
    → p.subscription.channel ≡ m ∷ rest
    → happen_all (receive ∷ hs) p ≡ happen_all hs (without_first m rest p)
unfolding happen_all happen take_next without_first
receives hs p m rest at = ap (λ ch. happen_all hs (take_next ch p)) at

pub map-some-append :
    (got : List Message) (m : Message) → map some got ++ some m ∷ [] ≡ map some (got ++ m ∷ [])
map-some-append [] m = refl
map-some-append (x ∷ got) m = ap (◌∷◌ (some x)) (map-some-append got m)

pub moved : (got rest : List Message) (m : Message) → (got ++ m ∷ []) ++ rest ≡ got ++ m ∷ rest
moved got rest m = simp append_assoc
