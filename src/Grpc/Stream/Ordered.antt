-- ===== src/Grpc/Stream/Ordered.antt =====
-- store/grpc_server.go and store/notification_service.go: the order and the completeness of what a
-- subscriber is sent.
use margin_offer_system.Base.{
  ◌-◌, ◌≡◌, refl, ◌∙◌, ap, sym, String, false, some, List, [], ◌∷◌, ◌++◌, arith, length, Bool-cases,
  inl, inr, map, List-cases,
}
use mathlib.Core.List.{append-nil}
use margin_offer_system.Base.Run.{done}
use margin_offer_system.Types.Time.{Time}
use margin_offer_system.Grpc.Messages.{Timestamps}
use margin_offer_system.Store.Subscriptions.{
  Message, change, heartbeat, Subscription, matches_subscription,
}
use margin_offer_system.Grpc.Stream.{
  Happening, event, beat, close, receive, Streaming, happen_all, response_of, responses_of,
  initial_response, sent,
}
use margin_offer_system.Grpc.Stream.Steps.{
  StaysOpen, taken_from, shown_of, Continues, Goes, Sends, event_run, beat_run, send-Continues,
  without_first, waits, receives, map-some-append, moved, taken_in,
}

happen_all-Goes :
    (hs : List Happening) → StaysOpen hs → (p : Streaming) (got : List Message) → Goes hs p got
unfolding Continues Sends happen_all without_first
happen_all-Goes [] stays p got fresh held = (p, got, refl, held, simp append-nil, refl)
happen_all-Goes (event now e ∷ hs) stays p got fresh held =
    elim (Bool-cases (matches_subscription e p.subscription.filters)) [
      | inl wanted ↦
          let (s, ran, rest) =
            send-Continues now (change e) hs p got (λ q. happen_all-Goes hs stays q got) fresh
              held in
          let (q, got', on, t, same, known) = rest in
          (q, got', event_run now e hs p s (rw wanted ran) ∙ on, t, rw wanted same, known)
      | inr other ↦
          let (q, got', on, t, same, known) = happen_all-Goes hs stays p got fresh held in
          (
            q,
            got',
            event_run now e hs p p.subscription (rw other refl) ∙ on,
            t,
            rw other same,
            known,
          )
    ]
happen_all-Goes (beat now ∷ hs) stays p got fresh held =
    let (s, ran, rest) =
      send-Continues now (heartbeat now p.subscription.client_id p.subscription.session_id) hs p got
        (λ q. happen_all-Goes hs stays q got) fresh held in
    let (q, got', on, t, same, known) = rest in
    (q, got', beat_run now hs p s ran ∙ on, t, same, known)
happen_all-Goes (close ∷ hs) stays p got fresh held = absurd stays
happen_all-Goes (receive ∷ hs) stays p got fresh held = elim (List-cases p.subscription.channel) [
  | inl empty ↦
      let (q, got', on, t, same, known) = happen_all-Goes hs stays p got fresh held in
      (
        q,
        got',
        waits hs p empty fresh ∙ on,
        t,
        same
            ∙ ap (λ n. (got ++ p.subscription.channel) ++ taken_from p n hs)
                (omega (arith, ap length empty)),
        known,
      )
  | inr (m, rest, at) ↦
      let one_less : length rest ≡ length (m ∷ rest) - 1 = omega arith in
      let (q, got', on, t, same, known) =
        happen_all-Goes hs stays (without_first m rest p) (got ++ m ∷ []) fresh
          (unfold without_first in (ap (λ ms. ms ++ some m ∷ []) held ∙ map-some-append got m)) in
      (
        q,
        got',
        receives hs p m rest at ∙ on,
        t,
        same
            ∙ ap (λ ms. ms ++ taken_from p (length rest) hs) (moved got rest m)
            ∙ ap (λ n. (got ++ m ∷ rest) ++ taken_from p n hs) one_less
            ∙ ap (λ ch. (got ++ ch) ++ taken_from p (length ch - 1) hs) (sym at),
        known,
      )
]

module _ (ts : Timestamps) where
  responses_lem :
      (got : List Message) → responses_of ts (map some got) ≡ map (λ m. some (response_of ts m)) got
  unfolding responses_of
  responses_lem [] = refl
  responses_lem (m ∷ got) = ap (◌∷◌ (some (response_of ts m))) (responses_lem got)

  confirmed :
      (now : Time) (s s' : Subscription)
      → shown_of s' ≡ shown_of s
      → initial_response ts now s' ≡ initial_response ts now s
  unfolding initial_response
  confirmed now s s' known =
      ap
        (λ (shown : String × String).
          initial_response ts now (record s { id = shown.0; client_id = shown.1 }))
        known

-- For a subscription whose channel is open and empty, whatever change events, heartbeats and
-- rounds of the handler come, in any order, if no close is among them then nothing panics; the
-- handler has sent the confirmation and then messages which, followed by those that wait in the
-- channel, are in order exactly the heartbeats and the events that matchesSubscription accepts,
-- without those that came when 100 messages were waiting.
pub happen_all-sent :
    (ts : Timestamps) (hs : List Happening) (s : Subscription) (now : Time)
    → StaysOpen hs
    → s.closed ≡ false
    → s.channel ≡ []
    → (q : Streaming) × (got : List Message) × (happen_all hs
          (record { subscription = s; taken = [] })
        ≡ done q)
      × (sent ts now q ≡ some (initial_response ts now s) ∷ map (λ m. some (response_of ts m)) got)
      × (got ++ q.subscription.channel ≡ taken_in s.filters s.client_id s.session_id 0 hs)
unfolding Continues sent
happen_all-sent ts hs s now stays fresh empty =
    let p : Streaming = record { subscription = s; taken = [] } in
    let (q, got, ran, t, same, known) = happen_all-Goes hs stays p [] fresh refl in
    (
      q,
      got,
      ran,
      ap (λ r. some r ∷ responses_of ts q.taken) (confirmed ts now s q.subscription known)
          ∙ ap (λ ms. some (initial_response ts now s) ∷ ms)
              (ap (responses_of ts) t ∙ responses_lem ts got),
      same ∙ ap (λ ch. ch ++ taken_from p (length ch) hs) empty,
    )
