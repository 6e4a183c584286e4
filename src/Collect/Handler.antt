-- ===== src/Collect/Handler.antt =====
-- collect/stage.go and collect/handler.go: a request becomes an event, passes the stages, and is
-- published.
use analytics_core.Prelude.{
  ◌≡◌, Bool, Option, none, some, List, [], ◌∷◌, Text, All, Option-cases, inl, inr, refl,
}
use analytics_core.Contracts.{EventEnvelope, Time, zero_time}
use analytics_core.Collect.Request.{
  Request, CollectError, Collected, accepted, refused, normalize, trim_request,
}
use analytics_core.Collect.Request.Accepted.{IsEvent, normalize-IsEvent}

pub record StageInput : Type 0 where
  pub request : Request
  pub received_at : Time

-- `EventEnvelope{}`
abbrev pub zero_envelope : EventEnvelope
zero_envelope = record {
  id = [];
  tenant_id = [];
  project_id = [];
  source_id = [];
  source_type = [];
  event_name = [];
  distinct_id = [];
  session_id = [];
  visit_id = [];
  event_time = zero_time;
  received_at = zero_time;
  properties = [];
  user_props = [];
  source = [];
}

-- `(EventEnvelope, error)`
abbrev pub Answer : Type 0
Answer = EventEnvelope × Option CollectError

abbrev pub Stage : Type 0
Stage = StageInput → EventEnvelope → Answer

-- The loop over the stages.
unfoldable pub apply_stages : List Stage → StageInput → EventEnvelope → Answer
apply_stages [] input envelope = (envelope, none)
apply_stages (stage ∷ stages) input envelope =
    let (next, e) = stage input envelope in
    let later = apply_stages stages input next in
    elim e [ some cause ↦ (next, some cause) | none ↦ later ]

-- `Handle` with the bus's `Publish`, whose calls come beside the answer.
module _ (parses : Text → Bool) (publish : EventEnvelope → Option CollectError)
    (stages : List Stage) where
  unfoldable pub publish_answer : EventEnvelope → Answer × List EventEnvelope
  publish_answer envelope = elim (publish envelope) [
    | some e ↦ ((zero_envelope, some e), envelope ∷ [])
    | none ↦ ((envelope, none), envelope ∷ [])
  ]

  unfoldable pub stage_and_publish : StageInput → EventEnvelope → Answer × List EventEnvelope
  unfolding publish_answer
  stage_and_publish input envelope =
      let (staged, e) = apply_stages stages input envelope in
      elim e [ some cause ↦ ((staged, some cause), []) | none ↦ publish_answer staged ]

  unfoldable pub handle : Request → Time → Answer × List EventEnvelope
  unfolding stage_and_publish
  handle request received_at = elim (normalize parses request received_at) [
    | refused e ↦ ((zero_envelope, some e), [])
    | accepted envelope ↦
        stage_and_publish (record { request = trim_request request; received_at = received_at })
          envelope
  ]

  -- A stage that lets no envelope through that is not an event.
  abbrev pub KeepsEvents : Stage → Type 0
  KeepsEvents stage =
      (input : StageInput) (envelope : EventEnvelope)
      → IsEvent parses envelope
      → (stage input envelope).1 ≡ none
      → IsEvent parses (stage input envelope).0

  stages-IsEvent :
      (todo : List Stage) (input : StageInput) (envelope : EventEnvelope)
      → All KeepsEvents todo
      → IsEvent parses envelope
      → (apply_stages todo input envelope).1 ≡ none
      → IsEvent parses (apply_stages todo input envelope).0
  unfolding apply_stages
  stages-IsEvent [] input envelope keep event h = event
  stages-IsEvent (stage ∷ todo) input envelope keep event h =
      elim (Option-cases (stage input envelope).1) [
        | inr (e, failed) ↦ absurd (cc (rw (failed, apply_stages) at h, failed))
        | inl good ↦
            rw (good, apply_stages)
              (stages-IsEvent todo input (stage input envelope).0 keep.1
                (keep.0 input envelope event good) (rw (good, apply_stages) at h))
      ]

  -- How a call of `Handle` ends: an event is published and answered, it is published without
  -- success, or nothing is published and an error is answered.
  pub data Handled : Answer × List EventEnvelope → Type 0 where
    publishes :
        {envelope : EventEnvelope}
        → IsEvent parses envelope
        → Handled ((envelope, none), envelope ∷ [])
    fails_to_publish :
        {envelope : EventEnvelope} {e : CollectError}
        → IsEvent parses envelope
        → publish envelope ≡ some e
        → Handled ((zero_envelope, some e), envelope ∷ [])
    turns_away : {answer : EventEnvelope} {e : CollectError} → Handled ((answer, some e), [])

  publish-Handled :
      (envelope : EventEnvelope) → IsEvent parses envelope → Handled (publish_answer envelope)
  unfolding publish_answer
  publish-Handled envelope event = elim (Option-cases (publish envelope)) [
    | inl done ↦ rw (done, publish_answer) (publishes event)
    | inr (e, failed) ↦ rw (failed, publish_answer) (fails_to_publish event failed)
  ]

  stage-Handled :
      (input : StageInput) (envelope : EventEnvelope)
      → All KeepsEvents stages
      → IsEvent parses envelope
      → Handled (stage_and_publish input envelope)
  unfolding stage_and_publish
  stage-Handled input envelope keep event =
      elim (Option-cases (apply_stages stages input envelope).1) [
        | inr (e, failed) ↦ rw (failed, stage_and_publish) turns_away
        | inl good ↦
            rw (good, stage_and_publish)
              (publish-Handled _ (stages-IsEvent stages input envelope keep event good))
      ]

  -- If every stage of a handler lets through events only, whatever the request, the handler either
  -- publishes once an envelope that is an event, and answers it if the bus takes it, or publishes
  -- nothing and answers an error.
  pub handle-Handled :
      (request : Request) (received_at : Time)
      → All KeepsEvents stages
      → Handled (handle request received_at)
  unfolding handle
  handle-Handled request received_at keep = after (normalize parses request received_at) refl
    where
      after :
          (n : Collected EventEnvelope)
          → normalize parses request received_at ≡ n
          → Handled (elim n [
            | refused e ↦ ((zero_envelope, some e), [])
            | accepted envelope ↦
                stage_and_publish
                  (record { request = trim_request request; received_at = received_at })
                  envelope
          ])
      after (refused e) h = turns_away
      after (accepted envelope) h =
          stage-Handled _ envelope keep (normalize-IsEvent parses request received_at envelope h)
