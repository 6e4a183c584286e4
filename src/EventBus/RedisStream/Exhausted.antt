-- ===== src/EventBus/RedisStream/Exhausted.antt =====
-- eventbus/redisstream/redisstream.go: a message whose attempts are used up is not left pending.
use analytics_core.Prelude.{
  ◌≡◌, refl, sym, ap, ◌∙◌, ◌⊎◌, inl, inr, true, false, Option, none, some, List, [], ◌∷◌, Text,
  is_empty, Option-cases, arith,
}
use analytics_core.Contracts.{EventEnvelope, int_ltb, ℤ, pos}
use analytics_core.Storage.Backends.{Error, Fallible, ok, Fallible-cases}
use analytics_core.EventBus.{ConsumerGroup, Message}
use analytics_core.EventBus.RedisStream.{
  World, decode, handle_failure, process_message, process_messages,
}
use analytics_core.EventBus.Redis.{Options, StreamMessage, Redis}

module _ (r : Redis) (H : Type 0) (handler : Message → H → Option Error × H)
    (unmarshal : Text → Fallible EventEnvelope) (opts : Options) (group : ConsumerGroup) where
  abbrev Worlds : Type 0
  Worlds = World r H handler unmarshal opts group

  abbrev decodes : StreamMessage → r.State → Fallible (Message × Text) × r.State
  decodes = decode r H handler unmarshal opts group

  abbrev processes : StreamMessage → Worlds → Option Error × Worlds
  processes = process_message r H handler unmarshal opts group

  -- The message was decoded in this state with an attempt below the limit, its handler failed, and
  -- it has been neither acknowledged nor given a dead letter.
  pub record StaysPending (m : StreamMessage) (w : Worlds) : Type 0 where
    pub message : Message
    pub text : Text
    pub cause : Error
    pub decoded : (decodes m w.server).0 ≡ ok (message, text)
    pub failed : (handler message w.handled).0 ≡ some cause
    pub fewer : int_ltb message.attempt opts.max_attempts ≡ true
    pub unacknowledged : (processes m w).1.acks ≡ w.acks
    pub no_letter : (processes m w).1.letters ≡ w.letters

  -- Each message of a read, in the state that the ones before it leave, is acknowledged or stays
  -- pending.
  abbrev pub AreFinished : List StreamMessage → Worlds → Type 0
  AreFinished [] w = Unit
  AreFinished (m ∷ ms) w =
      (((processes m w).1.acks ≡ m ∷ w.acks) ⊎ StaysPending m w) × AreFinished ms (processes m w).1

  failure-ends :
      (m : StreamMessage) (attempt : ℤ) (text : Text) (cause : Error) (w : Worlds)
      → int_ltb (pos 0) opts.max_attempts ≡ true
      → is_empty opts.dead_letter_stream ≡ false
      → (handle_failure r H handler unmarshal opts group m attempt text cause w).0 ≡ none
      → ((handle_failure r H handler unmarshal opts group m attempt text cause w).1.acks
          ≡ m ∷ w.acks)
        ⊎ ((int_ltb attempt opts.max_attempts ≡ true)
            × (handle_failure r H handler unmarshal opts group m attempt text cause w ≡ (none, w)))
  unfolding handle_failure
  failure-ends m attempt text cause w limited given nil = ground arith

  process-ends :
      (m : StreamMessage) (w : Worlds)
      → int_ltb (pos 0) opts.max_attempts ≡ true
      → is_empty opts.dead_letter_stream ≡ false
      → (processes m w).0 ≡ none
      → ((processes m w).1.acks ≡ m ∷ w.acks) ⊎ StaysPending m w
  unfolding process_message
  process-ends m w limited given nil = elim (Fallible-cases (decodes m w.server).0) [
    | inl (e, failed) ↦ absurd (cc (rw (failed, process_message) at nil))
    | inr ((message, text), decoded) ↦ elim (Option-cases (handler message w.handled).0) [
      | inl done ↦ inl (rw (decoded, process_message) (rw (done, process_message) refl))
      | inr (cause, failed) ↦
          let after : Worlds = record w {
            server = (decodes m w.server).1;
            handled = (handler message w.handled).1;
          } in
          elim (failure-ends m message.attempt text cause after limited given
            (rw (failed, process_message) at (rw (decoded, process_message) at nil))) [
              | inl acked ↦ inl (rw (decoded, process_message) (rw (failed, process_message) acked))
              | inr (fewer, same) ↦
                  let kept : processes m w ≡ (none, after) =
                    rw (decoded, process_message) (rw (failed, process_message) same) in
                  inr (record {
                    message = message;
                    text = text;
                    cause = cause;
                    decoded = decoded;
                    failed = failed;
                    fewer = fewer;
                    unacknowledged = ap (λ p. p.1.acks) kept;
                    no_letter = ap (λ p. p.1.letters) kept;
                  })
            ]
    ]
  ]

  go_on :
      (m : StreamMessage) (ms : List StreamMessage) (w : Worlds)
      → (processes m w).0 ≡ none
      → process_messages r H handler unmarshal opts group (m ∷ ms) w
        ≡ process_messages r H handler unmarshal opts group ms (processes m w).1
  unfolding process_messages
  go_on m ms w done = rw (done, process_messages) refl

  -- With a limit of attempts and a stream for dead letters, if the messages of a read are processed
  -- with no error, each of them, in the state that the ones before it leave, is acknowledged, or its
  -- handler failed and its attempt, as decoded in that state, is below the limit; it is then neither
  -- acknowledged nor given a dead letter, and so stays pending.
  pub messages-AreFinished :
      (ms : List StreamMessage) (w : Worlds)
      → int_ltb (pos 0) opts.max_attempts ≡ true
      → is_empty opts.dead_letter_stream ≡ false
      → (process_messages r H handler unmarshal opts group ms w).0 ≡ none
      → AreFinished ms w
  unfolding process_messages
  messages-AreFinished [] w limited given nil = tt
  messages-AreFinished (m ∷ ms) w limited given nil = elim (Option-cases (processes m w).0) [
    | inr (e, failed) ↦ absurd (cc (rw (failed, process_messages) at nil))
    | inl done ↦ (
      process-ends m w limited given done,
      messages-AreFinished ms (processes m w).1 limited given
          (ap (λ p. p.0) (sym (go_on m ms w done)) ∙ nil),
    )
  ]
