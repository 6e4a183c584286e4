-- ===== src/EventBus/RedisStream/Acknowledged.antt =====
-- eventbus/redisstream/redisstream.go: a message is acknowledged only behind its handler's success
-- or its dead letter.
use analytics_core.Prelude.{
  ℕ, zero, suc, ◌≡◌, refl, ap, ◌∙◌, Option, none, ◌⊎◌, inl, inr, List, [], ◌∷◌, Text, All,
  Bool-cases, Option-cases,
}
use analytics_core.Contracts.{EventEnvelope, ℤ, pos}
use analytics_core.Storage.Backends.{Error, Fallible, ok, Fallible-cases}
use analytics_core.EventBus.{ConsumerGroup, Message}
use analytics_core.EventBus.RedisStream.{
  Ending-cases, World, decode, decoded_envelope, delivery_attempt, acknowledge, dead_letter,
  keeps_pending, handle_failure, process_message, process_messages, consumed, consume, round,
  rounds, subscribe_redis, bus_message,
}
use analytics_core.EventBus.RedisStream.Kept.{subscribe-keeps}
use analytics_core.EventBus.Redis.{
  Options, StreamMessage, DeadLetter, letter_entry, ReadFrom, pending_ones, new_ones, ReadAnswer,
  nothing, read_error, streams, Redis, payload_of, all_messages,
}

-- A dead letter names the message.
abbrev pub HasLetter : Text → List DeadLetter → Type 0
HasLetter id [] = ⊥
HasLetter id (l ∷ ls) = (l.original_message_id ≡ id) ⊎ HasLetter id ls

module _ (r : Redis) (H : Type 0) (handler : Message → H → Option Error × H)
    (unmarshal : Text → Fallible EventEnvelope) (opts : Options) (group : ConsumerGroup) where
  abbrev Worlds : Type 0
  Worlds = World r H handler unmarshal opts group

  -- What the handler keeps true of its state, and what its success means for an event.
  pub record Handles (Inv : H → Type 0) (Good : EventEnvelope → H → Type 0) : Type 0 where
    pub keeps : (m : Message) (h : H) → Inv h → Inv (handler m h).1
    pub gains :
        (m : Message) (h : H) → Inv h → (handler m h).0 ≡ none → Good m.envelope (handler m h).1
    pub stays :
        (m : Message) (h : H) (e : EventEnvelope) → Inv h → Good e h → Good e (handler m h).1

  abbrev pub reads_as : StreamMessage → Fallible (Text × EventEnvelope)
  reads_as m = decoded_envelope r H handler unmarshal opts group (payload_of m.raw)

  abbrev decodes : StreamMessage → r.State → Fallible (Message × Text) × r.State
  decodes = decode r H handler unmarshal opts group

  ok_eq : {A : Type 0} {a b : A} → ok a ≡ ok b → a ≡ b
  ok_eq h = cc

  -- A decoded message has the envelope of the entry.
  decode-reads :
      (m : StreamMessage) (s : r.State) (message : Message) (text : Text)
      → (decodes m s).0 ≡ ok (message, text)
      → reads_as m ≡ ok (text, message.envelope)
  unfolding decode
  decode-reads m s message text h = elim (Fallible-cases (reads_as m)) [
    | inl (e, failed) ↦ absurd (cc (rw (failed, decode) at h))
    | inr (read, found) ↦
        elim (Fallible-cases (delivery_attempt r H handler unmarshal opts group m.id s).0) [
          | inl (e, failed) ↦ absurd (cc (rw (failed, decode) at (rw (found, decode) at h)))
          | inr (attempt, counted) ↦
              let same : (bus_message r H handler unmarshal opts group m.id attempt read.1, read.0)
                  ≡ (message, text) =
                ok_eq (rw (counted, decode) at (rw (found, decode) at h)) in
              found ∙ ap (λ p. ok (p.1, p.0.envelope)) same
        ]
  ]

  module _ (Inv : H → Type 0) (Good : EventEnvelope → H → Type 0) where
    -- The message's event is good, or a dead letter names the message.
    abbrev pub IsSettled : H → List DeadLetter → StreamMessage → Type 0
    IsSettled h letters m =
        ((text : Text) × (e : EventEnvelope) × (reads_as m ≡ ok (text, e)) × Good e h)
        ⊎ HasLetter m.id letters

    pub record IsSafe (w : Worlds) : Type 0 where
      pub inv : Inv w.handled
      pub settled : All (IsSettled w.handled w.letters) w.acks

    All-map :
        {A : Type 0} (P Q : A → Type 0) (xs : List A) → ((a : A) → P a → Q a) → All P xs → All Q xs
    All-map P Q [] h all = tt
    All-map P Q (x ∷ xs) h all = (h x all.0, All-map P Q xs h all.1)

    -- An acknowledgement of a settled message.
    acknowledge-IsSafe :
        (m : StreamMessage) (w : Worlds)
        → IsSafe w
        → IsSettled w.handled w.letters m
        → IsSafe (acknowledge r H handler unmarshal opts group m w).1
    acknowledge-IsSafe m w safe settled = record {
      inv = safe.inv;
      settled = (settled, safe.settled);
    }

    later_letter :
        (h : H) (l : DeadLetter) (ls : List DeadLetter) (m : StreamMessage)
        → IsSettled h ls m
        → IsSettled h (l ∷ ls) m
    later_letter h l ls m (inl good) = inl good
    later_letter h l ls m (inr letter) = inr (inr letter)

    failure-IsSafe :
        (m : StreamMessage) (attempt : ℤ) (text : Text) (cause : Error) (w : Worlds)
        → IsSafe w
        → IsSafe (handle_failure r H handler unmarshal opts group m attempt text cause w).1
    unfolding handle_failure
    failure-IsSafe m attempt text cause w safe =
        let letter = dead_letter r H handler unmarshal opts group m attempt text cause in
        elim (Bool-cases (keeps_pending r H handler unmarshal opts group attempt)) [
          | inl kept ↦ rw (kept, handle_failure) safe
          | inr exhausted ↦
              elim (Option-cases (r.add opts.dead_letter_stream (letter_entry letter) w.server).0) [
                | inr (e, failed) ↦
                    rw (exhausted, handle_failure)
                      (rw (failed, handle_failure)
                        (record { inv = safe.inv; settled = safe.settled }))
                | inl written ↦
                    rw (exhausted, handle_failure)
                      (rw (written, handle_failure)
                        (acknowledge-IsSafe m _
                          (record {
                            inv = safe.inv;
                            settled =
                                All-map _ _ w.acks (later_letter w.handled letter w.letters)
                                  safe.settled;
                          })
                          (inr (inl refl))))
              ]
        ]

    module _ (handles : Handles Inv Good) where
      handled-settled :
          (message : Message) (h : H) (letters : List DeadLetter) (m : StreamMessage)
          → Inv h
          → IsSettled h letters m
          → IsSettled (handler message h).1 letters m
      handled-settled message h letters m inv (inl (text, e, read, good)) =
          inl (text, e, read, handles.stays message h e inv good)
      handled-settled message h letters m inv (inr letter) = inr letter

      process-IsSafe :
          (m : StreamMessage) (w : Worlds)
          → IsSafe w
          → IsSafe (process_message r H handler unmarshal opts group m w).1
      unfolding process_message
      process-IsSafe m w safe = elim (Fallible-cases (decodes m w.server).0) [
        | inl (e, failed) ↦
            rw (failed, process_message) (record { inv = safe.inv; settled = safe.settled })
        | inr ((message, text), decoded) ↦
            let after : Worlds = record w {
              server = (decodes m w.server).1;
              handled = (handler message w.handled).1;
            } in
            let safe_after : IsSafe after = record {
              inv = handles.keeps message w.handled safe.inv;
              settled =
                  All-map _ _ w.acks (λ a. handled-settled message w.handled w.letters a safe.inv)
                    safe.settled;
            } in
            elim (Option-cases (handler message w.handled).0) [
              | inr (cause, failed) ↦
                  rw (decoded, process_message)
                    (rw (failed, process_message)
                      (failure-IsSafe m message.attempt text cause after safe_after))
              | inl done ↦
                  rw (decoded, process_message)
                    (rw (done, process_message)
                      (acknowledge-IsSafe m after safe_after (
                        inl (
                          text,
                          message.envelope,
                          decode-reads m w.server message text decoded,
                          handles.gains message w.handled safe.inv done,
                        ))))
            ]
      ]

      messages-IsSafe :
          (ms : List StreamMessage) (w : Worlds)
          → IsSafe w
          → IsSafe (process_messages r H handler unmarshal opts group ms w).1
      unfolding process_messages
      messages-IsSafe [] w safe = safe
      messages-IsSafe (m ∷ ms) w safe =
          let next = process-IsSafe m w safe in
          elim (Option-cases (process_message r H handler unmarshal opts group m w).0) [
            | inr (e, failed) ↦ rw (failed, process_messages) next
            | inl done ↦
                rw (done, process_messages)
                  (messages-IsSafe ms (process_message r H handler unmarshal opts group m w).1 next)
          ]

      consumed-IsSafe :
          (kind : ReadFrom) (read : ReadAnswer) (w : Worlds)
          → IsSafe w
          → IsSafe (consumed r H handler unmarshal opts group kind read w).1
      unfolding consumed
      consumed-IsSafe kind nothing w safe = record { inv = safe.inv; settled = safe.settled }
      consumed-IsSafe kind (read_error e) w safe = safe
      consumed-IsSafe kind (streams found) w safe =
          let next = messages-IsSafe (all_messages found) w safe in
          elim (Option-cases
            (process_messages r H handler unmarshal opts group (all_messages found) w).0) [
              | inr (e, failed) ↦ rw (failed, consumed) next
              | inl done ↦ rw (done, consumed) (record { inv = next.inv; settled = next.settled })
            ]

      consume-IsSafe :
          (kind : ReadFrom) (block : ℤ) (w : Worlds)
          → IsSafe w
          → IsSafe (consume r H handler unmarshal opts group kind block w).1
      unfolding consume
      consume-IsSafe kind block w safe =
          let (read, s) = r.read_group opts group kind block w.server in
          consumed-IsSafe kind read (record w { server = s })
            (record { inv = safe.inv; settled = safe.settled })

      round-IsSafe : (w : Worlds) → IsSafe w → IsSafe (round r H handler unmarshal opts group w).1
      unfolding round
      round-IsSafe w safe =
          let w0 : Worlds = record w { server = (r.ended w.server).1 } in
          let (p, w1) = consume r H handler unmarshal opts group pending_ones (pos 0) w0 in
          let safe1 =
            consume-IsSafe pending_ones (pos 0) w0
              (record { inv = safe.inv; settled = safe.settled }) in
          let safe2 = consume-IsSafe new_ones opts.block w1 safe1 in
          elim (Option-cases (r.ended w.server).0) [
            | inr (e, ended) ↦ rw (ended, round) (record { inv = safe.inv; settled = safe.settled })
            | inl open_still ↦ elim (Fallible-cases p) [
              | inl (e, failed) ↦ rw (open_still, round) (rw (failed, round) safe1)
              | inr (suc n, done) ↦ rw (open_still, round) (rw (done, round) safe1)
              | inr (zero, done) ↦
                  elim (Fallible-cases
                    (consume r H handler unmarshal opts group new_ones opts.block w1).0) [
                      | inl (e, failed) ↦
                          rw (open_still, round) (rw (done, round) (rw (failed, round) safe2))
                      | inr (n, read) ↦
                          rw (open_still, round) (rw (done, round) (rw (read, round) safe2))
                    ]
            ]
          ]

      rounds-IsSafe :
          (fuel : ℕ) (w : Worlds)
          → IsSafe w
          → IsSafe (rounds r H handler unmarshal opts group fuel w).1
      unfolding rounds
      rounds-IsSafe zero w safe = safe
      rounds-IsSafe (suc fuel) w safe =
          let next = round-IsSafe w safe in
          elim (Ending-cases (round r H handler unmarshal opts group w).0) [
            | inl on ↦ rw (on, rounds) (rounds-IsSafe fuel _ next)
            | inr (e, ended) ↦ rw (ended, rounds) next
          ]

      -- However long a subscription runs and whatever Redis answers, each message that it
      -- acknowledges has been handled well, by what the handler's success means, or is in a dead
      -- letter, and the handler's invariant is kept.
      pub subscribe-IsSafe :
          (fuel : ℕ) (w : Worlds)
          → IsSafe w
          → IsSafe (subscribe_redis r H handler unmarshal opts group fuel w).1
      subscribe-IsSafe =
          subscribe-keeps r H handler unmarshal opts group IsSafe rounds-IsSafe
            (λ s w safe. record { inv = safe.inv; settled = safe.settled })
