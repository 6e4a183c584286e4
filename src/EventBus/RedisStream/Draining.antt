-- ===== src/EventBus/RedisStream/Draining.antt =====
-- eventbus/redisstream/redisstream.go: new messages are read only when nothing is pending.
use analytics_core.Prelude.{
  ℕ, zero, suc, ◌≡◌, refl, sym, ap, ◌∙◌, Option, inl, inr, List, [], ◌∷◌, Text, Option-cases, arith,
}
use mathlib.Core.Path.{subst}
use analytics_core.Contracts.{EventEnvelope, ℤ, pos}
use analytics_core.Storage.Backends.{Error, Fallible, ok, err, Fallible-cases}
use analytics_core.EventBus.{ConsumerGroup, Message}
use analytics_core.EventBus.RedisStream.{
  Read, Ending-cases, World, handle_failure, process_message, process_messages, consumed, consume,
  round, rounds, subscribe_redis,
}
use analytics_core.EventBus.RedisStream.Kept.{subscribe-keeps}
use analytics_core.EventBus.Redis.{
  Options, StreamMessage, ReadFrom, pending_ones, new_ones, ReadAnswer, nothing, read_error,
  streams, Redis, all_messages,
}

abbrev FoundNone : List Read → Type 0
FoundNone [] = ⊥
FoundNone (before ∷ reads) = (before.kind ≡ pending_ones) × (before.processed ≡ 0)

abbrev Follows : ReadFrom → List Read → Type 0
Follows pending_ones reads = Unit
Follows new_ones reads = FoundNone reads

-- A read of new messages comes right behind a read of the pending ones that had none; the latest
-- read is the first.
abbrev pub Drained : List Read → Type 0
Drained [] = Unit
Drained (read ∷ reads) = Follows read.kind reads × Drained reads

module _ (r : Redis) (H : Type 0) (handler : Message → H → Option Error × H)
    (unmarshal : Text → Fallible EventEnvelope) (opts : Options) (group : ConsumerGroup) where
  abbrev Worlds : Type 0
  Worlds = World r H handler unmarshal opts group

  process-reads :
      (m : StreamMessage) (w : Worlds)
      → (process_message r H handler unmarshal opts group m w).1.reads ≡ w.reads
  unfolding process_message handle_failure
  process-reads m w = ground arith

  messages-reads :
      (ms : List StreamMessage) (w : Worlds)
      → (process_messages r H handler unmarshal opts group ms w).1.reads ≡ w.reads
  unfolding process_messages
  messages-reads [] w = refl
  messages-reads (m ∷ ms) w = ground (
    arith,
    process-reads m w,
    messages-reads ms (process_message r H handler unmarshal opts group m w).1,
  )

  abbrev consumes : ReadFrom → ℤ → Worlds → Fallible ℕ × Worlds
  consumes = consume r H handler unmarshal opts group

  -- The reads behind one that succeeds or fails.
  abbrev noted : ReadFrom → Fallible ℕ → List Read → List Read
  noted kind (ok n) reads = record { kind = kind; processed = n } ∷ reads
  noted kind (err e) reads = reads

  consumed-reads :
      (kind : ReadFrom) (read : ReadAnswer) (w : Worlds)
      → (consumed r H handler unmarshal opts group kind read w).1.reads
        ≡ noted kind (consumed r H handler unmarshal opts group kind read w).0 w.reads
  unfolding consumed
  consumed-reads kind nothing w = refl
  consumed-reads kind (read_error e) w = refl
  consumed-reads kind (streams found) w = ground (arith, messages-reads (all_messages found) w)

  consume-reads :
      (kind : ReadFrom) (block : ℤ) (w : Worlds)
      → (consumes kind block w).1.reads ≡ noted kind (consumes kind block w).0 w.reads
  unfolding consume
  consume-reads kind block w =
      let (read, s) = r.read_group opts group kind block w.server in
      consumed-reads kind read (record w { server = s })

  pending-Drained :
      (w : Worlds) → Drained w.reads → Drained (consumes pending_ones (pos 0) w).1.reads
  pending-Drained w drained = elim (Fallible-cases (consumes pending_ones (pos 0) w).0) [
    | inl (e, failed) ↦
        subst Drained
          (sym
            (consume-reads pending_ones (pos 0) w ∙ ap (λ a. noted pending_ones a w.reads) failed))
          drained
    | inr (n, done) ↦
        subst Drained
          (sym (consume-reads pending_ones (pos 0) w ∙ ap (λ a. noted pending_ones a w.reads) done))
          (tt, drained)
  ]

  new-Drained :
      (block : ℤ) (w : Worlds)
      → FoundNone w.reads
      → Drained w.reads
      → Drained (consumes new_ones block w).1.reads
  new-Drained block w none_found drained = elim (Fallible-cases (consumes new_ones block w).0) [
    | inl (e, failed) ↦
        subst Drained
          (sym (consume-reads new_ones block w ∙ ap (λ a. noted new_ones a w.reads) failed)) drained
    | inr (n, done) ↦
        subst Drained
          (sym (consume-reads new_ones block w ∙ ap (λ a. noted new_ones a w.reads) done))
          (none_found, drained)
  ]

  round-Drained :
      (w : Worlds) → Drained w.reads → Drained (round r H handler unmarshal opts group w).1.reads
  unfolding round
  round-Drained w drained =
      let w0 : Worlds = record w { server = (r.ended w.server).1 } in
      let w1 = (consumes pending_ones (pos 0) w0).1 in
      let drained1 = pending-Drained w0 drained in
      elim (Option-cases (r.ended w.server).0) [
        | inr (e, ended) ↦ rw (ended, round) drained
        | inl open_still ↦ elim (Fallible-cases (consumes pending_ones (pos 0) w0).0) [
          | inl (e, failed) ↦ rw (open_still, round) (rw (failed, round) drained1)
          | inr (suc n, done) ↦ rw (open_still, round) (rw (done, round) drained1)
          | inr (zero, done) ↦
              let drained2 =
                new-Drained opts.block w1
                  (subst FoundNone
                    (sym (
                      consume-reads pending_ones (pos 0) w0
                      ∙ ap (λ a. noted pending_ones a w.reads) done))
                    (refl, refl))
                  drained1 in
              elim (Fallible-cases (consumes new_ones opts.block w1).0) [
                | inl (e, failed) ↦
                    rw (open_still, round) (rw (done, round) (rw (failed, round) drained2))
                | inr (n, read) ↦
                    rw (open_still, round) (rw (done, round) (rw (read, round) drained2))
              ]
        ]
      ]

  rounds-Drained :
      (fuel : ℕ) (w : Worlds)
      → Drained w.reads
      → Drained (rounds r H handler unmarshal opts group fuel w).1.reads
  unfolding rounds
  rounds-Drained zero w drained = drained
  rounds-Drained (suc fuel) w drained =
      let next = round-Drained w drained in
      elim (Ending-cases (round r H handler unmarshal opts group w).0) [
        | inl on ↦ rw (on, rounds) (rounds-Drained fuel _ next)
        | inr (e, ended) ↦ rw (ended, rounds) next
      ]

  -- In a subscription of any length, whatever Redis answers, each read of new messages comes right
  -- behind a read of the pending ones that had none.
  pub subscribe-Drained :
      (fuel : ℕ) (w : Worlds)
      → Drained w.reads
      → Drained (subscribe_redis r H handler unmarshal opts group fuel w).1.reads
  subscribe-Drained =
      subscribe-keeps r H handler unmarshal opts group (λ w. Drained w.reads) rounds-Drained
        (λ s w drained. drained)
