-- ===== src/Kafka/Delivery/Letters.antt =====
-- The dead-letter loop of eventbus/kafka/bus.go.
use analytics_core.Prelude.{
  ℕ, zero, suc, ◌+◌, ◌≡◌, ◌⊎◌, refl, Bool, true, false, Option, none, some, [], ◌∷◌, ◌++◌, arith,
  if◌then◌else◌, Bool-cases, Option-cases, inl, inr,
}
use analytics_core.Kafka.Gate.{GateCall}
use analytics_core.Kafka.Delivery.{
  ConsumerMessage, DeadLetterRecord, Env, Run, publish_dead_letter, dead_letter_until_done,
  complete_if, not_published,
}

module _ (env : Env) (m : ConsumerMessage) where
  -- What a run of the dead-letter loop leaves: the record, if it was written, and all else alone.
  record Wrote (letter : DeadLetterRecord) (r : Run) (written : Bool) (r' : Run) : Type 0 where
    handled : r'.handled ≡ r.handled
    gate_calls : r'.gate_calls ≡ r.gate_calls
    dead_letters :
        r'.dead_letters ≡ (if written then r.dead_letters ++ letter ∷ [] else r.dead_letters)

  dead_letter-Wrote :
      (fuel i : ℕ) (letter : DeadLetterRecord) (r r' : Run) (written : Bool)
      → dead_letter_until_done env m fuel i letter r ≡ some (written, r')
      → Wrote letter r written r'
  unfolding dead_letter_until_done
  dead_letter-Wrote zero i letter r r' written h = cc
  dead_letter-Wrote (suc fuel) i letter r r' written h =
      ground (arith, dead_letter-Wrote fuel (i + 1) letter (not_published env m r) r' written)

  -- The session ended: it was seen before an attempt, or it cut a pause short.
  abbrev pub Interrupted : Type 0
  Interrupted =
      ((attempt : ℕ) × (env.cancelled attempt ≡ true))
      ⊎ (((attempt : ℕ) × (env.retry_sleep attempt ≡ false))
          ⊎ ((i : ℕ) × (env.publish_sleep i ≡ false)))

  -- The loop gives a record up only when its pause was cut short.
  dead_letter-woken :
      (fuel i : ℕ) (letter : DeadLetterRecord) (r r' : Run)
      → dead_letter_until_done env m fuel i letter r ≡ some (false, r')
      → Interrupted
  unfolding dead_letter_until_done
  dead_letter-woken zero i letter r r' h = cc
  dead_letter-woken (suc fuel) i letter r r' h =
      elim (Option-cases (publish_dead_letter env m i letter)) [
        | inl done ↦ absurd (ground (arith, done))
        | inr (e, failed) ↦ elim (Bool-cases (env.publish_sleep i)) [
          | inr woken ↦ inr (inr (i, woken))
          | inl slept ↦
              dead_letter-woken fuel (i + 1) letter (not_published env m r) r'
                (ground (arith, failed, slept))
        ]
      ]

  -- Either the record is written and the gate called, or neither is.
  pub record Settled (call : GateCall) (letter : DeadLetterRecord) (r : Run) (written : Bool)
      (r' : Run) : Type 0 where
    pub handled : r'.handled ≡ r.handled
    pub dead_letters :
        r'.dead_letters ≡ (if written then r.dead_letters ++ letter ∷ [] else r.dead_letters)
    pub gate_calls : r'.gate_calls ≡ (if written then r.gate_calls ++ call ∷ [] else r.gate_calls)
    pub interrupted : written ≡ false → Interrupted

  pub settle :
      (call : GateCall) (fuel : ℕ) (letter : DeadLetterRecord) (r r' : Run)
      → complete_if env m call (dead_letter_until_done env m fuel 0 letter r) ≡ some r'
      → (written : Bool) × Settled call letter r written r'
  settle call fuel letter r r' eq = decide (dead_letter_until_done env m fuel 0 letter r) refl eq
    where
      decide :
          (d : Option (Bool × Run))
          → dead_letter_until_done env m fuel 0 letter r ≡ d
          → complete_if env m call d ≡ some r'
          → (written : Bool) × Settled call letter r written r'
      decide none p q = unfold complete_if in cc
      decide (some (true, w)) p q =
          let h = dead_letter-Wrote fuel 0 letter r w true p in
          (
            true,
            unfold complete_if in
                record {
                  handled = ground (arith, h.handled);
                  dead_letters = ground (arith, h.dead_letters);
                  gate_calls = ground (arith, h.gate_calls);
                  interrupted = λ e. cc;
                },
          )
      decide (some (false, w)) p q =
          let h = dead_letter-Wrote fuel 0 letter r w false p in
          (
            false,
            unfold complete_if in
                record {
                  handled = ground (arith, h.handled);
                  dead_letters = ground (arith, h.dead_letters);
                  gate_calls = ground (arith, h.gate_calls);
                  interrupted = λ e. dead_letter-woken fuel 0 letter r w p;
                },
          )
