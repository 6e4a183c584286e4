-- ===== src/Storage/BatchWriter/Written.antt =====
-- What the writing of a claimed event, in storage/clickhouse/batch_writer.go, does to the tables.
use analytics_core.Prelude.{
  ◌≡◌, ◌⊎◌, refl, Bool, Option, none, some, List, [], ◌∷◌, ◌++◌, Option-cases, inl, inr,
}
use analytics_core.Contracts.{EventEnvelope}
use analytics_core.Storage.Backends.{Error, StatusKey, StatusTable, Warehouse}
use analytics_core.Storage.IngestionGuard.{status_key_from_envelope, ingestion_guard}
use analytics_core.Storage.BatchWriter.{send_batch, write_claimed_event}

-- An event of this key is in the tables.
abbrev pub Stored : StatusKey → List EventEnvelope → Type 0
Stored k [] = ⊥
Stored k (e ∷ es) = (k ≡ status_key_from_envelope e) ⊎ Stored k es

Stored-append : (k : StatusKey) (es fs : List EventEnvelope) → Stored k es → Stored k (es ++ fs)
Stored-append k [] fs x = elim x [ ]
Stored-append k (e ∷ es) fs (inl here) = inl here
Stored-append k (e ∷ es) fs (inr later) = inr (Stored-append k es fs later)

Stored-last :
    (e : EventEnvelope) (es : List EventEnvelope)
    → Stored (status_key_from_envelope e) (es ++ e ∷ [])
Stored-last e [] = inl refl
Stored-last e (d ∷ es) = inr (Stored-last e es)

module _ (t : StatusTable) (w : Warehouse EventEnvelope) (guarded : Bool)
    (route : EventEnvelope → Option Error) (marshal : EventEnvelope → Option Error) where
  abbrev pub writes : EventEnvelope → w.State → Option Error × w.State
  writes = write_claimed_event (ingestion_guard t) w guarded route marshal

  -- The tables keep what they hold, and gain the event if the answer is nil.
  pub record Written (envelope : EventEnvelope) (s : w.State) (r : Option Error × w.State)
      : Type 0 where
    pub keeps : (k : StatusKey) → Stored k (w.batches s) → Stored k (w.batches r.1)
    pub gains : r.0 ≡ none → Stored (status_key_from_envelope envelope) (w.batches r.1)

  -- A statement that answers an error and may have been applied.
  same-Stored :
      (envelope : EventEnvelope) (k : StatusKey) (es fs : List EventEnvelope)
      → (fs ≡ es) ⊎ (fs ≡ es ++ envelope ∷ [])
      → Stored k es
      → Stored k fs
  same-Stored envelope k es fs (inl same) h = rw same h
  same-Stored envelope k es fs (inr more) h = rw more (Stored-append k es (envelope ∷ []) h)

  send_only-Written :
      (envelope : EventEnvelope) (s : w.State) → Written envelope s (w.send envelope s)
  send_only-Written envelope s = elim (Option-cases (w.send envelope s).0) [
    | inr (e, failed) ↦ record {
      keeps = λ k h. same-Stored envelope k (w.batches s) _ (w.send_fails envelope s e failed) h;
      gains = λ e. absurd cc;
    }
    | inl done ↦ record {
      keeps =
          λ k h. same-Stored envelope k (w.batches s) _ (inr (w.send_applies envelope s done)) h;
      gains = λ e. rw (w.send_applies envelope s done) (Stored-last envelope (w.batches s));
    }
  ]

  -- A statement before it that changes no table.
  Written-later :
      (envelope : EventEnvelope) (s s' : w.State) (r : Option Error × w.State)
      → w.batches s' ≡ w.batches s
      → Written envelope s' r
      → Written envelope s r
  Written-later envelope s s' r same h = record {
    keeps = λ k at. h.keeps k (rw same at);
    gains = h.gains;
  }

  -- An answer that is an error.
  Written-failed :
      (envelope : EventEnvelope) (s s' : w.State) (e : Error)
      → w.batches s' ≡ w.batches s
      → Written envelope s (some e, s')
  Written-failed envelope s s' e same = record {
    keeps = λ k at. rw same at;
    gains = λ none_is. absurd cc;
  }

  send-Written :
      (envelope : EventEnvelope) (s : w.State)
      → Written envelope s (send_batch (ingestion_guard t) w guarded route marshal envelope s)
  unfolding send_batch
  send-Written envelope s = elim (Option-cases (w.append envelope s).0) [
    | inr (e, failed) ↦
        rw (failed, send_batch) (Written-failed envelope s _ e (w.append_reads envelope s))
    | inl done ↦
        rw (done, send_batch)
          (Written-later envelope s (w.append envelope s).1 _ (w.append_reads envelope s)
            (send_only-Written envelope (w.append envelope s).1))
  ]

  pub write-Written :
      (envelope : EventEnvelope) (s : w.State) → Written envelope s (writes envelope s)
  unfolding write_claimed_event
  write-Written envelope s = elim (Option-cases (route envelope)) [
    | inr (e, failed) ↦ rw (failed, write_claimed_event) (Written-failed envelope s s e refl)
    | inl routed ↦ elim (Option-cases (w.prepare envelope s).0) [
      | inr (e, failed) ↦
          rw (routed, write_claimed_event)
            (rw (failed, write_claimed_event)
              (Written-failed envelope s _ e (w.prepare_reads envelope s)))
      | inl prepared ↦ elim (Option-cases (marshal envelope)) [
        | inr (e, failed) ↦
            rw (routed, write_claimed_event)
              (rw (prepared, write_claimed_event)
                (rw (failed, write_claimed_event)
                  (Written-failed envelope s _ e (w.prepare_reads envelope s))))
        | inl good ↦
            rw (routed, write_claimed_event)
              (rw (prepared, write_claimed_event)
                (rw (good, write_claimed_event)
                  (Written-later envelope s (w.prepare envelope s).1 _ (w.prepare_reads envelope s)
                    (send-Written envelope (w.prepare envelope s).1))))
      ]
    ]
  ]
