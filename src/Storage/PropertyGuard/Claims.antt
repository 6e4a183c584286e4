-- ===== src/Storage/PropertyGuard/Claims.antt =====
-- What the calls on the guard of storage/mysql/property_indexing_status_guard.go do to the status rows.
use analytics_core.Prelude.{
  ◌≡◌, ◌≢◌, ◌⊎◌, refl, sym, ap, ◌∙◌, Bool, true, false, not, Option, none, some, ◌==◌, ltb, arith,
  text_beq, Bool-cases, Option-cases, inl, inr,
}
use analytics_core.Contracts.{EventEnvelope}
use analytics_core.Storage.Backends.{
  Error, StatusKey, StatusRow, StatusTable, Fallible, ok, err, change, key_cases,
}
use analytics_core.Storage.IngestionGuard.{
  Claim, status_key_from_envelope, claimed_row, any_row, reclaimed, committed, rolled_back,
  validate_status_envelope, ingestion_status_inserted,
}
use analytics_core.Storage.PropertyGuard.{
  is_failed, reclaim_failed_status, existing_property_status, claim_property_row,
  start_property_write, commit_properties, rollback_properties,
}

-- A row that no claim takes: it is there and has not failed.
abbrev pub is_held : Option StatusRow → Bool
is_held none = false
is_held (some row) = not (is_failed row)

module _ (t : StatusTable) where
  open t use {State, row_of, create, first, updates}

  -- Every held row stays held.
  abbrev pub Keeps : State → State → Type 0
  Keeps s s' = (j : StatusKey) → is_held (row_of s j) ≡ true → is_held (row_of s' j) ≡ true

  updates-either :
      (k : StatusKey) (test : StatusRow → Bool) (f : StatusRow → StatusRow) (s : State)
      → (row_of (updates k test f s).1 k ≡ row_of s k)
        ⊎ (row_of (updates k test f s).1 k ≡ change test f (row_of s k))
  updates-either k test f s = elim (Option-cases (updates k test f s).0.error) [
    | inl done ↦ inr (t.updates_applies k test f s done)
    | inr (e, failed) ↦ t.updates_fails k test f s e failed
  ]

  change-is_held :
      (test : StatusRow → Bool) (f : StatusRow → StatusRow) (o : Option StatusRow)
      → ((row : StatusRow) → is_held (some (f row)) ≡ true)
      → is_held o ≡ true
      → is_held (change test f o) ≡ true
  change-is_held test f none kept h = h
  change-is_held test f (some row) kept h = elim (Bool-cases (test row)) [
    | inl passes ↦ rw passes (kept row)
    | inr not_it ↦ rw not_it h
  ]

  updates-Keeps :
      (k : StatusKey) (test : StatusRow → Bool) (f : StatusRow → StatusRow) (s : State)
      → ((row : StatusRow) → is_held (some (f row)) ≡ true)
      → Keeps s (updates k test f s).1
  updates-Keeps k test f s kept j h = elim (key_cases j k) [
    | inr differ ↦ cc (t.updates_elsewhere k test f s j differ)
    | inl same ↦ elim (updates-either k test f s) [
      | inl left ↦ cc
      | inr changed ↦ cc (change-is_held test f (row_of s k) kept (cc (same, h)))
    ]
  ]

  create-Keeps : (k : StatusKey) (row : StatusRow) (s : State) → Keeps s (create k row s).1
  create-Keeps k row s j h = elim (key_cases j k) [
    | inr differ ↦ cc (t.create_elsewhere k row s j differ)
    | inl same ↦ elim (Option-cases (create k row s).0.error) [
      | inr (e, failed) ↦ elim (t.create_fails k row s e failed) [
        | inl left ↦ cc
        | inr (absent, made) ↦ cc
      ]
      | inl done ↦ elim (Bool-cases (ltb 0 (create k row s).0.rows_affected)) [
        | inl inserted ↦ cc ((t.create_inserts k row s done (ground arith)).0)
        | inr conflicts ↦ cc (t.create_conflicts k row s done (ground arith))
      ]
    ]
  ]

  -- A fresh claim is for the event; its row was not held before, and is now.
  abbrev pub IsFresh : EventEnvelope → State → Fallible (Option Claim) × State → Type 0
  IsFresh envelope s (err e, s') = Unit
  IsFresh envelope s (ok none, s') = Unit
  IsFresh envelope s (ok (some claim), s') =
      claim.already_inserted ≡ false
      → (claim.key ≡ status_key_from_envelope envelope)
        × (is_held (row_of s (status_key_from_envelope envelope)) ≡ false)
        × (is_held (row_of s' (status_key_from_envelope envelope)) ≡ true)

  pub record Started (envelope : EventEnvelope) (s : State) (r : Fallible (Option Claim) × State)
      : Type 0 where
    pub keeps : Keeps s r.1
    pub fresh : IsFresh envelope s r

  failed-change :
      (o : Option StatusRow) (row : StatusRow)
      → o ≡ some row
      → is_failed row ≡ true
      → (is_held o ≡ false) × (is_held (change is_failed reclaimed o) ≡ true)
  unfolding text_beq
  failed-change o row same bad = rw same (rw bad (refl, refl))

  reclaim-Started :
      (envelope : EventEnvelope) (row : StatusRow) (s : State)
      → row_of s (status_key_from_envelope envelope) ≡ some row
      → is_failed row ≡ true
      → Started envelope s (reclaim_failed_status t envelope s)
  unfolding reclaim_failed_status text_beq
  reclaim-Started envelope row s found bad =
      let k = status_key_from_envelope envelope in
      let r = updates k is_failed reclaimed s in
      let keeps = updates-Keeps k is_failed reclaimed s (λ old. refl) in
      elim (Option-cases r.0.error) [
        | inr (e, failed) ↦
            rw (failed, reclaim_failed_status) (record { keeps = keeps; fresh = tt })
        | inl done ↦ elim (Bool-cases (r.0.rows_affected == 1)) [
          | inr none_is ↦
              rw (done, reclaim_failed_status)
                (rw (none_is, reclaim_failed_status) (record { keeps = keeps; fresh = tt }))
          | inl one ↦
              let (before, after) = failed-change (row_of s k) row found bad in
              rw (done, reclaim_failed_status)
                (rw (one, reclaim_failed_status)
                  (record {
                    keeps = keeps;
                    fresh = λ e.
                        (refl, before, rw (t.updates_applies k is_failed reclaimed s done) after);
                  }))
        ]
      ]

  Started-later :
      (envelope : EventEnvelope) (s s' : State) (r : Fallible (Option Claim) × State)
      → ((j : StatusKey) → row_of s' j ≡ row_of s j)
      → Started envelope s' r
      → Started envelope s r
  Started-later envelope s s' r same later = record {
    keeps = λ j h. later.keeps j (cc (same j, h));
    fresh = go r later.fresh;
  }
    where
      go : (q : Fallible (Option Claim) × State) → IsFresh envelope s' q → IsFresh envelope s q
      go (err e, q) h = tt
      go (ok none, q) h = tt
      go (ok (some claim), q) h = λ e.
          let (key, before, after) = h e in
          (key, ap is_held (sym (same (status_key_from_envelope envelope))) ∙ before, after)

  existing-Started :
      (envelope : EventEnvelope) (s : State)
      → Started envelope s (existing_property_status t envelope s)
  unfolding existing_property_status
  existing-Started envelope s =
      let k = status_key_from_envelope envelope in
      let s' = (first k s).2 in
      let keeps : Keeps s s' = (λ j h. cc (t.first_reads k s j, h)) in
      elim (Option-cases (first k s).0) [
        | inr (e, failed) ↦
            rw (failed, existing_property_status) (record { keeps = keeps; fresh = tt })
        | inl done ↦ elim (Bool-cases (text_beq (first k s).1.status ingestion_status_inserted)) [
          | inl inserted ↦
              rw (done, existing_property_status)
                (rw (inserted, existing_property_status)
                  (record { keeps = keeps; fresh = λ e. absurd (cc e) }))
          | inr other ↦ elim (Bool-cases (is_failed (first k s).1)) [
            | inr held ↦
                rw (done, existing_property_status)
                  (rw (other, existing_property_status)
                    (rw (held, existing_property_status) (record { keeps = keeps; fresh = tt })))
            | inl bad ↦
                rw (done, existing_property_status)
                  (rw (other, existing_property_status)
                    (rw (bad, existing_property_status)
                      (Started-later envelope s s' _ (t.first_reads k s) (
                        reclaim-Started envelope (first k s).1 s'
                          (t.first_reads k s k ∙ t.first_finds k s done) bad))))
          ]
        ]
      ]

  claim-Started :
      (envelope : EventEnvelope) (s : State) → Started envelope s (claim_property_row t envelope s)
  unfolding claim_property_row text_beq
  claim-Started envelope s =
      let k = status_key_from_envelope envelope in
      let r = create k (claimed_row envelope) s in
      let keeps = create-Keeps k (claimed_row envelope) s in
      elim (Option-cases r.0.error) [
        | inr (e, failed) ↦ rw (failed, claim_property_row) (record { keeps = keeps; fresh = tt })
        | inl done ↦ elim (Bool-cases (ltb 0 r.0.rows_affected)) [
          | inl inserted ↦
              let (absent, made) =
                t.create_inserts k (claimed_row envelope) s done (ground arith) in
              rw (done, claim_property_row)
                (rw (inserted, claim_property_row)
                  (record { keeps = keeps; fresh = λ e. (refl, rw absent refl, rw made refl) }))
          | inr conflicts ↦
              let same = t.create_conflicts k (claimed_row envelope) s done (ground arith) in
              rw (done, claim_property_row)
                (rw (conflicts, claim_property_row)
                  (Started-later envelope s r.1 _ (everywhere same)
                    (existing-Started envelope r.1)))
        ]
      ]
    where
      everywhere :
          row_of
              (create (status_key_from_envelope envelope) (claimed_row envelope) s).1
              (status_key_from_envelope envelope)
            ≡ row_of s (status_key_from_envelope envelope)
          → (j : StatusKey)
          → row_of (create (status_key_from_envelope envelope) (claimed_row envelope) s).1 j
            ≡ row_of s j
      everywhere same j = elim (key_cases j (status_key_from_envelope envelope)) [
        | inl here ↦ cc
        | inr there ↦
            t.create_elsewhere (status_key_from_envelope envelope) (claimed_row envelope) s j there
      ]

  pub start-Started :
      (envelope : EventEnvelope) (s : State)
      → Started envelope s (start_property_write t envelope s)
  unfolding start_property_write
  start-Started envelope s = elim (Option-cases (validate_status_envelope envelope)) [
    | inr (e, invalid) ↦
        rw (invalid, start_property_write) (record { keeps = λ j h. h; fresh = tt })
    | inl valid ↦ rw (valid, start_property_write) (claim-Started envelope s)
  ]

  pub commit-Keeps : (claim : Claim) (s : State) → Keeps s (commit_properties t claim s).1
  unfolding commit_properties text_beq
  commit-Keeps claim s =
      let keeps = updates-Keeps claim.key any_row committed s (λ row. refl) in
      elim (Bool-cases claim.already_inserted) [
        | inl inserted ↦ rw inserted (λ j h. h)
        | inr fresh ↦ rw fresh keeps
      ]

  -- A roll-back leaves the other rows alone.
  pub rollback-elsewhere :
      (claim : Claim) (cause : Error) (s : State) (j : StatusKey)
      → j ≢ claim.key
      → row_of (rollback_properties t claim cause s).1 j ≡ row_of s j
  unfolding rollback_properties
  rollback-elsewhere claim cause s j ne = elim (Bool-cases claim.already_inserted) [
    | inl inserted ↦ rw inserted refl
    | inr fresh ↦ rw fresh (t.updates_elsewhere claim.key any_row (rolled_back cause) s j ne)
  ]
