-- ===== src/Storage/IngestionGuard/Claims.antt =====
-- What the calls on the guard of storage/mysql/ingestion_status_guard.go do to the status rows.
use analytics_core.Prelude.{
  ◌≡◌, ◌⊎◌, ◌∙◌, refl, Bool, true, false, Option, none, some, ltb, arith, text_beq, Bool-cases,
  Option-cases, inl, inr,
}
use analytics_core.Contracts.{EventEnvelope}
use analytics_core.Storage.Backends.{
  Error, StatusKey, StatusRow, StatusTable, Fallible, ok, err, change, key_cases,
}
use analytics_core.Storage.IngestionGuard.{
  Claim, ingestion_status_inserted, status_key_from_envelope, claimed_row, any_row, reclaimed,
  committed, rolled_back, fresh_claim, reclaim_status, existing_status, claim_row,
  start_event_write, commit, rollback, validate_status_envelope,
}

abbrev pub has_inserted : Option StatusRow → Bool
has_inserted none = false
has_inserted (some row) = text_beq row.status ingestion_status_inserted

abbrev pub has_row : Option StatusRow → Bool
has_row none = false
has_row (some row) = true

module _ (t : StatusTable) where
  open t use {State, row_of, create, first, updates}

  -- The row of the key records a durable append.
  abbrev pub IsInserted : State → StatusKey → Type 0
  IsInserted s k = has_inserted (row_of s k) ≡ true

  -- No key becomes inserted.
  abbrev pub InsertsNothing : State → State → Type 0
  InsertsNothing s s' = (k : StatusKey) → IsInserted s' k → IsInserted s k

  -- An update, whatever it answers, is applied or not.
  updates_either :
      (k : StatusKey) (f : StatusRow → StatusRow) (s : State)
      → (row_of (updates k any_row f s).1 k ≡ row_of s k)
        ⊎ (row_of (updates k any_row f s).1 k ≡ change any_row f (row_of s k))
  updates_either k f s = elim (Option-cases (updates k any_row f s).0.error) [
    | inl done ↦ inr (t.updates_applies k any_row f s done)
    | inr (e, failed) ↦ t.updates_fails k any_row f s e failed
  ]

  -- A row that no update makes inserted.
  changed-has_inserted :
      (f : StatusRow → StatusRow) (o : Option StatusRow)
      → ((row : StatusRow) → has_inserted (some (f row)) ≡ false)
      → has_inserted (change any_row f o) ≡ false
  changed-has_inserted f none kept = refl
  changed-has_inserted f (some row) kept = kept row

  updates-InsertsNothing :
      (k : StatusKey) (f : StatusRow → StatusRow) (s : State)
      → ((row : StatusRow) → has_inserted (some (f row)) ≡ false)
      → InsertsNothing s (updates k any_row f s).1
  updates-InsertsNothing k f s kept j h = elim (key_cases j k) [
    | inr differ ↦ cc (t.updates_elsewhere k any_row f s j differ)
    | inl same ↦ elim (updates_either k f s) [
      | inl left ↦ cc
      | inr changed ↦ cc (changed-has_inserted f (row_of s k) kept)
    ]
  ]

  create-InsertsNothing :
      (k : StatusKey) (row : StatusRow) (s : State)
      → has_inserted (some row) ≡ false
      → InsertsNothing s (create k row s).1
  create-InsertsNothing k row s kept j h = elim (key_cases j k) [
    | inr differ ↦ cc (t.create_elsewhere k row s j differ)
    | inl same ↦ elim (Option-cases (create k row s).0.error) [
      | inr (e, failed) ↦ elim (t.create_fails k row s e failed) [
        | inl left ↦ cc
        | inr (absent, made) ↦ cc
      ]
      | inl done ↦ elim (Bool-cases (ltb 0 (create k row s).0.rows_affected)) [
        | inl inserted ↦ cc ((t.create_inserts k row s done (ground arith)).1)
        | inr conflicts ↦ cc (t.create_conflicts k row s done (ground arith))
      ]
    ]
  ]

  first-InsertsNothing : (k : StatusKey) (s : State) → InsertsNothing s (first k s).2
  first-InsertsNothing k s j h = cc (t.first_reads k s j)

  has_row-change :
      (f : StatusRow → StatusRow) (o : Option StatusRow) → has_row (change any_row f o) ≡ has_row o
  has_row-change f none = refl
  has_row-change f (some row) = refl

  updates-has_row :
      (k : StatusKey) (f : StatusRow → StatusRow) (s : State)
      → has_row (row_of (updates k any_row f s).1 k) ≡ has_row (row_of s k)
  updates-has_row k f s = elim (updates_either k f s) [
    | inl left ↦ rw left refl
    | inr changed ↦ rw changed (has_row-change f (row_of s k))
  ]

  -- What a claim says: it is for the event, a row that it reports as inserted is, and there is a
  -- row.
  abbrev pub IsClaimFor : EventEnvelope → Fallible (Option Claim) × State → Type 0
  IsClaimFor envelope (err e, s) = Unit
  IsClaimFor envelope (ok none, s) = Unit
  IsClaimFor envelope (ok (some claim), s) =
      (claim.key ≡ status_key_from_envelope envelope)
      × (claim.already_inserted ≡ true → IsInserted s (status_key_from_envelope envelope))
      × (has_row (row_of s (status_key_from_envelope envelope)) ≡ true)

  pub record Started (envelope : EventEnvelope) (s : State) (r : Fallible (Option Claim) × State)
      : Type 0 where
    pub nothing : InsertsNothing s r.1
    pub claimed : IsClaimFor envelope r

  reclaim-Started :
      (envelope : EventEnvelope) (s : State)
      → has_row (row_of s (status_key_from_envelope envelope)) ≡ true
      → Started envelope s (reclaim_status t envelope s)
  unfolding reclaim_status text_beq
  reclaim-Started envelope s there =
      let quiet =
        updates-InsertsNothing (status_key_from_envelope envelope) reclaimed s (λ row. refl) in
      elim (Option-cases
        (updates (status_key_from_envelope envelope) any_row reclaimed s).0.error) [
          | inl done ↦
              rw (done, reclaim_status)
                (record {
                  nothing = quiet;
                  claimed = (
                    refl,
                    λ e. cc,
                    updates-has_row (status_key_from_envelope envelope) reclaimed s ∙ there,
                  );
                })
          | inr (e, failed) ↦ rw (failed, reclaim_status) (record { nothing = quiet; claimed = tt })
        ]

  existing-Started :
      (envelope : EventEnvelope) (s : State) → Started envelope s (existing_status t envelope s)
  unfolding existing_status
  existing-Started envelope s =
      let k = status_key_from_envelope envelope in
      let s' = (first k s).2 in
      let quiet = first-InsertsNothing k s in
      elim (Option-cases (first k s).0) [
        | inr (e, failed) ↦ rw (failed, existing_status) (record { nothing = quiet; claimed = tt })
        | inl done ↦ elim (Bool-cases (text_beq (first k s).1.status ingestion_status_inserted)) [
          | inl inserted ↦
              rw (done, existing_status)
                (rw inserted (record {
                  nothing = quiet;
                  claimed = (
                    refl,
                    λ e. rw (t.first_reads k s k, t.first_finds k s done) inserted,
                    rw (t.first_reads k s k, t.first_finds k s done) refl,
                  );
                }))
          | inr other ↦
              let later =
                reclaim-Started envelope s'
                  (rw (t.first_reads k s k, t.first_finds k s done) refl) in
              rw (done, existing_status)
                (rw other (record {
                  nothing = λ j h. quiet j (later.nothing j h);
                  claimed = later.claimed;
                }))
        ]
      ]

  claim_row-Started :
      (envelope : EventEnvelope) (s : State) → Started envelope s (claim_row t envelope s)
  unfolding claim_row text_beq
  claim_row-Started envelope s =
      let k = status_key_from_envelope envelope in
      let r = create k (claimed_row envelope) s in
      let quiet = create-InsertsNothing k (claimed_row envelope) s refl in
      elim (Option-cases r.0.error) [
        | inr (e, failed) ↦ rw (failed, claim_row) (record { nothing = quiet; claimed = tt })
        | inl done ↦ elim (Bool-cases (ltb 0 r.0.rows_affected)) [
          | inl inserted ↦
              rw (done, claim_row)
                (rw inserted (record {
                  nothing = quiet;
                  claimed = (
                    refl,
                    λ e. cc,
                    rw ((t.create_inserts k (claimed_row envelope) s done (ground arith)).1) refl,
                  );
                }))
          | inr conflicts ↦
              let later = existing-Started envelope r.1 in
              rw (done, claim_row)
                (rw conflicts (record {
                  nothing = λ j h. quiet j (later.nothing j h);
                  claimed = later.claimed;
                }))
        ]
      ]

  pub start-Started :
      (envelope : EventEnvelope) (s : State) → Started envelope s (start_event_write t envelope s)
  unfolding start_event_write
  start-Started envelope s = elim (Option-cases (validate_status_envelope envelope)) [
    | inr (e, invalid) ↦
        rw (invalid, start_event_write) (record { nothing = λ j h. h; claimed = tt })
    | inl valid ↦ rw (valid, start_event_write) (claim_row-Started envelope s)
  ]

  pub rollback-InsertsNothing :
      (claim : Claim) (cause : Error) (s : State) → InsertsNothing s (rollback t claim cause s).1
  unfolding rollback rolled_back text_beq
  rollback-InsertsNothing claim cause s =
      let quiet = updates-InsertsNothing claim.key (rolled_back cause) s (λ row. refl) in
      elim (Bool-cases claim.already_inserted) [
        | inl inserted ↦ rw inserted (λ j h. h)
        | inr fresh ↦ rw fresh quiet
      ]

  -- A commit makes its own key inserted at most.
  pub commit-IsInserted :
      (claim : Claim) (s : State) (j : StatusKey)
      → IsInserted (commit t claim s).1 j
      → (j ≡ claim.key) ⊎ IsInserted s j
  unfolding commit
  commit-IsInserted claim s j h = elim (key_cases j claim.key) [
    | inl same ↦ inl same
    | inr differ ↦ elim (Bool-cases claim.already_inserted) [
      | inl inserted ↦ inr (rw inserted at h)
      | inr fresh ↦ inr (cc (t.updates_elsewhere claim.key any_row committed s j differ, fresh))
    ]
  ]

  -- A commit of a fresh claim that answers no error makes the row inserted, if there is one.
  pub commit-inserts :
      (claim : Claim) (s : State)
      → claim.already_inserted ≡ false
      → has_row (row_of s claim.key) ≡ true
      → (commit t claim s).0 ≡ none
      → IsInserted (commit t claim s).1 claim.key
  unfolding commit text_beq
  commit-inserts claim s fresh there done =
      let applied : (updates claim.key any_row committed s).0.error ≡ none = (rw fresh at done) in
      rw fresh (
        rw (t.updates_applies claim.key any_row committed s applied)
          (after (row_of s claim.key) there))
    where
      after :
          (o : Option StatusRow)
          → has_row o ≡ true
          → has_inserted (change any_row committed o) ≡ true
      after none there = there
      after (some row) there = refl

  -- The claim of an event whose row says that it is inserted, if the statements answer no error.
  pub start-inserted :
      (envelope : EventEnvelope) (s : State)
      → validate_status_envelope envelope ≡ none
      → IsInserted s (status_key_from_envelope envelope)
      → let r = create (status_key_from_envelope envelope) (claimed_row envelope) s in
        r.0.error ≡ none
        → (first (status_key_from_envelope envelope) r.1).0 ≡ none
        → (start_event_write t envelope s).0 ≡ ok (fresh_claim t envelope true)
  unfolding start_event_write claim_row existing_status
  start-inserted envelope s valid recorded created found =
      let k = status_key_from_envelope envelope in
      let r = create k (claimed_row envelope) s in
      elim (Bool-cases (ltb 0 r.0.rows_affected)) [
        | inl inserted ↦
            absurd (
              cc (recorded, (t.create_inserts k (claimed_row envelope) s created (ground arith)).0))
        | inr conflicts ↦
            let same = t.create_conflicts k (claimed_row envelope) s created (ground arith) in
            let here = t.first_finds k r.1 found in
            let status : text_beq (first k r.1).1.status ingestion_status_inserted ≡ true =
              rw (← same, here) at recorded in
            rw (valid, start_event_write)
              (rw (created, claim_row)
                (rw conflicts (rw (found, existing_status) (rw status refl))))
      ]
