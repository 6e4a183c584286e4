-- ===== src/Storage/PropertyIndexing/Counts.antt =====
-- How many batches of property rows an event has, beside the status row that guards it.
use analytics_core.Prelude.{
  ℕ, ◌+◌, ◌≤◌, ◌<◌, ◌≡◌, ◌≢◌, ap, Bool, true, false, List, [], ◌∷◌, ◌++◌, ltb, arith, if◌then◌else◌,
  Bool-cases, inl, inr,
}
use analytics_core.Storage.Backends.{StatusKey, StatusTable, key_beq, key_beq_iff, key_cases}
use analytics_core.Storage.Property.{EventPropertyRecord}
use analytics_core.Storage.PropertyGuard.Claims.{is_held, Keeps}
use analytics_core.Storage.Property.Ownership.{record_key}

-- A batch is of the event of its first row.
abbrev pub batch_of : StatusKey → List EventPropertyRecord → Bool
batch_of k [] = false
batch_of k (r ∷ rs) = key_beq (record_key r) k

-- How many batches of an event there are.
abbrev pub count : StatusKey → List (List EventPropertyRecord) → ℕ
count k [] = 0
count k (b ∷ bs) = (if batch_of k b then 1 else 0) + count k bs

count-append :
    (k : StatusKey) (bs : List (List EventPropertyRecord)) (b : List EventPropertyRecord)
    → count k (bs ++ b ∷ []) ≡ count k bs + (if batch_of k b then 1 else 0)
count-append k [] b = omega arith
count-append k (c ∷ bs) b = omega (arith, count-append k bs b)

module _ (t : StatusTable) where
  -- Each event has one batch at most, and its row is held if it has one.
  abbrev pub OncePerEvent : t.State → List (List EventPropertyRecord) → Type 0
  OncePerEvent s bs =
      (k : StatusKey) → (count k bs ≤ 1) × (0 < count k bs → is_held (t.row_of s k) ≡ true)

  pub Keeps-Once :
      (s s' : t.State) (bs : List (List EventPropertyRecord))
      → Keeps t s s'
      → OncePerEvent s bs
      → OncePerEvent s' bs
  Keeps-Once s s' bs keeps h k = ((h k).0, λ some_is. keeps k ((h k).1 some_is))

  -- A row that is not held has no batch.
  pub free-count :
      (s : t.State) (bs : List (List EventPropertyRecord)) (k : StatusKey)
      → OncePerEvent s bs
      → is_held (t.row_of s k) ≡ false
      → count k bs ≡ 0
  free-count s bs k h free = elim (Bool-cases (ltb 0 (count k bs))) [
    | inl some_is ↦ absurd (cc ((h k).1 (ground (arith, some_is)), free))
    | inr none_is ↦ ground (arith, none_is)
  ]

  -- The batch of an event that has none, behind a row that is held.
  pub append-Once :
      (s : t.State) (bs : List (List EventPropertyRecord)) (r : EventPropertyRecord)
      (rs : List EventPropertyRecord)
      → OncePerEvent s bs
      → count (record_key r) bs ≡ 0
      → is_held (t.row_of s (record_key r)) ≡ true
      → OncePerEvent s (bs ++ (r ∷ rs) ∷ [])
  append-Once s bs r rs h zero_is held k = elim (Bool-cases (key_beq (record_key r) k)) [
    | inl same ↦
        let here : record_key r ≡ k = ground (arith, same, key_beq_iff (record_key r) k) in
        let none_before : count k bs ≡ 0 = cc (here, zero_is) in
        let total : count k (bs ++ (r ∷ rs) ∷ []) ≡ count k bs + 1 =
          rw same at (count-append k bs (r ∷ rs)) in
        (omega (arith, none_before, total), λ some_is. cc (here, held))
    | inr differ ↦
        let total : count k (bs ++ (r ∷ rs) ∷ []) ≡ count k bs + 0 =
          rw differ at (count-append k bs (r ∷ rs)) in
        (omega (arith, total, (h k).0), λ some_is. (h k).1 (omega (arith, total, some_is)))
  ]

  -- The row of an event without a batch may change.
  pub other-Once :
      (s s' : t.State) (bs : List (List EventPropertyRecord)) (key : StatusKey)
      → OncePerEvent s bs
      → count key bs ≡ 0
      → ((j : StatusKey) → j ≢ key → t.row_of s' j ≡ t.row_of s j)
      → OncePerEvent s' bs
  other-Once s s' bs key h none_is same k = elim (key_cases k key) [
    | inl here ↦
        ((h k).0, λ some_is. absurd (omega (arith, some_is, ap (λ j. count j bs) here, none_is)))
    | inr there ↦ ((h k).0, λ some_is. cc ((h k).1 some_is, same k there))
  ]
