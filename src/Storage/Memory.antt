-- ===== src/Storage/Memory.antt =====
-- A status table and a warehouse in memory, whose statements fail as a list of answers says: they
-- have the laws of the interfaces.
use analytics_core.Prelude.{
  ◌≡◌, ◌≢◌, ◌<◌, ap, refl, Bool, Option, none, some, List, [], ◌∷◌, ◌++◌, arith, if◌then◌else◌,
  Option-cases, inl, inr, Dict, lookup, insert, lookup-insert,
}
use analytics_core.Storage.Backends.{
  Error, StatusKey, StatusRow, Result, StatusTable, Warehouse, change, key_eq, key_beq_iff,
}

-- The answers to come; after them nothing fails.
abbrev pub Answers : Type 0
Answers = List (Option Error)

abbrev pub answer : Answers → Option Error
answer [] = none
answer (a ∷ later) = a

abbrev pub rest : Answers → Answers
rest [] = []
rest (a ∷ later) = later

pub record Rows : Type 0 where
  pub answers : Answers
  pub rows : Dict StatusKey StatusRow

abbrev pub missing_row : StatusRow
missing_row = record { status = []; attempt = 0; last_error = []; received_at = 0 }

unfoldable pub create_row : StatusKey → StatusRow → Rows → Result × Rows
create_row k row s =
    let after : Rows = record s { answers = rest s.answers } in
    elim (answer s.answers) [
      | some e ↦ (record { error = some e; rows_affected = 0 }, after)
      | none ↦ elim (lookup k s.rows) [
        | some old ↦ (record { error = none; rows_affected = 0 }, after)
        | none ↦ (
          record { error = none; rows_affected = 1 },
          record after { rows = insert k row s.rows },
        )
      ]
    ]

unfoldable pub first_row : StatusKey → Rows → Option Error × StatusRow × Rows
first_row k s =
    let after : Rows = record s { answers = rest s.answers } in
    elim (answer s.answers) [
      | some e ↦ (some e, missing_row, after)
      | none ↦ elim (lookup k s.rows) [
        | some row ↦ (none, row, after)
        | none ↦ (some [], missing_row, after)
      ]
    ]

unfoldable pub update_row :
    StatusKey → (StatusRow → Bool) → (StatusRow → StatusRow) → Rows → Result × Rows
update_row k test f s =
    let after : Rows = record s { answers = rest s.answers } in
    elim (answer s.answers) [
      | some e ↦ (record { error = some e; rows_affected = 0 }, after)
      | none ↦ elim (lookup k s.rows) [
        | none ↦ (record { error = none; rows_affected = 0 }, after)
        | some row ↦
            if test row
            then (
              record { error = none; rows_affected = 1 },
              record after { rows = insert k (f row) s.rows },
            )
            else (record { error = none; rows_affected = 0 }, after)
      ]
    ]

pub create-inserts :
    (k : StatusKey) (row : StatusRow) (s : Rows)
    → (create_row k row s).0.error ≡ none
    → 0 < (create_row k row s).0.rows_affected
    → (lookup k s.rows ≡ none) × (lookup k (create_row k row s).1.rows ≡ some row)
unfolding create_row
create-inserts k row s e n = ground (arith, lookup-insert k k row s.rows, key_beq_iff k k)

pub create-conflicts :
    (k : StatusKey) (row : StatusRow) (s : Rows)
    → (create_row k row s).0.error ≡ none
    → (create_row k row s).0.rows_affected ≡ 0
    → lookup k (create_row k row s).1.rows ≡ lookup k s.rows
unfolding create_row
create-conflicts k row s e n = ground arith

pub create-fails :
    (k : StatusKey) (row : StatusRow) (s : Rows) (e : Error)
    → (create_row k row s).0.error ≡ some e
    → lookup k (create_row k row s).1.rows ≡ lookup k s.rows
unfolding create_row
create-fails k row s e n = ground arith

pub create-elsewhere :
    (k : StatusKey) (row : StatusRow) (s : Rows) (j : StatusKey)
    → j ≢ k
    → lookup j (create_row k row s).1.rows ≡ lookup j s.rows
unfolding create_row
create-elsewhere k row s j ne = ground (arith, lookup-insert k j row s.rows, key_beq_iff k j)

pub first-finds :
    (k : StatusKey) (s : Rows) → (first_row k s).0 ≡ none → lookup k s.rows ≡ some (first_row k s).1
unfolding first_row
first-finds k s e = ground arith

pub first-reads : (k : StatusKey) (s : Rows) → (first_row k s).2.rows ≡ s.rows
unfolding first_row
first-reads k s = ground arith

pub update-applies :
    (k : StatusKey) (test : StatusRow → Bool) (f : StatusRow → StatusRow) (s : Rows)
    → (update_row k test f s).0.error ≡ none
    → lookup k (update_row k test f s).1.rows ≡ change test f (lookup k s.rows)
unfolding update_row
update-applies k test f s e = elim (Option-cases (lookup k s.rows)) [
  | inl absent ↦ ground (arith, absent)
  | inr (row, found) ↦ ground (arith, found, lookup-insert k k (f row) s.rows, key_beq_iff k k)
]

pub update-fails :
    (k : StatusKey) (test : StatusRow → Bool) (f : StatusRow → StatusRow) (s : Rows) (e : Error)
    → (update_row k test f s).0.error ≡ some e
    → lookup k (update_row k test f s).1.rows ≡ lookup k s.rows
unfolding update_row
update-fails k test f s e n = ground arith

pub update-elsewhere :
    (k : StatusKey) (test : StatusRow → Bool) (f : StatusRow → StatusRow) (s : Rows) (j : StatusKey)
    → j ≢ k
    → lookup j (update_row k test f s).1.rows ≡ lookup j s.rows
unfolding update_row
update-elsewhere k test f s j ne = elim (Option-cases (lookup k s.rows)) [
  | inl absent ↦ ground (arith, absent)
  | inr (row, found) ↦ ground (arith, found, lookup-insert k j (f row) s.rows, key_beq_iff k j)
]

abbrev pub memory_table : StatusTable
memory_table = record {
  State = Rows;
  row_of = λ s k. lookup k s.rows;
  create = create_row;
  first = first_row;
  updates = update_row;
  create_inserts = create-inserts;
  create_conflicts = create-conflicts;
  create_fails = λ k row s e n. inl (create-fails k row s e n);
  create_elsewhere = create-elsewhere;
  first_finds = first-finds;
  first_reads = λ k s j. ap (lookup j) (first-reads k s);
  updates_applies = update-applies;
  updates_fails = λ k test f s e n. inl (update-fails k test f s e n);
  updates_elsewhere = update-elsewhere;
}

pub record Sent (B : Type 0) : Type 0 where
  pub answers : Answers
  pub batches : List B

module _ {B : Type 0} where
  unfoldable pub ask : B → Sent B → Option Error × Sent B
  ask b s = (answer s.answers, record s { answers = rest s.answers })

  unfoldable pub send : B → Sent B → Option Error × Sent B
  send b s = elim (answer s.answers) [
    | some e ↦ (some e, record s { answers = rest s.answers })
    | none ↦ (none, record { answers = rest s.answers; batches = s.batches ++ b ∷ [] })
  ]

  pub ask-reads : (b : B) (s : Sent B) → (ask b s).1.batches ≡ s.batches
  unfolding ask
  ask-reads b s = refl

  pub send-applies :
      (b : B) (s : Sent B) → (send b s).0 ≡ none → (send b s).1.batches ≡ s.batches ++ b ∷ []
  unfolding send
  send-applies b s h = ground arith

  pub send-fails :
      (b : B) (s : Sent B) (e : Error) → (send b s).0 ≡ some e → (send b s).1.batches ≡ s.batches
  unfolding send
  send-fails b s e h = ground arith

abbrev pub memory_warehouse : (B : Type 0) → Warehouse B
memory_warehouse B = record {
  State = Sent B;
  batches = λ s. s.batches;
  prepare = ask;
  append = ask;
  send = send;
  prepare_reads = ask-reads;
  append_reads = ask-reads;
  send_applies = send-applies;
  send_fails = λ b s e h. inl (send-fails b s e h);
}
