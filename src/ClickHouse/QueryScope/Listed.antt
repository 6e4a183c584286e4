-- ===== src/ClickHouse/QueryScope/Listed.antt =====
-- storage/clickhouse/query_builder.go: the names of the allowlists, written out, and the maps that hold
-- them.
use analytics_core.Prelude.{
  ◌≡◌, refl, ◌⊎◌, inl, inr, some, true, List, [], ◌∷◌, Text, txt, text_eq, text_beq_iff, Dict,
  lookup, Bool-cases, arith,
}

abbrev pub IsOneOf : Text → List Text → Type 0
IsOneOf name [] = ⊥
IsOneOf name (n ∷ ns) = (name ≡ n) ⊎ IsOneOf name ns

abbrev pub filter_fields : List Text
filter_fields =
    txt "event_name"
    ∷ txt "distinct_id"
    ∷ txt "session_id"
    ∷ txt "visit_id"
    ∷ txt "source_type"
    ∷ []

abbrev pub filter_operators : List Text
filter_operators = txt "eq" ∷ txt "neq" ∷ []

abbrev pub sort_fields : List Text
sort_fields = txt "event_time" ∷ txt "received_at" ∷ txt "event_name" ∷ []

abbrev pub sort_directions : List Text
sort_directions = txt "asc" ∷ txt "desc" ∷ []

abbrev pub names_of : Dict Text Text → List Text
names_of [] = []
names_of ((name, column) ∷ columns) = name ∷ names_of columns

abbrev pub IsListed : Dict Text Text → Text → Type 0
IsListed columns name = (column : Text) × (lookup name columns ≡ some column)

beq_same : (s t : Text) → text_eq.beq s t ≡ true → t ≡ s
beq_same s t h = ground (arith, text_beq_iff s t, h)

same_beq : (s t : Text) → t ≡ s → text_eq.beq s t ≡ true
same_beq s t h = ground (arith, text_beq_iff s t, h)

-- A name that the map has is one of its names.
pub IsListed-IsOneOf :
    (columns : Dict Text Text) (name : Text)
    → IsListed columns name
    → IsOneOf name (names_of columns)
unfolding lookup
IsListed-IsOneOf [] name (column, found) = absurd (cc found)
IsListed-IsOneOf ((n, c) ∷ columns) name (column, found) = elim (Bool-cases (text_eq.beq n name)) [
  | inl same ↦ inl (beq_same n name same)
  | inr other ↦ inr (IsListed-IsOneOf columns name (column, rw other at found))
]

-- A name of the map is found in it.
pub IsOneOf-IsListed :
    (columns : Dict Text Text) (name : Text)
    → IsOneOf name (names_of columns)
    → IsListed columns name
unfolding lookup
IsOneOf-IsListed [] name h = absurd h
IsOneOf-IsListed ((n, c) ∷ columns) name (inl same) = (c, rw (same_beq n name same) refl)
IsOneOf-IsListed ((n, c) ∷ columns) name (inr later) = elim (Bool-cases (text_eq.beq n name)) [
  | inl same ↦ (c, rw same refl)
  | inr other ↦
      let (column, found) = IsOneOf-IsListed columns name later in (column, rw other found)
]
