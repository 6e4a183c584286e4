-- ===== src/Storage/Property/Flattened.antt =====
-- storage/property.go: what collect lets through can be flattened, in the order of the keys.
use analytics_core.Prelude.{
  ◌≡◌, refl, ap, Bool, true, false, Option, some, List, [], ◌∷◌, ◌++◌, lookup, text_eq, Text, All,
  arith, some_eq, Bool-cases, Option-cases, inl, inr,
}
use mathlib.Core.Path.{subst}
use mathlib.Core.List.{Perm}
use mathlib.Core.List.Perm
use analytics_core.Contracts.{
  EventEnvelope, Properties, Value, null, boolean, integer, string, float32, float64, json_number,
  other, Float, finite, infinite, nan, ℤ, pos, negsuc,
}
use analytics_core.Collect.Request.Accepted.{IsEvent, IsScalar, IsFinite, IsProperty}
use analytics_core.Storage.Property.{
  PropertyScope, event_scope, user_scope, PropertyValue, EventPropertyRecord, rows, float_of_int,
  typed_value, record_of, new_property_record, value_of, flatten_keys, flatten_property_map,
  flatten_event_properties, sort_strings, keys, number_value, text_leb, insert_sorted, number,
}

-- The texts ascend.
abbrev pub IsSorted : List Text → Type 0
IsSorted [] = Unit
IsSorted (s ∷ []) = Unit
IsSorted (s ∷ t ∷ ts) = (text_leb s t ≡ true) × IsSorted (t ∷ ts)

text_leb-total : (s t : Text) → text_leb s t ≡ false → text_leb t s ≡ true
text_leb-total [] t h = absurd cc
text_leb-total (c ∷ s) [] h = refl
text_leb-total (c ∷ s) (d ∷ t) h = ground (arith, text_leb-total s t)

insert_sorted-IsSorted : (s : Text) (ts : List Text) → IsSorted ts → IsSorted (insert_sorted s ts)
insert_sorted-IsSorted s [] h = tt
insert_sorted-IsSorted s (t ∷ []) h = elim (Bool-cases (text_leb s t)) [
  | inl first ↦ rw first (first, tt)
  | inr last ↦ rw last (text_leb-total s t last, tt)
]
insert_sorted-IsSorted s (t ∷ u ∷ ts) h = elim (Bool-cases (text_leb s t)) [
  | inl first ↦ rw first (first, h)
  | inr later ↦ elim (Bool-cases (text_leb s u)) [
    | inl second ↦ rw (later, second) (text_leb-total s t later, (second, h.1))
    | inr third ↦ rw (later, third) (h.0, rw third at (insert_sorted-IsSorted s (u ∷ ts) h.1))
  ]
]

sort_strings-IsSorted : (ss : List Text) → IsSorted (sort_strings ss)
unfolding sort_strings
sort_strings-IsSorted [] = tt
sort_strings-IsSorted (s ∷ ss) =
    insert_sorted-IsSorted s (sort_strings ss) (sort_strings-IsSorted ss)

insert_sorted-perm : (s : Text) (ts : List Text) → Perm (insert_sorted s ts) (s ∷ ts)
insert_sorted-perm s [] = Perm.refl (s ∷ [])
insert_sorted-perm s (t ∷ ts) = elim (Bool-cases (text_leb s t)) [
  | inl first ↦ rw first (Perm.refl (s ∷ t ∷ ts))
  | inr later ↦ rw later (Perm.trans (Perm.cons t (insert_sorted-perm s ts)) (Perm.swap s t ts))
]

sort_strings-perm : (ss : List Text) → Perm (sort_strings ss) ss
unfolding sort_strings
sort_strings-perm [] = Perm.refl []
sort_strings-perm (s ∷ ss) =
    Perm.trans (insert_sorted-perm s (sort_strings ss)) (Perm.cons s (sort_strings-perm ss))

abbrev pub names : List EventPropertyRecord → List Text
names [] = []
names (r ∷ rs) = r.name ∷ names rs

names-append : (rs us : List EventPropertyRecord) → names (rs ++ us) ≡ names rs ++ names us
names-append [] us = refl
names-append (r ∷ rs) us = ap (λ ns. r.name ∷ ns) (names-append rs us)

module _ (parse_float : Text → Option Float) (parses : Text → Bool) where
  -- A value is no JSON number, or one that is read as a finite number.
  abbrev pub ReadsFinite : Value → Type 0
  ReadsFinite null = Unit
  ReadsFinite (boolean b) = Unit
  ReadsFinite (integer i) = Unit
  ReadsFinite (string s) = Unit
  ReadsFinite (float32 f) = Unit
  ReadsFinite (float64 f) = Unit
  ReadsFinite (json_number s) = (f : Float) × (parse_float s ≡ some f) × IsFinite f
  ReadsFinite other = Unit

  abbrev pub NumbersFinite : Properties → Type 0
  NumbersFinite values = All (λ p. ReadsFinite p.1) values

  number-rows :
      (scope : PropertyScope) (name : Text) (f : Float)
      → IsFinite f
      → number parse_float scope name f ≡ rows (number_value f)
  number-rows scope name (finite s m e) h = refl
  number-rows scope name (infinite s) h = absurd h
  number-rows scope name nan h = absurd h

  integer-rows :
      (scope : PropertyScope) (name : Text) (i : ℤ)
      → number parse_float scope name (float_of_int i) ≡ rows (number_value (float_of_int i))
  unfolding float_of_int
  integer-rows scope name (pos n) = refl
  integer-rows scope name (negsuc n) = refl

  typed-rows :
      (scope : PropertyScope) (name : Text) (v : Value)
      → ReadsFinite v
      → IsScalar parses v
      → (w : PropertyValue) × (typed_value parse_float scope name v ≡ rows w)
  unfolding typed_value
  typed-rows scope name null reads h = (_, refl)
  typed-rows scope name (boolean b) reads h = (_, refl)
  typed-rows scope name (string s) reads h = (_, refl)
  typed-rows scope name (integer i) reads h =
      (number_value (float_of_int i), integer-rows scope name i)
  typed-rows scope name (float32 f) reads h = (number_value f, number-rows scope name f h)
  typed-rows scope name (float64 f) reads h = (number_value f, number-rows scope name f h)
  typed-rows scope name (json_number s) (f, read, good) h =
      (number_value f, rw (read, typed_value) (number-rows scope name f good))
  typed-rows scope name other reads h = absurd h

  -- What holds of every value holds of a value that is looked up.
  lookup-All :
      (P : Text × Value → Type 0) (values : Properties) (key : Text) (v : Value)
      → All P values
      → lookup key values ≡ some v
      → (name : Text) × P (name, v)
  unfolding lookup
  lookup-All P [] key v h found = absurd cc
  lookup-All P ((j, w) ∷ values) key v h found = elim (Bool-cases (text_eq.beq j key)) [
    | inl same ↦ (j, subst (λ x. P (j, x)) (some_eq (rw same at found)) h.0)
    | inr differ ↦ lookup-All P values key v h.1 (rw differ at found)
  ]

  value_of-typed :
      (values : Properties) (key : Text)
      → NumbersFinite values
      → All (IsProperty parses) values
      → ReadsFinite (value_of parse_float values key)
        × IsScalar parses (value_of parse_float values key)
  unfolding value_of
  value_of-typed values key reads h = elim (Option-cases (lookup key values)) [
    | inl absent ↦ rw (absent, value_of) (tt, tt)
    | inr (v, found) ↦
        let (i, finite_read) = lookup-All (λ p. ReadsFinite p.1) values key v reads found in
        let (j, property) = lookup-All (IsProperty parses) values key v h found in
        rw (found, value_of) (finite_read, property.1)
  ]

  keys-rows :
      (envelope : EventEnvelope) (scope : PropertyScope) (values : Properties) (ks : List Text)
      → NumbersFinite values
      → All (IsProperty parses) values
      → (rs : List EventPropertyRecord) × (flatten_keys parse_float envelope scope values ks
          ≡ rows rs)
        × (names rs ≡ ks)
  unfolding flatten_keys new_property_record
  keys-rows envelope scope values [] reads h = ([], refl, refl)
  keys-rows envelope scope values (k ∷ ks) reads h =
      let (finite_read, scalar) = value_of-typed values k reads h in
      let (w, typed) = typed-rows scope k (value_of parse_float values k) finite_read scalar in
      let (rs, flat, same) = keys-rows envelope scope values ks reads h in
      (
        record_of parse_float envelope scope k w ∷ rs,
        rw (typed, flatten_keys) (rw (flat, flatten_keys) refl),
        ap (λ ns. k ∷ ns) same,
      )

  -- The rows of an event that collect let through: they are named by the keys of its properties,
  -- each as often as it is there, and then by those of the user's, both in ascending order.
  pub record Flattened (envelope : EventEnvelope) (records : List EventPropertyRecord)
      : Type 0 where
    pub flat : flatten_event_properties parse_float envelope ≡ rows records
    pub event_names : List Text
    pub user_names : List Text
    pub named : names records ≡ event_names ++ user_names
    pub sorted : IsSorted event_names
    pub user_sorted : IsSorted user_names
    pub complete : Perm event_names (keys envelope.properties)
    pub user_complete : Perm user_names (keys envelope.user_props)

  -- Every event that keeps the protocol's promise, and whose JSON numbers are read as finite ones,
  -- can be flattened, and its rows are named by the keys of its properties and then of its user
  -- properties, each key as often as it is there, in ascending order.
  pub IsEvent-flattens :
      (envelope : EventEnvelope)
      → NumbersFinite envelope.properties
      → NumbersFinite envelope.user_props
      → IsEvent parses envelope
      → (records : List EventPropertyRecord) × Flattened envelope records
  unfolding flatten_event_properties flatten_property_map
  IsEvent-flattens envelope reads user_reads event =
      let ks = sort_strings (keys envelope.properties) in
      let us_keys = sort_strings (keys envelope.user_props) in
      let (rs, flat, same) =
        keys-rows envelope event_scope envelope.properties ks reads event.properties.1 in
      let (us, user_flat, user_same) =
        keys-rows envelope user_scope envelope.user_props us_keys user_reads event.user_props.1 in
      (
        rs ++ us,
        record {
          flat =
              rw (flat, flatten_event_properties) (rw (user_flat, flatten_event_properties) refl);
          event_names = ks;
          user_names = us_keys;
          named = rw (names-append rs us, same, user_same) refl;
          sorted = sort_strings-IsSorted (keys envelope.properties);
          user_sorted = sort_strings-IsSorted (keys envelope.user_props);
          complete = sort_strings-perm (keys envelope.properties);
          user_complete = sort_strings-perm (keys envelope.user_props);
        },
      )
