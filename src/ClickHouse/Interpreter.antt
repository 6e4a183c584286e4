-- ===== src/ClickHouse/Interpreter.antt =====
-- An interpreter of the clauses that the query builder writes, which has the laws of SQL.
use mathlib.Core.Path.{subst}
use mathlib.Core.List.{append_assoc}
use analytics_core.Prelude.{
  ℕ, zero, suc, ◌≡◌, refl, ap, ◌∙◌, leb, ltb, Bool, true, false, not, ◌&&◌, ◌==◌, some, List, [],
  ◌∷◌, ◌++◌, Dict, lookup, text_eq, text_beq, text_beq_iff, Text, txt, All, some_eq, if◌then◌else◌,
  Bool-cases, inl, inr, arith,
}
use analytics_core.Contracts.{Float, Time}
use analytics_core.Kafka.Protector.{float_geb}
use analytics_core.Collect.Request.{all_bytes}
use analytics_core.Storage.Property.{EventPropertyRecord, PropertyValue}
use analytics_core.ClickHouse.Tables.{table_byte, table_prefix_pattern}
use analytics_core.ClickHouse.Schema.{Arg, text_arg, time_arg, number_arg, bool_arg}
use analytics_core.ClickHouse.Rows.{string_slot, number_slot, bool_slot}
use analytics_core.ClickHouse.EventQuery.{EventRecord}
use analytics_core.ClickHouse.QueryScope.{Clause, clause_of, base_predicate}
use analytics_core.ClickHouse.QueryScope.Matching.{
  any_of, compares, text_columns, operator_text, bool_beq, in_source, PropertyKey, key_args, in_key,
  typed_clause, Sql,
}

text_same : (s t : Text) → text_beq s t ≡ true → s ≡ t
text_same s t h = ground (arith, text_beq_iff s t)

abbrev pub drop : ℕ → Text → Text
drop zero s = s
drop (suc n) [] = []
drop (suc n) (c ∷ s) = drop n s

-- The text up to a back quote, and from there on.
abbrev until_quote : Text → Text × Text
until_quote [] = ([], [])
until_quote (c ∷ s) =
    let rest = until_quote s in if c == 96 then ([], c ∷ s) else (c ∷ rest.0, rest.1)

abbrev text_of : Arg → Text
text_of (text_arg s) = s
text_of (time_arg t) = []
text_of (number_arg f) = []
text_of (bool_arg b) = []

abbrev float_beq : Float → Float → Bool
float_beq a b = float_geb a b && float_geb b a

-- The test that the end of a property's clause makes of the property's value.
abbrev tail_test : Text → Arg → PropertyValue → Bool
tail_test tail (time_arg t) v = false
tail_test tail (text_arg s) v =
    compares (text_beq tail (txt " AND string_value = ?)")) (text_beq (string_slot v) s)
tail_test tail (number_arg f) v =
    compares (text_beq tail (txt " AND number_value = ?)")) (float_beq (number_slot v) f)
tail_test tail (bool_arg b) v =
    compares (text_beq tail (txt " AND bool_value = ?)")) (bool_beq (bool_slot v) b)

abbrev key_of_args : Arg → Arg → Arg → Arg → Arg → Arg → PropertyKey
key_of_args t p s scope name type = record {
  tenant = text_of t;
  project = text_of p;
  source = text_of s;
  scope = text_of scope;
  name = text_of name;
  type = text_of type;
}

abbrev subquery : Text → List Arg → List EventPropertyRecord → EventRecord → Bool
subquery tail [] rows r = false
subquery tail (t ∷ []) rows r = false
subquery tail (t ∷ p ∷ []) rows r = false
subquery tail (t ∷ p ∷ s ∷ []) rows r = false
subquery tail (t ∷ p ∷ s ∷ scope ∷ []) rows r = false
subquery tail (t ∷ p ∷ s ∷ scope ∷ name ∷ []) rows r = false
subquery tail (t ∷ p ∷ s ∷ scope ∷ name ∷ type ∷ []) rows r =
    any_of (λ row. in_key (key_of_args t p s scope name type) r row) rows
subquery tail (t ∷ p ∷ s ∷ scope ∷ name ∷ type ∷ arg ∷ args) rows r =
    any_of (λ row. in_key (key_of_args t p s scope name type) r row && tail_test tail arg row.value)
      rows

-- The lengths of the texts before and behind the name of the table in `base_predicate`.
abbrev before_table : ℕ
before_table = 105

abbrev behind_table : ℕ
behind_table = 125

abbrev single : (Arg → Bool) → List Arg → Bool
single test [] = false
single test (arg ∷ args) = test arg

abbrev source_test : List Arg → EventRecord → Bool
source_test [] r = false
source_test (t ∷ []) r = false
source_test (t ∷ p ∷ []) r = false
source_test (t ∷ p ∷ s ∷ args) r = in_source (text_of t) (text_of p) (text_of s) r

abbrev time_test : (Time → Bool) → Arg → Bool
time_test test (time_arg t) = test t
time_test test (text_arg s) = false
time_test test (number_arg f) = false
time_test test (bool_arg b) = false

-- The comparison of a text column that a clause is, or else the answer for other clauses.
abbrev compare_test : Text → List Arg → EventRecord → Dict Text (EventRecord → Text) → Bool → Bool
compare_test text args r [] other = other
compare_test text args r ((column, field) ∷ columns) other =
    let later = compare_test text args r columns other in
    if text_beq text (column ++ txt " = ?")
    then single (λ a. text_beq (field r) (text_of a)) args
    else if text_beq text (column ++ txt " != ?")
    then single (λ a. not (text_beq (field r) (text_of a))) args
    else later

lookup-All :
    {V : Type 0} (P : Text → V → Type 0) (m : Dict Text V) (k : Text) (v : V)
    → All (λ e. P e.0 e.1) m
    → lookup k m ≡ some v
    → P k v
unfolding lookup
lookup-All P [] k v all h = absurd (cc h)
lookup-All P ((j, w) ∷ m) k v all h = elim (Bool-cases (text_beq j k)) [
  | inl same ↦
      subst (λ n. P n v) (text_same j k same) (subst (P j) (some_eq (rw (same, lookup) at h)) all.0)
  | inr differ ↦ lookup-All P m k v all.1 (rw (differ, lookup) at h)
]

until_quote-safe :
    (name s : Text)
    → all_bytes table_byte name ≡ true
    → until_quote (name ++ 96 ∷ s) ≡ (name, 96 ∷ s)
until_quote-safe [] s h = refl
until_quote-safe (c ∷ name) s h = ground (arith, h, until_quote-safe name s (ground (arith, h)))

name_bytes : (name : Text) → table_prefix_pattern name ≡ true → all_bytes table_byte name ≡ true
name_bytes [] h = refl
name_bytes (c ∷ name) h = ground (arith, h)

abbrev selection : Text
selection =
    txt
      " WHERE tenant_id = ? AND project_id = ? AND source_id = ? AND property_scope = ? AND property_name = ? AND property_type = ?"

module _ (property_rows : Text → List EventPropertyRecord) where
  abbrev interpret : Clause → EventRecord → Bool
  interpret c r =
      if text_beq c.text (txt "tenant_id = ? AND project_id = ? AND source_id = ?")
      then source_test c.args r
      else if text_beq c.text (txt "event_time >= ?")
      then single (time_test (λ t. leb t r.event_time)) c.args
      else if text_beq c.text (txt "event_time < ?")
      then single (time_test (λ t. ltb r.event_time t)) c.args
      else compare_test c.text c.args r text_columns (
          let parts = until_quote (drop before_table c.text) in
          subquery (drop behind_table parts.1) c.args (property_rows parts.0) r)

  pub compare-law :
      (column : Text) (field : EventRecord → Text) (equal : Bool) (v : Text) (r : EventRecord)
      → lookup column text_columns ≡ some field
      → interpret
          (clause_of (column ++ (txt " " ++ (operator_text equal ++ txt " ?"))) (text_arg v ∷ []))
          r
        ≡ compares equal (text_beq (field r) v)
  unfolding text_beq
  compare-law column field true v r h =
      lookup-All
        (λ column field.
          interpret (clause_of (column ++ (txt " " ++ (txt "=" ++ txt " ?"))) (text_arg v ∷ [])) r
          ≡ text_beq (field r) v)
        text_columns column field (refl, (refl, (refl, (refl, (refl, tt))))) h
  compare-law column field false v r h =
      lookup-All
        (λ column field.
          interpret (clause_of (column ++ (txt " " ++ (txt "!=" ++ txt " ?"))) (text_arg v ∷ [])) r
          ≡ not (text_beq (field r) v))
        text_columns column field (refl, (refl, (refl, (refl, (refl, tt))))) h

  -- A clause on the properties is read as its table, its end and its arguments.
  pub subquery-law :
      (table tail : Text) (args : List Arg) (r : EventRecord)
      → table_prefix_pattern table ≡ true
      → interpret (clause_of (base_predicate table ++ tail) args) r
        ≡ subquery tail args (property_rows table) r
  unfolding text_beq
  subquery-law table tail args r safe =
      ap (λ parts. subquery (drop behind_table parts.1) args (property_rows parts.0) r)
        (ap until_quote (append_assoc table (96 ∷ selection) tail)
          ∙ until_quote-safe table (selection ++ tail) (name_bytes table safe))

  abbrev typed_tail : Text → Bool → Text
  typed_tail column equal =
      txt " AND " ++ (column ++ (txt " " ++ (operator_text equal ++ txt " ?)")))

  pub text-law :
      (table : Text) (k : PropertyKey) (equal : Bool) (v : Text) (r : EventRecord)
      → table_prefix_pattern table ≡ true
      → interpret (typed_clause table k (txt "string_value") equal (text_arg v)) r
        ≡ any_of
            (λ p. in_key k r p && compares equal (text_beq (string_slot p.value) v))
            (property_rows table)
  unfolding text_beq
  text-law table k true v r safe =
      subquery-law table (typed_tail (txt "string_value") true) (key_args k ++ text_arg v ∷ []) r
        safe
  text-law table k false v r safe =
      subquery-law table (typed_tail (txt "string_value") false) (key_args k ++ text_arg v ∷ []) r
        safe

  pub number-law :
      (table : Text) (k : PropertyKey) (equal : Bool) (v : Float) (r : EventRecord)
      → table_prefix_pattern table ≡ true
      → interpret (typed_clause table k (txt "number_value") equal (number_arg v)) r
        ≡ any_of
            (λ p. in_key k r p && compares equal (float_beq (number_slot p.value) v))
            (property_rows table)
  unfolding text_beq
  number-law table k true v r safe =
      subquery-law table (typed_tail (txt "number_value") true) (key_args k ++ number_arg v ∷ []) r
        safe
  number-law table k false v r safe =
      subquery-law table (typed_tail (txt "number_value") false) (key_args k ++ number_arg v ∷ []) r
        safe

  pub bool-law :
      (table : Text) (k : PropertyKey) (equal : Bool) (v : Bool) (r : EventRecord)
      → table_prefix_pattern table ≡ true
      → interpret (typed_clause table k (txt "bool_value") equal (bool_arg v)) r
        ≡ any_of
            (λ p. in_key k r p && compares equal (bool_beq (bool_slot p.value) v))
            (property_rows table)
  unfolding text_beq
  bool-law table k true v r safe =
      subquery-law table (typed_tail (txt "bool_value") true) (key_args k ++ bool_arg v ∷ []) r safe
  bool-law table k false v r safe =
      subquery-law table (typed_tail (txt "bool_value") false) (key_args k ++ bool_arg v ∷ []) r
        safe

  unfoldable pub interpreter : Sql
  unfolding text_beq
  interpreter = record {
    property_rows = property_rows;
    float_beq = float_beq;
    holds = interpret;
    holds_source = λ tenant project source r. refl;
    holds_from = λ t r. refl;
    holds_to = λ t r. refl;
    holds_compare = compare-law;
    holds_null = λ table k r safe. subquery-law table (txt ")") (key_args k) r safe;
    holds_text = text-law;
    holds_number = number-law;
    holds_bool = bool-law;
  }
