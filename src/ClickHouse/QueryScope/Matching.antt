-- ===== src/ClickHouse/QueryScope/Matching.antt =====
-- What a query asks for, as a test on a stored event, and ClickHouse as an interface: which rows a
-- clause holds of. Its laws are the meaning of the comparisons and of the subquery in SQL.
use analytics_core.Prelude.{
  ◌≡◌, leb, ltb, Bool, true, false, not, ◌||◌, ◌&&◌, none, some, List, [], ◌∷◌, ◌++◌, Dict, lookup,
  text_eq, text_beq, Text, txt, is_empty, trim_space,
}
use analytics_core.Contracts.{Float, Time}
use analytics_core.Storage.Property.{
  EventPropertyRecord, PropertyValue, null_value, string_value, number_value, bool_value,
}
use analytics_core.ClickHouse.Tables.{table_prefix_pattern}
use analytics_core.ClickHouse.Schema.{Arg, text_arg, time_arg, number_arg, bool_arg}
use analytics_core.ClickHouse.Rows.{scope_text, value_type, string_slot, number_slot, bool_slot}
use analytics_core.ClickHouse.EventQuery.{
  EventFilter, EventPropertyFilter, EventListQuery, EventRecord, filter_equals,
}
use analytics_core.ClickHouse.QueryScope.{Clause, clause_of, base_predicate, is_zero}
use analytics_core.ClickHouse.QueryScope.Clauses.{value_text}

abbrev pub all_of {ℓ} : {A : Type ℓ} → (A → Bool) → List A → Bool
all_of test [] = true
all_of test (x ∷ xs) = test x && all_of test xs

abbrev pub any_of {ℓ} : {A : Type ℓ} → (A → Bool) → List A → Bool
any_of test [] = false
any_of test (x ∷ xs) = test x || any_of test xs

-- A test for equality, negated unless `equal`.
abbrev pub compares : Bool → Bool → Bool
compares true same = same
compares false same = not same

-- The text columns that a clause may test.
abbrev pub text_columns : Dict Text (EventRecord → Text)
text_columns =
    (txt "event_name", λ r. r.event_name)
    ∷ (txt "distinct_id", λ r. r.distinct_id)
    ∷ (txt "session_id", λ r. r.session_id)
    ∷ (txt "visit_id", λ r. r.visit_id)
    ∷ (txt "source_type", λ r. r.source_type)
    ∷ []

abbrev pub operator_text : Bool → Text
operator_text true = txt "="
operator_text false = txt "!="

abbrev pub bool_beq : Bool → Bool → Bool
bool_beq true b = b
bool_beq false b = not b

-- A row of the property table belongs to the event and has the scope and the name.
abbrev pub names_property : EventRecord → Text → Text → EventPropertyRecord → Bool
names_property r scope name p =
    text_beq p.tenant_id r.tenant_id
    && (text_beq p.project_id r.project_id
        && (text_beq p.source_id r.source_id
            && (text_beq p.event_id r.id
                && (text_beq (scope_text p.scope) scope && text_beq p.name name))))

abbrev pub in_source : Text → Text → Text → EventRecord → Bool
in_source tenant project source r =
    text_beq r.tenant_id tenant && (text_beq r.project_id project && text_beq r.source_id source)

-- The arguments of the subquery.
pub record PropertyKey : Type 0 where
  pub tenant : Text
  pub project : Text
  pub source : Text
  pub scope : Text
  pub name : Text
  pub type : Text

abbrev pub key_args : PropertyKey → List Arg
key_args k =
    text_arg k.tenant
    ∷ text_arg k.project
    ∷ text_arg k.source
    ∷ text_arg k.scope
    ∷ text_arg k.name
    ∷ text_arg k.type
    ∷ []

-- A row is selected by the subquery, and has the event's keys.
abbrev pub in_key : PropertyKey → EventRecord → EventPropertyRecord → Bool
in_key k r p =
    (text_beq p.tenant_id k.tenant
      && (text_beq p.project_id k.project && text_beq p.source_id k.source))
    && (names_property r k.scope k.name p && text_beq (value_type p.value) k.type)

abbrev pub typed_clause : Text → PropertyKey → Text → Bool → Arg → Clause
typed_clause table k column equal arg =
    clause_of (value_text (base_predicate table) column (operator_text equal))
      (key_args k ++ arg ∷ [])

-- The equality of floats is ClickHouse's.
pub record Sql : Type 0 where
  pub property_rows : Text → List EventPropertyRecord
  pub float_beq : Float → Float → Bool
  pub holds : Clause → EventRecord → Bool
  pub holds_source :
      (tenant project source : Text) (r : EventRecord)
      → holds
          (clause_of
            (txt "tenant_id = ? AND project_id = ? AND source_id = ?")
            (text_arg tenant ∷ text_arg project ∷ text_arg source ∷ []))
          r
        ≡ in_source tenant project source r
  pub holds_from :
      (t : Time) (r : EventRecord)
      → holds (clause_of (txt "event_time >= ?") (time_arg t ∷ [])) r ≡ leb t r.event_time
  pub holds_to :
      (t : Time) (r : EventRecord)
      → holds (clause_of (txt "event_time < ?") (time_arg t ∷ [])) r ≡ ltb r.event_time t
  pub holds_compare :
      (column : Text) (field : EventRecord → Text) (equal : Bool) (v : Text) (r : EventRecord)
      → lookup column text_columns ≡ some field
      → holds
          (clause_of (column ++ (txt " " ++ (operator_text equal ++ txt " ?"))) (text_arg v ∷ []))
          r
        ≡ compares equal (text_beq (field r) v)
  pub holds_null :
      (table : Text) (k : PropertyKey) (r : EventRecord)
      → table_prefix_pattern table ≡ true
      → holds (clause_of (base_predicate table ++ txt ")") (key_args k)) r
        ≡ any_of (λ p. in_key k r p) (property_rows table)
  pub holds_text :
      (table : Text) (k : PropertyKey) (equal : Bool) (v : Text) (r : EventRecord)
      → table_prefix_pattern table ≡ true
      → holds (typed_clause table k (txt "string_value") equal (text_arg v)) r
        ≡ any_of
            (λ p. in_key k r p && compares equal (text_beq (string_slot p.value) v))
            (property_rows table)
  pub holds_number :
      (table : Text) (k : PropertyKey) (equal : Bool) (v : Float) (r : EventRecord)
      → table_prefix_pattern table ≡ true
      → holds (typed_clause table k (txt "number_value") equal (number_arg v)) r
        ≡ any_of
            (λ p. in_key k r p && compares equal (float_beq (number_slot p.value) v))
            (property_rows table)
  pub holds_bool :
      (table : Text) (k : PropertyKey) (equal : Bool) (v : Bool) (r : EventRecord)
      → table_prefix_pattern table ≡ true
      → holds (typed_clause table k (txt "bool_value") equal (bool_arg v)) r
        ≡ any_of
            (λ p. in_key k r p && compares equal (bool_beq (bool_slot p.value) v))
            (property_rows table)

-- The rows that pass all the clauses.
abbrev pub satisfies : Sql → List Clause → EventRecord → Bool
satisfies sql clauses r = all_of (λ c. sql.holds c r) clauses

-- What a filter asks of an event.
unfoldable pub filter_matches : EventRecord → EventFilter → Bool
unfolding lookup
filter_matches r f = elim (lookup f.field text_columns) [
  | none ↦ false
  | some field ↦ compares (text_beq f.operator filter_equals) (text_beq (field r) f.value)
]

-- What a property filter of a type asks of the value of a property.
abbrev pub value_matches : Sql → EventPropertyFilter → Text → PropertyValue → Bool
value_matches sql f type null_value = text_beq (txt "null") type
value_matches sql f type (string_value s) =
    text_beq (txt "string") type
    && compares (text_beq f.operator filter_equals) (text_beq s f.string_value)
value_matches sql f type (number_value x) =
    text_beq (txt "number") type
    && compares (text_beq f.operator filter_equals) (sql.float_beq x f.number_value)
value_matches sql f type (bool_value b) =
    text_beq (txt "bool") type
    && compares (text_beq f.operator filter_equals) (bool_beq b f.bool_value)

-- A property of the event has the name that the filter asks for, and such a value.
abbrev pub property_matches :
    Sql → List EventPropertyRecord → EventRecord → EventPropertyFilter → Bool
property_matches sql rows r f =
    any_of
      (λ p.
        names_property r f.scope (trim_space f.name) p && value_matches sql f f.value_type p.value)
      rows

-- What a query asks of an event: its source, its time, its name and its visitor where they are
-- given, and all the filters.
unfoldable pub matches_query : Sql → List EventPropertyRecord → EventListQuery → EventRecord → Bool
unfolding filter_matches value_matches
matches_query sql rows query r =
    in_source query.tenant_id query.project_id query.source_id r
    && ((is_zero query.from || leb query.from r.event_time)
        && ((is_zero query.to || ltb r.event_time query.to)
            && ((is_empty query.event_name || text_beq r.event_name query.event_name)
                && ((is_empty query.distinct_id || text_beq r.distinct_id query.distinct_id)
                    && (all_of (filter_matches r) query.filters
                        && all_of (property_matches sql rows r) query.property_filters)))))
