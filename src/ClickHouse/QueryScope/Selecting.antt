-- ===== src/ClickHouse/QueryScope/Selecting.antt =====
-- storage/clickhouse/query_builder.go: the clause of a property filter selects the events with a
-- property that the filter asks for.
use analytics_core.Prelude.{
  ◌≡◌, refl, sym, ap, ◌∙◌, Bool, true, false, ◌||◌, ◌&&◌, some, inr, List, [], ◌∷◌, ◌++◌, Text, txt,
  trim_space, text_eq, text_beq, text_beq_iff, lookup, arith,
}
use mathlib.Core.Path.{subst}
use analytics_core.ClickHouse.Tables.{Table}
use analytics_core.ClickHouse.Schema.{Arg, text_arg, number_arg, bool_arg, property_table_suffix}
use analytics_core.ClickHouse.Schema.Paired.{property_table-IsPaired}
use analytics_core.Storage.Property.{
  EventPropertyRecord, PropertyValue, null_value, string_value, number_value, bool_value,
}
use analytics_core.ClickHouse.Rows.{value_type, string_slot, number_slot, bool_slot}
use analytics_core.ClickHouse.EventQuery.{
  EventPropertyFilter, EventListQuery, EventRecord, PropertySelector, filter_equals,
}
use analytics_core.ClickHouse.QueryPolicy.{
  ReadSidePolicy, normalize_property_selector, event_filter_operators,
}
use analytics_core.ClickHouse.QueryScope.{Clause, clause_of, base_predicate, base_args}
use analytics_core.ClickHouse.QueryScope.Built.{IsPropertyClause}
use analytics_core.ClickHouse.QueryScope.Clauses.{
  null_clause, string_clause, number_clause, bool_clause, value_text,
}
use analytics_core.ClickHouse.QueryScope.Matching.{
  compares, operator_text, in_source, Sql, any_of, PropertyKey, in_key, names_property,
  value_matches, bool_beq, property_matches, typed_clause, key_args,
}

pub and_assoc : (a b c : Bool) → ((a && b) && c) ≡ (a && (b && c))
and_assoc true b c = refl
and_assoc false b c = refl

pub and_true : (a : Bool) → (a && true) ≡ a
and_true true = refl
and_true false = refl

-- An operator of the allowlist, by the operator's name.
pub operator-text :
    (name operator : Text)
    → lookup name event_filter_operators ≡ some operator
    → operator ≡ operator_text (text_beq name filter_equals)
unfolding lookup
operator-text name operator h =
    ground (arith, h, text_beq_iff name filter_equals, text_beq_iff (txt "eq") name)

module _ (sql : Sql) (r : EventRecord) where
  any_of-cong :
      {A : Type 0} (f g : A → Bool) (xs : List A)
      → ((a : A) → f a ≡ g a)
      → any_of f xs ≡ any_of g xs
  any_of-cong f g [] h = refl
  any_of-cong f g (x ∷ xs) h =
      ap (λ b. b || any_of f xs) (h x) ∙ ap (λ b. g x || b) (any_of-cong f g xs h)

  -- The rows of an event of the source are in the source.
  key-names :
      (k : PropertyKey) (p : EventPropertyRecord)
      → in_source k.tenant k.project k.source r ≡ true
      → in_key k r p ≡ (names_property r k.scope k.name p && text_beq (value_type p.value) k.type)
  key-names k p h = ground (
    arith,
    h,
    text_beq_iff p.tenant_id k.tenant,
    text_beq_iff p.project_id k.project,
    text_beq_iff p.source_id k.source,
    text_beq_iff p.tenant_id r.tenant_id,
    text_beq_iff p.project_id r.project_id,
    text_beq_iff p.source_id r.source_id,
    text_beq_iff r.tenant_id k.tenant,
    text_beq_iff r.project_id k.project,
    text_beq_iff r.source_id k.source,
  )

  null-value :
      (f : EventPropertyFilter) (v : PropertyValue)
      → text_beq (value_type v) (txt "null") ≡ value_matches sql f (txt "null") v
  unfolding text_beq
  null-value f null_value = refl
  null-value f (string_value s) = refl
  null-value f (number_value x) = refl
  null-value f (bool_value b) = refl

  text-value :
      (f : EventPropertyFilter) (v : PropertyValue)
      → (text_beq (value_type v) (txt "string")
          && compares (text_beq f.operator filter_equals) (text_beq (string_slot v) f.string_value))
        ≡ value_matches sql f (txt "string") v
  unfolding text_beq
  text-value f null_value = refl
  text-value f (string_value s) = refl
  text-value f (number_value x) = refl
  text-value f (bool_value b) = refl

  number-value :
      (f : EventPropertyFilter) (v : PropertyValue)
      → (text_beq (value_type v) (txt "number")
          && compares
              (text_beq f.operator filter_equals)
              (sql.float_beq (number_slot v) f.number_value))
        ≡ value_matches sql f (txt "number") v
  unfolding text_beq
  number-value f null_value = refl
  number-value f (string_value s) = refl
  number-value f (number_value x) = refl
  number-value f (bool_value b) = refl

  bool-value :
      (f : EventPropertyFilter) (v : PropertyValue)
      → (text_beq (value_type v) (txt "bool")
          && compares (text_beq f.operator filter_equals) (bool_beq (bool_slot v) f.bool_value))
        ≡ value_matches sql f (txt "bool") v
  unfolding text_beq
  bool-value f null_value = refl
  bool-value f (string_value s) = refl
  bool-value f (number_value x) = refl
  bool-value f (bool_value b) = refl

  selects_as :
      (scope name : Text) (selector : PropertySelector)
      → normalize_property_selector scope name ≡ inr selector
      → (selector.scope ≡ scope) × (selector.name ≡ trim_space name)
  unfolding normalize_property_selector
  selects_as scope name selector h = ground (arith, h)

  -- The rows that a typed clause asks for, under the value's own test.
  rows-match :
      (rows : List EventPropertyRecord) (k : PropertyKey) (f : EventPropertyFilter)
      (test : PropertyValue → Bool)
      → in_source k.tenant k.project k.source r ≡ true
      → k.scope ≡ f.scope
      → k.name ≡ trim_space f.name
      → ((v : PropertyValue)
          → (text_beq (value_type v) k.type && test v) ≡ value_matches sql f f.value_type v)
      → any_of (λ p. in_key k r p && test p.value) rows ≡ property_matches sql rows r f
  rows-match rows k f test inside scope name h =
      any_of-cong (λ p. in_key k r p && test p.value)
        (λ p.
          names_property r f.scope (trim_space f.name) p
          && value_matches sql f f.value_type p.value)
        rows
        (λ p.
          ap (λ b. b && test p.value) (key-names k p inside)
          ∙ and_assoc (names_property r k.scope k.name p) (text_beq (value_type p.value) k.type)
              (test p.value)
          ∙ ap (λ b. names_property r k.scope k.name p && b) (h p.value)
          ∙ ap (λ s. names_property r s k.name p && value_matches sql f f.value_type p.value) scope
          ∙ ap (λ n. names_property r f.scope n p && value_matches sql f f.value_type p.value) name)

  typed-as :
      (f : EventPropertyFilter) (type : Text) (left : Text → Bool) (v : PropertyValue)
      → f.value_type ≡ type
      → left type ≡ value_matches sql f type v
      → left f.value_type ≡ value_matches sql f f.value_type v
  typed-as f type left v h e = subst (λ t. left t ≡ value_matches sql f t v) (sym h) e

  module _ (p : ReadSidePolicy) (table : Table) (query : EventListQuery)
      (inside : in_source query.tenant_id query.project_id query.source_id r ≡ true) where
    abbrev key_of : PropertySelector → Text → PropertyKey
    key_of selector type = record {
      tenant = query.tenant_id;
      project = query.project_id;
      source = query.source_id;
      scope = selector.scope;
      name = selector.name;
      type = type;
    }

    abbrev paired_rows : List EventPropertyRecord
    paired_rows = sql.property_rows (table.physical ++ property_table_suffix)

    abbrev asks : EventPropertyFilter → Bool
    asks f = property_matches sql paired_rows r f

    -- A clause with a law of SQL behind it selects what the filter asks for.
    by_law :
        (f : EventPropertyFilter) (c d : Clause) (is : IsPropertyClause p table query f c)
        (test : PropertyValue → Bool)
        → c ≡ d
        → (sql.holds d r
            ≡ any_of
                (λ row. in_key (key_of is.selector f.value_type) r row && test row.value)
                (sql.property_rows is.properties.physical))
        → ((v : PropertyValue)
            → (text_beq (value_type v) f.value_type && test v) ≡ value_matches sql f f.value_type v)
        → sql.holds c r ≡ asks f
    by_law f c d is test same law h =
        let (scope, name) = selects_as f.scope f.name is.selector is.selects in
        ap (λ c. sql.holds c r) same
        ∙ law
        ∙ ap
            (λ t.
              any_of (λ row. in_key (key_of is.selector f.value_type) r row && test row.value)
                (sql.property_rows t))
            (property_table-IsPaired table is.properties is.paired).name
        ∙ rows-match paired_rows (key_of is.selector f.value_type) f test inside scope name h

    typed-text :
        (f : EventPropertyFilter) (c : Clause) (is : IsPropertyClause p table query f c)
        (column : Text) (arg : Arg)
        → c
          ≡ clause_of
              (value_text (base_predicate is.properties.physical) column is.operator)
              (base_args query is.selector f.value_type ++ arg ∷ [])
        → c
          ≡ typed_clause is.properties.physical
              (key_of is.selector f.value_type)
              column
              (text_beq f.operator filter_equals)
              arg
    typed-text f c is column arg e =
        e
        ∙ ap
            (λ o.
              clause_of (value_text (base_predicate is.properties.physical) column o)
                (base_args query is.selector f.value_type ++ arg ∷ []))
            (operator-text f.operator is.operator is.known_operator)

    pub property-refines :
        (f : EventPropertyFilter) (c : Clause)
        → IsPropertyClause p table query f c
        → sql.holds c r ≡ asks f
    property-refines f c is =
        let key = key_of is.selector f.value_type in
        let equal = text_beq f.operator filter_equals in
        let name = is.properties.physical in
        let safe = (property_table-IsPaired table is.properties is.paired).safe in
        elim is.value [
          | null_clause type operator e ↦
              by_law f c (clause_of (base_predicate name ++ txt ")") (key_args key)) is (λ v. true)
                e
                (sql.holds_null name key r safe
                  ∙ any_of-cong (λ row. in_key key r row) (λ row. in_key key r row && true)
                      (sql.property_rows name) (λ row. sym (and_true (in_key key r row))))
                (λ v.
                  typed-as f (txt "null") (λ t. text_beq (value_type v) t && true) v type
                    (and_true _ ∙ null-value f v))
          | string_clause type e ↦
              by_law f c
                (typed_clause name key (txt "string_value") equal (text_arg f.string_value)) is
                (λ v. compares equal (text_beq (string_slot v) f.string_value))
                (typed-text f c is (txt "string_value") (text_arg f.string_value) e)
                (sql.holds_text name key equal f.string_value r safe)
                (λ v.
                  typed-as f (txt "string")
                    (λ t.
                      text_beq (value_type v) t
                      && compares equal (text_beq (string_slot v) f.string_value))
                    v type (text-value f v))
          | number_clause type e ↦
              by_law f c
                (typed_clause name key (txt "number_value") equal (number_arg f.number_value)) is
                (λ v. compares equal (sql.float_beq (number_slot v) f.number_value))
                (typed-text f c is (txt "number_value") (number_arg f.number_value) e)
                (sql.holds_number name key equal f.number_value r safe)
                (λ v.
                  typed-as f (txt "number")
                    (λ t.
                      text_beq (value_type v) t
                      && compares equal (sql.float_beq (number_slot v) f.number_value))
                    v type (number-value f v))
          | bool_clause type e ↦
              by_law f c (typed_clause name key (txt "bool_value") equal (bool_arg f.bool_value)) is
                (λ v. compares equal (bool_beq (bool_slot v) f.bool_value))
                (typed-text f c is (txt "bool_value") (bool_arg f.bool_value) e)
                (sql.holds_bool name key equal f.bool_value r safe)
                (λ v.
                  typed-as f (txt "bool")
                    (λ t.
                      text_beq (value_type v) t
                      && compares equal (bool_beq (bool_slot v) f.bool_value))
                    v type (bool-value f v))
        ]
