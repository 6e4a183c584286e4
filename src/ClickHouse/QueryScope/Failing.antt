-- ===== src/ClickHouse/QueryScope/Failing.antt =====
-- storage/clickhouse/query_builder.go: where the building of a scope fails, and with which error.
use analytics_core.Prelude.{
  ℕ, suc, ◌≡◌, refl, sym, ap, ◌∙◌, Bool, true, false, not, ◌⊎◌, inl, inr, List, [], ◌∷◌, Text, txt,
  arith, is_empty, text_beq, text_eq, Option-cases, Bool-cases, Dict, lookup, length, ◌==◌, ◌||◌,
  ◌&&◌, ltb,
}
use analytics_core.Contracts.{int_ltb, pos}
use analytics_core.ClickHouse.Tables.{Table, Routed, routed, unrouted, table_prefix_pattern}
use analytics_core.ClickHouse.Schema.Paired.{property_table-of_safe}
use analytics_core.ClickHouse.Schema.{Arg, property_table_for}
use analytics_core.ClickHouse.EventQuery.{
  EventFilter, EventPropertyFilter, EventListQuery, SelectorError, PropertySelector, Rejection,
  unsupported_filter_operator, unsupported_filter_field, negative_offset, empty_window,
  too_many_filters, unbounded_property_window, wide_property_window, filter_value_required,
  invalid_selector, not_allowlisted, null_only_eq, unsupported_value_type, unroutable,
  filter_equals, unsupported_sort_field, unsupported_sort_direction, QueryError,
  invalid_event_query, Queried, answer, failure, ◌>>=◌, ◌>>◌, reject_if,
}
use analytics_core.ClickHouse.QueryPolicy.{
  event_filter_operators, event_filter_columns, event_sort_columns, event_sort_directions,
  ReadSidePolicy, listed, normalize_filter_field, normalize_filter_operator, normalize_sort_field,
  normalize_sort_direction, normalize_property_selector, property_selector_allowed,
}
use analytics_core.ClickHouse.QueryScope.{
  Scope, base_predicate, base_args, where_clause, is_zero, time_sub, filter_count, check_query,
  validate_property_filter_window, routable, event_filter_clause, apply_event_filters, selected,
  property_table, property_value_column_and_arg, value_predicate, build_property_filter_predicate,
  apply_property_filters, apply_events_order,
}

-- An error that wraps ErrInvalidEventQuery.
abbrev pub IsInvalid : QueryError → Type 0
IsInvalid e = (r : Rejection) × (e ≡ invalid_event_query r)

error_of {ℓ} : {A : Type ℓ} → QueryError → Queried A → QueryError
error_of d (answer a) = d
error_of d (failure e) = e

failure_eq {ℓ} :
    {A : Type ℓ} {d e : QueryError} {m : Queried A} → m ≡ failure d → m ≡ failure e → d ≡ e
unfolding error_of
failure_eq {d = d} h k = sym (ap (error_of d) h) ∙ ap (error_of d) k

-- The place where a chain fails.
pub >>=-failure {ℓ κ} :
    {A : Type ℓ} {B : Type κ} (m : Queried A) (f : A → Queried B) {e : QueryError}
    → (m >>= f) ≡ failure e
    → (m ≡ failure e) ⊎ ((a : A) × (m ≡ answer a) × (f a ≡ failure e))
>>=-failure (answer a) f h = inr (a, refl, h)
>>=-failure (failure d) f h = inl (ap failure (failure_eq refl h))

reject-failure :
    (test : Bool) (r : Rejection) {e : QueryError} → reject_if test r ≡ failure e → IsInvalid e
reject-failure true r h = (r, failure_eq h refl)
reject-failure false r h = absurd (cc h)

listed-failure :
    (columns : Dict Text Text) (name : Text) (r : Rejection) {e : QueryError}
    → listed columns name r ≡ failure e
    → IsInvalid e
unfolding listed
listed-failure columns name r h = elim (Option-cases (lookup name columns)) [
  | inl missing ↦ (r, failure_eq (rw (missing, listed) at h) refl)
  | inr (column, found) ↦ absurd (cc (rw (found, listed) at h))
]

operator-failure :
    (name : Text) {e : QueryError} → normalize_filter_operator name ≡ failure e → IsInvalid e
unfolding normalize_filter_operator
operator-failure name h =
    listed-failure event_filter_operators name (unsupported_filter_operator name) h

-- A test fails, or what follows does.
reject-chain {ℓ} :
    {B : Type ℓ} (test : Bool) (r : Rejection) (rest : Queried B) {e : QueryError}
    → (reject_if test r >> rest) ≡ failure e
    → IsInvalid e ⊎ (rest ≡ failure e)
reject-chain true r rest h = inl (r, failure_eq h refl)
reject-chain false r rest h = inr h

window-failure :
    (p : ReadSidePolicy) (query : EventListQuery) {e : QueryError}
    → validate_property_filter_window p query ≡ failure e
    → IsInvalid e
unfolding validate_property_filter_window
window-failure p query h = elim (Bool-cases (length query.property_filters == 0)) [
  | inl nothing ↦ absurd (cc (rw (nothing, validate_property_filter_window) at h))
  | inr given ↦
      let wide = wide_property_window (time_sub query.to query.from) p.max_property_filter_window in
      elim (reject-chain (is_zero query.from || is_zero query.to) unbounded_property_window _
        (rw (given, validate_property_filter_window) at h)) [
          | inl here ↦ here
          | inr later ↦
              reject-failure (int_ltb p.max_property_filter_window (time_sub query.to query.from))
                wide later
        ]
]

pub check-failure :
    (p : ReadSidePolicy) (query : EventListQuery) {e : QueryError}
    → check_query p query ≡ failure e
    → IsInvalid e
unfolding check_query
check-failure p query h = elim (reject-chain (int_ltb query.offset (pos 0)) negative_offset _ h) [
  | inl here ↦ here
  | inr h1 ↦
      elim (reject-chain
        (not (is_zero query.from) && not (is_zero query.to) && not (ltb query.from query.to))
        empty_window _ h1) [
          | inl here ↦ here
          | inr h2 ↦
              elim (reject-chain (int_ltb p.max_filters (pos (filter_count query)))
                (too_many_filters (filter_count query) p.max_filters) _ h2) [
                  | inl here ↦ here
                  | inr h3 ↦ window-failure p query h3
                ]
        ]
]

filter-failure :
    (idx : ℕ) (f : EventFilter) {e : QueryError}
    → event_filter_clause idx f ≡ failure e
    → IsInvalid e
unfolding event_filter_clause normalize_filter_field
filter-failure idx f h = elim (>>=-failure (normalize_filter_field f.field) _ h) [
  | inl here ↦ listed-failure event_filter_columns f.field (unsupported_filter_field f.field) here
  | inr (column, p, h1) ↦ elim (>>=-failure (normalize_filter_operator f.operator) _ h1) [
    | inl here ↦ operator-failure f.operator here
    | inr (operator, q, h2) ↦
        elim (reject-chain (is_empty f.value) (filter_value_required idx) _ h2) [
          | inl here ↦ here
          | inr h3 ↦ absurd (cc h3)
        ]
  ]
]

pub filters-failure :
    (idx : ℕ) (filters : List EventFilter) (scope : Scope) {e : QueryError}
    → apply_event_filters idx filters scope ≡ failure e
    → IsInvalid e
unfolding apply_event_filters
filters-failure idx [] scope h = absurd (cc h)
filters-failure idx (f ∷ filters) scope h = elim (>>=-failure (event_filter_clause idx f) _ h) [
  | inl here ↦ filter-failure idx f here
  | inr (c, p, later) ↦ filters-failure (suc idx) filters (where_clause c scope) later
]

selected-failure :
    (idx : ℕ) (r : SelectorError ⊎ PropertySelector) {e : QueryError}
    → selected idx r ≡ failure e
    → IsInvalid e
selected-failure idx (inl refused) h = (invalid_selector idx refused, failure_eq h refl)
selected-failure idx (inr s) h = absurd (cc h)

column-failure :
    (idx : ℕ) (f : EventPropertyFilter) {e : QueryError}
    → property_value_column_and_arg idx f ≡ failure e
    → IsInvalid e
unfolding property_value_column_and_arg
column-failure idx f h = (unsupported_value_type idx f.value_type, ground (arith, h))

value-failure :
    (idx : ℕ) (f : EventPropertyFilter) (operator base : Text) (args : List Arg) {e : QueryError}
    → value_predicate idx f operator base args ≡ failure e
    → IsInvalid e
unfolding value_predicate
value-failure idx f operator base args h = elim (Bool-cases (text_beq f.value_type (txt "null"))) [
  | inl is_null ↦
      elim (reject-chain (not (text_beq f.operator filter_equals)) (null_only_eq idx) _
        (rw (is_null, value_predicate) at h)) [ inl here ↦ here | inr later ↦ absurd (cc later) ]
  | inr is_value ↦
      elim (>>=-failure (property_value_column_and_arg idx f) _
        (rw (is_value, value_predicate) at h)) [
          | inl here ↦ column-failure idx f here
          | inr (slot, p, later) ↦ absurd (cc later)
        ]
]

table-failure :
    (table : Table) {e : QueryError}
    → table_prefix_pattern table.physical ≡ true
    → property_table (property_table_for table) ≡ failure e
    → ⊥
table-failure table safe h =
    let (properties, found) = property_table-of_safe table safe in cc (rw found at h)

module _ (p : ReadSidePolicy) (table : Table) (query : EventListQuery)
    (safe : table_prefix_pattern table.physical ≡ true) where
  predicate-failure :
      (idx : ℕ) (f : EventPropertyFilter) {e : QueryError}
      → build_property_filter_predicate p table query idx f ≡ failure e
      → IsInvalid e
  unfolding build_property_filter_predicate
  predicate-failure idx f h =
      elim (>>=-failure (selected idx (normalize_property_selector f.scope f.name)) _ h) [
        | inl here ↦ selected-failure idx (normalize_property_selector f.scope f.name) here
        | inr (selector, s, h1) ↦
            elim (reject-chain (not (property_selector_allowed p query selector))
              (not_allowlisted idx selector) _ h1) [
                | inl here ↦ here
                | inr h2 ↦ elim (>>=-failure (normalize_filter_operator f.operator) _ h2) [
                  | inl here ↦ operator-failure f.operator here
                  | inr (operator, o, h3) ↦
                      elim (>>=-failure (property_table (property_table_for table)) _ h3) [
                        | inl here ↦ absurd (table-failure table safe here)
                        | inr (properties, t, h4) ↦
                            value-failure idx f operator (base_predicate properties.physical)
                              (base_args query selector f.value_type) h4
                      ]
                ]
              ]
      ]

  pub properties-failure :
      (idx : ℕ) (filters : List EventPropertyFilter) (scope : Scope) {e : QueryError}
      → apply_property_filters p table query idx filters scope ≡ failure e
      → IsInvalid e
  unfolding apply_property_filters
  properties-failure idx [] scope h = absurd (cc h)
  properties-failure idx (f ∷ filters) scope h =
      elim (>>=-failure (build_property_filter_predicate p table query idx f) _ h) [
        | inl here ↦ predicate-failure idx f here
        | inr (c, q, later) ↦ properties-failure (suc idx) filters (where_clause c scope) later
      ]

pub order-failure :
    (field direction : Text) (scope : Scope) {e : QueryError}
    → apply_events_order field direction scope ≡ failure e
    → IsInvalid e
unfolding apply_events_order normalize_sort_field normalize_sort_direction
order-failure field direction scope h = elim (>>=-failure (normalize_sort_field field) _ h) [
  | inl here ↦ listed-failure event_sort_columns _ (unsupported_sort_field _) here
  | inr (column, p, h1) ↦ elim (>>=-failure (normalize_sort_direction direction) _ h1) [
    | inl here ↦ listed-failure event_sort_directions _ (unsupported_sort_direction _) here
    | inr (dir, q, h2) ↦ absurd (cc h2)
  ]
]

pub routable-failure : (r : Routed Table) {e : QueryError} → routable r ≡ failure e → IsInvalid e
routable-failure (routed t) h = absurd (cc h)
routable-failure (unrouted d) h = (unroutable d, failure_eq h refl)
