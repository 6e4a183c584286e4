-- ===== src/ClickHouse/QueryScope.antt =====
-- storage/clickhouse/query_builder.go: the clauses that a query adds to GORM's scope. A scope is the
-- list of the calls that build it; what GORM makes of them is not modelled here.
pub mod Built
pub mod Clauses
pub mod Listed
pub mod Matching
pub mod Selectable
pub mod Selecting
pub mod Refined
pub mod Failing
pub mod Checked
pub mod Answering
use analytics_core.Prelude.{
  ℕ, suc, ◌+◌, ◌-◌, ◌*◌, ◌^◌, ltb, leb, Bool, true, false, not, ◌||◌, ◌&&◌, Option, none, some, ◌⊎◌,
  inl, inr, List, [], ◌∷◌, ◌++◌, length, lookup, text_eq, text_beq, Text, txt, is_empty,
  if◌then◌else◌, ◌==◌,
}
use analytics_core.Contracts.{int_ltb, ℤ, pos, negsuc, Time, zero_time}
use analytics_core.ClickHouse.Tables.{Table, TableRouter, Routed, routed, unrouted, route_key}
use analytics_core.ClickHouse.Schema.{
  Arg, text_arg, time_arg, number_arg, bool_arg, property_table_for,
}
use analytics_core.ClickHouse.EventQuery.{
  EventFilter, EventPropertyFilter, PropertySelector, SelectorError, EventListQuery, filter_equals,
  Rejection, negative_offset, empty_window, too_many_filters, unbounded_property_window,
  wide_property_window, unroutable, filter_value_required, invalid_selector, not_allowlisted,
  null_only_eq, unsupported_value_type, QueryError, invalid_event_query, unsafe_table, Queried,
  answer, failure, ◌>>=◌, ◌>>◌, reject_if,
}
use analytics_core.ClickHouse.QueryPolicy.{
  ReadSidePolicy, EventQueryBuilder, event_select_columns, property_value_columns,
  normalize_property_selector, property_selector_allowed, normalize_filter_field,
  normalize_filter_operator, normalize_sort_field, normalize_sort_direction,
}

-- `Where(text, args...)`
pub record Clause : Type 0 where
  pub text : Text
  pub args : List Arg

pub record Scope : Type 0 where
  pub table : Text
  pub columns : List Text
  pub wheres : List Clause
  pub orders : List Text
  pub limit : Option ℤ
  pub offset : Option ℤ

abbrev pub base_scope : Text → Scope
base_scope table = record {
  table = table;
  columns = event_select_columns;
  wheres = [];
  orders = [];
  limit = none;
  offset = none;
}

abbrev pub where_clause : Clause → Scope → Scope
where_clause clause scope = record scope { wheres = scope.wheres ++ clause ∷ [] }

abbrev pub clause_of : Text → List Arg → Clause
clause_of text args = record { text = text; args = args }

abbrev pub order : Text → Scope → Scope
order text scope = record scope { orders = scope.orders ++ text ∷ [] }

-- `t.Sub(u)`, which saturates.
abbrev pub time_sub : Time → Time → ℤ
time_sub t u =
    if leb u t
    then pos (if ltb (t - u) (2 ^ 63) then t - u else 2 ^ 63 - 1)
    else negsuc (if ltb (u - t) (2 ^ 63) then u - t - 1 else 2 ^ 63 - 1)

abbrev pub is_zero : Time → Bool
is_zero t = t == zero_time

unfoldable pub validate_property_filter_window :
    ReadSidePolicy → EventListQuery → Queried (Unit {0})
validate_property_filter_window p query =
    if length query.property_filters == 0 then answer tt else do
      reject_if (is_zero query.from || is_zero query.to) unbounded_property_window
      let window = time_sub query.to query.from
      reject_if (int_ltb p.max_property_filter_window window)
          (wide_property_window window p.max_property_filter_window)

-- The clause of the filter at the index `idx`.
unfoldable pub event_filter_clause : ℕ → EventFilter → Queried Clause
unfolding normalize_filter_field normalize_filter_operator
event_filter_clause idx f = do
  column ← normalize_filter_field f.field
  operator ← normalize_filter_operator f.operator
  reject_if (is_empty f.value) (filter_value_required idx)
  answer (clause_of (column ++ (txt " " ++ (operator ++ txt " ?"))) (text_arg f.value ∷ []))

-- The loop over the filters, from the index `idx` on.
unfoldable pub apply_event_filters : ℕ → List EventFilter → Scope → Queried Scope
unfolding event_filter_clause
apply_event_filters idx [] scope = answer scope
apply_event_filters idx (f ∷ filters) scope = do
  clause ← event_filter_clause idx f
  apply_event_filters (suc idx) filters (where_clause clause scope)

abbrev pub selected : ℕ → SelectorError ⊎ PropertySelector → Queried PropertySelector
selected idx (inl refused) = failure (invalid_event_query (invalid_selector idx refused))
selected idx (inr selector) = answer selector

abbrev pub property_table : Routed Table → Queried Table
property_table (unrouted e) = failure (unsafe_table e)
property_table (routed t) = answer t

unfoldable pub property_value_column_and_arg : ℕ → EventPropertyFilter → Queried (Text × Arg)
unfolding lookup
property_value_column_and_arg idx f =
    let unsupported = failure (invalid_event_query (unsupported_value_type idx f.value_type)) in
    elim (lookup f.value_type property_value_columns) [
      | none ↦ unsupported
      | some column ↦
          if text_beq f.value_type (txt "string")
          then answer (column, text_arg f.string_value)
          else if text_beq f.value_type (txt "number")
          then answer (column, number_arg f.number_value)
          else if text_beq f.value_type (txt "bool")
          then answer (column, bool_arg f.bool_value)
          else unsupported
    ]

-- The start of the predicate, up to the test of the property's type.
abbrev pub base_predicate : Text → Text
base_predicate table =
    txt
      "(tenant_id, project_id, source_id, event_id) IN (SELECT tenant_id, project_id, source_id, event_id FROM `"
    ++ (table
        ++ txt
            "` WHERE tenant_id = ? AND project_id = ? AND source_id = ? AND property_scope = ? AND property_name = ? AND property_type = ?")

abbrev pub base_args : EventListQuery → PropertySelector → Text → List Arg
base_args query selector value_type =
    text_arg query.tenant_id
    ∷ text_arg query.project_id
    ∷ text_arg query.source_id
    ∷ text_arg selector.scope
    ∷ text_arg selector.name
    ∷ text_arg value_type
    ∷ []

-- The value of a property, behind the test of its type.
unfoldable pub value_predicate : ℕ → EventPropertyFilter → Text → Text → List Arg → Queried Clause
unfolding property_value_column_and_arg
value_predicate idx f operator base args =
    if text_beq f.value_type (txt "null")
    then (do
      reject_if (not (text_beq f.operator filter_equals)) (null_only_eq idx)
      answer (clause_of (base ++ txt ")") args))
    else do
      slot ← property_value_column_and_arg idx f
      answer (
          clause_of (base ++ (txt " AND " ++ (slot.0 ++ (txt " " ++ (operator ++ txt " ?)")))))
            (args ++ slot.1 ∷ []))

unfoldable pub build_property_filter_predicate :
    ReadSidePolicy → Table → EventListQuery → ℕ → EventPropertyFilter → Queried Clause
unfolding normalize_property_selector property_selector_allowed normalize_filter_operator
    property_table_for value_predicate
build_property_filter_predicate p table query idx f = do
  selector ← selected idx (normalize_property_selector f.scope f.name)
  reject_if (not (property_selector_allowed p query selector)) (not_allowlisted idx selector)
  operator ← normalize_filter_operator f.operator
  properties ← property_table (property_table_for table)
  value_predicate idx f operator (base_predicate properties.physical)
      (base_args query selector f.value_type)

unfoldable pub apply_property_filters :
    ReadSidePolicy → Table → EventListQuery → ℕ → List EventPropertyFilter → Scope → Queried Scope
unfolding build_property_filter_predicate
apply_property_filters p table query idx [] scope = answer scope
apply_property_filters p table query idx (f ∷ filters) scope = do
  predicate ← build_property_filter_predicate p table query idx f
  apply_property_filters p table query (suc idx) filters (where_clause predicate scope)

-- `if given { scope = scope.Where(...) }`
abbrev pub where_if : Bool → Text → Arg → Scope → Scope
where_if given text arg scope =
    if given then where_clause (clause_of text (arg ∷ [])) scope else scope

abbrev pub source_scope : Table → EventListQuery → Scope
source_scope table query =
    where_clause
      (clause_of (txt "tenant_id = ? AND project_id = ? AND source_id = ?")
        (text_arg query.tenant_id ∷ text_arg query.project_id ∷ text_arg query.source_id ∷ []))
      (base_scope table.physical)

abbrev pub scope_from : Table → EventListQuery → Scope
scope_from table query =
    where_if (not (is_zero query.from)) (txt "event_time >= ?") (time_arg query.from)
      (source_scope table query)

abbrev pub scope_until : Table → EventListQuery → Scope
scope_until table query =
    where_if (not (is_zero query.to)) (txt "event_time < ?") (time_arg query.to)
      (scope_from table query)

abbrev pub named_scope : Table → EventListQuery → Scope
named_scope table query =
    where_if (not (is_empty query.event_name)) (txt "event_name = ?") (text_arg query.event_name)
      (scope_until table query)

-- The scope before the filters.
unfoldable pub routed_scope : Table → EventListQuery → Scope
routed_scope table query =
    where_if (not (is_empty query.distinct_id)) (txt "distinct_id = ?") (text_arg query.distinct_id)
      (named_scope table query)

abbrev pub filter_count : EventListQuery → ℕ
filter_count query = length query.filters + length query.property_filters

-- The checks before the routing.
unfoldable pub check_query : ReadSidePolicy → EventListQuery → Queried (Unit {0})
unfolding validate_property_filter_window
check_query p query = do
  reject_if (int_ltb query.offset (pos 0)) negative_offset
  reject_if (not (is_zero query.from) && not (is_zero query.to) && not (ltb query.from query.to))
      empty_window
  reject_if (int_ltb p.max_filters (pos (filter_count query)))
      (too_many_filters (filter_count query) p.max_filters)
  validate_property_filter_window p query

abbrev pub routable : Routed Table → Queried Table
routable (unrouted e) = failure (invalid_event_query (unroutable e))
routable (routed t) = answer t

module _ (sha256 : Text → Text) where
  unfoldable pub route_query : EventQueryBuilder → EventListQuery → Queried Table
  unfolding route_key
  route_query b query = routable (
      route_key sha256 b.router (record {
        tenant_id = query.tenant_id;
        project_id = query.project_id;
        source_id = query.source_id;
      }))

  unfoldable pub build_filtered_events_scope :
      EventQueryBuilder → EventListQuery → Queried (Scope × Table)
  unfolding check_query route_query routed_scope apply_event_filters apply_property_filters
  build_filtered_events_scope b query = do
    check_query b.policy query
    table ← route_query b query
    filtered ← apply_event_filters 0 query.filters (routed_scope table query)
    scope ← apply_property_filters b.policy table query 0 query.property_filters filtered
    answer (scope, table)

-- The tie-breakers follow the chosen column.
unfoldable pub apply_events_order : Text → Text → Scope → Queried Scope
unfolding normalize_sort_field normalize_sort_direction
apply_events_order field direction scope = do
  column ← normalize_sort_field field
  dir ← normalize_sort_direction direction
  let sorted = order (column ++ txt " " ++ dir) scope
  let timed =
      if text_beq column (txt "event_time") then sorted else order (txt "event_time DESC") sorted
  answer
      (if text_beq column (txt "received_at") then timed else order (txt "received_at DESC") timed)
