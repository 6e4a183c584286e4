-- ===== src/ClickHouse/Scenarios/Reading.antt =====
-- Queries on a database in memory.
use analytics_core.Prelude.{◌≡◌, refl, [], ◌∷◌, ◌++◌, trim_space, text_beq, lookup}
use analytics_core.Contracts.{ℤ, pos}
use analytics_core.Collect.Digest.{encode_to_string}
use analytics_core.ClickHouse.Tables.{Table, short_hash, physical_name, route_key}
use analytics_core.ClickHouse.Schema.{property_table_for, property_table_suffix}
use analytics_core.ClickHouse.EventQuery.{Queried, answer, failure}
use analytics_core.ClickHouse.QueryPolicy.{
  normalize_property_selector, property_selector_allowed, listed, normalize_filter_field,
  normalize_filter_operator, normalize_sort_field, normalize_sort_direction, normalize_limit,
}
use analytics_core.ClickHouse.QueryScope.{
  Scope, base_scope, build_filtered_events_scope, check_query, validate_property_filter_window,
  route_query, routed_scope, event_filter_clause, apply_event_filters,
  property_value_column_and_arg, value_predicate, build_property_filter_predicate,
  apply_property_filters, apply_events_order,
}
use analytics_core.ClickHouse.QueryScope.Matching.{satisfies, matches_query}
use analytics_core.ClickHouse.QueryScope.Refined.{build-refines}
use analytics_core.ClickHouse.QueryPlans.{
  build_plan, build_evidence, build_events_query_of, build_events_query, build_event_count_query,
  event_count_query_as_list_query,
}
use analytics_core.ClickHouse.EventReader.{
  count_events, count_events_with_evidence, list_events, list_events_with_evidence, execute_plan,
  execute_count_plan, scanned_records, scanned_count,
}
use analytics_core.ClickHouse.EventReader.Routes.{table_of_query}
use analytics_core.ClickHouse.EventReader.Answers.{count_of, count-exact}
use analytics_core.ClickHouse.EventReader.Pages.{IsPage, list-IsPage}
use analytics_core.ClickHouse.Columns.{scan, one_of}
use analytics_core.ClickHouse.Interpreter.{interpreter}
use analytics_core.ClickHouse.Memory.{render, memory_database, memory-Counts, memory-Pages}
use analytics_core.ClickHouse.Scenarios.{
  constant_digest, router, table, stored_event, free_event, stored, property_rows, options, builder,
  builds, count_query, list_query,
}

abbrev counted : Queried ℤ
counted =
    count_events (memory_database (interpreter property_rows) stored) constant_digest render builder
      count_query

-- One of the two purchases has a property with the value that is asked for.
counts_one : counted ≡ answer (pos 1)
unfolding count_events count_events_with_evidence build_event_count_query
    event_count_query_as_list_query build_filtered_events_scope check_query
    validate_property_filter_window route_query route_key physical_name short_hash encode_to_string
    routed_scope apply_event_filters event_filter_clause normalize_filter_field
    normalize_filter_operator apply_property_filters build_property_filter_predicate
    normalize_property_selector property_selector_allowed property_table_for value_predicate
    property_value_column_and_arg listed lookup text_beq trim_space build_plan render
    execute_count_plan scanned_count memory_database interpreter
counts_one = refl

count-exact_example :
    pos 1
    ≡ pos (
        count_of
          (matches_query
            (interpreter property_rows)
            (property_rows (
              table_of_query constant_digest builder (event_count_query_as_list_query count_query)
              ++ property_table_suffix))
            (event_count_query_as_list_query count_query))
          (stored
            (table_of_query constant_digest builder (event_count_query_as_list_query count_query))))
unfolding interpreter
count-exact_example =
    count-exact (memory_database (interpreter property_rows) stored) constant_digest render builder
      (interpreter property_rows) stored count_query (pos 1)
      (memory-Counts (interpreter property_rows) stored) counts_one

-- The page of the event that the query asks for.
lists_one :
    list_events
      (memory_database (interpreter property_rows) stored)
      constant_digest
      render
      builder
      list_query
    ≡ answer (stored_event ∷ [])
unfolding list_events list_events_with_evidence build_events_query build_events_query_of
    build_filtered_events_scope check_query validate_property_filter_window route_query route_key
    physical_name short_hash encode_to_string routed_scope apply_event_filters event_filter_clause
    normalize_filter_field normalize_filter_operator apply_property_filters
    build_property_filter_predicate normalize_property_selector property_selector_allowed
    property_table_for value_predicate property_value_column_and_arg listed lookup text_beq
    trim_space build_plan render execute_plan scanned_records memory_database interpreter scan
    one_of apply_events_order normalize_sort_field normalize_sort_direction normalize_limit
    build_evidence
lists_one = refl

list-IsPage_example :
    IsPage (interpreter property_rows) constant_digest stored builder list_query (stored_event ∷ [])
list-IsPage_example =
    list-IsPage (memory_database (interpreter property_rows) stored) constant_digest render router
      options builder (interpreter property_rows) stored list_query (stored_event ∷ [])
      (memory-Pages (interpreter property_rows) stored) builds lists_one

abbrev scope_of : Queried (Scope × Table) → Scope × Table
scope_of (answer built) = built
scope_of (failure e) = (base_scope [], table)

abbrev built : Scope × Table
built = scope_of (build_filtered_events_scope constant_digest builder list_query)

scope_built : build_filtered_events_scope constant_digest builder list_query ≡ answer built
unfolding build_filtered_events_scope check_query validate_property_filter_window route_query
    route_key physical_name short_hash encode_to_string routed_scope apply_event_filters
    event_filter_clause normalize_filter_field normalize_filter_operator apply_property_filters
    build_property_filter_predicate normalize_property_selector property_selector_allowed
    property_table_for value_predicate property_value_column_and_arg listed lookup text_beq
    trim_space
scope_built = refl

build-refines_example :
    satisfies (interpreter property_rows) built.0.wheres free_event
    ≡ matches_query
        (interpreter property_rows)
        ((interpreter property_rows).property_rows (built.1.physical ++ property_table_suffix))
        list_query
        free_event
build-refines_example =
    build-refines (interpreter property_rows) constant_digest builder list_query built free_event
      scope_built
