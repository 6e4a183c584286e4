-- ===== src/ClickHouse/Scenarios/Planning.antt =====
-- Plans of queries, and queries that the builder refuses.
use analytics_core.Prelude.{
  ◌≡◌, refl, false, some, List, [], ◌∷◌, Text, txt, is_empty, trim_space, text_beq, lookup,
}
use analytics_core.Contracts.{pos}
use analytics_core.Collect.Digest.{encode_to_string}
use analytics_core.ClickHouse.Tables.{
  routed, new_table_router, short_hash, physical_name, route_key,
}
use analytics_core.ClickHouse.Schema.{Arg, property_table_for}
use analytics_core.ClickHouse.EventQuery.{
  EventListQuery, EventQueryPlan, QueryError, invalid_event_query, not_allowlisted, Queried, answer,
  failure, events_family,
}
use analytics_core.ClickHouse.QueryPolicy.{
  normalize_property_selector, property_selector_allowed, listed, normalize_filter_field,
  normalize_filter_operator, normalize_sort_field, normalize_sort_direction, normalize_limit,
}
use analytics_core.ClickHouse.QueryScope.{
  Scope, build_filtered_events_scope, check_query, validate_property_filter_window, route_query,
  routed_scope, event_filter_clause, apply_event_filters, property_value_column_and_arg,
  value_predicate, build_property_filter_predicate, apply_property_filters, apply_events_order,
}
use analytics_core.ClickHouse.QueryScope.Failing.{IsInvalid}
use analytics_core.ClickHouse.QueryScope.Answering.{IsValidQuery}
use analytics_core.ClickHouse.QueryPlans.{
  build_plan, build_evidence, build_events_query_of, build_events_query,
}
use analytics_core.ClickHouse.QueryPlans.Bounded.{IsBounded, events-IsBounded}
use analytics_core.ClickHouse.QueryPlans.Errors.{queries-IsInvalid}
use analytics_core.ClickHouse.QueryPlans.Accepted.{events-accepted_iff}
use analytics_core.ClickHouse.Memory.{render}
use analytics_core.ClickHouse.Scenarios.{
  constant_digest, constant-IsDigest, router, events_table, options, builder, builds, plan_filter,
  list_query,
}

renders :
    (scope : Scope)
    → (made : Text × List Arg) × (render scope ≡ some made) × (is_empty made.0 ≡ false)
unfolding render
renders scope = (_, refl, refl)

-- The empty prefix stands for the default.
routes : new_table_router [] ≡ routed router
unfolding new_table_router trim_space
routes = refl

abbrev plan_args : Queried EventQueryPlan → List Arg
plan_args (answer plan) = plan.args
plan_args (failure e) = []

abbrev planned : EventQueryPlan
planned = record {
  sql = txt "SELECT";
  args = (plan_args (build_events_query constant_digest render builder list_query));
  logical_table = txt "events";
  physical_table = events_table;
  limit = pos 10;
  evidence = build_evidence events_family list_query (pos 10);
}

plans :
    build_events_query_of constant_digest render events_family builder list_query ≡ answer planned
unfolding build_events_query build_events_query_of build_filtered_events_scope check_query
    validate_property_filter_window route_query route_key physical_name short_hash encode_to_string
    routed_scope apply_event_filters event_filter_clause normalize_filter_field
    normalize_filter_operator apply_property_filters build_property_filter_predicate
    normalize_property_selector property_selector_allowed property_table_for value_predicate
    property_value_column_and_arg listed lookup text_beq trim_space build_plan render
    apply_events_order normalize_sort_field normalize_sort_direction normalize_limit build_evidence
plans = refl

events-IsBounded_example : IsBounded builder.policy list_query planned
events-IsBounded_example =
    events-IsBounded constant_digest render router options builder events_family list_query planned
      builds plans

events-accepted_iff_example :
    (((plan : EventQueryPlan) × (build_events_query constant_digest render builder list_query
          ≡ answer plan))
      → IsValidQuery builder.policy list_query)
    × (IsValidQuery builder.policy list_query
        → (plan : EventQueryPlan) × (build_events_query constant_digest render builder list_query
            ≡ answer plan))
events-accepted_iff_example =
    events-accepted_iff constant_digest render [] router options builder list_query
      constant-IsDigest renders routes builds

-- A property that is not on the allowlist.
abbrev private_query : EventListQuery
private_query = record list_query {
  property_filters = record plan_filter { name = txt "email" } ∷ [];
}

abbrev private : QueryError
private =
    invalid_event_query (not_allowlisted 0 (record { scope = txt "event"; name = txt "email" }))

refuses : build_events_query constant_digest render builder private_query ≡ failure private
unfolding build_events_query build_events_query_of build_filtered_events_scope check_query
    validate_property_filter_window route_query route_key physical_name short_hash encode_to_string
    routed_scope apply_event_filters event_filter_clause normalize_filter_field
    normalize_filter_operator apply_property_filters build_property_filter_predicate
    normalize_property_selector property_selector_allowed property_table_for listed lookup text_beq
    trim_space
refuses = refl

queries-IsInvalid_example : IsInvalid private
queries-IsInvalid_example =
    (queries-IsInvalid constant_digest render [] router options builder constant-IsDigest renders
        routes builds).0
      private_query private refuses
