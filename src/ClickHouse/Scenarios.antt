-- ===== src/ClickHouse/Scenarios.antt =====
-- A router, a builder, events and queries to run, with the rows of a writer.
mod Planning
mod Reading
use analytics_core.Prelude.{
  ℕ, zero, suc, ◌+◌, ◌*◌, ◌≡◌, refl, false, some, List, [], ◌∷◌, ◌++◌, Text, txt, is_empty,
  trim_space, text_beq, lookup, arith,
}
use analytics_core.Contracts.{EventEnvelope, Properties, string, ℤ, pos, zero_time, finite}
use analytics_core.Collect.Digest.{IsDigest, encode_to_string}
use analytics_core.Storage.Backends.{Fallible, ok, err}
use analytics_core.Storage.Property.{EventPropertyRecord, event_scope, string_value}
use analytics_core.ClickHouse.Tables.{
  Table, TableRouter, RoutingKey, routed, new_table_router, short_hash, physical_name, route_key,
}
use analytics_core.ClickHouse.Tables.Names.{SameHashes, same_table-SameHashes}
use analytics_core.ClickHouse.Schema.{
  Arg, event_table_columns, property_table_for, property_table_suffix,
}
use analytics_core.ClickHouse.EventQuery.{
  EventPropertyFilter, PropertySelector, EventListQuery, EventCountQuery, EventQueryPlan,
  EventRecord, QueryError, invalid_event_query, not_allowlisted, Queried, answer, failure,
  events_family,
}
use analytics_core.ClickHouse.QueryPolicy.{
  EventQueryBuilder, EventQueryBuilderOption, with_max_query_limit, with_allowed_property_filters,
  new_event_query_builder, apply_option, validate, normalize_property_selector,
  property_selector_allowed, listed, normalize_filter_field, normalize_filter_operator,
  normalize_sort_field, normalize_sort_direction, normalize_limit,
}
use analytics_core.ClickHouse.QueryScope.{
  Scope, base_scope, build_filtered_events_scope, check_query, validate_property_filter_window,
  route_query, routed_scope, event_filter_clause, apply_event_filters,
  property_value_column_and_arg, value_predicate, build_property_filter_predicate,
  apply_property_filters, apply_events_order,
}
use analytics_core.ClickHouse.QueryScope.Matching.{satisfies, matches_query}
use analytics_core.ClickHouse.QueryScope.Refined.{build-refines}
use analytics_core.ClickHouse.QueryScope.Failing.{IsInvalid}
use analytics_core.ClickHouse.QueryScope.Answering.{IsValidQuery}
use analytics_core.ClickHouse.QueryPlans.{
  build_plan, build_evidence, build_events_query_of, build_events_query, build_event_count_query,
  event_count_query_as_list_query,
}
use analytics_core.ClickHouse.QueryPlans.Bounded.{IsBounded, events-IsBounded}
use analytics_core.ClickHouse.QueryPlans.Errors.{queries-IsInvalid}
use analytics_core.ClickHouse.QueryPlans.Accepted.{events-accepted_iff}
use analytics_core.ClickHouse.EventReader.{
  count_events, count_events_with_evidence, list_events, list_events_with_evidence, execute_plan,
  execute_count_plan, scanned_records, scanned_count,
}
use analytics_core.ClickHouse.EventReader.Routes.{table_of_query}
use analytics_core.ClickHouse.EventReader.Answers.{count_of, count-exact}
use analytics_core.ClickHouse.EventReader.Pages.{IsPage, list-IsPage}
use analytics_core.ClickHouse.Interpreter.{interpreter}
use analytics_core.ClickHouse.Memory.{render, memory_database, memory-Counts, memory-Pages}

abbrev zeros : ℕ → Text
zeros zero = []
zeros (suc n) = 0 ∷ zeros n

abbrev constant_digest : Text → Text
constant_digest message = zeros 32

constant-IsDigest : IsDigest constant_digest
constant-IsDigest message = (refl, ground arith)

abbrev router : TableRouter
router = record { prefix = txt "events" }

abbrev key : RoutingKey
key = record { tenant_id = txt "t1"; project_id = txt "p1"; source_id = txt "s1" }

abbrev other_key : RoutingKey
other_key = record { tenant_id = txt "t2"; project_id = txt "p1"; source_id = txt "s1" }

abbrev events_table : Text
events_table = txt "events_000000000000_000000000000_000000000000"

abbrev table : Table
table = record { logical = txt "events"; physical = events_table }

-- Where all digests are equal, all keys share a table.
same_table-SameHashes_example : SameHashes constant_digest key other_key
unfolding route_key physical_name short_hash encode_to_string
same_table-SameHashes_example =
    same_table-SameHashes constant_digest constant-IsDigest router key other_key table table refl
      refl refl

abbrev marshal : Properties → Fallible Text
marshal ps = ok (txt "{...}")

abbrev purchase : EventEnvelope
purchase = record {
  id = txt "e1";
  tenant_id = txt "t1";
  project_id = txt "p1";
  source_id = txt "s1";
  source_type = txt "web";
  event_name = txt "purchase";
  distinct_id = txt "u1";
  session_id = [];
  visit_id = [];
  event_time = zero_time + 20;
  received_at = zero_time + 30;
  properties = (txt "plan", string (txt "pro")) ∷ [];
  user_props = [];
  source = [];
}

abbrev plan_row : EventPropertyRecord
plan_row = record {
  event_id = txt "e1";
  tenant_id = txt "t1";
  project_id = txt "p1";
  source_id = txt "s1";
  source_type = txt "web";
  event_name = txt "purchase";
  distinct_id = txt "u1";
  session_id = [];
  visit_id = [];
  event_time = zero_time + 20;
  received_at = zero_time + 30;
  source = [];
  scope = event_scope;
  name = txt "plan";
  value = string_value (txt "pro");
}

abbrev values_of : Fallible (List Arg) → List Arg
values_of (ok values) = values
values_of (err e) = []

abbrev stored_event : EventRecord
stored_event = record {
  id = txt "e1";
  tenant_id = txt "t1";
  project_id = txt "p1";
  source_id = txt "s1";
  source_type = txt "web";
  event_name = txt "purchase";
  distinct_id = txt "u1";
  session_id = [];
  visit_id = [];
  event_time = zero_time + 20;
  received_at = zero_time + 30;
  properties = txt "{...}";
  user_properties = txt "{}";
  source = [];
}

abbrev free_event : EventRecord
free_event = record stored_event { id = txt "e2"; distinct_id = txt "u2" }

abbrev stored : Text → List EventRecord
stored name = stored_event ∷ free_event ∷ []

abbrev property_rows : Text → List EventPropertyRecord
property_rows name = plan_row ∷ []

abbrev selector : PropertySelector
selector = record { scope = txt "event"; name = txt "plan" }

abbrev options : List EventQueryBuilderOption
options = with_max_query_limit (pos 10) ∷ with_allowed_property_filters (selector ∷ []) ∷ []

abbrev builder : EventQueryBuilder
builder = record {
  router = router;
  policy = record {
    max_query_limit = pos 10;
    max_filters = pos 20;
    max_property_filter_window = pos (7 * 24 * 3600 * 1000000000);
    allowed_properties = some (selector ∷ []);
  };
}

builds : new_event_query_builder router options ≡ ok builder
unfolding new_event_query_builder apply_option validate normalize_property_selector trim_space
    text_beq
builds = refl

abbrev plan_filter : EventPropertyFilter
plan_filter = record {
  scope = txt "event";
  name = txt "plan";
  value_type = txt "string";
  operator = txt "eq";
  string_value = txt "pro";
  number_value = finite false 0 0;
  bool_value = false;
}

abbrev count_query : EventCountQuery
count_query = record {
  tenant_id = txt "t1";
  project_id = txt "p1";
  source_id = txt "s1";
  event_name = txt "purchase";
  distinct_id = [];
  from = zero_time + 1;
  to = zero_time + 100;
  filters = record { field = txt "distinct_id"; operator = txt "neq"; value = txt "u3" } ∷ [];
  property_filters = plan_filter ∷ [];
  allowed_property_selectors = [];
}

abbrev list_query : EventListQuery
list_query = record {
  tenant_id = txt "t1";
  project_id = txt "p1";
  source_id = txt "s1";
  event_name = [];
  distinct_id = [];
  from = zero_time + 1;
  to = zero_time + 100;
  limit = pos 500;
  offset = pos 0;
  sort_field = txt "received_at";
  sort_direction = txt "asc";
  filters = record { field = txt "distinct_id"; operator = txt "neq"; value = txt "u3" } ∷ [];
  property_filters = plan_filter ∷ [];
  allowed_property_selectors = [];
}
