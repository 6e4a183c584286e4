-- ===== src/ClickHouse/QueryPlans.antt =====
-- storage/clickhouse/query_builder.go: the evidence and the plans of the three queries. What GORM
-- makes of a scope, the text and the values of a statement or no statement, is a parameter.
pub mod Planned
pub mod Bounded
pub mod Errors
pub mod Accepted
use analytics_core.Prelude.{
  ℕ, suc, ◌+◌, ◌-◌, ◌/◌, ltb, ◌==◌, Bool, true, false, not, ◌&&◌, Option, none, some, ◌⊎◌, inl, inr,
  List, [], ◌∷◌, ◌++◌, length, Text, txt, is_empty, if◌then◌else◌,
}
use analytics_core.Contracts.{int_ltb, ℤ, pos, negsuc, zero_time}
use analytics_core.ClickHouse.Tables.{Table}
use analytics_core.ClickHouse.Schema.{Arg}
use analytics_core.ClickHouse.EventQuery.{
  EventPropertyFilter, EventPropertyFilterEvidence, PropertySelector, EventListQuery,
  EventCountQuery, RealtimeQuery, EventQueryFamily, events_family, goal_family, realtime_family,
  fact_events, direct_fact_table, EventQueryEvidence, EventQueryPlan, sort_by_event_time,
  sort_descending, QueryError, not_built, Queried, answer, failure, ◌>>=◌, ◌>>◌, SelectorError,
}
use analytics_core.ClickHouse.QueryPolicy.{
  EventQueryBuilder, normalize_limit, normalize_property_selector, default_events_limit,
  default_realtime_limit,
}
use analytics_core.ClickHouse.QueryScope.{
  Scope, is_zero, time_sub, build_filtered_events_scope, apply_events_order,
}

abbrev pub count_if : Bool → ℕ → ℕ
count_if given n = if given then suc n else n

unfoldable pub scalar_filter_count : EventListQuery → ℕ
scalar_filter_count query = count_if (not (is_zero query.to)) (
    count_if (not (is_zero query.from)) (
      count_if (not (is_empty query.distinct_id))
        (count_if (not (is_empty query.event_name)) (length query.filters))))

abbrev evidence_of :
    EventPropertyFilter → SelectorError ⊎ PropertySelector → EventPropertyFilterEvidence
evidence_of f (inl refused) = record {
  scope = f.scope;
  name = f.name;
  value_type = f.value_type;
  operator = f.operator;
}
evidence_of f (inr selector) = record {
  scope = selector.scope;
  name = selector.name;
  value_type = f.value_type;
  operator = f.operator;
}

unfoldable pub property_filter_evidence :
    List EventPropertyFilter → List EventPropertyFilterEvidence
unfolding normalize_property_selector evidence_of
property_filter_evidence [] = []
property_filter_evidence (f ∷ filters) =
    evidence_of f (normalize_property_selector f.scope f.name) ∷ property_filter_evidence filters

-- `int64(d / time.Second)`
abbrev in_seconds : ℤ → ℤ
in_seconds (pos n) = pos (n / 1000000000)
in_seconds (negsuc n) =
    let seconds = (n + 1) / 1000000000 in if seconds == 0 then pos 0 else negsuc (seconds - 1)

unfoldable pub build_evidence : EventQueryFamily → EventListQuery → ℤ → EventQueryEvidence
unfolding scalar_filter_count property_filter_evidence in_seconds
build_evidence family query effective_limit = record {
  family = family;
  read_path = fact_events;
  optimization = direct_fact_table;
  effective_limit = effective_limit;
  offset = query.offset;
  has_time_lower_bound = not (is_zero query.from);
  has_time_upper_bound = not (is_zero query.to);
  time_window_seconds =
      if not (is_zero query.from) && not (is_zero query.to) && ltb query.from query.to
      then in_seconds (time_sub query.to query.from)
      else pos 0;
  scalar_filter_count = scalar_filter_count query;
  property_filter_count = length query.property_filters;
  uses_property_table = ltb 0 (length query.property_filters);
  property_filters = property_filter_evidence query.property_filters;
  sort_field = if is_empty query.sort_field then sort_by_event_time else query.sort_field;
  sort_direction = if is_empty query.sort_direction then sort_descending else query.sort_direction;
}

unfoldable pub event_count_query_as_list_query : EventCountQuery → EventListQuery
event_count_query_as_list_query query = record {
  tenant_id = query.tenant_id;
  project_id = query.project_id;
  source_id = query.source_id;
  event_name = query.event_name;
  distinct_id = query.distinct_id;
  from = query.from;
  to = query.to;
  limit = pos 0;
  offset = pos 0;
  sort_field = [];
  sort_direction = [];
  filters = query.filters;
  property_filters = query.property_filters;
  allowed_property_selectors = query.allowed_property_selectors;
}

-- The list query of `BuildRealtimeQuery`.
unfoldable pub realtime_query_as_list_query : EventQueryBuilder → RealtimeQuery → EventListQuery
unfolding normalize_limit
realtime_query_as_list_query b query = record {
  tenant_id = query.tenant_id;
  project_id = query.project_id;
  source_id = query.source_id;
  event_name = [];
  distinct_id = [];
  from = query.since;
  to = zero_time;
  limit = normalize_limit b.policy query.limit default_realtime_limit;
  offset = pos 0;
  sort_field = [];
  sort_direction = [];
  filters = [];
  property_filters = [];
  allowed_property_selectors = [];
}

module _ (statement : Scope → Option (Text × List Arg)) where
  -- `buildPlan`, and `buildCountPlan` with the limit 0.
  unfoldable pub build_plan : Scope → Table → ℤ → EventQueryEvidence → Queried EventQueryPlan
  build_plan scope table limit evidence = elim (statement scope) [
    | none ↦ failure not_built
    | some (sql, args) ↦
        if is_empty sql
        then failure not_built
        else answer (record {
          sql = sql;
          args = args;
          logical_table = table.logical;
          physical_table = table.physical;
          limit = limit;
          evidence = evidence;
        })
  ]

abbrev pub count_columns : Scope → Scope
count_columns scope = record scope { columns = txt "count() AS count" ∷ [] }

abbrev pub paged : ℤ → ℤ → Scope → Scope
paged limit offset scope =
    if int_ltb (pos 0) offset
    then record scope { limit = some limit; offset = some offset }
    else record scope { limit = some limit }

module _ (sha256 : Text → Text) (statement : Scope → Option (Text × List Arg)) where
  unfoldable pub build_event_count_query :
      EventQueryBuilder → EventCountQuery → Queried EventQueryPlan
  unfolding event_count_query_as_list_query build_filtered_events_scope build_plan build_evidence
      count_columns
  build_event_count_query b query = do
    let list_query = event_count_query_as_list_query query
    filtered ← build_filtered_events_scope sha256 b list_query
    build_plan statement (count_columns filtered.0) filtered.1 (pos 0)
        (build_evidence goal_family list_query (pos 0))

  unfoldable pub build_events_query_of :
      EventQueryFamily → EventQueryBuilder → EventListQuery → Queried EventQueryPlan
  unfolding build_filtered_events_scope build_plan build_evidence normalize_limit apply_events_order
  build_events_query_of family b query = do
    filtered ← build_filtered_events_scope sha256 b query
    let limit = normalize_limit b.policy query.limit default_events_limit
    sorted ← apply_events_order query.sort_field query.sort_direction filtered.0
    build_plan statement (paged limit query.offset sorted) filtered.1 limit
        (build_evidence family query limit)

  unfoldable pub build_events_query : EventQueryBuilder → EventListQuery → Queried EventQueryPlan
  unfolding build_events_query_of
  build_events_query b query = build_events_query_of events_family b query

  unfoldable pub build_realtime_query : EventQueryBuilder → RealtimeQuery → Queried EventQueryPlan
  unfolding build_events_query_of realtime_query_as_list_query
  build_realtime_query b query =
      build_events_query_of realtime_family b (realtime_query_as_list_query b query)
