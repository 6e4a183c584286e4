-- ===== src/ClickHouse/EventReader/Routes.antt =====
-- storage/clickhouse/event_reader.go with its query builder: the table that a query reads.
use analytics_core.Prelude.{◌≡◌, refl, ap, ◌∙◌, Bool, true, false, Text, txt}
use analytics_core.ClickHouse.Tables.{Table, physical_name}
use analytics_core.ClickHouse.Tables.Names.{route_key-IsRouted}
use analytics_core.ClickHouse.QueryPlans.Errors.{route-answer}
use analytics_core.ClickHouse.Schema.{Arg, text_arg, time_arg}
use analytics_core.ClickHouse.EventQuery.{EventListQuery, answer}
use analytics_core.ClickHouse.QueryPolicy.{EventQueryBuilder}
use analytics_core.ClickHouse.QueryScope.{
  Scope, build_filtered_events_scope, route_query, routed_scope, where_if, named_scope, scope_until,
  scope_from, source_scope,
}
use analytics_core.ClickHouse.QueryScope.Built.{build-IsBuilt}

where_if-table :
    (given : Bool) (text : Text) (arg : Arg) (scope : Scope)
    → (where_if given text arg scope).table ≡ scope.table
where_if-table true text arg scope = refl
where_if-table false text arg scope = refl

routed-table :
    (table : Table) (query : EventListQuery) → (routed_scope table query).table ≡ table.physical
unfolding routed_scope
routed-table table query =
    where_if-table _ (txt "distinct_id = ?") (text_arg query.distinct_id) (named_scope table query)
    ∙ where_if-table _ (txt "event_name = ?") (text_arg query.event_name) (scope_until table query)
    ∙ where_if-table _ (txt "event_time < ?") (time_arg query.to) (scope_from table query)
    ∙ where_if-table _ (txt "event_time >= ?") (time_arg query.from) (source_scope table query)

-- The table that the key of a query is routed to.
abbrev pub table_of_query : (Text → Text) → EventQueryBuilder → EventListQuery → Text
table_of_query sha256 b query = physical_name sha256 b.router.prefix (record {
  tenant_id = query.tenant_id;
  project_id = query.project_id;
  source_id = query.source_id;
})

-- The scope of a query reads the table that its key is routed to.
pub built-table :
    (sha256 : Text → Text) (b : EventQueryBuilder) (query : EventListQuery) (built : Scope × Table)
    → build_filtered_events_scope sha256 b query ≡ answer built
    → (built.1.physical ≡ table_of_query sha256 b query)
      × (built.0.table ≡ table_of_query sha256 b query)
unfolding route_query
built-table sha256 b query built h =
    let is = build-IsBuilt sha256 b query built h in
    let physical =
      (route_key-IsRouted sha256 b.router _ built.1 (route-answer _ is.routes)).physical in
    (physical, ap (λ s. s.table) is.wheres ∙ routed-table built.1 query ∙ physical)
