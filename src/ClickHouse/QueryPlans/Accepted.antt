-- ===== src/ClickHouse/QueryPlans/Accepted.antt =====
-- storage/clickhouse/query_builder.go: the builder accepts exactly the valid queries of events.
use analytics_core.Prelude.{
  ◌≡◌, refl, ap, ◌∙◌, true, false, Option, some, inl, inr, List, [], ◌∷◌, Text, is_empty, text_eq,
  Option-cases, Dict, lookup, if◌then◌else◌, All,
}
use analytics_core.Contracts.{ℤ}
use analytics_core.Storage.Backends.{ok}
use analytics_core.ClickHouse.Tables.{
  Table, TableRouter, routed, table_prefix_pattern, RoutingKey, route_key, new_table_router,
  physical_name, default_logical_table,
}
use analytics_core.ClickHouse.Tables.Names.{router-safe, routed-safe, route_key-IsRouted}
use analytics_core.ClickHouse.Schema.{Arg}
use analytics_core.ClickHouse.EventQuery.{
  EventFilter, EventPropertyFilter, EventListQuery, EventQueryFamily, EventQueryPlan,
  EventQueryEvidence, Rejection, sort_by_event_time, sort_descending, answer, >>=-answer,
  events_family, unsupported_sort_field, unsupported_sort_direction,
}
use analytics_core.ClickHouse.QueryPolicy.{
  ReadSidePolicy, EventQueryBuilder, event_sort_columns, event_sort_directions,
  event_filter_columns, event_filter_operators, listed, normalize_sort_field,
  normalize_sort_direction, normalize_limit, default_events_limit, EventQueryBuilderOption,
  new_event_query_builder,
}
use analytics_core.ClickHouse.QueryScope.{
  Scope, Clause, check_query, route_query, routable, routed_scope, apply_event_filters,
  apply_property_filters, build_filtered_events_scope, apply_events_order,
}
use analytics_core.Collect.Digest.{IsDigest}
use analytics_core.ClickHouse.QueryScope.Checked.{check_query-IsChecked}
use analytics_core.ClickHouse.QueryScope.Answering.{
  IsValidFilter, IsTyped, IsValidPropertyFilter, IsValidQuery, then_answers, listed-answers,
  check-answers, filters-answer, properties-answer,
}
use analytics_core.ClickHouse.QueryScope.Listed.{IsListed, IsListed-IsOneOf, IsOneOf-IsListed}
use analytics_core.ClickHouse.QueryScope.Selectable.{allowed-IsSelectable}
use analytics_core.ClickHouse.QueryScope.Built.{IsPropertyClause, build-IsBuilt}
use analytics_core.ClickHouse.QueryScope.Clauses.{
  Each, IsFilterClause, IsValueClause, null_clause, string_clause, number_clause, bool_clause,
}
use analytics_core.ClickHouse.QueryPlans.{
  build_plan, build_evidence, build_events_query_of, build_events_query, paged,
}
use analytics_core.ClickHouse.QueryPlans.Errors.{builder-router, route-answer}
use analytics_core.ClickHouse.QueryPlans.Planned.{events-IsEventsPlan}

filters-valid :
    (filters : List EventFilter) (cs : List Clause)
    → Each IsFilterClause filters cs
    → All IsValidFilter filters
filters-valid [] [] e = tt
filters-valid [] (c ∷ cs) e = tt
filters-valid (f ∷ filters) [] e = absurd e
filters-valid (f ∷ filters) (c ∷ cs) e =
    let is = e.0 in
    (
      (
        IsListed-IsOneOf event_filter_columns f.field (is.column, is.known_column),
        IsListed-IsOneOf event_filter_operators f.operator (is.operator, is.known_operator),
        is.given,
      ),
      filters-valid filters cs e.1,
    )

value-IsTyped :
    (f : EventPropertyFilter) (operator base : Text) (args : List Arg) (c : Clause)
    → IsValueClause f operator base args c
    → IsTyped f
value-IsTyped f operator base args c (null_clause t o e) = inl (t, o)
value-IsTyped f operator base args c (string_clause t e) = inr (inl t)
value-IsTyped f operator base args c (number_clause t e) = inr (inr (inl t))
value-IsTyped f operator base args c (bool_clause t e) = inr (inr (inr t))

properties-valid :
    (p : ReadSidePolicy) (table : Table) (query : EventListQuery)
    (filters : List EventPropertyFilter) (cs : List Clause)
    → Each (IsPropertyClause p table query) filters cs
    → All (IsValidPropertyFilter p query) filters
properties-valid p table query [] [] e = tt
properties-valid p table query [] (c ∷ cs) e = tt
properties-valid p table query (f ∷ filters) [] e = absurd e
properties-valid p table query (f ∷ filters) (c ∷ cs) e =
    let is = e.0 in
    (
      (
        allowed-IsSelectable p query f.scope f.name is.selector is.selects is.allowed,
        IsListed-IsOneOf event_filter_operators f.operator (is.operator, is.known_operator),
        value-IsTyped f is.operator _ _ c is.value,
      ),
      properties-valid p table query filters cs e.1,
    )

listed-answer :
    (columns : Dict Text Text) (name : Text) (r : Rejection) {column : Text}
    → listed columns name r ≡ answer column
    → lookup name columns ≡ some column
unfolding listed
listed-answer columns name r h = elim (Option-cases (lookup name columns)) [
  | inl unknown ↦ absurd (cc (rw (unknown, listed) at h))
  | inr (c, found) ↦ found ∙ ap some (cc (rw (found, listed) at h))
]

order-IsListed :
    (field direction : Text) (scope : Scope) {sorted : Scope}
    → apply_events_order field direction scope ≡ answer sorted
    → IsListed event_sort_columns (if is_empty field then sort_by_event_time else field)
      × IsListed event_sort_directions (if is_empty direction then sort_descending else direction)
unfolding apply_events_order normalize_sort_field normalize_sort_direction
order-IsListed field direction scope h =
    let (column, p, h1) = >>=-answer (normalize_sort_field field) _ h in
    let (dir, q, h2) = >>=-answer (normalize_sort_direction direction) _ h1 in
    (
      (column, listed-answer event_sort_columns _ (unsupported_sort_field _) p),
      (dir, listed-answer event_sort_directions _ (unsupported_sort_direction _) q),
    )

order-answers :
    (field direction : Text) (scope : Scope)
    → IsListed event_sort_columns (if is_empty field then sort_by_event_time else field)
    → IsListed event_sort_directions (if is_empty direction then sort_descending else direction)
    → (sorted : Scope) × (apply_events_order field direction scope ≡ answer sorted)
unfolding apply_events_order normalize_sort_field normalize_sort_direction
order-answers field direction scope (column, c) (dir, d) = (
  _,
  then_answers (normalize_sort_field field) _ (listed-answers event_sort_columns _ column _ c) (
      then_answers (normalize_sort_direction direction) _
        (listed-answers event_sort_directions _ dir _ d) refl),
)

route-answers :
    (sha256 : Text → Text) (router : TableRouter) (key : RoutingKey)
    → is_empty key.tenant_id ≡ false
    → is_empty key.project_id ≡ false
    → is_empty key.source_id ≡ false
    → route_key sha256 router key
      ≡ routed (record {
        logical = default_logical_table;
        physical = physical_name sha256 router.prefix key;
      })
unfolding route_key
route-answers sha256 router key t p s =
    rw (t, route_key) (rw (p, route_key) (rw (s, route_key) refl))

module _ (sha256 : Text → Text) (statement : Scope → Option (Text × List Arg))
    (b : EventQueryBuilder) (digest : IsDigest sha256) where
  accepted-valid :
      (family : EventQueryFamily) (query : EventListQuery) (plan : EventQueryPlan)
      → build_events_query_of sha256 statement family b query ≡ answer plan
      → IsValidQuery b.policy query
  unfolding route_query
  accepted-valid family query plan h =
      let is = events-IsEventsPlan statement sha256 b family query plan h in
      let built = build-IsBuilt sha256 b query is.built is.builds in
      let routed = route_key-IsRouted sha256 b.router _ is.built.1 (route-answer _ built.routes) in
      let (sort_field, sort_direction) =
        order-IsListed query.sort_field query.sort_direction is.built.0 is.sorts in
      record {
        checked = check_query-IsChecked b.policy query built.checked;
        tenant = routed.tenant;
        project = routed.project;
        source = routed.source;
        filters = filters-valid query.filters built.scalars built.each_scalar;
        property_filters =
            properties-valid b.policy is.built.1 query query.property_filters built.typed
              built.each_typed;
        sort_field = IsListed-IsOneOf event_sort_columns _ sort_field;
        sort_direction = IsListed-IsOneOf event_sort_directions _ sort_direction;
      }

  module _ (safe : table_prefix_pattern b.router.prefix ≡ true)
      (states : (scope : Scope)
        → (made : Text × List Arg) × (statement scope ≡ some made)
          × (is_empty made.0 ≡ false)) where
    plan-answers :
        (scope : Scope) (table : Table) (limit : ℤ) (evidence : EventQueryEvidence)
        → (plan : EventQueryPlan) × (build_plan statement scope table limit evidence ≡ answer plan)
    unfolding build_plan
    plan-answers scope table limit evidence =
        let (made, found, given) = states scope in
        (
          record {
            sql = made.0;
            args = made.1;
            logical_table = table.logical;
            physical_table = table.physical;
            limit = limit;
            evidence = evidence;
          },
          rw (found, build_plan) (rw (given, build_plan) refl),
        )

    valid-accepted :
        (family : EventQueryFamily) (query : EventListQuery)
        → IsValidQuery b.policy query
        → (plan : EventQueryPlan) × (build_events_query_of sha256 statement family b query
            ≡ answer plan)
    unfolding build_events_query_of build_filtered_events_scope route_query
    valid-accepted family query valid =
        let key : RoutingKey = record {
          tenant_id = query.tenant_id;
          project_id = query.project_id;
          source_id = query.source_id;
        } in
        let table : Table = record {
          logical = default_logical_table;
          physical = physical_name sha256 b.router.prefix key;
        } in
        let routes = route-answers sha256 b.router key valid.tenant valid.project valid.source in
        let (filtered, f) =
          filters-answer 0 query.filters (routed_scope table query) valid.filters in
        let (scope, s) =
          properties-answer b.policy table query
            (routed-safe sha256 digest b.router key table safe routes) 0 query.property_filters
            filtered valid.property_filters in
        let (sorted, o) =
          order-answers query.sort_field query.sort_direction scope
            (IsOneOf-IsListed event_sort_columns _ valid.sort_field)
            (IsOneOf-IsListed event_sort_directions _ valid.sort_direction) in
        let limit = normalize_limit b.policy query.limit default_events_limit in
        let (plan, m) =
          plan-answers (paged limit query.offset sorted) table limit
            (build_evidence family query limit) in
        (
          plan,
          then_answers (build_filtered_events_scope sha256 b query) _
              (then_answers (check_query b.policy query) _
                (check-answers b.policy query valid.checked)
                (then_answers (route_query sha256 b query) _ (ap routable routes) (
                  then_answers (apply_event_filters 0 query.filters (routed_scope table query)) _ f
                    (then_answers
                      (apply_property_filters b.policy table query 0 query.property_filters
                        filtered)
                      _ s refl))))
              (then_answers (apply_events_order query.sort_field query.sort_direction scope) _ o m),
        )

-- If GORM makes a statement with a text of every scope, then a builder and a router that the
-- constructors made answer a plan of events for exactly the valid queries: the keys given, offset,
-- bounds and number of filters as the policy wants them, each filter of the allowlists with a value,
-- each property filter with a trimmed name and a scope that the policy or the query itself allows and
-- of a known type, and the order of the allowlists.
pub events-accepted_iff :
    (sha256 : Text → Text) (statement : Scope → Option (Text × List Arg)) (prefix : Text)
    (router : TableRouter) (options : List EventQueryBuilderOption) (b : EventQueryBuilder)
    (query : EventListQuery)
    → IsDigest sha256
    → ((scope : Scope)
        → (made : Text × List Arg) × (statement scope ≡ some made) × (is_empty made.0 ≡ false))
    → new_table_router prefix ≡ routed router
    → new_event_query_builder router options ≡ ok b
    → (((plan : EventQueryPlan) × (build_events_query sha256 statement b query ≡ answer plan))
        → IsValidQuery b.policy query)
      × (IsValidQuery b.policy query
          → (plan : EventQueryPlan) × (build_events_query sha256 statement b query ≡ answer plan))
unfolding build_events_query
events-accepted_iff sha256 statement prefix router options b query digest states h k =
    let safe : table_prefix_pattern b.router.prefix ≡ true =
      ap (λ r. table_prefix_pattern r.prefix) (builder-router router options b k)
      ∙ router-safe prefix router h in
    (
      λ planned. accepted-valid sha256 statement b digest events_family query planned.0 planned.1,
      λ valid. valid-accepted sha256 statement b digest safe states events_family query valid,
    )
