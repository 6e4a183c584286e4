-- ===== src/ClickHouse/QueryPlans/Errors.antt =====
-- storage/clickhouse/query_builder.go: the errors of the builder are ErrInvalidEventQuery.
use analytics_core.Prelude.{
  ◌≡◌, sym, ap, ◌∙◌, true, false, Option, some, inl, inr, List, Text, is_empty, text_eq,
  Option-cases,
}
use analytics_core.Contracts.{ℤ}
use analytics_core.ClickHouse.Tables.{
  Table, TableRouter, Routed, routed, unrouted, new_table_router, table_prefix_pattern,
}
use analytics_core.ClickHouse.Tables.Names.{routed-safe, router-safe}
use analytics_core.Collect.Digest.{IsDigest}
use analytics_core.Storage.Backends.{ok}
use analytics_core.ClickHouse.QueryScope.Clauses.{answer_eq}
use analytics_core.ClickHouse.QueryScope.Failing.{
  IsInvalid, >>=-failure, check-failure, filters-failure, properties-failure, order-failure,
  routable-failure,
}
use analytics_core.ClickHouse.QueryPlans.{
  build_plan, build_events_query_of, build_events_query, build_realtime_query,
  build_event_count_query, realtime_query_as_list_query, event_count_query_as_list_query,
}
use analytics_core.ClickHouse.Schema.{Arg}
use analytics_core.ClickHouse.EventQuery.{
  EventListQuery, EventCountQuery, RealtimeQuery, EventQueryFamily, events_family, realtime_family,
  EventQueryEvidence, QueryError, answer, failure,
}
use analytics_core.ClickHouse.QueryPolicy.{
  EventQueryBuilder, EventQueryBuilderOption, new_event_query_builder, apply_options,
  default_read_side_policy, validate,
}
use analytics_core.ClickHouse.QueryScope.{
  Scope, routed_scope, check_query, route_query, routable, apply_event_filters,
  apply_property_filters, build_filtered_events_scope, apply_events_order,
}

ok_eq : {A : Type 0} {a b : A} → ok a ≡ ok b → a ≡ b
ok_eq h = cc

pub builder-router :
    (router : TableRouter) (options : List EventQueryBuilderOption) (b : EventQueryBuilder)
    → new_event_query_builder router options ≡ ok b
    → b.router ≡ router
unfolding new_event_query_builder
builder-router router options b h =
    elim (Option-cases (validate (apply_options options default_read_side_policy))) [
      | inr (e, refused) ↦ absurd (cc (rw (refused, new_event_query_builder) at h))
      | inl accepted ↦
          ap (λ b. b.router) (ok_eq (sym (rw (accepted, new_event_query_builder) at h)))
    ]

pub route-answer : (r : Routed Table) {t : Table} → routable r ≡ answer t → r ≡ routed t
route-answer (routed t) h = ap routed (answer_eq h)
route-answer (unrouted e) h = absurd (cc h)

module _ (sha256 : Text → Text) (digest : IsDigest sha256) (b : EventQueryBuilder)
    (safe : table_prefix_pattern b.router.prefix ≡ true) where
  scope-failure :
      (query : EventListQuery) {e : QueryError}
      → build_filtered_events_scope sha256 b query ≡ failure e
      → IsInvalid e
  unfolding build_filtered_events_scope route_query
  scope-failure query h = elim (>>=-failure (check_query b.policy query) _ h) [
    | inl here ↦ check-failure b.policy query here
    | inr (u, c, h1) ↦ elim (>>=-failure (route_query sha256 b query) _ h1) [
      | inl here ↦ routable-failure _ here
      | inr (table, t, h2) ↦
          elim (>>=-failure (apply_event_filters 0 query.filters (routed_scope table query)) _ h2) [
            | inl here ↦ filters-failure 0 query.filters (routed_scope table query) here
            | inr (filtered, f, h3) ↦
                elim (>>=-failure
                  (apply_property_filters b.policy table query 0 query.property_filters filtered) _
                  h3) [
                    | inl here ↦
                        properties-failure b.policy table query
                          (routed-safe sha256 digest b.router _ table safe (route-answer _ t)) 0
                          query.property_filters filtered here
                    | inr (scope, p, h4) ↦ absurd (cc h4)
                  ]
          ]
    ]
  ]

  module _ (statement : Scope → Option (Text × List Arg))
      (states : (scope : Scope)
        → (made : Text × List Arg) × (statement scope ≡ some made)
          × (is_empty made.0 ≡ false)) where
    plan-failure :
        (scope : Scope) (table : Table) (limit : ℤ) (evidence : EventQueryEvidence) {e : QueryError}
        → build_plan statement scope table limit evidence ≡ failure e
        → ⊥
    unfolding build_plan
    plan-failure scope table limit evidence h =
        let (made, found, given) = states scope in
        cc (rw (given, build_plan) at (rw (found, build_plan) at h))

    events-failure :
        (family : EventQueryFamily) (query : EventListQuery) {e : QueryError}
        → build_events_query_of sha256 statement family b query ≡ failure e
        → IsInvalid e
    unfolding build_events_query_of
    events-failure family query h =
        elim (>>=-failure (build_filtered_events_scope sha256 b query) _ h) [
          | inl here ↦ scope-failure query here
          | inr (built, p, h1) ↦
              elim (>>=-failure (apply_events_order query.sort_field query.sort_direction built.0) _
                h1) [
                  | inl here ↦ order-failure query.sort_field query.sort_direction built.0 here
                  | inr (sorted, q, h2) ↦ absurd (plan-failure _ built.1 _ _ h2)
                ]
        ]

    count-failure :
        (query : EventCountQuery) {e : QueryError}
        → build_event_count_query sha256 statement b query ≡ failure e
        → IsInvalid e
    unfolding build_event_count_query
    count-failure query h =
        elim (>>=-failure
          (build_filtered_events_scope sha256 b (event_count_query_as_list_query query)) _ h) [
            | inl here ↦ scope-failure (event_count_query_as_list_query query) here
            | inr (built, p, h1) ↦ absurd (plan-failure _ built.1 _ _ h1)
          ]

-- If GORM makes a statement with a text of every scope, then every error of the three queries, of a
-- builder and a router that the constructors made, is ErrInvalidEventQuery.
pub queries-IsInvalid :
    (sha256 : Text → Text) (statement : Scope → Option (Text × List Arg)) (prefix : Text)
    (router : TableRouter) (options : List EventQueryBuilderOption) (b : EventQueryBuilder)
    → IsDigest sha256
    → ((scope : Scope)
        → (made : Text × List Arg) × (statement scope ≡ some made) × (is_empty made.0 ≡ false))
    → new_table_router prefix ≡ routed router
    → new_event_query_builder router options ≡ ok b
    → ((query : EventListQuery) (e : QueryError)
        → build_events_query sha256 statement b query ≡ failure e
        → IsInvalid e)
      × ((query : RealtimeQuery) (e : QueryError)
          → build_realtime_query sha256 statement b query ≡ failure e
          → IsInvalid e)
      × ((query : EventCountQuery) (e : QueryError)
          → build_event_count_query sha256 statement b query ≡ failure e
          → IsInvalid e)
unfolding build_events_query build_realtime_query
queries-IsInvalid sha256 statement prefix router options b digest states h k =
    let safe : table_prefix_pattern b.router.prefix ≡ true =
      ap (λ r. table_prefix_pattern r.prefix) (builder-router router options b k)
      ∙ router-safe prefix router h in
    (
      λ query e failed.
          events-failure sha256 digest b safe statement states events_family query failed,
      λ query e failed.
          events-failure sha256 digest b safe statement states realtime_family
            (realtime_query_as_list_query b query) failed,
      λ query e failed. count-failure sha256 digest b safe statement states query failed,
    )
