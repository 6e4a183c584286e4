-- ===== src/ClickHouse/QueryPlans/Planned.antt =====
-- storage/clickhouse/query_builder.go: a plan is what GORM makes of a scope of the builder.
use analytics_core.Prelude.{
  ◌≡◌, refl, false, Option, some, inl, inr, List, Text, is_empty, Option-cases, Bool-cases,
}
use mathlib.Core.Path.{subst}
use analytics_core.Contracts.{ℤ, pos}
use analytics_core.ClickHouse.Tables.{Table}
use analytics_core.ClickHouse.Schema.{Arg}
use analytics_core.ClickHouse.EventQuery.{
  EventListQuery, EventCountQuery, EventQueryFamily, goal_family, EventQueryEvidence,
  EventQueryPlan, answer, >>=-answer,
}
use analytics_core.ClickHouse.QueryPolicy.{EventQueryBuilder, normalize_limit, default_events_limit}
use analytics_core.ClickHouse.QueryScope.{Scope, build_filtered_events_scope, apply_events_order}
use analytics_core.ClickHouse.QueryScope.Clauses.{answer_eq}
use analytics_core.ClickHouse.QueryPlans.{
  build_plan, build_evidence, build_events_query_of, build_event_count_query, paged, count_columns,
  event_count_query_as_list_query,
}

module _ (statement : Scope → Option (Text × List Arg)) where
  pub record IsPlan (scope : Scope) (table : Table) (limit : ℤ) (evidence : EventQueryEvidence)
      (plan : EventQueryPlan) : Type 0 where
    pub states : statement scope ≡ some (plan.sql, plan.args)
    pub some_text : is_empty plan.sql ≡ false
    pub logical : plan.logical_table ≡ table.logical
    pub physical : plan.physical_table ≡ table.physical
    pub limited : plan.limit ≡ limit
    pub evident : plan.evidence ≡ evidence

  build_plan-IsPlan :
      (scope : Scope) (table : Table) (limit : ℤ) (evidence : EventQueryEvidence)
      (plan : EventQueryPlan)
      → build_plan statement scope table limit evidence ≡ answer plan
      → IsPlan scope table limit evidence plan
  unfolding build_plan
  build_plan-IsPlan scope table limit evidence plan h = elim (Option-cases (statement scope)) [
    | inl nothing ↦ absurd (cc (rw (nothing, build_plan) at h))
    | inr (made, found) ↦ elim (Bool-cases (is_empty made.0)) [
      | inl empty ↦ absurd (cc (rw (empty, build_plan) at (rw (found, build_plan) at h)))
      | inr given ↦
          subst (IsPlan scope table limit evidence)
            (answer_eq (rw (given, build_plan) at (rw (found, build_plan) at h)))
            (record {
              states = found;
              some_text = given;
              logical = refl;
              physical = refl;
              limited = refl;
              evident = refl;
            })
    ]
  ]

  module _ (sha256 : Text → Text) (b : EventQueryBuilder) where
    -- A plan of events: its scope, its order, and what GORM made of them.
    pub record IsEventsPlan (family : EventQueryFamily) (query : EventListQuery)
        (plan : EventQueryPlan) : Type 0 where
      pub built : Scope × Table
      pub sorted : Scope
      pub builds : build_filtered_events_scope sha256 b query ≡ answer built
      pub sorts : apply_events_order query.sort_field query.sort_direction built.0 ≡ answer sorted
      pub plans :
          IsPlan
            (paged (normalize_limit b.policy query.limit default_events_limit) query.offset sorted)
            built.1
            (normalize_limit b.policy query.limit default_events_limit)
            (build_evidence family query
              (normalize_limit b.policy query.limit default_events_limit))
            plan

    pub events-IsEventsPlan :
        (family : EventQueryFamily) (query : EventListQuery) (plan : EventQueryPlan)
        → build_events_query_of sha256 statement family b query ≡ answer plan
        → IsEventsPlan family query plan
    unfolding build_events_query_of
    events-IsEventsPlan family query plan h =
        let (built, p, h1) = >>=-answer (build_filtered_events_scope sha256 b query) _ h in
        let (sorted, q, h2) =
          >>=-answer (apply_events_order query.sort_field query.sort_direction built.0) _ h1 in
        record {
          built = built;
          sorted = sorted;
          builds = p;
          sorts = q;
          plans = build_plan-IsPlan _ built.1 _ _ plan h2;
        }

    pub record IsCountPlan (query : EventCountQuery) (plan : EventQueryPlan) : Type 0 where
      pub built : Scope × Table
      pub builds :
          build_filtered_events_scope sha256 b (event_count_query_as_list_query query)
          ≡ answer built
      pub plans :
          IsPlan
            (count_columns built.0)
            built.1
            (pos 0)
            (build_evidence goal_family (event_count_query_as_list_query query) (pos 0))
            plan

    pub count-IsCountPlan :
        (query : EventCountQuery) (plan : EventQueryPlan)
        → build_event_count_query sha256 statement b query ≡ answer plan
        → IsCountPlan query plan
    unfolding build_event_count_query
    count-IsCountPlan query plan h =
        let (built, p, h1) =
          >>=-answer (build_filtered_events_scope sha256 b (event_count_query_as_list_query query))
            _ h in
        record { built = built; builds = p; plans = build_plan-IsPlan _ built.1 _ _ plan h1 }
