-- ===== src/ClickHouse/QueryPlans/Bounded.antt =====
-- storage/clickhouse/query_builder.go: the bounds that every plan keeps.
use analytics_core.Prelude.{
  ◌≡◌, refl, sym, ap, ◌∙◌, true, false, Option, none, inl, inr, List, Text, Option-cases, arith,
}
use analytics_core.Contracts.{int_ltb, ℤ, pos}
use analytics_core.Storage.Backends.{ok}
use analytics_core.ClickHouse.Tables.{TableRouter}
use analytics_core.ClickHouse.Schema.{Arg}
use analytics_core.ClickHouse.EventQuery.{
  EventListQuery, EventQueryFamily, EventQueryPlan, EventQueryEvidence, answer,
}
use analytics_core.ClickHouse.QueryPolicy.{
  ReadSidePolicy, EventQueryBuilder, EventQueryBuilderOption, new_event_query_builder,
  apply_options, default_read_side_policy, validate, normalize_limit, default_events_limit,
}
use analytics_core.ClickHouse.QueryScope.{Scope}
use analytics_core.ClickHouse.QueryScope.Built.{build-IsBuilt}
use analytics_core.ClickHouse.QueryScope.Checked.{IsChecked, check_query-IsChecked}
use analytics_core.ClickHouse.QueryPlans.{build_events_query_of, build_evidence}
use analytics_core.ClickHouse.QueryPlans.Planned.{events-IsEventsPlan}

ok_eq : {A : Type 0} {a b : A} → ok a ≡ ok b → a ≡ b
ok_eq h = cc

pub builder-validates :
    (router : TableRouter) (options : List EventQueryBuilderOption) (b : EventQueryBuilder)
    → new_event_query_builder router options ≡ ok b
    → validate b.policy ≡ none
unfolding new_event_query_builder
builder-validates router options b h =
    elim (Option-cases (validate (apply_options options default_read_side_policy))) [
      | inr (e, refused) ↦ absurd (cc (rw (refused, new_event_query_builder) at h))
      | inl accepted ↦
          ap (λ b. validate b.policy) (ok_eq (sym (rw (accepted, new_event_query_builder) at h)))
          ∙ accepted
    ]

pub limit-range :
    (p : ReadSidePolicy) (limit fallback : ℤ)
    → validate p ≡ none
    → int_ltb (pos 0) fallback ≡ true
    → (int_ltb (pos 0) (normalize_limit p limit fallback) ≡ true)
      × (int_ltb p.max_query_limit (normalize_limit p limit fallback) ≡ false)
unfolding validate normalize_limit
limit-range p limit fallback h k = ground (arith, h, k)

effective :
    (family : EventQueryFamily) (query : EventListQuery) {evidence : EventQueryEvidence} {limit : ℤ}
    → evidence ≡ build_evidence family query limit
    → evidence.effective_limit ≡ limit
unfolding build_evidence
effective family query h = ap (λ e. e.effective_limit) h

-- What a plan keeps to: a limit from 1 to the policy's maximum, which the evidence names, an offset
-- that is not negative, a number of filters within the policy's, bounds in order, and property
-- filters only within a window of the policy's length.
pub record IsBounded (p : ReadSidePolicy) (query : EventListQuery) (plan : EventQueryPlan)
    : Type 0 where
  pub at_least_one : int_ltb (pos 0) plan.limit ≡ true
  pub at_most : int_ltb p.max_query_limit plan.limit ≡ false
  pub evident : plan.evidence.effective_limit ≡ plan.limit
  pub checked : IsChecked p query

-- Every plan of events of a builder that the constructor made, of whatever options, is bounded.
pub events-IsBounded :
    (sha256 : Text → Text) (statement : Scope → Option (Text × List Arg)) (router : TableRouter)
    (options : List EventQueryBuilderOption) (b : EventQueryBuilder) (family : EventQueryFamily)
    (query : EventListQuery) (plan : EventQueryPlan)
    → new_event_query_builder router options ≡ ok b
    → build_events_query_of sha256 statement family b query ≡ answer plan
    → IsBounded b.policy query plan
events-IsBounded sha256 statement router options b family query plan h k =
    let is = events-IsEventsPlan statement sha256 b family query plan k in
    let (low, high) =
      limit-range b.policy query.limit default_events_limit (builder-validates router options b h)
        refl in
    record {
      at_least_one = ap (int_ltb (pos 0)) is.plans.limited ∙ low;
      at_most = ap (int_ltb b.policy.max_query_limit) is.plans.limited ∙ high;
      evident = effective family query is.plans.evident ∙ sym is.plans.limited;
      checked =
          check_query-IsChecked b.policy query
            (build-IsBuilt sha256 b query is.built is.builds).checked;
    }
