-- ===== src/ClickHouse/QueryScope/Built.antt =====
-- storage/clickhouse/query_builder.go: what a scope consists of, once the builder has answered it.
use analytics_core.Prelude.{
  Bool, not, is_empty, ℕ, suc, ◌≡◌, refl, sym, ap, ◌∙◌, true, false, some, ◌⊎◌, inl, inr, List, [],
  ◌∷◌, Text, text_eq, lookup,
}
use mathlib.Core.Path.{subst}
use analytics_core.ClickHouse.Tables.{Table, Routed, routed, unrouted}
use analytics_core.ClickHouse.Schema.{Arg, property_table_for}
use analytics_core.ClickHouse.EventQuery.{
  EventPropertyFilter, PropertySelector, SelectorError, not_allowlisted, EventListQuery, answer,
  reject_if, >>=-answer, reject-answer,
}
use analytics_core.ClickHouse.QueryPolicy.{
  ReadSidePolicy, EventQueryBuilder, event_filter_operators, normalize_property_selector,
  property_selector_allowed, normalize_filter_operator,
}
use analytics_core.ClickHouse.QueryScope.{
  base_scope, where_if, named_scope, scope_until, scope_from, source_scope, is_zero, Clause, Scope,
  where_clause, check_query, route_query, routed_scope, apply_event_filters, apply_property_filters,
  build_property_filter_predicate, build_filtered_events_scope, base_predicate, base_args, selected,
  property_table,
}
use analytics_core.ClickHouse.QueryScope.Clauses.{
  with_wheres, answer_eq, with_wheres-nil, with_wheres-cons, Each, IsFilterClause, operator-answer,
  apply_event_filters-Each, IsValueClause, true_of_not, value_predicate-Is,
}

pub record IsPropertyClause (p : ReadSidePolicy) (table : Table) (query : EventListQuery)
    (f : EventPropertyFilter) (c : Clause) : Type 0 where
  pub selector : PropertySelector
  pub properties : Table
  pub operator : Text
  pub selects : normalize_property_selector f.scope f.name ≡ inr selector
  pub allowed : property_selector_allowed p query selector ≡ true
  pub known_operator : lookup f.operator event_filter_operators ≡ some operator
  pub paired : property_table_for table ≡ routed properties
  pub value :
      IsValueClause f operator
        (base_predicate properties.physical)
        (base_args query selector f.value_type)
        c

selected-answer :
    (idx : ℕ) (r : SelectorError ⊎ PropertySelector) {selector : PropertySelector}
    → selected idx r ≡ answer selector
    → r ≡ inr selector
selected-answer idx (inl refused) h = cc
selected-answer idx (inr s) h = ap inr (answer_eq h)

table-answer : (r : Routed Table) {t : Table} → property_table r ≡ answer t → r ≡ routed t
table-answer (routed t) h = ap routed (answer_eq h)
table-answer (unrouted e) h = cc

module _ (p : ReadSidePolicy) (table : Table) (query : EventListQuery) where
  predicate-Is :
      (idx : ℕ) (f : EventPropertyFilter) {c : Clause}
      → build_property_filter_predicate p table query idx f ≡ answer c
      → IsPropertyClause p table query f c
  unfolding build_property_filter_predicate
  predicate-Is idx f h =
      let (selector, s, h1) =
        >>=-answer (selected idx (normalize_property_selector f.scope f.name)) _ h in
      let (u, a, h2) =
        >>=-answer
          (reject_if (not (property_selector_allowed p query selector))
            (not_allowlisted idx selector))
          _ h1 in
      let (operator, o, h3) = >>=-answer (normalize_filter_operator f.operator) _ h2 in
      let (properties, t, h4) = >>=-answer (property_table (property_table_for table)) _ h3 in
      record {
        selector = selector;
        properties = properties;
        operator = operator;
        selects = selected-answer idx (normalize_property_selector f.scope f.name) s;
        allowed = true_of_not (reject-answer _ (not_allowlisted idx selector) a);
        known_operator = operator-answer f.operator o;
        paired = table-answer (property_table_for table) t;
        value =
            value_predicate-Is idx f operator (base_predicate properties.physical)
              (base_args query selector f.value_type) h4;
      }

  -- The property filters of a query add their clauses in order.
  pub apply_property_filters-Each :
      (idx : ℕ) (filters : List EventPropertyFilter) (scope : Scope) {result : Scope}
      → apply_property_filters p table query idx filters scope ≡ answer result
      → (cs : List Clause) × (result ≡ with_wheres scope cs)
        × Each (IsPropertyClause p table query) filters cs
  unfolding apply_property_filters
  apply_property_filters-Each idx [] scope h = ([], answer_eq (sym h) ∙ with_wheres-nil scope, tt)
  apply_property_filters-Each idx (f ∷ filters) scope h =
      let (c, q, later) = >>=-answer (build_property_filter_predicate p table query idx f) _ h in
      let (cs, e, each) =
        apply_property_filters-Each (suc idx) filters (where_clause c scope) later in
      (c ∷ cs, e ∙ with_wheres-cons scope c cs, (predicate-Is idx f q, each))

-- What the builder answers: the clauses of the route and the bounds, then those of the filters,
-- then those of the property filters.
module _ (sha256 : Text → Text) (b : EventQueryBuilder) (query : EventListQuery) where
  pub record IsBuilt (built : Scope × Table) : Type 0 where
    pub scalars : List Clause
    pub typed : List Clause
    pub checked : check_query b.policy query ≡ answer tt
    pub routes : route_query sha256 b query ≡ answer built.1
    pub wheres : built.0 ≡ with_wheres (with_wheres (routed_scope built.1 query) scalars) typed
    pub each_scalar : Each IsFilterClause query.filters scalars
    pub each_typed : Each (IsPropertyClause b.policy built.1 query) query.property_filters typed

  pub build-IsBuilt :
      (built : Scope × Table)
      → build_filtered_events_scope sha256 b query ≡ answer built
      → IsBuilt built
  unfolding build_filtered_events_scope
  build-IsBuilt built h =
      let (u, checked, h1) = >>=-answer (check_query b.policy query) _ h in
      let (t, routes, h2) = >>=-answer (route_query sha256 b query) _ h1 in
      let (filtered, scalar, h3) =
        >>=-answer (apply_event_filters 0 query.filters (routed_scope t query)) _ h2 in
      let (s, property, h4) =
        >>=-answer (apply_property_filters b.policy t query 0 query.property_filters filtered) _
          h3 in
      let (scalars, e, each) =
        apply_event_filters-Each 0 query.filters (routed_scope t query) scalar in
      let (typed, d, each') =
        apply_property_filters-Each b.policy t query 0 query.property_filters filtered property in
      subst IsBuilt (answer_eq h4) (record {
        scalars = scalars;
        typed = typed;
        checked = checked;
        routes = routes;
        wheres = d ∙ ap (λ f. with_wheres f typed) e;
        each_scalar = each;
        each_typed = each';
      })

abbrev bare : Scope → Scope
bare scope = record scope { wheres = [] }

where_if-bare :
    (given : Bool) (text : Text) (arg : Arg) (scope : Scope)
    → bare (where_if given text arg scope) ≡ bare scope
where_if-bare true text arg scope = refl
where_if-bare false text arg scope = refl

routed-bare :
    (table : Table) (query : EventListQuery)
    → bare (routed_scope table query) ≡ base_scope table.physical
unfolding routed_scope
routed-bare table query =
    where_if-bare (not (is_empty query.distinct_id)) _ _ (named_scope table query)
    ∙ where_if-bare (not (is_empty query.event_name)) _ _ (scope_until table query)
    ∙ where_if-bare (not (is_zero query.to)) _ _ (scope_from table query)
    ∙ where_if-bare (not (is_zero query.from)) _ _ (source_scope table query)

-- Clauses are all that the builder adds to the scope of a table.
pub built-base :
    (sha256 : Text → Text) (b : EventQueryBuilder) (query : EventListQuery) (built : Scope × Table)
    → build_filtered_events_scope sha256 b query ≡ answer built
    → record built.0 { wheres = [] } ≡ base_scope built.1.physical
built-base sha256 b query built builds =
    ap bare (build-IsBuilt sha256 b query built builds).wheres ∙ routed-bare built.1 query
