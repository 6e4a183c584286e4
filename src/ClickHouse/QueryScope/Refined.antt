-- ===== src/ClickHouse/QueryScope/Refined.antt =====
-- storage/clickhouse/query_builder.go: the clauses of a query select what the query asks for.
use analytics_core.Prelude.{
  ◌≡◌, refl, sym, ap, ◌∙◌, Bool, true, false, not, ◌||◌, ◌&&◌, none, some, inl, inr, List, [], ◌∷◌,
  ◌++◌, Text, txt, is_empty, text_eq, text_beq, text_beq_iff, lookup, Option-cases, arith, leb, ltb,
}
use analytics_core.ClickHouse.Tables.{Table}
use analytics_core.ClickHouse.Schema.{Arg, text_arg, time_arg, property_table_suffix}
use analytics_core.ClickHouse.EventQuery.{
  answer, EventFilter, EventListQuery, EventRecord, filter_equals,
}
use analytics_core.ClickHouse.QueryPolicy.{EventQueryBuilder, event_filter_columns}
use analytics_core.ClickHouse.QueryScope.{
  Clause, clause_of, Scope, source_scope, scope_from, scope_until, named_scope,
  build_filtered_events_scope, where_if, routed_scope, is_zero,
}
use analytics_core.ClickHouse.QueryScope.Built.{IsPropertyClause, build-IsBuilt}
use analytics_core.ClickHouse.QueryScope.Clauses.{Each, IsFilterClause}
use analytics_core.ClickHouse.QueryScope.Selecting.{
  and_assoc, and_true, operator-text, property-refines,
}
use analytics_core.ClickHouse.QueryScope.Matching.{
  all_of, text_columns, operator_text, in_source, Sql, satisfies, filter_matches, matches_query,
  property_matches,
}

regroup :
    (s a b c d x y z : Bool)
    → (s ≡ true → y ≡ z)
    → ((((((s && a) && b) && c) && d) && x) && y) ≡ (s && (a && (b && (c && (d && (x && z))))))
regroup false a b c d x y z h = refl
regroup true false b c d x y z h = refl
regroup true true false c d x y z h = refl
regroup true true true false d x y z h = refl
regroup true true true true false x y z h = refl
regroup true true true true true false y z h = refl
regroup true true true true true true y z h = h refl

all_of-append {ℓ} :
    {A : Type ℓ} (test : A → Bool) (xs ys : List A)
    → all_of test (xs ++ ys) ≡ (all_of test xs && all_of test ys)
all_of-append test [] ys = refl
all_of-append test (x ∷ xs) ys =
    ap (λ b. test x && b) (all_of-append test xs ys)
    ∙ sym (and_assoc (test x) (all_of test xs) (all_of test ys))

column-name : (name column : Text) → lookup name event_filter_columns ≡ some column → column ≡ name
unfolding lookup
column-name name column h = ground (
  arith,
  h,
  text_beq_iff (txt "event_name") name,
  text_beq_iff (txt "distinct_id") name,
  text_beq_iff (txt "session_id") name,
  text_beq_iff (txt "visit_id") name,
  text_beq_iff (txt "source_type") name,
)

absent :
    (name column : Text)
    → lookup name text_columns ≡ none
    → lookup name event_filter_columns ≡ some column
    → ⊥
unfolding lookup
absent name column h k = ground (arith, h, k)

-- A column of the allowlist holds the field of its filter.
column-field :
    (name column : Text)
    → lookup name event_filter_columns ≡ some column
    → (field : EventRecord → Text) × (lookup column text_columns ≡ some field)
      × (lookup name text_columns ≡ some field)
column-field name column h = elim (Option-cases (lookup name text_columns)) [
  | inl missing ↦ absurd (absent name column missing h)
  | inr (field, found) ↦
      (field, ap (λ c. lookup c text_columns) (column-name name column h) ∙ found, found)
]

clause_eq :
    (c : Clause) {text : Text} {args : List Arg}
    → c.text ≡ text
    → c.args ≡ args
    → c ≡ clause_of text args
clause_eq c h k = λ i. record { text = h i; args = k i }

module _ (sql : Sql) (r : EventRecord) where
  filter-refines :
      (f : EventFilter) (c : Clause) → IsFilterClause f c → sql.holds c r ≡ filter_matches r f
  unfolding filter_matches
  filter-refines f c is =
      let (field, of_column, of_name) = column-field f.field is.column is.known_column in
      let same : c
          ≡ clause_of
              (is.column
                ++ (txt " " ++ (operator_text (text_beq f.operator filter_equals) ++ txt " ?")))
              (text_arg f.value ∷ []) =
        clause_eq c
          (is.text
            ∙ ap (λ o. is.column ++ (txt " " ++ (o ++ txt " ?")))
                (operator-text f.operator is.operator is.known_operator))
          is.args in
      rw (of_name, filter_matches)
        (ap (λ c. sql.holds c r) same
          ∙ sql.holds_compare is.column field (text_beq f.operator filter_equals) f.value r
              of_column)

  Each-refines :
      {A : Type 0} (P : A → Clause → Type 0) (test : A → Bool)
      → ((a : A) (c : Clause) → P a c → sql.holds c r ≡ test a)
      → (xs : List A) (cs : List Clause) → Each P xs cs
      → satisfies sql cs r ≡ all_of test xs
  Each-refines P test h [] [] e = refl
  Each-refines P test h [] (c ∷ cs) e = absurd e
  Each-refines P test h (a ∷ xs) [] e = absurd e
  Each-refines P test h (a ∷ xs) (c ∷ cs) e =
      ap (λ b. b && satisfies sql cs r) (h a c e.0)
      ∙ ap (λ b. test a && b) (Each-refines P test h xs cs e.1)

  where_if-satisfies :
      (given : Bool) (text : Text) (arg : Arg) (scope : Scope)
      → satisfies sql (where_if given text arg scope).wheres r
        ≡ (satisfies sql scope.wheres r && (not given || sql.holds (clause_of text (arg ∷ [])) r))
  where_if-satisfies true text arg scope =
      all_of-append (λ c. sql.holds c r) scope.wheres (clause_of text (arg ∷ []) ∷ [])
      ∙ ap (λ b. satisfies sql scope.wheres r && b) (and_true _)
  where_if-satisfies false text arg scope = sym (and_true (satisfies sql scope.wheres r))

  bound-step :
      (absent : Bool) (text : Text) (arg : Arg) (scope : Scope) {inner test : Bool}
      → satisfies sql scope.wheres r ≡ inner
      → sql.holds (clause_of text (arg ∷ [])) r ≡ test
      → satisfies sql (where_if (not absent) text arg scope).wheres r ≡ (inner && (absent || test))
  bound-step true text arg scope h k = h ∙ sym (and_true _)
  bound-step false text arg scope {inner = inner} h k =
      where_if-satisfies true text arg scope
      ∙ ap (λ b. b && sql.holds (clause_of text (arg ∷ [])) r) h
      ∙ ap (λ b. inner && b) k

  -- The clauses of the route and the bounds.
  routed-refines :
      (table : Table) (query : EventListQuery)
      → satisfies sql (routed_scope table query).wheres r ≡ (
          (((in_source query.tenant_id query.project_id query.source_id r
                && (is_zero query.from || leb query.from r.event_time))
              && (is_zero query.to || ltb r.event_time query.to))
            && (is_empty query.event_name || text_beq r.event_name query.event_name))
          && (is_empty query.distinct_id || text_beq r.distinct_id query.distinct_id))
  unfolding routed_scope lookup text_beq
  routed-refines table query =
      bound-step (is_empty query.distinct_id) (txt "distinct_id = ?") (text_arg query.distinct_id)
        (named_scope table query)
        (bound-step (is_empty query.event_name) (txt "event_name = ?") (text_arg query.event_name)
          (scope_until table query)
          (bound-step (is_zero query.to) (txt "event_time < ?") (time_arg query.to)
            (scope_from table query)
            (bound-step (is_zero query.from) (txt "event_time >= ?") (time_arg query.from)
              (source_scope table query)
              (and_true _ ∙ sql.holds_source query.tenant_id query.project_id query.source_id r)
              (sql.holds_from query.from r))
            (sql.holds_to query.to r))
          (sql.holds_compare (txt "event_name") (λ r. r.event_name) true query.event_name r refl))
        (sql.holds_compare (txt "distinct_id") (λ r. r.distinct_id) true query.distinct_id r refl)

-- If the builder answers a scope, its clauses hold of a stored event exactly if the event is what
-- the query asks for: of its source, within its times, of the name and the visitor if they are
-- given, and with all its filters and property filters met. SQL means what the interface says.
pub build-refines :
    (sql : Sql) (sha256 : Text → Text) (b : EventQueryBuilder) (query : EventListQuery)
    (built : Scope × Table) (r : EventRecord)
    → build_filtered_events_scope sha256 b query ≡ answer built
    → satisfies sql built.0.wheres r
      ≡ matches_query sql (sql.property_rows (built.1.physical ++ property_table_suffix)) query r
unfolding matches_query
build-refines sql sha256 b query built r h =
    let is = build-IsBuilt sha256 b query built h in
    ap (λ s. satisfies sql s.wheres r) is.wheres
    ∙ all_of-append (λ c. sql.holds c r) ((routed_scope built.1 query).wheres ++ is.scalars)
        is.typed
    ∙ ap (λ x. x && satisfies sql is.typed r)
        (all_of-append (λ c. sql.holds c r) (routed_scope built.1 query).wheres is.scalars
          ∙ ap (λ x. x && satisfies sql is.scalars r) (routed-refines sql r built.1 query)
          ∙ ap
              (λ x.
                ((((in_source query.tenant_id query.project_id query.source_id r
                        && (is_zero query.from || leb query.from r.event_time))
                      && (is_zero query.to || ltb r.event_time query.to))
                    && (is_empty query.event_name || text_beq r.event_name query.event_name))
                  && (is_empty query.distinct_id || text_beq r.distinct_id query.distinct_id))
                && x)
              (Each-refines sql r IsFilterClause (filter_matches r) (filter-refines sql r)
                query.filters is.scalars is.each_scalar))
    ∙ regroup _ _ _ _ _ _ _ _ (λ inside.
      Each-refines sql r (IsPropertyClause b.policy built.1 query)
        (property_matches sql (sql.property_rows (built.1.physical ++ property_table_suffix)) r)
        (property-refines sql r b.policy built.1 query inside) query.property_filters is.typed
        is.each_typed)
