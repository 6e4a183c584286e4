-- ===== src/ClickHouse/EventReader/Answers.antt =====
-- storage/clickhouse/event_reader.go with its query builder: what the reader answers of the rows that
-- are stored.
use analytics_core.Prelude.{
  ℕ, suc, ◌≡◌, refl, sym, ap, ◌∙◌, Bool, true, Option, none, some, ◌⊎◌, inl, inr, List, [], ◌∷◌,
  ◌++◌, Text, Bool-cases, if◌then◌else◌,
}
use analytics_core.Contracts.{ℤ, pos}
use analytics_core.ClickHouse.Schema.{Arg, property_table_suffix}
use analytics_core.ClickHouse.EventQuery.{
  EventCountQuery, EventRecord, DatabaseError, answer, >>=-answer,
}
use analytics_core.ClickHouse.QueryPolicy.{EventQueryBuilder}
use analytics_core.ClickHouse.QueryScope.{Scope}
use analytics_core.ClickHouse.QueryScope.Built.{built-base}
use analytics_core.ClickHouse.QueryScope.Clauses.{answer_eq}
use analytics_core.ClickHouse.QueryScope.Matching.{Sql, satisfies, matches_query}
use analytics_core.ClickHouse.QueryScope.Refined.{build-refines}
use analytics_core.ClickHouse.QueryPlans.{
  build_event_count_query, event_count_query_as_list_query, count_columns,
}
use analytics_core.ClickHouse.QueryPlans.Planned.{count-IsCountPlan}
use analytics_core.ClickHouse.EventReader.Routes.{table_of_query, built-table}
use analytics_core.ClickHouse.EventReader.{
  first_count, Database, scanned_count, execute_count_plan, count_events_with_evidence,
  count_events, is_missing_click_house_table_error,
}

abbrev pub count_of : (EventRecord → Bool) → List EventRecord → ℕ
count_of test [] = 0
count_of test (r ∷ rs) = let rest = count_of test rs in if test r then suc rest else rest

-- What GORM and ClickHouse do with a scope, in a database that stores rows by the names of their
-- tables: a count, without limit and offset, is of the rows that pass the clauses, and no error
-- hides rows.
pub record Counts (db : Database) (statement : Scope → Option (Text × List Arg)) (sql : Sql)
    (stored : Text → List EventRecord) : Type 0 where
  pub counts :
      (scope : Scope) (made : Text × List Arg) (ns : List ℤ)
      → scope.limit ≡ none
      → scope.offset ≡ none
      → statement (count_columns scope) ≡ some made
      → db.scan_counts made.0 made.1 ≡ inr ns
      → ns ≡ pos (count_of (satisfies sql scope.wheres) (stored scope.table)) ∷ []
  pub missing :
      (scope : Scope) (made : Text × List Arg) (e : DatabaseError)
      → statement (count_columns scope) ≡ some made
      → db.scan_counts made.0 made.1 ≡ inl e
      → is_missing_click_house_table_error e ≡ true
      → stored scope.table ≡ []

count_of-cong :
    (f g : EventRecord → Bool) (rs : List EventRecord)
    → ((r : EventRecord) → f r ≡ g r)
    → count_of f rs ≡ count_of g rs
count_of-cong f g [] h = refl
count_of-cong f g (r ∷ rs) h =
    ap (λ b. if b then suc (count_of f rs) else count_of f rs) (h r)
    ∙ ap (λ n. if g r then suc n else n) (count_of-cong f g rs h)

scanned-count :
    (scanned : DatabaseError ⊎ List ℤ) (expected : List EventRecord → ℕ) (rows : List EventRecord)
    (count : ℤ)
    → expected [] ≡ 0
    → ((ns : List ℤ) → scanned ≡ inr ns → ns ≡ pos (expected rows) ∷ [])
    → ((e : DatabaseError)
        → scanned ≡ inl e
        → is_missing_click_house_table_error e ≡ true
        → rows ≡ [])
    → scanned_count scanned ≡ answer count
    → count ≡ pos (expected rows)
unfolding scanned_count
scanned-count (inr ns) expected rows count zero h missing k =
    answer_eq (sym k) ∙ ap first_count (h ns refl)
scanned-count (inl e) expected rows count zero h missing k =
    elim (Bool-cases (is_missing_click_house_table_error e)) [
      | inr other ↦ absurd (cc (rw (other, scanned_count) at k))
      | inl gone ↦
          answer_eq (sym (rw (gone, scanned_count) at k))
          ∙ ap pos (sym (ap expected (missing e refl gone) ∙ zero))
    ]

-- The number that the reader answers is that of the stored events that the query asks for.
pub count-exact :
    (db : Database) (sha256 : Text → Text) (statement : Scope → Option (Text × List Arg))
    (b : EventQueryBuilder) (sql : Sql) (stored : Text → List EventRecord) (query : EventCountQuery)
    (count : ℤ)
    → Counts db statement sql stored
    → count_events db sha256 statement b query ≡ answer count
    → count
      ≡ pos (
          count_of
            (matches_query sql
              (sql.property_rows (
                table_of_query sha256 b (event_count_query_as_list_query query)
                ++ property_table_suffix))
              (event_count_query_as_list_query query))
            (stored (table_of_query sha256 b (event_count_query_as_list_query query))))
unfolding count_events count_events_with_evidence execute_count_plan
count-exact db sha256 statement b sql stored query count laws h =
    let list_query = event_count_query_as_list_query query in
    let (result, p, h1) = >>=-answer (count_events_with_evidence db sha256 statement b query) _ h in
    let (plan, q, h2) = >>=-answer (build_event_count_query sha256 statement b query) _ p in
    let (n, r, h3) = >>=-answer (execute_count_plan db plan) _ h2 in
    let is = count-IsCountPlan statement sha256 b query plan q in
    let scope = is.built.0 in
    let base = built-base sha256 b list_query is.built is.builds in
    answer_eq (sym h1)
    ∙ ap (λ r. r.count) (answer_eq (sym h3))
    ∙ scanned-count (db.scan_counts plan.sql plan.args) (count_of (satisfies sql scope.wheres))
        (stored scope.table) n refl
        (λ ns.
          laws.counts scope (plan.sql, plan.args) ns (ap (λ s. s.limit) base)
            (ap (λ s. s.offset) base) is.plans.states)
        (λ e. laws.missing scope (plan.sql, plan.args) e is.plans.states) r
    ∙ ap pos (
        count_of-cong (satisfies sql scope.wheres) _ (stored scope.table)
          (λ row. build-refines sql sha256 b list_query is.built row is.builds)
        ∙ ap
            (λ t.
              count_of
                (matches_query sql (sql.property_rows (t ++ property_table_suffix)) list_query)
                (stored scope.table))
            (built-table sha256 b list_query is.built is.builds).0
        ∙ ap
            (λ t.
              count_of
                (matches_query sql
                  (sql.property_rows (table_of_query sha256 b list_query ++ property_table_suffix))
                  list_query)
                (stored t))
            (built-table sha256 b list_query is.built is.builds).1)
