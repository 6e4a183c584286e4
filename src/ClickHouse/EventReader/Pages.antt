-- ===== src/ClickHouse/EventReader/Pages.antt =====
-- storage/clickhouse/event_reader.go with its query builder: what the records of a page are.
use analytics_core.Prelude.{
  suc, lookup, text_eq, ℕ, ◌≡◌, ◌≤◌, refl, sym, ap, ◌∙◌, Bool, true, false, Option, some, ◌⊎◌, inl,
  inr, List, [], ◌∷◌, ◌++◌, map, length, Text, txt, text_beq, All, Bool-cases, if◌then◌else◌, arith,
}
use mathlib.Core.Path.{subst}
use analytics_core.Contracts.{int_ltb, ℤ, pos, negsuc}
use analytics_core.Storage.Backends.{ok}
use analytics_core.ClickHouse.QueryPlans.Bounded.{limit-range, builder-validates}
use analytics_core.ClickHouse.Tables.{TableRouter, Table}
use analytics_core.ClickHouse.Schema.{Arg, property_table_suffix}
use analytics_core.ClickHouse.EventQuery.{
  EventListQuery, EventRecord, DatabaseError, events_family, answer, >>=-answer,
}
use analytics_core.ClickHouse.QueryPolicy.{
  EventQueryBuilderOption, new_event_query_builder, EventQueryBuilder, normalize_limit,
  normalize_sort_field, normalize_sort_direction, default_events_limit, event_select_columns,
}
use analytics_core.ClickHouse.QueryScope.{
  Scope, order, apply_events_order, build_filtered_events_scope,
}
use analytics_core.ClickHouse.QueryScope.Clauses.{answer_eq}
use analytics_core.ClickHouse.QueryScope.Matching.{Sql, satisfies, matches_query}
use analytics_core.ClickHouse.QueryScope.Refined.{build-refines}
use analytics_core.ClickHouse.QueryPlans.{build_events_query, paged}
use analytics_core.ClickHouse.QueryPlans.Planned.{events-IsEventsPlan}
use analytics_core.ClickHouse.Columns.{event_row, scan, one_of, is_event_column, are_event_columns}
use analytics_core.ClickHouse.QueryScope.Built.{built-base}
use analytics_core.ClickHouse.EventReader.{
  Database, EventRowModel, to_record, scanned_records, execute_plan, list_events_with_evidence,
  list_events, is_missing_click_house_table_error,
}
use mathlib.Core.List.{Mem}
use analytics_core.ClickHouse.EventReader.Routes.{table_of_query, built-table}

-- What GORM and ClickHouse do with a scope of columns of the table of events: each row is the scan of
-- these columns of an event that is stored and passes the clauses, and there are at most as many as
-- the limit.
pub record Pages (db : Database) (statement : Scope → Option (Text × List Arg)) (sql : Sql)
    (stored : Text → List EventRecord) : Type 0 where
  pub selected :
      (scope : Scope) (made : Text × List Arg) (rows : List EventRowModel)
      → are_event_columns scope.columns ≡ true
      → statement scope ≡ some made
      → db.scan_events made.0 made.1 ≡ inr rows
      → All
          (λ row.
            (r : EventRecord) × (row ≡ scan scope.columns (event_row r))
            × (satisfies sql scope.wheres r ≡ true)
            × Mem r (stored scope.table))
          rows
  pub limited :
      (scope : Scope) (made : Text × List Arg) (rows : List EventRowModel) (n : ℕ)
      → are_event_columns scope.columns ≡ true
      → statement scope ≡ some made
      → db.scan_events made.0 made.1 ≡ inr rows
      → scope.limit ≡ some (pos n)
      → length rows ≤ n

-- The columns that the builder selects give back the whole event.
select-event : (r : EventRecord) → to_record (scan event_select_columns (event_row r)) ≡ r
unfolding scan one_of lookup text_beq
select-event r = refl

select-columns : are_event_columns event_select_columns ≡ true
unfolding is_event_column one_of text_beq
select-columns = refl

-- The records of scanned rows.
records-All :
    (P : EventRecord → Type 0) (Q : EventRowModel → Type 0) (rows : List EventRowModel)
    → ((row : EventRowModel) → Q row → P (to_record row))
    → All Q rows
    → All P (map to_record rows)
records-All P Q [] h all = tt
records-All P Q (row ∷ rows) h all = (h row all.0, records-All P Q rows h all.1)

length-records : (rows : List EventRowModel) → length (map to_record rows) ≡ length rows
length-records [] = refl
length-records (row ∷ rows) = ap (λ n. suc n) (length-records rows)

-- The same table, columns and clauses.
record Same (scope sorted : Scope) : Type 0 where
  wheres : sorted.wheres ≡ scope.wheres
  table : sorted.table ≡ scope.table
  columns : sorted.columns ≡ scope.columns

Same-unless :
    (test : Bool) (text : Text) (scope : Scope)
    → Same scope (if test then scope else order text scope)
Same-unless true text scope = record { wheres = refl; table = refl; columns = refl }
Same-unless false text scope = record { wheres = refl; table = refl; columns = refl }

Same-then : {a b c : Scope} → Same a b → Same b c → Same a c
Same-then h k = record {
  wheres = k.wheres ∙ h.wheres;
  table = k.table ∙ h.table;
  columns = k.columns ∙ h.columns;
}

-- The orders behind the first one.
ordered-Same :
    (received timed : Bool) (scope : Scope)
    → let once = if timed then scope else order (txt "event_time DESC") scope in
      Same scope (if received then once else order (txt "received_at DESC") once)
ordered-Same received timed scope = Same-then (Same-unless timed (txt "event_time DESC") scope) (
    Same-unless received (txt "received_at DESC")
      (if timed then scope else order (txt "event_time DESC") scope))

order-Same :
    (field direction : Text) (scope sorted : Scope)
    → apply_events_order field direction scope ≡ answer sorted
    → Same scope sorted
unfolding apply_events_order
order-Same field direction scope sorted h =
    let (column, p, h1) = >>=-answer (normalize_sort_field field) _ h in
    let (dir, q, h2) = >>=-answer (normalize_sort_direction direction) _ h1 in
    let is =
      ordered-Same (text_beq column (txt "received_at")) (text_beq column (txt "event_time"))
        (order ((column ++ txt " ") ++ dir) scope) in
    let last = answer_eq (sym h2) in
    record {
      wheres = ap (λ s. s.wheres) last ∙ is.wheres;
      table = ap (λ s. s.table) last ∙ is.table;
      columns = ap (λ s. s.columns) last ∙ is.columns;
    }

paged-Same : (limit offset : ℤ) (scope : Scope) → Same scope (paged limit offset scope)
paged-Same limit offset scope = elim (Bool-cases (int_ltb (pos 0) offset)) [
  | inl later ↦ rw later (record { wheres = refl; table = refl; columns = refl })
  | inr first ↦ rw first (record { wheres = refl; table = refl; columns = refl })
]

paged-limit : (limit offset : ℤ) (scope : Scope) → (paged limit offset scope).limit ≡ some limit
paged-limit limit offset scope = elim (Bool-cases (int_ltb (pos 0) offset)) [
  | inl later ↦ rw later refl
  | inr first ↦ rw first refl
]

-- An answer of a page is the scanned rows, or nothing where the table is missing.
scanned-records :
    (scanned : DatabaseError ⊎ List EventRowModel) (records : List EventRecord)
    → scanned_records scanned ≡ answer records
    → (records ≡ [])
      ⊎ ((rows : List EventRowModel) × (scanned ≡ inr rows) × (records ≡ map to_record rows))
unfolding scanned_records
scanned-records (inr rows) records h = inr (rows, refl, answer_eq (sym h))
scanned-records (inl e) records h = elim (Bool-cases (is_missing_click_house_table_error e)) [
  | inr other ↦ absurd (cc (rw (other, scanned_records) at h))
  | inl gone ↦ inl (answer_eq (sym (rw (gone, scanned_records) at h)))
]

positive : (n : ℤ) → int_ltb (pos 0) n ≡ true → (m : ℕ) × (n ≡ pos m)
positive (pos m) h = (m, refl)
positive (negsuc m) h = absurd (cc h)

-- What a page of a query holds.
pub record IsPage (sql : Sql) (sha256 : Text → Text) (stored : Text → List EventRecord)
    (b : EventQueryBuilder) (query : EventListQuery) (records : List EventRecord) : Type 0 where
  pub asked :
      All
        (λ r.
          (matches_query sql
              (sql.property_rows (table_of_query sha256 b query ++ property_table_suffix))
              query
              r
            ≡ true)
          × Mem r (stored (table_of_query sha256 b query)))
        records
  pub limit : ℕ
  pub effective : normalize_limit b.policy query.limit default_events_limit ≡ pos limit
  pub within : length records ≤ limit

module _ (sql : Sql) (sha256 : Text → Text) (stored : Text → List EventRecord)
    (b : EventQueryBuilder) (query : EventListQuery) where
  abbrev limit_of : ℤ
  limit_of = normalize_limit b.policy query.limit default_events_limit

  abbrev IsAsked : EventRecord → Type 0
  IsAsked r =
      (matches_query sql
          (sql.property_rows (table_of_query sha256 b query ++ property_table_suffix)) query r
        ≡ true)
      × Mem r (stored (table_of_query sha256 b query))

  page-Same :
      (scope sorted : Scope)
      → apply_events_order query.sort_field query.sort_direction scope ≡ answer sorted
      → Same scope (paged limit_of query.offset sorted)
  page-Same scope sorted sorts =
      Same-then (order-Same query.sort_field query.sort_direction scope sorted sorts)
        (paged-Same limit_of query.offset sorted)

  -- The page selects the builder's columns.
  page-columns :
      (built : Scope × Table) (page : Scope)
      → build_filtered_events_scope sha256 b query ≡ answer built
      → Same built.0 page
      → page.columns ≡ event_select_columns
  page-columns built page builds same =
      same.columns ∙ ap (λ s. s.columns) (built-base sha256 b query built builds)

  row-IsAsked :
      (built : Scope × Table) (page : Scope)
      → build_filtered_events_scope sha256 b query ≡ answer built
      → Same built.0 page
      → (row : EventRowModel)
      → ((r : EventRecord) × (row ≡ scan page.columns (event_row r))
          × (satisfies sql page.wheres r ≡ true)
          × Mem r (stored page.table))
      → IsAsked (to_record row)
  row-IsAsked built page builds same row (r, scanned, passed, mem) =
      let (physical, routed) = built-table sha256 b query built builds in
      let is : r ≡ to_record row = sym (
        ap to_record scanned
        ∙ ap (λ cs. to_record (scan cs (event_row r))) (page-columns built page builds same)
        ∙ select-event r) in
      subst IsAsked is (
        ap (λ t. matches_query sql (sql.property_rows (t ++ property_table_suffix)) query r)
              (sym physical)
            ∙ sym (build-refines sql sha256 b query built r builds)
            ∙ ap (λ ws. satisfies sql ws r) (sym same.wheres)
            ∙ passed,
        subst (λ t. Mem r (stored t)) (same.table ∙ routed) mem,
      )

-- If the database scans, under the names of the columns that a scope selects, stored events that pass
-- its clauses, and as many as its limit allows, then each record that the reader lists is stored in the table of the query's source and is what the
-- query asks for, and there are at most as many as the effective limit of the query.
pub list-IsPage :
    (db : Database) (sha256 : Text → Text) (statement : Scope → Option (Text × List Arg))
    (router : TableRouter) (options : List EventQueryBuilderOption) (b : EventQueryBuilder)
    (sql : Sql) (stored : Text → List EventRecord) (query : EventListQuery)
    (records : List EventRecord)
    → Pages db statement sql stored
    → new_event_query_builder router options ≡ ok b
    → list_events db sha256 statement b query ≡ answer records
    → IsPage sql sha256 stored b query records
unfolding list_events list_events_with_evidence execute_plan build_events_query
list-IsPage db sha256 statement router options b sql stored query records laws made h =
    let (result, p, h1) = >>=-answer (list_events_with_evidence db sha256 statement b query) _ h in
    let (plan, q, h2) = >>=-answer (build_events_query sha256 statement b query) _ p in
    let (rs, r, h3) = >>=-answer (execute_plan db plan) _ h2 in
    let same : records ≡ rs = answer_eq (sym h1) ∙ ap (λ r. r.records) (answer_eq (sym h3)) in
    let is = events-IsEventsPlan statement sha256 b events_family query plan q in
    let limit = normalize_limit b.policy query.limit default_events_limit in
    let (n, is_n) =
      positive limit
        (limit-range b.policy query.limit default_events_limit
          (builder-validates router options b made) refl).0 in
    let page = paged limit query.offset is.sorted in
    let keeps = page-Same sql sha256 stored b query is.built.0 is.sorted is.sorts in
    let columns : are_event_columns page.columns ≡ true =
      ap (λ cs. are_event_columns cs)
        (page-columns sql sha256 stored b query is.built page is.builds keeps)
      ∙ select-columns in
    subst (IsPage sql sha256 stored b query) (sym same)
      (elim (scanned-records (db.scan_events plan.sql plan.args) rs r) [
        | inl nothing ↦
            subst (IsPage sql sha256 stored b query) (sym nothing)
              (record { asked = tt; limit = n; effective = is_n; within = omega arith })
        | inr (rows, scanned, mapped) ↦
            subst (IsPage sql sha256 stored b query) (sym mapped) (record {
              asked =
                  records-All _ _ rows
                    (row-IsAsked sql sha256 stored b query is.built page is.builds keeps)
                    (laws.selected page (plan.sql, plan.args) rows columns is.plans.states scanned);
              limit = n;
              effective = is_n;
              within =
                  subst (λ m. m ≤ n) (sym (length-records rows))
                    (laws.limited page (plan.sql, plan.args) rows n columns is.plans.states scanned
                      (paged-limit limit query.offset is.sorted ∙ ap some is_n));
            })
      ])
