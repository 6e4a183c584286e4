-- ===== src/ClickHouse/EventReader.antt =====
-- storage/clickhouse/event_reader.go: plans run against the database, which is an interface: what a
-- query answers, rows or an error.
pub mod Routes
pub mod Answers
pub mod Pages
use analytics_core.Prelude.{
  ℕ, Bool, true, false, not, ◌&&◌, ◌||◌, ◌==◌, Option, some, ◌⊎◌, inl, inr, List, [], ◌∷◌, map,
  Text, txt, if◌then◌else◌,
}
use analytics_core.Contracts.{ℤ, pos, Time}
use analytics_core.Collect.Scanning.{to_lower, contains}
use analytics_core.ClickHouse.Schema.{Arg}
use analytics_core.ClickHouse.EventQuery.{
  EventListQuery, EventCountQuery, RealtimeQuery, EventRecord, EventQueryEvidence, EventQueryPlan,
  DatabaseError, exception, other_error, QueryError, database_error, Queried, answer, failure,
  ◌>>=◌,
}
use analytics_core.ClickHouse.QueryPolicy.{EventQueryBuilder}
use analytics_core.ClickHouse.QueryScope.{Scope}
use analytics_core.ClickHouse.QueryPlans.{
  build_event_count_query, build_events_query, build_realtime_query,
}

-- `eventRowModel`
pub record EventRowModel : Type 0 where
  pub event_id : Text
  pub tenant_id : Text
  pub project_id : Text
  pub source_id : Text
  pub source_type : Text
  pub event_name : Text
  pub distinct_id : Text
  pub session_id : Text
  pub visit_id : Text
  pub event_time : Time
  pub received_at : Time
  pub properties : Text
  pub user_properties : Text
  pub source : Text

-- `Raw(sql, args...).Scan(&rows)` into rows of events, and into rows of a count.
pub record Database : Type 0 where
  pub scan_events : Text → List Arg → DatabaseError ⊎ List EventRowModel
  pub scan_counts : Text → List Arg → DatabaseError ⊎ List ℤ

pub record EventQueryResult : Type 0 where
  pub records : List EventRecord
  pub evidence : EventQueryEvidence

pub record EventCountResult : Type 0 where
  pub count : ℤ
  pub evidence : EventQueryEvidence

unfoldable pub is_missing_click_house_table_error : DatabaseError → Bool
is_missing_click_house_table_error (other_error message) = false
is_missing_click_house_table_error (exception code message) =
    code == 60
    && (contains (to_lower message) (txt "unknown table")
        || contains (to_lower message) (txt "doesn't exist"))

abbrev pub to_record : EventRowModel → EventRecord
to_record row = record {
  id = row.event_id;
  tenant_id = row.tenant_id;
  project_id = row.project_id;
  source_id = row.source_id;
  source_type = row.source_type;
  event_name = row.event_name;
  distinct_id = row.distinct_id;
  session_id = row.session_id;
  visit_id = row.visit_id;
  event_time = row.event_time;
  received_at = row.received_at;
  properties = row.properties;
  user_properties = row.user_properties;
  source = row.source;
}

-- An error of the database; a missing table has the default instead.
abbrev pub unless_missing {ℓ} : {A : Type ℓ} → A → DatabaseError → Queried A
unfolding is_missing_click_house_table_error
unless_missing default e =
    if is_missing_click_house_table_error e then answer default else failure (database_error e)

unfoldable pub scanned_records : DatabaseError ⊎ List EventRowModel → Queried (List EventRecord)
unfolding unless_missing
scanned_records (inl e) = unless_missing [] e
scanned_records (inr rows) = answer (map to_record rows)

abbrev pub first_count : List ℤ → ℤ
first_count [] = pos 0
first_count (n ∷ counts) = n

unfoldable pub scanned_count : DatabaseError ⊎ List ℤ → Queried ℤ
unfolding unless_missing
scanned_count (inl e) = unless_missing (pos 0) e
scanned_count (inr counts) = answer (first_count counts)

module _ (db : Database) where
  unfoldable pub execute_plan : EventQueryPlan → Queried (List EventRecord)
  unfolding scanned_records
  execute_plan plan = scanned_records (db.scan_events plan.sql plan.args)

  unfoldable pub execute_count_plan : EventQueryPlan → Queried ℤ
  unfolding scanned_count
  execute_count_plan plan = scanned_count (db.scan_counts plan.sql plan.args)

module _ (db : Database) (sha256 : Text → Text) (statement : Scope → Option (Text × List Arg))
    (b : EventQueryBuilder) where
  unfoldable pub count_events_with_evidence : EventCountQuery → Queried EventCountResult
  unfolding build_event_count_query execute_count_plan
  count_events_with_evidence query = do
    plan ← build_event_count_query sha256 statement b query
    count ← execute_count_plan db plan
    answer (record { count = count; evidence = plan.evidence })

  unfoldable pub count_events : EventCountQuery → Queried ℤ
  unfolding count_events_with_evidence
  count_events query = do result ← count_events_with_evidence query; answer result.count

  abbrev with_evidence : Queried EventQueryPlan → Queried EventQueryResult
  unfolding execute_plan
  with_evidence planned = do
    plan ← planned
    records ← execute_plan db plan
    answer (record { records = records; evidence = plan.evidence })

  unfoldable pub list_events_with_evidence : EventListQuery → Queried EventQueryResult
  unfolding with_evidence build_events_query
  list_events_with_evidence query = with_evidence (build_events_query sha256 statement b query)

  unfoldable pub list_events : EventListQuery → Queried (List EventRecord)
  unfolding list_events_with_evidence
  list_events query = do result ← list_events_with_evidence query; answer result.records

  unfoldable pub list_realtime_with_evidence : RealtimeQuery → Queried EventQueryResult
  unfolding with_evidence build_realtime_query
  list_realtime_with_evidence query = with_evidence (build_realtime_query sha256 statement b query)

  unfoldable pub list_realtime : RealtimeQuery → Queried (List EventRecord)
  unfolding list_realtime_with_evidence
  list_realtime query = do result ← list_realtime_with_evidence query; answer result.records
