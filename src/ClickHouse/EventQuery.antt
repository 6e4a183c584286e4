-- ===== src/ClickHouse/EventQuery.antt =====
-- storage/event_query.go: the queries of a caller and the plans that answer them.
use analytics_core.Prelude.{ℕ, ◌≡◌, refl, Bool, true, false, List, Text, txt}
use analytics_core.Contracts.{Time, Float, ℤ}
use analytics_core.ClickHouse.Tables.{TableError}
use analytics_core.ClickHouse.Schema.{Arg}

abbrev pub sort_by_event_time : Text
sort_by_event_time = txt "event_time"

abbrev pub sort_by_received_at : Text
sort_by_received_at = txt "received_at"

abbrev pub sort_by_event_name : Text
sort_by_event_name = txt "event_name"

abbrev pub sort_ascending : Text
sort_ascending = txt "asc"

abbrev pub sort_descending : Text
sort_descending = txt "desc"

abbrev pub filter_by_event_name : Text
filter_by_event_name = txt "event_name"

abbrev pub filter_by_distinct_id : Text
filter_by_distinct_id = txt "distinct_id"

abbrev pub filter_by_session_id : Text
filter_by_session_id = txt "session_id"

abbrev pub filter_by_visit_id : Text
filter_by_visit_id = txt "visit_id"

abbrev pub filter_by_source_type : Text
filter_by_source_type = txt "source_type"

abbrev pub filter_equals : Text
filter_equals = txt "eq"

abbrev pub filter_not_equals : Text
filter_not_equals = txt "neq"

-- The fields of the types `EventFilterField`, `EventFilterOperator`, `PropertyScope`,
-- `PropertyValueType`, `EventSortField` and `EventSortDirection` are strings that a caller chooses.
pub record EventFilter : Type 0 where
  pub field : Text
  pub operator : Text
  pub value : Text

pub record PropertySelector : Type 0 where
  pub scope : Text
  pub name : Text

pub record EventPropertyFilter : Type 0 where
  pub scope : Text
  pub name : Text
  pub value_type : Text
  pub operator : Text
  pub string_value : Text
  pub number_value : Float
  pub bool_value : Bool

pub record EventPropertyFilterEvidence : Type 0 where
  pub scope : Text
  pub name : Text
  pub value_type : Text
  pub operator : Text

pub record EventListQuery : Type 0 where
  pub tenant_id : Text
  pub project_id : Text
  pub source_id : Text
  pub event_name : Text
  pub distinct_id : Text
  pub from : Time
  pub to : Time
  pub limit : ℤ
  pub offset : ℤ
  pub sort_field : Text
  pub sort_direction : Text
  pub filters : List EventFilter
  pub property_filters : List EventPropertyFilter
  pub allowed_property_selectors : List PropertySelector

pub record EventCountQuery : Type 0 where
  pub tenant_id : Text
  pub project_id : Text
  pub source_id : Text
  pub event_name : Text
  pub distinct_id : Text
  pub from : Time
  pub to : Time
  pub filters : List EventFilter
  pub property_filters : List EventPropertyFilter
  pub allowed_property_selectors : List PropertySelector

pub record RealtimeQuery : Type 0 where
  pub tenant_id : Text
  pub project_id : Text
  pub source_id : Text
  pub since : Time
  pub limit : ℤ

pub data EventQueryFamily : Type 0 where
  events_family goal_family realtime_family : EventQueryFamily

pub data EventReadPath : Type 0 where
  fact_events : EventReadPath

pub data EventQueryOptimization : Type 0 where
  direct_fact_table : EventQueryOptimization

pub record EventQueryEvidence : Type 0 where
  pub family : EventQueryFamily
  pub read_path : EventReadPath
  pub optimization : EventQueryOptimization
  pub effective_limit : ℤ
  pub offset : ℤ
  pub has_time_lower_bound : Bool
  pub has_time_upper_bound : Bool
  pub time_window_seconds : ℤ
  pub scalar_filter_count : ℕ
  pub property_filter_count : ℕ
  pub uses_property_table : Bool
  pub property_filters : List EventPropertyFilterEvidence
  pub sort_field : Text
  pub sort_direction : Text

pub record EventQueryPlan : Type 0 where
  pub sql : Text
  pub args : List Arg
  pub logical_table : Text
  pub physical_table : Text
  pub limit : ℤ
  pub evidence : EventQueryEvidence

pub record EventRecord : Type 0 where
  pub id : Text
  pub tenant_id : Text
  pub project_id : Text
  pub source_id : Text
  pub source_type : Text
  pub event_name : Text
  pub distinct_id : Text
  pub session_id : Text
  pub visit_id : Text
  pub event_time : Time
  pub received_at : Time
  pub properties : Text
  pub user_properties : Text
  pub source : Text

-- Why a property selector is refused.
pub data SelectorError : Type 0 where
  selector_name_required : SelectorError
  unsupported_scope : Text → SelectorError

-- What wraps `ErrInvalidEventQuery`, each with the values that its message prints; a number that
-- comes first is the index of the filter.
pub data Rejection : Type 0 where
  negative_offset empty_window unbounded_property_window : Rejection
  too_many_filters : ℕ → ℤ → Rejection
  wide_property_window : ℤ → ℤ → Rejection
  unroutable : TableError → Rejection
  unsupported_sort_field unsupported_sort_direction : Text → Rejection
  unsupported_filter_field unsupported_filter_operator : Text → Rejection
  filter_value_required null_only_eq : ℕ → Rejection
  invalid_selector : ℕ → SelectorError → Rejection
  not_allowlisted : ℕ → PropertySelector → Rejection
  unsupported_value_type : ℕ → Text → Rejection

-- An exception of ClickHouse with its code and its message, or the text of another error.
pub data DatabaseError : Type 0 where
  exception : ℕ → Text → DatabaseError
  other_error : Text → DatabaseError

-- Every error of a query: a rejection, the others of the builder, or the database's.
pub data QueryError : Type 0 where
  invalid_event_query : Rejection → QueryError
  unsafe_table : TableError → QueryError
  not_built : QueryError
  database_error : DatabaseError → QueryError

pub data Queried {ℓ} (A : Type ℓ) : Type ℓ where
  answer : A → Queried A
  failure : QueryError → Queried A

infixl 5 ◌>>=◌ ◌>>◌
abbrev pub ◌>>=◌ {ℓ κ} : {A : Type ℓ} {B : Type κ} → Queried A → (A → Queried B) → Queried B
answer a >>= f = f a
failure e >>= f = failure e

abbrev pub ◌>>◌ {ℓ} : {B : Type ℓ} → Queried (Unit {0}) → Queried B → Queried B
m >> k = m >>= λ _. k

-- `if test { return invalidEventQueryError(...) }`
abbrev pub reject_if : Bool → Rejection → Queried (Unit {0})
reject_if true r = failure (invalid_event_query r)
reject_if false r = answer tt

-- Inversion of a chain that answers.
pub >>=-answer {ℓ κ} :
    {A : Type ℓ} {B : Type κ} (m : Queried A) (f : A → Queried B) {b : B}
    → (m >>= f) ≡ answer b
    → (a : A) × (m ≡ answer a) × (f a ≡ answer b)
>>=-answer (answer a) f h = (a, refl, h)
>>=-answer (failure e) f h = cc

pub reject-answer :
    (test : Bool) (r : Rejection) {u : Unit {0}} → reject_if test r ≡ answer u → test ≡ false
reject-answer true r h = cc
reject-answer false r h = refl
