-- ===== src/ClickHouse/QueryPolicy.antt =====
-- storage/clickhouse/query_builder.go: the policy of a query builder, the allowlists, and the
-- normalisation of what a caller chooses.
use analytics_core.Prelude.{
  ◌*◌, Bool, true, false, not, ◌||◌, ◌&&◌, Option, none, some, ◌⊎◌, inl, inr, List, [], ◌∷◌, Dict,
  lookup, text_eq, text_beq, Text, txt, is_empty, trim_space, if◌then◌else◌,
}
use analytics_core.Contracts.{int_ltb, ℤ, pos}
use analytics_core.Storage.Backends.{Fallible, ok, err}
use analytics_core.ClickHouse.Tables.{TableRouter}
use analytics_core.ClickHouse.EventQuery.{
  sort_by_event_time, sort_by_received_at, sort_by_event_name, sort_ascending, sort_descending,
  filter_by_event_name, filter_by_distinct_id, filter_by_session_id, filter_by_visit_id,
  filter_by_source_type, filter_equals, filter_not_equals, PropertySelector, EventListQuery,
  SelectorError, selector_name_required, unsupported_scope, Rejection, unsupported_sort_field,
  unsupported_sort_direction, unsupported_filter_field, unsupported_filter_operator,
  invalid_event_query, Queried, answer, failure,
}

abbrev pub default_events_limit : ℤ
default_events_limit = pos 100

abbrev pub default_realtime_limit : ℤ
default_realtime_limit = pos 50

abbrev pub default_max_query_limit : ℤ
default_max_query_limit = pos 1000

abbrev pub default_max_filters : ℤ
default_max_filters = pos 20

-- Seven days, in nanoseconds.
abbrev pub default_max_property_filter_window : ℤ
default_max_property_filter_window = pos (7 * 24 * 3600 * 1000000000)

abbrev pub event_select_columns : List Text
event_select_columns =
    txt "event_id"
    ∷ txt "tenant_id"
    ∷ txt "project_id"
    ∷ txt "source_id"
    ∷ txt "source_type"
    ∷ txt "event_name"
    ∷ txt "distinct_id"
    ∷ txt "session_id"
    ∷ txt "visit_id"
    ∷ txt "event_time"
    ∷ txt "received_at"
    ∷ txt "properties"
    ∷ txt "user_properties"
    ∷ txt "source"
    ∷ []

abbrev pub event_sort_columns : Dict Text Text
event_sort_columns =
    (sort_by_event_time, txt "event_time")
    ∷ (sort_by_received_at, txt "received_at")
    ∷ (sort_by_event_name, txt "event_name")
    ∷ []

abbrev pub event_sort_directions : Dict Text Text
event_sort_directions = (sort_ascending, txt "ASC") ∷ (sort_descending, txt "DESC") ∷ []

abbrev pub event_filter_columns : Dict Text Text
event_filter_columns =
    (filter_by_event_name, txt "event_name")
    ∷ (filter_by_distinct_id, txt "distinct_id")
    ∷ (filter_by_session_id, txt "session_id")
    ∷ (filter_by_visit_id, txt "visit_id")
    ∷ (filter_by_source_type, txt "source_type")
    ∷ []

abbrev pub event_filter_operators : Dict Text Text
event_filter_operators = (filter_equals, txt "=") ∷ (filter_not_equals, txt "!=") ∷ []

abbrev pub property_value_columns : Dict Text Text
property_value_columns =
    (txt "string", txt "string_value")
    ∷ (txt "number", txt "number_value")
    ∷ (txt "bool", txt "bool_value")
    ∷ []

-- The map of the allowed properties is its list of keys, and none where it is nil.
pub record ReadSidePolicy : Type 0 where
  pub max_query_limit : ℤ
  pub max_filters : ℤ
  pub max_property_filter_window : ℤ
  pub allowed_properties : Option (List PropertySelector)

abbrev pub default_read_side_policy : ReadSidePolicy
default_read_side_policy = record {
  max_query_limit = default_max_query_limit;
  max_filters = default_max_filters;
  max_property_filter_window = default_max_property_filter_window;
  allowed_properties = some [];
}

abbrev is_positive : ℤ → Bool
is_positive n = int_ltb (pos 0) n

unfoldable pub validate : ReadSidePolicy → Option Text
unfolding is_positive
validate p =
    if not (is_positive p.max_query_limit)
    then some (txt "max query limit must be positive")
    else if not (is_positive p.max_filters)
    then some (txt "max event filters must be positive")
    else if not (is_positive p.max_property_filter_window)
    then some (txt "max property-filter time window must be positive")
    else elim p.allowed_properties [
      | none ↦ some (txt "allowed property filter map is required")
      | some selectors ↦ none
    ]

unfoldable pub normalize_property_selector : Text → Text → SelectorError ⊎ PropertySelector
normalize_property_selector scope name =
    let trimmed = trim_space name in
    if is_empty trimmed
    then inl selector_name_required
    else if text_beq scope (txt "event") || text_beq scope (txt "user")
    then inr (record { scope = scope; name = trimmed })
    else inl (unsupported_scope scope)

abbrev pub selector_beq : PropertySelector → PropertySelector → Bool
selector_beq s t = text_beq s.scope t.scope && text_beq s.name t.name

abbrev pub has_selector : PropertySelector → List PropertySelector → Bool
has_selector s [] = false
has_selector s (t ∷ ts) = selector_beq t s || has_selector s ts

-- The options, without the one that exchanges the database.
pub data EventQueryBuilderOption : Type 0 where
  with_max_query_limit : ℤ → EventQueryBuilderOption
  with_allowed_property_filters : List PropertySelector → EventQueryBuilderOption

abbrev pub allow_selectors : List PropertySelector → List PropertySelector → List PropertySelector
unfolding normalize_property_selector
allow_selectors [] allowed = allowed
allow_selectors (s ∷ ss) allowed = elim (normalize_property_selector s.scope s.name) [
  | inl refused ↦ allow_selectors ss allowed
  | inr selector ↦ allow_selectors ss (selector ∷ allowed)
]

abbrev pub allowed_map : Option (List PropertySelector) → List PropertySelector
allowed_map none = []
allowed_map (some selectors) = selectors

unfoldable pub apply_option : EventQueryBuilderOption → ReadSidePolicy → ReadSidePolicy
unfolding allow_selectors
apply_option (with_max_query_limit max) p = record p { max_query_limit = max }
apply_option (with_allowed_property_filters selectors) p = record p {
  allowed_properties = some (allow_selectors selectors (allowed_map p.allowed_properties));
}

abbrev pub apply_options : List EventQueryBuilderOption → ReadSidePolicy → ReadSidePolicy
unfolding apply_option
apply_options [] p = p
apply_options (o ∷ os) p = apply_options os (apply_option o p)

pub record EventQueryBuilder : Type 0 where
  pub router : TableRouter
  pub policy : ReadSidePolicy

unfoldable pub new_event_query_builder :
    TableRouter → List EventQueryBuilderOption → Fallible EventQueryBuilder
unfolding apply_options validate
new_event_query_builder router options =
    let policy = apply_options options default_read_side_policy in
    elim (validate policy) [
      | some e ↦ err e
      | none ↦ ok (record { router = router; policy = policy })
    ]

-- The limit of a query under a policy, with the default of its family.
unfoldable pub normalize_limit : ReadSidePolicy → ℤ → ℤ → ℤ
normalize_limit p limit fallback =
    let chosen = if int_ltb (pos 0) limit then limit else fallback in
    if int_ltb p.max_query_limit chosen then p.max_query_limit else chosen

-- One of the query's own selectors, normalised, is the selector.
unfoldable pub query_allows : PropertySelector → List PropertySelector → Bool
unfolding normalize_property_selector
query_allows s [] = false
query_allows s (t ∷ ts) =
    let later = query_allows s ts in
    elim (normalize_property_selector t.scope t.name) [
      | inl refused ↦ later
      | inr selector ↦ if selector_beq selector s then true else later
    ]

unfoldable pub property_selector_allowed : ReadSidePolicy → EventListQuery → PropertySelector → Bool
unfolding query_allows
property_selector_allowed p query selector =
    if has_selector selector (allowed_map p.allowed_properties)
    then true
    else query_allows selector query.allowed_property_selectors

-- A lookup in an allowlist.
unfoldable pub listed : Dict Text Text → Text → Rejection → Queried Text
unfolding lookup
listed columns name refused = elim (lookup name columns) [
  | none ↦ failure (invalid_event_query refused)
  | some c ↦ answer c
]

unfoldable pub normalize_sort_field : Text → Queried Text
unfolding listed
normalize_sort_field field =
    let chosen = if is_empty field then sort_by_event_time else field in
    listed event_sort_columns chosen (unsupported_sort_field chosen)

unfoldable pub normalize_sort_direction : Text → Queried Text
unfolding listed
normalize_sort_direction direction =
    let chosen = if is_empty direction then sort_descending else direction in
    listed event_sort_directions chosen (unsupported_sort_direction chosen)

unfoldable pub normalize_filter_field : Text → Queried Text
unfolding listed
normalize_filter_field field = listed event_filter_columns field (unsupported_filter_field field)

unfoldable pub normalize_filter_operator : Text → Queried Text
unfolding listed
normalize_filter_operator operator =
    listed event_filter_operators operator (unsupported_filter_operator operator)
