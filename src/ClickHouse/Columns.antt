-- ===== src/ClickHouse/Columns.antt =====
-- A row of a table of events, by the names of its columns, and a scan of some of its columns: what
-- storage/clickhouse relies on of its tables and of GORM.
use analytics_core.Prelude.{
  ◌||◌, ◌&&◌, Bool, true, false, Option, none, some, List, [], ◌∷◌, Text, txt, text_beq, text_eq,
  Dict, lookup, if◌then◌else◌,
}
use analytics_core.Contracts.{Time, zero_time}
use analytics_core.ClickHouse.Schema.{Arg, text_arg, time_arg, number_arg, bool_arg}
use analytics_core.ClickHouse.EventQuery.{EventRecord}
use analytics_core.ClickHouse.EventReader.{EventRowModel}

abbrev pub Row : Type 0
Row = Dict Text Arg

-- The row of an event.
abbrev pub event_row : EventRecord → Row
event_row r =
    (txt "event_id", text_arg r.id)
    ∷ (txt "tenant_id", text_arg r.tenant_id)
    ∷ (txt "project_id", text_arg r.project_id)
    ∷ (txt "source_id", text_arg r.source_id)
    ∷ (txt "source_type", text_arg r.source_type)
    ∷ (txt "event_name", text_arg r.event_name)
    ∷ (txt "distinct_id", text_arg r.distinct_id)
    ∷ (txt "session_id", text_arg r.session_id)
    ∷ (txt "visit_id", text_arg r.visit_id)
    ∷ (txt "event_time", time_arg r.event_time)
    ∷ (txt "received_at", time_arg r.received_at)
    ∷ (txt "properties", text_arg r.properties)
    ∷ (txt "user_properties", text_arg r.user_properties)
    ∷ (txt "source", text_arg r.source)
    ∷ []

-- The values under the names of their columns.
abbrev pub named : List Text → List Arg → Row
named [] values = []
named (n ∷ ns) [] = []
named (n ∷ ns) (v ∷ vs) = (n, v) ∷ named ns vs

unfoldable pub one_of : Text → List Text → Bool
one_of n [] = false
one_of n (m ∷ ms) = text_beq m n || one_of n ms

abbrev text_of : Option Arg → Text
text_of none = []
text_of (some (text_arg t)) = t
text_of (some (time_arg t)) = []
text_of (some (number_arg f)) = []
text_of (some (bool_arg b)) = []

abbrev time_of : Option Arg → Time
time_of none = zero_time
time_of (some (text_arg t)) = zero_time
time_of (some (time_arg t)) = t
time_of (some (number_arg f)) = zero_time
time_of (some (bool_arg b)) = zero_time

-- A field is the column of its name, if that is among the columns that are asked for, and zero
-- otherwise.
abbrev column_value : List Text → Row → Text → Option Arg
unfolding one_of lookup
column_value columns row name = if one_of name columns then lookup name row else none

unfoldable pub scan : List Text → Row → EventRowModel
unfolding column_value
scan columns row = record {
  event_id = text_of (column_value columns row (txt "event_id"));
  tenant_id = text_of (column_value columns row (txt "tenant_id"));
  project_id = text_of (column_value columns row (txt "project_id"));
  source_id = text_of (column_value columns row (txt "source_id"));
  source_type = text_of (column_value columns row (txt "source_type"));
  event_name = text_of (column_value columns row (txt "event_name"));
  distinct_id = text_of (column_value columns row (txt "distinct_id"));
  session_id = text_of (column_value columns row (txt "session_id"));
  visit_id = text_of (column_value columns row (txt "visit_id"));
  event_time = time_of (column_value columns row (txt "event_time"));
  received_at = time_of (column_value columns row (txt "received_at"));
  properties = text_of (column_value columns row (txt "properties"));
  user_properties = text_of (column_value columns row (txt "user_properties"));
  source = text_of (column_value columns row (txt "source"));
}

-- The columns of the table of events.
unfoldable pub is_event_column : Text → Bool
unfolding one_of
is_event_column c = one_of c (
    txt "event_id"
    ∷ txt "tenant_id"
    ∷ txt "project_id"
    ∷ txt "source_id"
    ∷ txt "source_type"
    ∷ txt "event_name"
    ∷ txt "distinct_id"
    ∷ txt "session_id"
    ∷ txt "visit_id"
    ∷ txt "event_time"
    ∷ txt "received_at"
    ∷ txt "properties"
    ∷ txt "user_properties"
    ∷ txt "source"
    ∷ [])

abbrev pub are_event_columns : List Text → Bool
are_event_columns [] = true
are_event_columns (c ∷ cs) = is_event_column c && are_event_columns cs
