-- ===== src/ClickHouse/Rows/Stored.antt =====
-- storage/clickhouse/batch_writer.go, property_writer.go and schema.go: what a written row holds under
-- the names of its columns, and what event_reader.go reads back of it.
use analytics_core.Prelude.{◌≡◌, List, [], ◌∷◌, Text, txt, text_eq}
use analytics_core.Contracts.{EventEnvelope, Properties}
use analytics_core.Storage.Backends.{Fallible, ok}
use analytics_core.Storage.Property.{EventPropertyRecord}
use analytics_core.ClickHouse.Schema.{
  Arg, text_arg, time_arg, number_arg, bool_arg, event_table_columns, column_names,
}
use analytics_core.ClickHouse.EventQuery.{EventRecord}
use analytics_core.ClickHouse.QueryPolicy.{event_select_columns}
use analytics_core.ClickHouse.EventReader.{to_record}
use analytics_core.ClickHouse.Columns.{Row, named, scan}
use analytics_core.ClickHouse.Rows.{
  scope_text, value_type, string_slot, number_slot, bool_slot, marshal_map_string, Conforms,
}

-- The record of an event whose maps are these texts.
abbrev pub record_of_event : EventEnvelope → Text → Text → EventRecord
record_of_event e properties user_properties = record {
  id = e.id;
  tenant_id = e.tenant_id;
  project_id = e.project_id;
  source_id = e.source_id;
  source_type = e.source_type;
  event_name = e.event_name;
  distinct_id = e.distinct_id;
  session_id = e.session_id;
  visit_id = e.visit_id;
  event_time = e.event_time;
  received_at = e.received_at;
  properties = properties;
  user_properties = user_properties;
  source = e.source;
}

-- What the columns of a property's row hold.
abbrev pub property_row : EventPropertyRecord → Row
property_row r =
    (txt "event_id", text_arg r.event_id)
    ∷ (txt "tenant_id", text_arg r.tenant_id)
    ∷ (txt "project_id", text_arg r.project_id)
    ∷ (txt "source_id", text_arg r.source_id)
    ∷ (txt "source_type", text_arg r.source_type)
    ∷ (txt "event_name", text_arg r.event_name)
    ∷ (txt "distinct_id", text_arg r.distinct_id)
    ∷ (txt "session_id", text_arg r.session_id)
    ∷ (txt "visit_id", text_arg r.visit_id)
    ∷ (txt "event_time", time_arg r.event_time)
    ∷ (txt "received_at", time_arg r.received_at)
    ∷ (txt "source", text_arg r.source)
    ∷ (txt "property_scope", text_arg (scope_text r.scope))
    ∷ (txt "property_name", text_arg r.name)
    ∷ (txt "property_type", text_arg (value_type r.value))
    ∷ (txt "string_value", text_arg (string_slot r.value))
    ∷ (txt "number_value", number_arg (number_slot r.value))
    ∷ (txt "bool_value", bool_arg (bool_slot r.value))
    ∷ []

module _ (marshal : Properties → Fallible Text) where
  -- The row of an event: it fits the columns, and the reader's scan of it is the event, with the
  -- JSON of its maps.
  pub record IsStoredEvent (e : EventEnvelope) (values : List Arg) : Type 0 where
    pub properties : Text
    pub user_properties : Text
    pub marshalled : marshal_map_string marshal e.properties ≡ ok properties
    pub user_marshalled : marshal_map_string marshal e.user_props ≡ ok user_properties
    pub conforms : Conforms event_table_columns values
    pub read :
        to_record (scan event_select_columns (named (column_names event_table_columns) values))
        ≡ record_of_event e properties user_properties
