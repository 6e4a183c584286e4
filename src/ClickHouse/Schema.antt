-- ===== src/ClickHouse/Schema.antt =====
-- storage/clickhouse/schema.go, with the insert statements of batch_writer.go and property_writer.go:
-- the columns of the two tables, and the rows that fill them.

pub mod Paired
use analytics_core.Prelude.{
  ℕ, zero, suc, Bool, true, false, not, List, [], ◌∷◌, ◌++◌, map, ◌==◌, Text, txt, is_empty,
  trim_space, if◌then◌else◌,
}
use analytics_core.Contracts.{EventEnvelope, Time, Float, finite}
use analytics_core.Storage.Property.{
  EventPropertyRecord, PropertyScope, event_scope, user_scope, PropertyValue, null_value,
  string_value, number_value, bool_value,
}
use analytics_core.ClickHouse.Tables.{
  Table, Routed, routed, unrouted, unsafe_name, name_required, table_prefix_pattern,
  default_logical_table,
}

-- A value that is bound to a placeholder or appended to a batch.
pub data Arg : Type 0 where
  text_arg : Text → Arg
  time_arg : Time → Arg
  number_arg : Float → Arg
  bool_arg : Bool → Arg

pub record SchemaColumn : Type 0 where
  pub name : Text
  pub type_name : Text

abbrev pub text_type : Text
text_type = txt "String"

abbrev pub time_type : Text
time_type = txt "DateTime64(3, 'UTC')"

abbrev pub number_type : Text
number_type = txt "Float64"

abbrev pub bool_type : Text
bool_type = txt "Bool"

abbrev pub column : Text → Text → SchemaColumn
column name type_name = record { name = name; type_name = type_name }

abbrev pub event_table_columns : List SchemaColumn
event_table_columns =
    column (txt "event_id") text_type
    ∷ column (txt "tenant_id") text_type
    ∷ column (txt "project_id") text_type
    ∷ column (txt "source_id") text_type
    ∷ column (txt "source_type") text_type
    ∷ column (txt "event_name") text_type
    ∷ column (txt "distinct_id") text_type
    ∷ column (txt "session_id") text_type
    ∷ column (txt "visit_id") text_type
    ∷ column (txt "event_time") time_type
    ∷ column (txt "received_at") time_type
    ∷ column (txt "properties") text_type
    ∷ column (txt "user_properties") text_type
    ∷ column (txt "source") text_type
    ∷ []

abbrev pub property_table_columns : List SchemaColumn
property_table_columns =
    column (txt "event_id") text_type
    ∷ column (txt "tenant_id") text_type
    ∷ column (txt "project_id") text_type
    ∷ column (txt "source_id") text_type
    ∷ column (txt "source_type") text_type
    ∷ column (txt "event_name") text_type
    ∷ column (txt "distinct_id") text_type
    ∷ column (txt "session_id") text_type
    ∷ column (txt "visit_id") text_type
    ∷ column (txt "event_time") time_type
    ∷ column (txt "received_at") time_type
    ∷ column (txt "source") text_type
    ∷ column (txt "property_scope") text_type
    ∷ column (txt "property_name") text_type
    ∷ column (txt "property_type") text_type
    ∷ column (txt "string_value") text_type
    ∷ column (txt "number_value") number_type
    ∷ column (txt "bool_value") bool_type
    ∷ []

abbrev event_table_order_by : Text
event_table_order_by = txt "tenant_id, project_id, source_id, event_time, visit_id, event_id"

abbrev property_table_order_by : Text
property_table_order_by =
    txt
      "tenant_id, project_id, source_id, property_scope, property_name, event_time, visit_id, event_id"

abbrev pub property_table_suffix : Text
property_table_suffix = txt "_properties"

abbrev pub column_names : List SchemaColumn → List Text
column_names columns = map (λ c. c.name) columns

abbrev pub validated_physical_table_name : Table → Routed Text
validated_physical_table_name table =
    if is_empty (trim_space table.physical)
    then unrouted name_required
    else if table_prefix_pattern table.physical
    then routed table.physical
    else unrouted (unsafe_name table.physical)

unfoldable pub property_table_for : Table → Routed Table
property_table_for table = elim (validated_physical_table_name table) [
  | unrouted e ↦ unrouted e
  | routed name ↦ routed (record {
    logical = default_logical_table ++ property_table_suffix;
    physical = name ++ property_table_suffix;
  })
]

-- `strings.ReplaceAll(identifier, "`", "``")`
abbrev pub double_quotes : Text → Text
double_quotes [] = []
double_quotes (c ∷ s) = let rest = double_quotes s in if c == 96 then 96 ∷ 96 ∷ rest else c ∷ rest

abbrev pub quote_click_house_identifier : Text → Text
quote_click_house_identifier identifier = 96 ∷ double_quotes identifier ++ 96 ∷ []

-- The loop over the columns: a comma and a new line stand before each but the first.
abbrev column_lines : Bool → List SchemaColumn → Text
column_lines first [] = []
column_lines first (c ∷ columns) =
    (if first then [] else 44 ∷ 10 ∷ [])
    ++ 9 ∷ quote_click_house_identifier c.name
    ++ 32 ∷ c.type_name
    ++ column_lines false columns

unfoldable pub build_create_table_statement : Text → List SchemaColumn → Text → Text
build_create_table_statement table_name columns order_by =
    txt "CREATE TABLE IF NOT EXISTS "
    ++ quote_click_house_identifier table_name
    ++ txt " ("
    ++ 10 ∷ column_lines true columns
    ++ 10 ∷ txt ") ENGINE = MergeTree"
    ++ 10 ∷ txt "ORDER BY ("
    ++ order_by
    ++ txt ")"

unfoldable pub create_event_table_statement : Table → Routed Text
unfolding build_create_table_statement
create_event_table_statement table = elim (validated_physical_table_name table) [
  | unrouted e ↦ unrouted e
  | routed name ↦
      routed (build_create_table_statement name event_table_columns event_table_order_by)
]

unfoldable pub create_property_table_statement : Table → Routed Text
unfolding build_create_table_statement property_table_for
create_property_table_statement table = elim (property_table_for table) [
  | unrouted e ↦ unrouted e
  | routed properties ↦ routed (
      build_create_table_statement properties.physical property_table_columns
        property_table_order_by)
]

abbrev quoted_columns : Bool → List Text → Text
quoted_columns first [] = []
quoted_columns first (name ∷ names) =
    (if first then [] else 44 ∷ []) ++ 96 ∷ name ++ 96 ∷ quoted_columns false names

-- `buildEventInsertStatement` and `buildPropertyInsertStatement`, which differ in the columns.
unfoldable pub build_insert_statement : List SchemaColumn → Text → Text
build_insert_statement columns table_name =
    txt "INSERT INTO "
    ++ table_name
    ++ txt " ("
    ++ quoted_columns true (column_names columns)
    ++ txt ")"
