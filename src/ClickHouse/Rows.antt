-- ===== src/ClickHouse/Rows.antt =====
-- storage/clickhouse/batch_writer.go and property_writer.go: the values of a row, in the order of the
-- columns of its table. json.Marshal is a parameter.
pub mod Stored
use analytics_core.Prelude.{Bool, false, ◌≡◌, List, [], ◌∷◌, ◌++◌, inl, inr, arith, Text, txt}
use analytics_core.Contracts.{EventEnvelope, Properties, Float, finite}
use analytics_core.Storage.Backends.{Fallible, ok, err, Fallible-cases}
use analytics_core.Storage.Property.{
  EventPropertyRecord, PropertyScope, event_scope, user_scope, PropertyValue, null_value,
  string_value, number_value, bool_value,
}
use analytics_core.ClickHouse.Schema.{
  Arg, text_arg, time_arg, number_arg, bool_arg, SchemaColumn, event_table_columns,
  property_table_columns, text_type, time_type, number_type, bool_type,
}

-- The text of a `PropertyScope` and of a `PropertyValueType`.
abbrev pub scope_text : PropertyScope → Text
scope_text event_scope = txt "event"
scope_text user_scope = txt "user"

abbrev pub value_type : PropertyValue → Text
value_type null_value = txt "null"
value_type (string_value s) = txt "string"
value_type (number_value f) = txt "number"
value_type (bool_value b) = txt "bool"

-- The fields StringValue, NumberValue and BoolValue, each zero under another type.
abbrev pub string_slot : PropertyValue → Text
string_slot null_value = []
string_slot (string_value s) = s
string_slot (number_value f) = []
string_slot (bool_value b) = []

abbrev pub number_slot : PropertyValue → Float
number_slot null_value = finite false 0 0
number_slot (string_value s) = finite false 0 0
number_slot (number_value f) = f
number_slot (bool_value b) = finite false 0 0

abbrev pub bool_slot : PropertyValue → Bool
bool_slot null_value = false
bool_slot (string_value s) = false
bool_slot (number_value f) = false
bool_slot (bool_value b) = b

unfoldable pub property_insert_values : EventPropertyRecord → List Arg
unfolding scope_text value_type
property_insert_values r =
    text_arg r.event_id
    ∷ text_arg r.tenant_id
    ∷ text_arg r.project_id
    ∷ text_arg r.source_id
    ∷ text_arg r.source_type
    ∷ text_arg r.event_name
    ∷ text_arg r.distinct_id
    ∷ text_arg r.session_id
    ∷ text_arg r.visit_id
    ∷ time_arg r.event_time
    ∷ time_arg r.received_at
    ∷ text_arg r.source
    ∷ text_arg (scope_text r.scope)
    ∷ text_arg r.name
    ∷ text_arg (value_type r.value)
    ∷ text_arg (string_slot r.value)
    ∷ number_arg (number_slot r.value)
    ∷ bool_arg (bool_slot r.value)
    ∷ []

module _ (marshal : Properties → Fallible Text) where
  -- A nil map and an empty one are not told apart; JSON gives `{}` for both.
  abbrev pub marshal_map_string : Properties → Fallible Text
  marshal_map_string [] = ok (txt "{}")
  marshal_map_string (p ∷ ps) = marshal (p ∷ ps)

  abbrev event_values : EventEnvelope → Text → Text → List Arg
  event_values e properties user_properties =
      text_arg e.id
      ∷ text_arg e.tenant_id
      ∷ text_arg e.project_id
      ∷ text_arg e.source_id
      ∷ text_arg e.source_type
      ∷ text_arg e.event_name
      ∷ text_arg e.distinct_id
      ∷ text_arg e.session_id
      ∷ text_arg e.visit_id
      ∷ time_arg e.event_time
      ∷ time_arg e.received_at
      ∷ text_arg properties
      ∷ text_arg user_properties
      ∷ text_arg e.source
      ∷ []

  unfoldable pub event_insert_values : EventEnvelope → Fallible (List Arg)
  unfolding event_values
  event_insert_values e = elim (marshal_map_string e.properties) [
    | err cause ↦ err (txt "marshal properties: " ++ cause)
    | ok properties ↦ elim (marshal_map_string e.user_props) [
      | err cause ↦ err (txt "marshal user_properties: " ++ cause)
      | ok user_properties ↦ ok (event_values e properties user_properties)
    ]
  ]

-- The type of a column that holds a value.
abbrev pub arg_type : Arg → Text
arg_type (text_arg s) = text_type
arg_type (time_arg t) = time_type
arg_type (number_arg f) = number_type
arg_type (bool_arg b) = bool_type

-- A row has one value to a column, of the column's type.
abbrev pub Conforms : List SchemaColumn → List Arg → Type 0
Conforms [] [] = Unit
Conforms [] (v ∷ vs) = ⊥
Conforms (c ∷ cs) [] = ⊥
Conforms (c ∷ cs) (v ∷ vs) = (c.type_name ≡ arg_type v) × Conforms cs vs

module _ (marshal : Properties → Fallible Text) where
  -- What the values of an event are.
  pub values-are :
      (e : EventEnvelope) (values : List Arg)
      → event_insert_values marshal e ≡ ok values
      → (properties : Text) × (user_properties : Text) × (marshal_map_string marshal e.properties
          ≡ ok properties)
        × (marshal_map_string marshal e.user_props ≡ ok user_properties)
        × (values ≡ event_values marshal e properties user_properties)
  unfolding event_insert_values
  values-are e values h = elim (Fallible-cases (marshal_map_string marshal e.properties)) [
    | inl (cause, failed) ↦ absurd (cc (rw (failed, event_insert_values) at h))
    | inr (ps, p) ↦ elim (Fallible-cases (marshal_map_string marshal e.user_props)) [
      | inl (cause, failed) ↦
          absurd (cc (rw (failed, event_insert_values) at (rw (p, event_insert_values) at h)))
      | inr (us, u) ↦
          (ps, us, p, u, cc (rw (u, event_insert_values) at (rw (p, event_insert_values) at h)))
    ]
  ]
