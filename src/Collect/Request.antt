-- ===== src/Collect/Request.antt =====
-- collect/request.go and collect/client.go: a collect request is trimmed, validated and turned into
-- an event envelope.
pub mod Accepted
use analytics_core.Prelude.{
  ℕ, ◌+◌, ◌*◌, Bool, true, false, not, ◌&&◌, ◌||◌, Option, none, some, List, [], ◌∷◌, ◌++◌, ltb,
  leb, length, ◌==◌, Text, txt, is_empty, trim_space, if◌then◌else◌,
}
use analytics_core.Contracts.{
  EventEnvelope, Properties, Value, null, boolean, integer, string, float32, float64, json_number,
  other, Float, finite, infinite, nan, Time, zero_time,
}

abbrev pub max_clock_skew : Time
max_clock_skew = 5 * 60 * 1000000000

abbrev pub max_event_name_length : ℕ
max_event_name_length = 128

abbrev pub max_id_length : ℕ
max_id_length = 128

abbrev pub max_property_count : ℕ
max_property_count = 64

abbrev pub max_property_key_len : ℕ
max_property_key_len = 128

abbrev pub max_property_str_len : ℕ
max_property_str_len = 2048

abbrev pub max_source_type_len : ℕ
max_source_type_len = 32

pub record ClientInfo : Type 0 where
  pub user_agent : Text
  pub ip : Text
  pub referrer : Text

pub record Request : Type 0 where
  pub id : Text
  pub tenant_id : Text
  pub project_id : Text
  pub source_id : Text
  pub source_type : Text
  pub event_name : Text
  pub distinct_id : Text
  pub session_id : Text
  pub visit_id : Text
  pub event_time : Time
  pub properties : Properties
  pub user_props : Properties
  pub source : Text
  pub client : ClientInfo

pub record ValidationError : Type 0 where
  pub field : Text
  pub reason : Text

-- The errors of collect: a plain message, a rejected field, or an event that a filter turns away.
pub data CollectError : Type 0 where
  plain : Text → CollectError
  rejected : ValidationError → CollectError
  filtered : Text → EventEnvelope → CollectError

pub data Collected {ℓ} (A : Type ℓ) : Type ℓ where
  accepted : A → Collected A
  refused : CollectError → Collected A

-- The classes of bytes in the patterns.
abbrev pub lower : ℕ → Bool
lower c = leb 97 c && leb c 122

abbrev pub upper : ℕ → Bool
upper c = leb 65 c && leb c 90

abbrev pub digit : ℕ → Bool
digit c = leb 48 c && leb c 57

abbrev pub alphanumeric : ℕ → Bool
alphanumeric c = upper c || lower c || digit c

-- `_`, `.`, `:` and `-`.
abbrev pub identifier_byte : ℕ → Bool
identifier_byte c = alphanumeric c || c == 95 || c == 46 || c == 58 || c == 45

abbrev pub source_type_byte : ℕ → Bool
source_type_byte c = lower c || digit c || c == 95 || c == 45

abbrev pub all_bytes : (ℕ → Bool) → Text → Bool
all_bytes test [] = true
all_bytes test (c ∷ s) = test c && all_bytes test s

-- `identifierPattern`, and the equal `eventNamePattern` and `propertyKeyPattern`.
abbrev pub identifier_pattern : Text → Bool
identifier_pattern [] = false
identifier_pattern (c ∷ s) = alphanumeric c && all_bytes identifier_byte s

abbrev pub source_type_pattern : Text → Bool
source_type_pattern [] = false
source_type_pattern (c ∷ s) = lower c && all_bytes source_type_byte s

unfoldable pub normalize_client_info : ClientInfo → ClientInfo
normalize_client_info info = record {
  user_agent = trim_space info.user_agent;
  ip = trim_space info.ip;
  referrer = trim_space info.referrer;
}

unfoldable pub trim_request : Request → Request
trim_request request = record request {
  id = trim_space request.id;
  tenant_id = trim_space request.tenant_id;
  project_id = trim_space request.project_id;
  source_id = trim_space request.source_id;
  source_type = trim_space request.source_type;
  event_name = trim_space request.event_name;
  distinct_id = trim_space request.distinct_id;
  session_id = trim_space request.session_id;
  visit_id = trim_space request.visit_id;
  source = trim_space request.source;
  client = normalize_client_info request.client;
}

abbrev pub reject : Text → Text → Option ValidationError
reject field reason = some (record { field = field; reason = reason })

-- The three tests that a value with a pattern and a limit passes.
pub validate_text : (Text → Bool) → ℕ → Text → Text → Option ValidationError
validate_text pattern limit field value =
    if is_empty value
    then reject field (txt "is required")
    else if ltb limit (length value)
    then reject field (txt "is too long")
    else if not (pattern value)
    then reject field (txt "contains unsupported characters")
    else none

unfoldable pub validate_identifier : Text → Text → Option ValidationError
unfolding validate_text
validate_identifier = validate_text identifier_pattern max_id_length

unfoldable pub validate_event_name : Text → Option ValidationError
unfolding validate_text
validate_event_name = validate_text identifier_pattern max_event_name_length (txt "event_name")

unfoldable pub validate_source_type : Text → Option ValidationError
unfolding validate_text
validate_source_type = validate_text source_type_pattern max_source_type_len (txt "source_type")

unfoldable pub property_field_name : Text → Text → Text
property_field_name field key = if is_empty key then field else field ++ 46 ∷ key

unfoldable pub validate_property_key : Text → Text → Option ValidationError
unfolding property_field_name
validate_property_key field key =
    if is_empty key
    then reject field (txt "contains empty property key")
    else if ltb max_property_key_len (length key)
    then reject (property_field_name field key) (txt "key is too long")
    else if not (identifier_pattern key)
    then reject (property_field_name field key) (txt "key contains unsupported characters")
    else none

unfoldable pub validate_float_property : Text → Float → Option ValidationError
validate_float_property field (finite s m e) = none
validate_float_property field (infinite s) = reject field (txt "number value is invalid")
validate_float_property field nan = reject field (txt "number value is invalid")

-- An early return: the second test only runs if the first finds no error.
infixr 20 ◌then_check◌
abbrev pub ◌then_check◌ : Option ValidationError → Option ValidationError → Option ValidationError
some e then_check o = some e
none then_check o = o

-- `if value != "" { … }`
unfoldable pub validate_optional : Text → Text → Option ValidationError
unfolding validate_identifier
validate_optional field value = if is_empty value then none else validate_identifier field value

-- The time of the event: that of its receipt if the client gives none.
abbrev pub resolved_event_time : Request → Time → Time
resolved_event_time r received_at = if r.event_time == zero_time then received_at else r.event_time

-- The envelope of a request that is trimmed; a clone of a map is the map.
pub envelope_of : Request → Time → EventEnvelope
envelope_of r received_at = record {
  id = r.id;
  tenant_id = r.tenant_id;
  project_id = r.project_id;
  source_id = r.source_id;
  source_type = r.source_type;
  event_name = r.event_name;
  distinct_id = r.distinct_id;
  session_id = r.session_id;
  visit_id = r.visit_id;
  event_time = resolved_event_time r received_at;
  received_at = received_at;
  properties = r.properties;
  user_props = r.user_props;
  source = r.source;
}

-- `parses` says whether `strconv.ParseFloat` reads a text as a float64 without an error.
module _ (parses : Text → Bool) where
  unfoldable pub validate_property_value : Text → Value → Option ValidationError
  unfolding validate_float_property
  validate_property_value field null = none
  validate_property_value field (boolean b) = none
  validate_property_value field (integer i) = none
  validate_property_value field (string s) =
      if ltb max_property_str_len (length s)
      then reject field (txt "string value is too long")
      else none
  validate_property_value field (float32 f) = validate_float_property field f
  validate_property_value field (float64 f) = validate_float_property field f
  validate_property_value field (json_number s) =
      if parses s then none else reject field (txt "number value is invalid")
  validate_property_value field other = reject field (txt "has unsupported value type")

  -- The loop of `validateProperties`, in the order in which the map is ranged over.
  unfoldable pub validate_entries : Text → Properties → Option ValidationError
  unfolding validate_property_key validate_property_value property_field_name
  validate_entries field [] = none
  validate_entries field ((key, value) ∷ values) =
      validate_property_key field key
      then_check validate_property_value (property_field_name field key) value
      then_check validate_entries field values

  unfoldable pub validate_properties : Text → Properties → Option ValidationError
  unfolding validate_entries
  validate_properties field values =
      if ltb max_property_count (length values)
      then reject field (txt "has too many entries")
      else validate_entries field values

  unfoldable pub validate_request : Request → Option ValidationError
  unfolding validate_identifier validate_source_type validate_event_name validate_optional
      validate_properties
  validate_request r =
      validate_identifier (txt "id") r.id
      then_check validate_identifier (txt "tenant_id") r.tenant_id
      then_check validate_identifier (txt "project_id") r.project_id
      then_check validate_identifier (txt "source_id") r.source_id
      then_check validate_source_type r.source_type
      then_check validate_event_name r.event_name
      then_check validate_identifier (txt "distinct_id") r.distinct_id
      then_check validate_optional (txt "session_id") r.session_id
      then_check validate_optional (txt "visit_id") r.visit_id
      then_check validate_properties (txt "properties") r.properties
      then_check validate_properties (txt "user_properties") r.user_props

  pub normalize_trimmed : Request → Time → Collected EventEnvelope
  unfolding validate_request envelope_of
  normalize_trimmed r received_at = elim (validate_request r) [
    | some e ↦ refused (rejected e)
    | none ↦
        if ltb (received_at + max_clock_skew) (resolved_event_time r received_at)
        then refused
            (rejected (record { field = txt "event_time"; reason = txt "too far in the future" }))
        else accepted (envelope_of r received_at)
  ]

  unfoldable pub normalize : Request → Time → Collected EventEnvelope
  unfolding trim_request normalize_trimmed
  normalize request received_at =
      if received_at == zero_time
      then refused (plain (txt "receivedAt is required"))
      else normalize_trimmed (trim_request request) received_at
