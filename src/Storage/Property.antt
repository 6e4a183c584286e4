-- ===== src/Storage/Property.antt =====
-- storage/property.go: the properties of an event as typed rows.
pub mod Flattened
pub mod Ownership
use analytics_core.Prelude.{
  ℕ, zero, suc, ◌+◌, ◌-◌, ◌*◌, ◌/◌, ◌%◌, ◌^◌, Bool, true, false, not, ◌&&◌, ◌||◌, Option, none,
  some, List, [], ◌∷◌, ◌++◌, map, ◌==◌, ltb, lookup, text_eq, Text, txt, is_empty, if◌then◌else◌,
}
use analytics_core.Contracts.{
  EventEnvelope, Properties, Value, null, boolean, integer, string, float32, float64, json_number,
  other, Float, finite, infinite, nan, ℤ, pos, negsuc, Time,
}

pub data PropertyScope : Type 0 where
  event_scope user_scope : PropertyScope

-- The typed slot of a row, with its value: the fields ValueType, StringValue, NumberValue and
-- BoolValue.
pub data PropertyValue : Type 0 where
  null_value : PropertyValue
  string_value : Text → PropertyValue
  number_value : Float → PropertyValue
  bool_value : Bool → PropertyValue

-- `propertyBase`, which is the event without its maps.
pub record EventPropertyRecord : Type 0 where
  pub event_id : Text
  pub tenant_id : Text
  pub project_id : Text
  pub source_id : Text
  pub source_type : Text
  pub event_name : Text
  pub distinct_id : Text
  pub session_id : Text
  pub visit_id : Text
  pub event_time : Time
  pub received_at : Time
  pub source : Text
  pub scope : PropertyScope
  pub name : Text
  pub value : PropertyValue

-- The errors of `newPropertyRecord`, each with the scope and the name that its message has.
pub data PropertyError : Type 0 where
  unreadable_number : PropertyScope → Text → PropertyError
  invalid_number : PropertyScope → Text → PropertyError
  unsupported_type : PropertyScope → Text → PropertyError

pub data Flat {ℓ} (A : Type ℓ) : Type ℓ where
  rows : A → Flat A
  fails : PropertyError → Flat A

-- The order of `sort.Strings`, by bytes.
abbrev pub text_leb : Text → Text → Bool
text_leb [] t = true
text_leb (c ∷ s) [] = false
text_leb (c ∷ s) (d ∷ t) = ltb c d || (c == d && text_leb s t)

abbrev pub insert_sorted : Text → List Text → List Text
insert_sorted s [] = s ∷ []
insert_sorted s (t ∷ ts) =
    let later = insert_sorted s ts in if text_leb s t then s ∷ t ∷ ts else t ∷ later

unfoldable pub sort_strings : List Text → List Text
sort_strings [] = []
sort_strings (s ∷ ss) = insert_sorted s (sort_strings ss)

abbrev pub keys : Properties → List Text
keys [] = []
keys ((key, value) ∷ values) = key ∷ keys values

-- `float64(n)` of a 64-bit integer: the nearest number of 53 bits, the even one of two.
abbrev excess : ℕ → ℕ → ℕ → ℕ
excess zero k n = k
excess (suc fuel) k n =
    let more = excess fuel (suc k) n in if ltb (n / 2 ^ k) (2 ^ 53) then k else more

abbrev round_even : ℕ → ℕ → ℕ
round_even k n =
    let q = n / 2 ^ k in
    let twice = 2 * (n % 2 ^ k) in
    if ltb (2 ^ k) twice || (twice == 2 ^ k && q % 2 == 1) then q + 1 else q

abbrev float_of : Bool → ℕ → Float
float_of negative n = let k = excess 12 0 n in finite negative (round_even k n) (1074 + k)

abbrev pub float_of_int : ℤ → Float
unfolding excess round_even
float_of_int (pos n) = float_of false n
float_of_int (negsuc n) = float_of true (n + 1)

abbrev is_finite : Float → Bool
is_finite (finite s m e) = true
is_finite (infinite s) = false
is_finite nan = false

-- `parse_float` is `strconv.ParseFloat`: no number is an error.
module _ (parse_float : Text → Option Float) where
  abbrev number : PropertyScope → Text → Float → Flat PropertyValue
  number scope name f =
      if is_finite f then rows (number_value f) else fails (invalid_number scope name)

  unfoldable pub typed_value : PropertyScope → Text → Value → Flat PropertyValue
  typed_value scope name null = rows null_value
  typed_value scope name (boolean b) = rows (bool_value b)
  typed_value scope name (string s) = rows (string_value s)
  typed_value scope name (integer i) = number scope name (float_of_int i)
  typed_value scope name (float32 f) = number scope name f
  typed_value scope name (float64 f) = number scope name f
  typed_value scope name (json_number s) = elim (parse_float s) [
    | none ↦ fails (unreadable_number scope name)
    | some f ↦ number scope name f
  ]
  typed_value scope name other = fails (unsupported_type scope name)

  abbrev pub record_of : EventEnvelope → PropertyScope → Text → PropertyValue → EventPropertyRecord
  record_of envelope scope name value = record {
    event_id = envelope.id;
    tenant_id = envelope.tenant_id;
    project_id = envelope.project_id;
    source_id = envelope.source_id;
    source_type = envelope.source_type;
    event_name = envelope.event_name;
    distinct_id = envelope.distinct_id;
    session_id = envelope.session_id;
    visit_id = envelope.visit_id;
    event_time = envelope.event_time;
    received_at = envelope.received_at;
    source = envelope.source;
    scope = scope;
    name = name;
    value = value;
  }

  unfoldable pub new_property_record :
      EventEnvelope → PropertyScope → Text → Value → Flat EventPropertyRecord
  unfolding typed_value
  new_property_record envelope scope name value = elim (typed_value scope name value) [
    | rows v ↦ rows (record_of envelope scope name v)
    | fails e ↦ fails e
  ]

  -- `values[key]`, which is nil without the key.
  abbrev pub value_of : Properties → Text → Value
  unfolding lookup
  value_of values key = elim (lookup key values) [ some v ↦ v | none ↦ null ]

  -- The loop over the sorted keys.
  unfoldable pub flatten_keys :
      EventEnvelope → PropertyScope → Properties → List Text → Flat (List EventPropertyRecord)
  unfolding new_property_record value_of
  flatten_keys envelope scope values [] = rows []
  flatten_keys envelope scope values (key ∷ ks) =
      let later = flatten_keys envelope scope values ks in
      elim (new_property_record envelope scope key (value_of values key)) [
        | fails e ↦ fails e
        | rows r ↦ elim later [ fails e ↦ fails e | rows rs ↦ rows (r ∷ rs) ]
      ]

  unfoldable pub flatten_property_map :
      EventEnvelope → PropertyScope → Properties → Flat (List EventPropertyRecord)
  unfolding flatten_keys sort_strings
  flatten_property_map envelope scope values =
      flatten_keys envelope scope values (sort_strings (keys values))

  unfoldable pub flatten_event_properties : EventEnvelope → Flat (List EventPropertyRecord)
  unfolding flatten_property_map
  flatten_event_properties envelope =
      elim (flatten_property_map envelope event_scope envelope.properties) [
        | fails e ↦ fails e
        | rows records ↦ elim (flatten_property_map envelope user_scope envelope.user_props) [
          | fails e ↦ fails e
          | rows user_records ↦ rows (records ++ user_records)
        ]
      ]
