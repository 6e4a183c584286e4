-- ===== src/Collect/Request/Accepted.antt =====
-- collect/request.go: the events that `Normalize` lets through, described without its tests.
use analytics_core.Prelude.{
  ℕ, ◌+◌, ◌≤◌, ◌<◌, ◌≡◌, ◌≢◌, ◌↔◌, refl, ap, ◌∙◌, Bool, true, false, Option, none, some, [], ◌∷◌,
  ltb, length, ◌==◌, ==_iff, Text, All, arith, Bool-cases, Option-cases, inl, inr,
}
use analytics_core.Contracts.{
  EventEnvelope, Properties, Value, null, boolean, integer, string, float32, float64, json_number,
  other, Float, finite, infinite, nan, Time, zero_time,
}
use analytics_core.Collect.Request.{
  Request, Collected, accepted, ValidationError, alphanumeric, identifier_byte, lower,
  source_type_byte, all_bytes, identifier_pattern, max_clock_skew, max_property_count,
  max_property_str_len, max_id_length, max_event_name_length, max_property_key_len,
  max_source_type_len, validate_text, validate_identifier, validate_event_name,
  validate_source_type, validate_property_key, validate_property_value, validate_float_property,
  validate_entries, validate_properties, validate_optional, validate_request, envelope_of,
  normalize_trimmed, normalize, trim_request, property_field_name, resolved_event_time,
  ◌then_check◌,
}

-- A letter or a digit, and then letters, digits, `_`, `.`, `:` and `-`, at most `limit` in all.
abbrev pub IsIdentifier : ℕ → Text → Type 0
IsIdentifier limit [] = ⊥
IsIdentifier limit (c ∷ s) =
    (length s < limit) × (alphanumeric c ≡ true) × All (λ b. identifier_byte b ≡ true) s

abbrev pub IsSourceType : Text → Type 0
IsSourceType [] = ⊥
IsSourceType (c ∷ s) =
    (length s < max_source_type_len) × (lower c ≡ true) × All (λ b. source_type_byte b ≡ true) s

abbrev pub IsFinite : Float → Type 0
IsFinite (finite s m e) = Unit
IsFinite (infinite s) = ⊥
IsFinite nan = ⊥

-- A value that is no list and no object, is bounded, and is a number if it should be one.
abbrev pub IsScalar : (Text → Bool) → Value → Type 0
IsScalar parses null = Unit
IsScalar parses (boolean b) = Unit
IsScalar parses (integer i) = Unit
IsScalar parses (string s) = length s ≤ max_property_str_len
IsScalar parses (float32 f) = IsFinite f
IsScalar parses (float64 f) = IsFinite f
IsScalar parses (json_number s) = parses s ≡ true
IsScalar parses other = ⊥

abbrev pub IsProperty : (Text → Bool) → Text × Value → Type 0
IsProperty parses (key, value) = IsIdentifier max_property_key_len key × IsScalar parses value

abbrev pub AreProperties : (Text → Bool) → Properties → Type 0
AreProperties parses ps = (length ps ≤ max_property_count) × All (IsProperty parses) ps

abbrev pub IsOptional : Text → Type 0
IsOptional [] = Unit
IsOptional (c ∷ s) = IsIdentifier max_id_length (c ∷ s)

-- What the public protocol promises of an event.
pub record IsEvent (parses : Text → Bool) (envelope : EventEnvelope) : Type 0 where
  pub id : IsIdentifier max_id_length envelope.id
  pub tenant_id : IsIdentifier max_id_length envelope.tenant_id
  pub project_id : IsIdentifier max_id_length envelope.project_id
  pub source_id : IsIdentifier max_id_length envelope.source_id
  pub source_type : IsSourceType envelope.source_type
  pub event_name : IsIdentifier max_event_name_length envelope.event_name
  pub distinct_id : IsIdentifier max_id_length envelope.distinct_id
  pub session_id : IsOptional envelope.session_id
  pub visit_id : IsOptional envelope.visit_id
  pub properties : AreProperties parses envelope.properties
  pub user_props : AreProperties parses envelope.user_props
  pub event_time : envelope.event_time ≤ envelope.received_at + max_clock_skew

all_bytes_iff :
    (test : ℕ → Bool) (s : Text) → (all_bytes test s ≡ true) ↔ All (λ b. test b ≡ true) s
all_bytes_iff test [] = ground arith
all_bytes_iff test (c ∷ s) = ground (arith, all_bytes_iff test s)

pub IsIdentifier-iff :
    (limit : ℕ) (field s : Text)
    → (validate_text identifier_pattern limit field s ≡ none) ↔ IsIdentifier limit s
unfolding validate_text
IsIdentifier-iff limit field [] = ground arith
IsIdentifier-iff limit field (c ∷ s) = ground (arith, all_bytes_iff identifier_byte s)

IsSourceType-iff : (s : Text) → (validate_source_type s ≡ none) ↔ IsSourceType s
unfolding validate_source_type validate_text
IsSourceType-iff [] = ground arith
IsSourceType-iff (c ∷ s) = ground (arith, all_bytes_iff source_type_byte s)

key_iff :
    (field s : Text) → (validate_property_key field s ≡ none) ↔ IsIdentifier max_property_key_len s
unfolding validate_property_key
key_iff field [] = ground arith
key_iff field (c ∷ s) = ground (arith, all_bytes_iff identifier_byte s)

IsOptional-iff : (field s : Text) → (validate_optional field s ≡ none) ↔ IsOptional s
unfolding validate_optional validate_identifier
IsOptional-iff field [] = ground arith
IsOptional-iff field (c ∷ s) = IsIdentifier-iff max_id_length field (c ∷ s)

then_check_iff :
    (a b : Option ValidationError) → ((a then_check b) ≡ none) ↔ ((a ≡ none) × (b ≡ none))
then_check_iff none b = ground arith
then_check_iff (some e) b = ground arith

float_iff : (field : Text) (f : Float) → (validate_float_property field f ≡ none) ↔ IsFinite f
unfolding validate_float_property
float_iff field (finite s m e) = ground arith
float_iff field (infinite s) = ground arith
float_iff field nan = ground arith

module _ (parses : Text → Bool) where
  value_iff :
      (field : Text) (v : Value)
      → (validate_property_value parses field v ≡ none) ↔ IsScalar parses v
  unfolding validate_property_value
  value_iff field null = ground arith
  value_iff field (boolean b) = ground arith
  value_iff field (integer i) = ground arith
  value_iff field (string s) = ground arith
  value_iff field (float32 f) = float_iff field f
  value_iff field (float64 f) = float_iff field f
  value_iff field (json_number s) = ground arith
  value_iff field other = ground arith

  entries_iff :
      (field : Text) (ps : Properties)
      → (validate_entries parses field ps ≡ none) ↔ All (IsProperty parses) ps
  unfolding validate_entries
  entries_iff field [] = ground arith
  entries_iff field ((key, value) ∷ ps) =
      let a = key_iff field key in
      let b = value_iff (property_field_name field key) value in
      let c = entries_iff field ps in ground (arith, a, b, c)

  properties_iff :
      (field : Text) (ps : Properties)
      → (validate_properties parses field ps ≡ none) ↔ AreProperties parses ps
  unfolding validate_properties
  properties_iff field ps = ground (arith, entries_iff field ps)

  checked : (a b : Option ValidationError) → (a then_check b) ≡ none → (a ≡ none) × (b ≡ none)
  checked none b h = (refl, h)
  checked (some e) b h = absurd (cc h)

  both : (a b : Option ValidationError) → a ≡ none → b ≡ none → (a then_check b) ≡ none
  both none b p q = q
  both (some e) b p q = p

  request-IsEvent :
      (r : Request) (received_at : Time)
      → validate_request parses r ≡ none
      → resolved_event_time r received_at ≤ received_at + max_clock_skew
      → IsEvent parses (envelope_of r received_at)
  unfolding validate_request envelope_of validate_identifier validate_event_name
  request-IsEvent r received_at h late =
      let (id, h1) = checked _ _ h in
      let (tenant, h2) = checked _ _ h1 in
      let (project, h3) = checked _ _ h2 in
      let (source, h4) = checked _ _ h3 in
      let (type, h5) = checked _ _ h4 in
      let (name, h6) = checked _ _ h5 in
      let (distinct, h7) = checked _ _ h6 in
      let (session, h8) = checked _ _ h7 in
      let (visit, h9) = checked _ _ h8 in
      let (props, user) = checked _ _ h9 in
      record {
        id = (IsIdentifier-iff _ _ _).0 id;
        tenant_id = (IsIdentifier-iff _ _ _).0 tenant;
        project_id = (IsIdentifier-iff _ _ _).0 project;
        source_id = (IsIdentifier-iff _ _ _).0 source;
        source_type = (IsSourceType-iff _).0 type;
        event_name = (IsIdentifier-iff _ _ _).0 name;
        distinct_id = (IsIdentifier-iff _ _ _).0 distinct;
        session_id = (IsOptional-iff _ _).0 session;
        visit_id = (IsOptional-iff _ _).0 visit;
        properties = (properties_iff _ _).0 props;
        user_props = (properties_iff _ _).0 user;
        event_time = late;
      }

  event-validate :
      (r : Request) (received_at : Time)
      → IsEvent parses (envelope_of r received_at)
      → validate_request parses r ≡ none
  unfolding validate_request envelope_of validate_identifier validate_event_name
  event-validate r received_at e = both _ _ ((IsIdentifier-iff _ _ _).1 e.id) (
      both _ _ ((IsIdentifier-iff _ _ _).1 e.tenant_id) (
        both _ _ ((IsIdentifier-iff _ _ _).1 e.project_id) (
          both _ _ ((IsIdentifier-iff _ _ _).1 e.source_id) (
            both _ _ ((IsSourceType-iff _).1 e.source_type) (
              both _ _ ((IsIdentifier-iff _ _ _).1 e.event_name) (
                both _ _ ((IsIdentifier-iff _ _ _).1 e.distinct_id) (
                  both _ _ ((IsOptional-iff _ _).1 e.session_id) (
                    both _ _ ((IsOptional-iff _ _).1 e.visit_id) (
                      both _ _ ((properties_iff _ _).1 e.properties)
                        ((properties_iff _ _).1 e.user_props))))))))))

  accepted-eq :
      (a b : EventEnvelope) → ◌≡◌ {A = Collected EventEnvelope} (accepted a) (accepted b) → a ≡ b
  accepted-eq a b h = cc

  trimmed-IsEvent :
      (r : Request) (received_at : Time) (envelope : EventEnvelope)
      → normalize_trimmed parses r received_at ≡ accepted envelope
      → IsEvent parses (envelope_of r received_at) × (envelope_of r received_at ≡ envelope)
  unfolding normalize_trimmed
  trimmed-IsEvent r received_at envelope h = elim (Option-cases (validate_request parses r)) [
    | inr (e, bad) ↦ absurd (cc (rw (bad, normalize_trimmed) at h))
    | inl good ↦
        elim (Bool-cases (ltb (received_at + max_clock_skew) (resolved_event_time r received_at))) [
          | inl late ↦
              absurd (cc (rw (late, normalize_trimmed) at (rw (good, normalize_trimmed) at h)))
          | inr timely ↦ (
            request-IsEvent r received_at good (ground (arith, timely)),
            accepted-eq _ _ (rw (timely, normalize_trimmed) at (rw (good, normalize_trimmed) at h)),
          )
        ]
  ]

  trimmed-accepted :
      (r : Request) (received_at : Time)
      → IsEvent parses (envelope_of r received_at)
      → normalize_trimmed parses r received_at ≡ accepted (envelope_of r received_at)
  unfolding normalize_trimmed
  trimmed-accepted r received_at e =
      let timely : ltb (received_at + max_clock_skew) (resolved_event_time r received_at) ≡ false =
        unfold envelope_of in ground (arith, e.event_time) in
      rw (event-validate r received_at e, normalize_trimmed) (rw (timely, normalize_trimmed) refl)

  -- `Normalize` accepts a request, received at a time that is not the zero time, exactly if the
  -- envelope made of the trimmed request is what the protocol promises of an event, and it then
  -- answers that envelope.
  pub normalize_iff :
      (request : Request) (received_at : Time) (envelope : EventEnvelope)
      → received_at ≢ zero_time
      → (normalize parses request received_at ≡ accepted envelope)
        ↔ (IsEvent parses envelope × (envelope_of (trim_request request) received_at ≡ envelope))
  unfolding normalize
  normalize_iff request received_at envelope given =
      let r = trim_request request in
      let not_zero : (received_at == zero_time) ≡ false =
        ground (arith, ==_iff received_at zero_time) in
      (
        λ h.
            let (event, same) =
              trimmed-IsEvent r received_at envelope (rw (not_zero, normalize) at h) in
            (rw same at event, same),
        λ k.
            rw (not_zero, normalize)
              (trimmed-accepted r received_at (rw (← k.1) at k.0) ∙ ap accepted k.1),
      )

  -- An envelope that `Normalize` answers keeps the protocol's promise, whatever the request.
  pub normalize-IsEvent :
      (request : Request) (received_at : Time) (envelope : EventEnvelope)
      → normalize parses request received_at ≡ accepted envelope
      → IsEvent parses envelope
  unfolding normalize
  normalize-IsEvent request received_at envelope h = elim (Bool-cases (received_at == zero_time)) [
    | inl zero_is ↦ absurd (cc (rw (zero_is, normalize) at h))
    | inr given ↦
        ((normalize_iff request received_at envelope
            (λ e. ground (arith, given, ==_iff received_at zero_time))).0
          h).0
  ]
