-- ===== src/Collect/Session.antt =====
-- collect/session.go: stages that derive the session and visit of an event that has none.
use analytics_core.Prelude.{
  digits, ℕ, ◌+◌, ◌-◌, ◌*◌, ◌/◌, ◌%◌, ◌≡◌, refl, Bool, true, false, not, none, some, List, [], ◌∷◌,
  ◌++◌, ltb, leb, ◌==◌, take, Text, txt, is_empty, if◌then◌else◌, arith, Bool-cases, inl, inr,
}
use analytics_core.Contracts.{EventEnvelope, Time, zero_time, ℤ, pos, negsuc}
use analytics_core.Collect.Request.{
  plain, rejected, Collected, accepted, refused, identifier_byte, alphanumeric, validate_identifier,
  normalize_client_info, max_id_length,
}
use analytics_core.Collect.Request.Accepted.{IsEvent, IsIdentifier, IsOptional, IsIdentifier-iff}
use analytics_core.Collect.Digest.{salted_digest, IsDigest, digest-All, length-take}
use analytics_core.Collect.Handler.{StageInput, Answer, zero_envelope}

-- `SessionResolverConfig` and, without the last field, `VisitResolverConfig`.
pub record ResolverConfig : Type 0 where
  pub salt : Text
  pub window : Time
  pub include_client_fingerprint : Bool

abbrev pub default_session_window : Time
default_session_window = 30 * 60 * 1000000000

-- `NewSessionResolverStage` up to the stage it makes of the configuration.
unfoldable pub new_session_resolver : ResolverConfig → Collected ResolverConfig
new_session_resolver config =
    let window = if config.window == 0 then default_session_window else config.window in
    if is_empty config.salt
    then refused (plain (txt "session resolver salt is required"))
    else if ltb window (60 * 1000000000)
    then refused (plain (txt "session resolver window must be at least one minute"))
    else accepted (record config { window = window })

abbrev pub default_visit_window : Time
default_visit_window = default_session_window

-- `NewVisitResolverStage`
unfoldable pub new_visit_resolver : ResolverConfig → Collected ResolverConfig
new_visit_resolver config =
    let window = if config.window == 0 then default_visit_window else config.window in
    if is_empty config.salt
    then refused (plain (txt "visit resolver salt is required"))
    else if ltb window (60 * 1000000000)
    then refused (plain (txt "visit resolver window must be at least one minute"))
    else accepted (record config { window = window })

-- Seconds from the start of the year 0 to 1970.
abbrev pub unix_epoch : ℕ
unix_epoch = 62167219200

-- The remainder of the time since the zero time, which `Truncate` takes off.
abbrev pub remainder : Time → Time → Time
remainder window t =
    if leb zero_time t
    then (t - zero_time) % window
    else (window - (zero_time - t) % window) % window

abbrev pub minus : ℕ → ℕ → ℤ
minus a b = if ltb a b then negsuc (b - a - 1) else pos (a - b)

-- `EventTime.UTC().Truncate(window).Unix()`; the window is added before the division, which rounds
-- down, so that no step goes below zero.
unfoldable pub bucket : Time → Time → ℤ
bucket window t =
    minus ((t + window * 1000000000 - remainder window t) / 1000000000) (window + unix_epoch)

-- `strconv.FormatInt(v, 10)`; an int64 has 19 digits at most.
unfoldable pub format_int : ℤ → Text
format_int (pos n) = digits 20 n
format_int (negsuc n) = 45 ∷ digits 20 (n + 1)

with_session-IsEvent :
    {parses : Text → Bool} (envelope : EventEnvelope) (session_id : Text)
    → IsEvent parses envelope
    → IsOptional session_id
    → IsEvent parses (record envelope { session_id = session_id })
with_session-IsEvent envelope session_id e h = record {
  id = e.id;
  tenant_id = e.tenant_id;
  project_id = e.project_id;
  source_id = e.source_id;
  source_type = e.source_type;
  event_name = e.event_name;
  distinct_id = e.distinct_id;
  session_id = h;
  visit_id = e.visit_id;
  properties = e.properties;
  user_props = e.user_props;
  event_time = e.event_time;
}

with_visit-IsEvent :
    {parses : Text → Bool} (envelope : EventEnvelope) (visit_id : Text)
    → IsEvent parses envelope
    → IsOptional visit_id
    → IsEvent parses (record envelope { visit_id = visit_id })
with_visit-IsEvent envelope visit_id e h = record {
  id = e.id;
  tenant_id = e.tenant_id;
  project_id = e.project_id;
  source_id = e.source_id;
  source_type = e.source_type;
  event_name = e.event_name;
  distinct_id = e.distinct_id;
  session_id = e.session_id;
  visit_id = h;
  properties = e.properties;
  user_props = e.user_props;
  event_time = e.event_time;
}

-- `prefix + digest[:32]`, validated.
module _ (sha256 : Text → Text) (config : ResolverConfig) where
  abbrev scope : EventEnvelope → List Text → List Text
  scope envelope rest =
      envelope.tenant_id ∷ envelope.project_id ∷ envelope.source_id ∷ envelope.distinct_id ∷ rest

  abbrev bucket_text : EventEnvelope → Text
  unfolding bucket format_int
  bucket_text envelope = format_int (bucket config.window envelope.event_time)

  unfoldable pub session_parts : StageInput → EventEnvelope → List Text
  unfolding normalize_client_info bucket_text
  session_parts input envelope =
      let client = normalize_client_info input.request.client in
      scope envelope (
        bucket_text envelope
        ∷ (if config.include_client_fingerprint then client.user_agent ∷ client.ip ∷ [] else []))

  unfoldable pub derived_session : StageInput → EventEnvelope → Text
  unfolding session_parts salted_digest
  derived_session input envelope =
      txt "ses_"
      ++ take 32 (salted_digest sha256 (txt "session") config.salt (session_parts input envelope))

  -- `sessionResolverStage.Apply`
  unfoldable pub resolve_session : StageInput → EventEnvelope → Answer
  unfolding derived_session validate_identifier
  resolve_session input envelope =
      let session_id = derived_session input envelope in
      if not (is_empty envelope.session_id)
      then (envelope, none)
      else elim (validate_identifier (txt "session_id") session_id) [
        | some e ↦ (zero_envelope, some (rejected e))
        | none ↦ (record envelope { session_id = session_id }, none)
      ]

  unfoldable pub visit_parts : EventEnvelope → List Text
  unfolding bucket_text
  visit_parts envelope = scope envelope (envelope.session_id ∷ bucket_text envelope ∷ [])

  unfoldable pub derived_visit : EventEnvelope → Text
  unfolding visit_parts salted_digest
  derived_visit envelope =
      txt "vis_" ++ take 32 (salted_digest sha256 (txt "visit") config.salt (visit_parts envelope))

  -- `visitResolverStage.Apply`
  unfoldable pub resolve_visit : StageInput → EventEnvelope → Answer
  unfolding derived_visit validate_identifier
  resolve_visit input envelope =
      let visit_id = derived_visit envelope in
      if not (is_empty envelope.visit_id)
      then (envelope, none)
      else elim (validate_identifier (txt "visit_id") visit_id) [
        | some e ↦ (zero_envelope, some (rejected e))
        | none ↦ (record envelope { visit_id = visit_id }, none)
      ]

  -- The 36 characters that a resolver makes are an identifier.
  derived-IsIdentifier :
      (f a b c : ℕ) (salt label : Text) (parts : List Text)
      → IsDigest sha256
      → alphanumeric f ≡ true
      → identifier_byte a ≡ true
      → identifier_byte b ≡ true
      → identifier_byte c ≡ true
      → IsIdentifier max_id_length (f ∷ a ∷ b ∷ c ∷ take 32 (salted_digest sha256 label salt parts))
  derived-IsIdentifier f a b c salt label parts h p q r s = (
    omega (arith, length-take 32 (salted_digest sha256 label salt parts)),
    p,
    (q, (r, (s, digest-All sha256 label salt parts h))),
  )

  -- What a resolver promises: it never turns an event away, keeps the given identifier, and leaves
  -- none empty.
  pub record Resolved (parses : Text → Bool) (given : Text) (chosen : EventEnvelope → Text)
      (answer : Answer) : Type 0 where
    pub takes : answer.1 ≡ none
    pub event : IsEvent parses answer.0
    pub named : is_empty (chosen answer.0) ≡ false
    pub kept : is_empty given ≡ false → chosen answer.0 ≡ given

  -- For every event, the session stage answers no error and an event with a session, which is the
  -- given one if there is one, provided that SHA-256 gives 32 bytes.
  pub resolve_session-Resolved :
      (parses : Text → Bool) (input : StageInput) (envelope : EventEnvelope)
      → IsDigest sha256
      → IsEvent parses envelope
      → Resolved parses envelope.session_id (λ e. e.session_id) (resolve_session input envelope)
  unfolding resolve_session validate_identifier derived_session
  resolve_session-Resolved parses input envelope h event =
      elim (Bool-cases (is_empty envelope.session_id)) [
        | inr given ↦
            rw (given, resolve_session)
              (record { takes = refl; event = event; named = given; kept = λ e. refl })
        | inl missing ↦
            let id =
              derived-IsIdentifier 115 101 115 95 config.salt (txt "session")
                (session_parts input envelope) h refl refl refl refl in
            let valid =
              (IsIdentifier-iff max_id_length (txt "session_id") (derived_session input envelope)).1
                id in
            rw (missing, resolve_session)
              (rw (valid, resolve_session)
                (record {
                  takes = refl;
                  event = with_session-IsEvent envelope _ event id;
                  named = refl;
                  kept = λ e. absurd (cc (e, missing));
                }))
      ]

  -- The same of the visit stage.
  pub resolve_visit-Resolved :
      (parses : Text → Bool) (input : StageInput) (envelope : EventEnvelope)
      → IsDigest sha256
      → IsEvent parses envelope
      → Resolved parses envelope.visit_id (λ e. e.visit_id) (resolve_visit input envelope)
  unfolding resolve_visit validate_identifier derived_visit
  resolve_visit-Resolved parses input envelope h event =
      elim (Bool-cases (is_empty envelope.visit_id)) [
        | inr given ↦
            rw (given, resolve_visit)
              (record { takes = refl; event = event; named = given; kept = λ e. refl })
        | inl missing ↦
            let id =
              derived-IsIdentifier 118 105 115 95 config.salt (txt "visit") (visit_parts envelope) h
                refl refl refl refl in
            let valid =
              (IsIdentifier-iff max_id_length (txt "visit_id") (derived_visit envelope)).1 id in
            rw (missing, resolve_visit)
              (rw (valid, resolve_visit)
                (record {
                  takes = refl;
                  event = with_visit-IsEvent envelope _ event id;
                  named = refl;
                  kept = λ e. absurd (cc (e, missing));
                }))
      ]
