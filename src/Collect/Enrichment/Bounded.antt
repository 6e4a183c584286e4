-- ===== src/Collect/Enrichment/Bounded.antt =====
-- collect/enrichment.go: what the stage adds stays within the protocol, and takes nothing away.
use analytics_core.Prelude.{
  suc, ◌≤◌, ◌<◌, ◌≡◌, refl, Bool, true, false, Option, none, some, [], ◌∷◌, ◌++◌, leb, length, take,
  lookup, insert, lookup-insert, text_eq, text_beq_iff, Text, txt, is_empty, if◌then◌else◌, All,
  arith, Bool-cases, Option-cases, inl, inr,
}
use analytics_core.Contracts.{EventEnvelope, Properties, Value, string}
use analytics_core.Collect.Request.{
  ClientInfo, normalize_client_info, max_property_count, max_property_key_len, max_property_str_len,
}
use analytics_core.Collect.Request.Accepted.{IsEvent, IsIdentifier, IsProperty, AreProperties}
use analytics_core.Collect.Digest.{
  salted_digest, truncate_property_string, truncate-bound, length-take,
}
use analytics_core.Collect.Handler.{StageInput, Answer}
use analytics_core.Collect.Enrichment.{
  EnrichmentConfig, GeoLocation, put_generated_property, put_user_agent_properties,
  put_geo_properties, put_user_agent, put_referrer, put_ip_hash, put_browser_info, put_geo_info,
  enrich_properties, enrich, put_cut,
}

insert-All :
    (P : Text × Value → Type 0) (k : Text) (v : Value) (ps : Properties)
    → P (k, v)
    → All P ps
    → All P (insert k v ps)
unfolding insert
insert-All P k v [] h all = (h, tt)
insert-All P k v ((j, w) ∷ ps) h all = elim (Bool-cases (text_eq.beq j k)) [
  | inl same ↦ rw (same, insert) (h, all.1)
  | inr differ ↦ rw (differ, insert) (all.0, insert-All P k v ps h all.1)
]

length-insert :
    (k : Text) (v : Value) (ps : Properties)
    → lookup k ps ≡ none
    → length (insert k v ps) ≡ suc (length ps)
unfolding lookup insert
length-insert k v [] h = refl
length-insert k v ((j, w) ∷ ps) h = ground (arith, length-insert k v ps)

module _ (parses : Text → Bool) where
  -- The properties stay within the protocol, and each that is there keeps its value.
  record Grown (ps qs : Properties) : Type 0 where
    bounded : AreProperties parses ps → AreProperties parses qs
    kept : (k : Text) (v : Value) → lookup k ps ≡ some v → lookup k qs ≡ some v

  Grown-same : (ps : Properties) → Grown ps ps
  Grown-same ps = record { bounded = λ h. h; kept = λ k v h. h }

  Grown-trans : (ps qs rs : Properties) → Grown ps qs → Grown qs rs → Grown ps rs
  Grown-trans ps qs rs a b = record {
    bounded = λ h. b.bounded (a.bounded h);
    kept = λ k v h. b.kept k v (a.kept k v h);
  }

  insert-Grown :
      (ps : Properties) (key value : Text)
      → IsIdentifier max_property_key_len key
      → length value ≤ max_property_str_len
      → lookup key ps ≡ none
      → length ps < max_property_count
      → Grown ps (insert key (string value) ps)
  insert-Grown ps key value id short absent room = record {
    bounded = λ h. (
      omega (arith, length-insert key (string value) ps absent),
      insert-All (IsProperty parses) key (string value) ps (id, short) h.1,
    );
    kept =
        λ k v h. ground (arith, lookup-insert key k (string value) ps, text_beq_iff key k, absent);
  }

  put-Grown :
      (ps : Properties) (key value : Text)
      → IsIdentifier max_property_key_len key
      → length value ≤ max_property_str_len
      → Grown ps (put_generated_property ps key value)
  unfolding put_generated_property
  put-Grown ps key value id short = elim (Bool-cases (is_empty value)) [
    | inl empty ↦ rw (empty, put_generated_property) (Grown-same ps)
    | inr given ↦ elim (Option-cases (lookup key ps)) [
      | inr (old, found) ↦
          rw (given, put_generated_property) (rw (found, put_generated_property) (Grown-same ps))
      | inl absent ↦ elim (Bool-cases (leb max_property_count (length ps))) [
        | inl full ↦
            rw (given, put_generated_property)
              (rw (absent, put_generated_property)
                (rw (full, put_generated_property) (Grown-same ps)))
        | inr room ↦
            rw (given, put_generated_property)
              (rw (absent, put_generated_property)
                (rw (room, put_generated_property)
                  (insert-Grown ps key value id short absent (ground (arith, room)))))
      ]
    ]
  ]

  put_cut-Grown :
      (ps : Properties) (key value : Text)
      → IsIdentifier max_property_key_len key
      → Grown ps (put_cut ps key value)
  unfolding put_cut
  put_cut-Grown ps key value id =
      put-Grown ps key (truncate_property_string value) id (truncate-bound value)

  three-Grown :
      (ps : Properties) (a x b y c z : Text)
      → IsIdentifier max_property_key_len a
      → IsIdentifier max_property_key_len b
      → IsIdentifier max_property_key_len c
      → Grown ps (put_cut (put_cut (put_cut ps a x) b y) c z)
  three-Grown ps a x b y c z p q r = Grown-trans _ _ _ (put_cut-Grown ps a x p) (
      Grown-trans _ _ _ (put_cut-Grown (put_cut ps a x) b y q)
        (put_cut-Grown (put_cut (put_cut ps a x) b y) c z r))

  geo-Grown :
      (ps : Properties) (resolver : Text → Option GeoLocation) (ip : Text)
      → Grown ps (put_geo_properties ps resolver ip)
  unfolding put_geo_properties
  geo-Grown ps resolver ip = elim (Option-cases (resolver ip)) [
    | inl nowhere ↦ rw (nowhere, put_geo_properties) (Grown-same ps)
    | inr (location, found) ↦
        rw (found, put_geo_properties)
          (three-Grown ps (txt "geo.country") location.country (txt "geo.region") location.region
            (txt "geo.city") location.city (ground arith) (ground arith) (ground arith))
  ]

  if-Grown : (test : Bool) (ps qs : Properties) → Grown ps qs → Grown ps (if test then qs else ps)
  if-Grown true ps qs h = h
  if-Grown false ps qs h = Grown-same ps

  module _ (sha256 : Text → Text) (config : EnrichmentConfig) where
    enrich-Grown :
        (client : ClientInfo) (ps : Properties)
        → Grown ps (enrich_properties sha256 config client ps)
    unfolding enrich_properties put_user_agent put_referrer put_ip_hash put_browser_info
        put_geo_info put_user_agent_properties
    enrich-Grown client ps =
        let a = put_user_agent sha256 config client ps in
        let b = put_referrer sha256 config client a in
        let c = put_ip_hash sha256 config client b in
        let hash =
          take 32 (salted_digest sha256 (txt "client-ip") config.hash_salt (client.ip ∷ [])) in
        let d = put_browser_info sha256 config client c in
        Grown-trans ps a _
          (if-Grown _ ps _ (put_cut-Grown ps (txt "client.user_agent") _ (ground arith)))
          (Grown-trans a b _
            (if-Grown _ a _ (put_cut-Grown a (txt "client.referrer") _ (ground arith)))
            (Grown-trans b c _
              (if-Grown _ b _ (
                put-Grown b (txt "client.ip_hash") (txt "ip_" ++ hash) (ground arith) (
                  omega (
                    arith,
                    length-take 32
                        (salted_digest sha256 (txt "client-ip") config.hash_salt (client.ip ∷ [])),
                  ))))
              (Grown-trans c d _
                (if-Grown _ c _ (
                  three-Grown c (txt "client.browser") _ (txt "client.os") _ (txt "client.device") _
                    (ground arith) (ground arith) (ground arith)))
                (if-Grown _ d _ (geo-Grown d config.geo_resolver client.ip)))))

    -- What the stage promises.
    pub record Enriched (envelope : EventEnvelope) (answer : Answer) : Type 0 where
      pub takes : answer.1 ≡ none
      pub event : IsEvent parses answer.0
      pub client_wins :
          (k : Text) (v : Value)
          → lookup k envelope.properties ≡ some v
          → lookup k answer.0.properties ≡ some v

    -- For every event, whatever the parser and the resolver answer, the enrichment stage answers no
    -- error and an event, which has every property that the client gave with the client's value.
    pub enrich-Enriched :
        (input : StageInput) (envelope : EventEnvelope)
        → IsEvent parses envelope
        → Enriched envelope (enrich sha256 config input envelope)
    unfolding enrich
    enrich-Enriched input envelope e =
        let grown = enrich-Grown (normalize_client_info input.request.client) envelope.properties in
        record {
          takes = refl;
          event = record {
            id = e.id;
            tenant_id = e.tenant_id;
            project_id = e.project_id;
            source_id = e.source_id;
            source_type = e.source_type;
            event_name = e.event_name;
            distinct_id = e.distinct_id;
            session_id = e.session_id;
            visit_id = e.visit_id;
            properties = grown.bounded e.properties;
            user_props = e.user_props;
            event_time = e.event_time;
          };
          client_wins = grown.kept;
        }
