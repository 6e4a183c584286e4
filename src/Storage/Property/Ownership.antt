-- ===== src/Storage/Property/Ownership.antt =====
-- storage/property.go: every row that flattening gives is of the event.
use analytics_core.Prelude.{◌≡◌, ◌⊎◌, refl, Option, List, [], ◌∷◌, All, All-append, Text, inl, inr}
use analytics_core.Contracts.{EventEnvelope, Float, Properties}
use analytics_core.Storage.Backends.{StatusKey}
use analytics_core.Storage.IngestionGuard.{status_key_from_envelope}
use analytics_core.Storage.Property.{
  EventPropertyRecord, PropertyError, PropertyScope, event_scope, user_scope, Flat, rows, fails,
  typed_value, value_of, new_property_record, flatten_keys, flatten_property_map,
  flatten_event_properties, sort_strings, keys,
}

abbrev pub record_key : EventPropertyRecord → StatusKey
record_key r = record {
  tenant_id = r.tenant_id;
  project_id = r.project_id;
  source_id = r.source_id;
  event_id = r.event_id;
}

pub Flat-cases {ℓ} :
    {A : Type ℓ} (f : Flat A) → ((a : A) × (f ≡ rows a)) ⊎ ((e : PropertyError) × (f ≡ fails e))
Flat-cases (rows a) = inl (a, refl)
Flat-cases (fails e) = inr (e, refl)

-- The rows, if there are any, are of the event.
abbrev pub AreOf : EventEnvelope → Flat (List EventPropertyRecord) → Type 0
AreOf envelope (rows rs) = All (λ r. record_key r ≡ status_key_from_envelope envelope) rs
AreOf envelope (fails e) = Unit

module _ (parse_float : Text → Option Float) where
  keys-AreOf :
      (envelope : EventEnvelope) (scope : PropertyScope) (values : Properties) (ks : List Text)
      → AreOf envelope (flatten_keys parse_float envelope scope values ks)
  unfolding flatten_keys new_property_record
  keys-AreOf envelope scope values [] = tt
  keys-AreOf envelope scope values (k ∷ ks) =
      elim (Flat-cases (typed_value parse_float scope k (value_of parse_float values k))) [
        | inr (e, bad) ↦ rw (bad, flatten_keys) tt
        | inl (v, good) ↦ elim (Flat-cases (flatten_keys parse_float envelope scope values ks)) [
          | inr (e, bad) ↦ rw (good, flatten_keys) (rw (bad, flatten_keys) tt)
          | inl (rs, flat) ↦
              rw (good, flatten_keys)
                (rw (flat, flatten_keys) (refl, rw flat at (keys-AreOf envelope scope values ks)))
        ]
      ]

  pub flatten-AreOf :
      (envelope : EventEnvelope) → AreOf envelope (flatten_event_properties parse_float envelope)
  unfolding flatten_event_properties flatten_property_map
  flatten-AreOf envelope =
      let ks = sort_strings (keys envelope.properties) in
      let us = sort_strings (keys envelope.user_props) in
      elim (Flat-cases (flatten_keys parse_float envelope event_scope envelope.properties ks)) [
        | inr (e, bad) ↦ rw (bad, flatten_event_properties) tt
        | inl (rs, flat) ↦
            elim (Flat-cases
              (flatten_keys parse_float envelope user_scope envelope.user_props us)) [
                | inr (e, bad) ↦
                    rw (flat, flatten_event_properties) (rw (bad, flatten_event_properties) tt)
                | inl (qs, user_flat) ↦
                    rw (flat, flatten_event_properties)
                      (rw (user_flat, flatten_event_properties)
                        (All-append _ rs qs
                          (rw flat at (keys-AreOf envelope event_scope envelope.properties ks))
                          (rw user_flat at
                            (keys-AreOf envelope user_scope envelope.user_props us))))
              ]
      ]
