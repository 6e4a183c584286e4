-- ===== src/Collect/Pipeline.antt =====
-- The stages of collect together, as a handler of collect/handler.go runs them.
use analytics_core.Prelude.{Bool, Option, List, [], ◌∷◌, Text, is_empty, Bool-cases, inl, inr}
use analytics_core.Contracts.{EventEnvelope, Time}
use analytics_core.Collect.Request.{Request, CollectError, normalize_client_info}
use analytics_core.Collect.Digest.{IsDigest}
use analytics_core.Collect.Handler.{Stage, Handled, handle, handle-Handled, KeepsEvents}
use analytics_core.Collect.Session.{
  ResolverConfig, resolve_session, resolve_visit, resolve_session-Resolved, resolve_visit-Resolved,
}
use analytics_core.Collect.Enrichment.{EnrichmentConfig, enrich}
use analytics_core.Collect.Enrichment.Bounded.{enrich-Enriched}
use analytics_core.Collect.TrafficFilter.{
  Addresses, TrafficFilter, filter_traffic, match_bot, match_internal_ip,
}

module _ (net : Addresses) (filter : TrafficFilter net) (sha256 : Text → Text)
    (session visit : ResolverConfig) (enrichment : EnrichmentConfig) where
  abbrev pub pipeline : List Stage
  pipeline =
      filter_traffic net filter
      ∷ resolve_session sha256 session
      ∷ resolve_visit sha256 visit
      ∷ enrich sha256 enrichment
      ∷ []

  module _ (parses : Text → Bool) (publish : EventEnvelope → Option CollectError) where
    filter-KeepsEvents : KeepsEvents parses publish pipeline (filter_traffic net filter)
    unfolding filter_traffic
    filter-KeepsEvents input envelope event h =
        elim (Bool-cases (
          is_empty
            (match_bot net filter (normalize_client_info input.request.client).user_agent))) [
              | inr bot ↦ absurd (cc (rw (bot, filter_traffic) at h))
              | inl person ↦
                  elim (Bool-cases (
                    match_internal_ip net filter (normalize_client_info input.request.client).ip)) [
                      | inl internal ↦
                          absurd (
                            cc
                              (rw (internal, filter_traffic) at (rw (person, filter_traffic) at h)))
                      | inr external ↦
                          rw (person, filter_traffic) (rw (external, filter_traffic) event)
                    ]
            ]

    -- A handler with the traffic filter, the session and visit resolvers and the enrichment, in
    -- any configuration, publishes once an envelope that keeps the protocol's promise and answers
    -- it if the bus takes it, or publishes nothing and answers an error, whatever the request,
    -- provided that SHA-256 gives 32 bytes.
    pub pipeline-Handled :
        (request : Request) (received_at : Time)
        → IsDigest sha256
        → Handled parses publish pipeline (handle parses publish pipeline request received_at)
    pipeline-Handled request received_at h =
        handle-Handled parses publish pipeline request received_at (
          filter-KeepsEvents,
          (
            (λ input envelope e none_is.
                (resolve_session-Resolved sha256 session parses input envelope h e).event),
            (
              (λ input envelope e none_is.
                  (resolve_visit-Resolved sha256 visit parses input envelope h e).event),
              (
                (λ input envelope e none_is.
                    (enrich-Enriched parses sha256 enrichment input envelope e).event),
                tt,
              ),
            ),
          ),
        )
