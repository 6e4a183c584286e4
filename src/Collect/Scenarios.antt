-- ===== src/Collect/Scenarios.antt =====
-- Runs of collect.
use analytics_core.Prelude.{
  ℕ, zero, suc, ◌*◌, ◌≡◌, ◌↔◌, refl, Bool, true, Option, none, some, [], ◌∷◌, Text, txt, trim_space,
  arith, text_beq, inl,
}
use analytics_core.Contracts.{EventEnvelope, Time, zero_time, null}
use analytics_core.Collect.Request.{
  ClientInfo, Request, CollectError, plain, accepted, normalize, envelope_of, trim_request,
  normalize_client_info,
}
use analytics_core.Collect.Request.Accepted.{IsEvent, normalize_iff}
use analytics_core.Collect.Digest.{IsDigest}
use analytics_core.Collect.Handler.{StageInput, Handled, handle}
use analytics_core.Collect.Session.{
  ResolverConfig, Resolved, resolve_session, resolve_session-Resolved, bucket, format_int,
}
use analytics_core.Contracts.{negsuc}
use analytics_core.Collect.Enrichment.{
  EnrichmentConfig, enrich, default_user_agent_parser, detect_browser_family, detect_os_family,
  detect_device_family,
}
use analytics_core.Collect.Enrichment.Bounded.{Enriched, enrich-Enriched}
use analytics_core.Collect.Scanning.{to_lower, contains}
use analytics_core.Collect.TrafficFilter.{
  Addresses, TrafficFilter, filter_traffic, Unwanted-unpublished, match_bot,
}
use analytics_core.Collect.Pipeline.{pipeline, pipeline-Handled}

abbrev noon : Time
noon = 63700000000 * 1000000000

abbrev crawler : ClientInfo
crawler = record { user_agent = txt "A-Bot"; ip = txt "10.0.0.1"; referrer = [] }

abbrev click : Request
click = record {
  id = txt "e1";
  tenant_id = txt "t1";
  project_id = txt "p1";
  source_id = txt "s1";
  source_type = txt "web";
  event_name = txt "click";
  distinct_id = txt "u1";
  session_id = [];
  visit_id = [];
  event_time = zero_time;
  properties = (txt "paid", null) ∷ [];
  user_props = [];
  source = [];
  client = crawler;
}

abbrev any_number : Text → Bool
any_number s = true

-- The envelope of the request, which needs no trimming.
abbrev clicked : EventEnvelope
clicked = record {
  id = txt "e1";
  tenant_id = txt "t1";
  project_id = txt "p1";
  source_id = txt "s1";
  source_type = txt "web";
  event_name = txt "click";
  distinct_id = txt "u1";
  session_id = [];
  visit_id = [];
  event_time = noon;
  received_at = noon;
  properties = (txt "paid", null) ∷ [];
  user_props = [];
  source = [];
}

clicked-IsEvent : IsEvent any_number clicked
clicked-IsEvent = record {
  id = ground arith;
  tenant_id = ground arith;
  project_id = ground arith;
  source_id = ground arith;
  source_type = ground arith;
  event_name = ground arith;
  distinct_id = ground arith;
  session_id = tt;
  visit_id = tt;
  properties = ground arith;
  user_props = ground arith;
  event_time = omega arith;
}

normalize_iff_example :
    (normalize any_number click noon ≡ accepted clicked)
    ↔ (IsEvent any_number clicked × (envelope_of (trim_request click) noon ≡ clicked))
normalize_iff_example = normalize_iff any_number click noon clicked (λ e. omega (arith, e))

abbrev zeros : ℕ → Text
zeros zero = []
zeros (suc n) = 0 ∷ zeros n

abbrev constant_digest : Text → Text
constant_digest message = zeros 32

constant-IsDigest : IsDigest constant_digest
constant-IsDigest message = (refl, ground arith)

abbrev resolver : ResolverConfig
resolver = record {
  salt = txt "pepper";
  window = 30 * 60 * 1000000000;
  include_client_fingerprint = true;
}

abbrev input : StageInput
input = record { request = click; received_at = noon }

resolve_session-Resolved_example :
    Resolved constant_digest resolver any_number []
      (λ e. e.session_id)
      (resolve_session constant_digest resolver input clicked)
resolve_session-Resolved_example =
    resolve_session-Resolved constant_digest resolver any_number input clicked constant-IsDigest
      clicked-IsEvent

abbrev enrichment : EnrichmentConfig
enrichment = record {
  hash_salt = txt "pepper";
  include_user_agent = true;
  include_ip_hash = true;
  include_referrer = true;
  include_browser_info = true;
  include_geo_info = true;
  user_agent_parser = default_user_agent_parser;
  geo_resolver = λ ip. some (record { country = txt "NZ"; region = []; city = [] });
}

enrich-Enriched_example :
    Enriched any_number constant_digest enrichment clicked
      (enrich constant_digest enrichment input clicked)
enrich-Enriched_example =
    enrich-Enriched any_number constant_digest enrichment input clicked clicked-IsEvent

-- Addresses as their text.
abbrev texts : Addresses
texts = record {
  Addr = Text;
  Prefix = Text;
  same = text_beq;
  contains_addr = text_beq;
  parse_addr = λ s. some s;
  parse_addr_port = λ s. none;
  parse_prefix = λ s. accepted s;
  invalid_cidr = λ s e. e;
  invalid_ip = λ s. plain s;
}

abbrev no_bots : TrafficFilter texts
no_bots = record { bot_tokens = txt "bot" ∷ []; internal_cidrs = []; internal_ips = [] }

abbrev publishes_all : EventEnvelope → Option CollectError
publishes_all envelope = none

Unwanted-unpublished_example :
    let r = handle any_number publishes_all (filter_traffic texts no_bots ∷ []) click noon in
    (r.1 ≡ []) × ((e : CollectError) × (r.0.1 ≡ some e))
unfolding match_bot trim_request normalize_client_info trim_space to_lower contains
Unwanted-unpublished_example =
    Unwanted-unpublished texts no_bots any_number publishes_all [] [] click noon (inl refl)

pipeline-Handled_example :
    let stages = pipeline texts no_bots constant_digest resolver resolver enrichment in
    Handled any_number publishes_all stages (handle any_number publishes_all stages click noon)
pipeline-Handled_example =
    pipeline-Handled texts no_bots constant_digest resolver resolver enrichment any_number
      publishes_all click noon constant-IsDigest

safari_on_a_phone :
    default_user_agent_parser (txt "Mozilla/5.0 (iPhone) Safari/604.1")
    ≡ record { browser = txt "Safari"; os = txt "iOS"; device = txt "mobile" }
unfolding default_user_agent_parser detect_browser_family detect_os_family detect_device_family
    to_lower contains trim_space
safari_on_a_phone = refl

before_the_epoch : bucket (60 * 1000000000) zero_time ≡ negsuc 62135596799
unfolding bucket
before_the_epoch = refl

epoch_text : format_int (negsuc 41) ≡ txt "-42"
unfolding format_int
epoch_text = refl
