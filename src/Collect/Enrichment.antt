-- ===== src/Collect/Enrichment.antt =====
-- collect/enrichment.go: a stage that adds bounded client properties to an event.
pub mod Bounded
use analytics_core.Prelude.{
  ℕ, Bool, true, false, not, ◌&&◌, Option, none, some, List, [], ◌∷◌, ◌++◌, leb, length, take,
  lookup, insert, text_eq, Text, txt, is_empty, trim_space, if◌then◌else◌,
}
use analytics_core.Contracts.{EventEnvelope, Properties, Value, string}
use analytics_core.Collect.Request.{ClientInfo, normalize_client_info, max_property_count}
use analytics_core.Collect.Digest.{salted_digest, truncate_property_string}
use analytics_core.Collect.Handler.{StageInput, Answer}
use analytics_core.Collect.Scanning.{to_lower, contains, contains_any}

pub record UserAgentInfo : Type 0 where
  pub browser : Text
  pub os : Text
  pub device : Text

pub record GeoLocation : Type 0 where
  pub country : Text
  pub region : Text
  pub city : Text

-- `ClientEnrichmentConfig` as `NewClientEnrichmentStage` leaves it; the parser and the resolver are
-- injected.
pub record EnrichmentConfig : Type 0 where
  pub hash_salt : Text
  pub include_user_agent : Bool
  pub include_ip_hash : Bool
  pub include_referrer : Bool
  pub include_browser_info : Bool
  pub include_geo_info : Bool
  pub user_agent_parser : Text → UserAgentInfo
  pub geo_resolver : Text → Option GeoLocation

unfoldable pub put_generated_property : Properties → Text → Text → Properties
put_generated_property properties key value =
    if is_empty value then properties else elim (lookup key properties) [
      | some old ↦ properties
      | none ↦
          if leb max_property_count (length properties)
          then properties
          else insert key (string value) properties
    ]

-- `putGeneratedProperty` with a value that is cut first.
abbrev pub put_cut : Properties → Text → Text → Properties
unfolding put_generated_property truncate_property_string
put_cut properties key value =
    put_generated_property properties key (truncate_property_string value)

unfoldable pub put_user_agent_properties : Properties → UserAgentInfo → Properties
unfolding put_cut
put_user_agent_properties properties info =
    put_cut
      (put_cut (put_cut properties (txt "client.browser") info.browser) (txt "client.os") info.os)
      (txt "client.device") info.device

unfoldable pub put_geo_properties : Properties → (Text → Option GeoLocation) → Text → Properties
unfolding put_cut
put_geo_properties properties resolver ip = elim (resolver ip) [
  | none ↦ properties
  | some location ↦
      put_cut
        (put_cut (put_cut properties (txt "geo.country") location.country) (txt "geo.region")
          location.region)
        (txt "geo.city") location.city
]

module _ (sha256 : Text → Text) (config : EnrichmentConfig) where
  -- The steps of `Apply`, each behind its test.
  unfoldable pub put_user_agent : ClientInfo → Properties → Properties
  unfolding put_cut
  put_user_agent client properties =
      if config.include_user_agent && not (is_empty client.user_agent)
      then put_cut properties (txt "client.user_agent") client.user_agent
      else properties

  unfoldable pub put_referrer : ClientInfo → Properties → Properties
  unfolding put_cut
  put_referrer client properties =
      if config.include_referrer && not (is_empty client.referrer)
      then put_cut properties (txt "client.referrer") client.referrer
      else properties

  unfoldable pub put_ip_hash : ClientInfo → Properties → Properties
  unfolding put_generated_property salted_digest
  put_ip_hash client properties =
      if config.include_ip_hash && not (is_empty client.ip)
      then put_generated_property properties (txt "client.ip_hash") (
          txt "ip_"
          ++ take 32 (salted_digest sha256 (txt "client-ip") config.hash_salt (client.ip ∷ [])))
      else properties

  unfoldable pub put_browser_info : ClientInfo → Properties → Properties
  unfolding put_user_agent_properties
  put_browser_info client properties =
      if config.include_browser_info && not (is_empty client.user_agent)
      then put_user_agent_properties properties (config.user_agent_parser client.user_agent)
      else properties

  unfoldable pub put_geo_info : ClientInfo → Properties → Properties
  unfolding put_geo_properties
  put_geo_info client properties =
      if config.include_geo_info && not (is_empty client.ip)
      then put_geo_properties properties config.geo_resolver client.ip
      else properties

  unfoldable pub enrich_properties : ClientInfo → Properties → Properties
  unfolding put_user_agent put_referrer put_ip_hash put_browser_info put_geo_info
  enrich_properties client properties = put_geo_info client (
      put_browser_info client
        (put_ip_hash client (put_referrer client (put_user_agent client properties))))

  -- `clientEnrichmentStage.Apply`
  unfoldable pub enrich : StageInput → EventEnvelope → Answer
  unfolding enrich_properties normalize_client_info
  enrich input envelope = (
    record envelope {
      properties =
          enrich_properties (normalize_client_info input.request.client) envelope.properties;
    },
    none,
  )

-- The parser that is used when none is injected.
unfoldable pub detect_browser_family : Text → Text
unfolding contains
detect_browser_family ua =
    if contains_any ua (txt "edgios" ∷ txt "edga/" ∷ txt "edg/" ∷ txt "edge/" ∷ [])
    then txt "Edge"
    else if contains_any ua (txt "opios" ∷ txt "opr/" ∷ txt "opera" ∷ [])
    then txt "Opera"
    else if contains_any ua (txt "fxios" ∷ txt "firefox/" ∷ [])
    then txt "Firefox"
    else if contains_any ua (txt "crios" ∷ txt "chrome/" ∷ txt "chromium/" ∷ [])
    then txt "Chrome"
    else if contains ua (txt "safari/")
    then txt "Safari"
    else []

unfoldable pub detect_os_family : Text → Text
unfolding contains
detect_os_family ua =
    if contains_any ua (txt "iphone" ∷ txt "ipad" ∷ [])
    then txt "iOS"
    else if contains ua (txt "android")
    then txt "Android"
    else if contains ua (txt "windows nt")
    then txt "Windows"
    else if contains_any ua (txt "mac os x" ∷ txt "macintosh" ∷ [])
    then txt "macOS"
    else if contains ua (txt "cros")
    then txt "ChromeOS"
    else if contains ua (txt "linux")
    then txt "Linux"
    else []

unfoldable pub detect_device_family : Text → Text
unfolding contains
detect_device_family ua =
    if contains_any ua (txt "ipad" ∷ txt "tablet" ∷ [])
    then txt "tablet"
    else if contains_any ua (txt "mobi" ∷ txt "iphone" ∷ txt "android" ∷ [])
    then txt "mobile"
    else if contains ua (txt "mozilla/")
    then txt "desktop"
    else []

unfoldable pub default_user_agent_parser : Text → UserAgentInfo
unfolding detect_browser_family detect_os_family detect_device_family to_lower
default_user_agent_parser user_agent =
    let trimmed = trim_space user_agent in
    let lower = to_lower trimmed in
    if is_empty trimmed then record { browser = []; os = []; device = [] } else record {
      browser = detect_browser_family lower;
      os = detect_os_family lower;
      device = detect_device_family lower;
    }
