-- ===== src/Collect/TrafficFilter.antt =====
-- collect/traffic_filter.go: a stage that turns bots and internal traffic away. The addresses of
-- net/netip are a parameter.
use analytics_core.Prelude.{
  ◌≡◌, ◌⊎◌, refl, Bool, true, false, not, ◌&&◌, ◌||◌, Option, none, some, List, [], ◌∷◌, ◌++◌, ◌==◌,
  Text, txt, is_empty, trim_space, if◌then◌else◌, Bool-cases, Option-cases, inl, inr,
}
use analytics_core.Contracts.{EventEnvelope, Time}
use analytics_core.Collect.Request.{
  Request, CollectError, filtered, Collected, accepted, refused, normalize_client_info,
  trim_request, normalize,
}
use analytics_core.Collect.Handler.{
  StageInput, Answer, Stage, zero_envelope, apply_stages, handle, stage_and_publish,
}
use analytics_core.Collect.Scanning.{to_lower, contains}

abbrev pub default_bot_user_agent_tokens : List Text
default_bot_user_agent_tokens = txt "bot" ∷ txt "crawler" ∷ txt "headlesschrome" ∷ txt "spider" ∷ []

-- What is used of net/netip and of the verb `%q`.
pub record Addresses : Type 1 where
  pub Addr : Type 0
  pub Prefix : Type 0
  pub same : Addr → Addr → Bool
  pub contains_addr : Prefix → Addr → Bool
  pub parse_addr : Text → Option Addr
  pub parse_addr_port : Text → Option Addr
  pub parse_prefix : Text → Collected Prefix
  pub invalid_cidr : Text → CollectError → CollectError
  pub invalid_ip : Text → CollectError

pub record TrafficFilterConfig : Type 0 where
  pub bot_user_agents : List Text
  pub internal_cidrs : List Text
  pub internal_ips : List Text

unfoldable pub normalize_bot_tokens : List Text → List Text
normalize_bot_tokens [] = []
normalize_bot_tokens (token ∷ tokens) =
    let small = to_lower (trim_space token) in
    let later = normalize_bot_tokens tokens in if is_empty small then later else small ∷ later

-- The text before the first comma, if there is one.
abbrev pub before_comma : Text → Option Text
before_comma [] = none
before_comma (c ∷ s) =
    let later = before_comma s in
    if c == 44 then some [] else elim later [ none ↦ none | some front ↦ some (c ∷ front) ]

module _ (net : Addresses) where
  open net use {Addr, Prefix}

  unfoldable pub parse_client_addr : Text → Option Addr
  parse_client_addr text =
      let value = trim_space text in
      let first : Text = elim (before_comma value) [
        | none ↦ value
        | some front ↦ trim_space front
      ] in
      if is_empty value
      then none
      else elim (net.parse_addr first) [ some addr ↦ some addr | none ↦ net.parse_addr_port first ]

  pub record TrafficFilter : Type 0 where
    pub bot_tokens : List Text
    pub internal_cidrs : List Prefix
    pub internal_ips : List Addr

  unfoldable pub parse_cidrs : List Text → Collected (List Prefix)
  parse_cidrs [] = accepted []
  parse_cidrs (cidr ∷ cidrs) =
      let later = parse_cidrs cidrs in
      elim (net.parse_prefix (trim_space cidr)) [
        | refused e ↦ refused (net.invalid_cidr cidr e)
        | accepted prefix ↦ elim later [
          | refused e ↦ refused e
          | accepted prefixes ↦ accepted (prefix ∷ prefixes)
        ]
      ]

  unfoldable pub parse_ips : List Text → Collected (List Addr)
  unfolding parse_client_addr
  parse_ips [] = accepted []
  parse_ips (ip ∷ ips) =
      let later = parse_ips ips in
      elim (parse_client_addr ip) [
        | none ↦ refused (net.invalid_ip ip)
        | some addr ↦ elim later [
          | refused e ↦ refused e
          | accepted addrs ↦ accepted (addr ∷ addrs)
        ]
      ]

  abbrev or_default : List Text → List Text
  or_default [] = default_bot_user_agent_tokens
  or_default (token ∷ tokens) = token ∷ tokens

  -- `NewTrafficFilterStage`
  unfoldable pub new_traffic_filter : TrafficFilterConfig → Collected TrafficFilter
  unfolding parse_cidrs parse_ips normalize_bot_tokens
  new_traffic_filter config =
      let tokens = or_default (normalize_bot_tokens config.bot_user_agents) in
      elim (parse_cidrs config.internal_cidrs) [
        | refused e ↦ refused e
        | accepted cidrs ↦ elim (parse_ips config.internal_ips) [
          | refused e ↦ refused e
          | accepted ips ↦
              accepted (record { bot_tokens = tokens; internal_cidrs = cidrs; internal_ips = ips })
        ]
      ]

  abbrev pub any_token : Text → List Text → Bool
  any_token user_agent [] = false
  any_token user_agent (token ∷ tokens) =
      (not (is_empty token) && contains user_agent token) || any_token user_agent tokens

  -- The reason, or the empty text.
  unfoldable pub match_bot : TrafficFilter → Text → Text
  match_bot filter user_agent =
      let small = to_lower (trim_space user_agent) in
      if is_empty small
      then []
      else if any_token small filter.bot_tokens
      then txt "bot user agent"
      else []

  abbrev any_ip : Addr → List Addr → Bool
  any_ip addr [] = false
  any_ip addr (blocked ∷ ips) = net.same addr blocked || any_ip addr ips

  abbrev any_prefix : Addr → List Prefix → Bool
  any_prefix addr [] = false
  any_prefix addr (prefix ∷ prefixes) = net.contains_addr prefix addr || any_prefix addr prefixes

  unfoldable pub match_internal_ip : TrafficFilter → Text → Bool
  unfolding parse_client_addr
  match_internal_ip filter value = elim (parse_client_addr value) [
    | none ↦ false
    | some addr ↦ any_ip addr filter.internal_ips || any_prefix addr filter.internal_cidrs
  ]

  -- `trafficFilterStage.Apply`
  unfoldable pub filter_traffic : TrafficFilter → StageInput → EventEnvelope → Answer
  unfolding match_bot match_internal_ip normalize_client_info
  filter_traffic filter input envelope =
      let client = normalize_client_info input.request.client in
      let reason = match_bot filter client.user_agent in
      if not (is_empty reason)
      then (envelope, some (filtered reason envelope))
      else if match_internal_ip filter client.ip
      then (envelope, some (filtered (txt "internal ip") envelope))
      else (envelope, none)

  -- The client of the request is a bot, or internal.
  abbrev pub Unwanted : TrafficFilter → Request → Type 0
  Unwanted filter request =
      let client = normalize_client_info (trim_request request).client in
      (is_empty (match_bot filter client.user_agent) ≡ false)
      ⊎ (match_internal_ip filter client.ip ≡ true)

  filter-refuses :
      (filter : TrafficFilter) (request : Request) (received_at : Time) (envelope : EventEnvelope)
      → Unwanted filter request
      → (e : CollectError) × ((filter_traffic filter
            (record { request = trim_request request; received_at = received_at })
            envelope).1
          ≡ some e)
  unfolding filter_traffic
  filter-refuses filter request received_at envelope bad =
      elim (Bool-cases (
        is_empty
          (match_bot filter (normalize_client_info (trim_request request).client).user_agent))) [
            | inr bot ↦ (
              filtered
                  (match_bot filter
                    (normalize_client_info (trim_request request).client).user_agent)
                  envelope,
              rw (bot, filter_traffic) refl,
            )
            | inl person ↦ elim bad [
              | inl bot ↦ absurd (cc (bot, person))
              | inr internal ↦ (
                filtered (txt "internal ip") envelope,
                rw (person, filter_traffic) (rw (internal, filter_traffic) refl),
              )
            ]
          ]

-- A stage that refuses every envelope for this input makes the loop fail.
refusing_stage :
    (before after : List Stage) (stage : Stage) (input : StageInput)
    → ((envelope : EventEnvelope) → (e : CollectError) × ((stage input envelope).1 ≡ some e))
    → (envelope : EventEnvelope)
    → (e : CollectError) × ((apply_stages (before ++ stage ∷ after) input envelope).1 ≡ some e)
unfolding apply_stages
refusing_stage [] after stage input refuses envelope =
    let (e, failed) = refuses envelope in (e, rw (failed, apply_stages) refl)
refusing_stage (first ∷ before) after stage input refuses envelope =
    elim (Option-cases (first input envelope).1) [
      | inr (e, failed) ↦ (e, rw (failed, apply_stages) refl)
      | inl good ↦
          let (e, failed) =
            refusing_stage before after stage input refuses (first input envelope).0 in
          (e, rw (good, apply_stages) failed)
    ]

-- If a handler has a traffic filter among its stages, wherever it stands, a request whose client
-- is a bot or internal for that filter is answered with an error, and nothing is published.
pub Unwanted-unpublished :
    (net : Addresses) (filter : TrafficFilter net) (parses : Text → Bool)
    (publish : EventEnvelope → Option CollectError) (before after : List Stage) (request : Request)
    (received_at : Time)
    → Unwanted net filter request
    → let r =
        handle parses publish (before ++ filter_traffic net filter ∷ after) request received_at in
      (r.1 ≡ []) × ((e : CollectError) × (r.0.1 ≡ some e))
unfolding handle stage_and_publish
Unwanted-unpublished net filter parses publish before after request received_at bad =
    go (normalize parses request received_at)
  where
    go :
        (n : Collected EventEnvelope)
        → let r : Answer × List EventEnvelope = (elim n [
          | refused e ↦ ((zero_envelope, some e), [])
          | accepted envelope ↦
              stage_and_publish parses publish
                (before ++ filter_traffic net filter ∷ after)
                (record { request = trim_request request; received_at = received_at })
                envelope
        ]) in
          (r.1 ≡ []) × ((e : CollectError) × (r.0.1 ≡ some e))
    go (refused e) = (refl, (e, refl))
    go (accepted envelope) =
        let (e, failed) =
          refusing_stage before after (filter_traffic net filter)
            (record { request = trim_request request; received_at = received_at })
            (λ d. filter-refuses net filter request received_at d bad) envelope in
        rw (failed, stage_and_publish) (refl, (e, refl))
