-- ===== src/ClickHouse/Tables.antt =====
-- storage/clickhouse/table_router.go: the tables of a tenant, project and source. SHA-256 is a
-- parameter.
pub mod Names
use analytics_core.Prelude.{
  ℕ, Bool, true, false, ◌&&◌, ◌||◌, ◌==◌, List, [], ◌∷◌, ◌++◌, take, Text, txt, is_empty,
  trim_space, if◌then◌else◌,
}
use analytics_core.Contracts.{EventEnvelope}
use analytics_core.Collect.Request.{lower, digit, all_bytes}
use analytics_core.Collect.Digest.{encode_to_string}

-- The errors of routing, each with what its message quotes.
pub data TableError : Type 0 where
  unsafe_prefix unsafe_name : Text → TableError
  tenant_required project_required source_required name_required : TableError

pub data Routed {ℓ} (A : Type ℓ) : Type ℓ where
  routed : A → Routed A
  unrouted : TableError → Routed A

abbrev pub default_logical_table : Text
default_logical_table = txt "events"

abbrev pub table_byte : ℕ → Bool
table_byte c = lower c || digit c || c == 95

-- `tablePrefixPattern`
abbrev pub table_prefix_pattern : Text → Bool
table_prefix_pattern [] = false
table_prefix_pattern (c ∷ s) = lower c && all_bytes table_byte s

pub record Table : Type 0 where
  pub logical : Text
  pub physical : Text

pub record RoutingKey : Type 0 where
  pub tenant_id : Text
  pub project_id : Text
  pub source_id : Text

pub record TableRouter : Type 0 where
  pub prefix : Text

unfoldable pub new_table_router : Text → Routed TableRouter
new_table_router prefix =
    let trimmed = trim_space prefix in
    let named = if is_empty trimmed then default_logical_table else trimmed in
    if table_prefix_pattern named
    then routed (record { prefix = named })
    else unrouted (unsafe_prefix named)

module _ (sha256 : Text → Text) where
  unfoldable pub short_hash : Text → Text
  short_hash value = take 12 (encode_to_string (sha256 value))

  -- `%s_%s_%s_%s`
  unfoldable pub physical_name : Text → RoutingKey → Text
  unfolding short_hash
  physical_name prefix key =
      let projects = short_hash key.project_id ++ 95 ∷ short_hash key.source_id in
      let tenants = short_hash key.tenant_id ++ 95 ∷ projects in prefix ++ 95 ∷ tenants

  unfoldable pub route_key : TableRouter → RoutingKey → Routed Table
  unfolding physical_name
  route_key router key =
      if is_empty key.tenant_id
      then unrouted tenant_required
      else if is_empty key.project_id
      then unrouted project_required
      else if is_empty key.source_id
      then unrouted source_required
      else routed
          (record { logical = default_logical_table; physical = physical_name router.prefix key })

  unfoldable pub route : TableRouter → EventEnvelope → Routed Table
  unfolding route_key
  route router envelope = route_key router (record {
    tenant_id = envelope.tenant_id;
    project_id = envelope.project_id;
    source_id = envelope.source_id;
  })
