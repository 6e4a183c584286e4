-- ===== src/Contracts.antt =====
-- contracts/event.go: the event message that collect, the queue and ingestion pass on.
use analytics_core.Prelude.{ℕ, ltb, Bool, true, false, Text, Dict, ◌*◌}

-- `time.Time` as the nanoseconds since the start of the year 0, the earliest that its JSON form
-- names. The zone is not modelled, so `UTC` is the identity.
abbrev pub Time : Type 0
Time = ℕ

-- The zero value of `time.Time`, the start of the year 1.
abbrev pub zero_time : Time
zero_time = 366 * 86400 * 1000000000

-- A float64 by its value: `finite s m e` is m * 2 ^ (e - 1074), negated if `s`.
pub data Float : Type 0 where
  finite : Bool → ℕ → ℕ → Float
  infinite : Bool → Float
  nan : Float

pub data ℤ : Type 0 where
  pos : ℕ → ℤ
  negsuc : ℕ → ℤ

-- The signed order.
abbrev pub int_ltb : ℤ → ℤ → Bool
int_ltb (pos a) (pos b) = ltb a b
int_ltb (pos a) (negsuc b) = false
int_ltb (negsuc a) (pos b) = true
int_ltb (negsuc a) (negsuc b) = ltb b a

-- `any`, by the cases that the code tells apart: the integer types are treated alike, and so are
-- the types that it does not name.
pub data Value : Type 0 where
  null : Value
  boolean : Bool → Value
  integer : ℤ → Value
  string : Text → Value
  float32 : Float → Value
  float64 : Float → Value
  json_number : Text → Value
  other : Value

abbrev pub Properties : Type 0
Properties = Dict Text Value

pub record EventEnvelope : Type 0 where
  pub id : Text
  pub tenant_id : Text
  pub project_id : Text
  pub source_id : Text
  pub source_type : Text
  pub event_name : Text
  pub distinct_id : Text
  pub session_id : Text
  pub visit_id : Text
  pub event_time : Time
  pub received_at : Time
  pub properties : Properties
  pub user_props : Properties
  pub source : Text
