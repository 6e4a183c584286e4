-- ===== src/ClickHouse/Tables/Names.antt =====
-- Table names are safe identifiers, and a router gives keys of different digests different tables.
use analytics_core.Prelude.{
  ℕ, ◌+◌, ◌/◌, ◌%◌, ◌<◌, ◌≤◌, ◌≡◌, refl, sym, ap, ◌∙◌, Bool, true, false, suc, zero, [], ◌∷◌, ◌++◌,
  length, take, Text, is_empty, trim_space, if◌then◌else◌, All, arith, Bool-cases, inl, inr,
}
use mathlib.Core.Path.{subst}
use analytics_core.Collect.Request.{all_bytes}
use analytics_core.Collect.Digest.{encode_to_string, IsDigest, hex_digit}
use analytics_core.ClickHouse.Tables.{
  TableRouter, RoutingKey, Table, routed, table_byte, table_prefix_pattern, new_table_router,
  short_hash, physical_name, route_key, default_logical_table,
}

pub all_bytes-append :
    (test : ℕ → Bool) (s t : Text)
    → all_bytes test s ≡ true
    → all_bytes test t ≡ true
    → all_bytes test (s ++ t) ≡ true
all_bytes-append test [] t h k = k
all_bytes-append test (c ∷ s) t h k = ground (arith, all_bytes-append test s t)

joined :
    (s t : Text)
    → all_bytes table_byte s ≡ true
    → all_bytes table_byte t ≡ true
    → all_bytes table_byte (s ++ 95 ∷ t) ≡ true
joined s t h k = all_bytes-append table_byte s (95 ∷ t) h k

pub safe_tail :
    (c : ℕ) (s : Text) → table_prefix_pattern (c ∷ s) ≡ true → all_bytes table_byte s ≡ true
safe_tail c s h = ground (arith, h)

pub safe_head :
    (c : ℕ) (s t : Text)
    → table_prefix_pattern (c ∷ s) ≡ true
    → all_bytes table_byte t ≡ true
    → table_prefix_pattern (c ∷ t) ≡ true
safe_head c s t h k = ground (arith, h, k)

all_bytes-take :
    (test : ℕ → Bool) (n : ℕ) (s : Text)
    → all_bytes test s ≡ true
    → all_bytes test (take n s) ≡ true
all_bytes-take test zero s h = refl
all_bytes-take test (suc n) [] h = refl
all_bytes-take test (suc n) (c ∷ s) h = ground (arith, all_bytes-take test n s)

hex_digit-safe : (n : ℕ) → n < 16 → table_byte (hex_digit n) ≡ true
hex_digit-safe n h = ground arith

encode-safe :
    (bs : Text) → All (λ b. b < 256) bs → all_bytes table_byte (encode_to_string bs) ≡ true
unfolding encode_to_string
encode-safe [] h = refl
encode-safe (b ∷ bs) h =
    ground (arith, hex_digit-safe (b / 16), hex_digit-safe (b % 16), encode-safe bs h.1)

length-encode : (bs : Text) → length (encode_to_string bs) ≡ length bs + length bs
unfolding encode_to_string
length-encode [] = refl
length-encode (b ∷ bs) = omega (arith, length-encode bs)

length-take-of : (n : ℕ) (s : Text) → n ≤ length s → length (take n s) ≡ n
length-take-of zero s h = refl
length-take-of (suc n) [] h = absurd (omega (arith, h))
length-take-of (suc n) (c ∷ s) h = omega (arith, length-take-of n s (omega (arith, h)))

hex_digit-apart : (m n : ℕ) → m < 16 → n < 16 → hex_digit m ≡ hex_digit n → m ≡ n
hex_digit-apart m n h k e = ground (arith, e)

-- The first digits tell the first bytes.
encode-apart :
    (n : ℕ) (bs cs : Text)
    → All (λ b. b < 256) bs
    → All (λ b. b < 256) cs
    → n ≤ length bs
    → n ≤ length cs
    → take (n + n) (encode_to_string bs) ≡ take (n + n) (encode_to_string cs)
    → take n bs ≡ take n cs
unfolding encode_to_string
encode-apart zero bs cs h k l m e = refl
encode-apart (suc n) [] cs h k l m e = absurd (omega (arith, l))
encode-apart (suc n) (b ∷ bs) [] h k l m e = absurd (omega (arith, m))
encode-apart (suc n) (b ∷ bs) (c ∷ cs) h k l m e =
    let double : suc n + suc n ≡ suc (suc (n + n)) = omega arith in
    let e2 =
      subst (λ d. take d (encode_to_string (b ∷ bs)) ≡ take d (encode_to_string (c ∷ cs))) double
        e in
    let high =
      hex_digit-apart (b / 16) (c / 16) (omega (arith, h.0)) (omega (arith, k.0)) (cc e2) in
    let low = hex_digit-apart (b % 16) (c % 16) (omega arith) (omega arith) (cc e2) in
    let same : b ≡ c = omega (arith, high, low) in
    ground (arith, same, encode-apart n bs cs h.1 k.1 (omega (arith, l)) (omega (arith, m)) (cc e2))

-- Texts of equal length in front are equal, and so is what follows.
append_parts : (a b s t : Text) → length a ≡ length b → a ++ s ≡ b ++ t → (a ≡ b) × (s ≡ t)
append_parts [] [] s t h e = (refl, e)
append_parts [] (d ∷ b) s t h e = absurd (omega (arith, h))
append_parts (c ∷ a) [] s t h e = absurd (omega (arith, h))
append_parts (c ∷ a) (d ∷ b) s t h e =
    ground (arith, append_parts a b s t (omega (arith, h)) (cc e))

pub routed_eq : {A : Type 0} {a b : A} → routed a ≡ routed b → a ≡ b
routed_eq h = cc

module _ (sha256 : Text → Text) where
  -- The digests of the keys' parts begin with the same six bytes.
  abbrev pub SameHashes : RoutingKey → RoutingKey → Type 0
  SameHashes j k =
      (take 6 (sha256 j.tenant_id) ≡ take 6 (sha256 k.tenant_id))
      × (take 6 (sha256 j.project_id) ≡ take 6 (sha256 k.project_id))
      × (take 6 (sha256 j.source_id) ≡ take 6 (sha256 k.source_id))

  -- What a routed table is.
  pub record IsRouted (router : TableRouter) (key : RoutingKey) (table : Table) : Type 0 where
    pub tenant : is_empty key.tenant_id ≡ false
    pub project : is_empty key.project_id ≡ false
    pub source : is_empty key.source_id ≡ false
    pub logical : table.logical ≡ default_logical_table
    pub physical : table.physical ≡ physical_name sha256 router.prefix key

  pub route_key-IsRouted :
      (router : TableRouter) (key : RoutingKey) (table : Table)
      → route_key sha256 router key ≡ routed table
      → IsRouted router key table
  unfolding route_key
  route_key-IsRouted router key table h = ground (arith, h)

module _ (sha256 : Text → Text) (digest : IsDigest sha256) where
  short_hash-safe : (value : Text) → all_bytes table_byte (short_hash sha256 value) ≡ true
  unfolding short_hash
  short_hash-safe value =
      all_bytes-take table_byte 12 (encode_to_string (sha256 value))
        (encode-safe (sha256 value) (digest value).1)

  length-short_hash : (value : Text) → length (short_hash sha256 value) ≡ 12
  unfolding short_hash
  length-short_hash value =
      length-take-of 12 (encode_to_string (sha256 value))
        (omega (arith, length-encode (sha256 value), (digest value).0))

  abbrev projects : RoutingKey → Text
  projects key = short_hash sha256 key.project_id ++ 95 ∷ short_hash sha256 key.source_id

  abbrev tenants : RoutingKey → Text
  tenants key = short_hash sha256 key.tenant_id ++ 95 ∷ projects key

  physical_name-safe :
      (prefix : Text) (key : RoutingKey)
      → table_prefix_pattern prefix ≡ true
      → table_prefix_pattern (physical_name sha256 prefix key) ≡ true
  unfolding physical_name
  physical_name-safe [] key h = absurd (cc h)
  physical_name-safe (c ∷ prefix) key h = safe_head c prefix (prefix ++ 95 ∷ tenants key) h (
      joined prefix (tenants key) (safe_tail c prefix h) (
        joined (short_hash sha256 key.tenant_id) (projects key) (short_hash-safe key.tenant_id) (
          joined (short_hash sha256 key.project_id) (short_hash sha256 key.source_id)
            (short_hash-safe key.project_id) (short_hash-safe key.source_id))))

  pub routed-safe :
      (router : TableRouter) (key : RoutingKey) (table : Table)
      → table_prefix_pattern router.prefix ≡ true
      → route_key sha256 router key ≡ routed table
      → table_prefix_pattern table.physical ≡ true
  routed-safe router key table safe h =
      rw (route_key-IsRouted sha256 router key table h).physical
        (physical_name-safe router.prefix key safe)

  lengths : (u v : Text) → length (short_hash sha256 u) ≡ length (short_hash sha256 v)
  lengths u v = length-short_hash u ∙ sym (length-short_hash v)

  short_hash-apart :
      (u v : Text)
      → short_hash sha256 u ≡ short_hash sha256 v
      → take 6 (sha256 u) ≡ take 6 (sha256 v)
  unfolding short_hash
  short_hash-apart u v e =
      encode-apart 6 (sha256 u) (sha256 v) (digest u).1 (digest v).1 (omega (arith, (digest u).0))
        (omega (arith, (digest v).0)) e

  names_apart :
      (prefix : Text) (j k : RoutingKey)
      → physical_name sha256 prefix j ≡ physical_name sha256 prefix k
      → SameHashes sha256 j k
  unfolding physical_name
  names_apart prefix j k e =
      let behind = append_parts prefix prefix (95 ∷ tenants j) (95 ∷ tenants k) refl e in
      let tenant =
        append_parts (short_hash sha256 j.tenant_id) (short_hash sha256 k.tenant_id)
          (95 ∷ projects j) (95 ∷ projects k) (lengths j.tenant_id k.tenant_id) (cc behind.1) in
      let project =
        append_parts (short_hash sha256 j.project_id) (short_hash sha256 k.project_id)
          (95 ∷ short_hash sha256 j.source_id) (95 ∷ short_hash sha256 k.source_id)
          (lengths j.project_id k.project_id) (cc tenant.1) in
      (
        short_hash-apart j.tenant_id k.tenant_id tenant.0,
        short_hash-apart j.project_id k.project_id project.0,
        short_hash-apart j.source_id k.source_id (cc project.1),
      )

  -- Provided that SHA-256 gives 32 bytes, a table of one router is the table of another key only if
  -- the digests of the two tenants begin with the same six bytes, and so do those of the two
  -- projects and those of the two sources.
  pub same_table-SameHashes :
      (router : TableRouter) (j k : RoutingKey) (t u : Table)
      → route_key sha256 router j ≡ routed t
      → route_key sha256 router k ≡ routed u
      → t.physical ≡ u.physical
      → SameHashes sha256 j k
  same_table-SameHashes router j k t u h i e = names_apart router.prefix j k (
      sym (route_key-IsRouted sha256 router j t h).physical
      ∙ e
      ∙ (route_key-IsRouted sha256 router k u i).physical)

-- The prefix of a router that the constructor made is safe.
pub router-safe :
    (prefix : Text) (router : TableRouter)
    → new_table_router prefix ≡ routed router
    → table_prefix_pattern router.prefix ≡ true
unfolding new_table_router
router-safe prefix router h =
    let named = if is_empty (trim_space prefix) then default_logical_table else trim_space prefix in
    elim (Bool-cases (table_prefix_pattern named)) [
      | inl safe ↦
          ap (λ r. table_prefix_pattern r.prefix)
            (routed_eq (sym (rw (safe, new_table_router) at h)))
          ∙ safe
      | inr unsafe ↦ absurd (cc (rw (unsafe, new_table_router) at h))
    ]
