-- ===== src/ClickHouse/Schema/Paired.antt =====
-- storage/clickhouse/schema.go: the table of the properties of a table of events.
use analytics_core.Prelude.{
  ◌≡◌, refl, sym, ap, true, false, inl, inr, Bool-cases, [], ◌∷◌, ◌++◌, Text, is_empty, trim_space,
  trim_space-Visible, Visible, All, arith, ◌∙◌,
}
use analytics_core.Collect.Request.{all_bytes}
use analytics_core.ClickHouse.Tables.{
  default_logical_table, Table, routed, table_byte, table_prefix_pattern,
}
use analytics_core.ClickHouse.Tables.Names.{all_bytes-append, safe_head, safe_tail}
use analytics_core.ClickHouse.Schema.{property_table_for, property_table_suffix}

append-safe :
    (name : Text)
    → table_prefix_pattern name ≡ true
    → table_prefix_pattern (name ++ property_table_suffix) ≡ true
append-safe [] h = absurd (cc h)
append-safe (c ∷ name) h =
    safe_head c name (name ++ property_table_suffix) h
      (all_bytes-append table_byte name property_table_suffix (safe_tail c name h) refl)

routed_eq : {t u : Table} → routed t ≡ routed u → t ≡ u
routed_eq h = cc

-- A table of properties has a safe name, which is that of the table of events with a suffix.
pub record IsPaired (table properties : Table) : Type 0 where
  pub name : properties.physical ≡ table.physical ++ property_table_suffix
  pub safe : table_prefix_pattern properties.physical ≡ true

pub property_table-IsPaired :
    (table properties : Table)
    → property_table_for table ≡ routed properties
    → IsPaired table properties
unfolding property_table_for
property_table-IsPaired table properties h =
    elim (Bool-cases (is_empty (trim_space table.physical))) [
      | inl empty ↦ absurd (cc (rw (empty, property_table_for) at h))
      | inr named ↦ elim (Bool-cases (table_prefix_pattern table.physical)) [
        | inr unsafe ↦
            absurd (cc (rw (unsafe, property_table_for) at (rw (named, property_table_for) at h)))
        | inl safe ↦
            let found : routed (record {
              logical = default_logical_table ++ property_table_suffix;
              physical = table.physical ++ property_table_suffix;
            })
                ≡ routed properties =
              rw (safe, property_table_for) at (rw (named, property_table_for) at h) in
            let same : properties.physical ≡ table.physical ++ property_table_suffix =
              ap (λ t. t.physical) (sym (routed_eq found)) in
            record { name = same; safe = rw same (append-safe table.physical safe) }
      ]
    ]

bytes-Visible : (s : Text) → all_bytes table_byte s ≡ true → All Visible s
bytes-Visible [] h = tt
bytes-Visible (c ∷ s) h = (ground (arith, h), bytes-Visible s (ground (arith, h)))

name-Visible : (name : Text) → table_prefix_pattern name ≡ true → All Visible name
name-Visible [] h = tt
name-Visible (c ∷ name) h = (ground (arith, h), bytes-Visible name (safe_tail c name h))

not_empty : (name : Text) → table_prefix_pattern name ≡ true → is_empty name ≡ false
not_empty [] h = sym h
not_empty (c ∷ name) h = refl

abbrev paired : Table → Table
paired table = record {
  logical = default_logical_table ++ property_table_suffix;
  physical = table.physical ++ property_table_suffix;
}

-- A table with a safe name has a table of properties.
pub property_table-of_safe :
    (table : Table)
    → table_prefix_pattern table.physical ≡ true
    → (properties : Table) × (property_table_for table ≡ routed properties)
unfolding property_table_for
property_table-of_safe table safe =
    let named : is_empty (trim_space table.physical) ≡ false =
      ap is_empty (trim_space-Visible table.physical (name-Visible table.physical safe))
      ∙ not_empty table.physical safe in
    (paired table, rw (named, property_table_for) (rw (safe, property_table_for) refl))
