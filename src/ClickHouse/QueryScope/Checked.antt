-- ===== src/ClickHouse/QueryScope/Checked.antt =====
-- storage/clickhouse/query_builder.go: what the checks before the routing ensure.
use analytics_core.Prelude.{
  ◌≡◌, refl, Bool, true, false, not, ◌||◌, ◌&&◌, ltb, ◌⊎◌, inl, inr, length, ◌==◌, Bool-cases,
  arith,
}
use analytics_core.Contracts.{int_ltb, pos}
use analytics_core.ClickHouse.EventQuery.{
  EventListQuery, negative_offset, empty_window, too_many_filters, unbounded_property_window,
  wide_property_window, answer, reject_if, >>=-answer, reject-answer,
}
use analytics_core.ClickHouse.QueryPolicy.{ReadSidePolicy}
use analytics_core.ClickHouse.QueryScope.{
  is_zero, time_sub, filter_count, check_query, validate_property_filter_window,
}

-- A query whose property filters, if it has any, have a window of a bounded length.
abbrev pub IsWindowed : ReadSidePolicy → EventListQuery → Type 0
IsWindowed p query =
    (length query.property_filters ≡ 0)
    ⊎ ((is_zero query.from ≡ false)
        × (is_zero query.to ≡ false)
        × (int_ltb p.max_property_filter_window (time_sub query.to query.from) ≡ false))

-- What the checks before the routing ensure.
pub record IsChecked (p : ReadSidePolicy) (query : EventListQuery) : Type 0 where
  pub offset : int_ltb query.offset (pos 0) ≡ false
  pub ordered :
      (not (is_zero query.from) && not (is_zero query.to) && not (ltb query.from query.to)) ≡ false
  pub few : int_ltb p.max_filters (pos (filter_count query)) ≡ false
  pub windowed : IsWindowed p query

or_false : (a b : Bool) → (a || b) ≡ false → (a ≡ false) × (b ≡ false)
or_false true b h = cc
or_false false b h = (refl, h)

window-Is :
    (p : ReadSidePolicy) (query : EventListQuery)
    → validate_property_filter_window p query ≡ answer tt
    → IsWindowed p query
unfolding validate_property_filter_window
window-Is p query h = elim (Bool-cases (length query.property_filters == 0)) [
  | inl none_given ↦ inl (ground (arith, none_given))
  | inr given ↦
      let (u, bounded, h1) =
        >>=-answer (reject_if (is_zero query.from || is_zero query.to) unbounded_property_window) _
          (rw (given, validate_property_filter_window) at h) in
      let bounds =
        reject-answer (is_zero query.from || is_zero query.to) unbounded_property_window bounded in
      inr (
        (or_false _ _ bounds).0,
        (or_false _ _ bounds).1,
        reject-answer _ (wide_property_window _ p.max_property_filter_window) h1,
      )
]

pub check_query-IsChecked :
    (p : ReadSidePolicy) (query : EventListQuery)
    → check_query p query ≡ answer tt
    → IsChecked p query
unfolding check_query
check_query-IsChecked p query h =
    let (u, offset, h1) =
      >>=-answer (reject_if (int_ltb query.offset (pos 0)) negative_offset) _ h in
    let (v, order, h2) =
      >>=-answer
        (reject_if
          (not (is_zero query.from) && not (is_zero query.to) && not (ltb query.from query.to))
          empty_window)
        _ h1 in
    let (w, few, h3) =
      >>=-answer
        (reject_if (int_ltb p.max_filters (pos (filter_count query)))
          (too_many_filters (filter_count query) p.max_filters))
        _ h2 in
    record {
      offset = reject-answer _ negative_offset offset;
      ordered = reject-answer _ empty_window order;
      few = reject-answer _ (too_many_filters (filter_count query) p.max_filters) few;
      windowed = window-Is p query h3;
    }
