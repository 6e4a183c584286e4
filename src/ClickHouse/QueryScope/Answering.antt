-- ===== src/ClickHouse/QueryScope/Answering.antt =====
-- storage/clickhouse/query_builder.go: which queries of events are valid, and that their
-- scopes are built.
use analytics_core.Prelude.{
  ℕ, suc, ◌≡◌, refl, ap, ◌∙◌, Bool, true, false, not, ◌||◌, ◌&&◌, ltb, some, ◌⊎◌, inl, inr, List,
  [], ◌∷◌, ◌++◌, Text, txt, arith, is_empty, text_beq, text_beq_iff, text_eq, Bool-cases, Dict,
  lookup, length, ◌==◌, if◌then◌else◌, All, trim_space,
}
use analytics_core.Contracts.{int_ltb, pos}
use analytics_core.ClickHouse.Tables.{Table, table_prefix_pattern}
use analytics_core.ClickHouse.Schema.{Arg, text_arg, number_arg, bool_arg, property_table_for}
use analytics_core.ClickHouse.Schema.Paired.{property_table-of_safe}
use analytics_core.ClickHouse.EventQuery.{
  EventFilter, EventPropertyFilter, EventListQuery, Rejection, filter_equals, filter_value_required,
  null_only_eq, not_allowlisted, negative_offset, empty_window, too_many_filters,
  unbounded_property_window, wide_property_window, Queried, answer, ◌>>=◌, ◌>>◌, reject_if,
}
use analytics_core.ClickHouse.QueryPolicy.{
  ReadSidePolicy, event_filter_operators, event_filter_columns, listed, normalize_filter_field,
  normalize_filter_operator, normalize_property_selector, property_selector_allowed,
}
use analytics_core.ClickHouse.QueryScope.{
  Scope, Clause, clause_of, base_predicate, base_args, is_zero, time_sub, filter_count, check_query,
  validate_property_filter_window, event_filter_clause, apply_event_filters, selected,
  property_table, property_value_column_and_arg, value_predicate, build_property_filter_predicate,
  apply_property_filters, where_clause,
}
use analytics_core.ClickHouse.QueryScope.Listed.{
  IsOneOf, filter_fields, filter_operators, sort_fields, sort_directions, IsOneOf-IsListed,
}
use analytics_core.ClickHouse.QueryScope.Selectable.{
  IsSelectable, selector_of, is-normalize, IsSelectable-allowed,
}
use analytics_core.ClickHouse.QueryScope.Clauses.{value_text}
use analytics_core.ClickHouse.QueryScope.Checked.{IsChecked, IsWindowed}

abbrev pub IsValidFilter : EventFilter → Type 0
IsValidFilter f =
    IsOneOf f.field filter_fields × IsOneOf f.operator filter_operators × (is_empty f.value ≡ false)

-- The type of a value, where null is only tested for equality.
abbrev pub IsTyped : EventPropertyFilter → Type 0
IsTyped f =
    ((f.value_type ≡ txt "null") × (f.operator ≡ filter_equals))
    ⊎ ((f.value_type ≡ txt "string")
        ⊎ ((f.value_type ≡ txt "number") ⊎ (f.value_type ≡ txt "bool")))

abbrev pub IsValidPropertyFilter : ReadSidePolicy → EventListQuery → EventPropertyFilter → Type 0
IsValidPropertyFilter p query f =
    IsSelectable p query f.scope f.name × IsOneOf f.operator filter_operators × IsTyped f

-- The queries of events that are accepted under a policy.
pub record IsValidQuery (p : ReadSidePolicy) (query : EventListQuery) : Type 0 where
  pub checked : IsChecked p query
  pub tenant : is_empty query.tenant_id ≡ false
  pub project : is_empty query.project_id ≡ false
  pub source : is_empty query.source_id ≡ false
  pub filters : All IsValidFilter query.filters
  pub property_filters : All (IsValidPropertyFilter p query) query.property_filters
  pub sort_field :
      IsOneOf (if is_empty query.sort_field then txt "event_time" else query.sort_field) sort_fields
  pub sort_direction :
      IsOneOf
        (if is_empty query.sort_direction then txt "desc" else query.sort_direction)
        sort_directions

pub then_answers {ℓ κ} :
    {A : Type ℓ} {B : Type κ} (m : Queried A) (f : A → Queried B) {a : A} {b : B}
    → m ≡ answer a
    → f a ≡ answer b
    → (m >>= f) ≡ answer b
then_answers m f h k = ap (λ m. m >>= f) h ∙ k

pub listed-answers :
    (columns : Dict Text Text) (name column : Text) (r : Rejection)
    → lookup name columns ≡ some column
    → listed columns name r ≡ answer column
unfolding listed
listed-answers columns name column r h = rw (h, listed) refl

passes {ℓ} :
    {B : Type ℓ} (test : Bool) (r : Rejection) (rest : Queried B) {b : B}
    → test ≡ false
    → rest ≡ answer b
    → (reject_if test r >> rest) ≡ answer b
passes test r rest h k = ap (λ t. reject_if t r >> rest) h ∙ k

window-answers :
    (p : ReadSidePolicy) (query : EventListQuery)
    → IsWindowed p query
    → validate_property_filter_window p query ≡ answer tt
unfolding validate_property_filter_window
window-answers p query (inl nothing) =
    ap
      (λ n.
        if n == 0
        then answer tt
        else (reject_if (is_zero query.from || is_zero query.to) unbounded_property_window
            >> reject_if (int_ltb p.max_property_filter_window (time_sub query.to query.from))
                (wide_property_window (time_sub query.to query.from) p.max_property_filter_window)))
      nothing
window-answers p query (inr (lower, upper, narrow)) =
    elim (Bool-cases (length query.property_filters == 0)) [
      | inl nothing ↦ rw (nothing, validate_property_filter_window) refl
      | inr given ↦
          rw (given, validate_property_filter_window)
            (passes (is_zero query.from || is_zero query.to) unbounded_property_window
              (reject_if (int_ltb p.max_property_filter_window (time_sub query.to query.from))
                (wide_property_window (time_sub query.to query.from) p.max_property_filter_window))
              (ap (λ b. b || is_zero query.to) lower ∙ upper)
              (ap
                (λ t. reject_if t (
                  wide_property_window (time_sub query.to query.from) p.max_property_filter_window))
                narrow))
    ]

pub check-answers :
    (p : ReadSidePolicy) (query : EventListQuery)
    → IsChecked p query
    → check_query p query ≡ answer tt
unfolding check_query
check-answers p query is = passes (int_ltb query.offset (pos 0)) negative_offset _ is.offset (
    passes (not (is_zero query.from) && not (is_zero query.to) && not (ltb query.from query.to))
      empty_window _ is.ordered
      (passes (int_ltb p.max_filters (pos (filter_count query)))
        (too_many_filters (filter_count query) p.max_filters) _ is.few
        (window-answers p query is.windowed)))

filter-answers :
    (idx : ℕ) (f : EventFilter)
    → IsValidFilter f
    → (c : Clause) × (event_filter_clause idx f ≡ answer c)
unfolding event_filter_clause normalize_filter_field normalize_filter_operator
filter-answers idx f (field, known, given) =
    let (column, c) = IsOneOf-IsListed event_filter_columns f.field field in
    let (operator, o) = IsOneOf-IsListed event_filter_operators f.operator known in
    (
      _,
      then_answers (normalize_filter_field f.field) _
          (listed-answers event_filter_columns f.field column _ c)
          (then_answers (normalize_filter_operator f.operator) _
            (listed-answers event_filter_operators f.operator operator _ o)
            (passes (is_empty f.value) (filter_value_required idx) _ given refl)),
    )

pub filters-answer :
    (idx : ℕ) (filters : List EventFilter) (scope : Scope)
    → All IsValidFilter filters
    → (result : Scope) × (apply_event_filters idx filters scope ≡ answer result)
unfolding apply_event_filters
filters-answer idx [] scope all = (scope, refl)
filters-answer idx (f ∷ filters) scope all =
    let (c, p) = filter-answers idx f all.0 in
    let (result, q) = filters-answer (suc idx) filters (where_clause c scope) all.1 in
    (result, then_answers (event_filter_clause idx f) _ p q)

abbrev HasSlot : Text → Type 0
HasSlot type = (type ≡ txt "string") ⊎ ((type ≡ txt "number") ⊎ (type ≡ txt "bool"))

abbrev slot_of : (f : EventPropertyFilter) → HasSlot f.value_type → Text × Arg
slot_of f (inl e) = (txt "string_value", text_arg f.string_value)
slot_of f (inr (inl e)) = (txt "number_value", number_arg f.number_value)
slot_of f (inr (inr e)) = (txt "bool_value", bool_arg f.bool_value)

slot-answers :
    (idx : ℕ) (f : EventPropertyFilter) (h : HasSlot f.value_type)
    → property_value_column_and_arg idx f ≡ answer (slot_of f h)
unfolding property_value_column_and_arg lookup
slot-answers idx f (inl e) = ground (
  arith,
  e,
  text_beq_iff f.value_type (txt "string"),
  text_beq_iff f.value_type (txt "number"),
  text_beq_iff f.value_type (txt "bool"),
  text_beq_iff (txt "string") f.value_type,
  text_beq_iff (txt "number") f.value_type,
  text_beq_iff (txt "bool") f.value_type,
)
slot-answers idx f (inr (inl e)) = ground (
  arith,
  e,
  text_beq_iff f.value_type (txt "string"),
  text_beq_iff f.value_type (txt "number"),
  text_beq_iff f.value_type (txt "bool"),
  text_beq_iff (txt "string") f.value_type,
  text_beq_iff (txt "number") f.value_type,
  text_beq_iff (txt "bool") f.value_type,
)
slot-answers idx f (inr (inr e)) = ground (
  arith,
  e,
  text_beq_iff f.value_type (txt "string"),
  text_beq_iff f.value_type (txt "number"),
  text_beq_iff f.value_type (txt "bool"),
  text_beq_iff (txt "string") f.value_type,
  text_beq_iff (txt "number") f.value_type,
  text_beq_iff (txt "bool") f.value_type,
)

typed-null : (type : Text) → HasSlot type → text_beq type (txt "null") ≡ false
unfolding text_beq
typed-null type (inl e) = ap (λ t. text_beq t (txt "null")) e
typed-null type (inr (inl e)) = ap (λ t. text_beq t (txt "null")) e
typed-null type (inr (inr e)) = ap (λ t. text_beq t (txt "null")) e

value-answers :
    (idx : ℕ) (f : EventPropertyFilter) (operator base : Text) (args : List Arg)
    → IsTyped f
    → (c : Clause) × (value_predicate idx f operator base args ≡ answer c)
unfolding value_predicate text_beq
value-answers idx f operator base args (inl (type, equal)) = (
  clause_of (base ++ txt ")") args,
  rw (ap (λ t. text_beq t (txt "null")) type, value_predicate)
      (passes (not (text_beq f.operator filter_equals)) (null_only_eq idx) _
        (ap (λ o. not (text_beq o filter_equals)) equal) refl),
)
value-answers idx f operator base args (inr typed) =
    let slot = slot_of f typed in
    (
      clause_of (value_text base slot.0 operator) (args ++ slot.1 ∷ []),
      rw (typed-null f.value_type typed, value_predicate)
          (then_answers (property_value_column_and_arg idx f) _ (slot-answers idx f typed) refl),
    )

module _ (p : ReadSidePolicy) (table : Table) (query : EventListQuery)
    (safe : table_prefix_pattern table.physical ≡ true) where
  predicate-answers :
      (idx : ℕ) (f : EventPropertyFilter)
      → IsValidPropertyFilter p query f
      → (c : Clause) × (build_property_filter_predicate p table query idx f ≡ answer c)
  unfolding build_property_filter_predicate normalize_filter_operator
  predicate-answers idx f (selectable, known, typed) =
      let (operator, o) = IsOneOf-IsListed event_filter_operators f.operator known in
      let selector = selector_of f.scope (trim_space f.name) in
      let selects = is-normalize f.scope f.name selectable.named selectable.scoped in
      let allowed = IsSelectable-allowed p query f.scope f.name selectable in
      let (properties, paired) = property_table-of_safe table safe in
      let (c, last) =
        value-answers idx f operator (base_predicate properties.physical)
          (base_args query selector f.value_type) typed in
      (
        c,
        then_answers (selected idx (normalize_property_selector f.scope f.name)) _
            (ap (selected idx) selects)
            (passes (not (property_selector_allowed p query selector))
              (not_allowlisted idx selector) _ (ap not allowed)
              (then_answers (normalize_filter_operator f.operator) _
                (listed-answers event_filter_operators f.operator operator _ o)
                (then_answers (property_table (property_table_for table)) _
                  (ap property_table paired) last))),
      )

  pub properties-answer :
      (idx : ℕ) (filters : List EventPropertyFilter) (scope : Scope)
      → All (IsValidPropertyFilter p query) filters
      → (result : Scope) × (apply_property_filters p table query idx filters scope ≡ answer result)
  unfolding apply_property_filters
  properties-answer idx [] scope all = (scope, refl)
  properties-answer idx (f ∷ filters) scope all =
      let (c, q) = predicate-answers idx f all.0 in
      let (result, r) = properties-answer (suc idx) filters (where_clause c scope) all.1 in
      (result, then_answers (build_property_filter_predicate p table query idx f) _ q r)
