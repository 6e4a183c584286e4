-- ===== src/ClickHouse/QueryScope/Clauses.antt =====
-- storage/clickhouse/query_builder.go: the clause of each filter.
use analytics_core.Prelude.{
  ℕ, suc, ◌≡◌, refl, sym, ap, ◌∙◌, Bool, true, false, not, some, ◌⊎◌, inl, inr, List, [], ◌∷◌, ◌++◌,
  Text, txt, is_empty, text_eq, text_beq, text_beq_iff, lookup, Dict, Option-cases, Bool-cases,
  arith,
}
use mathlib.Core.List.{append-nil, append_assoc}
use analytics_core.ClickHouse.Schema.{Arg, text_arg, number_arg, bool_arg}
use analytics_core.ClickHouse.EventQuery.{
  EventFilter, EventPropertyFilter, Rejection, answer, reject_if, >>=-answer, reject-answer,
  filter_value_required, unsupported_filter_field, filter_equals, null_only_eq,
  unsupported_filter_operator,
}
use analytics_core.ClickHouse.QueryPolicy.{
  event_filter_columns, event_filter_operators, normalize_filter_field, normalize_filter_operator,
  listed,
}
use analytics_core.ClickHouse.QueryScope.{
  Clause, Scope, where_clause, apply_event_filters, event_filter_clause,
  property_value_column_and_arg, clause_of, value_predicate,
}

abbrev pub with_wheres : Scope → List Clause → Scope
with_wheres scope clauses = record scope { wheres = scope.wheres ++ clauses }

pub answer_eq {ℓ} : {A : Type ℓ} {a b : A} → answer a ≡ answer b → a ≡ b
answer_eq h = cc

pub with_wheres-nil : (scope : Scope) → scope ≡ with_wheres scope []
with_wheres-nil scope = ap (λ w. record scope { wheres = w }) (sym (append-nil scope.wheres))

pub with_wheres-cons :
    (scope : Scope) (c : Clause) (cs : List Clause)
    → with_wheres (where_clause c scope) cs ≡ with_wheres scope (c ∷ cs)
with_wheres-cons scope c cs =
    ap (λ w. record scope { wheres = w }) (append_assoc scope.wheres (c ∷ []) cs)

-- Each clause is that of the filter at its place.
abbrev pub Each : {A : Type 0} → (A → Clause → Type 0) → List A → List Clause → Type 0
Each P [] [] = Unit
Each P [] (c ∷ cs) = ⊥
Each P (f ∷ fs) [] = ⊥
Each P (f ∷ fs) (c ∷ cs) = P f c × Each P fs cs

pub record IsFilterClause (f : EventFilter) (c : Clause) : Type 0 where
  pub column : Text
  pub operator : Text
  pub known_column : lookup f.field event_filter_columns ≡ some column
  pub known_operator : lookup f.operator event_filter_operators ≡ some operator
  pub given : is_empty f.value ≡ false
  pub text : c.text ≡ column ++ (txt " " ++ (operator ++ txt " ?"))
  pub args : c.args ≡ text_arg f.value ∷ []

listed-answer :
    (columns : Dict Text Text) (name : Text) (r : Rejection) {column : Text}
    → listed columns name r ≡ answer column
    → lookup name columns ≡ some column
unfolding listed
listed-answer columns name r h = elim (Option-cases (lookup name columns)) [
  | inl unknown ↦ absurd (cc (rw (unknown, listed) at h))
  | inr (c, found) ↦ found ∙ ap some (cc (rw (found, listed) at h))
]

field-answer :
    (field : Text) {column : Text}
    → normalize_filter_field field ≡ answer column
    → lookup field event_filter_columns ≡ some column
unfolding normalize_filter_field
field-answer field h = listed-answer event_filter_columns field (unsupported_filter_field field) h

pub operator-answer :
    (name : Text) {operator : Text}
    → normalize_filter_operator name ≡ answer operator
    → lookup name event_filter_operators ≡ some operator
unfolding normalize_filter_operator
operator-answer name h =
    listed-answer event_filter_operators name (unsupported_filter_operator name) h

event_filter_clause-Is :
    (idx : ℕ) (f : EventFilter) {c : Clause}
    → event_filter_clause idx f ≡ answer c
    → IsFilterClause f c
unfolding event_filter_clause
event_filter_clause-Is idx f h =
    let (column, p, h1) = >>=-answer (normalize_filter_field f.field) _ h in
    let (operator, q, h2) = >>=-answer (normalize_filter_operator f.operator) _ h1 in
    let (u, r, h3) = >>=-answer (reject_if (is_empty f.value) (filter_value_required idx)) _ h2 in
    record {
      column = column;
      operator = operator;
      known_column = field-answer f.field p;
      known_operator = operator-answer f.operator q;
      given = reject-answer (is_empty f.value) (filter_value_required idx) r;
      text = ap (λ c. c.text) (sym (answer_eq h3));
      args = ap (λ c. c.args) (sym (answer_eq h3));
    }

-- The filters of a query add their clauses in order.
pub apply_event_filters-Each :
    (idx : ℕ) (filters : List EventFilter) (scope : Scope) {result : Scope}
    → apply_event_filters idx filters scope ≡ answer result
    → (cs : List Clause) × (result ≡ with_wheres scope cs) × Each IsFilterClause filters cs
unfolding apply_event_filters
apply_event_filters-Each idx [] scope h = ([], answer_eq (sym h) ∙ with_wheres-nil scope, tt)
apply_event_filters-Each idx (f ∷ filters) scope h =
    let (c, p, later) = >>=-answer (event_filter_clause idx f) _ h in
    let (cs, e, each) = apply_event_filters-Each (suc idx) filters (where_clause c scope) later in
    (c ∷ cs, e ∙ with_wheres-cons scope c cs, (event_filter_clause-Is idx f p, each))

abbrev pub value_text : Text → Text → Text → Text
value_text base column operator =
    base ++ (txt " AND " ++ (column ++ (txt " " ++ (operator ++ txt " ?)"))))

-- The clause of a property filter, by the type of its value.
pub data IsValueClause (f : EventPropertyFilter) (operator base : Text) (args : List Arg)
    (c : Clause) : Type 0 where
  null_clause :
      f.value_type ≡ txt "null"
      → f.operator ≡ filter_equals
      → c ≡ clause_of (base ++ txt ")") args
      → IsValueClause f operator base args c
  string_clause :
      f.value_type ≡ txt "string"
      → c
        ≡ clause_of
            (value_text base (txt "string_value") operator)
            (args ++ text_arg f.string_value ∷ [])
      → IsValueClause f operator base args c
  number_clause :
      f.value_type ≡ txt "number"
      → c
        ≡ clause_of
            (value_text base (txt "number_value") operator)
            (args ++ number_arg f.number_value ∷ [])
      → IsValueClause f operator base args c
  bool_clause :
      f.value_type ≡ txt "bool"
      → c
        ≡ clause_of
            (value_text base (txt "bool_value") operator)
            (args ++ bool_arg f.bool_value ∷ [])
      → IsValueClause f operator base args c

typed : (s t : Text) → text_beq s t ≡ true → s ≡ t
typed s t h = ground (arith, text_beq_iff s t)

pub true_of_not : {b : Bool} → not b ≡ false → b ≡ true
true_of_not {b = true} h = refl
true_of_not {b = false} h = cc

column_and_arg :
    (idx : ℕ) (f : EventPropertyFilter) (slot : Text × Arg)
    → property_value_column_and_arg idx f ≡ answer slot
    → ((f.value_type ≡ txt "string") × (slot ≡ (txt "string_value", text_arg f.string_value)))
      ⊎ ((f.value_type ≡ txt "number") × (slot ≡ (txt "number_value", number_arg f.number_value)))
      ⊎ ((f.value_type ≡ txt "bool") × (slot ≡ (txt "bool_value", bool_arg f.bool_value)))
unfolding property_value_column_and_arg lookup
column_and_arg idx f slot h = ground (
  arith,
  h,
  text_beq_iff f.value_type (txt "string"),
  text_beq_iff f.value_type (txt "number"),
  text_beq_iff f.value_type (txt "bool"),
  text_beq_iff (txt "string") f.value_type,
  text_beq_iff (txt "number") f.value_type,
  text_beq_iff (txt "bool") f.value_type,
)

abbrev slot_clause : Text → Text → List Arg → Text × Arg → Clause
slot_clause base operator args slot =
    clause_of (value_text base slot.0 operator) (args ++ slot.1 ∷ [])

pub value_predicate-Is :
    (idx : ℕ) (f : EventPropertyFilter) (operator base : Text) (args : List Arg) {c : Clause}
    → value_predicate idx f operator base args ≡ answer c
    → IsValueClause f operator base args c
unfolding value_predicate property_value_column_and_arg
value_predicate-Is idx f operator base args {c = c} h =
    elim (Bool-cases (text_beq f.value_type (txt "null"))) [
      | inl is_null ↦
          let (u, r, later) =
            >>=-answer (reject_if (not (text_beq f.operator filter_equals)) (null_only_eq idx)) _
              (rw (is_null, value_predicate) at h) in
          null_clause (typed f.value_type (txt "null") is_null)
            (typed f.operator filter_equals (true_of_not (reject-answer _ (null_only_eq idx) r)))
            (sym (answer_eq later))
      | inr is_value ↦
          let (slot, p, later) =
            >>=-answer (property_value_column_and_arg idx f) _
              (rw (is_value, value_predicate) at h) in
          let filled : (s : Text × Arg) → slot ≡ s → c ≡ slot_clause base operator args s =
            λ s e. sym (answer_eq later) ∙ ap (slot_clause base operator args) e in
          elim (column_and_arg idx f slot p) [
            | inl (t, e) ↦ string_clause t (filled _ e)
            | inr (inl (t, e)) ↦ number_clause t (filled _ e)
            | inr (inr (t, e)) ↦ bool_clause t (filled _ e)
          ]
    ]
