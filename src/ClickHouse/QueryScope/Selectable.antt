-- ===== src/ClickHouse/QueryScope/Selectable.antt =====
-- storage/clickhouse/query_builder.go: which property selectors a filter may use, described without
-- the builder's normalisation and its tests.
use analytics_core.Prelude.{
  ◌≡◌, refl, sym, ap, ◌∙◌, true, false, ◌||◌, Option, none, some, ◌⊎◌, inl, inr, List, [], ◌∷◌,
  Text, txt, is_empty, text_beq_iff, trim_space, Bool-cases, if◌then◌else◌, arith,
}
use mathlib.Core.Path.{subst}
use analytics_core.ClickHouse.EventQuery.{PropertySelector, SelectorError, EventListQuery}
use analytics_core.ClickHouse.QueryPolicy.{
  ReadSidePolicy, normalize_property_selector, selector_beq, has_selector, allowed_map,
  query_allows, property_selector_allowed,
}

abbrev pub IsScope : Text → Type 0
IsScope scope = (scope ≡ txt "event") ⊎ (scope ≡ txt "user")

abbrev pub selector_of : Text → Text → PropertySelector
selector_of scope name = record { scope = scope; name = name }

-- A selector of the query, once its name is trimmed.
abbrev pub Offers : PropertySelector → List PropertySelector → Type 0
Offers s [] = ⊥
Offers s (t ∷ ts) = ((t.scope ≡ s.scope) × (trim_space t.name ≡ s.name)) ⊎ Offers s ts

abbrev pub Within : PropertySelector → List PropertySelector → Type 0
Within s [] = ⊥
Within s (t ∷ ts) = (t ≡ s) ⊎ Within s ts

-- A selector by scope and name: the scope is that of events or users, the trimmed name is not
-- empty, and the policy allows it or the query brings it.
pub record IsSelectable (p : ReadSidePolicy) (query : EventListQuery) (scope name : Text)
    : Type 0 where
  pub named : is_empty (trim_space name) ≡ false
  pub scoped : IsScope scope
  pub allowed :
      ((ss : List PropertySelector) × (p.allowed_properties ≡ some ss)
        × Within (selector_of scope (trim_space name)) ss)
      ⊎ Offers (selector_of scope (trim_space name)) query.allowed_property_selectors

selector_eq : (s t : PropertySelector) → selector_beq s t ≡ true → s ≡ t
selector_eq s t h = ground (arith, h, text_beq_iff s.scope t.scope, text_beq_iff s.name t.name)

selector_same : (s t : PropertySelector) → s ≡ t → selector_beq s t ≡ true
selector_same s t h = ground (arith, h, text_beq_iff s.scope t.scope, text_beq_iff s.name t.name)

has-Within :
    (s : PropertySelector) (ss : List PropertySelector) → has_selector s ss ≡ true → Within s ss
has-Within s [] h = absurd (cc h)
has-Within s (t ∷ ts) h = elim (Bool-cases (selector_beq t s)) [
  | inl same ↦ inl (selector_eq t s same)
  | inr other ↦ inr (has-Within s ts (ap (λ b. b || has_selector s ts) (sym other) ∙ h))
]

Within-has :
    (s : PropertySelector) (ss : List PropertySelector) → Within s ss → has_selector s ss ≡ true
Within-has s [] h = absurd h
Within-has s (t ∷ ts) (inl same) = ap (λ b. b || has_selector s ts) (selector_same t s same)
Within-has s (t ∷ ts) (inr later) = ground (arith, Within-has s ts later)

-- What a normalised selector is.
pub normalize-is :
    (scope name : Text) (s : PropertySelector)
    → normalize_property_selector scope name ≡ inr s
    → (s ≡ selector_of scope (trim_space name))
      × (is_empty (trim_space name) ≡ false)
      × IsScope scope
unfolding normalize_property_selector
normalize-is scope name s h =
    ground (arith, h, text_beq_iff scope (txt "event"), text_beq_iff scope (txt "user"))

pub is-normalize :
    (scope name : Text)
    → is_empty (trim_space name) ≡ false
    → IsScope scope
    → normalize_property_selector scope name ≡ inr (selector_of scope (trim_space name))
unfolding normalize_property_selector
is-normalize scope name named h =
    ground (arith, named, h, text_beq_iff scope (txt "event"), text_beq_iff scope (txt "user"))

normalize-cases :
    (scope name : Text)
    → ((e : SelectorError) × (normalize_property_selector scope name ≡ inl e))
      ⊎ ((s : PropertySelector) × (normalize_property_selector scope name ≡ inr s))
normalize-cases scope name = cases (normalize_property_selector scope name)
  where
    cases :
        (r : SelectorError ⊎ PropertySelector)
        → ((e : SelectorError) × (r ≡ inl e)) ⊎ ((s : PropertySelector) × (r ≡ inr s))
    cases (inl e) = inl (e, refl)
    cases (inr s) = inr (s, refl)

allows-Offers :
    (s : PropertySelector) (ts : List PropertySelector) → query_allows s ts ≡ true → Offers s ts
unfolding query_allows
allows-Offers s [] h = absurd (cc h)
allows-Offers s (t ∷ ts) h = elim (normalize-cases t.scope t.name) [
  | inl (e, refused) ↦ inr (allows-Offers s ts (rw (refused, query_allows) at h))
  | inr (u, found) ↦ elim (Bool-cases (selector_beq u s)) [
    | inr other ↦
        inr (allows-Offers s ts (rw (other, query_allows) at (rw (found, query_allows) at h)))
    | inl same ↦
        let is = selector_eq u s same in
        let made = (normalize-is t.scope t.name u found).0 in
        inl (ap (λ v. v.scope) (sym made ∙ is), ap (λ v. v.name) (sym made ∙ is))
  ]
]

Offers-allows :
    (s : PropertySelector) (ts : List PropertySelector)
    → is_empty s.name ≡ false
    → IsScope s.scope
    → Offers s ts
    → query_allows s ts ≡ true
unfolding query_allows
Offers-allows s [] named scoped h = absurd h
Offers-allows s (t ∷ ts) named scoped (inl (scope, name)) =
    let found =
      is-normalize t.scope t.name (ap (λ n. is_empty n) name ∙ named)
        (subst IsScope (sym scope) scoped) in
    rw (found, query_allows)
      (rw
        (selector_same (selector_of t.scope (trim_space t.name)) s
          (λ i. record { scope = scope i; name = name i }))
        refl)
Offers-allows s (t ∷ ts) named scoped (inr later) = elim (normalize-cases t.scope t.name) [
  | inl (e, refused) ↦ rw (refused, query_allows) (Offers-allows s ts named scoped later)
  | inr (u, found) ↦ elim (Bool-cases (selector_beq u s)) [
    | inl same ↦ rw (found, query_allows) (rw same refl)
    | inr other ↦ rw (found, query_allows) (rw other (Offers-allows s ts named scoped later))
  ]
]

module _ (p : ReadSidePolicy) (query : EventListQuery) where
  policy-cases :
      (s : PropertySelector)
      → has_selector s (allowed_map p.allowed_properties) ≡ true
      → (ss : List PropertySelector) × (p.allowed_properties ≡ some ss) × Within s ss
  policy-cases s h = cases p.allowed_properties h
    where
      cases :
          (o : Option (List PropertySelector))
          → has_selector s (allowed_map o) ≡ true
          → (ss : List PropertySelector) × (o ≡ some ss) × Within s ss
      cases none h = absurd (cc h)
      cases (some ss) h = (ss, refl, has-Within s ss h)

  -- What the builder normalises and allows is selectable.
  pub allowed-IsSelectable :
      (scope name : Text) (s : PropertySelector)
      → normalize_property_selector scope name ≡ inr s
      → property_selector_allowed p query s ≡ true
      → IsSelectable p query scope name
  unfolding property_selector_allowed
  allowed-IsSelectable scope name s found allowed =
      let (made, named, scoped) = normalize-is scope name s found in
      record {
        named = named;
        scoped = scoped;
        allowed =
            subst
              (λ s.
                ((ss : List PropertySelector) × (p.allowed_properties ≡ some ss) × Within s ss)
                ⊎ Offers s query.allowed_property_selectors)
              made
              (elim (Bool-cases (has_selector s (allowed_map p.allowed_properties))) [
                | inl has ↦ inl (policy-cases s has)
                | inr lacks ↦ inr (
                    allows-Offers s query.allowed_property_selectors
                      (rw (lacks, property_selector_allowed) at allowed))
              ]);
      }

  pub IsSelectable-allowed :
      (scope name : Text)
      → IsSelectable p query scope name
      → property_selector_allowed p query (selector_of scope (trim_space name)) ≡ true
  unfolding property_selector_allowed
  IsSelectable-allowed scope name is =
      let s = selector_of scope (trim_space name) in
      elim (Bool-cases (has_selector s (allowed_map p.allowed_properties))) [
        | inl has ↦ rw (has, property_selector_allowed) refl
        | inr lacks ↦ elim is.allowed [
          | inl (ss, given, within) ↦
              ap (λ b. if b then true else query_allows s query.allowed_property_selectors)
                (ap (λ o. has_selector s (allowed_map o)) given ∙ Within-has s ss within)
          | inr offers ↦
              rw (lacks, property_selector_allowed)
                (Offers-allows s query.allowed_property_selectors is.named is.scoped offers)
        ]
      ]
