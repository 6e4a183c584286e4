-- ===== src/ClickHouse/Memory.antt =====
-- A database in memory behind a rendering of scopes that it can read back: it has the laws of
-- counting and of pages.
use mathlib.Core.Path.{subst}
use mathlib.Core.List.{append-nil, Mem, mem-cons_self, mem-cons_of_mem}
use analytics_core.Prelude.{
  ℕ, zero, suc, ◌≡◌, ◌≤◌, refl, sym, ap, ◌∙◌, Bool, true, false, Option, none, some, ◌⊎◌, inl, inr,
  List, [], ◌∷◌, ◌++◌, map, length, take, Text, txt, All, Bool-cases, if◌then◌else◌, some_eq, arith,
}
use analytics_core.Contracts.{ℤ, pos, negsuc}
use analytics_core.ClickHouse.Schema.{Arg, text_arg, time_arg, number_arg, bool_arg}
use analytics_core.ClickHouse.EventQuery.{EventRecord}
use analytics_core.ClickHouse.QueryScope.{Clause, clause_of, Scope}
use analytics_core.ClickHouse.QueryScope.Matching.{Sql, satisfies}
use analytics_core.ClickHouse.Columns.{event_row, scan}
use analytics_core.ClickHouse.QueryPlans.{count_columns}
use analytics_core.ClickHouse.EventReader.{Database, EventRowModel}
use analytics_core.ClickHouse.EventReader.Answers.{Counts, count_of}
use analytics_core.ClickHouse.EventReader.Pages.{Pages}

abbrev write_args : List Arg → List Arg → List Arg
write_args [] rest = rest
write_args (a ∷ args) rest = bool_arg false ∷ a ∷ write_args args rest

abbrev write_clauses : List Clause → List Arg
write_clauses [] = []
write_clauses (c ∷ cs) = bool_arg true ∷ text_arg c.text ∷ write_args c.args (write_clauses cs)

abbrev next_part : Bool → Arg → List Arg × List Clause → List Arg × List Clause
next_part true (text_arg t) parts = ([], clause_of t parts.0 ∷ parts.1)
next_part true (time_arg t) parts = parts
next_part true (number_arg f) parts = parts
next_part true (bool_arg b) parts = parts
next_part false arg parts = (arg ∷ parts.0, parts.1)

abbrev marked : Arg → Bool
marked (bool_arg b) = b
marked (text_arg t) = false
marked (time_arg t) = false
marked (number_arg f) = false

-- The arguments in front of the first clause, and the clauses.
abbrev read_parts : List Arg → List Arg × List Clause
read_parts [] = ([], [])
read_parts (m ∷ []) = ([], [])
read_parts (m ∷ a ∷ rest) = next_part (marked m) a (read_parts rest)

read-args :
    (args rest : List Arg)
    → read_parts (write_args args rest) ≡ (args ++ (read_parts rest).0, (read_parts rest).1)
read-args [] rest = refl
read-args (a ∷ args) rest = ap (next_part false a) (read-args args rest)

read-clauses : (cs : List Clause) → read_parts (write_clauses cs) ≡ ([], cs)
read-clauses [] = refl
read-clauses (c ∷ cs) =
    ap (λ p. ([], clause_of c.text p.0 ∷ p.1))
      (read-args c.args (write_clauses cs)
        ∙ ap (λ q. (c.args ++ q.0, q.1)) (read-clauses cs)
        ∙ ap (λ a. (a, cs)) (append-nil c.args))

-- The limit of a scope as an argument; a limit that is negative is none.
abbrev limit_arg : Option ℤ → Arg
limit_arg none = bool_arg false
limit_arg (some (pos n)) = time_arg n
limit_arg (some (negsuc n)) = bool_arg false

unfoldable pub render : Scope → Option (Text × List Arg)
unfolding limit_arg write_clauses
render scope = some (
  txt "SELECT",
  text_arg scope.table
      ∷ limit_arg scope.limit
      ∷ write_clauses (clause_of [] (map text_arg scope.columns) ∷ scope.wheres),
)

abbrev keep : (EventRecord → Bool) → List EventRecord → List EventRecord
keep test [] = []
keep test (r ∷ rs) = let rest = keep test rs in if test r then r ∷ rest else rest

abbrev first_rows {ℓ} : {A : Type ℓ} → Arg → List A → List A
first_rows (time_arg n) rs = take n rs
first_rows (bool_arg b) rs = rs
first_rows (text_arg t) rs = rs
first_rows (number_arg f) rs = rs

abbrev table_arg : Arg → Text
table_arg (text_arg t) = t
table_arg (time_arg t) = []
table_arg (number_arg f) = []
table_arg (bool_arg b) = []

abbrev right_or : {A B : Type 0} → B → A ⊎ B → B
right_or d (inl a) = d
right_or d (inr b) = b

inr_eq : {A B : Type 0} {a b : B} {m : A ⊎ B} → m ≡ inr a → m ≡ inr b → a ≡ b
inr_eq {a = a} h k = sym (ap (right_or a) h) ∙ ap (right_or a) k

All-map :
    {A : Type 0} (P Q : A → Type 0) (xs : List A) → ((a : A) → P a → Q a) → All P xs → All Q xs
All-map P Q [] h all = tt
All-map P Q (x ∷ xs) h all = (h x all.0, All-map P Q xs h all.1)

keep-All :
    (test : EventRecord → Bool) (rs : List EventRecord)
    → All (λ r. (test r ≡ true) × Mem r rs) (keep test rs)
keep-All test [] = tt
keep-All test (r ∷ rs) =
    let rest =
      All-map _ (λ s. (test s ≡ true) × Mem s (r ∷ rs)) (keep test rs)
        (λ s h. (h.0, mem-cons_of_mem r h.1)) (keep-All test rs) in
    elim (Bool-cases (test r)) [
      | inl passed ↦ rw passed ((passed, mem-cons_self), rest)
      | inr failed ↦ rw failed rest
    ]

take-All : {A : Type 0} (P : A → Type 0) (n : ℕ) (xs : List A) → All P xs → All P (take n xs)
take-All P zero xs all = tt
take-All P (suc n) [] all = tt
take-All P (suc n) (x ∷ xs) all = (all.0, take-All P n xs all.1)

first-All :
    {A : Type 0} (P : A → Type 0) (l : Arg) (xs : List A) → All P xs → All P (first_rows l xs)
first-All P (time_arg n) xs all = take-All P n xs all
first-All P (bool_arg b) xs all = all
first-All P (text_arg t) xs all = all
first-All P (number_arg f) xs all = all

length-take_rows : {A : Type 0} (n : ℕ) (xs : List A) → length (take n xs) ≤ n
length-take_rows zero xs = omega arith
length-take_rows (suc n) [] = omega arith
length-take_rows (suc n) (x ∷ xs) = omega (arith, length-take_rows n xs)

map-All :
    {A B : Type 0} (f : A → B) (P : A → Type 0) (Q : B → Type 0) (xs : List A)
    → ((a : A) → P a → Q (f a))
    → All P xs
    → All Q (map f xs)
map-All f P Q [] h all = tt
map-All f P Q (x ∷ xs) h all = (h x all.0, map-All f P Q xs h all.1)

length-map_rows : {A B : Type 0} (f : A → B) (xs : List A) → length (map f xs) ≡ length xs
length-map_rows f [] = refl
length-map_rows f (x ∷ xs) = ap (λ n. suc n) (length-map_rows f xs)

texts-again : (ts : List Text) → map table_arg (map text_arg ts) ≡ ts
texts-again [] = refl
texts-again (t ∷ ts) = ap (λ us. t ∷ us) (texts-again ts)

-- The first clause holds the columns.
abbrev columns_in : List Clause → List Text
columns_in [] = []
columns_in (c ∷ cs) = map table_arg c.args

abbrev wheres_in : List Clause → List Clause
wheres_in [] = []
wheres_in (c ∷ cs) = cs

module _ (sql : Sql) (stored : Text → List EventRecord) where
  abbrev page_of : Text → Arg → List Clause → List EventRowModel
  page_of table l clauses =
      map (λ r. scan (columns_in clauses) (event_row r))
        (first_rows l (keep (satisfies sql (wheres_in clauses)) (stored table)))

  abbrev selected_rows : List Arg → List EventRowModel
  selected_rows [] = []
  selected_rows (t ∷ []) = []
  selected_rows (t ∷ l ∷ rest) = page_of (table_arg t) l (read_parts rest).1

  abbrev counted_rows : List Arg → ℕ
  counted_rows [] = 0
  counted_rows (t ∷ []) = 0
  counted_rows (t ∷ l ∷ rest) =
      count_of (satisfies sql (wheres_in (read_parts rest).1)) (stored (table_arg t))

  unfoldable pub memory_database : Database
  unfolding selected_rows counted_rows
  memory_database = record {
    scan_events = λ text args. inr (selected_rows args);
    scan_counts = λ text args. inr (pos (counted_rows args) ∷ []);
  }

  abbrev clauses_of : Scope → List Clause
  clauses_of scope = clause_of [] (map text_arg scope.columns) ∷ scope.wheres

  pub memory-Counts : Counts memory_database render sql stored
  unfolding memory_database render
  memory-Counts = record {
    counts = λ scope made ns unlimited unskipped states scanned.
        inr_eq scanned refl
        ∙ ap (λ m. pos (counted_rows m.1) ∷ []) (sym (some_eq states))
        ∙ ap (λ q. pos (count_of (satisfies sql (wheres_in q.1)) (stored scope.table)) ∷ [])
            (read-clauses (clauses_of (count_columns scope)));
    missing = λ scope made e states scanned gone. absurd (cc scanned);
  }

  abbrev page_rows : Scope → List EventRowModel
  page_rows scope =
      map (λ r. scan scope.columns (event_row r))
        (first_rows (limit_arg scope.limit)
          (keep (satisfies sql scope.wheres) (stored scope.table)))

  -- What a scan of a rendered scope answers.
  scanned-rows :
      (scope : Scope) (made : Text × List Arg) (rows : List EventRowModel)
      → render scope ≡ some made
      → memory_database.scan_events made.0 made.1 ≡ inr rows
      → rows ≡ page_rows scope
  unfolding memory_database render
  scanned-rows scope made rows states scanned =
      inr_eq scanned refl
      ∙ ap (λ m. selected_rows m.1) (sym (some_eq states))
      ∙ ap (λ q. page_of scope.table (limit_arg scope.limit) q.1) (read-clauses (clauses_of scope))
      ∙ ap
          (λ cs.
            map (λ r. scan cs (event_row r))
              (first_rows (limit_arg scope.limit)
                (keep (satisfies sql scope.wheres) (stored scope.table))))
          (texts-again scope.columns)

  pub memory-Pages : Pages memory_database render sql stored
  memory-Pages = record {
    selected = λ scope made rows known states scanned.
        subst (All _) (sym (scanned-rows scope made rows states scanned)) (
          map-All (λ r. scan scope.columns (event_row r)) _ _ _
            (λ r kept. (r, refl, kept.0, kept.1))
            (first-All _ (limit_arg scope.limit) _
              (keep-All (satisfies sql scope.wheres) (stored scope.table))));
    limited = λ scope made rows n known states scanned limit.
        let kept = keep (satisfies sql scope.wheres) (stored scope.table) in
        let is : rows ≡ map (λ r. scan scope.columns (event_row r)) (take n kept) =
          scanned-rows scope made rows states scanned
          ∙ ap (λ l. map (λ r. scan scope.columns (event_row r)) (first_rows (limit_arg l) kept))
              limit in
        subst (λ m. m ≤ n)
          (sym (
            ap (λ rs. length rs) is
            ∙ length-map_rows (λ r. scan scope.columns (event_row r)) (take n kept)))
          (length-take_rows n kept);
  }
