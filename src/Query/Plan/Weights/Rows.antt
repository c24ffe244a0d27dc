-- ===== src/Query/Plan/Weights/Rows.antt =====
-- What the weight of a row amounts to, and which columns an output reads.
use data_lib.Query.Rows.{any, any-append}
use data_lib.Query.Table.{Table, ColumnWeight, fixed, stored, get_table}
use data_lib.Query.Plan.{Output}
use data_lib.Query.Plan.Weights.{
  insert_name, extend, column_weight, per_row, weight_columns_of, weigh_output, add_columns,
  row_weight,
}
use data_lib.Common.{
  subst, ◌⊎◌, eq_iff, ℕ, ◌+◌, ◌≡◌, refl, sym, ap, ◌∙◌, String, Bool, true, false, ◌||◌, some, List,
  [], ◌∷◌, ◌++◌, str_eq, arith, Bool-cases, inl, inr,
}

-- What one cell of a column with this weight counts for.
abbrev cell_weight : ColumnWeight → (String → ℕ) → ℕ
cell_weight (fixed weight) cell = weight
cell_weight (stored name) cell = cell name

-- The sum of the weights of the columns of a row.
abbrev pub sum_weights : Table → List String → (String → ℕ) → ℕ
sum_weights t [] cell = 0
sum_weights t (column ∷ rest) cell =
    cell_weight (column_weight t column) cell + sum_weights t rest cell

add_columns_add :
    (cell : String → ℕ) (n m : ℕ) (names : List String)
    → add_columns cell (n + m) names ≡ n + add_columns cell m names
unfolding add_columns
add_columns_add cell n m [] = refl
add_columns_add cell n m (name ∷ names) =
    let shift : n + m + cell name ≡ n + (m + cell name) = omega arith in
    ap (λ k. add_columns cell k names) shift ∙ add_columns_add cell n (m + cell name) names

weight_columns_step :
    (t : Table) (column : String) (rest : List String) (cell : String → ℕ) (w : ColumnWeight)
    → column_weight t column ≡ w
    → add_columns cell (per_row t rest) (weight_columns_of t rest) ≡ sum_weights t rest cell
    → add_columns cell (per_row t (column ∷ rest)) (weight_columns_of t (column ∷ rest))
      ≡ sum_weights t (column ∷ rest) cell
unfolding per_row weight_columns_of add_columns
weight_columns_step t column rest cell (fixed weight) e ih =
    rw (per_row, weight_columns_of, e)
      (add_columns_add cell weight (per_row t rest) (weight_columns_of t rest)
        ∙ ap (λ k. weight + k) ih)
weight_columns_step t column rest cell (stored name) e ih =
    let flip : per_row t rest + cell name ≡ cell name + per_row t rest = omega arith in
    rw (per_row, weight_columns_of, e)
      (ap (λ k. add_columns cell k (weight_columns_of t rest)) flip
        ∙ add_columns_add cell (cell name) (per_row t rest) (weight_columns_of t rest)
        ∙ ap (λ k. cell name + k) ih)

weight_columns_sum :
    (t : Table) (columns : List String) (cell : String → ℕ)
    → add_columns cell (per_row t columns) (weight_columns_of t columns)
      ≡ sum_weights t columns cell
unfolding per_row weight_columns_of add_columns
weight_columns_sum t [] cell = refl
weight_columns_sum t (column ∷ rest) cell =
    weight_columns_step t column rest cell (column_weight t column) refl
      (weight_columns_sum t rest cell)

abbrev pub has : String → List String → Bool
has name set = any (λ n. str_eq n name) set

abbrev pub HasNoRepetition : List String → Type 0
HasNoRepetition [] = Unit
HasNoRepetition (x ∷ xs) = (has x xs ≡ false) × (HasNoRepetition xs)

has-insert_name :
    (n m : String) (set : List String) → has n (insert_name m set) ≡ str_eq m n || has n set
unfolding insert_name any
has-insert_name n m set = elim (Bool-cases (has m set)) [
  | inl q ↦ rw (q) (inside (Bool-cases (str_eq m n)) q)
  | inr q ↦ rw (q) (any-append (λ k. str_eq k n) set (m ∷ []) ∙ ground arith)
]
  where
    inside :
        (str_eq m n ≡ true) ⊎ (str_eq m n ≡ false)
        → has m set ≡ true
        → has n set ≡ str_eq m n || has n set
    inside (inl e) q =
        let same : m ≡ n = (eq_iff m n).0 e in rw (e) (subst (λ k. has k set ≡ true) same q)
    inside (inr e) q = rw (e) refl

has-extend :
    (n : String) (names set : List String) → has n (extend names set) ≡ has n names || has n set
unfolding extend any
has-extend n [] set = refl
has-extend n (m ∷ names) set =
    let ih = has-extend n names (insert_name m set) in
    let new = has-insert_name n m set in ih ∙ rw (new) (ground arith)

append_name :
    (m : String) (set : List String)
    → HasNoRepetition set
    → has m set ≡ false
    → HasNoRepetition (set ++ m ∷ [])
unfolding any
append_name m [] d q = (refl, tt)
append_name m (x ∷ set) d q = elim (Bool-cases (str_eq x m)) [
  | inl e ↦ absurd (let g = rw (e) at q in cc)
  | inr e ↦
      let rest : has m set ≡ false = rw (e) at q in
      (any-append (λ k. str_eq k x) set (m ∷ []) ∙ other e d.0, append_name m set d.1 rest)
]
  where
    other : str_eq x m ≡ false → has x set ≡ false → has x set || (str_eq m x || false) ≡ false
    other e f = elim (Bool-cases (str_eq m x)) [
      | inl g ↦
          let same : m ≡ x = (eq_iff m x).0 g in absurd (let g = (eq_iff x m).1 (sym same) in cc)
      | inr g ↦ rw (f, g) refl
    ]

insert_name-HasNoRepetition :
    (m : String) (set : List String) → HasNoRepetition set → HasNoRepetition (insert_name m set)
unfolding insert_name any
insert_name-HasNoRepetition m set d = elim (Bool-cases (has m set)) [
  | inl q ↦ rw (q) d
  | inr q ↦ rw (q) (append_name m set d q)
]

extend-HasNoRepetition :
    (names set : List String) → HasNoRepetition set → HasNoRepetition (extend names set)
unfolding extend
extend-HasNoRepetition [] set d = d
extend-HasNoRepetition (m ∷ names) set d =
    extend-HasNoRepetition names (insert_name m set) (insert_name-HasNoRepetition m set d)

-- The weight that an output of a known table gets makes a row weigh the sum over the columns of its
-- projection, fixed weights and the cells of the weight columns, and the projection has each name
-- once: those it had, those of the primary key and those that the expression reads.
pub weigh_output-row_weight :
    (tables : List Table) (o : Output) (t : Table) (cell : String → ℕ)
    → get_table tables o.table ≡ some t
    → HasNoRepetition o.projection
    → (o' : Output) × (weigh_output tables o ≡ some o')
      × (row_weight o' cell ≡ sum_weights t o'.projection cell)
      × HasNoRepetition o'.projection
      × ((name : String)
          → has name o'.projection
            ≡ has name o.exp || (has name t.primary_key || has name o.projection))
unfolding weigh_output row_weight
weigh_output-row_weight tables o t cell e d =
    let projection = extend o.exp (extend t.primary_key o.projection) in
    (
      record o {
        projection = projection;
        weight_per_row = per_row t projection;
        weight_columns = weight_columns_of t projection;
      },
      rw (e) refl,
      weight_columns_sum t projection cell,
      extend-HasNoRepetition o.exp (extend t.primary_key o.projection)
          (extend-HasNoRepetition t.primary_key o.projection d),
      λ name.
          has-extend name o.exp (extend t.primary_key o.projection)
          ∙ ap (λ b. has name o.exp || b) (has-extend name t.primary_key o.projection),
    )
