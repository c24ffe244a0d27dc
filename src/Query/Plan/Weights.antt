-- ===== src/Query/Plan/Weights.antt =====
-- `set_output_weights` and `build` of plan/plan.rs, the weight of a row and the filter on the blocks. A
-- `HashSet` is a list without repetitions; the weights of rows stay below 2 ^ 64.
pub mod Rows
pub mod Whole
use data_lib.Query.Panics.{◌>>=◌}
use data_lib.Query.Rows.{any}
use data_lib.Query.Table.{Table, ColumnWeight, fixed, stored, get_table, get_entry}
use data_lib.Query.Plan.{Output, Builder}
use data_lib.Query.Plan.Simplify.{simplify}
use data_lib.Common.{
  ℕ, ◌+◌, String, Bool, true, ◌&&◌, Option, none, some, List, [], ◌∷◌, ◌++◌, leb, str_eq,
  if◌then◌else◌,
}

-- `HashSet::insert` and `HashSet::extend`
unfoldable pub insert_name : String → List String → List String
unfolding any
insert_name name set = if any (λ n. str_eq n name) set then set else set ++ name ∷ []

unfoldable pub extend : List String → List String → List String
unfolding insert_name
extend [] set = set
extend (name ∷ names) set = extend names (insert_name name set)

unfoldable pub column_weight : Table → String → ColumnWeight
unfolding get_entry
column_weight t column = elim (get_entry t.column_weights column) [
  | some weight ↦ weight
  | none ↦ fixed 32
]

unfoldable pub per_row : Table → List String → ℕ
unfolding column_weight
per_row t [] = 0
per_row t (column ∷ rest) =
    let later = per_row t rest in
    elim (column_weight t column) [ fixed weight ↦ weight + later | stored name ↦ later ]

unfoldable pub weight_columns_of : Table → List String → List String
unfolding column_weight
weight_columns_of t [] = []
weight_columns_of t (column ∷ rest) =
    let later = weight_columns_of t rest in
    elim (column_weight t column) [ fixed weight ↦ later | stored name ↦ name ∷ later ]

unfoldable pub weigh_output : List Table → Output → Option Output
unfolding get_table extend per_row weight_columns_of
weigh_output tables o = do
  table ← get_table tables o.table
  let projection = extend o.exp (extend table.primary_key o.projection)
  some (record o {
    projection = projection;
    weight_per_row = per_row table projection;
    weight_columns = weight_columns_of table projection;
  })

unfoldable pub set_output_weights : List Table → List Output → Option (List Output)
unfolding weigh_output
set_output_weights tables [] = some []
set_output_weights tables (o ∷ rest) = do
  o' ← weigh_output tables o
  rest' ← set_output_weights tables rest
  some (o' ∷ rest')

module _ {Pred : Type 0} where
  unfoldable pub build : Builder Pred → Option (Builder Pred)
  unfolding simplify set_output_weights
  build b = do
    simple ← simplify b
    outputs ← set_output_weights simple.tables simple.outputs
    some (record simple { outputs = outputs })

  -- Whether a row of the block passes `get_block_number_predicate`.
  unfoldable pub in_block_range : Builder Pred → ℕ → Bool
  in_block_range b block_number =
      elim b.first_block [ none ↦ true | some fst ↦ leb fst block_number ]
      && elim b.last_block [ none ↦ true | some lst ↦ leb block_number lst ]

unfoldable pub add_columns : (String → ℕ) → ℕ → List String → ℕ
add_columns cell weight [] = weight
add_columns cell weight (name ∷ names) = add_columns cell (weight + cell name) names

-- The weight expression at a row whose cells in the weight columns are given.
unfoldable pub row_weight : Output → (String → ℕ) → ℕ
unfolding add_columns
row_weight o cell = add_columns cell o.weight_per_row o.weight_columns
