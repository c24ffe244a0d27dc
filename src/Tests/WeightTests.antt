-- ===== src/Tests/WeightTests.antt =====
-- The weights of an output whose transactions carry an input of a stored size.
use data_lib.Query.Exp.{Exp, object, prop, value, no_props, with_prop, for_each_column}
use data_lib.Query.Table.{Table, set_weight, set_weight_column, get_table}
use data_lib.Query.Plan.{Output, new_output}
use data_lib.Query.Plan.Weights.{weigh_output, row_weight, extend, column_weight}
use data_lib.Query.Plan.Weights.Rows.{has, HasNoRepetition, sum_weights, weigh_output-row_weight}
use data_lib.Common.{ℕ, ◌≡◌, refl, String, ◌||◌, some, [], ◌∷◌}

abbrev transactions : Table
unfolding set_weight set_weight_column
transactions = set_weight_column "input" "input_size" (
    set_weight "index" 8 (record {
      name = "transactions";
      primary_key = "block_number" ∷ "index" ∷ [];
      column_weights = [];
      nullable = [];
      result_item_name = "transactions";
      children = [];
    }))

abbrev fields : Exp
fields = object (
    with_prop "transactionIndex" (prop "index" value)
      (with_prop "input" (prop "input" value) no_props))

abbrev output : Output
unfolding new_output for_each_column
output = record (new_output transactions) { exp = for_each_column fields }

-- The input of the row takes 100 bytes.
abbrev cells : String → ℕ
cells name = 100

weigh_output-row_weight_example :
    (o : Output) × (weigh_output (transactions ∷ []) output ≡ some o)
    × (row_weight o cells ≡ sum_weights transactions o.projection cells)
    × HasNoRepetition o.projection
    × ((name : String)
        → has name o.projection
          ≡ has name output.exp
            || (has name transactions.primary_key || has name output.projection))
unfolding transactions output
weigh_output-row_weight_example =
    weigh_output-row_weight (transactions ∷ []) output transactions cells (unfold get_table in refl)
      tt

-- 32 for the block number, 8 for the index and 100 for the input.
weighs_row :
    sum_weights transactions (extend output.exp (extend transactions.primary_key [])) cells ≡ 140
unfolding transactions output extend column_weight
weighs_row = refl
