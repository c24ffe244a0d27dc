-- ===== src/Query/Table.antt =====
-- The tables of a data set, of plan/table.rs. `none` stands for a panic.
use data_lib.Query.Rows.{any, position}
use data_lib.Query.Panics.{◌>>=◌}
use data_lib.Common.{
  ℕ, String, not, ◌||◌, Option, none, some, List, [], ◌∷◌, ◌++◌, ltb, ◌==◌, str_eq, if◌then◌else◌,
  length, get_elem?,
}

pub data ColumnWeight : Type 0 where
  fixed : (weight : ℕ) → ColumnWeight
  stored : (column : String) → ColumnWeight

pub record Table : Type 0 where
  pub name : String
  pub primary_key : List String
  pub column_weights : List (String × ColumnWeight)
  pub nullable : List String
  pub result_item_name : String
  pub children : List (String × List String)

-- A `HashMap` is a list of its entries, the newest in front.
unfoldable pub get_entry {ℓ} : {V : Type ℓ} → List (String × V) → String → Option V
get_entry [] key = none
get_entry ((k, v) ∷ rest) key = if str_eq k key then some v else get_entry rest key

unfoldable pub set_weight : String → ℕ → Table → Table
set_weight column weight t = record t { column_weights = (column, fixed weight) ∷ t.column_weights }

unfoldable pub set_weight_column : String → String → Table → Table
set_weight_column column weight_column t = record t {
  column_weights = (column, stored weight_column) ∷ t.column_weights;
}

unfoldable pub set_result_item_name : String → Table → Table
set_result_item_name name t = record t { result_item_name = name }

unfoldable pub set_nullable : List String → Table → Table
set_nullable columns t = record t { nullable = columns ++ t.nullable }

-- The only default is null.
unfoldable pub set_column_default : String → Table → Table
set_column_default column t = record t { nullable = column ∷ t.nullable }

unfoldable pub default_null_columns : Table → List String
default_null_columns t = t.nullable

unfoldable pub add_child : String → List String → Table → Option Table
add_child name key t =
    if length key == length t.primary_key
    then some (record t { children = (name, key) ∷ t.children })
    else none

unfoldable pub get_index : List Table → String → Option ℕ
unfolding position
get_index tables name = position (λ t. str_eq t.name name) tables

unfoldable pub get_table : List Table → String → Option Table
unfolding get_index
get_table tables name = get_index tables name >>= get_elem? tables

-- The asserts of `add_table`; the new table goes to the end.
unfoldable pub add_table : String → List String → List Table → Option (List Table)
unfolding any
add_table name pk tables =
    if any (λ t. str_eq t.name name) tables
    then none
    else if not (ltb 0 (length pk))
    then none
    else if ltb 0 (length tables) || (length pk == 1)
    then some (
        tables
        ++ (record {
          name = name;
          primary_key = pk;
          column_weights = [];
          nullable = [];
          result_item_name = name;
          children = [];
        }
            ∷ []))
    else none
