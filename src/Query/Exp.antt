-- ===== src/Query/Exp.antt =====
-- `Exp` of json/exp.rs and the columns that it reads.
use data_lib.Common.{String, List, [], ◌∷◌, ◌++◌}

mutual
  pub data Exp : Type 0 where
    value : Exp
    json : Exp
    big_num : Exp
    hex_num : Exp
    solana_transaction_version : Exp
    timestamp_second : Exp
    timestamp_millisecond : Exp
    object : (props : Props) → Exp
    prop : (name : String) → (exp : Exp) → Exp
    list : (exp : Exp) → Exp
    roll : (columns : List String) → (exp : Exp) → Exp
    enum : (tag_column : String) → (variants : Props) → Exp

  -- `Vec<(Name, Exp)>`
  pub data Props : Type 0 where
    no_props : Props
    with_prop : (name : String) → (exp : Exp) → (rest : Props) → Props

-- The names that `for_each_column` passes to its argument, in order.
unfoldable mutual
  pub for_each_column : Exp → List String
  for_each_column (object props) = for_each_prop props
  for_each_column (prop name exp) = name ∷ []
  for_each_column (roll columns exp) = columns
  for_each_column (enum tag_column variants) = tag_column ∷ for_each_prop variants
  for_each_column value = []
  for_each_column json = []
  for_each_column big_num = []
  for_each_column hex_num = []
  for_each_column solana_transaction_version = []
  for_each_column timestamp_second = []
  for_each_column timestamp_millisecond = []
  for_each_column (list exp) = []

  pub for_each_prop : Props → List String
  for_each_prop no_props = []
  for_each_prop (with_prop name exp rest) = for_each_column exp ++ for_each_prop rest
