-- ===== src/Tests/QueryTests.antt =====
-- The theorems on the query plan at a small tree of rows and at a plan over three tables.
use data_lib.Query.Panics.{◌>>=◌}
use data_lib.Query.Rows.{any, contains, position}
use data_lib.Query.Table.{Table, add_table, get_index}
use data_lib.Query.Rel.{Entry, Group, join, output_table, find_children, find_parents}
use data_lib.Query.Rel.Sort.{IsDistinct}
use data_lib.Query.Rel.Children.{children_of, find_children-children_of}
use data_lib.Query.Rel.Parents.{parents_of, find_parents-parents_of}
use data_lib.Query.Plan.{
  Output, Builder, new_output, new_builder, add_scan, attach, add_rel, add_join, update_at,
}
use data_lib.Query.Plan.Execute.{ChunkData, selected_rows}
use data_lib.Query.Plan.Simplify.{simplify}
use data_lib.Query.Plan.Data.{IsFaithful, IsWellFormed}
use data_lib.Query.Plan.Built.{IsTableSet, IsBuilt, empty, added, start, scanned, joined}
use data_lib.Query.Plan.Invariant.{IsBuilt-IsConsistent}
use data_lib.Query.Plan.Consistent.{IsConsistent-IsWellFormed}
use data_lib.Query.Plan.Selected.{simplify-selected_rows}
use data_lib.Query.Plan.Weights.{build, weigh_output}
use data_lib.Query.Plan.Weights.Whole.{build-selected_rows}
use data_lib.Query.Plan.ParentBlock.{HeaderTable, read_refs, parent_ref, check_parent_block}
use data_lib.Query.Plan.ParentBlock.Latest.{IsLatest, check_parent_block-IsLatest}
use data_lib.Storage.Data.{BlockRef}
use mathlib.Core.List.{Perm}
use data_lib.Common.{
  get_elem?, ◌↔◌, ok, ap, ℕ, ◌≡◌, refl, String, true, false, Option, none, some, List, [], ◌∷◌,
  ◌==◌, arith, All,
}

abbrev at_address : ℕ → List ℕ → Entry
at_address row address = record { row = row; address = address }

-- A transaction with two calls, the first with one of its own.
abbrev calls : List Group
calls =
    (at_address 7 (0 ∷ 0 ∷ [])
      ∷ at_address 5 []
      ∷ at_address 8 (1 ∷ [])
      ∷ at_address 6 (0 ∷ [])
      ∷ [])
    ∷ []

calls-IsDistinct : All IsDistinct calls
calls-IsDistinct = (
  (
    ((λ e. cc), ((λ e. cc), ((λ e. cc), tt))),
    (((λ e. cc), ((λ e. cc), tt)), (((λ e. cc), tt), (tt, tt))),
  ),
  tt,
)

find_children-children_of_example :
    Perm (find_children (6 ∷ []) true calls) (children_of (6 ∷ []) true calls)
find_children-children_of_example = find_children-children_of (6 ∷ []) true calls calls-IsDistinct

find_parents-parents_of_example :
    contains 5 (find_parents (7 ∷ []) calls) ≡ contains 5 (parents_of (7 ∷ []) calls)
find_parents-parents_of_example = find_parents-parents_of (7 ∷ []) calls 5 calls-IsDistinct

abbrev tables_of : List String → List Table → Option (List Table)
tables_of [] tables = some tables
tables_of (name ∷ names) tables = add_table name ("number" ∷ []) tables >>= tables_of names

abbrev table : String → Table
table name = record {
  name = name;
  primary_key = "number" ∷ [];
  column_weights = [];
  nullable = [];
  result_item_name = name;
  children = [];
}

abbrev two_tables : List Table
two_tables = table "blocks" ∷ table "logs" ∷ []

two_tables-IsTableSet : IsTableSet two_tables
unfolding add_table any
two_tables-IsTableSet =
    added "logs" ("number" ∷ []) (added "blocks" ("number" ∷ []) empty refl) refl

-- A scan of all logs that asks for the blocks of its logs too.
abbrev scan_logs : Builder ℕ
scan_logs = record {
  tables = two_tables;
  scans = record { table = "logs"; predicate = none; relations = 0 ∷ []; output = some 1 } ∷ [];
  relations = join "logs" ("number" ∷ []) "blocks" ("number" ∷ []) ∷ [];
  outputs = new_output (table "blocks") ∷ new_output (table "logs") ∷ [];
  include_all_blocks = false;
  parent_block_hash = none;
  first_block = none;
  last_block = none;
}

abbrev before_join : Builder ℕ
before_join = record scan_logs {
  scans = record { table = "logs"; predicate = none; relations = []; output = some 1 } ∷ [];
  relations = [];
}

scan_logs-IsBuilt : IsBuilt scan_logs
unfolding new_builder new_output add_scan add_join attach add_rel get_index position update_at
scan_logs-IsBuilt =
    joined 0 "blocks" ("number" ∷ []) ("number" ∷ [])
      (scanned {b' = before_join} "logs" (start two_tables-IsTableSet) refl) refl

-- The same scan, for the blocks of its logs alone.
abbrev scan_blocks : Builder ℕ
scan_blocks = record scan_logs {
  scans = record { table = "logs"; predicate = none; relations = 0 ∷ []; output = none } ∷ [];
}

scan_logs-IsWellFormed : IsWellFormed scan_logs
unfolding get_index position output_table
scan_logs-IsWellFormed =
    IsConsistent-IsWellFormed scan_logs (IsBuilt-IsConsistent scan_logs scan_logs-IsBuilt)
      ((λ e. cc), tt) ((0, refl), tt)

abbrev all_or_none : List ℕ → List ℕ
all_or_none [] = []
all_or_none (x ∷ xs) = 0 ∷ 1 ∷ []

-- Each table has two rows; a relation yields both of them, or none without input.
abbrev chunk : ChunkData ℕ
chunk = record {
  rows = λ table. 0 ∷ 1 ∷ [];
  takes = λ predicate table r. r == predicate;
  eval = λ rel xs. all_or_none xs;
}

same_input :
    (xs ys : List ℕ) → ((r : ℕ) → contains r xs ≡ contains r ys) → all_or_none xs ≡ all_or_none ys
unfolding contains any
same_input [] [] h = refl
same_input [] (y ∷ ys) h = absurd (ground (arith, h y))
same_input (x ∷ xs) [] h = absurd (ground (arith, h x))
same_input (x ∷ xs) (y ∷ ys) h = refl

chunk-IsFaithful : IsFaithful chunk two_tables
unfolding contains any
chunk-IsFaithful = record {
  same_input = λ rel xs ys h r. ap (contains r) (same_input xs ys h);
  in_table = λ rel xs r h. in_table xs r h;
  no_input = λ rel. refl;
  full_join = λ rel xs t full h r k. full_join xs h r k;
}
  where
    in_table :
        (xs : List ℕ) (r : ℕ) → contains r (all_or_none xs) ≡ true → contains r (0 ∷ 1 ∷ []) ≡ true
    in_table [] r h = absurd cc
    in_table (x ∷ xs) r h = h

    full_join :
        (xs : List ℕ)
        → ((r : ℕ) → contains r (0 ∷ 1 ∷ []) ≡ true → contains r xs ≡ true)
        → (r : ℕ) → contains r (0 ∷ 1 ∷ []) ≡ true
        → contains r (all_or_none xs) ≡ true
    full_join [] h r k = absurd (let t = h 0 refl in cc)
    full_join (x ∷ xs) h r k = k

simplify-selected_rows_example :
    (b' : Builder ℕ) × (simplify scan_logs ≡ some b')
    × (contains 1 (selected_rows chunk b' 0) ≡ contains 1 (selected_rows chunk scan_logs 0))
simplify-selected_rows_example =
    simplify-selected_rows chunk scan_logs 0 1 (new_output (table "blocks")) scan_logs-IsWellFormed
      chunk-IsFaithful refl

build-selected_rows_example :
    (b' : Builder ℕ) × (build scan_logs ≡ some b')
    × ((j : ℕ) (o : Output)
        → get_elem? scan_logs.outputs j ≡ some o
        → (o' : Output) × (get_elem? b'.outputs j ≡ some o')
          × (weigh_output two_tables o ≡ some o'))
    × ((j r : ℕ) (o : Output)
        → get_elem? scan_logs.outputs j ≡ some o
        → contains r (selected_rows chunk b' j) ≡ contains r (selected_rows chunk scan_logs j))
build-selected_rows_example =
    build-selected_rows chunk scan_logs scan_logs-IsWellFormed chunk-IsFaithful

-- The block 5 of a chain whose last parent below it is the block 4, read out of order.
abbrev headers : HeaderTable
headers = record {
  has_parent_number = true;
  between = λ column lower upper. (4, some "d") ∷ (2, none) ∷ (4, some "e") ∷ (3, some "c") ∷ [];
}

abbrev parent_4 : BlockRef
parent_4 = record { number = 4; hash = "e" }

parent_4-IsLatest : IsLatest parent_4 (read_refs headers 5)
unfolding read_refs parent_ref
parent_4-IsLatest = (
  record { number = 4; hash = "d" } ∷ record { number = 2; hash = "" } ∷ [],
  record { number = 3; hash = "c" } ∷ [],
  refl,
  (omega arith, (omega arith, tt)),
  (omega arith, tt),
)

check_parent_block-IsLatest_example :
    (check_parent_block headers (some "e") (some 5) ≡ ok tt)
    ↔ ((r : BlockRef) × (IsLatest r (read_refs headers 5)) × (r.hash ≡ "e"))
check_parent_block-IsLatest_example = check_parent_block-IsLatest headers "e" 5

accepts_parent : check_parent_block headers (some "e") (some 5) ≡ ok tt
accepts_parent = check_parent_block-IsLatest_example.1 (parent_4, parent_4-IsLatest, refl)
