-- ===== src/Query/Rel.antt =====
-- The searches for children and parents of plan/rel.rs. A group of the joined tables is the list of
-- its rows, each with the address that it has in the tree of its group.
pub mod Address
pub mod Sort
pub mod Children
pub mod Parents
use data_lib.Query.Rows.{any, filter, contains}
use data_lib.Common.{
  String, ℕ, zero, suc, ◌≡◌, refl, Bool, true, false, ◌&&◌, ◌||◌, List, [], ◌∷◌, ◌++◌, ◌==◌,
  if◌then◌else◌, ltb, arith, length, Option, none, some, map,
}

pub data Rel : Type 0 where
  join foreign_children foreign_parents :
      (input_table : String)
      → (input_key : List String) → (output_table : String) → (output_key : List String) → Rel
  children parents : (table : String) → (key : List String) → Rel

unfoldable pub output_table : Rel → String
output_table (join input_table input_key table key) = table
output_table (foreign_children input_table input_key table key) = table
output_table (foreign_parents input_table input_key table key) = table
output_table (children table key) = table
output_table (parents table key) = table

unfoldable pub input_table : Rel → String
input_table (join table key output_table output_key) = table
input_table (foreign_children table key output_table output_key) = table
input_table (foreign_parents table key output_table output_key) = table
input_table (children table key) = table
input_table (parents table key) = table

pub record Entry : Type 0 where
  pub row : ℕ
  pub address : List ℕ

abbrev pub Group : Type 0
Group = List Entry

unfoldable pub address_eq : List ℕ → List ℕ → Bool
address_eq [] [] = true
address_eq [] (y ∷ b) = false
address_eq (x ∷ a) [] = false
address_eq (x ∷ a) (y ∷ b) = (x == y) && address_eq a b

unfoldable pub slice_to : ℕ → List ℕ → List ℕ
slice_to zero a = []
slice_to (suc n) [] = []
slice_to (suc n) (x ∷ a) = x ∷ slice_to n a

unfoldable pub is_parent_address : List ℕ → List ℕ → Bool
unfolding address_eq slice_to
is_parent_address parent child =
    ltb (length parent) (length child) && address_eq parent (slice_to (length parent) child)

-- The order of slices: lexicographic.
unfoldable pub address_le : List ℕ → List ℕ → Bool
address_le [] b = true
address_le (x ∷ a) [] = false
address_le (x ∷ a) (y ∷ b) = ltb x y || ((x == y) && address_le a b)

unfoldable pub insert_entry : Entry → Group → Group
unfolding address_le
insert_entry e [] = e ∷ []
insert_entry e (x ∷ xs) =
    let rest = insert_entry e xs in if address_le e.address x.address then e ∷ x ∷ xs else x ∷ rest

-- `order.sort_unstable_by_key(|i| addrs.get(*i))`; the order of rows with one address is the
-- library's own there, and here it is the order of the input.
unfoldable pub sort_by_address : Group → Group
unfolding insert_entry
sort_by_address [] = []
sort_by_address (e ∷ es) = insert_entry e (sort_by_address es)

-- `some p` while the inner loop of `find_children_impl` runs for the parent at `p`.
unfoldable pub in_run : Option (List ℕ) → List ℕ → Bool
unfolding is_parent_address
in_run none a = false
in_run (some p) a = is_parent_address p a

module _ (parents : List ℕ) (include_parent : Bool) where
  unfoldable pub children_from : Option (List ℕ) → Group → List ℕ
  unfolding in_run contains
  children_from run [] = []
  children_from run (e ∷ rest) =
      let inside = children_from run rest in
      let opened = children_from (some e.address) rest in
      let skipped = children_from none rest in
      if in_run run e.address
      then e.row ∷ inside
      else if contains e.row parents
      then (if include_parent then e.row ∷ opened else opened)
      else skipped

  unfoldable pub find_children : List Group → List ℕ
  unfolding children_from sort_by_address
  find_children [] = []
  find_children (g ∷ stack) = children_from none (sort_by_address g) ++ find_children stack

-- The pops before a push: `s` has its last element in front.
unfoldable pub pop_to_parent : List ℕ → List Entry → List Entry
unfolding is_parent_address
pop_to_parent addr [] = []
pop_to_parent addr (top ∷ s) =
    let popped = pop_to_parent addr s in
    if is_parent_address top.address addr then top ∷ s else popped

module _ (children : List ℕ) where
  unfoldable pub parents_from : List Entry → Group → List ℕ
  unfolding pop_to_parent contains
  parents_from s [] = []
  parents_from s (e ∷ rest) =
      let pushed = e ∷ pop_to_parent e.address s in
      let later = parents_from pushed rest in
      if contains e.row children then map (λ x. x.row) pushed ++ later else later

  unfoldable pub find_parents : List Group → List ℕ
  unfolding parents_from sort_by_address
  find_parents [] = []
  find_parents (g ∷ stack) = parents_from [] (sort_by_address g) ++ find_parents stack
