-- ===== src/Query/Plan/Tables.antt =====
-- The outputs of a new `PlanBuilder` of plan/plan.rs, and the tables that `add_table` makes.
use data_lib.Query.Rows.{any}
use data_lib.Query.Table.{Table, add_table}
use data_lib.Query.Plan.{new_output, new_builder}
use data_lib.Query.Plan.Consistent.{IsConsistent}
use data_lib.Common.{
  map-append, ◌≡◌, refl, sym, ap, subst, String, Bool, true, false, not, ◌||◌, some, List, [], ◌∷◌,
  ◌++◌, map, arith, ◌==◌, ltb, map-append, str_eq, length, All, All-append,
}
use data_lib.Query.Plan.Built.{added, IsTableSet, empty}
use data_lib.Query.Plan.Projection.{IsDistinct-names, AreDistinct}

AreDistinct-append :
    (ns : List String) (n : String)
    → AreDistinct ns
    → All (λ m. str_eq m n ≡ false) ns
    → AreDistinct (ns ++ n ∷ [])
AreDistinct-append [] n d h = (tt, tt)
AreDistinct-append (m ∷ ns) n d h = (
  All-append (λ x. str_eq m x ≡ false) ns (n ∷ []) d.0 (h.0, tt),
  AreDistinct-append ns n d.1 h.1,
)

any-names :
    (name : String) (tables : List Table)
    → any (λ t. str_eq t.name name) tables ≡ false
    → All (λ m. str_eq m name ≡ false) (map (λ t. t.name) tables)
unfolding any
any-names name [] h = tt
any-names name (t ∷ tables) h = (ground (arith, h), any-names name tables (ground (arith, h)))

-- The table that `add_table` appends.
abbrev fresh_table : String → List String → Table
fresh_table name pk = record {
  name = name;
  primary_key = pk;
  column_weights = [];
  nullable = [];
  result_item_name = name;
  children = [];
}

add_table-append :
    (name : String) (pk : List String) (tables tables' : List Table)
    → add_table name pk tables ≡ some tables'
    → (any (λ t. str_eq t.name name) tables ≡ false)
      × (tables ++ fresh_table name pk ∷ [] ≡ tables')
unfolding add_table
add_table-append name pk tables tables' e = at _ refl _ refl _ refl
  where
    at :
        (a : Bool)
        → any (λ t. str_eq t.name name) tables ≡ a
        → (b : Bool) → not (ltb 0 (length pk)) ≡ b
        → (c : Bool) → (ltb 0 (length tables) || (length pk == 1)) ≡ c
        → (any (λ t. str_eq t.name name) tables ≡ false)
          × (tables ++ fresh_table name pk ∷ [] ≡ tables')
    at true f b g c h = absurd (let t = rw (f) at e in cc)
    at false f true g c h = absurd (let t = rw (f, g) at e in cc)
    at false f false g false h = absurd (let t = rw (f, g, h) at e in cc)
    at false f false g true h = (
      f,
      (let t : some (tables ++ fresh_table name pk ∷ []) ≡ some tables' = rw (f, g, h) at e in cc),
    )

IsTableSet-AreDistinct :
    (tables : List Table) → IsTableSet tables → AreDistinct (map (λ t. t.name) tables)
IsTableSet-AreDistinct tables empty = tt
IsTableSet-AreDistinct tables' (added {tables = tables} name pk h e) =
    let made = add_table-append name pk tables tables' e in
    subst (λ ts. AreDistinct (map (λ t. t.name) ts)) made.1
      (subst AreDistinct (sym (map-append (λ t. t.name) tables (fresh_table name pk ∷ []))) (
        AreDistinct-append (map (λ t. t.name) tables) name (IsTableSet-AreDistinct tables h)
          (any-names name tables made.0)))

map-new_output :
    (tables : List Table) → map (λ o. o.table) (map new_output tables) ≡ map (λ t. t.name) tables
unfolding new_output
map-new_output [] = refl
map-new_output (t ∷ tables) = ap (λ n. t.name ∷ n) (map-new_output tables)

module _ {Pred : Type 0} where
  pub new_builder-IsConsistent :
      (tables : List Table) → IsTableSet tables → IsConsistent {Pred = Pred} (new_builder tables)
  unfolding new_builder
  new_builder-IsConsistent tables h = record {
    same_tables = map-new_output tables;
    distinct =
        (IsDistinct-names (map new_output tables)).1
          (subst AreDistinct (sym (map-new_output tables)) (IsTableSet-AreDistinct tables h));
    scans = tt;
  }
