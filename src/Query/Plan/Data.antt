-- ===== src/Query/Plan/Data.antt =====
-- What the plan of plan/plan.rs relies on in a chunk of data, and what the rows that it selects are.
use data_lib.Query.Panics.{◌>>=◌}
use data_lib.Query.Rows.{any, filter, contains, contains-append, position}
use data_lib.Query.Table.{Table, get_index}
use data_lib.Query.Rel.{Rel, join, input_table, output_table}
use data_lib.Query.Plan.{Scan, Output, Builder}
use data_lib.Query.Plan.Execute.{
  ChunkData, option_eq, scan_rows, relation_input, scanned_output, eval_into, related_output,
  get_output_index,
}
use data_lib.Query.Plan.Simplify.{is_full_rel}
use data_lib.Query.Plan.Marks.{position-get_elem?}
use data_lib.Query.Plan.Refill.{brings_out, brings_rel, has_row, reads_row}
use data_lib.Query.Plan.Retain.{ReadsTable}
use data_lib.Query.Plan.Refill.{IsDistinct}
use data_lib.Common.{
  ℕ, zero, suc, ◌+◌, ◌≡◌, refl, sym, ap, ◌∙◌, subst, String, Bool, true, false, ◌&&◌, ◌||◌, Option,
  none, some, List, [], ◌∷◌, ◌++◌, map, arith, str_eq, eq_iff, if◌then◌else◌, get_elem?, All,
  Bool-cases, inl, inr,
}

abbrev pub is_join : Rel → Bool
is_join (join input_table input_key output_table output_key) = true
is_join rel = false

-- What the evaluation of a relation and the data are relied on for: the result depends on the set
-- of input rows, is made of rows of the output table, and is nothing without input; and where a
-- join is by the primary key into a table of registered children, each child has its parent.
pub record IsFaithful {Pred : Type 0} (chunk : ChunkData Pred) (tables : List Table) : Type 0 where
  pub same_input :
      (rel : Rel) (xs ys : List ℕ)
      → ((r : ℕ) → contains r xs ≡ contains r ys)
      → (r : ℕ) → contains r (chunk.eval rel xs) ≡ contains r (chunk.eval rel ys)
  pub in_table :
      (rel : Rel) (xs : List ℕ) (r : ℕ)
      → contains r (chunk.eval rel xs) ≡ true
      → contains r (chunk.rows (output_table rel)) ≡ true
  pub no_input : (rel : Rel) → chunk.eval rel [] ≡ []
  pub full_join :
      (rel : Rel) (xs : List ℕ)
      → is_join rel ≡ true
      → is_full_rel tables rel ≡ some true
      → ((r : ℕ) → contains r (chunk.rows (input_table rel)) ≡ true → contains r xs ≡ true)
      → (r : ℕ) → contains r (chunk.rows (output_table rel)) ≡ true
      → contains r (chunk.eval rel xs) ≡ true

-- The plans that `PlanBuilder` makes: one output for each table, and scans that feed the output of
-- their table and relations that read it.
pub record IsWellFormed {Pred : Type 0} (b : Builder Pred) : Type 0 where
  pub same_tables : map (λ o. o.table) b.outputs ≡ map (λ t. t.name) b.tables
  pub distinct : IsDistinct b.outputs
  pub scans :
      All
        (λ (s : Scan Pred).
          ((j : ℕ) × (s.output ≡ some j) × (get_index b.tables s.table ≡ some j))
          × (All (ReadsTable b.relations s.table) s.relations))
        b.scans
  pub relations :
      All (λ rel. (j : ℕ) × (get_index b.tables (output_table rel) ≡ some j)) b.relations

pub position-map :
    (name : String) (f : Output → String) (xs : List Output)
    → position (λ o. str_eq (f o) name) xs ≡ position (λ t. str_eq t name) (map f xs)
unfolding position
position-map name f [] = refl
position-map name f (x ∷ xs) =
    ap (λ later. if str_eq (f x) name then some 0 else (later >>= λ i. some (suc i)))
      (position-map name f xs)

position-map_tables :
    (name : String) (xs : List Table)
    → position (λ t. str_eq t.name name) xs ≡ position (λ t. str_eq t name) (map (λ t. t.name) xs)
unfolding position
position-map_tables name [] = refl
position-map_tables name (x ∷ xs) =
    ap (λ later. if str_eq x.name name then some 0 else (later >>= λ i. some (suc i)))
      (position-map_tables name xs)

module _ (outputs : List Output) (tables : List Table)
    (same : map (λ o. o.table) outputs ≡ map (λ t. t.name) tables) where
  pub get_output_index-get_index :
      (name : String) → get_output_index outputs name ≡ get_index tables name
  unfolding get_output_index get_index
  get_output_index-get_index name =
      position-map name (λ o. o.table) outputs
      ∙ ap (position (λ t. str_eq t name)) same
      ∙ sym (position-map_tables name tables)

  -- The output at the index of a table is the table's.
  pub get_index-output :
      (name : String) (j : ℕ)
      → get_index tables name ≡ some j
      → (o : Output) × (get_elem? outputs j ≡ some o) × (o.table ≡ name)
  unfolding get_output_index
  get_index-output name j e =
      let found =
        position-get_elem? (λ o. str_eq o.table name) outputs j
          (get_output_index-get_index name ∙ e) in
      (found.0, found.1, (eq_iff found.0.table name).0 found.2)

  pub get_index-table :
      (name : String) (j : ℕ) (o : Output)
      → get_index tables name ≡ some j
      → get_elem? outputs j ≡ some o
      → name ≡ o.table
  get_index-table name j o e f =
      let found = get_index-output name j e in
      let t : found.0 ≡ o = cc in sym found.2 ∙ ap (λ o. o.table) t

pub option_eq-some : (o : Option ℕ) (j : ℕ) → option_eq o j ≡ true → o ≡ some j
unfolding option_eq
option_eq-some none j h = absurd cc
option_eq-some (some i) j h = let t : i ≡ j = ground arith in ap some t

module _ {Pred : Type 0} (chunk : ChunkData Pred) (r : ℕ) where
  pub contains-relation_input :
      (scans : List (Scan Pred)) (k : ℕ)
      → contains r (relation_input chunk scans k) ≡ brings_rel chunk r k scans
  unfolding relation_input any
  contains-relation_input [] k = unfold contains any in refl
  contains-relation_input (s ∷ rest) k =
      at _ (contains-relation_input rest k)
        (contains-append r (scan_rows chunk s) (relation_input chunk rest k))
    where
      at :
          (b : Bool)
          → contains r (relation_input chunk rest k) ≡ b
          → contains r (scan_rows chunk s ++ relation_input chunk rest k)
            ≡ contains r (scan_rows chunk s) || contains r (relation_input chunk rest k)
          → contains r (
              if contains k s.relations
              then scan_rows chunk s ++ relation_input chunk rest k
              else relation_input chunk rest k)
            ≡ (contains k s.relations && contains r (scan_rows chunk s)) || b
      at b e f = elim (Bool-cases (contains k s.relations)) [
        | inl q ↦ rw (q) (ground (arith, e, f))
        | inr q ↦ rw (q) (ground (arith, e))
      ]

  pub contains-scanned_output :
      (scans : List (Scan Pred)) (j : ℕ)
      → contains r (scanned_output chunk scans j) ≡ brings_out chunk r j scans
  unfolding scanned_output any
  contains-scanned_output [] j = unfold contains any in refl
  contains-scanned_output (s ∷ rest) j =
      at _ (contains-scanned_output rest j)
        (contains-append r (scan_rows chunk s) (scanned_output chunk rest j))
    where
      at :
          (b : Bool)
          → contains r (scanned_output chunk rest j) ≡ b
          → contains r (scan_rows chunk s ++ scanned_output chunk rest j)
            ≡ contains r (scan_rows chunk s) || contains r (scanned_output chunk rest j)
          → contains r (
              if option_eq s.output j
              then scan_rows chunk s ++ scanned_output chunk rest j
              else scanned_output chunk rest j)
            ≡ (option_eq s.output j && contains r (scan_rows chunk s)) || b
      at b e f = elim (Bool-cases (option_eq s.output j)) [
        | inl q ↦ rw (q) (ground (arith, e, f))
        | inr q ↦ rw (q) (ground (arith, e))
      ]

  contains-filter :
      (p : ℕ → Bool) (xs : List ℕ) → contains r (filter p xs) ≡ true → contains r xs ≡ true
  unfolding contains filter any
  contains-filter p [] h = h
  contains-filter p (x ∷ xs) h = ground (arith, contains-filter p xs)

  -- A scan selects rows of its table.
  pub reads_row-has_row :
      (s : Scan Pred) → reads_row chunk r s ≡ true → has_row chunk r s.table ≡ true
  unfolding scan_rows
  reads_row-has_row s h = at s.predicate refl
    where
      at : (o : Option Pred) → s.predicate ≡ o → has_row chunk r s.table ≡ true
      at none e = rw (e) at h
      at (some p) e = contains-filter (chunk.takes p s.table) (chunk.rows s.table) (rw (e) at h)

module _ {Pred : Type 0} (chunk : ChunkData Pred) (tables : List Table)
    (faithful : IsFaithful chunk tables) (outputs : List Output) where
  -- The test for an empty input changes nothing.
  pub eval_into-eval :
      (j : ℕ) (rel : Rel) (xs : List ℕ)
      → eval_into chunk outputs j rel xs ≡ (
          if option_eq (get_output_index outputs (output_table rel)) j
          then chunk.eval rel xs
          else [])
  unfolding eval_into
  eval_into-eval j rel [] =
      elim (Bool-cases (option_eq (get_output_index outputs (output_table rel)) j)) [
        | inl q ↦ rw (q) (sym (faithful.no_input rel))
        | inr q ↦ rw (q) refl
      ]
  eval_into-eval j rel (x ∷ xs) = refl

  pub eval_into-same :
      (j : ℕ) (rel : Rel) (xs ys : List ℕ)
      → ((r : ℕ) → contains r xs ≡ contains r ys)
      → (r : ℕ)
      → contains r (eval_into chunk outputs j rel xs)
        ≡ contains r (eval_into chunk outputs j rel ys)
  eval_into-same j rel xs ys h r =
      elim (Bool-cases (option_eq (get_output_index outputs (output_table rel)) j)) [
        | inl q ↦
            rw (eval_into-eval j rel xs, eval_into-eval j rel ys, q)
              (faithful.same_input rel xs ys h r)
        | inr q ↦ rw (eval_into-eval j rel xs, eval_into-eval j rel ys, q) refl
      ]

  -- What relations add to an output are rows of its table.
  pub related_output-has_row :
      (same : map (λ o. o.table) outputs ≡ map (λ t. t.name) tables) (inputs : ℕ → List ℕ) (j : ℕ)
      (o : Output) (r n : ℕ) (relations : List Rel)
      → get_elem? outputs j ≡ some o
      → contains r (related_output chunk outputs inputs j n relations) ≡ true
      → has_row chunk r o.table ≡ true
  unfolding related_output
  related_output-has_row same inputs j o r n [] e h = absurd (unfold contains any in cc)
  related_output-has_row same inputs j o r n (rel ∷ rest) e h =
      at _ refl _ refl (related_output-has_row same inputs j o r (suc n) rest e)
    where
      at :
          (b : Bool)
          → contains r (eval_into chunk outputs j rel (inputs n)) ≡ b
          → (c : Bool) → option_eq (get_output_index outputs (output_table rel)) j ≡ c
          → (contains r (related_output chunk outputs inputs j (suc n) rest) ≡ true
              → has_row chunk r o.table ≡ true)
          → has_row chunk r o.table ≡ true
      at false f c g ih = ih (
          ground (
            arith,
            h,
            f,
            contains-append r (eval_into chunk outputs j rel (inputs n))
                (related_output chunk outputs inputs j (suc n) rest),
          ))
      at true f true g ih =
          let index =
            sym (get_output_index-get_index outputs tables same (output_table rel))
            ∙ option_eq-some (get_output_index outputs (output_table rel)) j g in
          let table = get_index-table outputs tables same (output_table rel) j o index e in
          subst (λ t. has_row chunk r t ≡ true) table
            (faithful.in_table rel (inputs n) r (rw (eval_into-eval j rel (inputs n), g) at f))
      at true f false g ih = absurd (
          let gone : contains r [] ≡ true = rw (eval_into-eval j rel (inputs n), g) at f in
          unfold contains any in cc)

  -- What one relation adds is in what all add.
  pub related_output-get_elem? :
      (inputs : ℕ → List ℕ) (j r n i : ℕ) (rel : Rel) (relations : List Rel)
      → get_elem? relations i ≡ some rel
      → contains r (eval_into chunk outputs j rel (inputs (n + i))) ≡ true
      → contains r (related_output chunk outputs inputs j n relations) ≡ true
  unfolding related_output
  related_output-get_elem? inputs j r n i rel [] e h = absurd cc
  related_output-get_elem? inputs j r n zero rel (x ∷ rest) e h =
      let same : rel ≡ x = cc in
      let shift : n + 0 ≡ n = omega arith in
      let first =
        subst (λ t. contains r (eval_into chunk outputs j t (inputs n)) ≡ true) same
          (subst (λ t. contains r (eval_into chunk outputs j rel (inputs t)) ≡ true) shift h) in
      ground (
        arith,
        first,
        contains-append r (eval_into chunk outputs j x (inputs n))
            (related_output chunk outputs inputs j (suc n) rest),
      )
  related_output-get_elem? inputs j r n (suc i) rel (x ∷ rest) e h =
      let shift : n + suc i ≡ suc n + i = omega arith in
      let later =
        related_output-get_elem? inputs j r (suc n) i rel rest e
          (subst (λ t. contains r (eval_into chunk outputs j rel (inputs t)) ≡ true) shift h) in
      ground (
        arith,
        later,
        contains-append r (eval_into chunk outputs j x (inputs n))
            (related_output chunk outputs inputs j (suc n) rest),
      )
