-- ===== src/Query/Plan/Weights/Whole.antt =====
-- `build` of plan/plan.rs: the plan that comes out of `simplify` and `set_output_weights`.
use data_lib.Query.Rows.{any, contains, position}
use data_lib.Query.Table.{Table, get_table, get_index}
use data_lib.Query.Rel.{Rel, output_table}
use data_lib.Query.Plan.{Output, Builder}
use data_lib.Query.Plan.Execute.{
  ChunkData, get_output_index, selected_rows, related_output, relation_input, scanned_output,
  eval_into,
}
use data_lib.Query.Plan.Data.{IsFaithful, IsWellFormed, position-map}
use data_lib.Query.Plan.Marks.{position-get_elem?}
use data_lib.Query.Plan.Selected.{simplify_keeps}
use data_lib.Query.Plan.Weights.{
  extend, per_row, weight_columns_of, weigh_output, set_output_weights, build,
}
use data_lib.Common.{
  ℕ, zero, suc, ◌≡◌, refl, sym, ap, ◌∙◌, subst, String, Bool, true, some, List, [], ◌∷◌, ◌++◌, map,
  arith, str_eq, eq_iff, get_elem?, All, Bool-cases, inl, inr,
}

abbrev is_named : String → List Table → Bool
is_named name tables = any (λ t. str_eq t.name name) tables

position-found {ℓ} :
    {A : Type ℓ} (p : A → Bool) (xs : List A) → any p xs ≡ true → (i : ℕ) × (position p xs ≡ some i)
unfolding position any
position-found p [] h = absurd cc
position-found p (x ∷ xs) h = elim (Bool-cases (p x)) [
  | inl q ↦ (0, rw (q) refl)
  | inr q ↦ let (i, e) = position-found p xs (ground (arith, h, q)) in (suc i, rw (q, e) refl)
]

named_table :
    (name : String) (tables : List Table)
    → is_named name tables ≡ true
    → (t : Table) × (get_table tables name ≡ some t)
unfolding get_table get_index
named_table name tables h =
    let (i, e) = position-found (λ t. str_eq t.name name) tables h in
    let found = position-get_elem? (λ t. str_eq t.name name) tables i e in (found.0, rw (e) found.1)

-- Each table of a part is named in the whole.
named_tables :
    (tables part : List Table)
    → ((name : String) → is_named name part ≡ true → is_named name tables ≡ true)
    → All (λ (t : Table). is_named t.name tables ≡ true) part
unfolding any
named_tables tables [] h = tt
named_tables tables (t ∷ part) h =
    let self : str_eq t.name t.name ≡ true = (eq_iff t.name t.name).1 refl in
    (h t.name (rw (self) refl), named_tables tables part (λ name k. h name (ground (arith, k))))

known_outputs :
    (tables part : List Table) (outputs : List Output)
    → map (λ o. o.table) outputs ≡ map (λ t. t.name) part
    → All (λ (t : Table). is_named t.name tables ≡ true) part
    → All (λ (o : Output). (t : Table) × (get_table tables o.table ≡ some t)) outputs
known_outputs tables [] [] e h = tt
known_outputs tables [] (o ∷ outputs) e h = absurd cc
known_outputs tables (t ∷ part) [] e h = absurd cc
known_outputs tables (t ∷ part) (o ∷ outputs) e h =
    let same : t.name ≡ o.table = cc in
    let later : map (λ o. o.table) outputs ≡ map (λ t. t.name) part = cc in
    (
      named_table o.table tables (subst (λ n. is_named n tables ≡ true) same h.0),
      known_outputs tables part outputs later h.1,
    )

-- The outputs that `set_output_weights` returns.
pub record Weighed (tables : List Table) (outputs outputs' : List Output) : Type 0 where
  pub done : set_output_weights tables outputs ≡ some outputs'
  pub names : map (λ o. o.table) outputs' ≡ map (λ o. o.table) outputs
  pub each :
      (j : ℕ) (o : Output)
      → get_elem? outputs j ≡ some o
      → (o' : Output) × (get_elem? outputs' j ≡ some o') × (weigh_output tables o ≡ some o')

weigh_known :
    (tables : List Table) (o : Output) (t : Table)
    → get_table tables o.table ≡ some t
    → (o' : Output) × (weigh_output tables o ≡ some o') × (o'.table ≡ o.table)
unfolding weigh_output
weigh_known tables o t e =
    let projection = extend o.exp (extend t.primary_key o.projection) in
    (
      record o {
        projection = projection;
        weight_per_row = per_row t projection;
        weight_columns = weight_columns_of t projection;
      },
      rw (e) refl,
      refl,
    )

set_output_weights-Weighed :
    (tables : List Table) (outputs : List Output)
    → All (λ (o : Output). (t : Table) × (get_table tables o.table ≡ some t)) outputs
    → (outputs' : List Output) × Weighed tables outputs outputs'
unfolding set_output_weights
set_output_weights-Weighed tables [] h =
    ([], record { done = refl; names = refl; each = λ j o e. absurd cc })
set_output_weights-Weighed tables (o ∷ outputs) h =
    let (o', e, n) = weigh_known tables o h.0.0 h.0.1 in
    let (rest, w) = set_output_weights-Weighed tables outputs h.1 in
    (o' ∷ rest, record { done = rw (e, w.done) refl; names = cc; each = at o' e rest w.each })
  where
    at :
        (o' : Output)
        → weigh_output tables o ≡ some o'
        → (rest : List Output)
        → ((j : ℕ) (p : Output)
            → get_elem? outputs j ≡ some p
            → (p' : Output) × (get_elem? rest j ≡ some p') × (weigh_output tables p ≡ some p'))
        → (j : ℕ) (p : Output) → get_elem? (o ∷ outputs) j ≡ some p
        → (p' : Output) × (get_elem? (o' ∷ rest) j ≡ some p') × (weigh_output tables p ≡ some p')
    at o' e rest ih zero p f =
        let same : o ≡ p = cc in (o', refl, subst (λ q. weigh_output tables q ≡ some o') same e)
    at o' e rest ih (suc j) p f = ih j p f

-- The rows that are selected depend on the outputs through their tables alone.
module _ {Pred : Type 0} (chunk : ChunkData Pred) (outputs outputs' : List Output)
    (names : map (λ o. o.table) outputs' ≡ map (λ o. o.table) outputs) where
  same_index : (name : String) → get_output_index outputs' name ≡ get_output_index outputs name
  unfolding get_output_index
  same_index name =
      position-map name (λ o. o.table) outputs'
      ∙ ap (position (λ t. str_eq t name)) names
      ∙ sym (position-map name (λ o. o.table) outputs)

  same_related :
      (inputs : ℕ → List ℕ) (j idx : ℕ) (rels : List Rel)
      → related_output chunk outputs' inputs j idx rels
        ≡ related_output chunk outputs inputs j idx rels
  unfolding related_output eval_into
  same_related inputs j idx [] = refl
  same_related inputs j idx (rel ∷ rels) =
      rw (same_index (output_table rel), same_related inputs j (suc idx) rels) refl

  same_rows :
      (p : Builder Pred) (j : ℕ)
      → p.outputs ≡ outputs
      → selected_rows chunk (record p { outputs = outputs' }) j ≡ selected_rows chunk p j
  unfolding selected_rows
  same_rows p j e =
      ap (λ rows. scanned_output chunk p.scans j ++ rows)
        (same_related (relation_input chunk p.scans) j 0 p.relations
          ∙ ap (λ os. related_output chunk os (relation_input chunk p.scans) j 0 p.relations)
              (sym e))

-- For a plan that is well formed and a chunk that keeps what the plan relies on, `build` does not
-- panic; each output of the plan that it returns is the given one with its projection and weights,
-- and the plan selects, of each output, exactly the rows that the given one selects.
pub build-selected_rows :
    {Pred : Type 0} (chunk : ChunkData Pred) (b : Builder Pred)
    → IsWellFormed b
    → IsFaithful chunk b.tables
    → (b' : Builder Pred) × (build b ≡ some b')
      × ((j : ℕ) (o : Output)
          → get_elem? b.outputs j ≡ some o
          → (o' : Output) × (get_elem? b'.outputs j ≡ some o')
            × (weigh_output b.tables o ≡ some o'))
      × ((j r : ℕ) (o : Output)
          → get_elem? b.outputs j ≡ some o
          → contains r (selected_rows chunk b' j) ≡ contains r (selected_rows chunk b j))
unfolding build
build-selected_rows chunk b well faithful =
    let (s, simple, tables, outputs, rows) = simplify_keeps chunk b well faithful in
    let known =
      known_outputs b.tables b.tables b.outputs well.same_tables
        (named_tables b.tables b.tables (λ name h. h)) in
    let (outputs', w) = set_output_weights-Weighed b.tables b.outputs known in
    (
      record s { outputs = outputs' },
      rw (simple, tables, outputs, w.done) refl,
      w.each,
      λ j r o e.
          ap (contains r) (same_rows chunk b.outputs outputs' w.names s j outputs) ∙ rows j r o e,
    )
