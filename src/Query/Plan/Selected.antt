-- ===== src/Query/Plan/Selected.antt =====
-- `simplify` of plan/plan.rs leaves the rows that the plan selects as they are.
use data_lib.Query.Rows.{any, contains, any-append}
use data_lib.Query.Table.{get_index}
use data_lib.Query.Rel.{Rel, input_table, output_table}
use data_lib.Query.Plan.{Scan, Output, Builder}
use data_lib.Query.Plan.Execute.{
  ChunkData, option_eq, relation_input, selected_rows, get_output_index,
}
use data_lib.Query.Plan.Simplify.{is_some, index_map, all_predicated, simplify}
use data_lib.Query.Plan.Marks.{get_elem?-absent, marked, fills, FullOutput, get_elem?-length}
use data_lib.Query.Plan.Renumber.{length-index_map, Moves, Moves-get_elem?}
use data_lib.Query.Plan.Retain.{ReadsTable}
use data_lib.Query.Plan.Refill.{brings_out, brings_rel, reads_row}
use data_lib.Query.Plan.Data.{
  option_eq-some, IsFaithful, IsWellFormed, get_index-table, get_output_index-get_index,
  contains-relation_input, related_output-has_row,
}
use data_lib.Query.Plan.Feeds.{contains-selected_rows, brings_out-has_row, brings_rel-fills}
use data_lib.Query.Plan.Covered.{IsSound}
use data_lib.Common.{
  ℕ, ◌+◌, ◌<◌, ◌≡◌, refl, sym, ap, ◌∙◌, subst, String, Bool, true, false, not, ◌&&◌, Option, none,
  some, List, [], ◌∷◌, ◌++◌, arith, ◌==◌, get_elem?, All, Bool-cases, inl, inr,
}
use data_lib.Query.Plan.Rewritten.{rewrite_plan-IsRewritten, IsRewritten}
use data_lib.Query.Plan.Removed.{related_output-same, any-never, removed}

module _ {Pred : Type 0} (chunk : ChunkData Pred) (b : Builder Pred) (well : IsWellFormed b)
    (faithful : IsFaithful chunk b.tables) where
  reads_table :
      (table : String) (i : ℕ) (rel : Rel) (is : List ℕ)
      → get_elem? b.relations i ≡ some rel
      → All (ReadsTable b.relations table) is
      → contains i is ≡ true
      → table ≡ input_table rel
  unfolding contains any
  reads_table table i rel [] e h q = absurd cc
  reads_table table i rel (k ∷ is) e h q = at _ refl (λ c. reads_table table i rel is e h.1 c)
    where
      at :
          (c : Bool)
          → (k == i) ≡ c
          → (contains i is ≡ true → table ≡ input_table rel)
          → table ≡ input_table rel
      at true f ih =
          let t : k ≡ i = ground arith in
          let moved = subst (λ t. get_elem? b.relations t ≡ some h.0.0) t h.0.1 in
          let same : h.0.0 ≡ rel = cc in sym h.0.2 ∙ ap input_table same
      at false f ih = ih (ground (arith, q, f))

  scans_read :
      (i : ℕ) (rel : Rel) (part : List (Scan Pred))
      → get_elem? b.relations i ≡ some rel
      → All (IsSound chunk b well faithful) part
      → All (λ (s : Scan Pred). contains i s.relations ≡ true → s.table ≡ input_table rel) part
  scans_read i rel [] e h = tt
  scans_read i rel (s ∷ part) e h =
      (reads_table s.table i rel s.relations e h.0.1, scans_read i rel part e h.1)

  scans_out :
      (j : ℕ) (o : Output) (part : List (Scan Pred))
      → get_elem? b.outputs j ≡ some o
      → All (IsSound chunk b well faithful) part
      → All (λ (s : Scan Pred). option_eq s.output j ≡ true → s.table ≡ o.table) part
  scans_out j o [] e h = tt
  scans_out j o (s ∷ part) e ((out, rels), h) = (
    λ q.
        let index = option_eq-some s.output j q in
        let same : out.0 ≡ j = cc in
        get_index-table b.outputs b.tables well.same_tables s.table j o
          (subst (λ t. get_index b.tables s.table ≡ some t) same out.2) e,
    scans_out j o part e h,
  )

  -- Scans with a predicate are all that feed a relation that is not marked.
  unmarked_rel :
      (r i : ℕ) (m : Bool) (part : List (Scan Pred))
      → m ≡ false
      → any (fills i) part ≡ false
      → any
          (λ s. is_some s.predicate && (contains i s.relations && (not m && reads_row chunk r s)))
          part
        ≡ brings_rel chunk r i part
  unfolding any fills
  unmarked_rel r i m [] e h = refl
  unmarked_rel r i m (s ∷ part) e h = ground (arith, unmarked_rel r i m part e)

  unmarked_out :
      (full : List Bool) (r j : ℕ) (part : List (Scan Pred))
      → marked full j ≡ false
      → All (FullOutput full) part
      → any
          (λ s.
            is_some s.predicate
            && (option_eq s.output j && (not (marked full j) && reads_row chunk r s)))
          part
        ≡ brings_out chunk r j part
  unfolding any
  unmarked_out full r j [] e h = refl
  unmarked_out full r j (s ∷ part) e h = at _ refl _ refl (unmarked_out full r j part e h.1)
    where
      at :
          (p : Bool)
          → is_some s.predicate ≡ p
          → (q : Bool) → option_eq s.output j ≡ q
          → any
              (λ s.
                is_some s.predicate
                && (option_eq s.output j && (not (marked full j) && reads_row chunk r s)))
              part
            ≡ brings_out chunk r j part
          → any
              (λ s.
                is_some s.predicate
                && (option_eq s.output j && (not (marked full j) && reads_row chunk r s)))
              (s ∷ part)
            ≡ brings_out chunk r j (s ∷ part)
      at true f q g ih = ground (arith, ih, f, e)
      at false f true g ih = absurd (let t = h.0 f j (option_eq-some s.output j g) in cc)
      at false f false g ih = ground (arith, ih, f, g)

  module _ (b' : Builder Pred) (x : IsRewritten chunk b well faithful b') where
    -- A relation that stays has the same rows as its input.
    input_same :
        (i k r : ℕ)
        → Moves 0 x.mask i k
        → brings_rel chunk r k (x.kept ++ x.new_scans) ≡ brings_rel chunk r i b.scans
    input_same i k r v = at _ refl _ refl
      where
        at :
            (o : Option Rel)
            → get_elem? b.relations i ≡ o
            → (m : Bool) → marked x.full_rel' k ≡ m
            → brings_rel chunk r k (x.kept ++ x.new_scans) ≡ brings_rel chunk r i b.scans
        at none e m f =
            let short = get_elem?-length (index_map 0 x.mask) i (some k) v in
            absurd (
              get_elem?-absent b.relations i
                (subst (λ t. i < t) (length-index_map 0 x.mask ∙ x.mask_length) short) e)
        at (some rel) e true f =
            let kept =
              Moves-get_elem? x.mask b.relations (removed b.relations x.mask) i k x.relocates v
              ∙ e in
            let filled =
              brings_rel-fills chunk r (input_table rel) i b.scans
                (scans_read i rel b.scans e well.scans) (sym (x.moved_marks i k v) ∙ f) in
            ground (
              arith,
              any-append (λ s. contains k s.relations && reads_row chunk r s) x.kept x.new_scans,
              x.kept_rel r i k v,
              x.new_rel r k rel kept,
              filled,
              f,
              any-never
                  (λ s.
                    is_some s.predicate
                    && (contains i s.relations
                        && (not (marked x.full_rel' k) && reads_row chunk r s)))
                  b.scans (λ s. ground (arith, f)),
            )
        at (some rel) e false f =
            let kept =
              Moves-get_elem? x.mask b.relations (removed b.relations x.mask) i k x.relocates v
              ∙ e in
            ground (
              arith,
              any-append (λ s. contains k s.relations && reads_row chunk r s) x.kept x.new_scans,
              x.kept_rel r i k v,
              x.new_rel r k rel kept,
              f,
              unmarked_rel r i (marked x.full_rel' k) b.scans f (sym (x.moved_marks i k v) ∙ f),
            )

    inputs_same :
        (i k : ℕ)
        → Moves 0 x.mask i k
        → (r : ℕ)
        → contains r (relation_input chunk (x.kept ++ x.new_scans) k)
          ≡ contains r (relation_input chunk b.scans (0 + i))
    inputs_same i k v r =
        contains-relation_input chunk r (x.kept ++ x.new_scans) k
        ∙ input_same i k r v
        ∙ sym (contains-relation_input chunk r b.scans i)
        ∙ ap (λ t. contains r (relation_input chunk b.scans t)) (zero_add i)
      where
        zero_add : (i : ℕ) → i ≡ 0 + i
        zero_add i = omega arith

    -- An output that is fully fetched.
    full_same :
        (j r : ℕ) (o : Output)
        → get_elem? b.outputs j ≡ some o
        → marked x.full j ≡ true
        → contains r (
            selected_rows chunk
              (record b { scans = x.kept ++ x.new_scans; relations = removed b.relations x.mask })
              j)
          ≡ contains r (selected_rows chunk b j)
    full_same j r o e f =
        let after = record b {
          scans = x.kept ++ x.new_scans;
          relations = removed b.relations x.mask;
        } in
        ground (
          arith,
          contains-selected_rows chunk r after j,
          contains-selected_rows chunk r b j,
          any-append (λ s. option_eq s.output j && reads_row chunk r s) x.kept x.new_scans,
          x.kept_out r j,
          x.new_out r j o e,
          f,
          any-never
              (λ s.
                is_some s.predicate
                && (option_eq s.output j && (not (marked x.full j) && reads_row chunk r s)))
              b.scans (λ s. ground (arith, f)),
          x.covers j f o r e,
          brings_out-has_row chunk r o.table j b.scans (scans_out j o b.scans e well.scans),
          related_output-has_row chunk b.tables faithful b.outputs well.same_tables
              (relation_input chunk b.scans) j o r 0 b.relations e,
          related_output-has_row chunk b.tables faithful b.outputs well.same_tables
              (relation_input chunk (x.kept ++ x.new_scans)) j o r 0 (removed b.relations x.mask) e,
        )

    removed_elsewhere :
        (j i : ℕ) (rel : Rel)
        → marked x.full j ≡ false
        → get_elem? b.relations i ≡ some rel
        → marked x.mask i ≡ true
        → option_eq (get_output_index b.outputs (output_table rel)) j ≡ false
    removed_elsewhere j i rel f e m =
        elim (Bool-cases (option_eq (get_output_index b.outputs (output_table rel)) j)) [
          | inl q ↦
              let index =
                sym (
                  get_output_index-get_index b.outputs b.tables well.same_tables (output_table rel))
                ∙ option_eq-some (get_output_index b.outputs (output_table rel)) j q in
              absurd (let t = x.is_mask i rel j e index in cc)
          | inr q ↦ q
        ]

    -- An output that is not.
    part_same :
        (j r : ℕ) (o : Output)
        → get_elem? b.outputs j ≡ some o
        → marked x.full j ≡ false
        → contains r (
            selected_rows chunk
              (record b { scans = x.kept ++ x.new_scans; relations = removed b.relations x.mask })
              j)
          ≡ contains r (selected_rows chunk b j)
    part_same j r o e f =
        let after = record b {
          scans = x.kept ++ x.new_scans;
          relations = removed b.relations x.mask;
        } in
        ground (
          arith,
          contains-selected_rows chunk r after j,
          contains-selected_rows chunk r b j,
          any-append (λ s. option_eq s.output j && reads_row chunk r s) x.kept x.new_scans,
          x.kept_out r j,
          x.new_out r j o e,
          f,
          unmarked_out x.full r j b.scans f x.full_outputs,
          related_output-same chunk b.tables faithful b.outputs j (relation_input chunk b.scans)
              (relation_input chunk (x.kept ++ x.new_scans)) 0 0 b.relations x.mask x.mask_length
              (λ i rel. removed_elsewhere j i rel f) inputs_same r,
        )

    output_same :
        (j r : ℕ) (o : Output)
        → get_elem? b.outputs j ≡ some o
        → contains r (selected_rows chunk b' j) ≡ contains r (selected_rows chunk b j)
    output_same j r o e =
        subst (λ p. contains r (selected_rows chunk p j) ≡ contains r (selected_rows chunk b j))
          (sym x.plan)
          (elim (Bool-cases (marked x.full j)) [
            | inl f ↦ full_same j r o e f
            | inr f ↦ part_same j r o e f
          ])

-- `simplify` returns a plan that selects the same rows of each output; the tables and the outputs stay
-- as they are.
pub simplify_keeps :
    {Pred : Type 0} (chunk : ChunkData Pred) (b : Builder Pred)
    → IsWellFormed b
    → IsFaithful chunk b.tables
    → (b' : Builder Pred) × (simplify b ≡ some b')
      × (b'.tables ≡ b.tables)
      × (b'.outputs ≡ b.outputs)
      × ((j r : ℕ) (o : Output)
          → get_elem? b.outputs j ≡ some o
          → contains r (selected_rows chunk b' j) ≡ contains r (selected_rows chunk b j))
unfolding simplify
simplify_keeps chunk b well faithful = elim (Bool-cases (all_predicated b.scans)) [
  | inl q ↦ (b, rw (q) refl, refl, refl, λ j r o e. refl)
  | inr q ↦
      let (b', found) = rewrite_plan-IsRewritten chunk b well faithful in
      (
        b',
        rw (q) found.done,
        ap (λ p. p.tables) found.plan,
        ap (λ p. p.outputs) found.plan,
        λ j r o e. output_same chunk b well faithful b' found j r o e,
      )
]

-- For a plan that is well formed and a chunk that keeps what the plan relies on, `simplify` does not
-- panic (so its own check of the scans' relations passes), and the plan that it returns selects, of
-- each output, exactly the rows that the plan it was given selects.
pub simplify-selected_rows :
    {Pred : Type 0} (chunk : ChunkData Pred) (b : Builder Pred) (j r : ℕ) (o : Output)
    → IsWellFormed b
    → IsFaithful chunk b.tables
    → get_elem? b.outputs j ≡ some o
    → (b' : Builder Pred) × (simplify b ≡ some b')
      × (contains r (selected_rows chunk b' j) ≡ contains r (selected_rows chunk b j))
simplify-selected_rows chunk b j r o well faithful e =
    let (b', done, tables, outputs, rows) = simplify_keeps chunk b well faithful in
    (b', done, rows j r o e)
