-- ===== src/Query/Plan/Covered.antt =====
-- What the marks of `simplify` of plan/plan.rs say of the rows that the plan selects.
use data_lib.Query.Rows.{any, contains}
use data_lib.Query.Table.{get_index}
use data_lib.Query.Rel.{
  Rel, join, foreign_children, foreign_parents, children, parents, input_table, output_table,
}
use data_lib.Query.Plan.{Scan, Output, Builder}
use data_lib.Query.Plan.Execute.{ChunkData, option_eq, relation_input, selected_rows, eval_into}
use data_lib.Query.Plan.Simplify.{is_some, is_full_rel}
use data_lib.Query.Plan.Data.{
  IsFaithful, IsWellFormed, is_join, get_index-output, get_index-table, get_output_index-get_index,
  contains-relation_input, eval_into-eval, related_output-get_elem?,
}
use data_lib.Query.Plan.Marks.{get_elem?-length}
use data_lib.Query.Plan.Grows.{IsReadable, IsMarkable}
use data_lib.Query.Plan.Refill.{brings_out, brings_rel, has_row, reads_row}
use data_lib.Query.Plan.Retain.{ReadsTable}
use data_lib.Common.{
  ℕ, zero, suc, ◌+◌, ◌<◌, ◌≡◌, refl, sym, ap, ◌∙◌, subst, String, true, false, some, List, [], ◌∷◌,
  arith, ◌==◌, length, get_elem?, All,
}
use data_lib.Query.Plan.Feeds.{reads_row-full, contains-selected_rows}

module _ {Pred : Type 0} (chunk : ChunkData Pred) (b : Builder Pred) (well : IsWellFormed b)
    (faithful : IsFaithful chunk b.tables) where
  -- The plan selects the whole table of the output.
  abbrev pub IsCovered : ℕ → Type 0
  IsCovered j =
      (o : Output) (r : ℕ)
      → get_elem? b.outputs j ≡ some o
      → has_row chunk r o.table ≡ true
      → contains r (selected_rows chunk b j) ≡ true

  -- The scans at hand are among those of the plan.
  abbrev pub IsPart : List (Scan Pred) → Type 0
  IsPart part =
      ((j r : ℕ) → brings_out chunk r j part ≡ true → brings_out chunk r j b.scans ≡ true)
      × ((k r : ℕ) → brings_rel chunk r k part ≡ true → brings_rel chunk r k b.scans ≡ true)

  abbrev pub IsSound : Scan Pred → Type 0
  IsSound s =
      ((j : ℕ) × (s.output ≡ some j) × (get_index b.tables s.table ≡ some j))
      × (All (ReadsTable b.relations s.table) s.relations)

  scan-IsCovered :
      (s : Scan Pred) (j : ℕ)
      → is_some s.predicate ≡ false
      → s.output ≡ some j
      → get_index b.tables s.table ≡ some j
      → ((r : ℕ) → reads_row chunk r s ≡ true → brings_out chunk r j b.scans ≡ true)
      → IsCovered j
  scan-IsCovered s j p e f part o r g q =
      let table = get_index-table b.outputs b.tables well.same_tables s.table j o f g in
      let reads = reads_row-full chunk r s p ∙ ap (has_row chunk r) table ∙ q in
      ground (arith, contains-selected_rows chunk r b j, part r reads)

  rel_index :
      (rels : List Rel) (i : ℕ) (rel : Rel)
      → All (λ rel. (j : ℕ) × (get_index b.tables (output_table rel) ≡ some j)) rels
      → get_elem? rels i ≡ some rel
      → (j : ℕ) × (get_index b.tables (output_table rel) ≡ some j)
  rel_index [] i rel h e = absurd cc
  rel_index (x ∷ rels) zero rel h e =
      let same : x ≡ rel = cc in
      subst (λ t. (j : ℕ) × (get_index b.tables (output_table t) ≡ some j)) same h.0
  rel_index (x ∷ rels) (suc i) rel h e = rel_index rels i rel h.1 e

  -- A join that gets its whole input table covers its output.
  join-IsCovered :
      (rel : Rel) (i j : ℕ)
      → is_join rel ≡ true
      → is_full_rel b.tables rel ≡ some true
      → get_elem? b.relations i ≡ some rel
      → get_index b.tables (output_table rel) ≡ some j
      → ((r : ℕ) → has_row chunk r (input_table rel) ≡ true → brings_rel chunk r i b.scans ≡ true)
      → IsCovered j
  join-IsCovered rel i j t full e f whole o r g q =
      let table = get_index-table b.outputs b.tables well.same_tables (output_table rel) j o f g in
      let row = subst (λ t. has_row chunk r t ≡ true) (sym table) q in
      let input = λ (x : ℕ) (h : contains x (chunk.rows (input_table rel)) ≡ true).
        contains-relation_input chunk x b.scans i ∙ whole x h in
      let yields = faithful.full_join rel (relation_input chunk b.scans i) t full input r row in
      let into =
        eval_into-eval chunk b.tables faithful b.outputs j rel (relation_input chunk b.scans i) in
      let index =
        get_output_index-get_index b.outputs b.tables well.same_tables (output_table rel) ∙ f in
      let added : contains r (eval_into chunk b.outputs j rel (relation_input chunk b.scans i))
          ≡ true =
        rw (into, index) (unfold option_eq in rw (same_index j) yields) in
      let shifted =
        subst
          (λ t.
            contains r (eval_into chunk b.outputs j rel (relation_input chunk b.scans t)) ≡ true)
          (shift i) added in
      ground (
        arith,
        contains-selected_rows chunk r b j,
        related_output-get_elem? chunk b.tables faithful b.outputs (relation_input chunk b.scans) j
            r 0 i rel b.relations e shifted,
      )
    where
      same_index : (j : ℕ) → (j == j) ≡ true
      same_index j = ground arith

      shift : (i : ℕ) → i ≡ 0 + i
      shift i = omega arith

  pub in_range : (name : String) (j : ℕ) → get_index b.tables name ≡ some j → j < length b.outputs
  in_range name j e =
      let found = get_index-output b.outputs b.tables well.same_tables name j e in
      get_elem?-length b.outputs j found.0 found.1

  abbrev IsMarkableHere : ℕ → Type 0
  IsMarkableHere = IsMarkable b.tables b.relations (length b.outputs) in_range IsCovered

  abbrev pub IsReadableHere : Scan Pred → Type 0
  IsReadableHere = IsReadable b.tables b.relations (length b.outputs) in_range IsCovered

  markable_relation :
      (s : Scan Pred) (i out_idx : ℕ)
      → is_some s.predicate ≡ false
      → get_index b.tables s.table ≡ some out_idx
      → IsCovered out_idx
      → ReadsTable b.relations s.table i
      → ((r : ℕ) → reads_row chunk r s ≡ true → brings_rel chunk r i b.scans ≡ true)
      → IsMarkableHere i
  markable_relation s i out_idx p f covered (rel, e, reads) part =
      let found = rel_index b.relations i rel well.relations e in
      (
        rel,
        e,
        out_idx,
        subst (λ t. get_index b.tables t ≡ some out_idx) (sym reads) f,
        found.0,
        found.1,
        at rel e reads found.1,
      )
    where
      whole :
          (rel : Rel)
          → input_table rel ≡ s.table
          → (r : ℕ) → has_row chunk r (input_table rel) ≡ true
          → brings_rel chunk r i b.scans ≡ true
      whole rel q r h = part r (reads_row-full chunk r s p ∙ sym (ap (has_row chunk r) q) ∙ h)

      own :
          (table : String) (j : ℕ)
          → table ≡ s.table
          → get_index b.tables table ≡ some j
          → IsCovered j
      own table j q g =
          let index = subst (λ t. get_index b.tables t ≡ some j) q g in
          let same : out_idx ≡ j = cc in subst IsCovered same covered

      at :
          (rel : Rel)
          → get_elem? b.relations i ≡ some rel
          → input_table rel ≡ s.table
          → {j : ℕ} → get_index b.tables (output_table rel) ≡ some j
          → is_full_rel b.tables rel ≡ some true
          → IsCovered j
      at (join it ik ot ok) e q {j} g full =
          join-IsCovered (join it ik ot ok) i j refl full e g (whole (join it ik ot ok) q)
      at (children table key) e q {j} g full =
          own table j (unfold input_table in q) (unfold output_table in g)
      at (parents table key) e q {j} g full =
          own table j (unfold input_table in q) (unfold output_table in g)
      at (foreign_children it ik ot ok) e q {j} g full = absurd (unfold is_full_rel in cc)
      at (foreign_parents it ik ot ok) e q {j} g full = absurd (unfold is_full_rel in cc)

  markable_relations :
      (s : Scan Pred) (is : List ℕ) (out_idx : ℕ)
      → is_some s.predicate ≡ false
      → get_index b.tables s.table ≡ some out_idx
      → IsCovered out_idx
      → All (ReadsTable b.relations s.table) is
      → ((k r : ℕ)
          → contains k is ≡ true
          → reads_row chunk r s ≡ true
          → brings_rel chunk r k b.scans ≡ true)
      → All IsMarkableHere is
  unfolding contains any
  markable_relations s [] out_idx p f c h part = tt
  markable_relations s (i ∷ is) out_idx p f c h part = (
    markable_relation s i out_idx p f c h.0 (λ r q. part i r (ground arith) q),
    markable_relations s is out_idx p f c h.1 (λ k r q. part k r (ground arith)),
  )

  pub readable_scans :
      (part : List (Scan Pred)) → IsPart part → All IsSound part → All IsReadableHere part
  unfolding any
  readable_scans [] h sound = tt
  readable_scans (s ∷ rest) h ((out, rels), sound) = (
    record {
      out_idx = out.0;
      has_output = out.1;
      has_table = out.2;
      covers = covers;
      markable = λ p.
          markable_relations s s.relations out.0 p out.2 (covers p) rels
            (λ k r q t. h.1 k r (ground arith));
    },
    readable_scans rest ((λ j r q. h.0 j r (ground arith)), (λ k r q. h.1 k r (ground arith)))
        sound,
  )
    where
      has : (out_idx : ℕ) → s.output ≡ some out_idx → option_eq s.output out_idx ≡ true
      has out_idx e = rw (e) (unfold option_eq in ground arith)

      covers : is_some s.predicate ≡ false → IsCovered out.0
      covers p =
          scan-IsCovered s out.0 p out.1 out.2
            (λ r q. let e = has out.0 out.1 in h.0 out.0 r (ground arith))
