-- ===== src/Query/Plan/Rewritten.antt =====
-- The values that `simplify` of plan/plan.rs computes on its way.
use data_lib.Query.Rows.{any, contains}
use data_lib.Query.Table.{get_index}
use data_lib.Query.Rel.{Rel, input_table, output_table}
use data_lib.Query.Plan.{Scan, Output, Builder}
use data_lib.Query.Plan.Execute.{ChunkData, option_eq}
use data_lib.Query.Plan.Simplify.{Marks, is_some, all_false, rewrite_plan}
use data_lib.Query.Plan.Marks.{
  marked, fills, FullOutput, get_elem?-length, get_elem?-marked, marked-all_false, length-all_false,
}
use data_lib.Query.Plan.Grows.{mark_scans-Grows}
use data_lib.Query.Plan.Renumber.{
  Moves, IsMaskOf, HasOutput, remove_mask-IsMaskOf, Relocates, Moves-get_elem?, marked-get_elem?,
}
use data_lib.Query.Plan.Retain.{ReadsTable, retain_scans-IsRetained}
use data_lib.Query.Plan.Refill.{brings_out, brings_rel, has_row, reads_row, assert-append}
use data_lib.Query.Plan.Data.{IsFaithful, IsWellFormed}
use data_lib.Query.Plan.Covered.{IsSound, IsCovered, in_range, readable_scans}
use data_lib.Query.Plan.RefillRelations.{refill-IsFresh}
use data_lib.Common.{
  ℕ, ◌<◌, ◌≡◌, refl, sym, ap, ◌∙◌, subst, Bool, true, not, ◌&&◌, ◌||◌, some, List, [], ◌∷◌, ◌++◌,
  length, get_elem?, All,
}
use data_lib.Query.Plan.Removed.{
  remove_elements-removed, length-removed, removed-Relocates, removed,
}

module _ {Pred : Type 0} (chunk : ChunkData Pred) (b : Builder Pred) (well : IsWellFormed b)
    (faithful : IsFaithful chunk b.tables) where
  -- The values that `rewrite_plan` computes, and what is known of each.
  pub record IsRewritten (b' : Builder Pred) : Type 0 where
    pub full : List Bool
    pub full_rel' : List Bool
    pub mask : List Bool
    pub kept : List (Scan Pred)
    pub new_scans : List (Scan Pred)
    pub done : rewrite_plan b ≡ some b'
    pub plan : b' ≡ record b { scans = kept ++ new_scans; relations = removed b.relations mask }
    pub mask_length : length mask ≡ length b.relations
    pub covers : (j : ℕ) → marked full j ≡ true → IsCovered chunk b well faithful j
    pub full_outputs : All (FullOutput full) b.scans
    pub is_mask : IsMaskOf b.tables full mask b.relations
    pub relocates : Relocates 0 mask b.relations (removed b.relations mask)
    pub full_length : length full ≡ length b.outputs
    pub moved_marks : (i k : ℕ) → Moves 0 mask i k → marked full_rel' k ≡ any (fills i) b.scans
    pub kept_rel :
        (r i k : ℕ)
        → Moves 0 mask i k
        → brings_rel chunk r k kept
          ≡ any
              (λ s.
                is_some s.predicate
                && (contains i s.relations && (not (marked full_rel' k) && reads_row chunk r s)))
              b.scans
    pub kept_out :
        (r j : ℕ)
        → brings_out chunk r j kept
          ≡ any
              (λ s.
                is_some s.predicate
                && (option_eq s.output j && (not (marked full j) && reads_row chunk r s)))
              b.scans
    pub new_rel :
        (r k : ℕ) (rel : Rel)
        → get_elem? (removed b.relations mask) k ≡ some rel
        → brings_rel chunk r k new_scans ≡ marked full_rel' k && has_row chunk r (input_table rel)
    pub new_out :
        (r j : ℕ) (o : Output)
        → get_elem? b.outputs j ≡ some o
        → brings_out chunk r j new_scans ≡ marked full j && has_row chunk r o.table

  indexed_scans :
      (full : List Bool) (part : List (Scan Pred))
      → length full ≡ length b.outputs
      → All (IsSound chunk b well faithful) part
      → All
          (λ (s : Scan Pred).
            ((j : ℕ) × (s.output ≡ some j) × (j < length full))
            × (All (ReadsTable b.relations s.table) s.relations))
          part
  indexed_scans full [] l h = tt
  indexed_scans full (s ∷ part) l ((out, rels), h) = (
    (
      (
        out.0,
        out.1,
        subst (λ t. out.0 < t) (sym l) (in_range chunk b well faithful s.table out.0 out.2),
      ),
      rels,
    ),
    indexed_scans full part l h,
  )

  with_outputs :
      (full : List Bool) (rels : List Rel)
      → length full ≡ length b.outputs
      → All (λ rel. (j : ℕ) × (get_index b.tables (output_table rel) ≡ some j)) rels
      → All (HasOutput b.tables full) rels
  with_outputs full [] l h = tt
  with_outputs full (rel ∷ rels) l h = (
    (
      h.0.0,
      h.0.1,
      subst (λ t. h.0.0 < t) (sym l)
          (in_range chunk b well faithful (output_table rel) h.0.0 h.0.1),
    ),
    with_outputs full rels l h.1,
  )

  pub rewrite_plan-IsRewritten : (b' : Builder Pred) × (IsRewritten b')
  unfolding rewrite_plan
  rewrite_plan-IsRewritten =
      let before : Marks = (all_false b.outputs, all_false b.relations) in
      let marks =
        mark_scans-Grows b.tables b.relations (length b.outputs) (in_range chunk b well faithful)
          (IsCovered chunk b well faithful) b.scans before
          (readable_scans chunk b well faithful b.scans ((λ j r h. h), (λ k r h. h)) well.scans)
          (length-all_false b.outputs) (length-all_false b.relations) in
      let full = marks.0.0 in
      let full_rel = marks.0.1 in
      let masked =
        remove_mask-IsMaskOf b.tables full b.relations
          (with_outputs full b.relations marks.2.outputs well.relations) in
      let mask = masked.0 in
      let full_rel' = removed full_rel mask in
      let relations = removed b.relations mask in
      let moved = removed-Relocates b.relations mask masked.2 in
      let marks_moved = removed-Relocates full_rel mask (masked.2 ∙ sym marks.2.rels) in
      let short = λ (i : ℕ) (k : ℕ) (v : Moves 0 mask i k) (h : i < length mask).
        get_elem?-length full_rel' k (marked full_rel i) (
          Moves-get_elem? mask full_rel full_rel' i k marks_moved v
          ∙ get_elem?-marked full_rel i (subst (λ t. i < t) (masked.2 ∙ sym marks.2.rels) h)) in
      let left =
        retain_scans-IsRetained chunk b.relations relations mask full full_rel' moved masked.2 short
          b.scans (indexed_scans full b.scans marks.2.outputs well.scans) in
      let fresh =
        refill-IsFresh chunk full full_rel' b.outputs relations marks.2.outputs
          (length-removed full_rel b.relations mask marks.2.rels) well.distinct in
      let asserted = assert-append relations left.1 fresh.1 in
      (
        record b { scans = left.1 ++ fresh.1; relations = relations },
        record {
          full = full;
          full_rel' = full_rel';
          mask = mask;
          kept = left.1;
          new_scans = fresh.1;
          done =
              rw
                (
                  marks.1,
                  masked.1,
                  remove_elements-removed full_rel mask (masked.2 ∙ sym marks.2.rels),
                  remove_elements-removed b.relations mask masked.2,
                  left.2.moves,
                  left.2.retains,
                  fresh.2.outs,
                  fresh.2.rels,
                  asserted,
                  left.2.reads,
                  fresh.2.reads,
                )
                refl;
          plan = refl;
          mask_length = masked.2;
          covers =
              marks.2.covers (λ j h. absurd (let none_marked = marked-all_false b.outputs j in cc));
          full_outputs = marks.3;
          is_mask = masked.3;
          relocates = moved;
          full_length = marks.2.outputs;
          moved_marks = λ i k v.
              marked-get_elem? full_rel full_rel' i k
                (Moves-get_elem? mask full_rel full_rel' i k marks_moved v)
              ∙ marks.2.feeds i
              ∙ ap (λ t. t || any (fills i) b.scans) (marked-all_false b.relations i);
          kept_rel = left.2.feeds_rel;
          kept_out = left.2.feeds_output;
          new_rel = fresh.2.new_rel;
          new_out = fresh.2.new_out;
        },
      )
