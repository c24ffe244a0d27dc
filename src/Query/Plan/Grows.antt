-- ===== src/Query/Plan/Grows.antt =====
-- What each step of the first pass of `simplify` of plan/plan.rs does to the marks.
use data_lib.Query.Rows.{any, contains}
use data_lib.Query.Table.{Table, get_index}
use data_lib.Query.Rel.{Rel, output_table, input_table}
use data_lib.Query.Plan.{Scan, update_at}
use data_lib.Query.Plan.Marks.{
  marked, mark_at, is_full_rel-total, get_elem?-length, fills, FullOutput,
}
use data_lib.Query.Plan.Simplify.{
  is_some, is_full_rel, Marks, mark_rel_output, mark_rels, mark_output, mark_scan, mark_scans,
}
use data_lib.Common.{
  subst, ℕ, ◌<◌, ◌≡◌, refl, sym, ◌∙◌, String, Bool, true, false, ◌||◌, some, List, [], ◌∷◌, arith,
  ◌==◌, length, get_elem?, All, Bool-cases, inl, inr,
}

module _ (tables : List Table) (relations : List Rel) (n : ℕ)
    (in_range : (name : String) (j : ℕ) → get_index tables name ≡ some j → j < n)
    (IsCovered : ℕ → Type 0) where
  -- What a step of the pass does to the marks; `fed` are the relations that it marks.
  pub record Grows (before after : Marks) (fed : ℕ → Bool) : Type 0 where
    pub outputs : length after.0 ≡ n
    pub rels : length after.1 ≡ length relations
    pub feeds : (k : ℕ) → marked after.1 k ≡ marked before.1 k || fed k
    pub stays : (j : ℕ) → marked before.0 j ≡ true → marked after.0 j ≡ true
    pub covers :
        ((j : ℕ) → marked before.0 j ≡ true → IsCovered j)
        → (j : ℕ) → marked after.0 j ≡ true
        → IsCovered j

  -- What is known of a relation of a scan without a predicate.
  abbrev pub IsMarkable : ℕ → Type 0
  IsMarkable i =
      (rel : Rel) × (get_elem? relations i ≡ some rel)
      × (in_idx : ℕ) × (get_index tables (input_table rel) ≡ some in_idx)
      × (out_idx : ℕ) × (get_index tables (output_table rel) ≡ some out_idx)
      × (is_full_rel tables rel ≡ some true → IsCovered out_idx)

  Grows-output :
      (j : ℕ) (full full_rel : List Bool)
      → j < n
      → IsCovered j
      → length full ≡ n
      → length full_rel ≡ length relations
      → (full' : List Bool) × (update_at (λ b. true) j full ≡ some full')
        × (Grows (full, full_rel) (full', full_rel) (λ k. false))
        × (marked full' j ≡ true)
  Grows-output j full full_rel h c l k =
      let m = mark_at j full (omega arith) in
      (
        m.0,
        m.1,
        record {
          outputs = m.2 ∙ l;
          rels = k;
          feeds = λ i. ground arith;
          stays = λ i t. ground (arith, m.3 i);
          covers = at m.0 m.3;
        },
        ground (arith, m.3 j),
      )
    where
      at :
          (full' : List Bool)
          → ((i : ℕ) → marked full' i ≡ marked full i || (j == i))
          → ((i : ℕ) → marked full i ≡ true → IsCovered i)
          → (i : ℕ) → marked full' i ≡ true
          → IsCovered i
      at full' e before i t = elim (Bool-cases (marked full i)) [
        | inl q ↦ before i q
        | inr q ↦ let same : j ≡ i = ground (arith, e i) in subst IsCovered same c
      ]

  -- Two steps, one after the other.
  Grows-Grows :
      (a b c : Marks) (fed fed' : ℕ → Bool)
      → Grows a b fed
      → Grows b c fed'
      → Grows a c (λ k. fed k || fed' k)
  Grows-Grows a b c fed fed' g h = record {
    outputs = h.outputs;
    rels = h.rels;
    feeds = λ k. ground (arith, g.feeds k, h.feeds k);
    stays = λ j t. h.stays j (g.stays j t);
    covers = λ t. h.covers (g.covers t);
  }

  mark_rel_output-Grows :
      (i : ℕ) (full full_rel : List Bool)
      → IsMarkable i
      → length full ≡ n
      → length full_rel ≡ length relations
      → (rel : Rel) × (get_elem? relations i ≡ some rel)
        × (full' : List Bool) × (mark_rel_output tables rel full ≡ some full')
        × (Grows (full, full_rel) (full', full_rel) (λ k. false))
  unfolding mark_rel_output
  mark_rel_output-Grows i full full_rel (rel, at, in_idx, reads, out_idx, feeds, covered) l k =
      let s = step (is_full_rel-total tables rel in_idx reads) in (rel, at, s.0, s.1, s.2)
    where
      step :
          (full_value : Bool) × (is_full_rel tables rel ≡ some full_value)
          → (full' : List Bool) × (mark_rel_output tables rel full ≡ some full')
            × (Grows (full, full_rel) (full', full_rel) (λ k. false))
      step (false, e) = (
        full,
        rw (e) refl,
        record {
          outputs = l;
          rels = k;
          feeds = λ j. ground arith;
          stays = λ j t. t;
          covers = λ t. t;
        },
      )
      step (true, e) =
          let g =
            Grows-output out_idx full full_rel (in_range (output_table rel) out_idx feeds)
              (covered e) l k in
          (g.0, rw (e, feeds) (g.1), g.2)

  mark_rels-Grows :
      (is : List ℕ) (full full_rel : List Bool)
      → All IsMarkable is
      → length full ≡ n
      → length full_rel ≡ length relations
      → (after : Marks) × (mark_rels tables relations is (full, full_rel) ≡ some after)
        × (Grows (full, full_rel) after (λ k. contains k is))
  unfolding mark_rels contains any
  mark_rels-Grows [] full full_rel h l k = (
    (full, full_rel),
    refl,
    record { outputs = l; rels = k; feeds = λ j. ground arith; stays = λ j t. t; covers = λ t. t },
  )
  mark_rels-Grows (i ∷ is) full full_rel h l k =
      let m =
        mark_at i full_rel
          (subst (λ len. i < len) (sym k) (get_elem?-length relations i h.0.0 h.0.1)) in
      let o = mark_rel_output-Grows i full m.0 h.0 l (m.2 ∙ k) in
      let ih = mark_rels-Grows is o.2 m.0 h.1 o.4.outputs (m.2 ∙ k) in
      (
        ih.0,
        rw (m.1, o.1, o.3) ih.1,
        record {
          outputs = ih.2.outputs;
          rels = ih.2.rels;
          feeds = λ j. ground (arith, ih.2.feeds j, m.3 j);
          stays = λ j t. ih.2.stays j (o.4.stays j t);
          covers = λ t. ih.2.covers (o.4.covers t);
        },
      )

  module _ {Pred : Type 0} where
    -- What is known of a scan of the plan.
    pub record IsReadable (scan : Scan Pred) : Type 0 where
      pub out_idx : ℕ
      pub has_output : scan.output ≡ some out_idx
      pub has_table : get_index tables scan.table ≡ some out_idx
      pub covers : is_some scan.predicate ≡ false → IsCovered out_idx
      pub markable : is_some scan.predicate ≡ false → All IsMarkable scan.relations

    mark_scan-Grows :
        (scan : Scan Pred) (before : Marks)
        → IsReadable scan
        → length before.0 ≡ n
        → length before.1 ≡ length relations
        → (after : Marks) × (mark_scan tables relations scan before ≡ some after)
          × (Grows before after (λ k. fills k scan))
          × (FullOutput after.0 scan)
    unfolding mark_scan mark_output fills
    mark_scan-Grows scan (full, full_rel) r l k = at _ refl
      where
        at :
            (b : Bool)
            → is_some scan.predicate ≡ b
            → (after : Marks) × (mark_scan tables relations scan (full, full_rel) ≡ some after)
              × (Grows (full, full_rel) after (λ i. fills i scan))
              × (FullOutput after.0 scan)
        at true e = (
          (full, full_rel),
          rw (e) refl,
          record {
            outputs = l;
            rels = k;
            feeds = λ j. ground (arith, e);
            stays = λ j t. t;
            covers = λ t. t;
          },
          λ q. absurd cc,
        )
        at false e =
            let g =
              Grows-output r.out_idx full full_rel (in_range scan.table r.out_idx r.has_table)
                (r.covers e) l k in
            let m = mark_rels-Grows scan.relations g.0 full_rel (r.markable e) g.2.outputs k in
            (
              m.0,
              rw (e, r.has_output, g.1) m.1,
              record {
                outputs = m.2.outputs;
                rels = m.2.rels;
                feeds = λ j. ground (arith, m.2.feeds j, e);
                stays = λ j t. m.2.stays j (g.2.stays j t);
                covers = λ t. m.2.covers (g.2.covers t);
              },
              λ q j o.
                  let same : r.out_idx ≡ j = cc in
                  subst (λ i. marked m.0.0 i ≡ true) same (m.2.stays r.out_idx g.3),
            )

    pub mark_scans-Grows :
        (scans : List (Scan Pred)) (before : Marks)
        → All IsReadable scans
        → length before.0 ≡ n
        → length before.1 ≡ length relations
        → (after : Marks) × (mark_scans tables relations scans before ≡ some after)
          × (Grows before after (λ k. any (fills k) scans))
          × (All (FullOutput after.0) scans)
    unfolding mark_scans any
    mark_scans-Grows [] before h l k = (
      before,
      refl,
      record {
        outputs = l;
        rels = k;
        feeds = λ j. ground arith;
        stays = λ j t. t;
        covers = λ t. t;
      },
      tt,
    )
    mark_scans-Grows (scan ∷ rest) before h l k =
        let s = mark_scan-Grows scan before h.0 l k in
        let ih = mark_scans-Grows rest s.0 h.1 s.2.outputs s.2.rels in
        (
          ih.0,
          rw (s.1) ih.1,
          Grows-Grows before s.0 ih.0 _ _ s.2 ih.2,
          ((λ q j o. ih.2.stays j (s.3 q j o)), ih.3),
        )
