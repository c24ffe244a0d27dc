-- ===== src/Query/Plan/Attach.antt =====
-- `ScanBuilder` and `add_scan` of plan/plan.rs: what they do to a plan that is consistent.
use data_lib.Query.Panics.{>>=-eq-some}
use data_lib.Query.Rows.{position}
use data_lib.Query.Table.{get_index}
use data_lib.Query.Rel.{
  Rel, join, foreign_children, foreign_parents, children, parents, input_table,
}
use data_lib.Query.Plan.{
  Scan, Builder, rel_eq, update_at, add_scan, add_rel, with_predicate, with_no_output, attach,
}
use data_lib.Query.Plan.Retain.{ReadsTable}
use data_lib.Query.Plan.Consistent.{IsConsistent, IsConsistentScan}
use data_lib.Query.Plan.Marks.{position-get_elem?}
use data_lib.Common.{
  ℕ, zero, suc, ◌≡◌, refl, sym, ap, ◌∙◌, subst, String, true, Option, none, some, List, [], ◌∷◌,
  ◌++◌, arith, eq_iff, length, get_elem?, All, All-append, inl, inr,
}

-- A relation that is found again reads the same table.
rel_eq-input_table : (a b : Rel) → rel_eq a b ≡ true → input_table a ≡ input_table b
unfolding rel_eq input_table
rel_eq-input_table (join it ik ot ok) (join it' ik' ot' ok') h =
    (eq_iff it it').0 (ground (arith, h))
rel_eq-input_table (foreign_children it ik ot ok) (foreign_children it' ik' ot' ok') h =
    (eq_iff it it').0 (ground (arith, h))
rel_eq-input_table (foreign_parents it ik ot ok) (foreign_parents it' ik' ot' ok') h =
    (eq_iff it it').0 (ground (arith, h))
rel_eq-input_table (children t k) (children t' k') h = (eq_iff t t').0 (ground (arith, h))
rel_eq-input_table (parents t k) (parents t' k') h = (eq_iff t t').0 (ground (arith, h))
rel_eq-input_table a b h = absurd (ground (arith, h))

get_elem?-append_left {ℓ} :
    {A : Type ℓ} (xs ys : List A) (i : ℕ) (x : A)
    → get_elem? xs i ≡ some x
    → get_elem? (xs ++ ys) i ≡ some x
get_elem?-append_left [] ys i x h = absurd cc
get_elem?-append_left (y ∷ xs) ys zero x h = h
get_elem?-append_left (y ∷ xs) ys (suc i) x h = get_elem?-append_left xs ys i x h

get_elem?-append_last {ℓ} :
    {A : Type ℓ} (xs : List A) (x : A) → get_elem? (xs ++ x ∷ []) (length xs) ≡ some x
get_elem?-append_last [] x = refl
get_elem?-append_last (y ∷ xs) x = get_elem?-append_last xs x

-- The relation is at the index that `add_rel` returns, and the others stay where they are.
abbrev AddsRel : Rel → List Rel → ℕ × List Rel → Type 0
AddsRel rel rels (idx, rels') =
    (ReadsTable rels' (input_table rel) idx)
    × ((i : ℕ) (x : Rel) → get_elem? rels i ≡ some x → get_elem? rels' i ≡ some x)

add_rel-elim {ℓ} :
    (P : ℕ × List Rel → Type ℓ) (rel : Rel) (rels : List Rel)
    → ((i : ℕ) → position (λ r. rel_eq r rel) rels ≡ some i → P (i, rels))
    → P (length rels, rels ++ rel ∷ [])
    → P (add_rel rel rels)
unfolding add_rel
add_rel-elim P rel rels found new = at _ refl
  where
    at : (o : Option ℕ) → position (λ r. rel_eq r rel) rels ≡ o → P (add_rel rel rels)
    at none e =
        let t : add_rel rel rels ≡ (length rels, rels ++ rel ∷ []) = rw (add_rel, e) refl in
        subst P (sym t) new
    at (some i) e =
        let t : add_rel rel rels ≡ (i, rels) = rw (add_rel, e) refl in subst P (sym t) (found i e)

add_rel-AddsRel : (rel : Rel) (rels : List Rel) → AddsRel rel rels (add_rel rel rels)
add_rel-AddsRel rel rels =
    add_rel-elim (AddsRel rel rels) rel rels
      (λ i e.
        let found = position-get_elem? (λ r. rel_eq r rel) rels i e in
        ((found.0, found.1, rel_eq-input_table found.0 rel found.2), λ i x h. h))
      (
        (rel, get_elem?-append_last rels rel, refl),
        λ i x h. get_elem?-append_left rels (rel ∷ []) i x h,
      )

-- `vec[i] = f(vec[i])` keeps what holds of all elements and of the new one.
All-update_at {ℓ κ} :
    {A : Type ℓ} (P Q : A → Type κ) (f : A → A) (i : ℕ) (xs ys : List A)
    → update_at f i xs ≡ some ys
    → All P xs
    → ((x : A) → P x → Q x)
    → ((x : A) → get_elem? xs i ≡ some x → P x → Q (f x))
    → All Q ys
unfolding update_at
All-update_at P Q f i [] ys e h keep new = absurd cc
All-update_at {A = A} P Q f zero (x ∷ xs) ys e h keep new =
    let t : f x ∷ xs ≡ ys = cc in subst (All Q) t (new x refl h.0, all xs h.1)
  where
    all : (zs : List A) → All P zs → All Q zs
    all [] h = tt
    all (z ∷ zs) h = (keep z h.0, all zs h.1)
All-update_at P Q f (suc i) (x ∷ xs) ys e h keep new =
    let found = >>=-eq-some (update_at f i xs) _ e in
    let t : x ∷ found.0 ≡ ys = cc in
    subst (All Q) t (keep x h.0, All-update_at P Q f i xs found.0 found.1 h.1 keep new)

ReadsTable-grow :
    (rels rels' : List Rel) (table : String) (is : List ℕ)
    → ((i : ℕ) (x : Rel) → get_elem? rels i ≡ some x → get_elem? rels' i ≡ some x)
    → All (ReadsTable rels table) is
    → All (ReadsTable rels' table) is
ReadsTable-grow rels rels' table [] grow h = tt
ReadsTable-grow rels rels' table (i ∷ is) grow h =
    ((h.0.0, grow i h.0.0 h.0.1, h.0.2), ReadsTable-grow rels rels' table is grow h.1)

All-get_elem? {ℓ κ} :
    {A : Type ℓ} (P : A → Type κ) (xs : List A) (i : ℕ) (x : A)
    → get_elem? xs i ≡ some x
    → All P xs
    → P x
All-get_elem? P [] i x e h = absurd cc
All-get_elem? P (y ∷ xs) zero x e h = let t : y ≡ x = cc in subst P t h.0
All-get_elem? P (y ∷ xs) (suc i) x e h = All-get_elem? P xs i x e h.1

module _ {Pred : Type 0} where
  pub attach-IsConsistent :
      (b b' : Builder Pred) (scan_idx : ℕ) (make : String → Option Rel)
      → IsConsistent b
      → ((table : String) (rel : Rel) → make table ≡ some rel → input_table rel ≡ table)
      → attach scan_idx make b ≡ some b'
      → IsConsistent b'
  unfolding attach
  attach-IsConsistent b b' scan_idx make w made e =
      let first = >>=-eq-some (get_elem? b.scans scan_idx) _ e in
      let scan = first.0 in
      let second = >>=-eq-some (make scan.table) _ first.2 in
      let rel = second.0 in
      let third =
        >>=-eq-some
          (update_at
            (λ (s : Scan Pred). record s {
              relations = s.relations ++ (add_rel rel b.relations).0 ∷ [];
            })
            scan_idx b.scans)
          _ second.2 in
      let reads = made scan.table rel second.1 in
      let adds = add_rel-AddsRel rel b.relations in
      let rels = (add_rel rel b.relations).1 in
      let after = record b { scans = third.0; relations = rels } in
      let same : after ≡ b' = cc in
      subst IsConsistent same (record {
        same_tables = w.same_tables;
        distinct = w.distinct;
        scans =
            All-update_at (IsConsistentScan b) (IsConsistentScan after)
              (λ (s : Scan Pred). record s {
                relations = s.relations ++ (add_rel rel b.relations).0 ∷ [];
              })
              scan_idx b.scans third.0 third.1 w.scans
              (λ s h. (h.0, ReadsTable-grow b.relations rels s.table s.relations adds.1 h.1))
              (λ s f h.
                let here : scan ≡ s = cc in
                let at = reads ∙ ap (λ (s : Scan Pred). s.table) here in
                (
                  h.0,
                  All-append (ReadsTable rels s.table) s.relations
                      ((add_rel rel b.relations).0 ∷ [])
                      (ReadsTable-grow b.relations rels s.table s.relations adds.1 h.1)
                      ((adds.0.0, adds.0.1, adds.0.2 ∙ at), tt),
                ));
      })

  -- A scan that gets a predicate.
  pub with_predicate-IsConsistent :
      (b b' : Builder Pred) (scan_idx : ℕ) (predicate : Pred)
      → IsConsistent b
      → with_predicate scan_idx predicate b ≡ some b'
      → IsConsistent b'
  unfolding with_predicate
  with_predicate-IsConsistent b b' scan_idx predicate w e =
      let set = λ (s : Scan Pred). record s { predicate = some predicate } in
      let found = >>=-eq-some (update_at set scan_idx b.scans) _ e in
      let same : record b { scans = found.0 } ≡ b' = cc in
      subst IsConsistent same (record {
        same_tables = w.same_tables;
        distinct = w.distinct;
        scans =
            All-update_at (IsConsistentScan b) (IsConsistentScan b) set scan_idx b.scans found.0
              found.1 w.scans (λ s h. h) (λ s f h. h);
      })

  -- A scan that loses its output.
  pub with_no_output-IsConsistent :
      (b b' : Builder Pred) (scan_idx : ℕ)
      → IsConsistent b
      → with_no_output scan_idx b ≡ some b'
      → IsConsistent b'
  unfolding with_no_output
  with_no_output-IsConsistent b b' scan_idx w e =
      let drop = λ (s : Scan Pred). record s { output = none } in
      let found = >>=-eq-some (update_at drop scan_idx b.scans) _ e in
      let same : record b { scans = found.0 } ≡ b' = cc in
      subst IsConsistent same (record {
        same_tables = w.same_tables;
        distinct = w.distinct;
        scans =
            All-update_at (IsConsistentScan b) (IsConsistentScan b) drop scan_idx b.scans found.0
              found.1 w.scans (λ s h. h) (λ s f h. ((h.0.0, h.0.1, inr refl), h.1));
      })

  -- A new scan feeds the output of its table, and no relation.
  pub add_scan-IsConsistent :
      (b b' : Builder Pred) (table : String)
      → IsConsistent b
      → add_scan table b ≡ some b'
      → IsConsistent b'
  unfolding add_scan
  add_scan-IsConsistent b b' table w e =
      let found = >>=-eq-some (get_index b.tables table) _ e in
      let scan : Scan Pred = record {
        table = table;
        predicate = none;
        relations = [];
        output = some found.0;
      } in
      let same : record b { scans = b.scans ++ scan ∷ [] } ≡ b' = cc in
      subst IsConsistent same (record {
        same_tables = w.same_tables;
        distinct = w.distinct;
        scans =
            All-append (IsConsistentScan b) b.scans (scan ∷ []) w.scans
              (((found.0, found.1, inl refl), tt), tt);
      })
