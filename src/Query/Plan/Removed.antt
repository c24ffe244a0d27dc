-- ===== src/Query/Plan/Removed.antt =====
-- Relations that `remove_relations` of plan/plan.rs removes, and what the others add to an output.
use data_lib.Query.Rows.{any, contains, contains-append, remove_elements}
use data_lib.Query.Table.{Table}
use data_lib.Query.Rel.{Rel, output_table}
use data_lib.Query.Plan.{Output}
use data_lib.Query.Plan.Execute.{ChunkData, option_eq, related_output, eval_into, get_output_index}
use data_lib.Query.Plan.Simplify.{index_map}
use data_lib.Query.Plan.Marks.{marked}
use data_lib.Query.Plan.Renumber.{Moves, Relocates, remove_elements-Relocates}
use data_lib.Query.Plan.Data.{IsFaithful, eval_into-eval, eval_into-same}
use data_lib.Common.{
  ℕ, suc, ◌+◌, ◌≡◌, refl, sym, ap, ◌∙◌, subst, Bool, true, false, some, List, [], ◌∷◌, arith,
  length, get_elem?,
}

pub any-never {ℓ} :
    {A : Type ℓ} (p : A → Bool) (xs : List A) → ((x : A) → p x ≡ false) → any p xs ≡ false
unfolding any
any-never p [] h = refl
any-never p (x ∷ xs) h = ground (arith, h x, any-never p xs h)

module _ {ℓ} {A : Type ℓ} where
  -- `remove_elements` where the mask is as long as the list.
  abbrev pub removed : List A → List Bool → List A
  removed [] mask = []
  removed (x ∷ xs) [] = []
  removed (x ∷ xs) (true ∷ mask) = removed xs mask
  removed (x ∷ xs) (false ∷ mask) = x ∷ removed xs mask

  pub remove_elements-removed :
      (xs : List A) (mask : List Bool)
      → length mask ≡ length xs
      → remove_elements xs mask ≡ some (removed xs mask)
  unfolding remove_elements
  remove_elements-removed [] mask l = refl
  remove_elements-removed (x ∷ xs) [] l = absurd (omega (arith, l))
  remove_elements-removed (x ∷ xs) (true ∷ mask) l =
      rw (remove_elements-removed xs mask (omega (arith, l))) refl
  remove_elements-removed (x ∷ xs) (false ∷ mask) l =
      rw (remove_elements-removed xs mask (omega (arith, l))) refl

  pub removed-Relocates :
      (xs : List A) (mask : List Bool)
      → length mask ≡ length xs
      → Relocates 0 mask xs (removed xs mask)
  removed-Relocates xs mask l =
      let found = remove_elements-Relocates 0 xs mask l in
      let total = remove_elements-removed xs mask l in
      let same : found.0 ≡ removed xs mask = cc in subst (λ ys. Relocates 0 mask xs ys) same found.2

pub length-removed {ℓ κ} :
    {A : Type ℓ} {B : Type κ} (xs : List A) (ys : List B) (mask : List Bool)
    → length xs ≡ length ys
    → length (removed xs mask) ≡ length (removed ys mask)
length-removed [] [] mask l = refl
length-removed [] (y ∷ ys) mask l = absurd (omega (arith, l))
length-removed (x ∷ xs) [] mask l = absurd (omega (arith, l))
length-removed (x ∷ xs) (y ∷ ys) [] l = refl
length-removed (x ∷ xs) (y ∷ ys) (true ∷ mask) l = length-removed xs ys mask (omega (arith, l))
length-removed (x ∷ xs) (y ∷ ys) (false ∷ mask) l =
    ap suc (length-removed xs ys mask (omega (arith, l)))

module _ {Pred : Type 0} (chunk : ChunkData Pred) (tables : List Table)
    (faithful : IsFaithful chunk tables) (outputs : List Output) where
  -- Relations that are removed and renumbered add the same rows to an output, where the removed ones
  -- do not feed it and the inputs are the same rows.
  pub related_output-same :
      (j : ℕ) (before after : ℕ → List ℕ) (n m : ℕ) (rels : List Rel) (mask : List Bool)
      → length mask ≡ length rels
      → ((i : ℕ) (rel : Rel)
          → get_elem? rels i ≡ some rel
          → marked mask i ≡ true
          → option_eq (get_output_index outputs (output_table rel)) j ≡ false)
      → ((i k : ℕ)
          → Moves m mask i k
          → (r : ℕ) → contains r (after k) ≡ contains r (before (n + i)))
      → (r : ℕ)
      → contains r (related_output chunk outputs after j m (removed rels mask))
        ≡ contains r (related_output chunk outputs before j n rels)
  unfolding related_output marked index_map
  related_output-same j before after n m [] mask l gone same r = refl
  related_output-same j before after n m (rel ∷ rels) [] l gone same r = absurd (omega (arith, l))
  related_output-same j before after n m (rel ∷ rels) (true ∷ mask) l gone same r =
      let ih =
        related_output-same j before after (suc n) m rels mask (omega (arith, l))
          (λ i x e. gone (suc i) x e)
          (λ i k v t. same (suc i) k v t ∙ ap (λ d. contains t (before d)) (shift n i)) r in
      let none_added = eval_into-eval chunk tables faithful outputs j rel (before n) in
      ih
      ∙ sym (
          contains-append r (eval_into chunk outputs j rel (before n))
            (related_output chunk outputs before j (suc n) rels)
          ∙ rw (none_added, gone 0 rel refl refl) (unfold contains any in refl))
    where
      shift : (n i : ℕ) → n + suc i ≡ suc n + i
      shift n i = omega arith
  related_output-same j before after n m (rel ∷ rels) (false ∷ mask) l gone same r =
      let ih =
        related_output-same j before after (suc n) (suc m) rels mask (omega (arith, l))
          (λ i x e. gone (suc i) x e)
          (λ i k v t. same (suc i) k v t ∙ ap (λ d. contains t (before d)) (shift n i)) r in
      let head =
        eval_into-same chunk tables faithful outputs j rel (after m) (before n)
          (λ t. same 0 m refl t ∙ ap (λ d. contains t (before d)) (stay n)) r in
      ground (
        arith,
        ih,
        head,
        contains-append r (eval_into chunk outputs j rel (before n))
            (related_output chunk outputs before j (suc n) rels),
        contains-append r (eval_into chunk outputs j rel (after m))
            (related_output chunk outputs after j (suc m) (removed rels mask)),
      )
    where
      shift : (n i : ℕ) → n + suc i ≡ suc n + i
      shift n i = omega arith

      stay : (n : ℕ) → n + 0 ≡ n
      stay n = omega arith
