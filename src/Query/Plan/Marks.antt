-- ===== src/Query/Plan/Marks.antt =====
-- The first pass of `simplify` of plan/plan.rs: what `is_full` and `is_full_rel` hold after it.
use data_lib.Query.Panics.{◌>>=◌}
use data_lib.Query.Rows.{contains, position}
use data_lib.Query.Table.{get_entry, Table, get_index, get_table}
use data_lib.Query.Rel.{
  Rel, input_table, join, foreign_children, foreign_parents, children, parents,
}
use data_lib.Query.Plan.{Scan, update_at, names_eq}
use data_lib.Query.Plan.Simplify.{is_some, all_false, is_full_rel, same_key}
use data_lib.Common.{
  ℕ, zero, suc, ◌<◌, ◌≡◌, refl, ap, Bool, true, false, not, ◌&&◌, ◌||◌, Option, none, some, List,
  [], ◌∷◌, arith, ◌==◌, str_eq, if◌then◌else◌, length, get_elem?,
}

unfoldable pub marked : List Bool → ℕ → Bool
marked [] j = false
marked (b ∷ m) zero = b
marked (b ∷ m) (suc j) = marked m j

pub marked-all_false {ℓ} : {A : Type ℓ} (xs : List A) (j : ℕ) → marked (all_false xs) j ≡ false
unfolding marked all_false
marked-all_false [] j = refl
marked-all_false (x ∷ xs) zero = refl
marked-all_false (x ∷ xs) (suc j) = marked-all_false xs j

pub length-all_false {ℓ} : {A : Type ℓ} (xs : List A) → length (all_false xs) ≡ length xs
unfolding all_false
length-all_false [] = refl
length-all_false (x ∷ xs) = ap suc (length-all_false xs)

pub get_elem?-marked : (m : List Bool) (j : ℕ) → j < length m → get_elem? m j ≡ some (marked m j)
unfolding marked
get_elem?-marked [] j h = absurd (omega arith)
get_elem?-marked (b ∷ m) zero h = refl
get_elem?-marked (b ∷ m) (suc j) h = get_elem?-marked m j (omega arith)

pub get_elem?-length {ℓ} :
    {A : Type ℓ} (xs : List A) (i : ℕ) (x : A) → get_elem? xs i ≡ some x → i < length xs
get_elem?-length [] i x h = absurd cc
get_elem?-length (y ∷ xs) zero x h = omega arith
get_elem?-length (y ∷ xs) (suc i) x h = omega (arith, get_elem?-length xs i x h)

pub get_elem?-absent {ℓ} :
    {A : Type ℓ} (xs : List A) (i : ℕ) → i < length xs → get_elem? xs i ≡ none → ⊥
get_elem?-absent [] i l q = absurd (omega arith)
get_elem?-absent (x ∷ xs) zero l q = absurd cc
get_elem?-absent (x ∷ xs) (suc i) l q = get_elem?-absent xs i (omega arith) q

pub position-get_elem? {ℓ} :
    {A : Type ℓ} (p : A → Bool) (xs : List A) (j : ℕ)
    → position p xs ≡ some j
    → (x : A) × (get_elem? xs j ≡ some x) × (p x ≡ true)
unfolding position
position-get_elem? p [] j h = absurd cc
position-get_elem? {A = A} p (x ∷ xs) j h = at _ refl j h _ refl (position-get_elem? p xs)
  where
    at :
        (r : Option ℕ)
        → position p xs ≡ r
        → (j : ℕ) → (if p x then some 0 else r >>= λ i. some (suc i)) ≡ some j
        → (b : Bool) → p x ≡ b
        → ((i : ℕ) → position p xs ≡ some i → (y : A) × (get_elem? xs i ≡ some y) × (p y ≡ true))
        → (y : A) × (get_elem? (x ∷ xs) j ≡ some y) × (p y ≡ true)
    at r e zero h true f ih = (x, refl, f)
    at r e (suc j) h true f ih = absurd (ground arith)
    at none e j h false f ih = absurd (ground arith)
    at (some i) e zero h false f ih = absurd (ground arith)
    at (some i) e (suc j) h false f ih = ih j (ground arith)

-- A mark that is set.
pub mark_at :
    (i : ℕ) (m : List Bool)
    → i < length m
    → (m' : List Bool) × (update_at (λ b. true) i m ≡ some m')
      × (length m' ≡ length m)
      × ((j : ℕ) → marked m' j ≡ marked m j || (i == j))
unfolding update_at marked
mark_at i [] h = absurd (omega arith)
mark_at zero (b ∷ m) h = (true ∷ m, refl, refl, at)
  where
    at : (j : ℕ) → marked (true ∷ m) j ≡ marked (b ∷ m) j || (0 == j)
    at zero = ground arith
    at (suc j) = ground arith
mark_at (suc i) (b ∷ m) h =
    let ih = mark_at i m (omega arith) in (b ∷ ih.0, rw (ih.1) refl, ap suc ih.2, at ih.0 ih.3)
  where
    at :
        (m' : List Bool)
        → ((j : ℕ) → marked m' j ≡ marked m j || (i == j))
        → (j : ℕ) → marked (b ∷ m') j ≡ marked (b ∷ m) j || (suc i == j)
    at m' k zero = ground arith
    at m' k (suc j) = ground (arith, k j)

pub is_full_rel-total :
    (tables : List Table) (rel : Rel) (j : ℕ)
    → get_index tables (input_table rel) ≡ some j
    → (full : Bool) × (is_full_rel tables rel ≡ some full)
unfolding is_full_rel get_table get_index input_table
is_full_rel-total tables (join it ik ot ok) j h =
    let found = position-get_elem? (λ t. str_eq t.name it) tables j h in
    (
      names_eq ik found.0.primary_key && same_key (get_entry found.0.children ot) ok,
      rw (h, found.1) refl,
    )
is_full_rel-total tables (children table key) j h = (true, refl)
is_full_rel-total tables (parents table key) j h = (true, refl)
is_full_rel-total tables (foreign_children it ik ot ok) j h = (false, refl)
is_full_rel-total tables (foreign_parents it ik ot ok) j h = (false, refl)

module _ {Pred : Type 0} where
  -- The relations that a scan without a predicate feeds.
  unfoldable pub fills : ℕ → Scan Pred → Bool
  fills k scan = not (is_some scan.predicate) && contains k scan.relations

  abbrev pub FullOutput : List Bool → Scan Pred → Type 0
  FullOutput full scan =
      is_some scan.predicate ≡ false → (j : ℕ) → scan.output ≡ some j → marked full j ≡ true
