-- ===== src/Query/Plan/Projection.antt =====
-- `set_projection` of plan/plan.rs: what it does to a plan that is consistent.
use data_lib.Query.Panics.{>>=-eq-some}
use data_lib.Query.Table.{get_index}
use data_lib.Query.Plan.{Output, Builder, update_at, set_projection}
use data_lib.Query.Plan.Refill.{IsDistinct}
use data_lib.Query.Plan.Consistent.{IsConsistent}
use data_lib.Common.{
  ◌↔◌, ℕ, zero, suc, ◌≡◌, refl, sym, ap, ◌∙◌, subst, String, false, some, List, [], ◌∷◌, map, ◌↔◌,
  str_eq, All,
}

map-update_at :
    (f : Output → Output) (i : ℕ) (xs ys : List Output)
    → ((o : Output) → (f o).table ≡ o.table)
    → update_at f i xs ≡ some ys
    → map (λ o. o.table) ys ≡ map (λ o. o.table) xs
unfolding update_at
map-update_at f i [] ys h e = absurd cc
map-update_at f zero (x ∷ xs) ys h e =
    let t : f x ∷ xs ≡ ys = cc in
    subst (λ ys. map (λ o. o.table) ys ≡ map (λ o. o.table) (x ∷ xs)) t
      (ap (λ n. n ∷ map (λ o. o.table) xs) (h x))
map-update_at f (suc i) (x ∷ xs) ys h e =
    let found = >>=-eq-some (update_at f i xs) _ e in
    let t : x ∷ found.0 ≡ ys = cc in
    subst (λ ys. map (λ o. o.table) ys ≡ map (λ o. o.table) (x ∷ xs)) t
      (ap (λ n. x.table ∷ n) (map-update_at f i xs found.0 h found.1))

-- Whether outputs are of distinct tables is a matter of their names.
abbrev pub AreDistinct : List String → Type 0
AreDistinct [] = Unit
AreDistinct (n ∷ ns) = (All (λ m. str_eq n m ≡ false) ns) × (AreDistinct ns)

All-names :
    (n : String) (xs : List Output)
    → (All (λ (o : Output). str_eq n o.table ≡ false) xs)
      ↔ (All (λ m. str_eq n m ≡ false) (map (λ o. o.table) xs))
All-names n [] = (λ h. h, λ h. h)
All-names n (x ∷ xs) = (λ h. (h.0, (All-names n xs).0 h.1), λ h. (h.0, (All-names n xs).1 h.1))

pub IsDistinct-names : (xs : List Output) → (IsDistinct xs) ↔ (AreDistinct (map (λ o. o.table) xs))
IsDistinct-names [] = (λ h. h, λ h. h)
IsDistinct-names (x ∷ xs) = (
  λ h. ((All-names x.table xs).0 h.0, (IsDistinct-names xs).0 h.1),
  λ h. ((All-names x.table xs).1 h.0, (IsDistinct-names xs).1 h.1),
)

pub set_projection-IsConsistent :
    {Pred : Type 0} (b b' : Builder Pred) (table : String) (exp : List String)
    → IsConsistent b
    → set_projection table exp b ≡ some b'
    → IsConsistent b'
unfolding set_projection
set_projection-IsConsistent b b' table exp w e =
    let first = >>=-eq-some (get_index b.tables table) _ e in
    let set = λ (o : Output). record o { exp = exp } in
    let second = >>=-eq-some (update_at set first.0 b.outputs) _ first.2 in
    let names = map-update_at set first.0 b.outputs second.0 (λ o. refl) second.1 in
    let same : record b { outputs = second.0 } ≡ b' = cc in
    subst IsConsistent same (record {
      same_tables = names ∙ w.same_tables;
      distinct =
          (IsDistinct-names second.0).1
            (subst AreDistinct (sym names) ((IsDistinct-names b.outputs).0 w.distinct));
      scans = w.scans;
    })
