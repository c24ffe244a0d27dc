-- ===== src/Storage/Kv.antt =====
-- What crates/storage relies on of RocksDB: a column family is an ordered map, iterated in key
-- order, with point writes and point deletes. The library itself is not part of the repository, so
-- a column family is a parameter with those laws; `list_cf` shows that they can be met.
use data_lib.Common.{
  ℕ, ◌≤◌, ◌<◌, ◌≡◌, refl, List, [], ◌∷◌, ◌++◌, arith, ltb, ◌==◌, if◌then◌else◌, All,
}

module _ {V : Type 0} where
  -- A point write: the entry stands at its place in the key order, and replaces an older one.
  abbrev pub upsert : ℕ → V → List (ℕ × V) → List (ℕ × V)
  upsert k v [] = (k, v) ∷ []
  upsert k v ((j, w) ∷ m) =
      if ltb j k then (j, w) ∷ upsert k v m else (k, v) ∷ (if j == k then m else (j, w) ∷ m)

  abbrev pub remove : ℕ → List (ℕ × V) → List (ℕ × V)
  remove k [] = []
  remove k ((j, w) ∷ m) = if j == k then remove k m else (j, w) ∷ remove k m

  -- Every key is below the bound.
  abbrev pub Below : ℕ → List (ℕ × V) → Type 0
  Below k = All (λ e. e.0 < k)

  pub Below-mono : (m : List (ℕ × V)) (j k : ℕ) → j ≤ k → Below j m → Below k m
  Below-mono [] j k h b = tt
  Below-mono (e ∷ m) j k h b = (omega arith, Below-mono m j k h b.1)

  pub upsert_above :
      (k : ℕ) (v : V) (m : List (ℕ × V)) → Below k m → upsert k v m ≡ m ++ (k, v) ∷ []
  upsert_above k v [] b = refl
  upsert_above k v ((j, w) ∷ m) b = ground (arith, upsert_above k v m b.1)

  pub remove_above : (k : ℕ) (m : List (ℕ × V)) → Below k m → remove k m ≡ m
  remove_above k [] b = refl
  remove_above k ((j, w) ∷ m) b = ground (arith, remove_above k m b.1)

  pub remove_last : (k : ℕ) (v : V) (m : List (ℕ × V)) → Below k m → remove k (m ++ (k, v) ∷ []) ≡ m
  remove_last k v [] b = ground arith
  remove_last k v ((j, w) ∷ m) b = ground (arith, remove_last k v m b.1)

  -- Every key is above the bound.
  abbrev pub Above : ℕ → List (ℕ × V) → Type 0
  Above k = All (λ e. k < e.0)

  pub Above-mono : (m : List (ℕ × V)) (j k : ℕ) → j ≤ k → Above k m → Above j m
  Above-mono [] j k h b = tt
  Above-mono (e ∷ m) j k h b = (omega arith, Above-mono m j k h b.1)

  pub remove_below : (k : ℕ) (m : List (ℕ × V)) → Above k m → remove k m ≡ m
  remove_below k [] b = refl
  remove_below k ((j, w) ∷ m) b = ground (arith, remove_below k m b.1)

  pub remove_first :
      (k j : ℕ) (v : V) (m : List (ℕ × V)) → j ≡ k → Above k m → remove k ((j, v) ∷ m) ≡ m
  remove_first k j v m e b = ground (arith, remove_below k m b)

pub record ColumnFamily (V : Type 0) : Type 1 where
  pub Store : Type 0
  pub entries : Store → List (ℕ × V)
  pub put : ℕ → V → Store → Store
  pub delete : ℕ → Store → Store
  pub entries-put : (k : ℕ) (v : V) (s : Store) → entries (put k v s) ≡ upsert k v (entries s)
  pub entries-delete : (k : ℕ) (s : Store) → entries (delete k s) ≡ remove k (entries s)

abbrev pub list_cf : (V : Type 0) → ColumnFamily V
list_cf V = record {
  Store = List (ℕ × V);
  entries = λ s. s;
  put = upsert;
  delete = remove;
  entries-put = λ k v s. refl;
  entries-delete = λ k s. refl;
}
