-- ===== src/Query/Writer/Items.antt =====
-- What `write_items` of plan/result.rs writes.
use data_lib.Query.Rows.{filter}
use data_lib.Query.Writer.{
  Row, DataItem, comma, json_close, write_rows, has_items, write_items, write_all_items,
}
use data_lib.Common.{
  subst, ℕ, ◌≤◌, ◌<◌, ◌≡◌, refl, sym, ap, ◌∙◌, Bool, true, false, not, some, List, [], ◌∷◌, ◌++◌,
  map, ◌==◌, arith, Bool-cases, inl, inr, append_assoc, append-nil, All, subst,
}

-- The rows of one block, and the others.
abbrev pub rows_of : ℕ → List Row → List Row
rows_of block = filter (λ r. r.block == block)

abbrev pub others : ℕ → List Row → List Row
others block = filter (λ r. not (r.block == block))

unfoldable pub join_rows : List Row → List ℕ
join_rows [] = []
join_rows (r ∷ []) = r.bytes
join_rows (r ∷ r' ∷ rows) = r.bytes ++ (comma ∷ join_rows (r' ∷ rows))

abbrev pub array_json : List ℕ → List Row → List ℕ
array_json prop [] = []
array_json prop (r ∷ rows) = comma ∷ (prop ++ (b'[' ∷ (join_rows (r ∷ rows) ++ (b']' ∷ []))))

-- The property of one item in the object of a block, with the comma before it.
abbrev pub item_json : ℕ → DataItem → List ℕ
item_json block item = array_json item.prop (rows_of block item.rows)

-- The rows are in the order of their blocks, from `n` on.
abbrev pub IsFrom : ℕ → List Row → Type 0
IsFrom n [] = Unit
IsFrom n (r ∷ rows) = (n ≤ r.block) × (IsFrom r.block rows)

pub json_close-comma :
    (end : ℕ) (out : List ℕ) → json_close end (out ++ comma ∷ []) ≡ some (out ++ end ∷ [])
unfolding json_close
json_close-comma end [] = refl
json_close-comma end (x ∷ []) = refl
json_close-comma end (x ∷ y ∷ out) = rw (json_close-comma end (y ∷ out)) refl

abbrev trail : List Row → List ℕ
trail [] = []
trail (r ∷ rows) = r.bytes ++ (comma ∷ trail rows)

trail-join_rows :
    (r : Row) (rows : List Row) → trail (r ∷ rows) ≡ join_rows (r ∷ rows) ++ comma ∷ []
unfolding join_rows
trail-join_rows r [] = refl
trail-join_rows r (r' ∷ rows) =
    ap (λ t. r.bytes ++ (comma ∷ t)) (trail-join_rows r' rows)
    ∙ sym (append_assoc r.bytes (comma ∷ join_rows (r' ∷ rows)) (comma ∷ []))

-- Past a block that comes later there is nothing of this one.
rows_of-past : (n m : ℕ) (rows : List Row) → n < m → IsFrom m rows → rows_of n rows ≡ []
unfolding filter
rows_of-past n m [] h f = refl
rows_of-past n m (r ∷ rows) h f =
    let later : n < r.block = omega (arith, f.0) in
    ground (arith, rows_of-past n r.block rows later f.1)

others-past : (n m : ℕ) (rows : List Row) → n < m → IsFrom m rows → others n rows ≡ rows
unfolding filter
others-past n m [] h f = refl
others-past n m (r ∷ rows) h f =
    let later : n < r.block = omega (arith, f.0) in
    ground (arith, others-past n r.block rows later f.1)

write_rows-trail :
    (n : ℕ) (rows : List Row) (out : List ℕ)
    → IsFrom n rows
    → write_rows n rows out ≡ (others n rows, out ++ trail (rows_of n rows))
unfolding write_rows filter
write_rows-trail n [] out f = ap (λ t. ([], t)) (sym (append-nil out))
write_rows-trail n (r ∷ rows) out f = elim (Bool-cases (r.block == n)) [
  | inl q ↦ rw (q) (at q (write_rows-trail n rows (out ++ r.bytes ++ comma ∷ [])))
  | inr q ↦
      let later : n < r.block = ground (arith, f.0) in
      rw (q, rows_of-past n r.block rows later f.1, others-past n r.block rows later f.1)
        (ap (λ t. (r ∷ rows, t)) (sym (append-nil out)))
]
  where
    at :
        (r.block == n) ≡ true
        → (IsFrom n rows
            → write_rows n rows (out ++ r.bytes ++ comma ∷ [])
              ≡ (others n rows, (out ++ r.bytes ++ comma ∷ []) ++ trail (rows_of n rows)))
        → write_rows n rows (out ++ r.bytes ++ comma ∷ [])
          ≡ (others n rows, out ++ (r.bytes ++ (comma ∷ trail (rows_of n rows))))
    at q ih =
        let here : r.block ≡ n = ground arith in
        ih (subst (λ t. IsFrom t rows) here f.1)
        ∙ ap (λ t. (others n rows, t))
            (append_assoc (out ++ r.bytes) (comma ∷ []) (trail (rows_of n rows))
              ∙ append_assoc out r.bytes (comma ∷ trail (rows_of n rows)))

has_items-rows_of :
    (n : ℕ) (rows : List Row)
    → IsFrom n rows
    → has_items n rows ≡ false
    → (rows_of n rows ≡ []) × (others n rows ≡ rows)
unfolding has_items filter
has_items-rows_of n [] f h = (refl, refl)
has_items-rows_of n (r ∷ rows) f h =
    let later : n < r.block = ground (arith, f.0, h) in
    rw (h) (
      rows_of-past n r.block rows later f.1,
      ap (λ t. r ∷ t) (others-past n r.block rows later f.1),
    )

has_items-present : (n : ℕ) (rows : List Row) → has_items n rows ≡ true → rows_of n rows ≡ [] → ⊥
unfolding has_items filter
has_items-present n [] h g = cc
has_items-present n (r ∷ rows) h g = let t = rw (h) at g in cc

-- What is left of an item after a block.
abbrev pub advance : ℕ → DataItem → DataItem
advance n item = record item { rows = others n item.rows }

bracketed :
    (xs prop ys : List ℕ)
    → (((xs ++ comma ∷ []) ++ prop ++ b'[' ∷ []) ++ ys) ++ b']' ∷ []
      ≡ xs ++ (comma ∷ (prop ++ (b'[' ∷ (ys ++ (b']' ∷ [])))))
bracketed xs prop ys = simp append_assoc refl

-- The bytes before end in a comma, and so do the bytes after.
pub write_items-item_json :
    (n : ℕ) (item : DataItem) (pre : List ℕ)
    → IsFrom n item.rows
    → write_items n item (pre ++ comma ∷ [])
      ≡ some (advance n item, (pre ++ item_json n item) ++ comma ∷ [])
unfolding write_items
write_items-item_json n item pre f = at _ refl _ refl
  where
    at :
        (b : Bool)
        → has_items n item.rows ≡ b
        → (mine : List Row) → rows_of n item.rows ≡ mine
        → write_items n item (pre ++ comma ∷ [])
          ≡ some (advance n item, (pre ++ array_json item.prop (rows_of n item.rows)) ++ comma ∷ [])
    at false e mine g =
        let none_left = has_items-rows_of n item.rows f e in
        rw (e, none_left.0, none_left.1)
          (ap (λ t. some (item, t ++ comma ∷ [])) (sym (append-nil pre)))
    at true e [] g = absurd (has_items-present n item.rows e g)
    at true e (r ∷ mine) g =
        let out = (pre ++ comma ∷ []) ++ item.prop ++ b'[' ∷ [] in
        let written = write_rows-trail n item.rows out f in
        rw
          (
            e,
            written,
            g,
            trail-join_rows r mine,
            sym (append_assoc out (join_rows (r ∷ mine)) (comma ∷ [])),
            json_close-comma b']' (out ++ join_rows (r ∷ mine)),
          )
          (ap (λ t. some (advance n item, t ++ comma ∷ []))
            (bracketed pre item.prop (join_rows (r ∷ mine))))

-- The properties of all items.
abbrev pub items_json : ℕ → List DataItem → List ℕ
items_json n [] = []
items_json n (item ∷ items) = item_json n item ++ items_json n items

pub write_all_items-items_json :
    (n : ℕ) (items : List DataItem) (pre : List ℕ)
    → All (λ item. IsFrom n item.rows) items
    → write_all_items n items (pre ++ comma ∷ [])
      ≡ some (map (advance n) items, (pre ++ items_json n items) ++ comma ∷ [])
unfolding write_all_items
write_all_items-items_json n [] pre f = ap (λ t. some ([], t ++ comma ∷ [])) (sym (append-nil pre))
write_all_items-items_json n (item ∷ items) pre f =
    rw
      (
        write_items-item_json n item pre f.0,
        write_all_items-items_json n items (pre ++ item_json n item) f.1,
      )
      (ap (λ t. some (map (advance n) (item ∷ items), t ++ comma ∷ []))
        (append_assoc pre (item_json n item) (items_json n items)))
