-- ===== src/Query/Writer/Blocks.antt =====
-- What `write_next_block` of plan/result.rs writes, and what it leaves for the next block.
use data_lib.Query.Rows.{any, filter}
use data_lib.Query.Writer.{
  Row, DataItem, header_prop, write_header, get_current_block, write_next_block,
}
use data_lib.Query.Writer.Items.{
  IsFrom, rows_of, others, advance, items_json, write_all_items-items_json, json_close-comma,
}
use data_lib.Common.{
  ℕ, ◌≤◌, ◌<◌, ◌≡◌, refl, ap, Bool, true, false, ◌||◌, some, List, [], ◌∷◌, ◌++◌, map, ◌==◌, arith,
  Bool-cases, inl, inr, append_assoc, All,
}

-- The JSON object of a block: its header, then each item that has rows in the block.
abbrev pub block_json : Row → List DataItem → List ℕ
block_json header items =
    b'{' ∷ (header_prop ++ (header.bytes ++ (items_json header.block items ++ (b'}' ∷ []))))

abbrev pub IsAscending : List Row → Type 0
IsAscending [] = Unit
IsAscending (h ∷ headers) = (All (λ r. h.block < r.block) headers) × (IsAscending headers)

unfoldable pub has_header : List Row → Row → Bool
unfolding any
has_header headers r = any (λ h. h.block == r.block) headers

-- The rows of an item are in the order of their blocks, each under a header.
abbrev pub IsCovered : List Row → DataItem → Type 0
IsCovered headers item = (IsFrom 0 item.rows) × (All (λ r. has_header headers r ≡ true) item.rows)

-- Headers are in strictly ascending order of blocks, and cover the items.
abbrev pub IsMergeable : List Row → List DataItem → Type 0
IsMergeable headers items = (IsAscending headers) × (All (IsCovered headers) items)

above_first :
    (h r : Row) (headers : List Row)
    → All (λ x. h.block < x.block) headers
    → has_header (h ∷ headers) r ≡ true
    → h.block ≤ r.block
unfolding has_header any
above_first h r [] a q = ground arith
above_first h r (x ∷ headers) a q = at _ refl (λ t. above_first h r headers a.1 t)
  where
    at :
        (b : Bool)
        → (x.block == r.block) ≡ b
        → (((h.block == r.block) || any (λ y. y.block == r.block) headers) ≡ true
            → h.block ≤ r.block)
        → h.block ≤ r.block
    at true e ih = ground (arith, a.0, e)
    at false e ih = ih (ground (arith, q, e))

IsFrom-first :
    (h : Row) (headers rows : List Row)
    → IsAscending (h ∷ headers)
    → IsFrom 0 rows
    → All (λ r. has_header (h ∷ headers) r ≡ true) rows
    → IsFrom h.block rows
IsFrom-first h headers [] a f c = tt
IsFrom-first h headers (r ∷ rows) a f c = (above_first h r headers a.0 c.0, f.1)

IsFrom-le : (n m : ℕ) (rows : List Row) → n ≤ m → IsFrom m rows → IsFrom n rows
IsFrom-le n m [] l f = tt
IsFrom-le n m (r ∷ rows) l f = (omega (arith, f.0), f.1)

IsFrom-others : (n m : ℕ) (rows : List Row) → IsFrom n rows → IsFrom n (others m rows)
unfolding filter
IsFrom-others n m [] f = tt
IsFrom-others n m (r ∷ rows) f = elim (Bool-cases (r.block == m)) [
  | inl q ↦ rw (q) (IsFrom-le n r.block (others m rows) f.0 (IsFrom-others r.block m rows f.1))
  | inr q ↦ rw (q) (f.0, IsFrom-others r.block m rows f.1)
]

covered_others :
    (h : Row) (headers rows : List Row)
    → All (λ r. has_header (h ∷ headers) r ≡ true) rows
    → All (λ r. has_header headers r ≡ true) (others h.block rows)
unfolding filter has_header any
covered_others h headers [] c = tt
covered_others h headers (r ∷ rows) c = elim (Bool-cases (r.block == h.block)) [
  | inl q ↦ rw (q) (covered_others h headers rows c.1)
  | inr q ↦ rw (q) (ground (arith, c.0, q), covered_others h headers rows c.1)
]

IsCovered-advance :
    (h : Row) (headers : List Row) (items : List DataItem)
    → All (IsCovered (h ∷ headers)) items
    → All (IsCovered headers) (map (advance h.block) items)
IsCovered-advance h headers [] c = tt
IsCovered-advance h headers (item ∷ items) c = (
  (IsFrom-others 0 h.block item.rows c.0.0, covered_others h headers item.rows c.0.1),
  IsCovered-advance h headers items c.1,
)

first-IsFrom :
    (h : Row) (headers : List Row) (items : List DataItem)
    → IsAscending (h ∷ headers)
    → All (IsCovered (h ∷ headers)) items
    → All (λ item. IsFrom h.block item.rows) items
first-IsFrom h headers [] a c = tt
first-IsFrom h headers (item ∷ items) a c =
    (IsFrom-first h headers item.rows a c.0.0 c.0.1, first-IsFrom h headers items a c.1)

-- A block takes its own rows only.
rows_of-others : (n m : ℕ) (rows : List Row) → n < m → rows_of m (others n rows) ≡ rows_of m rows
unfolding filter
rows_of-others n m [] h = refl
rows_of-others n m (r ∷ rows) h = ground (arith, rows_of-others n m rows h)

items_json-advance :
    (n m : ℕ) (items : List DataItem)
    → n < m
    → items_json m (map (advance n) items) ≡ items_json m items
items_json-advance n m [] h = refl
items_json-advance n m (item ∷ items) h =
    rw (rows_of-others n m item.rows h, items_json-advance n m items h) refl

pub block_json-advance :
    (n : ℕ) (headers : List Row) (items : List DataItem)
    → All (λ r. n < r.block) headers
    → map (λ r. block_json r (map (advance n) items)) headers
      ≡ map (λ r. block_json r items) headers
block_json-advance n [] items h = refl
block_json-advance n (r ∷ headers) items h =
    rw (items_json-advance n r.block items h.0, block_json-advance n headers items h.1) refl

pub write_next_block-block_json :
    (h : Row) (headers : List Row) (items : List DataItem) (out : List ℕ)
    → IsMergeable (h ∷ headers) items
    → write_next_block (record { header = h ∷ headers; items = items }) out
      ≡ some (
        record { header = headers; items = map (advance h.block) items },
        out ++ block_json h items,
      )
unfolding write_next_block get_current_block write_header
write_next_block-block_json h headers items out (a, c) =
    let pre = ((out ++ b'{' ∷ []) ++ header_prop) ++ h.bytes in
    rw
      (
        write_all_items-items_json h.block items pre (first-IsFrom h headers items a c),
        json_close-comma b'}' (pre ++ items_json h.block items),
      )
      (ap (λ t. some (record { header = headers; items = map (advance h.block) items }, t))
        (closed out h.bytes (items_json h.block items)))
  where
    closed :
        (out xs ys : List ℕ)
        → (((((out ++ b'{' ∷ []) ++ header_prop) ++ xs) ++ ys) ++ b'}' ∷ [])
          ≡ out ++ (b'{' ∷ (header_prop ++ (xs ++ (ys ++ (b'}' ∷ [])))))
    closed out xs ys = simp append_assoc refl

-- What the last header leaves: nothing.
pub IsCovered-nil :
    (items : List DataItem) → All (IsCovered []) items → All (λ item. item.rows ≡ []) items
IsCovered-nil [] c = tt
IsCovered-nil (item ∷ items) c = (at item.rows c.0.1, IsCovered-nil items c.1)
  where
    at : (rows : List Row) → All (λ r. has_header [] r ≡ true) rows → rows ≡ []
    at [] h = refl
    at (r ∷ rows) h = absurd (unfold has_header any in cc)

pub IsMergeable-advance :
    (h : Row) (headers : List Row) (items : List DataItem)
    → IsMergeable (h ∷ headers) items
    → IsMergeable headers (map (advance h.block) items)
IsMergeable-advance h headers items (a, c) = (a.1, IsCovered-advance h headers items c)
