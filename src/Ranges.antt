-- ===== src/Ranges.antt =====
-- `RangeList` of crates/primitives/src/range/mod.rs and the merges of range/arith.rs: sorted lists of
-- half-open ranges. `none` stands for a panic; an iterator is the list of the items that it yields.
pub mod Cover
pub mod Build
use data_lib.Common.{
  ◌^◌, ◌%◌, ℕ, zero, suc, ◌+◌, ◌-◌, ◌≤◌, ◌<◌, ◌≡◌, ◌≢◌, ◌↔◌, ◌⊎◌, inl, inr, refl, sym, ap, subst,
  ◌∙◌, String, Bool, true, false, not, ◌&&◌, ◌||◌, Option, none, some, List, [], ◌∷◌, ◌++◌, map,
  reverse, arith, ltb, leb, ◌==◌, str_eq, eq_iff, if◌then◌else◌, Result, ok, err, ensure, ◌>>=◌,
  ◌>>◌, >>=-eq-ok, All, All-append, Bool-cases, Option-cases, min, max, length, get_elem?,
  append_assoc, append-nil,
}

pub record Range : Type 0 where
  pub start : ℕ
  pub end : ℕ

pub data RangeError : Type 0 where
  empty_range unordered_or_overlapping : RangeError

abbrev pub push : Range → Option (List Range) → Option (List Range)
push r none = none
push r (some rs) = some (r ∷ rs)

-- `head` is the item that `next` took from the list.
unfoldable pub seal_from : Range → List Range → Option (List Range)
seal_from head [] = some (head ∷ [])
seal_from head (next ∷ rest) =
    if ltb head.end next.start
    then push head (seal_from next rest)
    else if head.end == next.start
    then seal_from (record next { start = head.start }) rest
    else none

unfoldable pub seal : List Range → Option (List Range)
unfolding seal_from
seal [] = some []
seal (head ∷ rest) = seal_from head rest

unfoldable pub any_empty : List Range → Bool
any_empty [] = false
any_empty (r ∷ rs) = if ltb r.start r.end then any_empty rs else true

unfoldable pub any_overlap : List Range → Bool
any_overlap [] = false
any_overlap (prev ∷ []) = false
any_overlap (prev ∷ current ∷ rest) = ltb current.start prev.end || any_overlap (current ∷ rest)

unfoldable pub try_from : List Range → Result RangeError (List Range)
unfolding any_empty any_overlap
try_from ranges =
    if any_empty ranges
    then err empty_range
    else if any_overlap ranges
    then err unordered_or_overlapping
    else ok ranges

abbrev pub keep : Range → List Range → List Range
keep r rs = if ltb r.start r.end then r ∷ rs else rs

-- Each pass takes the range that ends first, or both; the piece that the two share is yielded, unless
-- it is empty.
unfoldable pub intersection : List Range → List Range → List Range
intersection [] ys = []
intersection (a ∷ xs) [] = []
intersection (a ∷ xs) (b ∷ ys) =
    let left = intersection xs (b ∷ ys) in
    let both = intersection xs ys in
    let right = intersection (a ∷ xs) ys in
    let start = max a.start b.start in
    if ltb a.end b.end
    then keep (record { start = start; end = a.end }) left
    else if a.end == b.end
    then keep (record { start = start; end = a.end }) both
    else keep (record { start = start; end = b.end }) right

-- `start..end` of one pass of `union`, and the heads that it leaves when the other list's head ends
-- first.
abbrev pub overlap : Range → Range → Range
overlap a b = record { start = min a.start b.start; end = min a.end b.end }

abbrev pub cut_first : Range → Range → Range
cut_first a b = if ltb a.start b.end then record { start = b.end; end = a.end } else a

abbrev pub cut_second : Range → Range → Range
cut_second a b = record { start = a.end; end = b.end }

-- The pieces that `union` seals; the heads of both lists are carried, since their starts move.
unfoldable pub union_pieces : Range → List Range → Range → List Range → List Range
union_pieces a [] b [] =
    overlap a b
    ∷ (if ltb a.end b.end
        then cut_second a b ∷ []
        else if a.end == b.end
        then []
        else cut_first a b ∷ [])
union_pieces a [] b (b' ∷ ys) =
    let right = union_pieces (cut_first a b) [] b' ys in
    overlap a b
    ∷ (if ltb a.end b.end
        then cut_second a b ∷ b' ∷ ys
        else if a.end == b.end
        then b' ∷ ys
        else right)
union_pieces a (a' ∷ xs) b [] =
    let left = union_pieces a' xs (cut_second a b) [] in
    overlap a b
    ∷ (if ltb a.end b.end
        then left
        else if a.end == b.end
        then a' ∷ xs
        else cut_first a b ∷ a' ∷ xs)
union_pieces a (a' ∷ xs) b (b' ∷ ys) =
    let left = union_pieces a' xs (cut_second a b) (b' ∷ ys) in
    let both = union_pieces a' xs b' ys in
    let right = union_pieces (cut_first a b) (a' ∷ xs) b' ys in
    overlap a b ∷ (if ltb a.end b.end then left else if a.end == b.end then both else right)

unfoldable pub union : List Range → List Range → Option (List Range)
unfolding union_pieces seal
union [] ys = seal ys
union (a ∷ xs) [] = seal (a ∷ xs)
union (a ∷ xs) (b ∷ ys) = seal (union_pieces a xs b ys)

-- `idx + 1` on an `ItemIndex`, a number of 32 bits, in a build without overflow checks.
unfoldable pub next_index : ℕ → ℕ
next_index idx = (idx + 1) % 2 ^ 32

-- The outcome of one comparison with the running range.
unfoldable pub index_ranges : ℕ → ℕ → List ℕ → Option (List Range)
unfolding next_index
index_ranges beg end [] = some (record { start = beg; end = end } ∷ [])
index_ranges beg end (idx ∷ rest) =
    if ltb end idx
    then push (record { start = beg; end = end }) (index_ranges idx (next_index idx) rest)
    else if end == idx
    then index_ranges beg (next_index idx) rest
    else none

unfoldable pub from_sorted_indexes : List ℕ → Option (List Range)
unfolding index_ranges next_index
from_sorted_indexes [] = some []
from_sorted_indexes (idx ∷ rest) = index_ranges idx (next_index idx) rest
