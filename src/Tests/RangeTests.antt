-- ===== src/Tests/RangeTests.antt =====
-- The theorems on range lists at small lists.
use data_lib.Common.{ℕ, ◌≡◌, ◌↔◌, some, List, [], ◌∷◌, arith}
use data_lib.Ranges.{Range, intersection, from_sorted_indexes}
use data_lib.Ranges.Cover.{Covers, IsRangeList, intersection-Covers}
use data_lib.Ranges.Build.{In, from_sorted_indexes-Covers}

abbrev range : ℕ → ℕ → Range
range start end = record { start = start; end = end }

abbrev wide : List Range
wide = range 0 4 ∷ range 6 9 ∷ []

abbrev narrow : List Range
narrow = range 2 7 ∷ []

intersection-Covers_example :
    Covers 6 (intersection wide narrow) ↔ (Covers 6 wide × Covers 6 narrow)
intersection-Covers_example =
    intersection-Covers 6 0 0 wide narrow (omega arith, omega arith, (omega arith, omega arith, tt))
      (omega arith, omega arith, tt)

abbrev indexes : List ℕ
indexes = 1 ∷ 2 ∷ 5 ∷ []

from_sorted_indexes-Covers_example :
    (rs : List Range) × (from_sorted_indexes indexes ≡ some rs)
    × IsRangeList rs
    × ((n : ℕ) → Covers n rs ↔ In n indexes)
from_sorted_indexes-Covers_example =
    from_sorted_indexes-Covers indexes (omega arith, (omega arith, (omega arith, tt)))
      (omega arith, (omega arith, (omega arith, tt)))
