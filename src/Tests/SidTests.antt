-- ===== src/Tests/SidTests.antt =====
-- The theorems on short ids at the bytes of "ab-1" in an array of six.
use data_lib.Common.{ℕ, ◌≡◌, refl, List, [], ◌∷◌, ok, length}
use data_lib.Primitives.Sid.{as_str, try_new, from_text, is_valid_byte, from_text-as_str}

abbrev value : List ℕ
value = 97 ∷ 98 ∷ 45 ∷ 49 ∷ []

abbrev sid : List ℕ
sid = 97 ∷ 98 ∷ 45 ∷ 49 ∷ 0 ∷ 0 ∷ []

accepted : from_text 6 value ≡ ok sid
unfolding from_text is_valid_byte
accepted = refl

from_text-as_str_example : (as_str sid ≡ value) × (try_new sid ≡ ok sid) × (length sid ≡ 6)
from_text-as_str_example = from_text-as_str 6 value sid accepted

kept : try_new sid ≡ ok sid
unfolding try_new is_valid_byte
kept = refl
