-- ===== src/Primitives/Sid.antt =====
-- `SID` of crates/primitives/src/sid.rs: a short string in an array of bytes, padded with zeros. A string
-- is the list of its bytes.
use data_lib.Common.{
  le→leb, leb→le, length-append, ==_iff, ℕ, zero, suc, ◌+◌, ◌-◌, ◌≤◌, ◌≡◌, inl, inr, refl, sym, ap,
  subst, ◌∙◌, Bool, true, false, ◌&&◌, ◌||◌, List, [], ◌∷◌, ◌++◌, arith, leb, ◌==◌, if◌then◌else◌,
  Result, ok, err, ensure, ◌>>◌, Bool-cases, length,
}

-- The messages of the constructors.
pub data SidError : Type 0 where
  too_long inner_zero invalid_character : SidError

unfoldable pub is_valid_byte : ℕ → Bool
is_valid_byte b =
    (leb 48 b && leb b 57)
    || (leb 65 b && leb b 90)
    || (leb 97 b && leb b 122)
    || (b == 45)
    || (b == 95)

abbrev pub all_of : (ℕ → Bool) → List ℕ → Bool
all_of p [] = true
all_of p (b ∷ bs) = p b && all_of p bs

abbrev pub zeros : ℕ → List ℕ
zeros zero = []
zeros (suc n) = 0 ∷ zeros n

-- The bytes before the first 0, and those from it on.
abbrev pub text_of : List ℕ → List ℕ
text_of [] = []
text_of (b ∷ bs) = if b == 0 then [] else b ∷ text_of bs

abbrev pub padding_of : List ℕ → List ℕ
padding_of [] = []
padding_of (b ∷ bs) = if b == 0 then b ∷ bs else padding_of bs

unfoldable pub as_str : List ℕ → List ℕ
as_str bytes = text_of bytes

unfoldable pub try_new : List ℕ → Result SidError (List ℕ)
try_new bytes = do
  ensure (all_of (λ b. b == 0) (padding_of bytes)) inner_zero
  ensure (all_of is_valid_byte (text_of bytes)) invalid_character
  ok bytes

-- `bytes[..value.len()].copy_from_slice(value)` on an array of `size` zeros.
abbrev pub padded : ℕ → List ℕ → List ℕ
padded size value = value ++ zeros (size - length value)

unfoldable pub from_bytes : ℕ → List ℕ → Result SidError (List ℕ)
from_bytes size value = do ensure (leb (length value) size) too_long; try_new (padded size value)

unfoldable pub from_text : ℕ → List ℕ → Result SidError (List ℕ)
from_text size value = do
  ensure (leb (length value) size) too_long
  ensure (all_of is_valid_byte value) invalid_character
  ok (padded size value)

valid_not_zero : (b : ℕ) → is_valid_byte b ≡ true → (b == 0) ≡ false
unfolding is_valid_byte
valid_not_zero b h = ground arith

and_parts : (a b : Bool) → (a && b) ≡ true → (a ≡ true) × (b ≡ true)
and_parts true b h = (refl, h)
and_parts false b h = absurd cc

text_of-zeros : (n : ℕ) → text_of (zeros n) ≡ []
text_of-zeros zero = refl
text_of-zeros (suc n) = refl

text_of-padded :
    (value : List ℕ) (n : ℕ)
    → all_of is_valid_byte value ≡ true
    → text_of (value ++ zeros n) ≡ value
text_of-padded [] n h = text_of-zeros n
text_of-padded (b ∷ bs) n h =
    rw (valid_not_zero b (and_parts (is_valid_byte b) _ h).0)
      (ap (λ x. b ∷ x) (text_of-padded bs n (and_parts (is_valid_byte b) _ h).1))

padding_of-zeros : (n : ℕ) → padding_of (zeros n) ≡ zeros n
padding_of-zeros zero = refl
padding_of-zeros (suc n) = refl

padding_of-padded :
    (value : List ℕ) (n : ℕ)
    → all_of is_valid_byte value ≡ true
    → padding_of (value ++ zeros n) ≡ zeros n
padding_of-padded [] n h = padding_of-zeros n
padding_of-padded (b ∷ bs) n h =
    rw (valid_not_zero b (and_parts (is_valid_byte b) _ h).0)
      (padding_of-padded bs n (and_parts (is_valid_byte b) _ h).1)

all_of-zeros : (n : ℕ) → all_of (λ b. b == 0) (zeros n) ≡ true
all_of-zeros zero = refl
all_of-zeros (suc n) = all_of-zeros n

length-zeros : (n : ℕ) → length (zeros n) ≡ n
length-zeros zero = refl
length-zeros (suc n) = ap suc (length-zeros n)

-- Bytes are their text and their padding.
text_padding : (bytes : List ℕ) → bytes ≡ text_of bytes ++ padding_of bytes
text_padding [] = refl
text_padding (b ∷ bs) = elim (Bool-cases (b == 0)) [
  | inl e ↦ rw e refl
  | inr e ↦ rw e (ap (λ x. b ∷ x) (text_padding bs))
]

zeros_only : (bs : List ℕ) → all_of (λ b. b == 0) bs ≡ true → bs ≡ zeros (length bs)
zeros_only [] h = refl
zeros_only (b ∷ bs) h =
    rw (← zeros_only bs (and_parts (b == 0) _ h).1, (==_iff b 0).0 (and_parts (b == 0) _ h).0) refl

module _ (size : ℕ) (value : List ℕ) (short : length value ≤ size)
    (valid : all_of is_valid_byte value ≡ true) where
  try_new-padded : try_new (padded size value) ≡ ok (padded size value)
  unfolding try_new
  try_new-padded =
      rw
        (
          padding_of-padded value (size - length value) valid,
          all_of-zeros (size - length value),
          text_of-padded value (size - length value) valid,
          valid,
        )
        refl

  length-padded : length (padded size value) ≡ size
  length-padded = omega (
    arith,
    length-append value (zeros (size - length value)),
    length-zeros (size - length value),
    short,
  )

-- A text that is accepted is short enough and valid, and is what the array starts with.
from_text-ok :
    (size : ℕ) (value sid : List ℕ)
    → from_text size value ≡ ok sid
    → (length value ≤ size) × (all_of is_valid_byte value ≡ true) × (padded size value ≡ sid)
unfolding from_text
from_text-ok size value sid h = at _ refl _ refl
  where
    at :
        (short : Bool)
        → leb (length value) size ≡ short
        → (valid : Bool) → all_of is_valid_byte value ≡ valid
        → (length value ≤ size) × (all_of is_valid_byte value ≡ true) × (padded size value ≡ sid)
    at true l true v = (leb→le _ size l, v, same)
      where
        done : from_text size value ≡ ok (padded size value)
        done = rw (from_text, l, v) refl

        same : padded size value ≡ sid
        same = cc
    at true l false v = absurd cc
      where
        done : from_text size value ≡ err invalid_character
        done = rw (from_text, l, v) refl
    at false l valid v = absurd cc
      where
        done : from_text size value ≡ err too_long
        done = rw (from_text, l) refl

-- A text that is accepted can be read back, and its array, of the given size, is accepted by `try_new`.
pub from_text-as_str :
    (size : ℕ) (value sid : List ℕ)
    → from_text size value ≡ ok sid
    → (as_str sid ≡ value) × (try_new sid ≡ ok sid) × (length sid ≡ size)
unfolding as_str
from_text-as_str size value sid h = at (from_text-ok size value sid h)
  where
    at :
        (length value ≤ size) × (all_of is_valid_byte value ≡ true) × (padded size value ≡ sid)
        → (as_str sid ≡ value) × (try_new sid ≡ ok sid) × (length sid ≡ size)
    at (short, valid, filled) =
        subst (λ s. (as_str s ≡ value) × (try_new s ≡ ok s) × (length s ≡ size)) filled
          (
            text_of-padded value (size - length value) valid,
            try_new-padded size value short valid,
            length-padded size value short valid,
          )

-- An array that `try_new` accepts is the one that its own text gives.
pub try_new-from_text :
    (bytes sid : List ℕ)
    → try_new bytes ≡ ok sid
    → from_text (length bytes) (as_str bytes) ≡ ok bytes
unfolding try_new from_text as_str
try_new-from_text bytes sid h = at _ refl _ refl
  where
    text_short : length (text_of bytes) + length (padding_of bytes) ≡ length bytes
    text_short =
        sym (length-append (text_of bytes) (padding_of bytes))
        ∙ ap length (sym (text_padding bytes))

    at :
        (padding : Bool)
        → all_of (λ b. b == 0) (padding_of bytes) ≡ padding
        → (valid : Bool) → all_of is_valid_byte (text_of bytes) ≡ valid
        → from_text (length bytes) (as_str bytes) ≡ ok bytes
    at true p true v =
        rw
          (
            from_text,
            as_str,
            le→leb (length (text_of bytes)) (length bytes) (omega (arith, text_short)),
            v,
          )
          (ap ok whole)
      where
        missing : length bytes - length (text_of bytes) ≡ length (padding_of bytes)
        missing = omega (arith, text_short)

        whole : padded (length bytes) (text_of bytes) ≡ bytes
        whole =
            ap (λ n. text_of bytes ++ zeros n) missing
            ∙ ap (λ x. text_of bytes ++ x) (sym (zeros_only (padding_of bytes) p))
            ∙ sym (text_padding bytes)
    at true p false v = absurd cc
      where
        done : try_new bytes ≡ err invalid_character
        done = rw (try_new, p, v) refl
    at false p valid v = absurd cc
      where
        done : try_new bytes ≡ err inner_zero
        done = rw (try_new, p) refl
