-- ===== src/Operations/Counter/Numerals.antt =====
-- The numbers that the counter reads and prints.
use subjson.Decimal.{digits, to_string, IsDigit, to_string-IsDigit, to_string-pos}
use subjson.Loc.{Bytes, Loc, to_view}
use subjson.Operations.Counter.{
  read_digits, skip_space, signed, strtoll, to_string_int, starts_with_digit, in_int64, split_sign,
  from_chars, parse_int64, parsed, split_minus, is_zero, starts_with_zero, checked_delta,
  delta_or_error,
}
use subjson.Operations.Store.{literal}
use subjson.Prelude.Int.{ℤ, pos, negsuc}
use subjson.Prelude.{
  ℕ, zero, suc, ◌+◌, ◌*◌, ◌/◌, ◌%◌, ◌≤◌, ◌<◌, ◌≡◌, refl, ap, ◌∙◌, sym, arith, true, false, [], ◌∷◌,
  ◌++◌, append_assoc, append-nil, Option, some, length, take, take_all, All, ◌==◌,
}

read_digits_stop :
    (n : ℕ) (rest : Bytes) → starts_with_digit rest ≡ false → read_digits n rest ≡ (n, rest)
unfolding read_digits
read_digits_stop n [] h = refl
read_digits_stop n (c ∷ rest) h = rw h refl

read_digit :
    (v d : ℕ) (rest : Bytes)
    → d < 10
    → read_digits v ((d + 0x30) ∷ rest) ≡ read_digits (v * 10 + d) rest
unfolding read_digits
read_digit v d rest h = ground arith

read_digits-digits :
    (fuel n : ℕ) (rest : Bytes)
    → n ≤ fuel
    → read_digits 0 (digits fuel n ++ rest) ≡ read_digits n rest
unfolding digits
read_digits-digits zero n rest h = ground (arith, read_digit 0 n rest)
read_digits-digits (suc fuel) n rest h = ground (
  arith,
  read_digit 0 n rest,
  read_digit (n / 10) (n % 10) rest,
  append_assoc (digits fuel (n / 10)) ((n % 10 + 0x30) ∷ []) rest,
  read_digits-digits fuel (n / 10) ((n % 10 + 0x30) ∷ rest),
)

pub read_digits-to_string :
    (n : ℕ) (rest : Bytes)
    → starts_with_digit rest ≡ false
    → read_digits 0 (to_string n ++ rest) ≡ (n, rest)
unfolding to_string
read_digits-to_string n rest h =
    read_digits-digits n n rest (omega arith) ∙ read_digits_stop n rest h

-- a text whose first byte is a digit
abbrev Headed : Bytes → Type 0
Headed s = (c : ℕ) × (t : Bytes) × (s ≡ c ∷ t) × IsDigit c

headed : (s : Bytes) → All IsDigit s → 1 ≤ length s → Headed s
headed [] h some_digit = absurd (omega arith)
headed (c ∷ s) h some_digit = (c, s, refl, h.0)

to_string-Headed : (n : ℕ) → Headed (to_string n)
to_string-Headed n = headed (to_string n) (to_string-IsDigit n) (to_string-pos n)

skip_space-digit : (c : ℕ) (s : Bytes) → IsDigit c → skip_space (c ∷ s) ≡ c ∷ s
unfolding skip_space
skip_space-digit c s h = ground arith

split_sign-digit : (c : ℕ) (s : Bytes) → IsDigit c → split_sign (c ∷ s) ≡ (false, c ∷ s)
split_sign-digit c s h = ground arith

skip_space-Headed : (s rest : Bytes) → Headed s → skip_space (s ++ rest) ≡ s ++ rest
skip_space-Headed s rest (c, t, e, h) = rw e (skip_space-digit c (t ++ rest) h)

split_sign-Headed : (s rest : Bytes) → Headed s → split_sign (s ++ rest) ≡ (false, s ++ rest)
split_sign-Headed s rest (c, t, e, h) = rw e (split_sign-digit c (t ++ rest) h)

-- What `to_string` prints for a signed 64-bit integer, `strtoll` reads back, whatever follows that
-- does not start with a digit.
pub strtoll-to_string_int :
    (z : ℤ) (rest : Bytes)
    → in_int64 z ≡ true
    → starts_with_digit rest ≡ false
    → strtoll (to_string_int z ++ rest) ≡ some z
unfolding strtoll to_string_int
strtoll-to_string_int (pos n) rest range stop =
    rw
      (
        skip_space-Headed (to_string n) rest (to_string-Headed n),
        split_sign-Headed (to_string n) rest (to_string-Headed n),
        read_digits-to_string n rest stop,
        range,
      )
      refl
strtoll-to_string_int (negsuc n) rest range stop =
    let minus : skip_space (b'-' ∷ (to_string (n + 1) ++ rest))
        ≡ b'-' ∷ (to_string (n + 1) ++ rest) =
      unfold skip_space in refl in
    let next : n + 1 ≡ suc n = omega arith in
    let value : signed true (n + 1) ≡ negsuc n = ap (signed true) next in
    rw (minus, read_digits-to_string (n + 1) rest stop, value, range) refl

first_digit :
    (fuel n : ℕ) (rest : Bytes)
    → 1 ≤ n
    → n ≤ fuel
    → starts_with_zero (digits fuel n ++ rest) ≡ false
unfolding digits
first_digit zero n rest h k = absurd (omega arith)
first_digit (suc fuel) n rest h k = ground (
  arith,
  append_assoc (digits fuel (n / 10)) ((n % 10 + 0x30) ∷ []) rest,
  first_digit fuel (n / 10) ((n % 10 + 0x30) ∷ rest),
)

from_chars-in_int64 : (s rest : Bytes) (z : ℤ) → from_chars s ≡ some (z, rest) → in_int64 z ≡ true
unfolding from_chars
from_chars-in_int64 s rest z e = ground arith

pub checked_delta_inv :
    (o : Option (ℤ × Bytes)) (d : ℤ)
    → delta_or_error (checked_delta o) ≡ parsed d
    → (o ≡ some (d, [])) × (is_zero d ≡ false)
checked_delta_inv o d e = ground arith

pub parse_int64_inv :
    (l : Loc) (d : ℤ)
    → parse_int64 l ≡ parsed d
    → delta_or_error (checked_delta (from_chars (to_view l))) ≡ parsed d
unfolding parse_int64
parse_int64_inv l d e = ground arith

-- A delta is accepted only if it is in the range of a signed 64-bit integer and not zero.
pub parse_int64-in_int64 :
    (l : Loc) (d : ℤ) → parse_int64 l ≡ parsed d → (in_int64 d ≡ true) × (is_zero d ≡ false)
parse_int64-in_int64 l d e =
    let (accepted, nonzero) =
      checked_delta_inv (from_chars (to_view l)) d (parse_int64_inv l d e) in
    (from_chars-in_int64 (to_view l) [] d accepted, nonzero)

first_byte : (n : ℕ) → 1 ≤ n → starts_with_zero (to_string n) ≡ false
unfolding to_string
first_byte n h =
    ap starts_with_zero (sym (append-nil (digits n n))) ∙ first_digit n n [] h (omega arith)

split_minus-Headed : (s : Bytes) → Headed s → split_minus s ≡ (false, s)
split_minus-Headed s (c, t, e, h) = ground arith

starts-Headed : (s : Bytes) → Headed s → starts_with_digit s ≡ true
starts-Headed s (c, t, e, h) = ground arith

read_all : (n : ℕ) → read_digits 0 (to_string n) ≡ (n, [])
read_all n = ap (read_digits 0) (sym (append-nil (to_string n))) ∙ read_digits-to_string n [] refl

from_chars-to_string_int : (z : ℤ) → in_int64 z ≡ true → from_chars (to_string_int z) ≡ some (z, [])
unfolding from_chars to_string_int
from_chars-to_string_int (pos n) range =
    rw
      (
        split_minus-Headed (to_string n) (to_string-Headed n),
        starts-Headed (to_string n) (to_string-Headed n),
        read_all n,
        range,
      )
      refl
from_chars-to_string_int (negsuc n) range =
    let next : n + 1 ≡ suc n = omega arith in
    let value : signed true (n + 1) ≡ negsuc n = ap (signed true) next in
    rw
      (starts-Headed (to_string (n + 1)) (to_string-Headed (n + 1)), read_all (n + 1), value, range)
      refl

first_nonzero :
    (z : ℤ) → is_zero z ≡ false → starts_with_zero (split_minus (to_string_int z)).1 ≡ false
unfolding to_string_int
first_nonzero (pos n) h =
    let nonzero : 1 ≤ n = ground arith in
    rw (split_minus-Headed (to_string n) (to_string-Headed n)) (first_byte n nonzero)
first_nonzero (negsuc n) h = first_byte (n + 1) (omega arith)

to_string_int-filled : (z : ℤ) → 1 ≤ length (to_string_int z)
unfolding to_string_int
to_string_int-filled (pos n) = to_string-pos n
to_string_int-filled (negsuc n) = omega arith

-- The decimal text of every signed 64-bit integer but zero is accepted as a delta, with that value.
pub parse_int64-to_string_int :
    (z : ℤ)
    → in_int64 z ≡ true
    → is_zero z ≡ false
    → parse_int64 (literal (to_string_int z)) ≡ parsed z
unfolding parse_int64
parse_int64-to_string_int z range nonzero =
    let view : take (length (to_string_int z)) (to_string_int z) ≡ to_string_int z =
      take_all (length (to_string_int z)) (to_string_int z) (omega arith) in
    let filled : (length (to_string_int z) == 0) ≡ false = ground (arith, to_string_int-filled z) in
    rw (view, filled, first_nonzero z nonzero, from_chars-to_string_int z range, nonzero) refl
