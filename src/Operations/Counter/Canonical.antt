-- ===== src/Operations/Counter/Canonical.antt =====
-- Which texts `parse_int64` of subdoc/operations.cc accepts.
use subjson.Decimal.{digits, to_string}
use subjson.Loc.{Bytes, Loc, to_view}
use subjson.Operations.Counter.{
  read_digits, is_digit, signed, to_string_int, starts_with_digit, in_int64, from_chars,
  parse_int64, parsed, split_minus, is_zero, starts_with_zero,
}
use subjson.Operations.Counter.Numerals.{parse_int64-in_int64, parse_int64_inv, checked_delta_inv}
use subjson.Prelude.Int.{ℤ}
use subjson.Prelude.{
  ℕ, zero, suc, ◌+◌, ◌-◌, ◌*◌, ◌/◌, ◌%◌, ◌≤◌, ◌<◌, ◌≡◌, refl, ap, ◌∙◌, sym, arith, Bool, true,
  false, [], ◌∷◌, ◌++◌, append_assoc, append-nil, not, Option, none, some, length, Bool-cases, inl,
  inr, ltb, if◌then◌else◌,
}

-- More fuel gives the same digits.
digits_fuel : (f g n : ℕ) → n ≤ f → n ≤ g → digits f n ≡ digits g n
unfolding digits
digits_fuel zero zero n h k = refl
digits_fuel zero (suc g) n h k = ground arith
digits_fuel (suc f) zero n h k = ground arith
digits_fuel (suc f) (suc g) n h k =
    ground (arith, digits_fuel f g (n / 10) (omega arith) (omega arith))

digits_step :
    (f n d : ℕ)
    → 1 ≤ n
    → d < 10
    → n ≤ f
    → digits (suc f) (n * 10 + d) ≡ digits f n ++ (d + 0x30) ∷ []
unfolding digits
digits_step f n d h k l =
    let long : ltb (n * 10 + d) 10 ≡ false = ground arith in
    let front : (n * 10 + d) / 10 ≡ n = omega arith in
    let last : (n * 10 + d) % 10 ≡ d = omega arith in rw (long, front, last)

to_string_step :
    (n d : ℕ) → 1 ≤ n → d < 10 → to_string (n * 10 + d) ≡ to_string n ++ (d + 0x30) ∷ []
unfolding to_string
to_string_step n d h k =
    digits_fuel (n * 10 + d) (suc (n * 10 + d)) (n * 10 + d) (omega arith) (omega arith)
    ∙ digits_step (n * 10 + d) n d h k (omega arith)
    ∙ ap (λ (s : Bytes). s ++ (d + 0x30) ∷ [])
        (digits_fuel (n * 10 + d) n n (omega arith) (omega arith))

to_string_digit : (d : ℕ) → d < 10 → to_string d ≡ (d + 0x30) ∷ []
unfolding to_string digits
to_string_digit zero h = refl
to_string_digit (suc d) h = ground arith

read_digits_step :
    (n c : ℕ) (s : Bytes)
    → is_digit c ≡ true
    → read_digits n (c ∷ s) ≡ read_digits (n * 10 + (c - 0x30)) s
unfolding read_digits
read_digits_step n c s h = rw h

read_digits_left :
    (acc n c : ℕ) (s : Bytes) → is_digit c ≡ false → read_digits acc (c ∷ s) ≡ (n, []) → ⊥
unfolding read_digits
read_digits_left acc n c s h e =
    let stops : read_digits acc (c ∷ s) ≡ (acc, c ∷ s) = rw h refl in
    let size = ap (λ r. length {0} r.1) (sym stops ∙ e) in omega arith

-- What is read to the end behind a number that is no zero are its further digits.
read_digits_all :
    (s : Bytes) (acc n : ℕ)
    → 1 ≤ acc
    → read_digits acc s ≡ (n, [])
    → to_string acc ++ s ≡ to_string n
unfolding read_digits
read_digits_all [] acc n h e = append-nil (to_string acc) ∙ ap (λ r. to_string r.0) e
read_digits_all (c ∷ s) acc n h e = elim (Bool-cases (is_digit c)) [
  | inl digit ↦
      let small : c - 0x30 < 10 = ground arith in
      let same : c - 0x30 + 0x30 ≡ c = ground arith in
      let ih =
        read_digits_all s (acc * 10 + (c - 0x30)) n (omega arith)
          (sym (read_digits_step acc c s digit) ∙ e) in
      sym (append_assoc (to_string acc) (c ∷ []) s)
      ∙ ap (λ (d : ℕ). (to_string acc ++ d ∷ []) ++ s) (sym same)
      ∙ ap (λ (t : Bytes). t ++ s) (sym (to_string_step acc (c - 0x30) h small))
      ∙ ih
  | inr other ↦ absurd (read_digits_left acc n c s other e)
]

-- A text of digits that does not start with a zero is the text of its number.
read_digits_text :
    (s : Bytes) (n : ℕ)
    → starts_with_digit s ≡ true
    → starts_with_zero s ≡ false
    → read_digits 0 s ≡ (n, [])
    → s ≡ to_string n
read_digits_text [] n digit nonzero e = absurd (ground arith)
read_digits_text (c ∷ s) n digit nonzero e =
    let small : c - 0x30 < 10 = ground arith in
    let least : 1 ≤ c - 0x30 = ground arith in
    let same : c - 0x30 + 0x30 ≡ c = ground arith in
    ap (λ (d : ℕ). d ∷ s) (sym same)
    ∙ ap (λ (t : Bytes). t ++ s) (sym (to_string_digit (c - 0x30) small))
    ∙ read_digits_all s (c - 0x30) n least
        (ap (λ (k : ℕ). read_digits k s) (omega arith) ∙ sym (read_digits_step 0 c s digit) ∙ e)

chars_inv :
    (digit range : Bool) (z' z : ℤ) (rest : Bytes)
    → (let found : Option (ℤ × Bytes) = some (z', rest) in
        if not digit then none else if range then found else none)
      ≡ some (z, [])
    → (digit ≡ true) × (rest ≡ []) × (z ≡ z')
chars_inv digit range z' z rest e = ground arith

-- the number that `from_chars` reads to the end
from_chars_inv :
    (s : Bytes) (z : ℤ)
    → from_chars s ≡ some (z, [])
    → let (neg, ds) = split_minus s in
      (starts_with_digit ds ≡ true) × (n : ℕ) × (read_digits 0 ds ≡ (n, [])) × (z ≡ signed neg n)
unfolding from_chars
from_chars_inv s z e =
    let (neg, ds) = split_minus s in
    let (n, rest) = read_digits 0 ds in
    let (digit, ended, value) =
      chars_inv (starts_with_digit ds) (in_int64 (signed neg n)) (signed neg n) z rest e in
    (digit, n, ap (λ (r : Bytes). (n, r)) ended, value)

signed_text :
    (neg : Bool) (n : ℕ)
    → is_zero (signed neg n) ≡ false
    → to_string_int (signed neg n) ≡ (if neg then b'-' ∷ to_string n else to_string n)
unfolding to_string_int
signed_text true zero h = ground arith
signed_text true (suc n) h = ap (λ (k : ℕ). b'-' ∷ to_string k) (omega arith)
signed_text false n h = refl

minus_text :
    (s : Bytes) → s ≡ (if (split_minus s).0 then b'-' ∷ (split_minus s).1 else (split_minus s).1)
minus_text [] = refl
minus_text (c ∷ s) = ground arith

parse_int64-nonzero :
    (l : Loc) (d : ℤ)
    → parse_int64 l ≡ parsed d
    → starts_with_zero (split_minus (to_view l)).1 ≡ false
unfolding parse_int64
parse_int64-nonzero l d e = ground arith

-- A delta is accepted only if its text is the decimal text, without a leading zero or a '+', of the
-- number that is returned, which is in the range of a signed 64-bit integer and not zero.
pub parse_int64_canonical :
    (l : Loc) (d : ℤ)
    → parse_int64 l ≡ parsed d
    → (to_view l ≡ to_string_int d) × (in_int64 d ≡ true) × (is_zero d ≡ false)
parse_int64_canonical l d e =
    let (range, nonzero) = parse_int64-in_int64 l d e in
    let s = to_view l in
    let (read, ok) = checked_delta_inv (from_chars s) d (parse_int64_inv l d e) in
    let (digit, n, all, value) = from_chars_inv s d read in
    let neg = (split_minus s).0 in
    let ds = read_digits_text (split_minus s).1 n digit (parse_int64-nonzero l d e) all in
    (
      minus_text s
          ∙ ap (λ (t : Bytes). if neg then b'-' ∷ t else t) ds
          ∙ sym (signed_text neg n (sym (ap is_zero value) ∙ nonzero))
          ∙ ap to_string_int (sym value),
      range,
      nonzero,
    )
