-- ===== src/Decimal.antt =====
-- `std::to_string` of an unsigned number: its decimal digits.
use subjson.Loc.{Bytes}
use subjson.Prelude.{
  ℕ, zero, suc, ◌+◌, ◌/◌, ◌%◌, ◌≤◌, arith, [], ◌∷◌, ◌++◌, ltb, if◌then◌else◌, All, All-append,
  length, length-append,
}

-- The digits of `n`, for `n` at most the fuel.
unfoldable pub digits : ℕ → ℕ → Bytes
digits zero n = (n + 0x30) ∷ []
digits (suc fuel) n =
    let more = digits fuel (n / 10) in
    if ltb n 10 then (n + 0x30) ∷ [] else more ++ (n % 10 + 0x30) ∷ []

unfoldable pub to_string : ℕ → Bytes
unfolding digits
to_string n = digits n n

abbrev pub IsDigit : ℕ → Type 0
IsDigit c = (0x30 ≤ c) × (c ≤ 0x39)

digits-IsDigit : (fuel n : ℕ) → n ≤ fuel → All IsDigit (digits fuel n)
unfolding digits
digits-IsDigit zero n h = omega arith
digits-IsDigit (suc fuel) n h = ground (
  arith,
  All-append IsDigit (digits fuel (n / 10)) ((n % 10 + 0x30) ∷ [])
      (digits-IsDigit fuel (n / 10) (omega arith)) (omega arith),
)

pub to_string-IsDigit : (n : ℕ) → All IsDigit (to_string n)
unfolding to_string
to_string-IsDigit n = digits-IsDigit n n (omega arith)

digits-pos : (fuel n : ℕ) → 1 ≤ length (digits fuel n)
unfolding digits
digits-pos zero n = omega arith
digits-pos (suc fuel) n =
    ground (arith, length-append {0} (digits fuel (n / 10)) ((n % 10 + 0x30) ∷ []))

pub to_string-pos : (n : ℕ) → 1 ≤ length (to_string n)
unfolding to_string
to_string-pos n = digits-pos n n
