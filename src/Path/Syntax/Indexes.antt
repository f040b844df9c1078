-- ===== src/Path/Syntax/Indexes.antt =====
-- `parse_bracket` on a printed index.
use subjson.Decimal.{digits, to_string, IsDigit, to_string-IsDigit, to_string-pos}
use subjson.Loc.{Bytes}
use subjson.Path.{SubdocPath, size}
use subjson.Path.Parse.{
  number, find_close, add_num_component, add_array_index, parse_bracket, minus_one, done, ◌>>=◌,
}
use subjson.Path.Parse.State.{index, IsReady, Extends, add_array_index_lem}
use subjson.Path.Syntax.Keys.{then_ret}
use subjson.Prelude.Words.{u64_mod, add64, mul64}
use subjson.Prelude.{
  ℕ, zero, suc, ◌+◌, ◌*◌, ◌/◌, ◌%◌, ◌≤◌, ◌<◌, ◌≡◌, refl, ap, subst, ◌∙◌, arith, Bool, true, false,
  [], ◌∷◌, ◌++◌, append_assoc, some, length, All, take-append, append-nil,
}

-- One digit of the code's loop, where the true value fits.
number_digit :
    (v d : ℕ) (rest : Bytes)
    → d < 10
    → v * 10 + d < u64_mod
    → number v ((d + 0x30) ∷ rest) ≡ number (v * 10 + d) rest
unfolding number add64 mul64
number_digit v d rest h k = ground arith

number-digits :
    (fuel n : ℕ) (rest : Bytes)
    → n ≤ fuel
    → n < u64_mod
    → number 0 (digits fuel n ++ rest) ≡ number n rest
unfolding digits
number-digits zero n rest h k = ground (arith, number_digit 0 n rest)
number-digits (suc fuel) n rest h k = ground (
  arith,
  number_digit 0 n rest,
  number_digit (n / 10) (n % 10) rest,
  append_assoc (digits fuel (n / 10)) ((n % 10 + 0x30) ∷ []) rest,
  number-digits fuel (n / 10) ((n % 10 + 0x30) ∷ rest),
)

-- The loop over the digits of an index reads back the decimal text of every number below 2 ^ 64.
pub number-to_string : (n : ℕ) → n < u64_mod → number 0 (to_string n) ≡ some n
unfolding to_string
number-to_string n h =
    rw (← append-nil (digits n n)) (number-digits n n [] (omega arith) h ∙ (unfold number in refl))

find_close-digits :
    (s rest : Bytes) (ii : ℕ)
    → All IsDigit s
    → find_close ii (s ++ b']' ∷ rest) ≡ some (ii + length s)
unfolding find_close
find_close-digits [] rest ii h = ground arith
find_close-digits (c ∷ s) rest ii h = ground (arith, find_close-digits s rest (ii + 1))

find_close-to_string :
    (n : ℕ) (rest : Bytes) → find_close 0 (to_string n ++ b']' ∷ rest) ≡ some (length (to_string n))
find_close-to_string n rest =
    find_close-digits (to_string n) rest 0 (to_string-IsDigit n) ∙ ap some (omega arith)

add_num_component-digits :
    (s rest : Bytes) (n : ℕ) (p : SubdocPath)
    → All IsDigit s
    → 1 ≤ length s
    → number 0 s ≡ some n
    → add_num_component (s ++ rest) (length s) p ≡ add_array_index n p
unfolding add_num_component
add_num_component-digits [] rest n p h pos e = absurd (omega arith)
add_num_component-digits (c ∷ s) rest n p h pos e =
    rw (take-append (length s) s rest refl, e, ◌>>=◌) (ground arith)

abbrev pub StoresIndex : Bytes → ℕ → ℕ → Bool → SubdocPath → Type 0
StoresIndex text n ix neg p =
    (q : SubdocPath) × (parse_bracket text p ≡ done n q) × Extends p q (index ix neg)

pub parse_bracket_element :
    (n : ℕ) (rest : Bytes) (p : SubdocPath)
    → n < minus_one
    → IsReady p
    → size p < 32
    → StoresIndex (b'[' ∷ (to_string n ++ b']' ∷ rest)) (length (to_string n) + 2) n false p
unfolding parse_bracket
parse_bracket_element n rest p h ready room =
    let s = to_string n in
    let (q, e, ext) = add_array_index_lem n p ready room in
    let reads = number-to_string n (omega arith) in
    let adds =
      add_num_component-digits s (b']' ∷ rest) n p (to_string-IsDigit n) (to_string-pos n) reads in
    rw (find_close-to_string n rest, ◌>>=◌)
      (
        q,
        then_ret (add_num_component (s ++ b']' ∷ rest) (length s)) _ p q (adds ∙ e)
            ∙ ap (λ k. done k q) (omega arith),
        subst (λ b. Extends p q (index n b)) (ground arith) ext,
      )

pub parse_bracket_last :
    (rest : Bytes) (p : SubdocPath)
    → IsReady p
    → size p < 32
    → StoresIndex (b'[' ∷ b'-' ∷ b'1' ∷ b']' ∷ rest) 4 minus_one true p
unfolding parse_bracket find_close add_num_component
parse_bracket_last rest p ready room =
    let (q, e, ext) = add_array_index_lem minus_one p ready room in
    (q, then_ret (add_array_index minus_one) 4 p q e, ext)
