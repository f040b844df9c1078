-- ===== src/Operations/Commas.antt =====
-- `strip_comma` of subdoc/operations.cc: the comma that goes with a removed member.
use subjson.Loc.{Bytes, Loc, to_view, bytes_at}
use subjson.Loc.Splice.{span, Within}
use subjson.Operations.Store.{first_comma, last_comma, strip_first_comma, strip_last_comma}
use subjson.Prelude.Words.{add64, sub64}
use subjson.Prelude.{
  ℕ, zero, suc, ◌+◌, ◌-◌, ◌^◌, ◌≤◌, ◌≡◌, ◌≢◌, refl, sym, ap, ◌∙◌, arith, [], ◌∷◌, ◌++◌,
  append_assoc, none, some, length, length-append, All, take, drop, drop-drop, ◌%◌,
}

abbrev pub NoComma : Bytes → Type 0
NoComma = All (λ c. c ≢ b',')

first_comma_lem :
    (ws rest : Bytes) (ii : ℕ)
    → NoComma ws
    → first_comma ii (ws ++ b',' ∷ rest) ≡ some (ii + length ws)
unfolding first_comma
first_comma_lem [] rest ii h = ground arith
first_comma_lem (c ∷ ws) rest ii h = ground (arith, first_comma_lem ws rest (ii + 1))

last_comma-none : (ws : Bytes) (ii : ℕ) → NoComma ws → last_comma ii ws ≡ none
unfolding last_comma
last_comma-none [] ii h = refl
last_comma-none (c ∷ ws) ii h = ground (arith, last_comma-none ws (ii + 1))

last_comma_lem :
    (front ws : Bytes) (ii : ℕ)
    → NoComma ws
    → last_comma ii (front ++ b',' ∷ ws) ≡ some (ii + length front)
unfolding last_comma
last_comma_lem [] ws ii h = ground (arith, last_comma-none ws (ii + 1))
last_comma_lem (c ∷ front) ws ii h = ground (arith, last_comma_lem front ws (ii + 1))

take_prefix :
    (front rest xs : Bytes) (n : ℕ) → take n xs ≡ front ++ rest → take (length front) xs ≡ front
take_prefix [] rest xs n e = refl
take_prefix (c ∷ front) rest xs zero e = cc
take_prefix (c ∷ front) rest [] (suc n) e = cc
take_prefix (c ∷ front) rest (x ∷ xs) (suc n) e = ground (arith, take_prefix front rest xs n)

take_suffix :
    (front rest xs : Bytes) (n : ℕ)
    → take n xs ≡ front ++ rest
    → take (n - length front) (drop (length front) xs) ≡ rest
take_suffix [] rest xs n e = ap (λ k. take k xs) (omega arith) ∙ e
take_suffix (c ∷ front) rest xs zero e = cc
take_suffix (c ∷ front) rest [] (suc n) e = cc
take_suffix (c ∷ front) rest (x ∷ xs) (suc n) e =
    let count : suc n - suc (length front) ≡ n - length front = omega arith in
    let tails : take n xs ≡ front ++ rest = ap tail_of e in
    rw count (take_suffix front rest xs n tails)
  where
    tail_of : Bytes → Bytes
    tail_of [] = []
    tail_of (c ∷ s) = s

-- What is left behind the first comma.
pub strip_first_view :
    (l : Loc) (b ws rest : Bytes) (i n : ℕ)
    → l ≡ span b i n
    → Within b i n
    → length ws + 1 ≤ n
    → to_view l ≡ ws ++ b',' ∷ rest
    → NoComma ws
    → to_view (strip_first_comma l) ≡ rest
unfolding strip_first_comma add64 sub64
strip_first_view l b ws rest i n e w long v h =
    let k = length ws + 1 in
    let moved : (i + (0 + length ws + 1)) % 2 ^ 64 ≡ i + k = omega arith in
    let kept : (n % 2 ^ 64 + 2 ^ 64 - (0 + length ws + 1) % 2 ^ 64) % 2 ^ 64 ≡ n - k =
      omega arith in
    let front = ws ++ b',' ∷ [] in
    let count : length front ≡ k = length-append {0} ws (b',' ∷ []) in
    let cut =
      take_suffix front rest (drop i b) n (rw e at v ∙ sym (append_assoc ws (b',' ∷ []) rest)) in
    rw (v, first_comma_lem ws rest 0 h, e, moved, kept) (rw (count, drop-drop i k b) at cut)

-- What is left in front of the last comma.
pub strip_last_view :
    (l : Loc) (front ws : Bytes)
    → to_view l ≡ front ++ b',' ∷ ws
    → NoComma ws
    → to_view (strip_last_comma l) ≡ front
unfolding strip_last_comma
strip_last_view l front ws v h =
    rw (v, last_comma_lem front ws 0 h)
      (ap (λ k. take k (bytes_at l.at)) (omega arith)
        ∙ take_prefix front (b',' ∷ ws) (bytes_at l.at) l.length v)
