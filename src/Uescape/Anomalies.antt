-- ===== src/Uescape/Anomalies.antt =====
-- `convert` on strings that are not well-formed sequences of escapes, and on a doubled backslash.
use mathlib.Core.List.{append_assoc}
use subjson.Loc.{Bytes}
use subjson.Prelude.{ℕ, ◌≤◌, ◌<◌, ◌≡◌, ◌≢◌, ap, ◌∙◌, arith, ◌⊎◌, List, [], ◌∷◌, ◌++◌, All}
use subjson.Uescape.{
  Status, success, incomplete_surrogate, invalid_surrogate, embedded_nul, invalid_codepoint,
  Converter, take_unit, finish, convert_loop, convert,
}
use subjson.Uescape.RoundTrip.{
  Item, IsItem, unit, spell, all_converted, idle, convert_loop-backslash, convert_loop-spell,
  take_unit-scalar, take_unit-high,
}
use subjson.Uescape.Units.{Capitals, hex4, convert_loop-unit}
use subjson.Uescape.Utf8.{utf8, IsScalar}

abbrev result : Status × Converter → Status × Bytes
result r = (r.0, r.1.m_out)

-- A doubled backslash in front of uXXXX, among pieces that are converted: JSON reads one backslash
-- and the five characters, but the converter copies the first backslash, takes the second for the
-- start of an escape of a scalar value other than NUL, and converts what follows.
pub convert_doubled_backslash :
    (cs : Capitals) (v : ℕ) (xs ys : List Item) (out : Bytes)
    → IsScalar v
    → v ≢ 0
    → v < 0x10000
    → All IsItem xs
    → All IsItem ys
    → convert (spell xs (b'\\' ∷ unit cs v (spell ys []))) out
      ≡ (success, out ++ (all_converted xs ++ b'\\' ∷ (utf8 v ++ all_converted ys)))
unfolding convert convert_loop finish
convert_doubled_backslash cs v xs ys out h nz lt front behind =
    let before = out ++ all_converted xs in
    let first = before ++ b'\\' ∷ [] in
    let layout : (first ++ utf8 v) ++ all_converted ys
        ≡ out ++ (all_converted xs ++ b'\\' ∷ (utf8 v ++ all_converted ys)) =
      simp append_assoc in
    ap result (
      convert_loop-spell out xs (b'\\' ∷ unit cs v (spell ys [])) front
      ∙ convert_loop-backslash (idle before) b'\\' (b'u' ∷ hex4 cs v (spell ys [])) (omega arith)
      ∙ convert_loop-unit cs (idle first) v (spell ys []) lt
      ∙ rw (take_unit-scalar first v h nz lt) (convert_loop-spell (first ++ utf8 v) ys [] behind)
      ∙ ap (λ o. (success, idle o)) layout)

abbrev after_high : Bytes → ℕ → Converter
after_high out v = record { m_out = out; last_codepoint = v }

-- What makes the converter fail: a NUL, a low surrogate with no high one before it, a high
-- surrogate that a unit other than NUL and a low one follows, one that ends the string.
pub data Fault : Type 0 where
  nul lone_low broken_pair open_pair : Fault

abbrev pub IsFault : Fault → ℕ → ℕ → Type 0
IsFault nul v w = v ≡ 0
IsFault lone_low v w = (0xdc00 ≤ v) × (v ≤ 0xdfff)
IsFault broken_pair v w =
    (0xd800 ≤ v) × (v < 0xdc00) × (0 < w) × (w < 0x10000) × ((w < 0xdc00) ⊎ (0xdfff < w))
IsFault open_pair v w = (0xd800 ≤ v) × (v < 0xdc00)

abbrev pub faulty : Fault → Capitals → Capitals → ℕ → ℕ → Bytes → Bytes
faulty broken_pair cs cs' v w rest = unit cs v (unit cs' w rest)
faulty open_pair cs cs' v w rest = unit cs v []
faulty _ cs cs' v w rest = unit cs v rest

abbrev pub refusal : Fault → Status
refusal nul = embedded_nul
refusal lone_low = invalid_codepoint
refusal broken_pair = invalid_surrogate
refusal open_pair = incomplete_surrogate

faulty_loop :
    (f : Fault) (cs cs' : Capitals) (v w : ℕ) (rest out : Bytes)
    → IsFault f v w
    → result (convert_loop 0 (idle out) (faulty f cs cs' v w rest)) ≡ (refusal f, out)
faulty_loop nul cs cs' v w rest out h =
    rw (convert_loop-unit cs (idle out) v rest (omega arith)) (unfold take_unit in ground arith)
faulty_loop lone_low cs cs' v w rest out h =
    rw (convert_loop-unit cs (idle out) v rest (omega arith)) (unfold take_unit in ground arith)
faulty_loop broken_pair cs cs' v w rest out h =
    rw
      (
        convert_loop-unit cs (idle out) v (unit cs' w rest) (omega arith),
        take_unit-high out v h.0 h.1,
      )
      (rw (convert_loop-unit cs' (after_high out v) w rest (omega arith))
        (unfold take_unit in ground arith))
faulty_loop open_pair cs cs' v w rest out h =
    rw (convert_loop-unit cs (idle out) v [] (omega arith), take_unit-high out v h.0 h.1)
      (unfold convert_loop finish in ground arith)

-- Behind any pieces that it converts, each fault ends the conversion with its status, and the
-- output holds what was converted up to there.
pub convert_refuses :
    (xs : List Item) (f : Fault) (cs cs' : Capitals) (v w : ℕ) (rest out : Bytes)
    → All IsItem xs
    → IsFault f v w
    → convert (spell xs (faulty f cs cs' v w rest)) out ≡ (refusal f, out ++ all_converted xs)
unfolding convert
convert_refuses xs f cs cs' v w rest out items h =
    ap result (convert_loop-spell out xs (faulty f cs cs' v w rest) items)
    ∙ faulty_loop f cs cs' v w rest (out ++ all_converted xs) h
