-- ===== src/Uescape/RoundTrip.antt =====
-- `convert` on a string as a JSON writer spells it.
use mathlib.Core.List.{append_assoc}
use subjson.Loc.{Bytes}
use subjson.Prelude.{
  ℕ, ◌≤◌, ◌<◌, ◌≡◌, ◌≢◌, refl, ap, ◌∙◌, arith, true, false, List, [], ◌∷◌, ◌++◌, append-nil, ◌==◌,
  ◌||◌, ltb, if◌then◌else◌, All, Bool-cases, inl, inr,
}
use subjson.Uescape.{success, Converter, is_uescape, take_unit, finish, convert_loop, convert}
use subjson.Uescape.Units.{Capitals, hex4, high, low, join_surrogates-high-low, convert_loop-unit}
use subjson.Uescape.Utf8.{utf8, append_utf8_lem, IsScalar}

-- A piece of the inside of a JSON string: a byte, an escape of two characters, or a code point
-- that is spelled by one or two \u escapes, with capital letters among the digits or not.
pub data Item : Type 0 where
  raw : ℕ → Item
  escape : ℕ → Item
  code : ℕ → Capitals → Capitals → Item

abbrev pub IsItem : Item → Type 0
IsItem (raw c) = c ≢ b'\\'
IsItem (escape c) = (c ≢ b'u') × (c ≢ b'\\')
IsItem (code pt cs cs') = IsScalar pt × (pt ≢ 0)

abbrev pub unit : Capitals → ℕ → Bytes → Bytes
unit cs v rest = b'\\' ∷ b'u' ∷ hex4 cs v rest

abbrev pub spelled : Item → Bytes → Bytes
spelled (raw c) rest = c ∷ rest
spelled (escape c) rest = b'\\' ∷ c ∷ rest
spelled (code pt cs cs') rest =
    if ltb pt 0x10000 then unit cs pt rest else unit cs (high pt) (unit cs' (low pt) rest)

-- What the converter is to leave: UTF-8 for the code points, all else as it was.
abbrev pub converted : Item → Bytes
converted (raw c) = c ∷ []
converted (escape c) = b'\\' ∷ c ∷ []
converted (code pt cs cs') = utf8 pt

abbrev pub spell : List Item → Bytes → Bytes
spell [] rest = rest
spell (x ∷ xs) rest = spelled x (spell xs rest)

abbrev pub all_converted : List Item → Bytes
all_converted [] = []
all_converted (x ∷ xs) = converted x ++ all_converted xs

-- outside a surrogate pair
abbrev pub idle : Bytes → Converter
idle out = record { m_out = out; last_codepoint = 0 }

is_uescape_other : (c : ℕ) (s : Bytes) → c ≢ b'\\' → is_uescape (c ∷ s) ≡ false
unfolding is_uescape
is_uescape_other c [] h = refl
is_uescape_other c (d ∷ s) h = ground arith

pub convert_loop-raw :
    (cv : Converter) (c : ℕ) (s : Bytes)
    → c ≢ b'\\'
    → convert_loop 0 cv (c ∷ s) ≡ convert_loop 0 (record cv { m_out = cv.m_out ++ c ∷ [] }) s
unfolding convert_loop
convert_loop-raw cv c s h = rw (is_uescape_other c s h, convert_loop) refl

pub convert_loop-backslash :
    (cv : Converter) (c : ℕ) (s : Bytes)
    → c ≢ b'u'
    → convert_loop 0 cv (b'\\' ∷ c ∷ s)
      ≡ convert_loop 0 (record cv { m_out = cv.m_out ++ b'\\' ∷ [] }) (c ∷ s)
unfolding convert_loop is_uescape
convert_loop-backslash cv c s h =
    let e : (c == b'u') ≡ false = ground arith in rw (e, convert_loop) refl

pub take_unit-scalar :
    (out : Bytes) (pt : ℕ)
    → IsScalar pt
    → pt ≢ 0
    → pt < 0x10000
    → take_unit (idle out) pt ≡ (success, idle (out ++ utf8 pt))
unfolding take_unit
take_unit-scalar out pt h nz lt =
    let not_nul : (pt == 0) ≡ false = ground arith in
    let plain : (ltb pt 0xd800 || ltb 0xdfff pt) ≡ true = ground arith in
    rw (not_nul, plain) (ap (λ cv. (success, cv)) (append_utf8_lem (idle out) pt h.0))

pub take_unit-high :
    (out : Bytes) (v : ℕ)
    → 0xd800 ≤ v
    → v < 0xdc00
    → take_unit (idle out) v ≡ (success, record { m_out = out; last_codepoint = v })
unfolding take_unit
take_unit-high out v h k = ground arith

pub take_unit-low :
    (out : Bytes) (pt : ℕ)
    → 0x10000 ≤ pt
    → pt < 0x110000
    → take_unit (record { m_out = out; last_codepoint = high pt }) (low pt)
      ≡ (success, idle (out ++ utf8 pt))
unfolding take_unit
take_unit-low out pt h k =
    let not_nul : (low pt == 0) ≡ false = ground arith in
    let pending : (high pt == 0) ≡ false = ground arith in
    let is_low : (ltb (low pt) 0xdc00 || ltb 0xdfff (low pt)) ≡ false = ground arith in
    let joined = join_surrogates-high-low pt h k in
    rw
      (
        not_nul,
        pending,
        is_low,
        joined,
        append_utf8_lem (record { m_out = out; last_codepoint = high pt }) pt k,
      )
      refl

-- One piece.
convert_loop-spelled :
    (out : Bytes) (x : Item) (rest : Bytes)
    → IsItem x
    → convert_loop 0 (idle out) (spelled x rest) ≡ convert_loop 0 (idle (out ++ converted x)) rest
convert_loop-spelled out (raw c) rest h = convert_loop-raw (idle out) c rest h
convert_loop-spelled out (escape c) rest h =
    convert_loop-backslash (idle out) c rest h.0
    ∙ convert_loop-raw (idle (out ++ b'\\' ∷ [])) c rest h.1
    ∙ ap (λ o. convert_loop 0 (idle o) rest) (append_assoc out (b'\\' ∷ []) (c ∷ []))
convert_loop-spelled out (code pt cs cs') rest h = elim (Bool-cases (ltb pt 0x10000)) [
  | inl short ↦ rw short (
      convert_loop-unit cs (idle out) pt rest (ground arith)
      ∙ rw (take_unit-scalar out pt h.0 h.1 (ground arith)) refl)
  | inr long ↦
      let least : 0x10000 ≤ pt = ground arith in
      rw long (
        convert_loop-unit cs (idle out) (high pt) (unit cs' (low pt) rest) (omega (arith, h.0.0))
        ∙ rw (take_unit-high out (high pt) (omega arith) (omega (arith, h.0.0))) (
            convert_loop-unit cs' (record { m_out = out; last_codepoint = high pt }) (low pt) rest
              (omega arith)
            ∙ rw (take_unit-low out pt least h.0.0) refl))
]

-- The pieces in front are converted, whatever follows.
pub convert_loop-spell :
    (out : Bytes) (xs : List Item) (rest : Bytes)
    → All IsItem xs
    → convert_loop 0 (idle out) (spell xs rest)
      ≡ convert_loop 0 (idle (out ++ all_converted xs)) rest
convert_loop-spell out [] rest h = rw append-nil refl
convert_loop-spell out (x ∷ xs) rest h =
    convert_loop-spelled out x (spell xs rest) h.0
    ∙ convert_loop-spell (out ++ converted x) xs rest h.1
    ∙ ap (λ o. convert_loop 0 (idle o) rest) (append_assoc out (converted x) (all_converted xs))

-- On the inside of a JSON string in which every backslash starts an escape of two characters (not
-- a doubled backslash) or spells a code point other than NUL, with hexadecimal digits in either
-- case, the converter succeeds; it appends each code point in UTF-8, and all else as it was.
pub convert-spell :
    (xs : List Item) (out : Bytes)
    → All IsItem xs
    → convert (spell xs []) out ≡ (success, out ++ all_converted xs)
unfolding convert convert_loop finish
convert-spell xs out h = rw (convert_loop-spell out xs [] h) refl
