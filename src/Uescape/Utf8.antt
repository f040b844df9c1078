-- ===== src/Uescape/Utf8.antt =====
-- `append_utf8` against a strict decoder of UTF-8 (RFC 3629).
use mathlib.Core.List.{append_assoc}
use subjson.Loc.{Bytes}
use subjson.Prelude.Bits.{and_63, or_0x80, or_0xc0, or_0xe0, or_0xf0}
use subjson.Prelude.{
  ℕ, ◌+◌, ◌-◌, ◌*◌, ◌/◌, ◌%◌, ◌<◌, bit_and, bit_or, ◌≡◌, ◌⊎◌, arith, Bool, ◌&&◌, ◌||◌, [], ◌∷◌,
  ◌++◌, Option, none, some, ltb, leb, if◌then◌else◌, Bool-cases, inl, inr,
}
use subjson.Uescape.{Converter, put, append_utf8, continuation}

-- the encoding, in plain arithmetic
unfoldable pub utf8 : ℕ → Bytes
utf8 pt =
    if ltb pt 0x80
    then pt ∷ []
    else if ltb pt 0x800
    then (pt / 64 + 0xc0) ∷ (pt % 64 + 0x80) ∷ []
    else if ltb pt 0x10000
    then (pt / 4096 + 0xe0) ∷ (pt / 64 % 64 + 0x80) ∷ (pt % 64 + 0x80) ∷ []
    else (pt / 262144 + 0xf0)
      ∷ (pt / 4096 % 64 + 0x80)
      ∷ (pt / 64 % 64 + 0x80)
      ∷ (pt % 64 + 0x80)
      ∷ []

continuation_is : (n : ℕ) → bit_or (bit_and n 0x3f) 0x80 ≡ n % 64 + 0x80
continuation_is n = rw and_63 (or_0x80 (n % 64) (omega arith))

put-continuation :
    (cv : Converter) (n : ℕ)
    → put cv (continuation n) ≡ record cv { m_out = cv.m_out ++ (n % 64 + 0x80) ∷ [] }
put-continuation cv n = rw (continuation_is n) (ground arith)

-- the lead byte of two, three or four
lead_bytes :
    (pt : ℕ)
    → (pt < 0x800 → bit_or (pt / 64) 0xc0 % 256 ≡ pt / 64 + 0xc0)
      × (pt < 0x10000 → bit_or (pt / 4096) 0xe0 % 256 ≡ pt / 4096 + 0xe0)
      × (pt < 0x110000 → bit_or (pt / 262144) 0xf0 % 256 ≡ pt / 262144 + 0xf0)
lead_bytes pt = (
  λ h. rw (or_0xc0 (pt / 64) (omega arith)) (omega arith),
  λ h. rw (or_0xe0 (pt / 4096) (omega arith)) (omega arith),
  λ h. rw (or_0xf0 (pt / 262144) (omega arith)) (omega arith),
)

pub append_utf8_lem :
    (cv : Converter) (pt : ℕ)
    → pt < 0x110000
    → append_utf8 cv pt ≡ record cv { m_out = cv.m_out ++ utf8 pt }
unfolding append_utf8 utf8
append_utf8_lem cv pt h = elim (Bool-cases (ltb pt 0x80)) [
  | inl a ↦ rw a (ground arith)
  | inr a ↦ elim (Bool-cases (ltb pt 0x800)) [
    | inl b ↦
        rw (a, b, (lead_bytes pt).0 (ground arith), continuation_is pt)
          (simp append_assoc (ground arith))
    | inr b ↦ elim (Bool-cases (ltb pt 0x10000)) [
      | inl c ↦
          rw
            (
              a,
              b,
              c,
              (lead_bytes pt).1 (ground arith),
              continuation_is pt,
              continuation_is (pt / 64),
            )
            (simp append_assoc (ground arith))
      | inr c ↦
          rw
            (
              a,
              b,
              c,
              (lead_bytes pt).2 h,
              continuation_is pt,
              continuation_is (pt / 64),
              continuation_is (pt / 4096),
            )
            (simp append_assoc (ground arith))
    ]
  ]
]

-- A Unicode scalar value.
abbrev pub IsScalar : ℕ → Type 0
IsScalar pt = (pt < 0x110000) × ((pt < 0xd800) ⊎ (0xdfff < pt))

abbrev is_continuation : ℕ → Bool
is_continuation c = leb 0x80 c && leb c 0xbf

-- Overlong forms, surrogates and values past 0x10ffff are refused.
abbrev checked : ℕ → ℕ → Bool → Bytes → Option (ℕ × Bytes)
checked least pt ok rest =
    if ok && leb least pt && ltb pt 0x110000 && (ltb pt 0xd800 || ltb 0xdfff pt)
    then some (pt, rest)
    else none

decode_two : ℕ → Bytes → Option (ℕ × Bytes)
decode_two a (b ∷ s) = checked 0x80 ((a - 0xc0) * 64 + (b - 0x80)) (is_continuation b) s
decode_two a _ = none

decode_three : ℕ → Bytes → Option (ℕ × Bytes)
decode_three a (b ∷ c ∷ s) =
    checked 0x800 ((a - 0xe0) * 4096 + (b - 0x80) * 64 + (c - 0x80))
      (is_continuation b && is_continuation c) s
decode_three a _ = none

decode_four : ℕ → Bytes → Option (ℕ × Bytes)
decode_four a (b ∷ c ∷ d ∷ s) =
    checked 0x10000 ((a - 0xf0) * 262144 + (b - 0x80) * 4096 + (c - 0x80) * 64 + (d - 0x80))
      (is_continuation b && is_continuation c && is_continuation d) s
decode_four a _ = none

-- One code point from the front of a text.
unfoldable pub decode_utf8 : Bytes → Option (ℕ × Bytes)
unfolding decode_two decode_three decode_four
decode_utf8 [] = none
decode_utf8 (a ∷ s) =
    if ltb a 0x80
    then some (a, s)
    else if ltb a 0xc0
    then none
    else if ltb a 0xe0
    then decode_two a s
    else if ltb a 0xf0
    then decode_three a s
    else if ltb a 0xf8
    then decode_four a s
    else none

decode-utf8 :
    (pt : ℕ) (rest : Bytes) → IsScalar pt → decode_utf8 (utf8 pt ++ rest) ≡ some (pt, rest)
unfolding decode_utf8 utf8
decode-utf8 pt rest h = elim (Bool-cases (ltb pt 0x80)) [
  | inl a ↦ rw a (ground arith)
  | inr a ↦ elim (Bool-cases (ltb pt 0x800)) [
    | inl b ↦ rw (a, b) (ground arith)
    | inr b ↦ elim (Bool-cases (ltb pt 0x10000)) [
      | inl c ↦ rw (a, b, c) (ground arith)
      | inr c ↦ rw (a, b, c) (ground arith)
    ]
  ]
]

-- What `append_utf8` appends for a Unicode scalar value is one to four bytes that decode to it,
-- whatever follows them.
pub append_utf8-decode :
    (pt : ℕ) (cv : Converter) (rest : Bytes)
    → IsScalar pt
    → (append_utf8 cv pt ≡ record cv { m_out = cv.m_out ++ utf8 pt })
      × (decode_utf8 (utf8 pt ++ rest) ≡ some (pt, rest))
append_utf8-decode pt cv rest h = (append_utf8_lem cv pt h.0, decode-utf8 pt rest h)
