-- ===== src/Uescape/Units.antt =====
-- The four hexadecimal digits of a code unit, and the surrogate pair of a code point.
use subjson.Loc.{Bytes}
use subjson.Prelude.Bits.{or_16, or_1024, and_1023}
use subjson.Prelude.{
  ℕ, suc, ◌+◌, ◌-◌, ◌*◌, ◌/◌, ◌%◌, ◌^◌, ◌≤◌, ◌<◌, ◌≡◌, refl, ◌∙◌, ap, arith, Bool, true, false, ◌∷◌,
  some, ltb, if◌then◌else◌, length,
}
use subjson.Uescape.{
  Converter, strtol16, shift_in, hex_loop, join_surrogates, handle_uescape, take_unit, convert_loop,
  and_go_on, is_uescape,
}

-- a digit, whose letter is a capital or not
abbrev pub hex_digit : Bool → ℕ → ℕ
hex_digit capital d = if ltb d 10 then d + 0x30 else if capital then d + 0x37 else d + 0x57

-- which of the four digits are capitals, if they are letters
pub record Capitals : Type 0 where
  pub first : Bool
  pub second : Bool
  pub third : Bool
  pub fourth : Bool

-- \uXXXX without the backslash and the 'u'
abbrev pub hex4 : Capitals → ℕ → Bytes → Bytes
hex4 cs v rest =
    hex_digit cs.first (v / 4096)
    ∷ hex_digit cs.second (v / 256 % 16)
    ∷ hex_digit cs.third (v / 16 % 16)
    ∷ hex_digit cs.fourth (v % 16)
    ∷ rest

strtol16-hex_digit : (b : Bool) (d : ℕ) → d < 16 → strtol16 (hex_digit b d) ≡ some d
unfolding strtol16
strtol16-hex_digit true d h = ground arith
strtol16-hex_digit false d h = ground arith

shift_in_lem : (res rv : ℕ) → res < 4096 → rv < 16 → shift_in res rv ≡ res * 16 + rv
unfolding shift_in
shift_in_lem res rv h k =
    let e : res * 16 % 2 ^ 16 ≡ res * 16 = omega arith in rw (e, or_16 res rv k) (ground arith)

hex_loop_digit :
    (n res d : ℕ) (s : Bytes) (b : Bool)
    → res < 4096
    → d < 16
    → hex_loop (suc n) res (hex_digit b d ∷ s) ≡ hex_loop n (res * 16 + d) s
unfolding hex_loop
hex_loop_digit n res d s b h k =
    rw (strtol16-hex_digit b d k, hex_loop) (ap (λ r. hex_loop n r s) (shift_in_lem res d h k))

pub hex_loop-hex4 :
    (cs : Capitals) (v : ℕ) (rest : Bytes) → v < 65536 → hex_loop 4 0 (hex4 cs v rest) ≡ some v
hex_loop-hex4 cs v rest h =
    hex_loop_digit 3 0 (v / 4096) _ cs.first (omega arith) (omega arith)
    ∙ hex_loop_digit 2 _ (v / 256 % 16) _ cs.second (omega arith) (omega arith)
    ∙ hex_loop_digit 1 _ (v / 16 % 16) _ cs.third (omega arith) (omega arith)
    ∙ hex_loop_digit 0 _ (v % 16) _ cs.fourth (omega arith) (omega arith)
    ∙ unfold hex_loop in ap some (omega arith)

-- The loop at an escape: the unit is taken and the six characters are skipped.
pub convert_loop-unit :
    (cs : Capitals) (cv : Converter) (v : ℕ) (rest : Bytes)
    → v < 65536
    → convert_loop 0 cv (b'\\' ∷ b'u' ∷ hex4 cs v rest)
      ≡ and_go_on (take_unit cv v) (λ cv'. convert_loop 0 cv' rest)
unfolding convert_loop handle_uescape is_uescape
convert_loop-unit cs cv v rest h =
    let long : ltb (suc (suc (suc (suc (length rest))))) 4 ≡ false = ground arith in
    rw (hex_loop-hex4 cs v rest h, long) refl

-- UTF-16: the two units of a code point past 0xffff.
abbrev pub high : ℕ → ℕ
high pt = 0xd800 + (pt - 0x10000) / 1024

abbrev pub low : ℕ → ℕ
low pt = 0xdc00 + (pt - 0x10000) % 1024

pub join_surrogates-high-low :
    (pt : ℕ) → 0x10000 ≤ pt → pt < 0x110000 → join_surrogates (high pt) (low pt) ≡ pt
unfolding join_surrogates
join_surrogates-high-low pt h k =
    rw
      (
        and_1023 (high pt),
        and_1023 (low pt),
        or_1024 (high pt % 1024) (low pt % 1024) (omega arith),
      )
      (omega arith)
