-- ===== src/Uescape.antt =====
-- subdoc/uescape.h: `UescapeConverter`, which replaces \uXXXX escapes by UTF-8.
pub mod Utf8
pub mod Units
pub mod RoundTrip
pub mod Anomalies
use subjson.Loc.{Bytes}
use subjson.Prelude.{
  ℕ, zero, suc, ◌+◌, ◌-◌, ◌*◌, ◌/◌, ◌%◌, ◌^◌, bit_and, bit_or, Bool, true, false, not, ◌&&◌, ◌||◌,
  List, [], ◌∷◌, ◌++◌, Option, none, some, ltb, leb, ◌==◌, if◌then◌else◌, length, drop,
}

-- `Status::Code`
pub data Status : Type 0 where
  success incomplete_surrogate invalid_surrogate embedded_nul : Status
  invalid_hexchars invalid_codepoint : Status

pub record Converter : Type 0 where
  pub m_out : Bytes
  pub last_codepoint : ℕ

-- `m_out += static_cast<char>(n)`
abbrev pub put : Converter → ℕ → Converter
put cv n = record cv { m_out = cv.m_out ++ n % 256 ∷ [] }

-- a shift to the right
abbrev pub shr : ℕ → ℕ → ℕ
shr x k = x / 2 ^ k

-- the low six bits with the top bit set
abbrev pub continuation : ℕ → ℕ
continuation n = bit_or (bit_and n 0x3f) 0x80

unfoldable pub append_utf8 : Converter → ℕ → Converter
append_utf8 cv pt =
    if ltb pt 0x80
    then put cv pt
    else if ltb pt 0x800
    then put (put cv (bit_or (shr pt 6) 0xc0)) (continuation pt)
    else if ltb pt 0x10000
    then put (put (put cv (bit_or (shr pt 12) 0xe0)) (continuation (shr pt 6))) (continuation pt)
    else put
        (put (put (put cv (bit_or (shr pt 18) 0xf0)) (continuation (shr pt 12)))
          (continuation (shr pt 6)))
        (continuation pt)

-- `strtol` with base 16 on the string of one character `c`; `none` where it does not end at the
-- terminating byte. An empty string, of `c` = 0, ends there at once.
unfoldable pub strtol16 : ℕ → Option ℕ
strtol16 c =
    if c == 0
    then some 0
    else if leb 0x30 c && leb c 0x39
    then some (c - 0x30)
    else if leb 0x61 c && leb c 0x66
    then some (c - 0x57)
    else if leb 0x41 c && leb c 0x46
    then some (c - 0x37)
    else none

-- one round of the loop over the four digits, on a `char16_t`
unfoldable pub shift_in : ℕ → ℕ → ℕ
shift_in res rv = if rv == 0 && res == 0 then res else bit_or (res * 16 % 2 ^ 16) rv

-- the loop over the next `n` characters
unfoldable pub hex_loop : ℕ → ℕ → Bytes → Option ℕ
hex_loop zero res s = some res
hex_loop (suc n) res [] = none
hex_loop (suc n) res (c ∷ s) = elim (strtol16 c) [
  | none ↦ none
  | some rv ↦ hex_loop n (shift_in res rv) s
]

-- `is_uescape` at the place where the rest of the input is `s`
unfoldable pub is_uescape : Bytes → Bool
is_uescape [] = false
is_uescape (c ∷ []) = false
is_uescape (c ∷ d ∷ s) = c == b'\\' && d == b'u'

abbrev is_surrogate : ℕ → Bool
is_surrogate res = not (ltb res 0xd800 || ltb 0xdfff res)

-- the two halves of a surrogate pair as a code point
unfoldable pub join_surrogates : ℕ → ℕ → ℕ
join_surrogates w1 w2 = bit_or (bit_and w1 0x3ff * 2 ^ 10) (bit_and w2 0x3ff) + 0x10000

-- what is done with a code unit
unfoldable pub take_unit : Converter → ℕ → Status × Converter
take_unit cv res =
    if res == 0
    then (embedded_nul, cv)
    else if not (cv.last_codepoint == 0)
    then (if ltb res 0xdc00 || ltb 0xdfff res then (invalid_surrogate, cv) else (
      success,
      record (append_utf8 cv (join_surrogates cv.last_codepoint res)) { last_codepoint = 0 },
    ))
    else if ltb res 0xd800 || ltb 0xdfff res
    then (success, append_utf8 cv res)
    else if ltb 0xd7ff res && ltb res 0xdc00
    then (success, record cv { last_codepoint = res })
    else (invalid_codepoint, cv)

abbrev unit_or_error : Converter → Option ℕ → Status × Converter
unit_or_error cv none = (invalid_hexchars, cv)
unit_or_error cv (some res) = take_unit cv res

unfoldable pub handle_uescape : Converter → Bytes → Status × Converter
handle_uescape cv s =
    let digits = drop 2 s in
    if ltb (length digits) 4 then (invalid_hexchars, cv) else unit_or_error cv (hex_loop 4 0 digits)

-- the end of the loop
unfoldable pub finish : Converter → Status × Converter
finish cv = (if not (cv.last_codepoint == 0) then incomplete_surrogate else success, cv)

-- The loop of `convert`; it jumps over `skip` more characters. `return st` ends it.
abbrev pub and_go_on : Status × Converter → (Converter → Status × Converter) → Status × Converter
and_go_on (success, cv) next = next cv
and_go_on (st, cv) next = (st, cv)

unfoldable pub convert_loop : ℕ → Converter → Bytes → Status × Converter
convert_loop skip cv [] = finish cv
convert_loop (suc skip) cv (c ∷ s) = convert_loop skip cv s
convert_loop zero cv (c ∷ s) = elim (is_uescape (c ∷ s)) [
  | true ↦ and_go_on (handle_uescape cv (c ∷ s)) (λ cv'. convert_loop 5 cv' s)
  | false ↦ convert_loop 0 (record cv { m_out = cv.m_out ++ c ∷ [] }) s
]

-- `convert(s, n, out)`: the status, and `out` with what was appended to it.
unfoldable pub convert : Bytes → Bytes → Status × Bytes
convert s out =
    let (st, cv) = convert_loop 0 (record { m_out = out; last_codepoint = 0 }) s in (st, cv.m_out)
