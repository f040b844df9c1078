-- ===== src/Operations/Counter.antt =====
-- subdoc/operations.cc: the counter operation.
pub mod Range
pub mod Numerals
pub mod Canonical
pub mod CountText
use subjson.Decimal.{to_string}
use subjson.Jsonsl.{JsonType, t_object, t_special}
use subjson.Loc.{Bytes, Loc, ptr, assign, bytes_at, to_view, no_overlap, end_at_begin, begin_at_end}
use subjson.Match.{get_match_only, get_following_siblings}
use subjson.Operations.{Engine, Operation, set_numbuf, lay_out}
use subjson.Operations.Arrays.{isspace}
use subjson.Operations.Store.{is_complete, do_match_common, and_then, do_store_dict}
use subjson.Prelude.Int.{ℤ, pos, negsuc, ◌+ℤ◌, ◌-ℤ◌, ltb_ℤ}
use subjson.Prelude.{
  ℕ, zero, suc, ◌+◌, ◌-◌, ◌*◌, ◌/◌, ◌^◌, Bool, true, false, not, ◌&&◌, List, [], ◌∷◌, Option, none,
  some, leb, ◌==◌, if◌then◌else◌, length,
}
use subjson.SubdocApi
use subjson.SubdocApi.{
  Error, success, path_enoent, path_mismatch, num_e2big, delta_overflow, delta_einval, value_empty,
}

abbrev pub int64_max : ℤ
int64_max = pos (2 ^ 63 - 1)

abbrev pub int64_min : ℤ
int64_min = negsuc (2 ^ 63 - 1)

abbrev pub is_digit : ℕ → Bool
is_digit c = leb 0x30 c && leb c 0x39

-- The digits in front, as a number, and the rest.
unfoldable pub read_digits : ℕ → Bytes → ℕ × Bytes
read_digits n [] = (n, [])
read_digits n (c ∷ s) =
    let more = read_digits (n * 10 + (c - 0x30)) s in if is_digit c then more else (n, c ∷ s)

abbrev pub signed : Bool → ℕ → ℤ
signed true zero = pos 0
signed true (suc n) = negsuc n
signed false n = pos n

abbrev pub in_int64 : ℤ → Bool
in_int64 z = not (ltb_ℤ z int64_min) && not (ltb_ℤ int64_max z)

abbrev pub starts_with_digit : Bytes → Bool
starts_with_digit [] = false
starts_with_digit (c ∷ s) = is_digit c

-- a '-' in front, and what follows it
abbrev pub split_minus : Bytes → Bool × Bytes
split_minus [] = (false, [])
split_minus (c ∷ s) = if c == b'-' then (true, s) else (false, c ∷ s)

-- `std::from_chars` for `int64_t`: the value and the bytes that are left; none if there is no
-- number or it is out of range.
unfoldable pub from_chars : Bytes → Option (ℤ × Bytes)
unfolding read_digits
from_chars s =
    let (neg, digits) = split_minus s in
    let (n, rest) = read_digits 0 digits in
    let z = signed neg n in
    if not (starts_with_digit digits) then none else if in_int64 z then some (z, rest) else none

abbrev pub is_zero : ℤ → Bool
is_zero (pos zero) = true
is_zero _ = false

abbrev pub checked_delta : Option (ℤ × Bytes) → Option ℤ
checked_delta none = none
checked_delta (some (z, [])) = if is_zero z then none else some z
checked_delta (some (z, c ∷ rest)) = none

abbrev pub starts_with_zero : Bytes → Bool
starts_with_zero [] = false
starts_with_zero (c ∷ s) = c == b'0'

-- The delta, or the error.
pub data Delta : Type 0 where
  parsed : ℤ → Delta
  refused : Error → Delta

abbrev pub delta_or_error : Option ℤ → Delta
delta_or_error none = refused delta_einval
delta_or_error (some z) = parsed z

unfoldable pub parse_int64 : Loc → Delta
unfolding from_chars
parse_int64 orig =
    let view = to_view orig in
    if orig.length == 0
    then refused value_empty
    else if starts_with_zero (split_minus view).1
    then refused delta_einval
    else delta_or_error (checked_delta (from_chars view))

unfoldable pub skip_space : Bytes → Bytes
skip_space [] = []
skip_space (c ∷ s) = let more = skip_space s in if isspace c then more else c ∷ s

abbrev split_sign : Bytes → Bool × Bytes
split_sign [] = (false, [])
split_sign (c ∷ s) =
    if c == b'-' then (true, s) else if c == b'+' then (false, s) else (false, c ∷ s)

-- `strtoll` with base 10: none is ERANGE.
unfoldable pub strtoll : Bytes → Option ℤ
unfolding skip_space read_digits
strtoll s =
    let (neg, digits) = split_sign (skip_space s) in
    let z = signed neg (read_digits 0 digits).0 in if in_int64 z then some z else none

-- `std::to_string` of an `int64_t`
unfoldable pub to_string_int : ℤ → Bytes
to_string_int (pos n) = to_string n
to_string_int (negsuc n) = b'-' ∷ to_string (n + 1)

-- The tests before the addition: true means DELTA_OVERFLOW.
unfoldable pub would_overflow : ℤ → ℤ → Bool
unfolding ◌-ℤ◌
would_overflow delta numres =
    let nonneg = λ (z : ℤ). not (ltb_ℤ z (pos 0)) in
    if nonneg delta && nonneg numres
    then ltb_ℤ (int64_max -ℤ delta) numres
    else if not (nonneg delta) && not (nonneg numres)
    then ltb_ℤ delta (int64_min -ℤ numres)
    else false

abbrev pub is_special : JsonType → Bool
is_special t_special = true
is_special _ = false

abbrev is_object : JsonType → Bool
is_object t_object = true
is_object _ = false

-- what is put in place of the number
unfoldable pub counter_segments : Bytes → Operation → List Loc
counter_segments numbuf op =
    let match_loc = op.m_match.loc_deepest in
    end_at_begin op.m_doc match_loc no_overlap
    ∷ assign (ptr numbuf 0) (length numbuf)
    ∷ begin_at_end op.m_doc match_loc no_overlap
    ∷ []

-- `m_result->m_match = m_match.loc_deepest = loc`
abbrev pub answer : Loc → Operation → Operation
answer loc op = record op {
  m_match = record op.m_match { loc_deepest = loc };
  m_result = record op.m_result { m_match = loc };
}

abbrev pub add_delta : ℤ → Operation → Option ℤ → Error × Operation
add_delta delta op none = (num_e2big, op)
add_delta delta op (some numres) =
    let numbuf = to_string_int (numres +ℤ delta) in
    if would_overflow delta numres then (delta_overflow, op) else (
      success,
      answer (assign (ptr numbuf 0) (length numbuf))
          (lay_out (counter_segments numbuf op) (set_numbuf numbuf op)),
    )

-- the number is there; the low two flags are SIGNED and UNSIGNED
unfoldable pub count_matched : ℤ → Operation → Error × Operation
unfolding strtoll to_string_int would_overflow counter_segments ◌+ℤ◌
count_matched delta op =
    let m = op.m_match in
    if not (is_special m.type)
    then (path_mismatch, op)
    else if not (m.sflags / 4 == 0)
    then (path_mismatch, op)
    else add_delta delta op (strtoll (bytes_at m.loc_deepest.at))

-- the number is missing: the delta becomes the value
unfoldable pub count_missing : ℤ → Operation → Error × Operation
unfolding to_string_int do_store_dict SubdocApi.is_mkdir_p
count_missing delta op =
    if not (SubdocApi.is_mkdir_p op.m_optype) && not op.m_match.immediate_parent_found
    then (path_enoent, op)
    else if not (is_object op.m_match.type)
    then (path_enoent, op)
    else let numbuf = to_string_int delta in
      let value = assign (ptr numbuf 0) (length numbuf) in
      let asked = record (set_numbuf numbuf op) {
        m_userval = value;
        m_optype = SubdocApi.dict_add_p;
      } in
      and_then (do_store_dict asked) (λ op. (success, answer value op))

abbrev count_with : Engine → Operation → Delta → Error × Operation
count_with e op (refused x) = (x, op)
count_with e op (parsed d) =
    let options =
      if SubdocApi.is_mkdir_p op.m_optype then get_following_siblings else get_match_only in
    and_then (do_match_common e options op)
      λ op. if is_complete op.m_match.matchres then count_matched d op else count_missing d op

unfoldable pub do_arith_op : Engine → Operation → Error × Operation
unfolding parse_int64 do_match_common count_matched count_missing
do_arith_op e op = count_with e op (parse_int64 op.m_userval)
