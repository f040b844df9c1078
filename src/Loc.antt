-- ===== src/Loc.antt =====
-- subdoc/loc.h: a position and a length in a buffer.
pub mod Splice
use subjson.Prelude.{
  ℕ, ◌+◌, Bool, true, false, List, [], Option, none, some, ◌==◌, if◌then◌else◌, take, drop,
}
use subjson.Prelude.Words.{add64, sub64}

abbrev pub Bytes : Type 0
Bytes = List ℕ

-- A `const char *`: null, or the buffer that it points into with the offset. The buffers are not
-- written while pointers into them are read.
pub data Ptr : Type 0 where
  nullptr : Ptr
  ptr : Bytes → ℕ → Ptr

pub record Loc : Type 0 where
  pub at : Ptr
  pub length : ℕ

-- `OverlapMode`
pub data OverlapMode : Type 0 where
  no_overlap overlap : OverlapMode

abbrev pub offset : Ptr → ℕ
offset nullptr = 0
offset (ptr b i) = i

-- `p - q` for two pointers into one buffer
abbrev pub ptr_diff : Ptr → Ptr → ℕ
ptr_diff p q = sub64 (offset p) (offset q)

abbrev pub ptr_add : Ptr → ℕ → Ptr
ptr_add nullptr n = nullptr
ptr_add (ptr b i) n = ptr b (add64 i n)

abbrev pub ptr_sub : Ptr → ℕ → Ptr
ptr_sub nullptr n = nullptr
ptr_sub (ptr b i) n = ptr b (sub64 i n)

abbrev pub is_null : Ptr → Bool
is_null nullptr = true
is_null (ptr b i) = false

-- what a pointer points at, up to the end of its buffer
abbrev pub bytes_at : Ptr → Bytes
bytes_at nullptr = []
bytes_at (ptr b i) = drop i b

abbrev pub assign : Ptr → ℕ → Loc
assign s n = record { at = s; length = n }

abbrev pub loc_default : Loc
loc_default = record { at = nullptr; length = 0 }

-- `length++` when the two locations overlap
abbrev grow : OverlapMode → ℕ → ℕ
grow overlap n = add64 n 1
grow no_overlap n = n

abbrev shrink : OverlapMode → ℕ → ℕ
shrink overlap n = n
shrink no_overlap n = sub64 n 1

abbrev back_up : OverlapMode → Ptr → Ptr
back_up overlap p = ptr_sub p 1
back_up no_overlap p = p

unfoldable pub end_at_begin : Loc → Loc → OverlapMode → Loc
end_at_begin base until mode = record {
  at = base.at;
  length = grow mode (ptr_diff until.at base.at);
}

unfoldable pub begin_at_end : Loc → Loc → OverlapMode → Loc
begin_at_end base from mode =
    let start = ptr_add from.at from.length in
    record {
      at = back_up mode start;
      length = grow mode (sub64 base.length (ptr_diff start base.at));
    }

unfoldable pub begin_at_begin : Loc → Loc → Loc
begin_at_begin base from = record {
  at = from.at;
  length = sub64 base.length (ptr_diff from.at base.at);
}

unfoldable pub end_at_end : Loc → Loc → OverlapMode → Loc
end_at_end base until mode = record {
  at = base.at;
  length = shrink mode (ptr_diff (ptr_add until.at until.length) base.at);
}

abbrev pub empty : Loc → Bool
empty l = l.length == 0

abbrev pub clear : Loc
clear = loc_default

unfoldable pub ltrim : Loc → ℕ → Loc
ltrim l n = record { at = ptr_add l.at n; length = sub64 l.length n }

unfoldable pub rtrim : Loc → ℕ → Loc
rtrim l n = record l { length = sub64 l.length n }

-- `to_view`: the bytes that the location covers
abbrev pub to_view : Loc → Bytes
to_view l = take l.length (bytes_at l.at)

unfoldable pub to_string : Loc → Bytes
to_string l = if empty l then [] else to_view l
