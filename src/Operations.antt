-- ===== src/Operations.antt =====
-- subdoc/operations.h: `Result` and `Operation`, and what an operation asks of the other parts.
pub mod Store
pub mod Arrays
pub mod Counter
pub mod Exec
pub mod Layout
pub mod StoreText
pub mod Commas
pub mod RemoveText
pub mod Guards
pub mod MkdirText
pub mod EmptyAppend
pub mod ArrayText
pub mod Composed
pub mod Fetch
pub mod Sizes
pub mod Replace
use subjson.Loc.{Bytes, Loc, loc_default, assign, Ptr, nullptr, to_view}
use subjson.Match.{Match, match_default}
use subjson.Path.{SubdocPath, path_new}
use subjson.Prelude.{
  ℕ, ◌+◌, Bool, true, false, List, [], ◌∷◌, ◌++◌, ltb, if◌then◌else◌, length, set, take, replicate,
}
use subjson.SubdocApi.{Command, get}
use subjson.Validate.{ValidateStatus}

-- `m_newdoc` is an array of 8 locations.
pub record Result : Type 0 where
  pub m_bkbuf : Bytes
  pub m_numbuf : Bytes
  pub m_newdoc : List Loc
  pub m_newlen : ℕ
  pub m_match : Loc

abbrev pub result_new : Result
result_new = record {
  m_bkbuf = [];
  m_numbuf = [];
  m_newdoc = replicate 8 loc_default;
  m_newlen = 0;
  m_match = loc_default;
}

-- `newdoc`: the segments in use
abbrev pub newdoc : Result → List Loc
newdoc r = take r.m_newlen r.m_newdoc

unfoldable pub push_newdoc : Result → Loc → Bool × Result
push_newdoc r new_loc =
    if ltb r.m_newlen (length r.m_newdoc)
    then (
      true,
      record r { m_newdoc = set r.m_newdoc r.m_newlen new_loc; m_newlen = r.m_newlen + 1 },
    )
    else (false, r)

unfoldable pub result_clear : Result → Result
result_clear r = record r {
  m_bkbuf = [];
  m_numbuf = [];
  m_match = record r.m_match { length = 0 };
  m_newlen = 0;
}

-- The result buffer that `set_result_buf` names is held here by value.
pub record Operation : Type 0 where
  pub m_path : SubdocPath
  pub m_match : Match
  pub m_optype : Command
  pub m_doc : Loc
  pub m_userval : Loc
  pub m_result : Result

-- What the operations call: the matcher of match.cc, which answers with a new match, and the
-- validator, on a value with a depth and a mode.
pub record Engine : Type 0 where
  pub exec_match : Match → Loc → SubdocPath → Match
  pub validate : Loc → ℕ → ℕ → ValidateStatus

-- `newdoc_at(n) = loc`
abbrev pub set_newdoc : ℕ → Loc → Operation → Operation
set_newdoc n loc op = record op {
  m_result = record op.m_result { m_newdoc = set op.m_result.m_newdoc n loc };
}

abbrev pub set_newlen : ℕ → Operation → Operation
set_newlen n op = record op { m_result = record op.m_result { m_newlen = n } }

abbrev pub set_numbuf : Bytes → Operation → Operation
set_numbuf s op = record op { m_result = record op.m_result { m_numbuf = s } }

abbrev pub set_bkbuf : Bytes → Operation → Operation
set_bkbuf s op = record op { m_result = record op.m_result { m_bkbuf = s } }

-- Writes the segments from slot `n` on.
abbrev pub set_segments : ℕ → List Loc → Operation → Operation
set_segments n [] op = op
set_segments n (l ∷ ls) op = set_segments (n + 1) ls (set_newdoc n l op)

-- The segments of the new document, one after the other, and their count.
unfoldable pub lay_out : List Loc → Operation → Operation
lay_out ls op = set_newlen (length ls) (set_segments 0 ls op)

-- the bytes of the new document
abbrev pub text : List Loc → Bytes
text [] = []
text (l ∷ ls) = to_view l ++ text ls

abbrev pub new_text : Operation → Bytes
new_text op = text (newdoc op.m_result)
