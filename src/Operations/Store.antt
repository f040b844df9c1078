-- ===== src/Operations/Store.antt =====
-- subdoc/operations.cc: matching, get, remove, the dictionary operations and mkdir_p.
use subjson.Jsonsl.{
  JsonslError, levels_exceeded, MatchResult, complete, type_mismatch, PathType, path_numeric,
  path_string,
}
use subjson.Loc.{
  Bytes, Loc, nullptr, ptr, ptr_add, assign, to_view, empty, no_overlap, overlap, end_at_begin,
  begin_at_end, end_at_end,
}
use subjson.Match.{SearchOptions, get_following_siblings, is_last}
use subjson.Operations.{Engine, Operation, set_newdoc, set_bkbuf, lay_out}
use subjson.Path.{Component, get_component, back, active}
use subjson.Prelude.Words.{sub64}
use subjson.Prelude.{
  ℕ, ◌+◌, Bool, true, false, not, ◌&&◌, List, [], ◌∷◌, ◌++◌, Option, none, some, ◌==◌,
  if◌then◌else◌, length, drop,
}
use subjson.SubdocApi
use subjson.SubdocApi.{
  Error, success, path_enoent, path_mismatch, path_einval, doc_notjson, doc_eexists, doc_etoodeep,
}

-- `loc_COMMA` and the other constants
abbrev pub literal : Bytes → Loc
literal s = record { at = ptr s 0; length = length s }

abbrev pub loc_comma : Loc
loc_comma = literal (b',' ∷ [])

abbrev pub loc_quote : Loc
loc_quote = literal (b'"' ∷ [])

abbrev pub loc_comma_quote : Loc
loc_comma_quote = literal (b',' ∷ b'"' ∷ [])

abbrev pub loc_quote_colon : Loc
loc_quote_colon = literal (b'"' ∷ b':' ∷ [])

abbrev pub is_complete : MatchResult → Bool
is_complete complete = true
is_complete _ = false

abbrev pub is_numeric : PathType → Bool
is_numeric path_numeric = true
is_numeric _ = false

abbrev pub is_string : PathType → Bool
is_string path_string = true
is_string _ = false

-- the error for a `status` of the parser
abbrev pub status_error : JsonslError → Error
status_error JsonslError.success = success
status_error levels_exceeded = doc_etoodeep
status_error _ = doc_notjson

abbrev pub match_error : MatchResult → JsonslError → Error
match_error type_mismatch status = path_mismatch
match_error _ status = status_error status

unfoldable pub do_match_common : Engine → SearchOptions → Operation → Error × Operation
do_match_common e options op =
    let m = e.exec_match (record op.m_match { extra_options = options }) op.m_doc op.m_path in
    (match_error m.matchres m.status, record op { m_match = m })

-- `if (!rv.success()) return rv;` and what follows
abbrev pub and_then : Error × Operation → (Operation → Error × Operation) → Error × Operation
and_then (success, op) next = next op
and_then (rv, op) next = (rv, op)

unfoldable pub do_get : Operation → Error × Operation
do_get op =
    if not (is_complete op.m_match.matchres)
    then (path_enoent, op)
    else (success, record op { m_result = record op.m_result { m_match = op.m_match.loc_deepest } })

-- the offset of the first comma, from `ii` on
unfoldable pub first_comma : ℕ → Bytes → Option ℕ
first_comma ii [] = none
first_comma ii (c ∷ s) = if c == b',' then some ii else first_comma (ii + 1) s

-- the offset of the last comma
unfoldable pub last_comma : ℕ → Bytes → Option ℕ
last_comma ii [] = none
last_comma ii (c ∷ s) = elim (last_comma (ii + 1) s) [
  | some jj ↦ some jj
  | none ↦ if c == b',' then some ii else none
]

abbrev cut_front : Loc → Option ℕ → Loc
cut_front loc none = loc
cut_front loc (some ii) = record {
  at = ptr_add loc.at (ii + 1);
  length = sub64 loc.length (ii + 1);
}

abbrev cut_back : Loc → Option ℕ → Loc
cut_back loc none = loc
cut_back loc (some ii) = record loc { length = ii }

-- `strip_comma` with STRIP_FIRST_COMMA and with STRIP_LAST_COMMA
unfoldable pub strip_first_comma : Loc → Loc
strip_first_comma loc = cut_front loc (first_comma 0 (to_view loc))

unfoldable pub strip_last_comma : Loc → Loc
strip_last_comma loc = cut_back loc (last_comma 0 (to_view loc))

-- the two segments of `do_remove`, once the match is there
unfoldable pub remove_segments : Operation → List Loc
remove_segments op =
    let m = op.m_match in
    let from = if not (empty m.loc_key) then m.loc_key else m.loc_deepest in
    let before = end_at_begin op.m_doc from no_overlap in
    let behind = begin_at_end op.m_doc m.loc_deepest no_overlap in
    if m.num_siblings == 0
    then before ∷ behind ∷ []
    else if is_last m
    then strip_last_comma before ∷ behind ∷ []
    else before ∷ strip_first_comma behind ∷ []

unfoldable pub do_remove : Engine → Operation → Error × Operation
unfolding do_match_common remove_segments
do_remove e op = and_then (do_match_common e get_following_siblings op) λ op.
    if not (is_complete op.m_match.matchres)
    then (path_enoent, op)
    else (success, lay_out (remove_segments op) op)

-- `MkdirPMode`
pub data MkdirPMode : Type 0 where
  mkdir_p_array mkdir_p_dict : MkdirPMode

-- the string of a component, as a pointer and as bytes
abbrev pub key_loc : Component → Loc
key_loc c = assign (elim c.pstr [ none ↦ nullptr | some s ↦ ptr s 0 ]) c.len

abbrev pub key_bytes : Component → Bytes
key_bytes c = to_view (key_loc c)

-- The loop that opens the missing dictionaries. The flag is false on the early return.
unfoldable pub open_keys : List Component → Bytes → Bool × Bytes
open_keys [] bkbuf = (true, bkbuf)
open_keys (c ∷ cs) bkbuf =
    let rest = open_keys cs (bkbuf ++ b'{' ∷ b'"' ∷ (key_bytes c ++ b'"' ∷ b':' ∷ [])) in
    if not (is_string c.ptype) then (false, bkbuf) else rest

unfoldable pub close_keys : List Component → Bytes → Bytes
close_keys [] bkbuf = bkbuf
close_keys (c ∷ cs) bkbuf = close_keys cs (bkbuf ++ b'}' ∷ [])

-- the components behind the one at `match_level`
abbrev pub missing : Operation → List Component
missing op = drop (op.m_match.match_level + 1) (active op.m_path)

abbrev pub opening : MkdirPMode → Bytes
opening mkdir_p_array = b'[' ∷ []
opening mkdir_p_dict = []

abbrev pub closing : MkdirPMode → Bytes
closing mkdir_p_array = b']' ∷ []
closing mkdir_p_dict = []

-- the end of `do_mkdir_p`: the header is in the buffer
unfoldable pub mkdir_segments : MkdirPMode → Bytes → Operation → Error × Operation
unfolding close_keys
mkdir_segments mode header op =
    let parent_loc = op.m_match.loc_deepest in
    let opened = header ++ opening mode in
    let bkbuf = close_keys (missing op) (opened ++ closing mode) in
    (
      success,
      lay_out
          (end_at_end op.m_doc parent_loc no_overlap
            ∷ assign (ptr bkbuf 0) (length opened)
            ∷ op.m_userval
            ∷ assign (ptr_add (ptr bkbuf 0) (length opened)) (sub64 (length bkbuf) (length opened))
            ∷ begin_at_end op.m_doc parent_loc overlap
            ∷ [])
          (set_bkbuf bkbuf op),
    )

abbrev pub mkdir_opened : MkdirPMode → Operation → Bool × Bytes → Error × Operation
mkdir_opened mode op (true, bkbuf) = mkdir_segments mode bkbuf (set_bkbuf bkbuf op)
mkdir_opened mode op (false, bkbuf) = (path_enoent, set_bkbuf bkbuf op)

unfoldable pub do_mkdir_p : MkdirPMode → Operation → Error × Operation
unfolding open_keys
do_mkdir_p mode start =
    let parent_loc = start.m_match.loc_deepest in
    let op = set_newdoc 0 (end_at_end start.m_doc parent_loc no_overlap) start in
    let comma = if op.m_match.num_siblings == 0 then [] else b',' ∷ [] in
    let bkbuf = op.m_result.m_bkbuf ++ comma in
    let comp = get_component op.m_path op.m_match.match_level in
    if is_numeric comp.ptype
    then (path_enoent, set_bkbuf bkbuf op)
    else mkdir_opened mode op
        (open_keys (missing op) (bkbuf ++ b'"' ∷ (key_bytes comp ++ b'"' ∷ b':' ∷ [])))

-- the segments that replace a value
unfoldable pub replace_segments : Operation → List Loc
replace_segments op =
    let match_loc = op.m_match.loc_deepest in
    end_at_begin op.m_doc match_loc no_overlap
    ∷ op.m_userval
    ∷ begin_at_end op.m_doc match_loc no_overlap
    ∷ []

-- the segments that add a key to its parent
unfoldable pub add_segments : Operation → List Loc
add_segments op =
    let parent_loc = op.m_match.loc_deepest in
    end_at_end op.m_doc parent_loc no_overlap
    ∷ (if op.m_match.num_siblings == 0 then loc_quote else loc_comma_quote)
    ∷ key_loc (back op.m_path)
    ∷ loc_quote_colon
    ∷ op.m_userval
    ∷ begin_at_end op.m_doc parent_loc overlap
    ∷ []

unfoldable pub do_store_dict : Operation → Error × Operation
unfolding SubdocApi.is_mkdir_p SubdocApi.base
do_store_dict op =
    let is_replace = op.m_optype == SubdocApi.replace in
    if not is_replace && is_numeric (back op.m_path).ptype
    then (path_einval, op)
    else if not (is_complete op.m_match.matchres)
    then (if is_replace
        then (path_enoent, op)
        else if not op.m_match.immediate_parent_found
        then (if SubdocApi.is_mkdir_p op.m_optype
            then do_mkdir_p mkdir_p_dict op
            else (path_enoent, op))
        else (success, lay_out (add_segments op) op))
    else if SubdocApi.base op.m_optype == SubdocApi.dict_add
    then (doc_eexists, op)
    else (success, lay_out (replace_segments op) op)
