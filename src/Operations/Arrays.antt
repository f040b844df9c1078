-- ===== src/Operations/Arrays.antt =====
-- subdoc/operations.cc: the array operations and the container's size.
use subjson.Decimal.{to_string}
use subjson.Jsonsl.{JsonType, t_object, t_list}
use subjson.Loc.{
  Bytes, Loc, ptr, ptr_add, assign, bytes_at, no_overlap, overlap, end_at_begin, begin_at_end,
  begin_at_begin, end_at_end,
}
use subjson.Match.{get_match_only}
use subjson.Operations.{Engine, Operation, set_newdoc, lay_out}
use subjson.Operations.Store.{
  is_complete, is_numeric, do_match_common, and_then, do_mkdir_p, mkdir_p_array, loc_comma,
}
use subjson.Path.{size, back, pop}
use subjson.Path.Parse.{Outcome, done, fail, add_array_index}
use subjson.Prelude.Words.{sub64}
use subjson.Prelude.{
  ℕ, zero, suc, ◌+◌, ◌/◌, Bool, true, false, not, ◌&&◌, ◌||◌, List, [], ◌∷◌, leb, ◌==◌,
  if◌then◌else◌, length, get_or,
}
use subjson.SubdocApi
use subjson.SubdocApi.{
  Error, success, path_enoent, path_mismatch, path_einval, doc_notjson, doc_eexists, path_e2big,
}

-- the segments that put the value between the brackets of an empty array
unfoldable pub singleton_segments : Operation → List Loc
singleton_segments op =
    let array_loc = op.m_match.loc_deepest in
    end_at_begin op.m_doc array_loc overlap
    ∷ op.m_userval
    ∷ begin_at_end op.m_doc array_loc overlap
    ∷ []

unfoldable pub insert_singleton_element : Operation → Error × Operation
unfolding singleton_segments
insert_singleton_element op = (success, lay_out (singleton_segments op) op)

-- the segments that put the value in front of an element
unfoldable pub before_segments : Operation → List Loc
before_segments op =
    let loc = op.m_match.loc_deepest in
    end_at_begin op.m_doc loc no_overlap
    ∷ op.m_userval
    ∷ loc_comma
    ∷ begin_at_begin op.m_doc loc
    ∷ []

-- the segments that put the value behind the last element
unfoldable pub behind_segments : Operation → List Loc
behind_segments op =
    let array_loc = op.m_match.loc_deepest in
    end_at_end op.m_doc array_loc no_overlap
    ∷ loc_comma
    ∷ op.m_userval
    ∷ begin_at_end op.m_doc array_loc overlap
    ∷ []

-- `do_list_prepend` once the match is there
unfoldable pub prepend_matched : Operation → Error × Operation
unfolding insert_singleton_element do_mkdir_p before_segments SubdocApi.is_mkdir_p
prepend_matched op =
    if not (is_complete op.m_match.matchres)
    then (if op.m_match.immediate_parent_found
        then insert_singleton_element op
        else if SubdocApi.is_mkdir_p op.m_optype
        then do_mkdir_p mkdir_p_array op
        else (path_enoent, op))
    else (success, lay_out (before_segments op) op)

-- the search for the first element; it is popped off the path again
abbrev prepend_with : Engine → Operation → Outcome (Unit {0}) → Error × Operation
prepend_with e op (fail x p) = (path_e2big, record op { m_path = p })
prepend_with e op (done _ p) =
    let (rv, op') = do_match_common e get_match_only (record op { m_path = p }) in
    and_then (rv, record op' { m_path = pop op'.m_path }) prepend_matched

unfoldable pub do_list_prepend : Engine → Operation → Error × Operation
unfolding do_match_common prepend_matched
do_list_prepend e op = prepend_with e op (add_array_index 0 op.m_path)

-- the size as the answer
abbrev pub reply_size : ℕ → Operation → Error × Operation
reply_size n op =
    let s = to_string n in
    (
      success,
      record op {
        m_result = record op.m_result {
          m_numbuf = s;
          m_newlen = 1;
          m_match = assign (ptr s 0) (length s);
        };
      },
    )

abbrev pub size_of_type : JsonType → ℕ → Operation → Error × Operation
size_of_type t_object n op = reply_size (n / 2) op
size_of_type t_list n op = reply_size n op
size_of_type _ n op = (path_mismatch, op)

unfoldable pub do_container_size : Engine → Operation → Error × Operation
unfolding do_match_common
do_container_size e op = and_then (do_match_common e get_match_only op) λ op.
    if not (is_complete op.m_match.matchres)
    then (path_enoent, op)
    else size_of_type op.m_match.type op.m_match.num_children op

-- `isspace` in the C locale
abbrev pub isspace : ℕ → Bool
isspace c = c == 0x20 || leb 0x09 c && leb c 0x0d

abbrev pub is_json_ws : ℕ → Bool
is_json_ws c = c == 0x20 || c == 0x09 || c == 0x0a || c == 0x0d

-- `for (; p != base && test(*p); --p)`: the offset at which it stops
unfoldable pub skip_back : (ℕ → Bool) → Bytes → ℕ → ℕ
skip_back test s zero = zero
skip_back test s (suc i) = elim (test (get_or s (suc i) 0)) [
  | true ↦ skip_back test s i
  | false ↦ suc i
]

-- The document is the bytes from `m_doc.at` on. An empty document is outside what the code can
-- read: here its last byte is 0.
unfoldable pub do_empty_append : Operation → Error × Operation
unfolding skip_back
do_empty_append op =
    let s = bytes_at op.m_doc.at in
    let a_end = skip_back isspace s (sub64 op.m_doc.length 1) in
    let last = get_or s a_end 0 in
    if a_end == 0 || not (last == b']')
    then (if last == b']' || last == b'}' then (path_mismatch, op) else (doc_notjson, op))
    else let e_comma = skip_back is_json_ws s (sub64 a_end 1) in
      let c = get_or s e_comma 0 in
      let head = assign op.m_doc.at (e_comma + 1) in
      let tail = assign (ptr_add op.m_doc.at a_end) 1 in
      if c == b'[' || c == b','
      then (success, lay_out (head ∷ op.m_userval ∷ tail ∷ []) op)
      else if not (isspace c)
      then (success, lay_out (head ∷ loc_comma ∷ op.m_userval ∷ tail ∷ []) op)
      else (doc_notjson, set_newdoc 0 head op)

abbrev pub is_list : JsonType → Bool
is_list t_list = true
is_list _ = false

-- `do_list_append` once the match is there
unfoldable pub append_matched : Bool → Operation → Error × Operation
unfolding insert_singleton_element behind_segments do_mkdir_p SubdocApi.is_mkdir_p
append_matched is_unique op =
    let m = op.m_match in
    if not (is_complete m.matchres)
    then (if SubdocApi.is_mkdir_p op.m_optype
        then do_mkdir_p mkdir_p_array op
        else (path_enoent, op))
    else if not (is_list m.type)
    then (path_mismatch, op)
    else if is_unique && m.unique_item_found
    then (doc_eexists, op)
    else if m.num_children == 0
    then insert_singleton_element op
    else (success, lay_out (behind_segments op) op)

unfoldable pub do_list_append : Engine → Operation → Error × Operation
unfolding do_empty_append do_match_common append_matched SubdocApi.base
do_list_append e op =
    if size op.m_path == 1 && SubdocApi.base op.m_optype == SubdocApi.array_append
    then do_empty_append op
    else let is_unique = SubdocApi.base op.m_optype == SubdocApi.array_add_unique in
      let asked =
        if is_unique
        then record op { m_match = record op.m_match { ensure_unique = op.m_userval } }
        else op in
      and_then (do_match_common e get_match_only asked) (append_matched is_unique)

-- `do_insert` once the match is there
unfoldable pub insert_matched : ℕ → Operation → Error × Operation
unfolding before_segments singleton_segments behind_segments
insert_matched idx op =
    let m = op.m_match in
    if is_complete m.matchres
    then (success, lay_out (before_segments op) op)
    else if m.immediate_parent_found
    then (if m.num_siblings == 0 && idx == 0
        then (success, lay_out (singleton_segments op) op)
        else if idx == m.num_siblings
        then (success, lay_out (behind_segments op) op)
        else (path_enoent, op))
    else (path_enoent, op)

unfoldable pub do_insert : Engine → Operation → Error × Operation
unfolding do_match_common insert_matched
do_insert e op =
    let lastcomp = back op.m_path in
    if not (is_numeric lastcomp.ptype)
    then (path_einval, op)
    else if lastcomp.is_neg
    then (path_einval, op)
    else and_then (do_match_common e get_match_only op) (insert_matched lastcomp.idx)
