-- ===== src/Operations/Counter/CountText.antt =====
-- The document that the counter produces.
use subjson.Match.{SearchOptions, get_following_siblings, get_match_only}
use subjson.SubdocApi
use subjson.Operations.Store.{is_complete, match_error, do_match_common}
use subjson.Jsonsl.{t_special, complete, JsonslError}
use subjson.Loc.{Bytes, bytes_at}
use subjson.Loc.Splice.{to_view-end_at_begin, to_view-begin_at_end}
use subjson.Operations.{Engine, Operation, text, set_numbuf}
use subjson.Operations.Counter.{
  count_matched, counter_segments, to_string_int, would_overflow, in_int64, starts_with_digit,
  is_special, strtoll, do_arith_op, parse_int64, parsed, add_delta,
}
use subjson.Operations.Counter.Numerals.{parse_int64-in_int64, strtoll-to_string_int}
use subjson.Operations.Counter.Range.{would_overflow-in_int64}
use subjson.Operations.Layout.{searched, Produces, Found, lay_out-Produces}
use subjson.Prelude.Int.{ℤ, ◌+ℤ◌}
use subjson.Prelude.{
  ◌/◌, ◌≡◌, refl, ap, ◌∙◌, arith, true, false, not, ◌++◌, append-nil, ◌==◌, if◌then◌else◌, length,
  some, drop, drop-append, take_all,
}
use subjson.SubdocApi.{Error, success, delta_overflow}

module _ (op : Operation) (doc pre post : Bytes) (numres delta : ℤ)
    (f : Found op doc pre (to_string_int numres) post) where
  -- The bytes from the number on.
  number_at : bytes_at op.m_match.loc_deepest.at ≡ to_string_int numres ++ post
  number_at = rw (f.cut.loc_is) (
      ap (drop (length pre)) f.cut.doc_is
      ∙ drop-append (length pre) pre (to_string_int numres ++ post) refl)

  text-counter_segments :
      (numbuf : Bytes) → text (counter_segments numbuf op) ≡ pre ++ (numbuf ++ post)
  unfolding counter_segments
  text-counter_segments numbuf =
      let l = op.m_match.loc_deepest in
      rw
        (
          f.whole_doc,
          to_view-end_at_begin doc l pre (to_string_int numres) post f.cut,
          to_view-begin_at_end doc l pre (to_string_int numres) post f.cut,
          append-nil post,
          take_all (length numbuf) numbuf (omega arith),
        )
        refl

  adds :
      op.m_match.type ≡ t_special
      → (op.m_match.sflags / 4 == 0) ≡ true
      → starts_with_digit post ≡ false
      → in_int64 numres ≡ true
      → count_matched delta op ≡ add_delta delta op (some numres)
  unfolding count_matched
  adds special integer stop range =
      let number : not (is_special op.m_match.type) ≡ false =
        ap (λ t. not (is_special t)) special in
      let flags : not (op.m_match.sflags / 4 == 0) ≡ false = ap not integer in
      let value : strtoll (bytes_at op.m_match.loc_deepest.at) ≡ some numres =
        ap strtoll number_at ∙ strtoll-to_string_int numres post range stop in
      rw (number, flags) (ap (add_delta delta op) value)

  count_matched-Produces :
      op.m_match.type ≡ t_special
      → (op.m_match.sflags / 4 == 0) ≡ true
      → starts_with_digit post ≡ false
      → in_int64 numres ≡ true
      → in_int64 delta ≡ true
      → in_int64 (numres +ℤ delta) ≡ true
      → Produces (count_matched delta op) (pre ++ (to_string_int (numres +ℤ delta) ++ post))
  count_matched-Produces special integer stop range range' fits =
      let fine : would_overflow delta numres ≡ false =
        would_overflow-in_int64 delta numres range' range ∙ ap not fits in
      let numbuf = to_string_int (numres +ℤ delta) in
      rw (adds special integer stop range, fine)
        (lay_out-Produces (counter_segments numbuf op) (set_numbuf numbuf op)
          (unfold counter_segments in omega arith) f.slots (text-counter_segments numbuf))

  count_matched_refuses :
      op.m_match.type ≡ t_special
      → (op.m_match.sflags / 4 == 0) ≡ true
      → starts_with_digit post ≡ false
      → in_int64 numres ≡ true
      → in_int64 delta ≡ true
      → in_int64 (numres +ℤ delta) ≡ false
      → count_matched delta op ≡ (delta_overflow, op)
  count_matched_refuses special integer stop range range' over =
      let wraps : would_overflow delta numres ≡ true =
        would_overflow-in_int64 delta numres range' range ∙ ap not over in
      rw (adds special integer stop range, wraps) refl

-- the search of the counter
abbrev pub count_options : Operation → SearchOptions
count_options op =
    if SubdocApi.is_mkdir_p op.m_optype then get_following_siblings else get_match_only

module _ (e : Engine) (op : Operation) (doc pre post : Bytes) (numres delta : ℤ)
    (asked : parse_int64 op.m_userval ≡ parsed delta)
    (found : (searched e (count_options op) op).m_match.matchres ≡ complete)
    (ok : (searched e (count_options op) op).m_match.status ≡ JsonslError.success)
    (f : Found (searched e (count_options op) op) doc pre (to_string_int numres) post)
    (special : (searched e (count_options op) op).m_match.type ≡ t_special)
    (integer : ((searched e (count_options op) op).m_match.sflags / 4 == 0) ≡ true)
    (stop : starts_with_digit post ≡ false) (range : in_int64 numres ≡ true) where
  counted : do_arith_op e op ≡ count_matched delta (searched e (count_options op) op)
  unfolding do_arith_op do_match_common
  counted =
      let here = searched e (count_options op) op in
      let hit : is_complete here.m_match.matchres ≡ true = ap is_complete found in
      let fine : match_error here.m_match.matchres here.m_match.status ≡ success =
        ap (λ r. match_error r here.m_match.status) found ∙ ap (match_error complete) ok in
      rw (asked, fine, hit) refl

  -- A counter whose delta is accepted, and whose search finds an integer that is in the range of a
  -- signed 64-bit integer and printed the way the counter prints, with no digit behind it: if a
  -- signed 64-bit integer holds the sum, the sum takes the number's place and nothing else of the
  -- document changes.
  pub counter-Produces :
      in_int64 (numres +ℤ delta) ≡ true
      → Produces (do_arith_op e op) (pre ++ (to_string_int (numres +ℤ delta) ++ post))
  counter-Produces fits =
      let range' = (parse_int64-in_int64 op.m_userval delta asked).0 in
      rw counted (
        count_matched-Produces (searched e (count_options op) op) doc pre post numres delta f
          special integer stop range range' fits)

  -- A counter whose delta is accepted, and whose search finds an integer that is in the range of a
  -- signed 64-bit integer and printed the way the counter prints, with no digit behind it: if no
  -- signed 64-bit integer holds the sum, the answer is DELTA_OVERFLOW, and the operation is as the
  -- search left it.
  pub counter_refuses :
      in_int64 (numres +ℤ delta) ≡ false
      → do_arith_op e op ≡ (delta_overflow, searched e (count_options op) op)
  counter_refuses over =
      let range' = (parse_int64-in_int64 op.m_userval delta asked).0 in
      counted
      ∙ count_matched_refuses (searched e (count_options op) op) doc pre post numres delta f special
          integer stop range range' over
