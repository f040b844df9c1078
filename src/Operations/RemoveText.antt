-- ===== src/Operations/RemoveText.antt =====
-- The documents that the removal produces.
use subjson.Jsonsl.{JsonslError, complete}
use subjson.Loc.{Bytes, Loc, to_view, empty, end_at_begin, begin_at_end, no_overlap}
use subjson.Loc.Splice.{
  Cut, Cut-Within, begin_at_end_lem, whole, span, to_view-end_at_begin, to_view-begin_at_end,
}
use subjson.Match.{get_following_siblings, is_last}
use subjson.Operations.{Engine, Operation, text}
use subjson.Operations.Layout.{searched, Produces, lay_out-Produces}
use subjson.Operations.Store.{
  is_complete, match_error, do_match_common, do_remove, strip_first_comma, strip_last_comma,
  remove_segments,
}
use subjson.SubdocApi.{success}
use subjson.Prelude.{
  ◌+◌, ◌-◌, ◌≤◌, ◌<◌, ◌≡◌, ◌≢◌, ap, ◌∙◌, arith, true, false, not, [], ◌∷◌, ◌++◌, append-nil, ◌==◌,
  if◌then◌else◌, length, length-append,
}
use subjson.Operations.Commas.{NoComma, strip_first_view, strip_last_view}

-- where the removal starts: at the key, or at the value in an array
abbrev pub removed_from : Operation → Loc
removed_from op =
    if not (empty op.m_match.loc_key) then op.m_match.loc_key else op.m_match.loc_deepest

-- The document is `pre`, then what is removed (it starts with `start`, goes on with `following` and
-- ends in the value `mid`), then `post`.
pub record Doomed (op : Operation) (doc pre mid post : Bytes) : Type 0 where
  pub whole_doc : op.m_doc ≡ whole doc
  pub start : Bytes
  pub following : Bytes
  pub at_start : Cut doc (removed_from op) pre start following
  pub front : Bytes
  pub at_value : Cut doc op.m_match.loc_deepest front mid post
  pub slots : length op.m_result.m_newdoc ≡ 8

-- What stays of the two sides, by the number of the child (from 0) and the number of its siblings:
-- all of them around an only child; the comma in front of the last child goes with it, and so does
-- the comma behind any other child.
pub data Stays (op : Operation) (pre post : Bytes) : Bytes → Bytes → Type 0 where
  only : op.m_match.num_siblings ≡ 0 → Stays op pre post pre post
  at_end :
      (kept ws : Bytes)
      → op.m_match.num_siblings ≢ 0
      → op.m_match.position ≡ op.m_match.num_siblings
      → pre ≡ kept ++ b',' ∷ ws
      → NoComma ws
      → Stays op pre post kept post
  earlier :
      (ws kept : Bytes)
      → op.m_match.position < op.m_match.num_siblings
      → post ≡ ws ++ b',' ∷ kept
      → NoComma ws
      → Stays op pre post pre kept

text_two : (a b : Loc) (s t : Bytes) → to_view a ≡ s → to_view b ≡ t → text (a ∷ b ∷ []) ≡ s ++ t
text_two a b s t ea eb = rw (ea, eb) (ap (λ k. s ++ k) (append-nil t))

-- the two sides, before a comma goes
abbrev ahead : Operation → Loc
ahead op = end_at_begin op.m_doc (removed_from op) no_overlap

abbrev behind : Operation → Loc
behind op = begin_at_end op.m_doc op.m_match.loc_deepest no_overlap

module _ (op : Operation) (doc pre mid post : Bytes) (d : Doomed op doc pre mid post) where
  ahead_view : to_view (ahead op) ≡ pre
  ahead_view =
      rw (d.whole_doc)
        (to_view-end_at_begin doc (removed_from op) pre d.start d.following d.at_start)

  behind_view : to_view (behind op) ≡ post
  behind_view =
      rw (d.whole_doc) (to_view-begin_at_end doc op.m_match.loc_deepest d.front mid post d.at_value)

  behind-span :
      behind op
      ≡ span doc (length d.front + length mid) (length doc - (length d.front + length mid))
  behind-span =
      rw (d.whole_doc, d.at_value.loc_is)
        (begin_at_end_lem doc (length d.front) (length mid) (Cut-Within d.at_value))

  length_doc : length doc ≡ length d.front + length mid + length post
  length_doc = omega (
    arith,
    ap length d.at_value.doc_is,
    length-append {0} d.front (mid ++ post),
    length-append {0} mid post,
  )

  stripped_behind_view :
      (ws kept : Bytes)
      → post ≡ ws ++ b',' ∷ kept
      → NoComma ws
      → to_view (strip_first_comma (behind op)) ≡ kept
  stripped_behind_view ws kept e h =
      let small = d.at_value.small in
      let long : length ws + 1 ≤ length post =
        omega (arith, ap length e, length-append {0} ws (b',' ∷ kept)) in
      strip_first_view (behind op) doc ws kept _ _ behind-span
        (record { fits = omega (arith, length_doc); small = small }) (omega (arith, length_doc))
        (behind_view ∙ e) h

  text-remove_segments :
      (pre' post' : Bytes)
      → Stays op pre post pre' post'
      → text (remove_segments op) ≡ pre' ++ post'
  unfolding remove_segments
  text-remove_segments _ _ (only alone) =
      let count : (op.m_match.num_siblings == 0) ≡ true = ground arith in
      rw count (text_two (ahead op) (behind op) pre post ahead_view behind_view)
  text-remove_segments _ _ (at_end kept ws siblings final e h) =
      let count : (op.m_match.num_siblings == 0) ≡ false = ground arith in
      let last : is_last op.m_match ≡ true = unfold is_last in ground arith in
      rw (count, last)
        (text_two (strip_last_comma (ahead op)) (behind op) kept post
          (strip_last_view (ahead op) kept ws (ahead_view ∙ e) h) behind_view)
  text-remove_segments _ _ (earlier ws kept before e h) =
      let count : (op.m_match.num_siblings == 0) ≡ false = ground arith in
      let later : is_last op.m_match ≡ false = unfold is_last in ground arith in
      rw (count, later)
        (text_two (ahead op) (strip_first_comma (behind op)) pre kept ahead_view
          (stripped_behind_view ws kept e h))

length-remove_segments : (op : Operation) → length (remove_segments op) ≤ 8
unfolding remove_segments
length-remove_segments op = ground arith

-- A member that the search finds is removed from its key or, in an array, from its value on, together
-- with one comma: none if it has no siblings, the one in front of it if its position is the number of
-- its siblings, the one behind it if its position is below. Nothing else of the document changes. The
-- document has that comma, with no other one between it and the member.
pub remove-Produces :
    (e : Engine) (op : Operation) (doc pre mid post pre' post' : Bytes)
    → (searched e get_following_siblings op).m_match.matchres ≡ complete
    → (searched e get_following_siblings op).m_match.status ≡ JsonslError.success
    → Doomed (searched e get_following_siblings op) doc pre mid post
    → Stays (searched e get_following_siblings op) pre post pre' post'
    → Produces (do_remove e op) (pre' ++ post')
unfolding do_remove do_match_common
remove-Produces e op doc pre mid post pre' post' found ok d s =
    let next = searched e get_following_siblings op in
    let hit : not (is_complete next.m_match.matchres) ≡ false =
      ap (λ r. not (is_complete r)) found in
    let fine : match_error next.m_match.matchres next.m_match.status ≡ success =
      ap (λ r. match_error r next.m_match.status) found ∙ ap (match_error complete) ok in
    rw (fine, hit)
      (lay_out-Produces (remove_segments next) next (length-remove_segments next) d.slots
        (text-remove_segments next doc pre mid post d pre' post' s))
