-- ===== src/Operations/ArrayText.antt =====
-- The documents that the array operations produce.
use subjson.Jsonsl.{complete, t_list}
use subjson.Loc.{Bytes, to_view}
use subjson.Loc.Splice.{
  enclosed, to_view-end_at_begin, to_view-begin_at_begin, to_view-end_at_begin_overlap,
  to_view-end_at_end, to_view-begin_at_end_overlap,
}
use subjson.Operations.{Operation, text}
use subjson.Operations.Arrays.{
  singleton_segments, before_segments, behind_segments, insert_singleton_element, prepend_matched,
  append_matched, insert_matched,
}
use subjson.Operations.Layout.{Produces, Found, lay_out-Produces}
use subjson.Operations.Store.{is_complete}
use subjson.Operations.Arrays.{is_list}
use subjson.Prelude.{
  ℕ, ◌≡◌, ap, arith, Bool, true, false, not, ◌&&◌, [], ◌∷◌, ◌++◌, append-nil, ◌==◌, if◌then◌else◌,
  Bool-cases, inl, inr,
}

module _ (op : Operation) (doc pre body post : Bytes) (first last : ℕ)
    (f : Found op doc pre (enclosed first body last) post) where
  pub singleton-Produces :
      Produces
        (insert_singleton_element op)
        ((pre ++ first ∷ []) ++ (to_view op.m_userval ++ last ∷ post))
  unfolding insert_singleton_element
  singleton-Produces =
      lay_out-Produces (singleton_segments op) op (unfold singleton_segments in omega arith) f.slots
        written
    where
      written :
          text (singleton_segments op)
          ≡ (pre ++ first ∷ []) ++ (to_view op.m_userval ++ last ∷ post)
      written =
          unfold singleton_segments in
          rw (
            f.whole_doc,
            to_view-end_at_begin_overlap doc op.m_match.loc_deepest pre body post first last f.cut,
            to_view-begin_at_end_overlap doc op.m_match.loc_deepest pre body post first last f.cut,
            append-nil (last ∷ post),
          )

  behind-text :
      text (behind_segments op)
      ≡ (pre ++ first ∷ body) ++ (b',' ∷ (to_view op.m_userval ++ last ∷ post))
  unfolding behind_segments
  behind-text = rw (
    f.whole_doc,
    to_view-end_at_end doc op.m_match.loc_deepest pre body post first last f.cut,
    to_view-begin_at_end_overlap doc op.m_match.loc_deepest pre body post first last f.cut,
    append-nil (last ∷ post),
  )

  -- Appending to the array that the search found: an empty array gets the value between its
  -- brackets, any other gets it behind a comma in front of the closing bracket; all else stays. The
  -- command does not ask for a unique value, or the search did not find the value.
  pub append-Produces :
      (unique : Bool)
      → op.m_match.matchres ≡ complete
      → op.m_match.type ≡ t_list
      → (unique && op.m_match.unique_item_found) ≡ false
      → Produces (append_matched unique op) (
          if op.m_match.num_children == 0
          then (pre ++ first ∷ []) ++ (to_view op.m_userval ++ last ∷ post)
          else (pre ++ first ∷ body) ++ (b',' ∷ (to_view op.m_userval ++ last ∷ post)))
  unfolding append_matched
  append-Produces unique found array new =
      let hit : not (is_complete op.m_match.matchres) ≡ false =
        ap (λ r. not (is_complete r)) found in
      let listed : not (is_list op.m_match.type) ≡ false = ap (λ t. not (is_list t)) array in
      elim (Bool-cases (op.m_match.num_children == 0)) [
        | inl none_there ↦ rw (hit, listed, new, none_there) singleton-Produces
        | inr some_there ↦
            rw (hit, listed, new, some_there)
              (lay_out-Produces (behind_segments op) op (unfold behind_segments in omega arith)
                f.slots behind-text)
      ]

  -- Inserting at the index that is the number of elements, where the search found the array and no
  -- element: an empty array gets the value between its brackets, any other gets it behind the last
  -- element, after a comma; all else stays.
  pub insert-Produces :
      is_complete op.m_match.matchres ≡ false
      → op.m_match.immediate_parent_found ≡ true
      → Produces (insert_matched op.m_match.num_siblings op) (
          if op.m_match.num_siblings == 0
          then (pre ++ first ∷ []) ++ (to_view op.m_userval ++ last ∷ post)
          else (pre ++ first ∷ body) ++ (b',' ∷ (to_view op.m_userval ++ last ∷ post)))
  unfolding insert_matched insert_singleton_element
  insert-Produces miss parent =
      let n = op.m_match.num_siblings in
      let same : (n == n) ≡ true = ground arith in
      elim (Bool-cases (n == 0)) [
        | inl none_there ↦ simp (miss, parent, none_there) singleton-Produces
        | inr some_there ↦
            simp (miss, parent, some_there, same)
              (lay_out-Produces (behind_segments op) op (unfold behind_segments in omega arith)
                f.slots behind-text)
      ]

module _ (op : Operation) (doc pre mid post : Bytes) (f : Found op doc pre mid post) where
  before-text : text (before_segments op) ≡ pre ++ (to_view op.m_userval ++ (b',' ∷ (mid ++ post)))
  unfolding before_segments
  before-text = rw (
    f.whole_doc,
    to_view-end_at_begin doc op.m_match.loc_deepest pre mid post f.cut,
    to_view-begin_at_begin doc op.m_match.loc_deepest pre mid post f.cut,
    append-nil (mid ++ post),
  )

  -- Prepending where the search found the first element: the value and a comma come in front of it,
  -- and all else stays.
  pub prepend-Produces :
      op.m_match.matchres ≡ complete
      → Produces (prepend_matched op) (pre ++ (to_view op.m_userval ++ (b',' ∷ (mid ++ post))))
  unfolding prepend_matched
  prepend-Produces found =
      let hit : not (is_complete op.m_match.matchres) ≡ false =
        ap (λ r. not (is_complete r)) found in
      rw hit (
        lay_out-Produces (before_segments op) op (unfold before_segments in omega arith) f.slots
          before-text)
