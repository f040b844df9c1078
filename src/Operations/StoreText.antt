-- ===== src/Operations/StoreText.antt =====
-- The documents that the dictionary operations and the removal produce.
use subjson.Jsonsl.{complete}
use subjson.Loc.{Bytes, to_view}
use subjson.Loc.Splice.{
  enclosed, to_view-end_at_begin, to_view-begin_at_end, to_view-end_at_end,
  to_view-begin_at_end_overlap,
}
use subjson.Operations.{Operation, text}
use subjson.Operations.Layout.{Produces, Found, lay_out-Produces}
use subjson.Operations.Store.{
  do_store_dict, replace_segments, add_segments, is_complete, is_numeric, key_bytes,
}
use subjson.Path.{back}
use subjson.Prelude.{
  ℕ, ◌≡◌, ◌≢◌, refl, ap, arith, true, false, not, ◌&&◌, [], ◌∷◌, ◌++◌, append-nil, ◌==◌,
  if◌then◌else◌, Bool-cases, inl, inr,
}
use subjson.SubdocApi
use subjson.SubdocApi.{success}

text-replace_segments :
    (op : Operation) (doc pre mid post : Bytes)
    → Found op doc pre mid post
    → text (replace_segments op) ≡ pre ++ (to_view op.m_userval ++ post)
unfolding replace_segments
text-replace_segments op doc pre mid post f =
    let l = op.m_match.loc_deepest in
    rw (
      f.whole_doc,
      to_view-end_at_begin doc l pre mid post f.cut,
      to_view-begin_at_end doc l pre mid post f.cut,
      append-nil post,
    )

-- Where the search found a value, `do_store_dict` puts the new value in its place and changes
-- nothing else of the document. The command is not DICT_ADD, and it is REPLACE or the path does not
-- end in an index.
pub store-replaces :
    (op : Operation) (doc pre mid post : Bytes)
    → Found op doc pre mid post
    → op.m_match.matchres ≡ complete
    → (not (op.m_optype == SubdocApi.replace) && is_numeric (back op.m_path).ptype) ≡ false
    → SubdocApi.base op.m_optype ≢ SubdocApi.dict_add
    → Produces (do_store_dict op) (pre ++ (to_view op.m_userval ++ post))
unfolding do_store_dict
store-replaces op doc pre mid post f found allowed not_add =
    let other : (SubdocApi.base op.m_optype == SubdocApi.dict_add) ≡ false = ground arith in
    let hit : is_complete op.m_match.matchres ≡ true = ap is_complete found in
    rw (allowed, hit, other)
      (lay_out-Produces (replace_segments op) op (unfold replace_segments in omega arith) f.slots
        (text-replace_segments op doc pre mid post f))

-- the comma in front of a new member
abbrev pub comma_if : ℕ → Bytes
comma_if n = if n == 0 then [] else b',' ∷ []

text-add_segments :
    (op : Operation) (doc pre body post : Bytes) (first last : ℕ)
    → Found op doc pre (enclosed first body last) post
    → text (add_segments op)
      ≡ (pre ++ first ∷ body)
        ++ (comma_if op.m_match.num_siblings
            ++ (b'"'
                ∷ (key_bytes (back op.m_path)
                    ++ (b'"' ∷ b':' ∷ (to_view op.m_userval ++ last ∷ post)))))
unfolding add_segments
text-add_segments op doc pre body post first last f =
    let l = op.m_match.loc_deepest in
    rw
      (
        f.whole_doc,
        to_view-end_at_end doc l pre body post first last f.cut,
        to_view-begin_at_end_overlap doc l pre body post first last f.cut,
        append-nil (last ∷ post),
      )
      (elim (Bool-cases (op.m_match.num_siblings == 0)) [ inl e ↦ rw e refl | inr e ↦ rw e refl ])

-- Where the search found the parent, a container, but not the key, `do_store_dict` adds the key at
-- the end of the parent: behind a comma if the parent has members, in quotes, with the value. All
-- else stays as it is. The command is not REPLACE, and the path does not end in an index.
pub store-adds :
    (op : Operation) (doc pre body post : Bytes) (first last : ℕ)
    → Found op doc pre (enclosed first body last) post
    → is_complete op.m_match.matchres ≡ false
    → op.m_match.immediate_parent_found ≡ true
    → op.m_optype ≢ SubdocApi.replace
    → is_numeric (back op.m_path).ptype ≡ false
    → Produces (do_store_dict op) (
        (pre ++ first ∷ body)
        ++ (comma_if op.m_match.num_siblings
            ++ (b'"'
                ∷ (key_bytes (back op.m_path)
                    ++ (b'"' ∷ b':' ∷ (to_view op.m_userval ++ last ∷ post))))))
unfolding do_store_dict
store-adds op doc pre body post first last f miss parent not_replace key =
    let adds : (op.m_optype == SubdocApi.replace) ≡ false = ground arith in
    let under : not op.m_match.immediate_parent_found ≡ false = ap not parent in
    rw (adds, key, miss, under)
      (lay_out-Produces (add_segments op) op (unfold add_segments in omega arith) f.slots
        (text-add_segments op doc pre body post first last f))
