-- ===== src/Loc/Splice.antt =====
-- The cuts of a document at a location, as locations and as bytes.
use subjson.Loc.{
  Bytes, ptr, Loc, no_overlap, overlap, end_at_begin, begin_at_end, begin_at_begin, end_at_end,
  to_view,
}
use subjson.Prelude.Words.{add64, sub64}
use subjson.Prelude.{
  ℕ, ◌+◌, ◌-◌, ◌^◌, ◌≤◌, ◌<◌, [], ◌∷◌, ◌++◌, ◌≡◌, refl, ap, ◌∙◌, sym, arith, length, take, drop,
  take_all, length-drop, length-append, drop-append, take-append, append_assoc,
}

-- `n` bytes of `b` from the offset `i` on
abbrev pub span : Bytes → ℕ → ℕ → Loc
span b i n = record { at = ptr b i; length = n }

abbrev pub whole : Bytes → Loc
whole b = span b 0 (length b)

-- A buffer is shorter than 2 ^ 63 bytes, and the span lies within it.
pub record Within (b : Bytes) (i n : ℕ) : Type 0 where
  pub fits : i + n ≤ length b
  pub small : length b < 2 ^ 63

module _ (b : Bytes) (i n : ℕ) (w : Within b i n) where
  pub end_at_begin_lem : end_at_begin (whole b) (span b i n) no_overlap ≡ span b 0 i
  unfolding end_at_begin add64 sub64
  end_at_begin_lem = ground arith

  pub end_at_begin_overlap : end_at_begin (whole b) (span b i n) overlap ≡ span b 0 (i + 1)
  unfolding end_at_begin add64 sub64
  end_at_begin_overlap = ground arith

  pub begin_at_end_lem :
      begin_at_end (whole b) (span b i n) no_overlap ≡ span b (i + n) (length b - (i + n))
  unfolding begin_at_end add64 sub64
  begin_at_end_lem = ground arith

  pub begin_at_end_overlap :
      1 ≤ n
      → begin_at_end (whole b) (span b i n) overlap ≡ span b (i + n - 1) (length b - (i + n - 1))
  unfolding begin_at_end add64 sub64
  begin_at_end_overlap h = ground arith

  pub begin_at_begin_lem : begin_at_begin (whole b) (span b i n) ≡ span b i (length b - i)
  unfolding begin_at_begin add64 sub64
  begin_at_begin_lem = ground arith

  pub end_at_end_lem : 1 ≤ n → end_at_end (whole b) (span b i n) no_overlap ≡ span b 0 (i + n - 1)
  unfolding end_at_end add64 sub64
  end_at_end_lem h = ground arith

pub to_view_rest : (b : Bytes) (i : ℕ) → to_view (span b i (length b - i)) ≡ drop i b
to_view_rest b i = take_all (length b - i) (drop i b) (omega (arith, length-drop i b))

-- A document cut in three, with `l` at the middle part.
pub record Cut (doc : Bytes) (l : Loc) (pre mid post : Bytes) : Type 0 where
  pub doc_is : doc ≡ pre ++ (mid ++ post)
  pub loc_is : l ≡ span doc (length pre) (length mid)
  pub small : length doc < 2 ^ 63

pub Cut-Within :
    {doc : Bytes} {l : Loc} {pre mid post : Bytes}
    → Cut doc l pre mid post
    → Within doc (length pre) (length mid)
Cut-Within {doc} {l} {pre} {mid} {post} c = record {
  fits =
      omega (
        arith,
        ap length c.doc_is,
        length-append {0} pre (mid ++ post),
        length-append {0} mid post,
      );
  small = c.small;
}

take_front :
    (doc front rest : Bytes) (k : ℕ) → doc ≡ front ++ rest → k ≡ length front → take k doc ≡ front
take_front doc front rest k e h = rw e (take-append k front rest h)

drop_front :
    (doc front rest : Bytes) (k : ℕ) → doc ≡ front ++ rest → k ≡ length front → drop k doc ≡ rest
drop_front doc front rest k e h = rw e (drop-append k front rest h)

module _ (doc : Bytes) (l : Loc) (pre mid post : Bytes) (c : Cut doc l pre mid post) where
  pub Cut_to_view : to_view l ≡ mid
  Cut_to_view =
      rw (c.loc_is, drop_front doc pre (mid ++ post) (length pre) c.doc_is refl)
        (take-append (length mid) mid post refl)

  -- The part before the location.
  pub to_view-end_at_begin : to_view (end_at_begin (whole doc) l no_overlap) ≡ pre
  to_view-end_at_begin =
      rw (c.loc_is, end_at_begin_lem doc (length pre) (length mid) (Cut-Within c))
        (take_front doc pre (mid ++ post) (length pre) c.doc_is refl)

  -- The part behind the location.
  pub to_view-begin_at_end : to_view (begin_at_end (whole doc) l no_overlap) ≡ post
  to_view-begin_at_end =
      rw (c.loc_is, begin_at_end_lem doc (length pre) (length mid) (Cut-Within c))
        (to_view_rest doc (length pre + length mid)
          ∙ drop_front doc (pre ++ mid) post _ (c.doc_is ∙ sym (append_assoc pre mid post))
              (sym (length-append pre mid)))

  -- The location and what follows.
  pub to_view-begin_at_begin : to_view (begin_at_begin (whole doc) l) ≡ mid ++ post
  to_view-begin_at_begin =
      rw (c.loc_is, begin_at_begin_lem doc (length pre) (length mid) (Cut-Within c))
        (to_view_rest doc (length pre)
          ∙ drop_front doc pre (mid ++ post) (length pre) c.doc_is refl)

-- A location that covers a container: its brackets are the bytes `first` and `last`.
abbrev pub enclosed : ℕ → Bytes → ℕ → Bytes
enclosed first body last = first ∷ (body ++ last ∷ [])

length-enclosed :
    (first last : ℕ) (body : Bytes) → length (enclosed first body last) ≡ length body + 2
length-enclosed first last body = omega (arith, length-append {0} body (last ∷ []))

module _ (doc : Bytes) (l : Loc) (pre body post : Bytes) (first last : ℕ)
    (c : Cut doc l pre (enclosed first body last) post) where
  doc_front : doc ≡ (pre ++ first ∷ []) ++ (body ++ last ∷ post)
  doc_front = rw (c.doc_is) (simp append_assoc)

  doc_back : doc ≡ (pre ++ first ∷ body) ++ last ∷ post
  doc_back = rw (c.doc_is) (simp append_assoc)

  -- Everything up to the opening bracket, with it.
  pub to_view-end_at_begin_overlap :
      to_view (end_at_begin (whole doc) l overlap) ≡ pre ++ first ∷ []
  to_view-end_at_begin_overlap =
      rw (c.loc_is, end_at_begin_overlap doc (length pre) _ (Cut-Within c))
        (take_front doc (pre ++ first ∷ []) _ _ doc_front
          (omega (arith, length-append {0} pre (first ∷ []))))

  -- Everything up to the closing bracket, without it.
  pub to_view-end_at_end : to_view (end_at_end (whole doc) l no_overlap) ≡ pre ++ first ∷ body
  to_view-end_at_end =
      rw (c.loc_is, end_at_end_lem doc (length pre) _ (Cut-Within c) (omega arith))
        (take_front doc (pre ++ first ∷ body) _ _ doc_back
          (omega (arith, length-append {0} pre (first ∷ body), length-enclosed first last body)))

  -- The closing bracket and what follows.
  pub to_view-begin_at_end_overlap : to_view (begin_at_end (whole doc) l overlap) ≡ last ∷ post
  to_view-begin_at_end_overlap =
      rw (c.loc_is, begin_at_end_overlap doc (length pre) _ (Cut-Within c) (omega arith))
        (to_view_rest doc _
          ∙ drop_front doc (pre ++ first ∷ body) (last ∷ post) _ doc_back (
              omega (arith, length-append {0} pre (first ∷ body), length-enclosed first last body)))
