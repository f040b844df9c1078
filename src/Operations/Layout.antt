-- ===== src/Operations/Layout.antt =====
-- The bytes of the new document, from the segments that an operation lays out.
use native.Mathlib.Nat.{add-zero}
use subjson.Loc.{Bytes, Loc}
use subjson.Loc.Splice.{Cut, whole}
use subjson.Match.{SearchOptions}
use subjson.Operations.{Engine, Operation, set_newdoc, set_segments, lay_out, text, new_text}
use subjson.Prelude.{
  ℕ, suc, ◌+◌, ◌≤◌, ◌≡◌, refl, ap, ◌∙◌, arith, List, [], ◌∷◌, ◌++◌, append-nil, append_assoc,
  length, length-set, take, take-set,
}
use subjson.SubdocApi.{Error, success}

set_segments_lem :
    (ls : List Loc) (n : ℕ) (op : Operation)
    → n + length ls ≤ length op.m_result.m_newdoc
    → take (n + length ls) (set_segments n ls op).m_result.m_newdoc
      ≡ take n op.m_result.m_newdoc ++ ls
set_segments_lem [] n op h = rw (add-zero, append-nil) refl
set_segments_lem (l ∷ ls) n op h =
    let arr = op.m_result.m_newdoc in
    let shift : n + suc (length ls) ≡ n + 1 + length ls = omega arith in
    let next : n + 1 ≡ suc n = omega arith in
    rw shift (
      set_segments_lem ls (n + 1) (set_newdoc n l op) (omega (arith, length-set {0} arr n l))
      ∙ rw (next, take-set n arr l (omega arith)) (append_assoc (take n arr) (l ∷ []) ls))

-- The segments laid out are the segments of the result.
pub new_text-lay_out :
    (ls : List Loc) (op : Operation)
    → length ls ≤ length op.m_result.m_newdoc
    → new_text (lay_out ls op) ≡ text ls
unfolding lay_out
new_text-lay_out ls op h =
    let written = (set_segments 0 ls op).m_result.m_newdoc in
    let count : length ls ≡ 0 + length ls = omega arith in
    ap (λ k. text (take k written)) count ∙ ap text (set_segments_lem ls 0 op (omega arith))

-- The operation answers with success, and its result holds this document.
abbrev pub Produces : Error × Operation → Bytes → Type 0
Produces r t = (r.0 ≡ success) × (new_text r.1 ≡ t)

-- The document is the bytes `doc`, the deepest match stands at the middle part, and the result's
-- array has its eight slots.
pub record Found (op : Operation) (doc pre mid post : Bytes) : Type 0 where
  pub whole_doc : op.m_doc ≡ whole doc
  pub cut : Cut doc op.m_match.loc_deepest pre mid post
  pub slots : length op.m_result.m_newdoc ≡ 8

pub lay_out-Produces :
    (ls : List Loc) (op : Operation) {t : Bytes}
    → length ls ≤ 8
    → length op.m_result.m_newdoc ≡ 8
    → text ls ≡ t
    → Produces (success, lay_out ls op) t
lay_out-Produces ls op h slots e = (refl, new_text-lay_out ls op (omega arith) ∙ e)

-- What the search has left of the operation.
abbrev pub searched : Engine → SearchOptions → Operation → Operation
searched e options op = record op {
  m_match = e.exec_match (record op.m_match { extra_options = options }) op.m_doc op.m_path;
}
