-- ===== src/Operations/MkdirText.antt =====
-- The document that `do_mkdir_p` produces.
use subjson.Loc.{Bytes, to_view, assign, end_at_end, no_overlap, ptr, ptr_add}
use subjson.Prelude.Words.{add64, sub64}
use subjson.Loc.Splice.{enclosed, to_view-end_at_end, to_view-begin_at_end_overlap}
use subjson.Operations.{Operation, set_newdoc, set_bkbuf}
use subjson.Operations.Layout.{Produces, Found, lay_out-Produces}
use subjson.Operations.Store.{
  mkdir_p_array, mkdir_p_dict, do_mkdir_p, mkdir_segments, MkdirPMode, open_keys, close_keys,
  missing, is_string, is_numeric, key_bytes, opening, closing,
}
use subjson.Operations.StoreText.{comma_if}
use subjson.Path.{Component, get_component, active, blank}
use subjson.Prelude.{
  zero, suc, take, drop, get_or, ℕ, ◌+◌, ◌-◌, ◌≤◌, ◌<◌, ◌^◌, ◌≡◌, refl, subst, ap, ◌∙◌, sym, arith,
  true, false, List, [], ◌∷◌, ◌++◌, append-nil, append_assoc, length, length-append, All,
  take-append, drop-append, take_all, ◌%◌, length-set,
}

-- a key with its quotes and the colon
abbrev pub named : Component → Bytes
named c = b'"' ∷ (key_bytes c ++ b'"' ∷ b':' ∷ [])

-- the value inside the dictionaries that are missing
abbrev pub nested : List Component → Bytes → Bytes
nested [] value = value
nested (c ∷ cs) value = b'{' ∷ (named c ++ (nested cs value ++ b'}' ∷ []))

-- the value, as the one element of an array in the array mode
abbrev pub wrapped : MkdirPMode → Bytes → Bytes
wrapped mkdir_p_array value = b'[' ∷ (value ++ b']' ∷ [])
wrapped mkdir_p_dict value = value

wrapped_is :
    (mode : MkdirPMode) (value : Bytes)
    → wrapped mode value ≡ opening mode ++ (value ++ closing mode)
wrapped_is mkdir_p_array value = refl
wrapped_is mkdir_p_dict value = sym (append-nil value)

-- what opens and what closes them
abbrev openers : List Component → Bytes
openers [] = []
openers (c ∷ cs) = b'{' ∷ (named c ++ openers cs)

abbrev closers : List Component → Bytes
closers [] = []
closers (c ∷ cs) = b'}' ∷ closers cs

abbrev pub IsKey : Component → Type 0
IsKey c = is_string c.ptype ≡ true

closers_end : (cs : List Component) → closers cs ++ b'}' ∷ [] ≡ b'}' ∷ closers cs
closers_end [] = refl
closers_end (c ∷ cs) = ap (λ k. b'}' ∷ k) (closers_end cs)

nested_is :
    (cs : List Component) (value : Bytes) → nested cs value ≡ openers cs ++ (value ++ closers cs)
nested_is [] value = sym (append-nil value)
nested_is (c ∷ cs) value = rw (nested_is cs value) (simp (append_assoc, closers_end cs))

open_keys_lem :
    (cs : List Component) (s : Bytes) → All IsKey cs → open_keys cs s ≡ (true, s ++ openers cs)
unfolding open_keys
open_keys_lem [] s h = rw append-nil refl
open_keys_lem (c ∷ cs) s h =
    rw (h.0) (open_keys_lem cs _ h.1 ∙ ap (λ k. (true, k)) (simp append_assoc))

close_keys_lem : (cs : List Component) (s : Bytes) → close_keys cs s ≡ s ++ closers cs
unfolding close_keys
close_keys_lem [] s = sym (append-nil s)
close_keys_lem (c ∷ cs) s =
    close_keys_lem cs (s ++ b'}' ∷ []) ∙ append_assoc s (b'}' ∷ []) (closers cs)

-- The two parts of the buffer.
buffer_front :
    (front back : Bytes) → to_view (assign (ptr (front ++ back) 0) (length front)) ≡ front
buffer_front front back = take-append (length front) front back refl

buffer_back :
    (front back : Bytes)
    → length (front ++ back) < 2 ^ 63
    → to_view (
        assign
          (ptr_add (ptr (front ++ back) 0) (length front))
          (sub64 (length (front ++ back)) (length front)))
      ≡ back
unfolding add64 sub64
buffer_back front back small =
    let long = length-append {0} front back in
    let at : (0 + length front) % 2 ^ 64 ≡ length front = omega arith in
    let count : (length (front ++ back) % 2 ^ 64 + 2 ^ 64 - length front % 2 ^ 64) % 2 ^ 64
        ≡ length back =
      omega arith in
    rw (at, count, drop-append (length front) front back refl)
      (take_all (length back) back (omega arith))

module _ (mode : MkdirPMode) (op : Operation) (doc pre body post : Bytes) (first last : ℕ)
    (f : Found op doc pre (enclosed first body last) post) where
  segments-Produces :
      (header : Bytes)
      → length ((header ++ opening mode) ++ (closing mode ++ closers (missing op))) < 2 ^ 63
      → Produces (mkdir_segments mode header op) (
          (pre ++ first ∷ body)
          ++ ((header ++ opening mode)
              ++ (to_view op.m_userval ++ ((closing mode ++ closers (missing op)) ++ last ∷ post))))
  unfolding mkdir_segments
  segments-Produces header small =
      let front = header ++ opening mode in
      let back = closing mode ++ closers (missing op) in
      let buffer : close_keys (missing op) (front ++ closing mode) ≡ front ++ back =
        close_keys_lem (missing op) (front ++ closing mode)
        ∙ append_assoc front (closing mode) (closers (missing op)) in
      rw buffer (
        lay_out-Produces _ (set_bkbuf (front ++ back) op) (omega arith) f.slots (
          rw
            (
              f.whole_doc,
              to_view-end_at_end doc op.m_match.loc_deepest pre body post first last f.cut,
              buffer_front front back,
              buffer_back front back small,
              to_view-begin_at_end_overlap doc op.m_match.loc_deepest pre body post first last
                  f.cut,
              append-nil (last ∷ post),
            )
            refl))

-- What is to come in front of the closing bracket of a container with `siblings` members: the key
-- `comp`, and under it a dictionary for each of the keys `further`, with the value.
abbrev pub made : MkdirPMode → ℕ → Component → List Component → Bytes → Bytes
made mode siblings comp further value =
    comma_if siblings ++ (named comp ++ nested further (wrapped mode value))

abbrev made_of : MkdirPMode → Operation → Bytes
made_of mode op =
    made mode op.m_match.num_siblings (get_component op.m_path op.m_match.match_level) (missing op)
      (to_view op.m_userval)

-- the buffer in front of the value, and what follows the value
abbrev header_of : Operation → Bytes
header_of op =
    (comma_if op.m_match.num_siblings ++ named (get_component op.m_path op.m_match.match_level))
    ++ openers (missing op)

made_is :
    (mode : MkdirPMode) (op : Operation)
    → made_of mode op
      ≡ (header_of op ++ opening mode)
        ++ (to_view op.m_userval ++ (closing mode ++ closers (missing op)))
made_is mode op =
    rw
      (
        nested_is (missing op) (wrapped mode (to_view op.m_userval)),
        wrapped_is mode (to_view op.m_userval),
      )
      (simp append_assoc)

length-made_of :
    (mode : MkdirPMode) (op : Operation)
    → length ((header_of op ++ opening mode) ++ (closing mode ++ closers (missing op)))
      ≤ length (made_of mode op)
length-made_of mode op =
    let front = header_of op ++ opening mode in
    let back = closing mode ++ closers (missing op) in
    rw (made_is mode op) (
      omega (
        arith,
        length-append {0} front back,
        length-append {0} front (to_view op.m_userval ++ back),
        length-append {0} (to_view op.m_userval) back,
      ))

mkdir_p_made :
    (mode : MkdirPMode) (op : Operation) (doc pre body post : Bytes) (first last : ℕ)
    → Found op doc pre (enclosed first body last) post
    → op.m_result.m_bkbuf ≡ []
    → is_numeric (get_component op.m_path op.m_match.match_level).ptype ≡ false
    → All IsKey (missing op)
    → length (made_of mode op) < 2 ^ 63
    → Produces (do_mkdir_p mode op) ((pre ++ first ∷ body) ++ (made_of mode op ++ last ∷ post))
unfolding do_mkdir_p
mkdir_p_made mode op doc pre body post first last f fresh key keys small =
    let comp = get_component op.m_path op.m_match.match_level in
    let comma = comma_if op.m_match.num_siblings in
    let started : op.m_result.m_bkbuf ++ comma ≡ comma = ap (λ b. b ++ comma) fresh in
    let header = header_of op in
    let opened : open_keys (missing op) (comma ++ named comp) ≡ (true, header) =
      open_keys_lem (missing op) (comma ++ named comp) keys in
    let front = end_at_end op.m_doc op.m_match.loc_deepest no_overlap in
    let next = set_bkbuf header (set_newdoc 0 front op) in
    let found : Found next doc pre (enclosed first body last) post = record {
      whole_doc = f.whole_doc;
      cut = f.cut;
      slots = length-set op.m_result.m_newdoc 0 front ∙ f.slots;
    } in
    let layout : (pre ++ first ∷ body)
          ++ ((header ++ opening mode)
              ++ (to_view op.m_userval ++ ((closing mode ++ closers (missing op)) ++ last ∷ post)))
        ≡ (pre ++ first ∷ body) ++ (made_of mode op ++ last ∷ post) =
      rw (made_is mode op) (simp append_assoc) in
    rw (started, key, opened)
      (subst (Produces (mkdir_segments mode header next)) layout (
        segments-Produces mode next doc pre body post first last found header
          (omega (arith, length-made_of mode op))))

get_or-taken :
    (k : ℕ) (xs known further : List Component) (c d : Component)
    → take k xs ≡ known ++ c ∷ further
    → get_or xs (length known) d ≡ c
get_or-taken zero xs known further c d e =
    let size = ap (λ (x : List Component). length x) e in
    let parts = length-append known (c ∷ further) in absurd (omega arith)
get_or-taken (suc k) [] known further c d e =
    let size = ap (λ (x : List Component). length x) e in
    let parts = length-append known (c ∷ further) in absurd (omega arith)
get_or-taken (suc k) (x ∷ xs) [] further c d e = ap (λ (l : List Component). get_or l 0 d) e
get_or-taken (suc k) (x ∷ xs) (y ∷ known) further c d e =
    get_or-taken k xs known further c d (ap (drop 1) e)

-- Where the deepest match, at the level `match_level`, is a container that lacks the key of the
-- component with that number, and the components behind it are keys, `do_mkdir_p` adds the key at
-- the container's end, behind a comma if it has members, with the value inside one new dictionary
-- for each further key, and for an array command in brackets. Nothing else of the document changes.
-- The result's buffer was empty, and what is made is shorter than 2 ^ 63 bytes.
pub mkdir_p-Produces :
    (mode : MkdirPMode) (op : Operation) (doc pre body post : Bytes) (first last : ℕ)
    (known further : List Component) (comp : Component)
    → Found op doc pre (enclosed first body last) post
    → op.m_result.m_bkbuf ≡ []
    → active op.m_path ≡ known ++ comp ∷ further
    → length known ≡ op.m_match.match_level
    → is_numeric comp.ptype ≡ false
    → All IsKey further
    → let inside = made mode op.m_match.num_siblings comp further (to_view op.m_userval) in
      length inside < 2 ^ 63
      → Produces (do_mkdir_p mode op) ((pre ++ first ∷ body) ++ (inside ++ last ∷ post))
mkdir_p-Produces mode op doc pre body post first last known further comp f fresh path level key keys
      small =
    let rest : missing op ≡ further =
      ap (drop (op.m_match.match_level + 1)) (path ∙ sym (append_assoc known (comp ∷ []) further))
      ∙ drop-append (op.m_match.match_level + 1) (known ++ comp ∷ []) further
          (omega (arith, level, length-append {0} known (comp ∷ []))) in
    let here : get_component op.m_path op.m_match.match_level ≡ comp =
      ap (λ (n : ℕ). get_or op.m_path.components_s n blank) (sym level)
      ∙ get_or-taken op.m_path.ncomponents op.m_path.components_s known further comp blank path in
    let same : made_of mode op
        ≡ made mode op.m_match.num_siblings comp further (to_view op.m_userval) =
      rw (rest, here) refl in
    subst
      (λ (x : Bytes). Produces (do_mkdir_p mode op) ((pre ++ first ∷ body) ++ (x ++ last ∷ post)))
      same
      (mkdir_p_made mode op doc pre body post first last f fresh
        (ap (λ (x : Component). is_numeric x.ptype) here ∙ key)
        (subst (λ (x : List Component). All IsKey x) (sym rest) keys)
        (subst (λ (x : Bytes). length x < 2 ^ 63) (sym same) small))
