-- ===== src/Operations/EmptyAppend.antt =====
-- Appending to the array that is the whole document: the custom scan of `do_empty_append`.
use subjson.Loc.{Bytes, to_view, bytes_at, assign, ptr_add}
use subjson.Loc.Splice.{whole}
use subjson.Operations.{Operation}
use subjson.Operations.Arrays.{do_empty_append, skip_back, isspace, is_json_ws}
use subjson.Operations.Layout.{Produces, lay_out-Produces}
use subjson.Prelude.Words.{add64, sub64}
use subjson.Prelude.{
  ℕ, zero, suc, ◌+◌, ◌≤◌, ◌<◌, ◌^◌, ◌≡◌, ◌⊎◌, refl, ap, ◌∙◌, sym, arith, Bool, true, false, not,
  ◌||◌, [], ◌∷◌, ◌++◌, append-nil, append_assoc, ◌==◌, if◌then◌else◌, length, length-append, All,
  take, take-append, drop-append, get_or, Bool-cases, inl, inr,
}

get_or_behind :
    (front rest : Bytes) (k : ℕ) → get_or (front ++ rest) (length front + k) 0 ≡ get_or rest k 0
get_or_behind [] rest k = ap (λ n. get_or rest n 0) (omega arith)
get_or_behind (c ∷ front) rest k = ground (arith, get_or_behind front rest k)

get_or-All :
    (test : ℕ → Bool) (xs rest : Bytes) (k : ℕ)
    → All (λ c. test c ≡ true) xs
    → k < length xs
    → test (get_or (xs ++ rest) k 0) ≡ true
get_or-All test [] rest k h lt = absurd (omega arith)
get_or-All test (c ∷ xs) rest zero h lt = h.0
get_or-All test (c ∷ xs) rest (suc k) h lt = get_or-All test xs rest k h.1 (omega arith)

skip_back_stop :
    (test : ℕ → Bool) (s : Bytes) (n : ℕ) → test (get_or s n 0) ≡ false → skip_back test s n ≡ n
unfolding skip_back
skip_back_stop test s zero h = refl
skip_back_stop test s (suc n) h = rw (skip_back, h) refl

skip_back_step :
    (test : ℕ → Bool) (s : Bytes) (n : ℕ)
    → test (get_or s (suc n) 0) ≡ true
    → skip_back test s (suc n) ≡ skip_back test s n
unfolding skip_back
skip_back_step test s n h = ground (arith, h)

-- Going back over `k` of the bytes `xs` that stand behind the byte `c`.
skip_back_over :
    (test : ℕ → Bool) (front xs rest : Bytes) (c k : ℕ)
    → All (λ d. test d ≡ true) xs
    → test c ≡ false
    → k ≤ length xs
    → skip_back test (front ++ c ∷ (xs ++ rest)) (length front + k) ≡ length front
skip_back_over test front xs rest c zero h stop lt =
    let s = front ++ c ∷ (xs ++ rest) in
    let at : length front + 0 ≡ length front = omega arith in
    let here : test (get_or s (length front + 0) 0) ≡ false =
      ap test (get_or_behind front (c ∷ (xs ++ rest)) 0) ∙ stop in
    skip_back_stop test s (length front + 0) here ∙ at
skip_back_over test front xs rest c (suc k) h stop lt =
    let s = front ++ c ∷ (xs ++ rest) in
    let at : length front + suc k ≡ suc (length front + k) = omega arith in
    let there : test (get_or s (length front + suc k) 0) ≡ true =
      ap test (get_or_behind front (c ∷ (xs ++ rest)) (suc k))
      ∙ get_or-All test xs rest k h (omega arith) in
    ap (skip_back test s) at
    ∙ skip_back_step test s (length front + k) (ap (λ n. test (get_or s n 0)) (sym at) ∙ there)
    ∙ skip_back_over test front xs rest c k h stop (omega arith)

-- the white space of JSON (RFC 7159), and that of the C locale
abbrev pub JsonBlank : ℕ → Type 0
JsonBlank d = (d ≡ 0x20) ⊎ (d ≡ 0x09) ⊎ (d ≡ 0x0a) ⊎ (d ≡ 0x0d)

abbrev pub Blank : ℕ → Type 0
Blank d = (d ≡ 0x20) ⊎ ((0x09 ≤ d) × (d ≤ 0x0d))

is_json_ws-JsonBlank : (ws : Bytes) → All JsonBlank ws → All (λ d. is_json_ws d ≡ true) ws
is_json_ws-JsonBlank [] h = tt
is_json_ws-JsonBlank (d ∷ ws) (h, rest) = (ground arith, is_json_ws-JsonBlank ws rest)

isspace-Blank : (ws : Bytes) → All Blank ws → All (λ d. isspace d ≡ true) ws
isspace-Blank [] h = tt
isspace-Blank (d ∷ ws) (h, rest) = (ground arith, isspace-Blank ws rest)

isspace_other : (d : ℕ) → ¬ Blank d → isspace d ≡ false
isspace_other d h = ground arith

-- An array, from its bytes up to the last one that is no white space, the white space in front of the
-- closing bracket, and that behind it.
pub record IsArrayText (op : Operation) (head ws ws' : Bytes) (c : ℕ) : Type 0 where
  pub whole_doc : op.m_doc ≡ whole (head ++ c ∷ (ws ++ b']' ∷ ws'))
  pub inner : All JsonBlank ws
  pub outer : All Blank ws'
  pub solid : ¬ Blank c
  pub small : length (head ++ c ∷ (ws ++ b']' ∷ ws')) < 2 ^ 63
  pub slots : length op.m_result.m_newdoc ≡ 8

module _ (op : Operation) (head ws ws' : Bytes) (c : ℕ) (a : IsArrayText op head ws ws' c) where
  doc_at : bytes_at op.m_doc.at ≡ head ++ c ∷ (ws ++ b']' ∷ ws')
  doc_at = ap (λ l. bytes_at l.at) a.whole_doc

  doc_split : head ++ c ∷ (ws ++ b']' ∷ ws') ≡ (head ++ c ∷ ws) ++ b']' ∷ (ws' ++ [])
  doc_split = sym (append_assoc head (c ∷ ws) (b']' ∷ (ws' ++ [])) ∙ simp append-nil refl)

  bracket : length (head ++ c ∷ ws) ≡ length head + 1 + length ws
  bracket = omega (arith, length-append {0} head (c ∷ ws))

  doc_length :
      length (head ++ c ∷ (ws ++ b']' ∷ ws')) ≡ length head + 1 + length ws + 1 + length ws'
  doc_length =
      omega
        (arith, length-append {0} head (c ∷ (ws ++ b']' ∷ ws')), length-append {0} ws (b']' ∷ ws'))

  last_byte : sub64 op.m_doc.length 1 ≡ length (head ++ c ∷ ws) + length ws'
  unfolding sub64
  last_byte =
      ap (λ l. sub64 l.length 1) a.whole_doc
      ∙ (unfold sub64 in omega (arith, doc_length, bracket, a.small))

  a_end_is :
      skip_back isspace (bytes_at op.m_doc.at) (sub64 op.m_doc.length 1) ≡ length (head ++ c ∷ ws)
  a_end_is =
      rw (last_byte, doc_at, doc_split)
        (skip_back_over isspace (head ++ c ∷ ws) ws' [] b']' (length ws')
          (isspace-Blank ws' a.outer) refl (omega arith))

  at_bracket : get_or (bytes_at op.m_doc.at) (length (head ++ c ∷ ws)) 0 ≡ b']'
  at_bracket =
      rw (doc_at, doc_split)
        (ap (λ n. get_or ((head ++ c ∷ ws) ++ b']' ∷ (ws' ++ [])) n 0) (omega arith)
          ∙ get_or_behind (head ++ c ∷ ws) (b']' ∷ (ws' ++ [])) 0)

  e_comma_is :
      skip_back is_json_ws (bytes_at op.m_doc.at) (sub64 (length (head ++ c ∷ ws)) 1) ≡ length head
  e_comma_is =
      let prev : sub64 (length (head ++ c ∷ ws)) 1 ≡ length head + length ws =
        unfold sub64 in omega (arith, bracket, doc_length, a.small) in
      let solid = isspace_other c a.solid in
      let mark : is_json_ws c ≡ false = ground arith in
      rw (prev, doc_at)
        (skip_back_over is_json_ws head ws (b']' ∷ ws') c (length ws)
          (is_json_ws-JsonBlank ws a.inner) mark (omega arith))

  at_comma : get_or (bytes_at op.m_doc.at) (length head) 0 ≡ c
  at_comma = rw doc_at (
      ap (λ n. get_or (head ++ c ∷ (ws ++ b']' ∷ ws')) n 0) (omega arith)
      ∙ get_or_behind head (c ∷ (ws ++ b']' ∷ ws')) 0)

  front_text : take (length head + 1) (bytes_at op.m_doc.at) ≡ head ++ c ∷ []
  front_text =
      ap (take (length head + 1)) (doc_at ∙ sym (append_assoc head (c ∷ []) (ws ++ b']' ∷ ws')))
      ∙ take-append (length head + 1) (head ++ c ∷ []) (ws ++ b']' ∷ ws')
          (omega (arith, length-append {0} head (c ∷ [])))

  back_text : to_view (assign (ptr_add op.m_doc.at (length (head ++ c ∷ ws))) 1) ≡ b']' ∷ []
  back_text =
      let n = length (head ++ c ∷ ws) in
      let moved : add64 0 n ≡ n = unfold add64 in omega (arith, bracket, doc_length, a.small) in
      ap (λ l. to_view (assign (ptr_add l.at n) 1)) a.whole_doc
      ∙ rw (moved, doc_split, drop-append n (head ++ c ∷ ws) (b']' ∷ (ws' ++ [])) refl) refl

-- Appending to the array that is the whole document: behind an opening bracket or a comma the value
-- comes as it is, behind any other byte it comes after a comma; then follows the closing bracket.
-- Space, tab, line feed and carriage return in front of it go, and so does the white space of the C
-- locale behind it.
pub do_empty_append-Produces :
    (op : Operation) (head ws ws' : Bytes) (c : ℕ)
    → IsArrayText op head ws ws' c
    → Produces (do_empty_append op) (
        (head ++ c ∷ [])
        ++ ((if c == b'[' || c == b',' then [] else b',' ∷ [])
            ++ (to_view op.m_userval ++ b']' ∷ [])))
unfolding do_empty_append
do_empty_append-Produces op head ws ws' c a =
    let n = length (head ++ c ∷ ws) in
    let start : (n == 0) ≡ false = ground (arith, bracket op head ws ws' c a) in
    let solid : not (isspace c) ≡ true = ap not (isspace_other c a.solid) in
    let front = front_text op head ws ws' c a in
    let back = back_text op head ws ws' c a in
    rw
      (
        a_end_is op head ws ws' c a,
        at_bracket op head ws ws' c a,
        start,
        e_comma_is op head ws ws' c a,
        at_comma op head ws ws' c a,
      )
      (elim (Bool-cases (c == b'[' || c == b',')) [
        | inl bare ↦ rw bare (lay_out-Produces _ op (omega arith) a.slots (rw (front, back) refl))
        | inr other ↦
            rw (other, solid) (lay_out-Produces _ op (omega arith) a.slots (rw (front, back) refl))
      ])
