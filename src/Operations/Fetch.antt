-- ===== src/Operations/Fetch.antt =====
-- GET and EXISTS of subdoc/operations.cc on top of the search of subdoc/match.cc.
use subjson.Jsonsl.{JsonslError, MatchResult, possible, complete, nomatch, type_mismatch}
use subjson.Loc.{Bytes, Ptr, ptr, ptr_add, Loc, to_view, bytes_at}
use subjson.Match.{Match, get_match_only}
use subjson.Match.Answer.{IsRequest, Gives, exec_match-seek}
use subjson.Match.Enter.{Answers}
use subjson.Match.Equal.{same_text}
use subjson.Match.Search.{exec_match}
use subjson.Match.Seek.{seek, seek_items, seek_fields, key_text, fits, Hit, SpellsAll, Resolves}
use subjson.Match.Steps.{Holds, Holds-left, Holds-right, Holds-value}
use subjson.Match.Tests
use subjson.Match.Tests.{u32_mod}
use subjson.Operations.{Operation}
use subjson.Operations.Composed.{engine}
use subjson.Operations.Exec.{dispatch, op_exec, exec_get}
use subjson.Operations.Store.{do_match_common, do_get, and_then, match_error}
use subjson.Parser.{Jsn, Parser}
use subjson.Parser.Trace.{IsReset}
use subjson.Parser.Tree.{
  Json, special, str, arr, obj, Items, nil, cons, Fields, end, field, Stale, text, items_text,
  fields_text, comma, comma_field, value_offset,
}
use subjson.Path.{Component, SubdocPath, active}
use subjson.Path.Parse.{parse, done}
use subjson.Path.Parse.State.{Part, root, key, index, other}
use subjson.Prelude.Words.{add64, add64_lem}
use subjson.Prelude.{
  ℕ, suc, ◌+◌, ◌%◌, ◌<◌, ◌^◌, ◌≡◌, refl, sym, ap, ◌∙◌, subst, arith, Bool, true, false, ◌||◌, ◌&&◌,
  Option, none, some, length, length-append, take, drop, take-append, drop-append, List, ◌∷◌, ◌++◌,
  [], ◌⊎◌, inl, inr, ◌==◌, if◌then◌else◌,
}
use subjson.SubdocApi
use subjson.SubdocApi.{Error, success, path_enoent, path_mismatch}

-- the text of the hit stands in the buffer where the hit says
abbrev pub HoldsHit : Bytes → ℕ → Option Hit → Type 0
HoldsHit b i none = Unit
HoldsHit b i (some h) = Holds b i h.offset (text h.value)

either :
    (P : Option Hit → Type 0) (t : Bool) (x y : Option Hit) → P x → P y → P (if t then x else y)
either P true x y l r = l
either P false x y l r = r

mutual
  unfolding seek seek_items seek_fields text items_text fields_text

  pub seek_held :
      {b : Bytes} {i : ℕ} (ss : List Part) (v : Json) (at n : ℕ)
      → Holds b i at (text v)
      → HoldsHit b i (seek ss v at n)
  seek_held [] v at n h = h
  seek_held (root ∷ ss) v at n h = tt
  seek_held (other ∷ ss) v at n h = tt
  seek_held (key k ∷ ss) (special s flags) at n h = tt
  seek_held (key k ∷ ss) (str s c) at n h = tt
  seek_held (key k ∷ ss) (arr items) at n h = tt
  seek_held (key k ∷ ss) (obj fields) at n h = seek_fields_held k ss fields (at + 1) 0 (
      Holds-left (fields_text fields) (b'}' ∷ [])
        (Holds-right (b'{' ∷ []) (fields_text fields ++ b'}' ∷ []) h))
  seek_held (index k neg ∷ ss) (special s flags) at n h = tt
  seek_held (index k neg ∷ ss) (str s c) at n h = tt
  seek_held (index k neg ∷ ss) (obj fields) at n h = tt
  seek_held (index k neg ∷ ss) (arr items) at n h = seek_items_held k ss items (at + 1) 0 (
      Holds-left (items_text items) (b']' ∷ [])
        (Holds-right (b'[' ∷ []) (items_text items ++ b']' ∷ []) h))

  seek_items_held :
      {b : Bytes} {i : ℕ} (k : ℕ) (ss : List Part) (items : Items) (at n : ℕ)
      → Holds b i at (items_text items)
      → HoldsHit b i (seek_items k ss items at n)
  seek_items_held k ss (nil ws) at n h = tt
  seek_items_held {b} {i} k ss (cons lead v trail rest) at n h =
      let h1 = Holds-right lead (text v ++ (trail ++ (comma rest ++ items_text rest))) h in
      let h2 = Holds-right (comma rest) (items_text rest) (
        Holds-right trail (comma rest ++ items_text rest)
          (Holds-right (text v) (trail ++ (comma rest ++ items_text rest)) h1)) in
      either (HoldsHit b i) ((n == k) && fits ss v) _ _
        (seek_held ss v (at + length lead) (n % u32_mod)
          (Holds-left (text v) (trail ++ (comma rest ++ items_text rest)) h1))
        (seek_items_held k ss rest
          (at + length lead + length (text v) + length trail + length (comma rest)) (suc n) h2)

  seek_fields_held :
      {b : Bytes} {i : ℕ} (k : Bytes) (ss : List Part) (fields : Fields) (at n : ℕ)
      → Holds b i at (fields_text fields)
      → HoldsHit b i (seek_fields k ss fields at n)
  seek_fields_held k ss (end ws) at n h = tt
  seek_fields_held {b} {i} k ss (field lead k' c mid mid' v trail rest) at n h =
      let behind = trail ++ (comma_field rest ++ fields_text rest) in
      let here = at + value_offset lead k' mid mid' in
      let h1 = Holds-value lead k' mid mid' (text v ++ behind) h in
      let h2 = Holds-right (comma_field rest) (fields_text rest) (
        Holds-right trail (comma_field rest ++ fields_text rest)
          (Holds-right (text v) behind h1)) in
      either (HoldsHit b i) (same_text k (key_text k' c) && fits ss v) _ _
        (seek_held ss v here (n % u32_mod) (Holds-left (text v) behind h1))
        (seek_fields_held k ss rest
          (here + length (text v) + length trail + length (comma_field rest)) (suc n) h2)

-- what is held is read
Holds-to_view :
    (b s : Bytes) (i at : ℕ) (l : Loc)
    → Holds b i at s
    → length b < 2 ^ 63
    → l.at ≡ ptr_add (ptr b i) at
    → l.length ≡ length s
    → to_view l ≡ s
Holds-to_view b s i at l h small place size =
    let whole = ap (λ (x : Bytes). length x) h.split in
    let parts = length-append {0} h.front (s ++ h.more) in
    let parts' = length-append {0} s h.more in
    let start = h.start in
    let where_ : add64 i at ≡ length h.front = add64_lem i at (omega arith) ∙ omega arith in
    ap (λ (q : Ptr). take l.length (bytes_at q)) place
    ∙ ap (λ (o : ℕ). take l.length (drop o b)) where_
    ∙ ap (λ (x : Bytes). take l.length (drop (length h.front) x)) h.split
    ∙ ap (take l.length) (drop-append (length h.front) h.front (s ++ h.more) refl)
    ∙ take-append l.length s h.more size

-- GET's result for what the path names: its text, where it stands; or an error.
abbrev pub Fetches : Ptr → Option Hit → Error × Operation → Type 0
Fetches base none (e, op) = (e ≡ path_enoent) ⊎ (e ≡ path_mismatch)
Fetches base (some h) (e, op) =
    (e ≡ success)
    × (op.m_result.m_match.at ≡ ptr_add base h.offset)
    × (to_view op.m_result.m_match ≡ text h.value)

pub incomplete :
    (r : MatchResult)
    → subjson.Match.Tests.is_complete r ≡ false
    → subjson.Operations.Store.is_complete r ≡ false
incomplete possible bad = refl
incomplete complete bad = bad
incomplete nomatch bad = refl
incomplete type_mismatch bad = refl

-- Without a match the command answers with one of two errors.
pub missed :
    (r : MatchResult) (next : Operation → Error × Operation) (op : Operation)
    → subjson.Match.Tests.is_complete r ≡ false
    → (next op).0 ≡ path_enoent
    → let e = (and_then (match_error r JsonslError.success, op) next).0 in
      (e ≡ path_enoent) ⊎ (e ≡ path_mismatch)
missed possible next op bad misses = inl misses
missed complete next op bad misses = cc
missed nomatch next op bad misses = inl misses
missed type_mismatch next op bad misses = inr refl

do_get_misses :
    (op : Operation)
    → subjson.Operations.Store.is_complete op.m_match.matchres ≡ false
    → (do_get op).0 ≡ path_enoent
unfolding do_get
do_get_misses op bad = rw bad refl

module _ (b : Bytes) (i : ℕ) (small : length b < 2 ^ 63) (level : ℕ) (op : Operation) where
  fetched :
      (hit : Option Hit) (m : Match)
      → Answers (ptr b i) level hit m
      → HoldsHit b i hit
      → Fetches
          (ptr b i)
          hit
          (and_then (match_error m.matchres m.status, record op { m_match = m }) do_get)
  unfolding do_get
  fetched none m a held =
      subst
        (λ (st : JsonslError).
          Fetches (ptr b i) none
            (and_then (match_error m.matchres st, record op { m_match = m }) do_get))
        (sym a.1)
        (missed m.matchres do_get (record op { m_match = m }) a.0
          (do_get_misses (record op { m_match = m }) (incomplete m.matchres a.0)))
  fetched (some h) m a held =
      rw (a.found, a.fine)
        (
          refl,
          a.found_at,
          Holds-to_view b (text h.value) i h.offset m.loc_deepest held small a.found_at
              a.found_length,
        )

-- With the matcher of the code, GET and EXISTS on a path that is parsed, without a negative index,
-- succeed just if the path names a value of the document, and give its text, where it stands; else
-- they answer with PATH_ENOENT or PATH_MISMATCH. The parser object was reset, the parser reads one
-- value, which stands in a buffer below 2 ^ 63 bytes, and matches components as it documents, and
-- the match object was cleared.
pub op_exec-seek :
    (p : Parser) (v : Json) (stale : ℕ → Stale) (b : Bytes) (i o n : ℕ) (pth : Bytes)
    (op : Operation) (q : SubdocPath) (c : Component) (cs : List Component) (ss : List Part)
    (j : Jsn)
    → Resolves p
    → Gives p op.m_doc v stale b i o n
    → parse pth op.m_path ≡ done tt q
    → q.has_negix ≡ false
    → active q ≡ c ∷ cs
    → SpellsAll cs ss
    → IsRequest (record op.m_match { extra_options = get_match_only })
    → IsReset j
    → op.m_optype == SubdocApi.get || op.m_optype == SubdocApi.exists ≡ true
    → Fetches (ptr b i) (seek ss v o op.m_match.position) (op_exec (engine p j) pth op)
unfolding op_exec engine dispatch exec_get do_match_common
op_exec-seek p v stale b i o n pth op q c cs ss j law gives parsed plain comps spells r fresh
      command =
    let request = record op.m_match { extra_options = get_match_only } in
    let found =
      exec_match-seek p op.m_doc v stale b i o n q c cs ss request j law gives plain comps spells r
        fresh in
    let done_ =
      fetched b i gives.small (length (c ∷ cs)) (record op { m_path = q })
        (seek ss v o op.m_match.position) (exec_match p request op.m_doc q j).0 found
        (seek_held ss v o op.m_match.position gives.in_buffer) in
    rw (parsed, command) done_
