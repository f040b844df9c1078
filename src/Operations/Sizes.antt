-- ===== src/Operations/Sizes.antt =====
-- GET_COUNT of subdoc/operations.cc on top of the search of subdoc/match.cc.
use subjson.Decimal.{to_string}
use subjson.Jsonsl.{JsonslError, complete}
use subjson.Loc.{Bytes, Ptr, ptr, to_view}
use subjson.Match.{Match, get_match_only}
use subjson.Match.Answer.{IsRequest, Gives, exec_match-seek}
use subjson.Match.Enter.{Counts, Answers}
use subjson.Match.Search.{exec_match}
use subjson.Match.Seek.{seek, Hit, SpellsAll, Resolves}
use subjson.Operations.{Engine, Operation}
use subjson.Operations.Arrays.{reply_size, size_of_type, do_container_size}
use subjson.Operations.Composed.{engine}
use subjson.Operations.Exec.{dispatch, op_exec}
use subjson.Operations.Store.{do_match_common, do_get, and_then, match_error}
use subjson.Parser.{Jsn, Parser}
use subjson.Parser.Trace.{IsReset}
use subjson.Parser.Tree.{type_of, count_fields, count_items, Json, special, str, arr, obj, Stale}
use subjson.Path.{Component, SubdocPath, active}
use subjson.Path.Parse.{parse, done}
use subjson.Path.Parse.State.{Part}
use subjson.Prelude.{
  ◌/◌, not, take_all, ℕ, ◌≡◌, refl, sym, ap, ◌∙◌, subst, arith, false, Option, none, some, length,
  List, ◌∷◌, ◌⊎◌, if◌then◌else◌,
}
use subjson.SubdocApi
use subjson.SubdocApi.{Error, success, path_enoent, path_mismatch}
use subjson.Operations.Fetch.{missed, incomplete}

-- GET_COUNT's result at a value: the decimal text of the number of elements or members
abbrev pub SizeOf : Json → Error × Operation → Type 0
SizeOf (arr items) (e, op) =
    (e ≡ success) × (to_view op.m_result.m_match ≡ to_string (count_items items))
SizeOf (obj fields) (e, op) =
    (e ≡ success) × (to_view op.m_result.m_match ≡ to_string (count_fields fields))
SizeOf _ (e, op) = e ≡ path_mismatch

-- GET_COUNT's result for what the path names
abbrev pub Sizes : Option Hit → Error × Operation → Type 0
Sizes none (e, op) = (e ≡ path_enoent) ⊎ (e ≡ path_mismatch)
Sizes (some h) r = SizeOf h.value r

replied : (n : ℕ) (op : Operation) → to_view (reply_size n op).1.m_result.m_match ≡ to_string n
replied n op = take_all (length (to_string n)) (to_string n) (omega arith)

size_of_type-SizeOf :
    (v : Json) (n : ℕ) (op : Operation) → Counts v n → SizeOf v (size_of_type (type_of v) n op)
size_of_type-SizeOf (special s flags) n op h = refl
size_of_type-SizeOf (str s c) n op h = refl
size_of_type-SizeOf (arr items) n op h = (refl, replied n op ∙ ap to_string h)
size_of_type-SizeOf (obj fields) n op h =
    let half : n / 2 ≡ count_fields fields = omega arith in
    (refl, replied (n / 2) op ∙ ap to_string half)

-- what `do_container_size` does with the match
abbrev size_matched : Operation → Error × Operation
size_matched op =
    if not (subjson.Operations.Store.is_complete op.m_match.matchres)
    then (path_enoent, op)
    else size_of_type op.m_match.type op.m_match.num_children op

size_matched_misses :
    (op : Operation)
    → subjson.Operations.Store.is_complete op.m_match.matchres ≡ false
    → (size_matched op).0 ≡ path_enoent
size_matched_misses op bad = rw bad refl

size_matched_hit :
    (v : Json) (op : Operation)
    → op.m_match.matchres ≡ complete
    → op.m_match.type ≡ type_of v
    → Counts v op.m_match.num_children
    → SizeOf v (size_matched op)
size_matched_hit v op found type count =
    let e : size_matched op ≡ size_of_type (type_of v) op.m_match.num_children op =
      rw (found, type) refl in
    subst (SizeOf v) (sym e) (size_of_type-SizeOf v op.m_match.num_children op count)

sized :
    (base : Ptr) (level : ℕ) (op : Operation) (hit : Option Hit) (m : Match)
    → Answers base level hit m
    → Sizes hit (and_then (match_error m.matchres m.status, record op { m_match = m }) size_matched)
sized base level op none m a =
    subst
      (λ (st : JsonslError).
        Sizes none (and_then (match_error m.matchres st, record op { m_match = m }) size_matched))
      (sym a.1)
      (missed m.matchres size_matched (record op { m_match = m }) a.0
        (size_matched_misses (record op { m_match = m }) (incomplete m.matchres a.0)))
sized base level op (some h) m a =
    let fine : match_error m.matchres m.status ≡ success = rw (a.found, a.fine) refl in
    let op' = record op { m_match = m } in
    subst (λ (e : Error). SizeOf h.value (and_then (e, op') size_matched)) (sym fine)
      (size_matched_hit h.value op' a.found a.found_type a.found_children)

dispatch-do_container_size :
    (e : Engine) (op : Operation)
    → op.m_optype ≡ SubdocApi.get_count
    → dispatch e op ≡ do_container_size e op
unfolding dispatch
dispatch-do_container_size e op h = ground arith

-- With the matcher of the code, GET_COUNT on a path that is parsed, without a negative index, gives
-- the decimal text of the number of elements of the array, or of members of the object, that the
-- path names; for another value it answers with PATH_MISMATCH, and where the path names none with
-- PATH_ENOENT or PATH_MISMATCH. The parser object was reset, the parser reads one value, which stands
-- in a buffer below 2 ^ 63 bytes, and matches components as it documents, and the match object was
-- cleared.
pub op_exec-size :
    (p : Parser) (v : Json) (stale : ℕ → Stale) (b : Bytes) (i o n : ℕ) (pth : Bytes)
    (op : Operation) (q : SubdocPath) (c : Component) (cs : List Component) (ss : List Part)
    (j : Jsn)
    → Resolves p
    → Gives p op.m_doc v stale b i o n
    → parse pth op.m_path ≡ done tt q
    → q.has_negix ≡ false
    → active q ≡ c ∷ cs
    → SpellsAll cs ss
    → IsRequest (record op.m_match { extra_options = get_match_only })
    → IsReset j
    → op.m_optype ≡ SubdocApi.get_count
    → Sizes (seek ss v o op.m_match.position) (op_exec (engine p j) pth op)
unfolding op_exec engine do_container_size do_match_common
op_exec-size p v stale b i o n pth op q c cs ss j law gives parsed plain comps spells r fresh
      command =
    let request = record op.m_match { extra_options = get_match_only } in
    let found =
      exec_match-seek p op.m_doc v stale b i o n q c cs ss request j law gives plain comps spells r
        fresh in
    let op' = record op { m_path = q } in
    let hit = seek ss v o op.m_match.position in
    let ran =
      sized (ptr b i) (length (c ∷ cs)) op' hit (exec_match p request op.m_doc q j).0 found in
    rw parsed (subst (Sizes hit) (sym (dispatch-do_container_size (engine p j) op' command)) ran)
