-- ===== src/Operations/Replace.antt =====
-- REPLACE of subdoc/operations.cc on top of the search of subdoc/match.cc.
use subjson.Jsonsl.{JsonslError}
use subjson.Loc.{Bytes, Ptr, ptr, Loc, assign, to_view}
use subjson.Loc.Splice.{Cut, whole}
use subjson.Match.{Match, get_match_only}
use subjson.Match.Answer.{IsRequest, Gives, exec_match-seek}
use subjson.Match.Enter.{Answers, Hits}
use subjson.Match.Search.{exec_match}
use subjson.Match.Seek.{seek, Hit, SpellsAll, Resolves}
use subjson.Match.Steps.{Holds}
use subjson.Operations.{Engine, Operation}
use subjson.Operations.Composed.{engine}
use subjson.Operations.Exec
use subjson.Operations.Exec.{dispatch, op_exec, exec_store, get_maxdepth, path_has_newkey}
use subjson.Operations.Fetch.{HoldsHit, seek_held, incomplete, missed}
use subjson.Operations.Layout.{Produces}
use subjson.Operations.Store.{do_match_common, do_store_dict, match_error, is_numeric, and_then}
use subjson.Operations.StoreText.{store-replaces}
use subjson.Parser.{Jsn, Parser}
use subjson.Parser.Trace.{IsReset}
use subjson.Parser.Tree.{Json, Stale, text}
use subjson.Path.{Component, SubdocPath, active, size, back}
use subjson.Path.Parse.{parse, done}
use subjson.Path.Parse.State.{Part}
use subjson.Prelude.Words.{add64, add64_lem}
use subjson.Prelude.{
  ℕ, ◌<◌, ◌^◌, ◌≡◌, refl, sym, ap, ◌∙◌, subst, arith, Bool, false, not, ◌&&◌, ◌≢◌, Option, none,
  some, ◌⊎◌, length, length-append, List, ◌∷◌, ◌++◌, ◌==◌,
}
use subjson.SubdocApi
use subjson.SubdocApi.{Error, success, path_enoent, path_mismatch}
use subjson.Validate.{parent_dict}

loc_eq : (l : Loc) (q : Ptr) (n : ℕ) → l.at ≡ q → l.length ≡ n → l ≡ assign q n
loc_eq l q n e f = rw (e, f) refl

-- The match is a part of the document.
Hits-Cut :
    (b : Bytes) (h : Hit) (m : Match) (level : ℕ) (held : Holds b 0 h.offset (text h.value))
    → length b < 2 ^ 63
    → Hits (ptr b 0) level h m
    → Cut b m.loc_deepest held.front (text h.value) held.more
Hits-Cut b h m level held small a =
    let whole_ = ap (λ (x : Bytes). length x) held.split in
    let parts = length-append {0} held.front (text h.value ++ held.more) in
    let start = held.start in
    let place : add64 0 h.offset ≡ length held.front =
      add64_lem 0 h.offset (omega arith) ∙ omega arith in
    record {
      doc_is = held.split;
      loc_is =
          loc_eq m.loc_deepest (ptr b (length held.front)) (length (text h.value))
            (a.found_at ∙ ap (λ (o : ℕ). ptr b o) place) a.found_length;
      small = small;
    }

dispatch-exec_store :
    (e : Engine) (op : Operation)
    → op.m_optype ≡ SubdocApi.replace
    → dispatch e op ≡ exec_store e op
unfolding dispatch
dispatch-exec_store e op h = ground arith

exec_store-do_store_dict :
    (e : Engine) (op : Operation)
    → (size op.m_path == 1) ≡ false
    → Exec.validate e parent_dict (get_maxdepth path_has_newkey op) op ≡ success
    → exec_store e op ≡ and_then (do_match_common e get_match_only op) do_store_dict
unfolding exec_store do_match_common
exec_store-do_store_dict e op deep valid = rw (deep, valid) refl

do_store_dict_misses :
    (op : Operation)
    → op.m_optype ≡ SubdocApi.replace
    → subjson.Operations.Store.is_complete op.m_match.matchres ≡ false
    → (do_store_dict op).0 ≡ path_enoent
unfolding do_store_dict
do_store_dict_misses op command bad = rw (command, bad) refl

-- REPLACE is no DICT_ADD.
replaces :
    (op : Operation) (numeric : Bool)
    → op.m_optype ≡ SubdocApi.replace
    → ((not (op.m_optype == SubdocApi.replace) && numeric) ≡ false)
      × (SubdocApi.base op.m_optype ≢ SubdocApi.dict_add)
unfolding SubdocApi.base
replaces op numeric h = (rw h refl, rw h (λ e. omega arith))

-- With the matcher of the code, REPLACE on a path that is parsed, is not the root, has no negative
-- index and names a value of the document, puts the new value in the place of the text of that
-- value, if the validator accepts the new value, and changes nothing else of the document. The
-- parser object was reset, the parser reads one value, which stands in the document, below 2 ^ 63
-- bytes, and matches components as it documents, the match object was cleared, and the result has
-- its eight slots.
pub op_exec-replace :
    (p : Parser) (v : Json) (stale : ℕ → Stale) (b : Bytes) (o n : ℕ) (pth : Bytes) (op : Operation)
    (q : SubdocPath) (c : Component) (cs : List Component) (ss : List Part) (j : Jsn) (h : Hit)
    → Resolves p
    → Gives p op.m_doc v stale b 0 o n
    → parse pth op.m_path ≡ done tt q
    → q.has_negix ≡ false
    → active q ≡ c ∷ cs
    → SpellsAll cs ss
    → IsRequest (record op.m_match { extra_options = get_match_only })
    → IsReset j
    → op.m_optype ≡ SubdocApi.replace
    → (size q == 1) ≡ false
    → op.m_doc ≡ whole b
    → length op.m_result.m_newdoc ≡ 8
    → let op' = record op { m_path = q } in
      Exec.validate (engine p j) parent_dict (get_maxdepth path_has_newkey op') op' ≡ success
      → seek ss v o op.m_match.position ≡ some h
      → (pre : Bytes) × (post : Bytes) × (b ≡ pre ++ (text h.value ++ post))
        × (length pre ≡ h.offset)
        × Produces (op_exec (engine p j) pth op) (pre ++ (to_view op.m_userval ++ post))
unfolding op_exec engine do_match_common
op_exec-replace p v stale b o n pth op q c cs ss j h law gives parsed plain comps spells r fresh
      command deep doc slots valid hit =
    let e = engine p j in
    let op' = record op { m_path = q } in
    let request = record op.m_match { extra_options = get_match_only } in
    let m = (exec_match p request op.m_doc q j).0 in
    let a : Hits (ptr b 0) (length (c ∷ cs)) h m =
      subst (λ (x : Option Hit). Answers (ptr b 0) (length (c ∷ cs)) x m) hit
        (exec_match-seek p op.m_doc v stale b 0 o n q c cs ss request j law gives plain comps spells
          r fresh) in
    let held : Holds b 0 h.offset (text h.value) =
      subst (HoldsHit b 0) hit (seek_held ss v o op.m_match.position gives.in_buffer) in
    let found = record op' { m_match = m } in
    let (allowed, not_add) = replaces op (is_numeric (back q).ptype) command in
    let made =
      store-replaces found b held.front (text h.value) held.more
        (record {
          whole_doc = doc;
          cut = Hits-Cut b h m (length (c ∷ cs)) held gives.small a;
          slots = slots;
        })
        a.found allowed not_add in
    let fine : match_error m.matchres m.status ≡ success = rw (a.found, a.fine) refl in
    (
      held.front,
      held.more,
      held.split,
      held.start ∙ omega arith,
      rw parsed (
          subst
            (λ (x : Error × Operation).
              Produces x (held.front ++ (to_view op.m_userval ++ held.more)))
            (sym (
              dispatch-exec_store e op' command
              ∙ exec_store-do_store_dict e op' deep valid
              ∙ ap (λ (x : Error). and_then (x, found) do_store_dict) fine))
            made),
    )

-- With the matcher of the code, REPLACE of a value that the validator accepts, on a path that is
-- parsed, is not the root, has no negative index and names no value of the document, answers with
-- PATH_ENOENT or PATH_MISMATCH. The parser object was reset, the parser reads one value, which
-- stands in a buffer below 2 ^ 63 bytes, and matches components as it documents, and the match
-- object was cleared.
pub op_exec-replace_missing :
    (p : Parser) (v : Json) (stale : ℕ → Stale) (b : Bytes) (i o n : ℕ) (pth : Bytes)
    (op : Operation) (q : SubdocPath) (c : Component) (cs : List Component) (ss : List Part)
    (j : Jsn)
    → Resolves p
    → Gives p op.m_doc v stale b i o n
    → parse pth op.m_path ≡ done tt q
    → q.has_negix ≡ false
    → active q ≡ c ∷ cs
    → SpellsAll cs ss
    → IsRequest (record op.m_match { extra_options = get_match_only })
    → IsReset j
    → op.m_optype ≡ SubdocApi.replace
    → (size q == 1) ≡ false
    → let op' = record op { m_path = q } in
      Exec.validate (engine p j) parent_dict (get_maxdepth path_has_newkey op') op' ≡ success
      → seek ss v o op.m_match.position ≡ none
      → ((op_exec (engine p j) pth op).0 ≡ path_enoent)
        ⊎ ((op_exec (engine p j) pth op).0 ≡ path_mismatch)
unfolding op_exec engine do_match_common
op_exec-replace_missing p v stale b i o n pth op q c cs ss j law gives parsed plain comps spells r
      fresh command deep valid miss =
    let e = engine p j in
    let op' = record op { m_path = q } in
    let request = record op.m_match { extra_options = get_match_only } in
    let m = (exec_match p request op.m_doc q j).0 in
    let a =
      subst (λ (x : Option Hit). Answers (ptr b i) (length (c ∷ cs)) x m) miss
        (exec_match-seek p op.m_doc v stale b i o n q c cs ss request j law gives plain comps spells
          r fresh) in
    let found = record op' { m_match = m } in
    let none_ =
      missed m.matchres do_store_dict found a.0
        (do_store_dict_misses found command (incomplete m.matchres a.0)) in
    let ran =
      dispatch-exec_store e op' command
      ∙ exec_store-do_store_dict e op' deep valid
      ∙ ap (λ (st : JsonslError). and_then (match_error m.matchres st, found) do_store_dict) a.1 in
    rw parsed (
      subst (λ (x : Error × Operation). (x.0 ≡ path_enoent) ⊎ (x.0 ≡ path_mismatch)) (sym ran)
        none_)
