-- ===== src/Match/Answer.antt =====
-- `Match::exec_match` of subdoc/match.cc, without a negative index: what it answers.
use subjson.HashKey.{get_hk}
use subjson.Jsonsl.{JsonslError, type_mismatch}
use subjson.Loc.{Bytes, Ptr, ptr, Loc}
use subjson.Match.{Match, get_match_only}
use subjson.Match.Callbacks.{invoke, invoke_error}
use subjson.Match.Enter.{Answers}
use subjson.Match.Finds.{found_in}
use subjson.Match.Members.{past_unmatched}
use subjson.Match.Push.{locate}
use subjson.Match.Reach.{Ended}
use subjson.Match.Scan.{Searching}
use subjson.Match.Search.{prepare, match_of, exec_match_simple, exec_match}
use subjson.Match.Seek.{goes_on, fits, seek, Hit, SpellsAll, Resolves}
use subjson.Match.Skip.{feed, token_type, unmatched}
use subjson.Match.Steps.{Holds, misfit}
use subjson.Match.Tests.{is_complete}
use subjson.Parser.{push, State, ParseContext, Context, CompInfo, Jsn, Parser, parse_context_new}
use subjson.Parser.Trace.{entered, run, Feeds, IsReset, run_chunks}
use subjson.Parser.Tree.{Json, special, str, arr, obj, actions, Stale, push_token, text}
use subjson.Path.{Component, SubdocPath, active}
use subjson.Path.Parse.State.{Part, root, key, index, other}
use subjson.Prelude.{
  ℕ, ◌<◌, ◌^◌, ◌≡◌, refl, sym, ap, ◌∙◌, subst, arith, false, Bool-cases, Option, none, length, List,
  ◌∷◌, [], inl, inr,
}

seek-misfit : (ss : List Part) (v : Json) (at n : ℕ) → fits ss v ≡ false → seek ss v at n ≡ none
unfolding seek
seek-misfit [] v at n h = cc
seek-misfit (root ∷ ss) v at n h = refl
seek-misfit (other ∷ ss) v at n h = refl
seek-misfit (key k ∷ ss) (special s flags) at n h = refl
seek-misfit (key k ∷ ss) (str s c) at n h = refl
seek-misfit (key k ∷ ss) (arr items) at n h = refl
seek-misfit (key k ∷ ss) (obj fields) at n h = cc
seek-misfit (index i neg ∷ ss) (special s flags) at n h = refl
seek-misfit (index i neg ∷ ss) (str s c) at n h = refl
seek-misfit (index i neg ∷ ss) (arr items) at n h = cc
seek-misfit (index i neg ∷ ss) (obj fields) at n h = refl

-- A request for the match alone, in a match object that was cleared.
pub record IsRequest (m : Match) : Type 0 where
  pub last : m.get_last ≡ false
  pub only : m.extra_options ≡ get_match_only
  pub unique : m.ensure_unique.at ≡ subjson.Loc.nullptr
  pub cleared : is_complete m.matchres ≡ false

-- the parser behind the feed's first step
abbrev begin : Match → CompInfo → Ptr → Jsn → Jsn
begin m comps base j = record (prepare m comps j) { base = base }

begin_context : Match → CompInfo → ParseContext
begin_context m comps = parse_context_new (record m { status = JsonslError.success }) comps

begin-Searching :
    (m : Match) (comps : CompInfo) (base : Ptr) (j : Jsn)
    → IsRequest m
    → IsReset j
    → Searching comps j.call_flags.call_uescape base
        (parse_context_new (record m { status = JsonslError.success }) comps)
        (begin m comps base j)
unfolding prepare
begin-Searching m comps base j r fresh = record {
  cb_push = refl;
  cb_pop = refl;
  flags = refl;
  top = refl;
  holds = refl;
  running = fresh.running;
  buffer = refl;
  path = refl;
  plain = record { last = r.last; only = r.only; unique = r.unique; fine = refl };
}

prepare-IsReset : (m : Match) (comps : CompInfo) (j : Jsn) → IsReset j → IsReset (prepare m comps j)
unfolding prepare
prepare-IsReset m comps j r = record { running = r.running; stack_zero = r.stack_zero }

locate-none : (c : ParseContext) (m : Match) → (locate none c m).position ≡ m.position
unfolding locate
locate-none c m = refl

run_none : (p : Parser) (j : Jsn) → run (invoke p) invoke_error [] j ≡ j
unfolding run
run_none p j = refl

-- The parser is fed the value `v` of the buffer, which stands at the offset `o`.
pub record Gives (p : Parser) (value : Loc) (v : Json) (stale : ℕ → Stale) (b : Bytes) (i o n : ℕ)
    : Type 0 where
  pub fed : Feeds p [] value (actions stale v 0 n o [])
  pub buffer : value.at ≡ ptr b i
  pub in_buffer : Holds b i o (text v)
  pub small : length b < 2 ^ 63

module _ (p : Parser) (law : Resolves p) (value : Loc) (v : Json) (stale : ℕ → Stale) (b : Bytes)
    (i o n : ℕ) (gives : Gives p value v stale b i o n) where
  run_seek :
      (c : Component) (cs : List Component) (ss : List Part) (m : Match) (j : Jsn)
      → SpellsAll cs ss
      → IsRequest m
      → IsReset j
      → Ended
          (ptr b i)
          (length (c ∷ cs))
          (seek ss v o m.position)
          (feed p stale (actions stale v 0 n o []) (begin m (c ∷ cs) (ptr b i) j))
  unfolding prepare
  run_seek c cs ss m j spells r fresh =
      let comps = c ∷ cs in
      let k = begin m comps (ptr b i) j in
      let ctx = parse_context_new (record m { status = JsonslError.success }) comps in
      let s = begin-Searching m comps (ptr b i) j r fresh in
      let st = entered push 0 (push_token stale v o) k in
      let name = (get_hk ctx.hk).0 in
      let root_ = law.at_root c cs ss st name spells ∙ ap (goes_on ss) (token_type stale v o) in
      let heard = ap (λ (x : State). x.ignore_callback) (fresh.stack_zero 0) in
      elim (Bool-cases (fits ss v)) [
        | inl fit ↦
            found_in p law stale comps j.call_flags.call_uescape b i gives.small v ss c cs [] 0 n o
              m.position [] ctx none k (refl, refl) spells gives.in_buffer fit
              (record {
                searching = s;
                heard = heard;
                up = refl;
                ready = refl;
                asked = root_;
                placed = λ x y e. locate-none x y ∙ e;
                missing = r.cleared;
              })
        | inr unfit ↦
            let (j', e, moved, s', missing) =
              past_unmatched p stale v 0 n o [] ctx k none type_mismatch s heard (omega arith) refl
                refl (root_ ∙ misfit ss v unfit) (inr refl) r.cleared in
            subst
              (λ (h : Option Hit).
                Ended (ptr b i) (length comps) h (feed p stale (actions stale v 0 n o []) k))
              (sym (seek-misfit ss v o m.position unfit))
              (
                unmatched type_mismatch ctx,
                ap (λ (x : Jsn). x.context) (e ∙ run_none p j') ∙ s'.holds,
                (missing, s'.plain.fine),
              )
      ]

pub exec_match_simple-seek :
    (p : Parser) (value : Loc) (v : Json) (stale : ℕ → Stale) (b : Bytes) (i o n : ℕ)
    (c : Component) (cs : List Component) (ss : List Part) (m : Match) (j : Jsn)
    → Resolves p
    → Gives p value v stale b i o n
    → SpellsAll cs ss
    → IsRequest m
    → IsReset j
    → Answers
        (ptr b i)
        (length (c ∷ cs))
        (seek ss v o m.position)
        (exec_match_simple p m value (c ∷ cs) j).0
unfolding exec_match_simple run_chunks prepare
exec_match_simple-seek p value v stale b i o n c cs ss m j law gives spells r fresh =
    let (ctx, e, a) = run_seek p law value v stale b i o n gives c cs ss m j spells r fresh in
    let fed =
      gives.fed (invoke p) invoke_error (prepare m (c ∷ cs) j) (prepare-IsReset m (c ∷ cs) j fresh)
        fresh.running
      ∙ ap
          (λ (q : Ptr).
            run (invoke p) invoke_error (actions stale v 0 n o []) (begin m (c ∷ cs) q j))
          gives.buffer in
    subst
      (λ (x : Context). Answers (ptr b i) (length (c ∷ cs)) (seek ss v o m.position) (match_of x m))
      (sym (ap (λ (x : Jsn). x.context) fed ∙ e)) a

-- On a path without a negative index, exec_match answers what the path names: the match is complete
-- with the type, the place, the length, the level and the position of the first value that the path
-- leads to, or it is not complete where there is none, and the status is a success. The parser
-- object was reset, the parser reads one value, which stands in a buffer below 2 ^ 63 bytes, and
-- matches components as it documents, and the request is for the match alone.
pub exec_match-seek :
    (p : Parser) (value : Loc) (v : Json) (stale : ℕ → Stale) (b : Bytes) (i o n : ℕ)
    (pth : SubdocPath) (c : Component) (cs : List Component) (ss : List Part) (m : Match) (j : Jsn)
    → Resolves p
    → Gives p value v stale b i o n
    → pth.has_negix ≡ false
    → active pth ≡ c ∷ cs
    → SpellsAll cs ss
    → IsRequest m
    → IsReset j
    → Answers (ptr b i) (length (c ∷ cs)) (seek ss v o m.position) (exec_match p m value pth j).0
unfolding exec_match
exec_match-seek p value v stale b i o n pth c cs ss m j law gives plain comps spells r fresh =
    rw (plain, comps)
      (exec_match_simple-seek p value v stale b i o n c cs ss m j law gives spells r fresh)
