-- ===== src/Match/Members.antt =====
-- What the search of subdoc/match.cc does with one key and with one element.
use subjson.HashKey.{HashKey, set_hk_begin, set_hk_end, get_hk, get_hk-key}
use subjson.Jsonsl.{JsonType, MatchResult, possible, nomatch, type_mismatch}
use subjson.Loc.{Bytes, Ptr, ptr, ptr_add, to_view}
use subjson.Match.Callbacks.{invoke, invoke_error}
use subjson.Match.Push.{parent_possible, ignore}
use subjson.Match.Scan.{
  Searching, Moved, Moved-trans, Searching-Moved, deliver-push, deliver-pop, push_key, pop_key,
}
use subjson.Match.Seek.{key_text}
use subjson.Match.Skip.{
  feed, inner_actions, actions_lem, value_pushed, Moved-push, put_at, skip_with, unmatched,
  token_type,
}
use subjson.Match.Tests.{is_complete}
use subjson.Parser.{
  push, pop, State, ParseContext, CompInfo, Jsn, Parser, last_state, put_context, put_state,
}
use subjson.Parser.Trace.{Event, event, arrive, entered, Token}
use subjson.Parser.Tree.{
  Json, actions, Stale, push_token, pop_token, pop_offset, type_of, key_push, key_pop,
}
use subjson.Parser.Walk.{arrive-Passed, arrive_at, run_on}
use subjson.Prelude.Words.{add64, add64_lem}
use subjson.Prelude.{
  ℕ, suc, ◌+◌, ◌≤◌, ◌<◌, ◌^◌, ◌≡◌, refl, ap, ◌∙◌, subst, arith, Bool, true, false, Option, length,
  length-append, ◌⊎◌, List, ◌∷◌, ◌++◌,
}

-- The parent of what is scanned is a container on the path.
pub record Slot (l : ℕ) (type : JsonType) (j : Jsn) : Type 0 where
  pub slot_type : (j.stack l).type ≡ type
  pub slot_open : (j.stack l).mres ≡ possible
  pub slot_heard : (j.stack l).ignore_callback ≡ false
  pub slot_level : (j.stack l).level ≡ l

pub Slot-Moved :
    {l n : ℕ} {type : JsonType} {ctx : ParseContext} {j j' : Jsn}
    → Slot l type j
    → Moved l n ctx j j'
    → Slot l type j'
Slot-Moved s a = record {
  slot_type = ap (λ (x : State). x.type) a.parent ∙ s.slot_type;
  slot_open = ap (λ (x : State). x.mres) a.parent ∙ s.slot_open;
  slot_heard = ap (λ (x : State). x.ignore_callback) a.parent ∙ s.slot_heard;
  slot_level = ap (λ (x : State). x.level) a.parent ∙ s.slot_level;
}

-- The key between its quotes, which stand in the buffer, is read.
pub key_name :
    (hk : HashKey) (b pre k post : Bytes) (i at c : ℕ)
    → b ≡ pre ++ b'"' ∷ (k ++ b'"' ∷ post)
    → length pre ≡ i + at
    → length b < 2 ^ 63
    → to_view
        (get_hk (set_hk_end (set_hk_begin hk (ptr_add (ptr b i) at)) at (at + (length k + 1)) c)).0
      ≡ key_text k c
key_name hk b pre k post i at c split start small =
    let whole = ap (λ (s : Bytes). length s) split in
    let size = length-append {0} pre (b'"' ∷ (k ++ b'"' ∷ post)) in
    let size' = length-append {0} k (b'"' ∷ post) in
    let where_ : add64 i at ≡ length pre = add64_lem i at (omega arith) ∙ omega arith in
    let end_ : at + (length k + 1) ≡ at + 1 + length k = omega arith in
    let place : ptr_add (ptr b i) at ≡ ptr (pre ++ b'"' ∷ (k ++ b'"' ∷ post)) (length pre) =
      ap (λ (o : ℕ). ptr b o) where_ ∙ ap (λ (s : Bytes). ptr s (length pre)) split in
    ap (λ (q : Ptr). to_view (get_hk (set_hk_end (set_hk_begin hk q) at (at + (length k + 1)) c)).0)
      place
    ∙ ap
        (λ (e : ℕ).
          to_view
            (get_hk (
              set_hk_end (set_hk_begin hk (ptr (pre ++ b'"' ∷ (k ++ b'"' ∷ post)) (length pre))) at
                e c)).0)
        end_
    ∙ (get_hk-key hk pre k post at c (subst (λ (s : Bytes). length s < 2 ^ 63) split small)
        (omega arith)).0

put-Moved :
    (l n pos : ℕ) (t : Token) (ctx : ParseContext) (j : Jsn)
    → Moved l n ctx j (put_context ctx (arrive push l n pos t j))
unfolding arrive
put-Moved l n pos t ctx j = record { same = refl; parent = (arrive-Passed push l n pos t j).parent }

put-Moved-pop :
    (l n pos : ℕ) (t : Token) (ctx : ParseContext) (j : Jsn)
    → Moved l n ctx j (put_context ctx (arrive pop l n pos t j))
unfolding arrive
put-Moved-pop l n pos t ctx j = record {
  same = refl;
  parent = (arrive-Passed pop l n pos t j).parent;
}

push_heard :
    (l n pos : ℕ) (t : Token) (ctx : ParseContext) (j : Jsn)
    → ((put_context ctx (arrive push l n pos t j)).stack (suc l)).ignore_callback
      ≡ (j.stack l).ignore_callback
push_heard l n pos t ctx j = ap (λ (s : State). s.ignore_callback) (arrive_at push l n pos t j)

module _ (p : Parser) (stale : ℕ → Stale) {comps : CompInfo} {u : Bool} {base : Ptr} where
  -- a key is read
  pub past_key :
      (l n at c : ℕ) (k : Bytes) (es : List Event) (ctx : ParseContext) (j : Jsn)
      → Searching comps u base ctx j
      → (j.stack l).ignore_callback ≡ false
      → suc l ≤ length comps
      → let ctx' = record ctx {
        hk = set_hk_end (set_hk_begin ctx.hk (ptr_add base at)) at (at + (length k + 1)) c;
      } in
        (j' : Jsn) × (feed p stale
            (event push l n at (key_push stale at)
              ∷ event pop l n (at + (length k + 1)) (key_pop stale k c at)
              ∷ es)
            j
          ≡ feed p stale es j')
        × Moved l n ctx' j j'
  past_key l n at c k es ctx j r heard h =
      let t = key_push stale at in
      let t' = key_pop stale k c at in
      let pos' = at + (length k + 1) in
      let ctx1 = record ctx { hk = set_hk_begin ctx.hk (ptr_add base at) } in
      let ctx2 = record ctx1 { hk = set_hk_end ctx1.hk at pos' c } in
      let j1 = put_context ctx1 (arrive push l n at t j) in
      let j2 = put_context ctx2 (arrive pop l n pos' t' j1) in
      let a = put-Moved l n at t ctx1 j in
      let b = put-Moved-pop l n pos' t' ctx2 j1 in
      let r1 = Searching-Moved r a r.path r.plain in
      let r2 = Searching-Moved r1 b r.path r.plain in
      let e =
        deliver-push p r l n at t heard h refl
        ∙ push_key p (suc l) (ptr_add base at) ctx (entered push l t j) (arrive push l n at t j)
            (ap (λ (x : Jsn). x.context) (arrive-Passed push l n at t j).same ∙ r.holds)
            (arrive_at push l n at t j) refl in
      let e' =
        deliver-pop p r1 l n pos' t' (push_heard l n at t ctx1 j ∙ heard) h refl
        ∙ pop_key p (suc l) (ptr_add base at) ctx1 (entered pop l t' j1) (arrive pop l n pos' t' j1)
            (ap (λ (x : Jsn). x.context) (arrive-Passed pop l n pos' t' j1).same ∙ r1.holds)
            (arrive_at pop l n pos' t' j1) refl in
      (
        j2,
        run_on (invoke p) invoke_error push l n at t (event pop l n pos' t' ∷ es) j
              (ap (λ (x : Jsn). x.stopfl) e ∙ r1.running)
            ∙ ap (feed p stale (event pop l n pos' t' ∷ es)) e
            ∙ run_on (invoke p) invoke_error pop l n pos' t' es j1
                (ap (λ (x : Jsn). x.stopfl) e' ∙ r2.running)
            ∙ ap (feed p stale es) e',
        Moved-trans a b,
      )

  -- An element that does not match, or whose type does not, is passed.
  pub past_unmatched :
      (v : Json) (l n at : ℕ) (es : List Event) (ctx : ParseContext) (j : Jsn)
      (parent : Option State) (r : MatchResult)
      → Searching comps u base ctx j
      → (j.stack l).ignore_callback ≡ false
      → suc l ≤ length comps
      → last_state
          (arrive push l n at (push_token stale v at) j)
          (entered push l (push_token stale v at) j)
        ≡ parent
      → parent_possible parent ≡ true
      → p.path_match ctx.jpr parent (entered push l (push_token stale v at) j) (get_hk ctx.hk).0 ≡ r
      → (r ≡ nomatch) ⊎ (r ≡ type_mismatch)
      → is_complete ctx.match.matchres ≡ false
      → (j' : Jsn) × (feed p stale (actions stale v l n at es) j ≡ feed p stale es j')
        × Moved l n (unmatched r ctx) j j'
        × Searching comps u base (unmatched r ctx) j'
        × (is_complete (unmatched r ctx).match.matchres ≡ false)
  past_unmatched v l n at es ctx j parent nomatch s heard h up ready found bad missing =
      let t = push_token stale v at in
      let st = ignore (record (entered push l t j) { mres = nomatch }) in
      let (j', e, a) =
        skip_with p stale v l n at es (unmatched nomatch ctx) st j s.running
          (value_pushed p stale v l n at ctx j parent nomatch s heard h up ready found) refl refl in
      (j', e, a, Searching-Moved s a s.path s.plain, missing)
  past_unmatched v l n at es ctx j parent type_mismatch s heard h up ready found bad missing =
      let t = push_token stale v at in
      let st = ignore (record (entered push l t j) { mres = type_mismatch }) in
      let (j', e, a) =
        skip_with p stale v l n at es (unmatched type_mismatch ctx) st j s.running
          (value_pushed p stale v l n at ctx j parent type_mismatch s heard h up ready found) refl
          refl in
      let plain = s.plain in
      (
        j',
        e,
        a,
        Searching-Moved s a s.path (record {
          last = plain.last;
          only = plain.only;
          unique = plain.unique;
          fine = plain.fine;
        }),
        refl,
      )
  past_unmatched v l n at es ctx j parent r s heard h up ready found bad missing = ground arith

  -- A container on the path is entered.
  pub enter :
      (v : Json) (l n at : ℕ) (es : List Event) (ctx : ParseContext) (j : Jsn)
      (parent : Option State)
      → Searching comps u base ctx j
      → (j.stack l).ignore_callback ≡ false
      → suc l ≤ length comps
      → last_state
          (arrive push l n at (push_token stale v at) j)
          (entered push l (push_token stale v at) j)
        ≡ parent
      → parent_possible parent ≡ true
      → p.path_match ctx.jpr parent (entered push l (push_token stale v at) j) (get_hk ctx.hk).0
        ≡ possible
      → is_complete ctx.match.matchres ≡ false
      → (ctx' : ParseContext) × (j' : Jsn) × (feed p stale (actions stale v l n at es) j
          ≡ feed p stale
              (inner_actions stale v l at
                (event pop l n (at + pop_offset v) (pop_token stale v at) ∷ es))
              j')
        × Searching comps u base ctx' j'
        × Slot (suc l) (type_of v) j'
        × (is_complete ctx'.match.matchres ≡ false)
  enter v l n at es ctx j parent s heard h up ready found missing =
      let t = push_token stale v at in
      let st = record (entered push l t j) { mres = possible } in
      let m = record ctx.match {
        match_level = suc l;
        loc_deepest = record ctx.match.loc_deepest { at = ptr_add base at };
      } in
      let ctx' = record ctx { hk = (get_hk ctx.hk).1; match = m } in
      let j' = put_context ctx' (put_state (suc l) st (arrive push l n at t j)) in
      let e = value_pushed p stale v l n at ctx j parent possible s heard h up ready found in
      let a = Moved-push p stale l n at t ctx' st j in
      let here = put_at p stale l n at t ctx' st j in
      let plain = s.plain in
      let s' = Searching-Moved s a s.path (record {
        last = plain.last;
        only = plain.only;
        unique = plain.unique;
        fine = plain.fine;
      }) in
      let rest =
        inner_actions stale v l at
          (event pop l n (at + pop_offset v) (pop_token stale v at) ∷ es) in
      (
        ctx',
        j',
        ap (λ (x : List Event). feed p stale x j) (actions_lem stale v l n at es)
            ∙ run_on (invoke p) invoke_error push l n at t rest j
                (ap (λ (x : Jsn). x.stopfl) e ∙ s'.running)
            ∙ ap (feed p stale rest) e,
        s',
        record {
          slot_type = ap (λ (x : State). x.type) here ∙ token_type stale v at;
          slot_open = ap (λ (x : State). x.mres) here;
          slot_heard = ap (λ (x : State). x.ignore_callback) here ∙ heard;
          slot_level = ap (λ (x : State). x.level) here;
        },
        missing,
      )
