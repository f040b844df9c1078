-- ===== src/Match/Scan.antt =====
-- The parser while subdoc/match.cc searches, and what each callback does to it.
use subjson.HashKey.{set_hk_begin, set_hk_end, get_hk}
use subjson.Jsonsl.{JsonslError, MatchResult}
use subjson.Loc.{Ptr, nullptr, ptr_add}
use subjson.Match.{Match, get_match_only}
use subjson.Match.Callbacks.{invoke}
use subjson.Match.Push.{push_callback, push_result, parent_possible}
use subjson.Match.Pop.{pop_callback}
use subjson.Match.Tests.{is_hkey}
use subjson.Parser.{
  push, pop, Callback, CallFlags, State, ParseContext, parsing, CompInfo, Jsn, Parser, last_state,
  put_context,
}
use subjson.Parser.Trace.{
  deliver, arrive, Token, is_wanted, called, callback_for, first_of, invoke_some,
}
use subjson.Prelude.{
  ℕ, suc, ◌+◌, ◌≤◌, ◌≡◌, ap, ◌∙◌, arith, Bool, true, false, Option, some, lt→ltb, if◌then◌else◌,
  length,
}

-- a request for the match alone
pub record IsPlain (m : Match) : Type 0 where
  pub last : m.get_last ≡ false
  pub only : m.extra_options ≡ get_match_only
  pub unique : m.ensure_unique.at ≡ nullptr
  pub fine : m.status ≡ JsonslError.success

abbrev pub all_flags : Bool → CallFlags
all_flags u = record {
  call_object = true;
  call_list = true;
  call_string = true;
  call_special = true;
  call_hkey = true;
  call_uescape = u;
}

-- The parser runs with the callbacks of the search, on the buffer at `base`.
pub record Searching (comps : CompInfo) (u : Bool) (base : Ptr) (ctx : ParseContext) (j : Jsn)
    : Type 0 where
  pub cb_push : j.action_callback_push ≡ some Callback.push_callback
  pub cb_pop : j.action_callback_pop ≡ some Callback.pop_callback
  pub flags : j.call_flags ≡ all_flags u
  pub top : j.max_callback_level ≡ length comps + 1
  pub holds : j.context ≡ parsing ctx
  pub running : j.stopfl ≡ false
  pub buffer : j.base ≡ base
  pub path : ctx.jpr ≡ comps
  pub plain : IsPlain ctx.match

-- Nothing changes but the stack above the level `l`, the count there, `pos` and the context.
pub record Moved (l n : ℕ) (ctx : ParseContext) (j j' : Jsn) : Type 0 where
  pub same : j' ≡ record j { stack = j'.stack; pos = j'.pos; context = parsing ctx }
  pub parent : j'.stack l ≡ record (j.stack l) { nelem = n }

pub Moved-trans :
    {l n m : ℕ} {ctx ctx' : ParseContext} {j j' j'' : Jsn}
    → Moved l n ctx j j'
    → Moved l m ctx' j' j''
    → Moved l m ctx' j j''
Moved-trans {l} {n} {m} {ctx} {ctx'} {j} {j'} {j''} a b = record {
  same =
      b.same
      ∙ ap (λ (k : Jsn). record k { stack = j''.stack; pos = j''.pos; context = parsing ctx' })
          a.same;
  parent = b.parent ∙ ap (λ (s : State). record s { nelem = m }) a.parent;
}

module _ {comps : CompInfo} {u : Bool} {base : Ptr} where
  pub Searching-Moved :
      {ctx ctx' : ParseContext} {l n : ℕ} {j j' : Jsn}
      → Searching comps u base ctx j
      → Moved l n ctx' j j'
      → ctx'.jpr ≡ comps
      → IsPlain ctx'.match
      → Searching comps u base ctx' j'
  Searching-Moved r a path plain = record {
    cb_push = ap (λ (k : Jsn). k.action_callback_push) a.same ∙ r.cb_push;
    cb_pop = ap (λ (k : Jsn). k.action_callback_pop) a.same ∙ r.cb_pop;
    flags = ap (λ (k : Jsn). k.call_flags) a.same ∙ r.flags;
    top = ap (λ (k : Jsn). k.max_callback_level) a.same ∙ r.top;
    holds = ap (λ (k : Jsn). k.context) a.same;
    running = ap (λ (k : Jsn). k.stopfl) a.same ∙ r.running;
    buffer = ap (λ (k : Jsn). k.base) a.same ∙ r.buffer;
    path = path;
    plain = plain;
  }

module _ (p : Parser) {comps : CompInfo} {u : Bool} {base : Ptr} {ctx : ParseContext} {j : Jsn}
    (r : Searching comps u base ctx j) where
  -- a push below a level that is not ignored, within the levels of the callbacks
  pub deliver-push :
      (l n pos : ℕ) (t : Token)
      → (j.stack l).ignore_callback ≡ false
      → suc l ≤ length comps
      → called (all_flags u) t.type ≡ true
      → deliver (invoke p) push l n pos t j
        ≡ push_callback p (suc l) (ptr_add base pos) (arrive push l n pos t j)
  unfolding deliver invoke
  deliver-push l n pos t heard h seen =
      let below = lt→ltb (suc l) (length comps + 1) (omega arith) in
      let f = r.flags in
      let m = r.top in
      let wanted : is_wanted push l t.type j ≡ true = rw (f, m, heard, seen, below) in
      let found : callback_for push j ≡ some Callback.push_callback =
        ap (λ c. first_of c j.action_callback) r.cb_push in
      let j' = arrive push l n pos t j in
      ap
        (λ (b : Bool).
          if b
          then invoke_some (invoke p) (callback_for push j) push (suc l) (ptr_add j.base pos) j'
          else j')
        wanted
      ∙ ap (λ c. invoke_some (invoke p) c push (suc l) (ptr_add j.base pos) j') found
      ∙ ap (λ (q : Ptr). push_callback p (suc l) (ptr_add q pos) j') r.buffer

  pub deliver-pop :
      (l n pos : ℕ) (t : Token)
      → (j.stack (suc l)).ignore_callback ≡ false
      → suc l ≤ length comps
      → called (all_flags u) t.type ≡ true
      → deliver (invoke p) pop l n pos t j ≡ pop_callback (suc l) (arrive pop l n pos t j)
  unfolding deliver invoke
  deliver-pop l n pos t heard h seen =
      let below = lt→ltb (suc l) (length comps + 1) (omega arith) in
      let f = r.flags in
      let m = r.top in
      let wanted : is_wanted pop l t.type j ≡ true = rw (f, m, heard, seen, below) in
      let found : callback_for pop j ≡ some Callback.pop_callback =
        ap (λ c. first_of c j.action_callback) r.cb_pop in
      let j' = arrive pop l n pos t j in
      ap
        (λ (b : Bool).
          if b
          then invoke_some (invoke p) (callback_for pop j) pop (suc l) (ptr_add j.base pos) j'
          else j')
        wanted
      ∙ ap (λ c. invoke_some (invoke p) c pop (suc l) (ptr_add j.base pos) j') found

-- what the callbacks do with a key, and with a value
module _ (p : Parser) (lvl : ℕ) (at : Ptr) (ctx : ParseContext) (st : State) (j : Jsn)
    (holds : j.context ≡ parsing ctx) (here : j.stack lvl ≡ st) where
  pub push_key :
      is_hkey st.type ≡ true
      → push_callback p lvl at j ≡ put_context (record ctx { hk = set_hk_begin ctx.hk at }) j
  unfolding push_callback
  push_key h = ground arith

  pub pop_key :
      is_hkey st.type ≡ true
      → pop_callback lvl j
        ≡ put_context (record ctx { hk = set_hk_end ctx.hk st.pos_begin st.pos_cur st.nescapes }) j
  unfolding pop_callback
  pop_key h = ground arith

  pub push_value :
      (parent : Option State) (r : MatchResult)
      → last_state j st ≡ parent
      → is_hkey st.type ≡ false
      → parent_possible parent ≡ true
      → p.path_match ctx.jpr parent st (get_hk ctx.hk).0 ≡ r
      → push_callback p lvl at j
        ≡ push_result r parent st lvl at (record ctx { hk = (get_hk ctx.hk).1 }) j
  unfolding push_callback
  push_value parent r above value ready found = ground arith
