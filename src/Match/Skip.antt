-- ===== src/Match/Skip.antt =====
-- An element that the search of subdoc/match.cc passes, and a key.
use subjson.HashKey.{get_hk}
use subjson.Jsonsl.{MatchResult, type_mismatch}
use subjson.Loc.{Ptr, ptr_add}
use subjson.Match.Callbacks.{invoke, invoke_error}
use subjson.Match.Push.{push_result, parent_possible}
use subjson.Match.Quiet.{Hush, hush, ignored_pop}
use subjson.Match.Scan.{Searching, Moved, deliver-push, push_value, all_flags}
use subjson.Match.Tests.{is_hkey}
use subjson.Parser.{
  push, pop, State, ParseContext, CompInfo, Jsn, Parser, last_state, put_context, put_state,
}
use subjson.Parser.Trace.{Event, event, run, deliver, arrive, entered, Token, called}
use subjson.Parser.Tree.{
  Json, special, str, arr, obj, actions, item_actions, field_actions, Stale, push_token, pop_token,
  pop_offset, type_of,
}
use subjson.Parser.Walk.{
  arrive-Passed, arrive_at, run_on, Passed, Passed-stay, pass_items, pass_fields,
}
use subjson.Prelude.{
  ℕ, suc, ◌+◌, ◌-◌, ◌≤◌, ◌≡◌, refl, ap, ◌∙◌, arith, Bool, true, false, Option, none, some, ltb,
  if◌then◌else◌, length, List, ◌∷◌, inr,
}

-- the actions on a value behind its push
unfoldable pub inner_actions : (ℕ → Stale) → Json → ℕ → ℕ → List Event → List Event
unfolding item_actions field_actions
inner_actions stale (special s flags) l at es = es
inner_actions stale (str s k) l at es = es
inner_actions stale (arr items) l at es = item_actions stale items (suc l) 0 (at + 1) es
inner_actions stale (obj fields) l at es = field_actions stale fields (suc l) 0 (at + 1) es

pub actions_lem :
    (stale : ℕ → Stale) (v : Json) (l n at : ℕ) (es : List Event)
    → actions stale v l n at es
      ≡ event push l n at (push_token stale v at)
        ∷ inner_actions stale v l at (event pop l n (at + pop_offset v) (pop_token stale v at) ∷ es)
unfolding actions inner_actions
actions_lem stale (special s flags) l n at es = refl
actions_lem stale (str s k) l n at es = refl
actions_lem stale (arr items) l n at es = refl
actions_lem stale (obj fields) l n at es = refl

pub token_type : (stale : ℕ → Stale) (v : Json) (at : ℕ) → (push_token stale v at).type ≡ type_of v
token_type stale (special s flags) at = refl
token_type stale (str s k) at = refl
token_type stale (arr items) at = refl
token_type stale (obj fields) at = refl

pub token_begin : (stale : ℕ → Stale) (v : Json) (at : ℕ) → (push_token stale v at).pos_begin ≡ at
token_begin stale (special s flags) at = refl
token_begin stale (str s k) at = refl
token_begin stale (arr items) at = refl
token_begin stale (obj fields) at = refl

pub value_called : (u : Bool) (v : Json) → called (all_flags u) (type_of v) ≡ true
value_called u (special s flags) = refl
value_called u (str s k) = refl
value_called u (arr items) = refl
value_called u (obj fields) = refl

pub value_type : (v : Json) → is_hkey (type_of v) ≡ false
value_type (special s flags) = refl
value_type (str s k) = refl
value_type (arr items) = refl
value_type (obj fields) = refl

-- the context behind an element that does not match
abbrev pub unmatched : MatchResult → ParseContext → ParseContext
unmatched type_mismatch ctx = record ctx {
  hk = (get_hk ctx.hk).1;
  match = record ctx.match { matchres = type_mismatch };
}
unmatched _ ctx = record ctx { hk = (get_hk ctx.hk).1 }

module _ (p : Parser) (stale : ℕ → Stale) where
  abbrev pub feed : List Event → Jsn → Jsn
  feed es j = run (invoke p) invoke_error es j

  -- what is in a value whose callbacks are not run
  pub inner_passed :
      (v : Json) (l at : ℕ) (es : List Event) (j : Jsn)
      → Hush 0 (suc l) j
      → j.stopfl ≡ false
      → (j.stack (suc l)).nelem ≡ (push_token stale v at).nelem
      → (m : ℕ) × (j' : Jsn) × (feed (inner_actions stale v l at es) j ≡ feed es j')
        × Passed (suc l) m j j'
  unfolding inner_actions
  inner_passed (special s flags) l at es j h running count =
      ((j.stack (suc l)).nelem, j, refl, Passed-stay (suc l) j)
  inner_passed (str s k) l at es j h running count =
      ((j.stack (suc l)).nelem, j, refl, Passed-stay (suc l) j)
  inner_passed (arr items) l at es j h running count =
      let (j', e, a) =
        pass_items (invoke p) invoke_error Hush (hush (invoke p)) stale items (suc l) 0 (at + 1) es
          j h running count in
      (_, j', e, a)
  inner_passed (obj fields) l at es j h running count =
      let (j', e, a) =
        pass_fields (invoke p) invoke_error Hush (hush (invoke p)) stale fields (suc l) 0 (at + 1)
          es j h running count in
      (_, j', e, a)

  -- The end of an element that is ignored.
  skip_rest :
      (v : Json) (l n at : ℕ) (es : List Event) (ctx : ParseContext) (j j2 : Jsn)
      → Moved l n ctx j j2
      → j2.stopfl ≡ false
      → (j2.stack (suc l)).ignore_callback ≡ true
      → (j2.stack (suc l)).nelem ≡ (push_token stale v at).nelem
      → (j' : Jsn) × (feed
            (inner_actions stale v l at
              (event pop l n (at + pop_offset v) (pop_token stale v at) ∷ es))
            j2
          ≡ feed es j')
        × Moved l n ctx j j'
  skip_rest v l n at es ctx j j2 moved running still count =
      let t' = pop_token stale v at in
      let pos' = at + pop_offset v in
      let (m, j3, e, a) =
        inner_passed v l at (event pop l n pos' t' ∷ es) j2 (inr still) running count in
      let own = ap (λ (s : State). s.ignore_callback) a.parent ∙ still in
      let quiet = ignored_pop (invoke p) l n pos' t' j3 own in
      let b = arrive-Passed pop l n pos' t' j3 in
      let j4 = arrive pop l n pos' t' j3 in
      let on : j4.stopfl ≡ false =
        ap (λ (k : Jsn). k.stopfl) b.same ∙ ap (λ (k : Jsn). k.stopfl) a.same ∙ running in
      (
        j4,
        e
            ∙ run_on (invoke p) invoke_error pop l n pos' t' es j3
                (ap (λ (k : Jsn). k.stopfl) quiet ∙ on)
            ∙ ap (feed es) quiet,
        record {
          same =
              b.same
              ∙ ap (λ (k : Jsn). record k { stack = j4.stack; pos = j4.pos })
                  (a.same
                    ∙ ap (λ (k : Jsn). record k { stack = j3.stack; pos = j3.pos }) moved.same);
          parent =
              b.parent
              ∙ ap (λ (s : State). record s { nelem = n }) (a.below l (omega arith) ∙ moved.parent);
        },
      )

  pub Moved-push :
      (l n pos : ℕ) (t : Token) (ctx : ParseContext) (st : State) (j : Jsn)
      → Moved l n ctx j (put_context ctx (put_state (suc l) st (arrive push l n pos t j)))
  unfolding arrive
  Moved-push l n pos t ctx st j = record { same = refl; parent = ground arith }

  pub put_at :
      (l n pos : ℕ) (t : Token) (ctx : ParseContext) (st : State) (j : Jsn)
      → (put_context ctx (put_state (suc l) st (arrive push l n pos t j))).stack (suc l) ≡ st
  put_at l n pos t ctx st j = ground arith

  -- An element whose push makes it ignored is passed.
  pub skip_with :
      (v : Json) (l n at : ℕ) (es : List Event) (ctx : ParseContext) (st : State) (j : Jsn)
      → j.stopfl ≡ false
      → deliver (invoke p) push l n at (push_token stale v at) j
        ≡ put_context ctx (put_state (suc l) st (arrive push l n at (push_token stale v at) j))
      → st.ignore_callback ≡ true
      → st.nelem ≡ (push_token stale v at).nelem
      → (j' : Jsn) × (feed (actions stale v l n at es) j ≡ feed es j') × Moved l n ctx j j'
  skip_with v l n at es ctx st j running pushed still count =
      let t = push_token stale v at in
      let j2 = put_context ctx (put_state (suc l) st (arrive push l n at t j)) in
      let moved = Moved-push l n at t ctx st j in
      let here = put_at l n at t ctx st j in
      let on : j2.stopfl ≡ false = ap (λ (k : Jsn). k.stopfl) moved.same ∙ running in
      let (j', e, a) =
        skip_rest v l n at es ctx j j2 moved on (ap (λ (s : State). s.ignore_callback) here ∙ still)
          (ap (λ (s : State). s.nelem) here ∙ count) in
      let rest =
        inner_actions stale v l at
          (event pop l n (at + pop_offset v) (pop_token stale v at) ∷ es) in
      (
        j',
        ap (λ (a : List Event). feed a j) (actions_lem stale v l n at es)
            ∙ run_on (invoke p) invoke_error push l n at t rest j
                (ap (λ (k : Jsn). k.stopfl) pushed ∙ on)
            ∙ ap (feed rest) pushed
            ∙ e,
        a,
      )

  -- the parent of a value, as the callbacks see it
  pub above :
      (l n pos : ℕ) (t : Token) (j : Jsn)
      → 1 ≤ l
      → last_state (arrive push l n pos t j) (entered push l t j)
        ≡ some (record (j.stack l) { nelem = n })
  above l n pos t j h =
      let e : ltb 1 (suc l) ≡ true = ground arith in
      let up : suc l - 1 ≡ l = omega arith in
      let parent = (arrive-Passed push l n pos t j).parent in
      ap (λ (b : Bool). if b then some ((arrive push l n pos t j).stack (suc l - 1)) else none) e
      ∙ ap (λ (i : ℕ). some ((arrive push l n pos t j).stack i)) up
      ∙ ap some parent

  module _ {comps : CompInfo} {u : Bool} {base : Ptr} where
    -- the push of a value
    pub value_pushed :
        (v : Json) (l n at : ℕ) (ctx : ParseContext) (j : Jsn) (parent : Option State)
        (r : MatchResult)
        → Searching comps u base ctx j
        → (j.stack l).ignore_callback ≡ false
        → suc l ≤ length comps
        → last_state
            (arrive push l n at (push_token stale v at) j)
            (entered push l (push_token stale v at) j)
          ≡ parent
        → parent_possible parent ≡ true
        → p.path_match ctx.jpr parent (entered push l (push_token stale v at) j) (get_hk ctx.hk).0
          ≡ r
        → deliver (invoke p) push l n at (push_token stale v at) j
          ≡ push_result r parent
              (entered push l (push_token stale v at) j)
              (suc l)
              (ptr_add base at)
              (record ctx { hk = (get_hk ctx.hk).1 })
              (arrive push l n at (push_token stale v at) j)
    value_pushed v l n at ctx j parent r s heard h up ready found =
        let t = push_token stale v at in
        let type = token_type stale v at in
        let a = arrive-Passed push l n at t j in
        let seen : called (all_flags u) t.type ≡ true =
          ap (called (all_flags u)) type ∙ value_called u v in
        let value : is_hkey t.type ≡ false = ap is_hkey type ∙ value_type v in
        deliver-push p s l n at t heard h seen
        ∙ push_value p (suc l) (ptr_add base at) ctx (entered push l t j) (arrive push l n at t j)
            (ap (λ (k : Jsn). k.context) a.same ∙ s.holds) (arrive_at push l n at t j) parent r up
            value ready found
