-- ===== src/Match/Reach.antt =====
-- The run of the search of subdoc/match.cc over the match, and over a container on the path.
use subjson.HashKey.{get_hk}
use subjson.Jsonsl.{possible, complete, is_container}
use subjson.Loc.{Ptr, ptr_add}
use subjson.Match.{Match}
use subjson.Match.Callbacks.{invoke, invoke_error}
use subjson.Match.Push.{parent_possible, locate}
use subjson.Match.Pop.{matched, deepest_parent}
use subjson.Match.Enter.{
  Counts, Answers, begun, locate_lem, push_complete_lem, pop_found, pop_missed, matched_lem,
  end_length-text,
}
use subjson.Match.Scan.{Searching-Moved, Searching, IsPlain, deliver-pop, all_flags}
use subjson.Match.Seek.{Hit}
use subjson.Match.Skip.{
  feed, inner_actions, actions_lem, inner_passed, value_pushed, Moved-push, put_at, token_type,
  value_called, value_type,
}
use subjson.Match.Tests.{is_hkey, is_complete}
use subjson.Parser.{
  push, pop, State, ParseContext, parsing, CompInfo, Jsn, Parser, last_state, put_context,
  put_state,
}
use subjson.Parser.Trace.{Event, event, arrive, entered, Token, called}
use subjson.Parser.Tree.{
  Json, special, str, arr, obj, actions, Stale, push_token, pop_token, pop_offset, type_of,
}
use subjson.Parser.Walk.{arrive-Passed, arrive_at, run_on, run_stop, Passed}
use subjson.Prelude.{
  ℕ, suc, ◌+◌, ◌≤◌, ◌<◌, ◌^◌, ◌≡◌, refl, sym, ap, ◌∙◌, subst, arith, Bool, true, false, Option,
  none, some, length, List, ◌∷◌, inl,
}

pop_type : (stale : ℕ → Stale) (v : Json) (at : ℕ) → (pop_token stale v at).type ≡ type_of v
pop_type stale (special s flags) at = refl
pop_type stale (str s k) at = refl
pop_type stale (arr items) at = refl
pop_type stale (obj fields) at = refl

pop_begin : (stale : ℕ → Stale) (v : Json) (at : ℕ) → (pop_token stale v at).pos_begin ≡ at
pop_begin stale (special s flags) at = refl
pop_begin stale (str s k) at = refl
pop_begin stale (arr items) at = refl
pop_begin stale (obj fields) at = refl

pop_count : (stale : ℕ → Stale) (v : Json) (at : ℕ) → Counts v (pop_token stale v at).nelem
pop_count stale (special s flags) at = tt
pop_count stale (str s k) at = tt
pop_count stale (arr items) at = refl
pop_count stale (obj fields) at = refl

arrive_pos : (l n pos : ℕ) (t : Token) (j : Jsn) → (arrive pop l n pos t j).pos ≡ pos
unfolding arrive
arrive_pos l n pos t j = refl

-- The run ended, and the match in the context is the answer.
abbrev pub Ended : Ptr → ℕ → Option Hit → Jsn → Type 0
Ended base level hit k =
    (ctx : ParseContext) × (k.context ≡ parsing ctx) × Answers base level hit ctx.match

Searching-Passed :
    {comps : CompInfo} {u : Bool} {base : Ptr} {ctx : ParseContext} {l n : ℕ} {j j' : Jsn}
    → Searching comps u base ctx j
    → Passed l n j j'
    → Searching comps u base ctx j'
Searching-Passed r a = record {
  cb_push = ap (λ (k : Jsn). k.action_callback_push) a.same ∙ r.cb_push;
  cb_pop = ap (λ (k : Jsn). k.action_callback_pop) a.same ∙ r.cb_pop;
  flags = ap (λ (k : Jsn). k.call_flags) a.same ∙ r.flags;
  top = ap (λ (k : Jsn). k.max_callback_level) a.same ∙ r.top;
  holds = ap (λ (k : Jsn). k.context) a.same ∙ r.holds;
  running = ap (λ (k : Jsn). k.stopfl) a.same ∙ r.running;
  buffer = ap (λ (k : Jsn). k.base) a.same ∙ r.buffer;
  path = r.path;
  plain = r.plain;
}

high :
    (comps : CompInfo) (l : ℕ) (j : Jsn)
    → j.max_callback_level ≡ length comps + 1
    → suc l ≡ length comps
    → j.max_callback_level ≤ suc (suc l)
high comps l j top last = omega arith

module _ (p : Parser) (stale : ℕ → Stale) {comps : CompInfo} {u : Bool} {base : Ptr} where
  -- The end of the matching element, whose inside was passed.
  reach_end :
      (v : Json) (l n at q : ℕ) (es : List Event) (ctx : ParseContext) (j : Jsn)
      → Searching comps u base ctx j
      → suc l ≡ length comps
      → (j.stack (suc l)).ignore_callback ≡ false
      → (j.stack (suc l)).mres ≡ complete
      → at + pop_offset v < 2 ^ 63
      → ctx.match.matchres ≡ complete
      → ctx.match.type ≡ type_of v
      → ctx.match.loc_deepest.at ≡ ptr_add base at
      → ctx.match.match_level ≡ suc l
      → ctx.match.position ≡ q
      → Ended base
          (length comps)
          (some (record { offset = at; value = v; position = q }))
          (feed p stale (event pop l n (at + pop_offset v) (pop_token stale v at) ∷ es) j)
  reach_end v l n at q es ctx j r last heard done small found ftype fat flevel fpos =
      let t = pop_token stale v at in
      let pos = at + pop_offset v in
      let j1 = arrive pop l n pos t j in
      let a = arrive-Passed pop l n pos t j in
      let st = entered pop l t j in
      let type = pop_type stale v at in
      let holds : j1.context ≡ parsing ctx = ap (λ (k : Jsn). k.context) a.same ∙ r.holds in
      let here = arrive_at pop l n pos t j in
      let e =
        deliver-pop p r l n pos t heard (omega arith)
          (ap (called (all_flags u)) type ∙ value_called u v)
        ∙ pop_found (suc l) ctx st j1 holds here (ap is_hkey type ∙ value_type v)
            (ap is_complete done) r.plain.last r.plain.only in
      let stopped =
        run_stop (invoke p) invoke_error pop l n pos t es j (ap (λ (k : Jsn). k.stopfl) e) ∙ e in
      let m = matched_lem j1 st ctx.match in
      subst (Ended base (length comps) (some (record { offset = at; value = v; position = q })))
        (sym stopped)
        (
          record ctx { match = matched j1 st ctx.match },
          refl,
          record {
            found = ap (λ (x : Match). x.matchres) m ∙ found;
            found_type = ap (λ (x : Match). x.type) m ∙ ftype;
            found_at = ap (λ (x : Match). x.loc_deepest.at) m ∙ fat;
            found_length =
                ap (λ (x : Match). x.loc_deepest.length) m
                ∙ end_length-text v at j1 st type (pop_begin stale v at) (arrive_pos l n pos t j)
                    small;
            found_level = ap (λ (x : Match). x.match_level) m ∙ flevel ∙ last;
            found_position = ap (λ (x : Match). x.position) m ∙ fpos;
            found_children =
                subst (Counts v) (sym (ap (λ (x : Match). x.num_children) m))
                  (pop_count stale v at);
            found_parent = ap (λ (x : Match). x.immediate_parent_found) m;
            fine = ap (λ (x : Match). x.status) m ∙ r.plain.fine;
          },
        )

  -- The end of a container on the path, in which nothing matched.
  pub reach_missed :
      (v : Json) (l n at : ℕ) (es : List Event) (ctx : ParseContext) (j : Jsn)
      → Searching comps u base ctx j
      → suc l ≤ length comps
      → (j.stack (suc l)).ignore_callback ≡ false
      → (j.stack (suc l)).mres ≡ possible
      → is_container (type_of v) ≡ true
      → is_complete ctx.match.matchres ≡ false
      → Ended base
          (length comps)
          none
          (feed p stale (event pop l n (at + pop_offset v) (pop_token stale v at) ∷ es) j)
  unfolding deepest_parent
  reach_missed v l n at es ctx j r h heard open_ container missing =
      let t = pop_token stale v at in
      let pos = at + pop_offset v in
      let j1 = arrive pop l n pos t j in
      let a = arrive-Passed pop l n pos t j in
      let st = entered pop l t j in
      let type = pop_type stale v at in
      let holds : j1.context ≡ parsing ctx = ap (λ (k : Jsn). k.context) a.same ∙ r.holds in
      let here = arrive_at pop l n pos t j in
      let e =
        deliver-pop p r l n pos t heard h (ap (called (all_flags u)) type ∙ value_called u v)
        ∙ pop_missed (suc l) ctx st j1 holds here (ap is_hkey type ∙ value_type v) open_
            (ap is_container type ∙ container) in
      let stopped =
        run_stop (invoke p) invoke_error pop l n pos t es j (ap (λ (k : Jsn). k.stopfl) e) ∙ e in
      subst (Ended base (length comps) none) (sym stopped)
        (record ctx { match = deepest_parent j1 st ctx }, refl, (missing, r.plain.fine))

  -- The run over the matching element ends with the match.
  pub reach_complete :
      (v : Json) (l n at q : ℕ) (es : List Event) (ctx : ParseContext) (j : Jsn)
      (parent : Option State)
      → Searching comps u base ctx j
      → (j.stack l).ignore_callback ≡ false
      → suc l ≡ length comps
      → at + pop_offset v < 2 ^ 63
      → last_state
          (arrive push l n at (push_token stale v at) j)
          (entered push l (push_token stale v at) j)
        ≡ parent
      → parent_possible parent ≡ true
      → p.path_match ctx.jpr parent (entered push l (push_token stale v at) j) (get_hk ctx.hk).0
        ≡ complete
      → ((c : ParseContext) (m : Match)
          → m.position ≡ ctx.match.position
          → (locate parent c m).position ≡ q)
      → Ended base
          (length comps)
          (some (record { offset = at; value = v; position = q }))
          (feed p stale (actions stale v l n at es) j)
  reach_complete v l n at q es ctx j parent r heard last small up ready found placed =
      let t = push_token stale v at in
      let j1 = arrive push l n at t j in
      let st = record (entered push l t j) { mres = complete } in
      let ctx' = record ctx { hk = (get_hk ctx.hk).1 } in
      let begin = begun parent st (ptr_add base at) ctx' in
      let ctx2 = record ctx' { match = begin } in
      let j2 = put_context ctx2 (put_state (suc l) st j1) in
      let moved = Moved-push p stale l n at t ctx2 st j in
      let here = put_at p stale l n at t ctx2 st j in
      let pushed =
        value_pushed p stale v l n at ctx j parent complete r heard (omega arith) up ready found
        ∙ push_complete_lem parent st (suc l) (ptr_add base at) ctx' (put_state (suc l) st j1)
            r.plain.unique in
      let asked = locate_lem parent ctx' (record ctx.match {
        matchres = complete;
        type = st.type;
        loc_deepest = record ctx.match.loc_deepest { at = ptr_add base at };
        match_level = st.level;
      }) in
      let plain : IsPlain begin = record {
        last = ap (λ (x : Match). x.get_last) asked ∙ r.plain.last;
        only = ap (λ (x : Match). x.extra_options) asked ∙ r.plain.only;
        unique = ap (λ (x : Match). x.ensure_unique.at) asked ∙ r.plain.unique;
        fine = ap (λ (x : Match). x.status) asked ∙ r.plain.fine;
      } in
      let r2 = Searching-Moved r moved r.path plain in
      let pos = at + pop_offset v in
      let (m, j3, e, a) =
        inner_passed p stale v l at (event pop l n pos (pop_token stale v at) ∷ es) j2
          (inl (high comps l j2 r2.top last)) r2.running (ap (λ (s : State). s.nelem) here) in
      let r3 = Searching-Passed r2 a in
      let own = a.parent ∙ ap (λ (s : State). record s { nelem = m }) here in
      let rest = inner_actions stale v l at (event pop l n pos (pop_token stale v at) ∷ es) in
      let whole =
        ap (λ (x : List Event). feed p stale x j) (actions_lem stale v l n at es)
        ∙ run_on (invoke p) invoke_error push l n at t rest j
            (ap (λ (k : Jsn). k.stopfl) pushed ∙ r2.running)
        ∙ ap (feed p stale rest) pushed
        ∙ e in
      subst (Ended base (length comps) (some (record { offset = at; value = v; position = q })))
        (sym whole)
        (reach_end v l n at q es ctx2 j3 r3 last (ap (λ (s : State). s.ignore_callback) own ∙ heard)
          (ap (λ (s : State). s.mres) own) small (ap (λ (x : Match). x.matchres) asked)
          (ap (λ (x : Match). x.type) asked ∙ token_type stale v at)
          (ap (λ (x : Match). x.loc_deepest.at) asked) (ap (λ (x : Match). x.match_level) asked)
          (placed ctx' _ refl))
