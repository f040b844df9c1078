-- ===== src/Validate/Depth.antt =====
-- The validator of subdoc/match.cc on a value that is deeper than its bound: it stops there.
use subjson.Jsonsl.{levels_exceeded, t_hkey}
use subjson.Match.Callbacks.{invoke, invoke_error}
use subjson.Parser.{push, pop, State, ValidateCtx, validating, Jsn, Parser}
use subjson.Parser.Trace.{Event, event, run, arrive, entered, Token, is_wanted, called}
use subjson.Parser.Tree.{
  Json, special, str, arr, obj, Items, nil, cons, Fields, end, field, actions, item_actions,
  field_actions, depth, items_depth, fields_depth, Stale, push_token, key_push, key_pop,
  value_offset,
}
use subjson.Parser.Walk.{
  Passed, Passed-trans, Passed-running, arrive-Passed, arrive_at, run_on, run_stop, pass, pass_push,
}
use subjson.Prelude.{
  ℕ, suc, ◌+◌, ◌<◌, ◌≤◌, ◌≡◌, refl, sym, ap, subst, ◌∙◌, arith, true, false, List, ◌∷◌, length,
  some, lt→ltb, ◌⊎◌, inl, inr,
}
use subjson.Validate.{json}
use subjson.Validate.Descend.{Ready, Room, Ready-Passed, idle, deliver-key, value_flags}
use subjson.Validate.Judge.{judged, sentence, deliver-judged}

le_cases : (a b : ℕ) → a ≤ b → (a ≡ b) ⊎ (a < b)
le_cases a b h = omega arith

pub fits_cases : (a b : ℕ) → (a ≤ b) ⊎ (b < a)
fits_cases a b = omega arith

module _ (p : Parser) (ctx : ValidateCtx) (bound : ℕ) (stale : ℕ → Stale) where
  -- The parser has stopped with the error of the depth.
  abbrev pub Sank : Jsn → Type 0
  Sank k = (k.context ≡ validating (record ctx { err = json levels_exceeded })) × (k.stopfl ≡ true)

  -- the state before a value, of which an action at the next level is heard
  pub record Open (l : ℕ) (j : Jsn) : Type 0 where
    pub ready : Ready ctx bound j
    pub heard : (j.stack l).ignore_callback ≡ false
    pub inner : 2 ≤ l
    pub fits : l ≤ bound

  abbrev pub feed : List Event → Jsn → Jsn
  feed es j = run (invoke p) invoke_error es j

  abbrev pub IsValue : Token → Type 0
  IsValue t = called value_flags t.type ≡ true

  pub wanted-Ready :
      (l : ℕ) (t : Token) (j : Jsn)
      → Ready ctx bound j
      → (j.stack l).ignore_callback ≡ false
      → l ≤ bound
      → IsValue t
      → is_wanted push l t.type j ≡ true
  wanted-Ready l t j r heard h seen =
      let f = r.flags in
      let m = r.top in
      let below = lt→ltb (suc l) (bound + 2) (omega arith) in rw (f, m, heard, seen, below)

  judged-sink :
      (st parent : State)
      → ctx.maxdepth ≡ some bound
      → st.level ≡ suc bound
      → judged push st parent ctx ≡ record ctx { err = json levels_exceeded }
  unfolding judged
  judged-sink st parent d h = ground arith

  -- The push of a value behind the bound stops the parser.
  pub sink_here :
      (l n pos : ℕ) (t : Token) (es : List Event) (j : Jsn)
      → Ready ctx bound j
      → (j.stack l).ignore_callback ≡ false
      → l ≡ bound
      → IsValue t
      → Sank (feed (event push l n pos t ∷ es) j)
  sink_here l n pos t es j r heard last seen =
      let wanted = wanted-Ready l t j r heard (omega arith) seen in
      let e =
        deliver-judged p ctx push l n pos t j r.live wanted
        ∙ ap (λ (c : ValidateCtx). sentence c (arrive push l n pos t j))
            (judged-sink (entered push l t j) (record (j.stack l) { nelem = n }) r.depth
              (ap suc last)) in
      let stopped = ap (λ (k : Jsn). k.stopfl) e in
      subst Sank (sym (run_stop (invoke p) invoke_error push l n pos t es j stopped ∙ e))
        (refl, refl)

  -- a key is passed
  pub past_key :
      (l n pos pos' : ℕ) (t t' : Token) (es : List Event) (j : Jsn)
      → Ready ctx bound j
      → t.type ≡ t_hkey
      → t'.type ≡ t_hkey
      → (j' : Jsn) × (feed (event push l n pos t ∷ event pop l n pos' t' ∷ es) j ≡ feed es j')
        × Passed l n j j'
  past_key l n pos pos' t t' es j r key key' =
      let j1 = arrive push l n pos t j in
      let j2 = arrive pop l n pos' t' j1 in
      let a = arrive-Passed push l n pos t j in
      let b = arrive-Passed pop l n pos' t' j1 in
      let r1 = Ready-Passed r a in
      let e = deliver-key p ctx bound push l n pos t j r key in
      let e' = deliver-key p ctx bound pop l n pos' t' j1 r1 key' in
      let go =
        run_on (invoke p) invoke_error push l n pos t (event pop l n pos' t' ∷ es) j
          (ap (λ (k : Jsn). k.stopfl) e ∙ r1.live.running) in
      let go' =
        run_on (invoke p) invoke_error pop l n pos' t' es j1
          (ap (λ (k : Jsn). k.stopfl) e' ∙ Passed-running b r1.live.running) in
      (j2, go ∙ ap (feed (event pop l n pos' t' ∷ es)) e ∙ go' ∙ ap (feed es) e', Passed-trans a b)

  abbrev pub WalkTo : (l n : ℕ) → List Event → List Event → Jsn → Type 0
  WalkTo l n es rest j = (j' : Jsn) × (feed es j ≡ feed rest j') × Passed l n j j'

  Open-Passed : {l n : ℕ} {j j' : Jsn} → Open l j → Passed l n j j' → Open l j'
  Open-Passed r a = record {
    ready = Ready-Passed r.ready a;
    heard = ap (λ (st : State). st.ignore_callback) a.parent ∙ r.heard;
    inner = r.inner;
    fits = r.fits;
  }

  Open-arrive :
      (l n pos : ℕ) (t : Token) (j : Jsn)
      → Open l j
      → l < bound
      → Open (suc l) (arrive push l n pos t j)
  Open-arrive l n pos t j r h =
      let low = r.inner in
      record {
        ready = Ready-Passed r.ready (arrive-Passed push l n pos t j);
        heard = ap (λ (st : State). st.ignore_callback) (arrive_at push l n pos t j) ∙ r.heard;
        inner = omega arith;
        fits = h;
      }

  -- a value that is not too deep is passed
  pub past_value :
      (v : Json) (l n at : ℕ) (es : List Event) (j : Jsn)
      → Open l j
      → l + depth v ≤ bound
      → WalkTo l n (actions stale v l n at es) es j
  past_value v l n at es j r h =
      pass (invoke p) invoke_error (Room ctx bound) (idle p ctx bound) stale v l n at es j
        (record { ready = r.ready; heard = r.heard; inner = r.inner; fits = h })
        r.ready.live.running

  -- a push above the bound goes down
  into :
      (l n pos : ℕ) (t : Token) (es : List Event) (j : Jsn)
      → Open l j
      → l < bound
      → feed (event push l n pos t ∷ es) j ≡ feed es (arrive push l n pos t j)
  into l n pos t es j r h =
      let fits : l + 1 ≤ bound = omega arith in
      pass_push (invoke p) invoke_error (Room ctx bound) (idle p ctx bound) stale 0 l n pos t es j
        (record { ready = r.ready; heard = r.heard; inner = r.inner; fits = fits })
        r.ready.live.running

  -- A value, elements and fields of which one is deeper than the bound stop the parser.
  mutual
    unfolding actions depth

    pub sink :
        (v : Json) (l n at : ℕ) (es : List Event) (j : Jsn)
        → Open l j
        → bound < l + depth v
        → Sank (feed (actions stale v l n at es) j)
    sink (special s flags) l n at es j r h =
        sink_here l n at _ _ j r.ready r.heard (let k = r.fits in omega arith) refl
    sink (str s c) l n at es j r h =
        sink_here l n at _ _ j r.ready r.heard (let k = r.fits in omega arith) refl
    sink (arr items) l n at es j r h = elim (le_cases l bound r.fits) [
      | inl last ↦ sink_here l n at _ _ j r.ready r.heard last refl
      | inr above ↦
          let t = push_token stale (arr items) at in
          subst Sank (sym (into l n at t _ j r above)) (
            sink_items items (suc l) 0 (at + 1) _ (arrive push l n at t j)
              (Open-arrive l n at t j r above) (omega arith))
    ]
    sink (obj fields) l n at es j r h = elim (le_cases l bound r.fits) [
      | inl last ↦ sink_here l n at _ _ j r.ready r.heard last refl
      | inr above ↦
          let t = push_token stale (obj fields) at in
          subst Sank (sym (into l n at t _ j r above)) (
            sink_fields fields (suc l) 0 (at + 1) _ (arrive push l n at t j)
              (Open-arrive l n at t j r above) (omega arith))
    ]

    pub sink_items :
        (items : Items) (l n at : ℕ) (es : List Event) (j : Jsn)
        → Open l j
        → bound < l + items_depth items
        → Sank (feed (item_actions stale items l n at es) j)
    sink_items (nil ws) l n at es j r h = absurd (let k = r.fits in omega arith)
    sink_items (cons lead v trail rest) l n at es j r h = elim (fits_cases (l + depth v) bound) [
      | inl fits ↦
          let (j', e, a) = past_value v l (suc n) (at + length lead) _ j r fits in
          subst Sank (sym e) (sink_items rest l (suc n) _ es j' (Open-Passed r a) (omega arith))
      | inr deep ↦ sink v l (suc n) (at + length lead) _ j r deep
    ]

    pub sink_fields :
        (fields : Fields) (l n at : ℕ) (es : List Event) (j : Jsn)
        → Open l j
        → bound < l + fields_depth fields
        → Sank (feed (field_actions stale fields l n at es) j)
    sink_fields (end ws) l n at es j r h = absurd (let k = r.fits in omega arith)
    sink_fields (field lead k c mid mid' v trail rest) l n at es j r h =
        let (j1, e1, a1) =
          past_key l (suc n) (at + length lead) (at + length lead + (length k + 1))
            (key_push stale (at + length lead)) (key_pop stale k c (at + length lead)) _ j r.ready
            refl refl in
        let r1 = Open-Passed r a1 in
        subst Sank (sym e1) (elim (fits_cases (l + depth v) bound) [
          | inl fits ↦
              let (j', e, a) =
                past_value v l (suc (suc n)) (at + value_offset lead k mid mid') _ j1 r1 fits in
              subst Sank (sym e)
                (sink_fields rest l (suc (suc n)) _ es j' (Open-Passed r1 a) (omega arith))
          | inr deep ↦ sink v l (suc (suc n)) (at + value_offset lead k mid mid') _ j1 r1 deep
        ])
