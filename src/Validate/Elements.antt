-- ===== src/Validate/Elements.antt =====
-- The validator of subdoc/match.cc on the elements of the wrapping array, against a verdict that is
-- computed from the elements alone.
use subjson.Jsonsl.{JsonslError, levels_exceeded, t_list, is_container}
use subjson.Match.Callbacks.{invoke, invoke_error}
use subjson.Parser.{Action, push, pop, State, ValidateCtx, Jsn, Parser}
use subjson.Parser.Trace.{Event, event, run, deliver, arrive, entered, Token, is_wanted, called}
use subjson.Parser.Tree.{Json, Items, nil, cons, depth, Stale, type_of}
use subjson.Parser.Walk.{
  deliver-unwanted, Passed, Passed-trans, Passed-deep, arrive-Passed, arrive_at, run_on, run_stop,
}
use subjson.Prelude.{
  ℕ, suc, ◌+◌, ◌<◌, ◌≡◌, refl, sym, ap, ◌∙◌, arith, true, false, not, ◌&&◌, List, ◌∷◌, some, inl,
  inr, Bool-cases, ltb, lt→ltb, ◌==◌, if◌then◌else◌,
}
use subjson.Validate.{
  ValidateStatus, json, enotprimitive, emultielem, value_single, value_primitive,
}
use subjson.Validate.Callbacks.{has_flag}
use subjson.Validate.Depth.{Open}
use subjson.Validate.Descend.{Ready, Ready-Passed, value_flags}
use subjson.Validate.Judge.{judged, sentence, deliver-judged, sentence-Live}
use subjson.Validate.Run.{is_success}

-- what the beginning of an element behind `n` others gives, at most `maxdepth` levels being allowed
abbrev pub front : ℕ → ℕ → ℕ → Json → ValidateStatus
front maxdepth flags n v =
    if maxdepth == 0
    then json levels_exceeded
    else if has_flag flags value_single && ltb 1 (suc n)
    then emultielem
    else if has_flag flags value_primitive && is_container (type_of v)
    then enotprimitive
    else json JsonslError.success

-- the first error, element by element
unfoldable pub verdict : ℕ → ℕ → ℕ → Items → ValidateStatus
unfolding depth
verdict maxdepth flags n (nil ws) = json JsonslError.success
verdict maxdepth flags n (cons lead v trail rest) =
    let others = verdict maxdepth flags (suc n) rest in
    if not (is_success (front maxdepth flags n v))
    then front maxdepth flags n v
    else if ltb maxdepth (depth v)
    then json levels_exceeded
    else others

-- the context at the end: the closing bracket counts as the second action at the root
abbrev pub outcome : ValidateStatus → ValidateCtx → ValidateCtx
outcome e ctx =
    if is_success e then record ctx { rootcount = ctx.rootcount + 1 } else record ctx { err = e }

module _ (p : Parser) (ctx : ValidateCtx) (maxdepth : ℕ) (stale : ℕ → Stale) where
  abbrev pub bound : ℕ
  bound = maxdepth + 1

  abbrev pub feed : List Event → Jsn → Jsn
  feed es j = run (invoke p) invoke_error es j

  abbrev pub WalkTo : (l n : ℕ) → List Event → List Event → Jsn → Type 0
  WalkTo l n es rest j = (j' : Jsn) × (feed es j ≡ feed rest j') × Passed l n j j'

  -- the parser in the wrapping array, behind `n` elements
  pub record InArray (n : ℕ) (j : Jsn) : Type 0 where
    pub ready : Ready ctx bound j
    pub heard : (j.stack 1).ignore_callback ≡ false
    pub list : (j.stack 1).type ≡ t_list
    pub count : (j.stack 1).nelem ≡ n

  pub InArray-Passed : {n m : ℕ} {j j' : Jsn} → InArray n j → Passed 1 m j j' → InArray m j'
  InArray-Passed r a = record {
    ready = Ready-Passed r.ready a;
    heard = ap (λ (st : State). st.ignore_callback) a.parent ∙ r.heard;
    list = ap (λ (st : State). st.type) a.parent ∙ r.list;
    count = ap (λ (st : State). st.nelem) a.parent;
  }

  judged-front :
      (v : Json) (n : ℕ) (st parent : State)
      → ctx.maxdepth ≡ some bound
      → ctx.err ≡ json JsonslError.success
      → st.level ≡ 2
      → st.type ≡ type_of v
      → parent.type ≡ t_list
      → parent.nelem ≡ suc n
      → judged push st parent ctx ≡ record ctx { err = front maxdepth ctx.flags n v }
  unfolding judged
  judged-front v n st parent d e l t pt pn = ground arith

  judged-pop :
      (st parent : State)
      → ctx.maxdepth ≡ some bound
      → 0 < maxdepth
      → st.level ≡ 2
      → judged pop st parent ctx ≡ ctx
  unfolding judged
  judged-pop st parent d h l = ground arith

  pub judged-end :
      (st parent : State)
      → ctx.maxdepth ≡ some bound
      → st.level ≡ 1
      → judged pop st parent ctx ≡ record ctx { rootcount = ctx.rootcount + 1 }
  unfolding judged
  judged-end st parent d l = ground arith

  pub wanted-element :
      (n : ℕ) (t : Token) (j : Jsn)
      → InArray n j
      → called value_flags t.type ≡ true
      → is_wanted push 1 t.type j ≡ true
  wanted-element n t j r seen =
      let f = r.ready.flags in
      let m = r.ready.top in
      let heard = r.heard in
      let below = lt→ltb 2 (bound + 2) (omega arith) in rw (f, m, heard, seen, below)

  pub wanted-end :
      (n : ℕ) (t : Token) (j : Jsn)
      → InArray n j
      → t.type ≡ t_list
      → is_wanted pop 0 t.type j ≡ true
  wanted-end n t j r list =
      let f = r.ready.flags in
      let m = r.ready.top in
      let heard = r.heard in
      let below = lt→ltb 1 (bound + 2) (omega arith) in rw (f, m, heard, list, below)

  -- An action that leaves the context as it is changes nothing but the stack.
  same-arrive :
      (action : Action) (l n pos : ℕ) (t : Token) (j : Jsn)
      → Ready ctx bound j
      → judged action (entered action l t j) (record (j.stack l) { nelem = n }) ctx ≡ ctx
      → deliver (invoke p) action l n pos t j ≡ arrive action l n pos t j
  same-arrive action l n pos t j r same = elim (Bool-cases (is_wanted action l t.type j)) [
    | inl seen ↦
        deliver-judged p ctx action l n pos t j r.live seen
        ∙ ap (λ (c : ValidateCtx). sentence c (arrive action l n pos t j)) same
        ∙ sentence-Live p ctx (arrive action l n pos t j)
            (Ready-Passed r (arrive-Passed action l n pos t j)).live
    | inr unseen ↦ deliver-unwanted (invoke p) action l n pos t j unseen
  ]

  pub step :
      (action : Action) (l n pos : ℕ) (t : Token) (es : List Event) (j : Jsn)
      → Ready ctx bound j
      → judged action (entered action l t j) (record (j.stack l) { nelem = n }) ctx ≡ ctx
      → feed (event action l n pos t ∷ es) j ≡ feed es (arrive action l n pos t j)
  step action l n pos t es j r same =
      let e = same-arrive action l n pos t j r same in
      let on = (Ready-Passed r (arrive-Passed action l n pos t j)).live.running in
      run_on (invoke p) invoke_error action l n pos t es j (ap (λ (k : Jsn). k.stopfl) e ∙ on)
      ∙ ap (feed es) e

  -- the begin of an element that may stand here
  pub push_element :
      (v : Json) (n pos : ℕ) (t : Token) (es : List Event) (j : Jsn)
      → InArray n j
      → t.type ≡ type_of v
      → front maxdepth ctx.flags n v ≡ json JsonslError.success
      → feed (event push 1 (suc n) pos t ∷ es) j ≡ feed es (arrive push 1 (suc n) pos t j)
  push_element v n pos t es j r type good =
      let r' = r.ready in
      let e =
        judged-front v n (entered push 1 t j) (record (j.stack 1) { nelem = suc n }) r'.depth
          r'.live.fine refl type r.list refl in
      step push 1 (suc n) pos t es j r'
        (e ∙ ap (λ (s : ValidateStatus). record ctx { err = s }) (good ∙ sym r'.live.fine))

  -- the begin of any other stops the parser with its error
  pub refuse_element :
      (v : Json) (n pos : ℕ) (t : Token) (es : List Event) (j : Jsn) (err : ValidateStatus)
      → InArray n j
      → t.type ≡ type_of v
      → called value_flags t.type ≡ true
      → front maxdepth ctx.flags n v ≡ err
      → is_success err ≡ false
      → feed (event push 1 (suc n) pos t ∷ es) j
        ≡ sentence (record ctx { err = err }) (arrive push 1 (suc n) pos t j)
  refuse_element v n pos t es j err r type seen is bad =
      let r' = r.ready in
      let e =
        judged-front v n (entered push 1 t j) (record (j.stack 1) { nelem = suc n }) r'.depth
          r'.live.fine refl type r.list refl in
      let all =
        deliver-judged p ctx push 1 (suc n) pos t j r'.live (wanted-element n t j r seen)
        ∙ ap (λ (c : ValidateCtx). sentence c (arrive push 1 (suc n) pos t j))
            (e ∙ ap (λ (s : ValidateStatus). record ctx { err = s }) is) in
      run_stop (invoke p) invoke_error push 1 (suc n) pos t es j
        (ap (λ (k : Jsn). k.stopfl) all ∙ ap not bad)
      ∙ all

  -- An element around something that is passed is passed.
  pub around :
      (v : Json) (n m pos pos' : ℕ) (t t' : Token) (inner es : List Event) (j : Jsn)
      → InArray n j
      → t.type ≡ type_of v
      → front maxdepth ctx.flags n v ≡ json JsonslError.success
      → 0 < maxdepth
      → WalkTo 2 m inner (event pop 1 (suc n) pos' t' ∷ es) (arrive push 1 (suc n) pos t j)
      → WalkTo 1 (suc n) (event push 1 (suc n) pos t ∷ inner) es j
  around v n m pos pos' t t' inner es j r type good h (j', e, deep) =
      let first = arrive-Passed push 1 (suc n) pos t j in
      let last = arrive-Passed pop 1 (suc n) pos' t' j' in
      let r' = Ready-Passed (Ready-Passed r.ready first) deep in
      let quiet =
        judged-pop (entered pop 1 t' j') (record (j'.stack 1) { nelem = suc n }) r'.depth h refl in
      (
        arrive pop 1 (suc n) pos' t' j',
        push_element v n pos t inner j r type good ∙ e ∙ step pop 1 (suc n) pos' t' es j' r' quiet,
        Passed-trans (Passed-deep first deep) last,
      )

  pub Open-element :
      (v : Json) (n pos : ℕ) (t : Token) (j : Jsn)
      → InArray n j
      → 0 < maxdepth
      → Open p ctx bound stale 2 (arrive push 1 (suc n) pos t j)
  Open-element v n pos t j r h = record {
    ready = Ready-Passed r.ready (arrive-Passed push 1 (suc n) pos t j);
    heard = ap (λ (st : State). st.ignore_callback) (arrive_at push 1 (suc n) pos t j) ∙ r.heard;
    inner = omega arith;
    fits = omega arith;
  }
