-- ===== src/Validate/Chunks.antt =====
-- The feeds of `Validator::validate` in subdoc/match.cc, one after the other, against a run over all
-- their actions.
use subjson.Jsonsl.{JsonslError}
use subjson.Loc.{Ptr}
use subjson.Match.Callbacks.{invoke, invoke_error}
use subjson.Parser.{Action, push, pop, State, ValidateCtx, validating, Jsn, Parser}
use subjson.Parser.Trace.{Event, event, failed, run, deliver, arrive, entered, Token, is_wanted}
use subjson.Parser.Tree.{
  Json, special, str, arr, obj, Items, nil, cons, Fields, end, field, actions, item_actions,
  field_actions, Stale,
}
use subjson.Parser.Walk.{deliver-unwanted, arrive-Passed, run_on, run_stop}
use subjson.Prelude.{
  ℕ, ◌≡◌, refl, sym, ap, subst, ◌∙◌, arith, Bool, true, false, not, List, [], ◌∷◌, ◌++◌, ◌⊎◌, inl,
  inr, Bool-cases,
}
use subjson.Validate.{ValidateStatus, json, enotprimitive, emultielem, epartial}
use subjson.Validate.Judge.{judged, sentence, Live, Live-Passed, deliver-judged}
use subjson.Validate.Run.{is_success}

-- no error among the actions
unfoldable pub all_actions : List Event → Bool
all_actions [] = true
all_actions (event action l n pos t ∷ es) = all_actions es
all_actions (failed e ∷ es) = false

pub all_actions-append :
    (es es' : List Event) → all_actions (es ++ es') ≡ true → all_actions es ≡ true
unfolding all_actions
all_actions-append [] es' h = refl
all_actions-append (event action l n pos t ∷ es) es' h = all_actions-append es es' h
all_actions-append (failed e ∷ es) es' h = h

pub append-all_actions :
    (es es' : List Event) → all_actions (es ++ es') ≡ true → all_actions es' ≡ true
unfolding all_actions
append-all_actions [] es' h = h
append-all_actions (event action l n pos t ∷ es) es' h = append-all_actions es es' h
append-all_actions (failed e ∷ es) es' h = ground arith

module _ (stale : ℕ → Stale) where
  mutual
    unfolding actions all_actions

    pub actions-all_actions :
        (v : Json) (l n at : ℕ) (es : List Event)
        → all_actions es ≡ true
        → all_actions (actions stale v l n at es) ≡ true
    actions-all_actions (special s flags) l n at es h = h
    actions-all_actions (str s c) l n at es h = h
    actions-all_actions (arr items) l n at es h = item_actions-all_actions items _ _ _ _ h
    actions-all_actions (obj fields) l n at es h = field_actions-all_actions fields _ _ _ _ h

    pub item_actions-all_actions :
        (items : Items) (l n at : ℕ) (es : List Event)
        → all_actions es ≡ true
        → all_actions (item_actions stale items l n at es) ≡ true
    item_actions-all_actions (nil ws) l n at es h = h
    item_actions-all_actions (cons lead v trail rest) l n at es h =
        actions-all_actions v _ _ _ _ (item_actions-all_actions rest _ _ _ es h)

    field_actions-all_actions :
        (fields : Fields) (l n at : ℕ) (es : List Event)
        → all_actions es ≡ true
        → all_actions (field_actions stale fields l n at es) ≡ true
    field_actions-all_actions (end ws) l n at es h = h
    field_actions-all_actions (field lead k c mid mid' v trail rest) l n at es h =
        actions-all_actions v _ _ _ _ (field_actions-all_actions rest _ _ _ es h)

pub is_success-eq : (e : ValidateStatus) → is_success e ≡ true → e ≡ json JsonslError.success
is_success-eq (json JsonslError.success) h = refl
is_success-eq (json _) h = ground arith
is_success-eq enotprimitive h = ground arith
is_success-eq emultielem h = ground arith
is_success-eq epartial h = ground arith

-- the parser stopped with an error
abbrev pub Dead : Jsn → Type 0
Dead k =
    (c : ValidateCtx) × (k.context ≡ validating c) × (is_success c.err ≡ false) × (k.stopfl ≡ true)

abbrev pub rebase : Ptr → Jsn → Jsn
rebase b j = record j { base = b }

pub Live-rebase : {ctx : ValidateCtx} {j : Jsn} (b : Ptr) → Live ctx j → Live ctx (rebase b j)
Live-rebase b r = record {
  cb_push = r.cb_push;
  cb_pop = r.cb_pop;
  cb = r.cb;
  holds = r.holds;
  running = r.running;
  fine = r.fine;
}

module _ (p : Parser) where
  sentence-cases :
      (ctx c : ValidateCtx) (j : Jsn) → Live ctx j → Live c (sentence c j) ⊎ Dead (sentence c j)
  sentence-cases ctx c j r = elim (Bool-cases (is_success c.err)) [
    | inl good ↦ inl (record {
      cb_push = r.cb_push;
      cb_pop = r.cb_pop;
      cb = r.cb;
      holds = refl;
      running = ap not good;
      fine = is_success-eq c.err good;
    })
    | inr bad ↦ inr (c, refl, bad, ap not bad)
  ]

  -- After an action the parser runs on, or it has stopped with an error.
  pub deliver-cases :
      (action : Action) (l n pos : ℕ) (t : Token) (ctx : ValidateCtx) (j : Jsn)
      → Live ctx j
      → ((c : ValidateCtx) × Live c (deliver (invoke p) action l n pos t j))
        ⊎ Dead (deliver (invoke p) action l n pos t j)
  deliver-cases action l n pos t ctx j r =
      let j1 = arrive action l n pos t j in
      let r1 = Live-Passed r (arrive-Passed action l n pos t j) in
      elim (Bool-cases (is_wanted action l t.type j)) [
        | inl seen ↦
            let c = judged action (entered action l t j) (record (j.stack l) { nelem = n }) ctx in
            let e = deliver-judged p ctx action l n pos t j r seen in
            subst (λ k. ((c : ValidateCtx) × Live c k) ⊎ Dead k) (sym e)
              (elim (sentence-cases ctx c j1 r1) [ inl live ↦ inl (c, live) | inr dead ↦ inr dead ])
        | inr unseen ↦
            let e = deliver-unwanted (invoke p) action l n pos t j unseen in
            subst (λ k. ((c : ValidateCtx) × Live c k) ⊎ Dead k) (sym e) (inl (ctx, r1))
      ]

  -- The validator does not look at the buffer.
  unwanted-rebase :
      (action : Action) (l n pos : ℕ) (t : Token) (b : Ptr) (j : Jsn)
      → is_wanted action l t.type (rebase b j) ≡ is_wanted action l t.type j
  unwanted-rebase push l n pos t b j = refl
  unwanted-rebase pop l n pos t b j = refl

  entered-rebase :
      (action : Action) (l : ℕ) (t : Token) (b : Ptr) (j : Jsn)
      → entered action l t (rebase b j) ≡ entered action l t j
  entered-rebase push l t b j = refl
  entered-rebase pop l t b j = refl

  arrive-rebase :
      (action : Action) (l n pos : ℕ) (t : Token) (b : Ptr) (j : Jsn)
      → arrive action l n pos t (rebase b j) ≡ rebase b (arrive action l n pos t j)
  unfolding arrive
  arrive-rebase push l n pos t b j = refl
  arrive-rebase pop l n pos t b j = refl

  pub deliver-rebase :
      (action : Action) (l n pos : ℕ) (t : Token) (ctx : ValidateCtx) (b : Ptr) (j : Jsn)
      → Live ctx j
      → deliver (invoke p) action l n pos t (rebase b j)
        ≡ rebase b (deliver (invoke p) action l n pos t j)
  deliver-rebase action l n pos t ctx b j r =
      let wanted = unwanted-rebase action l n pos t b j in
      let same = arrive-rebase action l n pos t b j in
      elim (Bool-cases (is_wanted action l t.type j)) [
        | inl seen ↦
            let above = record (j.stack l) { nelem = n } in
            deliver-judged p ctx action l n pos t (rebase b j) (Live-rebase b r) (wanted ∙ seen)
            ∙ ap
                (λ (st : State).
                  sentence (judged action st above ctx) (arrive action l n pos t (rebase b j)))
                (entered-rebase action l t b j)
            ∙ ap (sentence (judged action (entered action l t j) above ctx)) same
            ∙ ap (rebase b) (sym (deliver-judged p ctx action l n pos t j r seen))
        | inr unseen ↦
            deliver-unwanted (invoke p) action l n pos t (rebase b j) (wanted ∙ unseen)
            ∙ same
            ∙ ap (rebase b) (sym (deliver-unwanted (invoke p) action l n pos t j unseen))
      ]

  abbrev pub feed : List Event → Jsn → Jsn
  feed es j = run (invoke p) invoke_error es j

  -- A run that came to `k` ended there with an error and that is `all`, or it goes on from there.
  abbrev pub SplitAt : List Event → Jsn → Jsn → Type 0
  SplitAt es' k all = (Dead k × (all ≡ k)) ⊎ (((c : ValidateCtx) × Live c k) × (all ≡ feed es' k))

  pub run-append :
      (es es' : List Event) (ctx : ValidateCtx) (j : Jsn)
      → Live ctx j
      → all_actions es ≡ true
      → SplitAt es' (feed es j) (feed (es ++ es') j)
  unfolding all_actions run
  run-append [] es' ctx j r h = inr ((ctx, r), refl)
  run-append (failed e ∷ es) es' ctx j r h = ground arith
  run-append (event action l n pos t ∷ es) es' ctx j r h =
      let j1 = deliver (invoke p) action l n pos t j in
      elim (deliver-cases action l n pos t ctx j r) [
        | inl (c, live) ↦
            let on = run_on (invoke p) invoke_error action l n pos t es j live.running in
            let on' = run_on (invoke p) invoke_error action l n pos t (es ++ es') j live.running in
            subst (λ k. SplitAt es' k (feed (event action l n pos t ∷ (es ++ es')) j)) (sym on)
              (subst (SplitAt es' (feed es j1)) (sym on') (run-append es es' c j1 live h))
        | inr (c, holds, bad, stopped) ↦
            let off = run_stop (invoke p) invoke_error action l n pos t es j stopped in
            let off' = run_stop (invoke p) invoke_error action l n pos t (es ++ es') j stopped in
            subst (λ k. SplitAt es' k (feed (event action l n pos t ∷ (es ++ es')) j)) (sym off)
              (inl ((c, holds, bad, stopped), off'))
      ]

  pub run-rebase :
      (es : List Event) (ctx : ValidateCtx) (b : Ptr) (j : Jsn)
      → Live ctx j
      → all_actions es ≡ true
      → feed es (rebase b j) ≡ rebase b (feed es j)
  unfolding all_actions run
  run-rebase [] ctx b j r h = refl
  run-rebase (failed e ∷ es) ctx b j r h = ground arith
  run-rebase (event action l n pos t ∷ es) ctx b j r h =
      let j1 = deliver (invoke p) action l n pos t j in
      let same = deliver-rebase action l n pos t ctx b j r in
      let flag = ap (λ (k : Jsn). k.stopfl) same in
      elim (deliver-cases action l n pos t ctx j r) [
        | inl (c, live) ↦
            let on = run_on (invoke p) invoke_error action l n pos t es j live.running in
            let on' =
              run_on (invoke p) invoke_error action l n pos t es (rebase b j)
                (flag ∙ live.running) in
            on' ∙ ap (feed es) same ∙ run-rebase es c b j1 live h ∙ ap (rebase b) (sym on)
        | inr (c, holds, bad, stopped) ↦
            let off = run_stop (invoke p) invoke_error action l n pos t es j stopped in
            let off' =
              run_stop (invoke p) invoke_error action l n pos t es (rebase b j) (flag ∙ stopped) in
            off' ∙ same ∙ ap (rebase b) (sym off)
      ]
