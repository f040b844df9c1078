-- ===== src/Validate/Verdict.antt =====
-- The run of the validator of subdoc/match.cc over all elements of the wrapping array ends with
-- the verdict on them.
use subjson.Jsonsl.{JsonslError, levels_exceeded, t_list}
use subjson.Loc.{Bytes}
use subjson.Match.Callbacks.{invoke, invoke_error}
use subjson.Parser.{push, pop, State, ValidateCtx, validating, Jsn, Parser}
use subjson.Parser.Trace.{Event, event, run, deliver, arrive, entered, Token}
use subjson.Parser.Tree.{
  Json, special, str, arr, obj, Items, nil, cons, actions, item_actions, depth, Stale, push_token,
  pop_token, pop_offset, text, comma, count_items, count_fields,
}
use subjson.Parser.Walk.{Passed-stay, arrive_at, run_on, pass_items, pass_fields}
use subjson.Prelude.{
  ℕ, suc, ◌+◌, ◌<◌, ◌≤◌, ◌≡◌, refl, sym, ap, subst, ◌∙◌, arith, Bool, true, false, not, List, [],
  ◌∷◌, length, inl, inr, Bool-cases, if◌then◌else◌,
}
use subjson.Validate.{ValidateStatus, json}
use subjson.Validate.Depth.{Sank, fits_cases, sink_items, sink_fields}
use subjson.Validate.Descend.{Room, idle}
use subjson.Validate.Elements.{
  front, verdict, outcome, feed, WalkTo, InArray, InArray-Passed, push_element, refuse_element,
  around, Open-element, judged-end, wanted-end,
}
use subjson.Validate.Judge.{sentence, deliver-judged}
use subjson.Validate.Run.{is_success}

pub front-pos :
    (maxdepth flags n : ℕ) (v : Json)
    → front maxdepth flags n v ≡ json JsonslError.success
    → 0 < maxdepth
front-pos maxdepth flags n v h = ground arith

front-success :
    (maxdepth flags n : ℕ) (v : Json)
    → is_success (front maxdepth flags n v) ≡ true
    → front maxdepth flags n v ≡ json JsonslError.success
front-success maxdepth flags n v h = ground arith

-- the three cases of an element
verdict-bad :
    (maxdepth flags n : ℕ) (lead trail : Bytes) (v : Json) (rest : Items)
    → is_success (front maxdepth flags n v) ≡ false
    → verdict maxdepth flags n (cons lead v trail rest) ≡ front maxdepth flags n v
unfolding verdict
verdict-bad maxdepth flags n lead trail v rest h = rw h

verdict-deep :
    (maxdepth flags n : ℕ) (lead trail : Bytes) (v : Json) (rest : Items)
    → is_success (front maxdepth flags n v) ≡ true
    → maxdepth < depth v
    → verdict maxdepth flags n (cons lead v trail rest) ≡ json levels_exceeded
unfolding verdict
verdict-deep maxdepth flags n lead trail v rest h deep = ground arith

verdict-next :
    (maxdepth flags n : ℕ) (lead trail : Bytes) (v : Json) (rest : Items)
    → is_success (front maxdepth flags n v) ≡ true
    → depth v ≤ maxdepth
    → verdict maxdepth flags n (cons lead v trail rest) ≡ verdict maxdepth flags (suc n) rest
unfolding verdict
verdict-next maxdepth flags n lead trail v rest h fits = ground arith

module _ (p : Parser) (ctx : ValidateCtx) (maxdepth : ℕ) (stale : ℕ → Stale) where
  abbrev in_bound : ℕ
  in_bound = maxdepth + 1

  -- an element that the verdict lets through
  pub walk_element :
      (v : Json) (n at : ℕ) (es : List Event) (j : Jsn)
      → InArray p ctx maxdepth stale n j
      → front maxdepth ctx.flags n v ≡ json JsonslError.success
      → depth v ≤ maxdepth
      → WalkTo p ctx maxdepth stale 1 (suc n) (actions stale v 1 (suc n) at es) es j
  unfolding actions depth
  walk_element (special s flags) n at es j r good h =
      let t = push_token stale (special s flags) at in
      let j1 = arrive push 1 (suc n) at t j in
      around p ctx maxdepth stale (special s flags) n (j1.stack 2).nelem at
        (at + pop_offset (special s flags)) t (pop_token stale (special s flags) at) _ es j r refl
        good h (j1, refl, Passed-stay 2 j1)
  walk_element (str s c) n at es j r good h =
      let t = push_token stale (str s c) at in
      let j1 = arrive push 1 (suc n) at t j in
      around p ctx maxdepth stale (str s c) n (j1.stack 2).nelem at (at + pop_offset (str s c)) t
        (pop_token stale (str s c) at) _ es j r refl good h (j1, refl, Passed-stay 2 j1)
  walk_element (arr items) n at es j r good h =
      let t = push_token stale (arr items) at in
      let o =
        Open-element p ctx maxdepth stale (arr items) n at t j r
          (front-pos maxdepth ctx.flags n (arr items) good) in
      around p ctx maxdepth stale (arr items) n (count_items items + 0) at
        (at + pop_offset (arr items)) t (pop_token stale (arr items) at) _ es j r refl good
        (omega arith)
        (pass_items (invoke p) invoke_error (Room ctx in_bound) (idle p ctx in_bound) stale items 2
          0 (at + 1) _ (arrive push 1 (suc n) at t j)
          (record { ready = o.ready; heard = o.heard; inner = o.inner; fits = omega arith })
          o.ready.live.running (ap (λ (s : State). s.nelem) (arrive_at push 1 (suc n) at t j)))
  walk_element (obj fields) n at es j r good h =
      let t = push_token stale (obj fields) at in
      let o =
        Open-element p ctx maxdepth stale (obj fields) n at t j r
          (front-pos maxdepth ctx.flags n (obj fields) good) in
      around p ctx maxdepth stale (obj fields) n (count_fields fields + count_fields fields + 0) at
        (at + pop_offset (obj fields)) t (pop_token stale (obj fields) at) _ es j r refl good
        (omega arith)
        (pass_fields (invoke p) invoke_error (Room ctx in_bound) (idle p ctx in_bound) stale fields
          2 0 (at + 1) _ (arrive push 1 (suc n) at t j)
          (record { ready = o.ready; heard = o.heard; inner = o.inner; fits = omega arith })
          o.ready.live.running (ap (λ (s : State). s.nelem) (arrive_at push 1 (suc n) at t j)))

  -- an element that begins well and is too deep
  pub sink_element :
      (v : Json) (n at : ℕ) (es : List Event) (j : Jsn)
      → InArray p ctx maxdepth stale n j
      → front maxdepth ctx.flags n v ≡ json JsonslError.success
      → maxdepth < depth v
      → Sank p ctx in_bound stale (feed p ctx maxdepth stale (actions stale v 1 (suc n) at es) j)
  unfolding actions depth
  sink_element (special s flags) n at es j r good h =
      absurd (let k = front-pos maxdepth ctx.flags n (special s flags) good in omega arith)
  sink_element (str s c) n at es j r good h =
      absurd (let k = front-pos maxdepth ctx.flags n (str s c) good in omega arith)
  sink_element (arr items) n at es j r good h =
      let t = push_token stale (arr items) at in
      let o =
        Open-element p ctx maxdepth stale (arr items) n at t j r
          (front-pos maxdepth ctx.flags n (arr items) good) in
      subst (Sank p ctx in_bound stale)
        (sym (push_element p ctx maxdepth stale (arr items) n at t _ j r refl good))
        (sink_items p ctx in_bound stale items 2 0 (at + 1) _ (arrive push 1 (suc n) at t j) o
          (omega arith))
  sink_element (obj fields) n at es j r good h =
      let t = push_token stale (obj fields) at in
      let o =
        Open-element p ctx maxdepth stale (obj fields) n at t j r
          (front-pos maxdepth ctx.flags n (obj fields) good) in
      subst (Sank p ctx in_bound stale)
        (sym (push_element p ctx maxdepth stale (obj fields) n at t _ j r refl good))
        (sink_fields p ctx in_bound stale fields 2 0 (at + 1) _ (arrive push 1 (suc n) at t j) o
          (omega arith))

  -- an element that must not begin here
  pub bad_element :
      (v : Json) (n at : ℕ) (es : List Event) (j : Jsn)
      → InArray p ctx maxdepth stale n j
      → is_success (front maxdepth ctx.flags n v) ≡ false
      → (j' : Jsn) × (feed p ctx maxdepth stale (actions stale v 1 (suc n) at es) j
          ≡ sentence (record ctx { err = front maxdepth ctx.flags n v }) j')
  unfolding actions
  bad_element (special s flags) n at es j r bad =
      let t = push_token stale (special s flags) at in
      (
        arrive push 1 (suc n) at t j,
        refuse_element p ctx maxdepth stale (special s flags) n at t _ j _ r refl refl refl bad,
      )
  bad_element (str s c) n at es j r bad =
      let t = push_token stale (str s c) at in
      (
        arrive push 1 (suc n) at t j,
        refuse_element p ctx maxdepth stale (str s c) n at t _ j _ r refl refl refl bad,
      )
  bad_element (arr items) n at es j r bad =
      let t = push_token stale (arr items) at in
      (
        arrive push 1 (suc n) at t j,
        refuse_element p ctx maxdepth stale (arr items) n at t _ j _ r refl refl refl bad,
      )
  bad_element (obj fields) n at es j r bad =
      let t = push_token stale (obj fields) at in
      (
        arrive push 1 (suc n) at t j,
        refuse_element p ctx maxdepth stale (obj fields) n at t _ j _ r refl refl refl bad,
      )

  -- how the run ends
  abbrev pub Ended : ValidateStatus → Jsn → Type 0
  Ended e k = (k.context ≡ validating (outcome e ctx)) × (k.stopfl ≡ not (is_success e))

  Ended-refused :
      (e : ValidateStatus) (j : Jsn)
      → is_success e ≡ false
      → Ended e (sentence (record ctx { err = e }) j)
  Ended-refused e j bad = (
    sym (
        ap
          (λ (b : Bool).
            validating
              (if b then record ctx { rootcount = ctx.rootcount + 1 } else record ctx { err = e }))
          bad),
    refl,
  )

  judge_end :
      (n n' pos : ℕ) (t : Token) (j : Jsn)
      → InArray p ctx maxdepth stale n j
      → t.type ≡ t_list
      → Ended (json JsonslError.success) (feed p ctx maxdepth stale (event pop 0 n' pos t ∷ []) j)
  unfolding run
  judge_end n n' pos t j r list =
      let r' = r.ready in
      let j1 = arrive pop 0 n' pos t j in
      let e =
        deliver-judged p ctx pop 0 n' pos t j r'.live (wanted-end p ctx maxdepth stale n t j r list)
        ∙ ap (λ (c : ValidateCtx). sentence c j1)
            (judged-end p ctx maxdepth stale (entered pop 0 t j) (record (j.stack 0) { nelem = n' })
              r'.depth refl) in
      let on : (deliver (invoke p) pop 0 n' pos t j).stopfl ≡ false =
        ap (λ (k : Jsn). k.stopfl) e ∙ ap (λ s. not (is_success s)) r'.live.fine in
      let all = run_on (invoke p) invoke_error pop 0 n' pos t [] j on ∙ e in
      subst (Ended (json JsonslError.success)) (sym all)
        (refl, ap (λ s. not (is_success s)) r'.live.fine)

  -- The run over the elements and the closing bracket ends with the verdict.
  pub judge_items :
      (items : Items) (n at n' pos : ℕ) (t : Token) (j : Jsn)
      → InArray p ctx maxdepth stale n j
      → t.type ≡ t_list
      → Ended (verdict maxdepth ctx.flags n items) (
          feed p ctx maxdepth stale (item_actions stale items 1 n at (event pop 0 n' pos t ∷ [])) j)
  unfolding item_actions verdict
  judge_items (nil ws) n at n' pos t j r list = judge_end n n' pos t j r list
  judge_items (cons lead v trail rest) n at n' pos t j r list =
      let flags = ctx.flags in
      let behind = at + length lead + length (text v) + length trail + length (comma rest) in
      let es = item_actions stale rest 1 (suc n) behind (event pop 0 n' pos t ∷ []) in
      let go : ValidateStatus → Type 0 = λ s.
        Ended s (feed p ctx maxdepth stale (actions stale v 1 (suc n) (at + length lead) es) j) in
      elim (Bool-cases (is_success (front maxdepth flags n v))) [
        | inr bad ↦
            let (j', e) = bad_element v n (at + length lead) es j r bad in
            subst go (sym (verdict-bad maxdepth flags n lead trail v rest bad)) (
              subst (Ended (front maxdepth flags n v)) (sym e)
                (Ended-refused (front maxdepth flags n v) j' bad))
        | inl good ↦
            let fine = front-success maxdepth flags n v good in
            elim (fits_cases (depth v) maxdepth) [
              | inl fits ↦
                  let (j', e, a) = walk_element v n (at + length lead) es j r fine fits in
                  subst go (sym (verdict-next maxdepth flags n lead trail v rest good fits)) (
                    subst (Ended (verdict maxdepth flags (suc n) rest)) (sym e) (
                      judge_items rest (suc n) behind n' pos t j'
                        (InArray-Passed p ctx maxdepth stale r a) list))
              | inr deep ↦
                  subst go (sym (verdict-deep maxdepth flags n lead trail v rest good deep))
                    (sink_element v n (at + length lead) es j r fine deep)
            ]
      ]
