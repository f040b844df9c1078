-- ===== src/Validate/Judge.antt =====
-- What one action does to the validator of subdoc/match.cc, as a function of its context alone.
use subjson.Jsonsl.{JsonslError, levels_exceeded, is_container}
use subjson.Loc.{ptr_add}
use subjson.Match.Callbacks.{invoke}
use subjson.Match.Tests.{is_push}
use subjson.Parser.{
  Context, Action, push, pop, Callback, State, ValidateCtx, validating, Jsn, Parser,
}
use subjson.Parser.Trace.{deliver, arrive, Token, is_wanted}
use subjson.Parser.Trace.{entered, callback_for, first_of, invoke_some}
use subjson.Parser.Walk.{Passed, Passed-running, arrive-Passed, arrive_at}
use subjson.Prelude.{
  ℕ, suc, ◌+◌, ◌-◌, ◌≡◌, sym, ap, ◌∙◌, arith, Bool, true, false, not, ◌&&◌, none, some, ◌==◌,
  if◌then◌else◌,
}
use subjson.Validate.{
  ValidateStatus, json, enotprimitive, emultielem, value_primitive, value_single,
}
use subjson.Validate.Callbacks.{validate_callback, too_deep, has_flag, has_multielem}
use subjson.Validate.Run.{is_success}

-- the verdict on an element of the wrapper
abbrev pub element_error : ℕ → State → State → ValidateStatus → ValidateStatus
element_error flags st parent e =
    if has_flag flags value_single && has_multielem parent
    then emultielem
    else if has_flag flags value_primitive && is_container st.type
    then enotprimitive
    else e

unfoldable pub judged : Action → State → State → ValidateCtx → ValidateCtx
judged action st parent ctx =
    if too_deep ctx.maxdepth st.level
    then record ctx { err = json levels_exceeded }
    else if st.level == 1
    then record ctx { rootcount = ctx.rootcount + 1 }
    else if st.level == 2 && is_push action
    then record ctx { err = element_error ctx.flags st parent ctx.err }
    else ctx

-- The parser goes on with the context, or stops when it holds an error.
abbrev pub sentence : ValidateCtx → Jsn → Jsn
sentence ctx j = record j { context = validating ctx; stopfl = not (is_success ctx.err) }

pub validate_callback-judged :
    (action : Action) (l : ℕ) (ctx : ValidateCtx) (j : Jsn)
    → j.context ≡ validating ctx
    → ctx.err ≡ json JsonslError.success
    → j.stopfl ≡ false
    → validate_callback action l j
      ≡ sentence (judged action (j.stack l) (j.stack ((j.stack l).level - 1)) ctx) j
unfolding validate_callback judged
validate_callback-judged action l ctx j c e s = ground arith

-- The parser holds the validator with the context `ctx`, and runs.
pub record Live (ctx : ValidateCtx) (j : Jsn) : Type 0 where
  pub cb_push : j.action_callback_push ≡ none
  pub cb_pop : j.action_callback_pop ≡ none
  pub cb : j.action_callback ≡ some Callback.validate_callback
  pub holds : j.context ≡ validating ctx
  pub running : j.stopfl ≡ false
  pub fine : ctx.err ≡ json JsonslError.success

pub Live-Passed :
    {ctx : ValidateCtx} {l n : ℕ} {j j' : Jsn} → Live ctx j → Passed l n j j' → Live ctx j'
Live-Passed r a = record {
  cb_push = ap (λ (k : Jsn). k.action_callback_push) a.same ∙ r.cb_push;
  cb_pop = ap (λ (k : Jsn). k.action_callback_pop) a.same ∙ r.cb_pop;
  cb = ap (λ (k : Jsn). k.action_callback) a.same ∙ r.cb;
  holds = ap (λ (k : Jsn). k.context) a.same ∙ r.holds;
  running = Passed-running a r.running;
  fine = r.fine;
}

callback_for-Live :
    {ctx : ValidateCtx} (action : Action) (j : Jsn)
    → Live ctx j
    → callback_for action j ≡ some Callback.validate_callback
callback_for-Live push j r = ap (λ c. first_of c j.action_callback) r.cb_push ∙ r.cb
callback_for-Live pop j r = ap (λ c. first_of c j.action_callback) r.cb_pop ∙ r.cb

module _ (p : Parser) (ctx : ValidateCtx) where
  -- an action that is not ignored, on a value within the levels of the callbacks
  pub deliver-judged :
      (action : Action) (l n pos : ℕ) (t : Token) (j : Jsn)
      → Live ctx j
      → is_wanted action l t.type j ≡ true
      → deliver (invoke p) action l n pos t j
        ≡ sentence
            (judged action (entered action l t j) (record (j.stack l) { nelem = n }) ctx)
            (arrive action l n pos t j)
  unfolding deliver invoke
  deliver-judged action l n pos t j r wanted =
      let j' = arrive action l n pos t j in
      let r' = Live-Passed r (arrive-Passed action l n pos t j) in
      let found : callback_for action j ≡ some Callback.validate_callback =
        callback_for-Live action j r in
      let at = arrive_at action l n pos t j in
      let parent = (arrive-Passed action l n pos t j).parent in
      let e = validate_callback-judged action (suc l) ctx j' r'.holds r'.fine r'.running in
      let up : suc l - 1 ≡ l = omega arith in
      let of : State → State → Jsn = λ st above. sentence (judged action st above ctx) j' in
      let e' : of (j'.stack (suc l)) (j'.stack ((j'.stack (suc l)).level - 1))
          ≡ of (entered action l t j) (record (j.stack l) { nelem = n }) =
        ap (λ (st : State). of st (j'.stack (st.level - 1))) at
        ∙ ap (λ (i : ℕ). of (entered action l t j) (j'.stack i)) up
        ∙ ap (of (entered action l t j)) parent in
      ap
        (λ (b : Bool).
          if b
          then invoke_some (invoke p) (callback_for action j) action (suc l) (ptr_add j.base pos) j'
          else j')
        wanted
      ∙ ap (λ c. invoke_some (invoke p) c action (suc l) (ptr_add j.base pos) j') found
      ∙ e
      ∙ e'

  pub sentence-Live : (j : Jsn) → Live ctx j → sentence ctx j ≡ j
  sentence-Live j r =
      ap
        (λ (e : ValidateStatus). record j { context = validating ctx; stopfl = not (is_success e) })
        r.fine
      ∙ ap (λ (c : Context). record j { context = c; stopfl = false }) (sym r.holds)
      ∙ ap (λ (b : Bool). record j { stopfl = b }) (sym r.running)
