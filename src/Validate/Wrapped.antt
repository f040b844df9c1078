-- ===== src/Validate/Wrapped.antt =====
-- `Validator::validate` of subdoc/match.cc on the elements of an array, against their verdict.
use subjson.Jsonsl.{t_list}
use subjson.Loc.{Loc}
use subjson.Match.Callbacks.{invoke, invoke_error}
use subjson.Parser.{Context, push, State, ValidateCtx, Jsn, Parser}
use subjson.Parser.Trace.{Event, run, run_chunks, arrive, entered, is_wanted, IsReset}
use subjson.Parser.Tree.{Items, arr, pop_offset, Stale, push_token, pop_token}
use subjson.Parser.Walk.{run_on}
use subjson.Prelude.{
  ℕ, ◌+◌, ◌≡◌, refl, sym, ap, subst, ◌∙◌, arith, true, false, bit_and, List, [], ◌++◌, inl, inr,
  some, lt→ltb,
}
use subjson.Validate.{parent_array}
use subjson.Validate.Chunks.{
  all_actions, all_actions-append, append-all_actions, item_actions-all_actions, rebase, run-append,
  run-rebase, feed,
}
use subjson.Validate.Elements.{verdict, InArray}
use subjson.Validate.Judge.{judged, sentence, Live, deliver-judged}
use subjson.Validate.Reads.{
  pre, post, open_list, close_list, Reads, ctx_first, ctx_open, final-outcome, validate_array,
  wrapped_live, wrapped_dead,
}
use subjson.Validate.Run.{
  validate, feed_wrapped, prepare, final_error, err_of, err_in, is_success, value_mask, parent_mask,
}
use subjson.Validate.Verdict.{judge_items}

module _ (p : Parser) (items : Items) (stale : ℕ → Stale) (n : ℕ) (flags maxdepth : ℕ) (j : Jsn)
    (fresh : IsReset j) where
  abbrev ready : Jsn
  ready = prepare flags (some (maxdepth + 1)) j

  abbrev started : Jsn
  started = rebase pre.at ready

  abbrev inside : Jsn
  inside =
      sentence (ctx_open flags maxdepth)
        (arrive push 0 n 0 (push_token stale (arr items) 0) started)

  ready-IsReset : IsReset ready
  unfolding prepare
  ready-IsReset = record { running = fresh.running; stack_zero = fresh.stack_zero }

  started-Live : Live (ctx_first flags maxdepth) started
  unfolding prepare
  started-Live = record {
    cb_push = refl;
    cb_pop = refl;
    cb = refl;
    holds = refl;
    running = fresh.running;
    fine = refl;
  }

  started-wanted : is_wanted push 0 t_list started ≡ true
  unfolding prepare
  started-wanted =
      let heard = ap (λ (st : State). st.ignore_callback) (fresh.stack_zero 0) in
      let below = lt→ltb 1 (maxdepth + 1 + 2) (omega arith) in rw (heard, below)

  judged-open :
      (st parent : State)
      → st.level ≡ 1
      → judged push st parent (ctx_first flags maxdepth) ≡ ctx_open flags maxdepth
  unfolding judged
  judged-open st parent h = ground arith

  -- the opening bracket
  pub open_inside : feed p (open_list stale items n) started ≡ inside
  unfolding run
  open_inside =
      let t = push_token stale (arr items) 0 in
      let j1 = arrive push 0 n 0 t started in
      let e =
        deliver-judged p (ctx_first flags maxdepth) push 0 n 0 t started started-Live started-wanted
        ∙ ap (λ (c : ValidateCtx). sentence c j1)
            (judged-open (entered push 0 t started) (record (started.stack 0) { nelem = n })
              refl) in
      run_on (invoke p) invoke_error push 0 n 0 t [] started (ap (λ (k : Jsn). k.stopfl) e) ∙ e

  inside-InArray :
      (value : Loc) → InArray p (ctx_open flags maxdepth) maxdepth stale 0 (rebase value.at inside)
  unfolding prepare arrive
  inside-InArray value = record {
    ready = record {
      live = record {
        cb_push = refl;
        cb_pop = refl;
        cb = refl;
        holds = refl;
        running = refl;
        fine = refl;
      };
      flags = refl;
      top = refl;
      depth = refl;
    };
    heard = ap (λ (st : State). st.ignore_callback) (fresh.stack_zero 0);
    list = refl;
    count = refl;
  }

  module _ (value : Loc) (es es' : List Event) (reads : Reads p value items stale n es es') where
    -- the parser when the value has been fed
    abbrev fed : Jsn
    fed = feed p es (rebase value.at inside)

    -- the run over all actions
    abbrev whole : Jsn
    whole = feed p (es ++ es') (rebase value.at inside)

    fed_lem : p.feed (invoke p) invoke_error value (p.feed (invoke p) invoke_error pre ready) ≡ fed
    unfolding run_chunks
    fed_lem =
        let first =
          reads.opened (invoke p) invoke_error ready ready-IsReset ready-IsReset.running in
        let on = ap (λ (k : Jsn). k.stopfl) open_inside in
        ap (p.feed (invoke p) invoke_error value) first
        ∙ reads.valued (invoke p) invoke_error ready ready-IsReset on
        ∙ ap (λ (k : Jsn). feed p es (rebase value.at k)) open_inside

    closed_lem :
        fed.stopfl ≡ false
        → p.feed (invoke p) invoke_error post fed ≡ feed p es' (rebase post.at fed)
    unfolding run_chunks
    closed_lem on =
        let e : feed p es (rebase value.at (feed p (open_list stale items n) started)) ≡ fed =
          ap (λ (k : Jsn). feed p es (rebase value.at k)) open_inside in
        subst
          (λ k.
            k.stopfl ≡ false
            → p.feed (invoke p) invoke_error post k ≡ feed p es' (rebase post.at k))
          e (reads.closed (invoke p) invoke_error ready ready-IsReset) on

    all_cut : all_actions (es ++ es') ≡ true
    unfolding all_actions
    all_cut =
        subst (λ l. all_actions l ≡ true) (sym reads.cut)
          (item_actions-all_actions stale items 1 0 1 (close_list stale items n) refl)

    -- The feeds end as the run over all actions does.
    pub wrapped-whole : (feed_wrapped p value (pre, post) ready).context ≡ whole.context
    wrapped-whole =
        let live = (inside-InArray value).ready.live in
        elim (run-append p es es' (ctx_open flags maxdepth) (rebase value.at inside) live
          (all_actions-append es es' all_cut)) [
            | inl ((c, holds, bad, stopped), all) ↦
                let no : is_success (err_of fed) ≡ false =
                  ap (λ (c : Context). is_success (err_in c)) holds ∙ bad in
                ap (λ (k : Jsn). k.context) (wrapped_dead p value ready fed fed_lem no ∙ sym all)
            | inr ((c, r), all) ↦
                let good : is_success (err_of fed) ≡ true =
                  ap (λ (c : Context). is_success (err_in c)) r.holds ∙ ap is_success r.fine in
                let last = run-rebase p es' c post.at fed r (append-all_actions es es' all_cut) in
                ap (λ (k : Jsn). k.context)
                  (wrapped_live p value ready fed fed_lem good ∙ closed_lem r.running ∙ last)
                ∙ ap (λ (k : Jsn). k.context) (sym all)
          ]

-- In the array mode, with a depth, `validate` answers with the verdict on the elements, where the
-- parser object was reset and the parser reads the bracket, the value and the bracket as these
-- elements.
pub validate-verdict :
    (p : Parser) (value : Loc) (items : Items) (stale : ℕ → Stale) (n maxdepth mode : ℕ)
    (es es' : List Event) (j : Jsn)
    → Reads p value items stale n es es'
    → IsReset j
    → bit_and mode parent_mask ≡ parent_array
    → (validate p value (some maxdepth) mode j).0
      ≡ verdict maxdepth (bit_and mode value_mask) 0 items
validate-verdict p value items stale n maxdepth mode es es' j reads fresh h =
    let flags = bit_and mode value_mask in
    let ctx = ctx_open flags maxdepth in
    let r = inside-InArray p items stale n flags maxdepth j fresh value in
    let ended =
      judge_items p ctx maxdepth stale items 0 1 n (pop_offset (arr items))
        (pop_token stale (arr items) 0)
        (rebase value.at (inside p items stale n flags maxdepth j fresh)) r refl in
    let same = wrapped-whole p items stale n flags maxdepth j fresh value es es' reads in
    let cut =
      ap
        (λ (l : List Event).
          (feed p l (rebase value.at (inside p items stale n flags maxdepth j fresh))).context)
        reads.cut in
    validate_array p value maxdepth mode j h
    ∙ ap final_error (same ∙ cut ∙ ended.0)
    ∙ final-outcome (verdict maxdepth flags 0 items) flags maxdepth
