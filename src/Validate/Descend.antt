-- ===== src/Validate/Descend.antt =====
-- The validator of subdoc/match.cc below an element: it passes what is not too deep, and stops at what
-- is.
use subjson.Jsonsl.{t_hkey}
use subjson.Match.Callbacks.{invoke}
use subjson.Parser.{Action, push, pop, CallFlags, State, ValidateCtx, Jsn, Parser}
use subjson.Parser.Trace.{deliver, arrive, entered, Token, is_wanted, called}
use subjson.Parser.Walk.{deliver-unwanted, Passed, arrive-Passed, arrive_at, Idle}
use subjson.Prelude.{
  ℕ, suc, ◌+◌, ◌<◌, ◌≤◌, ◌≡◌, ap, ◌∙◌, arith, true, false, some, Bool-cases, inl, inr,
}
use subjson.Validate.Judge.{judged, sentence, Live, Live-Passed, deliver-judged, sentence-Live}

-- the types for which the validator is called
abbrev pub value_flags : CallFlags
value_flags = record {
  call_object = true;
  call_list = true;
  call_string = true;
  call_special = true;
  call_hkey = false;
  call_uescape = false;
}

-- The parser holds the validator with the context `ctx`, whose bound is `bound`, and runs.
pub record Ready (ctx : ValidateCtx) (bound : ℕ) (j : Jsn) : Type 0 where
  pub live : Live ctx j
  pub flags : j.call_flags ≡ value_flags
  pub top : j.max_callback_level ≡ bound + 2
  pub depth : ctx.maxdepth ≡ some bound

-- The level `l` is not ignored, and `d` more levels are within the bound.
pub record Room (ctx : ValidateCtx) (bound d l : ℕ) (j : Jsn) : Type 0 where
  pub ready : Ready ctx bound j
  pub heard : (j.stack l).ignore_callback ≡ false
  pub inner : 2 ≤ l
  pub fits : l + d ≤ bound

pub Ready-Passed :
    {ctx : ValidateCtx} {bound l n : ℕ} {j j' : Jsn}
    → Ready ctx bound j
    → Passed l n j j'
    → Ready ctx bound j'
Ready-Passed r a = record {
  live = Live-Passed r.live a;
  flags = ap (λ (k : Jsn). k.call_flags) a.same ∙ r.flags;
  top = ap (λ (k : Jsn). k.max_callback_level) a.same ∙ r.top;
  depth = r.depth;
}

module _ (p : Parser) (ctx : ValidateCtx) (bound : ℕ) where
  -- an action on a key, which the validator does not see
  pub deliver-key :
      (action : Action) (l n pos : ℕ) (t : Token) (j : Jsn)
      → Ready ctx bound j
      → t.type ≡ t_hkey
      → deliver (invoke p) action l n pos t j ≡ arrive action l n pos t j
  unfolding deliver
  deliver-key action l n pos t j r key =
      let off : called j.call_flags t.type ≡ false =
        ap (λ f. called f t.type) r.flags ∙ ap (called value_flags) key in
      rw off

  judged-deep :
      (action : Action) (st parent : State)
      → ctx.maxdepth ≡ some bound
      → 3 ≤ st.level
      → st.level ≤ bound
      → judged action st parent ctx ≡ ctx
  unfolding judged
  judged-deep action st parent d low high = ground arith

  -- Below an element and within the bound, an action changes nothing but the stack.
  pub deliver-quiet :
      (action : Action) (l n pos : ℕ) (t : Token) (j : Jsn)
      → Ready ctx bound j
      → 2 ≤ l
      → l < bound
      → deliver (invoke p) action l n pos t j ≡ arrive action l n pos t j
  deliver-quiet action l n pos t j r low high = elim (Bool-cases (is_wanted action l t.type j)) [
    | inl seen ↦
        let same =
          judged-deep action (entered action l t j) (record (j.stack l) { nelem = n }) r.depth
            (omega arith) (omega arith) in
        deliver-judged p ctx action l n pos t j r.live seen
        ∙ ap (λ (c : ValidateCtx). sentence c (arrive action l n pos t j)) same
        ∙ sentence-Live p ctx (arrive action l n pos t j)
            (Live-Passed r.live (arrive-Passed action l n pos t j))
    | inr unseen ↦ deliver-unwanted (invoke p) action l n pos t j unseen
  ]

  room-lt : (d l : ℕ) (j : Jsn) → Room ctx bound (suc d) l j → l < bound
  room-lt d l j r = let h = r.fits in omega arith

  room-deeper : (d l : ℕ) (j : Jsn) → Room ctx bound (suc d) l j → 2 ≤ suc l
  room-deeper d l j r = let h = r.inner in omega arith

  room-fits : (d l : ℕ) (j : Jsn) → Room ctx bound (suc d) l j → suc l + d ≤ bound
  room-fits d l j r = let h = r.fits in omega arith

  room-less : (d e l : ℕ) (j : Jsn) → d ≤ e → Room ctx bound e l j → l + d ≤ bound
  room-less d e l j h r = let k = r.fits in omega arith

  pub idle : Idle (invoke p) (Room ctx bound)
  idle = record {
    idle_push = λ d l n pos t j r. deliver-quiet push l n pos t j r.ready r.inner (room-lt d l j r);
    idle_pop = λ d l n m pos pos' t t' j j' r a.
        deliver-quiet pop l n pos' t' j'
          (Ready-Passed (Ready-Passed r.ready (arrive-Passed push l n pos t j)) a) r.inner
          (room-lt d l j r);
    down = λ d l n pos t j r. record {
      ready = Ready-Passed r.ready (arrive-Passed push l n pos t j);
      heard = ap (λ (st : State). st.ignore_callback) (arrive_at push l n pos t j) ∙ r.heard;
      inner = room-deeper d l j r;
      fits = room-fits d l j r;
    };
    keep = λ d l n j j' r a. record {
      ready = Ready-Passed r.ready a;
      heard = ap (λ (st : State). st.ignore_callback) a.parent ∙ r.heard;
      inner = r.inner;
      fits = r.fits;
    };
    weaken = λ d e l j h r. record {
      ready = r.ready;
      heard = r.heard;
      inner = r.inner;
      fits = room-less d e l j h r;
    };
  }
