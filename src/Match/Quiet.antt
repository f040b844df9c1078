-- ===== src/Match/Quiet.antt =====
-- The elements below a match of subdoc/match.cc, and those below an element that does not match: no
-- callback is run on them.
use subjson.Parser.{push, pop, State, Jsn, Invoke}
use subjson.Parser.Trace.{deliver, arrive, Token, is_wanted}
use subjson.Parser.Walk.{arrive-Passed, Passed, arrive_at, deliver-unwanted, Idle}
use subjson.Prelude.{ℕ, suc, ◌≤◌, ◌≡◌, ap, ◌∙◌, arith, true, false, ◌⊎◌, inl, inr}

-- What is below the level `l` is behind the level of the callbacks, or the level is ignored.
abbrev pub Hush : ℕ → ℕ → Jsn → Type 0
Hush d l j = (j.max_callback_level ≤ suc l) ⊎ ((j.stack l).ignore_callback ≡ true)

module _ (inv : Invoke) where
  unwanted_high :
      (l : ℕ) (t : Token) (j : Jsn)
      → j.max_callback_level ≤ suc l
      → is_wanted pop l t.type j ≡ false
  unwanted_high l t j h = ground arith

  unwanted_ignored :
      (l : ℕ) (t : Token) (j : Jsn)
      → (j.stack (suc l)).ignore_callback ≡ true
      → is_wanted pop l t.type j ≡ false
  unwanted_ignored l t j h = ground arith

  -- the pop at a level that is ignored
  pub ignored_pop :
      (l n pos : ℕ) (t : Token) (j : Jsn)
      → (j.stack (suc l)).ignore_callback ≡ true
      → deliver inv pop l n pos t j ≡ arrive pop l n pos t j
  ignored_pop l n pos t j h = deliver-unwanted inv pop l n pos t j (unwanted_ignored l t j h)

  arrive_high :
      (l n pos : ℕ) (t : Token) (j : Jsn)
      → j.max_callback_level ≤ suc l
      → (arrive push l n pos t j).max_callback_level ≤ suc (suc l)
  unfolding arrive
  arrive_high l n pos t j h = omega arith

  Hush-push :
      (d l n pos : ℕ) (t : Token) (j : Jsn)
      → Hush (suc d) l j
      → deliver inv push l n pos t j ≡ arrive push l n pos t j
  Hush-push d l n pos t j h = deliver-unwanted inv push l n pos t j (ground arith)

  pub Hush-pop :
      (d l n m pos pos' : ℕ) (t t' : Token) (j j' : Jsn)
      → Hush (suc d) l j
      → Passed (suc l) m (arrive push l n pos t j) j'
      → deliver inv pop l n pos' t' j' ≡ arrive pop l n pos' t' j'
  Hush-pop d l n m pos pos' t t' j j' h a =
      let top = ap (λ (k : Jsn). k.max_callback_level) a.same in
      let first = ap (λ (k : Jsn). k.max_callback_level) (arrive-Passed push l n pos t j).same in
      let own =
        ap (λ (s : State). s.ignore_callback) a.parent
        ∙ ap (λ (s : State). s.ignore_callback) (arrive_at push l n pos t j) in
      deliver-unwanted inv pop l n pos' t' j' (elim h [
        | inl high ↦ unwanted_high l t' j' (omega arith)
        | inr still ↦ unwanted_ignored l t' j' (own ∙ still)
      ])

  Hush-down :
      (d l n pos : ℕ) (t : Token) (j : Jsn)
      → Hush (suc d) l j
      → Hush d (suc l) (arrive push l n pos t j)
  Hush-down d l n pos t j (inl h) = inl (arrive_high l n pos t j h)
  Hush-down d l n pos t j (inr h) =
      inr (ap (λ (s : State). s.ignore_callback) (arrive_at push l n pos t j) ∙ h)

  Hush-keep : (d l n : ℕ) (j j' : Jsn) → Hush d l j → Passed l n j j' → Hush d l j'
  Hush-keep d l n j j' (inl h) a =
      let top = ap (λ (k : Jsn). k.max_callback_level) a.same in inl (omega arith)
  Hush-keep d l n j j' (inr h) a = inr (ap (λ (s : State). s.ignore_callback) a.parent ∙ h)

  pub hush : Idle inv Hush
  hush = record {
    idle_push = Hush-push;
    idle_pop = Hush-pop;
    down = Hush-down;
    keep = Hush-keep;
    weaken = λ d e l j h r. r;
  }
