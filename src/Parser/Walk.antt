-- ===== src/Parser/Walk.antt =====
-- A stretch of actions whose callbacks do nothing: the parser passes over a value.
use subjson.Parser.{Action, push, pop, State, Jsn, Invoke, InvokeError}
use subjson.Parser.Trace.{Token, Event, event, run, deliver, arrive, is_wanted, entered}
use subjson.Parser.Tree.{
  Json, special, str, arr, obj, Items, nil, cons, Fields, end, field, actions, item_actions,
  field_actions, depth, items_depth, fields_depth, Stale, push_token, pop_token, pop_offset,
  key_push, key_pop, text, comma, comma_field, value_offset, count_items, count_fields,
}
use subjson.Prelude.{
  ℕ, suc, ◌+◌, ◌≤◌, ◌<◌, ◌≡◌, refl, subst, ap, ◌∙◌, arith, Bool, true, false, List, ◌∷◌, length,
  if◌then◌else◌,
}

-- Nothing changes but the states above the level `l`, the count in the state there, and `pos`.
pub record Passed (l n : ℕ) (j j' : Jsn) : Type 0 where
  pub same : j' ≡ record j { stack = j'.stack; pos = j'.pos }
  pub below : (i : ℕ) → i < l → j'.stack i ≡ j.stack i
  pub parent : j'.stack l ≡ record (j.stack l) { nelem = n }

pub Passed-trans :
    {l n m : ℕ} {j j' j'' : Jsn} → Passed l n j j' → Passed l m j' j'' → Passed l m j j''
Passed-trans {l} {n} {m} {j} {j'} {j''} a b = record {
  same = b.same ∙ ap (λ (k : Jsn). record k { stack = j''.stack; pos = j''.pos }) a.same;
  below = λ i h. b.below i h ∙ a.below i h;
  parent = b.parent ∙ ap (λ (s : State). record s { nelem = m }) a.parent;
}

pub Passed-deep :
    {l n m : ℕ} {j j' j'' : Jsn} → Passed l n j j' → Passed (suc l) m j' j'' → Passed l n j j''
Passed-deep {l} {n} {m} {j} {j'} {j''} a b = record {
  same = b.same ∙ ap (λ (k : Jsn). record k { stack = j''.stack; pos = j''.pos }) a.same;
  below = λ i h. b.below i (omega arith) ∙ a.below i h;
  parent = b.below l (omega arith) ∙ a.parent;
}

-- nothing was done
pub Passed-stay : (l : ℕ) (j : Jsn) → Passed l (j.stack l).nelem j j
Passed-stay l j = record { same = refl; below = λ i h. refl; parent = refl }

pub arrive-Passed :
    (action : Action) (l n pos : ℕ) (t : Token) (j : Jsn) → Passed l n j (arrive action l n pos t j)
unfolding arrive
arrive-Passed action l n pos t j = record {
  same = refl;
  below = λ i h. ground arith;
  parent = ground arith;
}

pub arrive_at :
    (action : Action) (l n pos : ℕ) (t : Token) (j : Jsn)
    → (arrive action l n pos t j).stack (suc l) ≡ entered action l t j
unfolding arrive
arrive_at action l n pos t j = ground arith

pub depth-pos : (v : Json) → 1 ≤ depth v
unfolding depth
depth-pos (special s flags) = omega arith
depth-pos (str s n) = omega arith
depth-pos (arr items) = omega arith
depth-pos (obj fields) = omega arith

pub Passed-running : {l n : ℕ} {j j' : Jsn} → Passed l n j j' → j.stopfl ≡ false → j'.stopfl ≡ false
Passed-running a h = ap (λ (k : Jsn). k.stopfl) a.same ∙ h

module _ (inv : Invoke) where
  -- an action whose callback is not run
  pub deliver-unwanted :
      (action : Action) (l n pos : ℕ) (t : Token) (j : Jsn)
      → is_wanted action l t.type j ≡ false
      → deliver inv action l n pos t j ≡ arrive action l n pos t j
  unfolding deliver
  deliver-unwanted action l n pos t j unwanted = rw unwanted

module _ (inv : Invoke) (err : InvokeError) where
  pub run_on :
      (action : Action) (l n pos : ℕ) (t : Token) (es : List Event) (j : Jsn)
      → (deliver inv action l n pos t j).stopfl ≡ false
      → run inv err (event action l n pos t ∷ es) j
        ≡ run inv err es (deliver inv action l n pos t j)
  unfolding run
  run_on action l n pos t es j h =
      let j' = deliver inv action l n pos t j in
      ap (λ (b : Bool). if b then j' else run inv err es j') h

  pub run_stop :
      (action : Action) (l n pos : ℕ) (t : Token) (es : List Event) (j : Jsn)
      → (deliver inv action l n pos t j).stopfl ≡ true
      → run inv err (event action l n pos t ∷ es) j ≡ deliver inv action l n pos t j
  unfolding run
  run_stop action l n pos t es j h =
      let j' = deliver inv action l n pos t j in
      ap (λ (b : Bool). if b then j' else run inv err es j') h

-- `I d l j`: on values of the depth `d` at most below the level `l`, the callbacks do nothing.
pub record Idle (inv : Invoke) (I : ℕ → ℕ → Jsn → Type 0) : Type 0 where
  pub idle_push :
      (d l n pos : ℕ) (t : Token) (j : Jsn)
      → I (suc d) l j
      → deliver inv push l n pos t j ≡ arrive push l n pos t j
  pub idle_pop :
      (d l n m pos pos' : ℕ) (t t' : Token) (j j' : Jsn)
      → I (suc d) l j
      → Passed (suc l) m (arrive push l n pos t j) j'
      → deliver inv pop l n pos' t' j' ≡ arrive pop l n pos' t' j'
  pub down :
      (d l n pos : ℕ) (t : Token) (j : Jsn) → I (suc d) l j → I d (suc l) (arrive push l n pos t j)
  pub keep : (d l n : ℕ) (j j' : Jsn) → I d l j → Passed l n j j' → I d l j'
  pub weaken : (d e l : ℕ) (j : Jsn) → d ≤ e → I e l j → I d l j

module _ (inv : Invoke) (err : InvokeError) (I : ℕ → ℕ → Jsn → Type 0) (idle : Idle inv I)
    (stale : ℕ → Stale) where
  -- The rest of the run starts from a state that was passed to.
  abbrev pub Passes : ℕ → ℕ → List Event → List Event → Jsn → Type 0
  Passes l n es rest j = (j' : Jsn) × (run inv err es j ≡ run inv err rest j') × Passed l n j j'

  pub pass_push :
      (d l n pos : ℕ) (t : Token) (es : List Event) (j : Jsn)
      → I (suc d) l j
      → j.stopfl ≡ false
      → run inv err (event push l n pos t ∷ es) j ≡ run inv err es (arrive push l n pos t j)
  pass_push d l n pos t es j h running =
      let e = idle.idle_push d l n pos t j h in
      let on : (arrive push l n pos t j).stopfl ≡ false =
        Passed-running (arrive-Passed push l n pos t j) running in
      run_on inv err push l n pos t es j (ap (λ (k : Jsn). k.stopfl) e ∙ on) ∙ ap (run inv err es) e

  pub pass_pop :
      (d l n m pos pos' : ℕ) (t t' : Token) (es : List Event) (j j' : Jsn)
      → I (suc d) l j
      → j.stopfl ≡ false
      → Passed (suc l) m (arrive push l n pos t j) j'
      → (run inv err (event pop l n pos' t' ∷ es) j' ≡ run inv err es (arrive pop l n pos' t' j'))
        × Passed l n j (arrive pop l n pos' t' j')
  pass_pop d l n m pos pos' t t' es j j' h running deep =
      let e = idle.idle_pop d l n m pos pos' t t' j j' h deep in
      let first = arrive-Passed push l n pos t j in
      let last = arrive-Passed pop l n pos' t' j' in
      let on : (arrive pop l n pos' t' j').stopfl ≡ false =
        Passed-running last (Passed-running deep (Passed-running first running)) in
      (
        run_on inv err pop l n pos' t' es j' (ap (λ (k : Jsn). k.stopfl) e ∙ on)
            ∙ ap (run inv err es) e,
        Passed-trans (Passed-deep first deep) last,
      )

  -- a push, something below it, and the pop
  pub pass_around :
      (d l n m pos pos' : ℕ) (t t' : Token) (inner es : List Event) (j : Jsn)
      → I (suc d) l j
      → j.stopfl ≡ false
      → Passes (suc l) m inner (event pop l n pos' t' ∷ es) (arrive push l n pos t j)
      → Passes l n (event push l n pos t ∷ inner) es j
  pass_around d l n m pos pos' t t' inner es j h running (j', e, deep) =
      let (after, all) = pass_pop d l n m pos pos' t t' es j j' h running deep in
      (arrive pop l n pos' t' j', pass_push d l n pos t inner j h running ∙ e ∙ after, all)

  pub pass_flat :
      (l n pos pos' : ℕ) (t t' : Token) (es : List Event) (j : Jsn)
      → I 1 l j
      → j.stopfl ≡ false
      → Passes l n (event push l n pos t ∷ event pop l n pos' t' ∷ es) es j
  pass_flat l n pos pos' t t' es j h running =
      let j' = arrive push l n pos t j in
      pass_around 0 l n (j'.stack (suc l)).nelem pos pos' t t' (event pop l n pos' t' ∷ es) es j h
        running (j', refl, Passed-stay (suc l) j')

  pub pass_then :
      (l n m : ℕ) (es mid rest : List Event) (j : Jsn)
      → Passes l n es mid j
      → ((j' : Jsn) → Passed l n j j' → Passes l m mid rest j')
      → Passes l m es rest j
  pass_then l n m es mid rest j (j', e, a) next =
      let (j'', e', b) = next j' a in (j'', e ∙ e', Passed-trans a b)

  -- The parser passes over a value, over elements, and over fields.
  mutual
    unfolding actions depth count_items count_fields

    pub pass :
        (v : Json) (l n at : ℕ) (es : List Event) (j : Jsn)
        → I (depth v) l j
        → j.stopfl ≡ false
        → Passes l n (actions stale v l n at es) es j
    pass (special s flags) l n at es j h running = pass_flat l n _ _ _ _ es j h running
    pass (str s k) l n at es j h running = pass_flat l n _ _ _ _ es j h running
    pass (arr items) l n at es j h running =
        let t = push_token stale (arr items) at in
        pass_around (items_depth items) l n (count_items items + 0) at (at + pop_offset (arr items))
          t (pop_token stale (arr items) at) _ es j h running
          (pass_items items (suc l) 0 (at + 1) _ (arrive push l n at t j)
            (idle.down (items_depth items) l n at t j h)
            (Passed-running (arrive-Passed push l n at t j) running)
            (ap (λ (s : State). s.nelem) (arrive_at push l n at t j)))
    pass (obj fields) l n at es j h running =
        let t = push_token stale (obj fields) at in
        pass_around (fields_depth fields) l n (count_fields fields + count_fields fields + 0) at
          (at + pop_offset (obj fields)) t (pop_token stale (obj fields) at) _ es j h running
          (pass_fields fields (suc l) 0 (at + 1) _ (arrive push l n at t j)
            (idle.down (fields_depth fields) l n at t j h)
            (Passed-running (arrive-Passed push l n at t j) running)
            (ap (λ (s : State). s.nelem) (arrive_at push l n at t j)))

    pub pass_items :
        (items : Items) (l n at : ℕ) (es : List Event) (j : Jsn)
        → I (items_depth items) l j
        → j.stopfl ≡ false
        → (j.stack l).nelem ≡ n
        → Passes l (count_items items + n) (item_actions stale items l n at es) es j
    pass_items (nil ws) l n at es j h running count =
        let same : (j.stack l).nelem ≡ 0 + n = count ∙ omega arith in
        (j, refl, subst (λ m. Passed l m j j) same (Passed-stay l j))
    pass_items (cons lead v trail rest) l n at es j h running count =
        let total : count_items rest + suc n ≡ suc (count_items rest) + n = omega arith in
        subst (λ m. Passes l m (item_actions stale (cons lead v trail rest) l n at es) es j) total
          (pass_then l (suc n) (count_items rest + suc n)
            (item_actions stale (cons lead v trail rest) l n at es) _ es j
            (pass v l (suc n) (at + length lead) _ j (idle.weaken (depth v) _ l j (omega arith) h)
              running)
            (λ j' a.
              pass_items rest l (suc n)
                (at + length lead + length (text v) + length trail + length (comma rest)) es j'
                (idle.weaken (items_depth rest) _ l j' (omega arith)
                  (idle.keep (items_depth (cons lead v trail rest)) l (suc n) j j' h a))
                (Passed-running a running) (ap (λ (s : State). s.nelem) a.parent)))

    pub pass_fields :
        (fields : Fields) (l n at : ℕ) (es : List Event) (j : Jsn)
        → I (fields_depth fields) l j
        → j.stopfl ≡ false
        → (j.stack l).nelem ≡ n
        → Passes l
            (count_fields fields + count_fields fields + n)
            (field_actions stale fields l n at es)
            es
            j
    pass_fields (end ws) l n at es j h running count =
        let same : (j.stack l).nelem ≡ 0 + 0 + n = count ∙ omega arith in
        (j, refl, subst (λ m. Passed l m j j) same (Passed-stay l j))
    pass_fields (field lead k c mid mid' v trail rest) l n at es j h running count =
        let kids = count_fields rest in
        let total : kids + kids + suc (suc n) ≡ suc kids + suc kids + n = omega arith in
        let all = field lead k c mid mid' v trail rest in
        subst (λ m. Passes l m (field_actions stale all l n at es) es j) total
          (pass_then l (suc n) (kids + kids + suc (suc n)) (field_actions stale all l n at es) _ es
            j
            (pass_flat l (suc n) (at + length lead) (at + length lead + (length k + 1))
              (key_push stale (at + length lead)) (key_pop stale k c (at + length lead)) _ j
              (idle.weaken 1 _ l j (omega (arith, depth-pos v)) h) running)
            (λ j' a.
              pass_then l (suc (suc n)) (kids + kids + suc (suc n)) _ _ es j'
                (pass v l (suc (suc n)) (at + value_offset lead k mid mid') _ j'
                  (idle.weaken (depth v) _ l j' (omega arith)
                    (idle.keep (fields_depth all) l (suc n) j j' h a))
                  (Passed-running a running))
                (λ j'' b.
                  pass_fields rest l (suc (suc n))
                    (at
                      + value_offset lead k mid mid'
                      + length (text v)
                      + length trail
                      + length (comma_field rest))
                    es j''
                    (idle.weaken (fields_depth rest) _ l j'' (omega arith)
                      (idle.keep (fields_depth all) l (suc (suc n)) j j'' h (Passed-trans a b)))
                    (Passed-running b (Passed-running a running))
                    (ap (λ (s : State). s.nelem) b.parent))))
