-- ===== src/Match/Level.antt =====
-- What the path says at one level of the search of subdoc/match.cc.
use subjson.HashKey.{get_hk}
use subjson.Jsonsl.{t_object, t_list, MatchResult, nomatch}
use subjson.Loc.{Bytes, to_view}
use subjson.Match.Equal.{same_text}
use subjson.Match.Seek.{goes_on, SpellsAll, Resolves}
use subjson.Parser.{State, ParseContext, CompInfo, Parser}
use subjson.Path.{Component}
use subjson.Path.Parse.State.{Part, key, index}
use subjson.Prelude.{
  ℕ, suc, ◌+◌, ◌≤◌, ◌≡◌, sym, ap, ◌∙◌, arith, Bool, true, false, ◌==◌, if◌then◌else◌, some, length,
  length-append, append_assoc, List, ◌∷◌, ◌++◌, [],
}

-- the rest of the path from the level of the parent on
abbrev pub Rest : CompInfo → ℕ → Component → List Component → List Component → Type 0
Rest comps l c cs front = (comps ≡ front ++ c ∷ cs) × (length front ≡ l)

module _ {comps : CompInfo} where
  pub deeper :
      (l : ℕ) (c : Component) (cs front : List Component)
      → Rest comps l c cs front
      → suc l ≤ length comps
  deeper l c cs front (split, size) =
      let whole = ap (λ (x : List Component). length x) split in
      let parts = length-append front (c ∷ cs) in omega arith

  pub deepest :
      (l : ℕ) (c : Component) (front : List Component)
      → Rest comps l c [] front
      → suc l ≡ length comps
  deepest l c front (split, size) =
      let whole = ap (λ (x : List Component). length x) split in
      let parts = length-append front (c ∷ []) in omega arith

  pub next :
      (l : ℕ) (c d : Component) (ds front : List Component)
      → Rest comps l c (d ∷ ds) front
      → Rest comps (suc l) d ds (front ++ c ∷ [])
  next l c d ds front (split, size) = (
    split ∙ sym (append_assoc front (c ∷ []) (d ∷ ds)),
    length-append front (c ∷ []) ∙ omega arith,
  )

pub element_yes :
    (k n : ℕ) (r : MatchResult) → (n == k) ≡ true → (if suc n == k + 1 then r else nomatch) ≡ r
element_yes k n r h = ground arith

pub element_no :
    (k n : ℕ) (r : MatchResult)
    → (n == k) ≡ false
    → (if suc n == k + 1 then r else nomatch) ≡ nomatch
element_no k n r h = ground arith

module _ (p : Parser) (law : Resolves p) {comps : CompInfo} where
  pub element_match :
      (k : ℕ) (neg : Bool) (ss : List Part) (c : Component) (cs front : List Component) (l : ℕ)
      (parent st : State) (ctx : ParseContext)
      → ctx.jpr ≡ comps
      → Rest comps l c cs front
      → SpellsAll (c ∷ cs) (index k neg ∷ ss)
      → parent.type ≡ t_list
      → parent.level ≡ l
      → p.path_match ctx.jpr (some parent) st (get_hk ctx.hk).0
        ≡ (if parent.nelem == k + 1 then goes_on ss st.type else nomatch)
  element_match k neg ss c cs front l parent st ctx path (split, size) spells type level =
      ap (λ (x : CompInfo). p.path_match x (some parent) st (get_hk ctx.hk).0) (path ∙ split)
      ∙ law.at_element front c cs k neg ss parent st (get_hk ctx.hk).0 spells type
          (level ∙ sym size)

  -- a member whose key, as the search reads it, is `name`
  pub member_match :
      (k name : Bytes) (ss : List Part) (c : Component) (cs front : List Component) (l : ℕ)
      (parent st : State) (ctx : ParseContext)
      → ctx.jpr ≡ comps
      → Rest comps l c cs front
      → SpellsAll (c ∷ cs) (key k ∷ ss)
      → parent.type ≡ t_object
      → parent.level ≡ l
      → to_view (get_hk ctx.hk).0 ≡ name
      → p.path_match ctx.jpr (some parent) st (get_hk ctx.hk).0
        ≡ (if same_text k name then goes_on ss st.type else nomatch)
  member_match k name ss c cs front l parent st ctx path (split, size) spells type level read =
      ap (λ (x : CompInfo). p.path_match x (some parent) st (get_hk ctx.hk).0) (path ∙ split)
      ∙ law.at_member front c cs k ss parent st (get_hk ctx.hk).0 spells type (level ∙ sym size)
      ∙ ap (λ (x : Bytes). if same_text k x then goes_on ss st.type else nomatch) read
