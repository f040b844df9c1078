-- ===== src/Match/Scanned.antt =====
-- What is asked of a part of the search of subdoc/match.cc, and what it ends with.
use subjson.HashKey.{get_hk}
use subjson.Jsonsl.{
  JsonType, t_object, t_list, MatchResult, possible, complete, nomatch, type_mismatch,
}
use subjson.Loc.{Ptr}
use subjson.Match.{Match}
use subjson.Match.Members.{Slot}
use subjson.Match.Push.{parent_possible, locate}
use subjson.Match.Reach.{Ended, reach_missed}
use subjson.Match.Scan.{Searching}
use subjson.Match.Seek.{Hit}
use subjson.Match.Skip.{feed}
use subjson.Match.Tests.{is_complete}
use subjson.Parser.{push, pop, State, ParseContext, CompInfo, Jsn, Parser, last_state}
use subjson.Parser.Trace.{Event, event, arrive, entered}
use subjson.Parser.Tree.{Json, Stale, push_token, pop_token, pop_offset, type_of}
use subjson.Prelude.{
  ℕ, suc, ◌+◌, ◌≤◌, ◌≡◌, sym, ◌∙◌, subst, Bool, true, false, Option, none, length, List, ◌∷◌, ◌⊎◌,
  inl, inr,
}

module _ (p : Parser) (stale : ℕ → Stale) (comps : CompInfo) (u : Bool) (base : Ptr) where
  abbrev go : List Event → Jsn → Jsn
  go es j = feed p stale es j

  -- The run ended with the answer, or nothing was found and the scan goes on.
  abbrev pub Scanned : Option Hit → ℕ → JsonType → List Event → List Event → Jsn → Type 0
  Scanned hit l type es rest j =
      Ended base (length comps) hit (go es j)
      ⊎ ((hit ≡ none)
          × (ctx : ParseContext) × (j' : Jsn) × (go es j ≡ go rest j')
          × Searching comps u base ctx j'
          × Slot l type j'
          × (is_complete ctx.match.matchres ≡ false))

  -- A scan that begins with a stretch that finds nothing.
  pub carry :
      (hit hit' : Option Hit) (l : ℕ) (type : JsonType) (es es' rest : List Event) (j j' : Jsn)
      → hit' ≡ hit
      → go es' j' ≡ go es j
      → Scanned hit l type es rest j
      → Scanned hit' l type es' rest j'
  carry hit hit' l type es es' rest j j' same e (inl done) = inl (
      subst (λ (x : Option Hit). Ended base (length comps) x (go es' j')) (sym same)
        (subst (Ended base (length comps) hit) (sym e) done))
  carry hit hit' l type es es' rest j j' same e (inr (none_, ctx, k, e', s, slot, missing)) =
      inr (same ∙ none_, ctx, k, e ∙ e', s, slot, missing)

  -- what is asked of an element that the path names, whose parent is `parent`
  pub record Asked (v : Json) (l n at q : ℕ) (ctx : ParseContext) (parent : Option State)
      (r : MatchResult) (j : Jsn) : Type 0 where
    pub searching : Searching comps u base ctx j
    pub heard : (j.stack l).ignore_callback ≡ false
    pub up :
        last_state
          (arrive push l n at (push_token stale v at) j)
          (entered push l (push_token stale v at) j)
        ≡ parent
    pub ready : parent_possible parent ≡ true
    pub asked :
        p.path_match ctx.jpr parent (entered push l (push_token stale v at) j) (get_hk ctx.hk).0 ≡ r
    pub placed :
        (c : ParseContext) (m : Match)
        → m.position ≡ ctx.match.position
        → (locate parent c m).position ≡ q
    pub missing : is_complete ctx.match.matchres ≡ false

  -- Nothing was found in a container.
  pub Ended-inside :
      (v : Json) (l n at : ℕ) (es : List Event) (hit : Option Hit) (j : Jsn) (inner : List Event)
      → suc l ≤ length comps
      → subjson.Jsonsl.is_container (type_of v) ≡ true
      → Scanned hit
          (suc l)
          (type_of v)
          inner
          (event pop l n (at + pop_offset v) (pop_token stale v at) ∷ es)
          j
      → Ended base (length comps) hit (go inner j)
  Ended-inside v l n at es hit j inner h container (inl done) = done
  Ended-inside v l n at es hit j inner h container (inr (none_, ctx, j', e, s, slot, missing)) =
      subst (λ (x : Option Hit). Ended base (length comps) x (go inner j)) (sym none_)
        (subst (Ended base (length comps) none) (sym e) (
          reach_missed p stale v l n at es ctx j' s h slot.slot_heard slot.slot_open container
            missing))
