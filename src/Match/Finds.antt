-- ===== src/Match/Finds.antt =====
-- The run of the search of subdoc/match.cc over a value of the document ends with what the path names.
use subjson.HashKey.{get_hk, set_hk_begin, set_hk_end}
use subjson.Jsonsl.{t_object, t_list, MatchResult, nomatch, type_mismatch}
use subjson.Loc.{Bytes, Ptr, ptr, ptr_add}
use subjson.Match.Equal.{same_text}
use subjson.Match.Members.{Slot, Slot-Moved, past_key, past_unmatched, enter}
use subjson.Match.Reach.{Ended, reach_complete}
use subjson.Match.Scan.{Searching, Searching-Moved}
use subjson.Match.Seek.{
  goes_on, fits, seek, seek_items, seek_fields, key_text, Hit, SpellsAll, Resolves,
}
use subjson.Match.Skip.{feed, token_type, unmatched, inner_actions, above}
use subjson.Match.Steps.{
  Holds, Holds-left, Holds-right, Holds-pop_offset, Holds-value, Holds-key_name, misfit,
  located_element, located_member, item_here, item_later, field_here, field_later,
}
use subjson.Match.Tests.{is_complete, is_possible, u32_mod}
use subjson.Parser.{push, State, ParseContext, CompInfo, Jsn, Parser}
use subjson.Parser.Trace.{Event, entered}
use subjson.Parser.Tree.{
  Json, special, str, arr, obj, Items, nil, cons, Fields, end, field, actions, item_actions,
  field_actions, Stale, push_token, type_of, text, items_text, fields_text, comma, comma_field,
  value_offset,
}
use subjson.Path.{Component}
use subjson.Path.Parse.State.{Part, root, key, index, other}
use subjson.Prelude.{
  ℕ, suc, ◌+◌, ◌%◌, ◌≤◌, ◌<◌, ◌^◌, ◌≡◌, refl, sym, ap, ◌∙◌, subst, arith, Bool, true, false, ◌&&◌,
  ◌==◌, Bool-cases, if◌then◌else◌, Option, some, length, List, ◌∷◌, ◌++◌, [], ◌⊎◌, inl, inr,
}
use subjson.Match.Level.{
  Rest, deeper, deepest, next, element_yes, element_no, element_match, member_match,
}
use subjson.Match.Scanned.{Scanned, carry, Asked, Ended-inside}

module _ (p : Parser) (law : Resolves p) (stale : ℕ → Stale) (comps : CompInfo) (u : Bool)
    (b : Bytes) (i : ℕ) (small : length b < 2 ^ 63) where
  abbrev base : Ptr
  base = ptr b i

  abbrev go : List Event → Jsn → Jsn
  go es j = feed p stale es j

  mutual
    unfolding seek inner_actions item_actions field_actions text

    -- an element on the path
    pub found_in :
        (v : Json) (ss : List Part) (c : Component) (cs front : List Component) (l n at q : ℕ)
        (es : List Event) (ctx : ParseContext) (parent : Option State) (j : Jsn)
        → Rest comps l c cs front
        → SpellsAll cs ss
        → Holds b i at (text v)
        → fits ss v ≡ true
        → Asked p stale comps u base v l n at q ctx parent (goes_on ss (type_of v)) j
        → Ended base (length comps) (seek ss v at q) (go (actions stale v l n at es) j)
    found_in v [] c [] front l n at q es ctx parent j rest spells holds fit a =
        reach_complete p stale v l n at q es ctx j parent a.searching a.heard
          (deepest l c front rest) (Holds-pop_offset b i at v holds small) a.up a.ready a.asked
          a.placed
    found_in v [] c (d ∷ ds) front l n at q es ctx parent j rest spells holds fit a = absurd spells
    found_in (obj fields) (key k ∷ ss) c (d ∷ ds) front l n at q es ctx parent j rest spells holds
          fit a =
        let low = deeper l c (d ∷ ds) front rest in
        let (ctx', j', e, s, slot, missing) =
          enter p stale (obj fields) l n at es ctx j parent a.searching a.heard low a.up a.ready
            a.asked a.missing in
        subst (Ended base (length comps) (seek_fields k ss fields (at + 1) 0)) (sym e) (
          Ended-inside p stale comps u base (obj fields) l n at es
            (seek_fields k ss fields (at + 1) 0) j' _ low refl
            (found_field fields k ss d ds (front ++ c ∷ []) (suc l) 0 0 (at + 1) _ ctx' j'
              (next l c d ds front rest) spells
              (Holds-left (fields_text fields) (b'}' ∷ [])
                (Holds-right (b'{' ∷ []) (fields_text fields ++ b'}' ∷ []) holds))
              s (omega arith) slot missing refl))
    found_in (arr items) (index k neg ∷ ss) c (d ∷ ds) front l n at q es ctx parent j rest spells
          holds fit a =
        let low = deeper l c (d ∷ ds) front rest in
        let (ctx', j', e, s, slot, missing) =
          enter p stale (arr items) l n at es ctx j parent a.searching a.heard low a.up a.ready
            a.asked a.missing in
        subst (Ended base (length comps) (seek_items k ss items (at + 1) 0)) (sym e) (
          Ended-inside p stale comps u base (arr items) l n at es (seek_items k ss items (at + 1) 0)
            j' _ low refl
            (found_item items k neg ss d ds (front ++ c ∷ []) (suc l) 0 (at + 1) _ ctx' j'
              (next l c d ds front rest) spells
              (Holds-left (items_text items) (b']' ∷ [])
                (Holds-right (b'[' ∷ []) (items_text items ++ b']' ∷ []) holds))
              s (omega arith) slot missing))
    found_in (obj fields) (key k ∷ ss) c [] front l n at q es ctx parent j rest spells holds fit a =
        absurd spells
    found_in (special s flags) (key k ∷ ss) c cs front l n at q es ctx parent j rest spells holds
          fit a =
        cc
    found_in (str s x) (key k ∷ ss) c cs front l n at q es ctx parent j rest spells holds fit a = cc
    found_in (arr items) (key k ∷ ss) c cs front l n at q es ctx parent j rest spells holds fit a =
        cc
    found_in (arr items) (index k neg ∷ ss) c [] front l n at q es ctx parent j rest spells holds
          fit a =
        absurd spells
    found_in (special s flags) (index k neg ∷ ss) c cs front l n at q es ctx parent j rest spells
          holds fit a =
        cc
    found_in (str s x) (index k neg ∷ ss) c cs front l n at q es ctx parent j rest spells holds fit
          a =
        cc
    found_in (obj fields) (index k neg ∷ ss) c cs front l n at q es ctx parent j rest spells holds
          fit a =
        cc
    found_in v (root ∷ ss) c [] front l n at q es ctx parent j rest spells holds fit a =
        absurd spells
    found_in v (root ∷ ss) c (d ∷ ds) front l n at q es ctx parent j rest spells holds fit a =
        absurd spells.0
    found_in v (other ∷ ss) c [] front l n at q es ctx parent j rest spells holds fit a =
        absurd spells
    found_in v (other ∷ ss) c (d ∷ ds) front l n at q es ctx parent j rest spells holds fit a =
        absurd spells.0

    pub found_item :
        (items : Items) (k : ℕ) (neg : Bool) (ss : List Part) (c : Component)
        (cs front : List Component) (l n at : ℕ) (es : List Event) (ctx : ParseContext) (j : Jsn)
        → Rest comps l c cs front
        → SpellsAll (c ∷ cs) (index k neg ∷ ss)
        → Holds b i at (items_text items)
        → Searching comps u base ctx j
        → 1 ≤ l
        → Slot l t_list j
        → is_complete ctx.match.matchres ≡ false
        → Scanned p stale comps u base
            (seek_items k ss items at n)
            l
            t_list
            (item_actions stale items l n at es)
            es
            j
    found_item (nil ws) k neg ss c cs front l n at es ctx j rest spells holds s pos slot missing =
        inr (refl, ctx, j, refl, s, slot, missing)
    found_item (cons lead v trail items) k neg ss c cs front l n at es ctx j rest spells holds s pos
          slot missing =
        let low = deeper l c cs front rest in
        let here = at + length lead in
        let behind = here + length (text v) + length trail + length (comma items) in
        let later = item_actions stale items l (suc n) behind es in
        let parent = record (j.stack l) { nelem = suc n } in
        let st = entered push l (push_token stale v here) j in
        let up = above p stale l (suc n) here (push_token stale v here) j pos in
        let ready = ap is_possible slot.slot_open in
        let h1 = Holds-right lead (text v ++ (trail ++ (comma items ++ items_text items))) holds in
        let h2 = Holds-right (comma items) (items_text items) (
          Holds-right trail (comma items ++ items_text items)
            (Holds-right (text v) (trail ++ (comma items ++ items_text items)) h1)) in
        let matched =
          element_match p law k neg ss c cs front l parent st ctx s.path rest spells slot.slot_type
            slot.slot_level in
        let type = token_type stale v here in
        let all = cons lead v trail items in
        let skipped =
          λ (r : MatchResult) (bad : (r ≡ nomatch) ⊎ (r ≡ type_mismatch))
              (m : p.path_match ctx.jpr (some parent) st (get_hk ctx.hk).0 ≡ r)
              (not_here : (n == k) && fits ss v ≡ false).
            let (j', e, moved, s', missing') =
              past_unmatched p stale v l (suc n) here later ctx j (some parent) r s slot.slot_heard
                low up ready m bad missing in
            carry p stale comps u base (seek_items k ss items behind (suc n))
              (seek_items k ss all at n) l t_list later (item_actions stale all l n at es) es j' j
              (item_later k ss lead v trail items at n not_here) e
              (found_item items k neg ss c cs front l (suc n) behind es (unmatched r ctx) j' rest
                spells h2 s' pos (Slot-Moved slot moved) missing') in
        elim (Bool-cases (n == k)) [
          | inl same ↦
              let m = matched ∙ element_yes k n (goes_on ss st.type) same ∙ ap (goes_on ss) type in
              elim (Bool-cases (fits ss v)) [
                | inl fit ↦ inl (
                    subst
                      (λ (x : Option Hit).
                        Ended base (length comps) x (go (actions stale v l (suc n) here later) j))
                      (sym (item_here k ss lead v trail items at n same fit))
                      (found_in v ss c cs front l (suc n) here (n % u32_mod) later ctx (some parent)
                        j rest spells.1
                        (Holds-left (text v) (trail ++ (comma items ++ items_text items)) h1) fit
                        (record {
                          searching = s;
                          heard = slot.slot_heard;
                          up = up;
                          ready = ready;
                          asked = m;
                          placed = λ x y e. located_element parent n x y slot.slot_type refl;
                          missing = missing;
                        })))
                | inr unfit ↦
                    skipped type_mismatch (inr refl) (m ∙ misfit ss v unfit) (rw (same, unfit) refl)
              ]
          | inr other_ ↦
              skipped nomatch (inl refl) (matched ∙ element_no k n (goes_on ss st.type) other_)
                (rw other_ refl)
        ]

    pub found_field :
        (fields : Fields) (k : Bytes) (ss : List Part) (c : Component) (cs front : List Component)
        (l n m at : ℕ) (es : List Event) (ctx : ParseContext) (j : Jsn)
        → Rest comps l c cs front
        → SpellsAll (c ∷ cs) (key k ∷ ss)
        → Holds b i at (fields_text fields)
        → Searching comps u base ctx j
        → 1 ≤ l
        → Slot l t_object j
        → is_complete ctx.match.matchres ≡ false
        → m ≡ n + n
        → Scanned p stale comps u base
            (seek_fields k ss fields at n)
            l
            t_object
            (field_actions stale fields l m at es)
            es
            j
    found_field (end ws) k ss c cs front l n m at es ctx j rest spells holds s pos slot missing
          twice =
        inr (refl, ctx, j, refl, s, slot, missing)
    found_field (field lead k' x mid mid' v trail fields) k ss c cs front l n m at es ctx j rest
          spells holds s pos slot missing twice =
        let low = deeper l c cs front rest in
        let all = field lead k' x mid mid' v trail fields in
        let start = at + length lead in
        let here = at + value_offset lead k' mid mid' in
        let behind = here + length (text v) + length trail + length (comma_field fields) in
        let later = field_actions stale fields l (suc (suc m)) behind es in
        let events = actions stale v l (suc (suc m)) here later in
        let hk =
          set_hk_end (set_hk_begin ctx.hk (ptr_add base start)) start (start + (length k' + 1)) x in
        let ctx1 = record ctx { hk = hk } in
        let (j1, e1, a1) =
          past_key p stale l (suc m) start x k' events ctx j s slot.slot_heard low in
        let s1 = Searching-Moved s a1 s.path s.plain in
        let slot1 = Slot-Moved slot a1 in
        let behind_v = trail ++ (comma_field fields ++ fields_text fields) in
        let behind_k = mid ++ (b':' ∷ (mid' ++ (text v ++ behind_v))) in
        let name =
          Holds-key_name ctx.hk k' behind_k x
            (Holds-right lead (b'"' ∷ (k' ++ (b'"' ∷ behind_k))) holds) small in
        let h1 = Holds-value lead k' mid mid' (text v ++ behind_v) holds in
        let h2 = Holds-right (comma_field fields) (fields_text fields) (
          Holds-right trail (comma_field fields ++ fields_text fields)
            (Holds-right (text v) behind_v h1)) in
        let parent = record (j1.stack l) { nelem = suc (suc m) } in
        let st = entered push l (push_token stale v here) j1 in
        let up = above p stale l (suc (suc m)) here (push_token stale v here) j1 pos in
        let ready = ap is_possible slot1.slot_open in
        let matched =
          member_match p law k (key_text k' x) ss c cs front l parent st ctx1 s1.path rest spells
            slot1.slot_type slot1.slot_level name in
        let type = token_type stale v here in
        let skipped =
          λ (r : MatchResult) (bad : (r ≡ nomatch) ⊎ (r ≡ type_mismatch))
              (f : p.path_match ctx1.jpr (some parent) st (get_hk ctx1.hk).0 ≡ r)
              (not_here : same_text k (key_text k' x) && fits ss v ≡ false).
            let (j', e, moved, s', missing') =
              past_unmatched p stale v l (suc (suc m)) here later ctx1 j1 (some parent) r s1
                slot1.slot_heard low up ready f bad missing in
            carry p stale comps u base (seek_fields k ss fields behind (suc n))
              (seek_fields k ss all at n) l t_object later (field_actions stale all l m at es) es j'
              j (field_later k ss lead k' x mid mid' v trail fields at n not_here) (e1 ∙ e)
              (found_field fields k ss c cs front l (suc n) (suc (suc m)) behind es
                (unmatched r ctx1) j' rest spells h2 s' pos (Slot-Moved slot1 moved) missing'
                (omega arith)) in
        elim (Bool-cases (same_text k (key_text k' x))) [
          | inl same ↦
              let f =
                matched
                ∙ ap (λ (b : Bool). if b then goes_on ss st.type else nomatch) same
                ∙ ap (goes_on ss) type in
              elim (Bool-cases (fits ss v)) [
                | inl fit ↦ inl (
                    subst
                      (λ (h : Option Hit).
                        Ended base (length comps) h (go (field_actions stale all l m at es) j))
                      (sym (field_here k ss lead k' x mid mid' v trail fields at n same fit))
                      (subst (Ended base (length comps) (seek ss v here (n % u32_mod))) (sym e1) (
                        found_in v ss c cs front l (suc (suc m)) here (n % u32_mod) later ctx1
                          (some parent) j1 rest spells.1 (Holds-left (text v) behind_v h1) fit
                          (record {
                            searching = s1;
                            heard = slot1.slot_heard;
                            up = up;
                            ready = ready;
                            asked = f;
                            placed =
                                λ y z e. located_member parent n y z slot1.slot_type (omega arith);
                            missing = missing;
                          }))))
                | inr unfit ↦
                    skipped type_mismatch (inr refl) (f ∙ misfit ss v unfit) (rw (same, unfit) refl)
              ]
          | inr other_ ↦
              skipped nomatch (inl refl)
                (matched ∙ ap (λ (b : Bool). if b then goes_on ss st.type else nomatch) other_)
                (rw other_ refl)
        ]
