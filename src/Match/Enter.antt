-- ===== src/Match/Enter.antt =====
-- An element that the search of subdoc/match.cc ends with: the match, at its end.
use subjson.Jsonsl.{JsonslError, possible, complete, is_container}
use subjson.Loc.{Ptr, nullptr, is_null, ptr_add}
use subjson.Match.{Match, get_match_only}
use subjson.Match.Push.{push_complete, locate}
use subjson.Match.Pop.{pop_callback, pop_complete, matched, deepest_parent}
use subjson.Match.Seek.{Hit}
use subjson.Match.Tests.{is_hkey, is_complete, is_special, put_match}
use subjson.Parser.{State, ParseContext, parsing, Jsn, stop}
use subjson.Parser.Tree.{
  count_fields, count_items, Json, special, str, arr, obj, pop_offset, type_of, text, items_text,
  fields_text,
}
use subjson.Prelude.Words.{add64, sub64, add64_lem, sub64_lem}
use subjson.Prelude.{
  ℕ, ◌+◌, ◌-◌, ◌<◌, ◌^◌, ◌≡◌, ap, ◌∙◌, arith, true, false, Option, none, some, if◌then◌else◌,
  length, length-append, ◌∷◌, [],
}

-- the number of elements of an array, and that of the keys and values of an object
abbrev pub Counts : Json → ℕ → Type 0
Counts (arr items) n = n ≡ count_items items
Counts (obj fields) n = n ≡ count_fields fields + count_fields fields
Counts _ n = Unit

-- The match is the value, at the level `level`.
pub record Hits (base : Ptr) (level : ℕ) (h : Hit) (m : Match) : Type 0 where
  pub found : m.matchres ≡ complete
  pub found_type : m.type ≡ type_of h.value
  pub found_at : m.loc_deepest.at ≡ ptr_add base h.offset
  pub found_length : m.loc_deepest.length ≡ length (text h.value)
  pub found_level : m.match_level ≡ level
  pub found_position : m.position ≡ h.position
  pub found_children : Counts h.value m.num_children
  pub found_parent : m.immediate_parent_found ≡ true
  pub fine : m.status ≡ JsonslError.success

-- The match is what the path names, or there is none.
abbrev pub Answers : Ptr → ℕ → Option Hit → Match → Type 0
Answers base level none m = (is_complete m.matchres ≡ false) × (m.status ≡ JsonslError.success)
Answers base level (some h) m = Hits base level h m

pub locate_lem :
    (parent : Option State) (ctx : ParseContext) (m : Match)
    → locate parent ctx m ≡ record m {
      loc_key = (locate parent ctx m).loc_key;
      position = (locate parent ctx m).position;
    }
unfolding locate
locate_lem parent ctx m = ground arith

-- the match when it is complete
abbrev pub begun : Option State → State → Ptr → ParseContext → Match
begun parent st at ctx = locate parent ctx (record ctx.match {
  matchres = complete;
  type = st.type;
  loc_deepest = record ctx.match.loc_deepest { at = at };
  match_level = st.level;
})

pub push_complete_lem :
    (parent : Option State) (st : State) (lvl : ℕ) (at : Ptr) (ctx : ParseContext) (j : Jsn)
    → ctx.match.ensure_unique.at ≡ nullptr
    → push_complete parent st lvl at ctx j ≡ put_match ctx (begun parent st at ctx) j
unfolding push_complete
push_complete_lem parent st lvl at ctx j h =
    let same =
      ap (λ (m : Match). m.ensure_unique.at)
        (locate_lem parent ctx (record ctx.match {
          matchres = complete;
          type = st.type;
          loc_deepest = record ctx.match.loc_deepest { at = at };
          match_level = st.level;
        })) in
    let e : is_null (begun parent st at ctx).ensure_unique.at ≡ true = ap is_null (same ∙ h) in rw e

module _ (lvl : ℕ) (ctx : ParseContext) (st : State) (j : Jsn) (holds : j.context ≡ parsing ctx)
    (here : j.stack lvl ≡ st) (value : is_hkey st.type ≡ false) where
  pub pop_found :
      is_complete st.mres ≡ true
      → ctx.match.get_last ≡ false
      → ctx.match.extra_options ≡ get_match_only
      → pop_callback lvl j ≡ stop (put_match ctx (matched j st ctx.match) j)
  unfolding pop_callback pop_complete
  pop_found done last only = ground arith

  pub pop_missed :
      st.mres ≡ possible
      → is_container st.type ≡ true
      → pop_callback lvl j ≡ stop (put_match ctx (deepest_parent j st ctx) j)
  unfolding pop_callback
  pop_missed open_ container = ground arith

abbrev pub end_length : Jsn → State → ℕ
end_length j st =
    if is_special st.type then sub64 j.pos st.pos_begin else add64 (sub64 j.pos st.pos_begin) 1

pub matched_lem :
    (j : Jsn) (st : State) (m : Match)
    → matched j st m ≡ record m {
      immediate_parent_found = true;
      num_children = st.nelem;
      sflags = (matched j st m).sflags;
      loc_deepest = record m.loc_deepest { length = end_length j st };
    }
matched_lem j st m = ground arith

-- The length is that of the text.
pub end_length-text :
    (v : Json) (at : ℕ) (j : Jsn) (st : State)
    → st.type ≡ type_of v
    → st.pos_begin ≡ at
    → j.pos ≡ at + pop_offset v
    → at + pop_offset v < 2 ^ 63
    → end_length j st ≡ length (text v)
unfolding text
end_length-text (special s flags) at j st type begin pos h =
    rw (type, begin, pos) (sub64_lem (at + length s) at (omega arith) (omega arith) ∙ omega arith)
end_length-text (str s c) at j st type begin pos h =
    let n = length s + 1 in
    rw (type, begin, pos, sub64_lem (at + n) at (omega arith) (omega arith))
      (add64_lem (at + n - at) 1 (omega arith) ∙ omega (arith, length-append {0} s (b'"' ∷ [])))
end_length-text (arr items) at j st type begin pos h =
    let n = length (items_text items) + 1 in
    rw (type, begin, pos, sub64_lem (at + n) at (omega arith) (omega arith))
      (add64_lem (at + n - at) 1 (omega arith)
        ∙ omega (arith, length-append {0} (items_text items) (b']' ∷ [])))
end_length-text (obj fields) at j st type begin pos h =
    let n = length (fields_text fields) + 1 in
    rw (type, begin, pos, sub64_lem (at + n) at (omega arith) (omega arith))
      (add64_lem (at + n - at) 1 (omega arith)
        ∙ omega (arith, length-append {0} (fields_text fields) (b'}' ∷ [])))
