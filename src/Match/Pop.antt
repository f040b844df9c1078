-- ===== src/Match/Pop.antt =====
-- subdoc/match.cc: the callbacks at the end of an element, that for uniqueness and that for the
-- siblings.
use subjson.HashKey.{set_hk_end}
use subjson.Jsonsl.{is_container, type_mismatch, nomatch}
use subjson.Loc.{Bytes, loc_default, Ptr, ptr_add, bytes_at}
use subjson.Match.{Match}
use subjson.Operations.Arrays.{isspace}
use subjson.Parser.{
  Action, push, pop, State, Callback, ParseContext, ncomponents, Jsn, stop, last_state, put_context,
  expects, with_ctx,
}
use subjson.Prelude.Words.{sub64, add64}
use subjson.Prelude.{
  ℕ, zero, suc, ◌+◌, ◌/◌, ◌%◌, Bool, true, false, not, ◌&&◌, ◌||◌, Option, none, some, ltb, ◌==◌,
  if◌then◌else◌, get_or,
}
use subjson.Match.Tests.{
  u32_mod, is_hkey, is_object, is_list, is_special, is_string, is_possible, is_complete, is_push,
  wants_siblings, put_match, rest, strncmp_eq,
}

-- the parent, for `next_sibling_push_callback`
abbrev sibling_parent : Action → Jsn → State → Option State
sibling_parent pop j st = some st
sibling_parent push j st = last_state j st

-- the number of siblings, from the parent of the match
abbrev pub count_siblings : Action → Option State → Match → Match
count_siblings action none m = m
count_siblings action (some parent) m =
    if not (is_possible parent.mres)
    then m
    else let nelem = parent.nelem % u32_mod in
      let n =
        if is_object parent.type
        then (if is_push action then (nelem + 1) % u32_mod else nelem) / 2
        else if is_list parent.type
        then nelem
        else m.num_siblings in
      record m { num_siblings = sub64 n 1 }

-- the inner `Expects`: the push is of a key
abbrev sibling_is_key : Action → Option State → State → Bool
sibling_is_key action none st = true
sibling_is_key action (some parent) st =
    not (is_possible parent.mres && is_object parent.type && is_push action) || is_hkey st.type

unfoldable pub next_sibling_push_callback : Action → ℕ → Jsn → Jsn
next_sibling_push_callback action lvl j = with_ctx j.context j λ ctx.
    let m = ctx.match in
    let st = j.stack lvl in
    let parent = sibling_parent action j st in
    expects (is_push action || st.level == sub64 m.match_level 1)
      (expects (is_complete m.matchres)
        (expects (wants_siblings m.extra_options)
          (expects (sibling_is_key action parent st)
            (stop (put_match ctx (count_siblings action parent m) j)) j)
          j)
        j)
      j

-- the end of the matched element
abbrev pub matched : Jsn → State → Match → Match
matched j st m =
    let n = sub64 j.pos st.pos_begin in
    let counted = record m { immediate_parent_found = true; num_children = st.nelem } in
    if is_special st.type
    then record counted {
      loc_deepest = record m.loc_deepest { length = n };
      sflags = st.special_flags;
    }
    else record counted { loc_deepest = record m.loc_deepest { length = add64 n 1 } }

-- `while (isspace(s[n - 1])) --n`; below a length of 0 the code reads out of bounds.
unfoldable pub trim_space : Bytes → ℕ → ℕ
trim_space s zero = zero
trim_space s (suc n) = elim (isspace (get_or s n 0)) [ true ↦ trim_space s n | false ↦ suc n ]

-- The last child becomes the match.
unfoldable pub transpose : Jsn → State → Match → Match
unfolding trim_space
transpose j st m =
    let child = j.stack (st.level + 1) in
    let at = ptr_add j.base child.pos_begin in
    record m {
      loc_deepest = record {
        at = at;
        length = trim_space (bytes_at at) (sub64 j.pos child.pos_begin);
      };
      match_level = child.level;
      sflags = child.special_flags;
      type = child.type;
      num_children = child.nelem;
      num_siblings = sub64 st.nelem 1;
      position = sub64 st.nelem 1;
      loc_key = loc_default;
    }

-- the pop of the element that matches
unfoldable pub pop_complete : State → ParseContext → Jsn → Jsn
unfolding transpose
pop_complete st ctx j =
    let m = matched j st ctx.match in
    if m.get_last
    then (if not (is_list st.type)
        then stop (put_match ctx (record m { matchres = type_mismatch }) j)
        else if st.nelem == 0
        then stop (put_match ctx (record m { matchres = nomatch }) j)
        else stop (put_match ctx (transpose j st m) j))
    else if wants_siblings m.extra_options
    then record (put_match ctx m j) {
      action_callback_pop = none;
      action_callback_push = none;
      action_callback = some Callback.next_sibling_push_callback;
    }
    else stop (put_match ctx m j)

-- the end of the deepest parent
unfoldable pub deepest_parent : Jsn → State → ParseContext → Match
deepest_parent j st ctx =
    let m = ctx.match in
    record m {
      loc_deepest = record m.loc_deepest { length = add64 (sub64 j.pos st.pos_begin) 1 };
      num_siblings = (if is_object st.type then st.nelem / 2 else st.nelem) % u32_mod;
      type = st.type;
      immediate_parent_found =
          (if st.level == sub64 (ncomponents ctx.jpr) 1 then true else m.immediate_parent_found);
    }

unfoldable pub pop_callback : ℕ → Jsn → Jsn
unfolding set_hk_end pop_complete deepest_parent
pop_callback lvl j = with_ctx j.context j λ ctx.
    let st = j.stack lvl in
    if is_hkey st.type
    then put_context (record ctx { hk = set_hk_end ctx.hk st.pos_begin st.pos_cur st.nescapes }) j
    else if is_complete st.mres
    then pop_complete st ctx j
    else if not (is_container st.type)
    then j
    else if not (is_possible st.mres)
    then j
    else stop (put_match ctx (deepest_parent j st ctx) j)

-- the item is there already
abbrev pub found_item : Bool → ParseContext → Jsn → Jsn
found_item true ctx j = stop (put_match ctx (record ctx.match { unique_item_found = true }) j)
found_item false ctx j = j

-- whether an item of the array, which ends here, is the value that is to be unique
unfoldable pub compare_item : State → ParseContext → Jsn → Jsn
unfolding strncmp_eq
compare_item st ctx j =
    let m = ctx.match in
    let slen = sub64 st.pos_cur st.pos_begin in
    let item = bytes_at ctx.uniquebuf in
    let value = bytes_at m.ensure_unique.at in
    if is_string st.type
    then (if ltb m.ensure_unique.length 2
        then j
        else if not (add64 slen 1 == m.ensure_unique.length)
        then j
        else found_item (strncmp_eq (sub64 (add64 slen 1) 2) (rest item) (rest value)) ctx j)
    else if is_special st.type
    then (if not (m.ensure_unique.length == slen)
        then j
        else found_item (strncmp_eq slen item value) ctx j)
    else stop (put_match ctx (record m { matchres = type_mismatch }) j)

unfoldable pub unique_callback : Action → ℕ → Ptr → Jsn → Jsn
unfolding pop_callback compare_item
unique_callback action lvl at j = with_ctx j.context j λ ctx.
    let st = j.stack lvl in
    if is_push action
    then put_context (record ctx { uniquebuf = at }) j
    else if is_complete st.mres
    then pop_callback lvl (record j {
      action_callback_pop = some Callback.pop_callback;
      action_callback_push = some Callback.push_callback;
      max_callback_level = st.level + 1;
    })
    else expects (st.level == ctx.match.match_level + 1) (compare_item st ctx j) j
