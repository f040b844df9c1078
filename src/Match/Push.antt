-- ===== src/Match/Push.antt =====
-- subdoc/match.cc: the callback at the start of an element.
use subjson.HashKey.{set_hk_begin, get_hk, hk_rawloc}
use subjson.Jsonsl.{JsonType, t_unknown, MatchResult, possible, complete, nomatch, type_mismatch}
use subjson.Loc.{Ptr, is_null}
use subjson.Match.{Match}
use subjson.Parser.{
  State, Callback, ParseContext, Jsn, Parser, stop, last_state, put_state, put_context, with_ctx,
}
use subjson.Prelude.{ℕ, ◌+◌, ◌/◌, Bool, true, not, Option, none, some, if◌then◌else◌}
use subjson.Match.Tests.{sub32, is_hkey, is_object, is_list, is_possible, put_match}

abbrev pub parent_possible : Option State → Bool
parent_possible none = true
parent_possible (some parent) = is_possible parent.mres

abbrev parent_type : Option State → JsonType
parent_type none = t_unknown
parent_type (some parent) = parent.type

abbrev parent_nelem : Option State → ℕ
parent_nelem none = 0
parent_nelem (some parent) = parent.nelem

abbrev pub ignore : State → State
ignore st = record st { ignore_callback = true }

-- the key's location and the position of a match in its parent
unfoldable pub locate : Option State → ParseContext → Match → Match
unfolding hk_rawloc
locate parent ctx m =
    if is_object (parent_type parent)
    then record m { loc_key = hk_rawloc ctx.hk; position = sub32 (parent_nelem parent / 2) 1 }
    else if is_list (parent_type parent)
    then record m { position = sub32 (parent_nelem parent) 1 }
    else m

-- the match is complete
unfoldable pub push_complete : Option State → State → ℕ → Ptr → ParseContext → Jsn → Jsn
unfolding locate
push_complete parent st lvl at ctx j =
    let m = locate parent ctx (record ctx.match {
      matchres = complete;
      type = st.type;
      loc_deepest = record ctx.match.loc_deepest { at = at };
      match_level = st.level;
    }) in
    if is_null m.ensure_unique.at
    then put_match ctx m j
    else if not (is_list st.type)
    then stop (put_match ctx (record m { matchres = type_mismatch }) j)
    else record (put_match ctx m j) {
      action_callback_pop = some Callback.unique_callback;
      action_callback_push = some Callback.unique_callback;
      max_callback_level = st.level + 2;
    }

-- what follows the call of `jsonsl_path_match`
abbrev pub push_result : MatchResult → Option State → State → ℕ → Ptr → ParseContext → Jsn → Jsn
push_result complete parent st lvl at ctx j =
    push_complete parent (record st { mres = complete }) lvl at ctx
      (put_state lvl (record st { mres = complete }) j)
push_result nomatch parent st lvl at ctx j =
    put_context ctx (put_state lvl (ignore (record st { mres = nomatch })) j)
push_result possible parent st lvl at ctx j =
    put_match ctx
      (record ctx.match {
        match_level = st.level;
        loc_deepest = record ctx.match.loc_deepest { at = at };
      })
      (put_state lvl (record st { mres = possible }) j)
push_result type_mismatch parent st lvl at ctx j =
    put_match ctx (record ctx.match { matchres = type_mismatch })
      (put_state lvl (ignore (record st { mres = type_mismatch })) j)

unfoldable pub push_callback : Parser → ℕ → Ptr → Jsn → Jsn
unfolding set_hk_begin get_hk push_complete
push_callback p lvl at j = with_ctx j.context j λ ctx.
    let st = j.stack lvl in
    let parent = last_state j st in
    if is_hkey st.type
    then put_context (record ctx { hk = set_hk_begin ctx.hk at }) j
    else if not (parent_possible parent)
    then j
    else let (key, hk) = get_hk ctx.hk in
      push_result (p.path_match ctx.jpr parent st key) parent st lvl at (record ctx { hk = hk }) j
