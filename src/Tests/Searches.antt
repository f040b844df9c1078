-- ===== src/Tests/Searches.antt =====
-- The matcher, the validator and `op_exec` on top of them, with a parser of three texts.
use subjson.Jsonsl.{
  t_list, t_object, t_unknown, path_numeric, JsonslError, complete, path_root, t_special, t_string,
}
use subjson.Loc.{Bytes, Loc, ptr, nullptr, to_view}
use subjson.Match.{get_following_siblings, Match, match_default}
use subjson.Match.Equal.{same_text, reported, compare_item-str, compare_item-special}
use subjson.Match.Pop.{compare_item}
use subjson.Match.Request.{exec_match-request}
use subjson.Match.Rounds.{negix_loop_fuel}
use subjson.Match.Search.{negix_loop, exec_match}
use subjson.Operations.{Operation}
use subjson.Operations.Composed.{engine, op_exec-Acceptable}
use subjson.Operations.Exec.{op_exec}
use subjson.Operations.Store.{literal}
use subjson.Parser.{Jsn, Parser, State, ParseContext, state_zero, no_context, parse_context_new}
use subjson.Parser.Trace.{arrive, deliver, Event, run, run_chunks, IsReset}
use subjson.Parser.Tree.{
  Json, special, arr, Items, nil, cons, item_actions, Stale, text, items_text,
}
use subjson.Path.{active, size, SubdocPath, path_new, blank}
use subjson.Path.Parse.{parse, done}
use subjson.Prelude.{
  ℕ, ◌≢◌, All, inl, inr, ◌+◌, ◌≤◌, ◌≡◌, ◌↔◌, refl, arith, Bool, true, false, List, [], ◌∷◌, ◌++◌,
  none, some, replicate, bit_and, bit_or, if◌then◌else◌,
}
use subjson.SubdocApi
use subjson.SubdocApi.{Command}
use subjson.Tests.Data.{key_component, codes, path_new-IsReady, placed}
use subjson.Util.{get_root_type, get_root_type_cases, Blank, array_commands, other_commands}
use subjson.Validate.{json, parent_array, value_single, value_primitive}
use subjson.Validate.Accepts.{Acceptable, array_mode, validate-Acceptable}
use subjson.Validate.Elements.{verdict}
use subjson.Validate.Run.{validate, value_mask}
use subjson.Validate.Reads.{Reads, open_list, close_list}
use subjson.Validate.Wrapped.{validate-verdict}

abbrev pub stale_zero : ℕ → Stale
stale_zero i = record { special_flags = 0; pos_cur = 0; nelem = 0; nescapes = 0 }

-- the elements `[7]`
abbrev nested : Items
nested = cons [] (arr (cons [] (special (codes "7") 1) [] (nil []))) [] (nil [])

-- the actions on a text: a bracket, the elements, or the empty array
abbrev table : Bytes → List Event
table s =
    if same_text s (codes "[")
    then open_list stale_zero nested 0
    else if same_text s (codes "]")
    then close_list stale_zero nested 0
    else if same_text s (codes "[]")
    then open_list stale_zero (nil []) 0 ++ close_list stale_zero (nil []) 0
    else item_actions stale_zero nested 1 0 1 []

abbrev pub jsn_new : Jsn
jsn_new = record {
  stopfl = false;
  pos = 0;
  base = nullptr;
  stack = λ i. record state_zero { level = i };
  action_callback_push = none;
  action_callback_pop = none;
  action_callback = none;
  error_callback = none;
  max_callback_level = 0;
  call_flags = record {
    call_object = false;
    call_list = false;
    call_string = false;
    call_special = false;
    call_hkey = false;
    call_uescape = false;
  };
  context = no_context;
  aborted = false;
}

abbrev reader : Parser
reader = record {
  feed = λ inv err value j. run inv err (table (to_view value)) (record j { base = value.at });
  reset = λ j. jsn_new;
  path_match = λ comps parent st key. complete;
}

pub jsn_new-IsReset : IsReset jsn_new
jsn_new-IsReset = record { running = refl; stack_zero = λ i. refl }

abbrev value_nested : Loc
value_nested = literal (codes "[7]")

reader-Reads :
    Reads reader value_nested nested stale_zero 0
      (item_actions stale_zero nested 1 0 1 [])
      (close_list stale_zero nested 0)
unfolding same_text item_actions subjson.Parser.Tree.actions items_text text run_chunks
reader-Reads = record {
  reads_text = refl;
  cut = refl;
  opened = λ inv err j fresh on. refl;
  valued = λ inv err j fresh on. refl;
  closed = λ inv err j fresh on. refl;
}

validate-verdict_example :
    (validate reader value_nested (some 1) (bit_or parent_array value_primitive) jsn_new).0
    ≡ verdict 1 (bit_and (bit_or parent_array value_primitive) value_mask) 0 nested
validate-verdict_example =
    validate-verdict reader value_nested nested stale_zero 0 1 (bit_or parent_array value_primitive)
      (item_actions stale_zero nested 1 0 1 []) (close_list stale_zero nested 0) jsn_new
      reader-Reads jsn_new-IsReset refl

validate-Acceptable_example :
    ((validate reader value_nested (some 2) (array_mode true false) jsn_new).0
      ≡ json JsonslError.success)
    ↔ Acceptable 2 true false 0 nested
validate-Acceptable_example =
    validate-Acceptable reader value_nested nested stale_zero 0 2 true false
      (item_actions stale_zero nested 1 0 1 []) (close_list stale_zero nested 0) jsn_new
      reader-Reads jsn_new-IsReset

-- the string 2 among the items, and the string that is to be unique
abbrev unique_ctx : ParseContext
unique_ctx =
    record (parse_context_new (record match_default { ensure_unique = literal (codes "\"2\"") })
      []) { uniquebuf = ptr (codes "[\"2\"]") 1 }

abbrev a_string : State
a_string = record state_zero { type = t_string; pos_begin = 1; pos_cur = 3 }

compare_item-str_example :
    compare_item a_string unique_ctx jsn_new
    ≡ reported (same_text (codes "2") (codes "2")) unique_ctx jsn_new
compare_item-str_example =
    compare_item-str a_string unique_ctx jsn_new (codes "2") (codes "2") (codes "\"]") []
      ((λ e. omega arith), tt) (omega arith) (omega arith) b'"' b'"' refl refl refl refl refl

-- the number 7 among the items
abbrev a_number : State
a_number = record state_zero { type = t_special; pos_begin = 1; pos_cur = 2 }

abbrev number_ctx : ParseContext
number_ctx =
    record (parse_context_new (record match_default { ensure_unique = literal (codes "8") }) []) {
      uniquebuf = ptr (codes "[7]") 1;
    }

compare_item-special_example :
    compare_item a_number number_ctx jsn_new
    ≡ reported (same_text (codes "7") (codes "8")) number_ctx jsn_new
compare_item-special_example =
    compare_item-special a_number number_ctx jsn_new (codes "7") (codes "8") (codes "]") []
      ((λ e. omega arith), tt) (omega arith) (omega arith) refl refl refl refl refl

-- the path [-1].b
abbrev last_b : SubdocPath
last_b = record path_new {
  components_s =
      record blank { ptype = path_root }
      ∷ record blank { ptype = path_numeric; is_neg = true }
      ∷ key_component (codes "b")
      ∷ replicate 30 blank;
  ncomponents = 3;
  has_negix = true;
}

exec_match-request_example :
    exec_match reader
      (record match_default { extra_options = get_following_siblings })
      value_nested
      last_b
      jsn_new
    ≡ exec_match reader match_default value_nested last_b jsn_new
exec_match-request_example =
    exec_match-request reader (record match_default { extra_options = get_following_siblings })
      match_default value_nested last_b jsn_new refl (omega arith)

-- ARRAY_APPEND of [7] to the empty array
abbrev append_nested : Operation
append_nested = placed SubdocApi.array_append (codes "[7]") match_default (codes "[]") [] []

append_nested_success : (op_exec (engine reader jsn_new) [] append_nested).0 ≡ SubdocApi.success
unfolding op_exec engine parse subjson.Path.Parse.parse_loop subjson.Operations.Exec.dispatch
    subjson.Operations.Exec.exec_append subjson.Operations.Exec.validate SubdocApi.base
    subjson.Operations.Arrays.do_list_append subjson.Operations.Arrays.do_empty_append
    subjson.Operations.Exec.get_maxdepth subjson.Operations.Arrays.skip_back validate
    subjson.Validate.Run.validate_as subjson.Validate.Run.wrapper subjson.Validate.Run.prepare
    subjson.Validate.Run.feed_wrapped run deliver arrive same_text item_actions
    subjson.Parser.Tree.actions items_text text subjson.Match.Callbacks.invoke
    subjson.Validate.Callbacks.validate_callback subjson.Path.add subjson.Prelude.Words.sub64
append_nested_success = refl

op_exec-Acceptable_example :
    (q : SubdocPath) × (parse [] path_new ≡ done tt q)
    × (depth : ℕ) × (depth + size q ≤ 33)
    × Acceptable depth false false 0 nested
op_exec-Acceptable_example =
    op_exec-Acceptable reader jsn_new [] append_nested nested stale_zero 0
      (item_actions stale_zero nested 1 0 1 []) (close_list stale_zero nested 0) path_new-IsReady
      jsn_new-IsReset reader-Reads refl append_nested_success

abbrev blanks : Bytes
blanks = 0x20 ∷ 0x09 ∷ []

get_root_type_cases_example :
    ((command : Command) (s : Bytes) → get_root_type command (blanks ++ b'[' ∷ s) ≡ t_list)
    × ((command : Command) (c : ℕ) (s : Bytes)
        → ¬ Blank c
        → c ≢ 0
        → c ≢ b'['
        → get_root_type command (blanks ++ c ∷ s) ≡ t_object)
    × All (λ command. get_root_type command blanks ≡ t_list) array_commands
    × All (λ command. get_root_type command blanks ≡ t_unknown) other_commands
get_root_type_cases_example = get_root_type_cases blanks (inl refl, (inr (omega arith), tt))

negix_loop_fuel_example :
    negix_loop 2 reader (active last_b) 1 0 value_nested match_default jsn_new
    ≡ negix_loop 7 reader (active last_b) 1 0 value_nested match_default jsn_new
negix_loop_fuel_example =
    negix_loop_fuel 2 7 reader (active last_b) 1 0 value_nested match_default jsn_new (omega arith)
      (omega arith)
