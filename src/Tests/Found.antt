-- ===== src/Tests/Found.antt =====
-- The search of subdoc/match.cc with a parser of one text and a matcher of keys and indexes.
use subjson.Jsonsl.{
  PathType, path_string, path_numeric, path_root, JsonType, t_unknown, t_root, t_string, t_hkey,
  t_object, t_list, t_special, t_uescape, MatchResult, possible, complete, nomatch, type_mismatch,
}
use subjson.Loc.{Bytes, Loc, ptr, to_view}
use subjson.Match.{match_default}
use subjson.Match.Answer.{IsRequest, Gives, exec_match-seek}
use subjson.Match.Enter.{Answers}
use subjson.Match.Equal.{same_text}
use subjson.Match.Search.{exec_match}
use subjson.Match.Seek.{goes_on, seek, SpellsAll, Resolves}
use subjson.Operations.Store.{literal}
use subjson.Parser.{State, Parser, CompInfo}
use subjson.Parser.Trace.{Event, run, run_chunks, deliver, arrive}
use subjson.Parser.Tree.{Json, special, arr, obj, nil, cons, end, field, actions, text}
use subjson.Path.{Component, SubdocPath, active, path_new, blank}
use subjson.Path.Parse.State.{Part, root, key, index, other}
use subjson.Prelude.{
  ◌⊎◌, ℕ, suc, ◌+◌, ◌<◌, ◌^◌, ◌≡◌, refl, sym, ap, ◌∙◌, arith, Bool, true, false, Option, none, some,
  length, List, ◌∷◌, ◌++◌, [], ◌==◌, if◌then◌else◌, drop, take, drop-append, replicate,
}
use subjson.Operations.Sizes.{Sizes, op_exec-size}
use subjson.Operations.Exec
use subjson.Operations.Exec.{get_maxdepth, path_has_newkey}
use subjson.Operations.Replace.{op_exec-replace, op_exec-replace_missing}
use subjson.Operations.Layout.{Produces}
use subjson.SubdocApi.{success}
use subjson.Validate.{parent_dict}
use subjson.Tests.Data.{key_path, key_path_two, codes, key_component, placed}
use subjson.Operations.{Operation}
use subjson.Operations.Composed.{engine}
use subjson.Operations.Exec.{op_exec}
use subjson.Operations.Fetch.{Fetches, op_exec-seek}
use subjson.Path.Parse.{parse, done}
use subjson.SubdocApi
use subjson.Tests.Searches.{stale_zero, jsn_new, jsn_new-IsReset}

-- what the rest of a path asks of a type
abbrev type_of_rest : PathType → JsonType → MatchResult
type_of_rest path_string t_object = possible
type_of_rest path_numeric t_list = possible
type_of_rest _ _ = type_mismatch

abbrev rest_match : List Component → JsonType → MatchResult
rest_match [] type = complete
rest_match (c ∷ cs) type = type_of_rest c.ptype type

abbrev names : PathType → Component → State → Loc → Bool
names path_string c parent name = same_text (elim c.pstr [ none ↦ [] | some k ↦ k ]) (to_view name)
names path_numeric c parent name = parent.nelem == c.idx + 1
names _ c parent name = false

abbrev level_match : CompInfo → State → State → Loc → MatchResult
level_match [] parent st name = nomatch
level_match (c ∷ cs) parent st name =
    if names c.ptype c parent name then rest_match cs st.type else nomatch

abbrev finder_match : CompInfo → Option State → State → Loc → MatchResult
finder_match comps none st name = rest_match (drop 1 comps) st.type
finder_match comps (some parent) st name = level_match (drop parent.level comps) parent st name

-- the document {"a":[1,"x"],"b":7}
abbrev doc : Json
doc = obj (
    field [] (codes "a") 0 [] []
      (arr (cons [] (special (codes "1") 1) [] (cons [] (Json.str (codes "x") 0) [] (nil [])))) []
      (field [] (codes "b") 0 [] [] (special (codes "7") 1) [] (end [])))

abbrev doc_text : Bytes
doc_text = codes "{\"a\":[1,\"x\"],\"b\":7}"

-- the actions on {"k":9}
abbrev wrapped : List Event
wrapped =
    actions stale_zero (obj (field [] (codes "k") 0 [] [] (special (codes "9") 1) [] (end []))) 0 0
      0 []

-- the actions on the document, on the number 9, and on the texts that the validator puts around it
abbrev table : Bytes → List Event
table s =
    if same_text s doc_text
    then actions stale_zero doc 0 0 0 []
    else if same_text s (codes "9")
    then take 2 (drop 3 wrapped)
    else if same_text s (codes "}")
    then drop 5 wrapped
    else take 3 wrapped

abbrev finder : Parser
finder = record {
  feed = λ inv err value j. run inv err (table (to_view value)) (record j { base = value.at });
  reset = λ j. jsn_new;
  path_match = finder_match;
}

string_rest :
    (k : Bytes) (ss : List Part) (type : JsonType)
    → type_of_rest path_string type ≡ goes_on (key k ∷ ss) type
string_rest k ss t_unknown = refl
string_rest k ss t_root = refl
string_rest k ss t_string = refl
string_rest k ss t_hkey = refl
string_rest k ss t_object = refl
string_rest k ss t_list = refl
string_rest k ss t_special = refl
string_rest k ss t_uescape = refl

numeric_rest :
    (i : ℕ) (neg : Bool) (ss : List Part) (type : JsonType)
    → type_of_rest path_numeric type ≡ goes_on (index i neg ∷ ss) type
numeric_rest i neg ss t_unknown = refl
numeric_rest i neg ss t_root = refl
numeric_rest i neg ss t_string = refl
numeric_rest i neg ss t_hkey = refl
numeric_rest i neg ss t_object = refl
numeric_rest i neg ss t_list = refl
numeric_rest i neg ss t_special = refl
numeric_rest i neg ss t_uescape = refl

rest_match-goes_on :
    (cs : List Component) (ss : List Part) (type : JsonType)
    → SpellsAll cs ss
    → rest_match cs type ≡ goes_on ss type
rest_match-goes_on [] [] type h = refl
rest_match-goes_on [] (s ∷ ss) type h = absurd h
rest_match-goes_on (c ∷ cs) [] type h = absurd h
rest_match-goes_on (c ∷ cs) (key k ∷ ss) type h =
    ap (λ (t : PathType). type_of_rest t type) h.0.0 ∙ string_rest k ss type
rest_match-goes_on (c ∷ cs) (index i neg ∷ ss) type h =
    ap (λ (t : PathType). type_of_rest t type) h.0.0 ∙ numeric_rest i neg ss type
rest_match-goes_on (c ∷ cs) (root ∷ ss) type h = absurd h.0
rest_match-goes_on (c ∷ cs) (other ∷ ss) type h = absurd h.0

finder_match_at :
    (front : List Component) (c : Component) (cs : List Component) (parent st : State) (name : Loc)
    → parent.level ≡ length front
    → finder_match (front ++ c ∷ cs) (some parent) st name
      ≡ (if names c.ptype c parent name then rest_match cs st.type else nomatch)
finder_match_at front c cs parent st name level =
    ap (λ (x : CompInfo). level_match x parent st name)
      (drop-append parent.level front (c ∷ cs) level)

names-key :
    (c : Component) (k : Bytes) (parent : State) (name : Loc)
    → c.ptype ≡ path_string
    → c.pstr ≡ some k
    → names c.ptype c parent name ≡ same_text k (to_view name)
names-key c k parent name type str = rw (type, str)

names-index :
    (c : Component) (i : ℕ) (parent : State) (name : Loc)
    → c.ptype ≡ path_numeric
    → c.idx ≡ i
    → names c.ptype c parent name ≡ (parent.nelem == i + 1)
names-index c i parent name type idx = rw (type, idx)

finder-Resolves : Resolves finder
finder-Resolves = record {
  at_root = λ c cs ss st name h. rest_match-goes_on cs ss st.type h;
  at_member = λ front c cs k ss parent st name h type level.
      finder_match_at front c cs parent st name level
      ∙ ap (λ (b : Bool). if b then rest_match cs st.type else nomatch)
          (names-key c k parent name h.0.0 h.0.1)
      ∙ ap (λ (r : MatchResult). if same_text k (to_view name) then r else nomatch)
          (rest_match-goes_on cs ss st.type h.1);
  at_element = λ front c cs i neg ss parent st name h type level.
      finder_match_at front c cs parent st name level
      ∙ ap (λ (b : Bool). if b then rest_match cs st.type else nomatch)
          (names-index c i parent name h.0.0 h.0.1)
      ∙ ap (λ (r : MatchResult). if parent.nelem == i + 1 then r else nomatch)
          (rest_match-goes_on cs ss st.type h.1);
}

finder-Gives : Gives finder (literal doc_text) doc stale_zero doc_text 0 0 0
unfolding run_chunks text same_text
finder-Gives = record {
  fed = λ inv err j fresh on. refl;
  buffer = refl;
  in_buffer = record { front = []; more = []; split = refl; start = refl };
  small = omega arith;
}

-- the path a[1]
abbrev a_second : List Component
a_second = key_component (codes "a") ∷ record blank { ptype = path_numeric; idx = 1 } ∷ []

abbrev a_second_path : SubdocPath
a_second_path = record path_new {
  components_s = record blank { ptype = path_root } ∷ (a_second ++ replicate 30 blank);
  ncomponents = 3;
}

abbrev a_second_parts : List Part
a_second_parts = key (codes "a") ∷ index 1 false ∷ []

a_second_spelled : SpellsAll a_second a_second_parts
a_second_spelled = ((refl, refl, refl, ((λ e. omega arith), tt)), ((refl, refl), tt))

match_default-IsRequest : IsRequest match_default
match_default-IsRequest = record { last = refl; only = refl; unique = refl; cleared = refl }

a_second_found :
    seek a_second_parts doc 0 0
    ≡ some (record { offset = 8; value = Json.str (codes "x") 0; position = 1 })
unfolding seek text same_text
a_second_found = refl

exec_match-seek_example :
    Answers
      (ptr doc_text 0)
      3
      (seek a_second_parts doc 0 0)
      (exec_match finder match_default (literal doc_text) a_second_path jsn_new).0
exec_match-seek_example =
    exec_match-seek finder (literal doc_text) doc stale_zero doc_text 0 0 0 a_second_path
      (record blank { ptype = path_root }) a_second a_second_parts match_default jsn_new
      finder-Resolves finder-Gives refl refl a_second_spelled match_default-IsRequest
      jsn_new-IsReset

a_second_parsed : parse (codes "a[1]") path_new ≡ done tt a_second_path
unfolding parse subjson.Path.Parse.parse_loop subjson.Path.Parse.parse_round subjson.Path.add
    subjson.Prelude.Words.sub64 subjson.Path.Parse.parse_string subjson.Path.Parse.scan
    subjson.Path.Parse.scan_byte subjson.Path.Parse.add_str_component subjson.Path.Parse.add_key
    subjson.Path.Parse.store_key subjson.Path.Parse.parse_bracket subjson.Path.Parse.find_close
    subjson.Path.Parse.add_num_component subjson.Path.Parse.number subjson.Prelude.Words.add64
    subjson.Prelude.Words.mul64 subjson.Path.Parse.add_array_index
a_second_parsed = refl

-- GET of a[1]
abbrev get_second : Operation
get_second = record (placed SubdocApi.get [] match_default doc_text [] []) {
  m_match = match_default;
}

op_exec-seek_example :
    Fetches
      (ptr doc_text 0)
      (seek a_second_parts doc 0 0)
      (op_exec (engine finder jsn_new) (codes "a[1]") get_second)
op_exec-seek_example =
    op_exec-seek finder doc stale_zero doc_text 0 0 0 (codes "a[1]") get_second a_second_path
      (record blank { ptype = path_root }) a_second a_second_parts jsn_new finder-Resolves
      finder-Gives a_second_parsed refl refl a_second_spelled match_default-IsRequest
      jsn_new-IsReset refl

-- GET_COUNT of a
abbrev size_a : Operation
size_a = record get_second { m_optype = SubdocApi.get_count }

abbrev a_path : SubdocPath
a_path = key_path (codes "a")

a_parsed : parse (codes "a") path_new ≡ done tt a_path
unfolding parse subjson.Path.Parse.parse_loop subjson.Path.Parse.parse_round subjson.Path.add
    subjson.Prelude.Words.sub64 subjson.Path.Parse.parse_string subjson.Path.Parse.scan
    subjson.Path.Parse.scan_byte subjson.Path.Parse.add_str_component subjson.Path.Parse.add_key
    subjson.Path.Parse.store_key
a_parsed = refl

op_exec-size_example :
    Sizes (seek (key (codes "a") ∷ []) doc 0 0) (op_exec (engine finder jsn_new) (codes "a") size_a)
op_exec-size_example =
    op_exec-size finder doc stale_zero doc_text 0 0 0 (codes "a") size_a a_path
      (record blank { ptype = path_root }) (key_component (codes "a") ∷ []) (key (codes "a") ∷ [])
      jsn_new finder-Resolves finder-Gives a_parsed refl refl
      ((refl, refl, refl, ((λ e. omega arith), tt)), tt) match_default-IsRequest jsn_new-IsReset
      refl

-- REPLACE of a[1]
abbrev replace_second : Operation
replace_second = record (placed SubdocApi.replace (codes "9") match_default doc_text [] []) {
  m_match = match_default;
}

abbrev replace_parsed : Operation
replace_parsed = record replace_second { m_path = a_second_path }

nine_valid :
    Exec.validate
      (engine finder jsn_new)
      parent_dict
      (get_maxdepth path_has_newkey replace_parsed)
      replace_parsed
    ≡ success
unfolding Exec.validate get_maxdepth engine subjson.Validate.Run.validate
    subjson.Validate.Run.validate_as subjson.Validate.Run.wrapper subjson.Validate.Run.prepare
    subjson.Validate.Run.feed_wrapped run deliver arrive same_text actions text
    subjson.Match.Callbacks.invoke subjson.Validate.Callbacks.validate_callback
nine_valid = refl

op_exec-replace_example :
    (pre : Bytes) × (post : Bytes) × (doc_text ≡ pre ++ (text (Json.str (codes "x") 0) ++ post))
    × (length pre ≡ 8)
    × Produces
        (op_exec (engine finder jsn_new) (codes "a[1]") replace_second)
        (pre ++ (codes "9" ++ post))
op_exec-replace_example =
    op_exec-replace finder doc stale_zero doc_text 0 0 (codes "a[1]") replace_second a_second_path
      (record blank { ptype = path_root }) a_second a_second_parts jsn_new
      (record { offset = 8; value = Json.str (codes "x") 0; position = 1 }) finder-Resolves
      finder-Gives a_second_parsed refl refl a_second_spelled match_default-IsRequest
      jsn_new-IsReset refl refl refl refl nine_valid a_second_found

-- REPLACE of a.x, which the array a has not
abbrev x_path : SubdocPath
x_path = key_path_two (codes "a") (codes "x")

abbrev replace_x : Operation
replace_x = record replace_second { m_path = x_path }

x_valid :
    Exec.validate
      (engine finder jsn_new)
      parent_dict
      (get_maxdepth path_has_newkey replace_x)
      replace_x
    ≡ success
unfolding Exec.validate get_maxdepth engine subjson.Validate.Run.validate
    subjson.Validate.Run.validate_as subjson.Validate.Run.wrapper subjson.Validate.Run.prepare
    subjson.Validate.Run.feed_wrapped run deliver arrive same_text actions text
    subjson.Match.Callbacks.invoke subjson.Validate.Callbacks.validate_callback
x_valid = refl

x_parsed : parse (codes "a.x") path_new ≡ done tt x_path
unfolding parse subjson.Path.Parse.parse_loop subjson.Path.Parse.parse_round subjson.Path.add
    subjson.Prelude.Words.sub64 subjson.Path.Parse.parse_string subjson.Path.Parse.scan
    subjson.Path.Parse.scan_byte subjson.Path.Parse.add_str_component subjson.Path.Parse.add_key
    subjson.Path.Parse.store_key
x_parsed = refl

x_missing : seek (key (codes "a") ∷ key (codes "x") ∷ []) doc 0 0 ≡ none
unfolding seek same_text
x_missing = refl

op_exec-replace_missing_example :
    ((op_exec (engine finder jsn_new) (codes "a.x") replace_second).0 ≡ SubdocApi.path_enoent)
    ⊎ ((op_exec (engine finder jsn_new) (codes "a.x") replace_second).0 ≡ SubdocApi.path_mismatch)
op_exec-replace_missing_example =
    op_exec-replace_missing finder doc stale_zero doc_text 0 0 0 (codes "a.x") replace_second x_path
      (record blank { ptype = path_root })
      (key_component (codes "a") ∷ key_component (codes "x") ∷ [])
      (key (codes "a") ∷ key (codes "x") ∷ []) jsn_new finder-Resolves finder-Gives x_parsed refl
      refl
      (
        (refl, refl, refl, ((λ e. omega arith), tt)),
        ((refl, refl, refl, ((λ e. omega arith), tt)), tt),
      )
      match_default-IsRequest jsn_new-IsReset refl refl x_valid x_missing
