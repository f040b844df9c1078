-- ===== src/Tests/Data.antt =====
-- Documents, searches and engines at which the theorems are run.
use Prim.Native.Char.{code}
use Prim.Native.String.{String}
use subjson.Jsonsl.{JsonslError, complete, t_list, t_special, path_root, path_string}
use subjson.Loc.{Bytes}
use subjson.Loc.Splice.{span, whole}
use subjson.Match.{Match, match_default}
use subjson.Operations.Layout.{Found}
use subjson.Operations.Store.{literal}
use subjson.Operations.{Engine, Operation, result_new}
use subjson.Path.{SubdocPath, path_new, blank, Component}
use subjson.Path.Parse.State.{IsReady}
use subjson.Prelude.{◌^◌, ◌<◌, refl, true, some, replicate, [], ◌∷◌, ◌++◌, length}
use subjson.SubdocApi.{Command}
use subjson.Validate.{json}

-- the code points of a literal, which is ASCII throughout
abbrev pub codes : String → Bytes
codes String.[] = []
codes (String.◌∷◌ c s) = code c ∷ codes s

pub path_new-IsReady : IsReady path_new
path_new-IsReady = record { array = refl; cached = tt }

-- an operation on the document `pre mid post` whose match stands at `mid`
abbrev pub placed : Command → Bytes → Match → Bytes → Bytes → Bytes → Operation
placed command value m pre mid post = record {
  m_path = path_new;
  m_match = record m { loc_deepest = span (pre ++ (mid ++ post)) (length pre) (length mid) };
  m_optype = command;
  m_doc = whole (pre ++ (mid ++ post));
  m_userval = literal value;
  m_result = result_new;
}

pub placed-Found :
    (command : Command) (value : Bytes) (m : Match) (pre mid post : Bytes)
    → length (pre ++ (mid ++ post)) < 2 ^ 63
    → Found (placed command value m pre mid post) (pre ++ (mid ++ post)) pre mid post
placed-Found command value m pre mid post h = record {
  whole_doc = refl;
  cut = record { doc_is = refl; loc_is = refl; small = h };
  slots = refl;
}

abbrev pub a_value : Match
a_value = record match_default { matchres = complete; type = t_special }

abbrev pub a_list : Match
a_list = record match_default { matchres = complete; type = t_list; num_children = 1 }

-- the parent, with one member
abbrev pub a_parent : Match
a_parent = record match_default { immediate_parent_found = true; num_siblings = 1 }

-- An engine that finds this match and accepts every value.
abbrev pub finds : Match → Engine
finds m = record { exec_match = λ _ _ _. m; validate = λ _ _ _. json JsonslError.success }

-- the component of a key
abbrev pub key_component : Bytes → Component
key_component s = record blank { ptype = path_string; pstr = some s; len = length s }

-- the path of one key
abbrev pub key_path : Bytes → SubdocPath
key_path s = record path_new {
  components_s = record blank { ptype = path_root } ∷ key_component s ∷ replicate 31 blank;
  ncomponents = 2;
}

-- the path of a key under a key
abbrev pub key_path_two : Bytes → Bytes → SubdocPath
key_path_two s t = record path_new {
  components_s =
      record blank { ptype = path_root } ∷ key_component s ∷ key_component t ∷ replicate 30 blank;
  ncomponents = 3;
}
