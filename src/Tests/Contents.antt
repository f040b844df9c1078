-- ===== src/Tests/Contents.antt =====
-- `do_mkdir_p` and `do_empty_append` at concrete documents.
use subjson.Operations.Arrays.{do_empty_append}
use subjson.Operations.EmptyAppend.{IsArrayText, do_empty_append-Produces}
use subjson.Loc.Splice.{enclosed}
use subjson.Operations.{Operation}
use subjson.Operations.Layout.{Found, Produces}
use subjson.Operations.MkdirText.{made, mkdir_p-Produces}
use subjson.Operations.Store.{do_mkdir_p, mkdir_p_dict}
use subjson.Loc.{Bytes}
use subjson.Jsonsl.{path_root}
use subjson.Path.{blank}
use subjson.Prelude.{◌∷◌, ◌≡◌, inl, refl, [], ◌++◌, arith}
use subjson.SubdocApi
use subjson.Tests.Data.{codes, placed, a_parent, key_path_two, key_component}

-- {"a":1} with the path b.c, of which nothing is there
abbrev making : Operation
making =
    record (placed SubdocApi.dict_upsert_p (codes "22") (record a_parent { match_level = 1 }) []
      (codes "{\"a\":1}") []) { m_path = key_path_two (codes "b") (codes "c") }

abbrev made_text : Bytes
made_text =
    made mkdir_p_dict 1 (key_component (codes "b")) (key_component (codes "c") ∷ []) (codes "22")

made_text_is : made_text ≡ codes ",\"b\":{\"c\":22}"
made_text_is = refl

making-Found : Found making (codes "{\"a\":1}") [] (enclosed b'{' (codes "\"a\":1") b'}') []
making-Found = record {
  whole_doc = refl;
  cut = record { doc_is = refl; loc_is = refl; small = omega arith };
  slots = refl;
}

mkdir_p-Produces_example :
    Produces (do_mkdir_p mkdir_p_dict making) (codes "{\"a\":1" ++ (made_text ++ codes "}"))
mkdir_p-Produces_example =
    mkdir_p-Produces mkdir_p_dict making (codes "{\"a\":1}") [] (codes "\"a\":1") [] b'{' b'}'
      (record blank { ptype = path_root } ∷ []) (key_component (codes "c") ∷ [])
      (key_component (codes "b")) making-Found refl refl refl refl (refl, tt) (omega arith)

-- "[1 ] " as the whole document
abbrev appending : Operation
appending = placed SubdocApi.array_append (codes "22") a_parent [] (codes "[1 ] ") []

appending-IsArrayText : IsArrayText appending (codes "[") (codes " ") (codes " ") b'1'
appending-IsArrayText = record {
  whole_doc = refl;
  inner = (inl refl, tt);
  outer = (inl refl, tt);
  solid = λ h. ground arith;
  small = omega arith;
  slots = refl;
}

do_empty_append-Produces_example : Produces (do_empty_append appending) (codes "[1" ++ codes ",22]")
do_empty_append-Produces_example =
    do_empty_append-Produces appending (codes "[") (codes " ") (codes " ") b'1'
      appending-IsArrayText
