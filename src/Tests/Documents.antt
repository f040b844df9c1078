-- ===== src/Tests/Documents.antt =====
-- The operations on concrete documents.
use subjson.Jsonsl.{complete, t_special}
use subjson.Loc.Splice.{span, enclosed}
use subjson.Match.{Match, get_following_siblings, match_default}
use subjson.Operations.{Operation}
use subjson.Operations.ArrayText.{append-Produces, insert-Produces, prepend-Produces}
use subjson.Operations.Arrays.{append_matched, insert_matched, prepend_matched}
use subjson.Operations.Layout.{Found, Produces, searched}
use subjson.Operations.RemoveText.{Doomed, Stays, at_end, remove-Produces}
use subjson.Operations.Store.{do_store_dict, do_remove, key_bytes}
use subjson.Operations.StoreText.{store-replaces, store-adds}
use subjson.Path.{back}
use subjson.Prelude.{
  ℕ, ◌^◌, ◌<◌, ◌≡◌, ◌≢◌, refl, true, false, not, [], ◌∷◌, ◌++◌, length, arith, some, All,
}
use subjson.SubdocApi
use subjson.SubdocApi.{success, delta_overflow, value_cantinsert}
use subjson.Tests.Data.{codes, placed, placed-Found, a_value, a_list, a_parent, finds, key_path}

-- {"a":1} with the value found
abbrev replacing : Operation
replacing = placed SubdocApi.replace (codes "22") a_value (codes "{\"a\":") (codes "1") (codes "}")

store-replaces_example :
    Produces (do_store_dict replacing) (codes "{\"a\":" ++ (codes "22" ++ codes "}"))
store-replaces_example =
    store-replaces replacing (codes "{\"a\":1}") (codes "{\"a\":") (codes "1") (codes "}")
      (placed-Found SubdocApi.replace (codes "22") a_value (codes "{\"a\":") (codes "1") (codes "}")
        (omega arith))
      refl refl (unfold SubdocApi.base in omega arith)

-- {"a":1} with the parent found
abbrev adding : Operation
adding = record (placed SubdocApi.dict_add (codes "22") a_parent [] (codes "{\"a\":1}") []) {
  m_path = key_path (codes "b");
}

adding-Found : Found adding (codes "{\"a\":1}") [] (enclosed b'{' (codes "\"a\":1") b'}') []
adding-Found = record {
  whole_doc = refl;
  cut = record { doc_is = refl; loc_is = refl; small = omega arith };
  slots = refl;
}

store-adds_example : Produces (do_store_dict adding) (
    codes "{\"a\":1"
    ++ (codes ","
        ++ (b'"' ∷ (key_bytes (back adding.m_path) ++ (b'"' ∷ b':' ∷ (codes "22" ++ codes "}"))))))
unfolding subjson.Prelude.Words.sub64
store-adds_example =
    store-adds adding (codes "{\"a\":1}") [] (codes "\"a\":1") [] b'{' b'}' adding-Found refl refl
      (omega arith) refl

-- [1] with the array found
abbrev in_array : Operation
in_array = placed SubdocApi.array_append (codes "22") a_list [] (codes "[1]") []

append-Produces_example : Produces (append_matched false in_array) (codes "[1" ++ codes ",22]")
append-Produces_example =
    append-Produces in_array (codes "[1]") [] (codes "1") [] b'[' b']'
      (placed-Found SubdocApi.array_append (codes "22") a_list [] (codes "[1]") [] (omega arith))
      false refl refl refl

abbrev at_the_end : Operation
at_the_end = placed SubdocApi.array_insert (codes "22") a_parent [] (codes "[1]") []

insert-Produces_example : Produces (insert_matched 1 at_the_end) (codes "[1" ++ codes ",22]")
insert-Produces_example =
    insert-Produces at_the_end (codes "[1]") [] (codes "1") [] b'[' b']'
      (placed-Found SubdocApi.array_insert (codes "22") a_parent [] (codes "[1]") [] (omega arith))
      refl refl

abbrev in_front : Operation
in_front = placed SubdocApi.array_prepend (codes "22") a_value (codes "[") (codes "1") (codes "]")

prepend-Produces_example : Produces (prepend_matched in_front) (codes "[" ++ codes "22,1]")
prepend-Produces_example =
    prepend-Produces in_front (codes "[1]") (codes "[") (codes "1") (codes "]")
      (placed-Found SubdocApi.array_prepend (codes "22") a_value (codes "[") (codes "1") (codes "]")
        (omega arith))
      refl

-- {"a":1, "b":2} with the last member found
abbrev last_member : Match
last_member = record match_default {
  matchres = complete;
  type = t_special;
  num_siblings = 1;
  position = 1;
  loc_key = span (codes "{\"a\":1, \"b\":2}") 8 3;
  loc_deepest = span (codes "{\"a\":1, \"b\":2}") 12 1;
}

abbrev removing : Operation
removing =
    placed SubdocApi.remove [] match_default (codes "{\"a\":1, ") (codes "\"b\":2") (codes "}")

removing-Doomed :
    Doomed
      (searched (finds last_member) get_following_siblings removing)
      (codes "{\"a\":1, \"b\":2}")
      (codes "{\"a\":1, ")
      (codes "2")
      (codes "}")
removing-Doomed = record {
  whole_doc = refl;
  start = codes "\"b\"";
  following = codes ":2}";
  at_start = record { doc_is = refl; loc_is = refl; small = omega arith };
  front = codes "{\"a\":1, \"b\":";
  at_value = record { doc_is = refl; loc_is = refl; small = omega arith };
  slots = refl;
}

removing-Stays :
    Stays
      (searched (finds last_member) get_following_siblings removing)
      (codes "{\"a\":1, ")
      (codes "}")
      (codes "{\"a\":1")
      (codes "}")
removing-Stays = at_end (codes "{\"a\":1") (codes " ") (omega arith) refl refl (omega arith)

remove-Produces_example :
    Produces (do_remove (finds last_member) removing) (codes "{\"a\":1" ++ codes "}")
remove-Produces_example =
    remove-Produces (finds last_member) removing (codes "{\"a\":1, \"b\":2}") (codes "{\"a\":1, ")
      (codes "2") (codes "}") (codes "{\"a\":1") (codes "}") refl refl removing-Doomed
      removing-Stays
