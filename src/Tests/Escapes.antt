-- ===== src/Tests/Escapes.antt =====
-- The \u converter at concrete strings.
use subjson.Loc.{to_view}
use subjson.HashKey.{get_hk, hk_rawloc, keyed, hash_key_new, get_hk-key, hk_rawloc-key}
use subjson.Prelude.{◌≡◌, true, false, inl, inr, List, [], ◌∷◌, ◌++◌, arith, some, All}
use subjson.Tests.Data.{codes}
use subjson.Uescape.{success, invalid_surrogate, append_utf8, convert}
use subjson.Uescape.Anomalies.{convert_doubled_backslash, convert_refuses, broken_pair, faulty}
use subjson.Uescape.RoundTrip.{
  Item, IsItem, raw, escape, code, unit, spell, all_converted, idle, convert-spell,
}
use subjson.Uescape.Units.{Capitals}
use subjson.Uescape.Utf8.{utf8, IsScalar, append_utf8-decode, decode_utf8}

euro_IsScalar : IsScalar 0x20ac
euro_IsScalar = ((omega arith), inl (omega arith))

append_utf8-decode_example :
    (append_utf8 (idle []) 0x20ac ≡ record (idle []) { m_out = utf8 0x20ac })
    × (decode_utf8 (utf8 0x20ac ++ codes "x") ≡ some (0x20ac, codes "x"))
append_utf8-decode_example = append_utf8-decode 0x20ac (idle []) (codes "x") euro_IsScalar

-- capitals among the digits
abbrev mixed : Capitals
mixed = record { first = true; second = false; third = true; fourth = true }

abbrev items : List Item
items = raw b'a' ∷ escape b'n' ∷ code 0x20ac mixed mixed ∷ code 0x1f600 mixed mixed ∷ []

items-IsItem : All IsItem items
items-IsItem = ground arith

convert-spell_example : convert (spell items []) [] ≡ (success, [] ++ all_converted items)
convert-spell_example = convert-spell items [] items-IsItem

convert_doubled_backslash_example :
    convert (spell items (b'\\' ∷ unit mixed 0x4b (spell items []))) (codes "k")
    ≡ (success, codes "k" ++ (all_converted items ++ b'\\' ∷ (utf8 0x4b ++ all_converted items)))
convert_doubled_backslash_example =
    convert_doubled_backslash mixed 0x4b items items (codes "k") ((omega arith), inl (omega arith))
      (omega arith) (omega arith) items-IsItem items-IsItem

convert_refuses_example :
    convert (spell items (faulty broken_pair mixed mixed 0xd800 0xe000 (codes "z"))) []
    ≡ (invalid_surrogate, [] ++ all_converted items)
convert_refuses_example =
    convert_refuses items broken_pair mixed mixed 0xd800 0xe000 (codes "z") [] items-IsItem
      ((omega arith), (omega arith), (omega arith), (omega arith), inr (omega arith))

-- {"a\n":1}, whose key has one escape
get_hk-key_example :
    (to_view (get_hk (keyed hash_key_new (codes "{") (codes "a\\n") (codes ":1}") 1 1)).0
      ≡ (convert (codes "a\\n") []).1)
    × (to_view
          (get_hk (get_hk (keyed hash_key_new (codes "{") (codes "a\\n") (codes ":1}") 1 1)).1).0
        ≡ to_view (get_hk (keyed hash_key_new (codes "{") (codes "a\\n") (codes ":1}") 1 1)).0)
get_hk-key_example =
    get_hk-key hash_key_new (codes "{") (codes "a\\n") (codes ":1}") 1 1 (omega arith) (omega arith)

hk_rawloc-key_example :
    to_view (hk_rawloc (keyed hash_key_new (codes "{") (codes "ab") (codes ":1}") 1 0))
    ≡ codes "\"ab\""
hk_rawloc-key_example =
    hk_rawloc-key hash_key_new (codes "{") (codes "ab") (codes ":1}") 1 0 (omega arith)
      (omega arith)
