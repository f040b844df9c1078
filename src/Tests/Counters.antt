-- ===== src/Tests/Counters.antt =====
-- The counter and `op_exec` at concrete inputs.
use subjson.Loc.{Bytes}
use subjson.Loc.Splice.{span}
use subjson.Match.{match_default}
use subjson.Operations.{Engine, Operation}
use subjson.Operations.Counter.{
  do_arith_op, to_string_int, in_int64, would_overflow, parse_int64, parsed, is_zero,
}
use subjson.Operations.Counter.CountText.{counter-Produces, counter_refuses, count_options}
use subjson.Operations.Counter.Canonical.{parse_int64_canonical}
use subjson.Operations.Counter.Numerals.{parse_int64-to_string_int}
use subjson.Operations.Counter.Range.{would_overflow-in_int64}
use subjson.Operations.Exec.{op_exec}
use subjson.Operations.Guards.{op_exec-Accepted, op_exec_root, Accepted}
use subjson.Operations.Layout.{Found, Produces, searched}
use subjson.Operations.Store.{literal}
use subjson.Path.{SubdocPath, path_new}
use subjson.Path.Parse.{parse, done}
use subjson.Path.Parse.Total.{start}
use subjson.Prelude.Int.{pos, negsuc, ◌+ℤ◌}
use subjson.Prelude.{◌≡◌, refl, true, false, not, [], ◌++◌, length, arith}
use subjson.SubdocApi
use subjson.SubdocApi.{success, delta_overflow, value_cantinsert}
use subjson.Tests.Data.{codes, path_new-IsReady, placed, a_value, finds}

-- an engine that finds the number in [n]
abbrev finds_in : Bytes → Bytes → Engine
finds_in pre num =
    finds
      (record a_value { loc_deepest = span (pre ++ (num ++ codes "]")) (length pre) (length num) })

abbrev counting : Bytes → Bytes → Operation
counting delta num = placed SubdocApi.counter delta match_default (codes "[") num (codes "]")

abbrev counted : Bytes → Bytes → Operation
counted delta num =
    searched (finds_in (codes "[") num) (count_options (counting delta num)) (counting delta num)

asked_one : parse_int64 (literal (codes "1")) ≡ parsed (pos 1)
unfolding parse_int64
asked_one = refl

number_41 : to_string_int (pos 41) ≡ codes "41"
unfolding to_string_int subjson.Decimal.to_string
number_41 = refl

counted-Found :
    (delta : Bytes)
    → Found
        (counted delta (codes "41"))
        (codes "[41]")
        (codes "[")
        (to_string_int (pos 41))
        (codes "]")
unfolding to_string_int SubdocApi.is_mkdir_p subjson.Decimal.to_string
counted-Found delta = record {
  whole_doc = refl;
  cut = record { doc_is = refl; loc_is = refl; small = omega arith };
  slots = refl;
}

counter-Produces_example :
    Produces
      (do_arith_op (finds_in (codes "[") (codes "41")) (counting (codes "1") (codes "41")))
      (codes "[" ++ (to_string_int (pos 41 +ℤ pos 1) ++ codes "]"))
counter-Produces_example =
    counter-Produces (finds_in (codes "[") (codes "41")) (counting (codes "1") (codes "41"))
      (codes "[41]") (codes "[") (codes "]") (pos 41) (pos 1) asked_one refl refl
      (counted-Found (codes "1")) refl refl refl refl (unfold ◌+ℤ◌ in refl)

abbrev most : Bytes
most = codes "9223372036854775807"

asked_most : parse_int64 (literal most) ≡ parsed (pos 9223372036854775807)
unfolding parse_int64
asked_most = refl

counter_refuses_example :
    do_arith_op (finds_in (codes "[") (codes "41")) (counting most (codes "41"))
    ≡ (delta_overflow, counted most (codes "41"))
counter_refuses_example =
    counter_refuses (finds_in (codes "[") (codes "41")) (counting most (codes "41")) (codes "[41]")
      (codes "[") (codes "]") (pos 41) (pos 9223372036854775807) asked_most refl refl
      (counted-Found most) refl refl refl refl (unfold ◌+ℤ◌ in refl)

would_overflow-in_int64_example :
    would_overflow (negsuc 5) (negsuc 9223372036854775806)
    ≡ not (in_int64 (negsuc 9223372036854775806 +ℤ negsuc 5))
would_overflow-in_int64_example =
    would_overflow-in_int64 (negsuc 5) (negsuc 9223372036854775806) refl refl

parse_int64-to_string_int_example :
    parse_int64 (literal (to_string_int (negsuc 41))) ≡ parsed (negsuc 41)
parse_int64-to_string_int_example = parse_int64-to_string_int (negsuc 41) refl refl

parse_int64_canonical_example :
    (codes "1" ≡ to_string_int (pos 1)) × (in_int64 (pos 1) ≡ true) × (is_zero (pos 1) ≡ false)
parse_int64_canonical_example = parse_int64_canonical (literal (codes "1")) (pos 1) asked_one

-- REPLACE of "a" in {"a":1}
abbrev replace_a : Operation
replace_a =
    placed SubdocApi.replace (codes "22") match_default (codes "{\"a\":") (codes "1") (codes "}")

abbrev finds_a : Engine
finds_a = finds (record a_value { loc_deepest = span (codes "{\"a\":1}") 5 1 })

replace_a_success : (op_exec finds_a (codes "a") replace_a).0 ≡ success
unfolding op_exec parse subjson.Path.Parse.parse_loop subjson.Path.Parse.parse_round
    subjson.Path.Parse.parse_string subjson.Path.Parse.scan subjson.Path.Parse.scan_byte
    subjson.Path.Parse.add_str_component subjson.Path.Parse.add_key subjson.Path.add
    subjson.Path.Parse.store_key subjson.Operations.Exec.dispatch subjson.Operations.Exec.exec_store
replace_a_success = refl

op_exec-Accepted_example :
    (q : SubdocPath) × (parse (codes "a") path_new ≡ done tt q)
    × Accepted finds_a (record replace_a { m_path = q })
op_exec-Accepted_example =
    op_exec-Accepted finds_a (codes "a") replace_a path_new-IsReady refl replace_a_success

op_exec_root_example :
    op_exec finds_a [] replace_a ≡ (value_cantinsert, record replace_a { m_path = start path_new })
op_exec_root_example = op_exec_root finds_a replace_a refl
