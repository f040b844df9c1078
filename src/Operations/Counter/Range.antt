-- ===== src/Operations/Counter/Range.antt =====
-- The overflow tests of the counter.
use subjson.Operations.Counter.{in_int64, would_overflow}
use subjson.Prelude.Int.{ℤ, pos, negsuc, ◌+ℤ◌, ◌-ℤ◌}
use subjson.Prelude.{◌≡◌, arith, true, not}

-- The tests in front of the addition refuse exactly the sums that no signed 64-bit integer holds,
-- when both numbers are in range.
pub would_overflow-in_int64 :
    (delta numres : ℤ)
    → in_int64 delta ≡ true
    → in_int64 numres ≡ true
    → would_overflow delta numres ≡ not (in_int64 (numres +ℤ delta))
unfolding would_overflow ◌+ℤ◌ ◌-ℤ◌
would_overflow-in_int64 (pos a) (pos b) ha hb = ground arith
would_overflow-in_int64 (pos a) (negsuc b) ha hb = ground arith
would_overflow-in_int64 (negsuc a) (pos b) ha hb = ground arith
would_overflow-in_int64 (negsuc a) (negsuc b) ha hb = ground arith
