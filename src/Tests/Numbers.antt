-- ===== src/Tests/Numbers.antt =====
-- The helpers of src/utils.h on concrete numbers.
use rocdbgapi.Base.{◌+◌, ◌%◌, ◌^◌, ◌≤◌, ◌<◌, ◌≡◌, arith}
use rocdbgapi.Utils.{align_up}
use rocdbgapi.Utils.Align.{align_up_bounds}

align_up_bounds_example :
    (align_up 1234 (2 ^ 6) % 2 ^ 6 ≡ 0)
    × (1234 ≤ align_up 1234 (2 ^ 6))
    × (align_up 1234 (2 ^ 6) < 1234 + 2 ^ 6)
align_up_bounds_example = align_up_bounds 1234 6 (omega arith) (omega arith)
