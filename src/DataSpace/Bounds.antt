-- ===== src/DataSpace/Bounds.antt =====
-- Where the cells of VARIABLE lie.
use v4_front.Base.{◌+◌, ◌^◌, ◌≤◌, ◌<◌, ◌≡◌, arith}
use v4_front.Result.{ok}
use v4_front.DataSpace.{DataSpace, allot}

-- A cell of four bytes at `here`, if it ends by the limit.
pub allot-cell :
    (s : DataSpace)
    → s.here + 4 ≤ s.limit
    → s.limit < 2 ^ 32
    → allot 4 s ≡ ok (s.here, record s { here = s.here + 4 })
unfolding allot
allot-cell s room small = ground arith
