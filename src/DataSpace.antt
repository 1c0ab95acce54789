-- ===== src/DataSpace.antt =====
-- `DataSpace` of src/compile.cpp, from which VARIABLE takes its cells.
pub mod Bounds
use v4_front.Base.{ℕ, ◌+◌, ◌*◌, ◌/◌, ◌%◌, ◌^◌, none, ltb, if◌then◌else◌}
use v4_front.Result.{Result, ok, err, data_space_exhausted}

abbrev pub data_space_base : ℕ
data_space_base = 0x10000

abbrev pub data_space_size : ℕ
data_space_size = 0x10000

pub record DataSpace : Type 0 where
  pub base : ℕ
  pub here : ℕ
  pub limit : ℕ

-- `base_addr + size` on `uint32_t`
unfoldable pub init : ℕ → ℕ → DataSpace
init base_addr size = record {
  base = base_addr;
  here = base_addr;
  limit = (base_addr + size) % 2 ^ 32;
}

-- `(bytes + 3) & ~3u` on `uint32_t`
unfoldable pub align4 : ℕ → ℕ
align4 bytes = (bytes + 3) % 2 ^ 32 / 4 * 4

-- The address and the space behind it.
unfoldable pub allot : ℕ → DataSpace → Result (ℕ × DataSpace)
unfolding align4
allot bytes s =
    if ltb s.limit ((s.here + align4 bytes) % 2 ^ 32)
    then err data_space_exhausted none
    else ok (s.here, record s { here = (s.here + align4 bytes) % 2 ^ 32 })

unfoldable pub get_here : DataSpace → ℕ
get_here s = s.here

unfoldable pub reset : DataSpace → DataSpace
reset s = record s { here = s.base }
