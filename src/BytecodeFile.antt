-- ===== src/BytecodeFile.antt =====
-- Files of bytecode, src/bytecode_io.cpp: `v4front_save_bytecode` and `v4front_load_bytecode`. A
-- pointer that is not null is `some`. The header is written as the little-endian machine lays out
-- `V4BytecodeHeader` of include/v4front/compile.h, 16 bytes without padding.
pub mod RoundTrip
use v4_front.Base.{
  ℤ, pos, negsuc, ℕ, zero, suc, ◌+◌, ◌-◌, ◌*◌, ◌%◌, ◌^◌, Bool, true, false, ◌&&◌, List, [], ◌∷◌,
  ◌++◌, Option, none, some, Bytes, length, take, drop, ltb, leb, ◌==◌, if◌then◌else◌,
}
use v4_front.Text.{str_eq}
use v4_front.Buffer.{i16_le, i32_le}
use v4_front.Compiler.Words.{from_i32_le}
use v4_front.Compiler.Driver.{V4FrontBuf}

-- "V4BC"
abbrev pub v4b_magic : Bytes
v4b_magic = 0x56 ∷ 0x34 ∷ 0x42 ∷ 0x43 ∷ []

abbrev pub v4b_version_major : ℕ
v4b_version_major = 0

abbrev pub v4b_version_minor : ℕ
v4b_version_minor = 1

pub record V4BytecodeHeader : Type 0 where
  pub magic : Bytes
  pub version_major : ℕ
  pub version_minor : ℕ
  pub flags : ℕ
  pub code_size : ℕ
  pub reserved : ℕ

-- `sizeof(header)`
abbrev pub header_size : ℕ
header_size = 16

unfoldable pub header_bytes : V4BytecodeHeader → Bytes
unfolding i16_le i32_le
header_bytes h =
    h.magic
    ++ (h.version_major
        ∷ h.version_minor
        ∷ (i16_le h.flags ++ (i32_le h.code_size ++ i32_le h.reserved)))

-- `Build header`: the size is cast to 32 bits.
abbrev pub header_of : ℕ → V4BytecodeHeader
header_of size = record {
  magic = v4b_magic;
  version_major = v4b_version_major;
  version_minor = v4b_version_minor;
  flags = 0;
  code_size = size % 2 ^ 32;
  reserved = 0;
}

-- What the C library and the file system do: whether the file opens; how many bytes `fwrite` takes
-- before it falls short; and how many of the bytes taken are in the file after `fclose`, which writes
-- out what is still buffered.
pub record Device : Type 0 where
  pub opens : Bool
  pub room : ℕ
  pub stored : ℕ

-- `fclose`, whose result is not looked at: the file's bytes.
abbrev pub closed : Device → Bytes → Option Bytes
closed dev taken = some (take dev.stored taken)

-- The value returned, and the file's bytes if it was opened.
unfoldable pub write_file : Device → Bytes → ℤ × Option Bytes
unfolding header_bytes
write_file dev code =
    let header = header_bytes (header_of (length code)) in
    if ltb dev.room (length header)
    then (negsuc 2, closed dev (take dev.room header))
    else if ltb (dev.room - length header) (length code)
    then (negsuc 3, closed dev (header ++ take (dev.room - length header) code))
    else (pos 0, closed dev (header ++ code))

-- `data` is null where the code is empty.
unfoldable pub save_bytecode : Device → Option V4FrontBuf → Bool → ℤ × Option Bytes
unfolding write_file
save_bytecode dev none named = (negsuc 0, none)
save_bytecode dev (some buf) false = (negsuc 0, none)
save_bytecode dev (some buf) true =
    if length buf.code == 0
    then (negsuc 0, none)
    else if dev.opens
    then write_file dev buf.code
    else (negsuc 1, none)

-- The fields of a header that are looked at. The version is none of them.
unfoldable pub header_code_size : Bytes → ℕ
unfolding from_i32_le
header_code_size header = from_i32_le (take 4 (drop 8 header))

-- Behind the header: the code, if memory is given and the file holds it all.
unfoldable pub read_code : (ℕ → Bool) → ℕ → Bytes → ℤ × Option V4FrontBuf
read_code alloc code_size rest =
    if alloc code_size
    then (if ltb (length rest) code_size
        then (negsuc 5, none)
        else (pos 0, some (record { words = []; code = take code_size rest })))
    else (negsuc 4, none)

unfoldable pub read_file : (ℕ → Bool) → Bytes → ℤ × Option V4FrontBuf
unfolding header_code_size read_code str_eq
read_file alloc file =
    if ltb (length file) header_size
    then (negsuc 2, none)
    else if str_eq (take 4 file) v4b_magic
    then read_code alloc (header_code_size file) (drop header_size file)
    else (negsuc 3, none)

-- `file` is what the name leads to, `none` where it cannot be opened; `output` is `*out_buf` if it is
-- written.
unfoldable pub load_bytecode : (ℕ → Bool) → Bool → Bool → Option Bytes → ℤ × Option V4FrontBuf
unfolding read_file
load_bytecode alloc named has_out none =
    if named && has_out then (negsuc 1, none) else (negsuc 0, none)
load_bytecode alloc named has_out (some file) =
    if named && has_out then read_file alloc file else (negsuc 0, none)
