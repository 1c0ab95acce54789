-- ===== src/Compiler/Composite.antt =====
-- The words that `compile_internal` of src/compile.cpp expands to a fixed run of code: EXIT, EMIT,
-- KEY, J, K, ROT and the other composite words.
use v4_front.Base.{ℕ, List, [], ◌∷◌, ◌++◌, Bytes, map}
use v4_front.Platform.{Platform, Op}

-- The words looked for before the dictionary: `exit emit key`; those behind it are the rest.
pub data Composite : Type 0 where
  exit emit_char key : Composite
  j k rot nip tuck negate qdup abs min max zero_eq zero_lt zero_gt two_dup two_drop : Composite
  two_swap two_over plus_store true_flag false_flag : Composite

-- One `append_byte` call: of an opcode, or of a byte written out.
pub data Piece : Type 0 where
  op : Op → Piece
  byte : ℕ → Piece

abbrev pub piece_byte : Platform → Piece → ℕ
piece_byte pl (op o) = pl.op_byte o
piece_byte pl (byte n) = n

abbrev ops_of : List Op → List Piece
ops_of = map op

-- `emit_rot_instruction`: >R SWAP R> SWAP
abbrev pub rot_instruction : List Op
rot_instruction = Op.tor ∷ Op.swap ∷ Op.fromr ∷ Op.swap ∷ []

-- `emit_j_instruction`: R> three times, DUP, >R three times
abbrev pub j_instruction : List Op
j_instruction = Op.fromr ∷ Op.fromr ∷ Op.fromr ∷ Op.dup ∷ Op.tor ∷ Op.tor ∷ Op.tor ∷ []

-- `emit_k_instruction`: R> five times, DUP, >R five times
abbrev pub k_instruction : List Op
k_instruction =
    Op.fromr ∷ Op.fromr ∷ Op.fromr ∷ Op.fromr ∷ Op.fromr ∷ Op.dup ∷ Op.tor ∷ Op.tor ∷ Op.tor
    ∷ Op.tor ∷ Op.tor ∷ []

-- ROT >R ROT R>
abbrev pub two_swap_instruction : List Op
two_swap_instruction = rot_instruction ++ (Op.tor ∷ (rot_instruction ++ (Op.fromr ∷ [])))

-- LIT with four bytes, then SYS
abbrev pub sys_call : ℕ → List Piece
sys_call id = op Op.lit ∷ byte id ∷ byte 0 ∷ byte 0 ∷ byte 0 ∷ op Op.sys ∷ []

-- OVER OVER, the comparison, JZ +4, DROP, JMP +2, SWAP DROP
abbrev pub select : Op → List Piece
select test =
    op Op.over
    ∷ op Op.over
    ∷ op test
    ∷ op Op.jz
    ∷ byte 4
    ∷ byte 0
    ∷ op Op.drop
    ∷ op Op.jmp
    ∷ byte 2
    ∷ byte 0
    ∷ op Op.swap
    ∷ op Op.drop
    ∷ []

unfoldable pub pieces : Composite → List Piece
pieces exit = op Op.ret ∷ []
pieces emit_char = sys_call 0x30
pieces key = sys_call 0x31
pieces j = ops_of j_instruction
pieces k = ops_of k_instruction
pieces rot = ops_of rot_instruction
pieces nip = ops_of (Op.swap ∷ Op.drop ∷ [])
pieces tuck = ops_of (Op.swap ∷ Op.over ∷ [])
pieces negate = ops_of (Op.lit0 ∷ Op.swap ∷ Op.sub ∷ [])
pieces qdup = op Op.dup ∷ op Op.dup ∷ op Op.jz ∷ byte 1 ∷ byte 0 ∷ op Op.dup ∷ []
pieces abs =
    op Op.dup
    ∷ op Op.lit0
    ∷ op Op.lt
    ∷ op Op.jz
    ∷ byte 3
    ∷ byte 0
    ∷ op Op.lit0
    ∷ op Op.swap
    ∷ op Op.sub
    ∷ []
pieces min = select Op.lt
pieces max = select Op.gt
pieces zero_eq = ops_of (Op.lit0 ∷ Op.eq ∷ [])
pieces zero_lt = ops_of (Op.lit0 ∷ Op.lt ∷ [])
pieces zero_gt = ops_of (Op.lit0 ∷ Op.gt ∷ [])
pieces two_dup = ops_of (Op.over ∷ Op.over ∷ [])
pieces two_drop = ops_of (Op.drop ∷ Op.drop ∷ [])
pieces two_swap = ops_of two_swap_instruction
pieces two_over =
    ops_of (Op.tor ∷ Op.tor ∷ Op.over ∷ Op.over ∷ Op.fromr ∷ Op.fromr ∷ two_swap_instruction)
pieces plus_store = ops_of (Op.dup ∷ Op.tor ∷ Op.load ∷ Op.add ∷ Op.fromr ∷ Op.store ∷ [])
pieces true_flag = op Op.litn1 ∷ []
pieces false_flag = op Op.lit0 ∷ []

unfoldable pub composite_bytes : Platform → Composite → Bytes
unfolding pieces
composite_bytes pl w = map (piece_byte pl) (pieces w)
