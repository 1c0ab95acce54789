-- ===== src/Compiler/Opcodes.antt =====
-- `OPCODE_TABLE` and `lookup_simple_opcode` of src/compile.cpp.
use v4_front.Base.{Bool, true, false, List, [], ◌∷◌, Option, none, some, Bytes, if◌then◌else◌}
use v4_front.Platform.{Op}
use v4_front.Text.{codes, str_eq, str_eq_ci}

pub record OpcodeMapping : Type 0 where
  pub token : Bytes
  pub opcode : Op
  pub case_sensitive : Bool

abbrev word : Bytes → Op → OpcodeMapping
word t o = record { token = t; opcode = o; case_sensitive = false }

abbrev sign : Bytes → Op → OpcodeMapping
sign t o = record { token = t; opcode = o; case_sensitive = true }

abbrev stack_entries : List OpcodeMapping → List OpcodeMapping
stack_entries rest =
    word (codes "DUP") Op.dup
    ∷ word (codes "DROP") Op.drop
    ∷ word (codes "SWAP") Op.swap
    ∷ word (codes "OVER") Op.over
    ∷ word (codes ">R") Op.tor
    ∷ word (codes "R>") Op.fromr
    ∷ word (codes "R@") Op.rfetch
    ∷ word (codes "I") Op.rfetch
    ∷ rest

abbrev arithmetic_entries : List OpcodeMapping → List OpcodeMapping
arithmetic_entries rest =
    sign (codes "+") Op.add
    ∷ sign (codes "-") Op.sub
    ∷ sign (codes "*") Op.mul
    ∷ sign (codes "/") Op.div
    ∷ word (codes "MOD") Op.mod_op
    ∷ word (codes "1+") Op.inc
    ∷ word (codes "1-") Op.dec
    ∷ word (codes "U/") Op.divu
    ∷ word (codes "UMOD") Op.modu
    ∷ rest

abbrev comparison_entries : List OpcodeMapping → List OpcodeMapping
comparison_entries rest =
    sign (codes "=") Op.eq
    ∷ sign (codes "==") Op.eq
    ∷ sign (codes "<>") Op.ne
    ∷ sign (codes "!=") Op.ne
    ∷ sign (codes "<") Op.lt
    ∷ sign (codes "<=") Op.le
    ∷ sign (codes ">") Op.gt
    ∷ sign (codes ">=") Op.ge
    ∷ word (codes "U<") Op.ltu
    ∷ word (codes "U<=") Op.leu
    ∷ rest

abbrev bitwise_entries : List OpcodeMapping → List OpcodeMapping
bitwise_entries rest =
    word (codes "AND") Op.and
    ∷ word (codes "OR") Op.or
    ∷ word (codes "XOR") Op.xor
    ∷ word (codes "INVERT") Op.invert
    ∷ word (codes "LSHIFT") Op.shl
    ∷ word (codes "RSHIFT") Op.shr
    ∷ word (codes "ARSHIFT") Op.sar
    ∷ rest

abbrev memory_entries : List OpcodeMapping → List OpcodeMapping
memory_entries rest =
    sign (codes "@") Op.load
    ∷ sign (codes "!") Op.store
    ∷ word (codes "C@") Op.load8u
    ∷ word (codes "C!") Op.store8
    ∷ word (codes "W@") Op.load16u
    ∷ word (codes "W!") Op.store16
    ∷ word (codes "L@0") Op.lget0
    ∷ word (codes "L@1") Op.lget1
    ∷ word (codes "L!0") Op.lset0
    ∷ word (codes "L!1") Op.lset1
    ∷ rest

abbrev task_entries : List OpcodeMapping
task_entries =
    word (codes "SPAWN") Op.task_spawn
    ∷ word (codes "TASK-EXIT") Op.task_exit
    ∷ word (codes "SLEEP") Op.task_sleep
    ∷ word (codes "MS") Op.task_sleep
    ∷ word (codes "YIELD") Op.task_yield
    ∷ word (codes "PAUSE") Op.task_yield
    ∷ word (codes "CRITICAL") Op.critical_enter
    ∷ word (codes "UNCRITICAL") Op.critical_exit
    ∷ word (codes "SEND") Op.task_send
    ∷ word (codes "RECEIVE") Op.task_receive
    ∷ word (codes "RECEIVE-BLOCKING") Op.task_receive_blocking
    ∷ word (codes "ME") Op.task_self
    ∷ word (codes "TASKS") Op.task_count
    ∷ word (codes "SYS") Op.sys
    ∷ []

-- The table, without its sentinel.
unfoldable pub opcode_table : List OpcodeMapping
opcode_table =
    stack_entries
      (arithmetic_entries (comparison_entries (bitwise_entries (memory_entries task_entries))))

unfoldable pub entry_matches : Bytes → OpcodeMapping → Bool
unfolding str_eq str_eq_ci
entry_matches token entry =
    if entry.case_sensitive then str_eq token entry.token else str_eq_ci token entry.token

-- The first entry that matches.
unfoldable pub find_opcode : Bytes → List OpcodeMapping → Option Op
unfolding entry_matches
find_opcode token [] = none
find_opcode token (entry ∷ table) =
    if entry_matches token entry then some entry.opcode else find_opcode token table

unfoldable pub lookup_simple_opcode : Bytes → Option Op
unfolding find_opcode opcode_table
lookup_simple_opcode token = find_opcode token opcode_table
