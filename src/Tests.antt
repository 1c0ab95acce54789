-- ===== src/Tests.antt =====
-- An instruction set for the tests and the examples of the theorems.
mod Runs
mod Examples
mod Reporting
mod Files
mod Texts
mod Vm
mod Machine
mod Calls
mod Rounds
mod Memory
use v4_front.Base.{ℕ, true, refl, arith}
use v4_front.Platform.{Platform, Op, OpcodesFit, NeverRefuses}

-- The codes that docs/compiler-spec.md gives, and free ones for the opcodes that it leaves out.
abbrev pub test_opcode : Op → ℕ
test_opcode Op.dup = 2
test_opcode Op.drop = 3
test_opcode Op.swap = 4
test_opcode Op.over = 5
test_opcode Op.tor = 6
test_opcode Op.fromr = 7
test_opcode Op.rfetch = 8
test_opcode Op.add = 16
test_opcode Op.sub = 17
test_opcode Op.mul = 18
test_opcode Op.div = 19
test_opcode Op.mod_op = 20
test_opcode Op.inc = 128
test_opcode Op.dec = 129
test_opcode Op.divu = 130
test_opcode Op.modu = 131
test_opcode Op.eq = 32
test_opcode Op.ne = 33
test_opcode Op.lt = 34
test_opcode Op.le = 36
test_opcode Op.gt = 35
test_opcode Op.ge = 37
test_opcode Op.ltu = 132
test_opcode Op.leu = 133
test_opcode Op.and = 48
test_opcode Op.or = 49
test_opcode Op.xor = 50
test_opcode Op.invert = 51
test_opcode Op.shl = 134
test_opcode Op.shr = 135
test_opcode Op.sar = 136
test_opcode Op.load = 64
test_opcode Op.store = 65
test_opcode Op.load8u = 137
test_opcode Op.store8 = 138
test_opcode Op.load16u = 139
test_opcode Op.store16 = 140
test_opcode Op.lget0 = 141
test_opcode Op.lget1 = 142
test_opcode Op.lset0 = 143
test_opcode Op.lset1 = 144
test_opcode Op.task_spawn = 145
test_opcode Op.task_exit = 146
test_opcode Op.task_sleep = 147
test_opcode Op.task_yield = 148
test_opcode Op.critical_enter = 149
test_opcode Op.critical_exit = 150
test_opcode Op.task_send = 151
test_opcode Op.task_receive = 152
test_opcode Op.task_receive_blocking = 153
test_opcode Op.task_self = 154
test_opcode Op.task_count = 155
test_opcode Op.sys = 156
test_opcode Op.ret = 81
test_opcode Op.lit = 0
test_opcode Op.lit0 = 157
test_opcode Op.litn1 = 158
test_opcode Op.jz = 80
test_opcode Op.jmp = 82
test_opcode Op.call = 83
test_opcode Op.linc = 159
test_opcode Op.ldec = 160
test_opcode Op.lget = 161
test_opcode Op.lset = 162
test_opcode Op.ltee = 163

abbrev pub test_platform : Platform
test_platform = record { op_byte = test_opcode; alloc = λ n. true }

pub test_platform-OpcodesFit : OpcodesFit test_platform
test_platform-OpcodesFit Op.dup = omega arith
test_platform-OpcodesFit Op.drop = omega arith
test_platform-OpcodesFit Op.swap = omega arith
test_platform-OpcodesFit Op.over = omega arith
test_platform-OpcodesFit Op.tor = omega arith
test_platform-OpcodesFit Op.fromr = omega arith
test_platform-OpcodesFit Op.rfetch = omega arith
test_platform-OpcodesFit Op.add = omega arith
test_platform-OpcodesFit Op.sub = omega arith
test_platform-OpcodesFit Op.mul = omega arith
test_platform-OpcodesFit Op.div = omega arith
test_platform-OpcodesFit Op.mod_op = omega arith
test_platform-OpcodesFit Op.inc = omega arith
test_platform-OpcodesFit Op.dec = omega arith
test_platform-OpcodesFit Op.divu = omega arith
test_platform-OpcodesFit Op.modu = omega arith
test_platform-OpcodesFit Op.eq = omega arith
test_platform-OpcodesFit Op.ne = omega arith
test_platform-OpcodesFit Op.lt = omega arith
test_platform-OpcodesFit Op.le = omega arith
test_platform-OpcodesFit Op.gt = omega arith
test_platform-OpcodesFit Op.ge = omega arith
test_platform-OpcodesFit Op.ltu = omega arith
test_platform-OpcodesFit Op.leu = omega arith
test_platform-OpcodesFit Op.and = omega arith
test_platform-OpcodesFit Op.or = omega arith
test_platform-OpcodesFit Op.xor = omega arith
test_platform-OpcodesFit Op.invert = omega arith
test_platform-OpcodesFit Op.shl = omega arith
test_platform-OpcodesFit Op.shr = omega arith
test_platform-OpcodesFit Op.sar = omega arith
test_platform-OpcodesFit Op.load = omega arith
test_platform-OpcodesFit Op.store = omega arith
test_platform-OpcodesFit Op.load8u = omega arith
test_platform-OpcodesFit Op.store8 = omega arith
test_platform-OpcodesFit Op.load16u = omega arith
test_platform-OpcodesFit Op.store16 = omega arith
test_platform-OpcodesFit Op.lget0 = omega arith
test_platform-OpcodesFit Op.lget1 = omega arith
test_platform-OpcodesFit Op.lset0 = omega arith
test_platform-OpcodesFit Op.lset1 = omega arith
test_platform-OpcodesFit Op.task_spawn = omega arith
test_platform-OpcodesFit Op.task_exit = omega arith
test_platform-OpcodesFit Op.task_sleep = omega arith
test_platform-OpcodesFit Op.task_yield = omega arith
test_platform-OpcodesFit Op.critical_enter = omega arith
test_platform-OpcodesFit Op.critical_exit = omega arith
test_platform-OpcodesFit Op.task_send = omega arith
test_platform-OpcodesFit Op.task_receive = omega arith
test_platform-OpcodesFit Op.task_receive_blocking = omega arith
test_platform-OpcodesFit Op.task_self = omega arith
test_platform-OpcodesFit Op.task_count = omega arith
test_platform-OpcodesFit Op.sys = omega arith
test_platform-OpcodesFit Op.ret = omega arith
test_platform-OpcodesFit Op.lit = omega arith
test_platform-OpcodesFit Op.lit0 = omega arith
test_platform-OpcodesFit Op.litn1 = omega arith
test_platform-OpcodesFit Op.jz = omega arith
test_platform-OpcodesFit Op.jmp = omega arith
test_platform-OpcodesFit Op.call = omega arith
test_platform-OpcodesFit Op.linc = omega arith
test_platform-OpcodesFit Op.ldec = omega arith
test_platform-OpcodesFit Op.lget = omega arith
test_platform-OpcodesFit Op.lset = omega arith
test_platform-OpcodesFit Op.ltee = omega arith

pub test_platform-NeverRefuses : NeverRefuses test_platform
test_platform-NeverRefuses n = refl
