-- ===== src/Tests/Rounds.antt =====
-- Composite words and a counted loop on the machine.
use v4_front.Base.{◌≡◌, ◌∷◌, [], ◌++◌, arith, refl, Bytes}
use v4_front.Result.{ok}
use v4_front.Buffer.{Buf, no_buf}
use v4_front.Compiler.Composite.{max, composite_bytes}
use v4_front.Structured.{plain, do_loop, compile}
use v4_front.Machine.{Does}
use v4_front.Machine.Meaning.{plainly}
use v4_front.Machine.Composites.{composite_bytes-Does, max_effect}
use v4_front.Machine.Rounds.{compile-do_loop-Does}
use v4_front.Tests.{test_platform, test_platform-NeverRefuses}
use v4_front.Tests.Vm.{test_vm, test_vm-Jumps, test_vm-Opcodes}

composite_bytes-Does_example :
    Does test_vm (composite_bytes test_platform max) (7 ∷ 3 ∷ [], []) (7 ∷ [], [])
composite_bytes-Does_example =
    composite_bytes-Does test_platform test_vm test_vm-Jumps test_vm-Opcodes max (7 ∷ 3 ∷ [])
      (7 ∷ []) [] max_effect

-- 10 0 DO DUP LOOP: two copies, not ten.
compile-do_loop-Does_example :
    (b' : Buf) × (xs : Bytes) × (compile test_platform 0
        (do_loop (plain (2 ∷ [])))
        (record { current = no_buf; control = [] })
      ≡ ok (record { current = b'; control = [] }))
    × (b'.bytes ≡ [] ++ xs)
    × Does test_vm xs (0 ∷ 10 ∷ 4 ∷ [], []) (4 ∷ 4 ∷ 4 ∷ [], [])
compile-do_loop-Does_example =
    compile-do_loop-Does test_platform test_vm 0 (plain (2 ∷ [])) [] no_buf 0 10 (4 ∷ [])
      (4 ∷ 4 ∷ []) (4 ∷ 4 ∷ 4 ∷ []) [] test_platform-NeverRefuses (omega arith) (omega arith)
      (omega arith) (refl, (omega arith, tt)) test_vm-Jumps test_vm-Opcodes (omega arith)
      (omega arith) (omega arith) (plainly (2 ∷ []) (test_vm-Opcodes.dup 4 [] (0 ∷ 10 ∷ [])))
      (plainly (2 ∷ []) (test_vm-Opcodes.dup 4 (4 ∷ []) (10 ∷ 1 ∷ [])))
