-- ===== src/Machine/Texts.antt =====
-- From the source text to the machine: what `compile_internal` of src/compile.cpp makes of a text,
-- run from its first byte, does what the programs of the text mean.
use v4_front.Base.{
  ℕ, ◌+◌, ◌^◌, ◌<◌, ◌≡◌, refl, sym, arith, Bool-cases, inl, inr, List, [], ◌∷◌, append-nil, All,
  Bytes, length, length-append, Option, some,
}
use v4_front.Result.{ok}
use v4_front.Platform.{Platform, Op, NeverRefuses}
use v4_front.Context.{V4FrontContext}
use v4_front.Compiler.Driver.{V4FrontBuf, compile_internal, needs_ret}
use v4_front.DataSpace.{data_space_base}
use v4_front.Structured.{Prog, size_of, layout}
use v4_front.Source.{
  Item, code, definition, variable_cell, constant_value, words_of, main_of, Texts,
}
use v4_front.Source.Words.{Fits}
use v4_front.Source.Whole.{ended, compile_internal-text}
use v4_front.Machine.{
  Vm, Stacks, At, Jumps, Reaches, here, Reaches-trans, arrive, Does, At-left, At-right,
}
use v4_front.Machine.Meaning.{Means}
use v4_front.Machine.Opcodes.{Opcodes}
use v4_front.Machine.Execution.{layout-Does}

-- The main code of the items, one after the other; a word that is defined does nothing yet.
pub data ItemsMean (vm : Vm) : List Item → Stacks → Stacks → Type 0 where
  nothing_left : {s : Stacks} → ItemsMean vm [] s s
  runs :
      {a : Prog} {items : List Item} {s t u : Stacks}
      → Means vm a s t
      → ItemsMean vm items t u
      → ItemsMean vm (code a ∷ items) s u
  defines :
      {name : Bytes} {a : Prog} {items : List Item} {s t : Stacks}
      → ItemsMean vm items s t
      → ItemsMean vm (definition name a ∷ items) s t
  declares :
      {name : Bytes} {items : List Item} {s t : Stacks}
      → ItemsMean vm items s t
      → ItemsMean vm (variable_cell name ∷ items) s t
  names :
      {name : Bytes} {value : ℕ} {items : List Item} {s t : Stacks}
      → ItemsMean vm items s t
      → ItemsMean vm (constant_value name value ∷ items) s t

-- A program is within the reach of a jump.
abbrev pub IsShort : Item → Type 0
IsShort (code a) = size_of a < 2 ^ 15
IsShort (definition name a) = size_of a < 2 ^ 15
IsShort _ = Unit

module _ (pl : Platform) (vm : Vm) (jumps : Jumps pl vm) (laws : Opcodes pl vm) where
  main-Does :
      (items : List Item) (s s' : Stacks)
      → ItemsMean vm items s s'
      → All IsShort items
      → Does vm (main_of pl items) s s'
  main-Does _ s _ nothing_left short = λ bytes pc at. arrive here (omega arith)
  main-Does _ s u (runs {a = a} {items} {t = t} m rest) (short, shorts) = λ bytes pc at.
      let first = layout pl a in
      let later = main_of pl items in
      arrive
        (Reaches-trans
          (layout-Does pl vm jumps laws a s t m short bytes pc (At-left first later at))
          (main-Does items t u rest shorts bytes (pc + length first) (At-right first later at)))
        (omega (arith, length-append first later))
  main-Does _ s s' (defines {items = items} rest) (_, shorts) = main-Does items s s' rest shorts
  main-Does _ s s' (declares {items = items} rest) (_, shorts) = main-Does items s s' rest shorts
  main-Does _ s s' (names {items = items} rest) (_, shorts) = main-Does items s s' rest shorts

  At-ended : (xs : Bytes) → At (ended pl xs) 0 xs
  At-ended xs = elim (Bool-cases (needs_ret pl xs)) [
    | inl needed ↦ rw needed (record { behind = pl.op_byte Op.ret ∷ []; holds = refl })
    | inr other ↦ rw other (record { behind = []; holds = sym (append-nil xs) })
  ]

-- A text that spells items compiles to main code that takes the machine from its first byte and any
-- stacks to its end and the stacks that the programs of the text mean, one after the other, as long
-- as they come to an end. The machine runs JZ, JMP and the opcodes of counted loops as documented; no
-- program reaches over 2 ^ 15 bytes, and the bounds of the compiler hold.
pub compile_internal-Reaches :
    (pl : Platform) (vm : Vm) (ctx : Option V4FrontContext) (text : Bytes) (items : List Item)
    (s s' : Stacks)
    → NeverRefuses pl
    → Jumps pl vm
    → Opcodes pl vm
    → Texts pl ctx [] data_space_base items text
    → All Fits items
    → All IsShort items
    → length (main_of pl items) + 5 < 2 ^ 31
    → ItemsMean vm items s s'
    → (out : V4FrontBuf) × (compile_internal pl ctx (some text) ≡ ok out)
      × Reaches vm out.code (0, s) (length (main_of pl items), s')
compile_internal-Reaches pl vm ctx text items s s' never jumps laws reads fits short small means =
    let main = main_of pl items in
    (
      record { words = words_of pl data_space_base items; code = ended pl main },
      compile_internal-text pl ctx text items never reads fits small,
      arrive
          (main-Does pl vm jumps laws items s s' means short (ended pl main) 0
            (At-ended pl vm jumps laws main))
          (omega arith),
    )
