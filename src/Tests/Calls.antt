-- ===== src/Tests/Calls.antt =====
-- A word, called on the machine that has it.
use mathlib.Core.Path.{subst}
use v4_front.Source.{call_code, integer, token, Item, Texts, finished, definition, defined}
use v4_front.Compiler.{WordDefEntry}
use v4_front.Base.{
  sym, take, take-append, length-append, append-nil, get_elem?, ◌≡◌, refl, ◌∙◌, ap, ℕ, zero, suc,
  ◌+◌, List, ◌∷◌, ◌++◌, [], Bytes, some, none, arith, length,
}
use v4_front.Result.{ok}
use v4_front.DataSpace.{data_space_base}
use v4_front.Text.{codes, take_token}
use v4_front.Text.Integer.{try_parse_int}
use v4_front.Text.Blanks.{skip_whitespace_and_comments}
use v4_front.Text.Skipping.{skip_whitespace_and_comments-Skips}
use v4_front.Buffer.{i16_le, i32_le}
use v4_front.Compiler.Dispatch.{keyword_table, match_token, find_word}
use v4_front.Compiler.Driver.{V4FrontBuf, compile_internal, needs_ret}
use v4_front.Compiler.Words.{is_defined}
use v4_front.Source.Whole.{compile_internal-text}
use v4_front.Structured.{plain, layout_with, layout}
use v4_front.Machine.{Stacks, Config, Reaches, here, next, Does}
use v4_front.Machine.Meaning.{plainly}
use v4_front.Machine.Calls.{Calls, this_definition, compile_internal-calls}
use v4_front.Tests.{test_platform, test_platform-NeverRefuses}
use v4_front.Tests.Texts.{next-Token}
use v4_front.Tests.Vm.{byte_at, exec, exec_at, test_vm, test_vm-Jumps, test_vm-Opcodes}

-- : FIVE 5 ; and the word of the machine
abbrev five_items : List Item
five_items = definition (codes "FIVE") (plain (0 ∷ 5 ∷ 0 ∷ 0 ∷ 0 ∷ [])) ∷ []

abbrev five_text : Bytes
five_text = codes ": FIVE 5 ;"

five-Texts : Texts test_platform none [] data_space_base five_items five_text
unfolding skip_whitespace_and_comments take_token match_token find_word try_parse_int keyword_table
    is_defined i32_le
five-Texts =
    defined {q = codes " FIVE 5 ;"} {r = codes " 5 ;"} {s = codes " ;"} {t = []} (codes "FIVE")
      (_, next-Token refl refl, refl) (next-Token refl refl) (omega arith) refl (omega arith)
      (token _ (next-Token refl refl) (integer 5 refl refl refl)) (_, next-Token refl refl, refl)
      (finished ((skip_whitespace_and_comments-Skips [] []).0 refl))

abbrev five_out : V4FrontBuf
five_out = record {
  words = record { name = codes "FIVE"; code = 0 ∷ 5 ∷ 0 ∷ 0 ∷ 0 ∷ 81 ∷ [] } ∷ [];
  code = 81 ∷ [];
}

run-five : compile_internal test_platform none (some five_text) ≡ ok five_out
unfolding layout layout_with needs_ret
run-five =
    compile_internal-text test_platform none five_text five_items test_platform-NeverRefuses
      five-Texts (((omega arith, omega arith, (refl, tt))), tt) (omega arith)

abbrev five_code : Bytes
five_code = 0 ∷ 5 ∷ 0 ∷ 0 ∷ 0 ∷ []

abbrev five_word : WordDefEntry
five_word = record { name = codes "FIVE"; code = five_code ++ 81 ∷ [] }

abbrev five_pushed : Stacks → Config
five_pushed s = (5, (5 ∷ s.0, s.1))

-- A run over the code of the word alone stops behind it, where it has pushed 5.
five-end :
    (s : Stacks) (c e : Config)
    → c ≡ five_pushed s
    → Reaches test_vm five_code c e
    → e ≡ five_pushed s
unfolding exec_at
five-end s c _ at here = at
five-end s c e at (next {d = d} one more) =
    let stuck : test_vm.step five_code c ≡ none = ap (test_vm.step five_code) at in cc

five-inv :
    (s : Stacks) (c e : Config)
    → c ≡ (0, s)
    → Reaches test_vm five_code c e
    → e.0 ≡ 5
    → e ≡ five_pushed s
unfolding exec_at exec byte_at
five-inv s c _ start here end = absurd (omega (arith, ap (λ c. c.0) start, end))
five-inv s c e start (next {d = d} one more) end =
    let stepped : test_vm.step five_code c ≡ some (five_pushed s) =
      ap (test_vm.step five_code) start in
    let pushed : d ≡ five_pushed s = cc in five-end s d e pushed more

five-Calls : Calls test_platform test_vm five_out.words
unfolding exec_at exec i16_le
five-Calls = record { call = go }
  where
    go :
        (i : ℕ) (w : WordDefEntry) (xs : Bytes) (s s' : Stacks)
        → get_elem? five_out.words i ≡ some w
        → w.code ≡ xs ++ 81 ∷ []
        → Does test_vm xs s s'
        → Does test_vm (call_code test_platform i) s s'
    go (suc i) w xs s s' is code_is does = cc
    go zero w xs s s' is code_is does = λ bytes pc a.
        let word : five_word ≡ w = cc in
        let same : w.code ≡ five_code ++ 81 ∷ [] = ap (λ v. v.code) (sym word) in
        let whole : xs ++ 81 ∷ [] ≡ five_code ++ 81 ∷ [] = sym code_is ∙ same in
        let five : length xs ≡ 5 = omega (arith, ap length whole, length-append xs (81 ∷ [])) in
        let xs_is : xs ≡ five_code =
          sym (take-append xs (81 ∷ []))
          ∙ ap (λ n. take n (xs ++ 81 ∷ [])) five
          ∙ ap (take 5) whole in
        let ran =
          subst (λ l. Reaches test_vm l (0, s) (0 + length l, s')) xs_is
            (does xs 0 (record { behind = []; holds = sym (append-nil xs) })) in
        let e = five-inv s (0, s) (5, s') refl ran refl in
        next (rw a.holds (ap (λ c. some (pc + 3, c.1)) (sym e))) here

compile_internal-calls_example : Does test_vm (call_code test_platform 0) ([], []) (5 ∷ [], [])
unfolding i32_le
compile_internal-calls_example =
    compile_internal-calls test_platform test_vm none five_text five_items five_out 0 ([], [])
      (5 ∷ [], []) test_platform-NeverRefuses test_vm-Jumps test_vm-Opcodes five-Texts
      ((omega arith, omega arith, (refl, tt)), tt) (omega arith, tt) (omega arith) run-five
      five-Calls (this_definition (plainly five_code (test_vm-Opcodes.lit 5 [] [] (omega arith))))
