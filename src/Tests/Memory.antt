-- ===== src/Tests/Memory.antt =====
-- Blocks of memory at fixed inputs.
use v4_front.Base.{◌≡◌, refl, true, false, not, [], ◌∷◌, ◌++◌, List, none, some, arith, ◌==◌}
use v4_front.Text.{codes}
use v4_front.Buffer.{Buf}
use v4_front.Platform.{Platform}
use v4_front.Memory.{
  Heap, ◌>>=◌, Handle, no_handle, HeldWord, HandedOut, hand_out, v4front_free, codes_of,
}
use v4_front.Result.{out_of_memory}
use v4_front.Compiler.{Compilation, initial}
use v4_front.Memory.Owned.{Owns, count}
use v4_front.Memory.Release.{IsHandle, blocks, v4front_free-Owns}
use v4_front.Memory.Transfer.{Delivers, hand_out-Delivers}
use v4_front.Memory.Wrapper.Lifetime.{clears, assigns, assigns_itself, lifetime, lifetime-Owns}
use v4_front.Tests.{test_platform}

-- One word with its code in block 2; the main code is in block 1, block 9 is someone else's.
abbrev one_word : List HeldWord
one_word = record { name = codes "SQ"; code = 2 } ∷ []

abbrev five : Buf
five = record { bytes = 0 ∷ 5 ∷ 0 ∷ 0 ∷ 0 ∷ []; cap = 64 }

abbrev held : Heap
held = record { live = 1 ∷ 2 ∷ 9 ∷ []; next = 9 }

held-Owns : Owns held (1 ∷ codes_of one_word) (9 ∷ [])
unfolding count
held-Owns = record { exactly = λ q. ground arith }

hand_out-Delivers_example :
    (r : HandedOut) × (hand_out test_platform five 1 one_word held ≡ some r) × Delivers (9 ∷ []) r
hand_out-Delivers_example =
    hand_out-Delivers test_platform five 1 one_word held (9 ∷ []) (λ e. absurd (omega (arith, e)))
      (omega arith) held-Owns

-- A platform that refuses the memory for a name of two bytes.
abbrev no_names : Platform
no_names = record test_platform { alloc = λ n. not (n == 3) }

-- The same end on values, where the memory for the name is refused.
abbrev one_word_end : Compilation
one_word_end = record initial {
  main = five;
  dict = record { name = codes "SQ"; code = 2 ∷ 81 ∷ [] } ∷ [];
}

abbrev name_refused : HandedOut
name_refused = record {
  error = some out_of_memory;
  out = record no_handle { words = 10 };
  heap = record { live = 9 ∷ []; next = 10 };
}

-- Two buffers, the first with a word.
abbrev with_word : Handle
with_word = record {
  data_at = 1;
  size = 6;
  words = 3;
  entries = record { name = 4; code = 2 } ∷ [];
}

abbrev without_words : Handle
without_words = record { data_at = 5; size = 1; words = 0; entries = [] }

with_word-IsHandle : IsHandle with_word
with_word-IsHandle = record {
  no_words = λ e. absurd (omega (arith, e));
  no_data = λ e. absurd (omega (arith, e));
}

without_words-IsHandle : IsHandle without_words
without_words-IsHandle = record { no_words = λ e. refl; no_data = λ e. absurd (omega (arith, e)) }

abbrev two_buffers : Heap
two_buffers = record { live = 5 ∷ 4 ∷ 3 ∷ 2 ∷ 1 ∷ 9 ∷ []; next = 9 }

two_buffers-Owns : Owns two_buffers (blocks with_word ++ blocks without_words) (9 ∷ [])
unfolding count
two_buffers-Owns = record { exactly = λ q. ground arith }

v4front_free-Owns_example :
    (h' : Heap) × (v4front_free with_word two_buffers ≡ some (no_handle, h'))
    × Owns h' [] (5 ∷ 9 ∷ [])
unfolding count
v4front_free-Owns_example =
    v4front_free-Owns with_word two_buffers (5 ∷ 9 ∷ []) with_word-IsHandle
      (record { exactly = λ q. ground arith })

lifetime-Owns_example :
    (h' : Heap) × (lifetime
        (assigns true ∷ assigns_itself true ∷ clears false ∷ assigns false ∷ [])
        ((with_word, without_words), two_buffers)
      ≡ some h')
    × Owns h' [] (9 ∷ [])
lifetime-Owns_example =
    lifetime-Owns (assigns true ∷ assigns_itself true ∷ clears false ∷ assigns false ∷ []) with_word
      without_words two_buffers (9 ∷ []) with_word-IsHandle without_words-IsHandle two_buffers-Owns

-- Where the memory for a name is refused, the buffer still leads to the array, which is free:
-- `v4front_free` frees it again.
free_twice : (hand_out no_names five 1 one_word held >>= λ r. v4front_free r.out r.heap) ≡ none
unfolding hand_out v4front_free
free_twice = refl
