-- ===== src/Memory/Agreement.antt =====
-- The end of `compile_internal` of src/compile.cpp on a heap of blocks, and the same end on values,
-- Compiler/Driver: they agree on the error and on what the buffer looks like.
use v4_front.Base.{zero, suc, ◌≡◌, ◌⊎◌, List, [], none, some, length}
use v4_front.Result.{Result, ok, err, undefined, no_fuel, out_of_memory}
use v4_front.Platform.{Platform}
use v4_front.Buffer.{Buf, size}
use v4_front.Compiler.{WordDefEntry}
use v4_front.Compiler.Driver.{
  V4FrontBuf, OutBuf, cleared, filled, words_only, words_freed, transfer_words, transferred,
}
use v4_front.Memory.{no_handle, Handle, HandedOut}
use v4_front.Memory.EndParts.{CloseAgrees}

-- What a buffer with its pointers looks like.
abbrev pub LooksLike : Handle → OutBuf → Type 0
LooksLike out cleared = out ≡ no_handle
LooksLike out (filled buf) = (out.size ≡ length buf.code) × (length out.entries ≡ length buf.words)
LooksLike out (words_only words) =
    (out.data_at ≡ 0) × (out.size ≡ 0) × (length out.entries ≡ length words)
LooksLike out words_freed = (out.data_at ≡ 0) × (out.size ≡ 0) × (out.entries ≡ [])

-- The same error or none, and the buffer: the one handed out, or the one that an error leaves.
abbrev pub Agrees : Result V4FrontBuf → OutBuf → HandedOut → Type 0
Agrees (ok out) left r = (r.error ≡ none) × LooksLike r.out (filled out)
Agrees (err e at) left r = (r.error ≡ some e) × LooksLike r.out left
Agrees undefined left r = suc zero ≡ zero
Agrees no_fuel left r = suc zero ≡ zero

-- The transfer of the words: it has succeeded, and RET is next; or memory is refused.
abbrev Handed : Platform → Buf → List WordDefEntry → HandedOut → Type 0
Handed pl b words r =
    ((out : Handle) × (transfer_words pl words ≡ ok tt)
      × LooksLike out (transferred pl words)
      × (length out.entries ≡ length words)
      × CloseAgrees pl b out r)
    ⊎ ((transfer_words pl words ≡ err out_of_memory none)
        × (r.error ≡ some out_of_memory)
        × LooksLike r.out (transferred pl words))
