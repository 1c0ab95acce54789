-- ===== src/Context.antt =====
-- The compiler context of src/compile.cpp: the words of earlier compilations and their indices in
-- the VM. A pointer that may be null is an option; an `int` is its bit pattern, and an index below
-- 2 ^ 31 is one that is not negative. A context has fewer than 2 ^ 30 words, so that its capacity does
-- not overflow.
pub mod Entries
pub mod Laws
pub mod Sessions
use v4_front.Errors.{front_err_to_int}
use v4_front.Base.{
  ℤ, pos, negsuc, ℕ, suc, ◌+◌, ◌-◌, ◌*◌, ◌%◌, ◌^◌, Bool, true, false, List, [], ◌∷◌, ◌++◌, Option,
  none, some, Bytes, length, get_elem?, ltb, leb, ◌==◌, if◌then◌else◌,
}
use v4_front.Result.{FrontErr, out_of_memory}
use v4_front.Platform.{Platform}
use v4_front.Text.{str_eq_ci}

pub record ContextWordEntry : Type 0 where
  pub name : Bytes
  pub vm_word_idx : ℕ

-- `words` is the array below `word_count`.
pub record V4FrontContext : Type 0 where
  pub words : List ContextWordEntry
  pub word_capacity : ℕ

abbrev pub word_count : V4FrontContext → ℕ
word_count ctx = length ctx.words

unfoldable pub context_create : V4FrontContext
context_create = record { words = []; word_capacity = 0 }

-- The array stays allocated.
unfoldable pub context_reset : Option V4FrontContext → Option V4FrontContext
context_reset none = none
context_reset (some ctx) = some (record ctx { words = [] })

-- `ctx->words[i].vm_word_idx = vm_word_idx` at the first entry of that name; `none` without one.
unfoldable pub update_entry : Bytes → ℕ → List ContextWordEntry → Option (List ContextWordEntry)
unfolding str_eq_ci
update_entry name idx [] = none
update_entry name idx (w ∷ ws) =
    let rest = update_entry name idx ws in
    if str_eq_ci w.name name
    then some (record w { vm_word_idx = idx } ∷ ws)
    else elim rest [ none ↦ none | some ws' ↦ some (w ∷ ws') ]

-- `sizeof(ContextWordEntry)` with 8-byte pointers
abbrev entry_size : ℕ
entry_size = 16

abbrev grown : ℕ → ℕ
grown capacity = if capacity == 0 then 16 else capacity * 2

-- The context after `Grow array if needed`; `none` where the request is refused.
unfoldable pub grow : Platform → V4FrontContext → Option V4FrontContext
grow pl ctx =
    if ltb (word_count ctx) ctx.word_capacity
    then some ctx
    else if pl.alloc (entry_size * grown ctx.word_capacity)
    then some (record ctx { word_capacity = grown ctx.word_capacity })
    else none

-- The context and the error. `portable_strdup(name)` takes the length and the NUL; where it fails,
-- the array has grown already.
unfoldable pub add_entry : Platform → V4FrontContext → Bytes → ℕ → V4FrontContext × Option FrontErr
unfolding grow
add_entry pl ctx name idx = elim (grow pl ctx) [
  | none ↦ (ctx, some out_of_memory)
  | some ctx' ↦
      if pl.alloc (length name + 1)
      then (
        record ctx' { words = ctx.words ++ (record { name = name; vm_word_idx = idx } ∷ []) },
        none,
      )
      else (ctx', some out_of_memory)
]

-- What follows the test of the arguments.
unfoldable pub register_entry :
    Platform → V4FrontContext → Bytes → ℕ → V4FrontContext × Option FrontErr
unfolding update_entry add_entry
register_entry pl ctx name idx = elim (update_entry name idx ctx.words) [
  | some words ↦ (record ctx { words = words }, none)
  | none ↦ add_entry pl ctx name idx
]

-- `front_err_to_int`, with `none` for `OK`.
abbrev pub code_of : Option FrontErr → ℤ
code_of none = pos 0
code_of (some e) = front_err_to_int e

-- The context and the value returned; -1 is an invalid argument.
unfoldable pub context_register_word :
    Platform → Option V4FrontContext → Option Bytes → ℕ → Option V4FrontContext × ℤ
unfolding register_entry
context_register_word pl none name idx = (none, negsuc 0)
context_register_word pl (some ctx) none idx = (some ctx, negsuc 0)
context_register_word pl (some ctx) (some name) idx =
    let (ctx', e) = register_entry pl ctx name idx in (some ctx', code_of e)

unfoldable pub context_get_word_count : Option V4FrontContext → ℕ
context_get_word_count none = 0
context_get_word_count (some ctx) = word_count ctx

-- `none` is a null pointer. An index that is negative as an `int` is out of range here too.
unfoldable pub context_get_word_name : Option V4FrontContext → ℕ → Option Bytes
context_get_word_name none idx = none
context_get_word_name (some ctx) idx = elim (get_elem? ctx.words idx) [
  | none ↦ none
  | some w ↦ some w.name
]

-- -1 as an `int`
abbrev pub minus_one : ℕ
minus_one = 2 ^ 32 - 1

unfoldable pub find_entry : Bytes → List ContextWordEntry → ℕ
unfolding str_eq_ci
find_entry name [] = minus_one
find_entry name (w ∷ ws) = if str_eq_ci w.name name then w.vm_word_idx else find_entry name ws

unfoldable pub context_find_word : Option V4FrontContext → Option Bytes → ℕ
unfolding find_entry
context_find_word none name = minus_one
context_find_word (some ctx) none = minus_one
context_find_word (some ctx) (some name) = find_entry name ctx.words
