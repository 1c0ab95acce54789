-- ===== src/Memory/Wrapper.antt =====
-- `BytecodeBuffer` of include/v4front/compile.hpp: what its operations do to the buffers of one or
-- two objects and to the heap. `v4front_compile` is given by what it hands out.
pub mod Lifetime
use v4_front.Base.{ℕ, Bool, true, false, ◌||◌, Option, none, some, ◌==◌}
use v4_front.Result.{FrontErr}
use v4_front.Memory.{Heap, ◌>>=◌, Handle, no_handle, HandedOut, v4front_free}

-- `BytecodeBuffer()`
abbrev pub construct : Handle
construct = no_handle

-- `~BytecodeBuffer()`
unfoldable pub destruct : Handle → Heap → Option Heap
unfolding v4front_free
destruct b h = do (_, h₁) ← v4front_free b h; some h₁

-- `BytecodeBuffer(BytecodeBuffer&& other)`: the new object, and `other`.
unfoldable pub move_construct : Handle → Handle × Handle
move_construct other = (other, no_handle)

-- `operator=(BytecodeBuffer&& other)`: this object, and `other`. The Boolean is whether `this` is
-- `&other`, where nothing is done.
unfoldable pub move_assign : Bool → Handle → Handle → Heap → Option ((Handle × Handle) × Heap)
unfolding v4front_free
move_assign true b other h = some ((b, other), h)
move_assign false b other h = do (_, h₁) ← v4front_free b h; some ((other, no_handle), h₁)

-- `compile`, and `compile_word`, which differs in an argument that is ignored.
unfoldable pub compile : (Heap → Option HandedOut) → Handle → Heap → Option HandedOut
unfolding v4front_free
compile v4front_compile b h = do (_, h₁) ← v4front_free b h; v4front_compile h₁

-- `data() == nullptr || size() == 0`
unfoldable pub empty : Handle → Bool
empty b = b.data_at == 0 || b.size == 0

-- `release`: what is returned, and the object.
unfoldable pub release : Handle → Handle × Handle
release b = (b, no_handle)

unfoldable pub clear : Handle → Heap → Option (Handle × Heap)
unfolding v4front_free
clear b h = do (_, h₁) ← v4front_free b h; some (no_handle, h₁)
