-- ===== src/DynamicBuffer.antt =====
-- c/src/DynamicBuffer.h and DynamicBuffer.c: a block of memory that grows up to a maximal size.
-- The allocator is the C library's (`Memory.Allocator`). An assertion that fails ends a run (`none`).
pub mod Resize
use tstorage_clients.Prelude.{
  List, Option, [], assert, if◌then◌else◌, leb, ltb, none, some, ℕ, ◌+◌, ◌/◌, ◌==◌, ◌>>=◌, ◌>>◌,
}
use tstorage_clients.Memory.{Allocator, mul_size}
use tstorage_clients.ErrorCode.{ErrorCode, is_ok, limit, ok, resource}

-- `struct DynamicBuffer`. The null pointer is the empty block. `calls` counts the calls of
-- realloc(3) so far, by which the allocator's answers are numbered.
pub record DynamicBuffer : Type 0 where
  pub max_size : ℕ
  pub size : ℕ
  pub storage : List ℕ
  pub calls : ℕ

-- What realloc(3) answered, entered in the buffer.
abbrev reallocated : DynamicBuffer → ℕ → Option (List ℕ) → ErrorCode × DynamicBuffer
reallocated b size none = (resource, record b { calls = b.calls + 1 })
reallocated b size (some storage) =
    (ok, record b { size = size; storage = storage; calls = b.calls + 1 })

module _ (mem : Allocator) where
  -- `setSize`
  unfoldable pub set_size : DynamicBuffer → ℕ → Option (ErrorCode × DynamicBuffer)
  set_size b size = if size == 0 then some (ok, record b { size = 0; storage = [] }) else do
    assert (leb size b.max_size)
    some (reallocated b size (mem.realloc b.calls b.storage size))

  -- `DynamicBuffer_initialize`; `b` is the memory before it is initialized.
  unfoldable pub initialize : DynamicBuffer → ℕ → ℕ → Option (ErrorCode × DynamicBuffer)
  initialize b max_size size = do
    assert (leb size max_size)
    set_size (record b { max_size = max_size; storage = [] }) size

  -- `DynamicBuffer_setMaxSize`
  unfoldable pub set_max_size : DynamicBuffer → ℕ → Option DynamicBuffer
  set_max_size b size = do
    (set_res, b') ← set_size b 0
    assert (is_ok set_res)
    some (record b' { max_size = size })

  -- The size that `grow` asks for: twice the old one at least, up to the maximum.
  unfoldable pub grown : DynamicBuffer → ℕ → ℕ
  grown b size =
      if ltb (size / 2) b.size
      then (if ltb (b.max_size / 2) b.size then b.max_size else mul_size b.size 2)
      else size

  -- `grow`
  unfoldable pub grow : DynamicBuffer → ℕ → Option (ErrorCode × DynamicBuffer)
  unfolding grown
  grow b size = do
    assert (ltb b.size size)
    if ltb b.max_size size then some (limit, b) else set_size b (grown b size)

  -- `DynamicBuffer_resize`
  unfoldable pub resize : DynamicBuffer → ℕ → Option (ErrorCode × DynamicBuffer)
  unfolding grow
  resize b size = if ltb b.size size then grow b size else some (ok, b)

-- `DynamicBuffer_finalize`: the block is given back.
unfoldable pub finalize : DynamicBuffer → DynamicBuffer
finalize b = record b { storage = [] }
