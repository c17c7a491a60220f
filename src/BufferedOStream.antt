-- ===== src/BufferedOStream.antt =====
-- c/src/BufferedOStream.h and BufferedOStream.c: an output stream with a buffer that is filled in
-- place. The buffer and the underlying stream are reached through pointers in C; here the state
-- holds what they point to. A pointer into the buffer is an offset into its block.
use tstorage_clients.Prelude.{
  List, Option, assert, if◌then◌else◌, leb, ltb, some, ℕ, ◌+◌, ◌-◌, ◌>>=◌, ◌>>◌,
}
use tstorage_clients.Memory.{Allocator, load, size_max}
use tstorage_clients.ErrorCode.{ErrorCode, is_limit, is_ok, limit, ok}
use tstorage_clients.DynamicBuffer.{DynamicBuffer}
pub mod Reserve
pub mod Flush
pub mod Obtain
pub mod Emit
pub mod Sequence
use tstorage_clients.DynamicBuffer

-- `struct BufferedOStream`; `S` is the state of the underlying stream.
pub record BufferedOStream (S : Type 0) : Type 0 where
  pub buffer : DynamicBuffer
  pub stream : S
  pub reserve_pos : ℕ

-- `BufferedOStream_write_fun`
abbrev pub WriteFun : Type 0 → Type 0
WriteFun S = S → List ℕ → Option (ErrorCode × S)

module _ {S : Type 0} where
  -- `BufferedOStream_reset`
  unfoldable pub reset : BufferedOStream S → BufferedOStream S
  reset o = record o { reserve_pos = 0 }

  -- `BufferedOStream_initialize`
  unfoldable pub initialize : DynamicBuffer → S → BufferedOStream S
  unfolding reset
  initialize buffer stream = reset (record { buffer = buffer; stream = stream; reserve_pos = 0 })

  -- `BufferedOStream_finalize`
  unfoldable pub finalize : BufferedOStream S → BufferedOStream S
  finalize o = o

  -- `BufferedOStream_sizeReserved`
  unfoldable pub size_reserved : BufferedOStream S → Option ℕ
  size_reserved o = do
    assert (leb o.reserve_pos o.buffer.size)
    some (o.buffer.size - o.reserve_pos)

  -- `BufferedOStream_confirm`
  unfoldable pub confirm : BufferedOStream S → ℕ → Option (BufferedOStream S)
  confirm o size = do
    reserved ← size_reserved o
    assert (leb size reserved)
    some (record o { reserve_pos = o.reserve_pos + size })

  -- `BufferedOStream_bufferSize`
  unfoldable pub buffer_size : BufferedOStream S → ℕ
  buffer_size o = o.buffer.max_size

  module _ (write : WriteFun S) where
    -- `BufferedOStream_flush`
    unfoldable pub flush : BufferedOStream S → Option (ErrorCode × BufferedOStream S)
    flush o =
        if ltb 0 o.reserve_pos
        then (do
          pending ← load o.buffer.storage 0 o.reserve_pos
          (res, stream) ← write o.stream pending
          some (res, record o { stream = stream; reserve_pos = 0 }))
        else some (ok, o)

module _ {S : Type 0} (mem : Allocator) where
  -- The reservation proper, in a buffer that is large enough.
  pointed : BufferedOStream S → ℕ → Option (ErrorCode × ℕ × BufferedOStream S)
  unfolding size_reserved
  pointed o size = do
    reserved ← size_reserved o
    assert (leb size reserved)
    some (ok, o.reserve_pos, o)

  -- The call of DynamicBuffer_resize and what follows it.
  enlarged :
      BufferedOStream S
      → ℕ
      → ℕ
      → ErrorCode × DynamicBuffer
      → Option (ErrorCode × ℕ × BufferedOStream S)
  unfolding pointed
  enlarged o buffer size (res, b) =
      let o' : BufferedOStream S = record o { buffer = b } in
      if is_ok res then pointed o' size else some (res, buffer, o')

  -- `BufferedOStream_reserve`. The offset given is what `*buffer` holds before the call, and the
  -- one returned what it holds after it.
  unfoldable pub reserve : BufferedOStream S → ℕ → ℕ → Option (ErrorCode × ℕ × BufferedOStream S)
  unfolding size_reserved enlarged pointed
  reserve o buffer size = do
    assert (leb o.buffer.size o.buffer.max_size)
    assert (leb o.reserve_pos o.buffer.size)
    free_size ← size_reserved o
    if ltb free_size size
        then (if ltb (size_max - o.reserve_pos) size
            then some (limit, buffer, o)
            else DynamicBuffer.resize mem o.buffer (o.reserve_pos + size)
              >>= enlarged o buffer size)
        else pointed o size

module _ {S : Type 0} (mem : Allocator) (write : WriteFun S) where
  -- `BufferedOStream_reserveFlushing`
  unfoldable pub reserve_flushing :
      BufferedOStream S → ℕ → ℕ → Option (ErrorCode × ℕ × BufferedOStream S)
  reserve_flushing o buffer size = do
    (res, buffer', o') ← reserve mem o buffer size
    if is_limit res
        then (do
          (flushed, o'') ← flush write o'
          if is_ok flushed then reserve mem o'' buffer' size else some (flushed, buffer', o''))
        else some (res, buffer', o')

  -- The body that the `_write` functions of the library share: reserve `size` bytes, let
  -- `serialize` fill them, and confirm them.
  unfoldable pub write_with :
      (List ℕ → ℕ → Option (List ℕ))
      → ℕ
      → BufferedOStream S
      → Option (ErrorCode × BufferedOStream S)
  write_with serialize size o = do
    (res, buffer, o') ← reserve_flushing o 0 size
    if is_ok res
        then (do
          storage ← serialize o'.buffer.storage buffer
          o'' ← confirm (record o' { buffer = record (o'.buffer) { storage = storage } }) size
          some (ok, o''))
        else some (res, o')
