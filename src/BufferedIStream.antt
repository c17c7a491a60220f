-- ===== src/BufferedIStream.antt =====
-- c/src/BufferedIStream.h and BufferedIStream.c: a stream whose reservations are filled from an
-- underlying stream, through a DynamicBuffer. `S` is the state of the underlying stream.
pub mod Fill
pub mod Confirm
pub mod Reserve
pub mod Obtain
use tstorage_clients.Prelude.{
  List, Option, assert, if◌then◌else◌, leb, length, ltb, some, ℕ, ◌+◌, ◌-◌, ◌>>=◌, ◌>>◌,
}
use tstorage_clients.Memory.{Allocator, move_down, store, sub_size}
use tstorage_clients.ErrorCode.{ErrorCode, is_ok, limit, ok, receive}
use tstorage_clients.DynamicBuffer.{DynamicBuffer}
use tstorage_clients.DynamicBuffer
use mathlib.Core.Bool.{not}

-- `struct BufferedIStream`
pub record BufferedIStream (S : Type 0) : Type 0 where
  pub buffer : DynamicBuffer
  pub stream : S
  pub read_pos : ℕ
  pub reserve_pos : ℕ

-- `BufferedIStream_read_fun`: the least and the largest number of bytes wanted; those received.
abbrev pub ReadFun : Type 0 → Type 0
ReadFun S = S → ℕ → ℕ → Option (List ℕ × S)

module _ {S : Type 0} where
  -- `BufferedIStream_reset`
  unfoldable pub reset_input : BufferedIStream S → BufferedIStream S
  reset_input i = record i { read_pos = 0; reserve_pos = 0 }

  -- `BufferedIStream_initialize`
  unfoldable pub initialize_input : DynamicBuffer → S → BufferedIStream S
  unfolding reset_input
  initialize_input buffer stream =
      reset_input (record { buffer = buffer; stream = stream; read_pos = 0; reserve_pos = 0 })

  -- `BufferedIStream_finalize`
  unfoldable pub finalize_input : BufferedIStream S → BufferedIStream S
  finalize_input i = i

  -- `sizeUnused`
  unfoldable pub size_unused : BufferedIStream S → Option ℕ
  size_unused i = do assert (leb i.read_pos i.buffer.size); some (i.buffer.size - i.read_pos)

  -- `maxSizeUnused`
  unfoldable pub max_size_unused : BufferedIStream S → Option ℕ
  max_size_unused i = do
    assert (leb i.read_pos i.buffer.max_size)
    some (i.buffer.max_size - i.read_pos)

  -- `BufferedIStream_confirm`: what was reserved leaves the buffer.
  unfoldable pub confirm_input : BufferedIStream S → Option (BufferedIStream S)
  confirm_input i = do
    let remaining = sub_size i.read_pos i.reserve_pos
    storage ←
        (if ltb 0 remaining
          then move_down i.buffer.storage i.reserve_pos remaining
          else some i.buffer.storage)
    some (record i {
      buffer = record (i.buffer) { storage = storage };
      reserve_pos = 0;
      read_pos = remaining;
    })

  -- The end of BufferedIStream_reserve: the result, where the reservation starts, the stream.
  unfoldable pub take_reserved : BufferedIStream S → ℕ → Option (ErrorCode × ℕ × BufferedIStream S)
  take_reserved i size = do
    assert (leb i.read_pos i.buffer.size)
    assert (leb size (sub_size i.read_pos i.reserve_pos))
    some (ok, i.reserve_pos, record i { reserve_pos = i.reserve_pos + size })

  module _ (read : ReadFun S) where
    -- The call of `read`, for `wanted` bytes at least, and what follows it. The offset is what
    -- `*buffer` holds if nothing is reserved.
    unfoldable pub receive_more :
        BufferedIStream S → ℕ → ℕ → ℕ → Option (ErrorCode × ℕ × BufferedIStream S)
    unfolding size_unused take_reserved
    receive_more i buffer size wanted = do
      free_size ← size_unused i
      (bytes, stream) ← read i.stream wanted free_size
      storage ← store i.buffer.storage i.read_pos bytes
      let i' : BufferedIStream S = record i {
        buffer = record (i.buffer) { storage = storage };
        stream = stream;
      }
      if ltb (length bytes) wanted
          then some (receive, buffer, i')
          else take_reserved (record i' { read_pos = i.read_pos + length bytes }) size

module _ {S : Type 0} (mem : Allocator) (read : ReadFun S) where
  -- The buffer is enlarged, if DynamicBuffer_resize has succeeded.
  unfoldable pub receive_enlarged :
      BufferedIStream S
      → ℕ
      → ℕ
      → ℕ
      → ErrorCode × DynamicBuffer
      → Option (ErrorCode × ℕ × BufferedIStream S)
  receive_enlarged i buffer size wanted (res, b) =
      let i' : BufferedIStream S = record i { buffer = b } in
      if is_ok res then receive_more read i' buffer size wanted else some (res, buffer, i')

  -- `BufferedIStream_reserve`
  unfoldable pub reserve_input :
      BufferedIStream S → ℕ → ℕ → Option (ErrorCode × ℕ × BufferedIStream S)
  reserve_input i buffer size = do
    assert (leb i.buffer.size i.buffer.max_size)
    assert (leb i.read_pos i.buffer.size)
    assert (leb i.reserve_pos i.read_pos)
    let size_ahead = i.read_pos - i.reserve_pos
    if ltb size_ahead size
        then (do
          let wanted = size - size_ahead
          free_size ← size_unused i
          if ltb free_size wanted
              then (do
                most ← max_size_unused i
                if ltb most wanted
                    then some (limit, buffer, i)
                    else (DynamicBuffer.resize mem i.buffer (i.read_pos + wanted)
                        >>= receive_enlarged i buffer size wanted))
              else receive_more read i buffer size wanted)
        else take_reserved i size
