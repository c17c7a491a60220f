-- ===== src/Cpp/Buffer.antt =====
-- cpp/libtstorageclient++/src/Buffer.h and Buffer.cpp: a block of a fixed size with a read and a write offset.
pub mod Contents
use tstorage_clients.Prelude.{
  Bool, List, Option, false, if◌then◌else◌, ltb, none, some, true, ℕ, ◌==◌, ◌>>=◌,
}
use tstorage_clients.Memory.{add_size, load, move_down, store, sub_size}

-- `class Buffer`; a null pointer is `none`.
pub record Buffer : Type 0 where
  pub block : Option (List ℕ)
  pub buffer_size : ℕ
  pub write_offset : ℕ
  pub read_offset : ℕ

-- `Buffer()`
abbrev pub null_buffer : Buffer
null_buffer = record { block = none; buffer_size = 0; write_offset = 0; read_offset = 0 }

-- `Buffer(size_t)`, with the answer of `new`.
unfoldable pub allocated_buffer : Option (List ℕ) → ℕ → Buffer
allocated_buffer block size = record {
  block = block;
  buffer_size = size;
  write_offset = 0;
  read_offset = 0;
}

-- `valid`
unfoldable pub valid : Buffer → Bool
valid b = elim (b.block) [ none ↦ false | some _ ↦ true ]

-- `readAdvance`
unfoldable pub read_advance : Buffer → ℕ → Buffer
read_advance b amount = record b { read_offset = add_size b.read_offset amount }

-- `writeAdvance`
unfoldable pub write_advance : Buffer → ℕ → Buffer
write_advance b amount = record b { write_offset = add_size b.write_offset amount }

-- `bytesAvailableToRead`
unfoldable pub bytes_available : Buffer → ℕ
bytes_available b = sub_size b.write_offset b.read_offset

-- `bytesOfFreeSpace`
unfoldable pub bytes_free : Buffer → ℕ
bytes_free b = sub_size b.buffer_size b.write_offset

-- `reset`
unfoldable pub reset_offsets : Buffer → Buffer
reset_offsets b = record b { write_offset = 0; read_offset = 0 }

-- `reserve`; an invalid buffer has no bytes to move.
unfoldable pub reserve_target : Buffer → ℕ → Option (Bool × Buffer)
reserve_target b target =
    let available = bytes_available b in
    let free = bytes_free b in
    if ltb b.buffer_size (add_size available target)
    then some (false, b)
    else (if ltb free target
        then (do
          block ← b.block
          block' ← move_down block b.read_offset available
          some (true, record b { block = some block'; write_offset = available; read_offset = 0 }))
        else some (true, b))

-- memcpy to an offset of the block, and from one.
unfoldable pub write_at : Buffer → ℕ → List ℕ → Option Buffer
write_at b at bytes = do
  block ← b.block
  block' ← store block at bytes
  some (record b { block = some block' })

unfoldable pub read_at : Buffer → ℕ → ℕ → Option (List ℕ)
read_at b at n = do block ← b.block; load block at n

-- The copy assignment from another buffer; `new` is the answer of the allocation, if it is asked for.
unfoldable pub copy_buffer : Buffer → Buffer → Option (List ℕ) → Option Buffer
copy_buffer this from new =
    let assigned : Buffer =
      if this.buffer_size == from.buffer_size
      then this
      else elim (if valid from then new else none) [
        | none ↦ null_buffer
        | some block ↦ record from { block = some block }
      ] in
    if assigned.buffer_size == 0
    then some assigned
    else (do bytes ← read_at from 0 assigned.buffer_size; write_at assigned 0 bytes)
