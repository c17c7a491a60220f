-- ===== src/Put.antt =====
-- writeCidBatch and commonWrite of c/src/RecordsSet.c: how the records of a put request are written,
-- in batches of one cid. The records between `*recPtr` and `recordsEnd` are a list.
pub mod Place
pub mod Rounds
pub mod Loop
pub mod Finish
pub mod Batches
pub mod Write
use tstorage_clients.Prelude.{
  Bool, List, Option, [], assert, false, if◌then◌else◌, leb, length, ltb, none, some, suc, true,
  zero, ℕ, ◌+◌, ◌-◌, ◌==◌, ◌>>=◌, ◌>>◌, ◌^◌, ◌∷◌,
}
use tstorage_clients.Memory.{Allocator, store, sub_size}
use tstorage_clients.ErrorCode.{ErrorCode, is_ok, limit, ok}
use tstorage_clients.BufferedOStream.{
  BufferedOStream, WriteFun, buffer_size, confirm, flush, reserve, reserve_flushing, size_reserved,
  write_with,
}
use tstorage_clients.Bytes.{le_bytes}
use tstorage_clients.Record.{Record, int32_max}
use mathlib.Core.Bool.{not}

-- `Record_serialize_fun`: record, memory, offset and space; the size needed, and the memory.
abbrev pub SerializeFun : Type 0
SerializeFun = Record → List ℕ → ℕ → ℕ → Option (ℕ × List ℕ)

-- The size of a batch's header: cid and batchSize.
abbrev pub batch_header_size : ℕ
batch_header_size = 4 + 4

-- The variables of writeCidBatch.
pub record Batch (S : Type 0) : Type 0 where
  pub output : BufferedOStream S
  pub buffer : ℕ
  pub batch_size : ℕ
  pub write_pos : ℕ
  pub rec_too_large : Bool
  pub need_flush : Bool

-- How a round of the loop ends: with the next record, or by `break`.
pub data Round (S : Type 0) : Type 0 where
  next stop : Batch S → Round S

module _ {S : Type 0} where
  -- The stream with new contents of its buffer's block.
  abbrev pub with_storage : BufferedOStream S → List ℕ → BufferedOStream S
  with_storage o storage = record o { buffer = record (o.buffer) { storage = storage } }

  -- `batchSize += recSize; writePos += recSize;`
  abbrev pub counted : Batch S → BufferedOStream S → ℕ → ℕ → Batch S
  counted b o buffer rec_size = record b {
    output = o;
    buffer = buffer;
    batch_size = b.batch_size + rec_size;
    write_pos = b.write_pos + rec_size;
  }

  module _ (mem : Allocator) (serialize : SerializeFun) where
    -- The record needs `rec_size` bytes, more than are free: enlarge the buffer and try again.
    unfoldable pub enlarge : Batch S → Record → ℕ → Option (Round S)
    enlarge b rec rec_size =
        if ltb (sub_size (buffer_size b.output) batch_header_size) rec_size
        then some (stop (record b { rec_too_large = true }))
        else (do
          (res, buffer, o) ← reserve mem b.output b.buffer (b.write_pos + rec_size)
          if is_ok res
              then (do
                (rec_size₂, storage) ←
                    serialize rec o.buffer.storage (buffer + b.write_pos) rec_size
                assert (rec_size₂ == rec_size)
                some (next (counted b (with_storage o storage) buffer rec_size)))
              else some (stop (record b { output = o; buffer = buffer; need_flush = true })))

    -- The body of the loop, for a record of the batch's cid.
    unfoldable pub place : Batch S → Record → Option (Round S)
    place b rec = do
      reserved ← size_reserved b.output
      assert (leb b.write_pos reserved)
      let free_size = reserved - b.write_pos
      (rec_size, storage) ← serialize rec b.output.buffer.storage (b.buffer + b.write_pos) free_size
      let b' : Batch S = record b { output = with_storage b.output storage }
      assert (leb rec_size int32_max)
      if ltb (int32_max - rec_size) b.batch_size
          then some (stop b')
          else (if ltb free_size rec_size
              then enlarge b' rec rec_size
              else some (next (counted b' b'.output b'.buffer rec_size)))

    -- The loop: the variables when it is left, and the records not placed.
    unfoldable pub batch_loop : ℕ → Batch S → List Record → Option (Batch S × List Record)
    batch_loop cid b [] = some (b, [])
    batch_loop cid b (rec ∷ recs) = do
      assert (b.batch_size + batch_header_size == b.write_pos)
      if rec.key.cid == cid
          then (place b rec
              >>= elim [ next b' ↦ batch_loop cid b' recs | stop b' ↦ some (b', rec ∷ recs) ])
          else some (b, rec ∷ recs)

    module _ (write : WriteFun S) where
      -- After the loop: the batch's header, the confirmation, and the flush if there is need.
      -- `moved` tells if `*recPtr` has left `recStart`.
      unfoldable pub finish_batch : ℕ → Bool → Batch S → Option (ErrorCode × BufferedOStream S)
      finish_batch cid moved b =
          if b.rec_too_large
          then some (limit, b.output)
          else (if b.batch_size == 0 then (assert (not moved) >> flush write b.output) else (do
            assert moved
            m₁ ← store b.output.buffer.storage b.buffer (le_bytes 4 cid)
            m₂ ← store m₁ (b.buffer + 4) (le_bytes 4 b.batch_size)
            o ← confirm (with_storage b.output m₂) b.write_pos
            if b.need_flush then flush write o else some (ok, o)))

      -- `writeCidBatch`, on the records from `*recPtr` on; it also returns those that remain.
      unfoldable pub write_cid_batch :
          BufferedOStream S → List Record → Option (ErrorCode × BufferedOStream S × List Record)
      write_cid_batch o [] = none
      write_cid_batch o (start ∷ recs) = do
        (res, buffer, o') ← reserve_flushing mem write o 0 batch_header_size
        if is_ok res
            then (do
              let fresh : Batch S = record {
                output = o';
                buffer = buffer;
                batch_size = 0;
                write_pos = batch_header_size;
                rec_too_large = false;
                need_flush = false;
              }
              (b, rest) ← batch_loop start.key.cid fresh (start ∷ recs)
              let moved = ltb (length rest) (length (start ∷ recs))
              (res', o'') ← finish_batch start.key.cid moved b
              some (res', o'', rest))
            else some (res, o', start ∷ recs)

-- What the loop of commonWrite has reached: its end, or the end of the rounds that the model allows.
pub data Progress (S : Type 0) : Type 0 where
  finished : ErrorCode → BufferedOStream S → Progress S
  running : Progress S

module _ {S : Type 0} (mem : Allocator) (serialize : SerializeFun) (write : WriteFun S) where
  -- The end mark: a cid of -1.
  unfoldable pub write_end_mark : BufferedOStream S → Option (ErrorCode × BufferedOStream S)
  write_end_mark o = write_with mem write (λ m at. store m at (le_bytes 4 (2 ^ 32 - 1))) 4 o

  -- `commonWrite`: the loop over the batches, for a number of rounds, and the end mark.
  unfoldable pub common_write : ℕ → BufferedOStream S → List Record → Option (Progress S)
  common_write rounds o [] = do (res, o') ← write_end_mark o; some (finished res o')
  common_write zero o (rec ∷ recs) = some running
  common_write (suc rounds) o (rec ∷ recs) = do
    (res, o', rest) ← write_cid_batch mem serialize write o (rec ∷ recs)
    elim (is_ok res) [ true ↦ common_write rounds o' rest | false ↦ some (finished res o') ]
