-- ===== src/Put/Place.antt =====
-- One round of the loop of writeCidBatch (c/src/RecordsSet.c): a record is put behind those that
-- are in the buffer, or the batch ends and the buffer keeps them.
use tstorage_clients.Prelude.{
  List, ap, arith, drop, drop-append_of_le, false, length, length-append, length-take, refl, sym,
  take, take-append_of_le, take-take, true, ℕ, ◌++◌, ◌+◌, ◌<◌, ◌∙◌, ◌≡◌, ◌≤◌, ◌⊎◌,
}
use tstorage_clients.Memory.{Allocator, Generous}
use tstorage_clients.BufferedOStream.{BufferedOStream}
use tstorage_clients.BufferedOStream.Reserve.{IsOut, pending}
use tstorage_clients.Put.{Batch, Round, counted, next, stop, with_storage}
use tstorage_clients.Record.{Record, int32_max}
use tstorage_clients.Record.Format.{Format}

module _ {S : Type 0} (mem : Allocator) (format : Format) where
  open format use {serialize, bytes_of, small, positive, serialize_lem}

  -- The buffer holds what was pending in `o`, eight bytes for the batch's header, and the bytes `c`
  -- of the batch's records.
  pub record Filled (o : BufferedOStream S) (c : List ℕ) (b : Batch S) : Type 0 where
    pub valid : IsOut b.output
    pub same_pos : b.output.reserve_pos ≡ o.reserve_pos
    pub same_stream : b.output.stream ≡ o.stream
    pub same_limit : b.output.buffer.max_size ≡ o.buffer.max_size
    pub start_at : b.buffer ≡ o.reserve_pos
    pub count : b.batch_size ≡ length c
    pub end_at : b.write_pos ≡ 8 + length c
    pub room : o.reserve_pos + (8 + length c) ≤ b.output.buffer.size
    pub kept : take o.reserve_pos b.output.buffer.storage ≡ pending o
    pub held :
        drop (o.reserve_pos + 8) (take (o.reserve_pos + (8 + length c)) b.output.buffer.storage) ≡ c
    pub fits_int : length c ≤ int32_max

  -- Why the loop stops before the record `r`, behind the bytes `c`.
  abbrev pub Stops : BufferedOStream S → List ℕ → Record → Batch S → Type 0
  Stops o c r b =
      (b.rec_too_large ≡ true) × (o.buffer.max_size < 8 + length (bytes_of r))
      ⊎ (b.rec_too_large ≡ false)
        × ((int32_max < length c + length (bytes_of r))
            ⊎ (8 + length (bytes_of r) ≤ o.buffer.max_size)
              × (o.buffer.max_size < o.reserve_pos + (8 + length c + length (bytes_of r)))
            ⊎ ¬ Generous mem)

  abbrev pub RoundEnd : BufferedOStream S → List ℕ → Record → Round S → Type 0
  RoundEnd o c r (next b) = Filled o (c ++ bytes_of r) b × (b.rec_too_large ≡ false)
  RoundEnd o c r (stop b) = Filled o c b × Stops o c r b

  module _ (o : BufferedOStream S) (c : List ℕ) (b : Batch S) (f : Filled o c b) where
    -- The part of the block below the end of the batch decides the invariant.
    pub refilled :
        (b' : Batch S)
        → IsOut b'.output
        → b'.output.reserve_pos ≡ b.output.reserve_pos
        → b'.output.stream ≡ b.output.stream
        → b'.output.buffer.max_size ≡ b.output.buffer.max_size
        → b'.buffer ≡ o.reserve_pos
        → b'.batch_size ≡ b.batch_size
        → b'.write_pos ≡ b.write_pos
        → b.output.buffer.size ≤ b'.output.buffer.size
        → take (o.reserve_pos + (8 + length c)) b'.output.buffer.storage
          ≡ take (o.reserve_pos + (8 + length c)) b.output.buffer.storage
        → Filled o c b'
    refilled b' v pos stream most start count finish grows same = record {
      valid = v;
      same_pos = pos ∙ f.same_pos;
      same_stream = stream ∙ f.same_stream;
      same_limit = most ∙ f.same_limit;
      start_at = start;
      count = count ∙ f.count;
      end_at = finish ∙ f.end_at;
      room = omega (arith, f.room);
      kept =
          sym (take-take o.reserve_pos reach b'.output.buffer.storage (omega arith))
          ∙ ap (take o.reserve_pos) same
          ∙ take-take o.reserve_pos reach b.output.buffer.storage (omega arith)
          ∙ f.kept;
      held = ap (drop (o.reserve_pos + 8)) same ∙ f.held;
      fits_int = f.fits_int;
    }
      where
        reach : ℕ
        reach = o.reserve_pos + (8 + length c)

    -- The block changed behind the batch only.
    pub scribbled :
        (storage : List ℕ)
        → length storage ≡ length b.output.buffer.storage
        → take (o.reserve_pos + (8 + length c)) storage
          ≡ take (o.reserve_pos + (8 + length c)) b.output.buffer.storage
        → Filled o c (record b { output = with_storage b.output storage })
    scribbled storage len same =
        refilled (record b { output = with_storage b.output storage })
          (record {
            buffered = record {
              within = f.valid.buffered.within;
              sized = len ∙ f.valid.buffered.sized;
              bounded = f.valid.buffered.bounded;
            };
            in_buffer = f.valid.in_buffer;
          })
          refl refl refl f.start_at refl refl (omega arith) same

    -- The record stands behind the batch.
    pub extended :
        (r : Record) (storage : List ℕ)
        → length storage ≡ length b.output.buffer.storage
        → o.reserve_pos + (8 + length c) + length (bytes_of r) ≤ b.output.buffer.size
        → length c + length (bytes_of r) ≤ int32_max
        → take (o.reserve_pos + (8 + length c) + length (bytes_of r)) storage
          ≡ take (o.reserve_pos + (8 + length c)) b.output.buffer.storage ++ bytes_of r
        → Filled o
            (c ++ bytes_of r)
            (counted b (with_storage b.output storage) b.buffer (length (bytes_of r)))
    extended r storage len fits few written = record {
      valid = record {
        buffered = record {
          within = f.valid.buffered.within;
          sized = len ∙ f.valid.buffered.sized;
          bounded = f.valid.buffered.bounded;
        };
        in_buffer = f.valid.in_buffer;
      };
      same_pos = f.same_pos;
      same_stream = f.same_stream;
      same_limit = f.same_limit;
      start_at = f.start_at;
      count = omega (arith, f.count, longer);
      end_at = omega (arith, f.end_at, longer);
      room = omega (arith, longer);
      kept =
          sym (take-take o.reserve_pos (reach + n) storage (omega arith))
          ∙ ap (take o.reserve_pos) written
          ∙ take-append_of_le o.reserve_pos old (bytes_of r) (omega (arith, old_length))
          ∙ take-take o.reserve_pos reach b.output.buffer.storage (omega arith)
          ∙ f.kept;
      held =
          ap (λ (k : ℕ). drop (o.reserve_pos + 8) (take k storage)) new_reach
          ∙ ap (drop (o.reserve_pos + 8)) written
          ∙ drop-append_of_le (o.reserve_pos + 8) old (bytes_of r) (omega (arith, old_length))
          ∙ ap (λ s. s ++ bytes_of r) f.held;
      fits_int = omega (arith, longer);
    }
      where
        n : ℕ
        n = length (bytes_of r)

        reach : ℕ
        reach = o.reserve_pos + (8 + length c)

        old : List ℕ
        old = take reach b.output.buffer.storage

        longer : length (c ++ bytes_of r) ≡ length c + n
        longer = length-append c (bytes_of r)

        new_reach : o.reserve_pos + (8 + length (c ++ bytes_of r)) ≡ reach + n
        new_reach = omega (arith, longer)

        old_length : length old ≡ reach
        old_length =
            omega (arith, length-take reach b.output.buffer.storage, f.room, f.valid.buffered.sized)
