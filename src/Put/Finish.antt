-- ===== src/Put/Finish.antt =====
-- What writeCidBatch (c/src/RecordsSet.c) does after its loop.
use tstorage_clients.Prelude.{
  ==_iff, Bool, Bool-cases, List, Option, Returns, Returns-mono, [], ap, append-nil, append_assoc,
  arith, drop, false, if◌then◌else◌, inl, inr, length, length-append, refl, some, sym, take, true,
  ℕ, ◌++◌, ◌+◌, ◌==◌, ◌>>=◌, ◌∙◌, ◌∷◌, ◌≡◌, ◌≢◌, ◌≤◌, ◌⊎◌,
}
use tstorage_clients.Memory.{Allocator, store}
use tstorage_clients.ErrorCode.{ErrorCode, limit, ok, send}
use tstorage_clients.BufferedOStream.{BufferedOStream, confirm, flush}
use tstorage_clients.BufferedOStream.Flush.{Flushed, Sink, flush_lem, output}
use tstorage_clients.BufferedOStream.Reserve.{IsOut, confirm_lem, pending}
use tstorage_clients.Bytes.{le_bytes, length-le_bytes}
use tstorage_clients.DynamicBuffer.{DynamicBuffer}
use tstorage_clients.Memory.Store.{length-store, store-store, store_fits, take-store_over}
use tstorage_clients.Put.{Batch, finish_batch, with_storage}
use tstorage_clients.Put.Loop.{records_bytes}
use tstorage_clients.Put.Place.{Filled}
use tstorage_clients.Record.{Record}
use tstorage_clients.Record.Format.{Format}
use mathlib.Core.Path.{ap₂}

-- A batch on the wire: cid, size of the records, records; no batch has no records.
abbrev pub batch_bytes : Format → ℕ → List Record → List ℕ
batch_bytes format cid [] = []
batch_bytes format cid (r ∷ rs) =
    (le_bytes 4 cid ++ le_bytes 4 (length (records_bytes format (r ∷ rs))))
    ++ records_bytes format (r ∷ rs)

no_records :
    (format : Format) (done : List Record) → length (records_bytes format done) ≡ 0 → done ≡ []
no_records format [] h = refl
no_records format (r ∷ rs) h =
    let longer = length-append (format.bytes_of r) (records_bytes format rs) in
    let positive = format.positive r in absurd (omega arith)

batch_bytes_some :
    (format : Format) (cid : ℕ) (done : List Record)
    → done ≢ []
    → batch_bytes format cid done
      ≡ (le_bytes 4 cid ++ le_bytes 4 (length (records_bytes format done)))
        ++ records_bytes format done
batch_bytes_some format cid [] h = absurd (h refl)
batch_bytes_some format cid (r ∷ rs) h = refl

module _ {S : Type 0} (sink : Sink S) (mem : Allocator) (format : Format) where
  open sink use {write, Ready, sent}

  -- What is written behind the loop for the records `done`.
  pub record Ended (o : BufferedOStream S) (cid : ℕ) (done : List Record) (large : Bool)
      (r : ErrorCode × BufferedOStream S) : Type 0 where
    pub valid : IsOut r.1
    pub ready : Ready r.1.stream
    pub same_limit : r.1.buffer.max_size ≡ o.buffer.max_size
    pub codes : (r.0 ≡ ok) ⊎ (r.0 ≡ limit) ⊎ (r.0 ≡ send)
    pub appended : r.0 ≡ ok → output sink r.1 ≡ output sink o ++ batch_bytes format cid done
    pub not_large : r.0 ≡ ok → large ≡ false
    pub limit_only : r.0 ≡ limit → large ≡ true
    pub emptied : r.0 ≡ ok → done ≡ [] → r.1.reserve_pos ≡ 0

  -- A flush of what the batch left in the buffer.
  flushed-Ended :
      (o b : BufferedOStream S) (cid : ℕ) (done : List Record)
      → IsOut b
      → Ready b.stream
      → b.buffer.max_size ≡ o.buffer.max_size
      → output sink b ≡ output sink o ++ batch_bytes format cid done
      → Returns (Ended o cid done false) (flush write b)
  flushed-Ended o b cid done v w most out =
      Returns-mono (Flushed sink b) (Ended o cid done false) _ (flush_lem sink b v w) λ r p.
        record {
          valid = p.valid;
          ready = p.ready;
          same_limit = ap (λ (d : DynamicBuffer). d.max_size) p.same_buffer ∙ most;
          codes = ground (arith, p.codes);
          appended = λ h. rw p.emptied (append-nil (sent r.1.stream) ∙ p.written h ∙ out);
          not_large = λ _. refl;
          limit_only = λ h. absurd (ground (arith, p.codes, h));
          emptied = λ _ _. p.emptied;
        }

  module _ (o : BufferedOStream S) (cid : ℕ) (done : List Record) (b : Batch S) (w : Ready o.stream)
      (f : Filled mem format o (records_bytes format done) b) where
    -- Nothing was added to what is pending.
    same_output : output sink b.output ≡ output sink o
    same_output = rw (f.same_stream, f.same_pos) (ap (λ t. sent o.stream ++ t) f.kept)

    still_ready : Ready b.output.stream
    still_ready = rw f.same_stream w

    too_large-Ended : Ended o cid done true (limit, b.output)
    too_large-Ended = record {
      valid = f.valid;
      ready = still_ready;
      same_limit = f.same_limit;
      codes = inr (inl refl);
      appended = λ h. absurd (ground (arith, h));
      not_large = λ h. absurd (ground (arith, h));
      limit_only = λ _. refl;
      emptied = λ h. absurd (ground (arith, h));
    }

    header : List ℕ
    header = le_bytes 4 cid ++ le_bytes 4 b.batch_size

    length-header : length header ≡ 8
    unfolding header le_bytes
    length-header = refl

    -- The batch's header stands before its records.
    header_written :
        (m : List ℕ)
        → store b.output.buffer.storage o.reserve_pos header ≡ some m
        → take (o.reserve_pos + b.write_pos) m ≡ pending o ++ (header ++ records_bytes format done)
    header_written m e =
        ap (λ (k : ℕ). take k m) reach
        ∙ take-store_over b.output.buffer.storage o.reserve_pos header m n e
        ∙ ap₂ (λ s t. s ++ (header ++ t)) f.kept behind
      where
        n : ℕ
        n = length (records_bytes format done)

        reach : o.reserve_pos + b.write_pos ≡ o.reserve_pos + length header + n
        reach = omega (arith, f.end_at, length-header)

        behind :
            drop
              (o.reserve_pos + length header)
              (take (o.reserve_pos + length header + n) b.output.buffer.storage)
            ≡ records_bytes format done
        behind =
            ap
              (λ (k : ℕ).
                drop (o.reserve_pos + k) (take (o.reserve_pos + k + n) b.output.buffer.storage))
              length-header
            ∙ ap (λ (k : ℕ). drop (o.reserve_pos + 8) (take k b.output.buffer.storage))
                (omega arith)
            ∙ f.held

    -- The stream with the batch confirmed.
    abbrev sealed : List ℕ → BufferedOStream S
    sealed m =
        let placed : BufferedOStream S = with_storage b.output m in
        record placed { reserve_pos = b.output.reserve_pos + b.write_pos }

    sealed-IsOut :
        (m : List ℕ)
        → store b.output.buffer.storage o.reserve_pos header ≡ some m
        → IsOut (sealed m)
    sealed-IsOut m e = record {
      buffered = record {
        within = f.valid.buffered.within;
        sized =
            length-store b.output.buffer.storage o.reserve_pos header m e ∙ f.valid.buffered.sized;
        bounded = f.valid.buffered.bounded;
      };
      in_buffer = omega (arith, f.room, f.same_pos, f.end_at);
    }

    sealed-output :
        (m : List ℕ)
        → store b.output.buffer.storage o.reserve_pos header ≡ some m
        → output sink (sealed m) ≡ output sink o ++ (header ++ records_bytes format done)
    sealed-output m e =
        rw (f.same_stream, f.same_pos)
          (ap (λ t. sent o.stream ++ t) (header_written m e)
            ∙ sym (append_assoc (sent o.stream) (pending o) _))

    -- The header fits, and the batch can be confirmed.
    header_fits : o.reserve_pos + length header ≤ length b.output.buffer.storage
    header_fits = omega (arith, length-header, f.room, f.valid.buffered.sized)

    sealing :
        (k : BufferedOStream S → Option (ErrorCode × BufferedOStream S))
        → Returns (Ended o cid done false) (
            k (
              sealed (
                take o.reserve_pos b.output.buffer.storage
                ++ (header ++ drop (o.reserve_pos + length header) b.output.buffer.storage))))
        → Returns (Ended o cid done false) (
            store b.output.buffer.storage b.buffer (le_bytes 4 cid) >>= λ m₁.
            store m₁ (b.buffer + 4) (le_bytes 4 b.batch_size) >>= λ m₂.
            confirm (with_storage b.output m₂) b.write_pos >>= k)
    unfolding header le_bytes
    sealing k h =
        rw (f.start_at, first)
          (rw
            (
              store-store b.output.buffer.storage o.reserve_pos (le_bytes 4 cid)
                  (le_bytes 4 b.batch_size) _ first,
              store_fits b.output.buffer.storage o.reserve_pos
                  (le_bytes 4 cid ++ le_bytes 4 b.batch_size) header_fits,
              confirm_lem (with_storage b.output _) b.write_pos room,
            )
            h)
      where
        first :
            store b.output.buffer.storage o.reserve_pos (le_bytes 4 cid)
            ≡ some (
                take o.reserve_pos b.output.buffer.storage
                ++ (le_bytes 4 cid
                    ++ drop (o.reserve_pos + length (le_bytes 4 cid)) b.output.buffer.storage))
        first =
            store_fits b.output.buffer.storage o.reserve_pos (le_bytes 4 cid)
              (omega (arith, length-le_bytes 4 cid, length-header, header_fits))

        room : b.output.reserve_pos + b.write_pos ≤ b.output.buffer.size
        room = omega (arith, f.room, f.same_pos, f.end_at)

    batch_output :
        (m : List ℕ)
        → store b.output.buffer.storage o.reserve_pos header ≡ some m
        → done ≢ []
        → output sink (sealed m) ≡ output sink o ++ batch_bytes format cid done
    unfolding header
    batch_output m e some_done =
        sealed-output m e
        ∙ ap
            (λ (k : ℕ).
              output sink o ++ ((le_bytes 4 cid ++ le_bytes 4 k) ++ records_bytes format done))
            f.count
        ∙ sym (ap (λ t. output sink o ++ t) (batch_bytes_some format cid done some_done))

    -- The batch is confirmed, and flushed if there is need.
    sealed-Ended :
        (m : List ℕ)
        → store b.output.buffer.storage o.reserve_pos header ≡ some m
        → done ≢ []
        → Returns
            (Ended o cid done false)
            (if b.need_flush then flush write (sealed m) else some (ok, sealed m))
    sealed-Ended m e some_done = elim (Bool-cases b.need_flush) [
      | inl full ↦ rw full (
          flushed-Ended o (sealed m) cid done (sealed-IsOut m e) still_ready f.same_limit
            (batch_output m e some_done))
      | inr enough ↦ rw enough (record {
        valid = sealed-IsOut m e;
        ready = still_ready;
        same_limit = f.same_limit;
        codes = inl refl;
        appended = λ _. batch_output m e some_done;
        not_large = λ _. refl;
        limit_only = λ h. absurd (ground (arith, h));
        emptied = λ _ h. absurd (some_done h);
      })
    ]

    nothing_placed : done ≡ [] → Returns (Ended o cid done false) (flush write b.output)
    nothing_placed none_done =
        flushed-Ended o b.output cid done f.valid still_ready f.same_limit
          (rw none_done (same_output ∙ sym (append-nil (output sink o))))

    something_placed :
        done ≢ []
        → Returns (Ended o cid done false) (
            store b.output.buffer.storage b.buffer (le_bytes 4 cid) >>= λ m₁.
            store m₁ (b.buffer + 4) (le_bytes 4 b.batch_size) >>= λ m₂.
            confirm (with_storage b.output m₂) b.write_pos >>= λ o'.
            if b.need_flush then flush write o' else some (ok, o'))
    something_placed some_done =
        sealing (λ o'. if b.need_flush then flush write o' else some (ok, o'))
          (sealed-Ended _ (store_fits b.output.buffer.storage o.reserve_pos header header_fits)
            some_done)

    -- After the loop, the batch of the records it placed is confirmed, or nothing is written.
    pub finish_batch_lem :
        (moved : Bool)
        → (done ≡ [] → moved ≡ false)
        → (done ≢ [] → moved ≡ true)
        → Returns
            (Ended o cid done b.rec_too_large)
            (finish_batch mem (format.serialize) write cid moved b)
    unfolding finish_batch
    finish_batch_lem moved none_moved some_moved = elim (Bool-cases b.rec_too_large) [
      | inl large ↦ rw large too_large-Ended
      | inr fits ↦ rw fits (elim (Bool-cases (b.batch_size == 0)) [
        | inl zero_size ↦
            let none_done : done ≡ [] =
              no_records format done (sym f.count ∙ (==_iff _ _).0 zero_size) in
            rw (zero_size, none_moved none_done) (nothing_placed none_done)
        | inr some_size ↦
            let some_done : done ≢ [] = λ h. absurd (ground (arith, some_size, f.count, h)) in
            rw (some_size, some_moved some_done) (something_placed some_done)
      ])
    ]
