-- ===== src/RequestPut/Write.antt =====
-- What RequestPut_write (c/src/RequestPut.c) sends, with either format of the records.
use tstorage_clients.Prelude.{
  Bool-cases, List, Returns, Returns-bind, Returns-mono, ap, append_assoc, arith, false, inl, inr,
  length, true, ℕ, ◌*◌, ◌++◌, ◌+◌, ◌<◌, ◌∙◌, ◌≡◌, ◌≢◌, ◌⊎◌,
}
use tstorage_clients.Memory.{Allocator, Generous}
use tstorage_clients.ErrorCode.{ErrorCode, is_ok, is_ok→eq, is_ok→ne, limit, ok, resource, send}
use tstorage_clients.BufferedOStream.{BufferedOStream}
use tstorage_clients.BufferedOStream.Emit.{Emitted}
use tstorage_clients.BufferedOStream.Flush.{Sink, output}
use tstorage_clients.BufferedOStream.Reserve.{IsOut}
use tstorage_clients.Put.{Progress, common_write, finished, running}
use tstorage_clients.Put.Write.{Batched, CommonEnd, common_write_lem, end_mark}
use tstorage_clients.Record.{serialize_put_safe, serialize_puta_safe}
use tstorage_clients.Record.Format.{Format, record_format}
use tstorage_clients.Record.Serialize.{Encodes}
use tstorage_clients.RecordsSet.{RecordsSet, set_elements}
use tstorage_clients.Request.Write.{header_bytes, header_write_lem}
use tstorage_clients.RequestPut.{
  RequestPut, initialize_put_safe, initialize_puta_safe, put_write, write_put_safe, write_puta_safe,
}

module _ {S : Type 0} (sink : Sink S) (mem : Allocator) where
  open sink use {write, Ready}

  -- What a put request leaves: its header, the batches of its records, and the end mark.
  pub record PutWritten (format : Format) (r : RequestPut) (o : BufferedOStream S) (res : ErrorCode)
      (o' : BufferedOStream S) : Type 0 where
    pub valid : IsOut o'
    pub ready : Ready o'.stream
    pub same_limit : o'.buffer.max_size ≡ o.buffer.max_size
    pub codes : (res ≡ ok) ⊎ (res ≡ limit) ⊎ (res ≡ resource) ⊎ (res ≡ send)
    pub written :
        res ≡ ok
        → (bytes : List ℕ) × Batched format (r.records.elements) bytes
          × (output sink o' ≡ output sink o ++ (header_bytes r.base ++ (bytes ++ end_mark)))
    pub refused : res ≡ resource → ¬ Generous mem

  abbrev pub PutEnd : Format → RequestPut → BufferedOStream S → ℕ → Progress S → Type 0
  PutEnd format r o rounds (finished res o') = PutWritten format r o res o'
  PutEnd format r o rounds running = Generous mem → rounds < 2 * length (r.records.elements) + 1

  module _ (format : Format) (r : RequestPut) (o : BufferedOStream S)
      (t : ErrorCode × BufferedOStream S) (p : Emitted sink mem o (header_bytes r.base) t) where
    no_header : t.0 ≢ ok → PutWritten format r o t.0 t.1
    no_header e = record {
      valid = p.valid;
      ready = p.ready;
      same_limit = p.same_limit;
      codes = p.codes;
      written = λ h. absurd (e h);
      refused = p.refused;
    }

    with_records :
        (rounds : ℕ)
        → t.0 ≡ ok
        → (q : Progress S) → CommonEnd sink mem format t.1 (r.records.elements) rounds q
        → PutEnd format r o rounds q
    with_records rounds e (finished res o') q = record {
      valid = q.valid;
      ready = q.ready;
      same_limit = q.same_limit ∙ p.same_limit;
      codes = q.codes;
      written = λ h.
          let (bytes, cut, out) = q.written h in
          (
            bytes,
            cut,
            out
                ∙ ap (λ s. s ++ (bytes ++ end_mark)) (p.appended e)
                ∙ append_assoc (output sink o) (header_bytes r.base) (bytes ++ end_mark),
          );
      refused = q.refused;
    }
    with_records rounds e running q = λ g. let short = q g in ground arith

  -- Any function that writes the records in batches.
  put_records_lem :
      (format : Format) (r : RequestPut) (rounds : ℕ) (o : BufferedOStream S)
      → IsOut o
      → Ready o.stream
      → Returns (PutEnd format r o rounds) (
          put_write mem write r
            (λ n s o'. common_write mem (format.serialize) write n o' (s.elements))
            rounds
            o)
  unfolding put_write
  put_records_lem format r rounds o v w =
      Returns-bind (Emitted sink mem o (header_bytes r.base)) (PutEnd format r o rounds) _ _
        (header_write_lem sink mem r.base o v w)
        (λ t p. elim (Bool-cases (is_ok t.0)) [
          | inl e ↦ rw e (
              Returns-mono (CommonEnd sink mem format t.1 (r.records.elements) rounds)
                (PutEnd format r o rounds) _
                (common_write_lem sink mem format rounds t.1 (r.records.elements) p.valid p.ready)
                (with_records format r o t p rounds (is_ok→eq t.0 e)))
          | inr e ↦ rw e (no_header format r o t p (is_ok→ne t.0 e))
        ])

  module _ (records : RecordsSet) (codec : Encodes (records.payload_type)) (rounds : ℕ)
      (o : BufferedOStream S) (v : IsOut o) (w : Ready o.stream) where
    -- On a valid stream that is ready, a PUTSAFE request, RequestPut_write with
    -- RecordsSet_writePutSafe, does not abort. If it ends with ERR_OK, the output has grown by the
    -- request's header, the records of the set in order, in the PUTSAFE format and in batches of
    -- one cid each, and the end mark; ERR_RESOURCE means that realloc refused. If it never
    -- refuses, two rounds for each record and one more are enough.
    pub put_safe_lem :
        Returns
          (PutEnd
            (record_format (records.payload_type) codec false)
            (initialize_put_safe records)
            o
            rounds)
          (put_write mem write (initialize_put_safe records) (write_put_safe mem write) rounds o)
    unfolding write_put_safe initialize_put_safe set_elements serialize_put_safe put_write
    put_safe_lem =
        put_records_lem (record_format (records.payload_type) codec false)
          (initialize_put_safe records) rounds o v w

    -- On a valid stream that is ready, a PUTASAFE request, RequestPut_write with
    -- RecordsSet_writePutASafe, does not abort. If it ends with ERR_OK, the output has grown by
    -- the request's header, the records of the set in order, in the PUTASAFE format and in batches
    -- of one cid each, and the end mark; ERR_RESOURCE means that realloc refused. If it never
    -- refuses, two rounds for each record and one more are enough.
    pub puta_safe_lem :
        Returns
          (PutEnd
            (record_format (records.payload_type) codec true)
            (initialize_puta_safe records)
            o
            rounds)
          (put_write mem write (initialize_puta_safe records) (write_puta_safe mem write) rounds o)
    unfolding write_puta_safe initialize_puta_safe set_elements serialize_puta_safe put_write
    puta_safe_lem =
        put_records_lem (record_format (records.payload_type) codec true)
          (initialize_puta_safe records) rounds o v w
