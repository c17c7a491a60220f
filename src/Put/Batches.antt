-- ===== src/Put/Batches.antt =====
-- What writeCidBatch (c/src/RecordsSet.c) does: one batch of the first records.
use tstorage_clients.Prelude.{
  Bool-cases, List, Returns, Returns-bind, [], ap, arith, drop, drop-take, false, inl, inr, length,
  length-append, ltb, refl, some, sym, take, true, ℕ, ◌++◌, ◌+◌, ◌<◌, ◌>>=◌, ◌∙◌, ◌∷◌, ◌≡◌, ◌≢◌,
  ◌⊎◌,
}
use tstorage_clients.Memory.{Allocator, Generous}
use tstorage_clients.ErrorCode.{ErrorCode, is_ok, is_ok→eq, is_ok→ne, limit, ok, resource, send}
use tstorage_clients.BufferedOStream.{BufferedOStream}
use tstorage_clients.BufferedOStream.Flush.{Sink, output}
use tstorage_clients.BufferedOStream.Obtain.{Obtained, reserve_flushing_lem}
use tstorage_clients.BufferedOStream.Reserve.{IsOut}
use tstorage_clients.Put.{Batch, batch_header_size, batch_loop, finish_batch, write_cid_batch}
use tstorage_clients.Put.Finish.{Ended, batch_bytes, finish_batch_lem}
use tstorage_clients.Put.Loop.{Ends, LoopEnd, SameCid, batch_loop_lem, records_bytes}
use tstorage_clients.Put.Place.{Filled}
use tstorage_clients.Record.{Record}
use tstorage_clients.Record.Format.{Format}
use mathlib.Core.Path.{subst}

module _ {S : Type 0} (sink : Sink S) (mem : Allocator) (format : Format) where
  open sink use {write, Ready}

  -- The first record of the list does not fit into an empty buffer of the maximal size.
  abbrev pub TooLarge : ℕ → List Record → Type 0
  TooLarge most [] = ⊥
  TooLarge most (r ∷ rest) = most < 8 + length (format.bytes_of r)

  -- What writing a batch of the cid does, on the records from the first one on.
  pub record BatchWritten (o : BufferedOStream S) (cid : ℕ) (recs : List Record)
      (r : ErrorCode × BufferedOStream S × List Record) : Type 0 where
    pub done : List Record
    pub split : recs ≡ done ++ r.2
    pub same_cid : SameCid cid done
    pub valid : IsOut r.1
    pub ready : Ready r.1.stream
    pub same_limit : r.1.buffer.max_size ≡ o.buffer.max_size
    pub codes : (r.0 ≡ ok) ⊎ (r.0 ≡ limit) ⊎ (r.0 ≡ resource) ⊎ (r.0 ≡ send)
    pub appended : r.0 ≡ ok → output sink r.1 ≡ output sink o ++ batch_bytes format cid done
    pub limit_only : r.0 ≡ limit → (o.buffer.max_size < 8) ⊎ TooLarge o.buffer.max_size r.2
    pub refused : r.0 ≡ resource → ¬ Generous mem
    pub progress : Generous mem → r.0 ≡ ok → done ≡ [] → (0 < o.reserve_pos) × (r.1.reserve_pos ≡ 0)

  -- The variables at the start of the loop.
  abbrev fresh : BufferedOStream S → ℕ → Batch S
  fresh o buffer = record {
    output = o;
    buffer = buffer;
    batch_size = 0;
    write_pos = batch_header_size;
    rec_too_large = false;
    need_flush = false;
  }

  fresh-Filled :
      (o : BufferedOStream S) (r : ErrorCode × ℕ × BufferedOStream S)
      → Obtained sink mem o 8 r
      → r.0 ≡ ok
      → Filled mem format r.2 [] (fresh r.2 r.1)
  fresh-Filled o r p e = record {
    valid = p.valid;
    same_pos = refl;
    same_stream = refl;
    same_limit = refl;
    start_at = p.place e;
    count = refl;
    end_at = refl;
    room = p.room e;
    kept = refl;
    held =
        ap (λ (k : ℕ). drop (r.2.reserve_pos + 8) (take k r.2.buffer.storage)) (omega arith)
        ∙ drop-take (r.2.reserve_pos + 8) 0 r.2.buffer.storage;
    fits_int = omega arith;
  }

  reservation_failed :
      (o : BufferedOStream S) (cid : ℕ) (recs : List Record) (r : ErrorCode × ℕ × BufferedOStream S)
      → Obtained sink mem o 8 r
      → r.0 ≢ ok
      → BatchWritten o cid recs (r.0, r.2, recs)
  reservation_failed o cid recs r p e = record {
    done = [];
    split = refl;
    same_cid = tt;
    valid = p.valid;
    ready = p.ready;
    same_limit = p.same_limit;
    codes = p.codes;
    appended = λ h. absurd (e h);
    limit_only = λ h. inl (p.limit_only h);
    refused = p.refused;
    progress = λ _ h. absurd (e h);
  }

  -- A batch with a record that is too large for the buffer ends before that record.
  large_rest :
      (o : BufferedOStream S) (c : List ℕ) (cid : ℕ) (b : Batch S) (rest : List Record)
      → Ends mem format o c cid b rest
      → b.rec_too_large ≡ true
      → TooLarge o.buffer.max_size rest
  large_rest o c cid b [] e h = cc
  large_rest o c cid b (r ∷ rest) (inl e) h = cc
  large_rest o c cid b (r ∷ rest) (inr (_, inl e)) h = e.1
  large_rest o c cid b (r ∷ rest) (inr (_, inr e)) h = cc

  -- With memory to be had and an empty buffer, the first record of its cid is placed.
  first_placed :
      (o : BufferedOStream S) (b : Batch S) (start : Record) (recs : List Record)
      → Ends mem format o [] (start.key.cid) b (start ∷ recs)
      → b.rec_too_large ≡ false
      → Generous mem
      → 0 < o.reserve_pos
  first_placed o b start recs (inl e) h g = absurd (e.1 refl)
  first_placed o b start recs (inr (_, inl e)) h g = cc
  first_placed o b start recs (inr (_, inr (_, inl e))) h g =
      let small = format.small start in absurd (omega arith)
  first_placed o b start recs (inr (_, inr (_, inr (inl e)))) h g = omega arith
  first_placed o b start recs (inr (_, inr (_, inr (inr e)))) h g = absurd (e g)

  -- The batch is finished with the records that the loop has placed.
  loop_finished :
      (o : BufferedOStream S) (start : Record) (recs : List Record)
      (r : ErrorCode × ℕ × BufferedOStream S)
      → Obtained sink mem o 8 r
      → r.0 ≡ ok
      → (t : Batch S × List Record)
      → (l : LoopEnd mem format r.2 [] (start.key.cid) (start ∷ recs) t)
      → (e : ErrorCode × BufferedOStream S)
      → Ended sink mem format r.2 (start.key.cid) l.done (t.0.rec_too_large) e
      → BatchWritten o (start.key.cid) (start ∷ recs) (e.0, e.1, t.1)
  loop_finished o start recs r p obtained t l e q = record {
    done = l.done;
    split = l.split;
    same_cid = l.same_cid;
    valid = q.valid;
    ready = q.ready;
    same_limit = q.same_limit ∙ p.same_limit;
    codes = ground (arith, q.codes);
    appended = λ h.
        q.appended h
        ∙ ap (λ s. s ++ batch_bytes format (start.key.cid) l.done)
            (p.conserves (λ h'. ground (arith, obtained, h')));
    limit_only = λ h. inr (
        subst (λ most. TooLarge most t.1) p.same_limit
          (large_rest r.2 (records_bytes format l.done) (start.key.cid) t.0 t.1 l.ends
            (q.limit_only h)));
    refused = λ h. absurd (ground (arith, q.codes, h));
    progress = λ g h none_done. (still_pending g h none_done, q.emptied h none_done);
  }
    where
      still_pending : Generous mem → e.0 ≡ ok → l.done ≡ [] → 0 < o.reserve_pos
      still_pending g h none_done =
          let all_left : t.1 ≡ start ∷ recs = sym (l.split ∙ ap (λ xs. xs ++ t.1) none_done) in
          let nothing : records_bytes format l.done ≡ [] = ap (records_bytes format) none_done in
          let waiting : 0 < r.2.reserve_pos =
            first_placed r.2 t.0 start recs
              (subst (λ c. Ends mem format r.2 c (start.key.cid) t.0 (start ∷ recs)) nothing
                (subst
                  (λ xs. Ends mem format r.2 (records_bytes format l.done) (start.key.cid) t.0 xs)
                  all_left l.ends))
              (q.not_large h) g in
          omega (arith, p.back)

  module _ (start : Record) (recs : List Record) where
    -- Whether `*recPtr` has moved.
    moved_by :
        (done rest : List Record)
        → start ∷ recs ≡ done ++ rest
        → (done ≡ [] → ltb (length rest) (length (start ∷ recs)) ≡ false)
          × (done ≢ [] → ltb (length rest) (length (start ∷ recs)) ≡ true)
    moved_by [] rest e = ((λ _. let same = ap length e in ground arith), λ h. absurd (h refl))
    moved_by (d ∷ done) rest e =
        ((λ h. cc), λ _. let same = ap length e ∙ length-append (d ∷ done) rest in ground arith)

    -- On a valid stream that is ready, writeCidBatch does not abort. With ERR_OK it has appended
    -- one batch, of records of the first record's cid taken from the front, and nothing else to
    -- the output; ERR_LIMIT and ERR_RESOURCE have their reasons; and with an allocator that never
    -- refuses, a batch without records means that pending bytes were flushed.
    pub write_cid_batch_lem :
        (o : BufferedOStream S)
        → IsOut o
        → Ready o.stream
        → Returns
            (BatchWritten o (start.key.cid) (start ∷ recs))
            (write_cid_batch mem (format.serialize) write o (start ∷ recs))
    unfolding write_cid_batch
    write_cid_batch_lem o v w =
        Returns-bind (Obtained sink mem o 8) (BatchWritten o (start.key.cid) (start ∷ recs)) _ _
          (reserve_flushing_lem sink mem o 0 8 v w)
          (λ r p. elim (Bool-cases (is_ok r.0)) [
            | inl e ↦ rw e (fill r p (is_ok→eq r.0 e))
            | inr e ↦
                rw e (reservation_failed o (start.key.cid) (start ∷ recs) r p (is_ok→ne r.0 e))
          ])
      where
        fill :
            (r : ErrorCode × ℕ × BufferedOStream S)
            → Obtained sink mem o 8 r
            → r.0 ≡ ok
            → Returns (BatchWritten o (start.key.cid) (start ∷ recs)) (
                batch_loop mem (format.serialize) (start.key.cid) (fresh r.2 r.1) (start ∷ recs)
                >>= λ t.
                    finish_batch mem
                      (format.serialize)
                      write
                      (start.key.cid)
                      (ltb (length t.1) (length (start ∷ recs)))
                      t.0
                    >>= λ e. some (e.0, e.1, t.1))
        fill r p e =
            Returns-bind (LoopEnd mem format r.2 [] (start.key.cid) (start ∷ recs))
              (BatchWritten o (start.key.cid) (start ∷ recs)) _ _
              (batch_loop_lem mem format r.2 [] (start.key.cid) (fresh r.2 r.1) (start ∷ recs)
                (fresh-Filled o r p e) refl)
              (λ t l.
                Returns-bind (Ended sink mem format r.2 (start.key.cid) l.done (t.0.rec_too_large))
                  (BatchWritten o (start.key.cid) (start ∷ recs)) _ _
                  (finish_batch_lem sink mem format r.2 (start.key.cid) l.done t.0 p.ready l.filled
                    _ (moved_by l.done t.1 l.split).0 (moved_by l.done t.1 l.split).1)
                  (λ x q. loop_finished o start recs r p e t l x q))
