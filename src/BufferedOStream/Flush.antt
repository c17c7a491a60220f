-- ===== src/BufferedOStream/Flush.antt =====
-- The stream below a BufferedOStream, and BufferedOStream_flush (c/src/BufferedOStream.c).
use tstorage_clients.Prelude.{
  Bool-cases, List, Returns, Returns-bind, arith, inl, inr, ltb, ltb→le, refl, sym, ℕ, ◌++◌, ◌≡◌,
  ◌≤◌,
}
use tstorage_clients.ErrorCode.{ErrorCode, OkOr, ok, send}
use tstorage_clients.BufferedOStream.{BufferedOStream, WriteFun, flush}
use tstorage_clients.BufferedOStream.Reserve.{IsOut, pending}
use tstorage_clients.Memory.Store.{load_fits}
use mathlib.Core.List.{append-nil}

-- The underlying stream: `BufferedOStream_write_fun` with what its comment promises. A stream that
-- is ready takes all the bytes, or fails with ERR_SEND.
pub record Sink (S : Type 0) : Type 1 where
  pub write : WriteFun S
  pub Ready : S → Type 0
  pub sent : S → List ℕ
  pub write_lem :
      (s : S) (bytes : List ℕ)
      → Ready s
      → Returns
          (λ r. Ready r.1 × OkOr send r.0 × (r.0 ≡ ok → sent r.1 ≡ sent s ++ bytes))
          (write s bytes)

module _ {S : Type 0} (sink : Sink S) where
  open sink use {write, Ready, sent, write_lem}

  -- Everything that the stream was given and will be given at the next flush.
  abbrev pub output : BufferedOStream S → List ℕ
  output o = sent o.stream ++ pending o

  -- What a flush does.
  pub record Flushed (o : BufferedOStream S) (r : ErrorCode × BufferedOStream S) : Type 0 where
    pub valid : IsOut r.1
    pub ready : Ready r.1.stream
    pub emptied : r.1.reserve_pos ≡ 0
    pub same_buffer : r.1.buffer ≡ o.buffer
    pub codes : OkOr send r.0
    pub written : r.0 ≡ ok → sent r.1.stream ≡ output o

  -- The part after the call of the stream's write function.
  wrote-Flushed :
      (o : BufferedOStream S) (r : ErrorCode × S)
      → IsOut o
      → Ready r.1 × OkOr send r.0 × (r.0 ≡ ok → sent r.1 ≡ output o)
      → Flushed o (r.0, record o { stream = r.1; reserve_pos = 0 })
  wrote-Flushed o r v p = record {
    valid = record { buffered = v.buffered; in_buffer = omega arith };
    ready = p.0;
    emptied = refl;
    same_buffer = refl;
    codes = p.1;
    written = p.2;
  }

  -- On a valid stream that is ready, BufferedOStream_flush does not abort. With ERR_OK all
  -- confirmed bytes were handed to the stream in order; otherwise the result is ERR_SEND; in both
  -- cases nothing is pending afterwards.
  pub flush_lem :
      (o : BufferedOStream S) → IsOut o → Ready o.stream → Returns (Flushed o) (flush write o)
  unfolding flush
  flush_lem o v w = elim (Bool-cases (ltb 0 o.reserve_pos)) [
    | inl some_bytes ↦
        rw (some_bytes, load_fits o.buffer.storage 0 o.reserve_pos (omega arith))
          (Returns-bind _ (Flushed o) _ _ (write_lem o.stream (pending o) w)
            (λ r p. wrote-Flushed o r v p))
    | inr no_bytes ↦ rw no_bytes (nothing_to_do (ltb→le _ _ no_bytes))
  ]
    where
      nothing_to_do : o.reserve_pos ≤ 0 → Flushed o (ok, o)
      nothing_to_do h =
          let none_pending : o.reserve_pos ≡ 0 = omega arith in
          record {
            valid = v;
            ready = w;
            emptied = none_pending;
            same_buffer = refl;
            codes = inl refl;
            written = λ _. rw none_pending (sym (append-nil (sent o.stream)));
          }
