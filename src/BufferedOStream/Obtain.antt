-- ===== src/BufferedOStream/Obtain.antt =====
-- What BufferedOStream_reserveFlushing (c/src/BufferedOStream.c) promises.
use tstorage_clients.Prelude.{
  Bool-cases, Returns, Returns-bind, Returns-mono, ap, arith, false, if◌then◌else◌, inl, inr, some,
  sym, take, take-take, ℕ, ◌++◌, ◌+◌, ◌<◌, ◌∙◌, ◌≡◌, ◌≢◌, ◌≤◌, ◌⊎◌,
}
use tstorage_clients.Memory.{Allocator, Generous}
use tstorage_clients.ErrorCode.{ErrorCode, is_limit, is_ok, is_ok→eq, limit, ok, resource, send}
use tstorage_clients.BufferedOStream.{BufferedOStream, reserve, reserve_flushing}
use tstorage_clients.BufferedOStream.Flush.{Flushed, Sink, flush_lem, output}
use tstorage_clients.BufferedOStream.Reserve.{IsOut, Reserved, pending, reserve_lem}
use tstorage_clients.DynamicBuffer.{DynamicBuffer}
use mathlib.Core.List.{append-nil}

module _ {S : Type 0} (sink : Sink S) where
  open sink use {write, Ready, sent}

  -- What a reservation that may flush does.
  pub record Obtained (mem : Allocator) (o : BufferedOStream S) (size : ℕ)
      (r : ErrorCode × ℕ × BufferedOStream S) : Type 0 where
    pub valid : IsOut r.2
    pub ready : Ready r.2.stream
    pub same_limit : r.2.buffer.max_size ≡ o.buffer.max_size
    pub codes : (r.0 ≡ ok) ⊎ (r.0 ≡ limit) ⊎ (r.0 ≡ resource) ⊎ (r.0 ≡ send)
    pub place : r.0 ≡ ok → r.1 ≡ r.2.reserve_pos
    pub room : r.0 ≡ ok → r.2.reserve_pos + size ≤ r.2.buffer.size
    pub conserves : r.0 ≢ send → output sink r.2 ≡ output sink o
    pub limit_only : r.0 ≡ limit → o.buffer.max_size < size
    pub limited : o.buffer.max_size < size → (r.0 ≡ limit) ⊎ (r.0 ≡ send)
    pub back : (r.2.reserve_pos ≡ o.reserve_pos) ⊎ (r.2.reserve_pos ≡ 0)
    pub refused : r.0 ≡ resource → ¬ Generous mem

  module _ (mem : Allocator) where
    Reserved-pending :
        (o : BufferedOStream S) (size : ℕ) (r : ErrorCode × ℕ × BufferedOStream S)
        → IsOut o
        → Reserved mem o size r
        → pending r.2 ≡ pending o
    Reserved-pending o size r v p = rw p.same_pos (
        sym (take-take o.reserve_pos o.buffer.size r.2.buffer.storage v.in_buffer)
        ∙ ap (take o.reserve_pos) p.keeps)

    Reserved-output :
        (o : BufferedOStream S) (size : ℕ) (r : ErrorCode × ℕ × BufferedOStream S)
        → IsOut o
        → Reserved mem o size r
        → output sink r.2 ≡ output sink o
    Reserved-output o size r v p =
        rw p.same_stream (ap (λ t. sent o.stream ++ t) (Reserved-pending o size r v p))

    Flushed-output :
        (o : BufferedOStream S) (f : ErrorCode × BufferedOStream S)
        → Flushed sink o f
        → f.0 ≡ ok
        → output sink f.1 ≡ output sink o
    Flushed-output o f q e = rw q.emptied (append-nil (sent f.1.stream) ∙ q.written e)

    -- The reservation succeeds at once, or fails for want of memory.
    at_once :
        (o : BufferedOStream S) (size : ℕ) (r : ErrorCode × ℕ × BufferedOStream S)
        → IsOut o
        → Ready o.stream
        → Reserved mem o size r
        → is_limit r.0 ≡ false
        → Obtained mem o size r
    at_once o size r v w p e = record {
      valid = p.valid;
      ready = rw p.same_stream w;
      same_limit = p.same_limit;
      codes = ground (arith, p.codes);
      place = λ h. p.place h ∙ sym p.same_pos;
      room = λ h. rw p.same_pos (p.room h);
      conserves = λ _. Reserved-output o size r v p;
      limit_only = λ h. absurd (ground (arith, e, h));
      limited = λ h. absurd (ground (arith, e, p.limited (omega arith)));
      back = inl p.same_pos;
      refused = p.refused;
    }

    -- The buffer is flushed first.
    after_flush :
        (o : BufferedOStream S) (size : ℕ) (r : ErrorCode × ℕ × BufferedOStream S)
        → IsOut o
        → Reserved mem o size r
        → (f : ErrorCode × BufferedOStream S) → Flushed sink r.2 f
        → f.0 ≡ ok
        → (t : ErrorCode × ℕ × BufferedOStream S) → Reserved mem f.1 size t
        → Obtained mem o size t
    after_flush o size r v p f q e t u = record {
      valid = u.valid;
      ready = rw u.same_stream q.ready;
      same_limit = limits;
      codes = ground (arith, u.codes);
      place = λ h. u.place h ∙ sym u.same_pos;
      room = λ h. rw u.same_pos (u.room h);
      conserves = λ _.
          Reserved-output f.1 size t q.valid u
          ∙ Flushed-output r.2 f q e
          ∙ Reserved-output o size r v p;
      limit_only = λ h. let over = u.limit_only h in omega (arith, old_limit, q.emptied);
      limited = λ h. inl (u.limited (omega (arith, old_limit, q.emptied)));
      back = inr (u.same_pos ∙ q.emptied);
      refused = u.refused;
    }
      where
        old_limit : f.1.buffer.max_size ≡ o.buffer.max_size
        old_limit = ap (λ (b : DynamicBuffer). b.max_size) q.same_buffer ∙ p.same_limit

        limits : t.2.buffer.max_size ≡ o.buffer.max_size
        limits = u.same_limit ∙ old_limit

    -- The stream fails while the buffer is flushed.
    flush_failed :
        (o : BufferedOStream S) (size : ℕ) (r : ErrorCode × ℕ × BufferedOStream S)
        → Reserved mem o size r
        → (f : ErrorCode × BufferedOStream S) → Flushed sink r.2 f
        → is_ok f.0 ≡ false
        → Obtained mem o size (f.0, r.1, f.1)
    flush_failed o size r p f q e =
        let failed : f.0 ≡ send = ground (arith, q.codes) in
        record {
          valid = q.valid;
          ready = q.ready;
          same_limit = ap (λ (b : DynamicBuffer). b.max_size) q.same_buffer ∙ p.same_limit;
          codes = inr (inr (inr failed));
          place = λ h. absurd (ground (arith, failed, h));
          room = λ h. absurd (ground (arith, failed, h));
          conserves = λ h. absurd (h failed);
          limit_only = λ h. absurd (ground (arith, failed, h));
          limited = λ _. inr failed;
          back = inr q.emptied;
          refused = λ h. absurd (ground (arith, failed, h));
        }

    flush_and_retry :
        (o : BufferedOStream S) (size : ℕ) (r : ErrorCode × ℕ × BufferedOStream S)
        → IsOut o
        → Reserved mem o size r
        → (f : ErrorCode × BufferedOStream S) → Flushed sink r.2 f
        → Returns
            (Obtained mem o size)
            (if is_ok f.0 then reserve mem f.1 r.1 size else some (f.0, r.1, f.1))
    flush_and_retry o size r v p f q = elim (Bool-cases (is_ok f.0)) [
      | inl e ↦ rw e (
          Returns-mono (Reserved mem f.1 size) (Obtained mem o size) _
            (reserve_lem mem f.1 r.1 size q.valid) (after_flush o size r v p f q (is_ok→eq f.0 e)))
      | inr e ↦ rw e (flush_failed o size r p f q e)
    ]

    -- On a valid stream that is ready, BufferedOStream_reserveFlushing does not abort. Unless it
    -- fails with ERR_SEND, the bytes sent and pending are the same as before; with ERR_OK there is
    -- the space asked for behind the confirmed bytes; ERR_LIMIT means that the maximal size is
    -- less than the space asked for.
    pub reserve_flushing_lem :
        (o : BufferedOStream S) (buffer size : ℕ)
        → IsOut o
        → Ready o.stream
        → Returns (Obtained mem o size) (reserve_flushing mem write o buffer size)
    unfolding reserve_flushing
    reserve_flushing_lem o buffer size v w =
        Returns-bind (Reserved mem o size) (Obtained mem o size) _ _
          (reserve_lem mem o buffer size v)
          (λ r p. elim (Bool-cases (is_limit r.0)) [
            | inl e ↦ rw e (
                Returns-bind (Flushed sink r.2) (Obtained mem o size) _ _
                  (flush_lem sink r.2 p.valid (rw p.same_stream w)) (flush_and_retry o size r v p))
            | inr e ↦ rw e (at_once o size r v w p e)
          ])
