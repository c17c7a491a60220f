-- ===== src/BufferedIStream/Obtain.antt =====
-- What BufferedIStream_reserve (c/src/BufferedIStream.c) promises.
use tstorage_clients.Prelude.{
  Bool-cases, Returns, Returns-bind, ap, arith, drop, inl, inr, le→leb, ltb, ltb→le, ltb→lt, refl,
  sym, take, take-take, true, ℕ, ◌++◌, ◌+◌, ◌-◌, ◌<◌, ◌∙◌, ◌≡◌, ◌≢◌, ◌≤◌, ◌⊎◌,
}
use tstorage_clients.Memory.{Allocator, Generous}
use tstorage_clients.ErrorCode.{ErrorCode, is_ok, is_ok→eq, is_ok→ne, limit, ok, resource}
use tstorage_clients.BufferedIStream.{
  BufferedIStream, max_size_unused, receive_enlarged, reserve_input, size_unused,
}
use tstorage_clients.BufferedIStream.Fill.{IsIn, Received, Source, take_reserved_fits}
use tstorage_clients.BufferedIStream.Reserve.{receive_more_lem, supplied}
use tstorage_clients.DynamicBuffer.{DynamicBuffer}
use tstorage_clients.DynamicBuffer.Resize.{Resized, resize_lem}

module _ {S : Type 0} (source : Source S) (mem : Allocator) where
  open source use {read, Ready, incoming}

  -- The limit is too small, or memory is short: the stream is as it was.
  unreserved :
      (i j : BufferedIStream S) (buffer size : ℕ) (res : ErrorCode)
      → IsIn j
      → Ready j.stream
      → j.buffer.max_size ≡ i.buffer.max_size
      → (j.read_pos ≡ i.read_pos) × (j.reserve_pos ≡ i.reserve_pos)
      → (res ≡ limit) × (i.buffer.max_size < i.reserve_pos + size)
        ⊎ (res ≡ resource) × ¬ Generous mem
      → Received source mem i size (res, buffer, j)
  unreserved i j buffer size res v w most same why = record {
    valid = v;
    ready = w;
    same_limit = most;
    codes = ground (arith, why);
    place = λ h. absurd (ground (arith, why, h));
    chunk = λ h. absurd (ground (arith, why, h));
    rest = λ h. absurd (ground (arith, why, h));
    unchanged = λ _. same;
    limit_only = λ h. ground (arith, why, h);
    refused = λ h. elim why [ inl l ↦ absurd (ground (arith, l, h)) | inr r ↦ r.1 ];
  }

  module _ (i : BufferedIStream S) (buffer size : ℕ) (v : IsIn i) (w : Ready i.stream)
      (more : i.read_pos - i.reserve_pos < size) where
    wanted : ℕ
    wanted = size - (i.read_pos - i.reserve_pos)

    -- After DynamicBuffer_resize.
    resized :
        (r : ErrorCode × DynamicBuffer)
        → Resized mem i.buffer (i.read_pos + wanted) r
        → i.read_pos + wanted ≤ i.buffer.max_size
        → Returns (Received source mem i size) (receive_enlarged mem read i buffer size wanted r)
    unfolding receive_enlarged wanted
    resized r p fits = elim (Bool-cases (is_ok r.0)) [
      | inl e ↦ rw e (
          receive_more_lem source mem i (record i { buffer = r.1 }) buffer size wanted
            (record { buffered = p.valid; in_buffer = reach; in_read = v.in_read }) w p.same_limit
            refl refl (ap (λ t. drop i.reserve_pos t ++ incoming i.stream) kept) (omega arith)
            (p.room (is_ok→eq r.0 e)))
      | inr e ↦ rw e (
          unreserved i (record i { buffer = r.1 }) buffer size r.0
            (record { buffered = p.valid; in_buffer = reach; in_read = v.in_read }) w p.same_limit
            (refl, refl) (why (is_ok→ne r.0 e)))
    ]
      where
        reach : i.read_pos ≤ r.1.size
        reach = let grows = p.grows in omega (arith, v.in_buffer)

        kept : take i.read_pos r.1.storage ≡ take i.read_pos i.buffer.storage
        kept =
            sym (take-take i.read_pos i.buffer.size r.1.storage v.in_buffer)
            ∙ ap (take i.read_pos) p.keeps

        why :
            r.0 ≢ ok
            → (r.0 ≡ limit) × (i.buffer.max_size < i.reserve_pos + size)
              ⊎ (r.0 ≡ resource) × ¬ Generous mem
        why h = elim p.codes [
          | inl o ↦ absurd (h o)
          | inr (inl l) ↦ let over = p.limit_only l in absurd (omega arith)
          | inr (inr q) ↦ inr (q, p.refused q)
        ]

    -- There is more to read than the buffer holds.
    reads : Returns (Received source mem i size) (reserve_input mem read i buffer size)
    unfolding reserve_input wanted size_unused max_size_unused
    reads =
        let tested : ltb (i.read_pos - i.reserve_pos) size ≡ true = ground (arith, more) in
        let below : i.read_pos ≤ i.buffer.max_size =
          omega (arith, v.in_buffer, v.buffered.within) in
        rw (le→leb _ _ v.buffered.within, le→leb _ _ v.in_buffer, le→leb _ _ v.in_read, tested)
          (elim (Bool-cases (ltb (i.buffer.size - i.read_pos) wanted)) [
            | inl small ↦
                rw (small, le→leb _ _ below)
                  (elim (Bool-cases (ltb (i.buffer.max_size - i.read_pos) wanted)) [
                    | inl over ↦ rw over (
                        unreserved i i buffer size limit v w refl (refl, refl)
                          (inl (refl, ground (arith, ltb→lt _ _ over, v.in_read))))
                    | inr fits ↦ rw fits (
                        Returns-bind (Resized mem i.buffer (i.read_pos + wanted))
                          (Received source mem i size) _ _
                          (resize_lem mem i.buffer (i.read_pos + wanted) v.buffered)
                          (λ r p. resized r p (ground (arith, ltb→le _ _ fits, below))))
                  ])
            | inr large ↦ rw large (
                receive_more_lem source mem i i buffer size wanted v w refl refl refl refl
                  (omega arith) (ground (arith, ltb→le _ _ large, v.in_buffer)))
          ])

  -- On a valid stream that is ready, BufferedIStream_reserve does not abort. With ERR_OK the
  -- reservation holds the next bytes of the stream, and the rest follows unchanged; a failure
  -- leaves both positions; ERR_LIMIT means that the reservation ends behind the limit, and
  -- ERR_RESOURCE that realloc refused.
  pub reserve_input_lem :
      (i : BufferedIStream S) (buffer size : ℕ)
      → IsIn i
      → Ready i.stream
      → Returns (Received source mem i size) (reserve_input mem read i buffer size)
  unfolding reserve_input
  reserve_input_lem i buffer size v w = elim (Bool-cases (ltb (i.read_pos - i.reserve_pos) size)) [
    | inl more ↦ reads i buffer size v w (ltb→lt _ _ more)
    | inr enough ↦
        let fits : size ≤ i.read_pos - i.reserve_pos = ltb→le _ _ enough in
        rw
          (
            le→leb _ _ v.buffered.within,
            le→leb _ _ v.in_buffer,
            le→leb _ _ v.in_read,
            enough,
            take_reserved_fits i size v fits,
          )
          (supplied source mem i i size v w refl refl refl fits)
  ]
