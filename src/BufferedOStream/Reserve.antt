-- ===== src/BufferedOStream/Reserve.antt =====
-- What BufferedOStream_reserve and BufferedOStream_confirm (c/src/BufferedOStream.c) promise.
use tstorage_clients.Prelude.{
  Bool-cases, List, Returns, Returns-bind, arith, inl, inr, le→leb, ltb, ltb→le, ltb→lt, some, take,
  take_all, ℕ, ◌+◌, ◌-◌, ◌<◌, ◌≡◌, ◌≢◌, ◌≤◌, ◌⊎◌,
}
use tstorage_clients.Memory.{Allocator, Generous, size_max}
use tstorage_clients.ErrorCode.{ErrorCode, is_ok, is_ok→eq, is_ok→ne, limit, ok, resource}
use tstorage_clients.BufferedOStream.{
  BufferedOStream, confirm, enlarged, pointed, reserve, size_reserved,
}
use tstorage_clients.DynamicBuffer.{DynamicBuffer}
use tstorage_clients.DynamicBuffer.Resize.{IsBuffer, Resized, resize_lem}

module _ {S : Type 0} where
  -- The buffer is well formed, and the reservation starts within it.
  pub record IsOut (o : BufferedOStream S) : Type 0 where
    pub buffered : IsBuffer o.buffer
    pub in_buffer : o.reserve_pos ≤ o.buffer.size

  -- The bytes that are confirmed and not yet flushed.
  abbrev pub pending : BufferedOStream S → List ℕ
  pending o = take o.reserve_pos o.buffer.storage

  -- BufferedOStream_confirm moves the end of the confirmed bytes, within the buffer.
  pub confirm_lem :
      (o : BufferedOStream S) (n : ℕ)
      → o.reserve_pos + n ≤ o.buffer.size
      → confirm o n ≡ some (record o { reserve_pos = o.reserve_pos + n })
  unfolding confirm size_reserved
  confirm_lem o n h =
      let first : o.reserve_pos ≤ o.buffer.size = omega arith in
      let second : n ≤ o.buffer.size - o.reserve_pos = omega arith in
      rw (le→leb _ _ first, le→leb _ _ second)

  -- What a reservation of `size` bytes may do.
  pub record ReservedCore (o : BufferedOStream S) (size : ℕ) (r : ErrorCode × ℕ × BufferedOStream S)
      : Type 0 where
    pub valid : IsOut r.2
    pub same_pos : r.2.reserve_pos ≡ o.reserve_pos
    pub same_stream : r.2.stream ≡ o.stream
    pub same_limit : r.2.buffer.max_size ≡ o.buffer.max_size
    pub codes : (r.0 ≡ ok) ⊎ (r.0 ≡ limit) ⊎ (r.0 ≡ resource)
    pub place : r.0 ≡ ok → r.1 ≡ o.reserve_pos
    pub room : r.0 ≡ ok → o.reserve_pos + size ≤ r.2.buffer.size
    pub keeps : take o.buffer.size r.2.buffer.storage ≡ o.buffer.storage
    pub limited : o.buffer.max_size < o.reserve_pos + size → r.0 ≡ limit
    pub limit_only : r.0 ≡ limit → o.buffer.max_size < o.reserve_pos + size

  -- What a reservation may do, with the reason for ERR_RESOURCE.
  pub record Reserved (mem : Allocator) (o : BufferedOStream S) (size : ℕ)
      (r : ErrorCode × ℕ × BufferedOStream S) : Type 0 where
    pub core : ReservedCore o size r
    pub open core use *
    pub refused : r.0 ≡ resource → ¬ Generous mem

  module _ (mem : Allocator) where
    -- The part after the call of DynamicBuffer_resize.
    enlarged-Reserved :
        (o : BufferedOStream S) (buffer size : ℕ) (r : ErrorCode × DynamicBuffer)
        → IsOut o
        → Resized mem o.buffer (o.reserve_pos + size) r
        → Returns (Reserved mem o size) (enlarged mem o buffer size r)
    unfolding enlarged pointed size_reserved
    enlarged-Reserved o buffer size r v p = elim (Bool-cases (is_ok r.0)) [
      | inl e ↦
          let fits = p.room (is_ok→eq r.0 e) in
          let first : o.reserve_pos ≤ r.1.size = omega arith in
          let second : size ≤ r.1.size - o.reserve_pos = omega arith in
          rw (e, le→leb _ _ first, le→leb _ _ second)
            (record { core = ground (arith, p.core, is_ok→eq r.0 e); refused = λ h. cc })
      | inr e ↦ rw e (record { core = ground (arith, p.core, is_ok→ne r.0 e); refused = p.refused })
    ]

    -- On a valid stream, BufferedOStream_reserve does not abort. With ERR_OK there is the space
    -- asked for right behind the confirmed bytes; all bytes of the buffer are kept; it fails with
    -- ERR_LIMIT exactly when the limit is too small, and with ERR_RESOURCE only when realloc
    -- refused.
    pub reserve_lem :
        (o : BufferedOStream S) (buffer size : ℕ)
        → IsOut o
        → Returns (Reserved mem o size) (reserve mem o buffer size)
    unfolding reserve
    reserve_lem o buffer size v =
        rw (le→leb _ _ v.buffered.within, le→leb _ _ v.in_buffer)
          (elim (Bool-cases (ltb (o.buffer.size - o.reserve_pos) size)) [
            | inl more ↦ rw more (elim (Bool-cases (ltb (size_max - o.reserve_pos) size)) [
              | inl huge ↦ rw huge (record {
                core = ground (arith, ltb→lt _ _ huge, take_all o.buffer.size o.buffer.storage);
                refused = λ h. cc;
              })
              | inr small ↦ rw small (
                  Returns-bind (Resized mem o.buffer (o.reserve_pos + size)) (Reserved mem o size) _
                    _ (resize_lem mem o.buffer (o.reserve_pos + size) v.buffered)
                    (λ r. enlarged-Reserved o buffer size r v))
            ])
            | inr fits ↦
                let enough : size ≤ o.buffer.size - o.reserve_pos = ltb→le _ _ fits in
                rw (fits, le→leb _ _ enough)
                  (record {
                    core = ground (arith, take_all o.buffer.size o.buffer.storage);
                    refused = λ h. cc;
                  })
          ])

    -- A reservation that fails leaves `*buffer` alone.
    pub reserve_unset :
        (o : BufferedOStream S) (buffer size : ℕ) (r : ErrorCode × ℕ × BufferedOStream S)
        → reserve mem o buffer size ≡ some r
        → r.0 ≢ ok
        → r.1 ≡ buffer
    unfolding reserve
    reserve_unset o buffer size r e h = ground arith
