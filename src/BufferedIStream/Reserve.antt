-- ===== src/BufferedIStream/Reserve.antt =====
-- What BufferedIStream_reserve (c/src/BufferedIStream.c) does, step by step.
use tstorage_clients.Prelude.{
  Bool-cases, List, Returns, Returns-bind, ap, append_assoc, arith, drop, drop-append_of_le,
  if◌then◌else◌, inl, inr, length, length-take, le→leb, ltb, ltb→le, refl, some, sym, take,
  take-append_of_le, ℕ, ◌++◌, ◌+◌, ◌-◌, ◌∙◌, ◌≡◌, ◌≤◌,
}
use tstorage_clients.Memory.{Allocator, store}
use tstorage_clients.ErrorCode.{ok, receive}
use tstorage_clients.BufferedIStream.{BufferedIStream, receive_more, size_unused, take_reserved}
use tstorage_clients.BufferedIStream.Fill.{
  IsIn, Received, Source, ahead, ahead_split, length-ahead, load-ahead, take_reserved_fits, unread,
}
use tstorage_clients.Memory.Store.{length-store, store_fits, take-store}

module _ {S : Type 0} (source : Source S) (mem : Allocator) where
  open source use {read, Ready, incoming, read_lem}

  -- The bytes asked for are in the buffer of `j`, which stands where `i` stands.
  pub supplied :
      (i j : BufferedIStream S) (size : ℕ)
      → IsIn j
      → Ready j.stream
      → j.buffer.max_size ≡ i.buffer.max_size
      → j.reserve_pos ≡ i.reserve_pos
      → unread source j ≡ unread source i
      → size ≤ j.read_pos - j.reserve_pos
      → Received source mem i size
          (ok, j.reserve_pos, record j { reserve_pos = j.reserve_pos + size })
  supplied i j size v w most pos same h = record {
    valid = record {
      buffered = v.buffered;
      in_buffer = v.in_buffer;
      in_read = omega (arith, v.in_read);
    };
    ready = w;
    same_limit = most;
    codes = inl refl;
    place = λ _. (pos, ap (λ (k : ℕ). k + size) pos);
    chunk = λ _. load-ahead j size v h ∙ ap some (sym first ∙ ap (take size) same);
    rest = λ _.
        sym same
        ∙ ap (λ t. t ++ incoming j.stream) (ahead_split j size v)
        ∙ append_assoc (take size (ahead j)) _ (incoming j.stream)
        ∙ ap
            (λ t.
              t
              ++ (drop (j.reserve_pos + size) (take j.read_pos j.buffer.storage)
                  ++ incoming j.stream))
            (sym first ∙ ap (take size) same);
    unchanged = λ e. absurd (e refl);
    limit_only = λ e. absurd (ground (arith, e));
    refused = λ e. absurd (ground (arith, e));
  }
    where
      first : take size (unread source j) ≡ take size (ahead j)
      first = take-append_of_le size (ahead j) (incoming j.stream) (omega (arith, length-ahead j v))

  -- The bytes that were received, in the buffer.
  abbrev filled : BufferedIStream S → List ℕ → List ℕ → S → BufferedIStream S
  filled j storage bytes stream = record j {
    buffer = record (j.buffer) { storage = storage };
    stream = stream;
    read_pos = j.read_pos + length bytes;
  }

  filled-unread :
      (j : BufferedIStream S) (bytes storage : List ℕ) (stream : S)
      → IsIn j
      → store j.buffer.storage j.read_pos bytes ≡ some storage
      → incoming j.stream ≡ bytes ++ incoming stream
      → unread source (filled j storage bytes stream) ≡ unread source j
  filled-unread j bytes storage stream v e split =
      ap (λ t. drop j.reserve_pos t ++ incoming stream)
        (take-store j.buffer.storage j.read_pos bytes storage e)
      ∙ ap (λ t. t ++ incoming stream)
          (drop-append_of_le j.reserve_pos (take j.read_pos j.buffer.storage) bytes long)
      ∙ append_assoc (ahead j) bytes (incoming stream)
      ∙ ap (λ t. ahead j ++ t) (sym split)
    where
      long : j.reserve_pos ≤ length (take j.read_pos j.buffer.storage)
      long =
          let taken = length-take j.read_pos j.buffer.storage in
          omega (arith, v.in_read, v.in_buffer, v.buffered.sized)

  filled-IsIn :
      (j : BufferedIStream S) (bytes storage : List ℕ) (stream : S)
      → IsIn j
      → store j.buffer.storage j.read_pos bytes ≡ some storage
      → j.read_pos + length bytes ≤ j.buffer.size
      → IsIn (filled j storage bytes stream)
  filled-IsIn j bytes storage stream v e h = record {
    buffered = record {
      within = v.buffered.within;
      sized = length-store j.buffer.storage j.read_pos bytes storage e ∙ v.buffered.sized;
      bounded = v.buffered.bounded;
    };
    in_buffer = h;
    in_read = omega (arith, v.in_read);
  }

  module _ (i j : BufferedIStream S) (buffer size wanted : ℕ) (v : IsIn j) (w : Ready j.stream)
      (most : j.buffer.max_size ≡ i.buffer.max_size) (read_same : j.read_pos ≡ i.read_pos)
      (pos : j.reserve_pos ≡ i.reserve_pos) (same : unread source j ≡ unread source i)
      (need : wanted + (j.read_pos - j.reserve_pos) ≡ size)
      (room : j.read_pos + wanted ≤ j.buffer.size) where
    -- What follows the call of the stream's read function.
    after_read :
        (r : List ℕ × S)
        → Ready r.1
          × (length r.0 ≤ j.buffer.size - j.read_pos)
          × (incoming j.stream ≡ r.0 ++ incoming r.1)
        → (storage : List ℕ) → store j.buffer.storage j.read_pos r.0 ≡ some storage
        → Returns (Received source mem i size) (
            if ltb (length r.0) wanted
            then some (
              receive,
              buffer,
              record j { buffer = record (j.buffer) { storage = storage }; stream = r.1 },
            )
            else take_reserved (filled j storage r.0 r.1) size)
    after_read r p storage e = elim (Bool-cases (ltb (length r.0) wanted)) [
      | inl short ↦ rw short (record {
        valid = record {
          buffered = record {
            within = v.buffered.within;
            sized = length-store j.buffer.storage j.read_pos r.0 storage e ∙ v.buffered.sized;
            bounded = v.buffered.bounded;
          };
          in_buffer = v.in_buffer;
          in_read = v.in_read;
        };
        ready = p.0;
        same_limit = most;
        codes = inr (inr (inr refl));
        place = λ h. absurd (ground (arith, h));
        chunk = λ h. absurd (ground (arith, h));
        rest = λ h. absurd (ground (arith, h));
        unchanged = λ _. (read_same, pos);
        limit_only = λ h. absurd (ground (arith, h));
        refused = λ h. absurd (ground (arith, h));
      })
      | inr enough ↦
          let came : wanted ≤ length r.0 = ltb→le _ _ enough in
          let full : IsIn (filled j storage r.0 r.1) =
            filled-IsIn j r.0 storage r.1 v e (omega (arith, p.1, v.in_buffer)) in
          let fits : size ≤ j.read_pos + length r.0 - j.reserve_pos = omega (arith, v.in_read) in
          rw (enough, take_reserved_fits (filled j storage r.0 r.1) size full fits)
            (supplied i (filled j storage r.0 r.1) size full p.0 most pos
              (filled-unread j r.0 storage r.1 v e p.2 ∙ same) fits)
    ]

    pub receive_more_lem :
        Returns (Received source mem i size) (receive_more read j buffer size wanted)
    unfolding receive_more size_unused
    receive_more_lem = rw (le→leb _ _ v.in_buffer) (
        Returns-bind
          (λ r.
            Ready r.1
            × (length r.0 ≤ j.buffer.size - j.read_pos)
            × (incoming j.stream ≡ r.0 ++ incoming r.1))
          (Received source mem i size) _ _
          (read_lem j.stream wanted (j.buffer.size - j.read_pos) w (omega arith))
          (λ r p.
            let stored =
              store_fits j.buffer.storage j.read_pos r.0
                (omega (arith, p.1, v.in_buffer, v.buffered.sized)) in
            rw stored (after_read r p _ stored)))
