-- ===== src/Cpp/ChannelImpl/Placing.antt =====
-- Where payloads are put: reservePayloadBuffer of cpp/libtstorageclient++/src/ChannelImpl.cpp.
use tstorage_clients.Prelude.{
  Bool, Bool-cases, List, Option, Returns, Returns-bind, ap, arith, false, if◌then◌else◌, inl, inr,
  ltb→le, none, refl, some, ℕ, ◌+◌, ◌-◌, ◌==◌, ◌||◌, ◌∙◌, ◌≡◌, ◌≤◌,
}
use tstorage_clients.Memory.{add_size, sub_size}
use tstorage_clients.BufferedIStream.Fill.{sub_size_of_le}
use tstorage_clients.Cpp.Batch.{
  BatchSerializer, ProtoT, is_empty, next_record_offset, proto_key_size,
}
use tstorage_clients.Cpp.Batch.Records.{proto_key_size-le}
use tstorage_clients.Cpp.Batch.Wire.{WireRecord}
use tstorage_clients.Cpp.Buffer.{bytes_free}
use tstorage_clients.Cpp.Buffer.Contents.{bytes_free-room, room}
use tstorage_clients.Cpp.ChannelImpl.{ChannelImpl}
use tstorage_clients.Cpp.ChannelImpl.Moving.{Live}
use tstorage_clients.Cpp.ChannelImpl.Requests.{exceeds, payload_place, reserve_payload_buffer}
use tstorage_clients.Cpp.ChannelImpl.Sending.{
  AllEnded, Sending, SentEnded, end_request_batch_lem, modest_size, send_ended_lem,
}
use tstorage_clients.Cpp.DataTypes.{ResultT, is_result_ok, memory_limit_exceeded, result_ok}
use tstorage_clients.Cpp.DataTypes.Results.{is_result_ok→eq, is_result_ok→ne}
use tstorage_clients.Cpp.Socket.{Host, max_of}
use tstorage_clients.Cpp.Socket.Transfers.{Platform}
use tstorage_clients.Key.{Key}
use tstorage_clients.Record.{int32_max}
use mathlib.Core.Bool.{not}

module _ {W : Type 0} (is_be : Bool) (host : Host W) (net : Platform host) (proto : ProtoT) where
  -- The bytes between the write location and the payload of the next record.
  abbrev pub payload_at : ChannelImpl W → Key → ℕ
  payload_at c key = next_record_offset c.batch key.cid + (proto_key_size proto + 4)

  -- What reserving space for a payload leaves: with OK the space begins behind the record's head, and
  -- reaches to the end of the buffer.
  pub record Placed (start : List ℕ) (all : List WireRecord) (fd size : ℕ) (key : Key)
      (payload_size : ℕ) (r : ResultT × Option ℕ × ℕ × ChannelImpl W) : Type 0 where
    pub block' : List ℕ
    pub live : Live r.3 block' fd size
    pub sending : r.0 ≡ result_ok → Sending is_be host net proto start all r.3 fd size
    pub place :
        r.0 ≡ result_ok
        → (r.1 ≡ some (r.3.buffer.write_offset + payload_at r.3 key))
          × (r.2 + payload_at r.3 key ≡ room r.3.buffer)
    pub enough :
        r.0 ≡ result_ok → 8 + (proto_key_size proto + 4) + payload_size ≤ size → payload_size ≤ r.2

  -- The answer, when there is room for the head of the record.
  placed :
      (start : List ℕ) (all : List WireRecord) (c : ChannelImpl W) (fd size total : ℕ) (key : Key)
      (payload_size : ℕ)
      → Sending is_be host net proto start all c fd size
      → total ≡ payload_at c key
      → total ≤ room c.buffer
      → (8 + (proto_key_size proto + 4) + payload_size ≤ size
          → total + payload_size ≤ room c.buffer)
      → Placed start all fd size key payload_size (
        result_ok,
        some (payload_place is_be host c total).0,
        (payload_place is_be host c total).1,
        c,
      )
  placed start all c fd size total key payload_size s e fits there =
      let v = s.live.sound in
      let free = bytes_free-room c.buffer s.block' v in
      let space : sub_size (bytes_free c.buffer) total ≡ room c.buffer - total =
        sub_size_of_le (bytes_free c.buffer) total (omega (arith, free, fits))
          (omega (arith, free, v.small))
        ∙ ap (λ (n : ℕ). n - total) free in
      let at : add_size c.buffer.write_offset total ≡ c.buffer.write_offset + total =
        omega (arith, fits, v.in_bounds, v.small) in
      record {
        block' = s.block';
        live = s.live;
        sending = λ _. s;
        place = λ _. (ap (λ (n : ℕ). some n) (omega (arith, at, e)), omega (arith, space, fits, e));
        enough = λ _ h. omega (arith, space, there h);
      }

  -- A channel that hopes for longer payloads.
  abbrev hoping : ChannelImpl W → ℕ → ChannelImpl W
  hoping c payload_size = record c {
    expected_payload_size = max_of c.expected_payload_size payload_size;
  }

  max_of-le : (a b n : ℕ) → a ≤ n → b ≤ n → max_of a b ≤ n
  max_of-le a b n h k = ground arith

  hoping-Sending :
      (start : List ℕ) (all : List WireRecord) (c : ChannelImpl W) (fd size n : ℕ)
      → Sending is_be host net proto start all c fd size
      → n ≤ modest_size
      → Sending is_be host net proto start all (hoping c n) fd size
  hoping-Sending start all c fd size n s h = record {
    block' = s.block';
    live = record { sound = s.live.sound; connected = s.live.connected; sized = s.live.sized };
    at_start = s.at_start;
    hope = max_of-le c.expected_payload_size n modest_size s.hope h;
    near = s.near;
    batches = s.batches;
  }

  next_record_offset-le : (s : BatchSerializer) (cid : ℕ) → next_record_offset s cid ≤ 8
  unfolding next_record_offset
  next_record_offset-le s cid = elim (Bool-cases (is_empty s || not (cid == s.current_cid))) [
    | inl new ↦ rw new (omega arith)
    | inr old ↦ rw old (omega arith)
  ]

  next_record_offset-new :
      (s : BatchSerializer) (cid : ℕ) → s.current_size ≡ 0 → next_record_offset s cid ≡ 8
  unfolding next_record_offset is_empty
  next_record_offset-new s cid e = rw e refl

  refused :
      (start : List ℕ) (all : List WireRecord) (fd size : ℕ) (key : Key) (payload_size : ℕ)
      (res : ResultT) (c : ChannelImpl W)
      → is_result_ok res ≡ false
      → ((m : List ℕ) × Live c m fd size)
      → Placed start all fd size key payload_size (res, none, 0, c)
  refused start all fd size key payload_size res c bad (m, l) = record {
    block' = m;
    live = l;
    sending = λ k. absurd (is_result_ok→ne res bad k);
    place = λ k. absurd (is_result_ok→ne res bad k);
    enough = λ k. absurd (is_result_ok→ne res bad k);
  }

  -- For a request in progress, a buffer of 128 bytes at least and of no more than the greatest
  -- int32_t, and a size that leaves room for the record's head in a size_t, reservePayloadBuffer
  -- returns. With OK, the request goes on, the place is right behind the head of the next record,
  -- and the space reaches from it to the end of the buffer; it holds the size asked for if the
  -- record with the head of a batch fits into the buffer.
  pub reserve_payload_buffer_lem :
      (start : List ℕ) (all : List WireRecord) (c : ChannelImpl W) (fd size : ℕ) (key : Key)
      (payload_size : ℕ)
      → Sending is_be host net proto start all c fd size
      → 128 ≤ size
      → size ≤ int32_max
      → payload_size ≤ modest_size
      → Returns
          (Placed start all fd size key payload_size)
          (reserve_payload_buffer is_be host c payload_size key (proto_key_size proto))
  unfolding reserve_payload_buffer
  reserve_payload_buffer_lem start all c₀ fd size key payload_size s₀ big most modest =
      elim (Bool-cases (exceeds is_be host c sum)) [
        | inr fits ↦ rw fits (
            placed start all c fd size total key payload_size s refl
              (omega (arith, ltb→le _ _ fits, no_wrap, free))
              (λ _. omega (arith, ltb→le _ _ fits, no_wrap, free)))
        | inl full ↦ elim (Bool-cases (c.buffer.write_offset == 0)) [
          | inl fresh ↦
              rw (full, fresh)
                (refused start all fd size key payload_size memory_limit_exceeded c refl
                  (s.block', s.live))
          | inr some_there ↦
              rw (full, some_there)
                (Returns-bind (λ c₁. AllEnded is_be host net proto start all c₁ fd size) Goal _ _
                  (end_request_batch_lem is_be host net proto start all c fd size s big most)
                  (λ c₁ a.
                    Returns-bind (SentEnded is_be host net proto start all fd size) Goal _ _
                      (send_ended_lem is_be host net proto start all c₁ fd size a)
                      (λ r p. answer r p)))
        ]
      ]
    where
      Goal : ResultT × Option ℕ × ℕ × ChannelImpl W → Type 0
      Goal = Placed start all fd size key payload_size

      c : ChannelImpl W
      c = hoping c₀ payload_size

      s : Sending is_be host net proto start all c fd size
      s = hoping-Sending start all c₀ fd size payload_size s₀ modest

      total : ℕ
      total = payload_at c key

      sum : ℕ
      sum = add_size total payload_size

      no_wrap : sum ≡ total + payload_size
      no_wrap =
          omega (arith, next_record_offset-le c.batch key.cid, proto_key_size-le proto, modest)

      free : bytes_free c.buffer ≡ room c.buffer
      free = bytes_free-room c.buffer s.block' s.live.sound

      -- The answer behind the flush, where the record begins a batch.
      answer :
          (r : ResultT × ChannelImpl W)
          → SentEnded is_be host net proto start all fd size r
          → Returns Goal (
              if is_result_ok r.0
              then (if exceeds is_be host r.1 sum
                  then some (memory_limit_exceeded, none, 0, r.1)
                  else some (
                    result_ok,
                    some (payload_place is_be host r.1 (payload_at r.1 key)).0,
                    (payload_place is_be host r.1 (payload_at r.1 key)).1,
                    r.1,
                  ))
              else some (r.0, none, 0, r.1))
      answer r p = elim (Bool-cases (is_result_ok r.0)) [
        | inr bad ↦ rw bad (refused start all fd size key payload_size r.0 r.1 bad p.0)
        | inl good ↦
            let (s', empty, at_start) = p.1 (is_result_ok→eq r.0 good) in
            elim (Bool-cases (exceeds is_be host r.1 sum)) [
              | inl over ↦
                  rw (good, over)
                    (refused start all fd size key payload_size memory_limit_exceeded r.1 refl p.0)
              | inr fits ↦
                  let eight = next_record_offset-new r.1.batch key.cid empty in
                  let short = proto_key_size-le proto in
                  rw (good, fits)
                    (placed start all r.1 fd size (payload_at r.1 key) key payload_size s' refl
                      (omega (arith, eight, short, s'.live.sized, at_start, big))
                      (λ h. omega (arith, h, eight, s'.live.sized, at_start)))
            ]
      ]
