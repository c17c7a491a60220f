-- ===== src/Cpp/Channel/Records.antt =====
-- The records of a put request: putImpl and serializeAndWriteRecord of
-- cpp/libtstorageclient++/include/tstorageclient++/Channel.tpp.
use tstorage_clients.Prelude.{
  if◌then◌else◌, All, Bool, Bool-cases, List, Option, Returns, Returns-bind, Returns-mono, [], ap,
  append-nil, append_assoc, arith, drop, false, inl, inr, length, ltb, ltb→le, map, some, sym, take,
  ℕ, ◌++◌, ◌+◌, ◌>>=◌, ◌∙◌, ◌∷◌, ◌≡◌, ◌≤◌,
}
use tstorage_clients.Cpp.Batch.{ProtoT, proto_key_size}
use tstorage_clients.Cpp.Batch.Adding.{Returns-assoc}
use tstorage_clients.Cpp.Batch.Wire.{WireRecord}
use tstorage_clients.Cpp.Buffer.{Buffer, write_at}
use tstorage_clients.Cpp.Channel.{PayloadFormat, serialize_and_write, write_records}
use tstorage_clients.Cpp.ChannelImpl.{ChannelImpl}
use tstorage_clients.Cpp.ChannelImpl.Moving.{Live}
use tstorage_clients.Cpp.ChannelImpl.Placing.{Placed, payload_at, reserve_payload_buffer_lem}
use tstorage_clients.Cpp.ChannelImpl.Requests.{
  obtain_payload_buffer, reserve_put_payload_buffer, write_next_record,
}
use tstorage_clients.Cpp.ChannelImpl.Sending.{Sending}
use tstorage_clients.Cpp.DataTypes.{ResultT, is_result_ok, result_ok}
use tstorage_clients.Cpp.DataTypes.Results.{is_result_ok→eq, is_result_ok→ne}
use tstorage_clients.Cpp.Socket.{Host}
use tstorage_clients.Cpp.Socket.Transfers.{Platform}
use tstorage_clients.Key.{Key}
use tstorage_clients.Record.{int32_max}
use mathlib.Core.Path.{subst}
use mathlib.Core.Bool.{not}
use tstorage_clients.Cpp.Channel.NextRecord.{Behind, Sending-Behind, Wrote, write_next_record_lem}

-- What the user's toBytes promises: how long the bytes of a value are, to write no more than the space
-- there is, and to write them if there is enough.
pub record Contract {T : Type 0} (format : PayloadFormat T) : Type 0 where
  pub encode : T → List ℕ
  pub needed : (v : T) (n : ℕ) → (format.to_payload v n).1 ≡ length (encode v)
  pub within : (v : T) (n : ℕ) → length (format.to_payload v n).0 ≤ n
  pub complete : (v : T) (n : ℕ) → length (encode v) ≤ n → (format.to_payload v n).0 ≡ encode v

module _ {W T : Type 0} (is_be : Bool) (host : Host W) (net : Platform host) (proto : ProtoT)
    (format : PayloadFormat T) (codec : Contract format) where
  open codec use {encode, needed, within, complete}

  abbrev pub wire_form : Key × T → WireRecord
  wire_form r = (r.0, encode r.1)

  -- A record with the head of its batch fits into the buffer.
  abbrev pub Fits : ℕ → Key × T → Type 0
  Fits size r = 8 + (proto_key_size proto + 4) + length (encode r.1) ≤ size

  -- The value's bytes at the place that was reserved, if there was room.
  abbrev Laid :
      List ℕ
      → List WireRecord
      → ℕ
      → ℕ
      → Key
      → T
      → ResultT × Option ℕ × ℕ × ChannelImpl W
      → Buffer
      → Type 0
  Laid start all fd size key v r b =
      (s : Sending is_be host net proto start all (record (r.3) { buffer = b }) fd size)
      × (b.write_offset ≡ r.3.buffer.write_offset)
      × (length (encode v) ≤ r.2
          → take (length (encode v))
              (drop (r.3.buffer.write_offset + payload_at is_be host net proto r.3 key) s.block')
            ≡ encode v)

  serialized_lem :
      (start : List ℕ) (all : List WireRecord) (fd size n : ℕ) (key : Key) (v : T)
      (r : ResultT × Option ℕ × ℕ × ChannelImpl W)
      → Placed is_be host net proto start all fd size key n r
      → r.0 ≡ result_ok
      → Returns
          (Laid start all fd size key v r)
          (r.1 >>= λ at. write_at r.3.buffer at (format.to_payload v r.2).0)
  serialized_lem start all fd size n key v r p k =
      let (at, space) = p.place k in
      let off = payload_at is_be host net proto r.3 key in
      rw at (
        Returns-mono
          (Behind is_be host net proto start all r.3 fd size off (format.to_payload v r.2).0)
          (Laid start all fd size key v r) _
          (Sending-Behind is_be host net proto start all r.3 fd size off (format.to_payload v r.2).0
            (p.sending k) (omega (arith, within v r.2, space)))
          (λ b q. (
            q.0,
            q.1,
            λ h.
                subst (λ t. take (length t) (drop (r.3.buffer.write_offset + off) q.0.block') ≡ t)
                  (complete v r.2 h) q.2,
          )))

  -- The record is written over the place where its payload lies.
  laid_lem :
      (start : List ℕ) (all : List WireRecord) (fd size n : ℕ) (key : Key) (v : T)
      (r : ResultT × Option ℕ × ℕ × ChannelImpl W) (b : Buffer)
      → Placed is_be host net proto start all fd size key n r
      → r.0 ≡ result_ok
      → size ≤ int32_max
      → length (encode v) ≤ r.2
      → Laid start all fd size key v r b
      → Returns (Wrote is_be host net proto start (all ++ (wire_form (key, v) ∷ [])) fd size) (
          write_next_record is_be host proto
            (record (r.3) { buffer = b })
            key
            (format.to_payload v r.2).1)
  laid_lem start all fd size n key v r b p k most enough q =
      let (_, space) = p.place k in
      let sizes : r.3.buffer.buffer_size ≡ size = (p.sending k).live.sized in
      rw (needed v r.2) (
        write_next_record_lem is_be host net proto start all (record (r.3) { buffer = b }) fd size
          key (encode v) q.0 most (omega (arith, space, sizes, q.0.live.sized, q.1, enough))
          (ap (λ (j : ℕ). take (length (encode v)) (drop j q.0.block')) (omega (arith, q.1))
            ∙ q.2 enough))

  abbrev WrittenNext : List ℕ → List WireRecord → ℕ → ℕ → Key → T → ResultT × ChannelImpl W → Type 0
  WrittenNext start all fd size key v =
      Wrote is_be host net proto start (all ++ (wire_form (key, v) ∷ [])) fd size

  -- The value's bytes are laid at the place, and what follows goes on from there.
  lay_then :
      (start : List ℕ) (all : List WireRecord) (fd size n : ℕ) (key : Key) (v : T)
      (r : ResultT × Option ℕ × ℕ × ChannelImpl W) (k : Buffer → Option (ResultT × ChannelImpl W))
      → Placed is_be host net proto start all fd size key n r
      → r.0 ≡ result_ok
      → ((b : Buffer)
          → Laid start all fd size key v r b
          → Returns (WrittenNext start all fd size key v) (k b))
      → Returns
          (WrittenNext start all fd size key v)
          (r.1 >>= λ at. write_at r.3.buffer at (format.to_payload v r.2).0 >>= k)
  lay_then start all fd size n key v r k p e more =
      Returns-assoc (WrittenNext start all fd size key v) r.1 _ k (
        Returns-bind (Laid start all fd size key v r) (WrittenNext start all fd size key v) _ k
          (serialized_lem start all fd size n key v r p e) more)

  pub serialize_and_write_lem :
      (start : List ℕ) (all : List WireRecord) (c : ChannelImpl W) (fd size : ℕ) (key : Key) (v : T)
      → Sending is_be host net proto start all c fd size
      → 128 ≤ size
      → size ≤ int32_max
      → Fits size (key, v)
      → Returns
          (WrittenNext start all fd size key v)
          (serialize_and_write is_be host format proto c key v)
  unfolding serialize_and_write obtain_payload_buffer reserve_put_payload_buffer
  serialize_and_write_lem start all c fd size key v s big most fits =
      Returns-bind (Placed is_be host net proto start all fd size key c.expected_payload_size) Goal
        _ _
        (reserve_payload_buffer_lem is_be host net proto start all c fd size key
          c.expected_payload_size s big most s.hope)
        λ r p. elim (Bool-cases (is_result_ok r.0)) [
          | inr bad ↦ rw bad (not_written r.0 r.3 p.block' bad p.live)
          | inl good ↦
              let e = is_result_ok→eq r.0 good in
              rw good (
                lay_then start all fd size c.expected_payload_size key v r _ p e λ b q.
                  elim (Bool-cases (ltb r.2 (asked r.2))) [
                    | inr enough ↦ rw enough (
                        laid_lem start all fd size c.expected_payload_size key v r b p e most
                          (omega (arith, ltb→le _ _ enough, needed v r.2)) q)
                    | inl short ↦ rw short (
                        Returns-bind (Placed is_be host net proto start all fd size key (asked r.2))
                          Goal _ _
                          (reserve_payload_buffer_lem is_be host net proto start all
                            (record (r.3) { buffer = b }) fd size key (asked r.2) q.0 big most
                            (omega (arith, needed v r.2, fits, most)))
                          (λ r' p'. again r.2 r' p'))
                  ])
        ]
    where
      Goal : ResultT × ChannelImpl W → Type 0
      Goal = WrittenNext start all fd size key v

      not_written :
          (res : ResultT) (c' : ChannelImpl W) (m : List ℕ)
          → is_result_ok res ≡ false
          → Live c' m fd size
          → Goal (res, c')
      not_written res c' m bad l = record {
        block' = m;
        live = l;
        sending = λ k. absurd (is_result_ok→ne res bad k);
      }

      asked : ℕ → ℕ
      asked space = (format.to_payload v space).1

      -- The second attempt, with the size that the value asked for.
      again :
          (space : ℕ) (r : ResultT × Option ℕ × ℕ × ChannelImpl W)
          → Placed is_be host net proto start all fd size key (asked space) r
          → Returns Goal (
              if not (is_result_ok r.0) then some (r.0, r.3) else (do
                at ← r.1
                b ← write_at r.3.buffer at (format.to_payload v r.2).0
                write_next_record is_be host proto (record (r.3) { buffer = b }) key (asked r.2)))
      again space r p = elim (Bool-cases (is_result_ok r.0)) [
        | inr bad ↦ rw bad (not_written r.0 r.3 p.block' bad p.live)
        | inl good ↦
            let e = is_result_ok→eq r.0 good in
            let enough : length (encode v) ≤ r.2 =
              omega (arith, needed v space, p.enough e (omega (arith, needed v space, fits))) in
            rw good (
              lay_then start all fd size (asked space) key v r _ p e
                λ b q. laid_lem start all fd size (asked space) key v r b p e most enough q)
      ]

  -- For a payload type that keeps its contract, a request in progress on an open connection, a
  -- buffer of 128 bytes at least and of no more than the greatest int32_t, and records that each
  -- fit into it with the head of a batch, the loop of putImpl returns: it accesses no memory out
  -- of bounds. With OK, the records follow those before them in batches of one cid each, on the
  -- wire and then in the buffer; the connection keeps its descriptor in any case.
  pub write_records_lem :
      (start : List ℕ) (all : List WireRecord) (c : ChannelImpl W) (fd size : ℕ)
      (recs : List (Key × T))
      → Sending is_be host net proto start all c fd size
      → 128 ≤ size
      → size ≤ int32_max
      → All (Fits size) recs
      → Returns
          (Wrote is_be host net proto start (all ++ map wire_form recs) fd size)
          (write_records is_be host format proto c recs)
  unfolding write_records
  write_records_lem start all c fd size [] s big most fits = record {
    block' = s.block';
    live = s.live;
    sending =
        λ _. subst (λ t. Sending is_be host net proto start t c fd size) (sym (append-nil all)) s;
  }
  write_records_lem start all c fd size ((key, v) ∷ recs) s big most fits =
      Returns-bind (WrittenNext start all fd size key v)
        (Wrote is_be host net proto start (all ++ (wire_form (key, v) ∷ map wire_form recs)) fd
          size)
        _ _ (serialize_and_write_lem start all c fd size key v s big most fits.0)
        λ r p. elim (Bool-cases (is_result_ok r.0)) [
          | inr bad ↦ rw bad record {
            block' = p.block';
            live = p.live;
            sending = λ k. absurd (is_result_ok→ne r.0 bad k);
          }
          | inl good ↦ rw good (
              subst
                (λ t.
                  Returns (Wrote is_be host net proto start t fd size)
                    (write_records is_be host format proto r.1 recs))
                (append_assoc all (wire_form (key, v) ∷ []) (map wire_form recs))
                (write_records_lem start (all ++ (wire_form (key, v) ∷ [])) r.1 fd size recs
                  (p.sending (is_result_ok→eq r.0 good)) big most fits.1))
        ]
