-- ===== src/Cpp/ChannelImpl/Finishing.antt =====
-- The end of a put request: writeFin of cpp/libtstorageclient++/src/ChannelImpl.cpp.
use tstorage_clients.Prelude.{
  Bool, Bool-cases, List, Returns, Returns-bind, Returns-mono, ap, append-nil, append_assoc, arith,
  drop, if◌then◌else◌, inl, inr, ltb, ltb→le, refl, some, sym, take, ℕ, ◌++◌, ◌+◌, ◌-◌, ◌>>=◌, ◌^◌,
  ◌∙◌, ◌≡◌, ◌≤◌,
}
use tstorage_clients.Cpp.Batch.{ProtoT}
use tstorage_clients.Cpp.Batch.Sequence.{InBatches}
use tstorage_clients.Cpp.Batch.Wire.{WireBatches, WireRecord}
use tstorage_clients.Cpp.Buffer.{bytes_free, reset_offsets}
use tstorage_clients.Cpp.Buffer.Contents.{Put, bytes_free-room, filled, room}
use tstorage_clients.Cpp.ChannelImpl.{ChannelImpl, send_buffer}
use tstorage_clients.Cpp.ChannelImpl.Moving.{Live, SentBuffer, send_buffer_lem, wire_of}
use tstorage_clients.Cpp.ChannelImpl.Requests.{write_fin}
use tstorage_clients.Cpp.ChannelImpl.Sending.{
  AllEnded, Sending, SentEnded, end_request_batch_lem, send_ended_lem,
}
use tstorage_clients.Cpp.DataTypes.{ResultT, is_result_ok, result_ok}
use tstorage_clients.Cpp.DataTypes.Results.{is_result_ok→eq, is_result_ok→ne}
use tstorage_clients.Cpp.Serializer.{put}
use tstorage_clients.Cpp.Serializer.Fields.{put_lem}
use tstorage_clients.Cpp.Socket.{Host}
use tstorage_clients.Cpp.Socket.Transfers.{Platform}
use tstorage_clients.Put.Write.{end_mark}
use tstorage_clients.Record.{int32_max}
use mathlib.Core.Path.{subst}

module _ {W : Type 0} (is_be : Bool) (host : Host W) (net : Platform host) (proto : ProtoT) where
  -- What writeFin leaves: with OK the batches and the end mark are on the wire.
  pub record Finished (start : List ℕ) (all : List WireRecord) (fd size : ℕ)
      (r : ResultT × ChannelImpl W) : Type 0 where
    pub block' : List ℕ
    pub live : Live r.1 block' fd size
    pub bytes : List ℕ
    pub cut : WireBatches proto all bytes
    pub sent : r.0 ≡ result_ok → wire_of host net r.1 fd ≡ start ++ (bytes ++ end_mark)

  -- The end mark behind what the buffer holds goes to the wire.
  mark_lem :
      (start : List ℕ) (all : List WireRecord) (c : ChannelImpl W) (fd size : ℕ)
      → AllEnded is_be host net proto start all c fd size
      → 4 ≤ room c.buffer
      → Returns
          (Finished start all fd size)
          (put is_be c.buffer 4 (2 ^ 32 - 1) >>= λ b. send_buffer host (record c { buffer = b }))
  mark_lem start all c fd size a h =
      Returns-bind (Put c.buffer a.block' end_mark) (Finished start all fd size) _ _
        (put_lem is_be c.buffer a.block' 4 (2 ^ 32 - 1) a.live.sound h)
        λ b p.
          Returns-mono (SentBuffer host net (record c { buffer = b }) p.block' fd size)
            (Finished start all fd size) _
            (send_buffer_lem host net (record c { buffer = b }) p.block' fd size
              record {
                sound = p.sound;
                connected = a.live.connected;
                sized = p.same_size ∙ a.live.sized;
              })
            λ r q. record {
              block' = p.block';
              live = q.live;
              bytes = a.bytes;
              cut = a.cut;
              sent = λ k.
                  q.sent k
                  ∙ ap (λ t. wire_of host net c fd ++ t)
                      (ap (λ (n : ℕ). drop n (filled b p.block')) (p.same_read ∙ a.at_start)
                        ∙ p.appended
                        ∙ ap (λ t. t ++ end_mark) a.empty.contents)
                  ∙ sym (append_assoc (wire_of host net c fd) a.done end_mark)
                  ∙ ap (λ t. t ++ end_mark) a.placed
                  ∙ append_assoc start a.bytes end_mark;
            }

  -- An empty buffer is reset to what it is.
  reset_AllEnded :
      (start : List ℕ) (all : List WireRecord) (c : ChannelImpl W) (fd size : ℕ)
      → Sending is_be host net proto start all c fd size
      → c.batch.current_size ≡ 0
      → c.buffer.write_offset ≡ 0
      → AllEnded is_be host net proto start all
          (record c { buffer = reset_offsets c.buffer })
          fd
          size
  unfolding reset_offsets
  reset_AllEnded start all c fd size s none_there at_start = elim i.holds [
    | inr o ↦ absurd (omega (arith, o.positive, none_there))
    | inl (none_yet, o, _) ↦ record {
      block' = s.block';
      live = record {
        sound = record {
          has_block = s.live.sound.has_block;
          whole = s.live.sound.whole;
          in_order = omega arith;
          in_bounds = omega arith;
          small = s.live.sound.small;
        };
        connected = s.live.connected;
        sized = s.live.sized;
      };
      at_start = refl;
      hope = s.hope;
      bytes = i.past_bytes;
      cut =
          subst (λ t. WireBatches proto t i.past_bytes)
            (sym (i.split ∙ ap (λ t. i.past ++ t) none_yet ∙ append-nil i.past)) i.cut;
      done = i.done;
      empty = record {
        no_size = o.no_size;
        at_field = o.at_field ∙ ap (λ (n : ℕ). some (n + 4)) at_start;
        contents = ap (λ (n : ℕ). take n s.block') (sym at_start) ∙ o.contents;
      };
      placed = i.placed;
    }
  ]
    where
      i : InBatches proto (wire_of host net c fd) start all c.batch c.buffer s.block'
      i = s.batches

  -- The buffer after its bytes were sent to make room.
  abbrev Emptied : List ℕ → List WireRecord → ℕ → ℕ → ResultT × ChannelImpl W → Type 0
  Emptied start all fd size r =
      ((m : List ℕ) × Live r.1 m fd size)
      × (r.0 ≡ result_ok
          → AllEnded is_be host net proto start all r.1 fd size × (room r.1.buffer ≡ size))

  emptied :
      (start : List ℕ) (all : List WireRecord) (fd size : ℕ) (r : ResultT × ChannelImpl W)
      → SentEnded is_be host net proto start all fd size r
      → Emptied start all fd size (
        r.0,
        if is_result_ok r.0 then record (r.1) { buffer = reset_offsets r.1.buffer } else r.1,
      )
  unfolding reset_offsets
  emptied start all fd size r p = elim (Bool-cases (is_result_ok r.0)) [
    | inr bad ↦ rw bad (p.0, λ k. absurd (is_result_ok→ne r.0 bad k))
    | inl good ↦
        let (s, none_there, at_start) = p.1 (is_result_ok→eq r.0 good) in
        let a = reset_AllEnded start all r.1 fd size s none_there at_start in
        rw good ((a.block', a.live), λ _. (a, omega (arith, a.live.sized)))
  ]

  -- For a request in progress on an open connection, and a buffer of 128 bytes at least and of no
  -- more than the greatest int32_t, writeFin returns. With OK, what is on the wire behind the
  -- start of the request are all its records in order, in batches of one cid each that tell their
  -- sizes, and the end mark.
  pub write_fin_lem :
      (start : List ℕ) (all : List WireRecord) (c : ChannelImpl W) (fd size : ℕ)
      → Sending is_be host net proto start all c fd size
      → 128 ≤ size
      → size ≤ int32_max
      → Returns (Finished start all fd size) (write_fin is_be host c)
  unfolding write_fin
  write_fin_lem start all c fd size s big most =
      Returns-bind (λ c₁. AllEnded is_be host net proto start all c₁ fd size)
        (Finished start all fd size) _ _
        (end_request_batch_lem is_be host net proto start all c fd size s big most)
        λ c₁ a.
          let free = bytes_free-room c₁.buffer a.block' a.live.sound in
          elim (Bool-cases (ltb (bytes_free c₁.buffer) 4)) [
            | inr fits ↦
                rw fits (mark_lem start all c₁ fd size a (omega (arith, ltb→le _ _ fits, free)))
            | inl full ↦ rw full (
                Returns-bind (Emptied start all fd size) (Finished start all fd size) _ _
                  (Returns-bind (SentEnded is_be host net proto start all fd size)
                    (Emptied start all fd size) _ _
                    (send_ended_lem is_be host net proto start all c₁ fd size a)
                    (λ r p. emptied start all fd size r p))
                  (λ r q. elim (Bool-cases (is_result_ok r.0)) [
                    | inr bad ↦ rw bad record {
                      block' = q.0.0;
                      live = q.0.1;
                      bytes = a.bytes;
                      cut = a.cut;
                      sent = λ k. absurd (is_result_ok→ne r.0 bad k);
                    }
                    | inl good ↦
                        let (a', space) = q.1 (is_result_ok→eq r.0 good) in
                        rw good (mark_lem start all r.1 fd size a' (omega (arith, space, big)))
                  ]))
          ]
