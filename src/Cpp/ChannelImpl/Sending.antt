-- ===== src/Cpp/ChannelImpl/Sending.antt =====
-- The put requests of cpp/libtstorageclient++/src/ChannelImpl.cpp: what is on the wire and in the buffer.
use tstorage_clients.Prelude.{
  Bool, List, Returns, Returns-bind, Returns-mono, [], ap, append-nil, append_assoc, arith, drop,
  inl, inr, refl, some, sym, true, ℕ, ◌++◌, ◌-◌, ◌>>=◌, ◌∙◌, ◌≡◌, ◌≤◌,
}
use tstorage_clients.Memory.{size_max}
use tstorage_clients.Bytes.{le_bytes}
use tstorage_clients.Cpp.Batch.{ProtoT, end_batch, new_batch, put_proto, puta_proto}
use tstorage_clients.Cpp.Batch.Ending.{
  BatchEnded, Empty, end_batch-Empty, end_batch-Open, end_batch-over,
}
use tstorage_clients.Cpp.Batch.Sequence.{InBatches, ended_WireBatches}
use tstorage_clients.Cpp.Batch.Wire.{WireBatches, WireRecord, no_batches, wire_batch}
use tstorage_clients.Cpp.Buffer.{Buffer, reset_offsets}
use tstorage_clients.Cpp.Buffer.Contents.{Put, filled, valid-Sound}
use tstorage_clients.Cpp.ChannelImpl.{ChannelImpl, reset_state, send_buffer}
use tstorage_clients.Cpp.ChannelImpl.Moving.{
  Live, SentBuffer, reset_state-Live, send_buffer_lem, wire_of,
}
use tstorage_clients.Cpp.ChannelImpl.Requests.{end_impl_batch, write_empty_header, write_put_header}
use tstorage_clients.Cpp.DataTypes.{ResultT, result_ok}
use tstorage_clients.Cpp.Serializer.{command_put, command_puta}
use tstorage_clients.Cpp.Serializer.Fields.{put_header_lem}
use tstorage_clients.Cpp.Socket.{Host, TcpSocket, connection_established}
use tstorage_clients.Cpp.Socket.Transfers.{Platform}
use tstorage_clients.Record.{int32_max}
use tstorage_clients.Request.Write.{header_bytes}
use mathlib.Core.Path.{subst}

-- The values of the command in the header of a put request.
abbrev pub put_command : ProtoT → ℕ
put_command proto = elim proto [ put_proto ↦ command_put | puta_proto ↦ command_puta ]

-- The longest payload whose size leaves room for the other sizes in a size_t.
abbrev pub modest_size : ℕ
modest_size = size_max - 64

module _ {W : Type 0} (is_be : Bool) (host : Host W) (net : Platform host) (proto : ProtoT) where
  -- A put request on its way: the records `all` follow the bytes `start`, in batches, partly on the
  -- wire and partly in the buffer.
  pub record Sending (start : List ℕ) (all : List WireRecord) (c : ChannelImpl W) (fd size : ℕ)
      : Type 0 where
    pub block' : List ℕ
    pub live : Live c block' fd size
    pub at_start : c.buffer.read_offset ≡ 0
    pub hope : c.expected_payload_size ≤ modest_size
    pub near : c.batch.current_size ≡ 0 → c.buffer.write_offset ≤ 12
    pub batches : InBatches proto (wire_of host net c fd) start all c.batch c.buffer block'

  -- What mBatch.endBatch() leaves of the channel.
  abbrev pub EndedIn : ChannelImpl W → List ℕ → List ℕ → ChannelImpl W → Type 0
  EndedIn c m done c' =
      BatchEnded c.batch c.buffer m done (c'.batch, c'.buffer)
      × (c'.socket ≡ c.socket)
      × (c'.expected_payload_size ≡ c.expected_payload_size)

  pub end_impl_batch_lem :
      (c : ChannelImpl W) (m done : List ℕ)
      → Returns (BatchEnded c.batch c.buffer m done) (end_batch is_be c.batch c.buffer)
      → Returns (EndedIn c m done) (end_impl_batch is_be host c)
  end_impl_batch_lem c m done h =
      Returns-bind (BatchEnded c.batch c.buffer m done) (EndedIn c m done) _ _ h
        λ r e. (e, refl, refl)

  pub write_put_header_lem :
      (c : ChannelImpl W) (m : List ℕ) (fd size : ℕ)
      → Live c m fd size
      → 128 ≤ size
      → size ≤ int32_max
      → c.expected_payload_size ≤ modest_size
      → Returns
          (λ (r : ResultT × ChannelImpl W).
            (r.0 ≡ result_ok)
            × Sending
                (wire_of host net c fd
                  ++ header_bytes (record { cmd = put_command proto; size = 0 }))
                []
                r.1
                fd
                size)
          (write_put_header is_be host proto c)
  unfolding write_put_header write_empty_header connection_established reset_state reset_offsets
      new_batch le_bytes
  write_put_header_lem c m fd size l big most hope =
      rw (established, valid-Sound c.buffer m l.sound)
        (Returns-bind Headed Goal _ _
          (Returns-bind (Put (reset_state c).buffer m hdr) Headed _ _
            (put_header_lem is_be (reset_state c).buffer m
              (record { id = put_command proto; data_size = 0 }) fresh.0.sound
              (omega (arith, fresh.0.sized, big)))
            (λ b p. (b, p, refl)))
          (λ r h.
            subst
              (λ (t : ResultT × ChannelImpl W).
                Returns Goal (end_impl_batch is_be host t.1 >>= λ c''. some (t.0, c'')))
              (sym h.2)
              (Returns-bind (EndedIn (headed h.0) h.1.block' hdr) Goal _ _
                (end_impl_batch_lem (headed h.0) h.1.block' hdr (over_zeros h.0 h.1))
                (λ c'' e. (refl, started h.0 h.1 c'' e)))))
    where
      hdr : List ℕ
      hdr = header_bytes (record { cmd = put_command proto; size = 0 })

      Goal : ResultT × ChannelImpl W → Type 0
      Goal r = (r.0 ≡ result_ok) × Sending (wire_of host net c fd ++ hdr) [] r.1 fd size

      headed : Buffer → ChannelImpl W
      headed b = record (reset_state c) { buffer = b }

      Headed : ResultT × ChannelImpl W → Type 0
      Headed r = (b : Buffer) × Put (reset_state c).buffer m hdr b × (r ≡ (result_ok, headed b))

      fresh :
          Live (reset_state c) m fd size × Empty (reset_state c).batch (reset_state c).buffer m []
      fresh = reset_state-Live host net c m fd size l (omega arith)

      -- The size field of the empty batch lies on zeros of the header.
      over_zeros :
          (b : Buffer) (p : Put (reset_state c).buffer m hdr b)
          → Returns
              (BatchEnded (headed b).batch b p.block' hdr)
              (end_batch is_be (headed b).batch b)
      over_zeros b p =
          end_batch-over is_be (headed b).batch b p.block' (le_bytes 4 (put_command proto))
            (le_bytes 4 0) (le_bytes 4 0) p.sound (omega (arith, p.same_size, fresh.0.sized, most))
            fresh.1.at_field refl (p.appended ∙ ap (λ t. t ++ hdr) fresh.1.contents)

      started :
          (b : Buffer) (p : Put (reset_state c).buffer m hdr b) (c'' : ChannelImpl W)
          → EndedIn (headed b) p.block' hdr c''
          → Sending (wire_of host net c fd ++ hdr) [] c'' fd size
      started b p c'' e = record {
        block' = e.0.block';
        live = record {
          sound = e.0.sound;
          connected = ap (λ (s : TcpSocket W). s.fd) e.1 ∙ fresh.0.connected;
          sized = e.0.same_size ∙ p.same_size ∙ fresh.0.sized;
        };
        at_start = e.0.same_read ∙ p.same_read;
        hope = omega (arith, e.2, hope);
        near = λ _. omega (arith, e.0.same_write, p.moved);
        batches = record {
          past = [];
          past_bytes = [];
          done = hdr;
          recs = [];
          cut = no_batches;
          split = refl;
          placed =
              ap (λ (s : TcpSocket W). net.wire s.world fd ++ hdr) e.1
              ∙ sym (append-nil (wire_of host net c fd ++ hdr));
          holds = inl (refl, e.0.empty, omega (arith, e.0.same_cid));
        };
      }

      established : connection_established c.socket ≡ true
      established = rw (connection_established, l.connected) refl

  -- All the records are in batches that are ended, and the buffer ends with the last one.
  pub record AllEnded (start : List ℕ) (all : List WireRecord) (c : ChannelImpl W) (fd size : ℕ)
      : Type 0 where
    pub block' : List ℕ
    pub live : Live c block' fd size
    pub at_start : c.buffer.read_offset ≡ 0
    pub hope : c.expected_payload_size ≤ modest_size
    pub bytes : List ℕ
    pub cut : WireBatches proto all bytes
    pub done : List ℕ
    pub empty : Empty c.batch c.buffer block' done
    pub placed : wire_of host net c fd ++ done ≡ start ++ bytes

  pub end_request_batch_lem :
      (start : List ℕ) (all : List WireRecord) (c : ChannelImpl W) (fd size : ℕ)
      → Sending start all c fd size
      → 128 ≤ size
      → size ≤ int32_max
      → Returns (λ c'. AllEnded start all c' fd size) (end_impl_batch is_be host c)
  end_request_batch_lem start all c fd size s big most = elim s.batches.holds [
    | inl (none_yet, o, _) ↦
        Returns-mono (EndedIn c s.block' i.done) (λ c'. AllEnded start all c' fd size) _
          (end_impl_batch_lem c s.block' i.done (
            end_batch-Empty is_be c.batch c.buffer s.block' i.done s.live.sound
              (omega (arith, s.live.sized, most))
              (omega (arith, s.live.sized, big, s.near o.no_size)) o))
          λ c' e.
            all_ended c' i.done i.past_bytes
              (subst (λ t. WireBatches proto t i.past_bytes)
                (sym (i.split ∙ ap (λ t. i.past ++ t) none_yet ∙ append-nil i.past)) i.cut)
              i.placed e
    | inr o ↦
        Returns-mono (EndedIn c s.block' (i.done ++ present)) (λ c'. AllEnded start all c' fd size)
          _
          (end_impl_batch_lem c s.block' (i.done ++ present) (
            end_batch-Open is_be proto c.batch c.buffer s.block' i.done i.recs s.live.sound
              (omega (arith, s.live.sized, most)) o))
          λ c' e.
            all_ended c' (i.done ++ present) (i.past_bytes ++ present)
              (subst (λ t. WireBatches proto t (i.past_bytes ++ present)) (sym i.split)
                (ended_WireBatches proto c.batch c.buffer s.block' i.done i.recs i.past i.past_bytes
                  o i.cut))
              (sym (append_assoc (wire_of host net c fd) i.done present)
                ∙ ap (λ t. t ++ present) i.placed
                ∙ append_assoc start i.past_bytes present)
              e
  ]
    where
      i : InBatches proto (wire_of host net c fd) start all c.batch c.buffer s.block'
      i = s.batches

      present : List ℕ
      present = wire_batch proto c.batch.current_cid i.recs

      all_ended :
          (c' : ChannelImpl W) (done bytes : List ℕ)
          → WireBatches proto all bytes
          → wire_of host net c fd ++ done ≡ start ++ bytes
          → EndedIn c s.block' done c'
          → AllEnded start all c' fd size
      all_ended c' done bytes cut placed e = record {
        block' = e.0.block';
        live = record {
          sound = e.0.sound;
          connected = ap (λ (t : TcpSocket W). t.fd) e.1 ∙ s.live.connected;
          sized = e.0.same_size ∙ s.live.sized;
        };
        at_start = e.0.same_read ∙ s.at_start;
        hope = omega (arith, e.2, s.hope);
        bytes = bytes;
        cut = cut;
        done = done;
        empty = e.0.empty;
        placed = ap (λ (t : TcpSocket W). net.wire t.world fd ++ done) e.1 ∙ placed;
      }

  -- What sending them leaves: with OK the buffer is empty.
  abbrev pub SentEnded : List ℕ → List WireRecord → ℕ → ℕ → ResultT × ChannelImpl W → Type 0
  SentEnded start all fd size r =
      ((m : List ℕ) × Live r.1 m fd size)
      × (r.0 ≡ result_ok
          → Sending start all r.1 fd size
            × (r.1.batch.current_size ≡ 0)
            × (r.1.buffer.write_offset ≡ 0))

  -- The batches that are ended go to the wire.
  pub send_ended_lem :
      (start : List ℕ) (all : List WireRecord) (c : ChannelImpl W) (fd size : ℕ)
      → AllEnded start all c fd size
      → Returns (SentEnded start all fd size) (send_buffer host c)
  send_ended_lem start all c fd size a =
      Returns-mono (SentBuffer host net c a.block' fd size) _ _
        (send_buffer_lem host net c a.block' fd size a.live)
        λ r q. (
          (a.block', q.live),
          λ k.
              let (empty, cid, read, write) = q.emptied k in
              (
                record {
                  block' = a.block';
                  live = q.live;
                  at_start = read;
                  hope = omega (arith, q.same_hope, a.hope);
                  near = λ _. omega (arith, write);
                  batches = record {
                    past = all;
                    past_bytes = a.bytes;
                    done = [];
                    recs = [];
                    cut = a.cut;
                    split = sym (append-nil all);
                    placed =
                        append-nil (wire_of host net r.1 fd)
                        ∙ q.sent k
                        ∙ ap (λ t. wire_of host net c fd ++ t)
                            (ap (λ (n : ℕ). drop n (filled c.buffer a.block')) a.at_start
                              ∙ a.empty.contents)
                        ∙ a.placed;
                    holds = inl (refl, empty, omega (arith, cid));
                  };
                },
                empty.no_size,
                write,
              ),
        )
