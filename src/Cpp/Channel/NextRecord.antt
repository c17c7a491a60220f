-- ===== src/Cpp/Channel/NextRecord.antt =====
-- writeNextPutRecord and writeNextPutARecord of cpp/libtstorageclient++/src/ChannelImpl.h for a
-- payload that lies in its place.
use tstorage_clients.Prelude.{
  Bool, Bool-cases, List, Returns, Returns-bind, [], ap, arith, drop, false, inl, inr, length, ltb,
  ltb→lt, refl, some, take, take-append_self, true, ℕ, ◌++◌, ◌+◌, ◌-◌, ◌<◌, ◌^◌, ◌∙◌, ◌∷◌, ◌≡◌, ◌≤◌,
}
use tstorage_clients.Memory.{store}
use tstorage_clients.Cpp.Batch.{BatchSerializer, ProtoT, next_record_offset, proto_key_size}
use tstorage_clients.Cpp.Batch.Sequence.{InBatches, Recorded, put_record_lem}
use tstorage_clients.Cpp.Batch.Wire.{WireRecord}
use tstorage_clients.Cpp.Buffer.{Buffer, write_at}
use tstorage_clients.Cpp.Buffer.Contents.{filled, room}
use tstorage_clients.Cpp.ChannelImpl.{ChannelImpl, max_payload_size}
use tstorage_clients.Cpp.ChannelImpl.Moving.{Live, wire_of}
use tstorage_clients.Cpp.ChannelImpl.Requests.{greatest_key, write_next_record}
use tstorage_clients.Cpp.ChannelImpl.Sending.{Sending}
use tstorage_clients.Cpp.DataTypes.{
  ResultT, invalid_key, is_result_ok, is_valid, key_max, le_key, payload_too_large, result_ok,
  sub_int, sub_key,
}
use tstorage_clients.Cpp.DataTypes.Results.{is_result_ok→ne}
use tstorage_clients.Cpp.Socket.{Host}
use tstorage_clients.Cpp.Socket.Transfers.{Platform}
use tstorage_clients.Key.{Key}
use tstorage_clients.Memory.Store.{drop-store_at, length-store, store_fits, take-store_below}
use tstorage_clients.Record.{int32_max}

-- `cKeyMax - 1`
abbrev key_below : Key
key_below = record {
  cid = 2 ^ 31 - 2;
  mid = 2 ^ 63 - 2;
  moid = 2 ^ 31 - 2;
  cap = 2 ^ 63 - 2;
  acq = 2 ^ 63 - 2;
}

sub_key-key_max : sub_key key_max 1 ≡ some key_below
unfolding sub_key sub_int
sub_key-key_max = refl

module _ {W : Type 0} (is_be : Bool) (host : Host W) (net : Platform host) (proto : ProtoT) where
  -- Bytes written behind the write location leave the request as it is.
  abbrev pub Behind :
      List ℕ → List WireRecord → ChannelImpl W → ℕ → ℕ → ℕ → List ℕ → Buffer → Type 0
  Behind start all c fd size off bs b =
      (s : Sending is_be host net proto start all (record c { buffer = b }) fd size)
      × (b.write_offset ≡ c.buffer.write_offset)
      × (take (length bs) (drop (c.buffer.write_offset + off) s.block') ≡ bs)

  pub Sending-Behind :
      (start : List ℕ) (all : List WireRecord) (c : ChannelImpl W) (fd size off : ℕ) (bs : List ℕ)
      → Sending is_be host net proto start all c fd size
      → off + length bs ≤ room c.buffer
      → Returns
          (Behind start all c fd size off bs)
          (write_at c.buffer (c.buffer.write_offset + off) bs)
  unfolding write_at
  Sending-Behind start all c fd size off bs s h =
      rw (s.live.sound.has_block, e)
        (
          record {
            block' = new;
            live = record {
              sound = record {
                has_block = refl;
                whole = length-store s.block' at bs new e ∙ s.live.sound.whole;
                in_order = s.live.sound.in_order;
                in_bounds = s.live.sound.in_bounds;
                small = s.live.sound.small;
              };
              connected = s.live.connected;
              sized = s.live.sized;
            };
            at_start = s.at_start;
            hope = s.hope;
            near = s.near;
            batches = record {
              past = i.past;
              past_bytes = i.past_bytes;
              done = i.done;
              recs = i.recs;
              cut = i.cut;
              split = i.split;
              placed = i.placed;
              holds = elim i.holds [
                | inl (none_yet, o, negative) ↦ inl (
                  none_yet,
                  record {
                    no_size = o.no_size;
                    at_field = o.at_field;
                    contents = below ∙ o.contents;
                  },
                  negative,
                )
                | inr o ↦ inr record {
                  sized = o.sized;
                  positive = o.positive;
                  at_field = o.at_field;
                  contents = below ∙ o.contents;
                  not_negative = o.not_negative;
                  same_cid = o.same_cid;
                }
              ];
            };
          },
          refl,
          ap (take (length bs)) (drop-store_at s.block' at bs new e)
              ∙ take-append_self bs (drop (at + length bs) s.block'),
        )
    where
      i : InBatches proto (wire_of host net c fd) start all c.batch c.buffer s.block'
      i = s.batches

      at : ℕ
      at = c.buffer.write_offset + off

      new : List ℕ
      new = take at s.block' ++ (bs ++ drop (at + length bs) s.block')

      e : store s.block' at bs ≡ some new
      e = store_fits s.block' at bs (omega (arith, h, s.live.sound.in_bounds, s.live.sound.whole))

      below : take c.buffer.write_offset new ≡ filled c.buffer s.block'
      below = take-store_below s.block' at bs new c.buffer.write_offset e (omega arith)

  -- What writing the next record leaves: with OK it stands in the batches.
  pub record Wrote (start : List ℕ) (all : List WireRecord) (fd size : ℕ)
      (r : ResultT × ChannelImpl W) : Type 0 where
    pub block' : List ℕ
    pub live : Live r.1 block' fd size
    pub sending : r.0 ≡ result_ok → Sending is_be host net proto start all r.1 fd size

  not_sending :
      (start : List ℕ) (all : List WireRecord) (fd size : ℕ) (res : ResultT) (c : ChannelImpl W)
      (m : List ℕ)
      → is_result_ok res ≡ false
      → Live c m fd size
      → Wrote start all fd size (res, c)
  not_sending start all fd size res c m bad l = record {
    block' = m;
    live = l;
    sending = λ k. absurd (is_result_ok→ne res bad k);
  }

  -- writeNextPutRecord and writeNextPutARecord, when the payload is in its place.
  pub write_next_record_lem :
      (start : List ℕ) (all : List WireRecord) (c : ChannelImpl W) (fd size : ℕ) (key : Key)
      (payload : List ℕ) (s : Sending is_be host net proto start all c fd size)
      → size ≤ int32_max
      → next_record_offset c.batch key.cid + (4 + proto_key_size proto + length payload)
        ≤ room c.buffer
      → take (length payload) (
          drop
            (c.buffer.write_offset
              + next_record_offset c.batch key.cid
              + (4 + proto_key_size proto))
            s.block')
        ≡ payload
      → Returns
          (Wrote start (all ++ ((key, payload) ∷ [])) fd size)
          (write_next_record is_be host proto c key (length payload))
  unfolding write_next_record is_valid
  write_next_record_lem start all c fd size key payload s most h there =
      elim (Bool-cases (ltb max_payload_size (length payload))) [
        | inl large ↦
            rw large (not_sending start all' fd size payload_too_large c s.block' refl s.live)
        | inr fits ↦ rw fits (elim (Bool-cases (is_valid key)) [
          | inr negative ↦
              rw (negative, sub_key-key_max)
                (not_sending start all' fd size invalid_key c s.block' refl s.live)
          | inl good ↦ elim (Bool-cases (le_key key (greatest_key is_be host proto key_below))) [
            | inr above ↦
                rw (good, sub_key-key_max, above)
                  (not_sending start all' fd size invalid_key c s.block' refl s.live)
            | inl low ↦
                rw (good, sub_key-key_max, low)
                  (Returns-bind (Recorded proto (wire_of host net c fd) start all' c.buffer rest)
                    Goal _ _
                    (put_record_lem is_be proto (wire_of host net c fd) start c.batch c.buffer
                      s.block' all key payload s.live.sound (omega (arith, s.live.sized, most))
                      s.batches (not_negative good) h there)
                    (λ r p. record {
                      block' = p.block';
                      live = live_after r p;
                      sending = λ _. record {
                        block' = p.block';
                        live = live_after r p;
                        at_start = p.same_read ∙ s.at_start;
                        hope = s.hope;
                        near = λ none_there. absurd (omega (arith, p.not_empty, none_there));
                        batches = p.batches;
                      };
                    }))
          ]
        ])
      ]
    where
      all' : List WireRecord
      all' = all ++ ((key, payload) ∷ [])

      rest : ℕ
      rest = next_record_offset c.batch key.cid + (4 + proto_key_size proto + length payload)

      Goal : ResultT × ChannelImpl W → Type 0
      Goal = Wrote start all' fd size

      not_negative : is_valid key ≡ true → key.cid < 2 ^ 31
      not_negative good = ltb→lt _ _ good

      live_after :
          (r : BatchSerializer × Buffer)
          (p : Recorded proto (wire_of host net c fd) start all' c.buffer rest r)
          → Live (record c { batch = r.0; buffer = r.1 }) p.block' fd size
      live_after r p = record {
        sound = p.sound;
        connected = s.live.connected;
        sized = p.same_size ∙ s.live.sized;
      }
