-- ===== src/Cpp/ChannelImpl/Moving.antt =====
-- What sendBuffer, requestData and skip of cpp/libtstorageclient++/src/ChannelImpl.cpp do.
use tstorage_clients.Prelude.{
  Bool-cases, List, Returns, Returns-bind, [], ap, append_assoc, arith, drop, drop-append_of_le,
  if◌then◌else◌, inl, inr, leb, leb→le, length, length-append, ltb, ltb→le, refl, some, sym, ℕ,
  ◌++◌, ◌+◌, ◌-◌, ◌<◌, ◌>>=◌, ◌^◌, ◌∙◌, ◌≡◌, ◌≤◌, ◌⊎◌,
}
use tstorage_clients.Memory.{add_size, load, size_max}
use tstorage_clients.Cpp.Batch.{new_batch}
use tstorage_clients.Cpp.Batch.Ending.{Empty, write_data-Sound}
use tstorage_clients.Cpp.Buffer.{
  Buffer, bytes_available, bytes_free, read_advance, read_at, reset_offsets, write_advance,
  write_at,
}
use tstorage_clients.Cpp.Buffer.Contents.{
  Compacted, Returns-given, Sound, Stored, bytes_available-to_read, bytes_free-room, filled,
  length-filled, length-to_read, reserve_target_lem, room, to_read, to_read-window, write_at-Put,
}
use tstorage_clients.Cpp.ChannelImpl.{ChannelImpl, request_data, reset_state, send_buffer, skip}
use tstorage_clients.Cpp.DataTypes.{
  ResultT, bad_response, is_result_ok, memory_limit_exceeded, result_ok,
}
use tstorage_clients.Cpp.DataTypes.Results.{is_result_ok→eq, is_result_ok→ne}
use tstorage_clients.Cpp.Socket.{Host, TcpSocket}
use tstorage_clients.Cpp.Socket.Skipping.{Skipped, skip_exactly_lem}
use tstorage_clients.Cpp.Socket.Transfers.{
  AllSent, Came, Platform, recv_at_least-Came, send_all_lem,
}
use tstorage_clients.Memory.Store.{load_fits}

-- A channel with a valid buffer of `size` bytes and an open connection.
pub record Live {W : Type 0} (c : ChannelImpl W) (m : List ℕ) (fd size : ℕ) : Type 0 where
  pub sound : Sound c.buffer m
  pub connected : c.socket.fd ≡ some fd
  pub sized : c.buffer.buffer_size ≡ size

reset-Sound : (b : Buffer) (m : List ℕ) → Sound b m → Sound (reset_offsets b) m
unfolding reset_offsets
reset-Sound b m v = record {
  has_block = v.has_block;
  whole = v.whole;
  in_order = omega arith;
  in_bounds = omega arith;
  small = v.small;
}

-- Bytes that are there are skipped.
pub advanced :
    (b : Buffer) (m : List ℕ) (n : ℕ)
    → Sound b m
    → n ≤ bytes_available b
    → Sound (read_advance b n) m
unfolding read_advance
advanced b m n v h =
    let there : n ≤ b.write_offset - b.read_offset = omega (arith, bytes_available-to_read b m v) in
    let no_wrap : add_size b.read_offset n ≡ b.read_offset + n =
      omega (arith, v.in_order, v.in_bounds, v.small) in
    record {
      has_block = v.has_block;
      whole = v.whole;
      in_order = omega (arith, no_wrap, v.in_order);
      in_bounds = v.in_bounds;
      small = v.small;
    }

module _ {W : Type 0} (host : Host W) (net : Platform host) where
  open net use {wire, coming}

  abbrev pub wire_of : ChannelImpl W → ℕ → List ℕ
  wire_of c fd = wire c.socket.world fd

  pub reset_state-Live :
      (c : ChannelImpl W) (m : List ℕ) (fd size : ℕ)
      → Live c m fd size
      → 4 ≤ size_max
      → Live (reset_state c) m fd size × Empty (reset_state c).batch (reset_state c).buffer m []
  unfolding reset_state reset_offsets new_batch
  reset_state-Live c m fd size l h = (
    record { sound = reset-Sound c.buffer m l.sound; connected = l.connected; sized = l.sized },
    record {
      no_size = refl;
      at_field = write_data-Sound (reset_offsets c.buffer) m (reset-Sound c.buffer m l.sound) 4 h;
      contents = refl;
    },
  )

  -- What sendBuffer leaves: with OK the bytes to be read are on the wire, and the buffer is empty.
  pub record SentBuffer (c : ChannelImpl W) (m : List ℕ) (fd size : ℕ) (r : ResultT × ChannelImpl W)
      : Type 0 where
    pub live : Live r.1 m fd size
    pub same_hope : r.1.expected_payload_size ≡ c.expected_payload_size
    pub sent : r.0 ≡ result_ok → wire_of r.1 fd ≡ wire_of c fd ++ to_read c.buffer m
    pub emptied :
        r.0 ≡ result_ok
        → Empty r.1.batch r.1.buffer m []
          × (r.1.batch.current_cid ≡ 2 ^ 32 - 1)
          × (r.1.buffer.read_offset ≡ 0)
          × (r.1.buffer.write_offset ≡ 0)

  pub send_buffer_lem :
      (c : ChannelImpl W) (m : List ℕ) (fd size : ℕ)
      → Live c m fd size
      → Returns (SentBuffer c m fd size) (send_buffer host c)
  unfolding send_buffer read_at reset_state reset_offsets new_batch
  send_buffer_lem c m fd size l =
      Returns-given (SentBuffer c m fd size)
        (read_at c.buffer c.buffer.read_offset (bytes_available c.buffer)) (to_read c.buffer m) _
        bytes_there
        (Returns-bind (AllSent host net c.socket fd (to_read c.buffer m)) (SentBuffer c m fd size) _
          _ (send_all_lem host net c.socket fd (to_read c.buffer m) l.connected)
          λ r p. elim (Bool-cases (is_result_ok r.0)) [
            | inl good ↦
                let e = is_result_ok→eq r.0 good in
                let (live, empty) =
                  reset_state-Live (record c { socket = r.1 }) m fd size
                    (record { sound = l.sound; connected = p.0 ∙ l.connected; sized = l.sized })
                    (omega arith) in
                rw good record {
                  live = live;
                  same_hope = refl;
                  sent = λ _. p.1 e;
                  emptied = λ _. (empty, refl, refl, refl);
                }
            | inr bad ↦ rw bad record {
              live = record { sound = l.sound; connected = p.0 ∙ l.connected; sized = l.sized };
              same_hope = refl;
              sent = λ k. absurd (is_result_ok→ne r.0 bad k);
              emptied = λ k. absurd (is_result_ok→ne r.0 bad k);
            }
          ])
    where
      bytes_there :
          read_at c.buffer c.buffer.read_offset (bytes_available c.buffer)
          ≡ some (to_read c.buffer m)
      bytes_there =
          let k = c.buffer.write_offset - c.buffer.read_offset in
          let v = l.sound in
          rw (bytes_available-to_read c.buffer m v) (
            ap (λ o. o >>= λ block. load block c.buffer.read_offset k) v.has_block
            ∙ load_fits m c.buffer.read_offset k (omega (arith, v.in_order, v.in_bounds, v.whole))
            ∙ ap some (to_read-window c.buffer m v))

  -- What requestData and skip leave.
  pub record Asked (c : ChannelImpl W) (m : List ℕ) (fd size : ℕ) (r : ResultT × ChannelImpl W)
      : Type 0 where
    pub block' : List ℕ
    pub live : Live r.1 block' fd size
    pub same_wire : wire_of r.1 fd ≡ wire_of c fd

  -- The bytes that are still to come, in the buffer and behind it.
  abbrev pub incoming : ChannelImpl W → List ℕ → ℕ → List ℕ
  incoming c m fd = to_read c.buffer m ++ coming c.socket.world fd

  pub record Requested (c : ChannelImpl W) (m : List ℕ) (fd size amount : ℕ)
      (r : ResultT × ChannelImpl W) : Type 0 where
    pub asked : Asked c m fd size r
    pub enough : r.0 ≡ result_ok → amount ≤ length (to_read r.1.buffer asked.block')
    pub kept :
        (r.0 ≡ result_ok) ⊎ (room c.buffer < amount - length (to_read c.buffer m))
        → incoming r.1 asked.block' fd ≡ incoming c m fd
    pub limited : room c.buffer < amount - length (to_read c.buffer m) → r.0 ≡ memory_limit_exceeded

  -- On an open connection, for an amount whose sum with the buffer's size is a size_t, requestData
  -- returns. With OK there are as many bytes to be read; the bytes to be read and those still to
  -- come are the same as before, in order, with OK or when the space behind the write location is
  -- too small, and in the latter case the result is MEMORY_LIMIT_EXCEEDED, even if the bytes were
  -- moved to make room.
  pub request_data_lem :
      (c : ChannelImpl W) (m : List ℕ) (fd size amount : ℕ)
      → Live c m fd size
      → amount ≤ size_max - size
      → Returns (Requested c m fd size amount) (request_data host c amount)
  unfolding request_data
  request_data_lem c m fd size amount l few =
      elim (Bool-cases (leb amount (bytes_available c.buffer))) [
        | inl there ↦ rw there record {
          asked = record { block' = m; live = l; same_wire = refl };
          enough = λ _. omega (arith, leb→le _ _ there, held);
          kept = λ _. refl;
          limited = λ over. absurd (omega (arith, over, leb→le _ _ there, held));
        }
        | inr missing ↦
            rw missing
              (elim (Bool-cases (ltb (bytes_free c.buffer) (amount - bytes_available c.buffer))) [
                | inl full ↦ rw full (
                    Returns-bind (Compacted c.buffer m (amount - bytes_available c.buffer))
                      (Requested c m fd size amount) _ _
                      (reserve_target_lem c.buffer m l.sound (amount - bytes_available c.buffer)
                        (omega (arith, l.sized)))
                      (λ r p. record {
                        asked = record {
                          block' = p.block';
                          live = record {
                            sound = p.sound;
                            connected = l.connected;
                            sized = p.same_size ∙ l.sized;
                          };
                          same_wire = refl;
                        };
                        enough = λ k. absurd (ground (arith, k));
                        kept = λ _. ap (λ t. t ++ coming c.socket.world fd) p.same_unread;
                        limited = λ _. refl;
                      }))
                | inr fits ↦ rw fits (
                    Returns-bind (Came host net c.socket fd (bytes_free c.buffer) [])
                      (Requested c m fd size amount) _ _
                      (recv_at_least-Came host net c.socket fd (bytes_free c.buffer)
                        (amount - bytes_available c.buffer) l.connected)
                      (λ r p.
                        arrived
                          (omega (arith, ltb→le _ _ fits, held, bytes_free-room c.buffer m l.sound))
                          r p))
              ])
      ]
    where
      held : bytes_available c.buffer ≡ length (to_read c.buffer m)
      held = bytes_available-to_read c.buffer m l.sound ∙ sym (length-to_read c.buffer m l.sound)

      -- The channel with what came from the socket behind the filled bytes.
      stored : Buffer → ResultT × List ℕ × TcpSocket W → ChannelImpl W
      stored b r = record c { socket = r.2; buffer = write_advance b (length r.1) }

      appended_to :
          (r : ResultT × List ℕ × TcpSocket W) (b : Buffer) (q : Stored c.buffer m r.1 b)
          → to_read (write_advance b (length r.1)) q.0.block' ≡ to_read c.buffer m ++ r.1
      appended_to r b q =
          ap (λ (k : ℕ). drop k (filled (write_advance b (length r.1)) q.0.block')) q.0.same_read
          ∙ ap (drop c.buffer.read_offset) q.0.appended
          ∙ drop-append_of_le c.buffer.read_offset (filled c.buffer m) r.1
              (omega (arith, length-filled c.buffer m l.sound, l.sound.in_order))

      asked_after :
          {res : ResultT} (r : ResultT × List ℕ × TcpSocket W)
          → Came host net c.socket fd (bytes_free c.buffer) [] r
          → (b : Buffer) (q : Stored c.buffer m r.1 b) → Asked c m fd size (res, stored b r)
      asked_after r p b q = record {
        block' = q.0.block';
        live = record {
          sound = q.0.sound;
          connected = p.0 ∙ l.connected;
          sized = q.0.same_size ∙ l.sized;
        };
        same_wire = p.1;
      }

      nothing_lost :
          (r : ResultT × List ℕ × TcpSocket W)
          → Came host net c.socket fd (bytes_free c.buffer) [] r
          → (b : Buffer) (q : Stored c.buffer m r.1 b)
          → incoming (stored b r) q.0.block' fd ≡ incoming c m fd
      nothing_lost r p b q =
          ap (λ t. t ++ coming r.2.world fd) (appended_to r b q)
          ∙ append_assoc (to_read c.buffer m) r.1 (coming r.2.world fd)
          ∙ ap (λ t. to_read c.buffer m ++ (t ++ coming r.2.world fd)) p.2.1
          ∙ ap (λ t. to_read c.buffer m ++ t) (sym p.2.3)

      arrived :
          amount - length (to_read c.buffer m) ≤ room c.buffer
          → (r : ResultT × List ℕ × TcpSocket W)
          → Came host net c.socket fd (bytes_free c.buffer) [] r
          → Returns (Requested c m fd size amount) (
              write_at c.buffer c.buffer.write_offset r.1 >>= λ b. some (
                if is_result_ok r.0
                then (if ltb (length r.1) (amount - bytes_available c.buffer)
                    then (bad_response, stored b r)
                    else (result_ok, stored b r))
                else (r.0, record c { socket = r.2; buffer = b })))
      arrived enough_room r p =
          Returns-bind (Stored c.buffer m r.1) (Requested c m fd size amount) _ _
            (write_at-Put c.buffer m r.1 l.sound
              (omega (arith, ap length p.2.1, p.2.2, bytes_free-room c.buffer m l.sound)))
            λ b q. elim (Bool-cases (is_result_ok r.0)) [
              | inr bad ↦ rw bad record {
                asked = record {
                  block' = q.0.block';
                  live = record {
                    sound = q.1;
                    connected = p.0 ∙ l.connected;
                    sized = q.2 ∙ l.sized;
                  };
                  same_wire = p.1;
                };
                enough = λ k. absurd (is_result_ok→ne r.0 bad k);
                kept = λ k. elim k [
                  | inl good ↦ absurd (is_result_ok→ne r.0 bad good)
                  | inr over ↦ absurd (omega (arith, over, enough_room))
                ];
                limited = λ over. absurd (omega (arith, over, enough_room));
              }
              | inl good ↦
                  elim (Bool-cases (ltb (length r.1) (amount - bytes_available c.buffer))) [
                    | inl short ↦
                        rw (good, short)
                          record {
                            asked = asked_after r p b q;
                            enough = λ k. absurd (ground (arith, k));
                            kept = λ _. nothing_lost r p b q;
                            limited = λ over. absurd (omega (arith, over, enough_room));
                          }
                    | inr whole ↦
                        rw (good, whole)
                          record {
                            asked = asked_after r p b q;
                            enough = λ _. omega (
                              arith,
                              ltb→le _ _ whole,
                              held,
                              ap length (appended_to r b q),
                              length-append (to_read c.buffer m) r.1,
                            );
                            kept = λ _. nothing_lost r p b q;
                            limited = λ over. absurd (omega (arith, over, enough_room));
                          }
                  ]
            ]

  pub skip_lem :
      (c : ChannelImpl W) (m : List ℕ) (fd size amount : ℕ)
      → Live c m fd size
      → Returns (Asked c m fd size) (skip host c amount)
  unfolding skip read_advance
  skip_lem c m fd size amount l = elim (Bool-cases (leb amount (bytes_available c.buffer))) [
    | inl there ↦ rw there record {
      block' = m;
      live = record {
        sound = advanced c.buffer m amount l.sound (leb→le _ _ there);
        connected = l.connected;
        sized = l.sized;
      };
      same_wire = refl;
    }
    | inr missing ↦ rw missing (
        Returns-bind (Skipped host net c.socket fd) (Asked c m fd size) _ _
          (skip_exactly_lem host net c.socket fd (amount - bytes_available c.buffer) l.connected)
          (λ r p. elim (Bool-cases (is_result_ok r.0)) [
            | inr bad ↦ rw bad (skipped r p)
            | inl good ↦ elim (Bool-cases (ltb r.1 (amount - bytes_available c.buffer))) [
              | inl short ↦ rw (good, short) (skipped r p)
              | inr whole ↦ rw (good, whole) (skipped r p)
            ]
          ]))
  ]
    where
      skipped :
          {res : ResultT} (r : ResultT × ℕ × TcpSocket W)
          → Skipped host net c.socket fd r
          → Asked c m fd size (
            res,
            record c { buffer = read_advance c.buffer (bytes_available c.buffer); socket = r.2 },
          )
      skipped r p = record {
        block' = m;
        live = record {
          sound = advanced c.buffer m (bytes_available c.buffer) l.sound (omega arith);
          connected = p.0 ∙ l.connected;
          sized = l.sized;
        };
        same_wire = p.1;
      }
