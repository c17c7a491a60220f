-- ===== src/Cpp/ChannelImpl/Asking.antt =====
-- The get requests of cpp/libtstorageclient++/src/ChannelImpl.cpp on the wire.
use tstorage_clients.Prelude.{
  Bool, Bool-cases, List, Returns, Returns-bind, Returns-mono, [], ap, arith, drop, false, inl, inr,
  refl, some, true, ℕ, ◌++◌, ◌∙◌, ◌≡◌, ◌≤◌,
}
use tstorage_clients.Cpp.Batch.Ending.{Empty}
use tstorage_clients.Cpp.Buffer.{Buffer, reset_offsets}
use tstorage_clients.Cpp.Buffer.Contents.{Put, filled, to_read, valid-Sound}
use tstorage_clients.Cpp.ChannelImpl.{ChannelImpl, reset_state}
use tstorage_clients.Cpp.ChannelImpl.Moving.{
  Live, SentBuffer, reset_state-Live, send_buffer_lem, wire_of,
}
use tstorage_clients.Cpp.ChannelImpl.Requests.{
  write_get_acq_request, write_get_request, write_key_pair_header,
}
use tstorage_clients.Cpp.DataTypes.{
  ResultT, empty_key_range, invalid_key, is_valid, le_key, result_ok, sub_key,
}
use tstorage_clients.Cpp.Serializer.{command_get, command_get_acq}
use tstorage_clients.Cpp.Serializer.Fields.{put_header_key_range_lem}
use tstorage_clients.Cpp.Socket.{Host, connection_established}
use tstorage_clients.Cpp.Socket.Transfers.{Platform}
use tstorage_clients.Key.{Key, key_size, range_size}
use tstorage_clients.Request.{RequestGet, get_size, initialize_get, initialize_get_acq, msg_code}
use tstorage_clients.Request.Write.{get_bytes}

module _ {W : Type 0} (is_be : Bool) (host : Host W) (net : Platform host) where
  -- What writing a request for the keys from `lo` on, up to `hi` less one, leaves.
  pub record GetAsked (c : ChannelImpl W) (fd size : ℕ) (lo hi below : Key) (request : RequestGet)
      (r : ResultT × ChannelImpl W) : Type 0 where
    pub empty_range : le_key lo below ≡ false → r ≡ (empty_key_range, c)
    pub bad_key : le_key lo below ≡ true → is_valid lo ≡ false → r ≡ (invalid_key, c)
    pub sent :
        r.0 ≡ result_ok
        → (le_key lo below ≡ true)
          × (is_valid lo ≡ true)
          × (wire_of host net r.1 fd ≡ wire_of host net c fd ++ get_bytes request)
    pub block' : List ℕ
    pub live : Live r.1 block' fd size

  write_key_pair_header_lem :
      (c : ChannelImpl W) (m : List ℕ) (fd size cmd : ℕ) (lo hi below : Key)
      → Live c m fd size
      → 128 ≤ size
      → sub_key hi 1 ≡ some below
      → Returns
          (GetAsked c fd size lo hi below (record {
            base = record { cmd = cmd; size = 64 };
            key_range = record { lo = lo; hi = hi };
          }))
          (write_key_pair_header is_be host c cmd lo hi)
  unfolding write_key_pair_header connection_established reset_state reset_offsets
  write_key_pair_header_lem c m fd size cmd lo hi below l big e =
      rw (established, valid-Sound c.buffer m l.sound, e)
        (elim (Bool-cases (le_key lo below)) [
          | inr none_there ↦ rw none_there record {
            empty_range = λ _. refl;
            bad_key = λ k. absurd (ground (arith, k));
            sent = λ k. absurd (ground (arith, k));
            block' = m;
            live = l;
          }
          | inl some_there ↦ elim (Bool-cases (is_valid lo)) [
            | inr bad ↦
                rw (some_there, bad)
                  record {
                    empty_range = λ k. absurd (ground (arith, k));
                    bad_key = λ _ _. refl;
                    sent = λ k. absurd (ground (arith, k));
                    block' = m;
                    live = l;
                  }
            | inl good ↦
                rw (some_there, good)
                  (Returns-bind (Put (reset_state c).buffer m (get_bytes request)) Goal _ _
                    (put_header_key_range_lem is_be (reset_state c).buffer m cmd 64 lo hi
                      fresh.0.sound (omega (arith, fresh.0.sized, big)))
                    (λ b p.
                      Returns-mono (SentBuffer host net (filled_by b) p.block' fd size) Goal _
                        (send_buffer_lem host net (filled_by b) p.block' fd size record {
                          sound = p.sound;
                          connected = fresh.0.connected;
                          sized = p.same_size ∙ fresh.0.sized;
                        })
                        (λ r q. record {
                          empty_range = λ k. absurd (ground (arith, k, some_there));
                          bad_key = λ _ k. absurd (ground (arith, k, good));
                          sent = λ k. (
                            some_there,
                            good,
                            q.sent k ∙ ap (λ t. wire_of host net c fd ++ t) (written b p),
                          );
                          block' = p.block';
                          live = q.live;
                        })))
          ]
        ])
    where
      request : RequestGet
      request = record {
        base = record { cmd = cmd; size = 64 };
        key_range = record { lo = lo; hi = hi };
      }

      Goal : ResultT × ChannelImpl W → Type 0
      Goal = GetAsked c fd size lo hi below request

      fresh :
          Live (reset_state c) m fd size × Empty (reset_state c).batch (reset_state c).buffer m []
      fresh = reset_state-Live host net c m fd size l (omega arith)

      filled_by : Buffer → ChannelImpl W
      filled_by b = record (reset_state c) { buffer = b }

      written :
          (b : Buffer) (p : Put (reset_state c).buffer m (get_bytes request) b)
          → to_read b p.block' ≡ get_bytes request
      written b p =
          ap (λ (k : ℕ). drop k (filled b p.block')) p.same_read
          ∙ p.appended
          ∙ ap (λ t. t ++ get_bytes request) fresh.1.contents

      established : connection_established c.socket ≡ true
      established = rw (connection_established, l.connected) refl

  -- On an open connection with a buffer of 128 bytes at least, and for an upper key none of whose
  -- fields is the least one, writeGetRequest returns. An empty range and then a negative cid are
  -- refused, and leave the channel as it is; with OK neither was the case, and the bytes that went
  -- to the wire are those of the C client's RequestGet_initializeGet for the same keys.
  pub write_get_request_lem :
      (c : ChannelImpl W) (m : List ℕ) (fd size : ℕ) (lo hi below : Key)
      → Live c m fd size
      → 128 ≤ size
      → sub_key hi 1 ≡ some below
      → Returns
          (GetAsked c fd size lo hi below (initialize_get lo hi))
          (write_get_request is_be host c lo hi)
  unfolding write_get_request initialize_get get_size range_size key_size msg_code
  write_get_request_lem c m fd size lo hi below l big e =
      write_key_pair_header_lem c m fd size command_get lo hi below l big e

  pub write_get_acq_request_lem :
      (c : ChannelImpl W) (m : List ℕ) (fd size : ℕ) (lo hi below : Key)
      → Live c m fd size
      → 128 ≤ size
      → sub_key hi 1 ≡ some below
      → Returns
          (GetAsked c fd size lo hi below (initialize_get_acq lo hi))
          (write_get_acq_request is_be host c lo hi)
  unfolding write_get_acq_request initialize_get_acq get_size range_size key_size msg_code
  write_get_acq_request_lem c m fd size lo hi below l big e =
      write_key_pair_header_lem c m fd size command_get_acq lo hi below l big e
