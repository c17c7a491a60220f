-- ===== src/Cpp/Channel/Acquiring.antt =====
-- getAcq of cpp/libtstorageclient++/include/tstorageclient++/Channel.tpp as a whole.
use tstorage_clients.Prelude.{
  Bool, Bool-cases, List, Returns, Returns-bind, inl, inr, some, none, ℕ, ◌++◌, ◌-◌, ◌∙◌, ◌≡◌, ◌≢◌,
  ◌≤◌,
}
use tstorage_clients.Memory.{size_max}
use tstorage_clients.Cpp.Channel.{PayloadFormat, get_acq_impl}
use tstorage_clients.Cpp.Channel.Closing.{aborted}
use tstorage_clients.Cpp.ChannelImpl.{ChannelImpl}
use tstorage_clients.Cpp.ChannelImpl.Answers.{AcqRead, read_acq_lem}
use tstorage_clients.Cpp.ChannelImpl.Asking.{GetAsked, write_get_acq_request_lem}
use tstorage_clients.Cpp.ChannelImpl.Moving.{Live, wire_of}
use tstorage_clients.Cpp.DataTypes.{ResultT, is_result_ok, result_ok, sub_key}
use tstorage_clients.Cpp.DataTypes.Results.{is_result_ok→eq, is_result_ok→ne}
use tstorage_clients.Cpp.Socket.{Host}
use tstorage_clients.Cpp.Socket.Transfers.{Platform}
use tstorage_clients.Key.{Key}
use tstorage_clients.Request.{initialize_get_acq}
use tstorage_clients.Request.Write.{get_bytes}

module _ {W T : Type 0} (is_be : Bool) (host : Host W) (net : Platform host)
    (format : PayloadFormat T) where
  -- What getAcq leaves: with OK a request that is on the wire, and no connection otherwise.
  pub record Acquired (c : ChannelImpl W) (fd : ℕ) (lo hi : Key) (r : ResultT × ℕ × ChannelImpl W)
      : Type 0 where
    pub failed : r.0 ≢ result_ok → r.2.socket.fd ≡ none
    pub connected : r.0 ≡ result_ok → r.2.socket.fd ≡ some fd
    pub asked :
        r.0 ≡ result_ok
        → wire_of host net r.2 fd ≡ wire_of host net c fd ++ get_bytes (initialize_get_acq lo hi)

  -- On an open connection, with a valid buffer of 128 bytes at least, whose size and the 20 bytes
  -- of an answer's head are a size_t in sum, and for an upper key that has a key below it, getAcq
  -- returns, whatever the server answers: it accesses no memory out of bounds. With OK the request
  -- is on the wire and the connection is kept; otherwise there is no descriptor any more.
  pub get_acq_impl_lem :
      (c : ChannelImpl W) (m : List ℕ) (fd size : ℕ) (lo hi below : Key)
      → Live c m fd size
      → 128 ≤ size
      → 20 ≤ size_max - size
      → sub_key hi 1 ≡ some below
      → Returns (Acquired c fd lo hi) (get_acq_impl is_be host format c lo hi)
  unfolding get_acq_impl
  get_acq_impl_lem c m fd size lo hi below l big h e =
      Returns-bind (GetAsked is_be host net c fd size lo hi below (initialize_get_acq lo hi))
        (Acquired c fd lo hi) _ _
        (write_get_acq_request_lem is_be host net c m fd size lo hi below l big e)
        λ r p. elim (Bool-cases (is_result_ok r.0)) [
          | inr bad ↦ rw bad record {
            failed = λ _. aborted is_be host format r.1;
            connected = λ k. absurd (is_result_ok→ne r.0 bad k);
            asked = λ k. absurd (is_result_ok→ne r.0 bad k);
          }
          | inl good ↦ rw good (
              Returns-bind (AcqRead is_be host net r.1 p.block' fd size) (Acquired c fd lo hi) _ _
                (read_acq_lem is_be host net r.1 p.block' fd size p.live h)
                λ t q. elim (Bool-cases (is_result_ok t.0)) [
                  | inr bad ↦ rw bad record {
                    failed = λ _. aborted is_be host format t.2;
                    connected = λ k. absurd (is_result_ok→ne t.0 bad k);
                    asked = λ k. absurd (is_result_ok→ne t.0 bad k);
                  }
                  | inl fine ↦ rw fine record {
                    failed = λ k. absurd (k (is_result_ok→eq t.0 fine));
                    connected = λ _. q.live.connected;
                    asked = λ _. q.same_wire ∙ (p.sent (is_result_ok→eq r.0 good)).2;
                  }
                ])
        ]
