-- ===== src/Cpp/Channel/Getting.antt =====
-- What get and getStream of cpp/libtstorageclient++/include/tstorageclient++/Channel.tpp leave of the connection.
use tstorage_clients.Prelude.{Bool, Bool-cases, [], inl, inr, none, ℕ, ◌≡◌, ◌≢◌}
use tstorage_clients.Cpp.Channel.{
  PayloadFormat, Rounds, ended, unfinished, get_end, get_impl, get_stream_impl, get_request,
  get_result, recv_records, stream_batches,
}
use tstorage_clients.Cpp.ChannelImpl.{ChannelImpl}
use tstorage_clients.Cpp.ChannelImpl.Requests.{write_get_request}
use tstorage_clients.Cpp.ChannelImpl.Responses.{read_acq, read_response}
use tstorage_clients.Cpp.DataTypes.{
  ResultT, bad_address, bad_response, conn_closed, conn_error, conn_refused, conn_reset,
  conn_timeout, deserialization_error, empty_key_range, end_of_stream, interrupted, invalid_key,
  is_result_ok, memory_limit_exceeded, not_connected, out_of_memory, payload_too_large, result_ok,
  server_error, setopt_error, socket_error,
}
use tstorage_clients.Cpp.DataTypes.Results.{is_result_ok→eq}
use tstorage_clients.Cpp.Socket.{Host}
use tstorage_clients.Key.{Key}
use tstorage_clients.Cpp.Channel.Closing.{
  ClosedOnError, EndsWith, EndsWith-bind, EndsWith-then, aborted,
}

module _ {W T : Type 0} (is_be : Bool) (host : Host W) (format : PayloadFormat T) where
  get_request-closed :
      (c : ChannelImpl W) (lo hi : Key)
      → EndsWith (ClosedOnError is_be host format) (get_request is_be host format c lo hi)
  unfolding get_request
  get_request-closed c lo hi =
      EndsWith-bind (ClosedOnError is_be host format) (write_get_request is_be host c lo hi) _ λ r.
        elim (Bool-cases (is_result_ok r.0)) [
          | inr bad ↦ rw bad (λ _. aborted is_be host format r.1)
          | inl good ↦ rw good (
              EndsWith-bind (ClosedOnError is_be host format) (read_response is_be host r.1) _ λ t.
                elim (Bool-cases (is_result_ok t.0)) [
                  | inr bad ↦ rw bad (λ _. aborted is_be host format t.1)
                  | inl fine ↦ rw fine (λ k. absurd (k (is_result_ok→eq t.0 fine)))
                ])
        ]

  -- A request for records that ended with a failure leaves no connection.
  abbrev pub ClosedOnGetError : {A : Type 0} → Rounds (ResultT × A × ℕ × ChannelImpl W) → Type 0
  ClosedOnGetError unfinished = Unit
  ClosedOnGetError (ended r) = r.0 ≢ result_ok → r.3.socket.fd ≡ none

  get_result-closed :
      (c : ChannelImpl W)
      → EndsWith
          (λ (r : ResultT × ℕ × ChannelImpl W). r.0 ≢ result_ok → r.2.socket.fd ≡ none)
          (get_result is_be host format c)
  unfolding get_result
  get_result-closed c = EndsWith-bind _ (read_acq is_be host c) _ λ t.
      elim (Bool-cases (is_result_ok t.0)) [
        | inr bad ↦ rw bad (λ _. aborted is_be host format t.2)
        | inl fine ↦ rw fine (λ k. absurd (k (is_result_ok→eq t.0 fine)))
      ]

  get_end-closed :
      {A : Type 0} (r : Rounds (ResultT × A × ChannelImpl W))
      → EndsWith ClosedOnGetError (get_end is_be host format r)
  unfolding get_end
  get_end-closed unfinished = tt
  get_end-closed (ended (end_of_stream, given, c)) =
      EndsWith-then (λ (r : ResultT × ℕ × ChannelImpl W). r.0 ≢ result_ok → r.2.socket.fd ≡ none)
        ClosedOnGetError (get_result is_be host format c) _ (get_result-closed c) λ r q. q
  get_end-closed (ended (bad_address, given, c)) = λ _. aborted is_be host format c
  get_end-closed (ended (bad_response, given, c)) = λ _. aborted is_be host format c
  get_end-closed (ended (conn_closed, given, c)) = λ _. aborted is_be host format c
  get_end-closed (ended (conn_error, given, c)) = λ _. aborted is_be host format c
  get_end-closed (ended (conn_refused, given, c)) = λ _. aborted is_be host format c
  get_end-closed (ended (conn_reset, given, c)) = λ _. aborted is_be host format c
  get_end-closed (ended (conn_timeout, given, c)) = λ _. aborted is_be host format c
  get_end-closed (ended (deserialization_error, given, c)) = λ _. aborted is_be host format c
  get_end-closed (ended (empty_key_range, given, c)) = λ _. aborted is_be host format c
  get_end-closed (ended (interrupted, given, c)) = λ _. aborted is_be host format c
  get_end-closed (ended (invalid_key, given, c)) = λ _. aborted is_be host format c
  get_end-closed (ended (memory_limit_exceeded, given, c)) = λ _. aborted is_be host format c
  get_end-closed (ended (not_connected, given, c)) = λ _. aborted is_be host format c
  get_end-closed (ended (out_of_memory, given, c)) = λ _. aborted is_be host format c
  get_end-closed (ended (payload_too_large, given, c)) = λ _. aborted is_be host format c
  get_end-closed (ended (result_ok, given, c)) = λ _. aborted is_be host format c
  get_end-closed (ended (server_error, given, c)) = λ _. aborted is_be host format c
  get_end-closed (ended (setopt_error, given, c)) = λ _. aborted is_be host format c
  get_end-closed (ended (socket_error, given, c)) = λ _. aborted is_be host format c

  -- Whenever get of the C++ client returns with a result other than OK, the channel has no socket
  -- descriptor any more.
  pub get_impl-closed :
      (rounds : ℕ) (c : ChannelImpl W) (lo hi : Key)
      → EndsWith ClosedOnGetError (get_impl is_be host format rounds c lo hi)
  unfolding get_impl
  get_impl-closed rounds c lo hi =
      EndsWith-then (ClosedOnError is_be host format) ClosedOnGetError
        (get_request is_be host format c lo hi) _ (get_request-closed c lo hi)
        λ r shut. elim (Bool-cases (is_result_ok r.0)) [
          | inr bad ↦ rw bad shut
          | inl good ↦ rw good (
              EndsWith-bind ClosedOnGetError (recv_records is_be host format rounds [] r.1) _
                get_end-closed)
        ]

  -- Whenever getStream of the C++ client returns with a result other than OK, the channel has no
  -- socket descriptor any more.
  pub get_stream_impl-closed :
      (rounds records : ℕ) (c : ChannelImpl W) (lo hi : Key)
      → EndsWith ClosedOnGetError (get_stream_impl is_be host format rounds records c lo hi)
  unfolding get_stream_impl
  get_stream_impl-closed rounds records c lo hi =
      EndsWith-then (ClosedOnError is_be host format) ClosedOnGetError
        (get_request is_be host format c lo hi) _ (get_request-closed c lo hi)
        λ r shut. elim (Bool-cases (is_result_ok r.0)) [
          | inr bad ↦ rw bad shut
          | inl good ↦ rw good (
              EndsWith-bind ClosedOnGetError
                (stream_batches is_be host format rounds records [] r.1) _ get_end-closed)
        ]
