-- ===== src/Cpp/Channel/Closing.antt =====
-- What the calls of cpp/libtstorageclient++/include/tstorageclient++/Channel.tpp leave of the connection.
use tstorage_clients.Prelude.{
  Bool, Bool-cases, List, Option, inl, inr, none, some, ℕ, ◌>>=◌, ◌≡◌, ◌≢◌,
}
use tstorage_clients.Cpp.Batch.{ProtoT}
use tstorage_clients.Cpp.Buffer.{valid}
use tstorage_clients.Cpp.Channel.{
  PayloadFormat, get_acq_impl, put_end, put_finalize, put_impl, put_refused, write_records,
}
use tstorage_clients.Cpp.ChannelImpl.{ChannelImpl, abort_channel, close_impl}
use tstorage_clients.Cpp.ChannelImpl.Requests.{write_fin, write_get_acq_request, write_put_header}
use tstorage_clients.Cpp.ChannelImpl.Responses.{read_acq, read_response}
use tstorage_clients.Cpp.DataTypes.{
  ResultT, bad_address, bad_response, conn_closed, conn_error, conn_refused, conn_reset,
  conn_timeout, deserialization_error, empty_key_range, end_of_stream, interrupted, invalid_key,
  is_result_ok, memory_limit_exceeded, not_connected, out_of_memory, payload_too_large, result_ok,
  server_error, setopt_error, socket_error,
}
use tstorage_clients.Cpp.DataTypes.Results.{is_result_ok→eq}
use tstorage_clients.Cpp.Socket.{Host}
use tstorage_clients.Cpp.Socket.Connecting.{abort_connection-closed, close_connection-closed}
use tstorage_clients.Key.{Key}

-- Every result that a run may end with has the property.
abbrev pub EndsWith {ℓ} : {A : Type ℓ} → (A → Type 0) → Option A → Type 0
EndsWith P none = Unit
EndsWith P (some a) = P a

pub EndsWith-bind {ℓ κ} :
    {A : Type ℓ} {B : Type κ} (P : B → Type 0) (m : Option A) (f : A → Option B)
    → ((a : A) → EndsWith P (f a))
    → EndsWith P (m >>= f)
EndsWith-bind P none f h = tt
EndsWith-bind P (some a) f h = h a

pub EndsWith-then {ℓ κ} :
    {A : Type ℓ} {B : Type κ} (Q : A → Type 0) (P : B → Type 0) (m : Option A) (f : A → Option B)
    → EndsWith Q m
    → ((a : A) → Q a → EndsWith P (f a))
    → EndsWith P (m >>= f)
EndsWith-then Q P none f q h = tt
EndsWith-then Q P (some a) f q h = h a q

module _ {W T : Type 0} (is_be : Bool) (host : Host W) (format : PayloadFormat T) where
  -- A call that fails leaves no connection.
  abbrev pub ClosedOnError : ResultT × ChannelImpl W → Type 0
  ClosedOnError r = r.0 ≢ result_ok → r.1.socket.fd ≡ none

  pub aborted : (c : ChannelImpl W) → (abort_channel host c).socket.fd ≡ none
  unfolding abort_channel
  aborted c = abort_connection-closed host c.socket

  closed : (c : ChannelImpl W) → (close_impl host c).1.socket.fd ≡ none
  unfolding close_impl
  closed c = elim (Bool-cases (valid c.buffer)) [
    | inl there ↦ rw there (close_connection-closed host c.socket)
    | inr none_there ↦ rw none_there (close_connection-closed host c.socket)
  ]

  put_finalize-closed :
      (c : ChannelImpl W) → EndsWith ClosedOnError (put_finalize is_be host format c)
  unfolding put_finalize
  put_finalize-closed c = EndsWith-bind ClosedOnError (write_fin is_be host c) _ λ r.
      elim (Bool-cases (is_result_ok r.0)) [
        | inr bad ↦ rw bad (λ _. aborted r.1)
        | inl good ↦ rw good (
            EndsWith-bind ClosedOnError (read_response is_be host r.1) _ λ t.
              elim (Bool-cases (is_result_ok t.0)) [
                | inr bad ↦ rw bad (λ _. aborted t.1)
                | inl fine ↦ rw fine (λ k. absurd (k (is_result_ok→eq t.0 fine)))
              ])
      ]

  put_refused-closed :
      (res : ResultT) (c : ChannelImpl W)
      → EndsWith ClosedOnError (put_refused is_be host format res c)
  unfolding put_refused
  put_refused-closed res c = EndsWith-bind ClosedOnError (put_finalize is_be host format c) _ λ r.
      elim (Bool-cases (is_result_ok r.0)) [
        | inl good ↦ rw good (λ _. closed r.1)
        | inr bad ↦ rw bad (λ _. aborted r.1)
      ]

  put_end-closed :
      (res : ResultT) (c : ChannelImpl W) → EndsWith ClosedOnError (put_end is_be host format res c)
  unfolding put_end
  put_end-closed result_ok c = put_finalize-closed c
  put_end-closed payload_too_large c = put_refused-closed payload_too_large c
  put_end-closed invalid_key c = put_refused-closed invalid_key c
  put_end-closed server_error c = λ _. aborted c
  put_end-closed empty_key_range c = λ _. aborted c
  put_end-closed deserialization_error c = λ _. aborted c
  put_end-closed memory_limit_exceeded c = λ _. aborted c
  put_end-closed out_of_memory c = λ _. aborted c
  put_end-closed bad_response c = λ _. aborted c
  put_end-closed conn_error c = λ _. aborted c
  put_end-closed conn_refused c = λ _. aborted c
  put_end-closed bad_address c = λ _. aborted c
  put_end-closed not_connected c = λ _. aborted c
  put_end-closed socket_error c = λ _. aborted c
  put_end-closed setopt_error c = λ _. aborted c
  put_end-closed end_of_stream c = λ _. aborted c
  put_end-closed conn_reset c = λ _. aborted c
  put_end-closed conn_closed c = λ _. aborted c
  put_end-closed conn_timeout c = λ _. aborted c
  put_end-closed interrupted c = λ _. aborted c

  -- Whenever put or puta of the C++ client returns with a result other than OK, the channel has no
  -- socket descriptor any more.
  pub put_impl-closed :
      (proto : ProtoT) (c : ChannelImpl W) (recs : List (Key × T))
      → EndsWith ClosedOnError (put_impl is_be host format proto c recs)
  unfolding put_impl
  put_impl-closed proto c recs =
      EndsWith-bind ClosedOnError (write_put_header is_be host proto c) _ λ r.
        elim (Bool-cases (is_result_ok r.0)) [
          | inr bad ↦ rw bad (λ _. aborted r.1)
          | inl good ↦ rw good (
              EndsWith-bind ClosedOnError (write_records is_be host format proto r.1 recs) _
                (λ t. put_end-closed t.0 t.1))
        ]

  -- Whenever getAcq of the C++ client returns with a result other than OK, the channel has no
  -- socket descriptor any more.
  pub get_acq_impl-closed :
      (c : ChannelImpl W) (lo hi : Key)
      → EndsWith
          (λ (r : ResultT × ℕ × ChannelImpl W). r.0 ≢ result_ok → r.2.socket.fd ≡ none)
          (get_acq_impl is_be host format c lo hi)
  unfolding get_acq_impl
  get_acq_impl-closed c lo hi = EndsWith-bind _ (write_get_acq_request is_be host c lo hi) _ λ r.
      elim (Bool-cases (is_result_ok r.0)) [
        | inr bad ↦ rw bad (λ _. aborted r.1)
        | inl good ↦ rw good (
            EndsWith-bind _ (read_acq is_be host r.1) _ λ t. elim (Bool-cases (is_result_ok t.0)) [
              | inr bad ↦ rw bad (λ _. aborted t.2)
              | inl fine ↦ rw fine (λ k. absurd (k (is_result_ok→eq t.0 fine)))
            ])
      ]
