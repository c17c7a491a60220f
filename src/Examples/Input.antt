-- ===== src/Examples/Input.antt =====
-- Reading, the network and the conversions at concrete inputs.
use tstorage_clients.Prelude.{
  Returns, [], arith, length, none, refl, some, ◌++◌, ◌>>=◌, ◌∷◌, ◌≡◌, ◌≤◌,
}
use tstorage_clients.ErrorCode.{OkOr, ok, send}
use tstorage_clients.BufferedIStream.{confirm_input, reserve_input}
use tstorage_clients.BufferedIStream.Confirm.{Confirmed, confirm_input_lem}
use tstorage_clients.BufferedIStream.Fill.{Received}
use tstorage_clients.BufferedIStream.Obtain.{reserve_input_lem}
use tstorage_clients.Bytes.{le_bytes, le_value, le_value-le_bytes}
use tstorage_clients.Examples.Setup.{
  empty_buffer-IsBuffer, first_record, list_source, no_records, roomy, slow_network, slow_resolver,
  slow_system, some_input, some_input-IsIn,
}
use tstorage_clients.RecordsSet.{read_set}
use tstorage_clients.RecordsSet.Read.{HasEnded, read_set_lem}
use tstorage_clients.Socket.{is_open, open_socket, receive_bytes, send_bytes}
use tstorage_clients.Socket.Open.{Opened, open_socket_lem}
use tstorage_clients.Socket.Streams.{IsOpen, at_fd, receive_bytes_lem, send_bytes_lem}
use tstorage_clients.Timestamp.{negsuc, timestamp_from_unix, timestamp_to_unix}
use tstorage_clients.Timestamp.RoundTrip.{timestamp_to_unix-timestamp_from_unix}

reserve_input_lem_example :
    Returns
      (Received list_source roomy some_input 4)
      (reserve_input roomy (list_source.read) some_input 0 4)
reserve_input_lem_example = reserve_input_lem list_source roomy some_input 0 4 some_input-IsIn tt

send_bytes_lem_example :
    Returns
      (λ r.
        IsOpen slow_system slow_network r.1
        × OkOr send r.0
        × (r.0 ≡ ok
            → at_fd slow_system slow_network (λ w fd. w.0) (r.1.sockfd) (r.1.world)
              ≡ 1 ∷ 2 ∷ 3 ∷ []))
      (send_bytes slow_system (record { sockfd = some 3; world = (1 ∷ [], []) }) (2 ∷ 3 ∷ []))
unfolding is_open
send_bytes_lem_example =
    send_bytes_lem slow_system slow_network (some 3) (1 ∷ [], []) (2 ∷ 3 ∷ []) refl

receive_bytes_lem_example :
    Returns
      (λ r.
        IsOpen slow_system slow_network r.1
        × (length r.0 ≤ 4)
        × (5 ∷ 6 ∷ 7 ∷ []
            ≡ r.0 ++ at_fd slow_system slow_network (λ w fd. w.1) (r.1.sockfd) (r.1.world)))
      (receive_bytes slow_system (record { sockfd = some 3; world = ([], 5 ∷ 6 ∷ 7 ∷ []) }) 2 4)
unfolding is_open
receive_bytes_lem_example =
    receive_bytes_lem slow_system slow_network (some 3) ([], 5 ∷ 6 ∷ 7 ∷ []) 2 4 refl (omega arith)

timestamp_to_unix-timestamp_from_unix_example :
    (timestamp_from_unix (negsuc 9) >>= timestamp_to_unix) ≡ some (negsuc 9)
timestamp_to_unix-timestamp_from_unix_example =
    timestamp_to_unix-timestamp_from_unix (negsuc 9) (omega arith)

le_value-le_bytes_example : le_value (le_bytes 4 4294967295) ≡ 4294967295
le_value-le_bytes_example = le_value-le_bytes 4 4294967295 (omega arith)

confirm_input_lem_example : Returns (Confirmed list_source some_input) (confirm_input some_input)
confirm_input_lem_example = confirm_input_lem list_source some_input some_input-IsIn

open_socket_lem_example :
    Returns
      (Opened slow_system)
      (open_socket slow_system (record { sockfd = none; world = ([], []) }) (1 ∷ []) 80)
unfolding is_open
open_socket_lem_example =
    open_socket_lem slow_system slow_resolver (record { sockfd = none; world = ([], []) }) (1 ∷ [])
      80 refl

read_set_lem_example :
    Returns
      (HasEnded list_source roomy first_record)
      (read_set roomy (list_source.read) first_record 5 no_records some_input)
read_set_lem_example =
    read_set_lem list_source roomy first_record 5 no_records some_input
      (
        record {
          buffered = empty_buffer-IsBuffer;
          has_size = omega arith;
          in_buffer = omega arith;
        },
        some_input-IsIn,
        tt,
      )
      (omega arith)
