-- ===== src/Examples/CppClient.antt =====
-- The C++ client at concrete inputs.
use tstorage_clients.Prelude.{
  List, Returns, [], arith, none, refl, some, true, ℕ, ◌++◌, ◌+◌, ◌<◌, ◌>>=◌, ◌^◌, ◌∷◌, ◌≡◌, ◌≢◌,
}
use tstorage_clients.Bytes.{le_bytes}
use tstorage_clients.Cpp.Batch.{
  end_batch, new_batch, write_data, next_record_offset, put_proto, put_record, puta_proto,
}
use tstorage_clients.Cpp.Batch.Sequence.{Recorded, put_record_lem}
use tstorage_clients.Cpp.Buffer.{Buffer, bytes_available, reserve_target, valid}
use tstorage_clients.Cpp.Buffer.Contents.{Compacted, reserve_target_lem}
use tstorage_clients.Cpp.Channel.{get_acq_impl, get_impl, get_stream_impl, put_impl, write_records}
use tstorage_clients.Cpp.Channel.Acquiring.{Acquired, get_acq_impl_lem}
use tstorage_clients.Cpp.Channel.Closing.{
  ClosedOnError, EndsWith, get_acq_impl-closed, put_impl-closed,
}
use tstorage_clients.Cpp.Channel.Getting.{ClosedOnGetError, get_impl-closed, get_stream_impl-closed}
use tstorage_clients.Cpp.Channel.NextRecord.{Wrote}
use tstorage_clients.Cpp.Channel.Records.{write_records_lem}
use tstorage_clients.Cpp.ChannelImpl.{ChannelImpl, new_impl, request_data}
use tstorage_clients.Cpp.ChannelImpl.Asking.{GetAsked, write_get_request_lem}
use tstorage_clients.Cpp.ChannelImpl.Finishing.{Finished, write_fin_lem}
use tstorage_clients.Cpp.ChannelImpl.Moving.{Requested, request_data_lem}
use tstorage_clients.Cpp.ChannelImpl.Placing.{Placed, reserve_payload_buffer_lem}
use tstorage_clients.Cpp.ChannelImpl.Requests.{
  reserve_payload_buffer, write_empty_header, write_fin, write_get_request, write_put_header,
}
use tstorage_clients.Cpp.DataTypes.{ResultT, result_ok}
use tstorage_clients.Cpp.Serializer.{get_key, get_value, put_bytes, put_key}
use tstorage_clients.Cpp.Serializer.Decode.{get_key-put_key}
use tstorage_clients.Cpp.Serializer.Values.{put_bytes_lem}
use tstorage_clients.Cpp.Socket.{connect_socket, connection_established, recv_at_least, send_all}
use tstorage_clients.Cpp.Socket.Connecting.{connect_socket_lem, keeps_fd}
use tstorage_clients.Cpp.Socket.Transfers.{AllSent, Received, recv_at_least_lem, send_all_lem}
use tstorage_clients.Examples.CppSetup.{
  below_seven, bytes_contract, bytes_format, fresh_batch, fresh_place, fresh_room, key_of-IsKey,
  no_batches_yet, open_channel, open_channel-Live, open_channel-Sending, slow_host, slow_platform,
  sub_key-seven, tcp_socket, used_buffer, used_buffer-Sound, zeros_block, zeros_buffer,
  zeros_buffer-Sound,
}
use tstorage_clients.Examples.Setup.{key_of}
use tstorage_clients.Key.{Key}
use tstorage_clients.Request.{initialize_get}

reserve_target_lem_example :
    Returns (Compacted used_buffer zeros_block 60) (reserve_target used_buffer 60)
reserve_target_lem_example =
    reserve_target_lem used_buffer zeros_block used_buffer-Sound 60 (omega arith)

put_bytes_lem_example :
    (put_bytes true 4 258 ≡ le_bytes 4 258)
    × (258 < 256 ^ 4 → get_value true (put_bytes true 4 258) ≡ 258)
put_bytes_lem_example = put_bytes_lem true 4 258

get_key-put_key_example :
    Returns
      (λ (r : Key × Buffer). (r.0 ≡ key_of 7) × (bytes_available r.1 ≡ 0))
      (put_key true zeros_buffer (key_of 7) >>= get_key true)
get_key-put_key_example =
    get_key-put_key true zeros_buffer zeros_block (key_of 7) zeros_buffer-Sound key_of-IsKey refl
      (omega arith)

write_get_request_lem_example :
    Returns
      (GetAsked true slow_host slow_platform open_channel 3 128
        (key_of 1)
        (key_of 7)
        below_seven
        (initialize_get (key_of 1) (key_of 7)))
      (write_get_request true slow_host open_channel (key_of 1) (key_of 7))
write_get_request_lem_example =
    write_get_request_lem true slow_host slow_platform open_channel zeros_block 3 128 (key_of 1)
      (key_of 7) below_seven open_channel-Live (omega arith) sub_key-seven

get_acq_impl_lem_example :
    Returns
      (Acquired true slow_host slow_platform bytes_format open_channel 3 (key_of 1) (key_of 7))
      (get_acq_impl true slow_host bytes_format open_channel (key_of 1) (key_of 7))
get_acq_impl_lem_example =
    get_acq_impl_lem true slow_host slow_platform bytes_format open_channel zeros_block 3 128
      (key_of 1) (key_of 7) below_seven open_channel-Live (omega arith) (omega arith) sub_key-seven

put_record_lem_example :
    Returns
      (Recorded put_proto [] []
        ([] ++ ((key_of 7, 0 ∷ 0 ∷ []) ∷ []))
        zeros_buffer
        (next_record_offset fresh_batch 7 + (4 + 20 + 2)))
      (put_record true put_proto fresh_batch zeros_buffer (key_of 7) 2)
put_record_lem_example =
    put_record_lem true put_proto [] [] fresh_batch zeros_buffer zeros_block [] (key_of 7)
      (0 ∷ 0 ∷ []) zeros_buffer-Sound (omega arith) (no_batches_yet put_proto) (omega arith)
      fresh_room fresh_place

request_data_lem_example :
    Returns
      (Requested slow_host slow_platform open_channel zeros_block 3 128 4)
      (request_data slow_host open_channel 4)
request_data_lem_example =
    request_data_lem slow_host slow_platform open_channel zeros_block 3 128 4 open_channel-Live
      (omega arith)

connect_socket_lem_example :
    connection_established (connect_socket slow_host (tcp_socket none)).1
    ≡ keeps_fd (connect_socket slow_host (tcp_socket none)).0
connect_socket_lem_example = connect_socket_lem slow_host (tcp_socket none) refl

put_impl-closed_example :
    EndsWith
      (ClosedOnError true slow_host bytes_format)
      (put_impl true slow_host bytes_format put_proto open_channel ((key_of 7, 1 ∷ []) ∷ []))
put_impl-closed_example =
    put_impl-closed true slow_host bytes_format put_proto open_channel ((key_of 7, 1 ∷ []) ∷ [])

get_acq_impl-closed_example :
    EndsWith
      (λ (r : ResultT × ℕ × ChannelImpl (List ℕ × List ℕ)). r.0 ≢ result_ok → r.2.socket.fd ≡ none)
      (get_acq_impl true slow_host bytes_format open_channel (key_of 1) (key_of 7))
get_acq_impl-closed_example =
    get_acq_impl-closed true slow_host bytes_format open_channel (key_of 1) (key_of 7)

get_impl-closed_example :
    EndsWith
      (ClosedOnGetError true slow_host bytes_format)
      (get_impl true slow_host bytes_format 9 open_channel (key_of 1) (key_of 7))
get_impl-closed_example =
    get_impl-closed true slow_host bytes_format 9 open_channel (key_of 1) (key_of 7)

get_stream_impl-closed_example :
    EndsWith
      (ClosedOnGetError true slow_host bytes_format)
      (get_stream_impl true slow_host bytes_format 9 9 open_channel (key_of 1) (key_of 7))
get_stream_impl-closed_example =
    get_stream_impl-closed true slow_host bytes_format 9 9 open_channel (key_of 1) (key_of 7)

-- A put on a channel that was never connected writes through no block.
put_on_new_channel :
    put_impl true slow_host bytes_format put_proto
      (new_impl (tcp_socket none))
      ((key_of 7, 1 ∷ []) ∷ [])
    ≡ none
unfolding put_impl write_put_header write_empty_header connection_established new_impl new_batch
    write_data valid end_batch
put_on_new_channel = refl

reserve_payload_buffer_lem_example :
    Returns
      (Placed true slow_host slow_platform puta_proto [] [] 3 128 (key_of 7) 10)
      (reserve_payload_buffer true slow_host open_channel 10 (key_of 7) 28)
reserve_payload_buffer_lem_example =
    reserve_payload_buffer_lem true slow_host slow_platform puta_proto [] [] open_channel 3 128
      (key_of 7) 10 (open_channel-Sending puta_proto) (omega arith) (omega arith) (omega arith)

write_records_lem_example :
    Returns
      (Wrote true slow_host slow_platform puta_proto []
        ([] ++ ((key_of 7, 1 ∷ 2 ∷ []) ∷ (key_of 9, 3 ∷ []) ∷ []))
        3
        128)
      (write_records true slow_host bytes_format puta_proto open_channel
        ((key_of 7, 1 ∷ 2 ∷ []) ∷ (key_of 9, 3 ∷ []) ∷ []))
write_records_lem_example =
    write_records_lem true slow_host slow_platform puta_proto bytes_format bytes_contract [] []
      open_channel 3 128 ((key_of 7, 1 ∷ 2 ∷ []) ∷ (key_of 9, 3 ∷ []) ∷ [])
      (open_channel-Sending puta_proto) (omega arith) (omega arith) (omega arith, (omega arith, tt))

write_fin_lem_example :
    Returns
      (Finished true slow_host slow_platform put_proto [] [] 3 128)
      (write_fin true slow_host open_channel)
write_fin_lem_example =
    write_fin_lem true slow_host slow_platform put_proto [] [] open_channel 3 128
      (open_channel-Sending put_proto) (omega arith) (omega arith)

recv_at_least_lem_example :
    Returns
      (Received slow_host slow_platform (tcp_socket (some 3)) 3 16 2 [])
      (recv_at_least slow_host (tcp_socket (some 3)) 16 2)
recv_at_least_lem_example =
    recv_at_least_lem slow_host slow_platform (tcp_socket (some 3)) 3 16 2 refl

send_all_lem_example :
    Returns
      (AllSent slow_host slow_platform (tcp_socket (some 3)) 3 (7 ∷ 8 ∷ []))
      (send_all slow_host (tcp_socket (some 3)) (7 ∷ 8 ∷ []))
send_all_lem_example =
    send_all_lem slow_host slow_platform (tcp_socket (some 3)) 3 (7 ∷ 8 ∷ []) refl
