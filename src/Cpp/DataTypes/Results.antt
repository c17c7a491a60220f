-- ===== src/Cpp/DataTypes/Results.antt =====
-- Tests on the results of cpp/libtstorageclient++/include/tstorageclient++/DataTypes.h.
use tstorage_clients.Prelude.{ap, arith, false, refl, true, ◌≡◌, ◌≢◌}
use tstorage_clients.Cpp.DataTypes.{
  ResultT, bad_address, bad_response, conn_closed, conn_error, conn_refused, conn_reset,
  conn_timeout, deserialization_error, empty_key_range, end_of_stream, interrupted, invalid_key,
  is_result_ok, memory_limit_exceeded, not_connected, out_of_memory, payload_too_large, result_ok,
  server_error, setopt_error, socket_error,
}

pub is_result_ok→eq : (res : ResultT) → is_result_ok res ≡ true → res ≡ result_ok
is_result_ok→eq result_ok h = refl
is_result_ok→eq server_error h = absurd (ground (arith, h))
is_result_ok→eq invalid_key h = absurd (ground (arith, h))
is_result_ok→eq empty_key_range h = absurd (ground (arith, h))
is_result_ok→eq payload_too_large h = absurd (ground (arith, h))
is_result_ok→eq deserialization_error h = absurd (ground (arith, h))
is_result_ok→eq memory_limit_exceeded h = absurd (ground (arith, h))
is_result_ok→eq out_of_memory h = absurd (ground (arith, h))
is_result_ok→eq bad_response h = absurd (ground (arith, h))
is_result_ok→eq conn_error h = absurd (ground (arith, h))
is_result_ok→eq conn_refused h = absurd (ground (arith, h))
is_result_ok→eq bad_address h = absurd (ground (arith, h))
is_result_ok→eq not_connected h = absurd (ground (arith, h))
is_result_ok→eq socket_error h = absurd (ground (arith, h))
is_result_ok→eq setopt_error h = absurd (ground (arith, h))
is_result_ok→eq end_of_stream h = absurd (ground (arith, h))
is_result_ok→eq conn_reset h = absurd (ground (arith, h))
is_result_ok→eq conn_closed h = absurd (ground (arith, h))
is_result_ok→eq conn_timeout h = absurd (ground (arith, h))
is_result_ok→eq interrupted h = absurd (ground (arith, h))

pub is_result_ok→ne : (res : ResultT) → is_result_ok res ≡ false → res ≢ result_ok
is_result_ok→ne res h e = absurd (ground (arith, h, ap is_result_ok e))
