-- ===== src/Cpp/ChannelImpl.antt =====
-- cpp/libtstorageclient++/src/ChannelImpl.h and ChannelImpl.cpp: the state of a channel, its setup, and the helpers
-- that move bytes between its buffer and its socket. The allocator and the system calls are a
-- parameter (`Host`).
pub mod Requests
pub mod Responses
pub mod Moving
pub mod Asking
pub mod Sending
pub mod Placing
pub mod Finishing
pub mod Answers
use tstorage_clients.Prelude.{
  Option, if◌then◌else◌, leb, length, ltb, none, some, ℕ, ◌%◌, ◌&&◌, ◌-◌, ◌==◌, ◌>>=◌, ◌^◌,
}
use tstorage_clients.Cpp.Batch.{BatchSerializer, new_batch}
use tstorage_clients.Cpp.Buffer.{
  Buffer, allocated_buffer, bytes_available, bytes_free, null_buffer, read_advance, read_at,
  reserve_target, reset_offsets, valid, write_advance, write_at,
}
use tstorage_clients.Cpp.DataTypes.{
  ResultT, bad_response, is_result_ok, memory_limit_exceeded, out_of_memory, result_ok,
}
use tstorage_clients.Cpp.Socket.{
  Host, TcpSocket, abort_connection, close_connection, connect_socket, max_of, recv_at_least,
  send_all, set_timeout_ms, skip_exactly,
}
use mathlib.Core.Bool.{not}

-- The constants of class ChannelImpl.
abbrev pub initial_buffer_size : ℕ
initial_buffer_size = 65536

abbrev pub min_buffer_size : ℕ
min_buffer_size = 128

abbrev pub max_payload_size : ℕ
max_payload_size = 33554432

abbrev pub initial_expected_payload_size : ℕ
initial_expected_payload_size = 8

-- `class ChannelImpl`
pub record ChannelImpl (W : Type 0) : Type 0 where
  pub buffer : Buffer
  pub socket : TcpSocket W
  pub expected_payload_size : ℕ
  pub memory_limit : ℕ
  pub batch : BatchSerializer

module _ {W : Type 0} where
  -- `ChannelImpl()`, with the socket that it has, which is not connected.
  unfoldable pub new_impl : TcpSocket W → ChannelImpl W
  new_impl s = record {
    buffer = null_buffer;
    socket = record s { fd = none };
    expected_payload_size = initial_expected_payload_size;
    memory_limit = initial_buffer_size;
    batch = new_batch null_buffer;
  }

  -- A new block: the old one is freed, and the batch's pointer is not into the new one.
  abbrev pub with_block : ChannelImpl W → Buffer → ChannelImpl W
  with_block c b = record c { buffer = b; batch = record (c.batch) { size_field = none } }

  -- `resetState`
  unfoldable pub reset_state : ChannelImpl W → ChannelImpl W
  reset_state c = let b = reset_offsets c.buffer in record c { buffer = b; batch = new_batch b }

  -- Goes on with the channel if the result is OK, and returns otherwise.
  abbrev pub then_on_ok :
      ResultT × ChannelImpl W
      → (ChannelImpl W → Option (ResultT × ChannelImpl W))
      → Option (ResultT × ChannelImpl W)
  then_on_ok r k = if is_result_ok r.0 then k r.1 else some r

  module _ (host : Host W) where
    -- `abort`
    unfoldable pub abort_channel : ChannelImpl W → ChannelImpl W
    abort_channel c = record c { socket = abort_connection host c.socket }

    -- `connect`
    unfoldable pub connect_impl : ChannelImpl W → ResultT × ChannelImpl W
    connect_impl c =
        let (block, w) = host.new_block c.socket.world c.memory_limit in
        let c' : ChannelImpl W =
          with_block (record c { socket = record (c.socket) { world = w } })
            (allocated_buffer block c.memory_limit) in
        if valid c'.buffer
        then (let (res, s) = connect_socket host c'.socket in (res, record c' { socket = s }))
        else (out_of_memory, c')

    -- `close`
    unfoldable pub close_impl : ChannelImpl W → ResultT × ChannelImpl W
    close_impl c =
        let c' : ChannelImpl W = if valid c.buffer then with_block c null_buffer else c in
        let (res, s) = close_connection host c'.socket in (res, record c' { socket = s })

    -- `setTimeoutMs`
    unfoldable pub set_impl_timeout : ChannelImpl W → ℕ → ChannelImpl W
    set_impl_timeout c timeout = record c {
      socket = (set_timeout_ms host c.socket (timeout % 2 ^ 32)).1;
    }

    -- `setMemoryLimit`
    unfoldable pub set_impl_memory_limit : ChannelImpl W → ℕ → ChannelImpl W
    set_impl_memory_limit c bytes =
        let limit' = max_of bytes min_buffer_size in
        let c' : ChannelImpl W = record c { memory_limit = limit' } in
        if valid c.buffer && not (c.buffer.buffer_size == bytes)
        then (let (block, w) = host.new_block c.socket.world limit' in
            with_block (record c' { socket = record (c.socket) { world = w } })
              (allocated_buffer block limit'))
        else c'

    -- `sendBuffer`
    unfoldable pub send_buffer : ChannelImpl W → Option (ResultT × ChannelImpl W)
    send_buffer c = do
      bytes ← read_at c.buffer c.buffer.read_offset (bytes_available c.buffer)
      (res, s) ← send_all host c.socket bytes
      let c' : ChannelImpl W = record c { socket = s }
      some (if is_result_ok res then (result_ok, reset_state c') else (res, c'))

    -- `requestData`. The socket writes what it receives behind the write offset.
    unfoldable pub request_data : ChannelImpl W → ℕ → Option (ResultT × ChannelImpl W)
    request_data c amount =
        let available = bytes_available c.buffer in
        if leb amount available
        then some (result_ok, c)
        else (let missing = amount - available in
            if ltb (bytes_free c.buffer) missing
            then (do
              (_, b) ← reserve_target c.buffer missing
              some (memory_limit_exceeded, record c { buffer = b }))
            else (do
              (res, bytes, s) ← recv_at_least host c.socket (bytes_free c.buffer) missing
              b ← write_at c.buffer c.buffer.write_offset bytes
              let c' : ChannelImpl W = record c { socket = s; buffer = b }
              let c'' : ChannelImpl W = record c' { buffer = write_advance b (length bytes) }
              some (
                  if is_result_ok res
                  then (if ltb (length bytes) missing
                      then (bad_response, c'')
                      else (result_ok, c''))
                  else (res, c'))))

    -- `skip`
    unfoldable pub skip : ChannelImpl W → ℕ → Option (ResultT × ChannelImpl W)
    skip c amount =
        let available = bytes_available c.buffer in
        if leb amount available
        then some (result_ok, record c { buffer = read_advance c.buffer amount })
        else (do
          let fetch = amount - available
          (res, skipped, s) ← skip_exactly host c.socket fetch
          let c' : ChannelImpl W = record c { buffer = read_advance c.buffer available; socket = s }
          some (
              if is_result_ok res
              then (if ltb skipped fetch then (bad_response, c') else (result_ok, c'))
              else (res, c')))
