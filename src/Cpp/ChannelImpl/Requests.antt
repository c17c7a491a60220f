-- ===== src/Cpp/ChannelImpl/Requests.antt =====
-- The requests of cpp/libtstorageclient++/src/ChannelImpl.h and ChannelImpl.cpp: their headers, the space for payloads,
-- the records and the end mark.
use tstorage_clients.Prelude.{
  Bool, Option, if◌then◌else◌, ltb, none, some, ℕ, ◌*◌, ◌+◌, ◌-◌, ◌==◌, ◌>>=◌, ◌^◌, ◌||◌,
}
use tstorage_clients.Memory.{add_size, sub_size}
use tstorage_clients.Cpp.Batch.{
  ProtoT, end_batch, next_record_offset, proto_key_size, put_proto, put_record, puta_proto,
}
use tstorage_clients.Cpp.Buffer.{bytes_free, reset_offsets, valid}
use tstorage_clients.Cpp.ChannelImpl.{
  ChannelImpl, max_payload_size, reset_state, send_buffer, then_on_ok,
}
use tstorage_clients.Cpp.DataTypes.{
  ResultT, empty_key_range, invalid_key, is_result_ok, is_valid, key_max, le_key,
  memory_limit_exceeded, not_connected, out_of_memory, payload_too_large, result_ok, sub_key,
}
use tstorage_clients.Cpp.Serializer.{
  HeaderKeyRange, command_get, command_get_acq, command_put, command_puta, full_key_size, put,
  put_header, put_header_key_range,
}
use tstorage_clients.Cpp.Socket.{Host, connection_established, max_of}
use tstorage_clients.Key.{Key, key_size}
use tstorage_clients.Put.{place}
use mathlib.Core.Bool.{not}

module _ {W : Type 0} (is_be : Bool) (host : Host W) where
  -- `writeKeyPairHeader`
  unfoldable pub write_key_pair_header :
      ChannelImpl W → ℕ → Key → Key → Option (ResultT × ChannelImpl W)
  write_key_pair_header c cmd lo hi =
      if not (connection_established c.socket)
      then some (not_connected, c)
      else if not (valid c.buffer)
      then some (out_of_memory, c)
      else (do
        below ← sub_key hi 1
        if not (le_key lo below)
            then some (empty_key_range, c)
            else if not (is_valid lo)
            then some (invalid_key, c)
            else (do
              let c' = reset_state c
              let header : HeaderKeyRange = record {
                range_id = cmd;
                range_data_size = 2 * full_key_size;
                min_key = lo;
                max_key = hi;
              }
              b ← put_header_key_range is_be c'.buffer header
              send_buffer host (record c' { buffer = b })))

  -- `writeGetRequest`
  unfoldable pub write_get_request : ChannelImpl W → Key → Key → Option (ResultT × ChannelImpl W)
  write_get_request c lo hi = write_key_pair_header c command_get lo hi

  -- `writeGetAcqRequest`
  unfoldable pub write_get_acq_request :
      ChannelImpl W → Key → Key → Option (ResultT × ChannelImpl W)
  write_get_acq_request c lo hi = write_key_pair_header c command_get_acq lo hi

  -- `writeEmptyHeader`
  unfoldable pub write_empty_header : ChannelImpl W → ℕ → Option (ResultT × ChannelImpl W)
  write_empty_header c cmd =
      if not (connection_established c.socket)
      then some (not_connected, c)
      else if not (valid c.buffer)
      then some (out_of_memory, c)
      else (do
        let c' = reset_state c
        b ← put_header is_be c'.buffer (record { id = cmd; data_size = 0 })
        some (result_ok, record c' { buffer = b }))

  -- `mBatch.endBatch()`
  abbrev pub end_impl_batch : ChannelImpl W → Option (ChannelImpl W)
  end_impl_batch c = do
    (s, b) ← end_batch is_be c.batch c.buffer
    some (record c { batch = s; buffer = b })

  -- `writePutHeader` and `writePutAHeader`
  unfoldable pub write_put_header : ProtoT → ChannelImpl W → Option (ResultT × ChannelImpl W)
  write_put_header proto c = do
    (res, c') ←
        write_empty_header c (elim proto [ put_proto ↦ command_put | puta_proto ↦ command_puta ])
    c'' ← end_impl_batch c'
    some (res, c'')

  -- Whether the record with its payload is too long for the free space of the buffer.
  abbrev pub exceeds : ChannelImpl W → ℕ → Bool
  exceeds c size = ltb (bytes_free c.buffer) size

  -- The end of reservePayloadBuffer: the offset of the payload in the buffer, and its space.
  abbrev pub payload_place : ChannelImpl W → ℕ → ℕ × ℕ
  payload_place c total =
      (add_size c.buffer.write_offset total, sub_size (bytes_free c.buffer) total)

  -- `reservePayloadBuffer`: the result, the offset and the size of the payload's space.
  unfoldable pub reserve_payload_buffer :
      ChannelImpl W → ℕ → Key → ℕ → Option (ResultT × Option ℕ × ℕ × ChannelImpl W)
  reserve_payload_buffer c₀ payload_size key key_size =
      let c : ChannelImpl W = record c₀ {
        expected_payload_size = max_of c₀.expected_payload_size payload_size;
      } in
      let record_offset = next_record_offset c.batch key.cid in
      let payload_offset = key_size + 4 in
      if exceeds c (add_size (record_offset + payload_offset) payload_size)
      then (if c.buffer.write_offset == 0 then some (memory_limit_exceeded, none, 0, c) else (do
        c₁ ← end_impl_batch c
        (res, c₂) ← send_buffer host c₁
        if is_result_ok res
            then (if exceeds c₂ (add_size (record_offset + payload_offset) payload_size)
                then some (memory_limit_exceeded, none, 0, c₂)
                else (let total = next_record_offset c₂.batch key.cid + payload_offset in
                    let (place, space) = payload_place c₂ total in
                    some (result_ok, some place, space, c₂)))
            else some (res, none, 0, c₂)))
      else (let total = record_offset + payload_offset in
          let (place, space) = payload_place c total in some (result_ok, some place, space, c))

  -- `obtainPutPayloadBuffer` and `obtainPutAPayloadBuffer`
  unfoldable pub obtain_payload_buffer :
      ProtoT → ChannelImpl W → Key → Option (ResultT × Option ℕ × ℕ × ChannelImpl W)
  obtain_payload_buffer proto c key =
      reserve_payload_buffer c c.expected_payload_size key (proto_key_size proto)

  -- `reservePutPayloadBuffer` and `reservePutAPayloadBuffer`
  unfoldable pub reserve_put_payload_buffer :
      ProtoT → ChannelImpl W → ℕ → Key → Option (ResultT × Option ℕ × ℕ × ChannelImpl W)
  reserve_put_payload_buffer proto c payload_size key =
      reserve_payload_buffer c payload_size key (proto_key_size proto)

  -- The greatest key that a record may have: in the PUT format any acq will do.
  abbrev pub greatest_key : ProtoT → Key → Key
  greatest_key put_proto below = record below { acq = key_max.acq }
  greatest_key puta_proto below = below

  -- `writeNextPutRecord` and `writeNextPutARecord`
  unfoldable pub write_next_record :
      ProtoT → ChannelImpl W → Key → ℕ → Option (ResultT × ChannelImpl W)
  write_next_record proto c key payload_size =
      if ltb max_payload_size payload_size then some (payload_too_large, c) else (do
        below ← sub_key key_max 1
        if not (is_valid key) || not (le_key key (greatest_key proto below))
            then some (invalid_key, c)
            else (do
              (s, b) ← put_record is_be proto c.batch c.buffer key payload_size
              some (result_ok, record c { batch = s; buffer = b })))

  -- `writeFin`
  unfoldable pub write_fin : ChannelImpl W → Option (ResultT × ChannelImpl W)
  write_fin c = do
    c₁ ← end_impl_batch c
    r ←
        (if ltb (bytes_free c₁.buffer) 4
          then (do
            (res, c₂) ← send_buffer host c₁
            some (
              res,
              if is_result_ok res then record c₂ { buffer = reset_offsets c₂.buffer } else c₂,
            ))
          else some (result_ok, c₁))
    then_on_ok r (λ c₃. do
      b ← put is_be c₃.buffer 4 (2 ^ 32 - 1)
      send_buffer host (record c₃ { buffer = b }))
