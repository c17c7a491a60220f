-- ===== src/Cpp/ChannelImpl/Responses.antt =====
-- The answers in cpp/libtstorageclient++/src/ChannelImpl.h and ChannelImpl.cpp: confirmations, records and
-- acquisition times.
use tstorage_clients.Prelude.{
  Bool, Option, if◌then◌else◌, ltb, none, some, ℕ, ◌+◌, ◌-◌, ◌==◌, ◌>>=◌, ◌||◌,
}
use tstorage_clients.Memory.{add_size, sub_size}
use tstorage_clients.Bytes.{size_of_int32}
use tstorage_clients.Cpp.Buffer.{reset_offsets}
use tstorage_clients.Cpp.ChannelImpl.{ChannelImpl, max_payload_size, request_data, skip, then_on_ok}
use tstorage_clients.Cpp.DataTypes.{
  ResultT, bad_response, end_of_stream, is_result_ok, is_valid, key_invalid, key_max, le_key,
  result_ok, server_error, sub_key,
}
use tstorage_clients.Cpp.Serializer.{
  confirm_int32, full_key_size, get_data_buffer, get_header, get_header_acq, get_key,
  message_header_size, peek_int32,
}
use tstorage_clients.Cpp.Socket.{Host}
use tstorage_clients.Key.{Key}
use tstorage_clients.Record.Serialize.{record_size}
use mathlib.Core.Bool.{not}

module _ {W : Type 0} (is_be : Bool) (host : Host W) where
  -- `readResponse`, and so `readPutResult` and `readPutAResult`.
  unfoldable pub read_response : ChannelImpl W → Option (ResultT × ChannelImpl W)
  read_response c = do
    r ← request_data host (record c { buffer = reset_offsets c.buffer }) message_header_size
    then_on_ok r (λ c'. do
      (response, b) ← get_header is_be c'.buffer
      r' ← skip host (record c' { buffer = b }) response.data_size
      then_on_ok r' (λ c''. some ((if response.id == 0 then result_ok else server_error), c'')))

  -- `readNextRecordData`: the result, the key, the offset of the payload and its size.
  unfoldable pub read_next_record_data :
      ChannelImpl W → Option (ResultT × Key × Option ℕ × ℕ × ChannelImpl W)
  unfolding request_data peek_int32 confirm_int32 get_key sub_key is_valid le_key get_data_buffer
  read_next_record_data c = do
    (res, c₁) ← request_data host c 4
    if not (is_result_ok res) then some (res, key_invalid, none, 0, c₁) else (do
      record_size ← peek_int32 is_be c₁.buffer
      if record_size == 0
          then some (
            end_of_stream,
            key_invalid,
            none,
            0,
            record c₁ { buffer = confirm_int32 is_be c₁.buffer },
          )
          else (do
            let payload_size = sub_size (size_of_int32 record_size) full_key_size
            if ltb max_payload_size payload_size
                then some (bad_response, key_invalid, none, payload_size, c₁)
                else (do
                  (res', c₂) ← request_data host c₁ (add_size 4 (size_of_int32 record_size))
                  if not (is_result_ok res')
                      then some (res', key_invalid, none, payload_size, c₂)
                      else (do
                        (key, b) ← get_key is_be (confirm_int32 is_be c₂.buffer)
                        below ← sub_key key_max 1
                        if not (is_valid key) || not (le_key key below)
                            then some
                                (bad_response, key, none, payload_size, record c₂ { buffer = b })
                            else (let (payload, b') = get_data_buffer b payload_size in
                                some (
                                  result_ok,
                                  key,
                                  payload,
                                  payload_size,
                                  record c₂ { buffer = b' },
                                ))))))

  -- `readAcq`, and so `readGetResult`: the result and the acquisition time.
  unfoldable pub read_acq : ChannelImpl W → Option (ResultT × ℕ × ChannelImpl W)
  read_acq c = do
    (res, c₁) ← request_data host c (message_header_size + 8)
    if not (is_result_ok res) then some (res, 0, c₁) else (do
      (response, b) ← get_header_acq is_be c₁.buffer
      let c₂ : ChannelImpl W = record c₁ { buffer = b }
      if not (response.acq_id == 0)
          then (do
            (res', c₃) ← skip host c₂ response.acq_data_size
            some ((if is_result_ok res' then server_error else res'), 0, c₃))
          else (if ltb response.acq_data_size 8 then some (bad_response, 0, c₂) else (do
            (res', c₃) ← skip host c₂ (response.acq_data_size - 8)
            some (res', response.header_acq, c₃))))
