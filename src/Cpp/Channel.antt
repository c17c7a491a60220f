-- ===== src/Cpp/Channel.antt =====
-- cpp/libtstorageclient++/include/tstorageclient++/Channel.tpp, with PayloadType.h: the calls of the C++ client.
-- A set of records is the list of its records, and a call returns what its response holds. The user's
-- PayloadType is a parameter.
pub mod NextRecord
pub mod Records
pub mod Closing
pub mod Getting
pub mod Acquiring
use tstorage_clients.Prelude.{
  Bool, List, Option, [], false, if◌then◌else◌, ltb, none, some, suc, true, zero, ℕ, ◌++◌, ◌>>=◌,
  ◌∷◌,
}
use tstorage_clients.Cpp.Batch.{ProtoT}
use tstorage_clients.Cpp.Buffer.{read_at, write_at}
use tstorage_clients.Cpp.ChannelImpl.{ChannelImpl, abort_channel, close_impl}
use tstorage_clients.Cpp.ChannelImpl.Requests.{
  obtain_payload_buffer, reserve_put_payload_buffer, write_fin, write_get_acq_request,
  write_get_request, write_next_record, write_put_header,
}
use tstorage_clients.Cpp.ChannelImpl.Responses.{read_acq, read_next_record_data, read_response}
use tstorage_clients.Cpp.DataTypes.{
  ResultT, deserialization_error, end_of_stream, invalid_key, is_result_ok, memory_limit_exceeded,
  payload_too_large, result_ok,
}
use tstorage_clients.Cpp.Socket.{Host}
use tstorage_clients.Key.{Key}
use tstorage_clients.Put.{place}
use mathlib.Core.Bool.{not}

-- `PayloadType`: `to_payload` is given the value and the space there is; it returns what it wrote
-- there, and the size that the value needs. `from_payload` returns `none` for a failure.
pub record PayloadFormat (T : Type 0) : Type 0 where
  pub to_payload : T → ℕ → List ℕ × ℕ
  pub from_payload : List ℕ → Option T

-- What a loop has reached: its end, or the end of the rounds that the model allows.
pub data Rounds (A : Type 0) : Type 0 where
  ended : A → Rounds A
  unfinished : Rounds A

module _ {W T : Type 0} (is_be : Bool) (host : Host W) (format : PayloadFormat T) where
  -- Aborts the connection unless the result is OK.
  abbrev pub abort_unless_ok : ResultT → ChannelImpl W → ChannelImpl W
  abort_unless_ok res c = if is_result_ok res then c else abort_channel host c

  -- `serializeAndWriteRecord`
  unfoldable pub serialize_and_write :
      ProtoT → ChannelImpl W → Key → T → Option (ResultT × ChannelImpl W)
  serialize_and_write proto c key value = do
    (res, place, space, c₁) ← obtain_payload_buffer is_be host proto c key
    if not (is_result_ok res) then some (res, c₁) else (do
      at ← place
      let (written, size) = format.to_payload value space
      b ← write_at c₁.buffer at written
      let c₂ : ChannelImpl W = record c₁ { buffer = b }
      if ltb space size
          then (do
            (res', place', space', c₃) ← reserve_put_payload_buffer is_be host proto c₂ size key
            if not (is_result_ok res') then some (res', c₃) else (do
              at' ← place'
              let (written', size') = format.to_payload value space'
              b' ← write_at c₃.buffer at' written'
              write_next_record is_be host proto (record c₃ { buffer = b' }) key size'))
          else write_next_record is_be host proto c₂ key size)

  -- The loop of putImpl.
  unfoldable pub write_records :
      ProtoT → ChannelImpl W → List (Key × T) → Option (ResultT × ChannelImpl W)
  write_records proto c [] = some (result_ok, c)
  write_records proto c (rec ∷ recs) = do
    (res, c') ← serialize_and_write proto c rec.0 rec.1
    elim (is_result_ok res) [ true ↦ write_records proto c' recs | false ↦ some (res, c') ]

  -- `putFinalize`
  unfoldable pub put_finalize : ChannelImpl W → Option (ResultT × ChannelImpl W)
  put_finalize c = do
    (res, c₁) ← write_fin is_be host c
    if not (is_result_ok res)
        then some (res, abort_channel host c₁)
        else (do (res', c₂) ← read_response is_be host c₁; some (res', abort_unless_ok res' c₂))

  -- The end of putImpl for a record that was refused: the request is finished without it, and the
  -- channel is closed.
  unfoldable pub put_refused : ResultT → ChannelImpl W → Option (ResultT × ChannelImpl W)
  put_refused res c = do
    (fin, c') ← put_finalize c
    some (res, if is_result_ok fin then (close_impl host c').1 else abort_channel host c')

  -- The end of putImpl, by the result of its loop.
  unfoldable pub put_end : ResultT → ChannelImpl W → Option (ResultT × ChannelImpl W)
  put_end res c = elim res [
    | result_ok ↦ put_finalize c
    | payload_too_large ↦ put_refused payload_too_large c
    | invalid_key ↦ put_refused invalid_key c
    | err ↦ some (err, abort_channel host c)
  ]

  -- `putImpl`, and so `put` and `puta`.
  unfoldable pub put_impl :
      ProtoT → ChannelImpl W → List (Key × T) → Option (ResultT × ChannelImpl W)
  put_impl proto c recs = do
    (res, c₁) ← write_put_header is_be host proto c
    if not (is_result_ok res)
        then some (res, abort_channel host c₁)
        else (do (res', c₂) ← write_records proto c₁ recs; put_end res' c₂)

  -- `getAcq`
  unfoldable pub get_acq_impl : ChannelImpl W → Key → Key → Option (ResultT × ℕ × ChannelImpl W)
  get_acq_impl c lo hi = do
    (res, c₁) ← write_get_acq_request is_be host c lo hi
    if not (is_result_ok res) then some (res, 0, abort_channel host c₁) else (do
      (res', acq, c₂) ← read_acq is_be host c₁
      some (if is_result_ok res' then (res', acq, c₂) else (res', 0, abort_channel host c₂)))

  -- `recvAndDeserializeRecordTo`
  unfoldable pub recv_record :
      List (Key × T) → ChannelImpl W → Option (ResultT × List (Key × T) × ChannelImpl W)
  recv_record recs c = do
    (res, key, payload, size, c') ← read_next_record_data is_be host c
    if not (is_result_ok res) then some (res, recs, c') else (do
      at ← payload
      bytes ← read_at c'.buffer at size
      some (elim (format.from_payload bytes) [
        | none ↦ (deserialization_error, recs, c')
        | some value ↦ (result_ok, recs ++ ((key, value) ∷ []), c')
      ]))

  -- The loop of get, and of recvAndDeserializeBatchTo: records until a result other than OK.
  unfoldable pub recv_records :
      ℕ
      → List (Key × T)
      → ChannelImpl W
      → Option (Rounds (ResultT × List (Key × T) × ChannelImpl W))
  recv_records zero recs c = some unfinished
  recv_records (suc rounds) recs c = do
    (res, recs', c') ← recv_record recs c
    elim (is_result_ok res) [
      | true ↦ recv_records rounds recs' c'
      | false ↦ some (ended (res, recs', c'))
    ]

  -- The end of get and getStream: the acquisition time.
  unfoldable pub get_result : ChannelImpl W → Option (ResultT × ℕ × ChannelImpl W)
  get_result c = do
    (res, acq, c') ← read_acq is_be host c
    some (if is_result_ok res then (res, acq, c') else (res, 0, abort_channel host c'))

  -- The start of get and getStream: the request, and the server's answer to it.
  unfoldable pub get_request : ChannelImpl W → Key → Key → Option (ResultT × ChannelImpl W)
  get_request c lo hi = do
    (res, c₁) ← write_get_request is_be host c lo hi
    if not (is_result_ok res)
        then some (res, abort_channel host c₁)
        else (do (res', c₂) ← read_response is_be host c₁; some (res', abort_unless_ok res' c₂))

  -- The end of get and getStream, by the result of their loop.
  unfoldable pub get_end :
      {A : Type 0}
      → Rounds (ResultT × A × ChannelImpl W)
      → Option (Rounds (ResultT × A × ℕ × ChannelImpl W))
  get_end unfinished = some unfinished
  get_end (ended (end_of_stream, given, c)) = do
    (res, acq, c') ← get_result c
    some (ended (res, given, acq, c'))
  get_end (ended (err, given, c)) = some (ended (err, given, 0, abort_channel host c))

  -- `get`: the result, the records and the acquisition time.
  unfoldable pub get_impl :
      ℕ → ChannelImpl W → Key → Key → Option (Rounds (ResultT × List (Key × T) × ℕ × ChannelImpl W))
  get_impl rounds c lo hi = do
    (res, c₁) ← get_request c lo hi
    if not (is_result_ok res)
        then some (ended (res, [], 0, c₁))
        else (do r ← recv_records rounds [] c₁; get_end r)

  -- The end of recvAndDeserializeBatchTo: a full buffer ends a batch of one record at least.
  abbrev pub batch_result : ResultT → List (Key × T) → ResultT
  batch_result memory_limit_exceeded [] = memory_limit_exceeded
  batch_result memory_limit_exceeded (rec ∷ recs) = result_ok
  batch_result res recs = res

  -- The loop of getStream: the sets of records given to the callback, in order.
  unfoldable pub stream_batches :
      ℕ
      → ℕ
      → List (List (Key × T))
      → ChannelImpl W
      → Option (Rounds (ResultT × List (List (Key × T)) × ChannelImpl W))
  stream_batches zero records batches c = some unfinished
  stream_batches (suc rounds) records batches c = do
    r ← recv_records records [] c
    elim r [
      | unfinished ↦ some unfinished
      | ended (res, recs, c') ↦ elim (is_result_ok (batch_result res recs)) [
        | true ↦ stream_batches rounds records (batches ++ (recs ∷ [])) c'
        | false ↦ some (ended (batch_result res recs, batches ++ (recs ∷ []), c'))
      ]
    ]

  -- `getStream`: the result, the sets given to the callback and the acquisition time.
  unfoldable pub get_stream_impl :
      ℕ
      → ℕ
      → ChannelImpl W
      → Key
      → Key
      → Option (Rounds (ResultT × List (List (Key × T)) × ℕ × ChannelImpl W))
  get_stream_impl rounds records c lo hi = do
    (res, c₁) ← get_request c lo hi
    if not (is_result_ok res)
        then some (ended (res, [], 0, c₁))
        else (do r ← stream_batches rounds records [] c₁; get_end r)
