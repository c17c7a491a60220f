-- ===== src/Examples/Output.antt =====
-- Writing at concrete inputs.
use tstorage_clients.Prelude.{Returns, [], arith, false, refl, replicate, true, ◌∷◌, ◌≤◌}
use tstorage_clients.Memory.{store}
use tstorage_clients.BufferedOStream.{flush, reserve, reserve_flushing, write_with}
use tstorage_clients.BufferedOStream.Emit.{Emitted, write_with_lem}
use tstorage_clients.BufferedOStream.Flush.{Flushed, flush_lem}
use tstorage_clients.BufferedOStream.Obtain.{Obtained, reserve_flushing_lem}
use tstorage_clients.BufferedOStream.Reserve.{Reserved, reserve_lem}
use tstorage_clients.BufferedOStream.Sequence.{Written}
use tstorage_clients.DynamicArray.{emplace_back}
use tstorage_clients.DynamicArray.Emplace.{Emplaced, emplace_back_lem}
use tstorage_clients.DynamicBuffer.{DynamicBuffer, grown}
use tstorage_clients.DynamicBuffer.Resize.{Resized, grown_bounds, resize_lem}
use tstorage_clients.Examples.Setup.{
  bytes_codec, bytes_type, empty_buffer, empty_buffer-IsBuffer, empty_output, empty_output-IsOut,
  first_record, key_of, log_sink, roomy, second_record, some_output, some_output-IsOut, two_records,
}
use tstorage_clients.Key.{range_write}
use tstorage_clients.Key.Write.{range_bytes, range_write_lem}
use tstorage_clients.Put.{common_write, write_cid_batch}
use tstorage_clients.Put.Batches.{BatchWritten, write_cid_batch_lem}
use tstorage_clients.Put.Write.{CommonEnd, common_write_lem}
use tstorage_clients.Record.{common_serialize}
use tstorage_clients.Record.Format.{record_format}
use tstorage_clients.Record.Serialize.{Serialized, common_serialize_lem}
use tstorage_clients.Request.{get_write, initialize_get}
use tstorage_clients.Request.Write.{get_bytes, get_write_lem}
use tstorage_clients.RequestPut.{
  initialize_put_safe, initialize_puta_safe, put_write, write_put_safe, write_puta_safe,
}
use tstorage_clients.RequestPut.Write.{PutEnd, put_safe_lem, puta_safe_lem}
use tstorage_clients.DynamicBuffer

resize_lem_example :
    Returns (Resized roomy empty_buffer 10) (DynamicBuffer.resize roomy empty_buffer 10)
resize_lem_example = resize_lem roomy empty_buffer 10 empty_buffer-IsBuffer

grown_bounds_example :
    (5 ≤ grown roomy (some_output.buffer) 5)
    × (grown roomy (some_output.buffer) 5 ≤ 6)
    × (6 ≤ grown roomy (some_output.buffer) 5)
grown_bounds_example =
    grown_bounds roomy (some_output.buffer) 5 (some_output-IsOut.buffered) (omega arith)
      (omega arith)

emplace_back_lem_example :
    Returns
      (Emplaced roomy (record { buffer = empty_buffer; elem_size = 48; size = 0 }))
      (emplace_back roomy (record { buffer = empty_buffer; elem_size = 48; size = 0 }) 0)
emplace_back_lem_example =
    emplace_back_lem roomy (record { buffer = empty_buffer; elem_size = 48; size = 0 }) 0
      (record { buffered = empty_buffer-IsBuffer; has_size = omega arith; in_buffer = omega arith })

reserve_lem_example : Returns (Reserved roomy some_output 2) (reserve roomy some_output 0 2)
reserve_lem_example = reserve_lem roomy some_output 0 2 some_output-IsOut

flush_lem_example : Returns (Flushed log_sink some_output) (flush (log_sink.write) some_output)
flush_lem_example = flush_lem log_sink some_output some_output-IsOut tt

-- Four bytes fit only behind a flush.
reserve_flushing_lem_example :
    Returns
      (Obtained log_sink roomy some_output 4)
      (reserve_flushing roomy (log_sink.write) some_output 0 4)
reserve_flushing_lem_example =
    reserve_flushing_lem log_sink roomy some_output 0 4 some_output-IsOut tt

write_with_lem_example :
    Returns
      (Emitted log_sink roomy some_output (7 ∷ 8 ∷ []))
      (write_with roomy (log_sink.write) (λ m at. store m at (7 ∷ 8 ∷ [])) 2 some_output)
write_with_lem_example =
    write_with_lem log_sink roomy (λ m at. store m at (7 ∷ 8 ∷ [])) (7 ∷ 8 ∷ []) some_output
      (λ _ _. refl) some_output-IsOut tt

range_write_lem_example :
    Returns
      (Written log_sink roomy empty_output 32
        (range_bytes (record { lo = key_of 1; hi = key_of 2 })))
      (range_write roomy (log_sink.write) (record { lo = key_of 1; hi = key_of 2 }) empty_output)
range_write_lem_example =
    range_write_lem log_sink roomy (record { lo = key_of 1; hi = key_of 2 }) empty_output
      empty_output-IsOut tt

get_write_lem_example :
    Returns
      (Written log_sink roomy empty_output 32 (get_bytes (initialize_get (key_of 1) (key_of 2))))
      (get_write roomy (log_sink.write) (initialize_get (key_of 1) (key_of 2)) empty_output)
get_write_lem_example =
    get_write_lem log_sink roomy (initialize_get (key_of 1) (key_of 2)) empty_output
      empty_output-IsOut tt

common_serialize_lem_example :
    Returns
      (Serialized bytes_type bytes_codec true first_record (replicate 50 0) 4 40)
      (common_serialize bytes_type true first_record (replicate 50 0) 4 40)
common_serialize_lem_example =
    common_serialize_lem bytes_type bytes_codec true first_record (replicate 50 0) 4 40
      (omega arith)

write_cid_batch_lem_example :
    Returns
      (BatchWritten log_sink roomy
        (record_format bytes_type bytes_codec true)
        empty_output
        1
        (first_record ∷ second_record ∷ []))
      (write_cid_batch roomy
        (common_serialize bytes_type true)
        (log_sink.write)
        empty_output
        (first_record ∷ second_record ∷ []))
write_cid_batch_lem_example =
    write_cid_batch_lem log_sink roomy (record_format bytes_type bytes_codec true) first_record
      (second_record ∷ []) empty_output empty_output-IsOut tt

common_write_lem_example :
    Returns
      (CommonEnd log_sink roomy
        (record_format bytes_type bytes_codec true)
        empty_output
        (first_record ∷ second_record ∷ [])
        5)
      (common_write roomy
        (common_serialize bytes_type true)
        (log_sink.write)
        5
        empty_output
        (first_record ∷ second_record ∷ []))
common_write_lem_example =
    common_write_lem log_sink roomy (record_format bytes_type bytes_codec true) 5 empty_output
      (first_record ∷ second_record ∷ []) empty_output-IsOut tt

put_safe_lem_example :
    Returns
      (PutEnd log_sink roomy
        (record_format bytes_type bytes_codec false)
        (initialize_put_safe two_records)
        empty_output
        5)
      (put_write roomy
        (log_sink.write)
        (initialize_put_safe two_records)
        (write_put_safe roomy (log_sink.write))
        5
        empty_output)
put_safe_lem_example =
    put_safe_lem log_sink roomy two_records bytes_codec 5 empty_output empty_output-IsOut tt

puta_safe_lem_example :
    Returns
      (PutEnd log_sink roomy
        (record_format bytes_type bytes_codec true)
        (initialize_puta_safe two_records)
        empty_output
        5)
      (put_write roomy
        (log_sink.write)
        (initialize_puta_safe two_records)
        (write_puta_safe roomy (log_sink.write))
        5
        empty_output)
puta_safe_lem_example =
    puta_safe_lem log_sink roomy two_records bytes_codec 5 empty_output empty_output-IsOut tt
