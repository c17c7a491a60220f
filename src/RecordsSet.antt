-- ===== src/RecordsSet.antt =====
-- c/src/RecordsSet.h and RecordsSet.c: the array of records that the user fills, or that the answer
-- to a get request fills. `elements` is what the used part of the array's storage holds, record by
-- record; the layout of a record in memory is the C compiler's.
pub mod Read
pub mod Append
use tstorage_clients.Prelude.{
  Bool, List, Option, [], assert, false, if◌then◌else◌, leb, ltb, none, some, suc, true, zero, ℕ,
  ◌*◌, ◌++◌, ◌+◌, ◌-◌, ◌/◌, ◌==◌, ◌>>=◌, ◌>>◌, ◌∷◌,
}
use tstorage_clients.Memory.{Allocator, load, size_max}
use tstorage_clients.ErrorCode.{ErrorCode, is_limit, is_ok, ok}
use tstorage_clients.BufferedIStream.{BufferedIStream, ReadFun, confirm_input, reserve_input}
use tstorage_clients.Bytes.{le_value, size_of_int32}
use tstorage_clients.DynamicArray.{
  DynamicArray, emplace_back, empty_array, finalize_array, initialize_array, remove_last,
}
use tstorage_clients.DynamicBuffer.{DynamicBuffer}
use tstorage_clients.Key.{Key}
use tstorage_clients.Record.{PayloadType, Record, deserialize}

-- `struct TSCLIENT_RecordsSet`
pub record RecordsSet : Type 0 where
  pub payload_type : PayloadType
  pub array : DynamicArray
  pub elements : List Record

-- What the loop of a reading function has reached: its end, or the end of the rounds of the model.
pub data Reading (A : Type 0) : Type 0 where
  received : ErrorCode → A → Reading A
  reading : Reading A

-- `sizeof(TSCLIENT_Key)`
abbrev pub key_sizeof : ℕ
key_sizeof = 32

-- `TSCLIENT_RecordsSet_size`
unfoldable pub set_size_of : RecordsSet → ℕ
set_size_of s = s.array.size

-- `TSCLIENT_RecordsSet_elements`
unfoldable pub set_elements : RecordsSet → List Record
set_elements s = s.elements

-- `RecordsSet_finalize`
unfoldable pub finalize_set : RecordsSet → RecordsSet
unfolding finalize_array
finalize_set s = record s { array = finalize_array s.array; elements = [] }

-- `DynamicArray_empty(&this->array)`
unfoldable pub emptied_set : RecordsSet → RecordsSet
unfolding empty_array
emptied_set s = record s { array = empty_array s.array; elements = [] }

module _ (mem : Allocator) where
  -- `RecordsSet_initialize`; `raw` is the buffer's memory before the call.
  unfoldable pub initialize_set : DynamicBuffer → PayloadType → Option (ErrorCode × RecordsSet)
  initialize_set raw type = do
    (res, array) ← initialize_array mem raw type.size (size_max / type.size) 0
    some (res, record { payload_type = type; array = array; elements = [] })

  -- `TSCLIENT_RecordsSet_new`; `allocated` is whether malloc(3) gives the memory.
  unfoldable pub new_set : Bool → DynamicBuffer → PayloadType → Option (Option RecordsSet)
  new_set allocated raw type =
      if allocated
      then (do (res, s) ← initialize_set raw type; some (if is_ok res then some s else none))
      else some none

  -- `TSCLIENT_RecordsSet_append`. The assertions are those on the ends of the two copies; `value`
  -- is what the second copy reads, as many bytes as a record has behind its key.
  unfoldable pub append : RecordsSet → Key → List ℕ → Option (ErrorCode × RecordsSet)
  append s key value = do
    (res, elem, array) ← emplace_back mem s.array 0
    let s' : RecordsSet = record s { array = array }
    if is_ok res
        then (do
          let finish = array.size * array.elem_size
          assert (leb (elem + s.payload_type.size) finish)
          assert (leb (elem + key_sizeof) finish)
          assert (leb (elem + s.payload_type.offset + s.payload_type.size - key_sizeof) finish)
          some (
            ok,
            record s' { elements = s.elements ++ (record { key = key; payload = value } ∷ []) },
          ))
        else some (res, s')

  -- The end of a round of the reading loops: a new element, filled from the `size` bytes at
  -- `buffer`. `slot` is what its memory holds.
  unfoldable pub receive_record :
      Record → RecordsSet → List ℕ → ℕ → ℕ → Option (ErrorCode × RecordsSet)
  receive_record slot s block buffer size = do
    (res, _, array) ← emplace_back mem s.array 0
    if is_ok res
        then (do
          (res', rec) ← deserialize s.payload_type slot block buffer size
          if is_ok res'
              then some (ok, record s { array = array; elements = s.elements ++ (rec ∷ []) })
              else (do array' ← remove_last array; some (res', record s { array = array' })))
        else some (res, record s { array = array })

  module _ {S : Type 0} (read : ReadFun S) (slot : Record) where
    -- A round of the loop of RecordsSet_read: whether the loop goes on, with what result if not.
    unfoldable pub read_round :
        RecordsSet → BufferedIStream S → Option (Bool × ErrorCode × RecordsSet × BufferedIStream S)
    read_round s i = do
      (res, buffer, i') ← reserve_input mem read i 0 4
      if is_ok res
          then (do
            bytes ← load i'.buffer.storage buffer 4
            let rec_size = size_of_int32 (le_value bytes)
            if rec_size == 0 then some (false, ok, s, i') else (do
              (res', buffer', i'') ← reserve_input mem read i' buffer rec_size
              if is_ok res'
                  then (do
                    (res'', s') ← receive_record slot s i''.buffer.storage buffer' rec_size
                    some (is_ok res'', res'', s', i''))
                  else some (false, res', s, i'')))
          else some (false, res, s, i')

    -- `RecordsSet_read`, for a number of rounds.
    unfoldable pub read_set :
        ℕ → RecordsSet → BufferedIStream S → Option (Reading (RecordsSet × BufferedIStream S))
    read_set zero s i = some reading
    read_set (suc rounds) s i = do
      (more, res, s', i') ← read_round s i
      elim more [ true ↦ read_set rounds s' i' | false ↦ some (received res (s', i')) ]

    -- What the loop of RecordsSet_readWithCallback changes; `chunks` are the records of the calls
    -- of the user's function so far, which leaves the set as it is.
    pub record Streaming : Type 0 where
      pub set : RecordsSet
      pub input : BufferedIStream S
      pub chunks : List (List Record)

    -- The call of the user's function, if there are records.
    unfoldable pub call_back : Streaming → Streaming
    call_back t =
        if ltb 0 t.set.array.size
        then record t { chunks = t.chunks ++ (t.set.elements ∷ []) }
        else t

    -- `reserveWithCallback`
    unfoldable pub reserve_with_callback : Streaming → ℕ → ℕ → Option (ErrorCode × ℕ × Streaming)
    unfolding call_back emptied_set
    reserve_with_callback t buffer size = do
      (res, buffer', i) ← reserve_input mem read t.input buffer size
      if is_limit res
          then (do
            let t' : Streaming = call_back (record t { input = i })
            i' ← confirm_input i
            (res', buffer'', i'') ← reserve_input mem read i' buffer' size
            some (res', buffer'', record t' { set = emptied_set t.set; input = i'' }))
          else some (res, buffer', record t { input = i })

    -- A round of the loop of RecordsSet_readWithCallback.
    unfoldable pub callback_round : Streaming → Option (Bool × ErrorCode × Streaming)
    callback_round t = do
      (res, buffer, t') ← reserve_with_callback t 0 4
      if is_ok res
          then (do
            bytes ← load t'.input.buffer.storage buffer 4
            let rec_size = size_of_int32 (le_value bytes)
            if rec_size == 0 then some (false, ok, t') else (do
              (res', buffer', t'') ← reserve_with_callback t' buffer rec_size
              if is_ok res'
                  then (do
                    (res'', s) ←
                        receive_record slot t''.set t''.input.buffer.storage buffer' rec_size
                    some (is_ok res'', res'', record t'' { set = s }))
                  else some (false, res', t'')))
          else some (false, res, t')

    -- The loop of RecordsSet_readWithCallback, for a number of rounds.
    unfoldable pub callback_loop : ℕ → Streaming → Option (Reading Streaming)
    callback_loop zero t = some reading
    callback_loop (suc rounds) t = do
      (more, res, t') ← callback_round t
      elim more [ true ↦ callback_loop rounds t' | false ↦ some (received res t') ]

    -- `RecordsSet_readWithCallback`
    unfoldable pub read_with_callback : ℕ → Streaming → Option (Reading Streaming)
    unfolding call_back emptied_set
    read_with_callback rounds t = do
      r ← callback_loop rounds t
      some (elim r [
        | received res t' ↦ received res (record (call_back t') { set = emptied_set t'.set })
        | reading ↦ reading
      ])
