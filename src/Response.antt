-- ===== src/Response.antt =====
-- c/src/ResponseHeader, ResponsePut, ResponseGet, ResponseGetConfirmation and
-- ResponseGetWithCallback (.h and .c): how the server's answers are read. The structures are passed
-- in as the memory that they are before the call, since the functions do not always set them.
use tstorage_clients.Prelude.{
  Bool, List, Option, [], if◌then◌else◌, ltb, none, some, ℕ, ◌+◌, ◌==◌, ◌>>=◌,
}
use tstorage_clients.Memory.{Allocator, load}
use tstorage_clients.ErrorCode.{ErrorCode, is_ok, ok, resource, unexpected}
use tstorage_clients.BufferedIStream.{BufferedIStream, ReadFun, reserve_input}
use tstorage_clients.Bytes.{le_value}
use tstorage_clients.DynamicBuffer.{DynamicBuffer}
use tstorage_clients.Record.{PayloadType, Record}
use tstorage_clients.RecordsSet.{
  Reading, RecordsSet, initialize_set, new_set, read_set, read_with_callback, reading, received,
}

-- `struct ResponseHeader`; `data` is the offset of the data in the input's buffer.
pub record ResponseHeader : Type 0 where
  pub result : ℕ
  pub size : ℕ
  pub data_at : ℕ

-- `struct ResponsePut`
pub record ResponsePut : Type 0 where
  pub base : ResponseHeader
  pub acq_min : ℕ
  pub acq_max : ℕ

-- `struct ResponseGetConfirmation`
pub record ResponseGetConfirmation : Type 0 where
  pub base : ResponseHeader
  pub acq : ℕ

-- `struct ResponseGet`; the null pointer is `none`.
pub record ResponseGet : Type 0 where
  pub base : ResponseHeader
  pub records : Option RecordsSet

-- `headerSize` of ResponseHeader.c
unfoldable pub response_header_size : ℕ
response_header_size = 4 + 8

-- `sizeSuccess` of ResponsePut.c
unfoldable pub put_success_size : ℕ
put_success_size = 8 + 8

-- `sizeSuccess` of ResponseGetConfirmation.c
unfoldable pub confirmation_success_size : ℕ
confirmation_success_size = 8

-- `deserialize` of ResponseHeader.c
unfoldable pub deserialize_header : ResponseHeader → List ℕ → ℕ → Option ResponseHeader
deserialize_header this block src = do
  result ← load block src 4
  size ← load block (src + 4) 8
  some (record this { result = le_value result; size = le_value size })

-- `deserializeSuccess` of ResponsePut.c
unfoldable pub deserialize_put : ResponsePut → List ℕ → ℕ → Option ResponsePut
deserialize_put this block src = do
  acq_min ← load block src 8
  acq_max ← load block (src + 8) 8
  some (record this { acq_min = le_value acq_min; acq_max = le_value acq_max })

-- `deserializeSuccess` of ResponseGetConfirmation.c
unfoldable pub deserialize_confirmation :
    ResponseGetConfirmation → List ℕ → ℕ → Option ResponseGetConfirmation
deserialize_confirmation this block src = do
  acq ← load block src 8
  some (record this { acq = le_value acq })

module _ {S : Type 0} (mem : Allocator) (read : ReadFun S) where
  -- `ResponseHeader_read`
  unfoldable pub read_header :
      ResponseHeader → BufferedIStream S → Option (ErrorCode × ResponseHeader × BufferedIStream S)
  unfolding response_header_size
  read_header this i = do
    (res, buffer, i') ← reserve_input mem read i 0 response_header_size
    if is_ok res
        then (do
          h ← deserialize_header this i'.buffer.storage buffer
          (res', data_at, i'') ← reserve_input mem read i' h.data_at h.size
          some (res', record h { data_at = data_at }, i''))
        else some (res, this, i')

  -- `ResponsePut_read`
  unfoldable pub read_put :
      ResponsePut → BufferedIStream S → Option (ErrorCode × ResponsePut × BufferedIStream S)
  unfolding put_success_size
  read_put this i = do
    (res, base, i') ← read_header this.base i
    let this' : ResponsePut = record this { base = base }
    if is_ok res
        then (if base.result == 0
            then (if ltb base.size put_success_size then some (unexpected, this', i') else (do
              this'' ← deserialize_put this' i'.buffer.storage base.data_at
              some (ok, this'', i')))
            else some (ok, this', i'))
        else some (res, this', i')

  -- `ResponseGetConfirmation_read`
  unfoldable pub read_confirmation :
      ResponseGetConfirmation
      → BufferedIStream S
      → Option (ErrorCode × ResponseGetConfirmation × BufferedIStream S)
  unfolding confirmation_success_size
  read_confirmation this i = do
    (res, base, i') ← read_header this.base i
    let this' : ResponseGetConfirmation = record this { base = base }
    if is_ok res
        then (if base.result == 0
            then (if ltb base.size confirmation_success_size
                then some (unexpected, this', i')
                else (do
                  this'' ← deserialize_confirmation this' i'.buffer.storage base.data_at
                  some (ok, this'', i')))
            else some (ok, this', i'))
        else some (res, this', i')

  -- What a get response keeps of the records, by the result of RecordsSet_read.
  abbrev pub kept_records : ErrorCode → RecordsSet → Option RecordsSet
  kept_records res s = if is_ok res then some s else (if s.array.size == 0 then none else some s)

  module _ (raw : DynamicBuffer) (slot : Record) (type : PayloadType) where
    -- `ResponseGet_read`, for a number of rounds of RecordsSet_read; `allocated` is whether
    -- malloc(3) gives the memory of the set of records.
    unfoldable pub read_get :
        Bool
        → ℕ
        → ResponseGet
        → BufferedIStream S
        → Option (Reading (ResponseGet × BufferedIStream S))
    read_get allocated rounds this i = do
      (res, base, i') ← read_header this.base i
      if is_ok res
          then (do
            made ← new_set mem allocated raw type
            elim made [
              | none ↦ some (received resource (record { base = base; records = none }, i'))
              | some s ↦ do
                r ← read_set mem read slot rounds s i'
                some (elim r [
                  | received res' (s', i'') ↦
                      received res' (record { base = base; records = kept_records res' s' }, i'')
                  | reading ↦ reading
                ])
            ])
          else some (received res (record this { base = base }, i'))

    -- `ResponseGetWithCallback_read`: the response, the input, and the records of each call of the
    -- user's function.
    unfoldable pub read_get_with_callback :
        ℕ
        → ResponseHeader
        → BufferedIStream S
        → Option (Reading (ResponseHeader × BufferedIStream S × List (List Record)))
    read_get_with_callback rounds this i = do
      (res, base, i') ← read_header this i
      if is_ok res
          then (do
            (res', s) ← initialize_set mem raw type
            if is_ok res'
                then (do
                  r ←
                      read_with_callback mem read slot rounds
                        (record { set = s; input = i'; chunks = [] })
                  some (elim r [
                    | received res'' t ↦ received res'' (base, t.input, t.chunks)
                    | reading ↦ reading
                  ]))
                else some (received res' (base, i', [])))
          else some (received res (base, i', []))
