-- ===== src/Channel.antt =====
-- c/src/Channel.h and Channel.c: a connection to the server and the requests of the user. The
-- channel owns one buffer and one socket, which its two streams share: `input` and `output` make a
-- stream of them, and `with_input` and `with_output` put them back.
use tstorage_clients.Prelude.{
  Bool, List, Option, [], if◌then◌else◌, none, some, ℕ, ◌+◌, ◌==◌, ◌>>=◌, ◌^◌,
}
use tstorage_clients.Memory.{Allocator}
use tstorage_clients.ErrorCode.{ErrorCode, invalid, is_ok, resource, response_status}
use tstorage_clients.BufferedIStream.{
  BufferedIStream, ReadFun, finalize_input, initialize_input, reset_input,
}
use tstorage_clients.BufferedOStream.{BufferedOStream, WriteFun, flush}
use tstorage_clients.DynamicBuffer.{DynamicBuffer}
use tstorage_clients.Key.{Key}
use tstorage_clients.Put.{finished, running}
use tstorage_clients.Record.{PayloadType, Record}
use tstorage_clients.RecordsSet.{RecordsSet, reading, received}
use tstorage_clients.Request.{RequestGet, get_write, initialize_get, initialize_get_acq}
use tstorage_clients.RequestPut.{
  RequestPut, WriteSetFun, initialize_put_safe, initialize_puta_safe, put_write, write_put_safe,
  write_puta_safe,
}
use tstorage_clients.Response.{
  ResponseGet, ResponseGetConfirmation, ResponseHeader, ResponsePut, read_confirmation, read_get,
  read_get_with_callback, read_put,
}
use tstorage_clients.Socket.{
  Socket, System, close_socket, finalize_socket, initialize_socket, is_open, open_socket,
  receive_bytes, send_bytes, set_timeout,
}
use tstorage_clients.DynamicBuffer
use mathlib.Core.Bool.{not}

-- `struct TSCLIENT_Channel`
pub record Channel (W : Type 0) : Type 0 where
  pub host : List ℕ
  pub port : ℕ
  pub payload_type : PayloadType
  pub buffer : DynamicBuffer
  pub sock : Socket W
  pub read_pos : ℕ
  pub input_reserve_pos : ℕ
  pub output_reserve_pos : ℕ

-- A request's end: the status and what it leaves, or the end of the rounds of the model.
pub data Call (A : Type 0) : Type 0 where
  returned : ℕ → A → Call A
  unfinished : Call A

-- `DEFAULT_MEMORY_LIMIT`
abbrev pub default_memory_limit : ℕ
default_memory_limit = 2 ^ (10 + 10 + 5) + 56

module _ {W : Type 0} where
  abbrev pub input_of : Channel W → BufferedIStream (Socket W)
  input_of c = record {
    buffer = c.buffer;
    stream = c.sock;
    read_pos = c.read_pos;
    reserve_pos = c.input_reserve_pos;
  }

  abbrev pub with_input : Channel W → BufferedIStream (Socket W) → Channel W
  with_input c i = record c {
    buffer = i.buffer;
    sock = i.stream;
    read_pos = i.read_pos;
    input_reserve_pos = i.reserve_pos;
  }

  abbrev pub output_of : Channel W → BufferedOStream (Socket W)
  output_of c = record { buffer = c.buffer; stream = c.sock; reserve_pos = c.output_reserve_pos }

  abbrev pub with_output : Channel W → BufferedOStream (Socket W) → Channel W
  with_output c o = record c {
    buffer = o.buffer;
    sock = o.stream;
    output_reserve_pos = o.reserve_pos;
  }

  -- `BufferedIStream_reset(&this->input)`
  abbrev pub input_reset : Channel W → Channel W
  input_reset c = with_input c (reset_input (input_of c))

  -- `TSCLIENT_Channel_setMemoryLimit`
  unfoldable pub set_memory_limit : Allocator → Channel W → ℕ → Option (Channel W)
  set_memory_limit mem c size = do
    buffer ← DynamicBuffer.set_max_size mem c.buffer size
    some (record c { buffer = buffer })

  module _ (mem : Allocator) (sys : System W) where
    -- `socketRead`
    unfoldable pub socket_read : ReadFun (Socket W)
    unfolding receive_bytes
    socket_read = receive_bytes sys

    -- `socketWrite`
    unfoldable pub socket_write : WriteFun (Socket W)
    unfolding send_bytes
    socket_write = send_bytes sys

    -- `initialize` of Channel.c; `allocated` is whether malloc(3) gives the memory of the name, and
    -- `c` the channel's memory before the call.
    unfoldable pub initialize_channel :
        Bool → Channel W → List ℕ → ℕ → PayloadType → Option (ErrorCode × Channel W)
    unfolding initialize_socket initialize_input tstorage_clients.BufferedOStream.initialize
    initialize_channel allocated c host port type =
        if allocated
        then (do
          (res, buffer) ← DynamicBuffer.initialize mem c.buffer default_memory_limit 0
          let c' : Channel W = record c {
            host = host;
            port = port;
            payload_type = type;
            buffer = buffer;
          }
          if is_ok res
              then (do
                let sock : Socket W = initialize_socket c.sock
                let c'' : Channel W = with_input c' (initialize_input buffer sock)
                some (
                  res,
                  with_output c'' (tstorage_clients.BufferedOStream.initialize buffer sock),
                ))
              else some (res, c'))
        else some (resource, c)

    -- `TSCLIENT_Channel_new`
    unfoldable pub new_channel :
        Bool → Bool → Channel W → List ℕ → ℕ → PayloadType → Option (Option (Channel W))
    new_channel allocated named c host port type =
        if allocated
        then (do
          (res, c') ← initialize_channel named c host port type
          some (if is_ok res then some c' else none))
        else some none

    -- `TSCLIENT_Channel_setTimeout`: the result is ENOTSOCK for a channel that is not open.
    unfoldable pub set_channel_timeout : ℕ → Channel W → ℕ → Option (ℕ × Channel W)
    set_channel_timeout not_a_socket c timeout =
        if not (is_open c.sock) then some (not_a_socket, c) else (do
          (res, sock) ← set_timeout sys c.sock timeout
          some ((if is_ok res then 0 else 1), record c { sock = sock }))

    -- `TSCLIENT_Channel_connect`
    unfoldable pub connect_channel : Channel W → Option (ℕ × Channel W)
    unfolding reset_input tstorage_clients.BufferedOStream.reset
    connect_channel c = if is_open c.sock then some (response_status invalid, c) else (do
      let c' : Channel W = with_output c (tstorage_clients.BufferedOStream.reset (output_of c))
      let c'' : Channel W = input_reset c'
      (res, sock) ← open_socket sys c''.sock c''.host c''.port
      some (response_status res, record c'' { sock = sock }))

    -- `TSCLIENT_Channel_close`
    unfoldable pub close_channel : Channel W → Option (ℕ × Channel W)
    close_channel c = if not (is_open c.sock) then some (response_status invalid, c) else (do
      (res, sock) ← close_socket sys c.sock
      some (response_status res, record c { sock = sock }))

    -- `TSCLIENT_Channel_close(this); return status;`
    abbrev pub closing : {A : Type 0} → Channel W → ℕ → (Channel W → A) → Option (Call A)
    closing c status result = do (_, c') ← close_channel c; some (returned status (result c'))

    -- The end of the requests that ask for confirmation: the response's status decides whether the
    -- channel is closed, and the input is reset.
    unfoldable pub conclude : {A : Type 0} → Channel W → ℕ → (Channel W → A) → Option (Call A)
    unfolding reset_input
    conclude c status result =
        if status == 0
        then some (returned status (result (input_reset c)))
        else (do (_, c') ← close_channel c; some (returned status (result (input_reset c'))))

    -- The request is written and flushed, or the channel is closed; `next_step` is what follows.
    unfoldable pub request :
        {A : Type 0}
        → Channel W
        → RequestGet
        → (Channel W → A)
        → (Channel W → Option (Call A))
        → Option (Call A)
    unfolding socket_write
    request c r failed next_step = do
      (res, o) ← get_write mem socket_write r (output_of c)
      if is_ok res
          then (do
            (res', o') ← flush socket_write o
            if is_ok res'
                then next_step (with_output c o')
                else closing (with_output c o') (response_status res') failed)
          else closing (with_output c o) (response_status res) failed

    -- The confirmation is read; `junk` is the memory of the response. The results are the channel,
    -- and `*acq`, which keeps `acq` unless there is a new one.
    unfoldable pub confirmation :
        {A : Type 0}
        → ResponseGetConfirmation
        → Channel W
        → ℕ
        → (ℕ → Channel W → A)
        → Option (Call A)
    unfolding socket_read
    confirmation junk c acq result = do
      (res, response, i) ← read_confirmation mem socket_read junk (input_of c)
      let c' : Channel W = with_input c i
      if is_ok res
          then (if response.base.result == 0
              then conclude c' response.base.result (result response.acq)
              else conclude c' response.base.result (result acq))
          else closing c' (response_status res) (result acq)

    -- `TSCLIENT_Channel_getAcq`: the channel and `*acq`.
    unfoldable pub get_acq_channel :
        ResponseGetConfirmation → Channel W → Key → Key → ℕ → Option (Call (Channel W × ℕ))
    unfolding initialize_get_acq
    get_acq_channel junk c key_min key_max acq =
        request c (initialize_get_acq key_min key_max) (λ c'. (c', acq))
          (λ c'. confirmation junk c' acq (λ acq' c''. (c'', acq')))

    -- `commonPut`, for a number of rounds of its loop.
    unfoldable pub common_put :
        ResponsePut
        → ℕ
        → Channel W
        → RequestPut
        → WriteSetFun (Socket W)
        → Option (Call (Channel W))
    unfolding socket_read socket_write
    common_put junk rounds c r write_set = do
      p ← put_write mem socket_write r write_set rounds (output_of c)
      elim p [
        | running ↦ some unfinished
        | finished res o ↦
            if is_ok res
            then (do
              (res', o') ← flush socket_write o
              let c' : Channel W = with_output c o'
              if is_ok res'
                  then (do
                    (res'', response, i) ← read_put mem socket_read junk (input_of c')
                    if is_ok res''
                        then conclude (with_input c' i) response.base.result (λ c''. c'')
                        else closing (with_input c' i) (response_status res'') (λ c''. c''))
                  else closing c' (response_status res') (λ c''. c''))
            else closing (with_output c o) (response_status res) (λ c''. c'')
      ]

    -- `TSCLIENT_Channel_put`
    unfoldable pub put_channel :
        ResponsePut → ℕ → Channel W → RecordsSet → Option (Call (Channel W))
    unfolding initialize_put_safe write_put_safe socket_write
    put_channel junk rounds c records =
        common_put junk rounds c (initialize_put_safe records) (write_put_safe mem socket_write)

    -- `TSCLIENT_Channel_puta`
    unfoldable pub puta_channel :
        ResponsePut → ℕ → Channel W → RecordsSet → Option (Call (Channel W))
    unfolding initialize_puta_safe write_puta_safe socket_write
    puta_channel junk rounds c records =
        common_put junk rounds c (initialize_puta_safe records) (write_puta_safe mem socket_write)

    module _ (raw : DynamicBuffer) (slot : Record) (junk : ResponseGetConfirmation) where
      -- `TSCLIENT_Channel_get`, for a number of rounds of RecordsSet_read: the channel, `*acq` and
      -- `*data`. `junk_get` is the memory of the response, and `allocated` whether malloc(3) gives
      -- the memory of the set of records.
      unfoldable pub get_channel :
          Bool
          → ResponseGet
          → ℕ
          → Channel W
          → Key
          → Key
          → ℕ
          → Option (Call (Channel W × ℕ × Option RecordsSet))
      unfolding initialize_get socket_read
      get_channel allocated junk_get rounds c key_min key_max acq =
          request c (initialize_get key_min key_max) (λ c'. (c', acq, none))
            λ c'. do
              r ←
                  read_get mem socket_read raw slot c'.payload_type allocated rounds junk_get
                    (input_of c')
              elim r [
                | reading ↦ some unfinished
                | received res (response, i) ↦
                    let c'' : Channel W = with_input c' i in
                    let failed : Channel W → Channel W × ℕ × Option RecordsSet =
                      λ d. (d, acq, response.records) in
                    if is_ok res
                    then (if response.base.result == 0
                        then confirmation junk c'' acq (λ acq' d. (d, acq', response.records))
                        else closing c'' response.base.result failed)
                    else closing c'' (response_status res) failed
              ]

      -- `TSCLIENT_Channel_getStream`: the channel, `*acq`, and the records of each call of the
      -- user's function.
      unfoldable pub get_stream_channel :
          ResponseHeader
          → ℕ
          → Channel W
          → Key
          → Key
          → ℕ
          → Option (Call (Channel W × ℕ × List (List Record)))
      unfolding initialize_get socket_read
      get_stream_channel junk_header rounds c key_min key_max acq =
          request c (initialize_get key_min key_max) (λ c'. (c', acq, []))
            λ c'. do
              r ←
                  read_get_with_callback mem socket_read raw slot c'.payload_type rounds junk_header
                    (input_of c')
              elim r [
                | reading ↦ some unfinished
                | received res (base, i, chunks) ↦
                    let c'' : Channel W = with_input c' i in
                    let failed : Channel W → Channel W × ℕ × List (List Record) =
                      λ d. (d, acq, chunks) in
                    if is_ok res
                    then (if base.result == 0
                        then confirmation junk c'' acq (λ acq' d. (d, acq', chunks))
                        else closing c'' base.result failed)
                    else closing c'' (response_status res) failed
              ]

-- `finalize` of Channel.c, by TSCLIENT_Channel_destroy: the socket is left as it is.
unfoldable pub finalize_channel : {W : Type 0} → Channel W → Channel W
unfolding tstorage_clients.BufferedOStream.finalize finalize_input finalize_socket
finalize_channel c =
    record (with_input (with_output c (tstorage_clients.BufferedOStream.finalize (output_of c)))
      (finalize_input (input_of c))) {
        buffer = DynamicBuffer.finalize c.buffer;
        sock = finalize_socket c.sock;
        host = [];
      }
