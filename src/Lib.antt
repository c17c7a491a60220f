-- ===== src/Lib.antt =====
-- The C client of TStorage (c/src, c/include/tstorage-client/client.h) and the C++ client
-- (cpp/libtstorageclient++): a channel to a server over TCP, on which a user stores records and asks
-- for them.
--
-- The parts, from the bottom up, and the files that model them:
--   Memory        blocks of bytes: memcpy and memmove within a block, size_t arithmetic of 64 bits, and
--                 realloc(3), which is a parameter (Allocator). A copy past a block's end is `none`.
--   ErrorCode     c/src/ErrorCode.h.
--   Bytes         integers in memory, on a little-endian host; an integer is its bit pattern.
--   DynamicBuffer c/src/DynamicBuffer.c: set_size, grow, resize are setSize, grow,
--                 DynamicBuffer_resize, and so on. A buffer is its limit, its size and its block.
--   DynamicArray  c/src/DynamicArray.c, on a DynamicBuffer.
--   BufferedOStream, BufferedIStream
--                 c/src/BufferedOStream.c and BufferedIStream.c: streams that reserve space in a
--                 DynamicBuffer. The stream below is an interface, Sink or Source, with the contract
--                 that the comments of BufferedOStream_write_fun and BufferedIStream_read_fun give.
--   Key, Request  c/src/Key.c, KeyRange.h, KeyRange.c, MsgType.h, RequestHeader.c, RequestGet.c.
--   Record        c/src/Record.c; the user's functions are a PayloadType, and their documented contract
--                 is Encodes. Record.Format is the interface between records and batches.
--   Put           writeCidBatch and commonWrite of c/src/RecordsSet.c: `batch_loop` is the loop over
--                 the records, `place` and `enlarge` its body, `finish_batch` what follows it.
--   RecordsSet    the rest of c/src/RecordsSet.c: the set of records and how it is read.
--   RequestPut    c/src/RequestPut.c, and the two write functions of c/src/RecordsSet.c.
--   Response      c/src/ResponseHeader.c, ResponsePut.c, ResponseGet.c, ResponseGetConfirmation.c,
--                 ResponseGetWithCallback.c.
--   Socket        c/src/Socket.c; the system calls are a parameter (System), and what a connection
--                 promises is Network, and what getaddrinfo(3) promises is Resolver. Socket.Streams makes a
--                 Sink and a Source of an open socket.
--   Channel       c/src/Channel.c: the two streams of a channel share its buffer and its socket.
--   Timestamp     c/src/timestamp.c.
--   Cpp           the C++ client, in the directories src and include/tstorageclient++ of
--                 cpp/libtstorageclient++:
--     DataTypes       DataTypes.h and DataTypes.cpp; a Key is the C client's.
--     Buffer          Buffer.cpp: a block of a fixed size; the null pointer is `none`.
--     Serializer      Serializer.cpp and Headers.h, on a host of either byte order (`is_be`).
--     Batch           BatchSerializer.cpp: `put_record` and `end_batch` are putRecord and endBatch. A
--                     pointer into a block that was freed, or into none, is `none`. Batch.Wire says what
--                     the records of a request are on the wire.
--     Socket          Socket.cpp; the system calls are a parameter (Host), and what they promise is
--                     Platform.
--     ChannelImpl     ChannelImpl.h and ChannelImpl.cpp, with its requests and its responses.
--     Channel         Channel.tpp; the user's PayloadType is a PayloadFormat, its promise a Contract.
--   Examples      the theorems at concrete inputs.
--
-- State is passed on explicitly: an operation takes the state before it and returns the result, what
-- it stores through its pointers, and the state after it. A pointer into a block is an offset. `none`
-- is an assertion that fails, a copy out of bounds, or an int64_t of Timestamp that overflows; that a
-- theorem says `Returns` means that there
-- is none. A structure that C leaves uninitialised is an argument, the memory that it was.
--
-- Bounds: the loop of commonWrite and those of RecordsSet_read and RecordsSet_readWithCallback run for
-- a number of rounds, and end as `running` or `reading` if these are used up; for commonWrite two
-- rounds for each record and one more are enough, unless realloc(3) refuses, and for RecordsSet_read
-- a quarter of the buffer's limit, since a round takes four bytes. Socket_send and
-- Socket_receive run for as many rounds as there are bytes, which is enough because a round transfers
-- one byte or ends the loop.
--
-- The loops of the C++ socket run for as many rounds as there are bytes in the same way; those of get
-- and getStream are bounded by a number of rounds, and end as `unfinished` if these are used up.
--
-- Not modelled: the layout of a record in memory, which is the compiler's (a RecordsSet has the list of
-- its records beside the array that holds them); errno; a user's function that changes the set of
-- records it is called with; the example programs; ChannelBase and the
-- response classes of the C++ client, which only pass values on, and its time functions; the clients in
-- other languages (csharp, java, python).
pub mod Prelude
pub mod Memory
pub mod ErrorCode
pub mod Bytes
pub mod DynamicBuffer
pub mod BufferedOStream
pub mod Key
pub mod Request
pub mod Record
pub mod DynamicArray
pub mod BufferedIStream
pub mod RecordsSet
pub mod Put
pub mod RequestPut
pub mod Response
pub mod Socket
pub mod Channel
pub mod Timestamp
pub mod Cpp
pub mod Examples
