-- ===== src/Request/Write.antt =====
-- What RequestHeader_write and RequestGet_write (c/src/RequestHeader.c, c/src/RequestGet.c) put on
-- the wire.
use tstorage_clients.Prelude.{List, Returns, Returns-mono, arith, length, refl, ℕ, ◌++◌, ◌≡◌}
use tstorage_clients.Memory.{Allocator, store}
use tstorage_clients.BufferedOStream.{BufferedOStream}
use tstorage_clients.BufferedOStream.Emit.{Emitted, write_with_lem}
use tstorage_clients.BufferedOStream.Flush.{Sink}
use tstorage_clients.BufferedOStream.Reserve.{IsOut}
use tstorage_clients.BufferedOStream.Sequence.{Emitted→Written, Written, then_Written}
use tstorage_clients.Bytes.{le_bytes, length-le_bytes, store-step}
use tstorage_clients.Key.Write.{range_bytes, range_write_lem}
use tstorage_clients.Request.{RequestGet, RequestHeader, get_write, header_write, serialize_header}

abbrev pub header_bytes : RequestHeader → List ℕ
header_bytes h = le_bytes 4 h.cmd ++ le_bytes 8 h.size

pub length-header_bytes : (h : RequestHeader) → length (header_bytes h) ≡ 12
unfolding le_bytes
length-header_bytes h = refl

serialize_header-bytes :
    (h : RequestHeader) (mem : List ℕ) (at : ℕ)
    → serialize_header h mem at ≡ store mem at (header_bytes h)
unfolding serialize_header
serialize_header-bytes h mem at = store-step mem at 4 _ _ _ (length-le_bytes 4 h.cmd) λ m₁. refl

abbrev pub get_bytes : RequestGet → List ℕ
get_bytes r = header_bytes r.base ++ range_bytes r.key_range

module _ {S : Type 0} (sink : Sink S) (mem : Allocator) where
  open sink use {write, Ready}

  pub header_write_lem :
      (h : RequestHeader) (o : BufferedOStream S)
      → IsOut o
      → Ready o.stream
      → Returns (Emitted sink mem o (header_bytes h)) (header_write mem write h o)
  unfolding header_write le_bytes
  header_write_lem h o v w =
      write_with_lem sink mem (serialize_header h) (header_bytes h) o (serialize_header-bytes h) v w

  -- On a valid stream that is ready, RequestGet_write does not abort. With ERR_OK the header and
  -- the two keys of the range are appended to the output; ERR_LIMIT and ERR_RESOURCE have their
  -- reasons.
  pub get_write_lem :
      (r : RequestGet) (o : BufferedOStream S)
      → IsOut o
      → Ready o.stream
      → Returns (Written sink mem o 32 (get_bytes r)) (get_write mem write r o)
  unfolding get_write
  get_write_lem r o v w =
      then_Written sink mem o 32 (header_bytes r.base) (range_bytes r.key_range) _ _
        (Returns-mono _ _ _ (header_write_lem r.base o v w) (λ t p.
          Emitted→Written sink mem o 32 (header_bytes r.base) t
            (omega (arith, length-header_bytes r.base)) p))
        (λ o' v' w' _. range_write_lem sink mem r.key_range o' v' w')
