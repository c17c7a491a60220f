-- ===== src/Key/Write.antt =====
-- What Key_write and KeyRange_write (c/src/Key.c, c/src/KeyRange.c) put on the wire.
use tstorage_clients.Prelude.{List, Returns, Returns-mono, arith, length, refl, ℕ, ◌++◌, ◌+◌, ◌≡◌}
use tstorage_clients.Memory.{Allocator, store}
use tstorage_clients.BufferedOStream.{BufferedOStream}
use tstorage_clients.BufferedOStream.Emit.{Emitted, write_with_lem}
use tstorage_clients.BufferedOStream.Flush.{Sink}
use tstorage_clients.BufferedOStream.Reserve.{IsOut}
use tstorage_clients.BufferedOStream.Sequence.{Emitted→Written, Written, then_Written}
use tstorage_clients.Bytes.{le_bytes, length-le_bytes, store-step}
use tstorage_clients.Key.{Key, KeyRange, key_write, range_write, serialize_key}

-- A key in the order of the protocol: cid, mid, moid, cap, acq.
abbrev pub key_bytes : Key → List ℕ
key_bytes k =
    le_bytes 4 k.cid
    ++ (le_bytes 8 k.mid ++ (le_bytes 4 k.moid ++ (le_bytes 8 k.cap ++ le_bytes 8 k.acq)))

pub length-key_bytes : (k : Key) → length (key_bytes k) ≡ 32
unfolding le_bytes
length-key_bytes k = refl

pub serialize_key-bytes :
    (k : Key) (mem : List ℕ) (at : ℕ) → serialize_key k mem at ≡ store mem at (key_bytes k)
unfolding serialize_key
serialize_key-bytes k mem at = store-step mem at 4 _ _ _ (length-le_bytes 4 k.cid) λ m₁.
    store-step m₁ (at + 4) 8 _ _ _ (length-le_bytes 8 k.mid) λ m₂.
      store-step m₂ (at + 4 + 8) 4 _ _ _ (length-le_bytes 4 k.moid)
        λ m₃. store-step m₃ (at + 4 + 8 + 4) 8 _ _ _ (length-le_bytes 8 k.cap) λ m₄. refl

abbrev pub range_bytes : KeyRange → List ℕ
range_bytes r = key_bytes r.lo ++ key_bytes r.hi

module _ {S : Type 0} (sink : Sink S) (mem : Allocator) where
  open sink use {write, Ready}

  pub key_write_lem :
      (k : Key) (o : BufferedOStream S)
      → IsOut o
      → Ready o.stream
      → Returns (Emitted sink mem o (key_bytes k)) (key_write mem write k o)
  unfolding key_write le_bytes
  key_write_lem k o v w =
      write_with_lem sink mem (serialize_key k) (key_bytes k) o (serialize_key-bytes k) v w

  key_write-Written :
      (k : Key) (o : BufferedOStream S)
      → IsOut o
      → Ready o.stream
      → Returns (Written sink mem o 32 (key_bytes k)) (key_write mem write k o)
  key_write-Written k o v w =
      Returns-mono _ _ _ (key_write_lem k o v w)
        (λ r p. Emitted→Written sink mem o 32 (key_bytes k) r (omega (arith, length-key_bytes k)) p)

  -- On a valid stream that is ready, KeyRange_write does not abort. With ERR_OK the bytes of the
  -- two keys are appended to the output; ERR_LIMIT and ERR_RESOURCE have their reasons.
  pub range_write_lem :
      (r : KeyRange) (o : BufferedOStream S)
      → IsOut o
      → Ready o.stream
      → Returns (Written sink mem o 32 (range_bytes r)) (range_write mem write r o)
  unfolding range_write
  range_write_lem r o v w =
      then_Written sink mem o 32 (key_bytes r.lo) (key_bytes r.hi) _ _
        (key_write-Written r.lo o v w) (λ o' v' w' _. key_write-Written r.hi o' v' w')
