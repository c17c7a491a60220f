-- ===== src/Cpp/Serializer/Fields.antt =====
-- What the put functions of cpp/libtstorageclient++/src/Serializer.cpp append to the buffer.
use tstorage_clients.Prelude.{
  Bool, List, Option, Returns, Returns-bind, Returns-mono, arith, length, le→leb, ℕ, ◌++◌, ◌+◌,
  ◌>>=◌, ◌≤◌,
}
use tstorage_clients.Bytes.{le_bytes, length-le_bytes}
use tstorage_clients.Cpp.Buffer.{Buffer, bytes_free, write_advance}
use tstorage_clients.Cpp.Buffer.Contents.{
  Put, Sound, Stored, bytes_free-room, room, then_Put, write_at-Put,
}
use tstorage_clients.Cpp.Serializer.{Header, put, put_header, put_header_key_range, put_key}
use tstorage_clients.Cpp.Serializer.Values.{put_bytes_lem}
use tstorage_clients.Key.{Key}
use tstorage_clients.Key.Write.{key_bytes}
use tstorage_clients.Request.Write.{get_bytes}
use mathlib.Core.Path.{subst}

module _ (is_be : Bool) where
  pub put_lem :
      (b : Buffer) (m : List ℕ) (width v : ℕ)
      → Sound b m
      → width ≤ room b
      → Returns (Put b m (le_bytes width v)) (put is_be b width v)
  unfolding put
  put_lem b m width v s h =
      let e = length-le_bytes width v in
      let assertion = le→leb width (bytes_free b) (omega (arith, bytes_free-room b m s)) in
      rw (assertion, (put_bytes_lem is_be width v).0)
        (Returns-bind (Stored b m (le_bytes width v)) (Put b m (le_bytes width v)) _ _
          (write_at-Put b m (le_bytes width v) s (omega (arith, e)))
          (λ b' p. subst (λ (n : ℕ). Put b m (le_bytes width v) (write_advance b' n)) e p.0))

  -- A field, and the fields behind it.
  pub put_then :
      (b : Buffer) (m : List ℕ) (width v : ℕ) (cs : List ℕ) (k : Buffer → Option Buffer)
      → Sound b m
      → width + length cs ≤ room b
      → ((b' : Buffer) (m' : List ℕ)
          → Sound b' m'
          → length cs ≤ room b'
          → Returns (Put b' m' cs) (k b'))
      → Returns (Put b m (le_bytes width v ++ cs)) (put is_be b width v >>= k)
  put_then b m width v cs k s h more =
      Returns-bind (Put b m (le_bytes width v)) (Put b m (le_bytes width v ++ cs)) _ k
        (put_lem b m width v s (omega arith))
        λ b' p.
          Returns-mono (Put b' p.block' cs) (Put b m (le_bytes width v ++ cs)) _
            (more b' p.block' p.sound
              (omega (arith, p.same_size, p.moved, length-le_bytes width v)))
            (λ b'' q. then_Put b m (le_bytes width v) cs b' b'' p q)

  pub put_key_lem :
      (b : Buffer) (m : List ℕ) (k : Key)
      → Sound b m
      → 32 ≤ room b
      → Returns (Put b m (key_bytes k)) (put_key is_be b k)
  unfolding put_key le_bytes
  put_key_lem b m k s h = put_then b m 4 k.cid _ _ s h λ b₁ m₁ s₁ h₁.
      put_then b₁ m₁ 8 k.mid _ _ s₁ h₁ λ b₂ m₂ s₂ h₂.
        put_then b₂ m₂ 4 k.moid _ _ s₂ h₂
          λ b₃ m₃ s₃ h₃. put_then b₃ m₃ 8 k.cap _ _ s₃ h₃ λ b₄ m₄ s₄ h₄. put_lem b₄ m₄ 8 k.acq s₄ h₄

  pub put_header_lem :
      (b : Buffer) (m : List ℕ) (h : Header)
      → Sound b m
      → 12 ≤ room b
      → Returns (Put b m (le_bytes 4 h.id ++ le_bytes 8 h.data_size)) (put_header is_be b h)
  unfolding put_header le_bytes
  put_header_lem b m h s r =
      put_then b m 4 h.id _ _ s r λ b₁ m₁ s₁ h₁. put_lem b₁ m₁ 8 h.data_size s₁ h₁

  pub put_header_key_range_lem :
      (b : Buffer) (m : List ℕ) (cmd size : ℕ) (lo hi : Key)
      → Sound b m
      → 76 ≤ room b
      → Returns
          (Put b m (
            get_bytes (record {
              base = record { cmd = cmd; size = size };
              key_range = record { lo = lo; hi = hi };
            })))
          (put_header_key_range is_be b
            (record { range_id = cmd; range_data_size = size; min_key = lo; max_key = hi }))
  unfolding put_header_key_range put_key le_bytes
  put_header_key_range_lem b m cmd size lo hi s h = put_then b m 4 cmd _ _ s h λ b₁ m₁ s₁ h₁.
      put_then b₁ m₁ 8 size _ _ s₁ h₁ λ b₂ m₂ s₂ h₂.
        put_then b₂ m₂ 4 lo.cid _ _ s₂ h₂ λ b₃ m₃ s₃ h₃.
          put_then b₃ m₃ 8 lo.mid _ _ s₃ h₃ λ b₄ m₄ s₄ h₄.
            put_then b₄ m₄ 4 lo.moid _ _ s₄ h₄ λ b₅ m₅ s₅ h₅.
              put_then b₅ m₅ 8 lo.cap _ _ s₅ h₅ λ b₆ m₆ s₆ h₆.
                put_then b₆ m₆ 8 lo.acq (key_bytes hi) _ s₆ h₆
                  λ b₇ m₇ s₇ h₇. put_key_lem b₇ m₇ hi s₇ h₇
