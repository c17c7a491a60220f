-- ===== src/BufferedIStream/Fill.antt =====
-- The stream below a BufferedIStream (c/src/BufferedIStream.c), and the bytes in its buffer.
use tstorage_clients.Prelude.{
  List, Returns, ap, arith, drop, drop-add, drop-take, length, length-drop, length-take, le→leb,
  refl, some, sym, take, take-append-drop, take-take, ℕ, ◌++◌, ◌+◌, ◌-◌, ◌<◌, ◌∙◌, ◌≡◌, ◌≢◌, ◌≤◌,
  ◌⊎◌,
}
use tstorage_clients.Memory.{Allocator, Generous, load, size_max, sub_size}
use tstorage_clients.ErrorCode.{ErrorCode, limit, ok, receive, resource}
use tstorage_clients.BufferedIStream.{BufferedIStream, ReadFun, take_reserved}
use tstorage_clients.DynamicBuffer.Resize.{IsBuffer}
use tstorage_clients.Memory.Store.{load_fits}

-- The underlying stream: `BufferedIStream_read_fun` with what its comment promises. `incoming` are
-- the bytes that are still to come.
pub record Source (S : Type 0) : Type 1 where
  pub read : ReadFun S
  pub Ready : S → Type 0
  pub incoming : S → List ℕ
  pub read_lem :
      (s : S) (size max_size : ℕ)
      → Ready s
      → size ≤ max_size
      → Returns
          (λ r. Ready r.1 × (length r.0 ≤ max_size) × (incoming s ≡ r.0 ++ incoming r.1))
          (read s size max_size)

pub record IsIn {S : Type 0} (i : BufferedIStream S) : Type 0 where
  pub buffered : IsBuffer i.buffer
  pub in_buffer : i.read_pos ≤ i.buffer.size
  pub in_read : i.reserve_pos ≤ i.read_pos

-- What is in the buffer and not reserved yet.
abbrev pub ahead : {S : Type 0} → BufferedIStream S → List ℕ
ahead i = drop i.reserve_pos (take i.read_pos i.buffer.storage)

pub sub_size_of_le : (a b : ℕ) → b ≤ a → a ≤ size_max → sub_size a b ≡ a - b
sub_size_of_le a b h small = omega arith

pub length-ahead :
    {S : Type 0} (i : BufferedIStream S) → IsIn i → length (ahead i) ≡ i.read_pos - i.reserve_pos
length-ahead i v =
    let taken = length-take i.read_pos i.buffer.storage in
    let dropped = length-drop i.reserve_pos (take i.read_pos i.buffer.storage) in
    omega (arith, v.in_buffer, v.buffered.sized)

module _ {S : Type 0} (source : Source S) where
  open source use {read, Ready, incoming, read_lem}

  -- All that is to be reserved yet.
  abbrev pub unread : BufferedIStream S → List ℕ
  unread i = ahead i ++ incoming i.stream

  -- What a reservation of `size` bytes does.
  pub record Received (mem : Allocator) (i : BufferedIStream S) (size : ℕ)
      (r : ErrorCode × ℕ × BufferedIStream S) : Type 0 where
    pub valid : IsIn r.2
    pub ready : Ready r.2.stream
    pub same_limit : r.2.buffer.max_size ≡ i.buffer.max_size
    pub codes : (r.0 ≡ ok) ⊎ (r.0 ≡ limit) ⊎ (r.0 ≡ resource) ⊎ (r.0 ≡ receive)
    pub place : r.0 ≡ ok → (r.1 ≡ i.reserve_pos) × (r.2.reserve_pos ≡ i.reserve_pos + size)
    pub chunk : r.0 ≡ ok → load r.2.buffer.storage r.1 size ≡ some (take size (unread i))
    pub rest : r.0 ≡ ok → unread i ≡ take size (unread i) ++ unread r.2
    pub unchanged : r.0 ≢ ok → (r.2.read_pos ≡ i.read_pos) × (r.2.reserve_pos ≡ i.reserve_pos)
    pub limit_only : r.0 ≡ limit → i.buffer.max_size < i.reserve_pos + size
    pub refused : r.0 ≡ resource → ¬ Generous mem

module _ {S : Type 0} (i : BufferedIStream S) (size : ℕ) (v : IsIn i) where
  pub take_reserved_fits :
      size ≤ i.read_pos - i.reserve_pos
      → take_reserved i size
        ≡ some (ok, i.reserve_pos, record i { reserve_pos = i.reserve_pos + size })
  unfolding take_reserved
  take_reserved_fits h =
      let small : i.read_pos ≤ size_max =
        omega (arith, v.in_buffer, v.buffered.within, v.buffered.bounded) in
      rw
        (
          le→leb _ _ v.in_buffer,
          sub_size_of_le i.read_pos i.reserve_pos v.in_read small,
          le→leb _ _ h,
        )
        refl

  -- The bytes that a reservation points at are the first ones of those that are ahead.
  pub load-ahead :
      size ≤ i.read_pos - i.reserve_pos
      → load i.buffer.storage i.reserve_pos size ≡ some (take size (ahead i))
  load-ahead h =
      load_fits i.buffer.storage i.reserve_pos size
        (omega (arith, v.in_buffer, v.in_read, v.buffered.sized))
      ∙ ap some (sym window)
    where
      k : ℕ
      k = i.read_pos - i.reserve_pos

      reach : i.read_pos ≡ i.reserve_pos + k
      reach = omega (arith, v.in_read)

      window : take size (ahead i) ≡ take size (drop i.reserve_pos i.buffer.storage)
      window =
          ap (λ (n : ℕ). take size (drop i.reserve_pos (take n i.buffer.storage))) reach
          ∙ ap (take size) (drop-take i.reserve_pos k i.buffer.storage)
          ∙ take-take size k (drop i.reserve_pos i.buffer.storage) h

  pub ahead_split :
      ahead i
      ≡ take size (ahead i) ++ drop (i.reserve_pos + size) (take i.read_pos i.buffer.storage)
  ahead_split =
      sym (take-append-drop size (ahead i))
      ∙ ap (λ t. take size (ahead i) ++ t)
          (sym (drop-add i.reserve_pos size (take i.read_pos i.buffer.storage)))
