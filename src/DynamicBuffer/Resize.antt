-- ===== src/DynamicBuffer/Resize.antt =====
-- What c/src/DynamicBuffer.c promises of DynamicBuffer_resize and its neighbours.
use tstorage_clients.Prelude.{
  Bool-cases, Option-cases, Returns, arith, false, inl, inr, length, le→leb, ltb, ltb→le, ltb→lt,
  min, take, take_all, ℕ, ◌*◌, ◌<◌, ◌==◌, ◌≡◌, ◌≢◌, ◌≤◌, ◌⊎◌,
}
use tstorage_clients.Memory.{Allocator, Generous, size_max}
use tstorage_clients.ErrorCode.{ErrorCode, limit, ok, resource}
use tstorage_clients.DynamicBuffer.{DynamicBuffer, grow, grown, resize, set_size}

-- The block has the size that the buffer says, within its limit.
pub record IsBuffer (b : DynamicBuffer) : Type 0 where
  pub within : b.size ≤ b.max_size
  pub sized : length b.storage ≡ b.size
  pub bounded : b.max_size ≤ size_max

-- What a resize to `size` bytes may do to the buffer.
pub record ResizedCore (b : DynamicBuffer) (size : ℕ) (r : ErrorCode × DynamicBuffer) : Type 0 where
  pub valid : IsBuffer r.1
  pub same_limit : r.1.max_size ≡ b.max_size
  pub codes : (r.0 ≡ ok) ⊎ (r.0 ≡ limit) ⊎ (r.0 ≡ resource)
  pub room : r.0 ≡ ok → size ≤ r.1.size
  pub grows : b.size ≤ r.1.size
  pub keeps : take b.size r.1.storage ≡ b.storage
  pub limited : b.max_size < size → r.0 ≡ limit
  pub limit_only : r.0 ≡ limit → b.max_size < size
  pub untouched : r.0 ≢ ok → (r.1.size ≡ b.size) × (r.1.storage ≡ b.storage)

-- What a resize may do, with the reason for ERR_RESOURCE.
pub record Resized (mem : Allocator) (b : DynamicBuffer) (size : ℕ) (r : ErrorCode × DynamicBuffer)
    : Type 0 where
  pub core : ResizedCore b size r
  pub open core use *
  pub refused : r.0 ≡ resource → ¬ Generous mem

module _ (mem : Allocator) where
  -- For a valid buffer and a larger size within the limit, the size that grow asks for is at least
  -- the size requested, at most the limit, and at least twice the old size or the limit.
  pub grown_bounds :
      (b : DynamicBuffer) (size : ℕ)
      → IsBuffer b
      → b.size < size
      → size ≤ b.max_size
      → (size ≤ grown mem b size)
        × (grown mem b size ≤ b.max_size)
        × (min (b.size * 2) b.max_size ≤ grown mem b size)
  unfolding grown
  grown_bounds b size v more fits = ground arith

  -- The one call of realloc(3), for a block no smaller than the old one.
  set_size_up :
      (b : DynamicBuffer) (asked size : ℕ)
      → IsBuffer b
      → b.size < asked
      → asked ≤ size
      → size ≤ b.max_size
      → Returns (Resized mem b asked) (set_size mem b size)
  unfolding set_size
  set_size_up b asked size v more reach fits =
      let positive : (size == 0) ≡ false = ground arith in
      rw (positive, le→leb _ _ fits)
        (elim (Option-cases (mem.realloc b.calls b.storage size)) [
          | inl e ↦ rw e (record {
            core = ground (arith, take_all b.size b.storage);
            refused = λ _ generous. generous b.calls b.storage size e;
          })
          | inr (new, e) ↦ rw e (record {
            core = ground (
              arith,
              mem.realloc_length b.calls b.storage size new e,
              mem.realloc_keeps b.calls b.storage size new e,
            );
            refused = λ h. cc;
          })
        ])

  untouched-Resized :
      (b : DynamicBuffer) (size : ℕ) → IsBuffer b → size ≤ b.size → Resized mem b size (ok, b)
  untouched-Resized b size v h = record {
    core = ground (arith, take_all b.size b.storage);
    refused = λ e. cc;
  }

  limit-Resized :
      (b : DynamicBuffer) (size : ℕ)
      → IsBuffer b
      → b.max_size < size
      → Resized mem b size (limit, b)
  limit-Resized b size v h = record {
    core = ground (arith, take_all b.size b.storage);
    refused = λ e. cc;
  }

  -- DynamicBuffer_resize of a valid buffer does not abort. With ERR_OK the block has the size
  -- asked for at least, and it keeps all old bytes; it fails with ERR_LIMIT exactly when more than
  -- the limit is asked for, and with ERR_RESOURCE only when realloc refused, and then the block is
  -- as it was.
  pub resize_lem :
      (b : DynamicBuffer) (size : ℕ) → IsBuffer b → Returns (Resized mem b size) (resize mem b size)
  unfolding resize grow
  resize_lem b size v = elim (Bool-cases (ltb b.size size)) [
    | inr e ↦ rw e (untouched-Resized b size v (ltb→le _ _ e))
    | inl e ↦ rw e (elim (Bool-cases (ltb b.max_size size)) [
      | inl large ↦ rw large (limit-Resized b size v (ltb→lt _ _ large))
      | inr fits ↦
          let up = ltb→lt _ _ e in
          let small = ltb→le _ _ fits in
          let bounds = grown_bounds b size v up small in
          rw fits (set_size_up b size (grown mem b size) v up bounds.0 bounds.1)
    ])
  ]
