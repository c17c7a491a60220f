-- ===== src/DynamicArray/Emplace.antt =====
-- What DynamicArray_emplaceBack (c/src/DynamicArray.c) promises.
use tstorage_clients.Prelude.{
  ==_iff, Bool-cases, Option, Returns, Returns-bind, arith, assert, if◌then◌else◌, inl, inr, leb,
  le→leb, ltb, ltb→le, ltb→lt, refl, some, take, take_all, true, ℕ, ◌*◌, ◌+◌, ◌/◌, ◌<◌, ◌==◌, ◌>>=◌,
  ◌>>◌, ◌≡◌, ◌≢◌, ◌≤◌, ◌⊎◌,
}
use tstorage_clients.Memory.{Allocator, Generous, mul_size, size_max}
use tstorage_clients.ErrorCode.{ErrorCode, is_ok, is_ok→eq, is_ok→ne, limit, ok, resource}
use tstorage_clients.DynamicArray.{DynamicArray, capacity, emplace_back, reserve_capacity}
use tstorage_clients.DynamicBuffer.{DynamicBuffer}
use tstorage_clients.DynamicBuffer.Resize.{IsBuffer, Resized, resize_lem}
use tstorage_clients.DynamicBuffer
use native.Mathlib.Nat.{div-lt_iff_lt-mul, le-div_iff_mul-le, le-mul_of_pos_right}

-- The array's block is valid, and its elements are within it.
pub record IsArray (a : DynamicArray) : Type 0 where
  pub buffered : IsBuffer a.buffer
  pub has_size : 0 < a.elem_size
  pub in_buffer : a.size * a.elem_size ≤ a.buffer.size

small_product : (n k : ℕ) → n * k ≤ size_max → mul_size n k ≡ n * k
small_product n k h = omega arith

module _ (mem : Allocator) where
  -- What an element at the end does: with ERR_OK the array is one element longer, and `elem` is
  -- the offset behind the old elements, which are kept; else the array is as long as before.
  pub record Emplaced (a : DynamicArray) (r : ErrorCode × ℕ × DynamicArray) : Type 0 where
    pub valid : IsArray r.2
    pub same_elem : r.2.elem_size ≡ a.elem_size
    pub codes : (r.0 ≡ ok) ⊎ (r.0 ≡ limit) ⊎ (r.0 ≡ resource)
    pub place : r.0 ≡ ok → r.1 ≡ a.size * a.elem_size
    pub longer : r.0 ≡ ok → r.2.size ≡ a.size + 1
    pub same_size : r.0 ≢ ok → r.2.size ≡ a.size
    pub keeps : take a.buffer.size r.2.buffer.storage ≡ a.buffer.storage
    pub limit_only : r.0 ≡ limit → a.buffer.max_size < (a.size + 1) * a.elem_size
    pub refused : r.0 ≡ resource → ¬ Generous mem

  module _ (a : DynamicArray) (elem : ℕ) (v : IsArray a) where
    full : size_max < (a.size + 1) * a.elem_size → Emplaced a (limit, elem, a)
    full h = record {
      valid = v;
      same_elem = refl;
      codes = inr (inl refl);
      place = λ e. absurd (ground (arith, e));
      longer = λ e. absurd (ground (arith, e));
      same_size = λ _. refl;
      keeps = take_all a.buffer.size a.buffer.storage (omega (arith, v.buffered.sized));
      limit_only = λ _. omega (arith, h, v.buffered.bounded);
      refused = λ e. absurd (ground (arith, e));
    }

    grown_array :
        (r : ErrorCode × DynamicBuffer)
        → Resized mem a.buffer ((a.size + 1) * a.elem_size) r
        → r.0 ≡ ok
        → Emplaced a (ok, a.size * a.elem_size, record a { buffer = r.1; size = a.size + 1 })
    grown_array r p e = record {
      valid = record { buffered = p.valid; has_size = v.has_size; in_buffer = p.room e };
      same_elem = refl;
      codes = inl refl;
      place = λ _. refl;
      longer = λ _. refl;
      same_size = λ h. absurd (h refl);
      keeps = p.keeps;
      limit_only = λ h. absurd (ground (arith, h));
      refused = λ h. absurd (ground (arith, h));
    }

    not_grown :
        (r : ErrorCode × DynamicBuffer)
        → Resized mem a.buffer ((a.size + 1) * a.elem_size) r
        → r.0 ≢ ok
        → Emplaced a (r.0, elem, record a { buffer = r.1 })
    not_grown r p e = record {
      valid = record {
        buffered = p.valid;
        has_size = v.has_size;
        in_buffer = let grows = p.grows in omega (arith, v.in_buffer);
      };
      same_elem = refl;
      codes = p.codes;
      place = λ h. absurd (e h);
      longer = λ h. absurd (e h);
      same_size = λ _. refl;
      keeps = p.keeps;
      limit_only = p.limit_only;
      refused = p.refused;
    }

    in_capacity :
        (b : DynamicBuffer) → a.buffer.size ≤ b.size → leb a.size (b.size / a.elem_size) ≡ true
    in_capacity b h = le→leb _ _ ((le-div_iff_mul-le v.has_size).1 (omega (arith, v.in_buffer)))

    -- The part behind `reserve`.
    abbrev placed : ErrorCode × DynamicArray → Option (ErrorCode × ℕ × DynamicArray)
    placed t =
        if is_ok t.0
        then (assert (leb t.1.size (t.1.buffer.size / t.1.elem_size))
            >> some (ok, mul_size t.1.size t.1.elem_size, record (t.1) { size = t.1.size + 1 }))
        else some (t.0, elem, t.1)

    after_resize :
        (r : ErrorCode × DynamicBuffer)
        → Resized mem a.buffer ((a.size + 1) * a.elem_size) r
        → Returns (Emplaced a) (placed (r.0, record a { buffer = r.1 }))
    after_resize r p = elim (Bool-cases (is_ok r.0)) [
      | inl e ↦
          let bytes : a.size * a.elem_size ≤ size_max =
            omega (arith, v.in_buffer, v.buffered.within, v.buffered.bounded) in
          rw (e, in_capacity r.1 p.grows, small_product a.size a.elem_size bytes)
            (grown_array r p (is_ok→eq r.0 e))
      | inr e ↦ rw e (not_grown r p (is_ok→ne r.0 e))
    ]

    -- DynamicArray_emplaceBack of a valid array does not abort, and no size wraps around. With
    -- ERR_OK the array is one element longer, the new element starts behind the old ones, which
    -- are kept; a failure leaves the number of elements, ERR_LIMIT means that the longer array
    -- exceeds the limit, and ERR_RESOURCE that realloc refused.
    pub emplace_back_lem : Returns (Emplaced a) (emplace_back mem a elem)
    unfolding emplace_back reserve_capacity capacity
    emplace_back_lem = elim (Bool-cases (a.size == size_max)) [
      | inl most ↦
          let wide = le-mul_of_pos_right (a.size + 1) v.has_size in
          rw most (full (omega (arith, (==_iff _ _).0 most, wide)))
      | inr less ↦ rw less (elim (Bool-cases (ltb (size_max / a.elem_size) (a.size + 1))) [
        | inl over ↦ rw over (full ((div-lt_iff_lt-mul v.has_size).0 (ltb→lt _ _ over)))
        | inr fits ↦
            let bytes : (a.size + 1) * a.elem_size ≤ size_max =
              (le-div_iff_mul-le v.has_size).0 (ltb→le _ _ fits) in
            rw (fits, small_product (a.size + 1) a.elem_size bytes)
              (Returns-bind (λ t. Returns (Emplaced a) (placed t)) (Emplaced a)
                (DynamicBuffer.resize mem a.buffer ((a.size + 1) * a.elem_size) >>= λ r.
                  some (r.0, record a { buffer = r.1 }))
                placed
                (Returns-bind (Resized mem a.buffer ((a.size + 1) * a.elem_size))
                  (λ t. Returns (Emplaced a) (placed t)) _
                  (λ r. some (r.0, record a { buffer = r.1 }))
                  (resize_lem mem a.buffer ((a.size + 1) * a.elem_size) v.buffered) after_resize)
                (λ _ h. h))
      ])
    ]
