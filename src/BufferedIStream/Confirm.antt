-- ===== src/BufferedIStream/Confirm.antt =====
-- What BufferedIStream_confirm (c/src/BufferedIStream.c) promises.
use tstorage_clients.Prelude.{
  Bool-cases, List, Returns, ap, arith, drop, drop-take, false, inl, inr, length, length-drop,
  length-take, ltb, ltb→le, refl, some, sym, take, take-append_self, ℕ, ◌++◌, ◌+◌, ◌-◌, ◌∙◌, ◌≡◌,
  ◌≤◌,
}
use tstorage_clients.Memory.{move_down, store, sub_size}
use tstorage_clients.BufferedIStream.{BufferedIStream, confirm_input}
use tstorage_clients.BufferedIStream.Fill.{IsIn, Source, ahead, sub_size_of_le, unread}
use tstorage_clients.Memory.Store.{length-store, load_fits, store_fits}

module _ {S : Type 0} (source : Source S) where
  -- What a confirmation leaves.
  pub record Confirmed (i j : BufferedIStream S) : Type 0 where
    pub valid : IsIn j
    pub same_stream : j.stream ≡ i.stream
    pub at_start : j.reserve_pos ≡ 0
    pub fewer : j.read_pos + i.reserve_pos ≡ i.read_pos
    pub same_size : j.buffer.size ≡ i.buffer.size
    pub same_limit : j.buffer.max_size ≡ i.buffer.max_size
    pub unread_kept : unread source j ≡ unread source i

  ahead-window :
      (i : BufferedIStream S)
      → IsIn i
      → ahead i ≡ take (i.read_pos - i.reserve_pos) (drop i.reserve_pos i.buffer.storage)
  ahead-window i v =
      let reach : i.read_pos ≡ i.reserve_pos + (i.read_pos - i.reserve_pos) =
        omega (arith, v.in_read) in
      ap (λ (n : ℕ). drop i.reserve_pos (take n i.buffer.storage)) reach
      ∙ drop-take i.reserve_pos (i.read_pos - i.reserve_pos) i.buffer.storage

  moved :
      (i : BufferedIStream S) (storage : List ℕ) (k : ℕ)
      → IsIn i
      → k ≡ i.read_pos - i.reserve_pos
      → length storage ≡ length i.buffer.storage
      → take k storage ≡ ahead i
      → Confirmed i (record i {
        buffer = record (i.buffer) { storage = storage };
        reserve_pos = 0;
        read_pos = k;
      })
  moved i storage k v count len same = record {
    valid = record {
      buffered = record {
        within = v.buffered.within;
        sized = len ∙ v.buffered.sized;
        bounded = v.buffered.bounded;
      };
      in_buffer = omega (arith, v.in_buffer, count);
      in_read = omega arith;
    };
    same_stream = refl;
    at_start = refl;
    fewer = omega (arith, v.in_read, count);
    same_size = refl;
    same_limit = refl;
    unread_kept = ap (λ t. t ++ source.incoming (i.stream)) same;
  }

  -- BufferedIStream_confirm of a valid stream does not abort. It gives back the space of what was
  -- reserved, and keeps the bytes that are still to be reserved, in order.
  pub confirm_input_lem : (i : BufferedIStream S) → IsIn i → Returns (Confirmed i) (confirm_input i)
  unfolding confirm_input move_down
  confirm_input_lem i v = rw remaining (elim (Bool-cases (ltb 0 k)) [
    | inl more ↦
        rw (more, load_fits i.buffer.storage i.reserve_pos k long, stored)
          (moved i _ k v refl (length-store i.buffer.storage 0 window _ stored) down)
    | inr none_left ↦ rw none_left (
        moved i i.buffer.storage k v refl refl (
          ap (λ (n : ℕ). take n i.buffer.storage) (empty none_left)
          ∙ sym (ap (λ (n : ℕ). take n (drop i.reserve_pos i.buffer.storage)) (empty none_left))
          ∙ sym (ahead-window i v)))
  ])
    where
      k : ℕ
      k = i.read_pos - i.reserve_pos

      empty : ltb 0 k ≡ false → k ≡ 0
      empty h = let none_there = ltb→le 0 k h in omega arith

      remaining : sub_size i.read_pos i.reserve_pos ≡ k
      remaining =
          sub_size_of_le i.read_pos i.reserve_pos v.in_read
            (omega (arith, v.in_buffer, v.buffered.within, v.buffered.bounded))

      long : i.reserve_pos + k ≤ length i.buffer.storage
      long = omega (arith, v.in_buffer, v.in_read, v.buffered.sized)

      window : List ℕ
      window = take k (drop i.reserve_pos i.buffer.storage)

      window_length : length window ≡ k
      window_length = omega (
        arith,
        length-take k (drop i.reserve_pos i.buffer.storage),
        length-drop i.reserve_pos i.buffer.storage,
        long,
      )

      stored :
          store i.buffer.storage 0 window
          ≡ some (take 0 i.buffer.storage ++ (window ++ drop (0 + length window) i.buffer.storage))
      stored = store_fits i.buffer.storage 0 window (omega (arith, window_length, long))

      down :
          take k (take 0 i.buffer.storage ++ (window ++ drop (0 + length window) i.buffer.storage))
          ≡ ahead i
      down =
          ap (λ (n : ℕ). take n (window ++ drop (0 + length window) i.buffer.storage))
            (sym window_length)
          ∙ take-append_self window _
          ∙ sym (ahead-window i v)
