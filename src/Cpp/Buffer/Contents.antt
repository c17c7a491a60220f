-- ===== src/Cpp/Buffer/Contents.antt =====
-- What the buffer of the C++ client holds (cpp/libtstorageclient++/src/Buffer.h, Buffer.cpp).
use tstorage_clients.Prelude.{
  Bool, Bool-cases, List, Option, Returns, Returns-bind, ap, append_assoc, arith, drop, drop-add,
  drop-take, false, inl, inr, leb, length, length-append, length-drop, length-take, le→leb, ltb,
  ltb→le, ltb→lt, lt→leb, refl, some, sym, take, take-append_self, true, ℕ, ◌++◌, ◌+◌, ◌-◌, ◌>>=◌,
  ◌∙◌, ◌≡◌, ◌≤◌,
}
use tstorage_clients.Memory.{add_size, move_down, size_max, store}
use tstorage_clients.BufferedIStream.Fill.{sub_size_of_le}
use tstorage_clients.Cpp.Buffer.{
  Buffer, bytes_available, bytes_free, reserve_target, valid, write_advance, write_at,
}
use tstorage_clients.Memory.Store.{drop-store, length-store, load_fits, store_fits, take-store}

-- A run that starts with a value that is there.
pub Returns-given {ℓ κ} :
    {A : Type ℓ} {B : Type κ} (P : B → Type 0) (o : Option A) (a : A) (f : A → Option B)
    → o ≡ some a
    → Returns P (f a)
    → Returns P (o >>= f)
Returns-given P o a f e h = rw e h

-- A valid buffer with its block: the offsets are in order, and inside.
pub record Sound (b : Buffer) (m : List ℕ) : Type 0 where
  pub has_block : b.block ≡ some m
  pub whole : length m ≡ b.buffer_size
  pub in_order : b.read_offset ≤ b.write_offset
  pub in_bounds : b.write_offset ≤ b.buffer_size
  pub small : b.buffer_size ≤ size_max

-- The bytes before the write location.
abbrev pub filled : Buffer → List ℕ → List ℕ
filled b m = take b.write_offset m

-- The bytes between the read and the write location.
abbrev pub to_read : Buffer → List ℕ → List ℕ
to_read b m = drop b.read_offset (filled b m)

-- The space behind the write location.
abbrev pub room : Buffer → ℕ
room b = b.buffer_size - b.write_offset

module _ (b : Buffer) (m : List ℕ) (v : Sound b m) where
  pub bytes_free-room : bytes_free b ≡ room b
  unfolding bytes_free
  bytes_free-room = sub_size_of_le b.buffer_size b.write_offset v.in_bounds v.small

  pub bytes_available-to_read : bytes_available b ≡ b.write_offset - b.read_offset
  unfolding bytes_available
  bytes_available-to_read =
      sub_size_of_le b.write_offset b.read_offset v.in_order (omega (arith, v.in_bounds, v.small))

  pub valid-Sound : valid b ≡ true
  unfolding valid
  valid-Sound = rw v.has_block refl

  pub length-filled : length (filled b m) ≡ b.write_offset
  length-filled = omega (arith, length-take b.write_offset m, v.in_bounds, v.whole)

  -- The bytes to be read, as one piece of the block.
  pub to_read-window : take (b.write_offset - b.read_offset) (drop b.read_offset m) ≡ to_read b m
  to_read-window =
      sym (drop-take b.read_offset (b.write_offset - b.read_offset) m)
      ∙ ap (λ (k : ℕ). drop b.read_offset (take k m)) sum
    where
      sum : b.read_offset + (b.write_offset - b.read_offset) ≡ b.write_offset
      sum = omega (arith, v.in_order)

-- What appending bytes to a buffer leaves.
pub record Put (b : Buffer) (m bs : List ℕ) (b' : Buffer) : Type 0 where
  pub block' : List ℕ
  pub sound : Sound b' block'
  pub same_size : b'.buffer_size ≡ b.buffer_size
  pub same_read : b'.read_offset ≡ b.read_offset
  pub moved : b'.write_offset ≡ b.write_offset + length bs
  pub appended : filled b' block' ≡ filled b m ++ bs
  pub behind : drop b'.write_offset block' ≡ drop (b.write_offset + length bs) m

pub then_Put :
    (b : Buffer) (m bs cs : List ℕ) (b' b'' : Buffer) (p : Put b m bs b')
    → Put b' p.block' cs b''
    → Put b m (bs ++ cs) b''
then_Put b m bs cs b' b'' p q = record {
  block' = q.block';
  sound = q.sound;
  same_size = q.same_size ∙ p.same_size;
  same_read = q.same_read ∙ p.same_read;
  moved = omega (arith, q.moved, p.moved, length-append bs cs);
  appended = q.appended ∙ ap (λ t. t ++ cs) p.appended ∙ append_assoc (filled b m) bs cs;
  behind =
      q.behind
      ∙ drop-add b'.write_offset (length cs) p.block'
      ∙ ap (drop (length cs)) p.behind
      ∙ sym (drop-add (b.write_offset + length bs) (length cs) m)
      ∙ ap (λ (k : ℕ). drop k m) far;
}
  where
    far : b.write_offset + length bs + length cs ≡ b.write_offset + length (bs ++ cs)
    far = omega (arith, length-append bs cs)

-- memcpy behind the filled bytes, without and with the advance over it.
abbrev pub Stored : Buffer → List ℕ → List ℕ → Buffer → Type 0
Stored b m bs b' =
    (p : Put b m bs (write_advance b' (length bs))) × Sound b' p.block'
    × (b'.buffer_size ≡ b.buffer_size)

pub write_at-Put :
    (b : Buffer) (m bs : List ℕ)
    → Sound b m
    → length bs ≤ room b
    → Returns (Stored b m bs) (write_at b b.write_offset bs)
unfolding write_at write_advance
write_at-Put b m bs v h =
    rw (v.has_block, e)
      (
        record {
          block' = new;
          sound = record {
            has_block = refl;
            whole = long;
            in_order = omega (arith, no_wrap, v.in_order);
            in_bounds = omega (arith, no_wrap, v.whole);
            small = v.small;
          };
          same_size = refl;
          same_read = refl;
          moved = no_wrap;
          appended = ap (λ (k : ℕ). take k new) no_wrap ∙ take-store m b.write_offset bs _ e;
          behind = ap (λ (k : ℕ). drop k new) no_wrap ∙ drop-store m b.write_offset bs _ e;
        },
        record {
          has_block = refl;
          whole = long;
          in_order = v.in_order;
          in_bounds = v.in_bounds;
          small = v.small;
        },
        refl,
      )
  where
    fits : b.write_offset + length bs ≤ length m
    fits = omega (arith, v.whole, v.in_bounds)

    new : List ℕ
    new = take b.write_offset m ++ (bs ++ drop (b.write_offset + length bs) m)

    e : store m b.write_offset bs ≡ some new
    e = store_fits m b.write_offset bs fits

    long : length new ≡ b.buffer_size
    long = length-store m b.write_offset bs _ e ∙ v.whole

    no_wrap : add_size b.write_offset (length bs) ≡ b.write_offset + length bs
    no_wrap = omega (arith, v.whole, v.small)

-- What reserve leaves.
pub record Compacted (b : Buffer) (m : List ℕ) (target : ℕ) (r : Bool × Buffer) : Type 0 where
  pub block' : List ℕ
  pub sound : Sound r.1 block'
  pub same_size : r.1.buffer_size ≡ b.buffer_size
  pub same_unread : to_read r.1 block' ≡ to_read b m
  pub enough : r.0 ≡ leb (length (to_read b m) + target) b.buffer_size
  pub reserved : r.0 ≡ true → target ≤ bytes_free r.1

module _ (b : Buffer) (m : List ℕ) (v : Sound b m) where
  pub length-to_read : length (to_read b m) ≡ b.write_offset - b.read_offset
  length-to_read = omega (arith, length-drop b.read_offset (filled b m), length-filled b m v)

  -- The to_read bytes are moved to the start of the block.
  compacted :
      (target : ℕ)
      → ltb b.buffer_size (length (to_read b m) + target) ≡ false
      → Returns
          (λ block'. Compacted b m target (
            true,
            record b {
              block = some block';
              write_offset = b.write_offset - b.read_offset;
              read_offset = 0;
            },
          ))
          (move_down m b.read_offset (b.write_offset - b.read_offset))
  unfolding move_down bytes_free
  compacted target fits =
      let k = b.write_offset - b.read_offset in
      let long : b.read_offset + k ≤ length m = omega (arith, v.in_order, v.in_bounds, v.whole) in
      let short : 0 + length (to_read b m) ≤ length m = omega (arith, length-to_read, long) in
      let e = store_fits m 0 (to_read b m) short in
      let held : take k (take 0 m ++ (to_read b m ++ drop (0 + length (to_read b m)) m))
          ≡ to_read b m =
        ap (λ (n : ℕ). take n (take 0 m ++ (to_read b m ++ drop (0 + length (to_read b m)) m)))
          (sym length-to_read)
        ∙ take-append_self (to_read b m) _ in
      let most = ltb→le b.buffer_size (length (to_read b m) + target) fits in
      let less = sub_size_of_le b.buffer_size k (omega (arith, v.in_bounds)) v.small in
      rw (load_fits m b.read_offset k long, to_read-window b m v, e)
        record {
          block' = take 0 m ++ (to_read b m ++ drop (0 + length (to_read b m)) m);
          sound = record {
            has_block = refl;
            whole = length-store m 0 (to_read b m) _ e ∙ v.whole;
            in_order = omega arith;
            in_bounds = omega (arith, v.in_bounds);
            small = v.small;
          };
          same_size = refl;
          same_unread = held;
          enough = sym (le→leb _ _ most);
          reserved = λ _. omega (arith, less, most, length-to_read);
        }

  -- For a valid buffer and a size whose sum with the buffer's is a size_t, Buffer::reserve returns
  -- and keeps the bytes to be read. It answers true exactly when they and the size asked for fit
  -- into the buffer, and then there is as much space behind the write location.
  pub reserve_target_lem :
      (target : ℕ)
      → target ≤ size_max - b.buffer_size
      → Returns (Compacted b m target) (reserve_target b target)
  unfolding reserve_target
  reserve_target_lem target h =
      rw (bytes_available-to_read b m v, ← length-to_read, no_wrap)
        (elim (Bool-cases (ltb b.buffer_size (length (to_read b m) + target))) [
          | inl large ↦ rw large record {
            block' = m;
            sound = v;
            same_size = refl;
            same_unread = refl;
            enough = sym (lt→leb _ _ (ltb→lt _ _ large));
            reserved = λ e. absurd (ground (arith, e));
          }
          | inr fits ↦ rw fits (elim (Bool-cases (ltb (bytes_free b) target)) [
            | inl full ↦
                rw (full, length-to_read)
                  (Returns-given (Compacted b m target) b.block m _ v.has_block (
                    Returns-bind
                      (λ block'. Compacted b m target (
                        true,
                        record b {
                          block = some block';
                          write_offset = b.write_offset - b.read_offset;
                          read_offset = 0;
                        },
                      ))
                      (Compacted b m target) _ _ (compacted target fits) (λ _ p. p)))
            | inr free ↦ rw free record {
              block' = m;
              sound = v;
              same_size = refl;
              same_unread = refl;
              enough = sym (le→leb _ _ (ltb→le _ _ fits));
              reserved = λ _. ltb→le _ _ free;
            }
          ])
        ])
    where
      no_wrap : add_size (length (to_read b m)) target ≡ length (to_read b m) + target
      no_wrap = omega (arith, length-to_read, v.in_bounds, v.small)
