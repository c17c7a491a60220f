-- ===== src/Cpp/Batch/Adding.antt =====
-- How a record is added to the batches in the buffer: putRecord of
-- cpp/libtstorageclient++/src/BatchSerializer.cpp.
use tstorage_clients.Prelude.{
  Bool, List, Option, Returns, Returns-bind, ap, append_assoc, arith, drop, drop-add, drop-take,
  length, length-append, none, refl, some, sym, take, take-append-drop, take-take, ℕ, ◌%◌, ◌++◌,
  ◌+◌, ◌-◌, ◌>>=◌, ◌^◌, ◌∙◌, ◌≡◌, ◌≤◌,
}
use tstorage_clients.Memory.{add_size}
use tstorage_clients.Bytes.{le_bytes}
use tstorage_clients.Cpp.Batch.{
  BatchSerializer, ProtoT, begin_batch, proto_key_size, put_proto, put_proto_key, puta_proto,
}
use tstorage_clients.Cpp.Batch.Wire.{length-wire_head, wire_head, wire_record}
use tstorage_clients.Cpp.Buffer.{Buffer, write_advance}
use tstorage_clients.Cpp.Buffer.Contents.{Put, Sound, filled, room, then_Put}
use tstorage_clients.Cpp.Serializer.{
  confirm_payload_buffer, put, put_abbrev_key, put_abbrev_key_without_acq,
}
use tstorage_clients.Cpp.Serializer.Fields.{put_lem, put_then}
use tstorage_clients.Key.{Key}
use tstorage_clients.Record.{int32_max}

take-add : (k n : ℕ) (xs : List ℕ) → take (k + n) xs ≡ take k xs ++ take n (drop k xs)
take-add k n xs =
    sym (take-append-drop k (take (k + n) xs))
    ∙ ap (λ t. t ++ drop k (take (k + n) xs)) (take-take k (k + n) xs (omega arith))
    ∙ ap (λ t. take k xs ++ t) (drop-take k n xs)

-- The payload is in its place already: the write location moves behind it.
confirm_payload-Put :
    (b : Buffer) (m head payload : List ℕ) (b' : Buffer)
    → Put b m head b'
    → take (length payload) (drop (b.write_offset + length head) m) ≡ payload
    → length head + length payload ≤ room b
    → Put b m (head ++ payload) (confirm_payload_buffer b' (length payload))
unfolding confirm_payload_buffer write_advance
confirm_payload-Put b m head payload b' p there h =
    let no_wrap : add_size b'.write_offset (length payload) ≡ b'.write_offset + length payload =
      omega (arith, p.moved, p.same_size, p.sound.small, p.sound.in_bounds) in
    record {
      block' = p.block';
      sound = record {
        has_block = p.sound.has_block;
        whole = p.sound.whole;
        in_order = omega (arith, no_wrap, p.sound.in_order);
        in_bounds = omega (arith, no_wrap, p.moved, p.same_size);
        small = p.sound.small;
      };
      same_size = p.same_size;
      same_read = p.same_read;
      moved = omega (arith, no_wrap, p.moved, length-append head payload);
      appended =
          ap (λ (k : ℕ). take k p.block') no_wrap
          ∙ take-add b'.write_offset (length payload) p.block'
          ∙ ap (λ t. filled b' p.block' ++ take (length payload) t) p.behind
          ∙ ap (λ t. filled b' p.block' ++ t) there
          ∙ ap (λ t. t ++ payload) p.appended
          ∙ append_assoc (filled b m) head payload;
      behind =
          ap (λ (k : ℕ). drop k p.block') no_wrap
          ∙ drop-add b'.write_offset (length payload) p.block'
          ∙ ap (drop (length payload)) p.behind
          ∙ sym (drop-add (b.write_offset + length head) (length payload) m)
          ∙ ap (λ (k : ℕ). drop k m) (omega (arith, length-append head payload));
    }

pub Returns-assoc {ℓ κ μ} :
    {A : Type ℓ} {B : Type κ} {C : Type μ} (P : C → Type 0) (o : Option A) (f : A → Option B)
    (g : B → Option C)
    → Returns P ((o >>= f) >>= g)
    → Returns P (o >>= λ a. f a >>= g)
Returns-assoc P none f g h = h
Returns-assoc P (some a) f g h = h

-- The state that the record leaves.
abbrev pub counting : ProtoT → BatchSerializer → ℕ → BatchSerializer
counting proto s n = record s {
  current_size = (s.current_size + (4 + (proto_key_size proto + n) % 2 ^ 32)) % 2 ^ 32;
}

module _ (is_be : Bool) where
  -- The size and the key of a record.
  put_head_lem :
      (proto : ProtoT) (b : Buffer) (m : List ℕ) (key : Key) (n : ℕ)
      → Sound b m
      → 4 + proto_key_size proto ≤ room b
      → n ≤ int32_max
      → Returns (Put b m (wire_head proto key n)) (
          put is_be b 4 ((proto_key_size proto + n) % 2 ^ 32) >>= λ b'.
          put_proto_key is_be proto b' key)
  unfolding put_abbrev_key put_abbrev_key_without_acq le_bytes
  put_head_lem put_proto b m key n s h k =
      let size : (20 + n) % 2 ^ 32 ≡ 24 + n - 4 = omega arith in
      rw size (
        put_then is_be b m 4 (24 + n - 4) _ _ s h λ b₁ m₁ s₁ h₁.
          put_then is_be b₁ m₁ 8 key.mid _ _ s₁ h₁ λ b₂ m₂ s₂ h₂.
            put_then is_be b₂ m₂ 4 key.moid _ _ s₂ h₂
              λ b₃ m₃ s₃ h₃. put_lem is_be b₃ m₃ 8 key.cap s₃ h₃)
  put_head_lem puta_proto b m key n s h k =
      let size : (28 + n) % 2 ^ 32 ≡ 32 + n - 4 = omega arith in
      rw size (
        put_then is_be b m 4 (32 + n - 4) _ _ s h λ b₁ m₁ s₁ h₁.
          put_then is_be b₁ m₁ 8 key.mid _ _ s₁ h₁ λ b₂ m₂ s₂ h₂.
            put_then is_be b₂ m₂ 4 key.moid _ _ s₂ h₂ λ b₃ m₃ s₃ h₃.
              put_then is_be b₃ m₃ 8 key.cap _ _ s₃ h₃
                λ b₄ m₄ s₄ h₄. put_lem is_be b₄ m₄ 8 key.acq s₄ h₄)

  -- The cid of a batch, and 0 for its size.
  pub begin_lem :
      (s : BatchSerializer) (b : Buffer) (m : List ℕ) (cid : ℕ)
      → Sound b m
      → 8 ≤ room b
      → Returns
          (λ (r : BatchSerializer × Buffer).
            (r.0 ≡ record s { current_cid = cid }) × Put b m (le_bytes 4 cid ++ le_bytes 4 0) r.1)
          (begin_batch is_be s b cid)
  unfolding le_bytes
  begin_lem s b m cid v h =
      Returns-bind (Put b m (le_bytes 4 cid)) _ _ _ (put_lem is_be b m 4 cid v (omega arith))
        λ b₁ p.
          Returns-bind (Put b₁ p.block' (le_bytes 4 0)) _ _ _
            (put_lem is_be b₁ p.block' 4 0 p.sound (omega (arith, p.moved, p.same_size)))
            λ b₂ q. (refl, then_Put b m (le_bytes 4 cid) (le_bytes 4 0) b₁ b₂ p q)

  -- The end of putRecord: the record itself.
  abbrev pub record_tail :
      ProtoT → BatchSerializer → Buffer → Key → ℕ → Option (BatchSerializer × Buffer)
  record_tail proto s b key n = do
    let rec_size = (proto_key_size proto + n) % 2 ^ 32
    b₁ ← put is_be b 4 rec_size
    b₂ ← put_proto_key is_be proto b₁ key
    some (
      record s { current_size = (s.current_size + (4 + rec_size)) % 2 ^ 32 },
      confirm_payload_buffer b₂ n,
    )

  pub record_tail_lem :
      (proto : ProtoT) (s : BatchSerializer) (b : Buffer) (m : List ℕ) (key : Key)
      (payload : List ℕ)
      → Sound b m
      → 4 + proto_key_size proto + length payload ≤ room b
      → length payload ≤ int32_max
      → take (length payload) (drop (b.write_offset + (4 + proto_key_size proto)) m) ≡ payload
      → Returns
          (λ (r : BatchSerializer × Buffer).
            (r.0 ≡ counting proto s (length payload))
            × Put b m (wire_record proto (key, payload)) r.1)
          (record_tail proto s b key (length payload))
  record_tail_lem proto s b m key payload v h few there =
      let n = length-wire_head proto key (length payload) in
      Returns-assoc _ (put is_be b 4 ((proto_key_size proto + length payload) % 2 ^ 32)) _ _ (
        Returns-bind (Put b m (wire_head proto key (length payload))) _ _ _
          (put_head_lem proto b m key (length payload) v (omega arith) few)
          λ b' p. (
            refl,
            confirm_payload-Put b m (wire_head proto key (length payload)) payload b' p
                (ap (λ (k : ℕ). take (length payload) (drop (b.write_offset + k) m)) n ∙ there)
                (omega (arith, n)),
          ))
