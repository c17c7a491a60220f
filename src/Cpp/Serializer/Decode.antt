-- ===== src/Cpp/Serializer/Decode.antt =====
-- What the get functions of cpp/libtstorageclient++/src/Serializer.cpp read from the buffer.
use tstorage_clients.Prelude.{
  Bool, List, Option, Returns, Returns-bind, Returns-mono, [], ap, append-nil, append_assoc, arith,
  drop, drop-add, drop-append_of_le, drop-append_self, length, length-append, le→leb, refl, some,
  sym, take, take-append_self, take-take, ℕ, ◌++◌, ◌+◌, ◌-◌, ◌>>=◌, ◌∙◌, ◌≡◌, ◌≤◌,
}
use tstorage_clients.Memory.{add_size, load}
use tstorage_clients.Bytes.{le_bytes, le_value, le_value-le_bytes, length-le_bytes}
use tstorage_clients.Cpp.Buffer.{Buffer, bytes_available, read_advance, read_at}
use tstorage_clients.Cpp.Buffer.Contents.{
  Put, Returns-given, Sound, bytes_available-to_read, filled, length-filled, length-to_read, room,
  to_read, to_read-window,
}
use tstorage_clients.Cpp.Serializer.{get_field, get_key, put_key}
use tstorage_clients.Cpp.Serializer.Fields.{put_key_lem}
use tstorage_clients.Cpp.Serializer.Values.{get_value-le_value}
use tstorage_clients.Key.{IsKey, Key}
use tstorage_clients.Key.Write.{key_bytes}
use tstorage_clients.Memory.Store.{load_fits}
use mathlib.Core.Path.{subst}

module _ (is_be : Bool) where
  -- The bytes ahead are read off, and the value is theirs.
  pub record Taken {A : Type 0} (b : Buffer) (m : List ℕ) (value : A) (rest : List ℕ)
      (r : A × Buffer) : Type 0 where
    pub read_value : r.0 ≡ value
    pub sound : Sound r.1 m
    pub left : to_read r.1 m ≡ rest
    pub same_write : r.1.write_offset ≡ b.write_offset

  pub get_field_lem :
      (b : Buffer) (m bs rest : List ℕ) (width : ℕ)
      → Sound b m
      → to_read b m ≡ bs ++ rest
      → length bs ≡ width
      → Returns (Taken b m (le_value bs) rest) (get_field is_be b width)
  unfolding get_field read_at read_advance
  get_field_lem b m bs rest width v e n =
      let total : b.write_offset - b.read_offset ≡ width + length rest =
        omega (arith, n, length-to_read b m v, ap length e, length-append bs rest) in
      let assertion =
        le→leb width (bytes_available b) (omega (arith, total, bytes_available-to_read b m v)) in
      let inside : b.read_offset + width ≤ length m =
        omega (arith, total, v.whole, v.in_bounds, v.in_order) in
      let bytes : take width (drop b.read_offset m) ≡ bs =
        sym (
          take-take width (b.write_offset - b.read_offset) (drop b.read_offset m)
            (omega (arith, total)))
        ∙ ap (take width) (to_read-window b m v ∙ e)
        ∙ ap (λ (k : ℕ). take k (bs ++ rest)) (sym n)
        ∙ take-append_self bs rest in
      let no_wrap : add_size b.read_offset width ≡ b.read_offset + width =
        omega (arith, inside, v.whole, v.small) in
      let behind : drop (b.read_offset + width) (filled b m) ≡ rest =
        drop-add b.read_offset width (filled b m)
        ∙ ap (drop width) e
        ∙ ap (λ (k : ℕ). drop k (bs ++ rest)) (sym n)
        ∙ drop-append_self bs rest in
      rw assertion (
        Returns-given (Taken b m (le_value bs) rest) (read_at b b.read_offset width) bs _
          (ap (λ o. o >>= λ block. load block b.read_offset width) v.has_block
            ∙ load_fits m b.read_offset width inside
            ∙ ap some bytes)
          record {
            read_value = get_value-le_value is_be bs;
            sound = record {
              has_block = v.has_block;
              whole = v.whole;
              in_order = omega (arith, no_wrap, total, v.in_order);
              in_bounds = v.in_bounds;
              small = v.small;
            };
            left = ap (λ (k : ℕ). drop k (filled b m)) no_wrap ∙ behind;
            same_write = refl;
          })

  -- A field, and what is read behind it.
  pub get_then :
      {A : Type 0} (b : Buffer) (m bs rest rest' : List ℕ) (width : ℕ) (value : A)
      (k : ℕ × Buffer → Option (A × Buffer))
      → Sound b m
      → to_read b m ≡ bs ++ rest
      → length bs ≡ width
      → ((b' : Buffer)
          → Sound b' m
          → to_read b' m ≡ rest
          → Returns (Taken b' m value rest') (k (le_value bs, b')))
      → Returns (Taken b m value rest') (get_field is_be b width >>= k)
  get_then b m bs rest rest' width value k v e n more =
      Returns-bind (Taken b m (le_value bs) rest) (Taken b m value rest') _ k
        (get_field_lem b m bs rest width v e n)
        λ r p.
          subst (λ (x : ℕ). Returns (Taken b m value rest') (k (x, r.1))) (sym p.read_value)
            (Returns-mono (Taken r.1 m value rest') (Taken b m value rest') _
              (more r.1 p.sound p.left)
              λ t q. record {
                read_value = q.read_value;
                sound = q.sound;
                left = q.left;
                same_write = q.same_write ∙ p.same_write;
              })

  Taken-all :
      {A : Type 0} (b : Buffer) (m rest : List ℕ) (value : A)
      → Sound b m
      → to_read b m ≡ rest
      → Taken b m value rest (value, b)
  Taken-all b m rest value v e = record {
    read_value = refl;
    sound = v;
    left = e;
    same_write = refl;
  }

  -- A key as its fields' bytes give it.
  decoded_key : Key → Key
  decoded_key k = record {
    cid = le_value (le_bytes 4 k.cid);
    mid = le_value (le_bytes 8 k.mid);
    moid = le_value (le_bytes 4 k.moid);
    cap = le_value (le_bytes 8 k.cap);
    acq = le_value (le_bytes 8 k.acq);
  }

  decoded_key-IsKey : (k : Key) → IsKey k → decoded_key k ≡ k
  unfolding decoded_key
  decoded_key-IsKey k fits =
      rw
        (
          le_value-le_bytes 4 k.cid fits.cid_fits,
          le_value-le_bytes 8 k.mid fits.mid_fits,
          le_value-le_bytes 4 k.moid fits.moid_fits,
          le_value-le_bytes 8 k.cap fits.cap_fits,
          le_value-le_bytes 8 k.acq fits.acq_fits,
        )
        refl

  pub get_key_lem :
      (b : Buffer) (m rest : List ℕ) (key : Key)
      → Sound b m
      → IsKey key
      → to_read b m ≡ key_bytes key ++ rest
      → Returns (Taken b m key rest) (get_key is_be b)
  unfolding get_key decoded_key
  get_key_lem b m rest key v fits e =
      subst (λ (k : Key). Returns (Taken b m k rest) (get_key is_be b)) (decoded_key-IsKey key fits)
        (get_then b m (le_bytes 4 key.cid) (mid ++ rest) rest 4 (decoded_key key) _ v
          (e ∙ append_assoc (le_bytes 4 key.cid) mid rest) (length-le_bytes 4 key.cid)
          λ b₁ v₁ e₁.
            get_then b₁ m (le_bytes 8 key.mid) (moid ++ rest) rest 8 (decoded_key key) _ v₁
              (e₁ ∙ append_assoc (le_bytes 8 key.mid) moid rest) (length-le_bytes 8 key.mid)
              λ b₂ v₂ e₂.
                get_then b₂ m (le_bytes 4 key.moid) (cap ++ rest) rest 4 (decoded_key key) _ v₂
                  (e₂ ∙ append_assoc (le_bytes 4 key.moid) cap rest) (length-le_bytes 4 key.moid)
                  λ b₃ v₃ e₃.
                    get_then b₃ m (le_bytes 8 key.cap) (le_bytes 8 key.acq ++ rest) rest 8
                      (decoded_key key) _ v₃
                      (e₃ ∙ append_assoc (le_bytes 8 key.cap) (le_bytes 8 key.acq) rest)
                      (length-le_bytes 8 key.cap)
                      λ b₄ v₄ e₄.
                        get_then b₄ m (le_bytes 8 key.acq) rest rest 8 (decoded_key key) _ v₄ e₄
                          (length-le_bytes 8 key.acq)
                          λ b₅ v₅ e₅. Taken-all b₅ m rest (decoded_key key) v₅ e₅)
    where
      cap : List ℕ
      cap = le_bytes 8 key.cap ++ le_bytes 8 key.acq

      moid : List ℕ
      moid = le_bytes 4 key.moid ++ cap

      mid : List ℕ
      mid = le_bytes 8 key.mid ++ moid

  -- A key whose fields fit their types, put into a buffer with nothing to be read and 32 bytes of
  -- space, is got back by getKey, which leaves nothing to be read.
  pub get_key-put_key :
      (b : Buffer) (m : List ℕ) (key : Key)
      → Sound b m
      → IsKey key
      → to_read b m ≡ []
      → 32 ≤ room b
      → Returns
          (λ (r : Key × Buffer). (r.0 ≡ key) × (bytes_available r.1 ≡ 0))
          (put_key is_be b key >>= get_key is_be)
  get_key-put_key b m key v fits e h =
      Returns-bind (Put b m (key_bytes key)) _ _ _ (put_key_lem is_be b m key v h) λ b' p.
        let ahead : to_read b' p.block' ≡ key_bytes key ++ [] =
          ap (λ (k : ℕ). drop k (filled b' p.block')) p.same_read
          ∙ ap (drop b.read_offset) p.appended
          ∙ drop-append_of_le b.read_offset (filled b m) (key_bytes key)
              (omega (arith, length-filled b m v, v.in_order))
          ∙ ap (λ t. t ++ key_bytes key) e
          ∙ sym (append-nil (key_bytes key)) in
        Returns-mono (Taken b' p.block' key []) _ _
          (get_key_lem b' p.block' [] key p.sound fits ahead)
          λ r q. (
            q.read_value,
            omega (
              arith,
              bytes_available-to_read r.1 p.block' q.sound,
              length-to_read r.1 p.block' q.sound,
              ap length q.left,
            ),
          )
