-- ===== src/Record/Serialize.antt =====
-- What Record_serializePutSafe and Record_serializePutASafe (c/src/Record.c) promise.
use tstorage_clients.Prelude.{
  Bool, Bool-cases, List, Returns, [], ap, append-nil, arith, assert, bind-some, drop, false,
  if◌then◌else◌, inl, inr, leb, leb→le, leb→lt, length, length-append, le→leb, ltb, refl, returned,
  some, sym, take, take-append-drop, true, ℕ, ◌++◌, ◌+◌, ◌-◌, ◌>>=◌, ◌>>◌, ◌∙◌, ◌∷◌, ◌≡◌, ◌≤◌,
}
use tstorage_clients.Memory.{add_size, store}
use tstorage_clients.Bytes.{le_bytes, length-le_bytes, store-step}
use tstorage_clients.Memory.Store.{
  length-store, store_before, store_fits, take-store, take-store_below,
}
use tstorage_clients.Record.{
  PayloadType, Record, common_serialize, int32_max, payload_size_max, put_payload,
  record_header_size, serialize_payload, serialize_record_header,
}

-- The documented contract of TSCLIENT_PayloadType.toBytes: the size returned is that of the whole
-- encoding, whatever space is given; nothing is written past that space, and the encoding is
-- written whole if there is room for it.
pub record Encodes (type : PayloadType) : Type 0 where
  pub encode : List ℕ → List ℕ
  pub needed : (v : List ℕ) (n : ℕ) → (type.to_bytes v n).1 ≡ length (encode v)
  pub within : (v : List ℕ) (n : ℕ) → length (type.to_bytes v n).0 ≤ n
  pub whole : (v : List ℕ) (n : ℕ) → length (encode v) ≤ n → (type.to_bytes v n).0 ≡ encode v
  pub small : (v : List ℕ) → length (encode v) ≤ payload_size_max

-- The bytes of a record's header, for a record of `n` bytes in all.
abbrev pub record_header : Bool → Record → ℕ → List ℕ
record_header with_acq r n =
    le_bytes 4 (n - 4)
    ++ (le_bytes 8 r.key.mid
        ++ (le_bytes 4 r.key.moid
            ++ (le_bytes 8 r.key.cap ++ (if with_acq then le_bytes 8 r.key.acq else []))))

pub length-record_header :
    (with_acq : Bool) (r : Record) (n : ℕ)
    → length (record_header with_acq r n) ≡ record_header_size with_acq
unfolding le_bytes
length-record_header false r n = refl
length-record_header true r n = refl

serialize_record_header-bytes :
    (with_acq : Bool) (r : Record) (n : ℕ) (mem : List ℕ) (at : ℕ)
    → serialize_record_header r n with_acq mem at ≡ store mem at (record_header with_acq r n)
unfolding serialize_record_header
serialize_record_header-bytes false r n mem at =
    store-step mem at 4 _ _ _ (length-le_bytes 4 (n - 4)) λ m₁.
      store-step m₁ (at + 4) 8 _ _ _ (length-le_bytes 8 r.key.mid) λ m₂.
        store-step m₂ (at + 4 + 8) 4 _ _ _ (length-le_bytes 4 r.key.moid)
          λ m₃. rw append-nil (bind-some (store m₃ (at + 4 + 8 + 4) (le_bytes 8 r.key.cap)))
serialize_record_header-bytes true r n mem at =
    store-step mem at 4 _ _ _ (length-le_bytes 4 (n - 4)) λ m₁.
      store-step m₁ (at + 4) 8 _ _ _ (length-le_bytes 8 r.key.mid) λ m₂.
        store-step m₂ (at + 4 + 8) 4 _ _ _ (length-le_bytes 4 r.key.moid)
          λ m₃. store-step m₃ (at + 4 + 8 + 4) 8 _ _ _ (length-le_bytes 8 r.key.cap) λ m₄. refl

-- The memory keeps its length, and what lies below `base`.
abbrev Kept : List ℕ → ℕ → List ℕ → Type 0
Kept mem base m = (length m ≡ length mem) × (take base m ≡ take base mem)

-- A user function that keeps to its space changes nothing below the record's start.
put_payload_lem :
    (mem : List ℕ) (base header size : ℕ) (bs : List ℕ)
    → base + size ≤ length mem
    → length bs ≤ size - header
    → Returns (Kept mem base) (put_payload mem (base + header) bs)
unfolding put_payload
put_payload_lem mem base header size [] room fits = (refl, refl)
put_payload_lem mem base header size (b ∷ bs) room fits =
    let stored = store_fits mem (base + header) (b ∷ bs) (omega arith) in
    rw stored (
      length-store mem (base + header) (b ∷ bs) _ stored,
      take-store_below mem (base + header) (b ∷ bs) _ base stored (omega arith),
    )

put_payload-store :
    (mem : List ℕ) (at : ℕ) (bs : List ℕ)
    → at ≤ length mem
    → put_payload mem at bs ≡ store mem at bs
unfolding put_payload
put_payload-store mem at [] h =
    ap some
      (sym (take-append-drop at mem) ∙ ap (λ (k : ℕ). take at mem ++ drop k mem) (omega arith))
    ∙ sym (store_fits mem at [] (omega arith))
put_payload-store mem at (b ∷ bs) h = refl

module _ (type : PayloadType) (codec : Encodes type) where
  open codec use {encode, needed, within, whole, small}

  -- A record on the wire: its header, and its payload as the user encodes it.
  abbrev pub record_size : Bool → Record → ℕ
  record_size with_acq r = record_header_size with_acq + length (encode r.payload)

  abbrev pub record_bytes : Bool → Record → List ℕ
  record_bytes with_acq r = record_header with_acq r (record_size with_acq r) ++ encode r.payload

  -- What a serialization into `size` bytes at `base` does.
  pub record Serialized (with_acq : Bool) (r : Record) (mem : List ℕ) (base size : ℕ)
      (t : ℕ × List ℕ) : Type 0 where
    pub sized : t.0 ≡ record_size with_acq r
    pub same_length : length t.1 ≡ length mem
    pub below : take base t.1 ≡ take base mem
    pub written : t.0 ≤ size → take (base + t.0) t.1 ≡ take base mem ++ record_bytes with_acq r

  -- What serializing the payload alone does.
  record PayloadPut (r : Record) (mem : List ℕ) (base size header : ℕ) (t : ℕ × List ℕ)
      : Type 0 where
    sized : t.0 ≡ header + length (encode r.payload)
    same_length : length t.1 ≡ length mem
    below : take base t.1 ≡ take base mem
    stored : t.0 ≤ size → store mem (base + header) (encode r.payload) ≡ some t.1

  space_eq : (size header : ℕ) → (if ltb size header then 0 else size - header) ≡ size - header
  space_eq size header = ground arith

  serialize_payload_lem :
      (r : Record) (mem : List ℕ) (base size header : ℕ)
      → base + size ≤ length mem
      → header ≤ 32
      → Returns (PayloadPut r mem base size header) (serialize_payload type r mem base size header)
  unfolding serialize_payload
  serialize_payload_lem r mem base size header room h =
      let n = length (encode r.payload) in
      let limited = small r.payload in
      let no_wrap : add_size header n ≡ header + n = omega arith in
      let (m, e, keeps) = returned (Kept mem base) _ (
        put_payload_lem mem base header size (type.to_bytes r.payload (size - header)).0 room
          (within r.payload (size - header))) in
      rw
        (
          space_eq size header,
          e,
          needed r.payload (size - header),
          no_wrap,
          le→leb n payload_size_max limited,
          le→leb header (header + n) (omega arith),
          le→leb (header + n) int32_max (omega arith),
        )
        (record {
          sized = refl;
          same_length = keeps.0;
          below = keeps.1;
          stored = λ fits.
              sym (put_payload-store mem (base + header) (encode r.payload) (omega arith))
              ∙ ap (put_payload mem (base + header))
                  (sym (whole r.payload (size - header) (omega arith)))
              ∙ e;
        })

  pub length-record_bytes :
      (with_acq : Bool) (r : Record) → length (record_bytes with_acq r) ≡ record_size with_acq r
  length-record_bytes with_acq r =
      length-append (record_header with_acq r (record_size with_acq r)) (encode r.payload)
      ∙ ap (λ (k : ℕ). k + length (encode r.payload))
          (length-record_header with_acq r (record_size with_acq r))

  pub record_size-le : (with_acq : Bool) (r : Record) → record_size with_acq r ≤ int32_max
  record_size-le with_acq r = let at_most = small r.payload in ground arith

  module _ (with_acq : Bool) (r : Record) (mem : List ℕ) (base size : ℕ)
      (room : base + size ≤ length mem) (m : List ℕ)
      (p : PayloadPut r mem base size
        (record_header_size with_acq)
        (record_size with_acq r, m)) where
    header_stored :
        record_size with_acq r ≤ size
        → serialize_record_header r (record_size with_acq r) with_acq m base
          ≡ store mem base (record_bytes with_acq r)
    header_stored fits =
        let header = record_header with_acq r (record_size with_acq r) in
        let payload_at : store mem (base + length header) (encode r.payload) ≡ some m =
          rw (length-record_header with_acq r (record_size with_acq r)) (p.stored fits) in
        serialize_record_header-bytes with_acq r (record_size with_acq r) m base
        ∙ store_before mem base header (encode r.payload) m payload_at

    whole_record :
        (fits : record_size with_acq r ≤ size) (new : List ℕ)
        → store mem base (record_bytes with_acq r) ≡ some new
        → Serialized with_acq r mem base size (record_size with_acq r, new)
    whole_record fits new e = record {
      sized = refl;
      same_length = length-store mem base (record_bytes with_acq r) new e;
      below = take-store_below mem base (record_bytes with_acq r) new base e (omega arith);
      written = λ _.
          ap (λ (k : ℕ). take (base + k) new) (sym (length-record_bytes with_acq r))
          ∙ take-store mem base (record_bytes with_acq r) new e;
    }

    with_header : Returns (Serialized with_acq r mem base size) (
        (if leb (record_size with_acq r) size
          then serialize_record_header r (record_size with_acq r) with_acq m base
          else some m)
        >>= λ mem''.
            assert (leb (record_size with_acq r) int32_max) >> some (record_size with_acq r, mem''))
    with_header = elim (Bool-cases (leb (record_size with_acq r) size)) [
      | inl e ↦
          let fits = leb→le _ _ e in
          let stored =
            store_fits mem base (record_bytes with_acq r)
              (omega (arith, length-record_bytes with_acq r)) in
          rw (e, header_stored fits, stored, le→leb _ _ limited) (whole_record fits _ stored)
      | inr e ↦
          rw (e, le→leb _ _ limited)
            (record {
              sized = refl;
              same_length = p.same_length;
              below = p.below;
              written = λ h. let large = leb→lt _ _ e in absurd (omega arith);
            })
    ]
      where
        limited : record_size with_acq r ≤ int32_max
        limited = record_size-le with_acq r

  -- For a payload type that keeps the contract of toBytes, commonSerializePutSafe into a block
  -- with the given space does not abort. It returns the size of the whole record, leaves the
  -- block's length and what lies below, and if the size is at most the space, the record's bytes
  -- stand there.
  pub common_serialize_lem :
      (with_acq : Bool) (r : Record) (mem : List ℕ) (base size : ℕ)
      → base + size ≤ length mem
      → Returns
          (Serialized with_acq r mem base size)
          (common_serialize type with_acq r mem base size)
  unfolding common_serialize
  common_serialize_lem with_acq r mem base size room =
      let header_small : record_header_size with_acq ≤ 32 = ground arith in
      let (t, e, p) =
        returned (PayloadPut r mem base size (record_header_size with_acq)) _
          (serialize_payload_lem r mem base size (record_header_size with_acq) room header_small) in
      rw (e, p.sized)
        (with_header with_acq r mem base size room t.1 (record {
          sized = refl;
          same_length = p.same_length;
          below = p.below;
          stored = λ fits. p.stored (rw p.sized fits);
        }))
