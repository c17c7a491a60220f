-- ===== src/Cpp/DataTypes.antt =====
-- cpp/libtstorageclient++/include/tstorageclient++/DataTypes.h and src/DataTypes.cpp: results, keys and their orders.
-- A key has the fields of the C client's; a field is its bit pattern.
pub mod Results
use tstorage_clients.Prelude.{
  Bool, Option, false, if◌then◌else◌, leb, ltb, none, some, true, ℕ, ◌%◌, ◌&&◌, ◌+◌, ◌-◌, ◌==◌,
  ◌>>=◌, ◌^◌, ◌||◌,
}
use tstorage_clients.Key.{Key}
use mathlib.Core.Bool.{not}

-- `enum class result_t`
pub data ResultT : Type 0 where
  result_ok server_error invalid_key empty_key_range payload_too_large : ResultT
  deserialization_error memory_limit_exceeded out_of_memory bad_response : ResultT
  conn_error conn_refused bad_address not_connected socket_error setopt_error : ResultT
  end_of_stream conn_reset conn_closed conn_timeout interrupted : ResultT

-- `res == result_t::OK`
abbrev pub is_result_ok : ResultT → Bool
is_result_ok res = elim res [ result_ok ↦ true | _ ↦ false ]

-- The place of a signed integer of `bits` bits among all of them, from the least one on.
abbrev pub rank : ℕ → ℕ → ℕ
rank bits v = (v + 2 ^ (bits - 1)) % 2 ^ bits

abbrev pub le_int : ℕ → ℕ → ℕ → Bool
le_int bits a b = leb (rank bits a) (rank bits b)

abbrev pub lt_int : ℕ → ℕ → ℕ → Bool
lt_int bits a b = ltb (rank bits a) (rank bits b)

-- `operator==`
unfoldable pub eq_key : Key → Key → Bool
eq_key a b =
    (a.cid == b.cid)
    && (a.mid == b.mid)
    && (a.moid == b.moid)
    && (a.cap == b.cap)
    && (a.acq == b.acq)

-- `operator!=`
unfoldable pub ne_key : Key → Key → Bool
ne_key a b =
    not (a.cid == b.cid)
    || not (a.mid == b.mid)
    || not (a.moid == b.moid)
    || not (a.cap == b.cap)
    || not (a.acq == b.acq)

-- `operator<=`
unfoldable pub le_key : Key → Key → Bool
le_key a b =
    le_int 32 a.cid b.cid
    && le_int 64 a.mid b.mid
    && le_int 32 a.moid b.moid
    && le_int 64 a.cap b.cap
    && le_int 64 a.acq b.acq

-- `operator>=`
unfoldable pub ge_key : Key → Key → Bool
ge_key a b =
    le_int 32 b.cid a.cid
    && le_int 64 b.mid a.mid
    && le_int 32 b.moid a.moid
    && le_int 64 b.cap a.cap
    && le_int 64 b.acq a.acq

-- `operator<`
unfoldable pub lt_key : Key → Key → Bool
lt_key a b =
    lt_int 32 a.cid b.cid
    || ((a.cid == b.cid)
        && (lt_int 64 a.mid b.mid
            || ((a.mid == b.mid)
                && (lt_int 32 a.moid b.moid
                    || ((a.moid == b.moid)
                        && (lt_int 64 a.cap b.cap
                            || ((a.cap == b.cap) && lt_int 64 a.acq b.acq)))))))

-- `operator>`
unfoldable pub gt_key : Key → Key → Bool
gt_key a b =
    lt_int 32 b.cid a.cid
    || ((a.cid == b.cid)
        && (lt_int 64 b.mid a.mid
            || ((a.mid == b.mid)
                && (lt_int 32 b.moid a.moid
                    || ((a.moid == b.moid)
                        && (lt_int 64 b.cap a.cap
                            || ((a.cap == b.cap) && lt_int 64 b.acq a.acq)))))))

-- A signed integer less an `x` that is not negative; an overflow is undefined.
unfoldable pub sub_int : ℕ → ℕ → ℕ → Option ℕ
sub_int bits v x = if leb x (rank bits v) then some ((v + 2 ^ bits - x) % 2 ^ bits) else none

-- `operator-`, for an `x` that is not negative.
unfoldable pub sub_key : Key → ℕ → Option Key
sub_key k x = do
  cid ← sub_int 32 k.cid x
  mid ← sub_int 64 k.mid x
  moid ← sub_int 32 k.moid x
  cap ← sub_int 64 k.cap x
  acq ← sub_int 64 k.acq x
  some (record { cid = cid; mid = mid; moid = moid; cap = cap; acq = acq })

-- `Key::isValid`: the cid is not negative.
unfoldable pub is_valid : Key → Bool
is_valid k = ltb k.cid (2 ^ 31)

-- `cKeyMax`
abbrev pub key_max : Key
key_max = record {
  cid = 2 ^ 31 - 1;
  mid = 2 ^ 63 - 1;
  moid = 2 ^ 31 - 1;
  cap = 2 ^ 63 - 1;
  acq = 2 ^ 63 - 1;
}

-- `cKeyMin`
abbrev pub key_min : Key
key_min = record { cid = 0; mid = 2 ^ 63; moid = 2 ^ 31; cap = 2 ^ 63; acq = 2 ^ 63 }

-- `Key()`, whose cid is `cCidInvalid`.
abbrev pub key_invalid : Key
key_invalid = record { cid = 2 ^ 31; mid = 0; moid = 0; cap = 0; acq = 0 }
