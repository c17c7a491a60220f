-- ===== src/ErrorCode.antt =====
-- c/src/ErrorCode.h: the results of the library's functions, and the values of
-- TSCLIENT_ResponseStatus (c/include/tstorage-client/client.h) that they stand for.
use tstorage_clients.Prelude.{Bool, false, refl, true, ℕ, ◌≡◌, ◌≢◌, ◌⊎◌}

-- `enum ErrorCode`.
pub data ErrorCode : Type 0 where
  ok invalid limit resource receive send unexpected : ErrorCode

-- The value of an ErrorCode as a TSCLIENT_ResponseStatus; the client's own errors follow INT8_MAX.
unfoldable pub response_status : ErrorCode → ℕ
response_status ok = 0
response_status invalid = 128
response_status limit = 129
response_status resource = 130
response_status receive = 131
response_status send = 132
response_status unexpected = 133

-- `res == ERR_OK`.
abbrev pub is_ok : ErrorCode → Bool
is_ok ok = true
is_ok _ = false

-- `res == ERR_LIMIT`.
abbrev pub is_limit : ErrorCode → Bool
is_limit limit = true
is_limit _ = false

-- The two results that a function without a memory limit may have.
abbrev pub OkOr : ErrorCode → ErrorCode → Type 0
OkOr e res = (res ≡ ok) ⊎ (res ≡ e)

pub is_ok→eq : (e : ErrorCode) → is_ok e ≡ true → e ≡ ok
is_ok→eq ok h = refl
is_ok→eq _ h = cc

pub is_ok→ne : (e : ErrorCode) → is_ok e ≡ false → e ≢ ok
is_ok→ne ok h = cc
is_ok→ne _ h = cc

pub ne→is_ok : (e : ErrorCode) → e ≢ ok → is_ok e ≡ false
ne→is_ok ok h = absurd (h refl)
ne→is_ok _ h = refl
