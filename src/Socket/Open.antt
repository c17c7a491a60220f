-- ===== src/Socket/Open.antt =====
-- What Socket_open (c/src/Socket.c) promises.
use tstorage_clients.Prelude.{
  ==_iff, All, Bool, Bool-cases, List, Option-cases, Returns, Returns-bind, [], arith, assert,
  false, if◌then◌else◌, inl, inr, refl, some, true, ℕ, ◌%◌, ◌>>◌, ◌^◌, ◌∷◌, ◌≡◌, ◌≢◌, ◌⊎◌,
}
use tstorage_clients.ErrorCode.{ErrorCode, is_ok, limit, ne→is_ok, ok, receive}
use tstorage_clients.Socket.{
  Address, Socket, System, inet, inet6, is_open, open_loop, open_round, open_socket, other,
  try_address,
}
use mathlib.Core.Bool.{not}

module _ {W : Type 0} (sys : System W) where
  -- An IPv4 or IPv6 address has the size of its structure.
  abbrev pub Sized : Address → Type 0
  Sized (inet a addrlen) = addrlen ≡ sys.sockaddr_in_size
  Sized (inet6 a addrlen) = addrlen ≡ sys.sockaddr_in6_size
  Sized (other a addrlen) = Unit

  -- What getaddrinfo(3) promises.
  pub record Resolver : Type 0 where
    pub sized :
        (w : W) (host : List ℕ) (addrs : List Address)
        → (sys.getaddrinfo w host).0 ≡ some addrs
        → All Sized addrs

  -- A result, and whether the socket is open: it is so exactly with ERR_OK.
  abbrev pub Opened : ErrorCode × Socket W → Type 0
  Opened r = (r.0 ≡ ok) × (is_open r.1 ≡ true) ⊎ (r.0 ≢ ok) × (r.0 ≢ limit) × (is_open r.1 ≡ false)

  -- A round leaves the loop with an open socket, or goes on with a closed one.
  abbrev Tried : Bool × ErrorCode × Socket W → Type 0
  Tried r =
      (r.0 ≡ true) × (r.1 ≡ ok) × (is_open r.2 ≡ true)
      ⊎ (r.0 ≡ false) × (r.1 ≢ ok) × (r.1 ≢ limit) × (is_open r.2 ≡ false)

  try_address-Tried :
      (res : ErrorCode) (s : Socket W) (addr : Address) (port : ℕ)
      → Tried (try_address sys res s addr port)
  unfolding try_address is_open
  try_address-Tried res s addr port = elim (Option-cases (sys.socket (s.world) addr).0) [
    | inl e ↦
        rw (Tried, try_address, e)
          (inr (refl, (λ h. ground (arith, h)), (λ h. ground (arith, h)), refl))
    | inr (fd, e) ↦ elim (Bool-cases (sys.connect (sys.socket (s.world) addr).1 fd addr port).0) [
      | inl c ↦ rw (Tried, try_address, e, c) (inl (refl, refl, refl))
      | inr c ↦
          rw (Tried, try_address, e, c)
            (inr (refl, (λ h. ground (arith, h)), (λ h. ground (arith, h)), refl))
    ]
  ]

  open_round-Tried :
      (res : ErrorCode) (s : Socket W) (addr : Address) (port : ℕ)
      → Sized addr
      → res ≢ ok
      → res ≢ limit
      → is_open s ≡ false
      → Returns Tried (open_round sys res s addr port)
  unfolding open_round
  open_round-Tried res s (inet a addrlen) port e h l closed =
      let assertion = (==_iff _ _).1 e in
      rw assertion (try_address-Tried res s (inet a addrlen) port)
  open_round-Tried res s (inet6 a addrlen) port e h l closed =
      let assertion = (==_iff _ _).1 e in
      rw assertion (try_address-Tried res s (inet6 a addrlen) port)
  open_round-Tried res s (other a addrlen) port e h l closed = inr (refl, h, l, closed)

  open_loop-Opened :
      (res : ErrorCode) (s : Socket W) (addrs : List Address) (port : ℕ)
      → All Sized addrs
      → res ≢ ok
      → res ≢ limit
      → is_open s ≡ false
      → Returns Opened (open_loop sys res s addrs port)
  unfolding open_loop
  open_loop-Opened res s [] port e h l closed = inr (h, l, closed)
  open_loop-Opened res s (addr ∷ addrs) port e h l closed = rw closed (
      Returns-bind Tried Opened (open_round sys res s addr port) _
        (open_round-Tried res s addr port e.0 h l closed)
        λ r p. elim p [
          | inl (connected, done, opened) ↦ rw (Returns, connected) (inl (done, opened))
          | inr (missed, h', l', closed') ↦
              rw missed (open_loop-Opened r.1 r.2 addrs port e.1 h' l' closed')
        ])

  checked :
      (r : ErrorCode × Socket W)
      → Opened r
      → Returns Opened
          (assert (if is_ok r.0 then is_open r.1 else not (is_open r.1)) >> some (r.0, r.1))
  checked r (inl (done, opened)) = rw (done, opened) (inl (refl, opened))
  checked r (inr (failed, other_code, closed)) =
      let no : is_ok r.0 ≡ false = ne→is_ok r.0 failed in
      rw (no, closed) (inr (failed, other_code, closed))

  -- On a socket that is not open, and if getaddrinfo gives IPv4 and IPv6 addresses the sizes of
  -- their structures, Socket_open does not abort, whatever else the system calls answer: no
  -- address is tried while a socket is open, and the socket is open afterwards exactly with
  -- ERR_OK.
  pub open_socket_lem :
      Resolver
      → (s : Socket W) (host : List ℕ) (port : ℕ) → is_open s ≡ false
      → Returns Opened (open_socket sys s host port)
  unfolding open_socket is_open
  open_socket_lem resolver s host port closed =
      elim (Option-cases (sys.getaddrinfo (s.world) host).0) [
        | inl e ↦ rw (Returns, e) (inr ((λ h. ground (arith, h)), (λ h. ground (arith, h)), closed))
        | inr (addrs, e) ↦
            rw (Returns, e)
              (Returns-bind Opened Opened
                (open_loop sys receive (record s { world = (sys.getaddrinfo (s.world) host).1 })
                  addrs (port % 2 ^ 16))
                _
                (open_loop-Opened receive (record s { world = (sys.getaddrinfo (s.world) host).1 })
                  addrs (port % 2 ^ 16) (resolver.sized s.world host addrs e)
                  (λ h. ground (arith, h)) (λ h. ground (arith, h)) closed)
                checked)
      ]
