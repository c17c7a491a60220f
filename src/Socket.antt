-- ===== src/Socket.antt =====
-- c/src/Socket.h and Socket.c: a TCP connection. The system calls are a parameter (`System`), with
-- `W` the state of the system.
pub mod Open
pub mod Transfer
pub mod Streams
use tstorage_clients.Prelude.{
  Bool, List, Option, [], assert, drop, false, if◌then◌else◌, leb, length, none, some, suc, true,
  zero, ℕ, ◌%◌, ◌++◌, ◌-◌, ◌==◌, ◌>>=◌, ◌>>◌, ◌^◌, ◌∷◌,
}
use tstorage_clients.ErrorCode.{ErrorCode, is_ok, ok, receive, resource, send}
use mathlib.Core.Bool.{not}

-- An address that getaddrinfo(3) gives, and its ai_addrlen: an IPv4 or IPv6 one, or one of another
-- family.
pub data Address : Type 0 where
  inet inet6 other : ℕ → ℕ → Address

-- The system calls. A result `none` of `getaddrinfo`, `socket`, `send_part` (send(2)) and `recv`, and `false` of
-- the others, is an error. The sizes are those of `struct sockaddr_in` and `struct sockaddr_in6`.
pub record System (W : Type 0) : Type 0 where
  pub sockaddr_in_size : ℕ
  pub sockaddr_in6_size : ℕ
  pub getaddrinfo : W → List ℕ → Option (List Address) × W
  pub socket : W → Address → Option ℕ × W
  pub connect : W → ℕ → Address → ℕ → Bool × W
  pub close : W → ℕ → Bool × W
  pub send_part : W → ℕ → List ℕ → Option ℕ × W
  pub recv : W → ℕ → ℕ → Option (List ℕ) × W
  pub setsockopt : W → ℕ → Bool → ℕ → Bool × W

-- `struct Socket`, with the state of the system; a `sockfd` of -1 is `none`.
pub record Socket (W : Type 0) : Type 0 where
  pub sockfd : Option ℕ
  pub world : W

module _ {W : Type 0} where
  -- `Socket_initialize`
  unfoldable pub initialize_socket : Socket W → Socket W
  initialize_socket s = record s { sockfd = none }

  -- `Socket_finalize`
  unfoldable pub finalize_socket : Socket W → Socket W
  finalize_socket s = s

  -- `Socket_isOpen`
  unfoldable pub is_open : Socket W → Bool
  is_open s = elim (s.sockfd) [ none ↦ false | some _ ↦ true ]

  module _ (sys : System W) where
    -- The part of a round behind the switch: a socket, and its connection to the address.
    unfoldable pub try_address : ErrorCode → Socket W → Address → ℕ → Bool × ErrorCode × Socket W
    try_address res s addr port =
        let (fd, w) = sys.socket s.world addr in
        elim fd [
          | none ↦ (false, resource, record { sockfd = none; world = w })
          | some fd' ↦
              let (connected, w') = sys.connect w fd' addr port in
              if connected
              then (true, ok, record { sockfd = some fd'; world = w' })
              else (let (_, w'') = sys.close w' fd' in
                  (false, send, record { sockfd = none; world = w'' }))
        ]

    -- A round of the loop of Socket_open: whether the loop is left, the result, the socket.
    unfoldable pub open_round :
        ErrorCode → Socket W → Address → ℕ → Option (Bool × ErrorCode × Socket W)
    open_round res s (inet a addrlen) port = do
      assert (addrlen == sys.sockaddr_in_size)
      some (try_address res s (inet a addrlen) port)
    open_round res s (inet6 a addrlen) port = do
      assert (addrlen == sys.sockaddr_in6_size)
      some (try_address res s (inet6 a addrlen) port)
    open_round res s (other a addrlen) port = some (false, res, s)

    -- The loop of Socket_open.
    unfoldable pub open_loop :
        ErrorCode → Socket W → List Address → ℕ → Option (ErrorCode × Socket W)
    open_loop res s [] port = some (res, s)
    open_loop res s (addr ∷ addrs) port = do
      assert (not (is_open s))
      (connected, res', s') ← open_round res s addr port
      elim connected [ true ↦ some (res', s') | false ↦ open_loop res' s' addrs port ]

    -- `Socket_open`
    unfoldable pub open_socket : Socket W → List ℕ → ℕ → Option (ErrorCode × Socket W)
    open_socket s host port =
        let (addrs, w) = sys.getaddrinfo s.world host in
        elim addrs [
          | none ↦ some (receive, record s { world = w })
          | some list ↦ do
            (res, s') ← open_loop receive (record s { world = w }) list (port % 2 ^ 16)
            assert (if is_ok res then is_open s' else not (is_open s'))
            some (res, s')
        ]

    -- `Socket_close`
    unfoldable pub close_socket : Socket W → Option (ErrorCode × Socket W)
    close_socket s = elim (s.sockfd) [
      | none ↦ none
      | some fd ↦
          let (closed, w) = sys.close s.world fd in
          some ((if closed then ok else resource), record { sockfd = none; world = w })
    ]

    -- The loop of Socket_send, for a number of rounds; more rounds than that end the run.
    unfoldable pub send_loop : ℕ → W → ℕ → List ℕ → Option (ErrorCode × W)
    send_loop rounds w fd [] = some (ok, w)
    send_loop zero w fd (b ∷ bs) = none
    send_loop (suc rounds) w fd (b ∷ bs) =
        let (sent, w') = sys.send_part w fd (b ∷ bs) in
        elim sent [ none ↦ some (send, w') | some n ↦ send_loop rounds w' fd (drop n (b ∷ bs)) ]

    -- `Socket_send`: one round for each byte is enough, since send(2) sends one at least.
    unfoldable pub send_bytes : Socket W → List ℕ → Option (ErrorCode × Socket W)
    send_bytes s bytes = elim (s.sockfd) [
      | none ↦ none
      | some fd ↦ do
        (res, w) ← send_loop (length bytes) s.world fd bytes
        some (res, record s { world = w })
    ]

    -- The loop of Socket_receive: `wanted` bytes are still missing, and at most `most` may come.
    unfoldable pub receive_loop : ℕ → W → ℕ → ℕ → ℕ → List ℕ → Option (List ℕ × W)
    receive_loop rounds w fd zero most got = some (got, w)
    receive_loop zero w fd (suc wanted) most got = none
    receive_loop (suc rounds) w fd (suc wanted) most got =
        let (bytes, w') = sys.recv w fd most in
        elim bytes [
          | none ↦ some (got, w')
          | some [] ↦ some (got, w')
          | some (b ∷ bs) ↦
              receive_loop rounds w' fd (suc wanted - length (b ∷ bs)) (most - length (b ∷ bs))
                (got ++ (b ∷ bs))
        ]

    -- `Socket_receive`: the bytes received; one round for each wanted byte is enough.
    unfoldable pub receive_bytes : Socket W → ℕ → ℕ → Option (List ℕ × Socket W)
    receive_bytes s size max_size = do
      assert (leb size max_size)
      elim (s.sockfd) [
        | none ↦ none
        | some fd ↦ do
          (bytes, w) ← receive_loop size s.world fd size max_size []
          some (bytes, record s { world = w })
      ]

    -- `Socket_setTimeout`
    unfoldable pub set_timeout : Socket W → ℕ → Option (ErrorCode × Socket W)
    set_timeout s timeout = elim (s.sockfd) [
      | none ↦ none
      | some fd ↦
          let (changed, w) = sys.setsockopt s.world fd true timeout in
          if changed
          then (let (sent, w') = sys.setsockopt w fd false timeout in
              some ((if sent then ok else resource), record s { world = w' }))
          else some (resource, record s { world = w })
    ]
