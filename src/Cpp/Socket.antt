-- ===== src/Cpp/Socket.antt =====
-- cpp/libtstorageclient++/src/Socket.h and Socket.cpp: the TCP connection of the C++ client. The system calls are a
-- parameter (`Host`), with `W` the state of the system.
pub mod Transfers
pub mod Skipping
pub mod Connecting
use tstorage_clients.Prelude.{
  Bool, List, Option, [], drop, false, if◌then◌else◌, length, ltb, min, none, some, suc, true, zero,
  ℕ, ◌%◌, ◌*◌, ◌++◌, ◌+◌, ◌-◌, ◌/◌, ◌==◌, ◌>>=◌, ◌∷◌,
}
use tstorage_clients.Cpp.DataTypes.{
  ResultT, bad_address, conn_closed, conn_error, conn_refused, conn_reset, conn_timeout,
  interrupted, is_result_ok, not_connected, result_ok, setopt_error, socket_error,
}

-- The values of errno that the code tells apart; EWOULDBLOCK is EAGAIN.
pub data Errno : Type 0 where
  eagain enotconn epipe econnreset eintr etimedout econnrefused : Errno
  eother : ℕ → Errno

-- The answer of a system call.
pub data Answer (A : Type 0) : Type 0 where
  failed : Errno → Answer A
  answered : A → Answer A

-- The system calls, and the allocation of a block.
pub record Host (W : Type 0) : Type 0 where
  pub new_block : W → ℕ → Option (List ℕ) × W
  pub open_fd : W → Answer ℕ × W
  pub addresses : W → List ℕ → ℕ → Option (List ℕ) × W
  pub set_timeval : W → ℕ → Bool → ℕ → ℕ → Answer (Unit {0}) × W
  pub connect_fd : W → ℕ → ℕ → Answer (Unit {0}) × W
  pub shutdown_fd : W → ℕ → Answer (Unit {0}) × W
  pub close_fd : W → ℕ → Answer (Unit {0}) × W
  pub send_fd : W → ℕ → List ℕ → Answer ℕ × W
  pub recv_fd : W → ℕ → ℕ → Answer (List ℕ) × W

-- `class Socket`, with the state of the system; an `mSocketFd` of -1 is `none`, an mErrno of 0 too.
pub record TcpSocket (W : Type 0) : Type 0 where
  pub fd : Option ℕ
  pub errno : Option Errno
  pub addr : List ℕ
  pub port : ℕ
  pub timeout_ms : ℕ
  pub world : W

-- `cSkipBufferSize`
abbrev pub skip_buffer_size : ℕ
skip_buffer_size = 1024

-- `ResultPrio` of Socket::connect, by its values: OK, CONNREFUSED, CONNERROR, CONNTIMEOUT.
abbrev pub prio_of : Errno → ℕ
prio_of e = elim e [ etimedout ↦ 3 | eagain ↦ 3 | econnrefused ↦ 1 | _ ↦ 2 ]

abbrev pub prio_result : ℕ → ResultT
prio_result prio =
    if prio == 1
    then conn_refused
    else if prio == 2
    then conn_error
    else if prio == 3
    then conn_timeout
    else bad_address

abbrev pub max_of : ℕ → ℕ → ℕ
max_of a b = if ltb a b then b else a

-- The results of Socket::send and Socket::recv for an errno.
abbrev pub send_result : Errno → ResultT
send_result e = elim e [
  | eagain ↦ conn_timeout
  | enotconn ↦ conn_closed
  | epipe ↦ conn_closed
  | econnreset ↦ conn_reset
  | eintr ↦ interrupted
  | _ ↦ conn_error
]

abbrev pub recv_result : Errno → ResultT
recv_result e = elim e [ eagain ↦ conn_timeout | eintr ↦ interrupted | _ ↦ conn_error ]

module _ {W : Type 0} where
  -- `connectionEstablished`
  unfoldable pub connection_established : TcpSocket W → Bool
  connection_established s = elim (s.fd) [ none ↦ false | some _ ↦ true ]

  -- `setHost`
  unfoldable pub set_host : TcpSocket W → List ℕ → ℕ → TcpSocket W
  set_host s addr port = record s { addr = addr; port = port }

  module _ (host : Host W) where
    -- `setTimeoutMs()`
    unfoldable pub apply_timeout : TcpSocket W → ResultT × TcpSocket W
    apply_timeout s = elim (s.fd) [
      | none ↦ (result_ok, s)
      | some fd ↦
          let sec = s.timeout_ms / 1000 in
          let usec = s.timeout_ms % 1000 * 1000 in
          let (recv_set, w) = host.set_timeval s.world fd true sec usec in
          elim recv_set [
            | failed e ↦ (setopt_error, record s { world = w; errno = some e })
            | answered _ ↦
                let (send_set, w') = host.set_timeval w fd false sec usec in
                elim send_set [
                  | failed e ↦ (setopt_error, record s { world = w'; errno = some e })
                  | answered _ ↦ (result_ok, record s { world = w' })
                ]
          ]
    ]

    -- `setTimeoutMs(timeoutMs)`
    unfoldable pub set_timeout_ms : TcpSocket W → ℕ → ResultT × TcpSocket W
    set_timeout_ms s timeout_ms = apply_timeout (record s { timeout_ms = timeout_ms })

    -- The loop of Socket::connect, on the addresses that are left, with the priority reached.
    unfoldable pub connect_loop : TcpSocket W → ℕ → ℕ → List ℕ → ResultT × TcpSocket W
    connect_loop s fd prio [] =
        let (_, w) = host.close_fd s.world fd in
        (prio_result prio, record s { fd = none; world = w })
    connect_loop s fd prio (a ∷ others) =
        let (connected, w) = host.connect_fd s.world fd a in
        elim connected [
          | answered _ ↦ (result_ok, record s { world = w; errno = none })
          | failed eintr ↦
              let (_, w') = host.close_fd w fd in
              (interrupted, record s { fd = none; world = w'; errno = some eintr })
          | failed e ↦
              connect_loop (record s { world = w; errno = some e }) fd (max_of prio (prio_of e))
                others
        ]

    -- `connect`
    unfoldable pub connect_socket : TcpSocket W → ResultT × TcpSocket W
    connect_socket s = elim (s.fd) [
      | some fd ↦ (result_ok, s)
      | none ↦
          let (opened, w) = host.open_fd s.world in
          elim opened [
            | failed e ↦ (socket_error, record s { world = w; errno = some e })
            | answered fd ↦
                let (found, w') = host.addresses w s.addr s.port in
                elim found [
                  | none ↦
                      let (_, w'') = host.close_fd w' fd in
                      (bad_address, record s { fd = none; world = w'' })
                  | some found_hosts ↦
                      let (res, s') = apply_timeout (record s { fd = some fd; world = w' }) in
                      if is_result_ok res
                      then connect_loop s' fd 0 found_hosts
                      else (setopt_error, s')
                ]
          ]
    ]

    -- `shutdown`, in both directions
    unfoldable pub shutdown_socket : TcpSocket W → ResultT × TcpSocket W
    shutdown_socket s = elim (s.fd) [
      | none ↦ (not_connected, s)
      | some fd ↦
          let (shut, w) = host.shutdown_fd s.world fd in
          elim shut [
            | answered _ ↦ (result_ok, record s { world = w })
            | failed enotconn ↦ (conn_closed, record s { world = w; errno = some enotconn })
            | failed e ↦ (conn_error, record s { world = w; errno = some e })
          ]
    ]

    -- `close`
    unfoldable pub close_connection : TcpSocket W → ResultT × TcpSocket W
    close_connection s = elim (s.fd) [
      | none ↦ (not_connected, s)
      | some fd ↦
          let (_, s') = shutdown_socket s in
          let (closed, w) = host.close_fd s'.world fd in
          elim closed [
            | failed e ↦ (conn_error, record s' { fd = none; world = w; errno = some e })
            | answered _ ↦ (result_ok, record s' { fd = none; world = w })
          ]
    ]

    -- `abort`
    unfoldable pub abort_connection : TcpSocket W → TcpSocket W
    abort_connection s = elim (s.fd) [
      | none ↦ s
      | some fd ↦ record s { fd = none; world = (host.close_fd s.world fd).1 }
    ]

    -- The loop of Socket::send, for a number of rounds; more rounds than that end the run.
    unfoldable pub send_rounds : ℕ → TcpSocket W → ℕ → List ℕ → Option (ResultT × TcpSocket W)
    send_rounds rounds s fd [] = some (result_ok, s)
    send_rounds zero s fd (b ∷ bs) = none
    send_rounds (suc rounds) s fd (b ∷ bs) =
        let (sent, w) = host.send_fd s.world fd (b ∷ bs) in
        elim sent [
          | failed e ↦ some (send_result e, record s { world = w; errno = some e })
          | answered n ↦ send_rounds rounds (record s { world = w }) fd (drop n (b ∷ bs))
        ]

    -- `send`: a round for each byte is enough, since send(2) sends one at least.
    unfoldable pub send_all : TcpSocket W → List ℕ → Option (ResultT × TcpSocket W)
    send_all s bytes = elim (s.fd) [
      | none ↦ some (not_connected, s)
      | some fd ↦ send_rounds (length bytes) s fd bytes
    ]

    -- `recv`
    unfoldable pub recv_some : TcpSocket W → ℕ → ResultT × List ℕ × TcpSocket W
    recv_some s amount = elim (s.fd) [
      | none ↦ (not_connected, [], s)
      | some fd ↦
          let (got, w) = host.recv_fd s.world fd amount in
          elim got [
            | failed e ↦ (recv_result e, [], record s { world = w; errno = some e })
            | answered [] ↦ (conn_closed, [], record s { world = w })
            | answered (b ∷ bs) ↦ (result_ok, b ∷ bs, record s { world = w })
          ]
    ]

    -- The loop of Socket::recvAtLeast: `wanted` bytes are still missing, and at most `most` may come.
    unfoldable pub recv_rounds :
        ℕ → TcpSocket W → ℕ → ℕ → List ℕ → Option (ResultT × List ℕ × TcpSocket W)
    recv_rounds rounds s zero most had = some (result_ok, had, s)
    recv_rounds zero s (suc wanted) most had = none
    recv_rounds (suc rounds) s (suc wanted) most had =
        let (res, more, s') = recv_some s most in
        elim res [
          | conn_closed ↦ some (result_ok, had, s')
          | result_ok ↦
              recv_rounds rounds s' (suc wanted - length more) (most - length more) (had ++ more)
          | err ↦ some (err, had, s')
        ]

    -- `recvAtLeast`: a round for each wanted byte is enough.
    unfoldable pub recv_at_least : TcpSocket W → ℕ → ℕ → Option (ResultT × List ℕ × TcpSocket W)
    recv_at_least s most wanted = elim (s.fd) [
      | none ↦ some (not_connected, [], s)
      | some fd ↦ recv_rounds wanted s wanted most []
    ]

    -- `recvExactly`
    unfoldable pub recv_exactly : TcpSocket W → ℕ → Option (ResultT × List ℕ × TcpSocket W)
    unfolding recv_at_least
    recv_exactly s amount = recv_at_least s amount amount

    -- The loop of Socket::skipExactly: `missing` bytes are still to be skipped.
    unfoldable pub skip_rounds : ℕ → TcpSocket W → ℕ → ℕ → Option (ResultT × ℕ × TcpSocket W)
    skip_rounds rounds s zero skipped = some (result_ok, skipped, s)
    skip_rounds zero s (suc missing) skipped = none
    skip_rounds (suc rounds) s (suc missing) skipped = do
      let amount = min skip_buffer_size (suc missing)
      (res, bytes, s') ← recv_exactly s amount
      elim (is_result_ok res) [
        | false ↦ some (res, skipped, s')
        | true ↦ elim (ltb (length bytes) amount) [
          | true ↦ some (result_ok, skipped, s')
          | false ↦ skip_rounds rounds s' (suc missing - length bytes) (skipped + length bytes)
        ]
      ]

    -- `skipExactly`: the number of bytes skipped.
    unfoldable pub skip_exactly : TcpSocket W → ℕ → Option (ResultT × ℕ × TcpSocket W)
    skip_exactly s amount = elim (s.fd) [
      | none ↦ some (not_connected, 0, s)
      | some fd ↦ skip_rounds amount s amount 0
    ]
