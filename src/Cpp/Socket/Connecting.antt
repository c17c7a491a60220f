-- ===== src/Cpp/Socket/Connecting.antt =====
-- How the socket of cpp/libtstorageclient++/src/Socket.cpp is opened and closed.
use tstorage_clients.Prelude.{
  Bool, Bool-cases, List, Option-cases, [], false, inl, inr, none, refl, some, sym, true, ℕ, ◌%◌,
  ◌*◌, ◌/◌, ◌==◌, ◌∷◌, ◌≡◌, ◌⊎◌,
}
use tstorage_clients.Cpp.DataTypes.{ResultT, result_ok, setopt_error}
use tstorage_clients.Cpp.Socket.{
  Answer, Errno, Host, TcpSocket, abort_connection, answered, apply_timeout, close_connection,
  connect_loop, connect_socket, connection_established, eagain, econnrefused, econnreset, eintr,
  enotconn, eother, epipe, etimedout, failed, max_of, prio_of, prio_result, shutdown_socket,
}

-- The results of connect with which the socket has a descriptor.
abbrev pub keeps_fd : ResultT → Bool
keeps_fd res = elim res [ result_ok ↦ true | setopt_error ↦ true | _ ↦ false ]

prio_result-closed : (prio : ℕ) → keeps_fd (prio_result prio) ≡ false
prio_result-closed prio = elim (Bool-cases (prio == 1)) [
  | inl one ↦ rw one refl
  | inr not_one ↦ elim (Bool-cases (prio == 2)) [
    | inl two ↦ rw (not_one, two) refl
    | inr not_two ↦ elim (Bool-cases (prio == 3)) [
      | inl three ↦ rw (not_one, not_two, three) refl
      | inr not_three ↦ rw (not_one, not_two, not_three) refl
    ]
  ]
]

Answer-split :
    {A : Type 0} (a : Answer A) → ((x : A) × (a ≡ answered x)) ⊎ ((e : Errno) × (a ≡ failed e))
Answer-split (failed e) = inr (e, refl)
Answer-split (answered x) = inl (x, refl)

module _ {W : Type 0} (host : Host W) where
  -- The result tells whether there is a descriptor.
  abbrev pub Consistent : ResultT × TcpSocket W → Type 0
  Consistent r = connection_established r.1 ≡ keeps_fd r.0

  -- The socket after an address refused it.
  abbrev refused : TcpSocket W → ℕ → ℕ → Errno → TcpSocket W
  refused s fd a e = record s { world = (host.connect_fd s.world fd a).1; errno = some e }

  connect_loop_lem :
      (s : TcpSocket W) (fd prio : ℕ) (hosts : List ℕ)
      → connection_established s ≡ true
      → Consistent (connect_loop host s fd prio hosts)
  unfolding connect_loop connection_established
  connect_loop_lem s fd prio [] f = sym (prio_result-closed prio)
  connect_loop_lem s fd prio (a ∷ hosts) f = elim (Answer-split (host.connect_fd s.world fd a).0) [
    | inl (x, g) ↦ rw (connect_loop, g) f
    | inr (eagain, g) ↦
        rw (connect_loop, g)
          (connect_loop_lem (refused s fd a (eagain)) fd (max_of prio (prio_of (eagain))) hosts f)
    | inr (enotconn, g) ↦
        rw (connect_loop, g)
          (connect_loop_lem (refused s fd a (enotconn)) fd (max_of prio (prio_of (enotconn))) hosts
            f)
    | inr (epipe, g) ↦
        rw (connect_loop, g)
          (connect_loop_lem (refused s fd a (epipe)) fd (max_of prio (prio_of (epipe))) hosts f)
    | inr (econnreset, g) ↦
        rw (connect_loop, g)
          (connect_loop_lem (refused s fd a (econnreset)) fd (max_of prio (prio_of (econnreset)))
            hosts f)
    | inr (eintr, g) ↦ rw (connect_loop, g) refl
    | inr (etimedout, g) ↦
        rw (connect_loop, g)
          (connect_loop_lem (refused s fd a (etimedout)) fd (max_of prio (prio_of (etimedout)))
            hosts f)
    | inr (econnrefused, g) ↦
        rw (connect_loop, g)
          (connect_loop_lem (refused s fd a (econnrefused)) fd
            (max_of prio (prio_of (econnrefused))) hosts f)
    | inr (eother n, g) ↦
        rw (connect_loop, g)
          (connect_loop_lem (refused s fd a (eother n)) fd (max_of prio (prio_of (eother n))) hosts
            f)
  ]

  apply_timeout_lem :
      (s : TcpSocket W)
      → (connection_established (apply_timeout host s).1 ≡ connection_established s)
        × (((apply_timeout host s).0 ≡ result_ok) ⊎ ((apply_timeout host s).0 ≡ setopt_error))
  unfolding apply_timeout connection_established
  apply_timeout_lem s = elim (Option-cases s.fd) [
    | inl none_there ↦ rw none_there (refl, inl refl)
    | inr (fd, f) ↦
        rw f
          (elim (Answer-split
            (host.set_timeval s.world fd true (s.timeout_ms / 1000)
              (s.timeout_ms % 1000 * 1000)).0) [
                | inr (e, g) ↦ rw (apply_timeout, g) (refl, inr refl)
                | inl (x, g) ↦
                    elim (Answer-split
                      (host.set_timeval
                        (host.set_timeval s.world fd true (s.timeout_ms / 1000)
                          (s.timeout_ms % 1000 * 1000)).1
                        fd false (s.timeout_ms / 1000) (s.timeout_ms % 1000 * 1000)).0) [
                          | inr (e, k) ↦ rw (apply_timeout, g, k) (refl, inr refl)
                          | inl (y, k) ↦ rw (apply_timeout, g, k) (refl, inl refl)
                        ]
              ])
  ]

  pub abort_connection-closed : (s : TcpSocket W) → (abort_connection host s).fd ≡ none
  unfolding abort_connection
  abort_connection-closed s = elim (Option-cases s.fd) [
    | inl none_there ↦ rw none_there refl
    | inr (fd, f) ↦ rw f refl
  ]

  pub close_connection-closed : (s : TcpSocket W) → (close_connection host s).1.fd ≡ none
  unfolding close_connection
  close_connection-closed s = elim (Option-cases s.fd) [
    | inl none_there ↦ rw none_there refl
    | inr (fd, f) ↦
        rw f
          (elim (Answer-split
            (host.close_fd (shutdown_socket host (record s { fd = some fd })).1.world fd).0) [
              | inl (x, g) ↦ rw (close_connection, g) refl
              | inr (e, g) ↦ rw (close_connection, g) refl
            ])
  ]

  -- On a socket without a descriptor, and whatever the system calls answer, Socket::connect ends
  -- with a descriptor exactly if its result is OK or SETOPT_ERROR.
  pub connect_socket_lem : (s : TcpSocket W) → s.fd ≡ none → Consistent (connect_socket host s)
  unfolding connect_socket connection_established
  connect_socket_lem s closed = rw closed (elim (Answer-split (host.open_fd s.world).0) [
    | inr (e, g) ↦ rw (connect_socket, g) refl
    | inl (fd, g) ↦ elim (Option-cases (host.addresses (host.open_fd s.world).1 s.addr s.port).0) [
      | inl k ↦ rw (connect_socket, g, k) refl
      | inr (hosts, k) ↦
          let s' : TcpSocket W = record s {
            fd = some fd;
            world = (host.addresses (host.open_fd s.world).1 s.addr s.port).1;
          } in
          elim (apply_timeout_lem s').1 [
            | inl set ↦
                rw (connect_socket, g, k, set)
                  (connect_loop_lem (apply_timeout host s').1 fd 0 hosts (apply_timeout_lem s').0)
            | inr not_set ↦ rw (connect_socket, g, k, not_set) (apply_timeout_lem s').0
          ]
    ]
  ])
