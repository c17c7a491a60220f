-- ===== src/Socket/Streams.antt =====
-- A socket that is open (c/src/Socket.c) is a stream of bytes for BufferedOStream and for
-- BufferedIStream, as Channel.c uses it.
use tstorage_clients.Prelude.{
  List, Option, Returns, Returns-bind, [], ap, arith, length, le→leb, none, refl, some, sym, true,
  ℕ, ◌++◌, ◌∙◌, ◌≡◌, ◌≤◌,
}
use tstorage_clients.ErrorCode.{OkOr, ok, send}
use tstorage_clients.BufferedIStream.Fill.{Source}
use tstorage_clients.BufferedOStream.Flush.{Sink}
use tstorage_clients.Socket.{Socket, System, is_open, receive_bytes, send_bytes}
use tstorage_clients.Socket.Transfer.{Got, Network, Sent, receive_loop_lem, send_loop_lem}

module _ {W : Type 0} (sys : System W) (net : Network sys) where
  open net use {wire, coming}

  -- The bytes of the connection of a file descriptor, none without one.
  abbrev pub at_fd : (W → ℕ → List ℕ) → Option ℕ → W → List ℕ
  at_fd bytes none w = []
  at_fd bytes (some fd) w = bytes w fd

  abbrev pub IsOpen : Socket W → Type 0
  IsOpen s = is_open s ≡ true

  -- On an open socket of a network that takes at least one byte at a time, Socket_send ends, with
  -- a round for each byte, and does not abort. With ERR_OK all the bytes are on the wire, in
  -- order; otherwise the result is ERR_SEND.
  pub send_bytes_lem :
      (fd : Option ℕ) (w : W) (bytes : List ℕ)
      → IsOpen (record { sockfd = fd; world = w })
      → Returns
          (λ r.
            IsOpen r.1
            × OkOr send r.0
            × (r.0 ≡ ok → at_fd wire (r.1.sockfd) (r.1.world) ≡ at_fd wire fd w ++ bytes))
          (send_bytes sys (record { sockfd = fd; world = w }) bytes)
  unfolding send_bytes is_open
  send_bytes_lem none w bytes h = cc
  send_bytes_lem (some fd) w bytes h =
      Returns-bind (Sent sys net w fd bytes) _ _ _
        (send_loop_lem sys net (length bytes) w fd bytes (omega arith)) (λ r p. (refl, p.0, p.1))

  -- On an open socket, Socket_receive of at most max_size bytes ends, with a round for each wanted
  -- byte, and does not abort. What it returns are the next bytes of the connection, at most
  -- max_size, and none is lost.
  pub receive_bytes_lem :
      (fd : Option ℕ) (w : W) (size max_size : ℕ)
      → IsOpen (record { sockfd = fd; world = w })
      → size ≤ max_size
      → Returns
          (λ r.
            IsOpen r.1
            × (length r.0 ≤ max_size)
            × (at_fd coming fd w ≡ r.0 ++ at_fd coming (r.1.sockfd) (r.1.world)))
          (receive_bytes sys (record { sockfd = fd; world = w }) size max_size)
  unfolding receive_bytes is_open
  receive_bytes_lem none w size max_size h fits = cc
  receive_bytes_lem (some fd) w size max_size h fits = rw (le→leb _ _ fits) (
      Returns-bind (Got sys net w fd max_size []) _ _ _
        (receive_loop_lem sys net size w fd size max_size [] (omega arith))
        (λ r p.
          (refl, omega (arith, ap length p.1, p.2), p.3 ∙ ap (λ t. t ++ coming r.1 fd) (sym p.1))))

  -- Socket_send as the stream of a BufferedOStream.
  abbrev pub socket_sink : Sink (Socket W)
  socket_sink = record {
    write = send_bytes sys;
    Ready = IsOpen;
    sent = λ s. at_fd wire (s.sockfd) (s.world);
    write_lem = λ s. send_bytes_lem (s.sockfd) (s.world);
  }

  -- Socket_receive as the stream of a BufferedIStream.
  abbrev pub socket_source : Source (Socket W)
  socket_source = record {
    read = receive_bytes sys;
    Ready = IsOpen;
    incoming = λ s. at_fd coming (s.sockfd) (s.world);
    read_lem = λ s. receive_bytes_lem (s.sockfd) (s.world);
  }
