-- ===== src/Examples/Setup.antt =====
-- Concrete instances of what c/src takes from outside: memory, streams, payload types, a network.
use tstorage_clients.Prelude.{
  All, List, [], ap, arith, drop, inl, length, length-append, length-replicate, length-take, min,
  refl, replicate, some, sym, take, take-append-drop, take-append_self, take_all, true, ℕ, ◌++◌,
  ◌-◌, ◌∙◌, ◌∷◌, ◌≡◌, ◌≤◌,
}
use tstorage_clients.Memory.{Allocator}
use tstorage_clients.ErrorCode.{ok}
use tstorage_clients.BufferedIStream.{BufferedIStream}
use tstorage_clients.BufferedIStream.Fill.{IsIn, Source}
use tstorage_clients.BufferedOStream.{BufferedOStream}
use tstorage_clients.BufferedOStream.Flush.{Sink}
use tstorage_clients.BufferedOStream.Reserve.{IsOut}
use tstorage_clients.DynamicBuffer.{DynamicBuffer}
use tstorage_clients.DynamicBuffer.Resize.{IsBuffer}
use tstorage_clients.Key.{Key}
use tstorage_clients.Record.{PayloadType, Record}
use tstorage_clients.Record.Serialize.{Encodes}
use tstorage_clients.RecordsSet.{RecordsSet}
use tstorage_clients.Socket.{System, inet}
use tstorage_clients.Socket.Open.{Resolver, Sized}
use tstorage_clients.Socket.Transfer.{Network}
use mathlib.Core.Option.{some_inj}
use mathlib.Core.Path.{subst}

unfoldable pub extended_block : List ℕ → ℕ → List ℕ
extended_block old n = take n old ++ replicate (n - length old) 0

pub length-extended_block : (old : List ℕ) (n : ℕ) → length (extended_block old n) ≡ n
unfolding extended_block
length-extended_block old n = omega (
  arith,
  length-append (take n old) (replicate (n - length old) 0),
  length-take n old,
  length-replicate {A = ℕ} (n - length old) 0,
)

pub extended_block-keeps :
    (old : List ℕ) (n : ℕ) → length old ≤ n → take (length old) (extended_block old n) ≡ old
unfolding extended_block
extended_block-keeps old n h =
    ap (λ t. take (length old) (t ++ replicate (n - length old) 0)) (take_all n old h)
    ∙ take-append_self old (replicate (n - length old) 0)

abbrev pub roomy : Allocator
unfolding extended_block
roomy = record {
  realloc = λ k old n. some (extended_block old n);
  realloc_length = λ k old n new e. ap length (sym (some_inj.0 e)) ∙ length-extended_block old n;
  realloc_keeps =
      λ k old n new e h. ap (take (length old)) (sym (some_inj.0 e)) ∙ extended_block-keeps old n h;
}

-- A stream that collects what it is given.
abbrev pub log_sink : Sink (List ℕ)
log_sink = record {
  write = λ s bytes. some (ok, s ++ bytes);
  Ready = λ _. Unit;
  sent = λ s. s;
  write_lem = λ s bytes _. (tt, inl refl, λ _. refl);
}

-- A stream that gives the bytes of a list.
abbrev pub list_source : Source (List ℕ)
list_source = record {
  read = λ s size max_size. some (take max_size s, drop max_size s);
  Ready = λ _. Unit;
  incoming = λ s. s;
  read_lem = λ s size max_size _ h.
      (tt, omega (arith, length-take max_size s), sym (take-append-drop max_size s));
}

-- A payload of at most eight bytes.
abbrev pub bytes_type : PayloadType
bytes_type = record {
  size = 40;
  offset = 32;
  to_bytes = λ v n. (take n (take 8 v), length (take 8 v));
  from_bytes = λ bytes. some bytes;
}

abbrev pub bytes_codec : Encodes bytes_type
bytes_codec = record {
  encode = take 8;
  needed = λ v n. refl;
  within = λ v n. omega (arith, length-take n (take 8 v));
  whole = λ v n h. take_all n (take 8 v) h;
  small = λ v. omega (arith, length-take 8 v);
}

abbrev pub empty_buffer : DynamicBuffer
empty_buffer = record { max_size = 100; size = 0; storage = []; calls = 0 }

pub empty_buffer-IsBuffer : IsBuffer empty_buffer
empty_buffer-IsBuffer = record { within = omega arith; sized = refl; bounded = omega arith }

abbrev pub empty_output : BufferedOStream (List ℕ)
empty_output = record { buffer = empty_buffer; stream = []; reserve_pos = 0 }

pub empty_output-IsOut : IsOut empty_output
empty_output-IsOut = record { buffered = empty_buffer-IsBuffer; in_buffer = omega arith }

-- Three bytes are confirmed.
abbrev pub some_output : BufferedOStream (List ℕ)
some_output = record {
  buffer = record { max_size = 6; size = 4; storage = 1 ∷ 2 ∷ 3 ∷ 4 ∷ []; calls = 1 };
  stream = 9 ∷ [];
  reserve_pos = 3;
}

pub some_output-IsOut : IsOut some_output
some_output-IsOut = record {
  buffered = record { within = omega arith; sized = refl; bounded = omega arith };
  in_buffer = omega arith;
}

-- Three bytes are read, of which one is reserved.
abbrev pub some_input : BufferedIStream (List ℕ)
some_input = record {
  buffer = record { max_size = 20; size = 4; storage = 1 ∷ 2 ∷ 3 ∷ 4 ∷ []; calls = 1 };
  stream = 5 ∷ 6 ∷ 7 ∷ 8 ∷ [];
  read_pos = 3;
  reserve_pos = 1;
}

pub some_input-IsIn : IsIn some_input
some_input-IsIn = record {
  buffered = record { within = omega arith; sized = refl; bounded = omega arith };
  in_buffer = omega arith;
  in_read = omega arith;
}

abbrev pub key_of : ℕ → Key
key_of cid = record { cid = cid; mid = 2; moid = 3; cap = 4; acq = 5 }

abbrev pub first_record : Record
first_record = record { key = key_of 1; payload = 10 ∷ 11 ∷ [] }

abbrev pub second_record : Record
second_record = record { key = key_of 7; payload = [] }

-- A network that takes and gives one byte at a time; its state is what was sent and what will come.
abbrev pub slow_system : System (List ℕ × List ℕ)
slow_system = record {
  sockaddr_in_size = 16;
  sockaddr_in6_size = 28;
  getaddrinfo = λ w host. (some (inet 1 16 ∷ []), w);
  socket = λ w addr. (some 3, w);
  connect = λ w fd addr port. (true, w);
  close = λ w fd. (true, w);
  send_part = λ w fd bytes. (some 1, (w.0 ++ take 1 bytes, w.1));
  recv = λ w fd most. (some (take (min most 1) (w.1)), (w.0, drop (min most 1) (w.1)));
  setsockopt = λ w fd receives timeout. (true, w);
}

pub slow_resolver : Resolver slow_system
slow_resolver = record {
  sized = λ w host addrs e. subst (All (Sized slow_system)) (some_inj.0 e) (refl, tt);
}

abbrev pub slow_network : Network slow_system
slow_network = record {
  wire = λ w fd. w.0;
  coming = λ w fd. w.1;
  send_part_lem = λ w fd bytes n h e.
      let one : 1 ≡ n = some_inj.0 e in
      (omega arith, omega arith, ap (λ (k : ℕ). w.0 ++ take k bytes) one);
  recv_lem = λ w fd most bytes e. (
    omega (arith, ap length (some_inj.0 e), length-take (min most 1) (w.1)),
    sym (take-append-drop (min most 1) (w.1))
        ∙ ap (λ t. t ++ drop (min most 1) (w.1)) (some_inj.0 e),
  );
  recv_failed = λ w fd most e. absurd (cc);
}

abbrev pub two_records : RecordsSet
two_records = record {
  payload_type = bytes_type;
  array = record {
    buffer = record { max_size = 1000; size = 96; storage = replicate 96 0; calls = 1 };
    elem_size = 40;
    size = 2;
  };
  elements = first_record ∷ second_record ∷ [];
}

abbrev pub no_records : RecordsSet
no_records = record {
  payload_type = bytes_type;
  array = record { buffer = empty_buffer; elem_size = 40; size = 0 };
  elements = [];
}
