-- ===== src/Examples/CppSetup.antt =====
-- Concrete instances of what cpp/libtstorageclient++ takes from outside, and a channel.
use tstorage_clients.Prelude.{
  Bool, List, Option, [], ap, arith, drop, false, inl, length, length-replicate, length-take, min,
  none, refl, replicate, some, sym, take, take-append-drop, take_all, true, ℕ, ◌++◌, ◌+◌, ◌-◌, ◌^◌,
  ◌∙◌, ◌∷◌, ◌≡◌, ◌≢◌, ◌≤◌,
}
use tstorage_clients.Cpp.Batch.{BatchSerializer, ProtoT, is_empty, next_record_offset}
use tstorage_clients.Cpp.Batch.Sequence.{InBatches}
use tstorage_clients.Cpp.Batch.Wire.{no_batches}
use tstorage_clients.Cpp.Buffer.{Buffer}
use tstorage_clients.Cpp.Buffer.Contents.{Sound, room}
use tstorage_clients.Cpp.Channel.{PayloadFormat}
use tstorage_clients.Cpp.Channel.Records.{Contract}
use tstorage_clients.Cpp.ChannelImpl.{ChannelImpl}
use tstorage_clients.Cpp.ChannelImpl.Moving.{Live}
use tstorage_clients.Cpp.ChannelImpl.Sending.{Sending}
use tstorage_clients.Cpp.DataTypes.{sub_int, sub_key}
use tstorage_clients.Cpp.Socket.{Answer, Errno, Host, TcpSocket, answered, failed}
use tstorage_clients.Cpp.Socket.Transfers.{Platform}
use tstorage_clients.Examples.Setup.{key_of}
use tstorage_clients.Key.{IsKey, Key}
use mathlib.Core.Option.{some_inj}

answer_of : {A : Type 0} → A → Answer A → A
answer_of a (failed e) = a
answer_of a (answered x) = x

pub answered_inj : {A : Type 0} (x y : A) → answered x ≡ answered y → x ≡ y
unfolding answer_of
answered_inj x y e = ap (answer_of x) e

is_failed : {A : Type 0} → Answer A → Bool
is_failed (failed e) = true
is_failed (answered x) = false

pub answered-ne : {A : Type 0} (x : A) (e : Errno) → answered x ≢ failed e
unfolding is_failed
answered-ne x e h = absurd (ground (arith, ap is_failed h))

-- A system that takes and gives one byte at a time.
abbrev pub slow_host : Host (List ℕ × List ℕ)
slow_host = record {
  new_block = λ w n. (some (replicate n 0), w);
  open_fd = λ w. (answered 3, w);
  addresses = λ w host port. (some (1 ∷ []), w);
  set_timeval = λ w fd receives sec usec. (answered tt, w);
  connect_fd = λ w fd addr. (answered tt, w);
  shutdown_fd = λ w fd. (answered tt, w);
  close_fd = λ w fd. (answered tt, w);
  send_fd = λ w fd bytes. (answered 1, (w.0 ++ take 1 bytes, w.1));
  recv_fd = λ w fd most. (answered (take (min most 1) (w.1)), (w.0, drop (min most 1) (w.1)));
}

abbrev pub slow_platform : Platform slow_host
slow_platform = record {
  wire = λ w fd. w.0;
  coming = λ w fd. w.1;
  send_fd_lem = λ w fd bytes n h e.
      let one : 1 ≡ n = answered_inj 1 n e in
      (omega (arith, one), omega (arith, one, h), ap (λ (k : ℕ). w.0 ++ take k bytes) one);
  recv_fd_lem = λ w fd most bytes e.
      let same : take (min most 1) (w.1) ≡ bytes = answered_inj _ bytes e in
      (
        omega (arith, ap length same, length-take (min most 1) (w.1)),
        sym (take-append-drop (min most 1) (w.1)) ∙ ap (λ t. t ++ drop (min most 1) (w.1)) same,
      );
  recv_fd_wire = λ w fd most. refl;
  recv_fd_failed = λ w fd most e h. absurd (answered-ne _ e h);
  new_block_length = λ w n block e. ap length (sym (some_inj.0 e)) ∙ length-replicate {A = ℕ} n 0;
}

-- The payloads are lists of bytes.
abbrev pub bytes_format : PayloadFormat (List ℕ)
bytes_format = record { to_payload = λ v n. (take n v, length v); from_payload = λ bs. some bs }

abbrev pub bytes_contract : Contract bytes_format
bytes_contract = record {
  encode = λ v. v;
  needed = λ v n. refl;
  within = λ v n. omega (arith, length-take n v);
  complete = λ v n h. take_all n v h;
}

abbrev pub zeros_block : List ℕ
zeros_block = replicate 128 0

abbrev pub zeros_buffer : Buffer
zeros_buffer = record {
  block = some zeros_block;
  buffer_size = 128;
  write_offset = 0;
  read_offset = 0;
}

abbrev pub zeros_buffer-Sound : Sound zeros_buffer zeros_block
zeros_buffer-Sound = record {
  has_block = refl;
  whole = refl;
  in_order = omega arith;
  in_bounds = omega arith;
  small = omega arith;
}

abbrev pub tcp_socket : Option ℕ → TcpSocket (List ℕ × List ℕ)
tcp_socket fd = record {
  fd = fd;
  errno = none;
  addr = 49 ∷ [];
  port = 2025;
  timeout_ms = 20000;
  world = ([], 1 ∷ 2 ∷ 3 ∷ 4 ∷ []);
}

abbrev pub fresh_batch : BatchSerializer
fresh_batch = record { size_field = some 4; current_cid = 2 ^ 32 - 1; current_size = 0 }

abbrev pub open_channel : ChannelImpl (List ℕ × List ℕ)
open_channel = record {
  buffer = zeros_buffer;
  socket = tcp_socket (some 3);
  expected_payload_size = 8;
  memory_limit = 128;
  batch = fresh_batch;
}

abbrev pub open_channel-Live : Live open_channel zeros_block 3 128
open_channel-Live = record { sound = zeros_buffer-Sound; connected = refl; sized = refl }

abbrev pub no_batches_yet :
    (proto : ProtoT) → InBatches proto [] [] [] fresh_batch zeros_buffer zeros_block
no_batches_yet proto = record {
  past = [];
  past_bytes = [];
  done = [];
  recs = [];
  cut = no_batches;
  split = refl;
  placed = refl;
  holds = inl (refl, record { no_size = refl; at_field = refl; contents = refl }, omega arith);
}

abbrev pub open_channel-Sending :
    (proto : ProtoT) → Sending true slow_host slow_platform proto [] [] open_channel 3 128
open_channel-Sending proto = record {
  block' = zeros_block;
  live = open_channel-Live;
  at_start = refl;
  hope = omega arith;
  near = λ _. omega arith;
  batches = no_batches_yet proto;
}

-- A buffer with bytes to be read before its end.
abbrev pub used_buffer : Buffer
used_buffer = record {
  block = some zeros_block;
  buffer_size = 128;
  write_offset = 100;
  read_offset = 90;
}

abbrev pub used_buffer-Sound : Sound used_buffer zeros_block
used_buffer-Sound = record {
  has_block = refl;
  whole = refl;
  in_order = omega arith;
  in_bounds = omega arith;
  small = omega arith;
}

abbrev pub below_seven : Key
below_seven = record { cid = 6; mid = 1; moid = 2; cap = 3; acq = 4 }

pub sub_key-seven : sub_key (key_of 7) 1 ≡ some below_seven
unfolding sub_key sub_int
sub_key-seven = refl

pub key_of-IsKey : IsKey (key_of 7)
key_of-IsKey = record {
  cid_fits = omega arith;
  moid_fits = omega arith;
  mid_fits = omega arith;
  cap_fits = omega arith;
  acq_fits = omega arith;
}

-- The place of a first record's payload.
pub fresh_room : next_record_offset fresh_batch 7 + (4 + 20 + 2) ≤ room zeros_buffer
unfolding next_record_offset is_empty
fresh_room = omega arith

pub fresh_place :
    take 2 (drop (0 + next_record_offset fresh_batch 7 + (4 + 20)) zeros_block) ≡ 0 ∷ 0 ∷ []
unfolding next_record_offset is_empty
fresh_place = refl
