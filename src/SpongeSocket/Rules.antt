-- ===== src/SpongeSocket/Rules.antt =====
-- The rules of `_initialize_TCP` as the event loop has them, and its test for a busy wait behind them.
use sponge_fa.Prelude.{
  ◌⊎◌, ap, ℕ, ◌≡◌, inl, inr, refl, Bool, true, false, not, ◌&&◌, List, [], ◌∷◌, Option, none, some,
  length, min, ltb, ◌==◌, ne→==, add32, arith, Bool-cases,
}
use sponge_fa.FileDescriptor as Descriptor
use sponge_fa.FileDescriptor.{FileDescriptor, Written}
use sponge_fa.EventLoop.{◌>>=◌, Rule, add_rule, Direction, service_count, run_callback}
use sponge_fa.EventLoop.Outcome.{Holds, Holds-map, run_callback_lem}
use sponge_fa.TcpConnection as Connection
use sponge_fa.TcpConnection.{inbound, with_inbound}
use sponge_fa.ByteStream as Stream
use sponge_fa.TcpSegment.{TcpSegment}
use sponge_fa.SpongeSocket.{
  SpongeSocket, read_datagram, wants_datagram, read_outbound, wants_outbound, shut_outbound,
  give_data, write_inbound, pop_inbound, is_over, handed, wants_inbound, write_datagrams,
  wants_datagrams, emptied, write_all,
}

-- A callback that also gives something to the outside.
abbrev pub silently : {A : Type 0} → Option (SpongeSocket × A) → Option SpongeSocket
silently none = none
silently (some (s, x)) = some s

-- Rule 1, for what the adapter's read does.
abbrev pub datagram_in :
    (FileDescriptor → Option (FileDescriptor × Option TcpSegment)) → Rule SpongeSocket
datagram_in read = record {
  fd = λ s. s.adapter;
  direction = Direction.poll_in;
  callback = read_datagram read;
  interest = wants_datagram;
  cancel = some;
}

-- Rule 2, for what read(2) gives.
abbrev pub owner_in : Option (List ℕ) → Rule SpongeSocket
owner_in got = record {
  fd = λ s. s.thread_data;
  direction = Direction.poll_in;
  callback = λ s. read_outbound s got;
  interest = wants_outbound;
  cancel = λ s. some (shut_outbound s);
}

-- Rule 3, for what writev(2) returns and whether shutdown(2) succeeds.
abbrev pub owner_out : Option ℕ → Bool → Rule SpongeSocket
owner_out returned shuts = record {
  fd = λ s. s.thread_data;
  direction = Direction.poll_out;
  callback = λ s. silently (write_inbound s returned shuts);
  interest = wants_inbound;
  cancel = some;
}

-- Rule 4, for what the adapter's write does.
abbrev pub datagram_out :
    {A : Type 0} → (FileDescriptor → TcpSegment → Option (FileDescriptor × A)) → Rule SpongeSocket
datagram_out write = record {
  fd = λ s. s.adapter;
  direction = Direction.poll_out;
  callback = λ s. silently (write_datagrams write s);
  interest = wants_datagrams;
  cancel = some;
}

-- The rules in the order in which `_initialize_TCP` adds them.
abbrev pub rules :
    {A : Type 0}
    → (FileDescriptor → Option (FileDescriptor × Option TcpSegment))
    → Option (List ℕ)
    → Option ℕ
    → Bool
    → (FileDescriptor → TcpSegment → Option (FileDescriptor × A))
    → List (Rule SpongeSocket)
rules read got returned shuts write =
    let first = add_rule [] (datagram_in read) in
    let second = add_rule first (owner_in got) in
    let third = add_rule second (owner_out returned shuts) in add_rule third (datagram_out write)

-- What is asked of an adapter's read: without an exception, it registers one read of its descriptor, as
-- UDPSocket::recv and FileDescriptor::read do.
abbrev pub Registers : (FileDescriptor → Option (FileDescriptor × Option TcpSegment)) → Type 0
Registers read =
    (fd : FileDescriptor) → Holds (λ p. p.0.read_count ≡ add32 fd.read_count 1) (read fd)

-- A count that went up by one or by two, with wrap-around, is another one.
counted :
    (n m : ℕ) (b : Bool) → (m ≡ add32 n 1) ⊎ (m ≡ add32 (add32 n 1) 1) → ((n == m) && b) ≡ false
counted n m b (inl e) = rw (ne→== n m (λ z. absurd (omega arith))) refl
counted n m b (inr e) = rw (ne→== n m (λ z. absurd (omega arith))) refl

give_data-Holds :
    (s : SpongeSocket) (o : Option (FileDescriptor × List ℕ))
    → Holds (λ p. p.0.read_count ≡ add32 s.thread_data.read_count 1) o
    → Holds (λ s'. s'.thread_data.read_count ≡ add32 s.thread_data.read_count 1) (give_data s o)
unfolding shut_outbound
give_data-Holds s none h = record {}
give_data-Holds s (some (fd, data_)) h =
    elim (Bool-cases (not ((Connection.write s.tcp data_).1 == length data_))) [
      | inl b ↦ rw b (record {})
      | inr b ↦ elim (Bool-cases fd.eof) [ inl e ↦ rw (b, e) h | inr e ↦ rw (b, e) h ]
    ]

read-Holds :
    (fd : FileDescriptor) (limit : ℕ) (got : Option (List ℕ))
    → Holds (λ p. p.0.read_count ≡ add32 fd.read_count 1) (Descriptor.read fd limit got)
unfolding Descriptor.read
read-Holds fd limit none = record {}
read-Holds fd limit (some got) =
    elim (Bool-cases (ltb (min Descriptor.buffer_size limit) (length got))) [
      | inl b ↦ rw b (record {})
      | inr b ↦ elim (Bool-cases (ltb 0 limit && (length got == 0))) [
        | inl e ↦ rw (b, e) refl
        | inr e ↦ rw (b, e) refl
      ]
    ]

-- An adapter that reads its descriptor, and parses what it gets.
abbrev pub reading :
    ℕ
    → Option (List ℕ)
    → (List ℕ → Option TcpSegment)
    → FileDescriptor
    → Option (FileDescriptor × Option TcpSegment)
reading limit got parse fd = Descriptor.read fd limit got >>= λ p. some (p.0, parse p.1)

parsed-Holds :
    (n : ℕ) (parse : List ℕ → Option TcpSegment) (o : Option (FileDescriptor × List ℕ))
    → Holds (λ p. p.0.read_count ≡ n) o
    → Holds {W = FileDescriptor × Option TcpSegment}
        (λ p. p.0.read_count ≡ n)
        (o >>= λ p. some (p.0, parse p.1))
parsed-Holds n parse none h = h
parsed-Holds n parse (some p) h = h

pub reading-Registers :
    (limit : ℕ) (got : Option (List ℕ)) (parse : List ℕ → Option TcpSegment)
    → Registers (reading limit got parse)
reading-Registers limit got parse fd =
    parsed-Holds (add32 fd.read_count 1) parse (Descriptor.read fd limit got)
      (read-Holds fd limit got)

-- The descriptor behind a write that has ended.
abbrev Counted : ℕ → Written → Type 0
Counted n Written.thrown = Unit
Counted n Written.waiting = Unit
Counted n (Written.done fd k) = fd.write_count ≡ n

write-Counted :
    (fd : FileDescriptor) (buffer : List ℕ) (returned : Option ℕ)
    → Counted (add32 fd.write_count 1) (Descriptor.write fd buffer false (returned ∷ []))
unfolding Descriptor.write Descriptor.write_loop
write-Counted fd buffer none = record {}
write-Counted fd buffer (some n) = elim (Bool-cases ((n == 0) && not (length buffer == 0))) [
  | inl b ↦ rw b (record {})
  | inr b ↦ elim (Bool-cases (ltb (length buffer) n)) [
    | inl e ↦ rw (b, e) (record {})
    | inr e ↦ rw (b, e) refl
  ]
]

pop_inbound-Holds :
    (s : SpongeSocket) (buffer : List ℕ) (shuts : Bool) (n : ℕ) (w : Written)
    → Counted n w
    → Holds
        (λ s'. (s'.thread_data.write_count ≡ n) ⊎ (s'.thread_data.write_count ≡ add32 n 1))
        (silently (pop_inbound s buffer shuts w))
pop_inbound-Holds s buffer shuts n Written.thrown h = record {}
pop_inbound-Holds s buffer shuts n Written.waiting h = record {}
pop_inbound-Holds s buffer shuts n (Written.done fd k) h =
    elim (Bool-cases (is_over (Stream.pop_output (inbound s.tcp) k))) [
      | inr on ↦ rw on (inl h)
      | inl over ↦ elim (Bool-cases shuts) [
        | inl shut ↦ rw (over, shut) (inr (ap (λ m. add32 m 1) h))
        | inr failed ↦ rw (over, failed) (record {})
      ]
    ]

emptied-Holds :
    {A : Type 0} (write : FileDescriptor → TcpSegment → Option (FileDescriptor × A))
    (s : SpongeSocket) (o : Option (FileDescriptor × List A))
    → Holds (λ s'. wants_datagrams s' ≡ false) (silently (emptied write s o))
emptied-Holds write s none = record {}
emptied-Holds write s (some (fd, sent)) = refl

handed-Holds :
    (s : SpongeSocket) (n : ℕ) (o : Option (FileDescriptor × Option TcpSegment))
    → Holds (λ p. p.0.read_count ≡ n) o
    → Holds (λ s'. s'.adapter.read_count ≡ n) (handed s o)
handed-Holds s n none h = record {}
handed-Holds s n (some (fd, seg)) h = h

uninterested : (b c : Bool) → c ≡ false → (b && c) ≡ false
uninterested true c e = e
uninterested false c e = refl

datagram_in_eq :
    (read : FileDescriptor → Option (FileDescriptor × Option TcpSegment)) (s : SpongeSocket)
    → Registers read
    → run_callback (datagram_in read) s ≡ read_datagram read s
unfolding read_datagram service_count
datagram_in_eq read s registers = run_callback_lem (datagram_in read) s (
    Holds-map (read_datagram read s)
      (λ s' e. counted s.adapter.read_count s'.adapter.read_count (wants_datagram s') (inl e))
      (handed-Holds s _ (read s.adapter) (registers s.adapter)))

owner_in_eq :
    (got : Option (List ℕ)) (s : SpongeSocket) → run_callback (owner_in got) s ≡ read_outbound s got
unfolding read_outbound service_count
owner_in_eq got s = run_callback_lem (owner_in got) s (
    Holds-map (read_outbound s got)
      (λ s' e.
        counted s.thread_data.read_count s'.thread_data.read_count (wants_outbound s') (inl e))
      (give_data-Holds s _
        (read-Holds s.thread_data (Connection.remaining_outbound_capacity s.tcp) got)))

owner_out_eq :
    (returned : Option ℕ) (shuts : Bool) (s : SpongeSocket)
    → run_callback (owner_out returned shuts) s ≡ silently (write_inbound s returned shuts)
unfolding write_inbound service_count
owner_out_eq returned shuts s = run_callback_lem (owner_out returned shuts) s (
    Holds-map (silently (write_inbound s returned shuts))
      (λ s'. counted s.thread_data.write_count s'.thread_data.write_count (wants_inbound s'))
      (pop_inbound-Holds s _ shuts (add32 s.thread_data.write_count 1) _
        (write-Counted s.thread_data _ returned)))

datagram_out_eq :
    {A : Type 0} (write : FileDescriptor → TcpSegment → Option (FileDescriptor × A))
    (s : SpongeSocket)
    → run_callback (datagram_out write) s ≡ silently (write_datagrams write s)
unfolding write_datagrams service_count
datagram_out_eq write s = run_callback_lem (datagram_out write) s (
    Holds-map (silently (write_datagrams write s)) (λ s'. uninterested _ _)
      (emptied-Holds write s (write_all write s.adapter s.tcp.segments_out)))

-- The test for a busy wait never throws behind one of the four rules, if the read of the adapter
-- registers a read of its descriptor, and whatever read(2), writev(2), shutdown(2) and the write of the
-- adapter do: the event loop runs the callback of the rule and keeps its result.
pub run_callback-rules :
    {A : Type 0} (s : SpongeSocket)
    (read : FileDescriptor → Option (FileDescriptor × Option TcpSegment)) (got : Option (List ℕ))
    (returned : Option ℕ) (shuts : Bool)
    (write : FileDescriptor → TcpSegment → Option (FileDescriptor × A))
    → Registers read
    → (run_callback (datagram_in read) s ≡ read_datagram read s)
      × (run_callback (owner_in got) s ≡ read_outbound s got)
      × (run_callback (owner_out returned shuts) s ≡ silently (write_inbound s returned shuts))
      × (run_callback (datagram_out write) s ≡ silently (write_datagrams write s))
run_callback-rules s read got returned shuts write registers = (
  datagram_in_eq read s registers,
  owner_in_eq got s,
  owner_out_eq returned shuts s,
  datagram_out_eq write s,
)
