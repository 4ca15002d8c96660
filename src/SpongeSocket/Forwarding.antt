-- ===== src/SpongeSocket/Forwarding.antt =====
-- What rules 2 and 3 move between the owner's socket and the streams of the connection, and when they
-- throw.
use sponge_fa.Prelude.{
  Option, none, ◌&&◌, ℕ, ◌≤◌, ◌≡◌, ◌∙◌, inl, inr, refl, ap, true, false, List, ◌++◌, some, none,
  length, arith, min, ltb, ◌==◌, ◌||◌, eq→==, le→ltb, Bool-cases, if◌then◌else◌,
}
use sponge_fa.ByteStream as Stream
use sponge_fa.ByteStream.{ByteStream}
use sponge_fa.ByteStream.Invariant as StreamInvariant
use sponge_fa.FileDescriptor as Descriptor
use sponge_fa.FileDescriptor.{FileDescriptor, register_read}
use sponge_fa.TcpConnection as Connection
use sponge_fa.TcpConnection.{TcpConnection, inbound, with_inbound}
use sponge_fa.SpongeSocket.{SpongeSocket, read_outbound, give_data, shut_outbound, is_over}

-- What an open stream takes of a write.
write-taken :
    (c : TcpConnection) (bytes : List ℕ)
    → c.sender.stream.end_input ≡ false
    → (Connection.write c bytes).1 ≡ min (length bytes) (Connection.remaining_outbound_capacity c)
unfolding Connection.write Stream.write Stream.input_ended Connection.remaining_outbound_capacity
write-taken c bytes open_ = rw open_ refl

-- What the owner's descriptor is behind a read.
abbrev pub behind_read : FileDescriptor → ℕ → List ℕ → FileDescriptor
behind_read fd limit got =
    register_read (if ltb 0 limit && (length got == 0) then record fd { eof = true } else fd)

read_lem :
    (fd : FileDescriptor) (limit : ℕ) (got : List ℕ)
    → length got ≤ min Descriptor.buffer_size limit
    → Descriptor.read fd limit (some got) ≡ some (behind_read fd limit got, got)
unfolding Descriptor.read
read_lem fd limit got fits = rw (le→ltb (min Descriptor.buffer_size limit) (length got) fits) refl

read_outbound_eq :
    (s : SpongeSocket) (got : Option (List ℕ))
    → read_outbound s got
      ≡ give_data s
          (Descriptor.read s.thread_data (Connection.remaining_outbound_capacity s.tcp) got)
unfolding read_outbound
read_outbound_eq s got = refl

read_outbound-fails : (s : SpongeSocket) → read_outbound s none ≡ none
unfolding read_outbound Descriptor.read
read_outbound-fails s = refl

-- As long as the outbound stream is open, rule 2 throws exactly if read(2) fails: for what read(2)
-- gives otherwise, at most what it was asked for, the connection takes all the bytes, and the stream
-- is shut exactly if the descriptor of the owner is at its end behind the read.
pub read_outbound-taken :
    (s : SpongeSocket) (got : List ℕ)
    → s.tcp.sender.stream.end_input ≡ false
    → length got ≤ min Descriptor.buffer_size (Connection.remaining_outbound_capacity s.tcp)
    → let fd = behind_read s.thread_data (Connection.remaining_outbound_capacity s.tcp) got in
      let (tcp', amount) = Connection.write s.tcp got in
      let s' = record s { tcp = tcp'; thread_data = fd } in
      (read_outbound s none ≡ none)
      × (amount ≡ length got)
      × (read_outbound s (some got) ≡ some (if fd.eof then shut_outbound s' else s'))
read_outbound-taken s got open_ fits =
    let limit = Connection.remaining_outbound_capacity s.tcp in
    let fd = behind_read s.thread_data limit got in
    let s' : SpongeSocket = record s { tcp = (Connection.write s.tcp got).0; thread_data = fd } in
    let all : (Connection.write s.tcp got).1 ≡ length got =
      write-taken s.tcp got open_ ∙ omega (arith, fits) in
    (
      read_outbound-fails s,
      all,
      read_outbound_eq s (some got)
          ∙ ap (give_data s) (read_lem s.thread_data limit got fits)
          ∙ rw (eq→== (Connection.write s.tcp got).1 (length got) all)
              (elim (Bool-cases fd.eof) [ inl e ↦ rw e refl | inr e ↦ rw e refl ]),
    )

-- The inbound stream behind `n` bytes that the owner has got.
abbrev pub behind_pop : SpongeSocket → ℕ → ByteStream
behind_pop s n = Stream.pop_output (inbound s.tcp) n

-- What rule 3 does when `n` bytes were written and the rest of the system goes along.
abbrev pub Forwarded : SpongeSocket → ℕ → Option (SpongeSocket × List ℕ) → Type 0
Forwarded s n none = ⊥
Forwarded s n (some (s', out)) =
    (length out ≡ n)
    × (out ++ (inbound s'.tcp).buffer ≡ (inbound s.tcp).buffer)
    × (s'.inbound_shutdown ≡ (s.inbound_shutdown || is_over (inbound s'.tcp)))
