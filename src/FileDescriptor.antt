-- ===== src/FileDescriptor.antt =====
-- libsponge/util/file_descriptor.hh and file_descriptor.cc: what a handle knows of its descriptor, and
-- the two loops around read(2) and writev(2); with them Socket::shutdown of libsponge/util/socket.cc.
-- What the system calls give is an argument, `none` for one that fails, where `SystemCall` throws. As
-- a result `none` is an exception.
pub mod Whole
mod Tests
use sponge_fa.Prelude.{
  ℕ, ◌+◌, ◌*◌, min, Bool, true, false, not, ◌&&◌, List, [], ◌∷◌, Option, none, some, length, drop,
  ltb, ◌==◌, if◌then◌else◌, add32, add64,
}

-- `FDWrapper`, which all duplicates of a handle share.
pub record FileDescriptor : Type 0 where
  pub eof : Bool
  pub closed : Bool
  pub read_count : ℕ
  pub write_count : ℕ

abbrev pub new : FileDescriptor
new = record { eof = false; closed = false; read_count = 0; write_count = 0 }

abbrev pub close : FileDescriptor → FileDescriptor
close fd = record fd { eof = true; closed = true }

abbrev pub register_read : FileDescriptor → FileDescriptor
register_read fd = record fd { read_count = add32 fd.read_count 1 }

abbrev pub register_write : FileDescriptor → FileDescriptor
register_write fd = record fd { write_count = add32 fd.write_count 1 }

-- What `Socket::shutdown` may be called with.
pub data How : Type 0 where
  shut_rd shut_wr shut_rdwr : How

abbrev pub registered : FileDescriptor → How → FileDescriptor
registered fd How.shut_rd = register_read fd
registered fd How.shut_wr = register_write fd
registered fd How.shut_rdwr = register_write (register_read fd)

-- `Socket::shutdown`, with whether shutdown(2) succeeds.
abbrev pub shutdown : FileDescriptor → How → Bool → Option FileDescriptor
shutdown fd how succeeds = if succeeds then some (registered fd how) else none

abbrev pub buffer_size : ℕ
buffer_size = 1024 * 1024

-- `read` behind a call of read(2) that gives bytes.
abbrev pub read_bytes : FileDescriptor → ℕ → List ℕ → Option (FileDescriptor × List ℕ)
read_bytes fd limit got =
    let size_to_read = min buffer_size limit in
    let fd' = if ltb 0 limit && (length got == 0) then record fd { eof = true } else fd in
    if ltb size_to_read (length got) then none else some (register_read fd', got)

-- `read`, with what read(2) gives.
unfoldable pub read : FileDescriptor → ℕ → Option (List ℕ) → Option (FileDescriptor × List ℕ)
read fd limit none = none
read fd limit (some got) = read_bytes fd limit got

-- How `write` ends: with an exception, waiting for a system call that has not returned, or with the
-- number of bytes that were written.
pub data Written : Type 0 where
  thrown waiting : Written
  done : FileDescriptor → ℕ → Written

-- The loop of `write`, with what each call of writev(2) returns, in order.
unfoldable pub write_loop : FileDescriptor → List ℕ → Bool → ℕ → List (Option ℕ) → Written
write_loop fd buffer write_all total_bytes_written [] = Written.waiting
write_loop fd buffer write_all total_bytes_written (none ∷ returns) = Written.thrown
write_loop fd buffer write_all total_bytes_written (some bytes_written ∷ returns) =
    let rest = drop bytes_written buffer in
    let total = add64 total_bytes_written bytes_written in
    let later = write_loop (register_write fd) rest write_all total returns in
    if (bytes_written == 0) && not (length buffer == 0)
    then Written.thrown
    else (if ltb (length buffer) bytes_written
        then Written.thrown
        else (if write_all && not (length rest == 0)
            then later
            else Written.done (register_write fd) total))

unfoldable pub write : FileDescriptor → List ℕ → Bool → List (Option ℕ) → Written
unfolding write_loop
write fd buffer write_all returns = write_loop fd buffer write_all 0 returns
