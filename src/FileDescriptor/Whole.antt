-- ===== src/FileDescriptor/Whole.antt =====
-- `write` with `write_all` writes all or throws.
use sponge_fa.Prelude.{
  suc, not, ◌&&◌, ℕ, ◌+◌, ◌-◌, ◌^◌, ◌≤◌, ◌<◌, ◌≡◌, true, false, Option, none, some, List, [], ◌∷◌,
  length, drop, length-drop, arith, ◌==◌, eq→==, ne→==, lt→ltb, le→ltb, dec_lt, ℕ_discrete, add64,
}
use mathlib.Core.Path.{subst}
use sponge_fa.FileDescriptor.{FileDescriptor, Written, write_loop, write, register_write}

-- The outcome of a write of `size` bytes behind `total` others, for a number of returns.
abbrev pub IsWhole : ℕ → ℕ → ℕ → Written → Type 0
IsWhole total size returns Written.thrown = Unit
IsWhole total size returns Written.waiting = returns ≤ size
IsWhole total size returns (Written.done fd n) = n ≡ total + size

IsWhole-later :
    (total size n returns : ℕ) (w : Written)
    → 0 < n
    → n ≤ size
    → IsWhole (total + n) (size - n) returns w
    → IsWhole total size (suc returns) w
IsWhole-later total size n returns Written.thrown pos le h = record {}
IsWhole-later total size n returns Written.waiting pos le h = omega arith
IsWhole-later total size n returns (Written.done fd k) pos le h = omega arith

write_loop-IsWhole :
    (fd : FileDescriptor) (buffer : List ℕ) (total : ℕ) (returns : List (Option ℕ))
    → total + length buffer < 2 ^ 64
    → IsWhole total (length buffer) (length returns) (write_loop fd buffer true total returns)
unfolding write_loop
write_loop-IsWhole fd buffer total [] small = omega arith
write_loop-IsWhole fd buffer total (none ∷ returns) small = record {}
write_loop-IsWhole fd buffer total (some n ∷ returns) small =
    let left = length-drop n buffer in
    elim (dec_lt (length buffer) n) [
      | yes more ↦ elim (ℕ_discrete n 0) [
        | yes z ↦ absurd (omega arith)
        | no nz ↦ rw (ne→== n 0 nz, lt→ltb (length buffer) n more) (record {})
      ]
      | no fits ↦ elim (ℕ_discrete (length (drop n buffer)) 0) [
        | yes all ↦
            let both : ((n == 0) && not (length buffer == 0)) ≡ false = ground (arith, left, all) in
            rw (both, le→ltb (length buffer) n (omega arith), eq→== (length (drop n buffer)) 0 all)
              (omega (arith, left))
        | no some_ ↦ elim (ℕ_discrete n 0) [
          | yes z ↦
              rw (eq→== n 0 z, ne→== (length buffer) 0 (λ e. some_ (omega (arith, left))))
                (record {})
          | no nz ↦
              let sum : add64 total n ≡ total + n = omega arith in
              let later =
                write_loop-IsWhole (register_write fd) (drop n buffer) (total + n) returns
                  (omega (arith, left)) in
              rw
                (
                  ne→== n 0 nz,
                  le→ltb (length buffer) n (omega arith),
                  ne→== (length (drop n buffer)) 0 some_,
                  sum,
                )
                (IsWhole-later total (length buffer) n (length returns)
                  (write_loop (register_write fd) (drop n buffer) true (total + n) returns)
                  (omega arith) (omega arith)
                  (subst
                    (λ k.
                      IsWhole (total + n) k (length returns)
                        (write_loop (register_write fd) (drop n buffer) true (total + n) returns))
                    left later))
        ]
      ]
    ]

-- `write` that is to write all of a buffer throws, or ends with the number of all its bytes; it still waits
-- only as long as writev(2) has not returned more often than the buffer has bytes.
pub write-IsWhole :
    (fd : FileDescriptor) (buffer : List ℕ) (returns : List (Option ℕ))
    → length buffer < 2 ^ 64
    → IsWhole 0 (length buffer) (length returns) (write fd buffer true returns)
unfolding write
write-IsWhole fd buffer returns small = write_loop-IsWhole fd buffer 0 returns (omega arith)
