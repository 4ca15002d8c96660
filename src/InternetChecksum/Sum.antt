-- ===== src/InternetChecksum/Sum.antt =====
-- The sum of a string, and the checksum that makes the sum of the whole a multiple of 2 ^ 16 - 1.
use sponge_fa.Prelude.{
  ℕ_discrete, ℕ, ◌+◌, ◌*◌, ◌%◌, ◌^◌, ◌≤◌, ◌<◌, ◌≡◌, refl, Bool, not, List, [], ◌∷◌, ◌++◌, length,
  if◌then◌else◌, arith,
}
use sponge_fa.InternetChecksum.{InternetChecksum, add_byte, add, value}
use sponge_fa.InternetChecksum.Folding.{value_lem, value-zero, value-multiple}

-- The sum without wrap-around, from a byte of the given parity on.
abbrev pub byte_sum : Bool → List ℕ → ℕ
byte_sum parity [] = 0
byte_sum parity (byte ∷ bytes) =
    (if parity then byte % 2 ^ 8 else byte % 2 ^ 8 * 2 ^ 8) + byte_sum (not parity) bytes

pub byte_sum-le : (parity : Bool) (s : List ℕ) → byte_sum parity s ≤ 65280 * length s
byte_sum-le parity [] = omega arith
byte_sum-le parity (x ∷ s) = ground (arith, byte_sum-le (not parity) s)

pub add_lem :
    (c : InternetChecksum) (s : List ℕ)
    → c.sum + byte_sum c.parity s < 2 ^ 32
    → (add c s).sum ≡ c.sum + byte_sum c.parity s
unfolding add
add_lem c [] h = omega arith
add_lem c (x ∷ s) h =
    let e : (add_byte c x).sum ≡ c.sum + (if c.parity then x % 2 ^ 8 else x % 2 ^ 8 * 2 ^ 8) =
      ground arith in
    omega (arith, e, add_lem (add_byte c x) s (omega (arith, e)))

pub add-append : (c : InternetChecksum) (s t : List ℕ) → add (add c s) t ≡ add c (s ++ t)
unfolding add
add-append c [] t = refl
add-append c (x ∷ s) t = add-append (add_byte c x) s t

-- A string whose sum is that of another with the other's checksum added has the checksum zero.
pub value-verifies :
    (c d : InternetChecksum) → d.sum ≡ c.sum + value c → d.sum < 2 ^ 32 → value d ≡ 0
value-verifies c d e small = elim (ℕ_discrete c.sum 0) [
  | yes z ↦ value-multiple d small (omega (arith, value-zero c z)) (omega (arith, value-zero c z))
  | no nz ↦ value-multiple d small (omega arith) (omega (arith, value_lem c (omega arith)))
]
