-- ===== src/InternetChecksum/Tests.antt =====
-- A run of the checksum, and its theorem at a concrete sum.
use sponge_fa.Prelude.{◌+◌, ◌%◌, ◌^◌, ◌<◌, ◌≡◌, refl, [], ◌∷◌, arith}
use sponge_fa.InternetChecksum.{new, add, fold_loop, value}
use sponge_fa.InternetChecksum.Folding.{value_lem}

three_bytes : value (add (new 0) (0xff ∷ 0xff ∷ 1 ∷ [])) ≡ 0xfeff
unfolding add value
three_bytes = refl

value_example :
    (fold_loop 2 0x0001_ffff < 2 ^ 16)
    × (value (new 0x0001_ffff) < 2 ^ 16)
    × ((value (new 0x0001_ffff) + 0x0001_ffff) % 65535 ≡ 0)
value_example = value_lem (new 0x0001_ffff) (omega arith)
