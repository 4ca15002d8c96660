-- ===== src/FileDescriptor/Tests.antt =====
-- Writes in several parts.
use sponge_fa.Prelude.{none, some, ◌≡◌, refl, true, false, [], ◌∷◌, arith}
use sponge_fa.FileDescriptor.{new, Written, write}
use sponge_fa.FileDescriptor.Whole.{IsWhole, write-IsWhole}

two_parts :
    write new (1 ∷ 2 ∷ 3 ∷ []) true (some 1 ∷ some 2 ∷ [])
    ≡ Written.done (record new { write_count = 2 }) 3
unfolding write
two_parts = refl

one_part :
    write new (1 ∷ 2 ∷ 3 ∷ []) false (some 1 ∷ []) ≡ Written.done (record new { write_count = 1 }) 1
unfolding write
one_part = refl

-- A writev(2) that fails throws.
fails : write new (1 ∷ 2 ∷ []) true (some 1 ∷ none ∷ []) ≡ Written.thrown
unfolding write
fails = refl

write-IsWhole_example : IsWhole 0 3 2 (write new (1 ∷ 2 ∷ 3 ∷ []) true (some 1 ∷ some 2 ∷ []))
write-IsWhole_example = write-IsWhole new (1 ∷ 2 ∷ 3 ∷ []) (some 1 ∷ some 2 ∷ []) (omega arith)
