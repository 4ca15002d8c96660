-- ===== src/Buffer.antt =====
-- libsponge/util/buffer.hh and buffer.cc: a string that can drop bytes from its front, and a list of
-- such strings. A method that throws returns `none` where it does.
pub mod Prefix
pub mod Views
mod Tests
use sponge_fa.Prelude.{
  ℕ, zero, suc, ◌+◌, ◌-◌, Bool, true, false, ◌&&◌, List, [], ◌∷◌, ◌++◌, Option, none, some, length,
  drop, get_elem?, ltb, ◌==◌, if◌then◌else◌, add64,
}

-- The shared storage, which no method changes, is the string itself; `none` is a null pointer.
pub record Buffer : Type 0 where
  pub storage : Option (List ℕ)
  pub starting_offset : ℕ

unfoldable pub of_string : List ℕ → Buffer
of_string bytes = record { storage = some bytes; starting_offset = 0 }

abbrev pub shown : Option (List ℕ) → ℕ → List ℕ
shown none offset = []
shown (some bytes) offset = drop offset bytes

unfoldable pub str : Buffer → List ℕ
str b = shown b.storage b.starting_offset

unfoldable pub size : Buffer → ℕ
unfolding str
size b = length (str b)

unfoldable pub at : Buffer → ℕ → Option ℕ
unfolding str
at b n = get_elem? (str b) n

-- The storage is released once all of it has been dropped.
abbrev pub released : Option (List ℕ) → ℕ → Option (List ℕ)
released none offset = none
released (some bytes) offset = if offset == length bytes then none else some bytes

unfoldable pub remove_prefix : Buffer → ℕ → Option Buffer
unfolding size
remove_prefix b n =
    let offset = add64 b.starting_offset n in
    if ltb (size b) n
    then none
    else some (record { storage = released b.storage offset; starting_offset = offset })

-- `BufferList`: a deque, front first.
unfoldable pub concatenate : List Buffer → List ℕ
unfolding str
concatenate [] = []
concatenate (b ∷ bs) = str b ++ concatenate bs

unfoldable pub append : List Buffer → List Buffer → List Buffer
append bs other = bs ++ other

unfoldable pub total_size : List Buffer → ℕ
unfolding size
total_size [] = 0
total_size (b ∷ bs) = add64 (size b) (total_size bs)

abbrev pub with_front : List Buffer → Option Buffer → Option (List Buffer)
with_front bs none = none
with_front bs (some b) = some (b ∷ bs)

-- `BufferList::remove_prefix`; its loop ends when nothing is left to remove.
unfoldable pub remove_list_prefix : List Buffer → ℕ → Option (List Buffer)
unfolding size remove_prefix
remove_list_prefix [] n = if n == 0 then some [] else none
remove_list_prefix (b ∷ bs) n =
    let later = remove_list_prefix bs (n - size b) in
    if n == 0
    then some (b ∷ bs)
    else (if ltb n (size b) then with_front bs (remove_prefix b n) else later)

-- The conversion to one buffer, which throws for more than one.
unfoldable pub to_buffer : List Buffer → Option Buffer
to_buffer [] = some (record { storage = none; starting_offset = 0 })
to_buffer (b ∷ []) = some b
to_buffer (b ∷ c ∷ bs) = none
