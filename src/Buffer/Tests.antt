-- ===== src/Buffer/Tests.antt =====
-- Runs of small buffers, and the theorems at concrete ones.
use sponge_fa.Prelude.{◌≡◌, refl, List, [], ◌∷◌, arith, some}
use sponge_fa.Buffer.{Buffer, of_string, str, remove_prefix, remove_list_prefix}
use sponge_fa.Buffer.Views.{of_list, views_of, remove_views_prefix, remove_views_prefix-of_list}
use sponge_fa.Buffer.Prefix.{IsValid}

-- "abc" without its first byte.
abbrev behind : Buffer
behind = record { storage = some (97 ∷ 98 ∷ 99 ∷ []); starting_offset = 1 }

behind_runs : remove_prefix (of_string (97 ∷ 98 ∷ 99 ∷ [])) 1 ≡ some behind
unfolding remove_prefix of_string
behind_runs = refl

behind-IsValid : IsValid behind
unfolding str
behind-IsValid = record { sized = omega arith }

abbrev two : List Buffer
two = behind ∷ behind ∷ []

across :
    (remove_list_prefix two 3)
    ≡ some (record { storage = some (97 ∷ 98 ∷ 99 ∷ []); starting_offset = 2 } ∷ [])
unfolding remove_list_prefix
across = refl

remove_views_prefix-of_list_example :
    remove_views_prefix (of_list two) 3 ≡ views_of (remove_list_prefix two 3)
remove_views_prefix-of_list_example =
    remove_views_prefix-of_list two 3 (behind-IsValid, (behind-IsValid, record {}))

views_across : remove_views_prefix (of_list two) 3 ≡ some ((99 ∷ []) ∷ [])
unfolding remove_views_prefix of_list
views_across = refl
