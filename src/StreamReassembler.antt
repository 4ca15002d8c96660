-- ===== src/StreamReassembler.antt =====
-- libsponge/stream_reassembler.hh and stream_reassembler.cc: substrings that arrive in any order,
-- overlapping or not, become one byte stream.
pub mod Resize
pub mod Chain
pub mod Merge
pub mod Lookup
pub mod Loop
pub mod Fit
pub mod Assemble
pub mod Window
pub mod Contract
pub mod Merged
pub mod Push
pub mod End
pub mod Late
pub mod Carried
pub mod Progress
pub mod History
pub mod Empty
mod Tests
use Prim.Native.Nat.{compare, Ordering}
use sponge_fa.Prelude.{
  ℕ, ◌+◌, min, max, Bool, true, false, ◌&&◌, List, [], ◌∷◌, length, take, drop, ltb, leb, ◌==◌,
  if◌then◌else◌, add64, sub64,
}
use sponge_fa.ByteStream as Stream
use sponge_fa.ByteStream.{ByteStream}

-- `std::map<size_t, std::string>`: the entries in ascending order of their keys.
abbrev pub Segments : Type 0
Segments = List (ℕ × List ℕ)

pub record StreamReassembler : Type 0 where
  pub segments : Segments
  pub eof : Bool
  pub eof_index : ℕ
  pub capacity_for_reassembler : ℕ
  pub num_bytes_free : ℕ
  pub next_index : ℕ
  pub output : ByteStream
  pub capacity : ℕ

unfoldable pub new : ℕ → StreamReassembler
unfolding Stream.new
new capacity = record {
  segments = [];
  eof = false;
  eof_index = 0;
  capacity_for_reassembler = capacity;
  num_bytes_free = capacity;
  next_index = 0;
  output = Stream.new capacity;
  capacity = capacity;
}

-- `map::insert`: an entry whose key is there already changes nothing.
unfoldable pub map_insert : ℕ → List ℕ → Segments → Segments
map_insert index seg [] = (index, seg) ∷ []
map_insert index seg ((k, d) ∷ rest) = elim (compare index k) [
  | Ordering.lt ↦ (index, seg) ∷ (k, d) ∷ rest
  | Ordering.eq ↦ (k, d) ∷ rest
  | Ordering.gt ↦ (k, d) ∷ map_insert index seg rest
]

unfoldable pub unassembled : Segments → ℕ
unassembled [] = 0
unassembled ((k, d) ∷ rest) = length d + unassembled rest

unfoldable pub unassembled_bytes : StreamReassembler → ℕ
unfolding unassembled
unassembled_bytes r = unassembled r.segments

unfoldable pub empty : StreamReassembler → Bool
empty r = elim r.segments [ [] ↦ true | _ ↦ false ]

-- The first and the last index that `resize_segment` keeps.
unfoldable pub resize_begin : List ℕ → ℕ → ℕ → ℕ
resize_begin bytes index begin_idx = min (add64 index (length bytes)) (max index begin_idx)

unfoldable pub resize_end : List ℕ → ℕ → ℕ → ℕ → ℕ
unfolding resize_begin
resize_end bytes index begin_idx end_idx =
    max (resize_begin bytes index begin_idx) (min (add64 index (length bytes)) end_idx)

-- `substr` throws when it starts behind the end, which `resize_segment_in_range` excludes.
unfoldable pub resize_segment : List ℕ → ℕ → ℕ → ℕ → List ℕ × ℕ
unfolding resize_begin resize_end
resize_segment bytes index begin_idx end_idx =
    let b = resize_begin bytes index begin_idx in
    let e = resize_end bytes index begin_idx end_idx in
    (take (sub64 e b) (drop (sub64 b index) bytes), b)

-- The returned size is not used by any caller.
unfoldable pub insert_in_reassembler : StreamReassembler → List ℕ → ℕ → StreamReassembler
unfolding map_insert
insert_in_reassembler r [] index = r
insert_in_reassembler r (x ∷ xs) index =
    let bytes = x ∷ xs in
    let size_insert = min r.num_bytes_free (length bytes) in
    record r {
      segments = map_insert index (take size_insert bytes) r.segments;
      num_bytes_free = sub64 r.num_bytes_free size_insert;
    }

-- `insert_in_reassembler` of what `resize_segment` cuts out.
unfoldable pub insert_slot : StreamReassembler → List ℕ → ℕ → ℕ → ℕ → StreamReassembler
unfolding resize_segment insert_in_reassembler
insert_slot r bytes index begin_idx end_idx =
    let (slot, at) = resize_segment bytes index begin_idx end_idx in insert_in_reassembler r slot at

-- The loop over the map. It visits the entries that were there at its start: what a round inserts
-- lies before the entry that the round visits (`insert_slot_lem`), so the iterator never
-- meets it. A `return` inside the loop and a `break` both end the loop, since the code behind the
-- loop returns when no byte is free.
unfoldable pub fill_gaps : StreamReassembler → List ℕ → ℕ → ℕ → Segments → StreamReassembler
unfolding insert_slot
fill_gaps r bytes index next_index [] = r
fill_gaps r bytes index next_index ((k, d) ∷ rest) =
    let r' = insert_slot r bytes index next_index k in
    let next_index' = add64 k (length d) in
    let later = fill_gaps r' bytes index next_index' rest in
    if r.num_bytes_free == 0
    then r
    else (if leb (add64 index (length bytes)) next_index' then r' else later)

-- The end of the last entry, `rbegin()`. The map is not empty where this is called.
unfoldable pub last_index : Segments → ℕ
last_index [] = 0
last_index ((k, d) ∷ []) = add64 k (length d)
last_index (s ∷ t ∷ rest) = last_index (t ∷ rest)

unfoldable pub fill_end : StreamReassembler → List ℕ → ℕ → StreamReassembler
unfolding insert_slot last_index
fill_end r bytes index =
    if r.num_bytes_free == 0
    then r
    else insert_slot r bytes index (last_index r.segments) (add64 index (length bytes))

-- `fit_in_reassembler` behind its first `resize_segment`, which has cut the data to the window.
unfoldable pub fit_resized : StreamReassembler → List ℕ → ℕ → StreamReassembler
unfolding insert_in_reassembler fill_gaps fill_end empty
fit_resized r [] index = r
fit_resized r (x ∷ xs) index =
    if empty r
    then insert_in_reassembler r (x ∷ xs) index
    else fill_end (fill_gaps r (x ∷ xs) index r.next_index r.segments) (x ∷ xs) index

unfoldable pub fit_in_reassembler : StreamReassembler → List ℕ → ℕ → StreamReassembler
unfolding resize_segment fit_resized
fit_in_reassembler r bytes index =
    let (resized, at) =
      resize_segment bytes index r.next_index (add64 r.next_index r.capacity_for_reassembler) in
    if r.num_bytes_free == 0 then r else fit_resized r resized at

-- The loop of `push_into_output`: it takes entries off the front of the map.
unfoldable pub pop_assembled : StreamReassembler → Segments → StreamReassembler
unfolding Stream.write
pop_assembled r [] = record r { segments = [] }
pop_assembled r ((k, d) ∷ rest) =
    let r' = record r {
      output = (Stream.write r.output d).0;
      next_index = add64 r.next_index (length d);
      num_bytes_free = add64 r.num_bytes_free (length d);
    } in
    let later = pop_assembled r' rest in
    if r.next_index == k then later else record r { segments = (k, d) ∷ rest }

unfoldable pub push_into_output : StreamReassembler → StreamReassembler
unfolding pop_assembled unassembled_bytes Stream.end_input
push_into_output r =
    let r' = pop_assembled r r.segments in
    if unassembled_bytes r' == 0 && (r'.eof && r'.next_index == r'.eof_index)
    then record r' { output = Stream.end_input r'.output }
    else r'

unfoldable pub update_free_space : StreamReassembler → StreamReassembler
unfolding unassembled_bytes Stream.remaining_capacity
update_free_space r =
    let remaining = Stream.remaining_capacity r.output in
    record r {
      capacity_for_reassembler = remaining;
      num_bytes_free = sub64 remaining (unassembled_bytes r);
    }

-- The part of `push_substring` that records the end of the stream.
unfoldable pub note_eof : StreamReassembler → List ℕ → ℕ → Bool → StreamReassembler
note_eof r bytes index true = record r { eof = true; eof_index = add64 index (length bytes) }
note_eof r bytes index false = r

unfoldable pub push_substring : StreamReassembler → List ℕ → ℕ → Bool → StreamReassembler
unfolding note_eof update_free_space fit_in_reassembler push_into_output
push_substring r bytes index eof =
    let r' = update_free_space (note_eof r bytes index eof) in
    if r'.num_bytes_free == 0 then r' else push_into_output (fit_in_reassembler r' bytes index)
