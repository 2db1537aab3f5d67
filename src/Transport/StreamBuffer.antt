-- ===== src/Transport/StreamBuffer.antt =====
-- `StreamReceiveBuffer` (src/transport/state/stream_buffer.rs). The `BTreeMap` of received ranges is
-- a list of entries in the order of their keys.
pub mod Entries
pub mod Merging
pub mod Ring
pub mod Received
pub mod Counted
pub mod Write
pub mod Read
pub mod Delivery
pub mod Resize
pub mod Tests
use zetta_transport.Common.{
  ℕ, zero, suc, ◌+◌, ◌-◌, ◌%◌, ◌^◌, min, max, Bool, true, false, ◌&&◌, List, [], ◌∷◌, ◌++◌, map,
  filter,
}
use zetta_transport.Common.{length, get_or, set, take, drop, replicate, checked_add}
use zetta_transport.Common.{Option, none, some, ltb, leb, ◌==◌, if◌then◌else◌}

abbrev pub Entries : Type 0
Entries = List (ℕ × ℕ)

-- `map.remove(&key)`
abbrev pub map_remove : ℕ → Entries → Entries
map_remove key [] = []
map_remove key (e ∷ es) = if e.0 == key then es else e ∷ map_remove key es

-- `map.insert(key, value)`
abbrev pub map_insert : ℕ → ℕ → Entries → Entries
map_insert key value [] = (key, value) ∷ []
map_insert key value (e ∷ es) =
    let rest = map_insert key value es in
    if ltb key e.0
    then (key, value) ∷ e ∷ es
    else if key == e.0
    then (key, value) ∷ es
    else e ∷ rest

-- `map.range(..=limit)`
abbrev pub range_to : ℕ → Entries → Entries
range_to limit [] = []
range_to limit (e ∷ es) = let rest = range_to limit es in if leb e.0 limit then e ∷ rest else rest

-- `map.range(limit..).next()`
abbrev pub first_from : ℕ → Entries → Option (ℕ × ℕ)
first_from limit [] = none
first_from limit (e ∷ es) = let rest = first_from limit es in if leb limit e.0 then some e else rest

-- `for key in to_remove { map.remove(&key); }`
abbrev pub remove_all : List ℕ → Entries → Entries
remove_all [] es = es
remove_all (key ∷ keys) es = remove_all keys (map_remove key es)

-- The variables of the loop in `add_range`.
pub record Merge : Type 0 where
  pub merged_start : ℕ
  pub merged_end : ℕ
  pub overlap : ℕ
  pub to_remove : List ℕ

abbrev pub unmerged : ℕ → ℕ → Merge
unmerged start end = record { merged_start = start; merged_end = end; overlap = 0; to_remove = [] }

pub merge_entry : ℕ → ℕ → Merge → ℕ × ℕ → Merge
merge_entry start end m e =
    if leb start e.1
    then (let overlap_start = max start e.0 in
        let overlap_end = min end e.1 in
        record {
          merged_start = min m.merged_start e.0;
          merged_end = max m.merged_end e.1;
          overlap =
              if ltb overlap_start overlap_end
              then m.overlap + (overlap_end - overlap_start)
              else m.overlap;
          to_remove = m.to_remove ++ (e.0 ∷ []);
        })
    else m

pub merge_entries : ℕ → ℕ → Merge → Entries → Merge
unfolding merge_entry
merge_entries start end m [] = m
merge_entries start end m (e ∷ es) = merge_entries start end (merge_entry start end m e) es

pub merge_next : ℕ → Entries → Merge → Merge
merge_next end ranges m = elim (first_from end ranges) [
  | none ↦ m
  | some e ↦
      if leb e.0 m.merged_end
      then record m { merged_end = max m.merged_end e.1; to_remove = m.to_remove ++ (e.0 ∷ []) }
      else m
]

-- The number of new bytes, and the ranges afterwards.
pub add_range : ℕ → ℕ → Entries → ℕ × Entries
unfolding merge_entries merge_next
add_range start end ranges =
    let original_len = end - start in
    let m =
      merge_next end ranges (merge_entries start end (unmerged start end) (range_to end ranges)) in
    (
      original_len - m.overlap,
      map_insert m.merged_start m.merged_end (remove_all m.to_remove ranges),
    )

pub record StreamReceiveBuffer : Type 0 where
  pub buffer : List ℕ
  pub capacity : ℕ
  pub read_head : ℕ
  pub write_head : ℕ
  pub received_ranges : Entries

pub new : ℕ → StreamReceiveBuffer
new capacity = record {
  buffer = [];
  capacity = capacity;
  read_head = 0;
  write_head = 0;
  received_ranges = [];
}

abbrev pub no_bytes : List ℕ → Bool
no_bytes [] = true
no_bytes (b ∷ bs) = false

-- `buffer[i..i + bytes.len()].copy_from_slice(bytes)`
pub overwrite : List ℕ → ℕ → List ℕ → List ℕ
overwrite buffer i [] = buffer
overwrite buffer i (b ∷ bytes) = overwrite (set buffer i b) (i + 1) bytes

-- The loop of `write`; each round copies a byte at least, so the number of bytes is enough fuel.
pub copy_chunks : ℕ → ℕ → List ℕ → ℕ → List ℕ → List ℕ
unfolding overwrite
copy_chunks fuel capacity buffer write_idx [] = buffer
copy_chunks zero capacity buffer write_idx (b ∷ bytes) = buffer
copy_chunks (suc fuel) capacity buffer write_idx (b ∷ bytes) =
    let chunk_len = min (length (b ∷ bytes)) (capacity - write_idx) in
    copy_chunks fuel capacity (overwrite buffer write_idx (take chunk_len (b ∷ bytes))) 0
      (drop chunk_len (b ∷ bytes))

pub store : StreamReceiveBuffer → ℕ → List ℕ → ℕ → Option ℕ × StreamReceiveBuffer
unfolding copy_chunks add_range
store s offset bytes end_offset =
    let buffer = if no_bytes s.buffer then replicate s.capacity 0 else s.buffer in
    let added = add_range offset end_offset s.received_ranges in
    (
      some added.0,
      record {
        buffer = copy_chunks (length bytes) s.capacity buffer (offset % s.capacity) bytes;
        capacity = s.capacity;
        read_head = s.read_head;
        write_head = if ltb s.write_head end_offset then end_offset else s.write_head;
        received_ranges = added.1;
      },
    )

pub write : StreamReceiveBuffer → ℕ → List ℕ → Option ℕ × StreamReceiveBuffer
unfolding store
write s offset bytes =
    if no_bytes bytes then (some 0, s) else elim (checked_add offset (length bytes)) [
      | none ↦ (none, s)
      | some end_offset ↦
          if ltb ((s.read_head + s.capacity) % 2 ^ 64) end_offset
          then (none, s)
          else store s offset bytes end_offset
    ]

-- The bytes of `len` positions from the read head on.
pub copy_out : StreamReceiveBuffer → ℕ → List ℕ
copy_out s len =
    let start_idx = s.read_head % s.capacity in
    let end_idx = (s.read_head + len) % s.capacity in
    if ltb start_idx end_idx
    then take (end_idx - start_idx) (drop start_idx s.buffer)
    else drop start_idx s.buffer ++ take end_idx s.buffer

-- The first remaining range, trimmed to start at the read head.
pub trim : ℕ → Entries → Entries
trim read_head [] = []
trim read_head (e ∷ es) =
    if ltb e.0 read_head && ltb read_head e.1
    then map_insert read_head e.1 (map_remove e.0 (e ∷ es))
    else e ∷ es

pub drop_stale : ℕ → Entries → Entries
drop_stale read_head ranges =
    remove_all (map (λ e. e.0) (filter (λ e. leb e.1 read_head) (range_to read_head ranges))) ranges

pub take_range : StreamReceiveBuffer → ℕ × ℕ → Option (List ℕ) × StreamReceiveBuffer
unfolding copy_out drop_stale trim
take_range s first =
    if leb first.0 s.read_head && ltb s.read_head first.1
    then (
      some (copy_out s (first.1 - s.read_head)),
      record s {
        read_head = first.1;
        received_ranges = trim first.1 (drop_stale first.1 s.received_ranges);
      },
    )
    else (none, s)

pub read_contiguous : StreamReceiveBuffer → Option (List ℕ) × StreamReceiveBuffer
unfolding take_range
read_contiguous s =
    if no_bytes s.buffer
    then (none, s)
    else elim s.received_ranges [ [] ↦ (none, s) | first ∷ rest ↦ take_range s first ]

-- `stream.final_rx_offset.is_some_and(|final_size| end_offset > final_size)`
abbrev pub exceeds_final : Option ℕ → ℕ → Bool
exceeds_final none end_offset = false
exceeds_final (some final_size) end_offset = ltb final_size end_offset

-- What the handler of a stream frame does with the buffer (`handle_frame`,
-- src/transport/actor/incoming_handler.rs), for a stream with this final size and flow-control limit:
-- bytes before the read head are cut off. On an error the buffer is left as it is.
pub receive : Option ℕ → ℕ → StreamReceiveBuffer → ℕ → List ℕ → StreamReceiveBuffer
unfolding write
receive final_rx_offset receive_limit s offset bytes = elim (checked_add offset (length bytes)) [
  | none ↦ s
  | some end_offset ↦
      if exceeds_final final_rx_offset end_offset
      then s
      else if leb end_offset s.read_head
      then s
      else if ltb receive_limit end_offset
      then s
      else if ltb offset s.read_head
      then (write s s.read_head (drop (s.read_head - offset) bytes)).1
      else (write s offset bytes).1
]

-- `linear` of `resize`: the bytes between the heads, out of the old buffer.
pub unread : StreamReceiveBuffer → List ℕ
unread s =
    let data_len = s.write_head - s.read_head in
    let old_start = s.read_head % s.capacity in
    let first_chunk_len = min data_len (s.capacity - old_start) in
    let first = take first_chunk_len (drop old_start s.buffer) in
    if ltb first_chunk_len data_len
    then first ++ take (data_len - first_chunk_len) s.buffer
    else first

-- The bytes written into a new buffer from a place on, around its end.
pub wrap_into : List ℕ → ℕ → ℕ → List ℕ → List ℕ
unfolding overwrite
wrap_into buffer capacity start linear =
    let first_chunk_len = min (length linear) (capacity - start) in
    let copied = overwrite buffer start (take first_chunk_len linear) in
    if ltb first_chunk_len (length linear)
    then overwrite copied 0 (drop first_chunk_len linear)
    else copied

pub resize : StreamReceiveBuffer → ℕ → StreamReceiveBuffer
unfolding unread wrap_into
resize s new_capacity =
    if new_capacity == s.capacity
    then s
    else if no_bytes s.buffer
    then record s { capacity = new_capacity }
    else record s {
      buffer =
          if ltb 0 (s.write_head - s.read_head)
          then wrap_into (replicate new_capacity 0) new_capacity (s.read_head % new_capacity)
              (unread s)
          else replicate new_capacity 0;
      capacity = new_capacity;
    }
