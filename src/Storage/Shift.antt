-- ===== src/Storage/Shift.antt =====
-- common.rs: the functions that move bytes inside a file.
use rustfits.Prelude.{
  ℕ, zero, suc, ◌+◌, ◌-◌, ◌*◌, ◌/◌, ◌%◌, ◌^◌, ◌==◌, ltb, leb, if◌then◌else◌, min, max, List, [],
  ◌∷◌, map, replicate, Option, none, some, ok, err,
}
use rustfits.Storage.{Done, len, set_len, seek, read_exact, write_all, flush}
use rustfits.Storage.World.{
  layout_lock_poisoned, delta_exceeds_offset, HduOffsets, FileIo, done, fail_with, ◌>=>◌, ◌>>>◌,
  on_file, or_taint, held,
}

abbrev pub block_size : ℕ
block_size = 2880

-- `n.div_ceil(block) * block`
unfoldable pub round_up_to_block : ℕ → ℕ
round_up_to_block n = (n + 2879) / block_size * block_size

abbrev pub add_u64 : ℕ → ℕ → ℕ
add_u64 a b = (a + b) % 2 ^ 64

abbrev pub sub_u64 : ℕ → ℕ → ℕ
sub_u64 a b = (a + 2 ^ 64 - b) % 2 ^ 64

abbrev pub saturating_add : ℕ → ℕ → ℕ
saturating_add a b = min (a + b) (2 ^ 64 - 1)

-- One chunk of `n` bytes, read from `src` and written to `dst`.
unfoldable pub move_chunk : ℕ → ℕ → ℕ → FileIo Done
move_chunk src dst n =
    or_taint (on_file (seek src)) >>> or_taint (on_file (read_exact n)) >=> λ chunk.
    or_taint (on_file (seek dst)) >>> or_taint (on_file (write_all chunk))

-- The last chunk of the tail first. A turn moves at least one byte, so `remaining` turns are enough.
unfoldable pub shift_loop : ℕ → ℕ → ℕ → ℕ → ℕ → FileIo Done
shift_loop chunk after delta zero remaining = done
shift_loop chunk after delta (suc fuel) remaining =
    let n = min remaining chunk in
    let src = after + remaining - n in
    let rest =
      move_chunk src (add_u64 src delta) n >>> shift_loop chunk after delta fuel (remaining - n) in
    if ltb 0 remaining then rest else done

abbrev pub shift_offsets : (ℕ → ℕ) → ℕ → HduOffsets → HduOffsets
shift_offsets move after h =
    if leb after h.header_offset
    then record h { header_offset = move h.header_offset; data_offset = move h.data_offset }
    else h

-- The loop over `layout.hdus`, under its lock.
unfoldable pub update_offsets : (ℕ → ℕ) → ℕ → FileIo Done
update_offsets move after w =
    if w.layout_poisoned
    then (err layout_lock_poisoned, w)
    else (ok tt, record w { hdus = map (shift_offsets move after) w.hdus })

abbrev pub chunk_size : ℕ
chunk_size = 2 ^ 20

-- The loop over a tail that is not empty, and the flush behind it.
unfoldable pub move_tail : (ℕ → ℕ → FileIo Done) → ℕ → FileIo Done
move_tail loop tail_len =
    if ltb 0 tail_len then (loop tail_len tail_len >>> or_taint (on_file flush)) else done

unfoldable pub shift_tail : ℕ → ℕ → ℕ → FileIo Done
shift_tail chunk after delta = on_file len >=> λ original_len.
    on_file (set_len (max (saturating_add original_len delta) (add_u64 after delta)))
    >>> move_tail (shift_loop chunk after delta) (original_len - after)
    >>> update_offsets (λ (offset : ℕ). add_u64 offset delta) after

unfoldable pub shift_file_tail_and_update_offsets : ℕ → ℕ → FileIo Done
shift_file_tail_and_update_offsets after delta =
    if delta == 0 then done else shift_tail chunk_size after delta

unfoldable pub zero_loop : ℕ → ℕ → ℕ → FileIo Done
zero_loop chunk zero remaining = done
zero_loop chunk (suc fuel) remaining =
    let n = min remaining chunk in
    let rest =
      or_taint (on_file (write_all (replicate n 0))) >>> zero_loop chunk fuel (remaining - n) in
    if ltb 0 remaining then rest else done

unfoldable pub zero_fill : ℕ → ℕ → ℕ → FileIo Done
zero_fill chunk start count =
    held
    >>> or_taint (on_file (seek start))
    >>> zero_loop chunk count count
    >>> or_taint (on_file flush)

unfoldable pub zero_fill_range : ℕ → ℕ → FileIo Done
zero_fill_range start count = if count == 0 then done else zero_fill chunk_size start count

-- The first chunk first: `moved` bytes are moved, and `left` are not.
unfoldable pub backward_loop : ℕ → ℕ → ℕ → ℕ → ℕ → ℕ → FileIo Done
backward_loop chunk after delta zero moved left = done
backward_loop chunk after delta (suc fuel) moved left =
    let n = min left chunk in
    let src = after + moved in
    let rest =
      move_chunk src (src - delta) n
      >>> backward_loop chunk after delta fuel (moved + n) (left - n) in
    if ltb 0 left then rest else done

unfoldable pub shift_tail_backward : ℕ → ℕ → ℕ → FileIo Done
shift_tail_backward chunk after delta = on_file len >=> λ original_len.
    move_tail (λ (fuel : ℕ). backward_loop chunk after delta fuel 0) (original_len - after)
    >>> or_taint (on_file (set_len (sub_u64 original_len delta)))
    >>> update_offsets (λ (offset : ℕ). offset - delta) after

unfoldable pub shift_file_tail_backward_and_update_offsets : ℕ → ℕ → FileIo Done
shift_file_tail_backward_and_update_offsets after delta =
    if delta == 0
    then done
    else if ltb after delta
    then fail_with delta_exceeds_offset
    else shift_tail_backward chunk_size after delta

-- A chunk of `stream_copy_in_file`, where a failed seek does not taint.
unfoldable pub copy_chunk : ℕ → ℕ → ℕ → FileIo Done
copy_chunk src dst n = on_file (seek src) >>> or_taint (on_file (read_exact n)) >=> λ buf.
    on_file (seek dst) >>> or_taint (on_file (write_all buf))

unfoldable pub copy_loop : ℕ → ℕ → ℕ → ℕ → ℕ → ℕ → FileIo Done
copy_loop chunk src_off dst_off zero processed left = done
copy_loop chunk src_off dst_off (suc fuel) processed left =
    let n = min left chunk in
    let rest =
      copy_chunk (add_u64 src_off processed) (add_u64 dst_off processed) n
      >>> copy_loop chunk src_off dst_off fuel (processed + n) (left - n) in
    if ltb 0 left then rest else done

-- A chunk of no bytes would not end the loop; every caller passes a positive one.
unfoldable pub stream_copy_in_file : ℕ → ℕ → ℕ → ℕ → FileIo Done
stream_copy_in_file src_off dst_off count chunk = copy_loop chunk src_off dst_off count 0 count

abbrev pub nearer : ℕ → Option ℕ → ℕ
nearer offset none = offset
nearer offset (some other) = min offset other

-- The least header offset behind `data_offset`.
unfoldable pub next_hdu_start : ℕ → List HduOffsets → Option ℕ
next_hdu_start data_offset [] = none
next_hdu_start data_offset (h ∷ hs) =
    let rest = next_hdu_start data_offset hs in
    if ltb data_offset h.header_offset then some (nearer h.header_offset rest) else rest

abbrev pub find_next_hdu : ℕ → FileIo (Option ℕ)
find_next_hdu data_offset w =
    if w.layout_poisoned
    then (err layout_lock_poisoned, w)
    else (ok (next_hdu_start data_offset w.hdus), w)

unfoldable pub grow_to : ℕ → ℕ → Option ℕ → FileIo Done
grow_to want_end file_len none =
    if leb want_end file_len then done else or_taint (on_file (set_len want_end))
grow_to want_end file_len (some next) =
    if leb want_end next then done else shift_file_tail_and_update_offsets next (want_end - next)

unfoldable pub grow_file_to_at_least : ℕ → ℕ → FileIo Done
grow_file_to_at_least data_offset min_bytes = find_next_hdu data_offset >=> λ next.
    on_file len >=> λ file_len.
    grow_to (add_u64 data_offset (round_up_to_block min_bytes)) file_len next
