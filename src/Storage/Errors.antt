-- ===== src/Storage/Errors.antt =====
-- common.rs: what a failed operation leaves, whatever the operating system refuses.
use rustfits.Prelude.{ℕ, ◌-◌, refl, inl, inr, max, ltb, ◌==◌, List, if◌then◌else◌}
use rustfits.Storage.{Done, len, set_len, seek, flush}
use rustfits.Storage.World.{
  delta_exceeds_offset, World, FileIo, done, fail_with, ◌>>>◌, on_file, or_taint, held,
}
use rustfits.Storage.Shift.{
  shift_loop, shift_tail, shift_file_tail_and_update_offsets, move_tail, update_offsets, add_u64,
  sub_u64, saturating_add, chunk_size, zero_loop, zero_fill, zero_fill_range, backward_loop,
  shift_tail_backward, shift_file_tail_backward_and_update_offsets,
}
use rustfits.Storage.Taint.{
  Taints, or_taint-Taints, then-Taints, shift_loop-Taints, backward_loop-Taints, zero_loop-Taints,
  move_tail-Taints,
}
use rustfits.Storage.Explained.{
  bytes_in, IsExplained, IsMarked-IsExplained, IsExplained-kept, IsExplained-continue,
  choice-IsExplained, update_offsets-IsExplained, set_len-IsExplained, held-IsExplained, len-Keeps,
}

-- Steps that set the flag, and then the offsets.
moved-IsExplained :
    (before : List ℕ) (m : FileIo Done) (move : ℕ → ℕ) (after : ℕ) (w : World)
    → Taints m
    → IsExplained before ((m >>> update_offsets move after) w)
moved-IsExplained before m move after w h =
    IsExplained-continue before (m w) (λ _. update_offsets move after)
      (IsMarked-IsExplained before (m w) (h w))
      (λ _ w'. update_offsets-IsExplained before move after w')

shift_tail-IsExplained :
    (chunk after delta : ℕ) (w : World) → IsExplained (bytes_in w) (shift_tail chunk after delta w)
unfolding shift_tail
shift_tail-IsExplained chunk after delta w =
    let before = bytes_in w in
    let new_len =
      λ (original_len : ℕ). max (saturating_add original_len delta) (add_u64 after delta) in
    let loop =
      λ (original_len : ℕ). move_tail (shift_loop chunk after delta) (original_len - after) in
    let move = λ (offset : ℕ). add_u64 offset delta in
    IsExplained-kept before (on_file len w)
      (λ (n : ℕ). on_file (set_len (new_len n)) >>> loop n >>> update_offsets move after)
      (len-Keeps w)
      (λ n w' same.
        IsExplained-continue before ((on_file (set_len (new_len n)) >>> loop n) w')
          (λ _. update_offsets move after)
          (IsExplained-continue before (on_file (set_len (new_len n)) w') (λ _. loop n)
            (set_len-IsExplained before (new_len n) w' same)
            (λ _ v. IsMarked-IsExplained before (loop n v) (
              move_tail-Taints (shift_loop chunk after delta) (n - after)
                (shift_loop-Taints chunk after delta) v)))
          (λ _ v. update_offsets-IsExplained before move after v))

shift_tail_backward-IsExplained :
    (chunk after delta : ℕ) (w : World)
    → IsExplained (bytes_in w) (shift_tail_backward chunk after delta w)
unfolding shift_tail_backward
shift_tail_backward-IsExplained chunk after delta w =
    let before = bytes_in w in
    let loop = λ (fuel : ℕ). backward_loop chunk after delta fuel 0 in
    let cut = λ (original_len : ℕ). or_taint (on_file (set_len (sub_u64 original_len delta))) in
    let move = λ (offset : ℕ). offset - delta in
    IsExplained-kept before (on_file len w)
      (λ (n : ℕ). move_tail loop (n - after) >>> cut n >>> update_offsets move after) (len-Keeps w)
      (λ n w' same. moved-IsExplained before (move_tail loop (n - after) >>> cut n) move after w' (
        then-Taints (move_tail loop (n - after)) (cut n)
          (move_tail-Taints loop (n - after)
            (λ fuel. backward_loop-Taints chunk after delta fuel 0))
          (or_taint-Taints (on_file (set_len (sub_u64 n delta))))))

zero_fill-IsExplained :
    (chunk start count : ℕ) (w : World) → IsExplained (bytes_in w) (zero_fill chunk start count w)
unfolding zero_fill
zero_fill-IsExplained chunk start count w =
    let before = bytes_in w in
    let to_start = or_taint (on_file (seek start)) in
    let clear = zero_loop chunk count count in
    let out = or_taint (on_file flush) in
    IsExplained-continue before ((held >>> to_start >>> clear) w) (λ _. out)
      (IsExplained-continue before ((held >>> to_start) w) (λ _. clear)
        (IsExplained-continue before (held w) (λ _. to_start) (held-IsExplained w)
          (λ _ v.
            IsMarked-IsExplained before (to_start v) (or_taint-Taints (on_file (seek start)) v)))
        (λ _ v. IsMarked-IsExplained before (clear v) (zero_loop-Taints chunk count count v)))
      (λ _ v. IsMarked-IsExplained before (out v) (or_taint-Taints (on_file flush) v))

-- `shift_file_tail_and_update_offsets`, its mirror towards the start, and `zero_fill_range`, on any
-- handle and whichever operations the system refuses: an error has set the taint flag, or the bytes
-- are those from before the call, or it says that the lock of the layout is poisoned; the mirror's
-- complaint of a `delta` that is too large leaves the bytes too.
pub shift-IsExplained :
    (after delta : ℕ) (w : World)
    → IsExplained (bytes_in w) (shift_file_tail_and_update_offsets after delta w)
      × IsExplained (bytes_in w) (shift_file_tail_backward_and_update_offsets after delta w)
      × IsExplained (bytes_in w) (zero_fill_range after delta w)
unfolding shift_file_tail_and_update_offsets shift_file_tail_backward_and_update_offsets
    zero_fill_range
shift-IsExplained after delta w =
    let before = bytes_in w in
    (
      choice-IsExplained before (delta == 0) done (shift_tail chunk_size after delta) w tt
          (shift_tail-IsExplained chunk_size after delta w),
      choice-IsExplained before (delta == 0) done
          (if ltb after delta
            then fail_with delta_exceeds_offset
            else shift_tail_backward chunk_size after delta)
          w tt
          (choice-IsExplained before (ltb after delta) (fail_with delta_exceeds_offset)
            (shift_tail_backward chunk_size after delta) w (inr (inl refl))
            (shift_tail_backward-IsExplained chunk_size after delta w)),
      choice-IsExplained before (delta == 0) done (zero_fill chunk_size after delta) w tt
          (zero_fill-IsExplained chunk_size after delta w),
    )
