-- ===== src/Storage/Tests.antt =====
-- Tests of the helpers of common.rs, and an instance of each theorem on them.
use rustfits.Prelude.{
  ℕ, ◌+◌, ◌-◌, ◌≡◌, ◌≤◌, refl, Bool, false, true, List, [], ◌∷◌, ok, err, none, some, arith,
}
use rustfits.Storage.{disk, mem, works, fails, len, set_len, seek, read_exact, write_all, flush}
use rustfits.Storage.World.{
  World, HduOffsets, opened, at, quiet, layout_lock_poisoned, ◌>>>◌, on_file, or_taint,
}
use rustfits.Storage.Shift.{
  shift_tail, shift_loop, move_tail, move_chunk, update_offsets, zero_fill, zero_fill_range,
  shift_tail_backward, stream_copy_in_file, next_hdu_start, round_up_to_block, add_u64,
  shift_file_tail_and_update_offsets, shift_file_tail_backward_and_update_offsets,
  grow_file_to_at_least,
}
use rustfits.Storage.Move.{IsMoved}
use rustfits.Storage.Opened.{IsOpened, with_hdus, shift_tail-IsOpened, shift_tail-poisoned}
use rustfits.Storage.Insert.{insert_zeros, shift_tail-zero_fill}
use rustfits.Storage.Remove.{remove, shift_tail_backward-remove}
use rustfits.Storage.Backward.{stream_copy_in_file-IsMoved}
use rustfits.Storage.Explained.{IsExplained}
use rustfits.Storage.Errors.{shift-IsExplained}
use rustfits.Storage.Grow.{IsGrown, grow_file_to_at_least-IsGrown}

abbrev first_hdu : HduOffsets
first_hdu = record { header_offset = 0; header_block_count = 1; data_offset = 2 }

abbrev second_hdu : HduOffsets
second_hdu = record { header_offset = 4; header_block_count = 1; data_offset = 5 }

abbrev two_hdus : List HduOffsets
two_hdus = first_hdu ∷ second_hdu ∷ []

abbrev some_bytes : List ℕ
some_bytes = 10 ∷ 11 ∷ 12 ∷ 13 ∷ 20 ∷ 21 ∷ 22 ∷ []

abbrev some_world : World
some_world = record {
  file = opened (quiet disk some_bytes 0 false);
  hdus = two_hdus;
  layout_poisoned = false;
  tainted = false;
}

abbrev locked_world : World
locked_world = record some_world { layout_poisoned = true }

-- The second write fails after one byte.
abbrev failing_world : World
failing_world = record some_world {
  file = opened (record (quiet disk some_bytes 0 false) {
    faults = works ∷ works ∷ works ∷ works ∷ works ∷ fails 1 ∷ [];
  });
}

shifted_bytes : shift_tail 2 4 2 some_world ≡ (
  ok tt,
  record (at some_world disk (10 ∷ 11 ∷ 12 ∷ 13 ∷ 20 ∷ 21 ∷ 20 ∷ 21 ∷ 22 ∷ []) 7 false) {
    hdus = first_hdu ∷ record { header_offset = 6; header_block_count = 1; data_offset = 7 } ∷ [];
  },
)
unfolding shift_tail shift_loop move_tail move_chunk or_taint on_file update_offsets len set_len
    seek read_exact write_all flush
shifted_bytes = refl

failed_write_taints : (shift_tail 4 4 2 failing_world).1.tainted ≡ true
unfolding shift_tail shift_loop move_tail move_chunk or_taint on_file update_offsets len set_len
    seek read_exact write_all flush
failed_write_taints = refl

no_next_hdu : next_hdu_start 5 two_hdus ≡ none
unfolding next_hdu_start
no_next_hdu = refl

next_hdu : next_hdu_start 2 two_hdus ≡ some 4
unfolding next_hdu_start
next_hdu = refl

shift_tail-IsOpened_example :
    (ys : List ℕ) × (q : ℕ) × (e : Bool) × (shift_tail 2 4 2 (at some_world disk some_bytes 0 false)
      ≡ (ok tt, with_hdus (at some_world disk ys q e) (λ (offset : ℕ). add_u64 offset 2) 4))
    × IsOpened 4 2 some_bytes ys
shift_tail-IsOpened_example =
    shift_tail-IsOpened some_world disk some_bytes 0 false 2 4 2 refl refl (omega arith)
      (omega arith) (omega arith)

shift_tail-poisoned_example :
    (ys : List ℕ) × (q : ℕ) × (e : Bool) × (shift_tail 2 4 2
        (at locked_world disk some_bytes 0 false)
      ≡ (err layout_lock_poisoned, at locked_world disk ys q e))
    × IsOpened 4 2 some_bytes ys
shift_tail-poisoned_example =
    shift_tail-poisoned locked_world disk some_bytes 0 false 2 4 2 refl refl (omega arith)
      (omega arith) (omega arith)

shift_tail-zero_fill_example :
    (q : ℕ) × (e : Bool) × ((shift_tail 2 4 2 >>> zero_fill 2 4 2)
        (at some_world mem some_bytes 0 false)
      ≡ (
        ok tt,
        with_hdus
            (at some_world mem (insert_zeros 4 2 some_bytes) q e)
            (λ (offset : ℕ). add_u64 offset 2)
            4,
      ))
shift_tail-zero_fill_example =
    shift_tail-zero_fill some_world mem some_bytes 0 false 2 4 2 refl refl (omega arith)
      (omega arith) (omega arith)

shift_tail_backward-remove_example :
    (q : ℕ) × (e : Bool) × (shift_tail_backward 2 4 1 (at some_world disk some_bytes 0 false) ≡ (
      ok tt,
      with_hdus (at some_world disk (remove 4 1 some_bytes) q e) (λ (offset : ℕ). offset - 1) 4,
    ))
shift_tail_backward-remove_example =
    shift_tail_backward-remove some_world disk some_bytes 0 false 2 4 1 refl refl (omega arith)
      (omega arith) (omega arith) (omega arith)

stream_copy_in_file-IsMoved_example :
    (ys : List ℕ) × (q : ℕ) × (e : Bool) × (stream_copy_in_file 3 1 4 3
        (at some_world disk some_bytes 0 false)
      ≡ (ok tt, at some_world disk ys q e))
    × IsMoved 3 1 4 some_bytes ys
stream_copy_in_file-IsMoved_example =
    stream_copy_in_file-IsMoved some_world disk refl 3 3 1 4 some_bytes 0 false (omega arith)
      (omega arith) (omega arith) (omega arith)

shift-IsExplained_example :
    IsExplained some_bytes (shift_file_tail_and_update_offsets 4 2 failing_world)
    × IsExplained some_bytes (shift_file_tail_backward_and_update_offsets 4 2 failing_world)
    × IsExplained some_bytes (zero_fill_range 4 2 failing_world)
shift-IsExplained_example = shift-IsExplained 4 2 failing_world

size_of_ten : round_up_to_block 10 ≤ 2880
unfolding round_up_to_block
size_of_ten = omega arith

grow_file_to_at_least-IsGrown_example :
    (ys : List ℕ) × (q : ℕ) × (e : Bool) × (hs : List HduOffsets) × (grow_file_to_at_least 2 10
        (at some_world disk some_bytes 0 false)
      ≡ (ok tt, record (at some_world disk ys q e) { hdus = hs }))
    × IsGrown 2 (2 + round_up_to_block 10) some_bytes ys two_hdus hs
grow_file_to_at_least-IsGrown_example =
    grow_file_to_at_least-IsGrown some_world disk some_bytes 0 false 2 10 refl refl
      (omega arith, (omega arith, tt)) (omega (arith, size_of_ten))
