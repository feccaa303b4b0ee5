-- ===== src/Rice/Tests.antt =====
-- zimage/rice.rs: short streams, and the theorems at concrete inputs.
use rustfits.Prelude.{
  ℕ, ◌+◌, ◌/◌, ◌%◌, ◌<◌, ◌≡◌, refl, inl, List, [], ◌∷◌, ◌++◌, map, length, All, Outcome, ok, err,
  ◌>>=◌, arith,
}
use rustfits.Rice.{
  BitReader, RiceError, end_of_stream, new_writer, flush_full, write_top, keep_low, write_loop,
  write_bits, zeros_loop, write_zeros, write_unary, finish, new_reader, advance, read_loop,
  read_bits, unary_loop, read_unary,
}
use rustfits.Rice.Fields.{answer_all, request, start_buffer, answer_all-write_fields}
use rustfits.Rice.Digits.{to_bits, byte_bits}
use rustfits.Rice.Stream.{all_bits, finish-write_fields}
use rustfits.Rice.Writer.{
  Field, bits_of, unary_of, write_field, write_fields, total_width, length-finish,
}
use rustfits.Rice.Diff.{narrow, pixel_diff, zigzag, diffs, undiffs, values, undiffs-diffs}

-- 0x2A in 8 bits, 5 in 3 bits, a unary 9.
abbrev fields : List Field
fields = bits_of 0x2a 8 ∷ bits_of 5 3 ∷ unary_of 9 ∷ []

abbrev stream : List ℕ
stream = 0x2a ∷ 0xa0 ∷ 0x08 ∷ []

written : finish (write_fields fields new_writer) ≡ stream
unfolding write_fields write_field write_bits write_unary write_zeros write_loop zeros_loop
    write_top keep_low flush_full finish new_writer
written = refl

read_three : BitReader → Outcome RiceError (ℕ × (ℕ × ℕ))
read_three r =
    read_bits 8 r >>= λ a. read_bits 3 a.1 >>= λ b. read_unary b.1 >>= λ c. ok (a.0, (b.0, c.0))

read_back : read_three (new_reader stream) ≡ ok (0x2a, (5, 9))
unfolding read_three read_bits read_unary unary_loop read_loop advance new_reader
read_back = refl

past_the_end : read_bits 9 (new_reader (255 ∷ [])) ≡ err end_of_stream
unfolding read_bits read_loop advance new_reader
past_the_end = refl

length-finish_example :
    length (finish (write_fields fields new_writer)) ≡ (total_width fields + 7) / 8
length-finish_example = length-finish fields

-- Pixels 3, -1, 200 of one byte: the difference of 201 wraps.
undiffs-diffs_example :
    All (λ (d : ℕ). d < values 1) (diffs 1 0 (3 ∷ 0xffff_ffff ∷ 200 ∷ []))
    × (map (λ (v : ℕ). v % values 1) (undiffs 0 (diffs 1 0 (3 ∷ 0xffff_ffff ∷ 200 ∷ [])))
        ≡ map (λ (v : ℕ). v % values 1) (3 ∷ 0xffff_ffff ∷ 200 ∷ []))
undiffs-diffs_example =
    undiffs-diffs 1 0 0 (3 ∷ 0xffff_ffff ∷ 200 ∷ []) (inl refl) (omega arith)
      (omega arith, (omega arith, (omega arith, tt))) refl

codes : diffs 1 0 (3 ∷ 0xffff_ffff ∷ 200 ∷ []) ≡ 6 ∷ 7 ∷ 109 ∷ []
unfolding diffs pixel_diff narrow zigzag
codes = refl

finish-write_fields_example :
    (pad : ℕ) × (pad < 8)
    × (byte_bits (finish (write_fields fields new_writer)) ≡ all_bits fields ++ to_bits pad 0)
finish-write_fields_example = finish-write_fields fields

abbrev more_fields : List Field
more_fields = bits_of 5 3 ∷ unary_of 70 ∷ bits_of 77 7 ∷ unary_of 0 ∷ []

answer_all-write_fields_example :
    answer_all
      (map request more_fields)
      (start_buffer (finish (write_fields more_fields new_writer)))
    ≡ ok (5 ∷ 70 ∷ 77 ∷ 0 ∷ [])
answer_all-write_fields_example =
    answer_all-write_fields more_fields
      ((omega arith, omega arith), (omega arith, ((omega arith, omega arith), (omega arith, tt))))
