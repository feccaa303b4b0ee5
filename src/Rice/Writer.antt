-- ===== src/Rice/Writer.antt =====
-- zimage/rice.rs: how many bits and bytes the writer has written.
use rustfits.Prelude.{
  ℕ, zero, suc, ◌+◌, ◌-◌, ◌*◌, ◌/◌, ◌≤◌, ◌<◌, ◌≡◌, true, false, ◌==◌, ltb, min, List, [], ◌∷◌,
  length, length-append, arith,
}
use rustfits.Rice.{
  BitWriter, new_writer, flush_full, write_top, keep_low, write_loop, write_bits, zeros_loop,
  write_zeros, write_unary, finish,
}

-- The bits written so far.
pub count : BitWriter → ℕ
count w = length w.out * 8 + w.bits_used

-- After `n` more bits, the last byte is not full.
record HasWritten (n : ℕ) (w v : BitWriter) : Type 0 where
  pub bits : count v ≡ count w + n
  pub room : v.bits_used < 8

flush_full-bits :
    (out : List ℕ) (cur used : ℕ)
    → used ≤ 8
    → (count (flush_full (record { out = out; cur_byte = cur; bits_used = used }))
        ≡ length out * 8 + used)
      × ((flush_full (record { out = out; cur_byte = cur; bits_used = used })).bits_used < 8)
unfolding flush_full count
flush_full-bits out cur used h = let len = length-append out (cur ∷ []) in ground (arith, len)

write_top-bits :
    (value remaining : ℕ) (w : BitWriter)
    → w.bits_used < 8
    → (count (write_top value remaining w) ≡ count w + min remaining (8 - w.bits_used))
      × ((write_top value remaining w).bits_used < 8)
unfolding write_top count
write_top-bits value remaining w room =
    let used = w.bits_used + min remaining (8 - w.bits_used) in
    let flushed = flush_full-bits w.out _ used (omega arith) in
    (omega (arith, flushed.0), flushed.1)

write_loop-HasWritten :
    (fuel value remaining : ℕ) (w : BitWriter)
    → remaining ≤ fuel
    → w.bits_used < 8
    → HasWritten remaining w (write_loop fuel value remaining w)
unfolding write_loop
write_loop-HasWritten zero value remaining w enough room = record {
  bits = omega arith;
  room = room;
}
write_loop-HasWritten (suc fuel) value zero w enough room = record {
  bits = omega arith;
  room = room;
}
write_loop-HasWritten (suc fuel) value (suc n) w enough room =
    let left = suc n - min (suc n) (8 - w.bits_used) in
    let turn = write_top-bits value (suc n) w room in
    let rest =
      write_loop-HasWritten fuel (keep_low value left) left (write_top value (suc n) w)
        (omega arith) turn.1 in
    let bits = rest.bits in
    let go_on : ltb 0 (suc n) ≡ true = ground arith in
    rw go_on (record { bits = omega (arith, turn.0); room = rest.room })

write_bits-HasWritten :
    (value n : ℕ) (w : BitWriter) → w.bits_used < 8 → HasWritten n w (write_bits value n w)
unfolding write_bits
write_bits-HasWritten value zero w room = record { bits = omega arith; room = room }
write_bits-HasWritten value (suc n) w room =
    let some_bits : (suc n == 0) ≡ false = ground arith in
    rw some_bits (write_loop-HasWritten (suc n) _ (suc n) w (omega arith) room)

zeros_loop-HasWritten :
    (fuel remaining : ℕ) (w : BitWriter)
    → remaining ≤ fuel
    → w.bits_used < 8
    → HasWritten remaining w (zeros_loop fuel remaining w)
unfolding zeros_loop count
zeros_loop-HasWritten zero remaining w enough room = record { bits = omega arith; room = room }
zeros_loop-HasWritten (suc fuel) zero w enough room = record { bits = omega arith; room = room }
zeros_loop-HasWritten (suc fuel) (suc n) w enough room =
    let taken = min (suc n) (8 - w.bits_used) in
    let turn = flush_full-bits w.out w.cur_byte (w.bits_used + taken) (omega arith) in
    let next : BitWriter =
      flush_full (record { out = w.out; cur_byte = w.cur_byte; bits_used = w.bits_used + taken }) in
    let rest = zeros_loop-HasWritten fuel (suc n - taken) next (omega arith) turn.1 in
    let bits = rest.bits in
    let go_on : ltb 0 (suc n) ≡ true = ground arith in
    rw go_on (record { bits = omega (arith, turn.0, bits); room = rest.room })

write_zeros-HasWritten :
    (n : ℕ) (w : BitWriter) → w.bits_used < 8 → HasWritten n w (write_zeros n w)
unfolding write_zeros
write_zeros-HasWritten zero w room = record { bits = omega arith; room = room }
write_zeros-HasWritten (suc n) w room =
    let some_bits : (suc n == 0) ≡ false = ground arith in
    rw some_bits (zeros_loop-HasWritten (suc n) (suc n) w (omega arith) room)

-- What the encoder asks of the writer.
pub data Field : Type 0 where
  bits_of : ℕ → ℕ → Field
  unary_of : ℕ → Field

unfoldable pub write_field : Field → BitWriter → BitWriter
write_field (bits_of value n) w = write_bits value n w
write_field (unary_of n) w = write_unary n w

unfoldable pub write_fields : List Field → BitWriter → BitWriter
write_fields [] w = w
write_fields (f ∷ fs) w = write_fields fs (write_field f w)

abbrev pub width : Field → ℕ
width (bits_of value n) = n
width (unary_of n) = n + 1

abbrev pub total_width : List Field → ℕ
total_width [] = 0
total_width (f ∷ fs) = width f + total_width fs

write_field-HasWritten :
    (f : Field) (w : BitWriter) → w.bits_used < 8 → HasWritten (width f) w (write_field f w)
unfolding write_field write_unary
write_field-HasWritten (bits_of value n) w room = write_bits-HasWritten value n w room
write_field-HasWritten (unary_of n) w room =
    let zeros = write_zeros-HasWritten n w room in
    let one = write_bits-HasWritten 1 1 (write_zeros n w) zeros.room in
    let a = zeros.bits in let b = one.bits in record { bits = omega arith; room = one.room }

write_fields-HasWritten :
    (fs : List Field) (w : BitWriter)
    → w.bits_used < 8
    → HasWritten (total_width fs) w (write_fields fs w)
unfolding write_fields
write_fields-HasWritten [] w room = record { bits = omega arith; room = room }
write_fields-HasWritten (f ∷ fs) w room =
    let first = write_field-HasWritten f w room in
    let rest = write_fields-HasWritten fs (write_field f w) first.room in
    let a = first.bits in let b = rest.bits in record { bits = omega arith; room = rest.room }

-- Whatever fields are written on a new writer, `finish` gives as many bytes as their widths need:
-- the sum of the widths divided by 8 and rounded up, where a unary code of `n` has n + 1 bits.
pub length-finish :
    (fs : List Field) → length (finish (write_fields fs new_writer)) ≡ (total_width fs + 7) / 8
unfolding finish count new_writer
length-finish fs =
    let w = write_fields fs new_writer in
    let all = write_fields-HasWritten fs new_writer (omega arith) in
    let bits = all.bits in
    let room = all.room in
    let last = length-append w.out (w.cur_byte ∷ []) in ground (arith, bits, room, last)
