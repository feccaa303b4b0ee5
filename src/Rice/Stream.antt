-- ===== src/Rice/Stream.antt =====
-- zimage/rice.rs: the bits of a finished stream.
use rustfits.Prelude.{
  All, All-append, IsByte, ℕ, zero, suc, ◌+◌, ◌-◌, ◌*◌, ◌%◌, ◌^◌, ◌≤◌, ◌<◌, ◌≡◌, refl, sym, ap, ◌∙◌,
  true, false, ◌==◌, ltb, min, two_pow_pos, List, [], ◌∷◌, ◌++◌, append-nil, append_assoc, arith,
  Bool-cases, inl, inr,
}
use mathlib.Core.Path.{subst}
use rustfits.Rice.{
  BitWriter, new_writer, flush_full, zeros_loop, write_zeros, write_bits, write_unary, finish,
}
use rustfits.Rice.Digits.{to_bits, byte_bits, to_bits-add, two_pow_add, byte_bits-append}
use rustfits.Rice.Written.{Fills, flush_full-Fills, two_fields, write_bits-Fills}
use rustfits.Rice.Writer.{Field, bits_of, unary_of, write_field, write_fields}

zero_bits-add : (a b : ℕ) → to_bits (a + b) 0 ≡ to_bits a 0 ++ to_bits b 0
zero_bits-add a b =
    ap (to_bits (a + b)) (let e : 0 ≡ 0 * 2 ^ b + 0 = omega arith in e)
    ∙ to_bits-add a b 0 0 (two_pow_pos b)

-- Zeros move the place in the current byte.
skip-Fills :
    (w : BitWriter) (bits : List ℕ) (taken : ℕ)
    → w.bits_used + taken ≤ 8
    → Fills w bits
    → Fills
        (record { out = w.out; cur_byte = w.cur_byte; bits_used = w.bits_used + taken })
        (bits ++ to_bits taken 0)
skip-Fills w bits taken room f =
    let k = 8 - (w.bits_used + taken) in
    let sum : 8 - w.bits_used ≡ taken + k = omega arith in
    let place : 2 ^ (8 - w.bits_used) ≡ 2 ^ taken * 2 ^ k =
      ap (λ (n : ℕ). 2 ^ n) sum ∙ two_pow_add taken k in
    let cur = f.cur in
    record {
      high = f.high * 2 ^ taken + 0;
      cur = f.cur ∙ ap (λ (n : ℕ). f.high * n) place ∙ omega arith;
      small = two_fields w.bits_used taken f.high 0 f.small (two_pow_pos taken);
      written =
          ap (λ (t : List ℕ). t ++ to_bits taken 0) f.written
          ∙ append_assoc (byte_bits w.out) (to_bits w.bits_used f.high) (to_bits taken 0)
          ∙ ap (λ (t : List ℕ). byte_bits w.out ++ t)
              (sym (to_bits-add w.bits_used taken f.high 0 (two_pow_pos taken)));
      bytes = f.bytes;
    }

zeros_loop-Fills :
    (fuel remaining : ℕ) (w : BitWriter) (bits : List ℕ)
    → remaining ≤ fuel
    → w.bits_used < 8
    → Fills w bits
    → Fills (zeros_loop fuel remaining w) (bits ++ to_bits remaining 0)
      × ((zeros_loop fuel remaining w).bits_used < 8)
unfolding zeros_loop
zeros_loop-Fills zero zero w bits enough room f = (rw (append-nil bits) f, room)
zeros_loop-Fills zero (suc n) w bits enough room f = absurd (omega arith)
zeros_loop-Fills (suc fuel) zero w bits enough room f = (rw (append-nil bits) f, room)
zeros_loop-Fills (suc fuel) (suc n) w bits enough room f =
    let taken = min (suc n) (8 - w.bits_used) in
    let go_on : ltb 0 (suc n) ≡ true = ground arith in
    let moved : BitWriter = record {
      out = w.out;
      cur_byte = w.cur_byte;
      bits_used = w.bits_used + taken;
    } in
    let (turn, open_byte) =
      flush_full-Fills moved (bits ++ to_bits taken 0) (omega arith)
        (skip-Fills w bits taken (omega arith) f) in
    let (rest, room') =
      zeros_loop-Fills fuel (suc n - taken) (flush_full moved) (bits ++ to_bits taken 0)
        (omega arith) open_byte turn in
    let parts : taken + (suc n - taken) ≡ suc n = omega arith in
    let all : (bits ++ to_bits taken 0) ++ to_bits (suc n - taken) 0 ≡ bits ++ to_bits (suc n) 0 =
      append_assoc bits (to_bits taken 0) (to_bits (suc n - taken) 0)
      ∙ ap (λ (t : List ℕ). bits ++ t)
          (sym (zero_bits-add taken (suc n - taken)) ∙ ap (λ (k : ℕ). to_bits k 0) parts) in
    rw go_on (
      subst (λ (t : List ℕ). Fills (zeros_loop fuel (suc n - taken) (flush_full moved)) t) all rest,
      room',
    )

write_zeros-Fills :
    (n : ℕ) (w : BitWriter) (bits : List ℕ)
    → w.bits_used < 8
    → Fills w bits
    → Fills (write_zeros n w) (bits ++ to_bits n 0) × ((write_zeros n w).bits_used < 8)
unfolding write_zeros
write_zeros-Fills zero w bits room f = (rw (append-nil bits) f, room)
write_zeros-Fills (suc n) w bits room f =
    let some_bits : (suc n == 0) ≡ false = ground arith in
    rw some_bits (zeros_loop-Fills (suc n) (suc n) w bits (omega arith) room f)

-- The bits that a field stands for.
abbrev pub field_bits : Field → List ℕ
field_bits (bits_of value n) = to_bits n (value % 2 ^ n)
field_bits (unary_of n) = to_bits n 0 ++ 1 ∷ []

abbrev pub all_bits : List Field → List ℕ
all_bits [] = []
all_bits (f ∷ fs) = field_bits f ++ all_bits fs

write_field-Fills :
    (f : Field) (w : BitWriter) (bits : List ℕ)
    → w.bits_used < 8
    → Fills w bits
    → Fills (write_field f w) (bits ++ field_bits f) × ((write_field f w).bits_used < 8)
unfolding write_field write_unary
write_field-Fills (bits_of value n) w bits room f = write_bits-Fills value n w bits room f
write_field-Fills (unary_of n) w bits room f =
    let (zeros, room') = write_zeros-Fills n w bits room f in
    let (all, room'') = write_bits-Fills 1 1 (write_zeros n w) (bits ++ to_bits n 0) room' zeros in
    (
      subst (λ (t : List ℕ). Fills (write_bits 1 1 (write_zeros n w)) t)
          (append_assoc bits (to_bits n 0) (1 ∷ [])) all,
      room'',
    )

write_fields-Fills :
    (fs : List Field) (w : BitWriter) (bits : List ℕ)
    → w.bits_used < 8
    → Fills w bits
    → Fills (write_fields fs w) (bits ++ all_bits fs) × ((write_fields fs w).bits_used < 8)
unfolding write_fields
write_fields-Fills [] w bits room f = (rw (append-nil bits) f, room)
write_fields-Fills (field ∷ fs) w bits room f =
    let (first, room') = write_field-Fills field w bits room f in
    let (rest, room'') =
      write_fields-Fills fs (write_field field w) (bits ++ field_bits field) room' first in
    (
      subst (λ (t : List ℕ). Fills (write_fields fs (write_field field w)) t)
          (append_assoc bits (field_bits field) (all_bits fs)) rest,
      room'',
    )

finish-Fills :
    (w : BitWriter) (bits : List ℕ)
    → w.bits_used < 8
    → Fills w bits
    → (pad : ℕ) × (pad < 8) × (byte_bits (finish w) ≡ bits ++ to_bits pad 0)
unfolding finish
finish-Fills w bits room f = elim (Bool-cases (ltb 0 w.bits_used)) [
  | inl started ↦
      let pad = 8 - w.bits_used in
      let some_bits : 0 < w.bits_used = ground (arith, started) in
      let eight : w.bits_used + pad ≡ 8 = omega arith in
      let plus : w.cur_byte ≡ f.high * 2 ^ pad + 0 = f.cur ∙ omega arith in
      let byte : to_bits 8 w.cur_byte ≡ to_bits w.bits_used f.high ++ to_bits pad 0 =
        ap (to_bits 8) plus
        ∙ ap (λ (k : ℕ). to_bits k (f.high * 2 ^ pad + 0)) (sym eight)
        ∙ to_bits-add w.bits_used pad f.high 0 (two_pow_pos pad) in
      (
        pad,
        omega arith,
        rw started (
            byte_bits-append w.out (w.cur_byte ∷ [])
            ∙ ap (λ (t : List ℕ). byte_bits w.out ++ t) (append-nil (to_bits 8 w.cur_byte) ∙ byte)
            ∙ sym (append_assoc (byte_bits w.out) (to_bits w.bits_used f.high) (to_bits pad 0))
            ∙ ap (λ (t : List ℕ). t ++ to_bits pad 0) (sym f.written)),
      )
  | inr fresh ↦
      let none_used : w.bits_used ≡ 0 = ground (arith, fresh) in
      let nothing : to_bits w.bits_used f.high ≡ [] = ap (λ (k : ℕ). to_bits k f.high) none_used in
      (
        0,
        omega arith,
        rw fresh (
            sym (
              append-nil bits
              ∙ f.written
              ∙ ap (λ (t : List ℕ). byte_bits w.out ++ t) nothing
              ∙ append-nil (byte_bits w.out))),
      )
]

-- The bytes that are written are bytes.
finish-IsBytes :
    (w : BitWriter) (bits : List ℕ) → w.bits_used < 8 → Fills w bits → All IsByte (finish w)
unfolding finish
finish-IsBytes w bits room f = elim (Bool-cases (ltb 0 w.bits_used)) [
  | inr fresh ↦ rw fresh f.bytes
  | inl started ↦
      let pad = 8 - w.bits_used in
      let eight : 2 ^ (w.bits_used + pad) ≡ 2 ^ 8 =
        ap (λ (k : ℕ). 2 ^ k) (let e : w.bits_used + pad ≡ 8 = omega arith in e) in
      let cur = f.cur in
      let small = two_fields w.bits_used pad f.high 0 f.small (two_pow_pos pad) in
      rw started (All-append IsByte w.out (w.cur_byte ∷ []) f.bytes (omega arith, tt))
]

pub write_fields-IsBytes : (fs : List Field) → All IsByte (finish (write_fields fs new_writer))
unfolding new_writer
write_fields-IsBytes fs =
    let start : Fills new_writer [] = record {
      high = 0;
      cur = refl;
      small = omega arith;
      written = refl;
      bytes = tt;
    } in
    let (all, room) = write_fields-Fills fs new_writer [] (omega arith) start in
    finish-IsBytes (write_fields fs new_writer) (all_bits fs) room all

-- Whatever fields are written on a new writer, the binary digits of the bytes that `finish` gives
-- are those of the fields in order, and fewer than 8 zeros behind them. A field of bits gives the
-- `n` lowest binary digits of its value, the highest first; a unary code gives `n` zeros and a one.
pub finish-write_fields :
    (fs : List Field)
    → (pad : ℕ) × (pad < 8)
      × (byte_bits (finish (write_fields fs new_writer)) ≡ all_bits fs ++ to_bits pad 0)
unfolding new_writer
finish-write_fields fs =
    let start : Fills new_writer [] = record {
      high = 0;
      cur = refl;
      small = omega arith;
      written = refl;
      bytes = tt;
    } in
    let (all, room) = write_fields-Fills fs new_writer [] (omega arith) start in
    finish-Fills (write_fields fs new_writer) (all_bits fs) room all
