-- ===== src/Rice/Written.antt =====
-- zimage/rice.rs: the bits that the writer has written.
use rustfits.Prelude.{
  All, All-append, IsByte, ℕ, zero, suc, ◌+◌, ◌-◌, ◌*◌, ◌/◌, ◌%◌, ◌^◌, ◌≤◌, ◌<◌, ◌≡◌, refl, sym, ap,
  ◌∙◌, true, false, ◌==◌, ltb, if◌then◌else◌, min, bit_and, bit_or, bit_and_mask, bit_or_fields,
  two_pow_pos, List, [], ◌∷◌, ◌++◌, append-nil, append_assoc, arith, Bool-cases, inl, inr,
}
use mathlib.Core.Path.{subst}
use native.Mathlib.Nat.{
  mod-lt, mod-eq_of_lt, div-add-mod', div-lt_iff_lt-mul, pow-le-pow_right, mul-lt-mul_of_pos_right,
  mul-le-mul_right,
}
use rustfits.Rice.{BitWriter, flush_full, write_top, keep_low, write_loop, write_bits}
use rustfits.Rice.Digits.{two_pow_add, to_bits, byte_bits, to_bits-add, byte_bits-append}

-- The full bytes and the digits in the current byte.
pub record Fills (w : BitWriter) (bits : List ℕ) : Type 0 where
  pub high : ℕ
  pub cur : w.cur_byte ≡ high * 2 ^ (8 - w.bits_used)
  pub small : high < 2 ^ w.bits_used
  pub written : bits ≡ byte_bits w.out ++ to_bits w.bits_used high
  pub bytes : All IsByte w.out

one : (n : ℕ) → n * 2 ^ (8 - 8) ≡ n
one n = omega arith

IsByte-of_eight : (used high byte : ℕ) → used ≡ 8 → high ≡ byte → high < 2 ^ used → IsByte byte
IsByte-of_eight used high byte eight same small =
    let word : 2 ^ used ≡ 2 ^ 8 = ap (λ (k : ℕ). 2 ^ k) eight in omega arith

pub flush_full-Fills :
    (w : BitWriter) (bits : List ℕ)
    → w.bits_used ≤ 8
    → Fills w bits
    → Fills (flush_full w) bits × ((flush_full w).bits_used < 8)
unfolding flush_full
flush_full-Fills w bits le f = elim (Bool-cases (w.bits_used == 8)) [
  | inl full ↦
      let eight : w.bits_used ≡ 8 = ground (arith, full) in
      let byte : f.high ≡ w.cur_byte =
        sym (f.cur ∙ ap (λ (k : ℕ). f.high * 2 ^ (8 - k)) eight ∙ one f.high) in
      rw full (
        (
          record {
            high = 0;
            cur = refl;
            small = omega arith;
            written =
                f.written
                ∙ ap (λ (k : ℕ). byte_bits w.out ++ to_bits k f.high) eight
                ∙ ap (λ (b : ℕ). byte_bits w.out ++ to_bits 8 b) byte
                ∙ sym (
                    append-nil (byte_bits (w.out ++ w.cur_byte ∷ []))
                    ∙ byte_bits-append w.out (w.cur_byte ∷ [])
                    ∙ ap (λ (t : List ℕ). byte_bits w.out ++ t)
                        (append-nil (to_bits 8 w.cur_byte)));
            bytes =
                All-append IsByte w.out (w.cur_byte ∷ []) f.bytes
                  (IsByte-of_eight w.bits_used f.high w.cur_byte eight byte f.small, tt);
          },
          omega arith,
        ))
  | inr open_byte ↦ rw open_byte (f, ground arith)
]

-- The bits of a turn, as numbers.
top_bits_lem :
    (value taken shift avail cur high : ℕ)
    → 0 < taken
    → taken ≤ avail
    → avail ≤ 8
    → value < 2 ^ (taken + shift)
    → cur ≡ high * 2 ^ avail
    → bit_or cur (
        bit_and (value / 2 ^ shift % 256) (if taken == 8 then 0xff else 2 ^ taken - 1)
        * 2 ^ (avail - taken)
        % 256)
      ≡ (high * 2 ^ taken + value / 2 ^ shift) * 2 ^ (avail - taken)
top_bits_lem value taken shift avail cur high pos le eight small is_cur =
    let k = avail - taken in
    let sum : taken + k ≡ avail = omega arith in
    let split : 2 ^ avail ≡ 2 ^ taken * 2 ^ k =
      ap (λ (n : ℕ). 2 ^ n) (sym sum) ∙ two_pow_add taken k in
    let top = value / 2 ^ shift in
    let top_small : top < 2 ^ taken =
      (div-lt_iff_lt-mul (two_pow_pos shift)).1 (rw⁻¹ (two_pow_add taken shift) small) in
    let byte : 2 ^ avail ≤ 256 = pow-le-pow_right {n = 2} (omega arith) eight in
    let mask : (if taken == 8 then 255 else 2 ^ taken - 1) ≡ 2 ^ taken - 1 =
      elim (Bool-cases (taken == 8)) [
        | inl e ↦ let t : taken ≡ 8 = ground (arith, e) in rw t refl
        | inr e ↦ rw e refl
      ] in
    let taken_byte : 2 ^ taken ≤ 256 =
      pow-le-pow_right {n = 2} (omega arith) {i = taken} {j = 8} (omega arith) in
    let low : top % 256 ≡ top = mod-eq_of_lt (omega arith) in
    let masked : bit_and top (2 ^ taken - 1) ≡ top =
      bit_and_mask taken top ∙ mod-eq_of_lt top_small in
    let field : top * 2 ^ k < 2 ^ avail =
      rw split (mul-lt-mul_of_pos_right top_small (two_pow_pos k)) in
    let in_byte : top * 2 ^ k % 256 ≡ top * 2 ^ k = mod-eq_of_lt (omega arith) in
    rw (low, mask, masked, in_byte, is_cur)
      (bit_or_fields avail high (top * 2 ^ k) field ∙ rw split (omega arith))

pub two_fields : (a b q r : ℕ) → q < 2 ^ a → r < 2 ^ b → q * 2 ^ b + r < 2 ^ (a + b)
two_fields a b q r h h' =
    let rows : suc q * 2 ^ b ≤ 2 ^ a * 2 ^ b = mul-le-mul_right (2 ^ b) h in
    rw (two_pow_add a b) (omega arith)

-- A turn writes the top bits that it takes.
write_top-Fills :
    (value remaining : ℕ) (w : BitWriter) (bits : List ℕ)
    → 0 < remaining
    → value < 2 ^ remaining
    → w.bits_used < 8
    → Fills w bits
    → Fills (write_top value remaining w) (
        bits
        ++ to_bits
            (min remaining (8 - w.bits_used))
            (value / 2 ^ (remaining - min remaining (8 - w.bits_used))))
      × ((write_top value remaining w).bits_used < 8)
unfolding write_top
write_top-Fills value remaining w bits pos small room f =
    let avail = 8 - w.bits_used in
    let taken = min remaining avail in
    let shift = remaining - taken in
    let parts : taken + shift ≡ remaining = omega arith in
    let top = value / 2 ^ shift in
    let top_small : top < 2 ^ taken =
      (div-lt_iff_lt-mul (two_pow_pos shift)).1 (rw⁻¹ (two_pow_add taken shift) (rw parts small)) in
    let byte =
      top_bits_lem value taken shift avail w.cur_byte f.high (omega arith) (omega arith)
        (omega arith) (rw parts small) f.cur in
    let left : 8 - (w.bits_used + taken) ≡ avail - taken = omega arith in
    flush_full-Fills _ _ (omega arith) (record {
      high = f.high * 2 ^ taken + top;
      cur = byte ∙ ap (λ (k : ℕ). (f.high * 2 ^ taken + top) * 2 ^ k) (sym left);
      small = two_fields w.bits_used taken f.high top f.small top_small;
      written =
          ap (λ (t : List ℕ). t ++ to_bits taken top) f.written
          ∙ append_assoc (byte_bits w.out) (to_bits w.bits_used f.high) (to_bits taken top)
          ∙ ap (λ (t : List ℕ). byte_bits w.out ++ t)
              (sym (to_bits-add w.bits_used taken f.high top top_small));
      bytes = f.bytes;
    })

keep_low_lem : (value shift : ℕ) → 0 < shift → keep_low value shift ≡ value % 2 ^ shift
unfolding keep_low
keep_low_lem value shift pos =
    let t : ltb 0 shift ≡ true = ground arith in rw t (bit_and_mask shift value)

keep_low-bits :
    (value shift : ℕ) → to_bits shift (keep_low value shift) ≡ to_bits shift (value % 2 ^ shift)
keep_low-bits value zero = refl
keep_low-bits value (suc k) = ap (to_bits (suc k)) (keep_low_lem value (suc k) (omega arith))

keep_low_small : (value shift : ℕ) → 0 < shift → keep_low value shift < 2 ^ shift
keep_low_small value shift pos =
    rw (keep_low_lem value shift pos) (mod-lt value (two_pow_pos shift))

-- The digits of a value are the top ones and those that are kept.
digits_split :
    (taken shift n value : ℕ)
    → taken + shift ≡ n
    → to_bits taken (value / 2 ^ shift) ++ to_bits shift (keep_low value shift) ≡ to_bits n value
digits_split taken shift n value parts =
    ap (λ (t : List ℕ). to_bits taken (value / 2 ^ shift) ++ t) (keep_low-bits value shift)
    ∙ sym (
        to_bits-add taken shift (value / 2 ^ shift) (value % 2 ^ shift)
          (mod-lt value (two_pow_pos shift)))
    ∙ ap (λ (k : ℕ). to_bits k (value / 2 ^ shift * 2 ^ shift + value % 2 ^ shift)) parts
    ∙ ap (to_bits n) (div-add-mod' value (2 ^ shift))

write_loop-Fills :
    (fuel value remaining : ℕ) (w : BitWriter) (bits : List ℕ)
    → remaining ≤ fuel
    → (0 < remaining → value < 2 ^ remaining)
    → w.bits_used < 8
    → Fills w bits
    → Fills (write_loop fuel value remaining w) (bits ++ to_bits remaining value)
      × ((write_loop fuel value remaining w).bits_used < 8)
unfolding write_loop
write_loop-Fills zero value zero w bits enough small room f = (rw (append-nil bits) f, room)
write_loop-Fills zero value (suc n) w bits enough small room f = absurd (omega arith)
write_loop-Fills (suc fuel) value zero w bits enough small room f = (rw (append-nil bits) f, room)
write_loop-Fills (suc fuel) value (suc n) w bits enough small room f =
    let taken = min (suc n) (8 - w.bits_used) in
    let shift = suc n - taken in
    let go_on : ltb 0 (suc n) ≡ true = ground arith in
    let (turn, open_byte) =
      write_top-Fills value (suc n) w bits (omega arith) (small (omega arith)) room f in
    let (rest, room') =
      write_loop-Fills fuel (keep_low value shift) shift (write_top value (suc n) w)
        (bits ++ to_bits taken (value / 2 ^ shift)) (omega arith) (keep_low_small value shift)
        open_byte turn in
    let all : (bits ++ to_bits taken (value / 2 ^ shift)) ++ to_bits shift (keep_low value shift)
        ≡ bits ++ to_bits (suc n) value =
      append_assoc bits _ _
      ∙ ap (λ (t : List ℕ). bits ++ t) (digits_split taken shift (suc n) value (omega arith)) in
    rw go_on (
      subst
          (λ (t : List ℕ).
            Fills (write_loop fuel (keep_low value shift) shift (write_top value (suc n) w)) t)
          all rest,
      room',
    )

-- `write_bits` of at most 64 bits appends the `n` lowest binary digits of the value, the highest
-- first, to the bits that a writer with an open byte has written, and leaves its byte open.
pub write_bits-Fills :
    (value n : ℕ) (w : BitWriter) (bits : List ℕ)
    → w.bits_used < 8
    → Fills w bits
    → Fills (write_bits value n w) (bits ++ to_bits n (value % 2 ^ n))
      × ((write_bits value n w).bits_used < 8)
unfolding write_bits
write_bits-Fills value zero w bits room f = (rw (append-nil bits) f, room)
write_bits-Fills value (suc k) w bits room f =
    let some_bits : (suc k == 0) ≡ false = ground arith in
    let mask : (if suc k == 64 then 2 ^ 64 - 1 else 2 ^ suc k - 1) ≡ 2 ^ suc k - 1 =
      elim (Bool-cases (suc k == 64)) [
        | inl e ↦ let t : suc k ≡ 64 = ground (arith, e) in rw t refl
        | inr e ↦ rw e refl
      ] in
    rw (some_bits, mask, bit_and_mask (suc k) value)
      (write_loop-Fills (suc k) (value % 2 ^ suc k) (suc k) w bits (omega arith)
        (λ pos. mod-lt value (two_pow_pos (suc k))) room f)
