-- ===== src/Rice/Seed.antt =====
-- zimage/rice.rs: the first pixel, which both directions store as it is.
use rustfits.Prelude.{
  ℕ, zero, suc, ◌+◌, ◌*◌, ◌/◌, ◌%◌, ◌^◌, ◌<◌, ◌≤◌, ◌≡◌, sym, ap, ◌∙◌, inl, inr, add-mul,
  length-append, bit_or, bit_or_fields, two_pow_pos, List, [], ◌∷◌, ◌++◌, append_assoc, All, IsByte,
  IsU32, length, arith,
}
use native.Mathlib.Nat.{mod-eq_of_lt, div-add-mod', mod-lt, lt_of_mul-lt-mul_right, mul-le-mul_left}
use rustfits.Rice.Digits.{to_bits, byte_bits, to_bits-add, two_pow_add}
use rustfits.Rice.Taken.{append_injective, length-to_bits, to_bits-injective}
use rustfits.Rice.Diff.{IsRice, values}
use rustfits.Rice.Untile.{seed_loop, sign_extend_u32}

pub record IsSeed (v : ℕ) (more : List ℕ) (r : ℕ × List ℕ) : Type 0 where
  pub seed : r.0 ≡ v
  pub rest : byte_bits r.1 ≡ more
  pub bytes : All IsByte r.1

pub seed_loop-IsSeed :
    (n acc v : ℕ) (bytes more : List ℕ)
    → acc * 2 ^ (8 * n) + v < 2 ^ 32
    → v < 2 ^ (8 * n)
    → All IsByte bytes
    → byte_bits bytes ≡ to_bits (8 * n) v ++ more
    → IsSeed (acc * 2 ^ (8 * n) + v) more (seed_loop n acc bytes)
unfolding seed_loop
seed_loop-IsSeed zero acc v bytes more small low b e = record {
  seed = omega arith;
  rest = e;
  bytes = b;
}
seed_loop-IsSeed (suc n) acc v [] more small low b e = absurd (
    omega (
      arith,
      ap length e,
      length-append (to_bits (8 * suc n) v) more,
      length-to_bits (8 * suc n) v,
    ))
seed_loop-IsSeed (suc n) acc v (a ∷ bytes) more small low (byte, b) e =
    let m = 8 * n in
    let high = v / 2 ^ m in
    let below = v % 2 ^ m in
    let parts : high * 2 ^ m + below ≡ v = div-add-mod' v (2 ^ m) in
    let r_small : below < 2 ^ m = mod-lt v (two_pow_pos m) in
    let eight : 8 * suc n ≡ 8 + m = omega arith in
    let bits : to_bits (8 * suc n) v ≡ to_bits 8 high ++ to_bits m below =
      ap (λ (k : ℕ). to_bits k v) eight
      ∙ ap (to_bits (8 + m)) (sym parts)
      ∙ to_bits-add 8 m high below r_small in
    let whole : 2 ^ (8 * suc n) ≡ 256 * 2 ^ m = ap (λ (k : ℕ). 2 ^ k) eight ∙ two_pow_add 8 m in
    let high_byte : high < 256 =
      lt_of_mul-lt-mul_right (2 ^ m) {m = high} {n = 256} (omega arith) in
    let stream : to_bits 8 a ++ byte_bits bytes ≡ to_bits 8 high ++ (to_bits m below ++ more) =
      e
      ∙ ap (λ (l : List ℕ). l ++ more) bits
      ∙ append_assoc (to_bits 8 high) (to_bits m below) more in
    let (first, later) =
      append_injective (to_bits 8 a) (to_bits 8 high) (byte_bits bytes) (to_bits m below ++ more)
        (length-to_bits 8 a ∙ sym (length-to_bits 8 high)) stream in
    let same : a ≡ high = to_bits-injective 8 a high byte high_byte first in
    let total : (acc * 256 + a) * 2 ^ m + below ≡ acc * 2 ^ (8 * suc n) + v =
      rw (whole, add-mul (acc * 256) a (2 ^ m), same) (omega arith) in
    let pos = two_pow_pos m in
    let more_pos : (acc * 256 + a) * 1 ≤ (acc * 256 + a) * 2 ^ m =
      mul-le-mul_left {m = 1} {n = 2 ^ m} (acc * 256 + a) pos in
    let word : acc * 256 % 2 ^ 32 ≡ acc * 256 = mod-eq_of_lt (omega arith) in
    let next : bit_or (acc * 256 % 2 ^ 32) a ≡ acc * 256 + a =
      rw word (bit_or_fields 8 acc a byte) in
    let got = seed_loop-IsSeed n (acc * 256 + a) below bytes more (omega arith) r_small b later in
    rw next (record { seed = got.seed ∙ total; rest = got.rest; bytes = got.bytes })

-- The seed that is written is that of the decoder, up to the size of a pixel.
pub sign_extend_u32_lem :
    (bytepix bbits v : ℕ)
    → IsRice bytepix
    → bbits ≡ 8 * bytepix
    → IsU32 v
    → IsU32 (sign_extend_u32 bbits (v % 2 ^ bbits))
      × (sign_extend_u32 bbits (v % 2 ^ bbits) % values bytepix ≡ v % values bytepix)
unfolding sign_extend_u32
sign_extend_u32_lem bytepix bbits v (inl e) bits small =
    let b : bbits ≡ 8 = omega arith in rw (e, b) (ground arith, ground arith)
sign_extend_u32_lem bytepix bbits v (inr (inl e)) bits small =
    let b : bbits ≡ 16 = omega arith in rw (e, b) (ground arith, ground arith)
sign_extend_u32_lem bytepix bbits v (inr (inr e)) bits small =
    let b : bbits ≡ 32 = omega arith in rw (e, b) (ground arith, ground arith)
