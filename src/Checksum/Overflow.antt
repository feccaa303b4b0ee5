-- ===== src/Checksum/Overflow.antt =====
-- checksum.rs, `compute_checksum_bytes`: what happens when a 32-bit accumulator wraps.
use rustfits.Prelude.{
  ℕ, ◌+◌, ◌*◌, ◌/◌, ◌%◌, ◌^◌, ◌≤◌, ◌<◌, ◌≡◌, ◌≢◌, ◌⊎◌, inl, inr, List, length, All, IsByte, IsU32,
  arith,
}
use rustfits.Checksum.{compute_checksum_bytes}
use rustfits.Checksum.Carry.{ones_sum}
use rustfits.Checksum.Sum.{hi_sum, lo_sum, word_sum, halves_bounds, compute_checksum_bytes_wraps}

-- The sums differ by `w * 2^16 + x` modulo 2^32 - 1, for `w` and `x` the counts of the wraps.
lost_carries :
    (hi lo : ℕ)
    → hi < 2 ^ 47
    → lo < 2 ^ 47
    → (2 ^ 32 ≤ hi) ⊎ (2 ^ 32 ≤ lo)
    → ones_sum (hi % 2 ^ 32 * 2 ^ 16 + lo % 2 ^ 32) ≢ ones_sum (hi * 2 ^ 16 + lo)
unfolding ones_sum
lost_carries hi lo p q (inl o) = λ e. ground arith
lost_carries hi lo p q (inr o) = λ e. ground arith

-- If the 32-bit sum of the upper halves or that of the lower halves wraps, in a call on at most 2^33
-- bytes, the result is not the 1's-complement sum of the seed and the words.
pub compute_checksum_bytes_overflow :
    (seed : ℕ) (bytes : List ℕ)
    → IsU32 seed
    → All IsByte bytes
    → length bytes ≤ 2 ^ 33
    → (2 ^ 32 ≤ seed / 2 ^ 16 + hi_sum bytes) ⊎ (2 ^ 32 ≤ seed % 2 ^ 16 + lo_sum bytes)
    → compute_checksum_bytes seed bytes ≢ ones_sum (seed + word_sum bytes)
compute_checksum_bytes_overflow seed bytes u p n o e =
    let bounds = halves_bounds bytes p in
    let hi = seed / 2 ^ 16 + hi_sum bytes in
    let lo = seed % 2 ^ 16 + lo_sum bytes in
    let total : seed + word_sum bytes ≡ hi * 2 ^ 16 + lo = omega arith in
    lost_carries hi lo (omega arith) (omega arith) o
      (rw (compute_checksum_bytes_wraps seed bytes u, total) at e)
