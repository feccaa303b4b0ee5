-- ===== src/Checksum/Sum.antt =====
-- checksum.rs, `compute_checksum_bytes` and `ones_complement_add`: what the carry loop computes.
use rustfits.Prelude.{
  take, ℕ, zero, suc, ◌+◌, ◌*◌, ◌/◌, ◌%◌, ◌^◌, ◌≤◌, ◌≡◌, refl, ap, ◌∙◌, List, [], ◌∷◌, ◌++◌, length,
  All, IsByte, IsU32, bit_and_mask, arith,
}
use rustfits.Checksum.{
  be_u16, Halves, add_word, sum_words, split_seed, compute_checksum_bytes, to_be_bytes,
  ones_complement_add,
}
use rustfits.Checksum.Carry.{ones_sum, fold_carry_rounds, join_folded, ones_sum-lt}

unfoldable pub hi_sum : List ℕ → ℕ
hi_sum (a ∷ b ∷ c ∷ d ∷ rest) = be_u16 a b + hi_sum rest
hi_sum (a ∷ b ∷ c ∷ []) = be_u16 a b
hi_sum (a ∷ b ∷ []) = be_u16 a b
hi_sum (a ∷ []) = be_u16 a 0
hi_sum [] = 0

unfoldable pub lo_sum : List ℕ → ℕ
lo_sum (a ∷ b ∷ c ∷ d ∷ rest) = be_u16 c d + lo_sum rest
lo_sum (a ∷ b ∷ c ∷ []) = be_u16 c 0
lo_sum (a ∷ b ∷ []) = 0
lo_sum (a ∷ []) = 0
lo_sum [] = 0

abbrev pub word_sum : List ℕ → ℕ
word_sum bytes = hi_sum bytes * 2 ^ 16 + lo_sum bytes

-- Whole words in front may be summed by themselves.
word_sum-append :
    (n : ℕ) (xs ys : List ℕ)
    → length xs ≡ 4 * n
    → (hi_sum (xs ++ ys) ≡ hi_sum xs + hi_sum ys) × (lo_sum (xs ++ ys) ≡ lo_sum xs + lo_sum ys)
unfolding hi_sum lo_sum
word_sum-append zero [] ys h = omega arith
word_sum-append (suc n) (a ∷ b ∷ c ∷ d ∷ xs) ys h =
    omega (arith, word_sum-append n xs ys (omega arith))
word_sum-append n xs ys h = absurd (omega arith)

pub word_sum-append_whole :
    (n : ℕ) (xs ys : List ℕ) → length xs ≡ 4 * n → word_sum (xs ++ ys) ≡ word_sum xs + word_sum ys
word_sum-append_whole n xs ys h = omega (arith, word_sum-append n xs ys h)

pub take-word_sum-zero : (n : ℕ) (xs : List ℕ) → n ≡ 0 → word_sum (take n xs) ≡ 0
unfolding hi_sum lo_sum
take-word_sum-zero zero xs h = refl
take-word_sum-zero (suc n) xs h = absurd (omega arith)

-- The accumulators after the loop and the tail.
sum_words_lem :
    (bytes : List ℕ) (h : Halves)
    → IsU32 h.hi
    → IsU32 h.lo
    → ((sum_words bytes h).hi ≡ (h.hi + hi_sum bytes) % 2 ^ 32)
      × ((sum_words bytes h).lo ≡ (h.lo + lo_sum bytes) % 2 ^ 32)
unfolding sum_words hi_sum lo_sum
sum_words_lem (a ∷ b ∷ c ∷ d ∷ rest) h p q =
    omega (arith, sum_words_lem rest (add_word h a b c d) (omega arith) (omega arith))
sum_words_lem (a ∷ b ∷ c ∷ []) h p q = omega arith
sum_words_lem (a ∷ b ∷ []) h p q = omega arith
sum_words_lem (a ∷ []) h p q = omega arith
sum_words_lem [] h p q = omega arith

-- On every input, the accumulators wrapping modulo 2^32.
pub compute_checksum_bytes_wraps :
    (seed : ℕ) (bytes : List ℕ)
    → IsU32 seed
    → compute_checksum_bytes seed bytes
      ≡ ones_sum (
          (seed / 2 ^ 16 + hi_sum bytes) % 2 ^ 32 * 2 ^ 16
          + (seed % 2 ^ 16 + lo_sum bytes) % 2 ^ 32)
unfolding compute_checksum_bytes
compute_checksum_bytes_wraps seed bytes u =
    let low = bit_and_mask 16 seed in
    let sums = sum_words_lem bytes (split_seed seed) (omega arith) (omega arith) in
    let h = sum_words bytes (split_seed seed) in
    join_folded (fold_carry_rounds h (omega arith) (omega arith)) ∙ ap ones_sum (omega arith)

-- A word adds at most 65535 to each accumulator.
pub halves_bounds :
    (bytes : List ℕ)
    → All IsByte bytes
    → (hi_sum bytes ≤ 65535 * ((length bytes + 3) / 4))
      × (lo_sum bytes ≤ 65535 * ((length bytes + 3) / 4))
unfolding hi_sum lo_sum
halves_bounds (a ∷ b ∷ c ∷ d ∷ rest) p = omega (arith, halves_bounds rest p.1.1.1.1)
halves_bounds (a ∷ b ∷ c ∷ []) p = omega arith
halves_bounds (a ∷ b ∷ []) p = omega arith
halves_bounds (a ∷ []) p = omega arith
halves_bounds [] p = omega arith

-- Up to 2^18 bytes per call, `compute_checksum_bytes` is the 1's-complement sum of the seed and the
-- big-endian words of the bytes, the last one padded with zeros on the right.
pub compute_checksum_bytes-ones_sum :
    (seed : ℕ) (bytes : List ℕ)
    → IsU32 seed
    → All IsByte bytes
    → length bytes ≤ 2 ^ 18
    → compute_checksum_bytes seed bytes ≡ ones_sum (seed + word_sum bytes)
compute_checksum_bytes-ones_sum seed bytes u p n =
    let bounds = halves_bounds bytes p in
    compute_checksum_bytes_wraps seed bytes u ∙ ap ones_sum (omega arith)

pub compute_checksum_bytes-IsU32 :
    (seed : ℕ) (bytes : List ℕ) → IsU32 seed → IsU32 (compute_checksum_bytes seed bytes)
compute_checksum_bytes-IsU32 seed bytes u =
    rw (compute_checksum_bytes_wraps seed bytes u) (ones_sum-lt _)

-- `ones_complement_add` is addition with the end-around carry.
pub ones_complement_add-ones_sum :
    (a b : ℕ) → IsU32 a → IsU32 b → ones_complement_add a b ≡ ones_sum (a + b)
unfolding ones_complement_add hi_sum lo_sum
ones_complement_add-ones_sum a b p q =
    compute_checksum_bytes-ones_sum a (to_be_bytes b) p (omega arith) (omega arith)
    ∙ ap ones_sum (omega arith)
