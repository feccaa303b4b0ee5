-- ===== src/Checksum.antt =====
-- checksum.rs: the 1's-complement sum of the FITS checksum convention, its streaming form, and the
-- 16 characters of the CHECKSUM card. A u8 slice is a list of numbers below 256.
pub mod Carry
pub mod Sum
pub mod Overflow
pub mod Stream
pub mod Section
pub mod Ascii
mod Tests
use rustfits.Prelude.{
  ℕ, zero, suc, ◌+◌, ◌-◌, ◌*◌, ◌/◌, ◌%◌, ◌^◌, bit_and, bit_or, Bool, true, false, ◌&&◌, ◌||◌, List,
  [], ◌∷◌, ◌++◌, length, take, drop, get_or, ◌==◌, ltb, if◌then◌else◌,
}

-- `u32::wrapping`: a release build adds modulo 2 ^ 32.
abbrev pub add_u32 : ℕ → ℕ → ℕ
add_u32 a b = (a + b) % 2 ^ 32

-- `u16::from_be_bytes([a, b]) as u32`
abbrev pub be_u16 : ℕ → ℕ → ℕ
be_u16 a b = a * 256 + b

-- The accumulators `hi` and `lo` of `compute_checksum_bytes`.
pub record Halves : Type 0 where
  pub hi : ℕ
  pub lo : ℕ

abbrev pub add_word : Halves → ℕ → ℕ → ℕ → ℕ → Halves
add_word h a b c d = record { hi = add_u32 h.hi (be_u16 a b); lo = add_u32 h.lo (be_u16 c d) }

-- The loop over `chunks_exact(4)`, and the tail padded with zeros on the right.
unfoldable pub sum_words : List ℕ → Halves → Halves
sum_words (a ∷ b ∷ c ∷ d ∷ rest) h = sum_words rest (add_word h a b c d)
sum_words (a ∷ b ∷ c ∷ []) h = add_word h a b c 0
sum_words (a ∷ b ∷ []) h = add_word h a b 0 0
sum_words (a ∷ []) h = add_word h a 0 0 0
sum_words [] h = h

-- The end-around carry loop. Six rounds are more than it ever takes (`fold_carry_ends`).
unfoldable pub fold_carry : ℕ → Halves → Halves
fold_carry zero h = h
fold_carry (suc fuel) h =
    let hicarry = h.hi / 2 ^ 16 in
    let locarry = h.lo / 2 ^ 16 in
    elim (hicarry == 0 && locarry == 0) [
      | true ↦ h
      | false ↦ fold_carry fuel (record {
        hi = add_u32 (bit_and h.hi 0xffff) locarry;
        lo = add_u32 (bit_and h.lo 0xffff) hicarry;
      })
    ]

abbrev pub carry_rounds : ℕ
carry_rounds = 6

-- `(hi << 16) | lo`
abbrev pub join_halves : Halves → ℕ
join_halves h = bit_or (h.hi * 2 ^ 16 % 2 ^ 32) h.lo

abbrev pub split_seed : ℕ → Halves
split_seed seed = record { hi = seed / 2 ^ 16; lo = bit_and seed 0xffff }

unfoldable pub compute_checksum_bytes : ℕ → List ℕ → ℕ
unfolding sum_words fold_carry
compute_checksum_bytes seed bytes =
    join_halves (fold_carry carry_rounds (sum_words bytes (split_seed seed)))

-- `u32::to_be_bytes`
abbrev pub to_be_bytes : ℕ → List ℕ
to_be_bytes b = b / 2 ^ 24 % 256 ∷ b / 2 ^ 16 % 256 ∷ b / 2 ^ 8 % 256 ∷ b % 256 ∷ []

unfoldable pub ones_complement_add : ℕ → ℕ → ℕ
unfolding compute_checksum_bytes
ones_complement_add a b = compute_checksum_bytes a (to_be_bytes b)

-- `carry` holds at most 3 bytes between two feeds.
pub record ChecksumStream : Type 0 where
  pub seed : ℕ
  pub carry : List ℕ

unfoldable pub new_stream : ℕ → ChecksumStream
new_stream seed = record { seed = seed; carry = [] }

-- The part of `feed` behind the stitched chunk: whole words at once, the rest into the carry.
unfoldable pub feed_whole : ℕ → List ℕ → ChecksumStream
unfolding compute_checksum_bytes
feed_whole seed rest =
    let n_full = length rest / 4 * 4 in
    record {
      seed = if ltb 0 n_full then compute_checksum_bytes seed (take n_full rest) else seed;
      carry = if ltb n_full (length rest) then drop n_full rest else [];
    }

unfoldable pub feed_carried : ℕ → List ℕ → List ℕ → ChecksumStream
unfolding feed_whole
feed_carried seed carry bytes =
    let need = 4 - length carry in
    if ltb (length bytes) need
    then record { seed = seed; carry = carry ++ bytes }
    else feed_whole (compute_checksum_bytes seed (carry ++ take need bytes)) (drop need bytes)

unfoldable pub feed : ChecksumStream → List ℕ → ChecksumStream
unfolding feed_carried
feed s bytes =
    if length bytes == 0
    then s
    else (if ltb 0 (length s.carry)
        then feed_carried s.seed s.carry bytes
        else feed_whole s.seed bytes)

unfoldable pub finish : ChecksumStream → ℕ
unfolding compute_checksum_bytes
finish s = if ltb 0 (length s.carry) then compute_checksum_bytes s.seed s.carry else s.seed
