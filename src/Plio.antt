-- ===== src/Plio.antt =====
-- zimage/plio.rs: the PLIO_1 codec. A 16-bit word and an i32 pixel are their bit patterns, below 2^16
-- and 2^32; a pixel is negative if its pattern is at least 2^31.
pub mod Encode
pub mod Decode
pub mod Output
pub mod Step
pub mod Runs
pub mod Emit
pub mod Lossless
pub mod Turns
pub mod RoundTrip
pub mod Size
pub mod Stream
pub mod Lost
mod Tests
use rustfits.Prelude.{
  ℕ, ◌+◌, ◌-◌, ◌*◌, ◌/◌, ◌%◌, ◌^◌, Bool, true, false, List, [], ◌∷◌, ◌++◌, ◌==◌, ltb, leb,
  if◌then◌else◌, not, ◌&&◌, ◌||◌,
}

-- The errors of both directions, one for each message.
pub data PlioError : Type 0 where
  unsupported_zbitpix unsupported_bytepix : PlioError
  odd_payload header_truncated : PlioError
  negative_length negative_offset : PlioError
  length_past_end offset_past_end : PlioError
  run_overflow set_high_at_end pixel_overflow unknown_opcode : PlioError
  cast_mismatch : PlioError
  negative_pixel pixel_too_large : PlioError
  size_overflow wrong_length : PlioError

abbrev pub is_zbitpix : ℕ → Bool
is_zbitpix z = z == 8 || (z == 16 || z == 32)

abbrev pub is_bytepix : ℕ → Bool
is_bytepix b = b == 1 || (b == 2 || b == 4)

-- `v < 0` of an i32.
abbrev pub is_negative : ℕ → Bool
is_negative v = leb (2 ^ 31) v

-- `w as i32` of an i16.
abbrev pub extend_i16 : ℕ → ℕ
extend_i16 w = if ltb w (2 ^ 15) then w else w + 2 ^ 32 - 2 ^ 16

-- `as i16`
abbrev pub as_i16 : ℕ → ℕ
as_i16 w = w % 2 ^ 16
