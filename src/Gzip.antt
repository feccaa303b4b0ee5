-- ===== src/Gzip.antt =====
-- zimage/gzip.rs: GZIP_1 and GZIP_2 tiles, and the byte swap of common.rs.
pub mod Buffer
pub mod Scatter
pub mod Shuffle
pub mod Swap
pub mod Codec
mod Tests
use rustfits.Prelude.{
  ℕ, zero, suc, ◌+◌, ◌-◌, ◌*◌, ◌/◌, ◌%◌, ◌^◌, Bool, true, false, not, ◌&&◌, ◌||◌, ◌==◌, ltb, leb,
  if◌then◌else◌, Option, none, some, List, [], ◌∷◌, ◌++◌, length, get_or, take, drop, Outcome, ok,
  err, ◌>>=◌, ◌>>◌, fail_if, ◌≡◌,
}
use mathlib.Core.List.{reverse}
use Buffer.{set, for_range}

-- The messages of the module, and the panic of a slice index.
pub data GzipError : Type 0 where
  unsupported_bytepix size_overflow gzip_failed wrong_length not_a_multiple out_of_bounds :
      GzipError

-- What the module asks of the crate flate2: `GzDecoder::read_to_end`, and a `GzEncoder` that is
-- given all the bytes and finished.
pub record Flate2 : Type 0 where
  pub default_level : ℕ
  pub read_to_end : List ℕ → Option (List ℕ)
  pub write_and_finish : ℕ → List ℕ → Option (List ℕ)

-- A stream that was written is read back.
pub record IsLossless (z : Flate2) : Type 0 where
  pub written :
      (level : ℕ) (bytes : List ℕ)
      → (packed : List ℕ) × (z.write_and_finish level bytes ≡ some packed)
        × (z.read_to_end packed ≡ some bytes)

abbrev is_bytepix : ℕ → Bool
is_bytepix b = (b == 1) || (b == 2) || (b == 4) || (b == 8)

abbrev or_fail : Option (List ℕ) → Outcome GzipError (List ℕ)
or_fail none = err gzip_failed
or_fail (some bytes) = ok bytes

abbrev level_or : ℕ → Option ℕ → ℕ
level_or default none = default
level_or default (some level) = level

-- The loops over the bytes j of a pixel and the pixels i. `uninit` is what the allocation holds,
-- and `set_len` cuts it to the bytes written.
unfoldable pub unshuffle : List ℕ → ℕ → ℕ → List ℕ → Outcome GzipError (List ℕ)
unshuffle shuffled n_pixels bytepix uninit =
    fail_if (ltb (length shuffled) (bytepix * n_pixels)) out_of_bounds
    >> ok (
        take (n_pixels * bytepix) (
          for_range bytepix
            (λ (j : ℕ) (out : List ℕ).
              for_range n_pixels
                (λ (i : ℕ) (out : List ℕ).
                  set out (i * bytepix + j) (get_or shuffled (j * n_pixels + i) 0))
                out)
            uninit))

unfoldable pub shuffle : List ℕ → ℕ → ℕ → List ℕ → Outcome GzipError (List ℕ)
shuffle pixels n_pixels bytepix uninit =
    fail_if (ltb (length pixels) (n_pixels * bytepix)) out_of_bounds
    >> ok (
        take (n_pixels * bytepix) (
          for_range bytepix
            (λ (j : ℕ) (out : List ℕ).
              for_range n_pixels
                (λ (i : ℕ) (out : List ℕ).
                  set out (j * n_pixels + i) (get_or pixels (i * bytepix + j) 0))
                out)
            uninit))

-- `chunks_exact_mut(size)`, each chunk reversed. A chunk of no bytes would not end the loop; the
-- length is fuel enough for the others.
abbrev pub reverse_chunks_fuel : ℕ → ℕ → List ℕ → List ℕ
reverse_chunks_fuel zero size buf = buf
reverse_chunks_fuel (suc fuel) size buf =
    let rest = reverse_chunks_fuel fuel size (drop size buf) in
    if ltb (length buf) size then buf else reverse (take size buf) ++ rest

unfoldable pub reverse_chunks : ℕ → List ℕ → List ℕ
reverse_chunks size buf = reverse_chunks_fuel (length buf) size buf

-- `align_to_mut` splits off the `head` bytes before the first aligned address. `swap_bytes` of a
-- word reverses its bytes, and the head and the tail are reversed by chunks as well.
abbrev swap_chunks : ℕ → ℕ → List ℕ → List ℕ
swap_chunks head size buf =
    reverse_chunks size (take head buf) ++ reverse_chunks size (drop head buf)

unfoldable pub byteswap_in_place : ℕ → List ℕ → ℕ → List ℕ
byteswap_in_place head buf itemsize =
    if (itemsize == 0) || (itemsize == 1)
    then buf
    else if (itemsize == 2) || (itemsize == 4) || (itemsize == 8)
    then swap_chunks head itemsize buf
    else if itemsize == 16
    then swap_chunks head 8 buf
    else reverse_chunks itemsize buf

-- `big_endian` is the target's byte order, and `head` what `align_to_mut` splits off.
abbrev to_native : Bool → ℕ → List ℕ → ℕ → List ℕ
to_native big_endian head out bytepix =
    if ltb 1 bytepix && not big_endian then byteswap_in_place head out bytepix else out

-- `checked_mul` on usize.
abbrev checked_len : ℕ → ℕ → Outcome GzipError ℕ
checked_len n_pixels bytepix =
    fail_if (leb (2 ^ 64) (n_pixels * bytepix)) size_overflow >> ok (n_pixels * bytepix)

module _ (z : Flate2) where
  unfoldable pub gzip_decompress : List ℕ → ℕ → Outcome GzipError (List ℕ)
  gzip_decompress compressed expected_len = or_fail (z.read_to_end compressed) >>= λ out.
      fail_if (not (length out == expected_len)) wrong_length >> ok out

  unfoldable pub gzip_compress : List ℕ → Option ℕ → Outcome GzipError (List ℕ)
  gzip_compress bytes level = or_fail (z.write_and_finish (level_or z.default_level level) bytes)

  -- `big_endian` is the target's byte order, and `head` what `align_to_mut` splits off.
  module _ (big_endian : Bool) (head : ℕ) where
    unfoldable pub decode_gzip1 : List ℕ → ℕ → ℕ → Outcome GzipError (List ℕ)
    decode_gzip1 compressed n_pixels bytepix =
        fail_if (not (is_bytepix bytepix)) unsupported_bytepix
        >> (checked_len n_pixels bytepix >>= λ expected_len.
            gzip_decompress compressed expected_len >>= λ out.
            ok (to_native big_endian head out bytepix))

    unfoldable pub decode_gzip2 : List ℕ → ℕ → ℕ → List ℕ → Outcome GzipError (List ℕ)
    decode_gzip2 compressed n_pixels bytepix uninit =
        fail_if (not (is_bytepix bytepix)) unsupported_bytepix
        >> (checked_len n_pixels bytepix >>= λ expected_len.
            gzip_decompress compressed expected_len >>= λ shuffled.
            (if bytepix == 1 then ok shuffled else unshuffle shuffled n_pixels bytepix uninit)
            >>= λ out. ok (to_native big_endian head out bytepix))

  unfoldable pub encode_gzip1 : List ℕ → Option ℕ → Outcome GzipError (List ℕ)
  encode_gzip1 pixel_bytes_be level = gzip_compress pixel_bytes_be level

  unfoldable pub encode_gzip2 : List ℕ → ℕ → Option ℕ → List ℕ → Outcome GzipError (List ℕ)
  encode_gzip2 pixel_bytes_be bytepix level uninit =
      let n_pixels = length pixel_bytes_be / bytepix in
      fail_if (not (is_bytepix bytepix)) unsupported_bytepix
      >> fail_if (not (length pixel_bytes_be % bytepix == 0)) not_a_multiple
      >> (if bytepix == 1
          then gzip_compress pixel_bytes_be level
          else shuffle pixel_bytes_be n_pixels bytepix uninit >>= λ shuffled.
              gzip_compress shuffled level)
