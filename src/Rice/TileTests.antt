-- ===== src/Rice/TileTests.antt =====
-- zimage/rice.rs: a tile, its stream, and the round trip at concrete inputs.
use rustfits.Prelude.{
  ℕ, ◌+◌, ◌-◌, ◌/◌, ◌%◌, ◌^◌, ◌≤◌, ◌≡◌, refl, inl, ◌==◌, ltb, min, List, [], ◌∷◌, map, Outcome, ok,
  ◌>>=◌, arith,
}
use rustfits.Rice.{RiceError}
use rustfits.Rice.Diff.{diffs, pixel_diff, narrow, zigzag, values}
use rustfits.Rice.Tile.{Floating, sum_loop, fs_loop, rice_fs, rice_params, encode_pixels}
use rustfits.Rice.Untile.{decode_rice_int_u32buf}
use rustfits.Rice.Decoded.{IsSumming, AreShort}
use rustfits.Rice.RoundTrip.{decode_rice_int_u32buf-encode_pixels}

-- Whole numbers, with a difference that stops at 0.
abbrev counting : Floating
counting = record {
  F = ℕ;
  of_int = λ n. n;
  add = λ a b. a + b;
  sub = λ a b. a - b;
  div = λ a b. a / b;
  below = λ a b. ltb a b;
  equal = λ a b. a == b;
  cast = λ n a. min a (2 ^ n - 1);
}

counting-IsSumming : IsSumming counting
counting-IsSumming = record {
  IsAmount = λ a. 0 ≤ a;
  amount = λ n. omega arith;
  adds = λ a b h h'. omega arith;
  parts = λ a b h h' e. (ground arith, ground arith);
  only_zero = λ n e. ground arith;
}

abbrev tile : List ℕ
tile = 3 ∷ 0xffff_ffff ∷ 200 ∷ 200 ∷ 200 ∷ []

tile-AreShort : AreShort counting 1 2 5 3 tile
unfolding rice_fs fs_loop sum_loop diffs pixel_diff narrow zigzag
tile-AreShort =
    ((omega arith, (omega arith, tt)), ((omega arith, (omega arith, tt)), ((omega arith, tt), tt)))

decode_rice_int_u32buf-encode_pixels_example :
    (out : List ℕ) × ((rice_params 1 >>= λ p.
    decode_rice_int_u32buf p 2 5 (encode_pixels counting 1 p 2 tile))
      ≡ ok out)
    × (map (λ (v : ℕ). v % values 1) out ≡ map (λ (v : ℕ). v % values 1) tile)
decode_rice_int_u32buf-encode_pixels_example =
    decode_rice_int_u32buf-encode_pixels counting counting-IsSumming 1 (inl refl) 2 (omega arith) 3
      (0xffff_ffff ∷ 200 ∷ 200 ∷ 200 ∷ [])
      (omega arith, (omega arith, (omega arith, (omega arith, (omega arith, tt))))) tile-AreShort

abbrev decoded_tile : Outcome RiceError (List ℕ)
decoded_tile =
    rice_params 1 >>= λ p. decode_rice_int_u32buf p 2 5 (encode_pixels counting 1 p 2 tile)
