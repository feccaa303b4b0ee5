-- ===== src/Rice/RoundTrip.antt =====
-- zimage/rice.rs: decode_rice_int_u32buf behind encode_rice.
use rustfits.Prelude.{
  ℕ, ◌+◌, ◌*◌, ◌/◌, ◌%◌, ◌^◌, ◌<◌, ◌≤◌, ◌≡◌, refl, sym, ap, ◌∙◌, inl, inr, Bool, true, false, ◌==◌,
  ◌&&◌, ltb, leb, if◌then◌else◌, List, [], ◌∷◌, ◌++◌, map, append_assoc, length-append, All, IsByte,
  IsU32, length, take, drop, ok, ◌>>=◌, two_pow_pos, arith,
}
use native.Mathlib.Nat.{mod-lt, pow-le-pow_right}
use mathlib.Core.Path.{subst}
use rustfits.Rice.{new_writer, write_bits, finish}
use rustfits.Rice.Diff.{IsRice, values, diffs}
use rustfits.Rice.Digits.{to_bits, byte_bits}
use rustfits.Rice.Writer.{Field, bits_of, write_field, write_fields}
use rustfits.Rice.Stream.{all_bits, finish-write_fields, write_fields-IsBytes}
use rustfits.Rice.Taken.{length-to_bits, length-byte_bits}
use rustfits.Rice.Filled.{Holds, refill-Holds}
use rustfits.Rice.Fields.{start_buffer}
use rustfits.Rice.Tile.{RiceParams, params, rice_params, Floating, rice_fs, last_of, encode_pixels}
use rustfits.Rice.Encoded.{
  raw_fields, codes_fields, block_fields, is_flat, tile_fields, encode_blocks-fields,
}
use rustfits.Rice.Untile.{seed_loop, sign_extend_u32, decode_blocks, decode_rice_int_u32buf}
use rustfits.Rice.Blocks.{all_bits-append}
use rustfits.Rice.Choice.{Fits}
use rustfits.Rice.Seed.{seed_loop-IsSeed, sign_extend_u32_lem}
use rustfits.Rice.Decoded.{IsSumming, AreShort, decode_blocks-tile}

-- The parameters that rice_params gives for a size.
record IsSized (bytepix : ℕ) (p : RiceParams) : Type 0 where
  fits : Fits p
  size : values bytepix ≡ 2 ^ p.bbits
  word : values bytepix ≤ 2 ^ 32
  bits : p.bbits ≡ 8 * bytepix
  short : p.bbits ≤ 32

IsSized-1 : IsSized 1 (params 8 3 6)
IsSized-1 = record {
  fits = record {
    narrow = omega arith;
    few = omega arith;
    some = omega arith;
    marks = omega arith;
    low = omega arith;
  };
  size = refl;
  word = omega arith;
  bits = refl;
  short = omega arith;
}

IsSized-2 : IsSized 2 (params 16 4 14)
IsSized-2 = record {
  fits = record {
    narrow = omega arith;
    few = omega arith;
    some = omega arith;
    marks = omega arith;
    low = omega arith;
  };
  size = refl;
  word = omega arith;
  bits = refl;
  short = omega arith;
}

IsSized-4 : IsSized 4 (params 32 5 25)
IsSized-4 = record {
  fits = record {
    narrow = omega arith;
    few = omega arith;
    some = omega arith;
    marks = omega arith;
    low = omega arith;
  };
  size = refl;
  word = omega arith;
  bits = refl;
  short = omega arith;
}

rice_params-IsSized :
    (bytepix : ℕ)
    → IsRice bytepix
    → (p : RiceParams) × (rice_params bytepix ≡ ok p) × IsSized bytepix p
unfolding rice_params
rice_params-IsSized bytepix (inl e) = (params 8 3 6, rw e refl, rw e IsSized-1)
rice_params-IsSized bytepix (inr (inl e)) = (params 16 4 14, rw e refl, rw e IsSized-2)
rice_params-IsSized bytepix (inr (inr e)) = (params 32 5 25, rw e refl, rw e IsSized-4)

encode_pixels-fields :
    (f : Floating) (bytepix : ℕ) (p : RiceParams) (blocksize seed : ℕ) (pixels : List ℕ)
    → encode_pixels f bytepix p blocksize (seed ∷ pixels)
      ≡ finish (
          write_fields
            (bits_of seed p.bbits
              ∷ tile_fields f bytepix p blocksize (length (seed ∷ pixels)) seed (seed ∷ pixels))
            new_writer)
unfolding encode_pixels write_fields write_field
encode_pixels-fields f bytepix p blocksize seed pixels = ap finish (
    encode_blocks-fields f bytepix p blocksize (length (seed ∷ pixels)) seed (seed ∷ pixels)
      (write_bits seed p.bbits new_writer))

-- A block begins with its parameter.
chosen-begins :
    (raw low : Bool) (a b c n : ℕ) (xs zs : List Field)
    → n
      ≤ length (
          all_bits
            (if raw then bits_of a n ∷ xs else if low then bits_of b n ∷ [] else bits_of c n ∷ zs))
chosen-begins true low a b c n xs zs =
    omega (arith, length-append (to_bits n (a % 2 ^ n)) (all_bits xs), length-to_bits n (a % 2 ^ n))
chosen-begins false true a b c n xs zs =
    omega (arith, length-append (to_bits n (b % 2 ^ n)) [], length-to_bits n (b % 2 ^ n))
chosen-begins false false a b c n xs zs =
    omega (arith, length-append (to_bits n (c % 2 ^ n)) (all_bits zs), length-to_bits n (c % 2 ^ n))

block_fields-begins :
    (fs : ℕ) (flat : Bool) (p : RiceParams) (ds : List ℕ) (behind : List Field)
    → 0 < p.fsbits
    → 0 < length (all_bits (block_fields fs flat p ds ++ behind))
block_fields-begins fs flat p ds behind some =
    let fields = block_fields fs flat p ds in
    let begins =
      chosen-begins (leb p.fsmax fs) ((fs == 0) && flat) (p.fsmax + 1) 0 (fs + 1) p.fsbits
        (raw_fields p.bbits ds) (codes_fields fs ds) in
    let sum = length-append (all_bits fields) (all_bits behind) in
    let parts = ap length (all_bits-append fields behind) in omega arith

-- The decoder before its first block.
record IsStart (bbits n low : ℕ) (tile : List Field) (bytes : List ℕ) : Type 0 where
  pad : ℕ
  is_long : ltb (length bytes) (n + 1) ≡ false
  seed : (seed_loop n 0 bytes).0 ≡ low
  holds : Holds (start_buffer (seed_loop n 0 bytes).1) (all_bits tile ++ to_bits pad 0)

stream-IsStart :
    (bbits n seed : ℕ) (tile : List Field) (bytes : List ℕ)
    → bbits ≡ 8 * n
    → bbits ≤ 32
    → 0 < length (all_bits tile)
    → bytes ≡ finish (write_fields (bits_of seed bbits ∷ tile) new_writer)
    → IsStart bbits n (seed % 2 ^ bbits) tile bytes
unfolding start_buffer
stream-IsStart bbits n seed tile bytes octets word begins is_bytes =
    let fields : List Field = bits_of seed bbits ∷ tile in
    let (pad, _, stream) = finish-write_fields fields in
    let low = seed % 2 ^ bbits in
    let more = all_bits tile ++ to_bits pad 0 in
    let bits : byte_bits bytes ≡ to_bits bbits low ++ more =
      ap byte_bits is_bytes
      ∙ stream
      ∙ append_assoc (to_bits bbits low) (all_bits tile) (to_bits pad 0) in
    let bits_n : byte_bits bytes ≡ to_bits (8 * n) low ++ more =
      bits ∙ ap (λ (k : ℕ). to_bits k low ++ more) octets in
    let small : low < 2 ^ bbits = mod-lt seed (two_pow_pos bbits) in
    let bound : 2 ^ bbits ≤ 2 ^ 32 =
      pow-le-pow_right {n = 2} (omega arith) {i = bbits} {j = 32} word in
    let small_n : low < 2 ^ (8 * n) = subst (λ (k : ℕ). low < 2 ^ k) octets small in
    let got =
      seed_loop-IsSeed n 0 low bytes more (omega arith) small_n
        (subst (λ (l : List ℕ). All IsByte l) (sym is_bytes) (write_fields-IsBytes fields))
        bits_n in
    let sum = length-append (to_bits bbits low) more in
    let sum' = length-append (all_bits tile) (to_bits pad 0) in
    let len = ap length bits in
    let len_low = length-to_bits bbits low in
    let len_bytes = length-byte_bits bytes in
    let long : n < length bytes = omega arith in
    record {
      pad = pad;
      is_long = ground arith;
      seed = got.seed ∙ omega arith;
      holds =
          (refill-Holds (record { buf = 0; nbits = 0; rest = (seed_loop n 0 bytes).1 }) more
            (record {
              high = 0;
              room = omega arith;
              value = omega arith;
              small = omega arith;
              stream = sym got.rest;
              bytes = got.bytes;
            })).0;
    }

decode_start :
    (p : RiceParams) (nblock nx low : ℕ) (bytes out : List ℕ)
    → ltb (length bytes) (p.bbits / 8 + 1) ≡ false
    → (seed_loop (p.bbits / 8) 0 bytes).0 ≡ low
    → decode_blocks p nblock nx nx
        (sign_extend_u32 p.bbits low)
        (start_buffer (seed_loop (p.bbits / 8) 0 bytes).1)
      ≡ ok out
    → decode_rice_int_u32buf p nblock nx bytes ≡ ok out
unfolding decode_rice_int_u32buf
decode_start p nblock nx low bytes out long seed ran = rw (long, seed) ran

module _ (f : Floating) (laws : IsSumming f) (bytepix : ℕ) (rice : IsRice bytepix) (blocksize : ℕ)
    (some : 0 < blocksize) (seed : ℕ) (pixels : List ℕ) (us : All IsU32 (seed ∷ pixels))
    (short : AreShort f bytepix blocksize (length (seed ∷ pixels)) seed (seed ∷ pixels)) where
  decode-encode_pixels :
      (p : RiceParams)
      → IsSized bytepix p
      → (out : List ℕ) × (decode_rice_int_u32buf p blocksize
            (length (seed ∷ pixels))
            (encode_pixels f bytepix p blocksize (seed ∷ pixels))
          ≡ ok out)
        × (map (λ (v : ℕ). v % values bytepix) out
            ≡ map (λ (v : ℕ). v % values bytepix) (seed ∷ pixels))
  decode-encode_pixels p sized =
      let n = length (seed ∷ pixels) in
      let block = take blocksize (seed ∷ pixels) in
      let ds = diffs bytepix seed block in
      let fields = block_fields (rice_fs f bytepix ds) (is_flat f ds) p ds in
      let behind =
        tile_fields f bytepix p blocksize (length pixels) (last_of seed block)
          (drop blocksize (seed ∷ pixels)) in
      let bytes = encode_pixels f bytepix p blocksize (seed ∷ pixels) in
      let few = sized.fits.some in
      let octets = sized.bits in
      let begins : 0 < length (all_bits (fields ++ behind)) =
        block_fields-begins (rice_fs f bytepix ds) (is_flat f ds) p ds behind few in
      let start =
        stream-IsStart p.bbits (p.bbits / 8) seed (fields ++ behind) bytes (omega arith) sized.short
          begins (encode_pixels-fields f bytepix p blocksize seed pixels) in
      let (small, same) = sign_extend_u32_lem bytepix p.bbits seed rice octets us.0 in
      let (out, ran, equal) =
        decode_blocks-tile f laws bytepix rice p sized.fits sized.size sized.word blocksize some n
          seed (sign_extend_u32 p.bbits (seed % 2 ^ p.bbits)) (seed ∷ pixels)
          (start_buffer (seed_loop (p.bbits / 8) 0 bytes).1) (to_bits start.pad 0) (omega arith)
          us.0 small same us short start.holds in
      (
        out,
        decode_start p blocksize n (seed % 2 ^ p.bbits) bytes out start.is_long start.seed ran,
        equal,
      )

-- What encode_rice writes of a tile with pixels of 1, 2 or 4 bytes, decode_rice_int_u32buf reads
-- back: it gives as many pixels, each that of the tile up to the size of a pixel. No code of a
-- block may have a unary part of more than 1024; the floating-point numbers that the encoder
-- computes its parameter from are any whose sums of integers are zero only where all of them are.
pub decode_rice_int_u32buf-encode_pixels :
    (f : Floating)
    → IsSumming f
    → (bytepix : ℕ) → IsRice bytepix
    → (blocksize : ℕ) → 0 < blocksize
    → (seed : ℕ) (pixels : List ℕ) → All IsU32 (seed ∷ pixels)
    → AreShort f bytepix blocksize (length (seed ∷ pixels)) seed (seed ∷ pixels)
    → (out : List ℕ) × ((rice_params bytepix >>= λ p.
          decode_rice_int_u32buf p blocksize
            (length (seed ∷ pixels))
            (encode_pixels f bytepix p blocksize (seed ∷ pixels)))
        ≡ ok out)
      × (map (λ (v : ℕ). v % values bytepix) out
          ≡ map (λ (v : ℕ). v % values bytepix) (seed ∷ pixels))
decode_rice_int_u32buf-encode_pixels f laws bytepix rice blocksize some seed pixels us short =
    let (p, known, sized) = rice_params-IsSized bytepix rice in
    let (out, ran, equal) =
      decode-encode_pixels f laws bytepix rice blocksize some seed pixels us short p sized in
    (out, rw known ran, equal)
