-- ===== src/Rice/Tile.antt =====
-- zimage/rice.rs: the blocks of a tile as encode_rice writes them.
use rustfits.Prelude.{
  ℕ, zero, suc, ◌+◌, ◌-◌, ◌*◌, ◌/◌, ◌^◌, ◌==◌, ltb, leb, if◌then◌else◌, Bool, ◌&&◌, bit_and, List,
  [], ◌∷◌, length, take, drop, Outcome, ok, err,
}
use rustfits.Rice.{BitWriter, RiceError, no_bytepix, new_writer, write_bits, write_unary, finish}
use rustfits.Rice.Diff.{diffs}

pub record RiceParams : Type 0 where
  pub bbits : ℕ
  pub fsbits : ℕ
  pub fsmax : ℕ

abbrev pub params : ℕ → ℕ → ℕ → RiceParams
params bbits fsbits fsmax = record { bbits = bbits; fsbits = fsbits; fsmax = fsmax }

unfoldable pub rice_params : ℕ → Outcome RiceError RiceParams
rice_params bytepix =
    if bytepix == 1
    then ok (params 8 3 6)
    else if bytepix == 2
    then ok (params 16 4 14)
    else if bytepix == 4
    then ok (params 32 5 25)
    else if bytepix == 8
    then ok (params 64 6 53)
    else err no_bytepix

-- What the encoder uses of `f64`; `cast n` is the cast to an unsigned integer of `n` bits.
pub record Floating : Type 1 where
  pub F : Type 0
  pub of_int : ℕ → F
  pub add : F → F → F
  pub sub : F → F → F
  pub div : F → F → F
  pub below : F → F → Bool
  pub equal : F → F → Bool
  pub cast : ℕ → F → ℕ

unfoldable pub sum_loop : (f : Floating) → f.F → List ℕ → f.F
sum_loop f sum [] = sum
sum_loop f sum (d ∷ ds) = sum_loop f (f.add sum (f.of_int d)) ds

abbrev pub pixelsum : (f : Floating) → List ℕ → f.F
pixelsum f ds = sum_loop f (f.of_int 0) ds

-- `while psum > 0`; it halves `psum`, so `psum` turns are enough.
unfoldable pub fs_loop : ℕ → ℕ → ℕ → ℕ
fs_loop zero psum fs = fs
fs_loop (suc fuel) zero fs = fs
fs_loop (suc fuel) (suc p) fs = fs_loop fuel (suc p / 2) (fs + 1)

-- `fs`, from the mean of the codes.
unfoldable pub rice_fs : (f : Floating) → ℕ → List ℕ → ℕ
rice_fs f bytepix ds =
    let n = length ds in
    let raw = f.div (f.sub (f.sub (pixelsum f ds) (f.of_int (n / 2))) (f.of_int 1)) (f.of_int n) in
    let dpsum = if f.below raw (f.of_int 0) then f.of_int 0 else raw in
    let psum = f.cast (bytepix * 8) dpsum / 2 in fs_loop psum psum 0

unfoldable pub write_raw : ℕ → List ℕ → BitWriter → BitWriter
write_raw bbits [] w = w
write_raw bbits (d ∷ ds) w = write_raw bbits ds (write_bits d bbits w)

unfoldable pub write_code : ℕ → ℕ → BitWriter → BitWriter
write_code fs d w =
    let top = write_unary (d / 2 ^ fs) w in
    if ltb 0 fs then write_bits (bit_and d (2 ^ fs - 1)) fs top else top

unfoldable pub write_codes : ℕ → List ℕ → BitWriter → BitWriter
write_codes fs [] w = w
write_codes fs (d ∷ ds) w = write_codes fs ds (write_code fs d w)

-- Raw codes, a block without a change, or codes of a unary part and `fs` bits.
unfoldable pub write_block : ℕ → Bool → RiceParams → List ℕ → BitWriter → BitWriter
write_block fs flat p ds w =
    if leb p.fsmax fs
    then write_raw p.bbits ds (write_bits (p.fsmax + 1) p.fsbits w)
    else if (fs == 0) && flat
    then write_bits 0 p.fsbits w
    else write_codes fs ds (write_bits (fs + 1) p.fsbits w)

abbrev pub last_of : ℕ → List ℕ → ℕ
last_of last [] = last
last_of last (p ∷ ps) = last_of p ps

-- A block takes at least one pixel, so as many turns as there are pixels are enough.
unfoldable pub encode_blocks :
    Floating → ℕ → RiceParams → ℕ → ℕ → ℕ → List ℕ → BitWriter → BitWriter
encode_blocks f bytepix p blocksize zero last pixels w = w
encode_blocks f bytepix p blocksize (suc fuel) last [] w = w
encode_blocks f bytepix p blocksize (suc fuel) last (next ∷ pixels) w =
    let block = take blocksize (next ∷ pixels) in
    let ds = diffs bytepix last block in
    encode_blocks f bytepix p blocksize fuel (last_of last block) (drop blocksize (next ∷ pixels))
      (write_block (rice_fs f bytepix ds) (f.equal (pixelsum f ds) (f.of_int 0)) p ds w)

-- The stream of pixels that have been read; the first of them is the seed.
unfoldable pub encode_pixels : Floating → ℕ → RiceParams → ℕ → List ℕ → List ℕ
encode_pixels f bytepix p blocksize [] = []
encode_pixels f bytepix p blocksize (seed ∷ pixels) = finish (
    encode_blocks f bytepix p blocksize (length (seed ∷ pixels)) seed (seed ∷ pixels)
      (write_bits seed p.bbits new_writer))
