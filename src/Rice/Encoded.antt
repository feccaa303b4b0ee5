-- ===== src/Rice/Encoded.antt =====
-- zimage/rice.rs: the fields that the blocks of a tile are written in.
use rustfits.Prelude.{
  ℕ, zero, suc, ◌+◌, ◌-◌, ◌/◌, ◌^◌, ◌≡◌, refl, sym, ap, ◌∙◌, ◌==◌, Bool, true, false, ltb, leb,
  if◌then◌else◌, ◌&&◌, bit_and, List, [], ◌∷◌, ◌++◌, take, drop, arith,
}
use rustfits.Rice.{BitWriter, write_bits}
use rustfits.Rice.Diff.{diffs}
use rustfits.Rice.Writer.{Field, bits_of, unary_of, write_field, write_fields}
use rustfits.Rice.Tile.{
  RiceParams, Floating, pixelsum, rice_fs, write_raw, write_code, write_codes, write_block, last_of,
  encode_blocks,
}

pub write_fields-append :
    (xs ys : List Field) (w : BitWriter)
    → write_fields (xs ++ ys) w ≡ write_fields ys (write_fields xs w)
unfolding write_fields
write_fields-append [] ys w = refl
write_fields-append (x ∷ xs) ys w = write_fields-append xs ys (write_field x w)

abbrev pub raw_fields : ℕ → List ℕ → List Field
raw_fields bbits [] = []
raw_fields bbits (d ∷ ds) = bits_of d bbits ∷ raw_fields bbits ds

abbrev pub code_fields : ℕ → ℕ → List Field
code_fields zero d = unary_of (d / 1) ∷ []
code_fields (suc fs) d =
    unary_of (d / 2 ^ suc fs) ∷ bits_of (bit_and d (2 ^ suc fs - 1)) (suc fs) ∷ []

abbrev pub codes_fields : ℕ → List ℕ → List Field
codes_fields fs [] = []
codes_fields fs (d ∷ ds) = code_fields fs d ++ codes_fields fs ds

abbrev pub block_fields : ℕ → Bool → RiceParams → List ℕ → List Field
block_fields fs flat p ds =
    if leb p.fsmax fs
    then bits_of (p.fsmax + 1) p.fsbits ∷ raw_fields p.bbits ds
    else if (fs == 0) && flat
    then bits_of 0 p.fsbits ∷ []
    else bits_of (fs + 1) p.fsbits ∷ codes_fields fs ds

write_raw-fields :
    (bbits : ℕ) (ds : List ℕ) (w : BitWriter)
    → write_raw bbits ds w ≡ write_fields (raw_fields bbits ds) w
unfolding write_raw write_fields write_field
write_raw-fields bbits [] w = refl
write_raw-fields bbits (d ∷ ds) w = write_raw-fields bbits ds (write_bits d bbits w)

write_code-fields :
    (fs d : ℕ) (w : BitWriter) → write_code fs d w ≡ write_fields (code_fields fs d) w
unfolding write_code write_fields write_field
write_code-fields zero d w = refl
write_code-fields (suc fs) d w = let t : ltb 0 (suc fs) ≡ true = ground arith in rw t refl

write_codes-fields :
    (fs : ℕ) (ds : List ℕ) (w : BitWriter)
    → write_codes fs ds w ≡ write_fields (codes_fields fs ds) w
unfolding write_codes write_fields
write_codes-fields fs [] w = refl
write_codes-fields fs (d ∷ ds) w =
    write_codes-fields fs ds (write_code fs d w)
    ∙ ap (write_fields (codes_fields fs ds)) (write_code-fields fs d w)
    ∙ sym (write_fields-append (code_fields fs d) (codes_fields fs ds) w)

choose-fields :
    (raw low : Bool) (xs ys zs : List Field) (w : BitWriter)
    → (if raw then write_fields xs w else if low then write_fields ys w else write_fields zs w)
      ≡ write_fields (if raw then xs else if low then ys else zs) w
choose-fields true low xs ys zs w = refl
choose-fields false true xs ys zs w = refl
choose-fields false false xs ys zs w = refl

pub write_block-fields :
    (fs : ℕ) (flat : Bool) (p : RiceParams) (ds : List ℕ) (w : BitWriter)
    → write_block fs flat p ds w ≡ write_fields (block_fields fs flat p ds) w
unfolding write_block write_fields write_field
write_block-fields fs flat p ds w =
    rw
      (
        write_raw-fields p.bbits ds (write_bits (p.fsmax + 1) p.fsbits w),
        write_codes-fields fs ds (write_bits (fs + 1) p.fsbits w),
      )
      (choose-fields (leb p.fsmax fs) ((fs == 0) && flat)
        (bits_of (p.fsmax + 1) p.fsbits ∷ raw_fields p.bbits ds) (bits_of 0 p.fsbits ∷ [])
        (bits_of (fs + 1) p.fsbits ∷ codes_fields fs ds) w)

abbrev pub is_flat : Floating → List ℕ → Bool
is_flat f ds = f.equal (pixelsum f ds) (f.of_int 0)

abbrev pub tile_fields : Floating → ℕ → RiceParams → ℕ → ℕ → ℕ → List ℕ → List Field
tile_fields f bytepix p blocksize zero last pixels = []
tile_fields f bytepix p blocksize (suc fuel) last [] = []
tile_fields f bytepix p blocksize (suc fuel) last (next ∷ pixels) =
    let block = take blocksize (next ∷ pixels) in
    let ds = diffs bytepix last block in
    block_fields (rice_fs f bytepix ds) (is_flat f ds) p ds
    ++ tile_fields f bytepix p blocksize fuel (last_of last block) (drop blocksize (next ∷ pixels))

pub encode_blocks-fields :
    (f : Floating) (bytepix : ℕ) (p : RiceParams) (blocksize fuel last : ℕ) (pixels : List ℕ)
    (w : BitWriter)
    → encode_blocks f bytepix p blocksize fuel last pixels w
      ≡ write_fields (tile_fields f bytepix p blocksize fuel last pixels) w
unfolding encode_blocks write_fields
encode_blocks-fields f bytepix p blocksize zero last pixels w = refl
encode_blocks-fields f bytepix p blocksize (suc fuel) last [] w = refl
encode_blocks-fields f bytepix p blocksize (suc fuel) last (next ∷ pixels) w =
    let block = take blocksize (next ∷ pixels) in
    let ds = diffs bytepix last block in
    let fs = rice_fs f bytepix ds in
    let flat = is_flat f ds in
    let rest =
      tile_fields f bytepix p blocksize fuel (last_of last block)
        (drop blocksize (next ∷ pixels)) in
    encode_blocks-fields f bytepix p blocksize fuel (last_of last block)
      (drop blocksize (next ∷ pixels)) (write_block fs flat p ds w)
    ∙ ap (write_fields rest) (write_block-fields fs flat p ds w)
    ∙ sym (write_fields-append (block_fields fs flat p ds) rest w)
