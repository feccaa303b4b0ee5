-- ===== src/Rice/Untile.antt =====
-- zimage/rice.rs: the blocks of a tile as decode_rice_int_u32buf reads them.
use rustfits.Prelude.{
  ℕ, zero, suc, ◌+◌, ◌-◌, ◌*◌, ◌/◌, ◌%◌, ◌^◌, ◌==◌, ltb, if◌then◌else◌, min, replicate, bit_or,
  List, [], ◌∷◌, ◌++◌, length, Outcome, ok, err, ◌>>=◌,
}
use rustfits.Rice.{RiceError, short_input}
use rustfits.Rice.Diff.{unzigzag_u32}
use rustfits.Rice.Buffer.{Buffer, take_bits, take_unary}
use rustfits.Rice.Fields.{start_buffer}
use rustfits.Rice.Tile.{RiceParams}

-- The pixels stored, the last one, and the buffer behind them.
pub record Decoded : Type 0 where
  pub pixels : List ℕ
  pub lastpix : ℕ
  pub left : Buffer

abbrev pub decoded : List ℕ → ℕ → Buffer → Decoded
decoded pixels lastpix left = record { pixels = pixels; lastpix = lastpix; left = left }

abbrev pub store : ℕ → Decoded → Decoded
store next d = decoded (next ∷ d.pixels) d.lastpix d.left

-- `lastpix.wrapping_add(zz)`
abbrev pub next_pixel : ℕ → ℕ → ℕ
next_pixel lastpix diff = (lastpix + unzigzag_u32 diff) % 2 ^ 32

unfoldable pub read_raw : ℕ → ℕ → ℕ → Buffer → Outcome RiceError Decoded
read_raw bbits zero lastpix s = ok (decoded [] lastpix s)
read_raw bbits (suc n) lastpix s = take_bits bbits s >>= λ diff.
    read_raw bbits n (next_pixel lastpix diff.0) diff.1 >>= λ d.
    ok (store (next_pixel lastpix diff.0) d)

-- `bottom`
abbrev pub read_bottom : ℕ → Buffer → Outcome RiceError (ℕ × Buffer)
read_bottom zero s = ok (0, s)
read_bottom (suc fs) s = take_bits (suc fs) s

unfoldable pub read_code : ℕ → Buffer → Outcome RiceError (ℕ × Buffer)
read_code fs s = take_unary s >>= λ nzero.
    read_bottom fs nzero.1 >>= λ bottom. ok (bit_or (nzero.0 * 2 ^ fs % 2 ^ 32) bottom.0, bottom.1)

unfoldable pub read_codes : ℕ → ℕ → ℕ → Buffer → Outcome RiceError Decoded
read_codes fs zero lastpix s = ok (decoded [] lastpix s)
read_codes fs (suc n) lastpix s = read_code fs s >>= λ diff.
    read_codes fs n (next_pixel lastpix diff.0) diff.1 >>= λ d.
    ok (store (next_pixel lastpix diff.0) d)

-- A block of `n` pixels; `stored` is `fs + 1`.
unfoldable pub read_block : RiceParams → ℕ → ℕ → ℕ → Buffer → Outcome RiceError Decoded
read_block p zero n lastpix s = ok (decoded (replicate n lastpix) lastpix s)
read_block p (suc fs) n lastpix s =
    if fs == p.fsmax then read_raw p.bbits n lastpix s else read_codes fs n lastpix s

-- A block has at least one pixel, so as many turns as there are pixels are enough.
unfoldable pub decode_blocks : RiceParams → ℕ → ℕ → ℕ → ℕ → Buffer → Outcome RiceError (List ℕ)
decode_blocks p nblock zero nx lastpix s = ok []
decode_blocks p nblock (suc fuel) zero lastpix s = ok []
decode_blocks p nblock (suc fuel) (suc n) lastpix s = take_bits p.fsbits s >>= λ stored.
    read_block p stored.0 (min nblock (suc n)) lastpix stored.1 >>= λ d.
    decode_blocks p nblock fuel (suc n - min nblock (suc n)) d.lastpix d.left >>= λ rest.
    ok (d.pixels ++ rest)

-- `seed_u`, and the bytes behind it.
unfoldable pub seed_loop : ℕ → ℕ → List ℕ → ℕ × List ℕ
seed_loop zero seed bytes = (seed, bytes)
seed_loop (suc n) seed [] = (seed, [])
seed_loop (suc n) seed (b ∷ bytes) = seed_loop n (bit_or (seed * 256 % 2 ^ 32) b) bytes

-- `((seed_u << shift) as i32) >> shift`
unfoldable pub sign_extend_u32 : ℕ → ℕ → ℕ
sign_extend_u32 bbits seed =
    let shift = 32 - bbits in
    let high = seed * 2 ^ shift % 2 ^ 32 in
    if ltb bbits 32
    then if ltb high (2 ^ 31)
      then high / 2 ^ shift
      else 2 ^ 32 - 1 - (2 ^ 32 - 1 - high) / 2 ^ shift
    else seed

-- The pixels that are stored, each an i32.
unfoldable pub decode_rice_int_u32buf : RiceParams → ℕ → ℕ → List ℕ → Outcome RiceError (List ℕ)
decode_rice_int_u32buf p nblock nx bytes =
    let seed_bytes = p.bbits / 8 in
    let seed = seed_loop seed_bytes 0 bytes in
    if ltb (length bytes) (seed_bytes + 1)
    then err short_input
    else decode_blocks p nblock nx nx (sign_extend_u32 p.bbits seed.0) (start_buffer seed.1)
