-- ===== src/Rice.antt =====
-- zimage/rice.rs: the bit writer and the bit reader of RICE_1 tiles.
pub mod Digits
pub mod Written
pub mod Writer
pub mod Stream
pub mod Diff
pub mod Buffer
pub mod Filled
pub mod Taken
pub mod Unary
pub mod Count
pub mod Fields
pub mod Tile
pub mod Untile
pub mod Encoded
pub mod Blocks
pub mod Choice
pub mod Seed
pub mod Decoded
pub mod RoundTrip
mod Tests
mod TileTests
use rustfits.Prelude.{
  ℕ, zero, suc, ◌+◌, ◌-◌, ◌*◌, ◌/◌, ◌%◌, ◌^◌, ◌==◌, ltb, leb, if◌then◌else◌, min, bit_and, bit_or,
  List, [], ◌∷◌, ◌++◌, Outcome, ok, err, ◌>>=◌, ◌>>◌, fail_if,
}

pub data RiceError : Type 0 where
  too_many_bits end_of_stream unary_too_long no_bytepix no_blocksize short_input : RiceError

pub record BitWriter : Type 0 where
  pub out : List ℕ
  pub cur_byte : ℕ
  pub bits_used : ℕ

pub new_writer : BitWriter
new_writer = record { out = []; cur_byte = 0; bits_used = 0 }

-- The last byte goes out when it is full.
pub flush_full : BitWriter → BitWriter
flush_full w =
    if w.bits_used == 8
    then record { out = w.out ++ w.cur_byte ∷ []; cur_byte = 0; bits_used = 0 }
    else w

-- One turn of the loop of `write_bits`: the top `taken` of the `remaining` bits of `value`.
pub write_top : ℕ → ℕ → BitWriter → BitWriter
write_top value remaining w =
    let avail = 8 - w.bits_used in
    let taken = min remaining avail in
    let shift = remaining - taken in
    let mask = if taken == 8 then 0xff else 2 ^ taken - 1 in
    let top_bits = bit_and (value / 2 ^ shift % 256) mask in
    flush_full (record {
      out = w.out;
      cur_byte = bit_or w.cur_byte (top_bits * 2 ^ (avail - taken) % 256);
      bits_used = w.bits_used + taken;
    })

-- `value &= (1 << shift) - 1`
pub keep_low : ℕ → ℕ → ℕ
keep_low value shift = if ltb 0 shift then bit_and value (2 ^ shift - 1) else value

-- A turn takes at least one bit, so `remaining` turns are enough.
pub write_loop : ℕ → ℕ → ℕ → BitWriter → BitWriter
write_loop zero value remaining w = w
write_loop (suc fuel) value remaining w =
    let shift = remaining - min remaining (8 - w.bits_used) in
    let rest = write_loop fuel (keep_low value shift) shift (write_top value remaining w) in
    if ltb 0 remaining then rest else w

pub write_bits : ℕ → ℕ → BitWriter → BitWriter
write_bits value n w =
    let mask = if n == 64 then 2 ^ 64 - 1 else 2 ^ n - 1 in
    if n == 0 then w else write_loop n (bit_and value mask) n w

pub zeros_loop : ℕ → ℕ → BitWriter → BitWriter
zeros_loop zero remaining w = w
zeros_loop (suc fuel) remaining w =
    let taken = min remaining (8 - w.bits_used) in
    let rest = zeros_loop fuel (remaining - taken) (
      flush_full
        (record { out = w.out; cur_byte = w.cur_byte; bits_used = w.bits_used + taken })) in
    if ltb 0 remaining then rest else w

pub write_zeros : ℕ → BitWriter → BitWriter
write_zeros n w = if n == 0 then w else zeros_loop n n w

pub write_unary : ℕ → BitWriter → BitWriter
write_unary count w = write_bits 1 1 (write_zeros count w)

pub finish : BitWriter → List ℕ
finish w = if ltb 0 w.bits_used then w.out ++ w.cur_byte ∷ [] else w.out

-- `rest` is the data from `byte_pos` on.
pub record BitReader : Type 0 where
  pub rest : List ℕ
  pub bit_pos : ℕ

pub new_reader : List ℕ → BitReader
new_reader bytes = record { rest = bytes; bit_pos = 0 }

-- One turn of the loop of `read_bits` on the byte at `byte_pos`.
pub advance : ℕ → List ℕ → ℕ → BitReader
advance byte bytes pos =
    if pos == 8
    then record { rest = bytes; bit_pos = 0 }
    else record { rest = byte ∷ bytes; bit_pos = pos }

pub read_loop : ℕ → ℕ → ℕ → List ℕ → ℕ → Outcome RiceError (ℕ × BitReader)
read_loop zero result remaining bytes pos = ok (result, record { rest = bytes; bit_pos = pos })
read_loop (suc fuel) result remaining [] pos =
    if ltb 0 remaining then err end_of_stream else ok (result, record { rest = []; bit_pos = pos })
read_loop (suc fuel) result remaining (byte ∷ bytes) pos =
    let avail = 8 - pos in
    let taken = min remaining avail in
    let shift = avail - taken in
    let mask = if taken == 32 then 2 ^ 32 - 1 else 2 ^ taken - 1 in
    let bits = bit_and (byte / 2 ^ shift) mask in
    let next = advance byte bytes (pos + taken) in
    let rest =
      read_loop fuel (bit_or (result * 2 ^ taken % 2 ^ 64) bits) (remaining - taken) next.rest
        next.bit_pos in
    if ltb 0 remaining then rest else ok (result, record { rest = byte ∷ bytes; bit_pos = pos })

pub read_bits : ℕ → BitReader → Outcome RiceError (ℕ × BitReader)
read_bits n r =
    if n == 0
    then ok (0, r)
    else (fail_if (ltb 64 n) too_many_bits >> read_loop n 0 n r.rest r.bit_pos)

-- The count is at most 1024 before it fails, so 1025 turns are enough.
pub unary_loop : ℕ → ℕ → BitReader → Outcome RiceError (ℕ × BitReader)
unary_loop zero count r = err unary_too_long
unary_loop (suc fuel) count r = read_bits 1 r >>= λ read.
    (let more = unary_loop fuel (count + 1) read.1 in
      if read.0 == 1
      then ok (count, read.1)
      else if ltb 1024 (count + 1)
      then err unary_too_long
      else more)

pub read_unary : BitReader → Outcome RiceError (ℕ × BitReader)
read_unary r = unary_loop 1025 0 r
