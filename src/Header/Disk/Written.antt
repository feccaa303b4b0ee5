-- ===== src/Header/Disk/Written.antt =====
-- header.rs: the write at the end of `rewrite_header_to_disk`, and what fits.rs reads there.
use rustfits.Prelude.{
  ℕ, suc, ◌+◌, ◌*◌, ◌≤◌, ◌<◌, ◌≡◌, refl, sym, Bool, false, List, [], ◌∷◌, ◌++◌, length, drop, All,
  ok, arith,
}
use mathlib.Core.Path.{subst}
use rustfits.Storage.{Backend, is_remote}
use rustfits.Storage.World.{World, at, or_taint, quiet, dirty_written, seek-at, write-at, flush-at}
use rustfits.Storage.Bytes.{
  resize, overwrite, byte_at, length-resize, length-overwrite, byte_at-overwrite_before,
  byte_at-overwrite_after,
}
use rustfits.Header.Disk.{header_bytes, needed_blocks, write_header}
use rustfits.Header.Disk.Cards.{IsWritable, with_end}
use rustfits.Header.Disk.Layout.{length-header_bytes}
use rustfits.Header.Disk.Reader.{read_header_blocks, read_header_cards}
use rustfits.Header.Disk.Reopen.{read_header_blocks-header}

-- The header stands in `blocks` blocks of the file from `offset` on, and the rest is what it was.
pub record IsWritten (offset blocks : ℕ) (body : List (List ℕ)) (xs ys : List ℕ) : Type 0 where
  pub reread :
      (lenient : Bool) (b : Backend) (e : Bool)
      → read_header_cards lenient offset (quiet b ys offset e)
        ≡ (ok (with_end body), quiet b ys (offset + needed_blocks (suc (length body)) * 2880) e)
  pub before : (i : ℕ) → i < offset → byte_at ys i ≡ byte_at xs i
  pub behind : (i : ℕ) → offset + blocks * 2880 ≤ i → byte_at ys i ≡ byte_at xs i

overwrite_lem :
    (xs buf : List ℕ) (pos : ℕ)
    → 0 < length buf
    → overwrite xs pos buf ≡ resize pos xs ++ (buf ++ drop (pos + length buf) xs)
overwrite_lem xs [] pos h = absurd (omega arith)
overwrite_lem xs (c ∷ cs) pos h = refl

pub write_header-at :
    (w : World) (b : Backend) (xs : List ℕ) (p : ℕ) (d : Bool) (offset : ℕ) (bytes : List ℕ)
    → is_remote b ≡ false
    → write_header offset bytes (at w b xs p d) ≡ (
      ok tt,
      at w b (overwrite xs offset bytes) (offset + length bytes) (dirty_written b bytes d),
    )
unfolding write_header or_taint
write_header-at w b xs p d offset bytes local =
    rw
      (
        seek-at w xs p d b offset local,
        write-at w xs offset d b bytes local,
        flush-at w (overwrite xs offset bytes) (offset + length bytes) (dirty_written b bytes d) b
            local,
      )
      refl

pub overwrite-IsWritten :
    (xs : List ℕ) (offset blocks : ℕ) (body : List (List ℕ))
    → All IsWritable body
    → length body < blocks * 36
    → offset + blocks * 2880 ≤ length xs
    → IsWritten offset blocks body xs
        (overwrite xs offset (header_bytes (blocks * 2880) (with_end body)))
unfolding read_header_cards
overwrite-IsWritten xs offset blocks body ws room inside =
    let bytes = header_bytes (blocks * 2880) (with_end body) in
    let len = length-header_bytes body ws (blocks * 2880) (omega arith) in
    let ys = overwrite xs offset bytes in
    let rest = drop (offset + length bytes) xs in
    let parts = overwrite_lem xs bytes offset (omega arith) in
    let size = length-overwrite xs offset bytes (omega arith) in
    record {
      reread = λ lenient b e.
          subst
            (λ file.
              read_header_blocks lenient offset (suc (length ys)) [] (quiet b file offset e) ≡ (
                ok (with_end body),
                quiet b file (offset + needed_blocks (suc (length body)) * 2880) e,
              ))
            (sym parts)
            (read_header_blocks-header lenient offset rest b e (suc (length ys)) blocks body []
              (resize offset xs) offset ws room (omega arith) (length-resize offset xs));
      before = λ i low. byte_at-overwrite_before xs offset bytes i low;
      behind = λ i high. byte_at-overwrite_after xs offset bytes i (omega arith);
    }
