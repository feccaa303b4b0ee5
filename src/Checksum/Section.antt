-- ===== src/Checksum/Section.antt =====
-- hdu_image.rs: the data section of an HDU summed chunk by chunk from its file.
use rustfits.Prelude.{
  ℕ, zero, suc, ◌+◌, ◌-◌, ◌^◌, ◌≤◌, ◌<◌, ◌≡◌, refl, ap, ◌∙◌, Bool, true, false, ◌==◌, ltb, min,
  if◌then◌else◌, List, [], ◌∷◌, ◌++◌, length, take, drop, length-take, All, All-take, All-drop,
  IsByte, IsU32, ok, arith,
}
use mathlib.Core.List.{flatten}
use rustfits.Storage.{Backend, is_remote, seek, read_exact}
use rustfits.Storage.World.{World, FileIo, at, ◌>=>◌, ◌>>>◌, on_file, seek-at, read-at}
use rustfits.Checksum.{ChecksumStream, new_stream, feed, finish}
use rustfits.Checksum.Carry.{ones_sum}
use rustfits.Checksum.Sum.{word_sum}
use rustfits.Checksum.Stream.{feed_all, IsChunk, finish-feed_all}

abbrev pub give : {A : Type 0} → A → FileIo A
give a w = (ok a, w)

-- A turn reads at least one byte, so `remaining` turns are enough.
unfoldable pub stream_loop : ℕ → ℕ → ℕ → ChecksumStream → FileIo ChecksumStream
stream_loop chunk zero remaining s = give s
stream_loop chunk (suc fuel) remaining s =
    let n = min remaining chunk in
    let rest =
      on_file (read_exact n) >=> λ buf. stream_loop chunk fuel (remaining - n) (feed s buf) in
    if ltb 0 remaining then rest else give s

-- `CHUNK`
abbrev pub checksum_chunk : ℕ
checksum_chunk = 2 ^ 20

-- CHUNK is the first argument, `bytes_count` the padded size of the section.
unfoldable pub stream_data_section_checksum : ℕ → ℕ → ℕ → ℕ → FileIo ℕ
stream_data_section_checksum chunk data_offset bytes_count seed =
    let stream = new_stream seed in
    let summed =
      on_file (seek data_offset) >>> stream_loop chunk bytes_count bytes_count stream >=> λ s.
      give (finish s) in
    if bytes_count == 0 then give (finish stream) else summed

module _ {ℓ} {A : Type ℓ} where
  drop-drop : (m n : ℕ) (l : List A) → drop n (drop m l) ≡ drop (m + n) l
  drop-drop zero n l = let e : 0 + n ≡ n = omega arith in rw e refl
  drop-drop (suc m) zero [] = let e : suc m + 0 ≡ suc (m + 0) = omega arith in rw e refl
  drop-drop (suc m) (suc n) [] = let e : suc m + suc n ≡ suc (m + suc n) = omega arith in rw e refl
  drop-drop (suc m) n (x ∷ l) =
      let e : suc m + n ≡ suc (m + n) = omega arith in rw e (drop-drop m n l)

  take-append-take : (m n : ℕ) (l : List A) → take m l ++ take n (drop m l) ≡ take (m + n) l
  take-append-take zero n l = let e : 0 + n ≡ n = omega arith in rw e refl
  take-append-take (suc m) zero [] = let e : suc m + 0 ≡ suc (m + 0) = omega arith in rw e refl
  take-append-take (suc m) (suc n) [] =
      let e : suc m + suc n ≡ suc (m + suc n) = omega arith in rw e refl
  take-append-take (suc m) n (x ∷ l) =
      let e : suc m + n ≡ suc (m + n) = omega arith in rw e (ap (◌∷◌ x) (take-append-take m n l))

-- The bytes are cut into chunks that are fed in turn.
record IsFed (w : World) (b : Backend) (xs : List ℕ) (p : ℕ) (d : Bool) (remaining : ℕ)
    (s : ChecksumStream) (run : FileIo ChecksumStream) : Type 0 where
  chunks : List (List ℕ)
  ran : run (at w b xs p d) ≡ (ok (feed_all s chunks), at w b xs (p + remaining) d)
  whole : flatten chunks ≡ take remaining (drop p xs)
  short : All IsChunk chunks

module _ (w : World) (b : Backend) (local : is_remote b ≡ false) (xs : List ℕ)
    (bytes : All IsByte xs) (d : Bool) (chunk : ℕ) (pos : 0 < chunk) where
  stream_loop-step :
      (fuel r p : ℕ) (s : ChecksumStream)
      → p + suc r ≤ length xs
      → min (suc r) chunk ≤ 2 ^ 18
      → IsFed w b xs
          (p + min (suc r) chunk)
          d
          (suc r - min (suc r) chunk)
          (feed s (take (min (suc r) chunk) (drop p xs)))
          (stream_loop chunk fuel
            (suc r - min (suc r) chunk)
            (feed s (take (min (suc r) chunk) (drop p xs))))
      → IsFed w b xs p d (suc r) s (stream_loop chunk (suc fuel) (suc r) s)
  unfolding stream_loop flatten feed_all
  stream_loop-step fuel r p s inside small f =
      let n = min (suc r) chunk in
      let buf = take n (drop p xs) in
      let goes : ltb 0 (suc r) ≡ true = ground arith in
      let there : p + n + (suc r - n) ≡ p + suc r = omega arith in
      let all : n + (suc r - n) ≡ suc r = omega arith in
      let joined : buf ++ take (suc r - n) (drop (p + n) xs) ≡ take (suc r) (drop p xs) =
        rw (← drop-drop p n xs)
          (take-append-take n (suc r - n) (drop p xs) ∙ ap (λ (k : ℕ). take k (drop p xs)) all) in
      record {
        chunks = buf ∷ f.chunks;
        ran = rw (goes, read-at w xs p d b n local (omega arith), f.ran, there) refl;
        whole = ap (◌++◌ buf) f.whole ∙ joined;
        short = (
          (
            All-take IsByte n (drop p xs) (All-drop IsByte p xs bytes),
            omega (arith, length-take n (drop p xs)),
          ),
          f.short,
        );
      }

  stream_loop-IsFed :
      (fuel remaining p : ℕ) (s : ChecksumStream)
      → remaining ≤ fuel
      → p + remaining ≤ length xs
      → min remaining chunk ≤ 2 ^ 18
      → IsFed w b xs p d remaining s (stream_loop chunk fuel remaining s)
  unfolding stream_loop flatten feed_all
  stream_loop-IsFed zero (suc r) p s enough inside small = absurd (omega arith)
  stream_loop-IsFed zero zero p s enough inside small =
      let e : p + 0 ≡ p = omega arith in
      record { chunks = []; ran = rw e refl; whole = refl; short = tt }
  stream_loop-IsFed (suc fuel) zero p s enough inside small =
      let e : p + 0 ≡ p = omega arith in
      record { chunks = []; ran = rw e refl; whole = refl; short = tt }
  stream_loop-IsFed (suc fuel) (suc r) p s enough inside small =
      let n = min (suc r) chunk in
      stream_loop-step fuel r p s inside small (
        stream_loop-IsFed fuel (suc r - n) (p + n) (feed s (take n (drop p xs))) (omega arith)
          (omega arith) (omega arith))

  -- The sum of the section's bytes, where no chunk has more than 2^18 of them.
  pub stream_data_section_checksum-ones_sum :
      (p data_offset bytes_count seed : ℕ)
      → IsU32 seed
      → data_offset + bytes_count ≤ length xs
      → min bytes_count chunk ≤ 2 ^ 18
      → (q : ℕ) × (stream_data_section_checksum chunk data_offset bytes_count seed (at w b xs p d)
          ≡ (
            ok (ones_sum (seed + word_sum (take bytes_count (drop data_offset xs)))),
            at w b xs q d,
          ))
  unfolding stream_data_section_checksum feed_all flatten
  stream_data_section_checksum-ones_sum p data_offset zero seed u inside small =
      let sum : finish (new_stream seed) ≡ ones_sum (seed + word_sum []) =
        finish-feed_all seed [] u tt in
      (p, rw sum refl)
  stream_data_section_checksum-ones_sum p data_offset (suc r) seed u inside small =
      let f =
        stream_loop-IsFed (suc r) (suc r) data_offset (new_stream seed) (omega arith) inside
          small in
      let some_bytes : (suc r == 0) ≡ false = ground arith in
      let sum = finish-feed_all seed f.chunks u f.short in
      (
        data_offset + suc r,
        rw (some_bytes, seek-at w xs p d b data_offset local, f.ran, sum, f.whole) refl,
      )
