-- ===== src/Header/Disk/Reopen.antt =====
-- header.rs and fits.rs: the blocks of a header, read from the bytes that were written.
use rustfits.Prelude.{
  ℕ, zero, suc, ◌+◌, ◌*◌, ◌/◌, ◌≤◌, ◌<◌, ◌≡◌, refl, ap, sym, ◌∙◌, Bool, true, false, leb, List, [],
  ◌∷◌, ◌++◌, append_assoc, length, length-append, take, drop, length-take, length-drop,
  take-append-drop, All, All-take, All-drop, ok, arith,
}
use native.Mathlib.Decide.{dec_lt}
use mathlib.Core.Path.{subst}
use rustfits.Storage.{Storage, Backend, disk, mem, http_range, read_exact}
use rustfits.Storage.World.{quiet}
use rustfits.Header.Build.{spaces}
use rustfits.Header.Disk.{card_bytes, header_bytes, needed_blocks}
use rustfits.Header.Disk.Cards.{
  IsPrintable, IsWritable, with_end, take_front, drop_front, card_bytes-IsPrintable,
  length-card_bytes, check_block_lem, block_cards_full,
}
use rustfits.Header.Disk.Reader.{
  block_cards, end_card, read_header_blocks, read_header_block, Parsed, after_check, take_cards,
}
use rustfits.Header.Disk.Layout.{
  length-header_bytes, header_bytes-IsPrintable, last_block, header_bytes-blank, header_bytes-full,
}

-- A block in the middle of a file.
module _ (pre block rest : List ℕ) (p : ℕ) (d : Bool) (lp : length pre ≡ p)
    (lb : length block ≡ 2880) where
  abbrev file : List ℕ
  file = pre ++ (block ++ rest)

  inside : leb (p + 2880) (length file) ≡ true
  inside = ground (arith, length-append pre (block ++ rest), length-append block rest)

  block_at : take 2880 (drop p file) ≡ block
  block_at = rw (drop_front p pre (block ++ rest) lp) (take_front 2880 block rest lb)

  read_exact-quiet :
      (b : Backend) → read_exact 2880 (quiet b file p d) ≡ (ok block, quiet b file (p + 2880) d)
  unfolding read_exact
  read_exact-quiet disk = rw (inside, block_at) refl
  read_exact-quiet mem = rw (inside, block_at) refl
  read_exact-quiet http_range = rw (inside, block_at) refl

  module _ (lenient : Bool) (offset fuel : ℕ) (acc new : List (List ℕ)) (b : Backend) where
    read_header_blocks-last :
        All IsPrintable block
        → block_cards 36 block ≡ (new, true)
        → read_header_blocks lenient offset (suc fuel) acc (quiet b file p d)
          ≡ (ok (acc ++ new), quiet b file (p + 2880) d)
    unfolding read_header_blocks
    read_header_blocks-last ps e =
        let more : List (List ℕ) → Storage → Parsed = read_header_blocks lenient offset fuel in
        let s = quiet b file (p + 2880) d in
        ap (read_header_block lenient offset acc more) (read_exact-quiet b)
        ∙ ap (after_check acc more s) (check_block_lem lenient offset block ps)
        ∙ ap (take_cards acc more s) e

    read_header_blocks-more :
        All IsPrintable block
        → block_cards 36 block ≡ (new, false)
        → read_header_blocks lenient offset (suc fuel) acc (quiet b file p d)
          ≡ read_header_blocks lenient offset fuel (acc ++ new) (quiet b file (p + 2880) d)
    unfolding read_header_blocks
    read_header_blocks-more ps e =
        let more : List (List ℕ) → Storage → Parsed = read_header_blocks lenient offset fuel in
        let s = quiet b file (p + 2880) d in
        ap (read_header_block lenient offset acc more) (read_exact-quiet b)
        ∙ ap (after_check acc more s) (check_block_lem lenient offset block ps)
        ∙ ap (take_cards acc more s) e

module _ (lenient : Bool) (offset : ℕ) (rest : List ℕ) (b : Backend) (d : Bool) where
  abbrev pub header_in : List ℕ → ℕ → List (List ℕ) → List ℕ
  header_in pre k body = pre ++ (header_bytes (k * 2880) (with_end body) ++ rest)

  abbrev IsReadBack : ℕ → ℕ → List (List ℕ) → List (List ℕ) → List ℕ → ℕ → Type 0
  IsReadBack fuel k body acc pre p =
      read_header_blocks lenient offset fuel acc (quiet b (header_in pre k body) p d) ≡ (
        ok (acc ++ with_end body),
        quiet b (header_in pre k body) (p + needed_blocks (suc (length body)) * 2880) d,
      )

  read_header_blocks-few :
      (fuel k : ℕ) (body acc : List (List ℕ)) (pre : List ℕ) (p : ℕ)
      → All IsWritable body
      → length body < 36
      → length pre ≡ p
      → IsReadBack (suc fuel) (suc k) body acc pre p
  unfolding needed_blocks
  read_header_blocks-few fuel k body acc pre p ws few lp =
      let block = header_bytes 2880 (with_end body) in
      let one : (suc (length body) + 35) / 36 ≡ 1 = omega arith in
      let blank = header_bytes-blank body ws k few in
      let parts : header_in pre (suc k) body ≡ pre ++ (block ++ (spaces (k * 2880) ++ rest)) =
        ap (λ bytes. pre ++ (bytes ++ rest)) blank
        ∙ ap (◌++◌ pre) (append_assoc block (spaces (k * 2880)) rest) in
      rw (one, parts)
        (read_header_blocks-last pre block (spaces (k * 2880) ++ rest) p d lp
          (length-header_bytes body ws 2880 (omega arith)) lenient offset fuel acc (with_end body) b
          (header_bytes-IsPrintable body ws 2880) (last_block body ws few))

  read_header_blocks-many :
      (fuel k : ℕ) (first later acc : List (List ℕ)) (pre : List ℕ) (p : ℕ)
      → All IsWritable first
      → length first ≡ 36
      → length pre ≡ p
      → IsReadBack fuel k later (acc ++ first) (pre ++ card_bytes first) (p + 2880)
      → IsReadBack (suc fuel) (suc k) (first ++ later) acc pre p
  unfolding needed_blocks
  read_header_blocks-many fuel k first later acc pre p ws full lp later_read =
      let block = card_bytes first in
      let tail = header_bytes (k * 2880) (with_end later) ++ rest in
      let parts : header_in pre (suc k) (first ++ later) ≡ pre ++ (block ++ tail) =
        ap (λ bytes. pre ++ (bytes ++ rest)) (header_bytes-full k first later ws full)
        ∙ ap (◌++◌ pre) (append_assoc block (header_bytes (k * 2880) (with_end later)) rest) in
      let joined : (pre ++ block) ++ tail ≡ pre ++ (block ++ tail) = append_assoc pre block tail in
      let cards : (acc ++ first) ++ with_end later ≡ acc ++ with_end (first ++ later) =
        append_assoc acc first (with_end later)
        ∙ ap (◌++◌ acc) (sym (append_assoc first later (end_card ∷ []))) in
      let blocks : p + 2880 + (suc (length later) + 35) / 36 * 2880
          ≡ p + (suc (length (first ++ later)) + 35) / 36 * 2880 =
        omega (arith, length-append first later) in
      let read : read_header_blocks lenient offset fuel (acc ++ first)
            (quiet b (pre ++ (block ++ tail)) (p + 2880) d)
          ≡ (
            ok (acc ++ with_end (first ++ later)),
            quiet b (pre ++ (block ++ tail)) (p + (suc (length (first ++ later)) + 35) / 36 * 2880)
                d,
          ) =
        rw (sym joined, sym cards, sym blocks) later_read in
      rw parts (
        read_header_blocks-more pre block tail p d lp (omega (arith, length-card_bytes first ws))
          lenient offset fuel acc first b (card_bytes-IsPrintable first ws)
          (block_cards_full 36 first ws full)
        ∙ read)

  pub read_header_blocks-header :
      (fuel k : ℕ) (body acc : List (List ℕ)) (pre : List ℕ) (p : ℕ)
      → All IsWritable body
      → length body < k * 36
      → k ≤ fuel
      → length pre ≡ p
      → IsReadBack fuel k body acc pre p
  read_header_blocks-header fuel zero body acc pre p ws room enough lp = absurd (omega arith)
  read_header_blocks-header zero (suc k) body acc pre p ws room enough lp = absurd (omega arith)
  read_header_blocks-header (suc fuel) (suc k) body acc pre p ws room enough lp =
      elim (dec_lt (length body) 36) [
        | yes few ↦ read_header_blocks-few fuel k body acc pre p ws few lp
        | no many ↦
            let first = take 36 body in
            let later = drop 36 body in
            let full : length first ≡ 36 = omega (arith, length-take 36 body) in
            let whole : first ++ later ≡ body = take-append-drop 36 body in
            subst (λ cards. IsReadBack (suc fuel) (suc k) cards acc pre p) whole
              (read_header_blocks-many fuel k first later acc pre p (All-take IsWritable 36 body ws)
                full lp
                (read_header_blocks-header fuel k later (acc ++ first) (pre ++ card_bytes first)
                  (p + 2880) (All-drop IsWritable 36 body ws) (omega (arith, length-drop 36 body))
                  (omega arith)
                  (omega (
                    arith,
                    length-append pre (card_bytes first),
                    length-card_bytes first (All-take IsWritable 36 body ws),
                  ))))
      ]
