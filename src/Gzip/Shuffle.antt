-- ===== src/Gzip/Shuffle.antt =====
-- zimage/gzip.rs: `shuffle` and `unshuffle` are inverse, whatever the new buffers held.
use rustfits.Prelude.{get_or_ext, get_or-take}
use rustfits.Prelude.{
  ℕ, zero, suc, ◌+◌, ◌*◌, ◌/◌, ◌%◌, ◌≤◌, ◌<◌, ◌≡◌, refl, sym, ap, ◌∙◌, false, ltb, List, length,
  get_or, take, length-take, ok, arith, ◌>>=◌,
}
use native.Mathlib.Nat.{div-add-mod', mod-lt, div-lt_iff_lt-mul}
use rustfits.Gzip.{shuffle, unshuffle}
use rustfits.Gzip.Scatter.{IsInjective, write_columns, write_columns_lem, length-write_columns}

-- The place of byte `j` of pixel `i` determines both.
place_injective : (b i j k l : ℕ) → j < b → l < b → i * b + j ≡ k * b + l → (i ≡ k) × (j ≡ l)
place_injective b zero j zero l h h' e = (refl, omega arith)
place_injective b (suc i) j zero l h h' e = absurd (omega arith)
place_injective b zero j (suc k) l h h' e = absurd (omega arith)
place_injective b (suc i) j (suc k) l h h' e =
    let (same, byte) = place_injective b i j k l h h' (omega arith) in (ap suc same, byte)

place_below : (n b i j : ℕ) → i < n → j < b → i * b + j < n * b
place_below zero b i j h h' = absurd (omega arith)
place_below (suc n) b zero j h h' = omega arith
place_below (suc n) b (suc i) j h h' = omega (arith, place_below n b i j (omega arith) h')

-- What a buffer holds that the loops have filled.
record IsFilled (size rows columns : ℕ) (place value : ℕ → ℕ → ℕ) (out : List ℕ) : Type 0 where
  pub len : length out ≡ size
  pub at : (i j : ℕ) → i < rows → j < columns → get_or out (place i j) 0 ≡ value i j

module _ (n b : ℕ) (uninit : List ℕ) where
  unshuffle-IsFilled :
      (shuffled : List ℕ)
      → n * b ≤ length uninit
      → b * n ≤ length shuffled
      → (out : List ℕ) × (unshuffle shuffled n b uninit ≡ ok out)
        × IsFilled
            (n * b)
            n
            b
            (λ (i j : ℕ). i * b + j)
            (λ (i j : ℕ). get_or shuffled (j * n + i) 0)
            out
  unfolding unshuffle
  unshuffle-IsFilled shuffled room enough =
      let place = λ (i j : ℕ). i * b + j in
      let value = λ (i j : ℕ). get_or shuffled (j * n + i) 0 in
      let injective : IsInjective b n place value =
        λ i j k l row col row' col' e. place_injective b i j k l col col' e in
      let accepted : ltb (length shuffled) (b * n) ≡ false = ground arith in
      let written = write_columns b n place value b uninit in
      (
        take (n * b) written,
        rw accepted refl,
        record {
          len =
              omega
                (arith, length-take (n * b) written, length-write_columns b n place value b uninit);
          at = λ i j row col.
              let below = place_below n b i j row col in
              get_or-take 0 (n * b) (i * b + j) written below
              ∙ write_columns_lem b n place value injective i j b uninit row col (omega arith)
                  (omega arith);
        },
      )

  shuffle-IsFilled :
      (pixels : List ℕ)
      → b * n ≤ length uninit
      → n * b ≤ length pixels
      → (out : List ℕ) × (shuffle pixels n b uninit ≡ ok out)
        × IsFilled
            (n * b)
            n
            b
            (λ (i j : ℕ). j * n + i)
            (λ (i j : ℕ). get_or pixels (i * b + j) 0)
            out
  unfolding shuffle
  shuffle-IsFilled pixels room enough =
      let place = λ (i j : ℕ). j * n + i in
      let value = λ (i j : ℕ). get_or pixels (i * b + j) 0 in
      let injective : IsInjective b n place value = λ i j k l row col row' col' e.
        let (byte, pixel) = place_injective n j i l k row row' e in (pixel, byte) in
      let accepted : ltb (length pixels) (n * b) ≡ false = ground arith in
      let written = write_columns b n place value b uninit in
      (
        take (n * b) written,
        rw accepted refl,
        record {
          len =
              omega
                (arith, length-take (n * b) written, length-write_columns b n place value b uninit);
          at = λ i j row col.
              let below : j * n + i < b * n = place_below b n j i col row in
              get_or-take 0 (n * b) (j * n + i) written (omega arith)
              ∙ write_columns_lem b n place value injective i j b uninit row col (omega arith)
                  (omega arith);
        },
      )

-- Every index below `n * b` is a byte of a pixel.
index_parts :
    (n b k : ℕ) → 0 < b → k < n * b → (i : ℕ) × (j : ℕ) × (i < n) × (j < b) × (k ≡ i * b + j)
index_parts n b k pos below =
    (k / b, k % b, (div-lt_iff_lt-mul pos).1 below, mod-lt k pos, sym (div-add-mod' k b))

pub shuffled_tile :
    (n b : ℕ) (pixels uninit uninit' : List ℕ)
    → 0 < b
    → length pixels ≡ n * b
    → n * b ≤ length uninit
    → n * b ≤ length uninit'
    → (s : List ℕ) × (shuffle pixels n b uninit ≡ ok s)
      × (length s ≡ n * b)
      × (unshuffle s n b uninit' ≡ ok pixels)
shuffled_tile n b pixels uninit uninit' pos len room room' =
    let (s, packed, filled) = shuffle-IsFilled n b uninit pixels (omega arith) (omega arith) in
    let s_len = filled.len in
    let (out, unpacked, restored) = unshuffle-IsFilled n b uninit' s room' (omega arith) in
    let same : out ≡ pixels = get_or_ext 0 out pixels (restored.len ∙ sym len) (λ k below.
      let out_len = restored.len in
      let (i, j, row, col, e) = index_parts n b k pos (omega arith) in
      rw e (restored.at i j row col ∙ filled.at i j row col)) in
    (s, packed, s_len, unpacked ∙ ap ok same)

-- For a tile of `n` pixels of `b` bytes each, b > 0, and new buffers that are long enough, whatever
-- they hold: `shuffle` and then `unshuffle` give the bytes of the tile.
pub unshuffle-shuffle :
    (n b : ℕ) (pixels uninit uninit' : List ℕ)
    → 0 < b
    → length pixels ≡ n * b
    → n * b ≤ length uninit
    → n * b ≤ length uninit'
    → (shuffle pixels n b uninit >>= λ shuffled. unshuffle shuffled n b uninit') ≡ ok pixels
unshuffle-shuffle n b pixels uninit uninit' pos len room room' =
    let (s, packed, s_len, unpacked) = shuffled_tile n b pixels uninit uninit' pos len room room' in
    rw packed unpacked
