-- ===== src/Rice/Diff.antt =====
-- zimage/rice.rs: the differences of neighbouring pixels, as both directions code them. An i32 is
-- its bit pattern, a number below 2^32.
use rustfits.Prelude.{
  ℕ, ◌+◌, ◌-◌, ◌*◌, ◌/◌, ◌%◌, ◌^◌, ◌<◌, ◌≡◌, refl, ap, ◌∙◌, ◌⊎◌, inl, inr, true, false, ◌==◌, ltb,
  if◌then◌else◌, bit_and, bit_xor, bit_xor_zero, bit_xor_ones, bit_and_mask, List, [], ◌∷◌, map,
  All, arith, IsU32,
}
use native.Mathlib.Decide.{dec_lt}

-- `v as i8 as i32` and `v as i16 as i32`, for 8 and 16 bits.
abbrev narrow_to : ℕ → ℕ → ℕ
narrow_to size v = let low = v % size in if ltb low (size / 2) then low else low + 2 ^ 32 - size

unfoldable pub narrow : ℕ → ℕ → ℕ
narrow bytepix v =
    if bytepix == 1 then narrow_to 256 v else if bytepix == 2 then narrow_to 65536 v else v

-- `pdiff`: `nextpix.wrapping_sub(lastpix)`, narrowed.
unfoldable pub pixel_diff : ℕ → ℕ → ℕ → ℕ
pixel_diff bytepix next last = narrow bytepix ((next + 2 ^ 32 - last) % 2 ^ 32)

-- `(pdiff as u32).wrapping_shl(1) ^ ((pdiff >> 31) as u32)`; the shift repeats the sign.
unfoldable pub zigzag : ℕ → ℕ
zigzag pdiff = bit_xor (pdiff * 2 % 2 ^ 32) (if ltb pdiff (2 ^ 31) then 0 else 2 ^ 32 - 1)

-- The decoder's `zz`: `diff >> 1`, complemented for an odd `diff`.
unfoldable pub unzigzag_u32 : ℕ → ℕ
unzigzag_u32 diff = if bit_and diff 1 == 0 then diff / 2 else 2 ^ 32 - 1 - diff / 2

-- The encoder's loop over the pixels of a block.
unfoldable pub diffs : ℕ → ℕ → List ℕ → List ℕ
diffs bytepix last [] = []
diffs bytepix last (next ∷ pixels) =
    zigzag (pixel_diff bytepix next last) ∷ diffs bytepix next pixels

-- The decoder's: `lastpix.wrapping_add(zz)`.
unfoldable pub undiffs : ℕ → List ℕ → List ℕ
undiffs last [] = []
undiffs last (diff ∷ ds) = let next = (last + unzigzag_u32 diff) % 2 ^ 32 in next ∷ undiffs next ds

zigzag_lem : (p : ℕ) → IsU32 p → zigzag p ≡ (if ltb p (2 ^ 31) then p * 2 else 2 ^ 33 - 1 - p * 2)
unfolding zigzag
zigzag_lem p h = elim (dec_lt p (2 ^ 31)) [
  | yes low ↦
      let t : ltb p (2 ^ 31) ≡ true = ground arith in
      rw t (omega (arith, bit_xor_zero 32 (p * 2 % 2 ^ 32) (omega arith)))
  | no high ↦
      let t : ltb p (2 ^ 31) ≡ false = ground arith in
      rw t (omega (arith, bit_xor_ones 32 (p * 2 % 2 ^ 32) (omega arith)))
]

unzigzag_u32-zigzag : (p : ℕ) → IsU32 p → unzigzag_u32 (zigzag p) ≡ p
unfolding unzigzag_u32
unzigzag_u32-zigzag p h =
    let z = zigzag_lem p h in let odd = bit_and_mask 1 (zigzag p) in ground (arith, z, odd)

-- The pixel sizes that the encoder accepts.
abbrev pub IsRice : ℕ → Type 0
IsRice bytepix = (bytepix ≡ 1) ⊎ ((bytepix ≡ 2) ⊎ (bytepix ≡ 4))

-- How many values a pixel of the size has.
abbrev pub values : ℕ → ℕ
values bytepix = if bytepix == 1 then 256 else if bytepix == 2 then 65536 else 2 ^ 32

-- A difference fits the size, and takes one pixel to the next up to a multiple of `values`.
record IsDiff (bytepix next last p : ℕ) : Type 0 where
  u32 : IsU32 p
  coded : zigzag p < values bytepix
  adds :
      (last' : ℕ)
      → last' % values bytepix ≡ last % values bytepix
      → (last' + p) % 2 ^ 32 % values bytepix ≡ next % values bytepix

pixel_diff-IsDiff :
    (bytepix next last : ℕ)
    → IsRice bytepix
    → IsU32 next
    → IsU32 last
    → IsDiff bytepix next last (pixel_diff bytepix next last)
unfolding pixel_diff narrow
pixel_diff-IsDiff bytepix next last (inl e) h h' =
    let raw = (next + 2 ^ 32 - last) % 2 ^ 32 in
    let z = zigzag_lem (narrow_to 256 raw) (ground arith) in
    rw e
      (record { u32 = ground arith; coded = ground (arith, z); adds = λ last' same. ground arith })
pixel_diff-IsDiff bytepix next last (inr (inl e)) h h' =
    let raw = (next + 2 ^ 32 - last) % 2 ^ 32 in
    let z = zigzag_lem (narrow_to 65536 raw) (ground arith) in
    rw e
      (record { u32 = ground arith; coded = ground (arith, z); adds = λ last' same. ground arith })
pixel_diff-IsDiff bytepix next last (inr (inr e)) h h' =
    let p = (next + 2 ^ 32 - last) % 2 ^ 32 in
    let z = zigzag_lem p (omega arith) in
    rw e (record { u32 = omega arith; coded = ground (arith, z); adds = λ last' same. omega arith })

-- For pixels of 1, 2 or 4 bytes: the codes of a block fit the size of a pixel, and a decoder whose
-- last pixel agrees with the encoder's up to the size gets back every pixel of the block, up to
-- the size.
pub undiffs-diffs :
    (bytepix last last' : ℕ) (pixels : List ℕ)
    → IsRice bytepix
    → IsU32 last
    → All IsU32 pixels
    → last' % values bytepix ≡ last % values bytepix
    → All (λ (d : ℕ). d < values bytepix) (diffs bytepix last pixels)
      × (map (λ (v : ℕ). v % values bytepix) (undiffs last' (diffs bytepix last pixels))
          ≡ map (λ (v : ℕ). v % values bytepix) pixels)
unfolding diffs undiffs
undiffs-diffs bytepix last last' [] rice h hs same = (tt, refl)
undiffs-diffs bytepix last last' (next ∷ pixels) rice h (h', hs) same =
    let d = pixel_diff-IsDiff bytepix next last rice h' h in
    let p = pixel_diff bytepix next last in
    let value : (last' + unzigzag_u32 (zigzag p)) % 2 ^ 32 % values bytepix
        ≡ next % values bytepix =
      ap (λ (t : ℕ). (last' + t) % 2 ^ 32 % values bytepix) (unzigzag_u32-zigzag p d.u32)
      ∙ d.adds last' same in
    let (fit, back) =
      undiffs-diffs bytepix next ((last' + unzigzag_u32 (zigzag p)) % 2 ^ 32) pixels rice h' hs
        value in
    ((d.coded, fit), λ i. value i ∷ back i)
