-- ===== src/Storage/Next.antt =====
-- common.rs: the HDU behind the data of another, and where it is once it is moved.
use rustfits.Prelude.{
  ℕ, ◌+◌, ◌^◌, ◌≤◌, ◌<◌, ◌≡◌, ◌⊎◌, inl, inr, min, map, true, false, ltb, leb, Option, none, some,
  List, [], ◌∷◌, All, arith,
}
use native.Mathlib.Decide.{dec_lt}
use rustfits.Storage.World.{HduOffsets}
use rustfits.Storage.Shift.{shift_offsets, add_u64, next_hdu_start, nearer}

-- No HDU begins behind `data_offset` and before `end`.
abbrev pub HasRoom : ℕ → ℕ → List HduOffsets → Type 0
HasRoom data_offset end = All (λ h. (h.header_offset ≤ data_offset) ⊎ (end ≤ h.header_offset))

abbrev pub IsInside : ℕ → List HduOffsets → Type 0
IsInside size = All (λ h. h.header_offset ≤ size)

-- What `next_hdu_start` finds.
abbrev pub IsNext : ℕ → ℕ → List HduOffsets → Option ℕ → Type 0
IsNext data_offset size hs none = (end : ℕ) → HasRoom data_offset end hs
IsNext data_offset size hs (some next) =
    (data_offset < next)
    × (next ≤ size)
    × HasRoom data_offset next hs
    × ((end : ℕ) → HasRoom data_offset end hs → end ≤ next)

pub HasRoom-less :
    (data_offset end less : ℕ) (hs : List HduOffsets)
    → less ≤ end
    → HasRoom data_offset end hs
    → HasRoom data_offset less hs
HasRoom-less data_offset end less [] h room = tt
HasRoom-less data_offset end less (x ∷ hs) h (here, room) = (
  elim here [ inl low ↦ inl low | inr high ↦ inr (omega arith) ],
  HasRoom-less data_offset end less hs h room,
)

module _ (data_offset size : ℕ) (h : HduOffsets) (hs : List HduOffsets) where
  IsNext-nearer :
      (o : Option ℕ)
      → data_offset < h.header_offset
      → h.header_offset ≤ size
      → IsNext data_offset size hs o
      → IsNext data_offset size (h ∷ hs) (some (nearer h.header_offset o))
  IsNext-nearer none behind inside all = (
    behind,
    inside,
    (inr (omega arith), all h.header_offset),
    λ end (place, room). elim place [ inl low ↦ absurd (omega arith) | inr high ↦ high ],
  )
  IsNext-nearer (some n) behind inside (far, inside', room, nearest) = (
    omega arith,
    omega arith,
    (inr (omega arith), HasRoom-less data_offset n (min h.header_offset n) hs (omega arith) room),
    λ end (place, rest).
        let near = nearest end rest in
        elim place [ inl low ↦ absurd (omega arith) | inr high ↦ omega arith ],
  )

  IsNext-skip :
      (o : Option ℕ)
      → h.header_offset ≤ data_offset
      → IsNext data_offset size hs o
      → IsNext data_offset size (h ∷ hs) o
  IsNext-skip none low all = λ end. (inl low, all end)
  IsNext-skip (some n) low (far, inside, room, nearest) =
      (far, inside, (inl low, room), λ end (place, rest). nearest end rest)

pub next_hdu_start-IsNext :
    (data_offset size : ℕ) (hs : List HduOffsets)
    → IsInside size hs
    → IsNext data_offset size hs (next_hdu_start data_offset hs)
unfolding next_hdu_start
next_hdu_start-IsNext data_offset size [] inside = λ end. tt
next_hdu_start-IsNext data_offset size (h ∷ hs) (here, inside) =
    let rest = next_hdu_start-IsNext data_offset size hs inside in
    elim (dec_lt data_offset h.header_offset) [
      | yes behind ↦
          let t : ltb data_offset h.header_offset ≡ true = ground arith in
          rw t
            (IsNext-nearer data_offset size h hs (next_hdu_start data_offset hs) behind here rest)
      | no before ↦
          let t : ltb data_offset h.header_offset ≡ false = ground arith in
          rw t
            (IsNext-skip data_offset size h hs (next_hdu_start data_offset hs) (omega arith) rest)
    ]

-- The HDUs from `next` on are moved by `delta`, and the others lie before the data.
pub HasRoom-shift :
    (data_offset next delta size : ℕ) (hs : List HduOffsets)
    → size + delta < 2 ^ 63
    → data_offset < next
    → IsInside size hs
    → HasRoom data_offset next hs
    → HasRoom data_offset
        (next + delta)
        (map (shift_offsets (λ (offset : ℕ). add_u64 offset delta) next) hs)
HasRoom-shift data_offset next delta size [] small far inside room = tt
HasRoom-shift data_offset next delta size (h ∷ hs) small far (here, inside) (place, room) = (
  elim place [
    | inl low ↦ let t : leb next h.header_offset ≡ false = ground arith in rw t (inl low)
    | inr high ↦ let t : leb next h.header_offset ≡ true = ground arith in rw t (inr (omega arith))
  ],
  HasRoom-shift data_offset next delta size hs small far inside room,
)
