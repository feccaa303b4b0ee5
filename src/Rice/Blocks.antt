-- ===== src/Rice/Blocks.antt =====
-- zimage/rice.rs: the decoder at the blocks that the encoder writes.
use rustfits.Prelude.{
  ℕ, zero, suc, ◌+◌, ◌-◌, ◌*◌, ◌/◌, ◌%◌, ◌^◌, ◌<◌, ◌≤◌, ◌≡◌, refl, sym, ap, ◌∙◌, bit_and,
  bit_and_mask, bit_or, bit_or_fields, two_pow_pos, List, [], ◌∷◌, ◌++◌, append_assoc, All, IsU32,
  length, ok, arith,
}
use native.Mathlib.Nat.{mod-eq_of_lt, div-add-mod', mod-lt}
use mathlib.Core.Path.{subst}
use rustfits.Rice.Diff.{undiffs, unzigzag_u32}
use rustfits.Rice.Writer.{Field, bits_of, unary_of}
use rustfits.Rice.Stream.{field_bits, all_bits}
use rustfits.Rice.Buffer.{Buffer, take_bits, take_unary}
use rustfits.Rice.Filled.{Holds}
use rustfits.Rice.Fields.{answer, answer-Holds}
use rustfits.Rice.Tile.{last_of}
use rustfits.Rice.Encoded.{raw_fields, code_fields, codes_fields}
use rustfits.Rice.Untile.{decoded, read_raw, read_code, read_codes}

pub all_bits-append : (xs ys : List Field) → all_bits (xs ++ ys) ≡ all_bits xs ++ all_bits ys
all_bits-append [] ys = refl
all_bits-append (x ∷ xs) ys =
    ap (λ (t : List ℕ). field_bits x ++ t) (all_bits-append xs ys)
    ∙ sym (append_assoc (field_bits x) (all_bits xs) (all_bits ys))

-- Bits at the front, then the rest.
pub next_bits-Holds :
    (v n : ℕ) (fs : List Field) (s : Buffer) (more : List ℕ)
    → n ≤ 56
    → v < 2 ^ n
    → Holds s (all_bits (bits_of v n ∷ fs) ++ more)
    → (t : Buffer) × (take_bits n s ≡ ok (v, t)) × Holds t (all_bits fs ++ more)
unfolding answer
next_bits-Holds v n fs s more few small h =
    answer-Holds (bits_of v n) s (all_bits fs ++ more) (few, small)
      (subst (λ (bits : List ℕ). Holds s bits)
        (append_assoc (field_bits (bits_of v n)) (all_bits fs) more) h)

next_unary-Holds :
    (n : ℕ) (fs : List Field) (s : Buffer) (more : List ℕ)
    → n ≤ 1024
    → Holds s (all_bits (unary_of n ∷ fs) ++ more)
    → (t : Buffer) × (take_unary s ≡ ok (n, t)) × Holds t (all_bits fs ++ more)
unfolding answer
next_unary-Holds n fs s more short h = answer-Holds (unary_of n) s (all_bits fs ++ more) short (
    subst (λ (bits : List ℕ). Holds s bits)
      (append_assoc (field_bits (unary_of n)) (all_bits fs) more) h)

-- The two parts of a code.
parts_lem :
    (fs d : ℕ) → IsU32 d → bit_or (d / 2 ^ fs * 2 ^ fs % 2 ^ 32) (bit_and d (2 ^ fs - 1)) ≡ d
parts_lem fs d small =
    let low = bit_and_mask fs d in
    let parts : d / 2 ^ fs * 2 ^ fs + d % 2 ^ fs ≡ d = div-add-mod' d (2 ^ fs) in
    let below : d % 2 ^ fs < 2 ^ fs = mod-lt d (two_pow_pos fs) in
    let word : d / 2 ^ fs * 2 ^ fs % 2 ^ 32 ≡ d / 2 ^ fs * 2 ^ fs = mod-eq_of_lt (omega arith) in
    rw (low, word) (bit_or_fields fs (d / 2 ^ fs) (d % 2 ^ fs) below ∙ parts)

read_code-Holds :
    (fs d : ℕ) (s : Buffer) (more : List ℕ)
    → fs ≤ 56
    → IsU32 d
    → d / 2 ^ fs ≤ 1024
    → Holds s (all_bits (code_fields fs d) ++ more)
    → (t : Buffer) × (read_code fs s ≡ ok (d, t)) × Holds t more
unfolding read_code
read_code-Holds zero d s more few small short h =
    let (t, ran, rest) = next_unary-Holds (d / 1) [] s more short h in
    let none : bit_and d (2 ^ 0 - 1) ≡ 0 = bit_and_mask 0 d ∙ omega arith in
    let same : bit_or (d / 1 * 1 % 2 ^ 32) 0 ≡ d =
      ap (λ (z : ℕ). bit_or (d / 1 * 1 % 2 ^ 32) z) (sym none) ∙ parts_lem 0 d small in
    (t, rw ran (ap (λ (v : ℕ). ok (v, t)) same), rest)
read_code-Holds (suc fs) d s more few small short h =
    let low = bit_and d (2 ^ suc fs - 1) in
    let below : low < 2 ^ suc fs = rw (bit_and_mask (suc fs) d) (mod-lt d (two_pow_pos (suc fs))) in
    let (t, ran, rest) =
      next_unary-Holds (d / 2 ^ suc fs) (bits_of low (suc fs) ∷ []) s more short h in
    let (u, ran', rest') = next_bits-Holds low (suc fs) [] t more few below rest in
    (u, rw (ran, ran') (ap (λ (v : ℕ). ok (v, u)) (parts_lem (suc fs) d small)), rest')

-- A code that is not too long.
abbrev pub IsShort : ℕ → ℕ → Type 0
IsShort fs d = d / 2 ^ fs ≤ 1024

pub read_codes-Holds :
    (fs lastpix : ℕ) (ds : List ℕ) (s : Buffer) (more : List ℕ)
    → fs ≤ 56
    → All IsU32 ds
    → All (IsShort fs) ds
    → Holds s (all_bits (codes_fields fs ds) ++ more)
    → (t : Buffer) × (read_codes fs (length ds) lastpix s
        ≡ ok (decoded (undiffs lastpix ds) (last_of lastpix (undiffs lastpix ds)) t))
      × Holds t more
unfolding read_codes undiffs
read_codes-Holds fs lastpix [] s more few small short h = (s, refl, h)
read_codes-Holds fs lastpix (d ∷ ds) s more few (small, small') (short, short') h =
    let here = all_bits (code_fields fs d) in
    let bits = all_bits-append (code_fields fs d) (codes_fields fs ds) in
    let there = all_bits (codes_fields fs ds) in
    let (t, ran, rest) = read_code-Holds fs d s (there ++ more) few small short (
      subst (λ (bits : List ℕ). Holds s bits)
        (ap (λ (b : List ℕ). b ++ more) bits ∙ append_assoc here there more) h) in
    let next = (lastpix + unzigzag_u32 d) % 2 ^ 32 in
    let (u, ran', rest') = read_codes-Holds fs next ds t more few small' short' rest in
    (u, rw (ran, ran') refl, rest')

pub read_raw-Holds :
    (bbits lastpix : ℕ) (ds : List ℕ) (s : Buffer) (more : List ℕ)
    → bbits ≤ 56
    → All (λ (d : ℕ). d < 2 ^ bbits) ds
    → Holds s (all_bits (raw_fields bbits ds) ++ more)
    → (t : Buffer) × (read_raw bbits (length ds) lastpix s
        ≡ ok (decoded (undiffs lastpix ds) (last_of lastpix (undiffs lastpix ds)) t))
      × Holds t more
unfolding read_raw undiffs
read_raw-Holds bbits lastpix [] s more few small h = (s, refl, h)
read_raw-Holds bbits lastpix (d ∷ ds) s more few (small, small') h =
    let (t, ran, rest) = next_bits-Holds d bbits (raw_fields bbits ds) s more few small h in
    let next = (lastpix + unzigzag_u32 d) % 2 ^ 32 in
    let (u, ran', rest') = read_raw-Holds bbits next ds t more few small' rest in
    (u, rw (ran, ran') refl, rest')
