-- ===== src/Gzip/Swap.antt =====
-- common.rs: `byteswap_in_place` on whole words.
use rustfits.Prelude.{
  ℕ, zero, suc, ◌≤◌, ◌<◌, ◌≡◌, refl, sym, ap, ◌∙◌, true, false, ◌==◌, ◌||◌, ltb, List, [], ◌∷◌,
  ◌++◌, map, length, length-append, take, drop, All, arith,
}
use native.Mathlib.Decide.{dec_lt}
use mathlib.Core.List.{reverse, flatten}
use rustfits.Gzip.{reverse_chunks, reverse_chunks_fuel, byteswap_in_place, is_bytepix}

take-append : (xs ys : List ℕ) → take (length xs) (xs ++ ys) ≡ xs
take-append [] ys = refl
take-append (x ∷ xs) ys = ap (◌∷◌ x) (take-append xs ys)

drop-append : (xs ys : List ℕ) → drop (length xs) (xs ++ ys) ≡ ys
drop-append [] ys = refl
drop-append (x ∷ xs) ys = drop-append xs ys

-- Every word has `size` bytes.
abbrev pub HasSize : ℕ → List (List ℕ) → Type 0
HasSize size ws = All (λ (w : List ℕ). length w ≡ size) ws

reverse_chunks_fuel-flatten :
    (fuel size : ℕ) (ws : List (List ℕ))
    → 0 < size
    → HasSize size ws
    → length (flatten ws) ≤ fuel
    → reverse_chunks_fuel fuel size (flatten ws) ≡ flatten (map reverse ws)
unfolding flatten
reverse_chunks_fuel-flatten zero size [] pos h enough = refl
reverse_chunks_fuel-flatten (suc fuel) size [] pos h enough =
    let short : ltb 0 size ≡ true = ground arith in rw short refl
reverse_chunks_fuel-flatten zero size (w ∷ ws) pos (h, hs) enough =
    absurd (omega (arith, length-append w (flatten ws)))
reverse_chunks_fuel-flatten (suc fuel) size (w ∷ ws) pos (h, hs) enough =
    let len = length-append w (flatten ws) in
    let whole : ltb (length (w ++ flatten ws)) size ≡ false = ground (arith, len) in
    let first : take size (w ++ flatten ws) ≡ w =
      ap (λ (k : ℕ). take k (w ++ flatten ws)) (sym h) ∙ take-append w (flatten ws) in
    let others : drop size (w ++ flatten ws) ≡ flatten ws =
      ap (λ (k : ℕ). drop k (w ++ flatten ws)) (sym h) ∙ drop-append w (flatten ws) in
    rw (whole, first, others)
      (ap (λ (t : List ℕ). reverse w ++ t)
        (reverse_chunks_fuel-flatten fuel size ws pos hs (omega arith)))

reverse_chunks-flatten :
    (size : ℕ) (ws : List (List ℕ))
    → 0 < size
    → HasSize size ws
    → reverse_chunks size (flatten ws) ≡ flatten (map reverse ws)
unfolding reverse_chunks
reverse_chunks-flatten size ws pos h =
    reverse_chunks_fuel-flatten (length (flatten ws)) size ws pos h (omega arith)

-- A word of at most one byte is its own reverse.
pub map-reverse_bytes : (ws : List (List ℕ)) → HasSize 1 ws → map reverse ws ≡ ws
map-reverse_bytes [] h = refl
map-reverse_bytes ([] ∷ ws) (h, hs) = absurd (omega arith)
map-reverse_bytes ((x ∷ []) ∷ ws) (h, hs) = ap (◌∷◌ (x ∷ [])) (map-reverse_bytes ws hs)
map-reverse_bytes ((x ∷ y ∷ zs) ∷ ws) (h, hs) = absurd (omega arith)

-- In a buffer that is aligned, the bytes of each word end up reversed, for the sizes 1, 2, 4 and 8.
pub byteswap_in_place-flatten :
    (size : ℕ) (ws : List (List ℕ))
    → is_bytepix size ≡ true
    → HasSize size ws
    → byteswap_in_place 0 (flatten ws) size ≡ flatten (map reverse ws)
unfolding byteswap_in_place reverse_chunks
byteswap_in_place-flatten size ws known h = elim (dec_lt 1 size) [
  | yes word ↦
      let not_byte : ((size == 0) || (size == 1)) ≡ false = ground arith in
      let is_word : ((size == 2) || (size == 4) || (size == 8)) ≡ true = ground (arith, known) in
      rw (not_byte, is_word) (reverse_chunks-flatten size ws (omega arith) h)
  | no byte ↦
      let one : size ≡ 1 = ground (arith, known) in
      rw one (ap flatten (sym (map-reverse_bytes ws (rw⁻¹ one h))))
]
