-- ===== src/Checksum/Stream.antt =====
-- checksum.rs, `ChecksumStream`: the sum does not depend on how the bytes are cut.
use rustfits.Prelude.{
  drop_all, ℕ, ◌+◌, ◌-◌, ◌*◌, ◌/◌, ◌^◌, ◌≤◌, ◌<◌, ◌≡◌, refl, sym, ap, ◌∙◌, List, [], ◌∷◌, ◌++◌,
  length, take, drop, All, ◌==◌, ltb, IsByte, IsU32, arith, append-nil, append_assoc,
  take-append-drop, length-take, length-drop, length-append, All-append, All-take, All-drop,
  Bool-cases, inl, inr,
}
use mathlib.Core.List.{flatten}
use rustfits.Checksum.{
  compute_checksum_bytes, ChecksumStream, new_stream, feed_whole, feed_carried, feed, finish,
}
use rustfits.Checksum.Carry.{ones_sum, ones_sum-add, ones_sum_u32, ones_sum-lt}
use rustfits.Checksum.Sum.{
  word_sum-append_whole, take-word_sum-zero, hi_sum, lo_sum, word_sum,
  compute_checksum_bytes-ones_sum, compute_checksum_bytes-IsU32,
}

-- The bytes fed so far are `whole`, summed into the seed, and the carry.
record Holds (seed : ℕ) (fed : List ℕ) (s : ChecksumStream) : Type 0 where
  words : ℕ
  whole : List ℕ
  whole_length : length whole ≡ 4 * words
  carry_short : length s.carry < 4
  split : fed ≡ whole ++ s.carry
  summed : s.seed ≡ ones_sum (seed + word_sum whole)
  in_range : IsU32 s.seed
  bytes : All IsByte s.carry

abbrev whole_length : List ℕ → ℕ
whole_length rest = length rest / 4 * 4

feed_whole-carry :
    (s : ℕ) (rest : List ℕ) → (feed_whole s rest).carry ≡ drop (whole_length rest) rest
unfolding feed_whole
feed_whole-carry s rest = elim (Bool-cases (ltb (whole_length rest) (length rest))) [
  | inl e ↦ rw e
  | inr e ↦ rw e (sym (drop_all (whole_length rest) rest (ground arith)))
]

feed_whole-seed :
    (s : ℕ) (rest : List ℕ)
    → IsU32 s
    → All IsByte rest
    → length rest ≤ 2 ^ 18
    → (feed_whole s rest).seed ≡ ones_sum (s + word_sum (take (whole_length rest) rest))
unfolding feed_whole
feed_whole-seed s rest u p n = elim (Bool-cases (ltb 0 (whole_length rest))) [
  | inl e ↦ rw e (
      compute_checksum_bytes-ones_sum s (take (whole_length rest) rest) u (All-take IsByte _ rest p)
        (omega (arith, length-take (whole_length rest) rest)))
  | inr e ↦
      let nothing = take-word_sum-zero (whole_length rest) rest (ground arith) in
      rw e (sym (ap ones_sum (omega arith) ∙ ones_sum_u32 s u))
]

-- Once the carry is summed, the whole words of the rest join the words, and the others are carried.
feed_whole-Holds :
    (seed s w : ℕ) (whole rest : List ℕ)
    → length whole ≡ 4 * w
    → s ≡ ones_sum (seed + word_sum whole)
    → IsU32 s
    → All IsByte rest
    → length rest ≤ 2 ^ 18
    → Holds seed (whole ++ rest) (feed_whole s rest)
feed_whole-Holds seed s w whole rest e sum u p n =
    let k = whole_length rest in
    let front = take k rest in
    let taken = length-take k rest in
    let joined = length-append whole front in
    let next = feed_whole-seed s rest u p n in
    let carried = feed_whole-carry s rest in
    record {
      words = w + length rest / 4;
      whole = whole ++ front;
      whole_length = omega arith;
      carry_short = rw carried (omega (arith, length-drop k rest));
      split = rw (carried, append_assoc) (ap (◌++◌ whole) (sym (take-append-drop k rest)));
      summed =
          next
          ∙ ap (λ (t : ℕ). ones_sum (t + word_sum front)) sum
          ∙ ones_sum-add (seed + word_sum whole) (word_sum front)
          ∙ ap ones_sum (omega (arith, word_sum-append_whole w whole front e));
      in_range = rw next (ones_sum-lt _);
      bytes = rw carried (All-drop IsByte k rest p);
    }

feed_carried-Holds :
    (seed s w : ℕ) (whole carry bytes : List ℕ)
    → length whole ≡ 4 * w
    → s ≡ ones_sum (seed + word_sum whole)
    → IsU32 s
    → length carry < 4
    → All IsByte carry
    → All IsByte bytes
    → length bytes ≤ 2 ^ 18
    → Holds seed ((whole ++ carry) ++ bytes) (feed_carried s carry bytes)
unfolding feed_carried
feed_carried-Holds seed s w whole carry bytes e sum u c pc pb n =
    let need = 4 - length carry in
    let stitched = carry ++ take need bytes in
    let joined = length-append carry (take need bytes) in
    let taken = length-take need bytes in
    elim (Bool-cases (ltb (length bytes) need)) [
      | inl short ↦
          rw (short, append_assoc)
            (record {
              words = w;
              whole = whole;
              whole_length = e;
              carry_short = ground (arith, length-append carry bytes);
              split = refl;
              summed = sum;
              in_range = u;
              bytes = All-append IsByte carry bytes pc pb;
            })
      | inr long ↦
          let full : length stitched ≡ 4 = ground arith in
          let p = All-append IsByte carry (take need bytes) pc (All-take IsByte need bytes pb) in
          let next = compute_checksum_bytes-ones_sum s stitched u p (omega arith) in
          let whole' = whole ++ stitched in
          let regroup : (whole ++ carry) ++ bytes ≡ whole' ++ drop need bytes =
            ap (◌++◌ (whole ++ carry)) (sym (take-append-drop need bytes)) ∙ simp append_assoc in
          rw (long, regroup)
            (feed_whole-Holds seed (compute_checksum_bytes s stitched) (w + 1) whole'
              (drop need bytes) (omega (arith, length-append whole stitched))
              (next
                ∙ ap (λ (t : ℕ). ones_sum (t + word_sum stitched)) sum
                ∙ ones_sum-add (seed + word_sum whole) (word_sum stitched)
                ∙ ap ones_sum (omega (arith, word_sum-append_whole w whole stitched e)))
              (compute_checksum_bytes-IsU32 s stitched u) (All-drop IsByte need bytes pb)
              (omega (arith, length-drop need bytes)))
    ]

nil_of_length : (xs : List ℕ) → length xs ≡ 0 → xs ≡ []
nil_of_length [] h = refl
nil_of_length (x ∷ xs) h = absurd (omega arith)

feed-Holds :
    (seed : ℕ) (fed bytes : List ℕ) (s : ChecksumStream)
    → Holds seed fed s
    → All IsByte bytes
    → length bytes ≤ 2 ^ 18
    → Holds seed (fed ++ bytes) (feed s bytes)
unfolding feed
feed-Holds seed fed bytes s h p n = elim (Bool-cases (length bytes == 0)) [
  | inl e ↦ rw (e, nil_of_length bytes (ground arith), append-nil) h
  | inr e ↦ elim (Bool-cases (ltb 0 (length s.carry))) [
    | inl c ↦
        rw (e, c, h.split)
          (feed_carried-Holds seed s.seed h.words h.whole s.carry bytes h.whole_length h.summed
            h.in_range h.carry_short h.bytes p n)
    | inr c ↦
        let none_carried = nil_of_length s.carry (ground arith) in
        rw (e, c, h.split, none_carried, append-nil)
          (feed_whole-Holds seed s.seed h.words h.whole bytes h.whole_length h.summed h.in_range p
            n)
  ]
]

new_stream-Holds : (seed : ℕ) → IsU32 seed → Holds seed [] (new_stream seed)
unfolding new_stream hi_sum lo_sum
new_stream-Holds seed u = record {
  words = 0;
  whole = [];
  whole_length = refl;
  carry_short = omega arith;
  split = refl;
  summed = sym (ap ones_sum (omega arith) ∙ ones_sum_u32 seed u);
  in_range = u;
  bytes = tt;
}

finish-Holds :
    (seed : ℕ) (fed : List ℕ) (s : ChecksumStream)
    → Holds seed fed s
    → finish s ≡ ones_sum (seed + word_sum fed)
unfolding finish
finish-Holds seed fed s h = elim (Bool-cases (ltb 0 (length s.carry))) [
  | inl c ↦
      rw (c, h.split)
        (compute_checksum_bytes-ones_sum s.seed s.carry h.in_range h.bytes
            (omega (arith, h.carry_short))
          ∙ ap (λ (t : ℕ). ones_sum (t + word_sum s.carry)) h.summed
          ∙ ones_sum-add (seed + word_sum h.whole) (word_sum s.carry)
          ∙ ap ones_sum
              (omega (arith, word_sum-append_whole h.words h.whole s.carry h.whole_length)))
  | inr c ↦
      let none_carried = nil_of_length s.carry (ground arith) in
      rw (c, h.split, none_carried, append-nil) h.summed
]

-- `feed` over the chunks in turn.
unfoldable pub feed_all : ChecksumStream → List (List ℕ) → ChecksumStream
feed_all s [] = s
feed_all s (chunk ∷ chunks) = feed_all (feed s chunk) chunks

abbrev pub IsChunk : List ℕ → Type 0
IsChunk chunk = All IsByte chunk × (length chunk ≤ 2 ^ 18)

feed_all-Holds :
    (seed : ℕ) (fed : List ℕ) (chunks : List (List ℕ)) (s : ChecksumStream)
    → Holds seed fed s
    → All IsChunk chunks
    → Holds seed (fed ++ flatten chunks) (feed_all s chunks)
unfolding feed_all flatten
feed_all-Holds seed fed [] s h p = rw append-nil h
feed_all-Holds seed fed (chunk ∷ chunks) s h ((b, n), ps) = rw (← append_assoc) (
    feed_all-Holds seed (fed ++ chunk) chunks (feed s chunk) (feed-Holds seed fed chunk s h b n) ps)

-- However the bytes are cut into chunks of at most 2^18 bytes, empty ones and ones that end inside a
-- word included, the stream finishes with the 1's-complement sum of the seed and all the words.
pub finish-feed_all :
    (seed : ℕ) (chunks : List (List ℕ))
    → IsU32 seed
    → All IsChunk chunks
    → finish (feed_all (new_stream seed) chunks) ≡ ones_sum (seed + word_sum (flatten chunks))
finish-feed_all seed chunks u p =
    finish-Holds seed (flatten chunks) _
      (feed_all-Holds seed [] chunks _ (new_stream-Holds seed u) p)
