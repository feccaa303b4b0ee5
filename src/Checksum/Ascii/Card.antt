-- ===== src/Checksum/Ascii/Card.antt =====
-- checksum.rs, `cards_with_checksum`: why the encoded complement in the CHECKSUM card makes the sum of
-- the whole unit 0xFFFFFFFF.
use rustfits.Prelude.{
  Bool, false, ok, ◌<◌, min, take, drop, ℕ, zero, suc, ◌+◌, ◌-◌, ◌*◌, ◌^◌, ◌≤◌, ◌≡◌, refl, ap, ◌∙◌,
  true, List, [], ◌∷◌, ◌++◌, length, All, IsByte, IsU32, arith, length-append, All-append, get_or,
}
use rustfits.Storage.{Backend, is_remote}
use rustfits.Storage.World.{World, at}
use rustfits.Checksum.Section.{stream_data_section_checksum, stream_data_section_checksum-ones_sum}
use rustfits.Checksum.{compute_checksum_bytes, ones_complement_add}
use rustfits.Checksum.Sum.{
  hi_sum, lo_sum, word_sum, compute_checksum_bytes-ones_sum, ones_complement_add-ones_sum,
  compute_checksum_bytes-IsU32,
}
use rustfits.Checksum.Carry.{ones_sum, ones_sum-add, ones_sum-lt}
use rustfits.Checksum.Ascii.{
  Quartet, interleave, rotate, encode_value, encode_checksum_ascii, not_u32, checksum_chars,
}
use rustfits.Checksum.Ascii.RoundTrip.{InRange-of_settled, Encoded, encode_value-Encoded}

abbrev hi_chars : List ℕ → ℕ
hi_chars e =
    (get_or e 1 0 + get_or e 5 0 + get_or e 9 0 + get_or e 13 0) * 256
    + (get_or e 2 0 + get_or e 6 0 + get_or e 10 0 + get_or e 14 0)

abbrev lo_chars : List ℕ → ℕ
lo_chars e =
    (get_or e 3 0 + get_or e 7 0 + get_or e 11 0 + get_or e 15 0) * 256
    + (get_or e 0 0 + get_or e 4 0 + get_or e 8 0 + get_or e 12 0)

abbrev pub sixteen : ℕ → List ℕ
sixteen c = c ∷ c ∷ c ∷ c ∷ c ∷ c ∷ c ∷ c ∷ c ∷ c ∷ c ∷ c ∷ c ∷ c ∷ c ∷ c ∷ []

-- The sums with the 16 characters behind a prefix that ends one byte short of a word.
record Placed (pre e post : List ℕ) : Type 0 where
  hi_part : hi_sum (pre ++ (e ++ post)) ≡ hi_sum (pre ++ (sixteen 0 ++ post)) + hi_chars e
  lo_part : lo_sum (pre ++ (e ++ post)) ≡ lo_sum (pre ++ (sixteen 0 ++ post)) + lo_chars e

Placed-first :
    (x y z a b c d e f g h i j k l m n o p : ℕ) (post : List ℕ)
    → Placed
        (x ∷ y ∷ z ∷ [])
        (a ∷ b ∷ c ∷ d ∷ e ∷ f ∷ g ∷ h ∷ i ∷ j ∷ k ∷ l ∷ m ∷ n ∷ o ∷ p ∷ [])
        post
unfolding hi_sum lo_sum
Placed-first x y z a b c d e f g h i j k l m n o p [] = omega arith
Placed-first x y z a b c d e f g h i j k l m n o p (w ∷ post) = omega arith

-- Whole words in front change nothing of that.
Placed-behind :
    (k : ℕ) (pre e post : List ℕ)
    → length pre ≡ 4 * k + 3
    → ((x y z : ℕ) → Placed (x ∷ y ∷ z ∷ []) e post)
    → Placed pre e post
unfolding hi_sum lo_sum
Placed-behind zero (x ∷ y ∷ z ∷ []) e post h first = first x y z
Placed-behind (suc k) (a ∷ b ∷ c ∷ d ∷ pre) e post h first =
    let more = Placed-behind k pre e post (omega arith) first in
    record { hi_part = omega (arith, more.hi_part); lo_part = omega (arith, more.lo_part) }
Placed-behind k pre e post h first = absurd (omega arith)

zeros-Placed : (k : ℕ) (pre post : List ℕ) → length pre ≡ 4 * k + 3 → Placed pre (sixteen 0x30) post
zeros-Placed k pre post h =
    Placed-behind k pre (sixteen 0x30) post h
      (λ x y z. Placed-first x y z _ _ _ _ _ _ _ _ _ _ _ _ _ _ _ _ post)

chars-Placed :
    (k : ℕ) (pre post : List ℕ) (p q r s : Quartet)
    → length pre ≡ 4 * k + 3
    → Placed pre (rotate (interleave p q r s)) post
chars-Placed k pre post p q r s h =
    Placed-behind k pre (rotate (interleave p q r s)) post h
      (λ x y z. Placed-first x y z _ _ _ _ _ _ _ _ _ _ _ _ _ _ _ _ post)

Encoded-adds :
    {v : ℕ} {p q r s : Quartet}
    → IsU32 v
    → Encoded v p q r s
    → (hi_chars (rotate (interleave p q r s)) * 2 ^ 16 + lo_chars (rotate (interleave p q r s)))
      ≡ hi_chars (sixteen 0x30) * 2 ^ 16 + lo_chars (sixteen 0x30) + v
Encoded-adds {v} u e =
    let P = InRange-of_settled e.p_settled in
    let Q = InRange-of_settled e.q_settled in
    let R = InRange-of_settled e.r_settled in
    let S = InRange-of_settled e.s_settled in
    omega (
      arith, P, Q, R, S, e.p_settled.total, e.q_settled.total, e.r_settled.total, e.s_settled.total,
    )

written_adds :
    {v : ℕ} {p q r s : Quartet} (k : ℕ) (pre post : List ℕ)
    → IsU32 v
    → length pre ≡ 4 * k + 3
    → Encoded v p q r s
    → word_sum (pre ++ (encode_value v ++ post)) ≡ word_sum (pre ++ (sixteen 0x30 ++ post)) + v
written_adds {v} {p} {q} {r} {s} k pre post u h e =
    let zeros = zeros-Placed k pre post h in
    let chars = chars-Placed k pre post p q r s h in
    rw e.written
      (omega (arith, zeros.hi_part, zeros.lo_part, chars.hi_part, chars.lo_part, Encoded-adds u e))

-- The characters of `v` add exactly `v` to what the placeholder of 16 zeros adds.
encode_value-adds :
    (v k : ℕ) (pre post : List ℕ)
    → IsU32 v
    → length pre ≡ 4 * k + 3
    → word_sum (pre ++ (encode_value v ++ post)) ≡ word_sum (pre ++ (sixteen 0x30 ++ post)) + v
encode_value-adds v k pre post u h = written_adds k pre post u h (encode_value-Encoded v)

-- A sum and the complement of another form of it make the largest word.
ones_sum-not_u32 : (v : ℕ) → ones_sum (v + not_u32 (ones_sum v)) ≡ 2 ^ 32 - 1
unfolding ones_sum
ones_sum-not_u32 v = ground arith

encode_checksum_ascii-complement :
    (sum : ℕ) → encode_checksum_ascii sum true ≡ encode_value (not_u32 sum)
unfolding encode_checksum_ascii
encode_checksum_ascii-complement sum = refl

checksum_chars-ones_sum :
    (bytes : List ℕ) (data_sum : ℕ)
    → All IsByte bytes
    → length bytes ≤ 2 ^ 18
    → checksum_chars bytes (ones_sum data_sum)
      ≡ encode_value (not_u32 (ones_sum (word_sum bytes + data_sum)))
unfolding checksum_chars
checksum_chars-ones_sum bytes data_sum b n =
    let hsum = compute_checksum_bytes 0 bytes in
    let header = compute_checksum_bytes-ones_sum 0 bytes (omega arith) b n in
    let sum_swap : ones_sum data_sum + word_sum bytes ≡ word_sum bytes + ones_sum data_sum =
      omega arith in
    let total : ones_complement_add hsum (ones_sum data_sum)
        ≡ ones_sum (word_sum bytes + data_sum) =
      ones_complement_add-ones_sum hsum (ones_sum data_sum)
        (compute_checksum_bytes-IsU32 0 bytes (omega arith)) (ones_sum-lt data_sum)
      ∙ ap (λ (t : ℕ). ones_sum (t + ones_sum data_sum)) header
      ∙ ones_sum-add (0 + word_sum bytes) (ones_sum data_sum)
      ∙ ap ones_sum (omega arith)
      ∙ ones_sum-add data_sum (word_sum bytes)
      ∙ ap ones_sum (omega arith) in
    encode_checksum_ascii-complement (ones_complement_add hsum (ones_sum data_sum))
    ∙ ap (λ (t : ℕ). encode_value (not_u32 t)) total

encode_value-IsByte : (v : ℕ) → All IsByte (encode_value v)
unfolding encode_value
encode_value-IsByte v = omega arith

length-encode_value : (v : ℕ) → length (encode_value v) ≡ 16
unfolding encode_value
length-encode_value v = refl

-- The written header and the data, summed as verification does.
verified :
    (v : ℕ) (after : List ℕ) (before_sum data_sum : ℕ)
    → v ≡ not_u32 (ones_sum (before_sum + data_sum))
    → All IsByte after
    → length after ≤ 2 ^ 18
    → word_sum after ≡ before_sum + v
    → ones_sum (compute_checksum_bytes 0 after + data_sum) ≡ 0xffff_ffff
verified v after before_sum data_sum e b n sum =
    ap (λ (t : ℕ). ones_sum (t + data_sum))
      (compute_checksum_bytes-ones_sum 0 after (omega arith) b n)
    ∙ ones_sum-add (0 + word_sum after) data_sum
    ∙ ap ones_sum (omega arith)
    ∙ ones_sum-not_u32 (before_sum + data_sum)

written_header-sum :
    (k data_sum : ℕ) (pre post : List ℕ)
    → length pre ≡ 4 * k + 3
    → All IsByte pre
    → All IsByte post
    → length pre + 16 + length post ≤ 2 ^ 18
    → ones_sum (
        compute_checksum_bytes 0
          (pre ++ (checksum_chars (pre ++ (sixteen 0x30 ++ post)) (ones_sum data_sum) ++ post))
        + data_sum)
      ≡ 0xffff_ffff
written_header-sum k data_sum pre post h bpre bpost n =
    let zeros = sixteen 0x30 ++ post in
    let before = pre ++ zeros in
    let v = not_u32 (ones_sum (word_sum before + data_sum)) in
    let zeros_bytes = All-append IsByte (sixteen 0x30) post (omega arith) bpost in
    let before_length = length-append pre zeros in
    let chars =
      checksum_chars-ones_sum before data_sum (All-append IsByte pre zeros bpre zeros_bytes)
        (omega arith) in
    let after_length = length-append pre (encode_value v ++ post) in
    let tail_length = length-append (encode_value v) post in
    let after_bytes =
      All-append IsByte pre (encode_value v ++ post) bpre
        (All-append IsByte (encode_value v) post (encode_value-IsByte v) bpost) in
    rw chars (
      verified v (pre ++ (encode_value v ++ post)) (word_sum before) data_sum refl after_bytes
        (omega (arith, length-encode_value v)) (encode_value-adds v k pre post (omega arith) h))

-- A header unit of `pre`, 16 characters and `post`, where the characters start one byte short of a
-- word, as the value of a card does, and a data section inside a file on a store that nothing fails
-- on. The data is summed from the file in chunks, and the header with a placeholder of 16 zeros in place
-- of the characters; the complement of both sums is written there instead. Verification, which sums the
-- written header and goes on with the data in the file, then ends with 0xFFFFFFFF. The header has at most
-- 2^18 bytes, and no chunk that is read has more: with the code's chunks of 2^20 bytes, the data
-- section has at most 2^18.
pub verify-checksum_chars :
    (w : World) (b : Backend) (xs : List ℕ) (p : ℕ) (d : Bool) (k chunk data_offset bytes_count : ℕ)
    (pre post : List ℕ)
    → is_remote b ≡ false
    → All IsByte xs
    → 0 < chunk
    → data_offset + bytes_count ≤ length xs
    → min bytes_count chunk ≤ 2 ^ 18
    → length pre ≡ 4 * k + 3
    → All IsByte pre
    → All IsByte post
    → length pre + 16 + length post ≤ 2 ^ 18
    → (datasum q r : ℕ) × (stream_data_section_checksum chunk data_offset bytes_count 0
          (at w b xs p d)
        ≡ (ok datasum, at w b xs q d))
      × (stream_data_section_checksum chunk data_offset bytes_count
            (compute_checksum_bytes 0
              (pre ++ (checksum_chars (pre ++ (sixteen 0x30 ++ post)) datasum ++ post)))
            (at w b xs q d)
          ≡ (ok 0xffff_ffff, at w b xs r d))
verify-checksum_chars w b xs p d k chunk data_offset bytes_count pre post local bytes pos inside
      small h bpre bpost n =
    let data_sum = word_sum (take bytes_count (drop data_offset xs)) in
    let (q, first) =
      stream_data_section_checksum-ones_sum w b local xs bytes d chunk pos p data_offset bytes_count
        0 (omega arith) inside small in
    let start : 0 + data_sum ≡ data_sum = omega arith in
    let header =
      pre ++ (checksum_chars (pre ++ (sixteen 0x30 ++ post)) (ones_sum data_sum) ++ post) in
    let (r, second) =
      stream_data_section_checksum-ones_sum w b local xs bytes d chunk pos q data_offset bytes_count
        (compute_checksum_bytes 0 header) (compute_checksum_bytes-IsU32 0 header (omega arith))
        inside small in
    (
      ones_sum data_sum,
      q,
      r,
      rw (← start) first,
      second
          ∙ ap (λ (sum : ℕ). (ok sum, at w b xs r d))
              (written_header-sum k data_sum pre post h bpre bpost n),
    )
