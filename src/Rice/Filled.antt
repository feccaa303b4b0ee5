-- ===== src/Rice/Filled.antt =====
-- zimage/rice.rs: the bits that the decoder's buffer stands for.
use rustfits.Prelude.{
  ℕ, ◌+◌, ◌-◌, ◌*◌, ◌%◌, ◌^◌, ◌≤◌, ◌<◌, ◌≡◌, refl, sym, ap, ◌∙◌, ◌⊎◌, inl, inr, true, false, leb,
  bit_or, bit_or_fields, two_pow_pos, List, [], ◌∷◌, ◌++◌, append_assoc, All, IsByte, length, arith,
}
use native.Mathlib.Nat.{mod-eq_of_lt, mul-lt-mul_of_pos_right, pow-le-pow_right}
use native.Mathlib.Decide.{dec_le}
use rustfits.Rice.Digits.{to_bits, byte_bits, to_bits-add, two_pow_add}
use rustfits.Rice.Written.{two_fields}
use rustfits.Rice.Buffer.{Buffer, from_be, refill_words, refill_bytes, refill}

-- What is to be read: the first `nbits` bits of `buf`, the number `high`, and then the bytes.
pub record Holds (s : Buffer) (bits : List ℕ) : Type 0 where
  pub high : ℕ
  pub room : s.nbits ≤ 64
  pub value : s.buf ≡ high * 2 ^ (64 - s.nbits)
  pub small : high < 2 ^ s.nbits
  pub stream : bits ≡ to_bits s.nbits high ++ byte_bits s.rest
  pub bytes : All IsByte s.rest

-- A chunk of `k` bits behind those of the buffer.
push_lem :
    (nbits k high w : ℕ)
    → nbits + k ≤ 64
    → w < 2 ^ k
    → bit_or (high * 2 ^ (64 - nbits)) (w * 2 ^ (64 - k - nbits) % 2 ^ 64)
      ≡ (high * 2 ^ k + w) * 2 ^ (64 - (nbits + k))
push_lem nbits k high w room small =
    let m = 64 - (nbits + k) in
    let same : 64 - k - nbits ≡ m = omega arith in
    let parts : 64 - nbits ≡ k + m = omega arith in
    let split = two_pow_add k m in
    let field : w * 2 ^ m < 2 ^ (k + m) =
      rw split (mul-lt-mul_of_pos_right small (two_pow_pos m)) in
    let word : 2 ^ (k + m) ≤ 2 ^ 64 =
      pow-le-pow_right {n = 2} (omega arith) {i = k + m} {j = 64} (omega arith) in
    let in_word : w * 2 ^ m % 2 ^ 64 ≡ w * 2 ^ m = mod-eq_of_lt (omega arith) in
    rw (same, parts, in_word)
      (bit_or_fields (k + m) high (w * 2 ^ m) field ∙ rw split (omega arith))

pushed-Holds :
    (buf nbits k high w : ℕ) (rest bits : List ℕ)
    → buf ≡ high * 2 ^ (64 - nbits)
    → nbits + k ≤ 64
    → high < 2 ^ nbits
    → w < 2 ^ k
    → bits ≡ to_bits nbits high ++ (to_bits k w ++ byte_bits rest)
    → All IsByte rest
    → Holds
        (record {
          buf = bit_or buf (w * 2 ^ (64 - k - nbits) % 2 ^ 64);
          nbits = nbits + k;
          rest = rest;
        })
        bits
pushed-Holds buf nbits k high w rest bits value room small small' stream bytes = record {
  high = high * 2 ^ k + w;
  room = room;
  value = rw value (push_lem nbits k high w room small');
  small = two_fields nbits k high w small small';
  stream =
      stream
      ∙ sym (append_assoc (to_bits nbits high) (to_bits k w) (byte_bits rest))
      ∙ ap (λ (t : List ℕ). t ++ byte_bits rest) (sym (to_bits-add nbits k high w small'));
  bytes = bytes;
}

word_bits :
    (a b c d : ℕ)
    → IsByte a
    → IsByte b
    → IsByte c
    → IsByte d
    → to_bits 32 (from_be a b c d) ≡ to_bits 8 a ++ (to_bits 8 b ++ (to_bits 8 c ++ to_bits 8 d))
word_bits a b c d ha hb hc hd =
    to_bits-add 24 8 ((a * 256 + b) * 256 + c) d hd
    ∙ ap (λ (t : List ℕ). t ++ to_bits 8 d)
        (to_bits-add 16 8 (a * 256 + b) c hc
          ∙ ap (λ (t : List ℕ). t ++ to_bits 8 c) (to_bits-add 8 8 a b hb))

refill_words-Holds :
    (buf nbits : ℕ) (rest bits : List ℕ)
    → Holds (record { buf = buf; nbits = nbits; rest = rest }) bits
    → Holds (refill_words buf nbits rest) bits
      × (length (refill_words buf nbits rest).rest ≤ length rest)
unfolding refill_words
refill_words-Holds buf nbits [] bits h = (h, omega arith)
refill_words-Holds buf nbits (a ∷ []) bits h = (h, omega arith)
refill_words-Holds buf nbits (a ∷ b ∷ []) bits h = (h, omega arith)
refill_words-Holds buf nbits (a ∷ b ∷ c ∷ []) bits h = (h, omega arith)
refill_words-Holds buf nbits (a ∷ b ∷ c ∷ d ∷ rest) bits h = elim (dec_le nbits 32) [
  | no full ↦ let t : leb nbits 32 ≡ false = ground arith in rw t (h, omega arith)
  | yes few ↦
      let t : leb nbits 32 ≡ true = ground arith in
      let w = from_be a b c d in
      let (ha, (hb, (hc, (hd, hs)))) = h.bytes in
      let stream : bits ≡ to_bits nbits h.high ++ (to_bits 32 w ++ byte_bits rest) =
        h.stream
        ∙ ap (λ (l : List ℕ). to_bits nbits h.high ++ (l ++ byte_bits rest))
            (sym (word_bits a b c d ha hb hc hd)) in
      let pushed =
        pushed-Holds buf nbits 32 h.high w rest bits h.value (omega arith) h.small (omega arith)
          stream hs in
      let (more, less) =
        refill_words-Holds (bit_or buf (w * 2 ^ (32 - nbits) % 2 ^ 64)) (nbits + 32) rest bits
          pushed in
      rw t (more, omega arith)
]

-- The buffer is full, or has all that is left.
abbrev pub IsReady : Buffer → Type 0
IsReady s = (56 < s.nbits) ⊎ (s.rest ≡ [])

refill_bytes-Holds :
    (buf nbits : ℕ) (rest bits : List ℕ)
    → Holds (record { buf = buf; nbits = nbits; rest = rest }) bits
    → Holds (refill_bytes buf nbits rest) bits
      × IsReady (refill_bytes buf nbits rest)
      × (length (refill_bytes buf nbits rest).rest ≤ length rest)
unfolding refill_bytes
refill_bytes-Holds buf nbits [] bits h = (h, inr refl, omega arith)
refill_bytes-Holds buf nbits (a ∷ rest) bits h = elim (dec_le nbits 56) [
  | no full ↦
      let t : leb nbits 56 ≡ false = ground arith in rw t (h, inl (omega arith), omega arith)
  | yes few ↦
      let t : leb nbits 56 ≡ true = ground arith in
      let (ha, hs) = h.bytes in
      let pushed =
        pushed-Holds buf nbits 8 h.high a rest bits h.value (omega arith) h.small ha h.stream hs in
      let (more, ready, less) =
        refill_bytes-Holds (bit_or buf (a * 2 ^ (56 - nbits) % 2 ^ 64)) (nbits + 8) rest bits
          pushed in
      rw t (more, ready, omega arith)
]

pub refill-Holds :
    (s : Buffer) (bits : List ℕ)
    → Holds s bits
    → Holds (refill s) bits × IsReady (refill s) × (length (refill s).rest ≤ length s.rest)
unfolding refill
refill-Holds s bits h =
    let t = refill_words s.buf s.nbits s.rest in
    let (words, less) = refill_words-Holds s.buf s.nbits s.rest bits h in
    let (bytes, ready, less') = refill_bytes-Holds t.buf t.nbits t.rest bits words in
    (bytes, ready, omega arith)
