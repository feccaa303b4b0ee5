-- ===== src/Rice/Taken.antt =====
-- zimage/rice.rs: bits taken from the decoder's buffer.
use rustfits.Prelude.{
  suc-mul, add-mul, ℕ, zero, suc, ◌+◌, ◌-◌, ◌*◌, ◌/◌, ◌%◌, ◌^◌, ◌≤◌, ◌<◌, ◌≡◌, refl, sym, ap, ◌∙◌,
  inl, inr, Bool, true, false, if◌then◌else◌, ltb, two_pow_pos, List, [], ◌∷◌, ◌++◌, append_assoc,
  length, length-append, ok, arith,
}
use native.Mathlib.Nat.{
  mul_assoc, pow-suc, div-eq_of_lt-le, div-add-mod', mod-lt, div-lt_iff_lt-mul,
  mul-lt-mul_of_pos_right,
}
use native.Mathlib.Decide.{dec_lt}
use rustfits.Rice.Digits.{to_bits, byte_bits, to_bits-add, two_pow_add}
use rustfits.Rice.Buffer.{Buffer, refill, consume, take_ready, take_bits}
use rustfits.Rice.Filled.{Holds, refill-Holds}

pub length-to_bits : (n v : ℕ) → length (to_bits n v) ≡ n
length-to_bits zero v = refl
length-to_bits (suc n) v =
    omega (arith, length-append (to_bits n (v / 2)) (v % 2 ∷ []), length-to_bits n (v / 2))

pub length-byte_bits : (bytes : List ℕ) → length (byte_bits bytes) ≡ 8 * length bytes
length-byte_bits [] = refl
length-byte_bits (b ∷ bytes) = omega (
  arith,
  length-append (to_bits 8 b) (byte_bits bytes),
  length-to_bits 8 b,
  length-byte_bits bytes,
)

abbrev of_bits : ℕ → List ℕ → ℕ
of_bits acc [] = acc
of_bits acc (b ∷ bits) = of_bits (acc * 2 + b) bits

of_bits-append :
    (acc : ℕ) (bits : List ℕ) (b : ℕ) → of_bits acc (bits ++ b ∷ []) ≡ of_bits acc bits * 2 + b
of_bits-append acc [] b = refl
of_bits-append acc (c ∷ bits) b = of_bits-append (acc * 2 + c) bits b

of_bits-to_bits : (n v : ℕ) → v < 2 ^ n → of_bits 0 (to_bits n v) ≡ v
of_bits-to_bits zero v small = omega arith
of_bits-to_bits (suc n) v small =
    of_bits-append 0 (to_bits n (v / 2)) (v % 2)
    ∙ ap (λ (k : ℕ). k * 2 + v % 2) (of_bits-to_bits n (v / 2) (omega (arith, pow-suc 2 n)))
    ∙ omega arith

pub to_bits-injective : (n v w : ℕ) → v < 2 ^ n → w < 2 ^ n → to_bits n v ≡ to_bits n w → v ≡ w
to_bits-injective n v w small small' same =
    sym (of_bits-to_bits n v small) ∙ ap (of_bits 0) same ∙ of_bits-to_bits n w small'

-- Two parts of the same lengths.
pub append_injective :
    (xs ys us vs : List ℕ) → length xs ≡ length ys → xs ++ us ≡ ys ++ vs → (xs ≡ ys) × (us ≡ vs)
append_injective [] [] us vs same e = (refl, e)
append_injective [] (y ∷ ys) us vs same e = absurd (omega arith)
append_injective (x ∷ xs) [] us vs same e = absurd (omega arith)
append_injective (x ∷ xs) (y ∷ ys) us vs same e =
    let heads : x ≡ y = cc in
    let tails : xs ++ us ≡ ys ++ vs = cc in
    let (first, rest) = append_injective xs ys us vs (omega arith) tails in
    ((λ i. heads i ∷ first i), rest)

-- A word of 64 bits cut in two.
pub split_word :
    (q r left_bits below_bits above_bits buf : ℕ)
    → buf ≡ (q * left_bits + r) * below_bits
    → r < left_bits
    → 0 < below_bits
    → 0 < above_bits
    → left_bits * below_bits * above_bits ≡ 2 ^ 64
    → (buf / (left_bits * below_bits) ≡ q)
      × (buf * above_bits % 2 ^ 64 ≡ r * (below_bits * above_bits))
split_word q r L K N buf is_buf r_small pos pos' whole =
    let parts : buf ≡ q * (L * K) + r * K =
      is_buf ∙ add-mul (q * L) r K ∙ ap (λ (m : ℕ). m + r * K) (mul_assoc q L K) in
    let low : r * K < L * K = mul-lt-mul_of_pos_right r_small pos in
    let low' : r * K * N < L * K * N = mul-lt-mul_of_pos_right low pos' in
    let shifted : buf * N ≡ q * 2 ^ 64 + r * K * N =
      ap (λ (m : ℕ). m * N) parts
      ∙ add-mul (q * (L * K)) (r * K) N
      ∙ ap (λ (m : ℕ). m + r * K * N) (mul_assoc q (L * K) N ∙ ap (λ (m : ℕ). q * m) whole) in
    let next = suc-mul q (L * K) in
    (
      div-eq_of_lt-le (L * K) {m = buf} (omega arith) (omega arith),
      (let e : buf * N % 2 ^ 64 ≡ r * K * N = omega arith in e) ∙ mul_assoc r K N,
    )

module _ (s : Buffer) (n v : ℕ) (more : List ℕ) where
  -- The next `n` bits, which the buffer has.
  pub consume-Holds :
      n ≤ s.nbits
      → v < 2 ^ n
      → Holds s (to_bits n v ++ more)
      → (s.buf / 2 ^ (64 - n) ≡ v) × Holds (consume n s) more
  consume-Holds enough small h =
      let left = s.nbits - n in
      let k = 64 - s.nbits in
      let room = h.room in
      let q = h.high / 2 ^ left in
      let r = h.high % 2 ^ left in
      let parts : q * 2 ^ left + r ≡ h.high = div-add-mod' h.high (2 ^ left) in
      let r_small : r < 2 ^ left = mod-lt h.high (two_pow_pos left) in
      let width : n + left ≡ s.nbits = omega arith in
      let bits : to_bits s.nbits h.high ≡ to_bits n q ++ to_bits left r =
        ap (to_bits s.nbits) (sym parts)
        ∙ ap (λ (m : ℕ). to_bits m (q * 2 ^ left + r)) (sym width)
        ∙ to_bits-add n left q r r_small in
      let q_small : q < 2 ^ n =
        (div-lt_iff_lt-mul (two_pow_pos left)).1 (rw⁻¹ (two_pow_add n left) (rw width h.small)) in
      let streams : to_bits n v ++ more ≡ to_bits n q ++ (to_bits left r ++ byte_bits s.rest) =
        h.stream
        ∙ ap (λ (l : List ℕ). l ++ byte_bits s.rest) bits
        ∙ append_assoc (to_bits n q) (to_bits left r) (byte_bits s.rest) in
      let (first, rest) =
        append_injective (to_bits n v) (to_bits n q) more (to_bits left r ++ byte_bits s.rest)
          (length-to_bits n v ∙ sym (length-to_bits n q)) streams in
      let v_is : q ≡ v = to_bits-injective n q v q_small small (sym first) in
      let L = 2 ^ left in
      let K = 2 ^ k in
      let N = 2 ^ n in
      let buf_is : s.buf ≡ (q * L + r) * K = h.value ∙ ap (λ (m : ℕ). m * K) (sym parts) in
      let top : 2 ^ (64 - n) ≡ L * K =
        ap (λ (m : ℕ). 2 ^ m) (let e : 64 - n ≡ left + k = omega arith in e) ∙ two_pow_add left k in
      let below : 2 ^ (64 - left) ≡ K * N =
        ap (λ (m : ℕ). 2 ^ m) (let e : 64 - left ≡ k + n = omega arith in e) ∙ two_pow_add k n in
      let whole : L * K * N ≡ 2 ^ 64 =
        ap (λ (m : ℕ). m * N) (sym (two_pow_add left k))
        ∙ sym (two_pow_add (left + k) n)
        ∙ ap (λ (m : ℕ). 2 ^ m) (let e : left + k + n ≡ 64 = omega arith in e) in
      let (top_is, rest_is) =
        split_word q r L K N s.buf buf_is r_small (two_pow_pos k) (two_pow_pos n) whole in
      (
        rw top (top_is ∙ v_is),
        record {
          high = r;
          room = omega arith;
          value = rest_is ∙ ap (λ (m : ℕ). r * m) (sym below);
          small = r_small;
          stream = rest;
          bytes = h.bytes;
        },
      )

-- All bits are in the buffer or in the bytes.
pub length-Holds :
    (s : Buffer) (bits : List ℕ) → Holds s bits → length bits ≡ s.nbits + 8 * length s.rest
length-Holds s bits h =
    ap length h.stream
    ∙ length-append (to_bits s.nbits h.high) (byte_bits s.rest)
    ∙ omega (arith, length-to_bits s.nbits h.high, length-byte_bits s.rest)

take_ready-Holds :
    (n v : ℕ) (s : Buffer) (more : List ℕ)
    → n ≤ s.nbits
    → v < 2 ^ n
    → Holds s (to_bits n v ++ more)
    → (t : Buffer) × (take_ready n s ≡ ok (v, t)) × Holds t more × (length t.rest ≤ length s.rest)
take_ready-Holds n v s more enough small h =
    let t : ltb s.nbits n ≡ false = ground arith in
    let (value, rest) = consume-Holds s n v more enough small h in
    (consume n s, rw (t, value) refl, rest, omega arith)

-- At most 56 bits that are to be read next are taken, with a refill where it needs one.
pub take_bits-Holds :
    (n v : ℕ) (s : Buffer) (more : List ℕ)
    → n ≤ 56
    → v < 2 ^ n
    → Holds s (to_bits n v ++ more)
    → (t : Buffer) × (take_bits n s ≡ ok (v, t)) × Holds t more × (length t.rest ≤ length s.rest)
unfolding take_bits
take_bits-Holds n v s more few small h = elim (dec_lt s.nbits n) [
  | no enough ↦
      let t : ltb s.nbits n ≡ false = ground arith in
      let (u, ran, rest, less) = take_ready-Holds n v s more (omega arith) small h in
      (u, ap (λ (c : Bool). take_ready n (if c then refill s else s)) t ∙ ran, rest, less)
  | yes short ↦
      let t : ltb s.nbits n ≡ true = ground arith in
      let (filled, ready, less) = refill-Holds s (to_bits n v ++ more) h in
      let size = length-Holds (refill s) (to_bits n v ++ more) filled in
      let parts = length-append (to_bits n v) more in
      let width = length-to_bits n v in
      let enough : n ≤ (refill s).nbits = elim ready [
        | inl full ↦ omega arith
        | inr empty ↦ let none_left = ap length empty in omega arith
      ] in
      let (u, ran, rest, less') = take_ready-Holds n v (refill s) more enough small filled in
      (u, ap (λ (c : Bool). take_ready n (if c then refill s else s)) t ∙ ran, rest, omega arith)
]
