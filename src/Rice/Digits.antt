-- ===== src/Rice/Digits.antt =====
-- The binary digits of a number, the highest first.
use rustfits.Prelude.{
  ℕ, zero, suc, ◌+◌, ◌*◌, ◌/◌, ◌%◌, ◌^◌, ◌<◌, ◌≡◌, refl, sym, ap, ◌∙◌, List, [], ◌∷◌, ◌++◌,
  append-nil, append_assoc, arith,
}
use native.Mathlib.Nat.{pow-suc}

-- The `n` lowest digits of `v`.
abbrev pub to_bits : ℕ → ℕ → List ℕ
to_bits zero v = []
to_bits (suc n) v = to_bits n (v / 2) ++ v % 2 ∷ []

-- The digits of the bytes.
abbrev pub byte_bits : List ℕ → List ℕ
byte_bits [] = []
byte_bits (b ∷ bs) = to_bits 8 b ++ byte_bits bs

-- A high and a low part.
pub to_bits-add :
    (a b q r : ℕ) → r < 2 ^ b → to_bits (a + b) (q * 2 ^ b + r) ≡ to_bits a q ++ to_bits b r
to_bits-add a zero q r h =
    let e : q * 2 ^ 0 + r ≡ q = omega arith in
    let n : a + 0 ≡ a = omega arith in rw (e, n) (sym (append-nil (to_bits a q)))
to_bits-add a (suc b) q r h =
    let n : a + suc b ≡ suc (a + b) = omega arith in
    let d : q * 2 ^ suc b ≡ q * 2 ^ b * 2 = rw pow-suc (omega arith) in
    let half : (q * 2 ^ suc b + r) / 2 ≡ q * 2 ^ b + r / 2 = omega arith in
    let last : (q * 2 ^ suc b + r) % 2 ≡ r % 2 = omega arith in
    rw (n, half, last)
      (ap (λ (t : List ℕ). t ++ r % 2 ∷ []) (to_bits-add a b q (r / 2) (omega (arith, pow-suc 2 b)))
        ∙ append_assoc (to_bits a q) (to_bits b (r / 2)) (r % 2 ∷ []))

pub byte_bits-append : (xs ys : List ℕ) → byte_bits (xs ++ ys) ≡ byte_bits xs ++ byte_bits ys
byte_bits-append [] ys = refl
byte_bits-append (x ∷ xs) ys =
    ap (λ (t : List ℕ). to_bits 8 x ++ t) (byte_bits-append xs ys)
    ∙ sym (append_assoc (to_bits 8 x) (byte_bits xs) (byte_bits ys))

pub two_pow_add : (a b : ℕ) → 2 ^ (a + b) ≡ 2 ^ a * 2 ^ b
two_pow_add a zero = let e : a + 0 ≡ a = omega arith in rw e (omega arith)
two_pow_add a (suc b) =
    let e : a + suc b ≡ suc (a + b) = omega arith in
    rw (e, pow-suc 2 (a + b), pow-suc 2 b, two_pow_add a b) (omega arith)
