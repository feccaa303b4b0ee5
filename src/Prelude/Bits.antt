-- ===== src/Prelude/Bits.antt =====
-- The bit operations of machine words as arithmetic.
use Prim.Native.Nat.{
  ℕ, zero, suc, ◌+◌, ◌-◌, ◌*◌, ◌/◌, ◌%◌, ◌^◌, ◌≤◌, ◌<◌, min, max, bit_and, bit_or, bit_xor, differ,
  digits, bitwise, bit_and-bitwise, bit_or-bitwise, bit_xor-bitwise,
}
use mathlib.Core.Path.{◌≡◌, refl, sym, ap, ◌∙◌}
use native.Mathlib.Decide.{dec_lt}
use native.Mathlib.Omega.{arith}
use native.Mathlib.Nat.{pow-suc, mod-lt, mod-eq_of_lt, div-add-mod', add-mul-mod_self_right}

abbrev pub IsByte : ℕ → Type 0
IsByte b = b < 256

abbrev pub IsU32 : ℕ → Type 0
IsU32 n = n < 2 ^ 32

-- The digit recursion counts down from a bound on its first number; any bound will do.
module _ (base : ℕ → ℕ) (digit : ℕ → ℕ → ℕ) where
  one_round_more :
      (bound a b : ℕ) → a ≤ bound → digits base digit (suc bound) a b ≡ digits base digit bound a b
  one_round_more zero zero b h = refl
  one_round_more (suc bound) zero b h = refl
  one_round_more zero (suc a) b h = absurd (omega arith)
  one_round_more (suc bound) (suc a) b h =
      ap (λ (high : ℕ). high * 2 + digit (suc a % 2) (b % 2))
        (one_round_more bound (suc a / 2) (b / 2) (omega arith))

  any_bound :
      (more bound a b : ℕ)
      → a ≤ bound
      → bound ≤ more
      → digits base digit more a b ≡ digits base digit bound a b
  any_bound zero bound a b h le = let e : bound ≡ 0 = omega arith in rw e
  any_bound (suc more) bound a b h le = elim (dec_lt bound (suc more)) [
    | yes less ↦ one_round_more more a b (omega arith) ∙ any_bound more bound a b h (omega arith)
    | no same ↦ let e : bound ≡ suc more = omega arith in rw e
  ]

  lowest :
      (a b : ℕ)
      → bitwise base digit (suc a) b
        ≡ bitwise base digit (suc a / 2) (b / 2) * 2 + digit (suc a % 2) (b % 2)
  lowest a b =
      let high = any_bound a (suc a / 2) (suc a / 2) (b / 2) (omega arith) (omega arith) in
      omega (arith, high)

lowest-or : (u v : ℕ) → max (u % 2) (v % 2) + 2 * bit_or (u / 2) (v / 2) ≡ bit_or u v
lowest-or zero v = simp bit_or-bitwise (omega arith)
lowest-or (suc u) v = simp bit_or-bitwise (omega (arith, lowest (λ rest. rest) max u v))

lowest-and : (u v : ℕ) → min (u % 2) (v % 2) + 2 * bit_and (u / 2) (v / 2) ≡ bit_and u v
lowest-and zero v = simp bit_and-bitwise (omega arith)
lowest-and (suc u) v = simp bit_and-bitwise (omega (arith, lowest (λ rest. 0) min u v))

lt-two_pow : (a : ℕ) → a < 2 ^ a
lt-two_pow zero = omega arith
lt-two_pow (suc a) = omega (arith, pow-suc 2 a, lt-two_pow a)

or-zero_below : (k a : ℕ) → a < 2 ^ k → bit_or a 0 ≡ a
or-zero_below zero a h = let e : a ≡ 0 = omega arith in rw e
or-zero_below (suc k) a h =
    omega (arith, lowest-or a 0, or-zero_below k (a / 2) (omega (arith, pow-suc 2 k)))

and-zero_below : (k a : ℕ) → a < 2 ^ k → bit_and a 0 ≡ 0
and-zero_below zero a h = let e : a ≡ 0 = omega arith in rw e
and-zero_below (suc k) a h =
    omega (arith, lowest-and a 0, and-zero_below k (a / 2) (omega (arith, pow-suc 2 k)))

double_power : (a k : ℕ) → a * 2 ^ suc k ≡ a * 2 ^ k * 2
double_power a k = rw pow-suc (omega arith)

-- Two fields of a word that do not overlap.
pub bit_or_fields : (k a b : ℕ) → b < 2 ^ k → bit_or (a * 2 ^ k) b ≡ a * 2 ^ k + b
bit_or_fields zero a b h =
    let e : b ≡ 0 = omega arith in
    rw e (omega (arith, or-zero_below (a * 1) (a * 1) (lt-two_pow (a * 1))))
bit_or_fields (suc k) a b h =
    let e = double_power a k in
    let half : a * 2 ^ suc k / 2 ≡ a * 2 ^ k = omega arith in
    let low = bit_or_fields k a (b / 2) (omega (arith, pow-suc 2 k)) in
    rw (sym (lowest-or (a * 2 ^ suc k) b), half) (omega arith)

pub two_pow_pos : (k : ℕ) → 0 < 2 ^ k
two_pow_pos zero = omega arith
two_pow_pos (suc k) = omega (arith, pow-suc 2 k, two_pow_pos k)

mod_two_pow_suc : (k a : ℕ) → a % 2 ^ suc k ≡ a / 2 % 2 ^ k * 2 + a % 2
mod_two_pow_suc k a =
    let p = 2 ^ k in
    let q = a / 2 / p in
    let r = a / 2 % p in
    let low : r < p = mod-lt (a / 2) (two_pow_pos k) in
    let parts : a ≡ (r * 2 + a % 2) + q * 2 ^ suc k =
      omega (arith, div-add-mod' (a / 2) p, double_power q k) in
    ap (λ (t : ℕ). t % 2 ^ suc k) parts
    ∙ add-mul-mod_self_right (r * 2 + a % 2) q (2 ^ suc k)
    ∙ mod-eq_of_lt (omega (arith, pow-suc 2 k))

-- A mask of the `k` lowest bits.
pub bit_and_mask : (k a : ℕ) → bit_and a (2 ^ k - 1) ≡ a % 2 ^ k
bit_and_mask zero a = omega (arith, and-zero_below a a (lt-two_pow a))
bit_and_mask (suc k) a =
    let e = pow-suc 2 k in
    let pos = two_pow_pos k in
    let half : (2 ^ suc k - 1) / 2 ≡ 2 ^ k - 1 = omega arith in
    rw (sym (lowest-and a (2 ^ suc k - 1)), half, bit_and_mask k (a / 2))
      (omega (arith, mod_two_pow_suc k a))

zero-bit_or : (b : ℕ) → bit_or 0 b ≡ b
zero-bit_or b = bit_or-bitwise 0 b

-- The same with the lower field in front.
pub bit_or_low_high : (k a b : ℕ) → b < 2 ^ k → bit_or b (a * 2 ^ k) ≡ a * 2 ^ k + b
bit_or_low_high zero a b h =
    let e : b ≡ 0 = omega arith in rw e (omega (arith, zero-bit_or (a * 1)))
bit_or_low_high (suc k) a b h =
    let e = double_power a k in
    let half : a * 2 ^ suc k / 2 ≡ a * 2 ^ k = omega arith in
    let low = bit_or_low_high k a (b / 2) (omega (arith, pow-suc 2 k)) in
    rw (sym (lowest-or b (a * 2 ^ suc k)), half) (omega arith)

lowest-xor : (u v : ℕ) → differ (u % 2) (v % 2) + 2 * bit_xor (u / 2) (v / 2) ≡ bit_xor u v
lowest-xor zero v = simp bit_xor-bitwise (omega arith)
lowest-xor (suc u) v = simp bit_xor-bitwise (omega (arith, lowest (λ rest. rest) differ u v))

differ-zero : (r : ℕ) → differ r 0 ≡ r
differ-zero zero = refl
differ-zero (suc r) = refl

differ-one : (r : ℕ) → r < 2 → differ r 1 ≡ 1 - r
differ-one zero h = refl
differ-one (suc zero) h = refl
differ-one (suc (suc r)) h = absurd (omega arith)

pub bit_xor_zero : (k a : ℕ) → a < 2 ^ k → bit_xor a 0 ≡ a
bit_xor_zero zero a h = let e : a ≡ 0 = omega arith in rw e refl
bit_xor_zero (suc k) a h = omega (
  arith,
  lowest-xor a 0,
  differ-zero (a % 2),
  bit_xor_zero k (a / 2) (omega (arith, pow-suc 2 k)),
)

-- The complement of a word.
pub bit_xor_ones : (k a : ℕ) → a < 2 ^ k → bit_xor a (2 ^ k - 1) ≡ 2 ^ k - 1 - a
bit_xor_ones zero a h = let e : a ≡ 0 = omega arith in rw e refl
bit_xor_ones (suc k) a h =
    let e = pow-suc 2 k in
    let pos = two_pow_pos k in
    let half : (2 ^ suc k - 1) / 2 ≡ 2 ^ k - 1 = omega arith in
    let odd : (2 ^ suc k - 1) % 2 ≡ 1 = omega arith in
    let high = bit_xor_ones k (a / 2) (omega arith) in
    rw (sym (lowest-xor a (2 ^ suc k - 1)), half, odd, high, differ-one (a % 2) (omega arith))
      (omega arith)
