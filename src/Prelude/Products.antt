-- ===== src/Prelude/Products.antt =====
-- Products of sums.
use Prim.Native.Nat.{ℕ, suc, ◌+◌, ◌*◌}
use mathlib.Core.Path.{◌≡◌, ap, ◌∙◌}
use native.Mathlib.Nat.{mul_comm, mul-suc, mul-add}

pub suc-mul : (a b : ℕ) → suc a * b ≡ a * b + b
suc-mul a b = mul_comm (suc a) b ∙ mul-suc b a ∙ ap (λ (k : ℕ). k + b) (mul_comm b a)

pub add-mul : (a b k : ℕ) → (a + b) * k ≡ a * k + b * k
add-mul a b k =
    mul_comm (a + b) k
    ∙ mul-add k a b
    ∙ ap (λ (n : ℕ). n + k * b) (mul_comm k a)
    ∙ ap (λ (n : ℕ). a * k + n) (mul_comm k b)
