-- ===== src/Remote/Span.antt =====
-- remote_range.rs: the blocks that a span of bytes lies in.
use rustfits.Prelude.{
  add-mul, suc-mul, ℕ, suc, ◌+◌, ◌-◌, ◌*◌, ◌/◌, ◌≤◌, ◌<◌, ◌≡◌, refl, sym, ap, ◌∙◌, Option, List, [],
  ◌∷◌, map, length, arith,
}
use native.Mathlib.Nat.{div-add-mod', mod-lt, lt_of_mul-lt-mul_right}
use rustfits.Cache.Lru.{Bytes}
use rustfits.Remote.{is_some}
use rustfits.Remote.Plan.{plan_block_fetches}
use rustfits.Remote.Runs.{IsWithin, plan_block_fetches-IsWithin}

length-map : {A B : Type 0} → (f : A → B) (xs : List A) → length (map f xs) ≡ length xs
length-map f [] = refl
length-map f (x ∷ xs) = ap suc (length-map f xs)

pub planned-IsWithin :
    (first n : ℕ) (slots : List (Option Bytes))
    → length slots ≡ n
    → IsWithin first (first + n) (plan_block_fetches first (map is_some slots))
planned-IsWithin first n slots n_is =
    rw⁻¹ (ap (λ (k : ℕ). first + k) (length-map is_some slots ∙ n_is))
      (plan_block_fetches-IsWithin first (map is_some slots))

module _ (block_bytes : ℕ) where
  -- The blocks of a span, and where they lie.
  abbrev pub first_of : ℕ → ℕ
  first_of p = p / block_bytes

  abbrev pub count_of : ℕ → ℕ → ℕ
  count_of p want = suc ((p + want - 1) / block_bytes) - p / block_bytes

  pub record IsSpan (p want : ℕ) : Type 0 where
    pub begins : first_of p * block_bytes ≤ p
    pub not_late : p < first_of p * block_bytes + block_bytes
    pub reaches : p + want ≤ first_of p * block_bytes + count_of p want * block_bytes
    pub ends : first_of p * block_bytes + count_of p want * block_bytes < p + want + block_bytes

  pub first_of-IsSpan : (p want : ℕ) → 0 < block_bytes → 0 < want → IsSpan p want
  first_of-IsSpan p want pos_block some_bytes =
      let B = block_bytes in
      let last = (p + want - 1) / B in
      let first_parts = div-add-mod' p B in
      let last_parts = div-add-mod' (p + want - 1) B in
      let first_rest = mod-lt p pos_block in
      let last_rest = mod-lt (p + want - 1) pos_block in
      let next = suc-mul last B in
      let below : first_of p < suc last =
        lt_of_mul-lt-mul_right B {m = first_of p} {n = suc last} (omega arith) in
      let whole : first_of p + count_of p want ≡ suc last = omega arith in
      let parts : first_of p * B + count_of p want * B ≡ last * B + B =
        sym (add-mul (first_of p) (count_of p want) B)
        ∙ ap (λ (k : ℕ). k * B) whole
        ∙ suc-mul last B in
      record {
        begins = omega arith;
        not_late = omega arith;
        reaches = omega arith;
        ends = omega arith;
      }
