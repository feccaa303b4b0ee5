-- ===== src/Checksum/Carry.antt =====
-- checksum.rs, `compute_checksum_bytes`: the end-around carry loop.
use rustfits.Prelude.{
  ℕ, zero, suc, ◌+◌, ◌-◌, ◌*◌, ◌/◌, ◌%◌, ◌^◌, ◌<◌, ◌≡◌, refl, sym, ap, ◌∙◌, bit_and, ◌==◌,
  if◌then◌else◌, IsU32, bit_and_mask, bit_or_fields, arith, Bool-cases, inl, inr, ◌&&◌,
}
use rustfits.Checksum.{add_u32, Halves, fold_carry, carry_rounds, join_halves}

-- The reference: the sum of the big-endian words, zeros padding the last, reduced to 1 .. 2^32 - 1
-- unless it is 0.
unfoldable pub ones_sum : ℕ → ℕ
ones_sum v = if v == 0 then 0 else (v - 1) % (2 ^ 32 - 1) + 1

abbrev pub value : Halves → ℕ
value h = h.hi * 2 ^ 16 + h.lo

fold_once : Halves → Halves
fold_once h = record {
  hi = add_u32 (bit_and h.hi 0xffff) (h.lo / 2 ^ 16);
  lo = add_u32 (bit_and h.lo 0xffff) (h.hi / 2 ^ 16);
}

-- One round takes a multiple of 2^32 - 1 off the value, and 65535 for each carry off the sum.
fold_once_lem :
    (h : Halves)
    → IsU32 h.hi
    → IsU32 h.lo
    → (value (fold_once h) + h.hi / 2 ^ 16 * (2 ^ 32 - 1) ≡ value h)
      × ((fold_once h).hi + (fold_once h).lo + (h.hi / 2 ^ 16 + h.lo / 2 ^ 16) * 65535
          ≡ h.hi + h.lo)
      × ((fold_once h).hi < 2 ^ 17)
      × ((fold_once h).lo < 2 ^ 17)
unfolding fold_once
fold_once_lem h p q = omega (arith, bit_and_mask 16 h.hi, bit_and_mask 16 h.lo)

pub ones_sum_add_multiple : (v k : ℕ) → 0 < v → ones_sum (v + k * (2 ^ 32 - 1)) ≡ ones_sum v
unfolding ones_sum
ones_sum_add_multiple v k h = ground arith

fold_carry_step :
    (fuel : ℕ) (h : Halves)
    → fold_carry (suc fuel) h
      ≡ (if h.hi / 2 ^ 16 == 0 && h.lo / 2 ^ 16 == 0 then h else fold_carry fuel (fold_once h))
unfolding fold_carry fold_once
fold_carry_step fuel h = ground arith

pub record IsFolded (h g : Halves) : Type 0 where
  pub hi_small : g.hi < 2 ^ 16
  pub lo_small : g.lo < 2 ^ 16
  pub same_sum : ones_sum (value g) ≡ ones_sum (value h)

-- The loop ends by its own test once each round that is left can take 65535 off the sum.
fold_carry_ends :
    (fuel : ℕ) (h : Halves)
    → h.hi + h.lo < 65536 + 65535 * fuel
    → IsU32 h.hi
    → IsU32 h.lo
    → IsFolded h (fold_carry fuel h)
fold_carry_ends zero h m p q =
    unfold fold_carry in record { hi_small = omega arith; lo_small = omega arith; same_sum = refl }
fold_carry_ends (suc fuel) h m p q =
    let once = fold_once_lem h p q in
    elim (Bool-cases (h.hi / 2 ^ 16 == 0 && h.lo / 2 ^ 16 == 0)) [
      | inl e ↦
          rw (fold_carry_step fuel h, e)
            (record { hi_small = ground arith; lo_small = ground arith; same_sum = refl })
      | inr e ↦
          let carried : 0 < h.hi / 2 ^ 16 + h.lo / 2 ^ 16 = ground arith in
          let more = fold_carry_ends fuel (fold_once h) (omega arith) (omega arith) (omega arith) in
          rw (fold_carry_step fuel h, e)
            (record {
              hi_small = more.hi_small;
              lo_small = more.lo_small;
              same_sum =
                  more.same_sum
                  ∙ sym (ones_sum_add_multiple (value (fold_once h)) (h.hi / 2 ^ 16) (omega arith))
                  ∙ ap ones_sum once.0;
            })
    ]

pub fold_carry_rounds :
    (h : Halves) → IsU32 h.hi → IsU32 h.lo → IsFolded h (fold_carry carry_rounds h)
fold_carry_rounds h p q =
    let once = fold_once_lem h p q in
    elim (Bool-cases (h.hi / 2 ^ 16 == 0 && h.lo / 2 ^ 16 == 0)) [
      | inl e ↦ fold_carry_ends carry_rounds h (ground arith) p q
      | inr e ↦
          let carried : 0 < h.hi / 2 ^ 16 + h.lo / 2 ^ 16 = ground arith in
          let more = fold_carry_ends 5 (fold_once h) (omega arith) (omega arith) (omega arith) in
          rw (fold_carry_step 5 h, e)
            (record {
              hi_small = more.hi_small;
              lo_small = more.lo_small;
              same_sum =
                  more.same_sum
                  ∙ sym (ones_sum_add_multiple (value (fold_once h)) (h.hi / 2 ^ 16) (omega arith))
                  ∙ ap ones_sum once.0;
            })
    ]

pub ones_sum_u32 : (v : ℕ) → IsU32 v → ones_sum v ≡ v
unfolding ones_sum
ones_sum_u32 v h = ground arith

pub join_folded : {h g : Halves} → IsFolded h g → join_halves g ≡ ones_sum (value h)
join_folded {h} {g} f =
    let p = f.hi_small in
    let q = f.lo_small in
    let shifted : g.hi * 2 ^ 16 % 2 ^ 32 ≡ g.hi * 2 ^ 16 = omega arith in
    rw (shifted, bit_or_fields 16 g.hi g.lo q, ← f.same_sum)
      (sym (ones_sum_u32 (value g) (omega arith)))

pub ones_sum-lt : (v : ℕ) → IsU32 (ones_sum v)
unfolding ones_sum
ones_sum-lt v = ground arith

-- A sum may be reduced before more is added.
pub ones_sum-add : (v w : ℕ) → ones_sum (ones_sum v + w) ≡ ones_sum (v + w)
unfolding ones_sum
ones_sum-add v w = ground arith
