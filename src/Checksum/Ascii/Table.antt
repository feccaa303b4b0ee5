-- ===== src/Checksum/Ascii/Table.antt =====
-- checksum.rs, `encode_checksum_ascii`: the four characters of each of the 256 bytes, by evaluation.
use rustfits.Prelude.{
  ℕ, ◌+◌, ◌*◌, ◌≤◌, ◌≡◌, refl, Bool, true, false, ◌&&◌, ◌||◌, not, ◌==◌, leb, all_below,
  all_below_sound, and_true, ==_iff, arith, IsByte,
}
use rustfits.Checksum.Ascii.{Quartet, exclude, adjust_pass, encode_byte}

-- A digit or a letter.
abbrev pub is_alnum : ℕ → Bool
is_alnum c = (leb 0x30 c && leb c 0x39) || (leb 0x41 c && leb c 0x5a) || (leb 0x61 c && leb c 0x7a)

abbrev four_alnum : Quartet → Bool
four_alnum q = (is_alnum q.c0 && is_alnum q.c1) && (is_alnum q.c2 && is_alnum q.c3)

-- The characters add up to the byte, are letters or digits, and another pass would adjust nothing.
is_settled : ℕ → Quartet → Bool
is_settled b q =
    ((q.c0 + q.c1 + q.c2 + q.c3 == b + 4 * 0x30) && four_alnum q)
    && not (adjust_pass exclude (q, false)).1

table : all_below (λ b. is_settled b (encode_byte b)) 256 ≡ true
unfolding all_below is_settled adjust_pass encode_byte
table = refl

pub record IsSettled (b : ℕ) (q : Quartet) : Type 0 where
  pub total : q.c0 + q.c1 + q.c2 + q.c3 ≡ b + 4 * 0x30
  pub alnum0 : is_alnum q.c0 ≡ true
  pub alnum1 : is_alnum q.c1 ≡ true
  pub alnum2 : is_alnum q.c2 ≡ true
  pub alnum3 : is_alnum q.c3 ≡ true
  pub stable : (adjust_pass exclude (q, false)).1 ≡ false

is_settled_sound : (b : ℕ) (q : Quartet) → is_settled b q ≡ true → IsSettled b q
unfolding is_settled
is_settled_sound b q h =
    let (rest, settled) = and_true _ _ h in
    let (sum, chars) = and_true _ _ rest in
    let (left, right) = and_true _ _ chars in
    let (p0, p1) = and_true _ _ left in
    let (p2, p3) = and_true _ _ right in
    record {
      total = (==_iff _ _).0 sum;
      alnum0 = p0;
      alnum1 = p1;
      alnum2 = p2;
      alnum3 = p3;
      stable = ground arith;
    }

pub encode_byte-IsSettled : (b : ℕ) → IsByte b → IsSettled b (encode_byte b)
encode_byte-IsSettled b h =
    is_settled_sound b (encode_byte b) (all_below_sound _ {top = 256} b h table)

-- The range of the letters and digits.
pub alnum_range : (c : ℕ) → is_alnum c ≡ true → (0x30 ≤ c) × (c ≤ 0x7a)
alnum_range c h = ground arith
