-- ===== src/Header/Found.antt =====
-- header.rs: which card find_card_for_key finds.
use rustfits.Prelude.{
  ℕ, suc, ◌+◌, ◌==◌, ◌≡◌, refl, sym, ap, ◌∙◌, Bool, true, false, ◌||◌, ◌⊎◌, inl, inr, Bool-cases,
  and_true, List, [], ◌∷◌, ◌++◌, Option, none, some, length, All, drop, arith,
}
use rustfits.Header.Text.{codes, is_empty, trim_start, trim_end, same, find}
use rustfits.Header.Value.{parse_value_with_continue}
use rustfits.Header.Keyword.{
  key_field, long_key, keyword_of, hierarch_of, normalize_keyword, is_skipped, keyword_of_trimmed,
}
use rustfits.Header.Edit.{
  named_part, hierarch_part, value_part, find_card_for_key, lookup_value, has_keyword, names_key,
}

pub same_refl : (a : List ℕ) → same a a ≡ true
unfolding same
same_refl [] = refl
same_refl (c ∷ a) = ground (arith, same_refl a)

pub same-eq : (a b : List ℕ) → same a b ≡ true → a ≡ b
unfolding same
same-eq [] [] e = refl
same-eq [] (d ∷ b) e = absurd (cc)
same-eq (c ∷ a) [] e = absurd (cc)
same-eq (c ∷ a) (d ∷ b) e =
    let (first, later) = and_true (c == d) (same a b) e in
    let head : c ≡ d = ground arith in let tail = same-eq a b later in (λ i. head i ∷ tail i)

or_true : (a b : Bool) → (a || b) ≡ true → (a ≡ true) ⊎ (b ≡ true)
or_true true b e = inl refl
or_true false b e = inr e

is_empty-eq : (k : List ℕ) → is_empty k ≡ true → k ≡ []
is_empty-eq [] e = refl
is_empty-eq (c ∷ k) e = absurd (cc)

abbrev pub StaysSkipped : List ℕ → Type 0
StaysSkipped k = is_skipped (normalize_keyword k) ≡ true

same-StaysSkipped : (k w : List ℕ) → StaysSkipped w → same k w ≡ true → StaysSkipped k
same-StaysSkipped k w stays e = rw (same-eq k w e) stays

-- The keywords that are skipped are their own lookup forms.
pub normalize-is_skipped : (k : List ℕ) → is_skipped k ≡ true → StaysSkipped k
unfolding is_skipped normalize_keyword same trim_end trim_start
normalize-is_skipped k e = elim (or_true (same k (codes "END")) _ e) [
  | inl w ↦ same-StaysSkipped k (codes "END") refl w
  | inr e ↦ elim (or_true (same k (codes "COMMENT")) _ e) [
    | inl w ↦ same-StaysSkipped k (codes "COMMENT") refl w
    | inr e ↦ elim (or_true (same k (codes "HISTORY")) _ e) [
      | inl w ↦ same-StaysSkipped k (codes "HISTORY") refl w
      | inr e ↦ elim (or_true (is_empty k) _ e) [
        | inl w ↦ rw (is_empty-eq k w) refl
        | inr w ↦ same-StaysSkipped k (codes "CONTINUE") refl w
      ]
    ]
  ]
]

module _ (key : List ℕ) (ordinary : is_skipped key ≡ false) where
  -- A keyword that does not name the key is another one: the key itself is not skipped.
  unnamed : (k : List ℕ) → has_keyword key (some k) ≡ false → same (normalize_keyword k) key ≡ false
  unnamed k other = elim (Bool-cases (same (normalize_keyword k) key)) [
    | inr e ↦ e
    | inl e ↦ elim (Bool-cases (is_skipped k)) [
      | inl skip ↦
          let is_key = same-eq (normalize_keyword k) key e in
          let skips : is_skipped key ≡ true =
            ap is_skipped (sym is_key) ∙ normalize-is_skipped k skip in
          absurd (cc (skips, ordinary))
      | inr skip ↦ absurd (cc (skip, e, other))
    ]
  ]

  named_part-none :
      (matches : Bool) (card : List ℕ) (at : Option ℕ)
      → matches ≡ false
      → named_part matches card at ≡ none
  named_part-none matches card none e = refl
  named_part-none matches card (some n) e = rw e refl

  -- A HIERARCH card without a keyword of its own has no key.
  unnamed-empty : (k : List ℕ) → is_empty k ≡ true → same (normalize_keyword k) key ≡ false
  unfolding normalize_keyword trim_end trim_start is_skipped same
  unnamed-empty k e = elim (Bool-cases (same (normalize_keyword k) key)) [
    | inr t ↦ t
    | inl t ↦
        let is_key : normalize_keyword [] ≡ key =
          ap normalize_keyword (sym (is_empty-eq k e)) ∙ same-eq (normalize_keyword k) key t in
        let skips : is_skipped key ≡ true = ap is_skipped (sym is_key) in
        absurd (cc (skips, ordinary))
  ]

  hierarch_part-none :
      (card : List ℕ) (at : Option ℕ)
      → has_keyword key (some (hierarch_of card at)) ≡ false
      → hierarch_part key card at ≡ none
  hierarch_part-none card none other = refl
  hierarch_part-none card (some n) other = elim (Bool-cases (is_empty (long_key n card))) [
    | inl e ↦
        named_part-none (same (normalize_keyword (long_key n card)) key) card (some n)
          (unnamed-empty (long_key n card) e)
    | inr e ↦
        named_part-none (same (normalize_keyword (long_key n card)) key) card (some n)
          (unnamed (long_key n card) (rw e at other))
  ]

  pub value_part-none :
      (card : List ℕ)
      → has_keyword key (keyword_of_trimmed card) ≡ false
      → value_part key card ≡ none
  unfolding value_part
  value_part-none card other = elim (Bool-cases (is_empty card)) [
    | inl e ↦ rw e refl
    | inr e ↦ elim (Bool-cases (is_skipped (key_field card))) [
      | inl skip ↦ rw (e, skip) refl
      | inr skip ↦ elim (Bool-cases (same (key_field card) (codes "HIERARCH"))) [
        | inl h ↦ rw (e, skip, h) (hierarch_part-none card (find 61 card) (rw (e, h) at other))
        | inr h ↦
            rw (e, skip, h)
              (named_part-none (same (normalize_keyword (key_field card)) key) card (find 61 card)
                (unnamed (key_field card) (rw (e, h) at other)))
      ]
    ]
  ]

  -- The cards in front that do not have the key are passed over.
  pub find_card_for_key-behind :
      (i : ℕ) (before after : List (List ℕ)) (card part : List ℕ)
      → All (λ (c : List ℕ). names_key key c ≡ false) before
      → value_part key (trim_end card) ≡ some part
      → find_card_for_key i (before ++ card ∷ after) key ≡ some (i + length before, part)
  unfolding find_card_for_key keyword_of
  find_card_for_key-behind i [] after card part others here =
      let e : i + 0 ≡ i = omega arith in rw (here, e) refl
  find_card_for_key-behind i (c ∷ before) after card part (other, others) here =
      let e : suc i + length before ≡ i + suc (length before) = omega arith in
      rw (value_part-none (trim_end c) other, sym e)
        (find_card_for_key-behind (suc i) before after card part others here)

drop-behind :
    (before after : List (List ℕ)) (card : List ℕ)
    → drop (suc (length before)) (before ++ card ∷ after) ≡ after
drop-behind [] after card = refl
drop-behind (c ∷ before) after card = drop-behind before after card

pub lookup_value-behind :
    (key : List ℕ)
    → is_skipped key ≡ false
    → (before after : List (List ℕ)) (card part : List ℕ)
    → All (λ (c : List ℕ). names_key key c ≡ false) before
    → value_part key (trim_end card) ≡ some part
    → lookup_value (before ++ card ∷ after) key ≡ some (parse_value_with_continue after part)
unfolding lookup_value
lookup_value-behind key ordinary before after card part others here =
    let e : suc (0 + length before) ≡ suc (length before) = omega arith in
    rw
      (
        find_card_for_key-behind key ordinary 0 before after card part others here,
        e,
        drop-behind before after card,
      )
      refl
