-- ===== src/Header/Parts.antt =====
-- header.rs: where a long string is cut.
use rustfits.Prelude.{
  ℕ, zero, suc, ◌-◌, ◌==◌, ◌<◌, ◌≤◌, ◌≡◌, refl, ap, ◌∙◌, Bool, true, false, ◌&&◌, ◌⊎◌, inl, inr,
  Bool-cases, ltb, min, List, [], ◌∷◌, ◌++◌, length, get_or, take, drop, arith,
}
use rustfits.Header.Value.{quote}
use rustfits.Header.Build.{escape, back_off, take_part}

-- Position `k` of the escaped text is between two bytes of the text.
pub record IsCut (v : List ℕ) (k : ℕ) : Type 0 where
  pub left : List ℕ
  pub right : List ℕ
  pub whole : v ≡ left ++ right
  pub taken : take k (escape v) ≡ escape left
  pub dropped : drop k (escape v) ≡ escape right

IsCut-zero : (v : List ℕ) → IsCut v 0
unfolding escape
IsCut-zero v = record { left = []; right = v; whole = refl; taken = refl; dropped = refl }

IsCut-quote : (v : List ℕ) (k : ℕ) → IsCut v k → IsCut (quote ∷ v) (suc (suc k))
unfolding escape
IsCut-quote v k cut = record {
  left = quote ∷ cut.left;
  right = cut.right;
  whole = ap (λ (l : List ℕ). quote ∷ l) cut.whole;
  taken = ap (λ (l : List ℕ). quote ∷ quote ∷ l) cut.taken;
  dropped = cut.dropped;
}

IsCut-other :
    (c : ℕ) (v : List ℕ) (k : ℕ) → (c == quote) ≡ false → IsCut v k → IsCut (c ∷ v) (suc k)
unfolding escape
IsCut-other c v k e cut = record {
  left = c ∷ cut.left;
  right = cut.right;
  whole = ap (λ (l : List ℕ). c ∷ l) cut.whole;
  taken = rw e (ap (λ (l : List ℕ). c ∷ l) cut.taken);
  dropped = rw e cut.dropped;
}

-- The two quotes around a position inside of an escaped quote.
abbrev pub parts_quotes : List ℕ → ℕ → Bool
parts_quotes rest n =
    ltb (suc n) (length rest) && ((get_or rest n 0 == quote) && (get_or rest (suc n) 0 == quote))

abbrev CutOrQuotes : List ℕ → ℕ → Type 0
CutOrQuotes v n = IsCut v (suc n) ⊎ (parts_quotes (escape v) n ≡ true)

suc-parts_quotes :
    (c : ℕ) (rest : List ℕ) (n : ℕ)
    → parts_quotes rest n ≡ true
    → parts_quotes (c ∷ rest) (suc n) ≡ true
suc-parts_quotes c rest n t = ground arith

module _ (v : List ℕ) (later : (n : ℕ) → suc n ≤ length (escape v) → CutOrQuotes v n) where
  CutOrQuotes-quote : (n : ℕ) → suc n ≤ suc (suc (length (escape v))) → CutOrQuotes (quote ∷ v) n
  unfolding escape
  CutOrQuotes-quote zero h = inr (ground arith)
  CutOrQuotes-quote (suc zero) h = inl (IsCut-quote v 0 (IsCut-zero v))
  CutOrQuotes-quote (suc (suc n)) h = elim (later n (omega arith)) [
    | inl cut ↦ inl (IsCut-quote v (suc n) cut)
    | inr t ↦
        inr (
          suc-parts_quotes quote (quote ∷ escape v) (suc n) (suc-parts_quotes quote (escape v) n t))
  ]

  CutOrQuotes-other :
      (c n : ℕ) → (c == quote) ≡ false → suc n ≤ suc (length (escape v)) → CutOrQuotes (c ∷ v) n
  unfolding escape
  CutOrQuotes-other c zero e h = inl (IsCut-other c v 0 e (IsCut-zero v))
  CutOrQuotes-other c (suc n) e h = elim (later n (omega arith)) [
    | inl cut ↦ inl (IsCut-other c v (suc n) e cut)
    | inr t ↦ inr (rw e (suc-parts_quotes c (escape v) n t))
  ]

cut_or_quotes : (v : List ℕ) (n : ℕ) → suc n ≤ length (escape v) → CutOrQuotes v n
unfolding escape
cut_or_quotes [] n h = absurd (omega arith)
cut_or_quotes (c ∷ v) n h = elim (Bool-cases (c == quote)) [
  | inl e ↦
      let is_quote : c ≡ quote = ground arith in
      rw is_quote (CutOrQuotes-quote v (cut_or_quotes v) n (rw e at h))
  | inr e ↦ CutOrQuotes-other v (cut_or_quotes v) c n e (rw e at h)
]

-- Every split that `back_off` makes is one between two bytes of the text, or none.
pub back_off-IsCut :
    (v : List ℕ) (n : ℕ)
    → n ≤ length (escape v)
    → IsCut v (back_off (escape v) n) × (back_off (escape v) n ≤ n)
unfolding back_off
back_off-IsCut v zero h = (IsCut-zero v, omega arith)
back_off-IsCut v (suc n) h = elim (Bool-cases (parts_quotes (escape v) n)) [
  | inl t ↦ let (cut, less) = back_off-IsCut v n (omega arith) in rw t (cut, omega arith)
  | inr t ↦ elim (cut_or_quotes v n h) [
    | inl cut ↦ rw t (cut, omega arith)
    | inr t' ↦ absurd (cc (t, t'))
  ]
]

back_off_zero : (rest : List ℕ) (n : ℕ) → back_off rest (suc n) ≡ 0 → parts_quotes rest 0 ≡ true
unfolding back_off
back_off_zero rest zero e = elim (Bool-cases (parts_quotes rest 0)) [
  | inl t ↦ t
  | inr t ↦ let no : ◌≡◌ {A = ℕ} 1 0 = rw t at e in absurd (omega arith)
]
back_off_zero rest (suc n) e = elim (Bool-cases (parts_quotes rest (suc n))) [
  | inl t ↦ back_off_zero rest n (rw t at e)
  | inr t ↦ let no : suc (suc n) ≡ 0 = rw t at e in absurd (omega arith)
]

first_quote-IsCut : (v : List ℕ) → parts_quotes (escape v) 0 ≡ true → IsCut v 2
unfolding escape
first_quote-IsCut [] t = absurd (cc)
first_quote-IsCut (c ∷ v) t = elim (Bool-cases (c == quote)) [
  | inl e ↦ let is_quote : c ≡ quote = ground arith in rw is_quote (IsCut-quote v 0 (IsCut-zero v))
  | inr e ↦ absurd (ground (arith, rw e at t))
]

-- The bytes that a turn takes.
pub take_part-IsCut :
    (v : List ℕ) (max_last : ℕ)
    → 1 < max_last
    → max_last < length (escape v)
    → IsCut v (take_part max_last (escape v))
      × (0 < take_part max_last (escape v))
      × (take_part max_last (escape v) < length (escape v))
      × (take_part max_last (escape v) ≤ 67)
unfolding take_part
take_part-IsCut v max_last h long =
    let n = min (length (escape v) - max_last) 67 in
    let (cut, less) = back_off-IsCut v n (omega arith) in
    elim (Bool-cases (back_off (escape v) n == 0)) [
      | inl t ↦
          let none_left : back_off (escape v) n ≡ 0 = ground arith in
          let some : suc (n - 1) ≡ n = omega arith in
          rw t (
            first_quote-IsCut v
                (back_off_zero (escape v) (n - 1) (ap (back_off (escape v)) some ∙ none_left)),
            omega arith,
            omega arith,
            omega arith,
          )
      | inr t ↦ rw t (cut, ground arith, omega arith, omega arith)
    ]
