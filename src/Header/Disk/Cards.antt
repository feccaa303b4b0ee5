-- ===== src/Header/Disk/Cards.antt =====
-- header.rs and fits.rs: the cards of a block of a header, written and read.
use rustfits.Prelude.{
  ℕ, zero, suc, ◌-◌, ◌*◌, ◌≤◌, ◌<◌, ◌≡◌, refl, ap, sym, ◌∙◌, Bool, true, false, List, [], ◌∷◌, ◌++◌,
  append-nil, append_assoc, length, length-append, length-replicate, take, drop, All, All-append,
  ok, arith, inl, inr, Bool-cases, ltb,
}
use rustfits.Header.Text.{trim_end, same}
use rustfits.Header.Build.{spaces}
use rustfits.Header.Trim.{trim_end-append-spaces}
use rustfits.Header.Disk.{padded, card_bytes}
use rustfits.Header.Disk.Reader.{is_printable, check_block, block_cards, end_card}

abbrev pub IsPrintable : ℕ → Type 0
IsPrintable b = is_printable b ≡ true

-- A card that the reader gives back as it was written, and that is not the last.
pub record IsWritable (card : List ℕ) : Type 0 where
  pub fits : length card ≤ 80
  pub trimmed : trim_end card ≡ card
  pub printable : All IsPrintable card
  pub not_end : same card end_card ≡ false

abbrev pub with_end : List (List ℕ) → List (List ℕ)
with_end cards = cards ++ end_card ∷ []

module _ {ℓ} {A : Type ℓ} where
  pub take_front : (n : ℕ) (xs ys : List A) → length xs ≡ n → take n (xs ++ ys) ≡ xs
  take_front zero [] ys h = refl
  take_front (suc n) [] ys h = absurd (omega arith)
  take_front zero (x ∷ xs) ys h = absurd (omega arith)
  take_front (suc n) (x ∷ xs) ys h = ap (◌∷◌ x) (take_front n xs ys (omega arith))

  pub drop_front : (n : ℕ) (xs ys : List A) → length xs ≡ n → drop n (xs ++ ys) ≡ ys
  drop_front zero [] ys h = refl
  drop_front (suc n) [] ys h = absurd (omega arith)
  drop_front zero (x ∷ xs) ys h = absurd (omega arith)
  drop_front (suc n) (x ∷ xs) ys h = drop_front n xs ys (omega arith)

pub length-spaces : (n : ℕ) → length (spaces n) ≡ n
length-spaces n = length-replicate n 32

padded_lem : (c : List ℕ) → length c ≤ 80 → padded c ≡ c ++ spaces (80 - length c)
unfolding padded
padded_lem c h = elim (Bool-cases (ltb (length c) 80)) [
  | inl t ↦ rw t refl
  | inr t ↦
      let whole : ltb 80 (length c) ≡ false = ground arith in
      let none_left : 80 - length c ≡ 0 = ground arith in
      rw (t, whole, none_left) (sym (append-nil c))
]

length-padded : (c : List ℕ) → length c ≤ 80 → length (padded c) ≡ 80
length-padded c h =
    let e : length (padded c) ≡ length (c ++ spaces (80 - length c)) = ap length (padded_lem c h) in
    omega (arith, e, length-append c (spaces (80 - length c)), length-spaces (80 - length c))

trim_end-padded : (c : List ℕ) → length c ≤ 80 → trim_end (padded c) ≡ trim_end c
trim_end-padded c h = ap trim_end (padded_lem c h) ∙ trim_end-append-spaces c (80 - length c)

pub spaces-IsPrintable : (n : ℕ) → All IsPrintable (spaces n)
spaces-IsPrintable zero = tt
spaces-IsPrintable (suc n) = (refl, spaces-IsPrintable n)

padded-IsPrintable : (c : List ℕ) → length c ≤ 80 → All IsPrintable c → All IsPrintable (padded c)
padded-IsPrintable c h p =
    rw (padded_lem c h)
      (All-append IsPrintable c (spaces (80 - length c)) p (spaces-IsPrintable (80 - length c)))

end_fits : length end_card ≤ 80
end_fits = omega arith

pub length-padded_end : length (padded end_card) ≡ 80
length-padded_end = length-padded end_card end_fits

pub padded_end-IsPrintable : All IsPrintable (padded end_card)
padded_end-IsPrintable = padded-IsPrintable end_card end_fits (refl, (refl, (refl, tt)))

pub card_bytes-IsPrintable :
    (cs : List (List ℕ)) → All IsWritable cs → All IsPrintable (card_bytes cs)
unfolding card_bytes
card_bytes-IsPrintable [] ws = tt
card_bytes-IsPrintable (c ∷ cs) (w, ws) =
    All-append IsPrintable (padded c) (card_bytes cs) (padded-IsPrintable c w.fits w.printable)
      (card_bytes-IsPrintable cs ws)

pub length-card_bytes :
    (cs : List (List ℕ)) → All IsWritable cs → length (card_bytes cs) ≡ length cs * 80
unfolding card_bytes
length-card_bytes [] ws = refl
length-card_bytes (c ∷ cs) (w, ws) = omega (
  arith,
  length-append (padded c) (card_bytes cs),
  length-padded c w.fits,
  length-card_bytes cs ws,
)

pub check_block_lem :
    (lenient : Bool) (at : ℕ) (bs : List ℕ) → All IsPrintable bs → check_block lenient at bs ≡ ok bs
unfolding check_block
check_block_lem lenient at [] ps = refl
check_block_lem lenient at (b ∷ bs) (p, ps) = rw (p, check_block_lem lenient (suc at) bs ps) refl

-- One card of a block.
block_cards-padded :
    (n : ℕ) (c rest : List ℕ)
    → IsWritable c
    → block_cards (suc n) (padded c ++ rest) ≡ (c ∷ (block_cards n rest).0, (block_cards n rest).1)
unfolding block_cards
block_cards-padded n c rest w =
    let len = length-padded c w.fits in
    rw
      (
        take_front 80 (padded c) rest len,
        drop_front 80 (padded c) rest len,
        trim_end-padded c w.fits,
        w.trimmed,
        w.not_end,
      )
      refl

-- A block that the cards fill.
pub block_cards_full :
    (n : ℕ) (cs : List (List ℕ))
    → All IsWritable cs
    → length cs ≡ n
    → block_cards n (card_bytes cs) ≡ (cs, false)
unfolding block_cards card_bytes
block_cards_full zero [] ws h = refl
block_cards_full (suc n) [] ws h = absurd (omega arith)
block_cards_full zero (c ∷ cs) ws h = absurd (omega arith)
block_cards_full (suc n) (c ∷ cs) (w, ws) h =
    block_cards-padded n c (card_bytes cs) w ∙ rw (block_cards_full n cs ws (omega arith)) refl

end_bytes :
    (n : ℕ) (rest : List ℕ) → block_cards (suc n) (padded end_card ++ rest) ≡ (end_card ∷ [], true)
unfolding block_cards padded trim_end same
end_bytes n rest = refl

-- The block with the END card.
pub block_cards_last :
    (n : ℕ) (cs : List (List ℕ)) (rest : List ℕ)
    → All IsWritable cs
    → length cs < n
    → block_cards n (card_bytes (with_end cs) ++ rest) ≡ (with_end cs, true)
unfolding card_bytes
block_cards_last zero cs rest ws h = absurd (omega arith)
block_cards_last (suc n) [] rest ws h = rw (append-nil (padded end_card)) (end_bytes n rest)
block_cards_last (suc n) (c ∷ cs) rest (w, ws) h =
    ap (block_cards (suc n)) (append_assoc (padded c) (card_bytes (with_end cs)) rest)
    ∙ block_cards-padded n c (card_bytes (with_end cs) ++ rest) w
    ∙ rw (block_cards_last n cs rest ws (omega arith)) refl
