-- ===== src/Header/Delete.antt =====
-- header.rs: what delete_card_for_key leaves.
use rustfits.Prelude.{
  ℕ, zero, suc, ap, Bool, length, take-append-drop, ◌<◌, ◌+◌, ◌≤◌, ◌≡◌, refl, true, false,
  if◌then◌else◌, inl, inr, Bool-cases, Option-cases, List, [], ◌∷◌, ◌++◌, none, get_or, take, drop,
  All, All-append, All-drop, arith,
}
use rustfits.Header.Text.{trim_end}
use rustfits.Header.Keyword.{keyword_of, is_skipped}
use rustfits.Header.Edit.{
  position, chain_more, find_chain_end, find_card_for_key, lookup_value, names_key,
  delete_card_for_key,
}
use rustfits.Header.Found.{value_part-none}
use rustfits.Header.Removed.{IsValueTail, chain_more-IsValueTail}
use rustfits.Header.SetGet.{
  IsChained, HasNoOrphan, chain_more-HasNoOrphan, IsChained-drop-HasNoOrphan, drop-drop,
  position-some, position-none,
}

IsChained-append :
    (last : List ℕ) (xs ys : List (List ℕ))
    → IsChained last xs
    → HasNoOrphan ys
    → IsChained last (xs ++ ys)
IsChained-append last [] [] p q = tt
IsChained-append last [] (y ∷ ys) p (here, chained) = (rw here refl, chained)
IsChained-append last (x ∷ xs) ys (here, p) q = (here, IsChained-append x xs ys p q)

HasNoOrphan-append :
    (xs ys : List (List ℕ)) → HasNoOrphan xs → HasNoOrphan ys → HasNoOrphan (xs ++ ys)
HasNoOrphan-append [] ys p q = q
HasNoOrphan-append (x ∷ xs) ys (here, p) q = (here, IsChained-append x xs ys p q)

IsChained-take :
    (last : List ℕ) (n : ℕ) (cards : List (List ℕ))
    → IsChained last cards
    → IsChained last (take n cards)
IsChained-take last zero cards p = tt
IsChained-take last (suc n) [] p = tt
IsChained-take last (suc n) (card ∷ cards) (here, p) = (here, IsChained-take card n cards p)

HasNoOrphan-take : (n : ℕ) (cards : List (List ℕ)) → HasNoOrphan cards → HasNoOrphan (take n cards)
HasNoOrphan-take zero cards p = tt
HasNoOrphan-take (suc n) [] p = tt
HasNoOrphan-take (suc n) (card ∷ cards) (here, p) = (here, IsChained-take card n cards p)

-- How many cards have the keyword.
abbrev pub count_named : List ℕ → List (List ℕ) → ℕ
count_named key [] = 0
count_named key (card ∷ cards) = (if names_key key card then 1 else 0) + count_named key cards

module _ (key : List ℕ) where
  abbrev pub Other : List ℕ → Type 0
  Other card = names_key key card ≡ false

  count_named_none : (cards : List (List ℕ)) → count_named key cards ≡ 0 → All Other cards
  count_named_none [] e = tt
  count_named_none (card ∷ cards) e = elim (Bool-cases (names_key key card)) [
    | inl t ↦ let some_named : 1 + count_named key cards ≡ 0 = rw t at e in absurd (omega arith)
    | inr t ↦
        let later : 0 + count_named key cards ≡ 0 = rw t at e in
        (t, count_named_none cards (omega arith))
  ]

  -- Behind the only card that has the keyword, none has.
  after_only :
      (cards : List (List ℕ)) (n : ℕ)
      → count_named key cards ≤ 1
      → names_key key (get_or cards n []) ≡ true
      → All Other (drop (suc n) cards)
  after_only [] n few t = tt
  after_only (card ∷ cards) zero few t =
      let one : 1 + count_named key cards ≤ 1 = rw t at few in count_named_none cards (omega arith)
  after_only (card ∷ cards) (suc n) few t = after_only cards n (ground arith) t

  find_card_for_key-none :
      is_skipped key ≡ false
      → (i : ℕ) (cards : List (List ℕ)) → All Other cards
      → find_card_for_key i cards key ≡ none
  unfolding find_card_for_key keyword_of
  find_card_for_key-none ordinary i [] others = refl
  find_card_for_key-none ordinary i (card ∷ cards) (other, others) =
      rw (value_part-none key ordinary (trim_end card) other)
        (find_card_for_key-none ordinary (suc i) cards others)

-- What a deletion leaves of the cards, and whether it found one. Without a card that has the keyword,
-- all of them; else the first such card goes, with all the CONTINUE cards of its value, and the cards
-- before and behind them stay.
pub data IsDeleted (key : List ℕ) (cards left : List (List ℕ)) (found : Bool) : Type 0 where
  untouched : All (Other key) cards → left ≡ cards → found ≡ false → IsDeleted key cards left found
  deleted :
      (before chain rest : List (List ℕ)) (card : List ℕ)
      → All (Other key) before
      → names_key key card ≡ true
      → IsValueTail card chain rest
      → cards ≡ before ++ (card ∷ (chain ++ rest))
      → left ≡ before ++ rest
      → found ≡ true
      → IsDeleted key cards left found

parts_at :
    (cards : List (List ℕ)) (i : ℕ)
    → i < length cards
    → cards ≡ take i cards ++ (get_or cards i [] ∷ drop (suc i) cards)
parts_at [] i less = absurd (omega arith)
parts_at (card ∷ cards) zero less = refl
parts_at (card ∷ cards) (suc i) less = ap (◌∷◌ card) (parts_at cards i (omega arith))

delete_card_for_key-IsDeleted :
    (cards : List (List ℕ)) (key : List ℕ)
    → IsDeleted key cards (delete_card_for_key cards key).0 (delete_card_for_key cards key).1
unfolding delete_card_for_key find_chain_end
delete_card_for_key-IsDeleted cards key = elim (Option-cases (position (names_key key) cards)) [
  | inl none_there ↦
      rw none_there (untouched (position-none (names_key key) cards none_there) refl refl)
  | inr (i, at) ↦
      let (before, less, here) = position-some (names_key key) cards i at in
      let last = get_or cards i [] in
      let rest = drop (suc i) cards in
      let more = chain_more last rest in
      let parts : cards ≡ take i cards ++ (last ∷ (take more rest ++ drop more rest)) =
        rw (take-append-drop more rest) (parts_at cards i less) in
      rw (at, drop-drop (suc i) more cards)
        (deleted (take i cards) (take more rest) (drop more rest) last before here
          (chain_more-IsValueTail last rest) parts refl refl)
]

module _ (cards : List (List ℕ)) (key : List ℕ) (ordinary : is_skipped key ≡ false)
    (few : count_named key cards ≤ 1) (chained : HasNoOrphan cards) where
  lookup_value-deleted :
      (lookup_value (delete_card_for_key cards key).0 key ≡ none)
      × HasNoOrphan (delete_card_for_key cards key).0
  unfolding delete_card_for_key lookup_value find_chain_end
  lookup_value-deleted = elim (Option-cases (position (names_key key) cards)) [
    | inl absent ↦
        let others = position-none (names_key key) cards absent in
        rw (absent, find_card_for_key-none key ordinary 0 cards others) (refl, chained)
    | inr (i, at) ↦
        let (before, less, here) = position-some (names_key key) cards i at in
        let last = get_or cards i [] in
        let rest = drop (suc i) cards in
        let more = chain_more last rest in
        let others =
          All-append (λ (c : List ℕ). names_key key c ≡ false) (take i cards) (drop more rest)
            before
            (All-drop (λ (c : List ℕ). names_key key c ≡ false) more rest
              (after_only key cards i few here)) in
        let result = take i cards ++ drop more rest in
        rw (at, drop-drop (suc i) more cards, find_card_for_key-none key ordinary 0 result others)
          (
            refl,
            HasNoOrphan-append (take i cards) (drop more rest) (HasNoOrphan-take i cards chained) (
                chain_more-HasNoOrphan last rest (IsChained-drop-HasNoOrphan cards i chained less)),
          )
  ]

-- For a keyword that stands on one card at most, in a header where each CONTINUE card goes on with a
-- value. If no card has the keyword, the cards stay as they are, and `false` is returned. Else `true` is
-- returned, and of the cards exactly the one with the keyword goes, with all the CONTINUE cards of its
-- value; those before and behind stay in order. The keyword is not found any more, and each CONTINUE
-- card that is left goes on with a value.
pub lookup_value-delete_card_for_key :
    (cards : List (List ℕ)) (key : List ℕ)
    → is_skipped key ≡ false
    → count_named key cards ≤ 1
    → HasNoOrphan cards
    → IsDeleted key cards (delete_card_for_key cards key).0 (delete_card_for_key cards key).1
      × (lookup_value (delete_card_for_key cards key).0 key ≡ none)
      × HasNoOrphan (delete_card_for_key cards key).0
lookup_value-delete_card_for_key cards key ordinary few chained = (
  delete_card_for_key-IsDeleted cards key,
  (lookup_value-deleted cards key ordinary few chained).0,
  (lookup_value-deleted cards key ordinary few chained).1,
)
