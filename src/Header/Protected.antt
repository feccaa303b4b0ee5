-- ===== src/Header/Protected.antt =====
-- header.rs: what filter_protected_cards leaves.
use rustfits.Prelude.{
  ℕ, zero, suc, ◌≤◌, ◌≡◌, refl, true, false, inl, inr, Bool-cases, List, [], ◌∷◌, length, ◌++◌,
  take-append-drop, length-drop, drop, arith,
}
use mathlib.Core.Path.{subst}
use rustfits.Header.Keyword.{keyword_of}
use rustfits.Header.Edit.{chain_more, is_protected_card, filter_loop, filter_protected_cards}
use rustfits.Header.Removed.{IsValueTail, chain_more-IsValueTail}
use rustfits.Header.SetGet.{IsChained, HasNoOrphan, chain_more-HasNoOrphan}

-- What is left of the cards, in order: the protected ones are removed, each with all the CONTINUE
-- cards of its value, and every other card is kept.
pub data IsFiltered : List (List ℕ) → List (List ℕ) → Type 0 where
  done : IsFiltered [] []
  kept :
      {card : List ℕ} {left cards : List (List ℕ)}
      → is_protected_card card (keyword_of card) ≡ false
      → IsFiltered left cards
      → IsFiltered (card ∷ left) (card ∷ cards)
  removed :
      {card : List ℕ} {left chain rest : List (List ℕ)}
      → is_protected_card card (keyword_of card) ≡ true
      → IsValueTail card chain rest
      → IsFiltered left rest
      → IsFiltered left (card ∷ chain ++ rest)

removed_value :
    (card : List ℕ) (left cards : List (List ℕ))
    → is_protected_card card (keyword_of card) ≡ true
    → IsFiltered left (drop (chain_more card cards) cards)
    → IsFiltered left (card ∷ cards)
removed_value card left cards protected f =
    subst (λ (l : List (List ℕ)). IsFiltered left (card ∷ l))
      (take-append-drop (chain_more card cards) cards)
      (removed protected (chain_more-IsValueTail card cards) f)

filter_loop-IsFiltered :
    (fuel : ℕ) (cards : List (List ℕ))
    → length cards ≤ fuel
    → IsFiltered (filter_loop fuel cards) cards
unfolding filter_loop
filter_loop-IsFiltered zero [] enough = done
filter_loop-IsFiltered zero (card ∷ cards) enough = absurd (omega arith)
filter_loop-IsFiltered (suc fuel) [] enough = done
filter_loop-IsFiltered (suc fuel) (card ∷ cards) enough =
    elim (Bool-cases (is_protected_card card (keyword_of card))) [
      | inr t ↦ rw t (kept t (filter_loop-IsFiltered fuel cards (omega arith)))
      | inl t ↦
          let n = length-drop (chain_more card cards) cards in
          rw t (
            removed_value card (filter_loop fuel (drop (chain_more card cards) cards)) cards t
              (filter_loop-IsFiltered fuel (drop (chain_more card cards) cards) (omega arith)))
    ]

HasNoOrphan-IsChained :
    (last : List ℕ) (cards : List (List ℕ)) → HasNoOrphan cards → IsChained last cards
HasNoOrphan-IsChained last [] h = tt
HasNoOrphan-IsChained last (card ∷ cards) (here, chained) = (rw here refl, chained)

-- The two kinds of lists that the loop meets: behind a card that is kept, and behind a chain.
mutual
  unfolding filter_loop

  filter_loop-IsChained :
      (fuel : ℕ) (last : List ℕ) (cards : List (List ℕ))
      → IsChained last cards
      → IsChained last (filter_loop fuel cards)
  filter_loop-IsChained zero last cards chained = tt
  filter_loop-IsChained (suc fuel) last [] chained = tt
  filter_loop-IsChained (suc fuel) last (card ∷ cards) (here, chained) =
      elim (Bool-cases (is_protected_card card (keyword_of card))) [
        | inr t ↦ rw t (here, filter_loop-IsChained fuel card cards chained)
        | inl t ↦
            let rest = drop (chain_more card cards) cards in
            rw t (
              HasNoOrphan-IsChained last (filter_loop fuel rest)
                (filter_loop-HasNoOrphan fuel rest (chain_more-HasNoOrphan card cards chained)))
      ]

  filter_loop-HasNoOrphan :
      (fuel : ℕ) (cards : List (List ℕ)) → HasNoOrphan cards → HasNoOrphan (filter_loop fuel cards)
  filter_loop-HasNoOrphan zero cards h = tt
  filter_loop-HasNoOrphan (suc fuel) [] h = tt
  filter_loop-HasNoOrphan (suc fuel) (card ∷ cards) (here, chained) =
      elim (Bool-cases (is_protected_card card (keyword_of card))) [
        | inr t ↦ rw t (here, filter_loop-IsChained fuel card cards chained)
        | inl t ↦
            let rest = drop (chain_more card cards) cards in
            rw t (filter_loop-HasNoOrphan fuel rest (chain_more-HasNoOrphan card cards chained))
      ]

-- In a header where each CONTINUE card goes on with a value, filter_protected_cards leaves out exactly
-- the protected cards, each with all the CONTINUE cards of its value; every other card is kept, CONTINUE
-- cards of other values too, in order. So each CONTINUE card that is left goes on with a value.
pub filter_protected_cards-IsFiltered :
    (cards : List (List ℕ))
    → HasNoOrphan cards
    → IsFiltered (filter_protected_cards cards) cards × HasNoOrphan (filter_protected_cards cards)
unfolding filter_protected_cards
filter_protected_cards-IsFiltered cards h = (
  filter_loop-IsFiltered (length cards) cards (omega arith),
  filter_loop-HasNoOrphan (length cards) cards h,
)
