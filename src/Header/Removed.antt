-- ===== src/Header/Removed.antt =====
-- header.rs: the cards of a value that are removed with its first, described on their own.
use rustfits.Prelude.{
  ◌≡◌, refl, Bool, true, false, ◌&&◌, inl, inr, Bool-cases, and_true, List, [], ◌∷◌, take, drop, ℕ,
}
use rustfits.Header.Edit.{card_value_ends_with_amp, chain_more, is_continue}

-- A card that goes on with the value of `last`: `last` promises it, and it is a CONTINUE card.
abbrev pub goes_on : List ℕ → List (List ℕ) → Bool
goes_on last [] = false
goes_on last (next ∷ cards) = card_value_ends_with_amp last && is_continue next

-- Behind `last` stand the CONTINUE cards of its value, all of them, and then the rest.
pub data IsValueTail : List ℕ → List (List ℕ) → List (List ℕ) → Type 0 where
  over :
      {last : List ℕ} {rest : List (List ℕ)} → goes_on last rest ≡ false → IsValueTail last [] rest
  more :
      {last next : List ℕ} {chain rest : List (List ℕ)}
      → card_value_ends_with_amp last ≡ true
      → is_continue next ≡ true
      → IsValueTail next chain rest
      → IsValueTail last (next ∷ chain) rest

pub chain_more-IsValueTail :
    (last : List ℕ) (cards : List (List ℕ))
    → IsValueTail last (take (chain_more last cards) cards) (drop (chain_more last cards) cards)
unfolding chain_more
chain_more-IsValueTail last [] = over refl
chain_more-IsValueTail last (next ∷ cards) =
    elim (Bool-cases (card_value_ends_with_amp last && is_continue next)) [
      | inr t ↦ rw t (over t)
      | inl t ↦
          let (promised, here) = and_true (card_value_ends_with_amp last) (is_continue next) t in
          rw t (more promised here (chain_more-IsValueTail next cards))
    ]
