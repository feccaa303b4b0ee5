-- ===== src/Header/SetGet.antt =====
-- header.rs: a string that is set in a header is what a lookup reads.
use rustfits.Prelude.{
  ℕ, zero, suc, ◌+◌, ◌≤◌, ◌<◌, ◌≡◌, refl, sym, ap, ◌∙◌, Bool, true, false, not, ◌||◌, inl, inr,
  Bool-cases, Option-cases, List, [], ◌∷◌, ◌++◌, map, Option, none, some, length, take, drop,
  get_or, drop_all, All, All-take, ok, arith,
}
use mathlib.Core.Path.{subst}
use rustfits.Header.Text.{codes, trim_end, same, starts_with}
use rustfits.Header.Value.{Value}
use rustfits.Header.Build.{build_string_value_cards}
use rustfits.Header.Trim.{and_false, trim_end_idem}
use rustfits.Header.Chain.{IsEnd}
use rustfits.Header.Single.{IsReadBack}
use rustfits.Header.Strings.{read_first, parse_value_with_continue-build_string_value_cards}
use rustfits.Header.Keyword.{normalize_keyword}
use rustfits.Header.Edit.{
  position, chain_more, find_chain_end, card_value_ends_with_amp, is_continue, is_end_card,
  names_key, set_card_for_key, lookup_value, value_part,
}
use rustfits.Header.Found.{same-eq, lookup_value-behind}
use rustfits.Header.Written.{build_string_value_cards-IsWritten, IsUserKey, value_part-IsCard}

-- Each CONTINUE card goes on with the card before it.
abbrev pub IsChained : List ℕ → List (List ℕ) → Type 0
IsChained last [] = Unit
IsChained last (card ∷ cards) =
    ((not (is_continue card) || card_value_ends_with_amp last) ≡ true) × IsChained card cards

abbrev pub HasNoOrphan : List (List ℕ) → Type 0
HasNoOrphan [] = Unit
HasNoOrphan (card ∷ cards) = (is_continue card ≡ false) × IsChained card cards

-- What stands behind a value has no CONTINUE card of its own at the front.
pub chain_more-HasNoOrphan :
    (last : List ℕ) (cards : List (List ℕ))
    → IsChained last cards
    → HasNoOrphan (drop (chain_more last cards) cards)
unfolding chain_more
chain_more-HasNoOrphan last [] chained = tt
chain_more-HasNoOrphan last (card ∷ cards) (here, chained) = elim (Bool-cases (is_continue card)) [
  | inr e ↦ rw (e, and_false (card_value_ends_with_amp last)) (e, chained)
  | inl e ↦
      let joined : card_value_ends_with_amp last ≡ true = rw e at here in
      rw (joined, e) (chain_more-HasNoOrphan card cards chained)
]

HasNoOrphan-IsEnd : (cards : List (List ℕ)) → HasNoOrphan cards → IsEnd cards
HasNoOrphan-IsEnd [] h = tt
HasNoOrphan-IsEnd (card ∷ cards) (here, chained) = here

IsChained-drop :
    (last : List ℕ) (cards : List (List ℕ)) (start : ℕ)
    → IsChained last cards
    → start < length cards
    → IsChained (get_or cards start []) (drop (suc start) cards)
IsChained-drop last [] start chained h = absurd (omega arith)
IsChained-drop last (card ∷ cards) zero (here, chained) h = chained
IsChained-drop last (card ∷ cards) (suc start) (here, chained) h =
    IsChained-drop card cards start chained (omega arith)

pub IsChained-drop-HasNoOrphan :
    (cards : List (List ℕ)) (start : ℕ)
    → HasNoOrphan cards
    → start < length cards
    → IsChained (get_or cards start []) (drop (suc start) cards)
IsChained-drop-HasNoOrphan [] start h less = absurd (omega arith)
IsChained-drop-HasNoOrphan (card ∷ cards) zero (here, chained) less = chained
IsChained-drop-HasNoOrphan (card ∷ cards) (suc start) (here, chained) less =
    IsChained-drop card cards start chained (omega arith)

drop_nil : (n : ℕ) → drop {A = List ℕ} n [] ≡ []
drop_nil zero = refl
drop_nil (suc n) = refl

pub drop-drop : (m n : ℕ) (cards : List (List ℕ)) → drop (m + n) cards ≡ drop n (drop m cards)
drop-drop zero n cards = let e : 0 + n ≡ n = omega arith in rw e refl
drop-drop (suc m) n [] = drop_nil (suc m + n) ∙ sym (drop_nil n)
drop-drop (suc m) n (c ∷ cards) =
    let e : suc m + n ≡ suc (m + n) = omega arith in rw e (drop-drop m n cards)

pub find_chain_end-IsEnd :
    (cards : List (List ℕ)) (start : ℕ)
    → HasNoOrphan cards
    → start < length cards
    → IsEnd (drop (find_chain_end cards start) cards)
unfolding find_chain_end
find_chain_end-IsEnd cards start h less =
    let last = get_or cards start [] in
    let rest = drop (suc start) cards in
    rw (drop-drop (suc start) (chain_more last rest) cards) (
      HasNoOrphan-IsEnd (drop (chain_more last rest) rest)
        (chain_more-HasNoOrphan last rest (IsChained-drop-HasNoOrphan cards start h less)))

-- What a search by position has seen.
pub position-some :
    (test : List ℕ → Bool) (cards : List (List ℕ)) (n : ℕ)
    → position test cards ≡ some n
    → All (λ (c : List ℕ). test c ≡ false) (take n cards)
      × (n < length cards)
      × (test (get_or cards n []) ≡ true)
position-some test [] n e = absurd (cc)
position-some test (c ∷ cards) n e = elim (Bool-cases (test c)) [
  | inl t ↦
      let here : ◌≡◌ {A = Option ℕ} (some 0) (some n) = rw t at e in
      let first : 0 ≡ n = cc (here) in rw (sym first) (tt, omega arith, t)
  | inr t ↦ elim (Option-cases (position test cards)) [
    | inl absent ↦
        let none_here : ◌≡◌ {A = Option ℕ} none (some n) = rw (t, absent) at e in absurd (cc)
    | inr (m, at) ↦
        let later : ◌≡◌ {A = Option ℕ} (some (suc m)) (some n) = rw (t, at) at e in
        let next : suc m ≡ n = cc (later) in
        let (others, less, there) = position-some test cards m at in
        rw (sym next) ((t, others), omega arith, there)
  ]
]

pub position-none :
    (test : List ℕ → Bool) (cards : List (List ℕ))
    → position test cards ≡ none
    → All (λ (c : List ℕ). test c ≡ false) cards
position-none test [] e = tt
position-none test (c ∷ cards) e = elim (Bool-cases (test c)) [
  | inl t ↦ let here : ◌≡◌ {A = Option ℕ} (some 0) none = rw t at e in absurd (cc)
  | inr t ↦ elim (Option-cases (position test cards)) [
    | inl absent ↦ (t, position-none test cards absent)
    | inr (m, at) ↦
        let later : ◌≡◌ {A = Option ℕ} (some (suc m)) none = rw (t, at) at e in absurd (cc)
  ]
]

is_end_card-IsEnd :
    (cards : List (List ℕ)) (n : ℕ)
    → n < length cards
    → is_end_card (get_or cards n []) ≡ true
    → IsEnd (drop n cards)
unfolding starts_with
is_end_card-IsEnd [] n less e = absurd (omega arith)
is_end_card-IsEnd (card ∷ cards) zero less e = rw (same-eq (trim_end card) (codes "END") e) refl
is_end_card-IsEnd (card ∷ cards) (suc n) less e = is_end_card-IsEnd cards n (omega arith) e

module _ (cards : List (List ℕ)) (key value comment : List ℕ) (user : IsUserKey key)
    (few : length comment ≤ 47) (chained : HasNoOrphan cards) where
  abbrev name : List ℕ
  name = normalize_keyword key

  -- The new cards between two parts of the header.
  spliced :
      (before after new : List (List ℕ))
      → All (λ (c : List ℕ). names_key name c ≡ false) before
      → build_string_value_cards key value comment ≡ ok new
      → IsReadBack value comment (read_first (map trim_end new ++ after))
      → (r : Value × List ℕ) × (lookup_value (before ++ (map trim_end new ++ after)) name ≡ some r)
        × IsReadBack value comment r
  spliced before after new others built back =
      let w = build_string_value_cards-IsWritten key value comment new user.short built in
      let first = trim_end w.first in
      let rest = map trim_end w.others ++ after in
      let new_cards : map trim_end new ++ after ≡ first ∷ rest =
        ap (λ (l : List (List ℕ)). map trim_end l ++ after) w.whole in
      let part : value_part name (trim_end first) ≡ some (drop 9 first) =
        ap (value_part name) (trim_end_idem w.first) ∙ value_part-IsCard key w.first user w.card in
      (
        read_first (map trim_end new ++ after),
        rw new_cards
            (lookup_value-behind name user.ordinary before rest first (drop 9 first) others part),
        back,
      )

  abbrev Reads : List (List ℕ) → Type 0
  Reads header =
      (r : Value × List ℕ) × (lookup_value header name ≡ some r) × IsReadBack value comment r

  -- Where the search for the keyword ends.
  set_card_for_key-Reads :
      (new : List (List ℕ))
      → build_string_value_cards key value comment ≡ ok new
      → ((after : List (List ℕ))
          → IsEnd after
          → IsReadBack value comment (read_first (map trim_end new ++ after)))
      → Reads (set_card_for_key cards name new)
  unfolding set_card_for_key
  set_card_for_key-Reads new built back = elim (Option-cases (position (names_key name) cards)) [
    | inr (start, at) ↦
        let (others, less, there) = position-some (names_key name) cards start at in
        let after = drop (find_chain_end cards start) cards in
        rw at (
          spliced (take start cards) after new others built
            (back after (find_chain_end-IsEnd cards start chained less)))
    | inl absent ↦
        let all = position-none (names_key name) cards absent in
        elim (Option-cases (position is_end_card cards)) [
          | inr (n, at) ↦
              let (_, less, there) = position-some is_end_card cards n at in
              rw (absent, at)
                (spliced (take n cards) (drop n cards) new
                  (All-take (λ (c : List ℕ). names_key name c ≡ false) n cards all) built
                  (back (drop n cards) (is_end_card-IsEnd cards n less there)))
          | inl never ↦
              let n = length cards in
              rw (absent, never)
                (spliced (take n cards) (drop n cards) new
                  (All-take (λ (c : List ℕ). names_key name c ≡ false) n cards all) built
                  (back (drop n cards) (rw (drop_all n cards (omega arith)) tt)))
        ]
  ]

same_cards :
    (key value comment : List ℕ) (new : List (List ℕ))
    → build_string_value_cards key value comment ≡ ok new
    → (after : List (List ℕ))
    → (cards : List (List ℕ)) × (build_string_value_cards key value comment ≡ ok cards)
      × IsReadBack value comment (read_first (map trim_end cards ++ after))
    → IsReadBack value comment (read_first (map trim_end new ++ after))
same_cards key value comment new built after (cards, built', back) =
    let same : cards ≡ new = cc (built, built') in
    subst (λ (c : List (List ℕ)). IsReadBack value comment (read_first (map trim_end c ++ after)))
      same back

-- A string that is set under a keyword of at most 8 bytes is what a lookup of the keyword reads, up
-- to spaces at its end, with its comment of at most 47 bytes. The keyword may be new in the header or
-- stand there already, and the header has no CONTINUE card that does not go on with a value.
pub lookup_value-set_card_for_key :
    (cards : List (List ℕ)) (key value comment : List ℕ)
    → IsUserKey key
    → length comment ≤ 47
    → HasNoOrphan cards
    → (new : List (List ℕ)) × (build_string_value_cards key value comment ≡ ok new)
      × (r : Value × List ℕ) × (lookup_value
            (set_card_for_key cards (normalize_keyword key) new)
            (normalize_keyword key)
          ≡ some r)
      × IsReadBack value comment r
lookup_value-set_card_for_key cards key value comment user few chained =
    let written = parse_value_with_continue-build_string_value_cards key value comment in
    let (new, built, _) = written [] user.short (inl few) tt in
    let (r, found, same) =
      set_card_for_key-Reads cards key value comment user few chained new built (λ after end.
        same_cards key value comment new built after (written after user.short (inl few) end)) in
    (new, built, r, found, same)
